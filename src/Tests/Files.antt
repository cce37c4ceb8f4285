-- ===== src/Tests/Files.antt =====
-- The filesystem of kernel/src/fs.rs on a device of 136 sectors.
use codex_os.Prelude.{◌↔◌, some, ◌∙◌, ◌≡◌, refl, sym, ap, List, [], ◌∷◌, true, arith}
use codex_os.Prelude.Results.{ok, value_or}
use codex_os.Bytes.{zeros, put, slice, to_le_bytes, from_le_bytes, bytes_eq}
use codex_os.Fs.{
  FileEntry, Superblock, file, request_timed_out, align_up_usize, record_slot_span,
  record_slot_count, ranges_overlap,
}
use codex_os.Fs.FilePath.{
  find_entry, validate_path, is_invalid_path, split, rfind_slash, parent_path,
  ensure_parent_directory, validate_permissions, validate_entry, validate_entries,
}
use codex_os.Fs.FileRecord.{
  encode_record, add_required, put_entry, put_entries, record_header, seal_record, decode_record,
  has_name,
}
use codex_os.Fs.Utf8.{is_utf8, next_char}
use codex_os.Fs.FileRecord.RoundTrip.{IsRecordable, decode_record-encode_record}
use codex_os.Fs.SuperblockCodec.{encode_superblock, decode_superblock}
use codex_os.Fs.SuperblockCodec.RoundTrip.{IsEncodable, decode_superblock-encode_superblock}
use codex_os.Fs.Device.{
  Device, consider, flush, read_sector, set_sector, write_sector, load_latest_snapshot,
}
use codex_os.Fs.Slots.{select_record_start, try_slots, slot_start, overlaps_active}
use codex_os.Fs.Commit.{
  CodexFs, plan_commit, commit_files, mount_or_format, blank, write_plan, write_record,
}
use codex_os.Fs.Tree.{
  add_directories, insert_by, materialize_missing_parent_directories, require_parents,
  required_directories, sort_by, tree_with_file,
}
use codex_os.Fs.Changes.{commit_next, verify_committed_state, write_file_inner}
use codex_os.Fs.FileRecord.Distinct.{HasDistinctNames}
use codex_os.Fs.Tree.Shows.{view}
use codex_os.Fs.Tree.Shown.{permissions_of}
use codex_os.Fs.Changes.{read_file, write_file}
use codex_os.Fs.Changes.Reads.{perform-Refines, readable}
use codex_os.Fs.Changes.Remounts.{HasSlots, Remounts, verify_committed_state_iff}
use codex_os.Fs.Changes.Placed.{IsTree}
use codex_os.Fs.Changes.Trees.{delete_file, perform, perform-IsTree, write}
use codex_os.Fs.Tree.Texts.{IsText}
use codex_os.Fs.Changes.Atomic.{IsAtomic, IsSound, perform-IsAtomic, tree_of}
use codex_os.Fs.Changes.Runs.{HoldsFiles, run, run-HoldsFiles}
use codex_os.Fs.Changes.Failures.{IsAllOrNothing, perform-IsAllOrNothing}
use codex_os.Fs.Commit.Crash.Plans.{IsMounted}
use codex_os.Fs.Commit.Crash.FirstPlan.{first_plan}
use codex_os.Fs.Commit.Crash.Format.{IsUnused, mount_or_format-formats}

abbrev named_record : Superblock
named_record = record {
  generation = 3;
  record_start = 8;
  record_sectors = 64;
  record_bytes = 32768;
  record_crc = 0x1234;
  capacity_sectors = 136;
}

named_record-IsEncodable : IsEncodable 136 named_record
named_record-IsEncodable = record {
  device_fits = omega arith;
  generation_fits = omega arith;
  generation_set = λ e. absurd omega arith;
  behind = omega arith;
  inside = omega arith;
  some_sectors = omega arith;
  few_sectors = omega arith;
  whole_sectors = refl;
  crc_fits = omega arith;
  same_capacity = refl;
}

decode_superblock-encode_superblock_example :
    decode_superblock (encode_superblock named_record) 136 ≡ ok named_record
decode_superblock-encode_superblock_example =
    decode_superblock-encode_superblock 136 named_record named_record-IsEncodable

abbrev new_device : Device
new_device = record {
  sectors = λ at. zeros 512;
  sector_count = 136;
  supports_flush = true;
  writes_left = 100;
  refusal = request_timed_out;
}

new_device-IsUnused : IsUnused new_device
new_device-IsUnused = record {
  first = refl;
  second = refl;
  room = omega arith;
  narrow = omega arith;
}

mount_or_format-formats_example :
    (fs : CodexFs) × ((mount_or_format new_device ≡ ok fs)
      × (((fs.files ≡ []) × (fs.generation ≡ 1)) × IsMounted (first_plan 136).superblock [] fs))
mount_or_format-formats_example =
    mount_or_format-formats new_device new_device-IsUnused refl (omega arith)

unfoldable new_fs : CodexFs
new_fs = value_or (blank new_device 2 64) (mount_or_format new_device)

new_fs-IsMounted : IsMounted (first_plan 136).superblock [] new_fs
unfolding new_fs
new_fs-IsMounted =
    let (fs, (same, (fields, mounted))) =
      mount_or_format-formats new_device new_device-IsUnused refl (omega arith) in
    let e = ap (value_or (blank new_device 2 64)) same in
    coe 0 1 (i. IsMounted (first_plan 136).superblock [] ((sym e) i)) mounted

abbrev one_file : List FileEntry
one_file =
    record { name = 0x2f ∷ 0x61 ∷ []; contents = 1 ∷ 2 ∷ []; kind = file; permissions = 0x1a4 } ∷ []

one_file-encoded : encode_record 2 one_file ≡ ok (value_or [] (encode_record 2 one_file))
unfolding encode_record validate_entries validate_entry validate_path validate_permissions
    is_invalid_path split rfind_slash parent_path ensure_parent_directory add_required
    align_up_usize put_entry put_entries bytes_eq
one_file-encoded = refl

one_file-IsRecordable : IsRecordable one_file
unfolding is_utf8 next_char has_name
one_file-IsRecordable = record {
  storable = (record { text = refl; word = omega arith }, tt);
  distinct = (refl, tt);
}

decode_record-encode_record_example :
    decode_record (value_or [] (encode_record 2 one_file)) 2 ≡ ok one_file
decode_record-encode_record_example =
    decode_record-encode_record 2 one_file (value_or [] (encode_record 2 one_file)) (omega arith)
      one_file-IsRecordable one_file-encoded

new_fs-size : new_fs.device.sector_count ≡ 136
unfolding new_fs mount_or_format record_slot_span record_slot_count load_latest_snapshot read_sector
    consider decode_superblock commit_files plan_commit write_plan write_record write_sector
    set_sector flush select_record_start try_slots slot_start overlaps_active ranges_overlap
    encode_record validate_entries validate_entry validate_path validate_permissions is_invalid_path
    split rfind_slash parent_path ensure_parent_directory add_required align_up_usize put_entry
    put_entries record_header seal_record put to_le_bytes slice from_le_bytes bytes_eq
new_fs-size = refl

new_fs-files : new_fs.files ≡ []
unfolding new_fs
new_fs-files =
    let (fs, (same, ((empty, first), mounted))) =
      mount_or_format-formats new_device new_device-IsUnused refl (omega arith) in
    sym (ap (λ r. (value_or (blank new_device 2 64) r).files) (sym same)) ∙ empty

new_fs-IsTree : IsTree new_fs.files
new_fs-IsTree =
    let none : IsTree [] = record { few = omega arith; each = tt } in
    coe 0 1 (i. IsTree ((sym new_fs-files) i)) none

-- 33 writes are left, and a record takes 64.
perform-IsTree_example : IsTree ((perform new_fs (write (0x2f ∷ 0x61 ∷ []) (1 ∷ 2 ∷ []))).0.files)
perform-IsTree_example = perform-IsTree new_fs (write (0x2f ∷ 0x61 ∷ []) (1 ∷ 2 ∷ [])) new_fs-IsTree

perform-IsAllOrNothing_example :
    IsAllOrNothing new_fs (perform new_fs (write (0x2f ∷ 0x61 ∷ []) (1 ∷ 2 ∷ [])))
perform-IsAllOrNothing_example =
    perform-IsAllOrNothing new_fs (write (0x2f ∷ 0x61 ∷ []) (1 ∷ 2 ∷ []))

unfoldable lasting_fs : CodexFs
lasting_fs =
    value_or (blank new_device 2 64) (mount_or_format (record new_device { writes_left = 1000 }))

lasting_fs-writes : (write_file lasting_fs (0x2f ∷ 0x61 ∷ []) (1 ∷ 2 ∷ [])).1 ≡ ok tt
unfolding lasting_fs mount_or_format record_slot_span record_slot_count load_latest_snapshot
    read_sector consider decode_superblock commit_files plan_commit write_plan write_record
    write_sector set_sector flush select_record_start try_slots slot_start overlaps_active
    ranges_overlap encode_record validate_entries validate_entry validate_path validate_permissions
    is_invalid_path split rfind_slash parent_path ensure_parent_directory add_required
    align_up_usize put_entry put_entries record_header seal_record put to_le_bytes slice
    from_le_bytes bytes_eq write_file write_file_inner commit_next tree_with_file find_entry
    materialize_missing_parent_directories required_directories require_parents add_directories
    sort_by insert_by
lasting_fs-writes = refl

lasting_fs-files : lasting_fs.files ≡ []
unfolding lasting_fs mount_or_format record_slot_span record_slot_count load_latest_snapshot
    read_sector consider decode_superblock commit_files plan_commit write_plan write_record
    write_sector set_sector flush select_record_start try_slots slot_start overlaps_active
    ranges_overlap encode_record validate_entries add_required align_up_usize put_entries
    record_header seal_record put to_le_bytes slice from_le_bytes bytes_eq
lasting_fs-files = refl

lasting_fs-HasSlots : HasSlots lasting_fs
unfolding lasting_fs mount_or_format record_slot_span record_slot_count load_latest_snapshot
    read_sector consider decode_superblock commit_files plan_commit write_plan write_record
    write_sector set_sector flush select_record_start try_slots slot_start overlaps_active
    ranges_overlap encode_record validate_entries add_required align_up_usize put_entries
    record_header seal_record put to_le_bytes slice from_le_bytes bytes_eq
lasting_fs-HasSlots = record { flushes = refl; span = refl; count = refl }

verify_committed_state_iff_example :
    (verify_committed_state lasting_fs ≡ ok lasting_fs) ↔ Remounts lasting_fs lasting_fs
verify_committed_state_iff_example =
    verify_committed_state_iff lasting_fs lasting_fs lasting_fs-HasSlots

lasting_fs-HasDistinctNames : HasDistinctNames lasting_fs.files
lasting_fs-HasDistinctNames = coe 0 1 (i. HasDistinctNames ((sym lasting_fs-files) i)) tt

perform-Refines_example :
    (view ((perform lasting_fs (write (0x2f ∷ 0x61 ∷ []) (1 ∷ 2 ∷ []))).0.files) (0x2f ∷ 0x61 ∷ [])
      ≡ some (1 ∷ 2 ∷ [], permissions_of (view lasting_fs.files (0x2f ∷ 0x61 ∷ []))))
    × (read_file ((perform lasting_fs (write (0x2f ∷ 0x61 ∷ []) (1 ∷ 2 ∷ []))).0) (0x2f ∷ 0x61 ∷ [])
        ≡ readable (some (1 ∷ 2 ∷ [], permissions_of (view lasting_fs.files (0x2f ∷ 0x61 ∷ [])))))
unfolding bytes_eq
perform-Refines_example =
    perform-Refines lasting_fs (write (0x2f ∷ 0x61 ∷ []) (1 ∷ 2 ∷ [])) lasting_fs-HasDistinctNames
      lasting_fs-writes (0x2f ∷ 0x61 ∷ [])

new_fs-IsMounted_itself : IsMounted (first_plan 136).superblock new_fs.files new_fs
new_fs-IsMounted_itself =
    coe 0 1 (i. IsMounted (first_plan 136).superblock ((sym new_fs-files) i) new_fs)
      new_fs-IsMounted

new_fs-IsSound : IsSound (first_plan 136).superblock new_fs
new_fs-IsSound = record {
  mounted = new_fs-IsMounted_itself;
  recordable =
      coe 0 1 (i. IsRecordable ((sym new_fs-files) i)) (record { storable = tt; distinct = tt });
  narrow = let size = new_fs-size in omega arith;
}

one_path-IsText : IsText (0x2f ∷ 0x61 ∷ [])
unfolding is_utf8 next_char
one_path-IsText = refl

perform-IsAtomic_example :
    IsAtomic
      (first_plan 136).superblock
      new_fs
      (tree_of new_fs.files (write (0x2f ∷ 0x61 ∷ []) (1 ∷ 2 ∷ [])))
      (perform new_fs (write (0x2f ∷ 0x61 ∷ []) (1 ∷ 2 ∷ [])))
perform-IsAtomic_example =
    perform-IsAtomic (first_plan 136).superblock new_fs (write (0x2f ∷ 0x61 ∷ []) (1 ∷ 2 ∷ []))
      new_fs-IsSound one_path-IsText

-- The first write needs more than the device has left.
run-HoldsFiles_example :
    HoldsFiles new_fs.files
      (write (0x2f ∷ 0x61 ∷ []) (1 ∷ 2 ∷ []) ∷ delete_file (0x2f ∷ 0x61 ∷ []) ∷ [])
      (run new_fs (write (0x2f ∷ 0x61 ∷ []) (1 ∷ 2 ∷ []) ∷ delete_file (0x2f ∷ 0x61 ∷ []) ∷ []))
run-HoldsFiles_example =
    run-HoldsFiles (first_plan 136).superblock new_fs
      (write (0x2f ∷ 0x61 ∷ []) (1 ∷ 2 ∷ []) ∷ delete_file (0x2f ∷ 0x61 ∷ []) ∷ []) new_fs-IsSound
      (one_path-IsText, (one_path-IsText, tt))
