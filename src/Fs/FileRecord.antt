-- ===== src/Fs/FileRecord.antt =====
-- The record of kernel/src/fs.rs: all files and directories in whole sectors.
pub mod Sizes
pub mod Written
pub mod Encoded
pub mod ReadEntries
pub mod Distinct
pub mod RoundTrip
use codex_os.Prelude.{
  ℕ, zero, suc, ◌+◌, ◌-◌, ◌%◌, ◌==◌, ltb, leb, max, List, [], ◌∷◌, ◌++◌, Bool, true, false, not,
  ◌&&◌, ◌||◌, any, length, take, checked_add, Option, none, some, bit_and, if◌then◌else◌,
}
use codex_os.Prelude.Results.{Result, ok, err, ◌>>=◌, ◌>>◌, fail_if, ok_or}
use codex_os.Bytes.{zeros, slice, put, put_u16, put_u32, put_u64, bytes_eq, crc32}
use codex_os.Fs.{
  Text, FsError, FileEntry, EntryKind, file, directory, sector_size, format_version,
  min_format_version, record_header_bytes, record_bytes_min, max_record_bytes, max_files, get_u16,
  get_u32, get_u64, align_up_usize, corrupt_record, too_many_files, snapshot_too_large,
  arithmetic_overflow, invalid_utf8,
}
use codex_os.Fs.Utf8.{is_utf8}
use codex_os.Fs.FilePath.{validate_path, validate_permissions, validate_tree, is_directory_kind}

-- b"CDXREC1\0".
abbrev pub record_magic : List ℕ
record_magic = 0x43 ∷ 0x44 ∷ 0x58 ∷ 0x52 ∷ 0x45 ∷ 0x43 ∷ 0x31 ∷ 0 ∷ []

abbrev pub legacy_record_entry_bytes : ℕ
legacy_record_entry_bytes = 8

abbrev pub record_entry_bytes : ℕ
record_entry_bytes = 12

abbrev pub record_header_crc_offset : ℕ
record_header_crc_offset = 36

-- 0o644.
abbrev pub default_file_permissions : ℕ
default_file_permissions = 0x1a4

abbrev pub encode_kind : EntryKind → ℕ
encode_kind file = 1
encode_kind directory = 2

unfoldable pub decode_kind : ℕ → Result FsError EntryKind
decode_kind raw =
    if raw == 1 then ok file else if raw == 2 then ok directory else err corrupt_record

-- The loop of required_record_bytes, from the bytes so far.
unfoldable pub add_required : ℕ → List FileEntry → Result FsError ℕ
add_required bytes [] = ok bytes
add_required bytes (entry ∷ files) = do
  with_entry ← ok_or (checked_add bytes record_entry_bytes) arithmetic_overflow
  with_name ← ok_or (checked_add with_entry (length entry.name)) arithmetic_overflow
  with_contents ← ok_or (checked_add with_name (length entry.contents)) arithmetic_overflow
  add_required with_contents files

abbrev pub required_record_bytes : List FileEntry → Result FsError ℕ
required_record_bytes files = add_required record_header_bytes files

-- One turn of the loop: the record and the cursor behind the entry.
unfoldable pub put_entry : List ℕ → ℕ → FileEntry → Result FsError (List ℕ × ℕ)
put_entry output cursor entry = do
  validate_path entry.name
  let name_len = length entry.name
  let o1 = put_u16 (put_u16 output cursor name_len) (cursor + 2) (encode_kind entry.kind)
  let o2 = put_u16 (put_u32 o1 (cursor + 4) (length entry.contents)) (cursor + 8) entry.permissions
  let o3 = put (put_u16 o2 (cursor + 10) 0) (cursor + record_entry_bytes) entry.name
  let behind = cursor + record_entry_bytes + name_len
  ok (put o3 behind entry.contents, behind + length entry.contents)

unfoldable pub put_entries : List ℕ → ℕ → List FileEntry → Result FsError (List ℕ × ℕ)
put_entries output cursor [] = ok (output, cursor)
put_entries output cursor (entry ∷ files) = do
  next ← put_entry output cursor entry
  put_entries next.0 next.1 files

-- The header of a record without its checksums.
unfoldable pub record_header : ℕ → ℕ → ℕ → List ℕ
record_header record_bytes generation count =
    let o1 = put_u32 (put (zeros record_bytes) 0 record_magic) 8 format_version in
    put_u32 (put_u64 (put_u32 o1 12 record_header_bytes) 16 generation) 24 count

-- The length and the checksums, once all entries are written up to the cursor.
unfoldable pub seal_record : List ℕ → ℕ → List ℕ
seal_record output cursor =
    let o1 = put_u32 output 28 (cursor - record_header_bytes) in
    let o2 = put_u32 o1 32 (crc32 (slice o1 record_header_bytes (cursor - record_header_bytes))) in
    put_u32 o2 record_header_crc_offset (crc32 (take record_header_bytes o2))

unfoldable pub encode_record : ℕ → List FileEntry → Result FsError (List ℕ)
encode_record generation files = do
  fail_if (ltb max_files (length files)) too_many_files
  validate_tree files true
  required_bytes ← required_record_bytes files
  aligned ← align_up_usize required_bytes sector_size
  fail_if (ltb max_record_bytes (max aligned record_bytes_min)) snapshot_too_large
  written ←
      put_entries (record_header (max aligned record_bytes_min) generation (length files))
        record_header_bytes files
  ok (seal_record written.0 written.1)

unfoldable pub has_name : List ℕ → List FileEntry → Bool
has_name name [] = false
has_name name (entry ∷ files) = bytes_eq entry.name name || has_name name files

abbrev legacy_metadata : ℕ → Result FsError (EntryKind × ℕ)
legacy_metadata flags = do
  fail_if (not (flags == 0)) corrupt_record
  ok (file, default_file_permissions)

abbrev current_metadata : List ℕ → ℕ → ℕ → Result FsError (EntryKind × ℕ)
current_metadata input flags cursor = do
  kind ← decode_kind flags
  permissions ← get_u16 input (cursor + 8)
  reserved ← get_u16 input (cursor + 10)
  fail_if (not (reserved == 0)) corrupt_record
  validate_permissions permissions
  ok (kind, permissions)

-- The kind and the permissions of an entry: version 1 has neither.
unfoldable pub get_metadata : List ℕ → ℕ → ℕ → Result FsError (EntryKind × ℕ)
get_metadata input version cursor = do
  flags ← get_u16 input (cursor + 2)
  if version == 1 then legacy_metadata flags else current_metadata input flags cursor

-- One turn of the loop: the files with the entry at the cursor, and the cursor behind it.
unfoldable pub get_entry : List ℕ → ℕ → ℕ → List FileEntry → ℕ → Result FsError (List FileEntry × ℕ)
get_entry input version payload_end files cursor = do
  metadata_end ←
      ok_or
        (checked_add cursor
          (if version == 1 then legacy_record_entry_bytes else record_entry_bytes))
        corrupt_record
  fail_if (ltb payload_end metadata_end) corrupt_record
  name_len ← get_u16 input cursor
  data_len ← get_u32 input (cursor + 4)
  metadata ← get_metadata input version cursor
  name_end ← ok_or (checked_add metadata_end name_len) corrupt_record
  data_end ← ok_or (checked_add name_end data_len) corrupt_record
  fail_if (ltb payload_end data_end) corrupt_record
  let name = slice input metadata_end name_len
  fail_if (not (is_utf8 name_len name)) invalid_utf8
  validate_path name
  fail_if (is_directory_kind metadata.0 && not (data_len == 0)) corrupt_record
  fail_if (has_name name files) corrupt_record
  let entry : FileEntry = record {
    name = name;
    contents = slice input name_end data_len;
    kind = metadata.0;
    permissions = metadata.1;
  }
  ok (files ++ entry ∷ [], data_end)

unfoldable pub get_entries :
    ℕ → List ℕ → ℕ → ℕ → List FileEntry → ℕ → Result FsError (List FileEntry × ℕ)
get_entries zero input version payload_end files cursor = ok (files, cursor)
get_entries (suc count) input version payload_end files cursor = do
  next ← get_entry input version payload_end files cursor
  get_entries count input version payload_end next.0 next.1

-- The tests of the header, with the version that it names.
unfoldable pub check_record_header : List ℕ → ℕ → Result FsError ℕ
check_record_header input expected_generation = do
  fail_if (ltb (length input) record_header_bytes) corrupt_record
  version ← get_u32 input 8
  header_bytes ← get_u32 input 12
  generation ← get_u64 input 16
  fail_if
      (not (bytes_eq (slice input 0 8) record_magic)
        || (not (leb min_format_version version && leb version format_version)
            || (not (header_bytes == record_header_bytes)
                || not (generation == expected_generation))))
      corrupt_record
  stored_header_crc ← get_u32 input record_header_crc_offset
  fail_if
      (not (
        crc32 (put_u32 (take record_header_bytes input) record_header_crc_offset 0)
        == stored_header_crc))
      corrupt_record
  ok version

unfoldable pub decode_record : List ℕ → ℕ → Result FsError (List FileEntry)
decode_record input expected_generation = do
  version ← check_record_header input expected_generation
  entry_count ← get_u32 input 24
  payload_bytes ← get_u32 input 28
  fail_if (ltb max_files entry_count) corrupt_record
  payload_end ← ok_or (checked_add record_header_bytes payload_bytes) corrupt_record
  fail_if (ltb (length input) payload_end) corrupt_record
  payload_crc ← get_u32 input 32
  fail_if (not (crc32 (slice input record_header_bytes payload_bytes) == payload_crc))
      corrupt_record
  read ← get_entries entry_count input version payload_end [] record_header_bytes
  fail_if (not (read.1 == payload_end)) corrupt_record
  validate_tree read.0 (not (version == 1))
  ok read.0
