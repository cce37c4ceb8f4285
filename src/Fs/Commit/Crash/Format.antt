-- ===== src/Fs/Commit/Crash/Format.antt =====
-- Mounting an empty device in kernel/src/fs.rs formats it.
use codex_os.Prelude.{
  ℕ, ◌-◌, ◌/◌, ◌≤◌, ◌≡◌, refl, sym, ap, ◌∙◌, ◌==◌, ltb, [], true, false, not, ◌||◌, arith, none,
  u64_max,
}
use codex_os.Prelude.Results.{Result, ok, err, fail_if, bind-ok}
use codex_os.Bytes.{zeros, slice, from_le_bytes, bytes_eq}
use codex_os.Fs.{FsError, Superblock, record_slot_span, record_slot_count, flush_unsupported}
use codex_os.Fs.SuperblockCodec.{decode_superblock}
use codex_os.Fs.Device.{Device, ok_only, consider, load_latest_snapshot}
use codex_os.Fs.Commit.{
  CodexFs, after_format, blank, slot_state, plan_commit, write_plan, conclude, commit_files,
  mount_or_format,
}
use codex_os.Fs.Commit.Crash.Current.{held, IsOlder, read_sector-inside}
use codex_os.Fs.Commit.Crash.Plans.{IsMounted, plan_commit-IsPlanFor}
use codex_os.Fs.Commit.Crash.Stages.{write_plan-Stages}
use codex_os.Fs.Commit.Crash.Renewed.{IsBehind, IsWritten-IsCurrent, conclude-IsMounted}
use codex_os.Fs.Commit.Crash.Atomic.{commit_files-conclude, conclude-result}
use codex_os.Fs.Commit.Crash.Completes.{write_plan-completes}
use codex_os.Fs.FileRecord.RoundTrip.{decode_record-encode_record}
use codex_os.Fs.Commit.Crash.FirstPlan.{
  slots_of, span_bounds, span_low, record_slot_span-room, record_slot_count-room,
  encode_record-empty, length-empty_record, select_first, empty_record, span_of, first_plan,
}

-- A device whose superblocks were never written.
pub record IsUnused (device : Device) : Type 0 where
  pub first : device.sectors 0 ≡ zeros 512
  pub second : device.sectors 1 ≡ zeros 512
  pub room : 136 ≤ device.sector_count
  pub narrow : device.sector_count ≤ u64_max

zeros-undecodable : (capacity : ℕ) → ok_only (decode_superblock (zeros 512) capacity) ≡ none
unfolding decode_superblock slice from_le_bytes bytes_eq
zeros-undecodable capacity = refl

held-unused : (device : Device) (at : ℕ) → device.sectors at ≡ zeros 512 → held device at ≡ none
held-unused device at h =
    ap (λ sector. ok_only (decode_superblock sector device.sector_count)) h
    ∙ zeros-undecodable device.sector_count

load_latest_snapshot-unused :
    (device : Device) → IsUnused device → load_latest_snapshot device ≡ ok none
unfolding load_latest_snapshot consider
load_latest_snapshot-unused device u =
    let room = u.room in
    rw
      (
        read_sector-inside device 0 (omega arith),
        read_sector-inside device 1 (omega arith),
        u.first,
        u.second,
        zeros-undecodable device.sector_count,
      )
      refl

-- The filesystem that formatting starts from.
abbrev unformatted : Device → CodexFs
unformatted device =
    blank device ((device.sector_count - 8) / span_of device.sector_count)
      (span_of device.sector_count)

plan_commit-unformatted :
    (device : Device)
    → IsUnused device
    → plan_commit (unformatted device) [] ≡ ok (first_plan device.sector_count)
unfolding plan_commit
plan_commit-unformatted device u =
    let room = u.room in
    let two = slots_of device.sector_count room in
    let (narrow, inside) = span_bounds device.sector_count room in
    let start =
      select_first (slot_state (unformatted device))
        ((device.sector_count - 8) / span_of device.sector_count) refl refl two narrow inside in
    let small : (64 == 0 || ltb (span_of device.sector_count) 64) ≡ false =
      let low = span_low device.sector_count room in ground arith in
    rw (encode_record-empty, length-empty_record, small, start) refl

after_format-passed :
    (r : CodexFs × Result FsError (Unit {0})) → r.1 ≡ ok tt → after_format r ≡ ok (r.0)
after_format-passed (fs, ok u) h = refl
after_format-passed (fs, err e) h = absurd cc

mount_unused :
    (device : Device) (slots span : ℕ)
    → device.supports_flush ≡ true
    → record_slot_span device.sector_count ≡ ok span
    → record_slot_count device.sector_count span ≡ ok slots
    → load_latest_snapshot device ≡ ok none
    → mount_or_format device ≡ after_format (commit_files (blank device slots span) [])
unfolding mount_or_format
mount_unused device slots span flushes spans counts loads =
    bind-ok (fail_if (not device.supports_flush) flush_unsupported) _ tt
      (ap (λ b. fail_if (not b) flush_unsupported) flushes)
    ∙ bind-ok (record_slot_span device.sector_count) _ span spans
    ∙ bind-ok (record_slot_count device.sector_count span) _ slots counts
    ∙ bind-ok (load_latest_snapshot device) _ none loads

conclude-files :
    (fs : CodexFs) (superblock : Superblock) (r : Device × Result FsError (Unit {0}))
    → (conclude fs superblock r).0.files ≡ fs.files
conclude-files fs superblock (device, ok u) = refl
conclude-files fs superblock (device, err e) = refl

-- Mounting a device whose two superblock sectors hold zeros, that is large enough for two records of
-- the least size, that can be flushed, and that goes on for 67 writes and flushes, ends well: with a
-- filesystem without files, in its first generation, that is mounted with the snapshot on the device.
pub mount_or_format-formats :
    (device : Device)
    → IsUnused device
    → device.supports_flush ≡ true
    → 67 ≤ device.writes_left
    → (fs : CodexFs) × ((mount_or_format device ≡ ok fs)
        × (((fs.files ≡ []) × (fs.generation ≡ 1))
            × IsMounted (first_plan device.sector_count).superblock [] fs))
mount_or_format-formats device u flushes enough =
    let n = device.sector_count in
    let plan = first_plan n in
    let room = u.room in
    let narrow = u.narrow in
    let (low, inside) = span_bounds n room in
    let planned = plan_commit-unformatted device u in
    let p = plan_commit-IsPlanFor (unformatted device) [] plan planned in
    let r = write_plan device plan in
    let done = write_plan-completes plan device (omega arith) (omega arith) enough in
    let (stays, written) = write_plan-Stages plan device (omega arith) in
    let behind : IsBehind plan.superblock device = record {
      room = omega arith;
      first = coe 0 1 (i. IsOlder plan.superblock ((sym (held-unused device 0 u.first)) i)) tt;
      second = coe 0 1 (i. IsOlder plan.superblock ((sym (held-unused device 1 u.second)) i)) tt;
    } in
    let current =
      IsWritten-IsCurrent (unformatted device) [] plan (r.0) narrow behind p
        (decode_record-encode_record 1 [] empty_record (omega arith)
          (record { storable = tt; distinct = tt }) p.encoded)
        (written done) in
    let mounted = conclude-IsMounted (unformatted device) [] plan r done current in
    let committed = commit_files-conclude (unformatted device) [] plan planned in
    let same : mount_or_format device ≡ ok ((conclude (unformatted device) plan.superblock r).0) =
      mount_unused device ((n - 8) / span_of n) (span_of n) flushes (record_slot_span-room n room)
        (record_slot_count-room n room) (load_latest_snapshot-unused device u)
      ∙ ap after_format committed
      ∙ after_format-passed (conclude (unformatted device) plan.superblock r)
          (conclude-result (unformatted device) plan.superblock r ∙ done) in
    (
      (conclude (unformatted device) plan.superblock r).0,
      (
        same,
        (
          (conclude-files (unformatted device) plan.superblock r, sym mounted.same_generation),
          mounted,
        ),
      ),
    )
