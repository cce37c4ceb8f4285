-- ===== src/Fs/Commit/Crash/FirstPlan.antt =====
-- The first commit of kernel/src/fs.rs, of no files to an empty device.
use native.Mathlib.Nat.{le-div_iff_mul-le, mod-eq_of_lt, mul-div-le}
use codex_os.Prelude.{
  ℕ, zero, suc, ◌+◌, ◌-◌, ◌/◌, ◌≤◌, ◌<◌, ◌≡◌, refl, ap, ◌∙◌, ltb, min, List, [], false, arith,
  length, checked_add, checked_sub, checked_mul,
}
use codex_os.Prelude.Results.{ok, ok_or, value_or}
use codex_os.Bytes.{put, slice, to_le_bytes, crc_bytes, crc32}
use codex_os.Fs.{
  align_up_usize, record_slot_span, record_slot_count, arithmetic_overflow, device_too_small,
}
use codex_os.Fs.FilePath.{validate_entries}
use codex_os.Fs.FileRecord.{encode_record, add_required, put_entries, record_header, seal_record}
use codex_os.Fs.Slots.{SlotState, select_record_start, try_slots, slot_start, overlaps_active}
use codex_os.Fs.Commit.{Plan}

-- The record of no files.
unfoldable pub empty_record : List ℕ
empty_record = value_or [] (encode_record 1 [])

pub encode_record-empty : encode_record 1 [] ≡ ok empty_record
unfolding empty_record encode_record validate_entries add_required align_up_usize put_entries
encode_record-empty = refl

pub length-empty_record : length empty_record ≡ 32768
unfolding empty_record encode_record validate_entries add_required align_up_usize put_entries
    record_header seal_record put to_le_bytes crc32 crc_bytes slice
length-empty_record = refl

unfoldable pub span_of : ℕ → ℕ
span_of sector_count = min 8192 ((sector_count - 8) / 2)

pub slots_of :
    (sector_count : ℕ) → 136 ≤ sector_count → 2 ≤ (sector_count - 8) / span_of sector_count
unfolding span_of
slots_of sector_count h =
    let span = min 8192 ((sector_count - 8) / 2) in
    let half = mul-div-le (sector_count - 8) 2 in
    let some_span : 0 < span = omega arith in
    (le-div_iff_mul-le {k = span} {x = 2} {y = sector_count - 8} some_span).1 (omega arith)

pub span_bounds :
    (sector_count : ℕ)
    → 136 ≤ sector_count
    → (span_of sector_count ≤ 8192) × (8 + span_of sector_count + 64 ≤ sector_count)
unfolding span_of
span_bounds sector_count h = (omega arith, omega arith)

pub span_low : (sector_count : ℕ) → 136 ≤ sector_count → 64 ≤ span_of sector_count
unfolding span_of
span_low sector_count h = omega arith

pub record_slot_span-room :
    (sector_count : ℕ)
    → 136 ≤ sector_count
    → record_slot_span sector_count ≡ ok (span_of sector_count)
unfolding record_slot_span span_of
record_slot_span-room sector_count h =
    let enough : ltb ((sector_count - 8) / 2) 64 ≡ false = ground arith in
    let behind : ok_or (checked_sub sector_count 8) device_too_small ≡ ok (sector_count - 8) =
      ground arith in
    rw (behind, enough) refl

pub record_slot_count-room :
    (sector_count : ℕ)
    → 136 ≤ sector_count
    → record_slot_count sector_count (span_of sector_count)
      ≡ ok ((sector_count - 8) / span_of sector_count)
unfolding record_slot_count
record_slot_count-room sector_count h =
    let two = slots_of sector_count h in
    let enough : ltb ((sector_count - 8) / span_of sector_count) 2 ≡ false = ground arith in
    let behind : ok_or (checked_sub sector_count 8) device_too_small ≡ ok (sector_count - 8) =
      ground arith in
    rw (behind, enough) refl

-- The first attempt takes the second slot.
first_try :
    (s : SlotState) (left : ℕ)
    → s.active_record_sectors ≡ 0
    → 2 ≤ s.record_slots
    → s.record_slot_sectors ≤ 8192
    → 8 + s.record_slot_sectors + 64 ≤ s.sector_count
    → try_slots s 1 64 0 (suc left) ≡ ok (8 + s.record_slot_sectors)
unfolding try_slots slot_start overlaps_active
first_try s left none_yet slots narrow inside =
    let rest = mod-eq_of_lt {n = 1} {m = s.record_slots} (omega arith) in
    let offset : ok_or (checked_mul 1 s.record_slot_sectors) arithmetic_overflow
        ≡ ok s.record_slot_sectors =
      ground arith in
    let start : ok_or (checked_add 8 s.record_slot_sectors) arithmetic_overflow
        ≡ ok (8 + s.record_slot_sectors) =
      ground arith in
    let end : ok_or (checked_add (8 + s.record_slot_sectors) 64) arithmetic_overflow
        ≡ ok (8 + s.record_slot_sectors + 64) =
      ground arith in
    let within : ltb s.sector_count (8 + s.record_slot_sectors + 64) ≡ false = ground arith in
    rw (rest, offset, start, end, within, none_yet) refl

pub select_first :
    (s : SlotState) (slots : ℕ)
    → s.record_slots ≡ slots
    → s.active_record_sectors ≡ 0
    → 2 ≤ slots
    → s.record_slot_sectors ≤ 8192
    → 8 + s.record_slot_sectors + 64 ≤ s.sector_count
    → select_record_start s 1 64 ≡ ok (8 + s.record_slot_sectors)
unfolding select_record_start
select_first s zero same none_yet two narrow inside = absurd omega arith
select_first s (suc left) same none_yet two narrow inside =
    ap (λ n. try_slots s 1 64 0 n) same ∙ first_try s left none_yet (omega arith) narrow inside

abbrev pub first_plan : ℕ → Plan
first_plan sector_count = record {
  bytes = empty_record;
  superblock = record {
    generation = 1;
    record_start = 8 + span_of sector_count;
    record_sectors = 64;
    record_bytes = length empty_record;
    record_crc = crc32 empty_record;
    capacity_sectors = sector_count;
  };
}
