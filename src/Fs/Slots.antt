-- ===== src/Fs/Slots.antt =====
-- The choice of the part of the device that kernel/src/fs.rs writes a record to.
pub mod Choice
use codex_os.Prelude.{
  ℕ, zero, suc, ◌+◌, ◌-◌, ◌*◌, ◌%◌, ◌==◌, ltb, Bool, false, checked_add, checked_mul, if◌then◌else◌,
}
use codex_os.Prelude.Results.{Result, ok, err, ◌>>=◌, ◌>>◌, ok_or}
use codex_os.Fs.{
  FsError, record_area_start, ranges_overlap, arithmetic_overflow, snapshot_too_large,
}

-- The fields of the filesystem and its device that the choice reads.
pub record SlotState : Type 0 where
  pub sector_count : ℕ
  pub record_slots : ℕ
  pub record_slot_sectors : ℕ
  pub active_record_start : ℕ
  pub active_record_sectors : ℕ

unfoldable pub overlaps_active : SlotState → ℕ → ℕ → Result FsError Bool
overlaps_active s record_start record_sectors =
    if s.active_record_sectors == 0
    then ok false
    else ranges_overlap record_start record_sectors s.active_record_start s.active_record_sectors

-- The start of the slot for an attempt.
unfoldable pub slot_start : SlotState → ℕ → ℕ → Result FsError ℕ
slot_start s generation attempt = do
  number ← ok_or (checked_add generation attempt) arithmetic_overflow
  offset ← ok_or (checked_mul (number % s.record_slots) s.record_slot_sectors) arithmetic_overflow
  ok_or (checked_add record_area_start offset) arithmetic_overflow

-- The loop from an attempt on, with the attempts that are left.
unfoldable pub try_slots : SlotState → ℕ → ℕ → ℕ → ℕ → Result FsError ℕ
try_slots s generation record_sectors attempt zero = err snapshot_too_large
try_slots s generation record_sectors attempt (suc left) =
    let next = try_slots s generation record_sectors (attempt + 1) left in
    slot_start s generation attempt >>= λ record_start.
    ok_or (checked_add record_start record_sectors) arithmetic_overflow >>= λ record_end.
    if ltb s.sector_count record_end
    then next
    else (overlaps_active s record_start record_sectors >>= λ overlaps.
        if overlaps then next else ok record_start)

unfoldable pub select_record_start : SlotState → ℕ → ℕ → Result FsError ℕ
select_record_start s generation record_sectors =
    try_slots s generation record_sectors 0 s.record_slots
