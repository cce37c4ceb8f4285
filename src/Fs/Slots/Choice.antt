-- ===== src/Fs/Slots/Choice.antt =====
-- What the choice of a slot in kernel/src/fs.rs guarantees, and when there is one.
use codex_os.Prelude.{
  ℕ, zero, suc, ◌+◌, ◌%◌, ◌≤◌, ◌≡◌, ◌⊎◌, inl, inr, ap, ◌∙◌, ◌==◌, ltb, leb, true, false, arith,
  Bool-cases, checked_add, checked_mul, u64_max, ==→eq,
}
use codex_os.Prelude.Results.{ok, ok_or, bind-passed, value_or}
use codex_os.Fs.{FsError, ranges_overlap, arithmetic_overflow}
use codex_os.Fs.Slots.{SlotState, overlaps_active, slot_start, try_slots, select_record_start}

-- A place behind the superblocks, on the device, and apart from the active record.
pub record IsFreePlace (s : SlotState) (start sectors : ℕ) : Type 0 where
  pub behind : 8 ≤ start
  pub inside : start + sectors ≤ s.sector_count
  pub apart :
      (s.active_record_sectors ≡ 0)
      ⊎ ((start + sectors ≤ s.active_record_start)
          ⊎ (s.active_record_start + s.active_record_sectors ≤ start))

sum_of :
    (a b : ℕ) (e : FsError) (c : ℕ) → ok_or (checked_add a b) e ≡ ok c → (a + b ≡ c) × (c ≤ u64_max)
sum_of a b e c h = elim (Bool-cases (leb (a + b) u64_max)) [
  | inl fits ↦ let same = ap (value_or 0) (rw fits at h) in (same, ground arith)
  | inr past ↦ let wrong = rw past at h in absurd cc
]

overlap_fact : (a m b n : ℕ) → ranges_overlap a m b n ≡ ok false → (a + m ≤ b) ⊎ (b + n ≤ a)
unfolding ranges_overlap
overlap_fact a m b n h =
    let (left, (e1, h1)) = bind-passed (ok_or (checked_add a m) arithmetic_overflow) _ false h in
    let (right, (e2, h2)) = bind-passed (ok_or (checked_add b n) arithmetic_overflow) _ false h1 in
    let (s1, l1) = sum_of a m arithmetic_overflow left e1 in
    let (s2, l2) = sum_of b n arithmetic_overflow right e2 in
    let test = ap (value_or true) h2 in
    elim (Bool-cases (ltb a right)) [
      | inl below ↦ inl (ground arith)
      | inr above ↦ inr (ground arith)
    ]

active_apart :
    (s : SlotState) (start sectors : ℕ)
    → overlaps_active s start sectors ≡ ok false
    → (s.active_record_sectors ≡ 0)
      ⊎ ((start + sectors ≤ s.active_record_start)
          ⊎ (s.active_record_start + s.active_record_sectors ≤ start))
unfolding overlaps_active
active_apart s start sectors h = elim (Bool-cases (s.active_record_sectors == 0)) [
  | inl none_yet ↦ inl (==→eq s.active_record_sectors 0 none_yet)
  | inr some ↦
      inr (overlap_fact start sectors s.active_record_start s.active_record_sectors (rw some at h))
]

slot_start-behind :
    (s : SlotState) (generation attempt start : ℕ)
    → slot_start s generation attempt ≡ ok start
    → 8 ≤ start
unfolding slot_start
slot_start-behind s generation attempt start h =
    let (number, (e1, h1)) =
      bind-passed (ok_or (checked_add generation attempt) arithmetic_overflow) _ start h in
    let (offset, (e2, h2)) =
      bind-passed
        (ok_or (checked_mul (number % s.record_slots) s.record_slot_sectors) arithmetic_overflow) _
        start h1 in
    let (same, fits) = sum_of 8 offset arithmetic_overflow start h2 in omega arith

try_slots-IsFreePlace :
    (s : SlotState) (generation sectors attempt left start : ℕ)
    → try_slots s generation sectors attempt left ≡ ok start
    → IsFreePlace s start sectors
unfolding try_slots
try_slots-IsFreePlace s generation sectors attempt zero start h = absurd cc
try_slots-IsFreePlace s generation sectors attempt (suc left) start h =
    let (place, (e1, h1)) = bind-passed (slot_start s generation attempt) _ start h in
    let (end, (e2, h2)) =
      bind-passed (ok_or (checked_add place sectors) arithmetic_overflow) _ start h1 in
    elim (Bool-cases (ltb s.sector_count end)) [
      | inl past ↦
          try_slots-IsFreePlace s generation sectors (attempt + 1) left start (rw past at h2)
      | inr within ↦
          let (overlaps, (e3, h3)) =
            bind-passed (overlaps_active s place sectors) _ start (rw within at h2) in
          elim (Bool-cases overlaps) [
            | inl taken ↦
                try_slots-IsFreePlace s generation sectors (attempt + 1) left start (rw taken at h3)
            | inr open_yet ↦
                let same = ap (value_or 0) (rw open_yet at h3) in
                let (sum, fits) = sum_of place sectors arithmetic_overflow end e2 in
                let free : IsFreePlace s place sectors = record {
                  behind = slot_start-behind s generation attempt place e1;
                  inside = ground arith;
                  apart = active_apart s place sectors (e3 ∙ ap ok open_yet);
                } in
                coe 0 1 (i. IsFreePlace s (same i) sectors) free
          ]
    ]

-- The place that is chosen for a record lies behind the superblocks and on the device, and does not
-- overlap the active record, if there is one.
pub select_record_start-IsFreePlace :
    (s : SlotState) (generation sectors start : ℕ)
    → select_record_start s generation sectors ≡ ok start
    → IsFreePlace s start sectors
unfolding select_record_start
select_record_start-IsFreePlace s generation sectors start h =
    try_slots-IsFreePlace s generation sectors 0 s.record_slots start h
