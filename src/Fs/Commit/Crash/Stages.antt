-- ===== src/Fs/Commit/Crash/Stages.antt =====
-- The stages of a commit in kernel/src/fs.rs, on a device that may give up at any of them.
use codex_os.Prelude.{ℕ, ◌+◌, ◌≤◌, ◌<◌, ◌≡◌, ◌≢◌, ◌⊎◌, inl, inr, refl, sym, ap, ◌∙◌, arith}
use codex_os.Prelude.Results.{Result, ok, err}
use codex_os.Fs.{FsError}
use codex_os.Fs.SuperblockCodec.{encode_superblock}
use codex_os.Fs.Device.{Device, write_sector, flush}
use codex_os.Fs.Commit.{Plan, and_then, write_record, write_plan, super_sector}
use codex_os.Fs.Commit.Crash.{
  IsSameOutside, IsRecordOn, flush-count, flush-same, write_record-IsRecordOn,
  write_record-IsSameOutside, write_sector-count, write_sector-elsewhere, write_sector-refused,
  write_sector-written,
}

-- All of the new record is on the device, and the superblock that names it; the rest is as before.
pub record IsWritten (plan : Plan) (old device : Device) : Type 0 where
  pub record_on :
      IsRecordOn device plan.superblock.record_start 0 plan.superblock.record_sectors plan.bytes
  pub named :
      device.sectors (super_sector plan.superblock.generation) ≡ encode_superblock plan.superblock
  pub count : device.sector_count ≡ old.sector_count
  pub rest :
      (at : ℕ)
      → at ≢ super_sector plan.superblock.generation
      → at < plan.superblock.record_start
      → device.sectors at ≡ old.sectors at

abbrev HasRecord : Plan → Device → Type 0
HasRecord plan device =
    IsRecordOn device plan.superblock.record_start 0 plan.superblock.record_sectors plan.bytes

abbrev IsUntouched : Plan → Device → Device → Type 0
IsUntouched plan old device =
    IsSameOutside plan.superblock.record_start plan.superblock.record_sectors old device

abbrev write_super : Plan → Device → Device × Result FsError (Unit {0})
write_super plan device =
    write_sector device (super_sector plan.superblock.generation)
      (encode_superblock plan.superblock)

flush-IsUntouched :
    (plan : Plan) (old device : Device)
    → IsUntouched plan old device
    → IsUntouched plan old ((flush device).0)
flush-IsUntouched plan old device same = record {
  count = flush-count device ∙ same.count;
  outside = λ at place. ap (λ f. f at) (flush-same device) ∙ same.outside at place;
}

flush-HasRecord :
    (plan : Plan) (device : Device) → HasRecord plan device → HasRecord plan ((flush device).0)
unfolding IsRecordOn
flush-HasRecord plan device on i low high =
    ap (λ f. f (plan.superblock.record_start + i)) (flush-same device) ∙ on i low high

flush-IsWritten :
    (plan : Plan) (old device : Device)
    → IsWritten plan old device
    → IsWritten plan old ((flush device).0)
flush-IsWritten plan old device w = record {
  record_on = flush-HasRecord plan device w.record_on;
  named = ap (λ f. f (super_sector plan.superblock.generation)) (flush-same device) ∙ w.named;
  count = flush-count device ∙ w.count;
  rest = λ at apart low. ap (λ f. f at) (flush-same device) ∙ w.rest at apart low;
}

pub super_sector-low : (generation : ℕ) → super_sector generation < 2
super_sector-low generation = ground arith

write_super-IsWritten :
    (plan : Plan) (old device : Device)
    → 8 ≤ plan.superblock.record_start
    → IsUntouched plan old device
    → HasRecord plan device
    → (write_super plan device).1 ≡ ok tt
    → IsWritten plan old ((write_super plan device).0)
unfolding IsRecordOn
write_super-IsWritten plan old device behind same on h =
    let at = super_sector plan.superblock.generation in
    let low_sector = super_sector-low plan.superblock.generation in
    let block = encode_superblock plan.superblock in
    record {
      record_on = λ i low high.
          write_sector-elsewhere device at block (plan.superblock.record_start + i)
            (λ e. absurd omega arith)
          ∙ on i low high;
      named = write_sector-written device at block h;
      count = write_sector-count device at block ∙ same.count;
      rest = λ sector apart low.
          write_sector-elsewhere device at block sector apart ∙ same.outside sector (inl low);
    }

refused_or_IsWritten :
    (plan : Plan) (old device : Device) (result : Result FsError (Unit {0}))
    → IsUntouched plan old device
    → (write_super plan device).1 ≡ result
    → ((write_super plan device).1 ≡ ok tt → IsWritten plan old ((write_super plan device).0))
    → IsUntouched plan old ((write_super plan device).0)
      ⊎ IsWritten plan old ((write_super plan device).0)
refused_or_IsWritten plan old device (ok tt) same h written = inr (written h)
refused_or_IsWritten plan old device (err e) same h written =
    let unchanged =
      write_sector-refused device (super_sector plan.superblock.generation)
        (encode_superblock plan.superblock) e h in
    inl (coe 0 1 (i. IsUntouched plan old ((sym unchanged) i)) same)

-- A superblock is written over a complete record only.
super_stage :
    (plan : Plan) (old : Device) (r : Device × Result FsError (Unit {0}))
    → 8 ≤ plan.superblock.record_start
    → IsUntouched plan old (r.0)
    → (r.1 ≡ ok tt → HasRecord plan (r.0))
    → (IsUntouched plan old ((and_then r (write_super plan)).0)
        ⊎ IsWritten plan old ((and_then r (write_super plan)).0))
      × ((and_then r (write_super plan)).1 ≡ ok tt
          → IsWritten plan old ((and_then r (write_super plan)).0))
super_stage plan old (device, err e) behind same complete = (inl same, λ h. absurd cc)
super_stage plan old (device, ok tt) behind same complete =
    let written = write_super-IsWritten plan old device behind same (complete refl) in
    (refused_or_IsWritten plan old device ((write_super plan device).1) same refl written, written)

flush_stage :
    (plan : Plan) (old : Device) (r : Device × Result FsError (Unit {0}))
    → (IsUntouched plan old (r.0) ⊎ IsWritten plan old (r.0))
      × (r.1 ≡ ok tt → IsWritten plan old (r.0))
    → (IsUntouched plan old ((and_then r flush).0) ⊎ IsWritten plan old ((and_then r flush).0))
      × ((and_then r flush).1 ≡ ok tt → IsWritten plan old ((and_then r flush).0))
flush_stage plan old (device, err e) before = before
flush_stage plan old (device, ok tt) (either, written) =
    let done = flush-IsWritten plan old device (written refl) in (inr done, λ h. done)

record_stage :
    (plan : Plan) (old : Device) (r : Device × Result FsError (Unit {0}))
    → IsUntouched plan old (r.0)
    → (r.1 ≡ ok tt → HasRecord plan (r.0))
    → IsUntouched plan old ((and_then r flush).0)
      × ((and_then r flush).1 ≡ ok tt → HasRecord plan ((and_then r flush).0))
record_stage plan old (device, err e) same complete = (same, λ h. absurd cc)
record_stage plan old (device, ok tt) same complete =
    (flush-IsUntouched plan old device same, λ h. flush-HasRecord plan device (complete refl))

-- Whatever stops the writing of a plan, either the superblocks and all sectors behind and before the
-- new record are untouched, or the new record and its superblock are complete; after success they are.
pub write_plan-Stages :
    (plan : Plan) (old : Device)
    → 8 ≤ plan.superblock.record_start
    → (IsUntouched plan old ((write_plan old plan).0)
        ⊎ IsWritten plan old ((write_plan old plan).0))
      × ((write_plan old plan).1 ≡ ok tt → IsWritten plan old ((write_plan old plan).0))
unfolding write_plan
write_plan-Stages plan old behind =
    let s = plan.superblock in
    let recorded = write_record old s.record_start 0 s.record_sectors plan.bytes in
    let same : IsUntouched plan old old = record { count = refl; outside = λ at place. refl } in
    let (kept, complete) =
      record_stage plan old recorded
        (write_record-IsSameOutside s.record_start s.record_sectors old old s.record_start 0
          s.record_sectors plan.bytes same (omega arith) (omega arith))
        (write_record-IsRecordOn old s.record_start 0 s.record_sectors plan.bytes) in
    flush_stage plan old (and_then (and_then recorded flush) (write_super plan))
      (super_stage plan old (and_then recorded flush) behind kept complete)
