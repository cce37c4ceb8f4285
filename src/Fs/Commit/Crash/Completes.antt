-- ===== src/Fs/Commit/Crash/Completes.antt =====
-- A device of kernel/src/fs.rs that goes on long enough completes what is written to it.
use codex_os.Prelude.{ℕ, zero, suc, ◌+◌, ◌*◌, ◌≤◌, ◌<◌, ◌≡◌, refl, List, arith}
use codex_os.Prelude.Results.{Result, ok, err}
use codex_os.Bytes.{slice}
use codex_os.Fs.{FsError, sector_size}
use codex_os.Fs.SuperblockCodec.{encode_superblock}
use codex_os.Fs.Device.{Device, write_sector, flush}
use codex_os.Fs.Commit.{Plan, and_then, write_record, write_plan, super_sector}
use codex_os.Fs.Commit.Crash.Stages.{super_sector-low}

-- A device of a size that still takes so many writes and flushes.
pub record IsReady (sectors left : ℕ) (device : Device) : Type 0 where
  pub count : device.sector_count ≡ sectors
  pub goes_on : left ≤ device.writes_left

abbrev HasPassed : ℕ → ℕ → Device × Result FsError (Unit {0}) → Type 0
HasPassed sectors left r = (r.1 ≡ ok tt) × IsReady sectors left (r.0)

and_then-HasPassed :
    (sectors left after : ℕ) (r : Device × Result FsError (Unit {0}))
    (next : Device → Device × Result FsError (Unit {0}))
    → HasPassed sectors left r
    → ((d : Device) → IsReady sectors left d → HasPassed sectors after (next d))
    → HasPassed sectors after (and_then r next)
and_then-HasPassed sectors left after (device, ok u) next (h, ready) go = go device ready
and_then-HasPassed sectors left after (device, err e) next (h, ready) go = absurd cc

write_sector-HasPassed :
    (sectors left : ℕ) (device : Device) (sector : ℕ) (bytes : List ℕ)
    → IsReady sectors (suc left) device
    → sector < sectors
    → HasPassed sectors left (write_sector device sector bytes)
unfolding write_sector
write_sector-HasPassed sectors left device sector bytes ready inside =
    let count = ready.count in
    let goes_on = ready.goes_on in
    (ground arith, record { count = ground arith; goes_on = ground arith })

flush-HasPassed :
    (sectors left : ℕ) (device : Device)
    → IsReady sectors (suc left) device
    → HasPassed sectors left (flush device)
unfolding flush
flush-HasPassed sectors left device ready =
    let count = ready.count in
    let goes_on = ready.goes_on in
    (ground arith, record { count = ground arith; goes_on = ground arith })

write_record-HasPassed :
    (sectors left : ℕ) (device : Device) (start offset count : ℕ) (bytes : List ℕ)
    → IsReady sectors (count + left) device
    → start + offset + count ≤ sectors
    → HasPassed sectors left (write_record device start offset count bytes)
unfolding write_record
write_record-HasPassed sectors left device start offset zero bytes ready inside =
    (refl, record { count = ready.count; goes_on = let h = ready.goes_on in omega arith })
write_record-HasPassed sectors left device start offset (suc count) bytes ready inside =
    let goes_on = ready.goes_on in
    and_then-HasPassed sectors (count + left) left
      (write_sector device (start + offset) (slice bytes (offset * sector_size) sector_size))
      (λ next. write_record next start (offset + 1) count bytes)
      (write_sector-HasPassed sectors (count + left) device (start + offset)
        (slice bytes (offset * sector_size) sector_size)
        (record { count = ready.count; goes_on = omega arith }) (omega arith))
      (λ next on.
        write_record-HasPassed sectors left next start (offset + 1) count bytes on (omega arith))

-- A plan whose record is on the device is written by three operations more than it has sectors.
pub write_plan-completes :
    (plan : Plan) (device : Device)
    → 2 ≤ device.sector_count
    → plan.superblock.record_start + plan.superblock.record_sectors ≤ device.sector_count
    → plan.superblock.record_sectors + 3 ≤ device.writes_left
    → (write_plan device plan).1 ≡ ok tt
unfolding write_plan
write_plan-completes plan device room inside enough =
    let s = plan.superblock in
    let n = device.sector_count in
    let low = super_sector-low s.generation in
    let recorded = write_record device s.record_start 0 s.record_sectors plan.bytes in
    let write_super : Device → Device × Result FsError (Unit {0}) =
      λ next. write_sector next (super_sector s.generation) (encode_superblock s) in
    let start : IsReady n (s.record_sectors + 3) device = record {
      count = refl;
      goes_on = enough;
    } in
    let first =
      write_record-HasPassed n 3 device s.record_start 0 s.record_sectors plan.bytes start
        (omega arith) in
    let second = and_then-HasPassed n 3 2 recorded flush first (flush-HasPassed n 2) in
    let third = and_then-HasPassed n 2 1 (and_then recorded flush) write_super second (λ d ready.
      write_sector-HasPassed n 1 d (super_sector s.generation) (encode_superblock s) ready
        (omega arith)) in
    let fourth =
      and_then-HasPassed n 1 0 (and_then (and_then recorded flush) write_super) flush third
        (flush-HasPassed n 0) in
    fourth.0
