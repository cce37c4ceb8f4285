-- ===== src/Fs/Commit/Crash.antt =====
-- What a commit in kernel/src/fs.rs leaves on the device when it stops at any point.
pub mod Current
pub mod ReadBack
pub mod Stages
pub mod Plans
pub mod Renewed
pub mod Atomic
pub mod Counts
pub mod Completes
pub mod FirstPlan
pub mod Format
use codex_os.Prelude.{
  ℕ, zero, suc, ◌+◌, ◌-◌, ◌*◌, ◌≤◌, ◌<◌, ◌≡◌, ◌≢◌, ◌⊎◌, inl, inr, refl, sym, ap, ◌∙◌, ◌==◌, ltb,
  List, Bool, true, false, not, arith, Bool-cases, if◌then◌else◌, ==→eq, bit_and,
}
use codex_os.Prelude.Results.{Result, ok, err}
use codex_os.Bytes.{slice}
use codex_os.Fs.{FsError, sector_size}
use codex_os.Fs.SuperblockCodec.{encode_superblock}
use codex_os.Fs.Device.{Device, set_sector, write_sector, flush}
use codex_os.Fs.Commit.{Plan, and_then, write_record, write_plan, super_sector}

-- Two devices hold the same, except in a range of sectors.
pub record IsSameOutside (start sectors : ℕ) (old new : Device) : Type 0 where
  pub count : new.sector_count ≡ old.sector_count
  pub outside : (at : ℕ) → (at < start) ⊎ (start + sectors ≤ at) → new.sectors at ≡ old.sectors at

-- The sectors of a record, from an offset on, hold its bytes.
unfoldable pub IsRecordOn : Device → ℕ → ℕ → ℕ → List ℕ → Type 0
IsRecordOn device start offset count bytes =
    (i : ℕ)
    → offset ≤ i
    → i < offset + count
    → device.sectors (start + i) ≡ slice bytes (i * sector_size) sector_size

pub and_then-keeps :
    (P : Device → Type 0) (r : Device × Result FsError (Unit {0}))
    (next : Device → Device × Result FsError (Unit {0}))
    → P (r.0)
    → ((d : Device) → P d → P ((next d).0))
    → P ((and_then r next).0)
and_then-keeps P (device, ok u) next p h = h device p
and_then-keeps P (device, err e) next p h = p

and_then-passed :
    (r : Device × Result FsError (Unit {0})) (next : Device → Device × Result FsError (Unit {0}))
    → (and_then r next).1 ≡ ok tt
    → (r.1 ≡ ok tt) × (and_then r next ≡ next (r.0))
and_then-passed (device, ok tt) next h = (refl, refl)
and_then-passed (device, err e) next h = absurd cc

pub write_sector-count :
    (device : Device) (sector : ℕ) (bytes : List ℕ)
    → (write_sector device sector bytes).0.sector_count ≡ device.sector_count
unfolding write_sector
write_sector-count device sector bytes = ground arith

write_sector-elsewhere :
    (device : Device) (sector : ℕ) (bytes : List ℕ) (at : ℕ)
    → at ≢ sector
    → (write_sector device sector bytes).0.sectors at ≡ device.sectors at
unfolding write_sector set_sector
write_sector-elsewhere device sector bytes at apart = ground arith

write_sector-written :
    (device : Device) (sector : ℕ) (bytes : List ℕ)
    → (write_sector device sector bytes).1 ≡ ok tt
    → (write_sector device sector bytes).0.sectors sector ≡ bytes
unfolding write_sector set_sector
write_sector-written device sector bytes h = ground arith

write_sector-refused :
    (device : Device) (sector : ℕ) (bytes : List ℕ) (e : FsError)
    → (write_sector device sector bytes).1 ≡ err e
    → (write_sector device sector bytes).0 ≡ device
unfolding write_sector set_sector
write_sector-refused device sector bytes e h = ground arith

flush-same : (device : Device) → (flush device).0.sectors ≡ device.sectors
unfolding flush
flush-same device = ground arith

pub flush-count : (device : Device) → (flush device).0.sector_count ≡ device.sector_count
unfolding flush
flush-count device = ground arith

write_sector-IsSameOutside :
    (start sectors : ℕ) (old device : Device) (sector : ℕ) (bytes : List ℕ)
    → IsSameOutside start sectors old device
    → start ≤ sector
    → sector < start + sectors
    → IsSameOutside start sectors old ((write_sector device sector bytes).0)
write_sector-IsSameOutside start sectors old device sector bytes same low high = record {
  count = write_sector-count device sector bytes ∙ same.count;
  outside = λ at place.
      write_sector-elsewhere device sector bytes at (λ e. absurd omega arith)
      ∙ same.outside at place;
}

-- Writing a record changes only the sectors of a range that it lies in.
pub write_record-IsSameOutside :
    (first sectors : ℕ) (old device : Device) (start offset count : ℕ) (bytes : List ℕ)
    → IsSameOutside first sectors old device
    → first ≤ start + offset
    → start + offset + count ≤ first + sectors
    → IsSameOutside first sectors old ((write_record device start offset count bytes).0)
unfolding write_record
write_record-IsSameOutside first sectors old device start offset zero bytes same low high = same
write_record-IsSameOutside first sectors old device start offset (suc count) bytes same low high =
    and_then-keeps (IsSameOutside first sectors old)
      (write_sector device (start + offset) (slice bytes (offset * sector_size) sector_size))
      (λ next. write_record next start (offset + 1) count bytes)
      (write_sector-IsSameOutside first sectors old device (start + offset)
        (slice bytes (offset * sector_size) sector_size) same low (omega arith))
      (λ next kept.
        write_record-IsSameOutside first sectors old next start (offset + 1) count bytes kept
          (omega arith) (omega arith))

-- Writing a record that ends well has written all of it.
pub write_record-IsRecordOn :
    (device : Device) (start offset count : ℕ) (bytes : List ℕ)
    → (write_record device start offset count bytes).1 ≡ ok tt
    → IsRecordOn ((write_record device start offset count bytes).0) start offset count bytes
unfolding write_record IsRecordOn
write_record-IsRecordOn device start offset zero bytes h i low high = absurd omega arith
write_record-IsRecordOn device start offset (suc count) bytes h i low high =
    let piece = slice bytes (offset * sector_size) sector_size in
    let rest : Device → Device × Result FsError (Unit {0}) =
      λ next. write_record next start (offset + 1) count bytes in
    let first = write_sector device (start + offset) piece in
    let (done, same) = and_then-passed first rest h in
    let later = sym (ap (λ r. r.1) same) ∙ h in
    let at_end = ap (λ r. r.0.sectors (start + i)) same in
    elim (Bool-cases (i == offset)) [
      | inl here ↦
          let e = ==→eq i offset here in
          let kept =
            write_record-IsSameOutside (start + (offset + 1)) count (first.0) (first.0) start
              (offset + 1) count bytes (record { count = refl; outside = λ at _. refl })
              (omega arith) (omega arith) in
          at_end
          ∙ kept.outside (start + i) (inl (omega arith))
          ∙ ap (first.0.sectors) (ap (λ j. start + j) e)
          ∙ write_sector-written device (start + offset) piece done
          ∙ sym (ap (λ j. slice bytes (j * sector_size) sector_size) e)
      | inr beyond ↦
          at_end
          ∙ write_record-IsRecordOn (first.0) start (offset + 1) count bytes later i (ground arith)
              (ground arith)
    ]
