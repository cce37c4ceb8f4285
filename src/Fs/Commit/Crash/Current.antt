-- ===== src/Fs/Commit/Crash/Current.antt =====
-- Which snapshot of kernel/src/fs.rs a device holds, and what can be written without a change of it.
use codex_os.Prelude.{
  ℕ, zero, suc, ◌+◌, ◌*◌, ◌≤◌, ◌<◌, ◌≡◌, ◌⊎◌, inl, inr, refl, sym, ap, ◌∙◌, List, arith, Option,
  none, some,
}
use codex_os.Prelude.Results.{Result, ok, err, ◌>>=◌}
use codex_os.Bytes.{put, zeros}
use codex_os.Fs.{FsError, FileEntry, Superblock, sector_size}
use codex_os.Fs.SuperblockCodec.{decode_superblock}
use codex_os.Fs.Device.{
  Device, LoadedSnapshot, ok_only, better, consider, read_sector, read_sectors, read_record,
  load_latest_snapshot,
}
use codex_os.Fs.Slots.{SlotState}
use codex_os.Fs.Slots.Choice.{IsFreePlace}
use codex_os.Fs.Commit.Crash.{IsSameOutside}

-- The superblock that a sector holds, if it holds one.
abbrev pub held : Device → ℕ → Option Superblock
held device sector = ok_only (decode_superblock (device.sectors sector) device.sector_count)

-- No superblock, or one of an earlier generation.
abbrev pub IsOlder : Superblock → Option Superblock → Type 0
IsOlder current none = Unit
IsOlder current (some other) = other.generation < current.generation

-- A readable superblock that the other one is older than. The record of the older one need not be
-- readable.
pub record IsCurrent (current : Superblock) (files : List FileEntry) (device : Device)
    : Type 0 where
  pub room : 1 < device.sector_count
  pub readable : read_record device current ≡ ok files
  pub newest :
      ((held device 0 ≡ some current) × IsOlder current (held device 1))
      ⊎ ((held device 1 ≡ some current) × IsOlder current (held device 0))

abbrev pub snapshot : Superblock → List FileEntry → LoadedSnapshot
snapshot superblock files = record { superblock = superblock; files = files }

better-older :
    (current : Superblock) (files : List FileEntry) (other : Superblock)
    (read : Result FsError (List FileEntry))
    → other.generation < current.generation
    → better (some (snapshot current files)) other read ≡ some (snapshot current files)
better-older current files other (err e) older = refl
better-older current files other (ok read) older = ground arith

first_wins :
    (device : Device) (current : Superblock) (files : List FileEntry) (other : Option Superblock)
    → read_record device current ≡ ok files
    → IsOlder current other
    → consider device other (consider device (some current) none) ≡ some (snapshot current files)
unfolding consider
first_wins device current files none readable older = ap (λ r. better none current r) readable
first_wins device current files (some other) readable older =
    ap (λ r. better (better none current r) other (read_record device other)) readable
    ∙ better-older current files other (read_record device other) older

better-current :
    (device : Device) (current : Superblock) (files : List FileEntry) (other : Superblock)
    (read : Result FsError (List FileEntry))
    → other.generation < current.generation
    → better (better none other read) current (ok files) ≡ some (snapshot current files)
better-current device current files other (err e) older = refl
better-current device current files other (ok read) older = ground arith

second_wins :
    (device : Device) (current : Superblock) (files : List FileEntry) (other : Option Superblock)
    → read_record device current ≡ ok files
    → IsOlder current other
    → consider device (some current) (consider device other none) ≡ some (snapshot current files)
unfolding consider
second_wins device current files none readable older = ap (λ r. better none current r) readable
second_wins device current files (some other) readable older =
    ap (λ r. better (better none other (read_record device other)) current r) readable
    ∙ better-current device current files other (read_record device other) older

-- The snapshot that is considered last is the current one, whichever sector names it.
newest_wins :
    (current : Superblock) (files : List FileEntry) (device : Device)
    → IsCurrent current files device
    → consider device (held device 1) (consider device (held device 0) none)
      ≡ some (snapshot current files)
newest_wins current files device c = elim c.newest [
  | inl (named, older) ↦
      ap (λ a. consider device (held device 1) (consider device a none)) named
      ∙ first_wins device current files (held device 1) c.readable older
  | inr (named, older) ↦
      ap (λ b. consider device b (consider device (held device 0) none)) named
      ∙ second_wins device current files (held device 0) c.readable older
]

pub read_sector-inside :
    (device : Device) (sector : ℕ)
    → sector < device.sector_count
    → read_sector device sector ≡ ok (device.sectors sector)
unfolding read_sector
read_sector-inside device sector inside = ground arith

-- A device that holds a current snapshot loads it.
pub load_latest_snapshot-IsCurrent :
    (current : Superblock) (files : List FileEntry) (device : Device)
    → IsCurrent current files device
    → load_latest_snapshot device ≡ ok (some (snapshot current files))
unfolding load_latest_snapshot
load_latest_snapshot-IsCurrent current files device c =
    let room = c.room in
    let first = read_sector-inside device 0 (omega arith) in
    let second = read_sector-inside device 1 room in
    let best = newest_wins current files device c in rw (first, second, best)

read_sector-same :
    (old new : Device) (sector : ℕ)
    → new.sector_count ≡ old.sector_count
    → new.sectors sector ≡ old.sectors sector
    → read_sector new sector ≡ read_sector old sector
unfolding read_sector
read_sector-same old new sector count same = rw (count, same)

bind-same :
    {A B : Type 0} (m : Result FsError A) (f g : A → Result FsError B)
    → ((a : A) → f a ≡ g a)
    → (m >>= f) ≡ (m >>= g)
bind-same (ok a) f g same = same a
bind-same (err e) f g same = refl

read_sectors-same :
    (old new : Device) (start offset count : ℕ) (bytes : List ℕ)
    → new.sector_count ≡ old.sector_count
    → ((i : ℕ)
        → offset ≤ i
        → i < offset + count
        → new.sectors (start + i) ≡ old.sectors (start + i))
    → read_sectors new start offset count bytes ≡ read_sectors old start offset count bytes
unfolding read_sectors
read_sectors-same old new start offset zero bytes counts same = refl
read_sectors-same old new start offset (suc count) bytes counts same =
    let here = same offset (omega arith) (omega arith) in
    let rest : (put_in : List ℕ)
        → read_sectors new start (offset + 1) count put_in
          ≡ read_sectors old start (offset + 1) count put_in =
      λ put_in.
        read_sectors-same old new start (offset + 1) count put_in counts
          (λ i low high. same i (omega arith) (omega arith)) in
    ap
      (λ r. r >>= λ sector.
        read_sectors new start (offset + 1) count (put bytes (offset * sector_size) sector))
      (read_sector-same old new (start + offset) counts here)
    ∙ bind-same (read_sector old (start + offset)) _ _
        (λ sector. rest (put bytes (offset * sector_size) sector))

read_record-same :
    (old new : Device) (superblock : Superblock)
    → new.sector_count ≡ old.sector_count
    → ((i : ℕ)
        → i < superblock.record_sectors
        → new.sectors (superblock.record_start + i) ≡ old.sectors (superblock.record_start + i))
    → read_record new superblock ≡ read_record old superblock
unfolding read_record
read_record-same old new superblock counts same = rw (
    read_sectors-same old new superblock.record_start 0 superblock.record_sectors
      (zeros superblock.record_bytes) counts (λ i low high. same i (omega arith)))

-- The current snapshot stays when only sectors of a free place change.
pub IsSameOutside-IsCurrent :
    (s : SlotState) (start sectors : ℕ) (current : Superblock) (files : List FileEntry)
    (old new : Device)
    → IsFreePlace s start sectors
    → current.record_start ≡ s.active_record_start
    → current.record_sectors ≡ s.active_record_sectors
    → IsCurrent current files old
    → IsSameOutside start sectors old new
    → IsCurrent current files new
IsSameOutside-IsCurrent s start sectors current files old new free at_start as_long c same =
    let behind = free.behind in
    let kept : (i : ℕ)
        → i < current.record_sectors
        → new.sectors (current.record_start + i) ≡ old.sectors (current.record_start + i) =
      λ i within. same.outside (current.record_start + i) (elim free.apart [
        | inl none_yet ↦ absurd omega arith
        | inr (inl above) ↦ inr (omega arith)
        | inr (inr below) ↦ inl (omega arith)
      ]) in
    let held_same : (at : ℕ) → at < 8 → held new at ≡ held old at =
      λ at low. rw (same.outside at (inl (omega arith)), same.count) in
    record {
      room = coe 0 1 (i. 1 < (sym same.count) i) c.room;
      readable = read_record-same old new current same.count kept ∙ c.readable;
      newest = elim c.newest [
        | inl (named, older) ↦ inl (
          held_same 0 (omega arith) ∙ named,
          coe 0 1 (i. IsOlder current ((sym (held_same 1 (omega arith))) i)) older,
        )
        | inr (named, older) ↦ inr (
          held_same 1 (omega arith) ∙ named,
          coe 0 1 (i. IsOlder current ((sym (held_same 0 (omega arith))) i)) older,
        )
      ];
    }
