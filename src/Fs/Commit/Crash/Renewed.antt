-- ===== src/Fs/Commit/Crash/Renewed.antt =====
-- The device after a complete commit of kernel/src/fs.rs.
use mathlib.Core.Option.{some-injective}
use codex_os.Prelude.{
  ℕ, ◌≤◌, ◌<◌, ◌≡◌, ◌≢◌, ◌⊎◌, inl, inr, refl, sym, ap, ◌∙◌, ◌==◌, List, arith, Option, none, some,
  Bool-cases, u32_max, u64_max, bit_and,
}
use codex_os.Prelude.Results.{Result, ok, err}
use codex_os.Bytes.Words.{crc32-le}
use codex_os.Fs.{FsError, FileEntry, Superblock}
use codex_os.Fs.FileRecord.{decode_record}
use codex_os.Fs.FileRecord.Sizes.{encode_record-IsSized}
use codex_os.Fs.SuperblockCodec.{decode_superblock, encode_superblock}
use codex_os.Fs.SuperblockCodec.RoundTrip.{IsEncodable, decode_superblock-encode_superblock}
use codex_os.Fs.Device.{Device, ok_only}
use codex_os.Fs.Commit.{CodexFs, Plan, super_sector, conclude}
use codex_os.Fs.Commit.Crash.ReadBack.{read_record-IsRecordOn}
use codex_os.Fs.Commit.Crash.Current.{IsCurrent, IsOlder, held}
use codex_os.Fs.Commit.Crash.Stages.{IsWritten}
use codex_os.Fs.Commit.Crash.Plans.{IsMounted, IsPlanFor}

-- Encoding a plan's superblock and reading it again gives it back.
plan-IsEncodable :
    (fs : CodexFs) (files : List FileEntry) (plan : Plan)
    → fs.device.sector_count ≤ u64_max
    → IsPlanFor fs files plan
    → IsEncodable fs.device.sector_count plan.superblock
plan-IsEncodable fs files plan narrow p =
    let size = encode_record-IsSized plan.superblock.generation files plan.bytes p.encoded in
    let next = p.next_generation in
    let long = p.long in
    let bytes_long = p.bytes_long in
    let whole = size.whole in
    let low = size.at_least in
    let high = size.at_most in
    record {
      device_fits = narrow;
      generation_fits = p.generation_fits;
      generation_set = λ e. absurd omega arith;
      behind = p.free.behind;
      inside = p.free.inside;
      some_sectors = omega arith;
      few_sectors = omega arith;
      whole_sectors = omega arith;
      crc_fits = coe 0 1 (i. (sym p.checksum) i ≤ u32_max) (crc32-le plan.bytes);
      same_capacity = p.capacity;
    }

super_sector-cases :
    (generation : ℕ) → (super_sector generation ≡ 0) ⊎ (super_sector generation ≡ 1)
super_sector-cases generation = elim (Bool-cases (bit_and generation 1 == 0)) [
  | inl even ↦ inl (rw even refl)
  | inr odd ↦ inr (rw odd refl)
]

older_than_next :
    (current next : Superblock) (other : Option Superblock)
    → current.generation < next.generation
    → (other ≡ some current) ⊎ IsOlder current other
    → IsOlder next other
older_than_next current next none later either = tt
older_than_next current next (some o) later (inr older) = omega arith
older_than_next current next (some o) later (inl same) =
    let e = ap Superblock.generation (some-injective o current same) in omega arith

-- Both superblocks of the device are older than another, or not there.
pub record IsBehind (next : Superblock) (device : Device) : Type 0 where
  pub room : 1 < device.sector_count
  pub first : IsOlder next (held device 0)
  pub second : IsOlder next (held device 1)

pub IsCurrent-IsBehind :
    (current next : Superblock) (files : List FileEntry) (device : Device)
    → IsCurrent current files device
    → current.generation < next.generation
    → IsBehind next device
IsCurrent-IsBehind current next files device c later = elim c.newest [
  | inl (named, older) ↦ record {
    room = c.room;
    first = older_than_next current next (held device 0) later (inl named);
    second = older_than_next current next (held device 1) later (inr older);
  }
  | inr (named, older) ↦ record {
    room = c.room;
    first = older_than_next current next (held device 0) later (inr older);
    second = older_than_next current next (held device 1) later (inl named);
  }
]

-- A completely written plan is the current snapshot.
pub IsWritten-IsCurrent :
    (fs : CodexFs) (next_files : List FileEntry) (plan : Plan) (device : Device)
    → fs.device.sector_count ≤ u64_max
    → IsBehind plan.superblock fs.device
    → IsPlanFor fs next_files plan
    → decode_record plan.bytes plan.superblock.generation ≡ ok next_files
    → IsWritten plan fs.device device
    → IsCurrent plan.superblock next_files device
IsWritten-IsCurrent fs next_files plan device narrow m p decoded w =
    let s = plan.superblock in
    let e = plan-IsEncodable fs next_files plan narrow p in
    let behind = p.free.behind in
    let count = w.count in
    let inside = p.free.inside in
    let whole = e.whole_sectors in
    let bytes_long = p.bytes_long in
    let named : held device (super_sector s.generation) ≡ some s =
      ap (λ sector. ok_only (decode_superblock sector device.sector_count)) w.named
      ∙ ap (λ n. ok_only (decode_superblock (encode_superblock s) n)) count
      ∙ ap ok_only (decode_superblock-encode_superblock fs.device.sector_count s e) in
    let kept : (at : ℕ)
        → at < 8
        → at ≢ super_sector s.generation
        → held device at ≡ held fs.device at =
      λ at low apart. rw (w.rest at apart (omega arith), count) in
    record {
      room = coe 0 1 (i. 1 < (sym count) i) m.room;
      readable =
          read_record-IsRecordOn device s plan.bytes next_files bytes_long (omega arith) p.checksum
            (omega arith) w.record_on decoded;
      newest = elim (super_sector-cases s.generation) [
        | inl at_zero ↦ inl (
          ap (held device) (sym at_zero) ∙ named,
          coe 0 1 (i. IsOlder s ((sym (kept 1 (omega arith) (λ x. absurd omega arith))) i))
              m.second,
        )
        | inr at_one ↦ inr (
          ap (held device) (sym at_one) ∙ named,
          coe 0 1 (i. IsOlder s ((sym (kept 0 (omega arith) (λ x. absurd omega arith))) i)) m.first,
        )
      ];
    }

pub conclude-IsMounted :
    (fs : CodexFs) (next_files : List FileEntry) (plan : Plan)
    (r : Device × Result FsError (Unit {0}))
    → r.1 ≡ ok tt
    → IsCurrent plan.superblock next_files (r.0)
    → IsMounted plan.superblock next_files ((conclude fs plan.superblock r).0)
conclude-IsMounted fs next_files plan (device, ok tt) h c = record {
  on_device = c;
  same_generation = refl;
  same_start = refl;
  same_sectors = refl;
}
conclude-IsMounted fs next_files plan (device, err e) h c = absurd cc
