-- ===== src/Fs/Commit/Crash/Plans.antt =====
-- What a commit of kernel/src/fs.rs plans.
use codex_os.Prelude.{
  ℕ, ◌+◌, ◌/◌, ◌≤◌, ◌≡◌, refl, ap, ◌==◌, ltb, List, ◌||◌, arith, length, checked_add, u32_max,
  u64_max,
}
use codex_os.Prelude.Results.{ok, bind-passed, fail_if-passed, ok_or, value_or}
use codex_os.Bytes.{crc32}
use codex_os.Fs.{FileEntry, Superblock, sector_size, arithmetic_overflow, snapshot_too_large}
use codex_os.Fs.FileRecord.{encode_record}
use codex_os.Fs.Slots.{select_record_start}
use codex_os.Fs.Slots.Choice.{IsFreePlace, select_record_start-IsFreePlace}
use codex_os.Fs.Commit.{CodexFs, Plan, slot_state, plan_commit}
use codex_os.Fs.Commit.Crash.Current.{IsCurrent}

-- The filesystem knows the snapshot that its device holds.
pub record IsMounted (current : Superblock) (files : List FileEntry) (fs : CodexFs) : Type 0 where
  pub on_device : IsCurrent current files fs.device
  pub same_generation : current.generation ≡ fs.generation
  pub same_start : current.record_start ≡ fs.active_record_start
  pub same_sectors : current.record_sectors ≡ fs.active_record_sectors

-- What a plan is made of.
pub record IsPlanFor (fs : CodexFs) (files : List FileEntry) (plan : Plan) : Type 0 where
  pub next_generation : plan.superblock.generation ≡ fs.generation + 1
  pub generation_fits : plan.superblock.generation ≤ u64_max
  pub encoded : encode_record plan.superblock.generation files ≡ ok plan.bytes
  pub long : plan.superblock.record_sectors ≡ length plan.bytes / sector_size
  pub bytes_long : plan.superblock.record_bytes ≡ length plan.bytes
  pub checksum : plan.superblock.record_crc ≡ crc32 plan.bytes
  pub capacity : plan.superblock.capacity_sectors ≡ fs.device.sector_count
  pub free : IsFreePlace (slot_state fs) plan.superblock.record_start plan.superblock.record_sectors

next_of :
    (a c : ℕ) → ok_or (checked_add a 1) arithmetic_overflow ≡ ok c → (c ≡ a + 1) × (c ≤ u64_max)
next_of a c h = (ground arith, ground arith)

pub plan_commit-IsPlanFor :
    (fs : CodexFs) (files : List FileEntry) (plan : Plan)
    → plan_commit fs files ≡ ok plan
    → IsPlanFor fs files plan
unfolding plan_commit
plan_commit-IsPlanFor fs files plan h =
    let (generation, (e1, h1)) =
      bind-passed (ok_or (checked_add fs.generation 1) arithmetic_overflow) _ plan h in
    let (bytes, (e2, h2)) = bind-passed (encode_record generation files) _ plan h1 in
    let sectors = length bytes / sector_size in
    let (narrow, h3) = fail_if-passed (ltb u32_max sectors) arithmetic_overflow _ plan h2 in
    let (fits, h4) =
      fail_if-passed (sectors == 0 || ltb fs.record_slot_sectors sectors) snapshot_too_large _ plan
        h3 in
    let (start, (e3, h5)) =
      bind-passed (select_record_start (slot_state fs) generation sectors) _ plan h4 in
    let superblock : Superblock = record {
      generation = generation;
      record_start = start;
      record_sectors = sectors;
      record_bytes = length bytes;
      record_crc = crc32 bytes;
      capacity_sectors = fs.device.sector_count;
    } in
    let made : Plan = record { bytes = bytes; superblock = superblock } in
    let same : made ≡ plan = ap (value_or made) h5 in
    let facts : IsPlanFor fs files made = record {
      next_generation = (next_of fs.generation generation e1).0;
      generation_fits = (next_of fs.generation generation e1).1;
      encoded = e2;
      long = refl;
      bytes_long = refl;
      checksum = refl;
      capacity = refl;
      free = select_record_start-IsFreePlace (slot_state fs) generation sectors start e3;
    } in
    coe 0 1 (i. IsPlanFor fs files (same i)) facts
