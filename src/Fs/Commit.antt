-- ===== src/Fs/Commit.antt =====
-- Mounting and committing in kernel/src/fs.rs.
pub mod Crash
use codex_os.Prelude.{
  ℕ, zero, suc, ◌+◌, ◌-◌, ◌*◌, ◌/◌, ◌%◌, ◌==◌, ltb, List, [], ◌∷◌, Bool, true, false, not, ◌||◌,
  Option, none, some, length, bit_and, checked_add, if◌then◌else◌, u32_max,
}
use codex_os.Prelude.Results.{Result, ok, err, ◌>>=◌, ◌>>◌, fail_if, ok_or}
use codex_os.Bytes.{slice, crc32}
use codex_os.Fs.{
  FsError, FileEntry, Superblock, sector_size, superblock_a_sector, superblock_b_sector,
  record_slot_span, record_slot_count, arithmetic_overflow, snapshot_too_large, flush_unsupported,
  verification_failed,
}
use codex_os.Fs.SuperblockCodec.{encode_superblock}
use codex_os.Fs.FileRecord.{encode_record}
use codex_os.Fs.Device.{Device, LoadedSnapshot, write_sector, flush, load_latest_snapshot}
use codex_os.Fs.Slots.{SlotState, select_record_start}

pub data MountState : Type 0 where
  formatted existing : MountState

pub record CodexFs : Type 0 where
  pub device : Device
  pub files : List FileEntry
  pub generation : ℕ
  pub record_slots : ℕ
  pub record_slot_sectors : ℕ
  pub active_record_start : ℕ
  pub active_record_sectors : ℕ
  pub mount_state : MountState

-- A device after an operation on it, with the operation's result; the next is made after success.
abbrev pub and_then :
    Device × Result FsError (Unit {0})
    → (Device → Device × Result FsError (Unit {0}))
    → Device × Result FsError (Unit {0})
and_then (device, ok u) next = next device
and_then (device, err e) next = (device, err e)

-- The loop that writes the sectors of a record, from the sector `offset` of it on.
unfoldable pub write_record : Device → ℕ → ℕ → ℕ → List ℕ → Device × Result FsError (Unit {0})
write_record device start offset zero bytes = (device, ok tt)
write_record device start offset (suc count) bytes =
    and_then (write_sector device (start + offset) (slice bytes (offset * sector_size) sector_size))
      (λ next. write_record next start (offset + 1) count bytes)

abbrev pub slot_state : CodexFs → SlotState
slot_state fs = record {
  sector_count = fs.device.sector_count;
  record_slots = fs.record_slots;
  record_slot_sectors = fs.record_slot_sectors;
  active_record_start = fs.active_record_start;
  active_record_sectors = fs.active_record_sectors;
}

-- What is to be written: a record, where, and the superblock that names it.
pub record Plan : Type 0 where
  pub bytes : List ℕ
  pub superblock : Superblock

unfoldable pub plan_commit : CodexFs → List FileEntry → Result FsError Plan
plan_commit fs files = do
  generation ← ok_or (checked_add fs.generation 1) arithmetic_overflow
  bytes ← encode_record generation files
  let record_sectors = length bytes / sector_size
  fail_if (ltb u32_max record_sectors) arithmetic_overflow
  fail_if (record_sectors == 0 || ltb fs.record_slot_sectors record_sectors) snapshot_too_large
  record_start ← select_record_start (slot_state fs) generation record_sectors
  let superblock : Superblock = record {
    generation = generation;
    record_start = record_start;
    record_sectors = record_sectors;
    record_bytes = length bytes;
    record_crc = crc32 bytes;
    capacity_sectors = fs.device.sector_count;
  }
  ok (record { bytes = bytes; superblock = superblock })

abbrev pub super_sector : ℕ → ℕ
super_sector generation =
    if bit_and generation 1 == 0 then superblock_a_sector else superblock_b_sector

-- The record, a flush, the superblock, a flush.
unfoldable pub write_plan : Device → Plan → Device × Result FsError (Unit {0})
write_plan device plan =
    let s = plan.superblock in
    and_then
      (and_then (and_then (write_record device s.record_start 0 s.record_sectors plan.bytes) flush)
        (λ next. write_sector next (super_sector s.generation) (encode_superblock s)))
      flush

abbrev pub conclude :
    CodexFs → Superblock → Device × Result FsError (Unit {0}) → CodexFs × Result FsError (Unit {0})
conclude fs superblock (device, err e) = (record fs { device = device }, err e)
conclude fs superblock (device, ok u) = (
  record fs {
    device = device;
    generation = superblock.generation;
    active_record_start = superblock.record_start;
    active_record_sectors = superblock.record_sectors;
  },
  ok tt,
)

-- What is done once there is a plan, or there is none.
abbrev pub carry_out : CodexFs → Result FsError Plan → CodexFs × Result FsError (Unit {0})
carry_out fs (err e) = (fs, err e)
carry_out fs (ok plan) = conclude fs plan.superblock (write_plan fs.device plan)

unfoldable pub commit_files : CodexFs → List FileEntry → CodexFs × Result FsError (Unit {0})
commit_files fs files = carry_out fs (plan_commit fs files)

abbrev pub mounted : Device → ℕ → ℕ → LoadedSnapshot → CodexFs
mounted device record_slots record_slot_sectors snapshot = record {
  device = device;
  files = snapshot.files;
  generation = snapshot.superblock.generation;
  record_slots = record_slots;
  record_slot_sectors = record_slot_sectors;
  active_record_start = snapshot.superblock.record_start;
  active_record_sectors = snapshot.superblock.record_sectors;
  mount_state = existing;
}

abbrev pub blank : Device → ℕ → ℕ → CodexFs
blank device record_slots record_slot_sectors = record {
  device = device;
  files = [];
  generation = 0;
  record_slots = record_slots;
  record_slot_sectors = record_slot_sectors;
  active_record_start = 0;
  active_record_sectors = 0;
  mount_state = formatted;
}

abbrev pub after_format : CodexFs × Result FsError (Unit {0}) → Result FsError CodexFs
after_format (fs, err e) = err e
after_format (fs, ok u) = ok fs

abbrev pub mount_snapshot : Device → ℕ → ℕ → Option LoadedSnapshot → Result FsError CodexFs
mount_snapshot device record_slots record_slot_sectors (some snapshot) =
    ok (mounted device record_slots record_slot_sectors snapshot)
mount_snapshot device record_slots record_slot_sectors none =
    after_format (commit_files (blank device record_slots record_slot_sectors) [])

unfoldable pub mount_or_format : Device → Result FsError CodexFs
mount_or_format device = do
  fail_if (not device.supports_flush) flush_unsupported
  record_slot_sectors ← record_slot_span device.sector_count
  record_slots ← record_slot_count device.sector_count record_slot_sectors
  snapshot ← load_latest_snapshot device
  mount_snapshot device record_slots record_slot_sectors snapshot
