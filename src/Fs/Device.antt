-- ===== src/Fs/Device.antt =====
-- The block device under kernel/src/fs.rs, and what is read from it. A device holds sectors; a read
-- fails past its end, and a write or a flush fails past its end or once the device gives up, which it
-- may do after any number of them, with an error of its own.
use codex_os.Prelude.{
  ℕ, zero, suc, ◌+◌, ◌-◌, ◌*◌, ◌==◌, ltb, List, Bool, true, not, ◌||◌, Option, none, some,
  if◌then◌else◌,
}
use codex_os.Prelude.Results.{Result, ok, err, ◌>>=◌, ◌>>◌, fail_if}
use codex_os.Bytes.{zeros, put, any_nonzero, crc32}
use codex_os.Fs.{
  FsError, BlockError, FileEntry, Superblock, sector_size, superblock_a_sector, superblock_b_sector,
  block, sector_out_of_range, corrupt_record, corrupt_superblocks,
}
use codex_os.Fs.SuperblockCodec.{decode_superblock}
use codex_os.Fs.FileRecord.{decode_record}

pub record Device : Type 0 where
  pub sectors : ℕ → List ℕ
  pub sector_count : ℕ
  pub supports_flush : Bool
  pub writes_left : ℕ
  pub refusal : BlockError

unfoldable pub read_sector : Device → ℕ → Result FsError (List ℕ)
read_sector device sector =
    if ltb sector device.sector_count
    then ok (device.sectors sector)
    else err (block sector_out_of_range)

unfoldable pub set_sector : (ℕ → List ℕ) → ℕ → List ℕ → ℕ → List ℕ
set_sector sectors sector bytes at = if at == sector then bytes else sectors at

abbrev pub spend : Device → Device
spend device = record device { writes_left = device.writes_left - 1 }

unfoldable pub write_sector : Device → ℕ → List ℕ → Device × Result FsError (Unit {0})
write_sector device sector bytes =
    if not (ltb sector device.sector_count)
    then (device, err (block sector_out_of_range))
    else if device.writes_left == 0
    then (device, err (block device.refusal))
    else (record (spend device) { sectors = set_sector device.sectors sector bytes }, ok tt)

unfoldable pub flush : Device → Device × Result FsError (Unit {0})
flush device =
    if device.writes_left == 0 then (device, err (block device.refusal)) else (spend device, ok tt)

pub record LoadedSnapshot : Type 0 where
  pub superblock : Superblock
  pub files : List FileEntry

-- The loop that reads the sectors of a record, from the sector `offset` of it on.
unfoldable pub read_sectors : Device → ℕ → ℕ → ℕ → List ℕ → Result FsError (List ℕ)
read_sectors device start offset zero bytes = ok bytes
read_sectors device start offset (suc count) bytes = do
  sector ← read_sector device (start + offset)
  read_sectors device start (offset + 1) count (put bytes (offset * sector_size) sector)

unfoldable pub read_record : Device → Superblock → Result FsError (List FileEntry)
read_record device superblock = do
  bytes ←
      read_sectors device superblock.record_start 0 superblock.record_sectors
        (zeros superblock.record_bytes)
  fail_if (not (crc32 bytes == superblock.record_crc)) corrupt_record
  decode_record bytes superblock.generation

abbrev pub ok_only : {A : Type 0} → Result FsError A → Option A
ok_only (ok a) = some a
ok_only (err e) = none

abbrev pub is_newer : Superblock → Option LoadedSnapshot → Bool
is_newer superblock none = true
is_newer superblock (some current) = ltb current.superblock.generation superblock.generation

-- One turn of the loop over the candidates; a record that cannot be read is passed over.
abbrev pub better :
    Option LoadedSnapshot → Superblock → Result FsError (List FileEntry) → Option LoadedSnapshot
better best superblock (err e) = best
better best superblock (ok files) =
    if is_newer superblock best
    then some (record { superblock = superblock; files = files })
    else best

unfoldable pub consider : Device → Option Superblock → Option LoadedSnapshot → Option LoadedSnapshot
consider device none best = best
consider device (some superblock) best = better best superblock (read_record device superblock)

abbrev pub unless_corrupt : Bool → Option LoadedSnapshot → Result FsError (Option LoadedSnapshot)
unless_corrupt saw_nonzero none = if saw_nonzero then err corrupt_superblocks else ok none
unless_corrupt saw_nonzero (some best) = ok (some best)

unfoldable pub load_latest_snapshot : Device → Result FsError (Option LoadedSnapshot)
load_latest_snapshot device = do
  a ← read_sector device superblock_a_sector
  b ← read_sector device superblock_b_sector
  let first = ok_only (decode_superblock a device.sector_count)
  let second = ok_only (decode_superblock b device.sector_count)
  unless_corrupt (any_nonzero a || any_nonzero b)
      (consider device second (consider device first none))
