-- ===== src/Fs.antt =====
-- kernel/src/fs.rs: a filesystem that is written as a whole, into a free part of the device, before a
-- superblock makes it the current one.
pub mod FilePath
pub mod SuperblockCodec
pub mod Utf8
pub mod FileRecord
pub mod Device
pub mod Slots
pub mod Commit
pub mod Tree
pub mod Changes
pub mod Listing
use codex_os.Prelude.{
  ℕ, zero, suc, ◌+◌, ◌-◌, ◌*◌, ◌/◌, ◌%◌, ◌==◌, ltb, leb, min, max, List, [], ◌∷◌, Bool, true, false,
  not, ◌&&◌, ◌||◌, length, Option, none, some, checked_add, checked_sub, checked_mul, bit_and,
  u64_max, if◌then◌else◌,
}
use codex_os.Prelude.Results.{Result, ok, err, ◌>>=◌, ◌>>◌, fail_if, ok_or}
use codex_os.Bytes as Bytes

abbrev pub sector_size : ℕ
sector_size = 512

abbrev pub format_version : ℕ
format_version = 3

abbrev pub min_format_version : ℕ
min_format_version = 1

abbrev pub superblock_a_sector : ℕ
superblock_a_sector = 0

abbrev pub superblock_b_sector : ℕ
superblock_b_sector = 1

abbrev pub record_area_start : ℕ
record_area_start = 8

abbrev pub record_sectors_min : ℕ
record_sectors_min = 64

-- RECORD_BYTES.
abbrev pub record_bytes_min : ℕ
record_bytes_min = 32768

abbrev pub max_record_sectors : ℕ
max_record_sectors = 8192

abbrev pub max_record_bytes : ℕ
max_record_bytes = 4194304

abbrev pub record_header_bytes : ℕ
record_header_bytes = 64

abbrev pub max_files : ℕ
max_files = 128

abbrev pub max_path_bytes : ℕ
max_path_bytes = 128

-- The errors of a device, which the filesystem passes on.
pub data BlockError : Type 0 where
  device_not_found invalid_io_bar queue_unavailable queue_too_small queue_address_too_high :
      BlockError
  dma_address_unavailable device_rejected sector_out_of_range request_timed_out : BlockError
  request_failed : ℕ → BlockError

pub data FsError : Type 0 where
  block : BlockError → FsError
  flush_unsupported device_too_small corrupt_superblocks corrupt_record invalid_path : FsError
  too_many_files snapshot_too_large arithmetic_overflow invalid_utf8 verification_failed : FsError
  not_found parent_missing not_directory is_directory permission_denied : FsError
  directory_not_empty invalid_permissions : FsError

pub data EntryKind : Type 0 where
  file directory : EntryKind

-- A text is the list of its bytes.
abbrev pub Text : Type 0
Text = List ℕ

pub record FileEntry : Type 0 where
  pub name : Text
  pub contents : List ℕ
  pub kind : EntryKind
  pub permissions : ℕ

pub record Superblock : Type 0 where
  pub generation : ℕ
  pub record_start : ℕ
  pub record_sectors : ℕ
  pub record_bytes : ℕ
  pub record_crc : ℕ
  pub capacity_sectors : ℕ

abbrev pub get_u16 : List ℕ → ℕ → Result FsError ℕ
get_u16 input offset =
    if leb (offset + 2) (length input) then ok (Bytes.get_u16 input offset) else err corrupt_record

abbrev pub get_u32 : List ℕ → ℕ → Result FsError ℕ
get_u32 input offset =
    if leb (offset + 4) (length input) then ok (Bytes.get_u32 input offset) else err corrupt_record

abbrev pub get_u64 : List ℕ → ℕ → Result FsError ℕ
get_u64 input offset =
    if leb (offset + 8) (length input) then ok (Bytes.get_u64 input offset) else err corrupt_record

unfoldable pub ranges_overlap : ℕ → ℕ → ℕ → ℕ → Result FsError Bool
ranges_overlap left_start left_sectors right_start right_sectors = do
  left_end ← ok_or (checked_add left_start left_sectors) arithmetic_overflow
  right_end ← ok_or (checked_add right_start right_sectors) arithmetic_overflow
  ok (ltb left_start right_end && ltb right_start left_end)

-- `value & !(512 - 1)` after the addition; the alignment is a sector everywhere.
unfoldable pub align_up_usize : ℕ → ℕ → Result FsError ℕ
align_up_usize value alignment = do
  padded ← ok_or (checked_add value (alignment - 1)) arithmetic_overflow
  ok (bit_and padded (u64_max - (alignment - 1)))

unfoldable pub valid_record_layout : ℕ → ℕ → ℕ → Bool
valid_record_layout version record_sectors record_bytes =
    if record_sectors == 0 || ltb max_record_sectors record_sectors
    then false
    else if not (leb record_header_bytes record_bytes && leb record_bytes max_record_bytes)
    then false
    else if not (record_bytes == record_sectors * sector_size)
    then false
    else leb 3 version
      || (record_sectors == record_sectors_min && (record_bytes == record_bytes_min))

unfoldable pub record_slot_span : ℕ → Result FsError ℕ
record_slot_span sector_count = do
  available ← ok_or (checked_sub sector_count record_area_start) device_too_small
  fail_if (ltb (available / 2) record_sectors_min) device_too_small
  ok (min max_record_sectors (available / 2))

unfoldable pub record_slot_count : ℕ → ℕ → Result FsError ℕ
record_slot_count sector_count slot_span_sectors = do
  available ← ok_or (checked_sub sector_count record_area_start) device_too_small
  fail_if (ltb (available / slot_span_sectors) 2) device_too_small
  ok (available / slot_span_sectors)
