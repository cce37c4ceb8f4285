-- ===== src/Fs/SuperblockCodec.antt =====
-- The superblock of kernel/src/fs.rs: one sector that names the current record.
pub mod RoundTrip
use codex_os.Prelude.{
  ℕ, ◌+◌, ◌-◌, ◌*◌, ◌%◌, ◌==◌, ltb, leb, List, [], ◌∷◌, Bool, not, ◌&&◌, ◌||◌, checked_add,
  if◌then◌else◌,
}
use codex_os.Prelude.Results.{Result, ok, err, ◌>>=◌, ◌>>◌, fail_if, ok_or}
use codex_os.Bytes.{zeros, slice, put, put_u32, put_u64, bytes_eq, crc32}
use codex_os.Fs.{
  FsError, Superblock, sector_size, format_version, min_format_version, record_area_start,
  record_sectors_min, get_u32, get_u64, valid_record_layout, corrupt_superblocks,
  arithmetic_overflow,
}

-- b"CDXFS1\0\0".
abbrev pub superblock_magic : List ℕ
superblock_magic = 0x43 ∷ 0x44 ∷ 0x58 ∷ 0x46 ∷ 0x53 ∷ 0x31 ∷ 0 ∷ 0 ∷ []

abbrev pub super_crc_offset : ℕ
super_crc_offset = 44

-- Everything but the checksum, over the first bytes of a sector.
unfoldable pub superblock_body : List ℕ → Superblock → List ℕ
superblock_body sector s =
    let s1 = put_u32 (put_u32 (put sector 0 superblock_magic) 8 format_version) 12 64 in
    let s2 = put_u64 (put_u64 s1 16 s.generation) 24 s.record_start in
    let s3 = put_u32 (put_u32 s2 32 s.record_sectors) 36 s.record_bytes in
    put_u64 (put_u32 s3 40 s.record_crc) 48 s.capacity_sectors

unfoldable pub encode_superblock : Superblock → List ℕ
encode_superblock s =
    put_u32 (superblock_body (zeros sector_size) s) super_crc_offset
      (crc32 (superblock_body (zeros sector_size) s))

unfoldable pub decode_superblock : List ℕ → ℕ → Result FsError Superblock
decode_superblock sector actual_capacity = do
  version ← get_u32 sector 8
  header_bytes ← get_u32 sector 12
  fail_if
      (not (bytes_eq (slice sector 0 8) superblock_magic)
        || (not (leb min_format_version version && leb version format_version)
            || not (header_bytes == 64)))
      corrupt_superblocks
  record_sectors ← get_u32 sector 32
  record_bytes ← get_u32 sector 36
  fail_if (not (valid_record_layout version record_sectors record_bytes)) corrupt_superblocks
  stored_checksum ← get_u32 sector super_crc_offset
  fail_if (not (crc32 (put_u32 sector super_crc_offset 0) == stored_checksum)) corrupt_superblocks
  generation ← get_u64 sector 16
  record_start ← get_u64 sector 24
  capacity_sectors ← get_u64 sector 48
  record_end ← ok_or (checked_add record_start record_sectors) arithmetic_overflow
  fail_if
      (generation == 0 || (ltb record_start record_area_start || ltb actual_capacity record_end))
      corrupt_superblocks
  fail_if (ltb version 3 && not ((record_start - record_area_start) % record_sectors_min == 0))
      corrupt_superblocks
  fail_if (ltb actual_capacity capacity_sectors) corrupt_superblocks
  record_crc ← get_u32 sector 40
  ok (record {
    generation = generation;
    record_start = record_start;
    record_sectors = record_sectors;
    record_bytes = record_bytes;
    record_crc = record_crc;
    capacity_sectors = capacity_sectors;
  })
