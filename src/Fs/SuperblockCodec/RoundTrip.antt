-- ===== src/Fs/SuperblockCodec/RoundTrip.antt =====
-- The superblocks that kernel/src/fs.rs writes, read again.
use codex_os.Prelude.{
  ℕ, ◌+◌, ◌*◌, ◌≤◌, ◌≡◌, ◌≢◌, refl, ap, ◌∙◌, List, ◌++◌, true, false, arith, length, u64_max,
  u32_max, leb, ltb, eq_refl, eq_false, checked_add,
}
use codex_os.Prelude.Results.{ok, ok_or}
use codex_os.Bytes.{zeros, slice, put, put_u32, to_le_bytes, bytes_eq, crc32}
use codex_os.Bytes.Words.{from_le_bytes-to_le_bytes, crc32-le}
use codex_os.Fs.{
  Superblock, sector_size, get_u32, get_u64, valid_record_layout, arithmetic_overflow,
}
use codex_os.Fs.SuperblockCodec.{
  superblock_magic, superblock_body, encode_superblock, decode_superblock,
}

-- The superblocks that a commit makes: their fields fit their words, and their record lies behind the
-- superblocks and on the device.
pub record IsEncodable (capacity : ℕ) (s : Superblock) : Type 0 where
  pub device_fits : capacity ≤ u64_max
  pub generation_fits : s.generation ≤ u64_max
  pub generation_set : s.generation ≢ 0
  pub behind : 8 ≤ s.record_start
  pub inside : s.record_start + s.record_sectors ≤ capacity
  pub some_sectors : 1 ≤ s.record_sectors
  pub few_sectors : s.record_sectors ≤ 8192
  pub whole_sectors : s.record_bytes ≡ s.record_sectors * sector_size
  pub crc_fits : s.record_crc ≤ u32_max
  pub same_capacity : s.capacity_sectors ≡ capacity

-- The sector with a checksum.
abbrev sealed : Superblock → ℕ → List ℕ → List ℕ
sealed s checksum rest = put_u32 (superblock_body (zeros 64 ++ rest) s) 44 checksum

sealed_body :
    (s : Superblock) (c : ℕ) (rest : List ℕ)
    → put_u32 (sealed s c rest) 44 0 ≡ superblock_body (zeros 64 ++ rest) s
unfolding superblock_body put to_le_bytes
sealed_body s c rest = refl

length-sealed :
    (s : Superblock) (c : ℕ) (rest : List ℕ) → length (sealed s c rest) ≡ 64 + length rest
unfolding superblock_body put to_le_bytes
length-sealed s c rest = omega arith

encode_superblock-sealed :
    (s : Superblock)
    → encode_superblock s ≡ sealed s (crc32 (superblock_body (zeros sector_size) s)) (zeros 448)
unfolding encode_superblock
encode_superblock-sealed s = refl

module _ (s : Superblock) (c : ℕ) (rest : List ℕ) where
  fits : (end : ℕ) → end ≤ 64 → leb end (length (sealed s c rest)) ≡ true
  fits end h = let total = length-sealed s c rest in ground arith

  word :
      (offset n : ℕ)
      → slice (sealed s c rest) offset 4 ≡ to_le_bytes 4 n
      → n ≤ u32_max
      → offset + 4 ≤ 64
      → get_u32 (sealed s c rest) offset ≡ ok n
  word offset n e small inside =
      rw (fits (offset + 4) inside, e, from_le_bytes-to_le_bytes 4 n (omega arith)) refl

  long_word :
      (offset n : ℕ)
      → slice (sealed s c rest) offset 8 ≡ to_le_bytes 8 n
      → n ≤ u64_max
      → offset + 8 ≤ 64
      → get_u64 (sealed s c rest) offset ≡ ok n
  long_word offset n e small inside =
      rw (fits (offset + 8) inside, e, from_le_bytes-to_le_bytes 8 n (omega arith)) refl

  version_word : get_u32 (sealed s c rest) 8 ≡ ok 3
  unfolding superblock_body put to_le_bytes slice
  version_word = word 8 3 refl (omega arith) (omega arith)

  header_word : get_u32 (sealed s c rest) 12 ≡ ok 64
  unfolding superblock_body put to_le_bytes slice
  header_word = word 12 64 refl (omega arith) (omega arith)

  magic_same : bytes_eq (slice (sealed s c rest) 0 8) superblock_magic ≡ true
  unfolding superblock_body put to_le_bytes slice bytes_eq
  magic_same = refl

  generation_word : s.generation ≤ u64_max → get_u64 (sealed s c rest) 16 ≡ ok s.generation
  unfolding superblock_body put to_le_bytes slice
  generation_word h = long_word 16 s.generation refl h (omega arith)

  start_word : s.record_start ≤ u64_max → get_u64 (sealed s c rest) 24 ≡ ok s.record_start
  unfolding superblock_body put to_le_bytes slice
  start_word h = long_word 24 s.record_start refl h (omega arith)

  capacity_word :
      s.capacity_sectors ≤ u64_max → get_u64 (sealed s c rest) 48 ≡ ok s.capacity_sectors
  unfolding superblock_body put to_le_bytes slice
  capacity_word h = long_word 48 s.capacity_sectors refl h (omega arith)

  sectors_word : s.record_sectors ≤ u32_max → get_u32 (sealed s c rest) 32 ≡ ok s.record_sectors
  unfolding superblock_body put to_le_bytes slice
  sectors_word h = word 32 s.record_sectors refl h (omega arith)

  bytes_word : s.record_bytes ≤ u32_max → get_u32 (sealed s c rest) 36 ≡ ok s.record_bytes
  unfolding superblock_body put to_le_bytes slice
  bytes_word h = word 36 s.record_bytes refl h (omega arith)

  crc_word : s.record_crc ≤ u32_max → get_u32 (sealed s c rest) 40 ≡ ok s.record_crc
  unfolding superblock_body put to_le_bytes slice
  crc_word h = word 40 s.record_crc refl h (omega arith)

  checksum_word : c ≤ u32_max → get_u32 (sealed s c rest) 44 ≡ ok c
  unfolding superblock_body put to_le_bytes slice
  checksum_word h = word 44 c refl h (omega arith)

layout_valid :
    (capacity : ℕ) (s : Superblock)
    → IsEncodable capacity s
    → valid_record_layout 3 s.record_sectors s.record_bytes ≡ true
unfolding valid_record_layout
layout_valid capacity s e =
    let a = e.some_sectors in let b = e.few_sectors in let c = e.whole_sectors in ground arith

sealed_decoded :
    (capacity : ℕ) (s : Superblock) (c : ℕ) (rest : List ℕ)
    → IsEncodable capacity s
    → crc32 (superblock_body (zeros 64 ++ rest) s) ≡ c
    → decode_superblock (sealed s c rest) capacity ≡ ok s
unfolding decode_superblock
sealed_decoded capacity s c rest e same =
    let bound = crc32-le (superblock_body (zeros 64 ++ rest) s) in
    let low = e.behind in
    let high = e.inside in
    let few = e.few_sectors in
    let whole = e.whole_sectors in
    let device_fits = e.device_fits in
    let at_capacity = e.same_capacity in
    let small : c ≤ u32_max = coe 0 1 (i. same i ≤ u32_max) bound in
    let end_in : ok_or (checked_add s.record_start s.record_sectors) arithmetic_overflow
        ≡ ok (s.record_start + s.record_sectors) =
      ground arith in
    let low_test : ltb s.record_start 8 ≡ false = ground arith in
    let end_test : ltb capacity (s.record_start + s.record_sectors) ≡ false = ground arith in
    let capacity_test : ltb capacity s.capacity_sectors ≡ false = ground arith in
    simp (
      version_word s c rest,
      header_word s c rest,
      magic_same s c rest,
      sectors_word s c rest (omega arith),
      bytes_word s c rest (omega arith),
      layout_valid capacity s e,
      checksum_word s c rest small,
      sealed_body s c rest,
      same,
      eq_refl c,
      generation_word s c rest e.generation_fits,
      start_word s c rest (omega arith),
      capacity_word s c rest (omega arith),
      end_in,
      eq_false s.generation 0 e.generation_set,
      low_test,
      end_test,
      capacity_test,
      crc_word s c rest e.crc_fits,
    )

-- Decoding the superblock that is encoded from encodable fields gives the fields back.
pub decode_superblock-encode_superblock :
    (capacity : ℕ) (s : Superblock)
    → IsEncodable capacity s
    → decode_superblock (encode_superblock s) capacity ≡ ok s
decode_superblock-encode_superblock capacity s e =
    let c = crc32 (superblock_body (zeros sector_size) s) in
    ap (λ sector. decode_superblock sector capacity) (encode_superblock-sealed s)
    ∙ sealed_decoded capacity s c (zeros 448) e refl
