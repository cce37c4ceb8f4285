-- ===== src/Bytes.antt =====
-- Byte arrays: `copy_from_slice` into a range, slices, and little-endian words, as the `put_u32` and
-- `get_u32` helpers of libs/update-format/src/lib.rs, kernel/src/fs.rs and kernel/src/user_elf.rs
-- use them.
pub mod Words
pub mod Appended
pub mod Fields
use codex_os.Prelude.{
  ℕ, zero, suc, ◌+◌, ◌-◌, ◌*◌, ◌/◌, ◌%◌, ◌==◌, leb, List, [], ◌∷◌, Bool, true, false, not, ◌&&◌,
  ◌||◌, any, take, drop, length, replicate, bit_and, bit_xor, u32_max, if◌then◌else◌,
}
use mathlib.Core.List.{foldl}

abbrev pub zeros : ℕ → List ℕ
zeros n = replicate n 0

-- `input[offset..offset + n]`.
unfoldable pub slice : List ℕ → ℕ → ℕ → List ℕ
slice input offset n = take n (drop offset input)

-- `output[offset..offset + source.len()].copy_from_slice(source)`.
unfoldable pub put : List ℕ → ℕ → List ℕ → List ℕ
put output zero [] = output
put [] zero (b ∷ source) = []
put (x ∷ output) zero (b ∷ source) = b ∷ put output zero source
put [] (suc offset) source = []
put (x ∷ output) (suc offset) source = x ∷ put output offset source

unfoldable pub to_le_bytes : ℕ → ℕ → List ℕ
to_le_bytes zero value = []
to_le_bytes (suc n) value = value % 256 ∷ to_le_bytes n (value / 256)

unfoldable pub from_le_bytes : List ℕ → ℕ
from_le_bytes [] = 0
from_le_bytes (b ∷ bytes) = b + 256 * from_le_bytes bytes

abbrev pub put_u16 : List ℕ → ℕ → ℕ → List ℕ
put_u16 output offset value = put output offset (to_le_bytes 2 value)

abbrev pub put_u32 : List ℕ → ℕ → ℕ → List ℕ
put_u32 output offset value = put output offset (to_le_bytes 4 value)

abbrev pub put_u64 : List ℕ → ℕ → ℕ → List ℕ
put_u64 output offset value = put output offset (to_le_bytes 8 value)

abbrev pub get_u16 : List ℕ → ℕ → ℕ
get_u16 input offset = from_le_bytes (slice input offset 2)

abbrev pub get_u32 : List ℕ → ℕ → ℕ
get_u32 input offset = from_le_bytes (slice input offset 4)

abbrev pub get_u64 : List ℕ → ℕ → ℕ
get_u64 input offset = from_le_bytes (slice input offset 8)

-- Equality of arrays.
unfoldable pub bytes_eq : List ℕ → List ℕ → Bool
bytes_eq [] [] = true
bytes_eq [] (y ∷ ys) = false
bytes_eq (x ∷ xs) [] = false
bytes_eq (x ∷ xs) (y ∷ ys) = x == y && bytes_eq xs ys

-- `bytes.iter().any(|byte| *byte != 0)`.
abbrev pub any_nonzero : List ℕ → Bool
any_nonzero bytes = any (λ byte. not (byte == 0)) bytes

-- One of the eight rounds: the mask is `0_u32.wrapping_sub(crc & 1)`.
abbrev crc_round : ℕ → ℕ
crc_round crc = bit_xor (crc / 2) (bit_and 0xedb8_8320 (if bit_and crc 1 == 0 then 0 else u32_max))

abbrev crc_rounds : ℕ → ℕ → ℕ
crc_rounds zero crc = crc
crc_rounds (suc n) crc = crc_rounds n (crc_round crc)

unfoldable pub crc_bytes : ℕ → List ℕ → ℕ
crc_bytes crc [] = crc
crc_bytes crc (byte ∷ bytes) = crc_bytes (crc_rounds 8 (bit_xor crc byte)) bytes

-- `!crc` on 32 bits.
unfoldable pub crc32 : List ℕ → ℕ
unfolding crc_bytes
crc32 bytes = u32_max - crc_bytes u32_max bytes
