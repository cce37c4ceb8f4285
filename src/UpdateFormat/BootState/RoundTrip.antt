-- ===== src/UpdateFormat/BootState/RoundTrip.antt =====
-- The two directions of the boot state's codec in libs/update-format/src/lib.rs.
use codex_os.Prelude.{
  ◌≤◌, ◌≡◌, ◌≢◌, refl, true, false, some, arith, length, get_or, u32_max, u64_max, eq_refl,
  eq_false,
}
use codex_os.Prelude.Results.{ok}
use codex_os.Bytes.{
  slice, put, to_le_bytes, from_le_bytes, get_u32, get_u64, bytes_eq, any_nonzero, crc32, put_u32,
}
use codex_os.Bytes.Words.{from_le_bytes-to_le_bytes, crc32-le}
use codex_os.UpdateFormat.BootState.{
  BootState, SystemSlot, a, b, as_u8, from_u8, encode, encode_body, decode, boot_state_magic,
}

-- The fields that 64-bit words can hold, and that the decoder accepts.
pub record IsEncodable (state : BootState) : Type 0 where
  pub generation_fits : state.generation ≤ u64_max
  pub generation_set : state.generation ≢ 0
  pub release_fits : state.active_release_version ≤ u64_max
  pub release_set : state.active_release_version ≢ 0

from_u8-as_u8 : (slot : SystemSlot) → from_u8 (as_u8 slot) ≡ some slot
from_u8-as_u8 a = refl
from_u8-as_u8 b = refl

length-encode : (state : BootState) → length (encode state) ≡ 64
unfolding encode encode_body put to_le_bytes
length-encode state = refl

magic-encode : (state : BootState) → bytes_eq (slice (encode state) 0 8) boot_state_magic ≡ true
unfolding encode encode_body put to_le_bytes slice bytes_eq
magic-encode state = refl

version-encode : (state : BootState) → get_u32 (encode state) 8 ≡ 1
unfolding encode encode_body put to_le_bytes slice from_le_bytes
version-encode state = refl

header-encode : (state : BootState) → get_u32 (encode state) 12 ≡ 64
unfolding encode encode_body put to_le_bytes slice from_le_bytes
header-encode state = refl

slot-encode : (state : BootState) → get_or (encode state) 24 0 ≡ as_u8 state.active_slot
unfolding encode encode_body put to_le_bytes
slot-encode state = refl

low_reserved-encode : (state : BootState) → any_nonzero (slice (encode state) 25 7) ≡ false
unfolding encode encode_body put to_le_bytes slice
low_reserved-encode state = refl

high_reserved-encode : (state : BootState) → any_nonzero (slice (encode state) 44 20) ≡ false
unfolding encode encode_body put to_le_bytes slice
high_reserved-encode state = refl

cleared-encode : (state : BootState) → put_u32 (encode state) 40 0 ≡ encode_body state
unfolding encode encode_body put to_le_bytes
cleared-encode state = refl

slice_generation : (state : BootState) → slice (encode state) 16 8 ≡ to_le_bytes 8 state.generation
unfolding encode encode_body put to_le_bytes slice
slice_generation state = refl

slice_release :
    (state : BootState) → slice (encode state) 32 8 ≡ to_le_bytes 8 state.active_release_version
unfolding encode encode_body put to_le_bytes slice
slice_release state = refl

slice_checksum :
    (state : BootState) → slice (encode state) 40 4 ≡ to_le_bytes 4 (crc32 (encode_body state))
unfolding encode put to_le_bytes slice encode_body
slice_checksum state = refl

generation-encode :
    (state : BootState) → state.generation ≤ u64_max → get_u64 (encode state) 16 ≡ state.generation
generation-encode state h =
    rw (slice_generation state) (from_le_bytes-to_le_bytes 8 state.generation (omega arith))

release-encode :
    (state : BootState)
    → state.active_release_version ≤ u64_max
    → get_u64 (encode state) 32 ≡ state.active_release_version
release-encode state h =
    rw (slice_release state)
      (from_le_bytes-to_le_bytes 8 state.active_release_version (omega arith))

checksum-encode : (state : BootState) → get_u32 (encode state) 40 ≡ crc32 (encode_body state)
checksum-encode state =
    let bound : crc32 (encode_body state) ≤ u32_max = crc32-le (encode_body state) in
    rw (slice_checksum state)
      (from_le_bytes-to_le_bytes 4 (crc32 (encode_body state)) (omega arith))

-- An encoded boot state whose fields fit their words and are not zero decodes to itself.
pub decode-encode_boot_state :
    (state : BootState) → IsEncodable state → decode (encode state) ≡ ok state
unfolding decode
decode-encode_boot_state state h =
    let g = generation-encode state h.generation_fits in
    let r = release-encode state h.release_fits in
    let g0 = eq_false state.generation 0 h.generation_set in
    let r0 = eq_false state.active_release_version 0 h.release_set in
    simp (
      length-encode state,
      magic-encode state,
      version-encode state,
      header-encode state,
      g,
      r,
      g0,
      r0,
      slot-encode state,
      from_u8-as_u8 state.active_slot,
      low_reserved-encode state,
      high_reserved-encode state,
      cleared-encode state,
      checksum-encode state,
      eq_refl (crc32 (encode_body state)),
    )
