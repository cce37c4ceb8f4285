-- ===== src/UpdateFormat/BootState.antt =====
-- The boot state of libs/update-format/src/lib.rs: which slot is active, in 64 bytes with a CRC.
pub mod RoundTrip
use codex_os.Prelude.{
  ℕ, ◌+◌, ◌==◌, List, [], ◌∷◌, Bool, true, false, not, ◌||◌, Option, none, some, get_or, length,
  drop, if◌then◌else◌,
}
use codex_os.Prelude.Results.{Result, ok, err, ◌>>=◌, ◌>>◌, fail_if, ok_or}
use codex_os.Bytes.{
  zeros, slice, put, put_u32, put_u64, get_u32, get_u64, bytes_eq, any_nonzero, crc32,
}

-- b"CDXBOOT1".
abbrev pub boot_state_magic : List ℕ
boot_state_magic = 0x43 ∷ 0x44 ∷ 0x58 ∷ 0x42 ∷ 0x4f ∷ 0x4f ∷ 0x54 ∷ 0x31 ∷ []

abbrev pub boot_state_format_version : ℕ
boot_state_format_version = 1

abbrev pub boot_state_bytes : ℕ
boot_state_bytes = 64

pub data BootStateError : Type 0 where
  invalid_length invalid_magic unsupported_format invalid_header_size : BootStateError
  invalid_generation invalid_slot invalid_release_version : BootStateError
  invalid_checksum nonzero_reserved_bytes : BootStateError

pub data SystemSlot : Type 0 where
  a b : SystemSlot

abbrev pub as_u8 : SystemSlot → ℕ
as_u8 a = 0
as_u8 b = 1

abbrev pub from_u8 : ℕ → Option SystemSlot
from_u8 value = if value == 0 then some a else if value == 1 then some b else none

abbrev pub other : SystemSlot → SystemSlot
other a = b
other b = a

pub record BootState : Type 0 where
  pub generation : ℕ
  pub active_slot : SystemSlot
  pub active_release_version : ℕ

-- Everything but the checksum.
unfoldable pub encode_body : BootState → List ℕ
encode_body state =
    let o1 = put (zeros boot_state_bytes) 0 boot_state_magic in
    let o2 = put_u32 o1 8 boot_state_format_version in
    let o3 = put_u32 o2 12 boot_state_bytes in
    let o4 = put_u64 o3 16 state.generation in
    let o5 = put o4 24 (as_u8 state.active_slot ∷ []) in put_u64 o5 32 state.active_release_version

unfoldable pub encode : BootState → List ℕ
unfolding encode_body
encode state = put_u32 (encode_body state) 40 (crc32 (encode_body state))

unfoldable pub decode : List ℕ → Result BootStateError BootState
decode input = do
  fail_if (not (length input == boot_state_bytes)) invalid_length
  fail_if (not (bytes_eq (slice input 0 8) boot_state_magic)) invalid_magic
  fail_if (not (get_u32 input 8 == boot_state_format_version)) unsupported_format
  fail_if (not (get_u32 input 12 == boot_state_bytes)) invalid_header_size
  fail_if (get_u64 input 16 == 0) invalid_generation
  active_slot ← ok_or (from_u8 (get_or input 24 0)) invalid_slot
  fail_if (get_u64 input 32 == 0) invalid_release_version
  fail_if (any_nonzero (slice input 25 7) || any_nonzero (slice input 44 20)) nonzero_reserved_bytes
  fail_if (not (crc32 (put_u32 input 40 0) == get_u32 input 40)) invalid_checksum
  ok (record {
    generation = get_u64 input 16;
    active_slot = active_slot;
    active_release_version = get_u64 input 32;
  })
