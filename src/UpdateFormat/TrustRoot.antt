-- ===== src/UpdateFormat/TrustRoot.antt =====
-- The persisted trust root of libs/update-format/src/lib.rs: the key that signs updates from a
-- release on, in 80 bytes with a CRC.
pub mod RoundTrip
use codex_os.Prelude.{ℕ, ◌==◌, List, [], ◌∷◌, not, length}
use codex_os.Prelude.Results.{Result, ok, ◌>>=◌, ◌>>◌, fail_if}
use codex_os.Bytes.{
  zeros, slice, put, put_u32, put_u64, get_u32, get_u64, bytes_eq, any_nonzero, crc32,
}
use codex_os.UpdateFormat.{public_key_bytes, key_id_bytes}

-- b"CDXTRST1".
abbrev pub trust_root_state_magic : List ℕ
trust_root_state_magic = 0x43 ∷ 0x44 ∷ 0x58 ∷ 0x54 ∷ 0x52 ∷ 0x53 ∷ 0x54 ∷ 0x31 ∷ []

abbrev pub trust_root_state_format_version : ℕ
trust_root_state_format_version = 1

abbrev pub trust_root_state_bytes : ℕ
trust_root_state_bytes = 80

pub data TrustRootStateError : Type 0 where
  invalid_length invalid_magic unsupported_format invalid_header_size : TrustRootStateError
  invalid_activation_release invalid_public_key invalid_key_id : TrustRootStateError
  invalid_checksum nonzero_reserved_bytes : TrustRootStateError

pub record TrustRootState : Type 0 where
  pub activation_release_version : ℕ
  pub public_key : List ℕ
  pub key_id : List ℕ

-- The header and the release, before the keys are copied in.
unfoldable pub encode_header : TrustRootState → List ℕ
encode_header state =
    let o1 = put (zeros trust_root_state_bytes) 0 trust_root_state_magic in
    let o2 = put_u32 o1 8 trust_root_state_format_version in
    let o3 = put_u32 o2 12 trust_root_state_bytes in put_u64 o3 16 state.activation_release_version

-- Everything but the checksum.
unfoldable pub encode_body : TrustRootState → List ℕ
unfolding encode_header
encode_body state = put (put (encode_header state) 24 state.public_key) 56 state.key_id

unfoldable pub encode : TrustRootState → List ℕ
unfolding encode_body
encode state = put_u32 (encode_body state) 72 (crc32 (encode_body state))

unfoldable pub decode : List ℕ → Result TrustRootStateError TrustRootState
decode input = do
  fail_if (not (length input == trust_root_state_bytes)) invalid_length
  fail_if (not (bytes_eq (slice input 0 8) trust_root_state_magic)) invalid_magic
  fail_if (not (get_u32 input 8 == trust_root_state_format_version)) unsupported_format
  fail_if (not (get_u32 input 12 == trust_root_state_bytes)) invalid_header_size
  fail_if (get_u64 input 16 == 0) invalid_activation_release
  fail_if (bytes_eq (slice input 24 32) (zeros public_key_bytes)) invalid_public_key
  fail_if (bytes_eq (slice input 56 16) (zeros key_id_bytes)) invalid_key_id
  fail_if (any_nonzero (slice input 76 4)) nonzero_reserved_bytes
  fail_if (not (crc32 (put_u32 input 72 0) == get_u32 input 72)) invalid_checksum
  ok (record {
    activation_release_version = get_u64 input 16;
    public_key = slice input 24 32;
    key_id = slice input 56 16;
  })
