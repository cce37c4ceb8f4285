-- ===== src/UpdateFormat/Manifest.antt =====
-- The signed update manifest of libs/update-format/src/lib.rs, in the current format of 224 bytes
-- and the legacy one of 160.
pub mod Layout
pub mod RoundTrip
use codex_os.Prelude.{ℕ, ◌==◌, List, [], ◌∷◌, Bool, not, ◌||◌, length, bool_ne, if◌then◌else◌}
use codex_os.Prelude.Results.{Result, ok, err, ◌>>=◌, ◌>>◌, fail_if}
use codex_os.Bytes.{zeros, slice, put, put_u32, put_u64, get_u32, get_u64, bytes_eq, any_nonzero}
use codex_os.UpdateFormat.{public_key_bytes, key_id_bytes, ed25519_signature_bytes}

-- b"CDXUPD1\0".
abbrev pub manifest_magic : List ℕ
manifest_magic = 0x43 ∷ 0x44 ∷ 0x58 ∷ 0x55 ∷ 0x50 ∷ 0x44 ∷ 0x31 ∷ 0 ∷ []

abbrev pub legacy_manifest_format_version : ℕ
legacy_manifest_format_version = 1

abbrev pub manifest_format_version : ℕ
manifest_format_version = 2

abbrev pub legacy_manifest_bytes : ℕ
legacy_manifest_bytes = 160

abbrev pub manifest_bytes : ℕ
manifest_bytes = 224

abbrev pub legacy_signing_bytes : ℕ
legacy_signing_bytes = 80

abbrev pub max_signing_bytes : ℕ
max_signing_bytes = 160

pub data ManifestError : Type 0 where
  invalid_length invalid_magic unsupported_format invalid_header_size : ManifestError
  invalid_release_version invalid_kernel_size invalid_key_id : ManifestError
  invalid_next_trust_key invalid_signature nonzero_reserved_bytes : ManifestError

pub record UpdateManifest : Type 0 where
  pub format_version : ℕ
  pub release_version : ℕ
  pub kernel_size : ℕ
  pub kernel_sha256 : List ℕ
  pub key_id : List ℕ
  pub next_trust_public_key : List ℕ
  pub next_trust_key_id : List ℕ
  pub signature : List ℕ

abbrev pub unsigned_with_next_trust_key : ℕ → ℕ → List ℕ → List ℕ → List ℕ → List ℕ → UpdateManifest
unsigned_with_next_trust_key release size sha256 id next_key next_id = record {
  format_version = manifest_format_version;
  release_version = release;
  kernel_size = size;
  kernel_sha256 = sha256;
  key_id = id;
  next_trust_public_key = next_key;
  next_trust_key_id = next_id;
  signature = zeros ed25519_signature_bytes;
}

abbrev pub unsigned : ℕ → ℕ → List ℕ → List ℕ → UpdateManifest
unsigned release size sha256 id =
    unsigned_with_next_trust_key release size sha256 id (zeros public_key_bytes)
      (zeros key_id_bytes)

abbrev pub has_next_trust_key : UpdateManifest → Bool
has_next_trust_key m = not (bytes_eq m.next_trust_public_key (zeros public_key_bytes))

abbrev pub signing_len : UpdateManifest → ℕ
signing_len m =
    if m.format_version == legacy_manifest_format_version
    then legacy_signing_bytes
    else max_signing_bytes

-- The magic and the fields of both formats up to the kernel's size.
unfoldable pub signing_header : ℕ → ℕ → UpdateManifest → List ℕ
signing_header version size m =
    let s1 = put (zeros max_signing_bytes) 0 manifest_magic in
    let s2 = put_u32 s1 8 version in
    let s3 = put_u32 s2 12 size in
    let s4 = put_u64 s3 16 m.release_version in put_u64 s4 24 m.kernel_size

unfoldable pub signing_common : ℕ → ℕ → UpdateManifest → List ℕ
unfolding signing_header
signing_common version size m =
    put (put (signing_header version size m) 32 m.kernel_sha256) 64 m.key_id

unfoldable pub signing_bytes : UpdateManifest → List ℕ
unfolding signing_common
signing_bytes m =
    let legacy = signing_common legacy_manifest_format_version legacy_manifest_bytes m in
    let current = signing_common manifest_format_version manifest_bytes m in
    if m.format_version == legacy_manifest_format_version
    then legacy
    else put (put current 80 m.next_trust_public_key) 112 m.next_trust_key_id

unfoldable pub encode : UpdateManifest → List ℕ
unfolding signing_bytes
encode m = put (put (zeros manifest_bytes) 0 (signing_bytes m)) 160 m.signature

-- What the two formats do not share: the next key, its id and the signature.
abbrev pub decode_legacy_tail : List ℕ → ℕ → Result ManifestError (List ℕ × (List ℕ × List ℕ))
decode_legacy_tail input header_size = do
  fail_if
      (not (length input == legacy_manifest_bytes) || not (header_size == legacy_manifest_bytes))
      invalid_header_size
  fail_if (any_nonzero (slice input 144 16)) nonzero_reserved_bytes
  ok (zeros public_key_bytes, (zeros key_id_bytes, slice input 80 64))

abbrev pub decode_current_tail : List ℕ → ℕ → Result ManifestError (List ℕ × (List ℕ × List ℕ))
decode_current_tail input header_size = do
  fail_if (not (length input == manifest_bytes) || not (header_size == manifest_bytes))
      invalid_header_size
  fail_if
      (bool_ne (bytes_eq (slice input 80 32) (zeros public_key_bytes))
        (bytes_eq (slice input 112 16) (zeros key_id_bytes)))
      invalid_next_trust_key
  fail_if (any_nonzero (slice input 128 32)) nonzero_reserved_bytes
  ok (slice input 80 32, (slice input 112 16, slice input 160 64))

abbrev pub decode_tail : ℕ → List ℕ → ℕ → Result ManifestError (List ℕ × (List ℕ × List ℕ))
decode_tail version input header_size =
    if version == legacy_manifest_format_version
    then decode_legacy_tail input header_size
    else if version == manifest_format_version
    then decode_current_tail input header_size
    else err unsupported_format

unfoldable pub decode : List ℕ → Result ManifestError UpdateManifest
decode input = do
  fail_if (not (length input == legacy_manifest_bytes || length input == manifest_bytes))
      invalid_length
  fail_if (not (bytes_eq (slice input 0 8) manifest_magic)) invalid_magic
  fail_if (get_u64 input 16 == 0) invalid_release_version
  fail_if (get_u64 input 24 == 0) invalid_kernel_size
  fail_if (bytes_eq (slice input 64 16) (zeros key_id_bytes)) invalid_key_id
  (next_key, (next_id, signature)) ← decode_tail (get_u32 input 8) input (get_u32 input 12)
  fail_if (bytes_eq signature (zeros ed25519_signature_bytes)) invalid_signature
  ok (record {
    format_version = get_u32 input 8;
    release_version = get_u64 input 16;
    kernel_size = get_u64 input 24;
    kernel_sha256 = slice input 32 32;
    key_id = slice input 64 16;
    next_trust_public_key = next_key;
    next_trust_key_id = next_id;
    signature = signature;
  })
