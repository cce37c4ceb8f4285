-- ===== src/UpdateFormat/Manifest/RoundTrip.antt =====
-- Encoding then decoding a manifest of libs/update-format/src/lib.rs: the current format returns what
-- was encoded, and a legacy manifest is refused.
use codex_os.Prelude.{
  ℕ, ◌<◌, ◌≤◌, ◌≡◌, ◌≢◌, refl, sym, ap, ◌∙◌, List, [], ◌++◌, Bool, true, false, arith, length,
  length-append, u64_max, bool_ne, eq_false,
}
use codex_os.Prelude.Results.{ok, err}
use codex_os.Bytes.{zeros, slice, to_le_bytes, from_le_bytes, get_u64, bytes_eq}
use codex_os.Bytes.Words.{from_le_bytes-to_le_bytes, bytes_eq_refl}
use codex_os.Bytes.Fields.{concat, slice-field}
use codex_os.UpdateFormat.Manifest.{UpdateManifest, encode, decode, manifest_magic, ManifestError}
use ManifestError.{invalid_header_size}
use codex_os.UpdateFormat.Manifest.Layout.{
  HasLengths, fields, with_signature, encode_legacy, encode_current,
}

-- The manifests that the field types and the decoder's tests allow, whatever their format.
pub record IsEncodable (m : UpdateManifest) : Type 0 where
  pub lengths : HasLengths m
  pub release_fits : m.release_version ≤ u64_max
  pub release_set : m.release_version ≢ 0
  pub size_fits : m.kernel_size ≤ u64_max
  pub size_set : m.kernel_size ≢ 0
  pub key_id_set : bytes_eq m.key_id (zeros 16) ≡ false
  pub next_key_paired :
      bytes_eq m.next_trust_public_key (zeros 32) ≡ bytes_eq m.next_trust_key_id (zeros 16)
  pub signature_set : bytes_eq m.signature (zeros 64) ≡ false

module _ (version size : ℕ) (m : UpdateManifest) (h : HasLengths m) (next_key next_id : List ℕ)
    (next_key_length : length next_key ≡ 32) (next_id_length : length next_id ≡ 16) where
  abbrev layout : List (List ℕ)
  layout =
      with_signature (fields version size m m.kernel_sha256 m.key_id next_key next_id) m.signature

  length-layout : length (concat layout) ≡ 224
  unfolding to_le_bytes
  length-layout = omega (
    arith,
    length-append m.kernel_sha256
        (m.key_id ++ (next_key ++ (next_id ++ (zeros 32 ++ (m.signature ++ []))))),
    length-append m.key_id (next_key ++ (next_id ++ (zeros 32 ++ (m.signature ++ [])))),
    length-append next_key (next_id ++ (zeros 32 ++ (m.signature ++ []))),
    length-append next_id (zeros 32 ++ (m.signature ++ [])),
    length-append m.signature [],
    h.sha256_length,
    h.key_id_length,
    h.signature_length,
  )

  slice-magic : slice (concat layout) 0 8 ≡ manifest_magic
  slice-magic = slice-field 0 0 8 layout manifest_magic refl refl refl

  slice-version : slice (concat layout) 8 4 ≡ to_le_bytes 4 version
  unfolding to_le_bytes
  slice-version = slice-field 1 8 4 layout (to_le_bytes 4 version) refl refl refl

  slice-size : slice (concat layout) 12 4 ≡ to_le_bytes 4 size
  unfolding to_le_bytes
  slice-size = slice-field 2 12 4 layout (to_le_bytes 4 size) refl refl refl

  release-layout : m.release_version ≤ u64_max → get_u64 (concat layout) 16 ≡ m.release_version
  unfolding to_le_bytes
  release-layout fits =
      ap from_le_bytes (slice-field 3 16 8 layout (to_le_bytes 8 m.release_version) refl refl refl)
      ∙ from_le_bytes-to_le_bytes 8 m.release_version (omega arith)

  kernel_size-layout : m.kernel_size ≤ u64_max → get_u64 (concat layout) 24 ≡ m.kernel_size
  unfolding to_le_bytes
  kernel_size-layout fits =
      ap from_le_bytes (slice-field 4 24 8 layout (to_le_bytes 8 m.kernel_size) refl refl refl)
      ∙ from_le_bytes-to_le_bytes 8 m.kernel_size (omega arith)

  slice-sha256 : slice (concat layout) 32 32 ≡ m.kernel_sha256
  unfolding to_le_bytes
  slice-sha256 = slice-field 5 32 32 layout m.kernel_sha256 refl h.sha256_length refl

  slice-key_id : slice (concat layout) 64 16 ≡ m.key_id
  unfolding to_le_bytes
  slice-key_id = slice-field 6 64 16 layout m.key_id refl h.key_id_length (rw h.sha256_length refl)

  slice-next_key : slice (concat layout) 80 32 ≡ next_key
  unfolding to_le_bytes
  slice-next_key =
      slice-field 7 80 32 layout next_key refl next_key_length
        (rw (h.sha256_length, h.key_id_length) refl)

  slice-next_id : slice (concat layout) 112 16 ≡ next_id
  unfolding to_le_bytes
  slice-next_id =
      slice-field 8 112 16 layout next_id refl next_id_length
        (rw (h.sha256_length, h.key_id_length, next_key_length) refl)

  slice-reserved : slice (concat layout) 128 32 ≡ zeros 32
  unfolding to_le_bytes
  slice-reserved =
      slice-field 9 128 32 layout (zeros 32) refl refl
        (rw (h.sha256_length, h.key_id_length, next_key_length, next_id_length) refl)

  slice-signature : slice (concat layout) 160 64 ≡ m.signature
  unfolding to_le_bytes
  slice-signature =
      slice-field 10 160 64 layout m.signature refl h.signature_length
        (rw (h.sha256_length, h.key_id_length, next_key_length, next_id_length) refl)

le_word : (n : ℕ) → n < 256 → from_le_bytes (to_le_bytes 4 n) ≡ n
le_word n h = from_le_bytes-to_le_bytes 4 n (omega arith)

bool_ne_refl : (x y : Bool) → x ≡ y → bool_ne x y ≡ false
bool_ne_refl true y e = rw (← e)
bool_ne_refl false y e = rw (← e)

magic_equal : bytes_eq manifest_magic manifest_magic ≡ true
magic_equal = bytes_eq_refl manifest_magic

-- A manifest of the current format whose fields the decoder accepts decodes, once encoded, to itself:
-- the release and the size fit their words and are not zero, the arrays have their lengths, the key
-- id and the signature are not all zero, and the next key is all zero exactly when its id is.
pub decode-encode_manifest :
    (m : UpdateManifest) → m.format_version ≡ 2 → IsEncodable m → decode (encode m) ≡ ok m
unfolding decode
decode-encode_manifest m version h =
    let l = h.lengths in
    let k = m.next_trust_public_key in
    let i = m.next_trust_key_id in
    let kl = l.next_key_length in
    let il = l.next_id_length in
    let set1 = eq_false m.release_version 0 h.release_set in
    let set2 = eq_false m.kernel_size 0 h.size_set in
    let paired = bool_ne_refl (bytes_eq k (zeros 32)) (bytes_eq i (zeros 16)) h.next_key_paired in
    let two = le_word 2 (omega arith) in
    let size = le_word 224 (omega arith) in
    rw (encode_current m l (rw version refl)) (
      simp
        (
          length-layout 2 224 m l k i kl il,
          slice-magic 2 224 m l k i kl il,
          magic_equal,
          release-layout 2 224 m l k i kl il h.release_fits,
          set1,
          kernel_size-layout 2 224 m l k i kl il h.size_fits,
          set2,
          slice-key_id 2 224 m l k i kl il,
          h.key_id_set,
          slice-version 2 224 m l k i kl il,
          two,
          slice-size 2 224 m l k i kl il,
          size,
          slice-next_key 2 224 m l k i kl il,
          slice-next_id 2 224 m l k i kl il,
          paired,
          slice-reserved 2 224 m l k i kl il,
          slice-signature 2 224 m l k i kl il,
          h.signature_set,
          slice-sha256 2 224 m l k i kl il,
        )
        (ap (λ v. ok (record m { format_version = v })) (sym version)))

-- A legacy manifest that the decoder's other tests accept is refused once encoded, since `encode`
-- always writes 224 bytes: the decoder returns `invalid_header_size`.
pub encode_legacy-refused :
    (m : UpdateManifest)
    → m.format_version ≡ 1
    → IsEncodable m
    → decode (encode m) ≡ err invalid_header_size
unfolding decode
encode_legacy-refused m version h =
    let l = h.lengths in
    let k = zeros 32 in
    let i = zeros 16 in
    let set1 = eq_false m.release_version 0 h.release_set in
    let set2 = eq_false m.kernel_size 0 h.size_set in
    let one = le_word 1 (omega arith) in
    rw (encode_legacy m l version) (
      simp (
        length-layout 1 160 m l k i refl refl,
        slice-magic 1 160 m l k i refl refl,
        magic_equal,
        release-layout 1 160 m l k i refl refl h.release_fits,
        set1,
        kernel_size-layout 1 160 m l k i refl refl h.size_fits,
        set2,
        slice-key_id 1 160 m l k i refl refl,
        h.key_id_set,
        slice-version 1 160 m l k i refl refl,
        one,
      ))
