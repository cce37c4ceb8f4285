-- ===== src/UpdateFormat/TrustRoot/RoundTrip.antt =====
-- Encoding then decoding a trust root of libs/update-format/src/lib.rs.
use codex_os.Prelude.{
  ℕ, ◌+◌, ◌≤◌, ◌≡◌, ◌≢◌, refl, sym, ap, ◌∙◌, List, [], ◌∷◌, true, false, arith, length,
  length-append, ◌++◌, u64_max, eq_refl, eq_false,
}
use codex_os.Prelude.Results.{ok}
use codex_os.Bytes.{
  zeros, slice, put, to_le_bytes, from_le_bytes, get_u32, get_u64, bytes_eq, crc32, put_u32,
}
use codex_os.Bytes.Words.{from_le_bytes-to_le_bytes, length-to_le_bytes, bytes_eq_refl, crc32-le}
use codex_os.Bytes.Fields.{concat, slice-field, put-field}
use codex_os.UpdateFormat.TrustRoot.{
  TrustRootState, encode, encode_body, encode_header, decode, trust_root_state_magic,
}

-- The states that the array types and the decoder's tests allow.
pub record IsEncodable (state : TrustRootState) : Type 0 where
  pub release_fits : state.activation_release_version ≤ u64_max
  pub release_set : state.activation_release_version ≢ 0
  pub public_key_length : length state.public_key ≡ 32
  pub public_key_set : bytes_eq state.public_key (zeros 32) ≡ false
  pub key_id_length : length state.key_id ≡ 16
  pub key_id_set : bytes_eq state.key_id (zeros 16) ≡ false

-- The layout, for the bytes of the keys and of the checksum.
abbrev fields : ℕ → List ℕ → List ℕ → List ℕ → List (List ℕ)
fields release public_key key_id checksum =
    trust_root_state_magic
    ∷ to_le_bytes 4 1
    ∷ to_le_bytes 4 80
    ∷ to_le_bytes 8 release
    ∷ public_key
    ∷ key_id
    ∷ checksum
    ∷ zeros 4
    ∷ []

header-fields :
    (state : TrustRootState)
    → encode_header state
      ≡ concat (fields state.activation_release_version (zeros 32) (zeros 16) (zeros 4))
unfolding encode_header put to_le_bytes
header-fields state = refl

module _ (state : TrustRootState) (h : IsEncodable state) where
  abbrev laid_out : List ℕ → List (List ℕ)
  laid_out checksum = fields state.activation_release_version state.public_key state.key_id checksum

  body-fields : encode_body state ≡ concat (laid_out (zeros 4))
  unfolding encode_body to_le_bytes
  body-fields = rw (
    header-fields state,
    put-field 4 24 (fields state.activation_release_version (zeros 32) (zeros 16) (zeros 4))
        (zeros 32) state.public_key refl (sym h.public_key_length) refl,
    put-field 5 56 (fields state.activation_release_version state.public_key (zeros 16) (zeros 4))
        (zeros 16) state.key_id refl (sym h.key_id_length) (rw h.public_key_length refl),
  )

  offset_checksum :
      (c : List ℕ)
      → 8 + (4 + (4 + (8 + (length state.public_key + (length state.key_id + 0))))) ≡ 72
  offset_checksum c = rw (h.public_key_length, h.key_id_length)

  put_checksum :
      (old new : List ℕ)
      → length old ≡ 4
      → length new ≡ 4
      → put (concat (laid_out old)) 72 new ≡ concat (laid_out new)
  unfolding to_le_bytes
  put_checksum old new e1 e2 =
      put-field 6 72 (laid_out old) old new refl (e1 ∙ sym e2) (offset_checksum old)

  abbrev checksum : List ℕ
  checksum = to_le_bytes 4 (crc32 (encode_body state))

  encode-fields : encode state ≡ concat (laid_out checksum)
  unfolding encode
  encode-fields =
      ap (λ t. put t 72 checksum) body-fields
      ∙ put_checksum (zeros 4) checksum refl (length-to_le_bytes 4 (crc32 (encode_body state)))

  length-encode : length (encode state) ≡ 80
  unfolding to_le_bytes
  length-encode = rw encode-fields (
      omega (
        arith,
        length-append state.public_key (state.key_id ++ (checksum ++ zeros 4)),
        length-append state.key_id (checksum ++ zeros 4),
        h.public_key_length,
        h.key_id_length,
      ))

  magic-encode : slice (encode state) 0 8 ≡ trust_root_state_magic
  magic-encode =
      rw encode-fields (slice-field 0 0 8 (laid_out checksum) trust_root_state_magic refl refl refl)

  version-encode : slice (encode state) 8 4 ≡ to_le_bytes 4 1
  unfolding to_le_bytes
  version-encode =
      rw encode-fields (slice-field 1 8 4 (laid_out checksum) (to_le_bytes 4 1) refl refl refl)

  header-encode : slice (encode state) 12 4 ≡ to_le_bytes 4 80
  unfolding to_le_bytes
  header-encode =
      rw encode-fields (slice-field 2 12 4 (laid_out checksum) (to_le_bytes 4 80) refl refl refl)

  release-encode : get_u64 (encode state) 16 ≡ state.activation_release_version
  unfolding to_le_bytes
  release-encode =
      let release = state.activation_release_version in
      let fits = h.release_fits in
      ap from_le_bytes (
        ap (λ t. slice t 16 8) encode-fields
        ∙ slice-field 3 16 8 (laid_out checksum) (to_le_bytes 8 release) refl refl refl)
      ∙ from_le_bytes-to_le_bytes 8 release (omega arith)

  public_key-encode : slice (encode state) 24 32 ≡ state.public_key
  unfolding to_le_bytes
  public_key-encode =
      rw encode-fields
        (slice-field 4 24 32 (laid_out checksum) state.public_key refl h.public_key_length refl)

  key_id-encode : slice (encode state) 56 16 ≡ state.key_id
  unfolding to_le_bytes
  key_id-encode = rw encode-fields (
      slice-field 5 56 16 (laid_out checksum) state.key_id refl h.key_id_length
        (rw h.public_key_length refl))

  checksum-encode : get_u32 (encode state) 72 ≡ crc32 (encode_body state)
  unfolding to_le_bytes
  checksum-encode =
      let bound = crc32-le (encode_body state) in
      ap from_le_bytes (
        ap (λ t. slice t 72 4) encode-fields
        ∙ slice-field 6 72 4 (laid_out checksum) checksum refl refl (offset_checksum checksum))
      ∙ from_le_bytes-to_le_bytes 4 (crc32 (encode_body state)) (omega arith)

  reserved-encode : slice (encode state) 76 4 ≡ zeros 4
  unfolding to_le_bytes
  reserved-encode = rw encode-fields (
      slice-field 7 76 4 (laid_out checksum) (zeros 4) refl refl
        (rw (h.public_key_length, h.key_id_length) refl))

  cleared-encode : put_u32 (encode state) 72 0 ≡ encode_body state
  unfolding to_le_bytes
  cleared-encode =
      ap (λ t. put_u32 t 72 0) encode-fields
      ∙ put_checksum checksum (zeros 4) refl refl
      ∙ sym body-fields

le_one : from_le_bytes (to_le_bytes 4 1) ≡ 1
unfolding from_le_bytes to_le_bytes
le_one = refl

le_eighty : from_le_bytes (to_le_bytes 4 80) ≡ 80
unfolding from_le_bytes to_le_bytes
le_eighty = refl

magic_equal : bytes_eq trust_root_state_magic trust_root_state_magic ≡ true
magic_equal = bytes_eq_refl trust_root_state_magic

-- An encoded trust root whose release fits its word and is not zero, and whose key and key id have
-- their lengths and are not all zero, decodes to itself.
pub decode-encode_trust_root :
    (state : TrustRootState) → IsEncodable state → decode (encode state) ≡ ok state
unfolding decode
decode-encode_trust_root state h =
    let set = eq_false state.activation_release_version 0 h.release_set in
    simp (
      length-encode state h,
      magic-encode state h,
      magic_equal,
      version-encode state h,
      le_one,
      header-encode state h,
      le_eighty,
      release-encode state h,
      set,
      public_key-encode state h,
      h.public_key_set,
      key_id-encode state h,
      h.key_id_set,
      reserved-encode state h,
      cleared-encode state h,
      checksum-encode state h,
      eq_refl (crc32 (encode_body state)),
    )
