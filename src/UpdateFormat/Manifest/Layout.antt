-- ===== src/UpdateFormat/Manifest/Layout.antt =====
-- The manifest's two layouts in libs/update-format/src/lib.rs, as the concatenation of their fields,
-- and the slices of an encoded manifest.
use codex_os.Prelude.{
  ℕ, ◌≡◌, refl, sym, ap, ◌∙◌, ◌==◌, List, [], ◌∷◌, ◌++◌, false, arith, length, length-append,
}
use codex_os.Bytes.{zeros, put, to_le_bytes}
use codex_os.Bytes.Fields.{concat, put-field, concat-snoc}
use codex_os.UpdateFormat.Manifest.{
  UpdateManifest, encode, signing_bytes, signing_common, signing_header, manifest_magic,
}

-- The lengths that the array types fix.
pub record HasLengths (m : UpdateManifest) : Type 0 where
  pub sha256_length : length m.kernel_sha256 ≡ 32
  pub key_id_length : length m.key_id ≡ 16
  pub next_key_length : length m.next_trust_public_key ≡ 32
  pub next_id_length : length m.next_trust_key_id ≡ 16
  pub signature_length : length m.signature ≡ 64

abbrev pub fields : ℕ → ℕ → UpdateManifest → List ℕ → List ℕ → List ℕ → List ℕ → List (List ℕ)
fields version size m sha256 id next_key next_id =
    manifest_magic
    ∷ to_le_bytes 4 version
    ∷ to_le_bytes 4 size
    ∷ to_le_bytes 8 m.release_version
    ∷ to_le_bytes 8 m.kernel_size
    ∷ sha256
    ∷ id
    ∷ next_key
    ∷ next_id
    ∷ zeros 32
    ∷ []

abbrev pub with_signature : List (List ℕ) → List ℕ → List (List ℕ)
with_signature fs signature = fs ++ signature ∷ []

abbrev pub legacy_fields : UpdateManifest → List (List ℕ)
legacy_fields m = fields 1 160 m m.kernel_sha256 m.key_id (zeros 32) (zeros 16)

abbrev pub current_fields : UpdateManifest → List (List ℕ)
current_fields m =
    fields 2 224 m m.kernel_sha256 m.key_id m.next_trust_public_key m.next_trust_key_id

header-fields :
    (version size : ℕ) (m : UpdateManifest)
    → signing_header version size m
      ≡ concat (fields version size m (zeros 32) (zeros 16) (zeros 32) (zeros 16))
unfolding signing_header put to_le_bytes
header-fields version size m = refl

pub length-fields :
    (version size : ℕ) (m : UpdateManifest) (sha256 id next_key next_id : List ℕ)
    → length sha256 ≡ 32
    → length id ≡ 16
    → length next_key ≡ 32
    → length next_id ≡ 16
    → length (concat (fields version size m sha256 id next_key next_id)) ≡ 160
unfolding to_le_bytes
length-fields version size m sha256 id next_key next_id h1 h2 h3 h4 = omega (
  arith,
  length-append sha256 (id ++ (next_key ++ (next_id ++ zeros 32))),
  length-append id (next_key ++ (next_id ++ zeros 32)),
  length-append next_key (next_id ++ zeros 32),
  length-append next_id (zeros 32),
)

module _ (m : UpdateManifest) (h : HasLengths m) where
  common-fields :
      (version size : ℕ)
      → signing_common version size m
        ≡ concat (fields version size m m.kernel_sha256 m.key_id (zeros 32) (zeros 16))
  unfolding signing_common to_le_bytes
  common-fields version size = rw (
    header-fields version size m,
    put-field 5 32 (fields version size m (zeros 32) (zeros 16) (zeros 32) (zeros 16)) (zeros 32)
        m.kernel_sha256 refl (sym h.sha256_length) refl,
    put-field 6 64 (fields version size m m.kernel_sha256 (zeros 16) (zeros 32) (zeros 16))
        (zeros 16) m.key_id refl (sym h.key_id_length) (rw h.sha256_length refl),
  )

  next_key-fields :
      put (put (signing_common 2 224 m) 80 m.next_trust_public_key) 112 m.next_trust_key_id
      ≡ concat (current_fields m)
  unfolding to_le_bytes
  next_key-fields = rw (
    common-fields 2 224,
    put-field 7 80 (fields 2 224 m m.kernel_sha256 m.key_id (zeros 32) (zeros 16)) (zeros 32)
        m.next_trust_public_key refl (sym h.next_key_length)
        (rw (h.sha256_length, h.key_id_length) refl),
    put-field 8 112 (fields 2 224 m m.kernel_sha256 m.key_id m.next_trust_public_key (zeros 16))
        (zeros 16) m.next_trust_key_id refl (sym h.next_id_length)
        (rw (h.sha256_length, h.key_id_length, h.next_key_length) refl),
  )

  signed :
      (fs : List (List ℕ))
      → length (concat fs) ≡ 160
      → put (put (zeros 224) 0 (concat fs)) 160 m.signature ≡ concat (with_signature fs m.signature)
  signed fs e =
      ap (λ t. put t 160 m.signature) {x = put (zeros 224) 0 (concat fs)}
        {y = concat (concat fs ∷ zeros 64 ∷ [])}
        (put-field 0 0 (zeros 160 ∷ zeros 64 ∷ []) (zeros 160) (concat fs) refl (sym e) refl)
      ∙ put-field 1 160 (concat fs ∷ zeros 64 ∷ []) (zeros 64) m.signature refl
          (sym h.signature_length) (rw e refl)
      ∙ concat-snoc fs m.signature

  pub encode_legacy :
      m.format_version ≡ 1 → encode m ≡ concat (with_signature (legacy_fields m) m.signature)
  unfolding encode signing_bytes
  encode_legacy e =
      simp (e, common-fields 1 160)
        (signed (legacy_fields m) (
          length-fields 1 160 m m.kernel_sha256 m.key_id (zeros 32) (zeros 16) h.sha256_length
            h.key_id_length refl refl))

  pub encode_current :
      (m.format_version == 1) ≡ false
      → encode m ≡ concat (with_signature (current_fields m) m.signature)
  unfolding encode signing_bytes
  encode_current e =
      simp (e, next_key-fields)
        (signed (current_fields m) (
          length-fields 2 224 m m.kernel_sha256 m.key_id m.next_trust_public_key m.next_trust_key_id
            h.sha256_length h.key_id_length h.next_key_length h.next_id_length))
