-- ===== src/Input/Mouse.antt =====
-- The mouse decoder of kernel/src/input.rs: its framing over whole streams, and what its deltas mean.
use codex_os.Prelude.{
  ℕ, suc, ◌-◌, ◌≤◌, ◌<◌, ◌≡◌, ◌↔◌, ◌⊎◌, inl, inr, refl, ap, ◌∙◌, ◌==◌, List, [], ◌∷◌, ◌++◌, ◌&&◌,
  Bool, true, false, Option, none, some, arith, length, length-set, bit_and, Bool-cases, ltb,
}
use codex_os.Prelude.Integers.{ℤ, pos, negsuc}
use codex_os.Input.{Ps2MouseDecoder, PointerSample, feed_mouse, sample_of, sign_extend_mouse_delta}

-- The bytes of the packet stay three and the next one has a place among them.
pub record IsFramed (d : Ps2MouseDecoder) : Type 0 where
  pub packet_length : length d.packet ≡ 3
  pub index_fits : d.packet_index < 3

abbrev pub keep {ℓ} : {A : Type ℓ} → Option A → List A → List A
keep none xs = xs
keep (some x) xs = x ∷ xs

-- The samples of a stream of bytes, with the decoder after it.
unfoldable pub feed_all : Ps2MouseDecoder → List ℕ → List PointerSample × Ps2MouseDecoder
feed_all d [] = ([], d)
feed_all d (byte ∷ bytes) =
    let (sample, next) = feed_mouse d byte in
    let (samples, last) = feed_all next bytes in (keep sample samples, last)

-- Every byte keeps the decoder framed: its packet keeps three bytes, and the index of the next one
-- stays below three.
pub feed_mouse-IsFramed :
    (d : Ps2MouseDecoder) (byte : ℕ) → IsFramed d → IsFramed ((feed_mouse d byte).1)
unfolding feed_mouse
feed_mouse-IsFramed d byte h = elim (Bool-cases (d.packet_index == 0 && bit_and byte 0x08 == 0)) [
  | inl e ↦ simp e h
  | inr e ↦ elim (Bool-cases (ltb (suc d.packet_index) 3)) [
    | inl f ↦
        simp (e, f)
          (record {
            packet_length = length-set d.packet d.packet_index byte ∙ h.packet_length;
            index_fits = ground arith;
          })
    | inr f ↦
        simp (e, f)
          (record {
            packet_length = length-set d.packet d.packet_index byte ∙ h.packet_length;
            index_fits = omega arith;
          })
  ]
]

-- A decoder that waits for a header, whatever its buffer holds.
abbrev pub between : ℕ → ℕ → ℕ → Ps2MouseDecoder
between a b c = record { packet = a ∷ b ∷ c ∷ []; packet_index = 0 }

-- A packet on the wire.
pub record Packet : Type 0 where
  pub header : ℕ
  pub x : ℕ
  pub y : ℕ

abbrev pub packet_bytes : Packet → List ℕ
packet_bytes p = p.header ∷ p.x ∷ p.y ∷ []

abbrev pub stream : List Packet → List ℕ
stream [] = []
stream (p ∷ ps) = packet_bytes p ++ stream ps

abbrev pub packet_samples : List Packet → List PointerSample
packet_samples [] = []
packet_samples (p ∷ ps) = keep (sample_of (packet_bytes p)) (packet_samples ps)

-- All the bytes lack the header's fixed bit.
abbrev pub AreNoise : List ℕ → Type 0
AreNoise [] = Unit
AreNoise (byte ∷ bytes) = (bit_and byte 0x08 ≡ 0) × AreNoise bytes

abbrev pub AreHeaded : List Packet → Type 0
AreHeaded [] = Unit
AreHeaded (p ∷ ps) = ((bit_and p.header 0x08 == 0) ≡ false) × AreHeaded ps

feed_packet :
    (a b c h x y : ℕ) (rest : List ℕ)
    → (bit_and h 0x08 == 0) ≡ false
    → (feed_all (between a b c) (h ∷ x ∷ y ∷ rest)).0
      ≡ keep (sample_of (h ∷ x ∷ y ∷ [])) ((feed_all (between h x y) rest).0)
unfolding feed_all feed_mouse
feed_packet a b c h x y rest e = simp e

feed_noise :
    (a b c byte : ℕ) (rest : List ℕ)
    → bit_and byte 0x08 ≡ 0
    → (feed_all (between a b c) (byte ∷ rest)).0 ≡ (feed_all (between a b c) rest).0
unfolding feed_all feed_mouse
feed_noise a b c byte rest e = simp e

stream-samples :
    (a b c : ℕ) (ps : List Packet)
    → AreHeaded ps
    → (feed_all (between a b c) (stream ps)).0 ≡ packet_samples ps
unfolding feed_all
stream-samples a b c [] hs = refl
stream-samples a b c (p ∷ ps) (h, hs) =
    feed_packet a b c p.header p.x p.y (stream ps) h
    ∙ ap (keep (sample_of (packet_bytes p))) (stream-samples p.header p.x p.y ps hs)

-- A decoder that waits for a header skips any bytes without the header's fixed bit and then gives, for
-- a stream of packets whose headers have it, exactly the sample of each packet in order.
pub feed_all_resynchronizes :
    (a b c : ℕ) (noise : List ℕ) (ps : List Packet)
    → AreNoise noise
    → AreHeaded ps
    → (feed_all (between a b c) (noise ++ stream ps)).0 ≡ packet_samples ps
feed_all_resynchronizes a b c [] ps ns hs = stream-samples a b c ps hs
feed_all_resynchronizes a b c (byte ∷ noise) ps (n, ns) hs =
    feed_noise a b c byte (noise ++ stream ps) n ∙ feed_all_resynchronizes a b c noise ps ns hs

-- The number that a delta's byte and sign bit stand for: nine bits in two's complement.
abbrev pub nine_bit_delta : ℕ → Bool → ℤ
nine_bit_delta byte true = negsuc (255 - byte)
nine_bit_delta byte false = pos byte

-- The decoder's delta is the nine-bit two's complement number of the packet exactly when the sign bit
-- is clear or the byte is at least 128.
pub sign_extend_agrees :
    (byte : ℕ) (negative : Bool)
    → (sign_extend_mouse_delta byte negative ≡ nine_bit_delta byte negative)
      ↔ ((negative ≡ false) ⊎ (128 ≤ byte))
unfolding sign_extend_mouse_delta
sign_extend_agrees byte false = ((λ e. inl refl), λ o. refl)
sign_extend_agrees byte true = elim (Bool-cases (ltb byte 128)) [
  | inl e ↦
      ((λ p. let q = simp e at p in cc), λ o. elim o [ inl p ↦ cc | inr q ↦ absurd (ground arith) ])
  | inr e ↦ ((λ p. inr (ground arith)), λ o. simp e)
]
