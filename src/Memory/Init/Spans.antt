-- ===== src/Memory/Init/Spans.antt =====
-- The spans that `add_region_fragments` of kernel/src/memory.rs cuts out of a region.
use codex_os.Prelude.{
  ℕ, ◌+◌, ◌*◌, ◌/◌, ◌≤◌, ◌<◌, ◌≡◌, refl, ◌==◌, leb, ltb, List, [], ◌∷◌, ◌++◌, Bool, true, false,
  not, ◌&&◌, ◌||◌, sym, arith, if◌then◌else◌, in_range, any, u64_max, max, min,
}
use codex_os.Prelude.Bits.{bit_and_page_mask}
use codex_os.BootInfo.{ReservedMemoryRange, range_end}
use codex_os.Memory.{RegionSpan, is_empty, align_up, align_down}
use codex_os.Memory.Init.{push_span, cut_span, cut_spans, cut_reserved, fragments}

pub align_down_lem : (a : ℕ) → a ≤ u64_max → align_down a ≡ a / 4096 * 4096
unfolding align_down
align_down_lem a h = bit_and_page_mask a (omega arith)

pub align_up_lem : (a : ℕ) → align_up a ≡ min (a + 4095) u64_max / 4096 * 4096
unfolding align_up
align_up_lem a = bit_and_page_mask (min (a + 4095) u64_max) (omega arith)

-- The address is in one of the spans.
unfoldable pub covers : List RegionSpan → ℕ → Bool
covers [] a = false
covers (p ∷ ps) a = (leb p.start a && ltb a p.end) || covers ps a

covers-snoc :
    (ps : List RegionSpan) (p : RegionSpan) (a : ℕ)
    → covers (ps ++ p ∷ []) a ≡ (covers ps a || (leb p.start a && ltb a p.end))
unfolding covers
covers-snoc [] p a = ground arith
covers-snoc (q ∷ ps) p a = ground (arith, covers-snoc ps p a)

covers-push_span :
    (ps : List RegionSpan) (p : RegionSpan) (a : ℕ)
    → covers (push_span ps p) a ≡ true
    → (covers ps a || (leb p.start a && ltb a p.end)) ≡ true
unfolding push_span
covers-push_span ps p a h = ground (arith, covers-snoc ps p a)

-- The address lies outside the pages that are cut out.
abbrev spared : ℕ → ℕ → ℕ → Bool
spared from to a = not (leb from a && ltb a to)

covers-cut_span :
    (from to : ℕ) (ps : List RegionSpan) (p : RegionSpan) (a : ℕ)
    → covers (cut_span from to ps p) a ≡ true
    → (covers ps a || ((leb p.start a && ltb a p.end) && spared from to a)) ≡ true
unfolding cut_span
covers-cut_span from to ps p a h =
    let left : RegionSpan = record { start = p.start; end = max p.start from } in
    let right : RegionSpan = record { start = min p.end to; end = p.end } in
    ground (
      arith,
      covers-push_span ps p a,
      covers-push_span ps left a,
      covers-push_span ps right a,
      covers-push_span (push_span ps left) right a,
    )

covers-cut_spans :
    (from to : ℕ) (scratch ps : List RegionSpan) (a : ℕ)
    → covers (cut_spans from to scratch ps) a ≡ true
    → (covers scratch a || (covers ps a && spared from to a)) ≡ true
unfolding cut_spans covers
covers-cut_spans from to scratch [] a h = ground (arith, h)
covers-cut_spans from to scratch (p ∷ ps) a h = ground (
  arith,
  covers-cut_spans from to (cut_span from to scratch p) ps a h,
  covers-cut_span from to scratch p a,
)

-- The last page of the 64-bit space is never in a region, since ends are rounded down.
abbrev pub last_page : ℕ
last_page = 0xffff_ffff_ffff_f000

-- What is left after one reserved range was there before, and meets no byte of the range.
covers-cut_reserved :
    (ps : List RegionSpan) (r : ReservedMemoryRange) (a : ℕ)
    → r.start ≤ u64_max
    → a < last_page
    → covers (cut_reserved ps r) a ≡ true
    → (covers ps a ≡ true) × (in_range r.start r.length a ≡ false)
unfolding cut_reserved in_range covers
covers-cut_reserved ps r a low high h = ground (
  arith,
  align_down_lem r.start low,
  align_up_lem (range_end r),
  covers-cut_spans (align_down r.start) (align_up (range_end r)) [] ps a,
)

abbrev pub InWords : List ReservedMemoryRange → Type 0
InWords [] = Unit {0}
InWords (r ∷ rs) = (r.start ≤ u64_max) × InWords rs

-- The early stop changes nothing: no span gives no span.
cut_reserved-nil : (r : ReservedMemoryRange) → cut_reserved [] r ≡ []
unfolding cut_reserved
cut_reserved-nil r = ground arith

fragments-nil : (rs : List ReservedMemoryRange) → fragments [] rs ≡ []
unfolding fragments
fragments-nil [] = refl
fragments-nil (r ∷ rs) = rw (cut_reserved-nil r, fragments)

pub fragments-step :
    (rs : List ReservedMemoryRange) (r : ReservedMemoryRange) (ps : List RegionSpan)
    → fragments ps (r ∷ rs) ≡ fragments (cut_reserved ps r) rs
unfolding fragments
fragments-step rs r ps = stop (cut_reserved ps r)
  where
    stop :
        (qs : List RegionSpan)
        → elim qs [ [] ↦ [] | q ∷ qs' ↦ fragments (q ∷ qs') rs ] ≡ fragments qs rs
    stop [] = sym (fragments-nil rs)
    stop (q ∷ qs) = refl

pub covers-fragments :
    (ps : List RegionSpan) (rs : List ReservedMemoryRange) (a : ℕ)
    → InWords rs
    → a < last_page
    → covers (fragments ps rs) a ≡ true
    → (covers ps a ≡ true) × (any (λ r. in_range r.start r.length a) rs ≡ false)
covers-fragments ps [] a w high h = (unfold fragments in h, refl)
covers-fragments ps (r ∷ rs) a w high h =
    let later = covers-fragments (cut_reserved ps r) rs a w.1 high (rw fragments-step at h) in
    let here = covers-cut_reserved ps r a w.0 high later.0 in (here.0, rw here.1 later.1)

-- No address is in two spans.
abbrev pub Apart : List RegionSpan → Type 0
Apart [] = Unit {0}
Apart (p ∷ ps) = ((a : ℕ) → (leb p.start a && ltb a p.end) ≡ true → covers ps a ≡ false) × Apart ps

Apart-snoc :
    (ps : List RegionSpan) (p : RegionSpan)
    → Apart ps
    → ((a : ℕ) → covers ps a ≡ true → (leb p.start a && ltb a p.end) ≡ false)
    → Apart (ps ++ p ∷ [])
unfolding covers
Apart-snoc [] p d h = ((λ a k. refl), tt)
Apart-snoc (q ∷ ps) p d h = (
  (λ a k. ground (arith, covers-snoc ps p a, d.0 a k, h a)),
  Apart-snoc ps p d.1 (λ a k. ground (arith, h a)),
)

Apart-push_span :
    (ps : List RegionSpan) (p : RegionSpan)
    → Apart ps
    → ((a : ℕ) → covers ps a ≡ true → (leb p.start a && ltb a p.end) ≡ false)
    → Apart (push_span ps p)
unfolding push_span
Apart-push_span ps p d h = ground (arith, Apart-snoc ps p d h)

Apart-if :
    (b : Bool) (ps qs : List RegionSpan)
    → (b ≡ true → Apart ps)
    → (b ≡ false → Apart qs)
    → Apart (if b then ps else qs)
Apart-if true ps qs h k = h refl
Apart-if false ps qs h k = k refl

module _ (from to : ℕ) (ps : List RegionSpan) (p : RegionSpan) (d : Apart ps)
    (h : (a : ℕ) → covers ps a ≡ true → (leb p.start a && ltb a p.end) ≡ false) where
  abbrev low_part : RegionSpan
  low_part = record { start = p.start; end = max p.start from }

  abbrev high_part : RegionSpan
  high_part = record { start = min p.end to; end = p.end }

  abbrev with_low : List RegionSpan
  with_low = if ltb p.start (max p.start from) then push_span ps low_part else ps

  Apart-cut_span : Apart (cut_span from to ps p)
  unfolding cut_span
  Apart-cut_span =
      Apart-if (is_empty p) _ _ (λ e. d)
        λ some_bytes.
          Apart-if (leb (min p.end to) (max p.start from)) _ _ (λ e. Apart-push_span ps p d h)
            λ meets.
              let low : Apart with_low =
                Apart-if (ltb p.start (max p.start from)) _ _
                  (λ e. Apart-push_span ps low_part d (λ a c. ground (arith, h a c))) (λ e. d) in
              Apart-if (ltb (min p.end to) p.end) _ _
                (λ e.
                  Apart-push_span with_low high_part low
                    (λ a c. ground (arith, h a, covers-push_span ps low_part a)))
                (λ e. low)

Apart-cut_spans :
    (from to : ℕ) (scratch ps : List RegionSpan)
    → Apart scratch
    → Apart ps
    → ((a : ℕ) → covers scratch a ≡ true → covers ps a ≡ false)
    → Apart (cut_spans from to scratch ps)
unfolding cut_spans covers
Apart-cut_spans from to scratch [] d e h = d
Apart-cut_spans from to scratch (p ∷ ps) d e h =
    Apart-cut_spans from to (cut_span from to scratch p) ps
      (Apart-cut_span from to scratch p d (λ a c. ground (arith, h a c))) e.1
      (λ a c. ground (arith, h a, e.0 a, covers-cut_span from to scratch p a c))

pub Apart-fragments :
    (ps : List RegionSpan) (rs : List ReservedMemoryRange) → Apart ps → Apart (fragments ps rs)
Apart-fragments ps [] d = unfold fragments in d
Apart-fragments ps (r ∷ rs) d = rw fragments-step (Apart-fragments (cut_reserved ps r) rs cut)
  where
    cut : Apart (cut_reserved ps r)
    cut =
        unfold cut_reserved covers in
        Apart-if (r.length == 0) _ _ (λ e. d)
          λ bytes.
            Apart-if (leb (align_up (range_end r)) (align_down r.start)) _ _ (λ e. d)
              λ pages.
                Apart-cut_spans (align_down r.start) (align_up (range_end r)) [] ps tt d (λ a c. cc)
