-- ===== src/Memory/Init/Bounds.antt =====
-- The ends of the spans that are cut out of a region stay within 64 bits.
use codex_os.Prelude.{ℕ, ◌≤◌, List, [], ◌∷◌, ◌++◌, arith, max, min}
use codex_os.BootInfo.{ReservedMemoryRange, range_end}
use codex_os.Memory.{RegionSpan, align_up, align_down}
use codex_os.Memory.Init.{push_span, cut_span, cut_spans, cut_reserved, fragments}
use codex_os.Memory.Init.Spans.{fragments-step}

abbrev pub EndsWithin : ℕ → List RegionSpan → Type 0
EndsWithin hi [] = Unit {0}
EndsWithin hi (p ∷ ps) = (p.end ≤ hi) × EndsWithin hi ps

EndsWithin-snoc :
    (hi : ℕ) (ps : List RegionSpan) (p : RegionSpan)
    → EndsWithin hi ps
    → p.end ≤ hi
    → EndsWithin hi (ps ++ p ∷ [])
EndsWithin-snoc hi [] p d h = (h, tt)
EndsWithin-snoc hi (q ∷ ps) p d h = (d.0, EndsWithin-snoc hi ps p d.1 h)

EndsWithin-push_span :
    (hi : ℕ) (ps : List RegionSpan) (p : RegionSpan)
    → EndsWithin hi ps
    → p.end ≤ hi
    → EndsWithin hi (push_span ps p)
unfolding push_span
EndsWithin-push_span hi ps p d h = ground (arith, EndsWithin-snoc hi ps p d h)

EndsWithin-cut_span :
    (hi from to : ℕ) (ps : List RegionSpan) (p : RegionSpan)
    → EndsWithin hi ps
    → p.end ≤ hi
    → EndsWithin hi (cut_span from to ps p)
unfolding cut_span
EndsWithin-cut_span hi from to ps p d h =
    let low : RegionSpan = record { start = p.start; end = max p.start from } in
    let high : RegionSpan = record { start = min p.end to; end = p.end } in
    ground (
      arith,
      EndsWithin-push_span hi ps p d h,
      EndsWithin-push_span hi ps low d,
      EndsWithin-push_span hi ps high d h,
      EndsWithin-push_span hi (push_span ps low) high,
    )

EndsWithin-cut_spans :
    (hi from to : ℕ) (scratch ps : List RegionSpan)
    → EndsWithin hi scratch
    → EndsWithin hi ps
    → EndsWithin hi (cut_spans from to scratch ps)
unfolding cut_spans
EndsWithin-cut_spans hi from to scratch [] d e = d
EndsWithin-cut_spans hi from to scratch (p ∷ ps) d e =
    EndsWithin-cut_spans hi from to (cut_span from to scratch p) ps
      (EndsWithin-cut_span hi from to scratch p d e.0) e.1

EndsWithin-cut_reserved :
    (hi : ℕ) (ps : List RegionSpan) (r : ReservedMemoryRange)
    → EndsWithin hi ps
    → EndsWithin hi (cut_reserved ps r)
unfolding cut_reserved
EndsWithin-cut_reserved hi ps r d =
    ground (arith, EndsWithin-cut_spans hi (align_down r.start) (align_up (range_end r)) [] ps tt d)

pub EndsWithin-fragments :
    (hi : ℕ) (ps : List RegionSpan) (rs : List ReservedMemoryRange)
    → EndsWithin hi ps
    → EndsWithin hi (fragments ps rs)
EndsWithin-fragments hi ps [] d = unfold fragments in d
EndsWithin-fragments hi ps (r ∷ rs) d =
    rw fragments-step
      (EndsWithin-fragments hi (cut_reserved ps r) rs (EndsWithin-cut_reserved hi ps r d))
