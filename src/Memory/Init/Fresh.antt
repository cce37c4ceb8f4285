-- ===== src/Memory/Init/Fresh.antt =====
-- What `init` of kernel/src/memory.rs builds: a valid allocator of pages that the memory map calls
-- usable and that no reserved range meets.
use codex_os.Prelude.{
  ℕ, ◌+◌, ◌-◌, ◌*◌, ◌/◌, ◌≤◌, ◌<◌, ◌≡◌, refl, ◌==◌, leb, ltb, List, [], ◌∷◌, ◌++◌, Bool, true,
  false, ◌&&◌, ◌||◌, arith, in_range, in_range→bounds, Bool-cases, inl, inr, length, saturating_add,
  u64_max,
}
use codex_os.BootInfo.{MemoryRegionKind}
use codex_os.Memory.{
  PhysicalPageAllocator, RegionCursor, RegionSpan, align_up, align_down, max_allocator_regions,
}
use codex_os.Memory.Regions.{spanned, handed_pages, total_pages, IsRegion, Disjoint}
use codex_os.Memory.Init.{push_region, push_regions}
use codex_os.Memory.Init.Spans.{covers, Apart, align_down_lem, align_up_lem, last_page}
use codex_os.Memory.Init.Bounds.{EndsWithin}

-- A region built from the whole pages of a span stays inside the span.
pages_inside :
    (p : RegionSpan) (a : ℕ)
    → p.end ≤ u64_max
    → in_range (align_up p.start) ((align_down p.end - align_up p.start) / 4096 * 4096) a ≡ true
    → (p.start ≤ a) × (a < p.end) × (a < last_page)
pages_inside p a h k =
    let bounds =
      in_range→bounds (align_up p.start) ((align_down p.end - align_up p.start) / 4096 * 4096) a
        k in
    omega (arith, align_down_lem p.end h, align_up_lem p.start)

spanned-snoc :
    (rs : List RegionCursor) (r : RegionCursor) (a : ℕ)
    → spanned (rs ++ r ∷ []) a ≡ (spanned rs a || in_range r.start (r.page_count * 4096) a)
unfolding spanned
spanned-snoc [] r a = ground arith
spanned-snoc (q ∷ rs) r a = ground (arith, spanned-snoc rs r a)

Disjoint-snoc :
    (rs : List RegionCursor) (r : RegionCursor)
    → Disjoint rs
    → IsRegion r
    → ((a : ℕ) → spanned rs a ≡ true → in_range r.start (r.page_count * 4096) a ≡ false)
    → Disjoint (rs ++ r ∷ [])
unfolding spanned
Disjoint-snoc [] r d is h = (is, (λ a k. refl), tt)
Disjoint-snoc (q ∷ rs) r d is h = (
  d.0,
  (λ a k. ground (arith, spanned-snoc rs r a, d.1 a k, h a)),
  Disjoint-snoc rs r d.2 is (λ a k. ground (arith, h a)),
)

counts-snoc :
    (rs : List RegionCursor) (r : RegionCursor)
    → (handed_pages (rs ++ r ∷ []) ≡ handed_pages rs + r.next_page)
      × (total_pages (rs ++ r ∷ []) ≡ total_pages rs + r.page_count)
      × (length (rs ++ r ∷ []) ≡ length rs + 1)
counts-snoc [] r = omega arith
counts-snoc (q ∷ rs) r = omega (arith, counts-snoc rs r)

-- Each region has at most 2^52 pages.
pub total_pages-le :
    (rs : List RegionCursor) → Disjoint rs → total_pages rs ≤ length rs * 0x10_0000_0000_0000
total_pages-le [] d = omega arith
total_pages-le (r ∷ rs) d = omega (arith, total_pages-le rs d.2)

-- An allocator that has handed out nothing yet.
pub record IsFresh (s : PhysicalPageAllocator) : Type 0 where
  pub ready : s.initialized ≡ true
  pub disjoint : Disjoint s.regions
  pub untouched : handed_pages s.regions ≡ 0
  pub count : length s.regions ≤ max_allocator_regions
  pub total : total_pages s.regions ≡ s.total_usable_pages
  pub nothing_free : s.free_extents ≡ []
  pub nothing_lent : s.allocated_pages ≡ 0
  pub below_last : (a : ℕ) → spanned s.regions a ≡ true → a < last_page

-- The new allocator, and where its regions come from.
pub record Pushed (s : PhysicalPageAllocator) (inside : ℕ → Bool) (s' : PhysicalPageAllocator)
    : Type 0 where
  pub fresh : IsFresh s'
  pub origin : (a : ℕ) → spanned s'.regions a ≡ true → (spanned s.regions a || inside a) ≡ true

Pushed-same : (s : PhysicalPageAllocator) (inside : ℕ → Bool) → IsFresh s → Pushed s inside s
Pushed-same s inside f = record { fresh = f; origin = λ a h. rw h }

module _ (s : PhysicalPageAllocator) (p : RegionSpan) (kind : MemoryRegionKind) (f : IsFresh s)
    (bound : p.end ≤ u64_max)
    (clear : (a : ℕ) → (leb p.start a && ltb a p.end) ≡ true → spanned s.regions a ≡ false) where
  abbrev pages : ℕ
  pages = (align_down p.end - align_up p.start) / 4096

  abbrev region : RegionCursor
  region = record { start = align_up p.start; page_count = pages; next_page = 0; kind = kind }

  region_inside :
      (a : ℕ)
      → in_range (align_up p.start) (pages * 4096) a ≡ true
      → (leb p.start a && ltb a p.end) ≡ true
  region_inside a h = ground (arith, pages_inside p a bound h)

  abbrev extended : PhysicalPageAllocator
  extended = record s {
    regions = s.regions ++ region ∷ [];
    total_usable_pages = saturating_add s.total_usable_pages pages;
  }

  extended-Pushed :
      length s.regions < max_allocator_regions
      → Pushed s (λ a. leb p.start a && ltb a p.end) extended
  extended-Pushed room =
      let is : IsRegion region = omega (arith, align_down_lem p.end bound, align_up_lem p.start) in
      let counts = counts-snoc s.regions region in
      let some_total = total_pages-le s.regions f.disjoint in
      record {
        fresh = record {
          ready = f.ready;
          disjoint =
              Disjoint-snoc s.regions region f.disjoint is
                (λ a k. ground (arith, region_inside a, clear a, k));
          untouched = omega (arith, counts, f.untouched);
          count = omega (arith, counts);
          total = omega (arith, counts, f.total, some_total, is);
          nothing_free = f.nothing_free;
          nothing_lent = f.nothing_lent;
          below_last = λ a h.
              ground
                (arith, spanned-snoc s.regions region a, f.below_last a, pages_inside p a bound);
        };
        origin = λ a h. ground (arith, spanned-snoc s.regions region a, region_inside a);
      }

  push_region-Pushed : Pushed s (λ a. leb p.start a && ltb a p.end) (push_region s p kind)
  unfolding push_region
  push_region-Pushed =
      elim (Bool-cases (
        leb (align_down p.end) (align_up p.start)
        || leb max_allocator_regions (length s.regions))) [
          | inl skipped ↦ rw skipped (Pushed-same s (λ a. leb p.start a && ltb a p.end) f)
          | inr taken ↦ elim (Bool-cases (pages == 0)) [
            | inl empty ↦ rw (taken, empty) (Pushed-same s (λ a. leb p.start a && ltb a p.end) f)
            | inr some_pages ↦ rw (taken, some_pages) (extended-Pushed (ground (arith, taken)))
          ]
        ]

pub push_regions-Pushed :
    (s : PhysicalPageAllocator) (ps : List RegionSpan) (kind : MemoryRegionKind)
    → IsFresh s
    → EndsWithin u64_max ps
    → Apart ps
    → ((a : ℕ) → covers ps a ≡ true → spanned s.regions a ≡ false)
    → Pushed s (covers ps) (push_regions s ps kind)
unfolding push_regions covers
push_regions-Pushed s [] kind f e d clear = Pushed-same s (λ a. false) f
push_regions-Pushed s (p ∷ ps) kind f e d clear =
    let first = push_region-Pushed s p kind f e.0 (λ a h. clear a (rw h)) in
    let rest =
      push_regions-Pushed (push_region s p kind) ps kind first.fresh e.1 d.1
        (λ a h. ground (arith, first.origin a, clear a, d.0 a, h)) in
    record { fresh = rest.fresh; origin = λ a h. ground (arith, rest.origin a h, first.origin a) }
