-- ===== src/Memory/Lifecycle.antt =====
-- Pages of kernel/src/memory.rs from the grant to the return.
use mathlib.Core.Path.{subst}
use codex_os.Prelude.{
  ℕ, ◌+◌, ◌*◌, ◌≤◌, ◌<◌, ◌≡◌, refl, ◌==◌, leb, ltb, List, [], ◌∷◌, Bool, true, false, ◌&&◌, some,
  none, arith, in_range, in_range_intro, Bool-cases, inl, inr, length, any, saturating_add, max,
  sym, ◌∙◌,
}
use mathlib.Core.Option.{some-injective}
use codex_os.Memory.{
  PhysicalPageAllocator, RegionCursor, FreeExtent, allocate_contiguous_pages, allocate_fresh,
  deallocate_contiguous_pages, was_allocated, overlaps_free, extent_end, take_extent, take_region,
  max_free_extents,
}
use codex_os.Memory.Extents.{freed, Separated}
use codex_os.Memory.Regions.{Disjoint, Moved, take_region_cases}
use codex_os.Memory.Ownership.{owned, IsValid, Granted, from_region}
use codex_os.Memory.Release.{
  deallocate-Released, deallocate_nowhere, Refusal, not_initialized, no_pages, misaligned,
  more_than_lent, past_the_end, in_no_region, already_free, table_full,
}

-- The range lies within one region.
abbrev pub in_one_region : List RegionCursor → ℕ → ℕ → Bool
in_one_region rs start size =
    any (λ r. leb r.start start && leb (start + size) (r.start + r.page_count * 4096)) rs

was_allocated-in_one_region :
    (start size : ℕ) (rs : List RegionCursor)
    → Disjoint rs
    → in_one_region rs start size ≡ false
    → was_allocated rs start (start + size) ≡ false
was_allocated-in_one_region start size [] d h = refl
was_allocated-in_one_region start size (r ∷ rs) d h =
    let rest : was_allocated rs start (start + size) ≡ false =
      was_allocated-in_one_region start size rs d.2 (ground (arith, h)) in
    let grows : r.next_page * 4096 ≤ r.page_count * 4096 = omega arith in ground (arith, rest, h)

-- A free extent can join pages of two neighbouring regions. When a request is served from such an
-- extent with pages of both, so that no one region holds the range, the grant succeeds, and
-- returning the very same range is refused with nothing changed: those pages cannot come back as
-- they were granted.
pub straddling_leak :
    (s : PhysicalPageAllocator) (n address : ℕ) (es' : List FreeExtent)
    → IsValid s
    → s.initialized ≡ true
    → 0 < n
    → take_extent n s.free_extents ≡ some (address, es')
    → in_one_region s.regions address (n * 4096) ≡ false
    → let (s', got) = allocate_contiguous_pages s n in
      (got ≡ some address) × (deallocate_contiguous_pages s' address n ≡ (s', false))
unfolding allocate_contiguous_pages
straddling_leak s n address es' v ready pos found apart =
    let pages : (n == 0) ≡ false = ground arith in
    let granted : allocate_contiguous_pages s n ≡ (
      record s { allocated_pages = saturating_add s.allocated_pages n; free_extents = es' },
      some address,
    ) =
      simp (pages, ready, found) in
    rw granted (
      refl,
      deallocate_nowhere _ address n
          (was_allocated-in_one_region address (n * 4096) s.regions v.disjoint apart),
    )

-- Ranges that overlap share an address.
overlaps_free-witness :
    (start size lo : ℕ) (es : List FreeExtent)
    → 0 < size
    → Separated lo es
    → overlaps_free es start (start + size) ≡ true
    → (a : ℕ) × (in_range start size a ≡ true) × (freed es a ≡ true)
unfolding freed
overlaps_free-witness start size lo [] pos s o = cc
overlaps_free-witness start size lo (e ∷ es) pos s o =
    elim (Bool-cases (ltb start (extent_end e) && ltb e.start (start + size))) [
      | inl here ↦
          let low : start < e.start + e.page_count * 4096 = ground (arith, here) in
          let high : e.start < start + size = ground (arith, here) in
          (
            max start e.start,
            in_range_intro start size (max start e.start) (omega arith) (omega arith),
            rw (
                in_range_intro e.start (e.page_count * 4096) (max start e.start) (omega arith)
                  (omega arith)),
          )
      | inr later ↦
          let rest : (a : ℕ) × (in_range start size a ≡ true) × (freed es a ≡ true) =
            overlaps_free-witness start size (e.start + e.page_count * 4096 + 1) es pos s.2
              (rw later at o) in
          (rest.0, rest.1, ground (arith, rest.2))
    ]

take_region-Moved :
    (n address : ℕ) (rs rs' : List RegionCursor)
    → 0 < n
    → Disjoint rs
    → take_region n rs ≡ some (address, rs')
    → Moved n rs address rs'
take_region-Moved n address rs rs' pos d e = elim (take_region_cases n rs pos d) [
  | inl nothing ↦ cc
  | inr (a, out, found, m) ↦
      subst (λ (p : ℕ × List RegionCursor). Moved n rs p.0 p.1)
        (some-injective (a, out) (address, rs') (sym found ∙ e)) m
]

-- Pages that were granted just now meet no free extent.
Granted-apart :
    (s s' : PhysicalPageAllocator) (n address : ℕ)
    → 0 < n
    → Granted s n address s'
    → overlaps_free s'.free_extents address (address + n * 4096) ≡ false
Granted-apart s s' n address pos g =
    elim (Bool-cases (overlaps_free s'.free_extents address (address + n * 4096))) [
      | inr apart ↦ apart
      | inl meets ↦
          let shared =
            overlaps_free-witness address (n * 4096) 0 s'.free_extents (omega arith)
              g.valid.separated meets in
          ground (arith, g.lends shared.0, shared.1, shared.2)
    ]

not_refused :
    (s s' : PhysicalPageAllocator) (n address : ℕ)
    → 0 < n
    → Granted s n address s'
    → s'.initialized ≡ true
    → n ≤ s'.allocated_pages
    → was_allocated s'.regions address (address + n * 4096) ≡ true
    → length s'.free_extents < max_free_extents
    → ¬ Refusal s' address n
not_refused s s' n address pos g ready enough within room (not_initialized e) = cc
not_refused s s' n address pos g ready enough within room (no_pages e) = absurd (omega arith)
not_refused s s' n address pos g ready enough within room (misaligned e) = e g.aligned
not_refused s s' n address pos g ready enough within room (more_than_lent e) = absurd (omega arith)
not_refused s s' n address pos g ready enough within room (past_the_end e) =
    absurd (omega (arith, g.fits))
not_refused s s' n address pos g ready enough within room (in_no_region e) = cc
not_refused s s' n address pos g ready enough within room (already_free e) =
    cc (Granted-apart s s' n address pos g)
not_refused s s' n address pos g ready enough within room (table_full e) = absurd (omega arith)

-- Pages taken from a region go back: while the table of free extents has a slot left, the range
-- that `allocate_contiguous_pages` has just granted from a region is accepted by
-- `deallocate_contiguous_pages`, and then every address has the owner that it had before.
pub allocate_then_deallocate :
    (s : PhysicalPageAllocator) (n address : ℕ) (rs' : List RegionCursor)
    → IsValid s
    → s.initialized ≡ true
    → 0 < n
    → take_extent n s.free_extents ≡ none
    → take_region n s.regions ≡ some (address, rs')
    → length s.free_extents < max_free_extents
    → let (s', got) = allocate_contiguous_pages s n in
      (s'' : PhysicalPageAllocator) × (got ≡ some address)
      × (deallocate_contiguous_pages s' address n ≡ (s'', true))
      × ((a : ℕ) → owned s'' a ≡ owned s a)
unfolding allocate_contiguous_pages
allocate_then_deallocate s n address rs' v ready pos no_extent found room =
    let pages : (n == 0) ≡ false = ground arith in
    let m = take_region-Moved n address s.regions rs' pos v.disjoint found in
    let s' : PhysicalPageAllocator = record s {
      regions = rs';
      allocated_pages = saturating_add s.allocated_pages n;
    } in
    let granted : allocate_contiguous_pages s n ≡ (s', some address) =
      simp (pages, ready, no_extent, found, allocate_fresh) in
    let g : Granted s n address s' = from_region s n v m in
    rw granted (elim (deallocate-Released s' address n g.valid) [
      | inl (refused, why) ↦
          absurd (not_refused s s' n address pos g ready (omega arith) m.in_one room why)
      | inr (s'', done, r) ↦
          (s'', refl, done, λ a. ground (arith, r.keeps a, g.lends a, g.unshared a))
    ])
