-- ===== src/Memory/Ownership.antt =====
-- Who owns an address: the allocator of kernel/src/memory.rs seen as the set of the addresses that
-- are lent out, and the two operations as changes of that set.
use codex_os.Prelude.{
  ℕ, ◌+◌, ◌*◌, ◌%◌, ◌≤◌, ◌≡◌, refl, ◌==◌, leb, List, [], ◌∷◌, Bool, true, false, not, ◌&&◌, ◌||◌,
  some, none, arith, in_range, u64_max, Bool-cases, inl, inr, ◌⊎◌, any, saturating_add,
}
use codex_os.Memory.{
  PhysicalPageAllocator, RegionCursor, allocate_contiguous_pages, take_extent, FreeExtent,
  allocate_fresh, remaining_pages, take_region,
}
use codex_os.Memory.Extents.{freed, free_pages, Separated, take_extent_cases, Taken}
use codex_os.Memory.Regions.{handed, handed_pages, total_pages, Disjoint, take_region_cases, Moved}

-- An address is lent out when a region has handed it out and no free extent holds it.
abbrev pub owned : PhysicalPageAllocator → ℕ → Bool
owned s a = handed s.regions a && not (freed s.free_extents a)

pub record IsValid (s : PhysicalPageAllocator) : Type 0 where
  pub separated : Separated 0 s.free_extents
  pub disjoint : Disjoint s.regions
  pub handed_back : (a : ℕ) → freed s.free_extents a ≡ true → handed s.regions a ≡ true
  pub accounted : handed_pages s.regions ≡ s.allocated_pages + free_pages s.free_extents
  pub total : total_pages s.regions ≡ s.total_usable_pages
  pub bounded : s.total_usable_pages ≤ u64_max

handed_pages-le : (rs : List RegionCursor) → Disjoint rs → handed_pages rs ≤ total_pages rs
handed_pages-le [] d = omega arith
handed_pages-le (r ∷ rs) d = omega (arith, handed_pages-le rs d.2)

-- The grant of `n` pages at an address: the invariant holds on, the pages are aligned and within
-- 64 bits, they were not lent out before, and they alone are lent out in addition.
pub record Granted (s : PhysicalPageAllocator) (n address : ℕ) (s' : PhysicalPageAllocator)
    : Type 0 where
  pub valid : IsValid s'
  pub aligned : address % 4096 ≡ 0
  pub fits : address + n * 4096 ≤ u64_max
  pub lends : (a : ℕ) → owned s' a ≡ (owned s a || in_range address (n * 4096) a)
  pub unshared : (a : ℕ) → in_range address (n * 4096) a ≡ true → owned s a ≡ false

module _ (s : PhysicalPageAllocator) (n : ℕ) (v : IsValid s) where
  from_extent :
      {address : ℕ} {es' : List FreeExtent}
      → Taken n 0 s.free_extents address es'
      → Granted s n address
          (record s { allocated_pages = saturating_add s.allocated_pages n; free_extents = es' })
  from_extent {address} {es'} t =
      let lent : saturating_add s.allocated_pages n ≡ s.allocated_pages + n =
        omega
          (arith, t.pages, v.accounted, v.total, v.bounded, handed_pages-le s.regions v.disjoint) in
      record {
        valid = record {
          separated = t.separated;
          disjoint = v.disjoint;
          handed_back = λ a h. ground (arith, v.handed_back a, t.split a);
          accounted = omega (arith, lent, t.pages, v.accounted);
          total = v.total;
          bounded = v.bounded;
        };
        aligned = t.aligned;
        fits = t.fits;
        lends = λ a. ground (arith, v.handed_back a, t.split a, t.gone a);
        unshared = λ a h. ground (arith, t.split a, h);
      }

  pub from_region :
      {address : ℕ} {rs' : List RegionCursor}
      → Moved n s.regions address rs'
      → Granted s n address
          (record s { regions = rs'; allocated_pages = saturating_add s.allocated_pages n })
  from_region {address} {rs'} m =
      let lent : saturating_add s.allocated_pages n ≡ s.allocated_pages + n = omega (
        arith,
        m.pages,
        m.total,
        v.accounted,
        v.total,
        v.bounded,
        handed_pages-le rs' m.disjoint,
      ) in
      record {
        valid = record {
          separated = v.separated;
          disjoint = m.disjoint;
          handed_back = λ a h. ground (arith, v.handed_back a h, m.split a);
          accounted = omega (arith, lent, m.pages, v.accounted);
          total = omega (arith, m.total, v.total);
          bounded = v.bounded;
        };
        aligned = m.aligned;
        fits = m.fits;
        lends = λ a. ground (arith, v.handed_back a, m.split a, m.unused a);
        unshared = λ a h. ground (arith, m.unused a h);
      }

-- No free extent and no region has `n` pages.
abbrev pub IsExhausted : PhysicalPageAllocator → ℕ → Type 0
IsExhausted s n =
    (any (λ e. leb n e.page_count) s.free_extents ≡ false)
    × (any (λ r. leb n (remaining_pages r)) s.regions ≡ false)

take_extent-none :
    (n : ℕ) (es : List FreeExtent)
    → take_extent n es ≡ none
    → any (λ e. leb n e.page_count) es ≡ false
unfolding take_extent
take_extent-none n [] h = refl
take_extent-none n (e ∷ es) h = ground (arith, take_extent-none n es)

take_region-none :
    (n : ℕ) (rs : List RegionCursor)
    → take_region n rs ≡ none
    → any (λ r. leb n (remaining_pages r)) rs ≡ false
unfolding take_region
take_region-none n [] h = refl
take_region-none n (r ∷ rs) h = ground (arith, take_region-none n rs)

-- On a valid allocator a request either grants pages that nobody owned, page-aligned and within 64
-- bits, after which exactly those addresses are owned in addition and the allocator is valid; or it
-- returns `None` and changes nothing, and then it was for no page, or the allocator was not
-- initialized, or no free extent and no region has that many pages.
pub allocate-Granted :
    (s : PhysicalPageAllocator) (n : ℕ)
    → IsValid s
    → ((allocate_contiguous_pages s n ≡ (s, none))
        × ((n ≡ 0) ⊎ ((s.initialized ≡ false) ⊎ IsExhausted s n)))
      ⊎ ((s' : PhysicalPageAllocator) × (address : ℕ) × (allocate_contiguous_pages s n
            ≡ (s', some address))
          × Granted s n address s')
unfolding allocate_contiguous_pages
allocate-Granted s n v = elim (Bool-cases (n == 0)) [
  | inl no_pages ↦ inl (rw no_pages, inl (ground arith))
  | inr pages ↦ elim (Bool-cases s.initialized) [
    | inr not_yet ↦ inl (simp (pages, not_yet), inr (inl not_yet))
    | inl ready ↦ elim (take_extent_cases n 0 s.free_extents (ground arith) v.separated) [
      | inr (address, es', found, t) ↦
          inr (_, address, simp (pages, ready, found), from_extent s n v t)
      | inl no_extent ↦ elim (take_region_cases n s.regions (ground arith) v.disjoint) [
        | inr (address, rs', found, m) ↦
            inr (
              _,
              address,
              simp (pages, ready, no_extent, found, allocate_fresh),
              from_region s n v m,
            )
        | inl no_region ↦ inl (
          simp (pages, ready, no_extent, no_region, allocate_fresh),
          inr (
              inr (
                take_extent-none n s.free_extents no_extent,
                take_region-none n s.regions no_region,
              )),
        )
      ]
    ]
  ]
]
