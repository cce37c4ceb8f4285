-- ===== src/Tests/Pages.antt =====
-- Allocators of kernel/src/memory.rs with one and with two regions.
use codex_os.Prelude.{ℕ, ◌≡◌, ◌⊎◌, refl, [], ◌∷◌, true, false, none, some, arith, in_range}
use codex_os.BootInfo.{conventional}
use codex_os.Memory.{
  PhysicalPageAllocator, RegionCursor, FreeExtent, allocate_contiguous_pages,
  deallocate_contiguous_pages, take_extent, take_region,
}
use codex_os.Memory.Extents.{freed}
use codex_os.Memory.Regions.{spanned, handed}
use codex_os.Memory.Ownership.{owned, IsValid, IsExhausted, Granted, allocate-Granted}
use codex_os.Memory.Release.{ReleasedOrRefused, deallocate-Released}
use codex_os.Memory.Lifecycle.{straddling_leak, allocate_then_deallocate}

-- Four pages at 1 MiB, of which two are handed out.
abbrev cursor : RegionCursor
cursor = record { start = 0x10_0000; page_count = 4; next_page = 2; kind = conventional }

abbrev one_region : PhysicalPageAllocator
one_region = record {
  initialized = true;
  regions = cursor ∷ [];
  total_usable_pages = 4;
  allocated_pages = 2;
  free_extents = [];
}

one_region-IsValid : IsValid one_region
unfolding freed spanned
one_region-IsValid = record {
  separated = tt;
  disjoint = ((omega arith, refl, omega arith), (λ a h. refl), tt);
  handed_back = λ a h. cc;
  accounted = refl;
  total = refl;
  bounded = omega arith;
}

allocate-Granted_example :
    ((allocate_contiguous_pages one_region 2 ≡ (one_region, none))
      × ((◌≡◌ {A = ℕ} 2 0) ⊎ ((true ≡ false) ⊎ IsExhausted one_region 2)))
    ⊎ ((s' : PhysicalPageAllocator) × (address : ℕ) × (allocate_contiguous_pages one_region 2
          ≡ (s', some address))
        × Granted one_region 2 address s')
allocate-Granted_example = allocate-Granted one_region 2 one_region-IsValid

deallocate-Released_example :
    ReleasedOrRefused one_region 0x10_0000 1 (deallocate_contiguous_pages one_region 0x10_0000 1)
deallocate-Released_example = deallocate-Released one_region 0x10_0000 1 one_region-IsValid

-- The third page of the region, and the cursor behind it.
abbrev moved : RegionCursor
moved = record { start = 0x10_0000; page_count = 4; next_page = 3; kind = conventional }

no_extent : take_extent 1 [] ≡ none
unfolding take_extent
no_extent = refl

third_page : take_region 1 (cursor ∷ []) ≡ some (0x10_2000, moved ∷ [])
unfolding take_region
third_page = refl

allocate_then_deallocate_example :
    let (s', got) = allocate_contiguous_pages one_region 1 in
    (s'' : PhysicalPageAllocator) × (got ≡ some 0x10_2000)
    × (deallocate_contiguous_pages s' 0x10_2000 1 ≡ (s'', true))
    × ((a : ℕ) → owned s'' a ≡ owned one_region a)
allocate_then_deallocate_example =
    allocate_then_deallocate one_region 1 0x10_2000 (moved ∷ []) one_region-IsValid refl
      (omega arith) no_extent third_page (omega arith)

-- Two neighbouring regions, all of whose pages came back as one extent.
abbrev low_region : RegionCursor
low_region = record { start = 0x10_0000; page_count = 2; next_page = 2; kind = conventional }

abbrev high_region : RegionCursor
high_region = record { start = 0x10_2000; page_count = 2; next_page = 2; kind = conventional }

abbrev both : FreeExtent
both = record { start = 0x10_0000; page_count = 4 }

abbrev two_regions : PhysicalPageAllocator
two_regions = record {
  initialized = true;
  regions = low_region ∷ high_region ∷ [];
  total_usable_pages = 4;
  allocated_pages = 0;
  free_extents = both ∷ [];
}

two_regions-IsValid : IsValid two_regions
unfolding freed spanned handed in_range
two_regions-IsValid = record {
  separated = (omega arith, (omega arith, refl, omega arith), tt);
  disjoint = (
    (omega arith, refl, omega arith),
    (λ a h. ground arith),
    ((omega arith, refl, omega arith), (λ a h. refl), tt),
  );
  handed_back = λ a h. ground arith;
  accounted = refl;
  total = refl;
  bounded = omega arith;
}

takes_both : take_extent 4 (both ∷ []) ≡ some (0x10_0000, [])
unfolding take_extent
takes_both = refl

straddling_leak_example :
    let (s', got) = allocate_contiguous_pages two_regions 4 in
    (got ≡ some 0x10_0000) × (deallocate_contiguous_pages s' 0x10_0000 4 ≡ (s', false))
straddling_leak_example =
    straddling_leak two_regions 4 0x10_0000 [] two_regions-IsValid refl (omega arith) takes_both
      refl
