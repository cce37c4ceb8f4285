-- ===== src/Memory.antt =====
-- kernel/src/memory.rs: the allocator of physical pages. A region of usable memory is handed out
-- from its start upwards; pages that come back are kept as a sorted list of free extents. The
-- arrays `regions` and `free_extents` stand here as lists of their used parts, so the two counts
-- are lengths; what lies beyond the counts is never read.
pub mod Extents
pub mod Returned
pub mod Merge
pub mod Regions
pub mod Ownership
pub mod Release
pub mod Init
pub mod Lifecycle
use codex_os.Prelude.{
  ℕ, zero, suc, ◌+◌, ◌-◌, ◌*◌, ◌/◌, ◌%◌, ◌==◌, ltb, leb, List, [], ◌∷◌, ◌++◌, Bool, true, false,
  not, ◌&&◌, ◌||◌, Option, none, some, if◌then◌else◌, length, any, bit_and, saturating_add,
  saturating_mul, saturating_sub, checked_add, checked_mul, min, max,
}
use codex_os.BootInfo.{
  BootInfo, MemoryRegion, MemoryRegionKind, reserved, ReservedMemoryRange,
  region_is_currently_usable, size_bytes, range_end, listed_regions, listed_reserved, page_size,
  max_memory_regions, max_reserved_memory_ranges,
}

abbrev pub max_allocator_regions : ℕ
max_allocator_regions = max_memory_regions + max_reserved_memory_ranges + 8

abbrev pub max_free_extents : ℕ
max_free_extents = 1024

pub record RegionCursor : Type 0 where
  pub start : ℕ
  pub page_count : ℕ
  pub next_page : ℕ
  pub kind : MemoryRegionKind

abbrev pub remaining_pages : RegionCursor → ℕ
remaining_pages region = saturating_sub region.page_count region.next_page

pub record RegionSpan : Type 0 where
  pub start : ℕ
  pub end : ℕ

abbrev pub is_empty : RegionSpan → Bool
is_empty span = leb span.end span.start

pub record FreeExtent : Type 0 where
  pub start : ℕ
  pub page_count : ℕ

abbrev pub extent_end : FreeExtent → ℕ
extent_end extent = saturating_add extent.start (saturating_mul extent.page_count page_size)

pub record MemoryStats : Type 0 where
  pub usable_region_count : ℕ
  pub total_usable_pages : ℕ
  pub allocated_pages : ℕ
  pub remaining_pages : ℕ

pub record PhysicalPageAllocator : Type 0 where
  pub initialized : Bool
  pub regions : List RegionCursor
  pub total_usable_pages : ℕ
  pub allocated_pages : ℕ
  pub free_extents : List FreeExtent

abbrev pub new : PhysicalPageAllocator
new = record {
  initialized = false;
  regions = [];
  total_usable_pages = 0;
  allocated_pages = 0;
  free_extents = [];
}

-- `!(PAGE_SIZE - 1)` is the mask of the upper 52 bits.
unfoldable pub align_down : ℕ → ℕ
align_down value = bit_and value 0xffff_ffff_ffff_f000

unfoldable pub align_up : ℕ → ℕ
align_up value = bit_and (saturating_add value (page_size - 1)) 0xffff_ffff_ffff_f000

-- The first extent with enough pages gives its lowest ones, and goes when it is used up.
unfoldable pub take_extent : ℕ → List FreeExtent → Option (ℕ × List FreeExtent)
take_extent page_count [] = none
take_extent page_count (extent ∷ extents) =
    if leb page_count extent.page_count
    then some (
      extent.start,
      if extent.page_count - page_count == 0
          then extents
          else record extent {
            start = saturating_add extent.start (saturating_mul page_count page_size);
            page_count = extent.page_count - page_count;
          }
            ∷ extents,
    )
    else elim (take_extent page_count extents) [
      | none ↦ none
      | some (address, rest) ↦ some (address, extent ∷ rest)
    ]

-- The first region with enough pages left moves its cursor.
unfoldable pub take_region : ℕ → List RegionCursor → Option (ℕ × List RegionCursor)
take_region page_count [] = none
take_region page_count (region ∷ regions) =
    if ltb (remaining_pages region) page_count
    then elim (take_region page_count regions) [
      | none ↦ none
      | some (address, rest) ↦ some (address, region ∷ rest)
    ]
    else some (
      saturating_add region.start (saturating_mul region.next_page page_size),
      record region { next_page = saturating_add region.next_page page_count } ∷ regions,
    )

allocate_fresh : PhysicalPageAllocator → ℕ → PhysicalPageAllocator × Option ℕ
allocate_fresh s page_count = elim (take_region page_count s.regions) [
  | none ↦ (s, none)
  | some (address, regions) ↦ (
    record s { regions = regions; allocated_pages = saturating_add s.allocated_pages page_count },
    some address,
  )
]

unfoldable pub allocate_contiguous_pages :
    PhysicalPageAllocator → ℕ → PhysicalPageAllocator × Option ℕ
unfolding allocate_fresh
allocate_contiguous_pages s page_count =
    if page_count == 0
    then (s, none)
    else if not s.initialized
    then (s, none)
    else elim (take_extent page_count s.free_extents) [
      | none ↦ allocate_fresh s page_count
      | some (address, extents) ↦ (
        record s {
          allocated_pages = saturating_add s.allocated_pages page_count;
          free_extents = extents;
        },
        some address,
      )
    ]

unfoldable pub allocate_page : PhysicalPageAllocator → PhysicalPageAllocator × Option ℕ
unfolding allocate_contiguous_pages
allocate_page s = allocate_contiguous_pages s 1

-- The scan of `coalesce_free_extents` at an extent, which absorbs each one that touches it.
unfoldable pub coalesce_from : FreeExtent → List FreeExtent → List FreeExtent
coalesce_from current [] = current ∷ []
coalesce_from current (next ∷ extents) =
    let touch = extent_end current == next.start in
    let rest =
      coalesce_from
        (if touch
          then record current { page_count = saturating_add current.page_count next.page_count }
          else next)
        extents in
    if touch then rest else current ∷ rest

unfoldable pub coalesce_free_extents : List FreeExtent → List FreeExtent
unfolding coalesce_from
coalesce_free_extents [] = []
coalesce_free_extents (extent ∷ extents) = coalesce_from extent extents

-- The extents before the insertion point, the nearest first, and those from it on.
unfoldable pub split_at_start :
    ℕ → List FreeExtent → List FreeExtent → List FreeExtent × List FreeExtent
split_at_start start before [] = (before, [])
split_at_start start before (extent ∷ extents) =
    if ltb start extent.start
    then (before, extent ∷ extents)
    else split_at_start start (extent ∷ before) extents

-- `before` reversed in front of `after`.
unfoldable pub rejoin : List FreeExtent → List FreeExtent → List FreeExtent
rejoin [] after = after
rejoin (extent ∷ before) after = rejoin before (extent ∷ after)

-- The pages of an extent, grown by those of a later one.
abbrev pub grow : FreeExtent → ℕ → FreeExtent
grow extent page_count = record extent { page_count = saturating_add extent.page_count page_count }

-- The extent after a merge with its left neighbour is absorbed too, if it now touches.
pub absorb_next : FreeExtent → List FreeExtent → List FreeExtent
absorb_next extent [] = extent ∷ []
absorb_next extent (next ∷ extents) =
    if extent_end extent == next.start
    then grow extent next.page_count ∷ extents
    else extent ∷ next ∷ extents

-- A new extent between its neighbours; `none` when the table is full.
pub insert_new : List FreeExtent → List FreeExtent → ℕ → ℕ → Option (List FreeExtent)
insert_new before after start page_count =
    if leb max_free_extents (length before + length after)
    then none
    else some (
        coalesce_free_extents
          (rejoin before (record { start = start; page_count = page_count } ∷ after)))

pub merge_right : List FreeExtent → List FreeExtent → ℕ → ℕ → ℕ → Option (List FreeExtent)
unfolding insert_new
merge_right before [] start end page_count = insert_new before [] start page_count
merge_right before (next ∷ after) start end page_count =
    if end == next.start
    then some (
        rejoin before (
          record next { start = start; page_count = saturating_add next.page_count page_count }
          ∷ after))
    else insert_new before (next ∷ after) start page_count

pub merge_left : List FreeExtent → List FreeExtent → ℕ → ℕ → ℕ → Option (List FreeExtent)
unfolding absorb_next merge_right
merge_left [] after start end page_count = merge_right [] after start end page_count
merge_left (previous ∷ before) after start end page_count =
    if extent_end previous == start
    then some (rejoin before (absorb_next (grow previous page_count) after))
    else merge_right (previous ∷ before) after start end page_count

unfoldable pub return_extent : List FreeExtent → ℕ → ℕ → ℕ → Option (List FreeExtent)
unfolding merge_left
return_extent extents start end page_count =
    let (before, after) = split_at_start start [] extents in
    merge_left before after start end page_count

abbrev pub was_allocated : List RegionCursor → ℕ → ℕ → Bool
was_allocated regions start end =
    any
      (λ region.
        leb region.start start
        && leb end (saturating_add region.start (saturating_mul region.next_page page_size)))
      regions

abbrev pub overlaps_free : List FreeExtent → ℕ → ℕ → Bool
overlaps_free extents start end =
    any (λ extent. ltb start (extent_end extent) && ltb extent.start end) extents

-- The deallocation once the end of the range is known.
deallocate_range : PhysicalPageAllocator → ℕ → ℕ → ℕ → PhysicalPageAllocator × Bool
deallocate_range s start end page_count =
    if not (was_allocated s.regions start end) || overlaps_free s.free_extents start end
    then (s, false)
    else elim (return_extent s.free_extents start end page_count) [
      | none ↦ (s, false)
      | some extents ↦ (
        record s { allocated_pages = s.allocated_pages - page_count; free_extents = extents },
        true,
      )
    ]

unfoldable pub deallocate_contiguous_pages :
    PhysicalPageAllocator → ℕ → ℕ → PhysicalPageAllocator × Bool
unfolding deallocate_range
deallocate_contiguous_pages s start page_count =
    if not s.initialized
      || page_count == 0
      || not (start % page_size == 0)
      || ltb s.allocated_pages page_count
    then (s, false)
    else elim (checked_mul page_count page_size) [
      | none ↦ (s, false)
      | some length ↦ elim (checked_add start length) [
        | none ↦ (s, false)
        | some end ↦ deallocate_range s start end page_count
      ]
    ]

unfoldable pub deallocate_page : PhysicalPageAllocator → ℕ → PhysicalPageAllocator × Bool
unfolding deallocate_contiguous_pages
deallocate_page s start = deallocate_contiguous_pages s start 1

unfoldable pub stats : PhysicalPageAllocator → MemoryStats
stats s = record {
  usable_region_count = length s.regions;
  total_usable_pages = s.total_usable_pages;
  allocated_pages = s.allocated_pages;
  remaining_pages = saturating_sub s.total_usable_pages s.allocated_pages;
}

unfoldable pub first_usable_kind : PhysicalPageAllocator → MemoryRegionKind
first_usable_kind s = elim s.regions [ [] ↦ reserved | region ∷ _ ↦ region.kind ]

unfoldable pub allocated_ranges : List RegionCursor → List (ℕ × ℕ)
allocated_ranges [] = []
allocated_ranges (region ∷ regions) =
    if region.next_page == 0
    then allocated_ranges regions
    else (region.start, saturating_mul region.next_page page_size) ∷ allocated_ranges regions
