-- ===== src/Memory/Init.antt =====
-- `init` of kernel/src/memory.rs: the usable regions of the memory map, less the pages that meet a
-- reserved range, become the regions of the allocator. The scratch arrays of spans stand here as
-- lists of their used parts, with the capacity that `push_span` checks.
pub mod Spans
pub mod Bounds
pub mod Fresh
pub mod Usable
use codex_os.Prelude.{
  ℕ, ◌+◌, ◌-◌, ◌/◌, ◌==◌, ltb, leb, List, [], ◌∷◌, ◌++◌, Bool, true, false, not, ◌||◌,
  if◌then◌else◌, length, saturating_add, min, max,
}
use codex_os.BootInfo.{
  BootInfo, FirmwareMode, MemoryRegion, MemoryRegionKind, ReservedMemoryRange,
  region_is_currently_usable, size_bytes, range_end, listed_regions, listed_reserved, page_size,
  max_reserved_memory_ranges,
}
use codex_os.Memory.{
  PhysicalPageAllocator, RegionSpan, is_empty, align_up, align_down, max_allocator_regions, new,
}

abbrev pub span_capacity : ℕ
span_capacity = max_reserved_memory_ranges + 1

unfoldable pub push_span : List RegionSpan → RegionSpan → List RegionSpan
push_span spans span =
    if is_empty span || leb span_capacity (length spans) then spans else spans ++ span ∷ []

-- What stays of one span beside the pages from `reserved_start` to `reserved_end`.
unfoldable pub cut_span : ℕ → ℕ → List RegionSpan → RegionSpan → List RegionSpan
unfolding push_span
cut_span reserved_start reserved_end scratch span =
    let overlap_start = max span.start reserved_start in
    let overlap_end = min span.end reserved_end in
    if is_empty span
    then scratch
    else if leb overlap_end overlap_start
    then push_span scratch span
    else let left =
        if ltb span.start overlap_start
        then push_span scratch (record { start = span.start; end = overlap_start })
        else scratch in
      if ltb overlap_end span.end
      then push_span left (record { start = overlap_end; end = span.end })
      else left

unfoldable pub cut_spans : ℕ → ℕ → List RegionSpan → List RegionSpan → List RegionSpan
cut_spans reserved_start reserved_end scratch [] = scratch
cut_spans reserved_start reserved_end scratch (span ∷ spans) =
    cut_spans reserved_start reserved_end (cut_span reserved_start reserved_end scratch span) spans

unfoldable pub cut_reserved : List RegionSpan → ReservedMemoryRange → List RegionSpan
unfolding cut_spans cut_span align_up align_down
cut_reserved active range =
    if range.length == 0
    then active
    else let reserved_start = align_down range.start in
      let reserved_end = align_up (range_end range) in
      if leb reserved_end reserved_start
      then active
      else cut_spans reserved_start reserved_end [] active

-- The loop over the reserved ranges, which stops early when no span is left.
unfoldable pub fragments : List RegionSpan → List ReservedMemoryRange → List RegionSpan
unfolding cut_reserved
fragments active [] = active
fragments active (range ∷ ranges) = elim (cut_reserved active range) [
  | [] ↦ []
  | span ∷ spans ↦ fragments (span ∷ spans) ranges
]

unfoldable pub push_region :
    PhysicalPageAllocator → RegionSpan → MemoryRegionKind → PhysicalPageAllocator
unfolding align_up align_down
push_region s span kind =
    let start = align_up span.start in
    let end = align_down span.end in
    let page_count = (end - start) / page_size in
    if leb end start || leb max_allocator_regions (length s.regions)
    then s
    else if page_count == 0
    then s
    else record s {
      regions =
          s.regions
          ++ record { start = start; page_count = page_count; next_page = 0; kind = kind } ∷ [];
      total_usable_pages = saturating_add s.total_usable_pages page_count;
    }

unfoldable pub push_regions :
    PhysicalPageAllocator → List RegionSpan → MemoryRegionKind → PhysicalPageAllocator
push_regions s [] kind = s
push_regions s (span ∷ spans) kind = push_regions (push_region s span kind) spans kind

unfoldable pub add_region_fragments :
    PhysicalPageAllocator
    → ℕ
    → ℕ
    → MemoryRegionKind
    → List ReservedMemoryRange
    → PhysicalPageAllocator
unfolding fragments push_regions
add_region_fragments s start end kind reserved =
    push_regions s (fragments (record { start = start; end = end } ∷ []) reserved) kind

abbrev pub is_skipped : FirmwareMode → MemoryRegion → Bool
is_skipped mode region = not (region_is_currently_usable mode region.kind) || region.page_count == 0

unfoldable pub add_regions :
    FirmwareMode
    → List ReservedMemoryRange
    → PhysicalPageAllocator
    → List MemoryRegion
    → PhysicalPageAllocator
add_regions mode reserved s [] = s
add_regions mode reserved s (region ∷ regions) =
    add_regions mode reserved
      (if is_skipped mode region
        then s
        else add_region_fragments s region.start (saturating_add region.start (size_bytes region))
            region.kind reserved)
      regions

unfoldable pub init : BootInfo → PhysicalPageAllocator
unfolding add_regions listed_regions listed_reserved
init info =
    add_regions info.firmware_mode (listed_reserved info) (record new { initialized = true })
      (listed_regions info)
