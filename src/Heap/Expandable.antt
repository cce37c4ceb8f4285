-- ===== src/Heap/Expandable.antt =====
-- ExpandableHeap of libs/heap-allocator/src/lib.rs: a small heap that is there from the start, and a
-- region that is handed over later and then tried first.
pub mod External
use mathlib.Core.Option
use codex_os.Prelude.{
  ℕ, ◌%◌, ◌+◌, ◌==◌, ltb, leb, max, Bool, not, ◌&&◌, ◌||◌, Option, none, some, saturating_add,
  checked_add, if◌then◌else◌, u64_max,
}
use codex_os.Prelude.Results.{Result, ok, err}
use codex_os.Heap.{
  Region, HeapStats, Layout, free_align, free_block_size, initialize, region_stats,
  reclaiming_stats,
}
use codex_os.Heap.Allocate.{Found, absent, found, allocate_from_free_list, alloc}
use codex_os.Heap.Release.{deallocate_into_region, dealloc}

pub data HeapInitError : Type 0 where
  already_initialized invalid_address invalid_capacity overlaps_bootstrap : HeapInitError

pub record ExpandableHeap : Type 0 where
  pub bootstrap : Region
  pub external_base : ℕ
  pub external_capacity : ℕ
  pub external : Region

abbrev has_no_sum : ℕ → ℕ → Bool
has_no_sum a b = ltb u64_max (a + b)

-- The bootstrap heap lies at `bootstrap_base` and has `n` bytes.
unfoldable pub initialize_external :
    ℕ → ℕ → ExpandableHeap → ℕ → ℕ → Result HeapInitError ExpandableHeap
initialize_external bootstrap_base n heap address capacity =
    if address == 0 || not (address % free_align == 0)
    then err invalid_address
    else if ltb capacity free_block_size
        || (not (capacity % free_align == 0) || has_no_sum address capacity)
    then err invalid_capacity
    else if ltb address (saturating_add bootstrap_base n)
        && ltb bootstrap_base (saturating_add address capacity)
    then err overlaps_bootstrap
    else if not (heap.external_base == 0)
    then err already_initialized
    else ok (record heap {
      external = initialize capacity heap.external;
      external_capacity = capacity;
      external_base = address;
    })

abbrev pub using_external : ExpandableHeap → Bool
using_external heap = not (heap.external_base == 0)

abbrev add_stats : HeapStats → HeapStats → HeapStats
add_stats total external = record {
  capacity_bytes = saturating_add total.capacity_bytes external.capacity_bytes;
  used_bytes = saturating_add total.used_bytes external.used_bytes;
  peak_used_bytes = saturating_add total.peak_used_bytes external.peak_used_bytes;
  free_bytes = saturating_add total.free_bytes external.free_bytes;
  largest_free_block = max total.largest_free_block external.largest_free_block;
  live_allocations = saturating_add total.live_allocations external.live_allocations;
  total_allocations = saturating_add total.total_allocations external.total_allocations;
  total_deallocations = saturating_add total.total_deallocations external.total_deallocations;
  failed_allocations = saturating_add total.failed_allocations external.failed_allocations;
}

abbrev both : Option HeapStats → Option HeapStats → Option HeapStats
both none external = none
both (some total) none = none
both (some total) (some external) = some (add_stats total external)

-- The bootstrap heap initialises itself before it is counted.
unfoldable pub stats : ℕ → ℕ → ExpandableHeap → ExpandableHeap × Option HeapStats
stats fuel n heap =
    let (ready, total) = reclaiming_stats fuel n heap.bootstrap in
    let external = region_stats fuel heap.external heap.external_capacity in
    (
      record heap { bootstrap = ready },
      if heap.external_base == 0 then total else both total external,
    )

abbrev from_bootstrap : ExpandableHeap → ℕ × Region → ℕ × ExpandableHeap
from_bootstrap heap (pointer, r) = (pointer, record heap { bootstrap = r })

abbrev with_failure : ExpandableHeap → ExpandableHeap
with_failure heap = record heap {
  external = record heap.external {
    state = record heap.external.state {
      failed_allocations = saturating_add heap.external.state.failed_allocations 1;
    };
  };
}

-- `GlobalAlloc::alloc`: the external region first, then the bootstrap heap.
unfoldable pub alloc_from_either : ℕ → ℕ → ℕ → ExpandableHeap → Layout → Option (ℕ × ExpandableHeap)
alloc_from_either fuel bootstrap_base n heap layout =
    if heap.external_base == 0
    then Option.map (from_bootstrap heap) (alloc fuel bootstrap_base n heap.bootstrap layout)
    else elim (allocate_from_free_list fuel heap.external layout) [
      | none ↦ none
      | some absent ↦
          Option.map (from_bootstrap (with_failure heap))
            (alloc fuel bootstrap_base n heap.bootstrap layout)
      | some (found user_start r) ↦
          some (heap.external_base + user_start, record heap { external = r })
    ]

-- `GlobalAlloc::dealloc`: a pointer goes back to the heap whose memory it lies in.
unfoldable pub dealloc_to_owner : ℕ → ℕ → ℕ → ExpandableHeap → ℕ → Option ExpandableHeap
dealloc_to_owner fuel bootstrap_base n heap pointer =
    if pointer == 0
    then some heap
    else if not (heap.external_base == 0)
        && (leb heap.external_base pointer
            && ltb pointer (saturating_add heap.external_base heap.external_capacity))
    then Option.map (λ r. record heap { external = r })
        (deallocate_into_region fuel heap.external heap.external_base heap.external_capacity
          pointer)
    else Option.map (λ r. record heap { bootstrap = r })
        (dealloc fuel bootstrap_base n heap.bootstrap pointer)
