-- ===== src/Tests/Heaps.antt =====
-- A heap of 256 bytes for libs/heap-allocator/src/lib.rs.
use codex_os.Prelude.{◌+◌, ◌%◌, ◌^◌, ◌≡◌, ◌≢◌, refl, List, [], ◌∷◌, some, arith, max}
use codex_os.Heap.{
  Region, Layout, HeapStats, new, initialize, write, align_up, set_link, free_list_end,
  region_stats,
}
use codex_os.Heap.Cells.{Cell, free, used, IsHeap}
use codex_os.Heap.FirstFit.{first_fit}
use codex_os.Heap.Allocate.{
  absent, found, allocate_from_free_list, find_block, fit_block, take_block, cut_block,
  commit_block,
}
use codex_os.Heap.Allocate.Refines.{AllocatesAs, allocate-Refines}
use codex_os.Heap.Release.{deallocate_into_region}
use codex_os.Heap.Release.Refines.{Released, deallocate-Refines}
use codex_os.Heap.Stats.{AddsUp, region_stats-AddsUp, initialize-IsHeap}
use codex_os.Heap.Expandable.{ExpandableHeap, initialize_external}
use codex_os.Heap.Expandable.External.{IsReady, initialize_external-IsReady}
use codex_os.Heap.Lifecycle.{allocate_then_deallocate_heap, allocate-misaligned}

abbrev fresh : Region
fresh = initialize 256 (record { state = new; words = λ a. 0 })

initialize-IsHeap_example :
    IsHeap 256 (initialize 256 (record { state = new; words = λ a. 0 })) (free 256 ∷ [])
initialize-IsHeap_example = initialize-IsHeap 256 (λ a. 0) (omega arith) refl

fresh-IsHeap : IsHeap 256 fresh (free 256 ∷ [])
fresh-IsHeap = initialize-IsHeap 256 (λ a. 0) (omega arith) refl

abbrev forty : Layout
forty = record { size = 40; align = 8 }

allocate-Refines_example :
    AllocatesAs
      (first_fit 3 (max forty.size 1) 0 (free 256 ∷ []))
      (allocate_from_free_list 257 fresh forty)
      256
      3
      (max forty.size 1)
      fresh
      (free 256 ∷ [])
allocate-Refines_example =
    allocate-Refines 257 256 3 fresh (free 256 ∷ []) forty fresh-IsHeap (omega arith) (omega arith)
      refl (omega arith) (omega arith)

abbrev two_cells : List Cell
two_cells = used 72 32 40 ∷ free 184 ∷ []

abbrev after_forty : Region
after_forty = take_block fresh 40 free_list_end 0 32 256 72

forty_run : allocate_from_free_list 257 fresh forty ≡ some (found 32 after_forty)
unfolding allocate_from_free_list find_block fit_block align_up initialize write
forty_run = refl

too_large : allocate_from_free_list 257 fresh (record { size = 300; align = 8 }) ≡ some absent
unfolding allocate_from_free_list find_block fit_block align_up initialize write
too_large = refl

after_forty-IsHeap : IsHeap 256 after_forty two_cells
unfolding take_block commit_block cut_block set_link write initialize
after_forty-IsHeap = record {
  initialized = refl;
  holds = (
    record {
      header_inside = omega arith;
      user_inside = omega arith;
      asked = omega arith;
      size_aligned = refl;
      user_aligned = refl;
      magic = refl;
      block_start = refl;
      block_size = refl;
      requested_size = refl;
    },
    (record { linked = refl; sized = refl; holds_links = omega arith; size_aligned = refl }, refl),
  );
  tiled = refl;
  apart = (refl, tt);
  used_bytes = refl;
  peak = omega arith;
  live = refl;
}

deallocate-Refines_example :
    (r' : Region) × ((deallocate_into_region 257 after_forty 4096 256 (4096 + 32) ≡ some r')
      × Released 256 after_forty r' [] 72 (free 184 ∷ []))
deallocate-Refines_example =
    deallocate-Refines 256 257 4096 after_forty [] 72 32 40 (free 184 ∷ []) after_forty-IsHeap
      (omega arith) (omega arith) (omega arith)

region_stats-AddsUp_example :
    (stats : HeapStats) × ((region_stats 257 after_forty 256 ≡ some stats)
      × AddsUp 256 two_cells stats)
region_stats-AddsUp_example =
    region_stats-AddsUp 257 256 after_forty two_cells after_forty-IsHeap (omega arith) (omega arith)

allocate_then_deallocate_heap_example :
    (r'' : Region) × ((deallocate_into_region 257 after_forty 4096 256 (4096 + 32) ≡ some r'')
      × IsHeap 256 r'' (free 256 ∷ []))
allocate_then_deallocate_heap_example =
    allocate_then_deallocate_heap 257 256 3 4096 32 fresh after_forty (free 256 ∷ []) forty
      fresh-IsHeap (omega arith) (omega arith) refl (omega arith) (omega arith) (omega arith)
      forty_run

abbrev page_aligned : Layout
page_aligned = record { size = 8; align = 128 }

abbrev after_page : Region
after_page = take_block fresh 8 free_list_end 0 128 256 136

page_run : allocate_from_free_list 257 fresh page_aligned ≡ some (found 128 after_page)
unfolding allocate_from_free_list find_block fit_block align_up initialize write
page_run = refl

-- The bootstrap heap is aligned to 64 bytes only.
allocate-misaligned_example : ((64 + 128) % 2 ^ 7 ≡ 64 % 2 ^ 7) × ((64 + 128) % 2 ^ 7 ≢ 0)
allocate-misaligned_example =
    allocate-misaligned 257 256 7 64 128 fresh after_page (free 256 ∷ []) page_aligned fresh-IsHeap
      (omega arith) (omega arith) refl (omega arith) (omega arith) (λ e. absurd (omega arith))
      page_run

abbrev without_external : ExpandableHeap
without_external = record {
  bootstrap = record { state = new; words = λ a. 0 };
  external_base = 0;
  external_capacity = 0;
  external = record { state = new; words = λ a. 0 };
}

abbrev with_external : ExpandableHeap
with_external = record without_external {
  external = initialize 4096 (record { state = new; words = λ a. 0 });
  external_capacity = 4096;
  external_base = 0x10000;
}

initialize_external-IsReady_example :
    IsReady 0x1000 1024 0x10000 4096 without_external with_external
unfolding initialize_external
initialize_external-IsReady_example =
    initialize_external-IsReady 0x1000 1024 0x10000 4096 (λ a. 0) without_external with_external
      (omega arith) refl refl
