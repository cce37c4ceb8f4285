-- ===== src/Heap/Stats.antt =====
-- The start of a heap of libs/heap-allocator/src/lib.rs, and its statistics.
use codex_os.Prelude.{
  ℕ, zero, suc, ◌+◌, ◌%◌, ◌≤◌, ◌<◌, ◌≡◌, refl, List, [], ◌∷◌, arith, max, length, some, eq_false,
  u64_max, saturating_add,
}
use codex_os.Heap.{
  Region, Words, HeapStats, free_list_end, free_sums, stats_of, region_stats, initialize, new,
  write,
}
use codex_os.Heap.Cells.{
  Cell, free, used, total_size, used_size, used_count, Holds, IsHeap, length-le-total,
}

abbrev pub free_size : List Cell → ℕ
free_size [] = 0
free_size (free size ∷ cells) = size + free_size cells
free_size (used size user asked ∷ cells) = free_size cells

-- The size of the largest free cell, or 0.
abbrev pub largest_free : List Cell → ℕ
largest_free [] = 0
largest_free (free size ∷ cells) = max size (largest_free cells)
largest_free (used size user asked ∷ cells) = largest_free cells

free-add-used : (cells : List Cell) → free_size cells + used_size cells ≡ total_size cells
free-add-used [] = refl
free-add-used (free size ∷ cells) = omega (arith, free-add-used cells)
free-add-used (used size user asked ∷ cells) = omega (arith, free-add-used cells)

free_sums_lem :
    (fuel : ℕ) (words : Words) (head start : ℕ) (cells : List Cell) (sum largest : ℕ)
    → length cells < fuel
    → Holds words head start cells
    → start + total_size cells < free_list_end
    → sum + free_size cells ≤ u64_max
    → free_sums fuel words head sum largest
      ≡ some (sum + free_size cells, max largest (largest_free cells))
unfolding free_sums
free_sums_lem zero words head start cells sum largest more h room fits = absurd (omega arith)
free_sums_lem (suc fuel) words head start [] sum largest more h room fits =
    let e : sum + 0 ≡ sum = omega arith in
    let l : max largest 0 ≡ largest = omega arith in rw (h, e, l) refl
free_sums_lem (suc fuel) words head start (used size user asked ∷ cells) sum largest more (u, h)
      room fits =
    free_sums_lem (suc fuel) words head (start + size) cells sum largest (omega arith) h
      (omega arith) fits
free_sums_lem (suc fuel) words head start (free size ∷ cells) sum largest more (f, h) room fits =
    let grows = f.holds_links in
    let not_end = eq_false start free_list_end (λ e. absurd (omega arith)) in
    let step : saturating_add sum size ≡ sum + size = omega arith in
    let regroup : sum + (size + free_size cells) ≡ sum + size + free_size cells = omega arith in
    let most : max largest (max size (largest_free cells))
        ≡ max (max largest size) (largest_free cells) =
      omega arith in
    rw (f.linked, not_end, f.sized, step, regroup, most)
      (free_sums_lem fuel words (words (start + 8)) (start + size) cells (sum + size)
        (max largest size) (omega arith) h (omega arith) (omega arith))

-- The statistics of a heap are complete and add up: they count the free and the used bytes, which
-- together are the capacity, the largest free block, and the allocations alive; the peak is no less
-- than what is used. The region ends within the address space, and the fuel exceeds its bytes.
pub record AddsUp (capacity : ℕ) (cells : List Cell) (stats : HeapStats) : Type 0 where
  pub capacity_bytes : stats.capacity_bytes ≡ capacity
  pub free_bytes : stats.free_bytes ≡ free_size cells
  pub used_bytes : stats.used_bytes ≡ used_size cells
  pub whole : stats.free_bytes + stats.used_bytes ≡ capacity
  pub largest : stats.largest_free_block ≡ largest_free cells
  pub live : stats.live_allocations ≡ used_count cells
  pub peak : stats.used_bytes ≤ stats.peak_used_bytes

-- The statistics of a heap that holds some cells are computed, and add up: the free bytes and the used
-- bytes are those of the free and of the allocated cells and together the capacity, the largest free
-- block is the largest free cell, the live allocations are counted, and the peak is no less than the
-- use. The region ends within the address space, and the fuel exceeds its bytes.
pub region_stats-AddsUp :
    (fuel capacity : ℕ) (r : Region) (cells : List Cell)
    → IsHeap capacity r cells
    → capacity < fuel
    → capacity < u64_max
    → (stats : HeapStats) × ((region_stats fuel r capacity ≡ some stats)
        × AddsUp capacity cells stats)
unfolding region_stats
region_stats-AddsUp fuel capacity r cells heap enough small =
    let few = length-le-total r.words r.state.free_head 0 cells heap.holds in
    let sums = free-add-used cells in
    let tiled = heap.tiled in
    let run =
      free_sums_lem fuel r.words r.state.free_head 0 cells 0 0 (omega arith) heap.holds
        (omega arith) (omega arith) in
    let zero_sum : 0 + free_size cells ≡ free_size cells = omega arith in
    let zero_max : max 0 (largest_free cells) ≡ largest_free cells = omega arith in
    (
      stats_of r.state capacity (free_size cells, largest_free cells),
      (
        rw (run, zero_sum, zero_max) refl,
        record {
          capacity_bytes = refl;
          free_bytes = refl;
          used_bytes = heap.used_bytes;
          whole = omega (arith, heap.used_bytes);
          largest = refl;
          live = heap.live;
          peak = omega (arith, heap.used_bytes, heap.peak);
        },
      ),
    )

-- A heap that was never used holds one free block of all its bytes, once initialised.
pub initialize-IsHeap :
    (capacity : ℕ) (words : Words)
    → 16 ≤ capacity
    → capacity % 8 ≡ 0
    → IsHeap capacity
        (initialize capacity (record { state = new; words = words }))
        (free capacity ∷ [])
unfolding initialize write
initialize-IsHeap capacity words h e = record {
  initialized = refl;
  holds = (record { linked = refl; sized = refl; holds_links = h; size_aligned = e }, refl);
  tiled = omega arith;
  apart = (refl, tt);
  used_bytes = refl;
  peak = omega arith;
  live = refl;
}
