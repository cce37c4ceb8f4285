-- ===== src/Heap/Allocate/Refines.antt =====
-- Allocation in libs/heap-allocator/src/lib.rs, against the cells that tile the heap.
use codex_os.Prelude.{
  ℕ, ◌+◌, ◌^◌, ◌≤◌, ◌<◌, ◌≡◌, refl, ◌∙◌, List, [], ◌∷◌, true, Option, none, some, arith, max,
  u64_max, inl, saturating_add, length,
}
use codex_os.Heap.{Region, Layout, free_list_end, free_align}
use codex_os.Heap.Cells.{
  Cell, free, used, total_size, used_size, used_count, in_use, IsHeap, length-le-total,
}
use codex_os.Heap.FirstFit.{first_fit, Took}
use codex_os.Heap.Allocate.{Found, absent, found, allocate_from_free_list}
use codex_os.Heap.Allocate.Search.{Finds, find_block-Finds}
use codex_os.Heap.Allocate.Grants.{Grants, GrantsIn, first_fit-Grants}

-- The heap after an allocation: it holds the cells that the first fit gives, what programs had been
-- given is unchanged, and the counters count the allocation.
pub record Allocated (capacity k requested : ℕ) (r r' : Region) (cells cells' : List Cell)
    (user : ℕ) : Type 0 where
  pub heap : IsHeap capacity r' cells'
  pub grants : Grants k requested 0 cells user cells'
  pub kept : (a : ℕ) → in_use cells a ≡ true → r'.words a ≡ r.words a
  pub total : r'.state.total_allocations ≡ saturating_add r.state.total_allocations 1
  pub failed : r'.state.failed_allocations ≡ r.state.failed_allocations

abbrev pub AllocatesAs :
    Option (ℕ × List Cell) → Option Found → ℕ → ℕ → ℕ → Region → List Cell → Type 0
AllocatesAs none result capacity k requested r cells = result ≡ some absent
AllocatesAs (some (user, cells')) result capacity k requested r cells =
    (r' : Region) × ((result ≡ some (found user r'))
      × Allocated capacity k requested r r' cells cells' user)

-- The sizes of allocations fit what they tile, so the counters do not saturate.
pub used-le-total : (cells : List Cell) → used_size cells ≤ total_size cells
used-le-total [] = omega arith
used-le-total (free size ∷ cells) = omega (arith, used-le-total cells)
used-le-total (used size user requested ∷ cells) = omega (arith, used-le-total cells)

pub count-le-length : (cells : List Cell) → used_count cells ≤ length cells
count-le-length [] = omega arith
count-le-length (free size ∷ cells) = omega (arith, count-le-length cells)
count-le-length (used size user requested ∷ cells) = omega (arith, count-le-length cells)

module _ (capacity k requested : ℕ) (r : Region) (cells : List Cell)
    (heap : IsHeap capacity r cells) (room : capacity + 2 ^ k + 40 ≤ u64_max) where
  Took-Allocated :
      (r' : Region) (user : ℕ) (cells' : List Cell)
      → Took r r' free_list_end 0 cells cells'
      → Grants k requested 0 cells user cells'
      → Allocated capacity k requested r r' cells cells' user
  Took-Allocated r' user cells' t g = record {
    heap = record {
      initialized = t.counted.initialized ∙ heap.initialized;
      holds = t.holds;
      tiled = g.total ∙ heap.tiled;
      apart = g.apart heap.apart;
      used_bytes =
          omega
            (arith, t.counted.used_bytes, heap.used_bytes, t.grows, fit_in, g.total, heap.tiled);
      peak = omega (arith, t.counted.peak, heap.used_bytes, t.grows, fit_in, g.total, heap.tiled);
      live = omega (arith, t.counted.live, heap.live, g.count, few, heap.tiled);
    };
    grants = g;
    kept = t.kept_used;
    total = t.counted.total;
    failed = t.counted.failed;
  }
    where
      fit_in : used_size cells' ≤ total_size cells'
      fit_in = used-le-total cells'

      few : used_count cells ≤ total_size cells
      few = omega (
        arith,
        count-le-length cells,
        length-le-total r.words r.state.free_head 0 cells heap.holds,
      )

  As-Allocated :
      (o : Option (ℕ × List Cell)) (result : Option Found)
      → Finds o result r free_list_end 0 cells
      → GrantsIn o k requested 0 cells
      → AllocatesAs o result capacity k requested r cells
  As-Allocated none result f g = f
  As-Allocated (some (user, cells')) result (r', (e, t)) g =
      (r', (e, Took-Allocated r' user cells' t g))

-- On a heap that holds some cells, a request is granted exactly when a free cell has room for it behind
-- a header, at the alignment asked for: the first such cell is cut as the first fit cuts it, into a
-- heap again; the bytes granted were in no program's use, and what was in use keeps its contents.
-- Otherwise the result is None. The region and the alignment, a power of two
-- from 8 on, leave 40 bytes of the address space, and the fuel exceeds the region's bytes.
pub allocate-Refines :
    (fuel capacity k : ℕ) (r : Region) (cells : List Cell) (layout : Layout)
    → IsHeap capacity r cells
    → 3 ≤ k
    → k ≤ 63
    → max layout.align free_align ≡ 2 ^ k
    → capacity + 2 ^ k + 40 ≤ u64_max
    → capacity < fuel
    → AllocatesAs
        (first_fit k (max layout.size 1) 0 cells)
        (allocate_from_free_list fuel r layout)
        capacity
        k
        (max layout.size 1)
        r
        cells
unfolding allocate_from_free_list
allocate-Refines fuel capacity k r cells layout heap low high power room enough =
    let requested = max layout.size 1 in
    let few = length-le-total r.words r.state.free_head 0 cells heap.holds in
    let finds =
      find_block-Finds k requested low high fuel r free_list_end 0 cells (omega (arith, heap.tiled))
        (inl refl) (omega arith) refl (omega (arith, heap.tiled)) heap.holds in
    As-Allocated capacity k requested r cells heap room (first_fit k requested 0 cells)
      (allocate_from_free_list fuel r layout) (rw power finds)
      (first_fit-Grants r.words r.state.free_head k requested 0 cells heap.holds)
