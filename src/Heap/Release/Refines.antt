-- ===== src/Heap/Release/Refines.antt =====
-- Deallocation in libs/heap-allocator/src/lib.rs, against the cells that tile the heap.
use codex_os.Prelude.{
  ℕ, ◌+◌, ◌-◌, ◌≤◌, ◌<◌, ◌≡◌, refl, sym, ap, ◌∙◌, List, ◌∷◌, ◌++◌, true, false, arith, ◌||◌, leb,
  length, length-append, some, u64_max, inl, saturating_add,
}
use codex_os.Heap.{
  AllocatorState, Region, Words, AllocationHeader, free_list_end, allocation_magic, write,
  read_header, write_header,
}
use codex_os.Heap.Cells.{Cell, used, total_size, in_use, IsUsed, IsHeap, length-le-total}
use codex_os.Heap.Release.{
  deallocate_into_region, release_block, insert_free_block, is_invalid, is_outside, released,
}
use codex_os.Heap.Release.Freed.{freed, HoldsAround, Inserted}
use codex_os.Heap.Release.Walk.{insert_from-Inserts}
use codex_os.Heap.Release.Sums.{
  freed-total, freed-used, freed-count, freed-in_use, freed-AreApart, around-total, around-used,
  around-count, Holds-around, HoldsAround-Agree, in_use-before, in_use-after,
}

-- The heap after the release of a block: the block is free, together with the free blocks that it
-- touched; what other programs use is as it was.
pub record Released (capacity : ℕ) (r r' : Region) (before : List Cell) (size : ℕ)
    (after : List Cell) : Type 0 where
  pub heap : IsHeap capacity r' (freed before size after)
  pub in_use_left :
      (a : ℕ) → in_use (freed before size after) a ≡ (in_use before a || in_use after a)
  pub kept_before : (a : ℕ) → in_use before a ≡ true → r'.words a ≡ r.words a
  pub kept_after : (a : ℕ) → in_use after a ≡ true → r'.words a ≡ r.words a
  pub total : r'.state.total_deallocations ≡ saturating_add r.state.total_deallocations 1

-- The header of an allocation, at the distance from its bytes at which it is read.
module _ (words : Words) (start size user asked : ℕ) (u : IsUsed words start size user asked) where
  header_read : read_header words (user - 32) ≡ record {
    magic = allocation_magic;
    block_start = start;
    block_size = size;
    requested_size = asked;
  }
  header_read =
      let inside = u.header_inside in
      let e8 : user - 32 + 8 ≡ user - 24 = omega arith in
      let e16 : user - 32 + 16 ≡ user - 16 = omega arith in
      let e24 : user - 32 + 24 ≡ user - 8 = omega arith in
      rw (e8, e16, e24, u.magic, u.block_start, u.block_size, u.requested_size) refl

  header_valid :
      (capacity : ℕ)
      → start + size ≤ capacity
      → capacity ≤ u64_max
      → is_invalid capacity (record {
        magic = allocation_magic;
        block_start = start;
        block_size = size;
        requested_size = asked;
      })
        ≡ false
  unfolding is_invalid
  header_valid capacity fits small =
      let inside = u.header_inside in
      let ends = u.user_inside in let some_asked = u.asked in ground arith

  -- The header is wiped, which changes nothing outside the block.
  abbrev wiped : Words
  wiped =
      write_header words (user - 32)
        (record { magic = 0; block_start = 0; block_size = 0; requested_size = 0 })

  wiped_below : (a : ℕ) → a < start → wiped a ≡ words a
  unfolding write
  wiped_below a h = let inside = u.header_inside in ground arith

  wiped_above : (a : ℕ) → start + size ≤ a → wiped a ≡ words a
  unfolding write
  wiped_above a h = let inside = u.header_inside in let ends = u.user_inside in ground arith

-- A header that passes all checks is released.
deallocates :
    (fuel base capacity pointer offset : ℕ) (r r' : Region) (header : AllocationHeader)
    → r.state.initialized ≡ true
    → leb (base + capacity) u64_max ≡ true
    → is_outside base capacity pointer ≡ false
    → pointer - 32 - base ≡ offset
    → read_header r.words offset ≡ header
    → is_invalid capacity header ≡ false
    → release_block fuel r offset header ≡ some r'
    → deallocate_into_region fuel r base capacity pointer ≡ some r'
unfolding deallocate_into_region
deallocates fuel base capacity pointer offset r r' header ready fits within at_header read valid
      run =
    simp (ready, fits, within, at_header, read, valid, run)

releases :
    (fuel start size user asked : ℕ) (r r' : Region) (u : IsUsed r.words start size user asked)
    → insert_free_block fuel (record r { words = wiped r.words start size user asked u }) start size
      ≡ some r'
    → release_block fuel r (user - 32) (record {
      magic = allocation_magic;
      block_start = start;
      block_size = size;
      requested_size = asked;
    })
      ≡ some (released size r')
unfolding release_block
releases fuel start size user asked r r' u run = rw run refl

module _ (capacity fuel : ℕ) (r : Region) (before : List Cell) (size user asked : ℕ)
    (after : List Cell) (heap : IsHeap capacity r (before ++ used size user asked ∷ after))
    (enough : capacity < fuel) (small : capacity < u64_max) where
  split :
      IsUsed r.words (total_size before) size user asked
      × HoldsAround r.words r.state.free_head 0 before size after
  split =
      let (u, rest) =
        Holds-around r.words r.state.free_head 0 before size user asked after heap.holds in
      let e : total_size before ≡ 0 + total_size before = omega arith in (rw e u, rest)

  sum : total_size before + size + total_size after ≡ capacity
  sum = sym (around-total before size user asked after) ∙ heap.tiled

  few : length before ≤ capacity
  few =
      let all = length-le-total r.words r.state.free_head 0 _ heap.holds in
      omega (arith, all, heap.tiled, length-append before (used size user asked ∷ after))

  abbrev wiped_region : Region
  wiped_region = record r { words = wiped r.words (total_size before) size user asked split.0 }

  wiped_around : HoldsAround wiped_region.words r.state.free_head 0 before size after
  wiped_around =
      HoldsAround-Agree r.words wiped_region.words r.state.free_head 0 before size after split.1
        (record {
          at = λ a low high.
              wiped_below r.words (total_size before) size user asked split.0 a (omega arith);
        })
        (record {
          at = λ a low high.
              wiped_above r.words (total_size before) size user asked split.0 a (omega arith);
        })

  inserted :
      (r' : Region) × ((insert_free_block fuel wiped_region (total_size before) size ≡ some r')
        × Inserted wiped_region r' free_list_end 0 before size after (freed before size after))
  unfolding insert_free_block
  inserted =
      let u = split.0 in
      let inside = u.header_inside in
      let ends = u.user_inside in
      insert_from-Inserts wiped_region (total_size before) size after (omega arith) u.size_aligned
        (omega (arith, sum)) fuel free_list_end 0 before (omega (arith, few)) (omega arith)
        (inl refl) (λ later. absurd (later refl)) wiped_around

  Inserted-Released :
      (r' : Region)
      → Inserted wiped_region r' free_list_end 0 before size after (freed before size after)
      → Released capacity r (released size r') before size after
  Inserted-Released r' t =
      let others = t.others in
      let used_now = freed-used before size after in
      let used_then = around-used before size user asked after in
      let count_now = freed-count before size after in
      let count_then = around-count before size user asked after in
      record {
        heap = record {
          initialized = ap (λ (s : AllocatorState). s.initialized) others ∙ heap.initialized;
          holds = t.holds;
          tiled = freed-total before size after ∙ sum;
          apart = freed-AreApart before size user asked after heap.apart;
          used_bytes =
              omega (arith, ap (λ (s : AllocatorState). s.used_bytes) others, heap.used_bytes);
          peak = omega (arith, ap (λ (s : AllocatorState). s.peak_used_bytes) others, heap.peak);
          live = omega (arith, ap (λ (s : AllocatorState). s.live_allocations) others, heap.live);
        };
        in_use_left = freed-in_use before size after;
        kept_before = λ a h.
            let (low, high) = before_bounds a h in
            t.kept_before a h
            ∙ wiped_below r.words (total_size before) size user asked split.0 a high;
        kept_after = λ a h.
            t.kept_after a h
            ∙ wiped_above r.words (total_size before) size user asked split.0 a (after_bounds a h);
        total = ap (λ (s : AllocatorState). saturating_add s.total_deallocations 1) others;
      }
    where
      before_bounds : (a : ℕ) → in_use before a ≡ true → (0 ≤ a) × (a < total_size before)
      before_bounds a h = (
        omega arith,
        omega (arith, in_use-before r.words r.state.free_head 0 before size after a split.1 h),
      )

      after_bounds : (a : ℕ) → in_use after a ≡ true → total_size before + size ≤ a
      after_bounds a h =
          omega (arith, in_use-after r.words r.state.free_head 0 before size after a split.1 h)

  pub release_at :
      (base : ℕ)
      → base + capacity ≤ u64_max
      → (r' : Region) × ((deallocate_into_region fuel r base capacity (base + user) ≡ some r')
          × Released capacity r r' before size after)
  release_at base room =
      let u = split.0 in
      let inside = u.header_inside in
      let ends = u.user_inside in
      let some_asked = u.asked in
      let total = sum in
      let (r', (e, t)) = inserted in
      let at_header : base + user - 32 - base ≡ user - 32 = omega arith in
      let fits : leb (base + capacity) u64_max ≡ true = ground arith in
      let within : is_outside base capacity (base + user) ≡ false = ground arith in
      (
        released size r',
        (
          deallocates fuel base capacity (base + user) (user - 32) r (released size r') _
              heap.initialized fits within at_header
              (header_read r.words (total_size before) size user asked u)
              (header_valid r.words (total_size before) size user asked u capacity (omega arith)
                (omega arith))
              (releases fuel (total_size before) size user asked r r' u e),
          Inserted-Released r' t,
        ),
      )

-- On a heap that holds some cells, the pointer to one that is allocated is accepted, and the heap then
-- holds the cells with that one free, in one with the free cells on either side: the bytes in use are
-- those of the other cells, whose contents are kept. The region ends within the address space, and the
-- fuel exceeds its bytes.
pub deallocate-Refines :
    (capacity fuel base : ℕ) (r : Region) (before : List Cell) (size user asked : ℕ)
    (after : List Cell)
    → IsHeap capacity r (before ++ used size user asked ∷ after)
    → capacity < fuel
    → capacity < u64_max
    → base + capacity ≤ u64_max
    → (r' : Region) × ((deallocate_into_region fuel r base capacity (base + user) ≡ some r')
        × Released capacity r r' before size after)
deallocate-Refines capacity fuel base r before size user asked after heap enough small room =
    release_at capacity fuel r before size user asked after heap enough small base room
