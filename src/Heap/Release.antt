-- ===== src/Heap/Release.antt =====
-- Deallocation in libs/heap-allocator/src/lib.rs: the check of the header before a pointer, and the
-- insertion of its block into the list, which joins it with the free blocks that it touches.
pub mod Freed
pub mod Insert
pub mod Place
pub mod Walk
pub mod Sums
pub mod Refines
use mathlib.Core.Option
use codex_os.Prelude.{
  ℕ, zero, suc, ◌+◌, ◌-◌, ◌==◌, ltb, leb, Bool, true, false, not, ◌&&◌, ◌||◌, Option, none, some,
  saturating_add, saturating_sub, checked_add, if◌then◌else◌,
}
use codex_os.Heap.{
  AllocatorState, AllocationHeader, FreeBlock, Region, Words, free_list_end, allocation_magic,
  header_size, read_free_block, write_free_block, read_header, write_header, set_link,
}

-- The loop that finds the place of a block: the free blocks before and behind it. `none` is that the
-- fuel ran out.
unfoldable pub find_place : ℕ → Words → ℕ → ℕ → ℕ → Option (ℕ × ℕ)
find_place zero words block_start previous current = none
find_place (suc fuel) words block_start previous current =
    let rest = find_place fuel words block_start current (words (current + 8)) in
    if not (current == free_list_end) && ltb current block_start
    then rest
    else some (previous, current)

-- Joins the block with the one behind it, if they touch.
unfoldable pub join_next : ℕ → ℕ → ℕ → Region → Region
join_next block_start block_size current r =
    if not (current == free_list_end) && (saturating_add block_start block_size == current)
    then record r {
      words = write_free_block r.words block_start (record {
        size = saturating_add block_size (r.words current);
        next = r.words (current + 8);
      });
    }
    else r

-- Joins the block with the one before it, if they touch.
unfoldable pub join_previous : ℕ → ℕ → Region → Region
join_previous block_start previous r =
    if not (previous == free_list_end)
      && (saturating_add previous (r.words previous) == block_start)
    then record r {
      words = write_free_block r.words previous (record {
        size = saturating_add (r.words previous) (r.words block_start);
        next = r.words (block_start + 8);
      });
    }
    else r

unfoldable pub insert_at : ℕ → ℕ → ℕ → ℕ → Region → Region
insert_at block_start block_size previous current r =
    let written = record r {
      words = write_free_block r.words block_start (record { size = block_size; next = current });
    } in
    join_previous block_start previous
      (join_next block_start block_size current (set_link written previous block_start))

unfoldable pub insert_free_block : ℕ → Region → ℕ → ℕ → Option Region
insert_free_block fuel r block_start block_size =
    Option.map (λ (previous, current). insert_at block_start block_size previous current r)
      (find_place fuel r.words block_start free_list_end r.state.free_head)

abbrev pub past_capacity : ℕ → Option ℕ → Bool
past_capacity capacity none = true
past_capacity capacity (some end) = ltb capacity end

-- The header is not one that an allocation left.
unfoldable pub is_invalid : ℕ → AllocationHeader → Bool
is_invalid capacity header =
    not (header.magic == allocation_magic)
    || (leb capacity header.block_start
        || (header.block_size == 0
            || past_capacity capacity (checked_add header.block_start header.block_size)))

abbrev pub released : ℕ → Region → Region
released block_size r = record r {
  state = record r.state {
    used_bytes = saturating_sub r.state.used_bytes block_size;
    live_allocations = saturating_sub r.state.live_allocations 1;
    total_deallocations = saturating_add r.state.total_deallocations 1;
  };
}

-- The block of the header at an offset is released.
unfoldable pub release_block : ℕ → Region → ℕ → AllocationHeader → Option Region
release_block fuel r offset header = Option.map (released header.block_size) (
    insert_free_block fuel
      (record r {
        words =
            write_header r.words offset
              (record { magic = 0; block_start = 0; block_size = 0; requested_size = 0 });
      })
      header.block_start header.block_size)

-- The pointer lies outside the region of the heap.
abbrev pub is_outside : ℕ → ℕ → ℕ → Bool
is_outside base capacity pointer =
    ltb pointer (saturating_add base header_size) || ltb (base + capacity) pointer

abbrev pub is_none : Option ℕ → Bool
is_none none = true
is_none (some n) = false

unfoldable pub deallocate_into_region : ℕ → Region → ℕ → ℕ → ℕ → Option Region
deallocate_into_region fuel r base capacity pointer =
    if not r.state.initialized
    then some r
    else if is_none (checked_add base capacity) || is_outside base capacity pointer
    then some r
    else if is_invalid capacity (read_header r.words (pointer - header_size - base))
    then some r
    else release_block fuel r (pointer - header_size - base)
        (read_header r.words (pointer - header_size - base))

-- `GlobalAlloc::dealloc` of a ReclaimingHeap.
unfoldable pub dealloc : ℕ → ℕ → ℕ → Region → ℕ → Option Region
dealloc fuel base capacity r pointer =
    if pointer == 0 then some r else deallocate_into_region fuel r base capacity pointer
