-- ===== src/Heap/Allocate.antt =====
-- Allocation in libs/heap-allocator/src/lib.rs: the search of the free list for the first block that
-- fits, and what is done with it.
pub mod Placed
pub mod Taken
pub mod Search
pub mod Grants
pub mod Refines
use mathlib.Core.Option
use codex_os.Prelude.{
  ℕ, zero, suc, ◌+◌, ◌-◌, ◌==◌, leb, max, Bool, ◌&&◌, Option, none, some, saturating_add,
  checked_add, if◌then◌else◌,
}
use codex_os.Heap.{
  AllocatorState, Region, Words, Layout, free_list_end, allocation_magic, header_size,
  free_block_size, free_align, read_free_block, write_free_block, write_header, align_up, set_link,
  initialize,
}

-- What a block is for a request: the search ends with `None`, or goes on to the next block, or the
-- block serves.
pub data Fit : Type 0 where
  stop : Fit
  skip : Fit
  fit : ℕ → ℕ → ℕ → Fit

abbrev or_stop : Option ℕ → (ℕ → Fit) → Fit
or_stop none next = stop
or_stop (some n) next = next n

abbrev pub fits_until : ℕ → ℕ → Option ℕ → Fit
fits_until user_start block_end none = skip
fits_until user_start block_end (some end) =
    if leb end block_end then fit user_start end block_end else skip

unfoldable pub fit_block : ℕ → ℕ → ℕ → ℕ → Fit
fit_block requested alignment current size = or_stop (checked_add current size) λ block_end.
    or_stop (checked_add current header_size) λ header_end.
      or_stop (align_up header_end alignment)
        λ user_start. fits_until user_start block_end (checked_add user_start requested)

-- The rest of a block behind the allocation becomes a free block if it can hold one: the end of what
-- is allocated, the successor of the block before, and the memory.
unfoldable pub cut_block : Words → ℕ → ℕ → ℕ → ℕ × ℕ × Words
cut_block words suffix block_end next =
    if leb suffix block_end && leb free_block_size (block_end - suffix)
    then (
      suffix,
      suffix,
      write_free_block words suffix (record { size = block_end - suffix; next = next }),
    )
    else (block_end, next, words)

abbrev counted : AllocatorState → ℕ → AllocatorState
counted state block_size = record state {
  used_bytes = saturating_add state.used_bytes block_size;
  peak_used_bytes = max state.peak_used_bytes (saturating_add state.used_bytes block_size);
  live_allocations = saturating_add state.live_allocations 1;
  total_allocations = saturating_add state.total_allocations 1;
}

-- The list goes on behind the allocation, whose header is written.
unfoldable pub commit_block : Region → ℕ → ℕ → ℕ → ℕ → ℕ × ℕ × Words → Region
commit_block r requested previous current user_start (allocated_end, replacement, words) =
    let linked = set_link (record r { words = words }) previous replacement in
    record {
      state = counted linked.state (allocated_end - current);
      words = write_header linked.words (user_start - header_size) (record {
        magic = allocation_magic;
        block_start = current;
        block_size = allocated_end - current;
        requested_size = requested;
      });
    }

unfoldable pub take_block : Region → ℕ → ℕ → ℕ → ℕ → ℕ → ℕ → Region
take_block r requested previous current user_start block_end suffix =
    commit_block r requested previous current user_start
      (cut_block r.words suffix block_end (r.words (current + 8)))

-- A result of the search: `None`, or the offset of the allocation with the new state.
pub data Found : Type 0 where
  absent : Found
  found : ℕ → Region → Found

abbrev or_absent : Option ℕ → (ℕ → Found) → Found
or_absent none next = absent
or_absent (some n) next = next n

-- The loop over the free list; `none` is that the fuel ran out.
unfoldable pub find_block : ℕ → ℕ → ℕ → Region → ℕ → ℕ → Option Found
find_block zero requested alignment r previous current = none
find_block (suc fuel) requested alignment r previous current =
    let next = find_block fuel requested alignment r current (r.words (current + 8)) in
    if current == free_list_end
    then some absent
    else elim (fit_block requested alignment current (r.words current)) [
      | stop ↦ some absent
      | skip ↦ next
      | fit user_start end block_end ↦ some (
          or_absent (align_up end free_align) λ suffix.
            found user_start (take_block r requested previous current user_start block_end suffix))
    ]

unfoldable pub allocate_from_free_list : ℕ → Region → Layout → Option Found
allocate_from_free_list fuel r layout =
    find_block fuel (max layout.size 1) (max layout.align free_align) r free_list_end
      r.state.free_head

-- `GlobalAlloc::alloc` of a ReclaimingHeap at the address `base`, with the pointer that it returns.
unfoldable pub alloc : ℕ → ℕ → ℕ → Region → Layout → Option (ℕ × Region)
alloc fuel base capacity r layout =
    Option.map
      (λ result. elim result [
        | absent ↦ (
          0,
          record (initialize capacity r) {
            state = record (initialize capacity r).state {
              failed_allocations =
                  saturating_add (initialize capacity r).state.failed_allocations 1;
            };
          },
        )
        | found user_start r' ↦ (base + user_start, r')
      ])
      (allocate_from_free_list fuel (initialize capacity r) layout)
