-- ===== src/Heap.antt =====
-- libs/heap-allocator/src/lib.rs: a heap over a region of memory, whose free blocks hold the list of
-- free blocks. The memory is the 64-bit word at each multiple of 8 from the base of the region. What
-- the locks protect is a step here: each operation holds its lock from the first access to the last.
pub mod Cells
pub mod FirstFit
pub mod Allocate
pub mod Release
pub mod Expandable
pub mod Stats
pub mod Lifecycle
use mathlib.Core.Option
use codex_os.Prelude.{
  ℕ, zero, suc, ◌+◌, ◌-◌, ◌≤◌, ◌==◌, ltb, leb, max, Bool, true, false, not, ◌&&◌, ◌||◌, Option,
  none, some, ◌%◌, bit_and, u64_max, saturating_add, saturating_sub, checked_add, if◌then◌else◌,
}

-- `usize::MAX`.
abbrev pub free_list_end : ℕ
free_list_end = 0xffff_ffff_ffff_ffff

abbrev pub allocation_magic : ℕ
allocation_magic = 0x4344_5848_4541_5031

-- `size_of::<AllocationHeader>()`.
abbrev pub header_size : ℕ
header_size = 32

-- `size_of::<FreeBlock>()`.
abbrev pub free_block_size : ℕ
free_block_size = 16

-- The alignment of both.
abbrev pub free_align : ℕ
free_align = 8

pub record HeapStats : Type 0 where
  pub capacity_bytes : ℕ
  pub used_bytes : ℕ
  pub peak_used_bytes : ℕ
  pub free_bytes : ℕ
  pub largest_free_block : ℕ
  pub live_allocations : ℕ
  pub total_allocations : ℕ
  pub total_deallocations : ℕ
  pub failed_allocations : ℕ

pub record FreeBlock : Type 0 where
  pub size : ℕ
  pub next : ℕ

pub record AllocationHeader : Type 0 where
  pub magic : ℕ
  pub block_start : ℕ
  pub block_size : ℕ
  pub requested_size : ℕ

pub record AllocatorState : Type 0 where
  pub initialized : Bool
  pub free_head : ℕ
  pub used_bytes : ℕ
  pub peak_used_bytes : ℕ
  pub live_allocations : ℕ
  pub total_allocations : ℕ
  pub total_deallocations : ℕ
  pub failed_allocations : ℕ

-- `AllocatorState::new`.
abbrev pub new : AllocatorState
new = record {
  initialized = false;
  free_head = free_list_end;
  used_bytes = 0;
  peak_used_bytes = 0;
  live_allocations = 0;
  total_allocations = 0;
  total_deallocations = 0;
  failed_allocations = 0;
}

abbrev pub Words : Type 0
Words = ℕ → ℕ

-- The state of a heap and the memory behind its base.
pub record Region : Type 0 where
  pub state : AllocatorState
  pub words : Words

pub record Layout : Type 0 where
  pub size : ℕ
  pub align : ℕ

unfoldable pub write : Words → ℕ → ℕ → Words
write words offset value at = if at == offset then value else words at

abbrev pub read_free_block : Words → ℕ → FreeBlock
read_free_block words offset = record { size = words offset; next = words (offset + 8) }

abbrev pub write_free_block : Words → ℕ → FreeBlock → Words
write_free_block words offset block = write (write words offset block.size) (offset + 8) block.next

abbrev pub read_header : Words → ℕ → AllocationHeader
read_header words offset = record {
  magic = words offset;
  block_start = words (offset + 8);
  block_size = words (offset + 16);
  requested_size = words (offset + 24);
}

abbrev pub write_header : Words → ℕ → AllocationHeader → Words
write_header words offset header =
    write
      (write (write (write words offset header.magic) (offset + 8) header.block_start) (offset + 16)
        header.block_size)
      (offset + 24) header.requested_size

unfoldable pub align_up : ℕ → ℕ → Option ℕ
align_up value alignment =
    Option.map (λ aligned. bit_and aligned (u64_max - (alignment - 1)))
      (checked_add value (alignment - 1))

unfoldable pub initialize : ℕ → Region → Region
initialize capacity r = if r.state.initialized then r else record {
  state = record r.state { free_head = 0; initialized = true };
  words = write_free_block r.words 0 (record { size = capacity; next = free_list_end });
}

-- The sums over the free list, which region_stats and ReclaimingHeap::stats compute alike.
unfoldable pub free_sums : ℕ → Words → ℕ → ℕ → ℕ → Option (ℕ × ℕ)
free_sums zero words current free_bytes largest = none
free_sums (suc fuel) words current free_bytes largest =
    let rest =
      free_sums fuel words (words (current + 8)) (saturating_add free_bytes (words current))
        (max largest (words current)) in
    if current == free_list_end then some (free_bytes, largest) else rest

abbrev pub stats_of : AllocatorState → ℕ → ℕ × ℕ → HeapStats
stats_of state capacity (free_bytes, largest) = record {
  capacity_bytes = capacity;
  used_bytes = state.used_bytes;
  peak_used_bytes = state.peak_used_bytes;
  free_bytes = free_bytes;
  largest_free_block = largest;
  live_allocations = state.live_allocations;
  total_allocations = state.total_allocations;
  total_deallocations = state.total_deallocations;
  failed_allocations = state.failed_allocations;
}

unfoldable pub region_stats : ℕ → Region → ℕ → Option HeapStats
region_stats fuel r capacity =
    Option.map (stats_of r.state capacity) (free_sums fuel r.words r.state.free_head 0 0)

-- `ReclaimingHeap::stats`.
unfoldable pub reclaiming_stats : ℕ → ℕ → Region → Region × Option HeapStats
reclaiming_stats fuel n r = let ready = initialize n r in (ready, region_stats fuel ready n)

-- Stores the successor of a free block, or the head of the list where there is no block before.
unfoldable pub set_link : Region → ℕ → ℕ → Region
set_link r previous next =
    if previous == free_list_end
    then record r { state = record r.state { free_head = next } }
    else record r { words = write r.words (previous + 8) next }
