-- ===== src/BootInfo.antt =====
-- libs/bootinfo/src/lib.rs: the memory map and the table of reserved ranges that the loader hands
-- to the kernel. The framebuffer and the kernel image records of `BootInfo` are left out: the
-- operations modelled here do not read them.
pub mod Reserve
use codex_os.Prelude.{
  ℕ, zero, suc, ◌+◌, ◌==◌, List, [], ◌∷◌, Bool, true, false, ◌&&◌, Option, none, some, leb, take,
  set, push_front, if◌then◌else◌, saturating_add, saturating_mul,
}
use mathlib.Core.List.{foldl}

abbrev pub page_size : ℕ
page_size = 4096

abbrev pub max_memory_regions : ℕ
max_memory_regions = 128

abbrev pub max_reserved_memory_ranges : ℕ
max_reserved_memory_ranges = 16

pub data MemoryRegionKind : Type 0 where
  reserved loader_code loader_data boot_services_code boot_services_data : MemoryRegionKind
  runtime_services_code runtime_services_data conventional unusable : MemoryRegionKind
  acpi_reclaim acpi_non_volatile mmio mmio_port_space pal_code : MemoryRegionKind
  persistent_memory unaccepted unknown : MemoryRegionKind

abbrev pub is_reclaimable_by_kernel : MemoryRegionKind → Bool
is_reclaimable_by_kernel conventional = true
is_reclaimable_by_kernel loader_code = true
is_reclaimable_by_kernel loader_data = true
is_reclaimable_by_kernel boot_services_code = true
is_reclaimable_by_kernel boot_services_data = true
is_reclaimable_by_kernel acpi_reclaim = true
is_reclaimable_by_kernel _ = false

pub data FirmwareMode : Type 0 where
  uefi_boot_services post_exit_boot_services : FirmwareMode

abbrev uefi_usable : MemoryRegionKind → Bool
uefi_usable conventional = true
uefi_usable loader_code = true
uefi_usable loader_data = true
uefi_usable _ = false

abbrev pub region_is_currently_usable : FirmwareMode → MemoryRegionKind → Bool
region_is_currently_usable uefi_boot_services kind = uefi_usable kind
region_is_currently_usable post_exit_boot_services kind = is_reclaimable_by_kernel kind

pub data ReservedMemoryKind : Type 0 where
  low_memory loader_image frame_buffer memory_map kernel_image_load : ReservedMemoryKind
  runtime_heap kernel_heap descriptor_tables page_tables unknown : ReservedMemoryKind

-- The `repr(u32)` values, by which the derived equality compares.
abbrev pub discriminant : ReservedMemoryKind → ℕ
discriminant low_memory = 0
discriminant loader_image = 1
discriminant frame_buffer = 2
discriminant memory_map = 3
discriminant kernel_image_load = 4
discriminant runtime_heap = 5
discriminant kernel_heap = 6
discriminant descriptor_tables = 7
discriminant page_tables = 8
discriminant unknown = 0xffff_ffff

pub record MemoryRegion : Type 0 where
  pub start : ℕ
  pub page_count : ℕ
  pub kind : MemoryRegionKind
  pub attributes : ℕ

abbrev pub size_bytes : MemoryRegion → ℕ
size_bytes region = saturating_mul region.page_count page_size

pub record ReservedMemoryRange : Type 0 where
  pub start : ℕ
  pub length : ℕ
  pub kind : ReservedMemoryKind

abbrev pub range_end : ReservedMemoryRange → ℕ
range_end range = saturating_add range.start range.length

-- The two arrays have the lengths `max_memory_regions` and `max_reserved_memory_ranges`.
pub record BootInfo : Type 0 where
  pub firmware_mode : FirmwareMode
  pub runtime_hhdm_base : ℕ
  pub memory_region_count : ℕ
  pub memory_region_total : ℕ
  pub memory_regions : List MemoryRegion
  pub reserved_memory_count : ℕ
  pub reserved_memory : List ReservedMemoryRange

abbrev pub min_count : ℕ → ℕ → ℕ
min_count count limit = if leb count limit then count else limit

unfoldable pub listed_regions : BootInfo → List MemoryRegion
listed_regions info =
    take (min_count info.memory_region_count max_memory_regions) info.memory_regions

unfoldable pub listed_reserved : BootInfo → List ReservedMemoryRange
listed_reserved info =
    take (min_count info.reserved_memory_count max_reserved_memory_ranges) info.reserved_memory

unfoldable pub total_memory_bytes : BootInfo → ℕ
unfolding listed_regions
total_memory_bytes info =
    foldl (λ sum region. saturating_add sum (size_bytes region)) 0 (listed_regions info)

unfoldable pub usable_memory_bytes : BootInfo → ℕ
unfolding listed_regions
usable_memory_bytes info =
    foldl
      (λ sum region.
        if region_is_currently_usable info.firmware_mode region.kind
        then saturating_add sum (size_bytes region)
        else sum)
      0 (listed_regions info)

unfoldable pub reserved_memory_bytes : BootInfo → ℕ
unfolding listed_reserved
reserved_memory_bytes info =
    foldl (λ sum range. saturating_add sum range.length) 0 (listed_reserved info)

find_kind : ReservedMemoryKind → List ReservedMemoryRange → Option ReservedMemoryRange
find_kind kind [] = none
find_kind kind (range ∷ ranges) =
    if discriminant range.kind == discriminant kind then some range else find_kind kind ranges

unfoldable pub reserved_range : BootInfo → ReservedMemoryKind → Option ReservedMemoryRange
unfolding find_kind listed_reserved
reserved_range info kind = find_kind kind (listed_reserved info)

-- The first of the `count` ranges of that kind that ends at `start`, made longer.
extend_first :
    ℕ → ReservedMemoryKind → ℕ → ℕ → List ReservedMemoryRange → Option (List ReservedMemoryRange)
extend_first zero kind start length ranges = none
extend_first (suc count) kind start length [] = none
extend_first (suc count) kind start length (range ∷ ranges) =
    if (discriminant range.kind == discriminant kind) && (range_end range == start)
    then some (record range { length = saturating_add range.length length } ∷ ranges)
    else push_front range (extend_first count kind start length ranges)

append_range : BootInfo → ReservedMemoryRange → BootInfo × Bool
append_range info range =
    if leb max_reserved_memory_ranges info.reserved_memory_count then (info, false) else (
      record info {
        reserved_memory = set info.reserved_memory info.reserved_memory_count range;
        reserved_memory_count = info.reserved_memory_count + 1;
      },
      true,
    )

-- `none` is the panic of slicing `reserved_memory[..count]` beyond the array.
unfoldable pub reserve_memory : BootInfo → ℕ → ℕ → ReservedMemoryKind → Option (BootInfo × Bool)
unfolding extend_first append_range
reserve_memory info start length kind =
    if length == 0
    then some (info, false)
    else if leb info.reserved_memory_count max_reserved_memory_ranges
    then elim (extend_first info.reserved_memory_count kind start length info.reserved_memory) [
      | some ranges ↦ some (record info { reserved_memory = ranges }, true)
      | none ↦ some (append_range info (record { start = start; length = length; kind = kind }))
    ]
    else none
