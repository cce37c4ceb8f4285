-- ===== src/Tests/Boot.antt =====
-- A boot information of libs/bootinfo/src/lib.rs with one region and one reserved range.
use codex_os.Prelude.{
  ◌≡◌, refl, ◌==◌, ◌∷◌, Bool, true, false, ◌&&◌, ◌||◌, some, arith, replicate, in_range,
}
use codex_os.BootInfo.{
  BootInfo, MemoryRegion, ReservedMemoryRange, conventional, uefi_boot_services, runtime_heap,
  reserve_memory, discriminant,
}
use codex_os.BootInfo.Reserve.{
  IsWellFormed, is_reserved, reserve_memory-IsWellFormed, reserve_memory_adds,
}

abbrev region : MemoryRegion
region = record { start = 0x10_0000; page_count = 8; kind = conventional; attributes = 0 }

abbrev range : ReservedMemoryRange
range = record { start = 0x10_0000; length = 4096; kind = runtime_heap }

abbrev unused : ReservedMemoryRange
unused = record { start = 0; length = 0; kind = runtime_heap }

abbrev small : BootInfo
small = record {
  firmware_mode = uefi_boot_services;
  runtime_hhdm_base = 0;
  memory_region_count = 1;
  memory_region_total = 1;
  memory_regions = replicate 128 region;
  reserved_memory_count = 1;
  reserved_memory = range ∷ replicate 15 unused;
}

small-IsWellFormed : IsWellFormed small
small-IsWellFormed = (omega arith, refl)

reserve_memory-IsWellFormed_example :
    (after : BootInfo) × (done : Bool) × (reserve_memory small 0x10_1000 4096 runtime_heap
      ≡ some (after, done))
    × IsWellFormed after
    × (done ≡ false → after ≡ small)
reserve_memory-IsWellFormed_example =
    reserve_memory-IsWellFormed small 0x10_1000 4096 runtime_heap small-IsWellFormed

-- The range grown by the page behind it.
abbrev grown : BootInfo
grown = record small { reserved_memory = record range { length = 8192 } ∷ replicate 15 unused }

grows : reserve_memory small 0x10_1000 4096 runtime_heap ≡ some (grown, true)
unfolding reserve_memory
grows = refl

reserve_memory_adds_example : is_reserved grown runtime_heap 0x10_1800 ≡ (
    is_reserved small runtime_heap 0x10_1800
    || ((discriminant runtime_heap == discriminant runtime_heap)
        && in_range 0x10_1000 4096 0x10_1800))
reserve_memory_adds_example =
    reserve_memory_adds small grown 0x10_1000 4096 runtime_heap runtime_heap 0x10_1800
      small-IsWellFormed (omega arith) grows
