-- ===== src/Memory/Init/Usable.antt =====
-- `init` of kernel/src/memory.rs as a whole.
use codex_os.Prelude.{
  ℕ, ◌≡◌, leb, ltb, List, [], ◌∷◌, Bool, true, false, not, ◌&&◌, ◌||◌, in_range, any,
  saturating_add,
}
use codex_os.BootInfo.{BootInfo, FirmwareMode, MemoryRegion, ReservedMemoryRange, size_bytes}
use codex_os.Memory.Init.{is_skipped}

abbrev pub in_region : MemoryRegion → ℕ → Bool
in_region r a = leb r.start a && ltb a (saturating_add r.start (size_bytes r))

-- The address is in a region of the memory map that the firmware mode lets the kernel use.
unfoldable pub usable : FirmwareMode → List MemoryRegion → ℕ → Bool
usable mode [] a = false
usable mode (r ∷ rs) a = (not (is_skipped mode r) && in_region r a) || usable mode rs a

-- No address is in two usable regions of the map.
abbrev pub MapDisjoint : FirmwareMode → List MemoryRegion → Type 0
MapDisjoint mode [] = Unit {0}
MapDisjoint mode (r ∷ rs) =
    ((a : ℕ) → (not (is_skipped mode r) && in_region r a) ≡ true → usable mode rs a ≡ false)
    × MapDisjoint mode rs

-- The address is in one of the reserved ranges.
abbrev pub reserved_at : List ReservedMemoryRange → ℕ → Bool
reserved_at reserved a = any (λ r. in_range r.start r.length a) reserved
