-- ===== src/Heap/FirstFit.antt =====
-- What allocation of libs/heap-allocator/src/lib.rs does to the cells that tile the heap: the first
-- free cell that has room is cut into the allocation and what is left of it.
use codex_os.Prelude.{
  ℕ, suc, ◌+◌, ◌-◌, ◌*◌, ◌/◌, ◌^◌, ◌≤◌, ◌<◌, ◌≡◌, ◌≢◌, refl, List, [], ◌∷◌, true, false, Option,
  none, some, arith, ◌==◌, leb, max, saturating_add, in_range, if◌then◌else◌, Bool-cases, inl, inr,
  ◌||◌,
}
use codex_os.Heap.{Region, AllocatorState, free_list_end}
use codex_os.Heap.Cells.{
  Cell, free, used, total_size, used_size, used_count, in_use, Holds, AreApart, starts_free,
}

-- The offset that the program is given in a block at `start`: behind the header, rounded up to a
-- multiple of `2 ^ k`.
unfoldable pub user_in : ℕ → ℕ → ℕ
user_in k start = (start + 32 + (2 ^ k - 1)) / 2 ^ k * 2 ^ k

abbrev pub suffix_of : ℕ → ℕ → ℕ
suffix_of user requested = (user + requested + 7) / 8 * 8

-- A free cell of some size turned into an allocation, with a free cell behind it if one fits.
unfoldable pub place : ℕ → ℕ → ℕ → ℕ → List Cell → List Cell
place user requested start size cells =
    if leb (suffix_of user requested + 16) (start + size)
    then used (suffix_of user requested - start) user requested
      ∷ free (start + size - suffix_of user requested)
      ∷ cells
    else used size user requested ∷ cells

abbrev pub behind : Cell → Option (ℕ × List Cell) → Option (ℕ × List Cell)
behind c none = none
behind c (some (user, cells)) = some (user, c ∷ cells)

unfoldable pub first_fit : ℕ → ℕ → ℕ → List Cell → Option (ℕ × List Cell)
first_fit k requested start [] = none
first_fit k requested start (used size user asked ∷ cells) =
    behind (used size user asked) (first_fit k requested (start + size) cells)
first_fit k requested start (free size ∷ cells) =
    let rest = behind (free size) (first_fit k requested (start + size) cells) in
    if leb (user_in k start + requested) (start + size)
    then some (user_in k start, place (user_in k start) requested start size cells)
    else rest

-- What a search has found, from the block at `start` on, where `previous` is the free block before.
abbrev pub link_of : Region → ℕ → ℕ
link_of r previous = if previous == free_list_end then r.state.free_head else r.words (previous + 8)

pub record Counted (state state' : AllocatorState) (grown : ℕ) : Type 0 where
  pub initialized : state'.initialized ≡ state.initialized
  pub used_bytes : state'.used_bytes ≡ saturating_add state.used_bytes grown
  pub peak :
      state'.peak_used_bytes ≡ max state.peak_used_bytes (saturating_add state.used_bytes grown)
  pub live : state'.live_allocations ≡ saturating_add state.live_allocations 1
  pub total : state'.total_allocations ≡ saturating_add state.total_allocations 1
  pub deallocations : state'.total_deallocations ≡ state.total_deallocations
  pub failed : state'.failed_allocations ≡ state.failed_allocations

pub record Took (r r' : Region) (previous start : ℕ) (cells cells' : List Cell) : Type 0 where
  pub kept_below : (a : ℕ) → a < start → a ≢ previous + 8 → r'.words a ≡ r.words a
  pub kept_above : (a : ℕ) → start + total_size cells ≤ a → r'.words a ≡ r.words a
  pub kept_used : (a : ℕ) → in_use cells a ≡ true → r'.words a ≡ r.words a
  pub head_kept : previous ≢ free_list_end → r'.state.free_head ≡ r.state.free_head
  pub holds : Holds r'.words (link_of r' previous) start cells'
  pub grown : ℕ
  pub grows : used_size cells' ≡ used_size cells + grown
  pub counted : Counted r.state r'.state grown

-- On the cells themselves.
pub place_sums :
    (user requested start size : ℕ) (cells : List Cell)
    → start + 32 ≤ user
    → user + requested ≤ start + size
    → (total_size (place user requested start size cells) ≡ size + total_size cells)
      × (used_count (place user requested start size cells) ≡ suc (used_count cells))
unfolding place
place_sums user requested start size cells h e =
    elim (Bool-cases (leb (suffix_of user requested + 16) (start + size))) [
      | inl cut ↦ rw cut (ground arith, ground arith)
      | inr whole ↦ rw whole (ground arith, ground arith)
    ]

pub place-AreApart :
    (user requested start size : ℕ) (cells : List Cell)
    → AreApart (free size ∷ cells)
    → AreApart (place user requested start size cells)
unfolding place
place-AreApart user requested start size cells h =
    elim (Bool-cases (leb (suffix_of user requested + 16) (start + size))) [
      | inl cut ↦ rw cut h
      | inr whole ↦ rw whole h.1
    ]

pub place-starts_free :
    (user requested start size : ℕ) (cells : List Cell)
    → starts_free (place user requested start size cells) ≡ false
unfolding place
place-starts_free user requested start size cells =
    elim (Bool-cases (leb (suffix_of user requested + 16) (start + size))) [
      | inl cut ↦ rw cut refl
      | inr whole ↦ rw whole refl
    ]

pub place-used :
    (user requested start size : ℕ) (cells : List Cell)
    → used_size cells ≤ used_size (place user requested start size cells)
unfolding place
place-used user requested start size cells =
    elim (Bool-cases (leb (suffix_of user requested + 16) (start + size))) [
      | inl cut ↦ rw cut (omega arith)
      | inr whole ↦ rw whole (omega arith)
    ]

pub place-in_use :
    (user requested start size : ℕ) (cells : List Cell) (a : ℕ)
    → in_use (place user requested start size cells) a
      ≡ (in_range user requested a || in_use cells a)
unfolding place in_use
place-in_use user requested start size cells a =
    elim (Bool-cases (leb (suffix_of user requested + 16) (start + size))) [
      | inl cut ↦ rw cut refl
      | inr whole ↦ rw whole refl
    ]
