-- ===== src/Heap/Release/Freed.antt =====
-- What a release in libs/heap-allocator/src/lib.rs does to the cells that tile the heap: the block
-- becomes free, and one with the free blocks that it touches.
use codex_os.Prelude.{ℕ, ◌+◌, ◌≤◌, ◌<◌, ◌≡◌, ◌≢◌, List, [], ◌∷◌, true}
use codex_os.Heap.{Words, Region, free_list_end}
use codex_os.Heap.Cells.{Cell, free, used, total_size, in_use, IsFree, IsUsed, Holds}
use codex_os.Heap.FirstFit.{link_of}

-- A free cell before others, as one with the first of them if that is free.
unfoldable pub cons_free : ℕ → List Cell → List Cell
cons_free size [] = free size ∷ []
cons_free size (free more ∷ cells) = free (size + more) ∷ cells
cons_free size (used more user requested ∷ cells) = free size ∷ used more user requested ∷ cells

-- The cells after the one between `before` and `after`, of some size, was released.
unfoldable pub freed : List Cell → ℕ → List Cell → List Cell
unfolding cons_free
freed [] size after = cons_free size after
freed (used more user requested ∷ before) size after =
    used more user requested ∷ freed before size after
freed (free more ∷ []) size after = cons_free (more + size) after
freed (free more ∷ c ∷ before) size after = free more ∷ freed (c ∷ before) size after

-- The memory holds the cells around a block at `start + total_size before`, whatever that holds.
abbrev pub HoldsAround : Words → ℕ → ℕ → List Cell → ℕ → List Cell → Type 0
HoldsAround words head start [] size after = Holds words head (start + size) after
HoldsAround words head start (free more ∷ before) size after =
    IsFree words head start more
    × HoldsAround words (words (start + 8)) (start + more) before size after
HoldsAround words head start (used more user requested ∷ before) size after =
    IsUsed words start more user requested × HoldsAround words head (start + more) before size after

-- The memory after the block was put into the list, from the cell at `start` on, where `previous` is
-- the free block before.
pub record Inserted (r r' : Region) (previous start : ℕ) (before : List Cell) (size : ℕ)
    (after cells' : List Cell) : Type 0 where
  pub kept_below : (a : ℕ) → a < start → a ≢ previous + 8 → r'.words a ≡ r.words a
  pub kept_above :
      (a : ℕ) → start + total_size before + size + total_size after ≤ a → r'.words a ≡ r.words a
  pub kept_before : (a : ℕ) → in_use before a ≡ true → r'.words a ≡ r.words a
  pub kept_after : (a : ℕ) → in_use after a ≡ true → r'.words a ≡ r.words a
  pub head_kept : previous ≢ free_list_end → r'.state.free_head ≡ r.state.free_head
  pub others : r'.state ≡ record r.state { free_head = r'.state.free_head }
  pub holds : Holds r'.words (link_of r' previous) start cells'
