-- ===== src/Heap/Cells.antt =====
-- The abstract view of the heap of libs/heap-allocator/src/lib.rs: the blocks that tile its region, in
-- the order of their addresses, and how the words in memory hold them.
use codex_os.Prelude.{
  ℕ, suc, ◌+◌, ◌-◌, ◌%◌, ◌≤◌, ◌<◌, ◌≡◌, ◌⊎◌, inl, inr, ◌∙◌, List, [], ◌∷◌, Bool, true, false, ◌||◌,
  arith, in_range, in_range→bounds, Bool-cases, length,
}
use codex_os.Heap.{Words, Region, free_list_end, allocation_magic, header_size, free_block_size}

-- A free block with its size, or an allocated one with its size, the offset that the program was given
-- and the bytes that it asked for.
pub data Cell : Type 0 where
  free : ℕ → Cell
  used : ℕ → ℕ → ℕ → Cell

abbrev pub cell_size : Cell → ℕ
cell_size (free size) = size
cell_size (used size user requested) = size

abbrev pub total_size : List Cell → ℕ
total_size [] = 0
total_size (c ∷ cells) = cell_size c + total_size cells

abbrev pub used_size : List Cell → ℕ
used_size [] = 0
used_size (free size ∷ cells) = used_size cells
used_size (used size user requested ∷ cells) = size + used_size cells

abbrev pub used_count : List Cell → ℕ
used_count [] = 0
used_count (free size ∷ cells) = used_count cells
used_count (used size user requested ∷ cells) = suc (used_count cells)

-- A word inside what a program was given.
unfoldable pub in_use : List Cell → ℕ → Bool
in_use [] a = false
in_use (free size ∷ cells) a = in_use cells a
in_use (used size user requested ∷ cells) a = in_range user requested a || in_use cells a

pub record IsFree (words : Words) (head start size : ℕ) : Type 0 where
  pub linked : head ≡ start
  pub sized : words start ≡ size
  pub holds_links : free_block_size ≤ size
  pub size_aligned : size % 8 ≡ 0

pub record IsUsed (words : Words) (start size user requested : ℕ) : Type 0 where
  pub header_inside : start + header_size ≤ user
  pub user_inside : user + requested ≤ start + size
  pub asked : 0 < requested
  pub size_aligned : size % 8 ≡ 0
  pub user_aligned : user % 8 ≡ 0
  pub magic : words (user - 32) ≡ allocation_magic
  pub block_start : words (user - 24) ≡ start
  pub block_size : words (user - 16) ≡ size
  pub requested_size : words (user - 8) ≡ requested

-- From the offset `start` on, the memory holds the cells, and `head` is where its free list begins.
abbrev pub Holds : Words → ℕ → ℕ → List Cell → Type 0
Holds words head start [] = head ≡ free_list_end
Holds words head start (free size ∷ cells) =
    IsFree words head start size × Holds words (words (start + 8)) (start + size) cells
Holds words head start (used size user requested ∷ cells) =
    IsUsed words start size user requested × Holds words head (start + size) cells

-- No two free blocks touch.
abbrev pub starts_free : List Cell → Bool
starts_free (free size ∷ cells) = true
starts_free _ = false

abbrev pub AreApart : List Cell → Type 0
AreApart [] = Unit
AreApart (free size ∷ cells) = (starts_free cells ≡ false) × AreApart cells
AreApart (used size user requested ∷ cells) = AreApart cells

-- Two memories that agree from one offset up to another.
pub record Agree (start end : ℕ) (words words' : Words) : Type 0 where
  pub at : (a : ℕ) → start ≤ a → a < end → words' a ≡ words a

pub Holds-Agree :
    (words words' : Words) (head start : ℕ) (cells : List Cell)
    → Holds words head start cells
    → Agree start (start + total_size cells) words words'
    → Holds words' head start cells
Holds-Agree words words' head start [] h e = h
Holds-Agree words words' head start (free size ∷ cells) (f, h) e = (
  record {
    linked = f.linked;
    sized = e.at start (omega arith) (omega (arith, f.holds_links)) ∙ f.sized;
    holds_links = f.holds_links;
    size_aligned = f.size_aligned;
  },
  Holds-Agree words words' (words' (start + 8)) (start + size) cells
      (rw (e.at (start + 8) (omega arith) (omega (arith, f.holds_links))) h)
      (record { at = λ a low high. e.at a (omega arith) (omega arith) }),
)
Holds-Agree words words' head start (used size user requested ∷ cells) (u, h) e =
    let inside = u.header_inside in
    let ends = u.user_inside in
    let some = u.asked in
    (
      record {
        header_inside = u.header_inside;
        user_inside = u.user_inside;
        asked = u.asked;
        size_aligned = u.size_aligned;
        user_aligned = u.user_aligned;
        magic = e.at (user - 32) (omega arith) (omega arith) ∙ u.magic;
        block_start = e.at (user - 24) (omega arith) (omega arith) ∙ u.block_start;
        block_size = e.at (user - 16) (omega arith) (omega arith) ∙ u.block_size;
        requested_size = e.at (user - 8) (omega arith) (omega arith) ∙ u.requested_size;
      },
      Holds-Agree words words' head (start + size) cells h
          (record { at = λ a low high. e.at a (omega arith) (omega arith) }),
    )

-- The list of free blocks starts within the cells, or is empty.
pub Holds-head :
    (words : Words) (head start : ℕ) (cells : List Cell)
    → Holds words head start cells
    → (head ≡ free_list_end) ⊎ ((start ≤ head) × (head < start + total_size cells))
Holds-head words head start [] h = inl h
Holds-head words head start (free size ∷ cells) (f, h) =
    inr (omega (arith, f.linked), omega (arith, f.linked, f.holds_links))
Holds-head words head start (used size user requested ∷ cells) (u, h) =
    elim (Holds-head words head (start + size) cells h) [
      | inl none ↦ inl none
      | inr (low, high) ↦ inr (omega arith, omega arith)
    ]

-- What programs were given lies behind the first header.
pub in_use-bounds :
    (words : Words) (head start : ℕ) (cells : List Cell) (a : ℕ)
    → Holds words head start cells
    → in_use cells a ≡ true
    → (start + 32 ≤ a) × (a < start + total_size cells)
unfolding in_use
in_use-bounds words head start [] a h t = absurd cc
in_use-bounds words head start (free size ∷ cells) a (f, h) t =
    let (low, high) = in_use-bounds words (words (start + 8)) (start + size) cells a h t in
    (omega arith, omega arith)
in_use-bounds words head start (used size user requested ∷ cells) a (u, h) t =
    let inside = u.header_inside in
    let ends = u.user_inside in
    elim (Bool-cases (in_range user requested a)) [
      | inl here ↦
          let (low, high) = in_range→bounds user requested a here in (omega arith, omega arith)
      | inr elsewhere ↦
          let (low, high) = in_use-bounds words head (start + size) cells a h (rw elsewhere at t) in
          (omega arith, omega arith)
    ]

-- There are no more cells than bytes.
pub length-le-total :
    (words : Words) (head start : ℕ) (cells : List Cell)
    → Holds words head start cells
    → length cells ≤ total_size cells
length-le-total words head start [] h = omega arith
length-le-total words head start (free size ∷ cells) (f, h) =
    omega (arith, f.holds_links, length-le-total words (words (start + 8)) (start + size) cells h)
length-le-total words head start (used size user requested ∷ cells) (u, h) =
    omega (arith, u.header_inside, u.user_inside, length-le-total words head (start + size) cells h)

-- A heap of some capacity in its memory, tiled by cells: the free list holds the free ones, no two of
-- which touch, and the counters count the others.
pub record IsHeap (capacity : ℕ) (r : Region) (cells : List Cell) : Type 0 where
  pub initialized : r.state.initialized ≡ true
  pub holds : Holds r.words r.state.free_head 0 cells
  pub tiled : total_size cells ≡ capacity
  pub apart : AreApart cells
  pub used_bytes : r.state.used_bytes ≡ used_size cells
  pub peak : used_size cells ≤ r.state.peak_used_bytes
  pub live : r.state.live_allocations ≡ used_count cells
