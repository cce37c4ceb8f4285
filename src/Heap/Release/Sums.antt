-- ===== src/Heap/Release/Sums.antt =====
-- What a release in libs/heap-allocator/src/lib.rs leaves unchanged, on the cells alone, and the cells
-- around the one that is released.
use codex_os.Prelude.{
  ℕ, suc, ◌+◌, ◌≤◌, ◌<◌, ◌≡◌, refl, sym, ◌∙◌, List, [], ◌∷◌, ◌++◌, true, arith, ◌||◌, or_assoc,
  in_range, in_range→bounds, Bool-cases, inl, inr,
}
use codex_os.Heap.{Words, free_list_end}
use codex_os.Heap.Cells.{
  Cell, free, used, total_size, used_size, used_count, in_use, in_use-bounds, IsUsed, Holds,
  Holds-Agree, Agree, AreApart,
}
use codex_os.Heap.Release.Freed.{cons_free, freed, HoldsAround}

cons_free-total :
    (size : ℕ) (cells : List Cell) → total_size (cons_free size cells) ≡ size + total_size cells
unfolding cons_free
cons_free-total size [] = refl
cons_free-total size (free more ∷ cells) = omega arith
cons_free-total size (used more user asked ∷ cells) = refl

cons_free-used : (size : ℕ) (cells : List Cell) → used_size (cons_free size cells) ≡ used_size cells
unfolding cons_free
cons_free-used size [] = refl
cons_free-used size (free more ∷ cells) = refl
cons_free-used size (used more user asked ∷ cells) = refl

cons_free-count :
    (size : ℕ) (cells : List Cell) → used_count (cons_free size cells) ≡ used_count cells
unfolding cons_free
cons_free-count size [] = refl
cons_free-count size (free more ∷ cells) = refl
cons_free-count size (used more user asked ∷ cells) = refl

cons_free-in_use :
    (size : ℕ) (cells : List Cell) (a : ℕ) → in_use (cons_free size cells) a ≡ in_use cells a
unfolding cons_free in_use
cons_free-in_use size [] a = refl
cons_free-in_use size (free more ∷ cells) a = refl
cons_free-in_use size (used more user asked ∷ cells) a = refl

cons_free-AreApart :
    (size : ℕ) (cells : List Cell) → AreApart cells → AreApart (cons_free size cells)
unfolding cons_free
cons_free-AreApart size [] h = (refl, h)
cons_free-AreApart size (free more ∷ cells) h = h
cons_free-AreApart size (used more user asked ∷ cells) h = (refl, h)

pub freed-total :
    (before : List Cell) (size : ℕ) (after : List Cell)
    → total_size (freed before size after) ≡ total_size before + size + total_size after
unfolding freed
freed-total [] size after = omega (arith, cons_free-total size after)
freed-total (used more user asked ∷ before) size after =
    omega (arith, freed-total before size after)
freed-total (free more ∷ []) size after = omega (arith, cons_free-total (more + size) after)
freed-total (free more ∷ c ∷ before) size after = omega (arith, freed-total (c ∷ before) size after)

pub freed-used :
    (before : List Cell) (size : ℕ) (after : List Cell)
    → used_size (freed before size after) ≡ used_size before + used_size after
unfolding freed
freed-used [] size after = omega (arith, cons_free-used size after)
freed-used (used more user asked ∷ before) size after = omega (arith, freed-used before size after)
freed-used (free more ∷ []) size after = omega (arith, cons_free-used (more + size) after)
freed-used (free more ∷ c ∷ before) size after = freed-used (c ∷ before) size after

pub freed-count :
    (before : List Cell) (size : ℕ) (after : List Cell)
    → used_count (freed before size after) ≡ used_count before + used_count after
unfolding freed
freed-count [] size after = omega (arith, cons_free-count size after)
freed-count (used more user asked ∷ before) size after =
    omega (arith, freed-count before size after)
freed-count (free more ∷ []) size after = omega (arith, cons_free-count (more + size) after)
freed-count (free more ∷ c ∷ before) size after = freed-count (c ∷ before) size after

pub freed-in_use :
    (before : List Cell) (size : ℕ) (after : List Cell) (a : ℕ)
    → in_use (freed before size after) a ≡ (in_use before a || in_use after a)
unfolding freed in_use
freed-in_use [] size after a = cons_free-in_use size after a
freed-in_use (used more user asked ∷ before) size after a =
    rw (freed-in_use before size after a)
      (sym (or_assoc (in_range user asked a) (in_use before a) (in_use after a)))
freed-in_use (free more ∷ []) size after a = cons_free-in_use (more + size) after a
freed-in_use (free more ∷ c ∷ before) size after a = freed-in_use (c ∷ before) size after a

pub freed-AreApart :
    (before : List Cell) (size user asked : ℕ) (after : List Cell)
    → AreApart (before ++ used size user asked ∷ after)
    → AreApart (freed before size after)
unfolding freed
freed-AreApart [] size user asked after h = cons_free-AreApart size after h
freed-AreApart (used more v n ∷ before) size user asked after h =
    freed-AreApart before size user asked after h
freed-AreApart (free more ∷ []) size user asked after (e, h) =
    cons_free-AreApart (more + size) after h
freed-AreApart (free more ∷ free extra ∷ before) size user asked after (e, h) = absurd cc
freed-AreApart (free more ∷ used extra v n ∷ before) size user asked after (e, h) =
    (refl, freed-AreApart (used extra v n ∷ before) size user asked after h)

-- The sums before the release.
pub around-total :
    (before : List Cell) (size user asked : ℕ) (after : List Cell)
    → total_size (before ++ used size user asked ∷ after)
      ≡ total_size before + size + total_size after
around-total [] size user asked after = omega arith
around-total (free more ∷ before) size user asked after =
    omega (arith, around-total before size user asked after)
around-total (used more v n ∷ before) size user asked after =
    omega (arith, around-total before size user asked after)

pub around-used :
    (before : List Cell) (size user asked : ℕ) (after : List Cell)
    → used_size (before ++ used size user asked ∷ after) ≡ used_size before + size + used_size after
around-used [] size user asked after = omega arith
around-used (free more ∷ before) size user asked after = around-used before size user asked after
around-used (used more v n ∷ before) size user asked after =
    omega (arith, around-used before size user asked after)

pub around-count :
    (before : List Cell) (size user asked : ℕ) (after : List Cell)
    → used_count (before ++ used size user asked ∷ after)
      ≡ suc (used_count before + used_count after)
around-count [] size user asked after = omega arith
around-count (free more ∷ before) size user asked after = around-count before size user asked after
around-count (used more v n ∷ before) size user asked after =
    omega (arith, around-count before size user asked after)

-- The cell in the middle, and the memory around it.
pub Holds-around :
    (words : Words) (head start : ℕ) (before : List Cell) (size user asked : ℕ) (after : List Cell)
    → Holds words head start (before ++ used size user asked ∷ after)
    → IsUsed words (start + total_size before) size user asked
      × HoldsAround words head start before size after
Holds-around words head start [] size user asked after (u, h) =
    let e : start ≡ start + 0 = omega arith in (rw (← e) u, h)
Holds-around words head start (free more ∷ before) size user asked after (f, h) =
    let (u, rest) =
      Holds-around words (words (start + 8)) (start + more) before size user asked after h in
    let e : start + (more + total_size before) ≡ start + more + total_size before = omega arith in
    (rw e u, (f, rest))
Holds-around words head start (used more v n ∷ before) size user asked after (w, h) =
    let (u, rest) = Holds-around words head (start + more) before size user asked after h in
    let e : start + (more + total_size before) ≡ start + more + total_size before = omega arith in
    (rw e u, (w, rest))

-- It does not matter what stands in the middle.
pub HoldsAround-Agree :
    (words words' : Words) (head start : ℕ) (before : List Cell) (size : ℕ) (after : List Cell)
    → HoldsAround words head start before size after
    → Agree start (start + total_size before) words words'
    → Agree
        (start + total_size before + size)
        (start + total_size before + size + total_size after)
        words
        words'
    → HoldsAround words' head start before size after
HoldsAround-Agree words words' head start [] size after h low high =
    Holds-Agree words words' head (start + size) after h
      (record { at = λ a l k. high.at a (omega arith) (omega arith) })
HoldsAround-Agree words words' head start (free more ∷ before) size after (f, h) low high =
    let own = f.holds_links in
    (
      record {
        linked = f.linked;
        sized = low.at start (omega arith) (omega arith) ∙ f.sized;
        holds_links = f.holds_links;
        size_aligned = f.size_aligned;
      },
      rw (low.at (start + 8) (omega arith) (omega arith)) (
          HoldsAround-Agree words words' (words (start + 8)) (start + more) before size after h
            (record { at = λ a l k. low.at a (omega arith) (omega arith) })
            (record { at = λ a l k. high.at a (omega arith) (omega arith) })),
    )
HoldsAround-Agree words words' head start (used more v n ∷ before) size after (u, h) low high =
    let (u', last) =
      Holds-Agree words words' free_list_end start (used more v n ∷ []) (u, refl)
        (record { at = λ a l k. low.at a l (omega arith) }) in
    (
      u',
      HoldsAround-Agree words words' head (start + more) before size after h
          (record { at = λ a l k. low.at a (omega arith) (omega arith) })
          (record { at = λ a l k. high.at a (omega arith) (omega arith) }),
    )

-- Where the bytes in use lie that stand before and after it.
pub in_use-before :
    (words : Words) (head start : ℕ) (before : List Cell) (size : ℕ) (after : List Cell) (a : ℕ)
    → HoldsAround words head start before size after
    → in_use before a ≡ true
    → a < start + total_size before
unfolding in_use
in_use-before words head start [] size after a h e = absurd cc
in_use-before words head start (free more ∷ before) size after a (f, h) e =
    omega (arith, in_use-before words (words (start + 8)) (start + more) before size after a h e)
in_use-before words head start (used more v n ∷ before) size after a (u, h) e =
    let ends = u.user_inside in
    elim (Bool-cases (in_range v n a)) [
      | inl here ↦ let (low, high) = in_range→bounds v n a here in omega arith
      | inr elsewhere ↦
          omega (
            arith,
            in_use-before words head (start + more) before size after a h (rw elsewhere at e),
          )
    ]

pub in_use-after :
    (words : Words) (head start : ℕ) (before : List Cell) (size : ℕ) (after : List Cell) (a : ℕ)
    → HoldsAround words head start before size after
    → in_use after a ≡ true
    → start + total_size before + size ≤ a
in_use-after words head start [] size after a h e =
    let (low, high) = in_use-bounds words head (start + size) after a h e in omega arith
in_use-after words head start (free more ∷ before) size after a (f, h) e =
    omega (arith, in_use-after words (words (start + 8)) (start + more) before size after a h e)
in_use-after words head start (used more v n ∷ before) size after a (u, h) e =
    omega (arith, in_use-after words head (start + more) before size after a h e)
