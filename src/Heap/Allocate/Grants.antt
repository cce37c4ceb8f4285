-- ===== src/Heap/Allocate/Grants.antt =====
-- What the first fit of libs/heap-allocator/src/lib.rs gives a program, on the cells alone.
use native.Mathlib.Nat.{mul-mod_left}
use codex_os.Prelude.{
  ℕ, suc, ◌+◌, ◌-◌, ◌/◌, ◌%◌, ◌^◌, ◌≤◌, ◌≡◌, refl, List, [], ◌∷◌, Bool, true, false, Option, none,
  some, arith, leb, leb→le, ◌||◌, in_range, in_range→bounds, in_range_above, Bool-cases, inl, inr,
}
use codex_os.Heap.{Words}
use codex_os.Heap.Cells.{
  Cell, free, used, total_size, used_count, in_use, in_use-bounds, Holds, AreApart, starts_free,
}
use codex_os.Heap.Allocate.Search.{user_in-bounds}
use codex_os.Heap.FirstFit.{
  user_in, place, behind, first_fit, place_sums, place-AreApart, place-in_use,
}

-- The bytes granted start at a multiple of `2 ^ k`, lie within the cells, were in nobody's use, and
-- are in use together with all that was. The cells keep their sum, no two free ones touch, and one
-- more is allocated.
pub record Grants (k requested start : ℕ) (cells : List Cell) (user : ℕ) (cells' : List Cell)
    : Type 0 where
  pub aligned : user % 2 ^ k ≡ 0
  pub above : start + 32 ≤ user
  pub below : user + requested ≤ start + total_size cells
  pub was_free : (a : ℕ) → in_range user requested a ≡ true → in_use cells a ≡ false
  pub now_used : (a : ℕ) → in_use cells' a ≡ (in_range user requested a || in_use cells a)
  pub total : total_size cells' ≡ total_size cells
  pub count : used_count cells' ≡ suc (used_count cells)
  pub apart : AreApart cells → AreApart cells'
  pub starts : starts_free cells' ≡ true → starts_free cells ≡ true

abbrev pub GrantsIn : Option (ℕ × List Cell) → ℕ → ℕ → ℕ → List Cell → Type 0
GrantsIn none k requested start cells = Unit
GrantsIn (some (user, cells')) k requested start cells = Grants k requested start cells user cells'

or_front : (x y z : Bool) → (x || (y || z)) ≡ (y || (x || z))
or_front x y z = ground arith

user_in-multiple : (k start : ℕ) → user_in k start % 2 ^ k ≡ 0
unfolding user_in
user_in-multiple k start = mul-mod_left ((start + 32 + (2 ^ k - 1)) / 2 ^ k) (2 ^ k)

module _ (words : Words) (k requested start : ℕ) where
  Grants-used :
      (head size taken asked : ℕ) (cells : List Cell) (o : Option (ℕ × List Cell))
      → Holds words head start (used size taken asked ∷ cells)
      → GrantsIn o k requested (start + size) cells
      → GrantsIn
          (behind (used size taken asked) o)
          k
          requested
          start
          (used size taken asked ∷ cells)
  unfolding in_use
  Grants-used head size taken asked cells none h g = tt
  Grants-used head size taken asked cells (some (user, cells')) (u, h) g = record {
    aligned = g.aligned;
    above = omega (arith, g.above);
    below = omega (arith, g.below);
    was_free = λ a t.
        let (low, high) = in_range→bounds user requested a t in
        rw (in_range_above taken asked a (omega (arith, g.above, u.user_inside)), g.was_free a t)
          refl;
    now_used = λ a.
        rw (g.now_used a)
          (or_front (in_range taken asked a) (in_range user requested a) (in_use cells a));
    total = omega (arith, g.total);
    count = omega (arith, g.count);
    apart = λ p. g.apart p;
    starts = λ p. p;
  }

  Grants-free :
      (head size : ℕ) (cells : List Cell) (o : Option (ℕ × List Cell))
      → Holds words head start (free size ∷ cells)
      → GrantsIn o k requested (start + size) cells
      → GrantsIn (behind (free size) o) k requested start (free size ∷ cells)
  unfolding in_use
  Grants-free head size cells none h g = tt
  Grants-free head size cells (some (user, cells')) (f, h) g = record {
    aligned = g.aligned;
    above = omega (arith, g.above);
    below = omega (arith, g.below);
    was_free = λ a t. g.was_free a t;
    now_used = λ a. g.now_used a;
    total = omega (arith, g.total);
    count = g.count;
    apart = λ p. elim (Bool-cases (starts_free cells')) [
      | inl touching ↦ let touched = g.starts touching in let before = p.0 in absurd cc
      | inr separate ↦ (separate, g.apart p.1)
    ];
    starts = λ p. refl;
  }

  Grants-place :
      (head size : ℕ) (cells : List Cell)
      → Holds words head start (free size ∷ cells)
      → user_in k start + requested ≤ start + size
      → Grants k requested start
          (free size ∷ cells)
          (user_in k start)
          (place (user_in k start) requested start size cells)
  unfolding in_use
  Grants-place head size cells (f, h) fits =
      let user = user_in k start in
      let (sum, count) = place_sums user requested start size cells (user_in-bounds k start) fits in
      record {
        aligned = user_in-multiple k start;
        above = user_in-bounds k start;
        below = omega arith;
        was_free = λ a t. elim (Bool-cases (in_use cells a)) [
          | inl taken ↦
              let (low, high) = in_range→bounds user requested a t in
              let (past, within) =
                in_use-bounds words (words (start + 8)) (start + size) cells a h taken in
              absurd (omega arith)
          | inr open_yet ↦ open_yet
        ];
        now_used = λ a. place-in_use user requested start size cells a;
        total = sum;
        count = count;
        apart = place-AreApart user requested start size cells;
        starts = λ p. refl;
      }

-- What the first fit finds is granted.
pub first_fit-Grants :
    (words : Words) (head k requested start : ℕ) (cells : List Cell)
    → Holds words head start cells
    → GrantsIn (first_fit k requested start cells) k requested start cells
unfolding first_fit
first_fit-Grants words head k requested start [] h = tt
first_fit-Grants words head k requested start (used size user asked ∷ cells) (u, h) =
    Grants-used words k requested start head size user asked cells
      (first_fit k requested (start + size) cells) (u, h)
      (first_fit-Grants words head k requested (start + size) cells h)
first_fit-Grants words head k requested start (free size ∷ cells) (f, h) =
    elim (Bool-cases (leb (user_in k start + requested) (start + size))) [
      | inl fits ↦
          rw fits (Grants-place words k requested start head size cells (f, h) (leb→le _ _ fits))
      | inr small ↦ rw small (
          Grants-free words k requested start head size cells
            (first_fit k requested (start + size) cells) (f, h)
            (first_fit-Grants words (words (start + 8)) k requested (start + size) cells h))
    ]
