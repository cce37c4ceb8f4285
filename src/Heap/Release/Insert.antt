-- ===== src/Heap/Release/Insert.antt =====
-- The insertion of a block into the list of libs/heap-allocator/src/lib.rs, where its place is known.
use codex_os.Prelude.{
  ℕ, ◌+◌, ◌%◌, ◌≤◌, ◌<◌, ◌≡◌, ◌≢◌, refl, ◌∙◌, List, [], ◌∷◌, true, false, not, ◌&&◌, arith, ◌==◌,
  Bool-cases, eq_false, ==→eq, ◌⊎◌, inl, inr, saturating_add,
}
use codex_os.Heap.{Region, free_list_end, write, set_link}
use codex_os.Heap.Cells.{Cell, free, used, total_size, in_use, IsFree, Holds, Holds-head}
use codex_os.Heap.FirstFit.{link_of}
use codex_os.Heap.Release.{join_next}
use codex_os.Heap.Release.Freed.{cons_free}

-- After the block was linked and joined with the one behind it.
pub record Joined (r r' : Region) (start size next previous : ℕ) : Type 0 where
  pub sized : r'.words start ≡ size
  pub follows : r'.words (start + 8) ≡ next
  pub kept :
      (a : ℕ)
      → a ≢ start
      → a ≢ start + 8
      → (previous ≢ free_list_end → a ≢ previous + 8)
      → r'.words a ≡ r.words a
  pub linked : link_of r' previous ≡ start
  pub head_kept : previous ≢ free_list_end → r'.state.free_head ≡ r.state.free_head
  pub others : r'.state ≡ record r.state { free_head = r'.state.free_head }

module _ (r : Region) (start size previous current : ℕ)
    (before : (previous ≡ free_list_end) ⊎ (previous + 16 ≤ start)) where
  abbrev pub linked : Region
  linked =
      set_link (record r { words = write (write r.words start size) (start + 8) current }) previous
        start

  below_start : previous ≢ free_list_end → previous + 16 ≤ start
  below_start h = elim before [ inl first ↦ absurd (h first) | inr below ↦ below ]

  linked-Joined : Joined r linked start size current previous
  unfolding set_link write
  linked-Joined = elim (Bool-cases (previous == free_list_end)) [
    | inl first ↦ rw first (record {
      sized = ground arith;
      follows = ground arith;
      kept = λ a h k l. ground arith;
      linked = rw first refl;
      head_kept = λ h. absurd (h (==→eq previous free_list_end first));
      others = refl;
    })
    | inr later ↦
        let apart = λ (e : previous ≡ free_list_end). absurd (ground arith) in
        let below = below_start apart in
        rw later (record {
          sized = ground arith;
          follows = ground arith;
          kept = λ a h k l. let m = l apart in ground arith;
          linked = rw later (ground arith);
          head_kept = λ h. refl;
          others = refl;
        })
  ]

  -- Joined with the free block behind it, whose size and successor these are.
  Joined-over :
      (r' : Region) (more next : ℕ)
      → Joined r r' start size current previous
      → Joined r
          (record r' { words = write (write r'.words start (size + more)) (start + 8) next })
          start
          (size + more)
          next
          previous
  unfolding write
  Joined-over r' more next j = record {
    sized = ground arith;
    follows = ground arith;
    kept = λ a h k l. let same = j.kept a h k l in ground arith;
    linked = elim (Bool-cases (previous == free_list_end)) [
      | inl first ↦ let e = rw first at j.linked in rw first e
      | inr later ↦
          let below = below_start (λ (e : previous ≡ free_list_end). absurd (ground arith)) in
          let e = rw later at j.linked in rw later (ground arith)
    ];
    head_kept = j.head_kept;
    others = j.others;
  }

-- The result of joining a block with what follows it.
pub record JoinsNext (r r' : Region) (start size previous : ℕ) (after : List Cell) : Type 0 where
  pub whole : ℕ
  pub next : ℕ
  pub rest : List Cell
  pub joined : Joined r r' start whole next previous
  pub cells : cons_free size after ≡ free whole ∷ rest
  pub holds : Holds r.words next (start + whole) rest
  pub grows : size ≤ whole
  pub ends : start + whole + total_size rest ≡ start + size + total_size after
  pub whole_aligned : whole % 8 ≡ 0
  pub in_use_rest : (a : ℕ) → in_use rest a ≡ in_use after a

module _ (r : Region) (start size previous : ℕ)
    (before : (previous ≡ free_list_end) ⊎ (previous + 16 ≤ start)) (s8 : size % 8 ≡ 0) where
  -- Nothing free behind the block.
  not_joined :
      (current : ℕ) (after : List Cell)
      → (not (current == free_list_end) && (saturating_add start size == current)) ≡ false
      → cons_free size after ≡ free size ∷ after
      → Holds r.words current (start + size) after
      → JoinsNext r
          (join_next start size current (linked r start size previous current before))
          start
          size
          previous
          after
  unfolding join_next
  not_joined current after apart cells h = rw apart (record {
    whole = size;
    next = current;
    rest = after;
    joined = linked-Joined r start size previous current before;
    cells = cells;
    holds = h;
    grows = omega arith;
    ends = refl;
    whole_aligned = s8;
    in_use_rest = λ a. refl;
  })

  -- A free block right behind it.
  joined_free :
      (more : ℕ) (after : List Cell)
      → 16 ≤ size
      → start + size + (more + total_size after) < free_list_end
      → IsFree r.words (start + size) (start + size) more
      → Holds r.words (r.words (start + size + 8)) (start + size + more) after
      → JoinsNext r
          (join_next start size (start + size) (linked r start size previous (start + size) before))
          start
          size
          previous
          (free more ∷ after)
  unfolding join_next cons_free in_use
  joined_free more after some_size room f h =
      let not_end = eq_false (start + size) free_list_end (λ e. absurd (omega arith)) in
      let touches : (saturating_add start size == (start + size)) ≡ true = ground arith in
      let first = linked r start size previous (start + size) before in
      let j = linked-Joined r start size previous (start + size) before in
      let below = below_start r start size previous (start + size) before in
      let out = λ (a : ℕ) (past : start + 16 ≤ a).
        j.kept a (λ e. absurd (omega arith)) (λ e. absurd (omega arith))
          (λ later e. let b = below later in absurd (omega arith)) in
      let sized : first.words (start + size) ≡ more = out (start + size) (omega arith) ∙ f.sized in
      let next : first.words (start + size + 8) ≡ r.words (start + size + 8) =
        out (start + size + 8) (omega arith) in
      let sum : saturating_add size more ≡ size + more = omega arith in
      let ends : start + (size + more) ≡ start + size + more = omega arith in
      let aligned = f.size_aligned in
      rw (not_end, touches, sized, next, sum)
        (record {
          whole = size + more;
          next = r.words (start + size + 8);
          rest = after;
          joined =
              Joined-over r start size previous (start + size) before first more
                (r.words (start + size + 8)) j;
          cells = refl;
          holds = rw ends h;
          grows = omega arith;
          ends = omega arith;
          whole_aligned = omega arith;
          in_use_rest = λ a. refl;
        })

  pub join_next-JoinsNext :
      (current : ℕ) (after : List Cell)
      → 16 ≤ size
      → start + size + total_size after < free_list_end
      → Holds r.words current (start + size) after
      → JoinsNext r
          (join_next start size current (linked r start size previous current before))
          start
          size
          previous
          after
  unfolding cons_free
  join_next-JoinsNext current [] some_size room h = not_joined current [] (rw h refl) refl h
  join_next-JoinsNext current (used more user asked ∷ after) some_size room (u, h) =
      not_joined current (used more user asked ∷ after)
        (elim (Holds-head r.words current (start + size + more) after h) [
          | inl none ↦ rw none refl
          | inr (low, high) ↦
              let inside = u.header_inside in let ends = u.user_inside in ground arith
        ])
        refl (u, h)
  join_next-JoinsNext current (free more ∷ after) some_size room (f, h) = rw f.linked (
      joined_free more after some_size room
        (record {
          linked = refl;
          sized = f.sized;
          holds_links = f.holds_links;
          size_aligned = f.size_aligned;
        })
        h)
