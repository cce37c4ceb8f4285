-- ===== src/Heap/Allocate/Search.antt =====
-- The search of the free list in libs/heap-allocator/src/lib.rs, against the search of the cells.
use codex_os.Prelude.{
  ℕ, zero, suc, ◌+◌, ◌-◌, ◌/◌, ◌%◌, ◌^◌, ◌≤◌, ◌<◌, ◌≡◌, ◌≢◌, refl, ◌∙◌, List, [], ◌∷◌, true, Option,
  none, some, arith, ◌==◌, leb, leb→le, u64_max, in_range, in_range→bounds, if◌then◌else◌,
  Bool-cases, ◌⊎◌, inl, inr, eq_false, length,
}
use codex_os.Prelude.Bits.{round_up_bounds, power-multiple_of_8}
use codex_os.Heap.{Region, free_list_end}
use codex_os.Heap.Cells.{Cell, free, used, total_size, in_use, Holds, Holds-Agree, IsFree, IsUsed}
use codex_os.Heap.FirstFit.{user_in, suffix_of, behind, first_fit, Took, link_of}
use codex_os.Heap.Allocate.{Found, absent, found, find_block, take_block}
use codex_os.Heap.Allocate.Placed.{fit_block_lem, align_suffix}
use codex_os.Heap.Allocate.Taken.{taken-Took}

-- The result of the loop is that of the search of the cells.
abbrev pub Finds : Option (ℕ × List Cell) → Option Found → Region → ℕ → ℕ → List Cell → Type 0
Finds none result r previous start cells = result ≡ some absent
Finds (some (user, cells')) result r previous start cells =
    (r' : Region) × ((result ≡ some (found user r')) × Took r r' previous start cells cells')

module _ (r : Region) (previous start : ℕ)
    (before : (previous ≡ free_list_end) ⊎ (previous + 16 ≤ start)) where
  -- Past an allocation.
  Took-used :
      (size user asked : ℕ) (r' : Region) (cells cells' : List Cell)
      → IsUsed r.words start size user asked
      → start + size < free_list_end
      → Took r r' previous (start + size) cells cells'
      → Took r r' previous start (used size user asked ∷ cells) (used size user asked ∷ cells')
  unfolding in_use
  Took-used size user asked r' cells cells' u small t = record {
    kept_below = λ a h ne. t.kept_below a (omega arith) ne;
    kept_above = λ a h. t.kept_above a (omega arith);
    kept_used = λ a h. elim (Bool-cases (in_range user asked a)) [
      | inl here ↦ own a here
      | inr elsewhere ↦ t.kept_used a (rw elsewhere at h)
    ];
    head_kept = t.head_kept;
    holds = (cell.0, t.holds);
    grown = t.grown;
    grows = omega (arith, t.grows);
    counted = t.counted;
  }
    where
      bounds : (start + 32 ≤ user) × (user + asked ≤ start + size)
      bounds = (u.header_inside, u.user_inside)

      apart : (a : ℕ) → start ≤ a → a < start + size → a ≢ previous + 8
      apart a low high = elim before [
        | inl first ↦ λ e. absurd (omega arith)
        | inr below ↦ λ e. absurd (omega arith)
      ]

      inside : (a : ℕ) → start ≤ a → a < start + size → r'.words a ≡ r.words a
      inside a low high = t.kept_below a high (apart a low high)

      own : (a : ℕ) → in_range user asked a ≡ true → r'.words a ≡ r.words a
      own a here =
          let (low, high) = in_range→bounds user asked a here in
          inside a (omega (arith, bounds)) (omega (arith, bounds))

      cell : Holds r'.words free_list_end start (used size user asked ∷ [])
      cell =
          Holds-Agree r.words r'.words free_list_end start (used size user asked ∷ []) (u, refl)
            (record { at = λ a low high. inside a low (omega arith) })

  -- Past a free block that is too small.
  Took-free :
      (size : ℕ) (r' : Region) (cells cells' : List Cell)
      → IsFree r.words (link_of r previous) start size
      → start + size < free_list_end
      → Took r r' start (start + size) cells cells'
      → Took r r' previous start (free size ∷ cells) (free size ∷ cells')
  unfolding in_use
  Took-free size r' cells cells' f small t = record {
    kept_below = λ a h ne. t.kept_below a (omega arith) (λ e. absurd (omega arith));
    kept_above = λ a h. t.kept_above a (omega arith);
    kept_used = λ a h. t.kept_used a h;
    head_kept = λ h. t.head_kept not_end;
    holds = (
      record {
        linked = link_kept ∙ f.linked;
        sized =
            t.kept_below start (omega (arith, f.holds_links)) (λ e. absurd (omega arith)) ∙ f.sized;
        holds_links = f.holds_links;
        size_aligned = f.size_aligned;
      },
      rw (eq_false start free_list_end not_end) at t.holds,
    );
    grown = t.grown;
    grows = t.grows;
    counted = t.counted;
  }
    where
      not_end : start ≢ free_list_end
      not_end e = absurd (omega arith)

      link_kept : link_of r' previous ≡ link_of r previous
      link_kept = elim (Bool-cases (previous == free_list_end)) [
        | inl first ↦ rw first (t.head_kept not_end)
        | inr later ↦ rw later (elim before [
          | inl first ↦ absurd cc
          | inr below ↦ t.kept_below (previous + 8) (omega arith) (λ e. absurd (omega arith))
        ])
      ]

-- A cell that the search went past.
Finds-behind :
    (c : Cell) (o : Option (ℕ × List Cell)) (result : Option Found) (r : Region)
    (inner outer start later : ℕ) (cells : List Cell)
    → ((r' : Region) (cells' : List Cell)
        → Took r r' inner later cells cells'
        → Took r r' outer start (c ∷ cells) (c ∷ cells'))
    → Finds o result r inner later cells
    → Finds (behind c o) result r outer start (c ∷ cells)
Finds-behind c none result r inner outer start later cells grow h = h
Finds-behind c (some (user, cells')) result r inner outer start later cells grow (r', (e, t)) =
    (r', (e, grow r' cells' t))

later_before :
    (previous start size : ℕ)
    → (previous ≡ free_list_end) ⊎ (previous + 16 ≤ start)
    → (previous ≡ free_list_end) ⊎ (previous + 16 ≤ start + size)
later_before previous start size (inl first) = inl first
later_before previous start size (inr below) = inr (omega arith)

pub user_in-bounds : (k start : ℕ) → start + 32 ≤ user_in k start
unfolding user_in
user_in-bounds k start = (round_up_bounds k (start + 32)).0

user_in-aligned : (k start : ℕ) → 3 ≤ k → user_in k start % 8 ≡ 0
unfolding user_in
user_in-aligned k start h = power-multiple_of_8 k ((start + 32 + (2 ^ k - 1)) / 2 ^ k) h

module _ (k requested : ℕ) (low : 3 ≤ k) (high : k ≤ 63) where
  -- One turn of the loop at a free block.
  turn :
      (fuel : ℕ) (r : Region) (previous start size : ℕ)
      → r.words start ≡ size
      → 16 ≤ size
      → start + size + 2 ^ k + 40 ≤ u64_max
      → find_block (suc fuel) requested (2 ^ k) r previous start ≡ (
          if leb (user_in k start + requested) (start + size)
          then some (
              found (user_in k start) (
                take_block r requested previous start
                  (user_in k start)
                  (start + size)
                  (suffix_of (user_in k start) requested)))
          else find_block fuel requested (2 ^ k) r start (r.words (start + 8)))
  unfolding find_block
  turn fuel r previous start size sized some_size room =
      let not_end = eq_false start free_list_end (λ e. absurd (omega arith)) in
      elim (Bool-cases (leb (user_in k start + requested) (start + size))) [
        | inl fits ↦
            let inside = leb→le _ _ fits in
            rw
              (
                not_end,
                sized,
                fit_block_lem k requested start size high (omega arith),
                fits,
                align_suffix (user_in k start) requested (omega arith),
              )
              refl
        | inr small ↦
            rw (not_end, sized, fit_block_lem k requested start size high (omega arith), small) refl
      ]

  pub find_block-Finds :
      (fuel : ℕ) (r : Region) (previous start : ℕ) (cells : List Cell)
      → length cells < fuel
      → (previous ≡ free_list_end) ⊎ (previous + 16 ≤ start)
      → 0 < requested
      → start % 8 ≡ 0
      → start + total_size cells + 2 ^ k + 40 ≤ u64_max
      → Holds r.words (link_of r previous) start cells
      → Finds
          (first_fit k requested start cells)
          (find_block fuel requested (2 ^ k) r previous (link_of r previous))
          r
          previous
          start
          cells
  unfolding first_fit
  find_block-Finds zero r previous start cells more before asked aligned room h =
      absurd (omega arith)
  find_block-Finds (suc fuel) r previous start [] more before asked aligned room h =
      rw h (unfold find_block in refl)
  find_block-Finds (suc fuel) r previous start (used size user taken ∷ cells) more before asked
        aligned room (u, h) =
      let later : (previous ≡ free_list_end) ⊎ (previous + 16 ≤ start + size) =
        later_before previous start size before in
      let rest =
        find_block-Finds (suc fuel) r previous (start + size) cells (omega arith) later asked
          (omega (arith, u.size_aligned)) (omega arith) h in
      Finds-behind (used size user taken) (first_fit k requested (start + size) cells)
        (find_block (suc fuel) requested (2 ^ k) r previous (link_of r previous)) r previous
        previous start (start + size) cells
        (λ r' cells' t.
          Took-used r previous start before size user taken r' cells cells' u (omega arith) t)
        rest
  find_block-Finds (suc fuel) r previous start (free size ∷ cells) more before asked aligned room
        (f, h) =
      let not_end = eq_false start free_list_end (λ e. absurd (omega (arith, f.holds_links))) in
      let here : Holds r.words (link_of r start) (start + size) cells = rw not_end h in
      let rest =
        find_block-Finds fuel r start (start + size) cells (omega arith)
          (inr (omega (arith, f.holds_links))) asked (omega (arith, f.size_aligned)) (omega arith)
          here in
      let step = turn fuel r previous start size f.sized f.holds_links (omega arith) in
      elim (Bool-cases (leb (user_in k start + requested) (start + size))) [
        | inl fits ↦
            let inside = leb→le _ _ fits in
            let user = user_in k start in
            let taken =
              taken-Took r requested previous start size cells f h before asked aligned user
                (user_in-aligned k start low) (user_in-bounds k start) inside
                (omega (arith, f.size_aligned)) in
            rw (f.linked, step, fits)
              (
                take_block r requested previous start user (start + size)
                    (suffix_of user requested),
                (refl, taken),
              )
        | inr small ↦
            let kept =
              Finds-behind (free size) (first_fit k requested (start + size) cells)
                (find_block fuel requested (2 ^ k) r start (link_of r start)) r start previous start
                (start + size) cells
                (λ r' cells' t.
                  Took-free r previous start before size r' cells cells' f (omega arith) t)
                rest in
            rw (f.linked, step, small) (rw not_end at kept)
      ]
