-- ===== src/Heap/Release/Walk.antt =====
-- The walk along the free list of libs/heap-allocator/src/lib.rs to the place of a block, against the
-- cells around it.
use mathlib.Core.Option
use codex_os.Prelude.{
  ℕ, zero, suc, ◌+◌, ◌%◌, ◌≤◌, ◌<◌, ◌≡◌, ◌≢◌, refl, ◌∙◌, List, [], ◌∷◌, true, false, not, ◌&&◌,
  arith, ◌==◌, ltb, Bool-cases, eq_false, ◌⊎◌, inl, inr, saturating_add, length, Option, some,
  in_range, in_range→bounds,
}
use codex_os.Heap.{Words, Region, free_list_end}
use codex_os.Heap.Cells.{
  Cell, free, used, total_size, in_use, IsFree, IsUsed, Holds, Holds-head, Holds-Agree,
}
use codex_os.Heap.FirstFit.{link_of}
use codex_os.Heap.Release.{insert_at, find_place}
use codex_os.Heap.Release.Freed.{freed, HoldsAround, Inserted}
use codex_os.Heap.Release.Place.{alone-Inserted, merged-Inserted}

-- The search from a place on, and the insertion there.
abbrev pub insert_from : ℕ → ℕ → ℕ → Region → ℕ → ℕ → Option Region
insert_from fuel block size r previous current =
    Option.map (λ (p, c). insert_at block size p c r)
      (find_place fuel r.words block previous current)

abbrev pub Inserts : Option Region → Region → ℕ → ℕ → List Cell → ℕ → List Cell → List Cell → Type 0
Inserts result r previous start before size after cells' =
    (r' : Region) × ((result ≡ some r') × Inserted r r' previous start before size after cells')

-- Past a free block that lies before the place, the walk goes on.
walks_on :
    (fuel block size : ℕ) (r : Region) (previous current : ℕ)
    → current < block
    → block < free_list_end
    → insert_from (suc fuel) block size r previous current
      ≡ insert_from fuel block size r current (r.words (current + 8))
unfolding find_place
walks_on fuel block size r previous current below room =
    let e : (not (current == free_list_end) && ltb current block) ≡ true = ground arith in rw e refl

-- At the place it stops.
stops :
    (fuel block size : ℕ) (r : Region) (previous current : ℕ)
    → (current ≡ free_list_end) ⊎ (block ≤ current)
    → insert_from (suc fuel) block size r previous current
      ≡ some (insert_at block size previous current r)
unfolding find_place
stops fuel block size r previous current out =
    let e : (not (current == free_list_end) && ltb current block) ≡ false = elim out [
      | inl last ↦ rw last refl
      | inr above ↦ ground arith
    ] in
    rw e refl

above_of :
    (words : Words) (head start : ℕ) (cells : List Cell) (block : ℕ)
    → block ≤ start
    → Holds words head start cells
    → (head ≡ free_list_end) ⊎ (block ≤ head)
above_of words head start cells block le h = elim (Holds-head words head start cells h) [
  | inl last ↦ inl last
  | inr (low, high) ↦ inr (omega arith)
]

module _ (r : Region) (previous start : ℕ)
    (before : (previous ≡ free_list_end) ⊎ (previous + 16 ≤ start)) where
  -- Past an allocation.
  Inserted-used :
      (more user asked : ℕ) (r' : Region) (cells : List Cell) (size : ℕ) (after cells' : List Cell)
      → IsUsed r.words start more user asked
      → start + more < free_list_end
      → Inserted r r' previous (start + more) cells size after cells'
      → Inserted r r' previous start
          (used more user asked ∷ cells)
          size
          after
          (used more user asked ∷ cells')
  unfolding in_use
  Inserted-used more user asked r' cells size after cells' u small t = record {
    kept_below = λ a h ne. t.kept_below a (omega arith) ne;
    kept_above = λ a h. t.kept_above a (omega arith);
    kept_before = λ a h. elim (Bool-cases (in_range user asked a)) [
      | inl here ↦ own a here
      | inr elsewhere ↦ t.kept_before a (rw elsewhere at h)
    ];
    kept_after = t.kept_after;
    head_kept = t.head_kept;
    others = t.others;
    holds = (cell.0, t.holds);
  }
    where
      bounds : (start + 32 ≤ user) × (user + asked ≤ start + more)
      bounds = (u.header_inside, u.user_inside)

      apart : (a : ℕ) → start ≤ a → a < start + more → a ≢ previous + 8
      apart a low high = elim before [
        | inl first ↦ λ e. absurd (omega arith)
        | inr below ↦ λ e. absurd (omega arith)
      ]

      inside : (a : ℕ) → start ≤ a → a < start + more → r'.words a ≡ r.words a
      inside a low high = t.kept_below a high (apart a low high)

      own : (a : ℕ) → in_range user asked a ≡ true → r'.words a ≡ r.words a
      own a here =
          let (low, high) = in_range→bounds user asked a here in
          inside a (omega (arith, bounds)) (omega (arith, bounds))

      cell : Holds r'.words free_list_end start (used more user asked ∷ [])
      cell =
          Holds-Agree r.words r'.words free_list_end start (used more user asked ∷ []) (u, refl)
            (record { at = λ a low high. inside a low (omega arith) })

  -- Past a free block that the released one does not touch.
  Inserted-free :
      (more : ℕ) (r' : Region) (cells : List Cell) (size : ℕ) (after cells' : List Cell)
      → IsFree r.words (link_of r previous) start more
      → start + more < free_list_end
      → Inserted r r' start (start + more) cells size after cells'
      → Inserted r r' previous start (free more ∷ cells) size after (free more ∷ cells')
  unfolding in_use
  Inserted-free more r' cells size after cells' f small t = record {
    kept_below = λ a h ne. t.kept_below a (omega arith) (λ e. absurd (omega arith));
    kept_above = λ a h. t.kept_above a (omega arith);
    kept_before = λ a h. t.kept_before a h;
    kept_after = t.kept_after;
    head_kept = λ h. t.head_kept not_end;
    others = t.others;
    holds = (
      record {
        linked = link_kept ∙ f.linked;
        sized =
            t.kept_below start (omega (arith, f.holds_links)) (λ e. absurd (omega arith)) ∙ f.sized;
        holds_links = f.holds_links;
        size_aligned = f.size_aligned;
      },
      rw (eq_false start free_list_end not_end) at t.holds,
    );
  }
    where
      not_end : start ≢ free_list_end
      not_end e = absurd (omega arith)

      link_kept : link_of r' previous ≡ link_of r previous
      link_kept = elim (Bool-cases (previous == free_list_end)) [
        | inl first ↦ rw first (t.head_kept not_end)
        | inr later ↦ rw later (elim before [
          | inl first ↦ absurd cc
          | inr below ↦ t.kept_below (previous + 8) (omega arith) (λ e. absurd (omega arith))
        ])
      ]

later_before :
    (previous start more : ℕ)
    → (previous ≡ free_list_end) ⊎ (previous + 16 ≤ start)
    → (previous ≡ free_list_end) ⊎ (previous + 16 ≤ start + more)
later_before previous start more (inl first) = inl first
later_before previous start more (inr below) = inr (omega arith)

HoldsAround-head :
    (words : Words) (head start : ℕ) (c : Cell) (cells : List Cell) (size : ℕ) (after : List Cell)
    → HoldsAround words head start (c ∷ cells) size after
    → 0 < total_size (c ∷ cells)
HoldsAround-head words head start (free more) cells size after (f, h) = omega (arith, f.holds_links)
HoldsAround-head words head start (used more user asked) cells size after (u, h) =
    omega (arith, u.header_inside, u.user_inside)

module _ (r : Region) (block size : ℕ) (after : List Cell) (some_size : 16 ≤ size)
    (s8 : size % 8 ≡ 0) (room : block + size + total_size after < free_list_end) where
  pub insert_from-Inserts :
      (fuel previous start : ℕ) (cells : List Cell)
      → length cells < fuel
      → start + total_size cells ≡ block
      → (previous ≡ free_list_end) ⊎ (previous + 16 ≤ start)
      → (previous ≢ free_list_end → saturating_add previous (r.words previous) ≢ block)
      → HoldsAround r.words (link_of r previous) start cells size after
      → Inserts
          (insert_from fuel block size r previous (link_of r previous))
          r
          previous
          start
          cells
          size
          after
          (freed cells size after)
  unfolding freed
  insert_from-Inserts zero previous start cells more e before apart h = absurd (omega arith)
  insert_from-Inserts (suc fuel) previous start [] more e before apart h =
      let here : start ≡ block = omega arith in
      let h' = rw here at h in
      let current = link_of r previous in
      (
        insert_at block size previous current r,
        (
          stops fuel block size r previous current
              (above_of r.words current (block + size) after block (omega arith) h'),
          rw here (
              alone-Inserted r block size previous current after (rw here at before) apart some_size
                s8 room h'),
        ),
      )
  insert_from-Inserts (suc fuel) previous start (used extra user asked ∷ cells) more e before apart
        (u, h) =
      let (r', (e', t)) =
        insert_from-Inserts (suc fuel) previous (start + extra) cells (omega arith) (omega arith)
          (later_before previous start extra before) apart h in
      (
        r',
        (
          e',
          Inserted-used r previous start before extra user asked r' cells size after
              (freed cells size after) u (omega arith) t,
        ),
      )
  insert_from-Inserts (suc zero) previous start (free extra ∷ cells) more e before apart h =
      absurd (omega arith)
  insert_from-Inserts (suc (suc fuel)) previous start (free extra ∷ []) more e before apart (f, h) =
      let here : start + extra ≡ block = omega arith in
      let grows = f.holds_links in
      let on = walks_on (suc fuel) block size r previous start (omega arith) (omega arith) in
      let current = r.words (start + 8) in
      let stop =
        stops fuel block size r start current
          (above_of r.words current (start + extra + size) after block (omega arith) h) in
      (
        insert_at block size start current r,
        (
          rw f.linked (on ∙ stop),
          rw (← here) (
              merged-Inserted r start extra size previous current after before f some_size s8
                (rw (← here) at room) h),
        ),
      )
  insert_from-Inserts (suc (suc fuel)) previous start (free extra ∷ c ∷ cells) more e before apart
        (f, h) =
      let grows = f.holds_links in
      let some_c =
        HoldsAround-head r.words (r.words (start + 8)) (start + extra) c cells size after h in
      let not_end = eq_false start free_list_end (λ l. absurd (omega arith)) in
      let on = walks_on (suc fuel) block size r previous start (omega arith) (omega arith) in
      let h' : HoldsAround r.words (link_of r start) (start + extra) (c ∷ cells) size after =
        rw not_end h in
      let apart' : saturating_add start (r.words start) ≢ block =
        λ touch. let sized = f.sized in absurd (omega arith) in
      let (r', (e', t)) =
        insert_from-Inserts (suc fuel) start (start + extra) (c ∷ cells) (omega arith) (omega arith)
          (inr (omega arith)) (λ l. apart') h' in
      (
        r',
        (
          rw f.linked (on ∙ (rw not_end at e')),
          Inserted-free r previous start before extra r' (c ∷ cells) size after
              (freed (c ∷ cells) size after) f (omega arith) t,
        ),
      )
