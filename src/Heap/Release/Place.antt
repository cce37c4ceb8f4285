-- ===== src/Heap/Release/Place.antt =====
-- The search of a block's place in the list of libs/heap-allocator/src/lib.rs, and its insertion there.
use codex_os.Prelude.{
  ℕ, ◌+◌, ◌%◌, ◌≤◌, ◌<◌, ◌≡◌, ◌≢◌, refl, ◌∙◌, List, [], ◌∷◌, true, arith, ◌==◌, if◌then◌else◌,
  Bool-cases, eq_false, ◌⊎◌, inl, inr, saturating_add,
}
use codex_os.Heap.{Words, Region, free_list_end, write}
use codex_os.Heap.Cells.{
  Cell, free, used, total_size, in_use, in_use-bounds, IsFree, Holds, Holds-Agree,
}
use codex_os.Heap.FirstFit.{link_of}
use codex_os.Heap.Release.{join_next, join_previous, insert_at}
use codex_os.Heap.Release.Freed.{cons_free, Inserted}
use codex_os.Heap.Release.Insert.{JoinsNext, join_next-JoinsNext, linked}

cons_free-add :
    (more size whole : ℕ) (after rest : List Cell)
    → cons_free size after ≡ free whole ∷ rest
    → cons_free (more + size) after ≡ free (more + whole) ∷ rest
unfolding cons_free
cons_free-add more size whole [] rest h = ground arith
cons_free-add more size whole (free extra ∷ after) rest h = ground arith
cons_free-add more size whole (used extra user asked ∷ after) rest h = ground arith

-- The block does not touch the free block before it.
module _ (r : Region) (start size previous current : ℕ) (after : List Cell)
    (before : (previous ≡ free_list_end) ⊎ (previous + 16 ≤ start))
    (apart : previous ≢ free_list_end → saturating_add previous (r.words previous) ≢ start)
    (some_size : 16 ≤ size) (s8 : size % 8 ≡ 0)
    (room : start + size + total_size after < free_list_end)
    (h : Holds r.words current (start + size) after) where
  linked_alone :
      JoinsNext r
        (join_next start size current (linked r start size previous current before))
        start
        size
        previous
        after
  linked_alone = join_next-JoinsNext r start size previous before s8 current after some_size room h

  -- Behind the block nothing changed.
  past_block :
      (a : ℕ)
      → start + size ≤ a
      → (join_next start size current (linked r start size previous current before)).words a
        ≡ r.words a
  past_block a high =
      linked_alone.joined.kept a (λ e. absurd (omega arith)) (λ e. absurd (omega arith))
        (λ later. elim before [
          | inl first ↦ absurd (later first)
          | inr below ↦ λ e. absurd (omega arith)
        ])

  not_merged :
      join_previous start previous
        (join_next start size current (linked r start size previous current before))
      ≡ join_next start size current (linked r start size previous current before)
  unfolding join_previous
  not_merged = elim (Bool-cases (previous == free_list_end)) [
    | inl first ↦ rw first refl
    | inr later ↦
        let ne = λ (e : previous ≡ free_list_end). absurd (ground arith) in
        let below : previous + 16 ≤ start = elim before [
          | inl first ↦ absurd (ne first)
          | inr b ↦ b
        ] in
        let same : (join_next start size current
                (linked r start size previous current before)).words
              previous
            ≡ r.words previous =
          linked_alone.joined.kept previous (λ e. absurd (omega arith)) (λ e. absurd (omega arith))
            (λ l e. absurd (omega arith)) in
        rw (later, same, eq_false _ _ (apart ne)) refl
  ]

  pub alone-Inserted :
      Inserted r
        (insert_at start size previous current r)
        previous
        start
        []
        size
        after
        (cons_free size after)
  unfolding insert_at in_use
  alone-Inserted =
      let grows = linked_alone.grows in
      let ends = linked_alone.ends in
      rw (not_merged, linked_alone.cells)
        (record {
          kept_below = λ a low ne.
              linked_alone.joined.kept a (λ e. absurd (omega arith)) (λ e. absurd (omega arith))
                (λ l. ne);
          kept_above = λ a high. past_block a (omega arith);
          kept_before = λ a e. absurd cc;
          kept_after = λ a e.
              let (low, high) = in_use-bounds r.words current (start + size) after a h e in
              past_block a (omega arith);
          head_kept = linked_alone.joined.head_kept;
          others = linked_alone.joined.others;
          holds = (
            record {
              linked = linked_alone.joined.linked;
              sized = linked_alone.joined.sized;
              holds_links = omega arith;
              size_aligned = linked_alone.whole_aligned;
            },
            rw linked_alone.joined.follows (
                Holds-Agree r.words _ linked_alone.next (start + linked_alone.whole)
                  linked_alone.rest linked_alone.holds
                  (record { at = λ a low high. past_block a (omega arith) })),
          );
        })

-- The block touches the free block before it, which is `more` bytes long and follows `first`.
module _ (r : Region) (start more size first current : ℕ) (after : List Cell)
    (before : (first ≡ free_list_end) ⊎ (first + 16 ≤ start))
    (f : IsFree r.words (link_of r first) start more) (some_size : 16 ≤ size) (s8 : size % 8 ≡ 0)
    (room : start + more + size + total_size after < free_list_end)
    (h : Holds r.words current (start + more + size) after) where
  within : (start ≡ free_list_end) ⊎ (start + 16 ≤ start + more)
  within = inr (omega (arith, f.holds_links))

  abbrev joined_region : Region
  joined_region =
      join_next (start + more) size current (linked r (start + more) size start current within)

  linked_merged : JoinsNext r joined_region (start + more) size start after
  linked_merged =
      join_next-JoinsNext r (start + more) size start within s8 current after some_size room h

  not_end : start ≢ free_list_end
  not_end e = absurd (omega arith)

  outside :
      (a : ℕ)
      → (a < start) ⊎ ((a ≡ start) ⊎ (start + more + 16 ≤ a))
      → joined_region.words a ≡ r.words a
  outside a out =
      let some_more = f.holds_links in
      elim out [
        | inl low ↦
            linked_merged.joined.kept a (λ e. absurd (omega arith)) (λ e. absurd (omega arith))
              (λ l e. absurd (omega arith))
        | inr (inl here) ↦
            linked_merged.joined.kept a (λ e. absurd (omega arith)) (λ e. absurd (omega arith))
              (λ l e. absurd (omega arith))
        | inr (inr high) ↦
            linked_merged.joined.kept a (λ e. absurd (omega arith)) (λ e. absurd (omega arith))
              (λ l e. absurd (omega arith))
      ]

  merged : join_previous (start + more) start joined_region ≡ record joined_region {
    words =
        write
          (write joined_region.words start (more + linked_merged.whole))
          (start + 8)
          linked_merged.next;
  }
  unfolding join_previous
  merged =
      let own = outside start (inr (inl refl)) ∙ f.sized in
      let touches : (saturating_add start more == (start + more)) ≡ true = ground arith in
      let grows = linked_merged.grows in
      let ends = linked_merged.ends in
      let sum : saturating_add more linked_merged.whole ≡ more + linked_merged.whole =
        omega arith in
      rw
        (
          eq_false start free_list_end not_end,
          own,
          touches,
          linked_merged.joined.sized,
          linked_merged.joined.follows,
          sum,
        )
        refl

  -- The memory with the two blocks as one.
  abbrev one_block : Words
  one_block =
      write (write joined_region.words start (more + linked_merged.whole)) (start + 8)
        linked_merged.next

  kept_outside : (a : ℕ) → (a < start) ⊎ (start + more + 16 ≤ a) → one_block a ≡ r.words a
  unfolding write
  kept_outside a out =
      let some_more = f.holds_links in
      let same : joined_region.words a ≡ r.words a = elim out [
        | inl low ↦ outside a (inl low)
        | inr high ↦ outside a (inr (inr high))
      ] in
      elim out [ inl low ↦ ground arith | inr high ↦ ground arith ]

  one_size : one_block start ≡ more + linked_merged.whole
  unfolding write
  one_size = ground arith

  one_next : one_block (start + 8) ≡ linked_merged.next
  unfolding write
  one_next = ground arith

  pub merged-Inserted :
      Inserted r
        (insert_at (start + more) size start current r)
        first
        start
        (free more ∷ [])
        size
        after
        (cons_free (more + size) after)
  unfolding insert_at in_use
  merged-Inserted =
      let grows = linked_merged.grows in
      let ends = linked_merged.ends in
      let some_more = f.holds_links in
      rw
        (
          merged,
          cons_free-add more size linked_merged.whole after linked_merged.rest linked_merged.cells,
        )
        (record {
          kept_below = λ a low ne. kept_outside a (inl low);
          kept_above = λ a high. kept_outside a (inr (omega arith));
          kept_before = λ a e. absurd cc;
          kept_after = λ a e.
              let (low, high) = in_use-bounds r.words current (start + more + size) after a h e in
              kept_outside a (inr (omega arith));
          head_kept = λ l. linked_merged.joined.head_kept not_end;
          others = linked_merged.joined.others;
          holds = (
            record {
              linked = same_link ∙ f.linked;
              sized = one_size;
              holds_links = omega arith;
              size_aligned = omega (arith, f.size_aligned, linked_merged.whole_aligned);
            },
            left,
          );
        })
    where
      same_link :
          (if first == free_list_end then joined_region.state.free_head else one_block (first + 8))
          ≡ link_of r first
      same_link = elim (Bool-cases (first == free_list_end)) [
        | inl at_end ↦ rw at_end (linked_merged.joined.head_kept not_end)
        | inr later ↦ rw later (
            kept_outside (first + 8)
              (inl (elim before [ inl at_end ↦ absurd (ground arith) | inr below ↦ omega arith ])))
      ]

      left :
          Holds one_block
            (one_block (start + 8))
            (start + (more + linked_merged.whole))
            linked_merged.rest
      left =
          let ends : start + (more + linked_merged.whole) ≡ start + more + linked_merged.whole =
            omega arith in
          rw (one_next, ends)
            (Holds-Agree r.words one_block linked_merged.next (start + more + linked_merged.whole)
              linked_merged.rest linked_merged.holds
              (record {
                at = λ a low high. kept_outside a (inr (omega (arith, linked_merged.grows)));
              }))
