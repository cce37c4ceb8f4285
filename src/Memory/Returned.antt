-- ===== src/Memory/Returned.antt =====
-- How the list of free extents of kernel/src/memory.rs takes pages back: the split at the insertion
-- point, the two merges, and the scan that joins extents that touch.
use codex_os.Prelude.{
  ℕ, ◌+◌, ◌*◌, ◌%◌, ◌≤◌, ◌<◌, ◌≡◌, refl, ◌==◌, leb, ltb, List, [], ◌∷◌, Bool, false, ◌||◌, Option,
  some, none, arith, in_range, in_range-add, or_insert, u64_max, Bool-cases, inl, inr, sym, ◌∙◌,
  ◌⊎◌, length, saturating_add,
}
use codex_os.Memory.{
  FreeExtent, extent_end, coalesce_from, coalesce_free_extents, split_at_start, rejoin,
  overlaps_free, insert_new, merge_right, max_free_extents,
}
use codex_os.Memory.Extents.{
  freed, free_pages, Separated, SeparatedBelow, Separated-mono, SeparatedBelow-mono,
}

-- No two extents of a separated list touch, so the scan changes nothing.
coalesce_from-Separated :
    (lo : ℕ) (e : FreeExtent) (es : List FreeExtent)
    → Separated lo (e ∷ es)
    → coalesce_from e es ≡ e ∷ es
unfolding coalesce_from
coalesce_from-Separated lo e [] s = refl
coalesce_from-Separated lo e (f ∷ es) s =
    let apart : (extent_end e == f.start) ≡ false = ground arith in
    rw (apart, coalesce_from-Separated (e.start + e.page_count * 4096 + 1) f es s.2)

pub coalesce-Separated :
    (lo : ℕ) (es : List FreeExtent) → Separated lo es → coalesce_free_extents es ≡ es
unfolding coalesce_free_extents
coalesce-Separated lo [] s = refl
coalesce-Separated lo (e ∷ es) s = coalesce_from-Separated lo e es s

-- The two halves put together again.
rejoin-Separated :
    (hi : ℕ) (before after : List FreeExtent)
    → SeparatedBelow hi before
    → Separated hi after
    → Separated 0 (rejoin before after)
unfolding rejoin
rejoin-Separated hi [] after b s = Separated-mono after (omega arith) s
rejoin-Separated hi (e ∷ before) after b s =
    rejoin-Separated e.start before (e ∷ after) b.2
      (omega arith, b.1, Separated-mono after (omega arith) s)

freed-rejoin :
    (a : ℕ) (before after : List FreeExtent)
    → freed (rejoin before after) a ≡ (freed before a || freed after a)
unfolding rejoin freed
freed-rejoin a [] after = refl
freed-rejoin a (e ∷ before) after =
    rw (freed-rejoin a before (e ∷ after))
      (or_insert (freed before a) (in_range e.start (e.page_count * 4096) a) (freed after a))

free_pages-rejoin :
    (before after : List FreeExtent)
    → free_pages (rejoin before after) ≡ free_pages before + free_pages after
unfolding rejoin
free_pages-rejoin [] after = omega arith
free_pages-rejoin (e ∷ before) after = omega (arith, free_pages-rejoin before (e ∷ after))

length-rejoin :
    (before after : List FreeExtent) → length (rejoin before after) ≡ length before + length after
unfolding rejoin
length-rejoin [] after = omega arith
length-rejoin (e ∷ before) after = omega (arith, length-rejoin before (e ∷ after))

-- The halves around a range that meets no extent.
pub record Parted (start end : ℕ) (es before after : List FreeExtent) : Type 0 where
  pub below : SeparatedBelow (start + 1) before
  pub above : Separated end after
  pub pages : free_pages before + free_pages after ≡ free_pages es
  pub count : length before + length after ≡ length es
  pub same : (a : ℕ) → (freed before a || freed after a) ≡ freed es a

pub split_at_start-Parted :
    (start end lo : ℕ) (before es : List FreeExtent)
    → start < end
    → SeparatedBelow lo before
    → SeparatedBelow (start + 1) before
    → Separated lo es
    → overlaps_free es start end ≡ false
    → let halves = split_at_start start before es in
      Parted start end (rejoin before es) halves.0 halves.1
unfolding split_at_start rejoin
split_at_start-Parted start end lo before [] lt b b' s apart = record {
  below = b';
  above = tt;
  pages = sym (free_pages-rejoin before []);
  count = sym (length-rejoin before []);
  same = λ a. sym (freed-rejoin a before []);
}
split_at_start-Parted start end lo before (e ∷ es) lt b b' s apart =
    elim (Bool-cases (ltb start e.start)) [
      | inl after_it ↦ rw after_it (record {
        below = b';
        above = (ground arith, s.1, s.2);
        pages = sym (free_pages-rejoin before (e ∷ es));
        count = sym (length-rejoin before (e ∷ es));
        same = λ a. sym (freed-rejoin a before (e ∷ es));
      })
      | inr upto ↦
          let ends : e.start + e.page_count * 4096 < start + 1 = ground arith in
          let rest : overlaps_free es start end ≡ false = ground arith in
          let falling : SeparatedBelow e.start before = SeparatedBelow-mono before s.0 b in
          rw upto (
            split_at_start-Parted start end (e.start + e.page_count * 4096 + 1) (e ∷ before) es lt
              (omega arith, s.1, falling) (ends, s.1, falling) s.2 rest)
    ]

-- What taking `n` pages back at `start` does to a list.
pub record Returned (start n : ℕ) (es es' : List FreeExtent) : Type 0 where
  pub separated : Separated 0 es'
  pub pages : free_pages es' ≡ free_pages es + n
  pub joined : (a : ℕ) → freed es' a ≡ (freed es a || in_range start (n * 4096) a)

-- Either nothing fits into a table without a slot left, or the pages are in the list.
abbrev pub ReturnedOrFull : ℕ → ℕ → List FreeExtent → Option (List FreeExtent) → Type 0
ReturnedOrFull start n es result =
    ((result ≡ none) × (max_free_extents ≤ length es))
    ⊎ ((es' : List FreeExtent) × (result ≡ some es') × Returned start n es es')

module _ (start n : ℕ) (es : List FreeExtent) (pos : 0 < n) (aligned : start % 4096 ≡ 0)
    (fits : start + n * 4096 ≤ u64_max) where
  abbrev fresh : FreeExtent
  fresh = record { start = start; page_count = n }

  -- A list with the new extent between the halves.
  pub Returned-rejoin :
      (hi : ℕ) (before : List FreeExtent) (e : FreeExtent) (rest : List FreeExtent)
      → SeparatedBelow hi before
      → Separated hi (e ∷ rest)
      → free_pages before + free_pages (e ∷ rest) ≡ free_pages es + n
      → ((a : ℕ)
          → (freed before a || freed (e ∷ rest) a) ≡ (freed es a || in_range start (n * 4096) a))
      → Returned start n es (rejoin before (e ∷ rest))
  Returned-rejoin hi before e rest b s p j = record {
    separated = rejoin-Separated hi before (e ∷ rest) b s;
    pages = free_pages-rejoin before (e ∷ rest) ∙ p;
    joined = λ a. freed-rejoin a before (e ∷ rest) ∙ j a;
  }

  insert_new-Returned :
      (before after : List FreeExtent)
      → Parted start (start + n * 4096) es before after
      → SeparatedBelow start before
      → Separated (start + n * 4096 + 1) after
      → ReturnedOrFull start n es (insert_new before after start n)
  unfolding insert_new freed
  insert_new-Returned before after p b s =
      elim (Bool-cases (leb max_free_extents (length before + length after))) [
        | inl full ↦ inl (rw full, ground (arith, p.count))
        | inr room ↦
            let whole : Separated start (fresh ∷ after) = (omega arith, (pos, aligned, fits), s) in
            let done : Returned start n es (rejoin before (fresh ∷ after)) =
              Returned-rejoin start before fresh after b whole (omega (arith, p.pages))
                (λ a. ground (arith, p.same a)) in
            inr (
              rejoin before (fresh ∷ after),
              rw (room, coalesce-Separated 0 (rejoin before (fresh ∷ after)) done.separated),
              done,
            )
      ]

  -- The extent behind the range, with the range in front of it.
  abbrev longer : FreeExtent → FreeExtent
  longer f = record f { start = start; page_count = saturating_add f.page_count n }

  grown_range :
      (f : FreeExtent) (a : ℕ) (x y z : Bool)
      → f.start ≡ start + n * 4096
      → saturating_add f.page_count n ≡ f.page_count + n
      → (x || (in_range f.start (f.page_count * 4096) a || y)) ≡ z
      → (x || (in_range start (saturating_add f.page_count n * 4096) a || y))
        ≡ (z || in_range start (n * 4096) a)
  grown_range f a x y z meets sum same =
      let size : (f.page_count + n) * 4096 ≡ n * 4096 + f.page_count * 4096 = omega arith in
      rw (sum, size, in_range-add start (n * 4096) (f.page_count * 4096) a, ← meets)
        (ground (arith, same))

  pub merge_right-Returned :
      (before after : List FreeExtent)
      → Parted start (start + n * 4096) es before after
      → SeparatedBelow start before
      → ReturnedOrFull start n es (merge_right before after start (start + n * 4096) n)
  unfolding merge_right freed
  merge_right-Returned before [] p b = insert_new-Returned before [] p b tt
  merge_right-Returned before (f ∷ after) p b = elim (Bool-cases (start + n * 4096 == f.start)) [
    | inr apart ↦ rw apart (
        insert_new-Returned before (f ∷ after) p b
          (ground (arith, p.above.0), p.above.1, p.above.2))
    | inl touch ↦
        let meets : f.start ≡ start + n * 4096 = ground arith in
        let sum : saturating_add f.page_count n ≡ f.page_count + n = omega (arith, p.above.1.2) in
        let last : start + (f.page_count + n) * 4096 ≡ f.start + f.page_count * 4096 =
          omega arith in
        let whole : Separated start (longer f ∷ after) =
          rw sum (omega arith, (omega arith, aligned, rw last p.above.1.2), rw last p.above.2) in
        inr (
          rejoin before (longer f ∷ after),
          rw touch,
          Returned-rejoin start before (longer f) after b whole (omega (arith, p.pages)) (λ a.
              grown_range f a (freed before a) (freed after a) (freed es a) meets sum (p.same a)),
        )
  ]
