-- ===== src/Memory/Merge.antt =====
-- `deallocate_contiguous_pages` of kernel/src/memory.rs: the merge with the extent on the left, and
-- the whole change to the list of free extents.
use codex_os.Prelude.{
  ℕ, ◌+◌, ◌*◌, ◌%◌, ◌≤◌, ◌<◌, ◌≡◌, ◌==◌, List, [], ◌∷◌, false, ◌||◌, arith, in_range, in_range-add,
  u64_max, Bool-cases, inl, inr, saturating_add,
}
use codex_os.Memory.{
  FreeExtent, extent_end, overlaps_free, merge_left, absorb_next, split_at_start, return_extent,
  grow, rejoin,
}
use codex_os.Memory.Extents.{freed, IsExtent, Separated}
use codex_os.Memory.Returned.{
  Parted, Returned, ReturnedOrFull, Returned-rejoin, merge_right-Returned, split_at_start-Parted,
}

module _ (start n : ℕ) (es : List FreeExtent) (pos : 0 < n) (aligned : start % 4096 ≡ 0)
    (fits : start + n * 4096 ≤ u64_max) where
  -- Facts of an extent that ends where the range starts.
  module _ (e : FreeExtent) (is : IsExtent e) (meets : e.start + e.page_count * 4096 ≡ start) where
    grown_size : saturating_add e.page_count n ≡ e.page_count + n
    grown_size = omega arith

    grown_end : e.start + (e.page_count + n) * 4096 ≡ start + n * 4096
    grown_end = omega arith

    grown-in_range :
        (a : ℕ)
        → in_range e.start (saturating_add e.page_count n * 4096) a
          ≡ (in_range e.start (e.page_count * 4096) a || in_range start (n * 4096) a)
    grown-in_range a =
        let size : (e.page_count + n) * 4096 ≡ e.page_count * 4096 + n * 4096 = omega arith in
        rw (grown_size, size, in_range-add e.start (e.page_count * 4096) (n * 4096) a, meets)

    grown-IsExtent : IsExtent (grow e n)
    grown-IsExtent = rw grown_size (omega arith, is.1, omega arith)

  -- The range closes the gap between two extents, which become one.
  bridge-Returned :
      (before after : List FreeExtent) (e f : FreeExtent)
      → Parted start (start + n * 4096) es (e ∷ before) (f ∷ after)
      → e.start + e.page_count * 4096 ≡ start
      → start + n * 4096 ≡ f.start
      → Returned start n es (rejoin before (grow (grow e n) f.page_count ∷ after))
  unfolding freed
  bridge-Returned before after e f p meets touch =
      let size = grown_size e p.below.1 meets in
      let total : saturating_add (e.page_count + n) f.page_count ≡ e.page_count + n + f.page_count =
        omega (arith, p.above.1.2) in
      let sum : (e.page_count + n + f.page_count) * 4096
          ≡ (e.page_count + n) * 4096 + f.page_count * 4096 =
        omega arith in
      let last : e.start + (e.page_count + n + f.page_count) * 4096
          ≡ f.start + f.page_count * 4096 =
        omega arith in
      Returned-rejoin start n es pos aligned fits e.start before (grow (grow e n) f.page_count)
        after p.below.2
        (rw (size, total)
          (omega arith, (omega arith, p.below.1.1, rw last p.above.1.2), rw last p.above.2))
        (omega (arith, p.pages, size, total))
        (λ a.
          rw
            (
              size,
              total,
              sum,
              in_range-add e.start ((e.page_count + n) * 4096) (f.page_count * 4096) a,
              grown_end e p.below.1 meets,
              touch,
            )
            (ground (arith, p.same a, grown-in_range e p.below.1 meets a, size)))

  absorb-Returned :
      (before after : List FreeExtent) (e : FreeExtent)
      → Parted start (start + n * 4096) es (e ∷ before) after
      → e.start + e.page_count * 4096 ≡ start
      → Returned start n es (rejoin before (absorb_next (grow e n) after))
  unfolding absorb_next freed
  absorb-Returned before [] e p meets =
      Returned-rejoin start n es pos aligned fits e.start before (grow e n) [] p.below.2
        (omega arith, grown-IsExtent e p.below.1 meets, tt)
        (omega (arith, p.pages, grown_size e p.below.1 meets))
        (λ a. ground (arith, p.same a, grown-in_range e p.below.1 meets a))
  absorb-Returned before (f ∷ after) e p meets =
      elim (Bool-cases (extent_end (grow e n) == f.start)) [
        | inr apart ↦
            let size = grown_size e p.below.1 meets in
            let gap : e.start + (e.page_count + n) * 4096 < f.start =
              ground (arith, size, p.above.0) in
            rw apart (
              Returned-rejoin start n es pos aligned fits e.start before (grow e n) (f ∷ after)
                p.below.2
                (
                  omega arith,
                  grown-IsExtent e p.below.1 meets,
                  rw size (omega arith, p.above.1, p.above.2),
                )
                (omega (arith, p.pages, size))
                (λ a. ground (arith, p.same a, grown-in_range e p.below.1 meets a)))
        | inl touch ↦ rw touch (
            bridge-Returned before after e f p meets
              (ground (arith, grown_size e p.below.1 meets, p.above.0)))
      ]

  merge_left-Returned :
      (before after : List FreeExtent)
      → Parted start (start + n * 4096) es before after
      → ReturnedOrFull start n es (merge_left before after start (start + n * 4096) n)
  unfolding merge_left
  merge_left-Returned [] after p = merge_right-Returned start n es pos aligned fits [] after p tt
  merge_left-Returned (e ∷ before) after p = elim (Bool-cases (extent_end e == start)) [
    | inr apart ↦ rw apart (
        merge_right-Returned start n es pos aligned fits (e ∷ before) after p
          (ground (arith, p.below.0, p.below.1.2), p.below.1, p.below.2))
    | inl touch ↦
        let meets : e.start + e.page_count * 4096 ≡ start = ground (arith, p.below.1.2) in
        inr (_, rw touch, absorb-Returned before after e p meets)
  ]

  -- Pages that meet no extent come back into a separated list, unless the table is full.
  pub return_extent-Returned :
      Separated 0 es
      → overlaps_free es start (start + n * 4096) ≡ false
      → ReturnedOrFull start n es (return_extent es start (start + n * 4096) n)
  unfolding return_extent rejoin
  return_extent-Returned s apart =
      let halves = split_at_start start [] es in
      merge_left-Returned halves.0 halves.1
        (split_at_start-Parted start (start + n * 4096) 0 [] es (omega arith) tt tt s apart)
