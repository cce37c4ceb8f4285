-- ===== src/Memory/Release.antt =====
-- `deallocate_contiguous_pages` of kernel/src/memory.rs as the end of an ownership, and why it
-- refuses.
use mathlib.Core.Path.{subst}
use codex_os.Prelude.{
  ℕ, ◌+◌, ◌-◌, ◌*◌, ◌%◌, ◌≤◌, ◌<◌, ◌≡◌, ◌≢◌, refl, ◌==◌, leb, ltb, List, [], ◌∷◌, Bool, true, false,
  not, ◌&&◌, arith, in_range, in_range→bounds, in_range_intro, u64_max, Bool-cases, inl, inr, ◌⊎◌,
  length, saturating_add, saturating_mul, checked_add, in_range_below, sym, in_range_above,
}
use codex_os.Memory.{
  PhysicalPageAllocator, RegionCursor, deallocate_contiguous_pages, deallocate_range, was_allocated,
  overlaps_free, max_free_extents, FreeExtent,
}
use codex_os.Memory.Extents.{freed, Separated}
use codex_os.Memory.Regions.{handed, Disjoint}
use codex_os.Memory.Returned.{Returned}
use codex_os.Memory.Merge.{return_extent-Returned}
use codex_os.Memory.Ownership.{owned, IsValid}

was_allocated-handed :
    (start size a : ℕ) (rs : List RegionCursor)
    → Disjoint rs
    → was_allocated rs start (start + size) ≡ true
    → in_range start size a ≡ true
    → handed rs a ≡ true
unfolding handed
was_allocated-handed start size a [] d w h = cc
was_allocated-handed start size a (r ∷ rs) d w h =
    let bounds = in_range→bounds start size a h in
    let part : saturating_add r.start (saturating_mul r.next_page 4096)
        ≡ r.start + r.next_page * 4096 =
      omega arith in
    elim (Bool-cases (
      leb r.start start
      && leb (start + size) (saturating_add r.start (saturating_mul r.next_page 4096)))) [
        | inl here ↦
            let low : r.start ≤ start = ground arith in
            let high : start + size ≤ r.start + r.next_page * 4096 = ground arith in
            rw (in_range_intro r.start (r.next_page * 4096) a (omega arith) (omega arith))
        | inr elsewhere ↦
            let rest : handed rs a ≡ true =
              was_allocated-handed start size a rs d.2 (rw elsewhere at w) h in
            ground (arith, rest)
      ]

overlaps_free-freed :
    (start size a lo : ℕ) (es : List FreeExtent)
    → Separated lo es
    → overlaps_free es start (start + size) ≡ false
    → in_range start size a ≡ true
    → freed es a ≡ false
unfolding freed
overlaps_free-freed start size a lo [] s o h = refl
overlaps_free-freed start size a lo (e ∷ es) s o h =
    let bounds = in_range→bounds start size a h in
    let rest : overlaps_free es start (start + size) ≡ false = ground (arith, o) in
    let apart : (e.start + e.page_count * 4096 ≤ start) ⊎ (start + size ≤ e.start) =
      ground (arith, o) in
    let tail = overlaps_free-freed start size a (e.start + e.page_count * 4096 + 1) es s.2 rest h in
    elim apart [
      | inl before ↦ rw (in_range_above e.start (e.page_count * 4096) a (omega arith), tail)
      | inr after ↦ rw (in_range_below e.start (e.page_count * 4096) a (omega arith), tail)
    ]

-- The end of an ownership of `n` pages: they were all lent out, and exactly they are no longer.
pub record Released (s : PhysicalPageAllocator) (start n : ℕ) (s' : PhysicalPageAllocator)
    : Type 0 where
  pub valid : IsValid s'
  pub lent : (a : ℕ) → in_range start (n * 4096) a ≡ true → owned s a ≡ true
  pub keeps : (a : ℕ) → owned s' a ≡ (owned s a && not (in_range start (n * 4096) a))

-- Why a range is refused.
pub data Refusal (s : PhysicalPageAllocator) (start n : ℕ) : Type 0 where
  not_initialized : s.initialized ≡ false → Refusal s start n
  no_pages : n ≡ 0 → Refusal s start n
  misaligned : start % 4096 ≢ 0 → Refusal s start n
  more_than_lent : s.allocated_pages < n → Refusal s start n
  past_the_end : u64_max < start + n * 4096 → Refusal s start n
  in_no_region : was_allocated s.regions start (start + n * 4096) ≡ false → Refusal s start n
  already_free : overlaps_free s.free_extents start (start + n * 4096) ≡ true → Refusal s start n
  table_full : max_free_extents ≤ length s.free_extents → Refusal s start n

abbrev pub ReleasedOrRefused : PhysicalPageAllocator → ℕ → ℕ → PhysicalPageAllocator × Bool → Type 0
ReleasedOrRefused s start n result =
    ((result ≡ (s, false)) × Refusal s start n)
    ⊎ ((s' : PhysicalPageAllocator) × (result ≡ (s', true)) × Released s start n s')

module _ (s : PhysicalPageAllocator) (start n : ℕ) (v : IsValid s) (pos : 0 < n)
    (aligned : start % 4096 ≡ 0) (enough : n ≤ s.allocated_pages)
    (fits : start + n * 4096 ≤ u64_max) where
  released :
      (es' : List FreeExtent)
      → was_allocated s.regions start (start + n * 4096) ≡ true
      → overlaps_free s.free_extents start (start + n * 4096) ≡ false
      → Returned start n s.free_extents es'
      → Released s start n
          (record s { allocated_pages = s.allocated_pages - n; free_extents = es' })
  released es' w o r = record {
    valid = record {
      separated = r.separated;
      disjoint = v.disjoint;
      handed_back = λ a h. ground (
        arith,
        r.joined a,
        v.handed_back a,
        was_allocated-handed start (n * 4096) a s.regions v.disjoint w,
      );
      accounted = omega (arith, r.pages, v.accounted);
      total = v.total;
      bounded = v.bounded;
    };
    lent = λ a h. ground (
      arith,
      was_allocated-handed start (n * 4096) a s.regions v.disjoint w h,
      overlaps_free-freed start (n * 4096) a 0 s.free_extents v.separated o h,
    );
    keeps = λ a. ground (arith, r.joined a);
  }

  deallocate_range-Released :
      ReleasedOrRefused s start n (deallocate_range s start (start + n * 4096) n)
  unfolding deallocate_range
  deallocate_range-Released = elim (Bool-cases (was_allocated s.regions start (start + n * 4096))) [
    | inr nowhere ↦ inl (simp nowhere, in_no_region nowhere)
    | inl somewhere ↦ elim (Bool-cases (overlaps_free s.free_extents start (start + n * 4096))) [
      | inl free ↦ inl (simp (somewhere, free), already_free free)
      | inr apart ↦
          elim (return_extent-Returned start n s.free_extents pos aligned fits v.separated apart) [
            | inl (gone, full) ↦ inl (simp (somewhere, apart, gone), table_full full)
            | inr (es', taken, r) ↦
                inr (_, simp (somewhere, apart, taken), released es' somewhere apart r)
          ]
    ]
  ]

-- On a valid allocator `deallocate_contiguous_pages` either answers `false`, changes nothing, and
-- has one of the eight reasons of `Refusal`; or it answers `true`, and then all of the pages were
-- owned, exactly they are no longer owned afterwards, and the allocator is valid.
pub deallocate-Released :
    (s : PhysicalPageAllocator) (start n : ℕ)
    → IsValid s
    → ReleasedOrRefused s start n (deallocate_contiguous_pages s start n)
unfolding deallocate_contiguous_pages
deallocate-Released s start n v = elim (Bool-cases s.initialized) [
  | inr cold ↦ inl (simp cold, not_initialized cold)
  | inl ready ↦ elim (Bool-cases (n == 0)) [
    | inl empty ↦ inl (simp (ready, empty), no_pages (ground arith))
    | inr some_pages ↦ elim (Bool-cases (start % 4096 == 0)) [
      | inr odd ↦ inl (simp (ready, some_pages, odd), misaligned (ground arith))
      | inl aligned ↦ elim (Bool-cases (ltb s.allocated_pages n)) [
        | inl few ↦ inl (simp (ready, some_pages, aligned, few), more_than_lent (ground arith))
        | inr enough ↦ elim (Bool-cases (leb (n * 4096) u64_max)) [
          | inr long ↦
              inl (simp (ready, some_pages, aligned, enough, long), past_the_end (ground arith))
          | inl short ↦ elim (Bool-cases (leb (start + n * 4096) u64_max)) [
            | inr past ↦ inl (
              simp (ready, some_pages, aligned, enough, short) (rw (past, checked_add)),
              past_the_end (ground arith),
            )
            | inl fits ↦
                let same : deallocate_contiguous_pages s start n
                    ≡ deallocate_range s start (start + n * 4096) n =
                  simp (ready, some_pages, aligned, enough, short) (rw (fits, checked_add)) in
                subst (ReleasedOrRefused s start n) (sym same) (
                  deallocate_range-Released s start n v (ground arith) (ground arith) (ground arith)
                    (ground arith))
          ]
        ]
      ]
    ]
  ]
]

-- A range that no region holds is refused whatever the other guards say.
pub deallocate_nowhere :
    (s : PhysicalPageAllocator) (start n : ℕ)
    → was_allocated s.regions start (start + n * 4096) ≡ false
    → deallocate_contiguous_pages s start n ≡ (s, false)
unfolding deallocate_contiguous_pages
deallocate_nowhere s start n h =
    let range : deallocate_range s start (start + n * 4096) n ≡ (s, false) =
      unfold deallocate_range in simp h in
    ground (arith, range)
