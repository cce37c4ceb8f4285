-- ===== src/Memory/Regions.antt =====
-- The region cursors of kernel/src/memory.rs: which addresses they have handed out, and what
-- `take_region` adds.
use codex_os.Prelude.{
  ℕ, ◌+◌, ◌*◌, ◌%◌, ◌≤◌, ◌<◌, ◌≡◌, refl, ltb, List, [], ◌∷◌, Bool, true, false, ◌||◌, some, none,
  arith, in_range, in_range→bounds, in_range_intro, in_range-add, in_range_above, u64_max,
  Bool-cases, inl, inr, ◌⊎◌, saturating_add, saturating_mul,
}
use codex_os.Memory.{RegionCursor, take_region, remaining_pages, was_allocated}

-- The address is in the part that a region has handed out.
unfoldable pub handed : List RegionCursor → ℕ → Bool
handed [] a = false
handed (r ∷ rs) a = in_range r.start (r.next_page * 4096) a || handed rs a

-- The address is in a region at all.
unfoldable pub spanned : List RegionCursor → ℕ → Bool
spanned [] a = false
spanned (r ∷ rs) a = in_range r.start (r.page_count * 4096) a || spanned rs a

abbrev pub handed_pages : List RegionCursor → ℕ
handed_pages [] = 0
handed_pages (r ∷ rs) = r.next_page + handed_pages rs

abbrev pub total_pages : List RegionCursor → ℕ
total_pages [] = 0
total_pages (r ∷ rs) = r.page_count + total_pages rs

abbrev pub IsRegion : RegionCursor → Type 0
IsRegion r =
    (r.next_page ≤ r.page_count) × (r.start % 4096 ≡ 0) × (r.start + r.page_count * 4096 ≤ u64_max)

abbrev pub IsApart : RegionCursor → List RegionCursor → Type 0
IsApart r rs = (a : ℕ) → in_range r.start (r.page_count * 4096) a ≡ true → spanned rs a ≡ false

-- Regions within 64 bits, no two of which share an address.
abbrev pub Disjoint : List RegionCursor → Type 0
Disjoint [] = Unit {0}
Disjoint (r ∷ rs) = IsRegion r × IsApart r rs × Disjoint rs

pub handed-spanned :
    (a : ℕ) (rs : List RegionCursor) → Disjoint rs → handed rs a ≡ true → spanned rs a ≡ true
unfolding handed spanned
handed-spanned a [] d h = cc
handed-spanned a (r ∷ rs) d h = elim (Bool-cases (in_range r.start (r.next_page * 4096) a)) [
  | inl here ↦
      let bounds = in_range→bounds r.start (r.next_page * 4096) a here in
      rw (in_range_intro r.start (r.page_count * 4096) a bounds.0 (omega arith))
  | inr later ↦
      let rest : spanned rs a ≡ true = handed-spanned a rs d.2 (ground (arith, later)) in
      ground (arith, rest)
]

-- What `take_region` does: `n` pages that no region had handed out are handed out now.
pub record Moved (n : ℕ) (rs : List RegionCursor) (address : ℕ) (rs' : List RegionCursor)
    : Type 0 where
  pub disjoint : Disjoint rs'
  pub aligned : address % 4096 ≡ 0
  pub fits : address + n * 4096 ≤ u64_max
  pub pages : handed_pages rs' ≡ handed_pages rs + n
  pub total : total_pages rs' ≡ total_pages rs
  pub same_span : (a : ℕ) → spanned rs' a ≡ spanned rs a
  pub split : (a : ℕ) → handed rs' a ≡ (handed rs a || in_range address (n * 4096) a)
  pub inside : (a : ℕ) → in_range address (n * 4096) a ≡ true → spanned rs a ≡ true
  pub in_one : was_allocated rs' address (address + n * 4096) ≡ true
  pub unused : (a : ℕ) → in_range address (n * 4096) a ≡ true → handed rs a ≡ false

module _ (n : ℕ) (r : RegionCursor) (rs : List RegionCursor) (pos : 0 < n)
    (d : Disjoint (r ∷ rs)) where
  not_handed : (a : ℕ) → in_range r.start (r.page_count * 4096) a ≡ true → handed rs a ≡ false
  not_handed a h = elim (Bool-cases (handed rs a)) [
    | inl there ↦ cc (handed-spanned a rs d.2 there, d.1 a h)
    | inr clear ↦ clear
  ]

  abbrev moved_on : RegionCursor
  moved_on = record r { next_page = saturating_add r.next_page n }

  Moved-here :
      r.next_page + n ≤ r.page_count
      → Moved n (r ∷ rs) (saturating_add r.start (saturating_mul r.next_page 4096)) (moved_on ∷ rs)
  unfolding handed spanned
  Moved-here room =
      let from : saturating_add r.start (saturating_mul r.next_page 4096)
          ≡ r.start + r.next_page * 4096 =
        omega arith in
      let next : saturating_add r.next_page n ≡ r.next_page + n = omega arith in
      let size : (r.next_page + n) * 4096 ≡ r.next_page * 4096 + n * 4096 = omega arith in
      rw from (record {
        disjoint = ((rw next room, d.0.1, d.0.2), d.1, d.2);
        aligned = omega arith;
        fits = omega arith;
        pages = omega arith;
        total = refl;
        same_span = λ a. refl;
        split = λ a.
            rw (next, size, in_range-add r.start (r.next_page * 4096) (n * 4096) a) (ground arith);
        inside = λ a h.
            let bounds = in_range→bounds (r.start + r.next_page * 4096) (n * 4096) a h in
            rw (in_range_intro r.start (r.page_count * 4096) a (omega arith) (omega arith));
        in_one = rw next (ground arith);
        unused = λ a h.
            let bounds = in_range→bounds (r.start + r.next_page * 4096) (n * 4096) a h in
            rw (
              in_range_above r.start (r.next_page * 4096) a bounds.0,
              not_handed a
                  (in_range_intro r.start (r.page_count * 4096) a (omega arith) (omega arith)),
            );
      })

  Moved-later :
      {address : ℕ} {rs' : List RegionCursor}
      → Moved n rs address rs'
      → Moved n (r ∷ rs) address (r ∷ rs')
  unfolding handed spanned
  Moved-later {address} {rs'} m = record {
    disjoint = (d.0, (λ a h. rw (m.same_span a) (d.1 a h)), m.disjoint);
    aligned = m.aligned;
    fits = m.fits;
    pages = omega (arith, m.pages);
    total = omega (arith, m.total);
    same_span = λ a. rw (m.same_span a);
    split = λ a. ground (arith, m.split a);
    inside = λ a h. ground (arith, m.inside a h);
    in_one = ground (arith, m.in_one);
    unused = λ a h. elim (Bool-cases (in_range r.start (r.next_page * 4096) a)) [
      | inr clear ↦ rw clear (m.unused a h)
      | inl there ↦
          let bounds = in_range→bounds r.start (r.next_page * 4096) a there in
          cc (
            d.1 a (in_range_intro r.start (r.page_count * 4096) a bounds.0 (omega arith)),
            m.inside a h,
          )
    ];
  }

-- `take_region` finds no region with enough pages left, or hands out pages as `Moved` says.
pub take_region_cases :
    (n : ℕ) (rs : List RegionCursor)
    → 0 < n
    → Disjoint rs
    → (take_region n rs ≡ none)
      ⊎ ((address : ℕ) × (rs' : List RegionCursor) × (take_region n rs ≡ some (address, rs'))
          × Moved n rs address rs')
unfolding take_region
take_region_cases n [] pos d = inl refl
take_region_cases n (r ∷ rs) pos d = elim (Bool-cases (ltb (remaining_pages r) n)) [
  | inr room ↦ inr (_, _, rw room, Moved-here n r rs pos d (ground arith))
  | inl short ↦ elim (take_region_cases n rs pos d.2) [
    | inl nowhere ↦ inl (rw (short, nowhere))
    | inr (address, rs', found, m) ↦
        inr (address, r ∷ rs', rw (short, found), Moved-later n r rs pos d m)
  ]
]
