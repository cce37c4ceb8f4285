-- ===== src/Memory/Extents.antt =====
-- The list of free extents of kernel/src/memory.rs: sorted, apart, and what its operations do to
-- the addresses that it holds.
use codex_os.Prelude.{
  ℕ, ◌+◌, ◌-◌, ◌*◌, ◌%◌, ◌≤◌, ◌<◌, ◌≡◌, refl, ◌==◌, leb, List, [], ◌∷◌, Bool, true, false, ◌||◌,
  some, none, arith, in_range, in_range_below, in_range_above, in_range-add, or_assoc, or_comm,
  or_rotate, u64_max, in_range→bounds, saturating_add, saturating_mul, ◌⊎◌, Bool-cases, inl, inr,
  sym,
}
use codex_os.BootInfo.{page_size}
use codex_os.Memory.{FreeExtent, take_extent}

-- The address is in one of the extents.
unfoldable pub freed : List FreeExtent → ℕ → Bool
freed [] a = false
freed (e ∷ es) a = in_range e.start (e.page_count * 4096) a || freed es a

abbrev pub free_pages : List FreeExtent → ℕ
free_pages [] = 0
free_pages (e ∷ es) = e.page_count + free_pages es

-- One extent: some pages, page-aligned, within 64 bits.
abbrev pub IsExtent : FreeExtent → Type 0
IsExtent e = (0 < e.page_count) × (e.start % 4096 ≡ 0) × (e.start + e.page_count * 4096 ≤ u64_max)

-- Rising from `lo` on, with a gap after each extent: no two touch.
abbrev pub Separated : ℕ → List FreeExtent → Type 0
Separated lo [] = Unit {0}
Separated lo (e ∷ es) =
    (lo ≤ e.start) × IsExtent e × Separated (e.start + e.page_count * 4096 + 1) es

-- The same for a list in falling order, whose first extent ends below `hi`.
abbrev pub SeparatedBelow : ℕ → List FreeExtent → Type 0
SeparatedBelow hi [] = Unit {0}
SeparatedBelow hi (e ∷ es) =
    (e.start + e.page_count * 4096 < hi) × IsExtent e × SeparatedBelow e.start es

pub Separated-mono :
    {lo lo' : ℕ} (es : List FreeExtent) → lo' ≤ lo → Separated lo es → Separated lo' es
Separated-mono [] h s = tt
Separated-mono (e ∷ es) h s = (omega arith, s.1, s.2)

pub SeparatedBelow-mono :
    {hi hi' : ℕ} (es : List FreeExtent) → hi ≤ hi' → SeparatedBelow hi es → SeparatedBelow hi' es
SeparatedBelow-mono [] h s = tt
SeparatedBelow-mono (e ∷ es) h s = (omega arith, s.1, s.2)

pub freed_below : (lo a : ℕ) (es : List FreeExtent) → Separated lo es → a < lo → freed es a ≡ false
unfolding freed
freed_below lo a [] s h = refl
freed_below lo a (e ∷ es) s h = rw (
  in_range_below e.start (e.page_count * 4096) a (omega arith),
  freed_below (e.start + e.page_count * 4096 + 1) a es s.2 (omega arith),
)

-- What `take_extent` does to a separated list.
pub record Taken (n lo : ℕ) (es : List FreeExtent) (address : ℕ) (es' : List FreeExtent)
    : Type 0 where
  pub separated : Separated lo es'
  pub above : lo ≤ address
  pub aligned : address % 4096 ≡ 0
  pub fits : address + n * 4096 ≤ u64_max
  pub pages : free_pages es ≡ free_pages es' + n
  pub split : (a : ℕ) → freed es a ≡ (freed es' a || in_range address (n * 4096) a)
  pub gone : (a : ℕ) → in_range address (n * 4096) a ≡ true → freed es' a ≡ false

module _ (n lo : ℕ) (x : FreeExtent) (es : List FreeExtent) (pos : 0 < n)
    (s : Separated lo (x ∷ es)) where
  abbrev rest_of : FreeExtent
  rest_of = record x {
    start = saturating_add x.start (saturating_mul n page_size);
    page_count = x.page_count - n;
  }

  Taken-whole : x.page_count ≡ n → Taken n lo (x ∷ es) x.start es
  unfolding freed
  Taken-whole e = record {
    separated = Separated-mono es (omega arith) s.2;
    above = s.0;
    aligned = s.1.1;
    fits = rw (← e) s.1.2;
    pages = omega arith;
    split = λ a. rw e (or_comm (in_range x.start (n * 4096) a) (freed es a));
    gone = λ a h.
        freed_below _ a es s.2 (rw e (omega (arith, (in_range→bounds x.start (n * 4096) a h).1)));
  }

  Taken-part : n < x.page_count → Taken n lo (x ∷ es) x.start (rest_of ∷ es)
  unfolding freed
  Taken-part e = record {
    separated =
        (omega arith, (omega arith, omega arith, omega arith), Separated-mono es (omega arith) s.2);
    above = s.0;
    aligned = s.1.1;
    fits = omega arith;
    pages = omega arith;
    split = λ a.
        let start : saturating_add x.start (saturating_mul n 4096) ≡ x.start + n * 4096 =
          omega arith in
        let size : x.page_count * 4096 ≡ n * 4096 + (x.page_count - n) * 4096 = omega arith in
        rw (start, size, in_range-add x.start (n * 4096) ((x.page_count - n) * 4096) a)
          (or_rotate (in_range x.start (n * 4096) a) _ (freed es a));
    gone = λ a h.
        let bounds = in_range→bounds x.start (n * 4096) a h in
        rw (
          in_range_below (saturating_add x.start (saturating_mul n 4096))
              ((x.page_count - n) * 4096) a (omega arith),
          freed_below _ a es s.2 (omega arith),
        );
  }

  Taken-later :
      {address : ℕ} {es' : List FreeExtent}
      → Taken n (x.start + x.page_count * 4096 + 1) es address es'
      → Taken n lo (x ∷ es) address (x ∷ es')
  unfolding freed
  Taken-later {address} {es'} t = record {
    separated = (s.0, s.1, t.separated);
    above = omega (arith, t.above);
    aligned = t.aligned;
    fits = t.fits;
    pages = omega (arith, t.pages);
    split = λ a. rw (t.split a) (
        sym (
          or_assoc (in_range x.start (x.page_count * 4096) a) (freed es' a)
            (in_range address (n * 4096) a)));
    gone = λ a h.
        let bounds = in_range→bounds address (n * 4096) a h in
        rw (in_range_above x.start (x.page_count * 4096) a (omega (arith, t.above)), t.gone a h);
  }

-- `take_extent` finds nothing, or takes pages as `Taken` says.
pub take_extent_cases :
    (n lo : ℕ) (es : List FreeExtent)
    → 0 < n
    → Separated lo es
    → (take_extent n es ≡ none)
      ⊎ ((address : ℕ) × (es' : List FreeExtent) × (take_extent n es ≡ some (address, es'))
          × Taken n lo es address es')
unfolding take_extent
take_extent_cases n lo [] pos s = inl refl
take_extent_cases n lo (x ∷ es) pos s = elim (Bool-cases (leb n x.page_count)) [
  | inl enough ↦ elim (Bool-cases (x.page_count - n == 0)) [
    | inl all ↦ inr (x.start, es, rw (enough, all), Taken-whole n lo x es pos s (ground arith))
    | inr more ↦ inr (
      x.start,
      rest_of n lo x es pos s ∷ es,
      rw (enough, more),
      Taken-part n lo x es pos s (ground arith),
    )
  ]
  | inr short ↦ elim (take_extent_cases n (x.start + x.page_count * 4096 + 1) es pos s.2) [
    | inl none_left ↦ inl (rw (short, none_left))
    | inr (address, es', found, t) ↦
        inr (address, x ∷ es', rw (short, found), Taken-later n lo x es pos s t)
  ]
]
