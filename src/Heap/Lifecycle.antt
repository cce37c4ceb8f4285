-- ===== src/Heap/Lifecycle.antt =====
-- What happens to a heap of libs/heap-allocator/src/lib.rs over several operations, and the alignment of
-- the addresses that it gives.
use native.Mathlib.Nat.{add-mod-mod}
use codex_os.Prelude.{
  ℕ, ◌+◌, ◌-◌, ◌%◌, ◌^◌, ◌≤◌, ◌<◌, ◌≡◌, ◌≢◌, refl, sym, ap, ◌∙◌, List, [], ◌∷◌, ◌++◌, Bool, true,
  false, arith, leb, leb→le, max, Bool-cases, inl, inr, Option, some, none, u64_max,
}
use codex_os.Heap.{Region, Layout, free_align}
use codex_os.Heap.Cells.{Cell, free, used, AreApart, IsHeap, starts_free}
use codex_os.Heap.Allocate.{Found, absent, found, allocate_from_free_list}
use codex_os.Heap.Allocate.Search.{user_in-bounds}
use codex_os.Heap.Allocate.Refines.{AllocatesAs, allocate-Refines}
use codex_os.Heap.Release.{deallocate_into_region}
use codex_os.Heap.Release.Refines.{deallocate-Refines}
use codex_os.Heap.FirstFit.{first_fit, place, behind, user_in, suffix_of}
use codex_os.Heap.Release.Freed.{cons_free, freed}

-- The allocation that the first fit made, among the cells, and that its release gives the cells before.
pub record Undone (user requested : ℕ) (cells cells' : List Cell) : Type 0 where
  pub before : List Cell
  pub size : ℕ
  pub after : List Cell
  pub split : cells' ≡ before ++ used size user requested ∷ after
  pub back : freed before size after ≡ cells

abbrev pub UndoneIn : Option (ℕ × List Cell) → ℕ → List Cell → Type 0
UndoneIn none requested cells = Unit
UndoneIn (some (user, cells')) requested cells = Undone user requested cells cells'

cons_free-used_first :
    (size : ℕ) (cells : List Cell)
    → starts_free cells ≡ false
    → cons_free size cells ≡ free size ∷ cells
unfolding cons_free
cons_free-used_first size [] h = refl
cons_free-used_first size (free more ∷ cells) h = absurd cc
cons_free-used_first size (used more user asked ∷ cells) h = refl

place-Undone :
    (user requested start size : ℕ) (cells : List Cell)
    → AreApart (free size ∷ cells)
    → start + 32 ≤ user
    → user + requested ≤ start + size
    → Undone user requested (free size ∷ cells) (place user requested start size cells)
unfolding place freed cons_free
place-Undone user requested start size cells apart low fits =
    elim (Bool-cases (leb (suffix_of user requested + 16) (start + size))) [
      | inl cut ↦
          let inside = leb→le _ _ cut in
          let sum : suffix_of user requested - start + (start + size - suffix_of user requested)
              ≡ size =
            omega arith in
          rw cut (record {
            before = [];
            size = suffix_of user requested - start;
            after = free (start + size - suffix_of user requested) ∷ cells;
            split = refl;
            back = rw sum refl;
          })
      | inr whole ↦ rw whole (record {
        before = [];
        size = size;
        after = cells;
        split = refl;
        back = cons_free-used_first size cells apart.0;
      })
    ]

Undone-used :
    (requested size user asked : ℕ) (cells : List Cell) (o : Option (ℕ × List Cell))
    → UndoneIn o requested cells
    → UndoneIn (behind (used size user asked) o) requested (used size user asked ∷ cells)
unfolding freed
Undone-used requested size user asked cells none h = tt
Undone-used requested size user asked cells (some (v, cells')) h = record {
  before = used size user asked ∷ h.before;
  size = h.size;
  after = h.after;
  split = ap (λ t. used size user asked ∷ t) h.split;
  back = ap (λ t. used size user asked ∷ t) h.back;
}

-- Behind a free cell the allocation is not the first.
freed_behind :
    (more size : ℕ) (cells before after : List Cell)
    → starts_free cells ≡ false
    → freed before size after ≡ cells
    → freed (free more ∷ before) size after ≡ free more ∷ cells
unfolding freed cons_free
freed_behind more size cells [] [] h e = let touching = ap starts_free e in absurd cc
freed_behind more size cells [] (free extra ∷ after) h e =
    let touching = ap starts_free e in absurd cc
freed_behind more size cells [] (used extra user asked ∷ after) h e =
    let touching = ap starts_free e in absurd cc
freed_behind more size cells (c ∷ before) after h e = ap (λ t. free more ∷ t) e

Undone-free :
    (requested size : ℕ) (cells : List Cell) (o : Option (ℕ × List Cell))
    → starts_free cells ≡ false
    → UndoneIn o requested cells
    → UndoneIn (behind (free size) o) requested (free size ∷ cells)
Undone-free requested size cells none apart h = tt
Undone-free requested size cells (some (v, cells')) apart h = record {
  before = free size ∷ h.before;
  size = h.size;
  after = h.after;
  split = ap (λ t. free size ∷ t) h.split;
  back = freed_behind size h.size cells h.before h.after apart h.back;
}

first_fit-Undone :
    (k requested start : ℕ) (cells : List Cell)
    → AreApart cells
    → UndoneIn (first_fit k requested start cells) requested cells
unfolding first_fit
first_fit-Undone k requested start [] apart = tt
first_fit-Undone k requested start (used size user asked ∷ cells) apart =
    Undone-used requested size user asked cells (first_fit k requested (start + size) cells)
      (first_fit-Undone k requested (start + size) cells apart)
first_fit-Undone k requested start (free size ∷ cells) apart =
    elim (Bool-cases (leb (user_in k start + requested) (start + size))) [
      | inl fits ↦ rw fits (
          place-Undone (user_in k start) requested start size cells apart (user_in-bounds k start)
            (leb→le _ _ fits))
      | inr small ↦ rw small (
          Undone-free requested size cells (first_fit k requested (start + size) cells) apart.0
            (first_fit-Undone k requested (start + size) cells apart.1))
    ]

found_user : ℕ → Option Found → ℕ
found_user d none = d
found_user d (some absent) = d
found_user d (some (found user r)) = user

found_region : Region → Option Found → Region
found_region d none = d
found_region d (some absent) = d
found_region d (some (found user r)) = r

is_found : Option Found → Bool
is_found none = false
is_found (some absent) = false
is_found (some (found user r)) = true

release_found :
    (fuel capacity k base requested user : ℕ) (r r' : Region) (cells : List Cell)
    (o : Option (ℕ × List Cell)) (result : Option Found)
    → capacity < fuel
    → capacity < u64_max
    → base + capacity ≤ u64_max
    → AllocatesAs o result capacity k requested r cells
    → UndoneIn o requested cells
    → result ≡ some (found user r')
    → (r'' : Region) × ((deallocate_into_region fuel r' base capacity (base + user) ≡ some r'')
        × IsHeap capacity r'' cells)
unfolding is_found found_user found_region
release_found fuel capacity k base requested user r r' cells none result enough small room e u run =
    let wrong = ap is_found (sym e ∙ run) in absurd cc
release_found fuel capacity k base requested user r r' cells (some (v, cells')) result enough small
      room (r1, (e, a)) u run =
    let same_user : v ≡ user = ap (found_user v) (sym e ∙ run) in
    let same : r1 ≡ r' = ap (found_region r1) (sym e ∙ run) in
    let heap : IsHeap capacity r1 (u.before ++ used u.size v requested ∷ u.after) =
      rw (← u.split) a.heap in
    let (r'', (run', left)) =
      deallocate-Refines capacity fuel base r1 u.before u.size v requested u.after heap enough small
        room in
    (r'', (rw (← same, ← same_user) run', rw (← u.back) left.heap))

-- What was allocated on a heap that holds some cells can be released at once, and then the heap holds
-- the same cells again.
pub allocate_then_deallocate_heap :
    (fuel capacity k base user : ℕ) (r r' : Region) (cells : List Cell) (layout : Layout)
    → IsHeap capacity r cells
    → 3 ≤ k
    → k ≤ 63
    → max layout.align free_align ≡ 2 ^ k
    → capacity + 2 ^ k + 40 ≤ u64_max
    → base + capacity ≤ u64_max
    → capacity < fuel
    → allocate_from_free_list fuel r layout ≡ some (found user r')
    → (r'' : Region) × ((deallocate_into_region fuel r' base capacity (base + user) ≡ some r'')
        × IsHeap capacity r'' cells)
allocate_then_deallocate_heap fuel capacity k base user r r' cells layout heap low high power room
      fits enough run =
    release_found fuel capacity k base (max layout.size 1) user r r' cells
      (first_fit k (max layout.size 1) 0 cells) (allocate_from_free_list fuel r layout) enough
      (omega arith) fits
      (allocate-Refines fuel capacity k r cells layout heap low high power room enough)
      (first_fit-Undone k (max layout.size 1) 0 cells heap.apart) run

granted_remainder :
    (fuel capacity k requested user : ℕ) (r r' : Region) (cells : List Cell)
    (o : Option (ℕ × List Cell)) (result : Option Found)
    → AllocatesAs o result capacity k requested r cells
    → result ≡ some (found user r')
    → user % 2 ^ k ≡ 0
unfolding is_found found_user
granted_remainder fuel capacity k requested user r r' cells none result e run =
    let wrong = ap is_found (sym e ∙ run) in absurd cc
granted_remainder fuel capacity k requested user r r' cells (some (v, cells')) result (r1, (e, a))
      run =
    let same_user : v ≡ user = ap (found_user v) (sym e ∙ run) in rw (← same_user) a.grants.aligned

-- The alignment is relative to the base of the region: the address that an allocation is given has the
-- remainder of the base, so in a region whose base is not a multiple of the alignment asked for, no
-- allocation has that alignment.
pub allocate-misaligned :
    (fuel capacity k base user : ℕ) (r r' : Region) (cells : List Cell) (layout : Layout)
    → IsHeap capacity r cells
    → 3 ≤ k
    → k ≤ 63
    → max layout.align free_align ≡ 2 ^ k
    → capacity + 2 ^ k + 40 ≤ u64_max
    → capacity < fuel
    → base % 2 ^ k ≢ 0
    → allocate_from_free_list fuel r layout ≡ some (found user r')
    → ((base + user) % 2 ^ k ≡ base % 2 ^ k) × ((base + user) % 2 ^ k ≢ 0)
allocate-misaligned fuel capacity k base user r r' cells layout heap low high power room enough off
      run =
    let even =
      granted_remainder fuel capacity k (max layout.size 1) user r r' cells
        (first_fit k (max layout.size 1) 0 cells) (allocate_from_free_list fuel r layout)
        (allocate-Refines fuel capacity k r cells layout heap low high power room enough) run in
    let same : (base + user) % 2 ^ k ≡ base % 2 ^ k =
      sym (add-mod-mod base user (2 ^ k))
      ∙ ap (λ (t : ℕ). t % 2 ^ k) {x = base + user % 2 ^ k} {y = base} (omega arith) in
    (same, λ e. off (sym same ∙ e))
