-- ===== src/Scheduler/Round.antt =====
-- The choice of the next process in kernel/src/scheduler.rs: round robin from the current one.
use codex_os.Prelude.{
  ℕ, zero, suc, ◌+◌, ◌-◌, ◌%◌, ◌≤◌, ◌<◌, ◌≡◌, ◌⊎◌, inl, inr, refl, ap, ◌∙◌, List, [], ◌∷◌, ltb,
  true, false, none, some, arith, length, Bool-cases, ◌==◌, ==→eq,
}
use native.Mathlib.Nat.{mod-eq_of_lt, add-mod_right}
use codex_os.Scheduler.{Process, find_offset, next_runnable, runnable_at}

-- The process `offset` places after `current`, around the end of the list.
abbrev pub place : List Process → ℕ → ℕ → ℕ
place ps current offset = (current + offset) % length ps

-- Which offset a search found, and that no earlier one is runnable.
pub record IsFirst (ps : List Process) (current first found : ℕ) : Type 0 where
  pub offset : ℕ
  pub from_first : first ≤ offset
  pub is_place : found ≡ place ps current offset
  pub is_runnable_there : runnable_at ps found ≡ true
  pub none_before :
      (earlier : ℕ)
      → first ≤ earlier
      → earlier < offset
      → runnable_at ps (place ps current earlier) ≡ false

extend :
    (ps : List Process) (current first stop : ℕ)
    → runnable_at ps (place ps current first) ≡ false
    → ((k : ℕ) → suc first ≤ k → k < stop → runnable_at ps (place ps current k) ≡ false)
    → (k : ℕ) → first ≤ k
    → k < stop
    → runnable_at ps (place ps current k) ≡ false
extend ps current first stop e h k h1 h2 = elim (Bool-cases (k == first)) [
  | inl q ↦ rw (==→eq k first q) e
  | inr q ↦ h k (ground arith) h2
]

find_offset_cases :
    (ps : List Process) (current first count : ℕ)
    → ((find_offset ps current first count ≡ none)
        × ((k : ℕ) → first ≤ k → k < first + count → runnable_at ps (place ps current k) ≡ false))
      ⊎ ((found : ℕ) × ((find_offset ps current first count ≡ some found)
            × IsFirst ps current first found))
unfolding find_offset
find_offset_cases ps current first zero = inl (refl, λ k h1 h2. absurd (omega arith))
find_offset_cases ps current first (suc count) =
    elim (Bool-cases (runnable_at ps (place ps current first))) [
      | inl e ↦ inr (
        place ps current first,
        (
          rw e,
          record {
            offset = first;
            from_first = omega arith;
            is_place = refl;
            is_runnable_there = e;
            none_before = λ k h1 h2. absurd (omega arith);
          },
        ),
      )
      | inr e ↦ elim (find_offset_cases ps current (suc first) count) [
        | inl (p, h) ↦ inl (
          rw (e, p),
          λ k h1 h2. extend ps current first (suc first + count) e h k h1 (omega arith),
        )
        | inr (found, (p, h)) ↦ inr (
          found,
          (
            rw (e, p),
            record {
              offset = h.offset;
              from_first = omega (arith, h.from_first);
              is_place = h.is_place;
              is_runnable_there = h.is_runnable_there;
              none_before = extend ps current first h.offset e h.none_before;
            },
          ),
        )
      ]
    ]

runnable_below : (ps : List Process) (i : ℕ) → runnable_at ps i ≡ true → i < length ps
runnable_below [] i h = cc
runnable_below (p ∷ ps) zero h = omega arith
runnable_below (p ∷ ps) (suc i) h = omega (arith, runnable_below ps i h)

-- Every index is a place at an offset from one to the length.
reach :
    (ps : List Process) (current i : ℕ)
    → current < length ps
    → i < length ps
    → (k : ℕ) × ((1 ≤ k) × ((k < 1 + length ps) × (place ps current k ≡ i)))
reach ps current i hc hi = elim (Bool-cases (ltb current i)) [
  | inl e ↦ (
    i - current,
    (
      ground arith,
      (
        ground arith,
        ap (λ (t : ℕ). t % length ps) {x = current + (i - current)} {y = i} (ground arith)
            ∙ mod-eq_of_lt hi,
      ),
    ),
  )
  | inr e ↦ (
    length ps - current + i,
    (
      omega arith,
      (
        ground arith,
        ap (λ (t : ℕ). t % length ps) {x = current + (length ps - current + i)} {y = i + length ps}
              (omega arith)
            ∙ add-mod_right i (length ps)
            ∙ mod-eq_of_lt hi,
      ),
    ),
  )
]

-- From a process of the list, the next one is the runnable process at the least offset after it, the
-- process itself last; there is none exactly when no process of the list is runnable.
pub next_runnable_cases :
    (ps : List Process) (current : ℕ)
    → current < length ps
    → ((next_runnable ps current ≡ none) × ((i : ℕ) → i < length ps → runnable_at ps i ≡ false))
      ⊎ ((found : ℕ) × ((next_runnable ps current ≡ some found)
            × ((found < length ps) × IsFirst ps current 1 found)))
unfolding next_runnable
next_runnable_cases ps current hc = elim (find_offset_cases ps current 1 (length ps)) [
  | inl (e, h) ↦
      inl (e, λ i hi. let (k, (h1, (h2, h3))) = reach ps current i hc hi in rw (← h3) (h k h1 h2))
  | inr (found, (e, h)) ↦ inr (found, (e, (runnable_below ps found h.is_runnable_there, h)))
]
