-- ===== src/Scheduler/Trap/Wakes.antt =====
-- The ticks that the sleepers of kernel/src/scheduler.rs wait for.
use codex_os.Prelude.{
  ℕ, zero, suc, ◌≤◌, ◌<◌, ◌≡◌, ◌⊎◌, inl, inr, refl, ap, leb, List, [], ◌∷◌, Bool, true, false,
  Option, none, some, arith, get_elem?, set, Bool-cases,
}
use mathlib.Core.Option.{some-injective}
use codex_os.Scheduler.{
  Process, ProcessState, runnable, sleeping, exited, faulted, wake, wake_sleepers, has_sleepers,
  is_sleeping,
}
use codex_os.Scheduler.Idle.{state_at}
use codex_os.Scheduler.Trap.{update_process}

-- Every sleeper's tick is at most a bound.
abbrev pub WakesBy : ℕ → List Process → Type 0
WakesBy bound ps = (i w : ℕ) → state_at ps i ≡ some (sleeping w) → w ≤ bound

abbrev pub wake_tick_of : ProcessState → ℕ
wake_tick_of (sleeping w) = w
wake_tick_of _ = 0

woken_state :
    (t : ℕ) (s : ProcessState) (w : ℕ)
    → wake t s ≡ sleeping w
    → (t < w) × (some s ≡ some (sleeping w))
woken_state t runnable w h = absurd cc
woken_state t (exited status) w h = absurd cc
woken_state t (faulted vector address error) w h = absurd cc
woken_state t (sleeping v) w h = elim (Bool-cases (leb v t)) [
  | inl e ↦ let q = simp e at h in absurd cc
  | inr e ↦
      let q : sleeping v ≡ sleeping w = simp e at h in
      let r : v ≡ w = ap wake_tick_of q in (ground arith, ap some q)
]

sleeping_cases : (s : ProcessState) → ((w : ℕ) × (s ≡ sleeping w)) ⊎ (is_sleeping s ≡ false)
sleeping_cases (sleeping w) = inl (w, refl)
sleeping_cases runnable = inr refl
sleeping_cases (exited status) = inr refl
sleeping_cases (faulted vector address error) = inr refl

pub woken_sleeper :
    (t : ℕ) (ps : List Process) (i w : ℕ)
    → state_at (wake_sleepers t ps) i ≡ some (sleeping w)
    → (t < w) × (state_at ps i ≡ some (sleeping w))
unfolding wake_sleepers
woken_sleeper t [] i w h = absurd cc
woken_sleeper t (p ∷ ps) (suc i) w h = woken_sleeper t ps i w h
woken_sleeper t (p ∷ ps) zero w h = woken_state t p.state w (some-injective _ _ h)

pub find_sleeper :
    (ps : List Process)
    → has_sleepers ps ≡ true
    → (i : ℕ) × ((w : ℕ) × (state_at ps i ≡ some (sleeping w)))
unfolding has_sleepers
find_sleeper [] h = absurd cc
find_sleeper (p ∷ ps) h = elim (sleeping_cases p.state) [
  | inl (w, e) ↦ (0, (w, ap some e))
  | inr e ↦ let (i, (w, q)) = find_sleeper ps (simp e at h) in (suc i, (w, q))
]

pub state_at-set :
    (ps : List Process) (i : ℕ) (q : Process) (j : ℕ) (s : ProcessState)
    → state_at (set ps i q) j ≡ some s
    → (state_at ps j ≡ some s) ⊎ (q.state ≡ s)
state_at-set [] i q j s h = inl h
state_at-set (p ∷ ps) zero q zero s h = inr (some-injective q.state s h)
state_at-set (p ∷ ps) zero q (suc j) s h = inl h
state_at-set (p ∷ ps) (suc i) q zero s h = inl h
state_at-set (p ∷ ps) (suc i) q (suc j) s h = state_at-set ps i q j s h

pub state_at-update_process :
    (ps : List Process) (i : ℕ) (r : ProcessState) (j : ℕ) (s : ProcessState)
    → state_at (update_process i (λ (p : Process). record p { state = r }) ps) j ≡ some s
    → (state_at ps j ≡ some s) ⊎ (r ≡ s)
state_at-update_process [] i r j s h = inl h
state_at-update_process (p ∷ ps) zero r zero s h = inr (some-injective r s h)
state_at-update_process (p ∷ ps) zero r (suc j) s h = inl h
state_at-update_process (p ∷ ps) (suc i) r zero s h = inl h
state_at-update_process (p ∷ ps) (suc i) r (suc j) s h = state_at-update_process ps i r j s h

pub state_there :
    (ps : List Process) (i : ℕ) (p : Process)
    → get_elem? ps i ≡ some p
    → state_at ps i ≡ some p.state
state_there [] i p h = absurd cc
state_there (q ∷ ps) zero p h = ap (λ (r : Process). some r.state) (some-injective q p h)
state_there (q ∷ ps) (suc i) p h = state_there ps i p h

abbrev pub is_some {ℓ} : {A : Type ℓ} → Option A → Bool
is_some none = false
is_some (some a) = true
