-- ===== src/Scheduler/Idle.antt =====
-- The loop of kernel/src/scheduler.rs that halts until a sleeping process wakes.
use codex_os.Prelude.{
  ℕ, zero, suc, ◌+◌, ◌≤◌, ◌<◌, ◌≡◌, inl, inr, refl, ap, ◌∙◌, List, [], ◌∷◌, Bool, true, false, ◌||◌,
  Option, none, some, arith, length, any, Bool-cases, leb,
}
use mathlib.Core.Option.{some-injective}
use codex_os.Scheduler.{
  Process, ProcessState, runnable, sleeping, Cpu, wake, wake_sleepers, has_sleepers, next_runnable,
  runnable_at, is_sleeping, idle, halt_once,
}
use codex_os.Scheduler.Round.{next_runnable_cases}

-- The state of the process at an index.
abbrev pub state_at : List Process → ℕ → Option ProcessState
state_at [] i = none
state_at (p ∷ ps) zero = some p.state
state_at (p ∷ ps) (suc i) = state_at ps i

pub length-wake_sleepers : (t : ℕ) (ps : List Process) → length (wake_sleepers t ps) ≡ length ps
unfolding wake_sleepers
length-wake_sleepers t [] = refl
length-wake_sleepers t (p ∷ ps) = ap suc (length-wake_sleepers t ps)

pub state_at-wake_sleepers :
    (t : ℕ) (ps : List Process) (i : ℕ) (s : ProcessState)
    → state_at ps i ≡ some s
    → state_at (wake_sleepers t ps) i ≡ some (wake t s)
unfolding wake_sleepers
state_at-wake_sleepers t [] i s h = cc
state_at-wake_sleepers t (p ∷ ps) zero s h = ap (λ r. some (wake t r)) (some-injective p.state s h)
state_at-wake_sleepers t (p ∷ ps) (suc i) s h = state_at-wake_sleepers t ps i s h

or_true : (x : Bool) → (x || true) ≡ true
or_true true = refl
or_true false = refl

has_sleepers-sleeping :
    (ps : List Process) (i w : ℕ) → state_at ps i ≡ some (sleeping w) → has_sleepers ps ≡ true
unfolding has_sleepers
has_sleepers-sleeping [] i w h = cc
has_sleepers-sleeping (p ∷ ps) zero w h = rw (some-injective p.state (sleeping w) h)
has_sleepers-sleeping (p ∷ ps) (suc i) w h =
    let t : any (λ (q : Process). is_sleeping q.state) ps ≡ true = has_sleepers-sleeping ps i w h in
    rw t (or_true (is_sleeping p.state))

runnable_at-runnable :
    (ps : List Process) (i : ℕ) → state_at ps i ≡ some runnable → runnable_at ps i ≡ true
runnable_at-runnable [] i h = cc
runnable_at-runnable (p ∷ ps) zero h = rw (some-injective p.state runnable h)
runnable_at-runnable (p ∷ ps) (suc i) h = runnable_at-runnable ps i h

below : (ps : List Process) (i : ℕ) (s : ProcessState) → state_at ps i ≡ some s → i < length ps
below [] i s h = cc
below (p ∷ ps) zero s h = omega arith
below (p ∷ ps) (suc i) s h = omega (arith, below ps i s h)

module _ (resume : ℕ) (after_halt : ℕ → ℕ) where
  idle-some :
      (fuel current next : ℕ) (cpu : Cpu)
      → idle resume after_halt fuel current (some next) cpu ≡ some (some next, cpu)
  unfolding idle
  idle-some zero current next cpu = refl
  idle-some (suc fuel) current next cpu = refl

  abbrev halted : Cpu → Cpu
  halted cpu = halt_once resume after_halt cpu

  idle_step :
      (fuel current : ℕ) (cpu : Cpu)
      → has_sleepers cpu.scheduler.processes ≡ true
      → idle resume after_halt (suc fuel) current none cpu
        ≡ idle resume after_halt fuel current
            (next_runnable (halted cpu).scheduler.processes current)
            (halted cpu)
  unfolding idle
  idle_step fuel current cpu h = rw h

  -- When each halt advances the tick counter, and a process sleeps until a tick that is at most the
  -- fuel away, the loop ends with a runnable process.
  pub idle_finds :
      (advances : (t : ℕ) → t < after_halt t) (fuel current : ℕ) (cpu : Cpu) (i w : ℕ)
      → current < length cpu.scheduler.processes
      → state_at cpu.scheduler.processes i ≡ some (sleeping w)
      → cpu.machine.ticks < w
      → w ≤ cpu.machine.ticks + fuel
      → (next : ℕ) × ((last : Cpu) × ((idle resume after_halt fuel current none cpu
              ≡ some (some next, last))
            × (runnable_at last.scheduler.processes next ≡ true)))
  unfolding halt_once
  idle_finds advances zero current cpu i w hc hs h1 h2 = absurd (omega arith)
  idle_finds advances (suc fuel) current cpu i w hc hs h1 h2 =
      let ps = cpu.scheduler.processes in
      let t = after_halt cpu.machine.ticks in
      let woken = wake_sleepers t ps in
      let step = idle_step fuel current cpu (has_sleepers-sleeping ps i w hs) in
      let hc' : current < length woken = rw (length-wake_sleepers t ps) hc in
      let state : state_at woken i ≡ some (wake t (sleeping w)) =
        state_at-wake_sleepers t ps i (sleeping w) hs in
      let later : cpu.machine.ticks < t = advances cpu.machine.ticks in
      elim (next_runnable_cases woken current hc') [
        | inr (found, (e, (lt, first))) ↦ (
          found,
          (
            halted cpu,
            (
              step
                  ∙ ap (λ o. idle resume after_halt fuel current o (halted cpu)) e
                  ∙ idle-some fuel current found (halted cpu),
              first.is_runnable_there,
            ),
          ),
        )
        | inl (e, nothing) ↦ elim (Bool-cases (leb w t)) [
          | inl due ↦
              let awake : state_at woken i ≡ some runnable = simp due at state in
              let r = runnable_at-runnable woken i awake in
              let n = nothing i (below woken i runnable awake) in absurd cc
          | inr early ↦
              let (next, (last, (q, r))) =
                idle_finds advances fuel current (halted cpu) i w hc' (simp early at state)
                  (ground arith) (omega arith) in
              (
                next,
                (
                  last,
                  (step ∙ ap (λ o. idle resume after_halt fuel current o (halted cpu)) e ∙ q, r),
                ),
              )
        ]
      ]
