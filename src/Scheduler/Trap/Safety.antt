-- ===== src/Scheduler/Trap/Safety.antt =====
-- What the trap handler of kernel/src/scheduler.rs leaves behind: a runnable process in its own
-- address space and on its own kernel stack, or a scheduler that is no longer active.
use codex_os.Prelude.{
  ℕ, zero, suc, ◌%◌, ◌<◌, ◌≡◌, ◌⊎◌, inl, inr, refl, ◌∙◌, ◌==◌, List, [], ◌∷◌, Bool, true, false,
  not, ◌||◌, Option, none, some, arith, length, get_elem?, get_elem?-set_self, length-set,
  Bool-cases, Option-cases, saturating_add,
}
use codex_os.Scheduler.{
  Machine, Process, Cpu, wake_sleepers, has_sleepers, next_runnable, runnable_at, is_runnable,
  is_sleeping, idle, halt_once, dispatch, return_to_kernel, fail, switch_root, set_privilege_stack,
  kernel_stack_top, restore, capture, RuntimeFailure,
}
use codex_os.Scheduler.Idle.{length-wake_sleepers}
use codex_os.Scheduler.Round.{next_runnable_cases}
use codex_os.Scheduler.Trap.{finish, select, schedule_from, schedule, finish_idle, wake_all}

-- The current process is runnable, and the processor is set up for it.
pub record IsRunning (cpu : Cpu) : Type 0 where
  pub index : ℕ
  pub process : Process
  pub is_active : cpu.scheduler.active ≡ true
  pub is_current : cpu.scheduler.current ≡ some index
  pub is_there : get_elem? cpu.scheduler.processes index ≡ some process
  pub can_run : is_runnable process.state ≡ true
  pub in_its_space : cpu.machine.cr3 ≡ process.space_root
  pub on_its_stack : cpu.machine.privilege_stack_top ≡ kernel_stack_top process

abbrev pub IsSafe : Cpu → Type 0
IsSafe cpu = IsRunning cpu ⊎ (cpu.scheduler.active ≡ false)

pub below : {A : Type 0} (xs : List A) (i : ℕ) (x : A) → get_elem? xs i ≡ some x → i < length xs
below [] i x h = cc
below (y ∷ xs) zero x h = omega arith
below (y ∷ xs) (suc i) x h = omega (arith, below xs i x h)

switch_root_sets :
    (root : ℕ) (m : Machine) → (switch_root root m).0 ≡ true → ((switch_root root m).1).cr3 ≡ root
unfolding switch_root
switch_root_sets root m h = elim (Bool-cases (root % 4096 == 0)) [
  | inl e ↦ rw e
  | inr e ↦ let wrong = simp e at h in absurd cc
]

set_stack_sets :
    (top : ℕ) (m : Machine)
    → (set_privilege_stack top m).0 ≡ true
    → (((set_privilege_stack top m).1).cr3 ≡ m.cr3)
      × (((set_privilege_stack top m).1).privilege_stack_top ≡ top)
unfolding set_privilege_stack
set_stack_sets top m h = elim (Bool-cases (not m.gdt_loaded || top == 0)) [
  | inl e ↦ let wrong = simp e at h in absurd cc
  | inr e ↦ (simp e, simp e)
]

module _ (resume : ℕ) (after_halt : ℕ → ℕ) where
  fail-IsSafe : (f : RuntimeFailure) (cpu : Cpu) → IsSafe (fail resume after_halt f cpu)
  unfolding return_to_kernel
  fail-IsSafe f cpu = inr refl

  dispatch-IsSafe :
      (current : ℕ) (timer : Bool) (next : ℕ) (p : Process) (cpu : Cpu)
      → cpu.scheduler.active ≡ true
      → get_elem? cpu.scheduler.processes next ≡ some p
      → is_runnable p.state ≡ true
      → IsSafe (dispatch resume after_halt current timer next p cpu)
  unfolding dispatch return_to_kernel
  dispatch-IsSafe current timer next p cpu active there can =
      let (rooted, machine1) = switch_root p.space_root cpu.machine in
      let (stacked, machine2) = set_privilege_stack (kernel_stack_top p) machine1 in
      let (restored, frame) = restore p.context cpu.frame in
      elim (Bool-cases rooted) [
        | inr e ↦ simp e (inr refl)
        | inl e ↦ elim (Bool-cases stacked) [
          | inr f ↦ simp (e, f) (inr refl)
          | inl f ↦ elim (Bool-cases restored) [
            | inr g ↦ simp (e, f, g) (inr refl)
            | inl g ↦
                simp (e, f, g)
                  (inl (record {
                    index = next;
                    process = record p { dispatches = saturating_add p.dispatches 1 };
                    is_active = active;
                    is_current = refl;
                    is_there =
                        get_elem?-set_self cpu.scheduler.processes next
                          (record p { dispatches = saturating_add p.dispatches 1 })
                          (below cpu.scheduler.processes next p there);
                    can_run = can;
                    in_its_space =
                        (set_stack_sets (kernel_stack_top p) machine1 f).0
                        ∙ switch_root_sets p.space_root cpu.machine e;
                    on_its_stack = (set_stack_sets (kernel_stack_top p) machine1 f).1;
                  }))
          ]
        ]
      ]

  -- The choice of a process that can run, or of none.
  CanRun : List Process → Option ℕ → Type 0
  CanRun ps none = Unit
  CanRun ps (some next) = runnable_at ps next ≡ true

  runnable_there :
      (ps : List Process) (i : ℕ)
      → runnable_at ps i ≡ true
      → (p : Process) × ((get_elem? ps i ≡ some p) × (is_runnable p.state ≡ true))
  runnable_there [] i h = absurd cc
  runnable_there (p ∷ ps) zero h = (p, (refl, h))
  runnable_there (p ∷ ps) (suc i) h = runnable_there ps i h

  finish-IsSafe :
      (current : ℕ) (timer : Bool) (next : Option ℕ) (cpu : Cpu)
      → cpu.scheduler.active ≡ true
      → CanRun cpu.scheduler.processes next
      → IsSafe (finish resume after_halt current timer next cpu)
  unfolding finish return_to_kernel CanRun
  finish-IsSafe current timer none cpu active can = inr refl
  finish-IsSafe current timer (some next) cpu active can =
      let (p, (there, runs)) = runnable_there cpu.scheduler.processes next can in
      rw (finish, there) (dispatch-IsSafe current timer next p cpu active there runs)

  next_runnable-CanRun :
      (ps : List Process) (current : ℕ) → current < length ps → CanRun ps (next_runnable ps current)
  unfolding CanRun
  next_runnable-CanRun ps current h = elim (next_runnable_cases ps current h) [
    | inl (e, n) ↦ rw e tt
    | inr (found, (e, (lt, first))) ↦ rw e first.is_runnable_there
  ]

  -- Nothing, or what `idle` ends with.
  IdleResult : Option (Option ℕ × Cpu) → Type 0
  IdleResult none = Unit
  IdleResult (some (next, cpu)) =
      (cpu.scheduler.active ≡ true) × CanRun cpu.scheduler.processes next

  idle-IdleResult :
      (fuel current : ℕ) (next : Option ℕ) (cpu : Cpu)
      → cpu.scheduler.active ≡ true
      → current < length cpu.scheduler.processes
      → CanRun cpu.scheduler.processes next
      → IdleResult (idle resume after_halt fuel current next cpu)
  unfolding idle halt_once IdleResult CanRun
  idle-IdleResult zero current (some next) cpu active h can = (active, can)
  idle-IdleResult (suc fuel) current (some next) cpu active h can = (active, can)
  idle-IdleResult zero current none cpu active h can =
      elim (Bool-cases (has_sleepers cpu.scheduler.processes)) [
        | inl e ↦ rw e tt
        | inr e ↦ rw e (active, tt)
      ]
  idle-IdleResult (suc fuel) current none cpu active h can =
      let t = after_halt cpu.machine.ticks in
      let halted = halt_once resume after_halt cpu in
      let ps = wake_sleepers t cpu.scheduler.processes in
      let h' : current < length ps = rw (length-wake_sleepers t cpu.scheduler.processes) h in
      elim (Bool-cases (has_sleepers cpu.scheduler.processes)) [
        | inl e ↦ rw e (
            idle-IdleResult fuel current (next_runnable ps current) halted active h'
              (next_runnable-CanRun ps current h'))
        | inr e ↦ rw e (active, tt)
      ]

  -- Out of fuel, or safe.
  unfoldable pub AllSafe : Option Cpu → Type 0
  AllSafe none = Unit
  AllSafe (some cpu) = IsSafe cpu

  finish_idle-AllSafe :
      (current : ℕ) (timer : Bool) (result : Option (Option ℕ × Cpu))
      → IdleResult result
      → AllSafe (finish_idle resume after_halt current timer result)
  unfolding AllSafe IdleResult
  finish_idle-AllSafe current timer none r = tt
  finish_idle-AllSafe current timer (some (next, cpu)) (active, can) =
      finish-IsSafe current timer next cpu active can

  select-AllSafe :
      (fuel current : ℕ) (timer : Bool) (cpu : Cpu)
      → cpu.scheduler.active ≡ true
      → current < length cpu.scheduler.processes
      → AllSafe (select resume after_halt fuel current timer cpu)
  unfolding select AllSafe CanRun
  select-AllSafe fuel current timer cpu active h =
      let woken = wake_all cpu in
      let ps = woken.scheduler.processes in
      let h' : current < length ps =
        rw (length-wake_sleepers cpu.machine.ticks cpu.scheduler.processes) h in
      let (switched, machine) = switch_root woken.scheduler.kernel_root woken.machine in
      let halting = record woken { machine = machine } in
      elim (next_runnable_cases ps current h') [
        | inr (found, (e, (lt, first))) ↦
            rw (select, e)
              (finish-IsSafe current timer (some found) woken active first.is_runnable_there)
        | inl (e, nothing) ↦ elim (Bool-cases (has_sleepers ps)) [
          | inr f ↦ rw (select, e, f) (finish-IsSafe current timer none woken active tt)
          | inl f ↦ elim (Bool-cases switched) [
            | inr g ↦ rw (select, e, f, g) (fail-IsSafe RuntimeFailure.root_switch halting)
            | inl g ↦
                rw (select, e, f, g)
                  (finish_idle-AllSafe current timer
                    (idle resume after_halt fuel current none halting)
                    (idle-IdleResult fuel current none halting active h' tt))
          ]
        ]
      ]

  schedule_from-AllSafe :
      (fuel current : ℕ) (p : Process) (timer : Bool) (cpu : Cpu)
      → cpu.scheduler.active ≡ true
      → current < length cpu.scheduler.processes
      → AllSafe (schedule_from resume after_halt fuel current p timer cpu)
  unfolding schedule_from AllSafe
  schedule_from-AllSafe fuel current p timer cpu active h =
      elim (Bool-cases (is_runnable p.state || is_sleeping p.state)) [
        | inr e ↦ rw e (select-AllSafe fuel current timer cpu active h)
        | inl e ↦ elim (Option-cases (capture cpu.frame)) [
          | inl f ↦ rw (e, f) (fail-IsSafe RuntimeFailure.missing_user_stack cpu)
          | inr (context, f) ↦
              rw (e, f)
                (select-AllSafe fuel current timer _ active (
                  rw (length-set cpu.scheduler.processes current (record p { context = context }))
                    h))
        ]
      ]

  pub schedule-AllSafe :
      (fuel : ℕ) (timer : Bool) (cpu : Cpu) (current : ℕ) (p : Process)
      → cpu.scheduler.active ≡ true
      → cpu.scheduler.current ≡ some current
      → get_elem? cpu.scheduler.processes current ≡ some p
      → AllSafe (schedule resume after_halt fuel timer cpu)
  unfolding schedule
  schedule-AllSafe fuel timer cpu current p active cur there =
      rw (schedule, cur, there)
        (schedule_from-AllSafe fuel current p timer cpu active
          (below cpu.scheduler.processes current p there))
