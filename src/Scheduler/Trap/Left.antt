-- ===== src/Scheduler/Trap/Left.antt =====
-- The scheduling of kernel/src/scheduler.rs leaves the processes that do not run as they were.
use codex_os.Prelude.{
  ℕ, zero, suc, ◌<◌, ◌≡◌, inl, inr, sym, ap, ◌∙◌, ◌==◌, ==→eq, eq_refl, List, Bool, false, not,
  ◌&&◌, ◌||◌, if◌then◌else◌, Option, none, some, arith, get_elem?, set, get_elem?-set_self,
  Bool-cases, Option-cases, saturating_add,
}
use mathlib.Core.Option.{some-injective}
use codex_os.Scheduler.{
  Process, Cpu, has_sleepers, next_runnable, is_runnable, is_sleeping, idle, halt_once, dispatch,
  return_to_kernel, fail, switch_root, set_privilege_stack, kernel_stack_top, restore, capture,
  RuntimeFailure, wake_sleepers,
}
use codex_os.Scheduler.Trap.{finish, select, schedule_from, schedule, finish_idle, wake_all}
use codex_os.Scheduler.Trap.Safety.{below}
use codex_os.Scheduler.Trap.Others.{
  IsLeft, Leaves, LeavesAt, set_other-LeavesAt, set_privilege_stack-ticks, switch_root-ticks,
  wake_sleepers-LeavesAt,
}

not_equal : (m n : ℕ) → (m == n) ≡ false → ¬ (m ≡ n)
not_equal m n h e =
    let wrong : (n == n) ≡ false = ap (λ k. k == n) (sym e) ∙ h in ground (arith, eq_refl n)

-- The same list, at the same tick.
same-Leaves :
    (i ticks other : ℕ) (before : Process) (ps : List Process)
    → other ≡ ticks
    → LeavesAt i ticks before ps
    → LeavesAt i other before ps
same-Leaves i ticks other before ps e h = coe 0 1 (j. LeavesAt i ((sym e) j) before ps) h

module _ (resume : ℕ) (after_halt : ℕ → ℕ) (advances : (t : ℕ) → t < after_halt t) (i : ℕ)
    (before : Process) where
  kernel-Leaves :
      (cpu : Cpu) → Leaves i before cpu → Leaves i before (return_to_kernel resume after_halt cpu)
  unfolding return_to_kernel
  kernel-Leaves cpu h =
      same-Leaves i cpu.machine.ticks _ before cpu.scheduler.processes
        (switch_root-ticks cpu.scheduler.kernel_root cpu.machine) h

  fail-Leaves :
      (f : RuntimeFailure) (cpu : Cpu)
      → Leaves i before cpu
      → Leaves i before (fail resume after_halt f cpu)
  fail-Leaves f cpu h =
      kernel-Leaves (record cpu { scheduler = record cpu.scheduler { failure = some f } }) h

  counted-LeavesAt :
      (ticks next : ℕ) (p : Process) (ps : List Process)
      → get_elem? ps next ≡ some p
      → LeavesAt i ticks before ps
      → LeavesAt i ticks before
          (set ps next (record p { dispatches = saturating_add p.dispatches 1 }))
  counted-LeavesAt ticks next p ps there h = elim (Bool-cases (next == i)) [
    | inr apart ↦ set_other-LeavesAt i ticks next before _ ps (not_equal next i apart) h
    | inl here ↦
        let same : next ≡ i = ==→eq next i here in
        let it : p ≡ h.process =
          some-injective p h.process (sym there ∙ ap (get_elem? ps) same ∙ h.is_there) in
        let again : Process → Process =
          λ q. record q { dispatches = saturating_add p.dispatches 1 } in
        let mine : IsLeft ticks before p = coe 0 1 (j. IsLeft ticks before ((sym it) j)) h.left in
        record {
          process = record p { dispatches = saturating_add p.dispatches 1 };
          is_there =
              ap (get_elem? (set ps next (record p { dispatches = saturating_add p.dispatches 1 })))
                (sym same)
              ∙ get_elem?-set_self ps next _ (below ps next p there);
          left = record { same = ap again mine.same; state = mine.state };
        }
  ]

  dispatch-Leaves :
      (current : ℕ) (timer : Bool) (next : ℕ) (p : Process) (cpu : Cpu)
      → get_elem? cpu.scheduler.processes next ≡ some p
      → Leaves i before cpu
      → Leaves i before (dispatch resume after_halt current timer next p cpu)
  unfolding dispatch
  dispatch-Leaves current timer next p cpu there h =
      let (rooted, machine1) = switch_root p.space_root cpu.machine in
      let (stacked, machine2) = set_privilege_stack (kernel_stack_top p) machine1 in
      let (restored, frame) = restore p.context cpu.frame in
      let ps =
        set cpu.scheduler.processes next
          (record p { dispatches = saturating_add p.dispatches 1 }) in
      let switched = not (next == current) in
      let counted = record cpu.scheduler {
        context_switches =
            if switched
            then saturating_add cpu.scheduler.context_switches 1
            else cpu.scheduler.context_switches;
        timer_preemptions =
            if switched && timer
            then saturating_add cpu.scheduler.timer_preemptions 1
            else cpu.scheduler.timer_preemptions;
        current = some next;
        processes = ps;
      } in
      let e1 : machine1.ticks ≡ cpu.machine.ticks = switch_root-ticks p.space_root cpu.machine in
      let e2 : machine2.ticks ≡ cpu.machine.ticks =
        set_privilege_stack-ticks (kernel_stack_top p) machine1 ∙ e1 in
      let c = counted-LeavesAt cpu.machine.ticks next p cpu.scheduler.processes there h in
      let c1 = same-Leaves i cpu.machine.ticks machine1.ticks before ps e1 c in
      let c2 = same-Leaves i cpu.machine.ticks machine2.ticks before ps e2 c in
      elim (Bool-cases rooted) [
        | inr e ↦ simp e (
            fail-Leaves RuntimeFailure.root_switch
              (record { scheduler = counted; frame = cpu.frame; machine = machine1 }) c1)
        | inl e ↦ elim (Bool-cases stacked) [
          | inr f ↦
              simp (e, f)
                (fail-Leaves RuntimeFailure.privilege_stack
                  (record { scheduler = counted; frame = cpu.frame; machine = machine2 }) c2)
          | inl f ↦ elim (Bool-cases restored) [
            | inr g ↦
                simp (e, f, g)
                  (fail-Leaves RuntimeFailure.missing_user_stack
                    (record { scheduler = counted; frame = frame; machine = machine2 }) c2)
            | inl g ↦ simp (e, f, g) c2
          ]
        ]
      ]

  finish-Leaves :
      (current : ℕ) (timer : Bool) (next : Option ℕ) (cpu : Cpu)
      → Leaves i before cpu
      → Leaves i before (finish resume after_halt current timer next cpu)
  unfolding finish
  finish-Leaves current timer none cpu h = kernel-Leaves cpu h
  finish-Leaves current timer (some next) cpu h =
      elim (Option-cases (get_elem? cpu.scheduler.processes next)) [
        | inl e ↦ rw (finish, e) h
        | inr (p, e) ↦ rw (finish, e) (dispatch-Leaves current timer next p cpu e h)
      ]

  -- Nothing, or left by what `idle` ends with.
  IdleLeaves : Option (Option ℕ × Cpu) → Type 0
  IdleLeaves none = Unit
  IdleLeaves (some (next, cpu)) = Leaves i before cpu

  idle-IdleLeaves :
      (fuel current : ℕ) (next : Option ℕ) (cpu : Cpu)
      → Leaves i before cpu
      → IdleLeaves (idle resume after_halt fuel current next cpu)
  unfolding idle halt_once IdleLeaves
  idle-IdleLeaves zero current (some next) cpu h = h
  idle-IdleLeaves (suc fuel) current (some next) cpu h = h
  idle-IdleLeaves zero current none cpu h =
      elim (Bool-cases (has_sleepers cpu.scheduler.processes)) [ inl e ↦ rw e tt | inr e ↦ rw e h ]
  idle-IdleLeaves (suc fuel) current none cpu h =
      let now = cpu.machine.ticks in
      let later = after_halt now in
      let ps = wake_sleepers later cpu.scheduler.processes in
      let up : now < later = advances now in
      elim (Bool-cases (has_sleepers cpu.scheduler.processes)) [
        | inl e ↦ rw e (
            idle-IdleLeaves fuel current (next_runnable ps current)
              (halt_once resume after_halt cpu)
              (wake_sleepers-LeavesAt i now later before cpu.scheduler.processes (omega arith) h))
        | inr e ↦ rw e h
      ]

  -- Out of fuel, or left.
  unfoldable pub AllLeave : Option Cpu → Type 0
  AllLeave none = Unit
  AllLeave (some cpu) = Leaves i before cpu

  finish_idle-AllLeave :
      (current : ℕ) (timer : Bool) (result : Option (Option ℕ × Cpu))
      → IdleLeaves result
      → AllLeave (finish_idle resume after_halt current timer result)
  unfolding AllLeave IdleLeaves
  finish_idle-AllLeave current timer none h = tt
  finish_idle-AllLeave current timer (some (next, cpu)) h = finish-Leaves current timer next cpu h

  select-AllLeave :
      (fuel current : ℕ) (timer : Bool) (cpu : Cpu)
      → Leaves i before cpu
      → AllLeave (select resume after_halt fuel current timer cpu)
  unfolding select AllLeave
  select-AllLeave fuel current timer cpu h =
      let now = cpu.machine.ticks in
      let woken = wake_all cpu in
      let ps = woken.scheduler.processes in
      let (switched, machine) = switch_root woken.scheduler.kernel_root woken.machine in
      let halting = record woken { machine = machine } in
      let w : Leaves i before woken =
        wake_sleepers-LeavesAt i now now before cpu.scheduler.processes (omega arith) h in
      let m : Leaves i before halting =
        same-Leaves i now machine.ticks before ps
          (switch_root-ticks woken.scheduler.kernel_root woken.machine) w in
      elim (Option-cases (next_runnable ps current)) [
        | inr (found, e) ↦ rw (select, e) (finish-Leaves current timer (some found) woken w)
        | inl e ↦ elim (Bool-cases (has_sleepers ps)) [
          | inr f ↦ rw (select, e, f) (finish-Leaves current timer none woken w)
          | inl f ↦ elim (Bool-cases switched) [
            | inr g ↦ rw (select, e, f, g) (fail-Leaves RuntimeFailure.root_switch halting m)
            | inl g ↦
                rw (select, e, f, g)
                  (finish_idle-AllLeave current timer
                    (idle resume after_halt fuel current none halting)
                    (idle-IdleLeaves fuel current none halting m))
          ]
        ]
      ]

  schedule_from-AllLeave :
      (fuel current : ℕ) (p : Process) (timer : Bool) (cpu : Cpu)
      → ¬ (current ≡ i)
      → Leaves i before cpu
      → AllLeave (schedule_from resume after_halt fuel current p timer cpu)
  unfolding schedule_from AllLeave
  schedule_from-AllLeave fuel current p timer cpu apart h =
      elim (Bool-cases (is_runnable p.state || is_sleeping p.state)) [
        | inr e ↦ rw e (select-AllLeave fuel current timer cpu h)
        | inl e ↦ elim (Option-cases (capture cpu.frame)) [
          | inl f ↦ rw (e, f) (fail-Leaves RuntimeFailure.missing_user_stack cpu h)
          | inr (context, f) ↦
              rw (e, f)
                (select-AllLeave fuel current timer _ (
                  set_other-LeavesAt i cpu.machine.ticks current before
                    (record p { context = context }) cpu.scheduler.processes apart h))
        ]
      ]

  pub schedule-AllLeave :
      (fuel : ℕ) (timer : Bool) (cpu : Cpu) (current : ℕ)
      → cpu.scheduler.current ≡ some current
      → ¬ (current ≡ i)
      → Leaves i before cpu
      → AllLeave (schedule resume after_halt fuel timer cpu)
  unfolding schedule AllLeave
  schedule-AllLeave fuel timer cpu current cur apart h =
      elim (Option-cases (get_elem? cpu.scheduler.processes current)) [
        | inl e ↦ rw (schedule, cur, e) h
        | inr (p, e) ↦
            rw (schedule, cur, e) (schedule_from-AllLeave fuel current p timer cpu apart h)
      ]
