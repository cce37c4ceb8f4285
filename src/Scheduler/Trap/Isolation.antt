-- ===== src/Scheduler/Trap/Isolation.antt =====
-- A trap in kernel/src/scheduler.rs changes no process but the one that caused it.
use codex_os.Prelude.{
  ℕ, ◌%◌, ◌<◌, ◌≤◌, ◌≡◌, inl, inr, refl, ap, ◌∙◌, ◌==◌, leb, Bool, true, false, Option, none, some,
  get_elem?, set, Bool-cases, saturating_add, u64_max,
}
use mathlib.Core.Option.{some-injective}
use codex_os.Scheduler.{Process, ProcessState, Cpu, sleeping, exited, faulted}
use codex_os.Scheduler.Trap.{
  schedule, handle_syscall, handle_trap_of, handle_user_trap, handled, set_state, set_rax,
  timer_vector, user_syscall_vector, syscall_exit, syscall_yield, syscall_getpid, syscall_getticks,
  syscall_sleep,
}
use codex_os.Scheduler.Trap.Safety.{IsRunning}
use codex_os.Scheduler.Trap.Others.{Leaves, get_elem?-update_other, set_other-LeavesAt}
use codex_os.Scheduler.Trap.Left.{AllLeave, schedule-AllLeave}
use codex_os.Scheduler.Trap.Wakes.{WakesBy}
use codex_os.Scheduler.Trap.Returns.{handle_user_trap-returns}

-- Out of fuel, or left after the trap.
abbrev LeavesAfter : ℕ → Process → Option (Bool × Cpu) → Type 0
LeavesAfter i before none = Unit
LeavesAfter i before (some (taken, cpu)) = Leaves i before cpu

module _ (resume : ℕ) (after_halt : ℕ → ℕ) (advances : (t : ℕ) → t < after_halt t) (i : ℕ)
    (before : Process) where
  set_state-Leaves :
      (current : ℕ) (s : ProcessState) (cpu : Cpu)
      → ¬ (current ≡ i)
      → Leaves i before cpu
      → Leaves i before (set_state current s cpu)
  set_state-Leaves current s cpu apart h = record {
    process = h.process;
    is_there =
        get_elem?-update_other cpu.scheduler.processes current i
          (λ (p : Process). record p { state = s }) apart
        ∙ h.is_there;
    left = h.left;
  }

  syscall-AllLeave :
      (fuel current : ℕ) (p : Process) (cpu : Cpu)
      → cpu.scheduler.current ≡ some current
      → ¬ (current ≡ i)
      → Leaves i before cpu
      → AllLeave resume after_halt advances i before
          (handle_syscall resume after_halt fuel current p cpu)
  unfolding handle_syscall AllLeave
  syscall-AllLeave fuel current p cpu cur apart h =
      let go : (s : Cpu)
          → s.scheduler.current ≡ some current
          → Leaves i before s
          → AllLeave resume after_halt advances i before (schedule resume after_halt fuel false s) =
        λ s e l.
          schedule-AllLeave resume after_halt advances i before fuel false s current e apart l in
      let wake_tick = saturating_add cpu.machine.ticks cpu.frame.rdi in
      elim (Bool-cases (cpu.frame.rax == syscall_exit)) [
        | inl a ↦ simp a (
            go (set_state current (exited cpu.frame.rdi) cpu) cur
              (set_state-Leaves current (exited cpu.frame.rdi) cpu apart h))
        | inr a ↦ elim (Bool-cases (cpu.frame.rax == syscall_yield)) [
          | inl b ↦ simp (a, b) (go (set_rax 0 cpu) cur h)
          | inr b ↦ elim (Bool-cases (cpu.frame.rax == syscall_getpid)) [
            | inl c ↦ simp (a, b, c) h
            | inr c ↦ elim (Bool-cases (cpu.frame.rax == syscall_getticks)) [
              | inl d ↦ simp (a, b, c, d) h
              | inr d ↦ elim (Bool-cases (cpu.frame.rax == syscall_sleep)) [
                | inl e ↦
                    simp (a, b, c, d, e)
                      (go (set_state current (sleeping wake_tick) (set_rax 0 cpu)) cur
                        (set_state-Leaves current (sleeping wake_tick) (set_rax 0 cpu) apart h))
                | inr e ↦ simp (a, b, c, d, e) h
              ]
            ]
          ]
        ]
      ]

  handled-LeavesAfter :
      (result : Option Cpu)
      → AllLeave resume after_halt advances i before result
      → LeavesAfter i before (handled resume after_halt result)
  unfolding AllLeave
  handled-LeavesAfter none h = tt
  handled-LeavesAfter (some cpu) h = h

  trap_of-LeavesAfter :
      (fuel current : ℕ) (p : Process) (fault_address : ℕ) (cpu : Cpu)
      → cpu.scheduler.current ≡ some current
      → ¬ (current ≡ i)
      → Leaves i before cpu
      → LeavesAfter i before (handle_trap_of resume after_halt fuel current p fault_address cpu)
  unfolding handle_trap_of
  trap_of-LeavesAfter fuel current p fault_address cpu cur apart h =
      let vector = cpu.frame.vector % 256 in
      let counted = record p { syscalls = saturating_add p.syscalls 1 } in
      let called = record cpu {
        scheduler = record cpu.scheduler {
          processes = set cpu.scheduler.processes current counted;
        };
      } in
      let stop = faulted vector fault_address cpu.frame.error_code in
      elim (Bool-cases (vector == timer_vector)) [
        | inl a ↦ simp a (
            handled-LeavesAfter _ (
              schedule-AllLeave resume after_halt advances i before fuel true cpu current cur apart
                h))
        | inr a ↦ elim (Bool-cases (vector == user_syscall_vector)) [
          | inl b ↦
              simp (a, b)
                (handled-LeavesAfter _ (
                  syscall-AllLeave fuel current counted called cur apart (
                    set_other-LeavesAt i cpu.machine.ticks current before counted
                      cpu.scheduler.processes apart h)))
          | inr b ↦ elim (Bool-cases (leb vector 31)) [
            | inl c ↦
                simp (a, b, c)
                  (handled-LeavesAfter _ (
                    schedule-AllLeave resume after_halt advances i before fuel false
                      (set_state current stop cpu) current cur apart
                      (set_state-Leaves current stop cpu apart h)))
            | inr c ↦ simp (a, b, c) h
          ]
        ]
      ]

after :
    (i : ℕ) (before : Process) (result : Option (Bool × Cpu)) (taken : Bool) (last : Cpu)
    → result ≡ some (taken, last)
    → LeavesAfter i before result
    → Leaves i before last
after i before none taken last h l = absurd cc
after i before (some r) taken last h l =
    coe 0 1 (j. Leaves i before (((some-injective r (taken, last) h) j).1)) l

-- When every halt advances the tick counter and all wake ticks are 64-bit words, a trap of a running
-- process returns with fuel for every 64-bit tick, and every other process is then as it was, its saved
-- registers, page tables, kernel stack and count of calls included: only its dispatches may have been
-- counted, and its state is the same unless it slept until a tick that has come, and is now runnable.
-- So a process that has exited or was stopped by a fault stays so.
pub handle_user_trap-leaves_others :
    (resume : ℕ) (after_halt : ℕ → ℕ) (fuel fault_address : ℕ) (cpu : Cpu) (i : ℕ)
    (before : Process)
    → ((t : ℕ) → t < after_halt t)
    → u64_max ≤ fuel
    → WakesBy u64_max cpu.scheduler.processes
    → IsRunning cpu
    → ¬ (cpu.scheduler.current ≡ some i)
    → get_elem? cpu.scheduler.processes i ≡ some before
    → (taken : Bool) × ((last : Cpu) × ((handle_user_trap resume after_halt fuel fault_address cpu
            ≡ some (taken, last))
          × Leaves i before last))
unfolding handle_user_trap
handle_user_trap-leaves_others resume after_halt fuel fault_address cpu i before advances large
      bound run apart there =
    let (taken, (last, (same, safe))) =
      handle_user_trap-returns resume after_halt fuel fault_address cpu advances large bound run in
    let now : Leaves i before cpu = record {
      process = before;
      is_there = there;
      left = record { same = refl; state = inl refl };
    } in
    let left : LeavesAfter i before (handle_user_trap resume after_halt fuel fault_address cpu) =
      rw (handle_user_trap, run.is_active, run.is_current, run.is_there)
        (trap_of-LeavesAfter resume after_halt advances i before fuel run.index run.process
          fault_address cpu run.is_current (λ e. apart (run.is_current ∙ ap some e)) now) in
    (taken, (last, (same, after i before _ taken last same left)))
