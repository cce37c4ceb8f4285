-- ===== src/Scheduler/Trap/Handled.antt =====
-- The trap handler of kernel/src/scheduler.rs keeps the processor safe on every branch.
use codex_os.Prelude.{
  ℕ, zero, suc, ◌%◌, ◌≡◌, inl, inr, ap, ◌==◌, leb, List, [], ◌∷◌, Bool, true, false, Option, none,
  some, get_elem?, set, get_elem?-set_self, Bool-cases, saturating_add,
}
use mathlib.Core.Option.{some-injective}
use codex_os.Scheduler.{
  Process, ProcessState, Cpu, sleeping, exited, faulted, is_runnable, kernel_stack_top,
}
use codex_os.Scheduler.Trap.{
  schedule, handle_syscall, handle_trap_of, handle_user_trap, handled, set_state, set_rax,
  update_process, timer_vector, user_syscall_vector, syscall_exit, syscall_yield, syscall_getpid,
  syscall_getticks, syscall_sleep, err_not_implemented,
}
use codex_os.Scheduler.Trap.Safety.{IsRunning, IsSafe, AllSafe, schedule-AllSafe, below}

-- The current process of an active scheduler.
record HasCurrent (cpu : Cpu) (current : ℕ) : Type 0 where
  process : Process
  is_active : cpu.scheduler.active ≡ true
  is_current : cpu.scheduler.current ≡ some current
  is_there : get_elem? cpu.scheduler.processes current ≡ some process

-- Out of fuel, or safe after the trap.
abbrev pub IsSafeAfter : Option (Bool × Cpu) → Type 0
IsSafeAfter none = Unit
IsSafeAfter (some (taken, cpu)) = IsSafe cpu

pub get_elem?-update_process :
    (ps : List Process) (i : ℕ) (f : Process → Process) (p : Process)
    → get_elem? ps i ≡ some p
    → get_elem? (update_process i f ps) i ≡ some (f p)
get_elem?-update_process [] i f p h = cc
get_elem?-update_process (q ∷ ps) zero f p h = ap (λ r. some (f r)) (some-injective q p h)
get_elem?-update_process (q ∷ ps) (suc i) f p h = get_elem?-update_process ps i f p h

module _ (resume : ℕ) (after_halt : ℕ → ℕ) where
  set_state-HasCurrent :
      (current : ℕ) (s : ProcessState) (cpu : Cpu)
      → HasCurrent cpu current
      → HasCurrent (set_state current s cpu) current
  set_state-HasCurrent current s cpu h = record {
    process = record h.process { state = s };
    is_active = h.is_active;
    is_current = h.is_current;
    is_there =
        get_elem?-update_process cpu.scheduler.processes current
          (λ (p : Process). record p { state = s }) h.process h.is_there;
  }

  set_rax-HasCurrent :
      (current value : ℕ) (cpu : Cpu)
      → HasCurrent cpu current
      → HasCurrent (set_rax value cpu) current
  set_rax-HasCurrent current value cpu h = record {
    process = h.process;
    is_active = h.is_active;
    is_current = h.is_current;
    is_there = h.is_there;
  }

  set_rax-IsRunning : (value : ℕ) (cpu : Cpu) → IsRunning cpu → IsRunning (set_rax value cpu)
  set_rax-IsRunning value cpu h = record {
    index = h.index;
    process = h.process;
    is_active = h.is_active;
    is_current = h.is_current;
    is_there = h.is_there;
    can_run = h.can_run;
    in_its_space = h.in_its_space;
    on_its_stack = h.on_its_stack;
  }

  scheduled :
      (fuel : ℕ) (timer : Bool) (cpu : Cpu) (current : ℕ)
      → HasCurrent cpu current
      → AllSafe resume after_halt (schedule resume after_halt fuel timer cpu)
  scheduled fuel timer cpu current h =
      schedule-AllSafe resume after_halt fuel timer cpu current h.process h.is_active h.is_current
        h.is_there

  syscall-AllSafe :
      (fuel current : ℕ) (p : Process) (cpu : Cpu)
      → HasCurrent cpu current
      → IsRunning cpu
      → AllSafe resume after_halt (handle_syscall resume after_halt fuel current p cpu)
  unfolding handle_syscall AllSafe
  syscall-AllSafe fuel current p cpu h run =
      let wake_tick = saturating_add cpu.machine.ticks cpu.frame.rdi in
      elim (Bool-cases (cpu.frame.rax == syscall_exit)) [
        | inl a ↦ simp a (
            scheduled fuel false (set_state current (exited cpu.frame.rdi) cpu) current
              (set_state-HasCurrent current (exited cpu.frame.rdi) cpu h))
        | inr a ↦ elim (Bool-cases (cpu.frame.rax == syscall_yield)) [
          | inl b ↦
              simp (a, b)
                (scheduled fuel false (set_rax 0 cpu) current (set_rax-HasCurrent current 0 cpu h))
          | inr b ↦ elim (Bool-cases (cpu.frame.rax == syscall_getpid)) [
            | inl c ↦ simp (a, b, c) (inl (set_rax-IsRunning p.pid cpu run))
            | inr c ↦ elim (Bool-cases (cpu.frame.rax == syscall_getticks)) [
              | inl d ↦ simp (a, b, c, d) (inl (set_rax-IsRunning cpu.machine.ticks cpu run))
              | inr d ↦ elim (Bool-cases (cpu.frame.rax == syscall_sleep)) [
                | inl e ↦
                    simp (a, b, c, d, e)
                      (scheduled fuel false (set_state current (sleeping wake_tick) (set_rax 0 cpu))
                        current
                        (set_state-HasCurrent current (sleeping wake_tick) (set_rax 0 cpu)
                          (set_rax-HasCurrent current 0 cpu h)))
                | inr e ↦ simp (a, b, c, d, e) (inl (set_rax-IsRunning err_not_implemented cpu run))
              ]
            ]
          ]
        ]
      ]

  handled-IsSafeAfter :
      (result : Option Cpu)
      → AllSafe resume after_halt result
      → IsSafeAfter (handled resume after_halt result)
  unfolding AllSafe
  handled-IsSafeAfter none h = tt
  handled-IsSafeAfter (some cpu) h = h

  trap_of-IsSafeAfter :
      (fuel current : ℕ) (p : Process) (fault_address : ℕ) (cpu : Cpu)
      → HasCurrent cpu current
      → IsRunning cpu
      → get_elem? cpu.scheduler.processes current ≡ some p
      → is_runnable p.state ≡ true
      → cpu.machine.cr3 ≡ p.space_root
      → cpu.machine.privilege_stack_top ≡ kernel_stack_top p
      → IsSafeAfter (handle_trap_of resume after_halt fuel current p fault_address cpu)
  unfolding handle_trap_of
  trap_of-IsSafeAfter fuel current p fault_address cpu h run there can space stack =
      let vector = cpu.frame.vector % 256 in
      let counted = record p { syscalls = saturating_add p.syscalls 1 } in
      let ps = set cpu.scheduler.processes current counted in
      let called = record cpu { scheduler = record cpu.scheduler { processes = ps } } in
      let there' : get_elem? ps current ≡ some counted =
        get_elem?-set_self cpu.scheduler.processes current counted
          (below cpu.scheduler.processes current p there) in
      let stop = faulted vector fault_address cpu.frame.error_code in
      elim (Bool-cases (vector == timer_vector)) [
        | inl a ↦ simp a (
            handled-IsSafeAfter (schedule resume after_halt fuel true cpu)
              (scheduled fuel true cpu current h))
        | inr a ↦ elim (Bool-cases (vector == user_syscall_vector)) [
          | inl b ↦
              simp (a, b)
                (handled-IsSafeAfter (handle_syscall resume after_halt fuel current counted called)
                  (syscall-AllSafe fuel current counted called
                    (record {
                      process = counted;
                      is_active = h.is_active;
                      is_current = h.is_current;
                      is_there = there';
                    })
                    (record {
                      index = current;
                      process = counted;
                      is_active = h.is_active;
                      is_current = h.is_current;
                      is_there = there';
                      can_run = can;
                      in_its_space = space;
                      on_its_stack = stack;
                    })))
          | inr b ↦ elim (Bool-cases (leb vector 31)) [
            | inl c ↦
                simp (a, b, c)
                  (handled-IsSafeAfter
                    (schedule resume after_halt fuel false (set_state current stop cpu))
                    (scheduled fuel false (set_state current stop cpu) current
                      (set_state-HasCurrent current stop cpu h)))
            | inr c ↦ simp (a, b, c) (inl run)
          ]
        ]
      ]

-- After any trap of a running process, whatever its vector, its registers and the machine, the
-- processor runs a runnable process with that process's page tables and kernel stack, or the
-- scheduler is no longer active.
pub handle_user_trap-IsSafeAfter :
    (resume : ℕ) (after_halt : ℕ → ℕ) (fuel fault_address : ℕ) (cpu : Cpu)
    → IsRunning cpu
    → IsSafeAfter (handle_user_trap resume after_halt fuel fault_address cpu)
unfolding handle_user_trap
handle_user_trap-IsSafeAfter resume after_halt fuel fault_address cpu run =
    rw (handle_user_trap, run.is_active, run.is_current, run.is_there)
      (trap_of-IsSafeAfter resume after_halt fuel run.index run.process fault_address cpu
        (record {
          process = run.process;
          is_active = run.is_active;
          is_current = run.is_current;
          is_there = run.is_there;
        })
        run run.is_there run.can_run run.in_its_space run.on_its_stack)
