-- ===== src/Scheduler/Trap.antt =====
-- The trap handler of kernel/src/scheduler.rs and what it calls: `schedule`, the start of a run and
-- the checks of its outcome.
pub mod Outcome
pub mod Safety
pub mod Handled
pub mod Wakes
pub mod Returns
pub mod Others
pub mod Left
pub mod Isolation
use codex_os.Prelude.{
  ℕ, zero, suc, ◌+◌, ◌-◌, ◌%◌, ◌==◌, ltb, leb, List, [], ◌∷◌, Bool, true, false, not, ◌&&◌, ◌||◌,
  Option, none, some, get_elem?, set, length, bit_and, saturating_add, if◌then◌else◌, u64_max,
}
use codex_os.Scheduler.{
  Cpu, SchedulerState, Process, ProcessState, runnable, sleeping, exited, faulted, RuntimeFailure,
  missing_user_stack, root_switch, capture, wake_sleepers, has_sleepers, next_runnable, switch_root,
  set_privilege_stack, kernel_stack_top, idle, dispatch, fail, return_to_kernel, is_sleeping,
  is_runnable, TrapFrame, Machine,
}

abbrev pub timer_vector : ℕ
timer_vector = 32

abbrev pub user_syscall_vector : ℕ
user_syscall_vector = 0x80

-- kernel/src/process.rs.
abbrev pub syscall_exit : ℕ
syscall_exit = 2

abbrev pub syscall_yield : ℕ
syscall_yield = 3

abbrev pub syscall_getpid : ℕ
syscall_getpid = 4

abbrev pub syscall_getticks : ℕ
syscall_getticks = 5

abbrev pub syscall_sleep : ℕ
syscall_sleep = 6

-- `(-38_i64) as u64`.
abbrev pub err_not_implemented : ℕ
err_not_implemented = u64_max - 37

-- `processes[i]` changed in place; the source panics where `i` is out of bounds.
abbrev pub update_process : ℕ → (Process → Process) → List Process → List Process
update_process i f [] = []
update_process zero f (p ∷ ps) = f p ∷ ps
update_process (suc i) f (p ∷ ps) = p ∷ update_process i f ps

abbrev pub set_state : ℕ → ProcessState → Cpu → Cpu
set_state current state cpu = record cpu {
  scheduler = record cpu.scheduler {
    processes =
        update_process current (λ (p : Process). record p { state = state })
          cpu.scheduler.processes;
  };
}

abbrev pub set_rax : ℕ → Cpu → Cpu
set_rax value cpu = record cpu { frame = record cpu.frame { rax = value } }

abbrev pub wake_all : Cpu → Cpu
wake_all cpu = record cpu {
  scheduler = record cpu.scheduler {
    processes = wake_sleepers cpu.machine.ticks cpu.scheduler.processes;
  };
}

module _ (resume_address : ℕ) (ticks_after_halt : ℕ → ℕ) where
  abbrev to_kernel : Cpu → Cpu
  to_kernel cpu = return_to_kernel resume_address ticks_after_halt cpu

  -- What follows the choice of the next process.
  unfoldable pub finish : ℕ → Bool → Option ℕ → Cpu → Cpu
  finish current timer none cpu = return_to_kernel resume_address ticks_after_halt cpu
  finish current timer (some next) cpu = elim (get_elem? cpu.scheduler.processes next) [
    | none ↦ cpu
    | some p ↦ dispatch resume_address ticks_after_halt current timer next p cpu
  ]

  abbrev pub finish_idle : ℕ → Bool → Option (Option ℕ × Cpu) → Option Cpu
  finish_idle current timer none = none
  finish_idle current timer (some (next, cpu)) = some (finish current timer next cpu)

  -- From `wake_sleepers` on.
  unfoldable pub select : ℕ → ℕ → Bool → Cpu → Option Cpu
  select fuel current timer cpu =
      let woken = wake_all cpu in
      let next = next_runnable woken.scheduler.processes current in
      let (switched, machine) = switch_root woken.scheduler.kernel_root woken.machine in
      let halting = record woken { machine = machine } in
      elim next [
        | some i ↦ some (finish current timer (some i) woken)
        | none ↦
            if has_sleepers woken.scheduler.processes
            then if switched
              then finish_idle current timer
                  (idle resume_address ticks_after_halt fuel current none halting)
              else some (fail resume_address ticks_after_halt root_switch halting)
            else some (finish current timer none woken)
      ]

  -- `schedule` for the current process: its context is saved unless it has terminated.
  unfoldable pub schedule_from : ℕ → ℕ → Process → Bool → Cpu → Option Cpu
  schedule_from fuel current p timer cpu =
      if is_runnable p.state || is_sleeping p.state
      then elim (capture cpu.frame) [
        | none ↦ some (fail resume_address ticks_after_halt missing_user_stack cpu)
        | some context ↦ select fuel current timer (record cpu {
          scheduler = record cpu.scheduler {
            processes = set cpu.scheduler.processes current (record p { context = context });
          };
        })
      ]
      else select fuel current timer cpu

  unfoldable pub schedule : ℕ → Bool → Cpu → Option Cpu
  schedule fuel timer cpu = elim cpu.scheduler.current [
    | none ↦ some cpu
    | some current ↦ elim (get_elem? cpu.scheduler.processes current) [
      | none ↦ some cpu
      | some p ↦ schedule_from fuel current p timer cpu
    ]
  ]

  -- A call of the process `current`, which has been counted.
  unfoldable pub handle_syscall : ℕ → ℕ → Process → Cpu → Option Cpu
  handle_syscall fuel current p cpu =
      let rax = cpu.frame.rax in
      let wake_tick = saturating_add cpu.machine.ticks cpu.frame.rdi in
      if rax == syscall_exit
      then schedule fuel false (set_state current (exited cpu.frame.rdi) cpu)
      else if rax == syscall_yield
      then schedule fuel false (set_rax 0 cpu)
      else if rax == syscall_getpid
      then some (set_rax p.pid cpu)
      else if rax == syscall_getticks
      then some (set_rax cpu.machine.ticks cpu)
      else if rax == syscall_sleep
      then schedule fuel false (set_state current (sleeping wake_tick) (set_rax 0 cpu))
      else some (set_rax err_not_implemented cpu)

  abbrev pub handled : Option Cpu → Option (Bool × Cpu)
  handled none = none
  handled (some cpu) = some (true, cpu)

  -- The trap of the process `current`; the vector is read as a byte.
  unfoldable pub handle_trap_of : ℕ → ℕ → Process → ℕ → Cpu → Option (Bool × Cpu)
  handle_trap_of fuel current p fault_address cpu =
      let vector = cpu.frame.vector % 256 in
      let counted = record p { syscalls = saturating_add p.syscalls 1 } in
      let called = record cpu {
        scheduler = record cpu.scheduler {
          processes = set cpu.scheduler.processes current counted;
        };
      } in
      if vector == timer_vector
      then handled (schedule fuel true cpu)
      else if vector == user_syscall_vector
      then handled (handle_syscall fuel current counted called)
      else if leb vector 31
      then handled (
          schedule fuel false
            (set_state current (faulted vector fault_address cpu.frame.error_code) cpu))
      else some (false, cpu)

  -- Whether the trap was handled, and the processor after it.
  unfoldable pub handle_user_trap : ℕ → ℕ → Cpu → Option (Bool × Cpu)
  handle_user_trap fuel fault_address cpu =
      if not cpu.scheduler.active then some (false, cpu) else elim cpu.scheduler.current [
        | none ↦ some (false, cpu)
        | some current ↦ elim (get_elem? cpu.scheduler.processes current) [
          | none ↦ some (false, cpu)
          | some p ↦ handle_trap_of fuel current p fault_address cpu
        ]
      ]
