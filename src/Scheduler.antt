-- ===== src/Scheduler.antt =====
-- kernel/src/scheduler.rs: the round-robin scheduler of user processes that traps drive, and the
-- checks of a finished run. The machine is a parameter: its page-table root, privilege stack, tick
-- counter and `hlt`. A loop that halts runs on fuel.
pub mod Trap
pub mod Round
pub mod Idle
use codex_os.Prelude.{
  ℕ, zero, suc, ◌+◌, ◌-◌, ◌*◌, ◌/◌, ◌%◌, ◌==◌, ltb, leb, List, [], ◌∷◌, map, Bool, true, false, not,
  ◌&&◌, ◌||◌, Option, none, some, get_elem?, set, any, length, bit_and, bit_or, saturating_add,
  if◌then◌else◌,
}

-- kernel/src/interrupts.rs, with the two words that the processor pushes below the frame when the
-- trap comes from user mode.
pub record TrapFrame : Type 0 where
  pub r15 : ℕ
  pub r14 : ℕ
  pub r13 : ℕ
  pub r12 : ℕ
  pub r11 : ℕ
  pub r10 : ℕ
  pub r9 : ℕ
  pub r8 : ℕ
  pub rbp : ℕ
  pub rdi : ℕ
  pub rsi : ℕ
  pub rdx : ℕ
  pub rcx : ℕ
  pub rbx : ℕ
  pub rax : ℕ
  pub vector : ℕ
  pub error_code : ℕ
  pub rip : ℕ
  pub cs : ℕ
  pub rflags : ℕ
  pub user_rsp : ℕ
  pub user_ss : ℕ

pub data ProcessState : Type 0 where
  runnable : ProcessState
  sleeping : (wake_tick : ℕ) → ProcessState
  exited : (status : ℕ) → ProcessState
  faulted : (fault_vector address error : ℕ) → ProcessState

pub record UserContext : Type 0 where
  pub frame : TrapFrame
  pub stack_pointer : ℕ
  pub stack_selector : ℕ

-- The address space is its root: it is given back only after a run, when `root` would panic. The kernel
-- stack is the address and the length of its box.
pub record Process : Type 0 where
  pub pid : ℕ
  pub space_root : ℕ
  pub stack_address : ℕ
  pub stack_length : ℕ
  pub context : UserContext
  pub state : ProcessState
  pub dispatches : ℕ
  pub syscalls : ℕ

pub data RuntimeFailure : Type 0 where
  missing_user_stack root_switch privilege_stack : RuntimeFailure

pub record SchedulerState : Type 0 where
  pub active : Bool
  pub kernel_root : ℕ
  pub current : Option ℕ
  pub processes : List Process
  pub timer_preemptions : ℕ
  pub context_switches : ℕ
  pub failure : Option RuntimeFailure
  pub idle_halts : ℕ

-- What the scheduler uses of the processor: the tick counter of kernel/src/interrupts.rs, the root of
-- the page tables, the stack for traps and whether the tables of segments are loaded.
pub record Machine : Type 0 where
  pub ticks : ℕ
  pub cr3 : ℕ
  pub privilege_stack_top : ℕ
  pub gdt_loaded : Bool

-- `vm::switch_root`.
unfoldable pub switch_root : ℕ → Machine → Bool × Machine
switch_root root m = if root % 4096 == 0 then (true, record m { cr3 = root }) else (false, m)

-- `interrupts::set_privilege_stack`.
unfoldable pub set_privilege_stack : ℕ → Machine → Bool × Machine
set_privilege_stack stack_top m =
    if not m.gdt_loaded || stack_top == 0
    then (false, m)
    else (true, record m { privilege_stack_top = stack_top })

abbrev pub user_code_selector : ℕ
user_code_selector = 0x33

abbrev pub user_data_selector : ℕ
user_data_selector = 0x2b

abbrev pub kernel_code_selector : ℕ
kernel_code_selector = 0x08

-- `UserContext::initial`.
abbrev pub initial : ℕ → ℕ → UserContext
initial entry stack_pointer = record {
  frame = record {
    r15 = 0;
    r14 = 0;
    r13 = 0;
    r12 = 0;
    r11 = 0;
    r10 = 0;
    r9 = 0;
    r8 = 0;
    rbp = 0;
    rdi = 0;
    rsi = 0;
    rdx = 0;
    rcx = 0;
    rbx = 0;
    rax = 0;
    vector = 0;
    error_code = 0;
    rip = entry;
    cs = user_code_selector;
    rflags = 0x202;
    user_rsp = 0;
    user_ss = 0;
  };
  stack_pointer = stack_pointer;
  stack_selector = user_data_selector;
}

abbrev pub from_user_mode : TrapFrame → Bool
from_user_mode frame = bit_and frame.cs 3 == 3

-- `UserContext::capture`, with `interrupts::user_stack`.
unfoldable pub capture : TrapFrame → Option UserContext
capture frame =
    if from_user_mode frame
    then some
        (record { frame = frame; stack_pointer = frame.user_rsp; stack_selector = frame.user_ss })
    else none

-- `UserContext::restore`, with `interrupts::set_user_stack`. The words below the frame are written
-- only by `set_user_stack`.
unfoldable pub restore : UserContext → TrapFrame → Bool × TrapFrame
restore context frame =
    let copied = record context.frame { user_rsp = frame.user_rsp; user_ss = frame.user_ss } in
    if from_user_mode context.frame
    then (
      true,
      record copied { user_rsp = context.stack_pointer; user_ss = context.stack_selector },
    )
    else (false, copied)

abbrev pub kernel_stack_top : Process → ℕ
kernel_stack_top p = (p.stack_address + p.stack_length) / 16 * 16

abbrev pub new : SchedulerState
new = record {
  active = false;
  kernel_root = 0;
  current = none;
  processes = [];
  timer_preemptions = 0;
  context_switches = 0;
  failure = none;
  idle_halts = 0;
}

abbrev pub wake : ℕ → ProcessState → ProcessState
wake ticks (sleeping wake_tick) = if leb wake_tick ticks then runnable else sleeping wake_tick
wake ticks runnable = runnable
wake ticks (exited status) = exited status
wake ticks (faulted vector address error) = faulted vector address error

unfoldable pub wake_sleepers : ℕ → List Process → List Process
wake_sleepers ticks processes =
    map (λ (p : Process). record p { state = wake ticks p.state }) processes

abbrev pub is_sleeping : ProcessState → Bool
is_sleeping (sleeping wake_tick) = true
is_sleeping _ = false

abbrev pub is_runnable : ProcessState → Bool
is_runnable runnable = true
is_runnable _ = false

unfoldable pub has_sleepers : List Process → Bool
has_sleepers processes = any (λ (p : Process). is_sleeping p.state) processes

abbrev pub runnable_at : List Process → ℕ → Bool
runnable_at processes index = elim (get_elem? processes index) [
  | none ↦ false
  | some p ↦ is_runnable p.state
]

-- The first of `count` offsets, counted from `offset`, whose process is runnable.
unfoldable pub find_offset : List Process → ℕ → ℕ → ℕ → Option ℕ
find_offset processes current offset zero = none
find_offset processes current offset (suc count) =
    let rest = find_offset processes current (suc offset) count in
    let index = (current + offset) % length processes in
    if runnable_at processes index then some index else rest

unfoldable pub next_runnable : List Process → ℕ → Option ℕ
next_runnable processes current = find_offset processes current 1 (length processes)

-- The scheduler, the frame of the trap and the machine.
pub record Cpu : Type 0 where
  pub scheduler : SchedulerState
  pub frame : TrapFrame
  pub machine : Machine

-- The address of `scheduler_kernel_resume`, and the tick count after a `hlt` with interrupts enabled
-- that began at a given count.
module _ (resume_address : ℕ) (ticks_after_halt : ℕ → ℕ) where
  unfoldable pub return_to_kernel : Cpu → Cpu
  return_to_kernel cpu =
      let (switched, machine) = switch_root cpu.scheduler.kernel_root cpu.machine in
      let failure = if switched then cpu.scheduler.failure else some root_switch in
      record {
        scheduler = record cpu.scheduler { active = false; current = none; failure = failure };
        frame = record cpu.frame {
          rip = resume_address;
          cs = kernel_code_selector;
          rflags = bit_and (bit_or cpu.frame.rflags 0x02) 0xffff_ffff_ffff_fbff;
        };
        machine = machine;
      }

  abbrev pub fail : RuntimeFailure → Cpu → Cpu
  fail failure cpu =
      return_to_kernel (record cpu { scheduler = record cpu.scheduler { failure = some failure } })

  -- One turn of the loop that waits for a sleeper.
  unfoldable pub halt_once : Cpu → Cpu
  halt_once cpu =
      let machine = record cpu.machine { ticks = ticks_after_halt cpu.machine.ticks } in
      record cpu {
        scheduler = record cpu.scheduler {
          idle_halts = saturating_add cpu.scheduler.idle_halts 1;
          processes = wake_sleepers machine.ticks cpu.scheduler.processes;
        };
        machine = machine;
      }

  -- `while next.is_none() && self.has_sleepers()`; `none` when the fuel is spent.
  unfoldable pub idle : ℕ → ℕ → Option ℕ → Cpu → Option (Option ℕ × Cpu)
  idle fuel current (some next) cpu = some (some next, cpu)
  idle zero current none cpu =
      if has_sleepers cpu.scheduler.processes then none else some (none, cpu)
  idle (suc fuel) current none cpu =
      let halted = halt_once cpu in
      let rest = idle fuel current (next_runnable halted.scheduler.processes current) halted in
      if has_sleepers cpu.scheduler.processes then rest else some (none, cpu)

  -- From the choice of the next process on.
  unfoldable pub dispatch : ℕ → Bool → ℕ → Process → Cpu → Cpu
  dispatch current timer next process cpu =
      let s = cpu.scheduler in
      let switched = not (next == current) in
      let counted = record s {
        context_switches =
            if switched then saturating_add s.context_switches 1 else s.context_switches;
        timer_preemptions =
            if switched && timer then saturating_add s.timer_preemptions 1 else s.timer_preemptions;
        current = some next;
        processes =
            set s.processes next
              (record process { dispatches = saturating_add process.dispatches 1 });
      } in
      let (rooted, machine1) = switch_root process.space_root cpu.machine in
      let (stacked, machine2) = set_privilege_stack (kernel_stack_top process) machine1 in
      let (restored, frame) = restore process.context cpu.frame in
      if not rooted
      then fail root_switch (record { scheduler = counted; frame = cpu.frame; machine = machine1 })
      else if not stacked
      then fail privilege_stack
          (record { scheduler = counted; frame = cpu.frame; machine = machine2 })
      else if not restored
      then fail missing_user_stack
          (record { scheduler = counted; frame = frame; machine = machine2 })
      else record { scheduler = counted; frame = frame; machine = machine2 }
