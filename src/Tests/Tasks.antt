-- ===== src/Tests/Tasks.antt =====
-- Schedulers of kernel/src/scheduler.rs with three processes, and a probe of kernel/src/process.rs.
use codex_os.Prelude.{
  ◌↔◌, ℕ, suc, ◌<◌, ◌≡◌, ◌⊎◌, ◌*◌, zero, ap, ltb, if◌then◌else◌, refl, List, [], ◌∷◌, Bool, true,
  false, Option, none, some, arith, u64_max,
}
use codex_os.Prelude.Results.{ok}
use codex_os.Scheduler.{
  Process, ProcessState, runnable, sleeping, exited, faulted, Cpu, Machine, initial, next_runnable,
  runnable_at, idle, new,
}
use codex_os.Scheduler.Round.{IsFirst, next_runnable_cases}
use codex_os.Scheduler.Idle.{idle_finds}
use codex_os.Scheduler.Trap.{handle_user_trap}
use codex_os.Scheduler.Trap.Safety.{IsRunning, IsSafe}
use codex_os.Scheduler.Trap.Others.{Leaves}
use codex_os.Scheduler.Trap.Isolation.{handle_user_trap-leaves_others}
use codex_os.Scheduler.Trap.Wakes.{WakesBy}
use codex_os.Scheduler.Trap.Returns.{handle_user_trap-returns}
use codex_os.Scheduler.Trap.Outcome.{validate_outcomes}
use codex_os.Scheduler.Trap.Outcome.Accepted.{IsGoodRun, validate_outcomes_iff}
use codex_os.Process
use codex_os.Process.Isolation.{AgreeOn, handle_user_trap-AgreeOn}

abbrev process : ℕ → ProcessState → Process
process pid state = record {
  pid = pid;
  space_root = pid * 4096;
  stack_address = 0x20_0000;
  stack_length = 0x1_0000;
  context = initial 0x40_0000 0x60_0000;
  state = state;
  dispatches = 2;
  syscalls = 0;
}

abbrev three : List Process
three = process 1 runnable ∷ process 2 (sleeping 9) ∷ process 3 runnable ∷ []

next_runnable_cases_example :
    ((next_runnable three 0 ≡ none) × ((i : ℕ) → i < 3 → runnable_at three i ≡ false))
    ⊎ ((found : ℕ) × ((next_runnable three 0 ≡ some found)
          × ((found < 3) × IsFirst three 0 1 found)))
next_runnable_cases_example = next_runnable_cases three 0 (omega arith)

abbrev machine : Machine
machine = record { ticks = 5; cr3 = 4096; privilege_stack_top = 0x21_0000; gdt_loaded = true }

-- A processor that runs the first of some processes.
abbrev cpu_of : List Process → Cpu
cpu_of processes = record {
  scheduler = record new { active = true; current = some 0; processes = processes };
  frame = (initial 0x40_0000 0x60_0000).frame;
  machine = machine;
}

abbrev asleep : List Process
asleep = process 1 (exited 1) ∷ process 2 (sleeping 9) ∷ []

idle_finds_example :
    (next : ℕ) × ((last : Cpu) × ((idle 0 suc 4 0 none (cpu_of asleep) ≡ some (some next, last))
        × (runnable_at last.scheduler.processes next ≡ true)))
idle_finds_example =
    idle_finds 0 suc (λ t. omega arith) 4 0 (cpu_of asleep) 1 9 (omega arith) refl (omega arith)
      (omega arith)

abbrev wake_of : Option ProcessState → ℕ
wake_of (some (sleeping w)) = w
wake_of _ = 0

three-WakesBy : WakesBy u64_max three
three-WakesBy zero w h = absurd cc
three-WakesBy (suc zero) w h = let e : 9 ≡ w = ap wake_of h in omega arith
three-WakesBy (suc (suc zero)) w h = absurd cc
three-WakesBy (suc (suc (suc i))) w h = absurd cc

three-IsRunning : IsRunning (cpu_of three)
three-IsRunning = record {
  index = 0;
  process = process 1 runnable;
  is_active = refl;
  is_current = refl;
  is_there = refl;
  can_run = refl;
  in_its_space = refl;
  on_its_stack = refl;
}

handle_user_trap-returns_example :
    (taken : Bool) × ((last : Cpu) × ((handle_user_trap 0 suc u64_max 0 (cpu_of three)
          ≡ some (taken, last))
        × IsSafe last))
handle_user_trap-returns_example =
    handle_user_trap-returns 0 suc u64_max 0 (cpu_of three) (λ t. omega arith) (omega arith)
      three-WakesBy three-IsRunning

-- The process that sleeps until tick 9.
handle_user_trap-leaves_others_example :
    (taken : Bool) × ((last : Cpu) × ((handle_user_trap 0 suc u64_max 0 (cpu_of three)
          ≡ some (taken, last))
        × Leaves 1 (process 2 (sleeping 9)) last))
handle_user_trap-leaves_others_example =
    handle_user_trap-leaves_others 0 suc u64_max 0 (cpu_of three) 1 (process 2 (sleeping 9))
      (λ t. omega arith) (omega arith) three-WakesBy three-IsRunning (λ e. absurd cc) refl

abbrev first : Process
first = process 1001 (exited 1001)

abbrev second : Process
second = process 1002 (faulted 14 0x20_0000 7)

abbrev third : Process
third = process 1003 (exited 1003)

validate_outcomes_iff_example :
    (validate_outcomes (first ∷ second ∷ third ∷ []) none 5 20 2 1 ≡ ok tt)
    ↔ IsGoodRun (first ∷ second ∷ third ∷ []) none 5 20 2 1
validate_outcomes_iff_example = validate_outcomes_iff (first ∷ second ∷ third ∷ []) none 5 20 2 1

-- A call to log two bytes of the code region.
abbrev probe : Process.Probe
probe = record {
  state = record {
    active = true;
    kernel_root = 4096;
    code_start = 0x1000;
    code_end = 0x2000;
    syscall_count = 0;
    outcome = Process.running;
  };
  frame = record (initial 0x1000 0x3000).frame { rax = 1; rdi = 0x1800; rsi = 2; vector = 0x80 };
  machine = machine;
}

-- Letters, with a different byte below the region in the second.
abbrev letters : ℕ → ℕ
letters a = 0x41

abbrev marked : ℕ → ℕ
marked a = if ltb a 0x1000 then 0xff else 0x41

agree : AgreeOn 0x1000 0x2000 letters marked
agree a low high = ground arith

handle_user_trap-AgreeOn_example :
    Process.handle_user_trap 0 letters 0 probe ≡ Process.handle_user_trap 0 marked 0 probe
handle_user_trap-AgreeOn_example =
    handle_user_trap-AgreeOn 0 0 letters marked probe (omega arith) agree
