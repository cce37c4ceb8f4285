-- ===== src/Scheduler/Trap/Returns.antt =====
-- The trap handler of kernel/src/scheduler.rs always returns: its waiting loop ends.
use codex_os.Prelude.{
  ℕ, ◌%◌, ◌≤◌, ◌<◌, ◌≡◌, inl, inr, refl, ap, ◌∙◌, ◌==◌, leb, Bool, true, false, ◌||◌, Option, none,
  some, arith, length, get_elem?, set, length-set, get_elem?-set_self, Bool-cases, Option-cases,
  saturating_add, u64_max,
}
use codex_os.Scheduler.{
  Process, ProcessState, Cpu, sleeping, exited, faulted, has_sleepers, is_sleeping, is_runnable,
  switch_root, capture,
}
use codex_os.Scheduler.Idle.{length-wake_sleepers, idle_finds}
use codex_os.Scheduler.Round.{next_runnable_cases}
use codex_os.Scheduler.Trap.{
  schedule, select, schedule_from, handle_syscall, handle_trap_of, handle_user_trap, handled,
  set_state, set_rax, wake_all, timer_vector, user_syscall_vector, syscall_exit, syscall_yield,
  syscall_getpid, syscall_getticks, syscall_sleep,
}
use codex_os.Scheduler.Trap.Safety.{IsRunning, IsSafe, below}
use codex_os.Scheduler.Trap.Handled.{
  IsSafeAfter, handle_user_trap-IsSafeAfter, get_elem?-update_process,
}
use codex_os.Scheduler.Trap.Wakes.{
  WakesBy, woken_sleeper, find_sleeper, state_at-set, state_at-update_process, state_there, is_some,
  wake_tick_of,
}
use codex_os.Scheduler.Trap.Others.{switch_root-ticks}

module _ (resume : ℕ) (after_halt : ℕ → ℕ) (advances : (t : ℕ) → t < after_halt t) where
  select-returns :
      (fuel current : ℕ) (timer : Bool) (cpu : Cpu)
      → current < length cpu.scheduler.processes
      → WakesBy fuel cpu.scheduler.processes
      → is_some (select resume after_halt fuel current timer cpu) ≡ true
  unfolding select
  select-returns fuel current timer cpu h bound =
      let woken = wake_all cpu in
      let ps = woken.scheduler.processes in
      let h' : current < length ps =
        rw (length-wake_sleepers cpu.machine.ticks cpu.scheduler.processes) h in
      let root = woken.scheduler.kernel_root in
      let halting = record woken { machine = (switch_root root woken.machine).1 } in
      elim (next_runnable_cases ps current h') [
        | inr (found, (e, rest)) ↦ rw (select, e)
        | inl (e, nothing) ↦ elim (Bool-cases (has_sleepers ps)) [
          | inr f ↦ rw (select, e, f)
          | inl f ↦ elim (Bool-cases ((switch_root root woken.machine).0)) [
            | inr g ↦ rw (select, e, f, g)
            | inl g ↦
                let (i, (w, s)) = find_sleeper ps f in
                let (early, s0) = woken_sleeper cpu.machine.ticks cpu.scheduler.processes i w s in
                let soon : w ≤ fuel = bound i w s0 in
                let same : halting.machine.ticks ≡ cpu.machine.ticks =
                  switch_root-ticks root woken.machine in
                let (next, (last, (q, r))) =
                  idle_finds resume after_halt advances fuel current halting i w h' s
                    (rw same early) (omega arith) in
                rw (select, e, f, g, q)
          ]
        ]
      ]

  schedule_from-returns :
      (fuel current : ℕ) (p : Process) (timer : Bool) (cpu : Cpu)
      → get_elem? cpu.scheduler.processes current ≡ some p
      → WakesBy fuel cpu.scheduler.processes
      → is_some (schedule_from resume after_halt fuel current p timer cpu) ≡ true
  unfolding schedule_from
  schedule_from-returns fuel current p timer cpu there bound =
      let ps = cpu.scheduler.processes in
      let h = below ps current p there in
      elim (Bool-cases (is_runnable p.state || is_sleeping p.state)) [
        | inr e ↦ rw e (select-returns fuel current timer cpu h bound)
        | inl e ↦ elim (Option-cases (capture cpu.frame)) [
          | inl f ↦ rw (e, f)
          | inr (context, f) ↦
              let q = record p { context = context } in
              rw (e, f)
                (select-returns fuel current timer _ (rw (length-set ps current q) h) (λ i w s.
                  elim (state_at-set ps current q i (sleeping w) s) [
                    | inl old ↦ bound i w old
                    | inr own ↦ bound current w (state_there ps current p there ∙ ap some own)
                  ]))
        ]
      ]

  schedule-returns :
      (fuel : ℕ) (timer : Bool) (cpu : Cpu) (current : ℕ) (p : Process)
      → cpu.scheduler.current ≡ some current
      → get_elem? cpu.scheduler.processes current ≡ some p
      → WakesBy fuel cpu.scheduler.processes
      → is_some (schedule resume after_halt fuel timer cpu) ≡ true
  unfolding schedule
  schedule-returns fuel timer cpu current p cur there bound =
      rw (schedule, cur, there) (schedule_from-returns fuel current p timer cpu there bound)

  set_state-returns :
      (fuel current : ℕ) (p : Process) (s : ProcessState) (cpu : Cpu)
      → cpu.scheduler.current ≡ some current
      → get_elem? cpu.scheduler.processes current ≡ some p
      → WakesBy fuel cpu.scheduler.processes
      → ((w : ℕ) → s ≡ sleeping w → w ≤ fuel)
      → is_some (schedule resume after_halt fuel false (set_state current s cpu)) ≡ true
  set_state-returns fuel current p s cpu cur there bound fits =
      let ps = cpu.scheduler.processes in
      schedule-returns fuel false (set_state current s cpu) current (record p { state = s }) cur
        (get_elem?-update_process ps current (λ (q : Process). record q { state = s }) p there)
        (λ i w a. elim (state_at-update_process ps current s i (sleeping w) a) [
          | inl old ↦ bound i w old
          | inr own ↦ fits w own
        ])

  syscall-returns :
      (fuel current : ℕ) (p q : Process) (cpu : Cpu)
      → u64_max ≤ fuel
      → cpu.scheduler.current ≡ some current
      → get_elem? cpu.scheduler.processes current ≡ some q
      → WakesBy fuel cpu.scheduler.processes
      → is_some (handle_syscall resume after_halt fuel current p cpu) ≡ true
  unfolding handle_syscall
  syscall-returns fuel current p q cpu large cur there bound =
      let wake_tick = saturating_add cpu.machine.ticks cpu.frame.rdi in
      elim (Bool-cases (cpu.frame.rax == syscall_exit)) [
        | inl a ↦ simp a (
            set_state-returns fuel current q (exited cpu.frame.rdi) cpu cur there bound
              (λ w e. absurd cc))
        | inr a ↦ elim (Bool-cases (cpu.frame.rax == syscall_yield)) [
          | inl b ↦
              simp (a, b) (schedule-returns fuel false (set_rax 0 cpu) current q cur there bound)
          | inr b ↦ elim (Bool-cases (cpu.frame.rax == syscall_getpid)) [
            | inl c ↦ simp (a, b, c)
            | inr c ↦ elim (Bool-cases (cpu.frame.rax == syscall_getticks)) [
              | inl d ↦ simp (a, b, c, d)
              | inr d ↦ elim (Bool-cases (cpu.frame.rax == syscall_sleep)) [
                | inl e ↦
                    simp (a, b, c, d, e)
                      (set_state-returns fuel current q (sleeping wake_tick) (set_rax 0 cpu) cur
                        there bound
                        (λ w f. let same : wake_tick ≡ w = ap wake_tick_of f in omega arith))
                | inr e ↦ simp (a, b, c, d, e)
              ]
            ]
          ]
        ]
      ]

  handled-returns :
      (result : Option Cpu)
      → is_some result ≡ true
      → is_some (handled resume after_halt result) ≡ true
  handled-returns none h = h
  handled-returns (some cpu) h = refl

  trap_of-returns :
      (fuel current : ℕ) (p : Process) (fault_address : ℕ) (cpu : Cpu)
      → u64_max ≤ fuel
      → cpu.scheduler.current ≡ some current
      → get_elem? cpu.scheduler.processes current ≡ some p
      → WakesBy fuel cpu.scheduler.processes
      → is_some (handle_trap_of resume after_halt fuel current p fault_address cpu) ≡ true
  unfolding handle_trap_of
  trap_of-returns fuel current p fault_address cpu large cur there bound =
      let vector = cpu.frame.vector % 256 in
      let counted = record p { syscalls = saturating_add p.syscalls 1 } in
      let old = cpu.scheduler.processes in
      let ps = set old current counted in
      let called = record cpu { scheduler = record cpu.scheduler { processes = ps } } in
      let there' : get_elem? ps current ≡ some counted =
        get_elem?-set_self old current counted (below old current p there) in
      let bound' : WakesBy fuel ps = λ i w s.
        elim (state_at-set old current counted i (sleeping w) s) [
          | inl o ↦ bound i w o
          | inr own ↦ bound current w (state_there old current p there ∙ ap some own)
        ] in
      let stop = faulted vector fault_address cpu.frame.error_code in
      elim (Bool-cases (vector == timer_vector)) [
        | inl a ↦
            simp a (handled-returns _ (schedule-returns fuel true cpu current p cur there bound))
        | inr a ↦ elim (Bool-cases (vector == user_syscall_vector)) [
          | inl b ↦
              simp (a, b)
                (handled-returns _
                  (syscall-returns fuel current counted counted called large cur there' bound'))
          | inr b ↦ elim (Bool-cases (leb vector 31)) [
            | inl c ↦
                simp (a, b, c)
                  (handled-returns _
                    (set_state-returns fuel current p stop cpu cur there bound (λ w e. absurd cc)))
            | inr c ↦ simp (a, b, c)
          ]
        ]
      ]

some_of :
    (result : Option (Bool × Cpu))
    → is_some result ≡ true
    → IsSafeAfter result
    → (taken : Bool) × ((last : Cpu) × ((result ≡ some (taken, last)) × IsSafe last))
some_of none h safe = absurd cc
some_of (some (taken, last)) h safe = (taken, (last, (refl, safe)))

-- When every halt advances the tick counter and all wake ticks are 64-bit words, a trap of a running
-- process returns with fuel for every 64-bit tick, and what it leaves is a runnable process in its own
-- page tables and on its own kernel stack, or a scheduler that is no longer active.
pub handle_user_trap-returns :
    (resume : ℕ) (after_halt : ℕ → ℕ) (fuel fault_address : ℕ) (cpu : Cpu)
    → ((t : ℕ) → t < after_halt t)
    → u64_max ≤ fuel
    → WakesBy u64_max cpu.scheduler.processes
    → IsRunning cpu
    → (taken : Bool) × ((last : Cpu) × ((handle_user_trap resume after_halt fuel fault_address cpu
            ≡ some (taken, last))
          × IsSafe last))
unfolding handle_user_trap
handle_user_trap-returns resume after_halt fuel fault_address cpu advances large bound run =
    some_of (handle_user_trap resume after_halt fuel fault_address cpu)
      (rw (handle_user_trap, run.is_active, run.is_current, run.is_there)
        (trap_of-returns resume after_halt advances fuel run.index run.process fault_address cpu
          large run.is_current run.is_there
          (λ i w s. let b : w ≤ u64_max = bound i w s in omega arith)))
      (handle_user_trap-IsSafeAfter resume after_halt fuel fault_address cpu run)
