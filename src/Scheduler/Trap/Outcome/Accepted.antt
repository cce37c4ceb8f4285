-- ===== src/Scheduler/Trap/Outcome/Accepted.antt =====
-- Which finished runs the gate of kernel/src/scheduler.rs accepts.
use codex_os.Prelude.{
  All, ℕ, ◌%◌, ◌∙◌, sym, ◌≤◌, ◌<◌, ◌≡◌, ◌↔◌, ◌==◌, ltb, leb, List, [], ◌∷◌, Bool, true, false, not,
  ◌||◌, Option, none, some, arith, refl, get_elem?, bit_and, ap, and_left, and_right, ==→eq,
  eq_refl, not-false,
}
use codex_os.Prelude.Results.{Result, ok, err, ◌>>◌, fail_if}
use codex_os.Prelude.Bits.{three_low_bits}
use codex_os.Scheduler.{Process, ProcessState, runnable, sleeping, exited, faulted, RuntimeFailure}
use codex_os.Scheduler.Trap.Outcome.{
  check_exit, check_fairness, check_fault, fairness_violation, fault_isolation_failed,
  has_exited_with, idle_not_observed, is_failure, is_isolation_fault, isolation_fault_address,
  preemption_not_observed, process_did_not_exit, runtime_root_switch, validate_outcomes,
}

-- If there is such a process, it has exited with its pid.
abbrev pub HasExited : Option Process → Type 0
HasExited none = Unit
HasExited (some p) = p.state ≡ exited p.pid

-- There is such a process, and it was stopped by a page fault (the vector 14) on the kernel's text, for
-- a page that is there, at a write, in user mode: the lowest three bits of the error are set.
abbrev pub HasFaulted : Option Process → Type 0
HasFaulted none = ⊥
HasFaulted (some p) =
    (error : ℕ) × ((p.state ≡ faulted 14 isolation_fault_address error) × (error % 8 ≡ 7))

-- A run of the isolation test that went as it should.
pub record IsGoodRun (processes : List Process) (failure : Option RuntimeFailure)
    (before after preemptions halts : ℕ) : Type 0 where
  pub no_failure : failure ≡ none
  pub first_exits : HasExited (get_elem? processes 0)
  pub second_faults : HasFaulted (get_elem? processes 1)
  pub third_exits : HasExited (get_elem? processes 2)
  pub timer_ran : before < after
  pub preempted_twice : 2 ≤ preemptions
  pub idled : 1 ≤ halts
  pub all_dispatched : All (λ (p : Process). 2 ≤ p.dispatches) processes

module _ {E : Type 0} where
  both_passed : (m k : Result E (Unit {0})) → (m >> k) ≡ ok tt → (m ≡ ok tt) × (k ≡ ok tt)
  both_passed (ok tt) k h = (refl, h)
  both_passed (err e) k h = absurd cc

  pass_both : (m k : Result E (Unit {0})) → m ≡ ok tt → k ≡ ok tt → (m >> k) ≡ ok tt
  pass_both (ok tt) k h l = l
  pass_both (err e) k h l = absurd cc

  guard_iff : (wrong : Bool) (e : E) → (fail_if wrong e ≡ ok tt) ↔ (wrong ≡ false)
  guard_iff true e = (λ h. absurd cc, λ h. absurd cc)
  guard_iff false e = (λ h. refl, λ h. refl)

no_failure_iff : (failure : Option RuntimeFailure) → (is_failure failure ≡ false) ↔ (failure ≡ none)
no_failure_iff none = (λ h. refl, λ h. refl)
no_failure_iff (some f) = (λ h. absurd cc, λ h. absurd cc)

exited_iff : (pid : ℕ) (s : ProcessState) → (not (has_exited_with pid s) ≡ false) ↔ (s ≡ exited pid)
exited_iff pid runnable = (λ h. absurd cc, λ h. absurd cc)
exited_iff pid (sleeping w) = (λ h. absurd cc, λ h. absurd cc)
exited_iff pid (faulted vector address error) = (λ h. absurd cc, λ h. absurd cc)
exited_iff pid (exited status) = (
  λ h. ap exited (==→eq status pid (not-false (status == pid) h)),
  λ h. ap (λ (b : Bool). not b) (ap (λ n. n == pid) (ap status_of h) ∙ eq_refl pid),
)
  where
    status_of : ProcessState → ℕ
    status_of (exited status) = status
    status_of _ = 0

fault_iff :
    (s : ProcessState)
    → (not (is_isolation_fault s) ≡ false)
      ↔ ((error : ℕ) × ((s ≡ faulted 14 isolation_fault_address error) × (error % 8 ≡ 7)))
fault_iff runnable = (λ h. absurd cc, λ h. let e = h.1.0 in absurd cc)
fault_iff (sleeping w) = (λ h. absurd cc, λ h. let e = h.1.0 in absurd cc)
fault_iff (exited status) = (λ h. absurd cc, λ h. let e = h.1.0 in absurd cc)
fault_iff (faulted vector address error) = (
  λ h.
      let t = not-false (is_isolation_fault (faulted vector address error)) h in
      let v = and_left (vector == 14) _ t in
      let rest = and_right (vector == 14) _ t in
      let a = and_left (address == isolation_fault_address) _ rest in
      let e = and_right (address == isolation_fault_address) _ rest in
      (
        error,
        (
          rw (==→eq vector 14 v, ==→eq address isolation_fault_address a) refl,
          sym (three_low_bits error) ∙ ==→eq (bit_and error 0x07) 0x07 e,
        ),
      ),
  λ (found, (same, bits)).
      ap (λ s. not (is_isolation_fault s)) same
      ∙ ap (λ n. not (n == 7)) (three_low_bits found ∙ bits),
)

check_exit_iff : (o : Option Process) → (check_exit o ≡ ok tt) ↔ HasExited o
unfolding check_exit
check_exit_iff none = (λ h. tt, λ h. refl)
check_exit_iff (some p) =
    let guard = guard_iff (not (has_exited_with p.pid p.state)) (process_did_not_exit p.pid) in
    let there = exited_iff p.pid p.state in (λ h. there.0 (guard.0 h), λ h. guard.1 (there.1 h))

check_fault_iff : (o : Option Process) → (check_fault o ≡ ok tt) ↔ HasFaulted o
unfolding check_fault
check_fault_iff none = (λ h. absurd cc, λ h. absurd h)
check_fault_iff (some p) =
    let guard = guard_iff (not (is_isolation_fault p.state)) fault_isolation_failed in
    let there = fault_iff p.state in (λ h. there.0 (guard.0 h), λ h. guard.1 (there.1 h))

check_fairness_iff :
    (ps : List Process) → (check_fairness ps ≡ ok tt) ↔ All (λ (p : Process). 2 ≤ p.dispatches) ps
unfolding check_fairness
check_fairness_iff [] = (λ h. tt, λ h. refl)
check_fairness_iff (p ∷ ps) =
    let guard = guard_iff (ltb p.dispatches 2) (fairness_violation p.pid) in
    let rest = check_fairness_iff ps in
    (
      λ h.
          let (here, later) = both_passed _ _ h in
          let low = guard.0 here in (ground arith, rest.0 later),
      λ (here, later).
          let low : ltb p.dispatches 2 ≡ false = ground arith in
          pass_both _ _ (guard.1 low) (rest.1 later),
    )

-- The gate accepts a run exactly when it was a good one: the scheduler recorded no failure,
-- the first and the third process, where there are such, have exited with their own pids, there is a
-- second one, which was stopped by a page fault of user mode that wrote to the kernel's text, the timer
-- ran and preempted at least twice, the processor idled, and every process was dispatched at least
-- twice.
pub validate_outcomes_iff :
    (processes : List Process) (failure : Option RuntimeFailure)
    (before after preemptions halts : ℕ)
    → (validate_outcomes processes failure before after preemptions halts ≡ ok tt)
      ↔ IsGoodRun processes failure before after preemptions halts
unfolding validate_outcomes
validate_outcomes_iff processes failure before after preemptions halts =
    let failed = guard_iff (is_failure failure) runtime_root_switch in
    let first = check_exit_iff (get_elem? processes 0) in
    let second = check_fault_iff (get_elem? processes 1) in
    let third = check_exit_iff (get_elem? processes 2) in
    let ran = guard_iff (leb after before || ltb preemptions 2) preemption_not_observed in
    let idle = guard_iff (halts == 0) idle_not_observed in
    let fair = check_fairness_iff processes in
    (
      λ h.
          let (h0, k0) = both_passed _ _ h in
          let (h1, k1) = both_passed _ _ k0 in
          let (h2, k2) = both_passed _ _ k1 in
          let (h3, k3) = both_passed _ _ k2 in
          let (h4, k4) = both_passed _ _ k3 in
          let (h5, k5) = both_passed _ _ k4 in
          let ticked = ran.0 h4 in
          let idled = idle.0 h5 in
          record {
            no_failure = (no_failure_iff failure).0 (failed.0 h0);
            first_exits = first.0 h1;
            second_faults = second.0 h3;
            third_exits = third.0 h2;
            timer_ran = ground arith;
            preempted_twice = ground arith;
            idled = ground arith;
            all_dispatched = fair.0 k5;
          },
      λ g.
          let t1 = g.timer_ran in
          let t2 = g.preempted_twice in
          let t3 = g.idled in
          let ticked : (leb after before || ltb preemptions 2) ≡ false = ground arith in
          let idled : (halts == 0) ≡ false = ground arith in
          pass_both _ _ (failed.1 ((no_failure_iff failure).1 g.no_failure)) (
            pass_both _ _ (first.1 g.first_exits) (
              pass_both _ _ (third.1 g.third_exits) (
                pass_both _ _ (second.1 g.second_faults) (
                  pass_both _ _ (ran.1 ticked)
                    (pass_both _ _ (idle.1 idled) (fair.1 g.all_dispatched)))))),
    )
