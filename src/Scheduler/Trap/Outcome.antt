-- ===== src/Scheduler/Trap/Outcome.antt =====
-- The checks of a finished run in kernel/src/scheduler.rs. The error has the constructors that these
-- checks return.
pub mod Accepted
use codex_os.Prelude.{
  ℕ, ◌≤◌, ◌<◌, ◌≡◌, ◌≢◌, ◌==◌, ltb, leb, List, [], ◌∷◌, Bool, true, false, not, ◌&&◌, ◌||◌, Option,
  none, some, arith, get_elem?, bit_and, ap, and_left, and_right, ==→eq, not-false,
}
use codex_os.Prelude.Results.{Result, ok, err, ◌>>=◌, ◌>>◌, fail_if, fail_if-passed}
use codex_os.Scheduler.{Process, ProcessState, exited, faulted, RuntimeFailure}

pub data SchedulerError : Type 0 where
  runtime_root_switch fault_isolation_failed : SchedulerError
  preemption_not_observed idle_not_observed : SchedulerError
  process_did_not_exit fairness_violation : ℕ → SchedulerError

abbrev pub persistent_pid : ℕ
persistent_pid = 2001

abbrev pub isolation_fault_address : ℕ
isolation_fault_address = 0x20_0000

abbrev pub is_failure : Option RuntimeFailure → Bool
is_failure none = false
is_failure (some failure) = true

abbrev pub has_exited_with : ℕ → ProcessState → Bool
has_exited_with pid (exited status) = status == pid
has_exited_with pid _ = false

abbrev pub is_isolation_fault : ProcessState → Bool
is_isolation_fault (faulted vector address error) =
    vector == 14 && (address == isolation_fault_address && bit_and error 0x07 == 0x07)
is_isolation_fault _ = false

-- One turn of the loop over the first and the third process.
unfoldable pub check_exit : Option Process → Result SchedulerError (Unit {0})
check_exit none = ok tt
check_exit (some p) = fail_if (not (has_exited_with p.pid p.state)) (process_did_not_exit p.pid)

-- `processes.iter().find(|process| process.dispatches < 2)`.
unfoldable pub check_fairness : List Process → Result SchedulerError (Unit {0})
check_fairness [] = ok tt
check_fairness (p ∷ ps) = do
  fail_if (ltb p.dispatches 2) (fairness_violation p.pid)
  check_fairness ps

unfoldable pub check_fault : Option Process → Result SchedulerError (Unit {0})
check_fault none = err fault_isolation_failed
check_fault (some p) = fail_if (not (is_isolation_fault p.state)) fault_isolation_failed

unfoldable pub validate_outcomes :
    List Process → Option RuntimeFailure → ℕ → ℕ → ℕ → ℕ → Result SchedulerError (Unit {0})
validate_outcomes processes failure ticks_before ticks_after timer_preemptions idle_halts = do
  fail_if (is_failure failure) runtime_root_switch
  check_exit (get_elem? processes 0)
  check_exit (get_elem? processes 2)
  check_fault (get_elem? processes 1)
  fail_if (leb ticks_after ticks_before || ltb timer_preemptions 2) preemption_not_observed
  fail_if (idle_halts == 0) idle_not_observed
  check_fairness processes

-- The status of a process that has exited.
abbrev exit_status : Process → Result SchedulerError ℕ
exit_status p = elim p.state [ exited status ↦ ok status | _ ↦ err (process_did_not_exit p.pid) ]

unfoldable pub validate_persistent_outcome :
    List Process → Option RuntimeFailure → ℕ → ℕ → ℕ → Result SchedulerError ℕ
validate_persistent_outcome [] failure ticks_before ticks_after idle_halts = do
  fail_if (is_failure failure) runtime_root_switch
  err (process_did_not_exit persistent_pid)
validate_persistent_outcome (p ∷ ps) failure ticks_before ticks_after idle_halts = do
  fail_if (is_failure failure) runtime_root_switch
  status ← exit_status p
  fail_if (not (p.pid == persistent_pid) || not (status == persistent_pid))
      (process_did_not_exit p.pid)
  fail_if (leb ticks_after ticks_before) preemption_not_observed
  fail_if (idle_halts == 0) idle_not_observed
  fail_if (ltb p.dispatches 2) (fairness_violation p.pid)
  ok status
