-- ===== src/Process.antt =====
-- kernel/src/process.rs: the probe process that checks isolation, its system calls and the traps that
-- end it. The memory is a function from addresses to bytes; what is printed is not kept.
pub mod Isolation
use codex_os.Prelude.{
  ℕ, zero, suc, ◌+◌, ◌-◌, ◌%◌, ◌==◌, ltb, leb, List, [], ◌∷◌, Bool, true, false, not, ◌&&◌, ◌||◌,
  Option, none, some, bit_and, bit_or, saturating_add, checked_add, if◌then◌else◌, u64_max,
}
use codex_os.Scheduler.{TrapFrame, Machine, switch_root, kernel_code_selector}

abbrev pub syscall_log : ℕ
syscall_log = 1

abbrev pub syscall_exit : ℕ
syscall_exit = 2

-- `(-22_i64) as u64`.
abbrev pub err_invalid_argument : ℕ
err_invalid_argument = u64_max - 21

-- `(-38_i64) as u64`.
abbrev pub err_not_implemented : ℕ
err_not_implemented = u64_max - 37

abbrev pub kernel_write_probe_address : ℕ
kernel_write_probe_address = 0x20_0000

abbrev pub max_user_log_bytes : ℕ
max_user_log_bytes = 256

pub data ProcessOutcome : Type 0 where
  not_started running root_restore_failed : ProcessOutcome
  isolation_enforced : (address error : ℕ) → ProcessOutcome
  exited : (status : ℕ) → ProcessOutcome
  fault : (fault_vector address error : ℕ) → ProcessOutcome

pub record ProcessState : Type 0 where
  pub active : Bool
  pub kernel_root : ℕ
  pub code_start : ℕ
  pub code_end : ℕ
  pub syscall_count : ℕ
  pub outcome : ProcessOutcome

-- The process, the frame of the trap and the machine.
pub record Probe : Type 0 where
  pub state : ProcessState
  pub frame : TrapFrame
  pub machine : Machine

-- The ranges of the bytes that follow a first byte of UTF-8.
abbrev pub continuations : ℕ → Option (List (ℕ × ℕ))
continuations b =
    let any : ℕ × ℕ = (0x80, 0xbf) in
    if ltb b 0x80
    then some []
    else if leb 0xc2 b && leb b 0xdf
    then some (any ∷ [])
    else if b == 0xe0
    then some ((0xa0, 0xbf) ∷ any ∷ [])
    else if b == 0xed
    then some ((0x80, 0x9f) ∷ any ∷ [])
    else if leb 0xe1 b && leb b 0xef
    then some (any ∷ any ∷ [])
    else if b == 0xf0
    then some ((0x90, 0xbf) ∷ any ∷ any ∷ [])
    else if leb 0xf1 b && leb b 0xf3
    then some (any ∷ any ∷ any ∷ [])
    else if b == 0xf4
    then some ((0x80, 0x8f) ∷ any ∷ any ∷ [])
    else none

-- Whether `core::str::from_utf8` accepts the bytes, after a first byte that waits for others.
abbrev pub is_utf8_after : List (ℕ × ℕ) → List ℕ → Bool
is_utf8_after [] [] = true
is_utf8_after (range ∷ ranges) [] = false
is_utf8_after [] (b ∷ bytes) = elim (continuations b) [
  | none ↦ false
  | some ranges ↦ is_utf8_after ranges bytes
]
is_utf8_after ((low, high) ∷ ranges) (b ∷ bytes) =
    leb low b && leb b high && is_utf8_after ranges bytes

unfoldable pub is_utf8 : List ℕ → Bool
is_utf8 bytes = is_utf8_after [] bytes

-- `core::slice::from_raw_parts`.
unfoldable pub from_raw_parts : (ℕ → ℕ) → ℕ → ℕ → List ℕ
from_raw_parts memory address zero = []
from_raw_parts memory address (suc length) =
    memory address ∷ from_raw_parts memory (suc address) length

abbrev at_most : Option ℕ → ℕ → Bool
at_most none bound = false
at_most (some end) bound = leb end bound

unfoldable pub user_buffer_within : ℕ → ℕ → ℕ → ℕ → ℕ → Bool
user_buffer_within region_start region_end address length maximum_length =
    leb length maximum_length
    && (leb region_start address && at_most (checked_add address length) region_end)

module _ (resume_address : ℕ) (memory : ℕ → ℕ) where
  unfoldable pub terminate_user_process : Probe → Probe
  terminate_user_process probe =
      let (switched, machine) = switch_root probe.state.kernel_root probe.machine in
      let outcome = if switched then probe.state.outcome else root_restore_failed in
      record {
        state = record probe.state { active = false; outcome = outcome };
        frame = record probe.frame {
          rip = resume_address;
          cs = kernel_code_selector;
          rflags = bit_and (bit_or probe.frame.rflags 0x02) 0xffff_ffff_ffff_fbff;
        };
        machine = machine;
      }

  abbrev pub set_rax : ℕ → Probe → Probe
  set_rax value probe = record probe { frame = record probe.frame { rax = value } }

  -- `usize` holds every `u64`, so the conversion of the length always succeeds.
  unfoldable pub handle_log : Probe → Probe
  handle_log probe =
      let address = probe.frame.rdi in
      let length = probe.frame.rsi in
      if not (
        user_buffer_within probe.state.code_start probe.state.code_end address length
          max_user_log_bytes)
      then set_rax err_invalid_argument probe
      else if is_utf8 (from_raw_parts memory address length)
      then set_rax length probe
      else set_rax err_invalid_argument probe

  abbrev pub end_with : ProcessOutcome → Probe → Probe
  end_with outcome probe =
      terminate_user_process (record probe { state = record probe.state { outcome = outcome } })

  unfoldable pub handle_syscall : Probe → Probe
  handle_syscall probe =
      let counted = record probe {
        state = record probe.state { syscall_count = saturating_add probe.state.syscall_count 1 };
      } in
      if probe.frame.rax == syscall_log
      then handle_log counted
      else if probe.frame.rax == syscall_exit
      then end_with (exited probe.frame.rdi) counted
      else set_rax err_not_implemented counted

  -- Whether the trap was handled, and the processor after it.
  unfoldable pub handle_user_trap : ℕ → Probe → Bool × Probe
  handle_user_trap fault_address probe =
      let vector = probe.frame.vector % 256 in
      let error = probe.frame.error_code in
      let expected = bit_and error 0x07 == 0x07 in
      if not probe.state.active
      then (false, probe)
      else if vector == 0x80
      then (true, handle_syscall probe)
      else if vector == 14
      then (
        true,
        end_with
            (if fault_address == kernel_write_probe_address && expected
              then isolation_enforced fault_address error
              else fault 14 fault_address error)
            probe,
      )
      else if leb vector 31
      then (true, end_with (fault vector fault_address error) probe)
      else (false, probe)
