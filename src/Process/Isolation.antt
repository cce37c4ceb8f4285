-- ===== src/Process/Isolation.antt =====
-- What the probe's system calls of kernel/src/process.rs may read, and how its traps end.
use codex_os.Prelude.{
  ℕ, ◌↔◌, zero, suc, ◌+◌, ◌≤◌, ◌<◌, ◌≡◌, inl, inr, refl, leb, true, arith, Bool-cases, u64_max,
  saturating_add,
}
use codex_os.Process.{
  Probe, handle_user_trap, handle_syscall, handle_log, user_buffer_within, from_raw_parts,
  max_user_log_bytes, terminate_user_process,
}

-- Two memories that agree on a region.
abbrev pub AgreeOn : ℕ → ℕ → (ℕ → ℕ) → (ℕ → ℕ) → Type 0
AgreeOn start stop m n = (a : ℕ) → start ≤ a → a < stop → m a ≡ n a

from_raw_parts-AgreeOn :
    (m n : ℕ → ℕ) (address length : ℕ)
    → AgreeOn address (address + length) m n
    → from_raw_parts m address length ≡ from_raw_parts n address length
unfolding from_raw_parts
from_raw_parts-AgreeOn m n address zero h = refl
from_raw_parts-AgreeOn m n address (suc length) h = rw (
  h address (omega arith) (omega arith),
  from_raw_parts-AgreeOn m n (suc address) length (λ a p q. h a (omega arith) (omega arith)),
)

-- A buffer is accepted exactly when it is no longer than allowed and lies within the region; a buffer
-- whose end does not fit 64 bits lies within no region.
pub user_buffer_within_iff :
    (start stop address length maximum : ℕ)
    → stop ≤ u64_max
    → (user_buffer_within start stop address length maximum ≡ true)
      ↔ ((length ≤ maximum) × ((start ≤ address) × (address + length ≤ stop)))
unfolding user_buffer_within
user_buffer_within_iff start stop address length maximum h =
    elim (Bool-cases (leb (address + length) u64_max)) [
      | inl e ↦ (
        (λ w. let v = simp e at w in (ground arith, (ground arith, ground arith))),
        λ w. let (p, (q, r)) = w in simp e (ground arith),
      )
      | inr e ↦ (
        (λ w. let v = simp e at w in absurd (ground arith)),
        λ w. let (p, (q, r)) = w in absurd (ground arith),
      )
    ]

handle_log-AgreeOn :
    (resume : ℕ) (m n : ℕ → ℕ) (probe : Probe)
    → probe.state.code_end ≤ u64_max
    → AgreeOn probe.state.code_start probe.state.code_end m n
    → handle_log resume m probe ≡ handle_log resume n probe
unfolding handle_log
handle_log-AgreeOn resume m n probe fits agree =
    let s = probe.state in
    let address = probe.frame.rdi in
    let length = probe.frame.rsi in
    elim (Bool-cases
      (user_buffer_within s.code_start s.code_end address length max_user_log_bytes)) [
        | inr e ↦ simp e
        | inl e ↦
            let (within, _) =
              user_buffer_within_iff s.code_start s.code_end address length max_user_log_bytes
                fits in
            let (short, (low, high)) = within e in
            let same =
              from_raw_parts-AgreeOn m n address length
                (λ a p q. agree a (omega arith) (omega arith)) in
            simp (e, same)
      ]

-- Whatever the probe process puts in its registers, what the trap handler does depends only on the
-- bytes of the process's own code region: two memories that agree there give the same result.
pub handle_user_trap-AgreeOn :
    (resume fault_address : ℕ) (m n : ℕ → ℕ) (probe : Probe)
    → probe.state.code_end ≤ u64_max
    → AgreeOn probe.state.code_start probe.state.code_end m n
    → handle_user_trap resume m fault_address probe ≡ handle_user_trap resume n fault_address probe
unfolding handle_user_trap handle_syscall terminate_user_process
handle_user_trap-AgreeOn resume fault_address m n probe fits agree =
    let count = saturating_add probe.state.syscall_count 1 in
    simp (
      handle_log-AgreeOn resume m n
        (record probe { state = record probe.state { syscall_count = count } }) fits agree)
