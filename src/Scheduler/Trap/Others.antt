-- ===== src/Scheduler/Trap/Others.antt =====
-- What a trap in kernel/src/scheduler.rs does to the processes that did not cause it.
use mathlib.Core.Option.{some-injective}
use codex_os.Prelude.{
  ℕ, zero, suc, ◌%◌, ◌≤◌, ◌≡◌, ◌⊎◌, inl, inr, refl, sym, ap, ◌∙◌, ◌==◌, List, [], ◌∷◌, not, ◌||◌,
  leb, some, arith, get_elem?, set, get_elem?-set_ne, Bool-cases,
}
use codex_os.Scheduler.{
  Machine, Process, ProcessState, Cpu, runnable, sleeping, exited, faulted, wake, wake_sleepers,
  switch_root, set_privilege_stack,
}
use codex_os.Scheduler.Trap.{update_process}

-- A process as it was, but for the count of its dispatches, and perhaps woken when it was due.
pub record IsLeft (ticks : ℕ) (before after : Process) : Type 0 where
  pub same : after ≡ (record before { state = after.state; dispatches = after.dispatches })
  pub state :
      (after.state ≡ before.state)
      ⊎ ((wake_tick : ℕ) × ((before.state ≡ sleeping wake_tick)
            × ((after.state ≡ runnable) × (wake_tick ≤ ticks))))

wake_cases :
    (ticks : ℕ) (s : ProcessState)
    → (wake ticks s ≡ s)
      ⊎ ((wake_tick : ℕ) × ((s ≡ sleeping wake_tick)
            × ((wake ticks s ≡ runnable) × (wake_tick ≤ ticks))))
wake_cases ticks runnable = inl refl
wake_cases ticks (exited status) = inl refl
wake_cases ticks (faulted vector address error) = inl refl
wake_cases ticks (sleeping w) = elim (Bool-cases (leb w ticks)) [
  | inl due ↦ inr (w, (refl, (rw due refl, ground arith)))
  | inr later ↦ inl (rw later refl)
]

abbrev woken : ℕ → Process → Process
woken ticks p = record p { state = wake ticks p.state }

wake-IsLeft :
    (ticks later : ℕ) (before after : Process)
    → ticks ≤ later
    → IsLeft ticks before after
    → IsLeft later before (woken later after)
wake-IsLeft ticks later before after le h = record {
  same = ap (λ (q : Process). record q { state = wake later after.state }) h.same;
  state = elim h.state [
    | inl kept ↦ elim (wake_cases later after.state) [
      | inl still ↦ inl (still ∙ kept)
      | inr (w, (slept, (up, due))) ↦ inr (w, (sym kept ∙ slept, (up, due)))
    ]
    | inr (w, (slept, (up, due))) ↦ inr (w, (slept, (ap (wake later) up, omega arith)))
  ];
}

get_elem?-wake_sleepers :
    (ticks i : ℕ) (ps : List Process) (q : Process)
    → get_elem? ps i ≡ some q
    → get_elem? (wake_sleepers ticks ps) i ≡ some (woken ticks q)
unfolding wake_sleepers
get_elem?-wake_sleepers ticks i [] q h = absurd cc
get_elem?-wake_sleepers ticks zero (p ∷ ps) q h =
    ap (λ r. some (woken ticks r)) (some-injective p q h)
get_elem?-wake_sleepers ticks (suc i) (p ∷ ps) q h = get_elem?-wake_sleepers ticks i ps q h

pub get_elem?-update_other :
    (ps : List Process) (i j : ℕ) (f : Process → Process)
    → ¬ (i ≡ j)
    → get_elem? (update_process i f ps) j ≡ get_elem? ps j
get_elem?-update_other [] i j f apart = refl
get_elem?-update_other (q ∷ ps) zero zero f apart = absurd (apart refl)
get_elem?-update_other (q ∷ ps) zero (suc j) f apart = refl
get_elem?-update_other (q ∷ ps) (suc i) zero f apart = refl
get_elem?-update_other (q ∷ ps) (suc i) (suc j) f apart =
    get_elem?-update_other ps i j f (λ e. apart (ap suc e))

pub switch_root-ticks : (root : ℕ) (m : Machine) → ((switch_root root m).1).ticks ≡ m.ticks
unfolding switch_root
switch_root-ticks root m = elim (Bool-cases (root % 4096 == 0)) [
  | inl e ↦ rw e refl
  | inr e ↦ rw e refl
]

pub set_privilege_stack-ticks :
    (top : ℕ) (m : Machine) → ((set_privilege_stack top m).1).ticks ≡ m.ticks
unfolding set_privilege_stack
set_privilege_stack-ticks top m = elim (Bool-cases (not m.gdt_loaded || top == 0)) [
  | inl e ↦ rw e refl
  | inr e ↦ rw e refl
]

-- The process at an index of a list is left as one was.
pub record LeavesAt (i ticks : ℕ) (before : Process) (ps : List Process) : Type 0 where
  pub process : Process
  pub is_there : get_elem? ps i ≡ some process
  pub left : IsLeft ticks before process

abbrev pub Leaves : ℕ → Process → Cpu → Type 0
Leaves i before cpu = LeavesAt i cpu.machine.ticks before cpu.scheduler.processes

pub wake_sleepers-LeavesAt :
    (i ticks later : ℕ) (before : Process) (ps : List Process)
    → ticks ≤ later
    → LeavesAt i ticks before ps
    → LeavesAt i later before (wake_sleepers later ps)
wake_sleepers-LeavesAt i ticks later before ps le h = record {
  process = woken later h.process;
  is_there = get_elem?-wake_sleepers later i ps h.process h.is_there;
  left = wake-IsLeft ticks later before h.process le h.left;
}

pub set_other-LeavesAt :
    (i ticks j : ℕ) (before q : Process) (ps : List Process)
    → ¬ (j ≡ i)
    → LeavesAt i ticks before ps
    → LeavesAt i ticks before (set ps j q)
set_other-LeavesAt i ticks j before q ps apart h = record {
  process = h.process;
  is_there = get_elem?-set_ne ps j i q apart ∙ h.is_there;
  left = h.left;
}
