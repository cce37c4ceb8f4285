-- ===== src/Input/Poll.antt =====
-- The polling loop of kernel/src/input.rs: calls of `poll_event` separate the bytes of the keyboard
-- from those of the mouse, however they are interleaved.
use codex_os.Prelude.{
  ℕ, zero, suc, ◌<◌, ◌≡◌, refl, ap, List, [], ◌∷◌, true, false, Option, none, some, arith, length,
  Bool-cases, Option-cases, inl, inr, if◌then◌else◌,
}
use codex_os.Input.{
  DesktopInput, PointerSample, Ps2Event, keyboard, pointer, Ps2InputDevices, Reading, output_full,
  auxiliary_data, poll_event, feed_key, feed_mouse, poll_turn, turn_of, go_on, emit,
}
use mathlib.Core.Option.{map}
use codex_os.Input.Keyboard
use codex_os.Input.Mouse

-- The events of at most so many calls, up to the first that finds none.
unfoldable pub poll_all : ℕ → Ps2InputDevices → List Reading → List Ps2Event
poll_all zero devices readings = []
poll_all (suc calls) devices readings =
    let (event, (next, rest)) = poll_event devices readings in
    elim event [ none ↦ [] | some e ↦ e ∷ poll_all calls next rest ]

abbrev pub typed : List Ps2Event → List DesktopInput
typed [] = []
typed (keyboard input ∷ events) = input ∷ typed events
typed (pointer sample ∷ events) = typed events

abbrev pub pointed : List Ps2Event → List PointerSample
pointed [] = []
pointed (keyboard input ∷ events) = pointed events
pointed (pointer sample ∷ events) = sample ∷ pointed events

unfoldable pub key_bytes : List Reading → List ℕ
key_bytes [] = []
key_bytes (r ∷ rs) = if auxiliary_data r.status then key_bytes rs else r.data_byte ∷ key_bytes rs

unfoldable pub mouse_bytes : List Reading → List ℕ
mouse_bytes [] = []
mouse_bytes (r ∷ rs) =
    if auxiliary_data r.status then r.data_byte ∷ mouse_bytes rs else mouse_bytes rs

abbrev pub AreFull : List Reading → Type 0
AreFull [] = Unit
AreFull (r ∷ rs) = (output_full r.status ≡ true) × AreFull rs

abbrev pub Separated : ℕ → Ps2InputDevices → List Reading → Type 0
Separated calls d rs =
    (typed (poll_all calls d rs) ≡ (Keyboard.feed_all d.keyboard_decoder (key_bytes rs)).0)
    × (pointed (poll_all calls d rs) ≡ (
        if d.pointer_status.enabled
        then (Mouse.feed_all d.mouse_decoder (mouse_bytes rs)).0
        else []))

on_skip :
    (d e : Ps2InputDevices) (r : Reading) (rs : List Reading)
    → poll_turn d r ≡ go_on e
    → poll_event d (r ∷ rs) ≡ poll_event e rs
unfolding poll_event
on_skip d e r rs h = rw (poll_event, h)

on_take :
    (d e : Ps2InputDevices) (event : Ps2Event) (r : Reading) (rs : List Reading)
    → poll_turn d r ≡ emit event e
    → poll_event d (r ∷ rs) ≡ (some event, (e, rs))
unfolding poll_event
on_take d e event r rs h = rw (poll_event, h)

abbrev first_event : ℕ → Option Ps2Event × (Ps2InputDevices × List Reading) → List Ps2Event
first_event calls (event, (next, rest)) = elim event [
  | none ↦ []
  | some e ↦ e ∷ poll_all calls next rest
]

all_skip :
    (calls : ℕ) (d e : Ps2InputDevices) (rs ss : List Reading)
    → poll_event d rs ≡ poll_event e ss
    → poll_all (suc calls) d rs ≡ poll_all (suc calls) e ss
unfolding poll_all
all_skip calls d e rs ss h = ap (first_event calls) h

all_take :
    (calls : ℕ) (d e : Ps2InputDevices) (event : Ps2Event) (rs ss : List Reading)
    → poll_event d rs ≡ (some event, (e, ss))
    → poll_all (suc calls) d rs ≡ event ∷ poll_all calls e ss
unfolding poll_all
all_take calls d e event rs ss h = ap (first_event calls) h

module _ (d : Ps2InputDevices) (r : Reading) (rs : List Reading)
    (full : output_full r.status ≡ true) where
  abbrev after_key : Ps2InputDevices
  after_key = record d { keyboard_decoder = (feed_key d.keyboard_decoder r.data_byte).1 }

  abbrev after_mouse : Ps2InputDevices
  after_mouse = record d { mouse_decoder = (feed_mouse d.mouse_decoder r.data_byte).1 }

  key_turn-eq :
      auxiliary_data r.status ≡ false
      → poll_turn d r
        ≡ turn_of (map keyboard ((feed_key d.keyboard_decoder r.data_byte).0)) after_key
  unfolding poll_turn
  key_turn-eq aux = simp (full, aux)

  mouse_turn-eq :
      auxiliary_data r.status ≡ true
      → d.pointer_status.enabled ≡ true
      → poll_turn d r
        ≡ turn_of (map pointer ((feed_mouse d.mouse_decoder r.data_byte).0)) after_mouse
  unfolding poll_turn
  mouse_turn-eq aux on = simp (full, aux, on)

  off_turn-eq :
      auxiliary_data r.status ≡ true → d.pointer_status.enabled ≡ false → poll_turn d r ≡ go_on d
  unfolding poll_turn
  off_turn-eq aux off = simp (full, aux, off)

  skip_key :
      auxiliary_data r.status ≡ false
      → (feed_key d.keyboard_decoder r.data_byte).0 ≡ none
      → poll_event d (r ∷ rs) ≡ poll_event after_key rs
  skip_key aux e = on_skip d after_key r rs (rw (key_turn-eq aux, e))

  take_key :
      (i : DesktopInput)
      → auxiliary_data r.status ≡ false
      → (feed_key d.keyboard_decoder r.data_byte).0 ≡ some i
      → poll_event d (r ∷ rs) ≡ (some (keyboard i), (after_key, rs))
  take_key i aux e = on_take d after_key (keyboard i) r rs (rw (key_turn-eq aux, e))

  skip_disabled :
      auxiliary_data r.status ≡ true
      → d.pointer_status.enabled ≡ false
      → poll_event d (r ∷ rs) ≡ poll_event d rs
  skip_disabled aux off = on_skip d d r rs (off_turn-eq aux off)

  skip_mouse :
      auxiliary_data r.status ≡ true
      → d.pointer_status.enabled ≡ true
      → (feed_mouse d.mouse_decoder r.data_byte).0 ≡ none
      → poll_event d (r ∷ rs) ≡ poll_event after_mouse rs
  skip_mouse aux on e = on_skip d after_mouse r rs (rw (mouse_turn-eq aux on, e))

  take_mouse :
      (s : PointerSample)
      → auxiliary_data r.status ≡ true
      → d.pointer_status.enabled ≡ true
      → (feed_mouse d.mouse_decoder r.data_byte).0 ≡ some s
      → poll_event d (r ∷ rs) ≡ (some (pointer s), (after_mouse, rs))
  take_mouse s aux on e = on_take d after_mouse (pointer s) r rs (rw (mouse_turn-eq aux on, e))

  poll_key :
      (calls : ℕ)
      → auxiliary_data r.status ≡ false
      → length rs < calls
      → ((n : ℕ) (e : Ps2InputDevices) → length rs < n → Separated n e rs)
      → Separated (suc calls) d (r ∷ rs)
  unfolding Keyboard.feed_all key_bytes mouse_bytes
  poll_key calls aux h ih = elim (Option-cases ((feed_key d.keyboard_decoder r.data_byte).0)) [
    | inl e ↦
        let (p, q) = ih (suc calls) after_key (omega arith) in
        let step = all_skip calls d after_key (r ∷ rs) rs (skip_key aux e) in
        (simp (step, aux, e) p, simp (step, aux) q)
    | inr (i, e) ↦
        let (p, q) = ih calls after_key h in
        let step = all_take calls d after_key (keyboard i) (r ∷ rs) rs (take_key i aux e) in
        (simp (step, aux, e) (ap (λ t. i ∷ t) p), simp (step, aux) q)
  ]

  poll_mouse :
      (calls : ℕ)
      → auxiliary_data r.status ≡ true
      → length rs < calls
      → ((n : ℕ) (e : Ps2InputDevices) → length rs < n → Separated n e rs)
      → Separated (suc calls) d (r ∷ rs)
  unfolding Mouse.feed_all key_bytes mouse_bytes
  poll_mouse calls aux h ih = elim (Bool-cases (d.pointer_status.enabled)) [
    | inr off ↦
        let (p, q) = ih (suc calls) d (omega arith) in
        let step = all_skip calls d d (r ∷ rs) rs (skip_disabled aux off) in
        (simp (step, aux) p, simp (step, aux, off) (simp off at q))
    | inl on ↦ elim (Option-cases ((feed_mouse d.mouse_decoder r.data_byte).0)) [
      | inl e ↦
          let (p, q) = ih (suc calls) after_mouse (omega arith) in
          let step = all_skip calls d after_mouse (r ∷ rs) rs (skip_mouse aux on e) in
          (simp (step, aux) p, simp (step, aux, on, e) (simp on at q))
      | inr (s, e) ↦
          let (p, q) = ih calls after_mouse h in
          let step = all_take calls d after_mouse (pointer s) (r ∷ rs) rs (take_mouse s aux on e) in
          (simp (step, aux) p, simp (step, aux, on, e) (ap (λ t. s ∷ t) (simp on at q)))
    ]
  ]

empty : (calls : ℕ) (d : Ps2InputDevices) → Separated (suc calls) d []
unfolding poll_all poll_event key_bytes mouse_bytes Keyboard.feed_all Mouse.feed_all
empty calls d =
    (refl, elim (Bool-cases d.pointer_status.enabled) [ inl e ↦ simp e | inr e ↦ simp e ])

-- When every reading of the status says that a byte waits, more calls than readings give as keyboard
-- events exactly what the keyboard's decoder makes of its own bytes, and as pointer events what the
-- mouse's decoder makes of its own, or none when the mouse is off.
pub poll_all_separates :
    (calls : ℕ) (d : Ps2InputDevices) (rs : List Reading)
    → AreFull rs
    → length rs < calls
    → Separated calls d rs
poll_all_separates zero d rs full h = absurd (omega arith)
poll_all_separates (suc calls) d [] full h = empty calls d
poll_all_separates (suc calls) d (r ∷ rs) (full, fulls) h =
    let ih = λ (n : ℕ) (e : Ps2InputDevices) (less : length rs < n).
      poll_all_separates n e rs fulls less in
    elim (Bool-cases (auxiliary_data r.status)) [
      | inl aux ↦ poll_mouse d r rs full calls aux (omega arith) ih
      | inr aux ↦ poll_key d r rs full calls aux (omega arith) ih
    ]
