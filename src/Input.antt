-- ===== src/Input.antt =====
-- kernel/src/input.rs: the PS/2 keyboard and mouse decoders and the loops that poll the controller.
-- A `char` is its code point. The bytes that the ports give are a list of readings, the status first;
-- past its end the controller has no output.
pub mod Mouse
pub mod Layout
pub mod Keyboard
pub mod Poll
pub mod Controller
use codex_os.Prelude.{
  ℕ, suc, ◌+◌, ◌-◌, ◌==◌, ltb, leb, List, [], ◌∷◌, Bool, true, false, not, ◌&&◌, ◌||◌, Option, none,
  some, bit_and, if◌then◌else◌, get_or, set, bool_ne,
}
use codex_os.Prelude.Integers.{ℤ, pos, neg, as_i8}
use mathlib.Core.Option.{map}

-- kernel/src/desktop.rs.
pub data DesktopInput : Type 0 where
  move_left move_right move_up move_down cycle_focus exit backspace submit : DesktopInput
  character : ℕ → DesktopInput

-- kernel/src/desktop.rs.
pub record PointerSample : Type 0 where
  pub delta_x : ℤ
  pub delta_y : ℤ
  pub left_button : Bool
  pub right_button : Bool

pub data Ps2Event : Type 0 where
  keyboard : DesktopInput → Ps2Event
  pointer : PointerSample → Ps2Event

pub record Ps2PointerStatus : Type 0 where
  pub enabled : Bool
  pub device_id : Option ℕ
  pub acknowledgements : ℕ

pub record Ps2Set1Decoder : Type 0 where
  pub extended : Bool
  pub left_shift : Bool
  pub right_shift : Bool
  pub caps_lock : Bool

pub record Ps2MouseDecoder : Type 0 where
  pub packet : List ℕ
  pub packet_index : ℕ

pub record Ps2InputDevices : Type 0 where
  pub keyboard_decoder : Ps2Set1Decoder
  pub mouse_decoder : Ps2MouseDecoder
  pub pointer_status : Ps2PointerStatus

abbrev pub lookup {ℓ} : {A : Type ℓ} → ℕ → List (ℕ × A) → Option A
lookup code [] = none
lookup code ((key, value) ∷ table) = if code == key then some value else lookup code table

-- The letter keys.
abbrev pub letters : List (ℕ × ℕ)
letters =
    (0x10, 0x71)
    ∷ (0x11, 0x77)
    ∷ (0x12, 0x65)
    ∷ (0x13, 0x72)
    ∷ (0x14, 0x74)
    ∷ (0x15, 0x79)
    ∷ (0x16, 0x75)
    ∷ (0x17, 0x69)
    ∷ (0x18, 0x6f)
    ∷ (0x19, 0x70)
    ∷ (0x1e, 0x61)
    ∷ (0x1f, 0x73)
    ∷ (0x20, 0x64)
    ∷ (0x21, 0x66)
    ∷ (0x22, 0x67)
    ∷ (0x23, 0x68)
    ∷ (0x24, 0x6a)
    ∷ (0x25, 0x6b)
    ∷ (0x26, 0x6c)
    ∷ (0x2c, 0x7a)
    ∷ (0x2d, 0x78)
    ∷ (0x2e, 0x63)
    ∷ (0x2f, 0x76)
    ∷ (0x30, 0x62)
    ∷ (0x31, 0x6e)
    ∷ (0x32, 0x6d)
    ∷ []

-- The other printable keys, without and with shift.
abbrev pub pairs : List (ℕ × (ℕ × ℕ))
pairs =
    (0x02, (0x31, 0x21))
    ∷ (0x03, (0x32, 0x40))
    ∷ (0x04, (0x33, 0x23))
    ∷ (0x05, (0x34, 0x24))
    ∷ (0x06, (0x35, 0x25))
    ∷ (0x07, (0x36, 0x5e))
    ∷ (0x08, (0x37, 0x26))
    ∷ (0x09, (0x38, 0x2a))
    ∷ (0x0a, (0x39, 0x28))
    ∷ (0x0b, (0x30, 0x29))
    ∷ (0x0c, (0x2d, 0x5f))
    ∷ (0x0d, (0x3d, 0x2b))
    ∷ (0x1a, (0x5b, 0x7b))
    ∷ (0x1b, (0x5d, 0x7d))
    ∷ (0x27, (0x3b, 0x3a))
    ∷ (0x28, (0x27, 0x22))
    ∷ (0x29, (0x60, 0x7e))
    ∷ (0x2b, (0x5c, 0x7c))
    ∷ (0x33, (0x2c, 0x3c))
    ∷ (0x34, (0x2e, 0x3e))
    ∷ (0x35, (0x2f, 0x3f))
    ∷ (0x39, (0x20, 0x20))
    ∷ []

-- `char::to_ascii_uppercase`.
abbrev pub to_ascii_uppercase : ℕ → ℕ
to_ascii_uppercase c = if leb 0x61 c && leb c 0x7a then c - 32 else c

unfoldable pub map_printable : ℕ → Bool → Bool → Option ℕ
map_printable code shift caps_lock = elim (lookup code letters) [
  | some letter ↦ some (if bool_ne shift caps_lock then to_ascii_uppercase letter else letter)
  | none ↦ map (λ (pair : ℕ × ℕ). if shift then pair.1 else pair.0) (lookup code pairs)
]

abbrev pub new_keyboard : Ps2Set1Decoder
new_keyboard = record {
  extended = false;
  left_shift = false;
  right_shift = false;
  caps_lock = false;
}

-- A key after the 0xE0 prefix.
abbrev pub extended_key : ℕ → Option DesktopInput
extended_key code =
    if code == 0x48
    then some move_up
    else if code == 0x50
    then some move_down
    else if code == 0x4b
    then some move_left
    else if code == 0x4d
    then some move_right
    else none

-- The last `match` of `feed`.
unfoldable pub plain_key : ℕ → Ps2Set1Decoder → Option DesktopInput
plain_key code d =
    if code == 0x01
    then some exit
    else if code == 0x0e
    then some backspace
    else if code == 0x0f
    then some cycle_focus
    else if code == 0x1c
    then some submit
    else map character (map_printable code (d.left_shift || d.right_shift) d.caps_lock)

unfoldable pub feed_key : Ps2Set1Decoder → ℕ → Option DesktopInput × Ps2Set1Decoder
feed_key d scancode =
    let cleared = record d { extended = false } in
    let released = not (bit_and scancode 0x80 == 0) in
    let code = bit_and scancode 0x7f in
    if scancode == 0xe0
    then (none, record d { extended = true })
    else if d.extended
    then (if released then none else extended_key code, cleared)
    else if code == 0x2a
    then (none, record cleared { left_shift = not released })
    else if code == 0x36
    then (none, record cleared { right_shift = not released })
    else if code == 0x3a && not released
    then (none, record cleared { caps_lock = not d.caps_lock })
    else if released
    then (none, cleared)
    else (plain_key code cleared, cleared)

abbrev pub new_mouse : Ps2MouseDecoder
new_mouse = record { packet = 0 ∷ 0 ∷ 0 ∷ []; packet_index = 0 }

unfoldable pub sign_extend_mouse_delta : ℕ → Bool → ℤ
sign_extend_mouse_delta byte negative = if negative then as_i8 byte else pos byte

abbrev pub bit_set : ℕ → ℕ → Bool
bit_set byte mask = not (bit_and byte mask == 0)

-- What a whole packet means.
unfoldable pub sample_of : List ℕ → Option PointerSample
sample_of packet =
    let header = get_or packet 0 0 in
    if bit_set header 0xc0
    then none
    else some (record {
      delta_x = sign_extend_mouse_delta (get_or packet 1 0) (bit_set header 0x10);
      delta_y = neg (sign_extend_mouse_delta (get_or packet 2 0) (bit_set header 0x20));
      left_button = bit_set header 0x01;
      right_button = bit_set header 0x02;
    })

unfoldable pub feed_mouse : Ps2MouseDecoder → ℕ → Option PointerSample × Ps2MouseDecoder
feed_mouse d byte =
    let packet = set d.packet d.packet_index byte in
    let index = suc d.packet_index in
    if d.packet_index == 0 && bit_and byte 0x08 == 0
    then (none, d)
    else if ltb index 3
    then (none, record { packet = packet; packet_index = index })
    else (sample_of packet, record { packet = packet; packet_index = 0 })

-- One reading of the status port and of the data port.
pub record Reading : Type 0 where
  pub status : ℕ
  pub data_byte : ℕ

unfoldable pub output_full : ℕ → Bool
output_full status = bit_set status 0x01

unfoldable pub auxiliary_data : ℕ → Bool
auxiliary_data status = bit_set status 0x20

-- What one turn of a polling loop does: return nothing, go on, or return an event.
pub data Turn {ℓ κ} (S : Type ℓ) (E : Type κ) : Type (ℓ ⊔ κ) where
  stop : Turn S E
  go_on : S → Turn S E
  emit : E → S → Turn S E

abbrev pub turn_of {ℓ κ} : {S : Type ℓ} {E : Type κ} → Option E → S → Turn S E
turn_of none s = go_on s
turn_of (some e) s = emit e s

-- The body of the loop of `Ps2InputDevices::poll_event`.
unfoldable pub poll_turn : Ps2InputDevices → Reading → Turn Ps2InputDevices Ps2Event
poll_turn devices reading =
    let (sample, mouse) = feed_mouse devices.mouse_decoder reading.data_byte in
    let (input, keys) = feed_key devices.keyboard_decoder reading.data_byte in
    if not (output_full reading.status)
    then stop
    else if auxiliary_data reading.status
    then if devices.pointer_status.enabled
      then turn_of (map pointer sample) (record devices { mouse_decoder = mouse })
      else go_on devices
    else turn_of (map keyboard input) (record devices { keyboard_decoder = keys })

-- The loop: the event, the devices and what the controller still holds.
unfoldable pub poll_event :
    Ps2InputDevices → List Reading → Option Ps2Event × (Ps2InputDevices × List Reading)
poll_event devices [] = (none, (devices, []))
poll_event devices (reading ∷ readings) = elim (poll_turn devices reading) [
  | stop ↦ (none, (devices, readings))
  | go_on next ↦ poll_event next readings
  | emit event next ↦ (some event, (next, readings))
]

-- The body of the loop of `Ps2Keyboard::poll_input`, which drops the mouse's bytes.
unfoldable pub key_turn : Ps2Set1Decoder → Reading → Turn Ps2Set1Decoder DesktopInput
key_turn decoder reading =
    let (input, keys) = feed_key decoder reading.data_byte in
    if not (output_full reading.status)
    then stop
    else if auxiliary_data reading.status
    then go_on decoder
    else turn_of input keys

unfoldable pub poll_input :
    Ps2Set1Decoder → List Reading → Option DesktopInput × (Ps2Set1Decoder × List Reading)
poll_input decoder [] = (none, (decoder, []))
poll_input decoder (reading ∷ readings) = elim (key_turn decoder reading) [
  | stop ↦ (none, (decoder, readings))
  | go_on next ↦ poll_input next readings
  | emit input next ↦ (some input, (next, readings))
]
