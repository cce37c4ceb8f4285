-- ===== src/Tests/Devices.antt =====
-- Streams of bytes for the decoders of kernel/src/input.rs.
use codex_os.Prelude.{
  ℕ, suc, ◌≤◌, ◌≡◌, ◌↔◌, ◌⊎◌, ◌==◌, if◌then◌else◌, none, refl, List, [], ◌∷◌, ◌++◌, true, false,
  arith,
}
use codex_os.Input.{
  Ps2InputDevices, Reading, new_mouse, new_keyboard, output_full, sign_extend_mouse_delta,
}
use codex_os.Input.Mouse
use codex_os.Input.Keyboard
use codex_os.Input.Poll
use codex_os.Input.Controller

abbrev packets : List Mouse.Packet
packets = record { header = 0x09; x = 5; y = 2 } ∷ record { header = 0x3a; x = 0xfc; y = 0xfd } ∷ []

feed_all_resynchronizes_example :
    (Mouse.feed_all (Mouse.between 0 0 0) ((0x01 ∷ 0x07 ∷ []) ++ Mouse.stream packets)).0
    ≡ Mouse.packet_samples packets
feed_all_resynchronizes_example =
    Mouse.feed_all_resynchronizes 0 0 0 (0x01 ∷ 0x07 ∷ []) packets (refl, (refl, tt))
      (refl, (refl, tt))

sign_extend_agrees_example :
    (sign_extend_mouse_delta 0x10 true ≡ Mouse.nine_bit_delta 0x10 true)
    ↔ ((true ≡ false) ⊎ (128 ≤ 0x10))
sign_extend_agrees_example = Mouse.sign_extend_agrees 0x10 true

abbrev no_modifiers : Keyboard.Modifiers
no_modifiers = record { left = false; right = false; caps = false }

-- Shift and A, then an arrow.
abbrev events : List Keyboard.KeyEvent
events =
    Keyboard.press 0x2a
    ∷ Keyboard.press 0x1e
    ∷ Keyboard.release 0x2a
    ∷ Keyboard.extended_press 0x48
    ∷ []

feed_all-meanings_example :
    Keyboard.feed_all (Keyboard.decoder_of no_modifiers) (Keyboard.event_bytes events) ≡ (
      (Keyboard.meanings no_modifiers events).0,
      Keyboard.decoder_of ((Keyboard.meanings no_modifiers events).1),
    )
feed_all-meanings_example =
    Keyboard.feed_all-meanings no_modifiers events
      (omega arith, (omega arith, ((omega arith, λ e. absurd (omega arith)), (omega arith, tt))))

abbrev devices : Ps2InputDevices
devices = record {
  keyboard_decoder = new_keyboard;
  mouse_decoder = new_mouse;
  pointer_status = record { enabled = true; device_id = none; acknowledgements = 3 };
}

-- A key between the bytes of a packet.
abbrev readings : List Reading
readings =
    record { status = 0x21; data_byte = 0x09 }
    ∷ record { status = 0x01; data_byte = 0x1e }
    ∷ record { status = 0x21; data_byte = 5 }
    ∷ record { status = 0x21; data_byte = 2 }
    ∷ []

readings-AreFull : Poll.AreFull readings
unfolding output_full
readings-AreFull = (refl, (refl, (refl, (refl, tt))))

poll_all_separates_example : Poll.Separated 5 devices readings
poll_all_separates_example =
    Poll.poll_all_separates 5 devices readings readings-AreFull (omega arith)

-- A controller that is always ready and answers with an acknowledgement.
abbrev ready_ports : Controller.Ports ℕ
ready_ports = record {
  inb = λ port w. (if port == 0x64 then (0x21, suc w) else (0xfa, suc w));
  outb = λ port byte w. suc w;
}

initialize-IsConsistent_example :
    Controller.IsConsistent ready_ports ((Controller.initialize_pointer_device ready_ports 0).0)
initialize-IsConsistent_example = Controller.initialize-IsConsistent ready_ports 0
