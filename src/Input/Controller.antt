-- ===== src/Input/Controller.antt =====
-- The start of the mouse in kernel/src/input.rs. The machine behind the ports is a parameter: its
-- state, and what reading and writing a port do to it. A function that talks to the ports returns its
-- result with the new state.
use codex_os.Prelude.{
  ℕ, zero, suc, ◌+◌, ◌≤◌, ◌≡◌, refl, ◌==◌, Bool, true, false, Option, none, some, arith, bit_and,
  ◌≢◌,
}
use codex_os.Input.{Ps2PointerStatus, bit_set, output_full, auxiliary_data}

abbrev pub ps2_data : ℕ
ps2_data = 0x60

abbrev pub ps2_status : ℕ
ps2_status = 0x64

abbrev pub ps2_wait_limit : ℕ
ps2_wait_limit = 100_000

abbrev pub ps2_drain_limit : ℕ
ps2_drain_limit = 64

-- `acknowledgements += 1` where a command was acknowledged.
abbrev count : Bool → ℕ
count true = 1
count false = 0

-- The ports of a machine with states `W`.
pub record Ports {ℓ} (W : Type ℓ) : Type ℓ where
  pub inb : ℕ → W → ℕ × W
  pub outb : ℕ → ℕ → W → W

module _ {ℓ} {W : Type ℓ} (ports : Ports W) where
  unfoldable pub wait_until_input_clear : ℕ → W → Bool × W
  wait_until_input_clear zero w = (false, w)
  wait_until_input_clear (suc n) w =
      let (status, w1) = ports.inb ps2_status w in
      elim (bit_set status 0x02) [ false ↦ (true, w1) | true ↦ wait_until_input_clear n w1 ]

  unfoldable pub write_controller_command : ℕ → W → Bool × W
  write_controller_command command w =
      let (clear, w1) = wait_until_input_clear ps2_wait_limit w in
      elim clear [ false ↦ (false, w1) | true ↦ (true, ports.outb ps2_status command w1) ]

  unfoldable pub write_data_byte : ℕ → W → Bool × W
  write_data_byte byte w =
      let (clear, w1) = wait_until_input_clear ps2_wait_limit w in
      elim clear [ false ↦ (false, w1) | true ↦ (true, ports.outb ps2_data byte w1) ]

  unfoldable pub read_any_data_byte : ℕ → W → Option ℕ × W
  read_any_data_byte zero w = (none, w)
  read_any_data_byte (suc n) w =
      let (status, w1) = ports.inb ps2_status w in
      let (byte, w2) = ports.inb ps2_data w1 in
      elim (output_full status) [ true ↦ (some byte, w2) | false ↦ read_any_data_byte n w1 ]

  unfoldable pub read_auxiliary_data_byte : ℕ → W → Option ℕ × W
  read_auxiliary_data_byte zero w = (none, w)
  read_auxiliary_data_byte (suc n) w =
      let (status, w1) = ports.inb ps2_status w in
      let (byte, w2) = ports.inb ps2_data w1 in
      elim (output_full status) [
        | false ↦ read_auxiliary_data_byte n w1
        | true ↦ elim (auxiliary_data status) [
          | true ↦ (some byte, w2)
          | false ↦ read_auxiliary_data_byte n w2
        ]
      ]

  unfoldable pub drain_ps2_output : ℕ → W → W
  drain_ps2_output zero w = w
  drain_ps2_output (suc n) w =
      let (status, w1) = ports.inb ps2_status w in
      let (byte, w2) = ports.inb ps2_data w1 in
      elim (output_full status) [ false ↦ w1 | true ↦ drain_ps2_output n w2 ]

  unfoldable pub read_controller_config : W → Option ℕ × W
  read_controller_config w =
      let (sent, w1) = write_controller_command 0x20 w in
      elim sent [ false ↦ (none, w1) | true ↦ read_any_data_byte ps2_wait_limit w1 ]

  unfoldable pub write_controller_config : ℕ → W → Bool × W
  write_controller_config config w =
      let (sent, w1) = write_controller_command 0x60 w in
      elim sent [ false ↦ (false, w1) | true ↦ write_data_byte config w1 ]

  abbrev is_acknowledged : Option ℕ → Bool
  is_acknowledged none = false
  is_acknowledged (some byte) = byte == 0xfa

  unfoldable pub send_mouse_command : ℕ → W → Bool × W
  send_mouse_command command w =
      let (sent, w1) = write_controller_command 0xd4 w in
      elim sent [
        | false ↦ (false, w1)
        | true ↦
            let (written, w2) = write_data_byte command w1 in
            elim written [
              | false ↦ (false, w2)
              | true ↦
                  let (reply, w3) = read_auxiliary_data_byte ps2_wait_limit w2 in
                  (is_acknowledged reply, w3)
            ]
      ]

  -- The mouse's clock is enabled if the configuration can be read; a failed write is ignored.
  unfoldable pub enable_auxiliary_clock : W → W
  enable_auxiliary_clock w =
      let (config, w1) = read_controller_config w in
      elim config [ none ↦ w1 | some c ↦ (write_controller_config (bit_and c 0xdf) w1).1 ]

  -- The device's id, read when the command was acknowledged.
  unfoldable pub read_device_id : Bool → W → Option ℕ × W
  read_device_id false w = (none, w)
  read_device_id true w = read_auxiliary_data_byte ps2_wait_limit w

  -- The commands after the defaults were acknowledged: identify, then stream.
  unfoldable pub identify_and_stream : W → Ps2PointerStatus × W
  identify_and_stream w =
      let (identified, w1) = send_mouse_command 0xf2 w in
      let (device, w2) = read_device_id identified w1 in
      let (streaming, w3) = send_mouse_command 0xf4 w2 in
      (
        record {
          enabled = streaming;
          device_id = device;
          acknowledgements = 1 + count identified + count streaming;
        },
        w3,
      )

  abbrev pub disabled_status : Ps2PointerStatus
  disabled_status = record { enabled = false; device_id = none; acknowledgements = 0 }

  -- The rest once the defaults were sent, and once the auxiliary device was enabled.
  unfoldable pub after_defaults : Bool → W → Ps2PointerStatus × W
  after_defaults false w = (disabled_status, w)
  after_defaults true w = identify_and_stream w

  unfoldable pub after_enable : Bool → W → Ps2PointerStatus × W
  after_enable false w = (disabled_status, w)
  after_enable true w =
      let (reset, w1) = send_mouse_command 0xf6 (enable_auxiliary_clock w) in
      after_defaults reset w1

  unfoldable pub initialize_pointer_device : W → Ps2PointerStatus × W
  initialize_pointer_device w =
      let (sent, w1) = write_controller_command 0xa8 (drain_ps2_output ps2_drain_limit w) in
      after_enable sent w1

  -- A status that `initialize_pointer_device` can report.
  pub record IsConsistent (status : Ps2PointerStatus) : Type 0 where
    pub at_most_three : status.acknowledgements ≤ 3
    pub enabled_by_two : status.enabled ≡ true → 2 ≤ status.acknowledgements
    pub three_enables : status.acknowledgements ≡ 3 → status.enabled ≡ true
    pub identified_by_two : status.device_id ≢ none → 2 ≤ status.acknowledgements

  count-IsConsistent :
      (identified streaming : Bool) (device : Option ℕ)
      → (identified ≡ false → device ≡ none)
      → IsConsistent (record {
        enabled = streaming;
        device_id = device;
        acknowledgements = 1 + count identified + count streaming;
      })
  count-IsConsistent false false device h = record {
    at_most_three = omega arith;
    enabled_by_two = λ e. cc;
    three_enables = λ e. absurd (omega arith);
    identified_by_two = λ n. absurd (n (h refl));
  }
  count-IsConsistent false true device h = record {
    at_most_three = omega arith;
    enabled_by_two = λ e. omega arith;
    three_enables = λ e. refl;
    identified_by_two = λ n. omega arith;
  }
  count-IsConsistent true false device h = record {
    at_most_three = omega arith;
    enabled_by_two = λ e. cc;
    three_enables = λ e. absurd (omega arith);
    identified_by_two = λ n. omega arith;
  }
  count-IsConsistent true true device h = record {
    at_most_three = omega arith;
    enabled_by_two = λ e. omega arith;
    three_enables = λ e. refl;
    identified_by_two = λ n. omega arith;
  }

  no_device_id :
      (identified : Bool) (w : W) → identified ≡ false → (read_device_id identified w).0 ≡ none
  unfolding read_device_id
  no_device_id false w e = refl
  no_device_id true w e = cc

  stream-IsConsistent : (w : W) → IsConsistent ((identify_and_stream w).0)
  unfolding identify_and_stream
  stream-IsConsistent w =
      let identified = send_mouse_command 0xf2 w in
      let device = read_device_id (identified.0) (identified.1) in
      count-IsConsistent (identified.0) ((send_mouse_command 0xf4 (device.1)).0) (device.0)
        (no_device_id (identified.0) (identified.1))

  disabled-IsConsistent : IsConsistent disabled_status
  disabled-IsConsistent = record {
    at_most_three = omega arith;
    enabled_by_two = λ e. cc;
    three_enables = λ e. absurd (omega arith);
    identified_by_two = λ n. absurd (n refl);
  }

  defaults-IsConsistent : (reset : Bool) (w : W) → IsConsistent ((after_defaults reset w).0)
  unfolding after_defaults
  defaults-IsConsistent false w = disabled-IsConsistent
  defaults-IsConsistent true w = stream-IsConsistent w

  enable-IsConsistent : (sent : Bool) (w : W) → IsConsistent ((after_enable sent w).0)
  unfolding after_enable
  enable-IsConsistent false w = disabled-IsConsistent
  enable-IsConsistent true w =
      let reset = send_mouse_command 0xf6 (enable_auxiliary_clock w) in
      defaults-IsConsistent (reset.0) (reset.1)

  -- Whatever the ports answer, the status of the started mouse counts at most three acknowledgements;
  -- it is enabled or names a device only with two of them, and is enabled when there are three.
  pub initialize-IsConsistent : (w : W) → IsConsistent ((initialize_pointer_device w).0)
  unfolding initialize_pointer_device
  initialize-IsConsistent w =
      let sent = write_controller_command 0xa8 (drain_ps2_output ps2_drain_limit w) in
      enable-IsConsistent (sent.0) (sent.1)
