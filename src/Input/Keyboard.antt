-- ===== src/Input/Keyboard.antt =====
-- The keyboard decoder of kernel/src/input.rs against key events: which bytes a keyboard sends for an
-- event, and what a user means by it.
use codex_os.Prelude.{
  ℕ, ◌+◌, ◌<◌, ◌≡◌, ◌≢◌, refl, ◌==◌, List, [], ◌∷◌, ◌++◌, Bool, true, false, not, ◌&&◌, ◌||◌,
  Option, none, some, arith, bit_and, Bool-cases, if◌then◌else◌, all_below, all_below→test,
  and_left, and_right, ==→eq, not-true, eq_false, inl, inr,
}
use codex_os.Input.{DesktopInput, Ps2Set1Decoder, feed_key}
use codex_os.Input.Layout.{arrow, extended_key-arrow, plain_key-pressed, pressed}

pub data KeyEvent : Type 0 where
  press release extended_press extended_release : ℕ → KeyEvent

-- What the keyboard sends in scan code set 1.
abbrev pub scancodes : KeyEvent → List ℕ
scancodes (press code) = code ∷ []
scancodes (release code) = (code + 0x80) ∷ []
scancodes (extended_press code) = 0xe0 ∷ code ∷ []
scancodes (extended_release code) = 0xe0 ∷ (code + 0x80) ∷ []

-- A release of the key 0x60 would be the byte of the prefix.
abbrev pub IsKey : KeyEvent → Type 0
IsKey (press code) = code < 0x80
IsKey (release code) = (code < 0x80) × (code ≢ 0x60)
IsKey (extended_press code) = code < 0x80
IsKey (extended_release code) = (code < 0x80) × (code ≢ 0x60)

abbrev pub AreKeys : List KeyEvent → Type 0
AreKeys [] = Unit
AreKeys (event ∷ events) = IsKey event × AreKeys events

-- The modifiers that are held.
pub record Modifiers : Type 0 where
  pub left : Bool
  pub right : Bool
  pub caps : Bool

abbrev pub decoder_of : Modifiers → Ps2Set1Decoder
decoder_of m = record {
  extended = false;
  left_shift = m.left;
  right_shift = m.right;
  caps_lock = m.caps;
}

-- What an event means: the two shift keys and caps lock change the modifiers, the other keys have the
-- meaning that the layout gives them.
abbrev pub meaning : Modifiers → KeyEvent → Option DesktopInput × Modifiers
meaning m (press code) =
    if code == 0x2a
    then (none, record m { left = true })
    else if code == 0x36
    then (none, record m { right = true })
    else if code == 0x3a
    then (none, record m { caps = not m.caps })
    else (pressed (m.left || m.right) m.caps code, m)
meaning m (release code) =
    if code == 0x2a
    then (none, record m { left = false })
    else if code == 0x36
    then (none, record m { right = false })
    else (none, m)
meaning m (extended_press code) = (arrow code, m)
meaning m (extended_release code) = (none, m)

abbrev pub keep {ℓ} : {A : Type ℓ} → Option A → List A → List A
keep none xs = xs
keep (some x) xs = x ∷ xs

unfoldable pub meanings : Modifiers → List KeyEvent → List DesktopInput × Modifiers
meanings m [] = ([], m)
meanings m (event ∷ events) =
    let (input, next) = meaning m event in
    let (inputs, last) = meanings next events in (keep input inputs, last)

-- The inputs that a stream of bytes gives, with the decoder after it.
unfoldable pub feed_all : Ps2Set1Decoder → List ℕ → List DesktopInput × Ps2Set1Decoder
feed_all d [] = ([], d)
feed_all d (byte ∷ bytes) =
    let (input, next) = feed_key d byte in
    let (inputs, last) = feed_all next bytes in (keep input inputs, last)

abbrev pub event_bytes : List KeyEvent → List ℕ
event_bytes [] = []
event_bytes (event ∷ events) = scancodes event ++ event_bytes events

-- The tests of `feed` on the byte of a press and on that of a release.
record ByteBits (c : ℕ) : Type 0 where
  low_bit : (bit_and c 0x80 == 0) ≡ true
  low_code : bit_and c 0x7f ≡ c
  high_bit : (bit_and (c + 0x80) 0x80 == 0) ≡ false
  high_code : bit_and (c + 0x80) 0x7f ≡ c

byte_bits : ℕ → Bool
byte_bits c =
    bit_and c 0x80 == 0
    && (bit_and c 0x7f == c && (not (bit_and (c + 0x80) 0x80 == 0) && bit_and (c + 0x80) 0x7f == c))

all-byte_bits : all_below 128 byte_bits ≡ true
unfolding byte_bits
all-byte_bits = refl

low-ByteBits : (c : ℕ) → c < 128 → ByteBits c
unfolding byte_bits
low-ByteBits c h =
    let t : byte_bits c ≡ true = all_below→test 128 byte_bits c all-byte_bits h in
    let t1 = and_right (bit_and c 0x80 == 0) _ t in
    let t2 = and_right (bit_and c 0x7f == c) _ t1 in
    record {
      low_bit = and_left (bit_and c 0x80 == 0) _ t;
      low_code = ==→eq (bit_and c 0x7f) c (and_left (bit_and c 0x7f == c) _ t1);
      high_bit =
          not-true (bit_and (c + 0x80) 0x80 == 0)
            (and_left (not (bit_and (c + 0x80) 0x80 == 0)) _ t2);
      high_code =
          ==→eq (bit_and (c + 0x80) 0x7f) c (and_right (not (bit_and (c + 0x80) 0x80 == 0)) _ t2);
    }

feed_press :
    (m : Modifiers) (c : ℕ)
    → c < 0x80
    → feed_key (decoder_of m) c ≡ ((meaning m (press c)).0, decoder_of ((meaning m (press c)).1))
unfolding feed_key
feed_press m c h =
    let b = low-ByteBits c h in
    let prefix = eq_false c 0xe0 (omega arith) in
    elim (Bool-cases (c == 0x2a)) [
      | inl e ↦ simp (prefix, b.low_bit, b.low_code, e)
      | inr e ↦ elim (Bool-cases (c == 0x36)) [
        | inl f ↦ simp (prefix, b.low_bit, b.low_code, e, f)
        | inr f ↦ elim (Bool-cases (c == 0x3a)) [
          | inl g ↦ simp (prefix, b.low_bit, b.low_code, e, f, g)
          | inr g ↦
              simp (
                prefix,
                b.low_bit,
                b.low_code,
                e,
                f,
                g,
                plain_key-pressed m.left m.right m.caps c h,
              )
        ]
      ]
    ]

feed_release :
    (m : Modifiers) (c : ℕ)
    → c < 0x80
    → c ≢ 0x60
    → feed_key (decoder_of m) (c + 0x80)
      ≡ ((meaning m (release c)).0, decoder_of ((meaning m (release c)).1))
unfolding feed_key
feed_release m c h n =
    let b = low-ByteBits c h in
    let prefix = eq_false (c + 0x80) 0xe0 (omega arith) in
    elim (Bool-cases (c == 0x2a)) [
      | inl e ↦ simp (prefix, b.high_bit, b.high_code, e)
      | inr e ↦ elim (Bool-cases (c == 0x36)) [
        | inl f ↦ simp (prefix, b.high_bit, b.high_code, e, f)
        | inr f ↦ elim (Bool-cases (c == 0x3a)) [
          | inl g ↦ simp (prefix, b.high_bit, b.high_code, e, f, g)
          | inr g ↦ simp (prefix, b.high_bit, b.high_code, e, f, g)
        ]
      ]
    ]

abbrev prefixed : Modifiers → Ps2Set1Decoder
prefixed m = record (decoder_of m) { extended = true }

feed_extended_press :
    (m : Modifiers) (c : ℕ) → c < 0x80 → feed_key (prefixed m) c ≡ (arrow c, decoder_of m)
unfolding feed_key
feed_extended_press m c h =
    let b = low-ByteBits c h in
    let prefix = eq_false c 0xe0 (omega arith) in
    simp (prefix, b.low_bit, b.low_code, extended_key-arrow c h)

feed_extended_release :
    (m : Modifiers) (c : ℕ)
    → c < 0x80
    → c ≢ 0x60
    → feed_key (prefixed m) (c + 0x80) ≡ (none, decoder_of m)
unfolding feed_key
feed_extended_release m c h n =
    let b = low-ByteBits c h in
    let prefix = eq_false (c + 0x80) 0xe0 (omega arith) in simp (prefix, b.high_bit)

-- For every sequence of key events, the decoder with no prefix pending gives for the bytes of the
-- events the inputs that the events mean on a US keyboard, in order, and ends with the modifiers they
-- leave. The meaning of a key is what the rows of the keyboard show at its place, and an arrow is what
-- the block of arrows has there; shift picks the upper of the two characters, and caps lock turns that
-- around on the letters.
pub feed_all-meanings :
    (m : Modifiers) (events : List KeyEvent)
    → AreKeys events
    → feed_all (decoder_of m) (event_bytes events)
      ≡ ((meanings m events).0, decoder_of ((meanings m events).1))
unfolding feed_all meanings feed_key
feed_all-meanings m [] ks = refl
feed_all-meanings m (press c ∷ events) (k, ks) =
    simp (feed_press m c k, feed_all-meanings ((meaning m (press c)).1) events ks)
feed_all-meanings m (release c ∷ events) ((k, n), ks) =
    simp (feed_release m c k n, feed_all-meanings ((meaning m (release c)).1) events ks)
feed_all-meanings m (extended_press c ∷ events) (k, ks) =
    simp (feed_extended_press m c k, feed_all-meanings m events ks)
feed_all-meanings m (extended_release c ∷ events) ((k, n), ks) =
    simp (feed_extended_release m c k n, feed_all-meanings m events ks)
