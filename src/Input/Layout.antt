-- ===== src/Input/Layout.antt =====
-- The keys of a US keyboard in scan code set 1, row by row as they lie on it, for the keyboard decoder
-- of kernel/src/input.rs. Nothing here is taken from the decoder's own tables.
use codex_os.Prelude.{
  ℕ, ◌-◌, ◌<◌, ◌≡◌, refl, sym, ◌∙◌, ◌==◌, ltb, leb, List, [], ◌∷◌, Bool, true, false, not, ◌&&◌,
  ◌||◌, Option, none, some, if◌then◌else◌, get_or, length, all_below, all_below→test, and_left,
  and_right, ==→eq,
}
use codex_os.Input.{
  DesktopInput, Ps2Set1Decoder, extended_key, map_printable, plain_key, character, move_left,
  move_right, move_up, move_down, cycle_focus, exit, backspace, submit,
}

-- Neighbouring keys with neighbouring codes: the first code, and what the keys show without and with
-- shift.
record Row : Type 0 where
  first : ℕ
  plain : List ℕ
  shifted : List ℕ

-- 1234567890-= and !@#$%^&*()_+
abbrev digits : Row
digits = record {
  first = 2;
  plain = 49 ∷ 50 ∷ 51 ∷ 52 ∷ 53 ∷ 54 ∷ 55 ∷ 56 ∷ 57 ∷ 48 ∷ 45 ∷ 61 ∷ [];
  shifted = 33 ∷ 64 ∷ 35 ∷ 36 ∷ 37 ∷ 94 ∷ 38 ∷ 42 ∷ 40 ∷ 41 ∷ 95 ∷ 43 ∷ [];
}

-- qwertyuiop[] and QWERTYUIOP{}
abbrev upper_row : Row
upper_row = record {
  first = 16;
  plain = 113 ∷ 119 ∷ 101 ∷ 114 ∷ 116 ∷ 121 ∷ 117 ∷ 105 ∷ 111 ∷ 112 ∷ 91 ∷ 93 ∷ [];
  shifted = 81 ∷ 87 ∷ 69 ∷ 82 ∷ 84 ∷ 89 ∷ 85 ∷ 73 ∷ 79 ∷ 80 ∷ 123 ∷ 125 ∷ [];
}

-- asdfghjkl;'` and ASDFGHJKL:"~
abbrev home_row : Row
home_row = record {
  first = 30;
  plain = 97 ∷ 115 ∷ 100 ∷ 102 ∷ 103 ∷ 104 ∷ 106 ∷ 107 ∷ 108 ∷ 59 ∷ 39 ∷ 96 ∷ [];
  shifted = 65 ∷ 83 ∷ 68 ∷ 70 ∷ 71 ∷ 72 ∷ 74 ∷ 75 ∷ 76 ∷ 58 ∷ 34 ∷ 126 ∷ [];
}

-- \zxcvbnm,./ and |ZXCVBNM<>?
abbrev lower_row : Row
lower_row = record {
  first = 43;
  plain = 92 ∷ 122 ∷ 120 ∷ 99 ∷ 118 ∷ 98 ∷ 110 ∷ 109 ∷ 44 ∷ 46 ∷ 47 ∷ [];
  shifted = 124 ∷ 90 ∷ 88 ∷ 67 ∷ 86 ∷ 66 ∷ 78 ∷ 77 ∷ 60 ∷ 62 ∷ 63 ∷ [];
}

abbrev space_bar : Row
space_bar = record { first = 57; plain = 32 ∷ []; shifted = 32 ∷ [] }

-- What the key of a code shows in some rows.
abbrev shown_in : List Row → ℕ → Option (ℕ × ℕ)
shown_in [] code = none
shown_in (row ∷ rows) code =
    if leb row.first code && ltb (code - row.first) (length row.plain)
    then some (get_or row.plain (code - row.first) 0, get_or row.shifted (code - row.first) 0)
    else shown_in rows code

abbrev shows : ℕ → Option (ℕ × ℕ)
shows code = shown_in (digits ∷ upper_row ∷ home_row ∷ lower_row ∷ space_bar ∷ []) code

-- Caps lock turns shift around, but only on the letters.
abbrev shift_on : Bool → Bool → ℕ → Bool
shift_on shift caps plain = if leb 97 plain && leb plain 122 && caps then not shift else shift

abbrev typed : Bool → Bool → Option (ℕ × ℕ) → Option DesktopInput
typed shift caps none = none
typed shift caps (some (plain, shifted)) =
    some (character (if shift_on shift caps plain then shifted else plain))

abbrev key_of : ℕ → List (ℕ × DesktopInput) → Option DesktopInput → Option DesktopInput
key_of code [] other = other
key_of code ((key, input) ∷ keys) other = if key == code then some input else key_of code keys other

-- Escape, the backspace key, the tabulator and enter, then the keys that show something.
abbrev pub pressed : Bool → Bool → ℕ → Option DesktopInput
pressed shift caps code =
    key_of code ((1, exit) ∷ (14, backspace) ∷ (15, cycle_focus) ∷ (28, submit) ∷ [])
      (typed shift caps (shows code))

-- The block of arrows: up alone above left, down and right.
abbrev pub arrow : ℕ → Option DesktopInput
arrow code =
    key_of code ((72, move_up) ∷ (75, move_left) ∷ (80, move_down) ∷ (77, move_right) ∷ []) none

-- An input as a number and, for a character, its code.
abbrev tag : Option DesktopInput → ℕ × ℕ
tag none = (0, 0)
tag (some move_left) = (1, 0)
tag (some move_right) = (2, 0)
tag (some move_up) = (3, 0)
tag (some move_down) = (4, 0)
tag (some cycle_focus) = (5, 0)
tag (some exit) = (6, 0)
tag (some backspace) = (7, 0)
tag (some submit) = (8, 0)
tag (some (character c)) = (9, c)

abbrev tagged : ℕ × ℕ → Option DesktopInput
tagged (t, c) =
    if t == 0
    then none
    else key_of t
        ((1, move_left)
          ∷ (2, move_right)
          ∷ (3, move_up)
          ∷ (4, move_down)
          ∷ (5, cycle_focus)
          ∷ (6, exit)
          ∷ (7, backspace)
          ∷ (8, submit)
          ∷ [])
        (some (character c))

tagged-tag : (input : Option DesktopInput) → tagged (tag input) ≡ input
tagged-tag none = refl
tagged-tag (some move_left) = refl
tagged-tag (some move_right) = refl
tagged-tag (some move_up) = refl
tagged-tag (some move_down) = refl
tagged-tag (some cycle_focus) = refl
tagged-tag (some exit) = refl
tagged-tag (some backspace) = refl
tagged-tag (some submit) = refl
tagged-tag (some (character c)) = refl

abbrev same_input : Option DesktopInput → Option DesktopInput → Bool
same_input x y = ((tag x).0 == (tag y).0) && ((tag x).1 == (tag y).1)

same_input→eq : (x y : Option DesktopInput) → same_input x y ≡ true → x ≡ y
same_input→eq x y h =
    let number = ==→eq ((tag x).0) ((tag y).0) (and_left ((tag x).0 == (tag y).0) _ h) in
    let code = ==→eq ((tag x).1) ((tag y).1) (and_right ((tag x).0 == (tag y).0) _ h) in
    sym (tagged-tag x) ∙ (λ i. tagged (number i, code i)) ∙ tagged-tag y

abbrev decoder : Bool → Bool → Bool → Ps2Set1Decoder
decoder left right caps = record {
  extended = false;
  left_shift = left;
  right_shift = right;
  caps_lock = caps;
}

-- The tests of all codes, which compute.
agree : Bool → Bool → Bool → ℕ → Bool
agree left right caps code =
    same_input (plain_key code (decoder left right caps)) (pressed (left || right) caps code)

all-agree : (left right caps : Bool) → all_below 128 (agree left right caps) ≡ true
unfolding agree plain_key map_printable
all-agree true true true = refl
all-agree true true false = refl
all-agree true false true = refl
all-agree true false false = refl
all-agree false true true = refl
all-agree false true false = refl
all-agree false false true = refl
all-agree false false false = refl

pub plain_key-pressed :
    (left right caps : Bool) (code : ℕ)
    → code < 128
    → plain_key code (decoder left right caps) ≡ pressed (left || right) caps code
unfolding agree
plain_key-pressed left right caps code h =
    same_input→eq (plain_key code (decoder left right caps)) (pressed (left || right) caps code)
      (all_below→test 128 (agree left right caps) code (all-agree left right caps) h)

arrows_agree : ℕ → Bool
arrows_agree code = same_input (extended_key code) (arrow code)

all-arrows_agree : all_below 128 arrows_agree ≡ true
unfolding arrows_agree
all-arrows_agree = refl

pub extended_key-arrow : (code : ℕ) → code < 128 → extended_key code ≡ arrow code
unfolding arrows_agree
extended_key-arrow code h =
    same_input→eq (extended_key code) (arrow code)
      (all_below→test 128 arrows_agree code all-arrows_agree h)
