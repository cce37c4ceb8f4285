-- ===== src/Fs/Utf8.antt =====
-- What core::str::from_utf8 accepts, which kernel/src/fs.rs calls for the names of a record.
pub mod Chars
pub mod Prefix
use codex_os.Prelude.{
  ℕ, zero, suc, ◌==◌, ltb, leb, List, [], ◌∷◌, Bool, true, false, ◌&&◌, Option, none, some,
  if◌then◌else◌,
}

abbrev pub in_byte_range : ℕ → ℕ → ℕ → Bool
in_byte_range low high b = leb low b && leb b high

abbrev pub when : {A : Type 0} → Bool → A → Option A
when true a = some a
when false a = none

-- A character of four bytes.
abbrev pub four_bytes : ℕ → ℕ → ℕ → List ℕ → Option (List ℕ)
four_bytes a b c [] = none
four_bytes a b c (d ∷ rest) =
    when
      (in_byte_range 0xf0 0xf4 a
        && (in_byte_range (if a == 0xf0 then 0x90 else 0x80) (if a == 0xf4 then 0x8f else 0xbf) b
            && (in_byte_range 0x80 0xbf c && in_byte_range 0x80 0xbf d)))
      rest

-- The bytes behind the first character, if that is well formed: after Unicode's table of sequences.
unfoldable pub next_char : List ℕ → Option (List ℕ)
next_char [] = none
next_char (a ∷ []) = when (ltb a 0x80) []
next_char (a ∷ b ∷ []) =
    if ltb a 0x80
    then some (b ∷ [])
    else when (in_byte_range 0xc2 0xdf a && in_byte_range 0x80 0xbf b) []
next_char (a ∷ b ∷ c ∷ more) =
    if ltb a 0x80
    then some (b ∷ c ∷ more)
    else if in_byte_range 0xc2 0xdf a
    then when (in_byte_range 0x80 0xbf b) (c ∷ more)
    else if in_byte_range 0xe0 0xef a
    then when
        (in_byte_range (if a == 0xe0 then 0xa0 else 0x80) (if a == 0xed then 0x9f else 0xbf) b
          && in_byte_range 0x80 0xbf c)
        more
    else four_bytes a b c more

-- `from_utf8` accepts the bytes; each character takes one at least.
unfoldable pub is_utf8 : ℕ → List ℕ → Bool
is_utf8 fuel [] = true
is_utf8 zero (a ∷ bytes) = false
is_utf8 (suc fuel) (a ∷ bytes) = elim (next_char (a ∷ bytes)) [
  | none ↦ false
  | some rest ↦ is_utf8 fuel rest
]
