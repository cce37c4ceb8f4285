-- ===== src/Fs/Utf8/Chars.antt =====
-- The first character of a text.
use mathlib.Core.Option.{some-injective}
use codex_os.Prelude.{
  ℕ, ◌≤◌, ◌≡◌, ◌⊎◌, refl, sym, ap, ◌∙◌, ltb, List, [], ◌∷◌, ◌++◌, Bool, true, false, ◌&&◌, some,
  length, arith, ◌==◌, Bool-cases, inl, inr, if◌then◌else◌,
}
use codex_os.Fs.Utf8.{next_char, four_bytes, in_byte_range, when}

abbrev pub AllHigh : List ℕ → Type 0
AllHigh [] = Unit
AllHigh (b ∷ bytes) = (0x80 ≤ b) × AllHigh bytes

-- The bytes of one character, with those behind it: one ASCII byte, or none.
pub record IsFirstChar (bytes rest : List ℕ) : Type 0 where
  pub char : List ℕ
  pub splits : bytes ≡ char ++ rest
  pub some_byte : 1 ≤ length char
  pub alone : (t : List ℕ) → next_char (char ++ t) ≡ some t
  pub kind : (length char ≡ 1) ⊎ AllHigh char

ascii : (a : ℕ) (t : List ℕ) → ltb a 0x80 ≡ true → next_char (a ∷ t) ≡ some t
unfolding next_char
ascii a [] h = rw h refl
ascii a (b ∷ []) h = rw h refl
ascii a (b ∷ c ∷ t) h = rw h refl

two :
    (a b : ℕ) (t : List ℕ)
    → ltb a 0x80 ≡ false
    → in_byte_range 0xc2 0xdf a ≡ true
    → in_byte_range 0x80 0xbf b ≡ true
    → next_char (a ∷ b ∷ t) ≡ some t
unfolding next_char
two a b [] h k l = rw (h, k, l) refl
two a b (c ∷ t) h k l = rw (h, k, l) refl

abbrev second_of_three : ℕ → ℕ → Bool
second_of_three a b =
    in_byte_range (if a == 0xe0 then 0xa0 else 0x80) (if a == 0xed then 0x9f else 0xbf) b

abbrev second_of_four : ℕ → ℕ → Bool
second_of_four a b =
    in_byte_range (if a == 0xf0 then 0x90 else 0x80) (if a == 0xf4 then 0x8f else 0xbf) b

ascii_first :
    (a : ℕ) (t rest : List ℕ)
    → ltb a 0x80 ≡ true
    → next_char (a ∷ t) ≡ some rest
    → IsFirstChar (a ∷ t) rest
ascii_first a t rest low h =
    let same = some-injective t rest (sym (ascii a t low) ∙ h) in
    record {
      char = a ∷ [];
      splits = ap (λ r. a ∷ r) same;
      some_byte = omega arith;
      alone = λ t. ascii a t low;
      kind = inl refl;
    }

when-some : {A : Type 0} (b : Bool) (x y : A) → when b x ≡ some y → (b ≡ true) × (x ≡ y)
when-some true x y h = (refl, some-injective x y h)
when-some false x y h = absurd cc

two_first :
    (a b : ℕ) (t rest : List ℕ)
    → ltb a 0x80 ≡ false
    → in_byte_range 0xc2 0xdf a ≡ true
    → when (in_byte_range 0x80 0xbf b) t ≡ some rest
    → IsFirstChar (a ∷ b ∷ t) rest
two_first a b t rest low lead h =
    let (second, same) = when-some (in_byte_range 0x80 0xbf b) t rest h in
    record {
      char = a ∷ b ∷ [];
      splits = ap (λ r. a ∷ b ∷ r) same;
      some_byte = omega arith;
      alone = λ t. two a b t low lead second;
      kind = inr (ground arith, (ground arith, tt));
    }

three_first :
    (a b c : ℕ) (t rest : List ℕ)
    → ltb a 0x80 ≡ false
    → in_byte_range 0xc2 0xdf a ≡ false
    → in_byte_range 0xe0 0xef a ≡ true
    → when (second_of_three a b && in_byte_range 0x80 0xbf c) t ≡ some rest
    → IsFirstChar (a ∷ b ∷ c ∷ t) rest
unfolding next_char
three_first a b c t rest low not_two lead h =
    let (good, same) = when-some (second_of_three a b && in_byte_range 0x80 0xbf c) t rest h in
    record {
      char = a ∷ b ∷ c ∷ [];
      splits = ap (λ r. a ∷ b ∷ c ∷ r) same;
      some_byte = omega arith;
      alone = λ t. rw (low, not_two, lead, good) refl;
      kind = inr (ground arith, (ground arith, (ground arith, tt)));
    }

four_first :
    (a b c d : ℕ) (t rest : List ℕ)
    → ltb a 0x80 ≡ false
    → in_byte_range 0xc2 0xdf a ≡ false
    → in_byte_range 0xe0 0xef a ≡ false
    → when
        (in_byte_range 0xf0 0xf4 a
          && (second_of_four a b && (in_byte_range 0x80 0xbf c && in_byte_range 0x80 0xbf d)))
        t
      ≡ some rest
    → IsFirstChar (a ∷ b ∷ c ∷ d ∷ t) rest
unfolding next_char
four_first a b c d t rest low not_two not_three h =
    let (good, same) =
      when-some
        (in_byte_range 0xf0 0xf4 a
          && (second_of_four a b && (in_byte_range 0x80 0xbf c && in_byte_range 0x80 0xbf d)))
        t rest h in
    record {
      char = a ∷ b ∷ c ∷ d ∷ [];
      splits = ap (λ r. a ∷ b ∷ c ∷ d ∷ r) same;
      some_byte = omega arith;
      alone = λ t. rw (low, not_two, not_three, good) refl;
      kind = inr (ground arith, (ground arith, (ground arith, (ground arith, tt))));
    }

pub next_char-IsFirstChar :
    (bytes rest : List ℕ) → next_char bytes ≡ some rest → IsFirstChar bytes rest
unfolding next_char
next_char-IsFirstChar [] rest h = absurd cc
next_char-IsFirstChar (a ∷ []) rest h = elim (Bool-cases (ltb a 0x80)) [
  | inl low ↦ ascii_first a [] rest low h
  | inr high ↦ let wrong = rw high at h in absurd cc
]
next_char-IsFirstChar (a ∷ b ∷ []) rest h = elim (Bool-cases (ltb a 0x80)) [
  | inl low ↦ ascii_first a (b ∷ []) rest low h
  | inr high ↦
      let (good, same) =
        when-some (in_byte_range 0xc2 0xdf a && in_byte_range 0x80 0xbf b) [] rest (rw high at h) in
      two_first a b [] rest high (ground arith) (
        rw (second_of_and (in_byte_range 0xc2 0xdf a) (in_byte_range 0x80 0xbf b) good)
          (ap some same))
]
  where
    second_of_and : (x y : Bool) → (x && y) ≡ true → y ≡ true
    second_of_and true y h = h
    second_of_and false y h = absurd cc
next_char-IsFirstChar (a ∷ b ∷ c ∷ more) rest h = elim (Bool-cases (ltb a 0x80)) [
  | inl low ↦ ascii_first a (b ∷ c ∷ more) rest low h
  | inr high ↦ elim (Bool-cases (in_byte_range 0xc2 0xdf a)) [
    | inl lead ↦ two_first a b (c ∷ more) rest high lead (rw (high, lead) at h)
    | inr not_two ↦ elim (Bool-cases (in_byte_range 0xe0 0xef a)) [
      | inl lead ↦ three_first a b c more rest high not_two lead (rw (high, not_two, lead) at h)
      | inr not_three ↦ last more (rw (high, not_two, not_three) at h) high not_two not_three
    ]
  ]
]
  where
    last :
        (tail : List ℕ)
        → four_bytes a b c tail ≡ some rest
        → ltb a 0x80 ≡ false
        → in_byte_range 0xc2 0xdf a ≡ false
        → in_byte_range 0xe0 0xef a ≡ false
        → IsFirstChar (a ∷ b ∷ c ∷ tail) rest
    last [] h high not_two not_three = absurd cc
    last (d ∷ t) h high not_two not_three = four_first a b c d t rest high not_two not_three h
