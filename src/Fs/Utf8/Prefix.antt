-- ===== src/Fs/Utf8/Prefix.antt =====
-- A text that is cut before an ASCII byte is a text.
use codex_os.Prelude.{
  ℕ, zero, suc, ◌≤◌, ◌<◌, ◌≡◌, refl, sym, ap, ◌∙◌, List, [], ◌∷◌, ◌++◌, Bool, true, false, Option,
  none, some, length, length-append, arith, inl, inr,
}
use codex_os.Fs.Utf8.{is_utf8, next_char}
use codex_os.Fs.Utf8.Chars.{AllHigh, IsFirstChar, next_char-IsFirstChar}

abbrev first_or : ℕ → List ℕ → ℕ
first_or d [] = d
first_or d (x ∷ xs) = x

abbrev rest_of : List ℕ → List ℕ
rest_of [] = []
rest_of (x ∷ xs) = xs

-- Where a list of high bytes and another list is cut before an ASCII byte, the cut is behind the first.
high_before :
    (char rest xs ys : List ℕ) (b : ℕ)
    → AllHigh char
    → b < 0x80
    → xs ++ b ∷ ys ≡ char ++ rest
    → (xs2 : List ℕ) × ((xs ≡ char ++ xs2) × (rest ≡ xs2 ++ b ∷ ys))
high_before [] rest xs ys b high low same = (xs, (refl, sym same))
high_before (c ∷ char) rest [] ys b (here, high) low same =
    let e : b ≡ c = ap (first_or 0) same in absurd omega arith
high_before (c ∷ char) rest (x ∷ xs) ys b (here, high) low same =
    let (xs2, (front, back)) = high_before char rest xs ys b high low (ap rest_of same) in
    (xs2, ((λ i. (ap (first_or 0) same) i ∷ front i), back))

single_before :
    (char rest xs ys : List ℕ) (x b : ℕ)
    → length char ≡ 1
    → x ∷ xs ++ b ∷ ys ≡ char ++ rest
    → (xs2 : List ℕ) × ((x ∷ xs ≡ char ++ xs2) × (rest ≡ xs2 ++ b ∷ ys))
single_before [] rest xs ys x b long same = absurd omega arith
single_before (c ∷ []) rest xs ys x b long same =
    (xs, ((λ i. (ap (first_or 0) same) i ∷ xs), sym (ap rest_of same)))
single_before (c ∷ d ∷ char) rest xs ys x b long same = absurd omega arith

first_before :
    (bytes rest xs ys : List ℕ) (x b : ℕ)
    → b < 0x80
    → IsFirstChar bytes rest
    → bytes ≡ x ∷ xs ++ b ∷ ys
    → (xs2 : List ℕ) × ((next_char (x ∷ xs) ≡ some xs2)
        × ((length xs2 ≤ length xs) × (rest ≡ xs2 ++ b ∷ ys)))
first_before bytes rest xs ys x b low f same =
    let (xs2, (front, back)) : (xs2 : List ℕ) × ((x ∷ xs ≡ f.char ++ xs2)
          × (rest ≡ xs2 ++ b ∷ ys)) =
      elim f.kind [
        | inr high ↦ high_before f.char rest (x ∷ xs) ys b high low (sym same ∙ f.splits)
        | inl single ↦ single_before f.char rest xs ys x b single (sym same ∙ f.splits)
      ] in
    let some_byte = f.some_byte in
    let total = length-append f.char xs2 in
    let long = ap length front in (xs2, (ap next_char front ∙ f.alone xs2, (omega arith, back)))

empty_text : (fuel : ℕ) → is_utf8 fuel [] ≡ true
unfolding is_utf8
empty_text zero = refl
empty_text (suc fuel) = refl

-- A text up to an ASCII byte is a text.
pub is_utf8_before :
    (fuel enough : ℕ) (xs ys : List ℕ) (b : ℕ)
    → b < 0x80
    → length xs ≤ enough
    → is_utf8 fuel (xs ++ b ∷ ys) ≡ true
    → is_utf8 enough xs ≡ true
unfolding is_utf8
is_utf8_before fuel enough [] ys b low h u = empty_text enough
is_utf8_before zero enough (x ∷ xs) ys b low h u = absurd cc
is_utf8_before (suc fuel) zero (x ∷ xs) ys b low h u = absurd omega arith
is_utf8_before (suc fuel) (suc enough) (x ∷ xs) ys b low h u =
    go (next_char (x ∷ xs ++ b ∷ ys)) refl u
      (λ xs2 short v. is_utf8_before fuel enough xs2 ys b low short v)
  where
    go :
        (found : Option (List ℕ))
        → next_char (x ∷ xs ++ b ∷ ys) ≡ found
        → (elim found [ none ↦ false | some rest ↦ is_utf8 fuel rest ]) ≡ true
        → ((xs2 : List ℕ)
            → length xs2 ≤ enough
            → is_utf8 fuel (xs2 ++ b ∷ ys) ≡ true
            → is_utf8 enough xs2 ≡ true)
        → is_utf8 (suc enough) (x ∷ xs) ≡ true
    go none same v rec = absurd cc
    go (some rest) same v rec =
        let (xs2, (char, (short, back))) =
          first_before (x ∷ xs ++ b ∷ ys) rest xs ys x b low
            (next_char-IsFirstChar (x ∷ xs ++ b ∷ ys) rest same) refl in
        ap
          (λ (o : Option (List ℕ)). elim o as (λ o. Bool) [
            | none ↦ false
            | some more ↦ is_utf8 enough more
          ])
          char
        ∙ rec xs2 (omega arith) (ap (is_utf8 fuel) (sym back) ∙ v)
