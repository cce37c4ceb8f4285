-- ===== src/Bytes/Appended.antt =====
-- Arrays in parts: what is written to and read from a part of a concatenation.
use codex_os.Prelude.{
  ℕ, zero, suc, ◌+◌, ◌≡◌, refl, ap, ◌∙◌, List, [], ◌∷◌, ◌++◌, length, take, drop, arith,
}
use codex_os.Bytes.{zeros, slice, put}

pub zeros_add : (m n : ℕ) → zeros (m + n) ≡ zeros m ++ zeros n
zeros_add zero n = ap zeros {x = 0 + n} {y = n} (omega arith)
zeros_add (suc m) n =
    ap zeros {x = suc m + n} {y = suc (m + n)} (omega arith) ∙ ap (λ t. 0 ∷ t) (zeros_add m n)

pub length-zeros : (n : ℕ) → length (zeros n) ≡ n
length-zeros zero = refl
length-zeros (suc n) = ap suc (length-zeros n)

pub put-append_skip :
    (a r new : List ℕ) (o : ℕ) → put (a ++ r) (length a + o) new ≡ a ++ put r o new
unfolding put
put-append_skip [] r new o = ap (λ (t : ℕ). put r t new) {x = 0 + o} {y = o} (omega arith)
put-append_skip (x ∷ a) r new o =
    ap (λ (t : ℕ). put (x ∷ a ++ r) t new) {x = suc (length a) + o} {y = suc (length a + o)}
      (omega arith)
    ∙ ap (λ t. x ∷ t) (put-append_skip a r new o)

pub put-append_head :
    (old r new : List ℕ) → length old ≡ length new → put (old ++ r) 0 new ≡ new ++ r
unfolding put
put-append_head [] r [] h = refl
put-append_head [] r (b ∷ new) h = absurd (omega arith)
put-append_head (x ∷ old) r [] h = absurd (omega arith)
put-append_head (x ∷ old) r (b ∷ new) h = ap (λ t. b ∷ t) (put-append_head old r new (omega arith))

pub drop-append_skip : (a r : List ℕ) (o : ℕ) → drop (length a + o) (a ++ r) ≡ drop o r
drop-append_skip [] r o = ap (λ (t : ℕ). drop t r) {x = 0 + o} {y = o} (omega arith)
drop-append_skip (x ∷ a) r o =
    ap (λ (t : ℕ). drop t (x ∷ a ++ r)) {x = suc (length a) + o} {y = suc (length a + o)}
      (omega arith)
    ∙ drop-append_skip a r o

pub take-append_head : (f r : List ℕ) → take (length f) (f ++ r) ≡ f
take-append_head [] r = refl
take-append_head (x ∷ f) r = ap (λ t. x ∷ t) (take-append_head f r)

pub put-append_here : (a r new : List ℕ) → put (a ++ r) (length a) new ≡ a ++ put r 0 new
unfolding put
put-append_here [] r new = refl
put-append_here (x ∷ a) r new = ap (λ t. x ∷ t) (put-append_here a r new)

pub drop-append_here : (a r : List ℕ) → drop (length a) (a ++ r) ≡ r
drop-append_here [] r = refl
drop-append_here (x ∷ a) r = drop-append_here a r

pub slice-append_skip : (a r : List ℕ) (o n : ℕ) → slice (a ++ r) (length a + o) n ≡ slice r o n
unfolding slice
slice-append_skip a r o n = ap (take n) (drop-append_skip a r o)

pub slice-append_here : (a r : List ℕ) (n : ℕ) → slice (a ++ r) (length a) n ≡ slice r 0 n
unfolding slice
slice-append_here a r n = ap (take n) (drop-append_here a r)

pub slice_part : (a b c : List ℕ) → slice (a ++ (b ++ c)) (length a) (length b) ≡ b
unfolding slice
slice_part a b c = ap (take (length b)) (drop-append_here a (b ++ c)) ∙ take-append_head b c
