-- ===== src/Bytes/Fields.antt =====
-- A fixed layout as the concatenation of its fields: a `copy_from_slice` over a field replaces it,
-- and the slice at a field's offset is the field.
use mathlib.Core.Option.{some-injective}
use codex_os.Prelude.{
  ℕ, zero, suc, ◌+◌, ◌≡◌, refl, ap, ◌∙◌, List, [], ◌∷◌, ◌++◌, some, length, get_elem?, get_or, set,
  take, arith,
}
use codex_os.Bytes.{slice, put}
use codex_os.Bytes.Appended.{put-append_skip, put-append_head, drop-append_skip, take-append_head}

abbrev pub concat : List (List ℕ) → List ℕ
concat [] = []
concat (f ∷ fs) = f ++ concat fs

-- The offset of the field `k`.
abbrev pub offset_of : List (List ℕ) → ℕ → ℕ
offset_of fs zero = 0
offset_of [] (suc k) = 0
offset_of (f ∷ fs) (suc k) = length f + offset_of fs k

pub put-field :
    (k off : ℕ) (fs : List (List ℕ)) (old new : List ℕ)
    → get_elem? fs k ≡ some old
    → length old ≡ length new
    → offset_of fs k ≡ off
    → put (concat fs) off new ≡ concat (set fs k new)
put-field k off [] old new e h o = cc
put-field zero off (f ∷ fs) old new e h o =
    rw (← o) (put-append_head f (concat fs) new (ap length (some-injective f old e) ∙ h))
put-field (suc k) off (f ∷ fs) old new e h o = rw (← o) (
    put-append_skip f (concat fs) new (offset_of fs k)
    ∙ ap (λ t. f ++ t) (put-field k (offset_of fs k) fs old new e h refl))

get_or-append_skip : (a r : List ℕ) (o : ℕ) → get_or (a ++ r) (length a + o) 0 ≡ get_or r o 0
get_or-append_skip [] r o = ap (λ (t : ℕ). get_or r t 0) {x = 0 + o} {y = o} (omega arith)
get_or-append_skip (x ∷ a) r o =
    ap (λ (t : ℕ). get_or (x ∷ a ++ r) t 0) {x = suc (length a) + o} {y = suc (length a + o)}
      (omega arith)
    ∙ get_or-append_skip a r o

pub slice-field :
    (k off n : ℕ) (fs : List (List ℕ)) (f : List ℕ)
    → get_elem? fs k ≡ some f
    → length f ≡ n
    → offset_of fs k ≡ off
    → slice (concat fs) off n ≡ f
unfolding slice
slice-field k off n [] f e h o = cc
slice-field zero off n (g ∷ fs) f e h o =
    rw (← o, ← h, ← some-injective g f e) (take-append_head g (concat fs))
slice-field (suc k) off n (g ∷ fs) f e h o = rw (← o) (
    ap (take n) (drop-append_skip g (concat fs) (offset_of fs k))
    ∙ slice-field k (offset_of fs k) n fs f e h refl)

-- A field of one byte, read by its index.
pub get_or-field :
    (k off : ℕ) (fs : List (List ℕ)) (b : ℕ)
    → get_elem? fs k ≡ some (b ∷ [])
    → offset_of fs k ≡ off
    → get_or (concat fs) off 0 ≡ b
get_or-field k off [] b e o = cc
get_or-field zero off (g ∷ fs) b e o = rw (← o, some-injective g (b ∷ []) e)
get_or-field (suc k) off (g ∷ fs) b e o = rw (← o) (
    get_or-append_skip g (concat fs) (offset_of fs k) ∙ get_or-field k (offset_of fs k) fs b e refl)

append_assoc : (xs ys zs : List ℕ) → (xs ++ ys) ++ zs ≡ xs ++ (ys ++ zs)
append_assoc [] ys zs = refl
append_assoc (x ∷ xs) ys zs = ap (λ t. x ∷ t) (append_assoc xs ys zs)

pub concat-snoc : (fs : List (List ℕ)) (g : List ℕ) → concat fs ++ (g ++ []) ≡ concat (fs ++ g ∷ [])
concat-snoc [] g = refl
concat-snoc (f ∷ fs) g = append_assoc f (concat fs) (g ++ []) ∙ ap (λ t. f ++ t) (concat-snoc fs g)
