-- ===== src/Fs/Tree/Fuel.antt =====
-- The parents of a path in kernel/src/fs.rs get shorter, so that the loop over them has enough fuel.
use mathlib.Core.Option.{some-injective}
use codex_os.Prelude.{
  ℕ, zero, suc, ◌≤◌, ◌<◌, ◌≡◌, refl, ap, ◌==◌, ltb, List, [], ◌∷◌, ◌++◌, false, length, Option,
  none, some, arith, any, Bool-cases, inl, inr, if◌then◌else◌,
}
use codex_os.Prelude.Results.{
  ok_or-passed, Result, ok, err, ◌>>=◌, ok_or, bind-passed, fail_if-passed, value_or,
}
use codex_os.Bytes.{bytes_eq}
use codex_os.Fs.{Text, FsError, invalid_path}
use codex_os.Fs.FilePath.{root, slash, rfind_slash, parent_path, validate_path, is_invalid_path}
use codex_os.Fs.Tree.{require_parents}
use codex_os.UserElf.Loadable.{length-take}

index_after :
    (b n index : ℕ) (found : Option ℕ)
    → ((i : ℕ) → found ≡ some i → i < n)
    → (elim found [ some i ↦ some (suc i) | none ↦ if b == slash then some 0 else none ])
      ≡ some index
    → index < suc n
index_after b n index (some i) inside h =
    let e = some-injective (suc i) index h in let low = inside i refl in omega arith
index_after b n index none inside h = elim (Bool-cases (b == slash)) [
  | inl here ↦ let e = some-injective 0 index (rw here at h) in omega arith
  | inr other ↦ let wrong = rw other at h in absurd cc
]

rfind_slash-inside : (path : Text) (index : ℕ) → rfind_slash path ≡ some index → index < length path
unfolding rfind_slash
rfind_slash-inside [] index h = absurd cc
rfind_slash-inside (b ∷ path) index h =
    index_after b (length path) index (rfind_slash path) (rfind_slash-inside path) h

valid-length : (path : Text) → is_invalid_path path ≡ false → 2 ≤ length path
unfolding is_invalid_path
valid-length path h = elim (Bool-cases (ltb (length path) 2)) [
  | inl short ↦ let wrong = rw short at h in absurd cc
  | inr long ↦ ground arith
]

-- A parent is shorter than its path.
pub parent_path-shorter :
    (path above : Text) → parent_path path ≡ ok above → length above < length path
unfolding parent_path validate_path
parent_path-shorter path above h =
    let (u, h1) = fail_if-passed (bytes_eq path root) invalid_path _ above h in
    let (valid, h2) = fail_if-passed (is_invalid_path path) invalid_path _ above h1 in
    let (index, (e, h3)) = bind-passed (ok_or (rfind_slash path) invalid_path) _ above h2 in
    let long = valid-length path valid in
    elim (Bool-cases (index == 0)) [
      | inl top ↦ let same = ap (λ r. length (value_or root r)) (rw top at h3) in omega arith
      | inr below ↦
          let same = ap (λ r. length (value_or root r)) (rw below at h3) in
          let inside =
            rfind_slash-inside path index (ok_or-passed (rfind_slash path) invalid_path index e) in
          let short = length-take index path in omega arith
    ]

bind-same_where :
    {A B : Type 0} (m : Result FsError A) (f g : A → Result FsError B)
    → ((a : A) → m ≡ ok a → f a ≡ g a)
    → (m >>= f) ≡ (m >>= g)
bind-same_where (ok a) f g same = same a refl
bind-same_where (err e) f g same = refl

-- More fuel than the parent is long gives what any more fuel gives.
pub require_parents_enough :
    (fuel : ℕ) (parent : Text) (required : List Text)
    → length parent < fuel
    → require_parents (suc fuel) parent required ≡ require_parents fuel parent required
unfolding require_parents
require_parents_enough zero parent required h = absurd omega arith
require_parents_enough (suc fuel) parent required h = elim (Bool-cases (bytes_eq parent root)) [
  | inl top ↦ rw top refl
  | inr below ↦ rw below (
      bind-same_where (parent_path parent) _ _ (λ above e.
        let shorter = parent_path-shorter parent above e in
        require_parents_enough fuel above
          (if any (λ path. bytes_eq path parent) required
            then required
            else required ++ parent ∷ [])
          (omega arith)))
]
