-- ===== src/Fs/Tree/Texts.antt =====
-- The parents of texts in kernel/src/fs.rs are texts.
use mathlib.Core.Option.{some-injective}
use codex_os.Prelude.{
  All, ℕ, zero, suc, ◌≡◌, refl, ap, ◌∙◌, ◌==◌, List, [], ◌∷◌, ◌++◌, true, length, take, drop, any,
  Option, none, some, Bool-cases, inl, inr, arith, if◌then◌else◌, ==→eq,
}
use codex_os.Prelude.Results.{ok_or-passed, ok, ok_or, bind-passed, fail_if-passed, value_or}
use codex_os.Bytes.{bytes_eq}
use codex_os.Fs.{Text, FileEntry, invalid_path}
use codex_os.Fs.Utf8.{is_utf8, next_char}
use codex_os.Fs.Utf8.Prefix.{is_utf8_before}
use codex_os.Fs.FilePath.{root, slash, rfind_slash, parent_path, validate_path, is_invalid_path}
use codex_os.Fs.FileRecord.ReadEntries.{IsStorable}
use codex_os.Fs.Tree.{require_parents, required_directories}
use codex_os.Fs.Tree.Names.{All-append}

abbrev pub IsText : Text → Type 0
IsText text = is_utf8 (length text) text ≡ true

-- A text that ends before a slash is a text.
pub before_slash-IsText : (xs ys : Text) → IsText (xs ++ slash ∷ ys) → IsText xs
before_slash-IsText xs ys h =
    is_utf8_before (length (xs ++ slash ∷ ys)) (length xs) xs ys slash (omega arith) (omega arith) h

splits_after :
    (b : ℕ) (path : Text) (index : ℕ) (found : Option ℕ)
    → ((i : ℕ) → found ≡ some i → path ≡ take i path ++ slash ∷ drop (suc i) path)
    → (elim found [ some i ↦ some (suc i) | none ↦ if b == slash then some 0 else none ])
      ≡ some index
    → b ∷ path ≡ take index (b ∷ path) ++ slash ∷ drop (suc index) (b ∷ path)
splits_after b path index (some i) splits h =
    let e = some-injective (suc i) index h in
    ap (λ t. b ∷ t) (splits i refl)
    ∙ ap (λ (n : ℕ). take n (b ∷ path) ++ slash ∷ drop (suc n) (b ∷ path)) e
splits_after b path index none splits h = elim (Bool-cases (b == slash)) [
  | inl here ↦
      let e = some-injective 0 index (rw here at h) in
      ap (λ c. c ∷ path) (==→eq b slash here)
      ∙ ap (λ (n : ℕ). take n (b ∷ path) ++ slash ∷ drop (suc n) (b ∷ path)) e
  | inr other ↦ let wrong = rw other at h in absurd cc
]

rfind_slash-splits :
    (path : Text) (index : ℕ)
    → rfind_slash path ≡ some index
    → path ≡ take index path ++ slash ∷ drop (suc index) path
unfolding rfind_slash
rfind_slash-splits [] index h = absurd cc
rfind_slash-splits (b ∷ path) index h =
    splits_after b path index (rfind_slash path) (rfind_slash-splits path) h

root-IsText : IsText root
unfolding is_utf8 next_char
root-IsText = refl

pub parent_path-IsText :
    (path above : Text) → parent_path path ≡ ok above → IsText path → IsText above
unfolding parent_path validate_path
parent_path-IsText path above h t =
    let (u, h1) = fail_if-passed (bytes_eq path root) invalid_path _ above h in
    let (valid, h2) = fail_if-passed (is_invalid_path path) invalid_path _ above h1 in
    let (index, (e, h3)) = bind-passed (ok_or (rfind_slash path) invalid_path) _ above h2 in
    elim (Bool-cases (index == 0)) [
      | inl top ↦ coe 0 1 (i. IsText ((ap (value_or root) (rw top at h3)) i)) root-IsText
      | inr below ↦
          let splits =
            rfind_slash-splits path index (ok_or-passed (rfind_slash path) invalid_path index e) in
          coe 0 1 (i. IsText ((ap (value_or root) (rw below at h3)) i)) (
            before_slash-IsText (take index path) (drop (suc index) path)
              (coe 0 1 (i. IsText (splits i)) t))
    ]

require_parents-IsText :
    (fuel : ℕ) (parent : Text) (required more : List Text)
    → IsText parent
    → All IsText required
    → require_parents fuel parent required ≡ ok more
    → All IsText more
unfolding require_parents
require_parents-IsText zero parent required more t all h =
    coe 0 1 (i. All IsText ((ap (value_or []) h) i)) all
require_parents-IsText (suc fuel) parent required more t all h =
    elim (Bool-cases (bytes_eq parent root)) [
      | inl top ↦ coe 0 1 (i. All IsText ((ap (value_or []) (rw top at h)) i)) all
      | inr below ↦
          let (above, (e, h1)) = bind-passed (parent_path parent) _ more (rw below at h) in
          let up = parent_path-IsText parent above e t in
          elim (Bool-cases (any (λ path. bytes_eq path parent) required)) [
            | inl listed ↦ require_parents-IsText fuel above required more up all (rw listed at h1)
            | inr new ↦
                require_parents-IsText fuel above (required ++ parent ∷ []) more up
                  (All-append IsText required (parent ∷ []) all (t, tt)) (rw new at h1)
          ]
    ]

pub required_directories-IsText :
    (entries : List FileEntry) (required more : List Text)
    → All IsStorable entries
    → All IsText required
    → required_directories entries required ≡ ok more
    → All IsText more
unfolding required_directories
required_directories-IsText [] required more s all h =
    coe 0 1 (i. All IsText ((ap (value_or []) h) i)) all
required_directories-IsText (entry ∷ entries) required more (here, s) all h =
    let (parent, (e1, h1)) = bind-passed (parent_path entry.name) _ more h in
    let (next, (e2, h2)) =
      bind-passed (require_parents (length entry.name) parent required) _ more h1 in
    required_directories-IsText entries next more s
      (require_parents-IsText (length entry.name) parent required next
        (parent_path-IsText entry.name parent e1 here.text) all e2)
      h2
