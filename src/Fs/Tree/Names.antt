-- ===== src/Fs/Tree/Names.antt =====
-- What the changes of a tree in kernel/src/fs.rs do to the names in it, and to what every entry
-- satisfies.
use codex_os.Prelude.{
  All, ◌≡◌, refl, ap, ◌∙◌, List, [], ◌∷◌, ◌++◌, Bool, true, false, ◌||◌, none, Bool-cases, inl, inr,
}
use codex_os.Bytes.{bytes_eq}
use codex_os.Fs.{Text, FileEntry}
use codex_os.Fs.FilePath.{find_entry}
use codex_os.Fs.FileRecord.{has_name}
use codex_os.Fs.FileRecord.Distinct.{HasDistinctNames, bytes_eq_sym, has_name-append}
use codex_os.Fs.Tree.{change_entry, insert_by, remove_entry, sort_by}

module _ {ℓ κ} {A : Type ℓ} (P : A → Type κ) where
  pub All-append : (xs ys : List A) → All P xs → All P ys → All P (xs ++ ys)
  All-append [] ys h k = k
  All-append (x ∷ xs) ys (here, h) k = (here, All-append xs ys h k)

  insert_by-All :
      (le : A → A → Bool) (x : A) (xs : List A) → P x → All P xs → All P (insert_by le x xs)
  unfolding insert_by
  insert_by-All le x [] p h = (p, tt)
  insert_by-All le x (y ∷ xs) p (here, h) = elim (Bool-cases (le x y)) [
    | inl before ↦ rw before (p, (here, h))
    | inr behind ↦ rw behind (here, insert_by-All le x xs p h)
  ]

  pub sort_by-All : (le : A → A → Bool) (xs : List A) → All P xs → All P (sort_by le xs)
  unfolding sort_by
  sort_by-All le [] h = tt
  sort_by-All le (x ∷ xs) (here, h) = insert_by-All le x (sort_by le xs) here (sort_by-All le xs h)

module _ (P : FileEntry → Type 0) where
  pub change_entry-All :
      (name : Text) (change : FileEntry → FileEntry) (files : List FileEntry)
      → ((entry : FileEntry) → P entry → P (change entry))
      → All P files
      → All P (change_entry name change files)
  unfolding change_entry
  change_entry-All name change [] keeps h = tt
  change_entry-All name change (entry ∷ files) keeps (here, h) =
      elim (Bool-cases (bytes_eq entry.name name)) [
        | inl same ↦ rw same (keeps entry here, h)
        | inr other ↦ rw other (here, change_entry-All name change files keeps h)
      ]

  pub remove_entry-All :
      (name : Text) (files : List FileEntry) → All P files → All P (remove_entry name files)
  unfolding remove_entry
  remove_entry-All name [] h = tt
  remove_entry-All name (entry ∷ files) (here, h) = elim (Bool-cases (bytes_eq entry.name name)) [
    | inl same ↦ rw same h
    | inr other ↦ rw other (here, remove_entry-All name files h)
  ]

has_name-insert_by :
    (le : FileEntry → FileEntry → Bool) (name : Text) (entry : FileEntry) (files : List FileEntry)
    → has_name name (insert_by le entry files) ≡ (bytes_eq entry.name name || has_name name files)
unfolding insert_by has_name
has_name-insert_by le name entry [] = refl
has_name-insert_by le name entry (other ∷ files) = elim (Bool-cases (le entry other)) [
  | inl before ↦ rw before refl
  | inr behind ↦
      rw (behind, has_name-insert_by le name entry files)
        (swap (bytes_eq other.name name) (bytes_eq entry.name name) (has_name name files))
]
  where
    swap : (a b c : Bool) → (a || (b || c)) ≡ (b || (a || c))
    swap true true c = refl
    swap true false c = refl
    swap false b c = refl

neither : (a b : Bool) → (a || b) ≡ false → (a ≡ false) × (b ≡ false)
neither true b h = absurd cc
neither false b h = (refl, h)

insert_by-HasDistinctNames :
    (le : FileEntry → FileEntry → Bool) (entry : FileEntry) (files : List FileEntry)
    → has_name entry.name files ≡ false
    → HasDistinctNames files
    → HasDistinctNames (insert_by le entry files)
unfolding insert_by has_name
insert_by-HasDistinctNames le entry [] h d = (refl, tt)
insert_by-HasDistinctNames le entry (other ∷ files) h (once, d) =
    let (apart, later) = neither (bytes_eq other.name entry.name) (has_name entry.name files) h in
    let apart_too : bytes_eq entry.name other.name ≡ false =
      bytes_eq_sym entry.name other.name ∙ apart in
    elim (Bool-cases (le entry other)) [
      | inl before ↦ rw before (h, (once, d))
      | inr behind ↦ rw behind (
        has_name-insert_by le other.name entry files ∙ rw (apart_too, once) refl,
        insert_by-HasDistinctNames le entry files later d,
      )
    ]

pub has_name-sort_by :
    (le : FileEntry → FileEntry → Bool) (name : Text) (files : List FileEntry)
    → has_name name (sort_by le files) ≡ has_name name files
unfolding sort_by has_name
has_name-sort_by le name [] = refl
has_name-sort_by le name (entry ∷ files) =
    has_name-insert_by le name entry (sort_by le files)
    ∙ ap (λ b. bytes_eq entry.name name || b) (has_name-sort_by le name files)

pub sort_by-HasDistinctNames :
    (le : FileEntry → FileEntry → Bool) (files : List FileEntry)
    → HasDistinctNames files
    → HasDistinctNames (sort_by le files)
unfolding sort_by
sort_by-HasDistinctNames le [] d = tt
sort_by-HasDistinctNames le (entry ∷ files) (once, d) =
    insert_by-HasDistinctNames le entry (sort_by le files)
      (has_name-sort_by le entry.name files ∙ once) (sort_by-HasDistinctNames le files d)

pub append-HasDistinctNames :
    (files : List FileEntry) (entry : FileEntry)
    → has_name entry.name files ≡ false
    → HasDistinctNames files
    → HasDistinctNames (files ++ entry ∷ [])
unfolding has_name
append-HasDistinctNames [] entry h d = (refl, tt)
append-HasDistinctNames (other ∷ files) entry h (once, d) =
    let (apart, later) = neither (bytes_eq other.name entry.name) (has_name entry.name files) h in
    let apart_too : bytes_eq entry.name other.name ≡ false =
      bytes_eq_sym entry.name other.name ∙ apart in
    (
      has_name-append other.name files (entry ∷ []) ∙ rw (once, apart_too) refl,
      append-HasDistinctNames files entry later d,
    )

has_name-change_entry :
    (name other : Text) (change : FileEntry → FileEntry) (files : List FileEntry)
    → ((entry : FileEntry) → (change entry).name ≡ entry.name)
    → has_name other (change_entry name change files) ≡ has_name other files
unfolding has_name change_entry
has_name-change_entry name other change [] same = refl
has_name-change_entry name other change (entry ∷ files) same =
    elim (Bool-cases (bytes_eq entry.name name)) [
      | inl here ↦ rw here (ap (λ n. bytes_eq n other || has_name other files) (same entry))
      | inr beyond ↦ rw beyond (
          ap (λ b. bytes_eq entry.name other || b)
            (has_name-change_entry name other change files same))
    ]

pub change_entry-HasDistinctNames :
    (name : Text) (change : FileEntry → FileEntry) (files : List FileEntry)
    → ((entry : FileEntry) → (change entry).name ≡ entry.name)
    → HasDistinctNames files
    → HasDistinctNames (change_entry name change files)
unfolding change_entry
change_entry-HasDistinctNames name change [] same d = tt
change_entry-HasDistinctNames name change (entry ∷ files) same (once, d) =
    elim (Bool-cases (bytes_eq entry.name name)) [
      | inl here ↦ rw here (ap (λ n. has_name n files) (same entry) ∙ once, d)
      | inr beyond ↦ rw beyond (
        has_name-change_entry name entry.name change files same ∙ once,
        change_entry-HasDistinctNames name change files same d,
      )
    ]

has_name-remove_entry :
    (name other : Text) (files : List FileEntry)
    → has_name other files ≡ false
    → has_name other (remove_entry name files) ≡ false
unfolding has_name remove_entry
has_name-remove_entry name other [] h = refl
has_name-remove_entry name other (entry ∷ files) h =
    let (apart, later) = neither (bytes_eq entry.name other) (has_name other files) h in
    elim (Bool-cases (bytes_eq entry.name name)) [
      | inl here ↦ rw here later
      | inr beyond ↦ rw (beyond, apart) (has_name-remove_entry name other files later)
    ]

pub remove_entry-HasDistinctNames :
    (name : Text) (files : List FileEntry)
    → HasDistinctNames files
    → HasDistinctNames (remove_entry name files)
unfolding remove_entry
remove_entry-HasDistinctNames name [] d = tt
remove_entry-HasDistinctNames name (entry ∷ files) (once, d) =
    elim (Bool-cases (bytes_eq entry.name name)) [
      | inl here ↦ rw here d
      | inr beyond ↦ rw beyond (
        has_name-remove_entry name entry.name files once,
        remove_entry-HasDistinctNames name files d,
      )
    ]

pub find_entry-unnamed :
    (name : Text) (files : List FileEntry)
    → find_entry name files ≡ none
    → has_name name files ≡ false
unfolding has_name find_entry
find_entry-unnamed name [] h = refl
find_entry-unnamed name (entry ∷ files) h = elim (Bool-cases (bytes_eq entry.name name)) [
  | inl here ↦ let wrong = rw here at h in absurd cc
  | inr beyond ↦ rw beyond (find_entry-unnamed name files (rw beyond at h))
]
