-- ===== src/Fs/Tree/Lookup.antt =====
-- What the lookup of a name in kernel/src/fs.rs finds after a change of the list of entries.
use mathlib.Core.Option.{some-injective}
use codex_os.Prelude.{
  ◌≡◌, refl, sym, ap, ◌∙◌, List, [], ◌∷◌, ◌++◌, Bool, true, false, none, some, Bool-cases, inl, inr,
  if◌then◌else◌,
}
use codex_os.Bytes.{bytes_eq}
use codex_os.Bytes.Words.{bytes_eq→eq}
use codex_os.Fs.{Text, FileEntry}
use codex_os.Fs.FilePath.{find_entry}
use codex_os.Fs.FileRecord.{has_name}
use codex_os.Fs.FileRecord.Distinct.{HasDistinctNames}
use codex_os.Fs.Tree.{change_entry, insert_by, remove_entry, sort_by}
use codex_os.Fs.Tree.Names.{has_name-sort_by}

-- Names that are equal to one are equal to each other or differ from it together.
bytes_eq_via : (a b n : Text) → bytes_eq a b ≡ true → bytes_eq a n ≡ bytes_eq b n
bytes_eq_via a b n h = ap (λ t. bytes_eq t n) (bytes_eq→eq a b h)

pub has_name-not_found :
    (name : Text) (files : List FileEntry)
    → has_name name files ≡ false
    → find_entry name files ≡ none
unfolding has_name find_entry
has_name-not_found name [] h = refl
has_name-not_found name (entry ∷ files) h = elim (Bool-cases (bytes_eq entry.name name)) [
  | inl here ↦ let wrong = rw here at h in absurd cc
  | inr beyond ↦ rw beyond (has_name-not_found name files (rw beyond at h))
]

find_entry-insert_by :
    (le : FileEntry → FileEntry → Bool) (name : Text) (entry : FileEntry) (files : List FileEntry)
    → has_name entry.name files ≡ false
    → find_entry name (insert_by le entry files)
      ≡ (if bytes_eq entry.name name then some entry else find_entry name files)
unfolding insert_by has_name find_entry
find_entry-insert_by le name entry [] h = refl
find_entry-insert_by le name entry (other ∷ files) h = elim (Bool-cases (le entry other)) [
  | inl before ↦ rw before refl
  | inr behind ↦ elim (Bool-cases (bytes_eq other.name entry.name)) [
    | inl same ↦ let wrong = rw same at h in absurd cc
    | inr apart ↦ elim (Bool-cases (bytes_eq entry.name name)) [
      | inl here ↦
          let not_there : bytes_eq other.name name ≡ false =
            sym (ap (bytes_eq other.name) (bytes_eq→eq entry.name name here)) ∙ apart in
          rw (behind, not_there, find_entry-insert_by le name entry files (rw apart at h), here)
            refl
      | inr elsewhere ↦
          rw (behind, find_entry-insert_by le name entry files (rw apart at h), elsewhere) refl
    ]
  ]
]

pub find_entry-sort_by :
    (le : FileEntry → FileEntry → Bool) (name : Text) (files : List FileEntry)
    → HasDistinctNames files
    → find_entry name (sort_by le files) ≡ find_entry name files
unfolding sort_by find_entry
find_entry-sort_by le name [] d = refl
find_entry-sort_by le name (entry ∷ files) (once, d) =
    find_entry-insert_by le name entry (sort_by le files)
      (has_name-sort_by le entry.name files ∙ once)
    ∙ ap (λ r. if bytes_eq entry.name name then some entry else r)
        (find_entry-sort_by le name files d)

pub find_entry-append :
    (name : Text) (files : List FileEntry) (entry : FileEntry)
    → find_entry entry.name files ≡ none
    → find_entry name (files ++ entry ∷ [])
      ≡ (if bytes_eq entry.name name then some entry else find_entry name files)
unfolding find_entry
find_entry-append name [] entry h = refl
find_entry-append name (other ∷ files) entry h =
    elim (Bool-cases (bytes_eq other.name entry.name)) [
      | inl same ↦ let wrong = rw same at h in absurd cc
      | inr apart ↦ elim (Bool-cases (bytes_eq entry.name name)) [
        | inl here ↦
            let not_there : bytes_eq other.name name ≡ false =
              sym (ap (bytes_eq other.name) (bytes_eq→eq entry.name name here)) ∙ apart in
            rw (not_there, find_entry-append name files entry (rw apart at h), here) refl
        | inr elsewhere ↦ rw (find_entry-append name files entry (rw apart at h), elsewhere) refl
      ]
    ]

pub find_entry-change_other :
    (name path : Text) (change : FileEntry → FileEntry) (files : List FileEntry)
    → ((entry : FileEntry) → (change entry).name ≡ entry.name)
    → bytes_eq path name ≡ false
    → find_entry name (change_entry path change files) ≡ find_entry name files
unfolding find_entry change_entry
find_entry-change_other name path change [] same h = refl
find_entry-change_other name path change (entry ∷ files) same h =
    elim (Bool-cases (bytes_eq entry.name path)) [
      | inl here ↦
          let apart : bytes_eq entry.name name ≡ false =
            bytes_eq_via entry.name path name here ∙ h in
          let changed : bytes_eq (change entry).name name ≡ false =
            ap (λ n. bytes_eq n name) (same entry) ∙ apart in
          rw (here, changed, apart) refl
      | inr beyond ↦ rw (beyond, find_entry-change_other name path change files same h) refl
    ]

pub find_entry-change_same :
    (path : Text) (change : FileEntry → FileEntry) (files : List FileEntry) (existing : FileEntry)
    → ((entry : FileEntry) → (change entry).name ≡ entry.name)
    → find_entry path files ≡ some existing
    → find_entry path (change_entry path change files) ≡ some (change existing)
unfolding find_entry change_entry
find_entry-change_same path change [] existing same h = absurd cc
find_entry-change_same path change (entry ∷ files) existing same h =
    elim (Bool-cases (bytes_eq entry.name path)) [
      | inl here ↦
          let changed : bytes_eq (change entry).name path ≡ true =
            ap (λ n. bytes_eq n path) (same entry) ∙ here in
          rw (here, changed)
            (ap (λ e. some (change e)) (some-injective entry existing (rw here at h)))
      | inr beyond ↦
          rw
            (
              beyond,
              find_entry-change_same path change files existing same (rw beyond at h),
              beyond,
            )
            refl
    ]

pub find_entry-remove_other :
    (name path : Text) (files : List FileEntry)
    → bytes_eq path name ≡ false
    → find_entry name (remove_entry path files) ≡ find_entry name files
unfolding find_entry remove_entry
find_entry-remove_other name path [] h = refl
find_entry-remove_other name path (entry ∷ files) h = elim (Bool-cases (bytes_eq entry.name path)) [
  | inl here ↦
      let apart : bytes_eq entry.name name ≡ false = bytes_eq_via entry.name path name here ∙ h in
      rw (here, apart) refl
  | inr beyond ↦ rw (beyond, find_entry-remove_other name path files h) refl
]

pub find_entry-remove_same :
    (path : Text) (files : List FileEntry)
    → HasDistinctNames files
    → find_entry path (remove_entry path files) ≡ none
unfolding find_entry remove_entry
find_entry-remove_same path [] d = refl
find_entry-remove_same path (entry ∷ files) (once, d) =
    elim (Bool-cases (bytes_eq entry.name path)) [
      | inl here ↦ rw here (
          has_name-not_found path files
            (ap (λ n. has_name n files) (sym (bytes_eq→eq entry.name path here)) ∙ once))
      | inr beyond ↦ rw (beyond, find_entry-remove_same path files d, beyond) refl
    ]
