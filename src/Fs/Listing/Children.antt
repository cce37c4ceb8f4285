-- ===== src/Fs/Listing/Children.antt =====
-- What `list_dir` of kernel/src/fs.rs lists.
use codex_os.Prelude.{
  All, ◌≡◌, ◌⊎◌, inl, inr, refl, sym, ap, ◌∙◌, List, [], ◌∷◌, Bool, true, false, not, Option, none,
  some, Bool-cases, if◌then◌else◌,
}
use codex_os.Prelude.Results.{Result, ok, fail_if}
use codex_os.Bytes.{bytes_eq}
use codex_os.Bytes.Words.{bytes_eq→eq, bytes_eq_refl}
use codex_os.Fs.{Text, FsError, FileEntry, directory_not_empty}
use codex_os.Fs.FilePath.{
  root, find_entry, is_directory_kind, is_invalid_path, parent_path, validate_path,
}
use codex_os.Fs.FileRecord.{has_name}
use codex_os.Fs.FileRecord.Distinct.{HasDistinctNames, bytes_eq_sym}
use codex_os.Fs.Commit.{CodexFs}
use codex_os.Fs.Tree.{refuse_children}
use codex_os.Fs.Tree.Lookup.{has_name-not_found}
use codex_os.Fs.Changes.Placed.{AllPlaced, IsTree}
use codex_os.Fs.Listing.{
  DirectoryEntry, Metadata, check_listed, describe, list_children, list_dir, metadata, metadata_of,
}

-- The first entry of a path in a listing.
abbrev pub find_listed : Text → List DirectoryEntry → Option DirectoryEntry
find_listed name [] = none
find_listed name (entry ∷ entries) =
    if bytes_eq entry.path name then some entry else find_listed name entries

abbrev pub is_above : Text → Result FsError Text → Bool
is_above path (ok parent) = bytes_eq parent path
is_above path _ = false

-- What a listing of a directory has of an entry: its description, where the directory is its parent.
abbrev pub listed_in : Text → Option FileEntry → Option DirectoryEntry
listed_in path none = none
listed_in path (some entry) =
    if is_above path (parent_path entry.name) then some (describe entry) else none

abbrev pub lists_nothing : List DirectoryEntry → Bool
lists_nothing [] = true
lists_nothing (entry ∷ entries) = false

abbrev pub as_metadata : DirectoryEntry → Metadata
as_metadata entry = record {
  path = entry.path;
  kind = entry.kind;
  permissions = entry.permissions;
  size = entry.size;
}

-- A listing of some entries.
record IsListing (fs : CodexFs) (path : Text) (files : List FileEntry)
    (listed : List DirectoryEntry) : Type 0 where
  made : list_children path files ≡ ok listed
  has : (name : Text) → find_listed name listed ≡ listed_in path (find_entry name files)
  empty : refuse_children path files ≡ fail_if (not (lists_nothing listed)) directory_not_empty
  agrees : All (λ (d : DirectoryEntry). metadata fs d.path ≡ ok (as_metadata d)) listed

children :
    (fs : CodexFs) (path : Text) (tree files : List FileEntry)
    → AllPlaced tree files
    → HasDistinctNames files
    → All (λ (e : FileEntry). metadata fs e.name ≡ ok (metadata_of e)) files
    → (listed : List DirectoryEntry) × IsListing fs path files listed
unfolding list_children find_entry refuse_children
children fs path tree [] placed d known =
    ([], record { made = refl; has = λ name. refl; empty = refl; agrees = tt })
children fs path tree (entry ∷ files) (here, placed) (once, d) (mine, known) =
    let (rest, r) = children fs path tree files placed d known in
    let above : parent_path entry.name ≡ ok here.parent = here.above in
    elim (Bool-cases (bytes_eq here.parent path)) [
      | inl child ↦ (
        describe entry ∷ rest,
        record {
          made = rw (above, r.made, child) refl;
          has = λ name. elim (Bool-cases (bytes_eq entry.name name)) [
            | inl same ↦ rw (same, above, child) refl
            | inr other ↦ rw other (r.has name)
          ];
          empty = rw (above, child) refl;
          agrees = (mine, r.agrees);
        },
      )
      | inr apart ↦ (
        rest,
        record {
          made = rw (above, r.made, apart) refl;
          has = λ name. elim (Bool-cases (bytes_eq entry.name name)) [
            | inl same ↦
                let unnamed : has_name name files ≡ false =
                  ap (λ n. has_name n files) (sym (bytes_eq→eq entry.name name same)) ∙ once in
                rw (same, above, apart)
                  (r.has name ∙ ap (listed_in path) (has_name-not_found name files unnamed))
            | inr other ↦ rw other (r.has name)
          ];
          empty = rw (above, apart) r.empty;
          agrees = r.agrees;
        },
      )
    ]

-- An entry that is found by its name in some files is found with another before them.
found_behind :
    (entry : FileEntry) (files rest : List FileEntry)
    → has_name entry.name rest ≡ false
    → All (λ (e : FileEntry). find_entry e.name files ≡ some e) rest
    → All (λ (e : FileEntry). find_entry e.name (entry ∷ files) ≡ some e) rest
unfolding find_entry has_name
found_behind entry files [] once found = tt
found_behind entry files (other ∷ rest) once (here, found) =
    elim (Bool-cases (bytes_eq other.name entry.name)) [
      | inl same ↦ let wrong = rw same at once in absurd cc
      | inr apart ↦ (
        rw (bytes_eq_sym entry.name other.name ∙ apart) here,
        found_behind entry files rest (rw apart at once) found,
      )
    ]

found_by_name :
    (files : List FileEntry)
    → HasDistinctNames files
    → All (λ (e : FileEntry). find_entry e.name files ≡ some e) files
unfolding find_entry
found_by_name [] d = tt
found_by_name (entry ∷ files) (once, d) = (
  rw (bytes_eq_refl entry.name) refl,
  found_behind entry files files once (found_by_name files d),
)

not_root : (path : Text) → is_invalid_path path ≡ false → bytes_eq path root ≡ false
unfolding is_invalid_path
not_root path h = elim (Bool-cases (bytes_eq path root)) [
  | inl same ↦
      let wrong : is_invalid_path root ≡ false =
        ap is_invalid_path (sym (bytes_eq→eq path root same)) ∙ h in
      absurd cc
  | inr other ↦ other
]

known_metadata :
    (fs : CodexFs) (tree files : List FileEntry)
    → AllPlaced tree files
    → All (λ (e : FileEntry). find_entry e.name fs.files ≡ some e) files
    → All (λ (e : FileEntry). metadata fs e.name ≡ ok (metadata_of e)) files
unfolding metadata validate_path
known_metadata fs tree [] placed found = tt
known_metadata fs tree (entry ∷ files) (here, placed) (same, found) = (
  rw (not_root entry.name here.valid, here.valid, same) refl,
  known_metadata fs tree files placed found,
)

found_valid :
    (tree files : List FileEntry) (name : Text) (entry : FileEntry)
    → AllPlaced tree files
    → find_entry name files ≡ some entry
    → is_invalid_path name ≡ false
unfolding find_entry
found_valid tree [] name entry placed h = absurd cc
found_valid tree (other ∷ files) name entry (here, placed) h =
    elim (Bool-cases (bytes_eq other.name name)) [
      | inl same ↦ ap is_invalid_path (sym (bytes_eq→eq other.name name same)) ∙ here.valid
      | inr apart ↦ found_valid tree files name entry placed (rw apart at h)
    ]

-- The root, or a directory of the files.
abbrev pub IsListable : List FileEntry → Text → Type 0
IsListable files path =
    (bytes_eq path root ≡ true)
    ⊎ ((d : FileEntry) × ((find_entry path files ≡ some d) × (is_directory_kind d.kind ≡ true)))

-- In a filesystem whose files form a tree of distinct names, the root and every directory can be listed.
-- Under each name the listing has the description of the entry of that name, where there is one whose
-- parent is the directory, and nothing else; it agrees with `metadata` on all that it lists; and the
-- check of `remove_dir` finds the directory empty exactly when nothing is listed.
pub list_dir-lists :
    (fs : CodexFs) (path : Text)
    → IsTree fs.files
    → HasDistinctNames fs.files
    → IsListable fs.files path
    → (listed : List DirectoryEntry) × ((list_dir fs path ≡ ok listed)
        × (((name : Text) → find_listed name listed ≡ listed_in path (find_entry name fs.files))
            × ((refuse_children path fs.files
                  ≡ fail_if (not (lists_nothing listed)) directory_not_empty)
                × All (λ (d : DirectoryEntry). metadata fs d.path ≡ ok (as_metadata d)) listed)))
unfolding list_dir check_listed validate_path
list_dir-lists fs path tree d able =
    let known = known_metadata fs fs.files fs.files tree.each (found_by_name fs.files d) in
    let (listed, l) = children fs path fs.files fs.files tree.each d known in
    let may : (if bytes_eq path root then ok tt else check_listed fs.files path) ≡ ok tt =
      elim able [
        | inl top ↦ rw top refl
        | inr (e, (found, kind)) ↦ elim (Bool-cases (bytes_eq path root)) [
          | inl top ↦ rw top refl
          | inr below ↦
              rw (below, found_valid fs.files fs.files path e tree.each found, found, kind) refl
        ]
      ] in
    (listed, (rw may l.made, (l.has, (l.empty, l.agrees))))
