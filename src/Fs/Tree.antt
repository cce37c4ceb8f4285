-- ===== src/Fs/Tree.antt =====
-- The trees of files that the operations of kernel/src/fs.rs commit: each function gives the tree
-- `next` that an operation makes from the one before.
pub mod Fuel
pub mod Names
pub mod Lookup
pub mod Shows
pub mod Shown
pub mod Contents
pub mod Texts
pub mod Recordable
pub mod Operations
use codex_os.Prelude.{
  ℕ, zero, suc, ◌+◌, ◌==◌, ltb, leb, List, [], ◌∷◌, ◌++◌, Bool, true, false, not, ◌&&◌, ◌||◌, any,
  length, drop, Option, none, some, bit_and, if◌then◌else◌,
}
use codex_os.Prelude.Results.{Result, ok, err, ◌>>=◌, ◌>>◌, fail_if, ok_or}
use codex_os.Bytes.{bytes_eq}
use codex_os.Fs.{
  Text, FsError, FileEntry, EntryKind, file, directory, max_files, too_many_files, is_directory,
  not_directory, not_found, permission_denied, directory_not_empty,
}
use codex_os.Fs.FilePath.{
  root, slash, split, validate_path, validate_permissions, parent_path, find_entry,
  is_directory_kind, owner_write, ensure_parent_directory,
}
use codex_os.Fs.FileRecord.{default_file_permissions}

-- 0o755.
abbrev pub default_directory_permissions : ℕ
default_directory_permissions = 0x1ed

-- The order of strings, byte by byte.
unfoldable pub text_leb : Text → Text → Bool
text_leb [] right = true
text_leb (x ∷ left) [] = false
text_leb (x ∷ left) (y ∷ right) = ltb x y || (x == y && text_leb left right)

-- `sort_unstable`: which equal ones come first makes no difference, since names are unique.
unfoldable pub insert_by {ℓ} : {A : Type ℓ} → (A → A → Bool) → A → List A → List A
insert_by le x [] = x ∷ []
insert_by le x (y ∷ rest) =
    let behind = y ∷ insert_by le x rest in if le x y then x ∷ y ∷ rest else behind

unfoldable pub sort_by {ℓ} : {A : Type ℓ} → (A → A → Bool) → List A → List A
sort_by le [] = []
sort_by le (x ∷ rest) = insert_by le x (sort_by le rest)

abbrev pub sort_entries : List FileEntry → List FileEntry
sort_entries entries = sort_by (λ left right. text_leb left.name right.name) entries

abbrev pub directory_entry : Text → ℕ → FileEntry
directory_entry path permissions = record {
  name = path;
  contents = [];
  kind = directory;
  permissions = permissions;
}

-- The loop over the parents of a path, which adds those that are not in the list; each parent is
-- shorter than its path, whose length is the fuel.
unfoldable pub require_parents : ℕ → Text → List Text → Result FsError (List Text)
require_parents zero parent required = ok required
require_parents (suc fuel) parent required =
    if bytes_eq parent root
    then ok required
    else (parent_path parent >>= λ above.
        require_parents fuel above (
          if any (λ path. bytes_eq path parent) required
          then required
          else required ++ parent ∷ []))

unfoldable pub required_directories : List FileEntry → List Text → Result FsError (List Text)
required_directories [] required = ok required
required_directories (entry ∷ entries) required = do
  parent ← parent_path entry.name
  more ← require_parents (length entry.name) parent required
  required_directories entries more

unfoldable pub add_directory :
    Text → List FileEntry → Option FileEntry → Result FsError (List FileEntry)
add_directory path entries (some existing) =
    fail_if (not (is_directory_kind existing.kind)) not_directory >> ok entries
add_directory path entries none =
    fail_if (leb max_files (length entries)) too_many_files
    >> ok (entries ++ directory_entry path default_directory_permissions ∷ [])

unfoldable pub add_directories : List Text → List FileEntry → Result FsError (List FileEntry)
add_directories [] entries = ok entries
add_directories (path ∷ paths) entries = do
  next ← add_directory path entries (find_entry path entries)
  add_directories paths next

unfoldable pub materialize_missing_parent_directories :
    List FileEntry → Result FsError (List FileEntry)
materialize_missing_parent_directories entries = do
  required ← required_directories entries []
  complete ← add_directories (sort_by text_leb required) entries
  ok (sort_entries complete)

-- The first entry of the name, changed.
unfoldable pub change_entry : Text → (FileEntry → FileEntry) → List FileEntry → List FileEntry
change_entry name change [] = []
change_entry name change (entry ∷ entries) =
    let rest = change_entry name change entries in
    if bytes_eq entry.name name then change entry ∷ entries else entry ∷ rest

-- The entries without the first one of the name.
unfoldable pub remove_entry : Text → List FileEntry → List FileEntry
remove_entry name [] = []
remove_entry name (entry ∷ entries) =
    let rest = remove_entry name entries in
    if bytes_eq entry.name name then entries else entry ∷ rest

abbrev pub place_directory :
    List FileEntry → Text → ℕ → Option FileEntry → Result FsError (List FileEntry)
place_directory entries path permissions (some existing) =
    fail_if (not (is_directory_kind existing.kind)) not_directory
    >> ok (change_entry path (λ entry. record entry { permissions = permissions }) entries)
place_directory entries path permissions none =
    fail_if (leb max_files (length entries)) too_many_files
    >> ok (sort_entries (entries ++ directory_entry path permissions ∷ []))

unfoldable pub insert_directory : List FileEntry → Text → ℕ → Result FsError (List FileEntry)
insert_directory entries path permissions = do
  ensure_parent_directory entries path
  place_directory entries path permissions (find_entry path entries)

abbrev pub or_default : ℕ → Option ℕ → ℕ
or_default given none = given
or_default given (some permissions) = permissions

abbrev pub place_file :
    List FileEntry → Text → List ℕ → Option ℕ → Option FileEntry → Result FsError (List FileEntry)
place_file files path contents permissions (some existing) = do
  fail_if (is_directory_kind existing.kind) is_directory
  fail_if (bit_and existing.permissions owner_write == 0) permission_denied
  ok (
      change_entry path
        (λ entry. record entry {
          contents = contents;
          permissions = or_default entry.permissions permissions;
        })
        files)
place_file files path contents permissions none = do
  fail_if (leb max_files (length files)) too_many_files
  ok (
      sort_entries (
        files
        ++ (record {
          name = path;
          contents = contents;
          kind = file;
          permissions = or_default default_file_permissions permissions;
        })
          ∷ []))

unfoldable pub tree_with_file :
    List FileEntry → Text → List ℕ → Option ℕ → Result FsError (List FileEntry)
tree_with_file files path contents permissions = do
  validate_path path
  ensure_parent_directory files path
  next ← place_file files path contents permissions (find_entry path files)
  materialize_missing_parent_directories next

unfoldable pub tree_with_directory : List FileEntry → Text → ℕ → Result FsError (List FileEntry)
tree_with_directory files path permissions = do
  validate_path path
  validate_permissions permissions
  next ← insert_directory files path permissions
  materialize_missing_parent_directories next

unfoldable pub tree_with_permissions : List FileEntry → Text → ℕ → Result FsError (List FileEntry)
tree_with_permissions files path permissions = do
  validate_path path
  validate_permissions permissions
  existing ← ok_or (find_entry path files) not_found
  materialize_missing_parent_directories
      (change_entry path (λ entry. record entry { permissions = permissions }) files)

unfoldable pub tree_without_file : List FileEntry → Text → Result FsError (List FileEntry)
tree_without_file files path = do
  validate_path path
  existing ← ok_or (find_entry path files) not_found
  fail_if (is_directory_kind existing.kind) is_directory
  fail_if (bit_and existing.permissions owner_write == 0) permission_denied
  materialize_missing_parent_directories (remove_entry path files)

-- The loop that looks for an entry in the directory.
unfoldable pub refuse_children : Text → List FileEntry → Result FsError (Unit {0})
refuse_children path [] = ok tt
refuse_children path (entry ∷ entries) = do
  parent ← parent_path entry.name
  fail_if (bytes_eq parent path) directory_not_empty
  refuse_children path entries

unfoldable pub tree_without_directory : List FileEntry → Text → Result FsError (List FileEntry)
tree_without_directory files path = do
  validate_path path
  existing ← ok_or (find_entry path files) not_found
  fail_if (not (is_directory_kind existing.kind)) not_directory
  fail_if (bit_and existing.permissions owner_write == 0) permission_denied
  refuse_children path files
  materialize_missing_parent_directories (remove_entry path files)
