-- ===== src/Fs/Changes.antt =====
-- The operations of kernel/src/fs.rs on the files, and the check of what was committed.
pub mod Placed
pub mod Trees
pub mod Failures
pub mod Stored
pub mod Compared
pub mod Remounts
pub mod Recordable
pub mod Atomic
pub mod Runs
pub mod Contents
pub mod Reads
use codex_os.Prelude.{
  ℕ, ◌+◌, ◌==◌, List, [], ◌∷◌, ◌++◌, Bool, true, false, not, ◌&&◌, ◌||◌, drop, Option, none, some,
  bit_and, if◌then◌else◌,
}
use codex_os.Prelude.Results.{Result, ok, err, ◌>>=◌, ◌>>◌, fail_if, ok_or}
use codex_os.Bytes.{bytes_eq}
use codex_os.Fs.{
  Text, FsError, FileEntry, EntryKind, file, directory, not_directory, verification_failed,
}
use codex_os.Fs.FilePath.{
  slash, split, validate_path, validate_permissions, find_entry, is_directory_kind,
}
use codex_os.Fs.Device.{Device, LoadedSnapshot, flush, load_latest_snapshot}
use codex_os.Fs.Commit.{CodexFs, commit_files}
use codex_os.Fs.Tree.{
  default_directory_permissions, insert_directory, materialize_missing_parent_directories,
  tree_with_directory, tree_with_file, tree_with_permissions, tree_without_directory,
  tree_without_file,
}

abbrev pub same_kind : EntryKind → EntryKind → Bool
same_kind file file = true
same_kind file directory = false
same_kind directory file = false
same_kind directory directory = true

abbrev pub entry_eq : FileEntry → FileEntry → Bool
entry_eq left right =
    bytes_eq left.name right.name
    && (bytes_eq left.contents right.contents
        && (same_kind left.kind right.kind && (left.permissions == right.permissions)))

-- `next != self.files`, without the negation.
unfoldable pub files_eq : List FileEntry → List FileEntry → Bool
files_eq [] [] = true
files_eq [] (y ∷ right) = false
files_eq (x ∷ left) [] = false
files_eq (x ∷ left) (y ∷ right) = entry_eq x y && files_eq left right

abbrev pub keep_files :
    List FileEntry → CodexFs × Result FsError (Unit {0}) → CodexFs × Result FsError (Unit {0})
keep_files next (fs, ok u) = (record fs { files = next }, ok tt)
keep_files next (fs, err e) = (fs, err e)

-- `self.commit_files(&next)?; self.files = next;` with the tree that an operation makes.
unfoldable pub commit_next :
    CodexFs → Result FsError (List FileEntry) → CodexFs × Result FsError (Unit {0})
commit_next fs (err e) = (fs, err e)
commit_next fs (ok next) = keep_files next (commit_files fs next)

-- The same where a tree that is as before is not committed.
unfoldable pub commit_changed :
    CodexFs → Result FsError (List FileEntry) → CodexFs × Result FsError (Unit {0})
commit_changed fs (err e) = (fs, err e)
commit_changed fs (ok next) =
    let committed = keep_files next (commit_files fs next) in
    if files_eq next fs.files then (fs, ok tt) else committed

unfoldable pub write_file_inner :
    CodexFs → Text → List ℕ → Option ℕ → CodexFs × Result FsError (Unit {0})
write_file_inner fs path contents permissions =
    commit_next fs (tree_with_file fs.files path contents permissions)

unfoldable pub write_file : CodexFs → Text → List ℕ → CodexFs × Result FsError (Unit {0})
write_file fs path contents = write_file_inner fs path contents none

unfoldable pub write_file_with_permissions :
    CodexFs → Text → List ℕ → ℕ → CodexFs × Result FsError (Unit {0})
write_file_with_permissions fs path contents permissions =
    commit_next fs
      (validate_permissions permissions >> tree_with_file fs.files path contents (some permissions))

unfoldable pub create_dir : CodexFs → Text → ℕ → CodexFs × Result FsError (Unit {0})
create_dir fs path permissions = commit_changed fs (tree_with_directory fs.files path permissions)

-- One turn of the loop over the components, at the path up to the component.
abbrev pub create_component :
    Text → ℕ → List FileEntry → Text → Option FileEntry → Result FsError (List FileEntry)
create_component path permissions next current (some existing) =
    fail_if (not (is_directory_kind existing.kind)) not_directory >> ok next
create_component path permissions next current none =
    insert_directory next current
      (if bytes_eq current path then permissions else default_directory_permissions)

unfoldable pub create_components :
    Text → ℕ → List FileEntry → Text → List Text → Result FsError (List FileEntry)
create_components path permissions next current [] = ok next
create_components path permissions next current (component ∷ components) = do
  let longer = current ++ slash ∷ component
  made ← create_component path permissions next longer (find_entry longer next)
  create_components path permissions made longer components

unfoldable pub tree_with_directories : List FileEntry → Text → ℕ → Result FsError (List FileEntry)
tree_with_directories files path permissions = do
  validate_path path
  validate_permissions permissions
  next ← create_components path permissions files [] (drop 1 (split path))
  materialize_missing_parent_directories next

unfoldable pub create_dir_all : CodexFs → Text → ℕ → CodexFs × Result FsError (Unit {0})
create_dir_all fs path permissions =
    commit_changed fs (tree_with_directories fs.files path permissions)

unfoldable pub set_permissions : CodexFs → Text → ℕ → CodexFs × Result FsError (Unit {0})
set_permissions fs path permissions =
    commit_changed fs (tree_with_permissions fs.files path permissions)

unfoldable pub remove_file : CodexFs → Text → CodexFs × Result FsError (Unit {0})
remove_file fs path = commit_next fs (tree_without_file fs.files path)

unfoldable pub remove_dir : CodexFs → Text → CodexFs × Result FsError (Unit {0})
remove_dir fs path = commit_next fs (tree_without_directory fs.files path)

-- OWNER_READ.
abbrev pub owner_read : ℕ
owner_read = 0x100

abbrev pub is_readable : Text → FileEntry → Bool
is_readable path entry =
    bytes_eq entry.name path
    && (not (is_directory_kind entry.kind) && not (bit_and entry.permissions owner_read == 0))

unfoldable pub find_readable : Text → List FileEntry → Option (List ℕ)
find_readable path [] = none
find_readable path (entry ∷ entries) =
    let rest = find_readable path entries in
    if is_readable path entry then some entry.contents else rest

unfoldable pub read_file : CodexFs → Text → Option (List ℕ)
read_file fs path = find_readable path fs.files

unfoldable pub verify_loaded : CodexFs → LoadedSnapshot → Result FsError CodexFs
verify_loaded fs loaded = do
  fail_if
      (not (loaded.superblock.generation == fs.generation) || not (files_eq loaded.files fs.files))
      verification_failed
  ok (record fs {
    active_record_start = loaded.superblock.record_start;
    active_record_sectors = loaded.superblock.record_sectors;
  })

unfoldable pub verify_committed_state : CodexFs → Result FsError CodexFs
verify_committed_state fs = do
  snapshot ← load_latest_snapshot fs.device
  loaded ← ok_or snapshot verification_failed
  verify_loaded fs loaded

unfoldable pub unmount : CodexFs → Device × Result FsError (Unit {0})
unmount fs = flush fs.device
