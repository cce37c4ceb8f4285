-- ===== src/Fs/Listing.antt =====
-- What kernel/src/fs.rs tells of its files: `info`, `metadata` and `list_dir`.
pub mod Children
use codex_os.Prelude.{
  ℕ, zero, suc, ◌*◌, List, [], ◌∷◌, Bool, not, length, drop, Option, none, some, if◌then◌else◌,
}
use codex_os.Prelude.Results.{Result, ok, ◌>>=◌, ◌>>◌, fail_if, ok_or}
use codex_os.Bytes.{bytes_eq}
use codex_os.Fs.{
  Text, FsError, FileEntry, EntryKind, directory, not_directory, not_found, sector_size,
}
use codex_os.Fs.FilePath.{
  root, rfind_slash, validate_path, parent_path, find_entry, is_directory_kind,
}
use codex_os.Fs.Tree.{default_directory_permissions}
use codex_os.Fs.Commit.{CodexFs, MountState}

pub record FilesystemInfo : Type 0 where
  pub generation : ℕ
  pub file_count : ℕ
  pub directory_count : ℕ
  pub capacity_sectors : ℕ
  pub record_slots : ℕ
  pub record_slot_sectors : ℕ
  pub active_record_start : ℕ
  pub active_record_sectors : ℕ
  pub max_record_bytes : ℕ
  pub mount_state : MountState

pub record Metadata : Type 0 where
  pub path : Text
  pub kind : EntryKind
  pub permissions : ℕ
  pub size : ℕ

pub record DirectoryEntry : Type 0 where
  pub path : Text
  pub name : Text
  pub kind : EntryKind
  pub permissions : ℕ
  pub size : ℕ

-- How many entries pass a test of their kind.
unfoldable pub count_kind : (EntryKind → Bool) → List FileEntry → ℕ
count_kind is_kind [] = 0
count_kind is_kind (entry ∷ entries) =
    let rest = count_kind is_kind entries in if is_kind entry.kind then suc rest else rest

unfoldable pub info : CodexFs → FilesystemInfo
info fs = record {
  generation = fs.generation;
  file_count = count_kind (λ kind. not (is_directory_kind kind)) fs.files;
  directory_count = count_kind is_directory_kind fs.files;
  capacity_sectors = fs.device.sector_count;
  record_slots = fs.record_slots;
  record_slot_sectors = fs.record_slot_sectors;
  active_record_start = fs.active_record_start;
  active_record_sectors = fs.active_record_sectors;
  max_record_bytes = fs.record_slot_sectors * sector_size;
  mount_state = fs.mount_state;
}

abbrev pub metadata_of : FileEntry → Metadata
metadata_of entry = record {
  path = entry.name;
  kind = entry.kind;
  permissions = entry.permissions;
  size = length entry.contents;
}

abbrev root_metadata : Metadata
root_metadata = record {
  path = root;
  kind = directory;
  permissions = default_directory_permissions;
  size = 0;
}

-- The metadata of a path other than the root.
abbrev pub entry_metadata : List FileEntry → Text → Result FsError Metadata
entry_metadata files path = do
  validate_path path
  entry ← ok_or (find_entry path files) not_found
  ok (metadata_of entry)

unfoldable pub metadata : CodexFs → Text → Result FsError Metadata
metadata fs path = if bytes_eq path root then ok root_metadata else entry_metadata fs.files path

-- `path.rsplit('/').next()`: what stands behind the last slash.
unfoldable pub leaf_name : Text → Text
leaf_name path = elim (rfind_slash path) [ none ↦ path | some index ↦ drop (suc index) path ]

abbrev pub describe : FileEntry → DirectoryEntry
describe entry = record {
  path = entry.name;
  name = leaf_name entry.name;
  kind = entry.kind;
  permissions = entry.permissions;
  size = length entry.contents;
}

-- The loop over the entries.
unfoldable pub list_children : Text → List FileEntry → Result FsError (List DirectoryEntry)
list_children path [] = ok []
list_children path (entry ∷ files) = do
  parent ← parent_path entry.name
  rest ← list_children path files
  if bytes_eq parent path then ok (describe entry ∷ rest) else ok rest

-- The checks of the path that is listed.
unfoldable pub check_listed : List FileEntry → Text → Result FsError (Unit {0})
check_listed files path = do
  validate_path path
  entry ← ok_or (find_entry path files) not_found
  fail_if (not (is_directory_kind entry.kind)) not_directory

unfoldable pub list_dir : CodexFs → Text → Result FsError (List DirectoryEntry)
list_dir fs path =
    (if bytes_eq path root then ok tt else check_listed fs.files path)
    >> list_children path fs.files
