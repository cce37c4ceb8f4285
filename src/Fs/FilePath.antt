-- ===== src/Fs/FilePath.antt =====
-- The paths of kernel/src/fs.rs.
use codex_os.Prelude.{
  ℕ, suc, ◌==◌, ltb, List, [], ◌∷◌, Bool, true, false, not, ◌&&◌, ◌||◌, any, length, take, drop,
  Option, none, some, bit_and, if◌then◌else◌,
}
use codex_os.Prelude.Results.{Result, ok, ◌>>=◌, ◌>>◌, fail_if, ok_or}
use codex_os.Bytes.{bytes_eq}
use codex_os.Fs.{
  Text, FsError, FileEntry, EntryKind, file, directory, max_path_bytes, invalid_path,
  invalid_permissions, corrupt_record, permission_denied, parent_missing, not_directory,
}

-- '/'.
abbrev pub slash : ℕ
slash = 0x2f

abbrev pub root : Text
root = slash ∷ []

abbrev pub push_byte : ℕ → List Text → List Text
push_byte b [] = (b ∷ []) ∷ []
push_byte b (part ∷ parts) = (b ∷ part) ∷ parts

-- `path.split('/')`.
unfoldable pub split : Text → List Text
split [] = [] ∷ []
split (b ∷ path) = let rest = split path in if b == slash then [] ∷ rest else push_byte b rest

abbrev pub starts_with_slash : Text → Bool
starts_with_slash [] = false
starts_with_slash (b ∷ path) = b == slash

abbrev ends_with_slash : Text → Bool
ends_with_slash [] = false
ends_with_slash (b ∷ []) = b == slash
ends_with_slash (b ∷ c ∷ path) = ends_with_slash (c ∷ path)

-- Empty, "." or "..".
abbrev is_special : Text → Bool
is_special component =
    length component == 0
    || (bytes_eq component (0x2e ∷ []) || bytes_eq component (0x2e ∷ 0x2e ∷ []))

-- `path.rfind('/')`.
unfoldable pub rfind_slash : Text → Option ℕ
rfind_slash [] = none
rfind_slash (b ∷ path) = elim (rfind_slash path) [
  | some index ↦ some (suc index)
  | none ↦ if b == slash then some 0 else none
]

unfoldable pub is_invalid_path : Text → Bool
is_invalid_path path =
    ltb (length path) 2
    || (ltb max_path_bytes (length path)
        || (not (starts_with_slash path)
            || (ends_with_slash path
                || (any (λ byte. byte == 0 || ltb byte 0x20) path
                    || any is_special (drop 1 (split path))))))

unfoldable pub validate_path : Text → Result FsError (Unit {0})
validate_path path = fail_if (is_invalid_path path) invalid_path

-- `permissions & !0o777 != 0` on 16 bits.
unfoldable pub validate_permissions : ℕ → Result FsError (Unit {0})
validate_permissions permissions =
    fail_if (not (bit_and permissions 0xfe00 == 0)) invalid_permissions

unfoldable pub parent_path : Text → Result FsError Text
parent_path path = do
  fail_if (bytes_eq path root) invalid_path
  validate_path path
  index ← ok_or (rfind_slash path) invalid_path
  if index == 0 then ok root else ok (take index path)

unfoldable pub find_entry : Text → List FileEntry → Option FileEntry
find_entry name [] = none
find_entry name (entry ∷ entries) =
    let rest = find_entry name entries in if bytes_eq entry.name name then some entry else rest

abbrev pub is_directory_kind : EntryKind → Bool
is_directory_kind file = false
is_directory_kind directory = true

-- OWNER_EXECUTE and OWNER_WRITE.
abbrev pub owner_execute : ℕ
owner_execute = 0x40

abbrev pub owner_write : ℕ
owner_write = 0x80

-- The checks of the entry that a path names as its parent.
unfoldable pub check_parent : List FileEntry → Text → Result FsError (Unit {0})
check_parent entries parent = do
  entry ← ok_or (find_entry parent entries) parent_missing
  fail_if (not (is_directory_kind entry.kind)) not_directory
  fail_if
      (bit_and entry.permissions owner_execute == 0 || (bit_and entry.permissions owner_write == 0))
      permission_denied

unfoldable pub ensure_parent_directory : List FileEntry → Text → Result FsError (Unit {0})
ensure_parent_directory entries path = do
  parent ← parent_path path
  if bytes_eq parent root then ok tt else check_parent entries parent

unfoldable pub validate_entry : List FileEntry → Bool → FileEntry → Result FsError (Unit {0})
validate_entry files require_directories entry = do
  validate_path entry.name
  validate_permissions entry.permissions
  fail_if (is_directory_kind entry.kind && not (length entry.contents == 0)) corrupt_record
  fail_if (is_directory_kind entry.kind && (bit_and entry.permissions owner_execute == 0))
      permission_denied
  if require_directories then ensure_parent_directory files entry.name else ok tt

-- The loop over the rest of the files.
unfoldable pub validate_entries : List FileEntry → Bool → List FileEntry → Result FsError (Unit {0})
validate_entries files require_directories [] = ok tt
validate_entries files require_directories (entry ∷ rest) = do
  validate_entry files require_directories entry
  validate_entries files require_directories rest

abbrev pub validate_tree : List FileEntry → Bool → Result FsError (Unit {0})
validate_tree files require_directories = validate_entries files require_directories files
