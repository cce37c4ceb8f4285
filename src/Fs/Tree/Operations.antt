-- ===== src/Fs/Tree/Operations.antt =====
-- The trees of the operations of kernel/src/fs.rs can be recorded.
use codex_os.Prelude.{ℕ, ◌≤◌, ◌≡◌, refl, ◌==◌, List, not, Option, bit_and}
use codex_os.Prelude.Results.{ok, bind-passed, fail_if-passed, ok_or}
use codex_os.Fs.{Text, FileEntry, is_directory, not_directory, not_found, permission_denied}
use codex_os.Fs.FilePath.{
  validate_path, validate_permissions, ensure_parent_directory, find_entry, is_directory_kind,
  owner_write,
}
use codex_os.Fs.FileRecord.RoundTrip.{IsRecordable}
use codex_os.Fs.Tree.{
  change_entry, insert_directory, place_file, refuse_children, remove_entry, tree_with_directory,
  tree_with_file, tree_with_permissions, tree_without_directory, tree_without_file,
}
use codex_os.Fs.Tree.Texts.{IsText}
use codex_os.Fs.Tree.Recordable.{
  IsWord, change_entry-IsRecordable, insert_directory-IsRecordable, materialize-IsRecordable,
  place_file-IsRecordable, remove_entry-IsRecordable,
}

pub tree_with_file-IsRecordable :
    (files : List FileEntry) (path : Text) (contents : List ℕ) (permissions : Option ℕ)
    (next : List FileEntry)
    → IsText path
    → IsWord permissions
    → tree_with_file files path contents permissions ≡ ok next
    → IsRecordable files
    → IsRecordable next
unfolding tree_with_file
tree_with_file-IsRecordable files path contents permissions next t w h r =
    let (u, (e1, h1)) = bind-passed (validate_path path) _ next h in
    let (v, (e2, h2)) = bind-passed (ensure_parent_directory files path) _ next h1 in
    let (placed, (e3, h3)) =
      bind-passed (place_file files path contents permissions (find_entry path files)) _ next h2 in
    materialize-IsRecordable placed next h3 (
      place_file-IsRecordable files path contents permissions (find_entry path files) placed refl t
        w e3 r)

pub tree_with_directory-IsRecordable :
    (files : List FileEntry) (path : Text) (permissions : ℕ) (next : List FileEntry)
    → IsText path
    → permissions ≤ 65535
    → tree_with_directory files path permissions ≡ ok next
    → IsRecordable files
    → IsRecordable next
unfolding tree_with_directory
tree_with_directory-IsRecordable files path permissions next t low h r =
    let (u, (e1, h1)) = bind-passed (validate_path path) _ next h in
    let (v, (e2, h2)) = bind-passed (validate_permissions permissions) _ next h1 in
    let (made, (e3, h3)) = bind-passed (insert_directory files path permissions) _ next h2 in
    materialize-IsRecordable made next h3
      (insert_directory-IsRecordable files path permissions made t low e3 r)

pub tree_with_permissions-IsRecordable :
    (files : List FileEntry) (path : Text) (permissions : ℕ) (next : List FileEntry)
    → permissions ≤ 65535
    → tree_with_permissions files path permissions ≡ ok next
    → IsRecordable files
    → IsRecordable next
unfolding tree_with_permissions
tree_with_permissions-IsRecordable files path permissions next low h r =
    let (u, (e1, h1)) = bind-passed (validate_path path) _ next h in
    let (v, (e2, h2)) = bind-passed (validate_permissions permissions) _ next h1 in
    let (existing, (e3, h3)) = bind-passed (ok_or (find_entry path files) not_found) _ next h2 in
    let change : FileEntry → FileEntry = λ entry. record entry { permissions = permissions } in
    materialize-IsRecordable (change_entry path change files) next h3 (
      change_entry-IsRecordable path change files (λ entry. refl)
        (λ entry s. record { text = s.text; word = low }) r)

pub tree_without_file-IsRecordable :
    (files : List FileEntry) (path : Text) (next : List FileEntry)
    → tree_without_file files path ≡ ok next
    → IsRecordable files
    → IsRecordable next
unfolding tree_without_file
tree_without_file-IsRecordable files path next h r =
    let (u, (e1, h1)) = bind-passed (validate_path path) _ next h in
    let (existing, (e2, h2)) = bind-passed (ok_or (find_entry path files) not_found) _ next h1 in
    let (kind, h3) = fail_if-passed (is_directory_kind existing.kind) is_directory _ next h2 in
    let (writable, h4) =
      fail_if-passed (bit_and existing.permissions owner_write == 0) permission_denied _ next h3 in
    materialize-IsRecordable (remove_entry path files) next h4
      (remove_entry-IsRecordable path files r)

pub tree_without_directory-IsRecordable :
    (files : List FileEntry) (path : Text) (next : List FileEntry)
    → tree_without_directory files path ≡ ok next
    → IsRecordable files
    → IsRecordable next
unfolding tree_without_directory
tree_without_directory-IsRecordable files path next h r =
    let (u, (e1, h1)) = bind-passed (validate_path path) _ next h in
    let (existing, (e2, h2)) = bind-passed (ok_or (find_entry path files) not_found) _ next h1 in
    let (kind, h3) =
      fail_if-passed (not (is_directory_kind existing.kind)) not_directory _ next h2 in
    let (writable, h4) =
      fail_if-passed (bit_and existing.permissions owner_write == 0) permission_denied _ next h3 in
    let (v, (e5, h5)) = bind-passed (refuse_children path files) _ next h4 in
    materialize-IsRecordable (remove_entry path files) next h5
      (remove_entry-IsRecordable path files r)
