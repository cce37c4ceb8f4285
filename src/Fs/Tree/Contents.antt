-- ===== src/Fs/Tree/Contents.antt =====
-- The files that the trees of the operations of kernel/src/fs.rs show.
use codex_os.Prelude.{
  ℕ, ◌==◌, ◌≡◌, refl, sym, ap, ◌∙◌, List, not, Option, none, some, bit_and, if◌then◌else◌,
}
use codex_os.Prelude.Results.{ok, bind-passed, fail_if-passed, ok_or, ok_or-passed}
use codex_os.Fs.{
  Text, FileEntry, EntryKind, file, directory, is_directory, not_directory, not_found,
  permission_denied,
}
use codex_os.Fs.FilePath.{
  ensure_parent_directory, find_entry, is_directory_kind, owner_write, validate_path,
  validate_permissions,
}
use codex_os.Fs.Tree.{
  change_entry, insert_directory, place_file, refuse_children, remove_entry, tree_with_directory,
  tree_with_file, tree_with_permissions, tree_without_directory, tree_without_file,
}
use codex_os.Fs.Tree.Shows.{
  Shows, View, change_entry-Shows, put, put_same-Shows, remove_entry-Shows, stored,
}
use codex_os.Fs.Tree.Shown.{
  insert_directory-Shows, materialize-Shows, no_file, place_file-Shows, put_file, seen,
  with_permissions,
}

pub tree_with_file-Shows :
    (v : View) (files : List FileEntry) (path : Text) (contents : List ℕ) (permissions : Option ℕ)
    (next : List FileEntry)
    → tree_with_file files path contents permissions ≡ ok next
    → Shows v files
    → Shows (put_file path contents permissions v) next
unfolding tree_with_file
tree_with_file-Shows v files path contents permissions next h s =
    let (u, (e1, h1)) = bind-passed (validate_path path) _ next h in
    let (w, (e2, h2)) = bind-passed (ensure_parent_directory files path) _ next h1 in
    let (placed, (e3, h3)) =
      bind-passed (place_file files path contents permissions (find_entry path files)) _ next h2 in
    materialize-Shows (put_file path contents permissions v) placed next h3
      (place_file-Shows v files path contents permissions (find_entry path files) placed refl e3 s)

pub tree_with_directory-Shows :
    (v : View) (files : List FileEntry) (path : Text) (permissions : ℕ) (next : List FileEntry)
    → tree_with_directory files path permissions ≡ ok next
    → Shows v files
    → Shows v next
unfolding tree_with_directory
tree_with_directory-Shows v files path permissions next h s =
    let (u, (e1, h1)) = bind-passed (validate_path path) _ next h in
    let (w, (e2, h2)) = bind-passed (validate_permissions permissions) _ next h1 in
    let (made, (e3, h3)) = bind-passed (insert_directory files path permissions) _ next h2 in
    materialize-Shows v made next h3 (insert_directory-Shows v files path permissions made e3 s)

pub tree_with_permissions-Shows :
    (v : View) (files : List FileEntry) (path : Text) (permissions : ℕ) (next : List FileEntry)
    → tree_with_permissions files path permissions ≡ ok next
    → Shows v files
    → Shows (put path (with_permissions permissions (v path)) v) next
unfolding tree_with_permissions
tree_with_permissions-Shows v files path permissions next h s =
    let (u, (e1, h1)) = bind-passed (validate_path path) _ next h in
    let (w, (e2, h2)) = bind-passed (validate_permissions permissions) _ next h1 in
    let (existing, (e3, h3)) = bind-passed (ok_or (find_entry path files) not_found) _ next h2 in
    let found = ok_or-passed (find_entry path files) not_found existing e3 in
    let change : FileEntry → FileEntry = λ entry. record entry { permissions = permissions } in
    let made : stored (some (change existing)) ≡ with_permissions permissions (v path) =
      changed existing.kind existing.contents existing.permissions
      ∙ ap (with_permissions permissions) (seen v path files (some existing) found s) in
    materialize-Shows (put path (with_permissions permissions (v path)) v)
      (change_entry path change files) next h3
      (coe 0 1 (i. Shows (put path (made i) v) (change_entry path change files))
        (change_entry-Shows v path change files existing (λ entry. refl) found s))
  where
    changed :
        (kind : EntryKind) (contents : List ℕ) (before : ℕ)
        → (if is_directory_kind kind then none else some (contents, permissions))
          ≡ with_permissions permissions
              (if is_directory_kind kind then none else some (contents, before))
    changed file contents before = refl
    changed directory contents before = refl

pub tree_without_file-Shows :
    (v : View) (files : List FileEntry) (path : Text) (next : List FileEntry)
    → tree_without_file files path ≡ ok next
    → Shows v files
    → Shows (put path none v) next
unfolding tree_without_file
tree_without_file-Shows v files path next h s =
    let (u, (e1, h1)) = bind-passed (validate_path path) _ next h in
    let (existing, (e2, h2)) = bind-passed (ok_or (find_entry path files) not_found) _ next h1 in
    let (kind, h3) = fail_if-passed (is_directory_kind existing.kind) is_directory _ next h2 in
    let (writable, h4) =
      fail_if-passed (bit_and existing.permissions owner_write == 0) permission_denied _ next h3 in
    materialize-Shows (put path none v) (remove_entry path files) next h4
      (remove_entry-Shows v path files s)

pub tree_without_directory-Shows :
    (v : View) (files : List FileEntry) (path : Text) (next : List FileEntry)
    → tree_without_directory files path ≡ ok next
    → Shows v files
    → Shows v next
unfolding tree_without_directory
tree_without_directory-Shows v files path next h s =
    let (u, (e1, h1)) = bind-passed (validate_path path) _ next h in
    let (existing, (e2, h2)) = bind-passed (ok_or (find_entry path files) not_found) _ next h1 in
    let (kind, h3) =
      fail_if-passed (not (is_directory_kind existing.kind)) not_directory _ next h2 in
    let (writable, h4) =
      fail_if-passed (bit_and existing.permissions owner_write == 0) permission_denied _ next h3 in
    let (w, (e5, h5)) = bind-passed (refuse_children path files) _ next h4 in
    let found = ok_or-passed (find_entry path files) not_found existing e2 in
    let none_there : none ≡ v path =
      sym (no_file existing kind) ∙ seen v path files (some existing) found s in
    materialize-Shows v (remove_entry path files) next h5 (
      put_same-Shows path none v (remove_entry path files) none_there
        (remove_entry-Shows v path files s))
