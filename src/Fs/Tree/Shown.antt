-- ===== src/Fs/Tree/Shown.antt =====
-- The files that a tree of kernel/src/fs.rs shows once an entry is placed in it.
use codex_os.Prelude.{
  ℕ, ◌==◌, ◌≡◌, refl, sym, ap, ◌∙◌, List, [], ◌∷◌, ◌++◌, true, false, not, leb, length, Option,
  none, some, bit_and,
}
use codex_os.Prelude.Results.{ok, bind-passed, fail_if-passed}
use codex_os.Fs.{
  Text, FileEntry, EntryKind, file, directory, max_files, too_many_files, is_directory,
  not_directory, permission_denied,
}
use codex_os.Fs.FilePath.{ensure_parent_directory, find_entry, is_directory_kind, owner_write}
use codex_os.Fs.FileRecord.{default_file_permissions}
use codex_os.Fs.Tree.{
  add_directories, add_directory, change_entry, default_directory_permissions, directory_entry,
  insert_directory, materialize_missing_parent_directories, or_default, place_directory, place_file,
  required_directories, sort_by, sort_entries, text_leb,
}
use codex_os.Fs.Tree.Shows.{
  Shows, View, append-Shows, change_entry-Shows, given-Shows, put, put_same-Shows,
  sort_entries-Shows, stored,
}

-- What the map has where an entry is found.
pub seen :
    (v : View) (path : Text) (files : List FileEntry) (found : Option FileEntry)
    → find_entry path files ≡ found
    → Shows v files
    → stored found ≡ v path
seen v path files found same s = sym (ap stored same) ∙ s.shown path

directory_is :
    (kind : EntryKind) → not (is_directory_kind kind) ≡ false → is_directory_kind kind ≡ true
directory_is file h = absurd cc
directory_is directory h = refl

pub no_file :
    (entry : FileEntry) → not (is_directory_kind entry.kind) ≡ false → stored (some entry) ≡ none
no_file entry h = rw (directory_is entry.kind h) refl

add_directory-Shows :
    (v : View) (path : Text) (entries next : List FileEntry) (found : Option FileEntry)
    → find_entry path entries ≡ found
    → add_directory path entries found ≡ ok next
    → Shows v entries
    → Shows v next
unfolding add_directory
add_directory-Shows v path entries next (some existing) same h s =
    let (kind, h1) =
      fail_if-passed (not (is_directory_kind existing.kind)) not_directory _ next h in
    given-Shows v entries next h1 s
add_directory-Shows v path entries next none same h s =
    let (few, h1) = fail_if-passed (leb max_files (length entries)) too_many_files _ next h in
    let entry = directory_entry path default_directory_permissions in
    given-Shows v (entries ++ entry ∷ []) next h1 (
      put_same-Shows path none v (entries ++ entry ∷ []) (seen v path entries none same s)
        (append-Shows v entries entry same s))

add_directories-Shows :
    (v : View) (paths : List Text) (entries next : List FileEntry)
    → add_directories paths entries ≡ ok next
    → Shows v entries
    → Shows v next
unfolding add_directories
add_directories-Shows v [] entries next h s = given-Shows v entries next h s
add_directories-Shows v (path ∷ paths) entries next h s =
    let (more, (e, h1)) =
      bind-passed (add_directory path entries (find_entry path entries)) _ next h in
    add_directories-Shows v paths more next h1
      (add_directory-Shows v path entries more (find_entry path entries) refl e s)

pub materialize-Shows :
    (v : View) (entries next : List FileEntry)
    → materialize_missing_parent_directories entries ≡ ok next
    → Shows v entries
    → Shows v next
unfolding materialize_missing_parent_directories
materialize-Shows v entries next h s =
    let (required, (e1, h1)) = bind-passed (required_directories entries []) _ next h in
    let (complete, (e2, h2)) =
      bind-passed (add_directories (sort_by text_leb required) entries) _ next h1 in
    given-Shows v (sort_entries complete) next h2 (
      sort_entries-Shows v complete
        (add_directories-Shows v (sort_by text_leb required) entries complete e2 s))

place_directory-Shows :
    (v : View) (entries : List FileEntry) (path : Text) (permissions : ℕ) (found : Option FileEntry)
    (next : List FileEntry)
    → find_entry path entries ≡ found
    → place_directory entries path permissions found ≡ ok next
    → Shows v entries
    → Shows v next
place_directory-Shows v entries path permissions (some existing) next same h s =
    let (kind, h1) =
      fail_if-passed (not (is_directory_kind existing.kind)) not_directory _ next h in
    let change : FileEntry → FileEntry = λ entry. record entry { permissions = permissions } in
    let none_there : stored (some (change existing)) ≡ v path =
      no_file (change existing) kind
      ∙ sym (no_file existing kind)
      ∙ seen v path entries (some existing) same s in
    given-Shows v (change_entry path change entries) next h1 (
      put_same-Shows path (stored (some (change existing))) v (change_entry path change entries)
        none_there (change_entry-Shows v path change entries existing (λ entry. refl) same s))
place_directory-Shows v entries path permissions none next same h s =
    let (few, h1) = fail_if-passed (leb max_files (length entries)) too_many_files _ next h in
    let entry = directory_entry path permissions in
    given-Shows v (sort_entries (entries ++ entry ∷ [])) next h1 (
      sort_entries-Shows v (entries ++ entry ∷ []) (
        put_same-Shows path none v (entries ++ entry ∷ []) (seen v path entries none same s)
          (append-Shows v entries entry same s)))

pub insert_directory-Shows :
    (v : View) (entries : List FileEntry) (path : Text) (permissions : ℕ) (next : List FileEntry)
    → insert_directory entries path permissions ≡ ok next
    → Shows v entries
    → Shows v next
unfolding insert_directory
insert_directory-Shows v entries path permissions next h s =
    let (u, (e, h1)) = bind-passed (ensure_parent_directory entries path) _ next h in
    place_directory-Shows v entries path permissions (find_entry path entries) next refl h1 s

-- The permissions of a file, or those of a new one.
abbrev pub permissions_of : Option (List ℕ × ℕ) → ℕ
permissions_of none = default_file_permissions
permissions_of (some (contents, permissions)) = permissions

abbrev pub with_permissions : ℕ → Option (List ℕ × ℕ) → Option (List ℕ × ℕ)
with_permissions permissions none = none
with_permissions permissions (some (contents, before)) = some (contents, permissions)

-- A file written as asked, with the permissions given or those that it has.
abbrev pub put_file : Text → List ℕ → Option ℕ → View → View
put_file path contents permissions v =
    put path (some (contents, or_default (permissions_of (v path)) permissions)) v

pub place_file-Shows :
    (v : View) (files : List FileEntry) (path : Text) (contents : List ℕ) (permissions : Option ℕ)
    (found : Option FileEntry) (next : List FileEntry)
    → find_entry path files ≡ found
    → place_file files path contents permissions found ≡ ok next
    → Shows v files
    → Shows (put_file path contents permissions v) next
place_file-Shows v files path contents permissions (some existing) next same h s =
    let (kind, h1) = fail_if-passed (is_directory_kind existing.kind) is_directory _ next h in
    let (writable, h2) =
      fail_if-passed (bit_and existing.permissions owner_write == 0) permission_denied _ next h1 in
    let change : FileEntry → FileEntry = λ entry. record entry {
      contents = contents;
      permissions = or_default entry.permissions permissions;
    } in
    let there : some (existing.contents, existing.permissions) ≡ v path =
      sym (rw kind refl) ∙ seen v path files (some existing) same s in
    let made : stored (some (change existing))
        ≡ some (contents, or_default (permissions_of (v path)) permissions) =
      rw kind (ap (λ x. some (contents, or_default (permissions_of x) permissions)) there) in
    given-Shows (put_file path contents permissions v) (change_entry path change files) next h2 (
      coe 0 1 (i. Shows (put path (made i) v) (change_entry path change files))
        (change_entry-Shows v path change files existing (λ entry. refl) same s))
place_file-Shows v files path contents permissions none next same h s =
    let (few, h1) = fail_if-passed (leb max_files (length files)) too_many_files _ next h in
    let entry : FileEntry = record {
      name = path;
      contents = contents;
      kind = file;
      permissions = or_default default_file_permissions permissions;
    } in
    let made : stored (some entry)
        ≡ some (contents, or_default (permissions_of (v path)) permissions) =
      ap (λ x. some (contents, or_default (permissions_of x) permissions))
        (seen v path files none same s) in
    given-Shows (put_file path contents permissions v) (sort_entries (files ++ entry ∷ [])) next h1
      (sort_entries-Shows (put_file path contents permissions v) (files ++ entry ∷ []) (
        coe 0 1 (i. Shows (put path (made i) v) (files ++ entry ∷ []))
          (append-Shows v files entry same s)))
