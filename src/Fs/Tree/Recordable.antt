-- ===== src/Fs/Tree/Recordable.antt =====
-- The trees that the operations of kernel/src/fs.rs make can be recorded: their names are texts, and each
-- stands once.
use codex_os.Prelude.{
  All, ℕ, ◌≤◌, ◌≡◌, refl, ap, ◌==◌, leb, List, [], ◌∷◌, ◌++◌, not, length, Option, none, some,
  bit_and, arith,
}
use codex_os.Prelude.Results.{Result, ok, bind-passed, fail_if-passed, value_or}
use codex_os.Fs.{
  Text, FsError, FileEntry, file, max_files, too_many_files, is_directory, not_directory,
  permission_denied,
}
use codex_os.Fs.FilePath.{ensure_parent_directory, find_entry, is_directory_kind, owner_write}
use codex_os.Fs.FileRecord.{default_file_permissions}
use codex_os.Fs.FileRecord.ReadEntries.{IsStorable}
use codex_os.Fs.FileRecord.RoundTrip.{IsRecordable}
use codex_os.Fs.Tree.{
  add_directories, add_directory, change_entry, default_directory_permissions, directory_entry,
  insert_directory, materialize_missing_parent_directories, or_default, place_directory, place_file,
  remove_entry, required_directories, sort_by, sort_entries, text_leb,
}
use codex_os.Fs.Tree.Names.{
  All-append, append-HasDistinctNames, change_entry-All, change_entry-HasDistinctNames,
  find_entry-unnamed, remove_entry-All, remove_entry-HasDistinctNames, sort_by-All,
  sort_by-HasDistinctNames,
}
use codex_os.Fs.Tree.Texts.{IsText, required_directories-IsText}

sort_entries-IsRecordable :
    (files : List FileEntry) → IsRecordable files → IsRecordable (sort_entries files)
sort_entries-IsRecordable files r = record {
  storable = sort_by-All IsStorable (λ left right. text_leb left.name right.name) files r.storable;
  distinct =
      sort_by-HasDistinctNames (λ left right. text_leb left.name right.name) files r.distinct;
}

append-IsRecordable :
    (files : List FileEntry) (entry : FileEntry)
    → find_entry entry.name files ≡ none
    → IsStorable entry
    → IsRecordable files
    → IsRecordable (files ++ entry ∷ [])
append-IsRecordable files entry new s r = record {
  storable = All-append IsStorable files (entry ∷ []) r.storable (s, tt);
  distinct =
      append-HasDistinctNames files entry (find_entry-unnamed entry.name files new) r.distinct;
}

pub change_entry-IsRecordable :
    (name : Text) (change : FileEntry → FileEntry) (files : List FileEntry)
    → ((entry : FileEntry) → (change entry).name ≡ entry.name)
    → ((entry : FileEntry) → IsStorable entry → IsStorable (change entry))
    → IsRecordable files
    → IsRecordable (change_entry name change files)
change_entry-IsRecordable name change files same keeps r = record {
  storable = change_entry-All IsStorable name change files keeps r.storable;
  distinct = change_entry-HasDistinctNames name change files same r.distinct;
}

pub remove_entry-IsRecordable :
    (name : Text) (files : List FileEntry)
    → IsRecordable files
    → IsRecordable (remove_entry name files)
remove_entry-IsRecordable name files r = record {
  storable = remove_entry-All IsStorable name files r.storable;
  distinct = remove_entry-HasDistinctNames name files r.distinct;
}

-- What a run that ends well gives.
given :
    (x next : List FileEntry)
    → ◌≡◌ {A = Result FsError (List FileEntry)} (ok x) (ok next)
    → IsRecordable x
    → IsRecordable next
given x next h r = coe 0 1 (i. IsRecordable ((ap (value_or x) h) i)) r

directory_entry-IsStorable :
    (path : Text) (permissions : ℕ)
    → IsText path
    → permissions ≤ 65535
    → IsStorable (directory_entry path permissions)
directory_entry-IsStorable path permissions t low = record { text = t; word = low }

add_directory-IsRecordable :
    (path : Text) (entries next : List FileEntry) (found : Option FileEntry)
    → find_entry path entries ≡ found
    → IsText path
    → add_directory path entries found ≡ ok next
    → IsRecordable entries
    → IsRecordable next
unfolding add_directory
add_directory-IsRecordable path entries next (some existing) same t h r =
    let (kind, h1) =
      fail_if-passed (not (is_directory_kind existing.kind)) not_directory _ next h in
    given entries next h1 r
add_directory-IsRecordable path entries next none same t h r =
    let (few, h1) = fail_if-passed (leb max_files (length entries)) too_many_files _ next h in
    let entry = directory_entry path default_directory_permissions in
    given (entries ++ entry ∷ []) next h1 (
      append-IsRecordable entries entry same
        (directory_entry-IsStorable path default_directory_permissions t (omega arith)) r)

add_directories-IsRecordable :
    (paths : List Text) (entries next : List FileEntry)
    → All IsText paths
    → add_directories paths entries ≡ ok next
    → IsRecordable entries
    → IsRecordable next
unfolding add_directories
add_directories-IsRecordable [] entries next t h r = given entries next h r
add_directories-IsRecordable (path ∷ paths) entries next (here, t) h r =
    let (more, (e, h1)) =
      bind-passed (add_directory path entries (find_entry path entries)) _ next h in
    add_directories-IsRecordable paths more next t h1
      (add_directory-IsRecordable path entries more (find_entry path entries) refl here e r)

pub materialize-IsRecordable :
    (entries next : List FileEntry)
    → materialize_missing_parent_directories entries ≡ ok next
    → IsRecordable entries
    → IsRecordable next
unfolding materialize_missing_parent_directories
materialize-IsRecordable entries next h r =
    let (required, (e1, h1)) = bind-passed (required_directories entries []) _ next h in
    let (complete, (e2, h2)) =
      bind-passed (add_directories (sort_by text_leb required) entries) _ next h1 in
    let texts =
      sort_by-All IsText text_leb required
        (required_directories-IsText entries [] required r.storable tt e1) in
    given (sort_entries complete) next h2 (
      sort_entries-IsRecordable complete
        (add_directories-IsRecordable (sort_by text_leb required) entries complete texts e2 r))

place_directory-IsRecordable :
    (entries : List FileEntry) (path : Text) (permissions : ℕ) (found : Option FileEntry)
    (next : List FileEntry)
    → find_entry path entries ≡ found
    → IsText path
    → permissions ≤ 65535
    → place_directory entries path permissions found ≡ ok next
    → IsRecordable entries
    → IsRecordable next
place_directory-IsRecordable entries path permissions (some existing) next same t low h r =
    let (kind, h1) =
      fail_if-passed (not (is_directory_kind existing.kind)) not_directory _ next h in
    given (change_entry path (λ entry. record entry { permissions = permissions }) entries) next h1
      (change_entry-IsRecordable path (λ entry. record entry { permissions = permissions }) entries
        (λ entry. refl) (λ entry s. record { text = s.text; word = low }) r)
place_directory-IsRecordable entries path permissions none next same t low h r =
    let (few, h1) = fail_if-passed (leb max_files (length entries)) too_many_files _ next h in
    let entry = directory_entry path permissions in
    given (sort_entries (entries ++ entry ∷ [])) next h1 (
      sort_entries-IsRecordable (entries ++ entry ∷ []) (
        append-IsRecordable entries entry same (directory_entry-IsStorable path permissions t low)
          r))

pub insert_directory-IsRecordable :
    (entries : List FileEntry) (path : Text) (permissions : ℕ) (next : List FileEntry)
    → IsText path
    → permissions ≤ 65535
    → insert_directory entries path permissions ≡ ok next
    → IsRecordable entries
    → IsRecordable next
unfolding insert_directory
insert_directory-IsRecordable entries path permissions next t low h r =
    let (u, (e, h1)) = bind-passed (ensure_parent_directory entries path) _ next h in
    place_directory-IsRecordable entries path permissions (find_entry path entries) next refl t low
      h1 r

-- Permissions that are given are 16 bits.
abbrev pub IsWord : Option ℕ → Type 0
IsWord none = Unit
IsWord (some permissions) = permissions ≤ 65535

or_default-le :
    (given_one : ℕ) (permissions : Option ℕ)
    → given_one ≤ 65535
    → IsWord permissions
    → or_default given_one permissions ≤ 65535
or_default-le given_one none low w = low
or_default-le given_one (some permissions) low w = w

pub place_file-IsRecordable :
    (files : List FileEntry) (path : Text) (contents : List ℕ) (permissions : Option ℕ)
    (found : Option FileEntry) (next : List FileEntry)
    → find_entry path files ≡ found
    → IsText path
    → IsWord permissions
    → place_file files path contents permissions found ≡ ok next
    → IsRecordable files
    → IsRecordable next
place_file-IsRecordable files path contents permissions (some existing) next same t w h r =
    let (kind, h1) = fail_if-passed (is_directory_kind existing.kind) is_directory _ next h in
    let (writable, h2) =
      fail_if-passed (bit_and existing.permissions owner_write == 0) permission_denied _ next h1 in
    let change : FileEntry → FileEntry = λ entry. record entry {
      contents = contents;
      permissions = or_default entry.permissions permissions;
    } in
    given (change_entry path change files) next h2 (
      change_entry-IsRecordable path change files (λ entry. refl)
        (λ entry s. record {
          text = s.text;
          word = or_default-le entry.permissions permissions s.word w;
        })
        r)
place_file-IsRecordable files path contents permissions none next same t w h r =
    let (few, h1) = fail_if-passed (leb max_files (length files)) too_many_files _ next h in
    let entry : FileEntry = record {
      name = path;
      contents = contents;
      kind = file;
      permissions = or_default default_file_permissions permissions;
    } in
    given (sort_entries (files ++ entry ∷ [])) next h1 (
      sort_entries-IsRecordable (files ++ entry ∷ []) (
        append-IsRecordable files entry same
          (record {
            text = t;
            word = or_default-le default_file_permissions permissions (omega arith) w;
          })
          r))
