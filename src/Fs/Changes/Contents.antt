-- ===== src/Fs/Changes/Contents.antt =====
-- The operations of kernel/src/fs.rs as operations on a map from paths to files.
use codex_os.Prelude.{
  ℕ, ◌≡◌, sym, ap, List, [], ◌∷◌, ◌++◌, not, drop, Option, none, some, Bool-cases, inl, inr,
  if◌then◌else◌,
}
use codex_os.Prelude.Results.{Result, ok, err, bind-passed, fail_if-passed}
use codex_os.Bytes.{bytes_eq}
use codex_os.Fs.{Text, FsError, FileEntry, not_directory}
use codex_os.Fs.FilePath.{
  find_entry, is_directory_kind, slash, split, validate_path, validate_permissions,
}
use codex_os.Fs.Tree.{default_directory_permissions}
use codex_os.Fs.Tree.Shows.{Shows, View, given-Shows, put}
use codex_os.Fs.Tree.Shown.{insert_directory-Shows, materialize-Shows, put_file, with_permissions}
use codex_os.Fs.Tree.Contents.{
  tree_with_directory-Shows, tree_with_file-Shows, tree_with_permissions-Shows,
  tree_without_directory-Shows, tree_without_file-Shows,
}
use codex_os.Fs.Commit.{CodexFs, commit_files}
use codex_os.Fs.Changes.{
  commit_changed, commit_next, create_component, create_components, create_dir, create_dir_all,
  files_eq, remove_dir, remove_file, set_permissions, tree_with_directories, write_file,
  write_file_inner, write_file_with_permissions,
}
use codex_os.Fs.Changes.Trees.{
  Request, perform, write, write_with_permissions, make_directory, make_directories,
  change_permissions, delete_file, delete_directory,
}
use codex_os.Fs.Changes.Stored.{keep_files-done}
use codex_os.Fs.Changes.Compared.{files_eq→eq}
use codex_os.Fs.Changes.Atomic.{tree_of}

-- What a request does to the map.
abbrev pub view_after : View → Request → View
view_after v (write path contents) = put_file path contents none v
view_after v (write_with_permissions path contents permissions) =
    put_file path contents (some permissions) v
view_after v (make_directory path permissions) = v
view_after v (make_directories path permissions) = v
view_after v (change_permissions path permissions) =
    put path (with_permissions permissions (v path)) v
view_after v (delete_file path) = put path none v
view_after v (delete_directory path) = v

create_component-Shows :
    (v : View) (path : Text) (permissions : ℕ) (next : List FileEntry) (current : Text)
    (found : Option FileEntry) (made : List FileEntry)
    → create_component path permissions next current found ≡ ok made
    → Shows v next
    → Shows v made
create_component-Shows v path permissions next current (some existing) made h s =
    let (kind, h1) =
      fail_if-passed (not (is_directory_kind existing.kind)) not_directory _ made h in
    given-Shows v next made h1 s
create_component-Shows v path permissions next current none made h s =
    insert_directory-Shows v next current
      (if bytes_eq current path then permissions else default_directory_permissions) made h s

create_components-Shows :
    (v : View) (path : Text) (permissions : ℕ) (next : List FileEntry) (current : Text)
    (components : List Text) (made : List FileEntry)
    → create_components path permissions next current components ≡ ok made
    → Shows v next
    → Shows v made
unfolding create_components
create_components-Shows v path permissions next current [] made h s = given-Shows v next made h s
create_components-Shows v path permissions next current (component ∷ components) made h s =
    let longer = current ++ slash ∷ component in
    let (one, (e, h1)) =
      bind-passed (create_component path permissions next longer (find_entry longer next)) _ made
        h in
    create_components-Shows v path permissions one longer components made h1
      (create_component-Shows v path permissions next longer (find_entry longer next) one e s)

tree_with_directories-Shows :
    (v : View) (files : List FileEntry) (path : Text) (permissions : ℕ) (next : List FileEntry)
    → tree_with_directories files path permissions ≡ ok next
    → Shows v files
    → Shows v next
unfolding tree_with_directories
tree_with_directories-Shows v files path permissions next h s =
    let (u, (e1, h1)) = bind-passed (validate_path path) _ next h in
    let (w, (e2, h2)) = bind-passed (validate_permissions permissions) _ next h1 in
    let (made, (e3, h3)) =
      bind-passed (create_components path permissions files [] (drop 1 (split path))) _ next h2 in
    materialize-Shows v made next h3
      (create_components-Shows v path permissions files [] (drop 1 (split path)) made e3 s)

pub tree_of-Shows :
    (v : View) (files : List FileEntry) (request : Request) (next : List FileEntry)
    → tree_of files request ≡ ok next
    → Shows v files
    → Shows (view_after v request) next
tree_of-Shows v files (write path contents) next h s =
    tree_with_file-Shows v files path contents none next h s
tree_of-Shows v files (write_with_permissions path contents permissions) next h s =
    let (u, (e, h1)) = bind-passed (validate_permissions permissions) _ next h in
    tree_with_file-Shows v files path contents (some permissions) next h1 s
tree_of-Shows v files (make_directory path permissions) next h s =
    tree_with_directory-Shows v files path permissions next h s
tree_of-Shows v files (make_directories path permissions) next h s =
    tree_with_directories-Shows v files path permissions next h s
tree_of-Shows v files (change_permissions path permissions) next h s =
    tree_with_permissions-Shows v files path permissions next h s
tree_of-Shows v files (delete_file path) next h s = tree_without_file-Shows v files path next h s
tree_of-Shows v files (delete_directory path) next h s =
    tree_without_directory-Shows v files path next h s

commit_next-made :
    (fs : CodexFs) (tree : Result FsError (List FileEntry))
    → (commit_next fs tree).1 ≡ ok tt
    → tree ≡ ok ((commit_next fs tree).0.files)
unfolding commit_next
commit_next-made fs (err e) h = absurd cc
commit_next-made fs (ok next) h = ap ok (sym (keep_files-done next (commit_files fs next) h))

commit_changed-made :
    (fs : CodexFs) (tree : Result FsError (List FileEntry))
    → (commit_changed fs tree).1 ≡ ok tt
    → tree ≡ ok ((commit_changed fs tree).0.files)
unfolding commit_changed
commit_changed-made fs (err e) h = absurd cc
commit_changed-made fs (ok next) h = elim (Bool-cases (files_eq next fs.files)) [
  | inl same ↦ rw same (ap ok (files_eq→eq next fs.files same))
  | inr changed ↦
      rw changed (ap ok (sym (keep_files-done next (commit_files fs next) (rw changed at h))))
]

pub perform-made :
    (fs : CodexFs) (request : Request)
    → (perform fs request).1 ≡ ok tt
    → tree_of fs.files request ≡ ok ((perform fs request).0.files)
unfolding write_file write_file_inner write_file_with_permissions create_dir create_dir_all
    set_permissions remove_file remove_dir
perform-made fs (write path contents) h = commit_next-made fs _ h
perform-made fs (write_with_permissions path contents permissions) h = commit_next-made fs _ h
perform-made fs (make_directory path permissions) h = commit_changed-made fs _ h
perform-made fs (make_directories path permissions) h = commit_changed-made fs _ h
perform-made fs (change_permissions path permissions) h = commit_changed-made fs _ h
perform-made fs (delete_file path) h = commit_next-made fs _ h
perform-made fs (delete_directory path) h = commit_next-made fs _ h
