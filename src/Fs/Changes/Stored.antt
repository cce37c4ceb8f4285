-- ===== src/Fs/Changes/Stored.antt =====
-- What a write of a file in kernel/src/fs.rs has stored.
use mathlib.Core.Option.{some-injective}
use codex_os.Prelude.{
  ℕ, ◌≡◌, inl, inr, refl, sym, ap, ◌∙◌, List, [], ◌∷◌, ◌++◌, Bool, true, false, not, ◌&&◌, ◌||◌,
  any, length, leb, Option, none, some, Bool-cases, ◌==◌, bit_and,
}
use codex_os.Prelude.Results.{Result, ok, err, bind-passed, fail_if-passed, value_or}
use codex_os.Bytes.{bytes_eq}
use codex_os.Bytes.Words.{bytes_eq_refl}
use codex_os.Fs.{
  Text, FsError, FileEntry, file, max_files, too_many_files, is_directory, not_directory,
  permission_denied,
}
use codex_os.Fs.FilePath.{
  validate_path, ensure_parent_directory, find_entry, is_directory_kind, owner_write,
}
use codex_os.Fs.FileRecord.{default_file_permissions}
use codex_os.Fs.Tree.{
  add_directories, add_directory, change_entry, insert_by, materialize_missing_parent_directories,
  or_default, place_file, required_directories, sort_by, text_leb, tree_with_file,
}
use codex_os.Fs.Commit.{CodexFs, commit_files}
use codex_os.Fs.Changes.{commit_next, keep_files, write_file_inner}

-- There is a file of the name with the contents.
abbrev pub is_file_with : Text → List ℕ → FileEntry → Bool
is_file_with path contents entry =
    bytes_eq entry.name path
    && (bytes_eq entry.contents contents && not (is_directory_kind entry.kind))

abbrev pub has_file : Text → List ℕ → List FileEntry → Bool
has_file path contents files = any (is_file_with path contents) files

module _ {A : Type 0} (p : A → Bool) where
  any-append_left : (xs ys : List A) → any p xs ≡ true → any p (xs ++ ys) ≡ true
  any-append_left [] ys h = absurd cc
  any-append_left (x ∷ xs) ys h = elim (Bool-cases (p x)) [
    | inl here ↦ rw here refl
    | inr beyond ↦ rw beyond (any-append_left xs ys (rw beyond at h))
  ]

  any-append_last : (xs : List A) (y : A) → p y ≡ true → any p (xs ++ y ∷ []) ≡ true
  any-append_last [] y h = rw h refl
  any-append_last (x ∷ xs) y h = elim (Bool-cases (p x)) [
    | inl here ↦ rw here refl
    | inr beyond ↦ rw beyond (any-append_last xs y h)
  ]

  any-insert_by :
      (le : A → A → Bool) (x : A) (xs : List A) → any p (insert_by le x xs) ≡ (p x || any p xs)
  unfolding insert_by
  any-insert_by le x [] = refl
  any-insert_by le x (y ∷ xs) = elim (Bool-cases (le x y)) [
    | inl before ↦ rw before refl
    | inr behind ↦ rw (behind, any-insert_by le x xs) (swap (p y) (p x) (any p xs))
  ]
    where
      swap : (a b c : Bool) → (a || (b || c)) ≡ (b || (a || c))
      swap true true c = refl
      swap true false c = refl
      swap false b c = refl

  any-sort_by : (le : A → A → Bool) (xs : List A) → any p (sort_by le xs) ≡ any p xs
  unfolding sort_by
  any-sort_by le [] = refl
  any-sort_by le (x ∷ xs) =
      any-insert_by le x (sort_by le xs) ∙ ap (λ b. p x || b) (any-sort_by le xs)

module _ (p : FileEntry → Bool) where
  add_directory-keeps :
      (path : Text) (entries next : List FileEntry) (found : Option FileEntry)
      → add_directory path entries found ≡ ok next
      → any p entries ≡ true
      → any p next ≡ true
  unfolding add_directory
  add_directory-keeps path entries next (some existing) h held =
      let (kind, h1) =
        fail_if-passed (not (is_directory_kind existing.kind)) not_directory _ next h in
      sym (ap (λ r. any p (value_or entries r)) h1) ∙ held
  add_directory-keeps path entries next none h held =
      let (few, h1) = fail_if-passed (leb max_files (length entries)) too_many_files _ next h in
      sym (ap (λ r. any p (value_or entries r)) h1) ∙ any-append_left p entries _ held

  add_directories-keeps :
      (paths : List Text) (entries next : List FileEntry)
      → add_directories paths entries ≡ ok next
      → any p entries ≡ true
      → any p next ≡ true
  unfolding add_directories
  add_directories-keeps [] entries next h held = sym (ap (λ r. any p (value_or entries r)) h) ∙ held
  add_directories-keeps (path ∷ paths) entries next h held =
      let (more, (e, h1)) =
        bind-passed (add_directory path entries (find_entry path entries)) _ next h in
      add_directories-keeps paths more next h1
        (add_directory-keeps path entries more (find_entry path entries) e held)

  materialize-keeps :
      (entries next : List FileEntry)
      → materialize_missing_parent_directories entries ≡ ok next
      → any p entries ≡ true
      → any p next ≡ true
  unfolding materialize_missing_parent_directories
  materialize-keeps entries next h held =
      let (required, (e1, h1)) = bind-passed (required_directories entries []) _ next h in
      let (complete, (e2, h2)) =
        bind-passed (add_directories (sort_by text_leb required) entries) _ next h1 in
      sym (ap (λ r. any p (value_or entries r)) h2)
      ∙ any-sort_by p (λ left right. text_leb left.name right.name) complete
      ∙ add_directories-keeps (sort_by text_leb required) entries complete e2 held

  -- The first entry of a name is the one that is changed.
  change_entry-found :
      (name : Text) (change : FileEntry → FileEntry) (entries : List FileEntry)
      (existing : FileEntry)
      → find_entry name entries ≡ some existing
      → (bytes_eq existing.name name ≡ true → p (change existing) ≡ true)
      → any p (change_entry name change entries) ≡ true
  unfolding find_entry change_entry
  change_entry-found name change [] existing h good = absurd cc
  change_entry-found name change (entry ∷ entries) existing h good =
      elim (Bool-cases (bytes_eq entry.name name)) [
        | inl here ↦
            let same = some-injective entry existing (rw here at h) in
            let fine = good (sym (ap (λ e. bytes_eq e.name name) same) ∙ here) in
            rw here (rw (ap (λ e. p (change e)) same ∙ fine) refl)
        | inr beyond ↦
            let rest = change_entry-found name change entries existing (rw beyond at h) good in
            rw beyond (or_right (p entry) rest)
      ]
    where
      or_right : (b : Bool) {c : Bool} → c ≡ true → (b || c) ≡ true
      or_right true h = refl
      or_right false h = h

is_file_with-holds :
    (path : Text) (contents : List ℕ) (entry : FileEntry)
    → bytes_eq entry.name path ≡ true
    → entry.contents ≡ contents
    → is_directory_kind entry.kind ≡ false
    → is_file_with path contents entry ≡ true
is_file_with-holds path contents entry name same kind =
    rw (name, same, bytes_eq_refl contents, kind) refl

place_file-has_file :
    (files : List FileEntry) (path : Text) (contents : List ℕ) (permissions : Option ℕ)
    (found : Option FileEntry) (next : List FileEntry)
    → find_entry path files ≡ found
    → place_file files path contents permissions found ≡ ok next
    → has_file path contents next ≡ true
place_file-has_file files path contents permissions (some existing) next same h =
    let (kind, h1) = fail_if-passed (is_directory_kind existing.kind) is_directory _ next h in
    let (writable, h2) =
      fail_if-passed (bit_and existing.permissions owner_write == 0) permission_denied _ next h1 in
    let change : FileEntry → FileEntry = λ entry. record entry {
      contents = contents;
      permissions = or_default entry.permissions permissions;
    } in
    sym (ap (λ r. has_file path contents (value_or files r)) h2)
    ∙ change_entry-found (is_file_with path contents) path change files existing same
        (λ name. is_file_with-holds path contents (change existing) name refl kind)
place_file-has_file files path contents permissions none next same h =
    let (few, h1) = fail_if-passed (leb max_files (length files)) too_many_files _ next h in
    let entry : FileEntry = record {
      name = path;
      contents = contents;
      kind = file;
      permissions = or_default default_file_permissions permissions;
    } in
    sym (ap (λ r. has_file path contents (value_or files r)) h1)
    ∙ any-sort_by (is_file_with path contents) (λ left right. text_leb left.name right.name)
        (files ++ entry ∷ [])
    ∙ any-append_last (is_file_with path contents) files entry
        (is_file_with-holds path contents entry (bytes_eq_refl path) refl refl)

tree_with_file-has_file :
    (files : List FileEntry) (path : Text) (contents : List ℕ) (permissions : Option ℕ)
    (next : List FileEntry)
    → tree_with_file files path contents permissions ≡ ok next
    → has_file path contents next ≡ true
unfolding tree_with_file
tree_with_file-has_file files path contents permissions next h =
    let (u, (e1, h1)) = bind-passed (validate_path path) _ next h in
    let (v, (e2, h2)) = bind-passed (ensure_parent_directory files path) _ next h1 in
    let (placed, (e3, h3)) =
      bind-passed (place_file files path contents permissions (find_entry path files)) _ next h2 in
    materialize-keeps (is_file_with path contents) placed next h3
      (place_file-has_file files path contents permissions (find_entry path files) placed refl e3)

pub keep_files-done :
    (next : List FileEntry) (r : CodexFs × Result FsError (Unit {0}))
    → (keep_files next r).1 ≡ ok tt
    → (keep_files next r).0.files ≡ next
keep_files-done next (fs, ok u) h = refl
keep_files-done next (fs, err e) h = absurd cc

commit_next-has_file :
    (fs : CodexFs) (path : Text) (contents : List ℕ) (tree : Result FsError (List FileEntry))
    → ((next : List FileEntry) → tree ≡ ok next → has_file path contents next ≡ true)
    → (commit_next fs tree).1 ≡ ok tt
    → has_file path contents ((commit_next fs tree).0.files) ≡ true
unfolding commit_next
commit_next-has_file fs path contents (err e) made h = absurd cc
commit_next-has_file fs path contents (ok next) made h =
    ap (has_file path contents) (keep_files-done next (commit_files fs next) h) ∙ made next refl

-- After a write that succeeds there is a file of the path, which has the contents written.
pub write_file_inner-has_file :
    (fs : CodexFs) (path : Text) (contents : List ℕ) (permissions : Option ℕ)
    → (write_file_inner fs path contents permissions).1 ≡ ok tt
    → has_file path contents ((write_file_inner fs path contents permissions).0.files) ≡ true
unfolding write_file_inner
write_file_inner-has_file fs path contents permissions h =
    commit_next-has_file fs path contents (tree_with_file fs.files path contents permissions)
      (tree_with_file-has_file fs.files path contents permissions) h
