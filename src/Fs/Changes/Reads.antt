-- ===== src/Fs/Changes/Reads.antt =====
-- What can be read in kernel/src/fs.rs after an operation.
use codex_os.Prelude.{
  ℕ, ◌==◌, ◌≡◌, refl, sym, ap, ◌∙◌, List, [], ◌∷◌, Bool, true, false, not, ◌&&◌, Option, none, some,
  Bool-cases, inl, inr, bit_and, if◌then◌else◌,
}
use codex_os.Prelude.Results.{ok}
use codex_os.Bytes.{bytes_eq}
use codex_os.Bytes.Words.{bytes_eq→eq}
use codex_os.Fs.{Text, FileEntry, EntryKind, file, directory}
use codex_os.Fs.FilePath.{find_entry, is_directory_kind}
use codex_os.Fs.FileRecord.{has_name}
use codex_os.Fs.FileRecord.Distinct.{HasDistinctNames}
use codex_os.Fs.Tree.Shows.{view}
use codex_os.Fs.Commit.{CodexFs}
use codex_os.Fs.Changes.{find_readable, owner_read, read_file}
use codex_os.Fs.Changes.Trees.{Request, perform}
use codex_os.Fs.Changes.Contents.{view_after, tree_of-Shows, perform-made}

-- The contents, where the owner may read them.
abbrev pub readable : Option (List ℕ × ℕ) → Option (List ℕ)
readable none = none
readable (some (contents, permissions)) =
    if bit_and permissions owner_read == 0 then none else some contents

find_readable-unnamed :
    (path : Text) (files : List FileEntry)
    → has_name path files ≡ false
    → find_readable path files ≡ none
unfolding has_name find_readable
find_readable-unnamed path [] h = refl
find_readable-unnamed path (entry ∷ files) h = elim (Bool-cases (bytes_eq entry.name path)) [
  | inl here ↦ let wrong = rw here at h in absurd cc
  | inr beyond ↦ rw beyond (find_readable-unnamed path files (rw beyond at h))
]

read_here :
    (kind : EntryKind) (hidden : Bool) (contents : List ℕ) (permissions : ℕ)
    → (bit_and permissions owner_read == 0) ≡ hidden
    → (if not (is_directory_kind kind) && not hidden then some contents else none)
      ≡ readable (if is_directory_kind kind then none else some (contents, permissions))
read_here directory hidden contents permissions h = refl
read_here file true contents permissions h = rw h refl
read_here file false contents permissions h = rw h refl

find_readable-view :
    (path : Text) (files : List FileEntry)
    → HasDistinctNames files
    → find_readable path files ≡ readable (view files path)
unfolding find_readable find_entry
find_readable-view path [] d = refl
find_readable-view path (entry ∷ files) (once, d) = elim (Bool-cases (bytes_eq entry.name path)) [
  | inl here ↦
      let nothing : find_readable path files ≡ none =
        find_readable-unnamed path files
          (sym (ap (λ n. has_name n files) (bytes_eq→eq entry.name path here)) ∙ once) in
      rw (here, nothing)
        (read_here entry.kind (bit_and entry.permissions owner_read == 0) entry.contents
          entry.permissions refl)
  | inr beyond ↦ rw beyond (find_readable-view path files d)
]

-- Let each name stand once in a filesystem, and let an operation report success. Then the files, as a
-- map from paths to contents and permissions, are changed in just the way the operation is to change
-- them: a write puts the contents at its path, with the permissions given, else those the file had, else
-- the default; a change of permissions replaces those of a file at its path; a deleted file is gone; no
-- other path is touched, and an operation on directories changes no file. `read_file` then gives the
-- contents of this map where the permissions let the owner read.
pub perform-Refines :
    (fs : CodexFs) (request : Request)
    → HasDistinctNames fs.files
    → (perform fs request).1 ≡ ok tt
    → (name : Text)
    → (view ((perform fs request).0.files) name ≡ view_after (view fs.files) request name)
      × (read_file ((perform fs request).0) name
          ≡ readable (view_after (view fs.files) request name))
unfolding read_file
perform-Refines fs request distinct h name =
    let s =
      tree_of-Shows (view fs.files) fs.files request ((perform fs request).0.files)
        (perform-made fs request h) (record { distinct = distinct; shown = λ n. refl }) in
    (
      s.shown name,
      find_readable-view name ((perform fs request).0.files) s.distinct
          ∙ ap readable (s.shown name),
    )
