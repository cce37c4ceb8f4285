-- ===== src/Fs/Tree/Shows.antt =====
-- The files of a tree of kernel/src/fs.rs as a map from paths to contents and permissions, and what
-- the changes of the list of entries do to that map.
use codex_os.Prelude.{
  ℕ, ◌≡◌, refl, sym, ap, ◌∙◌, List, [], ◌∷◌, ◌++◌, Option, none, some, Bool-cases, inl, inr,
  if◌then◌else◌,
}
use codex_os.Prelude.Results.{Result, ok, value_or}
use codex_os.Bytes.{bytes_eq}
use codex_os.Bytes.Words.{bytes_eq→eq}
use codex_os.Fs.{Text, FsError, FileEntry}
use codex_os.Fs.FilePath.{find_entry, is_directory_kind}
use codex_os.Fs.FileRecord.Distinct.{HasDistinctNames}
use codex_os.Fs.Tree.{change_entry, remove_entry, sort_entries, text_leb}
use codex_os.Fs.Tree.Names.{
  append-HasDistinctNames, change_entry-HasDistinctNames, find_entry-unnamed,
  remove_entry-HasDistinctNames, sort_by-HasDistinctNames,
}
use codex_os.Fs.Tree.Lookup.{
  find_entry-append, find_entry-change_other, find_entry-change_same, find_entry-remove_other,
  find_entry-remove_same, find_entry-sort_by,
}

-- A file's contents and permissions; a directory has none.
abbrev pub stored : Option FileEntry → Option (List ℕ × ℕ)
stored none = none
stored (some entry) =
    if is_directory_kind entry.kind then none else some (entry.contents, entry.permissions)

abbrev pub View : Type 0
View = Text → Option (List ℕ × ℕ)

abbrev pub view : List FileEntry → View
view files name = stored (find_entry name files)

abbrev pub put : Text → Option (List ℕ × ℕ) → View → View
put path x v name = if bytes_eq path name then x else v name

-- Each name stands once, and the files are those of the map.
pub record Shows (v : View) (files : List FileEntry) : Type 0 where
  pub distinct : HasDistinctNames files
  pub shown : (name : Text) → view files name ≡ v name

put_same :
    (path name : Text) (x : Option (List ℕ × ℕ)) (v : View)
    → x ≡ v path
    → put path x v name ≡ v name
put_same path name x v h = elim (Bool-cases (bytes_eq path name)) [
  | inl here ↦ rw here (h ∙ ap v (bytes_eq→eq path name here))
  | inr elsewhere ↦ rw elsewhere refl
]

-- Where the map has it already, nothing is put.
pub put_same-Shows :
    (path : Text) (x : Option (List ℕ × ℕ)) (v : View) (files : List FileEntry)
    → x ≡ v path
    → Shows (put path x v) files
    → Shows v files
put_same-Shows path x v files h s = record {
  distinct = s.distinct;
  shown = λ name. s.shown name ∙ put_same path name x v h;
}

pub given-Shows :
    (v : View) (x next : List FileEntry)
    → ◌≡◌ {A = Result FsError (List FileEntry)} (ok x) (ok next)
    → Shows v x
    → Shows v next
given-Shows v x next h s = coe 0 1 (i. Shows v ((ap (value_or x) h) i)) s

pub sort_entries-Shows :
    (v : View) (files : List FileEntry) → Shows v files → Shows v (sort_entries files)
sort_entries-Shows v files s = record {
  distinct =
      sort_by-HasDistinctNames (λ left right. text_leb left.name right.name) files s.distinct;
  shown = λ name.
      ap stored
        (find_entry-sort_by (λ left right. text_leb left.name right.name) name files s.distinct)
      ∙ s.shown name;
}

pub append-Shows :
    (v : View) (files : List FileEntry) (entry : FileEntry)
    → find_entry entry.name files ≡ none
    → Shows v files
    → Shows (put entry.name (stored (some entry)) v) (files ++ entry ∷ [])
append-Shows v files entry new s = record {
  distinct =
      append-HasDistinctNames files entry (find_entry-unnamed entry.name files new) s.distinct;
  shown = λ name.
      ap stored (find_entry-append name files entry new)
      ∙ elim (Bool-cases (bytes_eq entry.name name)) [
        | inl here ↦ rw here refl
        | inr elsewhere ↦ rw elsewhere (s.shown name)
      ];
}

pub change_entry-Shows :
    (v : View) (path : Text) (change : FileEntry → FileEntry) (files : List FileEntry)
    (existing : FileEntry)
    → ((entry : FileEntry) → (change entry).name ≡ entry.name)
    → find_entry path files ≡ some existing
    → Shows v files
    → Shows (put path (stored (some (change existing))) v) (change_entry path change files)
change_entry-Shows v path change files existing same found s = record {
  distinct = change_entry-HasDistinctNames path change files same s.distinct;
  shown = λ name. elim (Bool-cases (bytes_eq path name)) [
    | inl here ↦ rw here (
        ap (λ n. stored (find_entry n (change_entry path change files)))
          (sym (bytes_eq→eq path name here))
        ∙ ap stored (find_entry-change_same path change files existing same found))
    | inr elsewhere ↦
        rw elsewhere
          (ap stored (find_entry-change_other name path change files same elsewhere) ∙ s.shown name)
  ];
}

pub remove_entry-Shows :
    (v : View) (path : Text) (files : List FileEntry)
    → Shows v files
    → Shows (put path none v) (remove_entry path files)
remove_entry-Shows v path files s = record {
  distinct = remove_entry-HasDistinctNames path files s.distinct;
  shown = λ name. elim (Bool-cases (bytes_eq path name)) [
    | inl here ↦ rw here (
        ap (λ n. stored (find_entry n (remove_entry path files))) (sym (bytes_eq→eq path name here))
        ∙ ap stored (find_entry-remove_same path files s.distinct))
    | inr elsewhere ↦
        rw elsewhere (ap stored (find_entry-remove_other name path files elsewhere) ∙ s.shown name)
  ];
}
