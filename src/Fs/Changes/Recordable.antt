-- ===== src/Fs/Changes/Recordable.antt =====
-- Whatever operation of kernel/src/fs.rs makes a new tree, a record can hold it.
use mathlib.Core.List.{append_assoc, append-nil}
use codex_os.Prelude.{
  ℕ, ◌≤◌, ◌≡◌, refl, sym, ap, ◌∙◌, ◌==◌, List, [], ◌∷◌, ◌++◌, true, false, not, drop, Option, none,
  some, Bool-cases, inl, inr, arith, if◌then◌else◌, ==→eq,
}
use codex_os.Prelude.Results.{ok, bind-passed, fail_if-passed, value_or}
use codex_os.Bytes.{bytes_eq}
use codex_os.Fs.{Text, FileEntry, not_directory, invalid_path}
use codex_os.Fs.FilePath.{
  slash, split, push_byte, starts_with_slash, is_invalid_path, validate_path, validate_permissions,
  find_entry, is_directory_kind,
}
use codex_os.Fs.FileRecord.RoundTrip.{IsRecordable}
use codex_os.Fs.Tree.{default_directory_permissions}
use codex_os.Fs.Tree.Recordable.{insert_directory-IsRecordable, materialize-IsRecordable}
use codex_os.Fs.Tree.Texts.{IsText, before_slash-IsText}
use codex_os.Fs.Changes.{create_component, create_components, tree_with_directories}

-- The path of components.
abbrev join : List Text → Text
join [] = []
join (component ∷ components) = slash ∷ component ++ join components

split_joins :
    (path : Text)
    → (first : Text) × ((rest : List Text) × ((split path ≡ first ∷ rest)
          × (path ≡ first ++ join rest)))
unfolding split
split_joins [] = ([], ([], (refl, refl)))
split_joins (b ∷ path) =
    let (first, (rest, (parts, joined))) = split_joins path in
    elim (Bool-cases (b == slash)) [
      | inl here ↦ (
        [],
        (
          split path,
          (rw here refl, (λ i. (==→eq b slash here) i ∷ joined i) ∙ ap join (sym parts)),
        ),
      )
      | inr other ↦ (b ∷ first, (rest, (rw other (ap (push_byte b) parts), ap (λ t. b ∷ t) joined)))
    ]

valid_slash : (path : Text) → is_invalid_path path ≡ false → starts_with_slash path ≡ true
unfolding is_invalid_path
valid_slash path h = ground arith

joined_components :
    (path : Text) → starts_with_slash path ≡ true → path ≡ join (drop 1 (split path))
unfolding split
joined_components [] h = absurd cc
joined_components (b ∷ path) h =
    let (first, (rest, (parts, joined))) = split_joins path in
    rw h ((λ i. (==→eq b slash h) i ∷ joined i) ∙ ap join (sym parts))

-- A path that components continue is a text where the whole is.
so_far-IsText :
    (longer : Text) (components : List Text) → IsText (longer ++ join components) → IsText longer
so_far-IsText longer [] t = coe 0 1 (i. IsText ((append-nil longer) i)) t
so_far-IsText longer (component ∷ components) t =
    before_slash-IsText longer (component ++ join components) t

create_component-IsRecordable :
    (path : Text) (permissions : ℕ) (next : List FileEntry) (current : Text)
    (found : Option FileEntry) (made : List FileEntry)
    → IsText current
    → permissions ≤ 65535
    → create_component path permissions next current found ≡ ok made
    → IsRecordable next
    → IsRecordable made
create_component-IsRecordable path permissions next current (some existing) made t low h r =
    let (kind, h1) =
      fail_if-passed (not (is_directory_kind existing.kind)) not_directory _ made h in
    coe 0 1 (i. IsRecordable ((ap (value_or next) h1) i)) r
create_component-IsRecordable path permissions next current none made t low h r =
    let mode = if bytes_eq current path then permissions else default_directory_permissions in
    let fits : mode ≤ 65535 = ground arith in
    insert_directory-IsRecordable next current mode made t fits h r

create_components-IsRecordable :
    (path : Text) (permissions : ℕ) (next : List FileEntry) (current : Text)
    (components : List Text) (made : List FileEntry)
    → IsText (current ++ join components)
    → permissions ≤ 65535
    → create_components path permissions next current components ≡ ok made
    → IsRecordable next
    → IsRecordable made
unfolding create_components
create_components-IsRecordable path permissions next current [] made t low h r =
    coe 0 1 (i. IsRecordable ((ap (value_or next) h) i)) r
create_components-IsRecordable path permissions next current (component ∷ components) made t low h
      r =
    let longer = current ++ slash ∷ component in
    let whole : current ++ join (component ∷ components) ≡ longer ++ join components =
      sym (append_assoc current (slash ∷ component) (join components)) in
    let text : IsText (longer ++ join components) = coe 0 1 (i. IsText (whole i)) t in
    let (one, (e, h1)) =
      bind-passed (create_component path permissions next longer (find_entry longer next)) _ made
        h in
    create_components-IsRecordable path permissions one longer components made text low h1 (
      create_component-IsRecordable path permissions next longer (find_entry longer next) one
        (so_far-IsText longer components text) low e r)

pub tree_with_directories-IsRecordable :
    (files : List FileEntry) (path : Text) (permissions : ℕ) (next : List FileEntry)
    → IsText path
    → permissions ≤ 65535
    → tree_with_directories files path permissions ≡ ok next
    → IsRecordable files
    → IsRecordable next
unfolding tree_with_directories validate_path
tree_with_directories-IsRecordable files path permissions next t low h r =
    let (valid, h1) = fail_if-passed (is_invalid_path path) invalid_path _ next h in
    let (v, (e2, h2)) = bind-passed (validate_permissions permissions) _ next h1 in
    let (made, (e3, h3)) =
      bind-passed (create_components path permissions files [] (drop 1 (split path))) _ next h2 in
    materialize-IsRecordable made next h3 (
      create_components-IsRecordable path permissions files [] (drop 1 (split path)) made
        (coe 0 1 (i. IsText ((joined_components path (valid_slash path valid)) i)) t) low e3 r)
