-- ===== src/Fs/Changes/Placed.antt =====
-- The trees of files that kernel/src/fs.rs accepts: every entry has its place.
use codex_os.Prelude.{
  ℕ, ◌≤◌, ◌≡◌, ◌⊎◌, inl, inr, refl, List, [], ◌∷◌, Bool, true, false, not, ◌&&◌, ◌||◌, ltb, length,
  some, bit_and, ◌==◌, arith, Bool-cases,
}
use codex_os.Prelude.Results.{ok_or-passed, ok, bind-passed, fail_if, fail_if-passed, ok_or}
use codex_os.Bytes.{bytes_eq}
use codex_os.Fs.{
  Text, FsError, FileEntry, max_files, too_many_files, invalid_path, corrupt_record,
  permission_denied, parent_missing, not_directory,
}
use codex_os.Fs.FilePath.{
  root, is_invalid_path, parent_path, find_entry, is_directory_kind, owner_execute, owner_write,
  check_parent, validate_permissions, validate_path, validate_entry, validate_entries,
  validate_tree, ensure_parent_directory,
}
use codex_os.Fs.FileRecord.{encode_record}

-- An entry with a valid path, whose parent is the root, or is a directory in the tree that can be
-- entered and written.
pub record IsPlaced (files : List FileEntry) (entry : FileEntry) : Type 0 where
  pub valid : is_invalid_path entry.name ≡ false
  pub parent : Text
  pub above : parent_path entry.name ≡ ok parent
  pub placed :
      (bytes_eq parent root ≡ true)
      ⊎ ((d : FileEntry) × ((find_entry parent files ≡ some d)
            × ((is_directory_kind d.kind ≡ true)
                × ((bit_and d.permissions owner_execute == 0)
                      || (bit_and d.permissions owner_write == 0)
                    ≡ false))))

abbrev pub AllPlaced : List FileEntry → List FileEntry → Type 0
AllPlaced files [] = Unit
AllPlaced files (entry ∷ rest) = IsPlaced files entry × AllPlaced files rest

-- No more entries than there may be, and each of them placed.
pub record IsTree (files : List FileEntry) : Type 0 where
  pub few : length files ≤ max_files
  pub each : AllPlaced files files

only_passed : (wrong : Bool) (e : FsError) → fail_if wrong e ≡ ok tt → wrong ≡ false
only_passed true e h = absurd cc
only_passed false e h = refl

not-false : (b : Bool) → not b ≡ false → b ≡ true
not-false true h = refl
not-false false h = absurd cc

validate_entry-IsPlaced :
    (files : List FileEntry) (entry : FileEntry)
    → validate_entry files true entry ≡ ok tt
    → IsPlaced files entry
unfolding validate_entry validate_path ensure_parent_directory check_parent
validate_entry-IsPlaced files entry h =
    let (valid, h1) = fail_if-passed (is_invalid_path entry.name) invalid_path _ tt h in
    let (u, (e2, h2)) = bind-passed (validate_permissions entry.permissions) _ tt h1 in
    let (empty, h3) =
      fail_if-passed (is_directory_kind entry.kind && not (length entry.contents == 0))
        corrupt_record _ tt h2 in
    let (open_dir, h4) =
      fail_if-passed
        (is_directory_kind entry.kind && (bit_and entry.permissions owner_execute == 0))
        permission_denied _ tt h3 in
    let (parent, (e5, h5)) = bind-passed (parent_path entry.name) _ tt h4 in
    record {
      valid = valid;
      parent = parent;
      above = e5;
      placed = elim (Bool-cases (bytes_eq parent root)) [
        | inl top ↦ inl top
        | inr below ↦
            let (d, (e6, h6)) =
              bind-passed (ok_or (find_entry parent files) parent_missing) _ tt (rw below at h5) in
            let (kind, h7) =
              fail_if-passed (not (is_directory_kind d.kind)) not_directory _ tt h6 in
            inr (
              d,
              (
                ok_or-passed (find_entry parent files) parent_missing d e6,
                (
                  not-false (is_directory_kind d.kind) kind,
                  only_passed
                      ((bit_and d.permissions owner_execute == 0)
                        || (bit_and d.permissions owner_write == 0))
                      permission_denied h7,
                ),
              ),
            )
      ];
    }

validate_entries-AllPlaced :
    (files rest : List FileEntry) → validate_entries files true rest ≡ ok tt → AllPlaced files rest
unfolding validate_entries
validate_entries-AllPlaced files [] h = tt
validate_entries-AllPlaced files (entry ∷ rest) h =
    let (u, (e, h1)) = bind-passed (validate_entry files true entry) _ tt h in
    (validate_entry-IsPlaced files entry e, validate_entries-AllPlaced files rest h1)

pub encode_record-IsTree :
    (generation : ℕ) (files : List FileEntry) (bytes : List ℕ)
    → encode_record generation files ≡ ok bytes
    → IsTree files
unfolding encode_record
encode_record-IsTree generation files bytes h =
    let (few, h1) = fail_if-passed (ltb max_files (length files)) too_many_files _ bytes h in
    let (u, (e, h2)) = bind-passed (validate_tree files true) _ bytes h1 in
    record { few = ground arith; each = validate_entries-AllPlaced files files e }
