-- ===== src/Tests/Listings.antt =====
-- A filesystem with a directory and a file in it, for what kernel/src/fs.rs tells of its files.
use codex_os.Prelude.{All, ◌≡◌, inr, refl, List, [], ◌∷◌, not, some, true}
use codex_os.Prelude.Results.{ok, fail_if, value_or}
use codex_os.Bytes.{zeros, bytes_eq}
use codex_os.Fs.{
  Text, FileEntry, directory, directory_not_empty, file, align_up_usize, request_timed_out,
}
use codex_os.Fs.FilePath.{
  find_entry, is_invalid_path, parent_path, rfind_slash, split, validate_path, check_parent,
  ensure_parent_directory, validate_permissions, validate_entry, validate_entries,
}
use codex_os.Fs.FileRecord.{encode_record, add_required, has_name, put_entries, put_entry}
use codex_os.Fs.FileRecord.Distinct.{HasDistinctNames}
use codex_os.Fs.Commit.{CodexFs, blank}
use codex_os.Fs.Tree.{refuse_children}
use codex_os.Fs.Changes.Placed.{IsTree, encode_record-IsTree}
use codex_os.Fs.Listing.{DirectoryEntry, list_dir, metadata}
use codex_os.Fs.Listing.Children.{
  as_metadata, find_listed, lists_nothing, list_dir-lists, listed_in,
}

-- "/d".
abbrev folder : Text
folder = 0x2f ∷ 0x64 ∷ []

abbrev two_entries : List FileEntry
two_entries =
    record { name = folder; contents = []; kind = directory; permissions = 0x1ed }
    ∷ record {
      name = 0x2f ∷ 0x64 ∷ 0x2f ∷ 0x61 ∷ [];
      contents = 1 ∷ 2 ∷ [];
      kind = file;
      permissions = 0x1a4;
    }
    ∷ []

two_entries-encoded : encode_record 2 two_entries ≡ ok (value_or [] (encode_record 2 two_entries))
unfolding encode_record validate_entries validate_entry validate_path validate_permissions
    is_invalid_path split rfind_slash parent_path ensure_parent_directory check_parent find_entry
    add_required align_up_usize put_entry put_entries bytes_eq
two_entries-encoded = refl

two_entries-IsTree : IsTree two_entries
two_entries-IsTree =
    encode_record-IsTree 2 two_entries (value_or [] (encode_record 2 two_entries))
      two_entries-encoded

two_entries-HasDistinctNames : HasDistinctNames two_entries
unfolding has_name bytes_eq
two_entries-HasDistinctNames = (refl, (refl, tt))

folder_there :
    find_entry folder two_entries
    ≡ some (record { name = folder; contents = []; kind = directory; permissions = 0x1ed })
unfolding find_entry bytes_eq
folder_there = refl

abbrev small_fs : CodexFs
small_fs =
    record (blank
      (record {
        sectors = λ at. zeros 512;
        sector_count = 136;
        supports_flush = true;
        writes_left = 100;
        refusal = request_timed_out;
      })
      2 64) { files = two_entries }

list_dir-lists_example :
    (listed : List DirectoryEntry) × ((list_dir small_fs folder ≡ ok listed)
      × (((name : Text) → find_listed name listed ≡ listed_in folder (find_entry name two_entries))
          × ((refuse_children folder two_entries
                ≡ fail_if (not (lists_nothing listed)) directory_not_empty)
              × All
                  (λ (d : DirectoryEntry). metadata small_fs d.path ≡ ok (as_metadata d))
                  listed)))
list_dir-lists_example =
    list_dir-lists small_fs folder two_entries-IsTree two_entries-HasDistinctNames (
      inr (
        record { name = folder; contents = []; kind = directory; permissions = 0x1ed },
        (folder_there, refl),
      ))
