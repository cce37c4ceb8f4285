-- ===== src/Fs/FileRecord/ReadEntries.antt =====
-- What the decoder of kernel/src/fs.rs reads where an entry was written.
use codex_os.Prelude.{
  ℕ, ◌+◌, ◌≤◌, ◌≡◌, refl, ap, ◌∙◌, leb, ltb, List, [], ◌∷◌, ◌++◌, true, false, not, ◌&&◌, ◌==◌,
  length, length-append, arith, checked_add,
}
use codex_os.Prelude.Results.{ok, bind-passed, fail_if-passed, ok_or}
use codex_os.Bytes.{zeros, slice, put, to_le_bytes, from_le_bytes}
use codex_os.Bytes.Appended.{slice-append_here, slice-append_skip, take-append_head}
use codex_os.Bytes.Words.{from_le_bytes-to_le_bytes}
use codex_os.Fs.{
  Text, invalid_path, FileEntry, EntryKind, file, directory, get_u16, get_u32, corrupt_record,
}
use codex_os.Fs.Utf8.{is_utf8}
use codex_os.Fs.FilePath.{
  is_invalid_path, validate_path, validate_permissions, validate_entry, is_directory_kind,
}
use codex_os.Fs.FileRecord.{encode_kind, decode_kind, get_metadata, get_entry, has_name}
use codex_os.Fs.FileRecord.Written.{entry_head, entry_size, length-entry_head}

-- A name is a text, and permissions are 16 bits.
pub record IsStorable (entry : FileEntry) : Type 0 where
  pub text : is_utf8 (length entry.name) entry.name ≡ true
  pub word : entry.permissions ≤ 65535

-- What the decoder wants of an entry.
pub record IsReadable (entry : FileEntry) : Type 0 where
  pub text : is_utf8 (length entry.name) entry.name ≡ true
  pub word : entry.permissions ≤ 65535
  pub path : validate_path entry.name ≡ ok tt
  pub mode : validate_permissions entry.permissions ≡ ok tt
  pub short : length entry.name ≤ 128
  pub empty : (is_directory_kind entry.kind && not (length entry.contents == 0)) ≡ false

short_path : (path : Text) → is_invalid_path path ≡ false → length path ≤ 128
unfolding is_invalid_path
short_path path h = ground arith

-- An entry that the encoder's check of the tree passes is readable.
pub validate_entry-IsReadable :
    (files : List FileEntry) (entry : FileEntry)
    → IsStorable entry
    → validate_entry files true entry ≡ ok tt
    → IsReadable entry
unfolding validate_entry validate_path
validate_entry-IsReadable files entry s h =
    let (valid, h1) = fail_if-passed (is_invalid_path entry.name) invalid_path _ tt h in
    let (u, (mode, h2)) = bind-passed (validate_permissions entry.permissions) _ tt h1 in
    let (empty, h3) =
      fail_if-passed (is_directory_kind entry.kind && not (length entry.contents == 0))
        corrupt_record _ tt h2 in
    record {
      text = s.text;
      word = s.word;
      path = rw valid refl;
      mode = mode;
      short = short_path entry.name valid;
      empty = empty;
    }

decode_kind-encode_kind : (kind : EntryKind) → decode_kind (encode_kind kind) ≡ ok kind
unfolding decode_kind
decode_kind-encode_kind file = refl
decode_kind-encode_kind directory = refl

encode_kind-le : (kind : EntryKind) → encode_kind kind ≤ 65535
encode_kind-le file = omega arith
encode_kind-le directory = omega arith

-- Everything of the record that stands before, and behind, an entry.
module _ (before : List ℕ) (entry : FileEntry) (more : List ℕ) (storable : IsReadable entry)
    (small : length entry.contents ≤ 4194304) where
  abbrev pub head : List ℕ
  head = entry_head entry (zeros 12)

  abbrev pub input : List ℕ
  input = before ++ (head ++ (entry.name ++ (entry.contents ++ more)))

  inside : (end : ℕ) → end ≤ length before + 12 → leb end (length input) ≡ true
  inside end h =
      let total = length-append before (head ++ (entry.name ++ (entry.contents ++ more))) in
      let front = length-append head (entry.name ++ (entry.contents ++ more)) in
      let twelve = length-entry_head entry in ground arith

  name_length_word : get_u16 input (length before) ≡ ok (length entry.name)
  unfolding entry_head put to_le_bytes slice
  name_length_word =
      let short = storable.short in
      rw
        (
          inside (length before + 2) (omega arith),
          slice-append_here before (head ++ (entry.name ++ (entry.contents ++ more))) 2,
          from_le_bytes-to_le_bytes 2 (length entry.name) (omega arith),
        )
        refl

  kind_word : get_u16 input (length before + 2) ≡ ok (encode_kind entry.kind)
  unfolding entry_head put to_le_bytes slice
  kind_word =
      let low = encode_kind-le entry.kind in
      rw
        (
          inside (length before + 2 + 2) (omega arith),
          slice-append_skip before (head ++ (entry.name ++ (entry.contents ++ more))) 2 2,
          from_le_bytes-to_le_bytes 2 (encode_kind entry.kind) (omega arith),
        )
        refl

  contents_length_word : get_u32 input (length before + 4) ≡ ok (length entry.contents)
  unfolding entry_head put to_le_bytes slice
  contents_length_word =
      rw
        (
          inside (length before + 4 + 4) (omega arith),
          slice-append_skip before (head ++ (entry.name ++ (entry.contents ++ more))) 4 4,
          from_le_bytes-to_le_bytes 4 (length entry.contents) (omega arith),
        )
        refl

  permissions_word : get_u16 input (length before + 8) ≡ ok entry.permissions
  unfolding entry_head put to_le_bytes slice
  permissions_word =
      let low = storable.word in
      rw
        (
          inside (length before + 8 + 2) (omega arith),
          slice-append_skip before (head ++ (entry.name ++ (entry.contents ++ more))) 8 2,
          from_le_bytes-to_le_bytes 2 entry.permissions (omega arith),
        )
        refl

  reserved_word : get_u16 input (length before + 10) ≡ ok 0
  unfolding entry_head put to_le_bytes slice from_le_bytes
  reserved_word =
      rw
        (
          inside (length before + 10 + 2) (omega arith),
          slice-append_skip before (head ++ (entry.name ++ (entry.contents ++ more))) 10 2,
        )
        refl

  metadata_read : get_metadata input 3 (length before) ≡ ok (entry.kind, entry.permissions)
  unfolding get_metadata
  metadata_read =
      rw
        (
          kind_word,
          decode_kind-encode_kind entry.kind,
          permissions_word,
          reserved_word,
          storable.mode,
        )
        refl

  name_read : slice input (length before + 12) (length entry.name) ≡ entry.name
  unfolding entry_head put to_le_bytes slice
  name_read =
      slice-append_skip before (head ++ (entry.name ++ (entry.contents ++ more))) 12
        (length entry.name)
      ∙ take-append_head entry.name (entry.contents ++ more)

  contents_read :
      slice input (length before + 12 + length entry.name) (length entry.contents) ≡ entry.contents
  unfolding slice
  contents_read =
      let twelve = length-entry_head entry in
      ap (λ (n : ℕ). slice input n (length entry.contents))
        {x = length before + 12 + length entry.name}
        {y = length before + (length head + length entry.name)} (omega arith)
      ∙ slice-append_skip before (head ++ (entry.name ++ (entry.contents ++ more)))
          (length head + length entry.name) (length entry.contents)
      ∙ slice-append_skip head (entry.name ++ (entry.contents ++ more)) (length entry.name)
          (length entry.contents)
      ∙ slice-append_here entry.name (entry.contents ++ more) (length entry.contents)
      ∙ take-append_head entry.contents more

  -- The entry is read, behind those that were read before.
  pub get_entry-written :
      (payload_end : ℕ) (files : List FileEntry)
      → length before + entry_size entry ≤ payload_end
      → payload_end ≤ 4194304
      → has_name entry.name files ≡ false
      → get_entry input 3 payload_end files (length before)
        ≡ ok (files ++ entry ∷ [], length before + 12 + length entry.name + length entry.contents)
  unfolding get_entry
  get_entry-written payload_end files low high fresh =
      let a : ok_or (checked_add (length before) 12) corrupt_record ≡ ok (length before + 12) =
        ground arith in
      let b : ok_or (checked_add (length before + 12) (length entry.name)) corrupt_record
          ≡ ok (length before + 12 + length entry.name) =
        ground arith in
      let c : ok_or (checked_add (length before + 12 + length entry.name) (length entry.contents))
            corrupt_record
          ≡ ok (length before + 12 + length entry.name + length entry.contents) =
        ground arith in
      let d : ltb payload_end (length before + 12) ≡ false = ground arith in
      let e : ltb payload_end (length before + 12 + length entry.name + length entry.contents)
          ≡ false =
        ground arith in
      simp (
        a, d, name_length_word, contents_length_word, metadata_read, b, c, e, name_read,
        storable.text, storable.path, storable.empty, fresh, contents_read,
      )
