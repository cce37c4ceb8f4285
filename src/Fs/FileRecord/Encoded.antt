-- ===== src/Fs/FileRecord/Encoded.antt =====
-- The whole record that encode_record of kernel/src/fs.rs gives.
use mathlib.Core.List.{append_assoc}
use codex_os.Prelude.{
  ℕ, ◌+◌, ◌-◌, ◌≤◌, ◌≡◌, refl, sym, ap, ◌∙◌, ltb, max, List, [], ◌∷◌, ◌++◌, true, length,
  length-append, take, arith, checked_add, u64_max,
}
use codex_os.Prelude.Bits.{bit_and_power_mask}
use codex_os.Prelude.Results.{ok, ◌>>=◌, bind-ok, bind-passed, fail_if-passed, ok_or, value_or}
use codex_os.Bytes.{zeros, crc32}
use codex_os.Bytes.Appended.{take-append_head}
use codex_os.Fs.{
  FileEntry, sector_size, max_record_bytes, record_bytes_min, max_files, align_up_usize,
  arithmetic_overflow, too_many_files, snapshot_too_large, record_header_bytes,
}
use codex_os.Fs.FilePath.{validate_path, validate_entry, validate_entries, validate_tree}
use codex_os.Fs.FileRecord.{
  put_entries, record_header, seal_record, encode_record, required_record_bytes, add_required,
  record_entry_bytes,
}
use codex_os.Fs.FileRecord.Written.{
  AllValid, entry_bytes, header, length-entry_bytes, length-header, payload, put_entries-zeros,
  record_header-zeros, seal_record-header,
}

-- The record of the files, up to the zeros at its end.
abbrev pub sealed : ℕ → List FileEntry → List ℕ
sealed generation files =
    let n = length (payload files) in
    let crc = crc32 (payload files) in
    header generation (length files) n crc (crc32 (header generation (length files) n crc 0))
    ++ payload files

-- What is encoded, and that it is not too large.
pub record IsEncoded (generation : ℕ) (files : List FileEntry) (bytes : List ℕ) : Type 0 where
  pub spare : ℕ
  pub as_sealed : bytes ≡ sealed generation files ++ zeros spare
  pub fits : 64 + length (payload files) + spare ≤ 4194304
  pub few : length files ≤ 128
  pub tree : validate_tree files true ≡ ok tt

add_of : (a b c : ℕ) → ok_or (checked_add a b) arithmetic_overflow ≡ ok c → a + b ≡ c
add_of a b c h = ground arith

add_required-size :
    (start : ℕ) (files : List FileEntry) (required : ℕ)
    → add_required start files ≡ ok required
    → required ≡ start + length (payload files)
unfolding add_required
add_required-size start [] required h = let e = ap (value_or 0) h in omega arith
add_required-size start (entry ∷ files) required h =
    let (a, (e1, h1)) =
      bind-passed (ok_or (checked_add start record_entry_bytes) arithmetic_overflow) _ required h in
    let (b, (e2, h2)) =
      bind-passed (ok_or (checked_add a (length entry.name)) arithmetic_overflow) _ required h1 in
    let (c, (e3, h3)) =
      bind-passed (ok_or (checked_add b (length entry.contents)) arithmetic_overflow) _ required
        h2 in
    let rest = add_required-size c files required h3 in
    omega (
      arith,
      add_of start 12 a e1,
      add_of a (length entry.name) b e2,
      add_of b (length entry.contents) c e3,
      length-append (entry_bytes entry) (payload files),
      length-entry_bytes entry,
    )

aligned_at_least :
    (value aligned : ℕ) → align_up_usize value sector_size ≡ ok aligned → value ≤ aligned
unfolding align_up_usize
aligned_at_least value aligned h =
    let (padded, (e, h1)) =
      bind-passed (ok_or (checked_add value 511) arithmetic_overflow) _ aligned h in
    let same = ap (value_or 0) h1 in
    let narrow : padded ≤ u64_max = ground arith in
    let sum : value + 511 ≡ padded = ground arith in
    let mask = bit_and_power_mask 55 9 padded refl (omega arith) in omega arith

valid_names :
    (files rest : List FileEntry) → validate_entries files true rest ≡ ok tt → AllValid rest
unfolding validate_entries validate_entry
valid_names files [] h = tt
valid_names files (entry ∷ rest) h =
    let (u, (e1, h1)) = bind-passed (validate_entry files true entry) _ tt h in
    let (v, (e2, h2)) = bind-passed (validate_path entry.name) _ tt e1 in
    (e2, valid_names files rest h1)

-- What put_entries and seal_record make of the files in a record of 64 bytes, the payload and `m` more.
written :
    (generation : ℕ) (files : List FileEntry) (m size : ℕ)
    → AllValid files
    → size ≡ 64 + (length (payload files) + m)
    → (put_entries (record_header size generation (length files)) 64 files >>= λ w.
        ok (seal_record (w.0) (w.1)))
      ≡ ok (sealed generation files ++ zeros m)
written generation files m size valid long =
    let n = length (payload files) in
    let head = header generation (length files) 0 0 0 in
    let before : record_header size generation (length files) ≡ head ++ zeros (n + m) =
      ap (λ (t : ℕ). record_header t generation (length files)) long
      ∙ record_header-zeros generation (length files) (n + m) in
    let at_head : 64 ≡ length head = sym (length-header generation (length files) 0 0 0) in
    let put : put_entries (record_header size generation (length files)) 64 files
        ≡ ok ((head ++ payload files) ++ zeros m, length (head ++ payload files)) =
      (λ i. put_entries (before i) (at_head i) files) ∙ put_entries-zeros head files m valid in
    let cursor : length (head ++ payload files) - 64 ≡ n =
      omega (arith, length-append head (payload files)) in
    let seal =
      seal_record-header generation (length files) (length (head ++ payload files))
        (payload files ++ zeros m) in
    bind-ok (put_entries (record_header size generation (length files)) 64 files) _
      ((head ++ payload files) ++ zeros m, length (head ++ payload files)) put
    ∙ ap (λ t. ok (seal_record t (length (head ++ payload files))))
        (append_assoc head (payload files) (zeros m))
    ∙ ap ok (
        seal
        ∙ ap
            (λ (k : ℕ).
              header generation (length files) k (crc32 (take k (payload files ++ zeros m))) (
                crc32 (
                  header generation (length files) k (crc32 (take k (payload files ++ zeros m))) 0))
              ++ (payload files ++ zeros m))
            cursor
        ∙ ap
            (λ p.
              header generation (length files) n (crc32 p)
                (crc32 (header generation (length files) n (crc32 p) 0))
              ++ (payload files ++ zeros m))
            (take-append_head (payload files) (zeros m))
        ∙ sym (append_assoc _ (payload files) (zeros m)))

pub encode_record-IsEncoded :
    (generation : ℕ) (files : List FileEntry) (bytes : List ℕ)
    → encode_record generation files ≡ ok bytes
    → IsEncoded generation files bytes
unfolding encode_record
encode_record-IsEncoded generation files bytes h =
    let (few, h1) = fail_if-passed (ltb max_files (length files)) too_many_files _ bytes h in
    let (u, (tree, h2)) = bind-passed (validate_tree files true) _ bytes h1 in
    let (required, (e3, h3)) = bind-passed (required_record_bytes files) _ bytes h2 in
    let (aligned, (e4, h4)) = bind-passed (align_up_usize required sector_size) _ bytes h3 in
    let size = max aligned record_bytes_min in
    let (small, h5) = fail_if-passed (ltb max_record_bytes size) snapshot_too_large _ bytes h4 in
    let n = length (payload files) in
    let exact = add_required-size record_header_bytes files required e3 in
    let enough = aligned_at_least required aligned e4 in
    let spare = size - (64 + n) in
    let long : size ≡ 64 + (n + spare) = omega arith in
    let at_most : size ≤ 4194304 = ground arith in
    record {
      spare = spare;
      as_sealed =
          ap (value_or bytes)
            (sym h5 ∙ written generation files spare size (valid_names files files tree) long);
      fits = omega arith;
      few = ground arith;
      tree = tree;
    }
