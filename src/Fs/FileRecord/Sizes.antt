-- ===== src/Fs/FileRecord/Sizes.antt =====
-- The size of the records that kernel/src/fs.rs writes.
use codex_os.Prelude.{
  ℕ, zero, suc, ◌*◌, ◌/◌, ◌≤◌, ◌≡◌, refl, ap, sym, ◌∙◌, ltb, max, List, [], ◌∷◌, true, arith,
  length, checked_add, u64_max,
}
use codex_os.Prelude.Bits.{bit_and_power_mask}
use codex_os.Prelude.Results.{Result, ok, ok_or, bind-passed, fail_if-passed, value_or}
use codex_os.Bytes.{put}
use codex_os.Fs.{
  FsError, FileEntry, sector_size, max_record_bytes, record_bytes_min, max_files, align_up_usize,
  arithmetic_overflow, too_many_files, snapshot_too_large, record_header_bytes,
}
use codex_os.Fs.FilePath.{validate_path, validate_tree}
use codex_os.Fs.FileRecord.{
  put_entry, put_entries, record_header, seal_record, encode_record, required_record_bytes,
}
use codex_os.Bytes.Appended.{length-zeros}

pub length-put :
    (output : List ℕ) (offset : ℕ) (source : List ℕ)
    → length (put output offset source) ≡ length output
unfolding put
length-put output zero [] = refl
length-put [] zero (b ∷ source) = refl
length-put (x ∷ output) zero (b ∷ source) = ap suc (length-put output zero source)
length-put [] (suc offset) source = refl
length-put (x ∷ output) (suc offset) source = ap suc (length-put output offset source)

length-put_entry :
    (output : List ℕ) (cursor : ℕ) (entry : FileEntry) (next : List ℕ × ℕ)
    → put_entry output cursor entry ≡ ok next
    → length (next.0) ≡ length output
unfolding put_entry
length-put_entry output cursor entry next h =
    let (u, (e, h1)) = bind-passed (validate_path entry.name) _ next h in
    let same = ap (value_or (output, 0)) h1 in sym (ap (λ r. length (r.0)) same) ∙ simp (length-put)

length-put_entries :
    (output : List ℕ) (cursor : ℕ) (files : List FileEntry) (written : List ℕ × ℕ)
    → put_entries output cursor files ≡ ok written
    → length (written.0) ≡ length output
unfolding put_entries
length-put_entries output cursor [] written h =
    sym (ap (λ (r : Result FsError (List ℕ × ℕ)). length ((value_or (output, 0) r).0)) h)
length-put_entries output cursor (entry ∷ files) written h =
    let (next, (e, h1)) = bind-passed (put_entry output cursor entry) _ written h in
    length-put_entries (next.0) (next.1) files written h1
    ∙ length-put_entry output cursor entry next e

length-seal_record :
    (output : List ℕ) (cursor : ℕ) → length (seal_record output cursor) ≡ length output
unfolding seal_record
length-seal_record output cursor = simp (length-put)

length-record_header :
    (record_bytes generation count : ℕ)
    → length (record_header record_bytes generation count) ≡ record_bytes
unfolding record_header
length-record_header record_bytes generation count = simp (length-put, length-zeros)

-- Aligning to sectors gives whole sectors.
align_up_usize-whole :
    (value aligned : ℕ)
    → align_up_usize value sector_size ≡ ok aligned
    → aligned ≡ aligned / 512 * 512
unfolding align_up_usize
align_up_usize-whole value aligned h =
    let (padded, (e, h1)) =
      bind-passed (ok_or (checked_add value 511) arithmetic_overflow) _ aligned h in
    let same = ap (value_or 0) h1 in
    let narrow : padded ≤ u64_max = ground arith in
    let mask = bit_and_power_mask 55 9 padded refl (omega arith) in omega arith

-- Whole sectors, from 64 to 8192 of them.
pub record IsSized (bytes : List ℕ) : Type 0 where
  pub whole : length bytes ≡ length bytes / sector_size * sector_size
  pub at_least : 64 ≤ length bytes / sector_size
  pub at_most : length bytes / sector_size ≤ 8192

sized :
    (n : ℕ) (bytes : List ℕ)
    → length bytes ≡ n
    → n ≡ n / 512 * 512
    → 32768 ≤ n
    → n ≤ 4194304
    → IsSized bytes
sized n bytes e whole low high = record {
  whole = omega arith;
  at_least = omega arith;
  at_most = omega arith;
}

-- A record that is encoded takes whole sectors, from 64 to 8192 of them.
pub encode_record-IsSized :
    (generation : ℕ) (files : List FileEntry) (bytes : List ℕ)
    → encode_record generation files ≡ ok bytes
    → IsSized bytes
unfolding encode_record
encode_record-IsSized generation files bytes h =
    let (few, h1) = fail_if-passed (ltb max_files (length files)) too_many_files _ bytes h in
    let (u, (e2, h2)) = bind-passed (validate_tree files true) _ bytes h1 in
    let (required, (e3, h3)) = bind-passed (required_record_bytes files) _ bytes h2 in
    let (aligned, (e4, h4)) = bind-passed (align_up_usize required sector_size) _ bytes h3 in
    let size = max aligned record_bytes_min in
    let (small, h5) = fail_if-passed (ltb max_record_bytes size) snapshot_too_large _ bytes h4 in
    let (written, (e6, h6)) =
      bind-passed
        (put_entries (record_header size generation (length files)) record_header_bytes files) _
        bytes h5 in
    let same = ap (value_or []) h6 in
    let long : length bytes ≡ size =
      sym (ap length same)
      ∙ length-seal_record (written.0) (written.1)
      ∙ length-put_entries (record_header size generation (length files)) record_header_bytes files
          written e6
      ∙ length-record_header size generation (length files) in
    let whole = align_up_usize-whole required aligned e4 in
    let low : 32768 ≤ max aligned 32768 = omega arith in
    let high : max aligned 32768 ≤ 4194304 = ground arith in
    sized size bytes long (omega arith) low high
