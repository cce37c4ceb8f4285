-- ===== src/Fs/FileRecord/RoundTrip.antt =====
-- The records that kernel/src/fs.rs writes, read again.
use mathlib.Core.List.{append_assoc, append-nil}
use codex_os.Prelude.{
  All, ℕ, ◌+◌, ◌≤◌, ◌≡◌, refl, sym, ap, ◌∙◌, leb, ltb, List, [], ◌∷◌, ◌++◌, true, false, length,
  length-append, take, arith, checked_add, u32_max, u64_max, eq_refl,
}
use codex_os.Prelude.Results.{ok, bind-ok, bind-passed, ok_or}
use codex_os.Bytes.{zeros, slice, put, put_u32, to_le_bytes, bytes_eq, crc32}
use codex_os.Bytes.Appended.{slice_part}
use codex_os.Bytes.Words.{from_le_bytes-to_le_bytes, crc32-le}
use codex_os.Fs.{FileEntry, get_u32, get_u64, corrupt_record}
use codex_os.Fs.FilePath.{validate_entries, validate_entry, validate_tree}
use codex_os.Fs.FileRecord.{
  encode_record, decode_record, check_record_header, get_entries, get_entry, record_magic,
}
use codex_os.Fs.FileRecord.Written.{
  entry_bytes, entry_head, header, header_over, length-entry_bytes, length-header, payload,
}
use codex_os.Fs.FileRecord.Encoded.{encode_record-IsEncoded, sealed}
use codex_os.Fs.FileRecord.ReadEntries.{
  IsReadable, IsStorable, validate_entry-IsReadable, get_entry-written,
}
use codex_os.Fs.FileRecord.Distinct.{AreFresh, HasDistinctNames, HasDistinctNames-AreFresh}

-- Files that a record can hold: names that are texts, each once, and permissions of 16 bits.
pub record IsRecordable (files : List FileEntry) : Type 0 where
  pub storable : All IsStorable files
  pub distinct : HasDistinctNames files

validate_entries-IsReadable :
    (files rest : List FileEntry)
    → All IsStorable rest
    → validate_entries files true rest ≡ ok tt
    → All IsReadable rest
unfolding validate_entries
validate_entries-IsReadable files [] s h = tt
validate_entries-IsReadable files (entry ∷ rest) (here, s) h =
    let (u, (e, h1)) = bind-passed (validate_entry files true entry) _ tt h in
    (validate_entry-IsReadable files entry here e, validate_entries-IsReadable files rest s h1)

-- The entries of a payload are read, behind those that were read before.
get_entries-payload :
    (input before tail : List ℕ) (seen files : List FileEntry) (payload_end : ℕ)
    → input ≡ before ++ (payload files ++ tail)
    → All IsReadable files
    → AreFresh seen files
    → length before + length (payload files) ≡ payload_end
    → payload_end ≤ 4194304
    → get_entries (length files) input 3 payload_end seen (length before)
      ≡ ok (seen ++ files, payload_end)
unfolding get_entries
get_entries-payload input before tail seen [] payload_end split s f long small =
    let same : length before ≡ payload_end = omega arith in
    (λ i. ok ((sym (append-nil seen)) i, same i))
get_entries-payload input before tail seen (entry ∷ files) payload_end split (here, s) (fresh, f)
      long small =
    let more = payload files ++ tail in
    let sum = length-append (entry_bytes entry) (payload files) in
    let size = length-entry_bytes entry in
    let grown = before ++ entry_bytes entry in
    let total = length-append before (entry_bytes entry) in
    let apart : input ≡ grown ++ more =
      split
      ∙ ap (λ t. before ++ t) (append_assoc (entry_bytes entry) (payload files) tail)
      ∙ sym (append_assoc before (entry_bytes entry) more) in
    let flat : input
        ≡ before ++ (entry_head entry (zeros 12) ++ (entry.name ++ (entry.contents ++ more))) =
      apart
      ∙ append_assoc before (entry_bytes entry) more
      ∙ ap (λ t. before ++ t)
          (append_assoc (entry_head entry (zeros 12)) (entry.name ++ entry.contents) more
            ∙ ap (λ t. entry_head entry (zeros 12) ++ t)
                (append_assoc entry.name entry.contents more)) in
    let read : get_entry input 3 payload_end seen (length before)
        ≡ ok (seen ++ entry ∷ [], length grown) =
      ap (λ t. get_entry t 3 payload_end seen (length before)) flat
      ∙ get_entry-written before entry more here (omega arith) payload_end seen (omega arith) small
          fresh
      ∙ ap (λ (n : ℕ). ok (seen ++ entry ∷ [], n))
          {x = length before + 12 + length entry.name + length entry.contents} {y = length grown}
          (omega arith) in
    bind-ok (get_entry input 3 payload_end seen (length before)) _
      (seen ++ entry ∷ [], length grown) read
    ∙ get_entries-payload input grown tail (seen ++ entry ∷ []) files payload_end apart s f
        (omega arith) small
    ∙ ap (λ t. ok (t, payload_end)) (append_assoc seen (entry ∷ []) files)

-- The words of a header, whatever stands behind it.
module _ (g c p pc hc : ℕ) (rest : List ℕ) where
  abbrev whole : List ℕ
  whole = header g c p pc hc ++ rest

  within : (end : ℕ) → end ≤ 64 → leb end (length whole) ≡ true
  within end h =
      let total = length-append (header g c p pc hc) rest in
      let front = length-header g c p pc hc in ground arith

  word :
      (offset n : ℕ)
      → slice whole offset 4 ≡ to_le_bytes 4 n
      → n ≤ u32_max
      → offset + 4 ≤ 64
      → get_u32 whole offset ≡ ok n
  word offset n e small inside =
      rw (within (offset + 4) inside, e, from_le_bytes-to_le_bytes 4 n (omega arith)) refl

  version_word : get_u32 whole 8 ≡ ok 3
  unfolding header_over put to_le_bytes slice
  version_word = word 8 3 refl (omega arith) (omega arith)

  header_word : get_u32 whole 12 ≡ ok 64
  unfolding header_over put to_le_bytes slice
  header_word = word 12 64 refl (omega arith) (omega arith)

  generation_word : g ≤ u64_max → get_u64 whole 16 ≡ ok g
  unfolding header_over put to_le_bytes slice
  generation_word h = rw (within 24 (omega arith), from_le_bytes-to_le_bytes 8 g (omega arith)) refl

  count_word : c ≤ u32_max → get_u32 whole 24 ≡ ok c
  unfolding header_over put to_le_bytes slice
  count_word h = word 24 c refl h (omega arith)

  payload_word : p ≤ u32_max → get_u32 whole 28 ≡ ok p
  unfolding header_over put to_le_bytes slice
  payload_word h = word 28 p refl h (omega arith)

  payload_crc_word : pc ≤ u32_max → get_u32 whole 32 ≡ ok pc
  unfolding header_over put to_le_bytes slice
  payload_crc_word h = word 32 pc refl h (omega arith)

  header_crc_word : hc ≤ u32_max → get_u32 whole 36 ≡ ok hc
  unfolding header_over put to_le_bytes slice
  header_crc_word h = word 36 hc refl h (omega arith)

  magic_same : bytes_eq (slice whole 0 8) record_magic ≡ true
  unfolding header_over put to_le_bytes slice bytes_eq
  magic_same = refl

  cleared : put_u32 (take 64 whole) 36 0 ≡ header g c p pc 0
  unfolding header_over put to_le_bytes
  cleared = refl

  long_enough : ltb (length whole) 64 ≡ false
  long_enough =
      let total = length-append (header g c p pc hc) rest in
      let front = length-header g c p pc hc in ground arith

  header_checked : g ≤ u64_max → crc32 (header g c p pc 0) ≡ hc → check_record_header whole g ≡ ok 3
  unfolding check_record_header
  header_checked fits same =
      let bound = crc32-le (header g c p pc 0) in
      let small : hc ≤ u32_max = coe 0 1 (i. same i ≤ u32_max) bound in
      simp (
        long_enough,
        version_word,
        header_word,
        generation_word fits,
        magic_same,
        eq_refl g,
        header_crc_word small,
        cleared,
        same,
        eq_refl hc,
      )

decoded :
    (generation : ℕ) (files : List FileEntry) (spare : ℕ)
    → generation ≤ u64_max
    → All IsStorable files
    → HasDistinctNames files
    → 64 + length (payload files) + spare ≤ 4194304
    → length files ≤ 128
    → validate_tree files true ≡ ok tt
    → decode_record (sealed generation files ++ zeros spare) generation ≡ ok files
unfolding decode_record
decoded generation files spare fits storable distinct small few tree =
    let n = length (payload files) in
    let crc = crc32 (payload files) in
    let hc = crc32 (header generation (length files) n crc 0) in
    let head = header generation (length files) n crc hc in
    let rest = payload files ++ zeros spare in
    let front = length-header generation (length files) n crc hc in
    let flat : sealed generation files ++ zeros spare ≡ head ++ rest =
      append_assoc head (payload files) (zeros spare) in
    let crc_small = crc32-le (payload files) in
    let few_test : ltb 128 (length files) ≡ false = ground arith in
    let end : ok_or (checked_add 64 n) corrupt_record ≡ ok (64 + n) = ground arith in
    let inside : ltb (length (head ++ rest)) (64 + n) ≡ false =
      let total = length-append head rest in
      let sum = length-append (payload files) (zeros spare) in ground arith in
    let texts : slice (head ++ rest) 64 n ≡ payload files =
      ap (λ (k : ℕ). slice (head ++ rest) k n) (sym front)
      ∙ slice_part head (payload files) (zeros spare) in
    let read : get_entries (length files) (head ++ rest) 3 (64 + n) [] 64 ≡ ok (files, 64 + n) =
      ap (λ (k : ℕ). get_entries (length files) (head ++ rest) 3 (64 + n) [] k) (sym front)
      ∙ get_entries-payload (head ++ rest) head (zeros spare) [] files (64 + n) refl
          (validate_entries-IsReadable files files storable tree)
          (HasDistinctNames-AreFresh files distinct) (omega arith) (omega arith) in
    ap (λ t. decode_record t generation) flat
    ∙ simp (
      header_checked generation (length files) n crc hc rest fits refl,
      count_word generation (length files) n crc hc rest (omega arith),
      payload_word generation (length files) n crc hc rest (omega arith),
      payload_crc_word generation (length files) n crc hc rest crc_small,
      few_test,
      end,
      inside,
      texts,
      eq_refl crc,
      read,
      eq_refl (64 + n),
      tree,
    )

-- A record that is encoded from files whose names are texts, each once, and whose permissions are of 16
-- bits, decodes to the files.
pub decode_record-encode_record :
    (generation : ℕ) (files : List FileEntry) (bytes : List ℕ)
    → generation ≤ u64_max
    → IsRecordable files
    → encode_record generation files ≡ ok bytes
    → decode_record bytes generation ≡ ok files
decode_record-encode_record generation files bytes fits r h =
    let e = encode_record-IsEncoded generation files bytes h in
    ap (λ t. decode_record t generation) e.as_sealed
    ∙ decoded generation files e.spare fits r.storable r.distinct e.fits e.few e.tree
