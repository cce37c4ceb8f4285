-- ===== src/Fs/FileRecord/Written.antt =====
-- The bytes of a record of kernel/src/fs.rs: a header of 64 bytes, the entries one after the other, and
-- zeros.
use mathlib.Core.List.{append_assoc, append-nil}
use codex_os.Prelude.{
  ℕ, ◌+◌, ◌-◌, ◌≡◌, refl, sym, ap, ◌∙◌, List, [], ◌∷◌, ◌++◌, length, length-append, take, arith,
}
use codex_os.Prelude.Results.{ok, bind-ok}
use codex_os.Bytes.{zeros, slice, put, put_u16, put_u32, put_u64, to_le_bytes, crc32}
use codex_os.Bytes.Appended.{
  put-append_here, put-append_skip, put-append_head, zeros_add, length-zeros,
}
use codex_os.Fs.{FileEntry, format_version, record_header_bytes}
use codex_os.Fs.FilePath.{validate_path}
use codex_os.Fs.FileRecord.{
  put_entry, put_entries, encode_kind, record_header, record_magic, seal_record,
}

-- The fixed part of an entry.
unfoldable pub entry_head : FileEntry → List ℕ → List ℕ
entry_head entry below =
    let o1 = put_u16 (put_u16 below 0 (length entry.name)) 2 (encode_kind entry.kind) in
    let o2 = put_u16 (put_u32 o1 4 (length entry.contents)) 8 entry.permissions in put_u16 o2 10 0

abbrev pub entry_bytes : FileEntry → List ℕ
entry_bytes entry = entry_head entry (zeros 12) ++ (entry.name ++ entry.contents)

abbrev pub entry_size : FileEntry → ℕ
entry_size entry = 12 + (length entry.name + length entry.contents)

pub length-entry_head : (entry : FileEntry) → length (entry_head entry (zeros 12)) ≡ 12
unfolding entry_head put to_le_bytes
length-entry_head entry = refl

pub length-entry_bytes : (entry : FileEntry) → length (entry_bytes entry) ≡ entry_size entry
length-entry_bytes entry =
    length-append (entry_head entry (zeros 12)) (entry.name ++ entry.contents)
    ∙ omega (arith, length-entry_head entry, length-append entry.name entry.contents)

head_over :
    (entry : FileEntry) (rest : List ℕ)
    → entry_head entry (zeros 12 ++ rest) ≡ entry_head entry (zeros 12) ++ rest
unfolding entry_head put to_le_bytes
head_over entry rest = refl

-- An entry is written at the end of what is there, over zeros.
head_behind :
    (before below : List ℕ) (entry : FileEntry)
    → (let o1 =
          put_u16
            (put_u16 (before ++ below) (length before) (length entry.name))
            (length before + 2)
            (encode_kind entry.kind) in
        let o2 =
          put_u16
            (put_u32 o1 (length before + 4) (length entry.contents))
            (length before + 8)
            entry.permissions in
        put_u16 o2 (length before + 10) 0)
      ≡ before ++ entry_head entry below
unfolding entry_head
head_behind before below entry = simp (put-append_here, put-append_skip)

-- The name and the contents, behind the fixed part and over zeros.
texts_behind :
    (before head name contents rest : List ℕ)
    → length head ≡ 12
    → put
        (put
          (before ++ (head ++ (zeros (length name) ++ (zeros (length contents) ++ rest))))
          (length before + 12)
          name)
        (length before + 12 + length name)
        contents
      ≡ before ++ (head ++ (name ++ (contents ++ rest)))
texts_behind before head name contents rest h =
    let first : put (before ++ (head ++ (zeros (length name) ++ (zeros (length contents) ++ rest))))
          (length before + 12) name
        ≡ before ++ (head ++ (name ++ (zeros (length contents) ++ rest))) =
      put-append_skip before (head ++ (zeros (length name) ++ (zeros (length contents) ++ rest)))
        name 12
      ∙ ap (λ t. before ++ t)
          (ap
              (λ (n : ℕ).
                put (head ++ (zeros (length name) ++ (zeros (length contents) ++ rest))) n name)
              (sym h)
            ∙ put-append_here head (zeros (length name) ++ (zeros (length contents) ++ rest)) name
            ∙ ap (λ t. head ++ t)
                (put-append_head (zeros (length name)) (zeros (length contents) ++ rest) name
                  (length-zeros (length name)))) in
    ap (λ t. put t (length before + 12 + length name) contents) first
    ∙ ap
        (λ (n : ℕ).
          put (before ++ (head ++ (name ++ (zeros (length contents) ++ rest)))) n contents)
        {x = length before + 12 + length name} {y = length before + (length head + length name)}
        (omega arith)
    ∙ put-append_skip before (head ++ (name ++ (zeros (length contents) ++ rest))) contents
        (length head + length name)
    ∙ ap (λ t. before ++ t)
        (put-append_skip head (name ++ (zeros (length contents) ++ rest)) contents (length name)
          ∙ ap (λ t. head ++ t)
              (put-append_here name (zeros (length contents) ++ rest) contents
                ∙ ap (λ t. name ++ t)
                    (put-append_head (zeros (length contents)) rest contents
                      (length-zeros (length contents)))))

zeros_entry :
    (entry : FileEntry) (m : ℕ)
    → zeros (entry_size entry + m)
      ≡ zeros 12 ++ (zeros (length entry.name) ++ (zeros (length entry.contents) ++ zeros m))
zeros_entry entry m =
    ap zeros {x = entry_size entry + m} {y = 12 + (length entry.name + (length entry.contents + m))}
      (omega arith)
    ∙ zeros_add 12 (length entry.name + (length entry.contents + m))
    ∙ ap (λ t. zeros 12 ++ t)
        (zeros_add (length entry.name) (length entry.contents + m)
          ∙ ap (λ t. zeros (length entry.name) ++ t) (zeros_add (length entry.contents) m))

put_entry-zeros :
    (before : List ℕ) (entry : FileEntry) (m : ℕ)
    → validate_path entry.name ≡ ok tt
    → put_entry (before ++ zeros (entry_size entry + m)) (length before) entry
      ≡ ok ((before ++ entry_bytes entry) ++ zeros m, length (before ++ entry_bytes entry))
unfolding put_entry
put_entry-zeros before entry m valid =
    let head = entry_head entry (zeros 12) in
    let texts = zeros (length entry.name) ++ (zeros (length entry.contents) ++ zeros m) in
    let headed =
      ap
        (λ z.
          put_u16
            (put_u16
              (put_u32
                (put_u16 (put_u16 (before ++ z) (length before) (length entry.name))
                  (length before + 2) (encode_kind entry.kind))
                (length before + 4) (length entry.contents))
              (length before + 8) entry.permissions)
            (length before + 10) 0)
        (zeros_entry entry m)
      ∙ head_behind before (zeros 12 ++ texts) entry
      ∙ ap (λ t. before ++ t) (head_over entry texts) in
    let whole =
      ap
        (λ t.
          put (put t (length before + 12) entry.name) (length before + 12 + length entry.name)
            entry.contents)
        headed
      ∙ texts_behind before head entry.name entry.contents (zeros m) (length-entry_head entry)
      ∙ ap (λ t. before ++ t)
          (ap (λ t. head ++ t) (sym (append_assoc entry.name entry.contents (zeros m)))
            ∙ sym (append_assoc head (entry.name ++ entry.contents) (zeros m)))
      ∙ sym (append_assoc before (entry_bytes entry) (zeros m)) in
    let at_end : length before + 12 + length entry.name + length entry.contents
        ≡ length (before ++ entry_bytes entry) =
      omega (arith, length-append before (entry_bytes entry), length-entry_bytes entry) in
    bind-ok (validate_path entry.name) _ tt valid ∙ (λ i. ok (whole i, at_end i))

abbrev pub payload : List FileEntry → List ℕ
payload [] = []
payload (entry ∷ files) = entry_bytes entry ++ payload files

abbrev pub AllValid : List FileEntry → Type 0
AllValid [] = Unit
AllValid (entry ∷ files) = (validate_path entry.name ≡ ok tt) × AllValid files

-- The entries are written one after the other.
pub put_entries-zeros :
    (before : List ℕ) (files : List FileEntry) (m : ℕ)
    → AllValid files
    → put_entries (before ++ zeros (length (payload files) + m)) (length before) files
      ≡ ok ((before ++ payload files) ++ zeros m, length (before ++ payload files))
unfolding put_entries
put_entries-zeros before [] m valid =
    let same : before ≡ before ++ [] = sym (append-nil before) in
    let gone : 0 + m ≡ m = omega arith in (λ i. ok (same i ++ zeros (gone i), length (same i)))
put_entries-zeros before (entry ∷ files) m (valid, rest) =
    let grown = before ++ entry_bytes entry in
    let room : length (payload (entry ∷ files)) + m
        ≡ entry_size entry + (length (payload files) + m) =
      omega (arith, length-append (entry_bytes entry) (payload files), length-entry_bytes entry) in
    let assoc : grown ++ payload files ≡ before ++ payload (entry ∷ files) =
      append_assoc before (entry_bytes entry) (payload files) in
    ap (λ (n : ℕ). put_entries (before ++ zeros n) (length before) (entry ∷ files)) room
    ∙ bind-ok
        (put_entry (before ++ zeros (entry_size entry + (length (payload files) + m)))
          (length before) entry)
        _ (grown ++ zeros (length (payload files) + m), length grown)
        (put_entry-zeros before entry (length (payload files) + m) valid)
    ∙ put_entries-zeros grown files m rest
    ∙ (λ i. ok (assoc i ++ zeros m, length (assoc i)))

-- The header over the first 64 bytes, with the length and the checksums that are put in last.
unfoldable pub header_over : List ℕ → ℕ → ℕ → ℕ → ℕ → ℕ → List ℕ
header_over below generation count payload_bytes payload_crc header_crc =
    let o1 = put_u32 (put below 0 record_magic) 8 format_version in
    let o2 = put_u32 (put_u64 (put_u32 o1 12 record_header_bytes) 16 generation) 24 count in
    put_u32 (put_u32 (put_u32 o2 28 payload_bytes) 32 payload_crc) 36 header_crc

abbrev pub header : ℕ → ℕ → ℕ → ℕ → ℕ → List ℕ
header generation count payload_bytes payload_crc header_crc =
    header_over (zeros 64) generation count payload_bytes payload_crc header_crc

pub length-header : (g c p pc hc : ℕ) → length (header g c p pc hc) ≡ 64
unfolding header_over put to_le_bytes
length-header g c p pc hc = refl

pub record_header-zeros :
    (generation count n : ℕ)
    → record_header (64 + n) generation count ≡ header generation count 0 0 0 ++ zeros n
unfolding record_header header_over put to_le_bytes
record_header-zeros generation count n =
    ap
      (λ z.
        put_u32
          (put_u64
            (put_u32 (put_u32 (put z 0 record_magic) 8 format_version) 12 record_header_bytes) 16
            generation)
          24 count)
      (zeros_add 64 n)

pub seal_record-header :
    (generation count cursor : ℕ) (rest : List ℕ)
    → seal_record (header generation count 0 0 0 ++ rest) cursor ≡ (
        let n = cursor - 64 in
        let crc = crc32 (take n rest) in
        header generation count n crc (crc32 (header generation count n crc 0)) ++ rest)
unfolding seal_record header_over put to_le_bytes slice
seal_record-header generation count cursor rest = refl
