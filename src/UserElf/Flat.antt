-- ===== src/UserElf/Flat.antt =====
-- The file that build_flat_rx_executable of kernel/src/user_elf.rs makes, and what its parser reads
-- at each offset of the headers.
use codex_os.Prelude.{
  ℕ, ◌+◌, ◌≤◌, ◌≡◌, refl, ap, sym, ◌∙◌, List, [], ◌∷◌, ◌++◌, true, false, arith, length,
  length-append, u64_max, leb, ltb,
}
use codex_os.Prelude.Results.{ok}
use codex_os.Bytes.{
  zeros, slice, put, to_le_bytes, from_le_bytes, bytes_eq, get_u16, get_u32, get_u64,
}
use codex_os.Bytes.Appended.{length-zeros, zeros_add}
use codex_os.Bytes.Fields.{put-field}
use codex_os.Bytes.Words.{from_le_bytes-to_le_bytes}
use codex_os.UserElf.{flat_headers, check_header, read_u32, read_u64, read_u16}

pub append_nil : (xs : List ℕ) → xs ++ [] ≡ xs
append_nil [] = refl
append_nil (x ∷ xs) = ap (λ t. x ∷ t) (append_nil xs)

-- The headers over the rest of the file.
abbrev pub headed : ℕ → ℕ → List ℕ → List ℕ
headed base n rest = flat_headers (zeros 120) base n ++ rest

headers_over :
    (base n : ℕ) (rest : List ℕ) → flat_headers (zeros 120 ++ rest) base n ≡ headed base n rest
unfolding flat_headers put to_le_bytes
headers_over base n rest = refl

pub length-headers : (base n : ℕ) → length (flat_headers (zeros 120) base n) ≡ 120
unfolding flat_headers put to_le_bytes
length-headers base n = refl

module _ (base n : ℕ) (rest : List ℕ) where
  fits : (end : ℕ) → end ≤ 120 → leb end (length (headed base n rest)) ≡ true
  fits end h =
      let total = length-append (flat_headers (zeros 120) base n) rest in
      let front = length-headers base n in ground arith

  long_enough : (end : ℕ) → end ≤ 120 → ltb (length (headed base n rest)) end ≡ false
  long_enough end h =
      let total = length-append (flat_headers (zeros 120) base n) rest in
      let front = length-headers base n in ground arith

  u16_read :
      (offset value : ℕ)
      → offset + 2 ≤ 120
      → get_u16 (headed base n rest) offset ≡ value
      → read_u16 (headed base n rest) offset ≡ ok value
  u16_read offset value h e = rw (fits (offset + 2) h, e) refl

  u32_read :
      (offset value : ℕ)
      → offset + 4 ≤ 120
      → get_u32 (headed base n rest) offset ≡ value
      → read_u32 (headed base n rest) offset ≡ ok value
  u32_read offset value h e = rw (fits (offset + 4) h, e) refl

  u64_read :
      (offset value : ℕ)
      → offset + 8 ≤ 120
      → get_u64 (headed base n rest) offset ≡ value
      → read_u64 (headed base n rest) offset ≡ ok value
  u64_read offset value h e = rw (fits (offset + 8) h, e) refl

  version_read : read_u32 (headed base n rest) 20 ≡ ok 1
  unfolding flat_headers put to_le_bytes slice from_le_bytes
  version_read = u32_read 20 1 (omega arith) refl

  type_read : read_u16 (headed base n rest) 16 ≡ ok 2
  unfolding flat_headers put to_le_bytes slice from_le_bytes
  type_read = u16_read 16 2 (omega arith) refl

  machine_read : read_u16 (headed base n rest) 18 ≡ ok 62
  unfolding flat_headers put to_le_bytes slice from_le_bytes
  machine_read = u16_read 18 62 (omega arith) refl

  header_size_read : read_u16 (headed base n rest) 52 ≡ ok 64
  unfolding flat_headers put to_le_bytes slice from_le_bytes
  header_size_read = u16_read 52 64 (omega arith) refl

  entry_size_read : read_u16 (headed base n rest) 54 ≡ ok 56
  unfolding flat_headers put to_le_bytes slice from_le_bytes
  entry_size_read = u16_read 54 56 (omega arith) refl

  pub header_checked : check_header (headed base n rest) ≡ ok tt
  unfolding check_header flat_headers put to_le_bytes slice bytes_eq
  header_checked =
      rw
        (
          long_enough 64 (omega arith),
          version_read,
          type_read,
          machine_read,
          header_size_read,
          entry_size_read,
        )
        refl

  pub phoff_read : read_u64 (headed base n rest) 32 ≡ ok 64
  unfolding flat_headers put to_le_bytes slice from_le_bytes
  phoff_read = u64_read 32 64 (omega arith) refl

  pub phnum_read : read_u16 (headed base n rest) 56 ≡ ok 1
  unfolding flat_headers put to_le_bytes slice from_le_bytes
  phnum_read = u16_read 56 1 (omega arith) refl

  pub kind_read : read_u32 (headed base n rest) 64 ≡ ok 1
  unfolding flat_headers put to_le_bytes slice from_le_bytes
  kind_read = u32_read 64 1 (omega arith) refl

  pub flags_read : read_u32 (headed base n rest) 68 ≡ ok 5
  unfolding flat_headers put to_le_bytes slice from_le_bytes
  flags_read = u32_read 68 5 (omega arith) refl

  pub file_offset_read : read_u64 (headed base n rest) 72 ≡ ok 4096
  unfolding flat_headers put to_le_bytes slice from_le_bytes
  file_offset_read = u64_read 72 4096 (omega arith) refl

  pub alignment_read : read_u64 (headed base n rest) 112 ≡ ok 4096
  unfolding flat_headers put to_le_bytes slice from_le_bytes
  alignment_read = u64_read 112 4096 (omega arith) refl

  entry_slice : slice (headed base n rest) 24 8 ≡ to_le_bytes 8 base
  unfolding flat_headers put to_le_bytes slice
  entry_slice = refl

  pub entry_read : base ≤ u64_max → read_u64 (headed base n rest) 24 ≡ ok base
  entry_read h =
      u64_read 24 base (omega arith)
        (ap from_le_bytes entry_slice ∙ from_le_bytes-to_le_bytes 8 base (omega arith))

  address_slice : slice (headed base n rest) 80 8 ≡ to_le_bytes 8 base
  unfolding flat_headers put to_le_bytes slice
  address_slice = refl

  pub address_read : base ≤ u64_max → read_u64 (headed base n rest) 80 ≡ ok base
  address_read h =
      u64_read 80 base (omega arith)
        (ap from_le_bytes address_slice ∙ from_le_bytes-to_le_bytes 8 base (omega arith))

  file_size_slice : slice (headed base n rest) 96 8 ≡ to_le_bytes 8 n
  unfolding flat_headers put to_le_bytes slice
  file_size_slice = refl

  pub file_size_read : n ≤ u64_max → read_u64 (headed base n rest) 96 ≡ ok n
  file_size_read h =
      u64_read 96 n (omega arith)
        (ap from_le_bytes file_size_slice ∙ from_le_bytes-to_le_bytes 8 n (omega arith))

  memory_size_slice : slice (headed base n rest) 104 8 ≡ to_le_bytes 8 n
  unfolding flat_headers put to_le_bytes slice
  memory_size_slice = refl

  pub memory_size_read : n ≤ u64_max → read_u64 (headed base n rest) 104 ≡ ok n
  memory_size_read h =
      u64_read 104 n (omega arith)
        (ap from_le_bytes memory_size_slice ∙ from_le_bytes-to_le_bytes 8 n (omega arith))

-- The whole file, for a gap between the headers and the code.
pub code_placed :
    (base gap : ℕ) (code : List ℕ)
    → 120 + gap ≡ 4096
    → put (flat_headers (zeros (4096 + length code)) base (length code)) 4096 code
      ≡ headed base (length code) (zeros gap ++ code)
code_placed base gap code h =
    let n = length code in
    let parts : zeros (4096 + n) ≡ zeros 120 ++ (zeros gap ++ zeros n) =
      ap zeros {x = 4096 + n} {y = 120 + (gap + n)} (omega arith)
      ∙ zeros_add 120 (gap + n)
      ∙ ap (λ t. zeros 120 ++ t) (zeros_add gap n) in
    let placed =
      put-field 2 4096 (flat_headers (zeros 120) base n ∷ zeros gap ∷ zeros n ∷ []) (zeros n) code
        refl (length-zeros n) (omega (arith, length-headers base n, length-zeros gap)) in
    ap (λ t. put (flat_headers t base n) 4096 code) parts
    ∙ ap (λ t. put t 4096 code) (headers_over base n (zeros gap ++ zeros n))
    ∙ ap (λ t. put (headed base n (zeros gap ++ t)) 4096 code) (sym (append_nil (zeros n)))
    ∙ placed
    ∙ ap (λ t. headed base n (zeros gap ++ t)) (append_nil code)
