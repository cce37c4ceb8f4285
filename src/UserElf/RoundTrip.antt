-- ===== src/UserElf/RoundTrip.antt =====
-- The flat executables that kernel/src/user_elf.rs builds, read back by its parser.
use codex_os.Prelude.{
  ℕ, ◌+◌, ◌%◌, ◌≤◌, ◌<◌, ◌≡◌, refl, ap, sym, ◌∙◌, ◌==◌, List, [], ◌∷◌, ◌++◌, true, false, arith,
  length, length-append, u64_max, leb, ltb,
}
use codex_os.Prelude.Results.{ok, ◌>>=◌}
use codex_os.Bytes.{zeros, slice}
use codex_os.Bytes.Fields.{slice-field}
use codex_os.UserElf.{
  UserElfImage, parse, flat_headers, read_segments, read_segment, load_segment, segment_of,
  valid_alignment, finish_image, build_flat_rx_executable, holds_entry,
}
use codex_os.Bytes.Appended.{length-zeros}
use codex_os.UserElf.Flat.{
  append_nil, headed, length-headers, header_checked, entry_read, phoff_read, phnum_read, kind_read,
  flags_read, file_offset_read, address_read, file_size_read, memory_size_read, alignment_read,
  code_placed,
}

-- The one segment of a flat executable.
abbrev pub flat_image : ℕ → List ℕ → UserElfImage
flat_image base code = record {
  entry = base;
  segments =
      record {
        virtual_address = base;
        bytes = code;
        memory_size = length code;
        writable = false;
        executable = true;
      }
      ∷ [];
}

-- Code that can be loaded at `base`: it is not empty, its memory and its file end within 64 bits, and
-- `base` starts a page.
pub record IsFlat (base : ℕ) (code : List ℕ) : Type 0 where
  pub not_empty : 0 < length code
  pub memory_fits : base + length code ≤ u64_max
  pub file_fits : 4096 + length code ≤ u64_max
  pub aligned : base % 4096 ≡ 0

module _ (base gap : ℕ) (code : List ℕ) (h : 120 + gap ≡ 4096) (flat : IsFlat base code) where
  abbrev image : List ℕ
  image = headed base (length code) (zeros gap ++ code)

  code_slice : slice image 4096 (length code) ≡ code
  code_slice =
      let n = length code in
      ap (λ t. slice (headed base n (zeros gap ++ t)) 4096 n) (sym (append_nil code))
      ∙ slice-field 2 4096 n (flat_headers (zeros 120) base n ∷ zeros gap ∷ code ∷ []) code refl
          refl (omega (arith, length-headers base n, length-zeros gap))

  length-image : length image ≡ 4096 + length code
  length-image = omega (
    arith,
    h,
    length-append (flat_headers (zeros 120) base (length code)) (zeros gap ++ code),
    length-append (zeros gap) code,
    length-headers base (length code),
    length-zeros gap,
  )

  aligned : valid_alignment 4096 base 4096 ≡ true
  unfolding valid_alignment
  aligned = rw flat.aligned refl

  not_zero : (length code == 0) ≡ false
  not_zero = let some_code = flat.not_empty in ground arith

  not_smaller : ltb (length code) (length code) ≡ false
  not_smaller = ground arith

  sum_within : (a b : ℕ) → a + b ≤ u64_max → leb (a + b) u64_max ≡ true
  sum_within a b within = ground arith

  end_within : ltb (length image) (4096 + length code) ≡ false
  end_within = let all = length-image in ground arith

  loads : load_segment image 64 [] ≡ ok (flat_image base code).segments
  unfolding load_segment segment_of
  loads =
      let n = length code in
      let rest = zeros gap ++ code in
      rw
        (
          flags_read base n rest,
          file_offset_read base n rest,
          address_read base n rest (omega (arith, flat.memory_fits)),
          file_size_read base n rest (omega (arith, flat.memory_fits)),
          memory_size_read base n rest (omega (arith, flat.memory_fits)),
          alignment_read base n rest,
          not_zero,
          not_smaller,
          aligned,
          sum_within 4096 n flat.file_fits,
          end_within,
          sum_within base n flat.memory_fits,
          code_slice,
        )
        refl

  entered :
      holds_entry base (record {
        virtual_address = base;
        bytes = code;
        memory_size = length code;
        writable = false;
        executable = true;
      })
      ≡ true
  unfolding holds_entry
  entered = let some_code = flat.not_empty in let room = flat.memory_fits in ground arith

  finishes : finish_image base (flat_image base code).segments ≡ ok (flat_image base code)
  unfolding finish_image
  finishes = rw entered refl

  parses : parse image ≡ ok (flat_image base code)
  unfolding parse read_segments read_segment
  parses =
      let n = length code in
      let rest = zeros gap ++ code in
      let all = length-image in
      let table_within : ltb (length image) 120 ≡ false = ground arith in
      rw
        (
          header_checked base n rest,
          entry_read base n rest (omega (arith, flat.memory_fits)),
          phoff_read base n rest,
          phnum_read base n rest,
          table_within,
          kind_read base n rest,
          loads,
          finishes,
        )
        refl

-- A flat executable that is built from code that is not empty, at the start of a page, where memory
-- and file end within 64 bits, is accepted by the parser, which finds that code in one segment,
-- executable and not writable, with the entry at its start.
pub parse-build :
    (base : ℕ) (code : List ℕ)
    → IsFlat base code
    → (build_flat_rx_executable base code >>= parse) ≡ ok (flat_image base code)
unfolding build_flat_rx_executable
parse-build base code flat =
    rw
      (
        not_zero base 3976 code refl flat,
        sum_within base 3976 code refl flat base (length code) flat.memory_fits,
        sum_within base 3976 code refl flat 4096 (length code) flat.file_fits,
        code_placed base 3976 code refl,
      )
      (parses base 3976 code refl flat)
