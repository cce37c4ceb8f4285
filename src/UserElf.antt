-- ===== src/UserElf.antt =====
-- kernel/src/user_elf.rs: the parser of user executables and the builder of flat ones.
pub mod Loadable
pub mod Flat
pub mod RoundTrip
use codex_os.Prelude.{
  ℕ, zero, suc, ◌+◌, ◌*◌, ◌%◌, ◌^◌, ◌==◌, ltb, leb, List, [], ◌∷◌, ◌++◌, Bool, true, false, not,
  ◌&&◌, ◌||◌, Option, none, some, any, length, get_or, bit_and, saturating_add, checked_add,
  checked_mul, if◌then◌else◌,
}
use codex_os.Prelude.Results.{Result, ok, err, ◌>>=◌, ◌>>◌, fail_if, ok_or}
use codex_os.Bytes.{
  zeros, slice, put, put_u16, put_u32, put_u64, get_u16, get_u32, get_u64, bytes_eq,
}

-- b"\x7fELF".
abbrev pub elf_magic : List ℕ
elf_magic = 0x7f ∷ 0x45 ∷ 0x4c ∷ 0x46 ∷ []

abbrev pub elf64_header_bytes : ℕ
elf64_header_bytes = 64

abbrev pub elf64_program_header_bytes : ℕ
elf64_program_header_bytes = 56

abbrev pub max_load_segments : ℕ
max_load_segments = 16

abbrev pub default_load_offset : ℕ
default_load_offset = 0x1000

pub data UserElfError : Type 0 where
  image_too_small bad_magic unsupported_class unsupported_endian : UserElfError
  unsupported_version unsupported_type unsupported_machine : UserElfError
  program_header_table_out_of_bounds unsupported_program_header_size : UserElfError
  too_many_load_segments missing_load_segment invalid_load_segment : UserElfError
  writable_executable_segment entry_not_executable address_overflow : UserElfError

pub record UserElfSegment : Type 0 where
  pub virtual_address : ℕ
  pub bytes : List ℕ
  pub memory_size : ℕ
  pub writable : Bool
  pub executable : Bool

pub record UserElfImage : Type 0 where
  pub entry : ℕ
  pub segments : List UserElfSegment

abbrev pub read_u16 : List ℕ → ℕ → Result UserElfError ℕ
read_u16 input offset =
    if leb (offset + 2) (length input) then ok (get_u16 input offset) else err image_too_small

abbrev pub read_u32 : List ℕ → ℕ → Result UserElfError ℕ
read_u32 input offset =
    if leb (offset + 4) (length input) then ok (get_u32 input offset) else err image_too_small

abbrev pub read_u64 : List ℕ → ℕ → Result UserElfError ℕ
read_u64 input offset =
    if leb (offset + 8) (length input) then ok (get_u64 input offset) else err image_too_small

-- `n` is one of the powers of two below `2 ^ bits`.
abbrev is_power_of_two_below : ℕ → ℕ → Bool
is_power_of_two_below zero n = false
is_power_of_two_below (suc bits) n = n == 2 ^ bits || is_power_of_two_below bits n

unfoldable pub valid_alignment : ℕ → ℕ → ℕ → Bool
valid_alignment file_offset virtual_address alignment =
    leb alignment 1
    || (is_power_of_two_below 64 alignment
        && (if alignment == 0
            then false
            else file_offset % alignment == virtual_address % alignment))

-- The checks of one loadable program header; `usize` holds every `u64`.
unfoldable pub segment_of : List ℕ → ℕ → ℕ → ℕ → ℕ → ℕ → ℕ → Result UserElfError UserElfSegment
segment_of input flags file_offset address file_size memory_size alignment = do
  fail_if
      (memory_size == 0
        || (ltb memory_size file_size
            || (bit_and flags 3 == 3 || not (valid_alignment file_offset address alignment))))
      (if bit_and flags 3 == 3 then writable_executable_segment else invalid_load_segment)
  file_end ← ok_or (checked_add file_offset file_size) invalid_load_segment
  fail_if (ltb (length input) file_end) invalid_load_segment
  memory_end ← ok_or (checked_add address memory_size) address_overflow
  ok (record {
    virtual_address = address;
    bytes = slice input file_offset file_size;
    memory_size = memory_size;
    writable = not (bit_and flags 2 == 0);
    executable = not (bit_and flags 1 == 0);
  })

-- One turn of the loop over the program headers, with the segments so far.
unfoldable pub load_segment :
    List ℕ → ℕ → List UserElfSegment → Result UserElfError (List UserElfSegment)
load_segment input offset segments = do
  fail_if (leb max_load_segments (length segments)) too_many_load_segments
  flags ← read_u32 input (offset + 4)
  file_offset ← read_u64 input (offset + 8)
  address ← read_u64 input (offset + 16)
  file_size ← read_u64 input (offset + 32)
  memory_size ← read_u64 input (offset + 40)
  alignment ← read_u64 input (offset + 48)
  segment ← segment_of input flags file_offset address file_size memory_size alignment
  ok (segments ++ segment ∷ [])

unfoldable pub read_segment :
    List ℕ → ℕ → List UserElfSegment → Result UserElfError (List UserElfSegment)
read_segment input offset segments = do
  kind ← read_u32 input offset
  if kind == 1 then load_segment input offset segments else ok segments

unfoldable pub read_segments :
    List ℕ → ℕ → ℕ → List UserElfSegment → Result UserElfError (List UserElfSegment)
read_segments input offset zero segments = ok segments
read_segments input offset (suc count) segments = do
  more ← read_segment input offset segments
  read_segments input (offset + elf64_program_header_bytes) count more

unfoldable pub holds_entry : ℕ → UserElfSegment → Bool
holds_entry entry s =
    s.executable
    && (leb s.virtual_address entry
        && ltb entry (saturating_add s.virtual_address (length s.bytes)))

-- The tests of the file's header up to the sizes of the headers.
unfoldable pub check_header : List ℕ → Result UserElfError (Unit {0})
check_header input = do
  fail_if (ltb (length input) elf64_header_bytes) image_too_small
  fail_if (not (bytes_eq (slice input 0 4) elf_magic)) bad_magic
  fail_if (not (get_or input 4 0 == 2)) unsupported_class
  fail_if (not (get_or input 5 0 == 1)) unsupported_endian
  fail_if (not (get_or input 6 0 == 1)) unsupported_version
  version ← read_u32 input 20
  fail_if (not (version == 1)) unsupported_version
  kind ← read_u16 input 16
  fail_if (not (kind == 2)) unsupported_type
  machine ← read_u16 input 18
  fail_if (not (machine == 62)) unsupported_machine
  header_size ← read_u16 input 52
  fail_if (not (header_size == elf64_header_bytes)) image_too_small
  entry_size ← read_u16 input 54
  fail_if (not (entry_size == elf64_program_header_bytes)) unsupported_program_header_size
  ok tt

-- The tests of the finished list of segments.
unfoldable pub finish_image : ℕ → List UserElfSegment → Result UserElfError UserElfImage
finish_image entry segments = do
  fail_if (length segments == 0) missing_load_segment
  fail_if (not (any (holds_entry entry) segments)) entry_not_executable
  ok (record { entry = entry; segments = segments })

unfoldable pub parse : List ℕ → Result UserElfError UserElfImage
parse input = do
  check_header input
  entry ← read_u64 input 24
  phoff ← read_u64 input 32
  phnum ← read_u16 input 56
  ph_table_bytes ←
      ok_or (checked_mul phnum elf64_program_header_bytes) program_header_table_out_of_bounds
  ph_end ← ok_or (checked_add phoff ph_table_bytes) program_header_table_out_of_bounds
  fail_if (phnum == 0 || ltb (length input) ph_end) program_header_table_out_of_bounds
  segments ← read_segments input phoff phnum []
  finish_image entry segments

-- The headers of a flat executable, over an image of zeros.
unfoldable pub flat_headers : List ℕ → ℕ → ℕ → List ℕ
flat_headers image load_base memory_size =
    let i1 = put (put image 0 elf_magic) 4 (2 ∷ 1 ∷ 1 ∷ []) in
    let i2 = put_u32 (put_u16 (put_u16 i1 16 2) 18 62) 20 1 in
    let i3 = put_u64 (put_u64 i2 24 load_base) 32 elf64_header_bytes in
    let i4 =
      put_u16 (put_u16 (put_u16 i3 52 elf64_header_bytes) 54 elf64_program_header_bytes) 56 1 in
    let p1 = put_u32 (put_u32 i4 64 1) 68 5 in
    let p2 = put_u64 (put_u64 (put_u64 p1 72 default_load_offset) 80 load_base) 88 load_base in
    put_u64 (put_u64 (put_u64 p2 96 memory_size) 104 memory_size) 112 0x1000

unfoldable pub build_flat_rx_executable : ℕ → List ℕ → Result UserElfError (List ℕ)
build_flat_rx_executable load_base code = do
  fail_if (length code == 0) invalid_load_segment
  memory_end ← ok_or (checked_add load_base (length code)) address_overflow
  image_len ← ok_or (checked_add default_load_offset (length code)) address_overflow
  ok (put (flat_headers (zeros image_len) load_base (length code)) default_load_offset code)
