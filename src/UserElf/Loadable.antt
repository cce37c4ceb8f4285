-- ===== src/UserElf/Loadable.antt =====
-- What kernel/src/user_elf.rs promises of an executable that it accepts.
use codex_os.Prelude.{
  ℕ, zero, suc, ◌+◌, ◌≤◌, ◌<◌, ◌≡◌, ap, ◌==◌, ltb, leb, List, [], ◌∷◌, ◌++◌, Bool, true, false, not,
  ◌&&◌, ◌||◌, any, arith, length, length-append, take, drop, bit_and, checked_add, u64_max,
  Bool-cases, inl, inr, not-false, checked_mul,
}
use codex_os.Prelude.Bits.{two_low_bits}
use codex_os.Prelude.Results.{ok, fail_if-passed, bind-passed, ok_or, value_or}
use codex_os.Bytes.{slice}
use codex_os.UserElf.{
  UserElfError, UserElfSegment, UserElfImage, parse, read_u32, read_u64, read_u16, segment_of,
  load_segment, read_segment, read_segments, holds_entry, check_header, finish_image,
  max_load_segments,
}

-- A segment that can be mapped: its bytes fit its memory, its memory lies within 64 bits, and it is
-- not both writable and executable.
pub record IsLoadable (s : UserElfSegment) : Type 0 where
  pub not_empty : 0 < s.memory_size
  pub bytes_fit : length s.bytes ≤ s.memory_size
  pub in_words : s.virtual_address + s.memory_size ≤ u64_max
  pub write_xor_execute : (s.writable && s.executable) ≡ false

abbrev pub AreLoadable : List UserElfSegment → Type 0
AreLoadable [] = Unit
AreLoadable (s ∷ ss) = IsLoadable s × AreLoadable ss

AreLoadable-snoc :
    (ss : List UserElfSegment) (s : UserElfSegment)
    → AreLoadable ss
    → IsLoadable s
    → AreLoadable (ss ++ s ∷ [])
AreLoadable-snoc [] s hs h = (h, tt)
AreLoadable-snoc (x ∷ ss) s (hx, hs) h = (hx, AreLoadable-snoc ss s hs h)

pub length-take : {A : Type 0} (n : ℕ) (xs : List A) → length (take n xs) ≤ n
length-take zero xs = omega arith
length-take (suc n) [] = omega arith
length-take (suc n) (x ∷ xs) = omega (arith, length-take n xs)

length-slice : (xs : List ℕ) (offset n : ℕ) → length (slice xs offset n) ≤ n
unfolding slice
length-slice xs offset n = length-take n (drop offset xs)

-- A checked sum that was taken.
sum_fits :
    {E : Type 0} (a b : ℕ) (e : E) (c : ℕ) → ok_or (checked_add a b) e ≡ ok c → a + b ≤ u64_max
sum_fits a b e c h = elim (Bool-cases (leb (a + b) u64_max)) [
  | inl fits ↦ ground arith
  | inr past ↦ let wrong = rw (past, checked_add) at h in absurd cc
]

-- What the guard of a program header leaves.
guard_facts :
    (flags file_size memory_size : ℕ) (unaligned : Bool)
    → (memory_size == 0 || (ltb memory_size file_size || (bit_and flags 3 == 3 || unaligned)))
      ≡ false
    → (0 < memory_size) × (file_size ≤ memory_size) × ((bit_and flags 3 == 3) ≡ false)
guard_facts flags file_size memory_size unaligned h = (ground arith, ground arith, ground arith)

segment_of-IsLoadable :
    (input : List ℕ) (flags offset address file_size memory_size alignment : ℕ) (s : UserElfSegment)
    → segment_of input flags offset address file_size memory_size alignment ≡ ok s
    → IsLoadable s
unfolding segment_of
segment_of-IsLoadable input flags offset address file_size memory_size alignment s h =
    let (guard, h1) = fail_if-passed _ _ _ s h in
    let (file_end, (e1, h2)) =
      bind-passed (ok_or (checked_add offset file_size) UserElfError.invalid_load_segment) _ s h1 in
    let (inside, h3) =
      fail_if-passed (ltb (length input) file_end) UserElfError.invalid_load_segment _ s h2 in
    let (memory_end, (e2, h4)) =
      bind-passed (ok_or (checked_add address memory_size) UserElfError.address_overflow) _ s h3 in
    let same = ap (value_or s) h4 in
    let (positive, small, exclusive) = guard_facts flags file_size memory_size _ guard in
    let exclusive_bits = two_low_bits flags exclusive in
    let short = length-slice input offset file_size in
    let fits = sum_fits address memory_size UserElfError.address_overflow memory_end e2 in
    let loadable : IsLoadable (record {
      virtual_address = address;
      bytes = slice input offset file_size;
      memory_size = memory_size;
      writable = not (bit_and flags 2 == 0);
      executable = not (bit_and flags 1 == 0);
    }) =
      record {
        not_empty = positive;
        bytes_fit = omega arith;
        in_words = fits;
        write_xor_execute = exclusive_bits;
      } in
    coe 0 1 (i. IsLoadable (same i)) loadable

-- The segments so far stay good, and few, when a program header is read.
record AreGood (ss : List UserElfSegment) : Type 0 where
  loadable : AreLoadable ss
  few : length ss ≤ 16

room_left : (ss : List UserElfSegment) → leb max_load_segments (length ss) ≡ false → length ss < 16
room_left ss h = ground arith

load_segment-AreGood :
    (input : List ℕ) (offset : ℕ) (ss more : List UserElfSegment)
    → AreGood ss
    → load_segment input offset ss ≡ ok more
    → AreGood more
unfolding load_segment
load_segment-AreGood input offset ss more good h =
    let (room, h1) =
      fail_if-passed (leb max_load_segments (length ss)) UserElfError.too_many_load_segments _ more
        h in
    let (flags, (e1, h2)) = bind-passed (read_u32 input (offset + 4)) _ more h1 in
    let (file_offset, (e2, h3)) = bind-passed (read_u64 input (offset + 8)) _ more h2 in
    let (address, (e3, h4)) = bind-passed (read_u64 input (offset + 16)) _ more h3 in
    let (file_size, (e4, h5)) = bind-passed (read_u64 input (offset + 32)) _ more h4 in
    let (memory_size, (e5, h6)) = bind-passed (read_u64 input (offset + 40)) _ more h5 in
    let (alignment, (e6, h7)) = bind-passed (read_u64 input (offset + 48)) _ more h6 in
    let (segment, (e7, h8)) =
      bind-passed (segment_of input flags file_offset address file_size memory_size alignment) _
        more h7 in
    let one =
      segment_of-IsLoadable input flags file_offset address file_size memory_size alignment segment
        e7 in
    let same = ap (value_or more) h8 in
    let new : AreGood (ss ++ segment ∷ []) = record {
      loadable = AreLoadable-snoc ss segment good.loadable one;
      few = omega (arith, length-append ss (segment ∷ []), good.few, room_left ss room);
    } in
    coe 0 1 (i. AreGood (same i)) new

read_segment-AreGood :
    (input : List ℕ) (offset : ℕ) (ss more : List UserElfSegment)
    → AreGood ss
    → read_segment input offset ss ≡ ok more
    → AreGood more
unfolding read_segment
read_segment-AreGood input offset ss more good h =
    let (kind, (e, h1)) = bind-passed (read_u32 input offset) _ more h in
    elim (Bool-cases (kind == 1)) [
      | inl load ↦ load_segment-AreGood input offset ss more good (rw load at h1)
      | inr skip ↦
          let kept = rw skip at h1 in
          let same = ap (value_or more) kept in coe 0 1 (i. AreGood (same i)) good
    ]

read_segments-AreGood :
    (input : List ℕ) (offset count : ℕ) (ss more : List UserElfSegment)
    → AreGood ss
    → read_segments input offset count ss ≡ ok more
    → AreGood more
unfolding read_segments
read_segments-AreGood input offset zero ss more good h =
    let same = ap (value_or more) h in coe 0 1 (i. AreGood (same i)) good
read_segments-AreGood input offset (suc count) ss more good h =
    let (next, (e, h1)) = bind-passed (read_segment input offset ss) _ more h in
    read_segments-AreGood input (offset + 56) count next more
      (read_segment-AreGood input offset ss next good e) h1

-- What an accepted executable promises: between 1 and 16 segments, each of which can be mapped and
-- none of which is both writable and executable, and an entry inside the bytes of one of those that
-- are executable.
pub record IsSafe (image : UserElfImage) : Type 0 where
  pub loadable : AreLoadable image.segments
  pub some_segment : 1 ≤ length image.segments
  pub few : length image.segments ≤ 16
  pub entered : any (holds_entry image.entry) image.segments ≡ true

some_left : (ss : List UserElfSegment) → (length ss == 0) ≡ false → 1 ≤ length ss
some_left ss h = ground arith

finish_image-IsSafe :
    (entry : ℕ) (segments : List UserElfSegment) (image : UserElfImage)
    → AreGood segments
    → finish_image entry segments ≡ ok image
    → IsSafe image
unfolding finish_image
finish_image-IsSafe entry segments image good h =
    let (present, h1) =
      fail_if-passed (length segments == 0) UserElfError.missing_load_segment _ image h in
    let (entered, h2) = fail_if-passed _ UserElfError.entry_not_executable _ image h1 in
    let same = ap (value_or image) h2 in
    let safe : IsSafe (record { entry = entry; segments = segments }) = record {
      loadable = good.loadable;
      some_segment = some_left segments present;
      few = good.few;
      entered = not-false _ entered;
    } in
    coe 0 1 (i. IsSafe (same i)) safe

-- When the parser accepts a file, the executable has between 1 and 16 segments; each has some memory
-- that its bytes fit and that ends within 64 bits, none is both writable and executable, and the
-- entry lies inside the bytes of an executable one.
pub parse-IsSafe : (input : List ℕ) (image : UserElfImage) → parse input ≡ ok image → IsSafe image
unfolding parse
parse-IsSafe input image h =
    let (x, (e, h1)) = bind-passed (check_header input) _ image h in
    let (entry, (e1, h2)) = bind-passed (read_u64 input 24) _ image h1 in
    let (phoff, (e2, h3)) = bind-passed (read_u64 input 32) _ image h2 in
    let (phnum, (e3, h4)) = bind-passed (read_u16 input 56) _ image h3 in
    let (table, (e4, h5)) = bind-passed (ok_or (checked_mul phnum 56) _) _ image h4 in
    let (end, (e5, h6)) = bind-passed (ok_or (checked_add phoff table) _) _ image h5 in
    let (inside, h7) = fail_if-passed _ _ _ image h6 in
    let (segments, (e6, h8)) = bind-passed (read_segments input phoff phnum []) _ image h7 in
    let none_yet : AreGood [] = record { loadable = tt; few = omega arith } in
    finish_image-IsSafe entry segments image
      (read_segments-AreGood input phoff phnum [] segments none_yet e6) h8
