-- ===== src/Tests/Executables.antt =====
-- Small executables for kernel/src/user_elf.rs.
use codex_os.Prelude.{ℕ, List, [], ◌∷◌, ◌≡◌, refl, true, false, arith}
use codex_os.Prelude.Results.{ok, err, ◌>>=◌}
use codex_os.Bytes.{zeros, put, put_u64, put_u32, bytes_eq, slice, from_le_bytes, to_le_bytes}
use codex_os.UserElf.{
  UserElfImage, UserElfError, parse, flat_headers, check_header, read_segments, read_segment,
  load_segment, segment_of, valid_alignment, finish_image, holds_entry, build_flat_rx_executable,
}
use codex_os.UserElf.RoundTrip.{IsFlat, flat_image, parse-build}
use codex_os.UserElf.Loadable.{IsSafe, parse-IsSafe}

-- Three bytes of code right behind the headers.
abbrev small : List ℕ
small =
    put (put_u64 (put_u64 (flat_headers (zeros 123) 0x40_0000 3) 72 120) 112 1) 120
      (0xeb ∷ 0xfe ∷ 0x90 ∷ [])

abbrev small_image : UserElfImage
small_image = record {
  entry = 0x40_0000;
  segments =
      record {
        virtual_address = 0x40_0000;
        bytes = 0xeb ∷ 0xfe ∷ 0x90 ∷ [];
        memory_size = 3;
        writable = false;
        executable = true;
      }
      ∷ [];
}

small_parses : parse small ≡ ok small_image
unfolding parse flat_headers put slice from_le_bytes to_le_bytes bytes_eq check_header read_segments
    read_segment load_segment segment_of valid_alignment finish_image holds_entry
small_parses = refl

-- The same with a segment that is writable, too.
writable_code_refused : parse (put_u32 small 68 7) ≡ err UserElfError.writable_executable_segment
unfolding parse flat_headers put slice from_le_bytes to_le_bytes bytes_eq check_header read_segments
    read_segment load_segment segment_of valid_alignment finish_image holds_entry
writable_code_refused = refl

parse-IsSafe_example : IsSafe small_image
parse-IsSafe_example = parse-IsSafe small small_image small_parses

abbrev spin : List ℕ
spin = 0xeb ∷ 0xfe ∷ []

spin-IsFlat : IsFlat 0x40_0000 spin
spin-IsFlat = record {
  not_empty = omega arith;
  memory_fits = omega arith;
  file_fits = omega arith;
  aligned = refl;
}

parse-build_example :
    (build_flat_rx_executable 0x40_0000 spin >>= parse) ≡ ok (flat_image 0x40_0000 spin)
parse-build_example = parse-build 0x40_0000 spin spin-IsFlat
