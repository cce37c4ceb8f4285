-- ===== src/Fs/Commit/Crash/ReadBack.antt =====
-- A record of kernel/src/fs.rs that is on the device is read back.
use codex_os.Prelude.{
  ℕ, zero, suc, ◌+◌, ◌*◌, ◌≤◌, ◌≡◌, refl, sym, ap, ◌∙◌, List, [], ◌∷◌, ◌++◌, eq_refl, arith, length,
  take, drop,
}
use codex_os.Prelude.Results.{ok, ◌>>=◌}
use codex_os.Bytes.{crc32, zeros, slice, put}
use codex_os.Fs.{FileEntry, Superblock, sector_size}
use codex_os.Fs.Device.{Device, read_record, read_sectors}
use codex_os.Fs.FileRecord.{decode_record}
use codex_os.Bytes.Appended.{length-zeros}
use codex_os.Fs.Commit.Crash.{IsRecordOn}
use codex_os.Fs.Commit.Crash.Current.{read_sector-inside}

-- The first bytes of one array over another.
abbrev over : ℕ → List ℕ → List ℕ → List ℕ
over n bytes below = take n bytes ++ drop n below

over_nothing : (n : ℕ) → [] ≡ over n [] []
over_nothing zero = refl
over_nothing (suc n) = refl

put-prefix :
    (n : ℕ) (bytes below : List ℕ)
    → length bytes ≡ length below
    → put below 0 (take n bytes) ≡ over n bytes below
unfolding put
put-prefix zero bytes below h = refl
put-prefix (suc n) [] [] h = refl
put-prefix (suc n) [] (y ∷ below) h = absurd omega arith
put-prefix (suc n) (x ∷ bytes) [] h = absurd omega arith
put-prefix (suc n) (x ∷ bytes) (y ∷ below) h =
    ap (λ t. x ∷ t) (put-prefix n bytes below (omega arith))

put-next :
    (o n : ℕ) (bytes below : List ℕ)
    → length bytes ≡ length below
    → put (over o bytes below) o (slice bytes o n) ≡ over (o + n) bytes below
unfolding put slice
put-next zero n bytes below h =
    put-prefix n bytes below h
    ∙ ap (λ (t : ℕ). over t bytes below) {x = n} {y = 0 + n} (omega arith)
put-next (suc o) n [] [] h = over_nothing (suc o + n)
put-next (suc o) n [] (y ∷ below) h = absurd omega arith
put-next (suc o) n (x ∷ bytes) [] h = absurd omega arith
put-next (suc o) n (x ∷ bytes) (y ∷ below) h =
    ap (λ t. x ∷ t) (put-next o n bytes below (omega arith))
    ∙ ap (λ (t : ℕ). over t (x ∷ bytes) (y ∷ below)) {x = suc (o + n)} {y = suc o + n} (omega arith)

over_all :
    (n : ℕ) (bytes below : List ℕ)
    → length bytes ≡ n
    → length below ≡ n
    → over n bytes below ≡ bytes
over_all zero [] [] h k = refl
over_all zero (x ∷ bytes) below h k = absurd omega arith
over_all zero [] (y ∷ below) h k = absurd omega arith
over_all (suc n) [] below h k = absurd omega arith
over_all (suc n) (x ∷ bytes) [] h k = absurd omega arith
over_all (suc n) (x ∷ bytes) (y ∷ below) h k =
    ap (λ t. x ∷ t) (over_all n bytes below (omega arith) (omega arith))

-- Reading the sectors from an offset on, when those before are read.
pub read_sectors-IsRecordOn :
    (device : Device) (start offset count : ℕ) (bytes below : List ℕ)
    → length bytes ≡ length below
    → start + offset + count ≤ device.sector_count
    → IsRecordOn device start offset count bytes
    → read_sectors device start offset count (over (offset * sector_size) bytes below)
      ≡ ok (over ((offset + count) * sector_size) bytes below)
unfolding read_sectors IsRecordOn
read_sectors-IsRecordOn device start offset zero bytes below h inside on =
    ap (λ (t : ℕ). ok (over (t * sector_size) bytes below)) {x = offset} {y = offset + 0}
      (omega arith)
read_sectors-IsRecordOn device start offset (suc count) bytes below h inside on =
    let read =
      read_sector-inside device (start + offset) (omega arith)
      ∙ ap ok (on offset (omega arith) (omega arith)) in
    let next = put-next (offset * sector_size) sector_size bytes below h in
    ap
      (λ r. r >>= λ sector.
        read_sectors device start (offset + 1) count
          (put (over (offset * sector_size) bytes below) (offset * sector_size) sector))
      read
    ∙ ap (read_sectors device start (offset + 1) count) next
    ∙ ap (λ (t : ℕ). read_sectors device start (offset + 1) count (over t bytes below))
        {x = offset * sector_size + sector_size} {y = (offset + 1) * sector_size} (omega arith)
    ∙ read_sectors-IsRecordOn device start (offset + 1) count bytes below h (omega arith)
        (λ i low high. on i (omega arith) (omega arith))
    ∙ ap (λ (t : ℕ). ok (over (t * sector_size) bytes below)) {x = offset + 1 + count}
        {y = offset + suc count} (omega arith)

-- A superblock that describes a record reads the record's bytes where they are on the device.
pub read_record-IsRecordOn :
    (device : Device) (s : Superblock) (bytes : List ℕ) (files : List FileEntry)
    → s.record_bytes ≡ length bytes
    → length bytes ≡ s.record_sectors * sector_size
    → s.record_crc ≡ crc32 bytes
    → s.record_start + s.record_sectors ≤ device.sector_count
    → IsRecordOn device s.record_start 0 s.record_sectors bytes
    → decode_record bytes s.generation ≡ ok files
    → read_record device s ≡ ok files
unfolding read_record
read_record-IsRecordOn device s bytes files long whole crc inside on decoded =
    let below = zeros s.record_bytes in
    let below_long : length below ≡ length bytes = length-zeros s.record_bytes ∙ long in
    let read : read_sectors device s.record_start 0 s.record_sectors below ≡ ok bytes =
      read_sectors-IsRecordOn device s.record_start 0 s.record_sectors bytes below (sym below_long)
        (omega arith) on
      ∙ ap (λ (t : ℕ). ok (over (t * sector_size) bytes below)) {x = 0 + s.record_sectors}
          {y = s.record_sectors} (omega arith)
      ∙ ap ok (over_all (s.record_sectors * sector_size) bytes below whole (below_long ∙ whole)) in
    rw (read, crc, eq_refl (crc32 bytes)) decoded
