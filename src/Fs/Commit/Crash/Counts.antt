-- ===== src/Fs/Commit/Crash/Counts.antt =====
-- No write in kernel/src/fs.rs changes the size of the device.
use codex_os.Prelude.{ℕ, zero, suc, ◌+◌, ◌*◌, ◌≡◌, refl, ap, ◌∙◌, List}
use codex_os.Prelude.Results.{Result, ok, err}
use codex_os.Bytes.{slice}
use codex_os.Fs.{FsError, FileEntry, sector_size}
use codex_os.Fs.SuperblockCodec.{encode_superblock}
use codex_os.Fs.Device.{Device, write_sector, flush}
use codex_os.Fs.Commit.{
  CodexFs, Plan, and_then, plan_commit, write_plan, write_record, super_sector, carry_out,
  commit_files,
}
use codex_os.Fs.Commit.Crash.{and_then-keeps, flush-count, write_sector-count}
use codex_os.Fs.Commit.Crash.Atomic.{conclude-device}

write_record-count :
    (n : ℕ) (device : Device) (start offset count : ℕ) (bytes : List ℕ)
    → device.sector_count ≡ n
    → (write_record device start offset count bytes).0.sector_count ≡ n
unfolding write_record
write_record-count n device start offset zero bytes h = h
write_record-count n device start offset (suc count) bytes h =
    and_then-keeps (λ d. d.sector_count ≡ n)
      (write_sector device (start + offset) (slice bytes (offset * sector_size) sector_size))
      (λ next. write_record next start (offset + 1) count bytes)
      (write_sector-count device (start + offset) (slice bytes (offset * sector_size) sector_size)
        ∙ h)
      (λ next k. write_record-count n next start (offset + 1) count bytes k)

write_plan-count :
    (device : Device) (plan : Plan) → (write_plan device plan).0.sector_count ≡ device.sector_count
unfolding write_plan
write_plan-count device plan =
    let s = plan.superblock in
    let n = device.sector_count in
    let same : Device → Type 0 = λ d. d.sector_count ≡ n in
    let recorded = write_record device s.record_start 0 s.record_sectors plan.bytes in
    let write_super : Device → Device × Result FsError (Unit {0}) =
      λ next. write_sector next (super_sector s.generation) (encode_superblock s) in
    let flushed : (d : Device) → same d → same ((flush d).0) = λ d h. flush-count d ∙ h in
    and_then-keeps same (and_then (and_then recorded flush) write_super) flush
      (and_then-keeps same (and_then recorded flush) write_super
        (and_then-keeps same recorded flush
          (write_record-count n device s.record_start 0 s.record_sectors plan.bytes refl) flushed)
        (λ d h. write_sector-count d (super_sector s.generation) (encode_superblock s) ∙ h))
      flushed

carry_out-count :
    (fs : CodexFs) (planned : Result FsError Plan)
    → (carry_out fs planned).0.device.sector_count ≡ fs.device.sector_count
carry_out-count fs (err e) = refl
carry_out-count fs (ok plan) =
    ap (λ d. d.sector_count) (conclude-device fs plan.superblock (write_plan fs.device plan))
    ∙ write_plan-count fs.device plan

pub commit_files-count :
    (fs : CodexFs) (next : List FileEntry)
    → (commit_files fs next).0.device.sector_count ≡ fs.device.sector_count
unfolding commit_files
commit_files-count fs next = carry_out-count fs (plan_commit fs next)
