-- ===== src/Fs/Commit/Crash/Atomic.antt =====
-- A commit of kernel/src/fs.rs is all or nothing.
use codex_os.Prelude.{◌≤◌, ◌≡◌, ◌⊎◌, inl, inr, refl, sym, ap, ◌∙◌, List, arith, some, u64_max}
use codex_os.Prelude.Results.{Result, ok, err}
use codex_os.Fs.{FsError, FileEntry, Superblock}
use codex_os.Fs.FileRecord.RoundTrip.{IsRecordable, decode_record-encode_record}
use codex_os.Fs.Device.{Device, load_latest_snapshot}
use codex_os.Fs.Commit.{
  CodexFs, Plan, slot_state, plan_commit, write_plan, conclude, carry_out, commit_files,
}
use codex_os.Fs.Commit.Crash.Current.{
  IsSameOutside-IsCurrent, load_latest_snapshot-IsCurrent, snapshot,
}
use codex_os.Fs.Commit.Crash.Stages.{write_plan-Stages}
use codex_os.Fs.Commit.Crash.Plans.{IsMounted, plan_commit-IsPlanFor}
use codex_os.Fs.Commit.Crash.Renewed.{IsCurrent-IsBehind, IsWritten-IsCurrent, conclude-IsMounted}

pub conclude-device :
    (fs : CodexFs) (superblock : Superblock) (r : Device × Result FsError (Unit {0}))
    → (conclude fs superblock r).0.device ≡ r.0
conclude-device fs superblock (device, ok u) = refl
conclude-device fs superblock (device, err e) = refl

pub conclude-result :
    (fs : CodexFs) (superblock : Superblock) (r : Device × Result FsError (Unit {0}))
    → (conclude fs superblock r).1 ≡ r.1
conclude-result fs superblock (device, ok tt) = refl
conclude-result fs superblock (device, err e) = refl

pub commit_files-conclude :
    (fs : CodexFs) (files : List FileEntry) (plan : Plan)
    → plan_commit fs files ≡ ok plan
    → commit_files fs files ≡ conclude fs plan.superblock (write_plan fs.device plan)
unfolding commit_files
commit_files-conclude fs files plan h = ap (carry_out fs) h

-- Let a mounted filesystem commit a tree that a record can hold and that a plan is found for, on a
-- device that may refuse any of the writes and flushes and all after it. Then what is loaded from
-- the device afterwards is the snapshot of before, or the planned one with the new tree. After a commit
-- that reports success, it is the new one, and the filesystem is mounted with it.
pub commit_files-Atomic :
    (fs : CodexFs) (files next_files : List FileEntry) (current : Superblock) (plan : Plan)
    → fs.device.sector_count ≤ u64_max
    → IsMounted current files fs
    → plan_commit fs next_files ≡ ok plan
    → IsRecordable next_files
    → ((load_latest_snapshot ((commit_files fs next_files).0.device)
          ≡ ok (some (snapshot current files)))
        ⊎ (load_latest_snapshot ((commit_files fs next_files).0.device)
            ≡ ok (some (snapshot plan.superblock next_files))))
      × ((commit_files fs next_files).1 ≡ ok tt
          → IsMounted plan.superblock next_files ((commit_files fs next_files).0))
commit_files-Atomic fs files next_files current plan narrow m h recordable =
    let p = plan_commit-IsPlanFor fs next_files plan h in
    let s = plan.superblock in
    let decoded =
      decode_record-encode_record s.generation next_files plan.bytes p.generation_fits recordable
        p.encoded in
    let r = write_plan fs.device plan in
    let (stays, written) = write_plan-Stages plan fs.device p.free.behind in
    let as_concluded = commit_files-conclude fs next_files plan h in
    let same_device : (commit_files fs next_files).0.device ≡ r.0 =
      ap (λ t. t.0.device) as_concluded ∙ conclude-device fs s r in
    let same_result : (commit_files fs next_files).1 ≡ r.1 =
      ap (λ t. t.1) as_concluded ∙ conclude-result fs s r in
    let next = p.next_generation in
    let same_generation = m.same_generation in
    let behind = IsCurrent-IsBehind current s files fs.device m.on_device (omega arith) in
    let renewed = IsWritten-IsCurrent fs next_files plan (r.0) narrow behind p decoded in
    let first : (load_latest_snapshot ((commit_files fs next_files).0.device)
          ≡ ok (some (snapshot current files)))
        ⊎ (load_latest_snapshot ((commit_files fs next_files).0.device)
            ≡ ok (some (snapshot s next_files))) =
      elim stays [
        | inr w ↦ inr (
            ap load_latest_snapshot same_device
            ∙ load_latest_snapshot-IsCurrent s next_files (r.0) (renewed w))
        | inl untouched ↦
            let after =
              IsSameOutside-IsCurrent (slot_state fs) s.record_start s.record_sectors current files
                fs.device (r.0) p.free m.same_start m.same_sectors m.on_device untouched in
            inl (
              ap load_latest_snapshot same_device
              ∙ load_latest_snapshot-IsCurrent current files (r.0) after)
      ] in
    (
      first,
      λ e.
          let done = sym same_result ∙ e in
          coe 0 1 (i. IsMounted s next_files ((sym as_concluded) i).0)
            (conclude-IsMounted fs next_files plan r done (renewed (written done))),
    )
