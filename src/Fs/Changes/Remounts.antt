-- ===== src/Fs/Changes/Remounts.antt =====
-- The check of the committed state in kernel/src/fs.rs against mounting the device anew.
use codex_os.Prelude.{
  ◌≡◌, ◌↔◌, refl, sym, ap, ◌∙◌, ==→eq, eq_refl, Bool, true, false, not, ◌||◌, ◌==◌, [], Option,
  none, some,
}
use codex_os.Prelude.Results.{
  Result, ok, err, bind-ok, bind-passed, fail_if, fail_if-passed, ok_or, ok_or-passed, value_or,
}
use codex_os.Fs.{
  FsError, flush_unsupported, record_slot_count, record_slot_span, verification_failed,
}
use codex_os.Fs.Device.{Device, LoadedSnapshot, load_latest_snapshot}
use codex_os.Fs.Commit.{
  CodexFs, Plan, after_format, blank, carry_out, commit_files, conclude, existing, formatted,
  mount_or_format, mount_snapshot, mounted, plan_commit, write_plan,
}
use codex_os.Fs.Changes.{files_eq, verify_committed_state, verify_loaded}
use codex_os.Fs.Changes.Compared.{files_eq_refl, files_eq→eq}

-- The device can be mounted, with the slots that the filesystem has.
pub record HasSlots (fs : CodexFs) : Type 0 where
  pub flushes : fs.device.supports_flush ≡ true
  pub span : record_slot_span fs.device.sector_count ≡ ok fs.record_slot_sectors
  pub count : record_slot_count fs.device.sector_count fs.record_slot_sectors ≡ ok fs.record_slots

-- Mounting the device finds a filesystem with the same files in the same generation, whose active
-- record is the one that `next` has.
pub record Remounts (fs next : CodexFs) : Type 0 where
  pub remounted : CodexFs
  pub mounts : mount_or_format fs.device ≡ ok remounted
  pub found : remounted.mount_state ≡ existing
  pub same_files : remounted.files ≡ fs.files
  pub same_generation : remounted.generation ≡ fs.generation
  pub place : next ≡ (record fs {
    active_record_start = remounted.active_record_start;
    active_record_sectors = remounted.active_record_sectors;
  })

abbrev mounted_as : CodexFs → LoadedSnapshot → CodexFs
mounted_as fs loaded = mounted fs.device fs.record_slots fs.record_slot_sectors loaded

mount_or_format-loads :
    (fs : CodexFs) (snapshot : Option LoadedSnapshot)
    → HasSlots fs
    → load_latest_snapshot fs.device ≡ ok snapshot
    → mount_or_format fs.device
      ≡ mount_snapshot fs.device fs.record_slots fs.record_slot_sectors snapshot
unfolding mount_or_format
mount_or_format-loads fs snapshot s h =
    bind-ok (fail_if (not fs.device.supports_flush) flush_unsupported) _ tt (rw s.flushes refl)
    ∙ bind-ok (record_slot_span fs.device.sector_count) _ fs.record_slot_sectors s.span
    ∙ bind-ok (record_slot_count fs.device.sector_count fs.record_slot_sectors) _ fs.record_slots
        s.count
    ∙ bind-ok (load_latest_snapshot fs.device) _ snapshot h

mount_or_format-loaded :
    (device : Device) (m : CodexFs)
    → mount_or_format device ≡ ok m
    → (snapshot : Option LoadedSnapshot) × (load_latest_snapshot device ≡ ok snapshot)
unfolding mount_or_format
mount_or_format-loaded device m h =
    let (u, h1) = fail_if-passed (not device.supports_flush) flush_unsupported _ m h in
    let (span, (e2, h2)) = bind-passed (record_slot_span device.sector_count) _ m h1 in
    let (count, (e3, h3)) = bind-passed (record_slot_count device.sector_count span) _ m h2 in
    let (snapshot, (e4, h4)) = bind-passed (load_latest_snapshot device) _ m h3 in (snapshot, e4)

conclude-state :
    (fs : CodexFs) (plan : Plan) (r : Device × Result FsError (Unit {0}))
    → (conclude fs plan.superblock r).0.mount_state ≡ fs.mount_state
conclude-state fs plan (device, ok u) = refl
conclude-state fs plan (device, err e) = refl

carry_out-state :
    (fs : CodexFs) (planned : Result FsError Plan)
    → (carry_out fs planned).0.mount_state ≡ fs.mount_state
carry_out-state fs (err e) = refl
carry_out-state fs (ok plan) = conclude-state fs plan (write_plan fs.device plan)

after_format-state :
    (r : CodexFs × Result FsError (Unit {0})) (m : CodexFs)
    → after_format r ≡ ok m
    → r.0.mount_state ≡ m.mount_state
after_format-state (fs, err e) m h = absurd cc
after_format-state (fs, ok u) m h = ap (λ s. (value_or fs s).mount_state) h

-- A device without a snapshot is formatted, which the mounted filesystem tells.
formats_state :
    (fs m : CodexFs)
    → mount_snapshot fs.device fs.record_slots fs.record_slot_sectors none ≡ ok m
    → formatted ≡ m.mount_state
unfolding commit_files
formats_state fs m h =
    let new = blank fs.device fs.record_slots fs.record_slot_sectors in
    sym (carry_out-state new (plan_commit new [])) ∙ after_format-state (commit_files new []) m h

different : ¬ (formatted ≡ existing)
different h = absurd cc

verify-Remounts :
    (fs next : CodexFs) → HasSlots fs → verify_committed_state fs ≡ ok next → Remounts fs next
unfolding verify_committed_state verify_loaded
verify-Remounts fs next s h =
    let (snapshot, (e1, h1)) = bind-passed (load_latest_snapshot fs.device) _ next h in
    let (loaded, (e2, h2)) = bind-passed (ok_or snapshot verification_failed) _ next h1 in
    let there = ok_or-passed snapshot verification_failed loaded e2 in
    let (passed, h3) =
      fail_if-passed
        (not (loaded.superblock.generation == fs.generation)
          || not (files_eq loaded.files fs.files))
        verification_failed _ next h2 in
    let (generation, files) =
      neither (loaded.superblock.generation == fs.generation) (files_eq loaded.files fs.files)
        passed in
    record {
      remounted = mounted_as fs loaded;
      mounts = mount_or_format-loads fs (some loaded) s (e1 ∙ ap ok there);
      found = refl;
      same_files = files_eq→eq loaded.files fs.files files;
      same_generation = ==→eq loaded.superblock.generation fs.generation generation;
      place = sym (ap (value_or next) h3);
    }
  where
    neither : (a b : Bool) → (not a || not b) ≡ false → (a ≡ true) × (b ≡ true)
    neither true true h = (refl, refl)
    neither true false h = absurd cc
    neither false b h = absurd cc

verify_loaded-passes :
    (fs next : CodexFs) (loaded : LoadedSnapshot) (r : Remounts fs next)
    → r.remounted ≡ mounted_as fs loaded
    → verify_loaded fs loaded ≡ ok next
unfolding verify_loaded
verify_loaded-passes fs next loaded r same =
    let generation : loaded.superblock.generation ≡ fs.generation =
      ap (λ (m : CodexFs). m.generation) (sym same) ∙ r.same_generation in
    let files : loaded.files ≡ fs.files = ap (λ (m : CodexFs). m.files) (sym same) ∙ r.same_files in
    let generations : (loaded.superblock.generation == fs.generation) ≡ true =
      ap (λ n. n == fs.generation) generation ∙ eq_refl fs.generation in
    let trees : files_eq loaded.files fs.files ≡ true =
      ap (λ t. files_eq t fs.files) files ∙ files_eq_refl fs.files in
    bind-ok
      (fail_if
        (not (loaded.superblock.generation == fs.generation)
          || not (files_eq loaded.files fs.files))
        verification_failed)
      _ tt (rw (generations, trees) refl)
    ∙ ap ok (
        (λ i. record fs {
          active_record_start = ((sym same) i).active_record_start;
          active_record_sectors = ((sym same) i).active_record_sectors;
        })
        ∙ sym r.place)

passes_from :
    (fs next : CodexFs) (r : Remounts fs next) (snapshot : Option LoadedSnapshot)
    → load_latest_snapshot fs.device ≡ ok snapshot
    → mount_snapshot fs.device fs.record_slots fs.record_slot_sectors snapshot ≡ ok r.remounted
    → verify_committed_state fs ≡ ok next
unfolding verify_committed_state
passes_from fs next r none e m = absurd (different (formats_state fs r.remounted m ∙ r.found))
passes_from fs next r (some loaded) e m =
    bind-ok (load_latest_snapshot fs.device) _ (some loaded) e
    ∙ verify_loaded-passes fs next loaded r (sym (ap (value_or r.remounted) m))

passes_again :
    (fs next : CodexFs) → HasSlots fs → Remounts fs next → verify_committed_state fs ≡ ok next
passes_again fs next s r =
    let (snapshot, e) = mount_or_format-loaded fs.device r.remounted r.mounts in
    passes_from fs next r snapshot e (sym (mount_or_format-loads fs snapshot s e) ∙ r.mounts)

-- On a device that can be flushed and has the slots of the filesystem, the check of the committed state
-- passes exactly when mounting the device anew finds a snapshot, of the same generation and with just
-- the files that the filesystem has in memory. The filesystem is then left as it is, with the place of
-- the active record that mounting finds.
pub verify_committed_state_iff :
    (fs next : CodexFs) → HasSlots fs → (verify_committed_state fs ≡ ok next) ↔ Remounts fs next
verify_committed_state_iff fs next s = (verify-Remounts fs next s, passes_again fs next s)
