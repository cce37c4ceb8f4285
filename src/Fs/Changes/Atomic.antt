-- ===== src/Fs/Changes/Atomic.antt =====
-- Each operation of kernel/src/fs.rs on the files is all or nothing on the device.
use codex_os.Prelude.{
  ◌+◌, ◌≤◌, ◌≡◌, ◌⊎◌, inl, inr, refl, sym, ap, ◌∙◌, List, none, some, Bool-cases, u64_max, arith,
}
use codex_os.Prelude.Results.{Result, ok, err, ◌>>◌, bind-passed}
use codex_os.Fs.{FsError, FileEntry, Superblock}
use codex_os.Fs.FilePath.{validate_permissions}
use codex_os.Fs.FileRecord.RoundTrip.{IsRecordable}
use codex_os.Fs.Device.{load_latest_snapshot}
use codex_os.Fs.Tree.{
  tree_with_directory, tree_with_file, tree_with_permissions, tree_without_directory,
  tree_without_file,
}
use codex_os.Fs.Tree.Texts.{IsText}
use codex_os.Fs.Tree.Operations.{
  tree_with_directory-IsRecordable, tree_with_file-IsRecordable, tree_with_permissions-IsRecordable,
  tree_without_directory-IsRecordable, tree_without_file-IsRecordable,
}
use codex_os.Fs.Commit.{CodexFs, Plan, plan_commit, carry_out, commit_files}
use codex_os.Fs.Commit.Crash.Counts.{commit_files-count}
use codex_os.Fs.Commit.Crash.Current.{load_latest_snapshot-IsCurrent, snapshot}
use codex_os.Fs.Commit.Crash.Plans.{IsMounted, plan_commit-IsPlanFor}
use codex_os.Fs.Commit.Crash.Atomic.{commit_files-Atomic}
use codex_os.Fs.Changes.{
  commit_next, commit_changed, keep_files, files_eq, create_dir, create_dir_all, remove_dir,
  remove_file, set_permissions, write_file, write_file_inner, write_file_with_permissions,
  tree_with_directories,
}
use codex_os.Fs.Changes.Trees.{
  Request, perform, write, write_with_permissions, make_directory, make_directories,
  change_permissions, delete_file, delete_directory,
}
use codex_os.Fs.Changes.Stored.{keep_files-done}
use codex_os.Fs.Changes.Compared.{files_eq→eq}
use codex_os.Fs.Changes.Recordable.{tree_with_directories-IsRecordable}

-- The tree that a request asks for.
abbrev pub tree_of : List FileEntry → Request → Result FsError (List FileEntry)
tree_of files (write path contents) = tree_with_file files path contents none
tree_of files (write_with_permissions path contents permissions) =
    validate_permissions permissions >> tree_with_file files path contents (some permissions)
tree_of files (make_directory path permissions) = tree_with_directory files path permissions
tree_of files (make_directories path permissions) = tree_with_directories files path permissions
tree_of files (change_permissions path permissions) = tree_with_permissions files path permissions
tree_of files (delete_file path) = tree_without_file files path
tree_of files (delete_directory path) = tree_without_directory files path

-- The path of a request is a text, and its permissions are 16 bits.
abbrev pub IsTyped : Request → Type 0
IsTyped (write path contents) = IsText path
IsTyped (write_with_permissions path contents permissions) = IsText path × (permissions ≤ 65535)
IsTyped (make_directory path permissions) = IsText path × (permissions ≤ 65535)
IsTyped (make_directories path permissions) = IsText path × (permissions ≤ 65535)
IsTyped (change_permissions path permissions) = IsText path × (permissions ≤ 65535)
IsTyped (delete_file path) = IsText path
IsTyped (delete_directory path) = IsText path

-- The filesystem has the files of the snapshot on its device, and they can be recorded.
pub record IsSound (current : Superblock) (fs : CodexFs) : Type 0 where
  pub mounted : IsMounted current fs.files fs
  pub recordable : IsRecordable fs.files
  pub narrow : fs.device.sector_count ≤ u64_max

-- What is loaded is the snapshot of before, or one of the next generation with the tree asked for; after
-- success the filesystem is sound again, with that tree.
pub record IsAtomic (current : Superblock) (fs : CodexFs) (tree : Result FsError (List FileEntry))
    (r : CodexFs × Result FsError (Unit {0})) : Type 0 where
  pub loads :
      (load_latest_snapshot (r.0.device) ≡ ok (some (snapshot current fs.files)))
      ⊎ ((next : Superblock) × ((files : List FileEntry) × ((tree ≡ ok files)
              × ((next.generation ≡ current.generation + 1)
                  × (load_latest_snapshot (r.0.device) ≡ ok (some (snapshot next files)))))))
  pub done : r.1 ≡ ok tt → (next : Superblock) × IsSound next (r.0)
  pub made : r.1 ≡ ok tt → tree ≡ ok (r.0.files)

tree_of-IsRecordable :
    (files : List FileEntry) (request : Request) (next : List FileEntry)
    → IsTyped request
    → IsRecordable files
    → tree_of files request ≡ ok next
    → IsRecordable next
tree_of-IsRecordable files (write path contents) next t r h =
    tree_with_file-IsRecordable files path contents none next t tt h r
tree_of-IsRecordable files (write_with_permissions path contents permissions) next (t, low) r h =
    let (u, (e, h1)) = bind-passed (validate_permissions permissions) _ next h in
    tree_with_file-IsRecordable files path contents (some permissions) next t low h1 r
tree_of-IsRecordable files (make_directory path permissions) next (t, low) r h =
    tree_with_directory-IsRecordable files path permissions next t low h r
tree_of-IsRecordable files (make_directories path permissions) next (t, low) r h =
    tree_with_directories-IsRecordable files path permissions next t low h r
tree_of-IsRecordable files (change_permissions path permissions) next (t, low) r h =
    tree_with_permissions-IsRecordable files path permissions next low h r
tree_of-IsRecordable files (delete_file path) next t r h =
    tree_without_file-IsRecordable files path next h r
tree_of-IsRecordable files (delete_directory path) next t r h =
    tree_without_directory-IsRecordable files path next h r

keep_files-device :
    (next : List FileEntry) (r : CodexFs × Result FsError (Unit {0}))
    → (keep_files next r).0.device ≡ r.0.device
keep_files-device next (fs, ok u) = refl
keep_files-device next (fs, err e) = refl

keep_files-IsSound :
    (current : Superblock) (next : List FileEntry) (r : CodexFs × Result FsError (Unit {0}))
    → IsRecordable next
    → r.0.device.sector_count ≤ u64_max
    → (r.1 ≡ ok tt → IsMounted current next (r.0))
    → (keep_files next r).1 ≡ ok tt
    → IsSound current ((keep_files next r).0)
keep_files-IsSound current next (fs, ok tt) recordable narrow mounted h =
    let m = mounted refl in
    record {
      mounted = record {
        on_device = m.on_device;
        same_generation = m.same_generation;
        same_start = m.same_start;
        same_sectors = m.same_sectors;
      };
      recordable = recordable;
      narrow = narrow;
    }
keep_files-IsSound current next (fs, err e) recordable narrow mounted h = absurd cc

module _ (current : Superblock) (fs : CodexFs) (sound : IsSound current fs) where
  loads_before : load_latest_snapshot fs.device ≡ ok (some (snapshot current fs.files))
  loads_before = load_latest_snapshot-IsCurrent current fs.files fs.device sound.mounted.on_device

  refused-IsAtomic :
      (tree : Result FsError (List FileEntry)) (e : FsError) → IsAtomic current fs tree (fs, err e)
  refused-IsAtomic tree e = record {
    loads = inl loads_before;
    done = λ h. absurd cc;
    made = λ h. absurd cc;
  }

  same-IsAtomic :
      (next : List FileEntry) → next ≡ fs.files → IsAtomic current fs (ok next) (fs, ok tt)
  same-IsAtomic next same = record {
    loads = inl loads_before;
    done = λ h. (current, sound);
    made = λ h. ap ok same;
  }

  planned-IsAtomic :
      (next : List FileEntry) (planned : Result FsError Plan)
      → IsRecordable next
      → plan_commit fs next ≡ planned
      → IsAtomic current fs (ok next) (keep_files next (carry_out fs planned))
  unfolding commit_files
  planned-IsAtomic next (err e) recordable h = refused-IsAtomic (ok next) e
  planned-IsAtomic next (ok plan) recordable h =
      let p = plan_commit-IsPlanFor fs next plan h in
      let r = carry_out fs (ok plan) in
      let same : commit_files fs next ≡ r = ap (carry_out fs) h in
      let (either, mounted) =
        commit_files-Atomic fs fs.files next current plan sound.narrow sound.mounted h recordable in
      let device : (keep_files next r).0.device ≡ (commit_files fs next).0.device =
        keep_files-device next r ∙ ap (λ t. t.0.device) (sym same) in
      let count : r.0.device.sector_count ≡ fs.device.sector_count =
        ap (λ t. t.0.device.sector_count) (sym same) ∙ commit_files-count fs next in
      let later = p.next_generation in
      let now = sound.mounted.same_generation in
      let narrow = sound.narrow in
      record {
        loads = elim either [
          | inl before ↦ inl (ap load_latest_snapshot device ∙ before)
          | inr after ↦ inr (
            plan.superblock,
            (next, (refl, (omega arith, ap load_latest_snapshot device ∙ after))),
          )
        ];
        done = λ e. (
          plan.superblock,
          keep_files-IsSound plan.superblock next r recordable (omega arith)
              (λ f.
                coe 0 1 (i. IsMounted plan.superblock next ((same i).0))
                  (mounted (ap (λ t. t.1) same ∙ f)))
              e,
        );
        made = λ e. ap ok (sym (keep_files-done next r e));
      }

  commit_next-IsAtomic :
      (tree : Result FsError (List FileEntry))
      → ((next : List FileEntry) → tree ≡ ok next → IsRecordable next)
      → IsAtomic current fs tree (commit_next fs tree)
  unfolding commit_next commit_files
  commit_next-IsAtomic (err e) recordable = refused-IsAtomic (err e) e
  commit_next-IsAtomic (ok next) recordable =
      planned-IsAtomic next (plan_commit fs next) (recordable next refl) refl

  commit_changed-IsAtomic :
      (tree : Result FsError (List FileEntry))
      → ((next : List FileEntry) → tree ≡ ok next → IsRecordable next)
      → IsAtomic current fs tree (commit_changed fs tree)
  unfolding commit_changed commit_next
  commit_changed-IsAtomic (err e) recordable = refused-IsAtomic (err e) e
  commit_changed-IsAtomic (ok next) recordable = elim (Bool-cases (files_eq next fs.files)) [
    | inl same ↦ rw same (same-IsAtomic next (files_eq→eq next fs.files same))
    | inr changed ↦ rw changed (commit_next-IsAtomic (ok next) recordable)
  ]

-- Let an operation be tried on a sound filesystem, that is one whose files are those of the snapshot on
-- its device, and on a device that may refuse any of the writes and flushes and all after it. Then what
-- is loaded from the device afterwards is the snapshot of before, or one of the next generation with
-- just the tree that the operation is to make; and if it reports success, the filesystem is sound again,
-- and its files are that tree.
pub perform-IsAtomic :
    (current : Superblock) (fs : CodexFs) (request : Request)
    → IsSound current fs
    → IsTyped request
    → IsAtomic current fs (tree_of fs.files request) (perform fs request)
unfolding write_file write_file_inner write_file_with_permissions create_dir create_dir_all
    set_permissions remove_file remove_dir
perform-IsAtomic current fs (write path contents) s t =
    commit_next-IsAtomic current fs s (tree_of fs.files (write path contents))
      (λ next. tree_of-IsRecordable fs.files (write path contents) next t s.recordable)
perform-IsAtomic current fs (write_with_permissions path contents permissions) s t =
    commit_next-IsAtomic current fs s
      (tree_of fs.files (write_with_permissions path contents permissions))
      (λ next.
        tree_of-IsRecordable fs.files (write_with_permissions path contents permissions) next t
          s.recordable)
perform-IsAtomic current fs (make_directory path permissions) s t =
    commit_changed-IsAtomic current fs s (tree_of fs.files (make_directory path permissions))
      (λ next. tree_of-IsRecordable fs.files (make_directory path permissions) next t s.recordable)
perform-IsAtomic current fs (make_directories path permissions) s t =
    commit_changed-IsAtomic current fs s (tree_of fs.files (make_directories path permissions))
      (λ next.
        tree_of-IsRecordable fs.files (make_directories path permissions) next t s.recordable)
perform-IsAtomic current fs (change_permissions path permissions) s t =
    commit_changed-IsAtomic current fs s (tree_of fs.files (change_permissions path permissions))
      (λ next.
        tree_of-IsRecordable fs.files (change_permissions path permissions) next t s.recordable)
perform-IsAtomic current fs (delete_file path) s t =
    commit_next-IsAtomic current fs s (tree_of fs.files (delete_file path))
      (λ next. tree_of-IsRecordable fs.files (delete_file path) next t s.recordable)
perform-IsAtomic current fs (delete_directory path) s t =
    commit_next-IsAtomic current fs s (tree_of fs.files (delete_directory path))
      (λ next. tree_of-IsRecordable fs.files (delete_directory path) next t s.recordable)
