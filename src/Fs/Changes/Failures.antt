-- ===== src/Fs/Changes/Failures.antt =====
-- What an operation of kernel/src/fs.rs leaves in memory when it fails, and when it does not.
use codex_os.Prelude.{◌+◌, ◌≡◌, ◌⊎◌, inl, inr, refl, List, none, some, Bool-cases}
use codex_os.Prelude.Results.{Result, ok, err, ◌>>◌}
use codex_os.Fs.{FsError, FileEntry, Superblock}
use codex_os.Fs.FilePath.{validate_permissions}
use codex_os.Fs.Device.{Device}
use codex_os.Fs.Tree.{
  tree_with_directory, tree_with_file, tree_with_permissions, tree_without_directory,
  tree_without_file,
}
use codex_os.Fs.Commit.{CodexFs, Plan, plan_commit, write_plan, carry_out, conclude, commit_files}
use codex_os.Fs.Commit.Crash.Plans.{plan_commit-IsPlanFor}
use codex_os.Fs.Changes.{
  commit_next, commit_changed, keep_files, files_eq, create_dir, create_dir_all, remove_dir,
  remove_file, set_permissions, write_file, write_file_inner, write_file_with_permissions,
  tree_with_directories,
}
use codex_os.Fs.Changes.Trees.{
  Request, perform, write, write_with_permissions, make_directory, make_directories,
  change_permissions, delete_file, delete_directory,
}

-- Two filesystems that differ in nothing but their devices.
pub record IsSameInMemory (old new : CodexFs) : Type 0 where
  pub same_files : new.files ≡ old.files
  pub same_generation : new.generation ≡ old.generation
  pub same_start : new.active_record_start ≡ old.active_record_start
  pub same_sectors : new.active_record_sectors ≡ old.active_record_sectors

-- What an operation leaves: the same memory after an error; after success the same filesystem, or one
-- of the next generation.
pub record IsAllOrNothing (old : CodexFs) (r : CodexFs × Result FsError (Unit {0})) : Type 0 where
  pub failed : (e : FsError) → r.1 ≡ err e → IsSameInMemory old (r.0)
  pub done : r.1 ≡ ok tt → (r.0 ≡ old) ⊎ (r.0.generation ≡ old.generation + 1)

same_in_memory : (fs : CodexFs) → IsSameInMemory fs fs
same_in_memory fs = record {
  same_files = refl;
  same_generation = refl;
  same_start = refl;
  same_sectors = refl;
}

refused : (fs : CodexFs) (e : FsError) → IsAllOrNothing fs (fs, err e)
refused fs e = record { failed = λ x h. same_in_memory fs; done = λ h. absurd cc }

kept-conclude :
    (fs : CodexFs) (next : List FileEntry) (superblock : Superblock)
    (r : Device × Result FsError (Unit {0}))
    → superblock.generation ≡ fs.generation + 1
    → IsAllOrNothing fs (keep_files next (conclude fs superblock r))
kept-conclude fs next superblock (device, ok u) later = record {
  failed = λ e h. absurd cc;
  done = λ h. inr later;
}
kept-conclude fs next superblock (device, err e) later = record {
  failed = λ x h. record {
    same_files = refl;
    same_generation = refl;
    same_start = refl;
    same_sectors = refl;
  };
  done = λ h. absurd cc;
}

kept-carry_out :
    (fs : CodexFs) (next : List FileEntry) (planned : Result FsError Plan)
    → plan_commit fs next ≡ planned
    → IsAllOrNothing fs (keep_files next (carry_out fs planned))
kept-carry_out fs next (err e) same = refused fs e
kept-carry_out fs next (ok plan) same =
    kept-conclude fs next plan.superblock (write_plan fs.device plan)
      (plan_commit-IsPlanFor fs next plan same).next_generation

commit_next-IsAllOrNothing :
    (fs : CodexFs) (tree : Result FsError (List FileEntry))
    → IsAllOrNothing fs (commit_next fs tree)
unfolding commit_next commit_files
commit_next-IsAllOrNothing fs (err e) = refused fs e
commit_next-IsAllOrNothing fs (ok next) = kept-carry_out fs next (plan_commit fs next) refl

unchanged : (fs : CodexFs) → IsAllOrNothing fs (fs, ok tt)
unchanged fs = record { failed = λ e h. absurd cc; done = λ h. inl refl }

commit_changed-IsAllOrNothing :
    (fs : CodexFs) (tree : Result FsError (List FileEntry))
    → IsAllOrNothing fs (commit_changed fs tree)
unfolding commit_changed commit_next
commit_changed-IsAllOrNothing fs (err e) = refused fs e
commit_changed-IsAllOrNothing fs (ok next) = elim (Bool-cases (files_eq next fs.files)) [
  | inl same ↦ rw same (unchanged fs)
  | inr changed ↦ rw changed (commit_next-IsAllOrNothing fs (ok next))
]

-- An operation on the files that fails, for whatever reason and also on the device, leaves the files,
-- the generation and the place of the active record in memory as they were. One that succeeds leaves
-- the filesystem as it was, or with the next generation.
pub perform-IsAllOrNothing :
    (fs : CodexFs) (request : Request) → IsAllOrNothing fs (perform fs request)
unfolding write_file write_file_inner write_file_with_permissions create_dir create_dir_all
    set_permissions remove_file remove_dir
perform-IsAllOrNothing fs (write path contents) =
    commit_next-IsAllOrNothing fs (tree_with_file fs.files path contents none)
perform-IsAllOrNothing fs (write_with_permissions path contents permissions) =
    commit_next-IsAllOrNothing fs
      (validate_permissions permissions >> tree_with_file fs.files path contents (some permissions))
perform-IsAllOrNothing fs (make_directory path permissions) =
    commit_changed-IsAllOrNothing fs (tree_with_directory fs.files path permissions)
perform-IsAllOrNothing fs (make_directories path permissions) =
    commit_changed-IsAllOrNothing fs (tree_with_directories fs.files path permissions)
perform-IsAllOrNothing fs (change_permissions path permissions) =
    commit_changed-IsAllOrNothing fs (tree_with_permissions fs.files path permissions)
perform-IsAllOrNothing fs (delete_file path) =
    commit_next-IsAllOrNothing fs (tree_without_file fs.files path)
perform-IsAllOrNothing fs (delete_directory path) =
    commit_next-IsAllOrNothing fs (tree_without_directory fs.files path)
