-- ===== src/Fs/Changes/Trees.antt =====
-- What the operations of kernel/src/fs.rs keep of the tree of files.
use codex_os.Prelude.{ℕ, ◌≡◌, inl, inr, refl, sym, List, none, some, Bool-cases}
use codex_os.Prelude.Results.{Result, ok, err, ◌>>◌}
use codex_os.Fs.{Text, FsError, FileEntry, Superblock}
use codex_os.Fs.Tree.{
  tree_with_directory, tree_with_file, tree_with_permissions, tree_without_directory,
  tree_without_file,
}
use codex_os.Fs.FilePath.{validate_permissions}
use codex_os.Fs.Device.{Device}
use codex_os.Fs.Commit.{CodexFs, Plan, plan_commit, write_plan, carry_out, conclude, commit_files}
use codex_os.Fs.Commit.Crash.Plans.{plan_commit-IsPlanFor}
use codex_os.Fs.Changes.{
  commit_next, commit_changed, keep_files, files_eq, create_dir, create_dir_all, remove_dir,
  remove_file, set_permissions, write_file, write_file_inner, tree_with_directories,
  write_file_with_permissions,
}
use codex_os.Fs.Changes.Placed.{IsTree, encode_record-IsTree}

-- The operations that change the files.
pub data Request : Type 0 where
  write : Text → List ℕ → Request
  write_with_permissions : Text → List ℕ → ℕ → Request
  make_directory make_directories : Text → ℕ → Request
  change_permissions : Text → ℕ → Request
  delete_file delete_directory : Text → Request

abbrev pub perform : CodexFs → Request → CodexFs × Result FsError (Unit {0})
perform fs (write path contents) = write_file fs path contents
perform fs (write_with_permissions path contents permissions) =
    write_file_with_permissions fs path contents permissions
perform fs (make_directory path permissions) = create_dir fs path permissions
perform fs (make_directories path permissions) = create_dir_all fs path permissions
perform fs (change_permissions path permissions) = set_permissions fs path permissions
perform fs (delete_file path) = remove_file fs path
perform fs (delete_directory path) = remove_dir fs path

carry_out-IsTree :
    (fs : CodexFs) (next : List FileEntry) (planned : Result FsError Plan)
    → plan_commit fs next ≡ planned
    → (carry_out fs planned).1 ≡ ok tt
    → IsTree next
carry_out-IsTree fs next (err e) same h = absurd cc
carry_out-IsTree fs next (ok plan) same h =
    encode_record-IsTree plan.superblock.generation next plan.bytes
      (plan_commit-IsPlanFor fs next plan same).encoded

commit_files-IsTree :
    (fs : CodexFs) (next : List FileEntry) → (commit_files fs next).1 ≡ ok tt → IsTree next
unfolding commit_files
commit_files-IsTree fs next h = carry_out-IsTree fs next (plan_commit fs next) refl h

conclude-same_files :
    (fs : CodexFs) (superblock : Superblock) (r : Device × Result FsError (Unit {0}))
    → (conclude fs superblock r).0.files ≡ fs.files
conclude-same_files fs superblock (device, ok u) = refl
conclude-same_files fs superblock (device, err e) = refl

carry_out-files :
    (fs : CodexFs) (planned : Result FsError Plan) → (carry_out fs planned).0.files ≡ fs.files
carry_out-files fs (err e) = refl
carry_out-files fs (ok plan) = conclude-same_files fs plan.superblock (write_plan fs.device plan)

commit_files-files :
    (fs : CodexFs) (next : List FileEntry) → (commit_files fs next).0.files ≡ fs.files
unfolding commit_files
commit_files-files fs next = carry_out-files fs (plan_commit fs next)

keep_files-IsTree :
    (next files : List FileEntry) (r : CodexFs × Result FsError (Unit {0}))
    → r.0.files ≡ files
    → (r.1 ≡ ok tt → IsTree next)
    → IsTree files
    → IsTree ((keep_files next r).0.files)
keep_files-IsTree next files (fs, ok tt) same made tree = made refl
keep_files-IsTree next files (fs, err e) same made tree = coe 0 1 (i. IsTree ((sym same) i)) tree

commit_next-IsTree :
    (fs : CodexFs) (tree : Result FsError (List FileEntry))
    → IsTree fs.files
    → IsTree ((commit_next fs tree).0.files)
unfolding commit_next
commit_next-IsTree fs (err e) h = h
commit_next-IsTree fs (ok next) h =
    keep_files-IsTree next fs.files (commit_files fs next) (commit_files-files fs next)
      (commit_files-IsTree fs next) h

commit_changed-IsTree :
    (fs : CodexFs) (tree : Result FsError (List FileEntry))
    → IsTree fs.files
    → IsTree ((commit_changed fs tree).0.files)
unfolding commit_changed commit_next
commit_changed-IsTree fs (err e) h = h
commit_changed-IsTree fs (ok next) h = elim (Bool-cases (files_eq next fs.files)) [
  | inl same ↦ rw same h
  | inr changed ↦ rw changed (commit_next-IsTree fs (ok next) h)
]

-- Whatever operation on the files is tried, and however it ends, the filesystem keeps a tree of at most
-- 128 entries, each with a valid path and with a parent that is the root or a directory of the tree that
-- its owner can enter and write.
pub perform-IsTree :
    (fs : CodexFs) (request : Request) → IsTree fs.files → IsTree ((perform fs request).0.files)
unfolding write_file write_file_inner write_file_with_permissions create_dir create_dir_all
    set_permissions remove_file remove_dir
perform-IsTree fs (write path contents) h =
    commit_next-IsTree fs (tree_with_file fs.files path contents none) h
perform-IsTree fs (write_with_permissions path contents permissions) h =
    commit_next-IsTree fs
      (validate_permissions permissions >> tree_with_file fs.files path contents (some permissions))
      h
perform-IsTree fs (make_directory path permissions) h =
    commit_changed-IsTree fs (tree_with_directory fs.files path permissions) h
perform-IsTree fs (make_directories path permissions) h =
    commit_changed-IsTree fs (tree_with_directories fs.files path permissions) h
perform-IsTree fs (change_permissions path permissions) h =
    commit_changed-IsTree fs (tree_with_permissions fs.files path permissions) h
perform-IsTree fs (delete_file path) h = commit_next-IsTree fs (tree_without_file fs.files path) h
perform-IsTree fs (delete_directory path) h =
    commit_next-IsTree fs (tree_without_directory fs.files path) h
