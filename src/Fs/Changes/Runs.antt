-- ===== src/Fs/Changes/Runs.antt =====
-- Operations of kernel/src/fs.rs one after the other, on a device that may stop at any of them.
use codex_os.Prelude.{
  All, ℕ, suc, ◌+◌, ◌≤◌, ◌≡◌, inl, inr, refl, ◌∙◌, List, [], ◌∷◌, length, take, some, arith,
}
use codex_os.Prelude.Results.{Result, ok, err, ◌>>=◌, bind-ok, bind-passed}
use codex_os.Fs.{FsError, FileEntry, Superblock}
use codex_os.Fs.Device.{load_latest_snapshot}
use codex_os.Fs.Commit.{CodexFs}
use codex_os.Fs.Commit.Crash.Current.{load_latest_snapshot-IsCurrent, snapshot}
use codex_os.Fs.Tree.Shows.{Shows, View, given-Shows, view}
use codex_os.Fs.Changes.Contents.{view_after, tree_of-Shows}
use codex_os.Fs.Changes.Trees.{Request, perform}
use codex_os.Fs.Changes.Atomic.{IsAtomic, IsSound, IsTyped, perform-IsAtomic, tree_of}

abbrev pub and_count : CodexFs × Result FsError (Unit {0}) → (CodexFs → CodexFs × ℕ) → CodexFs × ℕ
and_count (next, ok u) rest = let r = rest next in (r.0, suc (r.1))
and_count (next, err e) rest = (next, 0)

-- The operations are tried up to the first that fails; with the number that reported success.
abbrev pub run : CodexFs → List Request → CodexFs × ℕ
run fs [] = (fs, 0)
run fs (request ∷ requests) = and_count (perform fs request) (λ next. run next requests)

-- The tree that requests ask for, one after the other.
abbrev pub tree_after : List FileEntry → List Request → Result FsError (List FileEntry)
tree_after files [] = ok files
tree_after files (request ∷ requests) = do next ← tree_of files request; tree_after next requests

-- What the device of a run holds is the tree of the first requests: of those that reported success, and
-- perhaps of the next one.
pub record HoldsPrefix (files : List FileEntry) (requests : List Request) (r : CodexFs × ℕ)
    : Type 0 where
  pub reached : ℕ
  pub at_least : r.1 ≤ reached
  pub at_most : reached ≤ r.1 + 1
  pub within : reached ≤ length requests
  pub held : List FileEntry
  pub superblock : Superblock
  pub asked : tree_after files (take reached requests) ≡ ok held
  pub loads : load_latest_snapshot (r.0.device) ≡ ok (some (snapshot superblock held))

step-HoldsPrefix :
    (current : Superblock) (fs : CodexFs) (request : Request) (requests : List Request)
    (r : CodexFs × Result FsError (Unit {0})) (rest : CodexFs → CodexFs × ℕ)
    → IsAtomic current fs (tree_of fs.files request) r
    → ((next : CodexFs) (later : Superblock)
        → IsSound later next
        → HoldsPrefix next.files requests (rest next))
    → HoldsPrefix fs.files (request ∷ requests) (and_count r rest)
step-HoldsPrefix current fs request requests (next, err e) rest a go = elim a.loads [
  | inl before ↦ record {
    reached = 0;
    at_least = omega arith;
    at_most = omega arith;
    within = omega arith;
    held = fs.files;
    superblock = current;
    asked = refl;
    loads = before;
  }
  | inr (later, (files, (same, (generation, after)))) ↦ record {
    reached = 1;
    at_least = omega arith;
    at_most = omega arith;
    within = omega arith;
    held = files;
    superblock = later;
    asked = bind-ok (tree_of fs.files request) _ files same;
    loads = after;
  }
]
step-HoldsPrefix current fs request requests (next, ok tt) rest a go =
    let (later, sound) = a.done refl in
    let h = go next later sound in
    let low = h.at_least in
    let high = h.at_most in
    let within = h.within in
    record {
      reached = suc h.reached;
      at_least = omega arith;
      at_most = omega arith;
      within = omega arith;
      held = h.held;
      superblock = h.superblock;
      asked = bind-ok (tree_of fs.files request) _ next.files (a.made refl) ∙ h.asked;
      loads = h.loads;
    }

run-HoldsPrefix :
    (current : Superblock) (fs : CodexFs) (requests : List Request)
    → IsSound current fs
    → All IsTyped requests
    → HoldsPrefix fs.files requests (run fs requests)
run-HoldsPrefix current fs [] sound typed = record {
  reached = 0;
  at_least = omega arith;
  at_most = omega arith;
  within = omega arith;
  held = fs.files;
  superblock = current;
  asked = refl;
  loads = load_latest_snapshot-IsCurrent current fs.files fs.device sound.mounted.on_device;
}
run-HoldsPrefix current fs (request ∷ requests) sound (here, typed) =
    step-HoldsPrefix current fs request requests (perform fs request) (λ next. run next requests)
      (perform-IsAtomic current fs request sound here)
      (λ next later s. run-HoldsPrefix later next requests s typed)

-- What requests do to the map of the files, one after the other.
abbrev pub views_after : View → List Request → View
views_after v [] = v
views_after v (request ∷ requests) = views_after (view_after v request) requests

tree_after-Shows :
    (v : View) (files : List FileEntry) (requests : List Request) (held : List FileEntry)
    → tree_after files requests ≡ ok held
    → Shows v files
    → Shows (views_after v requests) held
tree_after-Shows v files [] held h s = given-Shows v files held h s
tree_after-Shows v files (request ∷ requests) held h s =
    let (next, (e, h1)) = bind-passed (tree_of files request) _ held h in
    tree_after-Shows (view_after v request) next requests held h1
      (tree_of-Shows v files request next e s)

-- The tree is that of the first requests, and its files are as those requests are to make them.
pub record HoldsFiles (files : List FileEntry) (requests : List Request) (r : CodexFs × ℕ)
    : Type 0 where
  pub first : HoldsPrefix files requests r
  pub shows : Shows (views_after (view files) (take first.reached requests)) first.held

-- Let operations be tried on a sound filesystem one after the other, up to the first that fails, on a
-- device that may stop at any write or flush. Then what is loaded from the device afterwards is the tree
-- that the first of the requests ask for: all that reported success, and at most one more. In that tree
-- the files, as a map from paths to contents and permissions, are what these requests make of the map
-- before.
pub run-HoldsFiles :
    (current : Superblock) (fs : CodexFs) (requests : List Request)
    → IsSound current fs
    → All IsTyped requests
    → HoldsFiles fs.files requests (run fs requests)
run-HoldsFiles current fs requests sound typed =
    let first = run-HoldsPrefix current fs requests sound typed in
    record {
      first = first;
      shows =
          tree_after-Shows (view fs.files) fs.files (take first.reached requests) first.held
            first.asked (record { distinct = sound.recordable.distinct; shown = λ name. refl });
    }
