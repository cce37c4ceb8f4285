-- ===== src/Fs/Changes/Compared.antt =====
-- The comparison of trees in kernel/src/fs.rs decides whether they are equal.
use codex_os.Prelude.{Bool, false, ◌&&◌, ==→eq, ◌≡◌, refl, List, [], ◌∷◌, true, eq_refl, ◌==◌}
use codex_os.Bytes.{bytes_eq}
use codex_os.Bytes.Words.{bytes_eq→eq, bytes_eq_refl}
use codex_os.Fs.{EntryKind, file, directory, FileEntry}
use codex_os.Fs.Changes.{entry_eq, files_eq, same_kind}

same_kind_refl : (kind : EntryKind) → same_kind kind kind ≡ true
same_kind_refl file = refl
same_kind_refl directory = refl

entry_eq_refl : (entry : FileEntry) → entry_eq entry entry ≡ true
entry_eq_refl entry = rw (
  bytes_eq_refl entry.name,
  bytes_eq_refl entry.contents,
  same_kind_refl entry.kind,
  eq_refl entry.permissions,
)

pub files_eq_refl : (files : List FileEntry) → files_eq files files ≡ true
unfolding files_eq
files_eq_refl [] = refl
files_eq_refl (entry ∷ files) = rw (entry_eq_refl entry) (files_eq_refl files)

same_kind→eq : (k l : EntryKind) → same_kind k l ≡ true → k ≡ l
same_kind→eq file file h = refl
same_kind→eq file directory h = absurd cc
same_kind→eq directory file h = absurd cc
same_kind→eq directory directory h = refl

both : (a b : Bool) → (a && b) ≡ true → (a ≡ true) × (b ≡ true)
both true b h = (refl, h)
both false b h = absurd cc

entry_eq→eq : (x y : FileEntry) → entry_eq x y ≡ true → x ≡ y
entry_eq→eq x y h =
    let (name, h1) = both (bytes_eq x.name y.name) _ h in
    let (contents, h2) = both (bytes_eq x.contents y.contents) _ h1 in
    let (kind, permissions) = both (same_kind x.kind y.kind) (x.permissions == y.permissions) h2 in
    λ i. record {
      name = (bytes_eq→eq x.name y.name name) i;
      contents = (bytes_eq→eq x.contents y.contents contents) i;
      kind = (same_kind→eq x.kind y.kind kind) i;
      permissions = (==→eq x.permissions y.permissions permissions) i;
    }

-- Trees that compare as equal are equal.
pub files_eq→eq : (xs ys : List FileEntry) → files_eq xs ys ≡ true → xs ≡ ys
unfolding files_eq
files_eq→eq [] [] h = refl
files_eq→eq [] (y ∷ ys) h = absurd cc
files_eq→eq (x ∷ xs) [] h = absurd cc
files_eq→eq (x ∷ xs) (y ∷ ys) h =
    let (here, rest) = both (entry_eq x y) (files_eq xs ys) h in
    λ i. (entry_eq→eq x y here) i ∷ (files_eq→eq xs ys rest) i
