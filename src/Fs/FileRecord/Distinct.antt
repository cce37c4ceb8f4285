-- ===== src/Fs/FileRecord/Distinct.antt =====
-- Names of entries of kernel/src/fs.rs that occur once.
use codex_os.Prelude.{ℕ, ◌≡◌, refl, ◌∙◌, List, [], ◌∷◌, ◌++◌, Bool, true, false, ◌||◌, arith}
use codex_os.Bytes.{bytes_eq}
use codex_os.Fs.{Text, FileEntry}
use codex_os.Fs.FileRecord.{has_name}

-- No name is listed twice.
abbrev pub HasDistinctNames : List FileEntry → Type 0
HasDistinctNames [] = Unit
HasDistinctNames (entry ∷ files) = (has_name entry.name files ≡ false) × HasDistinctNames files

-- Read one after the other, each has a name that none before it has.
abbrev pub AreFresh : List FileEntry → List FileEntry → Type 0
AreFresh seen [] = Unit
AreFresh seen (entry ∷ files) =
    (has_name entry.name seen ≡ false) × AreFresh (seen ++ entry ∷ []) files

pub bytes_eq_sym : (xs ys : List ℕ) → bytes_eq xs ys ≡ bytes_eq ys xs
unfolding bytes_eq
bytes_eq_sym [] [] = refl
bytes_eq_sym [] (y ∷ ys) = refl
bytes_eq_sym (x ∷ xs) [] = refl
bytes_eq_sym (x ∷ xs) (y ∷ ys) = ground (arith, bytes_eq_sym xs ys)

pub has_name-append :
    (name : Text) (xs ys : List FileEntry)
    → has_name name (xs ++ ys) ≡ (has_name name xs || has_name name ys)
unfolding has_name
has_name-append name [] ys = refl
has_name-append name (x ∷ xs) ys = ground (arith, has_name-append name xs ys)

abbrev AllUnseen : List FileEntry → List FileEntry → Type 0
AllUnseen seen [] = Unit
AllUnseen seen (entry ∷ files) = (has_name entry.name seen ≡ false) × AllUnseen seen files

unseen_next :
    (seen files : List FileEntry) (entry : FileEntry)
    → has_name entry.name files ≡ false
    → AllUnseen seen files
    → AllUnseen (seen ++ entry ∷ []) files
unfolding has_name
unseen_next seen [] entry h u = tt
unseen_next seen (other ∷ files) entry h (here, rest) =
    let apart : bytes_eq entry.name other.name ≡ false =
      bytes_eq_sym entry.name other.name
      ∙ left_false (bytes_eq other.name entry.name) (has_name entry.name files) h in
    let later : has_name entry.name files ≡ false =
      right_false (bytes_eq other.name entry.name) (has_name entry.name files) h in
    (
      has_name-append other.name seen (entry ∷ []) ∙ rw (here, apart) refl,
      unseen_next seen files entry later rest,
    )
  where
    left_false : (a b : Bool) → (a || b) ≡ false → a ≡ false
    left_false true b h = cc
    left_false false b h = refl

    right_false : (a b : Bool) → (a || b) ≡ false → b ≡ false
    right_false true b h = cc
    right_false false b h = h

fresh_from :
    (seen files : List FileEntry)
    → HasDistinctNames files
    → AllUnseen seen files
    → AreFresh seen files
fresh_from seen [] d u = tt
fresh_from seen (entry ∷ files) (once, d) (here, rest) =
    (here, fresh_from (seen ++ entry ∷ []) files d (unseen_next seen files entry once rest))

nothing_seen : (files : List FileEntry) → AllUnseen [] files
unfolding has_name
nothing_seen [] = tt
nothing_seen (entry ∷ files) = (refl, nothing_seen files)

pub HasDistinctNames-AreFresh :
    (files : List FileEntry) → HasDistinctNames files → AreFresh [] files
HasDistinctNames-AreFresh files d = fresh_from [] files d (nothing_seen files)
