-- ===== src/Heap/Allocate/Taken.antt =====
-- The two ways to cut a block that serves a request, in libs/heap-allocator/src/lib.rs.
use mathlib.Core.Path.{subst}
use codex_os.Prelude.{
  ℕ, ◌+◌, ◌-◌, ◌%◌, ◌≤◌, ◌<◌, ◌≡◌, refl, sym, ◌∙◌, List, ◌∷◌, true, false, arith, leb, leb→le,
  Bool-cases, ◌⊎◌, inl, inr,
}
use codex_os.Heap.{Region, Words, free_list_end, write}
use codex_os.Heap.Cells.{Cell, free, used, Holds, Holds-Agree, IsFree}
use codex_os.Heap.FirstFit.{suffix_of, place, Took, link_of}
use codex_os.Heap.Allocate.{cut_block, commit_block, take_block}
use codex_os.Heap.Allocate.Placed.{committed, committed-behind, committed-Took}

module _ (r : Region) (requested start size user : ℕ) where
  whole_words :
      leb (suffix_of user requested + 16) (start + size) ≡ false
      → cut_block r.words (suffix_of user requested) (start + size) (r.words (start + 8))
        ≡ (start + size, r.words (start + 8), r.words)
  unfolding cut_block
  whole_words whole = ground arith

  abbrev cut_memory : Words
  cut_memory =
      write (write r.words (suffix_of user requested) (start + size - suffix_of user requested))
        (suffix_of user requested + 8) (r.words (start + 8))

  cut_size : cut_memory (suffix_of user requested) ≡ start + size - suffix_of user requested
  unfolding write
  cut_size = ground arith

  cut_next : cut_memory (suffix_of user requested + 8) ≡ r.words (start + 8)
  unfolding write
  cut_next = ground arith

  cut_low : (a : ℕ) → a < user + requested → cut_memory a ≡ r.words a
  unfolding write
  cut_low a h = ground arith

  cut_high :
      leb (suffix_of user requested + 16) (start + size) ≡ true
      → (a : ℕ) → start + size ≤ a
      → cut_memory a ≡ r.words a
  unfolding write
  cut_high fits a h = ground arith

  cut_words :
      leb (suffix_of user requested + 16) (start + size) ≡ true
      → cut_block r.words (suffix_of user requested) (start + size) (r.words (start + 8))
        ≡ (suffix_of user requested, suffix_of user requested, cut_memory)
  unfolding cut_block
  cut_words cut = ground arith

module _ (r : Region) (requested previous start size : ℕ) (cells : List Cell)
    (f : IsFree r.words (link_of r previous) start size)
    (rest : Holds r.words (r.words (start + 8)) (start + size) cells)
    (before : (previous ≡ free_list_end) ⊎ (previous + 16 ≤ start)) (asked : 0 < requested)
    (aligned : start % 8 ≡ 0) (user : ℕ) (user_aligned : user % 8 ≡ 0) (header : start + 32 ≤ user)
    (fits : user + requested ≤ start + size) where
  abbrev taken : Region
  taken = take_block r requested previous start user (start + size) (suffix_of user requested)

  taken-whole :
      leb (suffix_of user requested + 16) (start + size) ≡ false
      → (start + size) % 8 ≡ 0
      → Took r taken previous start (free size ∷ cells) (used size user requested ∷ cells)
  unfolding take_block
  taken-whole whole aligned_end =
      let same =
        Holds-Agree r.words
          (committed r requested previous start user (start + size) (r.words (start + 8)) r.words
            before header).words
          (r.words (start + 8)) (start + size) cells rest
          (record {
            at = λ a low high.
                committed-behind r requested previous start user (start + size)
                  (r.words (start + 8)) r.words before header a (omega arith);
          }) in
      let cut = whole_words r requested start size user whole in
      let took =
        committed-Took r requested previous start user (start + size) (r.words (start + 8)) r.words
          before header size cells cells rest same refl (λ a h. refl) (λ a h. refl) fits fits asked
          user_aligned aligned_end aligned in
      let exact : start + size - start ≡ size = omega arith in
      subst
        (λ t.
          Took r (commit_block r requested previous start user t) previous start (free size ∷ cells)
            (used size user requested ∷ cells))
        (sym cut) (rw exact at took)

  taken-cut :
      leb (suffix_of user requested + 16) (start + size) ≡ true
      → (start + size) % 8 ≡ 0
      → Took r taken previous start (free size ∷ cells) (
          used (suffix_of user requested - start) user requested
          ∷ free (start + size - suffix_of user requested)
          ∷ cells)
  unfolding take_block
  taken-cut fits_cut aligned_end =
      let inside : suffix_of user requested + 16 ≤ start + size = leb→le _ _ fits_cut in
      let cut = cut_words r requested start size user fits_cut in
      let suffix = suffix_of user requested in
      let words = cut_memory r requested start size user in
      let done = committed r requested previous start user suffix suffix words before header in
      let behind =
        committed-behind r requested previous start user suffix suffix words before header in
      let tail : IsFree done.words suffix suffix (start + size - suffix) = record {
        linked = refl;
        sized = behind suffix (omega arith) ∙ cut_size r requested start size user;
        holds_links = omega arith;
        size_aligned = omega arith;
      } in
      let next : done.words (suffix + 8) ≡ r.words (start + 8) =
        behind (suffix + 8) (omega arith) ∙ cut_next r requested start size user in
      let ends : suffix + (start + size - suffix) ≡ start + size = omega arith in
      let left : Holds done.words (done.words (suffix + 8)) (suffix + (start + size - suffix))
          cells =
        rw (next, ends)
          (Holds-Agree r.words done.words (r.words (start + 8)) (start + size) cells rest (record {
            at = λ a low high.
                behind a (omega arith)
                ∙ cut_high r requested start size user fits_cut a (omega arith);
          })) in
      let took =
        committed-Took r requested previous start user suffix suffix words before header size cells
          (free (start + size - suffix) ∷ cells) rest (tail, left) refl
          (cut_low r requested start size user) (cut_high r requested start size user fits_cut)
          (omega arith) fits asked user_aligned (omega arith) aligned in
      subst
        (λ t.
          Took r (commit_block r requested previous start user t) previous start (free size ∷ cells)
            (used (suffix - start) user requested ∷ free (start + size - suffix) ∷ cells))
        (sym cut) took

  pub taken-Took :
      (start + size) % 8 ≡ 0
      → Took r taken previous start (free size ∷ cells) (place user requested start size cells)
  unfolding place
  taken-Took aligned_end = elim (Bool-cases (leb (suffix_of user requested + 16) (start + size))) [
    | inl cut ↦ rw cut (taken-cut cut aligned_end)
    | inr whole ↦ rw whole (taken-whole whole aligned_end)
  ]
