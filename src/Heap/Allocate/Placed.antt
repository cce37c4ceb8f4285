-- ===== src/Heap/Allocate/Placed.antt =====
-- A block that serves a request, in libs/heap-allocator/src/lib.rs: when it fits, and the memory and
-- the counters after it was cut.
use native.Mathlib.Nat.{one-le-pow}
use codex_os.Prelude.{
  ℕ, ◌+◌, ◌-◌, ◌*◌, ◌/◌, ◌%◌, ◌^◌, ◌≤◌, ◌<◌, ◌≡◌, ◌≢◌, refl, ◌∙◌, List, ◌∷◌, true, some, arith,
  ◌==◌, leb, u64_max, checked_add, if◌then◌else◌, Bool-cases, ◌⊎◌, inl, inr, eq_false,
}
use codex_os.Prelude.Bits.{bit_and_power_mask}
use codex_os.Heap.{Region, Words, free_list_end, allocation_magic, align_up, write, set_link}
use codex_os.Heap.Cells.{Cell, free, used, used_size, in_use, in_use-bounds, Holds}
use codex_os.Heap.FirstFit.{user_in, suffix_of, Took, Counted, link_of}
use codex_os.Heap.Allocate.{skip, fit, fit_block, fits_until, commit_block}

pub align_up-power :
    (k value : ℕ)
    → k ≤ 63
    → value + 2 ^ k ≤ u64_max
    → align_up value (2 ^ k) ≡ some ((value + (2 ^ k - 1)) / 2 ^ k * 2 ^ k)
unfolding align_up
align_up-power k value h room =
    let some_power = one-le-pow k 2 in
    let masked = bit_and_power_mask (64 - k) k (value + (2 ^ k - 1)) (omega arith) (omega arith) in
    let inside : leb (value + (2 ^ k - 1)) u64_max ≡ true = ground arith in rw (inside, masked) refl

fits_until_lem :
    (user requested end : ℕ)
    → end ≤ u64_max
    → fits_until user end (checked_add user requested)
      ≡ (if leb (user + requested) end then fit user (user + requested) end else skip)
fits_until_lem user requested end h = ground arith

pub fit_block_lem :
    (k requested start size : ℕ)
    → k ≤ 63
    → start + size + 2 ^ k + 32 ≤ u64_max
    → fit_block requested (2 ^ k) start size ≡ (
        if leb (user_in k start + requested) (start + size)
        then fit (user_in k start) (user_in k start + requested) (start + size)
        else skip)
unfolding fit_block user_in
fit_block_lem k requested start size h room =
    let end_inside : leb (start + size) u64_max ≡ true = ground arith in
    let header_inside : leb (start + 32) u64_max ≡ true = ground arith in
    rw (end_inside, header_inside, align_up-power k (start + 32) h (omega arith))
      (fits_until_lem (user_in k start) requested (start + size) (omega arith))

-- The end of an allocation, rounded up to the alignment of free blocks.
pub align_suffix :
    (user requested : ℕ)
    → user + requested + 8 ≤ u64_max
    → align_up (user + requested) 8 ≡ some (suffix_of user requested)
align_suffix user requested h = align_up-power 3 (user + requested) (omega arith) h

-- The memory after the link before the block was set and the header written.
module _ (r : Region) (requested previous start user end replacement : ℕ) (words : Words)
    (before : (previous ≡ free_list_end) ⊎ (previous + 16 ≤ start))
    (header : start + 32 ≤ user) where
  abbrev pub committed : Region
  committed = commit_block r requested previous start user (end, replacement, words)

  pub committed-else :
      (a : ℕ)
      → (previous ≢ free_list_end → a ≢ previous + 8)
      → (a + 32 < user) ⊎ (user ≤ a)
      → committed.words a ≡ words a
  unfolding commit_block set_link write
  committed-else a h out = elim (Bool-cases (previous == free_list_end)) [
    | inl first ↦ rw first (ground arith)
    | inr later ↦ let apart = h (λ e. absurd (ground arith)) in rw later (ground arith)
  ]

  pub committed-magic : committed.words (user - 32) ≡ allocation_magic
  unfolding commit_block set_link write
  committed-magic = ground arith

  pub committed-start : committed.words (user - 24) ≡ start
  unfolding commit_block set_link write
  committed-start = ground arith

  pub committed-size : committed.words (user - 16) ≡ end - start
  unfolding commit_block set_link write
  committed-size = ground arith

  pub committed-requested : committed.words (user - 8) ≡ requested
  unfolding commit_block set_link write
  committed-requested = ground arith

  pub committed-link : link_of committed previous ≡ replacement
  unfolding commit_block set_link write
  committed-link = elim (Bool-cases (previous == free_list_end)) [
    | inl first ↦ rw first refl
    | inr later ↦ rw later (ground arith)
  ]

  pub committed-head : previous ≢ free_list_end → committed.state.free_head ≡ r.state.free_head
  unfolding commit_block set_link
  committed-head h = rw (eq_false previous free_list_end h) refl

  pub committed-Counted : Counted r.state committed.state (end - start)
  unfolding commit_block set_link
  committed-Counted = elim (Bool-cases (previous == free_list_end)) [
    | inl first ↦ rw first (record {
      initialized = refl;
      used_bytes = refl;
      peak = refl;
      live = refl;
      total = refl;
      deallocations = refl;
      failed = refl;
    })
    | inr later ↦ rw later (record {
      initialized = refl;
      used_bytes = refl;
      peak = refl;
      live = refl;
      total = refl;
      deallocations = refl;
      failed = refl;
    })
  ]

  pub committed-behind : (a : ℕ) → user ≤ a → committed.words a ≡ words a
  committed-behind a h = committed-else a past (inr h)
    where
      past : previous ≢ free_list_end → a ≢ previous + 8
      past later = elim before [
        | inl first ↦ absurd (later first)
        | inr below ↦ λ e. absurd (omega arith)
      ]

  -- The allocation, with the tail of the cells that follow it.
  pub committed-Took :
      (size : ℕ) (cells tail : List Cell)
      → Holds r.words (r.words (start + 8)) (start + size) cells
      → Holds committed.words replacement end tail
      → used_size tail ≡ used_size cells
      → ((a : ℕ) → a < user + requested → words a ≡ r.words a)
      → ((a : ℕ) → start + size ≤ a → words a ≡ r.words a)
      → user + requested ≤ end
      → user + requested ≤ start + size
      → 0 < requested
      → user % 8 ≡ 0
      → end % 8 ≡ 0
      → start % 8 ≡ 0
      → Took r committed previous start
          (free size ∷ cells)
          (used (end - start) user requested ∷ tail)
  unfolding in_use
  committed-Took size cells tail rest holds same low high ends room asked u8 e8 s8 = record {
    kept_below = λ a h ne. committed-else a (λ p. ne) (inl (omega arith)) ∙ low a (omega arith);
    kept_above = λ a h. committed-behind a (omega arith) ∙ high a (omega arith);
    kept_used = λ a h.
        let (behind, within) =
          in_use-bounds r.words (r.words (start + 8)) (start + size) cells a rest h in
        committed-behind a (omega arith) ∙ high a (omega arith);
    head_kept = committed-head;
    holds = (
      record {
        header_inside = header;
        user_inside = omega arith;
        asked = asked;
        size_aligned = omega arith;
        user_aligned = u8;
        magic = committed-magic;
        block_start = committed-start;
        block_size = committed-size;
        requested_size = committed-requested;
      },
      rw (committed-link, whole) holds,
    );
    grown = end - start;
    grows = omega arith;
    counted = committed-Counted;
  }
    where
      whole : start + (end - start) ≡ end
      whole = omega arith
