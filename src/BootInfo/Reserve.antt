-- ===== src/BootInfo/Reserve.antt =====
-- What `reserve_memory` of libs/bootinfo/src/lib.rs adds to the table, address by address.
use codex_os.Prelude.{
  ℕ, zero, suc, ◌+◌, ◌≤◌, ◌<◌, ◌≡◌, ◌==◌, List, [], ◌∷◌, Bool, true, false, ◌&&◌, ◌||◌, some, arith,
  length, Option-cases, Bool-cases, in_range, in_range-add, and_or_distrib, or_swap, or_assoc,
  or_comm, sym, saturating_add, u64_max, set, Option, inl, inr, refl, leb, ap, ◌∙◌, length-set,
}
use native.Mathlib.Numerals.{add-one}
use mathlib.Core.Option.{some-injective}
use codex_os.BootInfo.{
  BootInfo, ReservedMemoryRange, ReservedMemoryKind, reserve_memory, discriminant, extend_first,
  max_reserved_memory_ranges, range_end,
}

-- The address lies in one of the first `count` ranges, and that range is of the kind.
unfoldable pub covered : ℕ → List ReservedMemoryRange → ReservedMemoryKind → ℕ → Bool
covered zero ranges kind a = false
covered (suc count) [] kind a = false
covered (suc count) (range ∷ ranges) kind a =
    ((discriminant range.kind == discriminant kind) && in_range range.start range.length a)
    || covered count ranges kind a

abbrev pub is_reserved : BootInfo → ReservedMemoryKind → ℕ → Bool
is_reserved info kind a = covered info.reserved_memory_count info.reserved_memory kind a

abbrev pub IsWellFormed : BootInfo → Type 0
IsWellFormed info =
    (info.reserved_memory_count ≤ max_reserved_memory_ranges)
    × (length info.reserved_memory ≡ max_reserved_memory_ranges)

module _ (start len : ℕ) (kind k : ReservedMemoryKind) (a : ℕ) (pos : 0 < len)
    (fits : start + len ≤ u64_max) where
  abbrev added : Bool
  added = (discriminant kind == discriminant k) && in_range start len a

  abbrev matches : ReservedMemoryRange → Bool
  matches range = (discriminant range.kind == discriminant kind) && (range_end range == start)

  abbrev holds : ReservedMemoryRange → Bool
  holds range = (discriminant range.kind == discriminant k) && in_range range.start range.length a

  -- A range that ends at `start` grows by exactly the new bytes.
  covered-grown :
      (range : ReservedMemoryRange)
      → matches range ≡ true
      → ((discriminant range.kind == discriminant k)
          && in_range range.start (saturating_add range.length len) a)
        ≡ (((discriminant range.kind == discriminant k) && in_range range.start range.length a)
            || added)
  covered-grown range m =
      let same : discriminant range.kind ≡ discriminant kind = ground arith in
      let ends : range.start + range.length ≡ start = ground arith in
      let grown : saturating_add range.length len ≡ range.length + len = omega arith in
      rw (grown, in_range-add range.start range.length len a, ends, same)
        (and_or_distrib (discriminant kind == discriminant k) (in_range range.start range.length a)
          (in_range start len a))

  covered-extend_first :
      (count : ℕ) (ranges out : List ReservedMemoryRange)
      → extend_first count kind start len ranges ≡ some out
      → covered count out k a ≡ (covered count ranges k a || added)
  unfolding extend_first covered
  covered-extend_first zero ranges out e = cc
  covered-extend_first (suc count) [] out e = cc
  covered-extend_first (suc count) (range ∷ ranges) out e = elim (Bool-cases (matches range)) [
    | inl hit ↦
        rw
          (
            ← some-injective (record range { length = saturating_add range.length len } ∷ ranges)
                out (rw hit at e),
            covered-grown range hit,
          )
          (or_swap (holds range) added (covered count ranges k a))
    | inr miss ↦ elim (Option-cases (extend_first count kind start len ranges)) [
      | inl gone ↦ cc (rw (miss, gone) at e)
      | inr (rest, found) ↦
          rw
            (
              ← some-injective (range ∷ rest) out (rw (miss, found) at e),
              covered-extend_first count ranges rest found,
            )
            (sym (or_assoc (holds range) (covered count ranges k a) added))
    ]
  ]

  covered-set :
      (count : ℕ) (ranges : List ReservedMemoryRange) (range : ReservedMemoryRange)
      → count < length ranges
      → covered (suc count) (set ranges count range) k a ≡ (covered count ranges k a || holds range)
  unfolding covered
  covered-set zero [] range h = elim h [ ]
  covered-set (suc count) [] range h = elim h [ ]
  covered-set zero (r ∷ ranges) range h = or_comm (holds range) false
  covered-set (suc count) (r ∷ ranges) range h =
      rw (covered-set count ranges range (omega arith))
        (sym (or_assoc (holds r) (covered count ranges k a) (holds range)))

length-extend_first :
    (count start len : ℕ) (kind : ReservedMemoryKind) (ranges out : List ReservedMemoryRange)
    → extend_first count kind start len ranges ≡ some out
    → length out ≡ length ranges
unfolding extend_first
length-extend_first zero start len kind ranges out e = cc
length-extend_first (suc count) start len kind [] out e = cc
length-extend_first (suc count) start len kind (range ∷ ranges) out e =
    elim (Option-cases (extend_first count kind start len ranges)) [
      | inl gone ↦ ground (arith, gone)
      | inr (rest, found) ↦
          ground (arith, found, length-extend_first count start len kind ranges rest found)
    ]

-- What one call may return: the table is left alone and the answer is `false`, or the answer is
-- `true` and the table has either a longer range or one range more.
data Outcome (info : BootInfo) (start len : ℕ) (kind : ReservedMemoryKind)
    (result : Option (BootInfo × Bool)) : Type 0 where
  refused : result ≡ some (info, false) → Outcome info start len kind result
  grown :
      (out : List ReservedMemoryRange)
      → 0 < len
      → extend_first info.reserved_memory_count kind start len info.reserved_memory ≡ some out
      → result ≡ some (record info { reserved_memory = out }, true)
      → Outcome info start len kind result
  appended :
      0 < len
      → info.reserved_memory_count < max_reserved_memory_ranges
      → result
        ≡ some (
          record info {
            reserved_memory =
                set info.reserved_memory info.reserved_memory_count
                  (record { start = start; length = len; kind = kind });
            reserved_memory_count = info.reserved_memory_count + 1;
          },
          true,
        )
      → Outcome info start len kind result

reserve_memory-Outcome :
    (info : BootInfo) (start len : ℕ) (kind : ReservedMemoryKind)
    → info.reserved_memory_count ≤ max_reserved_memory_ranges
    → Outcome info start len kind (reserve_memory info start len kind)
unfolding reserve_memory
reserve_memory-Outcome info start len kind few = elim (Bool-cases (len == 0)) [
  | inl empty ↦ refused (rw empty)
  | inr nonempty ↦
      let pos : 0 < len = ground arith in
      let sliced : leb info.reserved_memory_count 16 ≡ true = ground arith in
      elim (Option-cases
        (extend_first info.reserved_memory_count kind start len info.reserved_memory)) [
          | inr (out, found) ↦ grown out pos found (rw (nonempty, sliced, found))
          | inl unmatched ↦ elim (Bool-cases (leb 16 info.reserved_memory_count)) [
            | inl full ↦ refused (rw (nonempty, sliced, unmatched, full))
            | inr room ↦ appended pos (ground arith) (rw (nonempty, sliced, unmatched, room))
          ]
        ]
]

-- `reserve_memory` on a table within its capacity never panics and keeps the table within it, and
-- an answer of `false` leaves the boot information as it was.
pub reserve_memory-IsWellFormed :
    (info : BootInfo) (start len : ℕ) (kind : ReservedMemoryKind)
    → IsWellFormed info
    → (after : BootInfo) × (done : Bool) × (reserve_memory info start len kind ≡ some (after, done))
      × IsWellFormed after
      × (done ≡ false → after ≡ info)
reserve_memory-IsWellFormed info start len kind (few, full) =
    elim (reserve_memory-Outcome info start len kind few) [
      | refused e ↦ (info, false, e, (few, full), λ _. refl)
      | grown out pos found e ↦ (
        record info { reserved_memory = out },
        true,
        e,
        (few, length-extend_first _ start len kind info.reserved_memory out found ∙ full),
        λ no_way. cc,
      )
      | appended pos room e ↦
          (_, true, e, (omega arith, length-set info.reserved_memory _ _ ∙ full), λ no_way. cc)
    ]

-- When `reserve_memory` answers `true` for bytes that do not reach past the last address, an
-- address counts as reserved for a kind afterwards exactly when it did before, or when the kind
-- is the one asked for and the address is one of the new bytes: nothing else is added or lost,
-- whether a range was made longer or a new one was put at the end.
pub reserve_memory_adds :
    (info after : BootInfo) (start len : ℕ) (kind k : ReservedMemoryKind) (a : ℕ)
    → IsWellFormed info
    → start + len ≤ u64_max
    → reserve_memory info start len kind ≡ some (after, true)
    → is_reserved after k a
      ≡ (is_reserved info k a || ((discriminant kind == discriminant k) && in_range start len a))
reserve_memory_adds info after start len kind k a (few, full) fits done =
    elim (reserve_memory-Outcome info start len kind few) [
      | refused e ↦ cc
      | grown out pos found e ↦
          rw (← result (record info { reserved_memory = out }) e)
            (covered-extend_first start len kind k a pos fits _ info.reserved_memory out found)
      | appended pos room e ↦
          let range : ReservedMemoryRange = record { start = start; length = len; kind = kind } in
          rw (← result _ e, add-one)
            (covered-set start len kind k a pos fits info.reserved_memory_count info.reserved_memory
              range (rw full room))
    ]
  where
    result :
        (next : BootInfo) → reserve_memory info start len kind ≡ some (next, true) → next ≡ after
    result next e =
        ap (λ (p : BootInfo × Bool). p.0) (some-injective (next, true) (after, true) (sym e ∙ done))
