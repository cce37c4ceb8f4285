-- ===== src/Heap/Expandable/External.antt =====
-- The region that is handed over to an ExpandableHeap of libs/heap-allocator/src/lib.rs.
use codex_os.Prelude.{
  ℕ, ◌+◌, ◌%◌, ◌≤◌, ◌≡◌, ◌≢◌, ◌⊎◌, inl, inr, refl, ap, [], ◌∷◌, arith, ◌==◌, ltb, not, ◌&&◌, ◌||◌,
  saturating_add, u64_max, false, Bool-cases,
}
use codex_os.Prelude.Results.{ok, if_err-passed, value_or}
use codex_os.Heap.{Words, new, initialize}
use codex_os.Heap.Cells.{free, IsHeap}
use codex_os.Heap.Stats.{initialize-IsHeap}
use codex_os.Heap.Expandable.{ExpandableHeap, HeapInitError, initialize_external}

-- A region in use: it is one free block, apart from the bootstrap heap, and no other is accepted.
pub record IsReady (bootstrap_base n address capacity : ℕ) (heap heap' : ExpandableHeap)
    : Type 0 where
  pub fresh : IsHeap capacity heap'.external (free capacity ∷ [])
  pub base : heap'.external_base ≡ address
  pub capacity_kept : heap'.external_capacity ≡ capacity
  pub aligned : address % 8 ≡ 0
  pub within : address + capacity ≤ u64_max
  pub apart : (bootstrap_base + n ≤ address) ⊎ (address + capacity ≤ bootstrap_base)
  pub bootstrap_kept : heap'.bootstrap ≡ heap.bootstrap
  pub once :
      (address' capacity' : ℕ) (heap'' : ExpandableHeap)
      → initialize_external bootstrap_base n heap' address' capacity' ≢ ok heap''

-- What the tests leave.
address_facts :
    (a remainder : ℕ) → (a == 0 || not (remainder == 0)) ≡ false → (a ≢ 0) × (remainder ≡ 0)
address_facts a remainder h = ((λ e. absurd (ground arith)), ground arith)

capacity_facts :
    (a c remainder : ℕ)
    → (ltb c 16 || (not (remainder == 0) || ltb u64_max (a + c))) ≡ false
    → (16 ≤ c) × (remainder ≡ 0) × (a + c ≤ u64_max)
capacity_facts a c remainder h = (ground arith, ground arith, ground arith)

apart_facts :
    (a c b n : ℕ)
    → (ltb a (saturating_add b n) && ltb b (saturating_add a c)) ≡ false
    → b + n ≤ u64_max
    → a + c ≤ u64_max
    → (b + n ≤ a) ⊎ (a + c ≤ b)
apart_facts a c b n h low high = elim (Bool-cases (ltb a (saturating_add b n))) [
  | inl below ↦ inr (ground arith)
  | inr above ↦ inl (ground arith)
]

base_fact : (x : ℕ) → not (x == 0) ≡ false → x ≡ 0
base_fact x h = ground arith

not_twice :
    (bootstrap_base n : ℕ) (heap : ExpandableHeap) (address capacity : ℕ) (heap' : ExpandableHeap)
    → heap.external_base ≢ 0
    → initialize_external bootstrap_base n heap address capacity ≢ ok heap'
unfolding initialize_external
not_twice bootstrap_base n heap address capacity heap' set h =
    let (valid, h1) = if_err-passed _ HeapInitError.invalid_address _ heap' h in
    let (large, h2) = if_err-passed _ HeapInitError.invalid_capacity _ heap' h1 in
    let (apart, h3) = if_err-passed _ HeapInitError.overlaps_bootstrap _ heap' h2 in
    let (first, h4) = if_err-passed _ HeapInitError.already_initialized _ heap' h3 in
    set (base_fact heap.external_base first)

-- When a region is accepted by a heap that has none, it is one free block of all its bytes, aligned,
-- within the address space and apart from the bootstrap heap, which is unchanged; and from then on
-- every other region is refused.
pub initialize_external-IsReady :
    (bootstrap_base n address capacity : ℕ) (words : Words) (heap heap' : ExpandableHeap)
    → bootstrap_base + n ≤ u64_max
    → heap.external ≡ record { state = new; words = words }
    → initialize_external bootstrap_base n heap address capacity ≡ ok heap'
    → IsReady bootstrap_base n address capacity heap heap'
unfolding initialize_external
initialize_external-IsReady bootstrap_base n address capacity words heap heap' room unused h =
    let (valid, h1) = if_err-passed _ HeapInitError.invalid_address _ heap' h in
    let (large, h2) = if_err-passed _ HeapInitError.invalid_capacity _ heap' h1 in
    let (apart, h3) = if_err-passed _ HeapInitError.overlaps_bootstrap _ heap' h2 in
    let accepted : ExpandableHeap = record heap {
      external = initialize capacity heap.external;
      external_capacity = capacity;
      external_base = address;
    } in
    let (first, h4) =
      if_err-passed (not (heap.external_base == 0)) HeapInitError.already_initialized (ok accepted)
        heap' h3 in
    let same : accepted ≡ heap' = ap (value_or heap) h4 in
    let (set, even) = address_facts address (address % 8) valid in
    let (some_bytes, whole, within) = capacity_facts address capacity (capacity % 8) large in
    let fresh : IsHeap capacity accepted.external (free capacity ∷ []) =
      rw unused (initialize-IsHeap capacity words some_bytes whole) in
    coe 0 1 (i. IsReady bootstrap_base n address capacity heap (same i)) (record {
      fresh = fresh;
      base = refl;
      capacity_kept = refl;
      aligned = even;
      within = within;
      apart = apart_facts address capacity bootstrap_base n apart room within;
      bootstrap_kept = refl;
      once = λ a c heap''. not_twice bootstrap_base n accepted a c heap'' set;
    })
