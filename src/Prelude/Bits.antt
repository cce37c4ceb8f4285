-- ===== src/Prelude/Bits.antt =====
-- The mask of whole pages as arithmetic: `x & !(2^12 - 1)` clears the low twelve bits.
use Prim.Native.Nat.{
  ℕ, zero, suc, ◌+◌, ◌-◌, ◌*◌, ◌/◌, ◌%◌, ◌^◌, ◌≤◌, ◌<◌, min, bit_and, digits, bit_and-bitwise,
}
use mathlib.Core.Path.{◌≡◌, refl, ap, sym, ◌∙◌}
use native.Mathlib.Nat.{
  pow-suc, one-le-pow, le_refl, mod-lt, mod-add-div', div-lt_iff_lt-mul, mul-sub, mul_comm,
  mul_assoc,
}
use native.Mathlib.Omega.{arith}
use mathlib.Core.Bool.{false, not, ◌&&◌}
use codex_os.Prelude.Tests.{◌==◌}

-- The digits that `bit_and` computes with some fuel.
abbrev common : ℕ → ℕ → ℕ → ℕ
common fuel x y = digits (λ y. 0) min fuel x y

nothing_common : (fuel y : ℕ) → common fuel 0 y ≡ 0
nothing_common zero y = refl
nothing_common (suc fuel) y = refl

-- Fuel beyond the number itself changes nothing.
spare_fuel : (extra x y : ℕ) → x ≤ extra → common extra x y ≡ common x x y
spare_fuel extra x y h = level extra x x y h (le_refl x)
  where
    level : (more fewer w v : ℕ) → w ≤ more → w ≤ fewer → common more w v ≡ common fewer w v
    level more fewer zero v h k = nothing_common more v ∙ sym (nothing_common fewer v)
    level zero fewer (suc w) v h k = absurd (omega arith)
    level (suc more) zero (suc w) v h k = absurd (omega arith)
    level (suc more) (suc fewer) (suc w) v h k =
        let halves = level more fewer (suc w / 2) (v / 2) (omega arith) (omega arith) in
        ap (λ (t : ℕ). t * 2 + min (suc w % 2) (v % 2)) halves

-- The lowest digit and the rest.
pub halving : (x y : ℕ) → bit_and x y ≡ min (x % 2) (y % 2) + 2 * bit_and (x / 2) (y / 2)
halving zero y =
    let none = bit_and-bitwise 0 y in let rest = bit_and-bitwise 0 (y / 2) in omega arith
halving (suc x) y =
    let whole = bit_and-bitwise (suc x) y in
    let half = bit_and-bitwise (suc x / 2) (y / 2) in
    let same = spare_fuel x (suc x / 2) (y / 2) (omega arith) in omega arith

double_power : (c k : ℕ) → c * 2 ^ suc k ≡ c * 2 ^ k + c * 2 ^ k
double_power c k =
    let twice =
      ap (λ (t : ℕ). c * t) {x = 2 ^ suc k} {y = 2 ^ k * 2} (omega (arith, pow-suc 2 k)) in
    omega arith

-- A number below a power of two keeps all its bits under the mask of that many ones.
within_ones : (k x : ℕ) → x < 2 ^ k → bit_and x (2 ^ k - 1) ≡ x
within_ones zero zero h = refl
within_ones zero (suc x) h = absurd (omega arith)
within_ones (suc k) x h =
    let power = pow-suc 2 k in
    let some_power = one-le-pow k 2 in
    let half : (2 ^ suc k - 1) / 2 ≡ 2 ^ k - 1 = omega arith in
    let rest = within_ones k (x / 2) (omega arith) in
    let split = halving x (2 ^ suc k - 1) in
    let under = ap (λ (t : ℕ). bit_and (x / 2) t) half in omega arith

-- A mask that ends in `k` zeros drops the low `k` bits.
above_zeros :
    (k low high mask : ℕ)
    → low < 2 ^ k
    → bit_and (low + high * 2 ^ k) (mask * 2 ^ k) ≡ bit_and high mask * 2 ^ k
above_zeros zero low high mask h =
    let left = ap (λ (t : ℕ). bit_and t (mask * 1)) {x = low + high * 1} {y = high} (omega arith) in
    let right = ap (λ (t : ℕ). bit_and high t) {x = mask * 1} {y = mask} (omega arith) in
    omega arith
above_zeros (suc k) low high mask h =
    let power = pow-suc 2 k in
    let d1 = double_power high k in
    let d2 = double_power mask k in
    let d3 = double_power (bit_and high mask) k in
    let rest = above_zeros k (low / 2) high mask (omega arith) in
    let split = halving (low + high * 2 ^ suc k) (mask * 2 ^ suc k) in
    let x : (low + high * 2 ^ suc k) / 2 ≡ low / 2 + high * 2 ^ k = omega arith in
    let y : (mask * 2 ^ suc k) / 2 ≡ mask * 2 ^ k = omega arith in
    let both : bit_and ((low + high * 2 ^ suc k) / 2) ((mask * 2 ^ suc k) / 2)
        ≡ bit_and (low / 2 + high * 2 ^ k) (mask * 2 ^ k) =
      rw (x, y) refl in
    omega arith

-- `x & !(2^12 - 1)` on 64 bits.
pub bit_and_page_mask : (a : ℕ) → a < 2 ^ 64 → bit_and a 0xffff_ffff_ffff_f000 ≡ a / 4096 * 4096
bit_and_page_mask a h =
    let cleared = above_zeros 12 (a % 4096) (a / 4096) (2 ^ 52 - 1) (omega arith) in
    let kept = within_ones 52 (a / 4096) (omega arith) in
    let parts =
      ap (λ (t : ℕ). bit_and t 0xffff_ffff_ffff_f000) {x = a % 4096 + a / 4096 * 4096} {y = a}
        (omega arith) in
    omega arith

none_below : (fuel x : ℕ) → x ≤ fuel → bit_and x 0 ≡ 0
none_below fuel zero h = bit_and-bitwise 0 0
none_below zero (suc x) h = absurd (omega arith)
none_below (suc fuel) (suc x) h =
    let split = halving (suc x) 0 in
    let rest = none_below fuel (suc x / 2) (omega arith) in omega arith

-- Without both of the two lowest bits, one of them is missing.
pub two_low_bits :
    (x : ℕ)
    → (bit_and x 3 == 3) ≡ false
    → (not (bit_and x 2 == 0) && not (bit_and x 1 == 0)) ≡ false
two_low_bits x h =
    let three = halving x 3 in
    let two = halving x 2 in
    let one = halving x 1 in
    let upper = halving (x / 2) 1 in
    let z1 = none_below (x / 2) (x / 2) (le_refl (x / 2)) in
    let z2 = none_below (x / 2 / 2) (x / 2 / 2) (le_refl (x / 2 / 2)) in ground arith

pub three_low_bits : (x : ℕ) → bit_and x 7 ≡ x % 8
three_low_bits x =
    let a = halving x 7 in
    let b = halving (x / 2) 3 in
    let c = halving (x / 2 / 2) 1 in
    let d = none_below (x / 2 / 2 / 2) (x / 2 / 2 / 2) (le_refl (x / 2 / 2 / 2)) in omega arith

power_sum : (j k : ℕ) → 2 ^ (j + k) ≡ 2 ^ j * 2 ^ k
power_sum j zero = ap (λ (t : ℕ). 2 ^ t) {x = j + 0} {y = j} (omega arith) ∙ omega arith
power_sum j (suc k) =
    ap (λ (t : ℕ). 2 ^ t) {x = j + suc k} {y = suc (j + k)} (omega arith)
    ∙ omega (arith, pow-suc 2 (j + k), double_power (2 ^ j) k, power_sum j k)

-- `x & !(a - 1)` on 64 bits, for a power of two `a`.
pub bit_and_power_mask :
    (j k x : ℕ)
    → j + k ≡ 64
    → x < 2 ^ 64
    → bit_and x (0xffff_ffff_ffff_ffff - (2 ^ k - 1)) ≡ x / 2 ^ k * 2 ^ k
bit_and_power_mask j k x e h =
    let some_power = one-le-pow k 2 in
    let high_power = one-le-pow j 2 in
    let whole : 2 ^ j * 2 ^ k ≡ 2 ^ 64 = sym (power_sum j k) ∙ ap (λ (t : ℕ). 2 ^ t) e in
    let low_part : x % 2 ^ k < 2 ^ k = mod-lt x (omega arith) in
    let split : x % 2 ^ k + x / 2 ^ k * 2 ^ k ≡ x = omega (arith, mod-add-div' x (2 ^ k)) in
    let mask : 0xffff_ffff_ffff_ffff - (2 ^ k - 1) ≡ (2 ^ j - 1) * 2 ^ k =
      omega (
        arith,
        mul-sub (2 ^ k) (2 ^ j) 1,
        mul_comm (2 ^ k) (2 ^ j - 1),
        mul_comm (2 ^ k) (2 ^ j),
      ) in
    let high_part : x / 2 ^ k < 2 ^ j = (div-lt_iff_lt-mul (omega arith)).1 (omega arith) in
    ap (λ (t : ℕ). bit_and t (0xffff_ffff_ffff_ffff - (2 ^ k - 1))) (sym split)
    ∙ ap (λ (t : ℕ). bit_and (x % 2 ^ k + x / 2 ^ k * 2 ^ k) t) mask
    ∙ above_zeros k (x % 2 ^ k) (x / 2 ^ k) (2 ^ j - 1) low_part
    ∙ ap (λ (t : ℕ). t * 2 ^ k) (within_ones j (x / 2 ^ k) high_part)

-- `x` rounded up to a multiple of a power of two.
pub round_up_bounds :
    (k x : ℕ)
    → (x ≤ (x + (2 ^ k - 1)) / 2 ^ k * 2 ^ k) × ((x + (2 ^ k - 1)) / 2 ^ k * 2 ^ k < x + 2 ^ k)
round_up_bounds k x =
    let some_power = one-le-pow k 2 in
    let n = x + (2 ^ k - 1) in
    let below = mod-lt n {m = 2 ^ k} (omega arith) in
    let split = mod-add-div' n (2 ^ k) in (omega arith, omega arith)

-- A multiple of a power of two from 8 on is one of 8.
pub power-multiple_of_8 : (k q : ℕ) → 3 ≤ k → (q * 2 ^ k) % 8 ≡ 0
power-multiple_of_8 k q h =
    let split : 2 ^ k ≡ 2 ^ (k - 3) * 8 =
      ap (λ (t : ℕ). 2 ^ t) {x = k} {y = k - 3 + 3} (omega arith) ∙ power_sum (k - 3) 3 in
    let grouped : q * 2 ^ k ≡ q * 2 ^ (k - 3) * 8 =
      ap (λ (t : ℕ). q * t) split ∙ sym (mul_assoc q (2 ^ (k - 3)) 8) in
    omega arith
