-- ===== src/Prelude/Ranges.antt =====
-- Half-open ranges of addresses, as Boolean membership.
use Prim.Native.Nat.{ℕ, ◌+◌, ◌≤◌, ◌<◌}
use mathlib.Core.Path.{◌≡◌}
use mathlib.Core.Bool.{Bool, true, false, ◌&&◌, ◌||◌}
use native.Mathlib.Omega.{arith}
use codex_os.Prelude.Tests.{ltb, leb}

-- `start ≤ a < start + size`.
unfoldable pub in_range : ℕ → ℕ → ℕ → Bool
in_range start size a = leb start a && ltb a (start + size)

pub in_range→bounds :
    (start size a : ℕ) → in_range start size a ≡ true → (start ≤ a) × (a < start + size)
unfolding in_range
in_range→bounds start size a h = ground arith

pub in_range_intro :
    (start size a : ℕ) → start ≤ a → a < start + size → in_range start size a ≡ true
unfolding in_range
in_range_intro start size a h k = ground arith

pub in_range_below : (start size a : ℕ) → a < start → in_range start size a ≡ false
unfolding in_range
in_range_below start size a h = ground arith

pub in_range_above : (start size a : ℕ) → start + size ≤ a → in_range start size a ≡ false
unfolding in_range
in_range_above start size a h = ground arith

pub in_range-add :
    (start m n a : ℕ) → in_range start (m + n) a ≡ (in_range start m a || in_range (start + m) n a)
unfolding in_range
in_range-add start m n a = ground arith

-- Regrouping of the two operations on Booleans.
pub or_comm : (x y : Bool) → (x || y) ≡ (y || x)
or_comm x y = ground arith

pub or_assoc : (x y z : Bool) → ((x || y) || z) ≡ (x || (y || z))
or_assoc x y z = ground arith

pub and_or_distrib : (x y z : Bool) → (x && (y || z)) ≡ ((x && y) || (x && z))
and_or_distrib x y z = ground arith

pub or_swap : (x y z : Bool) → ((x || y) || z) ≡ ((x || z) || y)
or_swap x y z = ground arith

pub or_rotate : (x y z : Bool) → ((x || y) || z) ≡ ((y || z) || x)
or_rotate x y z = ground arith

pub or_insert : (x y z : Bool) → (x || (y || z)) ≡ ((y || x) || z)
or_insert x y z = ground arith
