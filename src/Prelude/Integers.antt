-- ===== src/Prelude/Integers.antt =====
-- Signed machine integers as integers over the native numbers.
use Prim.Native.Nat.{ℕ, zero, suc, ◌-◌}
use codex_os.Prelude.Tests.{ltb, if◌then◌else◌}

-- `negsuc n` is -(n + 1).
pub data ℤ : Type 0 where
  pos negsuc : ℕ → ℤ

-- `-x`.
abbrev pub neg : ℤ → ℤ
neg (pos zero) = pos zero
neg (pos (suc n)) = negsuc n
neg (negsuc n) = pos (suc n)

-- `byte as i8` for a byte.
abbrev pub as_i8 : ℕ → ℤ
as_i8 byte = if ltb byte 128 then pos byte else negsuc (255 - byte)
