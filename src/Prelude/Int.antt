-- ===== src/Prelude/Int.antt =====
-- The values of an `i32`, as integers over the native numbers; its addition wraps.
use Prim.Native.Nat.{ℕ, zero, suc, ◌+◌}
use mathlib.Core.Bool.{Bool}
use arrow_kanban.Prelude.Tests.{leb, eqb, if◌then◌else◌}

-- `negsuc n` is -(n + 1).
pub data ℤ : Type 0 where
  pos : ℕ → ℤ
  negsuc : ℕ → ℤ

abbrev pub pos_part : ℤ → ℕ
pos_part (pos n) = n
pos_part (negsuc n) = 0

abbrev pub neg_part : ℤ → ℕ
neg_part (pos n) = 0
neg_part (negsuc n) = suc n

-- a ≤ b
abbrev pub leb_ℤ : ℤ → ℤ → Bool
leb_ℤ a b = leb (pos_part a + neg_part b) (pos_part b + neg_part a)

-- `x + 1` on an `i32`
abbrev pub add_one_i32 : ℤ → ℤ
add_one_i32 (pos n) = if eqb n 2147483647 then negsuc 2147483647 else pos (suc n)
add_one_i32 (negsuc zero) = pos 0
add_one_i32 (negsuc (suc n)) = negsuc n
