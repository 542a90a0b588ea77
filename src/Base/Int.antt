-- ===== src/Base/Int.antt =====
-- Signed integers over the native numbers, as far as the package compares them.
use Prim.Native.Nat.{ℕ, compare, Ordering}
use mathlib.Core.Bool.{Bool, true, false}

-- `negsuc n` is -(n + 1).
pub data ℤ : Type 0 where
  pos : ℕ → ℤ
  negsuc : ℕ → ℤ

unfoldable pub int_eq : ℤ → ℤ → Bool
int_eq (pos a) (pos b) = elim (compare a b) [ Ordering.eq ↦ true | _ ↦ false ]
int_eq (negsuc a) (negsuc b) = elim (compare a b) [ Ordering.eq ↦ true | _ ↦ false ]
int_eq _ _ = false
