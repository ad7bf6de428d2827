-- ===== src/Base/Int.antt =====
-- Signed integers over the native numbers. `negsuc n` is -(n + 1).
use demolition_app.Base.Tests.{leb, ◌==◌, if◌then◌else◌}
use Prim.Native.Nat.{ℕ, zero, suc, ◌+◌, ◌-◌}
use mathlib.Core.Bool.{Bool, true, false}

pub data ℤ : Type 0 where
  pos : ℕ → ℤ
  negsuc : ℕ → ℤ

abbrev pub int_leb : ℤ → ℤ → Bool
int_leb (pos a) (pos b) = leb a b
int_leb (pos a) (negsuc b) = false
int_leb (negsuc a) (pos b) = true
int_leb (negsuc a) (negsuc b) = leb b a

abbrev pub int_eqb : ℤ → ℤ → Bool
int_eqb (pos a) (pos b) = a == b
int_eqb (pos a) (negsuc b) = false
int_eqb (negsuc a) (pos b) = false
int_eqb (negsuc a) (negsuc b) = a == b

abbrev pub int_max : ℤ → ℤ → ℤ
int_max a b = if int_leb a b then b else a

abbrev pub int_min : ℤ → ℤ → ℤ
int_min a b = if int_leb a b then a else b

-- One more.
abbrev pub int_suc : ℤ → ℤ
int_suc (pos n) = pos (suc n)
int_suc (negsuc zero) = pos 0
int_suc (negsuc (suc n)) = negsuc n

-- One less.
abbrev pub int_pred : ℤ → ℤ
int_pred (pos zero) = negsuc 0
int_pred (pos (suc n)) = pos n
int_pred (negsuc n) = negsuc (suc n)

abbrev pub int_sub : ℤ → ℤ → ℤ
int_sub (pos a) (pos b) = if leb b a then pos (a - b) else negsuc (b - a - 1)
int_sub (pos a) (negsuc b) = pos (a + b + 1)
int_sub (negsuc a) (pos b) = negsuc (a + b)
int_sub (negsuc a) (negsuc b) = if leb a b then pos (b - a) else negsuc (a - b - 1)
