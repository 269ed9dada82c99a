-- ===== src/Base/Int.antt =====
-- The integers over the native numbers; `negsuc n` is -(n + 1).
use Prim.Native.Nat.{ℕ, zero, suc}
use mathlib.Core.Path.{◌≡◌, refl}
use mathlib.Core.Bool.{Bool, true, false}

pub data ℤ : Type 0 where
  pos : ℕ → ℤ
  negsuc : ℕ → ℤ

-- i++ and i--
abbrev pub inc : ℤ → ℤ
inc (pos n) = pos (suc n)
inc (negsuc zero) = pos 0
inc (negsuc (suc n)) = negsuc n

abbrev pub dec : ℤ → ℤ
dec (pos zero) = negsuc 0
dec (pos (suc n)) = pos n
dec (negsuc n) = negsuc (suc n)

-- i <= 0 and i == 0
abbrev pub le_zero : ℤ → Bool
le_zero (pos zero) = true
le_zero (pos (suc n)) = false
le_zero (negsuc n) = true

abbrev pub is_zero : ℤ → Bool
is_zero (pos zero) = true
is_zero (pos (suc n)) = false
is_zero (negsuc n) = false

pub dec-inc : (i : ℤ) → dec (inc i) ≡ i
dec-inc (pos n) = refl
dec-inc (negsuc zero) = refl
dec-inc (negsuc (suc n)) = refl
