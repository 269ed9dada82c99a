-- ===== src/Base/Decimal.antt =====
-- "%d" of sprintf for a number that is not negative, and atoi.
use Prim.Native.Nat.{ℕ, zero, suc, ◌+◌, ◌-◌, ◌*◌, ◌/◌, ◌%◌, ◌≤◌, ◌<◌}
use mathlib.Core.Path.{◌≡◌, refl}
use mathlib.Core.Bool.{Bool, ◌&&◌, ◌||◌}
use mathlib.Core.List.{[], ◌∷◌, ◌++◌}
use native.Mathlib.Omega.{arith}
use librtcdc.Base.Tests.{ltb, leb, ◌==◌, if◌then◌else◌, Bool-cases}
use librtcdc.Base.Lists.{Bytes, All}
use librtcdc.Base.Int.{ℤ, pos, negsuc}
use mathlib.Core.Logic.{inl, inr}

-- The digits, on fuel: each round divides by ten.
abbrev pub digits : ℕ → ℕ → Bytes
digits zero n = []
digits (suc fuel) n =
    let before = digits fuel (n / 10) in
    if ltb n 10 then (48 + n) ∷ [] else before ++ (48 + n % 10) ∷ []

unfoldable pub decimal : ℕ → Bytes
decimal n = digits (suc n) n

abbrev pub is_digit : ℕ → Bool
is_digit c = leb 48 c && leb c 57

-- Up to the first byte that is no digit.
abbrev pub scan : ℕ → Bytes → ℕ
scan n [] = n
scan n (c ∷ s) = let rest = scan (n * 10 + (c - 48)) s in if is_digit c then rest else n

-- -n
abbrev pub negate : ℕ → ℤ
negate zero = pos 0
negate (suc n) = negsuc n

-- With white space skipped.
abbrev pub signed : Bytes → ℤ
signed [] = pos 0
signed (c ∷ s) =
    if c == 45 then negate (scan 0 s) else if c == 43 then pos (scan 0 s) else pos (scan 0 (c ∷ s))

-- atoi; a number that int cannot hold is undefined in C, and unbounded here.
unfoldable pub atoi : Bytes → ℤ
atoi [] = pos 0
atoi (c ∷ s) =
    let rest = atoi s in if c == 32 || (leb 9 c && leb c 13) then rest else signed (c ∷ s)

abbrev pub IsDigits : Bytes → Type 0
IsDigits = All (λ c. (48 ≤ c) × (c ≤ 57))

append-IsDigits : (a : Bytes) (d : ℕ) → IsDigits a → d < 10 → IsDigits (a ++ (48 + d) ∷ [])
append-IsDigits [] d h l = (omega arith, tt)
append-IsDigits (c ∷ a) d h l = (h.0, append-IsDigits a d h.1 l)

digits-IsDigits : (fuel n : ℕ) → IsDigits (digits fuel n)
digits-IsDigits zero n = tt
digits-IsDigits (suc fuel) n = elim (Bool-cases (ltb n 10)) [
  | inl small ↦ rw small (ground (arith, small), tt)
  | inr large ↦ rw large (
      append-IsDigits (digits fuel (n / 10)) (n % 10) (digits-IsDigits fuel (n / 10)) (omega arith))
]

pub decimal-IsDigits : (n : ℕ) → IsDigits (decimal n)
unfolding decimal
decimal-IsDigits n = digits-IsDigits (suc n) n

scan-append :
    (n : ℕ) (a : Bytes) (d : ℕ)
    → IsDigits a
    → d < 10
    → scan n (a ++ (48 + d) ∷ []) ≡ scan n a * 10 + d
scan-append n [] d h l = ground arith
scan-append n (c ∷ a) d h l = ground (arith, scan-append (n * 10 + (c - 48)) a d h.1 l, h.0)

scan-digits : (fuel n : ℕ) → n < fuel → scan 0 (digits fuel n) ≡ n
scan-digits zero n h = absurd (omega arith)
scan-digits (suc fuel) n h = elim (Bool-cases (ltb n 10)) [
  | inl small ↦ rw small (ground (arith, small))
  | inr large ↦
      let before = scan-digits fuel (n / 10) (ground (arith, large)) in
      let last =
        scan-append 0 (digits fuel (n / 10)) (n % 10) (digits-IsDigits fuel (n / 10))
          (omega arith) in
      rw (large, last, before) (omega arith)
]

signed-IsDigits : (s : Bytes) → IsDigits s → atoi s ≡ pos (scan 0 s)
unfolding atoi
signed-IsDigits [] h = refl
signed-IsDigits (c ∷ s) h = ground (arith, h.0)

-- A number is read back from its decimal print.
pub atoi-decimal : (n : ℕ) → atoi (decimal n) ≡ pos n
atoi-decimal n =
    let printed = decimal-IsDigits n in
    let back = signed-IsDigits (decimal n) printed in
    unfold decimal in rw back (rw (scan-digits (suc n) n (omega arith)) refl)
