-- ===== src/Base/Text.antt =====
-- Comparison of byte strings, `strcmp(a, b) == 0`, and prefixes of them.
use mathlib.Core.Path.{◌≡◌, refl}
use mathlib.Core.Bool.{Bool, true, false, ◌&&◌}
use mathlib.Core.List.{[], ◌∷◌}
use native.Mathlib.Omega.{arith}
use librtcdc.Base.Tests.{◌==◌}
use librtcdc.Base.Lists.{Bytes}

abbrev pub bytes_eq : Bytes → Bytes → Bool
bytes_eq [] [] = true
bytes_eq [] (d ∷ b) = false
bytes_eq (c ∷ a) [] = false
bytes_eq (c ∷ a) (d ∷ b) = c == d && bytes_eq a b

pub bytes_eq_sound : (a b : Bytes) → bytes_eq a b ≡ true → a ≡ b
bytes_eq_sound [] [] h = refl
bytes_eq_sound [] (d ∷ b) h = cc
bytes_eq_sound (c ∷ a) [] h = cc
bytes_eq_sound (c ∷ a) (d ∷ b) h = ground (arith, bytes_eq_sound a b)

pub bytes_eq_refl : (a : Bytes) → bytes_eq a a ≡ true
bytes_eq_refl [] = refl
bytes_eq_refl (c ∷ a) = ground (arith, bytes_eq_refl a)
