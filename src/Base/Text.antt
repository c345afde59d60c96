-- ===== src/Base/Text.antt =====
-- C strings as their bytes, without the null byte that ends them, and the tests of <string.h>
-- that the driver calls on them.
use Prim.Native.Char.{code}
use Prim.Native.String.{String}
use Prim.Native.Nat.{ℕ}
use mathlib.Core.Path.{◌≡◌, refl}
use mathlib.Core.Bool.{Bool, true, false, ◌&&◌}
use mathlib.Core.List.{List, [], ◌∷◌, ◌++◌}
use native.Mathlib.Omega.{arith}
use lpmud_ng.Base.Lists.{length, drop}
use lpmud_ng.Base.Tests.{◌==◌}

abbrev pub Chars : Type 0
Chars = List ℕ

abbrev pub codes : String → Chars
codes String.[] = []
codes (String.◌∷◌ c s) = code c ∷ codes s

-- `strcmp(s, t) == 0`
unfoldable pub str_eq : Chars → Chars → Bool
str_eq [] [] = true
str_eq [] (d ∷ t) = false
str_eq (c ∷ s) [] = false
str_eq (c ∷ s) (d ∷ t) = c == d && str_eq s t

-- `strncmp(s, p, strlen(p)) == 0`
unfoldable pub starts_with : Chars → Chars → Bool
starts_with s [] = true
starts_with [] (d ∷ p) = false
starts_with (c ∷ s) (d ∷ p) = c == d && starts_with s p

pub str_eq_refl : (s : Chars) → str_eq s s ≡ true
unfolding str_eq
str_eq_refl [] = refl
str_eq_refl (c ∷ s) = ground (arith, str_eq_refl s)

pub str_eq→eq : (s t : Chars) → str_eq s t ≡ true → s ≡ t
unfolding str_eq
str_eq→eq [] [] h = refl
str_eq→eq [] (d ∷ t) h = cc
str_eq→eq (c ∷ s) [] h = cc
str_eq→eq (c ∷ s) (d ∷ t) h = ground (arith, str_eq→eq s t)

pub str_eq_symm : (s t : Chars) → str_eq s t ≡ str_eq t s
unfolding str_eq
str_eq_symm [] [] = refl
str_eq_symm [] (d ∷ t) = refl
str_eq_symm (c ∷ s) [] = refl
str_eq_symm (c ∷ s) (d ∷ t) = ground (arith, str_eq_symm s t)

-- A string that begins with `p` is `p` and what `drop` leaves.
pub starts_with→append : (s p : Chars) → starts_with s p ≡ true → s ≡ p ++ drop (length p) s
unfolding starts_with
starts_with→append s [] h = refl
starts_with→append [] (d ∷ p) h = cc
starts_with→append (c ∷ s) (d ∷ p) h = ground (arith, starts_with→append s p)

pub starts_with-append : (p s : Chars) → starts_with (p ++ s) p ≡ true
unfolding starts_with
starts_with-append [] s = refl
starts_with-append (c ∷ p) s = ground (arith, starts_with-append p s)
