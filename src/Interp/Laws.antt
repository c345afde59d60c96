-- ===== src/Interp/Laws.antt =====
-- Laws of the operators of print_expr (lpmud/interpret.c), between one another.
use lpmud_ng.Base.{◌≡◌, refl, sym, ap, ◌∙◌, Bool, true, false, ◌==◌, not, [], ◌∷◌, arith}
use lpmud_ng.Base.Int.{pos, ltb_ℤ, leb_ℤ}
use lpmud_ng.Base.Run.{ok}
use lpmud_ng.Base.Text.{Chars, str_eq}
use lpmud_ng.Value.{Value, number, string, pointer, object}
use lpmud_ng.Interp.Ops.{
  f_gt, f_ge, f_lt, f_le, f_eq, f_ne, const0, const1, of_bool, same_ℤ, strcmp, arithmetic,
  on_strings, binary,
}
use lpmud_ng.Interp.State.{is_zero}

strcmp-zero : (s t : Chars) → same_ℤ (strcmp s t) (pos 0) ≡ str_eq s t
unfolding strcmp str_eq
strcmp-zero [] [] = ground arith
strcmp-zero [] (d ∷ t) = ground arith
strcmp-zero (c ∷ s) [] = ground arith
strcmp-zero (c ∷ s) (d ∷ t) = ground (arith, strcmp-zero s t)

is_zero-of_bool : (b : Bool) → is_zero (of_bool b) ≡ not b
is_zero-of_bool true = ground arith
is_zero-of_bool false = ground arith

opposite : (b : Bool) → is_zero (of_bool (not b)) ≡ not (is_zero (of_bool b))
opposite true = ground arith
opposite false = ground arith

-- For any two values == and != both give a value, and the one is zero exactly if the other is not.
pub ne-eq :
    (v w : Value)
    → (a : Value) × (b : Value) × (binary f_eq v w ≡ ok a)
      × (binary f_ne v w ≡ ok b)
      × (is_zero b ≡ not (is_zero a))
unfolding binary arithmetic on_strings
ne-eq (number a) (number b) =
    (of_bool (same_ℤ a b), of_bool (not (same_ℤ a b)), refl, refl, opposite (same_ℤ a b))
ne-eq (string s) (string t) = (
  of_bool (str_eq s t),
  number (strcmp s t),
  refl,
  refl,
  strcmp-zero s t ∙ not_not (str_eq s t) ∙ ap not (sym (is_zero-of_bool (str_eq s t))),
)
  where
    not_not : (b : Bool) → b ≡ not (not b)
    not_not true = refl
    not_not false = refl
ne-eq (pointer v) (pointer w) =
    (of_bool (v == w), of_bool (not (v == w)), refl, refl, opposite (v == w))
ne-eq (object v) (object w) =
    (of_bool (v == w), of_bool (not (v == w)), refl, refl, opposite (v == w))
ne-eq v w = (const0, const1, refl, refl, ground arith)

-- The signs of the two comparisons of two strings
strcmp-swap :
    (s t : Chars)
    → (ltb_ℤ (strcmp s t) (pos 0) ≡ ltb_ℤ (pos 0) (strcmp t s))
      × (leb_ℤ (strcmp s t) (pos 0) ≡ leb_ℤ (pos 0) (strcmp t s))
unfolding strcmp
strcmp-swap [] [] = ground arith
strcmp-swap [] (d ∷ t) = ground arith
strcmp-swap (c ∷ s) [] = ground arith
strcmp-swap (c ∷ s) (d ∷ t) = ground (arith, strcmp-swap s t)

-- A comparison is the opposite one of the operands in the other order.
pub binary-swap :
    (v w : Value) → (binary f_lt v w ≡ binary f_gt w v) × (binary f_le v w ≡ binary f_ge w v)
unfolding binary arithmetic on_strings
binary-swap (number a) (number b) = (refl, refl)
binary-swap (string s) (string t) =
    let h = strcmp-swap s t in (ap (λ b. ok (of_bool b)) h.0, ap (λ b. ok (of_bool b)) h.1)
binary-swap (number a) (string b) = (refl, refl)
binary-swap (number a) (pointer b) = (refl, refl)
binary-swap (number a) (object b) = (refl, refl)
binary-swap (string a) (number b) = (refl, refl)
binary-swap (string a) (pointer b) = (refl, refl)
binary-swap (string a) (object b) = (refl, refl)
binary-swap (pointer a) (number b) = (refl, refl)
binary-swap (pointer a) (string b) = (refl, refl)
binary-swap (pointer a) (pointer b) = (refl, refl)
binary-swap (pointer a) (object b) = (refl, refl)
binary-swap (object a) (number b) = (refl, refl)
binary-swap (object a) (string b) = (refl, refl)
binary-swap (object a) (pointer b) = (refl, refl)
binary-swap (object a) (object b) = (refl, refl)
