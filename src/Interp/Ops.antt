-- ===== src/Interp/Ops.antt =====
-- The binary operators of print_expr (lpmud/interpret.c) on values. A number is an int of 32 bits;
-- where C leaves the result undefined, so does the model.
use lpmud_ng.Base.{
  ℕ, zero, suc, ◌+◌, ◌-◌, ◌*◌, ◌/◌, ◌%◌, ◌^◌, Bool, true, false, ◌==◌, ltb, if◌then◌else◌, not,
  ◌&&◌, [], ◌∷◌, ◌++◌,
}
use lpmud_ng.Base.Int.{ℤ, pos, negsuc, ◌+ℤ◌, ◌-ℤ◌, ◌*ℤ◌, ◌/ℤ◌, ◌%ℤ◌, ltb_ℤ, leb_ℤ}
use lpmud_ng.Base.Run.{Run, ok, error, undefined, ◌>>=◌}
use lpmud_ng.Base.Text.{Chars, str_eq}
use lpmud_ng.Save.{print_number}
use lpmud_ng.Value.{Value, number, string, pointer, object}

pub data Operator : Type 0 where
  f_add f_subtract f_and f_or f_xor f_lsh f_rsh f_multiply f_divide f_mod f_gt f_ge f_lt f_le f_eq
        f_ne :
      Operator

abbrev pub const0 : Value
const0 = number (pos 0)

abbrev pub const1 : Value
const1 = number (pos 1)

abbrev pub of_bool : Bool → Value
of_bool true = const1
of_bool false = const0

abbrev pub is_int : ℤ → Bool
is_int n = leb_ℤ (negsuc 2147483647) n && ltb_ℤ n (pos 2147483648)

-- `make_number` of a result that has to be an int
unfoldable pub make_number : ℤ → Run Value
make_number n = if is_int n then ok (number n) else undefined

-- The bits of an int as a natural number, and back
abbrev pub to_bits : ℤ → ℕ
to_bits (pos n) = n
to_bits (negsuc n) = 4294967295 - n

abbrev pub of_bits : ℕ → ℤ
of_bits n = if ltb n 2147483648 then pos n else negsuc (4294967295 - n)

unfoldable pub bitwise : (ℕ → ℕ → ℕ) → ℕ → ℕ → ℕ → ℕ
bitwise f zero a b = 0
bitwise f (suc n) a b = f (a % 2) (b % 2) + 2 * bitwise f n (a / 2) (b / 2)

abbrev pub bits : (ℕ → ℕ → ℕ) → ℤ → ℤ → ℤ
bits f a b = of_bits (bitwise f 32 (to_bits a) (to_bits b))

-- Division towards zero, and its remainder, by a number other than 0
unfoldable pub divide_by : ℤ → ℤ → ℤ
divide_by a (pos n) = a /ℤ n
divide_by a (negsuc n) = pos 0 -ℤ (a /ℤ suc n)

unfoldable pub remainder_by : ℤ → ℤ → ℤ
remainder_by a (pos n) = a %ℤ n
remainder_by a (negsuc n) = a %ℤ suc n

-- A shift by less than the width of an int
abbrev pub shift_left : ℤ → ℤ → Run Value
shift_left (pos a) (pos b) = if ltb b 32 then make_number (pos (a * 2 ^ b)) else undefined
shift_left a b = undefined

-- The sign is kept on the platforms of the driver.
abbrev pub shift_right : ℤ → ℤ → Run Value
shift_right (pos a) (pos b) = if ltb b 32 then ok (number (pos (a / 2 ^ b))) else undefined
shift_right (negsuc a) (pos b) = if ltb b 32 then ok (number (negsuc (a / 2 ^ b))) else undefined
shift_right a (negsuc b) = undefined

-- `strcmp`, of whose result only the sign is documented, on bytes
unfoldable pub strcmp : Chars → Chars → ℤ
strcmp [] [] = pos 0
strcmp [] (d ∷ t) = negsuc 0
strcmp (c ∷ s) [] = pos 1
strcmp (c ∷ s) (d ∷ t) =
    let rest = strcmp s t in if ltb c d then negsuc 0 else if ltb d c then pos 1 else rest

abbrev pub same_ℤ : ℤ → ℤ → Bool
same_ℤ a b = leb_ℤ a b && leb_ℤ b a

-- The numbers of the operators that take only numbers
unfoldable pub arithmetic : Operator → ℤ → ℤ → Run Value
arithmetic f_add a b = make_number (a +ℤ b)
arithmetic f_subtract a b = make_number (a -ℤ b)
arithmetic f_and a b = ok (number (bits (λ x y. x * y) a b))
arithmetic f_or a b = ok (number (bits (λ x y. x + y - x * y) a b))
arithmetic f_xor a b = ok (number (bits (λ x y. (x + y) % 2) a b))
arithmetic f_lsh a b = shift_left a b
arithmetic f_rsh a b = shift_right a b
arithmetic f_multiply a b = make_number (a *ℤ b)
arithmetic f_divide a b = if same_ℤ b (pos 0) then error else make_number (divide_by a b)
arithmetic f_mod a b =
    if same_ℤ b (pos 0)
    then error
    else make_number (divide_by a b) >>= λ q. ok (number (remainder_by a b))
arithmetic f_gt a b = ok (of_bool (ltb_ℤ b a))
arithmetic f_ge a b = ok (of_bool (leb_ℤ b a))
arithmetic f_lt a b = ok (of_bool (ltb_ℤ a b))
arithmetic f_le a b = ok (of_bool (leb_ℤ a b))
arithmetic f_eq a b = ok (of_bool (same_ℤ a b))
arithmetic f_ne a b = ok (of_bool (not (same_ℤ a b)))

unfoldable pub on_strings : Operator → Chars → Chars → Run Value
on_strings f_add s t = ok (string (s ++ t))
on_strings f_gt s t = ok (of_bool (ltb_ℤ (pos 0) (strcmp s t)))
on_strings f_ge s t = ok (of_bool (leb_ℤ (pos 0) (strcmp s t)))
on_strings f_lt s t = ok (of_bool (ltb_ℤ (strcmp s t) (pos 0)))
on_strings f_le s t = ok (of_bool (leb_ℤ (strcmp s t) (pos 0)))
on_strings f_eq s t = ok (of_bool (str_eq s t))
on_strings f_ne s t = ok (number (strcmp s t))
on_strings _ s t = error

-- Two addresses
abbrev pub on_addresses : Operator → ℕ → ℕ → Run Value
on_addresses f_eq a b = ok (of_bool (a == b))
on_addresses f_ne a b = ok (of_bool (not (a == b)))
on_addresses _ a b = error

-- Values of two types
abbrev pub on_others : Operator → Run Value
on_others f_eq = ok const0
on_others f_ne = ok const1
on_others _ = error

-- A number and a string are added as strings.
abbrev pub on_mixed : Operator → Chars → Run Value
on_mixed f_add s = ok (string s)
on_mixed o s = on_others o

unfoldable pub binary : Operator → Value → Value → Run Value
binary o (number a) (number b) = arithmetic o a b
binary o (string s) (string t) = on_strings o s t
binary o (pointer v) (pointer w) = on_addresses o v w
binary o (object a) (object b) = on_addresses o a b
binary o (number a) (string t) = on_mixed o (print_number a ++ t)
binary o (string s) (number b) = on_mixed o (s ++ print_number b)
binary o (number a) (pointer w) = on_others o
binary o (number a) (object b) = on_others o
binary o (string s) (pointer w) = on_others o
binary o (string s) (object b) = on_others o
binary o (pointer v) (number b) = on_others o
binary o (pointer v) (string t) = on_others o
binary o (pointer v) (object b) = on_others o
binary o (object a) (number b) = on_others o
binary o (object a) (string t) = on_others o
binary o (object a) (pointer w) = on_others o

-- The operators that an assignment has
pub data Assigner : Type 0 where
  f_add_eq f_sub_eq f_mult_eq f_and_eq f_or_eq f_xor_eq : Assigner
  f_lsh_eq f_rsh_eq f_div_eq f_mod_eq : Assigner

abbrev pub operation : Assigner → Operator
operation f_add_eq = f_add
operation f_sub_eq = f_subtract
operation f_mult_eq = f_multiply
operation f_and_eq = f_and
operation f_or_eq = f_or
operation f_xor_eq = f_xor
operation f_lsh_eq = f_lsh
operation f_rsh_eq = f_rsh
operation f_div_eq = f_divide
operation f_mod_eq = f_mod

-- `-=`, `*=` and the others but `+=` test for numbers before they compute; `+=` adds a number or a
-- string to a string, and otherwise numbers. `v` is the old value of the left-hand side.
unfoldable pub binary_eq : Assigner → Value → Value → Run Value
binary_eq f_add_eq (string s) (string t) = ok (string (s ++ t))
binary_eq f_add_eq (string s) (number n) = ok (string (s ++ print_number n))
binary_eq o (number a) (number b) = arithmetic (operation o) a b
binary_eq _ v arg = error
