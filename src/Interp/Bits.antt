-- ===== src/Interp/Bits.antt =====
-- Strings of bits: set_bit, clear_bit and test_bit in print_expr of lpmud/interpret.c. A byte holds
-- six bits, as its distance from the space.
mod Laws
mod Results
mod Tests
use lpmud_ng.Base.{
  ℕ, zero, suc, ◌+◌, ◌-◌, ◌*◌, ◌/◌, ◌%◌, ◌^◌, Bool, true, false, ◌==◌, ltb, leb, if◌then◌else◌, not,
  ◌||◌, ◌&&◌, Option, none, some, List, [], ◌∷◌, length, get_elem?,
}
use lpmud_ng.Base.Int.{ℤ, pos, negsuc, sub_ℕ}
use lpmud_ng.Base.Run.{Run, ok, error, fatal, undefined}
use lpmud_ng.Base.Text.{Chars}
use lpmud_ng.Value.{Value, string}
use lpmud_ng.Interp.Ops.{const0, const1, of_bool, to_bits}

abbrev pub max_bits : ℕ
max_bits = 1200

-- `d & 1 << k`, `d | 1 << k` and `d & ~(1 << k)`
abbrev pub bit : ℕ → ℕ → Bool
bit k d = d / 2 ^ k % 2 == 1

abbrev pub with_bit : ℕ → ℕ → ℕ
with_bit k d = if bit k d then d else d + 2 ^ k

abbrev pub without_bit : ℕ → ℕ → ℕ
without_bit k d = if bit k d then d - 2 ^ k else d

-- `memset(str + old_len, ' ', len - old_len)`, to the length `n` or more
abbrev pub pad : ℕ → Chars → Chars
pad zero s = s
pad (suc n) [] = 32 ∷ pad n []
pad (suc n) (c ∷ s) = c ∷ pad n s

abbrev pub change : ℕ → (ℕ → ℕ) → Chars → Chars
change i f [] = []
change zero f (c ∷ s) = f c ∷ s
change (suc i) f (c ∷ s) = c ∷ change i f s

abbrev pub is_pattern : Option ℕ → Bool
is_pattern none = false
is_pattern (some c) = leb 32 c && leb c 95

-- `str[ind] = f(str[ind] - ' ') + ' '`, behind the test of the byte
unfoldable pub change_bits : (ℕ → ℕ) → ℕ → Chars → Run Value
change_bits f ind s =
    if is_pattern (get_elem? s ind)
    then ok (string (change ind (λ c. f (c - 32) + 32) s))
    else error

-- A negative number shifts by a negative amount, or is an index before the string.
unfoldable pub set_bit : Chars → ℤ → Run Value
set_bit s (negsuc n) = undefined
set_bit s (pos n) =
    if ltb max_bits n then error else change_bits (with_bit (n % 6)) (n / 6) (pad (suc (n / 6)) s)

unfoldable pub clear_bit : Chars → ℤ → Run Value
clear_bit s (negsuc n) = undefined
clear_bit s (pos n) =
    if ltb max_bits n
    then error
    else if leb (length s) (n / 6)
    then ok (string s)
    else change_bits (without_bit (n % 6)) (n / 6) s

-- The value of a byte, which is a signed char, less that of the space
abbrev pub distance : ℕ → ℕ
distance c = to_bits (if ltb c 128 then sub_ℕ c 32 else sub_ℕ c 288)

abbrev pub is_set : Option ℕ → ℕ → Bool
is_set none k = false
is_set (some c) k = bit k (distance c)

unfoldable pub test_bit : Chars → ℤ → Run Value
test_bit s (negsuc n) = undefined
test_bit s (pos n) = ok (of_bool (is_set (get_elem? s (n / 6)) (n % 6)))
