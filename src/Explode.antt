-- ===== src/Explode.antt =====
-- explode_string and implode_string of lpmud/interpret.c, with the bound of allocate_array. The loops
-- of explode_string have fuel, and `none` is its end.
mod Pieces
mod Scan
mod Results
mod Tests
use mathlib.Core.List.{map}
use lpmud_ng.Base.{
  ℕ, zero, suc, ◌+◌, ◌-◌, ◌*◌, Bool, true, false, ltb, leb, if◌then◌else◌, not, ◌||◌, Option, none,
  some, List, [], ◌∷◌, ◌++◌, length, drop,
}
use lpmud_ng.Base.Int.{ℤ, pos}
use lpmud_ng.Base.Run.{Run, ok, error, fatal, undefined, ◌>>=◌}
use lpmud_ng.Base.Text.{Chars, str_eq, starts_with}
use lpmud_ng.Value.{Value, number, string, pointer, object}

abbrev pub max_array_size : ℕ
max_array_size = 1000

abbrev pub is_empty : Chars → Bool
is_empty [] = true
is_empty (c ∷ s) = false

-- The delimiters at the head of the string are skipped; `some none` is the return of `const0`.
unfoldable pub skip_leading : ℕ → Chars → Chars → Option (Option Chars)
skip_leading zero del s = none
skip_leading (suc fuel) del s =
    let rest = skip_leading fuel del (drop (length del) s) in
    if starts_with s del
    then if is_empty (drop (length del) s) then some none else rest
    else some (some s)

-- The number of delimiters, added to `num`
unfoldable pub count_delimiters : ℕ → Chars → ℕ → Chars → Option ℕ
count_delimiters zero del num s = none
count_delimiters (suc fuel) del num [] = some num
count_delimiters (suc fuel) del num (c ∷ s) =
    let found = count_delimiters fuel del (num + 1) (drop (length del) (c ∷ s)) in
    let further = count_delimiters fuel del num s in
    if starts_with (c ∷ s) del then found else further

-- `strlen(str) < len || strcmp(str + strlen(str) - len, del) != 0`
unfoldable pub ends_otherwise : Chars → Chars → Bool
ends_otherwise del s =
    ltb (length s) (length del) || not (str_eq (drop (length s - length del) s) del)

unfoldable pub number_of_items : Chars → Chars → ℕ → ℕ
number_of_items del s num = if ends_otherwise del s then num + 1 else num

abbrev pub and_item : Chars → Option (Run (List Chars)) → Option (Run (List Chars))
and_item cur none = none
and_item cur (some m) = some (m >>= λ more. ok (cur ∷ more))

-- The loop that fills the array of `size` items: `cur` is what stands from `beg` to `p`, and `s` what
-- stands from `p` on. It gives the strings that are stored from the item `num` on.
unfoldable pub fill_items : ℕ → Chars → ℕ → ℕ → Chars → Chars → Option (Run (List Chars))
fill_items zero del size num cur s = none
fill_items (suc fuel) del size num cur [] =
    some (if is_empty cur then ok [] else if ltb num size then ok (cur ∷ []) else undefined)
fill_items (suc fuel) del size num cur (c ∷ s) =
    let found = and_item cur (fill_items fuel del size (num + 1) [] (drop (length del) (c ∷ s))) in
    let further = fill_items fuel del size num (cur ++ (c ∷ [])) s in
    if starts_with (c ∷ s) del then if leb size num then some fatal else found else further

-- The items of the array: the strings, and 0 in those that are left.
abbrev pub zeros : ℕ → List Value
zeros zero = []
zeros (suc n) = number (pos 0) ∷ zeros n

unfoldable pub to_items : ℕ → List Chars → List Value
to_items size items = map string items ++ zeros (size - length items)

-- The result is 0 or an array.
abbrev pub in_array : ℕ → Option (Run (List Chars)) → Option (Run (Option (List Value)))
in_array size none = none
in_array size (some m) = some (m >>= λ items. ok (some (to_items size items)))

unfoldable pub with_size : ℕ → Chars → Chars → ℕ → Option (Run (Option (List Value)))
with_size fuel s del size =
    if ltb max_array_size size then some error else in_array size (fill_items fuel del size 0 [] s)

abbrev pub with_count : ℕ → Chars → Chars → Option ℕ → Option (Run (Option (List Value)))
with_count fuel s del none = none
with_count fuel s del (some num) = with_size fuel s del (number_of_items del s num)

unfoldable pub explode_rest : ℕ → Chars → Option (Option Chars) → Option (Run (Option (List Value)))
explode_rest fuel del none = none
explode_rest fuel del (some none) = some (ok none)
explode_rest fuel del (some (some s)) = with_count fuel s del (count_delimiters fuel del 0 s)

unfoldable pub explode_string : ℕ → Chars → Chars → Option (Run (Option (List Value)))
explode_string fuel s del = explode_rest fuel del (skip_leading fuel del s)

-- The second loop of implode_string, behind `num` strings
unfoldable pub append_items : Chars → ℕ → List Value → Chars
append_items del num [] = []
append_items del num (string s ∷ l) =
    (if ltb 0 num then del else []) ++ (s ++ append_items del (num + 1) l)
append_items del num (number n ∷ l) = append_items del num l
append_items del num (pointer v ∷ l) = append_items del num l
append_items del num (object o ∷ l) = append_items del num l

unfoldable pub count_strings : List Value → ℕ
count_strings [] = 0
count_strings (string s ∷ l) = count_strings l + 1
count_strings (number n ∷ l) = count_strings l
count_strings (pointer v ∷ l) = count_strings l
count_strings (object o ∷ l) = count_strings l

unfoldable pub total_length : List Value → ℕ
total_length [] = 0
total_length (string s ∷ l) = length s + total_length l
total_length (number n ∷ l) = total_length l
total_length (pointer v ∷ l) = total_length l
total_length (object o ∷ l) = total_length l

-- The bytes that implode_string allocates
unfoldable pub buffer_size : List Value → Chars → ℕ
buffer_size l del = total_length l + (count_strings l - 1) * length del + 1

-- The result is 0 or a string.
unfoldable pub implode_string : List Value → Chars → Option Chars
implode_string l del = if leb (count_strings l) 0 then none else some (append_items del 0 l)

-- All that a run computes with.
unfoldable pub program : Unit {0}
unfolding str_eq starts_with skip_leading count_delimiters ends_otherwise number_of_items fill_items
    to_items with_size explode_rest explode_string append_items count_strings total_length
    buffer_size implode_string
program = tt
