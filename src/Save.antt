-- ===== src/Save.antt =====
-- Saved objects, lpmud/object.c: save_object writes the variables of an object to a file, one on
-- a line, and restore_object reads them back. Files is what the file system holds, by name; a file
-- has no null byte, and that a write or a link can fail is not modelled. What restore_object
-- assigned before an error is lost in the model.
pub mod Decimal
pub mod Lines
mod Reading
mod RoundTrip
mod Guards
mod Tests
use lpmud_ng.Base.{
  ℕ, zero, suc, ◌+◌, ◌-◌, ◌*◌, ◌/◌, ◌%◌, Bool, true, false, ◌==◌, ltb, leb, if◌then◌else◌, not,
  ◌&&◌, ◌||◌, Option, none, some, List, [], ◌∷◌, ◌++◌, length, take, drop, get_elem?,
}
use lpmud_ng.Base.Int.{ℤ, pos, ◌-ℤ◌, negsuc}
use lpmud_ng.Base.Run.{Run, ok, error, fatal, undefined, ◌>>=◌}
use lpmud_ng.Base.Text.{Chars, str_eq, starts_with}
use lpmud_ng.Paths.{strchr}
use lpmud_ng.Value.{
  Value, number, string, pointer, object, Refs, assign_svalue, hold_svalue, free_svalue,
}

-- `struct lnode_var_def`
pub record Variable : Type 0 where
  pub name : Chars
  pub num_var : ℕ
  pub is_static : Bool

-- `wl` is the name of the wizard, if the object is one of a wizard's.
pub record Object : Type 0 where
  pub name : Chars
  pub wl : Option Chars
  pub status : List Variable
  pub variables : ℕ → Value

abbrev pub Files : Type 0
Files = Chars → Option Chars

unfoldable pub replace_newline : Chars → Chars
replace_newline [] = []
replace_newline (c ∷ str) = (if c == 10 then 13 else c) ∷ replace_newline str

unfoldable pub restore_newline : Chars → Chars
restore_newline [] = []
restore_newline (c ∷ str) = (if c == 13 then 10 else c) ∷ restore_newline str

-- The digits of a number, as `%d` prints them; there are at most `suc n` of them.
unfoldable pub digits : ℕ → ℕ → Chars
digits zero n = []
digits (suc fuel) n =
    let rest = digits fuel (n / 10) in
    if ltb n 10 then (48 + n) ∷ [] else rest ++ ((48 + n % 10) ∷ [])

unfoldable pub print_number : ℤ → Chars
print_number (pos n) = digits (suc n) n
print_number (negsuc n) = 45 ∷ digits (suc (suc n)) (suc n)

abbrev pub is_digit : ℕ → Bool
is_digit c = leb 48 c && leb c 57

unfoldable pub scan : ℕ → Chars → ℕ
scan n [] = n
scan n (c ∷ s) = let rest = scan (n * 10 + (c - 48)) s in if is_digit c then rest else n

abbrev pub is_space : ℕ → Bool
is_space c = c == 32 || leb 9 c && leb c 13

abbrev pub signed : Chars → ℤ
signed [] = pos 0
signed (c ∷ s) =
    if c == 45
    then pos 0 -ℤ pos (scan 0 s)
    else if c == 43
    then pos (scan 0 s)
    else pos (scan 0 (c ∷ s))

unfoldable pub atoi : Chars → ℤ
atoi [] = pos 0
atoi (c ∷ s) = let rest = atoi s in if is_space c then rest else signed (c ∷ s)

abbrev pub is_missing : Option Chars → Bool
is_missing none = true
is_missing (some s) = false

-- The tests of a wizard's file name
unfoldable pub is_home : Chars → Chars → Bool
is_home wizard file =
    starts_with file (112 ∷ 108 ∷ 97 ∷ 121 ∷ 101 ∷ 114 ∷ 115 ∷ 47 ∷ [])
    && not (ltb (length file) (8 + length wizard))
    && starts_with (drop 8 file) wizard
    && not (
        ltb (8 + length wizard) (length file)
        && not (starts_with (drop (8 + length wizard) file) (47 ∷ [])))
    && is_missing (strchr file 46)

-- The object whose code calls has a name in obj/ or room/.
unfoldable pub is_trusted : Chars → Bool
is_trusted current =
    starts_with current (111 ∷ 98 ∷ 106 ∷ 47 ∷ [])
    || starts_with current (114 ∷ 111 ∷ 111 ∷ 109 ∷ 47 ∷ [])

unfoldable pub may_save : Option Chars → Chars → Chars → Bool
may_save none current file = is_trusted current
may_save (some wizard) current file = is_home wizard file

-- What is written for a variable
unfoldable pub save_value : Chars → Value → Chars
save_value name (number n) = name ++ (32 ∷ (print_number n ++ (10 ∷ [])))
save_value name (string s) = name ++ (32 ∷ 34 ∷ (replace_newline s ++ (34 ∷ 10 ∷ [])))
save_value name (pointer v) = []
save_value name (object o) = []

unfoldable pub save_variables : List Variable → (ℕ → Value) → Chars
save_variables [] variables = []
save_variables (p ∷ l) variables =
    let rest = save_variables l variables in
    if p.is_static then rest else save_value p.name (variables p.num_var) ++ rest

abbrev pub put_file : Chars → Chars → Files → Files
put_file name text fs q = if str_eq q name then some text else fs q

abbrev pub dot_o : Chars
dot_o = 46 ∷ 111 ∷ []

abbrev pub unlink : Chars → Files → Files
unlink name fs q = if str_eq q name then none else fs q

abbrev pub link_as : Option Chars → Option Chars → Chars → Files → Files
link_as none there name fs = fs
link_as (some text) none name fs = put_file name text fs
link_as (some text) (some other) name fs = fs

-- `link(from, name)`, which leaves a file with that name as it is
abbrev pub link : Chars → Chars → Files → Files
link from name fs = link_as (fs from) (fs name) name fs

-- `opens` tells whether the temporary file can be opened; its name, `tmp_name`, comes from the process.
unfoldable pub save_object : Bool → Chars → Chars → Object → Chars → Files → Run Files
save_object opens tmp_name current ob file fs =
    if not (may_save ob.wl current file)
    then error
    else if not opens
    then fatal
    else ok (
        let written = put_file tmp_name (save_variables ob.status ob.variables) fs in
        unlink tmp_name (link tmp_name (file ++ dot_o) (unlink (file ++ dot_o) written)))

-- `find_status(str, 0)`
unfoldable pub find_status : List Variable → Chars → Option Variable
find_status [] str = none
find_status (p ∷ l) str = let rest = find_status l str in if str_eq p.name str then some p else rest

abbrev pub State : Type 0
State = (ℕ → Value) × Refs

unfoldable pub assign : ℕ → Value → State → State
assign i v s =
    let r = assign_svalue (s.0 i) (some v) s.1 in ((λ j. if j == i then r.0 else s.0 j), r.1)

-- `val` behind its first byte, once the byte before the last is a null byte
unfoldable pub strip : Chars → Run Chars
strip val =
    if ltb (length val) 2
    then undefined
    else if length val == 2
    then ok (drop 1 val)
    else ok (drop 1 (take (length val - 2) val))

unfoldable pub restore_string : ℕ → Chars → State → Run State
restore_string i val s = strip val >>= λ str. ok (assign i (string (restore_newline str)) s)

unfoldable pub restore_value : Option Variable → Chars → State → Run State
restore_value none val s = ok s
restore_value (some p) val s =
    if p.is_static
    then ok s
    else if starts_with val (34 ∷ [])
    then restore_string p.num_var val s
    else ok (assign p.num_var (number (atoi val)) s)

-- `space` is the rest of the line from the first space on.
unfoldable pub restore_at : List Variable → Chars → Option Chars → State → Run State
restore_at status buff none s = error
restore_at status buff (some space) s =
    let var_len = length buff - length space in
    if var_len == 0 || leb 100 var_len
    then error
    else restore_value (find_status status (take var_len buff)) (drop 1 space) s

unfoldable pub restore_line : List Variable → Chars → State → Run State
restore_line status buff s = restore_at status buff (strchr buff 32) s

-- What `fgets` reads, and what it leaves
abbrev pub first_line : Chars → Chars
first_line [] = []
first_line (c ∷ s) = if c == 10 then c ∷ [] else c ∷ first_line s

abbrev pub other_lines : Chars → Chars
other_lines [] = []
other_lines (c ∷ s) = if c == 10 then s else other_lines s

-- `fuel` bounds the number of lines.
unfoldable pub restore_lines : ℕ → List Variable → Chars → State → Run State
restore_lines fuel status [] s = ok s
restore_lines zero status (c ∷ text) s = ok s
restore_lines (suc fuel) status (c ∷ text) s =
    restore_line status (first_line (c ∷ text)) s
    >>= restore_lines fuel status (other_lines (c ∷ text))

abbrev pub ends_in_c : Chars → Bool
ends_in_c file = leb 2 (length file) && str_eq (drop (length file - 2) file) (46 ∷ 99 ∷ [])

unfoldable pub restore_name : Chars → Chars
restore_name file =
    if ends_in_c file then take (length file - 1) file ++ (111 ∷ []) else file ++ dot_o

unfoldable pub restore_text : Option Chars → Object → Refs → Run (Bool × Object × Refs)
restore_text none ob r = ok (false, ob, r)
restore_text (some []) ob r = ok (false, ob, r)
restore_text (some (c ∷ text)) ob r =
    restore_lines (length (c ∷ text)) ob.status (c ∷ text) (ob.variables, r) >>= λ s.
    ok (true, record ob { variables = s.0 }, s.1)

unfoldable pub restore_object : Object → Chars → Files → Refs → Run (Bool × Object × Refs)
restore_object ob file fs r = restore_text (fs (restore_name file)) ob r

-- All that a run computes with.
unfoldable pub program : Unit {0}
unfolding replace_newline restore_newline digits print_number scan atoi is_home is_trusted may_save
    save_value save_variables save_object find_status assign strip restore_string restore_value
    restore_at restore_line restore_lines restore_name restore_text restore_object strchr
    starts_with str_eq assign_svalue hold_svalue free_svalue ◌-ℤ◌
program = tt
