-- ===== src/Save/Tests.antt =====
-- Runs of save_object and restore_object of lpmud/object.c, and the theorems at an example.

use lpmud_ng.Base.{
  ℕ, ◌≡◌, refl, Bool, true, false, ◌==◌, if◌then◌else◌, Option, none, some, [], ◌∷◌, ◌++◌, All,
  arith,
}
use lpmud_ng.Base.Int.{pos, negsuc}
use lpmud_ng.Base.Run.{Run, ok, error}
use lpmud_ng.Base.Text.{Chars, codes, str_eq}
use lpmud_ng.Value.{Value, number, string, object, Refs}
use lpmud_ng.Save.{
  Object, Files, save_variables, save_object, restore_object, put_file, unlink, link, dot_o,
  program,
}
use lpmud_ng.Save.Reading.{IsNamed}
use lpmud_ng.Save.RoundTrip.{is_saved, comes_back, save-restore}
use lpmud_ng.Save.Guards.{IsHome, save_object-IsHome}

abbrev variables : ℕ → Value
variables i =
    if i == 0
    then number (negsuc 41)
    else if i == 1
    then string (104 ∷ 10 ∷ 13 ∷ [])
    else if i == 2
    then object 5
    else number (pos 7)

-- The last of the four is static.
abbrev purse : Object
purse = record {
  name = codes "players/bo/purse";
  wl = some (codes "bo");
  status =
      record { name = codes "hp"; num_var = 0; is_static = false }
      ∷ record { name = codes "title"; num_var = 1; is_static = false }
      ∷ record { name = codes "owner"; num_var = 2; is_static = false }
      ∷ record { name = codes "age"; num_var = 3; is_static = true }
      ∷ [];
  variables = variables;
}

abbrev no_files : Files
no_files q = none

abbrev file : Chars
file = codes "players/bo/o/p"

abbrev text : Chars
text = codes "hp -42" ++ (10 ∷ []) ++ codes "title " ++ (34 ∷ 104 ∷ 13 ∷ 13 ∷ 34 ∷ 10 ∷ [])

saved_text : save_variables purse.status purse.variables ≡ text
unfolding program
saved_text = refl

abbrev tmp : Chars
tmp = codes "tmp_file_name_7"

abbrev saved : Files
saved = unlink tmp (link tmp (file ++ dot_o) (unlink (file ++ dot_o) (put_file tmp text no_files)))

saved_files : (saved (file ++ dot_o) ≡ some text) × (saved tmp ≡ none)
unfolding program
saved_files = (refl, refl)

save_runs : save_object true tmp (codes "players/bo/purse") purse file no_files ≡ ok saved
unfolding program
save_runs = refl

abbrev at_zero : Run (Bool × Object × Refs) → Option (Bool × Value)
at_zero (ok (b, ob, r)) = some (b, ob.variables 0)
at_zero _ = none

abbrev refs : Refs
refs = record { objects = λ o. pos 1; vectors = λ v. pos 1 }

restore_runs :
    at_zero (restore_object (record purse { variables = λ i. number (pos 0) }) file saved refs)
    ≡ some (true, number (negsuc 41))
unfolding program
restore_runs = refl

-- Another wizard's file, and one with a dot
save_elsewhere : save_object true tmp [] purse (codes "players/bob/p") no_files ≡ error
unfolding program
save_elsewhere = refl

save_dotted : save_object true tmp [] purse (codes "players/bo/../al") no_files ≡ error
unfolding program
save_dotted = refl

-- An object of the mudlib saves under a name with .c and does not find it again.
abbrev board : Object
board = record purse { wl = none }

save_c :
    at_zero (
      restore_object board
        (codes "b.c")
        (λ q. if str_eq q (codes "b.c.o") then some text else none)
        refs)
    ≡ some (false, number (negsuc 41))
unfolding program
save_c = refl

purse-IsNamed : All (IsNamed purse.status) purse.status
unfolding program
purse-IsNamed = (
  (record { plain = ground arith; some_byte = omega arith; short = omega arith }, refl),
  (
    (record { plain = ground arith; some_byte = omega arith; short = omega arith }, refl),
    (
      (record { plain = ground arith; some_byte = omega arith; short = omega arith }, refl),
      ((record { plain = ground arith; some_byte = omega arith; short = omega arith }, refl), tt),
    ),
  ),
)

save-restore_example :
    (restored : ℕ → Value) × (r' : Refs) × (restore_object
        (record purse { variables = λ i. number (pos 0) })
        file
        saved
        refs
      ≡ ok (true, record purse { variables = restored }, r'))
    × ((i : ℕ)
        → restored i ≡ (
            if is_saved purse.status i
            then comes_back (variables i) (number (pos 0))
            else number (pos 0)))
unfolding program
save-restore_example =
    save-restore tmp [] file purse no_files saved (λ i. number (pos 0)) refs refl refl purse-IsNamed
      (omega arith) refl

save_object-IsHome_example :
    IsHome (codes "bo") file
    × (saved tmp ≡ none)
    × ((q : Chars) → str_eq q (file ++ dot_o) ≡ false → str_eq q tmp ≡ false → saved q ≡ no_files q)
unfolding program
save_object-IsHome_example =
    save_object-IsHome true tmp [] (codes "bo") file purse no_files saved refl refl
