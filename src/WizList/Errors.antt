-- ===== src/WizList/Errors.antt =====
-- The last error in the code of each wizard: save_error and get_error_file of lpmud/wiz_list.c.
use lpmud_ng.Base.{ℕ, ◌==◌, if◌then◌else◌, Option, none, some, List, [], ◌∷◌, ◌++◌, take, drop}
use lpmud_ng.Base.Text.{Chars, codes, starts_with}
use lpmud_ng.Save.{ends_in_c}
use lpmud_ng.WizList.{Wiz, add_name, update_wiz}

-- The bytes before the first slash
abbrev pub before_slash : Chars → Chars
before_slash [] = []
before_slash (c ∷ s) = if c == 47 then [] else c ∷ before_slash s

abbrev pub non_empty : Chars → Option Chars
non_empty [] = none
non_empty (c ∷ s) = some (c ∷ s)

-- `sscanf(file, "players/%99[^/]/", name)`, if it matches the name
unfoldable pub wizard_of : Chars → Option Chars
wizard_of file =
    if starts_with file (codes "players/")
    then non_empty (take 99 (before_slash (drop 8 file)))
    else none

abbrev pub more_before : ℕ → Chars → Option Chars → Option Chars
more_before c s none = if c == 35 then some [] else none
more_before c s (some p) = some (c ∷ p)

-- The bytes before the last number sign, if there is one
abbrev pub before_number_sign : Chars → Option Chars
before_number_sign [] = none
before_number_sign (c ∷ s) = more_before c s (before_number_sign s)

abbrev pub dot_c : Chars
dot_c = codes ".c"

abbrev pub with_dot_c : Chars → Option Chars → Chars
with_dot_c file none = if ends_in_c file then file else file ++ dot_c
with_dot_c file (some p) = p ++ dot_c

-- The file of the program, which a clone shares with the object that it was cloned from
unfoldable pub program_file : Chars → Chars
program_file file = with_dot_c file (before_number_sign file)

abbrev pub note_error : Chars → Chars → ℕ → Wiz → Wiz
note_error msg file line w = record w {
  file_name = some (program_file file);
  error_message = some msg;
  line_number = some line;
}

abbrev pub save_error_of : Option Chars → Chars → Chars → ℕ → List Wiz → List Wiz
save_error_of none msg file line l = l
save_error_of (some name) msg file line l =
    update_wiz name (note_error msg file line) (add_name name l).1

unfoldable pub save_error : Chars → Chars → ℕ → List Wiz → List Wiz
save_error msg file line l = save_error_of (wizard_of file) msg file line l

-- What is shown of an error; the file is also returned.
pub record Report : Type 0 where
  pub file : Option Chars
  pub line : Option ℕ
  pub message : Chars

abbrev pub report_of : Wiz → Option Chars → Option Report
report_of w none = none
report_of w (some m) = some (record { file = w.file_name; line = w.line_number; message = m })

abbrev pub forget_error : Wiz → Wiz
forget_error w = record w { error_message = none }

abbrev pub after_report : Chars → Option Report → List Wiz → List Wiz
after_report name none l = l
after_report name (some r) l = update_wiz name forget_error l

-- `none` is the answer "No error."
unfoldable pub get_error_file : Chars → List Wiz → Option Report × List Wiz
get_error_file name l =
    let (w, l') = add_name name l in
    let r = report_of w w.error_message in (r, after_report name r l')
