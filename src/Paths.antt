-- ===== src/Paths.antt =====
-- File names and patterns in lpmud/simulate.c: legal_path, check_file_name and match_string.
mod Legal
mod Glob
mod Tests
use lpmud_ng.Base.{
  ℕ, zero, suc, ◌+◌, ◌-◌, Bool, true, false, ◌==◌, if◌then◌else◌, not, ◌||◌, ◌&&◌, Option, none,
  some, List, [], ◌∷◌, length,
}
use lpmud_ng.Base.Run.{Run, ok, error, fatal, undefined, ◌>>=◌}
use lpmud_ng.Base.Text.{Chars, codes}
use lpmud_ng.Value.{Value, number, string, pointer, object}

-- The bytes ' ', '.' and '/'
abbrev pub space : ℕ
space = 32

abbrev pub dot : ℕ
dot = 46

abbrev pub slash : ℕ
slash = 47

-- `strchr(s, c)` for a byte that is not 0: the rest of the string from there
unfoldable pub strchr : Chars → ℕ → Option Chars
strchr [] c = none
strchr (b ∷ s) c = if b == c then some (b ∷ s) else strchr s c

abbrev pub is_found : Option Chars → Bool
is_found none = false
is_found (some s) = true

abbrev pub begins_with : ℕ → Chars → Bool
begins_with c [] = false
begins_with c (b ∷ s) = b == c

-- The loop over the dots of the path; `none` is the end of its fuel.
unfoldable pub dots_apart : ℕ → Option Chars → Option Bool
dots_apart zero p = none
dots_apart (suc fuel) none = some true
dots_apart (suc fuel) (some []) = some true
dots_apart (suc fuel) (some (b ∷ s)) =
    let rest = dots_apart fuel (strchr s dot) in if begins_with dot s then some false else rest

unfoldable pub legal_path : ℕ → Option Chars → Option Bool
legal_path fuel none = some false
legal_path fuel (some s) =
    let dots = dots_apart fuel (strchr s dot) in
    if is_found (strchr s space)
    then some false
    else if begins_with slash s
    then some false
    else dots

-- What `check_file_name` asks of the player's object
pub data Access : Type 0 where
  valid_read valid_write : Access

-- The result of `apply`, where `none` is the null pointer, and whether the object is destructed
-- behind the call.
pub record Answer : Type 0 where
  pub ret : Option Value
  pub destructed : Bool

abbrev pub if_legal : Chars → Option Bool → Option (Run (Option Chars))
if_legal s none = none
if_legal s (some b) = some (ok (if b then some s else none))

unfoldable pub checked : ℕ → Option Value → Option (Run (Option Chars))
checked fuel none = some undefined
checked fuel (some (string s)) = if_legal s (legal_path fuel (some s))
checked fuel (some (number n)) = some (ok none)
checked fuel (some (pointer v)) = some (ok none)
checked fuel (some (object o)) = some (ok none)

abbrev pub access : Bool → Access
access true = valid_write
access false = valid_read

-- `apply` is the call of the LPC function; the result is the file name or 0.
unfoldable pub check_file_name :
    (Access → ℕ → Chars → Answer) → ℕ → Option ℕ → Chars → Bool → Option (Run (Option Chars))
check_file_name apply fuel none file writeflg = some (ok none)
check_file_name apply fuel (some giver) file writeflg =
    let a = apply (access writeflg) giver file in
    if a.destructed then some (ok none) else checked fuel a.ret

abbrev pub is_empty : Chars → Bool
is_empty [] = true
is_empty (c ∷ s) = false

-- The loop of '*': `f` on what begins at some byte of the string
abbrev pub any_rest : (Chars → Bool) → Chars → Bool
any_rest f [] = false
any_rest f (c ∷ s) = f (c ∷ s) || any_rest f s

abbrev pub skip_one : (Chars → Bool) → Chars → Bool
skip_one f [] = false
skip_one f (c ∷ s) = f s

abbrev pub same_byte : ℕ → (Chars → Bool) → Chars → Bool
same_byte m f [] = false
same_byte m f (c ∷ s) = m == c && f s

-- '?', '*' and '\\'
abbrev pub question : ℕ
question = 63

abbrev pub star : ℕ
star = 42

abbrev pub backslash : ℕ
backslash = 92

unfoldable pub match_string : Chars → Chars → Bool
match_string [] s = is_empty s
match_string (m ∷ []) s =
    if m == question
    then skip_one is_empty s
    else if m == star
    then true
    else if m == backslash
    then false
    else same_byte m is_empty s
match_string (m ∷ c ∷ ms) s =
    let rest = match_string (c ∷ ms) in
    let escaped = match_string ms in
    if m == question
    then skip_one rest s
    else if m == star
    then any_rest rest s
    else if m == backslash
    then same_byte c escaped s
    else same_byte m rest s

-- All that a run computes with.
unfoldable pub program : Unit {0}
unfolding strchr dots_apart legal_path checked check_file_name match_string
program = tt
