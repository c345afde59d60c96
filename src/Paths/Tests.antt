-- ===== src/Paths/Tests.antt =====
-- Runs of legal_path, check_file_name and match_string, and their theorems at concrete strings.
use lpmud_ng.Base.{
  ℕ, ◌≡◌, ◌↔◌, refl, Bool, true, false, if◌then◌else◌, none, some, List, [], ◌∷◌, arith,
}
use lpmud_ng.Base.Run.{ok}
use lpmud_ng.Base.Text.{Chars, codes}
use lpmud_ng.Value.{string}
use lpmud_ng.Paths.{
  legal_path, Access, valid_read, valid_write, Answer, check_file_name, match_string, program,
}
use lpmud_ng.Paths.Legal.{IsLegal, legal_path_lem, check_file_name_lem}
use lpmud_ng.Paths.Glob.{Token, one, many, byte, tokens, Fits, match_string-Fits, Fits-match_string}

parent_is_refused : legal_path 30 (some (codes "players/../secure")) ≡ some false
unfolding program
parent_is_refused = refl

extension_is_legal : legal_path 30 (some (codes "room/church.c")) ≡ some true
unfolding program
extension_is_legal = refl

-- Reading is allowed below "open", writing gets the answer "/etc".
abbrev answers : Access → ℕ → Chars → Answer
answers valid_read giver file = record {
  ret = some (string (codes "open/a.c"));
  destructed = false;
}
answers valid_write giver file = record { ret = some (string (codes "/etc")); destructed = false }

write_is_refused : check_file_name answers 30 (some 1) (codes "a.c") true ≡ some (ok none)
unfolding program
write_is_refused = refl

star_matches : match_string (codes "*.c") (codes "room.c") ≡ true
unfolding program
star_matches = refl

-- Two stars do not match the empty string, which one star matches.
two_stars : match_string (codes "**") [] ≡ false
unfolding program
two_stars = refl

one_star : match_string (codes "*") [] ≡ true
unfolding program
one_star = refl

legal_path_lem_example :
    (b : Bool) × (legal_path 30 (some (codes "room/church.c")) ≡ some b)
    × ((b ≡ true) ↔ IsLegal (codes "room/church.c"))
legal_path_lem_example = legal_path_lem 30 (codes "room/church.c") (omega arith)

check_file_name_lem_example :
    (b : Bool) × ((b ≡ true) ↔ IsLegal (codes "open/a.c"))
    × (check_file_name answers 30 (some 1) (codes "a.c") false
        ≡ some (ok (if b then some (codes "open/a.c") else none)))
check_file_name_lem_example =
    check_file_name_lem answers 30 1 (codes "a.c") (codes "open/a.c") false refl (omega arith)

match_string-Fits_example :
    (ts : List Token) × (tokens (codes "*.c") ≡ some ts) × Fits ts (codes "room.c")
match_string-Fits_example = match_string-Fits (codes "*.c") (codes "room.c") star_matches

Fits-match_string_example : match_string (codes "?*.c") (codes "room.c") ≡ true
Fits-match_string_example =
    Fits-match_string (codes "?*.c") (codes "room.c") (one ∷ many ∷ byte 46 ∷ byte 99 ∷ []) refl tt
      (
        114,
        codes "oom.c",
        refl,
        (codes "oom", codes ".c", refl, (codes "c", refl, ([], refl, refl))),
      )
