-- ===== src/WizList/Tests.antt =====
-- Runs of wiz_list.c's functions, and its theorems at a concrete list.
use mathlib.Core.List.{Perm}
use lpmud_ng.Base.{ℕ, ◌≡◌, ◌≢◌, none, arith, All, refl, List, [], ◌∷◌, some, map, if◌then◌else◌}
use lpmud_ng.Base.Int.{ℤ, pos, negsuc, ◌+ℤ◌, ◌*ℤ◌, ◌/ℤ◌}
use lpmud_ng.Base.Run.{ok, fatal, Returns}
use lpmud_ng.Base.Text.{Chars, codes, str_eq, starts_with}
use lpmud_ng.WizList.Scores.{add_score_lem, add_score_unknown}
use lpmud_ng.WizList.Sort.{IsSorted}
use lpmud_ng.WizList.Ranking.{Row, wizlist, rows, position_from, add_scores, quotient}
use lpmud_ng.WizList.Places.{IsShown, total_of, wizlist_shows}
use lpmud_ng.Save.{digits, print_number, scan, atoi}
use lpmud_ng.Paths.{strchr}
use lpmud_ng.WizList.File.{fgets, save_wiz_file, load_lines, load_wiz_file}
use lpmud_ng.WizList.Errors.{wizard_of, program_file, save_error, get_error_file}
use lpmud_ng.WizList.Reports.{save-get_error}
use lpmud_ng.WizList.Saved.{IsSavable, save-load}
use lpmud_ng.WizList.{
  Wiz, update_wiz, new_wiz, rebuild_from, insert, rebuild_list, find_wiz, add_name, add_score,
  raise_score, wiz_decay, decay,
}

abbrev scored : Chars → ℤ → Wiz
scored name n = record (new_wiz name) { score = n }

abbrev wizards : List Wiz
wizards =
    scored (codes "lars") (pos 200)
    ∷ scored (codes "ringer") (negsuc 9)
    ∷ scored (codes "morgar") (pos 50)
    ∷ []

abbrev scores : List Wiz → List ℤ
scores l = map (λ w. w.score) l

sorted_runs : scores (rebuild_list wizards) ≡ negsuc 9 ∷ pos 50 ∷ pos 200 ∷ []
unfolding rebuild_list rebuild_from insert
sorted_runs = refl

decay_runs : scores (wiz_decay wizards) ≡ pos 198 ∷ negsuc 8 ∷ pos 49 ∷ []
unfolding wiz_decay decay ◌*ℤ◌ ◌/ℤ◌
decay_runs = refl

add_score_lem_example : Returns (add_score (codes "morgar") (pos 7) wizards) λ l'.
    (q : Chars)
    → find_wiz q l' ≡ (
        if str_eq (codes "morgar") q
        then some (raise_score (pos 7) (scored (codes "morgar") (pos 50)))
        else find_wiz q wizards)
unfolding find_wiz str_eq
add_score_lem_example =
    add_score_lem (codes "morgar") (pos 7) wizards (scored (codes "morgar") (pos 50)) refl

add_score_unknown_example : add_score (codes "nobody") (pos 7) wizards ≡ fatal
unfolding find_wiz str_eq
add_score_unknown_example = add_score_unknown (codes "nobody") (pos 7) wizards refl

abbrev shares : List Row → List (ℕ × ℤ)
shares l = map (λ r. (r.place, r.share)) l

ranked_runs :
    shares (wizlist (codes "lars") wizards).0 ≡ (3, negsuc 3) ∷ (2, pos 20) ∷ (1, pos 83) ∷ []
unfolding wizlist rows position_from add_scores quotient rebuild_list rebuild_from insert str_eq
    ◌+ℤ◌ ◌*ℤ◌ ◌/ℤ◌
ranked_runs = refl

wizlist_shows_example :
    let (shown, sorted) = wizlist (codes "lars") wizards in
    IsSorted sorted
    × Perm sorted wizards
    × IsShown shown sorted (total_of wizards) (scored (codes "lars") (pos 200))
unfolding rebuild_list rebuild_from insert find_wiz str_eq
wizlist_shows_example = wizlist_shows (codes "lars") wizards (scored (codes "lars") (pos 200)) refl

one_written : save_wiz_file (scored (codes "bo") (negsuc 11) ∷ []) ≡ codes "bo -12 0\n"
unfolding save_wiz_file print_number digits
one_written = refl

bad_line :
    load_wiz_file (some (codes "bo 7 3\nmo\nal 2\n")) [] ≡ ok (scored (codes "bo") (pos 7) ∷ [])
unfolding load_wiz_file load_lines fgets strchr atoi scan add_name find_wiz add_score str_eq
    update_wiz ◌+ℤ◌
bad_line = refl

wizards-IsSavable : All IsSavable wizards
unfolding print_number digits
wizards-IsSavable = (
  record { plain = ground arith; fits = omega arith },
  (
    record { plain = ground arith; fits = omega arith },
    (record { plain = ground arith; fits = omega arith }, tt),
  ),
)

save-load_example :
    load_wiz_file (some (save_wiz_file wizards)) []
    ≡ ok (scored (codes "morgar") (pos 50) ∷ scored (codes "lars") (pos 200) ∷ [])
unfolding find_wiz str_eq
save-load_example = save-load wizards wizards-IsSavable (refl, (refl, (refl, tt)))

abbrev clone : Chars
clone = codes "players/ringer/orc#17"

plain_file : program_file (codes "players/ringer/orc") ≡ codes "players/ringer/orc.c"
unfolding program_file str_eq
plain_file = refl

named_file : program_file (codes "players/ringer/orc.c") ≡ codes "players/ringer/orc.c"
unfolding program_file str_eq
named_file = refl

nobodys_file : save_error (codes "Bad") (codes "obj/torch.c") 3 wizards ≡ wizards
unfolding save_error wizard_of starts_with
nobodys_file = refl

save-get_error_example :
    let (r, l') = get_error_file (codes "ringer") (save_error (codes "Bad") clone 12 wizards) in
    (r
      ≡ some (record {
        file = some (codes "players/ringer/orc.c");
        line = some 12;
        message = codes "Bad";
      }))
    × ((get_error_file (codes "ringer") l').0 ≡ none)
    × ((q : Chars) → q ≢ codes "ringer" → find_wiz q l' ≡ find_wiz q wizards)
unfolding program_file wizard_of starts_with
save-get_error_example = save-get_error (codes "Bad") clone (codes "ringer") 12 wizards refl
