-- ===== src/WizList/Reports.antt =====
-- The error of a wizard that save_error has kept is what get_error_file shows, once.
use lpmud_ng.Base.{
  ℕ, ◌≡◌, ◌≢◌, refl, sym, ap, ◌∙◌, none, some, Bool-cases, inl, inr, List, if◌then◌else◌,
}
use mathlib.Core.Option.{map}
use lpmud_ng.Base.Text.{Chars, str_eq, str_eq_refl, str_eq→eq}
use lpmud_ng.WizList.{Wiz, find_wiz, add_name, update_wiz, with_name}
use lpmud_ng.WizList.Scores.{add_name-find, find-update}
use lpmud_ng.WizList.Errors.{
  wizard_of, program_file, note_error, save_error_of, save_error, report_of, forget_error,
  after_report, get_error_file,
}

update-found :
    (name : Chars) (f : Wiz → Wiz) (l : List Wiz) (w : Wiz)
    → ((x : Wiz) → (f x).name ≡ x.name)
    → find_wiz name l ≡ some w
    → find_wiz name (update_wiz name f l) ≡ some (f w)
update-found name f l w keeps e =
    find-update name name f l keeps
    ∙ ap (λ b. if b then map f (find_wiz name l) else find_wiz name l) (str_eq_refl name)
    ∙ ap (map f) e

update-other :
    (name q : Chars) (f : Wiz → Wiz) (l : List Wiz)
    → ((x : Wiz) → (f x).name ≡ x.name)
    → q ≢ name
    → find_wiz q (update_wiz name f l) ≡ find_wiz q l
update-other name q f l keeps other = elim (Bool-cases (str_eq name q)) [
  | inl e ↦ absurd (other (sym (str_eq→eq name q e)))
  | inr e ↦
      find-update name q f l keeps ∙ ap (λ b. if b then map f (find_wiz q l) else find_wiz q l) e
]

-- A name that is found is not added.
add_name_known :
    (name : Chars) (l : List Wiz) (w : Wiz) → find_wiz name l ≡ some w → add_name name l ≡ (w, l)
unfolding add_name
add_name_known name l w e = ap (λ o. with_name name o l) e

get_error_file_known :
    (name : Chars) (l : List Wiz) (w : Wiz)
    → find_wiz name l ≡ some w
    → get_error_file name l
      ≡ (report_of w w.error_message, after_report name (report_of w w.error_message) l)
unfolding get_error_file
get_error_file_known name l w e =
    ap
      (λ a.
        (report_of a.0 a.0.error_message, after_report name (report_of a.0 a.0.error_message) a.1))
      (add_name_known name l w e)

-- After save_error for a file of a wizard, get_error_file of that wizard shows the file of the
-- program, the line and the message, and the next get_error_file has no error to show; the entries
-- of the other wizards are as before.
pub save-get_error :
    (msg file name : Chars) (line : ℕ) (l : List Wiz)
    → wizard_of file ≡ some name
    → let (r, l') = get_error_file name (save_error msg file line l) in
      (r ≡ some (record { file = some (program_file file); line = some line; message = msg }))
      × ((get_error_file name l').0 ≡ none)
      × ((q : Chars) → q ≢ name → find_wiz q l' ≡ find_wiz q l)
unfolding save_error
save-get_error msg file name line l e = (
  ap (λ a. a.0) first,
  ap (λ a. (get_error_file name a.1).0) first
      ∙ ap (λ a. a.0) (get_error_file_known name l2 (forget_error w1) found2),
  λ q other.
      ap (λ a. find_wiz q a.1) first
      ∙ update-other name q forget_error l1 (λ x. refl) other
      ∙ update-other name q note added.1 (λ x. refl) other
      ∙ (add_name-find name l).2 q other,
)
  where
    added : Wiz × List Wiz
    added = add_name name l

    note : Wiz → Wiz
    note = note_error msg file line

    w1 : Wiz
    w1 = note added.0

    l1 : List Wiz
    l1 = update_wiz name note added.1

    l2 : List Wiz
    l2 = update_wiz name forget_error l1

    found1 : find_wiz name l1 ≡ some w1
    found1 = update-found name note added.1 added.0 (λ x. refl) (add_name-find name l).1

    found2 : find_wiz name l2 ≡ some (forget_error w1)
    found2 = update-found name forget_error l1 w1 (λ x. refl) found1

    first : get_error_file name (save_error msg file line l) ≡ (report_of w1 w1.error_message, l2)
    first =
        ap (λ o. get_error_file name (save_error_of o msg file line l)) e
        ∙ get_error_file_known name l1 w1 found1
