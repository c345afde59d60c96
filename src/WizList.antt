-- ===== src/WizList.antt =====
-- The list of the wizards of wiz_list.c: `all_wiz`, head first. An entry is its name with its scores.
-- A score is an unbounded integer; `file_name`, `error_message` and `line_number` are of the last error,
-- and are not set at first.
pub mod Sort
pub mod Scores
mod File
mod Saved
mod Errors
mod Reports
mod Ranking
mod Places
mod Tests
use lpmud_ng.Base.{
  ℕ, ◌+◌, Bool, true, false, ◌&&◌, List, [], ◌∷◌, Option, none, some, ◌==◌, if◌then◌else◌, length,
}
use lpmud_ng.Base.Int.{ℤ, pos, ◌+ℤ◌, ◌*ℤ◌, ◌/ℤ◌, ltb_ℤ}
use lpmud_ng.Base.Run.{Run, ok, fatal, ◌>>=◌}
use lpmud_ng.Base.Text.{Chars, str_eq}

pub record Wiz : Type 0 where
  pub name : Chars
  pub score : ℤ
  pub cost : ℤ
  pub heart_beats : ℤ
  pub total_worth : ℤ
  pub size_array : ℤ
  pub file_name : Option Chars
  pub error_message : Option Chars
  pub line_number : Option ℕ

-- In ascending order of the scores.
unfoldable pub insert : Wiz → List Wiz → List Wiz
insert w [] = w ∷ []
insert w (x ∷ l) = if ltb_ℤ x.score w.score then x ∷ insert w l else w ∷ x ∷ l

-- The loop of `rebuild_list`, with the list that it builds.
unfoldable pub rebuild_from : List Wiz → List Wiz → List Wiz
rebuild_from new_list [] = new_list
rebuild_from new_list (w ∷ l) = rebuild_from (insert w new_list) l

unfoldable pub rebuild_list : List Wiz → List Wiz
rebuild_list l = rebuild_from [] l

abbrev pub is_wiz : Chars → Wiz → Bool
is_wiz name w = length w.name == length name && str_eq w.name name

unfoldable pub find_wiz : Chars → List Wiz → Option Wiz
find_wiz name [] = none
find_wiz name (w ∷ l) = if is_wiz name w then some w else find_wiz name l

abbrev pub new_wiz : Chars → Wiz
new_wiz name = record {
  name = name;
  score = pos 0;
  cost = pos 0;
  heart_beats = pos 0;
  total_worth = pos 0;
  size_array = pos 0;
  file_name = none;
  error_message = none;
  line_number = none;
}

abbrev pub with_name : Chars → Option Wiz → List Wiz → Wiz × List Wiz
with_name name none l = (new_wiz name, new_wiz name ∷ l)
with_name name (some w) l = (w, l)

-- The entry of the name, which is put at the head of the list if there is none.
unfoldable pub add_name : Chars → List Wiz → Wiz × List Wiz
add_name name l = with_name name (find_wiz name l) l

-- A write through the pointer that `find_wiz` returned.
unfoldable pub update_wiz : Chars → (Wiz → Wiz) → List Wiz → List Wiz
update_wiz name f [] = []
update_wiz name f (w ∷ l) = if is_wiz name w then f w ∷ l else w ∷ update_wiz name f l

abbrev pub raise_score : ℤ → Wiz → Wiz
raise_score n w = record w { score = w.score +ℤ n }

unfoldable pub add_score : Chars → ℤ → List Wiz → Run (List Wiz)
add_score name n l = elim (find_wiz name l) [
  | none ↦ fatal
  | some w ↦ ok (update_wiz name (raise_score n) l)
]

-- `n * a / b`, with the division towards zero
abbrev pub scaled : ℤ → ℕ → ℕ → ℤ
scaled n a b = n *ℤ pos a /ℤ b

unfoldable pub decay : Wiz → Wiz
decay w = record w {
  score = scaled w.score 99 100;
  total_worth = scaled w.total_worth 99 100;
  cost = scaled w.cost 9 10;
  heart_beats = scaled w.heart_beats 9 10;
}

unfoldable pub wiz_decay : List Wiz → List Wiz
wiz_decay [] = []
wiz_decay (w ∷ l) = decay w ∷ wiz_decay l
