-- ===== src/WizList/Ranking.antt =====
-- The list that wizlist of lpmud/wiz_list.c prints for the wizard of a name, which is its argument or
-- what query_real_name returns.
use lpmud_ng.Base.{
  ℕ, zero, suc, ◌+◌, ◌-◌, Bool, true, ◌||◌, not, ltb, leb, if◌then◌else◌, Option, none, some, List,
  [], ◌∷◌, length,
}
use lpmud_ng.Base.Int.{ℤ, pos, negsuc, ◌+ℤ◌, ◌-ℤ◌, ◌*ℤ◌, ◌/ℤ◌}
use lpmud_ng.Base.Text.{Chars, codes, str_eq}
use lpmud_ng.WizList.{Wiz, is_wiz, rebuild_list}

-- A line: the wizard, his share of all scores in percent, and his place.
pub record Row : Type 0 where
  pub wizard : Wiz
  pub share : ℤ
  pub place : ℕ

-- `total`, and 1 for 0
abbrev pub divisor : ℤ → ℤ
divisor (pos zero) = pos 1
divisor (pos (suc n)) = pos (suc n)
divisor (negsuc n) = negsuc n

-- The division towards zero, for a divisor that is not 0
unfoldable pub quotient : ℤ → ℤ → ℤ
quotient a (pos n) = a /ℤ n
quotient a (negsuc n) = pos 0 -ℤ (a /ℤ suc n)

unfoldable pub add_scores : ℤ → List Wiz → ℤ
add_scores total [] = total
add_scores total (w ∷ l) = add_scores (total +ℤ w.score) l

-- `this_pos` of the first loop, which has counted `num`; in place of the pointer `this_wiz` its name
-- is looked for.
unfoldable pub position_from : ℕ → Chars → List Wiz → Option ℕ
position_from num name [] = none
position_from num name (w ∷ l) =
    if is_wiz name w then some (suc num) else position_from (suc num) name l

abbrev pub is_shown : Bool → ℕ → ℕ → Bool
is_shown all this_pos num =
    all || leb num 15 || not (ltb (num + 2) this_pos || ltb (this_pos + 2) num)

abbrev pub row : ℤ → ℕ → Wiz → Row
row total num w = record { wizard = w; share = quotient (w.score *ℤ pos 100) total; place = num }

unfoldable pub rows : Bool → ℤ → ℕ → ℕ → List Wiz → List Row
rows all total this_pos num [] = []
rows all total this_pos num (w ∷ l) =
    let rest = rows all total this_pos (num - 1) l in
    if is_shown all this_pos num then row total num w ∷ rest else rest

abbrev pub rows_around : Bool → ℤ → Option ℕ → List Wiz → List Row
rows_around all total none l = rows true total 0 (length l) l
rows_around all total (some p) l = rows all total (length l - p + 1) (length l) l

-- The lines, and the list, which has been sorted
unfoldable pub wizlist : Chars → List Wiz → List Row × List Wiz
wizlist name l =
    let sorted = rebuild_list l in
    (
      rows_around (str_eq name (codes "ALL")) (divisor (add_scores (pos 0) sorted))
          (position_from 0 name sorted) sorted,
      sorted,
    )
