-- ===== src/WizList/Places.antt =====
-- Who is shown by wizlist, and at which place.
use lpmud_ng.Base.{
  ℕ, suc, ◌+◌, ◌-◌, ◌≡◌, sym, subst, ap, ◌∙◌, Bool, true, false, if◌then◌else◌, Bool-cases, inl,
  inr, Option, some, List, [], ◌∷◌, ◌++◌, length, length-append, arith,
}
use mathlib.Core.List.{Perm, Mem, mem-cons_self, mem-cons_of_mem}
use lpmud_ng.Base.Int.{ℤ, pos}
use lpmud_ng.Base.Text.{Chars, codes, str_eq}
use lpmud_ng.WizList.{Wiz, is_wiz, find_wiz, rebuild_list}
use lpmud_ng.WizList.Sort.{IsSorted, rebuild_list_sorts}
use lpmud_ng.WizList.Ranking.{
  Row, row, divisor, add_scores, position_from, is_shown, rows, rows_around, wizlist,
}

-- The list around the first wizard of a name
abbrev At : ℕ → Chars → List Wiz → Wiz → Type 0
At num name l w =
    (before behind : List Wiz) × (l ≡ before ++ (w ∷ behind))
    × (position_from num name l ≡ some (suc (num + length before)))

position_lem :
    (num : ℕ) (name : Chars) (l : List Wiz) (w : Wiz) → find_wiz name l ≡ some w → At num name l w
unfolding find_wiz position_from
position_lem num name [] w e = cc
position_lem num name (x ∷ l) w e = elim (Bool-cases (is_wiz name x)) [
  | inl h ↦ ([], l, ground (arith, h, e), ground (arith, h))
  | inr h ↦ behind_other h (position_lem (suc num) name l w (ground (arith, h, e)))
]
  where
    behind_other : is_wiz name x ≡ false → At (suc num) name l w → At num name (x ∷ l) w
    behind_other h (before, behind, split, place) =
        (x ∷ before, behind, ap (λ k. x ∷ k) split, ground (arith, h, place))

mem_behind : (b : Bool) (r x : Row) (l : List Row) → Mem r l → Mem r (if b then x ∷ l else l)
mem_behind true r x l h = mem-cons_of_mem x h
mem_behind false r x l h = h

mem_first : (b : Bool) (r : Row) (l : List Row) → b ≡ true → Mem r (if b then r ∷ l else l)
mem_first true r l e = mem-cons_self
mem_first false r l e = cc

-- The line of a wizard is shown if his place is the one that is looked for.
rows_own :
    (all : Bool) (total : ℤ) (before behind : List Wiz) (w : Wiz)
    → let place = suc (length behind) in
      Mem
        (row total place w)
        (rows all total place (length (before ++ (w ∷ behind))) (before ++ (w ∷ behind)))
unfolding rows
rows_own all total [] behind w =
    mem_first (is_shown all n n) (row total n w) (rows all total n (n - 1) behind) (ground arith)
  where
    n : ℕ
    n = suc (length behind)
rows_own all total (x ∷ before) behind w =
    mem_behind (is_shown all (suc (length behind)) n) (row total (suc (length behind)) w)
      (row total n x) (rows all total (suc (length behind)) (n - 1) (before ++ (w ∷ behind)))
      (subst
        (λ k.
          Mem (row total (suc (length behind)) w)
            (rows all total (suc (length behind)) k (before ++ (w ∷ behind))))
        (omega arith) (rows_own all total before behind w))
  where
    n : ℕ
    n = suc (length (before ++ (w ∷ behind)))

around_own :
    (all : Bool) (total : ℤ) (place : Option ℕ) (l before behind : List Wiz) (w : Wiz)
    → l ≡ before ++ (w ∷ behind)
    → place ≡ some (suc (length before))
    → Mem (row total (suc (length behind)) w) (rows_around all total place l)
around_own all total place l before behind w split e =
    subst (λ k. Mem r (rows_around all total place k)) (sym split)
      (subst (λ o. Mem r (rows_around all total o parts)) (sym e)
        (subst (λ k. Mem r (rows all total k (length parts) parts))
          (omega (arith, length-append before (w ∷ behind))) (rows_own all total before behind w)))
  where
    r : Row
    r = row total (suc (length behind)) w

    parts : List Wiz
    parts = before ++ (w ∷ behind)

-- What a share is taken of
abbrev pub total_of : List Wiz → ℤ
total_of l = divisor (add_scores (pos 0) (rebuild_list l))

-- A line for the wizard `w`, whose place is one behind those that follow him in the list
abbrev pub IsShown : List Row → List Wiz → ℤ → Wiz → Type 0
IsShown shown sorted total w =
    (before behind : List Wiz) × (sorted ≡ before ++ (w ∷ behind))
    × Mem (row total (suc (length behind)) w) shown

-- wizlist leaves the same wizards, in ascending order of their scores, and the wizard of the name
-- that it is called for, if there is one in the list, is shown in a line with his share and his
-- place, which is one more than the number of wizards behind him in the list.
pub wizlist_shows :
    (name : Chars) (l : List Wiz) (w : Wiz)
    → find_wiz name (rebuild_list l) ≡ some w
    → let (shown, sorted) = wizlist name l in
      IsSorted sorted × Perm sorted l × IsShown shown sorted (total_of l) w
unfolding wizlist
wizlist_shows name l w e =
    let (before, behind, split, place) = position_lem 0 name (rebuild_list l) w e in
    let (sorted, same) = rebuild_list_sorts l in
    (
      sorted,
      same,
      (
        before,
        behind,
        split,
        around_own (str_eq name (codes "ALL")) (total_of l) _ (rebuild_list l) before behind w split
            (place ∙ ap some (omega arith)),
      ),
    )
