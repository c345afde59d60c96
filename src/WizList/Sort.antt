-- ===== src/WizList/Sort.antt =====
-- rebuild_list sorts the wizards by their score, and loses none.
use mathlib.Core.List.{Perm, perm_middle, append-nil}
use mathlib.Core.List.Perm
use lpmud_ng.Base.{List, [], ◌∷◌, ◌++◌, arith, inl, inr, Bool-cases}
use lpmud_ng.Base.Int.{ℤ, ◌≤ℤ◌, ltb_ℤ}
use lpmud_ng.WizList.{Wiz, insert, rebuild_from, rebuild_list}

-- No entry of the list has a score below `b`, or below that of the entry before it.
abbrev pub IsSortedFrom : ℤ → List Wiz → Type 0
IsSortedFrom b [] = Unit
IsSortedFrom b (w ∷ l) = (b ≤ℤ w.score) × IsSortedFrom w.score l

abbrev pub IsSorted : List Wiz → Type 0
IsSorted [] = Unit
IsSorted (w ∷ l) = IsSortedFrom w.score l

insert-IsSortedFrom :
    (b : ℤ) (w : Wiz) (l : List Wiz) → b ≤ℤ w.score → IsSortedFrom b l → IsSortedFrom b (insert w l)
unfolding insert
insert-IsSortedFrom b w [] h s = (h, tt)
insert-IsSortedFrom b w (x ∷ l) h s = elim (Bool-cases (ltb_ℤ x.score w.score)) [
  | inl less ↦ rw less (s.0, insert-IsSortedFrom x.score w l (ground arith) s.1)
  | inr rest ↦ rw rest (h, (ground arith, s.1))
]

insert-IsSorted : (w : Wiz) (l : List Wiz) → IsSorted l → IsSorted (insert w l)
unfolding insert
insert-IsSorted w [] s = tt
insert-IsSorted w (x ∷ l) s = elim (Bool-cases (ltb_ℤ x.score w.score)) [
  | inl less ↦ rw less (insert-IsSortedFrom x.score w l (ground arith) s)
  | inr rest ↦ rw rest (ground arith, s)
]

insert-perm : (w : Wiz) (l : List Wiz) → Perm (insert w l) (w ∷ l)
unfolding insert
insert-perm w [] = Perm.refl _
insert-perm w (x ∷ l) = elim (Bool-cases (ltb_ℤ x.score w.score)) [
  | inl less ↦ rw less (Perm.trans (Perm.cons x (insert-perm w l)) (Perm.swap w x l))
  | inr rest ↦ rw rest (Perm.refl _)
]

rebuild_from-IsSorted : (n l : List Wiz) → IsSorted n → IsSorted (rebuild_from n l)
unfolding rebuild_from
rebuild_from-IsSorted n [] s = s
rebuild_from-IsSorted n (w ∷ l) s = rebuild_from-IsSorted (insert w n) l (insert-IsSorted w n s)

rebuild_from-perm : (n l : List Wiz) → Perm (rebuild_from n l) (n ++ l)
unfolding rebuild_from
rebuild_from-perm n [] = rw append-nil (Perm.refl _)
rebuild_from-perm n (w ∷ l) =
    Perm.trans (rebuild_from-perm (insert w n) l)
      (Perm.trans (Perm.append (insert-perm w n) (Perm.refl l)) (Perm.symm (perm_middle n l)))

-- rebuild_list leaves the same wizards, in ascending order of their scores.
pub rebuild_list_sorts : (l : List Wiz) → IsSorted (rebuild_list l) × Perm (rebuild_list l) l
unfolding rebuild_list
rebuild_list_sorts l = (rebuild_from-IsSorted [] l tt, rebuild_from-perm [] l)
