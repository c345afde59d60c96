-- ===== src/Interp/Acyclic/Elements.antt =====
-- Assignments to elements of vectors (assign_vec of lpmud/interpret.c) and the vectors that they leave.
use lpmud_ng.Base.{
  ℕ, ◌≡◌, refl, sym, subst, ◌==◌, if◌then◌else◌, Option, none, some, get_elem?, arith,
}
use lpmud_ng.Base.Int.{pos}
use lpmud_ng.Base.Run.{Run, ok, error, fatal, undefined}
use lpmud_ng.Value.{Value, number, string, pointer, object, assign_svalue}
use lpmud_ng.Interp.State.{State, return, fail}
use lpmud_ng.Interp.Assign.{
  check_for_recursion, with_item, store_item, with_cost, check_value, assign_element,
}
use lpmud_ng.Interp.After.{After, then_do-Post}
use lpmud_ng.Interp.Acyclic.{PathIn, IsAcyclic, checked_path, changed-IsAcyclic}

-- The vectors are the same, and the value does not lead to `vec`.
record IsFree (vec : ℕ) (v : Value) (s t : State) : Type 0 where
  same : t.vectors ≡ s.vectors
  free : (w : ℕ) → v ≡ pointer w → PathIn s.vectors w vec → ⊥

check_value-IsFree :
    (vec : ℕ) (v : Value) (s : State) → After (IsFree vec v s) (check_value vec v s)
check_value-IsFree vec (pointer w) s =
    checked (check_for_recursion s.stack s.vectors vec w s.eval_cost) refl
  where
    address : Value → ℕ
    address (pointer v) = v
    address _ = 0

    checked :
        (m : Run ℕ)
        → check_for_recursion s.stack s.vectors vec w s.eval_cost ≡ m
        → After (IsFree vec (pointer w) s) (with_cost m s)
    checked (ok c) e = record {
      same = refl;
      free = λ u q p.
          checked_path s.stack s.vectors vec w s.eval_cost c e
            (subst (λ x. PathIn s.vectors x vec) (sym (injective u q)) p);
    }
      where
        injective : (u : ℕ) → pointer w ≡ pointer u → w ≡ u
        injective u q = cc
    checked error e = ground arith
    checked fatal e = ground arith
    checked undefined e = ground arith
check_value-IsFree vec (number n) s = record { same = refl; free = λ w e p. not_one w e }
  where
    not_one : (w : ℕ) → number n ≡ pointer w → ⊥
    not_one w e = cc
check_value-IsFree vec (string t) s = record { same = refl; free = λ w e p. not_one w e }
  where
    not_one : (w : ℕ) → string t ≡ pointer w → ⊥
    not_one w e = cc
check_value-IsFree vec (object o) s = record { same = refl; free = λ w e p. not_one w e }
  where
    not_one : (w : ℕ) → object o ≡ pointer w → ⊥
    not_one w e = cc

store_item-IsAcyclic :
    (vec : ℕ) (i v : Value) (s : State)
    → IsAcyclic s.vectors
    → ((w : ℕ) → v ≡ pointer w → PathIn s.vectors w vec → ⊥)
    → After (λ t. IsAcyclic t.vectors) (store_item vec i v s)
unfolding store_item assign_svalue
store_item-IsAcyclic vec (number (pos i)) v s h free = found (get_elem? (s.vectors vec) i)
  where
    found :
        (o : Option Value)
        → After
            (λ t. IsAcyclic t.vectors)
            (elim o [
              | none ↦ fail
              | some old ↦
                  let r = assign_svalue old (some v) s.refs in
                  return v (record s {
                    vectors =
                        λ w. if w == vec then with_item i r.0 (s.vectors vec) else s.vectors w;
                    refs = r.1;
                  })
            ])
    found none = ground arith
    found (some old) = changed-IsAcyclic s.vectors vec i v h free
store_item-IsAcyclic vec i v s h free = ground arith

pub element-After :
    (vec i v : Value) (s : State)
    → IsAcyclic s.vectors
    → After (λ t. IsAcyclic t.vectors) (assign_element vec i v s)
element-After (pointer vec) i v s h =
    then_do-Post Unit Unit (IsFree vec v s) (λ t. IsAcyclic t.vectors) (check_value vec v s)
      (λ x t. store_item vec i v t) (λ n. n) (check_value-IsFree vec v s)
      (λ x t f.
        store_item-IsAcyclic vec i v t (subst IsAcyclic (sym f.same) h)
          (λ w e p. f.free w e (subst (λ u. PathIn u w vec) f.same p)))
element-After (number n) i v s h = ground arith
element-After (string t) i v s h = ground arith
element-After (object o) i v s h = ground arith

-- If no vector contains itself, through its items and theirs, and an assignment to an element
-- returns, then no vector contains itself.
pub assign_element-IsAcyclic :
    (vec i v : Value) (s : State) (r : Value × State)
    → IsAcyclic s.vectors
    → assign_element vec i v s ≡ some (ok r)
    → IsAcyclic r.1.vectors
assign_element-IsAcyclic vec i v s r h e =
    subst (After (λ t. IsAcyclic t.vectors)) e (element-After vec i v s h)
