-- ===== src/Interp/Calm.antt =====
-- An assignment to an element of a vector (assign_vec of lpmud/interpret.c) leaves the breaks as they
-- are, and counts what its check for recursion costs.
use lpmud_ng.Base.{
  ℕ, zero, suc, ◌+◌, ◌≤◌, ◌≡◌, refl, ◌∙◌, ◌==◌, if◌then◌else◌, Option, none, some, List, [], ◌∷◌,
  get_elem?, arith,
}
use lpmud_ng.Base.Int.{pos, negsuc}
use lpmud_ng.Base.Run.{Run, ok, error, fatal, undefined, ◌>>=◌}
use lpmud_ng.Value.{Value, number, string, pointer, object, assign_svalue}
use lpmud_ng.Interp.State.{State, return, fail}
use lpmud_ng.Interp.Assign.{
  with_item, check_items, check_for_recursion, store_item, with_cost, check_value, assign_element,
}
use lpmud_ng.Interp.After.{Post, then_do-Post, Post-weaken}

-- The breaks are as before, and the cost is not less.
pub record IsCalm (s t : State) : Type 0 where
  pub level : t.break_level ≡ s.break_level
  pub flag : t.break_flag ≡ s.break_flag
  pub cost : s.eval_cost ≤ t.eval_cost

-- What a check for recursion has cost
abbrev CostFrom : ℕ → Run ℕ → Type 0
CostFrom c (ok d) = c ≤ d
CostFrom c error = Unit
CostFrom c fatal = Unit
CostFrom c undefined = Unit

bind-CostFrom :
    (c d : ℕ) (m : Run ℕ) (k : ℕ → Run ℕ)
    → CostFrom c m
    → ((e : ℕ) → c ≤ e → CostFrom d (k e))
    → CostFrom d (m >>= k)
bind-CostFrom c d (ok e) k h g = g e h
bind-CostFrom c d error k h g = h
bind-CostFrom c d fatal k h g = h
bind-CostFrom c d undefined k h g = h

check_items-CostFrom :
    (check : ℕ → ℕ → Run ℕ) (l : List Value) (c d : ℕ)
    → ((w e : ℕ) → CostFrom e (check w e))
    → d ≤ c
    → CostFrom d (check_items check l c)
unfolding check_items
check_items-CostFrom check [] c d h l = l
check_items-CostFrom check (number n ∷ r) c d h l = check_items-CostFrom check r c d h l
check_items-CostFrom check (string t ∷ r) c d h l = check_items-CostFrom check r c d h l
check_items-CostFrom check (object o ∷ r) c d h l = check_items-CostFrom check r c d h l
check_items-CostFrom check (pointer w ∷ r) c d h l =
    bind-CostFrom c d (check w c) (check_items check r) (h w c)
      (λ e g. check_items-CostFrom check r e d h (omega (arith, l, g)))

check_for_recursion-CostFrom :
    (stack : ℕ) (vectors : ℕ → List Value) (vec v c : ℕ)
    → CostFrom c (check_for_recursion stack vectors vec v c)
unfolding check_for_recursion
check_for_recursion-CostFrom zero vectors vec v c = tt
check_for_recursion-CostFrom (suc stack) vectors vec v c = ground (
  arith,
  check_items-CostFrom (check_for_recursion stack vectors vec) (vectors v) (c + 1) c
      (check_for_recursion-CostFrom stack vectors vec) (omega arith),
)

with_cost-IsCalm :
    (N : Type 0) (m : Run ℕ) (s : State)
    → CostFrom s.eval_cost m
    → Post N (IsCalm s) (with_cost m s)
with_cost-IsCalm N (ok c) s h = record { level = refl; flag = refl; cost = h }
with_cost-IsCalm N error s h = tt
with_cost-IsCalm N fatal s h = tt
with_cost-IsCalm N undefined s h = tt

IsCalm-refl : (s : State) → IsCalm s s
IsCalm-refl s = record { level = refl; flag = refl; cost = omega arith }

check_value-IsCalm :
    (N : Type 0) (vec : ℕ) (v : Value) (s : State) → Post N (IsCalm s) (check_value vec v s)
check_value-IsCalm N vec (pointer w) s =
    with_cost-IsCalm N (check_for_recursion s.stack s.vectors vec w s.eval_cost) s
      (check_for_recursion-CostFrom s.stack s.vectors vec w s.eval_cost)
check_value-IsCalm N vec (number n) s = IsCalm-refl s
check_value-IsCalm N vec (string t) s = IsCalm-refl s
check_value-IsCalm N vec (object o) s = IsCalm-refl s

store_item-IsCalm :
    (N : Type 0) (vec : ℕ) (i v : Value) (s : State) → Post N (IsCalm s) (store_item vec i v s)
unfolding store_item
store_item-IsCalm N vec (number (pos i)) v s = found (get_elem? (s.vectors vec) i)
  where
    found :
        (o : Option Value)
        → Post N (IsCalm s) (elim o [
          | none ↦ fail
          | some old ↦
              let r = assign_svalue old (some v) s.refs in
              return v (record s {
                vectors = λ w. if w == vec then with_item i r.0 (s.vectors vec) else s.vectors w;
                refs = r.1;
              })
        ])
    found none = tt
    found (some old) = record { level = refl; flag = refl; cost = omega arith }
store_item-IsCalm N vec (number (negsuc i)) v s = tt
store_item-IsCalm N vec (string t) v s = tt
store_item-IsCalm N vec (pointer w) v s = tt
store_item-IsCalm N vec (object o) v s = tt

pub assign_element-IsCalm :
    (N : Type 0) (vec i v : Value) (s : State) → Post N (IsCalm s) (assign_element vec i v s)
assign_element-IsCalm N (pointer vec) i v s =
    then_do-Post N N (IsCalm s) (IsCalm s) (check_value vec v s) (λ x t. store_item vec i v t)
      (λ n. n) (check_value-IsCalm N vec v s)
      (λ x t e.
        Post-weaken N (IsCalm t) (IsCalm s) (store_item vec i v t)
          (λ u d. record {
            level = d.level ∙ e.level;
            flag = d.flag ∙ e.flag;
            cost = omega (arith, d.cost, e.cost);
          })
          (store_item-IsCalm N vec i v t))
assign_element-IsCalm N (number n) i v s = tt
assign_element-IsCalm N (string t) i v s = tt
assign_element-IsCalm N (object o) i v s = tt
