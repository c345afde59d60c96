-- ===== src/Interp/Assign.antt =====
-- assign, assign_vec and check_for_recursion of lpmud/interpret.c.
use lpmud_ng.Base.{
  ℕ, zero, suc, ◌+◌, ◌==◌, leb, if◌then◌else◌, none, some, List, [], ◌∷◌, get_elem?,
}
use lpmud_ng.Base.Int.{pos}
use lpmud_ng.Base.Run.{Run, ok, error, fatal, undefined, ◌>>=◌}
use lpmud_ng.Value.{Value, number, string, pointer, object, assign_svalue}
use lpmud_ng.Interp.Ops.{const0}
use lpmud_ng.Interp.State.{
  Node, f_local_name, f_identifier, f_subscript, State, Outcome, Evaluator, return, fail, then_do,
}

unfoldable pub check_items : (ℕ → ℕ → Run ℕ) → List Value → ℕ → Run ℕ
check_items check [] cost = ok cost
check_items check (pointer w ∷ l) cost = check w cost >>= check_items check l
check_items check (number n ∷ l) cost = check_items check l cost
check_items check (string t ∷ l) cost = check_items check l cost
check_items check (object o ∷ l) cost = check_items check l cost

-- The new `eval_cost`. More calls than the stack holds are undefined.
unfoldable pub check_for_recursion : ℕ → (ℕ → List Value) → ℕ → ℕ → ℕ → Run ℕ
check_for_recursion zero vectors vec v cost = undefined
check_for_recursion (suc stack) vectors vec v cost =
    let rest = check_items (check_for_recursion stack vectors vec) (vectors v) (cost + 1) in
    if v == vec then error else rest

abbrev pub with_item : ℕ → Value → List Value → List Value
with_item i v [] = []
with_item zero v (x ∷ l) = v ∷ l
with_item (suc i) v (x ∷ l) = x ∷ with_item i v l

-- `assign_svalue(&vec->item[i], v)`, if there is such an item
unfoldable pub store_item : ℕ → Value → Value → State → Outcome
store_item vec (number (pos i)) v s = elim (get_elem? (s.vectors vec) i) [
  | none ↦ fail
  | some old ↦
      let r = assign_svalue old (some v) s.refs in
      return v (record s {
        vectors = λ w. if w == vec then with_item i r.0 (s.vectors vec) else s.vectors w;
        refs = r.1;
      })
]
store_item vec i v s = fail

abbrev pub with_cost : Run ℕ → State → Outcome
with_cost (ok cost) s = return const0 (record s { eval_cost = cost })
with_cost error s = fail
with_cost fatal s = some fatal
with_cost undefined s = some undefined

abbrev pub check_value : ℕ → Value → State → Outcome
check_value vec (pointer w) s =
    with_cost (check_for_recursion s.stack s.vectors vec w s.eval_cost) s
check_value vec v s = return const0 s

abbrev pub assign_element : Value → Value → Value → State → Outcome
assign_element (pointer vec) i v s = then_do (check_value vec v s) (λ x t. store_item vec i v t)
assign_element vec i v s = fail

unfoldable pub assign_vec : Evaluator → Node → Node → Value → State → Outcome
assign_vec ev a1 a2 v s =
    then_do (ev a2 s) (λ i t. then_do (ev a1 t) (λ vec u. assign_element vec i v u))

unfoldable pub assign : Evaluator → Node → Value → State → Outcome
assign ev (f_subscript a1 a2) v s = assign_vec ev a1 a2 v s
assign ev (f_local_name i) v s =
    return v (record s { locals = λ j. if j == i then v else s.locals j })
assign ev (f_identifier i) v s =
    let r = assign_svalue (s.variables i) (some v) s.refs in
    if leb s.num_variables i
    then some fatal
    else return v (record s { variables = λ j. if j == i then r.0 else s.variables j; refs = r.1 })
assign ev p v s = fail
