-- ===== src/Interp/Eval.antt =====
-- print_expr of lpmud/interpret.c on parse trees.
use lpmud_ng.Base.{
  ℕ, zero, suc, ◌+◌, ◌-◌, Bool, true, false, ◌==◌, ltb, leb, if◌then◌else◌, not, ◌||◌, none, some,
  get_elem?,
}
use lpmud_ng.Base.Int.{ℤ, pos, negsuc, ◌+ℤ◌, ◌-ℤ◌}
use lpmud_ng.Base.Run.{Run, ok, error, fatal}
use lpmud_ng.Value.{Value, number, string, pointer}
use lpmud_ng.Interp.Ops.{Assigner, const0, of_bool, make_number, binary, binary_eq}
use lpmud_ng.Interp.State.{
  Node, null, f_break, f_continue, f_number, f_string, f_local_name, f_identifier, f_binary,
  f_op_eq, f_land, f_lor, f_assign, f_subscript, f_while, f_do, f_not, f_compl, f_negate, f_inc,
  f_dec, f_post_inc, f_post_dec, f_return, f_if, f_for, f_block, f_comma, State, max_cost, Outcome,
  Evaluator, return, fail, then_do, is_add, lift, is_zero, is_number, copy_svalue, shown,
}
use lpmud_ng.Interp.Assign.{assign}
use lpmud_ng.Interp.Loops.{sequence, enter_loop, while_loop, do_loop, for_loop}

abbrev pub counted : (ℤ → ℤ) → Value → Run Value
counted f (number n) = make_number (f n)
counted f v = error

-- `++` and `--` before an expression give the new value, those behind it the old one.
unfoldable pub count : Evaluator → (ℤ → ℤ) → Bool → Node → State → Outcome
count ev f before p s = then_do (ev p s) (λ v t.
    then_do (lift (counted f v) t)
      (λ new t1. then_do (assign ev p new t1) (λ w u. return (if before then new else v) u)))

abbrev pub char_value : ℕ → ℤ
char_value c = if ltb c 128 then pos c else negsuc (255 - c)

unfoldable pub subscript : Value → Value → State → Outcome
subscript (pointer vec) (number (pos i)) s = elim (get_elem? (s.vectors vec) i) [
  | none ↦ fail
  | some v ↦ copy_svalue v s
]
subscript (string t) (number (pos i)) s = elim (get_elem? t i) [
  | none ↦ return const0 s
  | some c ↦ return (number (char_value c)) s
]
subscript (string t) (number (negsuc i)) s = return const0 s
subscript v i s = fail

-- The right-hand side is computed first, and is a number unless the operator is `+=`.
unfoldable pub op_eq : Evaluator → Assigner → Node → Node → State → Outcome
op_eq ev o a1 a2 s = then_do (ev a2 s) (λ arg t.
    let rest =
      then_do (ev a1 t)
        (λ v u. then_do (lift (binary_eq o v arg) u) (λ new u1. assign ev a1 new u1)) in
    if is_add o || is_number arg then rest else fail)

unfoldable pub compl : Value → Run Value
compl (number (pos n)) = ok (number (negsuc n))
compl (number (negsuc n)) = ok (number (pos n))
compl v = error

unfoldable pub negate : Value → Run Value
negate (number n) = make_number (pos 0 -ℤ n)
negate v = error

abbrev pub is_null : Node → Bool
is_null null = true
is_null p = false

unfoldable pub return_expr : Evaluator → Node → State → Outcome
return_expr ev p s =
    let value = if is_null p then return const0 s else ev p s in
    then_do value (λ v t. return const0 (record t { return_value = v; stop_function = true }))

abbrev pub break_with : ℕ → State → Outcome
break_with flag s =
    if s.break_level == 0 then fail else return const0 (record s { break_flag = flag })

unfoldable pub if_expr : Evaluator → Value → Node → Node → State → Outcome
if_expr ev v a2 a3 s =
    let yes = then_do (ev a2 s) (λ w t. return const0 t) in
    let no = then_do (ev a3 s) (λ w t. return const0 t) in
    if not (is_zero v) then yes else if is_null a3 then return const0 s else no

-- `&&` and `||`, which need not compute their second operand
unfoldable pub land : Evaluator → Node → Node → State → Outcome
land ev a1 a2 s = then_do (ev a1 s) (λ v t.
    let rest = then_do (ev a2 t) (λ w u. return (of_bool (not (is_zero w))) u) in
    if is_zero v then return const0 t else rest)

unfoldable pub lor : Evaluator → Node → Node → State → Outcome
lor ev a1 a2 s = then_do (ev a1 s) (λ v t.
    let rest = then_do (ev a2 t) (λ w u. return (if is_zero w then const0 else w) u) in
    if is_zero v then rest else return v t)

-- The switch of print_expr: `n` bounds the turns of a loop, and `ev` is print_expr.
unfoldable pub evaluate : ℕ → Evaluator → Node → State → Outcome
evaluate n ev null s = return const0 s
evaluate n ev (f_number i) s = return (number i) s
evaluate n ev (f_string t) s = return (string t) s
evaluate n ev (f_local_name i) s = return (shown s.destructed (s.locals i)) s
evaluate n ev (f_identifier i) s =
    if leb s.num_variables i then some fatal else copy_svalue (s.variables i) s
evaluate n ev (f_binary o a1 a2) s =
    then_do (ev a1 s) (λ v t. then_do (ev a2 t) (λ w u. lift (binary o v w) u))
evaluate n ev (f_op_eq o a1 a2) s = op_eq ev o a1 a2 s
evaluate n ev (f_land a1 a2) s = land ev a1 a2 s
evaluate n ev (f_lor a1 a2) s = lor ev a1 a2 s
evaluate n ev (f_assign a1 a2) s = then_do (ev a2 s) (λ v t. assign ev a1 v t)
evaluate n ev (f_subscript a1 a2) s =
    then_do (ev a1 s) (λ v t. then_do (ev a2 t) (λ i u. subscript v i u))
evaluate n ev (f_not a1) s = then_do (ev a1 s) (λ v t. return (of_bool (is_zero v)) t)
evaluate n ev (f_compl a1) s = then_do (ev a1 s) (λ v t. lift (compl v) t)
evaluate n ev (f_negate a1) s = then_do (ev a1 s) (λ v t. lift (negate v) t)
evaluate n ev (f_inc a1) s = count ev (λ i. i +ℤ pos 1) true a1 s
evaluate n ev (f_dec a1) s = count ev (λ i. i -ℤ pos 1) true a1 s
evaluate n ev (f_post_inc a1) s = count ev (λ i. i +ℤ pos 1) false a1 s
evaluate n ev (f_post_dec a1) s = count ev (λ i. i -ℤ pos 1) false a1 s
evaluate n ev (f_if a1 a2 a3) s = then_do (ev a1 s) (λ v t. if_expr ev v a2 a3 t)
evaluate n ev (f_return a1) s = return_expr ev a1 s
evaluate n ev f_break s = break_with 1 s
evaluate n ev f_continue s = break_with 2 s
evaluate n ev (f_block l) s = then_do (sequence ev l const0 s) (λ v t. return const0 t)
evaluate n ev (f_comma l) s = sequence ev l const0 s
evaluate n ev (f_while a1 a2) s = while_loop n ev a1 a2 (enter_loop s)
evaluate n ev (f_do a1 a2) s = do_loop n ev a1 a2 (enter_loop s)
evaluate n ev (f_for a1 a2 a3) s = for_loop n ev a1 a2 a3 (enter_loop s)

-- The tests and the count in front of the switch
unfoldable pub enter : (State → Outcome) → State → Outcome
enter k s =
    let rest = k (record s { eval_cost = s.eval_cost + 1 }) in
    if not (s.break_flag == 0)
    then return const0 s
    else if ltb max_cost (s.eval_cost + 1)
    then fail
    else rest

unfoldable pub print_expr : ℕ → Evaluator
print_expr zero p s = none
print_expr (suc n) p s = enter (evaluate n (print_expr n) p) s
