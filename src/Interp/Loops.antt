-- ===== src/Interp/Loops.antt =====
-- The lists of statements and the loops of print_expr (lpmud/interpret.c).
use lpmud_ng.Base.{ℕ, zero, suc, ◌+◌, ◌-◌, Bool, true, false, ◌==◌, if◌then◌else◌, not, ◌||◌, none}
use lpmud_ng.Value.{Value}
use lpmud_ng.Interp.Ops.{const0}
use lpmud_ng.Interp.State.{
  Node, f_return, Nodes, nil, cons, State, Outcome, Evaluator, return, then_do, is_zero,
}

abbrev pub stopped : State → Bool
stopped s = s.stop_function || not (s.break_flag == 0)

-- In an object that has been destructed the function is to stop.
abbrev pub stop_destructed : State → State
stop_destructed s =
    if s.destructed s.current_object
    then record s { return_value = const0; stop_function = true }
    else s

abbrev pub is_return : Node → Bool
is_return (f_return p) = true
is_return p = false

abbrev pub before_statement : Node → State → State
before_statement p s = if is_return p then s else stop_destructed s

-- The list of statements or expressions; `v` is the value of the one before.
unfoldable pub sequence : Evaluator → Nodes → Value → State → Outcome
sequence ev nil v s = return v s
sequence ev (cons p l) v s =
    let rest = then_do (ev p (before_statement p s)) (λ w t. sequence ev l w t) in
    if stopped s then return v s else rest

abbrev pub end_continue : State → State
end_continue s = if s.break_flag == 2 then record s { break_flag = 0 } else s

abbrev pub enter_loop : State → State
enter_loop s = record s { break_level = s.break_level + 1 }

abbrev pub leave_loop : State → Outcome
leave_loop s = return const0 (record s { break_flag = 0; break_level = s.break_level - 1 })

unfoldable pub while_loop : ℕ → Evaluator → Node → Node → State → Outcome
while_loop zero ev cond body s = none
while_loop (suc n) ev cond body s =
    let turn = then_do (ev cond s) (λ v t.
      let body_done =
        then_do (ev body t) (λ w u. while_loop n ev cond body (stop_destructed (end_continue u))) in
      if is_zero v then leave_loop t else body_done) in
    if stopped s then leave_loop s else turn

unfoldable pub do_loop : ℕ → Evaluator → Node → Node → State → Outcome
do_loop zero ev body cond s = none
do_loop (suc n) ev body cond s =
    let turn = then_do (ev body s) (λ w t. then_do (ev cond (end_continue t)) (λ v u.
      let more = do_loop n ev body cond (stop_destructed u) in
      if is_zero v then leave_loop u else more)) in
    if stopped s then leave_loop s else turn

-- `if(!break_flag) (void)print_expr(p->a2)`
abbrev pub step_for : Evaluator → Node → State → Outcome
step_for ev step s = if s.break_flag == 0 then ev step s else return const0 s

unfoldable pub for_loop : ℕ → Evaluator → Node → Node → Node → State → Outcome
for_loop zero ev cond step body s = none
for_loop (suc n) ev cond step body s =
    let turn = then_do (ev cond s) (λ v t.
      let body_done = then_do (ev body t) (λ w u.
        then_do (step_for ev step (end_continue u))
          (λ x u1. for_loop n ev cond step body (stop_destructed u1))) in
      if is_zero v then leave_loop t else body_done) in
    if stopped s then leave_loop s else turn
