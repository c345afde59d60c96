-- ===== src/Interp/Acyclic/Expressions.antt =====
-- print_expr of lpmud/interpret.c makes no vector that contains itself.
use lpmud_ng.Base.{
  ℕ, zero, suc, ◌+◌, ◌≡◌, sym, subst, ◌==◌, Bool, true, false, if◌then◌else◌, ltb, not, some,
}
use lpmud_ng.Base.Run.{ok}
use lpmud_ng.Value.{Value}
use lpmud_ng.Interp.State.{Node, State, max_cost, Evaluator, is_zero}
use lpmud_ng.Interp.Assign.{assign_element}
use lpmud_ng.Interp.Loops.{
  stopped, stop_destructed, end_continue, enter_loop, leave_loop, step_for, while_loop, do_loop,
  for_loop,
}
use lpmud_ng.Interp.Eval.{enter, print_expr}
use lpmud_ng.Interp.After.{Post-weaken, if-Post}
use lpmud_ng.Interp.Respect.{
  Relation, Respects, still, behind, after, then_do-Respects, stop_destructed-Steps,
}
use lpmud_ng.Interp.Respect.Expressions.{Jumps, evaluate-Respects}
use lpmud_ng.Interp.Acyclic.{IsAcyclic}
use lpmud_ng.Interp.Acyclic.Elements.{element-After}

-- If no vector contains itself before, then none behind it.
abbrev StaysAcyclic : State → State → Type 0
StaysAcyclic s t = IsAcyclic s.vectors → IsAcyclic t.vectors

same_vectors : (s t : State) → t.vectors ≡ s.vectors → StaysAcyclic s t
same_vectors s t e h = subst IsAcyclic (sym e) h

abbrev acyclic : Relation
acyclic = record {
  Steps = StaysAcyclic;
  Ready = λ s. IsAcyclic s.vectors;
  Stuck = Unit;
  calm = λ s t level flag l same. same_vectors s t same;
  elements = λ vec i v s h.
      Post-weaken Unit (λ t. IsAcyclic t.vectors) (StaysAcyclic s) (assign_element vec i v s)
        (λ t a b. a) (element-After vec i v s h);
  trans = λ s t u h k a. k (h a);
  keeps = λ s t h a. h a;
}

end_continue-Stays : (s : State) → StaysAcyclic s (end_continue s)
end_continue-Stays s = by_case (s.break_flag == 2)
  where
    by_case : (b : Bool) → StaysAcyclic s (if b then record s { break_flag = 0 } else s)
    by_case true h = h
    by_case false h = h

turned-Stays : (s : State) → StaysAcyclic s (stop_destructed (end_continue s))
turned-Stays s h = stop_destructed-Steps acyclic (end_continue s) (end_continue-Stays s h)

left : (s : State) → Respects acyclic s (leave_loop s)
left s h = h

module _ (ev : Evaluator)
    (h : (p : Node) (s : State) → IsAcyclic s.vectors → Respects acyclic s (ev p s)) where
  while_loop-Respects :
      (k : ℕ) (cond body : Node) (s : State)
      → IsAcyclic s.vectors
      → Respects acyclic s (while_loop k ev cond body s)
  unfolding while_loop
  while_loop-Respects zero cond body s r = tt
  while_loop-Respects (suc k) cond body s r =
      if-Post Unit (StaysAcyclic s) (stopped s) _ _ (λ e. left s)
        (λ e. after acyclic ev h cond s _ r (λ v t r1.
          if-Post Unit (StaysAcyclic t) (is_zero v) _ _ (λ z. left t)
            (λ z. after acyclic ev h body t _ r1 (λ w u r2.
              behind acyclic u (stop_destructed (end_continue u)) _ (turned-Stays u) (
                while_loop-Respects k cond body (stop_destructed (end_continue u))
                  (turned-Stays u r2))))))

  do_loop-Respects :
      (k : ℕ) (body cond : Node) (s : State)
      → IsAcyclic s.vectors
      → Respects acyclic s (do_loop k ev body cond s)
  unfolding do_loop
  do_loop-Respects zero body cond s r = tt
  do_loop-Respects (suc k) body cond s r =
      if-Post Unit (StaysAcyclic s) (stopped s) _ _ (λ e. left s)
        (λ e. after acyclic ev h body s _ r (λ w t r1.
          behind acyclic t (end_continue t) _ (end_continue-Stays t) (
            after acyclic ev h cond (end_continue t) _ (end_continue-Stays t r1) (λ v u r2.
              if-Post Unit (StaysAcyclic u) (is_zero v) _ _ (λ z. left u)
                (λ z. behind acyclic u (stop_destructed u) _ (stop_destructed-Steps acyclic u) (
                  do_loop-Respects k body cond (stop_destructed u)
                    (stop_destructed-Steps acyclic u r2)))))))

  step_for-Respects :
      (step : Node) (s : State) → IsAcyclic s.vectors → Respects acyclic s (step_for ev step s)
  step_for-Respects step s r =
      if-Post Unit (StaysAcyclic s) (s.break_flag == 0) _ _ (λ e. h step s r) (λ e. still acyclic s)

  for_loop-Respects :
      (k : ℕ) (cond step body : Node) (s : State)
      → IsAcyclic s.vectors
      → Respects acyclic s (for_loop k ev cond step body s)
  unfolding for_loop
  for_loop-Respects zero cond step body s r = tt
  for_loop-Respects (suc k) cond step body s r =
      if-Post Unit (StaysAcyclic s) (stopped s) _ _ (λ e. left s)
        (λ e. after acyclic ev h cond s _ r (λ v t r1.
          if-Post Unit (StaysAcyclic t) (is_zero v) _ _ (λ z. left t)
            (λ z. after acyclic ev h body t _ r1 (λ w u r2.
              behind acyclic u (end_continue u) _ (end_continue-Stays u) (
                then_do-Respects acyclic (end_continue u) (step_for ev step (end_continue u)) _
                  (step_for-Respects step (end_continue u) (end_continue-Stays u r2))
                  (λ x u1 d.
                    behind acyclic u1 (stop_destructed u1) _ (stop_destructed-Steps acyclic u1) (
                      for_loop-Respects k cond step body (stop_destructed u1)
                        (stop_destructed-Steps acyclic u1 (d (end_continue-Stays u r2))))))))))

  jumps : (n : ℕ) → Jumps acyclic ev h n
  jumps n = record {
    breaks =
        λ flag s r. if-Post Unit (StaysAcyclic s) (s.break_level == 0) _ _ (λ e. tt) (λ e a. a);
    whiles = λ a1 a2 s r. while_loop-Respects n a1 a2 (enter_loop s) r;
    dos = λ a1 a2 s r. do_loop-Respects n a1 a2 (enter_loop s) r;
    fors = λ a1 a2 a3 s r. for_loop-Respects n a1 a2 a3 (enter_loop s) r;
  }

print_expr-Respects :
    (n : ℕ) (p : Node) (s : State) → IsAcyclic s.vectors → Respects acyclic s (print_expr n p s)
unfolding print_expr enter
print_expr-Respects zero p s r = tt
print_expr-Respects (suc n) p s r =
    let h = print_expr-Respects n in
    if-Post Unit (StaysAcyclic s) (not (s.break_flag == 0)) _ _ (λ e. still acyclic s)
      (λ e.
        if-Post Unit (StaysAcyclic s) (ltb max_cost (s.eval_cost + 1)) _ _ (λ f. tt)
          (λ f.
            evaluate-Respects acyclic (print_expr n) h n (jumps (print_expr n) h n) p
              (record s { eval_cost = s.eval_cost + 1 }) r))

-- If no vector contains itself, through its items and theirs, and print_expr of any parse tree
-- returns, then no vector contains itself.
pub print_expr-IsAcyclic :
    (fuel : ℕ) (p : Node) (s : State) (r : Value × State)
    → IsAcyclic s.vectors
    → print_expr fuel p s ≡ some (ok r)
    → IsAcyclic r.1.vectors
print_expr-IsAcyclic fuel p s r h e =
    subst (Respects acyclic s) e (print_expr-Respects fuel p s h) h
