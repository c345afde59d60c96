-- ===== src/Interp/Nesting/Expressions.antt =====
-- break and continue of print_expr (lpmud/interpret.c) stay inside their loop.
use lpmud_ng.Base.{ℕ, zero, suc, ◌+◌, ◌≡◌, refl, subst, ◌==◌, ltb, not, some, inr, arith}
use lpmud_ng.Base.Run.{ok}
use lpmud_ng.Value.{Value}
use lpmud_ng.Interp.State.{Node, State, max_cost, Outcome, Evaluator}
use lpmud_ng.Interp.Loops.{enter_loop, while_loop, do_loop, for_loop}
use lpmud_ng.Interp.Eval.{break_with, enter, print_expr}
use lpmud_ng.Interp.After.{Post-weaken, if-Post}
use lpmud_ng.Interp.Respect.{Respects, still}
use lpmud_ng.Interp.Respect.Expressions.{Jumps, evaluate-Respects}
use lpmud_ng.Interp.Nesting.{IsNested, nesting}
use lpmud_ng.Interp.Nesting.Loops.{while_loop-Left, do_loop-Left, for_loop-Left, loop-Nested}

break_with-Nested : (flag : ℕ) (s : State) → Respects nesting s (break_with flag s)
break_with-Nested flag s =
    if-Post Unit (IsNested s) (s.break_level == 0) _ _ (λ e. tt)
      (λ e. record { level = refl; waits = λ w. inr (ground (arith, e)) })

module _ (n : ℕ) (ev : Evaluator) (h : (p : Node) (s : State) → Respects nesting s (ev p s)) where
  jumps : Jumps nesting ev (λ p s r. h p s) n
  jumps = record {
    breaks = λ flag s r. break_with-Nested flag s;
    whiles = λ a1 a2 s r.
        loop-Nested s (while_loop n ev a1 a2 (enter_loop s))
          (while_loop-Left ev h n a1 a2 (enter_loop s));
    dos = λ a1 a2 s r.
        loop-Nested s (do_loop n ev a1 a2 (enter_loop s))
          (do_loop-Left ev h n a1 a2 (enter_loop s));
    fors = λ a1 a2 a3 s r.
        loop-Nested s (for_loop n ev a1 a2 a3 (enter_loop s))
          (for_loop-Left ev h n a1 a2 a3 (enter_loop s));
  }

counted_call :
    (s : State) (o : Outcome)
    → Respects nesting (record s { eval_cost = s.eval_cost + 1 }) o
    → Respects nesting s o
counted_call s o =
    Post-weaken Unit (IsNested (record s { eval_cost = s.eval_cost + 1 })) (IsNested s) o
      (λ t k. record { level = k.level; waits = k.waits })

print_expr-Nested : (n : ℕ) (p : Node) (s : State) → Respects nesting s (print_expr n p s)
unfolding print_expr enter
print_expr-Nested zero p s = tt
print_expr-Nested (suc n) p s =
    let h = print_expr-Nested n in
    if-Post Unit (IsNested s) (not (s.break_flag == 0)) _ _ (λ e. still nesting s)
      (λ e.
        if-Post Unit (IsNested s) (ltb max_cost (s.eval_cost + 1)) _ _ (λ f. tt)
          (λ f. counted_call s _ (
            evaluate-Respects nesting (print_expr n) (λ q t r. h q t) n (jumps n (print_expr n) h) p
              (record s { eval_cost = s.eval_cost + 1 }) tt)))

-- If print_expr returns, break_level is what it was, and if before the call a break or continue
-- could wait only inside a loop, then so it is behind it.
pub print_expr-IsNested :
    (fuel : ℕ) (p : Node) (s : State) (r : Value × State)
    → print_expr fuel p s ≡ some (ok r)
    → IsNested s r.1
print_expr-IsNested fuel p s r e = subst (Respects nesting s) e (print_expr-Nested fuel p s)
