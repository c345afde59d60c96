-- ===== src/Interp/Ends/Expressions.antt =====
-- print_expr of lpmud/interpret.c ends, by the limit on eval_cost.
use lpmud_ng.Base.{
  ℕ, zero, suc, ◌+◌, ◌-◌, ◌≤◌, ◌<◌, ◌≡◌, refl, sym, subst, Bool, true, false, ◌==◌, ltb,
  if◌then◌else◌, not, none, some, arith,
}
use lpmud_ng.Base.Run.{Run, ok, error, fatal, undefined}
use lpmud_ng.Value.{Value}
use lpmud_ng.Interp.Ops.{const0}
use lpmud_ng.Interp.State.{Node, State, max_cost, Outcome, Evaluator, return, fail}
use lpmud_ng.Interp.Loops.{enter_loop}
use lpmud_ng.Interp.Eval.{evaluate, enter, print_expr}
use lpmud_ng.Interp.Respect.Expressions.{Jumps, evaluate-Respects}
use lpmud_ng.Interp.Ends.{Ends, Advances, weaken, if-Ends, cost, IsCounted}
use lpmud_ng.Interp.Ends.Loops.{while_loop-Ends, do_loop-Ends, for_loop-Ends}

module _ (n : ℕ) (ev : Evaluator) (h : IsCounted n ev) where
  jumps : Jumps (cost n) ev h.ends n
  jumps = record {
    breaks = λ flag s l. if-Ends s.eval_cost (s.break_level == 0) _ _ (λ e. tt) (λ e. omega arith);
    whiles = λ a1 a2 s l. while_loop-Ends n n ev a1 a2 (enter_loop s) h l l;
    dos = λ a1 a2 s l. do_loop-Ends n n ev a1 a2 (enter_loop s) h l l;
    fors = λ a1 a2 a3 s l. for_loop-Ends n n ev a1 a2 a3 (enter_loop s) h l l;
  }

  evaluate-Ends :
      (p : Node) (s : State) → max_cost - s.eval_cost < n → Ends s.eval_cost (evaluate n ev p s)
  evaluate-Ends = evaluate-Respects (cost n) ev h.ends n jumps

enter-Ends :
    (k : State → Outcome) (s : State)
    → (s.eval_cost < max_cost
        → Ends (s.eval_cost + 1) (k (record s { eval_cost = s.eval_cost + 1 })))
    → Ends s.eval_cost (enter k s)
unfolding enter
enter-Ends k s h =
    if-Ends s.eval_cost (not (s.break_flag == 0)) _ _ (λ e. omega arith)
      (λ e.
        if-Ends s.eval_cost (ltb max_cost (s.eval_cost + 1)) _ _ (λ f. ground arith)
          (λ f. weaken _ (s.eval_cost + 1) s.eval_cost (omega arith) (h (ground (arith, f)))))

advance : (c : ℕ) (o : Outcome) → c < max_cost → Ends (c + 1) o → Advances c o
advance c none l h = h
advance c (some (ok r)) l h = (omega (arith, h), l)
advance c (some error) l h = h
advance c (some fatal) l h = h
advance c (some undefined) l h = h

enter-Advances :
    (k : State → Outcome) (s : State)
    → s.break_flag ≡ 0
    → (s.eval_cost < max_cost
        → Ends (s.eval_cost + 1) (k (record s { eval_cost = s.eval_cost + 1 })))
    → Advances s.eval_cost (enter k s)
unfolding enter
enter-Advances k s b h =
    subst (λ f. Advances s.eval_cost (if not (f == 0) then return const0 s else counted_call))
      (sym b) (below (ltb max_cost (s.eval_cost + 1)) refl)
  where
    rest : Outcome
    rest = k (record s { eval_cost = s.eval_cost + 1 })

    counted_call : Outcome
    counted_call = if ltb max_cost (s.eval_cost + 1) then fail else rest

    below :
        (t : Bool)
        → ltb max_cost (s.eval_cost + 1) ≡ t
        → Advances s.eval_cost (if t then fail else rest)
    below true e = ground arith
    below false e = advance s.eval_cost rest (ground (arith, e)) (h (ground (arith, e)))

-- The evaluator counts its calls.
print_expr-IsCounted : (n : ℕ) → IsCounted n (print_expr n)
unfolding print_expr
print_expr-IsCounted zero = record {
  ends = λ p s l. ground (arith, l);
  advances = λ p s l b. ground (arith, l);
}
print_expr-IsCounted (suc n) =
    let h = print_expr-IsCounted n in
    record {
      ends = λ p s l. enter-Ends (evaluate n (print_expr n) p) s (λ c.
          evaluate-Ends n (print_expr n) h p (record s { eval_cost = s.eval_cost + 1 })
            (omega (arith, l, c)));
      advances = λ p s l b. enter-Advances (evaluate n (print_expr n) p) s b (λ c.
          evaluate-Ends n (print_expr n) h p (record s { eval_cost = s.eval_cost + 1 })
            (omega (arith, l, c)));
    }

-- The result of a call, and what it has cost since `c`
abbrev pub Spends : ℕ → Run (Value × State) → Type 0
Spends c (ok r) = c ≤ r.1.eval_cost
Spends c error = Unit
Spends c fatal = Unit
Spends c undefined = Unit

result : (c : ℕ) (o : Outcome) → Ends c o → (r : Run (Value × State)) × (o ≡ some r) × Spends c r
result c none h = elim h [ ]
result c (some (ok r)) h = (ok r, refl, h)
result c (some error) h = (error, refl, h)
result c (some fatal) h = (fatal, refl, h)
result c (some undefined) h = (undefined, refl, h)

-- With more fuel than is left of max_cost behind the cost of the state (at most 18001), print_expr
-- comes to a result for every parse tree and state: it returns, or ends with an error or outside
-- what C defines. If it returns, the cost has not become less.
pub print_expr_ends :
    (fuel : ℕ) (p : Node) (s : State)
    → max_cost - s.eval_cost < fuel
    → (r : Run (Value × State)) × (print_expr fuel p s ≡ some r) × Spends s.eval_cost r
print_expr_ends fuel p s l =
    result s.eval_cost (print_expr fuel p s) ((print_expr-IsCounted fuel).ends p s l)
