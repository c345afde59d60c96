-- ===== src/Interp/Ends/Loops.antt =====
-- The lists of statements and the loops of print_expr (lpmud/interpret.c) end.
use lpmud_ng.Base.{ℕ, zero, suc, ◌-◌, ◌<◌, ◌≡◌, false, ◌==◌, arith}
use lpmud_ng.Interp.State.{Node, State, max_cost, Evaluator, is_zero}
use lpmud_ng.Interp.Loops.{
  stopped, stop_destructed, end_continue, step_for, while_loop, do_loop, for_loop,
}
use lpmud_ng.Interp.Ends.{Ends, weaken, then_do-Ends, then_do-Advances, if-Ends, IsCounted}

stop_destructed_cost : (s : State) → (stop_destructed s).eval_cost ≡ s.eval_cost
stop_destructed_cost s = ground arith

end_continue_cost : (s : State) → (end_continue s).eval_cost ≡ s.eval_cost
end_continue_cost s = ground arith

running : (s : State) → stopped s ≡ false → s.break_flag ≡ 0
running s h = ground (arith, h)

abbrev turned : State → State
turned u = stop_destructed (end_continue u)

turned_cost : (u : State) → (turned u).eval_cost ≡ u.eval_cost
turned_cost u = omega (arith, stop_destructed_cost (end_continue u), end_continue_cost u)

pub while_loop-Ends :
    (k n : ℕ) (ev : Evaluator) (cond body : Node) (s : State)
    → IsCounted n ev
    → max_cost - s.eval_cost < n
    → max_cost - s.eval_cost < k
    → Ends s.eval_cost (while_loop k ev cond body s)
unfolding while_loop
while_loop-Ends zero n ev cond body s h l m = ground (arith, m)
while_loop-Ends (suc k) n ev cond body s h l m =
    if-Ends s.eval_cost (stopped s) _ _ (λ e. omega arith)
      (λ e.
        then_do-Advances s.eval_cost (ev cond s) _ (h.advances cond s l (running s e)) (λ v t a b.
          if-Ends t.eval_cost (is_zero v) _ _ (λ z. omega arith)
            (λ z.
              then_do-Ends t.eval_cost (ev body t) _ (h.ends body t (omega (arith, l, a))) (λ w u c.
                weaken _ (turned u).eval_cost u.eval_cost (omega (arith, turned_cost u)) (
                  while_loop-Ends k n ev cond body (turned u) h
                    (omega (arith, l, a, c, turned_cost u))
                    (omega (arith, m, a, b, c, turned_cost u)))))))

pub do_loop-Ends :
    (k n : ℕ) (ev : Evaluator) (body cond : Node) (s : State)
    → IsCounted n ev
    → max_cost - s.eval_cost < n
    → max_cost - s.eval_cost < k
    → Ends s.eval_cost (do_loop k ev body cond s)
unfolding do_loop
do_loop-Ends zero n ev body cond s h l m = ground (arith, m)
do_loop-Ends (suc k) n ev body cond s h l m =
    if-Ends s.eval_cost (stopped s) _ _ (λ e. omega arith)
      (λ e.
        then_do-Advances s.eval_cost (ev body s) _ (h.advances body s l (running s e)) (λ w t a b.
          weaken _ (end_continue t).eval_cost t.eval_cost (omega (arith, end_continue_cost t)) (
            then_do-Ends (end_continue t).eval_cost (ev cond (end_continue t)) _
              (h.ends cond (end_continue t) (omega (arith, l, a, end_continue_cost t)))
              (λ v u c.
                if-Ends u.eval_cost (is_zero v) _ _ (λ z. omega arith)
                  (λ z.
                    weaken _ (stop_destructed u).eval_cost u.eval_cost
                      (omega (arith, stop_destructed_cost u))
                      (do_loop-Ends k n ev body cond (stop_destructed u) h
                        (omega (arith, l, a, c, end_continue_cost t, stop_destructed_cost u))
                        (omega
                          (arith, m, a, b, c, end_continue_cost t, stop_destructed_cost u))))))))

step_for-Ends :
    (n : ℕ) (ev : Evaluator) (step : Node) (s : State)
    → IsCounted n ev
    → max_cost - s.eval_cost < n
    → Ends s.eval_cost (step_for ev step s)
step_for-Ends n ev step s h l =
    if-Ends s.eval_cost (s.break_flag == 0) _ _ (λ e. h.ends step s l) (λ e. omega arith)

pub for_loop-Ends :
    (k n : ℕ) (ev : Evaluator) (cond step body : Node) (s : State)
    → IsCounted n ev
    → max_cost - s.eval_cost < n
    → max_cost - s.eval_cost < k
    → Ends s.eval_cost (for_loop k ev cond step body s)
unfolding for_loop
for_loop-Ends zero n ev cond step body s h l m = ground (arith, m)
for_loop-Ends (suc k) n ev cond step body s h l m =
    if-Ends s.eval_cost (stopped s) _ _ (λ e. omega arith)
      (λ e.
        then_do-Advances s.eval_cost (ev cond s) _ (h.advances cond s l (running s e)) (λ v t a b.
          if-Ends t.eval_cost (is_zero v) _ _ (λ z. omega arith)
            (λ z.
              then_do-Ends t.eval_cost (ev body t) _ (h.ends body t (omega (arith, l, a))) (λ w u c.
                weaken _ (end_continue u).eval_cost u.eval_cost (omega (arith, end_continue_cost u))
                  (then_do-Ends (end_continue u).eval_cost (step_for ev step (end_continue u)) _
                    (step_for-Ends n ev step (end_continue u) h
                      (omega (arith, l, a, c, end_continue_cost u)))
                    (λ x u1 d.
                      weaken _ (stop_destructed u1).eval_cost u1.eval_cost
                        (omega (arith, stop_destructed_cost u1))
                        (for_loop-Ends k n ev cond step body (stop_destructed u1) h
                          (omega (arith, l, a, c, d, end_continue_cost u, stop_destructed_cost u1))
                          (omega (
                            arith,
                            m,
                            a,
                            b,
                            c,
                            d,
                            end_continue_cost u,
                            stop_destructed_cost u1,
                          )))))))))
