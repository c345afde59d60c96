-- ===== src/Interp/Nesting/Loops.antt =====
-- The loops of print_expr (lpmud/interpret.c) end the breaks inside them.
use lpmud_ng.Base.{
  ℕ, zero, suc, ◌+◌, ◌-◌, ◌≡◌, refl, ap, ◌∙◌, Bool, true, false, ◌==◌, if◌then◌else◌, inl, arith,
}
use lpmud_ng.Value.{Value}
use lpmud_ng.Interp.State.{Node, State, Outcome, Evaluator, then_do, is_zero}
use lpmud_ng.Interp.Loops.{
  stopped, stop_destructed, end_continue, enter_loop, leave_loop, step_for, while_loop, do_loop,
  for_loop,
}
use lpmud_ng.Interp.After.{After, then_do-Post, Post-weaken, if-Post}
use lpmud_ng.Interp.Respect.{Respects, still, stop_destructed-Steps}
use lpmud_ng.Interp.Nesting.{IsNested, IsNested-trans, nesting}

-- In a loop: behind it no break waits, and the level is that of its beginning, which is counted up.
pub record IsLeft (s t : State) : Type 0 where
  pub level : t.break_level ≡ s.break_level - 1
  pub none_waits : t.break_flag ≡ 0

Left-trans : (s t : State) (o : Outcome) → IsNested s t → After (IsLeft t) o → After (IsLeft s) o
Left-trans s t o h =
    Post-weaken Unit (IsLeft t) (IsLeft s) o
      (λ u k. record { level = k.level ∙ ap (λ l. l - 1) h.level; none_waits = k.none_waits })

then_do-Left :
    (s : State) (o : Outcome) (k : Value → State → Outcome)
    → Respects nesting s o
    → ((v : Value) (t : State) → After (IsLeft t) (k v t))
    → After (IsLeft s) (then_do o k)
then_do-Left s o k h g =
    then_do-Post Unit Unit (IsNested s) (IsLeft s) o k (λ n. n) h
      (λ v t e. Left-trans s t (k v t) e (g v t))

if-Left :
    (s : State) (b : Bool) (o p : Outcome)
    → (b ≡ true → After (IsLeft s) o)
    → (b ≡ false → After (IsLeft s) p)
    → After (IsLeft s) (if b then o else p)
if-Left s b o p = if-Post Unit (IsLeft s) b o p

left : (s : State) → After (IsLeft s) (leave_loop s)
left s = record { level = refl; none_waits = refl }

end_continue-IsNested : (s : State) → IsNested s (end_continue s)
end_continue-IsNested s = by_case (s.break_flag == 2)
  where
    by_case : (b : Bool) → IsNested s (if b then record s { break_flag = 0 } else s)
    by_case true = record { level = refl; waits = λ h. inl refl }
    by_case false = still nesting s

turned-IsNested : (s : State) → IsNested s (stop_destructed (end_continue s))
turned-IsNested s =
    IsNested-trans s (end_continue s) (stop_destructed (end_continue s)) (end_continue-IsNested s)
      (stop_destructed-Steps nesting (end_continue s))

module _ (ev : Evaluator) (h : (p : Node) (s : State) → Respects nesting s (ev p s)) where
  pub while_loop-Left :
      (k : ℕ) (cond body : Node) (s : State) → After (IsLeft s) (while_loop k ev cond body s)
  unfolding while_loop
  while_loop-Left zero cond body s = ground arith
  while_loop-Left (suc k) cond body s =
      if-Left s (stopped s) _ _ (λ e. left s)
        (λ e. then_do-Left s (ev cond s) _ (h cond s) (λ v t.
          if-Left t (is_zero v) _ _ (λ z. left t)
            (λ z. then_do-Left t (ev body t) _ (h body t) (λ w u.
              Left-trans u (stop_destructed (end_continue u)) _ (turned-IsNested u)
                (while_loop-Left k cond body (stop_destructed (end_continue u)))))))

  pub do_loop-Left :
      (k : ℕ) (body cond : Node) (s : State) → After (IsLeft s) (do_loop k ev body cond s)
  unfolding do_loop
  do_loop-Left zero body cond s = ground arith
  do_loop-Left (suc k) body cond s =
      if-Left s (stopped s) _ _ (λ e. left s)
        (λ e. then_do-Left s (ev body s) _ (h body s) (λ w t.
          Left-trans t (end_continue t) _ (end_continue-IsNested t) (
            then_do-Left (end_continue t) (ev cond (end_continue t)) _ (h cond (end_continue t))
              (λ v u.
                if-Left u (is_zero v) _ _ (λ z. left u)
                  (λ z.
                    Left-trans u (stop_destructed u) _ (stop_destructed-Steps nesting u)
                      (do_loop-Left k body cond (stop_destructed u)))))))

  step_for-Nested : (step : Node) (s : State) → Respects nesting s (step_for ev step s)
  step_for-Nested step s =
      if-Post Unit (IsNested s) (s.break_flag == 0) _ _ (λ e. h step s) (λ e. still nesting s)

  pub for_loop-Left :
      (k : ℕ) (cond step body : Node) (s : State)
      → After (IsLeft s) (for_loop k ev cond step body s)
  unfolding for_loop
  for_loop-Left zero cond step body s = ground arith
  for_loop-Left (suc k) cond step body s =
      if-Left s (stopped s) _ _ (λ e. left s)
        (λ e. then_do-Left s (ev cond s) _ (h cond s) (λ v t.
          if-Left t (is_zero v) _ _ (λ z. left t)
            (λ z. then_do-Left t (ev body t) _ (h body t) (λ w u.
              Left-trans u (end_continue u) _ (end_continue-IsNested u) (
                then_do-Left (end_continue u) (step_for ev step (end_continue u)) _
                  (step_for-Nested step (end_continue u))
                  (λ x u1.
                    Left-trans u1 (stop_destructed u1) _ (stop_destructed-Steps nesting u1)
                      (for_loop-Left k cond step body (stop_destructed u1))))))))

-- A loop is entered, and left with the level of before.
pub loop-Nested : (s : State) (o : Outcome) → After (IsLeft (enter_loop s)) o → Respects nesting s o
loop-Nested s o =
    Post-weaken Unit (IsLeft (enter_loop s)) (IsNested s) o
      (λ u k. record { level = k.level ∙ plus_minus s.break_level; waits = λ w. inl k.none_waits })
  where
    plus_minus : (n : ℕ) → n + 1 - 1 ≡ n
    plus_minus n = omega arith
