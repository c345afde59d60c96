-- ===== src/Interp/Respect/Expressions.antt =====
-- print_expr of lpmud/interpret.c respects a relation between states, if its loops and breaks do.
use lpmud_ng.Base.{
  ℕ, refl, Bool, true, false, leb, if◌then◌else◌, not, ◌||◌, Option, none, some, get_elem?, arith,
}
use lpmud_ng.Base.Int.{ℤ, pos, negsuc, ◌+ℤ◌, ◌-ℤ◌}
use lpmud_ng.Value.{Value, number, string, pointer}
use lpmud_ng.Interp.Ops.{Assigner, const0, binary, binary_eq}
use lpmud_ng.Interp.State.{
  is_add, is_number, Node, State, Evaluator, return, fail, lift, is_zero, copy_svalue, null,
  f_break, f_continue, f_number, f_string, f_local_name, f_identifier, f_binary, f_op_eq, f_land,
  f_lor, f_assign, f_subscript, f_while, f_do, f_not, f_compl, f_negate, f_inc, f_dec, f_post_inc,
  f_post_dec, f_return, f_if, f_for, f_block, f_comma,
}
use lpmud_ng.Interp.Assign.{assign}
use lpmud_ng.Interp.Loops.{sequence, enter_loop, while_loop, do_loop, for_loop}
use lpmud_ng.Interp.Eval.{
  char_value, count, counted, subscript, op_eq, compl, negate, return_expr, if_expr, land, lor,
  is_null, break_with, evaluate,
}
use lpmud_ng.Interp.After.{if-Post}
use lpmud_ng.Interp.Respect.{
  Relation, Respects, still, then_do-Respects, lift-Respects, copy_svalue-Respects, after,
  assign-Respects, sequence-Respects,
}

subscript-Respects : (L : Relation) (v i : Value) (s : State) → Respects L s (subscript v i s)
unfolding subscript
subscript-Respects L (pointer vec) (number (pos i)) s = found (get_elem? (s.vectors vec) i)
  where
    found : (o : Option Value) → Respects L s (elim o [ none ↦ fail | some v ↦ copy_svalue v s ])
    found none = tt
    found (some v) = copy_svalue-Respects L v s
subscript-Respects L (string t) (number (pos i)) s = found (get_elem? t i)
  where
    found :
        (o : Option ℕ)
        → Respects L s
            (elim o [ none ↦ return const0 s | some c ↦ return (number (char_value c)) s ])
    found none = still L s
    found (some c) = still L s
subscript-Respects L (string t) (number (negsuc i)) s = still L s
subscript-Respects L v i s = ground arith

module _ (L : Relation) (ev : Evaluator)
    (h : (p : Node) (s : State) → L.Ready s → Respects L s (ev p s)) where
  count-Respects :
      (f : ℤ → ℤ) (before : Bool) (p : Node) (s : State)
      → L.Ready s
      → Respects L s (count ev f before p s)
  unfolding count
  count-Respects f before p s r = after L ev h p s _ r (λ v t r1.
      then_do-Respects L t (lift (counted f v) t) _ (lift-Respects L (counted f v) t) (λ new t1 e.
        then_do-Respects L t1 (assign ev p new t1) _
          (assign-Respects L ev h p new t1 (L.keeps t t1 e r1)) (λ w u d. still L u)))

  op_eq-Respects :
      (o : Assigner) (a1 a2 : Node) (s : State) → L.Ready s → Respects L s (op_eq ev o a1 a2 s)
  unfolding op_eq
  op_eq-Respects o a1 a2 s r = after L ev h a2 s _ r (λ arg t r1.
      if-Post L.Stuck (L.Steps t) (is_add o || is_number arg) _ _
        (λ c. after L ev h a1 t _ r1 (λ v u r2.
          then_do-Respects L u (lift (binary_eq o v arg) u) _
            (lift-Respects L (binary_eq o v arg) u)
            (λ new u1 e. assign-Respects L ev h a1 new u1 (L.keeps u u1 e r2))))
        (λ c. tt))

  return_expr-Respects : (p : Node) (s : State) → L.Ready s → Respects L s (return_expr ev p s)
  unfolding return_expr
  return_expr-Respects p s r =
      then_do-Respects L s (if is_null p then return const0 s else ev p s) _
        (if-Post L.Stuck (L.Steps s) (is_null p) _ _ (λ e. still L s) (λ e. h p s r))
        (λ v t e. L.calm t _ refl refl (omega arith) refl)

  if_expr-Respects :
      (v : Value) (a2 a3 : Node) (s : State) → L.Ready s → Respects L s (if_expr ev v a2 a3 s)
  unfolding if_expr
  if_expr-Respects v a2 a3 s r =
      if-Post L.Stuck (L.Steps s) (not (is_zero v)) _ _
        (λ e. after L ev h a2 s _ r (λ w t r1. still L t))
        (λ e.
          if-Post L.Stuck (L.Steps s) (is_null a3) _ _ (λ f. still L s)
            (λ f. after L ev h a3 s _ r (λ w t r1. still L t)))

  -- The loops, each entered, and the breaks
  pub record Jumps (n : ℕ) : Type 0 where
    pub breaks : (flag : ℕ) (s : State) → L.Ready s → Respects L s (break_with flag s)
    pub whiles :
        (a1 a2 : Node) (s : State) → L.Ready s → Respects L s (while_loop n ev a1 a2 (enter_loop s))
    pub dos :
        (a1 a2 : Node) (s : State) → L.Ready s → Respects L s (do_loop n ev a1 a2 (enter_loop s))
    pub fors :
        (a1 a2 a3 : Node) (s : State)
        → L.Ready s
        → Respects L s (for_loop n ev a1 a2 a3 (enter_loop s))

  module _ (n : ℕ) (jumps : Jumps n) where
    pub evaluate-Respects : (p : Node) (s : State) → L.Ready s → Respects L s (evaluate n ev p s)
    unfolding evaluate land lor
    evaluate-Respects null s r = still L s
    evaluate-Respects (f_number i) s r = still L s
    evaluate-Respects (f_string t) s r = still L s
    evaluate-Respects (f_local_name i) s r = still L s
    evaluate-Respects (f_identifier i) s r =
        if-Post L.Stuck (L.Steps s) (leb s.num_variables i) _ _ (λ e. tt)
          (λ e. copy_svalue-Respects L (s.variables i) s)
    evaluate-Respects (f_binary o a1 a2) s r =
        after L ev h a1 s _ r
          (λ v t r1. after L ev h a2 t _ r1 (λ w u r2. lift-Respects L (binary o v w) u))
    evaluate-Respects (f_op_eq o a1 a2) s r = op_eq-Respects o a1 a2 s r
    evaluate-Respects (f_land a1 a2) s r = after L ev h a1 s _ r (λ v t r1.
        if-Post L.Stuck (L.Steps t) (is_zero v) _ _ (λ e. still L t)
          (λ e. after L ev h a2 t _ r1 (λ w u r2. still L u)))
    evaluate-Respects (f_lor a1 a2) s r = after L ev h a1 s _ r (λ v t r1.
        if-Post L.Stuck (L.Steps t) (is_zero v) _ _
          (λ e. after L ev h a2 t _ r1 (λ w u r2. still L u)) (λ e. still L t))
    evaluate-Respects (f_assign a1 a2) s r =
        after L ev h a2 s _ r (λ v t r1. assign-Respects L ev h a1 v t r1)
    evaluate-Respects (f_subscript a1 a2) s r =
        after L ev h a1 s _ r
          (λ v t r1. after L ev h a2 t _ r1 (λ i u r2. subscript-Respects L v i u))
    evaluate-Respects (f_not a1) s r = after L ev h a1 s _ r (λ v t r1. still L t)
    evaluate-Respects (f_compl a1) s r =
        after L ev h a1 s _ r (λ v t r1. lift-Respects L (compl v) t)
    evaluate-Respects (f_negate a1) s r =
        after L ev h a1 s _ r (λ v t r1. lift-Respects L (negate v) t)
    evaluate-Respects (f_inc a1) s r = count-Respects (λ i. i +ℤ pos 1) true a1 s r
    evaluate-Respects (f_dec a1) s r = count-Respects (λ i. i -ℤ pos 1) true a1 s r
    evaluate-Respects (f_post_inc a1) s r = count-Respects (λ i. i +ℤ pos 1) false a1 s r
    evaluate-Respects (f_post_dec a1) s r = count-Respects (λ i. i -ℤ pos 1) false a1 s r
    evaluate-Respects (f_if a1 a2 a3) s r =
        after L ev h a1 s _ r (λ v t r1. if_expr-Respects v a2 a3 t r1)
    evaluate-Respects (f_return a1) s r = return_expr-Respects a1 s r
    evaluate-Respects f_break s r = jumps.breaks 1 s r
    evaluate-Respects f_continue s r = jumps.breaks 2 s r
    evaluate-Respects (f_block b) s r =
        then_do-Respects L s (sequence ev b const0 s) _ (sequence-Respects L ev h b const0 s r)
          (λ v t e. still L t)
    evaluate-Respects (f_comma b) s r = sequence-Respects L ev h b const0 s r
    evaluate-Respects (f_while a1 a2) s r = jumps.whiles a1 a2 s r
    evaluate-Respects (f_do a1 a2) s r = jumps.dos a1 a2 s r
    evaluate-Respects (f_for a1 a2 a3) s r = jumps.fors a1 a2 a3 s r
