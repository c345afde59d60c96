-- ===== src/Interp/Respect.antt =====
-- Relations between the state before and the state behind a call of print_expr (lpmud/interpret.c): if
-- the calls for the parts of an expression respect one, then so do assignments and lists.
pub mod Expressions
use lpmud_ng.Base.{
  ℕ, zero, suc, ◌+◌, ◌≤◌, ◌≡◌, refl, ◌∙◌, Bool, true, false, ◌==◌, leb, if◌then◌else◌, Option, none,
  some, List, [], ◌∷◌, get_elem?, arith,
}
use lpmud_ng.Base.Int.{pos, negsuc}
use lpmud_ng.Base.Run.{Run, ok, error, fatal, undefined, ◌>>=◌}
use lpmud_ng.Value.{Value, number, string, pointer, object, assign_svalue}
use lpmud_ng.Interp.Ops.{const0}
use lpmud_ng.Interp.State.{
  Node, Nodes, nil, cons, State, Outcome, Evaluator, return, fail, then_do, lift, copy_svalue,
  f_local_name, f_identifier, f_subscript,
}
use lpmud_ng.Interp.Assign.{
  with_item, check_items, check_for_recursion, store_item, with_cost, check_value, assign_element,
  assign_vec, assign,
}
use lpmud_ng.Interp.Loops.{stopped, is_return, stop_destructed, before_statement, sequence}
use lpmud_ng.Interp.After.{Post, then_do-Post, Post-weaken, if-Post}

-- A relation that leaves out all but the breaks, the cost and the vectors, for calls in the states
-- that are ready for them; `Stuck` is what must hold where the fuel comes to an end, and `elements`
-- is on assignments to elements of vectors.
pub record Relation : Type 1 where
  pub Steps : State → State → Type 0
  pub Ready : State → Type 0
  pub Stuck : Type 0
  pub calm :
      (s t : State)
      → t.break_level ≡ s.break_level
      → t.break_flag ≡ s.break_flag
      → s.eval_cost ≤ t.eval_cost
      → t.vectors ≡ s.vectors
      → Steps s t
  pub elements :
      (vec i v : Value) (s : State) → Ready s → Post Stuck (Steps s) (assign_element vec i v s)
  pub trans : (s t u : State) → Steps s t → Steps t u → Steps s u
  pub keeps : (s t : State) → Steps s t → Ready s → Ready t

abbrev pub Respects : Relation → State → Outcome → Type 0
Respects L s o = Post L.Stuck (L.Steps s) o

module _ (L : Relation) where
  pub still : (s : State) → L.Steps s s
  still s = L.calm s s refl refl (omega arith) refl

  pub behind : (s t : State) (o : Outcome) → L.Steps s t → Respects L t o → Respects L s o
  behind s t o h = Post-weaken L.Stuck (L.Steps t) (L.Steps s) o (λ u. L.trans s t u h)

  pub then_do-Respects :
      (s : State) (o : Outcome) (k : Value → State → Outcome)
      → Respects L s o
      → ((v : Value) (t : State) → L.Steps s t → Respects L t (k v t))
      → Respects L s (then_do o k)
  then_do-Respects s o k h g =
      then_do-Post L.Stuck L.Stuck (L.Steps s) (L.Steps s) o k (λ n. n) h
        (λ v t e. behind s t (k v t) e (g v t e))

  pub lift-Respects : (r : Run Value) (s : State) → Respects L s (lift r s)
  lift-Respects (ok v) s = still s
  lift-Respects error s = tt
  lift-Respects fatal s = tt
  lift-Respects undefined s = tt

  pub copy_svalue-Respects : (v : Value) (s : State) → Respects L s (copy_svalue v s)
  unfolding copy_svalue
  copy_svalue-Respects (number n) s = L.calm s _ refl refl (omega arith) refl
  copy_svalue-Respects (string t) s = L.calm s _ refl refl (omega arith) refl
  copy_svalue-Respects (pointer w) s = L.calm s _ refl refl (omega arith) refl
  copy_svalue-Respects (object o) s =
      if-Post L.Stuck (L.Steps s) (s.destructed o) _ _ (λ e. still s)
        (λ e. L.calm s _ refl refl (omega arith) refl)

  pub stop_destructed-Steps : (s : State) → L.Steps s (stop_destructed s)
  stop_destructed-Steps s = by_case (s.destructed s.current_object)
    where
      by_case :
          (b : Bool)
          → L.Steps s (if b then record s { return_value = const0; stop_function = true } else s)
      by_case true = L.calm s _ refl refl (omega arith) refl
      by_case false = still s

  before_statement-Steps : (p : Node) (s : State) → L.Steps s (before_statement p s)
  before_statement-Steps p s = by_case (is_return p)
    where
      by_case : (b : Bool) → L.Steps s (if b then s else stop_destructed s)
      by_case true = still s
      by_case false = stop_destructed-Steps s

  module _ (ev : Evaluator) (h : (p : Node) (s : State) → L.Ready s → Respects L s (ev p s)) where
    -- What follows in the state behind an expression
    pub after :
        (p : Node) (s : State) (k : Value → State → Outcome)
        → L.Ready s
        → ((v : Value) (t : State) → L.Ready t → Respects L t (k v t))
        → Respects L s (then_do (ev p s) k)
    after p s k r g = then_do-Respects s (ev p s) k (h p s r) (λ v t e. g v t (L.keeps s t e r))

    pub assign-Respects :
        (p : Node) (v : Value) (s : State) → L.Ready s → Respects L s (assign ev p v s)
    unfolding assign assign_vec
    assign-Respects (f_subscript a1 a2) v s r =
        after a2 s _ r (λ i t r1. after a1 t _ r1 (λ vec u r2. L.elements vec i v u r2))
    assign-Respects (f_local_name i) v s r = L.calm s _ refl refl (omega arith) refl
    assign-Respects (f_identifier i) v s r =
        if-Post L.Stuck (L.Steps s) (leb s.num_variables i) _ _ (λ e. tt)
          (λ e. L.calm s _ refl refl (omega arith) refl)
    assign-Respects p v s r = ground arith

    pub sequence-Respects :
        (l : Nodes) (v : Value) (s : State) → L.Ready s → Respects L s (sequence ev l v s)
    unfolding sequence
    sequence-Respects nil v s r = still s
    sequence-Respects (cons p l) v s r =
        if-Post L.Stuck (L.Steps s) (stopped s) _ _ (λ e. still s)
          (λ e. behind s (before_statement p s) _ (before_statement-Steps p s) (
            after p (before_statement p s) _
              (L.keeps s (before_statement p s) (before_statement-Steps p s) r)
              (λ w t r1. sequence-Respects l w t r1)))
