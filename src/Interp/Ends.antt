-- ===== src/Interp/Ends.antt =====
-- The count of eval_cost bounds the work of print_expr (lpmud/interpret.c): no program runs for ever.
mod Loops
pub mod Expressions
use lpmud_ng.Base.{ℕ, ◌-◌, ◌≤◌, ◌<◌, ◌≡◌, Bool, true, false, if◌then◌else◌, arith}
use lpmud_ng.Value.{Value}
use lpmud_ng.Interp.State.{Node, State, max_cost, Outcome, Evaluator, then_do}
use lpmud_ng.Interp.Assign.{assign_element}
use lpmud_ng.Interp.After.{Post, then_do-Post, Post-weaken, if-Post}
use lpmud_ng.Interp.Calm.{IsCalm, assign_element-IsCalm}
use lpmud_ng.Interp.Respect.{Relation}

-- The call comes to an end, and the cost is `c` or more then.
abbrev pub Ends : ℕ → Outcome → Type 0
Ends c o = Post ⊥ (λ t. c ≤ t.eval_cost) o

-- If it returns, the cost has grown, and the limit had not been reached.
abbrev pub Advances : ℕ → Outcome → Type 0
Advances c o = Post ⊥ (λ t. (c < t.eval_cost) × (c < max_cost)) o

pub weaken : (o : Outcome) (c d : ℕ) → d ≤ c → Ends c o → Ends d o
weaken o c d l =
    Post-weaken ⊥ (λ t. c ≤ t.eval_cost) (λ t. d ≤ t.eval_cost) o (λ t h. omega (arith, l, h))

pub then_do-Ends :
    (c : ℕ) (o : Outcome) (k : Value → State → Outcome)
    → Ends c o
    → ((v : Value) (t : State) → c ≤ t.eval_cost → Ends t.eval_cost (k v t))
    → Ends c (then_do o k)
then_do-Ends c o k h g =
    then_do-Post ⊥ ⊥ (λ t. c ≤ t.eval_cost) (λ t. c ≤ t.eval_cost) o k (λ n. n) h
      (λ v t l. weaken (k v t) t.eval_cost c l (g v t l))

pub then_do-Advances :
    (c : ℕ) (o : Outcome) (k : Value → State → Outcome)
    → Advances c o
    → ((v : Value) (t : State) → c < t.eval_cost → c < max_cost → Ends t.eval_cost (k v t))
    → Ends c (then_do o k)
then_do-Advances c o k h g =
    then_do-Post ⊥ ⊥ (λ t. (c < t.eval_cost) × (c < max_cost)) (λ t. c ≤ t.eval_cost) o k (λ n. n) h
      (λ v t l. weaken (k v t) t.eval_cost c (omega (arith, l.0)) (g v t l.0 l.1))

pub if-Ends :
    (c : ℕ) (b : Bool) (o p : Outcome)
    → (b ≡ true → Ends c o)
    → (b ≡ false → Ends c p)
    → Ends c (if b then o else p)
if-Ends c b o p = if-Post ⊥ (λ t. c ≤ t.eval_cost) b o p

-- The cost does not become less; a call is ready if the fuel is more than what is left of it.
abbrev pub cost : ℕ → Relation
cost n = record {
  Steps = λ s t. s.eval_cost ≤ t.eval_cost;
  Ready = λ s. max_cost - s.eval_cost < n;
  Stuck = ⊥;
  calm = λ s t level flag l same. l;
  elements = λ vec i v s r.
      Post-weaken ⊥ (IsCalm s) (λ t. s.eval_cost ≤ t.eval_cost) (assign_element vec i v s)
        (λ t h. h.cost) (assign_element-IsCalm ⊥ vec i v s);
  trans = λ s t u l m. omega (arith, l, m);
  keeps = λ s t l r. omega (arith, l, r);
}

-- An evaluator that ends from the states with enough fuel, and counts every call
pub record IsCounted (n : ℕ) (ev : Evaluator) : Type 0 where
  pub ends : (p : Node) (s : State) → max_cost - s.eval_cost < n → Ends s.eval_cost (ev p s)
  pub advances :
      (p : Node) (s : State)
      → max_cost - s.eval_cost < n
      → s.break_flag ≡ 0
      → Advances s.eval_cost (ev p s)
