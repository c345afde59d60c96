-- ===== src/Interp/After.antt =====
-- Statements on the state that a call of print_expr (lpmud/interpret.c) leaves.
use lpmud_ng.Base.{Bool, true, false, if◌then◌else◌, ◌≡◌, refl, none, some}
use lpmud_ng.Base.Run.{ok, error, fatal, undefined}
use lpmud_ng.Value.{Value}
use lpmud_ng.Interp.State.{State, Outcome, then_do}

-- What holds of the state, if the call returns, and `N` if its fuel comes to an end
abbrev pub Post {κ} : Type κ → (State → Type κ) → Outcome → Type κ
Post N P none = N
Post N P (some (ok r)) = P r.1
Post N P (some error) = Unit
Post N P (some fatal) = Unit
Post N P (some undefined) = Unit

abbrev pub After {κ} : (State → Type κ) → Outcome → Type κ
After P o = Post Unit P o

pub then_do-Post {κ ℓ} :
    (N : Type κ) (M : Type ℓ) (P : State → Type κ) (Q : State → Type ℓ) (o : Outcome)
    (k : Value → State → Outcome)
    → (N → M)
    → Post N P o
    → ((v : Value) (t : State) → P t → Post M Q (k v t))
    → Post M Q (then_do o k)
unfolding then_do
then_do-Post N M P Q none k m h g = m h
then_do-Post N M P Q (some (ok r)) k m h g = g r.0 r.1 h
then_do-Post N M P Q (some error) k m h g = tt
then_do-Post N M P Q (some fatal) k m h g = tt
then_do-Post N M P Q (some undefined) k m h g = tt

pub Post-weaken {κ} :
    (N : Type κ) (P Q : State → Type κ) (o : Outcome)
    → ((t : State) → P t → Q t)
    → Post N P o
    → Post N Q o
Post-weaken N P Q none w h = h
Post-weaken N P Q (some (ok r)) w h = w r.1 h
Post-weaken N P Q (some error) w h = h
Post-weaken N P Q (some fatal) w h = h
Post-weaken N P Q (some undefined) w h = h

pub if-Post {κ} :
    (N : Type κ) (P : State → Type κ) (b : Bool) (o p : Outcome)
    → (b ≡ true → Post N P o)
    → (b ≡ false → Post N P p)
    → Post N P (if b then o else p)
if-Post N P true o p h g = h refl
if-Post N P false o p h g = g refl
