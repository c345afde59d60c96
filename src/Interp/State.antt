-- ===== src/Interp/State.antt =====
-- The parse trees and the state of the interpreter (lpmud/lnode.h, lpmud/interpret.c).
use lpmud_ng.Base.{ℕ, Bool, true, false, if◌then◌else◌, Option, none, some, List}
use lpmud_ng.Base.Int.{ℤ, pos}
use lpmud_ng.Base.Run.{Run, ok, error, fatal, undefined}
use lpmud_ng.Base.Text.{Chars}
use lpmud_ng.Value.{Value, number, object, Refs, hold_svalue}
use lpmud_ng.Interp.Ops.{Operator, Assigner, f_add_eq, const0, same_ℤ}

-- A parse tree by its type; `null` is a null pointer. A block and a linked list of statements are
-- the same here, and `f_comma` is the list of expressions.
mutual
  pub data Node : Type 0 where
    null f_break f_continue : Node
    f_number : ℤ → Node
    f_string : Chars → Node
    f_local_name f_identifier : ℕ → Node
    f_binary : Operator → Node → Node → Node
    f_op_eq : Assigner → Node → Node → Node
    f_land f_lor f_assign f_subscript f_while f_do : Node → Node → Node
    f_not f_compl f_negate f_inc f_dec f_post_inc f_post_dec f_return : Node → Node
    f_if f_for : Node → Node → Node → Node
    f_block f_comma : Nodes → Node

  pub data Nodes : Type 0 where
    nil : Nodes
    cons : Node → Nodes → Nodes

-- The globals of the interpreter, the local names, and the variables of the current object. `stack` is
-- how many calls of check_for_recursion the stack of C holds.
pub record State : Type 0 where
  pub locals : ℕ → Value
  pub num_variables : ℕ
  pub variables : ℕ → Value
  pub vectors : ℕ → List Value
  pub refs : Refs
  pub current_object : ℕ
  pub destructed : ℕ → Bool
  pub return_value : Value
  pub stop_function : Bool
  pub break_flag : ℕ
  pub break_level : ℕ
  pub eval_cost : ℕ
  pub stack : ℕ

abbrev pub max_cost : ℕ
max_cost = 18000

abbrev pub Outcome : Type 0
Outcome = Option (Run (Value × State))

abbrev pub Evaluator : Type 0
Evaluator = Node → State → Outcome

abbrev pub return : Value → State → Outcome
return v s = some (ok (v, s))

abbrev pub fail : Outcome
fail = some error

unfoldable pub then_do : Outcome → (Value → State → Outcome) → Outcome
then_do none k = none
then_do (some (ok (v, s))) k = k v s
then_do (some error) k = some error
then_do (some fatal) k = some fatal
then_do (some undefined) k = some undefined

abbrev pub is_add : Assigner → Bool
is_add f_add_eq = true
is_add o = false

-- A computation on values, in the state
abbrev pub lift : Run Value → State → Outcome
lift (ok v) s = return v s
lift error s = fail
lift fatal s = some fatal
lift undefined s = some undefined

abbrev pub is_zero : Value → Bool
is_zero (number n) = same_ℤ n (pos 0)
is_zero _ = false

abbrev pub is_number : Value → Bool
is_number (number n) = true
is_number _ = false

unfoldable pub copy_svalue : Value → State → Outcome
copy_svalue (object o) s =
    if s.destructed o
    then return const0 s
    else return (object o) (record s { refs = hold_svalue (object o) s.refs })
copy_svalue v s = return v (record s { refs = hold_svalue v s.refs })

abbrev pub shown : (ℕ → Bool) → Value → Value
shown destructed (object o) = if destructed o then const0 else object o
shown destructed v = v
