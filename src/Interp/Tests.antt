-- ===== src/Interp/Tests.antt =====
-- Programs run by print_expr of lpmud/interpret.c, and the theorems at such programs.

use lpmud_ng.Base.{
  ℕ, ◌≡◌, refl, false, not, ◌==◌, if◌then◌else◌, Option, none, some, [], ◌∷◌, arith,
}
use lpmud_ng.Base.Int.{pos, negsuc, ◌+ℤ◌, ◌-ℤ◌, ◌*ℤ◌, ◌/ℤ◌, ◌%ℤ◌}
use lpmud_ng.Base.Run.{Run, ok, error}
use lpmud_ng.Base.Text.{codes, str_eq}
use lpmud_ng.Save.{digits, print_number}
use lpmud_ng.Value.{Value, number, string, pointer, assign_svalue, hold_svalue, free_svalue}
use lpmud_ng.Interp.Ops.{
  f_add, f_add_eq, f_and, f_mod, f_gt, f_ge, f_lt, f_le, f_eq, f_ne, const0, make_number, bitwise,
  divide_by, remainder_by, strcmp, arithmetic, on_strings, binary, binary_eq,
}
use lpmud_ng.Interp.State.{
  Node, Nodes, nil, cons, State, Outcome, then_do, copy_svalue, is_zero, null, f_break, f_continue,
  f_number, f_string, f_local_name, f_identifier, f_binary, f_op_eq, f_assign, f_subscript, f_while,
  f_post_inc, f_return, f_if, f_for, f_block,
}
use lpmud_ng.Interp.Assign.{check_items, check_for_recursion, store_item, assign_vec, assign}
use lpmud_ng.Interp.Loops.{sequence, while_loop, do_loop, for_loop}
use lpmud_ng.Interp.Eval.{
  count, subscript, op_eq, compl, negate, return_expr, if_expr, land, lor, evaluate, enter,
  print_expr,
}
use lpmud_ng.Interp.Ends.Expressions.{Spends, print_expr_ends}
use lpmud_ng.Interp.Nesting.{IsNested}
use lpmud_ng.Interp.Nesting.Expressions.{print_expr-IsNested}
use lpmud_ng.Interp.Acyclic.{Has, PathIn, here, step, IsAcyclic}
use lpmud_ng.Interp.Acyclic.Elements.{assign_element-IsAcyclic}
use lpmud_ng.Interp.Acyclic.Expressions.{print_expr-IsAcyclic}
use lpmud_ng.Interp.Laws.{ne-eq, binary-swap}

-- All that a run computes with.
unfoldable program : Unit {0}
unfolding ◌+ℤ◌ ◌-ℤ◌ ◌*ℤ◌ ◌/ℤ◌ ◌%ℤ◌ str_eq digits print_number assign_svalue hold_svalue free_svalue
    make_number bitwise divide_by remainder_by strcmp arithmetic on_strings binary binary_eq then_do
    copy_svalue check_items check_for_recursion store_item assign_vec assign sequence while_loop
    do_loop for_loop count subscript op_eq compl negate return_expr if_expr land lor evaluate enter
    print_expr
program = tt

-- A vector 1 that holds the vector 2, which holds a number and a string
abbrev start : State
start = record {
  locals = λ i. const0;
  num_variables = 2;
  variables = λ i. if i == 0 then pointer 1 else number (pos 5);
  vectors = λ v.
      if v == 1
      then pointer 2 ∷ []
      else if v == 2
      then number (pos 7) ∷ string (codes "a") ∷ []
      else [];
  refs = record { objects = λ o. pos 1; vectors = λ v. pos 1 };
  current_object = 9;
  destructed = λ o. o == 4;
  return_value = const0;
  stop_function = false;
  break_flag = 0;
  break_level = 0;
  eval_cost = 0;
  stack = 10;
}

abbrev returned : Outcome → Option Value
returned (some (ok r)) = some r.1.return_value
returned _ = none

abbrev two : Node → Node → Nodes
two p q = cons p (cons q nil)

-- for (i = 1; i <= 9; i++) { if (i == 3) continue; if (i == 6) break; sum += i; } return sum;
abbrev summing : Node
summing = f_block (
    two
      (f_for (f_binary f_le (f_local_name 0) (f_number (pos 9))) (f_post_inc (f_local_name 0)) (
        f_block (
          two
            (f_if (f_binary f_eq (f_local_name 0) (f_number (pos 3))) f_continue
              (f_if (f_binary f_eq (f_local_name 0) (f_number (pos 6))) f_break null))
            (f_op_eq f_add_eq (f_local_name 1) (f_local_name 0)))))
      (f_return (f_local_name 1)))

sum_to_five : returned (print_expr 20 summing start) ≡ some (number (pos 12))
unfolding program
sum_to_five = refl

-- return "x" + -4 + "y" after a destructed object was read as 0
text_sum :
    returned (
      print_expr 9
        (f_return (
          f_binary f_add
            (f_binary f_add (f_string (codes "x")) (f_number (negsuc 3)))
            (f_string (codes "y"))))
        start)
    ≡ some (string (codes "x-4y"))
unfolding program
text_sum = refl

masked :
    returned
      (print_expr 9 (f_return (f_binary f_and (f_number (negsuc 2)) (f_number (pos 255)))) start)
    ≡ some (number (pos 253))
unfolding program
masked = refl

divided_by_zero :
    print_expr 9 (f_binary f_mod (f_number (pos 1)) (f_number (pos 0))) start ≡ some error
unfolding program
divided_by_zero = refl

outside_loop : print_expr 9 f_break start ≡ some error
unfolding program
outside_loop = refl

-- The vector 2 is given an item that is the vector 1.
recursive_vector :
    print_expr 9
      (f_assign
        (f_subscript (f_subscript (f_identifier 0) (f_number (pos 0))) (f_number (pos 0)))
        (f_identifier 0))
      start
    ≡ some error
unfolding program
recursive_vector = refl

-- while (1) ;
abbrev forever : Node
forever = f_while (f_number (pos 1)) null

print_expr_ends_example :
    (r : Run (Value × State)) × (print_expr 18001 forever start ≡ some r) × Spends 0 r
print_expr_ends_example = print_expr_ends 18001 forever start (omega arith)

abbrev after_break : State
after_break = record start { eval_cost = 3 }

print_expr-IsNested_example : IsNested start after_break
unfolding program
print_expr-IsNested_example =
    print_expr-IsNested 9 (f_while (f_number (pos 1)) f_break) start (const0, after_break) refl

only_item : (v w : ℕ) → Has (start.vectors v) w → (v ≡ 1) × (w ≡ 2)
only_item v w h = ground (arith, h)

from_two : {a b : ℕ} → PathIn start.vectors a b → a ≡ 2 → a ≡ b
from_two here e = refl
from_two (step {v} {w} h p) e = ground (arith, only_item v w h, e)

start-IsAcyclic : IsAcyclic start.vectors
start-IsAcyclic = record { acyclic = λ v w h p. ground (arith, only_item v w h, from_two p) }

abbrev after_store : State
after_store = record start {
  vectors = λ v. if v == 2 then pointer 3 ∷ string (codes "a") ∷ [] else start.vectors v;
  eval_cost = 1;
  refs = record { objects = λ o. pos 1; vectors = λ v. if v == 3 then pos 1 +ℤ pos 1 else pos 1 };
}

assign_element-IsAcyclic_example : IsAcyclic after_store.vectors
unfolding program
assign_element-IsAcyclic_example =
    assign_element-IsAcyclic (pointer 2) (number (pos 0)) (pointer 3) start (pointer 3, after_store)
      start-IsAcyclic refl

-- A vector 3 is in a local name, and becomes an item of the vector 2.
abbrev with_three : State
with_three = record start { locals = λ i. pointer 3 }

abbrev storing : Node
storing =
    f_assign (f_subscript (f_subscript (f_identifier 0) (f_number (pos 0))) (f_number (pos 0)))
      (f_local_name 0)

abbrev state_after : Outcome → State
state_after (some (ok r)) = r.1
state_after _ = start

stored_three :
    (state_after (print_expr 9 storing with_three)).vectors 2 ≡ pointer 3 ∷ string (codes "a") ∷ []
unfolding program
stored_three = refl

print_expr-IsAcyclic_example : IsAcyclic (state_after (print_expr 9 storing with_three)).vectors
unfolding program
print_expr-IsAcyclic_example =
    print_expr-IsAcyclic 9 storing with_three
      (pointer 3, state_after (print_expr 9 storing with_three)) start-IsAcyclic refl

ne-eq_example :
    (a : Value) × (b : Value) × (binary f_eq (string (codes "a")) (string (codes "b")) ≡ ok a)
    × (binary f_ne (string (codes "a")) (string (codes "b")) ≡ ok b)
    × (is_zero b ≡ not (is_zero a))
ne-eq_example = ne-eq (string (codes "a")) (string (codes "b"))

binary-swap_example :
    (binary f_lt (number (pos 1)) (number (pos 2)) ≡ binary f_gt (number (pos 2)) (number (pos 1)))
    × (binary f_le (number (pos 1)) (number (pos 2))
        ≡ binary f_ge (number (pos 2)) (number (pos 1)))
binary-swap_example = binary-swap (number (pos 1)) (number (pos 2))
