-- ===== src/CallOut/Tests.antt =====
-- Runs of call_out.c's functions, and its theorems at concrete lists of calls.
use mathlib.Core.Option
use lpmud_ng.Base.{◌≡◌, refl, Bool, false, List, [], ◌∷◌, none, some, ◌==◌, arith, map}
use lpmud_ng.Base.Int.{ℤ, pos, negsuc, ◌-ℤ◌}
use lpmud_ng.Base.Text.{Chars, codes}
use lpmud_ng.CallOut.Due.{due, remove_due}
use lpmud_ng.CallOut.Served.{IsQuiet, Served, elapsed}
use lpmud_ng.CallOut.Loop.{call_out_lem}
use lpmud_ng.CallOut.Pending.{
  Adds, Removes, SameRefs, new_target, new_call_out_lem, remove_call_out_lem, new-remove,
}
use lpmud_ng.CallOut.{
  Calls, Driver, Invocation, new_call_out, remove_call_out, call_out, not_negative, program,
}
use lpmud_ng.Value.{Value, number, object, Refs}

abbrev empty : Calls
empty = record { pending = []; free = 0; num_call = 0 }

abbrev no_refs : Refs
no_refs = record { objects = λ _. pos 0; vectors = λ _. pos 0 }

abbrev heal : Chars
heal = codes "heal"

abbrev decay : Chars
decay = codes "decay"

-- Three calls of object 7: "decay" after 5 seconds, "heal" after 2, "decay" again after 2.
abbrev three : Calls × Refs
three =
    new_call_out 7 decay (pos 2) (some (object 9))
      (new_call_out 7 heal (pos 2) none (new_call_out 7 decay (pos 5) none (empty, no_refs)))

abbrev deltas : Calls → List (Chars × ℤ)
deltas c = map (λ x. (x.target.function, x.delta)) c.pending

three_deltas : deltas three.0 ≡ (decay, pos 2) ∷ (heal, pos 0) ∷ (decay, pos 3) ∷ []
unfolding program
three_deltas = refl

three_structures : (three.0.free ≡ 17) × (three.0.num_call ≡ 20)
unfolding program
three_structures = (refl, refl)

-- The first "decay" is removed, and "heal" still comes after 2 seconds.
removed :
    let (n, c, r) = remove_call_out 7 decay three in
    (n ≡ pos 2) × (deltas c ≡ (heal, pos 2) ∷ (decay, pos 3) ∷ [])
unfolding program
removed = (refl, refl)

not_pending : (remove_call_out 8 decay three).0 ≡ negsuc 0
unfolding program
not_pending = refl

abbrev quiet_lpc : Invocation → Driver → Driver × Bool
quiet_lpc i d = (d, false)

quiet_lpc-IsQuiet : IsQuiet quiet_lpc
quiet_lpc-IsQuiet = record {
  calls = λ i d. refl;
  destructed = λ i d. refl;
  enable_commands = λ i d. refl;
}

abbrev driver : Driver
driver = record {
  calls = three.0;
  refs = three.1;
  last_time = pos 100;
  command_giver = some 3;
  recovery = 1;
  destructed = λ ob. ob == 9;
  enable_commands = λ ob. ob == 7;
}

-- Four seconds later two of the three have been called, one with the destructed object as 0.
abbrev called : Driver × List Invocation → List (Chars × Value)
called r = map (λ i. (i.function, i.arg)) r.1

round_runs :
    Option.map called (call_out quiet_lpc 9 (pos 104) driver)
    ≡ some ((decay, number (pos 0)) ∷ (heal, number (pos 0)) ∷ [])
unfolding program
round_runs = refl

round_left :
    Option.map (λ r. deltas r.0.calls) (call_out quiet_lpc 9 (pos 104) driver)
    ≡ some ((decay, pos 1) ∷ [])
unfolding program
round_left = refl

new_call_out_lem_example :
    Adds
      (new_target 7 heal none three.1)
      (negsuc 4)
      (pos 0)
      three.0
      (new_call_out 7 heal (negsuc 4) none three).0
new_call_out_lem_example = new_call_out_lem 7 heal (negsuc 4) (pos 0) none three.0 three.1

remove_call_out_lem_example :
    Removes (remove_due 7 heal (due (pos 0) three.0.pending)) three (remove_call_out 7 heal three)
remove_call_out_lem_example = remove_call_out_lem 7 heal three.0 three.1

abbrev kill : Chars
kill = codes "kill"

new-remove_example :
    let (n, c', r') =
      remove_call_out 7 kill (new_call_out 7 kill (pos 3) (some (object 9)) three) in
    (n ≡ not_negative (pos 3))
    × (due (pos 0) c'.pending ≡ due (pos 0) three.0.pending)
    × SameRefs three.1 r'
unfolding program due remove_due
new-remove_example = new-remove 7 kill (pos 3) (some (object 9)) three.0 three.1 refl

call_out_lem_example :
    (r : Driver × List Invocation) × (call_out quiet_lpc 9 (pos 104) driver ≡ some r)
    × Served (due (pos 0 -ℤ elapsed (pos 104) driver) driver.calls.pending) driver r
    × (r.0.command_giver ≡ driver.command_giver)
    × (r.0.recovery ≡ driver.recovery)
unfolding program
call_out_lem_example = call_out_lem quiet_lpc quiet_lpc-IsQuiet 9 (pos 104) driver (omega arith)
