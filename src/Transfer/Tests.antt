-- ===== src/Transfer/Tests.antt =====
-- Runs of transfer_object, and its theorem at a small world.
use lpmud_ng.Base.{
  ℕ, ◌==◌, ◌≡◌, refl, arith, Bool, true, false, if◌then◌else◌, Option, none, some, [], ◌∷◌,
}
use lpmud_ng.Base.Int.{pos}
use lpmud_ng.Base.Run.{ok}
use lpmud_ng.Base.Chain
use lpmud_ng.Value.{Value, number}
use lpmud_ng.Environment.{World, Event, Step}
use lpmud_ng.Environment.Tree.{Above, IsTree}
use lpmud_ng.Environment.Parts.{IsQuiet}
use lpmud_ng.Transfer.{
  Question, query_weight, drop, can_put_and_get, prevent_insert, get, add_weight, Outcome,
  transfer_object, program,
}
use lpmud_ng.Transfer.{move_or_destruct}
use lpmud_ng.Transfer.Results.{IsCalm}
use lpmud_ng.Transfer.Verdict.{Transferred, transfer_object_lem}

-- The room 1 with the player 2 and the lamp 3
abbrev room : World
room = record {
  super = λ o. if o == 2 then some 1 else if o == 3 then some 1 else none;
  contains = λ o. if o == 1 then 2 ∷ 3 ∷ [] else [];
  total_light = λ o. pos 0;
  enable_commands = λ o. o == 2;
  not_touched = λ o. false;
  destructed = λ o. false;
  sent = λ o. [];
  command_giver = some 2;
}

abbrev quiet : Event → ℕ → World → World
quiet e o w = w

quiet-IsQuiet : IsQuiet quiet
quiet-IsQuiet e o w = record { supers = refl; holds = refl; enables = refl; alive = refl }

-- The lamp weighs 2 and can be taken; the player can carry it if `strong`.
abbrev answers : Bool → Question → ℕ → Option Value → World → Option Value × World
answers strong query_weight o a w = (some (number (pos 2)), w)
answers strong get o a w = (some (number (pos 1)), w)
answers true add_weight o a w = (some (number (pos 1)), w)
answers false add_weight o a w = (some (number (pos 0)), w)
answers strong drop o a w = (none, w)
answers strong prevent_insert o a w = (none, w)
answers strong can_put_and_get o a w = (none, w)

abbrev seen : Outcome → ℕ × Option ℕ
seen (some (ok (code, w))) = (code, w.super 3)
seen _ = (9, none)

taken : seen (transfer_object (answers true) quiet 9 3 2 room) ≡ (0, some 2)
unfolding program
taken = refl

too_heavy : seen (transfer_object (answers false) quiet 9 3 2 room) ≡ (1, some 1)
unfolding program
too_heavy = refl

answers-IsCalm : IsCalm (answers true)
answers-IsCalm query_weight o a w = quiet-IsQuiet Event.init o w
answers-IsCalm get o a w = quiet-IsQuiet Event.init o w
answers-IsCalm add_weight o a w = quiet-IsQuiet Event.init o w
answers-IsCalm drop o a w = quiet-IsQuiet Event.init o w
answers-IsCalm prevent_insert o a w = quiet-IsQuiet Event.init o w
answers-IsCalm can_put_and_get o a w = quiet-IsQuiet Event.init o w

room-Above : (a b : Bool) → Above room.super (if a then some 1 else if b then some 1 else none) 4
room-Above true b = tt
room-Above false true = tt
room-Above false false = tt

room-IsTree : IsTree 5 room.super room.contains
unfolding Chain.count
room-IsTree = record { ends = λ o. room-Above (o == 2) (o == 3); stands = λ s o. ground arith }

-- The same answers, in any world
abbrev said : Question → ℕ → Option Value → Option Value
said q o a = (answers true q o a room).0

said_steady :
    (q : Question) (o : ℕ) (a : Option Value) (w : World) → (answers true q o a w).0 ≡ said q o a
said_steady query_weight o a w = refl
said_steady get o a w = refl
said_steady add_weight o a w = refl
said_steady drop o a w = refl
said_steady prevent_insert o a w = refl
said_steady can_put_and_get o a w = refl

transfer_object_lem_example :
    (u : World) × (transfer_object (answers true) quiet 9 3 2 room ≡ some (ok (0, u)))
    × Transferred
        (answers true)
        quiet
        answers-IsCalm
        said
        said_steady
        quiet-IsQuiet
        9
        5
        3
        2
        room
        none
        u
transfer_object_lem_example =
    transfer_object_lem (answers true) quiet answers-IsCalm said said_steady quiet-IsQuiet 9 5 3 2
      (some (pos 2)) room refl room-IsTree (omega arith) (omega arith) refl refl

abbrev gone : ℕ → World → World
gone o w = record w { destructed = λ q. if q == o then true else w.destructed q }

abbrev place : Step → Bool × Option ℕ
place (some (ok w)) = (w.destructed 3, w.super 3)
place _ = (false, none)

-- Nobody can carry the lamp: it goes from the player to the room.
falls : place (move_or_destruct (answers false) quiet gone 3 9 3 (some 2) room) ≡ (false, some 1)
unfolding program
falls = refl

nowhere : place (move_or_destruct (answers true) quiet gone 3 9 3 none room) ≡ (true, some 1)
unfolding program
nowhere = refl
