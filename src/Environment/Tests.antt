-- ===== src/Environment/Tests.antt =====
-- Runs of move_object, and its theorem at a small world.
use lpmud_ng.Base.{ℕ, ◌==◌, ◌≡◌, refl, arith, Bool, true, false, if◌then◌else◌, none, some, [], ◌∷◌}
use lpmud_ng.Base.Int.{pos}
use lpmud_ng.Base.Run.{ok}
use lpmud_ng.Base.Text.{codes}
use lpmud_ng.Base.Chain
use lpmud_ng.Environment.{World, Event, Step, is_inside, move_object, program}
use lpmud_ng.Environment.Tree.{Above, IsTree}
use lpmud_ng.Environment.Parts.{IsQuiet}
use lpmud_ng.Environment.Results.{Moved, move_object_lem}
use lpmud_ng.Environment.Light.{sum_light, lack, of_eq, IsLit, IsLitBut, add_light-IsLit}
use lpmud_ng.Environment.{add_light}
use lpmud_ng.Base.Int.{ℤ, ◌+ℤ◌}

-- The room 1 with the player 2, who has the lamp 3, and the room 5 with the monster 6.
abbrev world : World
world = record {
  super =
      λ o. if o == 2 then some 1 else if o == 3 then some 2 else if o == 6 then some 5 else none;
  contains =
      λ o. if o == 1 then 2 ∷ [] else if o == 2 then 3 ∷ [] else if o == 5 then 6 ∷ [] else [];
  total_light = λ o. if o == 5 then pos 0 else if o == 6 then pos 0 else pos 1;
  enable_commands = λ o. if o == 2 then true else o == 6;
  not_touched = λ o. false;
  destructed = λ o. false;
  sent = λ o.
      if o == 2
      then record {
        verb = some (codes "look");
        function = some (codes "look");
        ob = 1;
        short_verb = false;
      }
        ∷ record {
          verb = some (codes "light");
          function = some (codes "light");
          ob = 3;
          short_verb = false;
        }
        ∷ []
      else [];
  command_giver = some 9;
}

abbrev quiet : Event → ℕ → World → World
quiet e o w = w

quiet-IsQuiet : IsQuiet quiet
quiet-IsQuiet e o w = record { supers = refl; holds = refl; enables = refl; alive = refl }

abbrev after_move : Step → World
after_move (some (ok w)) = w
after_move _ = world

-- The player walks to the room 5.
abbrev walked : World
walked = after_move (move_object quiet 9 2 5 world)

inventories : (walked.contains 1 ≡ []) × (walked.contains 5 ≡ 2 ∷ 6 ∷ [])
unfolding program
inventories = (refl, refl)

lights : (walked.total_light 1 ≡ pos 0) × (walked.total_light 5 ≡ pos 1)
unfolding program
lights = (refl, refl)

-- The sentences of the room are gone, those of the lamp stay.
sentences :
    walked.sent 2
    ≡ record {
      verb = some (codes "light");
      function = some (codes "light");
      ob = 3;
      short_verb = false;
    }
      ∷ []
unfolding program
sentences = refl

-- The player cannot be moved into the lamp, which he holds.
into_lamp : (after_move (move_object quiet 9 2 3 world)).super 2 ≡ some 1
unfolding program
into_lamp = refl

world-Above :
    (a b c : Bool)
    → Above world.super (if a then some 1 else if b then some 2 else if c then some 5 else none) 8
world-Above true b c = tt
world-Above false true c = tt
world-Above false false true = tt
world-Above false false false = tt

world-IsTree : IsTree 9 world.super world.contains
unfolding Chain.count
world-IsTree = record {
  ends = λ o. world-Above (o == 2) (o == 3) (o == 6);
  stands = λ s o. ground arith;
}

move_object_lem_example :
    (inside : Bool) × (is_inside 10 2 (some 5) world ≡ some inside)
    × (u : World) × (move_object quiet 10 2 5 world ≡ some (ok u))
    × Moved quiet quiet-IsQuiet 9 2 5 inside world u
move_object_lem_example =
    move_object_lem quiet quiet-IsQuiet 10 9 2 5 world world-IsTree (omega arith) (omega arith) refl
      refl

-- The monster 6 has lit a torch, which is not counted yet.
abbrev torch_own : ℕ → ℤ
torch_own o = if o == 1 then pos 0 else if o == 2 then pos 0 else if o == 5 then pos 0 else pos 1

torch_light :
    (o : ℕ)
    → world.total_light o +ℤ lack (some 6) (pos 1) o
      ≡ torch_own o +ℤ sum_light world.total_light (world.contains o)
unfolding ◌+ℤ◌
torch_light o = ground arith

torch-IsLitBut : IsLitBut torch_own world.contains world.total_light (some 6) (pos 1)
torch-IsLitBut o =
    of_eq (world.total_light o +ℤ lack (some 6) (pos 1) o)
      (torch_own o +ℤ sum_light world.total_light (world.contains o)) (torch_light o)

add_light-IsLit_example :
    (u : World) × (add_light 10 (some 6) (pos 1) world ≡ some (ok u))
    × IsLit torch_own u.contains u.total_light
add_light-IsLit_example =
    add_light-IsLit 10 9 (some 6) (pos 1) torch_own world (omega arith) tt world-IsTree.stands
      torch-IsLitBut
