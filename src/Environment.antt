-- ===== src/Environment.antt =====
-- The inventories of lpmud/simulate.c: move_object, add_light and remove_sent. Objects are their
-- addresses, and the chain of an inventory through `next_inv` is a list. Walks have fuel, and `none` is
-- the end of it.
pub mod Tree
mod Light
pub mod Parts
mod Walks
mod Moves
pub mod Results
mod Tests
use lpmud_ng.Base.{
  ℕ, zero, suc, ◌+◌, ◌-◌, ◌%◌, ltb, Bool, true, false, ◌==◌, if◌then◌else◌, not, ◌||◌, ◌&&◌, Option,
  none, some, List, [], ◌∷◌,
}
use lpmud_ng.Base.Int.{ℤ, pos, negsuc, ◌+ℤ◌, ◌-ℤ◌, leb_ℤ}
use lpmud_ng.Base.Run.{Run, ok, error, fatal, undefined, ◌>>=◌}
use lpmud_ng.Base.Text.{Chars}

-- `struct sentence` without its link
pub record Sentence : Type 0 where
  pub verb : Option Chars
  pub function : Option Chars
  pub ob : ℕ
  pub short_verb : Bool

-- The fields of the objects that a move reads and writes, and the command giver
pub record World : Type 0 where
  pub super : ℕ → Option ℕ
  pub contains : ℕ → List ℕ
  pub total_light : ℕ → ℤ
  pub enable_commands : ℕ → Bool
  pub not_touched : ℕ → Bool
  pub destructed : ℕ → Bool
  pub sent : ℕ → List Sentence
  pub command_giver : Option ℕ

abbrev pub Step : Type 0
Step = Option (Run World)

abbrev pub continue : Step → (World → Step) → Step
continue none k = none
continue (some (ok w)) k = k w
continue (some error) k = some error
continue (some fatal) k = some fatal
continue (some undefined) k = some undefined

abbrev pub set_super : ℕ → Option ℕ → World → World
set_super o p w = record w { super = λ q. if q == o then p else w.super q }

abbrev pub set_contains : ℕ → List ℕ → World → World
set_contains o l w = record w { contains = λ q. if q == o then l else w.contains q }

abbrev pub set_light : ℕ → ℤ → World → World
set_light o n w = record w { total_light = λ q. if q == o then n else w.total_light q }

abbrev pub without_ob : ℕ → List Sentence → List Sentence
without_ob ob [] = []
without_ob ob (s ∷ l) = if s.ob == ob then without_ob ob l else s ∷ without_ob ob l

-- The sentences that `ob` defined for `player` are unlinked.
unfoldable pub remove_sent : ℕ → ℕ → World → World
remove_sent ob player w = record w {
  sent = λ q. if q == player then without_ob ob (w.sent q) else w.sent q;
}

abbrev pub is_zero : ℤ → Bool
is_zero n = leb_ℤ n (pos 0) && leb_ℤ (pos 0) n

-- `total_light` is a short, and what is assigned to it keeps its last 16 bits.
abbrev pub from_bits : ℕ → ℤ
from_bits n = if ltb n 32768 then pos n else negsuc (65535 - n)

abbrev pub short : ℤ → ℤ
short (pos n) = from_bits (n % 65536)
short (negsuc n) = from_bits (65535 - n % 65536)

unfoldable pub add_light : ℕ → Option ℕ → ℤ → World → Step
add_light zero p n w = none
add_light (suc fuel) none n w = some (ok w)
add_light (suc fuel) (some p) n w =
    let rest = add_light fuel (w.super p) n (set_light p (short (w.total_light p +ℤ n)) w) in
    if is_zero n then some (ok w) else rest

-- Whether `item` is `ob` or one of the objects around it
unfoldable pub is_inside : ℕ → ℕ → Option ℕ → World → Option Bool
is_inside zero item ob w = none
is_inside (suc fuel) item none w = some false
is_inside (suc fuel) item (some ob) w =
    let rest = is_inside fuel item (w.super ob) w in if ob == item then some true else rest

-- The walk along the old inventory: the list without `item`, and whether it was there
abbrev pub take_out : ℕ → List ℕ → List ℕ
take_out item [] = []
take_out item (o ∷ l) = if o == item then take_out item l else o ∷ take_out item l

abbrev pub is_there : ℕ → List ℕ → Bool
is_there item [] = false
is_there item (o ∷ l) = o == item || is_there item l

-- The sentences between `item` and what it leaves behind
unfoldable pub part : ℕ → List ℕ → World → World
part item [] w = w
part item (o ∷ l) w =
    let w1 = if w.enable_commands o then remove_sent item o w else w in
    let w2 = if w1.enable_commands item then remove_sent o item w1 else w1 in
    if o == item then part item l w else part item l w2

unfoldable pub unlink_from : ℕ → ℕ → World → Run World
unlink_from item s w =
    if is_there item (w.contains s)
    then ok (set_contains s (take_out item (w.contains s)) (part item (w.contains s) w))
    else fatal

abbrev pub run : Run World → Step
run m = some m

unfoldable pub leave_now : ℕ → ℕ → Option ℕ → World → Step
leave_now fuel item none w = some undefined
leave_now fuel item (some s) w =
    let w1 = if w.enable_commands s then remove_sent item s w else w in
    continue (add_light fuel (some s) (pos 0 -ℤ w1.total_light item) w1)
      (λ w2. run (unlink_from item s w2))

abbrev pub next_in : ℕ → List ℕ → Option ℕ
next_in o [] = none
next_in o (x ∷ []) = none
next_in o (x ∷ y ∷ l) = if x == o then some y else next_in o (y ∷ l)

-- `ob->next_inv`
abbrev pub next_inv : ℕ → Option ℕ → World → Option ℕ
next_inv ob none w = none
next_inv ob (some s) w = next_in ob (w.contains s)

abbrev pub first_in : List ℕ → Option ℕ
first_in [] = none
first_in (x ∷ l) = some x

unfoldable pub link_into : ℕ → ℕ → World → World
link_into item dest w = set_super item (some dest) (set_contains dest (item ∷ w.contains dest) w)

pub data Event : Type 0 where
  reset exit init : Event

-- `lpc` is what the function of an object does that `apply` calls, if it ends without an error.
module _ (lpc : Event → ℕ → World → World) where
  -- A function that is called with a command giver
  abbrev pub call_as : ℕ → Event → ℕ → World → World
  call_as giver e ob w = lpc e ob (record w { command_giver = some giver })

  -- The reset of an object that was not touched before; the move ends if it is destructed.
  unfoldable pub touch : ℕ → (World → Step) → World → Step
  touch o k w =
      let w1 =
        lpc reset o (record w { not_touched = λ q. if q == o then false else w.not_touched q }) in
      if w.not_touched o then if w1.destructed o then some (ok w1) else k w1 else k w

  abbrev pub remove_exit : ℕ → Option ℕ → World → Run World
  remove_exit item none w = undefined
  remove_exit item (some s) w = ok (remove_sent s item w)

  unfoldable pub leave_from : ℕ → ℕ → Option ℕ → World → Step
  leave_from fuel item none w = some (ok w)
  leave_from fuel item (some s) w =
      let w1 = call_as item exit s w in
      let exits = if w.enable_commands item then remove_exit item (w1.super item) w1 else ok w in
      continue (run exits) (λ w2. leave_now fuel item (w2.super item) w2)

  abbrev pub greet : ℕ → ℕ → World → World
  greet item ob w =
      let w1 = if w.enable_commands ob then call_as ob init item w else w in
      if w1.enable_commands item then call_as item init ob w1 else w1

  -- The loop over the inventory of the destination
  unfoldable pub greet_all : ℕ → ℕ → Option ℕ → World → Step
  greet_all zero item ob w = none
  greet_all (suc fuel) item none w = some (ok w)
  greet_all (suc fuel) item (some ob) w =
      let w1 = if ob == item then w else greet item ob w in
      greet_all fuel item (next_inv ob (w1.super ob) w1) w1

  unfoldable pub settle : ℕ → ℕ → ℕ → Option ℕ → World → Step
  settle fuel item dest saved w =
      let w1 = if w.enable_commands dest then call_as dest init item w else w in
      add_light fuel (some dest) (w1.total_light item) (record w1 { command_giver = saved })

  unfoldable pub arrive : ℕ → ℕ → ℕ → Option ℕ → World → Step
  arrive fuel item dest saved w =
      let w1 = link_into item dest w in
      let w2 = call_as item init dest w1 in
      let k : World → Step = λ u.
        continue (greet_all fuel item (first_in (u.contains dest)) u)
          (settle fuel item dest saved) in
      if w1.enable_commands item then if w2.destructed dest then some (ok w2) else k w2 else k w1

  abbrev pub move_on : ℕ → ℕ → ℕ → Option ℕ → World → Step
  move_on fuel item dest saved w =
      continue (leave_from fuel item (w.super item) w) (arrive fuel item dest saved)

  abbrev pub unless_inside : Option Bool → World → Step → Step
  unless_inside none w s = none
  unless_inside (some true) w s = some (ok w)
  unless_inside (some false) w s = s

  unfoldable pub move_object : ℕ → ℕ → ℕ → World → Step
  move_object fuel item dest w =
      unless_inside (is_inside fuel item (some dest) w) w
        (touch item (touch dest (move_on fuel item dest w.command_giver)) w)

-- All that a run computes with.
unfoldable pub program : Unit {0}
unfolding ◌+ℤ◌ ◌-ℤ◌ remove_sent add_light is_inside part unlink_from leave_now link_into touch
    leave_from greet_all settle arrive move_object
program = tt
