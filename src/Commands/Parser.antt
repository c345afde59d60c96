-- ===== src/Commands/Parser.antt =====
-- The parser of lpmud/simulate.c for what a player types: player_parser with special_parse, and
-- the calls of it, parse_command of lpmud/backend.c and command_for_object. The LPC functions of
-- the commands are a parameter.
use lpmud_ng.Base.{
  ℕ, zero, suc, Bool, true, false, ◌==◌, ltb, if◌then◌else◌, not, ◌&&◌, Option, none, some, [], ◌∷◌,
  length, take, drop,
}
use lpmud_ng.Base.Int.{pos, ◌+ℤ◌}
use lpmud_ng.Base.Run.{Run, ok, error, fatal, undefined, ◌>>=◌}
use lpmud_ng.Base.Text.{Chars, codes, str_eq, starts_with}
use lpmud_ng.Commands.{World, put}

abbrev pub cons_unless_blank : ℕ → Chars → Chars
cons_unless_blank c [] = if c == 32 then [] else c ∷ []
cons_unless_blank c (d ∷ s) = c ∷ d ∷ s

-- Without the spaces at the end
abbrev pub strip_all : Chars → Chars
strip_all [] = []
strip_all (c ∷ s) = cons_unless_blank c (strip_all s)

-- The loop does not come to the first byte.
abbrev pub strip : Chars → Chars
strip [] = []
strip (c ∷ s) = c ∷ strip_all s

-- Whether the driver has answered a command itself, and else what a short direction stands for.
-- Its answers are printed only; sysalloc is the allocator.
unfoldable pub special_parse : Chars → Bool × Chars
special_parse buff =
    if str_eq buff (codes "malloc")
    then (true, buff)
    else if str_eq buff (codes "dumpallobj")
    then (true, buff)
    else if str_eq buff (codes "status")
    then (true, buff)
    else if str_eq buff (codes "e")
    then (false, codes "east")
    else if str_eq buff (codes "w")
    then (false, codes "west")
    else if str_eq buff (codes "s")
    then (false, codes "south")
    else if str_eq buff (codes "n")
    then (false, codes "north")
    else if str_eq buff (codes "ne")
    then (false, codes "northeast")
    else if str_eq buff (codes "nw")
    then (false, codes "northwest")
    else if str_eq buff (codes "se")
    then (false, codes "southeast")
    else if str_eq buff (codes "sw")
    then (false, codes "southwest")
    else if str_eq buff (codes "d")
    then (false, codes "down")
    else if str_eq buff (codes "u")
    then (false, codes "up")
    else (false, buff)

-- `length`: the bytes before the first space
abbrev pub word_length : Chars → ℕ
word_length [] = 0
word_length (c ∷ s) = if c == 32 then 0 else suc (word_length s)

abbrev pub fits : Option Chars → Bool → Chars → ℕ → Bool
fits none short buff n = false
fits (some v) true buff n = starts_with buff v
fits (some v) false buff n = length v == n && str_eq (take n buff) v

-- What follows the word, if a space does
abbrev pub argument : Chars → Option Chars
argument [] = none
argument (c ∷ s) = if c == 32 then some s else none

abbrev pub min : ℕ → ℕ → ℕ
min a b = if ltb a b then a else b

abbrev pub object_or : ℕ → Option ℕ → ℕ
object_or p none = p
object_or p (some o) = o

unfoldable pub clear_notify : Option ℕ → World → Run World
clear_notify none w = undefined
clear_notify (some giver) w = ok (
    if w.interactive giver
    then record w { default_err_message = put giver none w.default_err_message }
    else w)

-- The message is printed and is gone then, as clear_notify does it.
unfoldable pub notify_no_command : Option ℕ → World → Run World
unfolding clear_notify
notify_no_command giver w = clear_notify giver w

-- What the function of a command comes to: there is none, it returns the number 0, or anything else.
pub data Reply : Type 0 where
  missing failed done : Reply

-- The wizard of the object gets a point for a command of a player who is none.
abbrev pub rewarded : Option ℕ → Option ℕ → World → Run (Bool × World)
rewarded giver none w = ok (true, w)
rewarded none (some z) w = undefined
rewarded (some giver) (some z) w = ok (
  true,
  if w.interactive giver && not (w.is_wizard giver)
      then record w { score = put z (w.score z +ℤ pos 1) w.score }
      else w,
)

abbrev pub Parse : Type 0
Parse = Option (Run (Bool × World))

abbrev pub no_command : World → Parse
no_command w = some (notify_no_command w.command_giver w >>= λ w1. ok (false, w1))

-- The end of a call that did not return 0, with the sentence that is then pointed to
abbrev pub found : Option ℕ → World → Parse
found none w = no_command w
found (some p) w = some (rewarded w.command_giver (w.wl (w.ob p)) w)

abbrev pub is_failed : Reply → Bool
is_failed missing = false
is_failed failed = true
is_failed done = false

-- The next sentence; from none it is read through a null pointer.
abbrev pub go_on : (Option ℕ → World → Parse) → Option ℕ → World → Parse
go_on walk none w = some undefined
go_on walk (some p) w = walk (w.next p) w

abbrev pub first_of : Option ℕ → World → Option ℕ
first_of none w = none
first_of (some giver) w = w.sent giver

abbrev pub settle : (Option ℕ → World → Parse) → Option ℕ → Reply → Option ℕ → World → Parse
settle walk saved reply s w =
    let w1 = record w { last_verb = none; current_object = saved } in
    if is_failed reply then go_on walk s w1 else found s w1

-- The parser looks again from the first sentence, if the current object is destructed.
abbrev pub after_call : (Option ℕ → World → Parse) → Option ℕ → ℕ → Option ℕ → Reply → World → Parse
after_call walk saved p none reply w = some undefined
after_call walk saved p (some o) reply w =
    settle walk saved reply (if w.destructed o then first_of w.command_giver w else some p) w

abbrev pub with_reply : Run (Reply × World) → (Reply → World → Parse) → Parse
with_reply (ok (r, w)) k = k r w
with_reply error k = some error
with_reply fatal k = some fatal
with_reply undefined k = some undefined

-- The state in which the function of a sentence is called
abbrev pub calling : ℕ → Chars → ℕ → World → World
calling p buff n w = record w {
  last_verb = some (take (min n 19) buff);
  current_object = some (object_or (w.ob p) w.current_object);
}

-- `lpc` is what `apply` of a function of an object comes to, with its argument.
module _ (lpc : Option Chars → ℕ → Option Chars → World → Run (Reply × World)) where
  abbrev pub call : ℕ → Chars → ℕ → World → Run (Reply × World)
  call p buff n w = lpc (w.function p) (w.ob p) (argument (drop n buff)) (calling p buff n w)

  unfoldable pub walk : ℕ → Chars → ℕ → Option ℕ → Option ℕ → World → Parse
  walk zero buff n saved s w = none
  walk (suc fuel) buff n saved none w = no_command w
  walk (suc fuel) buff n saved (some p) w =
      let rest = walk fuel buff n saved in
      if fits (w.verb p) (w.short_verb p) buff n
      then with_reply (call p buff n w) (λ r w1. after_call rest saved p w1.current_object r w1)
      else rest (w.next p) w

  abbrev pub search_from : ℕ → Chars → Run World → Parse
  search_from fuel buff (ok w) =
      walk fuel buff (word_length buff) w.current_object (first_of w.command_giver w) w
  search_from fuel buff error = some error
  search_from fuel buff fatal = some fatal
  search_from fuel buff undefined = some undefined

  abbrev pub parse_special : ℕ → Bool × Chars → World → Parse
  parse_special fuel (true, buff) w = some (ok (true, w))
  parse_special fuel (false, buff) w = search_from fuel buff (clear_notify w.command_giver w)

  abbrev pub parse_stripped : ℕ → Chars → World → Parse
  parse_stripped fuel [] w = some (ok (false, w))
  parse_stripped fuel (c ∷ s) w = parse_special fuel (special_parse (c ∷ s)) w

  unfoldable pub player_parser : ℕ → Chars → World → Parse
  player_parser fuel buff w = parse_stripped fuel (strip buff) w

  abbrev pub give_back : Option ℕ → Parse → Parse
  give_back giver none = none
  give_back giver (some (ok (b, w))) = some (ok (b, record w { command_giver = giver }))
  give_back giver (some error) = some error
  give_back giver (some fatal) = some fatal
  give_back giver (some undefined) = some undefined

  unfoldable pub parse_command : ℕ → Chars → Option ℕ → World → Parse
  parse_command fuel str ob w =
      give_back w.command_giver (player_parser fuel str (record w { command_giver = ob }))

  abbrev pub or_current : Option ℕ → Option ℕ → Option ℕ
  or_current none current = current
  or_current (some o) current = some o

  unfoldable pub command_for_object : ℕ → Chars → Option ℕ → World → Parse
  command_for_object fuel str ob w =
      if ltb 999 (length str)
      then some error
      else parse_command fuel str (or_current ob w.current_object) w
