-- ===== src/Commands/Tests.antt =====
-- Runs of the commands, and the theorems on them at concrete players and sentences.
use lpmud_ng.Base.{
  ℕ, ◌≡◌, refl, sym, ap, subst, Bool, true, false, ◌==◌, if◌then◌else◌, Option, none, some, List,
  Bool-cases, inl, inr, [], ◌∷◌, arith, IsDistinct,
}
use lpmud_ng.Base.Int.{ℤ, pos, ◌+ℤ◌}
use lpmud_ng.Base.Run.{Run, ok, error, ◌>>=◌}
use lpmud_ng.Base.Text.{Chars, codes, str_eq, starts_with}
use lpmud_ng.Commands.{
  World, put, blank, link_new, alloc_sentence, remove_sent, add_action, add_verb,
}
use lpmud_ng.Commands.Parser.{
  special_parse, clear_notify, notify_no_command, Reply, missing, failed, done, no_command, walk,
  player_parser, parse_command,
}
use lpmud_ng.Environment
use lpmud_ng.Commands.Links.{Leads}
use lpmud_ng.Commands.Listed.{Shows, remove_sent_lem}
use lpmud_ng.Commands.Sentences.{IsPool}
use lpmud_ng.Commands.Actions.{add_action-IsPool}
use lpmud_ng.Commands.Quiet.{Alike, IsQuiet, try_each}
use lpmud_ng.Commands.Answers.{freed_stops, player_parser_lem}
use lpmud_ng.Commands.Newest.{action_first}

-- Player 1 stands in room 9 and holds the sword 2; the bell 3 is in the room. The sentences 20 of the
-- sword and 21 of the bell are linked to him, and 22 is free.
abbrev hall : World
hall = record {
  next = λ p. if p == 20 then some 21 else none;
  verb =
      λ p. if p == 20 then some (codes "wield") else if p == 21 then some (codes "ring") else none;
  function = λ p.
      if p == 20 then some (codes "wield_it") else if p == 21 then some (codes "ring_it") else none;
  ob = λ p. if p == 20 then 2 else 3;
  short_verb = λ p. false;
  sent_free = some 22;
  tot_alloc_sentence = 3;
  sent = λ o. if o == 1 then some 20 else none;
  super = λ o. if o == 2 then some 1 else if o == 9 then none else some 9;
  destructed = λ o. false;
  interactive = λ o. o == 1;
  default_err_message = λ o. some (codes "Hm ?");
  is_wizard = λ o. false;
  wl = λ o. if o == 3 then some 5 else none;
  score = λ z. pos 7;
  current_object = none;
  command_giver = some 1;
  last_verb = none;
}

abbrev chain : ℕ → List ℕ
chain o = if o == 1 then 20 ∷ 21 ∷ [] else []

-- A function that is called "ring_it" returns 1, and any other 0.
abbrev reply_to : Option Chars → Reply
reply_to none = missing
reply_to (some f) = if str_eq f (codes "ring_it") then done else failed

abbrev answer : Option Chars → ℕ → Option Chars → World → Run (Reply × World)
answer f o a w = ok (reply_to f, w)

abbrev shown : Option (Run (Bool × World)) → Option (Bool × Option Chars × ℤ)
shown none = none
shown (some (ok (b, w))) = some (b, w.default_err_message 1, w.score 5)
shown (some r) = none

rings : shown (player_parser answer 3 (codes "ring bell  ") hall) ≡ some (true, none, pos 8)
unfolding player_parser special_parse str_eq clear_notify walk ◌+ℤ◌
rings = refl

no_such : shown (player_parser answer 3 (codes "wield") hall) ≡ some (false, none, pos 7)
unfolding player_parser special_parse str_eq clear_notify notify_no_command walk
no_such = refl

too_long_verb :
    shown (parse_command answer 3 (codes "rings") (some 1) hall) ≡ some (false, none, pos 7)
unfolding parse_command player_parser special_parse str_eq clear_notify notify_no_command walk
too_long_verb = refl

verb_twice : add_verb (codes "hit") hall ≡ error
unfolding add_verb
verb_twice = refl

chain_leads :
    (b : Bool) → Leads hall.next (if b then some 20 else none) (if b then 20 ∷ 21 ∷ [] else [])
chain_leads true = (refl, (refl, refl))
chain_leads false = refl

chain-IsDistinct : (b : Bool) → IsDistinct (if b then 20 ∷ 21 ∷ [] else [])
chain-IsDistinct true = (refl, (refl, tt))
chain-IsDistinct false = tt

hall-IsPool : IsPool chain (22 ∷ []) hall
hall-IsPool = record {
  leads = λ o. chain_leads (o == 1);
  unused = (refl, refl);
  distinct = λ o. chain-IsDistinct (o == 1);
  distinct_free = (refl, tt);
  apart = λ o p q ne m. ground arith;
  apart_free = λ o q m. ground arith;
  blank = λ q m. ground arith;
}

-- The sentences of the hall as lists
abbrev listed : Environment.World
listed = record {
  super = hall.super;
  contains = λ o. if o == 9 then 3 ∷ 1 ∷ [] else if o == 1 then 2 ∷ [] else [];
  total_light = λ o. pos 0;
  enable_commands = λ o. o == 1;
  not_touched = λ o. false;
  destructed = λ o. false;
  sent = λ o.
      if o == 1
      then record {
        verb = some (codes "wield");
        function = some (codes "wield_it");
        ob = 2;
        short_verb = false;
      }
        ∷ record {
          verb = some (codes "ring");
          function = some (codes "ring_it");
          ob = 3;
          short_verb = false;
        }
        ∷ []
      else [];
  command_giver = some 1;
}

hall-Shows : Shows chain hall listed
hall-Shows o = elim (Bool-cases (o == 1)) [ inl e ↦ rw e refl | inr e ↦ rw e refl ]

remove_sent_lem_example :
    (w' : World) × (remove_sent 2 2 1 hall ≡ some w')
    × IsPool (put 1 (21 ∷ []) chain) (20 ∷ 22 ∷ []) w'
    × Shows (put 1 (21 ∷ []) chain) w' (Environment.remove_sent 2 1 listed)
remove_sent_lem_example =
    remove_sent_lem 2 2 1 chain (22 ∷ []) hall listed (omega arith) hall-IsPool hall-Shows

-- The bell adds a command.
abbrev bell_acts : World
bell_acts = record hall { current_object = some 3 }

abbrev with_pull : World
with_pull =
    link_new (codes "ring_it") (some (codes "pull")) true 3 1
      (blank (22, record bell_acts { sent_free = none }))

pull_added : add_action 23 (codes "ring_it") (some (codes "pull")) true bell_acts ≡ ok with_pull
unfolding add_action alloc_sentence str_eq
pull_added = refl

bell-IsPool : IsPool chain (22 ∷ []) bell_acts
bell-IsPool = record {
  leads = hall-IsPool.leads;
  unused = hall-IsPool.unused;
  distinct = hall-IsPool.distinct;
  distinct_free = hall-IsPool.distinct_free;
  apart = hall-IsPool.apart;
  apart_free = hall-IsPool.apart_free;
  blank = hall-IsPool.blank;
}

add_action-IsPool_example : IsPool (put 1 (22 ∷ 20 ∷ 21 ∷ []) chain) [] with_pull
add_action-IsPool_example =
    add_action-IsPool 23 (codes "ring_it") (some (codes "pull")) true 1 chain (22 ∷ []) bell_acts
      with_pull refl pull_added (λ o. ground arith) bell-IsPool

action_first_example :
    (w'' : World) × (player_parser answer 1
        (codes "pull rope")
        (record with_pull { current_object = none })
      ≡ some (ok (true, w'')))
unfolding special_parse str_eq starts_with
action_first_example =
    action_first answer 23 0 b'p' 3 1 (codes "ring_it") (codes "pull") (codes "pull rope")
      (codes "ull rope") (codes "pull rope") true none bell_acts with_pull refl refl refl pull_added
      refl refl refl refl (λ u g c d. (u, refl, g, c, d))

answer_keeps :
    (f : Option Chars) (o : ℕ) (a : Option Chars) (w w' : World) (r : Reply)
    → answer f o a w ≡ ok (r, w')
    → w ≡ w'
answer_keeps f o a w w' r e = cc e

answer-IsQuiet : IsQuiet answer
answer-IsQuiet = record {
  same = λ f o a w w' r e. subst (Alike w) (answer_keeps f o a w w' r e) (record {
    next = refl;
    verb = refl;
    short_verb = refl;
    ob = refl;
    destructed = refl;
    command_giver = refl;
  });
  back = λ f o a w w' r e. ap (λ u. u.current_object) (sym (answer_keeps f o a w w' r e));
}

player_parser_lem_example :
    player_parser answer 3 (codes "ring bell") hall
    ≡ some (
        clear_notify (some 1) hall >>= λ w1.
        try_each answer (codes "ring bell") 4 none (21 ∷ []) w1)
unfolding special_parse str_eq
player_parser_lem_example =
    player_parser_lem answer 3 b'r' (codes "ring bell") (codes "ing bell") (codes "ring bell") 1
      (20 ∷ 21 ∷ []) hall answer-IsQuiet refl refl refl (refl, (refl, refl)) (omega arith)
      (refl, (refl, tt))

-- The sword drops itself, which takes away its sentence, and its function returns 0.
abbrev dropped : World
dropped = record hall {
  verb = λ p. if p == 20 then none else if p == 21 then some (codes "ring") else none;
  function = λ p. if p == 20 then none else if p == 21 then some (codes "ring_it") else none;
  next = λ p. if p == 20 then some 22 else none;
  sent_free = some 20;
  sent = λ o. if o == 1 then some 21 else none;
  last_verb = some (codes "wield");
  current_object = some 2;
}

abbrev drops : Option Chars → ℕ → Option Chars → World → Run (Reply × World)
drops f o a w = ok (failed, dropped)

abbrev left_chain : ℕ → List ℕ
left_chain o = if o == 1 then 21 ∷ [] else []

dropped_leads :
    (b : Bool) → Leads dropped.next (if b then some 21 else none) (if b then 21 ∷ [] else [])
dropped_leads true = (refl, refl)
dropped_leads false = refl

left-IsDistinct : (b : Bool) → IsDistinct (if b then 21 ∷ [] else [])
left-IsDistinct true = (refl, tt)
left-IsDistinct false = tt

dropped-IsPool : IsPool left_chain (20 ∷ 22 ∷ []) dropped
dropped-IsPool = record {
  leads = λ o. dropped_leads (o == 1);
  unused = (refl, (refl, refl));
  distinct = λ o. left-IsDistinct (o == 1);
  distinct_free = (refl, (refl, tt));
  apart = λ o p q ne m. ground arith;
  apart_free = λ o q m. ground arith;
  blank = λ q m. ground arith;
}

freed_stops_example :
    walk drops 3 (codes "wield") 5 none (some 20) hall
    ≡ no_command (record dropped { last_verb = none; current_object = none })
unfolding str_eq
freed_stops_example =
    freed_stops drops 2 (codes "wield") 5 none 20 2 left_chain (20 ∷ 22 ∷ []) hall dropped refl refl
      refl refl dropped-IsPool refl (omega arith)
