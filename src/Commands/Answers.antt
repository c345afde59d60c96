-- ===== src/Commands/Answers.antt =====
-- The sentences that player_parser of lpmud/simulate.c comes to: all of the player in turn, none from
-- one that was freed.
use lpmud_ng.Base.{
  ℕ, zero, suc, ◌<◌, ◌≤◌, ◌≡◌, sym, ap, ◌∙◌, subst, Bool, true, false, ◌==◌, if◌then◌else◌,
  Bool-cases, inl, inr, Option, none, some, List, [], ◌∷◌, length, mem, All, arith,
}
use lpmud_ng.Base.Run.{Run, ok, ◌>>=◌}
use lpmud_ng.Base.Text.{Chars}
use lpmud_ng.Commands.{World, put}
use lpmud_ng.Commands.Parser.{
  fits, word_length, strip, special_parse, clear_notify, Reply, failed, Parse, no_command,
  object_or, first_of, settle, after_call, with_reply, call, walk, search_from, parse_special,
  parse_stripped, player_parser,
}
use lpmud_ng.Commands.Links.{Leads}
use lpmud_ng.Commands.Sentences.{IsPool}
use lpmud_ng.Commands.Quiet.{
  Alike, matching-Alike, IsQuiet, still_alive, matching, try_each, walk_lem,
}

-- The part of a chain from a sentence on
part_from :
    (next : ℕ → Option ℕ) (s : Option ℕ) (l : List ℕ) (p : ℕ)
    → Leads next s l
    → mem p l ≡ true
    → (r : List ℕ) × Leads next (some p) r
      × (length r ≤ length l)
      × ((q : ℕ) → mem q r ≡ true → mem q l ≡ true)
part_from next s [] p e m = cc
part_from next s (x ∷ l) p e m = elim (Bool-cases (x == p)) [
  | inl here ↦
      let same : x ≡ p = ground (arith, here) in
      (x ∷ l, (ap some (sym same), e.1), omega arith, λ q k. k)
  | inr there ↦
      let (r, leads, short, within) = part_from next (next x) l p e.1 (ground (arith, m, there)) in
      (r, leads, omega (arith, short), λ q k. ground (arith, within q k))
]

-- After clear_notify
unfoldable pub cleared : ℕ → World → World
cleared giver w =
    if w.interactive giver
    then record w { default_err_message = put giver none w.default_err_message }
    else w

pub cleared-Alike : (giver : ℕ) (w : World) → Alike w (cleared giver w)
unfolding cleared
cleared-Alike giver w = record {
  next = ground arith;
  verb = ground arith;
  short_verb = ground arith;
  ob = ground arith;
  destructed = ground arith;
  command_giver = ground arith;
}

module _ (lpc : Option Chars → ℕ → Option Chars → World → Run (Reply × World)) where
  walk_blank :
      (fuel : ℕ) (buff : Chars) (n : ℕ) (saved s : Option ℕ) (l : List ℕ) (w : World)
      → length l < fuel
      → Leads w.next s l
      → ((q : ℕ) → mem q l ≡ true → w.verb q ≡ none)
      → walk lpc fuel buff n saved s w ≡ no_command w
  unfolding walk
  walk_blank zero buff n saved s l w h e v = absurd (omega (arith, h))
  walk_blank (suc fuel) buff n saved s [] w h e v = ap (λ o. walk lpc (suc fuel) buff n saved o w) e
  walk_blank (suc fuel) buff n saved s (p ∷ l) w h e v =
      ap (λ o. walk lpc (suc fuel) buff n saved o w) e.0
      ∙ ap
          (λ u.
            if fits u (w.short_verb p) buff n
            then with_reply (call lpc p buff n w)
                (λ r w1. after_call (walk lpc fuel buff n saved) saved p w1.current_object r w1)
            else walk lpc fuel buff n saved (w.next p) w)
          (v p (ground arith))
      ∙ walk_blank fuel buff n saved (w.next p) l w (omega (arith, h)) e.1
          (λ q m. v q (ground (arith, m)))

  -- If the sentence whose function was called is free again, the parser that goes on from it finds
  -- no other: it ends as for an unknown command, with fuel for the free sentences and one more.
  pub walk_free :
      (fuel : ℕ) (buff : Chars) (n : ℕ) (saved : Option ℕ) (p : ℕ) (chain : ℕ → List ℕ)
      (free : List ℕ) (w : World)
      → IsPool chain free w
      → mem p free ≡ true
      → length free < fuel
      → walk lpc fuel buff n saved (some p) w ≡ no_command w
  walk_free fuel buff n saved p chain free w h m l =
      let (r, leads, short, within) = part_from w.next w.sent_free free p h.unused m in
      walk_blank fuel buff n saved (some p) r w (omega (arith, short, l)) leads
        (λ q k. h.blank q (within q k))

  -- If the function of a sentence that the text fits returns 0, the current object is not
  -- destructed then, and the sentence has been freed meanwhile, the parser calls no other function
  -- and ends as for an unknown command, whatever sentences the player has left, with fuel for the
  -- free sentences and one more.
  pub freed_stops :
      (fuel : ℕ) (buff : Chars) (n : ℕ) (saved : Option ℕ) (p o : ℕ) (chain : ℕ → List ℕ)
      (free : List ℕ) (w w1 : World)
      → fits (w.verb p) (w.short_verb p) buff n ≡ true
      → call lpc p buff n w ≡ ok (failed, w1)
      → w1.current_object ≡ some o
      → w1.destructed o ≡ false
      → IsPool chain free w1
      → mem p free ≡ true
      → length free ≤ fuel
      → walk lpc (suc fuel) buff n saved (some p) w
        ≡ no_command (record w1 { last_verb = none; current_object = saved })
  unfolding walk
  freed_stops fuel buff n saved p o chain free w w1 f e c d h m l =
      ap
        (λ b.
          if b
          then with_reply (call lpc p buff n w)
              (λ r u. after_call rest saved p u.current_object r u)
          else rest (w.next p) w)
        f
      ∙ ap (λ m. with_reply m (λ r u. after_call rest saved p u.current_object r u)) e
      ∙ ap (λ k. after_call rest saved p k failed w1) c
      ∙ ap (λ b. settle rest saved failed (if b then first_of w1.command_giver w1 else some p) w1) d
      ∙ sym (
          ap
            (λ v.
              if fits v (u1.short_verb p) buff n
              then with_reply (call lpc p buff n u1)
                  (λ r u. after_call rest saved p u.current_object r u)
              else rest (u1.next p) u1)
            (h.blank p m))
      ∙ walk_free (suc fuel) buff n saved p chain free u1
          (record {
            leads = h.leads;
            unused = h.unused;
            distinct = h.distinct;
            distinct_free = h.distinct_free;
            apart = h.apart;
            apart_free = h.apart_free;
            blank = h.blank;
          })
          m (omega (arith, l))
    where
      rest : Option ℕ → World → Parse
      rest = walk lpc fuel buff n saved

      u1 : World
      u1 = record w1 { last_verb = none; current_object = saved }

  pub parser_walk :
      (fuel c : ℕ) (buff s b : Chars) (giver : ℕ) (w : World)
      → strip buff ≡ c ∷ s
      → special_parse (c ∷ s) ≡ (false, b)
      → w.command_giver ≡ some giver
      → player_parser lpc fuel buff w
        ≡ walk lpc fuel b (word_length b) w.current_object (w.sent giver) (cleared giver w)
  unfolding player_parser clear_notify cleared
  parser_walk fuel c buff s b giver w typed plain g =
      ap (λ t. parse_stripped lpc fuel t w) typed
      ∙ ap (λ r. parse_special lpc fuel r w) plain
      ∙ ap (λ o. search_from lpc fuel b (clear_notify o w)) g
      ∙ from_first (w.interactive giver)
    where
      quiet_world : World
      quiet_world = record w { default_err_message = put giver none w.default_err_message }

      from_first :
          (i : Bool)
          → search_from lpc fuel b (ok (if i then quiet_world else w))
            ≡ walk lpc fuel b
                (word_length b)
                w.current_object
                (w.sent giver)
                (if i then quiet_world else w)
      from_first true =
          ap
            (λ o.
              walk lpc fuel b (word_length b) w.current_object (first_of o quiet_world) quiet_world)
            g
      from_first false =
          ap (λ o. walk lpc fuel b (word_length b) w.current_object (first_of o w) w) g

  -- If the functions of commands change no sentence, destruct nothing and put the current object
  -- and the command giver back, and neither the current object nor an object with a sentence of the
  -- player is destructed, then player_parser of a text that is not empty and no special command,
  -- with fuel for each sentence of the player and one more, clears the message of notify_fail and
  -- calls the functions of the sentences that the text fits, in the order of the chain, until one
  -- does not return 0: it then returns 1, with a point for the wizard of that object if the player
  -- is interactive and no wizard, and 0 if there is none.
  pub player_parser_lem :
      (fuel c : ℕ) (buff s b : Chars) (giver : ℕ) (l : List ℕ) (w : World)
      → IsQuiet lpc
      → strip buff ≡ c ∷ s
      → special_parse (c ∷ s) ≡ (false, b)
      → w.command_giver ≡ some giver
      → Leads w.next (w.sent giver) l
      → length l < fuel
      → All (λ p. w.destructed (object_or (w.ob p) w.current_object) ≡ false) l
      → player_parser lpc fuel buff w
        ≡ some (
            clear_notify (some giver) w >>= λ w1.
            try_each lpc b (word_length b) w.current_object (matching w b (word_length b) l) w1)
  unfolding clear_notify cleared
  player_parser_lem fuel c buff s b giver l w quiet typed plain g leads enough alive =
      parser_walk fuel c buff s b giver w typed plain g
      ∙ walk_lem lpc quiet b (word_length b) w.current_object fuel (w.sent giver) l
          (cleared giver w) enough (subst (λ n. Leads n (w.sent giver) l) (sym a.next) leads)
          (ground arith) (still_alive w (cleared giver w) w.current_object l a alive)
      ∙ ap (λ k. some (try_each lpc b (word_length b) w.current_object k (cleared giver w)))
          (matching-Alike w (cleared giver w) b (word_length b) l a)
    where
      a : Alike w (cleared giver w)
      a = cleared-Alike giver w
