-- ===== src/Commands/Newest.antt =====
-- A command comes to the sentence that add_action of lpmud/simulate.c has linked last.
use lpmud_ng.Base.{
  ℕ, suc, ◌≡◌, refl, sym, ap, ◌∙◌, subst, Bool, true, false, if◌then◌else◌, Option, none, some, ◌∷◌,
  drop, arith,
}
use lpmud_ng.Base.Run.{Run, ok}
use lpmud_ng.Base.Text.{Chars}
use lpmud_ng.Commands.{World, take_free, alloc_sentence, blank, add_action_as, add_action}
use lpmud_ng.Commands.Parser.{
  fits, argument, word_length, strip, special_parse, Reply, done, rewarded, Parse, object_or,
  first_of, settle, after_call, with_reply, calling, call, walk, player_parser,
}
use lpmud_ng.Commands.Actions.{added}
use lpmud_ng.Commands.Quiet.{Alike, back_to}
use lpmud_ng.Commands.Answers.{cleared, parser_walk, cleared-Alike}

-- The sentence at the head of a player's chain
record Newest (p : ℕ) (str v : Chars) (flag : Bool) (current giver : ℕ) (w : World) : Type 0 where
  pub giver_is : w.command_giver ≡ some giver
  pub first_is : w.sent giver ≡ some p
  pub function_is : w.function p ≡ some str
  pub ob_is : w.ob p ≡ current
  pub verb_is : w.verb p ≡ some v
  pub short_is : w.short_verb p ≡ flag

taken_destructed :
    (at : ℕ) (o : Option ℕ) (w : World) → (blank (take_free at o w)).1.destructed ≡ w.destructed
taken_destructed at none w = refl
taken_destructed at (some p) w = refl

taken_giver :
    (at : ℕ) (o : Option ℕ) (w : World)
    → (blank (take_free at o w)).1.command_giver ≡ w.command_giver
taken_giver at none w = refl
taken_giver at (some p) w = refl

added-Newest :
    (at : ℕ) (str v : Chars) (flag : Bool) (current giver : ℕ) (w w' : World)
    → w.command_giver ≡ some giver
    → w.current_object ≡ some current
    → add_action at str (some v) flag w ≡ ok w'
    → Newest (alloc_sentence at w).0 str v flag current giver w' × (w'.destructed ≡ w.destructed)
unfolding add_action alloc_sentence
added-Newest at str v flag current giver w w' g cur runs =
    let (c, same, e) = added at str (some v) flag (some current) giver w w' (
      subst (λ o. add_action_as at str (some v) flag (some current) o w ≡ ok w') g
        (subst (λ o. add_action_as at str (some v) flag o w.command_giver w ≡ ok w') cur runs)) in
    let current_is : c ≡ current = cc same in
    (
      subst (Newest (alloc_sentence at w).0 str v flag current giver) (sym e) (record {
        giver_is = taken_giver at w.sent_free w ∙ g;
        first_is = ground arith;
        function_is = ground arith;
        ob_is = ground (arith, current_is);
        verb_is = ground arith;
        short_is = ground arith;
      }),
      ap (λ u. u.destructed) e ∙ taken_destructed at w.sent_free w,
    )

rewarded-some :
    (giver : ℕ) (z : Option ℕ) (w : World)
    → (w' : World) × (rewarded (some giver) z w ≡ ok (true, w'))
rewarded-some giver none w = (w, refl)
rewarded-some giver (some z) w = (_, refl)

module _ (lpc : Option Chars → ℕ → Option Chars → World → Run (Reply × World)) where
  walk_first :
      (fuel p o n : ℕ) (b : Chars) (saved : Option ℕ) (u w2 : World)
      → fits (u.verb p) (u.short_verb p) b n ≡ true
      → call lpc p b n u ≡ ok (done, w2)
      → w2.current_object ≡ some o
      → w2.destructed o ≡ false
      → walk lpc (suc fuel) b n saved (some p) u
        ≡ some (rewarded w2.command_giver (w2.wl (w2.ob p)) (back_to saved w2))
  unfolding walk
  walk_first fuel p o n b saved u w2 f e c d =
      ap
        (λ k.
          if k
          then with_reply (call lpc p b n u) (λ r v. after_call rest saved p v.current_object r v)
          else rest (u.next p) u)
        f
      ∙ ap (λ m. with_reply m (λ r v. after_call rest saved p v.current_object r v)) e
      ∙ ap (λ k. after_call rest saved p k done w2) c
      ∙ ap (λ k. settle rest saved done (if k then first_of w2.command_giver w2 else some p) w2) d
    where
      rest : Option ℕ → World → Parse
      rest = walk lpc fuel b n saved

  -- The function of the object handles the command, does not destruct the object and puts the
  -- command giver back.
  abbrev pub Handles : Chars → ℕ → Option Chars → ℕ → Type 0
  Handles str ob arg giver =
      (u : World)
      → u.command_giver ≡ some giver
      → u.current_object ≡ some ob
      → u.destructed ob ≡ false
      → (w2 : World) × (lpc (some str) ob arg u ≡ ok (done, w2))
        × (w2.command_giver ≡ some giver)
        × (w2.current_object ≡ some ob)
        × (w2.destructed ob ≡ false)

  -- After add_action with a verb has returned, a text that is not empty, that special_parse does
  -- not answer itself, and that fits the verb as special_parse leaves it, comes to that function of
  -- that object first, whatever other sentences the player has: if the function handles the
  -- command, does not destruct the object, and puts the command giver and the current object back,
  -- player_parser returns 1 with one unit of fuel, for a current object that is none or that
  -- object.
  pub action_first :
      (at fuel c current giver : ℕ) (str v buff s b : Chars) (flag : Bool) (now : Option ℕ)
      (w w' : World)
      → w.command_giver ≡ some giver
      → w.current_object ≡ some current
      → w.destructed current ≡ false
      → add_action at str (some v) flag w ≡ ok w'
      → object_or current now ≡ current
      → strip buff ≡ c ∷ s
      → special_parse (c ∷ s) ≡ (false, b)
      → fits (some v) flag b (word_length b) ≡ true
      → Handles str current (argument (drop (word_length b) b)) giver
      → (w'' : World) × (player_parser lpc (suc fuel) buff (record w' { current_object = now })
          ≡ some (ok (true, w'')))
  unfolding cleared
  action_first at fuel c current giver str v buff s b flag now w w' g cur d runs here typed plain f
        handles =
      let (w2, runs2, g2, c2, d2) =
        handles in_call giver_same current_same (ground (arith, new_facts.1, d)) in
      let (w'', counted) = rewarded-some giver (w2.wl (w2.ob p)) (back_to now w2) in
      (
        w'',
        parser_walk lpc (suc fuel) c buff s b giver u typed plain new.giver_is
            ∙ ap (λ h. walk lpc (suc fuel) b (word_length b) now h (cleared giver u)) new.first_is
            ∙ walk_first fuel p current (word_length b) b now (cleared giver u) w2
                (ap (λ h. fits (h p) ((cleared giver u).short_verb p) b (word_length b)) a.verb
                  ∙ ap (λ h. fits (u.verb p) (h p) b (word_length b)) a.short_verb
                  ∙ ap (λ h. fits h (u.short_verb p) b (word_length b)) new.verb_is
                  ∙ ap (λ h. fits (some v) h b (word_length b)) new.short_is
                  ∙ f)
                (ap (λ h. lpc h ((cleared giver u).ob p) arg in_call) function_same
                  ∙ ap (λ h. lpc (some str) h arg in_call) ob_same
                  ∙ runs2)
                c2 d2
            ∙ ap (λ h. some (rewarded h (w2.wl (w2.ob p)) (back_to now w2))) g2
            ∙ ap some counted,
      )
    where
      u : World
      u = record w' { current_object = now }

      p : ℕ
      p = (alloc_sentence at w).0

      arg : Option Chars
      arg = argument (drop (word_length b) b)

      in_call : World
      in_call = calling p b (word_length b) (cleared giver u)

      new_facts : Newest p str v flag current giver w' × (w'.destructed ≡ w.destructed)
      new_facts = added-Newest at str v flag current giver w w' g cur runs

      new : Newest p str v flag current giver w'
      new = new_facts.0

      a : Alike u (cleared giver u)
      a = cleared-Alike giver u

      function_same : (cleared giver u).function p ≡ some str
      function_same = ground (arith, new.function_is)

      ob_same : (cleared giver u).ob p ≡ current
      ob_same = ground (arith, new.ob_is)

      giver_same : in_call.command_giver ≡ some giver
      giver_same = a.command_giver ∙ new.giver_is

      current_same : in_call.current_object ≡ some current
      current_same =
          ap (λ h. some (object_or h (cleared giver u).current_object)) ob_same
          ∙ ap (λ h. some (object_or current h))
              (let k : (cleared giver u).current_object ≡ now = ground arith in k)
          ∙ ap some here
