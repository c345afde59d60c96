-- ===== src/Commands/Quiet.antt =====
-- player_parser of lpmud/simulate.c on LPC functions that change no sentence: the sentences it tries,
-- as a list.
use lpmud_ng.Base.{
  ℕ, zero, suc, ◌<◌, ◌≡◌, refl, sym, ap, ◌∙◌, subst, Bool, true, false, if◌then◌else◌, Option, none,
  some, List, [], ◌∷◌, length, drop, All, arith,
}
use lpmud_ng.Base.Run.{Run, ok, error, fatal, undefined, ◌>>=◌}
use lpmud_ng.Base.Text.{Chars}
use lpmud_ng.Commands.{World}
use lpmud_ng.Commands.Parser.{
  fits, argument, notify_no_command, Reply, missing, failed, done, rewarded, Parse, is_failed,
  object_or, first_of, settle, after_call, with_reply, calling, call, walk,
}
use lpmud_ng.Commands.Links.{Leads}

-- The sentences, the player who gives commands and the destructed objects are the same.
pub record Alike (w w' : World) : Type 0 where
  pub next : w'.next ≡ w.next
  pub verb : w'.verb ≡ w.verb
  pub short_verb : w'.short_verb ≡ w.short_verb
  pub ob : w'.ob ≡ w.ob
  pub destructed : w'.destructed ≡ w.destructed
  pub command_giver : w'.command_giver ≡ w.command_giver

-- The sentences that the typed text fits
abbrev pub matching : World → Chars → ℕ → List ℕ → List ℕ
matching w buff n [] = []
matching w buff n (p ∷ l) =
    if fits (w.verb p) (w.short_verb p) buff n then p ∷ matching w buff n l else matching w buff n l

abbrev pub back_to : Option ℕ → World → World
back_to saved w = record w { last_verb = none; current_object = saved }

pub matching-Alike :
    (w w' : World) (buff : Chars) (n : ℕ) (l : List ℕ)
    → Alike w w'
    → matching w' buff n l ≡ matching w buff n l
matching-Alike w w' buff n [] a = refl
matching-Alike w w' buff n (p ∷ l) a =
    ap
      (λ g.
        if fits (g p) (w'.short_verb p) buff n
        then p ∷ matching w' buff n l
        else matching w' buff n l)
      a.verb
    ∙ ap
        (λ g.
          if fits (w.verb p) (g p) buff n then p ∷ matching w' buff n l else matching w' buff n l)
        a.short_verb
    ∙ ap (λ r. if fits (w.verb p) (w.short_verb p) buff n then p ∷ r else r)
        (matching-Alike w w' buff n l a)

pub still_alive :
    (w w' : World) (saved : Option ℕ) (l : List ℕ)
    → Alike w w'
    → All (λ p. w.destructed (object_or (w.ob p) saved) ≡ false) l
    → All (λ p. w'.destructed (object_or (w'.ob p) saved) ≡ false) l
still_alive w w' saved [] a h = tt
still_alive w w' saved (p ∷ l) a h = (
  ap (λ g. g (object_or (w'.ob p) saved)) a.destructed
      ∙ ap (λ g. w.destructed (object_or (g p) saved)) a.ob
      ∙ h.0,
  still_alive w w' saved l a h.1,
)

module _ (lpc : Option Chars → ℕ → Option Chars → World → Run (Reply × World)) where
  -- The functions of commands change no sentence, destruct nothing and put the current object back.
  pub record IsQuiet : Type 0 where
    pub same :
        (f : Option Chars) (o : ℕ) (a : Option Chars) (w w' : World) (r : Reply)
        → lpc f o a w ≡ ok (r, w')
        → Alike w w'
    pub back :
        (f : Option Chars) (o : ℕ) (a : Option Chars) (w w' : World) (r : Reply)
        → lpc f o a w ≡ ok (r, w')
        → w'.current_object ≡ w.current_object

  -- The functions of the sentences are called in turn until one does not return 0.
  unfoldable pub try_each : Chars → ℕ → Option ℕ → List ℕ → World → Run (Bool × World)
  try_each buff n saved [] w = notify_no_command w.command_giver w >>= λ w1. ok (false, w1)
  try_each buff n saved (p ∷ l) w = call lpc p buff n w >>= λ (r, w1).
      if is_failed r
      then try_each buff n saved l (back_to saved w1)
      else rewarded w1.command_giver (w1.wl (w1.ob p)) (back_to saved w1)

  settle_lem :
      (next : Option ℕ → World → Parse) (saved : Option ℕ) (p : ℕ) (r : Reply) (w1 : World)
      (again : Run (Bool × World))
      → next (w1.next p) (back_to saved w1) ≡ some again
      → settle next saved r (some p) w1
        ≡ some (
            if is_failed r
            then again
            else rewarded w1.command_giver (w1.wl (w1.ob p)) (back_to saved w1))
  settle_lem next saved p missing w1 again e = refl
  settle_lem next saved p failed w1 again e = e
  settle_lem next saved p done w1 again e = refl

  back-Alike : (saved : Option ℕ) (w w1 : World) → Alike w w1 → Alike w (back_to saved w1)
  back-Alike saved w w1 a = record {
    next = a.next;
    verb = a.verb;
    short_verb = a.short_verb;
    ob = a.ob;
    destructed = a.destructed;
    command_giver = a.command_giver;
  }

  module _ (quiet : IsQuiet) (buff : Chars) (n : ℕ) (saved : Option ℕ) where
    answered :
        (fuel p : ℕ) (l : List ℕ) (w : World) (m : Run (Reply × World))
        → call lpc p buff n w ≡ m
        → w.destructed (object_or (w.ob p) w.current_object) ≡ false
        → ((w1 : World)
            → Alike w w1
            → walk lpc fuel buff n saved (w1.next p) (back_to saved w1)
              ≡ some (try_each buff n saved (matching w buff n l) (back_to saved w1)))
        → with_reply m
            (λ r w1. after_call (walk lpc fuel buff n saved) saved p w1.current_object r w1)
          ≡ some (
              m >>= λ (r, w1).
              if is_failed r
              then try_each buff n saved (matching w buff n l) (back_to saved w1)
              else rewarded w1.command_giver (w1.wl (w1.ob p)) (back_to saved w1))
    answered fuel p l w error e d next = refl
    answered fuel p l w fatal e d next = refl
    answered fuel p l w undefined e d next = refl
    answered fuel p l w (ok (r, w1)) e d next =
        ap (λ o. after_call rest saved p o r w1) alive.0
        ∙ ap (λ b. settle rest saved r (if b then first_of w1.command_giver w1 else some p) w1)
            alive.1
        ∙ settle_lem rest saved p r w1
            (try_each buff n saved (matching w buff n l) (back_to saved w1))
            (next w1 (record {
              next = same.next;
              verb = same.verb;
              short_verb = same.short_verb;
              ob = same.ob;
              destructed = same.destructed;
              command_giver = same.command_giver;
            }))
      where
        rest : Option ℕ → World → Parse
        rest = walk lpc fuel buff n saved

        c : ℕ
        c = object_or (w.ob p) w.current_object

        same : Alike (calling p buff n w) w1
        same =
            quiet.same (w.function p) (w.ob p) (argument (drop n buff)) (calling p buff n w) w1 r e

        alive : (w1.current_object ≡ some c) × (w1.destructed c ≡ false)
        alive = (
          quiet.back (w.function p) (w.ob p) (argument (drop n buff)) (calling p buff n w) w1 r e,
          ap (λ g. g c) same.destructed ∙ d,
        )

    -- The loop calls the functions of the sentences that the text fits.
    pub walk_lem :
        (fuel : ℕ) (s : Option ℕ) (l : List ℕ) (w : World)
        → length l < fuel
        → Leads w.next s l
        → w.current_object ≡ saved
        → All (λ p. w.destructed (object_or (w.ob p) saved) ≡ false) l
        → walk lpc fuel buff n saved s w ≡ some (try_each buff n saved (matching w buff n l) w)
    unfolding walk try_each
    walk_lem zero s l w h e cur alive = absurd (omega (arith, h))
    walk_lem (suc fuel) s [] w h e cur alive = ap (λ o. walk lpc (suc fuel) buff n saved o w) e
    walk_lem (suc fuel) s (p ∷ l) w h e cur alive =
        ap (λ o. walk lpc (suc fuel) buff n saved o w) e.0
        ∙ by_fit (fits (w.verb p) (w.short_verb p) buff n)
            (answered fuel p l w (call lpc p buff n w) refl
              (ap (λ o. w.destructed (object_or (w.ob p) o)) cur ∙ alive.0)
              (λ w1 a.
                walk_lem fuel (w1.next p) l (back_to saved w1) (omega (arith, h))
                  (subst (λ g. Leads g (g p) l) (sym a.next) e.1) refl
                  (still_alive w w1 saved l a alive.1)
                ∙ ap (λ k. some (try_each buff n saved k (back_to saved w1)))
                    (matching-Alike w (back_to saved w1) buff n l (back-Alike saved w w1 a))))
            (walk_lem fuel (w.next p) l w (omega (arith, h)) e.1 cur alive.1)
      where
        by_fit :
            (b : Bool)
            → with_reply
                (call lpc p buff n w)
                (λ r w1. after_call (walk lpc fuel buff n saved) saved p w1.current_object r w1)
              ≡ some (try_each buff n saved (p ∷ matching w buff n l) w)
            → walk lpc fuel buff n saved (w.next p) w
              ≡ some (try_each buff n saved (matching w buff n l) w)
            → (if b
                then with_reply
                    (call lpc p buff n w)
                    (λ r w1. after_call (walk lpc fuel buff n saved) saved p w1.current_object r w1)
                else walk lpc fuel buff n saved (w.next p) w)
              ≡ some (
                  try_each buff n saved
                    (if b then p ∷ matching w buff n l else matching w buff n l)
                    w)
        by_fit true x y = x
        by_fit false x y = y
