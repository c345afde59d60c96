-- ===== src/HeartBeat/Tests.antt =====
-- Runs of the heart beats of lpmud/backend.c, and the theorems at a list of three objects.
use lpmud_ng.Base.{
  ℕ, ◌==◌, ◌≡◌, refl, Bool, true, false, if◌then◌else◌, Option, none, some, List, [], ◌∷◌, arith,
  inr,
}
use lpmud_ng.Base.Int.{pos}
use lpmud_ng.Base.Run.{Run, ok}
use lpmud_ng.HeartBeat.{Beats, World, cycle_hb_list, set_heart_beat, call_heart_beat, program}
use lpmud_ng.HeartBeat.Methods.{IsHeartList, cycle_hb_list_lem}
use lpmud_ng.HeartBeat.Round.{call_heart_beat_lem}

-- Object 5, then 8, then 2.
abbrev three : Beats
three = record {
  next = λ o. if o == 5 then some 8 else if o == 8 then some 2 else none;
  enabled = λ o. if o == 5 then true else if o == 8 then true else o == 2;
  hb_list = some 5;
  hb_tail = some 2;
  num_hb_objs = pos 3;
}

abbrev world : World
world = record {
  beats = three;
  num_hb_calls = 0;
  current_object = none;
  command_giver = some 4;
  current_heart_beat = none;
  eval_cost = 9;
  heart_beats = λ _. 0;
  swapped = λ _. false;
  enable_commands = λ o. o == 8;
  wl = λ o. some 1;
  has_beat = λ o. if o == 5 then false else true;
}

abbrev quiet : ℕ → World → World
quiet o w = w

abbrev ends_of : Option (Run (Bool × Beats)) → Option ℕ × Option ℕ
ends_of (some (ok (_, b))) = (b.hb_list, b.hb_tail)
ends_of _ = (none, none)

turn_off_tail : ends_of (set_heart_beat 5 2 false three) ≡ (some 5, some 8)
unfolding program
turn_off_tail = refl

turn_on_head : ends_of (set_heart_beat 5 6 true three) ≡ (some 6, some 2)
unfolding program
turn_on_head = refl

abbrev calls_of : Option (Run (World × List ℕ)) → List ℕ
calls_of (some (ok (_, ran))) = ran
calls_of _ = []

all_beats : calls_of (call_heart_beat quiet (λ _. false) 5 1 world) ≡ 8 ∷ 2 ∷ []
unfolding program
all_beats = refl

beats_until_alarm : calls_of (call_heart_beat quiet (λ n. n == 2) 5 1 world) ≡ 8 ∷ []
unfolding program
beats_until_alarm = refl

abbrev objects : List ℕ
objects = 5 ∷ 8 ∷ 2 ∷ []

three-IsHeartList : IsHeartList three objects
three-IsHeartList = record {
  starts = refl;
  ends = refl;
  distinct = (refl, (refl, (refl, tt)));
  links = λ o. ground arith;
  flags = λ o. ground arith;
  counts = refl;
}

cycle_hb_list_lem_example :
    (b : Beats) × (cycle_hb_list three ≡ ok b) × IsHeartList b (8 ∷ 2 ∷ 5 ∷ [])
cycle_hb_list_lem_example = cycle_hb_list_lem three 5 (8 ∷ 2 ∷ []) three-IsHeartList

call_heart_beat_lem_example :
    (w : World) × (call_heart_beat quiet (λ n. n == 2) 5 1 world ≡ some (ok (w, 8 ∷ [])))
    × IsHeartList w.beats (2 ∷ 5 ∷ 8 ∷ [])
    × (w.command_giver ≡ some 4)
    × (w.current_object ≡ none)
call_heart_beat_lem_example =
    call_heart_beat_lem quiet (λ n. n == 2) (λ o w. refl) (λ o w. refl) (λ o w. refl) 5 1 2 objects
      world three-IsHeartList (omega arith) (λ o. refl) (omega arith) (omega arith)
      (λ i h. ground (arith, h)) (inr refl)
