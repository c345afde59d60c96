-- ===== src/Comm/Tests.antt =====
-- Runs of the connections of lpmud/comm1.c, and the theorems at small examples.

use lpmud_ng.Base.{
  ℕ, ◌+◌, ◌-◌, ◌≤◌, ◌==◌, ◌≡◌, ◌≢◌, refl, true, false, if◌then◌else◌, Option, none, some, List, [],
  ◌∷◌, ◌++◌, length, All, arith,
}
use lpmud_ng.Base.Int.{ℤ, pos, ◌-ℤ◌}
use lpmud_ng.Base.Run.{Run, ok, undefined}
use lpmud_ng.Base.Text.{codes}
use lpmud_ng.Comm.Buffer.{
  Input, max_text, copy_chars, write, store, skip_nulls, skip_text, move_down, partial, find_cmd,
  first_cmd_in_buf, next_cmd_in_buf,
}
use lpmud_ng.Comm.Telnet.{command, negotiate, telnet_neg}
use lpmud_ng.Comm.Snoop.{
  Players, set_on, set_by, Reply, done, failed, busy, find_pair, stop_snoop, start_snoop, set_snoop,
  hang_up, remove_found, remove_interactive,
}
use lpmud_ng.Comm.Pending.{pending, IsInput, drop_nulls, drop_text, command_at, Finds}
use lpmud_ng.Comm.Commands.{first_cmd_in_buf_lem, next_cmd_in_buf_lem, store_lem}
use lpmud_ng.Comm.Line.{IsCommand, IsPlain}
use lpmud_ng.Comm.Results.{memory, telnet_neg_lem, typed_line}
use lpmud_ng.Comm.Pairs.{IsBacked, IsMarked, set_snoop-IsBacked, set_snoop-IsMarked, set_snoop_busy}
use lpmud_ng.Comm.Turns.{Turns, Choice, beat, nothing, cmd, search, next_command, take_turn}
use lpmud_ng.Comm.Fairness.{next_command_given}
use lpmud_ng.Comm.Nearer.{IsNext, turn_brings_nearer}
use lpmud_ng.Base.{◌⊎◌}
use lpmud_ng.Comm.Closing.{IsClosed, remove_interactive-IsClosed}

unfoldable program : Unit {0}
unfolding copy_chars write store skip_nulls skip_text move_down partial find_cmd first_cmd_in_buf
    next_cmd_in_buf command negotiate telnet_neg find_pair stop_snoop start_snoop set_snoop hang_up
    remove_found remove_interactive ◌-ℤ◌ search next_command
program = tt

abbrev empty_input : Input
empty_input = record { text = λ i. 0; text_start = 0; text_end = 0 }

empty_input-IsInput : IsInput empty_input
empty_input-IsInput = record { ordered = omega arith; room = omega arith }

abbrev line : List ℕ
line = codes "say hello"

line-IsPlain : All IsPlain line
line-IsPlain = ground arith

-- An erased character, an option of telnet, and an incomplete command behind the line
noisy_line :
    pending
      (first_cmd_in_buf
        (store (codes "look x" ++ (8 ∷ 255 ∷ 253 ∷ 1 ∷ 13 ∷ 10 ∷ 103 ∷ [])) empty_input)).1
    ≡ codes "look x" ++ (8 ∷ 255 ∷ 253 ∷ 1 ∷ 32 ∷ 8 ∷ 0 ∷ 103 ∷ [])
unfolding program
noisy_line = refl

noisy_command :
    telnet_neg 40 (codes "look x" ++ (8 ∷ 255 ∷ 253 ∷ 1 ∷ 32 ∷ 8 ∷ 0 ∷ 103 ∷ []))
    ≡ some (ok (codes "look " ++ (0 ∷ [])))
unfolding program
noisy_command = refl

-- A null byte behind IAC does not end the command.
telnet_reads_on :
    telnet_neg 40 (codes "hi" ++ (255 ∷ 0 ∷ codes "there" ++ (0 ∷ [])))
    ≡ some (ok (codes "hithere" ++ (0 ∷ [])))
unfolding program
telnet_reads_on = refl

no_such_option : telnet_neg 40 (255 ∷ 251 ∷ 200 ∷ 0 ∷ []) ≡ some undefined
unfolding program
no_such_option = refl

telnet_neg_lem_example :
    (r : List ℕ) × (telnet_neg 40 ((255 ∷ 251 ∷ []) ++ (0 ∷ 0 ∷ [])) ≡ some (ok r))
    × IsCommand r
    × (length r ≤ length {A = ℕ} ((255 ∷ 251 ∷ []) ++ (0 ∷ 0 ∷ [])))
unfolding command
telnet_neg_lem_example = telnet_neg_lem 40 (255 ∷ 251 ∷ []) [] (omega arith) refl

typed_line_example :
    let r = first_cmd_in_buf (store (line ++ (13 ∷ 10 ∷ [])) empty_input) in
    (r.0 ≡ some r.1.text_start)
    × (telnet_neg 40 (memory r.1) ≡ some (ok (line ++ (0 ∷ []))))
    × (pending (next_cmd_in_buf r.1) ≡ [])
typed_line_example =
    typed_line 40 line empty_input empty_input-IsInput line-IsPlain refl (omega arith)

-- Two commands, the first of which follows an empty one
abbrev two_commands : Input
two_commands = record {
  text = λ i. if i == 2 then 65 else if i == 3 then 66 else if i == 5 then 67 else 0;
  text_start = 1;
  text_end = 7;
}

two_commands-IsInput : IsInput two_commands
two_commands-IsInput = record { ordered = omega arith; room = omega arith }

first_cmd_in_buf_lem_example :
    Finds (first_cmd_in_buf two_commands) (command_at (drop_nulls (pending two_commands)))
first_cmd_in_buf_lem_example = first_cmd_in_buf_lem two_commands two_commands-IsInput

next_cmd_in_buf_lem_example :
    (pending (next_cmd_in_buf two_commands) ≡ drop_nulls (drop_text (pending two_commands)))
    × IsInput (next_cmd_in_buf two_commands)
next_cmd_in_buf_lem_example = next_cmd_in_buf_lem two_commands two_commands-IsInput

store_lem_example :
    (pending (store line two_commands)
      ≡ pending two_commands ++ copy_chars line 0 (max_text - two_commands.text_end - 1))
    × ((store line two_commands).text (store line two_commands).text_end ≡ 0)
    × IsInput (store line two_commands)
store_lem_example = store_lem line two_commands two_commands-IsInput

-- Connection 1 of object 11 snoops on 2 of object 12, and 4 of 14 on 3 of 13.
abbrev players : Players
players = record {
  all_players = some 1 ∷ none ∷ some 2 ∷ some 3 ∷ some 4 ∷ [];
  ob = λ p. p + 10;
  interactive = λ o. if o == 12 then some 2 else none;
  snoop_on = λ p. if p == 1 then some 2 else if p == 4 then some 3 else none;
  snoop_by = λ p. if p == 2 then some 1 else if p == 3 then some 4 else none;
  closing = λ p. false;
  input_to = λ p. none;
  num_player = pos 4;
  refs = record { objects = λ o. pos 1; vectors = λ v. pos 0 };
}

players-IsBacked : IsBacked players
players-IsBacked = record { backed = λ x y e. ground (arith, e) }

players-IsMarked : IsMarked players
players-IsMarked = record { marked = λ x y e. ground (arith, e) }

abbrev reply_of : Run (Reply × Players) → Option Reply
reply_of (ok r) = some r.0
reply_of _ = none

own_snoop : reply_of (set_snoop 11 (some 11) players) ≡ some failed
unfolding program
own_snoop = refl

set_snoop-IsBacked_example : IsBacked (set_on 1 none (set_by 2 none players))
unfolding program
set_snoop-IsBacked_example =
    set_snoop-IsBacked 11 none players (done, set_on 1 none (set_by 2 none players))
      players-IsBacked refl

after_stop-IsMarked : IsMarked (set_on 1 none (set_by 2 none players))
unfolding program
after_stop-IsMarked =
    set_snoop-IsMarked 11 none players (done, set_on 1 none (set_by 2 none players))
      players-IsMarked refl (λ e. ground (arith, e))

set_snoop_busy_example :
    (w' : Players) × (set_snoop 11 (some 13) players ≡ ok (busy, w'))
    × (w'.snoop_on 1 ≡ some 2)
    × (w'.snoop_by 2 ≡ none)
unfolding program
set_snoop_busy_example = set_snoop_busy 11 13 3 1 2 4 players refl refl refl (omega arith)

remove_interactive-IsClosed_example :
    (w' : Players) × (remove_interactive 12 players ≡ ok w') × IsClosed 12 2 w'
remove_interactive-IsClosed_example =
    remove_interactive-IsClosed 12 2 players players-IsBacked players-IsMarked refl refl refl

-- The connections 3 and 7 have a command, and it is the turn of 5.
abbrev waiting : Turns
waiting = record {
  next_cmd_giver = pos 5;
  cmds_given = 0;
  twait = 1;
  comm_time = false;
  time_to_call = false;
  players = λ i. if i == 3 then some two_commands else if i == 7 then some two_commands else none;
}

abbrev choice_of : Choice × Turns → Choice × ℤ
choice_of r = (r.0, r.1.next_cmd_giver)

lower_first : choice_of (next_command waiting) ≡ (cmd 3 2, pos 3)
unfolding program
lower_first = refl

around_the_end :
    choice_of (next_command (record waiting { next_cmd_giver = pos 2 })) ≡ (cmd 7 2, pos 7)
unfolding program
around_the_end = refl

beat_behind_first :
    choice_of (next_command (record waiting { next_cmd_giver = pos 2; comm_time = true }))
    ≡ (beat, pos 39)
unfolding program
beat_behind_first = refl

next_command_given_example : (next_command waiting).0 ≢ nothing
unfolding program
next_command_given_example =
    next_command_given 7 waiting (omega arith) (omega arith) (two_commands, 2, refl, refl)

turn_brings_nearer_example :
    ◌≡◌ {A = ℕ} 3 7 ⊎ IsNext 7 waiting (take_turn false 3 two_commands (next_command waiting).1)
unfolding program
turn_brings_nearer_example =
    turn_brings_nearer false 7 3 2 two_commands waiting (next_command waiting).1 (omega arith)
      (omega arith) (two_commands, 2, refl, refl) refl
