-- ===== src/Comm/Turns.antt =====
-- Whose command is next: the loop of get_message (lpmud/comm1.c) over the connections with
-- NextCmdGiver and CmdsGiven, and the turn that a command takes. What is written to the player and to a
-- snooper, and the reading of the sockets in front of it, are not part of this model.
use lpmud_ng.Base.{
  ℕ, zero, suc, ◌+◌, ◌-◌, Bool, true, false, ◌==◌, ltb, if◌then◌else◌, ◌&&◌, Option, none, some,
}
use lpmud_ng.Base.Int.{ℤ, pos, negsuc, pos_part, ◌-ℤ◌}
use lpmud_ng.Comm.Buffer.{Input, first_cmd_in_buf, next_cmd_in_buf}

-- `players` are the buffers of the connections in all_players, by their index.
pub record Turns : Type 0 where
  pub next_cmd_giver : ℤ
  pub cmds_given : ℕ
  pub twait : ℕ
  pub comm_time : Bool
  pub time_to_call : Bool
  pub players : ℕ → Option Input

pub data Choice : Type 0 where
  beat nothing : Choice
  cmd : ℕ → ℕ → Choice

abbrev pub max_players : ℕ
max_players = 40

abbrev pub allowed_ed_cmds : ℕ
allowed_ed_cmds = 20

abbrev pub is_negative : ℤ → Bool
is_negative (pos n) = false
is_negative (negsuc n) = true

-- `IncCmdGiver`
abbrev pub inc_cmd_giver : ℤ → ℤ
inc_cmd_giver (pos n) = pos n -ℤ pos 1
inc_cmd_giver (negsuc n) = pos (max_players - 1)

abbrev pub skip : Turns → Turns
skip t = record t { cmds_given = 0; next_cmd_giver = inc_cmd_giver t.next_cmd_giver }

abbrev pub set_player : ℕ → Input → Turns → Turns
set_player i b t = record t { players = λ j. if j == i then some b else t.players j }

abbrev pub found : ℕ → Option ℕ → Turns → (Turns → Choice × Turns) → Choice × Turns
found i none t k = k (skip t)
found i (some p) t k = (cmd i p, t)

abbrev pub look : ℕ → Option Input → Turns → (Turns → Choice × Turns) → Choice × Turns
look i none t k = k (skip t)
look i (some b) t k = let r = first_cmd_in_buf b in found i r.0 (set_player i r.1 t) k

-- The connections are tried from `next_cmd_giver` down. Behind the first one, the heart beat comes.
unfoldable pub search : ℕ → Turns → Choice × Turns
search zero t = (nothing, t)
search (suc n) t =
    let w = if is_negative t.next_cmd_giver then skip t else t in
    let i = pos_part w.next_cmd_giver in
    let rest = look i (w.players i) w (search n) in
    if is_negative t.next_cmd_giver && t.comm_time
    then (beat, record w { time_to_call = true })
    else rest

-- With no command the heart beat is called, if it is time, or select() waits.
abbrev pub without_cmd : Choice → Turns → Choice × Turns
without_cmd nothing t =
    if t.comm_time
    then (
      beat,
      record t { time_to_call = true; next_cmd_giver = pos (max_players - 1); cmds_given = 0 },
    )
    else (nothing, record t { twait = 1 })
without_cmd c t = (c, t)

unfoldable pub next_command : Turns → Choice × Turns
next_command t = let r = search (max_players + 1) (record t { twait = 0 }) in without_cmd r.0 r.1

-- The buffer moves on; only a player in the editor has another turn.
unfoldable pub take_turn : Bool → ℕ → Input → Turns → Turns
take_turn in_ed i b t =
    let u = set_player i (next_cmd_in_buf b) t in
    if in_ed && ltb u.cmds_given allowed_ed_cmds
    then record u { cmds_given = u.cmds_given + 1 }
    else skip u
