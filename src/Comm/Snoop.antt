-- ===== src/Comm/Snoop.antt =====
-- The table of connections: set_snoop and remove_interactive of lpmud/comm1.c. A connection is the
-- address of its `struct interactive`, an object its own address. The messages to the player are
-- a reply; the sockets, TLS and the memory that is freed are not part of this model.
use lpmud_ng.Base.{ℕ, Bool, true, false, ◌==◌, if◌then◌else◌, Option, none, some, List, [], ◌∷◌}
use lpmud_ng.Base.Int.{ℤ, pos, ◌-ℤ◌}
use lpmud_ng.Base.Run.{Run, ok, fatal, undefined}
use lpmud_ng.Value.{Refs, drop_ref}

-- `input_to` is the object of the sentence that waits for the next line.
pub record Players : Type 0 where
  pub all_players : List (Option ℕ)
  pub ob : ℕ → ℕ
  pub interactive : ℕ → Option ℕ
  pub snoop_on : ℕ → Option ℕ
  pub snoop_by : ℕ → Option ℕ
  pub closing : ℕ → Bool
  pub input_to : ℕ → Option ℕ
  pub num_player : ℤ
  pub refs : Refs

pub data Reply : Type 0 where
  done failed busy : Reply

abbrev pub same : Option ℕ → Option ℕ → Bool
same none none = true
same none (some b) = false
same (some a) none = false
same (some a) (some b) = a == b

abbrev pub set_on : ℕ → Option ℕ → Players → Players
set_on ip p w = record w { snoop_on = λ q. if q == ip then p else w.snoop_on q }

abbrev pub set_by : ℕ → Option ℕ → Players → Players
set_by ip p w = record w { snoop_by = λ q. if q == ip then p else w.snoop_by q }

-- The connections `on` of `you` and `by` of `me`; the loop ends when both are found.
unfoldable pub find_pair :
    ℕ → Option ℕ → (ℕ → ℕ) → List (Option ℕ) → Option ℕ → Option ℕ → Option ℕ × Option ℕ
find_pair me you ob [] on by = (on, by)
find_pair me you ob (none ∷ l) none by = find_pair me you ob l none by
find_pair me you ob (none ∷ l) (some o) none = find_pair me you ob l (some o) none
find_pair me you ob (none ∷ l) (some o) (some b) = (some o, some b)
find_pair me you ob (some ip ∷ l) (some o) (some b) = (some o, some b)
find_pair me you ob (some ip ∷ l) (some o) none =
    let mine = find_pair me you ob l (some o) (some ip) in
    let yours = find_pair me you ob l (some ip) none in
    let other = find_pair me you ob l (some o) none in
    if ob ip == me then mine else if same (some (ob ip)) you then yours else other
find_pair me you ob (some ip ∷ l) none by =
    let mine = find_pair me you ob l none (some ip) in
    let yours = find_pair me you ob l (some ip) by in
    let other = find_pair me you ob l none by in
    if ob ip == me then mine else if same (some (ob ip)) you then yours else other

-- `if (by->snoop_on) by->snoop_on->snoop_by = 0`
abbrev pub let_go : Option ℕ → Players → Players
let_go none w = w
let_go (some p) w = set_by p none w

-- `snoop_on->snoop_by = 0; snoop_on = 0`, and the same the other way round
abbrev pub end_on : ℕ → Option ℕ → Players → Players
end_on ip none w = w
end_on ip (some p) w = set_on ip none (set_by p none w)

abbrev pub end_by : ℕ → Option ℕ → Players → Players
end_by ip none w = w
end_by ip (some p) w = set_by ip none (set_on p none w)

-- `you == 0`
unfoldable pub stop_snoop : Option ℕ → Players → Run (Reply × Players)
stop_snoop none w = fatal
stop_snoop (some by) w = ok (done, end_on by (w.snoop_on by) w)

abbrev pub connect : ℕ → ℕ → Option ℕ → Players → Reply × Players
connect on by none w = (done, set_on by (some on) (set_by on (some by) w))
connect on by (some other) w = (busy, w)

unfoldable pub start_snoop : Option ℕ → Option ℕ → Players → Run (Reply × Players)
start_snoop none by w = ok (failed, w)
start_snoop (some on) none w = ok (failed, w)
start_snoop (some on) (some by) w =
    let w1 = let_go (w.snoop_on by) w in ok (connect on by (w1.snoop_by on) w1)

unfoldable pub set_snoop : ℕ → Option ℕ → Players → Run (Reply × Players)
set_snoop me none w = stop_snoop (find_pair me none w.ob w.all_players none none).1 w
set_snoop me (some you) w =
    let found = find_pair me (some you) w.ob w.all_players none none in
    start_snoop found.0 found.1 w

abbrev pub is_slot : Option ℕ → List (Option ℕ) → Bool
is_slot ip [] = false
is_slot ip (p ∷ l) = if same p ip then true else is_slot ip l

-- `all_players[i] = 0` for the first slot that holds `ip`
abbrev pub empty_slot : Option ℕ → List (Option ℕ) → List (Option ℕ)
empty_slot ip [] = []
empty_slot ip (p ∷ l) = if same p ip then none ∷ l else p ∷ empty_slot ip l

abbrev pub end_input : ℕ → Option ℕ → Players → Players
end_input ip none w = w
end_input ip (some o) w = record w {
  input_to = λ q. if q == ip then none else w.input_to q;
  refs = drop_ref o w.refs;
}

unfoldable pub hang_up : ℕ → ℕ → Players → Players
hang_up o ip w =
    let w1 = record w { closing = λ q. if q == ip then true else w.closing q } in
    let w2 = end_by ip (w1.snoop_by ip) w1 in
    let w3 = end_on ip (w2.snoop_on ip) w2 in
    let w4 = end_input ip (w3.input_to ip) (record w3 { num_player = w3.num_player -ℤ pos 1 }) in
    record w4 {
      interactive = λ q. if q == o then none else w4.interactive q;
      all_players = empty_slot (some ip) w4.all_players;
      refs = drop_ref o w4.refs;
    }

-- An object without a connection finds an empty slot, and reads through a null pointer.
unfoldable pub remove_found : ℕ → Option ℕ → Players → Run Players
remove_found o none w = undefined
remove_found o (some ip) w = if w.closing ip then fatal else ok (hang_up o ip w)

unfoldable pub remove_interactive : ℕ → Players → Run Players
remove_interactive o w =
    if is_slot (w.interactive o) w.all_players then remove_found o (w.interactive o) w else fatal
