-- ===== src/HeartBeat.antt =====
-- The heart beats of lpmud/backend.c: the list of the objects that have one, linked through
-- `next_heart_beat`, and a round of calls. Objects are their addresses, and a pointer is an
-- Option. A walk along the list has fuel, and `none` is its end.
mod Successor
mod Methods
mod Round
mod Tests
use lpmud_ng.Base.{
  ℕ, zero, suc, ◌+◌, Bool, true, false, ◌==◌, ltb, if◌then◌else◌, not, ◌&&◌, ◌||◌, Option, none,
  some, List, [], ◌∷◌, ◌++◌,
}
use lpmud_ng.Base.Int.{ℤ, pos, ◌+ℤ◌, ◌-ℤ◌, ltb_ℤ}
use lpmud_ng.Base.Run.{Run, ok, error, fatal, undefined, ◌>>=◌}

-- `next_heart_beat` and `enable_heart_beat` of the objects, and the globals of the list
pub record Beats : Type 0 where
  pub next : ℕ → Option ℕ
  pub enabled : ℕ → Bool
  pub hb_list : Option ℕ
  pub hb_tail : Option ℕ
  pub num_hb_objs : ℤ

abbrev pub points_to : Option ℕ → ℕ → Bool
points_to none o = false
points_to (some p) o = p == o

abbrev pub is_null : Option ℕ → Bool
is_null none = true
is_null (some p) = false

-- `o->next_heart_beat = p`
abbrev pub set_next : ℕ → Option ℕ → Beats → Beats
set_next o p b = record b { next = λ q. if q == o then p else b.next q }

abbrev pub set_enabled : ℕ → Bool → Beats → Beats
set_enabled o to b = record b { enabled = λ q. if q == o then to else b.enabled q }

unfoldable pub cycle_ends : Option ℕ → Option ℕ → Beats → Run Beats
cycle_ends none t b = fatal
cycle_ends (some ob) none b = undefined
cycle_ends (some ob) (some t) b =
    if ob == t
    then ok b
    else ok (
        set_next ob none
          (record (set_next t (some ob) (record b { hb_list = b.next ob })) { hb_tail = some ob }))

-- The first object is put at the end.
unfoldable pub cycle_hb_list : Beats → Run Beats
cycle_hb_list b = cycle_ends b.hb_list b.hb_tail b

-- `while (o && o != ob)`, with `oprev`
unfoldable pub walk : ℕ → ℕ → Option ℕ → Option ℕ → Beats → Option (Run (Option ℕ × Option ℕ))
walk zero ob o oprev b = none
walk (suc fuel) ob none oprev b = some (ok (none, oprev))
walk (suc fuel) ob (some o) oprev b =
    let rest = walk fuel ob (b.next o) (some o) b in
    if o == ob then some (ok (some o, oprev)) else if b.enabled o then rest else some fatal

unfoldable pub switch_on : ℕ → Beats → Run (Bool × Beats)
switch_on ob b =
    if is_null (b.next ob)
    then ok (
      true,
      record (set_next ob b.hb_list (set_enabled ob true b)) {
        hb_list = some ob;
        hb_tail = if is_null b.hb_tail then some ob else b.hb_tail;
        num_hb_objs = b.num_hb_objs +ℤ pos 1;
      },
    )
    else fatal

abbrev pub link_past : Option ℕ → ℕ → Beats → Beats
link_past none ob b = b
link_past (some p) ob b = set_next p (b.next ob) b

unfoldable pub switch_off : ℕ → Option ℕ → Beats → Beats
switch_off ob oprev b =
    let ends : Beats = record (set_enabled ob false b) {
      hb_list = if points_to b.hb_list ob then b.next ob else b.hb_list;
      hb_tail = if points_to b.hb_tail ob then oprev else b.hb_tail;
    } in
    record (set_next ob none (link_past oprev ob ends)) { num_hb_objs = b.num_hb_objs -ℤ pos 1 }

abbrev pub same : Bool → Bool → Bool
same true c = c
same false c = not c

-- What `set_heart_beat` does behind the walk; `to` is whether its argument is not 0.
unfoldable pub switch : ℕ → Bool → Beats → Option ℕ × Option ℕ → Run (Bool × Beats)
switch ob to b (o, oprev) =
    if is_null o && b.enabled ob
    then fatal
    else if same to (b.enabled ob)
    then ok (false, b)
    else if to
    then switch_on ob b
    else ok (true, switch_off ob oprev b)

abbrev pub and_switch :
    ℕ → Bool → Beats → Option (Run (Option ℕ × Option ℕ)) → Option (Run (Bool × Beats))
and_switch ob to b none = none
and_switch ob to b (some m) = some (m >>= switch ob to b)

unfoldable pub set_heart_beat : ℕ → ℕ → Bool → Beats → Option (Run (Bool × Beats))
set_heart_beat fuel ob to b = and_switch ob to b (walk fuel ob b.hb_list none b)

-- What a round reads and writes.
pub record World : Type 0 where
  pub beats : Beats
  pub num_hb_calls : ℕ
  pub current_object : Option ℕ
  pub command_giver : Option ℕ
  pub current_heart_beat : Option ℕ
  pub eval_cost : ℕ
  -- `heart_beats` of the entries of the list of wizards
  pub heart_beats : ℕ → ℕ
  -- `swapped`, `enable_commands`, `wl`, and `heart_beat != 0 && reset != 0` of the objects
  pub swapped : ℕ → Bool
  pub enable_commands : ℕ → Bool
  pub wl : ℕ → Option ℕ
  pub has_beat : ℕ → Bool

abbrev pub count_beat : Option ℕ → (ℕ → ℕ) → ℕ → ℕ
count_beat none n = n
count_beat (some w) n = λ v. if v == w then n v + 1 else n v

-- The globals at the call of the function of `ob`.
unfoldable pub enter : ℕ → World → World
enter ob w = record w {
  current_object = some ob;
  current_heart_beat = some ob;
  command_giver = if w.enable_commands ob then some ob else none;
  heart_beats = count_beat (w.wl ob) w.heart_beats;
  eval_cost = 0;
}

-- `lpc` is what the function of an object does, if it ends without an error, and `timeout` is
-- whether the alarm has set the flag when the number of objects is done. With the world comes the
-- list of the objects that were called.
module _ (lpc : ℕ → World → World) (timeout : ℕ → Bool) where
  unfoldable pub beat : Option ℕ → World → Run (World × List ℕ)
  beat none w = undefined
  beat (some ob) w =
      if not (w.beats.enabled ob)
      then fatal
      else if w.swapped ob
      then fatal
      else if w.has_beat ob
      then ok (lpc ob (enter ob w), ob ∷ [])
      else ok (w, [])

  unfoldable pub turn : World → Run (World × List ℕ)
  turn w = do b ← cycle_hb_list w.beats; beat b.hb_tail (record w { beats = b })

  abbrev pub is_on : ℕ → World → Bool
  is_on num_done w =
      not (is_null w.beats.hb_list)
      && not (timeout num_done)
      && ltb_ℤ (pos num_done) w.beats.num_hb_objs

  abbrev pub and_more : List ℕ → Option (Run (World × List ℕ)) → Option (Run (World × List ℕ))
  and_more ran none = none
  and_more ran (some m) = some (m >>= λ (w, more). ok (w, ran ++ more))

  abbrev pub then_rest :
      (World → Option (Run (World × List ℕ))) → Run (World × List ℕ) → Option (Run (World × List ℕ))
  then_rest rest (ok (w, ran)) = and_more ran (rest w)
  then_rest rest error = some error
  then_rest rest fatal = some fatal
  then_rest rest undefined = some undefined

  -- The `while` loop of the round.
  unfoldable pub beat_loop : ℕ → ℕ → World → Option (Run (World × List ℕ))
  beat_loop zero num_done w = none
  beat_loop (suc fuel) num_done w =
      let rest = then_rest (beat_loop fuel (num_done + 1)) (turn w) in
      if is_on num_done w then rest else some (ok (w, []))

  abbrev pub leave : World → World × List ℕ → World × List ℕ
  leave saved (w, ran) = (
    record w {
      command_giver = saved.command_giver;
      current_object = saved.current_object;
      current_heart_beat = none;
    },
    ran,
  )

  abbrev pub and_leave : World → Option (Run (World × List ℕ)) → Option (Run (World × List ℕ))
  and_leave saved none = none
  and_leave saved (some m) = some (m >>= λ r. ok (leave saved r))

  -- `call_heart_beat` with `num_player` players, up to the calls behind the round.
  unfoldable pub call_heart_beat : ℕ → ℕ → World → Option (Run (World × List ℕ))
  call_heart_beat fuel num_player w =
      if ltb 0 num_player && not (is_null w.beats.hb_list)
      then and_leave w (beat_loop fuel 0 (record w { num_hb_calls = w.num_hb_calls + 1 }))
      else some (ok (leave w (w, [])))

-- All that a run computes with.
unfoldable pub program : Unit {0}
unfolding ◌+ℤ◌ ◌-ℤ◌ cycle_ends cycle_hb_list walk switch_on switch_off switch set_heart_beat enter
    beat turn beat_loop call_heart_beat
program = tt
