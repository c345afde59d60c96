-- ===== src/CallOut.antt =====
-- The delayed calls of call_out.c. `call_list` is the list of pending calls, head first, each with
-- the seconds between the call before it and itself. A structure on the free list is only counted.
-- Times are unbounded integers.
pub mod Due
pub mod Pending
mod Served
pub mod Loop
mod Tests
use lpmud_ng.Base.{
  ℕ, zero, suc, ◌+◌, ◌-◌, Bool, true, false, not, ◌&&◌, List, [], ◌∷◌, ◌++◌, Option, none, some,
  ◌==◌, if◌then◌else◌, length,
}
use mathlib.Core.Option
use lpmud_ng.Base.Int.{ℤ, pos, negsuc, ◌+ℤ◌, ◌-ℤ◌, ltb_ℤ, leb_ℤ}
use lpmud_ng.Base.Text.{Chars, str_eq}
use lpmud_ng.Value.{
  Value, number, string, pointer, object, Refs, add_ref, drop_ref, free_svalue, hold_svalue,
  assign_svalue,
}

-- `struct call` without its delta and its link
pub record Target : Type 0 where
  pub function : Chars
  pub ob : ℕ
  pub arg : Value

pub record Call : Type 0 where
  pub delta : ℤ
  pub target : Target

abbrev pub with_delta : Call → ℤ → Call
with_delta c d = record c { delta = d }

-- The pending calls, the length of the free list, and `num_call`.
pub record Calls : Type 0 where
  pub pending : List Call
  pub free : ℕ
  pub num_call : ℕ

abbrev pub chunk_size : ℕ
chunk_size = 20

-- One structure is taken off the free list, which is filled by a chunk if it is empty.
unfoldable pub take_free : Calls → Calls
take_free c =
    if c.free == 0
    then record c { free = chunk_size - 1; num_call = c.num_call + chunk_size }
    else record c { free = c.free - 1 }

-- The search for the place, and the link: a call that is due at the same time stays behind.
unfoldable pub insert_call : Target → ℤ → List Call → List Call
insert_call x delay [] = record { delta = delay; target = x } ∷ []
insert_call x delay (c ∷ l) =
    if leb_ℤ delay c.delta
    then record { delta = delay; target = x } ∷ with_delta c (c.delta -ℤ delay) ∷ l
    else c ∷ insert_call x (delay -ℤ c.delta) l

abbrev pub not_negative : ℤ → ℤ
not_negative d = if ltb_ℤ d (pos 0) then pos 0 else d

-- The argument of the call: 0 unless one is given.
unfoldable pub call_arg : Option Value → Refs → Value × Refs
call_arg none r = (number (pos 0), r)
call_arg (some v) r = assign_svalue (number (pos 0)) (some v) r

unfoldable pub new_call_out : ℕ → Chars → ℤ → Option Value → Calls × Refs → Calls × Refs
new_call_out ob fun delay arg (c, r) =
    let c' = take_free c in
    let (v, r') = call_arg arg (add_ref ob r) in
    let x : Target = record { function = fun; ob = ob; arg = v } in
    (record c' { pending = insert_call x (not_negative delay) c'.pending }, r')

-- The delta of a call that is unlinked goes to the next one.
unfoldable pub carry : ℤ → List Call → List Call
carry d [] = []
carry d (c ∷ l) = with_delta c (c.delta +ℤ d) ∷ l

unfoldable pub free_call : Target → Calls × Refs → Calls × Refs
free_call x (c, r) = (record c { free = c.free + 1 }, drop_ref x.ob (free_svalue x.arg r))

abbrev pub is_call : ℕ → Chars → Target → Bool
is_call ob fun x = x.ob == ob && str_eq x.function fun

abbrev pub keep_call : Call → Option (ℤ × Target × List Call) → Option (ℤ × Target × List Call)
keep_call c none = none
keep_call c (some (delay, x, l)) = some (delay, x, c ∷ l)

-- The first matching call, the time until it is due, and the list without it.
unfoldable pub unlink_call : ℕ → Chars → ℤ → List Call → Option (ℤ × Target × List Call)
unlink_call ob fun delay [] = none
unlink_call ob fun delay (c ∷ l) =
    if is_call ob fun c.target
    then some (delay +ℤ c.delta, c.target, carry c.delta l)
    else keep_call c (unlink_call ob fun (delay +ℤ c.delta) l)

unfoldable pub remove_call_out : ℕ → Chars → Calls × Refs → ℤ × Calls × Refs
remove_call_out ob fun (c, r) = elim (unlink_call ob fun (pos 0) c.pending) [
  | none ↦ (negsuc 0, c, r)
  | some (delay, x, l) ↦ let (c', r') = free_call x (record c { pending = l }, r) in (delay, c', r')
]

-- What `call_out` reads and writes: the calls and counts, its static `last_time`, the globals that
-- it saves and restores, and the flags of the objects.
pub record Driver : Type 0 where
  pub calls : Calls
  pub refs : Refs
  pub last_time : ℤ
  pub command_giver : Option ℕ
  pub recovery : ℕ
  pub destructed : ℕ → Bool
  pub enable_commands : ℕ → Bool

-- The arguments of `apply` and the command giver at the call.
pub record Invocation : Type 0 where
  pub function : Chars
  pub ob : ℕ
  pub arg : Value
  pub giver : Option ℕ

-- A reference to a destructed object is passed as 0.
unfoldable pub live_arg : (ℕ → Bool) → Value → Value
live_arg destructed (number n) = number n
live_arg destructed (string s) = string s
live_arg destructed (pointer v) = pointer v
live_arg destructed (object ob) = if destructed ob then number (pos 0) else object ob

unfoldable pub invocation : (ℕ → Bool) → (ℕ → Bool) → Target → Invocation
invocation destructed enable_commands x = record {
  function = x.function;
  ob = x.ob;
  arg = live_arg destructed x.arg;
  giver = if enable_commands x.ob then some x.ob else none;
}

-- The first call is moved out of the chain; a late one passes its lateness on to the next.
unfoldable pub pop_call : Call → List Call → Driver → Driver
pop_call c l d = record d {
  calls = record d.calls { pending = if ltb_ℤ c.delta (pos 0) then carry c.delta l else l };
}

-- `free_call` on the driver
unfoldable pub free_target : Target → Driver → Driver
free_target x d = let (c, r) = free_call x (d.calls, d.refs) in record d { calls = c; refs = r }

-- The globals of this model that `clear_state` sets.
unfoldable pub clear_state : Driver → Driver
clear_state d = record d { command_giver = none; recovery = 1 }

abbrev pub and_then :
    List Invocation → Option (Driver × List Invocation) → Option (Driver × List Invocation)
and_then ran none = none
and_then ran (some (e, more)) = some (e, ran ++ more)

abbrev pub is_zero : ℤ → Bool
is_zero n = leb_ℤ n (pos 0) && leb_ℤ (pos 0) n

-- The seconds since the last call are taken off the first delta.
unfoldable pub advance : ℤ → Call → List Call → Driver → Driver
advance now c l d =
    let last = if is_zero d.last_time then now else d.last_time in
    record d {
      calls = record d.calls { pending = with_delta c (c.delta -ℤ (now -ℤ last)) ∷ l };
      last_time = now;
      recovery = 1;
    }

-- The saved globals are put back.
unfoldable pub restore : Driver → Driver × List Invocation → Driver × List Invocation
restore saved (d, ran) =
    (record d { command_giver = saved.command_giver; recovery = saved.recovery }, ran)

-- The return from `apply`, or the jump back to the `setjmp` of the loop.
unfoldable pub recover : Driver × Bool → Driver
recover (d, failed) = if failed then clear_state d else d

-- `lpc` is what the LPC function that `apply` calls does to the driver, and whether it ends in an
-- error that jumps back to the loop.
module _ (lpc : Invocation → Driver → Driver × Bool) where
  unfoldable pub run_target : Target → Driver → Driver × List Invocation
  run_target x d =
      let i = invocation d.destructed d.enable_commands x in
      if d.destructed x.ob
      then (d, [])
      else (recover (lpc i (record d { command_giver = i.giver })), i ∷ [])

  -- A turn of the loop, with `rest` as the turns behind it.
  unfoldable pub call_head :
      (Driver → Option (Driver × List Invocation))
      → List Call
      → Driver
      → Option (Driver × List Invocation)
  call_head rest [] d = some (d, [])
  call_head rest (c ∷ l) d =
      let (d', ran) = run_target c.target (pop_call c l d) in
      let more = rest (free_target c.target d') in
      if leb_ℤ c.delta (pos 0) then and_then ran more else some (d, [])

  -- The loop over the calls that are due, with what was called; `none` is the end of the fuel.
  unfoldable pub call_loop : ℕ → Driver → Option (Driver × List Invocation)
  call_loop zero d = none
  call_loop (suc fuel) d = call_head (call_loop fuel) d.calls.pending d

  unfoldable pub call_out_from : ℕ → ℤ → Driver → List Call → Option (Driver × List Invocation)
  call_out_from fuel now d [] = some (record d { last_time = now }, [])
  call_out_from fuel now d (c ∷ l) = Option.map (restore d) (call_loop fuel (advance now c l d))

  unfoldable pub call_out : ℕ → ℤ → Driver → Option (Driver × List Invocation)
  call_out fuel now d = call_out_from fuel now d d.calls.pending

-- All that a round of delayed calls computes with.
unfoldable pub program : Unit {0}
unfolding add_ref drop_ref free_svalue hold_svalue assign_svalue take_free insert_call call_arg
    new_call_out carry free_call unlink_call remove_call_out live_arg invocation pop_call
    free_target clear_state advance restore recover run_target call_head call_loop call_out_from
    call_out str_eq ◌+ℤ◌ ◌-ℤ◌
program = tt
