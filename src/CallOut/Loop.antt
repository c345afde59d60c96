-- ===== src/CallOut/Loop.antt =====
-- The loop of call_out(), for LPC functions that leave the pending calls and the flags of the objects
-- alone: what it calls, in which order, and what it leaves.
use lpmud_ng.Base.{
  ℕ, zero, suc, ◌+◌, ◌<◌, ◌≡◌, refl, sym, ap, ◌∙◌, Bool, true, List, [], ◌∷◌, ◌++◌, some,
  if◌then◌else◌, arith, ◌⊎◌, inl, inr, Bool-cases, length,
}
use mathlib.Core.Option
use mathlib.Core.Path.{ap₂}
use lpmud_ng.Base.Int.{ℤ, pos, ◌+ℤ◌, ◌-ℤ◌, leb_ℤ, ltb_ℤ, int_laws}
use lpmud_ng.CallOut.Due.{due, +ℤ-zero-left, due-carry, length-carry}
use lpmud_ng.CallOut.{
  Target, Call, Driver, Invocation, carry, free_call, invocation, pop_call, free_target, run_target,
  call_head, call_loop, call_out_from, call_out, advance, restore,
}
use lpmud_ng.CallOut.Served.{
  overdue, later, invocations, IsQuiet, Served, elapsed, invocations-cons, recover_keeps,
}

module _ (lpc : Invocation → Driver → Driver × Bool) (quiet : IsQuiet lpc) where
  -- One turn of the loop, seen from outside.
  pub record Turn (c : Call) (l : List Call) (d e : Driver) : Type 0 where
    pub pending : due (pos 0) e.calls.pending ≡ due c.delta l
    pub count : length e.calls.pending ≡ length l
    pub free : e.calls.free ≡ d.calls.free + 1
    pub num_call : e.calls.num_call ≡ d.calls.num_call
    pub destructed : e.destructed ≡ d.destructed
    pub enable_commands : e.enable_commands ≡ d.enable_commands

  abbrev turned : Call → List Call → Driver → Driver
  turned c l d = free_target c.target (run_target lpc c.target (pop_call c l d)).0

  run_target_keeps :
      (x : Target) (d : Driver)
      → ((run_target lpc x d).0.calls ≡ d.calls)
        × ((run_target lpc x d).0.destructed ≡ d.destructed)
        × ((run_target lpc x d).0.enable_commands ≡ d.enable_commands)
        × ((run_target lpc x d).1 ≡ invocations d.destructed d.enable_commands (x ∷ []))
  unfolding run_target invocations
  run_target_keeps x d =
      let i = invocation d.destructed d.enable_commands x in
      let e : Driver = record d { command_giver = i.giver } in
      let k = recover_keeps (lpc i e) in
      elim (Bool-cases (d.destructed x.ob)) [
        | inl gone ↦ rw gone (refl, refl, refl, refl)
        | inr here ↦ rw here (
          k.0 ∙ quiet.calls i e,
          k.1 ∙ quiet.destructed i e,
          k.2 ∙ quiet.enable_commands i e,
          refl,
        )
      ]

  -- A call that is late, or due just now, leaves the times of the others.
  due-pop :
      (c : Call) (l : List Call)
      → leb_ℤ c.delta (pos 0) ≡ true
      → due (pos 0) (if ltb_ℤ c.delta (pos 0) then carry c.delta l else l) ≡ due c.delta l
  due-pop c l e = elim (Bool-cases (ltb_ℤ c.delta (pos 0))) [
    | inl late ↦ rw (late, due-carry (pos 0) c.delta l, +ℤ-zero-left c.delta)
    | inr now ↦ let z : c.delta ≡ pos 0 = ground arith in rw now (ap (λ t. due t l) (sym z))
  ]

  turn_lem :
      (c : Call) (l : List Call) (d : Driver)
      → leb_ℤ c.delta (pos 0) ≡ true
      → Turn c l d (turned c l d)
  unfolding free_target free_call pop_call
  turn_lem c l d e =
      let k = run_target_keeps c.target (pop_call c l d) in
      record {
        pending = rw k.0 (due-pop c l e);
        count = rw k.0 (ground (arith, length-carry c.delta l));
        free = rw k.0;
        num_call = rw k.0;
        destructed = k.1;
        enable_commands = k.2;
      }

  cases : (p : List Call) → (p ≡ []) ⊎ ((c : Call) × (l : List Call) × (p ≡ c ∷ l))
  cases [] = inl refl
  cases (c ∷ l) = inr (c, l, refl)

  due-nil : due (pos 0) [] ≡ []
  unfolding due
  due-nil = refl

  due-cons : (c : Call) (l : List Call) → due (pos 0) (c ∷ l) ≡ (c.target, c.delta) ∷ due c.delta l
  unfolding due
  due-cons c l = rw (+ℤ-zero-left c.delta)

  nothing_due :
      (d : Driver) (p : List Call)
      → d.calls.pending ≡ p
      → later (due (pos 0) p) ≡ due (pos 0) p
      → overdue (due (pos 0) p) ≡ []
      → Served (due (pos 0) d.calls.pending) d (d, [])
  unfolding invocations
  nothing_due d p e same none_due = record {
    left = ap (due (pos 0)) e ∙ sym same ∙ sym (ap (λ x. later (due (pos 0) x)) e);
    ran = sym (
        ap (λ x. invocations d.destructed d.enable_commands (overdue (due (pos 0) x))) e
        ∙ ap (invocations d.destructed d.enable_commands) none_due);
    structures = refl;
    num_call = refl;
  }

  -- The turn of a call that is due, and what the turns behind it served.
  Served-Turn :
      (c : Call) (l : List Call) (d r : Driver) (more : List Invocation)
      → d.calls.pending ≡ c ∷ l
      → leb_ℤ c.delta (pos 0) ≡ true
      → Turn c l d (turned c l d)
      → Served (due (pos 0) (turned c l d).calls.pending) (turned c l d) (r, more)
      → Served
          (due (pos 0) d.calls.pending)
          d
          (r, (run_target lpc c.target (pop_call c l d)).1 ++ more)
  unfolding later overdue pop_call
  Served-Turn c l d r more e now t v =
      let whole = ap (due (pos 0)) e ∙ due-cons c l in
      let a = d.destructed in
      let b = d.enable_commands in
      record {
        left = rw whole (rw now (v.left ∙ ap later t.pending));
        ran = rw whole (
            rw now (
              ap₂ ◌++◌ (run_target_keeps c.target (pop_call c l d)).3 (
                v.ran ∙ λ i.
                invocations (t.destructed i) (t.enable_commands i) (overdue (t.pending i)))
              ∙ sym (invocations-cons a b c.target (overdue (due c.delta l)))));
        structures = omega (arith, v.structures, t.count, t.free, ap length e);
        num_call = v.num_call ∙ t.num_call;
      }

  -- With more fuel than pending calls the loop ends; it has called exactly the functions that were
  -- due, in order and each once, but for those of destructed objects, and the other calls keep
  -- their times.
  pub call_loop_lem :
      (fuel : ℕ) (d : Driver)
      → length d.calls.pending < fuel
      → (r : Driver × List Invocation) × (call_loop lpc fuel d ≡ some r)
        × Served (due (pos 0) d.calls.pending) d r
  unfolding call_loop call_head later overdue
  call_loop_lem zero d h = elim h [ ]
  call_loop_lem (suc fuel) d h = elim (cases d.calls.pending) [
    | inl e ↦ (
      (d, []),
      ap (λ p. call_head lpc (call_loop lpc fuel) p d) e,
      nothing_due d [] e (rw due-nil) (rw due-nil),
    )
    | inr (c, l, e) ↦
        let run' = ap (λ p. call_head lpc (call_loop lpc fuel) p d) e in
        elim (Bool-cases (leb_ℤ c.delta (pos 0))) [
          | inr not_yet ↦ (
            (d, []),
            run' ∙ rw not_yet,
            nothing_due d (c ∷ l) e (rw (due-cons c l) (rw not_yet))
                (rw (due-cons c l) (rw not_yet)),
          )
          | inl now ↦
              let t = turn_lem c l d now in
              let ((r, more), run, v) =
                call_loop_lem fuel (turned c l d) (omega (arith, t.count, ap length e)) in
              (
                (r, (run_target lpc c.target (pop_call c l d)).1 ++ more),
                run' ∙ rw (now, run),
                Served-Turn c l d r more e now t v,
              )
        ]
  ]

  due-advance :
      (now : ℤ) (c : Call) (l : List Call) (d : Driver)
      → due (pos 0) (advance now c l d).calls.pending ≡ due (pos 0 -ℤ elapsed now d) (c ∷ l)
  unfolding advance due
  due-advance now c l d = rw (move (elapsed now d) c.delta)
    where
      move : (a b : ℤ) → pos 0 +ℤ (b -ℤ a) ≡ pos 0 -ℤ a +ℤ b
      move a b = omega int_laws

  Served-empty :
      (now : ℤ) (d : Driver)
      → d.calls.pending ≡ []
      → Served (due (pos 0 -ℤ elapsed now d) d.calls.pending) d (record d { last_time = now }, [])
  unfolding due later overdue invocations
  Served-empty now d e = record {
    left = ap (due (pos 0)) e ∙ sym (ap (λ p. later (due (pos 0 -ℤ elapsed now d) p)) e);
    ran = sym (
        ap
          (λ p.
            invocations d.destructed d.enable_commands (overdue (due (pos 0 -ℤ elapsed now d) p)))
          e);
    structures = refl;
    num_call = refl;
  }

  -- With more fuel than pending calls and LPC functions that leave the calls and the objects'
  -- flags alone, a round of delayed calls ends; it makes, in order, exactly the calls due by now
  -- into objects that are not destructed, leaves the others with their due times counted from now,
  -- keeps the number of structures, and puts the command giver and the recovery flag back.
  pub call_out_lem :
      (fuel : ℕ) (now : ℤ) (d : Driver)
      → length d.calls.pending < fuel
      → (r : Driver × List Invocation) × (call_out lpc fuel now d ≡ some r)
        × Served (due (pos 0 -ℤ elapsed now d) d.calls.pending) d r
        × (r.0.command_giver ≡ d.command_giver)
        × (r.0.recovery ≡ d.recovery)
  unfolding call_out call_out_from restore advance
  call_out_lem fuel now d h = elim (cases d.calls.pending) [
    | inl e ↦ (
      (record d { last_time = now }, []),
      ap (call_out_from lpc fuel now d) e,
      Served-empty now d e,
      refl,
      refl,
    )
    | inr (c, l, e) ↦
        let d' = advance now c l d in
        let ((r, ran), run, v) = call_loop_lem fuel d' (omega (arith, h, ap length e)) in
        let shift = due-advance now c l d ∙ sym (ap (due (pos 0 -ℤ elapsed now d)) e) in
        (
          restore d (r, ran),
          ap (call_out_from lpc fuel now d) e ∙ ap (Option.map (restore d)) run,
          record {
            left = v.left ∙ ap later shift;
            ran = v.ran ∙ ap (λ q. invocations d.destructed d.enable_commands (overdue q)) shift;
            structures = omega (arith, v.structures, ap length e);
            num_call = v.num_call;
          },
          refl,
          refl,
        )
  ]
