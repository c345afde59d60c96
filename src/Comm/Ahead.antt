-- ===== src/Comm/Ahead.antt =====
-- How many commands of other players get_message (lpmud/comm1.c) can give before that of one who waits.
use lpmud_ng.Base.{
  ℕ, suc, ◌+◌, ◌-◌, ◌*◌, ◌<◌, ◌≤◌, ◌≡◌, ◌≢◌, ◌⊎◌, sym, ap, subst, if◌then◌else◌, arith,
}
use lpmud_ng.Base.Int.{ℤ, pos, negsuc}
use lpmud_ng.Comm.Turns.{Turns, Choice, beat, nothing, cmd, is_negative, inc_cmd_giver, skip}
use lpmud_ng.Comm.Fairness.{Waits, IsGiver, distance, distance-inc}

-- How many commands of others can be given before that of `i`, where an editor has 21 in a row
abbrev pub ahead : ℕ → Turns → ℕ
ahead i t =
    if is_negative t.next_cmd_giver
    then 21 * (39 - i) + 20
    else 21 * distance t.next_cmd_giver i + (20 - t.cmds_given)

-- The command is that of `i`, or another one with no more than `m` commands ahead of that of `i`.
pub record IsAhead (i m j : ℕ) (u : Turns) : Type 0 where
  pub at : u.next_cmd_giver ≡ pos j
  pub index : j < 40
  pub other : j ≢ i
  pub less : ahead i u ≤ m
  pub waits : Waits i u

abbrev pub Nears : ℕ → ℕ → Choice × Turns → Type 0
Nears i m (beat, u) = Unit
Nears i m (nothing, u) = Unit
Nears i m (cmd j p, u) = (j ≡ i) ⊎ IsAhead i m j u

-- Behind `g`, `i` is nearer.
pub skip-ahead :
    (i g : ℕ) (w : Turns)
    → i < 40
    → g < 40
    → g ≢ i
    → w.next_cmd_giver ≡ pos g
    → IsGiver (skip w).next_cmd_giver × (ahead i (skip w) < 21 * distance (pos g) i)
skip-ahead i g w h k m e =
    let d = distance-inc g i h k m in
    (
      subst (λ z. IsGiver (inc_cmd_giver z)) (sym e) d.0,
      subst
          (λ z.
            (if is_negative (inc_cmd_giver z)
              then 21 * (39 - i) + 20
              else 21 * distance (inc_cmd_giver z) i + 20)
            < 21 * distance (pos g) i)
          (sym e) (below (inc_cmd_giver (pos g)) d.1),
    )
  where
    below :
        (z : ℤ)
        → suc (distance z i) ≡ distance (pos g) i
        → (if is_negative z then 21 * (39 - i) + 20 else 21 * distance z i + 20)
          < 21 * distance (pos g) i
    below (pos x) q = omega (arith, q)
    below (negsuc x) q = omega (arith, q)

pub ahead-pos :
    (i g : ℕ) (w : Turns)
    → w.next_cmd_giver ≡ pos g
    → ahead i w ≡ 21 * distance (pos g) i + (20 - w.cmds_given)
ahead-pos i g w e =
    ap (λ z. if is_negative z then 21 * (39 - i) + 20 else 21 * distance z i + (20 - w.cmds_given))
      e
