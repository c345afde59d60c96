-- ===== src/Comm/Nearer.antt =====
-- Each command of another player brings one who waits nearer: the search of get_message
-- (lpmud/comm1.c) with the turn that the command takes.
use lpmud_ng.Base.{
  ℕ, zero, suc, ◌+◌, ◌-◌, ◌*◌, ◌<◌, ◌≤◌, ◌≡◌, ◌≢◌, ◌⊎◌, refl, sym, ap, ◌∙◌, subst, Bool, true,
  false, ◌==◌, ltb, if◌then◌else◌, ◌&&◌, Bool-cases, inl, inr, Option, none, some, arith,
}
use lpmud_ng.Base.Int.{ℤ, pos, negsuc, pos_part}
use lpmud_ng.Comm.Buffer.{Input, first_cmd_in_buf, next_cmd_in_buf}
use lpmud_ng.Comm.Turns.{
  Turns, Choice, beat, nothing, cmd, is_negative, inc_cmd_giver, skip, set_player, found, look,
  search, without_cmd, next_command, take_turn,
}
use lpmud_ng.Comm.Fairness.{Waits, IsGiver, distance, Waits-still}
use lpmud_ng.Comm.Ahead.{ahead, IsAhead, Nears, skip-ahead, ahead-pos}

module _ (i m n : ℕ) (h : i < 40)
    (ih : (t : Turns)
      → IsGiver t.next_cmd_giver
      → Waits i t
      → ahead i t ≤ m
      → Nears i m (search n t)) where
  passed :
      (g : ℕ) (w : Turns)
      → g < 40
      → g ≢ i
      → w.next_cmd_giver ≡ pos g
      → Waits i w
      → ahead i w ≤ m
      → Nears i m (search n (skip w))
  passed g w k d e a l =
      let (giver, below) = skip-ahead i g w h k d e in
      ih (skip w) giver (a.0, a.1, a.2, a.3) (omega (arith, l, below, ahead-pos i g w e))

  look-Nears :
      (g : ℕ) (w : Turns)
      → g < 40
      → w.next_cmd_giver ≡ pos g
      → Waits i w
      → ahead i w ≤ m
      → Nears i m (look g (w.players g) w (search n))
  look-Nears g w k e a l = elim (Bool-cases (g == i)) [
    | inl same ↦
        here (w.players g) (ap w.players (ground (arith, same)) ∙ a.2) (ground (arith, same))
    | inr other ↦ there (w.players g) (ground (arith, other))
  ]
    where
      here : (o : Option Input) → o ≡ some a.0 → g ≡ i → Nears i m (look g o w (search n))
      here none q s = elim (no_input q) [ ]
        where
          no_input : none ≡ some a.0 → ⊥
          no_input q = cc
      here (some b) q s =
          subst (λ o. Nears i m (found g o (set_player g (first_cmd_in_buf b).1 w) (search n)))
            (sym (ap (λ x. (first_cmd_in_buf x).0) (same_input q) ∙ a.3)) (inl s)
        where
          same_input : some b ≡ some a.0 → b ≡ a.0
          same_input q = cc

      there : (o : Option Input) → g ≢ i → Nears i m (look g o w (search n))
      there none d = passed g w k d e a l
      there (some b) d = give (first_cmd_in_buf b).0
        where
          u : Turns
          u = set_player g (first_cmd_in_buf b).1 w

          give : (o : Option ℕ) → Nears i m (found g o u (search n))
          give none = passed g u k d e (Waits-still i g (first_cmd_in_buf b).1 w d a) l
          give (some p) = inr (record {
            at = e;
            index = k;
            other = d;
            less = l;
            waits = Waits-still i g (first_cmd_in_buf b).1 w d a;
          })

search-Nears :
    (n i m : ℕ) (t : Turns)
    → i < 40
    → IsGiver t.next_cmd_giver
    → Waits i t
    → ahead i t ≤ m
    → Nears i m (search n t)
unfolding search
search-Nears zero i m t h g a l = tt
search-Nears (suc n) i m t h g a l =
    go (λ u gu au lu. search-Nears n i m u h gu au lu) t.next_cmd_giver refl
  where
    from_last : ahead i t ≤ m → (k : ℕ) → t.next_cmd_giver ≡ negsuc k → ahead i (skip t) ≤ m
    from_last l k e =
        let old : ahead i t ≡ 21 * (39 - i) + 20 =
          ap
            (λ z.
              if is_negative z then 21 * (39 - i) + 20 else 21 * distance z i + (20 - t.cmds_given))
            e in
        let new = ahead-pos i 39 (skip t) (ap inc_cmd_giver e) in ground (arith, l, old, new, h)

    body : ℤ → Choice × Turns
    body z =
        let w = if is_negative z then skip t else t in
        let rest =
          look (pos_part w.next_cmd_giver) (w.players (pos_part w.next_cmd_giver)) w (search n) in
        if is_negative z && t.comm_time then (beat, record w { time_to_call = true }) else rest

    reached :
        ((u : Turns)
          → IsGiver u.next_cmd_giver
          → Waits i u
          → ahead i u ≤ m
          → Nears i m (search n u))
        → (x : ℕ) (w : Turns) → w.next_cmd_giver ≡ pos x
        → x < 40
        → Waits i w
        → ahead i w ≤ m
        → Nears i m
            (look (pos_part w.next_cmd_giver) (w.players (pos_part w.next_cmd_giver)) w (search n))
    reached ih x w e k b l =
        subst (λ z. Nears i m (look (pos_part z) (w.players (pos_part z)) w (search n))) (sym e)
          (look-Nears i m n h ih x w k e b l)

    go :
        ((u : Turns)
          → IsGiver u.next_cmd_giver
          → Waits i u
          → ahead i u ≤ m
          → Nears i m (search n u))
        → (z : ℤ) → t.next_cmd_giver ≡ z
        → Nears i m (body z)
    go ih (pos x) e = reached ih x t e (subst IsGiver e g) a l
    go ih (negsuc k) e = by_time t.comm_time
      where
        by_time :
            (b : Bool)
            → Nears i m (
                if b
                then (beat, record (skip t) { time_to_call = true })
                else look
                    (pos_part (skip t).next_cmd_giver)
                    ((skip t).players (pos_part (skip t).next_cmd_giver))
                    (skip t)
                    (search n))
        by_time true = tt
        by_time false =
            reached ih 39 (skip t) (ap inc_cmd_giver e) (omega arith) (a.0, a.1, a.2, a.3)
              (from_last l k e)

-- The player still waits, with fewer commands ahead.
pub record IsNext (i : ℕ) (t u : Turns) : Type 0 where
  pub giver : IsGiver u.next_cmd_giver
  pub waits : Waits i u
  pub fewer : ahead i u < ahead i t

turn-IsNext :
    (in_ed : Bool) (i j : ℕ) (b : Input) (t u : Turns)
    → i < 40
    → IsAhead i (ahead i t) j u
    → IsNext i t (take_turn in_ed j b u)
unfolding take_turn
turn-IsNext in_ed i j b t u h k = elim (Bool-cases (in_ed && ltb u.cmds_given 20)) [
  | inl e ↦
      subst (λ c. IsNext i t (if c then stays else skip v)) (sym e)
        (record {
          giver = subst IsGiver (sym k.at) k.index;
          waits = (still.0, still.1, still.2, still.3);
          fewer = ground (arith, e, k.less, ahead-pos i j u k.at, ahead-pos i j stays k.at);
        })
  | inr e ↦
      subst (λ c. IsNext i t (if c then stays else skip v)) (sym e)
        (let (giver, below) = skip-ahead i j v h k.index k.other k.at in
          record {
            giver = giver;
            waits = (still.0, still.1, still.2, still.3);
            fewer = omega (arith, below, k.less, ahead-pos i j u k.at);
          })
]
  where
    v : Turns
    v = set_player j (next_cmd_in_buf b) u

    stays : Turns
    stays = record v { cmds_given = v.cmds_given + 1 }

    still : Waits i v
    still = Waits-still i j (next_cmd_in_buf b) u k.other k.waits

-- If NextCmdGiver is -1 or the index of a connection, the connection i has a complete command, and
-- the search of get_message gives the command of another one, then after the turn of that command
-- NextCmdGiver is -1 or an index still, i has its command still, and fewer commands of others can
-- come before it than could: the count is 21 for each connection that is tried before i, as the
-- editor has at most 21 in a row, less those that were given in this row.
pub turn_brings_nearer :
    (in_ed : Bool) (i j p : ℕ) (b : Input) (t u : Turns)
    → i < 40
    → IsGiver t.next_cmd_giver
    → Waits i t
    → next_command t ≡ (cmd j p, u)
    → (j ≡ i) ⊎ IsNext i t (take_turn in_ed j b u)
unfolding next_command
turn_brings_nearer in_ed i j p b t u h g a e =
    elim (subst (Nears i (ahead i t)) e (
      kept (search 41 (record t { twait = 0 })).0 (search 41 (record t { twait = 0 })).1 (
        search-Nears 41 i (ahead i t) (record t { twait = 0 }) h g (a.0, a.1, a.2, a.3)
          (omega arith)))) [ inl s ↦ inl s | inr k ↦ inr (turn-IsNext in_ed i j b t u h k) ]
  where
    beats :
        (c : Bool) (w : Turns)
        → Nears i (ahead i t) (
            if c
            then (beat, record w { time_to_call = true; next_cmd_giver = pos 39; cmds_given = 0 })
            else (nothing, record w { twait = 1 }))
    beats true w = tt
    beats false w = tt

    kept :
        (c : Choice) (w : Turns)
        → Nears i (ahead i t) (c, w)
        → Nears i (ahead i t) (without_cmd c w)
    kept beat w k = tt
    kept nothing w k = beats w.comm_time w
    kept (cmd x q) w k = k
