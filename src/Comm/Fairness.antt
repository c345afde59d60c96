-- ===== src/Comm/Fairness.antt =====
-- The search of get_message (lpmud/comm1.c) reaches every connection that has a command.
use lpmud_ng.Base.{
  ℕ, zero, suc, ◌+◌, ◌-◌, ◌<◌, ◌≡◌, ◌≢◌, refl, sym, ap, ◌∙◌, subst, Bool, true, false, ◌==◌, leb,
  if◌then◌else◌, ◌&&◌, Bool-cases, inl, inr, Option, none, some, arith,
}
use lpmud_ng.Base.Int.{ℤ, pos, negsuc, pos_part, ◌-ℤ◌}
use lpmud_ng.Comm.Buffer.{Input, first_cmd_in_buf}
use lpmud_ng.Comm.Turns.{
  Turns, Choice, beat, nothing, cmd, is_negative, inc_cmd_giver, skip, set_player, found, look,
  search, without_cmd, next_command,
}

-- The connection has a complete command.
abbrev pub Waits : ℕ → Turns → Type 0
Waits i t = (b : Input) × (p : ℕ) × (t.players i ≡ some b) × ((first_cmd_in_buf b).0 ≡ some p)

-- How many connections are tried before `i`
abbrev pub distance : ℤ → ℕ → ℕ
distance (pos g) i = if leb i g then g - i else g + 40 - i
distance (negsuc n) i = 39 - i

abbrev pub IsGiver : ℤ → Type 0
IsGiver (pos g) = g < 40
IsGiver (negsuc n) = n ≡ 0

pub distance-inc :
    (g i : ℕ)
    → i < 40
    → g < 40
    → g ≢ i
    → (IsGiver (inc_cmd_giver (pos g)))
      × (suc (distance (inc_cmd_giver (pos g)) i) ≡ distance (pos g) i)
unfolding ◌-ℤ◌
distance-inc zero i h k n = ground (arith, h, k, n)
distance-inc (suc g) i h k n = ground (arith, h, k, n)

-- The giver behind `g`, where a waiting player is nearer
record IsNearer (i n : ℕ) (t : Turns) : Type 0 where
  giver : IsGiver t.next_cmd_giver
  waits : Waits i t
  near : distance t.next_cmd_giver i < n

found-cmd :
    (g n : ℕ) (o : Option ℕ) (w : Turns)
    → ((search n (skip w)).0 ≢ nothing)
    → (found g o w (search n)).0 ≢ nothing
found-cmd g n none w h = h
found-cmd g n (some p) w h = λ e. cc

pub Waits-still : (i g : ℕ) (b : Input) (w : Turns) → g ≢ i → Waits i w → Waits i (set_player g b w)
Waits-still i g b w n h = (h.0, h.1, ap (λ t. if t then some b else w.players i) other ∙ h.2, h.3)
  where
    other : (i == g) ≡ false
    other = ground (arith, n)

nearer :
    (i g n : ℕ) (w : Turns)
    → i < 40
    → g < 40
    → g ≢ i
    → w.next_cmd_giver ≡ pos g
    → Waits i w
    → distance (pos g) i < suc n
    → IsNearer i n (skip w)
nearer i g n w h k m e a l =
    let d = distance-inc g i h k m in
    record {
      giver = subst (λ z. IsGiver (inc_cmd_giver z)) (sym e) d.0;
      waits = (a.0, a.1, a.2, a.3);
      near = subst (λ z. distance (inc_cmd_giver z) i < n) (sym e) (omega (arith, d.1, l));
    }

-- One connection is looked at.
look_finds :
    (i g n : ℕ) (w : Turns)
    → ((t : Turns) → IsNearer i n t → (search n t).0 ≢ nothing)
    → i < 40
    → g < 40
    → w.next_cmd_giver ≡ pos g
    → Waits i w
    → distance (pos g) i < suc n
    → (look g (w.players g) w (search n)).0 ≢ nothing
look_finds i g n w ih h k e a l = elim (Bool-cases (g == i)) [
  | inl same ↦ here (w.players g) (ap w.players (ground (arith, same)) ∙ a.2)
  | inr other ↦ there (w.players g) (ground (arith, other))
]
  where
    here : (o : Option Input) → o ≡ some a.0 → (look g o w (search n)).0 ≢ nothing
    here none q = λ _. cc
    here (some b) q =
        subst (λ o. (found g o (set_player g (first_cmd_in_buf b).1 w) (search n)).0 ≢ nothing)
          (sym (ap (λ x. (first_cmd_in_buf x).0) (same_input q) ∙ a.3)) (λ c. cc)
      where
        same_input : some b ≡ some a.0 → b ≡ a.0
        same_input q = cc

    there : (o : Option Input) → g ≢ i → (look g o w (search n)).0 ≢ nothing
    there none m = ih (skip w) (nearer i g n w h k m e a l)
    there (some b) m =
        let u = set_player g (first_cmd_in_buf b).1 w in
        found-cmd g n (first_cmd_in_buf b).0 u
          (ih (skip u) (nearer i g n u h k m e (Waits-still i g (first_cmd_in_buf b).1 w m a) l))

search_finds : (n i : ℕ) (t : Turns) → i < 40 → IsNearer i n t → (search n t).0 ≢ nothing
unfolding search
search_finds zero i t h a = ground (arith, a.near)
search_finds (suc n) i t h a = go (λ u c. search_finds n i u h c) t.next_cmd_giver refl
  where
    from_end : 39 - i < suc n → distance (pos 39) i < suc n
    from_end l = ground (arith, l, h)

    at : ℕ → Turns → Choice × Turns
    at g w = look g (w.players g) w (search n)

    body : ℤ → Choice × Turns
    body z =
        let w = if is_negative z then skip t else t in
        let rest = at (pos_part w.next_cmd_giver) w in
        if is_negative z && t.comm_time then (beat, record w { time_to_call = true }) else rest

    reached :
        ((u : Turns) → IsNearer i n u → (search n u).0 ≢ nothing)
        → (g : ℕ) (w : Turns) → w.next_cmd_giver ≡ pos g
        → g < 40
        → Waits i w
        → distance (pos g) i < suc n
        → (at (pos_part w.next_cmd_giver) w).0 ≢ nothing
    reached ih g w e k b l =
        subst (λ z. (at (pos_part z) w).0 ≢ nothing) (sym e) (look_finds i g n w ih h k e b l)

    go :
        ((u : Turns) → IsNearer i n u → (search n u).0 ≢ nothing)
        → (z : ℤ) → t.next_cmd_giver ≡ z
        → (body z).0 ≢ nothing
    go ih (pos g) e =
        reached ih g t e (subst IsGiver e a.giver) a.waits
          (subst (λ z. distance z i < suc n) e a.near)
    go ih (negsuc k) e = by_time t.comm_time
      where
        by_time :
            (b : Bool)
            → (if b
                then (beat, record (skip t) { time_to_call = true })
                else at (pos_part (skip t).next_cmd_giver) (skip t)).0
              ≢ nothing
        by_time true = λ c. cc
        by_time false =
            reached ih 39 (skip t) (ap inc_cmd_giver e) (omega arith) a.waits
              (from_end (subst (λ z. distance z i < suc n) e a.near))

-- If NextCmdGiver is -1 or the index of a connection and some connection has a complete command,
-- then the search of get_message gives a command or calls the heart beat, and does not wait.
pub next_command_given :
    (i : ℕ) (t : Turns)
    → i < 40
    → IsGiver t.next_cmd_giver
    → Waits i t
    → (next_command t).0 ≢ nothing
unfolding next_command
next_command_given i t h g a =
    kept (search 41 (record t { twait = 0 })).0 (search 41 (record t { twait = 0 })).1 (
      search_finds 41 i (record t { twait = 0 }) h
        (record { giver = g; waits = (a.0, a.1, a.2, a.3); near = bound t.next_cmd_giver g }))
  where
    bound : (z : ℤ) → IsGiver z → distance z i < 41
    bound (pos n) k = ground (arith, k, h)
    bound (negsuc n) k = omega arith

    kept : (c : Choice) (u : Turns) → c ≢ nothing → (without_cmd c u).0 ≢ nothing
    kept beat u n = n
    kept nothing u n = elim (n refl) [ ]
    kept (cmd j p) u n = n
