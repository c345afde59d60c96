-- ===== src/Transfer/Results.antt =====
-- What transfer_object returns, if the functions that are called leave the tree alone.
use lpmud_ng.Base.{
  ℕ, zero, suc, ◌+◌, ◌<◌, ◌≡◌, ◌⊎◌, refl, sym, ap, ◌∙◌, subst, Bool, true, false, not, ◌||◌, ◌&&◌,
  if◌then◌else◌, Option, none, some, inl, inr, Bool-cases, length,
}
use lpmud_ng.Base.Int.{ℤ, pos, ◌-ℤ◌}
use lpmud_ng.Base.Run.{ok}
use mathlib.Core.Option.{map}
use lpmud_ng.Value.{Value, number}
use lpmud_ng.Environment.{World, Event, is_inside}
use lpmud_ng.Environment.Tree.{IsTree}
use lpmud_ng.Environment.Parts.{Like, IsQuiet, Like-step, same}
use lpmud_ng.Environment.Results.{Moved, Like-IsTree, move_object_lem}
use lpmud_ng.Transfer.{
  Question, query_weight, drop, can_put_and_get, prevent_insert, get, add_weight, is_set,
  is_refusal, is_denied, is_kept_back, is_too_heavy, Outcome, refuse, with_code, inquire, may_drop,
  may_take, may_insert, may_get, may_carry, relieve, check, finish, weighed, transfer_object,
}

-- The functions leave the tree, the commands and the life of the objects alone, whatever they answer.
abbrev pub IsCalm : (Question → ℕ → Option Value → World → Option Value × World) → Type 0
IsCalm ask =
    (q : Question) (o : ℕ) (a : Option Value) (w : World)
    → Like w.super w.contains w (ask q o a w).1

-- The outcome is that of `k` or a refusal, in a world with the same tree.
abbrev pub Passes : (World → Outcome) → World → Outcome → Type 0
Passes k w r =
    (u : World) × Like w.super w.contains w u × ((r ≡ k u) ⊎ ((c : ℕ) × (r ≡ refuse (suc c) u)))

chain :
    (j k : World → Outcome) (w : World) (r : Outcome)
    → Passes j w r
    → ((u : World) → Passes k u (j u))
    → Passes k w r
chain j k w r (u, l, inr h) f = (u, l, inr h)
chain j k w r (u, l, inl h) f = further (f u)
  where
    further : Passes k u (j u) → Passes k w r
    further (v, m, inl e) = (v, Like-step w.super w.contains w u v l m, inl (h ∙ e))
    further (v, m, inr (c, e)) = (v, Like-step w.super w.contains w u v l m, inr (c, h ∙ e))

module _ (ask : Question → ℕ → Option Value → World → Option Value × World)
    (lpc : Event → ℕ → World → World) (calm : IsCalm ask) where
  inquire-Passes :
      (on : Bool) (q : Question) (o : ℕ) (arg : Option Value) (stops : Option Value → World → Bool)
      (c : ℕ) (k : World → Outcome) (w : World)
      → Passes k w (inquire ask lpc on q o arg stops (suc c) k w)
  inquire-Passes false q o arg stops c k w = (w, same w, inl refl)
  inquire-Passes true q o arg stops c k w =
      let u = (ask q o arg w).1 in
      elim (Bool-cases (stops (ask q o arg w).0 u)) [
        | inl e ↦ (u, calm q o arg w, inr (c, ap (λ b. if b then refuse (suc c) u else k u) e))
        | inr e ↦ (u, calm q o arg w, inl (ap (λ b. if b then refuse (suc c) u else k u) e))
      ]

  may_drop-Passes :
      (ob : ℕ) (from : Option ℕ) (k : World → Outcome) (w : World)
      → Passes k w (may_drop ask lpc ob from k w)
  unfolding may_drop
  may_drop-Passes ob none k w = (w, same w, inl refl)
  may_drop-Passes ob (some from) k w =
      inquire-Passes (w.enable_commands from) drop ob none (λ r u. is_refusal r || u.destructed ob)
        1 k w

  may_take-Passes :
      (from : Option ℕ) (k : World → Outcome) (w : World) → Passes k w (may_take ask lpc from k w)
  unfolding may_take
  may_take-Passes none k w = (w, same w, inl refl)
  may_take-Passes (some from) k w =
      inquire-Passes (is_set (w.super from) && not (w.enable_commands from)) can_put_and_get from
        none (λ r u. is_denied r || u.destructed from) 2 k w

  may_insert-Passes :
      (ob to : ℕ) (k : World → Outcome) (w : World) → Passes k w (may_insert ask lpc ob to k w)
  unfolding may_insert
  may_insert-Passes ob to k w =
      let on = is_set (w.super to) && not (w.enable_commands to) in
      let stops : Option Value → World → Bool =
        λ r u. is_denied r || u.destructed to || u.destructed ob in
      let j = inquire ask lpc on can_put_and_get to none stops 5 k in
      chain j k w (inquire ask lpc on prevent_insert ob none (λ r u. is_refusal r) 4 j w)
        (inquire-Passes on prevent_insert ob none (λ r u. is_refusal r) 3 j w)
        (inquire-Passes on can_put_and_get to none stops 4 k)

  may_get-Passes :
      (ob to : ℕ) (k : World → Outcome) (w : World) → Passes k w (may_get ask lpc ob to k w)
  unfolding may_get
  may_get-Passes ob to k w =
      inquire-Passes (w.enable_commands to) get ob none (λ r u. is_kept_back r || u.destructed ob) 5
        k w

  may_carry-Passes :
      (to : ℕ) (n : Option ℤ) (k : World → Outcome) (w : World)
      → Passes k w (may_carry ask lpc to n k w)
  unfolding may_carry
  may_carry-Passes to none k w = (w, same w, inl refl)
  may_carry-Passes to (some n) k w =
      inquire-Passes (is_set (w.super to)) add_weight to (some (number n))
        (λ r u. is_too_heavy r || u.destructed to) 0 k w

  pub relieve-Like :
      (from : Option ℕ) (n : Option ℤ) (k : World → Outcome) (w : World)
      → (u : World) × Like w.super w.contains w u × (relieve ask lpc from n k w ≡ k u)
  unfolding relieve
  relieve-Like none none k w = (w, same w, refl)
  relieve-Like none (some n) k w = (w, same w, refl)
  relieve-Like (some from) none k w = (w, same w, refl)
  relieve-Like (some from) (some n) k w =
      let u = (ask add_weight from (some (number (pos 0 -ℤ n))) w).1 in
      elim (Bool-cases (is_set (w.super from))) [
        | inl e ↦ (
          u,
          calm add_weight from (some (number (pos 0 -ℤ n))) w,
          ap (λ b. if b then k u else k w) e,
        )
        | inr e ↦ (w, same w, ap (λ b. if b then k u else k w) e)
      ]

  relieve-Passes :
      (from : Option ℕ) (n : Option ℤ) (k : World → Outcome) (w : World)
      → Passes k w (relieve ask lpc from n k w)
  relieve-Passes from n k w = let (u, l, e) = relieve-Like from n k w in (u, l, inl e)

  check-Passes :
      (ob to : ℕ) (from : Option ℕ) (n : Option ℤ) (k : World → Outcome) (w : World)
      → Passes k w (check ask lpc ob to from n k w)
  check-Passes ob to from n k w =
      let k5 = relieve ask lpc from n k in
      let k4 = may_carry ask lpc to n k5 in
      let k3 = may_get ask lpc ob to k4 in
      let k2 = may_insert ask lpc ob to k3 in
      let k1 = may_take ask lpc from k2 in
      chain k1 k w (may_drop ask lpc ob from k1 w) (may_drop-Passes ob from k1 w) (λ w.
        chain k2 k w (k1 w) (may_take-Passes from k2 w) (λ w.
          chain k3 k w (k2 w) (may_insert-Passes ob to k3 w) (λ w.
            chain k4 k w (k3 w) (may_get-Passes ob to k4 w) (λ w.
              chain k5 k w (k4 w) (may_carry-Passes to n k5 w) (λ w. relieve-Passes from n k w)))))

  -- A refusal left the tree as it was; a move was made in a world with the same tree.
  abbrev pub Transferred : IsQuiet lpc → ℕ → ℕ → ℕ → ℕ → World → ℕ → World → Type 0
  Transferred quiet fuel n ob to w zero u =
      (v : World) × Like w.super w.contains w v
      × (inside : Bool) × (is_inside fuel ob (some to) v ≡ some inside)
      × Moved lpc quiet n ob to inside v u
  Transferred quiet fuel n ob to w (suc c) u = Like w.super w.contains w u

  finish_lem :
      (quiet : IsQuiet lpc) (fuel n ob to : ℕ) (w v : World) (r : Outcome)
      → Like w.super w.contains w v
      → IsTree n w.super w.contains
      → n < fuel
      → length (w.contains to) + 1 < fuel
      → w.destructed ob ≡ false
      → w.destructed to ≡ false
      → (r ≡ finish ask lpc fuel ob to v) ⊎ ((c : ℕ) × (r ≡ refuse (suc c) v))
      → (code : ℕ) × (u : World) × (r ≡ some (ok (code, u)))
        × Transferred quiet fuel n ob to w code u
  finish_lem quiet fuel n ob to w v r l ht hn hf ho hd (inr (c, e)) = (suc c, v, e, l)
  finish_lem quiet fuel n ob to w v r l ht hn hf ho hd (inl e) =
      let (inside, ei, u, eu, m) =
        move_object_lem lpc quiet fuel n ob to v (Like-IsTree n w.super w.contains w v l ht) hn
          (subst (λ c. length (c to) + 1 < fuel) (sym l.holds) hf) (ap (λ f. f ob) l.alive ∙ ho)
          (ap (λ f. f to) l.alive ∙ hd) in
      (0, u, e ∙ ap with_code eu, (v, l, inside, ei, m))

  pub weighed-number :
      (fuel ob to : ℕ) (from : Option ℕ) (weight : Option ℤ) (w1 : World)
      → w1.destructed ob ≡ false
      → weighed ask lpc fuel ob to from (map number weight) w1
        ≡ check ask lpc ob to from weight (finish ask lpc fuel ob to) w1
  weighed-number fuel ob to from none w1 h =
      ap
        (λ b.
          if b then refuse 3 w1 else check ask lpc ob to from none (finish ask lpc fuel ob to) w1)
        h
  weighed-number fuel ob to from (some m) w1 h =
      ap
        (λ b.
          if b
          then refuse 3 w1
          else check ask lpc ob to from (some m) (finish ask lpc fuel ob to) w1)
        h

  -- If the functions leave the tree alone, the objects are a tree that is n high, neither object
  -- is destructed, and query_weight answers with a number or is missing, then transfer_object,
  -- with more fuel than n and than the inventory of to has objects with the new one, returns. If
  -- its code is not 0 the tree is as it was; if it is 0 move_object has moved the object in a
  -- world with the same tree.
  pub transfer_object_ends :
      (quiet : IsQuiet lpc) (fuel n ob to : ℕ) (weight : Option ℤ) (w : World)
      → (ask query_weight ob none w).0 ≡ map number weight
      → IsTree n w.super w.contains
      → n < fuel
      → length (w.contains to) + 1 < fuel
      → w.destructed ob ≡ false
      → w.destructed to ≡ false
      → (code : ℕ) × (u : World) × (transfer_object ask lpc fuel ob to w ≡ some (ok (code, u)))
        × Transferred quiet fuel n ob to w code u
  unfolding transfer_object
  transfer_object_ends quiet fuel n ob to weight w hw ht hn hf ho hd =
      let w1 = (ask query_weight ob none w).1 in
      let l1 = calm query_weight ob none w in
      let (v, l, p) = check-Passes ob to (w.super ob) weight (finish ask lpc fuel ob to) w1 in
      let k = Like-step w.super w.contains w w1 v l1 l in
      let (code, u, e, t) =
        finish_lem quiet fuel n ob to w v
          (check ask lpc ob to (w.super ob) weight (finish ask lpc fuel ob to) w1) k ht hn hf ho hd
          p in
      (
        code,
        u,
        ap (λ r. weighed ask lpc fuel ob to (w.super ob) r w1) hw
            ∙ weighed-number fuel ob to (w.super ob) weight w1 (ap (λ f. f ob) l1.alive ∙ ho)
            ∙ e,
        t,
      )
