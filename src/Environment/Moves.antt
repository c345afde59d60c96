-- ===== src/Environment/Moves.antt =====
-- move_object, if the LPC functions that it calls leave the tree alone.
use lpmud_ng.Base.{
  ℕ, zero, suc, ◌<◌, ◌≤◌, ◌≡◌, refl, sym, ap, ◌∙◌, subst, arith, false, ◌==◌, if◌then◌else◌, Option,
  none, some, List, [], ◌∷◌, inl, inr, Bool-cases, ==_refl, length,
}
use lpmud_ng.Base.Run.{ok}
use lpmud_ng.Base.Chain
use lpmud_ng.Environment.{
  World, Event, reset, exit, init, Step, continue, run, is_there, remove_sent, leave_now, next_in,
  next_inv, first_in, link_into, touch, remove_exit, leave_from, call_as, greet, greet_all, settle,
  arrive,
}
use lpmud_ng.Environment.Parts.{
  Like, IsQuiet, Like-step, same, if-Like, remove_sent-Like, add_light_lem, leave_now_lem,
}
use lpmud_ng.Environment.Tree.{Above, IsTree, is_object, places, left, is_there-count}
use lpmud_ng.Environment.Walks.{IsEnd, whole-IsEnd}

module _ (lpc : Event → ℕ → World → World) (quiet : IsQuiet lpc) where
  call_as-Like :
      (giver : ℕ) (e : Event) (o : ℕ) (w : World)
      → Like w.super w.contains w (call_as lpc giver e o w)
  call_as-Like giver e o w =
      let k = quiet e o (record w { command_giver = some giver }) in
      record { supers = k.supers; holds = k.holds; enables = k.enables; alive = k.alive }

  pub touch_lem :
      (o : ℕ) (k : World → Step) (w : World)
      → w.destructed o ≡ false
      → (u : World) × (touch lpc o k w ≡ k u) × Like w.super w.contains w u
  unfolding touch
  touch_lem o k w h =
      let w0 : World = record w { not_touched = λ q. if q == o then false else w.not_touched q } in
      let u = lpc reset o w0 in
      let l = quiet reset o w0 in
      elim (Bool-cases (w.not_touched o)) [
        | inl e ↦ (
          u,
          ap (λ b. if b then if u.destructed o then some (ok u) else k u else k w) e
              ∙ ap (λ b. if b then some (ok u) else k u) (ap (λ f. f o) l.alive ∙ h),
          record { supers = l.supers; holds = l.holds; enables = l.enables; alive = l.alive },
        )
        | inr e ↦
            (w, ap (λ b. if b then if u.destructed o then some (ok u) else k u else k w) e, same w)
      ]

  exit_lem :
      (item s : ℕ) (w : World)
      → w.super item ≡ some s
      → let w1 = call_as lpc item exit s w in
        (u : World) × ((if w.enable_commands item
            then remove_exit lpc item (w1.super item) w1
            else ok w)
          ≡ ok u)
        × Like w.super w.contains w u
  exit_lem item s w e =
      let w1 = call_as lpc item exit s w in
      let l = call_as-Like item exit s w in
      elim (Bool-cases (w.enable_commands item)) [
        | inl b ↦ (
          remove_sent s item w1,
          ap (λ c. if c then remove_exit lpc item (w1.super item) w1 else ok w) b
              ∙ ap (λ p. remove_exit lpc item p w1) (ap (λ f. f item) l.supers ∙ e),
          Like-step w.super w.contains w w1 (remove_sent s item w1) l (remove_sent-Like s item w1),
        )
        | inr b ↦
            (w, ap (λ c. if c then remove_exit lpc item (w1.super item) w1 else ok w) b, same w)
      ]

  pub leave_from_lem :
      (fuel n item : ℕ) (p : Option ℕ) (w : World)
      → w.super item ≡ p
      → IsTree n w.super w.contains
      → n < fuel
      → (u : World) × (leave_from lpc fuel item p w ≡ some (ok u))
        × Like w.super (left item p w.contains) w u
  unfolding leave_from
  leave_from_lem fuel n item none w e ht hf =
      (w, refl, record { supers = refl; holds = refl; enables = refl; alive = refl })
  leave_from_lem fuel n item (some s) w e ht hf =
      let (v, ev, k) = exit_lem item s w e in
      let (u, eu, l) =
        leave_now_lem fuel n item s v
          (ap (λ c. is_there item (c s)) k.holds
            ∙ is_there-count item (w.contains s)
                (ht.stands s item ∙ ap (places s) e ∙ ground (arith, ==_refl s)))
          (subst (λ f. Above f (some s) n) (sym k.supers) (ht.ends s)) hf in
      (
        u,
        ap (λ m. continue (run m) (λ w2. leave_now fuel item (w2.super item) w2)) ev
            ∙ ap (λ q. leave_now fuel item q v) (ap (λ f. f item) k.supers ∙ e)
            ∙ eu,
        record {
          supers = l.supers ∙ k.supers;
          holds = l.holds ∙ ap (left item (some s)) k.holds;
          enables = l.enables ∙ k.enables;
          alive = l.alive ∙ k.alive;
        },
      )

  greet-Like : (item ob : ℕ) (w : World) → Like w.super w.contains w (greet lpc item ob w)
  greet-Like item ob w =
      let w1 = if w.enable_commands ob then call_as lpc ob init item w else w in
      let k =
        if-Like w.super w.contains (w.enable_commands ob) w (call_as lpc ob init item w) w
          (call_as-Like ob init item w) (same w) in
      if-Like w.super w.contains (w1.enable_commands item) w (call_as lpc item init ob w1) w1
        (Like-step w.super w.contains w w1 (call_as lpc item init ob w1) k
          (call_as-Like item init ob w1))
        k

  settle_lem :
      (fuel n item dest : ℕ) (saved : Option ℕ) (w : World)
      → Above w.super (some dest) n
      → n < fuel
      → (u : World) × (settle lpc fuel item dest saved w ≡ some (ok u))
        × Like w.super w.contains w u
        × (u.command_giver ≡ saved)
  unfolding settle
  settle_lem fuel n item dest saved w h hf =
      let w1 = if w.enable_commands dest then call_as lpc dest init item w else w in
      let k =
        if-Like w.super w.contains (w.enable_commands dest) w (call_as lpc dest init item w) w
          (call_as-Like dest init item w) (same w) in
      let (u, e, l, c) =
        add_light_lem fuel n (some dest) (w1.total_light item) (record w1 { command_giver = saved })
          (subst (λ f. Above f (some dest) n) (sym k.supers) h) hf in
      (
        u,
        e,
        record {
          supers = l.supers ∙ k.supers;
          holds = l.holds ∙ k.holds;
          enables = l.enables ∙ k.enables;
          alive = l.alive ∙ k.alive;
        },
        c,
      )

  -- The loop over the inventory `l` of `dest`, at the objects `r` at its end.
  greet_all_lem :
      (fuel item dest : ℕ) (l r : List ℕ) (w : World)
      → w.contains dest ≡ l
      → IsEnd dest r l w.super
      → length r < fuel
      → (u : World) × (greet_all lpc fuel item (first_in r) w ≡ some (ok u))
        × Like w.super w.contains w u
  unfolding greet_all
  greet_all_lem zero item dest l r w e h hf = ground (arith, hf)
  greet_all_lem (suc fuel) item dest l [] w e h hf = (w, refl, same w)
  greet_all_lem (suc fuel) item dest l (x ∷ r) w e h hf =
      let w1 = if x == item then w else greet lpc item x w in
      let k =
        if-Like w.super w.contains (x == item) w w (greet lpc item x w) (same w)
          (greet-Like item x w) in
      let (u, eu, ku) =
        greet_all_lem fuel item dest l r w1 (ap (λ c. c dest) k.holds ∙ e)
          (subst (IsEnd dest r l) (sym k.supers) h.1) (omega (arith, hf)) in
      (
        u,
        ap (λ p. greet_all lpc fuel item (next_inv x p w1) w1) (ap (λ f. f x) k.supers ∙ h.0.0)
            ∙ ap (λ c. greet_all lpc fuel item (next_in x c) w1) (ap (λ c. c dest) k.holds ∙ e)
            ∙ ap (λ p. greet_all lpc fuel item p w1) h.0.1
            ∙ eu,
        Like-step w.super w.contains w w1 u k ku,
      )

  -- What happens behind the link.
  abbrev pub behind : ℕ → ℕ → ℕ → Option ℕ → World → Step
  behind fuel item dest saved u =
      continue (greet_all lpc fuel item (first_in (u.contains dest)) u)
        (settle lpc fuel item dest saved)

  behind_lem :
      (fuel n item dest : ℕ) (saved : Option ℕ) (u : World)
      → ((x : ℕ) → Chain.count (is_object x) (u.contains dest) ≤ places dest (u.super x))
      → Above u.super (some dest) n
      → n < fuel
      → length (u.contains dest) < fuel
      → (v : World) × (behind fuel item dest saved u ≡ some (ok v))
        × Like u.super u.contains u v
        × (v.command_giver ≡ saved)
  behind_lem fuel n item dest saved u h ha hn hf =
      let (u1, e1, k1) =
        greet_all_lem fuel item dest (u.contains dest) (u.contains dest) u refl
          (whole-IsEnd dest (u.contains dest) u.super h) hf in
      let (v, e, k, c) =
        settle_lem fuel n item dest saved u1 (subst (λ f. Above f (some dest) n) (sym k1.supers) ha)
          hn in
      (
        v,
        ap (λ m. continue m (settle lpc fuel item dest saved)) e1 ∙ e,
        Like-step u.super u.contains u u1 v k1 k,
        c,
      )

  pub arrive_lem :
      (fuel n item dest : ℕ) (saved : Option ℕ) (w : World)
      → let w1 = link_into item dest w in
        ((x : ℕ) → Chain.count (is_object x) (w1.contains dest) ≤ places dest (w1.super x))
        → Above w1.super (some dest) n
        → n < fuel
        → length (w1.contains dest) < fuel
        → w1.destructed dest ≡ false
        → (v : World) × (arrive lpc fuel item dest saved w ≡ some (ok v))
          × Like w1.super w1.contains w1 v
          × (v.command_giver ≡ saved)
  unfolding arrive
  arrive_lem fuel n item dest saved w h ha hn hf hd =
      let w1 = link_into item dest w in
      let w2 = call_as lpc item init dest w1 in
      let l = call_as-Like item init dest w1 in
      let k = behind fuel item dest saved in
      elim (Bool-cases (w1.enable_commands item)) [
        | inl b ↦
            let (v, e, kv, c) =
              behind_lem fuel n item dest saved w2
                (λ x.
                  subst (λ f. Chain.count (is_object x) (w2.contains dest) ≤ places dest (f x))
                    (sym l.supers)
                    (subst (λ c. Chain.count (is_object x) (c dest) ≤ places dest (w1.super x))
                      (sym l.holds) (h x)))
                (subst (λ f. Above f (some dest) n) (sym l.supers) ha) hn
                (subst (λ c. length (c dest) < fuel) (sym l.holds) hf) in
            (
              v,
              ap (λ z. if z then if w2.destructed dest then some (ok w2) else k w2 else k w1) b
                  ∙ ap (λ z. if z then some (ok w2) else k w2) (ap (λ f. f dest) l.alive ∙ hd)
                  ∙ e,
              Like-step w1.super w1.contains w1 w2 v l kv,
              c,
            )
        | inr b ↦
            let (v, e, kv, c) = behind_lem fuel n item dest saved w1 h ha hn hf in
            (
              v,
              ap (λ z. if z then if w2.destructed dest then some (ok w2) else k w2 else k w1) b ∙ e,
              kv,
              c,
            )
      ]
