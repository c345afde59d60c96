-- ===== src/Environment/Parts.antt =====
-- The parts of move_object: the light, the sentences and the old inventory.
use lpmud_ng.Base.{
  ℕ, zero, suc, ◌<◌, ◌≡◌, refl, sym, ap, ◌∙◌, subst, arith, Bool, true, false, ◌==◌, if◌then◌else◌,
  Option, none, some, List, [], ◌∷◌, inl, inr, Bool-cases,
}
use lpmud_ng.Base.Int.{ℤ, pos, ◌+ℤ◌, ◌-ℤ◌}
use lpmud_ng.Base.Run.{ok}
use mathlib.Core.Path.{fun_ext}
use lpmud_ng.Environment.{
  World, set_contains, set_light, short, is_zero, Event, continue, run, add_light, take_out,
  is_there, part, remove_sent, unlink_from, leave_now,
}
use lpmud_ng.Environment.Tree.{Above, left}

-- `u` has that tree, and the flags of `w`.
pub record Like (super : ℕ → Option ℕ) (contains : ℕ → List ℕ) (w u : World) : Type 0 where
  pub supers : u.super ≡ super
  pub holds : u.contains ≡ contains
  pub enables : u.enable_commands ≡ w.enable_commands
  pub alive : u.destructed ≡ w.destructed

-- The LPC functions leave the tree, the commands and the life of the objects alone.
abbrev pub IsQuiet : (Event → ℕ → World → World) → Type 0
IsQuiet lpc = (e : Event) (o : ℕ) (w : World) → Like w.super w.contains w (lpc e o w)

pub Like-step :
    (s : ℕ → Option ℕ) (c : ℕ → List ℕ) (w u v : World)
    → Like s c w u
    → Like u.super u.contains u v
    → Like s c w v
Like-step s c w u v h k = record {
  supers = k.supers ∙ h.supers;
  holds = k.holds ∙ h.holds;
  enables = k.enables ∙ h.enables;
  alive = k.alive ∙ h.alive;
}

pub same : (w : World) → Like w.super w.contains w w
same w = record { supers = refl; holds = refl; enables = refl; alive = refl }

pub if-Like :
    (s : ℕ → Option ℕ) (c : ℕ → List ℕ) (b : Bool) (w u v : World)
    → Like s c w u
    → Like s c w v
    → Like s c w (if b then u else v)
if-Like s c true w u v h k = h
if-Like s c false w u v h k = k

pub remove_sent-Like : (o p : ℕ) (w : World) → Like w.super w.contains w (remove_sent o p w)
unfolding remove_sent
remove_sent-Like o p w = record { supers = refl; holds = refl; enables = refl; alive = refl }

-- One after the other, both or neither
pub maybe_remove-Like :
    (b : Bool) (o p : ℕ) (w : World)
    → Like w.super w.contains w (if b then remove_sent o p w else w)
maybe_remove-Like b o p w =
    if-Like w.super w.contains b w (remove_sent o p w) w (remove_sent-Like o p w) (same w)

pub add_light_lem :
    (fuel n : ℕ) (p : Option ℕ) (k : ℤ) (w : World)
    → Above w.super p n
    → n < fuel
    → (u : World) × (add_light fuel p k w ≡ some (ok u))
      × Like w.super w.contains w u
      × (u.command_giver ≡ w.command_giver)
unfolding add_light
add_light_lem zero n p k w h hf = ground (arith, hf)
add_light_lem (suc fuel) n none k w h hf = (w, refl, same w, refl)
add_light_lem (suc fuel) zero (some o) k w h hf = elim h [ ]
add_light_lem (suc fuel) (suc n) (some o) k w h hf =
    let lit = set_light o (short (w.total_light o +ℤ k)) w in
    let (u, e, l, c) = add_light_lem fuel n (w.super o) k lit h (omega (arith, hf)) in
    elim (Bool-cases (is_zero k)) [
      | inl b ↦ (w, ground (arith, b), same w, refl)
      | inr b ↦ (
        u,
        ap (λ z. if z then some (ok w) else add_light fuel (w.super o) k lit) b ∙ e,
        record { supers = l.supers; holds = l.holds; enables = l.enables; alive = l.alive },
        c,
      )
    ]

pub part-Like : (item : ℕ) (l : List ℕ) (w : World) → Like w.super w.contains w (part item l w)
unfolding part
part-Like item [] w = same w
part-Like item (o ∷ l) w =
    let w1 = if w.enable_commands o then remove_sent item o w else w in
    let w2 = if w1.enable_commands item then remove_sent o item w1 else w1 in
    if-Like w.super w.contains (o == item) w (part item l w) (part item l w2) (part-Like item l w) (
      Like-step w.super w.contains w w2 (part item l w2)
        (Like-step w.super w.contains w w1 w2 (maybe_remove-Like (w.enable_commands o) item o w)
          (maybe_remove-Like (w1.enable_commands item) o item w1))
        (part-Like item l w2))

pub unlink_from_lem :
    (item s : ℕ) (w : World)
    → is_there item (w.contains s) ≡ true
    → (u : World) × (unlink_from item s w ≡ ok u) × Like w.super (left item (some s) w.contains) w u
unfolding unlink_from
unlink_from_lem item s w h =
    let v = part item (w.contains s) w in
    let k = part-Like item (w.contains s) w in
    (
      set_contains s (take_out item (w.contains s)) v,
      ground (arith, h),
      record {
        supers = k.supers;
        holds = fun_ext (λ q. ground (arith, ap (λ f. f q) k.holds));
        enables = k.enables;
        alive = k.alive;
      },
    )

pub leave_now_lem :
    (fuel n item s : ℕ) (w : World)
    → is_there item (w.contains s) ≡ true
    → Above w.super (some s) n
    → n < fuel
    → (u : World) × (leave_now fuel item (some s) w ≡ some (ok u))
      × Like w.super (left item (some s) w.contains) w u
unfolding leave_now
leave_now_lem fuel n item s w h ha hf =
    let w1 = if w.enable_commands s then remove_sent item s w else w in
    let k1 = maybe_remove-Like (w.enable_commands s) item s w in
    let (w2, e2, k2, c2) =
      add_light_lem fuel n (some s) (pos 0 -ℤ w1.total_light item) w1
        (subst (λ f. Above f (some s) n) (sym k1.supers) ha) hf in
    let k = Like-step w.super w.contains w w1 w2 k1 k2 in
    let (w3, e3, k3) = unlink_from_lem item s w2 (ap (λ c. is_there item (c s)) k.holds ∙ h) in
    (
      w3,
      ap (λ m. continue m (λ u. run (unlink_from item s u))) e2 ∙ ap run e3,
      record {
        supers = k3.supers ∙ k.supers;
        holds = k3.holds ∙ ap (left item (some s)) k.holds;
        enables = k3.enables ∙ k.enables;
        alive = k3.alive ∙ k.alive;
      },
    )
