-- ===== src/Environment/Results.antt =====
-- What move_object does to the tree.
use lpmud_ng.Base.{
  ℕ, zero, suc, ◌+◌, ◌<◌, ◌≤◌, ◌≡◌, refl, sym, ap, ◌∙◌, subst, arith, Bool, true, false, ◌==◌,
  if◌then◌else◌, Option, none, some, List, [], ◌∷◌, ==_refl, length,
}
use lpmud_ng.Base.Run.{ok}
use lpmud_ng.Base.Chain
use mathlib.Core.Path.{fun_ext}
use lpmud_ng.Environment.{
  World, Event, Step, continue, is_inside, take_out, link_into, touch, arrive, move_on,
  unless_inside, move_object,
}
use lpmud_ng.Environment.Parts.{Like, IsQuiet, Like-step, same}
use lpmud_ng.Environment.Moves.{leave_from_lem, touch_lem, arrive_lem}
use lpmud_ng.Environment.Tree.{
  Above-more, moved-stands, Above, IsTree, is_object, places, left, moved_super, moved_contains,
  is_inside-Above, moved-IsTree,
}

Like-link :
    (item dest : ℕ) (s : ℕ → Option ℕ) (c : ℕ → List ℕ) (p : Option ℕ) (w u : World)
    → Like s (left item p c) w u
    → Like (moved_super item dest s) (moved_contains item dest p c) w (link_into item dest u)
unfolding link_into
Like-link item dest s c p w u k = record {
  supers = ap (moved_super item dest) k.supers;
  holds = fun_ext (λ q. ground (arith, ap (λ f. f q) k.holds, ap (λ f. f dest) k.holds));
  enables = k.enables;
  alive = k.alive;
}

pub Like-IsTree :
    (n : ℕ) (s : ℕ → Option ℕ) (c : ℕ → List ℕ) (w u : World)
    → Like s c w u
    → IsTree n s c
    → IsTree n u.super u.contains
Like-IsTree n s c w u k h = record {
  ends = λ o. subst (λ f. Above f (some o) n) (sym k.supers) (h.ends o);
  stands = λ q o.
      ap (λ f. Chain.count (is_object o) (f q)) k.holds
      ∙ h.stands q o
      ∙ sym (ap (λ f. places q (f o)) k.supers);
}

higher-IsTree : (n : ℕ) (s : ℕ → Option ℕ) (c : ℕ → List ℕ) → IsTree n s c → IsTree (n + n) s c
higher-IsTree n s c h = record {
  ends = λ o. Above-more s (some o) n (n + n) (h.ends o) (omega arith);
  stands = h.stands;
}

length-take_out : (item : ℕ) (l : List ℕ) → length (take_out item l) ≤ length l
length-take_out item [] = omega arith
length-take_out item (x ∷ l) = ground (arith, length-take_out item l)

length-moved :
    (item dest : ℕ) (p : Option ℕ) (c : ℕ → List ℕ)
    → length (moved_contains item dest p c dest) ≤ length (c dest) + 1
length-moved item dest none c = ground (arith, ==_refl dest)
length-moved item dest (some s) c = ground (arith, ==_refl dest, length-take_out item (c dest))

is_inside_ends :
    (fuel n item : ℕ) (p : Option ℕ) (w : World)
    → Above w.super p n
    → n < fuel
    → (b : Bool) × (is_inside fuel item p w ≡ some b)
unfolding is_inside
is_inside_ends zero n item p w h hf = ground (arith, hf)
is_inside_ends (suc fuel) n item none w h hf = (false, refl)
is_inside_ends (suc fuel) zero item (some o) w h hf = elim h [ ]
is_inside_ends (suc fuel) (suc n) item (some o) w h hf =
    let (b, e) = is_inside_ends fuel n item (w.super o) w h (omega (arith, hf)) in
    (if o == item then true else b, ground (arith, e))

module _ (lpc : Event → ℕ → World → World) (quiet : IsQuiet lpc) where
  move_on_lem :
      (fuel n item dest : ℕ) (saved : Option ℕ) (w : World)
      → IsTree n w.super w.contains
      → Above (moved_super item dest w.super) (some dest) n
      → n < fuel
      → length (w.contains dest) + 1 < fuel
      → w.destructed dest ≡ false
      → (v : World) × (move_on lpc fuel item dest saved w ≡ some (ok v))
        × Like
            (moved_super item dest w.super)
            (moved_contains item dest (w.super item) w.contains)
            w
            v
        × (v.command_giver ≡ saved)
  move_on_lem fuel n item dest saved w ht ha hn hf hd =
      let (u, e, k) = leave_from_lem lpc quiet fuel n item (w.super item) w refl ht hn in
      let w1 = link_into item dest u in
      let l = Like-link item dest w.super w.contains (w.super item) w u k in
      let (v, ev, kv, c) =
        arrive_lem lpc quiet fuel n item dest saved u
          (λ x. omega (
            arith,
            ap (λ f. Chain.count (is_object x) (f dest)) l.holds
                ∙ moved-stands item dest n w.super w.contains dest x ht
                ∙ sym (ap (λ f. places dest (f x)) l.supers),
          ))
          (subst (λ f. Above f (some dest) n) (sym l.supers) ha) hn
          (subst (λ f. length (f dest) < fuel) (sym l.holds)
            (omega (arith, hf, length-moved item dest (w.super item) w.contains)))
          (ap (λ f. f dest) l.alive ∙ hd) in
      (
        v,
        ap (λ m. continue m (arrive lpc fuel item dest saved)) e ∙ ev,
        record {
          supers = kv.supers ∙ l.supers;
          holds = kv.holds ∙ l.holds;
          enables = kv.enables ∙ l.enables;
          alive = kv.alive ∙ l.alive;
        },
        c,
      )

  -- The world behind a move is the one of a tree in which `item` has been put first into the inventory
  -- of `dest`, or the old one if `dest` is in `item`.
  abbrev pub Moved : ℕ → ℕ → ℕ → Bool → World → World → Type 0
  Moved n item dest inside w u =
      Like (if inside then w.super else moved_super item dest w.super)
        (if inside then w.contains else moved_contains item dest (w.super item) w.contains) w u
      × IsTree (n + n) u.super u.contains
      × (u.command_giver ≡ w.command_giver)

  -- If the objects are a tree that is n high, the LPC functions leave it, the enabled commands and
  -- the life of the objects alone, and neither object is destructed, then move_object, with more
  -- fuel than n and than the inventory of dest has objects with the new one, returns. If item is
  -- dest or is around it, the tree is as it was; otherwise item is the first object of the
  -- inventory of dest and in no other one, and all others are where they were. The objects are a
  -- tree still, and the command giver is the one from before.
  pub move_object_lem :
      (fuel n item dest : ℕ) (w : World)
      → IsTree n w.super w.contains
      → n < fuel
      → length (w.contains dest) + 1 < fuel
      → w.destructed item ≡ false
      → w.destructed dest ≡ false
      → (inside : Bool) × (is_inside fuel item (some dest) w ≡ some inside)
        × (u : World) × (move_object lpc fuel item dest w ≡ some (ok u))
        × Moved n item dest inside w u
  unfolding move_object
  move_object_lem fuel n item dest w ht hn hf hi hd =
      let (b, e) = is_inside_ends fuel n item (some dest) w (ht.ends dest) hn in
      let (u, eu, m) = decided b e in (b, e, u, eu, m)
    where
      k1 : World → Step
      k1 = move_on lpc fuel item dest w.command_giver

      decided :
          (b : Bool)
          → is_inside fuel item (some dest) w ≡ some b
          → (u : World) × (move_object lpc fuel item dest w ≡ some (ok u)) × Moved n item dest b w u
      decided true e = (
        w,
        ap (λ r. unless_inside lpc r w (touch lpc item (touch lpc dest k1) w)) e,
        (same w, higher-IsTree n w.super w.contains ht, refl),
      )
      decided false e =
          let (u1, e1, l1) = touch_lem lpc quiet item (touch lpc dest k1) w hi in
          let (u2, e2, l2) = touch_lem lpc quiet dest k1 u1 (ap (λ f. f dest) l1.alive ∙ hd) in
          let l = Like-step w.super w.contains w u1 u2 l1 l2 in
          let ha = is_inside-Above fuel n item dest (some dest) w e (ht.ends dest) in
          let (v, ev, k, c) =
            move_on_lem fuel n item dest w.command_giver u2
              (Like-IsTree n w.super w.contains w u2 l ht)
              (subst (λ f. Above (moved_super item dest f) (some dest) n) (sym l.supers) ha) hn
              (subst (λ f. length (f dest) + 1 < fuel) (sym l.holds) hf)
              (ap (λ f. f dest) l.alive ∙ hd) in
          let kv : Like (moved_super item dest w.super)
              (moved_contains item dest (w.super item) w.contains) w v =
            record {
              supers = k.supers ∙ ap (moved_super item dest) l.supers;
              holds =
                  k.holds
                  ∙ ap (λ f. moved_contains item dest (f item) u2.contains) l.supers
                  ∙ ap (moved_contains item dest (w.super item)) l.holds;
              enables = k.enables ∙ l.enables;
              alive = k.alive ∙ l.alive;
            } in
          (
            v,
            ap (λ r. unless_inside lpc r w (touch lpc item (touch lpc dest k1) w)) e ∙ e1 ∙ e2 ∙ ev,
            (
              kv,
              Like-IsTree (n + n) (moved_super item dest w.super)
                  (moved_contains item dest (w.super item) w.contains) w v kv
                  (moved-IsTree item dest n w.super w.contains ht ha),
              c,
            ),
          )
