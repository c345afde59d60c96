-- ===== src/Environment/Walks.antt =====
-- The walk along an inventory through `next_inv`, in lpmud/simulate.c.
use lpmud_ng.Base.{
  ℕ, ◌≤◌, ◌≡◌, refl, ◌∙◌, arith, false, ◌==◌, Option, none, some, List, [], ◌∷◌, ==_refl,
}
use lpmud_ng.Base.Chain
use lpmud_ng.Environment.{next_in, first_in}
use lpmud_ng.Environment.Tree.{is_object, places}

-- The objects `r` are in the inventory `l` of `dest`, each followed there by the next.
abbrev pub IsEnd : ℕ → List ℕ → List ℕ → (ℕ → Option ℕ) → Type 0
IsEnd dest [] l super = Unit
IsEnd dest (x ∷ r) l super =
    ((super x ≡ some dest) × (next_in x l ≡ first_in r)) × IsEnd dest r l super

next_in_behind : (x y : ℕ) (l : List ℕ) → (y == x) ≡ false → next_in x (y ∷ l) ≡ next_in x l
next_in_behind x y [] h = refl
next_in_behind x y (z ∷ l) h = ground (arith, h)

next_in_head : (x : ℕ) (l : List ℕ) → next_in x (x ∷ l) ≡ first_in l
next_in_head x [] = refl
next_in_head x (z ∷ l) = ground (arith, ==_refl x)

IsEnd-cons :
    (dest y : ℕ) (r l : List ℕ) (super : ℕ → Option ℕ)
    → Chain.count (is_object y) r ≡ 0
    → IsEnd dest r l super
    → IsEnd dest r (y ∷ l) super
unfolding Chain.count
IsEnd-cons dest y [] l super h k = tt
IsEnd-cons dest y (x ∷ r) l super h k = (
  (k.0.0, next_in_behind x y l (ground (arith, h)) ∙ k.0.1),
  IsEnd-cons dest y r l super (ground (arith, h)) k.1,
)

places-some : (s : ℕ) (p : Option ℕ) → 1 ≤ places s p → p ≡ some s
places-some s none h = ground (arith, h)
places-some s (some q) h = ground (arith, h)

places_one : (s : ℕ) (p : Option ℕ) → places s p ≤ 1
places_one s none = omega arith
places_one s (some q) = ground arith

pub whole-IsEnd :
    (dest : ℕ) (l : List ℕ) (super : ℕ → Option ℕ)
    → ((x : ℕ) → Chain.count (is_object x) l ≤ places dest (super x))
    → IsEnd dest l l super
unfolding Chain.count
whole-IsEnd dest [] super h = tt
whole-IsEnd dest (x ∷ l) super h = (
  (places-some dest (super x) (ground (arith, h x, ==_refl x)), next_in_head x l),
  IsEnd-cons dest x l l super (ground (arith, h x, ==_refl x, places_one dest (super x)))
      (whole-IsEnd dest l super (λ y. ground (arith, h y))),
)
