-- ===== src/Environment/Tree.antt =====
-- The tree of environments and inventories: how far up it goes, and what a move does to it.
use lpmud_ng.Base.{
  ℕ, zero, suc, ◌+◌, ◌≤◌, ◌≡◌, sym, subst, arith, Bool, true, false, ◌==◌, if◌then◌else◌, Option,
  none, some, List, [], ◌∷◌, inl, inr, Bool-cases, Option-cases,
}
use lpmud_ng.Base.Chain
use lpmud_ng.Environment.{World, is_inside, take_out, is_there}

-- The walk from `p` to the outermost object passes `n` objects at most.
abbrev pub Above : (ℕ → Option ℕ) → Option ℕ → ℕ → Type 0
Above super none n = Unit
Above super (some o) zero = ⊥
Above super (some o) (suc n) = Above super (super o) n

abbrev pub is_object : ℕ → ℕ → Bool
is_object o q = q == o

-- How often an object with that environment is in the inventory of `s`
abbrev pub places : ℕ → Option ℕ → ℕ
places s none = 0
places s (some p) = if s == p then 1 else 0

-- Each object is in the inventory of its environment, just once and in no other, and the tree is at
-- most `n` objects high.
pub record IsTree (n : ℕ) (super : ℕ → Option ℕ) (contains : ℕ → List ℕ) : Type 0 where
  pub ends : (o : ℕ) → Above super (some o) n
  pub stands : (s o : ℕ) → Chain.count (is_object o) (contains s) ≡ places s (super o)

abbrev pub moved_super : ℕ → ℕ → (ℕ → Option ℕ) → ℕ → Option ℕ
moved_super item dest super q = if q == item then some dest else super q

abbrev pub is_super : Option ℕ → ℕ → Bool
is_super none q = false
is_super (some s) q = s == q

abbrev pub left : ℕ → Option ℕ → (ℕ → List ℕ) → ℕ → List ℕ
left item p contains q = if is_super p q then take_out item (contains q) else contains q

abbrev pub moved_contains : ℕ → ℕ → Option ℕ → (ℕ → List ℕ) → ℕ → List ℕ
moved_contains item dest p contains q =
    if q == dest then item ∷ left item p contains q else left item p contains q

pub Above-more :
    (super : ℕ → Option ℕ) (p : Option ℕ) (n k : ℕ) → Above super p n → n ≤ k → Above super p k
Above-more super none n k h hk = tt
Above-more super (some o) zero k h hk = elim h [ ]
Above-more super (some o) (suc n) zero h hk = ground (arith, hk)
Above-more super (some o) (suc n) (suc k) h hk =
    Above-more super (super o) n k h (omega (arith, hk))

-- What is not inside `item` stays below the same objects.
pub is_inside-Above :
    (fuel n item dest : ℕ) (p : Option ℕ) (w : World)
    → is_inside fuel item p w ≡ some false
    → Above w.super p n
    → Above (moved_super item dest w.super) p n
unfolding is_inside
is_inside-Above zero n item dest p w h ha = cc
is_inside-Above (suc fuel) n item dest none w h ha = tt
is_inside-Above (suc fuel) zero item dest (some o) w h ha = ha
is_inside-Above (suc fuel) (suc n) item dest (some o) w h ha = elim (Bool-cases (o == item)) [
  | inl e ↦ ground (arith, h, e)
  | inr e ↦
      subst (λ b. Above (moved_super item dest w.super) (if b then some dest else w.super o) n)
        (sym e) (is_inside-Above fuel n item dest (w.super o) w (ground (arith, h, e)) ha)
]

-- What is above an object after the move is what was there before, or `dest` and what was above it.
pub moved-Above :
    (super : ℕ → Option ℕ) (item dest n k m : ℕ) (p : Option ℕ)
    → Above super p k
    → Above (moved_super item dest super) (some dest) n
    → k + n ≤ m
    → Above (moved_super item dest super) p m
moved-Above super item dest n k m none h hd hm = tt
moved-Above super item dest n zero m (some o) h hd hm = elim h [ ]
moved-Above super item dest n (suc k) zero (some o) h hd hm = ground (arith, hm)
moved-Above super item dest n (suc k) (suc m) (some o) h hd hm = elim (Bool-cases (o == item)) [
  | inl e ↦
      subst (λ b. Above (moved_super item dest super) (if b then some dest else super o) m) (sym e)
        (Above-more (moved_super item dest super) (some dest) n m hd (omega (arith, hm)))
  | inr e ↦
      subst (λ b. Above (moved_super item dest super) (if b then some dest else super o) m) (sym e)
        (moved-Above super item dest n k m (super o) h hd (omega (arith, hm)))
]

count-take_out :
    (item o : ℕ) (l : List ℕ)
    → Chain.count (is_object o) (take_out item l)
      ≡ (if o == item then 0 else Chain.count (is_object o) l)
unfolding Chain.count
count-take_out item o [] = ground arith
count-take_out item o (x ∷ l) = ground (arith, count-take_out item o l)

pub is_there-count :
    (item : ℕ) (l : List ℕ) → Chain.count (is_object item) l ≡ 1 → is_there item l ≡ true
unfolding Chain.count
is_there-count item [] h = ground (arith, h)
is_there-count item (x ∷ l) h = ground (arith, h, is_there-count item l)

pub moved-stands :
    (item dest n : ℕ) (super : ℕ → Option ℕ) (contains : ℕ → List ℕ) (s o : ℕ)
    → IsTree n super contains
    → Chain.count (is_object o) (moved_contains item dest (super item) contains s)
      ≡ places s (moved_super item dest super o)
unfolding Chain.count
moved-stands item dest n super contains s o h = elim (Option-cases (super item)) [
  | inl e ↦ ground (arith, e, h.stands s o, h.stands s item, count-take_out item o (contains s))
  | inr (p, e) ↦
      ground (arith, e, h.stands s o, h.stands s item, count-take_out item o (contains s))
]

-- A move keeps the tree, which can become twice as high.
pub moved-IsTree :
    (item dest n : ℕ) (super : ℕ → Option ℕ) (contains : ℕ → List ℕ)
    → IsTree n super contains
    → Above (moved_super item dest super) (some dest) n
    → IsTree (n + n) (moved_super item dest super) (moved_contains item dest (super item) contains)
moved-IsTree item dest n super contains h hd = record {
  ends = λ o. moved-Above super item dest n n (n + n) (some o) (h.ends o) hd (omega arith);
  stands = λ s o. moved-stands item dest n super contains s o h;
}
