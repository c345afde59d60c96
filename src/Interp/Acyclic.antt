-- ===== src/Interp/Acyclic.antt =====
-- No vector comes to contain itself: what check_for_recursion of lpmud/interpret.c is for.
pub mod Elements
pub mod Expressions
use lpmud_ng.Base.{
  ℕ, zero, suc, ◌+◌, ◌≡◌, ◌≢◌, ◌⊎◌, inl, inr, refl, sym, ap, ◌∙◌, subst, Bool, true, false, ◌==◌,
  if◌then◌else◌, Bool-cases, Option, none, some, List, [], ◌∷◌, get_elem?, arith, ==_iff, ==_refl,
}
use lpmud_ng.Base.Int.{pos}
use lpmud_ng.Base.Run.{Run, ok, error, fatal, undefined, ◌>>=◌}
use lpmud_ng.Value.{Value, number, string, pointer, object, assign_svalue}
use lpmud_ng.Interp.State.{State, Outcome, return, fail, then_do}
use lpmud_ng.Interp.Assign.{
  check_items, check_for_recursion, with_item, store_item, with_cost, check_value, assign_element,
}

-- `w` is an item of the list.
abbrev pub Has : List Value → ℕ → Type 0
Has [] w = ⊥
Has (x ∷ l) w = (x ≡ pointer w) ⊎ Has l w

-- From vector to vector through the items
pub data PathIn (vectors : ℕ → List Value) : ℕ → ℕ → Type 0 where
  here : {v : ℕ} → PathIn vectors v v
  step : {v w x : ℕ} → Has (vectors v) w → PathIn vectors w x → PathIn vectors v x

pub record IsAcyclic (vectors : ℕ → List Value) : Type 0 where
  pub acyclic : (v w : ℕ) → Has (vectors v) w → PathIn vectors w v → ⊥

abbrev address : Value → ℕ
address (pointer v) = v
address _ = 0

bind_ok : (m : Run ℕ) (k : ℕ → Run ℕ) (d : ℕ) → m >>= k ≡ ok d → (e : ℕ) × (m ≡ ok e) × (k e ≡ ok d)
bind_ok (ok e) k d h = (e, refl, h)
bind_ok error k d h = elim (no_error h) [ ]
  where
    no_error : error ≡ ok d → ⊥
    no_error h = cc
bind_ok fatal k d h = elim (no_fatal h) [ ]
  where
    no_fatal : fatal ≡ ok d → ⊥
    no_fatal h = cc
bind_ok undefined k d h = elim (no_undefined h) [ ]
  where
    no_undefined : undefined ≡ ok d → ⊥
    no_undefined h = cc

checked_item :
    (check : ℕ → ℕ → Run ℕ) (l : List Value) (c d w : ℕ)
    → check_items check l c ≡ ok d
    → Has l w
    → (e : ℕ) × (e' : ℕ) × (check w e ≡ ok e')
unfolding check_items
checked_item check [] c d w h k = elim k [ ]
checked_item check (number n ∷ l) c d w h (inl e) = elim (no_number e) [ ]
  where
    no_number : number n ≡ pointer w → ⊥
    no_number e = cc
checked_item check (number n ∷ l) c d w h (inr k) = checked_item check l c d w h k
checked_item check (string n ∷ l) c d w h (inl e) = elim (no_string e) [ ]
  where
    no_string : string n ≡ pointer w → ⊥
    no_string e = cc
checked_item check (string n ∷ l) c d w h (inr k) = checked_item check l c d w h k
checked_item check (object n ∷ l) c d w h (inl e) = elim (no_object e) [ ]
  where
    no_object : object n ≡ pointer w → ⊥
    no_object e = cc
checked_item check (object n ∷ l) c d w h (inr k) = checked_item check l c d w h k
checked_item check (pointer v ∷ l) c d w h k =
    let first = bind_ok (check v c) (check_items check l) d h in
    among first.0 first.1 first.2 k (checked_item check l first.0 d w first.2)
  where
    among :
        (e : ℕ)
        → check v c ≡ ok e
        → check_items check l e ≡ ok d
        → (pointer v ≡ pointer w) ⊎ Has l w
        → (Has l w → (f : ℕ) × (f' : ℕ) × (check w f ≡ ok f'))
        → (f : ℕ) × (f' : ℕ) × (check w f ≡ ok f')
    among e h1 h2 (inl q) r = (c, e, subst (λ u. check u c ≡ ok e) (ap address q) h1)
    among e h1 h2 (inr j) r = r j

-- A check that returns has found no way to the vector.
pub checked_path :
    (stack : ℕ) (vectors : ℕ → List Value) (vec v c d : ℕ)
    → check_for_recursion stack vectors vec v c ≡ ok d
    → PathIn vectors v vec
    → ⊥
unfolding check_for_recursion
checked_path zero vectors vec v c d h p = elim (no_result h) [ ]
  where
    no_result : undefined ≡ ok d → ⊥
    no_result h = cc
checked_path (suc stack) vectors vec v c d h here =
    elim (no_error (
      sym (
        ap
          (λ b.
            if b
            then error
            else check_items (check_for_recursion stack vectors vec) (vectors v) (c + 1))
          (==_refl v))
      ∙ h)) [ ]
  where
    no_error : error ≡ ok d → ⊥
    no_error h = cc
checked_path (suc stack) vectors vec v c d h (step {w = w} k p) =
    let item =
      checked_item (check_for_recursion stack vectors vec) (vectors v) (c + 1) d w
        (passed (v == vec) _ h) k in
    checked_path stack vectors vec w item.0 item.1 item.2 p
  where
    passed : (b : Bool) (m : Run ℕ) → (if b then error else m) ≡ ok d → m ≡ ok d
    passed true m h = cc
    passed false m h = h

-- An item of a list with a new item
Has-with_item :
    (i : ℕ) (v : Value) (l : List Value) (w : ℕ)
    → Has (with_item i v l) w
    → (v ≡ pointer w) ⊎ Has l w
Has-with_item i v [] w h = inr h
Has-with_item zero v (x ∷ l) w (inl e) = inl e
Has-with_item zero v (x ∷ l) w (inr h) = inr (inr h)
Has-with_item (suc i) v (x ∷ l) w (inl e) = inr (inl e)
Has-with_item (suc i) v (x ∷ l) w (inr h) = elim (Has-with_item i v l w h) [
  | inl e ↦ inl e
  | inr k ↦ inr (inr k)
]

-- The vectors with a new item `x` in `vec`
module _ (vectors : ℕ → List Value) (vec i : ℕ) (x : Value) where
  abbrev pub changed : ℕ → List Value
  changed w = if w == vec then with_item i x (vectors vec) else vectors w

  -- An item of the changed vectors is the new one or one of before.
  new_or_old : (v w : ℕ) → Has (changed v) w → ((v ≡ vec) × (x ≡ pointer w)) ⊎ Has (vectors v) w
  new_or_old v w h = elim (Bool-cases (v == vec)) [
    | inl e ↦
        let same = (==_iff v vec).0 e in
        elim (Has-with_item i x (vectors vec) w
          (subst (λ b. Has (if b then with_item i x (vectors vec) else vectors v) w) e h)) [
            | inl q ↦ inl (same, q)
            | inr k ↦ inr (subst (λ u. Has (vectors u) w) (sym same) k)
          ]
    | inr e ↦ inr (subst (λ b. Has (if b then with_item i x (vectors vec) else vectors v) w) e h)
  ]

  -- A path is one of before, or it goes through the new item.
  split_path :
      {a b : ℕ}
      → PathIn changed a b
      → PathIn vectors a b ⊎ ((w : ℕ) × (x ≡ pointer w) × PathIn vectors a vec × PathIn vectors w b)
  split_path here = inl here
  split_path (step {v} {w} h p) = elim (new_or_old v w h) [
    | inl new ↦ elim (split_path p) [
      | inl q ↦ inr (w, new.1, subst (λ u. PathIn vectors u vec) (sym new.0) here, q)
      | inr r ↦ inr (r.0, r.1, subst (λ u. PathIn vectors u vec) (sym new.0) here, r.3)
    ]
    | inr old ↦ elim (split_path p) [
      | inl q ↦ inl (step old q)
      | inr r ↦ inr (r.0, r.1, step old r.2, r.3)
    ]
  ]

  joined : {a b c : ℕ} → PathIn vectors a b → PathIn vectors b c → PathIn vectors a c
  joined here q = q
  joined (step h p) q = step h (joined p q)

  pub changed-IsAcyclic :
      IsAcyclic vectors → ((w : ℕ) → x ≡ pointer w → PathIn vectors w vec → ⊥) → IsAcyclic changed
  changed-IsAcyclic h free = record {
    acyclic = λ v w k p. elim (new_or_old v w k) [
      | inl new ↦ elim (split_path p) [
        | inl q ↦ free w new.1 (subst (λ u. PathIn vectors w u) new.0 q)
        | inr r ↦ free r.0 r.1 (subst (λ u. PathIn vectors r.0 u) new.0 r.3)
      ]
      | inr old ↦ elim (split_path p) [
        | inl q ↦ h.acyclic v w old q
        | inr r ↦ free r.0 r.1 (joined r.3 (step old r.2))
      ]
    ];
  }
