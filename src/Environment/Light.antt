-- ===== src/Environment/Light.antt =====
-- The lights of the objects: their own and those of what they contain.
use lpmud_ng.Base.{
  ℕ, zero, suc, ◌+◌, ◌-◌, ◌*◌, ◌/◌, ◌%◌, ltb, subst, ◌<◌, ◌≡◌, refl, sym, ap, ◌∙◌, arith, true,
  false, ◌==◌, if◌then◌else◌, Option, none, some, List, [], ◌∷◌, inl, inr, Bool-cases, ==_iff,
}
use lpmud_ng.Base.Int.{ℤ, pos, negsuc, pos_part, neg_part, ◌+ℤ◌, +ℤ_parts, int_laws}
use lpmud_ng.Base.Run.{ok}
use lpmud_ng.Base.Chain
use lpmud_ng.Environment.{World, set_light, from_bits, short, is_zero, add_light}
use lpmud_ng.Environment.Tree.{Above, is_object, places, is_super}

abbrev pub sum_light : (ℕ → ℤ) → List ℕ → ℤ
sum_light light [] = pos 0
sum_light light (x ∷ l) = light x +ℤ sum_light light l

-- What the light of `o` lacks, if that of `p` lacks `k`
abbrev pub lack : Option ℕ → ℤ → ℕ → ℤ
lack p k o = if is_super p o then k else pos 0

-- The last 16 bits are the same.
abbrev pub Same : ℤ → ℤ → Type 0
Same a b =
    (m : ℕ) × (n : ℕ) × (pos_part a + neg_part b + 65536 * m ≡ pos_part b + neg_part a + 65536 * n)

Same-refl : (a : ℤ) → Same a a
Same-refl a = (0, 0, omega arith)

pub of_eq : (a b : ℤ) → a ≡ b → Same a b
of_eq a b e = subst (Same a) e (Same-refl a)

Same-sym : (a b : ℤ) → Same a b → Same b a
Same-sym a b (m, n, e) = (n, m, omega (arith, e))

Same-trans : (a b c : ℤ) → Same a b → Same b c → Same a c
Same-trans a b c (m, n, e) (k, l, f) = (m + k, n + l, omega (arith, e, f))

Same-add : (a b c d : ℤ) → Same a b → Same c d → Same (a +ℤ c) (b +ℤ d)
Same-add a b c d (m, n, e) (k, l, f) =
    (m + k, n + l, omega (arith, e, f, +ℤ_parts a c, +ℤ_parts b d))

short-Same : (a : ℤ) → Same (short a) a
short-Same (pos n) = bits (n % 65536) (n / 65536) (omega arith) (omega arith)
  where
    bits :
        (r q : ℕ)
        → n ≡ r + 65536 * q
        → r < 65536
        → (x : ℕ) × (y : ℕ) × (pos_part (from_bits r) + 0 + 65536 * x
            ≡ n + neg_part (from_bits r) + 65536 * y)
    bits r q e h = elim (Bool-cases (ltb r 32768)) [
      | inl l ↦ (q, 0, ground (arith, l, e))
      | inr l ↦ (q + 1, 0, ground (arith, l, e, h))
    ]
short-Same (negsuc n) = bits (n % 65536) (n / 65536) (omega arith) (omega arith)
  where
    bits :
        (r q : ℕ)
        → n ≡ r + 65536 * q
        → r < 65536
        → (x : ℕ) × (y : ℕ) × (pos_part (from_bits (65535 - r)) + suc n + 65536 * x
            ≡ 0 + neg_part (from_bits (65535 - r)) + 65536 * y)
    bits r q e h = elim (Bool-cases (ltb (65535 - r) 32768)) [
      | inl l ↦ (0, q + 1, ground (arith, l, e, h))
      | inr l ↦ (0, q, ground (arith, l, e, h))
    ]

-- Each light is the object's own and the sum of the lights of what it contains.
abbrev pub IsLit : (ℕ → ℤ) → (ℕ → List ℕ) → (ℕ → ℤ) → Type 0
IsLit own contains light = (o : ℕ) → Same (light o) (own o +ℤ sum_light light (contains o))

-- The same, but for `k` at `p`
abbrev pub IsLitBut : (ℕ → ℤ) → (ℕ → List ℕ) → (ℕ → ℤ) → Option ℕ → ℤ → Type 0
IsLitBut own contains light p k =
    (o : ℕ) → Same (light o +ℤ lack p k o) (own o +ℤ sum_light light (contains o))

abbrev lit : (ℕ → ℤ) → ℕ → ℤ → ℕ → ℤ
lit light p k q = if q == p then short (light p +ℤ k) else light q

sum_light-absent :
    (light : ℕ → ℤ) (p : ℕ) (k : ℤ) (l : List ℕ)
    → Chain.count (is_object p) l ≡ 0
    → sum_light (lit light p k) l ≡ sum_light light l
unfolding Chain.count
sum_light-absent light p k [] h = refl
sum_light-absent light p k (x ∷ l) h = ground (arith, h, sum_light-absent light p k l)

add_last : (a b k : ℤ) → a +ℤ k +ℤ b ≡ a +ℤ b +ℤ k
add_last a b k = omega int_laws

add_assoc : (a b k : ℤ) → a +ℤ (b +ℤ k) ≡ a +ℤ b +ℤ k
add_assoc a b k = omega int_laws

lit_at : (light : ℕ → ℤ) (p x : ℕ) (k : ℤ) → (x == p) ≡ true → Same (lit light p k x) (light x +ℤ k)
lit_at light p x k e =
    subst (λ a. Same a (light x +ℤ k))
      (sym (
        ap (λ b. if b then short (light p +ℤ k) else light x) e
        ∙ ap (λ q. short (light q +ℤ k)) (sym ((==_iff x p).0 e))))
      (short-Same (light x +ℤ k))

lit_beside : (light : ℕ → ℤ) (p x : ℕ) (k : ℤ) → (x == p) ≡ false → lit light p k x ≡ light x
lit_beside light p x k e = ap (λ b. if b then short (light p +ℤ k) else light x) e

sum_light-present :
    (light : ℕ → ℤ) (p : ℕ) (k : ℤ) (l : List ℕ)
    → Chain.count (is_object p) l ≡ 1
    → Same (sum_light (lit light p k) l) (sum_light light l +ℤ k)
unfolding Chain.count
sum_light-present light p k [] h = ground (arith, h)
sum_light-present light p k (x ∷ l) h = elim (Bool-cases (x == p)) [
  | inl e ↦
      Same-trans _ (light x +ℤ k +ℤ sum_light light l) _
        (Same-add (lit light p k x) (light x +ℤ k) (sum_light (lit light p k) l) (sum_light light l)
          (lit_at light p x k e)
          (of_eq (sum_light (lit light p k) l) (sum_light light l)
            (sum_light-absent light p k l (ground (arith, h, e)))))
        (of_eq (light x +ℤ k +ℤ sum_light light l) _ (add_last (light x) (sum_light light l) k))
  | inr e ↦
      Same-trans _ (light x +ℤ (sum_light light l +ℤ k)) _
        (Same-add (lit light p k x) (light x) (sum_light (lit light p k) l) (sum_light light l +ℤ k)
          (of_eq (lit light p k x) (light x) (lit_beside light p x k e))
          (sum_light-present light p k l (ground (arith, h, e))))
        (of_eq (light x +ℤ (sum_light light l +ℤ k)) _ (add_assoc (light x) (sum_light light l) k))
]

add_zero : (a : ℤ) → a +ℤ pos 0 ≡ a
add_zero a = omega int_laws

==_symm : (a b : ℕ) → (a == b) ≡ (b == a)
==_symm a b = ground arith

lit-lack : (light : ℕ → ℤ) (p o : ℕ) (k : ℤ) → Same (lit light p k o) (light o +ℤ lack (some p) k o)
lit-lack light p o k = elim (Bool-cases (o == p)) [
  | inl e ↦
      subst (λ b. Same (lit light p k o) (light o +ℤ (if b then k else pos 0)))
        (sym (==_symm p o ∙ e)) (lit_at light p o k e)
  | inr e ↦ of_eq (lit light p k o) (light o +ℤ lack (some p) k o) (
      lit_beside light p o k e
      ∙ sym (add_zero (light o))
      ∙ ap (λ b. light o +ℤ (if b then k else pos 0)) (sym (==_symm p o ∙ e)))
]

zero_eq : (k : ℤ) → is_zero k ≡ true → k ≡ pos 0
zero_eq (pos n) h = ground (arith, h)
zero_eq (negsuc n) h = ground (arith, h)

lack_zero : (k : ℤ) (p : Option ℕ) (o : ℕ) → is_zero k ≡ true → lack p k o ≡ pos 0
lack_zero k p o h = elim (Bool-cases (is_super p o)) [
  | inl e ↦ ap (λ b. if b then k else pos 0) e ∙ zero_eq k h
  | inr e ↦ ap (λ b. if b then k else pos 0) e
]

sum_light-places :
    (light : ℕ → ℤ) (p : ℕ) (k : ℤ) (s : ℕ) (q : Option ℕ) (l : List ℕ)
    → Chain.count (is_object p) l ≡ places s q
    → Same (sum_light (lit light p k) l) (sum_light light l +ℤ lack q k s)
sum_light-places light p k s none l h =
    of_eq (sum_light (lit light p k) l) (sum_light light l +ℤ pos 0)
      (sum_light-absent light p k l h ∙ sym (add_zero (sum_light light l)))
sum_light-places light p k s (some q) l h = elim (Bool-cases (s == q)) [
  | inl e ↦
      subst
        (λ b. Same (sum_light (lit light p k) l) (sum_light light l +ℤ (if b then k else pos 0)))
        (sym (==_symm q s ∙ e)) (sum_light-present light p k l (h ∙ ap (λ b. if b then 1 else 0) e))
  | inr e ↦ of_eq (sum_light (lit light p k) l) (sum_light light l +ℤ lack (some q) k s) (
      sum_light-absent light p k l (h ∙ ap (λ b. if b then 1 else 0) e)
      ∙ sym (add_zero (sum_light light l))
      ∙ ap (λ b. sum_light light l +ℤ (if b then k else pos 0)) (sym (==_symm q s ∙ e)))
]

-- The light that is missing at `p` is put there, and is missing around it then.
step_up :
    (own : ℕ → ℤ) (super : ℕ → Option ℕ) (contains : ℕ → List ℕ) (light : ℕ → ℤ) (p : ℕ) (k : ℤ)
    → ((s : ℕ) → Chain.count (is_object p) (contains s) ≡ places s (super p))
    → IsLitBut own contains light (some p) k
    → IsLitBut own contains (lit light p k) (super p) k
step_up own super contains light p k hs h o =
    let up = lack (super p) k o in
    let sum = sum_light light (contains o) in
    let new = sum_light (lit light p k) (contains o) in
    Same-trans _ (own o +ℤ sum +ℤ up) _
      (Same-add (lit light p k o) (own o +ℤ sum) up up
        (Same-trans (lit light p k o) (light o +ℤ lack (some p) k o) (own o +ℤ sum)
          (lit-lack light p o k) (h o))
        (Same-refl up))
      (Same-trans (own o +ℤ sum +ℤ up) (own o +ℤ (sum +ℤ up)) _
        (of_eq (own o +ℤ sum +ℤ up) _ (sym (add_assoc (own o) sum up)))
        (Same-add (own o) (own o) (sum +ℤ up) new (Same-refl (own o))
          (Same-sym new (sum +ℤ up) (sum_light-places light p k o (super p) (contains o) (hs o)))))

-- If each light has the last 16 bits of the sum of the object's own and those of what it contains,
-- but for k at p, and the objects are a tree, then add_light of k to p, with more fuel than the
-- tree is high, returns, and the 16 bits of each light are so without an exception.
pub add_light-IsLit :
    (fuel n : ℕ) (p : Option ℕ) (k : ℤ) (own : ℕ → ℤ) (w : World)
    → n < fuel
    → Above w.super p n
    → ((s o : ℕ) → Chain.count (is_object o) (w.contains s) ≡ places s (w.super o))
    → IsLitBut own w.contains w.total_light p k
    → (u : World) × (add_light fuel p k w ≡ some (ok u)) × IsLit own u.contains u.total_light
unfolding add_light
add_light-IsLit zero n p k own w hf ha hs h = ground (arith, hf)
add_light-IsLit (suc fuel) n none k own w hf ha hs h = (
  w,
  refl,
  λ o.
      Same-trans (w.total_light o) (w.total_light o +ℤ pos 0) _
        (of_eq (w.total_light o) _ (sym (add_zero (w.total_light o)))) (h o),
)
add_light-IsLit (suc fuel) zero (some p) k own w hf ha hs h = elim ha [ ]
add_light-IsLit (suc fuel) (suc n) (some p) k own w hf ha hs h =
    let w1 = set_light p (short (w.total_light p +ℤ k)) w in
    let (u, e, l) =
      add_light-IsLit fuel n (w.super p) k own w1 (omega (arith, hf)) ha hs
        (step_up own w.super w.contains w.total_light p k (λ s. hs s p) h) in
    elim (Bool-cases (is_zero k)) [
      | inl b ↦ (
        w,
        ap (λ z. if z then some (ok w) else add_light fuel (w.super p) k w1) b,
        λ o.
            Same-trans (w.total_light o) (w.total_light o +ℤ lack (some p) k o) _
              (of_eq (w.total_light o) _ (
                sym (add_zero (w.total_light o))
                ∙ ap (λ a. w.total_light o +ℤ a) (sym (lack_zero k (some p) o b))))
              (h o),
      )
      | inr b ↦ (u, ap (λ z. if z then some (ok w) else add_light fuel (w.super p) k w1) b ∙ e, l)
    ]
