-- ===== src/Interp/Bits/Results.antt =====
-- What test_bit sees of set_bit and clear_bit (lpmud/interpret.c).
use lpmud_ng.Base.{
  ℕ, zero, suc, ◌-◌, ◌/◌, ◌%◌, ◌<◌, ◌≤◌, ◌≡◌, refl, sym, ap, ◌∙◌, Bool, true, false, ◌==◌, ltb, leb,
  if◌then◌else◌, not, ◌||◌, ◌&&◌, Bool-cases, inl, inr, none, [], ◌∷◌, length, get_elem?, arith,
}
use lpmud_ng.Base.Int.{pos}
use lpmud_ng.Base.Run.{Run, ok, error}
use lpmud_ng.Base.Text.{Chars}
use lpmud_ng.Value.{Value, string}
use lpmud_ng.Interp.Ops.{const0, const1, of_bool}
use lpmud_ng.Interp.Bits.{
  max_bits, bit, with_bit, without_bit, pad, change_bits, set_bit, clear_bit, is_set, test_bit,
}
use lpmud_ng.Interp.Bits.Laws.{
  bit-with_bit, bit-without_bit, with_bit_small, without_bit_small, distance-pattern, is_set-pad,
  IsChanged, change_bits-IsChanged, is_set-IsChanged,
}

-- Two numbers of bits are equal if their bytes and their places in it are.
same_place : (m n : ℕ) → (m / 6 == n / 6) ≡ true → (m % 6 == n % 6) ≡ (m == n)
same_place m n h = ground (arith, h)

other_byte : (m n : ℕ) → (m / 6 == n / 6) ≡ false → (m == n) ≡ false
other_byte m n h = ground (arith, h)

-- The bit of the byte that is changed, before the change
old_bit :
    (f : ℕ → ℕ) (s t : Chars) (m n : ℕ) (h : IsChanged f (n / 6) s t)
    → (m / 6 == n / 6) ≡ true
    → is_set (get_elem? s (m / 6)) (m % 6) ≡ bit (m % 6) (h.byte - 32)
old_bit f s t m n h e =
    ap (λ i. is_set (get_elem? s i) (m % 6)) (ground (arith, e))
    ∙ ap (λ o. is_set o (m % 6)) h.there
    ∙ ap (bit (m % 6)) (distance-pattern h.byte h.pattern_low h.pattern_high)

-- `g` says what the change does to a bit, given whether it is the one meant.
changed_bit :
    (f : ℕ → ℕ) (g : Bool → Bool → Bool) (s t : Chars) (m n : ℕ) (h : IsChanged f (n / 6) s t)
    → ((d : ℕ) → d < 64 → f d < 64)
    → ((d : ℕ) → d < 64 → bit (m % 6) (f d) ≡ g (m % 6 == n % 6) (bit (m % 6) d))
    → ((b : Bool) → g false b ≡ b)
    → is_set (get_elem? t (m / 6)) (m % 6) ≡ g (m == n) (is_set (get_elem? s (m / 6)) (m % 6))
changed_bit f g s t m n h small spec keep =
    is_set-IsChanged f (n / 6) (m / 6) (m % 6) s t h small ∙ elim (Bool-cases (m / 6 == n / 6)) [
      | inl e ↦
          ap (λ b. if b then bit (m % 6) (f (h.byte - 32)) else old) e
          ∙ spec (h.byte - 32) (omega (arith, h.pattern_high))
          ∙ ap (λ b. g b (bit (m % 6) (h.byte - 32))) (same_place m n e)
          ∙ ap (g (m == n)) (sym (old_bit f s t m n h e))
      | inr e ↦
          ap (λ b. if b then bit (m % 6) (f (h.byte - 32)) else old) e
          ∙ sym (keep old)
          ∙ ap (λ b. g b old) (sym (other_byte m n e))
    ]
  where
    old : Bool
    old = is_set (get_elem? s (m / 6)) (m % 6)

get-beyond : (s : Chars) (i : ℕ) → length s ≤ i → get_elem? s i ≡ none
get-beyond [] i h = refl
get-beyond (c ∷ s) zero h = ground (arith, h)
get-beyond (c ∷ s) (suc i) h = get-beyond s i (omega (arith, h))

-- Behind the string no bit is set.
unset_beyond :
    (s : Chars) (m n : ℕ)
    → length s ≤ n / 6
    → is_set (get_elem? s (m / 6)) (m % 6) ≡ (not (m == n) && is_set (get_elem? s (m / 6)) (m % 6))
unset_beyond s m n h = elim (Bool-cases (m == n)) [
  | inl e ↦
      ap (λ o. is_set o (m % 6)) (get-beyond s (m / 6) (ground (arith, h, e)))
      ∙ ap (λ b. not b && is_set (get_elem? s (m / 6)) (m % 6)) (sym e)
  | inr e ↦ ap (λ b. not b && is_set (get_elem? s (m / 6)) (m % 6)) (sym e)
]

-- The value of a bit that is meant, or not
choose :
    (b old : Bool)
    → (ok (of_bool (b || old)) ≡ (if b then ok const1 else ok (of_bool old)))
      × (ok (of_bool (not b && old)) ≡ (if b then ok const0 else ok (of_bool old)))
choose true old = (refl, refl)
choose false old = (refl, refl)

-- If set_bit of a bit in a string gives a string, test_bit of it is 1 for that bit, and for every
-- other one what it was.
pub test-set_bit :
    (s t : Chars) (n m : ℕ)
    → set_bit s (pos n) ≡ ok (string t)
    → test_bit t (pos m) ≡ (if m == n then ok const1 else test_bit s (pos m))
unfolding set_bit test_bit
test-set_bit s t n m e =
    ap (λ b. ok (of_bool b))
      (changed_bit (with_bit (n % 6)) (λ b old. b || old) (pad (suc (n / 6)) s) t m n
          (change_bits-IsChanged (with_bit (n % 6)) (n / 6) (pad (suc (n / 6)) s) t
            (passed (ltb max_bits n) e))
          (λ d h. with_bit_small d h (n % 6) (omega arith))
          (λ d h. bit-with_bit d h (n % 6) (m % 6) (omega arith) (omega arith)) (λ b. refl)
        ∙ ap (λ b. m == n || b) (is_set-pad (suc (n / 6)) (m / 6) (m % 6) s (omega arith)))
    ∙ (choose (m == n) (is_set (get_elem? s (m / 6)) (m % 6))).0
  where
    passed :
        (b : Bool)
        → (if b then error else change_bits (with_bit (n % 6)) (n / 6) (pad (suc (n / 6)) s))
          ≡ ok (string t)
        → change_bits (with_bit (n % 6)) (n / 6) (pad (suc (n / 6)) s) ≡ ok (string t)
    passed true h = cc
    passed false h = h

-- A bit that is cleared reads as 0, and the others read as before.
pub test-clear_bit :
    (s t : Chars) (n m : ℕ)
    → clear_bit s (pos n) ≡ ok (string t)
    → test_bit t (pos m) ≡ (if m == n then ok const0 else test_bit s (pos m))
unfolding clear_bit test_bit
test-clear_bit s t n m e =
    ap (λ b. ok (of_bool b)) (bit_of (leb (length s) (n / 6)) refl (passed (ltb max_bits n) e))
    ∙ (choose (m == n) (is_set (get_elem? s (m / 6)) (m % 6))).1
  where
    rest : Bool → Run Value
    rest b = if b then ok (string s) else change_bits (without_bit (n % 6)) (n / 6) s

    passed :
        (b : Bool)
        → (if b then error else rest (leb (length s) (n / 6))) ≡ ok (string t)
        → rest (leb (length s) (n / 6)) ≡ ok (string t)
    passed true h = cc
    passed false h = h

    same_text : ok (string s) ≡ ok (string t) → t ≡ s
    same_text h = cc

    bit_of :
        (b : Bool)
        → leb (length s) (n / 6) ≡ b
        → rest b ≡ ok (string t)
        → is_set (get_elem? t (m / 6)) (m % 6)
          ≡ (not (m == n) && is_set (get_elem? s (m / 6)) (m % 6))
    bit_of true l h =
        ap (λ u. is_set (get_elem? u (m / 6)) (m % 6)) (same_text h)
        ∙ unset_beyond s m n (ground (arith, l))
    bit_of false l h =
        changed_bit (without_bit (n % 6)) (λ b old. not b && old) s t m n
          (change_bits-IsChanged (without_bit (n % 6)) (n / 6) s t h)
          (λ d k. without_bit_small d k (n % 6))
          (λ d k. bit-without_bit d k (n % 6) (m % 6) (omega arith) (omega arith)) (λ b. refl)
