-- ===== src/Interp/Bits/Laws.antt =====
-- The six bits of a byte, and a string of which one byte is changed (lpmud/interpret.c).
use lpmud_ng.Base.{
  ℕ, zero, suc, ◌+◌, ◌-◌, ◌<◌, ◌≤◌, ◌≡◌, refl, sym, ap, ◌∙◌, Bool, true, false, ◌==◌, if◌then◌else◌,
  not, ◌||◌, ◌&&◌, Option, none, some, [], ◌∷◌, get_elem?, arith,
}
use lpmud_ng.Base.Run.{ok, error}
use lpmud_ng.Base.Text.{Chars}
use lpmud_ng.Value.{Value, string}
use lpmud_ng.Interp.Bits.{
  bit, with_bit, without_bit, pad, change, is_pattern, change_bits, distance, is_set,
}

-- A statement on the numbers below six, from each of them
pub below_six : (P : ℕ → Type 0) → P 0 → P 1 → P 2 → P 3 → P 4 → P 5 → (k : ℕ) → k < 6 → P k
below_six P a b c d e f zero h = a
below_six P a b c d e f (suc zero) h = b
below_six P a b c d e f (suc (suc zero)) h = c
below_six P a b c d e f (suc (suc (suc zero))) h = d
below_six P a b c d e f (suc (suc (suc (suc zero)))) h = e
below_six P a b c d e f (suc (suc (suc (suc (suc zero))))) h = f
below_six P a b c d e f (suc (suc (suc (suc (suc (suc k)))))) h = ground (arith, h)

module _ (d : ℕ) (h : d < 64) where
  pub bit-with_bit : (k j : ℕ) → k < 6 → j < 6 → bit j (with_bit k d) ≡ (j == k || bit j d)
  bit-with_bit k j hk hj =
      below_six (λ k. bit j (with_bit k d) ≡ (j == k || bit j d)) (at_0 j hj) (at_1 j hj)
        (at_2 j hj) (at_3 j hj) (at_4 j hj) (at_5 j hj) k hk
    where
      at_0 : (j : ℕ) → j < 6 → bit j (with_bit 0 d) ≡ (j == 0 || bit j d)
      at_0 =
          below_six (λ j. bit j (with_bit 0 d) ≡ (j == 0 || bit j d)) (ground arith) (ground arith)
            (ground arith) (ground arith) (ground arith) (ground arith)

      at_1 : (j : ℕ) → j < 6 → bit j (with_bit 1 d) ≡ (j == 1 || bit j d)
      at_1 =
          below_six (λ j. bit j (with_bit 1 d) ≡ (j == 1 || bit j d)) (ground arith) (ground arith)
            (ground arith) (ground arith) (ground arith) (ground arith)

      at_2 : (j : ℕ) → j < 6 → bit j (with_bit 2 d) ≡ (j == 2 || bit j d)
      at_2 =
          below_six (λ j. bit j (with_bit 2 d) ≡ (j == 2 || bit j d)) (ground arith) (ground arith)
            (ground arith) (ground arith) (ground arith) (ground arith)

      at_3 : (j : ℕ) → j < 6 → bit j (with_bit 3 d) ≡ (j == 3 || bit j d)
      at_3 =
          below_six (λ j. bit j (with_bit 3 d) ≡ (j == 3 || bit j d)) (ground arith) (ground arith)
            (ground arith) (ground arith) (ground arith) (ground arith)

      at_4 : (j : ℕ) → j < 6 → bit j (with_bit 4 d) ≡ (j == 4 || bit j d)
      at_4 =
          below_six (λ j. bit j (with_bit 4 d) ≡ (j == 4 || bit j d)) (ground arith) (ground arith)
            (ground arith) (ground arith) (ground arith) (ground arith)

      at_5 : (j : ℕ) → j < 6 → bit j (with_bit 5 d) ≡ (j == 5 || bit j d)
      at_5 =
          below_six (λ j. bit j (with_bit 5 d) ≡ (j == 5 || bit j d)) (ground arith) (ground arith)
            (ground arith) (ground arith) (ground arith) (ground arith)

  pub bit-without_bit :
      (k j : ℕ) → k < 6 → j < 6 → bit j (without_bit k d) ≡ (not (j == k) && bit j d)
  bit-without_bit k j hk hj =
      below_six (λ k. bit j (without_bit k d) ≡ (not (j == k) && bit j d)) (at_0 j hj) (at_1 j hj)
        (at_2 j hj) (at_3 j hj) (at_4 j hj) (at_5 j hj) k hk
    where
      at_0 : (j : ℕ) → j < 6 → bit j (without_bit 0 d) ≡ (not (j == 0) && bit j d)
      at_0 =
          below_six (λ j. bit j (without_bit 0 d) ≡ (not (j == 0) && bit j d)) (ground arith)
            (ground arith) (ground arith) (ground arith) (ground arith) (ground arith)

      at_1 : (j : ℕ) → j < 6 → bit j (without_bit 1 d) ≡ (not (j == 1) && bit j d)
      at_1 =
          below_six (λ j. bit j (without_bit 1 d) ≡ (not (j == 1) && bit j d)) (ground arith)
            (ground arith) (ground arith) (ground arith) (ground arith) (ground arith)

      at_2 : (j : ℕ) → j < 6 → bit j (without_bit 2 d) ≡ (not (j == 2) && bit j d)
      at_2 =
          below_six (λ j. bit j (without_bit 2 d) ≡ (not (j == 2) && bit j d)) (ground arith)
            (ground arith) (ground arith) (ground arith) (ground arith) (ground arith)

      at_3 : (j : ℕ) → j < 6 → bit j (without_bit 3 d) ≡ (not (j == 3) && bit j d)
      at_3 =
          below_six (λ j. bit j (without_bit 3 d) ≡ (not (j == 3) && bit j d)) (ground arith)
            (ground arith) (ground arith) (ground arith) (ground arith) (ground arith)

      at_4 : (j : ℕ) → j < 6 → bit j (without_bit 4 d) ≡ (not (j == 4) && bit j d)
      at_4 =
          below_six (λ j. bit j (without_bit 4 d) ≡ (not (j == 4) && bit j d)) (ground arith)
            (ground arith) (ground arith) (ground arith) (ground arith) (ground arith)

      at_5 : (j : ℕ) → j < 6 → bit j (without_bit 5 d) ≡ (not (j == 5) && bit j d)
      at_5 =
          below_six (λ j. bit j (without_bit 5 d) ≡ (not (j == 5) && bit j d)) (ground arith)
            (ground arith) (ground arith) (ground arith) (ground arith) (ground arith)

  pub with_bit_small : (k : ℕ) → k < 6 → with_bit k d < 64
  with_bit_small =
      below_six (λ k. with_bit k d < 64) (ground arith) (ground arith) (ground arith) (ground arith)
        (ground arith) (ground arith)

  pub without_bit_small : (k : ℕ) → without_bit k d < 64
  without_bit_small k = ground (arith, h)

-- A byte of a pattern, and what stands for its bits
distance-plus : (d : ℕ) → d < 64 → distance (d + 32) ≡ d
distance-plus d h = ground (arith, h)

pub distance-pattern : (c : ℕ) → 32 ≤ c → c ≤ 95 → distance c ≡ c - 32
distance-pattern c a b = ground (arith, a, b)

get-change :
    (i j : ℕ) (f : ℕ → ℕ) (s : Chars) (c : ℕ)
    → get_elem? s i ≡ some c
    → get_elem? (change i f s) j ≡ (if j == i then some (f c) else get_elem? s j)
get-change i j f [] c e = ground (arith, e)
get-change zero zero f (d ∷ s) c e = ground (arith, e)
get-change zero (suc j) f (d ∷ s) c e = ground arith
get-change (suc i) zero f (d ∷ s) c e = ground arith
get-change (suc i) (suc j) f (d ∷ s) c e = ground (arith, get-change i j f s c e)

space_unset : (k : ℕ) → k < 6 → is_set (some 32) k ≡ false
space_unset =
    below_six (λ k. is_set (some 32) k ≡ false) (ground arith) (ground arith) (ground arith)
      (ground arith) (ground arith) (ground arith)

-- The spaces at the end hold no bits.
pub is_set-pad :
    (n j k : ℕ) (s : Chars) → k < 6 → is_set (get_elem? (pad n s) j) k ≡ is_set (get_elem? s j) k
is_set-pad zero j k s h = refl
is_set-pad (suc n) zero k [] h = space_unset k h
is_set-pad (suc n) (suc j) k [] h = is_set-pad n j k [] h
is_set-pad (suc n) zero k (c ∷ s) h = refl
is_set-pad (suc n) (suc j) k (c ∷ s) h = is_set-pad n j k s h

-- Where the bits of one byte are changed, the others are as they were.
pub record IsChanged (f : ℕ → ℕ) (i : ℕ) (s t : Chars) : Type 0 where
  pub byte : ℕ
  pub pattern_low : 32 ≤ byte
  pub pattern_high : byte ≤ 95
  pub there : get_elem? s i ≡ some byte
  pub result : t ≡ change i (λ c. f (c - 32) + 32) s

text_of : Value → Chars
text_of (string s) = s
text_of _ = []

pub change_bits-IsChanged :
    (f : ℕ → ℕ) (i : ℕ) (s t : Chars) → change_bits f i s ≡ ok (string t) → IsChanged f i s t
unfolding change_bits
change_bits-IsChanged f i s t e =
    found (get_elem? s i) refl (is_pattern-true (is_pattern (get_elem? s i)) e)
  where
    is_pattern-true :
        (b : Bool)
        → (if b then ok (string (change i (λ c. f (c - 32) + 32) s)) else error) ≡ ok (string t)
        → (b ≡ true) × (t ≡ change i (λ c. f (c - 32) + 32) s)
    is_pattern-true true h = (refl, cc)
    is_pattern-true false h = cc

    found :
        (o : Option ℕ)
        → get_elem? s i ≡ o
        → (is_pattern (get_elem? s i) ≡ true) × (t ≡ change i (λ c. f (c - 32) + 32) s)
        → IsChanged f i s t
    found none g p = ground (arith, sym (ap is_pattern g) ∙ p.0)
    found (some c) g p = record {
      byte = c;
      pattern_low = ground (arith, sym (ap is_pattern g) ∙ p.0);
      pattern_high = ground (arith, sym (ap is_pattern g) ∙ p.0);
      there = g;
      result = p.1;
    }

pub is_set-IsChanged :
    (f : ℕ → ℕ) (i j k : ℕ) (s t : Chars) (h : IsChanged f i s t)
    → ((d : ℕ) → d < 64 → f d < 64)
    → is_set (get_elem? t j) k
      ≡ (if j == i then bit k (f (h.byte - 32)) else is_set (get_elem? s j) k)
is_set-IsChanged f i j k s t h small =
    ap (λ u. is_set (get_elem? u j) k) h.result
    ∙ ap (λ o. is_set o k) (get-change i j (λ c. f (c - 32) + 32) s h.byte h.there)
    ∙ by_case (j == i)
  where
    by_case :
        (b : Bool)
        → is_set (if b then some (f (h.byte - 32) + 32) else get_elem? s j) k
          ≡ (if b then bit k (f (h.byte - 32)) else is_set (get_elem? s j) k)
    by_case true =
        ap (bit k)
          (distance-plus (f (h.byte - 32)) (small (h.byte - 32) (omega (arith, h.pattern_high))))
    by_case false = refl
