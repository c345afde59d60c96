-- ===== src/Base/Chain.antt =====
-- Hash chains: search for the first entry that passes a test, and its removal. The driver's three
-- hash tables walk their chains this way and put what they find at the head.
use Prim.Native.Nat.{ℕ, suc, ◌+◌, ◌≤◌}
use mathlib.Core.Path.{◌≡◌, refl}
use mathlib.Core.Bool.{Bool, true, false}
use mathlib.Core.List.{List, [], ◌∷◌}
use mathlib.Core.Option.{Option, none, some}
use native.Mathlib.Omega.{arith}
use lpmud_ng.Base.Lists.{All}
use lpmud_ng.Base.Tests.{if◌then◌else◌}

abbrev pub to_nat : Bool → ℕ
to_nat true = 1
to_nat false = 0

module _ {ℓ} {A : Type ℓ} where
  unfoldable pub find : (A → Bool) → List A → Option A
  find p [] = none
  find p (x ∷ xs) = if p x then some x else find p xs

  -- Unlinks the first entry that passes.
  unfoldable pub erase : (A → Bool) → List A → List A
  erase p [] = []
  erase p (x ∷ xs) = if p x then xs else x ∷ erase p xs

  -- The number of entries that the search looks at.
  unfoldable pub probes : (A → Bool) → List A → ℕ
  probes p [] = 0
  probes p (x ∷ xs) = suc (if p x then 0 else probes p xs)

  unfoldable pub count : (A → Bool) → List A → ℕ
  count p [] = 0
  count p (x ∷ xs) = to_nat (p x) + count p xs

  pub find-passes : (p : A → Bool) (xs : List A) (y : A) → find p xs ≡ some y → p y ≡ true
  unfolding find
  find-passes p [] y e = cc
  find-passes p (x ∷ xs) y e = ground (arith, find-passes p xs y)

  pub find-All {κ} :
      (P : A → Type κ) (p : A → Bool) (xs : List A) (y : A) → All P xs → find p xs ≡ some y → P y
  unfolding find
  find-All P p [] y a e = cc
  find-All P p (x ∷ xs) y a e = ground (arith, find-All P p xs y)

  pub erase-All {κ} : (P : A → Type κ) (p : A → Bool) (xs : List A) → All P xs → All P (erase p xs)
  unfolding erase
  erase-All P p [] a = a
  erase-All P p (x ∷ xs) a = ground (arith, erase-All P p xs)

  pub find-eq-none : (p : A → Bool) (xs : List A) → count p xs ≡ 0 → find p xs ≡ none
  unfolding find count
  find-eq-none p [] h = refl
  find-eq-none p (x ∷ xs) h = ground (arith, find-eq-none p xs)

  pub count-eq-zero : (p : A → Bool) (xs : List A) → find p xs ≡ none → count p xs ≡ 0
  unfolding find count
  count-eq-zero p [] h = refl
  count-eq-zero p (x ∷ xs) h = ground (arith, count-eq-zero p xs)

  -- What `erase` unlinks is what `find` found.
  pub count-erase :
      (p q : A → Bool) (xs : List A) (y : A)
      → find p xs ≡ some y
      → to_nat (q y) + count q (erase p xs) ≡ count q xs
  unfolding find count erase
  count-erase p q [] y e = cc
  count-erase p q (x ∷ xs) y e = ground (arith, count-erase p q xs y)

  -- A search for an entry that occurs once is not disturbed when another is unlinked.
  pub find-erase :
      (p q : A → Bool) (xs : List A) (y : A)
      → find p xs ≡ some y
      → count q xs ≤ 1
      → find q (erase p xs) ≡ (if q y then none else find q xs)
  unfolding find count erase
  find-erase p q [] y e h = cc
  find-erase p q (x ∷ xs) y e h =
      ground
        (arith, find-erase p q xs y, find-eq-none q xs, find-passes p xs y, count-erase p q xs y)

  pub find_unique :
      (q : A → Bool) (xs : List A) (p : A → Bool) (y : A)
      → find p xs ≡ some y
      → q y ≡ true
      → count q xs ≤ 1
      → find q xs ≡ some y
  unfolding find count
  find_unique q [] p y e t h = cc
  find_unique q (x ∷ xs) p y e t h =
      ground (arith, find_unique q xs p y, count-eq-zero q xs, count-erase p q xs y)

  -- Moving an entry to the head disturbs no search for an entry that occurs once.
  pub find-front :
      (p q : A → Bool) (xs : List A) (y : A)
      → find p xs ≡ some y
      → count q xs ≤ 1
      → find q (y ∷ erase p xs) ≡ find q xs
  unfolding find
  find-front p q xs y e h = ground (arith, find-erase p q xs y, find_unique q xs p y)
