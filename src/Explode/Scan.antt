-- ===== src/Explode/Scan.antt =====
-- The loops of explode_string on a string of pieces.
use mathlib.Core.List.{append-nil, append_assoc}
use lpmud_ng.Base.{
  ℕ, zero, suc, ◌+◌, ◌-◌, ◌<◌, ◌≡◌, ◌⊎◌, sym, subst, Bool, true, false, ◌==◌, if◌then◌else◌, not,
  some, List, [], ◌∷◌, ◌++◌, arith, inl, inr, ==_refl, length, length-append, drop-append, drop,
  All,
}
use lpmud_ng.Base.Run.{ok}
use lpmud_ng.Base.Text.{Chars, str_eq, starts_with}
use lpmud_ng.Explode.{
  is_empty, skip_leading, count_delimiters, ends_otherwise, number_of_items, fill_items,
}
use lpmud_ng.Explode.Pieces.{IsFree, join, final, tail, repeat, ArePieces, join_last}

pub skip_leading_lem :
    (fuel k d c : ℕ) (s : Chars)
    → k < fuel
    → (c == d) ≡ false
    → skip_leading fuel (d ∷ []) (repeat k d ++ (c ∷ s)) ≡ some (some (c ∷ s))
unfolding skip_leading starts_with
skip_leading_lem zero k d c s hf hc = ground (arith, hf)
skip_leading_lem (suc fuel) zero d c s hf hc = ground (arith, hc)
skip_leading_lem (suc fuel) (suc zero) d c s hf hc =
    ground (arith, skip_leading_lem fuel zero d c s (omega (arith, hf)) hc, ==_refl d)
skip_leading_lem (suc fuel) (suc (suc k)) d c s hf hc =
    ground (arith, skip_leading_lem fuel (suc k) d c s (omega (arith, hf)) hc, ==_refl d)

pub count_delimiters_lem :
    (fuel num d : ℕ) (p : Chars) (ps : List Chars) (t : Bool)
    → IsFree d p
    → All (IsFree d) ps
    → length (join d p ps ++ tail d t) < fuel
    → count_delimiters fuel (d ∷ []) num (join d p ps ++ tail d t)
      ≡ some (num + length ps + (if t then 1 else 0))
unfolding count_delimiters starts_with
count_delimiters_lem zero num d p ps t hp hq hf = ground (arith, hf)
count_delimiters_lem (suc fuel) num d (c ∷ p) [] t hp hq hf =
    ground (arith, hp.0, count_delimiters_lem fuel num d p [] t hp.1 hq (omega (arith, hf)))
count_delimiters_lem (suc fuel) num d (c ∷ p) (q ∷ ps) t hp hq hf =
    ground (arith, hp.0, count_delimiters_lem fuel num d p (q ∷ ps) t hp.1 hq (omega (arith, hf)))
count_delimiters_lem (suc fuel) num d [] [] false hp hq hf = ground arith
count_delimiters_lem (suc (suc fuel)) num d [] [] true hp hq hf = ground (arith, ==_refl d)
count_delimiters_lem (suc zero) num d [] [] true hp hq hf = ground (arith, hf)
count_delimiters_lem (suc fuel) num d [] (q ∷ ps) t hp hq hf =
    ground
      (arith, ==_refl d, count_delimiters_lem fuel (num + 1) d q ps t hq.0 hq.1 (omega (arith, hf)))

pub fill_items_lem :
    (fuel size num d : ℕ) (cur p : Chars) (ps : List Chars) (t : Bool)
    → IsFree d p
    → All (IsFree d) ps
    → (is_empty (final (cur ++ p) ps) ≡ false) ⊎ (t ≡ true)
    → num + length ps < size
    → length (join d p ps ++ tail d t) < fuel
    → fill_items fuel (d ∷ []) size num cur (join d p ps ++ tail d t) ≡ some (ok ((cur ++ p) ∷ ps))
unfolding fill_items starts_with
fill_items_lem zero size num d cur p ps t hp hq he hs hf = ground (arith, hf)
fill_items_lem (suc fuel) size num d cur (c ∷ p) [] t hp hq he hs hf = ground (
  arith,
  hp.0,
  append_assoc cur (c ∷ []) p,
  fill_items_lem fuel size num d (cur ++ (c ∷ [])) p [] t hp.1 hq
      (subst (λ r. (is_empty (final r []) ≡ false) ⊎ (t ≡ true)) (sym (append_assoc cur (c ∷ []) p))
        he)
      hs (omega (arith, hf)),
)
fill_items_lem (suc fuel) size num d cur (c ∷ p) (q ∷ ps) t hp hq he hs hf = ground (
  arith,
  hp.0,
  append_assoc cur (c ∷ []) p,
  fill_items_lem fuel size num d (cur ++ (c ∷ [])) p (q ∷ ps) t hp.1 hq
      (subst (λ r. (is_empty (final r (q ∷ ps)) ≡ false) ⊎ (t ≡ true))
        (sym (append_assoc cur (c ∷ []) p)) he)
      hs (omega (arith, hf)),
)
fill_items_lem (suc fuel) size num d cur [] [] false hp hq (inl e) hs hf =
    ground (arith, append-nil cur, e, hs)
fill_items_lem (suc fuel) size num d cur [] [] false hp hq (inr e) hs hf = cc
fill_items_lem (suc zero) size num d cur [] [] true hp hq he hs hf = ground (arith, hf)
fill_items_lem (suc (suc fuel)) size num d cur [] [] true hp hq he hs hf =
    ground (arith, append-nil cur, ==_refl d, hs)
fill_items_lem (suc fuel) size num d cur [] (q ∷ ps) t hp hq he hs hf = ground (
  arith,
  ==_refl d,
  append-nil cur,
  hs,
  fill_items_lem fuel size (num + 1) d [] q ps t hq.0 hq.1 he (omega (arith, hs))
      (omega (arith, hf)),
)

last_index : (s : Chars) (c : ℕ) → length s ≡ length (s ++ (c ∷ [])) - 1
last_index s c = omega (arith, length-append s (c ∷ []))

pub ends_otherwise_last :
    (d c : ℕ) (s : Chars) → ends_otherwise (d ∷ []) (s ++ (c ∷ [])) ≡ not (c == d)
unfolding ends_otherwise str_eq
ends_otherwise_last d c s = ground (
  arith,
  length-append s (c ∷ []),
  subst (λ n. drop n (s ++ (c ∷ [])) ≡ c ∷ []) (last_index s c) (drop-append s (c ∷ [])),
)

pub number_of_items_lem :
    (d : ℕ) (p : Chars) (ps : List Chars) (t : Bool)
    → ArePieces d p ps t
    → number_of_items (d ∷ []) (join d p ps ++ tail d t) (0 + length ps + (if t then 1 else 0))
      ≡ suc (length ps)
unfolding number_of_items
number_of_items_lem d p ps true h = ground (arith, ends_otherwise_last d d (join d p ps), ==_refl d)
number_of_items_lem d p ps false (hp, hq, inr e) = cc
number_of_items_lem d p ps false (hp, hq, inl e) =
    let (s, c, h, hc) = join_last d p ps hp hq e in
    ground (
      arith,
      append-nil (join d p ps),
      hc,
      subst (λ r. ends_otherwise (d ∷ []) r ≡ not (c == d)) (sym h) (ends_otherwise_last d c s),
    )
