-- ===== src/WizList/Scores.antt =====
-- Names and scores of the wizards.
use lpmud_ng.Base.{
  ℕ, zero, suc, ◌∙◌, ◌+◌, ◌-◌, ◌≤◌, ◌≡◌, ◌≢◌, refl, sym, ap, true, false, List, [], ◌∷◌, none, some,
  if◌then◌else◌, arith, inl, inr, Bool-cases, Option-cases, length,
}
use mathlib.Core.Option.{map}
use lpmud_ng.Base.Int.{ℤ, pos, negsuc, pos_part, neg_part, ◌*ℤ◌, ◌/ℤ◌}
use lpmud_ng.Base.Run.{fatal, Returns}
use lpmud_ng.Base.Text.{Chars, str_eq, str_eq_refl, str_eq→eq}
use lpmud_ng.WizList.{
  Wiz, is_wiz, find_wiz, new_wiz, with_name, add_name, update_wiz, raise_score, add_score, decay,
  scaled, wiz_decay,
}

-- No name stands in the list twice.
abbrev pub IsDistinct : List Wiz → Type 0
IsDistinct [] = Unit
IsDistinct (w ∷ l) = (find_wiz w.name l ≡ none) × IsDistinct l

is_wiz→eq : (name : Chars) (w : Wiz) → is_wiz name w ≡ true → w.name ≡ name
is_wiz→eq name w h = str_eq→eq w.name name (ground arith)

-- An entry is found by its name.
pub is_wiz_refl : (w : Wiz) → is_wiz w.name w ≡ true
is_wiz_refl w = ground (arith, str_eq_refl w.name)

find_wiz-name : (name : Chars) (l : List Wiz) (w : Wiz) → find_wiz name l ≡ some w → w.name ≡ name
unfolding find_wiz
find_wiz-name name [] w e = cc
find_wiz-name name (x ∷ l) w e = ground (arith, find_wiz-name name l w, is_wiz→eq name x)

other_wiz : (q name : Chars) → q ≢ name → is_wiz q (new_wiz name) ≡ false
other_wiz q name h = elim (Bool-cases (is_wiz q (new_wiz name))) [
  | inl e ↦ absurd (h (sym (is_wiz→eq q (new_wiz name) e)))
  | inr e ↦ e
]

-- add_name returns the entry of the name, which is found from then on; no other lookup changes.
pub add_name-find :
    (name : Chars) (l : List Wiz)
    → let (w, l') = add_name name l in
      (w.name ≡ name)
      × (find_wiz name l' ≡ some w)
      × ((q : Chars) → q ≢ name → find_wiz q l' ≡ find_wiz q l)
unfolding add_name
add_name-find name l = elim (Option-cases (find_wiz name l)) [
  | inl e ↦
      rw (e, with_name)
        (
          refl,
          unfold find_wiz in rw (is_wiz_refl (new_wiz name)),
          (λ q h. unfold find_wiz in rw (other_wiz q name h)),
        )
  | inr (w, e) ↦ rw (e, with_name) (find_wiz-name name l w e, e, (λ q h. refl))
]

-- add_name keeps a list without a name twice.
pub add_name-IsDistinct :
    (name : Chars) (l : List Wiz) → IsDistinct l → IsDistinct (add_name name l).1
unfolding add_name
add_name-IsDistinct name l d = elim (Option-cases (find_wiz name l)) [
  | inl e ↦ rw (e, with_name) (e, d)
  | inr (w, e) ↦ rw (e, with_name) d
]

-- The length of a name is compared first, and changes nothing.
pub is_wiz-str_eq : (name : Chars) (w : Wiz) → is_wiz name w ≡ str_eq w.name name
is_wiz-str_eq name w = elim (Bool-cases (str_eq w.name name)) [
  | inl e ↦ ground (arith, ap length (str_eq→eq w.name name e))
  | inr e ↦ ground arith
]

pub find-update :
    (name q : Chars) (f : Wiz → Wiz) (l : List Wiz)
    → ((w : Wiz) → (f w).name ≡ w.name)
    → find_wiz q (update_wiz name f l)
      ≡ (if str_eq name q then map f (find_wiz q l) else find_wiz q l)
unfolding find_wiz update_wiz
find-update name q f [] keeps = ground arith
find-update name q f (w ∷ l) keeps = ground (
  arith,
  find-update name q f l keeps,
  is_wiz-str_eq name w,
  is_wiz-str_eq q w,
  is_wiz-str_eq q (f w),
  keeps w,
  str_eq→eq w.name name,
  str_eq→eq name q,
)

-- A score is added to the entry of the name and to no other.
pub add_score_lem :
    (name : Chars) (n : ℤ) (l : List Wiz) (w : Wiz)
    → find_wiz name l ≡ some w
    → Returns (add_score name n l) λ l'.
      (q : Chars) → find_wiz q l' ≡ (if str_eq name q then some (raise_score n w) else find_wiz q l)
unfolding add_score
add_score_lem name n l w e = (
  update_wiz name (raise_score n) l,
  rw (e, add_score),
  λ q. ground (arith, find-update name q (raise_score n) l (λ x. refl), str_eq→eq name q, e),
)

-- A name that is not in the list aborts the driver.
pub add_score_unknown :
    (name : Chars) (n : ℤ) (l : List Wiz) → find_wiz name l ≡ none → add_score name n l ≡ fatal
unfolding add_score
add_score_unknown name n l e = rw (e, add_score)

abbrev pub magnitude : ℤ → ℕ
magnitude a = pos_part a + neg_part a

scaled_99 : (n : ℤ) → (magnitude (scaled n 99 100) ≤ magnitude n - 1)
unfolding ◌*ℤ◌ ◌/ℤ◌
scaled_99 (pos n) = ground arith
scaled_99 (negsuc n) = ground arith

scaled_9 : (n : ℤ) → (magnitude (scaled n 9 10) ≤ magnitude n - 1)
unfolding ◌*ℤ◌ ◌/ℤ◌
scaled_9 (pos n) = ground arith
scaled_9 (negsuc n) = ground arith

-- A round of `wiz_decay` keeps the names and brings every score, cost and worth nearer to zero.
abbrev pub Decays : List Wiz → List Wiz → Type 0
Decays [] [] = Unit
Decays [] (w' ∷ l') = ⊥
Decays (w ∷ l) [] = ⊥
Decays (w ∷ l) (w' ∷ l') =
    (w'.name ≡ w.name)
    × (magnitude w'.score ≤ magnitude w.score - 1)
    × (magnitude w'.total_worth ≤ magnitude w.total_worth - 1)
    × (magnitude w'.cost ≤ magnitude w.cost - 1)
    × (magnitude w'.heart_beats ≤ magnitude w.heart_beats - 1)
    × Decays l l'

pub wiz_decay-Decays : (l : List Wiz) → Decays l (wiz_decay l)
unfolding wiz_decay decay
wiz_decay-Decays [] = tt
wiz_decay-Decays (w ∷ l) = (
  refl,
  scaled_99 w.score,
  scaled_99 w.total_worth,
  scaled_9 w.cost,
  scaled_9 w.heart_beats,
  wiz_decay-Decays l,
)

-- Rounds of `wiz_decay` with no new score in between.
unfoldable pub rounds : ℕ → List Wiz → List Wiz
rounds zero l = l
rounds (suc n) l = rounds n (wiz_decay l)

-- After `n` rounds the scores are at least `n` nearer to zero.
abbrev pub Faded : ℕ → List Wiz → List Wiz → Type 0
Faded n [] [] = Unit
Faded n [] (w' ∷ l') = ⊥
Faded n (w ∷ l) [] = ⊥
Faded n (w ∷ l) (w' ∷ l') =
    (w'.name ≡ w.name) × (magnitude w'.score ≤ magnitude w.score - n) × Faded n l l'

Faded-trans : (n : ℕ) (l m k : List Wiz) → Decays l m → Faded n m k → Faded (suc n) l k
Faded-trans n [] [] [] d f = tt
Faded-trans n (w ∷ l) (w' ∷ m) (w'' ∷ k) d f = (f.0 ∙ d.0, omega arith, Faded-trans n l m k d.5 f.2)
Faded-trans n [] [] (w'' ∷ k) d f = absurd f
Faded-trans n [] (w' ∷ m) k d f = absurd d
Faded-trans n (w ∷ l) [] k d f = absurd d
Faded-trans n (w ∷ l) (w' ∷ m) [] d f = absurd f

Faded-refl : (l : List Wiz) → Faded 0 l l
Faded-refl [] = tt
Faded-refl (w ∷ l) = (refl, omega arith, Faded-refl l)

-- Rounds of wiz_decay keep the names and bring each score nearer to zero by at least one a round,
-- so that after as many rounds as a score is large it is zero.
pub rounds_fade : (n : ℕ) (l : List Wiz) → Faded n l (rounds n l)
unfolding rounds
rounds_fade zero l = Faded-refl l
rounds_fade (suc n) l =
    Faded-trans n l (wiz_decay l) (rounds n (wiz_decay l)) (wiz_decay-Decays l)
      (rounds_fade n (wiz_decay l))
