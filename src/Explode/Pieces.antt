-- ===== src/Explode/Pieces.antt =====
-- Strings as pieces between delimiters of one byte.
use lpmud_ng.Base.{
  ℕ, zero, suc, ◌≡◌, refl, ap, Bool, true, false, ◌==◌, ◌⊎◌, List, [], ◌∷◌, ◌++◌, arith, inl, inr,
  Bool-cases, length, length-append, ◌≤◌, All,
}
use lpmud_ng.Base.Text.{Chars}
use lpmud_ng.Explode.{is_empty}

-- The byte `d` does not stand in the string.
abbrev pub IsFree : ℕ → Chars → Type 0
IsFree d [] = Unit
IsFree d (c ∷ s) = ((c == d) ≡ false) × IsFree d s

-- The pieces `p` and `ps`, with `d` between them
abbrev pub join : ℕ → Chars → List Chars → Chars
join d p [] = p
join d p (q ∷ ps) = p ++ (d ∷ join d q ps)

abbrev pub final : Chars → List Chars → Chars
final p [] = p
final p (q ∷ ps) = final q ps

-- What may follow the last piece
abbrev pub tail : ℕ → Bool → Chars
tail d true = d ∷ []
tail d false = []

abbrev pub repeat : ℕ → ℕ → Chars
repeat zero d = []
repeat (suc k) d = d ∷ repeat k d

-- The pieces are free of `d`, and the last one is not empty unless `d` follows it.
abbrev pub ArePieces : ℕ → Chars → List Chars → Bool → Type 0
ArePieces d p ps t = IsFree d p × All (IsFree d) ps × ((is_empty (final p ps) ≡ false) ⊎ (t ≡ true))

-- A last byte that is not `d`
pub free_last :
    (d : ℕ) (p : Chars)
    → IsFree d p
    → is_empty p ≡ false
    → (s : Chars) × (c : ℕ) × (p ≡ s ++ (c ∷ [])) × ((c == d) ≡ false)
free_last d [] hf he = cc
free_last d (c ∷ []) hf he = ([], c, refl, hf.0)
free_last d (c ∷ b ∷ p) hf he =
    let (s, e, h, hd) = free_last d (b ∷ p) hf.1 refl in (c ∷ s, e, ap (λ q. c ∷ q) h, hd)

pub join_last :
    (d : ℕ) (p : Chars) (ps : List Chars)
    → IsFree d p
    → All (IsFree d) ps
    → is_empty (final p ps) ≡ false
    → (s : Chars) × (c : ℕ) × (join d p ps ≡ s ++ (c ∷ [])) × ((c == d) ≡ false)
join_last d p [] hp hq he = free_last d p hp he
join_last d [] (q ∷ ps) hp hq he =
    let (s, c, h, hd) = join_last d q ps hq.0 hq.1 he in (d ∷ s, c, ap (λ r. d ∷ r) h, hd)
join_last d (b ∷ p) (q ∷ ps) hp hq he =
    let (s, c, h, hd) = join_last d p (q ∷ ps) hp.1 hq he in (b ∷ s, c, ap (λ r. b ∷ r) h, hd)

pub join_first :
    (d : ℕ) (p : Chars) (ps : List Chars)
    → IsFree d p
    → is_empty p ≡ false
    → (c : ℕ) × (s : Chars) × (join d p ps ≡ c ∷ s) × ((c == d) ≡ false)
join_first d [] ps hp he = cc
join_first d (c ∷ p) [] hp he = (c, p, refl, hp.0)
join_first d (c ∷ p) (q ∷ ps) hp he = (c, p ++ (d ∷ join d q ps), refl, hp.0)

pub length-join : (d : ℕ) (p : Chars) (ps : List Chars) → length ps ≤ length (join d p ps)
length-join d p [] = omega arith
length-join d p (q ∷ ps) = omega (arith, length-append p (d ∷ join d q ps), length-join d q ps)

-- Every string that is not empty is made of pieces.
pub has_pieces :
    (d : ℕ) (s : Chars)
    → is_empty s ≡ false
    → (p : Chars) × (ps : List Chars) × (t : Bool) × (s ≡ join d p ps ++ tail d t)
      × ArePieces d p ps t
has_pieces d [] h = cc
has_pieces d (c ∷ []) h = elim (Bool-cases (c == d)) [
  | inl e ↦ ([], [], true, ground (arith, e), (tt, tt, inr refl))
  | inr e ↦ (c ∷ [], [], false, refl, ((e, tt), tt, inl refl))
]
has_pieces d (c ∷ b ∷ s) h =
    let (p, ps, t, e, hp) = has_pieces d (b ∷ s) refl in
    elim (Bool-cases (c == d)) [
      | inl ec ↦ ([], p ∷ ps, t, ground (arith, ec, e), (tt, (hp.0, hp.1), hp.2))
      | inr ec ↦ (c ∷ p, ps, t, longer d c p ps t _ e, ((ec, hp.0), hp.1, last_stays c p ps t hp.2))
    ]
  where
    longer :
        (d c : ℕ) (p : Chars) (ps : List Chars) (t : Bool) (s : Chars)
        → s ≡ join d p ps ++ tail d t
        → c ∷ s ≡ join d (c ∷ p) ps ++ tail d t
    longer d c p [] t s e = ap (λ q. c ∷ q) e
    longer d c p (q ∷ ps) t s e = ap (λ q. c ∷ q) e

    last_stays :
        (c : ℕ) (p : Chars) (ps : List Chars) (t : Bool)
        → (is_empty (final p ps) ≡ false) ⊎ (t ≡ true)
        → (is_empty (final (c ∷ p) ps) ≡ false) ⊎ (t ≡ true)
    last_stays c p [] t e = inl refl
    last_stays c p (q ∷ ps) t e = e
