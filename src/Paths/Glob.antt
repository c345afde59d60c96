-- ===== src/Paths/Glob.antt =====
-- match_string against what a pattern means.
use lpmud_ng.Base.{
  ℕ, ◌≡◌, ◌≢◌, refl, sym, ap, ◌∙◌, Bool, true, false, ◌==◌, if◌then◌else◌, Option, none, some, List,
  [], ◌∷◌, ◌++◌, arith, inl, inr, Bool-cases, ==_refl,
}
use lpmud_ng.Base.Text.{Chars}
use mathlib.Core.List.{append-nil}
use mathlib.Core.Path.{fun_ext}
use lpmud_ng.Paths.{
  is_empty, any_rest, skip_one, same_byte, question, star, backslash, match_string,
}

pub data Token : Type 0 where
  one many : Token
  byte : ℕ → Token

abbrev pub token : ℕ → Token
token m = if m == question then one else if m == star then many else byte m

abbrev pub and_token : Token → Option (List Token) → Option (List Token)
and_token t none = none
and_token t (some ts) = some (t ∷ ts)

-- The pattern without its escapes; one that ends within an escape has no meaning.
abbrev pub tokens : Chars → Option (List Token)
tokens [] = some []
tokens (m ∷ []) = if m == backslash then none else some (token m ∷ [])
tokens (m ∷ c ∷ ms) =
    let rest = tokens (c ∷ ms) in
    let escaped = tokens ms in
    if m == backslash then and_token (byte c) escaped else and_token (token m) rest

-- The strings that a pattern stands for: `one` is any byte, `many` any string.
abbrev pub Fits : List Token → Chars → Type 0
Fits [] s = s ≡ []
Fits (one ∷ ts) s = (c : ℕ) × (r : Chars) × (s ≡ c ∷ r) × Fits ts r
Fits (many ∷ ts) s = (q : Chars) × (r : Chars) × (s ≡ q ++ r) × Fits ts r
Fits (byte c ∷ ts) s = (r : Chars) × (s ≡ c ∷ r) × Fits ts r

-- No star directly before a star
abbrev pub IsSingle : List Token → Type 0
IsSingle [] = Unit
IsSingle (many ∷ many ∷ ts) = ⊥
IsSingle (many ∷ ts) = IsSingle ts
IsSingle (one ∷ ts) = IsSingle ts
IsSingle (byte c ∷ ts) = IsSingle ts

abbrev matches : List Token → Chars → Bool
matches [] s = is_empty s
matches (one ∷ ts) s = skip_one (matches ts) s
matches (many ∷ []) s = true
matches (many ∷ t ∷ ts) s = any_rest (matches (t ∷ ts)) s
matches (byte c ∷ ts) s = same_byte c (matches ts) s

-- The step of match_string, with the matches of what follows as `f` and, behind an escape, `g`.
abbrev match_by : ℕ → ℕ → (Chars → Bool) → (Chars → Bool) → Chars → Bool
match_by m c f g s =
    if m == question
    then skip_one f s
    else if m == star
    then any_rest f s
    else if m == backslash
    then same_byte c g s
    else same_byte m f s

abbrev matches_all : Option (List Token) → Chars → Bool
matches_all none s = false
matches_all (some ts) s = matches ts s

same_byte-and_token :
    (c : ℕ) (o : Option (List Token)) (s : Chars)
    → same_byte c (matches_all o) s ≡ matches_all (and_token (byte c) o) s
same_byte-and_token c none [] = refl
same_byte-and_token c none (b ∷ s) = ground arith
same_byte-and_token c (some ts) s = refl

skip_one-and_token :
    (o : Option (List Token)) (s : Chars)
    → skip_one (matches_all o) s ≡ matches_all (and_token one o) s
skip_one-and_token none [] = refl
skip_one-and_token none (b ∷ s) = refl
skip_one-and_token (some ts) s = refl

any_rest-false : (s : Chars) → any_rest (λ _. false) s ≡ false
any_rest-false [] = refl
any_rest-false (b ∷ s) = any_rest-false s

any_rest-and_token :
    (o : Option (List Token)) (s : Chars)
    → o ≢ some []
    → any_rest (matches_all o) s ≡ matches_all (and_token many o) s
any_rest-and_token none s h = any_rest-false s
any_rest-and_token (some []) s h = elim (h refl) [ ]
any_rest-and_token (some (t ∷ ts)) s h = refl

and_token-some : (t : Token) (o : Option (List Token)) → and_token t o ≢ some []
and_token-some t none e = cc
and_token-some t (some ts) e = cc

tokens-some : (c : ℕ) (ms : Chars) → tokens (c ∷ ms) ≢ some []
tokens-some c [] e = ground (arith, e)
tokens-some c (b ∷ ms) e = elim (Bool-cases (c == backslash)) [
  | inl h ↦ ground (arith, h, e, and_token-some (byte b) (tokens ms))
  | inr h ↦ ground (arith, h, e, and_token-some (token c) (tokens (b ∷ ms)))
]

match_by-and_token :
    (m c : ℕ) (o p : Option (List Token)) (s : Chars)
    → o ≢ some []
    → match_by m c (matches_all o) (matches_all p) s
      ≡ matches_all (if m == backslash then and_token (byte c) p else and_token (token m) o) s
match_by-and_token m c o p s h = elim (Bool-cases (m == question)) [
  | inl e ↦ ground (arith, e, skip_one-and_token o s)
  | inr e ↦ elim (Bool-cases (m == star)) [
    | inl e' ↦ ground (arith, e, e', any_rest-and_token o s h)
    | inr e' ↦ elim (Bool-cases (m == backslash)) [
      | inl e'' ↦ ground (arith, e, e', e'', same_byte-and_token c p s)
      | inr e'' ↦ ground (arith, e, e', e'', same_byte-and_token m o s)
    ]
  ]
]

match_string-tokens : (m s : Chars) → match_string m s ≡ matches_all (tokens m) s
unfolding match_string
match_string-tokens [] s = refl
match_string-tokens (m ∷ []) s = ground arith
match_string-tokens (m ∷ c ∷ ms) s =
    ap (λ f. match_by m c f (match_string ms) s) (fun_ext (match_string-tokens (c ∷ ms)))
    ∙ ap (λ f. match_by m c (matches_all (tokens (c ∷ ms))) f s) (fun_ext (match_string-tokens ms))
    ∙ match_by-and_token m c (tokens (c ∷ ms)) (tokens ms) s (tokens-some c ms)

any_rest-append :
    (f : Chars → Bool) (s : Chars)
    → any_rest f s ≡ true
    → (q : Chars) × (r : Chars) × (s ≡ q ++ r) × (f r ≡ true)
any_rest-append f [] h = cc
any_rest-append f (c ∷ s) h = elim (Bool-cases (f (c ∷ s))) [
  | inl e ↦ ([], c ∷ s, refl, e)
  | inr e ↦
      let (q, r, h', hr) = any_rest-append f s (ground (arith, h, e)) in
      (c ∷ q, r, ap (λ l. c ∷ l) h', hr)
]

append-any_rest :
    (f : Chars → Bool) (q : Chars) (c : ℕ) (r : Chars)
    → f (c ∷ r) ≡ true
    → any_rest f (q ++ (c ∷ r)) ≡ true
append-any_rest f [] c r h = ground (arith, h)
append-any_rest f (b ∷ q) c r h = ground (arith, append-any_rest f q c r h)

matches-Fits : (ts : List Token) (s : Chars) → matches ts s ≡ true → Fits ts s
matches-Fits [] [] h = refl
matches-Fits [] (c ∷ s) h = cc
matches-Fits (one ∷ ts) [] h = cc
matches-Fits (one ∷ ts) (c ∷ s) h = (c, s, refl, matches-Fits ts s h)
matches-Fits (many ∷ []) s h = (s, [], sym (append-nil s), refl)
matches-Fits (many ∷ t ∷ ts) s h =
    let (q, r, e, hr) = any_rest-append (matches (t ∷ ts)) s h in
    (q, r, e, matches-Fits (t ∷ ts) r hr)
matches-Fits (byte b ∷ ts) [] h = cc
matches-Fits (byte b ∷ ts) (c ∷ s) h = (s, ground (arith, h), matches-Fits ts s (ground (arith, h)))

Fits-matches : (ts : List Token) (s : Chars) → IsSingle ts → Fits ts s → matches ts s ≡ true
Fits-matches [] s hs h = ap is_empty h
Fits-matches (one ∷ ts) s hs (c, r, e, h) = ap (skip_one (matches ts)) e ∙ Fits-matches ts r hs h
Fits-matches (many ∷ []) s hs h = refl
Fits-matches (many ∷ many ∷ ts) s hs h = elim hs [ ]
Fits-matches (many ∷ one ∷ ts) s hs (q, r, e, (c, r', e', h)) =
    ap (any_rest (matches (one ∷ ts))) (e ∙ ap (λ l. q ++ l) e')
    ∙ append-any_rest (matches (one ∷ ts)) q c r' (Fits-matches ts r' hs h)
Fits-matches (many ∷ byte b ∷ ts) s hs (q, r, e, (r', e', h)) =
    ap (any_rest (matches (byte b ∷ ts))) (e ∙ ap (λ l. q ++ l) e')
    ∙ append-any_rest (matches (byte b ∷ ts)) q b r'
        (ground (arith, ==_refl b, Fits-matches ts r' hs h))
Fits-matches (byte b ∷ ts) s hs (r, e, h) =
    ap (same_byte b (matches ts)) e ∙ ground (arith, ==_refl b, Fits-matches ts r hs h)

-- A string that match_string accepts is one that the pattern stands for.
pub match_string-Fits :
    (m s : Chars) → match_string m s ≡ true → (ts : List Token) × (tokens m ≡ some ts) × Fits ts s
match_string-Fits m s h = reads (tokens m) refl
  where
    reads :
        (o : Option (List Token))
        → tokens m ≡ o
        → (ts : List Token) × (tokens m ≡ some ts) × Fits ts s
    reads none e = ground (arith, sym (match_string-tokens m s ∙ ap (λ o. matches_all o s) e) ∙ h)
    reads (some ts) e =
        (ts, e, matches-Fits ts s (sym (match_string-tokens m s ∙ ap (λ o. matches_all o s) e) ∙ h))

-- If a pattern has no star directly behind a star, match_string accepts every string that it
-- stands for.
pub Fits-match_string :
    (m s : Chars) (ts : List Token)
    → tokens m ≡ some ts
    → IsSingle ts
    → Fits ts s
    → match_string m s ≡ true
Fits-match_string m s ts e hs h =
    match_string-tokens m s ∙ ap (λ o. matches_all o s) e ∙ Fits-matches ts s hs h
