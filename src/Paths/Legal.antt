-- ===== src/Paths/Legal.antt =====
-- Which paths are legal.
use lpmud_ng.Base.{
  ℕ, zero, suc, ◌<◌, ◌≤◌, ◌≡◌, ◌≢◌, ◌↔◌, refl, sym, ap, ◌∙◌, subst, Bool, true, false, ◌==◌,
  if◌then◌else◌, not, ◌||◌, ◌&&◌, Option, none, some, [], ◌∷◌, ◌++◌, arith, inl, inr, Bool-cases,
  ==_refl, length,
}
use lpmud_ng.Base.Run.{ok}
use lpmud_ng.Base.Text.{Chars}
use lpmud_ng.Value.{string}
use lpmud_ng.Paths.{
  space, dot, slash, strchr, is_found, begins_with, dots_apart, legal_path, Access, Answer, access,
  if_legal, checked, check_file_name,
}

-- Two dots in a row, by recursion on the string
abbrev pub has_dots : Chars → Bool
has_dots [] = false
has_dots (b ∷ s) = (if b == dot then begins_with dot s else false) || has_dots s

abbrev pub rest_has_dots : Option Chars → Bool
rest_has_dots none = false
rest_has_dots (some s) = has_dots s

has_dots-strchr : (s : Chars) → rest_has_dots (strchr s dot) ≡ has_dots s
unfolding strchr
has_dots-strchr [] = refl
has_dots-strchr (b ∷ s) = ground (arith, has_dots-strchr s)

abbrev pub rest_length : Option Chars → ℕ
rest_length none = 0
rest_length (some s) = length s

length-strchr : (s : Chars) (c : ℕ) → rest_length (strchr s c) ≤ length s
unfolding strchr
length-strchr [] c = omega arith
length-strchr (b ∷ s) c = ground (arith, length-strchr s c)

-- A rest from `strchr` begins with the byte.
abbrev pub is_at_dot : Option Chars → Bool
is_at_dot none = true
is_at_dot (some s) = begins_with dot s

is_at_dot-strchr : (s : Chars) → is_at_dot (strchr s dot) ≡ true
unfolding strchr
is_at_dot-strchr [] = refl
is_at_dot-strchr (b ∷ s) = ground (arith, is_at_dot-strchr s)

dots_apart_lem :
    (fuel : ℕ) (p : Option Chars)
    → is_at_dot p ≡ true
    → rest_length p < fuel
    → dots_apart fuel p ≡ some (not (rest_has_dots p))
unfolding dots_apart
dots_apart_lem zero p hp hf = ground (arith, hf)
dots_apart_lem (suc fuel) none hp hf = refl
dots_apart_lem (suc fuel) (some []) hp hf = refl
dots_apart_lem (suc fuel) (some (b ∷ s)) hp hf = ground (
  arith,
  hp,
  has_dots-strchr s,
  dots_apart_lem fuel (strchr s dot) (is_at_dot-strchr s) (omega (arith, hf, length-strchr s dot)),
)

found-append :
    (s : Chars) (c : ℕ)
    → is_found (strchr s c) ≡ true
    → (pre : Chars) × (suf : Chars) × (s ≡ pre ++ (c ∷ suf))
unfolding strchr
found-append [] c h = cc
found-append (b ∷ s) c h = elim (Bool-cases (b == c)) [
  | inl e ↦ ([], s, ground (arith, e))
  | inr e ↦
      let (pre, suf, h') = found-append s c (ground (arith, h, e)) in
      (b ∷ pre, suf, ap (λ r. b ∷ r) h')
]

append-found : (pre suf : Chars) (c : ℕ) → is_found (strchr (pre ++ (c ∷ suf)) c) ≡ true
unfolding strchr
append-found [] suf c = ground (arith, ==_refl c)
append-found (b ∷ pre) suf c = ground (arith, append-found pre suf c)

has_dots-append :
    (s : Chars) → has_dots s ≡ true → (pre : Chars) × (suf : Chars) × (s ≡ pre ++ (dot ∷ dot ∷ suf))
has_dots-append [] h = cc
has_dots-append (b ∷ []) h = ground (arith, h)
has_dots-append (b ∷ c ∷ s) h = elim (Bool-cases (has_dots (c ∷ s))) [
  | inl e ↦ let (pre, suf, h') = has_dots-append (c ∷ s) e in (b ∷ pre, suf, ap (λ r. b ∷ r) h')
  | inr e ↦ ([], s, ground (arith, h, e))
]

append-has_dots : (pre suf : Chars) → has_dots (pre ++ (dot ∷ dot ∷ suf)) ≡ true
append-has_dots [] suf = refl
append-has_dots (b ∷ pre) suf = ground (arith, append-has_dots pre suf)

-- No space, no slash at the head, and no two dots in a row.
pub record IsLegal (s : Chars) : Type 0 where
  pub no_space : (pre suf : Chars) → s ≢ pre ++ (space ∷ suf)
  pub is_relative : (suf : Chars) → s ≢ slash ∷ suf
  pub no_parent : (pre suf : Chars) → s ≢ pre ++ (dot ∷ dot ∷ suf)

legal_test :
    (fuel : ℕ) (s : Chars)
    → length s < fuel
    → legal_path fuel (some s)
      ≡ some (not (is_found (strchr s space)) && not (begins_with slash s) && not (has_dots s))
unfolding legal_path
legal_test fuel s hf = ground (
  arith,
  has_dots-strchr s,
  dots_apart_lem fuel (strchr s dot) (is_at_dot-strchr s) (omega (arith, hf, length-strchr s dot)),
)

IsLegal-found : (s : Chars) → IsLegal s → is_found (strchr s space) ≡ false
IsLegal-found s l = elim (Bool-cases (is_found (strchr s space))) [
  | inl e ↦ let (pre, suf, h) = found-append s space e in elim (l.no_space pre suf h) [ ]
  | inr e ↦ e
]

IsLegal-begins_with : (s : Chars) → IsLegal s → begins_with slash s ≡ false
IsLegal-begins_with [] l = refl
IsLegal-begins_with (b ∷ s) l = elim (Bool-cases (b == slash)) [
  | inl e ↦ elim (l.is_relative s (ground (arith, e))) [ ]
  | inr e ↦ e
]

IsLegal-has_dots : (s : Chars) → IsLegal s → has_dots s ≡ false
IsLegal-has_dots s l = elim (Bool-cases (has_dots s)) [
  | inl e ↦ let (pre, suf, h) = has_dots-append s e in elim (l.no_parent pre suf h) [ ]
  | inr e ↦ e
]

test-IsLegal :
    (s : Chars)
    → ((not (is_found (strchr s space)) && not (begins_with slash s) && not (has_dots s)) ≡ true)
      ↔ IsLegal s
test-IsLegal s = (
  λ h. record {
    no_space = λ pre suf e. ground (
      arith,
      h,
      subst (λ r. is_found (strchr r space) ≡ true) (sym e) (append-found pre suf space),
    );
    is_relative =
        λ suf e. ground (arith, h, subst (λ r. begins_with slash r ≡ true) (sym e) (==_refl slash));
    no_parent = λ pre suf e.
        ground (arith, h, subst (λ r. has_dots r ≡ true) (sym e) (append-has_dots pre suf));
  },
  λ l. ground (arith, IsLegal-found s l, IsLegal-begins_with s l, IsLegal-has_dots s l),
)

-- With more fuel than the path has bytes the check of legal_path ends, and it is passed exactly by
-- the paths without a space, without a slash at the head and without two dots in a row.
pub legal_path_lem :
    (fuel : ℕ) (s : Chars)
    → length s < fuel
    → (b : Bool) × (legal_path fuel (some s) ≡ some b) × ((b ≡ true) ↔ IsLegal s)
legal_path_lem fuel s hf = (_, legal_test fuel s hf, test-IsLegal s)

-- If the player's object answers the access asked for with a string, then check_file_name, with
-- more fuel than the string has bytes, ends; it returns the string if that is a legal path and the
-- object is not destructed, and 0 otherwise.
pub check_file_name_lem :
    (apply : Access → ℕ → Chars → Answer) (fuel giver : ℕ) (file s : Chars) (writeflg : Bool)
    → (apply (access writeflg) giver file).ret ≡ some (string s)
    → length s < fuel
    → (b : Bool) × ((b ≡ true) ↔ IsLegal s)
      × (check_file_name apply fuel (some giver) file writeflg
          ≡ some (
              ok (
                if (apply (access writeflg) giver file).destructed
                then none
                else if b
                then some s
                else none)))
unfolding check_file_name checked
check_file_name_lem apply fuel giver file s writeflg hv hf =
    let a = apply (access writeflg) giver file in
    let (b, e, h) = legal_path_lem fuel s hf in
    (
      b,
      h,
      ap (λ v. if a.destructed then some (ok none) else checked fuel v) hv
          ∙ ap (λ l. if a.destructed then some (ok none) else if_legal s l) e
          ∙ split a.destructed (if b then some s else none),
    )
  where
    split :
        (c : Bool) (r : Option Chars)
        → (if c then some (ok none) else some (ok r)) ≡ some (ok (if c then none else r))
    split true r = refl
    split false r = refl
