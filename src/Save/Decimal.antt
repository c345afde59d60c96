-- ===== src/Save/Decimal.antt =====
-- Numbers as `%d` prints them and `atoi` of lpmud/object.c's restore_object reads them.
use lpmud_ng.Base.{
  ℕ, zero, suc, ◌+◌, ◌-◌, ◌*◌, ◌/◌, ◌%◌, ◌≤◌, ◌<◌, ◌≡◌, ◌≢◌, refl, sym, ap, ◌∙◌, subst, false, ltb,
  if◌then◌else◌, Bool-cases, inl, inr, [], ◌∷◌, ◌++◌, All, All-append, arith,
}
use lpmud_ng.Base.Int.{ℤ, pos, negsuc, ◌-ℤ◌, sub_ℕ}
use lpmud_ng.Base.Text.{Chars, starts_with}
use lpmud_ng.Save.{digits, print_number, scan, atoi, is_digit}

abbrev IsDigit : ℕ → Type 0
IsDigit c = (48 ≤ c) × (c ≤ 57)

abbrev value : ℕ → Chars → ℕ
value a [] = a
value a (c ∷ s) = value (a * 10 + (c - 48)) s

value-append : (a d : ℕ) (s : Chars) → value a (s ++ (d ∷ [])) ≡ value a s * 10 + (d - 48)
value-append a d [] = refl
value-append a d (c ∷ s) = value-append (a * 10 + (c - 48)) d s

digits-IsDigit : (fuel n : ℕ) → All IsDigit (digits fuel n)
unfolding digits
digits-IsDigit zero n = ground arith
digits-IsDigit (suc fuel) n = elim (Bool-cases (ltb n 10)) [
  | inl small ↦
      subst (All IsDigit) (sym (ap (λ b. if b then (48 + n) ∷ [] else rest) small))
        (ground (arith, small))
  | inr large ↦ subst (All IsDigit) (sym (ap (λ b. if b then (48 + n) ∷ [] else rest) large)) (
      All-append IsDigit (digits fuel (n / 10)) ((48 + n % 10) ∷ []) (digits-IsDigit fuel (n / 10))
        (ground arith))
]
  where
    rest : Chars
    rest = digits fuel (n / 10) ++ ((48 + n % 10) ∷ [])

value-digits : (fuel n : ℕ) → n < fuel → value 0 (digits fuel n) ≡ n
unfolding digits
value-digits zero n h = ground (arith, h)
value-digits (suc fuel) n h =
    ground
      (arith, value-digits fuel (n / 10), value-append 0 (48 + n % 10) (digits fuel (n / 10)), h)

scan-value :
    (a : ℕ) (s : Chars) (e : ℕ) (t : Chars)
    → is_digit e ≡ false
    → All IsDigit s
    → scan a (s ++ (e ∷ t)) ≡ value a s
unfolding scan
scan-value a [] e t stop h = ap (λ b. if b then scan (a * 10 + (e - 48)) t else a) stop
scan-value a (c ∷ s) e t stop h = ground (arith, h.0, scan-value (a * 10 + (c - 48)) s e t stop h.1)

abbrev StartsNumber : Chars → Type 0
StartsNumber [] = ⊥
StartsNumber (c ∷ s) = IsDigit c

append-StartsNumber : (s t : Chars) → StartsNumber s → StartsNumber (s ++ t)
append-StartsNumber [] t h = elim h [ ]
append-StartsNumber (c ∷ s) t h = h

digits-StartsNumber : (fuel n : ℕ) → n < fuel → StartsNumber (digits fuel n)
unfolding digits
digits-StartsNumber zero n h = ground (arith, h)
digits-StartsNumber (suc fuel) n h = ground (
  arith,
  h,
  digits-StartsNumber fuel (n / 10),
  append-StartsNumber (digits fuel (n / 10)) ((48 + n % 10) ∷ []),
)

atoi_digits : (s t : Chars) → StartsNumber s → atoi (s ++ t) ≡ pos (scan 0 (s ++ t))
unfolding atoi
atoi_digits [] t h = elim h [ ]
atoi_digits (c ∷ s) t h = ground (arith, h)

scan-digits : (n e : ℕ) (t : Chars) → is_digit e ≡ false → scan 0 (digits (suc n) n ++ (e ∷ t)) ≡ n
scan-digits n e t stop =
    scan-value 0 (digits (suc n) n) e t stop (digits-IsDigit (suc n) n)
    ∙ value-digits (suc n) n (omega arith)

-- What is printed before a byte that is not a digit is read back.
pub atoi-print_number :
    (n : ℤ) (e : ℕ) (t : Chars) → is_digit e ≡ false → atoi (print_number n ++ (e ∷ t)) ≡ n
unfolding print_number atoi ◌-ℤ◌
atoi-print_number (pos n) e t stop =
    atoi_digits (digits (suc n) n) (e ∷ t) (digits-StartsNumber (suc n) n (omega arith))
    ∙ ap pos (scan-digits n e t stop)
atoi-print_number (negsuc n) e t stop =
    ap (λ k. sub_ℕ 0 (0 + k)) (scan-digits (suc n) e t stop) ∙ ground arith

digits_plain : (s : Chars) → All IsDigit s → All (λ c. c ≢ 10) s
digits_plain [] h = h
digits_plain (c ∷ s) h = ((λ e. omega (arith, e, h.0.0)), digits_plain s h.1)

-- No byte of a printed number ends the line.
pub print_number_plain : (n : ℤ) → All (λ c. c ≢ 10) (print_number n)
unfolding print_number
print_number_plain (pos n) = digits_plain (digits (suc n) n) (digits-IsDigit (suc n) n)
print_number_plain (negsuc n) = (
  (λ e. omega (arith, e)),
  digits_plain (digits (suc (suc n)) (suc n)) (digits-IsDigit (suc (suc n)) (suc n)),
)

unquoted : (s t : Chars) → StartsNumber s → starts_with (s ++ t) (34 ∷ []) ≡ false
unfolding starts_with
unquoted [] t h = elim h [ ]
unquoted (c ∷ s) t h = ground (arith, h)

-- A printed number does not look like a string.
pub print_number_unquoted :
    (n : ℤ) (t : Chars) → starts_with (print_number n ++ t) (34 ∷ []) ≡ false
unfolding print_number starts_with
print_number_unquoted (pos n) t =
    unquoted (digits (suc n) n) t (digits-StartsNumber (suc n) n (omega arith))
print_number_unquoted (negsuc n) t = ground arith
