-- ===== src/CallOut/Due.antt =====
-- Delta lists as lists of due times: the place of a new call, and what a removal leaves.
use lpmud_ng.Base.{
  ℕ, ◌≡◌, refl, List, [], ◌∷◌, Option, none, some, if◌then◌else◌, arith, inl, inr, Bool-cases,
  length,
}
use lpmud_ng.Base.Int.{ℤ, pos, ◌+ℤ◌, ◌-ℤ◌, leb_ℤ, +ℤ_parts, int_laws}
use lpmud_ng.Base.Text.{Chars}
use lpmud_ng.CallOut.{Target, Call, insert_call, carry, is_call, keep_call, unlink_call}

-- The calls with the times at which they are due, counted from `t`.
unfoldable pub due : ℤ → List Call → List (Target × ℤ)
due t [] = []
due t (c ∷ l) = (c.target, t +ℤ c.delta) ∷ due (t +ℤ c.delta) l

-- Insertion into a list of due times, before the first that is not earlier.
unfoldable pub insert_due : Target → ℤ → List (Target × ℤ) → List (Target × ℤ)
insert_due x n [] = (x, n) ∷ []
insert_due x n ((y, m) ∷ l) = if leb_ℤ n m then (x, n) ∷ (y, m) ∷ l else (y, m) ∷ insert_due x n l

abbrev pub keep_due :
    Target × ℤ → Option (ℤ × Target × List (Target × ℤ)) → Option (ℤ × Target × List (Target × ℤ))
keep_due e none = none
keep_due e (some (n, x, l)) = some (n, x, e ∷ l)

-- Removal of the first match from a list of due times.
unfoldable pub remove_due : ℕ → Chars → List (Target × ℤ) → Option (ℤ × Target × List (Target × ℤ))
remove_due ob fun [] = none
remove_due ob fun ((y, m) ∷ l) =
    if is_call ob fun y then some (m, y, l) else keep_due (y, m) (remove_due ob fun l)

pub +ℤ-zero-left : (a : ℤ) → pos 0 +ℤ a ≡ a
+ℤ-zero-left a = omega int_laws

sub_add : (t d c : ℤ) → t +ℤ d +ℤ (c -ℤ d) ≡ t +ℤ c
sub_add t d c = omega int_laws

add_sub : (t c d : ℤ) → t +ℤ c +ℤ (d -ℤ c) ≡ t +ℤ d
add_sub t c d = omega int_laws

leb-shift : (t d c : ℤ) → leb_ℤ (t +ℤ d) (t +ℤ c) ≡ leb_ℤ d c
leb-shift t d c = ground (arith, +ℤ_parts t d, +ℤ_parts t c)

-- The delta list with a new call has the due times with the new one put in its place.
pub due-insert_call :
    (t delay : ℤ) (x : Target) (l : List Call)
    → due t (insert_call x delay l) ≡ insert_due x (t +ℤ delay) (due t l)
unfolding due insert_due insert_call
due-insert_call t delay x [] = refl
due-insert_call t delay x (c ∷ l) = elim (Bool-cases (leb_ℤ delay c.delta)) [
  | inl e ↦ rw (leb-shift t delay c.delta, e, sub_add t delay c.delta)
  | inr e ↦ rw (
    leb-shift t delay c.delta,
    e,
    due-insert_call (t +ℤ c.delta) (delay -ℤ c.delta) x l,
    add_sub t c.delta delay,
  )
]

pub length-carry : (d : ℤ) (l : List Call) → length (carry d l) ≡ length l
unfolding carry
length-carry d [] = refl
length-carry d (c ∷ l) = refl

pub due-carry : (t d : ℤ) (l : List Call) → due t (carry d l) ≡ due (t +ℤ d) l
unfolding due carry
due-carry t d [] = refl
due-carry t d (c ∷ l) = rw (regroup t d c.delta)
  where
    regroup : (a b e : ℤ) → a +ℤ (e +ℤ b) ≡ a +ℤ b +ℤ e
    regroup a b e = omega int_laws

-- What `unlink_call` returns, as due times.
abbrev pub as_due : Option (ℤ × Target × List Call) → ℤ → Option (ℤ × Target × List (Target × ℤ))
as_due none t = none
as_due (some (n, x, l)) t = some (n, x, due t l)

keep-as_due :
    (c : Call) (t : ℤ) (o : Option (ℤ × Target × List Call))
    → as_due (keep_call c o) t ≡ keep_due (c.target, t +ℤ c.delta) (as_due o (t +ℤ c.delta))
unfolding due
keep-as_due c t none = refl
keep-as_due c t (some (n, x, l)) = refl

-- The first match is unlinked with its due time, and the due times of the others stay.
pub due-unlink_call :
    (ob : ℕ) (fun : Chars) (t : ℤ) (l : List Call)
    → as_due (unlink_call ob fun t l) t ≡ remove_due ob fun (due t l)
unfolding due remove_due unlink_call
due-unlink_call ob fun t [] = refl
due-unlink_call ob fun t (c ∷ l) = elim (Bool-cases (is_call ob fun c.target)) [
  | inl e ↦ rw (e, due-carry t c.delta l)
  | inr e ↦ rw (
    e,
    keep-as_due c t (unlink_call ob fun (t +ℤ c.delta) l),
    due-unlink_call ob fun (t +ℤ c.delta) l,
  )
]
