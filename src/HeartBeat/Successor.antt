-- ===== src/HeartBeat/Successor.antt =====
-- A linked list through `next_heart_beat` by the list of its objects: who follows whom when one is
-- taken out or put at the end.
use lpmud_ng.Base.{
  ℕ, suc, ◌≡◌, refl, true, false, ◌==◌, if◌then◌else◌, Option, none, some, List, [], ◌∷◌, ◌++◌,
  arith, inl, inr, Bool-cases, ==_refl, length,
}
use lpmud_ng.HeartBeat.{points_to}
pub use lpmud_ng.Base.{mem, IsDistinct}

abbrev pub first : List ℕ → Option ℕ
first [] = none
first (x ∷ l) = some x

abbrev pub last_from : ℕ → List ℕ → ℕ
last_from x [] = x
last_from x (y ∷ l) = last_from y l

abbrev pub last : List ℕ → Option ℕ
last [] = none
last (x ∷ l) = some (last_from x l)

-- The object behind `o`.
abbrev pub after : ℕ → List ℕ → Option ℕ
after o [] = none
after o (x ∷ l) = if x == o then first l else after o l

-- The object before `ob`, where `p` is before the list.
abbrev pub before : ℕ → Option ℕ → List ℕ → Option ℕ
before ob p [] = p
before ob p (x ∷ l) = if x == ob then p else before ob (some x) l

abbrev pub remove : ℕ → List ℕ → List ℕ
remove ob [] = []
remove ob (x ∷ l) = if x == ob then l else x ∷ remove ob l

pub after-none : (o : ℕ) (l : List ℕ) → mem o l ≡ false → after o l ≡ none
after-none o [] h = refl
after-none o (x ∷ l) h = ground (arith, after-none o l)

pub mem-last_from : (x : ℕ) (l : List ℕ) → mem (last_from x l) (x ∷ l) ≡ true
mem-last_from x [] = ground (arith, ==_refl x)
mem-last_from x (y ∷ l) = ground (arith, mem-last_from y l)

pub mem-before :
    (ob q o : ℕ) (l : List ℕ) → points_to (before ob (some q) l) o ≡ true → mem o (q ∷ l) ≡ true
mem-before ob q o [] h = ground (arith)
mem-before ob q o (x ∷ l) h = ground (arith, mem-before ob x o l)

pub mem-remove :
    (ob o : ℕ) (l : List ℕ)
    → IsDistinct l
    → mem o (remove ob l) ≡ (if o == ob then false else mem o l)
mem-remove ob o [] hd = ground arith
mem-remove ob o (x ∷ l) hd = ground (arith, mem-remove ob o l hd.1, hd.0)

pub remove-IsDistinct : (ob : ℕ) (l : List ℕ) → IsDistinct l → IsDistinct (remove ob l)
remove-IsDistinct ob [] hd = tt
remove-IsDistinct ob (x ∷ l) hd =
    ground (arith, remove-IsDistinct ob l hd.1, mem-remove ob x l hd.1, hd)

pub length-remove : (ob : ℕ) (l : List ℕ) → mem ob l ≡ true → suc (length (remove ob l)) ≡ length l
length-remove ob [] h = cc
length-remove ob (x ∷ l) h = ground (arith, length-remove ob l)

-- The link over the object that is taken out.
pub after-remove :
    (ob q o : ℕ) (l : List ℕ)
    → mem q l ≡ false
    → IsDistinct l
    → q == ob ≡ false
    → mem ob l ≡ true
    → after o (q ∷ remove ob l) ≡ (
        if o == ob
        then none
        else if points_to (before ob (some q) l) o
        then after ob l
        else after o (q ∷ l))
after-remove ob q o [] hq hd hn hm = cc
after-remove ob q o (x ∷ l) hq hd hn hm = elim (Bool-cases (x == ob)) [
  | inl e ↦ ground (arith, e, after-none o l, hq, hd, hn, hm)
  | inr e ↦
      ground (arith, e, after-remove ob x o l hd.0 hd.1 e, mem-before ob x o l, hq, hd, hn, hm)
]

pub last-remove :
    (ob q : ℕ) (l : List ℕ)
    → mem q l ≡ false
    → IsDistinct l
    → q == ob ≡ false
    → mem ob l ≡ true
    → last (q ∷ remove ob l)
      ≡ (if points_to (last l) ob then before ob (some q) l else last (q ∷ l))
last-remove ob q [] hq hd hn hm = cc
last-remove ob q (x ∷ []) hq hd hn hm = ground (arith, hq, hd, hn, hm)
last-remove ob q (x ∷ y ∷ l) hq hd hn hm = elim (Bool-cases (x == ob)) [
  | inl e ↦ ground (arith, e, mem-last_from y l, hq, hd, hn, hm)
  | inr e ↦ ground (arith, e, last-remove ob x (y ∷ l) hd.0 hd.1 e, hq, hd, hn, hm)
]

pub after-remove_all :
    (ob o : ℕ) (l : List ℕ)
    → IsDistinct l
    → mem ob l ≡ true
    → after o (remove ob l)
      ≡ (if o == ob then none else if points_to (before ob none l) o then after ob l else after o l)
after-remove_all ob o [] hd hm = cc
after-remove_all ob o (x ∷ l) hd hm = elim (Bool-cases (x == ob)) [
  | inl e ↦ ground (arith, e, after-none o l, hd, hm)
  | inr e ↦ ground (arith, e, after-remove ob x o l hd.0 hd.1 e, hd, hm)
]

pub last-remove_all :
    (ob : ℕ) (l : List ℕ)
    → IsDistinct l
    → mem ob l ≡ true
    → last (remove ob l) ≡ (if points_to (last l) ob then before ob none l else last l)
last-remove_all ob [] hd hm = cc
last-remove_all ob (x ∷ []) hd hm = ground (arith, hd, hm)
last-remove_all ob (x ∷ y ∷ l) hd hm = elim (Bool-cases (x == ob)) [
  | inl e ↦ ground (arith, e, mem-last_from y l, hd, hm)
  | inr e ↦ ground (arith, e, last-remove ob x (y ∷ l) hd.0 hd.1 e, hd, hm)
]

pub first-remove :
    (ob : ℕ) (l : List ℕ)
    → first (remove ob l) ≡ (if points_to (first l) ob then after ob l else first l)
first-remove ob [] = refl
first-remove ob (x ∷ l) = ground arith

-- The links when the first object is put at the end.
pub after-cycle :
    (x o y : ℕ) (l : List ℕ)
    → mem x (y ∷ l) ≡ false
    → IsDistinct (y ∷ l)
    → after o ((y ∷ l) ++ (x ∷ []))
      ≡ (if o == x then none else if o == last_from y l then some x else after o (y ∷ l))
after-cycle x o y [] hx hd = ground (arith, hx, hd)
after-cycle x o y (z ∷ l) hx hd = ground (arith, after-cycle x o z l, hx, hd, mem-last_from z l)

pub last-append : (x : ℕ) (l : List ℕ) → last (l ++ (x ∷ [])) ≡ some x
last-append x [] = refl
last-append x (y ∷ []) = refl
last-append x (y ∷ z ∷ l) = last-append x (z ∷ l)

pub mem-append : (o : ℕ) (l k : List ℕ) → mem o (l ++ k) ≡ (if mem o l then true else mem o k)
mem-append o [] k = refl
mem-append o (x ∷ l) k = ground (arith, mem-append o l k)

pub append-IsDistinct :
    (x : ℕ) (l : List ℕ) → mem x l ≡ false → IsDistinct l → IsDistinct (l ++ (x ∷ []))
append-IsDistinct x [] hx hd = (refl, tt)
append-IsDistinct x (y ∷ l) hx hd =
    ground (arith, append-IsDistinct x l, mem-append y l (x ∷ []), hx, hd)
