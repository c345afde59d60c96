-- ===== src/Comm/Slice.antt =====
-- The bytes of the buffer between two indices as a list, and what the walks over them find.
use lpmud_ng.Base.{
  ℕ, zero, suc, ◌+◌, ◌-◌, ◌≤◌, ◌<◌, ◌≡◌, refl, ap, ◌∙◌, sym, ◌==◌, if◌then◌else◌, List, [], ◌∷◌,
  ◌++◌, length, take, drop, arith,
}
use lpmud_ng.Comm.Buffer.{put, write, skip_nulls, skip_text, move_down}

-- `n` bytes from `p` on
abbrev pub slice : ℕ → ℕ → (ℕ → ℕ) → List ℕ
slice zero p t = []
slice (suc n) p t = t p ∷ slice n (suc p) t

-- The number of leading null bytes, and of leading others
abbrev pub nulls : List ℕ → ℕ
nulls [] = 0
nulls (c ∷ l) = if c == 0 then suc (nulls l) else 0

abbrev pub text_size : List ℕ → ℕ
text_size [] = 0
text_size (c ∷ l) = if c == 0 then 0 else suc (text_size l)

pub length-slice : (n p : ℕ) (t : ℕ → ℕ) → length (slice n p t) ≡ n
length-slice zero p t = refl
length-slice (suc n) p t = ap suc (length-slice n (suc p) t)

pub nulls_le : (l : List ℕ) → nulls l ≤ length l
nulls_le [] = omega arith
nulls_le (c ∷ l) = ground (arith, nulls_le l)

pub text_size_le : (l : List ℕ) → text_size l ≤ length l
text_size_le [] = omega arith
text_size_le (c ∷ l) = ground (arith, text_size_le l)

pub skip_nulls-slice : (n p : ℕ) (t : ℕ → ℕ) → skip_nulls n p t ≡ p + nulls (slice n p t)
unfolding skip_nulls
skip_nulls-slice zero p t = omega arith
skip_nulls-slice (suc n) p t = ground (arith, skip_nulls-slice n (suc p) t)

pub skip_text-slice : (n p : ℕ) (t : ℕ → ℕ) → skip_text n p t ≡ p + text_size (slice n p t)
unfolding skip_text
skip_text-slice zero p t = omega arith
skip_text-slice (suc n) p t = ground (arith, skip_text-slice n (suc p) t)

pub slice_at : (n m p q : ℕ) (t : ℕ → ℕ) → n ≡ m → p ≡ q → slice n p t ≡ slice m q t
slice_at n m p q t e f = ap (λ k. slice k p t) e ∙ ap (λ r. slice m r t) f

pub slice-drop : (k n p : ℕ) (t : ℕ → ℕ) → slice (n - k) (p + k) t ≡ drop k (slice n p t)
slice-drop zero n p t = slice_at (n - 0) n (p + 0) p t (omega arith) (omega arith)
slice-drop (suc k) zero p t = slice_at (zero - suc k) 0 (p + suc k) (p + suc k) t (omega arith) refl
slice-drop (suc k) (suc n) p t =
    slice_at (suc n - suc k) (n - k) (p + suc k) (suc p + k) t (omega arith) (omega arith)
    ∙ slice-drop k n (suc p) t

pub slice-append : (n m p : ℕ) (t : ℕ → ℕ) → slice (n + m) p t ≡ slice n p t ++ slice m (p + n) t
slice-append zero m p t = slice_at (0 + m) m p (p + 0) t (omega arith) (omega arith)
slice-append (suc n) m p t =
    slice_at (suc n + m) (suc (n + m)) p p t (omega arith) refl
    ∙ ap (λ l. t p ∷ l)
        (slice-append n m (suc p) t
          ∙ ap (λ l. slice n (suc p) t ++ l)
              (slice_at m m (suc p + n) (p + suc n) t refl (omega arith)))

-- Two arrays that agree on an interval have the same slice.
pub slice_ext :
    (n p q : ℕ) (t u : ℕ → ℕ)
    → ((j k : ℕ) → p ≤ j → j < p + n → j + q ≡ k + p → t j ≡ u k)
    → slice n p t ≡ slice n q u
slice_ext zero p q t u h = refl
slice_ext (suc n) p q t u h =
    ap (λ c. c ∷ slice n (suc p) t) (h p q (omega arith) (omega arith) (omega arith))
    ∙ ap (λ l. u q ∷ l)
        (slice_ext n (suc p) (suc q) t u
          (λ j k a b c. h j k (omega (arith, a)) (omega (arith, b)) (omega (arith, c))))

move_down_below : (n p q : ℕ) (t : ℕ → ℕ) (i : ℕ) → i < q → move_down n p q t i ≡ t i
unfolding move_down
move_down_below zero p q t i h = refl
move_down_below (suc n) p q t i h =
    ground (arith, move_down_below n (suc p) (suc q) (put q (t p) t) i)

move_down_at :
    (n p q : ℕ) (t : ℕ → ℕ) (j k : ℕ)
    → q ≤ p
    → q ≤ j
    → j < q + n
    → j + p ≡ k + q
    → move_down n p q t j ≡ t k
unfolding move_down
move_down_at zero p q t j k h a b c = ground (arith, a, b)
move_down_at (suc n) p q t j k h a b c = ground (
  arith,
  move_down_below n (suc p) (suc q) (put q (t p) t) j,
  move_down_at n (suc p) (suc q) (put q (t p) t) j k,
)

-- A partial command arrives as it was, though it may overlap its new place.
pub move_down-slice : (n p : ℕ) (t : ℕ → ℕ) → slice n 0 (move_down n p 0 t) ≡ slice n p t
move_down-slice n p t =
    slice_ext n 0 p (move_down n p 0 t) t
      (λ j k a b c. move_down_at n p 0 t j k (omega arith) a b (omega (arith, c)))

take-slice : (n p : ℕ) (t : ℕ → ℕ) → take n (slice (suc (suc n)) p t) ≡ slice n p t
take-slice zero p t = refl
take-slice (suc n) p t = ap (λ l. t p ∷ l) (take-slice n (suc p) t)

-- The last two bytes of `n` overwritten by one null byte
pub cut-slice :
    (n : ℕ) (t : ℕ → ℕ)
    → slice (suc n) 0 (put (suc n) 0 (put n 0 t)) ≡ take n (slice (suc (suc n)) 0 t) ++ (0 ∷ [])
cut-slice n t =
    let u = put (suc n) 0 (put n 0 t) in
    slice_at (suc n) (n + 1) 0 0 u (omega arith) refl
    ∙ slice-append n 1 0 u
    ∙ ap (λ l. l ++ (u (0 + n) ∷ []))
        (slice_ext n 0 0 u t (λ j k a b c. ground (arith, a, b, c)) ∙ sym (take-slice n 0 t))
    ∙ ap (λ c. take n (slice (suc (suc n)) 0 t) ++ (c ∷ [])) (ground arith)

-- Writing `l` from `p` on
write_below : (l : List ℕ) (p : ℕ) (t : ℕ → ℕ) (i : ℕ) → i < p → write l p t i ≡ t i
unfolding write
write_below [] p t i h = refl
write_below (c ∷ l) p t i h = ground (arith, write_below l (suc p) (put p c t) i)

write-slice : (l : List ℕ) (p : ℕ) (t : ℕ → ℕ) → slice (length l) p (write l p t) ≡ l
unfolding write
write-slice [] p t = refl
write-slice (c ∷ l) p t =
    ap (λ d. d ∷ slice (length l) (suc p) (write l (suc p) (put p c t)))
      (write_below l (suc p) (put p c t) p (omega arith) ∙ ground arith)
    ∙ ap (λ r. c ∷ r) (write-slice l (suc p) (put p c t))

-- What is written behind a slice is added to it, and the null byte behind both is not part of it.
pub slice-write :
    (l : List ℕ) (n p : ℕ) (t : ℕ → ℕ)
    → slice (n + length l) p (put (p + n + length l) 0 (write l (p + n) t)) ≡ slice n p t ++ l
slice-write l n p t =
    slice_ext (n + length l) p p (put (p + n + length l) 0 (write l (p + n) t)) (write l (p + n) t)
      (λ j k a b c. ground (arith, a, b, c))
    ∙ slice-append n (length l) p (write l (p + n) t)
    ∙ ap (λ r. r ++ slice (length l) (p + n) (write l (p + n) t))
        (slice_ext n p p (write l (p + n) t) t
          (λ j k a b c. write_below l (p + n) t j b ∙ ap t (omega (arith, c))))
    ∙ ap (λ r. slice n p t ++ r) (write-slice l (p + n) t)
