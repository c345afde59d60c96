-- ===== src/Comm/Pending.antt =====
-- The input buffer as the list of the bytes that wait in it.
use lpmud_ng.Base.{
  ℕ, suc, ◌+◌, ◌-◌, ◌≤◌, ◌<◌, ◌≡◌, refl, sym, ap, ◌∙◌, subst, Bool, true, false, ◌==◌, ltb, leb,
  if◌then◌else◌, Bool-cases, inl, inr, Option, none, some, List, [], ◌∷◌, ◌++◌, length, take, drop,
  arith,
}
use lpmud_ng.Comm.Buffer.{Input, max_text, put, skip_text, move_down, partial, find_cmd}
use lpmud_ng.Comm.Slice.{
  slice, slice_at, nulls, text_size, length-slice, text_size_le, skip_text-slice, move_down-slice,
  cut-slice,
}

abbrev pub pending : Input → List ℕ
pending b = slice (b.text_end - b.text_start) b.text_start b.text

pub record IsInput (b : Input) : Type 0 where
  pub ordered : b.text_start ≤ b.text_end
  pub room : b.text_end < max_text

-- A list without its leading null bytes, and without its leading command
abbrev pub drop_nulls : List ℕ → List ℕ
drop_nulls [] = []
drop_nulls (c ∷ l) = if c == 0 then drop_nulls l else c ∷ l

abbrev pub drop_text : List ℕ → List ℕ
drop_text [] = []
drop_text (c ∷ l) = if c == 0 then c ∷ l else drop_text l

abbrev pub is_empty : List ℕ → Bool
is_empty [] = true
is_empty (c ∷ l) = false

-- The last two of the bytes give way to a null byte.
abbrev pub cut : List ℕ → List ℕ
cut l = take (length l - 2) l ++ (0 ∷ [])

-- Whether there is a command at the start of `l`, which no null byte begins, and what waits then
abbrev pub command_at : List ℕ → Bool × List ℕ
command_at l =
    if is_empty l
    then (false, [])
    else if is_empty (drop_text l)
    then if ltb (max_text - 2) (length l) then (true, cut l) else (false, l)
    else (true, l)

-- A result of `first_cmd_in_buf` against that description
pub record Finds (r : Option ℕ × Input) (d : Bool × List ℕ) : Type 0 where
  pub waits : pending r.1 ≡ d.1
  pub at : r.0 ≡ (if d.0 then some r.1.text_start else none)
  pub sound : IsInput r.1

pub drop-nulls : (l : List ℕ) → drop (nulls l) l ≡ drop_nulls l
drop-nulls [] = refl
drop-nulls (c ∷ l) = ground (arith, drop-nulls l)

pub drop-text_size : (l : List ℕ) → drop (text_size l) l ≡ drop_text l
drop-text_size [] = refl
drop-text_size (c ∷ l) = ground (arith, drop-text_size l)

is_empty_iff : (l : List ℕ) → is_empty l ≡ leb (length l) 0
is_empty_iff [] = ground arith
is_empty_iff (c ∷ l) = ground arith

is_empty-drop_text : (l : List ℕ) → is_empty (drop_text l) ≡ leb (length l) (text_size l)
is_empty-drop_text [] = ground arith
is_empty-drop_text (c ∷ l) = ground (arith, is_empty-drop_text l, text_size_le l)

length-pending : (b : Input) → length (pending b) ≡ b.text_end - b.text_start
length-pending b = length-slice (b.text_end - b.text_start) b.text_start b.text

Finds-eq :
    (r r1 : Option ℕ × Input) (d d1 : Bool × List ℕ) → r ≡ r1 → d ≡ d1 → Finds r1 d1 → Finds r d
Finds-eq r r1 d d1 e f h = subst (λ x. Finds x d) (sym e) (subst (λ y. Finds r1 y) (sym f) h)

cleared :
    (b : Input)
    → Finds (none, record b { text = put 0 0 b.text; text_start = 0; text_end = 0 }) (false, [])
cleared b = record {
  waits = refl;
  at = refl;
  sound = record { ordered = omega arith; room = omega arith };
}

cut_pending :
    (n : ℕ) (t : ℕ → ℕ)
    → 2 ≤ n
    → slice (n - 1 - 0) 0 (put (n - 1) 0 (put (n - 2) 0 t)) ≡ cut (slice n 0 t)
cut_pending n t h =
    slice_at (n - 1 - 0) (n - 1) 0 0 (put (n - 1) 0 (put (n - 2) 0 t)) (omega arith) refl
    ∙ ap (λ i. slice i 0 (put i 0 (put (n - 2) 0 t))) (pred n h)
    ∙ cut-slice (n - 2) t
    ∙ ap (λ i. take (n - 2) (slice i 0 t) ++ (0 ∷ [])) (twice n h)
    ∙ ap (λ i. take (i - 2) (slice n 0 t) ++ (0 ∷ [])) (sym (length-slice n 0 t))
  where
    pred : (n : ℕ) → 2 ≤ n → n - 1 ≡ suc (n - 2)
    pred n h = omega (arith, h)

    twice : (n : ℕ) → 2 ≤ n → suc (suc (n - 2)) ≡ n
    twice n h = omega (arith, h)

-- A partial command, at the start of the buffer or cut
partial_lem :
    (b : Input)
    → IsInput b
    → Finds (partial b) (
        if ltb (max_text - 2) (length (pending b))
        then (true, cut (pending b))
        else (false, pending b))
unfolding partial
partial_lem b h = elim (Bool-cases (ltb (max_text - 2) n)) [
  | inl full ↦
      Finds-eq (partial b) r1 _ (true, cut (pending b)) (ap (λ c. if c then r1 else r0) full)
        (ap (λ k. if ltb (max_text - 2) k then (true, cut (pending b)) else (false, pending b))
            (length-pending b)
          ∙ ap (λ c. if c then (true, cut (pending b)) else (false, pending b)) full)
        (record {
          waits = cut_pending n t (ground (arith, full)) ∙ ap cut moved;
          at = refl;
          sound = record { ordered = omega arith; room = ground (arith, h.room) };
        })
  | inr more ↦
      Finds-eq (partial b) r0 _ (false, pending b) (ap (λ c. if c then r1 else r0) more)
        (ap (λ k. if ltb (max_text - 2) k then (true, cut (pending b)) else (false, pending b))
            (length-pending b)
          ∙ ap (λ c. if c then (true, cut (pending b)) else (false, pending b)) more)
        (record {
          waits = slice_at (n - 0) n 0 0 t (omega arith) refl ∙ moved;
          at = refl;
          sound = record { ordered = omega arith; room = ground (arith, h.room) };
        })
]
  where
    n : ℕ
    n = b.text_end - b.text_start

    t : ℕ → ℕ
    t = move_down n b.text_start 0 b.text

    r1 : Option ℕ × Input
    r1 = (
      some 0,
      record b { text = put (n - 1) 0 (put (n - 2) 0 t); text_start = 0; text_end = n - 1 },
    )

    r0 : Option ℕ × Input
    r0 = (none, record b { text = t; text_start = 0; text_end = n })

    moved : slice n 0 t ≡ pending b
    moved = move_down-slice n b.text_start b.text

Finds-if :
    (c d : Bool) (r1 r2 : Option ℕ × Input) (d1 d2 : Bool × List ℕ)
    → c ≡ d
    → (c ≡ true → Finds r1 d1)
    → (c ≡ false → Finds r2 d2)
    → Finds (if c then r1 else r2) (if d then d1 else d2)
Finds-if c d r1 r2 d1 d2 e f g =
    subst (λ x. Finds (if c then r1 else r2) (if x then d1 else d2)) e (same c f g)
  where
    same :
        (c : Bool)
        → (c ≡ true → Finds r1 d1)
        → (c ≡ false → Finds r2 d2)
        → Finds (if c then r1 else r2) (if c then d1 else d2)
    same true f g = f refl
    same false f g = g refl

nothing_waits : (b : Input) → IsInput b → leb b.text_end b.text_start ≡ is_empty (pending b)
nothing_waits b h =
    sym (
      is_empty_iff (pending b)
      ∙ ap (λ n. leb n 0) (length-pending b)
      ∙ test b.text_end b.text_start)
  where
    test : (e s : ℕ) → leb (e - s) 0 ≡ leb e s
    test e s = ground arith

-- The first null byte is found where there is one.
null_found :
    (b : Input)
    → IsInput b
    → leb b.text_end (skip_text (b.text_end - b.text_start) b.text_start b.text)
      ≡ is_empty (drop_text (pending b))
null_found b h =
    ap (leb b.text_end) (skip_text-slice (b.text_end - b.text_start) b.text_start b.text)
    ∙ test b.text_end b.text_start (text_size (pending b)) h.ordered
    ∙ sym (
        is_empty-drop_text (pending b) ∙ ap (λ n. leb n (text_size (pending b))) (length-pending b))
  where
    test : (e s k : ℕ) → s ≤ e → leb e (s + k) ≡ leb (e - s) k
    test e s k h = ground (arith, h)

pub find_cmd_lem : (b : Input) → IsInput b → Finds (find_cmd b) (command_at (pending b))
unfolding find_cmd
find_cmd_lem b h =
    Finds-if (leb b.text_end b.text_start) (is_empty (pending b)) _ _ _ _ (nothing_waits b h)
      (λ e. cleared b)
      (λ e.
        Finds-eq _ (if leb b.text_end p then partial b else (some b.text_start, b)) _ _
          (flip b.text_end p) refl
          (Finds-if (leb b.text_end p) (is_empty (drop_text (pending b))) _ _ _ _ (null_found b h)
            (λ f. partial_lem b h) (λ f. record { waits = refl; at = refl; sound = h })))
  where
    p : ℕ
    p = skip_text (b.text_end - b.text_start) b.text_start b.text

    flip :
        (e p : ℕ)
        → (if ltb p e then (some b.text_start, b) else partial b)
          ≡ (if leb e p then partial b else (some b.text_start, b))
    flip e p = ground arith
