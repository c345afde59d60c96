-- ===== src/Save/Lines.antt =====
-- One line of a saved object: what save_object writes for a variable, and how restore_object reads it.
use lpmud_ng.Base.{
  ℕ, suc, ◌+◌, ◌-◌, ◌<◌, ◌≡◌, ◌≢◌, refl, ap, ◌∙◌, false, ltb, leb, ◌==◌, if◌then◌else◌, ◌||◌, some,
  List, [], ◌∷◌, ◌++◌, length, take, drop, All, length-append, take-append, arith,
}
use lpmud_ng.Base.Int.{ℤ}
use lpmud_ng.Base.Run.{Run, ok, error, undefined, ◌>>=◌}
use lpmud_ng.Base.Text.{Chars, starts_with}
use lpmud_ng.Paths.{strchr}
use lpmud_ng.Value.{Value, number, string, pointer, object}
use lpmud_ng.Save.{
  Variable, replace_newline, restore_newline, print_number, atoi, find_status, State, assign, strip,
  restore_string, restore_value, restore_at, restore_line, first_line, other_lines, restore_lines,
}
use lpmud_ng.Save.Decimal.{atoi-print_number, print_number_unquoted}

abbrev pub NoEnd : Chars → Type 0
NoEnd = All (λ c. c ≢ 10)

-- A string as it comes back: each carriage return is a newline.
abbrev pub with_newlines : Chars → Chars
with_newlines [] = []
with_newlines (c ∷ s) = (if c == 13 then 10 else c) ∷ with_newlines s

restore-replace : (s : Chars) → restore_newline (replace_newline s) ≡ with_newlines s
unfolding restore_newline replace_newline
restore-replace [] = refl
restore-replace (c ∷ s) =
    ap (λ r. (if (if c == 10 then 13 else c) == 13 then 10 else if c == 10 then 13 else c) ∷ r)
      (restore-replace s)
    ∙ ap (λ d. d ∷ with_newlines s) (ground arith)

length-replace : (s : Chars) → length (replace_newline s) ≡ length s
unfolding replace_newline
length-replace [] = refl
length-replace (c ∷ s) = ap suc (length-replace s)

pub replace_newline_plain : (s : Chars) → NoEnd (replace_newline s)
unfolding replace_newline
replace_newline_plain [] = ground arith
replace_newline_plain (c ∷ s) = (ground arith, replace_newline_plain s)

strip-quoted : (s : Chars) → strip (34 ∷ s ++ (34 ∷ 10 ∷ [])) ≡ ok s
unfolding strip
strip-quoted s =
    longer (length v) (ok (drop 1 v)) (ok (drop 1 (take (length v - 2) v))) size
    ∙ ap (λ n. ok (drop 1 (take n v))) inner
    ∙ ap ok (take-append s (34 ∷ 10 ∷ []))
  where
    v : Chars
    v = 34 ∷ (s ++ (34 ∷ 10 ∷ []))

    size : length v ≡ length s + 3
    size = omega (arith, length-append s (34 ∷ 10 ∷ []))

    inner : length v - 2 ≡ suc (length s)
    inner = omega (arith, size)

    longer :
        (n : ℕ) (two more : Run Chars)
        → n ≡ length s + 3
        → (if ltb n 2 then undefined else if n == 2 then two else more) ≡ more
    longer n two more e = ground (arith, e)

first_line_lem : (l rest : Chars) → NoEnd l → first_line (l ++ (10 ∷ rest)) ≡ l ++ (10 ∷ [])
first_line_lem [] rest h = refl
first_line_lem (c ∷ l) rest h = ground (arith, h.0, first_line_lem l rest h.1)

other_lines_lem : (l rest : Chars) → NoEnd l → other_lines (l ++ (10 ∷ rest)) ≡ rest
other_lines_lem [] rest h = refl
other_lines_lem (c ∷ l) rest h = ground (arith, h.0, other_lines_lem l rest h.1)

-- One turn of the loop
pub restore_lines-line :
    (fuel : ℕ) (status : List Variable) (l rest : Chars) (s : State)
    → NoEnd l
    → restore_lines (suc fuel) status (l ++ (10 ∷ rest)) s
      ≡ (restore_line status (l ++ (10 ∷ [])) s >>= restore_lines fuel status rest)
unfolding restore_lines
restore_lines-line fuel status [] rest s h = refl
restore_lines-line fuel status (c ∷ l) rest s h =
    ap
      (λ b.
        restore_line status b s >>= restore_lines fuel status (other_lines (c ∷ l ++ (10 ∷ rest))))
      (first_line_lem (c ∷ l) rest h)
    ∙ ap (λ t. restore_line status (c ∷ l ++ (10 ∷ [])) s >>= restore_lines fuel status t)
        (other_lines_lem (c ∷ l) rest h)

-- A name that a line can begin with
pub record IsName (name : Chars) : Type 0 where
  pub plain : All (λ c. (c ≢ 32) × (c ≢ 10)) name
  pub some_byte : 0 < length name
  pub short : length name < 100

-- The first space of a line that begins with a name
pub strchr-name :
    (name val : Chars)
    → All (λ c. (c ≢ 32) × (c ≢ 10)) name
    → strchr (name ++ (32 ∷ val)) 32 ≡ some (32 ∷ val)
unfolding strchr
strchr-name [] val h = refl
strchr-name (c ∷ name) val h = ground (arith, h.0, strchr-name name val h.1)

-- A line with a name finds its variable.
pub restore_line-name :
    (status : List Variable) (name val : Chars) (s : State)
    → IsName name
    → restore_line status (name ++ (32 ∷ val)) s ≡ restore_value (find_status status name) val s
unfolding restore_line restore_at
restore_line-name status name val s h =
    ap (λ f. restore_at status l f s) (strchr-name name val h.plain)
    ∙ ap (λ n. if n == 0 || leb 100 n then error else found n) size
    ∙ within (length name) (found (length name)) h.some_byte h.short
    ∙ ap (λ n. restore_value (find_status status n) val s) (take-append name (32 ∷ val))
  where
    l : Chars
    l = name ++ (32 ∷ val)

    found : ℕ → Run State
    found n = restore_value (find_status status (take n l)) val s

    size : length l - length (32 ∷ val) ≡ length name
    size = omega (arith, length-append name (32 ∷ val))

    within :
        (n : ℕ) (r : Run State) → 0 < n → n < 100 → (if n == 0 || leb 100 n then error else r) ≡ r
    within n r a b = ground (arith, a, b)

-- What a variable has after its value is saved and restored, if it is saved at all
abbrev pub keep : ℕ → Value → State → State
keep i (number n) s = assign i (number n) s
keep i (string t) s = assign i (string (with_newlines t)) s
keep i (pointer v) s = s
keep i (object o) s = s

pub restore_value-number :
    (p : Variable) (n : ℤ) (s : State)
    → p.is_static ≡ false
    → restore_value (some p) (print_number n ++ (10 ∷ [])) s ≡ ok (assign p.num_var (number n) s)
unfolding restore_value
restore_value-number p n s e =
    ap
      (λ b.
        if b
        then ok s
        else if starts_with v (34 ∷ [])
        then restore_string p.num_var v s
        else ok (assign p.num_var (number (atoi v)) s))
      e
    ∙ ap
        (λ b. if b then restore_string p.num_var v s else ok (assign p.num_var (number (atoi v)) s))
        (print_number_unquoted n (10 ∷ []))
    ∙ ap (λ k. ok (assign p.num_var (number k) s)) (atoi-print_number n 10 [] refl)
  where
    v : Chars
    v = print_number n ++ (10 ∷ [])

pub restore_value-string :
    (p : Variable) (t : Chars) (s : State)
    → p.is_static ≡ false
    → restore_value (some p) (34 ∷ replace_newline t ++ (34 ∷ 10 ∷ [])) s
      ≡ ok (assign p.num_var (string (with_newlines t)) s)
unfolding restore_value restore_string starts_with
restore_value-string p t s e =
    ap (λ b. if b then ok s else restore_string p.num_var v s) e
    ∙ ap (λ r. r >>= λ str. ok (assign p.num_var (string (restore_newline str)) s))
        (strip-quoted (replace_newline t))
    ∙ ap (λ str. ok (assign p.num_var (string str) s)) (restore-replace t)
  where
    v : Chars
    v = 34 ∷ (replace_newline t ++ (34 ∷ 10 ∷ []))
