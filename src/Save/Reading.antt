-- ===== src/Save/Reading.antt =====
-- restore_lines of lpmud/object.c reads what save_variables has written.
use lpmud_ng.Base.{
  ℕ, zero, suc, ◌+◌, ◌≤◌, ◌≡◌, ◌≢◌, refl, sym, ap, ◌∙◌, subst, false, if◌then◌else◌, Bool-cases,
  inl, inr, some, List, [], ◌∷◌, ◌++◌, length, All, All-append, length-append, arith,
}
use mathlib.Core.List.{append_assoc}
use lpmud_ng.Base.Run.{ok, ◌>>=◌}
use lpmud_ng.Base.Text.{Chars}
use lpmud_ng.Value.{Value, number, string, pointer, object}
use lpmud_ng.Save.{
  Variable, State, replace_newline, print_number, save_value, save_variables, find_status, assign,
  restore_lines, restore_line, restore_value,
}
use lpmud_ng.Save.Decimal.{print_number_plain}
use lpmud_ng.Save.Lines.{
  NoEnd, IsName, keep, restore_lines-line, restore_line-name, restore_value-number,
  restore_value-string, replace_newline_plain,
}

-- What the variables have after the values in `saved` have been restored
abbrev pub merge : List Variable → (ℕ → Value) → State → State
merge [] saved s = s
merge (p ∷ l) saved s =
    merge l saved (if p.is_static then s else keep p.num_var (saved p.num_var) s)

-- Each variable has a name that a line can begin with, and is what its name finds.
abbrev pub IsNamed : List Variable → Variable → Type 0
IsNamed status p = IsName p.name × (find_status status p.name ≡ some p)

name_plain : (name : Chars) → All (λ c. (c ≢ 32) × (c ≢ 10)) name → NoEnd name
name_plain [] h = h
name_plain (c ∷ name) h = (h.0.1, name_plain name h.1)

-- One line of the file
saved_line :
    (fuel : ℕ) (status : List Variable) (p : Variable) (body rest : Chars) (s : State)
    → IsNamed status p
    → NoEnd body
    → restore_lines (suc fuel) status (p.name ++ (32 ∷ (body ++ (10 ∷ rest)))) s
      ≡ (restore_value (some p) (body ++ (10 ∷ [])) s >>= restore_lines fuel status rest)
saved_line fuel status p body rest s h n =
    ap (λ t. restore_lines (suc fuel) status t s)
      (sym (append_assoc p.name (32 ∷ body) (10 ∷ rest)))
    ∙ restore_lines-line fuel status (p.name ++ (32 ∷ body)) rest s (
        All-append (λ c. c ≢ 10) p.name (32 ∷ body) (name_plain p.name h.0.plain)
          ((λ e. omega (arith, e)), n))
    ∙ ap (λ t. restore_line status t s >>= restore_lines fuel status rest)
        (append_assoc p.name (32 ∷ body) (10 ∷ []))
    ∙ ap (λ r. r >>= restore_lines fuel status rest)
        (restore_line-name status p.name (body ++ (10 ∷ [])) s h.0
          ∙ ap (λ f. restore_value f (body ++ (10 ∷ [])) s) h.1)

length-line :
    (name body rest : Chars)
    → length (name ++ (32 ∷ (body ++ (10 ∷ rest)))) ≡ length name + length body + length rest + 2
length-line name body rest =
    omega (arith, length-append name (32 ∷ (body ++ (10 ∷ rest))), length-append body (10 ∷ rest))

-- The loop has read `rest` still, and the fuel is enough for it.
abbrev Reads : ℕ → List Variable → Chars → State → Chars → State → Type 0
Reads fuel status text s rest s' =
    (k : ℕ) × (length rest ≤ k)
    × (restore_lines fuel status text s ≡ restore_lines k status rest s')

read_line :
    (fuel : ℕ) (status : List Variable) (p : Variable) (text body rest : Chars) (s s' : State)
    → IsNamed status p
    → NoEnd body
    → text ≡ p.name ++ (32 ∷ (body ++ (10 ∷ rest)))
    → length text ≤ fuel
    → restore_value (some p) (body ++ (10 ∷ [])) s ≡ ok s'
    → Reads fuel status text s rest s'
read_line zero status p text body rest s s' h n shape l e =
    elim (none_left (omega (arith, l, ap length shape, length-line p.name body rest))) [ ]
  where
    none_left : 2 ≤ 0 → ⊥
    none_left h = omega (arith, h)
read_line (suc fuel) status p text body rest s s' h n shape l e = (
  fuel,
  omega (arith, l, ap length shape, length-line p.name body rest),
  ap (λ t. restore_lines (suc fuel) status t s) shape
      ∙ saved_line fuel status p body rest s h n
      ∙ ap (λ r. r >>= restore_lines fuel status rest) e,
)

-- What is written for a variable comes back.
read_value :
    (fuel : ℕ) (status : List Variable) (p : Variable) (v : Value) (rest : Chars) (s : State)
    → IsNamed status p
    → p.is_static ≡ false
    → length (save_value p.name v ++ rest) ≤ fuel
    → Reads fuel status (save_value p.name v ++ rest) s rest (keep p.num_var v s)
unfolding save_value
read_value fuel status p (number n) rest s h e l =
    read_line fuel status p (save_value p.name (number n) ++ rest) (print_number n) rest s
      (assign p.num_var (number n) s) h (print_number_plain n)
      (append_assoc p.name (32 ∷ (print_number n ++ (10 ∷ []))) rest
        ∙ ap (λ t. p.name ++ (32 ∷ t)) (append_assoc (print_number n) (10 ∷ []) rest))
      l (restore_value-number p n s e)
read_value fuel status p (string t) rest s h e l =
    read_line fuel status p (save_value p.name (string t) ++ rest) (34 ∷ (r ++ (34 ∷ []))) rest s
      (keep p.num_var (string t) s) h
      (
        (λ f. omega (arith, f)),
        All-append (λ c. c ≢ 10) r (34 ∷ []) (replace_newline_plain t) (ground arith),
      )
      (append_assoc p.name (32 ∷ 34 ∷ (r ++ (34 ∷ 10 ∷ []))) rest
        ∙ ap (λ u. p.name ++ (32 ∷ 34 ∷ u))
            (append_assoc r (34 ∷ 10 ∷ []) rest ∙ sym (append_assoc r (34 ∷ []) (10 ∷ rest))))
      l
      (ap (λ u. restore_value (some p) (34 ∷ u) s) (append_assoc r (34 ∷ []) (10 ∷ []))
        ∙ restore_value-string p t s e)
  where
    r : Chars
    r = replace_newline t
read_value fuel status p (pointer v) rest s h e l = (fuel, l, refl)
read_value fuel status p (object o) rest s h e l = (fuel, l, refl)

-- All lines of the file
pub restore_lines-save_variables :
    (l : List Variable) (fuel : ℕ) (status : List Variable) (saved : ℕ → Value) (s : State)
    → All (IsNamed status) l
    → length (save_variables l saved) ≤ fuel
    → restore_lines fuel status (save_variables l saved) s ≡ ok (merge l saved s)
unfolding save_variables restore_lines
restore_lines-save_variables [] fuel status saved s h n = refl
restore_lines-save_variables (p ∷ l) fuel status saved s h n = elim (Bool-cases p.is_static) [
  | inl static ↦
      ap (λ b. restore_lines fuel status (if b then rest else first ++ rest) s) static
      ∙ restore_lines-save_variables l fuel status saved s h.1
          (subst (λ b. length (if b then rest else first ++ rest) ≤ fuel) static n)
      ∙ ap (λ b. ok (merge l saved (if b then s else keep p.num_var (saved p.num_var) s)))
          (sym static)
  | inr kept ↦
      let r =
        read_value fuel status p (saved p.num_var) rest s h.0 kept
          (subst (λ b. length (if b then rest else first ++ rest) ≤ fuel) kept n) in
      ap (λ b. restore_lines fuel status (if b then rest else first ++ rest) s) kept
      ∙ r.2
      ∙ restore_lines-save_variables l r.0 status saved (keep p.num_var (saved p.num_var) s) h.1 r.1
      ∙ ap (λ b. ok (merge l saved (if b then s else keep p.num_var (saved p.num_var) s)))
          (sym kept)
]
  where
    rest : Chars
    rest = save_variables l saved

    first : Chars
    first = save_value p.name (saved p.num_var)
