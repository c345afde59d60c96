-- ===== src/WizList/Saved.antt =====
-- The list of the wizards that has been written to WIZLIST, and read again when the driver starts.
use lpmud_ng.Base.{
  ℕ, zero, suc, ◌-◌, ◌≤◌, ◌<◌, ◌≡◌, ◌≢◌, refl, ap, ◌∙◌, ◌==◌, if◌then◌else◌, Bool-cases, inl, inr,
  none, some, List, [], ◌∷◌, ◌++◌, length, take, length-append, take-append, All, arith,
}
use lpmud_ng.Base.Int.{ℤ, pos, ◌+ℤ◌, ltb_ℤ}
use lpmud_ng.Base.Run.{Run, ok, ◌>>=◌}
use lpmud_ng.Base.Text.{Chars, str_eq_symm}
use lpmud_ng.Paths.{strchr}
use lpmud_ng.Save.{print_number, atoi}
use lpmud_ng.Save.Decimal.{atoi-print_number, print_number_plain}
use lpmud_ng.Save.Lines.{strchr-name}
use lpmud_ng.WizList.{
  Wiz, find_wiz, new_wiz, with_name, add_name, update_wiz, raise_score, add_score,
}
use lpmud_ng.WizList.Scores.{IsDistinct, is_wiz_refl, is_wiz-str_eq}
use lpmud_ng.WizList.File.{
  fgets, line_size, wiz_line, save_wiz_file, load_score, load_line, load_lines, load_wiz_file,
}

-- An entry whose name has no space and no newline, and whose line fits in the buffer
pub record IsSavable (w : Wiz) : Type 0 where
  pub plain : All (λ c. (c ≢ 32) × (c ≢ 10)) w.name
  pub fits : length (wiz_line w) ≤ line_size

-- What comes back of an entry
abbrev pub from_file : Wiz → Wiz
from_file w = record (new_wiz w.name) { score = w.score }

abbrev pub with_loaded : Wiz → List Wiz → List Wiz
with_loaded w l = if ltb_ℤ (pos 0) w.score then from_file w ∷ l else l

-- The entries with a positive score, each with its score only and before those that were behind it
abbrev pub loaded : List Wiz → List Wiz → List Wiz
loaded [] acc = acc
loaded (w ∷ l) acc = loaded l (with_loaded w acc)

-- A text that `fgets` reads as a whole, whatever follows
abbrev IsLine : Chars → Type 0
IsLine t = (n : ℕ) (rest : Chars) → length t ≤ n → fgets n (t ++ rest) ≡ (t, rest)

newline-IsLine : IsLine (10 ∷ [])
unfolding fgets
newline-IsLine zero rest h = ground (arith, h)
newline-IsLine (suc n) rest h = refl

cons-IsLine : (c : ℕ) (t : Chars) → c ≢ 10 → IsLine t → IsLine (c ∷ t)
unfolding fgets
cons-IsLine c t p h zero rest l = ground (arith, l)
cons-IsLine c t p h (suc n) rest l =
    ap (λ r. if c == 10 then (c ∷ [], t ++ rest) else (c ∷ r.0, r.1)) (h n rest (omega (arith, l)))
    ∙ other (c ∷ [], t ++ rest) (c ∷ t, rest)
  where
    other : (a b : Chars × Chars) → (if c == 10 then a else b) ≡ b
    other a b = ground (arith, p)

append-IsLine : (s t : Chars) → All (λ c. c ≢ 10) s → IsLine t → IsLine (s ++ t)
append-IsLine [] t p h = h
append-IsLine (c ∷ s) t p h = cons-IsLine c (s ++ t) p.0 (append-IsLine s t p.1 h)

name_plain : (s : Chars) → All (λ c. (c ≢ 32) × (c ≢ 10)) s → All (λ c. c ≢ 10) s
name_plain [] h = h
name_plain (c ∷ s) h = (h.0.1, name_plain s h.1)

wiz_line-IsLine : (w : Wiz) → IsSavable w → IsLine (wiz_line w)
wiz_line-IsLine w h = append-IsLine w.name _ (name_plain w.name h.plain) (
    cons-IsLine 32 _ (λ e. omega (arith, e))
      (append-IsLine (print_number w.score) _ (print_number_plain w.score) (
        cons-IsLine 32 _ (λ e. omega (arith, e))
          (append-IsLine (print_number w.total_worth) _ (print_number_plain w.total_worth)
            newline-IsLine))))

plus_nothing : (n : ℤ) → pos 0 +ℤ n ≡ n
unfolding ◌+ℤ◌
plus_nothing n = ground arith

add_name_new :
    (name : Chars) (l : List Wiz) → find_wiz name l ≡ none → (add_name name l).1 ≡ new_wiz name ∷ l
unfolding add_name
add_name_new name l e = ap (λ o. (with_name name o l).1) e

update_new :
    (name : Chars) (n : ℤ) (l : List Wiz)
    → update_wiz name (raise_score n) (new_wiz name ∷ l) ≡ record (new_wiz name) { score = n } ∷ l
unfolding update_wiz
update_new name n l =
    ap
      (λ b.
        if b
        then raise_score n (new_wiz name) ∷ l
        else new_wiz name ∷ update_wiz name (raise_score n) l)
      (is_wiz_refl (new_wiz name))
    ∙ ap (λ k. record (new_wiz name) { score = k } ∷ l) (plus_nothing n)

add_score_new :
    (name : Chars) (n : ℤ) (l : List Wiz)
    → add_score name n (new_wiz name ∷ l) ≡ ok (record (new_wiz name) { score = n } ∷ l)
unfolding add_score find_wiz
add_score_new name n l = rw (is_wiz_refl (new_wiz name), add_score) (ap ok (update_new name n l))

-- A score is loaded for a name that is not in the list yet.
load_score_lem :
    (w : Wiz) (acc : List Wiz)
    → find_wiz w.name acc ≡ none
    → load_score w.name w.score acc ≡ ok (with_loaded w acc)
load_score_lem w acc e = elim (Bool-cases (ltb_ℤ (pos 0) w.score)) [
  | inl scored ↦
      rw scored (
        ap (add_score w.name w.score) (add_name_new w.name acc e)
        ∙ add_score_new w.name w.score acc)
  | inr rest ↦ rw rest refl
]

load_line-rest :
    (buff s : Chars) (c e : ℕ) (t : Chars) (l : List Wiz) (next : List Wiz → Run (List Wiz))
    → load_line buff (some (c ∷ (s ++ (e ∷ t)))) l next ≡ (
        load_score (take (length buff - length (c ∷ (s ++ (e ∷ t)))) buff) (atoi (s ++ (e ∷ t))) l
        >>= next)
load_line-rest buff [] c e t l next = refl
load_line-rest buff (d ∷ s) c e t l next = refl

name_of_line : (name t : Chars) → take (length (name ++ t) - length t) (name ++ t) ≡ name
name_of_line name t =
    ap (λ n. take n (name ++ t)) (omega (arith, length-append name t)) ∙ take-append name t

load_line_lem :
    (w : Wiz) (acc : List Wiz) (next : List Wiz → Run (List Wiz))
    → IsSavable w
    → load_line (wiz_line w) (strchr (wiz_line w) 32) acc next
      ≡ (load_score w.name w.score acc >>= next)
load_line_lem w acc next h =
    ap (λ p. load_line (wiz_line w) p acc next) (strchr-name w.name p h.plain)
    ∙ load_line-rest (wiz_line w) (print_number w.score) 32 32 worth acc next
    ∙ ap (λ name. load_score name (atoi p) acc >>= next) (name_of_line w.name (32 ∷ p))
    ∙ ap (λ n. load_score w.name n acc >>= next) (atoi-print_number w.score 32 worth refl)
  where
    worth : Chars
    worth = print_number w.total_worth ++ (10 ∷ [])

    p : Chars
    p = print_number w.score ++ (32 ∷ worth)

load_lines-line :
    (fuel : ℕ) (t rest : Chars) (acc : List Wiz)
    → 0 < length t
    → length t ≤ line_size
    → IsLine t
    → load_lines (suc fuel) (t ++ rest) acc ≡ load_line t (strchr t 32) acc (load_lines fuel rest)
unfolding load_lines
load_lines-line fuel [] rest acc some_byte fits h = elim (none_there some_byte) [ ]
  where
    none_there : 0 < 0 → ⊥
    none_there h = omega (arith, h)
load_lines-line fuel (c ∷ t) rest acc some_byte fits h =
    ap (λ r. load_line r.0 (strchr r.0 32) acc (load_lines fuel r.1)) (h line_size rest fits)

-- No name of `l` is in `acc`.
abbrev IsAbsent : List Wiz → List Wiz → Type 0
IsAbsent l acc = All (λ w. find_wiz w.name acc ≡ none) l

loaded-IsAbsent :
    (w : Wiz) (l acc : List Wiz)
    → find_wiz w.name l ≡ none
    → IsAbsent l acc
    → IsAbsent l (with_loaded w acc)
unfolding find_wiz
loaded-IsAbsent w [] acc e h = h
loaded-IsAbsent w (x ∷ l) acc e h = (
  ground (
    arith,
    h.0,
    e,
    is_wiz-str_eq w.name x,
    is_wiz-str_eq x.name (from_file w),
    str_eq_symm w.name x.name,
  ),
  loaded-IsAbsent w l acc (ground (arith, e)) h.1,
)

nothing-IsAbsent : (l : List Wiz) → IsAbsent l []
unfolding find_wiz
nothing-IsAbsent [] = tt
nothing-IsAbsent (w ∷ l) = (refl, nothing-IsAbsent l)

wiz_line-some_byte : (w : Wiz) → 0 < length (wiz_line w)
wiz_line-some_byte w = omega (arith, length-append w.name (32 ∷ (print_number w.score ++ worth)))
  where
    worth : Chars
    worth = 32 ∷ (print_number w.total_worth ++ (10 ∷ []))

load_lines_lem :
    (fuel : ℕ) (l acc : List Wiz)
    → All IsSavable l
    → IsDistinct l
    → IsAbsent l acc
    → length (save_wiz_file l) ≤ fuel
    → load_lines fuel (save_wiz_file l) acc ≡ ok (loaded l acc)
unfolding save_wiz_file load_lines
load_lines_lem fuel [] acc s d a h = refl
load_lines_lem zero (w ∷ l) acc s d a h =
    elim (too_long (wiz_line-some_byte w)
      (omega (arith, h, length-append (wiz_line w) (save_wiz_file l)))) [ ]
  where
    too_long : 0 < length (wiz_line w) → length (wiz_line w) ≤ 0 → ⊥
    too_long p q = omega (arith, p, q)
load_lines_lem (suc fuel) (w ∷ l) acc s d a h =
    load_lines-line fuel (wiz_line w) (save_wiz_file l) acc (wiz_line-some_byte w) s.0.fits
      (wiz_line-IsLine w s.0)
    ∙ load_line_lem w acc (load_lines fuel (save_wiz_file l)) s.0
    ∙ ap (λ r. r >>= load_lines fuel (save_wiz_file l)) (load_score_lem w acc a.0)
    ∙ load_lines_lem fuel l (with_loaded w acc) s.1 d.1 (loaded-IsAbsent w l acc d.0 a.1)
        (omega (arith, h, length-append (wiz_line w) (save_wiz_file l), wiz_line-some_byte w))

-- The wizards written to WIZLIST come back when the file is loaded into an empty list, if no name
-- stands twice in the list, no name has a space or a newline, and each line has at most 999 bytes:
-- exactly those with a positive score, each with its name and score, in the opposite order, and
-- nothing else of them, their worth included, which is in the file.
pub save-load :
    (l : List Wiz)
    → All IsSavable l
    → IsDistinct l
    → load_wiz_file (some (save_wiz_file l)) [] ≡ ok (loaded l [])
unfolding load_wiz_file
save-load l s d =
    load_lines_lem (length (save_wiz_file l)) l [] s d (nothing-IsAbsent l) (omega arith)
