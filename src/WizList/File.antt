-- ===== src/WizList/File.antt =====
-- The file WIZLIST: save_wiz_file and load_wiz_file of lpmud/wiz_list.c. A file is its bytes, none of
-- them null; `none` stands for a file that cannot be opened.
use lpmud_ng.Base.{
  ℕ, zero, suc, ◌-◌, ◌==◌, if◌then◌else◌, Option, none, some, List, [], ◌∷◌, ◌++◌, length, take,
}
use lpmud_ng.Base.Int.{ℤ, pos, ltb_ℤ}
use lpmud_ng.Base.Run.{Run, ok, undefined, ◌>>=◌}
use lpmud_ng.Base.Text.{Chars}
use lpmud_ng.Paths.{strchr}
use lpmud_ng.Save.{print_number, atoi}
use lpmud_ng.WizList.{Wiz, add_name, add_score}

-- `fgets` into a buffer for `n` bytes and the null byte: what it reads, and what it leaves
unfoldable pub fgets : ℕ → Chars → Chars × Chars
fgets zero f = ([], f)
fgets (suc n) [] = ([], [])
fgets (suc n) (c ∷ f) = let r = fgets n f in if c == 10 then (c ∷ [], f) else (c ∷ r.0, r.1)

-- `buff` has room for 1000 bytes.
abbrev pub line_size : ℕ
line_size = 999

abbrev pub wiz_line : Wiz → Chars
wiz_line w =
    w.name ++ (32 ∷ (print_number w.score ++ (32 ∷ (print_number w.total_worth ++ (10 ∷ [])))))

unfoldable pub save_wiz_file : List Wiz → Chars
save_wiz_file [] = []
save_wiz_file (w ∷ l) = wiz_line w ++ save_wiz_file l

abbrev pub load_score : Chars → ℤ → List Wiz → Run (List Wiz)
load_score name score l =
    if ltb_ℤ (pos 0) score then add_score name score (add_name name l).1 else ok l

-- `p` is the rest of the line from the first space on; the loop goes on with `next`.
abbrev pub load_line :
    Chars → Option Chars → List Wiz → (List Wiz → Run (List Wiz)) → Run (List Wiz)
load_line buff none l next = ok l
load_line buff (some []) l next = ok l
load_line buff (some (c ∷ [])) l next = ok l
load_line buff (some (c ∷ d ∷ p)) l next =
    load_score (take (length buff - length (c ∷ d ∷ p)) buff) (atoi (d ∷ p)) l >>= next

-- Every line has a byte, so that the length of the file is enough `fuel`.
unfoldable pub load_lines : ℕ → Chars → List Wiz → Run (List Wiz)
load_lines fuel [] l = ok l
load_lines zero (c ∷ f) l = undefined
load_lines (suc fuel) (c ∷ f) l =
    let (buff, rest) = fgets line_size (c ∷ f) in
    load_line buff (strchr buff 32) l (load_lines fuel rest)

unfoldable pub load_wiz_file : Option Chars → List Wiz → Run (List Wiz)
load_wiz_file none l = ok l
load_wiz_file (some f) l = load_lines (length f) f l
