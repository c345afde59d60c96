-- ===== src/Save/Guards.antt =====
-- Which file save_object writes.
use lpmud_ng.Base.{
  ℕ, zero, suc, ◌+◌, ◌-◌, ◌≡◌, ◌⊎◌, refl, sym, ap, ◌∙◌, Bool, true, false, ltb, not, ◌&&◌,
  if◌then◌else◌, Option, none, some, [], ◌∷◌, ◌++◌, length, drop, length-drop, arith, inl, inr,
}
use mathlib.Core.List.{append_assoc}
use lpmud_ng.Base.Run.{ok, error, fatal}
use lpmud_ng.Base.Text.{Chars, str_eq, str_eq_refl, starts_with, starts_with→append}
use lpmud_ng.Paths.{strchr}
use lpmud_ng.Save.{
  Object, Files, is_missing, is_home, may_save, save_variables, put_file, unlink, link_as, link,
  dot_o, save_object,
}

abbrev pub players : Chars
players = 112 ∷ 108 ∷ 97 ∷ 121 ∷ 101 ∷ 114 ∷ 115 ∷ 47 ∷ []

-- A file in the directory of a wizard, or the one that has its name
pub record IsHome (wizard file : Chars) : Type 0 where
  pub rest : Chars
  pub begins : file ≡ players ++ wizard ++ rest
  pub apart : (rest ≡ []) ⊎ (starts_with rest (47 ∷ []) ≡ true)
  pub no_dot : strchr file 46 ≡ none

is_missing_iff : (o : Option Chars) → is_missing o ≡ true → o ≡ none
is_missing_iff none h = refl
is_missing_iff (some s) h = cc

drop_nil : (n : ℕ) → drop {A = ℕ} n [] ≡ []
drop_nil zero = refl
drop_nil (suc n) = refl

drop-drop : (n m : ℕ) (s : Chars) → drop n (drop m s) ≡ drop (m + n) s
drop-drop n zero s = sym (ap (λ k. drop k s) (zero_plus n))
  where
    zero_plus : (n : ℕ) → 0 + n ≡ n
    zero_plus n = omega arith
drop-drop n (suc m) [] = drop_nil n ∙ sym (drop_nil (suc m + n))
drop-drop n (suc m) (c ∷ s) = drop-drop n m s ∙ sym (ap (λ k. drop k (c ∷ s)) (shift m n))
  where
    shift : (m n : ℕ) → suc m + n ≡ suc (m + n)
    shift m n = omega arith

parts :
    (a b c d e : Bool)
    → (a && b && c && d && e) ≡ true
    → (a ≡ true) × (b ≡ true) × (c ≡ true) × (d ≡ true) × (e ≡ true)
parts a b c d e h = ground (arith, h)

is_home-IsHome : (wizard file : Chars) → is_home wizard file ≡ true → IsHome wizard file
unfolding is_home
is_home-IsHome wizard file h =
    let all = parts _ _ _ _ _ h in
    record {
      rest = rest;
      begins =
          starts_with→append file players all.0
          ∙ ap (λ t. players ++ t)
              (starts_with→append (drop 8 file) wizard all.2
                ∙ ap (λ t. wizard ++ t) (drop-drop (length wizard) 8 file))
          ∙ sym (append_assoc players wizard rest);
      apart = slash rest (length-drop (8 + length wizard) file) all.3;
      no_dot = is_missing_iff (strchr file 46) all.4;
    }
  where
    rest : Chars
    rest = drop (8 + length wizard) file

    slash :
        (t : Chars)
        → length t ≡ length file - (8 + length wizard)
        → not (ltb (8 + length wizard) (length file) && not (starts_with t (47 ∷ []))) ≡ true
        → (t ≡ []) ⊎ (starts_with t (47 ∷ []) ≡ true)
    slash [] l g = inl refl
    slash (c ∷ t) l g = inr (ground (arith, l, g))

-- A link changes no file but the one of its new name.
link-other : (from name q : Chars) (fs : Files) → str_eq q name ≡ false → link from name fs q ≡ fs q
link-other from name q fs n = by_case (fs from) (fs name)
  where
    by_case : (o p : Option Chars) → link_as o p name fs q ≡ fs q
    by_case none p = refl
    by_case (some text) none = ap (λ b. if b then some text else fs q) n
    by_case (some text) (some other) = refl

-- If save_object of an object of a wizard returns, the file name is players/ and the wizard's name,
-- followed by nothing or by a slash and more, without a dot, the temporary file is gone, and of the
-- other files only the one of that name with .o can be another one than before.
pub save_object-IsHome :
    (opens : Bool) (tmp current wizard file : Chars) (ob : Object) (fs fs' : Files)
    → ob.wl ≡ some wizard
    → save_object opens tmp current ob file fs ≡ ok fs'
    → IsHome wizard file
      × (fs' tmp ≡ none)
      × ((q : Chars) → str_eq q (file ++ dot_o) ≡ false → str_eq q tmp ≡ false → fs' q ≡ fs q)
unfolding save_object may_save
save_object-IsHome opens tmp current wizard file ob fs fs' w e = (
  is_home-IsHome wizard file (home (is_home wizard file) opens linked allowed),
  ap (λ f. f tmp) (sym (same (is_home wizard file) opens linked allowed))
      ∙ ap (λ b. if b then none else link tmp (file ++ dot_o) cleared tmp) (str_eq_refl tmp),
  (λ q n m.
      ap (λ f. f q) (sym (same (is_home wizard file) opens linked allowed))
      ∙ ap (λ b. if b then none else link tmp (file ++ dot_o) cleared q) m
      ∙ link-other tmp (file ++ dot_o) q cleared n
      ∙ ap (λ b. if b then none else written q) n
      ∙ ap (λ b. if b then some text else fs q) m),
)
  where
    text : Chars
    text = save_variables ob.status ob.variables

    written : Files
    written = put_file tmp text fs

    cleared : Files
    cleared = unlink (file ++ dot_o) written

    linked : Files
    linked = unlink tmp (link tmp (file ++ dot_o) cleared)

    allowed :
        (if not (is_home wizard file) then error else if not opens then fatal else ok linked)
        ≡ ok fs'
    allowed =
        ap
          (λ o.
            if not (may_save o current file) then error else if not opens then fatal else ok linked)
          (sym w)
        ∙ e

    home :
        (b c : Bool) (f : Files)
        → (if not b then error else if not c then fatal else ok f) ≡ ok fs'
        → b ≡ true
    home b c f h = ground (arith, h)

    same :
        (b c : Bool) (f : Files)
        → (if not b then error else if not c then fatal else ok f) ≡ ok fs'
        → f ≡ fs'
    same b c f h = ground (arith, h)
