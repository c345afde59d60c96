-- ===== src/Save/RoundTrip.antt =====
-- An object that save_object has written is what restore_object reads.
use lpmud_ng.Base.{
  ℕ, ◌-◌, ◌<◌, ◌≡◌, none, refl, sym, ap, ◌∙◌, Bool, true, false, ◌==◌, not, if◌then◌else◌, take,
  ◌&&◌, ◌||◌, some, List, [], ◌∷◌, ◌++◌, length, All, arith,
}
use lpmud_ng.Base.Run.{ok, error, fatal, ◌>>=◌}
use lpmud_ng.Base.Text.{Chars, str_eq, str_eq_refl, str_eq_symm}
use lpmud_ng.Value.{Value, number, string, pointer, object, Refs, assign_svalue}
use lpmud_ng.Save.{
  Variable, Object, Files, State, save_variables, put_file, unlink, link_as, link, may_save, dot_o,
  save_object, assign, restore_lines, ends_in_c, restore_name, restore_text, restore_object,
}
use lpmud_ng.Save.Lines.{keep, with_newlines}
use lpmud_ng.Save.Reading.{merge, IsNamed, restore_lines-save_variables}

-- Whether a variable that is saved has the place `i`
abbrev pub is_saved : List Variable → ℕ → Bool
is_saved [] i = false
is_saved (p ∷ l) i = not p.is_static && p.num_var == i || is_saved l i

-- The value that comes back for `v`, where `old` was
abbrev pub comes_back : Value → Value → Value
comes_back (number n) old = number n
comes_back (string t) old = string (with_newlines t)
comes_back (pointer v) old = old
comes_back (object o) old = old

keep-comes_back :
    (i j : ℕ) (v : Value) (s : State)
    → (keep i v s).0 j ≡ (if j == i then comes_back v (s.0 i) else s.0 j)
unfolding assign assign_svalue
keep-comes_back i j (number n) s = refl
keep-comes_back i j (string t) s = refl
keep-comes_back i j (pointer v) s = ground arith
keep-comes_back i j (object o) s = ground arith

twice : (v old : Value) → comes_back v (comes_back v old) ≡ comes_back v old
twice (number n) old = refl
twice (string t) old = refl
twice (pointer v) old = refl
twice (object o) old = refl

merge-comes_back :
    (l : List Variable) (saved : ℕ → Value) (s : State) (i : ℕ)
    → (merge l saved s).0 i ≡ (if is_saved l i then comes_back (saved i) (s.0 i) else s.0 i)
merge-comes_back [] saved s i = refl
merge-comes_back (p ∷ l) saved s i =
    merge-comes_back l saved s1 i
    ∙ ground (arith, keep-comes_back p.num_var i (saved p.num_var) s, twice (saved i) (s.0 i))
  where
    s1 : State
    s1 = if p.is_static then s else keep p.num_var (saved p.num_var) s

save_object_writes :
    (tmp current : Chars) (ob : Object) (file : Chars) (fs fs' : Files)
    → str_eq tmp (file ++ dot_o) ≡ false
    → str_eq (file ++ dot_o) tmp ≡ false
    → save_object true tmp current ob file fs ≡ ok fs'
    → fs' (file ++ dot_o) ≡ some (save_variables ob.status ob.variables)
unfolding save_object
save_object_writes tmp current ob file fs fs' n m e =
    ap (λ f. f (file ++ dot_o)) (sym (same (may_save ob.wl current file) linked e))
    ∙ ap (λ b. if b then none else link tmp (file ++ dot_o) cleared (file ++ dot_o)) m
    ∙ ap (λ o. link_as o (cleared (file ++ dot_o)) (file ++ dot_o) cleared (file ++ dot_o))
        (ap (λ b. if b then none else written tmp) n
          ∙ ap (λ b. if b then some text else fs tmp) (str_eq_refl tmp))
    ∙ ap
        (λ b.
          link_as (some text) (if b then none else written (file ++ dot_o)) (file ++ dot_o) cleared
            (file ++ dot_o))
        (str_eq_refl (file ++ dot_o))
    ∙ ap (λ b. if b then some text else cleared (file ++ dot_o)) (str_eq_refl (file ++ dot_o))
  where
    text : Chars
    text = save_variables ob.status ob.variables

    written : Files
    written = put_file tmp text fs

    cleared : Files
    cleared = unlink (file ++ dot_o) written

    linked : Files
    linked = unlink tmp (link tmp (file ++ dot_o) cleared)

    same :
        (b : Bool) (f : Files)
        → (if not b then error else if not true then fatal else ok f) ≡ ok fs'
        → f ≡ fs'
    same b f h = ground (arith, h)

-- A file name that restore_object completes as save_object does
restored_name : (file : Chars) → ends_in_c file ≡ false → restore_name file ≡ file ++ dot_o
unfolding restore_name
restored_name file h =
    ap (λ b. if b then take (length file - 1) file ++ (111 ∷ []) else file ++ dot_o) h

restored_text :
    (text : Chars) (ob : Object) (r : Refs) (s : State)
    → 0 < length text
    → restore_lines (length text) ob.status text (ob.variables, r) ≡ ok s
    → restore_text (some text) ob r ≡ ok (true, record ob { variables = s.0 }, s.1)
unfolding restore_text
restored_text [] ob r s h e = ground (arith, h)
restored_text (c ∷ text) ob r s h e =
    ap (λ m. m >>= λ s. ok (true, record ob { variables = s.0 }, s.1)) e

-- If save_object returns for an object each of whose variables has a name that a line can begin
-- with and is found by it, something is saved, the file name does not end in .c, and with .o it is
-- not that of the temporary file, then restore_object into the same object with any variables
-- returns true; each place of a saved variable then has the number that was saved, the string with
-- its carriage returns as newlines, or its old value if that was neither, and the others are as
-- they were.
pub save-restore :
    (tmp current file : Chars) (ob : Object) (fs fs' : Files) (variables : ℕ → Value) (r : Refs)
    → save_object true tmp current ob file fs ≡ ok fs'
    → str_eq tmp (file ++ dot_o) ≡ false
    → All (IsNamed ob.status) ob.status
    → 0 < length (save_variables ob.status ob.variables)
    → ends_in_c file ≡ false
    → (restored : ℕ → Value) × (r' : Refs) × (restore_object
          (record ob { variables = variables })
          file
          fs'
          r
        ≡ ok (true, record ob { variables = restored }, r'))
      × ((i : ℕ)
          → restored i ≡ (
              if is_saved ob.status i
              then comes_back (ob.variables i) (variables i)
              else variables i))
unfolding restore_object
save-restore tmp current file ob fs fs' variables r e d h n c = (
  s.0,
  s.1,
  ap (λ q. restore_text (fs' q) old r) (restored_name file c)
      ∙ ap (λ t. restore_text t old r)
          (save_object_writes tmp current ob file fs fs' d (str_eq_symm (file ++ dot_o) tmp ∙ d) e)
      ∙ restored_text text old r s n (
          restore_lines-save_variables ob.status (length text) ob.status ob.variables (variables, r)
            h (omega arith)),
  (λ i. merge-comes_back ob.status ob.variables (variables, r) i),
)
  where
    old : Object
    old = record ob { variables = variables }

    text : Chars
    text = save_variables ob.status ob.variables

    s : State
    s = merge ob.status ob.variables (variables, r)
