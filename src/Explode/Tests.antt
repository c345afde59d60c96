-- ===== src/Explode/Tests.antt =====
-- Runs of explode_string and implode_string, and their theorems at concrete strings.
use lpmud_ng.Base.{ℕ, ◌+◌, ◌≡◌, refl, Bool, none, some, List, [], ◌∷◌, ◌++◌, arith}
use lpmud_ng.Base.Int.{pos}
use lpmud_ng.Base.Run.{ok, undefined}
use lpmud_ng.Base.Text.{Chars, codes}
use lpmud_ng.Value.{Value, number, string, object}
use lpmud_ng.Explode.{explode_string, implode_string, buffer_size, program}
use lpmud_ng.Explode.Pieces.{join, tail, ArePieces}
use lpmud_ng.Explode.Results.{
  pieces_result, explode_string_lem, explode-implode, implode-explode, implode_string_fits,
  explode_string_loops,
}

-- The byte of a comma
abbrev comma : ℕ
comma = 44

commas :
    explode_string 20 (codes ",,a,,bc,") (codes ",")
    ≡ some (ok (some (string (codes "a") ∷ string [] ∷ string (codes "bc") ∷ [])))
unfolding program
commas = refl

-- An empty string is exploded to an array with the number 0.
empty_string : explode_string 3 [] (codes ",") ≡ some (ok (some (number (pos 0) ∷ [])))
unfolding program
empty_string = refl

only_delimiters : explode_string 5 (codes ",,") (codes ",") ≡ some (ok none)
unfolding program
only_delimiters = refl

-- A delimiter that overlaps itself at the end: the array has one item, and two are written.
overlap : explode_string 9 (codes "baaa") (codes "aa") ≡ some undefined
unfolding program
overlap = refl

implode_some :
    implode_string (string (codes "x") ∷ object 3 ∷ string (codes "yz") ∷ []) (codes ", ")
    ≡ some (codes "x, yz")
unfolding program
implode_some = refl

explode_string_lem_example :
    (p : Chars) × (ps : List Chars) × (t : Bool) × (codes "a,b," ≡ join comma p ps ++ tail comma t)
    × ArePieces comma p ps t
    × (explode_string 20 (codes ",,a,b,") (codes ",") ≡ pieces_result (p ∷ ps))
explode_string_lem_example = explode_string_lem 20 comma 2 97 (codes ",b,") refl (omega arith)

explode-implode_example :
    (s : Chars) × (implode_string (string (codes "a") ∷ string (codes "bc") ∷ []) (codes ",")
      ≡ some s)
    × (explode_string 20 s (codes ",")
        ≡ some (ok (some (string (codes "a") ∷ string (codes "bc") ∷ []))))
explode-implode_example =
    explode-implode 20 comma (codes "a") (codes "bc" ∷ []) (refl, tt) ((refl, (refl, tt)), tt) refl
      refl (omega arith) (omega arith)

implode-explode_example :
    (items : List Value) × (u : Chars) × (explode_string 20 (codes ",,a,b,") (codes ",")
      ≡ some (ok (some items)))
    × (implode_string items (codes ",") ≡ some u)
    × (t : Bool) × (codes "a,b," ≡ u ++ tail comma t)
implode-explode_example =
    implode-explode 20 comma 2 97 (codes ",b,") refl (omega arith) (omega arith)

implode_string_fits_example :
    5 + 1 ≡ buffer_size (string (codes "x") ∷ object 3 ∷ string (codes "yz") ∷ []) (codes ", ")
implode_string_fits_example =
    implode_string_fits (string (codes "x") ∷ object 3 ∷ string (codes "yz") ∷ []) (codes ", ")
      (codes "x, yz") implode_some

explode_string_loops_example : explode_string 100 (codes "a b") [] ≡ none
explode_string_loops_example = explode_string_loops 100 (codes "a b") refl
