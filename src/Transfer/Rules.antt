-- ===== src/Transfer/Rules.antt =====
-- The refusals of transfer_object of lpmud/simulate.c as a table.
use lpmud_ng.Base.{
  ℕ, zero, suc, ◌≡◌, refl, ◌∙◌, arith, Bool, true, false, not, ◌||◌, ◌&&◌, if◌then◌else◌, Option,
  none, some, List, [], ◌∷◌, ◌++◌,
}
use lpmud_ng.Base.Int.{ℤ, pos, negsuc}
use lpmud_ng.Value.{Value, number, string, pointer, object}
use lpmud_ng.Environment.{World}
use lpmud_ng.Environment.Parts.{Like, Like-step}
use lpmud_ng.Transfer.{
  Question, drop, can_put_and_get, prevent_insert, get, add_weight, is_set, is_refusal, is_denied,
  is_kept_back, is_too_heavy, Outcome, refuse,
}

-- What an answer can say
abbrev pub is_given : Option Value → Bool
is_given none = false
is_given (some v) = true

abbrev pub is_count : Option Value → Bool
is_count (some (number n)) = true
is_count _ = false

abbrev pub is_nought : Option Value → Bool
is_nought (some (number (pos zero))) = true
is_nought _ = false

pub refusal-given : (v : Option Value) → is_refusal v ≡ (is_given v && not (is_nought v))
refusal-given none = refl
refusal-given (some (number (pos zero))) = ground arith
refusal-given (some (number (pos (suc n)))) = ground arith
refusal-given (some (number (negsuc n))) = ground arith
refusal-given (some (string s)) = refl
refusal-given (some (pointer p)) = refl
refusal-given (some (object o)) = refl

pub denied-count : (v : Option Value) → is_denied v ≡ not (is_count v && not (is_nought v))
denied-count none = refl
denied-count (some (number (pos zero))) = ground arith
denied-count (some (number (pos (suc n)))) = ground arith
denied-count (some (number (negsuc n))) = ground arith
denied-count (some (string s)) = refl
denied-count (some (pointer p)) = refl
denied-count (some (object o)) = refl

pub kept-given : (v : Option Value) → is_kept_back v ≡ not (is_given v && not (is_nought v))
kept-given none = refl
kept-given (some (number (pos zero))) = ground arith
kept-given (some (number (pos (suc n)))) = ground arith
kept-given (some (number (negsuc n))) = ground arith
kept-given (some (string s)) = refl
kept-given (some (pointer p)) = refl
kept-given (some (object o)) = refl

pub heavy-nought : (v : Option Value) → is_too_heavy v ≡ is_nought v
heavy-nought none = refl
heavy-nought (some (number (pos zero))) = ground arith
heavy-nought (some (number (pos (suc n)))) = ground arith
heavy-nought (some (number (negsuc n))) = ground arith
heavy-nought (some (string s)) = refl
heavy-nought (some (pointer p)) = refl
heavy-nought (some (object o)) = refl

-- A refusal: whether it can be asked for, whether it is given, and its code
abbrev pub Rule : Type 0
Rule = Bool × Bool × ℕ

abbrev pub first_refusal : List Rule → Option ℕ
first_refusal [] = none
first_refusal ((asked, refused, code) ∷ l) =
    let rest = first_refusal l in if asked && refused then some code else rest

abbrev pub code_of : Option ℕ → ℕ
code_of none = 0
code_of (some c) = c

abbrev pub decide : Option ℕ → (World → Outcome) → World → Outcome
decide none k u = k u
decide (some c) k u = refuse c u

-- The outcome is that of the rules, in a world with the same tree.
abbrev pub Decides : List Rule → (World → Outcome) → World → Outcome → Type 0
Decides l k w r = (u : World) × Like w.super w.contains w u × (r ≡ decide (first_refusal l) k u)

pub Decides-chain :
    (l m : List Rule) (j k : World → Outcome) (w : World) (r : Outcome)
    → Decides l j w r
    → ((u : World) → Like w.super w.contains w u → Decides m k u (j u))
    → Decides (l ++ m) k w r
Decides-chain [] m j k w r (u, a, e) f =
    let (v, b, d) = f u a in (v, Like-step w.super w.contains w u v a b, e ∙ d)
Decides-chain ((asked, refused, c) ∷ l) m j k w r (u, a, e) f =
    by_case (asked && refused) e (λ d. Decides-chain l m j k w r (u, a, d) f)
  where
    by_case :
        (b : Bool)
        → r ≡ decide (if b then some c else first_refusal l) j u
        → (r ≡ decide (first_refusal l) j u → Decides (l ++ m) k w r)
        → (v : World) × Like w.super w.contains w v
          × (r ≡ decide (if b then some c else first_refusal (l ++ m)) k v)
    by_case true e h = (u, a, e)
    by_case false e h = h e

abbrev pub Answers : Type 0
Answers = Question → ℕ → Option Value → Option Value

-- What the answers of the objects refuse: `drop` and `prevent_insert` with anything but nothing or 0,
-- `can_put_and_get` with anything but a number other than 0, `get` with nothing or 0, `add_weight`
-- with 0
abbrev pub stays : Answers → ℕ → Bool
stays answer ob = is_given (answer drop ob none) && not (is_nought (answer drop ob none))

abbrev pub is_shut : Answers → ℕ → Bool
is_shut answer bag = not (
    is_count (answer can_put_and_get bag none) && not (is_nought (answer can_put_and_get bag none)))

abbrev pub stays_out : Answers → ℕ → Bool
stays_out answer ob =
    is_given (answer prevent_insert ob none) && not (is_nought (answer prevent_insert ob none))

abbrev pub stays_there : Answers → ℕ → Bool
stays_there answer ob = not (is_given (answer get ob none) && not (is_nought (answer get ob none)))

abbrev pub is_bag : ℕ → World → Bool
is_bag o w = is_set (w.super o) && not (w.enable_commands o)

-- The refusals that come from the place of the object, from the destination, and from its weight
abbrev pub rules_from : Answers → ℕ → Option ℕ → World → List Rule
rules_from answer ob none w = []
rules_from answer ob (some from) w =
    (w.enable_commands from, stays answer ob, 2)
    ∷ (is_bag from w, is_shut answer from || w.destructed from, 3)
    ∷ []

abbrev pub rules_to : Answers → ℕ → ℕ → World → List Rule
rules_to answer ob to w =
    (is_bag to w, stays_out answer ob, 4)
    ∷ (is_bag to w, is_shut answer to, 5)
    ∷ (w.enable_commands to, stays_there answer ob, 6)
    ∷ []

abbrev pub rules_weight : Answers → ℕ → Option ℤ → World → List Rule
rules_weight answer to none w = []
rules_weight answer to (some n) w =
    (is_set (w.super to), is_nought (answer add_weight to (some (number n))), 1) ∷ []

abbrev pub rules : Answers → ℕ → ℕ → Option ℤ → World → List Rule
rules answer ob to weight w =
    rules_from answer ob (w.super ob) w
    ++ (rules_to answer ob to w ++ rules_weight answer to weight w)
