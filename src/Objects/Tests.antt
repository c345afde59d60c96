-- ===== src/Objects/Tests.antt =====
-- Runs of otable.c's functions, and its theorems at concrete tables.
use lpmud_ng.Base.{ℕ, ◌≡◌, refl, true, Option, none, some, [], ◌∷◌, ◌==◌, if◌then◌else◌, arith, inr}
use lpmud_ng.Base.Int.{ℤ, pos}
use lpmud_ng.Base.Run.{Run, ok, fatal, ◌>>=◌, Returns}
use lpmud_ng.Base.Text.{Chars, codes}
use lpmud_ng.Objects
use lpmud_ng.Objects.{
  Object, ObjTable, start, enter_object_hash, remove_object_hash, lookup_object_hash, program,
}
use lpmud_ng.Objects.Lookup.{
  home, IsIndexed, lookup, IsValid, start-IsValid, Searched, find_obj_n_lem,
}
use lpmud_ng.Objects.Methods.{
  Writes, enter_object_hash_lem, enter_object_hash_duplicate, remove_object_hash_lem,
  remove_object_hash_fatal, enter-lookup-remove,
}

abbrev church : Object
church = record { addr = 7; name = codes "room/church" }

abbrev other : Object
other = record { addr = 8; name = codes "room/church" }

-- The object is found after it was entered, and not after it was removed.
abbrev session : Run (Option Object × Option Object × ℤ × ℕ)
session = do
  t ← enter_object_hash church start
  (a, t') ← lookup_object_hash church.name t
  t'' ← remove_object_hash church t'
  (b, t''') ← lookup_object_hash church.name t''
  ok (a, b, t'''.in_table, t'''.lookups_found)

session_runs : session ≡ ok (some church, none, pos 0, 1)
unfolding program
session_runs = refl

church-IsIndexed : IsIndexed church.name
unfolding program
church-IsIndexed = refl

none-entered : lookup church.name start ≡ none
unfolding lookup program
none-entered = refl

abbrev one : ObjTable
one = record start {
  ready = true;
  buckets = λ i. if i == home church.name then church ∷ [] else [];
}

one-IsValid : IsValid one
unfolding lookup program
one-IsValid = Objects.Lookup.ready-IsValid one refl (
    lpmud_ng.Hash.Table.insert-IsPlaced Objects.Lookup.name_of lpmud_ng.Hash.obj_hash church.name
      start.buckets one.buckets church start-IsValid.chains refl refl church-IsIndexed (λ i. refl))

lookup-one : lookup church.name one ≡ some church
unfolding lookup program
lookup-one = refl

find_obj_n_lem_example :
    Returns
      (Objects.find_obj_n church.name start)
      λ r. (r.0 ≡ lookup church.name start) × Searched church.name start r.1
find_obj_n_lem_example = find_obj_n_lem church.name start church-IsIndexed start-IsValid

enter_object_hash_lem_example :
    Returns (enter_object_hash church start) (Writes church.name (some church) start)
enter_object_hash_lem_example =
    enter_object_hash_lem church start church-IsIndexed start-IsValid none-entered

enter_object_hash_duplicate_example : enter_object_hash other one ≡ fatal
enter_object_hash_duplicate_example =
    enter_object_hash_duplicate other church one church-IsIndexed one-IsValid lookup-one

remove_object_hash_lem_example :
    Returns (remove_object_hash church one) (Writes church.name none one)
remove_object_hash_lem_example =
    remove_object_hash_lem church church one church-IsIndexed one-IsValid lookup-one refl

remove_object_hash_fatal_example : remove_object_hash other one ≡ fatal
remove_object_hash_fatal_example =
    remove_object_hash_fatal other one church-IsIndexed one-IsValid
      (inr (church, lookup-one, omega arith))

enter-lookup-remove_example : Returns (enter_object_hash church start) λ u.
    Returns (lookup_object_hash church.name u) λ r.
      (r.0 ≡ some church)
      × Returns (remove_object_hash church r.1) λ w. (q : Chars) → lookup q w ≡ lookup q start
enter-lookup-remove_example =
    enter-lookup-remove church start church-IsIndexed start-IsValid none-entered
