-- ===== src/Strings/Tests.antt =====
-- Runs of stralloc.c's functions, and its theorems at concrete tables.
use lpmud_ng.Base.{
  ℕ, ◌≡◌, ◌↔◌, refl, true, ◌==◌, if◌then◌else◌, none, some, [], ◌∷◌, arith, inl, inr,
}
use lpmud_ng.Base.Run.{Run, ok, fatal, ◌>>=◌, Returns}
use lpmud_ng.Base.Chain
use lpmud_ng.Base.Int.{ℤ, pos}
use lpmud_ng.Base.Text.{Chars, codes}
use lpmud_ng.Hash.{str_hash}
use lpmud_ng.Strings
use lpmud_ng.Strings.{Shared, Table, start, make_shared_string, free_string, with_refs, program}
use lpmud_ng.Strings.Lookup.{
  home, IsIndexed, lookup, name_of, ready-IsValid, IsValid, start-IsValid,
}
use lpmud_ng.Hash.Table
use lpmud_ng.Strings.Methods.{Acquires, make_shared_string_lem, findstring_lem, Searched}
use lpmud_ng.Strings.Release.{Releases, free_string_lem, free_string_fatal}
use lpmud_ng.Strings.Sharing.{make-free, refs_overflow, make_two, make_two_pointers, balanced}

abbrev say : Chars
say = codes "say"

abbrev get : Chars
get = codes "get"

-- Three references to two strings; the second call for "say" finds the first one's.
abbrev session : Run (ℕ × ℕ × ℕ × ℤ × ℤ × ℕ)
session = do
  (a, t) ← make_shared_string 100 say start
  (b, t') ← make_shared_string 200 get t
  (c, t'') ← make_shared_string 300 say t'
  ok (a, b, c, t''.distinct, t''.allocd_strings, t''.searches)

session_runs : session ≡ ok (100, 200, 100, pos 2, pos 3, 3)
unfolding program
session_runs = refl

say-IsIndexed : IsIndexed say
unfolding program
say-IsIndexed = refl

get-IsIndexed : IsIndexed get
unfolding program
get-IsIndexed = refl

none-stored : (q : Chars) → lookup q start ≡ none
unfolding lookup Chain.find
none-stored q = refl

findstring_lem_example :
    Returns (Strings.findstring say start) λ r. (r.0 ≡ lookup say start) × Searched say start r.1
findstring_lem_example = findstring_lem say start say-IsIndexed start-IsValid

make_shared_string_lem_example : Returns (make_shared_string 100 say start) (Acquires 100 say start)
make_shared_string_lem_example = make_shared_string_lem 100 say start say-IsIndexed start-IsValid

make-free_example :
    Returns (balanced 100 say start) λ w. IsValid w × ((q : Chars) → lookup q w ≡ lookup q start)
make-free_example =
    make-free 100 say start say-IsIndexed start-IsValid (λ e h. cc (none-stored say))

make_two_pointers_example : Returns (make_two 100 200 say get start) λ r. (r.0 ≡ r.1) ↔ (say ≡ get)
make_two_pointers_example =
    make_two_pointers 100 200 say get start say-IsIndexed get-IsIndexed start-IsValid
      (λ q r d e h. cc (none-stored q)) (λ q e h. cc (none-stored q)) (λ q e h. cc (none-stored q))
      (omega arith)

-- A table in which "say" has the greatest count that a `short` holds.
abbrev stored : ℕ → Shared
stored r = record { addr = 100; chars = say; refs = r }

abbrev holding : ℕ → Table
holding r = record start {
  ready = true;
  buckets = λ i. if i == home say then stored r ∷ [] else [];
}

holding-IsValid : (r : ℕ) → IsValid (holding r)
unfolding lookup Chain.find
holding-IsValid r = ready-IsValid (holding r) refl (
    Table.insert-IsPlaced name_of str_hash say start.buckets (holding r).buckets (stored r)
      start-IsValid.chains refl refl say-IsIndexed (λ i. refl))

lookup-holding : (r : ℕ) → lookup say (holding r) ≡ some (stored r)
unfolding lookup program
lookup-holding r = refl

free_string_lem_example :
    Returns (free_string 100 say (holding 2)) (Releases say (stored 2) (holding 2))
free_string_lem_example =
    free_string_lem 100 say (holding 2) say-IsIndexed (holding-IsValid 2) (stored 2)
      (lookup-holding 2) refl (omega arith) (omega arith)

free_string_fatal_example : free_string 104 say (holding 2) ≡ fatal
free_string_fatal_example =
    free_string_fatal 104 say (holding 2) say-IsIndexed (holding-IsValid 2)
      (inr (stored 2, lookup-holding 2, inl (omega arith)))

refs_overflow_example : balanced 300 say (holding 32767) ≡ fatal
refs_overflow_example =
    refs_overflow 300 say (holding 32767) say-IsIndexed (holding-IsValid 32767) (stored 32767)
      (lookup-holding 32767) refl
