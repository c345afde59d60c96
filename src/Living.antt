-- ===== src/Living.antt =====
-- The hash table of living names in lpmud/object.c. Objects are their addresses, a chain through
-- `next_hashed_living` is a list, and the shared copy of a name is its bytes.
mod Methods
mod Lookup
mod Tests
use lpmud_ng.Base.{
  ℕ, zero, suc, ◌+◌, ◌-◌, ◌*◌, ◌%◌, ◌^◌, ltb, leb, Bool, true, false, ◌==◌, if◌then◌else◌, not,
  ◌||◌, ◌&&◌, Option, none, some, List, [], ◌∷◌,
}
use lpmud_ng.Base.Int.{ℤ, pos, ◌+ℤ◌, ◌-ℤ◌, leb_ℤ}
use lpmud_ng.Base.Run.{Run, ok, error, fatal, undefined, ◌>>=◌}
use lpmud_ng.Base.Chain
use lpmud_ng.Base.Text.{Chars, str_eq}
use lpmud_ng.Value.{Value, number, string, pointer, object}

-- `LIVING_HASH_SIZE` of config.h
abbrev pub living_hash_size : ℕ
living_hash_size = 100

-- A `char`, which is signed, added to an `unsigned`
abbrev pub unsigned_char : ℕ → ℕ
unsigned_char c = if ltb c 128 then c else c + 2 ^ 32 - 256

unfoldable pub sum_living_name : ℕ → Chars → ℕ
sum_living_name ret [] = ret
sum_living_name ret (c ∷ s) = sum_living_name ((ret * 2 + unsigned_char c) % 2 ^ 32) s

unfoldable pub hash_living_name : Chars → ℕ
hash_living_name s = sum_living_name 0 s % living_hash_size

-- The table, what it reads of the objects and sets there, and its counters
pub record Names : Type 0 where
  pub hashed_living : ℕ → List ℕ
  pub living_name : ℕ → Option Chars
  pub enable_commands : ℕ → Bool
  pub once_interactive : ℕ → Bool
  pub interactive : ℕ → Bool
  pub is_wizard : ℕ → Bool
  pub num_living_names : ℤ
  pub num_searches : ℕ
  pub search_length : ℕ

abbrev pub set_chain : Names → ℕ → List ℕ → Names
set_chain t h c = record t { hashed_living = λ i. if i == h then c else t.hashed_living i }

abbrev pub set_name : Names → ℕ → Option Chars → Names
set_name t ob n = record t { living_name = λ o. if o == ob then n else t.living_name o }

abbrev pub is_called : Chars → Option Chars → Bool
is_called s none = false
is_called s (some n) = str_eq n s

-- The tests of the search
unfoldable pub is_wanted : Names → Chars → Bool → ℕ → Bool
is_wanted t s player o =
    if player && not (t.once_interactive o)
    then false
    else if not (t.enable_commands o)
    then false
    else is_called s (t.living_name o)

abbrev pub move_first : Chars → Bool → Names → Option ℕ → Names
move_first s player t none = t
move_first s player t (some o) =
    let h = hash_living_name s in
    set_chain t h (o ∷ Chain.erase (is_wanted t s player) (t.hashed_living h))

-- What is found is moved to the head of its chain.
unfoldable pub find_living_object : Chars → Bool → Names → Option ℕ × Names
find_living_object s player t =
    let chain = t.hashed_living (hash_living_name s) in
    let found = Chain.find (is_wanted t s player) chain in
    let t' : Names = record t {
      num_searches = t.num_searches + 1;
      search_length = t.search_length + Chain.probes (is_wanted t s player) chain;
    } in
    (found, move_first s player t' found)

abbrev pub is_object : ℕ → ℕ → Bool
is_object ob o = o == ob

unfoldable pub unlink_living : ℕ → ℕ → Option ℕ → Names → Run Names
unlink_living ob h none t = fatal
unlink_living ob h (some o) t =
    ok (set_name (set_chain t h (Chain.erase (is_object ob) (t.hashed_living h))) ob none)

unfoldable pub remove_named : ℕ → Option Chars → Names → Run Names
remove_named ob none t = fatal
remove_named ob (some s) t =
    let h = hash_living_name s in
    unlink_living ob h (Chain.find (is_object ob) (t.hashed_living h)) t

unfoldable pub remove_living_name : ℕ → Names → Run Names
remove_living_name ob t =
    remove_named ob (t.living_name ob) (record t { num_living_names = t.num_living_names -ℤ pos 1 })

-- An old name is removed; the count is raised for an object without one.
unfoldable pub detach : ℕ → Option Chars → Names → Run Names
detach ob none t = ok (record t { num_living_names = t.num_living_names +ℤ pos 1 })
detach ob (some s) t = remove_living_name ob t

unfoldable pub link_living : ℕ → Chars → Names → Names
link_living ob s t =
    let h = hash_living_name s in set_name (set_chain t h (ob ∷ t.hashed_living h)) ob (some s)

-- `level` is the answer of query_level in the object, where `none` is the null pointer.
abbrev pub is_high : Option Value → Bool
is_high (some (number n)) = leb_ℤ (pos 21) n
is_high _ = false

unfoldable pub promote : ℕ → Option Value → Names → Names
promote ob level t =
    if t.interactive ob && is_high level
    then record t { is_wizard = λ o. if o == ob then true else t.is_wizard o }
    else t

unfoldable pub set_living_name : ℕ → Chars → Option Value → Names → Run Names
set_living_name ob s level t = do
  t' ← detach ob (t.living_name ob) t
  ok (promote ob level (link_living ob s t'))

-- All that a run computes with.
unfoldable pub program : Unit {0}
unfolding str_eq ◌+ℤ◌ ◌-ℤ◌ Chain.find Chain.erase Chain.probes sum_living_name hash_living_name
    is_wanted find_living_object unlink_living remove_named remove_living_name detach link_living
    promote set_living_name
program = tt
