-- ===== src/Objects.antt =====
-- The object name table of otable.c. A chain is the list of its objects, head first; an object is
-- its address with its name. `obj_table` is made at the first call of `ObjHash`.
pub mod Lookup
pub mod Methods
mod Tests
use lpmud_ng.Base.{
  ℕ, ◌+◌, ◌-◌, Bool, true, false, List, [], ◌∷◌, Option, none, some, ◌==◌, if◌then◌else◌,
}
use lpmud_ng.Base.Chain
use lpmud_ng.Base.Int.{ℤ, pos, ◌+ℤ◌, ◌-ℤ◌}
use lpmud_ng.Base.Run.{Run, ok, fatal, ◌>>=◌}
use lpmud_ng.Base.Text.{Chars, str_eq}
use lpmud_ng.Hash.{obj_hash, slot}

pub record Object : Type 0 where
  pub addr : ℕ
  pub name : Chars

-- The file's static variables. `ready` says that `obj_table` is not null.
pub record ObjTable : Type 0 where
  pub ready : Bool
  pub buckets : ℕ → List Object
  pub searches : ℕ
  pub probes : ℕ
  pub found : ℕ
  pub in_table : ℤ
  pub lookups : ℕ
  pub lookups_found : ℕ

abbrev pub start : ObjTable
start = record {
  ready = false;
  buckets = λ _. [];
  searches = 0;
  probes = 0;
  found = 0;
  in_table = pos 0;
  lookups = 0;
  lookups_found = 0;
}

abbrev pub is_named : Chars → Object → Bool
is_named s ob = str_eq ob.name s

abbrev pub set_bucket : ObjTable → ℕ → List Object → ObjTable
set_bucket t h c = record t { buckets = λ i. if i == h then c else t.buckets i }

unfoldable pub init_otable : ObjTable → ObjTable
init_otable t = record t { ready = true; buckets = λ _. [] }

-- `ObjHash`, with the access to the table at what it returns
unfoldable pub bucket_of : Chars → ObjTable → Run (ℕ × ObjTable)
bucket_of s t = do h ← slot (obj_hash s); ok (h, (if t.ready then t else init_otable t))

-- What is found is moved to the head of its chain.
unfoldable pub search_bucket : Chars → ℕ → ObjTable → Option Object × ObjTable
search_bucket s h t =
    let chain = t.buckets h in
    let t' : ObjTable = record t {
      searches = t.searches + 1;
      probes = t.probes + Chain.probes (is_named s) chain;
    } in
    elim (Chain.find (is_named s) chain) [
      | none ↦ (none, t')
      | some ob ↦ (
        some ob,
        record (set_bucket t' h (ob ∷ Chain.erase (is_named s) chain)) { found = t.found + 1 },
      )
    ]

unfoldable pub find_obj_n : Chars → ObjTable → Run (Option Object × ObjTable)
find_obj_n s t = do (h, t') ← bucket_of s t; ok (search_bucket s h t')

abbrev pub link_head : Object → ℕ → ObjTable → ObjTable
link_head ob h t = record (set_bucket t h (ob ∷ t.buckets h)) { in_table = t.in_table +ℤ pos 1 }

-- A name that is in the table, of this object or of another, is fatal.
unfoldable pub enter_missing : Object → ℕ → Option Object × ObjTable → Run ObjTable
enter_missing ob h (some s, t) = fatal
enter_missing ob h (none, t) = ok (link_head ob h t)

unfoldable pub enter_object_hash : Object → ObjTable → Run ObjTable
enter_object_hash ob t = do
  (h, t') ← bucket_of ob.name t
  s ← find_obj_n ob.name t'
  enter_missing ob h s

abbrev pub tail : List Object → List Object
tail [] = []
tail (ob ∷ c) = c

abbrev pub unlink_head : ℕ → ObjTable → ObjTable
unlink_head h t = record (set_bucket t h (tail (t.buckets h))) { in_table = t.in_table -ℤ pos 1 }

-- What was found must be the object; it heads its chain, and `ob->next_hash` is the rest of it.
unfoldable pub remove_found : Object → ℕ → Option Object × ObjTable → Run ObjTable
remove_found ob h (none, t) = fatal
remove_found ob h (some s, t) = if s.addr == ob.addr then ok (unlink_head h t) else fatal

unfoldable pub remove_object_hash : Object → ObjTable → Run ObjTable
remove_object_hash ob t = do
  (h, t') ← bucket_of ob.name t
  s ← find_obj_n ob.name t'
  remove_found ob h s

abbrev pub count_lookup : Option Object × ObjTable → Option Object × ObjTable
count_lookup (none, t) = (none, record t { lookups = t.lookups + 1 })
count_lookup (some ob, t) =
    (some ob, record t { lookups = t.lookups + 1; lookups_found = t.lookups_found + 1 })

unfoldable pub lookup_object_hash : Chars → ObjTable → Run (Option Object × ObjTable)
lookup_object_hash s t = do r ← find_obj_n s t; ok (count_lookup r)

-- All that a run of the table computes with.
unfoldable pub program : Unit {0}
unfolding str_eq obj_hash slot Chain.find Chain.erase Chain.probes init_otable bucket_of
    search_bucket find_obj_n enter_missing enter_object_hash remove_found remove_object_hash
    lookup_object_hash ◌+ℤ◌ ◌-ℤ◌
program = tt
