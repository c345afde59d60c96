-- ===== src/Strings.antt =====
-- The shared strings of stralloc.c: a hash table of reference-counted strings.
-- A chain is a list, head first. `refs` is the bit pattern of a 16-bit `short`; the counters are
-- taken as unbounded; BUG_FREE and dcheck are not defined.
pub mod Lookup
pub mod Methods
pub mod Release
pub mod Sharing
mod Tests
use lpmud_ng.Base.{
  ℕ, zero, suc, ◌+◌, ◌-◌, ◌*◌, ◌/◌, ◌%◌, ◌^◌, Bool, true, false, not, ◌&&◌, ◌||◌, List, [], ◌∷◌,
  Option, none, some, ltb, leb, ◌==◌, if◌then◌else◌, length,
}
use lpmud_ng.Base.Int.{ℤ, pos, ◌+ℤ◌, ◌-ℤ◌}
use lpmud_ng.Base.Run.{Run, ok, fatal, ◌>>=◌}
use lpmud_ng.Base.Chain
use lpmud_ng.Base.Text.{Chars, str_eq}
use lpmud_ng.Hash.{str_hash, slot, htable_size}

-- A string with its header: where it stands, its bytes, and its reference count.
pub record Shared : Type 0 where
  pub addr : ℕ
  pub chars : Chars
  pub refs : ℕ

-- The file's static variables. `ready` says that `base_table` is not null.
pub record Table : Type 0 where
  pub ready : Bool
  pub buckets : ℕ → List Shared
  pub distinct : ℤ
  pub bytes : ℤ
  pub allocd_strings : ℤ
  pub allocd_bytes : ℤ
  pub overhead : ℤ
  pub search_len : ℕ
  pub searches : ℕ

abbrev pub start : Table
start = record {
  ready = false;
  buckets = λ _. [];
  distinct = pos 0;
  bytes = pos 0;
  allocd_strings = pos 0;
  allocd_bytes = pos 0;
  overhead = pos 0;
  search_len = 0;
  searches = 0;
}

abbrev pub max_short : ℕ
max_short = 2 ^ 14

-- `sizeof (struct shared_string_hdr)` and `sizeof (char *)` on a 64-bit platform
abbrev pub hdr_size : ℕ
hdr_size = 16

abbrev pub ptr_size : ℕ
ptr_size = 8

-- `refs > MAXSHORT`, `refs <= 0` and `refs++` on a `short`
abbrev pub is_saturated : ℕ → Bool
is_saturated r = ltb max_short r && ltb r (2 ^ 15)

abbrev pub is_dead : ℕ → Bool
is_dead r = r == 0 || leb (2 ^ 15) r

abbrev pub inc_short : ℕ → ℕ
inc_short r = (r + 1) % 2 ^ 16

-- `4 + (strlen(s) + 3) & ~3`, where `+` binds tighter than `&`
abbrev pub footprint : Chars → ℕ
footprint s = (4 + (length s + 3)) / 4 * 4

abbrev pub has : Chars → Shared → Bool
has s e = str_eq e.chars s

abbrev pub with_refs : Shared → ℕ → Shared
with_refs e r = record e { refs = r }

abbrev pub set_bucket : Table → ℕ → List Shared → Table
set_bucket t h c = record t { buckets = λ i. if i == h then c else t.buckets i }

unfoldable pub init_strings : Table → Table
init_strings t = record t {
  ready = true;
  buckets = λ _. [];
  overhead = t.overhead +ℤ pos (ptr_size * htable_size);
}

-- `StrHash`: the table is made at the first call.
unfoldable pub bucket_of : Chars → Table → Run (ℕ × Table)
bucket_of s t = do h ← slot (str_hash s); ok (h, (if t.ready then t else init_strings t))

-- What is found is moved to the head of its chain.
unfoldable pub search_bucket : Chars → ℕ → Table → Option Shared × Table
search_bucket s h t =
    let chain = t.buckets h in
    let t' : Table = record t {
      searches = t.searches + 1;
      search_len = t.search_len + Chain.probes (has s) chain;
    } in
    elim (Chain.find (has s) chain) [
      | none ↦ (none, t')
      | some e ↦ (some e, set_bucket t' h (e ∷ Chain.erase (has s) chain))
    ]

unfoldable pub findstring : Chars → Table → Run (Option Shared × Table)
findstring s t = do (h, t') ← bucket_of s t; ok (search_bucket s h t')

-- The new string at `p`, where the allocator put it, becomes the head of its chain.
unfoldable pub link_new : ℕ → Chars → ℕ → Table → Shared × Table
link_new p s h t =
    let e : Shared = record { addr = p; chars = s; refs = 0 } in
    (
      e,
      record (set_bucket t h (e ∷ t.buckets h)) {
        distinct = t.distinct +ℤ pos 1;
        bytes = t.bytes +ℤ pos (footprint s);
        overhead = t.overhead +ℤ pos hdr_size;
      },
    )

unfoldable pub alloc_new_string : ℕ → Chars → Table → Run (Shared × Table)
alloc_new_string p s t = do (h, t') ← bucket_of s t; ok (link_new p s h t')

-- The write `REFS(s) = r`, to the string that stands at the head of its chain.
abbrev pub set_head_refs : ℕ → List Shared → List Shared
set_head_refs r [] = []
set_head_refs r (e ∷ c) = with_refs e r ∷ c

unfoldable pub find_or_alloc : ℕ → Chars → Option Shared × Table → Run (Shared × Table)
find_or_alloc p s (none, t) = alloc_new_string p s t
find_or_alloc p s (some e, t) = ok (e, t)

-- `REFS(s)++`, the counters, and `return(s)`
unfoldable pub add_reference : Chars → Shared → ℕ → Table → ℕ × Table
add_reference s e h t = (
  e.addr,
  record (set_bucket t h (set_head_refs (inc_short e.refs) (t.buckets h))) {
    allocd_strings = t.allocd_strings +ℤ pos 1;
    allocd_bytes = t.allocd_bytes +ℤ pos (footprint s);
  },
)

unfoldable pub make_shared_string : ℕ → Chars → Table → Run (ℕ × Table)
make_shared_string p s t = do
  found ← findstring s t
  (e, t') ← find_or_alloc p s found
  (h, t'') ← bucket_of s t'
  ok (add_reference s e h t'')

abbrev pub tail : List Shared → List Shared
tail [] = []
tail (e ∷ c) = c

-- `REFS(s)--` where references are left
abbrev pub drop_reference : Shared → ℕ → Table → Table
drop_reference e h t = set_bucket t h (set_head_refs (e.refs - 1) (t.buckets h))

-- The last reference is gone: the head of the chain is unlinked and freed.
abbrev pub unlink_head : Shared → ℕ → Table → Table
unlink_head e h t = record (set_bucket t h (tail (t.buckets h))) {
  distinct = t.distinct -ℤ pos 1;
  bytes = t.bytes -ℤ pos (footprint e.chars);
  overhead = t.overhead -ℤ pos hdr_size;
}

-- The part of `free_string` behind the search: the entry `e` heads the chain `h`.
unfoldable pub release : ℕ → Shared → ℕ → Table → Run Table
release a e h t =
    if not (e.addr == a)
    then fatal
    else if is_saturated e.refs
    then ok t
    else if is_dead e.refs
    then fatal
    else if ltb 0 (e.refs - 1)
    then ok (drop_reference e h t)
    else ok (unlink_head e h t)

unfoldable pub release_found : ℕ → Chars → Option Shared × Table → Run Table
release_found a s (none, t) = fatal
release_found a s (some e, t) = do (h, t') ← bucket_of s t; release a e h t'

-- `free_string(str)`: `a` is the pointer, and `s` the bytes that it points to.
unfoldable pub free_string : ℕ → Chars → Table → Run Table
free_string a s t = do
  let t' : Table = record t {
    allocd_strings = t.allocd_strings -ℤ pos 1;
    allocd_bytes = t.allocd_bytes -ℤ pos (footprint s);
  }
  found ← findstring s t'
  release_found a s found

-- All that a run of the table computes with.
unfoldable pub program : Unit {0}
unfolding str_eq str_hash slot Chain.find Chain.erase Chain.probes init_strings bucket_of
    search_bucket findstring link_new alloc_new_string find_or_alloc add_reference
    make_shared_string release release_found free_string ◌+ℤ◌ ◌-ℤ◌
program = tt
