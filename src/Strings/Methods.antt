-- ===== src/Strings/Methods.antt =====
-- What make_shared_string and free_string do to the table of shared strings.
use lpmud_ng.Base.{
  ℕ, ◌≡◌, refl, ap, ◌∙◌, true, ◌∷◌, Option, none, some, ◌==◌, if◌then◌else◌, arith, inl, inr,
  Option-cases, ==_refl,
}
use lpmud_ng.Base.Run.{ok, ◌>>=◌, Returns}
use lpmud_ng.Base.Chain
use lpmud_ng.Base.Text.{Chars, str_eq, str_eq→eq}
use lpmud_ng.Hash.{str_hash, slot}
use lpmud_ng.Strings.{
  Shared, Table, has, with_refs, bucket_of, search_bucket, findstring, alloc_new_string,
  find_or_alloc, link_new, add_reference, make_shared_string, inc_short,
}
use lpmud_ng.Hash.Table
use lpmud_ng.Strings.Lookup.{
  name_of, home, IsIndexed, lookup, IsValid, SameChains, ready-IsValid, SameChains-IsValid,
  bucket_of-home,
}

pub bucket_of-ready :
    (s : Chars) (t : Table) → IsIndexed s → t.ready ≡ true → bucket_of s t ≡ ok (home s, t)
unfolding bucket_of slot
bucket_of-ready s t e r = rw (e, r)

-- The table after a search: the same strings, and what was found at the head of its chain.
pub record Searched (s : Chars) (t u : Table) : Type 0 where
  pub valid : IsValid u
  pub reads : (q : Chars) → lookup q u ≡ lookup q t
  pub ready : u.ready ≡ true
  pub missing : lookup s t ≡ none → SameChains t u
  pub front :
      (e : Shared)
      → lookup s t ≡ some e
      → (i : ℕ)
      → u.buckets i
        ≡ (if i == home s then e ∷ Chain.erase (has s) (t.buckets (home s)) else t.buckets i)

lookup-same : (t u : Table) → SameChains t u → (q : Chars) → lookup q u ≡ lookup q t
unfolding lookup
lookup-same t u same q = rw (same (home q))

moved-Searched :
    (s : Chars) (t u : Table) (e : Shared)
    → IsValid t
    → lookup s t ≡ some e
    → u.ready ≡ true
    → ((i : ℕ)
        → u.buckets i
          ≡ (if i == home s then e ∷ Chain.erase (has s) (t.buckets (home s)) else t.buckets i))
    → Searched s t u
unfolding lookup
moved-Searched s t u e v hit r w = record {
  valid =
      ready-IsValid u r
        (Table.replace-IsPlaced name_of str_hash s t.buckets u.buckets e e v.chains hit refl w);
  reads = λ q. ground (
    arith,
    Table.read-replace name_of str_hash s t.buckets u.buckets e e v.chains hit refl w q,
    str_eq→eq s q,
  );
  ready = r;
  missing = λ m. cc;
  front = λ e' h i. ground (arith, w i);
}

search_bucket_lem :
    (s : Chars) (t : Table)
    → IsValid t
    → t.ready ≡ true
    → ((search_bucket s (home s) t).0 ≡ lookup s t) × Searched s t (search_bucket s (home s) t).1
unfolding lookup search_bucket
search_bucket_lem s t v r = elim (Option-cases (lookup s t)) [
  | inl e ↦
      rw (e, search_bucket)
        (
          refl,
          record {
            valid = SameChains-IsValid t _ (λ i. refl) r v;
            reads = λ q. refl;
            ready = r;
            missing = λ _ i. refl;
            front = λ e' h. cc;
          },
        )
  | inr (x, e) ↦ rw (e, search_bucket) (refl, moved-Searched s t _ x v e r (λ i. refl))
]

-- `findstring` returns what the table holds for the string; moving it to the head of its chain
-- changes no later search.
pub findstring_lem :
    (s : Chars) (t : Table)
    → IsIndexed s
    → IsValid t
    → Returns (findstring s t) λ r. (r.0 ≡ lookup s t) × Searched s t r.1
unfolding findstring search_bucket lookup
findstring_lem s t ix v =
    let (u, run, same, r) = bucket_of-home s t ix v in
    let v' = SameChains-IsValid t u same r v in
    let (hit, w) = search_bucket_lem s u v' r in
    let at = lookup-same t u same in
    (
      search_bucket s (home s) u,
      rw run,
      (
        hit ∙ at s,
        record {
          valid = w.valid;
          reads = λ q. w.reads q ∙ at q;
          ready = w.ready;
          missing = λ m i. w.missing (at s ∙ m) i ∙ same i;
          front = λ e h i. ground (arith, w.front e (at s ∙ h) i, same i, same (home s));
        },
      ),
    )

-- The entry of a string after one more reference to it, with `p` as the address of a new one.
abbrev pub acquired : ℕ → Chars → Option Shared → Shared
acquired p s none = record { addr = p; chars = s; refs = inc_short 0 }
acquired p s (some e) = with_refs e (inc_short e.refs)

pub record Acquires (p : ℕ) (s : Chars) (t : Table) (r : ℕ × Table) : Type 0 where
  pub valid : IsValid r.1
  pub returns : r.0 ≡ (acquired p s (lookup s t)).addr
  pub reads :
      (q : Chars)
      → lookup q r.1 ≡ (if str_eq s q then some (acquired p s (lookup s t)) else lookup q t)

-- A new string is put at the head of its chain.
insert-Acquires :
    (p : ℕ) (s : Chars) (t u : Table)
    → IsIndexed s
    → IsValid t
    → lookup s t ≡ none
    → u.ready ≡ true
    → ((i : ℕ)
        → u.buckets i
          ≡ (if i == home s then acquired p s none ∷ t.buckets (home s) else t.buckets i))
    → Acquires p s t (p, u)
unfolding lookup
insert-Acquires p s t u ix v miss r w =
    let e = acquired p s none in
    record {
      valid =
          ready-IsValid u r (
            Table.insert-IsPlaced name_of str_hash s t.buckets u.buckets e v.chains miss refl ix w);
      returns = rw miss;
      reads = λ q.
          rw miss
            (Table.read-insert name_of str_hash s t.buckets u.buckets e v.chains miss refl ix w q);
    }

make_shared_string_hit :
    (p : ℕ) (s : Chars) (t u : Table) (e : Shared)
    → IsIndexed s
    → IsValid t
    → lookup s t ≡ some e
    → findstring s t ≡ ok (some e, u)
    → Searched s t u
    → Returns (make_shared_string p s t) (Acquires p s t)
unfolding make_shared_string find_or_alloc alloc_new_string link_new add_reference lookup
make_shared_string_hit p s t u e ix v hit run w =
    let e' = with_refs e (inc_short e.refs) in
    let u' = (add_reference s e (home s) u).1 in
    let written : (i : ℕ)
        → u'.buckets i
          ≡ (if i == home s then e' ∷ Chain.erase (has s) (t.buckets (home s)) else t.buckets i) =
      λ i. ground (arith, w.front e hit i, w.front e hit (home s), ==_refl (home s)) in
    (
      add_reference s e (home s) u,
      rw (run, bucket_of-ready s u ix w.ready),
      record {
        valid = ready-IsValid u' w.ready (
            Table.replace-IsPlaced name_of str_hash s t.buckets u'.buckets e e' v.chains hit refl
              written);
        returns = rw hit;
        reads = λ q. rw hit (
            Table.read-replace name_of str_hash s t.buckets u'.buckets e e' v.chains hit refl
              written q);
      },
    )

make_shared_string_miss :
    (p : ℕ) (s : Chars) (t u : Table)
    → IsIndexed s
    → IsValid t
    → lookup s t ≡ none
    → findstring s t ≡ ok (none, u)
    → Searched s t u
    → Returns (make_shared_string p s t) (Acquires p s t)
unfolding make_shared_string find_or_alloc alloc_new_string link_new add_reference lookup
make_shared_string_miss p s t u ix v miss run w =
    let (e, t') = link_new p s (home s) u in
    (
      add_reference s e (home s) t',
      rw (run, ◌>>=◌, bucket_of-ready s u ix w.ready) (rw (bucket_of-ready s t' ix w.ready)),
      insert-Acquires p s t (add_reference s e (home s) t').1 ix v miss w.ready
          (λ i. ground (arith, w.missing miss i, w.missing miss (home s), ==_refl (home s))),
    )

-- In a valid table, for a string whose hash is an index, make_shared_string returns and keeps the
-- table valid; its result is the address of the string's entry, whose count is one higher (a new
-- entry at the allocator's address has one reference), and no other lookup changes.
pub make_shared_string_lem :
    (p : ℕ) (s : Chars) (t : Table)
    → IsIndexed s
    → IsValid t
    → Returns (make_shared_string p s t) (Acquires p s t)
make_shared_string_lem p s t ix v =
    let ((o, u), run, (hit, w)) = findstring_lem s t ix v in
    elim (Option-cases (lookup s t)) [
      | inl e ↦ make_shared_string_miss p s t u ix v e (run ∙ ap (λ a. ok (a, u)) (hit ∙ e)) w
      | inr (x, e) ↦ make_shared_string_hit p s t u x ix v e (run ∙ ap (λ a. ok (a, u)) (hit ∙ e)) w
    ]
