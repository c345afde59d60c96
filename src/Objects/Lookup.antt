-- ===== src/Objects/Lookup.antt =====
-- What the object name table holds, and a search of it.
use lpmud_ng.Base.{
  ℕ, ◌≡◌, refl, sym, ap, ◌∙◌, true, false, List, [], ◌∷◌, Option, some, ◌==◌, if◌then◌else◌, arith,
  inl, inr, Bool-cases, Option-cases, ==_refl,
}
use lpmud_ng.Base.Chain
use lpmud_ng.Base.Int.{pos}
use lpmud_ng.Base.Run.{ok, Returns}
use lpmud_ng.Base.Text.{Chars, str_eq→eq}
use lpmud_ng.Hash.Table
use lpmud_ng.Hash.Table.{IsPlaced}
use lpmud_ng.Hash.{obj_hash, slot}
use lpmud_ng.Objects.{
  Object, ObjTable, start, is_named, init_otable, bucket_of, search_bucket, find_obj_n,
}

abbrev pub name_of : Object → Chars
name_of ob = ob.name

abbrev pub home : Chars → ℕ
home = Table.home name_of obj_hash

-- The hash of the name is an index of the table.
abbrev pub IsIndexed : Chars → Type 0
IsIndexed s = obj_hash s ≡ pos (home s)

unfoldable pub lookup : Chars → ObjTable → Option Object
lookup s t = Table.read name_of obj_hash s t.buckets

-- Every object stands in the chain of its name, no name twice.
pub record IsValid (t : ObjTable) : Type 0 where
  pub chains : IsPlaced name_of obj_hash t.buckets
  pub unborn : t.ready ≡ false → (i : ℕ) → t.buckets i ≡ []

pub start-IsValid : IsValid start
start-IsValid = record { chains = Table.IsPlaced-empty name_of obj_hash; unborn = λ _ i. refl }

pub ready-IsValid :
    (u : ObjTable) → u.ready ≡ true → IsPlaced name_of obj_hash u.buckets → IsValid u
ready-IsValid u r p = record { chains = p; unborn = λ e. cc }

-- The first step of every operation finds the chain and changes none.
pub bucket_of-home :
    (s : Chars) (t : ObjTable)
    → IsIndexed s
    → IsValid t
    → (u : ObjTable) × (bucket_of s t ≡ ok (home s, u))
      × ((i : ℕ) → u.buckets i ≡ t.buckets i)
      × (u.ready ≡ true)
      × IsValid u
unfolding bucket_of slot init_otable
bucket_of-home s t e v = elim (Bool-cases t.ready) [
  | inl r ↦ (t, rw (e, r), (λ i. refl), r, v)
  | inr r ↦ (
    init_otable t,
    rw (e, r),
    (λ i. sym (v.unborn r i)),
    refl,
    ready-IsValid (init_otable t) refl (Table.IsPlaced-empty name_of obj_hash),
  )
]

-- The table after a search: the same objects, and what was found at the head of its chain.
pub record Searched (s : Chars) (t u : ObjTable) : Type 0 where
  pub valid : IsValid u
  pub reads : (q : Chars) → lookup q u ≡ lookup q t
  pub ready : u.ready ≡ true
  pub front :
      (e : Object)
      → lookup s t ≡ some e
      → (rest : List Object) × (u.buckets (home s) ≡ e ∷ rest)
        × (Chain.erase (is_named s) (u.buckets (home s)) ≡ rest)

search_bucket_lem :
    (s : Chars) (t : ObjTable)
    → IsValid t
    → t.ready ≡ true
    → ((search_bucket s (home s) t).0 ≡ lookup s t) × Searched s t (search_bucket s (home s) t).1
unfolding lookup search_bucket Chain.erase
search_bucket_lem s t v r = elim (Option-cases (Table.read name_of obj_hash s t.buckets)) [
  | inl e ↦
      rw (e, search_bucket)
        (
          refl,
          record {
            valid = ready-IsValid _ r v.chains;
            reads = λ q. refl;
            ready = r;
            front = λ ob h. cc;
          },
        )
  | inr (x, e) ↦
      let rest = Chain.erase (is_named s) (t.buckets (home s)) in
      let b : ℕ → List Object = λ i. if i == home s then x ∷ rest else t.buckets i in
      rw (e, search_bucket)
        (
          refl,
          record {
            valid = ready-IsValid _ r (
                Table.replace-IsPlaced name_of obj_hash s t.buckets b x x v.chains e refl
                  (λ i. refl));
            reads = λ q. ground (
              arith,
              Table.read-replace name_of obj_hash s t.buckets b x x v.chains e refl (λ i. refl) q,
              str_eq→eq s q,
            );
            ready = r;
            front = λ ob h.
                ground (
                  arith,
                  ==_refl (home s),
                  Chain.find-passes (is_named s) (t.buckets (home s)) x e,
                );
          },
        )
]

-- `find_obj_n` returns the object of that name, or null; moving it to the head of its chain changes
-- no later search.
pub find_obj_n_lem :
    (s : Chars) (t : ObjTable)
    → IsIndexed s
    → IsValid t
    → Returns (find_obj_n s t) λ r. (r.0 ≡ lookup s t) × Searched s t r.1
unfolding find_obj_n lookup
find_obj_n_lem s t ix v =
    let (u, run, same, r, v') = bucket_of-home s t ix v in
    let (hit, w) = search_bucket_lem s u v' r in
    let at : (q : Chars) → lookup q u ≡ lookup q t = λ q. rw (same (home q)) in
    (
      search_bucket s (home s) u,
      rw run,
      (
        hit ∙ at s,
        record {
          valid = w.valid;
          reads = λ q. w.reads q ∙ at q;
          ready = w.ready;
          front = λ e h. w.front e (at s ∙ h);
        },
      ),
    )

-- The two steps with which an object is entered and removed.
pub lookup-Searched :
    (s : Chars) (t : ObjTable) (o : Option Object)
    → IsIndexed s
    → IsValid t
    → lookup s t ≡ o
    → (u w : ObjTable) × (bucket_of s t ≡ ok (home s, u))
      × (find_obj_n s u ≡ ok (o, w))
      × Searched s t w
unfolding lookup
lookup-Searched s t o ix v hit =
    let (u, run, same, r, v') = bucket_of-home s t ix v in
    let at : (q : Chars) → lookup q u ≡ lookup q t = λ q. rw (same (home q)) in
    let ((o', w), found, (hit', f)) = find_obj_n_lem s u ix v' in
    (
      u,
      w,
      run,
      found ∙ ap (λ x. ok (x, w)) (hit' ∙ at s ∙ hit),
      record {
        valid = f.valid;
        reads = λ q. f.reads q ∙ at q;
        ready = f.ready;
        front = λ e h. f.front e (at s ∙ h);
      },
    )
