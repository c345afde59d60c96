-- ===== src/Objects/Methods.antt =====
-- What entering and removing an object do to the object name table, on every branch.
use lpmud_ng.Base.{
  ℕ, ◌≡◌, ◌≢◌, ◌⊎◌, refl, ap, ◌∙◌, Option, none, some, ◌==◌, if◌then◌else◌, arith, inl, inr,
}
use lpmud_ng.Base.Chain
use lpmud_ng.Base.Run.{ok, fatal, ◌>>=◌, Returns}
use lpmud_ng.Base.Text.{Chars, str_eq, str_eq_refl, str_eq→eq}
use lpmud_ng.Hash.Table
use lpmud_ng.Hash.{obj_hash}
use lpmud_ng.Objects.{
  Object, ObjTable, is_named, link_head, unlink_head, enter_missing, enter_object_hash,
  remove_found, remove_object_hash, lookup_object_hash, count_lookup,
}
use lpmud_ng.Objects.Lookup.{
  name_of, home, IsIndexed, lookup, IsValid, ready-IsValid, find_obj_n_lem, lookup-Searched,
}

-- The table holds `v` at the name, and what it held at every other.
pub record Writes (s : Chars) (v : Option Object) (t u : ObjTable) : Type 0 where
  pub valid : IsValid u
  pub reads : (q : Chars) → lookup q u ≡ (if str_eq s q then v else lookup q t)

-- A name that is not in the table is entered: from then on its lookup gives the object.
pub enter_object_hash_lem :
    (ob : Object) (t : ObjTable)
    → IsIndexed ob.name
    → IsValid t
    → lookup ob.name t ≡ none
    → Returns (enter_object_hash ob t) (Writes ob.name (some ob) t)
unfolding enter_object_hash lookup enter_missing
enter_object_hash_lem ob t ix v miss =
    let (u, w, run, found, f) = lookup-Searched ob.name t none ix v miss in
    let x = link_head ob (home ob.name) w in
    let gone = f.reads ob.name ∙ miss in
    (
      x,
      rw (run, ◌>>=◌, found),
      record {
        valid = ready-IsValid x f.ready (
            Table.insert-IsPlaced name_of obj_hash ob.name w.buckets x.buckets ob f.valid.chains
              gone refl ix (λ i. refl));
        reads = λ q. ground (
          arith,
          Table.read-insert name_of obj_hash ob.name w.buckets x.buckets ob f.valid.chains gone refl
              ix (λ i. refl) q,
          f.reads q,
        );
      },
    )

-- In a valid table, entering an object whose name (with an index as its hash) is there already
-- aborts the driver, whichever object has it.
pub enter_object_hash_duplicate :
    (ob s : Object) (t : ObjTable)
    → IsIndexed ob.name
    → IsValid t
    → lookup ob.name t ≡ some s
    → enter_object_hash ob t ≡ fatal
unfolding enter_object_hash enter_missing
enter_object_hash_duplicate ob s t ix v hit =
    let (u, w, run, found, f) = lookup-Searched ob.name t (some s) ix v hit in
    rw (run, ◌>>=◌, found)

-- In a valid table, removing the object that stands there under its name (with an index as its
-- hash) returns, keeps the table valid, empties that name and changes no other lookup.
pub remove_object_hash_lem :
    (ob s : Object) (t : ObjTable)
    → IsIndexed ob.name
    → IsValid t
    → lookup ob.name t ≡ some s
    → s.addr ≡ ob.addr
    → Returns (remove_object_hash ob t) (Writes ob.name none t)
unfolding remove_object_hash lookup remove_found
remove_object_hash_lem ob s t ix v hit same =
    let (u, w, run, found, f) = lookup-Searched ob.name t (some s) ix v hit in
    let x = unlink_head (home ob.name) w in
    let here = f.reads ob.name ∙ hit in
    let cut : (i : ℕ)
        → x.buckets i ≡ (
            if i == home ob.name
            then Chain.erase (is_named ob.name) (w.buckets (home ob.name))
            else w.buckets i) =
      λ i. ground (arith, (f.front s hit).1, (f.front s hit).2) in
    (
      x,
      rw (run, ◌>>=◌, found) (ground arith),
      record {
        valid = ready-IsValid x f.ready (
            Table.remove-IsPlaced name_of obj_hash ob.name w.buckets x.buckets s f.valid.chains here
              cut);
        reads = λ q. ground (
          arith,
          Table.read-remove name_of obj_hash ob.name w.buckets x.buckets s f.valid.chains here cut
              q,
          f.reads q,
        );
      },
    )

-- In a valid table, removing an object whose name (with an index as its hash) is not there, or is
-- there of another object, aborts the driver.
pub remove_object_hash_fatal :
    (ob : Object) (t : ObjTable)
    → IsIndexed ob.name
    → IsValid t
    → ((lookup ob.name t ≡ none)
        ⊎ ((s : Object) × (lookup ob.name t ≡ some s) × (s.addr ≢ ob.addr)))
    → remove_object_hash ob t ≡ fatal
unfolding remove_object_hash remove_found
remove_object_hash_fatal ob t ix v (inl miss) =
    let (u, w, run, found, f) = lookup-Searched ob.name t none ix v miss in rw (run, ◌>>=◌, found)
remove_object_hash_fatal ob t ix v (inr (s, hit, other)) =
    let (u, w, run, found, f) = lookup-Searched ob.name t (some s) ix v hit in
    rw (run, ◌>>=◌, found) (ground arith)

-- In a valid table, an object whose name has an index as its hash and is not there can be entered,
-- is what the lookup of its name then returns, and can be removed, after which every lookup is as
-- before.
pub enter-lookup-remove :
    (ob : Object) (t : ObjTable)
    → IsIndexed ob.name
    → IsValid t
    → lookup ob.name t ≡ none
    → Returns (enter_object_hash ob t) λ u. Returns (lookup_object_hash ob.name u) λ r.
      (r.0 ≡ some ob)
      × Returns (remove_object_hash ob r.1) λ w. (q : Chars) → lookup q w ≡ lookup q t
unfolding lookup_object_hash lookup
enter-lookup-remove ob t ix v miss =
    let (u, run, w) = enter_object_hash_lem ob t ix v miss in
    let hit : lookup ob.name u ≡ some ob = ground (arith, w.reads ob.name, str_eq_refl ob.name) in
    let ((o, x), found, (same, f)) = find_obj_n_lem ob.name u ix w.valid in
    let y = (count_lookup (some ob, x)).1 in
    let here : lookup ob.name y ≡ some ob = f.reads ob.name ∙ hit in
    let (z, cut, g) =
      remove_object_hash_lem ob ob y ix (ready-IsValid y f.ready f.valid.chains) here refl in
    (
      u,
      run,
      (
        (some ob, y),
        rw (found ∙ ap (λ a. ok (a, x)) (same ∙ hit)),
        (refl, (z, cut, λ q. ground (arith, g.reads q, f.reads q, w.reads q, str_eq→eq ob.name q))),
      ),
    )
