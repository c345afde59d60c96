-- ===== src/Strings/Release.antt =====
-- What free_string does to the table of shared strings, on every branch.
use lpmud_ng.Base.{
  ℕ, ◌-◌, ◌^◌, ◌<◌, ◌≡◌, ◌≢◌, ◌⊎◌, refl, ap, ◌∙◌, true, ◌∷◌, Option, none, some, ltb, ◌==◌,
  if◌then◌else◌, arith, inl, inr, Bool-cases, ==_refl,
}
use lpmud_ng.Base.Int.{ℤ, pos, ◌-ℤ◌}
use lpmud_ng.Base.Run.{ok, fatal, ◌>>=◌, Returns}
use lpmud_ng.Base.Chain
use lpmud_ng.Base.Text.{Chars, str_eq, str_eq→eq}
use lpmud_ng.Hash.{str_hash}
use lpmud_ng.Strings.{
  Shared, Table, has, with_refs, release, release_found, free_string, is_saturated, is_dead,
  drop_reference, unlink_head, footprint,
}
use lpmud_ng.Hash.Table
use lpmud_ng.Strings.Lookup.{name_of, home, IsIndexed, lookup, IsValid, ready-IsValid}
use lpmud_ng.Strings.Methods.{Searched, findstring_lem, bucket_of-ready}

-- The entry after one reference less: a count above MAXSHORT sticks, and the last one frees.
abbrev pub released : Shared → Option Shared
released e =
    if is_saturated e.refs
    then some e
    else if ltb 0 (e.refs - 1)
    then some (with_refs e (e.refs - 1))
    else none

pub record Releases (s : Chars) (e : Shared) (t u : Table) : Type 0 where
  pub valid : IsValid u
  pub reads : (q : Chars) → lookup q u ≡ (if str_eq s q then released e else lookup q t)

module _ (a : ℕ) (s : Chars) (t u : Table) (e : Shared) (v : IsValid t) (hit : lookup s t ≡ some e)
    (w : Searched s t u) where
  at_head :
      (i : ℕ)
      → u.buckets i
        ≡ (if i == home s then e ∷ Chain.erase (has s) (t.buckets (home s)) else t.buckets i)
  at_head = w.front e hit

  unlink-Releases :
      (x : Table)
      → x.ready ≡ true
      → released e ≡ none
      → ((i : ℕ)
          → x.buckets i
            ≡ (if i == home s then Chain.erase (has s) (t.buckets (home s)) else t.buckets i))
      → Releases s e t x
  unfolding lookup
  unlink-Releases x r last w = record {
    valid =
        ready-IsValid x r
          (Table.remove-IsPlaced name_of str_hash s t.buckets x.buckets e v.chains hit w);
    reads =
        λ q. rw last (Table.read-remove name_of str_hash s t.buckets x.buckets e v.chains hit w q);
  }

  keep-Releases :
      (x : Table) (r : ℕ)
      → x.ready ≡ true
      → released e ≡ some (with_refs e r)
      → ((i : ℕ)
          → x.buckets i ≡ (
              if i == home s
              then with_refs e r ∷ Chain.erase (has s) (t.buckets (home s))
              else t.buckets i))
      → Releases s e t x
  unfolding lookup
  keep-Releases x r ready kept w =
      let e' = with_refs e r in
      record {
        valid = ready-IsValid x ready (
            Table.replace-IsPlaced name_of str_hash s t.buckets x.buckets e e' v.chains hit refl w);
        reads = λ q.
            rw kept (
              Table.read-replace name_of str_hash s t.buckets x.buckets e e' v.chains hit refl w q);
      }

  pub release_lem :
      e.addr ≡ a → 0 < e.refs → e.refs < 2 ^ 15 → Returns (release a e (home s) u) (Releases s e t)
  unfolding release
  release_lem same low high = elim (Bool-cases (is_saturated e.refs)) [
    | inl full ↦ (
      u,
      ground arith,
      record { valid = w.valid; reads = λ q. ground (arith, w.reads q, str_eq→eq s q) },
    )
    | inr room ↦ elim (Bool-cases (ltb 0 (e.refs - 1))) [
      | inl more ↦ (
        drop_reference e (home s) u,
        ground arith,
        keep-Releases (drop_reference e (home s) u) (e.refs - 1) w.ready (ground arith)
            (λ i. ground (arith, at_head i, at_head (home s), ==_refl (home s))),
      )
      | inr last ↦ (
        unlink_head e (home s) u,
        ground arith,
        unlink-Releases (unlink_head e (home s) u) w.ready (ground arith)
            (λ i. ground (arith, at_head i, at_head (home s), ==_refl (home s))),
      )
    ]
  ]

-- The table as `free_string` searches it, after its counters went down.
IsValid-counted :
    (t : Table) (m n : ℤ) → IsValid t → IsValid (record t { allocd_strings = m; allocd_bytes = n })
IsValid-counted t m n v = record { chains = v.chains; unborn = v.unborn }

module _ (a : ℕ) (s : Chars) (t : Table) (ix : IsIndexed s) (v : IsValid t) where
  -- What `free_string` comes to is what `release` makes of the searched table.
  free_string-release :
      (e : Shared)
      → lookup s t ≡ some e
      → (u : Table) × (free_string a s t ≡ release a e (home s) u) × Searched s t u
  unfolding free_string release_found lookup
  free_string-release e hit =
      let t' : Table = record t {
        allocd_strings = t.allocd_strings -ℤ pos 1;
        allocd_bytes = t.allocd_bytes -ℤ pos (footprint s);
      } in
      let ((o, u), run, (h, w)) = findstring_lem s t' ix (IsValid-counted t _ _ v) in
      (
        u,
        rw (run ∙ ap (λ x. ok (x, u)) (h ∙ hit), ◌>>=◌, bucket_of-ready s u ix w.ready),
        record {
          valid = w.valid;
          reads = w.reads;
          ready = w.ready;
          missing = w.missing;
          front = w.front;
        },
      )

  -- In a valid table, giving back a reference to a string that stands there at the address given
  -- with a positive count returns and keeps the table valid; a count above MAXSHORT sticks, one
  -- above 1 goes down, the last one removes the string, and no other lookup changes.
  pub free_string_lem :
      (e : Shared)
      → lookup s t ≡ some e
      → e.addr ≡ a
      → 0 < e.refs
      → e.refs < 2 ^ 15
      → Returns (free_string a s t) (Releases s e t)
  free_string_lem e hit same low high =
      let (u, run, w) = free_string-release e hit in
      rw run (release_lem a s t u e v hit w same low high)

  -- In a valid table, free_string of a string whose hash is an index aborts the driver if the
  -- string is not there, stands at another address, or has a count that is zero or negative.
  pub free_string_fatal :
      ((lookup s t ≡ none)
        ⊎ ((e : Shared) × (lookup s t ≡ some e) × ((e.addr ≢ a) ⊎ (is_dead e.refs ≡ true))))
      → free_string a s t ≡ fatal
  unfolding free_string release_found lookup release
  free_string_fatal (inl miss) =
      let t' : Table = record t {
        allocd_strings = t.allocd_strings -ℤ pos 1;
        allocd_bytes = t.allocd_bytes -ℤ pos (footprint s);
      } in
      let ((o, u), run, (h, w)) = findstring_lem s t' ix (IsValid-counted t _ _ v) in
      rw (run ∙ ap (λ x. ok (x, u)) (h ∙ miss), ◌>>=◌)
  free_string_fatal (inr (e, hit, bad)) =
      let (u, run, w) = free_string-release e hit in run ∙ ground arith
