-- ===== src/Hash/Table.antt =====
-- Chained hash tables by name, as stralloc.c and otable.c keep them: what a table holds, and how
-- the change of one chain shows.
use lpmud_ng.Base.{
  ℕ, ◌≤◌, ◌≡◌, sym, ap, subst, Bool, true, List, [], ◌∷◌, Option, none, some, ◌==◌, if◌then◌else◌,
  All, arith, inl, inr, Bool-cases, ==_iff,
}
use lpmud_ng.Base.Int.{ℤ, pos, pos_part}
use lpmud_ng.Base.Chain
use lpmud_ng.Base.Text.{Chars, str_eq, str_eq→eq}

-- Tables of entries with a name, placed by a hash of it.
module _ {ℓ} {A : Type ℓ} (key : A → Chars) (hash : Chars → ℤ) where
  abbrev pub has : Chars → A → Bool
  has s e = str_eq (key e) s

  -- The chain of a string whose hash is not negative.
  abbrev pub home : Chars → ℕ
  home s = pos_part (hash s)

  abbrev pub read : Chars → (ℕ → List A) → Option A
  read s b = Chain.find (has s) (b (home s))

  abbrev pub InChain : ℕ → List A → Type 0
  InChain i = All (λ e. hash (key e) ≡ pos i)

  -- Every entry stands in its chain, and no name twice.
  pub record IsPlaced (b : ℕ → List A) : Type 0 where
    pub once : (s : Chars) (i : ℕ) → Chain.count (has s) (b i) ≤ 1
    pub placed : (i : ℕ) → InChain i (b i)

  pub IsPlaced-empty : IsPlaced (λ _. [])
  unfolding Chain.count
  IsPlaced-empty = record { once = λ s i. omega arith; placed = λ i. tt }

  pub same-IsPlaced : (b b' : ℕ → List A) → ((i : ℕ) → b' i ≡ b i) → IsPlaced b → IsPlaced b'
  same-IsPlaced b b' same v = record {
    once = λ s i. rw (same i) (v.once s i);
    placed = λ i. rw (same i) (v.placed i);
  }

  home_congr : (s q : Chars) → str_eq s q ≡ true → home s ≡ home q
  home_congr s q e = ap (λ x. home x) (str_eq→eq s q e)

  key_of : (s : Chars) (xs : List A) (e : A) → Chain.find (has s) xs ≡ some e → key e ≡ s
  key_of s xs e hit = str_eq→eq (key e) s (Chain.find-passes (has s) xs e hit)

  -- Replacing the chain of `s` by one that reads `v` at `s` and is unchanged elsewhere.
  module _ (s : Chars) (b b' : ℕ → List A) (c : List A) (v : Option A) (valid : IsPlaced b)
      (written : (i : ℕ) → b' i ≡ (if i == home s then c else b i))
      (counts : (q : Chars) → Chain.count (has q) c ≤ 1) (places : InChain (home s) c)
      (reads : (q : Chars)
        → Chain.find (has q) c ≡ (if str_eq s q then v else Chain.find (has q) (b (home s)))) where
    pub write-IsPlaced : IsPlaced b'
    write-IsPlaced = record {
      once = λ q i. rw (written i) (ground (arith, counts q, valid.once q i));
      placed = λ i. rw (written i) (elim (Bool-cases (i == home s)) [
        | inl e ↦ rw e (subst (λ k. InChain k c) (sym ((==_iff i (home s)).0 e)) places)
        | inr e ↦ rw e (valid.placed i)
      ]);
    }

    pub read-write : (q : Chars) → read q b' ≡ (if str_eq s q then v else read q b)
    read-write q = rw (written (home q)) (ground (arith, reads q, home_congr s q))

  -- Putting a changed entry of `s` at the head of its chain.
  module _ (s : Chars) (b b' : ℕ → List A) (e e' : A) (valid : IsPlaced b) (hit : read s b ≡ some e)
      (same : key e' ≡ key e)
      (written : (i : ℕ)
        → b' i ≡ (if i == home s then e' ∷ Chain.erase (has s) (b (home s)) else b i)) where
    rest : List A
    rest = Chain.erase (has s) (b (home s))

    chain-once : (q : Chars) → Chain.count (has q) (e' ∷ rest) ≤ 1
    unfolding Chain.count rest
    chain-once q = ground (
      arith,
      Chain.count-erase (has s) (has q) (b (home s)) e hit,
      valid.once q (home s),
      ap (λ k. str_eq k q) same,
    )

    chain-placed : InChain (home s) (e' ∷ rest)
    unfolding rest
    chain-placed = (
      rw same (
          Chain.find-All (λ x. hash (key x) ≡ pos (home s)) (has s) (b (home s)) e
            (valid.placed (home s)) hit),
      Chain.erase-All (λ x. hash (key x) ≡ pos (home s)) (has s) (b (home s))
          (valid.placed (home s)),
    )

    chain_reads :
        (q : Chars)
        → Chain.find (has q) (e' ∷ rest)
          ≡ (if str_eq s q then some e' else Chain.find (has q) (b (home s)))
    unfolding Chain.find rest
    chain_reads q =
        rw (same, key_of s (b (home s)) e hit)
          (ground (
            arith,
            Chain.find-erase (has s) (has q) (b (home s)) e hit (valid.once q (home s)),
            key_of s (b (home s)) e hit,
          ))

    pub replace-IsPlaced : IsPlaced b'
    unfolding rest
    replace-IsPlaced =
        write-IsPlaced s b b' (e' ∷ rest) (some e') valid written chain-once chain-placed
          chain_reads

    pub read-replace : (q : Chars) → read q b' ≡ (if str_eq s q then some e' else read q b)
    unfolding rest
    read-replace =
        read-write s b b' (e' ∷ rest) (some e') valid written chain-once chain-placed chain_reads

  -- Putting a new entry of `s` at the head of its chain.
  module _ (s : Chars) (b b' : ℕ → List A) (e : A) (valid : IsPlaced b) (miss : read s b ≡ none)
      (named : key e ≡ s) (indexed : hash s ≡ pos (home s))
      (written : (i : ℕ) → b' i ≡ (if i == home s then e ∷ b (home s) else b i)) where
    new-once : (q : Chars) → Chain.count (has q) (e ∷ b (home s)) ≤ 1
    unfolding Chain.count
    new-once q = rw named (
        ground (
          arith,
          valid.once q (home s),
          str_eq→eq s q,
          Chain.count-eq-zero (has s) (b (home s)) miss,
        ))

    new_reads :
        (q : Chars)
        → Chain.find (has q) (e ∷ b (home s))
          ≡ (if str_eq s q then some e else Chain.find (has q) (b (home s)))
    unfolding Chain.find
    new_reads q = rw named

    pub insert-IsPlaced : IsPlaced b'
    insert-IsPlaced =
        write-IsPlaced s b b' (e ∷ b (home s)) (some e) valid written new-once
          (rw named indexed, valid.placed (home s)) new_reads

    pub read-insert : (q : Chars) → read q b' ≡ (if str_eq s q then some e else read q b)
    read-insert =
        read-write s b b' (e ∷ b (home s)) (some e) valid written new-once
          (rw named indexed, valid.placed (home s)) new_reads

  -- Unlinking the entry of `s`.
  module _ (s : Chars) (b b' : ℕ → List A) (e : A) (valid : IsPlaced b) (hit : read s b ≡ some e)
      (written : (i : ℕ)
        → b' i ≡ (if i == home s then Chain.erase (has s) (b (home s)) else b i)) where
    cut-once : (q : Chars) → Chain.count (has q) (Chain.erase (has s) (b (home s))) ≤ 1
    cut-once q =
        omega (arith, valid.once q (home s), Chain.count-erase (has s) (has q) (b (home s)) e hit)

    cut-placed : InChain (home s) (Chain.erase (has s) (b (home s)))
    cut-placed =
        Chain.erase-All (λ x. hash (key x) ≡ pos (home s)) (has s) (b (home s))
          (valid.placed (home s))

    cut_reads :
        (q : Chars)
        → Chain.find (has q) (Chain.erase (has s) (b (home s)))
          ≡ (if str_eq s q then none else Chain.find (has q) (b (home s)))
    cut_reads q = ground (
      arith,
      Chain.find-erase (has s) (has q) (b (home s)) e hit (valid.once q (home s)),
      key_of s (b (home s)) e hit,
    )

    pub remove-IsPlaced : IsPlaced b'
    remove-IsPlaced =
        write-IsPlaced s b b' (Chain.erase (has s) (b (home s))) none valid written cut-once
          cut-placed cut_reads

    pub read-remove : (q : Chars) → read q b' ≡ (if str_eq s q then none else read q b)
    read-remove =
        read-write s b b' (Chain.erase (has s) (b (home s))) none valid written cut-once cut-placed
          cut_reads
