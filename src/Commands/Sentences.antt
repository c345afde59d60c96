-- ===== src/Commands/Sentences.antt =====
-- The sentences of all players together: each stands in one chain, and the free ones have no verb.
use lpmud_ng.Base.{
  ℕ, ◌≤◌, ◌≡◌, ◌≢◌, refl, sym, ap, ◌∙◌, subst, true, false, ◌==◌, not, ◌||◌, ◌&&◌, if◌then◌else◌,
  Bool-cases, inl, inr, none, some, List, [], ◌∷◌, length, mem, IsDistinct, arith,
}
use lpmud_ng.Commands.{World, put, head, remove_sent}
use lpmud_ng.Commands.Links.{Leads, Leads-same, kept, gone}
use lpmud_ng.Commands.Pool.{Removed, remove_at_lem}

-- `chain o` are the sentences of `o`.
pub record IsPool (chain : ℕ → List ℕ) (free : List ℕ) (w : World) : Type 0 where
  pub leads : (o : ℕ) → Leads w.next (w.sent o) (chain o)
  pub unused : Leads w.next w.sent_free free
  pub distinct : (o : ℕ) → IsDistinct (chain o)
  pub distinct_free : IsDistinct free
  pub apart : (o p q : ℕ) → o ≢ p → mem q (chain o) ≡ true → mem q (chain p) ≡ false
  pub apart_free : (o q : ℕ) → mem q (chain o) ≡ true → mem q free ≡ false
  pub blank : (q : ℕ) → mem q free ≡ true → w.verb q ≡ none

pub mem-kept :
    (g : ℕ → ℕ) (ob q : ℕ) (l : List ℕ) → mem q (kept g ob l) ≡ (mem q l && not (g q == ob))
mem-kept g ob q [] = refl
mem-kept g ob q (x ∷ l) = ground (arith, mem-kept g ob q l)

mem-gone :
    (g : ℕ → ℕ) (ob q : ℕ) (l f : List ℕ)
    → mem q (gone g ob l f) ≡ (mem q l && g q == ob || mem q f)
mem-gone g ob q [] f = refl
mem-gone g ob q (x ∷ l) f = mem-gone g ob q l (if g x == ob then x ∷ f else f) ∙ ground arith

kept-IsDistinct : (g : ℕ → ℕ) (ob : ℕ) (l : List ℕ) → IsDistinct l → IsDistinct (kept g ob l)
kept-IsDistinct g ob [] h = tt
kept-IsDistinct g ob (x ∷ l) h = elim (Bool-cases (g x == ob)) [
  | inl e ↦ rw e (kept-IsDistinct g ob l h.1)
  | inr e ↦ rw e (ground (arith, h.0, mem-kept g ob x l), kept-IsDistinct g ob l h.1)
]

gone-IsDistinct :
    (g : ℕ → ℕ) (ob : ℕ) (l f : List ℕ)
    → IsDistinct l
    → IsDistinct f
    → ((q : ℕ) → mem q l ≡ true → mem q f ≡ false)
    → IsDistinct (gone g ob l f)
gone-IsDistinct g ob [] f h d a = d
gone-IsDistinct g ob (x ∷ l) f h d a = elim (Bool-cases (g x == ob)) [
  | inl e ↦ rw e (
      gone-IsDistinct g ob l (x ∷ f) h.1 (a x (ground arith), d)
        (λ q m. ground (arith, m, h.0, a q)))
  | inr e ↦ rw e (gone-IsDistinct g ob l f h.1 d (λ q m. a q (ground (arith, m))))
]

module _ (ob player : ℕ) (chain : ℕ → List ℕ) (free : List ℕ) (w w' : World)
    (r : Removed ob (head player) (chain player) free w w') (h : IsPool chain free w) where
  abbrev chain' : ℕ → List ℕ
  chain' = put player (kept w.ob ob (chain player)) chain

  abbrev free' : List ℕ
  free' = gone w.ob ob (chain player) free

  own : (o : ℕ) → (o == player) ≡ true → Leads w'.next (w'.sent o) (kept w.ob ob (chain player))
  own o e =
      subst (λ p. Leads w'.next (w'.sent p) (kept w.ob ob (chain player))) (ground (arith, e))
        r.linked

  others : (o : ℕ) → (o == player) ≡ false → Leads w'.next (w'.sent o) (chain o)
  others o e =
      subst (λ p. Leads w'.next p (chain o)) (sym (r.other_sent o (ground (arith, e))))
        (Leads-same w.next w'.next (w.sent o) (chain o)
          (λ q m. r.other_next q (h.apart o player q (ground (arith, e)) m) refl) (h.leads o))

  leads' : (o : ℕ) → Leads w'.next (w'.sent o) (chain' o)
  leads' o = elim (Bool-cases (o == player)) [
    | inl e ↦
        subst (λ b. Leads w'.next (w'.sent o) (if b then kept w.ob ob (chain player) else chain o))
          (sym e) (own o e)
    | inr e ↦
        subst (λ b. Leads w'.next (w'.sent o) (if b then kept w.ob ob (chain player) else chain o))
          (sym e) (others o e)
  ]

  distinct' : (o : ℕ) → IsDistinct (chain' o)
  distinct' o = elim (Bool-cases (o == player)) [
    | inl e ↦ rw e (kept-IsDistinct w.ob ob (chain player) (h.distinct player))
    | inr e ↦ rw e (h.distinct o)
  ]

  mem-chain' : (o q : ℕ) → mem q (chain' o) ≡ (mem q (chain o) && not (o == player && w.ob q == ob))
  mem-chain' o q = elim (Bool-cases (o == player)) [
    | inl e ↦
        ap (λ b. mem q (if b then kept w.ob ob (chain player) else chain o)) e
        ∙ mem-kept w.ob ob q (chain player)
        ∙ ap (λ p. mem q (chain p) && not (w.ob q == ob))
            (let same : player ≡ o = ground (arith, e) in same)
        ∙ ground (arith, e)
    | inr e ↦
        ap (λ b. mem q (if b then kept w.ob ob (chain player) else chain o)) e ∙ ground (arith, e)
  ]

  pub removed-IsPool : IsPool chain' free' w'
  removed-IsPool = record {
    leads = leads';
    unused = r.freed;
    distinct = distinct';
    distinct_free =
        gone-IsDistinct w.ob ob (chain player) free (h.distinct player) h.distinct_free
          (h.apart_free player);
    apart = λ o p q ne m. ground (arith, m, mem-chain' o q, mem-chain' p q, h.apart o p q ne);
    apart_free = λ o q m. ground (
      arith,
      m,
      mem-chain' o q,
      mem-gone w.ob ob q (chain player) free,
      h.apart_free o q,
      h.apart o player q,
    );
    blank = λ q m. ground (arith, m, mem-gone w.ob ob q (chain player) free, r.verbs q, h.blank q);
  }

pub remove_sent-Removed :
    (fuel ob player : ℕ) (chain : ℕ → List ℕ) (free : List ℕ) (w : World)
    → length (chain player) ≤ fuel
    → IsPool chain free w
    → (w' : World) × (remove_sent fuel ob player w ≡ some w')
      × Removed ob (head player) (chain player) free w w'
unfolding remove_sent
remove_sent-Removed fuel ob player chain free w n h =
    remove_at_lem fuel ob (head player) (chain player) free w n (record {
      chain = h.leads player;
      unused = h.unused;
      distinct = h.distinct player;
      apart = h.apart_free player;
      behind = refl;
      elsewhere = refl;
    })

-- If each sentence stands in one chain once, and the free ones have no verb, remove_sent with fuel
-- for each sentence of the player returns, and it stays so: the player keeps the sentences of
-- other objects in their order, those of the object become free, and the chains of other players
-- are as before.
pub remove_sent-IsPool :
    (fuel ob player : ℕ) (chain : ℕ → List ℕ) (free : List ℕ) (w : World)
    → length (chain player) ≤ fuel
    → IsPool chain free w
    → (w' : World) × (remove_sent fuel ob player w ≡ some w')
      × IsPool
          (put player (kept w.ob ob (chain player)) chain)
          (gone w.ob ob (chain player) free)
          w'
remove_sent-IsPool fuel ob player chain free w n h =
    let (w', runs, r) = remove_sent-Removed fuel ob player chain free w n h in
    (w', runs, removed-IsPool ob player chain free w w' r h)
