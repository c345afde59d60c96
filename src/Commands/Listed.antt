-- ===== src/Commands/Listed.antt =====
-- remove_sent of lpmud/simulate.c on linked sentences does what Environment has it do to the sentences of
-- a player as a list.
use lpmud_ng.Base.{
  ℕ, ◌≤◌, ◌≡◌, refl, sym, ap, ◌∙◌, subst, Bool, true, false, ◌==◌, ◌&&◌, if◌then◌else◌, Bool-cases,
  inl, inr, Option, none, some, List, [], ◌∷◌, map, length, mem, arith,
}
use lpmud_ng.Base.Text.{Chars}
use lpmud_ng.Environment
use lpmud_ng.Commands.{World, put, head, remove_sent}
use lpmud_ng.Commands.Links.{kept, gone}
use lpmud_ng.Commands.Pool.{Removed}
use lpmud_ng.Commands.Sentences.{IsPool, mem-kept, remove_sent-Removed, removed-IsPool}

abbrev pub sentence : World → ℕ → Environment.Sentence
sentence w p = record {
  verb = w.verb p;
  function = w.function p;
  ob = w.ob p;
  short_verb = w.short_verb p;
}

-- The lists of sentences are the chains.
abbrev pub Shows : (ℕ → List ℕ) → World → Environment.World → Type 0
Shows chain w e = (o : ℕ) → e.sent o ≡ map (sentence w) (chain o)

without_ob-map :
    (w : World) (ob : ℕ) (l : List ℕ)
    → Environment.without_ob ob (map (sentence w) l) ≡ map (sentence w) (kept w.ob ob l)
without_ob-map w ob [] = refl
without_ob-map w ob (p ∷ l) = elim (Bool-cases (w.ob p == ob)) [
  | inl e ↦ rw e (without_ob-map w ob l)
  | inr e ↦ rw e (ap (λ r. sentence w p ∷ r) (without_ob-map w ob l))
]

map_same :
    (w w' : World) (l : List ℕ)
    → ((q : ℕ) → mem q l ≡ true → sentence w' q ≡ sentence w q)
    → map (sentence w) l ≡ map (sentence w') l
map_same w w' [] h = refl
map_same w w' (p ∷ l) h =
    ap (λ s. s ∷ map (sentence w) l) (sym (h p (ground arith)))
    ∙ ap (λ r. sentence w' p ∷ r) (map_same w w' l (λ q m. h q (ground (arith, m))))

-- A sentence that is not taken out has the fields of before.
fields_kept :
    (ob player q : ℕ) (l free : List ℕ) (w w' : World)
    → Removed ob (head player) l free w w'
    → (mem q l && w.ob q == ob) ≡ false
    → sentence w' q ≡ sentence w q
fields_kept ob player q l free w w' r h =
    ap (λ v. fields v (w'.function q) (w'.ob q) (w'.short_verb q))
      (r.verbs q ∙ ap (λ b. if b then none else w.verb q) h)
    ∙ ap (λ f. fields (w.verb q) f (w'.ob q) (w'.short_verb q))
        (r.functions q ∙ ap (λ b. if b then none else w.function q) h)
    ∙ ap (λ g. fields (w.verb q) (w.function q) (g q) (w'.short_verb q)) r.obs
    ∙ ap (λ g. fields (w.verb q) (w.function q) (w.ob q) (g q)) r.short_verbs
  where
    fields : Option Chars → Option Chars → ℕ → Bool → Environment.Sentence
    fields v f o b = record { verb = v; function = f; ob = o; short_verb = b }

module _ (ob player : ℕ) (chain : ℕ → List ℕ) (free : List ℕ) (w w' : World) (e : Environment.World)
    (h : IsPool chain free w) (r : Removed ob (head player) (chain player) free w w')
    (shows : Shows chain w e) where
  own_shows :
      Environment.without_ob ob (e.sent player) ≡ map (sentence w') (kept w.ob ob (chain player))
  own_shows =
      ap (Environment.without_ob ob) (shows player)
      ∙ without_ob-map w ob (chain player)
      ∙ map_same w w' (kept w.ob ob (chain player)) (λ q m.
        fields_kept ob player q (chain player) free w w' r
          (ground (arith, m, mem-kept w.ob ob q (chain player))))

  other_shows : (o : ℕ) → (o == player) ≡ false → e.sent o ≡ map (sentence w') (chain o)
  other_shows o ne =
      shows o
      ∙ map_same w w' (chain o) (λ q m.
        fields_kept ob player q (chain player) free w w' r
          (ground (arith, m, h.apart o player q (ground (arith, ne)) m)))

  removed-Shows :
      Shows
        (put player (kept w.ob ob (chain player)) chain)
        w'
        (Environment.remove_sent ob player e)
  unfolding Environment.remove_sent
  removed-Shows o = elim (Bool-cases (o == player)) [
    | inl same ↦ rw same (
        subst
          (λ p.
            Environment.without_ob ob (e.sent p) ≡ map (sentence w') (kept w.ob ob (chain player)))
          (ground (arith, same)) own_shows)
    | inr ne ↦ rw ne (other_shows o ne)
  ]

-- If each sentence stands in one chain once, the free ones have no verb, and the lists of
-- Environment are the sentences of the chains in their order, then remove_sent with fuel for each
-- sentence of the player returns, and it is so again with the lists that Environment's remove_sent
-- leaves: the sentences of the object have become free, and the chains of other players are as
-- before.
pub remove_sent_lem :
    (fuel ob player : ℕ) (chain : ℕ → List ℕ) (free : List ℕ) (w : World) (e : Environment.World)
    → length (chain player) ≤ fuel
    → IsPool chain free w
    → Shows chain w e
    → (w' : World) × (remove_sent fuel ob player w ≡ some w')
      × IsPool
          (put player (kept w.ob ob (chain player)) chain)
          (gone w.ob ob (chain player) free)
          w'
      × Shows
          (put player (kept w.ob ob (chain player)) chain)
          w'
          (Environment.remove_sent ob player e)
remove_sent_lem fuel ob player chain free w e n h shows =
    let (w', runs, r) = remove_sent-Removed fuel ob player chain free w n h in
    (
      w',
      runs,
      removed-IsPool ob player chain free w w' r h,
      removed-Shows ob player chain free w w' e h r shows,
    )
