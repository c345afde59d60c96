-- ===== src/Commands/Actions.antt =====
-- What add_action of lpmud/simulate.c does to the sentences of all players.
use lpmud_ng.Base.{
  ℕ, ◌+◌, ◌≡◌, ◌≢◌, refl, sym, ap, ◌∙◌, subst, Bool, true, false, ◌==◌, ◌||◌, ◌&&◌, if◌then◌else◌,
  Bool-cases, inl, inr, Option, none, some, List, [], ◌∷◌, mem, IsDistinct, arith,
}
use lpmud_ng.Base.Run.{ok}
use lpmud_ng.Base.Text.{Chars}
use lpmud_ng.Commands.{
  World, put, take_free, alloc_sentence, blank, link_new, add_action_as, add_action,
}
use lpmud_ng.Commands.Links.{Leads, Leads-same}
use lpmud_ng.Commands.Sentences.{IsPool}

-- The sentence that alloc_sentence returns, and the free ones that are left
abbrev pub taken : ℕ → List ℕ → ℕ
taken at [] = at
taken at (p ∷ f) = p

abbrev pub rest_of : List ℕ → List ℕ
rest_of [] = []
rest_of (p ∷ f) = f

module _ (p : ℕ) (str : Chars) (cmd : Option Chars) (flag : Bool) (current giver : ℕ)
    (sf : Option ℕ) (tot : ℕ) (chain : ℕ → List ℕ) (free f : List ℕ) (w : World)
    (h : IsPool chain free w) (ends : Leads w.next sf f) (fresh : (o : ℕ) → mem p (chain o) ≡ false)
    (out : mem p f ≡ false) (distinct_f : IsDistinct f)
    (within : (q : ℕ) → mem q f ≡ true → mem q free ≡ true) where
  abbrev linked : World
  linked =
      link_new str cmd flag current giver
        (blank (p, record w { sent_free = sf; tot_alloc_sentence = tot }))

  abbrev longer : ℕ → List ℕ
  longer = put giver (p ∷ chain giver) chain

  linked-next : (q : ℕ) → q ≢ p → linked.next q ≡ w.next q
  linked-next q ne = ground (arith, ne)

  rest-Leads : (o : ℕ) → Leads linked.next (w.sent o) (chain o)
  rest-Leads o =
      Leads-same w.next linked.next (w.sent o) (chain o)
        (λ q m. linked-next q (λ e. cc (fresh o, m, e))) (h.leads o)

  linked-leads : (o : ℕ) → Leads linked.next (linked.sent o) (longer o)
  linked-leads o = elim (Bool-cases (o == giver)) [
    | inl e ↦
        subst
          (λ b.
            Leads linked.next (if b then some p else w.sent o)
              (if b then p ∷ chain giver else chain o))
          (sym e)
          (refl, subst (λ n. Leads linked.next n (chain giver)) (ground arith) (rest-Leads giver))
    | inr e ↦
        subst
          (λ b.
            Leads linked.next (if b then some p else w.sent o)
              (if b then p ∷ chain giver else chain o))
          (sym e) (rest-Leads o)
  ]

  linked-IsDistinct : (o : ℕ) → IsDistinct (longer o)
  linked-IsDistinct o = elim (Bool-cases (o == giver)) [
    | inl e ↦ rw e (fresh giver, h.distinct giver)
    | inr e ↦ rw e (h.distinct o)
  ]

  mem-longer : (o q : ℕ) → mem q (longer o) ≡ (mem q (chain o) || (o == giver && p == q))
  mem-longer o q = elim (Bool-cases (o == giver)) [
    | inl e ↦
        ap (λ b. mem q (if b then p ∷ chain giver else chain o)) e
        ∙ ap (λ r. p == q || mem q (chain r)) (let same : giver ≡ o = ground (arith, e) in same)
        ∙ ground (arith, e)
    | inr e ↦ ap (λ b. mem q (if b then p ∷ chain giver else chain o)) e ∙ ground (arith, e)
  ]

  linked-IsPool : IsPool longer f linked
  linked-IsPool = record {
    leads = linked-leads;
    unused = Leads-same w.next linked.next sf f (λ q m. linked-next q (λ e. cc (out, m, e))) ends;
    distinct = linked-IsDistinct;
    distinct_free = distinct_f;
    apart = λ o r q ne m.
        ground (arith, m, mem-longer o q, mem-longer r q, h.apart o r q ne, fresh o, fresh r);
    apart_free = λ o q m. ground (arith, m, mem-longer o q, h.apart_free o q, within q, out);
    blank = λ q m. ground (arith, m, h.blank q, within q, out);
  }

-- What a call of add_action that returns has done
pub added :
    (at : ℕ) (str : Chars) (cmd : Option Chars) (flag : Bool) (current : Option ℕ) (giver : ℕ)
    (w w' : World)
    → add_action_as at str cmd flag current (some giver) w ≡ ok w'
    → (c : ℕ) × (current ≡ some c) × (w' ≡ link_new str cmd flag c giver (alloc_sentence at w))
added at str cmd flag none giver w w' e = cc
added at str cmd flag (some c) giver w w' e = (c, refl, ground (arith, e))

alloc-IsPool :
    (at : ℕ) (str : Chars) (cmd : Option Chars) (flag : Bool) (current giver : ℕ)
    (chain : ℕ → List ℕ) (free : List ℕ) (w : World)
    → ((o : ℕ) → mem at (chain o) ≡ false)
    → IsPool chain free w
    → IsPool
        (put giver (taken at free ∷ chain giver) chain)
        (rest_of free)
        (link_new str cmd flag current giver (alloc_sentence at w))
unfolding alloc_sentence
alloc-IsPool at str cmd flag current giver chain [] w new h =
    subst (IsPool (put giver (at ∷ chain giver) chain) [])
      (ap (λ o. link_new str cmd flag current giver (blank (take_free at o w))) (sym h.unused))
      (linked-IsPool at str cmd flag current giver w.sent_free (w.tot_alloc_sentence + 1) chain []
        [] w h h.unused new refl tt (λ q m. m))
alloc-IsPool at str cmd flag current giver chain (p ∷ f) w new h =
    subst (IsPool (put giver (p ∷ chain giver) chain) f)
      (ap (λ o. link_new str cmd flag current giver (blank (take_free at o w))) (sym h.unused.0))
      (linked-IsPool p str cmd flag current giver (w.next p) w.tot_alloc_sentence chain (p ∷ f) f w
        h h.unused.1 (λ o. used o) h.distinct_free.0 h.distinct_free.1 (λ q m. ground (arith, m)))
  where
    used : (o : ℕ) → mem p (chain o) ≡ false
    used o = elim (Bool-cases (mem p (chain o))) [
      | inl e ↦ ground (arith, e, h.apart_free o p)
      | inr e ↦ e
    ]

-- If each sentence stands in one chain once and the free ones have no verb, and the allocator
-- returns no sentence of a chain, this is so after add_action has returned: a sentence that was
-- free, or the new one if there was none, is at the head of the chain of the player, and the other
-- chains are as before.
pub add_action-IsPool :
    (at : ℕ) (str : Chars) (cmd : Option Chars) (flag : Bool) (giver : ℕ) (chain : ℕ → List ℕ)
    (free : List ℕ) (w w' : World)
    → w.command_giver ≡ some giver
    → add_action at str cmd flag w ≡ ok w'
    → ((o : ℕ) → mem at (chain o) ≡ false)
    → IsPool chain free w
    → IsPool (put giver (taken at free ∷ chain giver) chain) (rest_of free) w'
unfolding add_action
add_action-IsPool at str cmd flag giver chain free w w' g runs new h =
    let (c, _, e) =
      added at str cmd flag w.current_object giver w w'
        (subst (λ o. add_action_as at str cmd flag w.current_object o w ≡ ok w') g runs) in
    subst (IsPool (put giver (taken at free ∷ chain giver) chain) (rest_of free)) (sym e)
      (alloc-IsPool at str cmd flag c giver chain free w new h)
