-- ===== src/Commands/Links.antt =====
-- Chains of sentences through `next`, and what it does to them to take one out.
use lpmud_ng.Base.{
  ℕ, ◌≡◌, refl, sym, subst, Bool, true, false, ◌==◌, if◌then◌else◌, Option, none, some, List, [],
  ◌∷◌, mem, arith,
}
use lpmud_ng.Commands.{World, Link, head, after, read, write, free_sentence}

-- From `p` on the sentences of the list are linked, and no other.
abbrev pub Leads : (ℕ → Option ℕ) → Option ℕ → List ℕ → Type 0
Leads next p [] = p ≡ none
Leads next p (x ∷ l) = (p ≡ some x) × Leads next (next x) l

abbrev pub kept : (ℕ → ℕ) → ℕ → List ℕ → List ℕ
kept of_ob ob [] = []
kept of_ob ob (p ∷ l) = if of_ob p == ob then kept of_ob ob l else p ∷ kept of_ob ob l

-- The free sentences, with those of the object at the head, the last first
abbrev pub gone : (ℕ → ℕ) → ℕ → List ℕ → List ℕ → List ℕ
gone of_ob ob [] f = f
gone of_ob ob (p ∷ l) f = gone of_ob ob l (if of_ob p == ob then p ∷ f else f)

pub Leads-same :
    (next next' : ℕ → Option ℕ) (p : Option ℕ) (l : List ℕ)
    → ((q : ℕ) → mem q l ≡ true → next' q ≡ next q)
    → Leads next p l
    → Leads next' p l
Leads-same next next' p [] h e = e
Leads-same next next' p (x ∷ l) h e = (
  e.0,
  subst (λ o. Leads next' o l) (sym (h x (ground arith)))
      (Leads-same next next' (next x) l (λ q m. h q (ground (arith, m))) e.1),
)

abbrev pub is_after : Link → ℕ → Bool
is_after (head o) q = false
is_after (after p) q = p == q

abbrev pub is_head : Link → ℕ → Bool
is_head (head o) q = o == q
is_head (after p) q = false

abbrev pub in_list : Link → List ℕ → Bool
in_list (head o) l = false
in_list (after p) l = mem p l

-- The state after `p` is taken out behind the link `s`
abbrev pub unlinked : Link → ℕ → World → World
unlinked s p w = free_sentence p (write s (w.next p) w)

pub unlinked-read :
    (s : Link) (p : ℕ) (w : World) → is_after s p ≡ false → read s (unlinked s p w) ≡ w.next p
unfolding free_sentence
unlinked-read (head o) p w h = ground arith
unlinked-read (after q) p w h = ground arith

pub unlinked-next :
    (s : Link) (p q : ℕ) (w : World)
    → is_after s q ≡ false
    → (unlinked s p w).next q ≡ (if q == p then w.sent_free else w.next q)
unfolding free_sentence
unlinked-next (head o) p q w h = ground arith
unlinked-next (after r) p q w h = ground arith

pub unlinked-sent :
    (s : Link) (p o : ℕ) (w : World) → is_head s o ≡ false → (unlinked s p w).sent o ≡ w.sent o
unfolding free_sentence
unlinked-sent (head q) p o w h = ground arith
unlinked-sent (after r) p o w h = ground arith

pub unlinked-verb :
    (s : Link) (p q : ℕ) (w : World) → (unlinked s p w).verb q ≡ (if q == p then none else w.verb q)
unfolding free_sentence
unlinked-verb (head o) p q w = refl
unlinked-verb (after r) p q w = refl

pub unlinked-function :
    (s : Link) (p q : ℕ) (w : World)
    → (unlinked s p w).function q ≡ (if q == p then none else w.function q)
unfolding free_sentence
unlinked-function (head o) p q w = refl
unlinked-function (after r) p q w = refl

pub unlinked-short_verb :
    (s : Link) (p : ℕ) (w : World) → (unlinked s p w).short_verb ≡ w.short_verb
unfolding free_sentence
unlinked-short_verb (head o) p w = refl
unlinked-short_verb (after r) p w = refl

pub unlinked-free : (s : Link) (p : ℕ) (w : World) → (unlinked s p w).sent_free ≡ some p
unfolding free_sentence
unlinked-free (head o) p w = refl
unlinked-free (after r) p w = refl

pub unlinked-ob : (s : Link) (p : ℕ) (w : World) → (unlinked s p w).ob ≡ w.ob
unfolding free_sentence
unlinked-ob (head o) p w = refl
unlinked-ob (after r) p w = refl

pub not-after :
    (s : Link) (q : ℕ) (l : List ℕ) → in_list s l ≡ false → mem q l ≡ true → is_after s q ≡ false
not-after (head o) q l h m = refl
not-after (after p) q [] h m = cc
not-after (after p) q (x ∷ l) h m = ground (arith, not-after (after p) q l)
