-- ===== src/Commands/Pool.antt =====
-- The loop of remove_sent of lpmud/simulate.c: the sentences of an object go from the chain of a player
-- to the head of the free ones.
use lpmud_ng.Base.{
  ℕ, zero, suc, ◌≤◌, ◌≡◌, refl, sym, ap, ◌∙◌, subst, true, false, ◌==◌, ◌&&◌, if◌then◌else◌,
  Bool-cases, inl, inr, Option, none, some, List, [], ◌∷◌, length, mem, IsDistinct, arith,
}
use lpmud_ng.Commands.{World, Link, head, after, read, remove_at}
use lpmud_ng.Commands.Links.{
  Leads, Leads-same, kept, gone, is_after, is_head, in_list, unlinked, unlinked-read, unlinked-next,
  unlinked-sent, unlinked-verb, unlinked-function, unlinked-short_verb, unlinked-free, unlinked-ob,
  not-after,
}

-- What the loop leaves of the sentences from a link on
pub record Removed (ob : ℕ) (s : Link) (l f : List ℕ) (w w' : World) : Type 0 where
  pub linked : Leads w'.next (read s w') (kept w.ob ob l)
  pub freed : Leads w'.next w'.sent_free (gone w.ob ob l f)
  pub other_next : (q : ℕ) → mem q l ≡ false → is_after s q ≡ false → w'.next q ≡ w.next q
  pub other_sent : (o : ℕ) → is_head s o ≡ false → w'.sent o ≡ w.sent o
  pub verbs : (q : ℕ) → w'.verb q ≡ (if mem q l && w.ob q == ob then none else w.verb q)
  pub functions : (q : ℕ) → w'.function q ≡ (if mem q l && w.ob q == ob then none else w.function q)
  pub short_verbs : w'.short_verb ≡ w.short_verb
  pub obs : w'.ob ≡ w.ob

abbrev pub Apart : List ℕ → List ℕ → Type 0
Apart l f = (q : ℕ) → mem q l ≡ true → mem q f ≡ false

-- `l` is linked from `s` on, `f` are the free sentences, and they share nothing.
pub record Ready (s : Link) (l f : List ℕ) (w : World) : Type 0 where
  pub chain : Leads w.next (read s w) l
  pub unused : Leads w.next w.sent_free f
  pub distinct : IsDistinct l
  pub apart : Apart l f
  pub behind : in_list s l ≡ false
  pub elsewhere : in_list s f ≡ false

in_list-cons : (s : Link) (p : ℕ) (l : List ℕ) → in_list s (p ∷ l) ≡ false → in_list s l ≡ false
in_list-cons (head o) p l h = refl
in_list-cons (after q) p l h = ground (arith, h)

in_list-front :
    (s : Link) (p : ℕ) (l : List ℕ)
    → is_after s p ≡ false
    → in_list s l ≡ false
    → in_list s (p ∷ l) ≡ false
in_list-front (head o) p l n h = refl
in_list-front (after q) p l n h = ground (arith, n, h)

unlinked-Ready :
    (s : Link) (p : ℕ) (l f : List ℕ) (w : World)
    → Ready s (p ∷ l) f w
    → Ready s l (p ∷ f) (unlinked s p w)
unlinked-Ready s p l f w h = record {
  chain =
      subst (λ o. Leads (unlinked s p w).next o l) (sym (unlinked-read s p w not_p))
        (Leads-same w.next (unlinked s p w).next (w.next p) l
          (λ q m.
            ground (arith, m, h.distinct.0, unlinked-next s p q w, not-after s q (p ∷ l) h.behind))
          h.chain.1);
  unused = (
    unlinked-free s p w,
    subst (λ o. Leads (unlinked s p w).next o f) (sym (unlinked-next s p p w not_p ∙ ground arith))
        (Leads-same w.next (unlinked s p w).next w.sent_free f
          (λ q m.
            ground
              (arith, m, h.apart q, h.apart p, unlinked-next s p q w, not-after s q f h.elsewhere))
          h.unused),
  );
  distinct = h.distinct.1;
  apart = λ q m. ground (arith, m, h.distinct.0, h.apart q);
  behind = in_list-cons s p l h.behind;
  elsewhere = in_list-front s p f not_p h.elsewhere;
}
  where
    not_p : is_after s p ≡ false
    not_p = not-after s p (p ∷ l) h.behind (ground arith)

next-Ready :
    (s : Link) (p : ℕ) (l f : List ℕ) (w : World) → Ready s (p ∷ l) f w → Ready (after p) l f w
next-Ready s p l f w h = record {
  chain = h.chain.1;
  unused = h.unused;
  distinct = h.distinct.1;
  apart = λ q m. h.apart q (ground (arith, m));
  behind = h.distinct.0;
  elsewhere = h.apart p (ground arith);
}

found-Removed :
    (ob : ℕ) (s : Link) (p : ℕ) (l f : List ℕ) (w w' : World)
    → (w.ob p == ob) ≡ true
    → Ready s (p ∷ l) f w
    → Removed ob s l (p ∷ f) (unlinked s p w) w'
    → Removed ob s (p ∷ l) f w w'
found-Removed ob s p l f w w' e h r = record {
  linked =
      subst (λ b. Leads w'.next (read s w') (if b then kept w.ob ob l else p ∷ kept w.ob ob l))
        (sym e) (subst (λ g. Leads w'.next (read s w') (kept g ob l)) same_obs r.linked);
  freed =
      subst (λ b. Leads w'.next w'.sent_free (gone w.ob ob l (if b then p ∷ f else f))) (sym e)
        (subst (λ g. Leads w'.next w'.sent_free (gone g ob l (p ∷ f))) same_obs r.freed);
  other_next = λ q m a. ground (arith, m, r.other_next q, unlinked-next s p q w a);
  other_sent = λ o a. r.other_sent o a ∙ unlinked-sent s p o w a;
  verbs = λ q.
      r.verbs q
      ∙ ap (λ g. if mem q l && g q == ob then none else (unlinked s p w).verb q) same_obs
      ∙ ground (arith, e, unlinked-verb s p q w);
  functions = λ q.
      r.functions q
      ∙ ap (λ g. if mem q l && g q == ob then none else (unlinked s p w).function q) same_obs
      ∙ ground (arith, e, unlinked-function s p q w);
  short_verbs = r.short_verbs ∙ unlinked-short_verb s p w;
  obs = r.obs ∙ same_obs;
}
  where
    same_obs : (unlinked s p w).ob ≡ w.ob
    same_obs = unlinked-ob s p w

still_linked :
    (ob : ℕ) (s : Link) (p : ℕ) (l f : List ℕ) (w w' : World)
    → Ready s (p ∷ l) f w
    → Removed ob (after p) l f w w'
    → read s w' ≡ some p
still_linked ob (head o) p l f w w' h r = r.other_sent o refl ∙ h.chain.0
still_linked ob (after q) p l f w w' h r =
    r.other_next q (ground (arith, h.behind)) (ground (arith, h.behind)) ∙ h.chain.0

next-Removed :
    (ob : ℕ) (s : Link) (p : ℕ) (l f : List ℕ) (w w' : World)
    → (w.ob p == ob) ≡ false
    → Ready s (p ∷ l) f w
    → Removed ob (after p) l f w w'
    → Removed ob s (p ∷ l) f w w'
next-Removed ob s p l f w w' e h r = record {
  linked =
      subst (λ b. Leads w'.next (read s w') (if b then kept w.ob ob l else p ∷ kept w.ob ob l))
        (sym e) (still_linked ob s p l f w w' h r, r.linked);
  freed =
      subst (λ b. Leads w'.next w'.sent_free (gone w.ob ob l (if b then p ∷ f else f))) (sym e)
        r.freed;
  other_next = λ q m a. r.other_next q (ground (arith, m)) (ground (arith, m));
  other_sent = λ o a. r.other_sent o refl;
  verbs = λ q. ground (arith, e, r.verbs q);
  functions = λ q. ground (arith, e, r.functions q);
  short_verbs = r.short_verbs;
  obs = r.obs;
}

pub remove_at_lem :
    (fuel ob : ℕ) (s : Link) (l f : List ℕ) (w : World)
    → length l ≤ fuel
    → Ready s l f w
    → (w' : World) × (remove_at fuel ob s (read s w) w ≡ some w') × Removed ob s l f w w'
unfolding remove_at
remove_at_lem fuel ob s [] f w n h = (
  w,
  ap (λ o. remove_at fuel ob s o w) h.chain,
  record {
    linked = h.chain;
    freed = h.unused;
    other_next = λ q m a. refl;
    other_sent = λ o a. refl;
    verbs = λ q. refl;
    functions = λ q. refl;
    short_verbs = refl;
    obs = refl;
  },
)
remove_at_lem zero ob s (p ∷ l) f w n h = absurd (omega (arith, n))
remove_at_lem (suc fuel) ob s (p ∷ l) f w n h = elim (Bool-cases (w.ob p == ob)) [
  | inl e ↦
      let (w', runs, r) =
        remove_at_lem fuel ob s l (p ∷ f) (unlinked s p w) (omega (arith, n))
          (unlinked-Ready s p l f w h) in
      (
        w',
        ap (λ o. remove_at (suc fuel) ob s o w) h.chain.0
            ∙ ap (λ b. if b then unlink else pass) e
            ∙ runs,
        found-Removed ob s p l f w w' e h r,
      )
  | inr e ↦
      let (w', runs, r) =
        remove_at_lem fuel ob (after p) l f w (omega (arith, n)) (next-Ready s p l f w h) in
      (
        w',
        ap (λ o. remove_at (suc fuel) ob s o w) h.chain.0
            ∙ ap (λ b. if b then unlink else pass) e
            ∙ runs,
        next-Removed ob s p l f w w' e h r,
      )
]
  where
    unlink : Option World
    unlink = remove_at fuel ob s (read s (unlinked s p w)) (unlinked s p w)

    pass : Option World
    pass = remove_at fuel ob (after p) (w.next p) w
