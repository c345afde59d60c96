-- ===== src/Transfer/Verdict.antt =====
-- Which code transfer_object of lpmud/simulate.c returns, as a table of the refusals in their order.
use lpmud_ng.Base.{
  ℕ, ◌+◌, ◌<◌, ◌≡◌, refl, sym, ap, ◌∙◌, subst, arith, Bool, true, false, not, ◌||◌, ◌&&◌,
  if◌then◌else◌, Option, none, some, [], ◌∷◌, ◌++◌, length,
}
use lpmud_ng.Base.Int.{ℤ}
use lpmud_ng.Base.Run.{ok}
use mathlib.Core.Option.{map}
use lpmud_ng.Value.{Value, number}
use lpmud_ng.Environment.{World, Event, is_inside}
use lpmud_ng.Environment.Tree.{IsTree}
use lpmud_ng.Environment.Parts.{Like, IsQuiet, Like-step, same}
use lpmud_ng.Environment.Results.{Moved, Like-IsTree, move_object_lem}
use lpmud_ng.Transfer.{
  Question, query_weight, drop, can_put_and_get, prevent_insert, get, add_weight, is_set,
  is_refusal, is_denied, is_kept_back, is_too_heavy, Outcome, refuse, with_code, inquire, may_drop,
  may_take, may_insert, may_get, may_carry, relieve, check, finish, weighed, transfer_object,
}
use lpmud_ng.Transfer.Results.{IsCalm, relieve-Like, weighed-number}
use lpmud_ng.Transfer.Rules.{
  is_nought, refusal-given, denied-count, kept-given, heavy-nought, first_refusal, code_of, decide,
  Decides, Decides-chain, Answers, stays, is_shut, stays_out, stays_there, is_bag, rules_from,
  rules_to, rules_weight, rules,
}

module _ (ask : Question → ℕ → Option Value → World → Option Value × World)
    (lpc : Event → ℕ → World → World) (calm : IsCalm ask) (answer : Answers)
    (steady : (q : Question) (o : ℕ) (a : Option Value) (w : World)
      → (ask q o a w).0 ≡ answer q o a) where
  inquire-Decides :
      (on on' b : Bool) (q : Question) (o : ℕ) (arg : Option Value)
      (stops : Option Value → World → Bool) (c : ℕ) (k : World → Outcome) (w : World)
      → on ≡ on'
      → stops (ask q o arg w).0 (ask q o arg w).1 ≡ b
      → Decides ((on', b, c) ∷ []) k w (inquire ask lpc on q o arg stops c k w)
  inquire-Decides false on' b q o arg stops c k w e h =
      subst (λ a. Decides ((a, b, c) ∷ []) k w (k w)) e (w, same w, refl)
  inquire-Decides true on' b q o arg stops c k w e h =
      let u = (ask q o arg w).1 in
      subst
        (λ a. Decides ((a, b, c) ∷ []) k w (if stops (ask q o arg w).0 u then refuse c u else k u))
        e (u, calm q o arg w, ap (λ z. if z then refuse c u else k u) h ∙ by_case b)
    where
      by_case :
          (b : Bool)
          → (if b then refuse c (ask q o arg w).1 else k (ask q o arg w).1)
            ≡ decide (if b then some c else none) k (ask q o arg w).1
      by_case true = refl
      by_case false = refl

  alive :
      (q : Question) (o : ℕ) (a : Option Value) (w0 w : World) (p : ℕ)
      → Like w0.super w0.contains w0 w
      → (ask q o a w).1.destructed p ≡ w0.destructed p
  alive q o a w0 w p l = ap (λ f. f p) (calm q o a w).alive ∙ ap (λ f. f p) l.alive

  bag : (w0 w : World) (p : ℕ) → Like w0.super w0.contains w0 w → is_bag p w ≡ is_bag p w0
  bag w0 w p l =
      ap (λ f. is_set (f p) && not (w.enable_commands p)) l.supers
      ∙ ap (λ f. is_set (w0.super p) && not (f p)) l.enables

  from-Decides :
      (ob : ℕ) (from : Option ℕ) (k : World → Outcome) (w0 w : World)
      → w0.destructed ob ≡ false
      → Like w0.super w0.contains w0 w
      → Decides
          (rules_from answer ob from w0)
          k
          w
          (may_drop ask lpc ob from (may_take ask lpc from k) w)
  unfolding may_drop may_take
  from-Decides ob none k w0 w h l = (w, same w, refl)
  from-Decides ob (some from) k w0 w h l =
      Decides-chain ((w0.enable_commands from, stays answer ob, 2) ∷ [])
        ((is_bag from w0, is_shut answer from || w0.destructed from, 3) ∷ [])
        (may_take ask lpc (some from) k) k w _
        (inquire-Decides (w.enable_commands from) (w0.enable_commands from) (stays answer ob) drop
          ob none (λ r u. is_refusal r || u.destructed ob) 2 (may_take ask lpc (some from) k) w
          (ap (λ f. f from) l.enables)
          (ap (λ r. is_refusal r || (ask drop ob none w).1.destructed ob) (steady drop ob none w)
            ∙ ground (arith, refusal-given (answer drop ob none), alive drop ob none w0 w ob l, h)))
        (λ u a.
          let m = Like-step w0.super w0.contains w0 w u l a in
          inquire-Decides (is_bag from u) (is_bag from w0)
            (is_shut answer from || w0.destructed from) can_put_and_get from none
            (λ r u. is_denied r || u.destructed from) 3 k u (bag w0 u from m)
            (ap (λ r. is_denied r || (ask can_put_and_get from none u).1.destructed from)
                (steady can_put_and_get from none u)
              ∙ ap (λ b. b || (ask can_put_and_get from none u).1.destructed from)
                  (denied-count (answer can_put_and_get from none))
              ∙ ap (λ b. is_shut answer from || b) (alive can_put_and_get from none w0 u from m)))

  to-Decides :
      (ob to : ℕ) (k : World → Outcome) (w0 w : World)
      → w0.destructed ob ≡ false
      → w0.destructed to ≡ false
      → Like w0.super w0.contains w0 w
      → Decides
          (rules_to answer ob to w0)
          k
          w
          (may_insert ask lpc ob to (may_get ask lpc ob to k) w)
  unfolding may_insert may_get
  to-Decides ob to k w0 w h g l =
      Decides-chain ((is_bag to w0, stays_out answer ob, 4) ∷ [])
        ((is_bag to w0, is_shut answer to, 5)
          ∷ (w0.enable_commands to, stays_there answer ob, 6)
          ∷ [])
        insert k w _
        (inquire-Decides (is_bag to w) (is_bag to w0) (stays_out answer ob) prevent_insert ob none
          (λ r u. is_refusal r) 4 insert w (bag w0 w to l)
          (ap is_refusal (steady prevent_insert ob none w)
            ∙ refusal-given (answer prevent_insert ob none)))
        (λ u a.
          let m = Like-step w0.super w0.contains w0 w u l a in
          Decides-chain ((is_bag to w0, is_shut answer to, 5) ∷ [])
            ((w0.enable_commands to, stays_there answer ob, 6) ∷ []) (may_get ask lpc ob to k) k u _
            (inquire-Decides (is_bag to w) (is_bag to w0) (is_shut answer to) can_put_and_get to
              none (λ r u. is_denied r || u.destructed to || u.destructed ob) 5
              (may_get ask lpc ob to k) u (bag w0 w to l)
              (ap
                  (λ r.
                    is_denied r
                    || (ask can_put_and_get to none u).1.destructed to
                    || (ask can_put_and_get to none u).1.destructed ob)
                  (steady can_put_and_get to none u)
                ∙ ground (
                  arith,
                  denied-count (answer can_put_and_get to none),
                  alive can_put_and_get to none w0 u to m,
                  alive can_put_and_get to none w0 u ob m,
                  h,
                  g,
                )))
            (λ v b.
              let n = Like-step w0.super w0.contains w0 u v m b in
              inquire-Decides (v.enable_commands to) (w0.enable_commands to) (stays_there answer ob)
                get ob none (λ r u. is_kept_back r || u.destructed ob) 6 k v
                (ap (λ f. f to) n.enables)
                (ap (λ r. is_kept_back r || (ask get ob none v).1.destructed ob)
                    (steady get ob none v)
                  ∙ ground
                      (arith, kept-given (answer get ob none), alive get ob none w0 v ob n, h))))
    where
      insert : World → Outcome
      insert =
          inquire ask lpc (is_bag to w) can_put_and_get to none
            (λ r u. is_denied r || u.destructed to || u.destructed ob) 5 (may_get ask lpc ob to k)

  weight-Decides :
      (to : ℕ) (from : Option ℕ) (n : Option ℤ) (k : World → Outcome) (w0 w : World)
      → w0.destructed to ≡ false
      → Like w0.super w0.contains w0 w
      → Decides
          (rules_weight answer to n w0)
          k
          w
          (may_carry ask lpc to n (relieve ask lpc from n k) w)
  unfolding may_carry
  weight-Decides to from none k w0 w g l = relieve-Like ask lpc calm from none k w
  weight-Decides to from (some n) k w0 w g l =
      Decides-chain
        ((is_set (w0.super to), is_nought (answer add_weight to (some (number n))), 1) ∷ []) []
        (relieve ask lpc from (some n) k) k w _
        (inquire-Decides (is_set (w.super to)) (is_set (w0.super to))
          (is_nought (answer add_weight to (some (number n)))) add_weight to (some (number n))
          (λ r u. is_too_heavy r || u.destructed to) 1 (relieve ask lpc from (some n) k) w
          (ap (λ f. is_set (f to)) l.supers)
          (ap (λ r. is_too_heavy r || (ask add_weight to (some (number n)) w).1.destructed to)
              (steady add_weight to (some (number n)) w)
            ∙ ground (
              arith,
              heavy-nought (answer add_weight to (some (number n))),
              alive add_weight to (some (number n)) w0 w to l,
              g,
            )))
        (λ u a. relieve-Like ask lpc calm from (some n) k u)

  check-Decides :
      (ob to : ℕ) (from : Option ℕ) (n : Option ℤ) (k : World → Outcome) (w0 w : World)
      → w0.destructed ob ≡ false
      → w0.destructed to ≡ false
      → Like w0.super w0.contains w0 w
      → Decides
          (rules_from answer ob from w0
            ++ (rules_to answer ob to w0 ++ rules_weight answer to n w0))
          k
          w
          (check ask lpc ob to from n k w)
  check-Decides ob to from n k w0 w h g l =
      Decides-chain (rules_from answer ob from w0)
        (rules_to answer ob to w0 ++ rules_weight answer to n w0) into k w _
        (from-Decides ob from into w0 w h l)
        (λ u a.
          let m = Like-step w0.super w0.contains w0 w u l a in
          Decides-chain (rules_to answer ob to w0) (rules_weight answer to n w0) load k u _
            (to-Decides ob to load w0 u h g m)
            (λ v b. weight-Decides to from n k w0 v g (Like-step w0.super w0.contains w0 u v m b)))
    where
      load : World → Outcome
      load = may_carry ask lpc to n (relieve ask lpc from n k)

      into : World → Outcome
      into = may_insert ask lpc ob to (may_get ask lpc ob to load)

  -- After a refusal the tree is as it was; a move was made in a world with the same tree.
  abbrev pub Transferred : IsQuiet lpc → ℕ → ℕ → ℕ → ℕ → World → Option ℕ → World → Type 0
  Transferred quiet fuel n ob to w none u =
      (v : World) × Like w.super w.contains w v
      × (inside : Bool) × (is_inside fuel ob (some to) v ≡ some inside)
      × Moved lpc quiet n ob to inside v u
  Transferred quiet fuel n ob to w (some c) u = Like w.super w.contains w u

  -- If the functions leave the tree, the enabled commands and the life of the objects alone, each
  -- question has one answer however often it is asked, the objects are a tree that is n high,
  -- neither object is destructed, and query_weight answers with a number or is missing, then
  -- transfer_object, with more fuel than n and than the inventory of to has objects with the new
  -- one, returns. Its code is that of the first refusal in a table, and the tree is then as it was:
  -- drop, if the place of the object is living (2); can_put_and_get of that place, if it is not
  -- living and in another one (3); prevent_insert (4) and can_put_and_get (5) of the destination,
  -- if that is so of it; get, if the destination is living (6); add_weight, if it is in another
  -- place and there is a weight (1). Without a refusal the code is 0, and move_object has moved the
  -- object in a world with the same tree.
  pub transfer_object_lem :
      (quiet : IsQuiet lpc) (fuel n ob to : ℕ) (weight : Option ℤ) (w : World)
      → answer query_weight ob none ≡ map number weight
      → IsTree n w.super w.contains
      → n < fuel
      → length (w.contains to) + 1 < fuel
      → w.destructed ob ≡ false
      → w.destructed to ≡ false
      → let refusal = first_refusal (rules answer ob to weight w) in
        (u : World) × (transfer_object ask lpc fuel ob to w ≡ some (ok (code_of refusal, u)))
        × Transferred quiet fuel n ob to w refusal u
  unfolding transfer_object
  transfer_object_lem quiet fuel n ob to weight w hw ht hn hf ho hd =
      let w1 = (ask query_weight ob none w).1 in
      let l1 = calm query_weight ob none w in
      let (v, l, e) =
        check-Decides ob to (w.super ob) weight (finish ask lpc fuel ob to) w w1 ho hd l1 in
      let begin =
        ap (λ r. weighed ask lpc fuel ob to (w.super ob) r w1) (steady query_weight ob none w ∙ hw)
        ∙ weighed-number ask lpc calm fuel ob to (w.super ob) weight w1
            (ap (λ f. f ob) l1.alive ∙ ho) in
      ends (first_refusal (rules answer ob to weight w)) v (begin ∙ e)
        (Like-step w.super w.contains w w1 v l1 l)
    where
      ends :
          (refusal : Option ℕ) (v : World)
          → transfer_object ask lpc fuel ob to w ≡ decide refusal (finish ask lpc fuel ob to) v
          → Like w.super w.contains w v
          → (u : World) × (transfer_object ask lpc fuel ob to w ≡ some (ok (code_of refusal, u)))
            × Transferred quiet fuel n ob to w refusal u
      ends (some c) v e l = (v, e, l)
      ends none v e l =
          let (inside, ei, u, eu, m) =
            move_object_lem lpc quiet fuel n ob to v (Like-IsTree n w.super w.contains w v l ht) hn
              (subst (λ c. length (c to) + 1 < fuel) (sym l.holds) hf) (ap (λ f. f ob) l.alive ∙ ho)
              (ap (λ f. f to) l.alive ∙ hd) in
          (u, e ∙ ap with_code eu, (v, l, inside, ei, m))
