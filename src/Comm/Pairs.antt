-- ===== src/Comm/Pairs.antt =====
-- The pointers `snoop_on` and `snoop_by` of the connections, against one another.
use lpmud_ng.Base.{ℕ, ◌≡◌, ◌≢◌, refl, ap, ◌∙◌, subst, Option, none, some, arith}
use lpmud_ng.Base.Run.{Run, ok, error, fatal, undefined}
use lpmud_ng.Comm.Snoop.{
  Players, Reply, busy, set_by, find_pair, let_go, end_on, end_by, stop_snoop, connect, start_snoop,
  set_snoop,
}

-- Whoever is marked as snooped is snooped.
pub record IsBacked (w : Players) : Type 0 where
  pub backed : (x y : ℕ) → w.snoop_by y ≡ some x → w.snoop_on x ≡ some y

-- Whoever is snooped is marked.
pub record IsMarked (w : Players) : Type 0 where
  pub marked : (x y : ℕ) → w.snoop_on x ≡ some y → w.snoop_by y ≡ some x

let_go-IsBacked : (p : Option ℕ) (w : Players) → IsBacked w → IsBacked (let_go p w)
let_go-IsBacked none w h = h
let_go-IsBacked (some p) w h = record { backed = λ x y e. ground (arith, e, h.backed x y) }

pub end_on-IsBacked :
    (ip : ℕ) (p : Option ℕ) (w : Players)
    → w.snoop_on ip ≡ p
    → IsBacked w
    → IsBacked (end_on ip p w)
end_on-IsBacked ip none w e h = h
end_on-IsBacked ip (some p) w e h = record { backed = λ x y f. ground (arith, e, f, h.backed x y) }

pub end_by-IsBacked :
    (ip : ℕ) (p : Option ℕ) (w : Players)
    → w.snoop_by ip ≡ p
    → IsBacked w
    → IsBacked (end_by ip p w)
end_by-IsBacked ip none w e h = h
end_by-IsBacked ip (some p) w e h = record {
  backed = λ x y f. ground (arith, e, f, h.backed x y, h.backed p ip);
}

-- After `let_go` the connection `by` stands in no `snoop_by`.
let_go_free :
    (by : ℕ) (p : Option ℕ) (w : Players)
    → w.snoop_on by ≡ p
    → IsBacked w
    → (y : ℕ) → (let_go p w).snoop_by y ≢ some by
let_go_free by none w e h y f = ground (arith, e, f, h.backed by y)
let_go_free by (some p) w e h y f = ground (arith, e, f, h.backed by y)

connect-IsBacked :
    (on by : ℕ) (o : Option ℕ) (w : Players)
    → IsBacked w
    → ((y : ℕ) → w.snoop_by y ≢ some by)
    → IsBacked (connect on by o w).1
connect-IsBacked on by none w h g = record {
  backed = λ x y f. ground (arith, f, h.backed x y, g y);
}
connect-IsBacked on by (some o) w h g = h

-- What a call returns, if it does, has the property.
abbrev pub Leaves {κ} : (Reply × Players → Type κ) → Run (Reply × Players) → Type κ
Leaves P (ok r) = P r
Leaves P error = Unit
Leaves P fatal = Unit
Leaves P undefined = Unit

leaves {κ} :
    (P : Reply × Players → Type κ) (m : Run (Reply × Players)) (r : Reply × Players)
    → Leaves P m
    → m ≡ ok r
    → P r
leaves P m r h e = subst (Leaves P) e h

stop_snoop-IsBacked :
    (by : Option ℕ) (w : Players) → IsBacked w → Leaves (λ r. IsBacked r.1) (stop_snoop by w)
unfolding stop_snoop
stop_snoop-IsBacked none w h = ground arith
stop_snoop-IsBacked (some by) w h = end_on-IsBacked by (w.snoop_on by) w refl h

start_snoop-IsBacked :
    (on by : Option ℕ) (w : Players) → IsBacked w → Leaves (λ r. IsBacked r.1) (start_snoop on by w)
unfolding start_snoop
start_snoop-IsBacked none by w h = h
start_snoop-IsBacked (some on) none w h = h
start_snoop-IsBacked (some on) (some by) w h =
    let w1 = let_go (w.snoop_on by) w in
    connect-IsBacked on by (w1.snoop_by on) w1 (let_go-IsBacked (w.snoop_on by) w h)
      (let_go_free by (w.snoop_on by) w refl h)

set_snoop-Leaves :
    (me : ℕ) (you : Option ℕ) (w : Players)
    → IsBacked w
    → Leaves (λ r. IsBacked r.1) (set_snoop me you w)
unfolding set_snoop
set_snoop-Leaves me none w h =
    stop_snoop-IsBacked (find_pair me none w.ob w.all_players none none).1 w h
set_snoop-Leaves me (some you) w h =
    let found = find_pair me (some you) w.ob w.all_players none none in
    start_snoop-IsBacked found.0 found.1 w h

-- If every connection that is marked as snooped on is snooped on by the one that its mark names,
-- then this is so after a call of set_snoop that returns.
pub set_snoop-IsBacked :
    (me : ℕ) (you : Option ℕ) (w : Players) (r : Reply × Players)
    → IsBacked w
    → set_snoop me you w ≡ ok r
    → IsBacked r.1
set_snoop-IsBacked me you w r h e =
    leaves (λ s. IsBacked s.1) (set_snoop me you w) r (set_snoop-Leaves me you w h) e

-- All but the connection `by`, which lets go of what it snooped on, stay marked.
let_go-marked :
    (by : ℕ) (p : Option ℕ) (w : Players)
    → w.snoop_on by ≡ p
    → IsMarked w
    → (x y : ℕ) → x ≢ by
    → (let_go p w).snoop_on x ≡ some y
    → (let_go p w).snoop_by y ≡ some x
let_go-marked by none w e h x y n f = h.marked x y f
let_go-marked by (some p) w e h x y n f = ground (arith, e, f, h.marked x y, h.marked by p, n)

abbrev pub Keeps : Reply × Players → Type 0
Keeps r = r.0 ≢ busy → IsMarked r.1

connect-IsMarked :
    (on by : ℕ) (o : Option ℕ) (w : Players)
    → w.snoop_by on ≡ o
    → ((x y : ℕ) → x ≢ by → w.snoop_on x ≡ some y → w.snoop_by y ≡ some x)
    → Keeps (connect on by o w)
connect-IsMarked on by none w e g n = record { marked = λ x y f. ground (arith, e, f, g x y) }
connect-IsMarked on by (some o) w e g n = elim (n refl) [ ]

pub end_on-IsMarked :
    (ip : ℕ) (p : Option ℕ) (w : Players)
    → w.snoop_on ip ≡ p
    → IsMarked w
    → IsMarked (end_on ip p w)
end_on-IsMarked ip none w e h = h
end_on-IsMarked ip (some p) w e h = record {
  marked = λ x y f. ground (arith, e, f, h.marked x y, h.marked ip p);
}

pub end_by-IsMarked :
    (ip : ℕ) (p : Option ℕ) (w : Players)
    → w.snoop_by ip ≡ p
    → IsBacked w
    → IsMarked w
    → IsMarked (end_by ip p w)
end_by-IsMarked ip none w e b h = h
end_by-IsMarked ip (some p) w e b h = record {
  marked = λ x y f. ground (arith, e, f, h.marked x y, b.backed p ip);
}

stop_snoop-IsMarked : (by : Option ℕ) (w : Players) → IsMarked w → Leaves Keeps (stop_snoop by w)
unfolding stop_snoop
stop_snoop-IsMarked none w h = ground arith
stop_snoop-IsMarked (some by) w h = λ n. end_on-IsMarked by (w.snoop_on by) w refl h

start_snoop-IsMarked :
    (on by : Option ℕ) (w : Players) → IsMarked w → Leaves Keeps (start_snoop on by w)
unfolding start_snoop
start_snoop-IsMarked none by w h = λ n. h
start_snoop-IsMarked (some on) none w h = λ n. h
start_snoop-IsMarked (some on) (some by) w h =
    let w1 = let_go (w.snoop_on by) w in
    connect-IsMarked on by (w1.snoop_by on) w1 refl (let_go-marked by (w.snoop_on by) w refl h)

set_snoop-Keeps :
    (me : ℕ) (you : Option ℕ) (w : Players) → IsMarked w → Leaves Keeps (set_snoop me you w)
unfolding set_snoop
set_snoop-Keeps me none w h =
    stop_snoop-IsMarked (find_pair me none w.ob w.all_players none none).1 w h
set_snoop-Keeps me (some you) w h =
    let found = find_pair me (some you) w.ob w.all_players none none in
    start_snoop-IsMarked found.0 found.1 w h

pub set_snoop-IsMarked :
    (me : ℕ) (you : Option ℕ) (w : Players) (r : Reply × Players)
    → IsMarked w
    → set_snoop me you w ≡ ok r
    → r.0 ≢ busy
    → IsMarked r.1
set_snoop-IsMarked me you w r h e =
    leaves Keeps (set_snoop me you w) r (set_snoop-Keeps me you w h) e

-- If set_snoop finds both connections, that of the snooper snoops on an old one, and the other is
-- a different one that is snooped on already, then the call replies Busy and leaves the snooper
-- pointing at the old one, which is no longer marked as snooped on.
pub set_snoop_busy :
    (me you on by old other : ℕ) (w : Players)
    → find_pair me (some you) w.ob w.all_players none none ≡ (some on, some by)
    → w.snoop_on by ≡ some old
    → w.snoop_by on ≡ some other
    → on ≢ old
    → (w' : Players) × (set_snoop me (some you) w ≡ ok (busy, w'))
      × (w'.snoop_on by ≡ some old)
      × (w'.snoop_by old ≡ none)
unfolding set_snoop start_snoop
set_snoop_busy me you on by old other w f e g n = (
  set_by old none w,
  ap (λ p. start_snoop p.0 p.1 w) f
      ∙ ap (λ p. let w1 = let_go p w in ok (connect on by (w1.snoop_by on) w1)) e
      ∙ ap (λ p. ok (connect on by p (set_by old none w))) kept,
  e,
  ground arith,
)
  where
    kept : (set_by old none w).snoop_by on ≡ some other
    kept = ground (arith, g, n)
