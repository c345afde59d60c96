-- ===== src/CallOut/Pending.antt =====
-- What new_call_out and remove_call_out do to the due times, the structures and the references.
use mathlib.Core.List.{Perm}
use mathlib.Core.List.Perm
use lpmud_ng.Base.{
  ℕ, ◌+◌, ◌≡◌, refl, ◌∙◌, true, List, [], ◌∷◌, Option, none, some, arith, inl, inr, Bool-cases,
  Option-cases, length, ==_refl,
}
use lpmud_ng.Base.Int.{ℤ, pos, negsuc, ◌+ℤ◌, ◌-ℤ◌, ◌≤ℤ◌, leb_ℤ, int_laws}
use lpmud_ng.Base.Text.{Chars, str_eq_refl}
use lpmud_ng.CallOut.Due.{
  due, insert_due, remove_due, due-insert_call, due-unlink_call, +ℤ-zero-left, length-carry,
}
use lpmud_ng.CallOut.{
  Target, Call, Calls, take_free, call_arg, not_negative, insert_call, new_call_out, is_call,
  unlink_call, free_call, remove_call_out,
}
use lpmud_ng.Value.{
  Value, number, string, pointer, object, Refs, add_ref, drop_ref, free_svalue, hold_svalue,
  assign_svalue,
}

-- Every structure is pending or free.
abbrev pub IsBalanced : Calls → Type 0
IsBalanced c = length c.pending + c.free ≡ c.num_call

-- No time of the list is earlier than the one before it.
abbrev pub IsOrdered : ℤ → List (Target × ℤ) → Type 0
IsOrdered n [] = Unit
IsOrdered n ((x, m) ∷ l) = (n ≤ℤ m) × IsOrdered m l

pub insert_due-IsOrdered :
    (x : Target) (b n : ℤ) (l : List (Target × ℤ))
    → b ≤ℤ n
    → IsOrdered b l
    → IsOrdered b (insert_due x n l)
unfolding insert_due
insert_due-IsOrdered x b n [] h o = (h, tt)
insert_due-IsOrdered x b n ((y, m) ∷ l) h o = elim (Bool-cases (leb_ℤ n m)) [
  | inl e ↦ rw e (h, (ground arith, o.1))
  | inr e ↦ rw e (o.0, insert_due-IsOrdered x m n l (ground arith) o.1)
]

pub insert_due-perm :
    (x : Target) (n : ℤ) (l : List (Target × ℤ)) → Perm (insert_due x n l) ((x, n) ∷ l)
unfolding insert_due
insert_due-perm x n [] = Perm.refl _
insert_due-perm x n ((y, m) ∷ l) = elim (Bool-cases (leb_ℤ n m)) [
  | inl e ↦ rw e (Perm.refl _)
  | inr e ↦ rw e (Perm.trans (Perm.cons (y, m) (insert_due-perm x n l)) (Perm.swap (x, n) (y, m) l))
]

length-insert_call :
    (x : Target) (d : ℤ) (l : List Call) → length (insert_call x d l) ≡ length l + 1
unfolding insert_call
length-insert_call x d [] = omega arith
length-insert_call x d (c ∷ l) = ground (arith, length-insert_call x (d -ℤ c.delta) l)

-- The target that `new_call_out` puts on the list.
unfoldable pub new_target : ℕ → Chars → Option Value → Refs → Target
new_target ob fun arg r = record { function = fun; ob = ob; arg = (call_arg arg (add_ref ob r)).0 }

-- A new call is due after its delay, at once if that is negative; the other calls keep their times,
-- an ordered list stays ordered, and every structure is still pending or free.
pub record Adds (x : Target) (delay t : ℤ) (c c' : Calls) : Type 0 where
  pub placed : due t c'.pending ≡ insert_due x (t +ℤ not_negative delay) (due t c.pending)
  pub ordered : IsOrdered t (due t c.pending) → IsOrdered t (due t c'.pending)
  pub balanced : IsBalanced c → IsBalanced c'

not_negative-nonneg : (d : ℤ) → pos 0 ≤ℤ not_negative d
not_negative-nonneg d = ground arith

le-add : (t d : ℤ) → pos 0 ≤ℤ d → t ≤ℤ t +ℤ d
le-add t d h = omega int_laws

-- new_call_out puts the call in the place of its due time (at once for a negative delay) before
-- the calls that are due at the same time, leaves the due times of the others, keeps an ordered
-- list ordered and every structure pending or free.
pub new_call_out_lem :
    (ob : ℕ) (fun : Chars) (delay t : ℤ) (arg : Option Value) (c : Calls) (r : Refs)
    → Adds (new_target ob fun arg r) delay t c (new_call_out ob fun delay arg (c, r)).0
unfolding new_call_out new_target take_free
new_call_out_lem ob fun delay t arg c r =
    let x = new_target ob fun arg r in
    let d = not_negative delay in
    let put = due-insert_call t d x c.pending in
    let placed : due t (new_call_out ob fun delay arg (c, r)).0.pending
        ≡ insert_due x (t +ℤ d) (due t c.pending) =
      ground (arith, put) in
    record {
      placed = placed;
      ordered = λ o. rw placed (
          insert_due-IsOrdered x t (t +ℤ d) (due t c.pending)
            (le-add t d (not_negative-nonneg delay)) o);
      balanced = λ b. ground (arith, length-insert_call x d c.pending);
    }

length-unlink_call :
    (ob : ℕ) (fun : Chars) (t : ℤ) (l : List Call) (n : ℤ) (x : Target) (l' : List Call)
    → unlink_call ob fun t l ≡ some (n, x, l')
    → length l ≡ length l' + 1
unfolding unlink_call
length-unlink_call ob fun t [] n x l' e = cc
length-unlink_call ob fun t (c ∷ l) n x l' e =
    elim (Option-cases (unlink_call ob fun (t +ℤ c.delta) l)) [
      | inl m ↦ ground (arith, length-carry c.delta l)
      | inr ((n', x', l''), m) ↦
          ground
            (arith, length-carry c.delta l, length-unlink_call ob fun (t +ℤ c.delta) l n' x' l'' m)
    ]

-- The outcome of `remove_call_out` against the due times, counted from now: -1 and no change if no
-- call matches; otherwise the time left to the first that does, which alone is taken off the list.
abbrev pub Removes :
    Option (ℤ × Target × List (Target × ℤ)) → Calls × Refs → ℤ × Calls × Refs → Type 0
Removes none (c, r) (n, c', r') = (n ≡ negsuc 0) × (c' ≡ c) × (r' ≡ r)
Removes (some (m, x, l)) (c, r) (n, c', r') =
    (n ≡ m)
    × (due (pos 0) c'.pending ≡ l)
    × (r' ≡ drop_ref x.ob (free_svalue x.arg r))
    × (IsBalanced c → IsBalanced c')

-- remove_call_out returns -1 and changes nothing if no call of that function in that object is
-- pending; otherwise it returns the time left to the first one, removes that call only, leaves the
-- due times of the others, gives back what the call held, and keeps every structure pending or
-- free.
pub remove_call_out_lem :
    (ob : ℕ) (fun : Chars) (c : Calls) (r : Refs)
    → Removes (remove_due ob fun (due (pos 0) c.pending)) (c, r) (remove_call_out ob fun (c, r))
unfolding remove_call_out free_call
remove_call_out_lem ob fun c r =
    rw (← due-unlink_call ob fun (pos 0) c.pending)
      (elim (Option-cases (unlink_call ob fun (pos 0) c.pending)) [
        | inl e ↦ rw (e, remove_call_out) (refl, refl, refl)
        | inr ((n, x, l), e) ↦
            rw (e, remove_call_out)
              (
                refl,
                refl,
                refl,
                λ b. omega (arith, length-unlink_call ob fun (pos 0) c.pending n x l e),
              )
      ])

remove_due-insert_due :
    (ob : ℕ) (fun : Chars) (x : Target) (n : ℤ) (l : List (Target × ℤ))
    → is_call ob fun x ≡ true
    → remove_due ob fun l ≡ none
    → remove_due ob fun (insert_due x n l) ≡ some (n, x, l)
unfolding remove_due insert_due
remove_due-insert_due ob fun x n [] e m = rw e
remove_due-insert_due ob fun x n ((y, k) ∷ l) e m = elim (Option-cases (remove_due ob fun l)) [
  | inl o ↦ ground (arith, remove_due-insert_due ob fun x n l e o)
  | inr (v, o) ↦ ground (arith, o)
]

-- The counts agree at every address.
abbrev pub SameRefs : Refs → Refs → Type 0
SameRefs r q = ((a : ℕ) → q.objects a ≡ r.objects a) × ((a : ℕ) → q.vectors a ≡ r.vectors a)

cancel : (n : ℤ) → n +ℤ pos 1 -ℤ pos 1 ≡ n
cancel n = omega int_laws

-- What a pending call holds is given back when it is freed.
hold-release :
    (ob : ℕ) (arg : Option Value) (r : Refs)
    → SameRefs r
        (drop_ref ob (free_svalue (call_arg arg (add_ref ob r)).0 (call_arg arg (add_ref ob r)).1))
unfolding drop_ref add_ref free_svalue call_arg assign_svalue hold_svalue
hold-release ob none r = ((λ a. ground (arith, cancel (r.objects a))), λ a. refl)
hold-release ob (some (number n)) r = ((λ a. ground (arith, cancel (r.objects a))), λ a. refl)
hold-release ob (some (string s)) r = ((λ a. ground (arith, cancel (r.objects a))), λ a. refl)
hold-release ob (some (pointer v)) r =
    ((λ a. ground (arith, cancel (r.objects a))), λ a. ground (arith, cancel (r.vectors a)))
hold-release ob (some (object o)) r =
    ((λ a. ground (arith, cancel (r.objects a), cancel (r.objects a +ℤ pos 1))), λ a. refl)

-- If no call of a function in an object is pending, one that is put on the list and then removed
-- gives its delay (0 for a negative one) and leaves all due times and all reference counts as they
-- were.
pub new-remove :
    (ob : ℕ) (fun : Chars) (delay : ℤ) (arg : Option Value) (c : Calls) (r : Refs)
    → remove_due ob fun (due (pos 0) c.pending) ≡ none
    → let (n, c', r') = remove_call_out ob fun (new_call_out ob fun delay arg (c, r)) in
      (n ≡ not_negative delay) × (due (pos 0) c'.pending ≡ due (pos 0) c.pending) × SameRefs r r'
unfolding new_call_out new_target
new-remove ob fun delay arg c r miss =
    let made = new_call_out ob fun delay arg (c, r) in
    let x = new_target ob fun arg r in
    let n = pos 0 +ℤ not_negative delay in
    let added = new_call_out_lem ob fun delay (pos 0) arg c r in
    let same : is_call ob fun x ≡ true = ground (arith, ==_refl ob, str_eq_refl fun) in
    let hit : remove_due ob fun (due (pos 0) made.0.pending) ≡ some (n, x, due (pos 0) c.pending) =
      rw added.placed (remove_due-insert_due ob fun x n (due (pos 0) c.pending) same miss) in
    let out = rw hit at (remove_call_out_lem ob fun made.0 made.1) in
    (out.0 ∙ +ℤ-zero-left (not_negative delay), out.1, rw out.2 (hold-release ob arg r))
