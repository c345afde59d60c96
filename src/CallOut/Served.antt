-- ===== src/CallOut/Served.antt =====
-- What a round of call_out() of call_out.c is to make of the pending calls.
use lpmud_ng.Base.{
  ℕ, ◌+◌, ◌≡◌, refl, Bool, true, false, List, [], ◌∷◌, ◌++◌, if◌then◌else◌, inl, inr, Bool-cases,
  length,
}
use lpmud_ng.Base.Int.{ℤ, pos, ◌-ℤ◌, leb_ℤ}
use lpmud_ng.CallOut.Due.{due}
use lpmud_ng.CallOut.{Target, Driver, Invocation, invocation, clear_state, recover, is_zero}

-- The calls that are due by time 0, and those that are left: the list is cut at the first that is
-- not due.
unfoldable pub overdue : List (Target × ℤ) → List Target
overdue [] = []
overdue ((x, n) ∷ l) = if leb_ℤ n (pos 0) then x ∷ overdue l else []

unfoldable pub later : List (Target × ℤ) → List (Target × ℤ)
later [] = []
later ((x, n) ∷ l) = if leb_ℤ n (pos 0) then later l else (x, n) ∷ l

-- The calls into the objects that are not destructed, in order.
unfoldable pub invocations : (ℕ → Bool) → (ℕ → Bool) → List Target → List Invocation
invocations dest able [] = []
invocations dest able (x ∷ l) =
    if dest x.ob then invocations dest able l else invocation dest able x ∷ invocations dest able l

-- An LPC function that makes no delayed call, removes none, and destructs no object.
pub record IsQuiet (lpc : Invocation → Driver → Driver × Bool) : Type 0 where
  pub calls : (i : Invocation) (d : Driver) → (lpc i d).0.calls ≡ d.calls
  pub destructed : (i : Invocation) (d : Driver) → (lpc i d).0.destructed ≡ d.destructed
  pub enable_commands :
      (i : Invocation) (d : Driver) → (lpc i d).0.enable_commands ≡ d.enable_commands

-- What the loop leaves of a list of `l` due times, with `ran` as the calls that it made.
pub record Served (l : List (Target × ℤ)) (d : Driver) (r : Driver × List Invocation) : Type 0 where
  pub left : due (pos 0) r.0.calls.pending ≡ later l
  pub ran : r.1 ≡ invocations d.destructed d.enable_commands (overdue l)
  pub structures : length r.0.calls.pending + r.0.calls.free ≡ length d.calls.pending + d.calls.free
  pub num_call : r.0.calls.num_call ≡ d.calls.num_call

-- The seconds that `call_out` takes off: none at its first call.
abbrev pub elapsed : ℤ → Driver → ℤ
elapsed now d = now -ℤ (if is_zero d.last_time then now else d.last_time)

pub invocations-cons :
    (a b : ℕ → Bool) (x : Target) (l : List Target)
    → invocations a b (x ∷ l) ≡ invocations a b (x ∷ []) ++ invocations a b l
unfolding invocations
invocations-cons a b x l = elim (Bool-cases (a x.ob)) [ inl e ↦ rw e | inr e ↦ rw e ]

pub recover_keeps :
    (p : Driver × Bool)
    → ((recover p).calls ≡ p.0.calls)
      × ((recover p).destructed ≡ p.0.destructed)
      × ((recover p).enable_commands ≡ p.0.enable_commands)
unfolding recover clear_state
recover_keeps (e, true) = (refl, refl, refl)
recover_keeps (e, false) = (refl, refl, refl)
