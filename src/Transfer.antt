-- ===== src/Transfer.antt =====
-- transfer_object of lpmud/simulate.c: whether an object may be moved, and its move; and
-- move_or_destruct, which tries one place after the other.
mod Results
mod Rules
mod Verdict
mod Places
mod Tests
use lpmud_ng.Base.{
  ℕ, zero, suc, Bool, true, false, not, ◌==◌, ◌||◌, ◌&&◌, if◌then◌else◌, Option, none, some,
}
use lpmud_ng.Base.Int.{ℤ, pos, ◌-ℤ◌}
use lpmud_ng.Base.Run.{Run, ok, error, fatal, undefined, ◌>>=◌}
use lpmud_ng.Value.{Value, number, string, pointer, object}
use lpmud_ng.Environment
use lpmud_ng.Environment.{World, Event, Step, is_zero, move_object}

-- The functions that are called in the objects
pub data Question : Type 0 where
  query_weight drop can_put_and_get prevent_insert get add_weight : Question

abbrev pub Outcome : Type 0
Outcome = Option (Run (ℕ × World))

abbrev pub is_set : Option ℕ → Bool
is_set none = false
is_set (some o) = true

-- The tests of an answer, where `none` is the null pointer: anything but 0, nothing or 0 or no number,
-- nothing or 0, and 0
abbrev pub is_refusal : Option Value → Bool
is_refusal none = false
is_refusal (some (number n)) = not (is_zero n)
is_refusal (some _) = true

abbrev pub is_denied : Option Value → Bool
is_denied none = true
is_denied (some (number n)) = is_zero n
is_denied (some _) = true

abbrev pub is_kept_back : Option Value → Bool
is_kept_back none = true
is_kept_back (some (number n)) = is_zero n
is_kept_back (some _) = false

abbrev pub is_too_heavy : Option Value → Bool
is_too_heavy (some (number n)) = is_zero n
is_too_heavy _ = false

abbrev pub refuse : ℕ → World → Outcome
refuse code w = some (ok (code, w))

abbrev pub with_code : Step → Outcome
with_code none = none
with_code (some m) = some (m >>= λ w. ok (0, w))

-- `ask` is what a function answers and what it does, if it ends without an error; `lpc` is that of the
-- functions that a move calls.
module _ (ask : Question → ℕ → Option Value → World → Option Value × World)
    (lpc : Event → ℕ → World → World) where
  -- A question, and the tests of the answer and of what has become of the objects
  abbrev pub inquire :
      Bool
      → Question
      → ℕ
      → Option Value
      → (Option Value → World → Bool)
      → ℕ
      → (World → Outcome)
      → World
      → Outcome
  inquire on q o arg stops code k w =
      let (r, w1) = ask q o arg w in if on then if stops r w1 then refuse code w1 else k w1 else k w

  unfoldable pub may_drop : ℕ → Option ℕ → (World → Outcome) → World → Outcome
  may_drop ob none k w = k w
  may_drop ob (some from) k w =
      inquire (w.enable_commands from) drop ob none (λ r u. is_refusal r || u.destructed ob) 2 k w

  unfoldable pub may_take : Option ℕ → (World → Outcome) → World → Outcome
  may_take none k w = k w
  may_take (some from) k w =
      inquire (is_set (w.super from) && not (w.enable_commands from)) can_put_and_get from none
        (λ r u. is_denied r || u.destructed from) 3 k w

  unfoldable pub may_insert : ℕ → ℕ → (World → Outcome) → World → Outcome
  may_insert ob to k w =
      let on = is_set (w.super to) && not (w.enable_commands to) in
      inquire on prevent_insert ob none (λ r u. is_refusal r) 4
        (inquire on can_put_and_get to none
          (λ r u. is_denied r || u.destructed to || u.destructed ob) 5 k)
        w

  unfoldable pub may_get : ℕ → ℕ → (World → Outcome) → World → Outcome
  may_get ob to k w =
      inquire (w.enable_commands to) get ob none (λ r u. is_kept_back r || u.destructed ob) 6 k w

  unfoldable pub may_carry : ℕ → Option ℤ → (World → Outcome) → World → Outcome
  may_carry to none k w = k w
  may_carry to (some n) k w =
      inquire (is_set (w.super to)) add_weight to (some (number n))
        (λ r u. is_too_heavy r || u.destructed to) 1 k w

  unfoldable pub relieve : Option ℕ → Option ℤ → (World → Outcome) → World → Outcome
  relieve (some from) (some n) k w =
      inquire (is_set (w.super from)) add_weight from (some (number (pos 0 -ℤ n))) (λ r u. false) 0
        k w
  relieve _ _ k w = k w

  abbrev pub check : ℕ → ℕ → Option ℕ → Option ℤ → (World → Outcome) → World → Outcome
  check ob to from weight k = may_drop ob from (
      may_take from
        (may_insert ob to (may_get ob to (may_carry to weight (relieve from weight k)))))

  abbrev pub finish : ℕ → ℕ → ℕ → World → Outcome
  finish fuel ob to w = with_code (move_object lpc fuel ob to w)

  abbrev pub weighed : ℕ → ℕ → ℕ → Option ℕ → Option Value → World → Outcome
  weighed fuel ob to from none w =
      if w.destructed ob then refuse 3 w else check ob to from none (finish fuel ob to) w
  weighed fuel ob to from (some (number n)) w =
      if w.destructed ob then refuse 3 w else check ob to from (some n) (finish fuel ob to) w
  weighed fuel ob to from (some _) w = some error

  unfoldable pub transfer_object : ℕ → ℕ → ℕ → World → Outcome
  transfer_object fuel ob to w =
      let (weight, w1) = ask query_weight ob none w in weighed fuel ob to (w.super ob) weight w1

  -- `destruct_object` of the object
  module _ (destruct : ℕ → World → World) where
    abbrev pub may_go_further : ℕ → Bool
    may_go_further code = code == 1 || (code == 4 || code == 5)

    abbrev pub after_transfer : (World → Step) → ℕ → ℕ → Outcome → Step
    after_transfer further what to none = none
    after_transfer further what to (some error) = some error
    after_transfer further what to (some fatal) = some fatal
    after_transfer further what to (some undefined) = some undefined
    after_transfer further what to (some (ok (code, u))) =
        if code == 0 || u.destructed what
        then some (ok u)
        else if may_go_further code && is_set (u.super to)
        then further u
        else some (ok (destruct what u))

    -- `hops` bounds the places that are tried, and `none` is the end of it.
    unfoldable pub move_or_destruct : ℕ → ℕ → ℕ → Option ℕ → World → Step
    move_or_destruct zero fuel what to w = none
    move_or_destruct (suc hops) fuel what none w = some (ok (destruct what w))
    move_or_destruct (suc hops) fuel what (some to) w =
        after_transfer (λ u. move_or_destruct hops fuel what (u.super to) u) what to
          (transfer_object fuel what to w)

-- All that a run computes with.
unfoldable pub program : Unit {0}
unfolding Environment.program may_drop may_take may_insert may_get may_carry relieve transfer_object
    move_or_destruct
program = tt
