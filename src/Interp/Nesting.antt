-- ===== src/Interp/Nesting.antt =====
-- break and continue stay inside their loop: break_flag and break_level of lpmud/interpret.c.
mod Loops
pub mod Expressions
use lpmud_ng.Base.{ℕ, ◌<◌, ◌≡◌, ◌⊎◌, ◌∙◌, arith}
use lpmud_ng.Interp.State.{State}
use lpmud_ng.Interp.Assign.{assign_element}
use lpmud_ng.Interp.After.{Post-weaken}
use lpmud_ng.Interp.Calm.{IsCalm, assign_element-IsCalm}
use lpmud_ng.Interp.Respect.{Relation}

-- A break or continue that waits is inside a loop.
abbrev pub IsInLoop : State → Type 0
IsInLoop s = (s.break_flag ≡ 0) ⊎ (0 < s.break_level)

-- The level is as before, and what waits is inside a loop if it was so before.
pub record IsNested (s t : State) : Type 0 where
  pub level : t.break_level ≡ s.break_level
  pub waits : IsInLoop s → IsInLoop t

pub calm :
    (s t : State) → t.break_level ≡ s.break_level → t.break_flag ≡ s.break_flag → IsNested s t
calm s t e f = record { level = e; waits = λ h. ground (arith, e, f, h) }

pub IsNested-trans : (s t u : State) → IsNested s t → IsNested t u → IsNested s u
IsNested-trans s t u h k = record { level = k.level ∙ h.level; waits = λ w. k.waits (h.waits w) }

abbrev pub nesting : Relation
nesting = record {
  Steps = IsNested;
  Ready = λ s. Unit;
  Stuck = Unit;
  calm = λ s t level flag l same. calm s t level flag;
  elements = λ vec i v s r.
      Post-weaken Unit (IsCalm s) (IsNested s) (assign_element vec i v s)
        (λ t h. calm s t h.level h.flag) (assign_element-IsCalm Unit vec i v s);
  trans = IsNested-trans;
  keeps = λ s t h r. tt;
}
