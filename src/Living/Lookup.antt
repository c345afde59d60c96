-- ===== src/Living/Lookup.antt =====
-- What find_living_object of lpmud/object.c returns.
use lpmud_ng.Base.{ℕ, ◌≡◌, ◌⊎◌, Bool, true, false, Option, none, some}
use lpmud_ng.Base.Chain
use lpmud_ng.Base.Text.{Chars}
use lpmud_ng.Living.{Names}

-- An object that a search for the living `s` may return: a player, if only players are wanted, is one
-- that was interactive once.
pub record IsLiving (t : Names) (s : Chars) (player : Bool) (o : ℕ) : Type 0 where
  pub named : t.living_name o ≡ some s
  pub enabled : t.enable_commands o ≡ true
  pub seen : (player ≡ false) ⊎ (t.once_interactive o ≡ true)

-- What the result of the search says.
abbrev pub Found : Names → Chars → Bool → Option ℕ → Type 0
Found t s player none = (o : ℕ) → ¬ (IsLiving t s player o)
Found t s player (some o) = IsLiving t s player o
