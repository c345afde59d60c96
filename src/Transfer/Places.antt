-- ===== src/Transfer/Places.antt =====
-- How move_or_destruct ends.
use lpmud_ng.Base.{ℕ, ◌+◌, ◌<◌, ◌≡◌, ◌⊎◌, true, false, Option, none, some, length}
use lpmud_ng.Base.Int.{ℤ}
use lpmud_ng.Base.Run.{ok}
use mathlib.Core.Option.{map}
use lpmud_ng.Value.{Value, number}
use lpmud_ng.Environment.{World, Event}
use lpmud_ng.Environment.Tree.{IsTree}
use lpmud_ng.Environment.Parts.{Like, IsQuiet}
use lpmud_ng.Transfer.{Question, query_weight, transfer_object}
use lpmud_ng.Transfer.Results.{IsCalm}

-- What makes transfers return
pub record IsReady (fuel n : ℕ) (w : World) : Type 0 where
  pub tree : IsTree n w.super w.contains
  pub high : n < fuel
  pub wide : (q : ℕ) → length (w.contains q) + 1 < fuel
  pub alive : (o : ℕ) → w.destructed o ≡ false

module _ (ask : Question → ℕ → Option Value → World → Option Value × World)
    (lpc : Event → ℕ → World → World) (calm : IsCalm ask) (quiet : IsQuiet lpc)
    (weighs : (o : ℕ) (w : World) → (n : Option ℤ) × ((ask query_weight o none w).0 ≡ map number n))
    (destruct : ℕ → World → World)
    (destructs : (o : ℕ) (w : World) → (destruct o w).destructed o ≡ true) where
  -- The object is destructed, or was moved to a place by transfer_object in a world with that tree.
  abbrev pub Ended : ℕ → ℕ → World → World → Type 0
  Ended fuel what w u =
      (u.destructed what ≡ true)
      ⊎ ((to : ℕ) × (v : World) × Like w.super w.contains w v
          × (transfer_object ask lpc fuel what to v ≡ some (ok (0, u))))
