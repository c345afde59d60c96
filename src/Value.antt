-- ===== src/Value.antt =====
-- The values of LPC (interpret.h) and the counts of references to objects and vectors that their
-- copies hold (assign_svalue and free_svalue of interpret.c, add_ref and the count of free_object of
-- object.c). The text of a string is a value here; its shared copies are the matter of Strings.
use lpmud_ng.Base.{ℕ, Option, none, some, ◌==◌, if◌then◌else◌}
use lpmud_ng.Base.Int.{ℤ, pos, ◌+ℤ◌, ◌-ℤ◌}
use lpmud_ng.Base.Text.{Chars}

pub data Value : Type 0 where
  number : ℤ → Value
  string : Chars → Value
  pointer : ℕ → Value
  object : ℕ → Value

-- The reference counts of the objects and of the vectors, by address.
pub record Refs : Type 0 where
  pub objects : ℕ → ℤ
  pub vectors : ℕ → ℤ

abbrev pub bump : (ℤ → ℤ) → ℕ → (ℕ → ℤ) → ℕ → ℤ
bump f a r i = if i == a then f (r i) else r i

abbrev pub inc : ℤ → ℤ
inc n = n +ℤ pos 1

abbrev pub dec : ℤ → ℤ
dec n = n -ℤ pos 1

unfoldable pub add_ref : ℕ → Refs → Refs
add_ref ob r = record r { objects = bump inc ob r.objects }

-- The count of `free_object`; what follows when it reaches zero is not part of this model.
unfoldable pub drop_ref : ℕ → Refs → Refs
drop_ref ob r = record r { objects = bump dec ob r.objects }

unfoldable pub free_svalue : Value → Refs → Refs
free_svalue (number n) r = r
free_svalue (string s) r = r
free_svalue (pointer v) r = record r { vectors = bump dec v r.vectors }
free_svalue (object ob) r = drop_ref ob r

-- The part of `assign_svalue` behind the release of the old value.
unfoldable pub hold_svalue : Value → Refs → Refs
hold_svalue (number n) r = r
hold_svalue (string s) r = r
hold_svalue (pointer v) r = record r { vectors = bump inc v r.vectors }
hold_svalue (object ob) r = add_ref ob r

-- The new contents of `dest` (a null pointer assigns 0) and the counts.
unfoldable pub assign_svalue : Value → Option Value → Refs → Value × Refs
assign_svalue dest none r = (number (pos 0), free_svalue dest r)
assign_svalue dest (some v) r = (v, hold_svalue v (free_svalue dest r))
