-- ===== src/Hash.antt =====
-- The string hash of stralloc.c, which otable.c repeats with another table size.
pub mod Bounds
pub mod Table
mod Tests
use lpmud_ng.Base.{ℕ, ◌-◌, [], ◌∷◌, ltb, if◌then◌else◌}
use lpmud_ng.Base.Int.{ℤ, pos, negsuc, ◌+ℤ◌, ◌*ℤ◌, ◌%ℤ◌}
use lpmud_ng.Base.Run.{Run, ok, undefined}
use lpmud_ng.Base.Text.{Chars}

-- The primes P1, P2 and P3, and the sizes of the two tables.
abbrev pub p1 : ℤ
p1 = pos 701

abbrev pub p2 : ℤ
p2 = pos 14009

abbrev pub p3 : ℤ
p3 = pos 54001

abbrev pub htable_size : ℕ
htable_size = 2203

abbrev pub otable_size : ℕ
otable_size = 1009

-- A byte read through a `char *` where `char` is signed, as on the platforms of the README.
unfoldable pub signed_char : ℕ → ℤ
signed_char c = if ltb c 128 then pos c else negsuc (255 - c)

-- `h * P1 + *s * P2 + P3`, before the remainder
unfoldable pub mix : ℤ → ℕ → ℤ
mix h c = h *ℤ p1 +ℤ signed_char c *ℤ p2 +ℤ p3

unfoldable pub hash_from : ℕ → ℤ → Chars → ℤ
hash_from size h [] = h
hash_from size h (c ∷ s) = hash_from size (mix h c %ℤ size) s

unfoldable pub str_hash : Chars → ℤ
unfolding hash_from mix signed_char ◌+ℤ◌ ◌*ℤ◌ ◌%ℤ◌
str_hash s = hash_from htable_size (pos 0) s

unfoldable pub obj_hash : Chars → ℤ
unfolding hash_from mix signed_char ◌+ℤ◌ ◌*ℤ◌ ◌%ℤ◌
obj_hash s = hash_from otable_size (pos 0) s

-- The access `table[h]`: a negative index is outside the table.
unfoldable pub slot : ℤ → Run ℕ
slot (pos h) = ok h
slot (negsuc h) = undefined
