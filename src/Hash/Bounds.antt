-- ===== src/Hash/Bounds.antt =====
-- The range of the hash of stralloc.c and otable.c, and where it leaves the table.
use lpmud_ng.Base.{ℕ, ◌+◌, ◌*◌, ◌%◌, ◌^◌, ◌≤◌, ◌<◌, ◌≡◌, refl, [], ◌∷◌, arith, All}
use lpmud_ng.Base.Int.{ℤ, pos, negsuc, pos_part, neg_part, ◌+ℤ◌, ◌*ℤ◌, ◌%ℤ◌}
use lpmud_ng.Base.Run.{undefined}
use lpmud_ng.Base.Text.{Chars}
use lpmud_ng.Hash.{signed_char, mix, hash_from, str_hash, obj_hash, slot, htable_size, otable_size}

abbrev pub IsByte : ℕ → Type 0
IsByte c = c < 256

abbrev pub IsAscii : ℕ → Type 0
IsAscii c = c < 128

-- The magnitude of an integer is below `n`.
abbrev pub Within : ℕ → ℤ → Type 0
Within n a = (pos_part a < n) × (neg_part a < n)

%ℤ-Within : (a : ℤ) (n : ℕ) → 0 < n → Within n (a %ℤ n)
unfolding ◌%ℤ◌
%ℤ-Within (pos a) n h = ground arith
%ℤ-Within (negsuc a) n h = ground arith

hash_from-Within : (n : ℕ) (h : ℤ) (s : Chars) → 0 < n → Within n h → Within n (hash_from n h s)
unfolding hash_from
hash_from-Within n h [] p w = w
hash_from-Within n h (c ∷ s) p w = hash_from-Within n (mix h c %ℤ n) s p (%ℤ-Within (mix h c) n p)

-- The value that a step of the hash loop reduces fits an int of 32 bits, whatever the byte, if the
-- hash so far is smaller than the table in magnitude.
pub mix_no_overflow : (h : ℤ) (c : ℕ) → Within htable_size h → IsByte c → Within (2 ^ 31) (mix h c)
unfolding mix signed_char ◌+ℤ◌ ◌*ℤ◌
mix_no_overflow (pos h) c w b = ground arith
mix_no_overflow (negsuc h) c w b = ground arith

mix_ascii : (n k c : ℕ) → IsAscii c → mix (pos k) c %ℤ n ≡ pos ((k * 701 + c * 14009 + 54001) % n)
unfolding mix signed_char ◌+ℤ◌ ◌*ℤ◌ ◌%ℤ◌
mix_ascii n k c a = ground arith

hash_from_ascii :
    (n k : ℕ) (s : Chars)
    → 0 < n
    → k < n
    → All IsAscii s
    → (h : ℕ) × (h < n) × (hash_from n (pos k) s ≡ pos h)
unfolding hash_from
hash_from_ascii n k [] p l a = (k, l, refl)
hash_from_ascii n k (c ∷ s) p l a =
    rw (mix_ascii n k c a.0)
      (hash_from_ascii n ((k * 701 + c * 14009 + 54001) % n) s p (omega arith) a.1)

-- The hash of a string of ASCII bytes is an index of the string table, and the one of the object
-- table an index of that.
pub hashes_ascii :
    (s : Chars)
    → All IsAscii s
    → ((h : ℕ) × (h < htable_size) × (str_hash s ≡ pos h))
      × ((h : ℕ) × (h < otable_size) × (obj_hash s ≡ pos h))
unfolding str_hash obj_hash
hashes_ascii s a = (
  hash_from_ascii htable_size 0 s (omega arith) (omega arith) a,
  hash_from_ascii otable_size 0 s (omega arith) (omega arith) a,
)

-- Of any string the hash of stralloc.c is smaller than the table in magnitude.
pub str_hash-Within : (s : Chars) → Within htable_size (str_hash s)
unfolding str_hash
str_hash-Within s = hash_from-Within htable_size (pos 0) s (omega arith) (omega arith)

-- The string hash of a string of one byte from 128 to 252, read as a signed char, is negative, and
-- the table is accessed outside its bounds.
pub slot_high : (c : ℕ) → 128 ≤ c → c < 253 → slot (str_hash (c ∷ [])) ≡ undefined
unfolding slot str_hash
slot_high c l h = ground arith
