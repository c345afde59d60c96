-- ===== src/Hash/Tests.antt =====
-- Runs of the hash, and its theorems at concrete strings.
use lpmud_ng.Base.{ℕ, ◌^◌, ◌<◌, ◌≡◌, refl, [], ◌∷◌, arith}
use lpmud_ng.Base.Int.{pos, negsuc}
use lpmud_ng.Base.Run.{undefined}
use lpmud_ng.Base.Text.{codes}
use lpmud_ng.Hash.Bounds.{Within, mix_no_overflow, hashes_ascii, slot_high}
use lpmud_ng.Hash.{mix, str_hash, obj_hash, slot, htable_size, otable_size}

hash_runs : str_hash (codes "say") ≡ pos 96
unfolding str_hash
hash_runs = refl

high_runs : str_hash (0xe4 ∷ []) ≡ negsuc 1191
unfolding str_hash
high_runs = refl

mix_no_overflow_example : Within (2 ^ 31) (mix (pos 2202) 127)
mix_no_overflow_example = mix_no_overflow (pos 2202) 127 (omega arith) (omega arith)

hashes_ascii_example :
    ((h : ℕ) × (h < htable_size) × (str_hash (codes "say") ≡ pos h))
    × ((h : ℕ) × (h < otable_size) × (obj_hash (codes "say") ≡ pos h))
hashes_ascii_example = hashes_ascii (codes "say") (omega arith)

slot_high_example : slot (str_hash (0xe4 ∷ [])) ≡ undefined
slot_high_example = slot_high 0xe4 (omega arith) (omega arith)
