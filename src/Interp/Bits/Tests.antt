-- ===== src/Interp/Bits/Tests.antt =====
-- Runs of set_bit, clear_bit and test_bit (lpmud/interpret.c), and the theorems at an example.

use lpmud_ng.Base.{◌≡◌, refl, ◌==◌, if◌then◌else◌, []}
use lpmud_ng.Base.Int.{pos}
use lpmud_ng.Base.Run.{ok, error}
use lpmud_ng.Base.Text.{codes}
use lpmud_ng.Value.{string}
use lpmud_ng.Interp.Ops.{const0, const1}
use lpmud_ng.Interp.Bits.{change_bits, set_bit, clear_bit, test_bit}
use lpmud_ng.Interp.Bits.Results.{test-set_bit, test-clear_bit}

set_ten : set_bit [] (pos 10) ≡ ok (string (codes " 0"))
unfolding set_bit change_bits
set_ten = refl

set_no_pattern : set_bit (codes "a") (pos 0) ≡ error
unfolding set_bit change_bits
set_no_pattern = refl

clear_ten : clear_bit (codes " 0") (pos 10) ≡ ok (string (codes "  "))
unfolding clear_bit change_bits
clear_ten = refl

clear_beyond : clear_bit (codes "!") (pos 6) ≡ ok (string (codes "!"))
unfolding clear_bit change_bits
clear_beyond = refl

test-set_bit_example :
    test_bit (codes " 0") (pos 10) ≡ (if 10 == 10 then ok const1 else test_bit [] (pos 10))
unfolding set_bit change_bits
test-set_bit_example = test-set_bit [] (codes " 0") 10 10 refl

test-clear_bit_example :
    test_bit (codes "  ") (pos 4) ≡ (if 4 == 10 then ok const0 else test_bit (codes " 0") (pos 4))
unfolding clear_bit change_bits
test-clear_bit_example = test-clear_bit (codes " 0") (codes "  ") 10 4 refl
