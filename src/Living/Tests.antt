-- ===== src/Living/Tests.antt =====
-- Runs of the functions on living names, and their theorems at a small table.
use lpmud_ng.Base.{ℕ, ◌<◌, ◌≡◌, refl, true, false, ◌==◌, if◌then◌else◌, none, some, [], ◌∷◌}
use lpmud_ng.Base.Int.{ℤ, pos, negsuc}
use lpmud_ng.Base.Run.{Run, ok}
use lpmud_ng.Base.Chain
use lpmud_ng.Base.Text.{Chars, codes}
use lpmud_ng.Value.{number}
use lpmud_ng.Living.{
  living_hash_size, hash_living_name, Names, link_living, find_living_object, set_living_name,
  remove_living_name, program,
}
use lpmud_ng.Living.Methods.{
  IsTable, without, link_living-IsTable, hash_living_name_bound, set_living_name_lem,
  remove_living_name_lem, num_living_names_lem,
}

abbrev empty : Names
empty = record {
  hashed_living = λ _. [];
  living_name = λ _. none;
  enable_commands = λ _. true;
  once_interactive = λ o. o == 3;
  interactive = λ o. o == 3;
  is_wizard = λ _. false;
  num_living_names = pos 0;
  num_searches = 1;
  search_length = 1;
}

abbrev harry : Chars
harry = codes "harry"

abbrev orc : Chars
orc = codes "orc"

-- Object 3 is named "harry".
abbrev one : Names
one = link_living 3 harry empty

empty-IsTable : IsTable empty
unfolding Chain.count
empty-IsTable = record { stands = λ h o. refl }

one-IsTable : IsTable one
one-IsTable = link_living-IsTable 3 harry empty empty-IsTable refl

found_player : (find_living_object harry true one).0 ≡ some 3
unfolding program
found_player = refl

-- A byte from 128 on is negative as a `char`, and the index is still inside the table.
high_byte : hash_living_name (200 ∷ []) ≡ 40
unfolding program
high_byte = refl

-- Named a second time, one object leaves a count of -1 behind in a table that had 0.
abbrev count_of : Run Names → ℤ
count_of (ok t) = t.num_living_names
count_of _ = pos 0

renamed : count_of (set_living_name 3 orc (some (number (pos 30))) one) ≡ negsuc 0
unfolding program
renamed = refl

hash_living_name_bound_example : hash_living_name (200 ∷ 255 ∷ []) < living_hash_size
hash_living_name_bound_example = hash_living_name_bound (200 ∷ 255 ∷ [])

set_living_name_lem_example :
    (t : Names) × (set_living_name 3 orc (some (number (pos 30))) one ≡ ok t)
    × IsTable t
    × ((o : ℕ) → t.living_name o ≡ (if o == 3 then some orc else one.living_name o))
unfolding link_living
set_living_name_lem_example = set_living_name_lem 3 orc (some (number (pos 30))) one one-IsTable

remove_living_name_lem_example :
    (remove_living_name 3 one ≡ ok (without 3 harry one)) × IsTable (without 3 harry one)
unfolding link_living
remove_living_name_lem_example = remove_living_name_lem 3 harry one one-IsTable refl

num_living_names_lem_example :
    (t : Names) × (set_living_name 3 orc none one ≡ ok t) × (t.num_living_names ≡ negsuc 0)
unfolding program
num_living_names_lem_example = num_living_names_lem 3 orc none one one-IsTable
