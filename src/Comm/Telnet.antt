-- ===== src/Comm/Telnet.antt =====
-- telnet_neg of lpmud/comm1.c. `from` is the memory from the pointer on, `out` what has been written,
-- the last byte first, and a read behind that memory is `none`.
use lpmud_ng.Base.{ℕ, ◌==◌, leb, ltb, if◌then◌else◌, ◌||◌, Option, none, some, List, [], ◌∷◌}
use lpmud_ng.Base.Run.{Run, ok, undefined}

pub data State : Type 0 where
  ts_data ts_iac ts_will ts_wont ts_do ts_dont : State

abbrev pub iac : ℕ
iac = 255

abbrev pub opt_will : ℕ
opt_will = 251

abbrev pub opt_wont : ℕ
opt_wont = 252

abbrev pub opt_do : ℕ
opt_do = 253

abbrev pub opt_dont : ℕ
opt_dont = 254

abbrev pub back : List ℕ → List ℕ
back [] = []
back (c ∷ out) = out

abbrev pub backwards : List ℕ → List ℕ → List ℕ
backwards [] rest = rest
backwards (c ∷ out) rest = backwards out (c ∷ rest)

-- The state after a byte behind IAC
unfoldable pub command : ℕ → State
command c =
    if c == opt_will
    then ts_will
    else if c == opt_wont
    then ts_wont
    else if c == opt_do
    then ts_do
    else if c == opt_dont
    then ts_dont
    else ts_data

-- `options` is how many names the table `telopts` of <arpa/telnet.h> has. A name behind them is not
-- there to be read.
module _ (options : ℕ) where
  -- Behind WILL, WONT, DO and DONT the name of the option is read.
  abbrev pub option : ℕ → Option (Run (List ℕ)) → Option (Run (List ℕ))
  option c rest = if ltb c options then rest else some undefined

  unfoldable pub negotiate : State → List ℕ → List ℕ → Option (Run (List ℕ))
  negotiate s out [] = none
  negotiate ts_data out (c ∷ from) =
      let begun = negotiate ts_iac out from in
      let erased = negotiate ts_data (back out) from in
      let dropped = negotiate ts_data out from in
      let kept = negotiate ts_data (c ∷ out) from in
      if c == iac
      then begun
      else if c == 8 || c == 127
      then erased
      else if leb 128 c
      then dropped
      else if c == 0
      then some (ok (backwards (c ∷ out) []))
      else kept
  negotiate ts_iac out (c ∷ from) = negotiate (command c) out from
  negotiate ts_will out (c ∷ from) = option c (negotiate ts_data out from)
  negotiate ts_wont out (c ∷ from) = option c (negotiate ts_data out from)
  negotiate ts_do out (c ∷ from) = option c (negotiate ts_data out from)
  negotiate ts_dont out (c ∷ from) = option c (negotiate ts_data out from)

  unfoldable pub telnet_neg : List ℕ → Option (Run (List ℕ))
  telnet_neg from = negotiate ts_data [] from
