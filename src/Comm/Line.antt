-- ===== src/Comm/Line.antt =====
-- What becomes of the bytes that a player types: copy_chars, then telnet_neg.
use lpmud_ng.Base.{
  ℕ, suc, ◌+◌, ◌≤◌, ◌<◌, ◌≡◌, ◌≢◌, refl, Bool, true, false, ◌==◌, leb, ltb, if◌then◌else◌, ◌||◌,
  ◌&&◌, Option, none, some, List, [], ◌∷◌, ◌++◌, length, take, All, arith,
}
use lpmud_ng.Comm.Buffer.{copy_chars}
use lpmud_ng.Comm.Telnet.{
  iac, State, ts_data, ts_iac, ts_will, ts_wont, ts_do, ts_dont, back, backwards, command, option,
  negotiate,
}
use lpmud_ng.Base.Run.{Run, ok, error, fatal, undefined}

-- What `copy_chars` writes where there is room for all
abbrev pub expand : List ℕ → List ℕ
expand [] = []
expand (c ∷ l) =
    if c == 13 then expand l else if c == 10 then 32 ∷ 8 ∷ 0 ∷ expand l else c ∷ expand l

-- A character that ends no line and erases nothing
abbrev pub IsPlain : ℕ → Type 0
IsPlain c = (0 < c) × (c < 127) × (c ≢ 8) × (c ≢ 10) × (c ≢ 13)

-- A character of a command that the driver sees
abbrev pub IsSeen : ℕ → Type 0
IsSeen c = (0 < c) × (c < 127) × (c ≢ 8)

pub copy_chars-expand :
    (from : List ℕ) (written room : ℕ)
    → written + length (expand from) ≤ room
    → copy_chars from written room ≡ expand from
unfolding copy_chars
copy_chars-expand [] written room h = refl
copy_chars-expand (c ∷ from) written room h = ground (
  arith,
  h,
  copy_chars-expand from written room,
  copy_chars-expand from (written + 3) room,
  copy_chars-expand from (written + 1) room,
)

-- What is written without room for all is the beginning of it.
pub take-expand :
    (from : List ℕ) (written room : ℕ)
    → take (length (copy_chars from written room)) (expand from) ≡ copy_chars from written room
unfolding copy_chars
take-expand [] written room = refl
take-expand (c ∷ from) written room = ground (
  arith,
  take-expand from written room,
  take-expand from (written + 3) room,
  take-expand from (written + 1) room,
)

pub expand-plain : (line l : List ℕ) → All IsPlain line → expand (line ++ l) ≡ line ++ expand l
expand-plain [] l h = refl
expand-plain (c ∷ line) l h = ground (arith, h.0, expand-plain line l h.1)

pub backwards_twice :
    (l out rest : List ℕ) → backwards (backwards l out) rest ≡ backwards out (l ++ rest)
backwards_twice [] out rest = refl
backwards_twice (c ∷ l) out rest = backwards_twice l (c ∷ out) rest

pub negotiate-plain :
    (n : ℕ) (line out rest : List ℕ)
    → All IsPlain line
    → negotiate n ts_data out (line ++ rest) ≡ negotiate n ts_data (backwards line out) rest
unfolding negotiate
negotiate-plain n [] out rest h = refl
negotiate-plain n (c ∷ line) out rest h =
    ground (arith, h.0, negotiate-plain n line (c ∷ out) rest h.1)

-- Whether each option on the way has a name in the table, up to the null byte that ends a command
abbrev pub are_named : ℕ → State → List ℕ → Bool
are_named n s [] = true
are_named n ts_data (c ∷ from) =
    let behind = are_named n ts_iac from in
    let rest = are_named n ts_data from in if c == iac then behind else c == 0 || rest
are_named n ts_iac (c ∷ from) = are_named n (command c) from
are_named n ts_will (c ∷ from) = ltb c n && are_named n ts_data from
are_named n ts_wont (c ∷ from) = ltb c n && are_named n ts_data from
are_named n ts_do (c ∷ from) = ltb c n && are_named n ts_data from
are_named n ts_dont (c ∷ from) = ltb c n && are_named n ts_data from

abbrev pub is_ok : Option (Run (List ℕ)) → Bool
is_ok (some (ok r)) = true
is_ok _ = false

-- A null byte ends the command, and behind a telnet command the next one does.
pub negotiate_stops :
    (n : ℕ) (s : State) (out from rest : List ℕ)
    → 0 < n
    → are_named n s from ≡ true
    → is_ok (negotiate n s out (from ++ (0 ∷ 0 ∷ rest))) ≡ true
unfolding negotiate command
negotiate_stops n ts_data out [] rest h a = ground arith
negotiate_stops n ts_iac out [] rest h a = ground arith
negotiate_stops n ts_will out [] rest h a = ground (arith, h)
negotiate_stops n ts_wont out [] rest h a = ground (arith, h)
negotiate_stops n ts_do out [] rest h a = ground (arith, h)
negotiate_stops n ts_dont out [] rest h a = ground (arith, h)
negotiate_stops n ts_data out (c ∷ from) rest h a = ground (
  arith,
  a,
  negotiate_stops n ts_iac out from rest h,
  negotiate_stops n ts_data (back out) from rest h,
  negotiate_stops n ts_data out from rest h,
  negotiate_stops n ts_data (c ∷ out) from rest h,
)
negotiate_stops n ts_iac out (c ∷ from) rest h a = negotiate_stops n (command c) out from rest h a
negotiate_stops n ts_will out (c ∷ from) rest h a =
    ground (arith, a, negotiate_stops n ts_data out from rest h)
negotiate_stops n ts_wont out (c ∷ from) rest h a =
    ground (arith, a, negotiate_stops n ts_data out from rest h)
negotiate_stops n ts_do out (c ∷ from) rest h a =
    ground (arith, a, negotiate_stops n ts_data out from rest h)
negotiate_stops n ts_dont out (c ∷ from) rest h a =
    ground (arith, a, negotiate_stops n ts_data out from rest h)

-- Seen characters, and the null byte that ends them
abbrev pub IsCommand : List ℕ → Type 0
IsCommand [] = ⊥
IsCommand (c ∷ []) = c ≡ 0
IsCommand (c ∷ d ∷ r) = IsSeen c × IsCommand (d ∷ r)

backwards-IsCommand : (out l : List ℕ) → All IsSeen out → IsCommand l → IsCommand (backwards out l)
backwards-IsCommand [] l h k = k
backwards-IsCommand (c ∷ out) [] h k = elim k [ ]
backwards-IsCommand (c ∷ out) (d ∷ l) h k = backwards-IsCommand out (c ∷ d ∷ l) h.1 (h.0, k)

length-backwards : (out l : List ℕ) → length (backwards out l) ≡ length out + length l
length-backwards [] l = omega arith
length-backwards (c ∷ out) l = omega (arith, length-backwards out (c ∷ l))

back-IsSeen : (out : List ℕ) → All IsSeen out → All IsSeen (back out)
back-IsSeen [] h = h
back-IsSeen (c ∷ out) h = h.1

length-back : (out : List ℕ) → length (back out) ≤ length out
length-back [] = omega arith
length-back (c ∷ out) = omega arith

abbrev pub IsAnswer : ℕ → Option (Run (List ℕ)) → Type 0
IsAnswer n (some (ok r)) = IsCommand r × (length r ≤ n)
IsAnswer n _ = Unit

weaken : (o : Option (Run (List ℕ))) (n m : ℕ) → n ≤ m → IsAnswer n o → IsAnswer m o
weaken none n m h a = a
weaken (some (ok r)) n m h a = (a.0, omega (arith, h, a.1))
weaken (some error) n m h a = a
weaken (some fatal) n m h a = a
weaken (some undefined) n m h a = a

-- A predicate on what the machine does with a byte, from all of its branches
each_byte :
    (P : Option (Run (List ℕ)) → Type 0) (c : ℕ)
    (begun erased dropped stopped kept : Option (Run (List ℕ)))
    → P begun
    → P erased
    → P dropped
    → (c ≡ 0 → P stopped)
    → (IsSeen c → P kept)
    → P (
        if c == iac
        then begun
        else if c == 8 || c == 127
        then erased
        else if leb 128 c
        then dropped
        else if c == 0
        then stopped
        else kept)
each_byte P c begun erased dropped stopped kept p q r s t = ground arith

option-IsAnswer :
    (n m k c : ℕ) (o : Option (Run (List ℕ))) → m ≤ k → IsAnswer m o → IsAnswer k (option n c o)
option-IsAnswer n m k c o h a = by_case (ltb c n)
  where
    by_case : (b : Bool) → IsAnswer k (if b then o else some undefined)
    by_case true = weaken o m k h a
    by_case false = tt

-- The machine never writes more than it has read, and what it writes is a command.
pub negotiate-IsAnswer :
    (n : ℕ) (s : State) (out from : List ℕ)
    → All IsSeen out
    → IsAnswer (length out + length from) (negotiate n s out from)
unfolding negotiate command
negotiate-IsAnswer n s out [] h = ground arith
negotiate-IsAnswer n ts_data out (c ∷ from) h =
    each_byte (IsAnswer (length out + suc (length from))) c _ _ _ _ _
      (weaken _ _ _ (omega arith) (negotiate-IsAnswer n ts_iac out from h))
      (weaken _ _ _ (omega (arith, length-back out))
        (negotiate-IsAnswer n ts_data (back out) from (back-IsSeen out h)))
      (weaken _ _ _ (omega arith) (negotiate-IsAnswer n ts_data out from h))
      (λ e. (backwards-IsCommand out (c ∷ []) h e, omega (arith, length-backwards out (c ∷ []))))
      (λ k. weaken _ _ _ (omega arith) (negotiate-IsAnswer n ts_data (c ∷ out) from (k, h)))
negotiate-IsAnswer n ts_iac out (c ∷ from) h =
    weaken _ _ _ (omega arith) (negotiate-IsAnswer n (command c) out from h)
negotiate-IsAnswer n ts_will out (c ∷ from) h =
    option-IsAnswer n _ _ c _ (omega arith) (negotiate-IsAnswer n ts_data out from h)
negotiate-IsAnswer n ts_wont out (c ∷ from) h =
    option-IsAnswer n _ _ c _ (omega arith) (negotiate-IsAnswer n ts_data out from h)
negotiate-IsAnswer n ts_do out (c ∷ from) h =
    option-IsAnswer n _ _ c _ (omega arith) (negotiate-IsAnswer n ts_data out from h)
negotiate-IsAnswer n ts_dont out (c ∷ from) h =
    option-IsAnswer n _ _ c _ (omega arith) (negotiate-IsAnswer n ts_data out from h)
