-- ===== src/Comm/Results.antt =====
-- The way of a typed line through copy_chars, the buffer and telnet_neg of lpmud/comm1.c.
use lpmud_ng.Base.{
  ℕ, ◌+◌, ◌-◌, ◌≤◌, ◌<◌, ◌≡◌, refl, ap, ◌∙◌, subst, true, Option, none, some, List, [], ◌∷◌, ◌++◌,
  length, length-append, All, arith,
}
use mathlib.Core.List.{append_assoc}
use lpmud_ng.Base.Run.{Run, ok, error, fatal, undefined}
use lpmud_ng.Comm.Buffer.{Input, max_text, copy_chars, store, first_cmd_in_buf, next_cmd_in_buf}
use lpmud_ng.Comm.Telnet.{ts_data, negotiate, telnet_neg}
use lpmud_ng.Comm.Slice.{slice, slice_at, slice-append}
use lpmud_ng.Comm.Pending.{pending, IsInput, drop_nulls, drop_text, command_at, Finds}
use lpmud_ng.Comm.Commands.{first_cmd_in_buf_lem, next_cmd_in_buf_lem, store_lem}
use lpmud_ng.Comm.Line.{
  IsPlain, IsCommand, IsAnswer, are_named, is_ok, expand, copy_chars-expand, expand-plain,
  negotiate-plain, negotiate_stops, negotiate-IsAnswer, backwards_twice,
}

-- The memory that `telnet_neg` is given, from the command to the end of the array
abbrev pub memory : Input → List ℕ
memory b = slice (max_text - b.text_start) b.text_start b.text

-- On memory with two null bytes one behind the other, if telopts has a first name and each option
-- that is named in front of them, up to the end of the command, has one there, then telnet_neg
-- stops, and what it writes is characters from 1 to 126 other than the backspace with a null byte
-- behind them, no more than the memory has bytes.
pub telnet_neg_lem :
    (n : ℕ) (from rest : List ℕ)
    → 0 < n
    → are_named n ts_data from ≡ true
    → (r : List ℕ) × (telnet_neg n (from ++ (0 ∷ 0 ∷ rest)) ≡ some (ok r))
      × IsCommand r
      × (length r ≤ length (from ++ (0 ∷ 0 ∷ rest)))
unfolding telnet_neg
telnet_neg_lem n from rest h named =
    answer (negotiate n ts_data [] l) (negotiate_stops n ts_data [] from rest h named) zero_plus
  where
    l : List ℕ
    l = from ++ (0 ∷ 0 ∷ rest)

    zero_plus : IsAnswer (length l) (negotiate n ts_data [] l)
    zero_plus =
        subst (λ m. IsAnswer m (negotiate n ts_data [] l)) (omega arith)
          (negotiate-IsAnswer n ts_data [] l (ground arith))

    answer :
        (o : Option (Run (List ℕ)))
        → is_ok o ≡ true
        → IsAnswer (length l) o
        → (r : List ℕ) × (o ≡ some (ok r)) × IsCommand r × (length r ≤ length l)
    answer none e a = elim (absurd_of e) [ ]
      where
        absurd_of : is_ok none ≡ true → ⊥
        absurd_of e = cc
    answer (some (ok r)) e a = (r, refl, a.0, a.1)
    answer (some error) e a = elim (absurd_of e) [ ]
      where
        absurd_of : is_ok (some error) ≡ true → ⊥
        absurd_of e = cc
    answer (some fatal) e a = elim (absurd_of e) [ ]
      where
        absurd_of : is_ok (some fatal) ≡ true → ⊥
        absurd_of e = cc
    answer (some undefined) e a = elim (absurd_of e) [ ]
      where
        absurd_of : is_ok (some undefined) ≡ true → ⊥
        absurd_of e = cc

-- What a line with its end leaves in the buffer
abbrev pub sent : List ℕ → List ℕ
sent line = line ++ (32 ∷ 8 ∷ 0 ∷ [])

drop_nulls-sent : (line : List ℕ) → All IsPlain line → drop_nulls (sent line) ≡ sent line
drop_nulls-sent [] h = refl
drop_nulls-sent (c ∷ line) h = ground (arith, h.0)

drop_text-sent : (line : List ℕ) → All IsPlain line → drop_text (sent line) ≡ 0 ∷ []
drop_text-sent [] h = refl
drop_text-sent (c ∷ line) h = ground (arith, h.0, drop_text-sent line h.1)

command_at-sent : (line : List ℕ) → All IsPlain line → command_at (sent line) ≡ (true, sent line)
command_at-sent [] h = ground arith
command_at-sent (c ∷ line) h = ground (arith, h.0, drop_text-sent line h.1)

telnet_neg-sent :
    (n : ℕ) (line rest : List ℕ)
    → All IsPlain line
    → telnet_neg n (sent line ++ rest) ≡ some (ok (line ++ (0 ∷ [])))
unfolding telnet_neg negotiate
telnet_neg-sent n line rest h =
    ap (negotiate n ts_data []) (append_assoc line (32 ∷ 8 ∷ 0 ∷ []) rest)
    ∙ negotiate-plain n line [] (32 ∷ 8 ∷ 0 ∷ rest) h
    ∙ ap (λ r. some (ok r)) (backwards_twice line [] (0 ∷ []))

memory-pending : (b : Input) → IsInput b → (rest : List ℕ) × (memory b ≡ pending b ++ rest)
memory-pending b h = (
  slice (max_text - b.text_end) (b.text_start + (b.text_end - b.text_start)) b.text,
  slice_at (max_text - b.text_start) (b.text_end - b.text_start + (max_text - b.text_end))
        b.text_start b.text_start b.text (omega (arith, h.ordered, h.room)) refl
      ∙ slice-append (b.text_end - b.text_start) (max_text - b.text_end) b.text_start b.text,
)

store_line :
    (line : List ℕ) (b : Input)
    → IsInput b
    → All IsPlain line
    → pending b ≡ []
    → b.text_end + length line + 3 < max_text
    → pending (store (line ++ (13 ∷ 10 ∷ [])) b) ≡ sent line
store_line line b h a e l =
    (store_lem (line ++ (13 ∷ 10 ∷ [])) b h).0
    ∙ ap (λ p. p ++ copy_chars (line ++ (13 ∷ 10 ∷ [])) 0 (max_text - b.text_end - 1)) e
    ∙ copy_chars-expand (line ++ (13 ∷ 10 ∷ [])) 0 (max_text - b.text_end - 1)
        (omega (arith, l, ap length plain, length-append line (32 ∷ 8 ∷ 0 ∷ [])))
    ∙ plain
  where
    plain : expand (line ++ (13 ∷ 10 ∷ [])) ≡ sent line
    plain = expand-plain line (13 ∷ 10 ∷ []) a

-- In a sound buffer in which nothing waits, if a line of plain characters (none that ends a line or
-- erases, no null byte and none from 128 on) and the end of a line are stored, and there is room
-- for them, then first_cmd_in_buf finds a command, telnet_neg makes of it exactly the line and its
-- null byte, and nothing waits behind next_cmd_in_buf.
pub typed_line :
    (n : ℕ) (line : List ℕ) (b : Input)
    → IsInput b
    → All IsPlain line
    → pending b ≡ []
    → b.text_end + length line + 3 < max_text
    → let r = first_cmd_in_buf (store (line ++ (13 ∷ 10 ∷ [])) b) in
      (r.0 ≡ some r.1.text_start)
      × (telnet_neg n (memory r.1) ≡ some (ok (line ++ (0 ∷ []))))
      × (pending (next_cmd_in_buf r.1) ≡ [])
typed_line n line b h a e l = (
  found.at,
  ap (telnet_neg n) (m.1 ∙ ap (λ p. p ++ m.0) found.waits) ∙ telnet_neg-sent n line m.0 a,
  (next_cmd_in_buf_lem r.1 found.sound).0
      ∙ ap (λ p. drop_nulls (drop_text p)) found.waits
      ∙ ap drop_nulls (drop_text-sent line a),
)
  where
    b1 : Input
    b1 = store (line ++ (13 ∷ 10 ∷ [])) b

    r : Option ℕ × Input
    r = first_cmd_in_buf b1

    found : Finds r (true, sent line)
    found =
        subst (Finds r)
          (ap (λ p. command_at (drop_nulls p)) (store_line line b h a e l)
            ∙ ap command_at (drop_nulls-sent line a)
            ∙ command_at-sent line a)
          (first_cmd_in_buf_lem b1 (store_lem (line ++ (13 ∷ 10 ∷ [])) b h).2)

    m : (rest : List ℕ) × (memory r.1 ≡ pending r.1 ++ rest)
    m = memory-pending r.1 found.sound
