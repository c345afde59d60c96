-- ===== src/Explode/Results.antt =====
-- What explode_string and implode_string return.
use mathlib.Core.List.{append-nil}
use lpmud_ng.Base.{
  ℕ, zero, suc, ◌+◌, ◌-◌, ◌*◌, ◌<◌, ◌≤◌, ◌≡◌, refl, sym, ap, ◌∙◌, subst, Bool, false, ◌==◌, ltb,
  if◌then◌else◌, Option, none, some, List, [], ◌∷◌, ◌++◌, map, arith, inl, length, length-append,
  All,
}
use lpmud_ng.Base.Run.{Run, ok, error}
use lpmud_ng.Base.Text.{Chars, starts_with}
use lpmud_ng.Value.{Value, number, string, pointer, object}
use lpmud_ng.Explode.{
  is_empty, max_array_size, skip_leading, zeros, to_items, in_array, with_size, with_count,
  explode_rest, explode_string, append_items, count_strings, implode_string, total_length,
  buffer_size,
}
use lpmud_ng.Explode.Pieces.{
  IsFree, join, final, tail, repeat, ArePieces, has_pieces, join_first, length-join,
}
use lpmud_ng.Explode.Scan.{
  skip_leading_lem, count_delimiters_lem, fill_items_lem, number_of_items_lem,
}

-- The array of the pieces, or the error for one that is too large
abbrev pub pieces_result : List Chars → Option (Run (Option (List Value)))
pieces_result l =
    if ltb max_array_size (length l) then some error else some (ok (some (map string l)))

to_items-length : (l : List Chars) → to_items (length l) l ≡ map string l
unfolding to_items
to_items-length l =
    ap (λ n. map string l ++ zeros n) (no_rest (length l)) ∙ append-nil (map string l)
  where
    no_rest : (n : ℕ) → n - n ≡ 0
    no_rest n = omega arith

with_size_lem :
    (fuel d : ℕ) (p : Chars) (ps : List Chars) (t : Bool)
    → ArePieces d p ps t
    → length (join d p ps ++ tail d t) < fuel
    → with_size fuel (join d p ps ++ tail d t) (d ∷ []) (suc (length ps)) ≡ pieces_result (p ∷ ps)
unfolding with_size
with_size_lem fuel d p ps t (hp, hq, he) hf =
    ap
      (λ r.
        if ltb max_array_size (suc (length ps)) then some error else in_array (suc (length ps)) r)
      (fill_items_lem fuel (suc (length ps)) 0 d [] p ps t hp hq he (omega arith) hf)
    ∙ ap (λ r. if ltb max_array_size (suc (length ps)) then some error else some (ok (some r)))
        (to_items-length (p ∷ ps))

explode_rest_lem :
    (fuel d : ℕ) (p : Chars) (ps : List Chars) (t : Bool)
    → ArePieces d p ps t
    → length (join d p ps ++ tail d t) < fuel
    → explode_rest fuel (d ∷ []) (some (some (join d p ps ++ tail d t))) ≡ pieces_result (p ∷ ps)
unfolding explode_rest
explode_rest_lem fuel d p ps t h hf =
    let s = join d p ps ++ tail d t in
    ap (with_count fuel s (d ∷ [])) (count_delimiters_lem fuel 0 d p ps t h.0 h.1 hf)
    ∙ ap (with_size fuel s (d ∷ [])) (number_of_items_lem d p ps t h)
    ∙ with_size_lem fuel d p ps t h hf

-- For a delimiter of one byte and a string with another byte in it, explode_string with more fuel
-- than the string has bytes ends. Behind the delimiters at its head the string is a sequence of
-- pieces without the delimiter in them, with one delimiter between two pieces and none or one
-- behind the last, which is not empty if none is behind it; the result is the array of just these
-- pieces, or the error of allocate_array if there are more than 1000.
pub explode_string_lem :
    (fuel d k c : ℕ) (s : Chars)
    → (c == d) ≡ false
    → k + length (c ∷ s) < fuel
    → (p : Chars) × (ps : List Chars) × (t : Bool) × (c ∷ s ≡ join d p ps ++ tail d t)
      × ArePieces d p ps t
      × (explode_string fuel (repeat k d ++ (c ∷ s)) (d ∷ []) ≡ pieces_result (p ∷ ps))
unfolding explode_string
explode_string_lem fuel d k c s hc hf =
    let (p, ps, t, e, h) = has_pieces d (c ∷ s) refl in
    (
      p,
      ps,
      t,
      e,
      h,
      ap (explode_rest fuel (d ∷ [])) (skip_leading_lem fuel k d c s (omega (arith, hf)) hc)
          ∙ ap (λ r. explode_rest fuel (d ∷ []) (some (some r))) e
          ∙ explode_rest_lem fuel d p ps t h (subst (λ r. length r < fuel) e (omega (arith, hf))),
    )

append_items-join :
    (d num : ℕ) (p : Chars) (ps : List Chars)
    → append_items (d ∷ []) (num + 1) (map string (p ∷ ps)) ≡ d ∷ join d p ps
unfolding append_items
append_items-join d num p [] = ground (arith, append-nil p)
append_items-join d num p (q ∷ ps) = ground (arith, append_items-join d (num + 1) q ps)

pub implode_string-join :
    (d : ℕ) (p : Chars) (ps : List Chars)
    → implode_string (map string (p ∷ ps)) (d ∷ []) ≡ some (join d p ps)
unfolding implode_string append_items count_strings
implode_string-join d p [] = ground (arith, append-nil p)
implode_string-join d p (q ∷ ps) = ground (arith, append_items-join d 0 q ps)

few_pieces :
    (l : List Chars) → length l ≤ max_array_size → pieces_result l ≡ some (ok (some (map string l)))
few_pieces l h = ground (arith, h)

-- Strings without the byte d, of which the first and the last are not empty, at most 1000 of them,
-- are what explode_string with the delimiter d makes of what implode_string makes of them, with
-- more fuel than that string has bytes.
pub explode-implode :
    (fuel d : ℕ) (p : Chars) (ps : List Chars)
    → IsFree d p
    → All (IsFree d) ps
    → is_empty p ≡ false
    → is_empty (final p ps) ≡ false
    → length (p ∷ ps) ≤ max_array_size
    → length (join d p ps) < fuel
    → (s : Chars) × (implode_string (map string (p ∷ ps)) (d ∷ []) ≡ some s)
      × (explode_string fuel s (d ∷ []) ≡ some (ok (some (map string (p ∷ ps)))))
unfolding explode_string
explode-implode fuel d p ps hp hq he hl hs hf = (join d p ps, implode_string-join d p ps, explodes)
  where
    whole : explode_rest fuel (d ∷ []) (some (some (join d p ps))) ≡ pieces_result (p ∷ ps)
    whole =
        subst (λ r. explode_rest fuel (d ∷ []) (some (some r)) ≡ pieces_result (p ∷ ps))
          (append-nil (join d p ps))
          (explode_rest_lem fuel d p ps false (hp, hq, inl hl)
            (subst (λ r. length r < fuel) (sym (append-nil (join d p ps))) hf))

    skips : skip_leading fuel (d ∷ []) (join d p ps) ≡ some (some (join d p ps))
    skips =
        let (c, r, e, hc) = join_first d p ps hp he in
        subst (λ q. skip_leading fuel (d ∷ []) q ≡ some (some q)) (sym e)
          (skip_leading_lem fuel 0 d c r (omega (arith, hf)) hc)

    explodes : explode_string fuel (join d p ps) (d ∷ []) ≡ some (ok (some (map string (p ∷ ps))))
    explodes = ap (explode_rest fuel (d ∷ [])) skips ∙ whole ∙ few_pieces (p ∷ ps) hs

-- If a string has fewer than 1000 bytes behind the delimiters d at its head, and is not empty
-- there, then explode_string with the delimiter d, and more fuel than the whole has bytes, makes an
-- array of it, of which implode_string makes the string without the delimiters at its head and
-- without at most one at its end.
pub implode-explode :
    (fuel d k c : ℕ) (s : Chars)
    → (c == d) ≡ false
    → k + length (c ∷ s) < fuel
    → length (c ∷ s) < max_array_size
    → (items : List Value) × (u : Chars) × (explode_string fuel (repeat k d ++ (c ∷ s)) (d ∷ [])
        ≡ some (ok (some items)))
      × (implode_string items (d ∷ []) ≡ some u)
      × (t : Bool) × (c ∷ s ≡ u ++ tail d t)
implode-explode fuel d k c s hc hf hs =
    let (p, ps, t, e, h, r) = explode_string_lem fuel d k c s hc hf in
    (
      map string (p ∷ ps),
      join d p ps,
      r ∙ few_pieces (p ∷ ps) (few p ps t e),
      implode_string-join d p ps,
      t,
      e,
    )
  where
    few :
        (p : Chars) (ps : List Chars) (t : Bool)
        → c ∷ s ≡ join d p ps ++ tail d t
        → length (p ∷ ps) ≤ max_array_size
    few p ps t e =
        omega (arith, ap length e, length-append (join d p ps) (tail d t), length-join d p ps, hs)

items_fit :
    (del : Chars) (num : ℕ) (l : List Value)
    → length (append_items del (num + 1) l) ≡ total_length l + count_strings l * length del
unfolding append_items total_length count_strings
items_fit del num [] = ground arith
items_fit del num (string s ∷ l) = ground (
  arith,
  length-append del (s ++ append_items del (num + 2) l),
  length-append s (append_items del (num + 2) l),
  items_fit del (num + 1) l,
)
items_fit del num (number n ∷ l) = items_fit del num l
items_fit del num (pointer v ∷ l) = items_fit del num l
items_fit del num (object o ∷ l) = items_fit del num l

first_item_fits :
    (del : Chars) (l : List Value)
    → length (append_items del 0 l) ≡ total_length l + (count_strings l - 1) * length del
unfolding append_items total_length count_strings
first_item_fits del [] = ground arith
first_item_fits del (string s ∷ l) =
    ground
      (arith, length-append s (append_items del 1 l), items_fit del 0 l, less_one (count_strings l))
  where
    less_one : (n : ℕ) → n + 1 - 1 ≡ n
    less_one n = omega arith
first_item_fits del (number n ∷ l) = first_item_fits del l
first_item_fits del (pointer v ∷ l) = first_item_fits del l
first_item_fits del (object o ∷ l) = first_item_fits del l

-- The string that implode_string makes, with its null byte, has the size of the buffer that is
-- allocated for it, whatever the values of the array.
pub implode_string_fits :
    (l : List Value) (del s : Chars)
    → implode_string l del ≡ some s
    → length s + 1 ≡ buffer_size l del
unfolding implode_string buffer_size
implode_string_fits l del s h = ground (arith, h, first_item_fits del l)

-- With an empty delimiter and a string that is not empty, explode_string does not end.
pub explode_string_loops :
    (fuel : ℕ) (s : Chars) → is_empty s ≡ false → explode_string fuel s [] ≡ none
unfolding explode_string explode_rest skip_leading starts_with
explode_string_loops fuel s h = ap (explode_rest fuel []) (skips fuel)
  where
    skips : (fuel : ℕ) → skip_leading fuel [] s ≡ none
    skips zero = refl
    skips (suc fuel) = ap (λ b. if b then some none else skip_leading fuel [] s) h ∙ skips fuel
