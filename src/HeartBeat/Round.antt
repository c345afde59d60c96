-- ===== src/HeartBeat/Round.antt =====
-- A round of call_heart_beat.
use lpmud_ng.Base.{
  ℕ, zero, suc, ◌+◌, ◌<◌, ltb, ◌≤◌, ◌≡◌, ◌⊎◌, refl, sym, ap, ◌∙◌, subst, Bool, true, false,
  if◌then◌else◌, not, ◌&&◌, none, some, List, [], ◌∷◌, ◌++◌, arith, inl, inr, Bool-cases, ==_refl,
  length, length-append, take, drop,
}
use lpmud_ng.Base.Run.{ok, ◌>>=◌}
use mathlib.Core.List.{append-nil, append_assoc}
use lpmud_ng.HeartBeat.{
  World, is_null, enter, beat, turn, is_on, and_more, then_rest, beat_loop, leave, and_leave,
  call_heart_beat,
}
use lpmud_ng.HeartBeat.Successor.{last-append, mem-append}
use lpmud_ng.HeartBeat.Methods.{IsHeartList, cycle_hb_list_lem}

-- The objects that are called.
abbrev pub called : (ℕ → Bool) → List ℕ → List ℕ
called has_beat [] = []
called has_beat (x ∷ l) = if has_beat x then x ∷ called has_beat l else called has_beat l

called_split :
    (f g : ℕ → Bool) (x : ℕ) (l : List ℕ)
    → g ≡ f
    → called f (x ∷ []) ++ called g l ≡ called f (x ∷ l)
called_split f g x l e =
    ap (λ q. called f (x ∷ []) ++ called q l) e
    ∙ elim (Bool-cases (f x)) [ inl h ↦ ground (arith, h) | inr h ↦ ground (arith, h) ]

zero_add : (n : ℕ) → n ≡ 0 + n
zero_add n = omega arith

add_zero : (n : ℕ) → n + 0 ≡ n
add_zero n = omega arith

add_suc : (n k : ℕ) → n + suc k ≡ n + 1 + k
add_suc n k = omega arith

module _ (lpc : ℕ → World → World) (timeout : ℕ → Bool)
    (keeps_beats : (o : ℕ) (w : World) → (lpc o w).beats ≡ w.beats)
    (keeps_has_beat : (o : ℕ) (w : World) → (lpc o w).has_beat ≡ w.has_beat)
    (keeps_swapped : (o : ℕ) (w : World) → (lpc o w).swapped ≡ w.swapped) where
  beat_lem :
      (x : ℕ) (w : World)
      → w.beats.enabled x ≡ true
      → w.swapped x ≡ false
      → (w' : World) × (beat lpc timeout (some x) w ≡ ok (w', called w.has_beat (x ∷ [])))
        × (w'.beats ≡ w.beats)
        × (w'.has_beat ≡ w.has_beat)
        × (w'.swapped ≡ w.swapped)
  unfolding beat enter
  beat_lem x w he hs = elim (Bool-cases (w.has_beat x)) [
    | inl h ↦ (
      lpc x (enter x w),
      ground (arith, he, hs, h),
      keeps_beats x (enter x w),
      keeps_has_beat x (enter x w),
      keeps_swapped x (enter x w),
    )
    | inr h ↦ (w, ground (arith, he, hs, h), refl, refl, refl)
  ]

  turn_lem :
      (x : ℕ) (l : List ℕ) (w : World)
      → IsHeartList w.beats (x ∷ l)
      → w.swapped x ≡ false
      → (w' : World) × (turn lpc timeout w ≡ ok (w', called w.has_beat (x ∷ [])))
        × IsHeartList w'.beats (l ++ (x ∷ []))
        × (w'.has_beat ≡ w.has_beat)
        × (w'.swapped ≡ w.swapped)
  unfolding turn
  turn_lem x l w h hs =
      let (b, e, h') = cycle_hb_list_lem w.beats x l h in
      let w1 : World = record w { beats = b } in
      let (w', e', hb, hh, hw) =
        beat_lem x w1 (ground (arith, h'.flags x, mem-append x l (x ∷ []), ==_refl x)) hs in
      (
        w',
        ap (λ m. m >>= λ c. beat lpc timeout c.hb_tail (record w { beats = c })) e
            ∙ ap (λ t. beat lpc timeout t w1) (h'.ends ∙ last-append x l)
            ∙ e',
        subst (λ c. IsHeartList c (l ++ (x ∷ []))) (sym hb) h',
        hh,
        hw,
      )

  loop_stop :
      (fuel n : ℕ) (w : World)
      → is_on lpc timeout n w ≡ false
      → beat_loop lpc timeout (suc fuel) n w ≡ some (ok (w, []))
  unfolding beat_loop
  loop_stop fuel n w e =
      ap
        (λ c.
          if c
          then then_rest lpc timeout (beat_loop lpc timeout fuel (n + 1)) (turn lpc timeout w)
          else some (ok (w, [])))
        e

  loop_turn :
      (fuel n : ℕ) (w w' : World) (ran : List ℕ)
      → is_on lpc timeout n w ≡ true
      → turn lpc timeout w ≡ ok (w', ran)
      → beat_loop lpc timeout (suc fuel) n w
        ≡ and_more lpc timeout ran (beat_loop lpc timeout fuel (n + 1) w')
  unfolding beat_loop
  loop_turn fuel n w w' ran e h =
      ap
        (λ c.
          if c
          then then_rest lpc timeout (beat_loop lpc timeout fuel (n + 1)) (turn lpc timeout w)
          else some (ok (w, [])))
        e
      ∙ ap (then_rest lpc timeout (beat_loop lpc timeout fuel (n + 1))) h

  is_on-length :
      (n : ℕ) (r d : List ℕ) (w : World)
      → IsHeartList w.beats (r ++ d)
      → length d ≡ n
      → (r ≡ []) ⊎ (timeout n ≡ true)
      → is_on lpc timeout n w ≡ false
  is_on-length n [] d w h hn he = ground (arith, h.counts, hn)
  is_on-length n (x ∷ r) d w h hn (inl e) = cc
  is_on-length n (x ∷ r) d w h hn (inr e) = ground (arith, e, h.starts)

  is_on_left :
      (n x : ℕ) (r d : List ℕ) (w : World)
      → IsHeartList w.beats (x ∷ r ++ d)
      → length d ≡ n
      → timeout n ≡ false
      → is_on lpc timeout n w ≡ true
  is_on_left n x r d w h hn e = ground (arith, h.counts, h.starts, length-append r d, e)

  -- The loop when `n` objects, `d`, are done, `r` are left, and it is to end after `k` more.
  loop_lem :
      (fuel n k : ℕ) (r d : List ℕ) (w : World)
      → IsHeartList w.beats (r ++ d)
      → length d ≡ n
      → ((o : ℕ) → w.swapped o ≡ false)
      → k ≤ length r
      → k < fuel
      → ((i : ℕ) → i < n + k → timeout i ≡ false)
      → (k ≡ length r) ⊎ (timeout (n + k) ≡ true)
      → (w' : World) × (beat_loop lpc timeout fuel n w
          ≡ some (ok (w', called w.has_beat (take k r))))
        × IsHeartList w'.beats (drop k r ++ (d ++ take k r))
  loop_lem zero n k r d w h hn hs hk hf ht hend = ground (arith, hf)
  loop_lem (suc fuel) n zero r d w h hn hs hk hf ht hend = (
    w,
    loop_stop fuel n w (is_on-length n r d w h hn (stops r hend)),
    subst (λ m. IsHeartList w.beats (r ++ m)) (sym (append-nil d)) h,
  )
    where
      stops :
          (r : List ℕ) → (0 ≡ length r) ⊎ (timeout (n + 0) ≡ true) → (r ≡ []) ⊎ (timeout n ≡ true)
      stops [] e = inl refl
      stops (x ∷ r) (inl e) = ground (arith, e)
      stops (x ∷ r) (inr e) = inr (subst (λ j. timeout j ≡ true) (add_zero n) e)
  loop_lem (suc fuel) n (suc k) [] d w h hn hs hk hf ht hend = ground (arith, hk)
  loop_lem (suc fuel) n (suc k) (x ∷ r) d w h hn hs hk hf ht hend =
      let (w1, e, h1, hb, hw) = turn_lem x (r ++ d) w h (hs x) in
      let (w2, e2, h2) =
        loop_lem fuel (n + 1) k r (d ++ (x ∷ [])) w1
          (subst (IsHeartList w1.beats) (append_assoc r d (x ∷ [])) h1)
          (ground (arith, length-append d (x ∷ []), hn)) (λ o. ap (λ f. f o) hw ∙ hs o)
          (omega (arith, hk)) (omega (arith, hf)) (λ i hi. ht i (omega (arith, hi))) (moves hend) in
      (
        w2,
        loop_turn fuel n w w1 _ (is_on_left n x r d w h hn (ht n (omega arith))) e
            ∙ ap (and_more lpc timeout (called w.has_beat (x ∷ []))) e2
            ∙ ap (λ c. some (ok (w2, c))) (called_split w.has_beat w1.has_beat x (take k r) hb),
        subst (λ m. IsHeartList w2.beats (drop k r ++ m)) (append_assoc d (x ∷ []) (take k r)) h2,
      )
    where
      moves :
          (suc k ≡ suc (length r)) ⊎ (timeout (n + suc k) ≡ true)
          → (k ≡ length r) ⊎ (timeout (n + 1 + k) ≡ true)
      moves (inl e) = inl (omega (arith, e))
      moves (inr e) = inr (subst (λ j. timeout j ≡ true) (add_suc n k) e)

  goes :
      {x : ℕ} (players : ℕ) (w : World)
      → 0 < players
      → w.beats.hb_list ≡ some x
      → (ltb 0 players && not (is_null w.beats.hb_list)) ≡ true
  goes players w hp h = ground (arith, hp, h)

  -- If the LPC functions leave the list and the flags that a round reads alone, no object is
  -- swapped, there are players, and the alarm comes when k of the objects are done (or never, with
  -- k as their number), then a round with more fuel than k ends. It calls, in the order of the
  -- list, those of the first k objects that have a function and a reset; the list goes on behind
  -- them, and the current object and the command giver are put back.
  pub call_heart_beat_lem :
      (fuel players k : ℕ) (l : List ℕ) (w : World)
      → IsHeartList w.beats l
      → 0 < players
      → ((o : ℕ) → w.swapped o ≡ false)
      → k ≤ length l
      → k < fuel
      → ((i : ℕ) → i < k → timeout i ≡ false)
      → (k ≡ length l) ⊎ (timeout k ≡ true)
      → (w' : World) × (call_heart_beat lpc timeout fuel players w
          ≡ some (ok (w', called w.has_beat (take k l))))
        × IsHeartList w'.beats (drop k l ++ take k l)
        × (w'.command_giver ≡ w.command_giver)
        × (w'.current_object ≡ w.current_object)
  unfolding call_heart_beat
  call_heart_beat_lem fuel players zero [] w h hp hs hk hf ht hend =
      (record w { current_heart_beat = none }, ground (arith, h.starts), h, refl, refl)
  call_heart_beat_lem fuel players (suc k) [] w h hp hs hk hf ht hend = ground (arith, hk)
  call_heart_beat_lem fuel players k (x ∷ l) w h hp hs hk hf ht hend =
      let w0 : World = record w { num_hb_calls = w.num_hb_calls + 1 } in
      let (w1, e, h1) =
        loop_lem fuel 0 k (x ∷ l) [] w0 (subst (IsHeartList w.beats) (sym (append-nil (x ∷ l))) h)
          refl hs hk hf (λ i hi. ht i (omega (arith, hi)))
          (elim hend [
            | inl e ↦ inl e
            | inr e ↦ inr (subst (λ j. timeout j ≡ true) (zero_add k) e)
          ]) in
      (
        record w1 {
          command_giver = w.command_giver;
          current_object = w.current_object;
          current_heart_beat = none;
        },
        ap
              (λ c.
                if c
                then and_leave lpc timeout w (beat_loop lpc timeout fuel 0 w0)
                else some (ok (leave lpc timeout w (w, []))))
              (goes players w hp h.starts)
            ∙ ap (and_leave lpc timeout w) e,
        h1,
        refl,
        refl,
      )
