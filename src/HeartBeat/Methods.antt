-- ===== src/HeartBeat/Methods.antt =====
-- The linked list of heart beats, as cycle_hb_list and set_heart_beat keep it, against plain lists.
use lpmud_ng.Base.{
  ℕ, zero, suc, ◌<◌, ◌≡◌, refl, sym, ap, ◌∙◌, Bool, true, false, if◌then◌else◌, not, Option, none,
  some, List, [], ◌∷◌, ◌++◌, arith, ==_refl, length, length-append,
}
use lpmud_ng.Base.Int.{ℤ, pos, ◌+ℤ◌, ◌-ℤ◌, int_laws}
use lpmud_ng.Base.Run.{ok, fatal}
use lpmud_ng.HeartBeat.{
  Beats, set_next, set_enabled, is_null, same, cycle_ends, cycle_hb_list, walk, switch_on,
  switch_off, switch,
}
use lpmud_ng.HeartBeat.Successor.{
  mem, IsDistinct, first, last_from, last, after, before, remove, after-none, mem-last_from,
  mem-remove, remove-IsDistinct, length-remove, after-remove_all, last-remove_all, first-remove,
  after-cycle, last-append, mem-append, append-IsDistinct,
}

-- The pointers, flags and counter stand for the list `l`.
pub record IsHeartList (b : Beats) (l : List ℕ) : Type 0 where
  pub starts : b.hb_list ≡ first l
  pub ends : b.hb_tail ≡ last l
  pub distinct : IsDistinct l
  pub links : (o : ℕ) → b.next o ≡ after o l
  pub flags : (o : ℕ) → b.enabled o ≡ mem o l
  pub counts : b.num_hb_objs ≡ pos (length l)

abbrev pub Follows : Beats → List ℕ → Type 0
Follows b [] = Unit
Follows b (x ∷ l) = ((b.next x ≡ first l) × (b.enabled x ≡ true)) × Follows b l

pub follows :
    (b : Beats) (l : List ℕ)
    → IsDistinct l
    → ((o : ℕ) → mem o l ≡ true → (b.next o ≡ after o l) × (b.enabled o ≡ true))
    → Follows b l
follows b [] hd h = tt
follows b (x ∷ l) hd h =
    (ground (arith, h x, ==_refl x), follows b l hd.1 (λ o m. ground (arith, h o, hd.0)))

pub walk_lem :
    (fuel ob : ℕ) (p : Option ℕ) (b : Beats) (l : List ℕ)
    → length l < fuel
    → Follows b l
    → walk fuel ob (first l) p b ≡ some (ok ((if mem ob l then some ob else none), before ob p l))
unfolding walk
walk_lem zero ob p b l hf h = ground (arith, hf)
walk_lem (suc fuel) ob p b [] hf h = refl
walk_lem (suc fuel) ob p b (x ∷ l) hf h =
    ground (arith, walk_lem fuel ob (some x) b l (omega (arith, hf)) h.1, h.0.0, h.0.1)

-- What setting a heart beat means to the list, where `m` is whether the object stands there.
abbrev pub put_at : ℕ → Bool → Bool → List ℕ → List ℕ
put_at ob true m l = if m then l else ob ∷ l
put_at ob false m l = if m then remove ob l else l

abbrev pub put : ℕ → Bool → List ℕ → List ℕ
put ob to l = put_at ob to (mem ob l) l

pub count_up : (n : ℤ) (k : ℕ) → n ≡ pos k → n +ℤ pos 1 ≡ pos (suc k)
count_up n k h = ap (λ m. m +ℤ pos 1) h ∙ omega int_laws

pub count_down : (n : ℤ) (k m : ℕ) → n ≡ pos k → suc m ≡ k → n -ℤ pos 1 ≡ pos m
count_down n k m h e = ap (λ m. m -ℤ pos 1) h ∙ omega (int_laws, e)

pub switch_on_lem :
    (b : Beats) (l : List ℕ) (ob : ℕ)
    → IsHeartList b l
    → mem ob l ≡ false
    → (b' : Beats) × (switch_on ob b ≡ ok (true, b')) × IsHeartList b' (ob ∷ l)
unfolding switch_on
switch_on_lem b l ob h hm = (
  record (set_next ob b.hb_list (set_enabled ob true b)) {
    hb_list = some ob;
    hb_tail = if is_null b.hb_tail then some ob else b.hb_tail;
    num_hb_objs = b.num_hb_objs +ℤ pos 1;
  },
  ground (arith, h.links ob, after-none ob l hm),
  record {
    starts = refl;
    ends = ground (arith, h.ends);
    distinct = (hm, h.distinct);
    links = λ o. ground (arith, h.links o, h.starts, hm);
    flags = λ o. ground (arith, h.flags o);
    counts = count_up b.num_hb_objs (length l) h.counts;
  },
)

pub switch_off_lem :
    (b : Beats) (l : List ℕ) (ob : ℕ) (p : Option ℕ)
    → IsHeartList b l
    → mem ob l ≡ true
    → p ≡ before ob none l
    → IsHeartList (switch_off ob p b) (remove ob l)
unfolding switch_off
switch_off_lem b l ob none h hm hp = record {
  starts = ground (arith, h.starts, h.links ob, first-remove ob l);
  ends = ground (arith, h.ends, hp, last-remove_all ob l h.distinct hm);
  distinct = remove-IsDistinct ob l h.distinct;
  links = λ o. ground (arith, hp, h.links o, h.links ob, after-remove_all ob o l h.distinct hm);
  flags = λ o. ground (arith, h.flags o, mem-remove ob o l h.distinct);
  counts = count_down b.num_hb_objs (length l) _ h.counts (length-remove ob l hm);
}
switch_off_lem b l ob (some p) h hm hp = record {
  starts = ground (arith, h.starts, h.links ob, first-remove ob l);
  ends = ground (arith, h.ends, hp, last-remove_all ob l h.distinct hm);
  distinct = remove-IsDistinct ob l h.distinct;
  links = λ o. ground (arith, hp, h.links o, h.links ob, after-remove_all ob o l h.distinct hm);
  flags = λ o. ground (arith, h.flags o, mem-remove ob o l h.distinct);
  counts = count_down b.num_hb_objs (length l) _ h.counts (length-remove ob l hm);
}

pub switch_lem :
    (b : Beats) (l : List ℕ) (ob : ℕ) (to m : Bool)
    → IsHeartList b l
    → mem ob l ≡ m
    → (b' : Beats) × (switch ob to b ((if m then some ob else none), before ob none l)
        ≡ ok (not (same to m), b'))
      × IsHeartList b' (put_at ob to m l)
unfolding switch
switch_lem b l ob true true h e = (b, ground (arith, h.flags ob, e), h)
switch_lem b l ob false false h e = (b, ground (arith, h.flags ob, e), h)
switch_lem b l ob true false h e =
    let (b', e', h') = switch_on_lem b l ob h e in (b', ground (arith, h.flags ob, e, e'), h')
switch_lem b l ob false true h e = (
  switch_off ob (before ob none l) b,
  ground (arith, h.flags ob, e),
  switch_off_lem b l ob (before ob none l) h e refl,
)

pub cycle_lem :
    (b : Beats) (x : ℕ) (l : List ℕ)
    → IsHeartList b (x ∷ l)
    → (b' : Beats) × (cycle_ends (some x) (some (last_from x l)) b ≡ ok b')
      × IsHeartList b' (l ++ (x ∷ []))
unfolding cycle_ends
cycle_lem b x [] h = (b, ground (arith, ==_refl x), h)
cycle_lem b x (y ∷ l) h =
    let t = last_from y l in
    (
      set_next x none
          (record (set_next t (some x) (record b { hb_list = b.next x })) { hb_tail = some x }),
      ground (arith, h.distinct.0, mem-last_from y l),
      record {
        starts = ground (arith, h.links x, ==_refl x);
        ends = sym (last-append x (y ∷ l));
        distinct = append-IsDistinct x (y ∷ l) h.distinct.0 h.distinct.1;
        links = λ o. ground (arith, h.links o, after-cycle x o y l h.distinct.0 h.distinct.1);
        flags = λ o. ground (arith, h.flags o, mem-append o (y ∷ l) (x ∷ []));
        counts = ground (arith, h.counts, length-append (y ∷ l) (x ∷ []));
      },
    )

pub cycle_hb_list_empty : (b : Beats) → IsHeartList b [] → cycle_hb_list b ≡ fatal
unfolding cycle_hb_list cycle_ends
cycle_hb_list_empty b h = ap (λ s. cycle_ends s b.hb_tail b) h.starts

-- In a list that is not empty, cycle_hb_list returns, and the pointers come to stand for the list
-- with its first object at the end.
pub cycle_hb_list_lem :
    (b : Beats) (x : ℕ) (l : List ℕ)
    → IsHeartList b (x ∷ l)
    → (b' : Beats) × (cycle_hb_list b ≡ ok b') × IsHeartList b' (l ++ (x ∷ []))
unfolding cycle_hb_list
cycle_hb_list_lem b x l h =
    let (b', e, h') = cycle_lem b x l h in
    (
      b',
      ap (λ s. cycle_ends s b.hb_tail b) h.starts ∙ ap (λ t. cycle_ends (some x) t b) h.ends ∙ e,
      h',
    )
