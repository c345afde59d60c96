-- ===== src/Commands.antt =====
-- The sentences of lpmud/simulate.c, which add_action links to a player. A sentence is its address,
-- and its fields are functions of it; the sentences of a player and the free ones are chains through
-- `next`. Texts are their bytes, also shared ones. Commands.Parser is the parser that reads them.
mod Parser
mod Links
mod Pool
mod Sentences
mod Listed
mod Actions
mod Quiet
mod Answers
mod Newest
mod Tests
use lpmud_ng.Base.{
  ℕ, zero, suc, ◌+◌, Bool, true, false, ◌==◌, ltb, leb, if◌then◌else◌, not, ◌||◌, ◌&&◌, Option,
  none, some, List, [], ◌∷◌, length, take, drop,
}
use lpmud_ng.Base.Int.{ℤ, pos, ◌+ℤ◌}
use lpmud_ng.Base.Run.{Run, ok, error, fatal, undefined, ◌>>=◌}
use lpmud_ng.Base.Text.{Chars, codes, str_eq, starts_with}

-- The fields of the sentences, of the objects and of the wizards, and the global variables
pub record World : Type 0 where
  pub next : ℕ → Option ℕ
  pub verb : ℕ → Option Chars
  pub function : ℕ → Option Chars
  pub ob : ℕ → ℕ
  pub short_verb : ℕ → Bool
  pub sent_free : Option ℕ
  pub tot_alloc_sentence : ℕ
  pub sent : ℕ → Option ℕ
  pub super : ℕ → Option ℕ
  pub destructed : ℕ → Bool
  pub interactive : ℕ → Bool
  pub default_err_message : ℕ → Option Chars
  pub is_wizard : ℕ → Bool
  pub wl : ℕ → Option ℕ
  pub score : ℕ → ℤ
  pub current_object : Option ℕ
  pub command_giver : Option ℕ
  pub last_verb : Option Chars

abbrev pub put {ℓ} : {A : Type ℓ} → ℕ → A → (ℕ → A) → ℕ → A
put p v f q = if q == p then v else f q

abbrev pub take_free : ℕ → Option ℕ → World → ℕ × World
take_free at none w = (at, record w { tot_alloc_sentence = w.tot_alloc_sentence + 1 })
take_free at (some p) w = (p, record w { sent_free = w.next p })

abbrev pub blank : ℕ × World → ℕ × World
blank (p, w) = (
  p,
  record w { verb = put p none w.verb; function = put p none w.function; next = put p none w.next },
)

-- `at` is what `xalloc` returns, if there is no free sentence.
unfoldable pub alloc_sentence : ℕ → World → ℕ × World
alloc_sentence at w = blank (take_free at w.sent_free w)

unfoldable pub free_sentence : ℕ → World → World
free_sentence p w = record w {
  function = put p none w.function;
  verb = put p none w.verb;
  next = put p w.sent_free w.next;
  sent_free = some p;
}

-- Where a pointer to a sentence stands: at the head of the chain of a player, or in a sentence
pub data Link : Type 0 where
  head : ℕ → Link
  after : ℕ → Link

abbrev pub read : Link → World → Option ℕ
read (head player) w = w.sent player
read (after p) w = w.next p

abbrev pub write : Link → Option ℕ → World → World
write (head player) v w = record w { sent = put player v w.sent }
write (after p) v w = record w { next = put p v w.next }

unfoldable pub remove_at : ℕ → ℕ → Link → Option ℕ → World → Option World
remove_at fuel ob s none w = some w
remove_at zero ob s (some p) w = none
remove_at (suc fuel) ob s (some p) w =
    let w1 = free_sentence p (write s (w.next p) w) in
    let unlinked = remove_at fuel ob s (read s w1) w1 in
    let rest = remove_at fuel ob (after p) (w.next p) w in if w.ob p == ob then unlinked else rest

unfoldable pub remove_sent : ℕ → ℕ → ℕ → World → Option World
remove_sent fuel ob player w = remove_at fuel ob (head player) (w.sent player) w

abbrev pub same : Option ℕ → Option ℕ → Bool
same none none = true
same none (some q) = false
same (some p) none = false
same (some p) (some q) = p == q

-- The object is the player, or is with him, or around him.
abbrev pub is_near : ℕ → ℕ → World → Bool
is_near current giver w =
    current == giver
    || same (w.super current) (some giver)
    || same (w.super current) (w.super giver)
    || same (some current) (w.super giver)

abbrev pub link_new : Chars → Option Chars → Bool → ℕ → ℕ → ℕ × World → World
link_new str cmd flag current giver (p, w) = record w {
  function = put p (some str) w.function;
  ob = put p current w.ob;
  next = put p (w.sent giver) w.next;
  short_verb = put p flag w.short_verb;
  verb = put p cmd w.verb;
  sent = put giver (some p) w.sent;
}

abbrev pub add_action_as : ℕ → Chars → Option Chars → Bool → Option ℕ → Option ℕ → World → Run World
add_action_as at str cmd flag current none w = ok w
add_action_as at str cmd flag none (some giver) w = undefined
add_action_as at str cmd flag (some current) (some giver) w =
    if not (is_near current giver w)
    then error
    else if str_eq str (codes "exit")
    then error
    else ok (link_new str cmd flag current giver (alloc_sentence at w))

unfoldable pub add_action : ℕ → Chars → Option Chars → Bool → World → Run World
add_action at str cmd flag w = add_action_as at str cmd flag w.current_object w.command_giver w

abbrev pub is_set : Option Chars → Bool
is_set none = false
is_set (some v) = true

abbrev pub set_verb : Chars → Option ℕ → World → Run World
set_verb str none w = error
set_verb str (some p) w =
    if is_set (w.verb p) then error else ok (record w { verb = put p (some str) w.verb })

abbrev pub add_verb_as : Chars → Option ℕ → World → Run World
add_verb_as str none w = ok w
add_verb_as str (some giver) w = set_verb str (w.sent giver) w

unfoldable pub add_verb : Chars → World → Run World
add_verb str w = add_verb_as str w.command_giver w
