-- ===== src/Strings/Lookup.antt =====
-- What the table of shared strings holds, and the first step of its operations.
use lpmud_ng.Base.{ℕ, ◌≡◌, refl, sym, true, false, [], Option, inl, inr, Bool-cases}
use lpmud_ng.Base.Int.{pos}
use lpmud_ng.Base.Run.{ok}
use lpmud_ng.Base.Text.{Chars}
use lpmud_ng.Hash.Table
use lpmud_ng.Hash.Table.{IsPlaced}
use lpmud_ng.Hash.{str_hash, slot}
use lpmud_ng.Strings.{Shared, Table, start, init_strings, bucket_of}

abbrev pub name_of : Shared → Chars
name_of e = e.chars

abbrev pub home : Chars → ℕ
home = Table.home name_of str_hash

-- The hash of the string is an index of the table.
abbrev pub IsIndexed : Chars → Type 0
IsIndexed s = str_hash s ≡ pos (home s)

unfoldable pub lookup : Chars → Table → Option Shared
lookup s t = Table.read name_of str_hash s t.buckets

-- Every string stands in its bucket, once, and before the first call there is none.
pub record IsValid (t : Table) : Type 0 where
  pub chains : IsPlaced name_of str_hash t.buckets
  pub unborn : t.ready ≡ false → (i : ℕ) → t.buckets i ≡ []

pub start-IsValid : IsValid start
start-IsValid = record { chains = Table.IsPlaced-empty name_of str_hash; unborn = λ _ i. refl }

-- The tables agree chain by chain.
abbrev pub SameChains : Table → Table → Type 0
SameChains t u = (i : ℕ) → u.buckets i ≡ t.buckets i

pub ready-IsValid : (u : Table) → u.ready ≡ true → IsPlaced name_of str_hash u.buckets → IsValid u
ready-IsValid u r p = record { chains = p; unborn = λ e. cc }

pub SameChains-IsValid : (t u : Table) → SameChains t u → u.ready ≡ true → IsValid t → IsValid u
SameChains-IsValid t u same r v =
    ready-IsValid u r (Table.same-IsPlaced name_of str_hash t.buckets u.buckets same v.chains)

-- The first step of every operation finds the bucket and changes no chain.
pub bucket_of-home :
    (s : Chars) (t : Table)
    → IsIndexed s
    → IsValid t
    → (u : Table) × (bucket_of s t ≡ ok (home s, u)) × SameChains t u × (u.ready ≡ true)
unfolding bucket_of slot init_strings
bucket_of-home s t e v = elim (Bool-cases t.ready) [
  | inl r ↦ (t, rw (e, r), (λ i. refl), r)
  | inr r ↦ (init_strings t, rw (e, r), (λ i. sym (v.unborn r i)), refl)
]
