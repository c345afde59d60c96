-- ===== src/Living/Methods.antt =====
-- Which objects the table of living names holds, and what its functions return.
use lpmud_ng.Base.{
  ℕ, ◌<◌, ◌≡◌, refl, ap, ◌∙◌, arith, Bool, true, false, ◌==◌, if◌then◌else◌, Option, none, some,
  inl, inr, Option-cases, ==_refl,
}
use lpmud_ng.Base.Int.{pos, ◌+ℤ◌, ◌-ℤ◌}
use lpmud_ng.Base.Run.{ok, ◌>>=◌}
use lpmud_ng.Base.Chain
use lpmud_ng.Base.Text.{Chars}
use lpmud_ng.Value.{Value}
use lpmud_ng.Living.{
  living_hash_size, hash_living_name, Names, set_chain, set_name, is_object, unlink_living,
  remove_named, remove_living_name, detach, link_living, promote, set_living_name,
}

abbrev pub is_named : Option Chars → Bool
is_named none = false
is_named (some n) = true

-- How often an object of that name is to stand in the chain `h`
abbrev pub places : ℕ → Option Chars → ℕ
places h none = 0
places h (some s) = if h == hash_living_name s then 1 else 0

-- Each object stands just once in the chain of its name, and nowhere if it has none.
pub record IsTable (t : Names) : Type 0 where
  pub stands :
      (h o : ℕ) → Chain.count (is_object o) (t.hashed_living h) ≡ places h (t.living_name o)

-- The hash of a living name is an index of the table, whatever its bytes.
pub hash_living_name_bound : (s : Chars) → hash_living_name s < living_hash_size
unfolding hash_living_name
hash_living_name_bound s = omega arith

pub link_living-IsTable :
    (ob : ℕ) (s : Chars) (t : Names)
    → IsTable t
    → t.living_name ob ≡ none
    → IsTable (link_living ob s t)
unfolding link_living Chain.count
link_living-IsTable ob s t ht hn = record {
  stands = λ h o. ground (arith, ht.stands h o, ht.stands h ob, hn);
}

promote-IsTable :
    (ob : ℕ) (level : Option Value) (t : Names) → IsTable t → IsTable (promote ob level t)
unfolding promote
promote-IsTable ob level t ht = record { stands = λ h o. ground (arith, ht.stands h o) }

find-stands :
    (ob : ℕ) (s : Chars) (t : Names)
    → IsTable t
    → t.living_name ob ≡ some s
    → Chain.find (is_object ob) (t.hashed_living (hash_living_name s)) ≡ some ob
find-stands ob s t ht hn =
    elim (Option-cases (Chain.find (is_object ob) (t.hashed_living (hash_living_name s)))) [
      | inl e ↦ ground (
        arith,
        ht.stands (hash_living_name s) ob,
        hn,
        ==_refl (hash_living_name s),
        Chain.count-eq-zero (is_object ob) (t.hashed_living (hash_living_name s)) e,
      )
      | inr (o, e) ↦
          ground
            (arith, e, Chain.find-passes (is_object ob) (t.hashed_living (hash_living_name s)) o e)
    ]

-- The table without an object
abbrev pub without : ℕ → Chars → Names → Names
without ob s t =
    let h = hash_living_name s in
    record (set_name (set_chain t h (Chain.erase (is_object ob) (t.hashed_living h))) ob none) {
      num_living_names = t.num_living_names -ℤ pos 1;
    }

without-IsTable :
    (ob : ℕ) (s : Chars) (t : Names)
    → IsTable t
    → t.living_name ob ≡ some s
    → IsTable (without ob s t)
without-IsTable ob s t ht hn = record {
  stands = λ h o. ground (
    arith,
    ht.stands h o,
    ht.stands h ob,
    hn,
    Chain.count-erase (is_object ob) (is_object o) (t.hashed_living (hash_living_name s)) ob
        (find-stands ob s t ht hn),
  );
}

-- In a valid table, remove_living_name of an object that has a name returns the table without it,
-- which is valid.
pub remove_living_name_lem :
    (ob : ℕ) (s : Chars) (t : Names)
    → IsTable t
    → t.living_name ob ≡ some s
    → (remove_living_name ob t ≡ ok (without ob s t)) × IsTable (without ob s t)
unfolding remove_living_name remove_named unlink_living
remove_living_name_lem ob s t ht hn = (
  (ap (λ n. remove_named ob n (record t { num_living_names = t.num_living_names -ℤ pos 1 })) hn
      ∙ ap
          (λ f.
            unlink_living ob (hash_living_name s) f
              (record t { num_living_names = t.num_living_names -ℤ pos 1 }))
          (find-stands ob s t ht hn)),
  without-IsTable ob s t ht hn,
)

pub detach_lem :
    (ob : ℕ) (o : Option Chars) (t : Names)
    → IsTable t
    → t.living_name ob ≡ o
    → (t' : Names) × (detach ob o t ≡ ok t')
      × IsTable t'
      × ((q : ℕ) → t'.living_name q ≡ (if q == ob then none else t.living_name q))
      × (t'.num_living_names
          ≡ (if is_named o then t.num_living_names -ℤ pos 1 else t.num_living_names +ℤ pos 1))
unfolding detach
detach_lem ob none t ht hn = (_, refl, record { stands = ht.stands }, λ q. ground (arith, hn), refl)
detach_lem ob (some s) t ht hn =
    let (e, h) = remove_living_name_lem ob s t ht hn in (without ob s t, e, h, λ q. refl, refl)

new_name :
    (ob o : ℕ) (s : Chars) (level : Option Value) (t : Names)
    → (promote ob level (link_living ob s t)).living_name o
      ≡ (if o == ob then some s else t.living_name o)
unfolding promote link_living
new_name ob o s level t = ground arith

-- In a valid table, set_living_name returns and keeps the table valid; the object has the name
-- from then on, and the names of the others stay.
pub set_living_name_lem :
    (ob : ℕ) (s : Chars) (level : Option Value) (t : Names)
    → IsTable t
    → (t' : Names) × (set_living_name ob s level t ≡ ok t')
      × IsTable t'
      × ((o : ℕ) → t'.living_name o ≡ (if o == ob then some s else t.living_name o))
unfolding set_living_name
set_living_name_lem ob s level t ht =
    let (t', e, h, hn, hc) = detach_lem ob (t.living_name ob) t ht refl in
    (
      promote ob level (link_living ob s t'),
      ap (λ m. m >>= λ u. ok (promote ob level (link_living ob s u))) e,
      promote-IsTable ob level (link_living ob s t')
          (link_living-IsTable ob s t' h (ground (arith, hn ob, ==_refl ob))),
      λ o. new_name ob o s level t' ∙ ground (arith, hn o),
    )

same_number :
    (ob : ℕ) (s : Chars) (level : Option Value) (t : Names)
    → (promote ob level (link_living ob s t)).num_living_names ≡ t.num_living_names
unfolding promote link_living
same_number ob s level t = ground arith

-- In a valid table, set_living_name lowers the count of named objects for an object that has a
-- name, which keeps one, and raises it for one without.
pub num_living_names_lem :
    (ob : ℕ) (s : Chars) (level : Option Value) (t : Names)
    → IsTable t
    → (t' : Names) × (set_living_name ob s level t ≡ ok t')
      × (t'.num_living_names ≡ (
          if is_named (t.living_name ob)
          then t.num_living_names -ℤ pos 1
          else t.num_living_names +ℤ pos 1))
unfolding set_living_name
num_living_names_lem ob s level t ht =
    let (t', e, h, hn, hc) = detach_lem ob (t.living_name ob) t ht refl in
    (
      promote ob level (link_living ob s t'),
      ap (λ m. m >>= λ u. ok (promote ob level (link_living ob s u))) e,
      same_number ob s level t' ∙ hc,
    )
