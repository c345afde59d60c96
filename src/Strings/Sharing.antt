-- ===== src/Strings/Sharing.antt =====
-- Why strings are shared: one address for each string, and references that balance.
use lpmud_ng.Base.{
  ℕ, ◌-◌, ◌^◌, ◌<◌, ◌≡◌, ◌≢◌, ◌↔◌, refl, sym, Option, none, some, arith, inl, inr, Option-cases,
}
use lpmud_ng.Base.Run.{Run, ok, fatal, ◌>>=◌, Returns}
use lpmud_ng.Base.Text.{Chars, str_eq_refl, str_eq→eq}
use lpmud_ng.Strings.{Shared, Table, make_shared_string, free_string, max_short}
use lpmud_ng.Strings.Lookup.{IsIndexed, lookup, IsValid}
use lpmud_ng.Strings.Methods.{acquired, Acquires, make_shared_string_lem}
use lpmud_ng.Strings.Release.{released, free_string_lem, free_string_fatal}

-- No two strings of the table stand at one address.
abbrev pub Apart : Table → Type 0
Apart t =
    (q r : Chars) (d e : Shared)
    → lookup q t ≡ some d
    → lookup r t ≡ some e
    → d.addr ≡ e.addr
    → q ≡ r

-- What the allocator promises of the address `p`: no string of the table stands there.
abbrev pub IsFresh : ℕ → Table → Type 0
IsFresh p t = (q : Chars) (e : Shared) → lookup q t ≡ some e → e.addr ≢ p

abbrev pub balanced : ℕ → Chars → Table → Run Table
balanced p s t = do (a, u) ← make_shared_string p s t; free_string a s u

released-acquired :
    (p : ℕ) (s : Chars) (o : Option Shared)
    → ((e : Shared) → o ≡ some e → (0 < e.refs) × (e.refs < max_short))
    → (0 < (acquired p s o).refs)
      × ((acquired p s o).refs < 2 ^ 15)
      × (released (acquired p s o) ≡ o)
released-acquired p s none sane = (omega arith, omega arith, refl)
released-acquired p s (some e) sane =
    let h = sane e refl in (ground arith, ground arith, ground arith)

module _ (p : ℕ) (s : Chars) (t : Table) (ix : IsIndexed s) (v : IsValid t) where
  made : (u : Table) (a : ℕ) → Acquires p s t (a, u) → lookup s u ≡ some (acquired p s (lookup s t))
  made u a r = ground (arith, r.reads s, str_eq_refl s)

  -- In a valid table, for a string whose hash is an index and whose count, if it is there, is
  -- above zero and below MAXSHORT, taking a reference and giving it back returns, keeps the table
  -- valid and leaves every lookup as it was.
  pub make-free :
      ((e : Shared) → lookup s t ≡ some e → (0 < e.refs) × (e.refs < max_short))
      → Returns (balanced p s t) λ w. IsValid w × ((q : Chars) → lookup q w ≡ lookup q t)
  make-free sane =
      let ((a, u), run, r) = make_shared_string_lem p s t ix v in
      let e = acquired p s (lookup s t) in
      let (low, high, back) = released-acquired p s (lookup s t) sane in
      let (w, done, f) = free_string_lem a s u ix r.valid e (made u a r) (sym r.returns) low high in
      (w, rw run done, (f.valid, λ q. ground (arith, f.reads q, r.reads q, str_eq→eq s q, back)))

  -- In a valid table, if a string whose hash is an index has 32767 references, taking one more and
  -- giving it back aborts the driver.
  pub refs_overflow :
      (e : Shared) → lookup s t ≡ some e → e.refs ≡ 2 ^ 15 - 1 → balanced p s t ≡ fatal
  refs_overflow e hit many =
      let ((a, u), run, r) = make_shared_string_lem p s t ix v in
      rw run (
        free_string_fatal a s u ix r.valid
          (inr (acquired p s (lookup s t), made u a r, inr (rw hit (ground arith)))))

  -- Freshly allocated strings stay at addresses of their own.
  pub make-Apart : (a : ℕ) (u : Table) → Apart t → IsFresh p t → Acquires p s t (a, u) → Apart u
  make-Apart a u apart fresh r q q' d e hd he same = elim (Option-cases (lookup s t)) [
    | inl o ↦ ground (
      arith,
      r.reads q,
      r.reads q',
      apart q q' d e,
      fresh q d,
      fresh q' e,
      str_eq→eq s q,
      str_eq→eq s q',
      o,
    )
    | inr (x, o) ↦ ground (
      arith,
      r.reads q,
      r.reads q',
      apart q q' d e,
      apart s q' x e,
      apart q s d x,
      str_eq→eq s q,
      str_eq→eq s q',
      o,
    )
  ]

  make-IsFresh :
      (a p' : ℕ) (u : Table) → p' ≢ p → IsFresh p' t → Acquires p s t (a, u) → IsFresh p' u
  make-IsFresh a p' u other fresh r q e hit same = elim (Option-cases (lookup s t)) [
    | inl o ↦ ground (arith, r.reads q, fresh q e, o)
    | inr (x, o) ↦ ground (arith, r.reads q, fresh q e, fresh s x, o)
  ]

-- Two calls in a row, and the pointers that they return.
abbrev pub make_two : ℕ → ℕ → Chars → Chars → Table → Run (ℕ × ℕ)
make_two p p' s q t = do
  (a, u) ← make_shared_string p s t
  (b, w) ← make_shared_string p' q u
  ok (a, b)

-- Two calls of make_shared_string in a row return, for strings whose hash is an index, in a valid
-- table whose strings stand at different addresses and with fresh, different addresses from the
-- allocator, one pointer exactly if the strings are equal.
pub make_two_pointers :
    (p p' : ℕ) (s q : Chars) (t : Table)
    → IsIndexed s
    → IsIndexed q
    → IsValid t
    → Apart t
    → IsFresh p t
    → IsFresh p' t
    → p' ≢ p
    → Returns (make_two p p' s q t) λ r. (r.0 ≡ r.1) ↔ (s ≡ q)
make_two_pointers p p' s q t is iq v apart fresh fresh' other =
    let ((a, u), run, r) = make_shared_string_lem p s t is v in
    let ((b, w), run', r') = make_shared_string_lem p' q u iq r.valid in
    let apart' = make-Apart p s t is v a u apart fresh r in
    let fresh'' = make-IsFresh p s t is v a p' u other fresh' r in
    let here = made p s t is v u a r in
    (
      (a, b),
      rw (run, ◌>>=◌, run'),
      (
        λ e. elim (Option-cases (lookup q u)) [
          | inl o ↦ absurd (fresh'' s _ here (ground (arith, r.returns, r'.returns)))
          | inr (x, o) ↦ apart' s q _ x here o (ground (arith, r.returns, r'.returns))
        ],
        λ e. ground (arith, r.returns, r'.returns),
      ),
    )
