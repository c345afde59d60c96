-- ===== src/Comm/Commands.antt =====
-- What finding a command, dropping one and storing new bytes do to the bytes that wait.
use lpmud_ng.Base.{
  ℕ, ◌+◌, ◌-◌, ◌≤◌, ◌≡◌, refl, sym, ap, ◌∙◌, subst, ltb, if◌then◌else◌, Bool-cases, inl, inr, List,
  [], ◌∷◌, ◌++◌, length, arith,
}
use lpmud_ng.Comm.Buffer.{
  Input, max_text, put, clear, copy_chars, write, store, skip_nulls, skip_text, find_cmd,
  first_cmd_in_buf, next_cmd_in_buf,
}
use lpmud_ng.Comm.Slice.{
  slice, slice_at, nulls, text_size, length-slice, nulls_le, text_size_le, skip_nulls-slice,
  skip_text-slice, slice-drop, slice-write,
}
use lpmud_ng.Comm.Pending.{
  pending, IsInput, drop_nulls, drop_text, drop-nulls, drop-text_size, command_at, Finds,
  find_cmd_lem,
}

-- The pointer stops at the first byte that is not null.
skip_nulls-pending :
    (n p : ℕ) (t : ℕ → ℕ)
    → slice (p + n - skip_nulls n p t) (skip_nulls n p t) t ≡ drop_nulls (slice n p t)
skip_nulls-pending n p t =
    ap (λ q. slice (p + n - q) q t) (skip_nulls-slice n p t)
    ∙ slice_at (p + n - (p + k)) (n - k) (p + k) (p + k) t (omega arith) refl
    ∙ slice-drop k n p t
    ∙ drop-nulls (slice n p t)
  where
    k : ℕ
    k = nulls (slice n p t)

skip_text-pending :
    (n p : ℕ) (t : ℕ → ℕ)
    → slice (p + n - skip_text n p t) (skip_text n p t) t ≡ drop_text (slice n p t)
skip_text-pending n p t =
    ap (λ q. slice (p + n - q) q t) (skip_text-slice n p t)
    ∙ slice_at (p + n - (p + k)) (n - k) (p + k) (p + k) t (omega arith) refl
    ∙ slice-drop k n p t
    ∙ drop-text_size (slice n p t)
  where
    k : ℕ
    k = text_size (slice n p t)

skip_nulls_le : (n p : ℕ) (t : ℕ → ℕ) → skip_nulls n p t ≤ p + n
skip_nulls_le n p t =
    omega (arith, skip_nulls-slice n p t, nulls_le (slice n p t), length-slice n p t)

skip_text_le : (n p : ℕ) (t : ℕ → ℕ) → skip_text n p t ≤ p + n
skip_text_le n p t =
    omega (arith, skip_text-slice n p t, text_size_le (slice n p t), length-slice n p t)

-- In a sound buffer, first_cmd_in_buf drops the null bytes at the head of what waits; it finds
-- nothing if nothing is left, the start of it if a null byte ends a command there, and otherwise
-- nothing unless more than MAX_TEXT - 2 bytes are left, of which the last two then give way to a
-- null byte. The buffer stays sound.
pub first_cmd_in_buf_lem :
    (b : Input) → IsInput b → Finds (first_cmd_in_buf b) (command_at (drop_nulls (pending b)))
unfolding first_cmd_in_buf
first_cmd_in_buf_lem b h =
    subst (λ l. Finds (find_cmd b1) (command_at l)) waiting (find_cmd_lem b1 sound)
  where
    b1 : Input
    b1 = record b { text_start = skip_nulls (b.text_end - b.text_start) b.text_start b.text }

    total : b.text_start + (b.text_end - b.text_start) ≡ b.text_end
    total = omega (arith, h.ordered)

    waiting : pending b1 ≡ drop_nulls (pending b)
    waiting =
        ap (λ e. slice (e - b1.text_start) b1.text_start b.text) (sym total)
        ∙ skip_nulls-pending (b.text_end - b.text_start) b.text_start b.text

    sound : IsInput b1
    sound = record {
      ordered = omega (arith, total, skip_nulls_le (b.text_end - b.text_start) b.text_start b.text);
      room = h.room;
    }

-- `next_cmd_in_buf` drops one command and the null bytes behind it.
pub next_cmd_in_buf_lem :
    (b : Input)
    → IsInput b
    → (pending (next_cmd_in_buf b) ≡ drop_nulls (drop_text (pending b)))
      × IsInput (next_cmd_in_buf b)
unfolding next_cmd_in_buf
next_cmd_in_buf_lem b h = elim (Bool-cases (ltb q b.text_end)) [
  | inl more ↦
      subst (λ r. (pending r ≡ drop_nulls (drop_text (pending b))) × IsInput r)
        (sym (ap (λ c. if c then record b { text_start = q } else clear b) more))
        (waiting, record { ordered = ground (arith, more); room = h.room })
  | inr done ↦
      subst (λ r. (pending r ≡ drop_nulls (drop_text (pending b))) × IsInput r)
        (sym (ap (λ c. if c then record b { text_start = q } else clear b) done))
        (
          sym (slice_at (b.text_end - q) 0 q q b.text (ground (arith, done)) refl) ∙ waiting,
          record { ordered = omega arith; room = omega arith },
        )
]
  where
    p : ℕ
    p = skip_text (b.text_end - b.text_start) b.text_start b.text

    q : ℕ
    q = skip_nulls (b.text_end - p) p b.text

    total : b.text_start + (b.text_end - b.text_start) ≡ b.text_end
    total = omega (arith, h.ordered)

    total_p : p + (b.text_end - p) ≡ b.text_end
    total_p = omega (arith, total, skip_text_le (b.text_end - b.text_start) b.text_start b.text)

    waiting : slice (b.text_end - q) q b.text ≡ drop_nulls (drop_text (pending b))
    waiting =
        ap (λ e. slice (e - q) q b.text) (sym total_p)
        ∙ skip_nulls-pending (b.text_end - p) p b.text
        ∙ ap drop_nulls (
            ap (λ e. slice (e - p) p b.text) (sym total)
            ∙ skip_text-pending (b.text_end - b.text_start) b.text_start b.text)

-- Never more bytes are written than there is room for.
pub copy_chars_le :
    (from : List ℕ) (written room : ℕ)
    → written ≤ room
    → written + length (copy_chars from written room) ≤ room
unfolding copy_chars
copy_chars_le [] written room h = omega (arith, h)
copy_chars_le (c ∷ from) written room h = ground (
  arith,
  h,
  copy_chars_le from written room,
  copy_chars_le from (written + 3) room,
  copy_chars_le from (written + 1) room,
)

-- In a sound buffer, what copy_chars writes with the room that is left is added behind what waits,
-- a null byte is behind it, and the buffer stays sound, with its end inside the array.
pub store_lem :
    (buff : List ℕ) (b : Input)
    → IsInput b
    → (pending (store buff b) ≡ pending b ++ copy_chars buff 0 (max_text - b.text_end - 1))
      × ((store buff b).text (store buff b).text_end ≡ 0)
      × IsInput (store buff b)
unfolding store
store_lem buff b h = (
  slice_at (b.text_end + length out - b.text_start) (n + length out) b.text_start b.text_start _
        (omega (arith, h.ordered)) refl
      ∙ ap (λ e. slice (n + length out) b.text_start (put (e + length out) 0 (write out e b.text)))
          (sym total)
      ∙ slice-write out n b.text_start b.text,
  ground arith,
  record {
    ordered = omega (arith, h.ordered);
    room = omega (arith, h.room, copy_chars_le buff 0 (max_text - b.text_end - 1) (omega arith));
  },
)
  where
    out : List ℕ
    out = copy_chars buff 0 (max_text - b.text_end - 1)

    n : ℕ
    n = b.text_end - b.text_start

    total : b.text_start + n ≡ b.text_end
    total = omega (arith, h.ordered)
