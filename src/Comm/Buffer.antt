-- ===== src/Comm/Buffer.antt =====
-- The input buffer of a connection (`struct interactive` of lpmud/comm.h): copy_chars,
-- first_cmd_in_buf, next_cmd_in_buf, and the part of get_message that stores what it has read. A walk
-- of a pointer up to `text_end` is a recursion on the number of bytes that are left.
use lpmud_ng.Base.{
  ℕ, zero, suc, ◌+◌, ◌-◌, ◌==◌, ltb, leb, if◌then◌else◌, Option, none, some, List, [], ◌∷◌, length,
}

-- `text` is the array, read by index.
pub record Input : Type 0 where
  pub text : ℕ → ℕ
  pub text_start : ℕ
  pub text_end : ℕ

abbrev pub max_text : ℕ
max_text = 2048

abbrev pub put : ℕ → ℕ → (ℕ → ℕ) → ℕ → ℕ
put i c t j = if j == i then c else t j

-- The bytes that are written, where `written` others are before them; their number is returned.
unfoldable pub copy_chars : List ℕ → ℕ → ℕ → List ℕ
copy_chars [] written max_out = []
copy_chars (c ∷ from) written max_out =
    let skipped = copy_chars from written max_out in
    let line = copy_chars from (written + 3) max_out in
    let char = copy_chars from (written + 1) max_out in
    if c == 13
    then skipped
    else if c == 10
    then if ltb max_out (written + 3) then [] else 32 ∷ 8 ∷ 0 ∷ line
    else if ltb max_out (written + 1)
    then []
    else c ∷ char

unfoldable pub write : List ℕ → ℕ → (ℕ → ℕ) → ℕ → ℕ
write [] i t = t
write (c ∷ l) i t = write l (suc i) (put i c t)

-- The bytes `buff` have been read, at most `MAX_TEXT - text_end - 1` of them.
unfoldable pub store : List ℕ → Input → Input
store buff b =
    let out = copy_chars buff 0 (max_text - b.text_end - 1) in
    let e = b.text_end + length out in
    record b { text = put e 0 (write out b.text_end b.text); text_end = e }

-- `while (p < end && !*p) p++`, `n` bytes before the end
unfoldable pub skip_nulls : ℕ → ℕ → (ℕ → ℕ) → ℕ
skip_nulls zero p t = p
skip_nulls (suc n) p t = let rest = skip_nulls n (suc p) t in if t p == 0 then rest else p

-- `while (p < end && *p) p++`
unfoldable pub skip_text : ℕ → ℕ → (ℕ → ℕ) → ℕ
skip_text zero p t = p
skip_text (suc n) p t = let rest = skip_text n (suc p) t in if t p == 0 then p else rest

-- `while (p < end) *(q++) = *(p++)`
unfoldable pub move_down : ℕ → ℕ → ℕ → (ℕ → ℕ) → ℕ → ℕ
move_down zero p q t = t
move_down (suc n) p q t = move_down n (suc p) (suc q) (put q (t p) t)

abbrev pub clear : Input → Input
clear b = record b { text = put 0 0 b.text; text_start = 0; text_end = 0 }

-- A partial command is moved to the start of the buffer, and is a command if the buffer is full.
unfoldable pub partial : Input → Option ℕ × Input
partial b =
    let n = b.text_end - b.text_start in
    let t = move_down n b.text_start 0 b.text in
    if ltb (max_text - 2) n
    then (
      some 0,
      record b { text = put (n - 1) 0 (put (n - 2) 0 t); text_start = 0; text_end = n - 1 },
    )
    else (none, record b { text = t; text_start = 0; text_end = n })

-- What `first_cmd_in_buf` does behind the leading null bytes
unfoldable pub find_cmd : Input → Option ℕ × Input
find_cmd b =
    let p = skip_text (b.text_end - b.text_start) b.text_start b.text in
    if leb b.text_end b.text_start
    then (none, clear b)
    else if ltb p b.text_end
    then (some b.text_start, b)
    else partial b

-- The index of the command in the buffer
unfoldable pub first_cmd_in_buf : Input → Option ℕ × Input
first_cmd_in_buf b =
    let start = skip_nulls (b.text_end - b.text_start) b.text_start b.text in
    find_cmd (record b { text_start = start })

unfoldable pub next_cmd_in_buf : Input → Input
next_cmd_in_buf b =
    let p = skip_text (b.text_end - b.text_start) b.text_start b.text in
    let q = skip_nulls (b.text_end - p) p b.text in
    if ltb q b.text_end then record b { text_start = q } else clear b
