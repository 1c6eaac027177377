-- ===== src/Gguf/Cursor.antt =====
-- `q3_cursor` of src/q3_gguf.c: reads from the mapped file. The bytes that a read copies or points
-- to are values here. Every failing read makes its caller return, so the first message that
-- `cursor_error` keeps is the error of the result.
pub mod Bounds
pub mod Reads
pub mod Words
use sera_c.Common.{
  ℕ, ◌-◌, ◌%◌, Bool, not, ◌||◌, List, Bytes, take, drop, Result, ok, err, ◌>>=◌, ltb, ◌==◌,
  if◌then◌else◌, add64, sub64, le_value,
}

-- What a message says; `at_byte` adds the position of the cursor, as `cursor_error` does. The last
-- three are the messages of `q3_gguf_open` itself.
pub data Reason : Type 0 where
  truncated nesting_too_deep array_too_large unknown_type : Reason
  kv_count_too_large kv_table_failed tensor_count_too_large tensor_table_failed : Reason
  bad_dimensions element_overflow offset_overflow outside_file : Reason

pub data Error : Type 0 where
  at_byte : Reason → ℕ → Error
  too_small not_gguf bad_version : Error

abbrev pub R {ℓ} : Type ℓ → Type ℓ
R A = Result Error A

pub record Cursor : Type 0 where
  pub base : Bytes
  pub size : ℕ
  pub pos : ℕ

-- `cursor_error`, on a cursor that has no message yet.
abbrev pub cursor_error {ℓ} : {A : Type ℓ} → Cursor → Reason → R A
cursor_error c why = err (at_byte why c.pos)

abbrev pub advance : Cursor → ℕ → Cursor
advance c n = record c { pos = add64 c.pos n }

-- `c->base + c->pos`, `n` bytes of it.
abbrev pub slice : Cursor → ℕ → Bytes
slice c n = take n (drop c.pos c.base)

-- The test of `cursor_has`; its message is written by the callers below.
unfoldable pub cursor_has : Cursor → ℕ → Bool
cursor_has c n = not (ltb c.size n || ltb (sub64 c.size n) c.pos)

unfoldable pub cursor_read : Cursor → ℕ → R (Bytes × Cursor)
cursor_read c n = if cursor_has c n then ok (slice c n, advance c n) else cursor_error c truncated

unfoldable pub cursor_skip : Cursor → ℕ → R Cursor
cursor_skip c n = if cursor_has c n then ok (advance c n) else cursor_error c truncated

unfoldable pub cursor_u32 : Cursor → R (ℕ × Cursor)
cursor_u32 c = do (bs, c1) ← cursor_read c 4; ok (le_value bs, c1)

unfoldable pub cursor_u64 : Cursor → R (ℕ × Cursor)
cursor_u64 c = do (bs, c1) ← cursor_read c 8; ok (le_value bs, c1)

-- A length, and that many bytes: the `q3_str` that points to them.
unfoldable pub cursor_string : Cursor → R (Bytes × Cursor)
cursor_string c = do
  (len, c1) ← cursor_u64 c
  if cursor_has c1 len then ok (slice c1 len, advance c1 len) else cursor_error c1 truncated

-- `align_up`, with the wrap of its sum.
unfoldable pub align_up : ℕ → ℕ → ℕ
align_up value alignment =
    let rem = value % alignment in if rem == 0 then value else sub64 (add64 value alignment) rem
