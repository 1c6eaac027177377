-- ===== src/Gguf/Value.antt =====
-- `skip_value` of src/q3_gguf.c: the cursor passes one metadata value of any type.
pub mod Bounds
pub mod Encoding
use sera_c.Common.{
  ℕ, zero, suc, ◌+◌, ◌-◌, ◌/◌, not, ok, err, ◌>>=◌, ltb, ◌==◌, if◌then◌else◌, u64_max, mul64,
}
use sera_c.Gguf.Cursor.{
  Cursor, R, at_byte, nesting_too_deep, array_too_large, unknown_type, cursor_error, cursor_skip,
  cursor_u32, cursor_u64, cursor_string,
}
use sera_c.Gguf.Types.{scalar_value_size, value_string, value_array}

-- `for (i = 0; i < len; i++)`: a failure stops the loop.
unfoldable pub skip_items : (Cursor → R Cursor) → ℕ → Cursor → R Cursor
skip_items item zero c = ok c
skip_items item (suc n) c = item c >>= skip_items item n

-- The array case; `item` skips one item of a type that is no scalar.
unfoldable pub skip_array : (ℕ → Cursor → R Cursor) → Cursor → R Cursor
skip_array item c = do
  (item_type, c1) ← cursor_u32 c
  (len, c2) ← cursor_u64 c1
  let item_size = scalar_value_size item_type
  if not (item_size == 0)
      then if ltb (u64_max / item_size) len
        then cursor_error c2 array_too_large
        else cursor_skip c2 (mul64 len item_size)
      else skip_items (item item_type) len c2

-- The recursion is on the depths left: `depth > 8` is `9 - depth = 0`.
unfoldable pub skip_within : ℕ → ℕ → Cursor → R Cursor
skip_within zero type c = cursor_error c nesting_too_deep
skip_within (suc left) type c =
    let scalar = scalar_value_size type in
    if not (scalar == 0)
    then cursor_skip c scalar
    else if type == value_string
    then (do (ignored, c1) ← cursor_string c; ok c1)
    else if type == value_array
    then skip_array (skip_within left) c
    else cursor_error c unknown_type

unfoldable pub skip_value : Cursor → ℕ → ℕ → R Cursor
unfolding skip_within
skip_value c type depth = skip_within (9 - depth) type c
