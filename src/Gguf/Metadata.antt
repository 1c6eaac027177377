-- ===== src/Gguf/Metadata.antt =====
-- `parse_metadata` of src/q3_gguf.c. Whether an allocation succeeds is a parameter: `calloc n s`
-- answers for `n` items of `s` bytes.
pub mod Entries
pub mod Header
pub mod Encoding
use sera_c.Common.{
  ℕ, zero, suc, Bool, not, ◌&&◌, [], ◌∷◌, ◌++◌, Bytes, ok, err, ◌>>=◌, ◌>>◌, require, ltb, ◌==◌,
  if◌then◌else◌, bytes_eq, codes, sub64,
}
use sera_c.Gguf.Cursor.{
  Cursor, R, at_byte, kv_count_too_large, kv_table_failed, cursor_u32, cursor_string,
}
use sera_c.Gguf.File.{Kv, Gguf, cursor_at}
use sera_c.Gguf.Types.{value_uint32}
use sera_c.Gguf.Value.{skip_value}

abbrev pub kv_struct_bytes : ℕ
kv_struct_bytes = 32

-- Key, type and the position where the value begins.
unfoldable pub read_kv : Cursor → R (Kv × Cursor)
read_kv c = do
  (key, c1) ← cursor_string c
  (type, c2) ← cursor_u32 c1
  ok (record { key = key; type = type; value_pos = c2.pos }, c2)

abbrev pub alignment_key : Bytes
alignment_key = codes "general.alignment"

-- `if (cursor_u32(&tmp, &alignment) && alignment != 0) m->alignment = alignment;`
unfoldable pub nonzero_or : ℕ → R (ℕ × Cursor) → ℕ
nonzero_or old (ok (alignment, tmp)) = if alignment == 0 then old else alignment
nonzero_or old (err e) = old

-- The alignment after an entry, read through a cursor of its own.
unfoldable pub entry_alignment : Gguf → Kv → ℕ
entry_alignment m kv =
    if bytes_eq kv.key alignment_key && kv.type == value_uint32
    then nonzero_or m.alignment (cursor_u32 (cursor_at m kv.value_pos))
    else m.alignment

-- One round of the loop; `kv` holds the entries read so far.
unfoldable pub kv_step : Gguf → Cursor → R (Gguf × Cursor)
kv_step m c = do
  (kv, c1) ← read_kv c
  c2 ← skip_value c1 kv.type 0
  ok (record m { kv = m.kv ++ (kv ∷ []); alignment = entry_alignment m kv }, c2)

unfoldable pub kv_loop : ℕ → Gguf → Cursor → R (Gguf × Cursor)
kv_loop zero m c = ok (m, c)
kv_loop (suc n) m c = do (m1, c1) ← kv_step m c; kv_loop n m1 c1

unfoldable pub parse_metadata : (ℕ → ℕ → Bool) → Gguf → Cursor → R (Gguf × Cursor)
parse_metadata calloc m c = do
  require (not (ltb (sub64 c.size c.pos) m.n_kv)) (at_byte kv_count_too_large c.pos)
  require (calloc m.n_kv kv_struct_bytes) (at_byte kv_table_failed c.pos)
  kv_loop m.n_kv (record m { kv = []; alignment = 32 }) c
