-- ===== src/Gguf/Open.antt =====
-- `q3_gguf_open` of src/q3_gguf.c behind the system calls: the mapped bytes are its argument. That
-- a file cannot be opened, examined or mapped is not modelled.
pub mod Sound
use sera_c.Common.{ℕ, Bool, not, [], Bytes, length, ok, ◌>>=◌, ◌>>◌, require, ltb, ◌==◌}
use sera_c.Gguf.Cursor.{Cursor, R, too_small, not_gguf, bad_version, cursor_u32, cursor_u64}
use sera_c.Gguf.File.{Gguf, cursor_at}
use sera_c.Gguf.Metadata.{parse_metadata}
use sera_c.Gguf.Tensors.{parse_tensors}

abbrev pub gguf_magic : ℕ
gguf_magic = 0x46554747

-- The structure after `calloc`, with the mapping and its size.
abbrev pub mapped : Bytes → Gguf
mapped bs = record {
  map = bs;
  size = length bs;
  version = 0;
  n_kv = 0;
  n_tensors = 0;
  alignment = 0;
  tensor_data_pos = 0;
  max_tensor_bytes = 0;
  kv = [];
  tensors = [];
}

-- The structure with the counts of the header.
abbrev pub with_header : Gguf → ℕ → ℕ → ℕ → Gguf
with_header m version n_tensors n_kv = record m {
  version = version;
  n_tensors = n_tensors;
  n_kv = n_kv;
}

-- The magic number, the version and the two counts.
unfoldable pub read_header : Gguf → R (Gguf × Cursor)
read_header m = do
  (magic, c1) ← cursor_u32 (cursor_at m 0)
  require (magic == gguf_magic) not_gguf
  (version, c2) ← cursor_u32 c1
  (n_tensors, c3) ← cursor_u64 c2
  (n_kv, c4) ← cursor_u64 c3
  require (version == 3) bad_version
  ok (with_header m version n_tensors n_kv, c4)

-- The two tables behind the header.
unfoldable pub read_tables : (ℕ → ℕ → Bool) → Gguf → Cursor → R Gguf
read_tables calloc m c = do
  (m1, c1) ← parse_metadata calloc m c
  (m2, c2) ← parse_tensors calloc m1 c1
  ok m2

unfoldable pub gguf_open : (ℕ → ℕ → Bool) → Bytes → R Gguf
gguf_open calloc bs = do
  require (not (ltb (length bs) 32)) too_small
  (m, c) ← read_header (mapped bs)
  read_tables calloc m c
