-- ===== src/Gguf/Tensors.antt =====
-- `parse_tensors` of src/q3_gguf.c: the descriptors in file order, and then their places.
pub mod Shape
pub mod Places
use sera_c.Common.{
  ℕ, zero, suc, ◌-◌, ◌/◌, Bool, not, ◌&&◌, ◌||◌, none, some, List, [], ◌∷◌, ◌++◌, take, min, Bytes,
  length, ok, ◌>>=◌, ◌>>◌, require, ltb, ◌==◌, if◌then◌else◌, u64_max, add64, sub64, mul64,
}
use sera_c.Gguf.Cursor.{
  Cursor, R, at_byte, tensor_count_too_large, tensor_table_failed, bad_dimensions, element_overflow,
  offset_overflow, outside_file, cursor_u32, cursor_u64, cursor_string, align_up,
}
use sera_c.Gguf.File.{Tensor, Gguf, max_dims, max_name}
use sera_c.Gguf.Types.{type_nbytes}

abbrev pub tensor_struct_bytes : ℕ
tensor_struct_bytes = 264

-- The terminated copy of a name: its first 127 bytes.
unfoldable pub name_copy : Bytes → Bytes
name_copy name = take (min (length name) (max_name - 1)) name

-- The dimensions and the element count, with the test before each product.
unfoldable pub dims_loop : ℕ → List ℕ → ℕ → Cursor → R (List ℕ × ℕ × Cursor)
dims_loop zero dims elements c = ok (dims, elements, c)
dims_loop (suc n) dims elements c = do
  (d, c1) ← cursor_u64 c
  require (not (not (d == 0) && ltb (u64_max / d) elements)) (at_byte element_overflow c1.pos)
  dims_loop n (dims ++ (d ∷ [])) (mul64 elements d) c1

-- An unsupported type has 0 bytes: flagged, not fatal.
unfoldable pub bytes_or_zero : ℕ → ℕ → ℕ
bytes_or_zero type elements = elim (type_nbytes type elements) [ none ↦ 0 | some bytes ↦ bytes ]

-- The zeroed entry of the table with the fields that the first loop fills in.
abbrev pub descriptor : Bytes → List ℕ → ℕ → ℕ → ℕ → ℕ → Tensor
descriptor name dims ndim elements type rel_offset = record {
  name = name;
  name_buf = name_copy name;
  ndim = ndim;
  dim = dims;
  type = type;
  rel_offset = rel_offset;
  abs_offset = 0;
  elements = elements;
  bytes = bytes_or_zero type elements;
}

unfoldable pub read_tensor : Cursor → R (Tensor × Cursor)
read_tensor c = do
  (name, c1) ← cursor_string c
  (ndim, c2) ← cursor_u32 c1
  require (not (ndim == 0 || ltb max_dims ndim)) (at_byte bad_dimensions c2.pos)
  (dims, elements, c3) ← dims_loop ndim [] 1 c2
  (type, c4) ← cursor_u32 c3
  (rel_offset, c5) ← cursor_u64 c4
  ok (descriptor name dims ndim elements type rel_offset, c5)

unfoldable pub tensor_loop : ℕ → List Tensor → Cursor → R (List Tensor × Cursor)
tensor_loop zero ts c = ok (ts, c)
tensor_loop (suc n) ts c = do (t, c1) ← read_tensor c; tensor_loop n (ts ++ (t ∷ [])) c1

-- The second loop on one tensor: its absolute offset, tested against the file.
unfoldable pub place : Gguf → Cursor → Tensor → R Tensor
place m c t = do
  require (not (ltb (sub64 u64_max m.tensor_data_pos) t.rel_offset)) (at_byte offset_overflow c.pos)
  let abs_offset = add64 m.tensor_data_pos t.rel_offset
  require
      (not (not (t.bytes == 0) && (ltb m.size abs_offset || ltb (sub64 m.size abs_offset) t.bytes)))
      (at_byte outside_file c.pos)
  ok (record t { abs_offset = abs_offset })

unfoldable pub larger : ℕ → Tensor → ℕ
larger most t = if ltb most t.bytes then t.bytes else most

-- The rest of the second loop over `todo`; `done` has its places.
unfoldable pub place_loop : List Tensor → List Tensor → Gguf → Cursor → R Gguf
place_loop [] done m c = ok (record m { tensors = done })
place_loop (t ∷ todo) done m c = do
  t1 ← place m c t
  place_loop todo (done ++ (t1 ∷ [])) (record m { max_tensor_bytes = larger m.max_tensor_bytes t1 })
      c

unfoldable pub parse_tensors : (ℕ → ℕ → Bool) → Gguf → Cursor → R (Gguf × Cursor)
parse_tensors calloc m c = do
  require (not (ltb (sub64 c.size c.pos) m.n_tensors)) (at_byte tensor_count_too_large c.pos)
  require (calloc m.n_tensors tensor_struct_bytes) (at_byte tensor_table_failed c.pos)
  (ts, c1) ← tensor_loop m.n_tensors [] c
  m1 ← place_loop ts [] (record m { tensor_data_pos = align_up c1.pos m.alignment }) c1
  ok (m1, c1)
