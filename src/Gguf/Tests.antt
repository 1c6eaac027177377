-- ===== src/Gguf/Tests.antt =====
-- A small container, and the theorems about src/q3_gguf.c at it.
use sera_c.Gguf.Access.{array_next_string}
use sera_c.Gguf.Access.Payload.{HasPayload, tensor_data-HasPayload}
use sera_c.Gguf.Access.Strings.{strings_bytes, Yields, string_array, array_next_string-Yields}
use sera_c.Gguf.Value.Encoding.Skip.{skip_value-encode}
use sera_c.Gguf.Access.Lookup.{AgreesWith, parse_metadata-AgreesWith}
use sera_c.Gguf.Value.Bounds.{Passes, skip_value-Passes}
use sera_c.Gguf.Types.Sizes.{type_nbytes_wraps, IsByteCount, type_nbytes_exact}
use sera_c.Gguf.Cursor.{
  align_up, cursor_has, cursor_read, cursor_skip, cursor_u32, cursor_u64, cursor_string,
}
use sera_c.Gguf.Tensors.{
  parse_tensors, tensor_loop, read_tensor, dims_loop, name_copy, bytes_or_zero, place, place_loop,
  larger,
}
use sera_c.Gguf.Value.{skip_value, skip_array, skip_items}
use sera_c.Gguf.Metadata.{parse_metadata, kv_loop, kv_step, read_kv, entry_alignment, nonzero_or}
use sera_c.Gguf.File.{Tensor, Kv, Gguf, cursor_at}
use sera_c.Gguf.Types.{
  value_array, value_uint32, value_string, type_nbytes, scalar_value_size, TypeInfo,
}
use sera_c.Gguf.Open.{gguf_magic, gguf_open, read_header, read_tables, with_header, mapped}
use sera_c.Gguf.Value.Encoding.{
  Value, array, scalar, string, cons, nil, encode, IsWellFormed, levels, array_ok, cons_ok,
  scalar_ok, string_ok, nil_ok,
}
use sera_c.Gguf.Cursor.Reads.{string_bytes, between}
use sera_c.Gguf.Metadata.Encoding.{table_bytes, Entry, IsEntry}
use sera_c.Common.{
  ℕ, zero, suc, ◌≡◌, refl, [], ◌∷◌, ◌++◌, Bytes, List, Bool, le_bytes, codes, true, bytes_eq,
  le_value, ok, Post, All, some, IsByte, none, arith, ◌↔◌, u64_max, ◌<◌, ◌≢◌,
}

abbrev zeros : ℕ → Bytes
zeros zero = []
zeros (suc n) = 0 ∷ zeros n

abbrev pub room : ℕ → ℕ → Bool
room n size = true

abbrev alignment_entry : Entry
alignment_entry = (codes "general.alignment", scalar value_uint32 (le_bytes 4 64))

-- Nested arrays: two arrays of one string each.
abbrev nested : Value
nested = array value_array (
    cons (array value_string (cons (string (codes "a")) nil))
      (cons (array value_string (cons (string (codes "bc")) nil)) nil))

abbrev entries : List Entry
entries = alignment_entry ∷ (codes "name", string (codes "q3")) ∷ (codes "list", nested) ∷ []

abbrev header_bytes : Bytes
header_bytes = le_bytes 4 gguf_magic ++ (le_bytes 4 3 ++ (le_bytes 8 1 ++ le_bytes 8 3))

-- A tensor `t` of 4 times 2 floats at offset 0.
abbrev tensor_bytes : Bytes
tensor_bytes =
    string_bytes (codes "t")
    ++ (le_bytes 4 2 ++ (le_bytes 8 4 ++ (le_bytes 8 2 ++ (le_bytes 4 0 ++ le_bytes 8 0))))

abbrev pub file : Bytes
file = header_bytes ++ (table_bytes entries ++ (tensor_bytes ++ zeros 100))

abbrev q4_k : TypeInfo
q4_k = record { name = "q4_k"; block_elems = 256; block_bytes = 144 }

abbrev kvs : List Kv
kvs =
    (record { key = codes "general.alignment"; type = 4; value_pos = 53 })
    ∷ (record { key = codes "name"; type = 8; value_pos = 73 })
    ∷ (record { key = codes "list"; type = 9; value_pos = 99 })
    ∷ []

abbrev pub tensor : Tensor
tensor = record {
  name = codes "t";
  name_buf = codes "t";
  ndim = 2;
  dim = 4 ∷ 2 ∷ [];
  type = 0;
  rel_offset = 0;
  abs_offset = 256;
  elements = 8;
  bytes = 32;
}

abbrev pub container : Gguf
container = record {
  map = file;
  size = 295;
  version = 3;
  n_kv = 3;
  n_tensors = 1;
  alignment = 64;
  tensor_data_pos = 256;
  max_tensor_bytes = 32;
  kv = kvs;
  tensors = tensor ∷ [];
}

pub open_file : gguf_open room file ≡ ok container
unfolding gguf_open read_header read_tables parse_metadata kv_loop kv_step read_kv entry_alignment
    nonzero_or skip_value skip_array skip_items parse_tensors tensor_loop read_tensor dims_loop
    name_copy bytes_or_zero type_nbytes place place_loop larger align_up cursor_at cursor_has
    cursor_read cursor_skip cursor_u32 cursor_u64 cursor_string scalar_value_size bytes_eq le_value
    le_bytes encode
open_file = refl

pub file-IsByte : All IsByte file
unfolding le_bytes encode
file-IsByte = omega arith

type_nbytes_exact_example :
    ((bytes : ℕ) → type_nbytes 12 1000 ≡ some bytes → IsByteCount q4_k 1000 bytes)
    × ((type_nbytes 12 1000 ≡ none) ↔ (u64_max < 576))
unfolding type_nbytes
type_nbytes_exact_example = type_nbytes_exact 12 1000 q4_k refl (omega arith)

type_nbytes_wraps_example : type_nbytes 12 0xffff_ffff_ffff_ff80 ≡ some 0
unfolding type_nbytes
type_nbytes_wraps_example =
    type_nbytes_wraps 12 0xffff_ffff_ffff_ff80 q4_k refl (omega arith) (omega arith)

skip_value-Passes_example :
    Post
      (skip_value (between header_bytes (encode nested)) 9 0)
      (Passes 1 (between header_bytes (encode nested)))
unfolding le_bytes encode
skip_value-Passes_example =
    skip_value-Passes (between header_bytes (encode nested)) 9 0 (omega arith)

nested_ok : IsWellFormed nested
unfolding scalar_value_size
nested_ok = array_ok (omega arith) (omega arith) (
    cons_ok refl (array_ok (omega arith) (omega arith) (cons_ok refl string_ok nil_ok))
      (cons_ok refl (array_ok (omega arith) (omega arith) (cons_ok refl string_ok nil_ok)) nil_ok))

skip_value-encode_example :
    skip_value (between header_bytes (encode nested ++ zeros 5)) 9 6
    ≡ ok (between (header_bytes ++ encode nested) (zeros 5))
unfolding le_bytes encode levels scalar_value_size
skip_value-encode_example =
    skip_value-encode nested 6 header_bytes (zeros 5) nested_ok (omega arith) (omega arith)

entries-IsEntry : All IsEntry entries
unfolding levels scalar_value_size le_bytes
entries-IsEntry = (
  record { value = scalar_ok refl (omega arith); type_small = omega arith; depth = omega arith },
  (
    record { value = string_ok; type_small = omega arith; depth = omega arith },
    (record { value = nested_ok; type_small = omega arith; depth = omega arith }, tt),
  ),
)

abbrev announced : Gguf
announced = with_header (mapped file) 3 1 3

parse_metadata-AgreesWith_example :
    (m : Gguf) × (parse_metadata room announced
        (between header_bytes (table_bytes entries ++ (tensor_bytes ++ zeros 100)))
      ≡ ok (m, between (header_bytes ++ table_bytes entries) (tensor_bytes ++ zeros 100)))
    × AgreesWith entries m
unfolding le_bytes encode
parse_metadata-AgreesWith_example =
    parse_metadata-AgreesWith room announced entries header_bytes (tensor_bytes ++ zeros 100) refl
      refl refl refl (omega arith) entries-IsEntry

tensor_data-HasPayload_example :
    All (λ (t : Tensor). t.bytes ≢ 0 → HasPayload container t) (tensor ∷ [])
unfolding le_bytes encode
tensor_data-HasPayload_example =
    tensor_data-HasPayload room file file-IsByte (omega arith) open_file

-- The two strings "a" and "bc" as items.
array_next_string-Yields_example :
    Yields
      (string_array header_bytes (strings_bytes (codes "a" ∷ codes "bc" ∷ []) ++ zeros 3) 0 2)
      (codes "a" ∷ codes "bc" ∷ [])
      (string_array (header_bytes ++ strings_bytes (codes "a" ∷ codes "bc" ∷ [])) (zeros 3) 2 2)
    × (array_next_string
          (string_array (header_bytes ++ strings_bytes (codes "a" ∷ codes "bc" ∷ [])) (zeros 3) 2 2)
        ≡ (
          none,
          string_array (header_bytes ++ strings_bytes (codes "a" ∷ codes "bc" ∷ [])) (zeros 3) 2 2,
        ))
unfolding le_bytes strings_bytes
array_next_string-Yields_example =
    array_next_string-Yields (codes "a" ∷ codes "bc" ∷ []) header_bytes (zeros 3) 0 2 (omega arith)
      refl (omega arith)
