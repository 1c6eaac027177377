-- ===== src/Gguf/File.antt =====
-- The structures of src/q3_gguf.h: an open container, its key/value entries and its tensors. A
-- `q3_str` is the bytes it points to. The file descriptor, the flag `native_nvfp4` and the
-- tensors' `data` pointer, which no function of the reader sets, are left out.
use sera_c.Common.{ℕ, List, Bytes}
use sera_c.Gguf.Cursor.{Cursor}

pub record Kv : Type 0 where
  pub key : Bytes
  pub type : ℕ
  pub value_pos : ℕ

pub record Tensor : Type 0 where
  pub name : Bytes
  pub name_buf : Bytes
  pub ndim : ℕ
  pub dim : List ℕ
  pub type : ℕ
  pub rel_offset : ℕ
  pub abs_offset : ℕ
  pub elements : ℕ
  pub bytes : ℕ

pub record Gguf : Type 0 where
  pub map : Bytes
  pub size : ℕ
  pub version : ℕ
  pub n_kv : ℕ
  pub n_tensors : ℕ
  pub alignment : ℕ
  pub tensor_data_pos : ℕ
  pub max_tensor_bytes : ℕ
  pub kv : List Kv
  pub tensors : List Tensor

abbrev pub max_dims : ℕ
max_dims = 8

abbrev pub max_name : ℕ
max_name = 128

unfoldable pub cursor_at : Gguf → ℕ → Cursor
cursor_at m pos = record { base = m.map; size = m.size; pos = pos }
