-- ===== src/Gguf/Value/Encoding.antt =====
-- Metadata values as the GGUF container writes them: what `skip_value` of src/q3_gguf.c passes.
pub mod Skip
use sera_c.Common.{
  ℕ, zero, suc, ◌+◌, ◌≤◌, ◌≡◌, max, [], ◌++◌, Bytes, length, ◌==◌, if◌then◌else◌, u32_max, u64_max,
  le_bytes,
}
use sera_c.Gguf.Cursor.Reads.{string_bytes}
use sera_c.Gguf.Types.{scalar_value_size, value_string, value_array}

mutual
  pub data Value : Type 0 where
    scalar : ℕ → Bytes → Value
    string : Bytes → Value
    array : ℕ → Items → Value

  pub data Items : Type 0 where
    nil : Items
    cons : Value → Items → Items

abbrev pub type_of : Value → ℕ
type_of (scalar type bs) = type
type_of (string s) = value_string
type_of (array type xs) = value_array

abbrev pub count : Items → ℕ
count nil = 0
count (cons v xs) = suc (count xs)

unfoldable mutual
  pub encode : Value → Bytes
  encode (scalar type bs) = bs
  encode (string s) = string_bytes s
  encode (array type xs) = le_bytes 4 type ++ (le_bytes 8 (count xs) ++ encode_items xs)

  pub encode_items : Items → Bytes
  encode_items nil = []
  encode_items (cons v xs) = encode v ++ encode_items xs

-- The calls of `skip_value` that stand inside one another; an array of scalars makes none.
unfoldable mutual
  pub levels : Value → ℕ
  levels (scalar type bs) = 1
  levels (string s) = 1
  levels (array type xs) = suc (if scalar_value_size type == 0 then levels_items xs else 0)

  pub levels_items : Items → ℕ
  levels_items nil = 0
  levels_items (cons v xs) = max (levels v) (levels_items xs)

-- Scalars have the size of their type, and the items of an array have its item type.
mutual
  pub data IsWellFormed : Value → Type 0 where
    scalar_ok :
        {type : ℕ} {bs : Bytes}
        → length bs ≡ scalar_value_size type
        → 1 ≤ length bs
        → IsWellFormed (scalar type bs)
    string_ok : {s : Bytes} → IsWellFormed (string s)
    array_ok :
        {type : ℕ} {xs : Items}
        → type ≤ u32_max
        → count xs ≤ u64_max
        → HasItems type xs
        → IsWellFormed (array type xs)

  pub data HasItems : ℕ → Items → Type 0 where
    nil_ok : {type : ℕ} → HasItems type nil
    cons_ok :
        {type : ℕ} {v : Value} {xs : Items}
        → type_of v ≡ type
        → IsWellFormed v
        → HasItems type xs
        → HasItems type (cons v xs)
