-- ===== src/Gguf/Types/Sizes.antt =====
-- The byte count of a tensor, src/q3_gguf.c.
use sera_c.Common.{
  ℕ, ◌+◌, ◌-◌, ◌*◌, ◌/◌, ◌≤◌, ◌<◌, ◌≡◌, ◌↔◌, ◌∙◌, none, some, List, [], ◌∷◌, All, ltb,
  if◌then◌else◌, u64_max, arith,
}
use sera_c.Gguf.Types.{TypeInfo, gguf_types, entry_at, tensor_type, block_nbytes, type_nbytes}

-- What every row of the table satisfies.
pub record IsBlock (t : TypeInfo) : Type 0 where
  pub elems_pos : 1 ≤ t.block_elems
  pub elems_max : t.block_elems ≤ 256
  pub bytes_pos : 1 ≤ t.block_bytes
  pub bytes_max : t.block_bytes ≤ 292

gguf_types-IsBlock : All (λ (r : ℕ × TypeInfo). IsBlock r.1) gguf_types
unfolding gguf_types
gguf_types-IsBlock = omega arith

entry_at-IsBlock :
    (type : ℕ) (rows : List (ℕ × TypeInfo)) (t : TypeInfo)
    → All (λ (r : ℕ × TypeInfo). IsBlock r.1) rows
    → entry_at type rows ≡ some t
    → IsBlock t
unfolding entry_at
entry_at-IsBlock type [] t h e = cc
entry_at-IsBlock type ((i, s) ∷ rest) t (p, h) e = ground (arith, entry_at-IsBlock type rest t h)

pub tensor_type-IsBlock : (type : ℕ) (t : TypeInfo) → tensor_type type ≡ some t → IsBlock t
unfolding tensor_type
tensor_type-IsBlock type t e = entry_at-IsBlock type gguf_types t gguf_types-IsBlock e

-- The number of blocks that hold `elements`, the last one in part.
abbrev pub block_count : TypeInfo → ℕ → ℕ
block_count t elements = (elements + t.block_elems - 1) / t.block_elems

fits_iff : (blocks b : ℕ) → 1 ≤ b → ltb (u64_max / b) blocks ≡ ltb u64_max (blocks * b)
fits_iff blocks b h = grind arith

block_nbytes_exact :
    (t : TypeInfo) (elements : ℕ)
    → IsBlock t
    → elements + t.block_elems ≤ u64_max + 1
    → block_nbytes t elements ≡ (
        if ltb u64_max (block_count t elements * t.block_bytes)
        then none
        else some (block_count t elements * t.block_bytes))
unfolding block_nbytes
block_nbytes_exact t elements v h =
    ground (arith, fits_iff (block_count t elements) t.block_bytes v.bytes_pos)

div_small : (a b : ℕ) → a < b → a / b ≡ 0
div_small a b h = grind arith

block_nbytes_wraps :
    (t : TypeInfo) (elements : ℕ)
    → IsBlock t
    → elements ≤ u64_max
    → u64_max + 1 < elements + t.block_elems
    → block_nbytes t elements ≡ some 0
unfolding block_nbytes
block_nbytes_wraps t elements v small h =
    ground (arith, div_small (elements + t.block_elems - 1 - 0x1_0000_0000_0000_0000) t.block_elems)

block_count_covers :
    (t : TypeInfo) (elements : ℕ) → IsBlock t → elements ≤ block_count t elements * t.block_elems
block_count_covers t elements v = grind arith

block_count_least :
    (t : TypeInfo) (elements n : ℕ)
    → IsBlock t
    → elements ≤ n * t.block_elems
    → block_count t elements ≤ n
block_count_least t elements n v h = grind arith

type_nbytes-block_nbytes :
    (type elements : ℕ) (t : TypeInfo)
    → tensor_type type ≡ some t
    → type_nbytes type elements ≡ block_nbytes t elements
unfolding type_nbytes
type_nbytes-block_nbytes type elements t e = rw (e, type_nbytes)

-- What a byte count should be: the least whole number of blocks that holds the elements, in bytes
-- that 64 bits hold.
pub record IsByteCount (t : TypeInfo) (elements bytes : ℕ) : Type 0 where
  pub whole : bytes ≡ block_count t elements * t.block_bytes
  pub covers : elements ≤ block_count t elements * t.block_elems
  pub least : (n : ℕ) → elements ≤ n * t.block_elems → block_count t elements ≤ n
  pub in_range : bytes ≤ u64_max

-- For a known type and an element count at least one block below 2 ^ 64, `q3_gguf_type_nbytes`
-- returns true with the least whole number of blocks that holds the elements, and returns false
-- exactly where those bytes exceed 64 bits.
pub type_nbytes_exact :
    (type elements : ℕ) (t : TypeInfo)
    → tensor_type type ≡ some t
    → elements + t.block_elems ≤ u64_max + 1
    → ((bytes : ℕ) → type_nbytes type elements ≡ some bytes → IsByteCount t elements bytes)
      × ((type_nbytes type elements ≡ none) ↔ (u64_max < block_count t elements * t.block_bytes))
type_nbytes_exact type elements t e h =
    let v = tensor_type-IsBlock type t e in
    let exact = type_nbytes-block_nbytes type elements t e ∙ block_nbytes_exact t elements v h in
    (
      λ bytes r. record {
        whole = ground arith;
        covers = block_count_covers t elements v;
        least = λ n. block_count_least t elements n v;
        in_range = ground arith;
      },
      (λ r. ground arith, λ r. ground arith),
    )

-- For a known type, element counts whose sum with the block size passes 2 ^ 64 wrap:
-- `q3_gguf_type_nbytes` returns true with 0 bytes.
pub type_nbytes_wraps :
    (type elements : ℕ) (t : TypeInfo)
    → tensor_type type ≡ some t
    → elements ≤ u64_max
    → u64_max + 1 < elements + t.block_elems
    → type_nbytes type elements ≡ some 0
type_nbytes_wraps type elements t e small h =
    type_nbytes-block_nbytes type elements t e
    ∙ block_nbytes_wraps t elements (tensor_type-IsBlock type t e) small h
