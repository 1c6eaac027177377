-- ===== src/Gguf/Types.antt =====
-- The type tables of src/q3_gguf.c: metadata value types, and the block geometry of tensor types.
pub mod Sizes
use Prim.Native.String.{String}
use sera_c.Common.{
  ℕ, ◌+◌, ◌*◌, ◌/◌, Bool, ◌||◌, Option, none, some, List, [], ◌∷◌, ltb, ◌==◌, if◌then◌else◌,
  u64_max, add64, sub64, mul64,
}

abbrev pub value_uint32 : ℕ
value_uint32 = 4

abbrev pub value_int32 : ℕ
value_int32 = 5

abbrev pub value_float32 : ℕ
value_float32 = 6

abbrev pub value_bool : ℕ
value_bool = 7

abbrev pub value_string : ℕ
value_string = 8

abbrev pub value_array : ℕ
value_array = 9

abbrev pub value_uint64 : ℕ
value_uint64 = 10

abbrev pub value_float64 : ℕ
value_float64 = 12

-- The bytes of a scalar, and 0 for strings, arrays and unknown types.
unfoldable pub scalar_value_size : ℕ → ℕ
scalar_value_size type =
    if type == 0 || type == 1 || type == value_bool
    then 1
    else if type == 2 || type == 3
    then 2
    else if type == value_uint32 || type == value_int32 || type == value_float32
    then 4
    else if type == value_uint64 || type == 11 || type == value_float64
    then 8
    else 0

pub record TypeInfo : Type 0 where
  pub name : String
  pub block_elems : ℕ
  pub block_bytes : ℕ

abbrev info : String → ℕ → ℕ → TypeInfo
info n e b = record { name = n; block_elems = e; block_bytes = b }

-- The designated initialisers; an index that is not listed has a null name.
pub gguf_types : List (ℕ × TypeInfo)
gguf_types =
    (0, info "f32" 1 4)
    ∷ (1, info "f16" 1 2)
    ∷ (2, info "q4_0" 32 18)
    ∷ (3, info "q4_1" 32 20)
    ∷ (6, info "q5_0" 32 22)
    ∷ (7, info "q5_1" 32 24)
    ∷ (8, info "q8_0" 32 34)
    ∷ (9, info "q8_1" 32 40)
    ∷ (10, info "q2_k" 256 84)
    ∷ (11, info "q3_k" 256 110)
    ∷ (12, info "q4_k" 256 144)
    ∷ (13, info "q5_k" 256 176)
    ∷ (14, info "q6_k" 256 210)
    ∷ (15, info "q8_k" 256 292)
    ∷ (16, info "iq2_xxs" 256 66)
    ∷ (17, info "iq2_xs" 256 74)
    ∷ (18, info "iq3_xxs" 256 98)
    ∷ (19, info "iq1_s" 256 110)
    ∷ (20, info "iq4_nl" 256 50)
    ∷ (21, info "iq3_s" 256 110)
    ∷ (22, info "iq2_s" 256 82)
    ∷ (23, info "iq4_xs" 256 136)
    ∷ (24, info "i8" 1 1)
    ∷ (25, info "i16" 1 2)
    ∷ (26, info "i32" 1 4)
    ∷ (27, info "i64" 1 8)
    ∷ (28, info "f64" 1 8)
    ∷ (29, info "iq1_m" 256 56)
    ∷ (30, info "bf16" 1 2)
    ∷ (39, info "mxfp4" 32 17)
    ∷ []

pub entry_at : ℕ → List (ℕ × TypeInfo) → Option TypeInfo
entry_at type [] = none
entry_at type ((i, t) ∷ rest) = if i == type then some t else entry_at type rest

pub tensor_type : ℕ → Option TypeInfo
tensor_type type = entry_at type gguf_types

pub type_name : ℕ → String
type_name type = elim (tensor_type type) [ none ↦ "unknown" | some t ↦ t.name ]

-- `q3_gguf_type_nbytes` behind its look-up; the sum and the product are `uint64_t`.
pub block_nbytes : TypeInfo → ℕ → Option ℕ
block_nbytes t elements =
    if t.block_elems == 0
    then none
    else let blocks = sub64 (add64 elements t.block_elems) 1 / t.block_elems in
      if ltb (u64_max / t.block_bytes) blocks then none else some (mul64 blocks t.block_bytes)

unfoldable pub type_nbytes : ℕ → ℕ → Option ℕ
unfolding tensor_type entry_at gguf_types block_nbytes
type_nbytes type elements = elim (tensor_type type) [
  | none ↦ none
  | some t ↦ block_nbytes t elements
]
