-- ===== src/Model.antt =====
-- The model configuration of src/q3_model.c: the geometry of a Qwen3 model out of the metadata of
-- its container, and its check against the tensor table. A float is its bit pattern.
pub mod Config
pub mod Validate
pub mod Tests
use sera_c.Gguf.Access.{get_f32, get_string, get_u32}
use sera_c.Gguf.File.{Gguf, Tensor}
use sera_c.Common.{
  ℕ, Bool, Option, Result, List, mul64, Bytes, codes, if◌then◌else◌, c_text, ◌%◌, need, get_or,
  some, ◌>>=◌, require, none, leb, not, ◌++◌, ◌∷◌, ◌==◌, ok, ◌>>◌, length, bytes_eq, ltb, ◌&&◌,
  ◌||◌, decimal, [], ◌+◌, err, ◌/◌, u32_max,
}

pub record ModelConfig : Type 0 where
  pub hidden_size : ℕ
  pub intermediate_size : ℕ
  pub num_layers : ℕ
  pub num_attention_heads : ℕ
  pub num_kv_heads : ℕ
  pub head_dim : ℕ
  pub vocab_size : ℕ
  pub rms_norm_eps : ℕ
  pub rope_theta : ℕ
  pub max_position_embeddings : ℕ

pub data ModelError : Type 0 where
  missing_architecture : ModelError
  not_qwen3 : Bytes → ModelError
  missing_key : Bytes → ModelError
  no_key_length : ModelError
  no_epsilon : ModelError
  no_theta : ModelError
  degenerate_geometry : ModelError
  heads_not_multiple : ModelError
  epsilon_not_positive : ModelError
  theta_implausible : ModelError
  no_embedding : ModelError
  embedding_row_length : ModelError
  no_attn_q : ModelError
  attn_q_geometry : ModelError
  no_attn_k : ModelError
  attn_k_geometry : ModelError
  no_ffn_gate : ModelError
  ffn_geometry : ModelError
  q_norm_geometry : ModelError
  output_geometry : ModelError
  q_width_implausible : ModelError

-- `x <= 0.0f` and `x <= 1.0f` on the bit pattern of `x`: false on a NaN, true on every other
-- negative number.
unfoldable pub float_le_zero : ℕ → Bool
float_le_zero bits =
    let magnitude = bits % 0x8000_0000 in
    leb magnitude 0x7f80_0000 && (leb 0x8000_0000 bits || magnitude == 0)

unfoldable pub float_le_one : ℕ → Bool
float_le_one bits =
    let magnitude = bits % 0x8000_0000 in
    leb magnitude 0x7f80_0000 && (leb 0x8000_0000 bits || leb magnitude 0x3f80_0000)

-- `key` with a buffer of 128 bytes.
unfoldable pub key : Bytes → Bytes → Option Bytes
key arch field =
    let text = c_text arch ++ (codes "." ++ field) in
    if ltb (length text) 128 then some text else none

-- A metadata value under `<arch>.<field>`.
unfoldable pub field_u32 : Gguf → Bytes → Bytes → Option ℕ
field_u32 m arch field = elim (key arch field) [ none ↦ none | some k ↦ get_u32 m k ]

unfoldable pub field_f32 : (ℕ → ℕ) → Gguf → Bytes → Bytes → Option ℕ
field_f32 narrow m arch field = elim (key arch field) [ none ↦ none | some k ↦ get_f32 narrow m k ]

abbrev get_field : Gguf → Bytes → Bytes → Result ModelError ℕ
get_field m arch field = need (field_u32 m arch field) (missing_key field)

-- `head_dim` where its key is missing.
abbrev even_head_dim : ℕ → ℕ → Result ModelError ℕ
even_head_dim hidden heads =
    if heads == 0 || not (hidden % heads == 0) then err no_key_length else ok (hidden / heads)

unfoldable pub head_dim_of : Option ℕ → ℕ → ℕ → Result ModelError ℕ
head_dim_of none hidden heads = even_head_dim hidden heads
head_dim_of (some n) hidden heads = ok n

-- The epsilon stays 0 where its key does not fit the buffer.
unfoldable pub epsilon_of : (ℕ → ℕ) → Gguf → Bytes → Result ModelError ℕ
epsilon_of narrow m arch = elim (key arch (codes "attention.layer_norm_rms_epsilon")) [
  | none ↦ ok 0
  | some k ↦ need (get_f32 narrow m k) no_epsilon
]

unfoldable pub or_zero : Option ℕ → ℕ
or_zero none = 0
or_zero (some n) = n

-- The checks at the end of `q3_model_config_from_gguf`.
unfoldable pub check_config : ModelConfig → Result ModelError ModelConfig
check_config c =
    require
      (not (
        c.hidden_size == 0
        || c.num_layers == 0
        || c.num_attention_heads == 0
        || c.num_kv_heads == 0
        || c.head_dim == 0))
      degenerate_geometry
    >> (require (c.num_attention_heads % c.num_kv_heads == 0) heads_not_multiple
        >> (require (not (float_le_zero c.rms_norm_eps)) epsilon_not_positive
            >> (require (not (float_le_one c.rope_theta)) theta_implausible >> ok c)))

-- The architecture string: there, and neither empty nor too long for its buffer.
unfoldable pub architecture : Gguf → Result ModelError Bytes
architecture m = need (get_string m (codes "general.architecture")) missing_architecture >>= λ arch.
    require (not (length arch == 0 || leb 32 (length arch))) missing_architecture
    >> (require (bytes_eq (c_text arch) (codes "qwen3")) (not_qwen3 (c_text arch)) >> ok arch)

unfoldable pub read_config : (ℕ → ℕ) → Gguf → Bytes → Result ModelError ModelConfig
read_config narrow m arch = get_field m arch (codes "block_count") >>= λ layers.
    get_field m arch (codes "embedding_length") >>= λ hidden.
    get_field m arch (codes "feed_forward_length") >>= λ intermediate.
    get_field m arch (codes "attention.head_count") >>= λ heads.
    get_field m arch (codes "attention.head_count_kv") >>= λ kv_heads.
    head_dim_of (field_u32 m arch (codes "attention.key_length")) hidden heads >>= λ head_dim.
    epsilon_of narrow m arch >>= λ epsilon.
    need (field_f32 narrow m arch (codes "rope.freq_base")) no_theta >>= λ theta. ok (record {
      hidden_size = hidden;
      intermediate_size = intermediate;
      num_layers = layers;
      num_attention_heads = heads;
      num_kv_heads = kv_heads;
      head_dim = head_dim;
      vocab_size = 0;
      rms_norm_eps = epsilon;
      rope_theta = theta;
      max_position_embeddings = or_zero (field_u32 m arch (codes "context_length"));
    })

-- `q3_model_config_from_gguf`.
unfoldable pub config_from_gguf : (ℕ → ℕ) → Gguf → Result ModelError ModelConfig
config_from_gguf narrow m =
    architecture m >>= λ arch. (read_config narrow m arch >>= λ c. check_config c)

unfoldable pub find_named : List Tensor → Bytes → Option Tensor
find_named [] name = none
find_named (t ∷ rest) name = if bytes_eq t.name name then some t else find_named rest name

unfoldable pub find_tensor : Gguf → Bytes → Option Tensor
find_tensor m name = find_named m.tensors name

-- `dim[i]`; the dimensions that the file does not give are 0.
abbrev pub dim_of : Tensor → ℕ → ℕ
dim_of t i = get_or t.dim i 0

-- `blk.%u.<field>`.
unfoldable pub layer_name : ℕ → Bytes → Bytes
layer_name l field = codes "blk." ++ (decimal l ++ (codes "." ++ field))

-- A tensor of two dimensions at least.
unfoldable pub find_matrix : Gguf → Bytes → ModelError → Result ModelError Tensor
find_matrix m name e = need (find_tensor m name) e >>= λ t. (require (leb 2 t.ndim) e >> ok t)

unfoldable pub q_width : ModelConfig → ℕ
q_width c = mul64 c.num_attention_heads c.head_dim

unfoldable pub kv_width : ModelConfig → ℕ
kv_width c = mul64 c.num_kv_heads c.head_dim

-- `q3_model_config_validate`; `num_layers - 1` is a `uint32_t`.
unfoldable pub config_validate : Gguf → ModelConfig → Result ModelError (Unit {0})
config_validate m c = find_matrix m (codes "token_embd.weight") no_embedding >>= λ emb.
    require (dim_of emb 0 == c.hidden_size) embedding_row_length
    >> (find_matrix m
          (layer_name ((c.num_layers + u32_max) % 0x1_0000_0000) (codes "attn_q.weight")) no_attn_q
        >>= λ q.
            require (dim_of q 0 == c.hidden_size && dim_of q 1 == q_width c) attn_q_geometry
            >> (find_matrix m (codes "blk.0.attn_k.weight") no_attn_k >>= λ k.
                require (dim_of k 1 == kv_width c) attn_k_geometry
                >> (find_matrix m (codes "blk.0.ffn_gate.weight") no_ffn_gate >>= λ g.
                    require (dim_of g 0 == c.hidden_size && dim_of g 1 == c.intermediate_size)
                      ffn_geometry
                    >> (need (find_tensor m (codes "blk.0.attn_q_norm.weight")) q_norm_geometry
                        >>= λ n.
                            require (n.ndim == 1 && dim_of n 0 == c.head_dim) q_norm_geometry
                            >> (find_matrix m (codes "output.weight") output_geometry >>= λ o.
                                require (dim_of o 1 == dim_of emb 1) output_geometry
                                >> require (leb (q_width c) (dim_of emb 1)) q_width_implausible)))))
