-- ===== src/Model/Tests.antt =====
-- A small model, and the theorems about src/q3_model.c at it.
use sera_c.Gguf.Cursor.{cursor_has, cursor_read, cursor_u32, cursor_u64, cursor_string}
use sera_c.Gguf.Access.{find_kv, get_string, get_u32, get_f32, out_of, find_in}
use sera_c.Gguf.Types.{value_string, value_uint32, value_float32}
use sera_c.Gguf.Cursor.Reads.{string_bytes}
use sera_c.Gguf.File.{Kv, Tensor, Gguf, cursor_at}
use sera_c.Model.Config.{Describes, config_from_gguf-Describes}
use Prim.Native.String.{String}
use sera_c.Model.{
  ModelConfig, config_validate, config_from_gguf, float_le_zero, float_le_one, architecture,
  find_matrix, find_tensor, read_config, find_named, field_u32, field_f32, layer_name, key, q_width,
  head_dim_of, epsilon_of, kv_width, or_zero, check_config,
}
use sera_c.Model.Validate.{IsSized, Matches, config_validate-Matches_iff}
use sera_c.Common.{
  ℕ, ◌%◌, Bytes, List, ◌∷◌, arith, codes, le_bytes, [], ◌≡◌, ◌+◌, false, length, ◌++◌, ◌*◌, refl,
  digits_within, bytes_eq, ok, c_text, le_value,
}

-- A 64-bit float as the same word: no entry here is one.
abbrev pub narrow : ℕ → ℕ
narrow v = v % 0x1_0000_0000

-- The bytes of the metadata: the architecture, and words of 4 bytes from position 13 on.
abbrev words : List ℕ → Bytes
words [] = []
words (v ∷ vs) = le_bytes 4 v ++ words vs

abbrev value_bytes : Bytes
value_bytes =
    string_bytes (codes "qwen3") ++ words (2 ∷ 4 ∷ 8 ∷ 2 ∷ 1 ∷ 0x3586_37bd ∷ 0x4974_2400 ∷ [])

abbrev word : String → ℕ → ℕ → Kv
word name type i = record { key = codes name; type = type; value_pos = 13 + 4 * i }

abbrev values : List Kv
values =
    (record { key = codes "general.architecture"; type = value_string; value_pos = 0 })
    ∷ word "qwen3.block_count" value_uint32 0
    ∷ word "qwen3.embedding_length" value_uint32 1
    ∷ word "qwen3.feed_forward_length" value_uint32 2
    ∷ word "qwen3.attention.head_count" value_uint32 3
    ∷ word "qwen3.attention.head_count_kv" value_uint32 4
    ∷ word "qwen3.attention.layer_norm_rms_epsilon" value_float32 5
    ∷ word "qwen3.rope.freq_base" value_float32 6
    ∷ []

abbrev pub matrix : String → ℕ → ℕ → Tensor
matrix name k n = record {
  name = codes name;
  name_buf = codes name;
  ndim = 2;
  dim = k ∷ n ∷ [];
  type = 12;
  rel_offset = 0;
  abs_offset = 0;
  elements = k * n;
  bytes = 144;
}

abbrev pub vector : String → ℕ → Tensor
vector name n = record {
  name = codes name;
  name_buf = codes name;
  ndim = 1;
  dim = n ∷ [];
  type = 0;
  rel_offset = 0;
  abs_offset = 0;
  elements = n;
  bytes = 4 * n;
}

abbrev shapes : List Tensor
shapes =
    matrix "token_embd.weight" 4 16
    ∷ matrix "blk.0.attn_k.weight" 4 2
    ∷ matrix "blk.0.ffn_gate.weight" 4 8
    ∷ vector "blk.0.attn_q_norm.weight" 2
    ∷ matrix "blk.1.attn_q.weight" 4 4
    ∷ matrix "output.weight" 4 16
    ∷ []

abbrev pub model_with : List Tensor → Gguf
model_with ts = record {
  map = value_bytes;
  size = 41;
  version = 3;
  n_kv = 8;
  n_tensors = length ts;
  alignment = 32;
  tensor_data_pos = 64;
  max_tensor_bytes = 144;
  kv = values;
  tensors = ts;
}

-- The head dimension is the even share of the hidden size.
abbrev pub config : ModelConfig
config = record {
  hidden_size = 4;
  intermediate_size = 8;
  num_layers = 2;
  num_attention_heads = 2;
  num_kv_heads = 1;
  head_dim = 2;
  vocab_size = 0;
  rms_norm_eps = 0x3586_37bd;
  rope_theta = 0x4974_2400;
  max_position_embeddings = 0;
}

config_of_model : config_from_gguf narrow (model_with shapes) ≡ ok config
unfolding config_from_gguf architecture read_config field_u32 field_f32 key head_dim_of epsilon_of
    or_zero check_config float_le_zero float_le_one c_text find_kv get_string get_u32 get_f32 out_of
    cursor_at cursor_has cursor_read cursor_u32 cursor_u64 cursor_string bytes_eq le_value le_bytes
    find_in
config_of_model = refl

-- A NaN passes both checks of a float.
not_a_number : (float_le_zero 0x7fc0_0000 ≡ false) × (float_le_one 0x7fc0_0000 ≡ false)
unfolding float_le_zero float_le_one
not_a_number = (refl, refl)

config_from_gguf-Describes_example : Describes narrow (model_with shapes) config
config_from_gguf-Describes_example =
    (config_from_gguf-Describes narrow (model_with shapes) config).0 config_of_model

config-IsSized : IsSized config
config-IsSized = record {
  layers_pos = omega arith;
  layers_max = omega arith;
  heads_max = omega arith;
  kv_heads_max = omega arith;
  head_dim_max = omega arith;
}

shapes_validated : config_validate (model_with shapes) config ≡ ok tt
unfolding config_validate find_matrix find_tensor find_named layer_name digits_within q_width
    kv_width bytes_eq
shapes_validated = refl

config_validate-Matches_iff_example : Matches (model_with shapes) config
config_validate-Matches_iff_example =
    (config_validate-Matches_iff (model_with shapes) config config-IsSized).0 shapes_validated
