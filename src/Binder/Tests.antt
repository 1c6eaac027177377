-- ===== src/Binder/Tests.antt =====
-- A small model and its resident tensors, and the theorems about src/q3_binder.c at them.
use sera_c.Binder.Whole.{weights_bind-IsBinding}
use sera_c.Binder.Shapes.{IsNarrow}
use sera_c.Gguf.File.{Tensor}
use sera_c.Model.Tests.{model_with, config, matrix, vector}
use sera_c.Binder.Layers.{IsBinding}
use Prim.Native.String.{String}
use sera_c.Model.{ModelConfig, layer_name}
use sera_c.Binder.{
  LayerWeights, weights_bind, Weights, ExecTensor, ResidentTensor, bind_all, layer_loop,
  layer_geometry, bind_layer, bind_matrix, bind_vector, matrix_of, vector_of, resident_at,
  loader_tensor, find_index, index_from, qtype_is_matmul, qtype_is_f32, check_weights, check_layers,
  layer_fits,
}
use sera_c.Common.{
  ℕ, Bool, true, List, ◌∷◌, ◌≡◌, arith, ◌+◌, codes, [], refl, ◌*◌, false, digits_within, bytes_eq,
  err, ok,
}

abbrev one_layer : ModelConfig
one_layer = record config { num_layers = 1 }

abbrev inventory : List Tensor
inventory =
    matrix "token_embd.weight" 4 16
    ∷ vector "output_norm.weight" 4
    ∷ matrix "output.weight" 4 16
    ∷ vector "blk.0.attn_norm.weight" 4
    ∷ matrix "blk.0.attn_q.weight" 4 4
    ∷ vector "blk.0.attn_q_norm.weight" 2
    ∷ matrix "blk.0.attn_k.weight" 4 2
    ∷ vector "blk.0.attn_k_norm.weight" 2
    ∷ matrix "blk.0.attn_v.weight" 4 2
    ∷ matrix "blk.0.attn_output.weight" 4 4
    ∷ vector "blk.0.ffn_norm.weight" 4
    ∷ matrix "blk.0.ffn_gate.weight" 4 8
    ∷ matrix "blk.0.ffn_up.weight" 4 8
    ∷ matrix "blk.0.ffn_down.weight" 8 4
    ∷ []

-- Every tensor is resident at an address of its own.
abbrev slots : ℕ → List Tensor → List ResidentTensor
slots i [] = []
slots i (t ∷ ts) = (record { ptr = 4096 + 256 * i; resident = true }) ∷ slots (i + 1) ts

abbrev resident : List ResidentTensor
resident = slots 0 inventory

abbrev matrix_slot : String → ℕ → ℕ → ℕ → ExecTensor
matrix_slot name i k n = record {
  index = i;
  qtype = 12;
  name = codes name;
  device = 4096 + 256 * i;
  k = k;
  n = n;
  elements = k * n;
  is_1d = false;
  resident = true;
}

abbrev vector_slot : String → ℕ → ℕ → ExecTensor
vector_slot name i n = record {
  index = i;
  qtype = 0;
  name = codes name;
  device = 4096 + 256 * i;
  k = 0;
  n = 0;
  elements = n;
  is_1d = true;
  resident = true;
}

abbrev layer : LayerWeights
layer = record {
  input_norm = vector_slot "blk.0.attn_norm.weight" 3 4;
  q_proj = matrix_slot "blk.0.attn_q.weight" 4 4 4;
  q_norm = vector_slot "blk.0.attn_q_norm.weight" 5 2;
  k_proj = matrix_slot "blk.0.attn_k.weight" 6 4 2;
  k_norm = vector_slot "blk.0.attn_k_norm.weight" 7 2;
  v_proj = matrix_slot "blk.0.attn_v.weight" 8 4 2;
  o_proj = matrix_slot "blk.0.attn_output.weight" 9 4 4;
  post_attn_norm = vector_slot "blk.0.ffn_norm.weight" 10 4;
  gate_proj = matrix_slot "blk.0.ffn_gate.weight" 11 4 8;
  up_proj = matrix_slot "blk.0.ffn_up.weight" 12 4 8;
  down_proj = matrix_slot "blk.0.ffn_down.weight" 13 8 4;
}

abbrev weights : Weights
weights = record {
  embedding = matrix_slot "token_embd.weight" 0 4 16;
  layer = layer ∷ [];
  final_norm = vector_slot "output_norm.weight" 1 4;
  output = matrix_slot "output.weight" 2 4 16;
}

abbrev room : ℕ → ℕ → Bool
room n size = true

bound_model : weights_bind room (model_with inventory) resident one_layer ≡ ok weights
unfolding weights_bind bind_all layer_loop bind_layer bind_matrix bind_vector matrix_of vector_of
    resident_at loader_tensor find_index index_from qtype_is_matmul qtype_is_f32 layer_name
    digits_within check_weights check_layers layer_fits bytes_eq
bound_model = refl

one_layer-IsNarrow : IsNarrow one_layer
one_layer-IsNarrow = record { q_width_max = omega arith; kv_width_max = omega arith }

weights_bind-IsBinding_example : IsBinding (model_with inventory) resident one_layer weights
weights_bind-IsBinding_example =
    (weights_bind-IsBinding room (model_with inventory) resident one_layer weights
        one_layer-IsNarrow refl).0
      bound_model

-- An intermediate size that the gate does not have.
abbrev wider : ModelConfig
wider = record one_layer { intermediate_size = 9 }

refused_model : weights_bind room (model_with inventory) resident wider ≡ err (layer_geometry 0)
unfolding weights_bind bind_all layer_loop bind_layer bind_matrix bind_vector matrix_of vector_of
    resident_at loader_tensor find_index index_from qtype_is_matmul qtype_is_f32 layer_name
    digits_within check_weights check_layers layer_fits bytes_eq
refused_model = refl
