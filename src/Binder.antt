-- ===== src/Binder.antt =====
-- The weight binder of src/q3_binder.c: every tensor that the forward pass needs, found by its name
-- in the tensor table and in the table of resident tensors (q3_loader_tensor of
-- cuda/q3_model_loader_cuda.cu). A pointer is its address, 0 for none.
pub mod Found
pub mod Tensors
pub mod Vectors
pub mod Layers
pub mod Shapes
pub mod Whole
mod Tests
use sera_c.Gguf.File.{Gguf, Tensor}
use sera_c.Model.{ModelConfig, layer_name, dim_of}
use sera_c.Common.{
  ℕ, ◌*◌, Bytes, List, Bool, ◌%◌, Result, ◌==◌, Option, ◌||◌, ◌&&◌, ok, if◌then◌else◌, codes, false,
  ◌>>◌, none, need, leb, ◌∷◌, [], require, ◌>>=◌, err, not, true, ◌+◌, length, suc, get_elem?, zero,
  bytes_eq, ltb, some, u32_max,
}

-- `q3_resident_tensor`, without the fields that the binder does not read.
pub record ResidentTensor : Type 0 where
  pub ptr : ℕ
  pub resident : Bool

-- `q3_loader_tensor`: a context is its table.
unfoldable pub loader_tensor : List ResidentTensor → ℕ → Option ResidentTensor
loader_tensor ctx index = if leb (length ctx) index then none else get_elem? ctx index

pub record ExecTensor : Type 0 where
  pub index : ℕ
  pub qtype : ℕ
  pub name : Bytes
  pub device : ℕ
  pub k : ℕ
  pub n : ℕ
  pub elements : ℕ
  pub is_1d : Bool
  pub resident : Bool

pub record LayerWeights : Type 0 where
  pub input_norm : ExecTensor
  pub q_proj : ExecTensor
  pub q_norm : ExecTensor
  pub k_proj : ExecTensor
  pub k_norm : ExecTensor
  pub v_proj : ExecTensor
  pub o_proj : ExecTensor
  pub post_attn_norm : ExecTensor
  pub gate_proj : ExecTensor
  pub up_proj : ExecTensor
  pub down_proj : ExecTensor

pub record Weights : Type 0 where
  pub embedding : ExecTensor
  pub layer : List LayerWeights
  pub final_norm : ExecTensor
  pub output : ExecTensor

-- `sizeof(q3_layer_weights)`: eleven tensors of 40 bytes.
abbrev pub layer_struct_bytes : ℕ
layer_struct_bytes = 440

pub data BindError : Type 0 where
  tensor_missing : Bytes → BindError
  not_resident : Bytes → BindError
  not_2d : Bytes → BindError
  unsupported_qtype : Bytes → ℕ → BindError
  degenerate : Bytes → BindError
  not_f32 : Bytes → ℕ → BindError
  wrong_length : Bytes → BindError
  no_layer_array : BindError
  layer_geometry : ℕ → BindError
  outer_geometry : BindError

unfoldable pub qtype_is_matmul : ℕ → Bool
qtype_is_matmul qtype = qtype == 12 || qtype == 14

unfoldable pub qtype_is_f32 : ℕ → Bool
qtype_is_f32 qtype = qtype == 0

-- The index of the first tensor of that name, and the tensor; `none` is `SIZE_MAX`.
unfoldable pub index_from : List Tensor → Bytes → ℕ → Option (ℕ × Tensor)
index_from [] name i = none
index_from (t ∷ rest) name i =
    let later = index_from rest name (i + 1) in if bytes_eq t.name name then some (i, t) else later

unfoldable pub find_index : Gguf → Bytes → Option (ℕ × Tensor)
find_index m name = index_from m.tensors name 0

-- The resident slot of a tensor, with its pointer.
unfoldable pub resident_at : List ResidentTensor → ℕ → Bytes → Result BindError ResidentTensor
resident_at ctx index name = need (loader_tensor ctx index) (not_resident name) >>= λ res.
    require (res.resident && not (res.ptr == 0)) (not_resident name) >> ok res

-- The checks of a 2-D weight, and its descriptor.
unfoldable pub matrix_of : Bytes → ℕ → Tensor → ResidentTensor → Result BindError ExecTensor
matrix_of name index t res =
    require (t.ndim == 2) (not_2d name)
    >> (require (qtype_is_matmul t.type) (unsupported_qtype name t.type)
        >> (require
              (not (
                dim_of t 0 == 0
                || dim_of t 1 == 0
                || ltb u32_max (dim_of t 0)
                || ltb u32_max (dim_of t 1)))
              (degenerate name)
            >> ok (record {
              index = index % 0x1_0000_0000;
              qtype = t.type;
              name = t.name_buf;
              device = res.ptr;
              k = dim_of t 0 % 0x1_0000_0000;
              n = dim_of t 1 % 0x1_0000_0000;
              elements = t.elements % 0x1_0000_0000;
              is_1d = false;
              resident = true;
            })))

unfoldable pub bind_matrix : Gguf → List ResidentTensor → Bytes → Result BindError ExecTensor
bind_matrix m ctx name = need (find_index m name) (tensor_missing name) >>= λ found.
    (resident_at ctx found.0 name >>= λ res. matrix_of name found.0 found.1 res)

-- The checks of a 1-D norm, and its descriptor.
unfoldable pub vector_of : Bytes → ℕ → ℕ → Tensor → ResidentTensor → Result BindError ExecTensor
vector_of name expected index t res =
    require (qtype_is_f32 t.type) (not_f32 name t.type)
    >> (require (t.ndim == 1 && dim_of t 0 == expected) (wrong_length name)
        >> ok (record {
          index = index % 0x1_0000_0000;
          qtype = t.type;
          name = t.name_buf;
          device = res.ptr;
          k = 0;
          n = 0;
          elements = dim_of t 0 % 0x1_0000_0000;
          is_1d = true;
          resident = true;
        }))

unfoldable pub bind_vector : Gguf → List ResidentTensor → Bytes → ℕ → Result BindError ExecTensor
bind_vector m ctx name expected = need (find_index m name) (tensor_missing name) >>= λ found.
    (resident_at ctx found.0 name >>= λ res. vector_of name expected found.0 found.1 res)

-- One round of the loop over the layers.
unfoldable pub bind_layer :
    Gguf → List ResidentTensor → ModelConfig → ℕ → Result BindError LayerWeights
bind_layer m ctx c l =
    bind_vector m ctx (layer_name l (codes "attn_norm.weight")) c.hidden_size >>= λ input_norm.
    bind_matrix m ctx (layer_name l (codes "attn_q.weight")) >>= λ q_proj.
    bind_vector m ctx (layer_name l (codes "attn_q_norm.weight")) c.head_dim >>= λ q_norm.
    bind_matrix m ctx (layer_name l (codes "attn_k.weight")) >>= λ k_proj.
    bind_vector m ctx (layer_name l (codes "attn_k_norm.weight")) c.head_dim >>= λ k_norm.
    bind_matrix m ctx (layer_name l (codes "attn_v.weight")) >>= λ v_proj.
    bind_matrix m ctx (layer_name l (codes "attn_output.weight")) >>= λ o_proj.
    bind_vector m ctx (layer_name l (codes "ffn_norm.weight")) c.hidden_size >>= λ post_attn_norm.
    bind_matrix m ctx (layer_name l (codes "ffn_gate.weight")) >>= λ gate_proj.
    bind_matrix m ctx (layer_name l (codes "ffn_up.weight")) >>= λ up_proj.
    bind_matrix m ctx (layer_name l (codes "ffn_down.weight")) >>= λ down_proj. ok (record {
      input_norm = input_norm;
      q_proj = q_proj;
      q_norm = q_norm;
      k_proj = k_proj;
      k_norm = k_norm;
      v_proj = v_proj;
      o_proj = o_proj;
      post_attn_norm = post_attn_norm;
      gate_proj = gate_proj;
      up_proj = up_proj;
      down_proj = down_proj;
    })

-- `n` rounds from layer `l` on.
unfoldable pub layer_loop :
    Gguf → List ResidentTensor → ModelConfig → ℕ → ℕ → Result BindError (List LayerWeights)
layer_loop m ctx c zero l = ok []
layer_loop m ctx c (suc n) l =
    bind_layer m ctx c l >>= λ w. (layer_loop m ctx c n (l + 1) >>= λ ws. ok (w ∷ ws))

-- Everything that a `goto fail` may leave.
unfoldable pub bind_all : Gguf → List ResidentTensor → ModelConfig → Result BindError Weights
bind_all m ctx c = bind_matrix m ctx (codes "token_embd.weight") >>= λ embedding.
    bind_vector m ctx (codes "output_norm.weight") c.hidden_size >>= λ final_norm.
    bind_matrix m ctx (codes "output.weight") >>= λ output.
    layer_loop m ctx c c.num_layers 0 >>= λ layers.
    ok (record { embedding = embedding; layer = layers; final_norm = final_norm; output = output })

-- The products of `uint32_t` wrap.
abbrev pub mul32 : ℕ → ℕ → ℕ
mul32 a b = a * b % 0x1_0000_0000

unfoldable pub layer_fits : ModelConfig → LayerWeights → Bool
layer_fits c w =
    let q_width = mul32 c.num_attention_heads c.head_dim in
    let kv_width = mul32 c.num_kv_heads c.head_dim in
    w.q_proj.k == c.hidden_size
    && w.q_proj.n == q_width
    && w.k_proj.k == c.hidden_size
    && w.k_proj.n == kv_width
    && w.v_proj.k == c.hidden_size
    && w.v_proj.n == kv_width
    && w.o_proj.k == q_width
    && w.o_proj.n == c.hidden_size
    && w.gate_proj.k == c.hidden_size
    && w.gate_proj.n == c.intermediate_size
    && w.up_proj.n == c.intermediate_size
    && w.down_proj.k == c.intermediate_size
    && w.down_proj.n == c.hidden_size

unfoldable pub check_layers : ModelConfig → ℕ → List LayerWeights → Result BindError (Unit {0})
check_layers c l [] = ok tt
check_layers c l (w ∷ ws) = require (layer_fits c w) (layer_geometry l) >> check_layers c (l + 1) ws

unfoldable pub check_weights : ModelConfig → Weights → Result BindError Weights
check_weights c w =
    check_layers c 0 w.layer
    >> (require (w.embedding.k == c.hidden_size && w.output.k == c.hidden_size) outer_geometry
        >> ok w)

-- `q3_weights_bind`. What a failure frees is not modelled.
unfoldable pub weights_bind :
    (ℕ → ℕ → Bool) → Gguf → List ResidentTensor → ModelConfig → Result BindError Weights
weights_bind calloc m ctx c =
    require (calloc c.num_layers layer_struct_bytes) no_layer_array
    >> (bind_all m ctx c >>= λ w. check_weights c w)
