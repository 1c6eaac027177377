-- ===== src/Binder/Layers.antt =====
-- What `q3_weights_bind` of src/q3_binder.c binds: for each layer the tensors of its names, with the
-- geometry of the configuration.
use sera_c.Binder.Vectors.{IsVector-bind_vector, bind_vector_post}
use sera_c.Binder.Tensors.{IsMatrix, IsVector, IsMatrix-bind_matrix, bind_matrix_post}
use sera_c.Model.{ModelConfig, layer_name}
use sera_c.Gguf.File.{Gguf}
use sera_c.Binder.{
  bind_layer, LayerWeights, layer_loop, Weights, ResidentTensor, bind_vector, bind_matrix,
}
use sera_c.Common.{
  ℕ, List, ◌*◌, ◌≡◌, All, ok, ◌∷◌, ◌+◌, length, Post, Post-bind, codes, [], suc, refl, ap, zero,
}

pub record IsLayer (m : Gguf) (ctx : List ResidentTensor) (c : ModelConfig) (l : ℕ)
    (w : LayerWeights) : Type 0 where
  pub input_norm :
      IsVector m ctx (layer_name l (codes "attn_norm.weight")) c.hidden_size w.input_norm
  pub q_proj : IsMatrix m ctx (layer_name l (codes "attn_q.weight")) w.q_proj
  pub q_norm : IsVector m ctx (layer_name l (codes "attn_q_norm.weight")) c.head_dim w.q_norm
  pub k_proj : IsMatrix m ctx (layer_name l (codes "attn_k.weight")) w.k_proj
  pub k_norm : IsVector m ctx (layer_name l (codes "attn_k_norm.weight")) c.head_dim w.k_norm
  pub v_proj : IsMatrix m ctx (layer_name l (codes "attn_v.weight")) w.v_proj
  pub o_proj : IsMatrix m ctx (layer_name l (codes "attn_output.weight")) w.o_proj
  pub post_attn_norm :
      IsVector m ctx (layer_name l (codes "ffn_norm.weight")) c.hidden_size w.post_attn_norm
  pub gate_proj : IsMatrix m ctx (layer_name l (codes "ffn_gate.weight")) w.gate_proj
  pub up_proj : IsMatrix m ctx (layer_name l (codes "ffn_up.weight")) w.up_proj
  pub down_proj : IsMatrix m ctx (layer_name l (codes "ffn_down.weight")) w.down_proj

-- The shapes of a layer's weights; `q_width` and `kv_width` are the widths of the projections.
pub record Fits (c : ModelConfig) (q_width kv_width : ℕ) (w : LayerWeights) : Type 0 where
  pub q : (w.q_proj.k ≡ c.hidden_size) × (w.q_proj.n ≡ q_width)
  pub k : (w.k_proj.k ≡ c.hidden_size) × (w.k_proj.n ≡ kv_width)
  pub v : (w.v_proj.k ≡ c.hidden_size) × (w.v_proj.n ≡ kv_width)
  pub o : (w.o_proj.k ≡ q_width) × (w.o_proj.n ≡ c.hidden_size)
  pub gate : (w.gate_proj.k ≡ c.hidden_size) × (w.gate_proj.n ≡ c.intermediate_size)
  pub up : w.up_proj.n ≡ c.intermediate_size
  pub down : (w.down_proj.k ≡ c.intermediate_size) × (w.down_proj.n ≡ c.hidden_size)

-- `P` of each layer and its number, from `l` on.
abbrev pub EachLayer : (ℕ → LayerWeights → Type 0) → ℕ → List LayerWeights → Type 0
EachLayer P l [] = Unit {0}
EachLayer P l (w ∷ ws) = P l w × EachLayer P (l + 1) ws

pub record IsBinding (m : Gguf) (ctx : List ResidentTensor) (c : ModelConfig) (w : Weights)
    : Type 0 where
  pub embedding : IsMatrix m ctx (codes "token_embd.weight") w.embedding
  pub final_norm : IsVector m ctx (codes "output_norm.weight") c.hidden_size w.final_norm
  pub output : IsMatrix m ctx (codes "output.weight") w.output
  pub count : length w.layer ≡ c.num_layers
  pub layers : EachLayer (IsLayer m ctx c) 0 w.layer
  pub shapes :
      All (Fits c (c.num_attention_heads * c.head_dim) (c.num_kv_heads * c.head_dim)) w.layer
  pub rows : (w.embedding.k ≡ c.hidden_size) × (w.output.k ≡ c.hidden_size)

bind_layer-IsLayer :
    (m : Gguf) (ctx : List ResidentTensor) (c : ModelConfig) (l : ℕ)
    → Post (bind_layer m ctx c l) (IsLayer m ctx c l)
unfolding bind_layer
bind_layer-IsLayer m ctx c l =
    let L = IsLayer m ctx c l in
    Post-bind (IsVector m ctx (layer_name l (codes "attn_norm.weight")) c.hidden_size) L
      (bind_vector m ctx (layer_name l (codes "attn_norm.weight")) c.hidden_size) _
      (bind_vector_post m ctx (layer_name l (codes "attn_norm.weight")) c.hidden_size)
      λ input_norm e_input_norm.
        Post-bind (IsMatrix m ctx (layer_name l (codes "attn_q.weight"))) L
          (bind_matrix m ctx (layer_name l (codes "attn_q.weight"))) _
          (bind_matrix_post m ctx (layer_name l (codes "attn_q.weight")))
          λ q_proj e_q_proj.
            Post-bind (IsVector m ctx (layer_name l (codes "attn_q_norm.weight")) c.head_dim) L
              (bind_vector m ctx (layer_name l (codes "attn_q_norm.weight")) c.head_dim) _
              (bind_vector_post m ctx (layer_name l (codes "attn_q_norm.weight")) c.head_dim)
              λ q_norm e_q_norm.
                Post-bind (IsMatrix m ctx (layer_name l (codes "attn_k.weight"))) L
                  (bind_matrix m ctx (layer_name l (codes "attn_k.weight"))) _
                  (bind_matrix_post m ctx (layer_name l (codes "attn_k.weight")))
                  λ k_proj e_k_proj.
                    Post-bind
                      (IsVector m ctx (layer_name l (codes "attn_k_norm.weight")) c.head_dim) L
                      (bind_vector m ctx (layer_name l (codes "attn_k_norm.weight")) c.head_dim) _
                      (bind_vector_post m ctx (layer_name l (codes "attn_k_norm.weight"))
                        c.head_dim)
                      λ k_norm e_k_norm.
                        Post-bind (IsMatrix m ctx (layer_name l (codes "attn_v.weight"))) L
                          (bind_matrix m ctx (layer_name l (codes "attn_v.weight"))) _
                          (bind_matrix_post m ctx (layer_name l (codes "attn_v.weight")))
                          λ v_proj e_v_proj.
                            Post-bind (IsMatrix m ctx (layer_name l (codes "attn_output.weight"))) L
                              (bind_matrix m ctx (layer_name l (codes "attn_output.weight"))) _
                              (bind_matrix_post m ctx (layer_name l (codes "attn_output.weight")))
                              λ o_proj e_o_proj.
                                Post-bind
                                  (IsVector m ctx (layer_name l (codes "ffn_norm.weight"))
                                    c.hidden_size)
                                  L
                                  (bind_vector m ctx (layer_name l (codes "ffn_norm.weight"))
                                    c.hidden_size)
                                  _
                                  (bind_vector_post m ctx (layer_name l (codes "ffn_norm.weight"))
                                    c.hidden_size)
                                  λ post_attn_norm e_post_attn_norm.
                                    Post-bind
                                      (IsMatrix m ctx (layer_name l (codes "ffn_gate.weight"))) L
                                      (bind_matrix m ctx (layer_name l (codes "ffn_gate.weight"))) _
                                      (bind_matrix_post m ctx
                                        (layer_name l (codes "ffn_gate.weight")))
                                      λ gate_proj e_gate_proj.
                                        Post-bind
                                          (IsMatrix m ctx (layer_name l (codes "ffn_up.weight"))) L
                                          (bind_matrix m ctx (layer_name l (codes "ffn_up.weight")))
                                          _
                                          (bind_matrix_post m ctx
                                            (layer_name l (codes "ffn_up.weight")))
                                          λ up_proj e_up_proj.
                                            Post-bind
                                              (IsMatrix m ctx
                                                (layer_name l (codes "ffn_down.weight")))
                                              L
                                              (bind_matrix m ctx
                                                (layer_name l (codes "ffn_down.weight")))
                                              _
                                              (bind_matrix_post m ctx
                                                (layer_name l (codes "ffn_down.weight")))
                                              λ down_proj e_down_proj. record {
                                                input_norm = e_input_norm;
                                                q_proj = e_q_proj;
                                                q_norm = e_q_norm;
                                                k_proj = e_k_proj;
                                                k_norm = e_k_norm;
                                                v_proj = e_v_proj;
                                                o_proj = e_o_proj;
                                                post_attn_norm = e_post_attn_norm;
                                                gate_proj = e_gate_proj;
                                                up_proj = e_up_proj;
                                                down_proj = e_down_proj;
                                              }

IsLayer-bind_layer :
    (m : Gguf) (ctx : List ResidentTensor) (c : ModelConfig) (l : ℕ) (w : LayerWeights)
    → IsLayer m ctx c l w
    → bind_layer m ctx c l ≡ ok w
unfolding bind_layer
IsLayer-bind_layer m ctx c l w h =
    rw
      (
        IsVector-bind_vector m ctx (layer_name l (codes "attn_norm.weight")) c.hidden_size
            w.input_norm h.input_norm,
        IsMatrix-bind_matrix m ctx (layer_name l (codes "attn_q.weight")) w.q_proj h.q_proj,
        IsVector-bind_vector m ctx (layer_name l (codes "attn_q_norm.weight")) c.head_dim w.q_norm
            h.q_norm,
        IsMatrix-bind_matrix m ctx (layer_name l (codes "attn_k.weight")) w.k_proj h.k_proj,
        IsVector-bind_vector m ctx (layer_name l (codes "attn_k_norm.weight")) c.head_dim w.k_norm
            h.k_norm,
        IsMatrix-bind_matrix m ctx (layer_name l (codes "attn_v.weight")) w.v_proj h.v_proj,
        IsMatrix-bind_matrix m ctx (layer_name l (codes "attn_output.weight")) w.o_proj h.o_proj,
        IsVector-bind_vector m ctx (layer_name l (codes "ffn_norm.weight")) c.hidden_size
            w.post_attn_norm h.post_attn_norm,
        IsMatrix-bind_matrix m ctx (layer_name l (codes "ffn_gate.weight")) w.gate_proj h.gate_proj,
        IsMatrix-bind_matrix m ctx (layer_name l (codes "ffn_up.weight")) w.up_proj h.up_proj,
        IsMatrix-bind_matrix m ctx (layer_name l (codes "ffn_down.weight")) w.down_proj h.down_proj,
      )
      refl

pub layer_loop-EachLayer :
    (m : Gguf) (ctx : List ResidentTensor) (c : ModelConfig) (n l : ℕ)
    → Post (layer_loop m ctx c n l) (λ ws. (length ws ≡ n) × EachLayer (IsLayer m ctx c) l ws)
unfolding layer_loop
layer_loop-EachLayer m ctx c zero l = (refl, tt)
layer_loop-EachLayer m ctx c (suc n) l =
    let P = IsLayer m ctx c in
    let Q : List LayerWeights → Type 0 = λ ws. (length ws ≡ suc n) × EachLayer P l ws in
    Post-bind (P l) Q (bind_layer m ctx c l) _ (bind_layer-IsLayer m ctx c l) λ w p.
      Post-bind (λ ws. (length ws ≡ n) × EachLayer P (l + 1) ws) Q (layer_loop m ctx c n (l + 1)) _
        (layer_loop-EachLayer m ctx c n (l + 1)) λ ws q. (ap suc q.0, (p, q.1))

pub EachLayer-layer_loop :
    (m : Gguf) (ctx : List ResidentTensor) (c : ModelConfig) (l : ℕ) (ws : List LayerWeights)
    → EachLayer (IsLayer m ctx c) l ws
    → layer_loop m ctx c (length ws) l ≡ ok ws
unfolding layer_loop
EachLayer-layer_loop m ctx c l [] h = refl
EachLayer-layer_loop m ctx c l (w ∷ ws) (p, h) =
    rw (IsLayer-bind_layer m ctx c l w p, EachLayer-layer_loop m ctx c (l + 1) ws h) refl
