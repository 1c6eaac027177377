-- ===== src/Binder/Whole.antt =====
-- What `q3_weights_bind` of src/q3_binder.c binds, as a whole.
use sera_c.Binder.Vectors.{IsVector-bind_vector, bind_vector_post}
use sera_c.Binder.Shapes.{IsNarrow, check_weights-shapes, shapes-check_weights}
use sera_c.Binder.Tensors.{IsMatrix, IsMatrix-bind_matrix, IsVector, bind_matrix_post}
use sera_c.Binder.Layers.{EachLayer, IsLayer, IsBinding, EachLayer-layer_loop, layer_loop-EachLayer}
use sera_c.Model.{ModelConfig}
use sera_c.Binder.{
  bind_all, weights_bind, ResidentTensor, Weights, LayerWeights, layer_struct_bytes, bind_matrix,
  layer_loop, bind_vector, check_weights,
}
use sera_c.Gguf.File.{Gguf}
use sera_c.Common.{
  ℕ, Bool, List, ◌≡◌, Post, Post-bind, length, ok, codes, true, ◌↔◌, subst, refl, bind_ok,
  Post-eq-ok,
}

pub layer_loop-count :
    (m : Gguf) (ctx : List ResidentTensor) (c : ModelConfig) (n : ℕ) (ws : List LayerWeights)
    → length ws ≡ n
    → EachLayer (IsLayer m ctx c) 0 ws
    → layer_loop m ctx c n 0 ≡ ok ws
layer_loop-count m ctx c n ws count h =
    subst (λ (k : ℕ). layer_loop m ctx c k 0 ≡ ok ws) count (EachLayer-layer_loop m ctx c 0 ws h)

pub record Bound (m : Gguf) (ctx : List ResidentTensor) (c : ModelConfig) (w : Weights)
    : Type 0 where
  embedding : IsMatrix m ctx (codes "token_embd.weight") w.embedding
  final_norm : IsVector m ctx (codes "output_norm.weight") c.hidden_size w.final_norm
  output : IsMatrix m ctx (codes "output.weight") w.output
  count : length w.layer ≡ c.num_layers
  layers : EachLayer (IsLayer m ctx c) 0 w.layer

pub bind_all-Bound :
    (m : Gguf) (ctx : List ResidentTensor) (c : ModelConfig)
    → Post (bind_all m ctx c) (Bound m ctx c)
unfolding bind_all
bind_all-Bound m ctx c =
    let B = Bound m ctx c in
    Post-bind (IsMatrix m ctx (codes "token_embd.weight")) B
      (bind_matrix m ctx (codes "token_embd.weight")) _
      (bind_matrix_post m ctx (codes "token_embd.weight"))
      λ embedding e0.
        Post-bind (IsVector m ctx (codes "output_norm.weight") c.hidden_size) B
          (bind_vector m ctx (codes "output_norm.weight") c.hidden_size) _
          (bind_vector_post m ctx (codes "output_norm.weight") c.hidden_size)
          λ final_norm e1.
            Post-bind (IsMatrix m ctx (codes "output.weight")) B
              (bind_matrix m ctx (codes "output.weight")) _
              (bind_matrix_post m ctx (codes "output.weight"))
              λ output e2.
                Post-bind (λ ws. (length ws ≡ c.num_layers) × EachLayer (IsLayer m ctx c) 0 ws) B
                  (layer_loop m ctx c c.num_layers 0) _
                  (layer_loop-EachLayer m ctx c c.num_layers 0)
                  λ ws q. record {
                    embedding = e0;
                    final_norm = e1;
                    output = e2;
                    count = q.0;
                    layers = q.1;
                  }

pub Bound-bind_all :
    (m : Gguf) (ctx : List ResidentTensor) (c : ModelConfig) (w : Weights)
    → Bound m ctx c w
    → bind_all m ctx c ≡ ok w
unfolding bind_all
Bound-bind_all m ctx c w b =
    rw
      (
        IsMatrix-bind_matrix m ctx (codes "token_embd.weight") w.embedding b.embedding,
        IsVector-bind_vector m ctx (codes "output_norm.weight") c.hidden_size w.final_norm
            b.final_norm,
        IsMatrix-bind_matrix m ctx (codes "output.weight") w.output b.output,
        layer_loop-count m ctx c c.num_layers w.layer b.count b.layers,
      )
      refl

-- Where heads times head dimension and KV heads times head dimension are 32-bit words and the
-- allocation of the layers succeeds, `q3_weights_bind` succeeds with exactly the weights that bind the
-- model: one entry for each layer of the configuration, in which each descriptor is that of the first
-- tensor of its name (`blk.<layer>.<field>`), resident with a device pointer; the matrices Q4_K or
-- Q6_K with two dimensions that are positive 32-bit words, the norms F32 of the hidden size or the
-- head dimension; the projections, the gate and the embedding with the shapes of the configuration
-- (of the up projection its number of rows only).
pub weights_bind-IsBinding :
    (calloc : ℕ → ℕ → Bool) (m : Gguf) (ctx : List ResidentTensor) (c : ModelConfig) (w : Weights)
    → IsNarrow c
    → calloc c.num_layers layer_struct_bytes ≡ true
    → (weights_bind calloc m ctx c ≡ ok w) ↔ IsBinding m ctx c w
unfolding weights_bind
weights_bind-IsBinding calloc m ctx c w n room = (
  λ h.
      let h0 = rw room at h in
      let (v, e0, h1) = bind_ok (bind_all m ctx c) (λ v. check_weights c v) h0 in
      let b = Post-eq-ok (Bound m ctx c) (bind_all m ctx c) (bind_all-Bound m ctx c) e0 in
      let s = check_weights-shapes c v w n h1 in
      subst (IsBinding m ctx c) s.0 (record {
        embedding = b.embedding;
        final_norm = b.final_norm;
        output = b.output;
        count = b.count;
        layers = b.layers;
        shapes = s.1;
        rows = (s.2, s.3);
      }),
  λ b.
      let bound = Bound-bind_all m ctx c w (record {
        embedding = b.embedding;
        final_norm = b.final_norm;
        output = b.output;
        count = b.count;
        layers = b.layers;
      }) in
      rw (room, bound, shapes-check_weights c w n b.shapes b.rows.0 b.rows.1) refl,
)
