-- ===== src/Binder/Shapes.antt =====
-- The checks of the geometry at the end of `q3_weights_bind`, src/q3_binder.c.
use sera_c.Binder.Layers.{Fits}
use sera_c.Model.{ModelConfig}
use sera_c.Binder.{
  check_layers, check_weights, layer_fits, Weights, LayerWeights, mul32, layer_geometry,
  outer_geometry,
}
use sera_c.Common.{
  ℕ, List, ◌*◌, All, ◌≤◌, ◌≡◌, u32_max, true, ok, ◌↔◌, ◌∷◌, arith, require-true, bind_ok, ◌==◌, ◌+◌,
  ◌&&◌, [], ok_injective, refl,
}

pub layer_fits-Fits :
    (c : ModelConfig) (w : LayerWeights)
    → (layer_fits c w ≡ true)
      ↔ Fits c (mul32 c.num_attention_heads c.head_dim) (mul32 c.num_kv_heads c.head_dim) w
unfolding layer_fits
layer_fits-Fits c w = (λ h. ground (arith, h), λ h. ground (arith, h))

pub check_layers-All :
    (c : ModelConfig) (l : ℕ) (ws : List LayerWeights)
    → (check_layers c l ws ≡ ok tt)
      ↔ All (Fits c (mul32 c.num_attention_heads c.head_dim) (mul32 c.num_kv_heads c.head_dim)) ws
unfolding check_layers
check_layers-All c l [] = (λ h. tt, λ h. refl)
check_layers-All c l (w ∷ ws) = (
  λ h.
      let (t, rest) = require-true (layer_fits c w) (layer_geometry l) _ h in
      ((layer_fits-Fits c w).0 t, (check_layers-All c (l + 1) ws).0 rest),
  λ (p, h). rw ((layer_fits-Fits c w).1 p, (check_layers-All c (l + 1) ws).1 h) refl,
)

-- The products of the configuration are 32-bit words.
pub record IsNarrow (c : ModelConfig) : Type 0 where
  pub q_width_max : c.num_attention_heads * c.head_dim ≤ u32_max
  pub kv_width_max : c.num_kv_heads * c.head_dim ≤ u32_max

-- The checks at the end, without the casts that change nothing.
pub check_weights-shapes :
    (c : ModelConfig) (w v : Weights)
    → IsNarrow c
    → check_weights c w ≡ ok v
    → (w ≡ v)
      × All (Fits c (c.num_attention_heads * c.head_dim) (c.num_kv_heads * c.head_dim)) w.layer
      × (w.embedding.k ≡ c.hidden_size)
      × (w.output.k ≡ c.hidden_size)
unfolding check_weights
check_weights-shapes c w v n h =
    let q : mul32 c.num_attention_heads c.head_dim ≡ c.num_attention_heads * c.head_dim =
      omega (arith, n.q_width_max) in
    let kv : mul32 c.num_kv_heads c.head_dim ≡ c.num_kv_heads * c.head_dim =
      omega (arith, n.kv_width_max) in
    let (done, e, h0) = bind_ok (check_layers c 0 w.layer) _ h in
    let (t, h1) =
      require-true (w.embedding.k == c.hidden_size && w.output.k == c.hidden_size) outer_geometry _
        h0 in
    (
      ok_injective w v h1,
      rw (q, kv) at ((check_layers-All c 0 w.layer).0 e),
      ground (arith, t),
      ground (arith, t),
    )

pub shapes-check_weights :
    (c : ModelConfig) (w : Weights)
    → IsNarrow c
    → All (Fits c (c.num_attention_heads * c.head_dim) (c.num_kv_heads * c.head_dim)) w.layer
    → w.embedding.k ≡ c.hidden_size
    → w.output.k ≡ c.hidden_size
    → check_weights c w ≡ ok w
unfolding check_weights
shapes-check_weights c w n all emb out =
    let q : mul32 c.num_attention_heads c.head_dim ≡ c.num_attention_heads * c.head_dim =
      omega (arith, n.q_width_max) in
    let kv : mul32 c.num_kv_heads c.head_dim ≡ c.num_kv_heads * c.head_dim =
      omega (arith, n.kv_width_max) in
    rw ((check_layers-All c 0 w.layer).1 (rw (q, kv) all)) (ground (arith, emb, out))
