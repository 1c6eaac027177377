-- ===== src/Model/Validate.antt =====
-- What `q3_model_config_validate` of src/q3_model.c asks of the tensor table.
use sera_c.Model.{
  ModelConfig, find_matrix, config_validate, layer_name, ModelError, q_width, find_tensor, kv_width,
  dim_of, no_embedding, no_attn_q, no_attn_k, no_ffn_gate, output_geometry, embedding_row_length,
  attn_q_geometry, attn_k_geometry, ffn_geometry, q_norm_geometry,
}
use sera_c.Gguf.File.{Gguf, Tensor}
use sera_c.Common.{
  ℕ, ◌≤◌, u32_max, Bytes, codes, ◌+◌, mul64, ◌≡◌, ◌++◌, ◌*◌, ◌%◌, decimal, arith, ◌-◌, some, ok,
  bind_ok, ◌↔◌, require-true, ◌==◌, ◌&&◌, need-some,
}

-- The first tensor of that name, with two dimensions at least, of which the first two are `rows`
-- and `columns` by `P`.
pub record HasMatrix (m : Gguf) (name : Bytes) (P : ℕ → ℕ → Type 0) : Type 0 where
  pub tensor : Tensor
  pub found : find_tensor m name ≡ some tensor
  pub two : 2 ≤ tensor.ndim
  pub shape : P (dim_of tensor 0) (dim_of tensor 1)

pub record HasVector (m : Gguf) (name : Bytes) (size : ℕ) : Type 0 where
  pub tensor : Tensor
  pub found : find_tensor m name ≡ some tensor
  pub one : tensor.ndim ≡ 1
  pub shape : dim_of tensor 0 ≡ size

-- The tensor table has the shapes of the configuration; `vocab` is the vocabulary's size.
pub record Matches (m : Gguf) (c : ModelConfig) : Type 0 where
  pub vocab : ℕ
  pub embedding : HasMatrix m (codes "token_embd.weight") (λ k n. (k ≡ c.hidden_size) × (n ≡ vocab))
  pub last_q :
      HasMatrix m
        (codes "blk." ++ (decimal (c.num_layers - 1) ++ codes ".attn_q.weight"))
        (λ k n. (k ≡ c.hidden_size) × (n ≡ c.num_attention_heads * c.head_dim))
  pub first_k : HasMatrix m (codes "blk.0.attn_k.weight") (λ k n. n ≡ c.num_kv_heads * c.head_dim)
  pub first_gate :
      HasMatrix m
        (codes "blk.0.ffn_gate.weight")
        (λ k n. (k ≡ c.hidden_size) × (n ≡ c.intermediate_size))
  pub first_q_norm : HasVector m (codes "blk.0.attn_q_norm.weight") c.head_dim
  pub output : HasMatrix m (codes "output.weight") (λ k n. n ≡ vocab)
  pub vocab_max : c.num_attention_heads * c.head_dim ≤ vocab

-- The sizes are `uint32_t`, and there is a layer.
pub record IsSized (c : ModelConfig) : Type 0 where
  pub layers_pos : 1 ≤ c.num_layers
  pub layers_max : c.num_layers ≤ u32_max
  pub heads_max : c.num_attention_heads ≤ u32_max
  pub kv_heads_max : c.num_kv_heads ≤ u32_max
  pub head_dim_max : c.head_dim ≤ u32_max

pub mul64-words : (a b : ℕ) → a ≤ u32_max → b ≤ u32_max → mul64 a b ≡ a * b
mul64-words a b p q =
    let high : a * b ≤ u32_max * u32_max = grind (arith, p, q) in omega (arith, high)

find_matrix_found :
    (m : Gguf) (name : Bytes) (e : ModelError) (t : Tensor)
    → find_matrix m name e ≡ ok t
    → (find_tensor m name ≡ some t) × (2 ≤ t.ndim)
unfolding find_matrix
find_matrix_found m name e t h = ground (arith, h)

find_matrix_pass :
    (m : Gguf) (name : Bytes) (e : ModelError) (t : Tensor)
    → find_tensor m name ≡ some t
    → 2 ≤ t.ndim
    → find_matrix m name e ≡ ok t
unfolding find_matrix
find_matrix_pass m name e t found two = rw found (ground (arith, two))

previous : (n : ℕ) → 1 ≤ n → n ≤ u32_max → (n + u32_max) % 0x1_0000_0000 ≡ n - 1
previous n low high = omega (arith, low, high)

config_validate-Matches :
    (m : Gguf) (c : ModelConfig) → IsSized c → config_validate m c ≡ ok tt → Matches m c
unfolding config_validate layer_name q_width kv_width
config_validate-Matches m c s h =
    let last = codes "blk." ++ (decimal (c.num_layers - 1) ++ codes ".attn_q.weight") in
    let same_q = mul64-words c.num_attention_heads c.head_dim s.heads_max s.head_dim_max in
    let same_kv = mul64-words c.num_kv_heads c.head_dim s.kv_heads_max s.head_dim_max in
    let (emb, e0, h0) = bind_ok (find_matrix m (codes "token_embd.weight") no_embedding) _ h in
    let (t0, h1) = require-true (dim_of emb 0 == c.hidden_size) embedding_row_length _ h0 in
    let (q, e1, h2) =
      bind_ok (find_matrix m last no_attn_q) _
        (rw (previous c.num_layers s.layers_pos s.layers_max) at h1) in
    let (t1, h3) =
      require-true (dim_of q 0 == c.hidden_size && dim_of q 1 == q_width c) attn_q_geometry _ h2 in
    let (k, e2, h4) = bind_ok (find_matrix m (codes "blk.0.attn_k.weight") no_attn_k) _ h3 in
    let (t2, h5) = require-true (dim_of k 1 == kv_width c) attn_k_geometry _ h4 in
    let (g, e3, h6) = bind_ok (find_matrix m (codes "blk.0.ffn_gate.weight") no_ffn_gate) _ h5 in
    let (t3, h7) =
      require-true (dim_of g 0 == c.hidden_size && dim_of g 1 == c.intermediate_size) ffn_geometry _
        h6 in
    let (n, e4, h8) =
      need-some (find_tensor m (codes "blk.0.attn_q_norm.weight")) q_norm_geometry _ h7 in
    let (t4, h9) = require-true (n.ndim == 1 && dim_of n 0 == c.head_dim) q_norm_geometry _ h8 in
    let (o, e5, h10) = bind_ok (find_matrix m (codes "output.weight") output_geometry) _ h9 in
    let (t5, h11) = require-true (dim_of o 1 == dim_of emb 1) output_geometry _ h10 in
    let f0 = find_matrix_found m (codes "token_embd.weight") no_embedding emb e0 in
    let f1 = find_matrix_found m last no_attn_q q e1 in
    let f2 = find_matrix_found m (codes "blk.0.attn_k.weight") no_attn_k k e2 in
    let f3 = find_matrix_found m (codes "blk.0.ffn_gate.weight") no_ffn_gate g e3 in
    let f5 = find_matrix_found m (codes "output.weight") output_geometry o e5 in
    record {
      vocab = dim_of emb 1;
      embedding = record { tensor = emb; found = f0.0; two = f0.1; shape = ground (arith, t0) };
      last_q = record { tensor = q; found = f1.0; two = f1.1; shape = ground (arith, t1, same_q) };
      first_k = record {
        tensor = k;
        found = f2.0;
        two = f2.1;
        shape = ground (arith, t2, same_kv);
      };
      first_gate = record { tensor = g; found = f3.0; two = f3.1; shape = ground (arith, t3) };
      first_q_norm = record {
        tensor = n;
        found = e4;
        one = ground (arith, t4);
        shape = ground (arith, t4);
      };
      output = record { tensor = o; found = f5.0; two = f5.1; shape = ground (arith, t5) };
      vocab_max = ground (arith, h11, same_q);
    }

Matches-config_validate :
    (m : Gguf) (c : ModelConfig) → IsSized c → Matches m c → config_validate m c ≡ ok tt
unfolding config_validate layer_name q_width kv_width
Matches-config_validate m c s h =
    rw
      (
        find_matrix_pass m (codes "token_embd.weight") no_embedding h.embedding.tensor
            h.embedding.found h.embedding.two,
        previous c.num_layers s.layers_pos s.layers_max,
        find_matrix_pass m (codes "blk." ++ (decimal (c.num_layers - 1) ++ codes ".attn_q.weight"))
            no_attn_q h.last_q.tensor h.last_q.found h.last_q.two,
        find_matrix_pass m (codes "blk.0.attn_k.weight") no_attn_k h.first_k.tensor h.first_k.found
            h.first_k.two,
        find_matrix_pass m (codes "blk.0.ffn_gate.weight") no_ffn_gate h.first_gate.tensor
            h.first_gate.found h.first_gate.two,
        h.first_q_norm.found,
        find_matrix_pass m (codes "output.weight") output_geometry h.output.tensor h.output.found
            h.output.two,
      )
      (ground (
        arith,
        h.embedding.shape,
        h.last_q.shape,
        h.first_k.shape,
        h.first_gate.shape,
        h.first_q_norm.shape,
        h.first_q_norm.one,
        h.output.shape,
        h.vocab_max,
        mul64-words c.num_attention_heads c.head_dim s.heads_max s.head_dim_max,
        mul64-words c.num_kv_heads c.head_dim s.kv_heads_max s.head_dim_max,
      ))

-- For a configuration whose sizes are 32-bit words and that has a layer,
-- `q3_model_config_validate` succeeds exactly if the tensor table has: an embedding with rows of the
-- hidden size, the last layer's query projection with rows of the hidden size and heads times head
-- dimension of them, the first layer's key projection with KV heads times head dimension rows, its
-- gate projection of the hidden size times the intermediate size, its query norm as a vector of the
-- head dimension, an output projection with as many rows as the embedding has, and no fewer such rows
-- than heads times head dimension. Under each name the first tensor counts; no product wraps.
pub config_validate-Matches_iff :
    (m : Gguf) (c : ModelConfig) → IsSized c → (config_validate m c ≡ ok tt) ↔ Matches m c
config_validate-Matches_iff m c s = (config_validate-Matches m c s, Matches-config_validate m c s)
