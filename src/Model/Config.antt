-- ===== src/Model/Config.antt =====
-- What `q3_model_config_from_gguf` of src/q3_model.c accepts, and what it makes of it.
use sera_c.Gguf.Access.{get_u32, get_string, get_f32}
use sera_c.Model.{
  architecture, epsilon_of, head_dim_of, field_u32, ModelConfig, field_f32, key, check_config,
  float_le_zero, no_epsilon, or_zero, float_le_one, read_config, config_from_gguf,
}
use sera_c.Gguf.File.{Gguf}
use sera_c.Common.{
  ℕ, Option, ◌≤◌, Bytes, ◌≡◌, ok, ◌%◌, c_text, some, codes, ◌↔◌, length, none, need, ◌*◌, ◌<◌,
  false, arith, ◌++◌, refl, Post, need_post, bytes_eq_iff, Bool-cases, ◌==◌, ◌||◌, not, inl, inr,
  need-some, ◌∷◌, [], subst, bytes_eq, bind_ok, true, Post-bind, sym, ◌∙◌, ap, Post-eq-ok,
}

-- The head dimension: the one under its key, or an even share of the hidden size.
pub data IsHeadDim (stored : Option ℕ) (hidden heads : ℕ) (head_dim : ℕ) : Type 0 where
  given : stored ≡ some head_dim → IsHeadDim stored hidden heads head_dim
  shared :
      stored ≡ none → 1 ≤ heads → heads * head_dim ≡ hidden → IsHeadDim stored hidden heads head_dim

pub record IsGeometry (c : ModelConfig) : Type 0 where
  pub hidden_pos : 1 ≤ c.hidden_size
  pub layers_pos : 1 ≤ c.num_layers
  pub heads_pos : 1 ≤ c.num_attention_heads
  pub kv_heads_pos : 1 ≤ c.num_kv_heads
  pub head_dim_pos : 1 ≤ c.head_dim
  pub groups : c.num_attention_heads % c.num_kv_heads ≡ 0
  pub epsilon : float_le_zero c.rms_norm_eps ≡ false
  pub theta : float_le_one c.rope_theta ≡ false

-- The metadata of `m` that `c` holds.
pub record Holds (narrow : ℕ → ℕ) (m : Gguf) (c : ModelConfig) : Type 0 where
  pub layers : get_u32 m (codes "qwen3.block_count") ≡ some c.num_layers
  pub hidden : get_u32 m (codes "qwen3.embedding_length") ≡ some c.hidden_size
  pub intermediate : get_u32 m (codes "qwen3.feed_forward_length") ≡ some c.intermediate_size
  pub heads : get_u32 m (codes "qwen3.attention.head_count") ≡ some c.num_attention_heads
  pub kv_heads : get_u32 m (codes "qwen3.attention.head_count_kv") ≡ some c.num_kv_heads
  pub head_dim :
      IsHeadDim
        (get_u32 m (codes "qwen3.attention.key_length"))
        c.hidden_size
        c.num_attention_heads
        c.head_dim
  pub epsilon :
      get_f32 narrow m (codes "qwen3.attention.layer_norm_rms_epsilon") ≡ some c.rms_norm_eps
  pub theta : get_f32 narrow m (codes "qwen3.rope.freq_base") ≡ some c.rope_theta
  pub positions : c.max_position_embeddings ≡ or_zero (get_u32 m (codes "qwen3.context_length"))
  pub vocab : c.vocab_size ≡ 0

-- `arch` is the architecture of `m`, and names this one up to its first zero byte.
pub record IsQwen3 (m : Gguf) (arch : Bytes) : Type 0 where
  pub stored : get_string m (codes "general.architecture") ≡ some arch
  pub short : length arch < 32
  pub text : c_text arch ≡ codes "qwen3"

pub record Describes (narrow : ℕ → ℕ) (m : Gguf) (c : ModelConfig) : Type 0 where
  pub arch : Bytes
  pub qwen3 : IsQwen3 m arch
  pub holds : Holds narrow m c
  pub geometry : IsGeometry c

key-qwen3 :
    (arch field : Bytes)
    → c_text arch ≡ codes "qwen3"
    → length field < 100
    → key arch field ≡ some (codes "qwen3." ++ field)
unfolding key
key-qwen3 arch field e short = rw e (ground arith)

field_u32-qwen3 :
    (m : Gguf) (arch field : Bytes)
    → c_text arch ≡ codes "qwen3"
    → length field < 100
    → field_u32 m arch field ≡ get_u32 m (codes "qwen3." ++ field)
unfolding field_u32
field_u32-qwen3 m arch field e short = rw (field_u32, key-qwen3 arch field e short) refl

field_u32-stored :
    (m : Gguf) (arch : Bytes)
    → c_text arch ≡ codes "qwen3"
    → (field : Bytes) {n : ℕ} → length field < 100
    → field_u32 m arch field ≡ some n
    → get_u32 m (codes "qwen3." ++ field) ≡ some n
field_u32-stored m arch e field short h = sym (field_u32-qwen3 m arch field e short) ∙ h

field_f32-qwen3 :
    (narrow : ℕ → ℕ) (m : Gguf) (arch field : Bytes)
    → c_text arch ≡ codes "qwen3"
    → length field < 100
    → field_f32 narrow m arch field ≡ get_f32 narrow m (codes "qwen3." ++ field)
unfolding field_f32
field_f32-qwen3 narrow m arch field e short = rw (field_f32, key-qwen3 arch field e short) refl

epsilon_of-qwen3 :
    (narrow : ℕ → ℕ) (m : Gguf) (arch : Bytes)
    → c_text arch ≡ codes "qwen3"
    → epsilon_of narrow m arch
      ≡ need (get_f32 narrow m (codes "qwen3.attention.layer_norm_rms_epsilon")) no_epsilon
unfolding epsilon_of
epsilon_of-qwen3 narrow m arch e =
    rw (epsilon_of, key-qwen3 arch (codes "attention.layer_norm_rms_epsilon") e (omega arith)) refl

architecture-IsQwen3 : (m : Gguf) (arch : Bytes) → architecture m ≡ ok arch → IsQwen3 m arch
unfolding architecture
architecture-IsQwen3 m arch h =
    let (a, stored, h1) = need-some _ _ _ h in
    let parts : (length a < 32) × (bytes_eq (c_text a) (codes "qwen3") ≡ true) × (a ≡ arch) =
      ground (arith, h1) in
    subst (IsQwen3 m) parts.2 (record {
      stored = stored;
      short = parts.0;
      text = (bytes_eq_iff (c_text a) (codes "qwen3")).0 parts.1;
    })

IsQwen3-architecture : (m : Gguf) (arch : Bytes) → IsQwen3 m arch → architecture m ≡ ok arch
unfolding architecture c_text
IsQwen3-architecture m [] h = cc (h.text)
IsQwen3-architecture m (b ∷ bs) h =
    ground (arith, h, (bytes_eq_iff (c_text (b ∷ bs)) (codes "qwen3")).1 h.text)

head_dim_of-IsHeadDim :
    (stored : Option ℕ) (hidden heads : ℕ)
    → Post (head_dim_of stored hidden heads) (IsHeadDim stored hidden heads)
unfolding head_dim_of
head_dim_of-IsHeadDim none hidden heads =
    elim (Bool-cases (heads == 0 || not (hidden % heads == 0))) [
      | inl bad ↦ rw bad tt
      | inr good ↦ rw good (shared refl (ground (arith, good)) (grind (arith, good)))
    ]
head_dim_of-IsHeadDim (some n) hidden heads = given refl

IsHeadDim-head_dim_of :
    {stored : Option ℕ} {hidden heads n : ℕ}
    → IsHeadDim stored hidden heads n
    → head_dim_of stored hidden heads ≡ ok n
unfolding head_dim_of
IsHeadDim-head_dim_of (given e) = rw e refl
IsHeadDim-head_dim_of (shared e pos product) = rw e (grind (arith, pos, product))

check_config-IsGeometry : (c d : ModelConfig) → check_config c ≡ ok d → (d ≡ c) × IsGeometry c
unfolding check_config
check_config-IsGeometry c d h = ground (arith, h)

IsGeometry-check_config : (c : ModelConfig) → IsGeometry c → check_config c ≡ ok c
unfolding check_config
IsGeometry-check_config c g = ground (arith, g)

-- `read_config` for an architecture that names this one.
read_config-Holds :
    (narrow : ℕ → ℕ) (m : Gguf) (arch : Bytes)
    → c_text arch ≡ codes "qwen3"
    → Post (read_config narrow m arch) (Holds narrow m)
unfolding read_config
read_config-Holds narrow m arch text =
    let u32 : Bytes → Option ℕ = field_u32 m arch in
    let H = Holds narrow m in
    need_post H (u32 (codes "block_count")) _ _ λ layers e0.
      need_post H (u32 (codes "embedding_length")) _ _ λ hidden e1.
        need_post H (u32 (codes "feed_forward_length")) _ _ λ intermediate e2.
          need_post H (u32 (codes "attention.head_count")) _ _ λ heads e3.
            need_post H (u32 (codes "attention.head_count_kv")) _ _ λ kv_heads e4.
              Post-bind (IsHeadDim (u32 (codes "attention.key_length")) hidden heads) H
                (head_dim_of (u32 (codes "attention.key_length")) hidden heads) _
                (head_dim_of-IsHeadDim _ hidden heads)
                λ head_dim e5. rw (epsilon_of-qwen3 narrow m arch text) (
                  need_post H (get_f32 narrow m (codes "qwen3.attention.layer_norm_rms_epsilon")) _
                    _
                    λ epsilon e6.
                      need_post H (field_f32 narrow m arch (codes "rope.freq_base")) _ _ λ theta e7.
                        record {
                          layers =
                              field_u32-stored m arch text (codes "block_count") (omega arith) e0;
                          hidden =
                              field_u32-stored m arch text (codes "embedding_length") (omega arith)
                                e1;
                          intermediate =
                              field_u32-stored m arch text (codes "feed_forward_length")
                                (omega arith) e2;
                          heads =
                              field_u32-stored m arch text (codes "attention.head_count")
                                (omega arith) e3;
                          kv_heads =
                              field_u32-stored m arch text (codes "attention.head_count_kv")
                                (omega arith) e4;
                          head_dim =
                              subst (λ o. IsHeadDim o hidden heads head_dim)
                                (field_u32-qwen3 m arch (codes "attention.key_length") text
                                  (omega arith))
                                e5;
                          epsilon = e6;
                          theta =
                              sym (
                                field_f32-qwen3 narrow m arch (codes "rope.freq_base") text
                                  (omega arith))
                              ∙ e7;
                          positions =
                              ap or_zero (
                                field_u32-qwen3 m arch (codes "context_length") text (omega arith));
                          vocab = refl;
                        })

Holds-read_config :
    (narrow : ℕ → ℕ) (m : Gguf) (arch : Bytes) (c : ModelConfig)
    → c_text arch ≡ codes "qwen3"
    → Holds narrow m c
    → read_config narrow m arch ≡ ok c
unfolding read_config
Holds-read_config narrow m arch c text h =
    rw
      (
        field_u32-qwen3 m arch (codes "block_count") text (omega arith),
        h.layers,
        field_u32-qwen3 m arch (codes "embedding_length") text (omega arith),
        h.hidden,
        field_u32-qwen3 m arch (codes "feed_forward_length") text (omega arith),
        h.intermediate,
        field_u32-qwen3 m arch (codes "attention.head_count") text (omega arith),
        h.heads,
        field_u32-qwen3 m arch (codes "attention.head_count_kv") text (omega arith),
        h.kv_heads,
        field_u32-qwen3 m arch (codes "attention.key_length") text (omega arith),
        IsHeadDim-head_dim_of h.head_dim,
        epsilon_of-qwen3 narrow m arch text,
        h.epsilon,
        field_f32-qwen3 narrow m arch (codes "rope.freq_base") text (omega arith),
        h.theta,
        field_u32-qwen3 m arch (codes "context_length") text (omega arith),
        sym h.positions,
        sym h.vocab,
      )
      refl

-- `q3_model_config_from_gguf` succeeds with exactly the configurations that the metadata describes:
-- the architecture string reads "qwen3" up to its first zero byte and has fewer than 32 bytes, each
-- size is the 32-bit word under its key, the head dimension is the word under its own key or, where
-- that fails, an even share of the hidden size, the context length is 0 where its key fails, the
-- vocabulary size is 0; and hidden size, layers, heads, KV heads and head dimension are positive, the
-- heads are a multiple of the KV heads, and neither is the epsilon at most 0 nor theta at most 1 (which
-- a NaN is not either). `narrow` is the conversion of a 64-bit float.
pub config_from_gguf-Describes :
    (narrow : ℕ → ℕ) (m : Gguf) (c : ModelConfig)
    → (config_from_gguf narrow m ≡ ok c) ↔ Describes narrow m c
unfolding config_from_gguf
config_from_gguf-Describes narrow m c = (
  λ h.
      let (arch, e, h1) = bind_ok (architecture m) _ h in
      let (d, read, check) = bind_ok (read_config narrow m arch) _ h1 in
      let q = architecture-IsQwen3 m arch e in
      let (same, geometry) = check_config-IsGeometry d c check in
      record {
        arch = arch;
        qwen3 = q;
        holds =
            subst (Holds narrow m) (sym same)
              (Post-eq-ok (Holds narrow m) _ (read_config-Holds narrow m arch q.text) read);
        geometry = subst IsGeometry (sym same) geometry;
      },
  λ d.
      rw
        (
          IsQwen3-architecture m d.arch d.qwen3,
          Holds-read_config narrow m d.arch c d.qwen3.text d.holds,
        )
        (IsGeometry-check_config c d.geometry),
)
