-- ===== src/Gguf/Access/Payload.antt =====
-- `q3_gguf_tensor_data`, src/q3_gguf.c, on the tensors of an opened container.
use sera_c.Gguf.Open.Sound.{gguf_open-IsContainer}
use sera_c.Gguf.Tensors.Places.{IsPlaced}
use sera_c.Gguf.Open.{gguf_open}
use sera_c.Gguf.File.{Gguf, Tensor}
use sera_c.Gguf.Access.{tensor_data}
use sera_c.Common.{
  ℕ, Bool, Bytes, All, ◌≡◌, IsByte, length, some, ◌<◌, take, ◌≤◌, drop, u64_max, ok, ◌≢◌, arith,
  length-take, ◌∙◌, ap, length-drop, sym, All_map,
}

-- The payload of a tensor is all its bytes, from its offset on.
pub record HasPayload (m : Gguf) (t : Tensor) : Type 0 where
  pub found : tensor_data m t ≡ some (t.abs_offset, take t.bytes (drop t.abs_offset m.map))
  pub complete : length (take t.bytes (drop t.abs_offset m.map)) ≡ t.bytes

IsPlaced-HasPayload :
    (m : Gguf) (t : Tensor)
    → m.size ≡ length m.map
    → m.size ≤ u64_max
    → IsPlaced m.tensor_data_pos m.size t
    → t.bytes ≢ 0
    → HasPayload m t
unfolding tensor_data
IsPlaced-HasPayload m t mapped small p z =
    let inside = p.inside z in
    record {
      found = ground (arith, inside);
      complete =
          length-take t.bytes (drop t.abs_offset m.map)
          ∙ omega (arith, inside, length-drop t.abs_offset m.map);
    }

-- For every tensor with bytes of a container that `q3_gguf_open` returned for a file that an `off_t`
-- counts, `q3_gguf_tensor_data` finds the payload, at the tensor's offset, and as many bytes of the
-- file as the tensor has stand there.
pub tensor_data-HasPayload :
    (calloc : ℕ → ℕ → Bool) (bs : Bytes) {m : Gguf}
    → All IsByte bs
    → length bs < 0x8000_0000_0000_0000
    → gguf_open calloc bs ≡ ok m
    → All (λ (t : Tensor). t.bytes ≢ 0 → HasPayload m t) m.tensors
tensor_data-HasPayload calloc bs {m} bytes small opened =
    let c = gguf_open-IsContainer calloc bs bytes small opened in
    let mapped : m.size ≡ length m.map = c.same_size ∙ ap length (sym c.same_map) in
    All_map (IsPlaced m.tensor_data_pos m.size) _
      (λ t p. IsPlaced-HasPayload m t mapped (omega (arith, c.same_size)) p) m.tensors c.tensors
