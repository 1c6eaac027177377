-- ===== src/Gguf/Tensors/Places.antt =====
-- What the second loop of `parse_tensors`, src/q3_gguf.c, guarantees of the tensors' places.
use sera_c.Common.{
  ℕ, ◌+◌, ◌≤◌, ◌<◌, ◌≡◌, ◌≢◌, refl, [], ◌∷◌, ◌++◌, List, Bool, All, All-append, length,
  length-append, max, arith, u32_max, u64_max, add64, ok, Post, Post-bind, Post_map,
}
use sera_c.Gguf.Cursor.{Cursor, align_up}
use sera_c.Gguf.Cursor.Bounds.{IsValid}
use sera_c.Gguf.Cursor.Words.{align_up_lem}
use sera_c.Gguf.File.{Tensor, Gguf}
use sera_c.Gguf.Tensors.{place, larger, place_loop, tensor_loop, parse_tensors}
use sera_c.Gguf.Tensors.Shape.{IsDescriptor, ReadTensors, tensor_loop_reads}

-- A tensor of a file of `size` bytes whose payload begins at `data_pos`: its offset is exact, and
-- its bytes lie in the file.
pub record IsPlaced (data_pos size : ℕ) (t : Tensor) : Type 0 where
  pub descriptor : IsDescriptor t
  pub exact : t.abs_offset ≡ data_pos + t.rel_offset
  pub offset_max : t.abs_offset ≤ u64_max
  pub inside : t.bytes ≢ 0 → t.abs_offset + t.bytes ≤ size

-- The largest byte count.
abbrev pub largest : List Tensor → ℕ
largest [] = 0
largest (t ∷ ts) = max t.bytes (largest ts)

largest-append : (ts us : List Tensor) → largest (ts ++ us) ≡ max (largest ts) (largest us)
largest-append [] us = omega arith
largest-append (t ∷ ts) us = omega (arith, largest-append ts us)

IsDescriptor_at : (t : Tensor) (a : ℕ) → IsDescriptor t → IsDescriptor (record t { abs_offset = a })
IsDescriptor_at t a d = record {
  dims_pos = d.dims_pos;
  dims_max = d.dims_max;
  dims = d.dims;
  shape = d.shape;
  bytes = d.bytes;
  name_buf = d.name_buf;
}

record PlacedAs (m : Gguf) (t t' : Tensor) : Type 0 where
  placed : IsPlaced m.tensor_data_pos m.size t'
  same_bytes : t'.bytes ≡ t.bytes

place-PlacedAs :
    (m : Gguf) (c : Cursor) (t : Tensor)
    → m.tensor_data_pos ≤ u64_max
    → m.size ≤ u64_max
    → IsDescriptor t
    → Post (place m c t) (PlacedAs m t)
unfolding place
place-PlacedAs m c t p s d =
    ground (arith, IsDescriptor_at t (add64 m.tensor_data_pos t.rel_offset) d)

-- The tensors of a container, and what the loop keeps of the structure.
pub record HasTensors (n : ℕ) (m m' : Gguf) : Type 0 where
  pub placed : All (IsPlaced m.tensor_data_pos m.size) m'.tensors
  pub count : length m'.tensors ≡ n
  pub max_exact : m'.max_tensor_bytes ≡ largest m'.tensors
  pub rest : m' ≡ record m { tensors = m'.tensors; max_tensor_bytes = m'.max_tensor_bytes }

place_loop-HasTensors :
    (todo done : List Tensor) (n : ℕ) (m : Gguf) (c : Cursor)
    → m.tensor_data_pos ≤ u64_max
    → m.size ≤ u64_max
    → All IsDescriptor todo
    → All (IsPlaced m.tensor_data_pos m.size) done
    → length done + length todo ≡ n
    → m.max_tensor_bytes ≡ largest done
    → Post (place_loop todo done m c) (HasTensors n m)
unfolding place_loop larger
place_loop-HasTensors [] done n m c p s d all e mx = record {
  placed = all;
  count = omega arith;
  max_exact = mx;
  rest = refl;
}
place_loop-HasTensors (t ∷ todo) done n m c p s (d, ds) all e mx =
    Post-bind (PlacedAs m t) (HasTensors n m) (place m c t) _ (place-PlacedAs m c t p s d) λ t1 q.
      let done' = done ++ (t1 ∷ []) in
      let m1 = record m { max_tensor_bytes = larger m.max_tensor_bytes t1 } in
      Post_map (HasTensors n m1) (HasTensors n m) (place_loop todo done' m1 c)
        (λ m' h. record {
          placed = h.placed;
          count = h.count;
          max_exact = h.max_exact;
          rest = h.rest;
        })
        (place_loop-HasTensors todo done' n m1 c p s ds
          (All-append (IsPlaced m.tensor_data_pos m.size) done (t1 ∷ []) all (q.placed, tt))
          (omega (arith, length-append done (t1 ∷ [])))
          (ground (arith, largest-append done (t1 ∷ []))))

-- What `parse_tensors` returns on the structure `m`, with its payload at the next multiple of the
-- alignment behind the descriptors.
pub record Placed (m : Gguf) (r : Gguf × Cursor) : Type 0 where
  pub data_pos : ℕ
  pub data_pos_exact : data_pos ≡ align_up r.1.pos m.alignment
  pub cursor_inside : r.1.pos ≤ m.size
  pub tensors : HasTensors m.n_tensors (record m { tensor_data_pos = data_pos }) r.0

pub parse_tensors-Placed :
    (calloc : ℕ → ℕ → Bool) (m : Gguf) (c : Cursor)
    → IsValid c
    → c.size ≡ m.size
    → m.size < 0x8000_0000_0000_0000
    → m.max_tensor_bytes ≡ 0
    → 1 ≤ m.alignment
    → m.alignment ≤ u32_max
    → Post (parse_tensors calloc m c) (Placed m)
unfolding parse_tensors
parse_tensors-Placed calloc m c v same small zero_max lo hi =
    let loops =
      Post-bind (ReadTensors m.n_tensors c) (Placed m) (tensor_loop m.n_tensors [] c) _
        (tensor_loop_reads m.n_tensors c v)
        λ r p.
          let pos : r.1.pos ≤ m.size = omega (arith, p.extends.within) in
          let data_pos = align_up r.1.pos m.alignment in
          let (low, high, multiple) = align_up_lem r.1.pos m.alignment lo (omega arith) in
          let m1 = record m { tensor_data_pos = data_pos } in
          Post-bind (HasTensors m.n_tensors m1) (Placed m) (place_loop r.0 [] m1 r.1)
            (λ m2. ok (m2, r.1))
            (place_loop-HasTensors r.0 [] m.n_tensors m1 r.1 (omega arith) (omega arith)
              p.descriptors tt (omega (arith, p.count)) zero_max)
            (λ m2 h. record {
              data_pos = data_pos;
              data_pos_exact = refl;
              cursor_inside = pos;
              tensors = h;
            }) in
    ground (arith, loops)
