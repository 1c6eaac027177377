-- ===== src/Gguf/Tensors/Shape.antt =====
-- What the first loop of `parse_tensors`, src/q3_gguf.c, guarantees of each descriptor.
use sera_c.Common.{
  ℕ, zero, suc, ◌+◌, ◌*◌, ◌/◌, ◌≤◌, ◌≡◌, refl, not, ◌&&◌, true, List, [], ◌∷◌, ◌++◌, ok, length,
  length-append, take, All, All-append, ltb, ◌==◌, arith, u64_max, mul64, Post, Post-bind, Post_map,
  Post-require, ◌-◌, min,
}
use sera_c.Gguf.Cursor.{Cursor, cursor_u32, cursor_u64, cursor_string}
use sera_c.Gguf.Cursor.Bounds.{
  IsValid, Extends, Extends-refl, Extends-trans, Extends-IsValid, TookWord, TookString,
  cursor_u32-TookWord, cursor_u64-TookWord, cursor_string-TookString,
}
use sera_c.Gguf.File.{Tensor, max_dims, max_name}
use sera_c.Gguf.Tensors.{descriptor, name_copy, dims_loop, bytes_or_zero, read_tensor, tensor_loop}

abbrev pub product : List ℕ → ℕ
product [] = 1
product (d ∷ ds) = d * product ds

product-append : (xs ys : List ℕ) → product (xs ++ ys) ≡ product xs * product ys
product-append [] ys = omega arith
product-append (x ∷ xs) ys = grind (arith, product-append xs ys)

-- The test before the product is exact: the product that passes it does not wrap.
checked_product :
    (elements d : ℕ)
    → elements ≤ u64_max
    → not (not (d == 0) && ltb (u64_max / d) elements) ≡ true
    → (mul64 elements d ≡ elements * d) × (elements * d ≤ u64_max)
checked_product elements d h t = grind arith

-- The dimensions `ds` of a tensor with `elements` elements.
pub record IsShape (ds : List ℕ) (elements : ℕ) : Type 0 where
  pub exact : elements ≡ product ds
  pub in_range : elements ≤ u64_max

record ReadDims (n : ℕ) (dims : List ℕ) (c : Cursor) (r : List ℕ × ℕ × Cursor) : Type 0 where
  shape : IsShape r.0 r.1
  count : length r.0 ≡ length dims + n
  extends : Extends c r.2

dims_loop-ReadDims :
    (n : ℕ) (dims : List ℕ) (elements : ℕ) (c : Cursor)
    → IsValid c
    → IsShape dims elements
    → Post (dims_loop n dims elements c) (ReadDims n dims c)
unfolding dims_loop
dims_loop-ReadDims zero dims elements c v s = record {
  shape = s;
  count = omega arith;
  extends = Extends-refl c v;
}
dims_loop-ReadDims (suc n) dims elements c v s =
    Post-bind (TookWord c 8) (ReadDims (suc n) dims c) (cursor_u64 c) _ (cursor_u64-TookWord c v)
      λ r p. Post-require (ReadDims (suc n) dims c) _ _ _ λ t.
        let (exact, small) = checked_product elements r.0 s.in_range t in
        let shape : IsShape (dims ++ (r.0 ∷ [])) (mul64 elements r.0) = record {
          exact = grind (arith, product-append dims (r.0 ∷ []));
          in_range = omega arith;
        } in
        Post_map (ReadDims n (dims ++ (r.0 ∷ [])) r.1) (ReadDims (suc n) dims c)
          (dims_loop n (dims ++ (r.0 ∷ [])) (mul64 elements r.0) r.1)
          (λ q h. record {
            shape = h.shape;
            count = omega (arith, h.count, length-append dims (r.0 ∷ []));
            extends = Extends-trans p.extends h.extends;
          })
          (dims_loop-ReadDims n (dims ++ (r.0 ∷ [])) (mul64 elements r.0) r.1
            (Extends-IsValid v p.extends) shape)

-- A descriptor as it stands in the file, before its place is known.
pub record IsDescriptor (t : Tensor) : Type 0 where
  pub dims_pos : 1 ≤ t.ndim
  pub dims_max : t.ndim ≤ max_dims
  pub dims : length t.dim ≡ t.ndim
  pub shape : IsShape t.dim t.elements
  pub bytes : t.bytes ≡ bytes_or_zero t.type t.elements
  pub name_buf : t.name_buf ≡ take (min (length t.name) (max_name - 1)) t.name

record ReadTensor (c : Cursor) (r : Tensor × Cursor) : Type 0 where
  descriptor : IsDescriptor r.0
  extends : Extends c r.1

read_tensor-ReadTensor : (c : Cursor) → IsValid c → Post (read_tensor c) (ReadTensor c)
unfolding read_tensor name_copy
read_tensor-ReadTensor c v =
    Post-bind (TookString c) (ReadTensor c) (cursor_string c) _ (cursor_string-TookString c v)
      λ r1 p1.
        let e1 = p1.extends in
        Post-bind (TookWord r1.1 4) (ReadTensor c) (cursor_u32 r1.1) _
          (cursor_u32-TookWord r1.1 (Extends-IsValid v e1))
          λ r2 p2.
            let e2 = Extends-trans e1 p2.extends in
            let v2 = Extends-IsValid v e2 in
            Post-require (ReadTensor c) _ _ _ λ t.
              Post-bind (ReadDims r2.0 [] r2.1) (ReadTensor c) (dims_loop r2.0 [] 1 r2.1) _
                (dims_loop-ReadDims r2.0 [] 1 r2.1 v2 (omega arith))
                λ r3 p3.
                  let e3 = Extends-trans e2 p3.extends in
                  Post-bind (TookWord r3.2 4) (ReadTensor c) (cursor_u32 r3.2) _
                    (cursor_u32-TookWord r3.2 (Extends-IsValid v e3))
                    λ r4 p4.
                      let e4 = Extends-trans e3 p4.extends in
                      Post-bind (TookWord r4.1 8) (ReadTensor c) (cursor_u64 r4.1)
                        (λ r5. ok (descriptor r1.0 r3.0 r2.0 r3.1 r4.0 r5.0, r5.1))
                        (cursor_u64-TookWord r4.1 (Extends-IsValid v e4))
                        λ r5 p5. record {
                          descriptor = record {
                            dims_pos = ground arith;
                            dims_max = ground arith;
                            dims = omega (arith, p3.count);
                            shape = p3.shape;
                            bytes = refl;
                            name_buf = refl;
                          };
                          extends = Extends-trans e4 p5.extends;
                        }

pub record ReadTensors (n : ℕ) (c : Cursor) (r : List Tensor × Cursor) : Type 0 where
  pub descriptors : All IsDescriptor r.0
  pub count : length r.0 ≡ n
  pub extends : Extends c r.1

tensor_loop-ReadTensors :
    (n k : ℕ) (ts : List Tensor) (c : Cursor)
    → IsValid c
    → All IsDescriptor ts
    → length ts + n ≡ k
    → Post (tensor_loop n ts c) (ReadTensors k c)
unfolding tensor_loop
tensor_loop-ReadTensors zero k ts c v all e = record {
  descriptors = all;
  count = omega arith;
  extends = Extends-refl c v;
}
tensor_loop-ReadTensors (suc n) k ts c v all e =
    Post-bind (ReadTensor c) (ReadTensors k c) (read_tensor c) _ (read_tensor-ReadTensor c v) λ r p.
      let ts' = ts ++ (r.0 ∷ []) in
      Post_map (ReadTensors k r.1) (ReadTensors k c) (tensor_loop n ts' r.1)
        (λ q h. record {
          descriptors = h.descriptors;
          count = h.count;
          extends = Extends-trans p.extends h.extends;
        })
        (tensor_loop-ReadTensors n k ts' r.1 (Extends-IsValid v p.extends)
          (All-append IsDescriptor ts (r.0 ∷ []) all (p.descriptor, tt))
          (omega (arith, length-append ts (r.0 ∷ []))))

pub tensor_loop_reads :
    (n : ℕ) (c : Cursor) → IsValid c → Post (tensor_loop n [] c) (ReadTensors n c)
tensor_loop_reads n c v = tensor_loop-ReadTensors n n [] c v tt (omega arith)
