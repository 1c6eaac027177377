-- ===== src/Binder/Vectors.antt =====
-- What `bind_vector` of src/q3_binder.c accepts, and the descriptors it makes.
use sera_c.Model.{dim_of}
use sera_c.Binder.Tensors.{IsVector, resident_at-slot, Located-pass, find_index-FirstNamed}
use sera_c.Binder.{
  vector_of, bind_vector, qtype_is_f32, ResidentTensor, ExecTensor, find_index, tensor_missing,
  resident_at,
}
use sera_c.Gguf.File.{Gguf, Tensor}
use sera_c.Common.{
  ℕ, List, Bytes, ◌≡◌, ◌%◌, Post, ok, true, Post-of_ok, need-some, arith, bind_ok, ◌∙◌,
  ok_injective, sym, ap,
}

-- The same for the vectors.
abbrev pub vector_at : ℕ → ℕ → Tensor → ResidentTensor → ExecTensor
vector_at size i t slot = record {
  index = i % 0x1_0000_0000;
  qtype = 0;
  name = t.name_buf;
  device = slot.ptr;
  k = 0;
  n = 0;
  elements = size % 0x1_0000_0000;
  is_1d = true;
  resident = true;
}

pub vector_of-facts :
    (name : Bytes) (size i : ℕ) (t : Tensor) (slot : ResidentTensor) (x : ExecTensor)
    → vector_of name size i t slot ≡ ok x
    → (t.ndim ≡ 1) × (t.type ≡ 0) × (dim_of t 0 ≡ size)
unfolding vector_of qtype_is_f32
vector_of-facts name size i t slot x h = ground (arith, h)

pub vector_of_pass :
    (name : Bytes) (size i : ℕ) (t : Tensor) (slot : ResidentTensor)
    → t.ndim ≡ 1
    → t.type ≡ 0
    → dim_of t 0 ≡ size
    → vector_of name size i t slot ≡ ok (vector_at size i t slot)
unfolding vector_of qtype_is_f32
vector_of_pass name size i t slot one kind shape = rw (kind, shape) (ground (arith, one))

pub bind_vector-IsVector :
    (m : Gguf) (ctx : List ResidentTensor) (name : Bytes) (size : ℕ) (x : ExecTensor)
    → bind_vector m ctx name size ≡ ok x
    → IsVector m ctx name size x
unfolding bind_vector
bind_vector-IsVector m ctx name size x h =
    let (found, e0, h0) = need-some (find_index m name) (tensor_missing name) _ h in
    let i = found.0 in
    let t = found.1 in
    let (slot, e1, h1) = bind_ok (resident_at ctx i name) _ h0 in
    let s = resident_at-slot ctx i name slot e1 in
    let f = vector_of-facts name size i t slot x h1 in
    let same : vector_at size i t slot ≡ x =
      ok_injective _ _ (sym (vector_of_pass name size i t slot f.0 f.1 f.2) ∙ h1) in
    record {
      located = record {
        place = i;
        tensor = t;
        slot = slot;
        first = (find_index-FirstNamed m name i t).0 e0;
        slot_at = s.0;
        live = s.1;
        device_pos = s.2;
      };
      one = f.0;
      kind = f.1;
      shape = f.2;
      same = sym same;
    }

pub IsVector-bind_vector :
    (m : Gguf) (ctx : List ResidentTensor) (name : Bytes) (size : ℕ) (x : ExecTensor)
    → IsVector m ctx name size x
    → bind_vector m ctx name size ≡ ok x
unfolding bind_vector
IsVector-bind_vector m ctx name size x h =
    let l = h.located in
    Located-pass l (vector_of name size)
    ∙ vector_of_pass name size l.place l.tensor l.slot h.one h.kind h.shape
    ∙ ap (λ (y : ExecTensor). ok y) (sym h.same)

pub bind_vector_post :
    (m : Gguf) (ctx : List ResidentTensor) (name : Bytes) (size : ℕ)
    → Post (bind_vector m ctx name size) (IsVector m ctx name size)
bind_vector_post m ctx name size =
    Post-of_ok _ (bind_vector m ctx name size) (bind_vector-IsVector m ctx name size)
