-- ===== src/Binder/Tensors.antt =====
-- What `bind_matrix` and `bind_vector` of src/q3_binder.c accept, and the descriptors they make.
use sera_c.Binder.Found.{FirstNamed, index_from-FirstNamed, FirstNamed-index_from}
use sera_c.Model.{dim_of}
use sera_c.Gguf.File.{Gguf, Tensor}
use sera_c.Binder.{
  loader_tensor, resident_at, find_index, bind_matrix, qtype_is_matmul, ResidentTensor, ExecTensor,
  BindError, tensor_missing, matrix_of,
}
use sera_c.Common.{
  ℕ, List, length, Bytes, get_elem?, ◌≤◌, ◌≡◌, Result, ◌⊎◌, some, none, ok, Bool-cases, leb, ◌∷◌,
  true, ◌↔◌, arith, u32_max, need, need-some, ◌%◌, false, inl, suc, bind_ok, inr, [], subst, ◌>>=◌,
  refl, sym, zero, ok_injective, ◌∙◌, ap, Post, Post-of_ok,
}

-- The first tensor of that name, and its slot in the table of resident tensors.
pub record Located (m : Gguf) (ctx : List ResidentTensor) (name : Bytes) : Type 0 where
  pub place : ℕ
  pub tensor : Tensor
  pub slot : ResidentTensor
  pub first : FirstNamed m.tensors name place tensor
  pub slot_at : get_elem? ctx place ≡ some slot
  pub live : slot.resident ≡ true
  pub device_pos : 1 ≤ slot.ptr

-- The descriptor of a weight: a Q4_K or Q6_K tensor with two dimensions, positive and below 2 ^ 32.
pub record IsMatrix (m : Gguf) (ctx : List ResidentTensor) (name : Bytes) (x : ExecTensor)
    : Type 0 where
  pub located : Located m ctx name
  pub two : located.tensor.ndim ≡ 2
  pub kind : (x.qtype ≡ 12) ⊎ (x.qtype ≡ 14)
  pub k_pos : 1 ≤ x.k
  pub n_pos : 1 ≤ x.n
  pub k_max : x.k ≤ u32_max
  pub n_max : x.n ≤ u32_max
  pub same : x ≡ record {
    index = located.place % 0x1_0000_0000;
    qtype = located.tensor.type;
    name = located.tensor.name_buf;
    device = located.slot.ptr;
    k = dim_of located.tensor 0;
    n = dim_of located.tensor 1;
    elements = located.tensor.elements % 0x1_0000_0000;
    is_1d = false;
    resident = true;
  }

-- The descriptor of a norm: an F32 tensor of one dimension, of the length that the layer needs.
pub record IsVector (m : Gguf) (ctx : List ResidentTensor) (name : Bytes) (size : ℕ)
    (x : ExecTensor) : Type 0 where
  pub located : Located m ctx name
  pub one : located.tensor.ndim ≡ 1
  pub kind : located.tensor.type ≡ 0
  pub shape : dim_of located.tensor 0 ≡ size
  pub same : x ≡ record {
    index = located.place % 0x1_0000_0000;
    qtype = 0;
    name = located.tensor.name_buf;
    device = located.slot.ptr;
    k = 0;
    n = 0;
    elements = size % 0x1_0000_0000;
    is_1d = true;
    resident = true;
  }

get_elem-none : (xs : List ResidentTensor) (i : ℕ) → length xs ≤ i → get_elem? xs i ≡ none
get_elem-none [] i h = refl
get_elem-none (x ∷ xs) zero h = let no : ⊥ = omega (arith, h) in elim no [ ]
get_elem-none (x ∷ xs) (suc i) h = get_elem-none xs i (omega (arith, h))

loader_tensor_lem : (ctx : List ResidentTensor) (i : ℕ) → loader_tensor ctx i ≡ get_elem? ctx i
unfolding loader_tensor
loader_tensor_lem ctx i = elim (Bool-cases (leb (length ctx) i)) [
  | inl out ↦ rw (out, get_elem-none ctx i (ground (arith, out))) refl
  | inr inside ↦ rw inside refl
]

pub resident_at-slot :
    (ctx : List ResidentTensor) (i : ℕ) (name : Bytes) (slot : ResidentTensor)
    → resident_at ctx i name ≡ ok slot
    → (get_elem? ctx i ≡ some slot) × (slot.resident ≡ true) × (1 ≤ slot.ptr)
unfolding resident_at
resident_at-slot ctx i name slot h = ground (arith, h, loader_tensor_lem ctx i)

slot-resident_at :
    (ctx : List ResidentTensor) (i : ℕ) (name : Bytes) (slot : ResidentTensor)
    → get_elem? ctx i ≡ some slot
    → slot.resident ≡ true
    → 1 ≤ slot.ptr
    → resident_at ctx i name ≡ ok slot
unfolding resident_at
slot-resident_at ctx i name slot e live pos =
    rw (loader_tensor_lem ctx i, e) (ground (arith, live, pos))

pub find_index-FirstNamed :
    (m : Gguf) (name : Bytes) (i : ℕ) (t : Tensor)
    → (find_index m name ≡ some (i, t)) ↔ FirstNamed m.tensors name i t
unfolding find_index
find_index-FirstNamed m name i t = (
  λ h.
      let (k, e, f) = index_from-FirstNamed m.tensors name 0 i t h in
      subst (λ (n : ℕ). FirstNamed m.tensors name n t) (sym (e ∙ omega arith)) f,
  λ f. FirstNamed-index_from m.tensors name 0 i t f ∙ ap (λ (n : ℕ). some (n, t)) (omega arith),
)

-- What the checks of `matrix_of` leave.
matrix_of-facts :
    (name : Bytes) (i : ℕ) (t : Tensor) (slot : ResidentTensor) (x : ExecTensor)
    → matrix_of name i t slot ≡ ok x
    → (t.ndim ≡ 2)
      × ((t.type ≡ 12) ⊎ (t.type ≡ 14))
      × (1 ≤ dim_of t 0)
      × (1 ≤ dim_of t 1)
      × (dim_of t 0 ≤ u32_max)
      × (dim_of t 1 ≤ u32_max)
unfolding matrix_of qtype_is_matmul
matrix_of-facts name i t slot x h = ground (arith, h)

-- The descriptor without the casts to 32 bits that change nothing.
abbrev matrix_at : ℕ → Tensor → ResidentTensor → ExecTensor
matrix_at i t slot = record {
  index = i % 0x1_0000_0000;
  qtype = t.type;
  name = t.name_buf;
  device = slot.ptr;
  k = dim_of t 0;
  n = dim_of t 1;
  elements = t.elements % 0x1_0000_0000;
  is_1d = false;
  resident = true;
}

matrix_of_pass :
    (name : Bytes) (i : ℕ) (t : Tensor) (slot : ResidentTensor)
    → t.ndim ≡ 2
    → (t.type ≡ 12) ⊎ (t.type ≡ 14)
    → 1 ≤ dim_of t 0
    → 1 ≤ dim_of t 1
    → dim_of t 0 ≤ u32_max
    → dim_of t 1 ≤ u32_max
    → matrix_of name i t slot ≡ ok (matrix_at i t slot)
unfolding matrix_of qtype_is_matmul
matrix_of_pass name i t slot two kind k_pos n_pos k_max n_max =
    let k_same : dim_of t 0 % 0x1_0000_0000 ≡ dim_of t 0 = omega (arith, k_max) in
    let n_same : dim_of t 1 % 0x1_0000_0000 ≡ dim_of t 1 = omega (arith, n_max) in
    rw (k_same, n_same) (ground (arith, two, kind, k_pos, n_pos, k_max, n_max))

pub bind_matrix-IsMatrix :
    (m : Gguf) (ctx : List ResidentTensor) (name : Bytes) (x : ExecTensor)
    → bind_matrix m ctx name ≡ ok x
    → IsMatrix m ctx name x
unfolding bind_matrix
bind_matrix-IsMatrix m ctx name x h =
    let (found, e0, h0) = need-some (find_index m name) (tensor_missing name) _ h in
    let i = found.0 in
    let t = found.1 in
    let (slot, e1, h1) = bind_ok (resident_at ctx i name) _ h0 in
    let s = resident_at-slot ctx i name slot e1 in
    let f = matrix_of-facts name i t slot x h1 in
    let same : matrix_at i t slot ≡ x =
      ok_injective _ _ (sym (matrix_of_pass name i t slot f.0 f.1 f.2 f.3 f.4 f.5) ∙ h1) in
    subst (IsMatrix m ctx name) same (record {
      located = record {
        place = i;
        tensor = t;
        slot = slot;
        first = (find_index-FirstNamed m name i t).0 e0;
        slot_at = s.0;
        live = s.1;
        device_pos = s.2;
      };
      two = f.0;
      kind = f.1;
      k_pos = f.2;
      n_pos = f.3;
      k_max = f.4;
      n_max = f.5;
      same = refl;
    })

pub Located-pass :
    {m : Gguf} {ctx : List ResidentTensor} {name : Bytes} (l : Located m ctx name)
    → (f : ℕ → Tensor → ResidentTensor → Result BindError ExecTensor)
    → (need (find_index m name) (tensor_missing name) >>= λ found.
        (resident_at ctx found.0 name >>= λ res. f found.0 found.1 res))
      ≡ f l.place l.tensor l.slot
Located-pass {m} {ctx} {name} l f =
    rw
      (
        (find_index-FirstNamed m name l.place l.tensor).1 l.first,
        slot-resident_at ctx l.place name l.slot l.slot_at l.live l.device_pos,
      )
      refl

pub IsMatrix-bind_matrix :
    (m : Gguf) (ctx : List ResidentTensor) (name : Bytes) (x : ExecTensor)
    → IsMatrix m ctx name x
    → bind_matrix m ctx name ≡ ok x
unfolding bind_matrix
IsMatrix-bind_matrix m ctx name x h =
    let l = h.located in
    let t = l.tensor in
    let k = ap (λ (y : ExecTensor). y.k) h.same in
    let n = ap (λ (y : ExecTensor). y.n) h.same in
    let type = ap (λ (y : ExecTensor). y.qtype) h.same in
    Located-pass l (matrix_of name)
    ∙ matrix_of_pass name l.place t l.slot h.two (ground (arith, type, h.kind))
        (omega (arith, k, h.k_pos)) (omega (arith, n, h.n_pos)) (omega (arith, k, h.k_max))
        (omega (arith, n, h.n_max))
    ∙ ap (λ (y : ExecTensor). ok y) (sym h.same)

pub bind_matrix_post :
    (m : Gguf) (ctx : List ResidentTensor) (name : Bytes)
    → Post (bind_matrix m ctx name) (IsMatrix m ctx name)
bind_matrix_post m ctx name =
    Post-of_ok _ (bind_matrix m ctx name) (bind_matrix-IsMatrix m ctx name)
