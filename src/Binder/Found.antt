-- ===== src/Binder/Found.antt =====
-- Which tensor `find_index` of src/q3_binder.c finds, and `find_tensor` of src/q3_model.c.
use sera_c.Model.{find_named}
use sera_c.Gguf.File.{Tensor}
use sera_c.Binder.{index_from}
use sera_c.Common.{
  ℕ, Bytes, List, bytes_eq, ◌≡◌, ◌≢◌, get_elem?, false, some, true, Bool-cases, All, ◌+◌,
  bytes_eq_iff, inl, ◌∷◌, take, inr, Option, suc, [], arith, zero, ap, sym, ◌∙◌, refl,
}

-- The tensor number `i` is the first of that name.
pub record FirstNamed (ts : List Tensor) (name : Bytes) (i : ℕ) (t : Tensor) : Type 0 where
  pub at : get_elem? ts i ≡ some t
  pub same : t.name ≡ name
  pub before : All (λ (u : Tensor). u.name ≢ name) (take i ts)

bytes_eq_same : (a b : Bytes) → a ≡ b → bytes_eq a b ≡ true
bytes_eq_same a b e = (bytes_eq_iff a b).1 e

bytes_eq_other : (a b : Bytes) → a ≢ b → bytes_eq a b ≡ false
bytes_eq_other a b h = elim (Bool-cases (bytes_eq a b)) [
  | inl same ↦ elim (h ((bytes_eq_iff a b).0 same)) [ ]
  | inr other ↦ other
]

other_bytes_eq : (a b : Bytes) → bytes_eq a b ≡ false → a ≢ b
other_bytes_eq a b h e = cc (h, bytes_eq_same a b e)

pub index_from-FirstNamed :
    (ts : List Tensor) (name : Bytes) (base i : ℕ) (t : Tensor)
    → index_from ts name base ≡ some (i, t)
    → (k : ℕ) × (i ≡ base + k) × FirstNamed ts name k t
unfolding index_from
index_from-FirstNamed [] name base i t h = cc
index_from-FirstNamed (u ∷ ts) name base i t h = elim (Bool-cases (bytes_eq u.name name)) [
  | inl same ↦
      let e : ◌≡◌ {A = Option (ℕ × Tensor)} (some (base, u)) (some (i, t)) = rw same at h in
      let first : base ≡ i = cc in
      let second : u ≡ t = cc in
      (
        0,
        omega (arith, first),
        record {
          at = ap some second;
          same = ap (λ (v : Tensor). v.name) (sym second) ∙ (bytes_eq_iff u.name name).0 same;
          before = tt;
        },
      )
  | inr other ↦
      let (k, e, first) = index_from-FirstNamed ts name (base + 1) i t (rw other at h) in
      (
        suc k,
        omega (arith, e),
        record {
          at = first.at;
          same = first.same;
          before = (other_bytes_eq u.name name other, first.before);
        },
      )
]

pub FirstNamed-index_from :
    (ts : List Tensor) (name : Bytes) (base k : ℕ) (t : Tensor)
    → FirstNamed ts name k t
    → index_from ts name base ≡ some (base + k, t)
unfolding index_from
FirstNamed-index_from [] name base k t f = cc (f.at)
FirstNamed-index_from (u ∷ ts) name base zero t f =
    let e : u ≡ t = cc (f.at) in
    rw (bytes_eq_same u.name name (ap (λ (v : Tensor). v.name) e ∙ f.same), e)
      (ap (λ (n : ℕ). some (n, t)) (omega arith))
FirstNamed-index_from (u ∷ ts) name base (suc k) t f =
    let rest =
      FirstNamed-index_from ts name (base + 1) k t
        (record { at = f.at; same = f.same; before = f.before.1 }) in
    rw (bytes_eq_other u.name name f.before.0, rest) (ap (λ (n : ℕ). some (n, t)) (omega arith))

-- Two names that differ are never found in the same place.
pub FirstNamed-apart :
    {ts : List Tensor} {a b : Bytes} {i j : ℕ} {t u : Tensor}
    → FirstNamed ts a i t
    → FirstNamed ts b j u
    → a ≢ b
    → i ≢ j
FirstNamed-apart f g h e = h (cc (f.at, f.same, g.at, g.same, e))

pub find_named-FirstNamed :
    (ts : List Tensor) (name : Bytes) (i : ℕ) (t : Tensor)
    → FirstNamed ts name i t
    → find_named ts name ≡ some t
unfolding find_named
find_named-FirstNamed [] name i t f = cc (f.at)
find_named-FirstNamed (u ∷ ts) name zero t f =
    let e : u ≡ t = cc (f.at) in
    rw (bytes_eq_same u.name name (ap (λ (v : Tensor). v.name) e ∙ f.same), e) refl
find_named-FirstNamed (u ∷ ts) name (suc i) t f =
    rw (bytes_eq_other u.name name f.before.0)
      (find_named-FirstNamed ts name i t (record { at = f.at; same = f.same; before = f.before.1 }))
