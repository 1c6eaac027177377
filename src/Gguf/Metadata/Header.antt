-- ===== src/Gguf/Metadata/Header.antt =====
-- What `parse_metadata` of src/q3_gguf.c keeps of the structure, and where its cursors stand.
use sera_c.Gguf.Cursor.Bounds.{Extends, IsValid}
use sera_c.Gguf.Cursor.{Cursor}
use sera_c.Gguf.File.{Gguf, Kv}
use sera_c.Common.{ℕ, ◌∙◌, ◌≡◌, List, ap, All, sym, length, IsByte, ◌≤◌, arith, refl, ◌<◌, u32_max}

-- The mapping of a file: bytes, no more than an `off_t` counts.
pub record IsMapping (m : Gguf) : Type 0 where
  pub bytes : All IsByte m.map
  pub mapped : length m.map ≡ m.size
  pub fits : m.size < 0x8000_0000_0000_0000

-- The cursor reads the mapping of `m`.
pub record Reads (m : Gguf) (c : Cursor) : Type 0 where
  pub same_base : c.base ≡ m.map
  pub same_size : c.size ≡ m.size
  pub inside : c.pos ≤ m.size

pub Reads-IsValid : {m : Gguf} {c : Cursor} → IsMapping m → Reads m c → IsValid c
Reads-IsValid f r = record {
  mapped = ap length r.same_base ∙ f.mapped ∙ sym r.same_size;
  fits = omega arith;
  inside = omega arith;
}

pub Extends-Reads : {m : Gguf} {c d : Cursor} → Reads m c → Extends c d → Reads m d
Extends-Reads r e = record {
  same_base = e.same_base ∙ r.same_base;
  same_size = omega arith;
  inside = omega arith;
}

-- The entries of a container, and the alignment that they set.
pub record HasEntries (n : ℕ) (m : Gguf) : Type 0 where
  pub count : length m.kv ≡ n
  pub values : All (λ (kv : Kv). kv.value_pos < m.size) m.kv
  pub alignment_pos : 1 ≤ m.alignment
  pub alignment_max : m.alignment ≤ u32_max

-- The other fields of the structure, which the loop leaves alone.
pub record SameHeader (m m' : Gguf) : Type 0 where
  pub same_map : m'.map ≡ m.map
  pub same_size : m'.size ≡ m.size
  pub same_version : m'.version ≡ m.version
  pub same_n_kv : m'.n_kv ≡ m.n_kv
  pub same_n_tensors : m'.n_tensors ≡ m.n_tensors
  pub same_max : m'.max_tensor_bytes ≡ m.max_tensor_bytes

pub SameHeader_refl : (m : Gguf) → SameHeader m m
SameHeader_refl m = record {
  same_map = refl;
  same_size = refl;
  same_version = refl;
  same_n_kv = refl;
  same_n_tensors = refl;
  same_max = refl;
}

pub SameHeader_kv :
    (m : Gguf) (kv : List Kv) (a : ℕ) → SameHeader m (record m { kv = kv; alignment = a })
SameHeader_kv m kv a = record {
  same_map = refl;
  same_size = refl;
  same_version = refl;
  same_n_kv = refl;
  same_n_tensors = refl;
  same_max = refl;
}

pub SameHeader_trans : {a b c : Gguf} → SameHeader a b → SameHeader b c → SameHeader a c
SameHeader_trans p q = record {
  same_map = q.same_map ∙ p.same_map;
  same_size = q.same_size ∙ p.same_size;
  same_version = q.same_version ∙ p.same_version;
  same_n_kv = q.same_n_kv ∙ p.same_n_kv;
  same_n_tensors = q.same_n_tensors ∙ p.same_n_tensors;
  same_max = q.same_max ∙ p.same_max;
}

pub SameHeader_back : {a b : Gguf} → SameHeader a b → SameHeader b a
SameHeader_back p = record {
  same_map = sym p.same_map;
  same_size = sym p.same_size;
  same_version = sym p.same_version;
  same_n_kv = sym p.same_n_kv;
  same_n_tensors = sym p.same_n_tensors;
  same_max = sym p.same_max;
}

pub SameHeader-IsMapping : {m m' : Gguf} → IsMapping m → SameHeader m m' → IsMapping m'
SameHeader-IsMapping f h = record {
  bytes = rw h.same_map f.bytes;
  mapped = ap length h.same_map ∙ f.mapped ∙ sym h.same_size;
  fits = omega arith;
}

pub SameHeader-Reads : {m m' : Gguf} {c : Cursor} → SameHeader m m' → Reads m c → Reads m' c
SameHeader-Reads h r = record {
  same_base = r.same_base ∙ sym h.same_map;
  same_size = omega arith;
  inside = omega arith;
}
