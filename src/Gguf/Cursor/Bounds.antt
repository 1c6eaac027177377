-- ===== src/Gguf/Cursor/Bounds.antt =====
-- No read of src/q3_gguf.c leaves the mapping, and a cursor only moves forward.
use sera_c.Common.{
  ℕ, ◌+◌, ◌≤◌, ◌≡◌, ◌↔◌, refl, sym, ap, ◌∙◌, true, Bytes, length, length-take, length-drop, drop,
  arith, u64_max, Post, le_value,
}
use sera_c.Gguf.Cursor.{
  Cursor, cursor_has, cursor_read, cursor_skip, cursor_u32, cursor_u64, cursor_string, slice,
  advance,
}

-- The cursor stands in a mapping of `size` bytes.
pub record IsValid (c : Cursor) : Type 0 where
  pub mapped : length c.base ≡ c.size
  pub fits : c.size ≤ u64_max
  pub inside : c.pos ≤ c.size

-- `d` is a later position over the mapping of `c`.
pub record Extends (c d : Cursor) : Type 0 where
  pub same_base : d.base ≡ c.base
  pub same_size : d.size ≡ c.size
  pub forward : c.pos ≤ d.pos
  pub within : d.pos ≤ c.size

pub Extends-refl : (c : Cursor) → IsValid c → Extends c c
Extends-refl c v = record {
  same_base = refl;
  same_size = refl;
  forward = omega arith;
  within = v.inside;
}

pub Extends-trans : {c d e : Cursor} → Extends c d → Extends d e → Extends c e
Extends-trans p q = record {
  same_base = q.same_base ∙ p.same_base;
  same_size = omega arith;
  forward = omega arith;
  within = omega arith;
}

pub Extends-IsValid : {c d : Cursor} → IsValid c → Extends c d → IsValid d
Extends-IsValid v p = record {
  mapped = ap length p.same_base ∙ v.mapped ∙ sym p.same_size;
  fits = omega arith;
  inside = omega arith;
}

pub length-slice : (c : Cursor) (n : ℕ) → c.pos + n ≤ length c.base → length (slice c n) ≡ n
length-slice c n h = omega (arith, length-take n (drop c.pos c.base), length-drop c.pos c.base)

-- The overflow-safe test is the plain one.
pub cursor_has_iff :
    (c : Cursor) (n : ℕ) → IsValid c → (cursor_has c n ≡ true) ↔ (c.pos + n ≤ c.size)
unfolding cursor_has
cursor_has_iff c n v = ground arith

-- What a read of `n` bytes gives: the bytes, and the cursor behind them.
pub record TookBytes (c : Cursor) (n : ℕ) (r : Bytes × Cursor) : Type 0 where
  pub contents : r.0 ≡ slice c n
  pub size : length r.0 ≡ n
  pub moved : r.1.pos ≡ c.pos + n
  pub extends : Extends c r.1

pub cursor_read-TookBytes :
    (c : Cursor) (n : ℕ) → IsValid c → Post (cursor_read c n) (TookBytes c n)
unfolding cursor_read cursor_has
cursor_read-TookBytes c n v = ground (arith, length-slice c n)

pub cursor_skip-Extends : (c : Cursor) (n : ℕ) → IsValid c → Post (cursor_skip c n) (Extends c)
unfolding cursor_skip cursor_has
cursor_skip-Extends c n v = ground arith

-- What reading a number gives.
pub record TookWord (c : Cursor) (n : ℕ) (r : ℕ × Cursor) : Type 0 where
  pub number : r.0 ≡ le_value (slice c n)
  pub moved : r.1.pos ≡ c.pos + n
  pub extends : Extends c r.1

pub cursor_u32-TookWord : (c : Cursor) → IsValid c → Post (cursor_u32 c) (TookWord c 4)
unfolding cursor_u32 cursor_read cursor_has
cursor_u32-TookWord c v = ground arith

pub cursor_u64-TookWord : (c : Cursor) → IsValid c → Post (cursor_u64 c) (TookWord c 8)
unfolding cursor_u64 cursor_read cursor_has
cursor_u64-TookWord c v = ground arith

-- What reading a string gives: as many bytes as the word before them says.
pub record TookString (c : Cursor) (r : Bytes × Cursor) : Type 0 where
  pub size : length r.0 ≡ le_value (slice c 8)
  pub moved : r.1.pos ≡ c.pos + 8 + length r.0
  pub extends : Extends c r.1

pub cursor_string-TookString : (c : Cursor) → IsValid c → Post (cursor_string c) (TookString c)
unfolding cursor_string cursor_u64 cursor_read cursor_has
cursor_string-TookString c v = ground (arith, length-slice (advance c 8) (le_value (slice c 8)))
