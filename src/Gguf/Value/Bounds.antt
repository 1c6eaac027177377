-- ===== src/Gguf/Value/Bounds.antt =====
-- `skip_value` of src/q3_gguf.c stays in the mapping, and passes a byte at least.
use sera_c.Common.{
  ℕ, zero, suc, ◌+◌, ◌≤◌, Bytes, arith, Post, Post-bind, Post_map, mul64, Bool-cases, inl, inr,
  ◌==◌, ok, ◌-◌,
}
use sera_c.Gguf.Cursor.{Cursor, R, cursor_has, cursor_skip, cursor_u32, cursor_u64, cursor_string}
use sera_c.Gguf.Cursor.Bounds.{
  IsValid, Extends, Extends-refl, Extends-trans, Extends-IsValid, TookWord, TookString,
  cursor_u32-TookWord, cursor_u64-TookWord, cursor_string-TookString,
}
use sera_c.Gguf.Types.{scalar_value_size}
use sera_c.Gguf.Value.{skip_items, skip_array, skip_within, skip_value}

-- From `c` to `d` over `n` bytes at least.
pub record Passes (n : ℕ) (c d : Cursor) : Type 0 where
  pub extends : Extends c d
  pub taken : c.pos + n ≤ d.pos

pub Passes-refl : (c : Cursor) → IsValid c → Passes 0 c c
Passes-refl c v = record { extends = Extends-refl c v; taken = omega arith }

pub Passes-trans :
    {c d e : Cursor} {m n : ℕ} (k : ℕ) → k ≤ m + n → Passes m c d → Passes n d e → Passes k c e
Passes-trans k h p q = record { extends = Extends-trans p.extends q.extends; taken = omega arith }

pub Passes-IsValid : {c d : Cursor} {n : ℕ} → IsValid c → Passes n c d → IsValid d
Passes-IsValid v p = Extends-IsValid v p.extends

pub TookWord-Passes : {c : Cursor} {n : ℕ} {r : ℕ × Cursor} → TookWord c n r → Passes n c r.1
TookWord-Passes p = record { extends = p.extends; taken = omega arith }

pub TookString-Passes : {c : Cursor} {r : Bytes × Cursor} → TookString c r → Passes 8 c r.1
TookString-Passes p = record { extends = p.extends; taken = omega arith }

pub cursor_skip-Passes : (c : Cursor) (n : ℕ) → IsValid c → Post (cursor_skip c n) (Passes n c)
unfolding cursor_skip cursor_has
cursor_skip-Passes c n v = ground arith

abbrev Skips : (Cursor → R Cursor) → Type 0
Skips f = (c : Cursor) → IsValid c → Post (f c) (Passes 1 c)

-- Each item takes a byte at least, so a loop that ends well has run at most once for each byte.
skip_items-Passes :
    (item : Cursor → R Cursor)
    → Skips item
    → (n : ℕ) (c : Cursor) → IsValid c
    → Post (skip_items item n c) (Passes n c)
unfolding skip_items
skip_items-Passes item skips zero c v = Passes-refl c v
skip_items-Passes item skips (suc n) c v =
    Post-bind (Passes 1 c) (Passes (suc n) c) (item c) (skip_items item n) (skips c v) λ d p.
      Post_map (Passes n d) (Passes (suc n) c) (skip_items item n d)
        (λ e. Passes-trans (suc n) (omega arith) p)
        (skip_items-Passes item skips n d (Passes-IsValid v p))

skip_array-Passes :
    (item : ℕ → Cursor → R Cursor)
    → ((type : ℕ) → Skips (item type))
    → (c : Cursor) → IsValid c
    → Post (skip_array item c) (Passes 12 c)
unfolding skip_array
skip_array-Passes item skips c v =
    Post-bind (TookWord c 4) (Passes 12 c) (cursor_u32 c) _ (cursor_u32-TookWord c v) λ r p.
      Post-bind (TookWord r.1 8) (Passes 12 c) (cursor_u64 r.1) _
        (cursor_u64-TookWord r.1 (Extends-IsValid v p.extends))
        λ s q.
          let head = Passes-trans 12 (omega arith) (TookWord-Passes p) (TookWord-Passes q) in
          let w = Passes-IsValid v head in
          let scalars = λ (n : ℕ).
            Post_map (Passes n s.1) (Passes 12 c) (cursor_skip s.1 n)
              (λ e. Passes-trans 12 (omega arith) head) (cursor_skip-Passes s.1 n w) in
          let items =
            Post_map (Passes s.0 s.1) (Passes 12 c) (skip_items (item r.0) s.0 s.1)
              (λ e. Passes-trans 12 (omega arith) head)
              (skip_items-Passes (item r.0) (skips r.0) s.0 s.1 w) in
          ground (arith, scalars (mul64 s.0 (scalar_value_size r.0)), items)

skip_within-Passes :
    (left type : ℕ) (c : Cursor) → IsValid c → Post (skip_within left type c) (Passes 1 c)
unfolding skip_within
skip_within-Passes zero type c v = tt
skip_within-Passes (suc left) type c v =
    let string =
      Post-bind (TookString c) (Passes 1 c) (cursor_string c) (λ r. ok r.1)
        (cursor_string-TookString c v)
        (λ r p.
          Passes-trans 1 (omega arith) (TookString-Passes p)
            (Passes-refl r.1 (Extends-IsValid v p.extends))) in
    let array =
      Post_map (Passes 12 c) (Passes 1 c) (skip_array (skip_within left) c)
        (λ d p. Passes-trans 1 (omega arith) p (Passes-refl d (Passes-IsValid v p)))
        (skip_array-Passes (skip_within left) (skip_within-Passes left) c v) in
    elim (Bool-cases (scalar_value_size type == 0)) [
      | inl other ↦ rw other (ground (arith, string, array))
      | inr scalar ↦ rw scalar (
          Post_map (Passes (scalar_value_size type) c) (Passes 1 c)
            (cursor_skip c (scalar_value_size type))
            (λ d p. Passes-trans 1 (ground arith) p (Passes-refl d (Passes-IsValid v p)))
            (cursor_skip-Passes c (scalar_value_size type) v))
    ]

-- On a valid cursor, and at any depth, a successful `skip_value` moves the cursor forward by a
-- byte at least, and leaves it inside the same mapping.
pub skip_value-Passes :
    (c : Cursor) (type depth : ℕ) → IsValid c → Post (skip_value c type depth) (Passes 1 c)
unfolding skip_value
skip_value-Passes c type depth v = skip_within-Passes (9 - depth) type c v
