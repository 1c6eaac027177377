-- ===== src/Gguf/Cursor/Words.antt =====
-- The numbers that a cursor of src/q3_gguf.c reads from bytes fit their machine type.
use sera_c.Common.{
  ℕ, ◌+◌, ◌%◌, ◌≤◌, ◌<◌, ◌≡◌, IsByte, All, All-take, All-drop, drop, le_value-lt, Post, Post-bind,
  u32_max, u64_max, arith, ◌-◌,
}
use sera_c.Gguf.Cursor.{Cursor, slice, cursor_read, cursor_u32, align_up}
use sera_c.Gguf.Cursor.Bounds.{IsValid, TookBytes, cursor_read-TookBytes}

slice-IsByte : (c : Cursor) (n : ℕ) → All IsByte c.base → All IsByte (slice c n)
slice-IsByte c n h = All-take IsByte n (drop c.pos c.base) (All-drop IsByte c.pos c.base h)

pub cursor_u32-le :
    (c : Cursor) → IsValid c → All IsByte c.base → Post (cursor_u32 c) (λ r. r.0 ≤ u32_max)
unfolding cursor_u32
cursor_u32-le c v h =
    Post-bind (TookBytes c 4) (λ (r : ℕ × Cursor). r.0 ≤ u32_max) (cursor_read c 4) _
      (cursor_read-TookBytes c 4 v)
      λ r p.
        let bytes : All IsByte r.0 = rw p.contents (slice-IsByte c 4 h) in
        let small = rw p.size at (le_value-lt r.0 bytes) in omega arith

rounded :
    (value alignment : ℕ) → 1 ≤ alignment → (value + alignment - value % alignment) % alignment ≡ 0
rounded value alignment h = grind arith

-- `align_up` gives the least multiple of the alignment that is not below the value, where the sum
-- does not wrap.
pub align_up_lem :
    (value alignment : ℕ)
    → 1 ≤ alignment
    → value + alignment ≤ u64_max
    → (value ≤ align_up value alignment)
      × (align_up value alignment < value + alignment)
      × (align_up value alignment % alignment ≡ 0)
unfolding align_up
align_up_lem value alignment h fits = ground (arith, rounded value alignment h)
