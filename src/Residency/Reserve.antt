-- ===== src/Residency/Reserve.antt =====
-- `q3_resident_arena_reserve`, src/q3_residency.c, on every branch.
use sera_c.Residency.{
  align_up_u64, Arena, arena_reserve, arena_init, ResidencyError, count_overflow,
}
use sera_c.Common.{
  ℕ, ◌%◌, arith, Option, ◌+◌, ◌≤◌, u64_max, ◌≡◌, none, ◌<◌, u32_max, ◌⊎◌, ◌↔◌, ◌≢◌, some,
}

-- What every operation keeps of an arena.
pub record IsArena (a : Arena) : Type 0 where
  pub aligned : a.used % 256 ≡ 0
  pub within : a.used ≤ a.capacity
  pub capacity_aligned : a.capacity % 256 ≡ 0
  pub capacity_max : a.capacity ≤ u64_max
  pub count_max : a.tensor_count ≤ u32_max

pub arena_init-IsArena : IsArena arena_init
arena_init-IsArena = record {
  aligned = omega arith;
  within = omega arith;
  capacity_aligned = omega arith;
  capacity_max = omega arith;
  count_max = omega arith;
}

pub align_256 :
    (v : ℕ)
    → (v + 255 ≤ u64_max
        × (v ≤ align_up_u64 v 256)
        × (align_up_u64 v 256 < v + 256)
        × (align_up_u64 v 256 % 256 ≡ 0))
      ⊎ (u64_max < v + 255 × align_up_u64 v 256 ≡ u64_max)
unfolding align_up_u64
align_256 v = ground arith

-- An arena behind a call of `q3_resident_arena_reserve`.
pub record Reserved (a : Arena) (bytes : ℕ) (out : Option ResidencyError × Arena) : Type 0 where
  pub valid : IsArena out.1
  pub grows : a.used ≤ out.1.used
  pub succeeds : (out.0 ≡ none) ↔ (a.used + bytes + 255 ≤ u64_max × a.tensor_count < u32_max)
  pub room :
      out.0 ≡ none
      → a.used + bytes ≤ out.1.used
        × out.1.used < a.used + bytes + 256
        × out.1.tensor_count ≡ a.tensor_count + 1
  pub exact : out.0 ≡ none → out.1.used ≡ a.used + align_up_u64 bytes 256
  pub unchanged : out.0 ≢ none → out.0 ≢ some count_overflow → out.1 ≡ a

-- On a valid arena and a 64-bit count, whatever `q3_resident_arena_reserve` returns: the arena stays
-- valid (aligned, inside its capacity, counted in 32 bits) and `used` never falls; the call succeeds
-- if and only if the rounding of the sum does not pass 64 bits and the count has room; on success
-- the reserved bytes lie below the new `used`, less than 256 bytes below it, `used` grows by exactly
-- the rounded count, and one tensor is counted; on any failure but that of the tensor count the
-- arena is unchanged.
pub arena_reserve-Reserved :
    (a : Arena) (bytes : ℕ) → IsArena a → bytes ≤ u64_max → Reserved a bytes (arena_reserve a bytes)
unfolding arena_reserve
arena_reserve-Reserved a bytes h k =
    let sum = align_256 (a.used + bytes) in
    let one = align_256 bytes in
    record {
      valid = record {
        aligned = ground (arith, sum, h);
        within = ground (arith, sum, h);
        capacity_aligned = ground (arith, sum, h);
        capacity_max = ground (arith, sum, h);
        count_max = ground (arith, sum, h);
      };
      grows = ground (arith, sum, h);
      succeeds = ground (arith, sum, h);
      room = ground (arith, sum, h);
      exact = ground (arith, sum, one, h);
      unchanged = ground (arith, sum, h);
    }
