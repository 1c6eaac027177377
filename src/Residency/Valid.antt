-- ===== src/Residency/Valid.antt =====
-- What the operations of src/q3_residency.c keep of a residency, and its start.
use mathlib.Core.Option.{some-injective}
use sera_c.Residency.Reserve.{IsArena, arena_init-IsArena}
use sera_c.Residency.{Residency, residency_init, Arena, banks, set_elem}
use sera_c.Common.{
  ℕ, All, List, ◌+◌, Bool, ◌≡◌, length, ◌∷◌, get_elem?, suc, ◌≤◌, some, [], arith, u64_max, zero,
  refl, subst, ap,
}

abbrev pub used_sum : List Arena → ℕ
used_sum [] = 0
used_sum (x ∷ xs) = x.used + used_sum xs

-- The bytes reserved in all arenas.
abbrev pub reserved : Residency → ℕ
reserved r = r.core.used + used_sum r.expert_banks

pub record IsResidency (r : Residency) : Type 0 where
  pub core : IsArena r.core
  pub banks : All IsArena r.expert_banks
  pub count : length r.expert_banks ≡ r.expert_bank_count
  pub ple_max : r.ple_bytes ≤ u64_max
  pub non_ple_max : r.non_ple_bytes ≤ u64_max
  pub aligned_max : r.aligned_bytes ≤ u64_max

pub All-banks : (n : ℕ) → All IsArena (banks n) × (length (banks n) ≡ n) × (used_sum (banks n) ≡ 0)
All-banks zero = (tt, refl, refl)
All-banks (suc n) =
    let h = All-banks n in ((arena_init-IsArena, h.0), omega (arith, h.1), omega (arith, h.2))

pub residency_init-IsResidency :
    (room : Bool) (n : ℕ)
    → IsResidency (residency_init room n).1
      × (reserved (residency_init room n).1 ≡ 0)
      × ((residency_init room n).1.aligned_bytes ≡ 0)
      × (((residency_init room n).1.ple_bytes ≡ 0) × ((residency_init room n).1.non_ple_bytes ≡ 0))
unfolding residency_init
residency_init-IsResidency room n =
    let h = All-banks n in
    let i = arena_init-IsArena in
    (
      record {
        core = ground (arith, i);
        banks = ground (arith, h);
        count = ground (arith, h);
        ple_max = ground arith;
        non_ple_max = ground arith;
        aligned_max = ground arith;
      },
      ground (arith, h),
      ground arith,
      ground arith,
    )

-- An element replaced by another.
pub set_elem_lem :
    (xs : List Arena) (i : ℕ) (a b : Arena)
    → get_elem? xs i ≡ some b
    → All IsArena xs
    → IsArena b
      × (IsArena a → All IsArena (set_elem xs i a))
      × (length (set_elem xs i a) ≡ length xs)
      × (used_sum (set_elem xs i a) + b.used ≡ used_sum xs + a.used)
set_elem_lem [] i a b e h = ground arith
set_elem_lem (x ∷ xs) zero a b e h =
    let same : x ≡ b = some-injective x b e in
    (subst IsArena same h.0, λ k. (k, h.1), refl, omega (arith, ap (λ (y : Arena). y.used) same))
set_elem_lem (x ∷ xs) (suc i) a b e h =
    let r = set_elem_lem xs i a b e h.1 in
    (r.0, λ k. (h.0, r.1 k), omega (arith, r.2), omega (arith, r.3))
