-- ===== src/Residency/Run.antt =====
-- Runs of `q3_model_residency_account_tensor`, src/q3_residency.c.
use sera_c.Residency.Valid.{IsResidency, residency_init-IsResidency, reserved}
use sera_c.Residency.Account.{account_tensor-Accounted, Accounted}
use sera_c.Residency.{Residency, account_tensor, residency_init, zero_residency}
use sera_c.Common.{
  ℕ, Bool, List, [], ◌∷◌, All, if◌then◌else◌, ◌≡◌, ◌≤◌, ◌+◌, u64_max, none, ◌%◌, arith, subst, refl,
}

pub record Request : Type 0 where
  pub bytes : ℕ
  pub ple : Bool
  pub expert_bank : ℕ

-- Calls that each returned true.
pub data Run : Residency → List Request → Residency → Type 0 where
  stop : {r : Residency} → Run r [] r
  next :
      {r r1 r2 : Residency} {q : Request} {qs : List Request}
      → account_tensor r q.bytes q.ple q.expert_bank ≡ (none, r1)
      → Run r1 qs r2
      → Run r (q ∷ qs) r2

pub ple_total : List Request → ℕ
ple_total [] = 0
ple_total (q ∷ qs) = (if q.ple then q.bytes else 0) + ple_total qs

pub resident_total : List Request → ℕ
resident_total [] = 0
resident_total (q ∷ qs) = (if q.ple then 0 else q.bytes) + resident_total qs

pub record Summed (r : Residency) (qs : List Request) (r' : Residency) : Type 0 where
  pub valid : IsResidency r'
  pub ple_bytes : r'.ple_bytes ≡ r.ple_bytes + ple_total qs
  pub non_ple_bytes : r'.non_ple_bytes ≡ r.non_ple_bytes + resident_total qs
  pub in_step : r'.aligned_bytes ≡ reserved r' % 0x1_0000_0000_0000_0000

Run-Summed :
    {r r' : Residency} {qs : List Request}
    → IsResidency r
    → r.aligned_bytes ≡ reserved r % 0x1_0000_0000_0000_0000
    → All (λ (q : Request). q.bytes ≤ u64_max) qs
    → Run r qs r'
    → Summed r qs r'
unfolding ple_total resident_total
Run-Summed {r} v k b stop = record {
  valid = v;
  ple_bytes = omega arith;
  non_ple_bytes = omega arith;
  in_step = k;
}
Run-Summed {r} v k b (next {q = q} e rest) =
    let a =
      subst (λ out. Accounted r q.bytes q.ple out) e
        (account_tensor-Accounted r q.bytes q.ple q.expert_bank v b.0) in
    let s = Run-Summed a.valid (a.in_step refl k) b.1 rest in
    record {
      valid = s.valid;
      ple_bytes = omega (arith, a.ple_bytes refl, s.ple_bytes);
      non_ple_bytes = omega (arith, a.non_ple_bytes refl, s.non_ple_bytes);
      in_step = s.in_step;
    }

-- Whatever `calloc` answered to `q3_model_residency_init`: after any run of calls that returned true,
-- `ple_bytes` and `non_ple_bytes` are the exact sums of the bytes accounted as excluded and as
-- resident, `aligned_bytes` is the sum of what the core arena and the expert banks have reserved (up
-- to 64 bits), and every arena is aligned, inside its capacity and counted in 32 bits.
pub init-Run-Summed :
    (room : Bool) (n : ℕ) (qs : List Request) {r : Residency}
    → All (λ (q : Request). q.bytes ≤ u64_max) qs
    → Run (residency_init room n).1 qs r
    → Summed zero_residency qs r
init-Run-Summed room n qs b run =
    let i = residency_init-IsResidency room n in
    let s = Run-Summed i.0 (omega (arith, i.1, i.2)) b run in
    record {
      valid = s.valid;
      ple_bytes = omega (arith, s.ple_bytes, i.3.0);
      non_ple_bytes = omega (arith, s.non_ple_bytes, i.3.1);
      in_step = s.in_step;
    }
