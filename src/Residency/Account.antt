-- ===== src/Residency/Account.antt =====
-- `q3_model_residency_account_tensor`, src/q3_residency.c: what one call and a run of calls keep.
use sera_c.Residency.Valid.{IsResidency, reserved, set_elem_lem}
use sera_c.Residency.Reserve.{arena_reserve-Reserved}
use sera_c.Residency.{
  account_core, account_tensor, Residency, account_bank, count_resident, Arena, ResidencyError,
  align_up_u64, arena_reserve, bank_range,
}
use sera_c.Common.{
  ℕ, ◌≤◌, ◌+◌, Option, Bool, ◌≡◌, u64_max, get_elem?, false, some, none, arith, if◌then◌else◌, ◌%◌,
  ◌≢◌, ◌∙◌, refl, true, Bool-cases, ◌==◌, u32_max, inl, inr, leb,
}

-- A residency behind a call that accounts `bytes`, excluded (`ple`) or resident.
pub record Accounted (r : Residency) (bytes : ℕ) (ple : Bool)
    (out : Option ResidencyError × Residency) : Type 0 where
  pub valid : IsResidency out.1
  pub table : out.1.expert_bank_count ≡ r.expert_bank_count
  pub ple_bytes : out.0 ≡ none → out.1.ple_bytes ≡ r.ple_bytes + (if ple then bytes else 0)
  pub non_ple_bytes :
      out.0 ≡ none → out.1.non_ple_bytes ≡ r.non_ple_bytes + (if ple then 0 else bytes)
  pub in_step :
      out.0 ≡ none
      → r.aligned_bytes ≡ reserved r % 0x1_0000_0000_0000_0000
      → out.1.aligned_bytes ≡ reserved out.1 % 0x1_0000_0000_0000_0000
  pub refused :
      out.0 ≢ none
      → (out.1.ple_bytes ≡ r.ple_bytes)
        × (out.1.non_ple_bytes ≡ r.non_ple_bytes)
        × (out.1.aligned_bytes ≡ r.aligned_bytes)

-- The state between the reservation and the counters.
record Placed (r : Residency) (bytes : ℕ) (e : Option ResidencyError) (r1 : Residency)
    : Type 0 where
  valid : IsResidency r1
  table : r1.expert_bank_count ≡ r.expert_bank_count
  ple_bytes : r1.ple_bytes ≡ r.ple_bytes
  non_ple_bytes : r1.non_ple_bytes ≡ r.non_ple_bytes
  aligned_bytes : r1.aligned_bytes ≡ r.aligned_bytes
  grown : e ≡ none → reserved r1 ≡ reserved r + align_up_u64 bytes 256

count_resident-Accounted :
    (r : Residency) (bytes : ℕ) (e : Option ResidencyError) (r1 : Residency)
    → bytes ≤ u64_max
    → Placed r bytes e r1
    → Accounted r bytes false (count_resident r1 bytes e)
unfolding count_resident
count_resident-Accounted r bytes (some x) r1 k p = record {
  valid = p.valid;
  table = p.table;
  ple_bytes = ground arith;
  non_ple_bytes = ground arith;
  in_step = ground arith;
  refused = λ n. (p.ple_bytes, p.non_ple_bytes, p.aligned_bytes);
}
count_resident-Accounted r bytes none r1 k p =
    let g = p.grown refl in
    let v = p.valid in
    record {
      valid = record {
        core = ground (arith, v);
        banks = ground (arith, v);
        count = ground (arith, v);
        ple_max = ground (arith, v);
        non_ple_max = ground (arith, v);
        aligned_max = ground (arith, v);
      };
      table = ground (arith, p);
      ple_bytes = ground (arith, p);
      non_ple_bytes = ground (arith, p);
      in_step = ground (arith, p, g);
      refused = ground (arith, p);
    }

account_core-Accounted :
    (r : Residency) (bytes : ℕ)
    → IsResidency r
    → bytes ≤ u64_max
    → Accounted r bytes false (account_core r bytes)
unfolding account_core
account_core-Accounted r bytes v k =
    let s = arena_reserve-Reserved r.core bytes v.core k in
    count_resident-Accounted r bytes _ _ k (record {
      valid = record {
        core = s.valid;
        banks = v.banks;
        count = v.count;
        ple_max = v.ple_max;
        non_ple_max = v.non_ple_max;
        aligned_max = v.aligned_max;
      };
      table = refl;
      ple_bytes = refl;
      non_ple_bytes = refl;
      aligned_bytes = refl;
      grown = λ n. omega (arith, s.exact n);
    })

refused-Accounted :
    (r : Residency) (bytes : ℕ) (e : ResidencyError)
    → IsResidency r
    → Accounted r bytes false (some e, r)
refused-Accounted r bytes e v = record {
  valid = v;
  table = refl;
  ple_bytes = ground arith;
  non_ple_bytes = ground arith;
  in_step = ground arith;
  refused = λ n. (refl, refl, refl);
}

account_bank-Accounted :
    (r : Residency) (bytes i : ℕ) (bank : Option Arena)
    → IsResidency r
    → bytes ≤ u64_max
    → get_elem? r.expert_banks i ≡ bank
    → Accounted r bytes false (account_bank r bytes i bank)
unfolding account_bank
account_bank-Accounted r bytes i none v k e = refused-Accounted r bytes bank_range v
account_bank-Accounted r bytes i (some b) v k e =
    let out = arena_reserve b bytes in
    let l = set_elem_lem r.expert_banks i out.1 b e v.banks in
    let s = arena_reserve-Reserved b bytes l.0 k in
    count_resident-Accounted r bytes _ _ k (record {
      valid = record {
        core = v.core;
        banks = l.1 s.valid;
        count = l.2 ∙ v.count;
        ple_max = v.ple_max;
        non_ple_max = v.non_ple_max;
        aligned_max = v.aligned_max;
      };
      table = refl;
      ple_bytes = refl;
      non_ple_bytes = refl;
      aligned_bytes = refl;
      grown = λ n. omega (arith, s.exact n, l.3);
    })

account_ple-Accounted :
    (r : Residency) (bytes expert_bank : ℕ)
    → IsResidency r
    → bytes ≤ u64_max
    → Accounted r bytes true (account_tensor r bytes true expert_bank)
unfolding account_tensor
account_ple-Accounted r bytes bank v k = record {
  valid = record {
    core = ground (arith, v);
    banks = ground (arith, v);
    count = ground (arith, v);
    ple_max = ground (arith, v);
    non_ple_max = ground (arith, v);
    aligned_max = ground (arith, v);
  };
  table = ground arith;
  ple_bytes = ground (arith, v);
  non_ple_bytes = ground (arith, v);
  in_step = ground (arith, v);
  refused = ground (arith, v);
}

-- On a well-formed residency and a 64-bit count, on every branch of
-- `q3_model_residency_account_tensor`: the residency stays well-formed with the same table of banks;
-- on success the bytes are added, without overflow, to exactly one of `ple_bytes` and
-- `non_ple_bytes`, and `aligned_bytes` stays the sum of what the arenas have reserved if it was
-- that; on failure none of the three counters changes.
pub account_tensor-Accounted :
    (r : Residency) (bytes : ℕ) (ple : Bool) (expert_bank : ℕ)
    → IsResidency r
    → bytes ≤ u64_max
    → Accounted r bytes ple (account_tensor r bytes ple expert_bank)
unfolding account_tensor
account_tensor-Accounted r bytes true bank v k = account_ple-Accounted r bytes bank v k
account_tensor-Accounted r bytes false bank v k = elim (Bool-cases (bank == u32_max)) [
  | inl t ↦ rw t (account_core-Accounted r bytes v k)
  | inr f ↦ rw f (elim (Bool-cases (leb r.expert_bank_count bank)) [
    | inl t ↦ rw t (refused-Accounted r bytes bank_range v)
    | inr g ↦ rw g (account_bank-Accounted r bytes bank (get_elem? r.expert_banks bank) v k refl)
  ])
]
