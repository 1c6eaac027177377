-- ===== src/Residency/Tests.antt =====
-- Accounting of a few tensors.
use sera_c.Residency.Account.{Accounted, account_tensor-Accounted}
use sera_c.Residency.{
  Arena, Residency, residency_init, arena_reserve, zero_residency, account_tensor, account_core,
  account_bank, count_resident, align_up_u64,
}
use sera_c.Residency.Run.{Summed, Request, init-Run-Summed, Run, next, stop}
use sera_c.Residency.Reserve.{Reserved, arena_reserve-Reserved, arena_init-IsArena}
use sera_c.Common.{ℕ, List, ◌∷◌, [], false, arith, true, refl}

abbrev requests : List Request
requests =
    record { bytes = 1000; ple = false; expert_bank = 0xffff_ffff }
    ∷ record { bytes = 300; ple = true; expert_bank = 0 }
    ∷ record { bytes = 256; ple = false; expert_bank = 1 }
    ∷ []

abbrev arena : ℕ → ℕ → Arena
arena used tensor_count = record {
  base = 0;
  capacity = used;
  used = used;
  tensor_count = tensor_count;
}

abbrev accounted : Residency
accounted = record {
  core = arena 1024 1;
  expert_banks = arena 0 0 ∷ arena 256 1 ∷ [];
  expert_bank_count = 2;
  non_ple_bytes = 1256;
  ple_bytes = 300;
  aligned_bytes = 1280;
}

Run-requests : Run (residency_init true 2).1 requests accounted
unfolding residency_init account_tensor account_core account_bank count_resident arena_reserve
    align_up_u64
Run-requests = next refl (next refl (next refl stop))

init-Run-Summed_example : Summed zero_residency requests accounted
init-Run-Summed_example = init-Run-Summed true 2 requests (omega arith) Run-requests

arena_reserve-Reserved_example : Reserved (arena 1024 1) 1000 (arena_reserve (arena 1024 1) 1000)
arena_reserve-Reserved_example =
    arena_reserve-Reserved (arena 1024 1) 1000
      (record {
        aligned = omega arith;
        within = omega arith;
        capacity_aligned = omega arith;
        capacity_max = omega arith;
        count_max = omega arith;
      })
      (omega arith)

account_tensor-Accounted_example :
    Accounted zero_residency 1000 false (account_tensor zero_residency 1000 false 5)
account_tensor-Accounted_example =
    account_tensor-Accounted zero_residency 1000 false 5
      (record {
        core = arena_init-IsArena;
        banks = tt;
        count = refl;
        ple_max = omega arith;
        non_ple_max = omega arith;
        aligned_max = omega arith;
      })
      (omega arith)
