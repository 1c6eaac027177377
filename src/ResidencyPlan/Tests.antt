-- ===== src/ResidencyPlan/Tests.antt =====
-- The model of tests/test_q3_residency_plan.c, and the planner's theorem at it.
use sera_c.ResidencyPlan.Build.{Planned, plan_build-Planned}
use sera_c.ResidencyPlan.{
  PlanEntry, Plan, plan_build, collect, collect_tensor, sort_entries, insert_entry, compare_entries,
  spans_of, span_loop, joins, span_has_ple_between, ple_between, ranges_overlap, grow, start,
}
use sera_c.Gguf.File.{Tensor, Gguf}
use sera_c.Common.{ℕ, Bytes, Post, Bool, [], bytes_eq, true, ◌∷◌, codes, arith, ◌≡◌, ok, refl}

abbrev sized : Bytes → ℕ → ℕ → Tensor
sized name offset bytes = record {
  name = name;
  name_buf = name;
  ndim = 0;
  dim = [];
  type = 0;
  rel_offset = 0;
  abs_offset = offset;
  elements = 0;
  bytes = bytes;
}

abbrev model : Gguf
model = record {
  map = [];
  size = 600;
  version = 3;
  n_kv = 0;
  n_tensors = 4;
  alignment = 32;
  tensor_data_pos = 0;
  max_tensor_bytes = 0;
  kv = [];
  tensors =
      sized (codes "blk.normal") 100 100
      ∷ sized (codes "blk.normal_2") 220 80
      ∷ sized (codes "ple") 310 90
      ∷ sized (codes "blk.normal_3") 430 70
      ∷ [];
}

abbrev named_ple : Tensor → Bool
named_ple t = bytes_eq t.name (codes "ple")

abbrev always : ℕ → ℕ → Bool
always n size = true

abbrev planned : ℕ → ℕ → ℕ → PlanEntry
planned i offset bytes = record {
  tensor_index = i;
  file_offset = offset;
  bytes = bytes;
  ownership_class = 1;
}

abbrev expected : Plan
expected = record {
  entries = planned 0 100 100 ∷ planned 1 220 80 ∷ planned 3 430 70 ∷ [];
  spans =
      record { file_offset = 100; bytes = 200; first_entry = 0; entry_count = 2 }
      ∷ record { file_offset = 430; bytes = 70; first_entry = 2; entry_count = 1 }
      ∷ [];
  resident_bytes = 250;
  excluded_ple_bytes = 90;
  excluded_ple_tensors = 1;
}

plan_build-model : plan_build named_ple always model 64 512 ≡ ok expected
unfolding plan_build collect collect_tensor sort_entries insert_entry compare_entries spans_of
    span_loop joins span_has_ple_between ple_between ranges_overlap grow start bytes_eq
plan_build-model = refl

plan_build-Planned_example :
    Post (plan_build named_ple always model 64 512) (Planned named_ple always model 64 512)
plan_build-Planned_example = plan_build-Planned named_ple always model 64 512 (omega arith)
