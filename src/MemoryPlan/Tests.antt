-- ===== src/MemoryPlan/Tests.antt =====
-- The plan of a small container.
use sera_c.Gguf.Value.Encoding.{encode}
use sera_c.MemoryPlan.Opened.{memory_plan-gguf_open}
use sera_c.ResidencyPlan.Build.{Planned}
use sera_c.ResidencyPlan.{
  plan_build, Plan, collect, collect_tensor, sort_entries, insert_entry, compare_entries, spans_of,
  span_loop, joins, span_has_ple_between, ple_between, ranges_overlap, grow, start,
}
use sera_c.ResidencyPlan.Collect.{resident_entries}
use sera_c.MemoryPlan.{
  memory_plan, plan_exclude_none, max_gap_bytes, max_span_bytes, plan_validate, validate_entries,
  validate_spans, validate_within, validate_inside, validate_order,
}
use sera_c.Common.{◌≡◌, ok, arith, refl, ◌∷◌, [], le_bytes}
use sera_c.Gguf.Tests.{file, container, open_file, file-IsByte, room}

one_plan :
    memory_plan room container
    ≡ ok (record {
      entries =
          record { tensor_index = 0; file_offset = 256; bytes = 32; ownership_class = 1 } ∷ [];
      spans = record { file_offset = 256; bytes = 32; first_entry = 0; entry_count = 1 } ∷ [];
      resident_bytes = 32;
      excluded_ple_bytes = 0;
      excluded_ple_tensors = 0;
    })
unfolding memory_plan plan_build collect collect_tensor sort_entries insert_entry compare_entries
    spans_of span_loop joins span_has_ple_between ple_between ranges_overlap grow start
    plan_exclude_none plan_validate validate_entries validate_spans validate_within validate_inside
    validate_order
one_plan = refl

memory_plan-gguf_open_example :
    (plan : Plan) × (memory_plan room container ≡ ok plan)
    × Planned plan_exclude_none room container max_gap_bytes max_span_bytes plan
unfolding resident_entries plan_exclude_none le_bytes encode
memory_plan-gguf_open_example =
    memory_plan-gguf_open room file (λ n size. refl) file-IsByte (omega arith) open_file
      (omega arith) (tt, tt)
