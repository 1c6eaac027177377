-- ===== src/MemoryPlan/Opened.antt =====
-- `cmd_memory_plan`, src/q3_main.c, on a model that `q3_gguf_open` returned.
use sera_c.MemoryPlan.Made.{memory_plan-Planned}
use sera_c.Gguf.Tensors.Places.{IsPlaced}
use sera_c.Gguf.Open.Sound.{gguf_open-IsContainer}
use sera_c.ResidencyPlan.Build.{Planned, resident_entries-IsPlanEntry}
use sera_c.MemoryPlan.{plan_exclude_none, memory_plan, max_gap_bytes, max_span_bytes}
use sera_c.ResidencyPlan.Spans.{IsPlanEntry}
use sera_c.Gguf.Open.{gguf_open}
use sera_c.ResidencyPlan.Sort.{sort_entries-IsAscending, All-sort_entries, total_bytes-sort_entries}
use sera_c.MemoryPlan.Validate.{Behind, Disjoint, IsAscending-Behind, sort_entries-Disjoint}
use sera_c.ResidencyPlan.{PlanEntry, sort_entries, entry_struct_bytes, Plan}
use sera_c.ResidencyPlan.Collect.{resident_entries, InFile, total_bytes}
use sera_c.Gguf.File.{Tensor, Gguf}
use sera_c.Common.{
  ℕ, List, Bool, Bytes, ◌≡◌, All, ◌≤◌, true, ◌+◌, u64_max, IsByte, ◌∷◌, arith, length, ◌<◌, [], ok,
  ◌/◌, All_map,
}

-- The entries end inside the file.
resident_entries-inside :
    (is_ple : Tensor → Bool) (m : Gguf) (i : ℕ) (ts : List Tensor)
    → All (InFile m) ts
    → All (λ e. e.file_offset + e.bytes ≤ m.size) (resident_entries is_ple i ts)
unfolding resident_entries
resident_entries-inside is_ple m i [] h = tt
resident_entries-inside is_ple m i (t ∷ ts) h =
    ground (arith, resident_entries-inside is_ple m (i + 1) ts h.1)

Behind-total :
    (start size : ℕ) (es : List PlanEntry)
    → Behind start es
    → All (λ e. e.file_offset + e.bytes ≤ size) es
    → start ≤ size
    → start + total_bytes es ≤ size
Behind-total start size [] h k l = omega arith
Behind-total start size (e ∷ es) h k l =
    omega (arith, h.0, Behind-total (e.file_offset + e.bytes) size es h.1 k.1 k.0)

-- Disjoint entries inside a file have no more bytes than the file.
Disjoint-total :
    (is_ple : Tensor → Bool) (m : Gguf)
    → m.size ≤ u64_max
    → All (InFile m) m.tensors
    → Disjoint (resident_entries is_ple 0 m.tensors)
    → total_bytes (resident_entries is_ple 0 m.tensors) ≤ m.size
Disjoint-total is_ple m small inside disjoint =
    let es = resident_entries is_ple 0 m.tensors in
    let behind =
      IsAscending-Behind (sort_entries es) (sort_entries-IsAscending es)
        (sort_entries-Disjoint es disjoint)
        (All-sort_entries IsPlanEntry es
          (resident_entries-IsPlanEntry is_ple m small 0 m.tensors inside)) in
    omega (
      arith,
      Behind-total 0 m.size (sort_entries es) behind
          (All-sort_entries (λ e. e.file_offset + e.bytes ≤ m.size) es
            (resident_entries-inside is_ple m 0 m.tensors inside))
          (omega arith),
      total_bytes-sort_entries es,
    )

-- Whenever `q3_gguf_open` returns a model of at most 2 ^ 64 / 32 tensors for a file that an `off_t`
-- counts, no two of the tensors share a byte, and memory is there: `cmd_memory_plan` makes a plan
-- of it that passes `plan_validate`, and the plan reads every tensor's bytes once, in the order of
-- the file, in spans inside its limits.
pub memory_plan-gguf_open :
    (calloc : ℕ → ℕ → Bool) (bs : Bytes) {m : Gguf}
    → ((n size : ℕ) → calloc n size ≡ true)
    → All IsByte bs
    → length bs < 0x8000_0000_0000_0000
    → gguf_open calloc bs ≡ ok m
    → m.n_tensors ≤ u64_max / entry_struct_bytes
    → Disjoint (resident_entries plan_exclude_none 0 m.tensors)
    → (plan : Plan) × (memory_plan calloc m ≡ ok plan)
      × Planned plan_exclude_none calloc m max_gap_bytes max_span_bytes plan
memory_plan-gguf_open calloc bs {m} memory bytes small opened number disjoint =
    let c = gguf_open-IsContainer calloc bs bytes small opened in
    let size : m.size ≤ u64_max = omega (arith, c.same_size) in
    let inside =
      All_map (IsPlaced m.tensor_data_pos m.size) (InFile m) (λ t p. p.inside) m.tensors
        c.tensors in
    memory_plan-Planned calloc m memory size number inside disjoint
      (omega (arith, Disjoint-total plan_exclude_none m size inside disjoint))
