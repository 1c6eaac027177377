-- ===== src/ResidencyPlan/Build.antt =====
-- `q3_residency_plan_build`, src/q3_residency_plan.c: what a plan is to the tensors of its model, and
-- when one is made.
use sera_c.ResidencyPlan.Spans.{Grouped, spans_of-Grouped, IsPlanEntry}
use sera_c.ResidencyPlan.Sort.{
  IsAscending, All-sort_entries, sort_entries-Perm, sort_entries-IsAscending,
  total_bytes-sort_entries,
}
use sera_c.ResidencyPlan.{
  Plan, plan_build, sort_entries, spans_of, empty_plan, collect, span_struct_bytes, spans_failed,
  collect_tensor, entry_struct_bytes,
}
use sera_c.Gguf.File.{Tensor, Gguf}
use sera_c.ResidencyPlan.Collect.{
  resident_entries, Collected, total_bytes, excluded_total, InFile, collect-Collected,
  resident_entries_cons, total_bytes-append,
}
use sera_c.Common.{
  ℕ, Bool, ◌≤◌, u64_max, All, Post, Post-bind, ◌≡◌, subst, require, length, add64, ◌==◌, arith,
  ◌||◌, ap, ◌>>◌, ok, All_map, List, Post-require, ◌∷◌, ◌+◌, [], Returns, ◌≢◌, true, ◌∙◌, ◌/◌,
  Returns-bind, if◌then◌else◌,
}
use mathlib.Core.List.{Perm}

pub resident_entries-IsPlanEntry :
    (is_ple : Tensor → Bool) (m : Gguf)
    → m.size ≤ u64_max
    → (i : ℕ) (ts : List Tensor) → All (InFile m) ts
    → All IsPlanEntry (resident_entries is_ple i ts)
unfolding resident_entries
resident_entries-IsPlanEntry is_ple m small i [] h = tt
resident_entries-IsPlanEntry is_ple m small i (t ∷ ts) h =
    ground (arith, resident_entries-IsPlanEntry is_ple m small (i + 1) ts h.1)

module _ (is_ple : Tensor → Bool) (calloc : ℕ → ℕ → Bool) (m : Gguf) (gap most : ℕ) where
  -- The entries are the resident tensors' in the order of the file, the sums are exact (the excluded
  -- tensors' up to 64 bits), every tensor has its bytes in the file, and the spans read each entry.
  pub record Planned (plan : Plan) : Type 0 where
    pub entries : Perm plan.entries (resident_entries is_ple 0 m.tensors)
    pub sorted : plan.entries ≡ sort_entries (resident_entries is_ple 0 m.tensors)
    pub ascending : IsAscending plan.entries
    pub are_entries : All IsPlanEntry plan.entries
    pub resident : plan.resident_bytes ≡ total_bytes plan.entries
    pub resident_max : plan.resident_bytes ≤ u64_max
    pub excluded : plan.excluded_ple_bytes ≡ add64 0 (excluded_total is_ple m.tensors)
    pub inside : All (InFile m) m.tensors
    pub spans : Grouped is_ple m gap most 0 plan.entries plan.spans

  -- The plan that a run of the first loop ends in.
  finished : Plan → Plan
  finished plan =
      let entries = sort_entries plan.entries in
      record plan { entries = entries; spans = spans_of is_ple m gap most entries }

  finished-Planned :
      (small : m.size ≤ u64_max) (plan : Plan)
      → Collected is_ple m small 0 m.tensors empty_plan plan
      → Planned (finished plan)
  unfolding finished
  finished-Planned small plan c =
      let are_entries =
        All-sort_entries IsPlanEntry plan.entries
          (rw c.entries (resident_entries-IsPlanEntry is_ple m small 0 m.tensors c.inside)) in
      record {
        entries =
            subst (λ es. Perm (sort_entries plan.entries) es) c.entries
              (sort_entries-Perm plan.entries);
        sorted = ap sort_entries c.entries;
        ascending = sort_entries-IsAscending plan.entries;
        are_entries = are_entries;
        resident =
            omega
              (arith, c.resident, total_bytes-sort_entries plan.entries, ap total_bytes c.entries);
        resident_max = c.resident_max;
        excluded = c.excluded;
        inside = c.inside;
        spans =
            spans_of-Grouped is_ple m gap most (sort_entries plan.entries) are_entries
              (All_map (InFile m) _ (λ t h n. omega (arith, h n, small)) m.tensors c.inside);
      }

  -- For a file of at most 2 ^ 64 - 1 bytes: a plan that `q3_residency_plan_build` returns has the
  -- resident tensors' entries in the order of the file, each tensor's bytes inside the file, the
  -- exact sum of the resident bytes (that of the excluded ones up to 64 bits), and spans that read
  -- every entry once and in order. A span holds its entries, is at most `max_span_bytes` long or
  -- reads one entry, has at most `max_gap_bytes` more bytes for each entry after the first than its
  -- entries have, and shares no byte with an excluded tensor that shares none with its entries.
  pub plan_build-Planned : m.size ≤ u64_max → Post (plan_build is_ple calloc m gap most) Planned
  unfolding plan_build finished
  plan_build-Planned small =
      let body =
        Post-bind (Collected is_ple m small 0 m.tensors empty_plan) Planned
          (collect is_ple m 0 m.tensors empty_plan)
          (λ plan.
            require
              (length (sort_entries plan.entries) == 0
                || calloc (length (sort_entries plan.entries)) span_struct_bytes)
              spans_failed
            >> ok (finished plan))
          (collect-Collected is_ple m small m.tensors 0 empty_plan (omega arith) (omega arith))
          λ plan c.
            Post-require Planned _ spans_failed (ok (finished plan))
              λ t. finished-Planned small plan c in
      ground (arith, body)

  -- A tensor that fits is taken, with its bytes.
  collect_tensor-Returns :
      (t : Tensor) (i : ℕ) (plan : Plan)
      → m.size ≤ u64_max
      → InFile m t
      → plan.resident_bytes + total_bytes (resident_entries is_ple i (t ∷ [])) ≤ u64_max
      → Returns (collect_tensor is_ple m i t plan) λ plan'.
        plan'.resident_bytes
        ≡ plan.resident_bytes + total_bytes (resident_entries is_ple i (t ∷ []))
  unfolding collect_tensor resident_entries
  collect_tensor-Returns t i plan small h k = ground arith

  collect-Returns :
      (ts : List Tensor) (i : ℕ) (plan : Plan)
      → m.size ≤ u64_max
      → All (InFile m) ts
      → plan.resident_bytes + total_bytes (resident_entries is_ple i ts) ≤ u64_max
      → Returns (collect is_ple m i ts plan) λ plan'. Unit
  unfolding collect
  collect-Returns [] i plan small h k = tt
  collect-Returns (t ∷ ts) i plan small h k =
      let sum : total_bytes (resident_entries is_ple i (t ∷ ts))
          ≡ total_bytes (resident_entries is_ple i (t ∷ []))
            + total_bytes (resident_entries is_ple (i + 1) ts) =
        ap total_bytes (resident_entries_cons is_ple i t ts)
        ∙ total_bytes-append (resident_entries is_ple i (t ∷ []))
            (resident_entries is_ple (i + 1) ts) in
      Returns-bind _ _ (collect_tensor is_ple m i t plan) _
        (collect_tensor-Returns t i plan small h.0 (omega (arith, sum)))
        λ plan1 e. collect-Returns ts (i + 1) plan1 small h.1 (omega (arith, sum, e))

  -- A plan is made when the arguments are right, memory is there and every tensor fits.
  pub plan_build-Returns :
      most ≢ 0
      → m.size ≤ u64_max
      → ((n size : ℕ) → calloc n size ≡ true)
      → m.n_tensors ≤ u64_max / entry_struct_bytes
      → All (InFile m) m.tensors
      → total_bytes (resident_entries is_ple 0 m.tensors) ≤ u64_max
      → Returns (plan_build is_ple calloc m gap most) λ plan. Unit
  unfolding plan_build finished
  plan_build-Returns z small memory few inside sum =
      let body =
        Returns-bind (λ _. Unit) (λ _. Unit) (collect is_ple m 0 m.tensors empty_plan)
          (λ plan.
            require
              (length (sort_entries plan.entries) == 0
                || calloc (length (sort_entries plan.entries)) span_struct_bytes)
              spans_failed
            >> ok (finished plan))
          (collect-Returns m.tensors 0 empty_plan small inside (omega (arith, sum)))
          λ plan t. ground (arith, memory (length (sort_entries plan.entries)) span_struct_bytes) in
      ground (arith, body, memory (if m.n_tensors == 0 then 1 else m.n_tensors) entry_struct_bytes)
