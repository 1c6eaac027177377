-- ===== src/MemoryPlan/Made.antt =====
-- `cmd_memory_plan`, src/q3_main.c: the plan it makes passes the check it makes of it.
use sera_c.ResidencyPlan.Collect.{total_bytes, InFile, resident_entries}
use sera_c.ResidencyPlan.Build.{Planned, plan_build-Returns, plan_build-Planned}
use sera_c.ResidencyPlan.Spans.{Grouped, end_of, group}
use sera_c.MemoryPlan.{
  validate_spans, plan_validate, validate_order, validate_all_order, validate_within,
  validate_entries, memory_plan, plan_exclude_none, max_gap_bytes, max_span_bytes,
}
use sera_c.MemoryPlan.Validate.{
  Behind, Disjoint, validate_entries-ok, IsAscending-Behind, validate_within-ok,
  sort_entries-Disjoint,
}
use sera_c.ResidencyPlan.{PlanEntry, Span, Plan, entry_struct_bytes, plan_build}
use sera_c.Gguf.File.{Tensor, Gguf}
use sera_c.Common.{
  require_pass, ℕ, List, Bool, ◌∷◌, ◌++◌, ◌≡◌, ◌+◌, length, [], ◌≤◌, ok, u64_max, subst, none,
  arith, sym, refl, not, ltb, ◌==◌, sub64, add64, ◌∙◌, append_assoc, length-append, ap, true, ◌/◌,
  All, Returns-eq-ok, Post-eq-ok,
}

Behind-drop :
    (start : ℕ) (e : PlanEntry) (es rest : List PlanEntry)
    → Behind start (e ∷ es ++ rest)
    → Behind (end_of e es) rest
Behind-drop start e [] rest h = h.1
Behind-drop start e (f ∷ es) rest h = Behind-drop (e.file_offset + e.bytes) f es rest h.1

count-length :
    (span : Span) (e : PlanEntry) (es : List PlanEntry)
    → span.entry_count ≡ 1 + length es
    → length (e ∷ es) ≡ span.entry_count
count-length span e es h = omega arith

module _ (is_ple : Tensor → Bool) (m : Gguf) (gap most : ℕ) where
  validate_spans-ok :
      (front es : List PlanEntry) (first : ℕ) (spans : List Span)
      → Grouped is_ple m gap most first es spans
      → first ≡ length front
      → validate_spans (front ++ es) spans ≡ ok tt
  unfolding validate_spans
  validate_spans-ok front es first [] g n = refl
  validate_spans-ok front all first (span ∷ spans) (group _ _ e es rest _ _ c split g) n =
      subst (λ xs. validate_spans (front ++ xs) (span ∷ spans) ≡ ok tt) (sym split)
        (require_pass (not (ltb (sub64 u64_max span.file_offset) span.bytes)) _ _
            (ground (arith, c.end_max))
          ∙ rw
              (subst (λ k. validate_within (front ++ ((e ∷ es) ++ rest)) span 0 k ≡ ok tt)
                (count-length span e es c.count)
                (validate_within-ok front (e ∷ es) rest span 0 (omega (arith, c.number, n))
                  c.end_max c.inside))
              ((subst (λ xs. validate_spans xs spans ≡ ok tt) (append_assoc front (e ∷ es) rest)
                (validate_spans-ok (front ++ (e ∷ es)) rest (first + (1 + length es)) spans g
                  (omega (arith, n, length-append front (e ∷ es)))))))

  validate_order-ok :
      (prev : Span) (s : ℕ) (es : List PlanEntry) (first : ℕ) (spans : List Span)
      → Grouped is_ple m gap most first es spans
      → Behind (prev.file_offset + prev.bytes) es
      → prev.file_offset + prev.bytes ≤ u64_max
      → validate_order prev s spans ≡ ok tt
  unfolding validate_order
  validate_order-ok prev s es first [] g b k = refl
  validate_order-ok prev s all first (span ∷ spans) (group _ _ e es rest _ _ c split g) b k =
      let b' = subst (λ xs. Behind (prev.file_offset + prev.bytes) xs) split b in
      require_pass (not (ltb span.file_offset (add64 prev.file_offset prev.bytes))) _ _
        (ground (arith, b'.0, c.starts))
      ∙ validate_order-ok span (s + 1) rest _ spans g
          (rw c.ends (Behind-drop (prev.file_offset + prev.bytes) e es rest b')) c.end_max

  validate_all_order-ok :
      (es : List PlanEntry) (first : ℕ) (spans : List Span)
      → Grouped is_ple m gap most first es spans
      → Behind 0 es
      → validate_all_order spans ≡ ok tt
  validate_all_order-ok es first [] g b = refl
  validate_all_order-ok all first (span ∷ spans) (group _ _ e es rest _ _ c split g) b =
      validate_order-ok span 1 rest _ spans g
        (rw c.ends (Behind-drop 0 e es rest (subst (λ xs. Behind 0 xs) split b))) c.end_max

  pub plan_validate-ok :
      (calloc : ℕ → ℕ → Bool) (plan : Plan)
      → Planned is_ple calloc m gap most plan
      → Disjoint plan.entries
      → plan_validate plan ≡ ok tt
  unfolding plan_validate
  plan_validate-ok calloc plan p d =
      let totals : validate_entries none 0 plan.entries ≡ ok (total_bytes plan.entries) =
        validate_entries-ok none 0 plan.entries p.ascending p.are_entries
          (omega (arith, p.resident, p.resident_max))
        ∙ ap ok (omega arith) in
      rw totals (
        require_pass (total_bytes plan.entries == plan.resident_bytes) _ _
          (ground (arith, p.resident))
        ∙ rw (validate_spans-ok [] plan.entries 0 plan.spans p.spans refl) (
            validate_all_order-ok plan.entries 0 plan.spans p.spans
              (IsAscending-Behind plan.entries p.ascending d p.are_entries)))

-- For a file of at most 2 ^ 64 - 1 bytes and fewer tensors than the planner's limit, when every
-- tensor with bytes has them in the file, no two of them share a byte, their bytes sum to less than
-- 2 ^ 64 and memory is there: `cmd_memory_plan` makes a plan, the plan passes `plan_validate`, and it
-- is one of the model's tensors, in the order of the file, with spans that read each entry once.
pub memory_plan-Planned :
    (calloc : ℕ → ℕ → Bool) (m : Gguf)
    → ((n size : ℕ) → calloc n size ≡ true)
    → m.size ≤ u64_max
    → m.n_tensors ≤ u64_max / entry_struct_bytes
    → All (InFile m) m.tensors
    → Disjoint (resident_entries plan_exclude_none 0 m.tensors)
    → total_bytes (resident_entries plan_exclude_none 0 m.tensors) ≤ u64_max
    → (plan : Plan) × (memory_plan calloc m ≡ ok plan)
      × Planned plan_exclude_none calloc m max_gap_bytes max_span_bytes plan
unfolding memory_plan
memory_plan-Planned calloc m memory size number inside disjoint sum =
    let made =
      Returns-eq-ok (λ _. Unit) (plan_build plan_exclude_none calloc m max_gap_bytes max_span_bytes)
        (plan_build-Returns plan_exclude_none calloc m max_gap_bytes max_span_bytes (omega arith)
          size memory number inside sum) in
    let planned =
      Post-eq-ok (Planned plan_exclude_none calloc m max_gap_bytes max_span_bytes) _
        (plan_build-Planned plan_exclude_none calloc m max_gap_bytes max_span_bytes size) made.1 in
    let passed =
      plan_validate-ok plan_exclude_none m max_gap_bytes max_span_bytes calloc made.0 planned
        (rw planned.sorted (sort_entries-Disjoint _ disjoint)) in
    (made.0, rw made.1 (rw passed refl), planned)
