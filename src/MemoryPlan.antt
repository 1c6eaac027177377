-- ===== src/MemoryPlan.antt =====
-- The memory plan of the command line, src/q3_main.c: the limits it plans with, the check of the plan
-- that the planner returns, and the figures it prints. The model has no excluded tensor.
pub mod Validate
pub mod Made
pub mod Opened
mod Tests
use sera_c.ResidencyPlan.{PlanError, Span, Plan, PlanEntry, plan_build}
use sera_c.Gguf.File.{Tensor, Gguf}
use sera_c.Common.{
  ℕ, Result, Bool, List, Option, ◌*◌, ◌>>=◌, false, ◌∷◌, ok, err, some, ◌>>◌, suc, add64, none,
  require, ◌+◌, if◌then◌else◌, ltb, get_elem?, not, [], ◌==◌, ◌||◌, sub64, u64_max, zero,
}

pub data PlanFault : Type 0 where
  not_ascending entry_overflow total_overflow total_mismatch span_overflow : PlanFault
  outside_span span_overlaps : ℕ → PlanFault
  -- A span that counts entries that the plan has not.
  past_entries : ℕ → PlanFault

pub data MemoryPlanError : Type 0 where
  plan_failed : PlanError → MemoryPlanError
  plan_invalid : PlanFault → MemoryPlanError

unfoldable pub plan_exclude_none : Tensor → Bool
plan_exclude_none tensor = false

abbrev pub max_gap_bytes : ℕ
max_gap_bytes = 64 * 1024

abbrev pub max_span_bytes : ℕ
max_span_bytes = 256 * 1024 * 1024

-- The entry's offset is below that of the one before it, which the first entry has not.
abbrev pub descends : Option PlanEntry → PlanEntry → Bool
descends none e = false
descends (some previous) e = ltb e.file_offset previous.file_offset

-- The loop over the entries; the result is `total`.
unfoldable pub validate_entries : Option PlanEntry → ℕ → List PlanEntry → Result PlanFault ℕ
validate_entries previous total [] = ok total
validate_entries previous total (e ∷ es) = do
  require (not (descends previous e)) not_ascending
  require (not (ltb (sub64 u64_max e.file_offset) e.bytes)) entry_overflow
  require (not (ltb (sub64 u64_max e.bytes) total)) total_overflow
  validate_entries (some e) (add64 total e.bytes) es

-- The test of the span's entry number `i` of the plan.
unfoldable pub validate_inside : Span → ℕ → Option PlanEntry → Result PlanFault (Unit {0})
validate_inside sp i none = err (past_entries i)
validate_inside sp i (some e) =
    require
      (not (
        ltb e.file_offset sp.file_offset
        || ltb (add64 sp.file_offset sp.bytes) (add64 e.file_offset e.bytes)))
      (outside_span i)

-- The loop over the `left` entries of the span from its `k`-th on.
unfoldable pub validate_within : List PlanEntry → Span → ℕ → ℕ → Result PlanFault (Unit {0})
validate_within entries sp k zero = ok tt
validate_within entries sp k (suc left) = do
  validate_inside sp (sp.first_entry + k) (get_elem? entries (sp.first_entry + k))
  validate_within entries sp (k + 1) left

unfoldable pub validate_spans : List PlanEntry → List Span → Result PlanFault (Unit {0})
validate_spans entries [] = ok tt
validate_spans entries (sp ∷ spans) = do
  require (not (ltb (sub64 u64_max sp.file_offset) sp.bytes)) span_overflow
  validate_within entries sp 0 sp.entry_count
  validate_spans entries spans

-- The last loop; `prev` is span number `s` - 1.
unfoldable pub validate_order : Span → ℕ → List Span → Result PlanFault (Unit {0})
validate_order prev s [] = ok tt
validate_order prev s (sp ∷ spans) = do
  require (not (ltb sp.file_offset (add64 prev.file_offset prev.bytes))) (span_overlaps s)
  validate_order sp (s + 1) spans

abbrev pub validate_all_order : List Span → Result PlanFault (Unit {0})
validate_all_order [] = ok tt
validate_all_order (sp ∷ spans) = validate_order sp 1 spans

unfoldable pub plan_validate : Plan → Result PlanFault (Unit {0})
plan_validate plan = do
  total ← validate_entries none 0 plan.entries
  require (total == plan.resident_bytes) total_mismatch
  validate_spans plan.entries plan.spans
  validate_all_order plan.spans

abbrev pub with_error {ℓ} : {E F : Type 0} {A : Type ℓ} → (E → F) → Result E A → Result F A
with_error f (ok a) = ok a
with_error f (err e) = err (f e)

-- The planning part of `cmd_memory_plan`.
unfoldable pub memory_plan : (ℕ → ℕ → Bool) → Gguf → Result MemoryPlanError Plan
memory_plan calloc m = do
  plan ← with_error plan_failed (plan_build plan_exclude_none calloc m max_gap_bytes max_span_bytes)
  with_error plan_invalid (plan_validate plan)
  ok plan

-- `span_bytes` and `largest_span`, in the loop over the spans.
unfoldable pub span_sums : List Span → ℕ → ℕ → ℕ × ℕ
span_sums [] span_bytes largest_span = (span_bytes, largest_span)
span_sums (sp ∷ spans) span_bytes largest_span =
    span_sums spans (add64 span_bytes sp.bytes)
      (if ltb largest_span sp.bytes then sp.bytes else largest_span)
