-- ===== src/ResidencyPlan.antt =====
-- The residency planner, src/q3_residency_plan.c: which tensors become resident, in file order, and
-- in which spans of the file they are read. The callback that tells the excluded (PLE) tensors and
-- the answers of `calloc` are parameters. `qsort` is an insertion sort: its comparison orders any two
-- entries, so every sort gives the same list. The counts of a plan are the lengths of its lists.
pub mod Build
pub mod Collect
pub mod Sort
pub mod Spans
mod Tests
use sera_c.Gguf.File.{Tensor, Gguf}
use Prim.Native.Nat.{compare, Ordering}
use sera_c.Common.{
  ℕ, Bool, if◌then◌else◌, [], List, ◌∷◌, ltb, ◌==◌, true, ◌||◌, false, sub64, u64_max, add64, ◌&&◌,
  ◌+◌, not, ◌%◌, Result, leb, ◌++◌, ok, ◌>>◌, require, ◌>>=◌, err, ◌/◌, length,
}

pub record PlanEntry : Type 0 where
  pub tensor_index : ℕ
  pub file_offset : ℕ
  pub bytes : ℕ
  pub ownership_class : ℕ

pub record Span : Type 0 where
  pub file_offset : ℕ
  pub bytes : ℕ
  pub first_entry : ℕ
  pub entry_count : ℕ

pub record Plan : Type 0 where
  pub entries : List PlanEntry
  pub spans : List Span
  pub resident_bytes : ℕ
  pub excluded_ple_bytes : ℕ
  pub excluded_ple_tensors : ℕ

pub data PlanError : Type 0 where
  invalid_arguments tensor_overflow entries_failed tensor_outside byte_overflow spans_failed :
      PlanError

abbrev pub ownership_resident : ℕ
ownership_resident = 1

abbrev pub entry_struct_bytes : ℕ
entry_struct_bytes = 32

abbrev pub span_struct_bytes : ℕ
span_struct_bytes = 32

-- -1, 0 and 1 are `lt`, `eq` and `gt`.
unfoldable pub compare_entries : PlanEntry → PlanEntry → Ordering
compare_entries a b =
    if ltb a.file_offset b.file_offset
    then Ordering.lt
    else if ltb b.file_offset a.file_offset
    then Ordering.gt
    else if ltb a.tensor_index b.tensor_index
    then Ordering.lt
    else if ltb b.tensor_index a.tensor_index
    then Ordering.gt
    else Ordering.eq

abbrev pub is_gt : Ordering → Bool
is_gt Ordering.gt = true
is_gt _ = false

unfoldable pub insert_entry : PlanEntry → List PlanEntry → List PlanEntry
insert_entry e [] = e ∷ []
insert_entry e (x ∷ xs) = if is_gt (compare_entries e x) then x ∷ insert_entry e xs else e ∷ x ∷ xs

unfoldable pub sort_entries : List PlanEntry → List PlanEntry
sort_entries [] = []
sort_entries (e ∷ es) = insert_entry e (sort_entries es)

unfoldable pub ranges_overlap : ℕ → ℕ → ℕ → ℕ → Bool
ranges_overlap a_offset a_bytes b_offset b_bytes =
    if a_bytes == 0 || b_bytes == 0
    then false
    else if ltb (sub64 u64_max a_bytes) a_offset || ltb (sub64 u64_max b_bytes) b_offset
    then true
    else ltb a_offset (add64 b_offset b_bytes) && ltb b_offset (add64 a_offset a_bytes)

-- The plan before a tensor, and the tensor's number.
abbrev pub empty_plan : Plan
empty_plan = record {
  entries = [];
  spans = [];
  resident_bytes = 0;
  excluded_ple_bytes = 0;
  excluded_ple_tensors = 0;
}

abbrev pub entry_of : ℕ → Tensor → PlanEntry
entry_of i t = record {
  tensor_index = i % 0x1_0000_0000;
  file_offset = t.abs_offset;
  bytes = t.bytes;
  ownership_class = ownership_resident;
}

unfoldable pub grow : Span → PlanEntry → Span
grow span entry = record span {
  bytes = sub64 (add64 entry.file_offset entry.bytes) span.file_offset;
  entry_count = span.entry_count + 1;
}

unfoldable pub start : PlanEntry → ℕ → Span
start entry i = record {
  file_offset = entry.file_offset;
  bytes = entry.bytes;
  first_entry = i;
  entry_count = 1;
}

module _ (is_ple : Tensor → Bool) where
  -- One round of the loop over the tensors.
  unfoldable pub collect_tensor : Gguf → ℕ → Tensor → Plan → Result PlanError Plan
  collect_tensor m i t plan =
      if t.bytes == 0
      then ok plan
      else if ltb m.size t.abs_offset || ltb (sub64 m.size t.abs_offset) t.bytes
      then err tensor_outside
      else if is_ple t
      then ok (record plan {
        excluded_ple_bytes = add64 plan.excluded_ple_bytes t.bytes;
        excluded_ple_tensors = add64 plan.excluded_ple_tensors 1;
      })
      else if ltb (sub64 u64_max t.bytes) plan.resident_bytes
      then err byte_overflow
      else ok (record plan {
        entries = plan.entries ++ (entry_of i t ∷ []);
        resident_bytes = add64 plan.resident_bytes t.bytes;
      })

  unfoldable pub collect : Gguf → ℕ → List Tensor → Plan → Result PlanError Plan
  collect m i [] plan = ok plan
  collect m i (t ∷ ts) plan = do plan1 ← collect_tensor m i t plan; collect m (i + 1) ts plan1

  -- The test of one candidate in `span_has_ple_between`.
  unfoldable pub ple_between : Span → ℕ → Tensor → Bool
  ple_between span next_offset t =
      not (t.bytes == 0)
      && is_ple t
      && (ranges_overlap span.file_offset span.bytes t.abs_offset t.bytes
          || (leb (add64 span.file_offset span.bytes) t.abs_offset && leb t.abs_offset next_offset))

  unfoldable pub span_has_ple_between : List Tensor → Span → ℕ → Bool
  span_has_ple_between [] span next_offset = false
  span_has_ple_between (t ∷ ts) span next_offset =
      ple_between span next_offset t || span_has_ple_between ts span next_offset

  -- `fits`: the entry may join the span.
  unfoldable pub joins : Gguf → ℕ → ℕ → Span → PlanEntry → Bool
  joins m max_gap_bytes max_span_bytes span entry =
      let span_end = add64 span.file_offset span.bytes in
      let entry_end = add64 entry.file_offset entry.bytes in
      let ordered = leb span_end entry.file_offset in
      let gap = if ordered then sub64 entry.file_offset span_end else 0 in
      ordered
      && leb gap max_gap_bytes
      && leb span.file_offset entry_end
      && leb (sub64 entry_end span.file_offset) max_span_bytes
      && not (span_has_ple_between m.tensors span entry.file_offset)

  -- The loop over the entries from number `i` on; `span` is the last span, behind `done`.
  unfoldable pub span_loop : Gguf → ℕ → ℕ → List Span → Span → ℕ → List PlanEntry → List Span
  span_loop m gap most done span i [] = done ++ (span ∷ [])
  span_loop m gap most done span i (e ∷ es) =
      let fits = joins m gap most span e in
      span_loop m gap most (if fits then done else done ++ (span ∷ []))
        (if fits then grow span e else start e i) (i + 1) es

  unfoldable pub spans_of : Gguf → ℕ → ℕ → List PlanEntry → List Span
  spans_of m gap most [] = []
  spans_of m gap most (e ∷ es) = span_loop m gap most [] (start e 0) 1 es

  unfoldable pub plan_build : (ℕ → ℕ → Bool) → Gguf → ℕ → ℕ → Result PlanError Plan
  plan_build calloc m max_gap_bytes max_span_bytes = do
    require (not (max_span_bytes == 0)) invalid_arguments
    require (not (ltb (u64_max / entry_struct_bytes) m.n_tensors)) tensor_overflow
    require (calloc (if m.n_tensors == 0 then 1 else m.n_tensors) entry_struct_bytes) entries_failed
    plan ← collect m 0 m.tensors empty_plan
    let entries = sort_entries plan.entries
    require (length entries == 0 || calloc (length entries) span_struct_bytes) spans_failed
    ok (record plan { entries = entries; spans = spans_of m max_gap_bytes max_span_bytes entries })
