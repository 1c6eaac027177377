-- ===== src/ResidencyPlan/Collect.antt =====
-- The first loop of `q3_residency_plan_build`, src/q3_residency_plan.c: which tensors are entries.
use sera_c.ResidencyPlan.{PlanEntry, Plan, collect_tensor, entry_of, collect}
use sera_c.Gguf.File.{Tensor, Gguf}
use sera_c.Common.{
  ℕ, List, Bool, ◌≢◌, ◌∷◌, ◌+◌, ◌≤◌, if◌then◌else◌, u64_max, ◌==◌, Post, ◌≡◌, ◌||◌, ◌++◌, [], add64,
  All, arith, append-nil, sym, Post-bind, Post_map, ◌∙◌, append_assoc, ap,
}

-- The entries that the tensors from number `i` on ask for, in their order.
unfoldable pub resident_entries : (Tensor → Bool) → ℕ → List Tensor → List PlanEntry
resident_entries is_ple i [] = []
resident_entries is_ple i (t ∷ ts) =
    if t.bytes == 0 || is_ple t
    then resident_entries is_ple (i + 1) ts
    else entry_of i t ∷ resident_entries is_ple (i + 1) ts

-- The bytes of a list of entries, and of the excluded tensors, with no bound.
abbrev pub total_bytes : List PlanEntry → ℕ
total_bytes [] = 0
total_bytes (e ∷ es) = e.bytes + total_bytes es

unfoldable pub excluded_total : (Tensor → Bool) → List Tensor → ℕ
excluded_total is_ple [] = 0
excluded_total is_ple (t ∷ ts) = (if is_ple t then t.bytes else 0) + excluded_total is_ple ts

-- A tensor without bytes, or with all its bytes in the file.
abbrev pub InFile : Gguf → Tensor → Type 0
InFile m t = t.bytes ≢ 0 → t.abs_offset + t.bytes ≤ m.size

pub total_bytes-append :
    (es fs : List PlanEntry) → total_bytes (es ++ fs) ≡ total_bytes es + total_bytes fs
total_bytes-append [] fs = omega arith
total_bytes-append (e ∷ es) fs = omega (arith, total_bytes-append es fs)

pub resident_entries_cons :
    (is_ple : Tensor → Bool) (i : ℕ) (t : Tensor) (ts : List Tensor)
    → resident_entries is_ple i (t ∷ ts)
      ≡ resident_entries is_ple i (t ∷ []) ++ resident_entries is_ple (i + 1) ts
unfolding resident_entries
resident_entries_cons is_ple i t ts = ground arith

module _ (is_ple : Tensor → Bool) (m : Gguf) (size_max : m.size ≤ u64_max) where
  -- What the loop adds to a plan over the tensors `ts` from number `i` on.
  pub record Collected (i : ℕ) (ts : List Tensor) (plan plan' : Plan) : Type 0 where
    pub entries : plan'.entries ≡ plan.entries ++ resident_entries is_ple i ts
    pub resident :
        plan'.resident_bytes ≡ plan.resident_bytes + total_bytes (resident_entries is_ple i ts)
    pub resident_max : plan'.resident_bytes ≤ u64_max
    pub excluded :
        plan'.excluded_ple_bytes ≡ add64 plan.excluded_ple_bytes (excluded_total is_ple ts)
    pub inside : All (InFile m) ts

  collect_tensor-Collected :
      (i : ℕ) (t : Tensor) (plan : Plan)
      → plan.resident_bytes ≤ u64_max
      → plan.excluded_ple_bytes ≤ u64_max
      → Post (collect_tensor is_ple m i t plan) (Collected i (t ∷ []) plan)
  unfolding collect_tensor resident_entries excluded_total
  collect_tensor-Collected i t plan small small' = ground (arith, append-nil plan.entries)

  pub collect-Collected :
      (ts : List Tensor) (i : ℕ) (plan : Plan)
      → plan.resident_bytes ≤ u64_max
      → plan.excluded_ple_bytes ≤ u64_max
      → Post (collect is_ple m i ts plan) (Collected i ts plan)
  unfolding collect resident_entries excluded_total
  collect-Collected [] i plan small small' = record {
    entries = sym (append-nil plan.entries);
    resident = omega arith;
    resident_max = small;
    excluded = omega arith;
    inside = tt;
  }
  collect-Collected (t ∷ ts) i plan small small' =
      Post-bind (Collected i (t ∷ []) plan) (Collected i (t ∷ ts) plan)
        (collect_tensor is_ple m i t plan) _ (collect_tensor-Collected i t plan small small')
        λ plan1 p.
          Post_map (Collected (i + 1) ts plan1) (Collected i (t ∷ ts) plan)
            (collect is_ple m (i + 1) ts plan1)
            (λ plan2 q. record {
              entries =
                  q.entries
                  ∙ rw p.entries (
                      append_assoc plan.entries _ _
                      ∙ ap (λ es. plan.entries ++ es) (sym (resident_entries_cons is_ple i t ts)));
              resident = omega (
                arith,
                q.resident,
                p.resident,
                ap total_bytes (resident_entries_cons is_ple i t ts),
                total_bytes-append (resident_entries is_ple i (t ∷ []))
                    (resident_entries is_ple (i + 1) ts),
              );
              resident_max = q.resident_max;
              excluded = omega (arith, p.excluded, q.excluded);
              inside = (p.inside.0, q.inside);
            })
            (collect-Collected ts (i + 1) plan1 p.resident_max (omega (arith, p.excluded)))
