-- ===== src/ResidencyPlan/Sort.antt =====
-- `compare_entries` and the `qsort` of `q3_residency_plan_build`, src/q3_residency_plan.c.
use sera_c.ResidencyPlan.Collect.{total_bytes}
use sera_c.ResidencyPlan.{PlanEntry, insert_entry, sort_entries, compare_entries, is_gt}
use sera_c.Common.{List, All, ◌∷◌, ◌<◌, ◌≡◌, inl, ◌⊎◌, true, ◌≤◌, ◌+◌, inr, arith, false, [], refl}
use mathlib.Core.List.{Perm}
use mathlib.Core.List.Perm

-- `b` may stand behind `a`.
abbrev pub InOrder : PlanEntry → PlanEntry → Type 0
InOrder a b =
    a.file_offset < b.file_offset
    ⊎ (a.file_offset ≡ b.file_offset × a.tensor_index ≤ b.tensor_index)

-- The entries are in order behind `a`.
abbrev pub Follows : PlanEntry → List PlanEntry → Type 0
Follows a [] = Unit
Follows a (e ∷ es) = InOrder a e × Follows e es

abbrev pub IsAscending : List PlanEntry → Type 0
IsAscending [] = Unit
IsAscending (e ∷ es) = Follows e es

pub compare_total :
    (a b : PlanEntry)
    → (is_gt (compare_entries a b) ≡ true × InOrder b a)
      ⊎ (is_gt (compare_entries a b) ≡ false × InOrder a b)
unfolding compare_entries
compare_total a b = ground arith

insert_entry-Follows :
    (a e : PlanEntry) (es : List PlanEntry)
    → InOrder a e
    → Follows a es
    → Follows a (insert_entry e es)
unfolding insert_entry
insert_entry-Follows a e [] h k = (h, tt)
insert_entry-Follows a e (x ∷ xs) h k = elim (compare_total e x) [
  | inl p ↦ rw p.0 (k.0, insert_entry-Follows x e xs p.1 k.1)
  | inr p ↦ rw p.0 (h, (p.1, k.1))
]

insert_entry-IsAscending :
    (e : PlanEntry) (es : List PlanEntry) → IsAscending es → IsAscending (insert_entry e es)
unfolding insert_entry
insert_entry-IsAscending e [] h = tt
insert_entry-IsAscending e (x ∷ xs) h = elim (compare_total e x) [
  | inl p ↦ rw p.0 (insert_entry-Follows x e xs p.1 h)
  | inr p ↦ rw p.0 (p.1, h)
]

pub sort_entries-IsAscending : (es : List PlanEntry) → IsAscending (sort_entries es)
unfolding sort_entries
sort_entries-IsAscending [] = tt
sort_entries-IsAscending (e ∷ es) =
    insert_entry-IsAscending e (sort_entries es) (sort_entries-IsAscending es)

insert_entry-Perm : (e : PlanEntry) (es : List PlanEntry) → Perm (insert_entry e es) (e ∷ es)
unfolding insert_entry
insert_entry-Perm e [] = Perm.refl (e ∷ [])
insert_entry-Perm e (x ∷ xs) = elim (compare_total e x) [
  | inl p ↦ rw p.0 (Perm.trans (Perm.cons x (insert_entry-Perm e xs)) (Perm.swap e x xs))
  | inr p ↦ rw p.0 (Perm.refl (e ∷ x ∷ xs))
]

pub sort_entries-Perm : (es : List PlanEntry) → Perm (sort_entries es) es
unfolding sort_entries
sort_entries-Perm [] = Perm.refl []
sort_entries-Perm (e ∷ es) =
    Perm.trans (insert_entry-Perm e (sort_entries es)) (Perm.cons e (sort_entries-Perm es))

total_bytes-insert_entry :
    (e : PlanEntry) (es : List PlanEntry)
    → total_bytes (insert_entry e es) ≡ e.bytes + total_bytes es
unfolding insert_entry
total_bytes-insert_entry e [] = refl
total_bytes-insert_entry e (x ∷ xs) = elim (compare_total e x) [
  | inl p ↦ rw p.0 (omega (arith, total_bytes-insert_entry e xs))
  | inr p ↦ rw p.0 refl
]

pub total_bytes-sort_entries :
    (es : List PlanEntry) → total_bytes (sort_entries es) ≡ total_bytes es
unfolding sort_entries
total_bytes-sort_entries [] = refl
total_bytes-sort_entries (e ∷ es) =
    omega (arith, total_bytes-insert_entry e (sort_entries es), total_bytes-sort_entries es)

module _ {ℓ} (P : PlanEntry → Type ℓ) where
  pub All-insert_entry :
      (e : PlanEntry) (es : List PlanEntry) → P e → All P es → All P (insert_entry e es)
  unfolding insert_entry
  All-insert_entry e [] h k = (h, tt)
  All-insert_entry e (x ∷ xs) h k = elim (compare_total e x) [
    | inl p ↦ rw p.0 (k.0, All-insert_entry e xs h k.1)
    | inr p ↦ rw p.0 (h, k)
  ]

  pub All-sort_entries : (es : List PlanEntry) → All P es → All P (sort_entries es)
  unfolding sort_entries
  All-sort_entries [] h = tt
  All-sort_entries (e ∷ es) (h, k) = All-insert_entry e (sort_entries es) h (All-sort_entries es k)
