-- ===== src/MemoryPlan/Validate.antt =====
-- `plan_validate`, src/q3_main.c, on the plans of `q3_residency_plan_build`.
use sera_c.ResidencyPlan.Collect.{total_bytes}
use sera_c.ResidencyPlan.Spans.{Apart, IsPlanEntry, Inside}
use sera_c.ResidencyPlan.Sort.{
  IsAscending, Follows, compare_total, All-sort_entries, All-insert_entry,
}
use sera_c.MemoryPlan.{validate_entries, descends, validate_within, validate_inside}
use sera_c.ResidencyPlan.{sort_entries, PlanEntry, insert_entry, Span}
use sera_c.Common.{
  require_pass, ℕ, List, ◌∷◌, ◌≤◌, All, inl, ◌+◌, arith, [], inr, u64_max, some, ◌≡◌, ok, ap,
  Option, false, refl, length, not, none, get_elem?, ◌∙◌, add64, ◌++◌, suc, subst, zero,
  append_assoc, length-append, ltb, sub64, ◌||◌,
}

-- No two entries share a byte.
abbrev pub Disjoint : List PlanEntry → Type 0
Disjoint [] = Unit
Disjoint (e ∷ es) = All (λ f. Apart e.file_offset e.bytes f.file_offset f.bytes) es × Disjoint es

-- Every entry starts behind the end of the one before it, the first behind `start`.
abbrev pub Behind : ℕ → List PlanEntry → Type 0
Behind start [] = Unit
Behind start (e ∷ es) = start ≤ e.file_offset × Behind (e.file_offset + e.bytes) es

insert_entry-Disjoint :
    (e : PlanEntry) (es : List PlanEntry) → Disjoint (e ∷ es) → Disjoint (insert_entry e es)
unfolding insert_entry
insert_entry-Disjoint e [] h = h
insert_entry-Disjoint e (x ∷ xs) h = elim (compare_total e x) [
  | inl p ↦ rw p.0 (
    All-insert_entry (λ f. Apart x.file_offset x.bytes f.file_offset f.bytes) e xs
        (ground (arith, h.0.0)) h.1.0,
    insert_entry-Disjoint e xs (h.0.1, h.1.1),
  )
  | inr p ↦ rw p.0 h
]

pub sort_entries-Disjoint : (es : List PlanEntry) → Disjoint es → Disjoint (sort_entries es)
unfolding sort_entries
sort_entries-Disjoint [] h = tt
sort_entries-Disjoint (e ∷ es) h = insert_entry-Disjoint e (sort_entries es) (
  All-sort_entries (λ f. Apart e.file_offset e.bytes f.file_offset f.bytes) es h.0,
  sort_entries-Disjoint es h.1,
)

Follows-Behind :
    (a : PlanEntry) (es : List PlanEntry)
    → Follows a es
    → Disjoint (a ∷ es)
    → All IsPlanEntry (a ∷ es)
    → Behind (a.file_offset + a.bytes) es
Follows-Behind a [] h k l = tt
Follows-Behind a (e ∷ es) h k l =
    (ground (arith, h.0, k.0.0, l.0, l.1.0), Follows-Behind e es h.1 k.1 l.1)

pub IsAscending-Behind :
    (es : List PlanEntry) → IsAscending es → Disjoint es → All IsPlanEntry es → Behind 0 es
IsAscending-Behind [] h k l = tt
IsAscending-Behind (e ∷ es) h k l = (omega arith, Follows-Behind e es h k l)

abbrev pub Continues : Option PlanEntry → List PlanEntry → Type 0
Continues none es = IsAscending es
Continues (some a) es = Follows a es

Continues-descends :
    (previous : Option PlanEntry) (e : PlanEntry) (es : List PlanEntry)
    → Continues previous (e ∷ es)
    → (descends previous e ≡ false) × Follows e es
Continues-descends none e es h = (refl, h)
Continues-descends (some a) e es h = (ground (arith, h.0), h.1)

pub validate_entries-ok :
    (previous : Option PlanEntry) (total : ℕ) (es : List PlanEntry)
    → Continues previous es
    → All IsPlanEntry es
    → total + total_bytes es ≤ u64_max
    → validate_entries previous total es ≡ ok (total + total_bytes es)
unfolding validate_entries
validate_entries-ok previous total [] h k l = ap ok (omega arith)
validate_entries-ok previous total (e ∷ es) h k l =
    let c = Continues-descends previous e es h in
    require_pass _ _ _ (ap not c.0)
    ∙ require_pass (not (ltb (sub64 u64_max e.file_offset) e.bytes)) _ _ (ground (arith, k.0.1))
    ∙ require_pass (not (ltb (sub64 u64_max e.bytes) total)) _ _ (ground arith)
    ∙ validate_entries-ok (some e) (add64 total e.bytes) es c.1 k.1 (omega arith)
    ∙ ap ok (omega arith)

get_elem?-append {ℓ} :
    {A : Type ℓ} (front : List A) (x : A) (back : List A) (n : ℕ)
    → n ≡ length front
    → get_elem? (front ++ (x ∷ back)) n ≡ some x
get_elem?-append [] x back zero h = refl
get_elem?-append [] x back (suc n) h = ground arith
get_elem?-append (y ∷ front) x back zero h = ground arith
get_elem?-append (y ∷ front) x back (suc n) h = get_elem?-append front x back n (omega arith)

pub validate_within-ok :
    (front es back : List PlanEntry) (sp : Span) (k : ℕ)
    → sp.first_entry + k ≡ length front
    → sp.file_offset + sp.bytes ≤ u64_max
    → All (Inside sp) es
    → validate_within (front ++ (es ++ back)) sp k (length es) ≡ ok tt
unfolding validate_within validate_inside
validate_within-ok front [] back sp k n m h = refl
validate_within-ok front (e ∷ es) back sp k n m h =
    rw (get_elem?-append front e (es ++ back) (sp.first_entry + k) n) (
      require_pass
        (not (
          ltb e.file_offset sp.file_offset
          || ltb (add64 sp.file_offset sp.bytes) (add64 e.file_offset e.bytes)))
        _ _ (ground (arith, h.0, m))
      ∙ subst (λ xs. validate_within xs sp (k + 1) (length es) ≡ ok tt)
          (append_assoc front (e ∷ []) (es ++ back))
          (validate_within-ok (front ++ (e ∷ [])) es back sp (k + 1)
            (omega (arith, n, length-append front (e ∷ []))) m h.1))
