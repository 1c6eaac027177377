-- ===== src/ResidencyPlan/Spans.antt =====
-- The loop of `q3_residency_plan_build` over the sorted entries, src/q3_residency_plan.c: what the
-- spans are to the entries.
use sera_c.ResidencyPlan.Collect.{total_bytes, total_bytes-append}
use sera_c.Gguf.File.{Tensor, Gguf}
use sera_c.ResidencyPlan.{
  PlanEntry, Span, span_has_ple_between, start, joins, ple_between, ranges_overlap, grow, span_loop,
  spans_of,
}
use sera_c.Common.{
  ℕ, ◌+◌, Bool, ◌≤◌, List, ◌≢◌, u64_max, ◌∷◌, ◌≡◌, ◌⊎◌, true, [], length, All, arith, ◌++◌, false,
  inl, ◌<◌, ◌*◌, All-every, refl, All-split, length-append, All-append, All_map, inr, Bool-cases,
  subst, ◌∙◌, append_assoc, ap, sym,
}

abbrev pub end_of : PlanEntry → List PlanEntry → ℕ
end_of e [] = e.file_offset + e.bytes
end_of e (f ∷ fs) = end_of f fs

-- Two ranges of the file that share no byte.
abbrev pub Apart : ℕ → ℕ → ℕ → ℕ → Type 0
Apart a a_bytes b b_bytes = (a + a_bytes ≤ b) ⊎ (b + b_bytes ≤ a)

-- An entry with bytes, all of them below 2 ^ 64.
abbrev pub IsPlanEntry : PlanEntry → Type 0
IsPlanEntry e = e.bytes ≢ 0 × e.file_offset + e.bytes ≤ u64_max

abbrev pub Inside : Span → PlanEntry → Type 0
Inside span e =
    span.file_offset ≤ e.file_offset × e.file_offset + e.bytes ≤ span.file_offset + span.bytes

-- An excluded tensor that shares no byte with any of the entries shares none with the span.
abbrev pub ClearOf : (Tensor → Bool) → Span → List PlanEntry → Tensor → Type 0
ClearOf is_ple span es t =
    is_ple t ≡ true
    → t.bytes ≢ 0
    → All (λ e. Apart e.file_offset e.bytes t.abs_offset t.bytes) es
    → Apart span.file_offset span.bytes t.abs_offset t.bytes

module _ (is_ple : Tensor → Bool) (m : Gguf) (gap most : ℕ) where
  -- The span reads the entries `e ∷ es`, of which `e` is number `first`.
  pub record Covers (span : Span) (first : ℕ) (e : PlanEntry) (es : List PlanEntry) : Type 0 where
    pub number : span.first_entry ≡ first
    pub count : span.entry_count ≡ 1 + length es
    pub starts : span.file_offset ≡ e.file_offset
    pub ends : span.file_offset + span.bytes ≡ end_of e es
    pub some_bytes : span.bytes ≢ 0
    pub end_max : span.file_offset + span.bytes ≤ u64_max
    pub inside : All (Inside span) (e ∷ es)
    pub small : (es ≡ []) ⊎ (span.bytes ≤ most)
    pub waste : span.bytes ≤ total_bytes (e ∷ es) + length es * gap
    pub clear : All (ClearOf is_ple span (e ∷ es)) m.tensors

  -- The spans read the entries from number `first` on, each once and in order.
  pub data Grouped : ℕ → List PlanEntry → List Span → Type 0 where
    none_left : (first : ℕ) → Grouped first [] []
    group :
        (first : ℕ) (span : Span) (e : PlanEntry) (es rest all : List PlanEntry) (spans : List Span)
        → Covers span first e es
        → all ≡ e ∷ es ++ rest
        → Grouped (first + (1 + length es)) rest spans
        → Grouped first all (span ∷ spans)

  start-Covers : (e : PlanEntry) (first : ℕ) → IsPlanEntry e → Covers (start e first) first e []
  unfolding start
  start-Covers e first h = record {
    number = refl;
    count = refl;
    starts = refl;
    ends = refl;
    some_bytes = h.0;
    end_max = h.1;
    inside = ((omega arith, omega arith), tt);
    small = inl refl;
    waste = omega arith;
    clear = All-every (ClearOf is_ple (start e first) (e ∷ [])) (λ t p n a. a.0) m.tensors;
  }

  -- What `joins` has tested.
  pub record Fits (span : Span) (e : PlanEntry) : Type 0 where
    pub behind : span.file_offset + span.bytes ≤ e.file_offset
    pub near : e.file_offset ≤ span.file_offset + span.bytes + gap
    pub size : e.file_offset + e.bytes ≤ span.file_offset + most
    pub no_ple : span_has_ple_between is_ple m.tensors span e.file_offset ≡ false

  joins-Fits :
      (span : Span) (e : PlanEntry)
      → IsPlanEntry e
      → span.file_offset + span.bytes ≤ u64_max
      → joins is_ple m gap most span e ≡ true
      → Fits span e
  unfolding joins
  joins-Fits span e h k t = record {
    behind = ground arith;
    near = ground arith;
    size = ground arith;
    no_ple = ground arith;
  }

  -- A tensor that the test passes over is clear of the span with the gap behind it.
  ple_between-Apart :
      (span : Span) (next : ℕ) (t : Tensor)
      → ple_between is_ple span next t ≡ false
      → is_ple t ≡ true
      → t.bytes ≢ 0
      → span.bytes ≢ 0
      → span.file_offset + span.bytes ≤ u64_max
      → t.abs_offset + t.bytes ≤ u64_max
      → (t.abs_offset + t.bytes ≤ span.file_offset) ⊎ (next < t.abs_offset)
  unfolding ple_between ranges_overlap
  ple_between-Apart span next t f p n z k j = ground arith

  grow-ClearOf :
      (span : Span) (f : PlanEntry) (es : List PlanEntry) (t : Tensor)
      → span.bytes ≢ 0
      → span.file_offset + span.bytes ≤ u64_max
      → Fits span f
      → ple_between is_ple span f.file_offset t ≡ false
      → (t.bytes ≢ 0 → t.abs_offset + t.bytes ≤ u64_max)
      → f.file_offset + f.bytes ≤ u64_max
      → ClearOf is_ple (grow span f) (es ++ (f ∷ [])) t
  unfolding grow
  grow-ClearOf span f es t z k h n small j p nz apart = ground (
    arith,
    ple_between-Apart span f.file_offset t n p nz z k (small nz),
    (All-split (λ e. Apart e.file_offset e.bytes t.abs_offset t.bytes) es (f ∷ []) apart).1.0,
    h.behind,
  )

  grow-All_clear :
      (span : Span) (f : PlanEntry) (es : List PlanEntry) (ts : List Tensor)
      → span.bytes ≢ 0
      → span.file_offset + span.bytes ≤ u64_max
      → Fits span f
      → span_has_ple_between is_ple ts span f.file_offset ≡ false
      → All (λ t. t.bytes ≢ 0 → t.abs_offset + t.bytes ≤ u64_max) ts
      → f.file_offset + f.bytes ≤ u64_max
      → All (ClearOf is_ple (grow span f) (es ++ (f ∷ []))) ts
  unfolding span_has_ple_between
  grow-All_clear span f es [] z k h n small j = tt
  grow-All_clear span f es (t ∷ ts) z k h n small j = (
    grow-ClearOf span f es t z k h (ground (arith, n)) small.0 j,
    grow-All_clear span f es ts z k h (ground (arith, n)) small.1 j,
  )

  end_of-append :
      (e : PlanEntry) (es : List PlanEntry) (f : PlanEntry)
      → end_of e (es ++ (f ∷ [])) ≡ f.file_offset + f.bytes
  end_of-append e [] f = refl
  end_of-append e (g ∷ es) f = end_of-append g es f

  grow-Covers :
      (span : Span) (first : ℕ) (e : PlanEntry) (es : List PlanEntry) (f : PlanEntry)
      → Covers span first e es
      → IsPlanEntry f
      → Fits span f
      → All (λ t. t.bytes ≢ 0 → t.abs_offset + t.bytes ≤ u64_max) m.tensors
      → Covers (grow span f) first e (es ++ (f ∷ []))
  unfolding grow
  grow-Covers span first e es f c h fits small = record {
    number = c.number;
    count = omega (arith, c.count, length-append es (f ∷ []));
    starts = c.starts;
    ends = omega (arith, fits.behind, h.1, end_of-append e es f);
    some_bytes = ground (arith, fits.behind, h, c.some_bytes);
    end_max = omega (arith, fits.behind, h.1);
    inside =
        All-append (Inside (grow span f)) (e ∷ es) (f ∷ [])
          (All_map (Inside span) (Inside (grow span f))
            (λ x p. (p.0, omega (arith, p.1, fits.behind, h.1))) (e ∷ es) c.inside)
          ((omega (arith, fits.behind), omega (arith, fits.behind, h.1)), tt);
    small = inr (omega (arith, fits.size, h.1, fits.behind));
    waste =
        rw (length-append es (f ∷ [])) (
          rw (total_bytes-append es (f ∷ []))
            (grind (arith, c.waste, fits.near, fits.behind, h.1)));
    clear =
        grow-All_clear span f (e ∷ es) m.tensors c.some_bytes c.end_max fits fits.no_ple small h.1;
  }

  span_loop-append :
      (done : List Span) (span : Span) (i : ℕ) (es : List PlanEntry)
      → span_loop is_ple m gap most done span i es
        ≡ done ++ span_loop is_ple m gap most [] span i es
  unfolding span_loop
  span_loop-append done span i [] = refl
  span_loop-append done span i (e ∷ es) = elim (Bool-cases (joins is_ple m gap most span e)) [
    | inl t ↦ rw t (span_loop-append done (grow span e) (i + 1) es)
    | inr f ↦ rw f (
        span_loop-append (done ++ (span ∷ [])) (start e i) (i + 1) es
        ∙ append_assoc done (span ∷ []) _
        ∙ ap (λ ss. done ++ ss) (sym (span_loop-append (span ∷ []) (start e i) (i + 1) es)))
  ]

  loop-Grouped :
      (rest : List PlanEntry) (span : Span) (first i : ℕ) (e : PlanEntry) (es : List PlanEntry)
      → Covers span first e es
      → i ≡ first + (1 + length es)
      → All IsPlanEntry rest
      → All (λ t. t.bytes ≢ 0 → t.abs_offset + t.bytes ≤ u64_max) m.tensors
      → Grouped first ((e ∷ es) ++ rest) (span_loop is_ple m gap most [] span i rest)
  unfolding span_loop
  loop-Grouped [] span first i e es c n h small = group first span e es [] _ [] c refl (none_left _)
  loop-Grouped (f ∷ rest) span first i e es c n h small =
      elim (Bool-cases (joins is_ple m gap most span f)) [
        | inl t ↦ rw t (
            let fits = joins-Fits span f h.0 c.end_max t in
            subst
              (λ xs.
                Grouped first (e ∷ xs) (span_loop is_ple m gap most [] (grow span f) (i + 1) rest))
              (append_assoc es (f ∷ []) rest)
              (loop-Grouped rest (grow span f) first (i + 1) e (es ++ (f ∷ []))
                (grow-Covers span first e es f c h.0 fits small)
                (omega (arith, n, length-append es (f ∷ []))) h.1 small))
        | inr u ↦ rw u (
            subst (λ ss. Grouped first ((e ∷ es) ++ (f ∷ rest)) ss)
              (sym (span_loop-append (span ∷ []) (start f i) (i + 1) rest))
              (group first span e es (f ∷ rest) _ _ c refl (
                subst
                  (λ j.
                    Grouped j (f ∷ rest) (span_loop is_ple m gap most [] (start f i) (i + 1) rest))
                  n
                  (loop-Grouped rest (start f i) i (i + 1) f [] (start-Covers f i h.0) refl h.1
                    small))))
      ]

  pub spans_of-Grouped :
      (es : List PlanEntry)
      → All IsPlanEntry es
      → All (λ t. t.bytes ≢ 0 → t.abs_offset + t.bytes ≤ u64_max) m.tensors
      → Grouped 0 es (spans_of is_ple m gap most es)
  unfolding spans_of
  spans_of-Grouped [] h small = none_left 0
  spans_of-Grouped (e ∷ es) h small =
      loop-Grouped es (start e 0) 0 1 e [] (start-Covers e 0 h.0) refl h.1 small
