-- ===== src/Tokenizer/Merges/Done.antt =====
-- The loop of merges in src/q3_tokenizer.c: it ends when no pair has a rank, and it keeps the text.
use sera_c.Tokenizer.Merges.{
  merge_all, best_from, join_at, merge_within, better, Merge, best_pair, int_max, mrank, merge_next,
}
use sera_c.Common.{
  ℕ, List, Bytes, ◌+◌, length, Option, some, ◌<◌, ◌≡◌, arith, ◌≤◌, none, ◌⊎◌, ◌∷◌, Option-cases,
  suc, inl, inr, zero, [], Bool-cases, ltb, refl, ◌++◌, map, subst, sym, ap, concat, append_assoc,
  ◌∙◌,
}

-- No pair of neighbours has a rank that the search would take.
abbrev pub Settled : List Merge → List Bytes → Type 0
Settled merges (a ∷ b ∷ rest) =
    ((r : ℕ) → mrank merges a b ≡ some r → int_max ≤ r) × Settled merges (b ∷ rest)
Settled merges _ = Unit {0}

-- Once a pair is found, one stays found.
best_from-found :
    (merges : List Merge) (a : List Bytes) (i r k : ℕ)
    → (j : ℕ) × (best_from merges a i (r, some k) ≡ some j)
unfolding best_from better
best_from-found merges [] i r k = (k, refl)
best_from-found merges (a ∷ []) i r k = (k, refl)
best_from-found merges (a ∷ b ∷ rest) i r k = elim (Option-cases (mrank merges a b)) [
  | inl lacks ↦ rw lacks (best_from-found merges (b ∷ rest) (i + 1) r k)
  | inr (s, has) ↦ elim (Bool-cases (ltb s r)) [
    | inl lower ↦ rw (has, lower) (best_from-found merges (b ∷ rest) (i + 1) s i)
    | inr higher ↦ rw (has, higher) (best_from-found merges (b ∷ rest) (i + 1) r k)
  ]
]

best_from-Settled :
    (merges : List Merge) (a : List Bytes) (i : ℕ)
    → best_from merges a i (int_max, none) ≡ none
    → Settled merges a
unfolding best_from better
best_from-Settled merges [] i h = tt
best_from-Settled merges (a ∷ []) i h = tt
best_from-Settled merges (a ∷ b ∷ rest) i h = elim (Option-cases (mrank merges a b)) [
  | inl lacks ↦ (λ r e. cc (lacks, e), best_from-Settled merges (b ∷ rest) (i + 1) (rw lacks at h))
  | inr (s, has) ↦ elim (Bool-cases (ltb s int_max)) [
    | inl lower ↦
        let (j, found) = best_from-found merges (b ∷ rest) (i + 1) s i in
        cc (rw (has, lower) at h, found)
    | inr higher ↦ (
      λ r e. let same : s ≡ r = cc (has, e) in ground (arith, higher, same),
      best_from-Settled merges (b ∷ rest) (i + 1) (rw (has, higher) at h),
    )
  ]
]

better-either :
    (o : Option ℕ) (i : ℕ) (found : ℕ × Option ℕ) (k : ℕ)
    → (better o i found).1 ≡ some k
    → (found.1 ≡ some k) ⊎ (i ≡ k)
unfolding better
better-either none i found k h = inl h
better-either (some r) i found k h = elim (Bool-cases (ltb r found.0)) [
  | inl lower ↦ let e : ◌≡◌ {A = Option ℕ} (some i) (some k) = rw lower at h in inr cc
  | inr higher ↦ inl (rw higher at h)
]

-- A pair that the search finds lies in the list.
best_from-inside :
    (merges : List Merge) (a : List Bytes) (i : ℕ) (found : ℕ × Option ℕ) (k : ℕ)
    → best_from merges a i found ≡ some k
    → (found.1 ≡ some k) ⊎ ((i ≤ k) × (k + 1 < i + length a))
unfolding best_from better
best_from-inside merges [] i found k h = inl h
best_from-inside merges (a ∷ []) i found k h = inl h
best_from-inside merges (a ∷ b ∷ rest) i found k h =
    elim (best_from-inside merges (b ∷ rest) (i + 1) (better (mrank merges a b) i found) k h) [
      | inl e ↦ elim (better-either (mrank merges a b) i found k e) [
        | inl before ↦ inl before
        | inr here ↦ inr (omega (arith, here), omega (arith, here))
      ]
      | inr (low, high) ↦ inr (omega (arith, low), omega (arith, high))
    ]

join_at-length : (i : ℕ) (a : List Bytes) → i + 1 < length a → length (join_at i a) + 1 ≡ length a
unfolding join_at
join_at-length zero [] h = elim h [ ]
join_at-length zero (a ∷ []) h = let no : ⊥ = omega (arith, h) in elim no [ ]
join_at-length zero (a ∷ b ∷ rest) h = omega arith
join_at-length (suc i) [] h = elim h [ ]
join_at-length (suc i) (a ∷ rest) h = omega (arith, join_at-length i rest (omega (arith, h)))

best_pair-shorter :
    (merges : List Merge) (a : List Bytes) (i n : ℕ)
    → length a ≤ suc n
    → best_pair merges a ≡ some i
    → length (join_at i a) ≤ n
unfolding best_pair
best_pair-shorter merges a i n h has = elim (best_from-inside merges a 0 (int_max, none) i has) [
  | inl e ↦ cc
  | inr (low, high) ↦ omega (arith, h, join_at-length i a (omega (arith, high)))
]

merge_within-Settled :
    (merges : List Merge) (n : ℕ) (a : List Bytes)
    → length a ≤ n
    → Settled merges (merge_within merges n a)
unfolding merge_within merge_next best_pair
merge_within-Settled merges zero [] h = tt
merge_within-Settled merges zero (a ∷ rest) h = elim h [ ]
merge_within-Settled merges (suc n) a h = elim (Option-cases (best_pair merges a)) [
  | inl lacks ↦
      subst (λ o. Settled merges (merge_next (merge_within merges n) a o)) (sym lacks)
        (best_from-Settled merges a 0 lacks)
  | inr (i, has) ↦
      subst (λ o. Settled merges (merge_next (merge_within merges n) a o)) (sym has)
        (merge_within-Settled merges n (join_at i a) (best_pair-shorter merges a i n h has))
]

-- From any symbols, the loop of merges, within as many rounds as there are symbols, ends where no two
-- neighbours have a rank below INT_MAX.
pub merge_all-Settled : (merges : List Merge) (a : List Bytes) → Settled merges (merge_all merges a)
unfolding merge_all
merge_all-Settled merges a = merge_within-Settled merges (length a) a (omega arith)

join_at-concat : (i : ℕ) (gs : List Bytes) → concat (join_at i gs) ≡ concat gs
unfolding join_at
join_at-concat zero [] = refl
join_at-concat zero (a ∷ []) = refl
join_at-concat zero (a ∷ b ∷ rest) = append_assoc a b (concat rest)
join_at-concat (suc i) [] = refl
join_at-concat (suc i) (a ∷ rest) = ap (λ xs. a ++ xs) (join_at-concat i rest)

-- Joining symbols commutes with a spelling `f` that keeps appending.
module _ (f : Bytes → Bytes) (homomorphic : (x y : Bytes) → f (x ++ y) ≡ f x ++ f y) where
  join_at-map : (i : ℕ) (gs : List Bytes) → join_at i (map f gs) ≡ map f (join_at i gs)
  unfolding join_at
  join_at-map zero [] = refl
  join_at-map zero (a ∷ []) = refl
  join_at-map zero (a ∷ b ∷ rest) = ap (λ x. x ∷ map f rest) (sym (homomorphic a b))
  join_at-map (suc i) [] = refl
  join_at-map (suc i) (a ∷ rest) = ap (λ xs. f a ∷ xs) (join_at-map i rest)

  -- From symbols that spell parts of a text, the loop makes symbols that spell parts of the same
  -- text, in order.
  pub merge_within-parts :
      (merges : List Merge) (n : ℕ) (gs : List Bytes)
      → (hs : List Bytes) × (merge_within merges n (map f gs) ≡ map f hs) × (concat hs ≡ concat gs)
  unfolding merge_within merge_next
  merge_within-parts merges zero gs = (gs, refl, refl)
  merge_within-parts merges (suc n) gs = elim (Option-cases (best_pair merges (map f gs))) [
    | inl lacks ↦ (gs, rw lacks refl, refl)
    | inr (i, has) ↦
        let (hs, run, same) = merge_within-parts merges n (join_at i gs) in
        (hs, rw (has, join_at-map i gs) run, same ∙ join_at-concat i gs)
  ]
