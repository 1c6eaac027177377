-- ===== src/Memory/Peak.antt =====
-- `q3_memory_track_alloc` and `q3_memory_track_free`, src/q3_memory.c, over a history of calls.
use sera_c.Memory.{
  track_all, Event, Tracker, track_alloc, track_free, alloc, free, tracker_init, track,
}
use sera_c.Common.{ℕ, List, ◌≡◌, All, ◌∷◌, [], ◌+◌, ◌≤◌, max, u64_max, ◌-◌, subst, arith, refl}

-- What is allocated behind each event, where no sum passes 64 bits: a free of more than there is
-- leaves nothing.
abbrev pub balance : ℕ → Event → ℕ
balance n (alloc k) = n + k
balance n (free k) = n - k

unfoldable pub balances : ℕ → List Event → List ℕ
balances n [] = []
balances n (e ∷ es) = balance n e ∷ balances (balance n e) es

unfoldable pub last_of : ℕ → List ℕ → ℕ
last_of n [] = n
last_of n (x ∷ xs) = last_of x xs

unfoldable pub highest : List ℕ → ℕ
highest [] = 0
highest (x ∷ xs) = max x (highest xs)

-- The tracker shows `n` and the peak `p`.
record Shows (t : Tracker) (n p : ℕ) : Type 0 where
  now : t.internal_allocated_bytes ≡ n
  peak : t.peak_internal_bytes ≡ p
  below : n ≤ p
  small : p ≤ u64_max

track-Shows :
    (t : Tracker) (e : Event) (n p : ℕ)
    → Shows t n p
    → balance n e ≤ u64_max
    → Shows (track t e) (balance n e) (max p (balance n e))
unfolding track_alloc track_free
track-Shows t (alloc k) n p s h = record {
  now = ground (arith, s);
  peak = ground (arith, s);
  below = omega arith;
  small = omega (arith, s.small);
}
track-Shows t (free k) n p s h = record {
  now = ground (arith, s);
  peak = ground (arith, s);
  below = omega arith;
  small = omega (arith, s.small);
}

track_all-Shows :
    (t : Tracker) (es : List Event) (n p : ℕ)
    → Shows t n p
    → All (λ m. m ≤ u64_max) (balances n es)
    → Shows (track_all t es) (last_of n (balances n es)) (max p (highest (balances n es)))
unfolding track_all balances last_of highest
track_all-Shows t [] n p s h = subst (λ q. Shows t n q) (omega arith) s
track_all-Shows t (e ∷ es) n p s h =
    subst
      (λ q. Shows (track_all (track t e) es) (last_of (balance n e) (balances (balance n e) es)) q)
      (omega arith)
      (track_all-Shows (track t e) es (balance n e) (max p (balance n e))
        (track-Shows t e n p s h.0) h.1)

-- From a fresh tracker, over any history of allocations and frees in which no more than 2 ^ 64 - 1
-- bytes are ever allocated: `internal_allocated_bytes` is what the history leaves allocated, and
-- `peak_internal_bytes` is the most that was allocated at any point of it.
pub track_all_lem :
    (es : List Event)
    → All (λ m. m ≤ u64_max) (balances 0 es)
    → ((track_all tracker_init es).internal_allocated_bytes ≡ last_of 0 (balances 0 es))
      × ((track_all tracker_init es).peak_internal_bytes ≡ highest (balances 0 es))
track_all_lem es h =
    let s =
      track_all-Shows tracker_init es 0 0
        (record { now = refl; peak = refl; below = omega arith; small = omega arith }) h in
    (s.now, omega (arith, s.peak))
