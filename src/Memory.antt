-- ===== src/Memory.antt =====
-- The allocation counters of the telemetry, src/q3_memory.c. The snapshots, which read the system's
-- figures, are not modelled.
pub mod Peak
mod Tests
use sera_c.Common.{
  ℕ, List, if◌then◌else◌, ◌+◌, add64, ltb, ◌∷◌, ◌-◌, ◌≤◌, [], sub64, u64_max, max, All, ◌≡◌, arith,
  refl,
}

pub record Tracker : Type 0 where
  pub internal_allocated_bytes : ℕ
  pub peak_internal_bytes : ℕ

abbrev pub tracker_init : Tracker
tracker_init = record { internal_allocated_bytes = 0; peak_internal_bytes = 0 }

unfoldable pub track_alloc : Tracker → ℕ → Tracker
track_alloc t bytes =
    let now = add64 t.internal_allocated_bytes bytes in
    record {
      internal_allocated_bytes = now;
      peak_internal_bytes = if ltb t.peak_internal_bytes now then now else t.peak_internal_bytes;
    }

unfoldable pub track_free : Tracker → ℕ → Tracker
track_free t bytes = record t {
  internal_allocated_bytes =
      if ltb t.internal_allocated_bytes bytes then 0 else sub64 t.internal_allocated_bytes bytes;
}

-- A call of one of the two.
pub data Event : Type 0 where
  alloc free : ℕ → Event

abbrev pub track : Tracker → Event → Tracker
track t (alloc n) = track_alloc t n
track t (free n) = track_free t n

unfoldable pub track_all : Tracker → List Event → Tracker
track_all t [] = t
track_all t (e ∷ es) = track_all (track t e) es
