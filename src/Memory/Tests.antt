-- ===== src/Memory/Tests.antt =====
-- A history of allocations and frees.
use sera_c.Memory.Peak.{last_of, highest, track_all_lem, balances}
use sera_c.Memory.{track_all, track_alloc, Event, track_free, alloc, tracker_init, free}
use sera_c.Common.{List, ◌∷◌, ◌≡◌, [], arith, refl}

abbrev history : List Event
history = alloc 100 ∷ alloc 50 ∷ free 120 ∷ alloc 40 ∷ []

track_history :
    track_all tracker_init history
    ≡ record { internal_allocated_bytes = 70; peak_internal_bytes = 150 }
unfolding track_all track_alloc track_free
track_history = refl

track_all_lem_example :
    ((track_all tracker_init history).internal_allocated_bytes ≡ 70)
    × ((track_all tracker_init history).peak_internal_bytes ≡ 150)
unfolding balances last_of highest
track_all_lem_example = track_all_lem history (omega arith)
