-- ===== src/Workload/Load/Whole.antt =====
-- What `q3_workload_load` of src/q3_workload.c accepts as a whole, and how its failures free the text.
use sera_c.Workload.Load.Sound.{IsRead, IsSlot, questions_within-IsRead, HasSlots}
use sera_c.Workload.Load.{
  top_value, top_within, parse_workload, workload_load, new_array, read_questions, Workload,
  top_next, check_workload, top_member, zeros, zero_workload,
}
use sera_c.Workload.{
  skip_ws, WorkloadError, expect, max_branches, peek, read_key, read_uint_array, no_state,
  no_questions, unknown_key, separator, skip_string, too_many_questions,
}
use sera_c.Common.{
  ℕ, length, Result, ◌≤◌, Bytes, ◌≡◌, Post, Bool, All, Post-require, Post-then, Post-if, suc, ok,
  true, ◌%◌, false, not, err, Post-bind, bytes_eq, codes, Post-eq-ok, ap, ◌==◌, refl, drop, inr,
  zero, leb, arith, ◌⊎◌, inl, ◌<◌, min, Bool-cases,
}

zeros-slots : (m n : ℕ) → (length (zeros n) ≡ n) × All (IsSlot m) (zeros n)
zeros-slots m zero = (refl, tt)
zeros-slots m (suc n) = let (count, slots) = zeros-slots m n in (ap suc count, (inr refl, slots))

new_array-IsRead : (w : Workload) → IsRead w → IsRead (new_array w) × HasSlots 16 (new_array w)
unfolding new_array
new_array-IsRead w h =
    let (size, slots) = zeros-slots w.max_suffix_count (min w.question_count 16) in
    elim (Bool-cases (leb w.question_count 16)) [
      | inl few ↦
          let filled : length (zeros (min w.question_count 16)) ≡ w.question_count =
            ground (arith, size, few) in
          (record { count = inl filled; slots = slots; state = h.state }, inl filled)
      | inr many ↦
          let full : length (zeros (min w.question_count 16)) ≡ 16 = ground (arith, size, many) in
          let more : 16 < w.question_count = ground (arith, many) in
          (record { count = inr (full, more); slots = slots; state = h.state }, inr (refl, more))
    ]

read_questions-IsRead :
    (w : Workload) (s : Bytes) → IsRead w → Post (read_questions w s) (λ r. IsRead r.0)
unfolding read_questions
read_questions-IsRead w s h =
    let Q : Workload × Bytes → Type 0 = λ r. IsRead r.0 in
    let fresh = new_array-IsRead w h in
    Post-then Q (expect 91 s) _ λ rest.
      Post-if Q (peek (skip_ws rest) == 93) (ok (new_array w, drop 1 (skip_ws rest))) _ fresh.0
        (questions_within-IsRead (length s) 16 (new_array w) (skip_ws rest) fresh.1 fresh.0)

top_value-IsRead :
    (key : Bytes) (w : Workload) (s : Bytes) → IsRead w → Post (top_value key w s) (λ r. IsRead r.0)
unfolding top_value
top_value-IsRead key w s h =
    let Q : Workload × Bytes → Type 0 = λ r. IsRead r.0 in
    Post-if Q (bytes_eq key (codes "state_tokens")) _ _
      (Post-then Q (read_uint_array s) _
        λ r. record { count = h.count; slots = h.slots; state = refl })
      (Post-if Q (bytes_eq key (codes "questions")) _ _ (read_questions-IsRead w s h) (
        Post-if Q (bytes_eq key (codes "state_prompt")) _ (err unknown_key)
          (Post-then Q (skip_string s) _ λ rest. h) tt))

top_next-IsRead :
    (later : Workload → Bytes → Result WorkloadError Workload) (w : Workload) (sep : Bool × Bytes)
    → ((s : Bytes) → Post (later w s) IsRead)
    → IsRead w
    → Post (top_next later w sep) IsRead
unfolding top_next
top_next-IsRead later w (true, rest) ih h = h
top_next-IsRead later w (false, rest) ih h = ih rest

top_within-IsRead : (n : ℕ) (w : Workload) (s : Bytes) → IsRead w → Post (top_within n w s) IsRead
unfolding top_within top_member
top_within-IsRead zero w s h = tt
top_within-IsRead (suc n) w s h = Post-if IsRead (peek (skip_ws s) == 125) (ok w) _ h (
    Post-then IsRead (read_key (skip_ws s)) _ λ key.
      Post-bind (λ (r : Workload × Bytes). IsRead r.0) IsRead (top_value key.0 w key.1) _
        (top_value-IsRead key.0 w key.1 h)
        λ r p.
          Post-then IsRead (separator 125 r.1) _ λ sep.
            top_next-IsRead (top_within n) r.0 sep (λ rest. top_within-IsRead n r.0 rest p) p)

parse_workload-IsRead : (text : Bytes) → Post (parse_workload text) IsRead
unfolding parse_workload
parse_workload-IsRead text = Post-then IsRead (expect 123 text) _ λ rest.
    top_within-IsRead (suc (length rest)) zero_workload rest
      (record { count = inl refl; slots = tt; state = refl })

pub record IsWorkload (w : Workload) : Type 0 where
  pub state_pos : 1 ≤ w.state_count
  pub state_count : w.state_count ≡ length w.state_tokens % 0x1_0000_0000
  pub questions_pos : 1 ≤ w.question_count
  pub questions_max : w.question_count ≤ max_branches
  pub question_count :
      (length w.questions ≡ w.question_count)
      ⊎ ((length w.questions ≡ 16) × (16 < w.question_count))
  pub slots : All (IsSlot w.max_suffix_count) w.questions

check_workload-IsWorkload : (w : Workload) → IsRead w → Post (check_workload w) IsWorkload
unfolding check_workload
check_workload-IsWorkload w h =
    Post-require IsWorkload (not (w.state_count == 0)) no_state _ λ state.
      Post-require IsWorkload (not (w.question_count == 0)) no_questions _ λ questions.
        Post-require IsWorkload (leb w.question_count max_branches) too_many_questions (ok w) λ few.
          record {
            state_pos = ground (arith, state);
            state_count = h.state;
            questions_pos = ground (arith, questions);
            questions_max = ground (arith, few);
            question_count = h.count;
            slots = h.slots;
          }

-- Whatever text `q3_workload_load` accepts gives a workload with state tokens and 1 to 32 questions; as
-- many slots as it counts are there, or 16 where it counts more; and in each slot stands a question
-- with suffix tokens, as many as it counts and no more than `max_suffix_count`, with 1 to 30
-- candidates and an expected index below their number, or there are zeros.
pub workload_load-IsWorkload :
    (text : Bytes) (w : Workload) → workload_load text ≡ ok w → IsWorkload w
unfolding workload_load
workload_load-IsWorkload text w h =
    let run : Post (workload_load text) IsWorkload =
      Post-bind IsRead IsWorkload (parse_workload text) (λ v. check_workload v)
        (parse_workload-IsRead text) λ v p. check_workload-IsWorkload v p in
    Post-eq-ok IsWorkload (workload_load text) run h
