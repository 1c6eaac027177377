-- ===== src/Workload/Load/Sound.antt =====
-- What `q3_workload_load` of src/q3_workload.c accepts.
use sera_c.Workload.Load.{add_question, questions_within, Workload, questions_next, grown}
use sera_c.Workload.{
  skip_ws, Question, question_value, with_candidates, max_candidates, count32, read_string,
  read_uint_array, read_uint, candidate_range, skip_unknown, zero_question, read_question,
  check_question, question_next, question_within, expect, question_member, no_suffix, peek,
  WorkloadError, no_candidates, index_range, past_end, read_key, separator,
}
use sera_c.Common.{
  ℕ, ◌≡◌, ◌≤◌, Bytes, length, ◌%◌, Post, ◌<◌, Post-if, List, Post-require, bytes_eq, codes, not,
  Post-then, ◌==◌, ◌||◌, ltb, refl, ok, arith, inl, ◌⊎◌, All, length-append, Result, inr, suc, ◌∷◌,
  Post-bind, require, [], Bool, true, All-append, max, false, zero, All_map, drop, require_post,
}

pub record IsQuestion (q : Question) : Type 0 where
  pub suffix_pos : 1 ≤ q.suffix_count
  pub suffix_count : q.suffix_count ≡ length q.suffix_tokens % 0x1_0000_0000
  pub candidates_pos : 1 ≤ q.candidate_count
  pub candidates_max : q.candidate_count ≤ max_candidates
  pub candidate_count : q.candidate_count ≡ length q.candidate_ids % 0x1_0000_0000
  pub index : q.expected_index < q.candidate_count

-- What every question satisfies while its members are read.
record IsPartial (q : Question) : Type 0 where
  suffix : q.suffix_count ≡ length q.suffix_tokens % 0x1_0000_0000
  candidates : q.candidate_count ≡ length q.candidate_ids % 0x1_0000_0000
  candidates_max : q.candidate_count ≤ max_candidates

with_candidates-IsPartial :
    (q : Question) (r : List ℕ × Bytes)
    → IsPartial q
    → Post (with_candidates q r) (λ x. IsPartial x.0)
unfolding with_candidates
with_candidates-IsPartial q (ids, s) h =
    Post-require (λ (x : Question × Bytes). IsPartial x.0)
      (not (count32 ids == 0 || ltb max_candidates (count32 ids))) candidate_range
      (ok (record q { candidate_ids = ids; candidate_count = count32 ids }, s))
      λ range. record {
        suffix = h.suffix;
        candidates = refl;
        candidates_max = ground (arith, range);
      }

question_value-IsPartial :
    (key : Bytes) (q : Question) (s : Bytes)
    → IsPartial q
    → Post (question_value key q s) (λ r. IsPartial r.0)
unfolding question_value
question_value-IsPartial key q s h =
    let Q : Question × Bytes → Type 0 = λ r. IsPartial r.0 in
    Post-if Q (bytes_eq key (codes "id")) _ _
      (Post-then Q (read_string 16 s) _ λ r. record {
        suffix = h.suffix;
        candidates = h.candidates;
        candidates_max = h.candidates_max;
      })
      (Post-if Q (bytes_eq key (codes "category")) _ _
        (Post-then Q (read_string 32 s) _ λ r. record {
          suffix = h.suffix;
          candidates = h.candidates;
          candidates_max = h.candidates_max;
        })
        (Post-if Q (bytes_eq key (codes "suffix_tokens")) _ _
          (Post-then Q (read_uint_array s) _ λ r. record {
            suffix = refl;
            candidates = h.candidates;
            candidates_max = h.candidates_max;
          })
          (Post-if Q (bytes_eq key (codes "candidate_token_ids")) _ _
            (Post-then Q (read_uint_array s) _ λ r. with_candidates-IsPartial q r h)
            (Post-if Q (bytes_eq key (codes "expected_index")) _ _
              (Post-then Q (read_uint s) _ λ r. record {
                suffix = h.suffix;
                candidates = h.candidates;
                candidates_max = h.candidates_max;
              })
              (Post-then Q (skip_unknown s) _ λ rest. h)))))

question_next-IsPartial :
    (later : Question → Bytes → Result WorkloadError (Question × Bytes)) (q : Question)
    (sep : Bool × Bytes)
    → ((s : Bytes) → Post (later q s) (λ r. IsPartial r.0))
    → IsPartial q
    → Post (question_next later q sep) (λ r. IsPartial r.0)
unfolding question_next
question_next-IsPartial later q (true, rest) ih h = h
question_next-IsPartial later q (false, rest) ih h = ih rest

check_question-IsQuestion :
    (r : Question × Bytes) → IsPartial r.0 → Post (check_question r) (λ x. IsQuestion x.0)
unfolding check_question
check_question-IsQuestion (q, s) p =
    let Q : Question × Bytes → Type 0 = λ r. IsQuestion r.0 in
    Post-require Q (not (q.suffix_count == 0)) no_suffix _ λ suffix.
      Post-require Q (not (q.candidate_count == 0)) no_candidates _ λ candidates.
        Post-require Q (ltb q.expected_index q.candidate_count) index_range (ok (q, s)) λ index.
          record {
            suffix_pos = ground (arith, suffix);
            suffix_count = p.suffix;
            candidates_pos = ground (arith, candidates);
            candidates_max = p.candidates_max;
            candidate_count = p.candidates;
            index = ground (arith, index);
          }

question_within-IsPartial :
    (n : ℕ) (q : Question) (s : Bytes)
    → IsPartial q
    → Post (question_within n q s) (λ r. IsPartial r.0)
unfolding question_within question_member
question_within-IsPartial zero q s h = tt
question_within-IsPartial (suc n) q s h =
    let Q : Question × Bytes → Type 0 = λ r. IsPartial r.0 in
    Post-if Q (peek (skip_ws s) == 125) (ok (q, drop 1 (skip_ws s))) _ h (
      Post-then Q (read_key (skip_ws s)) _ λ key.
        Post-bind Q Q (question_value key.0 q key.1) _ (question_value-IsPartial key.0 q key.1 h)
          λ r p. Post-then Q (separator 125 r.1) _ λ sep.
            question_next-IsPartial (question_within n) r.0 sep
              (λ rest. question_within-IsPartial n r.0 rest p) p)

zero-IsPartial : IsPartial zero_question
zero-IsPartial = record { suffix = refl; candidates = refl; candidates_max = omega arith }

-- Every question that `read_question` accepts.
read_question-IsQuestion : (s : Bytes) → Post (read_question s) (λ r. IsQuestion r.0)
unfolding read_question check_question
read_question-IsQuestion s =
    let Q : Question × Bytes → Type 0 = λ r. IsQuestion r.0 in
    Post-then Q (expect 123 s) _ λ rest.
      Post-bind (λ (r : Question × Bytes). IsPartial r.0) Q
        (question_within (suc (length rest)) zero_question rest) _
        (question_within-IsPartial (suc (length rest)) zero_question rest zero-IsPartial)
        λ r p. check_question-IsQuestion r p

-- A question, or a slot of a new array that was never written.
abbrev pub IsSlot : ℕ → Question → Type 0
IsSlot max_suffix q = (IsQuestion q × (q.suffix_count ≤ max_suffix)) ⊎ (q ≡ zero_question)

pub record IsRead (w : Workload) : Type 0 where
  pub count :
      (length w.questions ≡ w.question_count)
      ⊎ ((length w.questions ≡ 16) × (16 < w.question_count))
  pub slots : All (IsSlot w.max_suffix_count) w.questions
  pub state : w.state_count ≡ length w.state_tokens % 0x1_0000_0000

IsSlot-more : (m n : ℕ) → m ≤ n → (q : Question) → IsSlot m q → IsSlot n q
IsSlot-more m n h q (inl (p, less)) = inl (p, omega (arith, h, less))
IsSlot-more m n h q (inr e) = inr e

add_question-IsRead :
    (w : Workload) (q : Question)
    → length w.questions ≡ w.question_count
    → IsRead w
    → IsQuestion q
    → IsRead (add_question w q)
unfolding add_question
add_question-IsRead w q filled h p = record {
  count = inl (omega (arith, filled, length-append w.questions (q ∷ [])));
  slots =
      All-append (IsSlot (max w.max_suffix_count q.suffix_count)) w.questions (q ∷ [])
        (All_map (IsSlot w.max_suffix_count) (IsSlot (max w.max_suffix_count q.suffix_count))
          (IsSlot-more w.max_suffix_count (max w.max_suffix_count q.suffix_count) (omega arith))
          w.questions h.slots)
        (inl (p, omega arith), tt);
  state = h.state;
}

add_question-filled :
    (w : Workload) (q : Question)
    → length w.questions ≡ w.question_count
    → length (add_question w q).questions ≡ (add_question w q).question_count
unfolding add_question
add_question-filled w q filled = omega (arith, filled, length-append w.questions (q ∷ []))

-- The counted slots are there, or the array is a new one that is too short.
abbrev pub HasSlots : ℕ → Workload → Type 0
HasSlots cap w = (length w.questions ≡ w.question_count) ⊎ ((cap ≡ 16) × (16 < w.question_count))

-- A question that is written has its slot.
slot-filled :
    (cap : ℕ) (w : Workload)
    → HasSlots cap w
    → ltb w.question_count (grown w.question_count cap) ≡ true
    → length w.questions ≡ w.question_count
unfolding grown
slot-filled cap w (inl filled) inside = filled
slot-filled cap w (inr (new, many)) inside = ground (arith, new, many, inside)

questions_next-IsRead :
    (later : ℕ → Workload → Bytes → Result WorkloadError (Workload × Bytes)) (cap : ℕ)
    (w : Workload) (sep : Bool × Bytes)
    → ((s : Bytes) → Post (later cap w s) (λ r. IsRead r.0))
    → IsRead w
    → Post (questions_next later cap w sep) (λ r. IsRead r.0)
unfolding questions_next
questions_next-IsRead later cap w (true, rest) ih h = h
questions_next-IsRead later cap w (false, rest) ih h = ih rest

pub questions_within-IsRead :
    (n cap : ℕ) (w : Workload) (s : Bytes)
    → HasSlots cap w
    → IsRead w
    → Post (questions_within n cap w s) (λ r. IsRead r.0)
unfolding questions_within
questions_within-IsRead zero cap w s slots h = tt
questions_within-IsRead (suc n) cap w s slots h =
    let Q : Workload × Bytes → Type 0 = λ r. IsRead r.0 in
    let room = grown w.question_count cap in
    Post-bind (λ done. ltb w.question_count room ≡ true) Q
      (require (ltb w.question_count room) past_end) _
      (require_post (ltb w.question_count room) past_end)
      λ done inside.
        Post-bind (λ (r : Question × Bytes). IsQuestion r.0) Q (read_question s) _
          (read_question-IsQuestion s)
          λ r p. Post-then Q (separator 93 r.1) _ λ sep.
            let v = add_question w r.0 in
            let filled = slot-filled cap w slots inside in
            let read = add_question-IsRead w r.0 filled h p in
            questions_next-IsRead (questions_within n) room v sep
              (λ rest.
                questions_within-IsRead n room v rest (inl (add_question-filled w r.0 filled)) read)
              read
