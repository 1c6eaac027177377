-- ===== src/Workload/Load.antt =====
-- The top level of `q3_workload_load`, src/q3_workload.c, from the text on.
pub mod Sound
pub mod Whole
use sera_c.Workload.{
  skip_ws, Question, WorkloadError, zero_question, expect, read_key, malformed, peek, separator,
  no_state, read_uint_array, past_end, count32, read_question, skip_string, no_questions,
  unknown_key, max_branches, too_many_questions,
}
use sera_c.Common.{
  min, ℕ, if◌then◌else◌, List, Bytes, Result, [], ◌==◌, ◌++◌, suc, ◌>>=◌, bytes_eq, require, ◌∷◌,
  ◌*◌, err, Bool, ok, codes, zero, length, ◌+◌, true, not, false, max, ltb, ◌>>◌, drop, leb,
}

pub record Workload : Type 0 where
  pub state_tokens : List ℕ
  pub state_count : ℕ
  pub questions : List Question
  pub question_count : ℕ
  pub max_suffix_count : ℕ

abbrev pub zero_workload : Workload
zero_workload = record {
  state_tokens = [];
  state_count = 0;
  questions = [];
  question_count = 0;
  max_suffix_count = 0;
}

-- The array doubles where it is full.
unfoldable pub grown : ℕ → ℕ → ℕ
grown count cap = if count == cap then cap * 2 else cap

unfoldable pub add_question : Workload → Question → Workload
add_question w q = record w {
  questions = w.questions ++ (q ∷ []);
  question_count = w.question_count + 1;
  max_suffix_count = max w.max_suffix_count q.suffix_count;
}

-- Behind a question, with the capacity of the array.
unfoldable pub questions_next :
    (ℕ → Workload → Bytes → Result WorkloadError (Workload × Bytes))
    → ℕ
    → Workload
    → Bool × Bytes
    → Result WorkloadError (Workload × Bytes)
questions_next later cap w (true, rest) = ok (w, rest)
questions_next later cap w (false, rest) = later cap w rest

-- The loop over the questions; each round takes one byte at least. A question is written into the
-- array, which fails here where the array has no such slot.
unfoldable pub questions_within : ℕ → ℕ → Workload → Bytes → Result WorkloadError (Workload × Bytes)
questions_within zero cap w s = err malformed
questions_within (suc n) cap w s =
    let room = grown w.question_count cap in
    require (ltb w.question_count room) past_end
    >> (read_question s >>= λ r.
        (separator 93 r.1 >>= λ sep.
        questions_next (questions_within n) room (add_question w r.0) sep))

-- A new array of 16 zero slots; the count of the questions stays, and `questions` is the counted slots
-- that are there.
abbrev zeros : ℕ → List Question
zeros zero = []
zeros (suc n) = zero_question ∷ zeros n

unfoldable pub new_array : Workload → Workload
new_array w = record w { questions = zeros (min w.question_count 16) }

unfoldable pub read_questions : Workload → Bytes → Result WorkloadError (Workload × Bytes)
read_questions w s0 = expect 91 s0 >>= λ s1.
    if peek (skip_ws s1) == 93
    then ok (new_array w, drop 1 (skip_ws s1))
    else questions_within (length s0) 16 (new_array w) (skip_ws s1)

-- The value of a top-level key.
unfoldable pub top_value : Bytes → Workload → Bytes → Result WorkloadError (Workload × Bytes)
top_value key w s =
    if bytes_eq key (codes "state_tokens")
    then (read_uint_array s >>= λ r.
        ok (record w { state_tokens = r.0; state_count = count32 r.0 }, r.1))
    else if bytes_eq key (codes "questions")
    then read_questions w s
    else if bytes_eq key (codes "state_prompt")
    then (skip_string s >>= λ rest. ok (w, rest))
    else err unknown_key

unfoldable pub top_next :
    (Workload → Bytes → Result WorkloadError Workload)
    → Workload
    → Bool × Bytes
    → Result WorkloadError Workload
top_next later w (true, rest) = ok w
top_next later w (false, rest) = later w rest

unfoldable pub top_member :
    (Workload → Bytes → Result WorkloadError Workload)
    → Workload
    → Bytes
    → Result WorkloadError Workload
top_member later w s = read_key s >>= λ key.
    (top_value key.0 w key.1 >>= λ r. (separator 125 r.1 >>= λ sep. top_next later r.0 sep))

-- The loop over the top-level keys; each round takes one byte at least.
unfoldable pub top_within : ℕ → Workload → Bytes → Result WorkloadError Workload
top_within zero w s = err malformed
top_within (suc n) w s =
    if peek (skip_ws s) == 125 then ok w else top_member (top_within n) w (skip_ws s)

unfoldable pub parse_workload : Bytes → Result WorkloadError Workload
parse_workload text = expect 123 text >>= λ rest. top_within (suc (length rest)) zero_workload rest

-- The checks behind the parse.
unfoldable pub check_workload : Workload → Result WorkloadError Workload
check_workload w =
    require (not (w.state_count == 0)) no_state
    >> (require (not (w.question_count == 0)) no_questions
        >> (require (leb w.question_count max_branches) too_many_questions >> ok w))

-- `q3_workload_load` on the text of the file. What it frees is not modelled.
unfoldable pub workload_load : Bytes → Result WorkloadError Workload
workload_load text = parse_workload text >>= λ w. check_workload w
