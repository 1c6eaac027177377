-- ===== src/Workload/Tests.antt =====
-- Small workload files, and the theorems about src/q3_workload.c at them. An apostrophe stands for
-- the quotation mark.
use sera_c.Json.Escape.{escape}
use sera_c.Workload.Arrays.{array_bytes, read_uint_array-array_bytes}
use sera_c.Workload.Load.Whole.{IsWorkload, workload_load-IsWorkload}
use sera_c.Workload.Load.{
  Workload, workload_load, parse_workload, top_within, top_member, top_next, check_workload,
  top_value, read_questions, new_array, questions_within, questions_next, grown, add_question,
}
use sera_c.Workload.{
  skip_ws, Question, read_string, read_uint, read_uint_array, string_within, uint_digits,
  no_questions, read_char, read_escaped, keep, read_key, step, expect, past_end, items_within,
  items_next, separator, read_question, question_within, question_member, question_next,
  question_value, with_candidates, check_question, string_more, zero_question,
}
use sera_c.Common.{
  ◌≡◌, Bytes, ◌∷◌, codes, ◌++◌, err, [], if◌then◌else◌, ok, refl, ◌==◌, arith, bytes_eq, c_text,
}

quoted : Bytes → Bytes
quoted [] = []
quoted (c ∷ s) = (if c == 39 then 34 else c) ∷ quoted s

abbrev question_text : Bytes
question_text =
    codes "{'id':'q1', 'suffix_tokens':[5,6],'candidate_token_ids':[7,8],'expected_index':1}"

abbrev small : Bytes
small = codes "{'state_tokens':[1,2,3],'questions':[" ++ (question_text ++ codes "]}")

abbrev question : Question
question = record {
  id = codes "q1";
  category = [];
  suffix_tokens = 5 ∷ 6 ∷ [];
  suffix_count = 2;
  candidate_ids = 7 ∷ 8 ∷ [];
  candidate_count = 2;
  expected_index = 1;
}

abbrev workload : Workload
workload = record {
  state_tokens = 1 ∷ 2 ∷ 3 ∷ [];
  state_count = 3;
  questions = question ∷ [];
  question_count = 1;
  max_suffix_count = 2;
}

small_loaded : workload_load (quoted small) ≡ ok workload
unfolding quoted workload_load parse_workload top_within top_member top_next top_value read_key
    read_string string_within string_more read_char read_escaped keep escape step skip_ws expect
    read_uint uint_digits read_uint_array items_within items_next separator read_questions new_array
    questions_within questions_next grown add_question read_question question_within question_member
    question_next question_value with_candidates check_question check_workload bytes_eq c_text
small_loaded = refl

workload_load-IsWorkload_example : IsWorkload workload
workload_load-IsWorkload_example = workload_load-IsWorkload (quoted small) workload small_loaded

-- A second key "questions" leaves zeros of the question before it.
abbrev twice : Bytes
twice =
    codes "{'state_tokens':[1,2,3],'questions':[" ++ (question_text ++ codes "],'questions':[]}")

twice_loaded :
    workload_load (quoted twice) ≡ ok (record workload { questions = zero_question ∷ [] })
unfolding quoted workload_load parse_workload top_within top_member top_next top_value read_key
    read_string string_within string_more read_char read_escaped keep escape step skip_ws expect
    read_uint uint_digits read_uint_array items_within items_next separator read_questions new_array
    questions_within questions_next grown add_question read_question question_within question_member
    question_next question_value with_candidates check_question check_workload bytes_eq c_text
twice_loaded = refl

-- No questions: the check behind the parse fails.
abbrev no_question : Bytes
no_question = codes "{'state_tokens':[1]}"

no_question_refused : workload_load (quoted no_question) ≡ err no_questions
unfolding quoted workload_load parse_workload top_within top_member top_next top_value read_key
    read_string string_within string_more read_char read_escaped keep escape step skip_ws expect
    read_uint uint_digits read_uint_array items_within items_next separator check_workload bytes_eq
    c_text
no_question_refused = refl

-- A backslash at the text's end takes the reader over it, and so does a short `\u`.
over_the_end : read_string 64 (34 ∷ 97 ∷ 92 ∷ []) ≡ err past_end
unfolding read_string string_within string_more read_char read_escaped keep escape step
over_the_end = refl

short_escape : read_string 64 (34 ∷ 92 ∷ 117 ∷ 49 ∷ []) ≡ err past_end
unfolding read_string string_within string_more read_char read_escaped keep escape step
short_escape = refl

-- 2 ^ 64 + 7 is read as 7.
wrapped_number : read_uint (codes "18446744073709551623,") ≡ ok (7, codes ",")
unfolding read_uint skip_ws uint_digits
wrapped_number = refl

read_uint_array-array_bytes_example :
    read_uint_array (array_bytes (0 ∷ 4294967295 ∷ 12 ∷ []) ++ codes ",")
    ≡ ok (0 ∷ 4294967295 ∷ 12 ∷ [], codes ",")
read_uint_array-array_bytes_example =
    read_uint_array-array_bytes (0 ∷ 4294967295 ∷ 12 ∷ []) (codes ",") (ground arith)
