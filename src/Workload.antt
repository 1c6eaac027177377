-- ===== src/Workload.antt =====
-- The reader of workload files, src/q3_workload.c, from the file's text to the workload. A place in
-- the text is the bytes from it on; at the text's end stands the terminating zero. Allocations are
-- taken to succeed.
pub mod Load
pub mod Arrays
mod Tests
use sera_c.Common.{
  ℕ, Bytes, if◌then◌else◌, ltb, Result, ◌∷◌, ◌==◌, List, leb, Bool, drop, ◌>>=◌, [], err, require,
  ◌||◌, length, ◌>>◌, ok, ◌&&◌, suc, ◌+◌, zero, add64, false, true, u32_max, ◌++◌, mul64, ◌-◌, not,
  ◌%◌, bytes_eq, c_text, codes,
}

-- The failures; `past_end` is a step over the terminating zero, or a question written behind its
-- array, after which the program reads or writes memory that is not its own.
pub data WorkloadError : Type 0 where
  past_end : WorkloadError
  malformed : WorkloadError
  unexpected : WorkloadError
  candidate_range : WorkloadError
  no_suffix : WorkloadError
  no_candidates : WorkloadError
  index_range : WorkloadError
  unknown_key : WorkloadError
  no_state : WorkloadError
  no_questions : WorkloadError
  too_many_questions : WorkloadError

-- `**p`.
abbrev pub peek : Bytes → ℕ
peek [] = 0
peek (c ∷ s) = c

unfoldable pub skip_ws : Bytes → Bytes
skip_ws [] = []
skip_ws (c ∷ s) =
    let later = skip_ws s in if c == 32 || c == 9 || c == 10 || c == 13 then later else c ∷ s

-- `p += n`.
unfoldable pub step : ℕ → Bytes → Result WorkloadError Bytes
step n s = if ltb (length s) n then err past_end else ok (drop n s)

-- `skip_string`, behind the opening quote; each round takes one byte at least.
unfoldable pub skip_string_within : ℕ → Bytes → Result WorkloadError Bytes
skip_string_within zero s = err malformed
skip_string_within (suc n) [] = err malformed
skip_string_within (suc n) (c ∷ s) =
    let plain = skip_string_within n s in
    let escaped = skip_string_within n (drop 1 s) in
    if c == 0
    then err malformed
    else if c == 92
    then (if peek s == 0 then err malformed else escaped)
    else if c == 34
    then ok s
    else plain

unfoldable pub skip_string : Bytes → Result WorkloadError Bytes
skip_string s = if peek s == 34 then skip_string_within (length s) (drop 1 s) else err malformed

-- The character of an escape, but `\u`.
unfoldable pub escape : ℕ → ℕ
escape c = if c == 110 then 10 else if c == 116 then 9 else if c == 114 then 13 else c

-- A character is kept where the buffer has room for it and the zero.
unfoldable pub keep : ℕ → Bytes → ℕ → Bytes
keep room out c = if ltb (length out + 1) room then out ++ (c ∷ []) else out

-- Behind a backslash: the character and the text behind it.
unfoldable pub read_escaped : Bytes → Result WorkloadError (ℕ × Bytes)
read_escaped s =
    if peek s == 117
    then (step 5 s >>= λ rest. ok (63, rest))
    else (step 1 s >>= λ rest. ok (escape (peek s), rest))

-- One character of a string.
unfoldable pub read_char : Bytes → Result WorkloadError (ℕ × Bytes)
read_char s = if peek s == 92 then read_escaped (drop 1 s) else ok (peek s, drop 1 s)

-- A round of the loop, with the rounds behind it.
unfoldable pub string_more :
    (Bytes → Bytes → Result WorkloadError (Bytes × Bytes))
    → ℕ
    → Bytes
    → Result WorkloadError (ℕ × Bytes)
    → Result WorkloadError (Bytes × Bytes)
string_more later room out (err e) = err e
string_more later room out (ok (c, rest)) = later (keep room out c) rest

-- The loop of `read_string`; each round takes one byte at least.
unfoldable pub string_within : ℕ → ℕ → Bytes → Bytes → Result WorkloadError (Bytes × Bytes)
string_within zero room out s = err malformed
string_within (suc n) room out s =
    if peek s == 34
    then ok (out, drop 1 s)
    else if peek s == 0
    then err malformed
    else string_more (string_within n room) room out (read_char s)

unfoldable pub read_string : ℕ → Bytes → Result WorkloadError (Bytes × Bytes)
read_string room s =
    if peek s == 34 then string_within (length s) room [] (drop 1 s) else err malformed

-- The digits from `v` on, in 64 bits.
unfoldable pub uint_digits : ℕ → Bytes → ℕ × Bytes
uint_digits v [] = (v, [])
uint_digits v (c ∷ s) =
    if leb 48 c && leb c 57 then uint_digits (add64 (mul64 v 10) (c - 48)) s else (v, c ∷ s)

unfoldable pub read_uint : Bytes → Result WorkloadError (ℕ × Bytes)
read_uint s0 =
    let s = skip_ws s0 in
    require (leb 48 (peek s) && leb (peek s) 57) malformed
    >> (require (leb (uint_digits 0 s).0 u32_max) malformed >> ok (uint_digits 0 s))

unfoldable pub expect : ℕ → Bytes → Result WorkloadError Bytes
expect c s = require (peek (skip_ws s) == c) unexpected >> ok (drop 1 (skip_ws s))

-- Behind an item: the end, or another.
unfoldable pub separator : ℕ → Bytes → Result WorkloadError (Bool × Bytes)
separator close s0 =
    let s = skip_ws s0 in
    if peek s == 44
    then ok (false, drop 1 s)
    else if peek s == close
    then ok (true, drop 1 s)
    else err unexpected

unfoldable pub items_next :
    (Bytes → Result WorkloadError (List ℕ × Bytes))
    → ℕ
    → Bool × Bytes
    → Result WorkloadError (List ℕ × Bytes)
items_next later v (true, rest) = ok (v ∷ [], rest)
items_next later v (false, rest) = later rest >>= λ more. ok (v ∷ more.0, more.1)

-- The loop of `read_uint_array`; each round takes one byte at least.
unfoldable pub items_within : ℕ → Bytes → Result WorkloadError (List ℕ × Bytes)
items_within zero s = err malformed
items_within (suc n) s =
    read_uint s >>= λ item. (separator 93 item.1 >>= λ sep. items_next (items_within n) item.0 sep)

unfoldable pub read_uint_array : Bytes → Result WorkloadError (List ℕ × Bytes)
read_uint_array s0 = expect 91 s0 >>= λ s1.
    if peek (skip_ws s1) == 93
    then ok ([], drop 1 (skip_ws s1))
    else items_within (length s0) (skip_ws s1)

-- `Q3_MAX_BRANCHES` and `Q3_MAX_CANDIDATES`.
abbrev pub max_branches : ℕ
max_branches = 32

abbrev pub max_candidates : ℕ
max_candidates = 30

-- `candidate_ids` is what the first `candidate_count` of its slots hold.
pub record Question : Type 0 where
  pub id : Bytes
  pub category : Bytes
  pub suffix_tokens : List ℕ
  pub suffix_count : ℕ
  pub candidate_ids : List ℕ
  pub candidate_count : ℕ
  pub expected_index : ℕ

abbrev pub zero_question : Question
zero_question = record {
  id = [];
  category = [];
  suffix_tokens = [];
  suffix_count = 0;
  candidate_ids = [];
  candidate_count = 0;
  expected_index = 0;
}

-- A count is a `uint32_t`.
abbrev pub count32 : List ℕ → ℕ
count32 xs = length xs % 0x1_0000_0000

unfoldable pub with_candidates : Question → List ℕ × Bytes → Result WorkloadError (Question × Bytes)
with_candidates q (ids, s) =
    require (not (count32 ids == 0 || ltb max_candidates (count32 ids))) candidate_range
    >> ok (record q { candidate_ids = ids; candidate_count = count32 ids }, s)

-- The value of a key that the reader does not know.
unfoldable pub skip_unknown : Bytes → Result WorkloadError Bytes
skip_unknown s =
    if peek s == 34
    then skip_string s
    else if peek s == 91
    then (read_uint_array s >>= λ r. ok r.1)
    else (read_uint s >>= λ r. ok r.1)

-- The value of a question's key, at the text `s`.
unfoldable pub question_value : Bytes → Question → Bytes → Result WorkloadError (Question × Bytes)
question_value key q s =
    if bytes_eq key (codes "id")
    then (read_string 16 s >>= λ r. ok (record q { id = r.0 }, r.1))
    else if bytes_eq key (codes "category")
    then (read_string 32 s >>= λ r. ok (record q { category = r.0 }, r.1))
    else if bytes_eq key (codes "suffix_tokens")
    then (read_uint_array s >>= λ r.
        ok (record q { suffix_tokens = r.0; suffix_count = count32 r.0 }, r.1))
    else if bytes_eq key (codes "candidate_token_ids")
    then (read_uint_array s >>= λ r. with_candidates q r)
    else if bytes_eq key (codes "expected_index")
    then (read_uint s >>= λ r. ok (record q { expected_index = r.0 }, r.1))
    else (skip_unknown s >>= λ rest. ok (q, rest))

-- A key and the text behind its colon; a key is a C string.
unfoldable pub read_key : Bytes → Result WorkloadError (Bytes × Bytes)
read_key s =
    read_string 64 s >>= λ key. (expect 58 key.1 >>= λ rest. ok (c_text key.0, skip_ws rest))

unfoldable pub question_next :
    (Question → Bytes → Result WorkloadError (Question × Bytes))
    → Question
    → Bool × Bytes
    → Result WorkloadError (Question × Bytes)
question_next later q (true, rest) = ok (q, rest)
question_next later q (false, rest) = later q rest

-- A member of the question, and what is behind it.
unfoldable pub question_member :
    (Question → Bytes → Result WorkloadError (Question × Bytes))
    → Question
    → Bytes
    → Result WorkloadError (Question × Bytes)
question_member later q s = read_key s >>= λ key.
    (question_value key.0 q key.1 >>= λ r.
    (separator 125 r.1 >>= λ sep. question_next later r.0 sep))

-- The loop of `read_question`; each round takes one byte at least.
unfoldable pub question_within : ℕ → Question → Bytes → Result WorkloadError (Question × Bytes)
question_within zero q s = err malformed
question_within (suc n) q s =
    if peek (skip_ws s) == 125
    then ok (q, drop 1 (skip_ws s))
    else question_member (question_within n) q (skip_ws s)

unfoldable pub check_question : Question × Bytes → Result WorkloadError (Question × Bytes)
check_question r =
    require (not (r.0.suffix_count == 0)) no_suffix
    >> (require (not (r.0.candidate_count == 0)) no_candidates
        >> (require (ltb r.0.expected_index r.0.candidate_count) index_range >> ok r))

unfoldable pub read_question : Bytes → Result WorkloadError (Question × Bytes)
read_question s = expect 123 s >>= λ rest.
    (question_within (suc (length rest)) zero_question rest >>= λ r. check_question r)
