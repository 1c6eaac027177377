-- ===== src/Json/Parser.antt =====
-- `parse_array`, `parse_object`, `parse_value` and `hd_json_parse`, src/io/hd_json.c. The loops have
-- a fuel of one round for each byte.
use sera_c.Json.{
  JsonError, expected_colon, unexpected_eof, too_deep, no_fuel, trailing_content, parse_error,
  parse_string, oom, unterminated_array, unterminated_object, expected_comma_object,
  expected_comma_array, unexpected_char,
}
use sera_c.Json.Values.{
  Json, Items, Members, no_items, item, no_members, member, array, object, string, boolean,
  null_value, skip_ws, starts_with, node, buffer, Request, grow_items, grow_members, json_new,
  is_digit, after_item, parse_number,
}
use sera_c.Common.{
  ℕ, Bool, Bytes, Result, ok, if◌then◌else◌, ◌>>=◌, ◌>>◌, err, require, ◌∷◌, suc, codes, ◌==◌, ◌||◌,
  zero, [], true, length, drop, ◌+◌, false,
}

-- The colon behind a key.
unfoldable pub colon : Bytes → Result JsonError Bytes
colon [] = err expected_colon
colon (c ∷ rest) = if c == 58 then ok rest else err expected_colon

unfoldable pub json_end : Json → Bytes → Result JsonError Json
json_end v [] = ok v
json_end v (c ∷ rest) = err trailing_content

module _ (memory : ℕ → Request → Bool) where
  -- The string case of `parse_value`.
  unfoldable pub string_value : Bytes → Result JsonError (Json × Bytes)
  string_value text = do
    require (memory (length text) node) oom
    (s, rest) ← parse_string (λ size. memory (length text) (buffer size)) text
    ok (string s, rest)

  unfoldable pub keyword : Bytes → Result JsonError (Json × Bytes)
  keyword text =
      if starts_with (codes "true") text
      then json_new memory (length text) parse_error (boolean true) (drop 4 text)
      else if starts_with (codes "false") text
      then json_new memory (length text) parse_error (boolean false) (drop 5 text)
      else if starts_with (codes "null") text
      then json_new memory (length text) parse_error null_value (drop 4 text)
      else err unexpected_char

  module _ (value : Bytes → Result JsonError (Json × Bytes)) where
    -- The loop of `parse_array` from its item number `count` on, in a table of `size`.
    unfoldable pub array_loop : ℕ → ℕ → ℕ → Bytes → Result JsonError (Items × Bytes)
    array_loop zero count size rest = err no_fuel
    array_loop (suc n) count size rest = do
      (v, rest1) ← value (skip_ws rest)
      size1 ← grow_items memory (length rest1) count size
      (ended, rest2) ← after_item 93 unterminated_array expected_comma_array (skip_ws rest1)
      elim ended [
        | true ↦ ok (item v no_items, rest2)
        | false ↦ (do (more, rest3) ← array_loop n (count + 1) size1 rest2; ok (item v more, rest3))
      ]

    -- Behind the bracket.
    unfoldable pub array_items : Bytes → Result JsonError (Json × Bytes)
    array_items [] = do (items, rest1) ← array_loop 1 0 0 []; ok (array items, rest1)
    array_items (c ∷ rest) = elim (c == 93) [
      | true ↦ ok (array no_items, rest)
      | false ↦ (do
        (items, rest1) ← array_loop (length rest + 2) 0 0 (c ∷ rest)
        ok (array items, rest1))
    ]

    unfoldable pub parse_array : Bytes → Result JsonError (Json × Bytes)
    parse_array rest = do require (memory (suc (length rest)) node) oom; array_items (skip_ws rest)

    unfoldable pub object_loop : ℕ → ℕ → ℕ → Bytes → Result JsonError (Members × Bytes)
    object_loop zero count size rest = err no_fuel
    object_loop (suc n) count size rest = do
      (key, rest1) ←
          parse_string (λ size. memory (length (skip_ws rest)) (buffer size)) (skip_ws rest)
      rest2 ← colon (skip_ws rest1)
      (v, rest3) ← value (skip_ws rest2)
      size1 ← grow_members memory (length rest3) count size
      (ended, rest4) ← after_item 125 unterminated_object expected_comma_object (skip_ws rest3)
      elim ended [
        | true ↦ ok (member key v no_members, rest4)
        | false ↦ (do
          (more, rest5) ← object_loop n (count + 1) size1 rest4
          ok (member key v more, rest5))
      ]

    unfoldable pub object_members : Bytes → Result JsonError (Json × Bytes)
    object_members [] = do (members, rest1) ← object_loop 1 0 0 []; ok (object members, rest1)
    object_members (c ∷ rest) = elim (c == 125) [
      | true ↦ ok (object no_members, rest)
      | false ↦ (do
        (members, rest1) ← object_loop (length rest + 2) 0 0 (c ∷ rest)
        ok (object members, rest1))
    ]

    unfoldable pub parse_object : Bytes → Result JsonError (Json × Bytes)
    parse_object rest = do
      require (memory (suc (length rest)) node) oom
      object_members (skip_ws rest)

    unfoldable pub value_of : Bytes → Result JsonError (Json × Bytes)
    value_of [] = err unexpected_eof
    value_of (c ∷ rest) =
        if c == 123
        then parse_object rest
        else if c == 91
        then parse_array rest
        else if c == 34
        then string_value (c ∷ rest)
        else if c == 45 || c == 43 || is_digit c
        then parse_number memory (c ∷ rest)
        else keyword (c ∷ rest)

  -- `left` depths are left of the limit: `depth > 512` is `513 - depth = 0`.
  unfoldable pub value_within : ℕ → Bytes → Result JsonError (Json × Bytes)
  value_within zero rest = err too_deep
  value_within (suc left) rest = value_of (value_within left) (skip_ws rest)

  unfoldable pub json_parse : Bytes → Result JsonError Json
  json_parse text = do (v, rest) ← value_within 513 text; json_end v (skip_ws rest)
