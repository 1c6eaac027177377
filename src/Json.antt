-- ===== src/Json.antt =====
-- The JSON parser of src/io/hd_json.c: its errors and `parse_string` here, the values and numbers in
-- Json.Values, arrays, objects and `hd_json_parse` in Json.Parser. The parser's position is the bytes
-- that are left; the answers of `malloc` and `realloc` are the parameter `memory`, a function of the
-- size. A write outside a buffer and a loop that does not end are errors of their own, which the
-- program has not. The accessors of values are not modelled.
pub mod Buffers
pub mod Checking
pub mod Escape
pub mod Unicode
pub mod Values
pub mod Parser
pub mod Ends
pub mod Lengths
mod Tests
use sera_c.Common.{
  ℕ, Bytes, Bool, if◌then◌else◌, Option, Result, ok, leb, ◌>>◌, err, ◌>>=◌, ◌==◌, ltb, some, suc,
  require, length, ◌+◌, ◌∷◌, ◌&&◌, true, [], ◌++◌, mul64, zero, ◌-◌, ◌%◌, ◌*◌, false, ◌/◌, none,
}

pub data JsonError : Type 0 where
  no_string control_char bad_escape bad_unicode bad_hex bad_escape_char unterminated_string oom
        too_deep unexpected_eof unexpected_char unterminated_array expected_comma_array
        unterminated_object expected_colon expected_comma_object trailing_content parse_error :
      JsonError
  outside_buffer no_fuel : JsonError

-- The bytes written so far, `len` of them, and the size of the allocation.
pub record Buffer : Type 0 where
  pub bytes : Bytes
  pub cap : ℕ

-- `buf[len++] = c`.
unfoldable pub write : ℕ → Buffer → Result JsonError Buffer
write c b = do
  require (ltb (length b.bytes) b.cap) outside_buffer
  ok (record b { bytes = b.bytes ++ (c ∷ []) })

unfoldable pub hex_digit : ℕ → Result JsonError ℕ
hex_digit h =
    if leb 48 h && leb h 57
    then ok (h - 48)
    else if leb 97 h && leb h 102
    then ok (h - 97 + 10)
    else if leb 65 h && leb h 70
    then ok (h - 65 + 10)
    else err bad_hex

-- The four digits; `code << 4 | digit` is `16 * code + digit`, the digit being below 16.
unfoldable pub hex_digits : ℕ → ℕ → Bytes → Result JsonError (ℕ × Bytes)
hex_digits zero code rest = ok (code, rest)
hex_digits (suc n) code [] = err bad_unicode
hex_digits (suc n) code (h ∷ rest) = do d ← hex_digit h; hex_digits n (16 * code + d) rest

-- The last one, `c` behind the `switch`.
unfoldable pub last_byte : ℕ → ℕ
last_byte code = if ltb code 0x80 then code else 0x80 + code % 64

-- The character that an escape letter other than `u` stands for.
unfoldable pub escape_char : ℕ → Option ℕ
escape_char e =
    if e == 34
    then some 34
    else if e == 92
    then some 92
    else if e == 47
    then some 47
    else if e == 98
    then some 8
    else if e == 102
    then some 12
    else if e == 110
    then some 10
    else if e == 114
    then some 13
    else if e == 116
    then some 9
    else none

unfoldable pub known_escape : Buffer → Bytes → Option ℕ → Result JsonError (ℕ × Buffer × Bytes)
known_escape b rest none = err bad_escape_char
known_escape b rest (some c) = ok (c, b, rest)

unfoldable pub string_next :
    (Buffer → Bytes → Result JsonError (Bytes × Bytes))
    → Bool × Buffer × Bytes
    → Result JsonError (Bytes × Bytes)
string_next loop (true, b, rest) = ok (b.bytes, rest)
string_next loop (false, b, rest) = loop b rest

module _ (memory : ℕ → Bool) where
  -- `if (len + n >= cap)`: twice the room.
  unfoldable pub make_room : ℕ → Buffer → Result JsonError Buffer
  make_room n b =
      if leb b.cap (length b.bytes + n)
      then (do require (memory (mul64 b.cap 2)) oom; ok (record b { cap = mul64 b.cap 2 }))
      else ok b

  unfoldable pub append_char : ℕ → Buffer → Result JsonError Buffer
  append_char c b = do b1 ← make_room 1 b; write c b1

  -- The UTF-8 bytes before the last one, with the room for them; `|` joins bits that do not meet.
  unfoldable pub write_lead : ℕ → Buffer → Result JsonError Buffer
  write_lead code b =
      if ltb code 0x80
      then ok b
      else if ltb code 0x800
      then (do b1 ← make_room 2 b; write (0xc0 + code / 64) b1)
      else (do
        b1 ← make_room 3 b
        b2 ← write (0xe0 + code / 4096) b1
        write (0x80 + code / 64 % 64) b2)

  unfoldable pub unicode_escape : Buffer → Bytes → Result JsonError (ℕ × Buffer × Bytes)
  unicode_escape b rest = do
    require (leb 4 (length rest)) bad_unicode
    (code, rest1) ← hex_digits 4 0 rest
    b1 ← write_lead code b
    ok (last_byte code, b1, rest1)

  -- The `switch` behind a backslash: the character to append, the buffer and what is left.
  unfoldable pub read_escape : Buffer → Bytes → Result JsonError (ℕ × Buffer × Bytes)
  read_escape b [] = err bad_escape
  read_escape b (e ∷ rest) =
      if e == 117 then unicode_escape b rest else known_escape b rest (escape_char e)

  -- One round of the loop: whether the string has ended, the buffer and what is left. At the end
  -- the buffer takes the closing 0, which is not part of the string.
  unfoldable pub string_step : Buffer → Bytes → Result JsonError (Bool × Buffer × Bytes)
  string_step b [] = err unterminated_string
  string_step b (c ∷ rest) =
      if c == 34
      then (do require (ltb (length b.bytes) b.cap) outside_buffer; ok (true, b, rest))
      else if ltb c 0x20
      then err control_char
      else if c == 92
      then (do (c1, b1, rest1) ← read_escape b rest; b2 ← append_char c1 b1; ok (false, b2, rest1))
      else (do b1 ← append_char c b; ok (false, b1, rest))

  -- A round takes a byte at least, so as many rounds as bytes are enough.
  unfoldable pub string_loop : ℕ → Buffer → Bytes → Result JsonError (Bytes × Bytes)
  string_loop zero b rest = err no_fuel
  string_loop (suc n) b rest = string_step b rest >>= string_next (string_loop n)

  unfoldable pub parse_string : Bytes → Result JsonError (Bytes × Bytes)
  parse_string [] = err no_string
  parse_string (q ∷ rest) = do
    require (q == 34) no_string
    require (memory 32) oom
    string_loop (length rest + 1) (record { bytes = []; cap = 32 }) rest
