-- ===== src/Http.antt =====
-- The HTTP request head of src/server/q3_server.c: where it ends (header_end).
pub mod Head
mod Tests
use sera_c.Json.Values.{starts_with}
use sera_c.Common.{ℕ, Bytes, Option, none, some, ◌+◌, if◌then◌else◌, length, [], ◌∷◌}

-- A loop of `header_end` on the bytes from position `k` on: the position behind the first `mark`. The
-- program counts at the mark's last byte.
unfoldable pub find_mark : Bytes → ℕ → Bytes → Option ℕ
find_mark mark k [] = none
find_mark mark k (b ∷ bs) =
    if starts_with mark (b ∷ bs) then some (k + length mark) else find_mark mark (k + 1) bs

-- "\r\n\r\n" and "\n\n".
abbrev pub crlf_mark : Bytes
crlf_mark = 13 ∷ 10 ∷ 13 ∷ 10 ∷ []

abbrev pub lf_mark : Bytes
lf_mark = 10 ∷ 10 ∷ []

-- `header_end`; `none` is -1.
unfoldable pub header_end : Bytes → Option ℕ
header_end text = elim (find_mark crlf_mark 0 text) [
  | some e ↦ some e
  | none ↦ find_mark lf_mark 0 text
]
