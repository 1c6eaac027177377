-- ===== src/Tokenizer/Pieces.antt =====
-- The pieces of a text in src/q3_tokenizer.c: the classes of code points (`cp_*`), and what one
-- round of `encode_text` takes off the front of the text. A position is the text from it on, and a
-- distance is a number of bytes. The program tests `p < n` before it reads a byte itself, and gives
-- `utf8_cp` the number of bytes that are left: a match on the list is that test, so a text that ends
-- is never read further, whatever stands behind it in memory.
pub mod Bounds
use sera_c.Tokenizer.Utf8.{or_else, utf8_cp}
use sera_c.Common.{
  ℕ, Bytes, Bool, ◌∷◌, leb, Option, not, ◌==◌, true, ◌+◌, ◌||◌, if◌then◌else◌, suc, length, ◌&&◌,
  some, false, [], drop, ◌*◌, none, zero,
}

abbrev within : ℕ → ℕ → ℕ → Bool
within low high c = leb low c && leb c high

unfoldable pub cp_letter : ℕ → Bool
cp_letter c =
    within 65 90 c
    || within 97 122 c
    || within 0xc0 0x2ff c
    || within 0x370 0x1fff c
    || within 0x3040 0x9fff c
    || within 0xa000 0xabff c
    || within 0xac00 0xd7af c

unfoldable pub cp_mark : ℕ → Bool
cp_mark c =
    within 0x300 0x36f c
    || within 0x1ab0 0x1aff c
    || within 0x1dc0 0x1dff c
    || within 0xfe20 0xfe2f c

unfoldable pub cp_number : ℕ → Bool
cp_number c = within 48 57 c || within 0x660 0x669 c || within 0x6f0 0x6f9 c

unfoldable pub cp_space : ℕ → Bool
cp_space c =
    c == 32
    || c == 9
    || c == 10
    || c == 13
    || c == 11
    || c == 12
    || c == 0x85
    || c == 0xa0
    || within 0x2000 0x200a c

unfoldable pub cp_newline : ℕ → Bool
cp_newline c = c == 10 || c == 13

unfoldable pub in_word : ℕ → Bool
in_word c = cp_letter c || cp_mark c

-- Neither a space nor part of a word or number.
unfoldable pub is_punctuation : ℕ → Bool
is_punctuation c = not (cp_space c || cp_letter c || cp_mark c || cp_number c)

unfoldable pub blank : ℕ → Bool
blank c = cp_space c && not (cp_newline c)

-- The bytes of the characters at the front that satisfy `p`, in at most `n` rounds.
unfoldable pub run_within : (ℕ → Bool) → ℕ → Bytes → ℕ
run_within p zero s = 0
run_within p (suc n) [] = 0
run_within p (suc n) (c ∷ s) =
    let z = (utf8_cp (c ∷ s)).1 in
    let later = run_within p n (drop z (c ∷ s)) in if p (utf8_cp (c ∷ s)).0 then z + later else 0

-- A round reads one byte at least.
unfoldable pub run : (ℕ → Bool) → Bytes → ℕ
run p s = run_within p (length s) s

-- The bytes at the front that satisfy `p`.
unfoldable pub byte_run : (ℕ → Bool) → Bytes → ℕ
byte_run p [] = 0
byte_run p (c ∷ s) = let later = byte_run p s in if p c then suc later else 0

abbrev pub is_empty : Bytes → Bool
is_empty [] = true
is_empty (c ∷ s) = false

-- One character after another: the distance of `f` behind the first character.
abbrev pub behind : Bytes → ℕ → (Bytes → ℕ) → ℕ
behind s k f = k + f (drop k s)

-- One letter of a contraction: `s`, `t`, `m`, `d`.
unfoldable pub is_short : ℕ → Bool
is_short d =
    d == 115 || d == 116 || d == 109 || d == 100 || d == 83 || d == 84 || d == 77 || d == 68

-- Two letters: `re`, `ve`, `Re`, `Ve`, `ll`.
unfoldable pub is_long : ℕ → ℕ → Bool
is_long d e = (d == 114 || d == 118 || d == 82 || d == 86) && e == 101 || d == 108 && e == 108

-- Behind an apostrophe, at the text `t`.
unfoldable pub contraction : Bytes → ℕ
contraction t =
    let d = utf8_cp t in
    let e = utf8_cp (drop d.1 t) in
    if is_short d.0
    then d.1
    else if leb (2 * d.1) (length t) && is_long d.0 e.0
    then d.1 + e.1
    else 0

-- Spaces before a word stay for it; other spaces are taken, all at once.
unfoldable pub spaces : Bytes → ℕ × Bool
spaces t =
    let w = byte_run (λ c. c == 32) t in
    if w == 0
    then (0, false)
    else if not (is_empty (drop w t)) && in_word (utf8_cp (drop w t)).0
    then (0, true)
    else (w, false)

unfoldable pub space_run : ℕ → Bytes → ℕ
space_run c t =
    let front = if c == 32 then spaces t else (0, false) in
    if front.1 then front.0 else behind t front.0 (run blank)

-- Behind a space `c` that is not the text's end.
unfoldable pub space_piece : ℕ → Bytes → ℕ
space_piece c t =
    let d = utf8_cp t in
    if (c == 32 || c == 9) && in_word d.0
    then behind t d.1 (run in_word)
    else if not (cp_space d.0) && not (cp_number d.0)
    then behind t d.1 (λ u. behind u (run is_punctuation u) (byte_run cp_newline))
    else space_run c t

-- A letter that a backslash escapes.
unfoldable pub is_escaped : ℕ → Bool
is_escaped d =
    d == 110
    || d == 114
    || d == 116
    || d == 98
    || d == 102
    || d == 34
    || d == 92
    || d == 47
    || d == 117

unfoldable pub escaped : ℕ → Bytes → ℕ
escaped c t = let d = utf8_cp t in if c == 92 && not (is_empty t) && is_escaped d.0 then d.1 else 0

-- A word behind an equals sign; `none` if there is none.
unfoldable pub grouped : ℕ → Bytes → Option ℕ
grouped c t =
    let d = utf8_cp t in
    if c == 61 && not (is_empty t) && in_word d.0 then some (behind t d.1 (run in_word)) else none

unfoldable pub symbol_rest : ℕ → Bytes → ℕ
symbol_rest c t = or_else (grouped c t) (run is_punctuation t)

-- Behind any other character `c`.
unfoldable pub symbol_piece : ℕ → Bytes → ℕ
symbol_piece c t = behind t (escaped c t) (λ u. behind u (symbol_rest c u) (byte_run cp_newline))

-- Behind the first character `c`.
unfoldable pub piece_behind : ℕ → Bytes → ℕ
piece_behind c t =
    if (c == 39 || c == 0x2019) && not (is_empty t)
    then contraction t
    else if in_word c
    then run in_word t
    else if cp_number c
    then 0
    else if cp_newline c
    then run cp_newline t
    else if cp_space c && not (is_empty t)
    then space_piece c t
    else if cp_space c
    then run blank t
    else symbol_piece c t

-- The length of the first piece of a text.
unfoldable pub piece_length : Bytes → ℕ
piece_length s = behind s (utf8_cp s).1 (piece_behind (utf8_cp s).0)
