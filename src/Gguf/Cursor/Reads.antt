-- ===== src/Gguf/Cursor/Reads.antt =====
-- Reads of src/q3_gguf.c on a mapping whose bytes are known at the cursor: each takes exactly the
-- bytes that encode what it returns.
use sera_c.Common.{
  ℕ, ◌≤◌, ◌≡◌, refl, ap, ◌∙◌, ◌++◌, Bytes, length, take, take-append, drop-append, length-append,
  append_assoc, arith, u32_max, u64_max, true, ok, le_bytes, length-le_bytes, le_value-le_bytes,
}
use sera_c.Gguf.Cursor.{
  Cursor, cursor_has, cursor_read, cursor_skip, cursor_u32, cursor_u64, cursor_string, slice,
  advance,
}

-- A cursor behind `before`, in the mapping that goes on with `rest`.
abbrev pub between : Bytes → Bytes → Cursor
between before rest = record {
  base = before ++ rest;
  size = length (before ++ rest);
  pos = length before;
}

-- The mapping is one that 64-bit positions can address.
abbrev pub Fits : Bytes → Bytes → Type 0
Fits before rest = length (before ++ rest) ≤ u64_max

slice-between : (before xs rest : Bytes) → slice (between before (xs ++ rest)) (length xs) ≡ xs
slice-between before xs rest =
    ap (take (length xs)) (drop-append before (xs ++ rest)) ∙ take-append xs rest

pub between-append :
    (before xs rest : Bytes)
    → between (before ++ xs) rest
      ≡ record (between before (xs ++ rest)) { pos = length (before ++ xs) }
between-append before xs rest = rw append_assoc

module _ (before xs rest : Bytes) (fits : Fits before (xs ++ rest)) where
  pub Fits-append : Fits (before ++ xs) rest
  Fits-append = rw append_assoc fits

  cursor_has-between : cursor_has (between before (xs ++ rest)) (length xs) ≡ true
  unfolding cursor_has
  cursor_has-between = ground (arith, length-append before (xs ++ rest), length-append xs rest)

  advance-between : advance (between before (xs ++ rest)) (length xs) ≡ between (before ++ xs) rest
  advance-between = ground (
    arith,
    between-append before xs rest,
    length-append before (xs ++ rest),
    length-append before xs,
    length-append xs rest,
  )

  pub cursor_read-between :
      cursor_read (between before (xs ++ rest)) (length xs) ≡ ok (xs, between (before ++ xs) rest)
  unfolding cursor_read
  cursor_read-between = rw (cursor_has-between, slice-between before xs rest, advance-between) refl

  pub cursor_skip-between :
      cursor_skip (between before (xs ++ rest)) (length xs) ≡ ok (between (before ++ xs) rest)
  unfolding cursor_skip
  cursor_skip-between = rw (cursor_has-between, advance-between) refl

pub cursor_u32-between :
    (before rest : Bytes) (v : ℕ)
    → v ≤ u32_max
    → Fits before (le_bytes 4 v ++ rest)
    → cursor_u32 (between before (le_bytes 4 v ++ rest))
      ≡ ok (v, between (before ++ le_bytes 4 v) rest)
unfolding cursor_u32
cursor_u32-between before rest v small fits = ground (
  arith,
  cursor_read-between before (le_bytes 4 v) rest fits,
  length-le_bytes 4 v,
  le_value-le_bytes 4 v,
)

pub cursor_u64-between :
    (before rest : Bytes) (v : ℕ)
    → v ≤ u64_max
    → Fits before (le_bytes 8 v ++ rest)
    → cursor_u64 (between before (le_bytes 8 v ++ rest))
      ≡ ok (v, between (before ++ le_bytes 8 v) rest)
unfolding cursor_u64
cursor_u64-between before rest v small fits = ground (
  arith,
  cursor_read-between before (le_bytes 8 v) rest fits,
  length-le_bytes 8 v,
  le_value-le_bytes 8 v,
)

-- A string as the container holds it: its length and its bytes.
abbrev pub string_bytes : Bytes → Bytes
string_bytes s = le_bytes 8 (length s) ++ s

pub cursor_string-between :
    (before s rest : Bytes)
    → Fits before (string_bytes s ++ rest)
    → cursor_string (between before (string_bytes s ++ rest))
      ≡ ok (s, between (before ++ string_bytes s) rest)
unfolding cursor_string
cursor_string-between before s rest fits =
    let len = le_bytes 8 (length s) in
    let fits' : Fits before (len ++ (s ++ rest)) = rw (← append_assoc len s rest) fits in
    let small : length s ≤ u64_max = omega (
      arith,
      length-append before (len ++ (s ++ rest)),
      length-append len (s ++ rest),
      length-append s rest,
    ) in
    let inner : Fits (before ++ len) (s ++ rest) = Fits-append before len (s ++ rest) fits' in
    rw (append_assoc len s rest, cursor_u64-between before (s ++ rest) (length s) small fits')
      (rw
        (
          cursor_has-between (before ++ len) s rest inner,
          slice-between (before ++ len) s rest,
          advance-between (before ++ len) s rest inner,
          append_assoc before len s,
        )
        refl)
