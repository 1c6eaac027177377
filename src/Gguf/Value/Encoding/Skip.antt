-- ===== src/Gguf/Value/Encoding/Skip.antt =====
-- `skip_value` of src/q3_gguf.c passes exactly the bytes of one encoded value.
use sera_c.Common.{
  ℕ, suc, ◌+◌, ◌-◌, ◌*◌, ◌/◌, ◌≤◌, ◌≡◌, ◌≢◌, refl, sym, ap, ◌∙◌, ◌++◌, Bytes, length, length-append,
  append_assoc, append-nil, ltb, ◌==◌, Bool-cases, false, inl, inr, arith, ok, ◌>>=◌, u32_max,
  u64_max, le_bytes,
}
use sera_c.Gguf.Cursor.{Cursor, R}
use sera_c.Gguf.Cursor.Reads.{
  between, Fits, Fits-append, cursor_skip-between, cursor_u32-between, cursor_u64-between,
  cursor_string-between, string_bytes,
}
use sera_c.Gguf.Types.{scalar_value_size, value_string, value_array}
use sera_c.Gguf.Value.{skip_items, skip_array, skip_within, skip_value}
use sera_c.Gguf.Value.Encoding.{
  Value, Items, scalar, string, array, type_of, count, encode, encode_items, levels, levels_items,
  IsWellFormed, HasItems, scalar_ok, string_ok, array_ok, nil_ok, cons_ok,
}

-- An item of type `type` takes `n` bytes where that type is a scalar.
length-encode_items :
    {type : ℕ} {xs : Items}
    → HasItems type xs
    → scalar_value_size type ≢ 0
    → length (encode_items xs) ≡ count xs * scalar_value_size type
unfolding encode_items scalar_value_size
length-encode_items nil_ok h = omega arith
length-encode_items (cons_ok {v = scalar t bs} {xs} e (scalar_ok size pos) items) h = omega (
  arith,
  length-append bs (encode_items xs),
  size ∙ ap scalar_value_size e,
  length-encode_items items h,
)
length-encode_items (cons_ok {v = string s} e v xs) h = absurd (h (sym (ap scalar_value_size e)))
length-encode_items (cons_ok {v = array t ys} e v xs) h = absurd (h (sym (ap scalar_value_size e)))

scalars_fit : (n size : ℕ) → 1 ≤ size → n * size ≤ u64_max → ltb (u64_max / size) n ≡ false
scalars_fit n size p h = grind arith

-- The array's two words, and then its items in one skip or one after the other.
module _ (item : ℕ → Cursor → R Cursor) (type n : ℕ) (body before rest : Bytes)
    (type_small : type ≤ u32_max) (n_small : n ≤ u64_max)
    (fits : Fits before (le_bytes 4 type ++ (le_bytes 8 n ++ (body ++ rest)))) where
  abbrev header : Bytes
  header = (before ++ le_bytes 4 type) ++ le_bytes 8 n

  Fits-words : Fits (before ++ le_bytes 4 type) (le_bytes 8 n ++ (body ++ rest))
  Fits-words = Fits-append before (le_bytes 4 type) (le_bytes 8 n ++ (body ++ rest)) fits

  Fits-body : Fits header (body ++ rest)
  Fits-body = Fits-append (before ++ le_bytes 4 type) (le_bytes 8 n) (body ++ rest) Fits-words

  skip_array_scalars :
      scalar_value_size type ≢ 0
      → length body ≡ n * scalar_value_size type
      → skip_array item (between before (le_bytes 4 type ++ (le_bytes 8 n ++ (body ++ rest))))
        ≡ ok (between (header ++ body) rest)
  unfolding skip_array
  skip_array_scalars is_scalar size =
      rw (cursor_u32-between before (le_bytes 8 n ++ (body ++ rest)) type type_small fits) (
        rw (cursor_u64-between (before ++ le_bytes 4 type) (body ++ rest) n n_small Fits-words) (
          ground (
            arith,
            length-append header (body ++ rest),
            length-append body rest,
            scalars_fit n (scalar_value_size type),
            Fits-body,
            cursor_skip-between header body rest Fits-body,
          )))

  skip_array_items :
      scalar_value_size type ≡ 0
      → skip_items (item type) n (between header (body ++ rest))
        ≡ ok (between (header ++ body) rest)
      → skip_array item (between before (le_bytes 4 type ++ (le_bytes 8 n ++ (body ++ rest))))
        ≡ ok (between (header ++ body) rest)
  unfolding skip_array
  skip_array_items other items =
      rw (cursor_u32-between before (le_bytes 8 n ++ (body ++ rest)) type type_small fits) (
        rw (cursor_u64-between (before ++ le_bytes 4 type) (body ++ rest) n n_small Fits-words)
          (rw other items))

levels-pos : (v : Value) → 1 ≤ levels v
unfolding levels
levels-pos (scalar t bs) = omega arith
levels-pos (string s) = omega arith
levels-pos (array t xs) = omega arith

-- A cursor before two parts, the first of which `f` and the rest of which `g` passes.
two_parts :
    (f g : Cursor → R Cursor) (before xs ys rest : Bytes)
    → f (between before (xs ++ (ys ++ rest))) ≡ ok (between (before ++ xs) (ys ++ rest))
    → g (between (before ++ xs) (ys ++ rest)) ≡ ok (between ((before ++ xs) ++ ys) rest)
    → (f (between before ((xs ++ ys) ++ rest)) >>= g) ≡ ok (between (before ++ (xs ++ ys)) rest)
two_parts f g before xs ys rest p q =
    rw (append_assoc xs ys rest, p)
      (q ∙ ap ok (ap (λ z. between z rest) (append_assoc before xs ys)))

skip_within-string :
    (left : ℕ) (before s rest : Bytes)
    → Fits before (string_bytes s ++ rest)
    → skip_within (suc left) value_string (between before (string_bytes s ++ rest))
      ≡ ok (between (before ++ string_bytes s) rest)
unfolding skip_within scalar_value_size
skip_within-string left before s rest fits = rw (cursor_string-between before s rest fits) refl

skip_within-scalar :
    (left type : ℕ) (before bs rest : Bytes)
    → length bs ≡ scalar_value_size type
    → 1 ≤ length bs
    → Fits before (bs ++ rest)
    → skip_within (suc left) type (between before (bs ++ rest)) ≡ ok (between (before ++ bs) rest)
unfolding skip_within
skip_within-scalar left type before bs rest size pos fits =
    rw (rw size at (cursor_skip-between before bs rest fits)) (ground arith)

skip_within-array :
    (left : ℕ) (c : Cursor) → skip_within (suc left) value_array c ≡ skip_array (skip_within left) c
unfolding skip_within scalar_value_size
skip_within-array left c = refl

array_behind :
    (before w1 w2 body : Bytes) → (((before ++ w1) ++ w2) ++ body) ≡ before ++ (w1 ++ (w2 ++ body))
array_behind before w1 w2 body =
    append_assoc (before ++ w1) w2 body ∙ append_assoc before w1 (w2 ++ body)

array_before :
    (w1 w2 body rest : Bytes) → (w1 ++ (w2 ++ body)) ++ rest ≡ w1 ++ (w2 ++ (body ++ rest))
array_before w1 w2 body rest =
    append_assoc w1 (w2 ++ body) rest ∙ ap (λ z. w1 ++ z) (append_assoc w2 body rest)

mutual
  unfolding encode encode_items levels levels_items skip_items

  skip_within-encode :
      {v : Value} (left : ℕ) (before rest : Bytes)
      → IsWellFormed v
      → levels v ≤ suc left
      → Fits before (encode v ++ rest)
      → skip_within (suc left) (type_of v) (between before (encode v ++ rest))
        ≡ ok (between (before ++ encode v) rest)
  skip_within-encode left before rest (scalar_ok {type} {bs} size pos) h fits =
      skip_within-scalar left type before bs rest size pos fits
  skip_within-encode left before rest (string_ok {s}) h fits =
      skip_within-string left before s rest fits
  skip_within-encode left before rest (array_ok {type} {xs} ts ns items) h fits =
      let w1 = le_bytes 4 type in
      let w2 = le_bytes 8 (count xs) in
      let body = encode_items xs in
      let fits' : Fits before (w1 ++ (w2 ++ (body ++ rest))) =
        rw (← array_before w1 w2 body rest) fits in
      rw (skip_within-array, array_before w1 w2 body rest, ← array_behind before w1 w2 body)
        (elim (Bool-cases (scalar_value_size type == 0)) [
          | inl other ↦
              skip_array_items (skip_within left) type (count xs) body before rest ts ns fits'
                (ground arith)
                (skip_items-encode left ((before ++ w1) ++ w2) rest items (ground arith)
                  (Fits-body (skip_within left) type (count xs) body before rest ts ns fits'))
          | inr is_scalar ↦
              let ne : scalar_value_size type ≢ 0 = ground arith in
              skip_array_scalars (skip_within left) type (count xs) body before rest ts ns fits' ne
                (length-encode_items items ne)
        ])

  skip_items-encode :
      {type : ℕ} {xs : Items} (left : ℕ) (before rest : Bytes)
      → HasItems type xs
      → levels_items xs ≤ left
      → Fits before (encode_items xs ++ rest)
      → skip_items (skip_within left type) (count xs) (between before (encode_items xs ++ rest))
        ≡ ok (between (before ++ encode_items xs) rest)
  skip_items-encode left before rest nil_ok h fits = rw append-nil
  skip_items-encode {type} left before rest (cons_ok {v} {xs} e wf items) h fits =
      let body = encode_items xs in
      let fits' : Fits before (encode v ++ (body ++ rest)) =
        rw (← append_assoc (encode v) body rest) fits in
      let pos : left ≡ suc (left - 1) = omega (arith, levels-pos v) in
      let first : skip_within left type (between before (encode v ++ (body ++ rest)))
          ≡ ok (between (before ++ encode v) (body ++ rest)) =
        rw (pos, ← e)
          (skip_within-encode (left - 1) before (body ++ rest) wf (omega arith) fits') in
      two_parts (skip_within left type) (skip_items (skip_within left type) (count xs)) before
        (encode v) body rest first
        (skip_items-encode left (before ++ encode v) rest items (omega arith)
          (Fits-append before (encode v) (body ++ rest) fits'))

-- On the encoding of a well-formed value whose arrays nest at most so deep that `skip_value`,
-- called at `depth`, stays at depth 8 or less, and with any bytes behind it, `skip_value` succeeds
-- and leaves the cursor exactly behind the encoding.
pub skip_value-encode :
    (v : Value) (depth : ℕ) (before rest : Bytes)
    → IsWellFormed v
    → levels v + depth ≤ 9
    → Fits before (encode v ++ rest)
    → skip_value (between before (encode v ++ rest)) (type_of v) depth
      ≡ ok (between (before ++ encode v) rest)
unfolding skip_value
skip_value-encode v depth before rest wf h fits =
    let pos : 9 - depth ≡ suc (8 - depth) = omega (arith, levels-pos v) in
    rw pos (skip_within-encode (8 - depth) before rest wf (omega arith) fits)
