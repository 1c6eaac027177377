-- ===== src/Gguf/Access/Strings.antt =====
-- Arrays of strings read item by item with `q3_gguf_array_next_string`, src/q3_gguf.c.
use sera_c.Gguf.Types.{value_string}
use sera_c.Gguf.Cursor.Reads.{string_bytes, Fits, cursor_string-between, Fits-append}
use sera_c.Gguf.Access.{array_next_string, Array, array_next, take_item, item_of}
use sera_c.Common.{
  ℕ, List, Bytes, [], ◌∷◌, ◌++◌, length, ◌≡◌, append_assoc, some, ◌<◌, ◌≤◌, u64_max, ◌+◌, true,
  none, leb, arith, append-nil, false, ap, subst, sym,
}

unfoldable pub strings_bytes : List Bytes → Bytes
strings_bytes [] = []
strings_bytes (s ∷ ss) = string_bytes s ++ strings_bytes ss

-- The cursor of an array of `count` strings behind item number `index`, between two parts of the
-- mapping.
abbrev pub string_array : Bytes → Bytes → ℕ → ℕ → Array
string_array before rest index count = record {
  base = before ++ rest;
  size = length (before ++ rest);
  pos = length before;
  item_type = value_string;
  count = count;
  index = index;
}

-- Calls of `array_next_string` that each returned true, and their strings.
pub data Yields : Array → List Bytes → Array → Type 0 where
  none_read : {a : Array} → Yields a [] a
  one_read :
      {a a1 a2 : Array} {s : Bytes} {ss : List Bytes}
      → array_next_string a ≡ (some s, a1)
      → Yields a1 ss a2
      → Yields a (s ∷ ss) a2

string_array-append :
    (before xs rest : Bytes) (index count : ℕ)
    → string_array (before ++ xs) rest index count
      ≡ record (string_array before (xs ++ rest) index count) { pos = length (before ++ xs) }
string_array-append before xs rest index count = rw append_assoc

array_next-more :
    (before rest : Bytes) (index count : ℕ)
    → index < count
    → count ≤ u64_max
    → array_next (string_array before rest index count) value_string
      ≡ (true, string_array before rest (index + 1) count)
unfolding array_next
array_next-more before rest index count low high =
    let test : leb count index ≡ false = ground (arith, low) in
    rw test (ap (λ (k : ℕ). (true, string_array before rest k count)) (omega arith))

array_next_string-one :
    (s before rest : Bytes) (index count : ℕ)
    → Fits before (string_bytes s ++ rest)
    → index < count
    → count ≤ u64_max
    → array_next_string (string_array before (string_bytes s ++ rest) index count)
      ≡ (some s, string_array (before ++ string_bytes s) rest (index + 1) count)
unfolding array_next_string take_item item_of
array_next_string-one s before rest index count fits low high =
    rw (array_next-more before (string_bytes s ++ rest) index count low high) (
      rw (cursor_string-between before s rest fits) (
        ap (λ (a : Array). (some s, a))
          (sym (string_array-append before (string_bytes s) rest (index + 1) count))))

array_next_string-end :
    (before rest : Bytes) (count : ℕ)
    → array_next_string (string_array before rest count count)
      ≡ (none, string_array before rest count count)
unfolding array_next_string take_item array_next
array_next_string-end before rest count = ground arith

-- On an array whose items are strings, at any item, with at most 2 ^ 64 - 1 items in a mapping that
-- 64 bits address: one call of `q3_gguf_array_next_string` for each string that is left returns the
-- strings in their order, the array then stands exactly behind the last one, and the next call fails
-- and changes nothing.
pub array_next_string-Yields :
    (ss : List Bytes) (before rest : Bytes) (index count : ℕ)
    → Fits before (strings_bytes ss ++ rest)
    → index + length ss ≡ count
    → count ≤ u64_max
    → Yields
        (string_array before (strings_bytes ss ++ rest) index count)
        ss
        (string_array (before ++ strings_bytes ss) rest count count)
      × (array_next_string (string_array (before ++ strings_bytes ss) rest count count)
          ≡ (none, string_array (before ++ strings_bytes ss) rest count count))
unfolding strings_bytes
array_next_string-Yields [] before rest index count fits e high = rw (append-nil before) (
  subst (λ k. Yields (string_array before rest k count) [] (string_array before rest count count))
      (omega (arith, e)) none_read,
  array_next_string-end before rest count,
)
array_next_string-Yields (s ∷ ss) before rest index count fits e high =
    let body = strings_bytes ss in
    let fits' : Fits before (string_bytes s ++ (body ++ rest)) =
      subst (λ bs. Fits before bs) (append_assoc (string_bytes s) body rest) fits in
    let step =
      array_next_string-one s before (body ++ rest) index count fits' (omega (arith, e)) high in
    let ih =
      array_next_string-Yields ss (before ++ string_bytes s) rest (index + 1) count
        (Fits-append before (string_bytes s) (body ++ rest) fits') (omega (arith, e)) high in
    let behind = append_assoc before (string_bytes s) body in
    (
      subst
          (λ bs.
            Yields (string_array before bs index count) (s ∷ ss)
              (string_array (before ++ (string_bytes s ++ body)) rest count count))
          (sym (append_assoc (string_bytes s) body rest))
          (one_read step (
            subst
              (λ bs.
                Yields (string_array (before ++ string_bytes s) (body ++ rest) (index + 1) count) ss
                  (string_array bs rest count count))
              behind ih.0)),
      subst
          (λ bs.
            array_next_string (string_array bs rest count count)
            ≡ (none, string_array bs rest count count))
          behind ih.1,
    )
