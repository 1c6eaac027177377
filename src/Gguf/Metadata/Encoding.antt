-- ===== src/Gguf/Metadata/Encoding.antt =====
-- Metadata tables as the GGUF container writes them, and what `parse_metadata` of src/q3_gguf.c
-- makes of them.
use sera_c.Common.{
  ◌≤◌, ◌≡◌, refl, [], ◌∷◌, ◌++◌, List, Bytes, length, u32_max, ok, le_bytes, append_assoc, ◌∙◌, All,
  ap, ℕ, append-nil, arith, sym,
}
use sera_c.Gguf.Cursor.Reads.{
  between, Fits, Fits-append, cursor_u32-between, cursor_string-between, string_bytes,
}
use sera_c.Gguf.File.{Kv, Gguf}
use sera_c.Gguf.Metadata.{read_kv, kv_loop, kv_step, entry_alignment}
use sera_c.Gguf.Value.Encoding.Skip.{skip_value-encode}
use sera_c.Gguf.Value.Encoding.{Value, type_of, encode, levels, IsWellFormed}

abbrev pub Entry : Type 0
Entry = Bytes × Value

abbrev pub entry_bytes : Entry → Bytes
entry_bytes (key, v) = string_bytes key ++ (le_bytes 4 (type_of v) ++ encode v)

abbrev pub table_bytes : List Entry → Bytes
table_bytes [] = []
table_bytes (e ∷ es) = entry_bytes e ++ table_bytes es

-- An entry that a GGUF v3 writer may write, and the reader takes.
pub record IsEntry (e : Entry) : Type 0 where
  pub value : IsWellFormed e.1
  pub type_small : type_of e.1 ≤ u32_max
  pub depth : levels e.1 ≤ 9

-- The descriptors `kvs` stand for the entries `es`, each with its value in the mapping `bs`.
pub data Stored (bs : Bytes) : List Entry → List Kv → Type 0 where
  empty : Stored bs [] []
  stored :
      {v : Value} {kv : Kv} {es : List Entry} {kvs : List Kv} (front back : Bytes)
      → kv.type ≡ type_of v
      → kv.value_pos ≡ length front
      → bs ≡ front ++ (encode v ++ back)
      → Stored bs es kvs
      → Stored bs ((kv.key, v) ∷ es) (kv ∷ kvs)

read_kv-entry :
    (key : Bytes) (v : Value) (before rest : Bytes)
    → type_of v ≤ u32_max
    → Fits before (string_bytes key ++ (le_bytes 4 (type_of v) ++ rest))
    → read_kv (between before (string_bytes key ++ (le_bytes 4 (type_of v) ++ rest)))
      ≡ ok (
        record {
          key = key;
          type = type_of v;
          value_pos = length ((before ++ string_bytes key) ++ le_bytes 4 (type_of v));
        },
        between ((before ++ string_bytes key) ++ le_bytes 4 (type_of v)) rest,
      )
unfolding read_kv
read_kv-entry key v before rest small fits =
    rw (cursor_string-between before key (le_bytes 4 (type_of v) ++ rest) fits) (
      rw
        (cursor_u32-between (before ++ string_bytes key) rest (type_of v) small
          (Fits-append before (string_bytes key) (le_bytes 4 (type_of v) ++ rest) fits))
        refl)

-- The descriptor of an entry behind `before`.
abbrev kv_behind : Bytes → Bytes → Value → Kv
kv_behind before key v = record {
  key = key;
  type = type_of v;
  value_pos = length ((before ++ string_bytes key) ++ le_bytes 4 (type_of v));
}

three_parts :
    (before w1 w2 w3 : Bytes) → ((before ++ w1) ++ w2) ++ w3 ≡ before ++ (w1 ++ (w2 ++ w3))
three_parts before w1 w2 w3 = append_assoc (before ++ w1) w2 w3 ∙ append_assoc before w1 (w2 ++ w3)

entry_rest :
    (key : Bytes) (v : Value) (rest : Bytes)
    → entry_bytes (key, v) ++ rest
      ≡ string_bytes key ++ (le_bytes 4 (type_of v) ++ (encode v ++ rest))
entry_rest key v rest =
    append_assoc (string_bytes key) (le_bytes 4 (type_of v) ++ encode v) rest
    ∙ ap (λ z. string_bytes key ++ z) (append_assoc (le_bytes 4 (type_of v)) (encode v) rest)

kv_step-entry :
    (m : Gguf) (key : Bytes) (v : Value) (before rest : Bytes)
    → IsEntry (key, v)
    → Fits before (entry_bytes (key, v) ++ rest)
    → let kv = kv_behind before key v in
      kv_step m (between before (entry_bytes (key, v) ++ rest))
      ≡ ok (
        record m { kv = m.kv ++ (kv ∷ []); alignment = entry_alignment m kv },
        between (before ++ entry_bytes (key, v)) rest,
      )
unfolding kv_step
kv_step-entry m key v before rest e fits =
    let w1 = string_bytes key in
    let w2 = le_bytes 4 (type_of v) in
    let fits1 : Fits before (w1 ++ (w2 ++ (encode v ++ rest))) =
      rw (← entry_rest key v rest) fits in
    let fits2 : Fits ((before ++ w1) ++ w2) (encode v ++ rest) =
      Fits-append (before ++ w1) w2 (encode v ++ rest)
        (Fits-append before w1 (w2 ++ (encode v ++ rest)) fits1) in
    let read = read_kv-entry key v before (encode v ++ rest) e.type_small fits1 in
    let skip =
      skip_value-encode v 0 ((before ++ w1) ++ w2) rest e.value (omega (arith, e.depth)) fits2 in
    rw (entry_rest key v rest, read) (rw (skip, three_parts before w1 w2 (encode v)) refl)

pub kv_loop-table :
    (es : List Entry) (m : Gguf) (before rest : Bytes)
    → All IsEntry es
    → Fits before (table_bytes es ++ rest)
    → (kvs : List Kv) × (a : ℕ) × (kv_loop (length es) m (between before (table_bytes es ++ rest))
        ≡ ok
            (record m { kv = m.kv ++ kvs; alignment = a }, between (before ++ table_bytes es) rest))
      × Stored (before ++ (table_bytes es ++ rest)) es kvs
unfolding kv_loop
kv_loop-table [] m before rest h fits =
    ([], m.alignment, rw (append-nil m.kv, append-nil before) refl, empty)
kv_loop-table ((key, v) ∷ es) m before rest (e, h) fits =
    let eb = entry_bytes (key, v) in
    let tb = table_bytes es in
    let kv = kv_behind before key v in
    let m1 = record m { kv = m.kv ++ (kv ∷ []); alignment = entry_alignment m kv } in
    let fits1 : Fits before (eb ++ (tb ++ rest)) = rw (← append_assoc eb tb rest) fits in
    let fits2 = Fits-append before eb (tb ++ rest) fits1 in
    let (kvs, a, run, all) = kv_loop-table es m1 (before ++ eb) rest h fits2 in
    let step = kv_step-entry m key v before (tb ++ rest) e fits1 in
    (
      kv ∷ kvs,
      a,
      rw (append_assoc eb tb rest, step)
          (run ∙ rw (append_assoc m.kv (kv ∷ []) kvs, append_assoc before eb tb) refl),
      rw (append_assoc eb tb rest) (
          stored ((before ++ string_bytes key) ++ le_bytes 4 (type_of v)) (tb ++ rest) refl refl
            (ap (λ z. before ++ z) (entry_rest key v (tb ++ rest))
              ∙ sym (three_parts before (string_bytes key) (le_bytes 4 (type_of v)) _))
            (rw (append_assoc before eb (tb ++ rest)) at all)),
    )
