-- ===== src/Gguf/Access/Lookup.antt =====
-- The accessors of src/q3_gguf.c against a dictionary: what they return for a parsed table is what
-- its entries hold.
use sera_c.Gguf.Metadata.{parse_metadata, kv_struct_bytes}
use sera_c.Gguf.Cursor.{cursor_u32, cursor_u64}
use sera_c.Gguf.Types.{value_uint32, value_uint64, scalar_value_size, value_string}
use sera_c.Gguf.File.{cursor_at}
use sera_c.Gguf.Cursor.Reads.{
  Fits, between, cursor_read-between, cursor_string-between, string_bytes,
}
use sera_c.Gguf.Value.Encoding.{
  Value, scalar, string, type_of, encode, IsWellFormed, array, scalar_ok,
}
use sera_c.Common.{
  ℕ, ◌≡◌, refl, arith, Bytes, List, [], ◌∷◌, ◌++◌, Option, none, some, ok, All, length, Bool-cases,
  ◌≤◌, bytes_eq, u64_max, inl, inr, if◌then◌else◌, ap, ◌==◌, ◌||◌, le_value, ◌≢◌, ◌∙◌, Bool, true,
  length-append, le_bytes, length-le_bytes, subst, sym,
}
use sera_c.Gguf.Access.{
  out_of, find_in, find_kv, get_string, get_u32, get_u64, Gguf, Kv, cursor_at, string_at, u64_at,
  u32_at,
}
use sera_c.Gguf.Metadata.Encoding.{
  Entry, IsEntry, Stored, empty, stored, table_bytes, kv_loop-table, entry_bytes,
}

-- The first value under a key.
pub lookup_value : List Entry → Bytes → Option Value
lookup_value [] key = none
lookup_value ((k, v) ∷ es) key = if bytes_eq k key then some v else lookup_value es key

-- The value as a `uint32_t`, as a number of either unsigned width, and as a string.
pub u32_of : Option Value → Option ℕ
u32_of (some (scalar type bs)) = if type == value_uint32 then some (le_value bs) else none
u32_of _ = none

pub unsigned_of : Option Value → Option ℕ
unsigned_of (some (scalar type bs)) =
    if type == value_uint64 || type == value_uint32 then some (le_value bs) else none
unsigned_of _ = none

pub string_of : Option Value → Option Bytes
string_of (some (string s)) = some s
string_of _ = none

-- The descriptor `kv` stands for the value `v` in the mapping `bs`.
record StandsFor (bs : Bytes) (kv : Kv) (v : Value) : Type 0 where
  front : Bytes
  back : Bytes
  same_type : kv.type ≡ type_of v
  at_value : kv.value_pos ≡ length front
  split : bs ≡ front ++ (encode v ++ back)
  well_formed : IsWellFormed v

-- The search by key in the descriptors and in the entries.
data Search (bs : Bytes) : Option Kv → Option Value → Type 0 where
  missing : Search bs none none
  found : {kv : Kv} {v : Value} → StandsFor bs kv v → Search bs (some kv) (some v)

find_in-Search :
    {bs : Bytes} {es : List Entry} {kvs : List Kv} (key : Bytes)
    → Stored bs es kvs
    → All IsEntry es
    → Search bs (find_in kvs key) (lookup_value es key)
unfolding find_in lookup_value
find_in-Search key empty h = missing
find_in-Search key (stored {v} {kv} front back type pos split rest) (e, h) =
    elim (Bool-cases (bytes_eq kv.key key)) [
      | inl same ↦ rw same (
          found (record {
            front = front;
            back = back;
            same_type = type;
            at_value = pos;
            split = split;
            well_formed = e.value;
          }))
      | inr other ↦ rw other (find_in-Search key rest h)
    ]

each_lookup :
    {A : Type 0} {bs : Bytes} {o : Option Kv} {v : Option Value}
    → Search bs o v
    → (f : Option Kv → Option A) (g : Option Value → Option A) → f none ≡ g none
    → ((kv : Kv) (x : Value) → StandsFor bs kv x → f (some kv) ≡ g (some x))
    → f o ≡ g v
each_lookup missing f g e h = e
each_lookup (found {kv} {v} s) f g e h = h kv v s

scalar_facts :
    {type : ℕ} {bs : Bytes}
    → IsWellFormed (scalar type bs)
    → (length bs ≡ scalar_value_size type) × (1 ≤ length bs)
scalar_facts (scalar_ok size pos) = (size, pos)

no_strings : {n : ℕ} → n ≡ scalar_value_size value_string → 1 ≤ n → ⊥
unfolding scalar_value_size
no_strings e h = omega arith

cursor_u32-scalar :
    (before bs rest : Bytes)
    → Fits before (bs ++ rest)
    → length bs ≡ 4
    → cursor_u32 (between before (bs ++ rest)) ≡ ok (le_value bs, between (before ++ bs) rest)
unfolding cursor_u32
cursor_u32-scalar before bs rest fits four =
    rw (rw four at (cursor_read-between before bs rest fits)) refl

cursor_u64-scalar :
    (before bs rest : Bytes)
    → Fits before (bs ++ rest)
    → length bs ≡ 8
    → cursor_u64 (between before (bs ++ rest)) ≡ ok (le_value bs, between (before ++ bs) rest)
unfolding cursor_u64
cursor_u64-scalar before bs rest fits eight =
    rw (rw eight at (cursor_read-between before bs rest fits)) refl

module _ (m : Gguf) (mapped : m.size ≡ length m.map) (fits : m.size ≤ u64_max) where
  -- The accessor's cursor stands before the value.
  cursor_at-between :
      {kv : Kv} {v : Value} (s : StandsFor m.map kv v)
      → cursor_at m kv.value_pos ≡ between s.front (encode v ++ s.back)
  unfolding cursor_at
  cursor_at-between s = cc (s.at_value, s.split, mapped, ap length s.split)

  Fits-at : {kv : Kv} {v : Value} (s : StandsFor m.map kv v) → Fits s.front (encode v ++ s.back)
  Fits-at s = omega (arith, mapped, ap length s.split)

  string_at_value :
      (kv : Kv) (v : Value) → StandsFor m.map kv v → string_at m (some kv) ≡ string_of (some v)
  unfolding string_at string_of out_of encode
  string_at_value kv (scalar type bs) s =
      let (size, pos) = scalar_facts s.well_formed in
      let other : type ≢ value_string = λ e. no_strings (rw e at (size ∙ refl)) pos in ground arith
  string_at_value kv (string b) s =
      ground (arith, cursor_at-between s, cursor_string-between s.front b s.back (Fits-at s))
  string_at_value kv (array type xs) s = ground arith

  u32_at_value : (kv : Kv) (v : Value) → StandsFor m.map kv v → u32_at m (some kv) ≡ u32_of (some v)
  unfolding u32_at u32_of out_of encode scalar_value_size
  u32_at_value kv (scalar type bs) s = ground (
    arith,
    scalar_facts s.well_formed,
    cursor_at-between s,
    cursor_u32-scalar s.front bs s.back (Fits-at s),
  )
  u32_at_value kv (string b) s = ground arith
  u32_at_value kv (array type xs) s = ground arith

  u64_at_value :
      (kv : Kv) (v : Value) → StandsFor m.map kv v → u64_at m (some kv) ≡ unsigned_of (some v)
  unfolding u64_at unsigned_of out_of encode scalar_value_size
  u64_at_value kv (scalar type bs) s = ground (
    arith,
    scalar_facts s.well_formed,
    cursor_at-between s,
    cursor_u32-scalar s.front bs s.back (Fits-at s),
    cursor_u64-scalar s.front bs s.back (Fits-at s),
  )
  u64_at_value kv (string b) s = ground arith
  u64_at_value kv (array type xs) s = ground arith

-- On every key the accessors answer as the entries do.
pub record AgreesWith (es : List Entry) (m : Gguf) : Type 0 where
  pub strings : (key : Bytes) → get_string m key ≡ string_of (lookup_value es key)
  pub words : (key : Bytes) → get_u32 m key ≡ u32_of (lookup_value es key)
  pub unsigned : (key : Bytes) → get_u64 m key ≡ unsigned_of (lookup_value es key)

Stored-AgreesWith :
    (m : Gguf) (es : List Entry)
    → m.size ≡ length m.map
    → m.size ≤ u64_max
    → All IsEntry es
    → Stored m.map es m.kv
    → AgreesWith es m
unfolding get_string get_u32 get_u64 find_kv string_of u32_of unsigned_of
Stored-AgreesWith m es mapped fits h all = record {
  strings = λ key.
      each_lookup (find_in-Search key all h) (string_at m) string_of refl
        (string_at_value m mapped fits);
  words = λ key.
      each_lookup (find_in-Search key all h) (u32_at m) u32_of refl (u32_at_value m mapped fits);
  unsigned = λ key.
      each_lookup (find_in-Search key all h) (u64_at m) unsigned_of refl
        (u64_at_value m mapped fits);
}

length-table_bytes : (es : List Entry) → length es ≤ length (table_bytes es)
length-table_bytes [] = omega arith
length-table_bytes ((key, v) ∷ es) = omega (
  arith,
  length-append (entry_bytes (key, v)) (table_bytes es),
  length-append (string_bytes key) (le_bytes 4 (type_of v) ++ encode v),
  length-append (le_bytes 8 (length key)) key,
  length-le_bytes 8 (length key),
  length-table_bytes es,
)

-- On a table of well-formed entries, with the count that the header announced, in a mapping that
-- 64 bits address, and where the table's allocation succeeds, `parse_metadata` succeeds, leaves the
-- cursor exactly behind the table, and `q3_gguf_get_string`, `q3_gguf_get_u32` and
-- `q3_gguf_get_u64` then answer on every key with the value of the first entry under it, or fail if
-- there is none or it is of another type.
pub parse_metadata-AgreesWith :
    (calloc : ℕ → ℕ → Bool) (m : Gguf) (es : List Entry) (before rest : Bytes)
    → calloc (length es) kv_struct_bytes ≡ true
    → m.n_kv ≡ length es
    → m.map ≡ before ++ (table_bytes es ++ rest)
    → m.size ≡ length m.map
    → Fits before (table_bytes es ++ rest)
    → All IsEntry es
    → (m' : Gguf) × (parse_metadata calloc m (between before (table_bytes es ++ rest))
        ≡ ok (m', between (before ++ table_bytes es) rest))
      × AgreesWith es m'
unfolding parse_metadata
parse_metadata-AgreesWith calloc m es before rest room count map mapped fits h =
    let m0 = record m { kv = []; alignment = 32 } in
    let (kvs, a, run, all) = kv_loop-table es m0 before rest h fits in
    (
      record m { kv = kvs; alignment = a },
      ground (
        arith,
        run,
        length-append before (table_bytes es ++ rest),
        length-append (table_bytes es) rest,
        length-table_bytes es,
      ),
      Stored-AgreesWith (record m { kv = kvs; alignment = a }) es mapped (rw (mapped, map) fits) h
          (subst (λ bs. Stored bs es kvs) (sym map) all),
    )
