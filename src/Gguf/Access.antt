-- ===== src/Gguf/Access.antt =====
-- The accessors of src/q3_gguf.c: metadata by key, array cursors, tensor payloads. A float is its
-- bit pattern, and an `int32_t` is the bit pattern of its four bytes.
pub mod Lookup
pub mod Payload
pub mod Strings
use mathlib.Core.Option
use sera_c.Common.{
  ℕ, Bool, true, false, not, ◌||◌, Option, none, some, List, [], ◌∷◌, Bytes, take, drop, ok, err,
  ltb, leb, ◌==◌, if◌then◌else◌, bytes_eq, le_value, add64, sub64,
}
use sera_c.Gguf.Cursor.{Cursor, R, cursor_has, cursor_read, cursor_u32, cursor_u64, cursor_string}
use sera_c.Gguf.File.{Kv, Tensor, Gguf, cursor_at}
use sera_c.Gguf.Types.{
  scalar_value_size, value_uint32, value_int32, value_float32, value_bool, value_string,
  value_array, value_uint64, value_float64,
}

-- What a read left in its `out` argument, if it returned true.
unfoldable pub out_of {ℓ} : {A : Type ℓ} → R (A × Cursor) → Option A
out_of (ok (a, c)) = some a
out_of (err e) = none

unfoldable pub find_in : List Kv → Bytes → Option Kv
find_in [] key = none
find_in (kv ∷ rest) key = if bytes_eq kv.key key then some kv else find_in rest key

unfoldable pub find_kv : Gguf → Bytes → Option Kv
unfolding find_in
find_kv m key = find_in m.kv key

string_at : Gguf → Option Kv → Option Bytes
string_at m none = none
string_at m (some kv) =
    if not (kv.type == value_string)
    then none
    else out_of (cursor_string (cursor_at m kv.value_pos))

unfoldable pub get_string : Gguf → Bytes → Option Bytes
unfolding string_at
get_string m key = string_at m (find_kv m key)

u32_at : Gguf → Option Kv → Option ℕ
u32_at m none = none
u32_at m (some kv) =
    if not (kv.type == value_uint32) then none else out_of (cursor_u32 (cursor_at m kv.value_pos))

unfoldable pub get_u32 : Gguf → Bytes → Option ℕ
unfolding u32_at
get_u32 m key = u32_at m (find_kv m key)

u64_at : Gguf → Option Kv → Option ℕ
u64_at m none = none
u64_at m (some kv) =
    let c = cursor_at m kv.value_pos in
    if kv.type == value_uint64
    then out_of (cursor_u64 c)
    else if kv.type == value_uint32
    then out_of (cursor_u32 c)
    else none

unfoldable pub get_u64 : Gguf → Bytes → Option ℕ
unfolding u64_at
get_u64 m key = u64_at m (find_kv m key)

bool_at : Gguf → Option Kv → Option Bool
bool_at m none = none
bool_at m (some kv) =
    if not (kv.type == value_bool)
    then none
    else Option.map (λ v. not (le_value v == 0)) (out_of (cursor_read (cursor_at m kv.value_pos) 1))

unfoldable pub get_bool : Gguf → Bytes → Option Bool
unfolding bool_at
get_bool m key = bool_at m (find_kv m key)

-- `narrow` is the conversion from `double` to `float`, on bit patterns.
f32_at : (ℕ → ℕ) → Gguf → Option Kv → Option ℕ
f32_at narrow m none = none
f32_at narrow m (some kv) =
    let c = cursor_at m kv.value_pos in
    if kv.type == value_float32
    then out_of (cursor_u32 c)
    else if kv.type == value_float64
    then Option.map narrow (out_of (cursor_u64 c))
    else none

unfoldable pub get_f32 : (ℕ → ℕ) → Gguf → Bytes → Option ℕ
unfolding f32_at
get_f32 narrow m key = f32_at narrow m (find_kv m key)

-- The position of a scalar, its size and its type.
value_at : Gguf → Option Kv → Option (ℕ × ℕ × ℕ)
value_at m none = none
value_at m (some kv) =
    let n = scalar_value_size kv.type in
    if n == 0 || not (cursor_has (cursor_at m kv.value_pos) n)
    then none
    else some (kv.value_pos, n, kv.type)

unfoldable pub get_value : Gguf → Bytes → Option (ℕ × ℕ × ℕ)
unfolding value_at
get_value m key = value_at m (find_kv m key)

-- `q3_gguf_array`.
pub record Array : Type 0 where
  pub base : Bytes
  pub size : ℕ
  pub pos : ℕ
  pub item_type : ℕ
  pub count : ℕ
  pub index : ℕ

abbrev pub array_cursor : Array → Cursor
array_cursor a = record { base = a.base; size = a.size; pos = a.pos }

-- The array behind its two words.
array_behind : Gguf → ℕ → R (ℕ × Cursor) → Option Array
array_behind m item_type (err e) = none
array_behind m item_type (ok (count, c)) = some (record {
  base = m.map;
  size = m.size;
  pos = c.pos;
  item_type = item_type;
  count = count;
  index = 0;
})

array_words : Gguf → R (ℕ × Cursor) → Option Array
array_words m (err e) = none
array_words m (ok (item_type, c)) = array_behind m item_type (cursor_u64 c)

array_at : Gguf → Option Kv → Option Array
array_at m none = none
array_at m (some kv) =
    if not (kv.type == value_array)
    then none
    else array_words m (cursor_u32 (cursor_at m kv.value_pos))

unfoldable pub get_array : Gguf → Bytes → Option Array
unfolding array_at array_words array_behind
get_array m key = array_at m (find_kv m key)

-- `array_next` advances the index also where the read behind it then fails.
unfoldable pub array_next : Array → ℕ → Bool × Array
array_next a want_type =
    if leb a.count a.index || not (a.item_type == want_type)
    then (false, a)
    else (true, record a { index = add64 a.index 1 })

-- The item read at the array's position, which moves only if the read succeeds.
item_of {ℓ} : {A : Type ℓ} → Array → R (A × Cursor) → Option A × Array
item_of a (err e) = (none, a)
item_of a (ok (x, c)) = (some x, record a { pos = c.pos })

unfoldable pub take_item {ℓ} :
    {A : Type ℓ} → (Cursor → R (A × Cursor)) → Bool × Array → Option A × Array
unfolding item_of
take_item read (false, a) = (none, a)
take_item read (true, a) = item_of a (read (array_cursor a))

unfoldable pub array_next_string : Array → Option Bytes × Array
array_next_string a = take_item cursor_string (array_next a value_string)

unfoldable pub array_next_u32 : Array → Option ℕ × Array
array_next_u32 a = take_item cursor_u32 (array_next a value_uint32)

unfoldable pub array_next_i32 : Array → Option ℕ × Array
array_next_i32 a = take_item cursor_u32 (array_next a value_int32)

item_counted : Array → R (ℕ × Cursor) → Option ℕ × Array
item_counted a (err e) = (none, a)
item_counted a (ok (v, c)) = (some v, record a { pos = c.pos; index = add64 a.index 1 })

-- Items of either integer type; here the index moves only if the read succeeds.
unfoldable pub array_next_int : Array → Option ℕ × Array
unfolding item_counted
array_next_int a =
    if a.item_type == value_int32
    then array_next_i32 a
    else if not (a.item_type == value_uint32)
    then (none, a)
    else if leb a.count a.index
    then (none, a)
    else item_counted a (cursor_u32 (array_cursor a))

-- `q3_gguf_tensor_data`: where the payload begins, and its bytes, if they lie in the mapping.
unfoldable pub tensor_data : Gguf → Tensor → Option (ℕ × Bytes)
tensor_data m t =
    if ltb m.size t.abs_offset || ltb (sub64 m.size t.abs_offset) t.bytes
    then none
    else some (t.abs_offset, take t.bytes (drop t.abs_offset m.map))
