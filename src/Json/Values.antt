-- ===== src/Json/Values.antt =====
-- The parser of JSON values, src/io/hd_json.c. The text is what stands before the terminating 0. A
-- double is the text that `strtod` reads; an integer is a sign and a magnitude, held by `strtoll` at
-- the limits of 64 bits.
use sera_c.Json.{JsonError, oom}
use sera_c.Common.{
  ℕ, Bytes, Bool, if◌then◌else◌, ◌==◌, ◌∷◌, Result, true, leb, false, ◌*◌, [], ◌&&◌, ◌||◌, ◌++◌,
  ◌>>◌, err, min, require, ◌-◌, ◌+◌, ok, length,
}

mutual
  pub data Json : Type 0 where
    null_value : Json
    boolean : Bool → Json
    integer : Bool → ℕ → Json
    double string : Bytes → Json
    array : Items → Json
    object : Members → Json

  pub data Items : Type 0 where
    no_items : Items
    item : Json → Items → Items

  pub data Members : Type 0 where
    no_members : Members
    member : Bytes → Json → Members → Members

abbrev pub is_space : ℕ → Bool
is_space c = c == 32 || (leb 9 c && leb c 13)

abbrev pub is_digit : ℕ → Bool
is_digit c = leb 48 c && leb c 57

unfoldable pub skip_ws : Bytes → Bytes
skip_ws [] = []
skip_ws (c ∷ rest) = if is_space c then skip_ws rest else c ∷ rest

-- The digits at the front, and what is behind them.
unfoldable pub digits : Bytes → Bytes × Bytes
digits [] = ([], [])
digits (c ∷ rest) =
    let more = digits rest in if is_digit c then (c ∷ more.0, more.1) else ([], c ∷ rest)

unfoldable pub sign : Bytes → Bytes × Bytes
sign [] = ([], [])
sign (c ∷ rest) = if c == 45 || c == 43 then (c ∷ [], rest) else ([], c ∷ rest)

-- A point and digits, where there is a point.
unfoldable pub fraction : Bytes → Bytes × Bytes
fraction [] = ([], [])
fraction (c ∷ rest) = let ds = digits rest in if c == 46 then (c ∷ ds.0, ds.1) else ([], c ∷ rest)

-- An exponent, where there is an `e`.
unfoldable pub exponent : Bytes → Bytes × Bytes
exponent [] = ([], [])
exponent (c ∷ rest) =
    let s = sign rest in
    let ds = digits s.1 in if c == 101 || c == 69 then (c ∷ s.0 ++ ds.0, ds.1) else ([], c ∷ rest)

unfoldable pub decimal : ℕ → Bytes → ℕ
decimal v [] = v
decimal v (d ∷ ds) = decimal (10 * v + (d - 48)) ds

abbrev pub i64_min : ℕ
i64_min = 0x8000_0000_0000_0000

abbrev pub is_minus : Bytes → Bool
is_minus [] = false
is_minus (c ∷ rest) = c == 45

-- `strtoll` on a sign and digits.
unfoldable pub to_integer : Bytes → Bytes → Json
to_integer s ds =
    if is_minus s
    then integer true (min (decimal 0 ds) i64_min)
    else integer false (min (decimal 0 ds) (i64_min - 1))

abbrev pub starts_with : Bytes → Bytes → Bool
starts_with [] bs = true
starts_with (x ∷ xs) [] = false
starts_with (x ∷ xs) (b ∷ bs) = b == x && starts_with xs bs

-- What stands behind an item: the end, or a comma and more.
unfoldable pub after_item : ℕ → JsonError → JsonError → Bytes → Result JsonError (Bool × Bytes)
after_item close unterminated expected [] = err unterminated
after_item close unterminated expected (c ∷ rest) =
    if c == close then ok (true, rest) else if c == 44 then ok (false, rest) else err expected

-- Twice the items, or the first 8.
unfoldable pub grown_cap : ℕ → ℕ
grown_cap cap = if cap == 0 then 8 else cap * 2

-- What is allocated, with the number of its bytes where they vary.
pub data Request : Type 0 where
  node : Request
  buffer number_text items_table keys_table values_table : ℕ → Request

-- `memory` answers each allocation by the number of bytes that are left of the text when it is asked,
-- and by what is asked. No run asks the same at the same place twice, so any sequence of answers is
-- that of some `memory`.
module _ (memory : ℕ → Request → Bool) where
  -- `json_new` at a place, for the value `v`; `e` is the caller's message where it fails.
  unfoldable pub json_new : ℕ → JsonError → Json → Bytes → Result JsonError (Json × Bytes)
  json_new place e v rest = do require (memory place node) e; ok (v, rest)

  unfoldable pub parse_number : Bytes → Result JsonError (Json × Bytes)
  parse_number rest = do
    let s = sign rest
    let ds = digits s.1
    let f = fraction ds.1
    let e = exponent f.1
    let text = s.0 ++ (ds.0 ++ (f.0 ++ e.0))
    require (memory (length rest) (number_text (length text + 1))) oom
    json_new (length rest) oom
        (if length f.0 == 0 && length e.0 == 0 then to_integer s.0 ds.0 else double text) e.1

  -- The table of an array's items, where it is full.
  unfoldable pub grow_items : ℕ → ℕ → ℕ → Result JsonError ℕ
  grow_items place count cap =
      let more = grown_cap cap in
      if count == cap
      then (do require (memory place (items_table (more * 8))) oom; ok more)
      else ok cap

  -- The two tables of an object, where they are full; both are asked for.
  unfoldable pub grow_members : ℕ → ℕ → ℕ → Result JsonError ℕ
  grow_members place count cap =
      let more = grown_cap cap in
      let keys = memory place (keys_table (more * 8)) in
      let values = memory place (values_table (more * 8)) in
      if count == cap then (do require (keys && values) oom; ok more) else ok cap
