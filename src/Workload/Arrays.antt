-- ===== src/Workload/Arrays.antt =====
-- Arrays of numbers in src/q3_workload.c, printed and read back (`read_uint`, `read_uint_array`).
use sera_c.Workload.{
  skip_ws, uint_digits, read_uint, peek, read_uint_array, items_within, items_next, expect,
  separator,
}
use sera_c.Common.{
  ℕ, List, digits_within, Bytes, suc, codes, ◌<◌, ◌∷◌, decimal, ◌≡◌, ◌^◌, ◌++◌, ◌≤◌, u32_max, [],
  arith, ap, zero, ◌*◌, refl, Bool-cases, leb, ◌+◌, ltb, ok, ◌∙◌, inl, ◌&&◌, inr, true, false,
  add64, ◌%◌, mul64, ◌/◌, append_assoc, ◌-◌, ◌==◌, length, length-append, ◌||◌, All, if◌then◌else◌,
  drop,
}

-- `[1,2,3]`.
pub items_bytes : List ℕ → Bytes
items_bytes [] = codes "]"
items_bytes (v ∷ []) = decimal v ++ codes "]"
items_bytes (v ∷ w ∷ vs) = decimal v ++ (44 ∷ items_bytes (w ∷ vs))

abbrev pub array_bytes : List ℕ → Bytes
array_bytes vs = 91 ∷ items_bytes vs

-- One more digit.
uint_digits-one :
    (v d : ℕ) (rest : Bytes)
    → d < 10
    → v * 10 + d ≤ u32_max
    → uint_digits v ((48 + d) ∷ rest) ≡ uint_digits (v * 10 + d) rest
unfolding uint_digits
uint_digits-one v d rest low high =
    let test : leb 48 (48 + d) && leb (48 + d) 57 ≡ true = ground (arith, low) in
    let value : add64 (mul64 v 10) (48 + d - 48) ≡ v * 10 + d = omega (arith, high) in
    rw test (ap (λ (k : ℕ). uint_digits k rest) value)

zero_sum : (v : ℕ) → 0 * 10 + v ≡ v
zero_sum v = omega arith

-- Digits go on from any digits before them.
uint_digits-digits_within :
    (n v : ℕ) (rest : Bytes)
    → v < 10 ^ n
    → v ≤ u32_max
    → uint_digits 0 (digits_within n v ++ rest) ≡ uint_digits v rest
unfolding digits_within uint_digits
uint_digits-digits_within zero v rest low high =
    let e : 0 ≡ v = omega (arith, low) in ap (λ (k : ℕ). uint_digits k rest) e
uint_digits-digits_within (suc n) v rest low high = elim (Bool-cases (ltb v 10)) [
  | inl one ↦ rw one (
      uint_digits-one 0 v rest (ground (arith, one)) (omega (arith, high))
      ∙ ap (λ (k : ℕ). uint_digits k rest) (zero_sum v))
  | inr more ↦
      let last = (48 + v % 10) ∷ [] in
      let front : uint_digits 0 (digits_within n (v / 10) ++ ((48 + v % 10) ∷ rest))
          ≡ uint_digits (v / 10) ((48 + v % 10) ∷ rest) =
        uint_digits-digits_within n (v / 10) ((48 + v % 10) ∷ rest) (grind (arith, low))
          (omega (arith, high)) in
      let whole : v / 10 * 10 + v % 10 ≡ v = omega arith in
      rw more (
        ap (uint_digits 0) (append_assoc (digits_within n (v / 10)) last rest)
        ∙ front
        ∙ uint_digits-one (v / 10) (v % 10) rest (omega arith) (omega (arith, high))
        ∙ ap (λ (k : ℕ). uint_digits k rest) whole)
]

digits_within-first :
    (n v : ℕ) → (c : ℕ) × (t : Bytes) × (digits_within (suc n) v ≡ c ∷ t) × (48 ≤ c) × (c ≤ 57)
unfolding digits_within
digits_within-first zero v = elim (Bool-cases (ltb v 10)) [
  | inl one ↦ (48 + v, [], rw one refl, omega arith, ground (arith, one))
  | inr more ↦ (48 + v % 10, [], rw more refl, omega arith, omega arith)
]
digits_within-first (suc n) v = elim (Bool-cases (ltb v 10)) [
  | inl one ↦ (48 + v, [], rw one refl, omega arith, ground (arith, one))
  | inr more ↦
      let (c, t, e, low, high) = digits_within-first n (v / 10) in
      (c, t ++ ((48 + v % 10) ∷ []), rw (more, e) refl, low, high)
]

-- A byte that is no digit ends the number; the text's end does too.
abbrev Ends : Bytes → Type 0
Ends rest = leb 48 (peek rest) && leb (peek rest) 57 ≡ false

uint_digits-Ends : (v : ℕ) (rest : Bytes) → Ends rest → uint_digits v rest ≡ (v, rest)
unfolding uint_digits
uint_digits-Ends v [] h = refl
uint_digits-Ends v (c ∷ rest) h = rw h refl

-- A text that begins with no space.
skip_ws-dark :
    (c : ℕ) (u : Bytes)
    → (c == 32 || c == 9 || c == 10 || c == 13) ≡ false
    → skip_ws (c ∷ u) ≡ c ∷ u
unfolding skip_ws
skip_ws-dark c u h = rw h refl

read_uint-digits :
    (c v : ℕ) (u rest : Bytes)
    → 48 ≤ c
    → c ≤ 57
    → v ≤ u32_max
    → uint_digits 0 (c ∷ u) ≡ (v, rest)
    → read_uint (c ∷ u) ≡ ok (v, rest)
unfolding read_uint
read_uint-digits c v u rest low top high value =
    rw (skip_ws-dark c u (ground (arith, low, top)), value) (ground (arith, low, top, high))

read_uint-decimal :
    (v : ℕ) (rest : Bytes) → v ≤ u32_max → Ends rest → read_uint (decimal v ++ rest) ≡ ok (v, rest)
read_uint-decimal v rest high ends =
    let (c, t, e, low, top) = digits_within-first 9 v in
    let value : uint_digits 0 (decimal v ++ rest) ≡ (v, rest) =
      uint_digits-digits_within 10 v rest (omega (arith, high)) high
      ∙ uint_digits-Ends v rest ends in
    let whole : decimal v ++ rest ≡ c ∷ (t ++ rest) = ap (λ x. x ++ rest) e in
    rw whole (read_uint-digits c v (t ++ rest) rest low top high (rw whole at value))

items_bytes-length : (vs : List ℕ) → length vs ≤ length (items_bytes vs)
unfolding items_bytes
items_bytes-length [] = omega arith
items_bytes-length (v ∷ []) = omega (arith, length-append (decimal v) (codes "]"))
items_bytes-length (v ∷ w ∷ vs) =
    omega
      (arith, length-append (decimal v) (44 ∷ items_bytes (w ∷ vs)), items_bytes-length (w ∷ vs))

items_within-items_bytes :
    (n : ℕ) (vs : List ℕ) (rest : Bytes)
    → 1 ≤ length vs
    → length vs ≤ n
    → All (λ v. v ≤ u32_max) vs
    → items_within n (items_bytes vs ++ rest) ≡ ok (vs, rest)
unfolding items_within items_bytes items_next separator
items_within-items_bytes n [] rest pos fuel h = elim pos [ ]
items_within-items_bytes zero (v ∷ vs) rest pos fuel h = elim fuel [ ]
items_within-items_bytes (suc n) (v ∷ []) rest pos fuel (p, h) =
    let read = read_uint-decimal v (93 ∷ rest) p (ground arith) in
    rw (append_assoc (decimal v) (codes "]") rest, read, skip_ws-dark 93 rest (ground arith)) refl
items_within-items_bytes (suc n) (v ∷ w ∷ vs) rest pos fuel (p, h) =
    let more = items_bytes (w ∷ vs) ++ rest in
    let read = read_uint-decimal v (44 ∷ more) p (ground arith) in
    let later = items_within-items_bytes n (w ∷ vs) rest (omega arith) (omega (arith, fuel)) h in
    rw
      (
        append_assoc (decimal v) (44 ∷ items_bytes (w ∷ vs)) rest,
        read,
        skip_ws-dark 44 more (ground arith),
        later,
      )
      refl

items_bytes-first :
    (v : ℕ) (vs : List ℕ)
    → (c : ℕ) × (t : Bytes) × (items_bytes (v ∷ vs) ≡ c ∷ t) × (48 ≤ c) × (c ≤ 57)
unfolding items_bytes
items_bytes-first v [] =
    let (c, t, e, low, top) = digits_within-first 9 v in
    (c, t ++ codes "]", ap (λ x. x ++ codes "]") e, low, top)
items_bytes-first v (w ∷ vs) =
    let (c, t, e, low, top) = digits_within-first 9 v in
    (c, t ++ (44 ∷ items_bytes (w ∷ vs)), ap (λ x. x ++ (44 ∷ items_bytes (w ∷ vs))) e, low, top)

empty_array :
    (rest : Bytes)
    → (if peek (skip_ws (items_bytes [] ++ rest)) == 93
        then ok ([], drop 1 (skip_ws (items_bytes [] ++ rest)))
        else items_within
            (length (91 ∷ (items_bytes [] ++ rest)))
            (skip_ws (items_bytes [] ++ rest)))
      ≡ ok ([], rest)
unfolding items_bytes
empty_array rest = rw (skip_ws-dark 93 rest (ground arith)) refl

-- An array of numbers below 2 ^ 32, none included, printed with commas and no spaces before any text:
-- `read_uint_array` reads the numbers back and stands exactly behind the array.
pub read_uint_array-array_bytes :
    (vs : List ℕ) (rest : Bytes)
    → All (λ v. v ≤ u32_max) vs
    → read_uint_array (array_bytes vs ++ rest) ≡ ok (vs, rest)
unfolding read_uint_array expect
read_uint_array-array_bytes [] rest h =
    rw (skip_ws-dark 91 (items_bytes [] ++ rest) (ground arith)) (empty_array rest)
read_uint_array-array_bytes (v ∷ vs) rest h =
    let text = items_bytes (v ∷ vs) ++ rest in
    let (c, t, e, low, top) = items_bytes-first v vs in
    let whole : text ≡ c ∷ (t ++ rest) = ap (λ x. x ++ rest) e in
    let same : skip_ws text ≡ text =
      rw whole (skip_ws-dark c (t ++ rest) (ground (arith, low, top))) in
    let digit : peek text == 93 ≡ false = rw whole (ground (arith, low, top)) in
    let enough : length (v ∷ vs) ≤ length (91 ∷ text) =
      omega (arith, items_bytes-length (v ∷ vs), length-append (items_bytes (v ∷ vs)) rest) in
    let read = items_within-items_bytes (length (91 ∷ text)) (v ∷ vs) rest (omega arith) enough h in
    rw (skip_ws-dark 91 text (ground arith), same, digit) read
