-- ===== src/Tokenizer/Utf8.antt =====
-- UTF-8 in src/q3_tokenizer.c: `put_utf8` and `utf8_cp`. The bits that `|` joins never overlap, so
-- it is a sum; shifts are quotients and products, and masks are remainders.
use sera_c.Common.{
  ℕ, Option, Bytes, Bool, ◌≤◌, ◌/◌, some, ◌∷◌, if◌then◌else◌, ◌≡◌, ◌==◌, none, ltb, leb, length,
  ◌++◌, [], ◌&&◌, ◌+◌, ◌%◌, Bool-cases, ◌*◌, inl, arith, inr, ◌<◌,
}

-- The bytes that `put_utf8` appends.
unfoldable pub put_utf8 : ℕ → Option Bytes
put_utf8 cp =
    if ltb cp 0x80
    then some (cp ∷ [])
    else if ltb cp 0x800
    then some ((0xc0 + cp / 64) ∷ (0x80 + cp % 64) ∷ [])
    else if ltb cp 0x1_0000
    then some ((0xe0 + cp / 4096) ∷ (0x80 + cp / 64 % 64) ∷ (0x80 + cp % 64) ∷ [])
    else if leb cp 0x10_ffff
    then some (
        (0xf0 + cp / 262144)
        ∷ (0x80 + cp / 4096 % 64)
        ∷ (0x80 + cp / 64 % 64)
        ∷ (0x80 + cp % 64)
        ∷ [])
    else none

-- `(s & 0xc0) == 0x80`.
abbrev pub is_tail : ℕ → Bool
is_tail b = b / 64 == 2

-- What behind a first byte is read as one character, by the bytes that are there.
unfoldable pub utf8_two : ℕ → Bytes → Option (ℕ × ℕ)
utf8_two c (s1 ∷ _) =
    if leb 0xc2 c && leb c 0xdf && is_tail s1 then some (c % 32 * 64 + s1 % 64, 2) else none
utf8_two c _ = none

unfoldable pub utf8_three : ℕ → Bytes → Option (ℕ × ℕ)
utf8_three c (s1 ∷ s2 ∷ _) =
    if leb 0xe0 c && leb c 0xef && is_tail s1 && is_tail s2
    then some (c % 16 * 4096 + s1 % 64 * 64 + s2 % 64, 3)
    else none
utf8_three c _ = none

unfoldable pub utf8_four : ℕ → Bytes → Option (ℕ × ℕ)
utf8_four c (s1 ∷ s2 ∷ s3 ∷ _) =
    if leb 0xf0 c && leb c 0xf4 && is_tail s1 && is_tail s2 && is_tail s3
    then some (c % 8 * 262144 + s1 % 64 * 4096 + s2 % 64 * 64 + s3 % 64, 4)
    else none
utf8_four c _ = none

-- The first that is there.
abbrev pub or_else {ℓ} : {A : Type ℓ} → Option A → A → A
or_else none d = d
or_else (some x) d = x

-- `utf8_cp`: the code point and the number of bytes read; a byte that begins no character stands
-- for itself. At the end of the text nothing is read, and the code point is what the caller had
-- there, which is 0 where it is looked at.
unfoldable pub utf8_cp : Bytes → ℕ × ℕ
utf8_cp [] = (0, 0)
utf8_cp (c ∷ s) =
    if ltb c 0x80
    then (c, 1)
    else or_else (utf8_two c s) (or_else (utf8_three c s) (or_else (utf8_four c s) (c, 1)))

two_bytes :
    (cp : ℕ) (rest : Bytes)
    → 0x80 ≤ cp
    → cp < 0x800
    → utf8_cp ((0xc0 + cp / 64) ∷ (0x80 + cp % 64) ∷ rest) ≡ (cp, 2)
unfolding utf8_cp utf8_two
two_bytes cp rest low high = ground (arith, low, high)

three_bytes :
    (cp : ℕ) (rest : Bytes)
    → 0x800 ≤ cp
    → cp < 0x1_0000
    → utf8_cp ((0xe0 + cp / 4096) ∷ (0x80 + cp / 64 % 64) ∷ (0x80 + cp % 64) ∷ rest) ≡ (cp, 3)
unfolding utf8_cp utf8_two utf8_three
three_bytes cp rest low high = ground (arith, low, high)

four_bytes :
    (cp : ℕ) (rest : Bytes)
    → 0x1_0000 ≤ cp
    → cp ≤ 0x10_ffff
    → utf8_cp (
        (0xf0 + cp / 262144)
        ∷ (0x80 + cp / 4096 % 64)
        ∷ (0x80 + cp / 64 % 64)
        ∷ (0x80 + cp % 64)
        ∷ rest)
      ≡ (cp, 4)
unfolding utf8_cp utf8_two utf8_three utf8_four
four_bytes cp rest low high = ground (arith, low, high)

-- A character of any code point up to 0x10ffff, surrogates included, that `put_utf8` writes before
-- any other bytes is what `utf8_cp` reads there, with the number of its bytes.
pub utf8_cp-put_utf8 :
    (cp : ℕ) (rest : Bytes)
    → cp ≤ 0x10_ffff
    → (bs : Bytes) × (put_utf8 cp ≡ some bs) × (utf8_cp (bs ++ rest) ≡ (cp, length bs))
unfolding put_utf8 utf8_cp utf8_two utf8_three utf8_four
utf8_cp-put_utf8 cp rest h = elim (Bool-cases (ltb cp 0x80)) [
  | inl one ↦ (cp ∷ [], ground (arith, one), ground (arith, one))
  | inr more ↦ elim (Bool-cases (ltb cp 0x800)) [
    | inl two ↦ (
      (0xc0 + cp / 64) ∷ (0x80 + cp % 64) ∷ [],
      ground (arith, more, two),
      two_bytes cp rest (ground (arith, more)) (ground (arith, two)),
    )
    | inr more2 ↦ elim (Bool-cases (ltb cp 0x1_0000)) [
      | inl three ↦ (
        (0xe0 + cp / 4096) ∷ (0x80 + cp / 64 % 64) ∷ (0x80 + cp % 64) ∷ [],
        ground (arith, more, more2, three),
        three_bytes cp rest (ground (arith, more2)) (ground (arith, three)),
      )
      | inr more3 ↦ (
        (0xf0 + cp / 262144)
            ∷ (0x80 + cp / 4096 % 64)
            ∷ (0x80 + cp / 64 % 64)
            ∷ (0x80 + cp % 64)
            ∷ [],
        ground (arith, more, more2, more3, h),
        four_bytes cp rest (ground (arith, more3)) h,
      )
    ]
  ]
]

-- One character at least, and no more bytes than there are.
pub utf8_cp-bounds : (s : Bytes) → 1 ≤ length s → (1 ≤ (utf8_cp s).1) × ((utf8_cp s).1 ≤ length s)
unfolding utf8_cp utf8_two utf8_three utf8_four
utf8_cp-bounds [] h = elim h [ ]
utf8_cp-bounds (c ∷ []) h = ground arith
utf8_cp-bounds (c ∷ s1 ∷ []) h = ground arith
utf8_cp-bounds (c ∷ s1 ∷ s2 ∷ []) h = ground arith
utf8_cp-bounds (c ∷ s1 ∷ s2 ∷ s3 ∷ s) h = ground arith
