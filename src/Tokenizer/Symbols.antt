-- ===== src/Tokenizer/Symbols.antt =====
-- The byte-level symbols of src/q3_tokenizer.c: a character for each byte (`bmap`, `bytelevel`) and
-- the byte of each such character (`byte_for_codepoint`, the inner loop of `q3_tokenizer_decode`).
use sera_c.Tokenizer.Utf8.{or_else, put_utf8, utf8_cp, utf8_cp-put_utf8}
use sera_c.Common.{
  ℕ, Bytes, List, ◌≡◌, Bool, get_or, Option, if◌then◌else◌, none, suc, leb, true, ◌∷◌, [], some,
  refl, ◌&&◌, ◌++◌, ◌+◌, length, not, ◌||◌, false, zero, drop, ◌==◌, ◌>>=?◌, ltb, IsByte, ◌≤◌, All,
  arith, drop-append, ◌<◌, length-append, Bool-cases, inl, inr,
}

-- The bytes that stand for themselves.
unfoldable pub is_kept : ℕ → Bool
is_kept b = (leb 33 b && leb b 126) || (leb 161 b && leb b 172) || (leb 174 b && leb b 255)

-- The code points of `n` bytes from `i` on, where `next` is the next code point to give to a byte
-- that does not stand for itself. The search for a free one stops at once: no kept byte is 0x100 or
-- more.
unfoldable pub symbols_from : ℕ → ℕ → ℕ → List ℕ
symbols_from zero i next = []
symbols_from (suc n) i next =
    (if is_kept i then i else next) ∷ symbols_from n (i + 1) (if is_kept i then next else next + 1)

-- `bmap`, as a code point.
unfoldable pub symbol : ℕ → ℕ
symbol b = get_or (symbols_from 256 0 0x100) b 0

-- The bytes of a symbol: its UTF-8.
unfoldable pub symbol_bytes : ℕ → Bytes
symbol_bytes b = or_else (put_utf8 (symbol b)) []

unfoldable pub bytelevel : Bytes → Bytes
bytelevel [] = []
bytelevel (b ∷ bs) = symbol_bytes b ++ bytelevel bs

-- The loop of `byte_for_codepoint` over the `n` bytes from `b` on, of which `skipped` before were
-- not kept.
unfoldable pub skipped_byte : ℕ → ℕ → ℕ → ℕ → Option ℕ
skipped_byte zero b skipped cp = none
skipped_byte (suc n) b skipped cp =
    let later = skipped_byte n (b + 1) (if is_kept b then skipped else skipped + 1) cp in
    if not (is_kept b) && 0x100 + skipped == cp then some b else later

-- `byte_for_codepoint`; `none` is -1.
unfoldable pub byte_for_codepoint : ℕ → Option ℕ
byte_for_codepoint cp =
    let searched = skipped_byte 256 0 0 cp in
    if is_kept cp then some cp else if leb 0x100 cp && leb cp 0x1ff then searched else none

-- The bytes of a token's text: the loop of `q3_tokenizer_decode`, with a round for each byte, which
-- is enough since each reads one at least. `none` is a character that is no symbol.
unfoldable pub symbols_within : ℕ → Bytes → Option Bytes
symbols_within zero s = none
symbols_within (suc n) [] = some []
symbols_within (suc n) (c ∷ s) =
    let read = utf8_cp (c ∷ s) in
    let later = symbols_within n (drop read.1 (c ∷ s)) in
    byte_for_codepoint read.0 >>=? λ b. (later >>=? λ bs. some (b ∷ bs))

unfoldable pub decode_symbols : Bytes → Option Bytes
decode_symbols s = symbols_within (suc (length s)) s

-- Every byte's symbol is that byte's again.
is_byte : Option ℕ → ℕ → Bool
is_byte none b = false
is_byte (some c) b = c == b

is_byte_iff : (o : Option ℕ) (b : ℕ) → is_byte o b ≡ true → o ≡ some b
unfolding is_byte
is_byte_iff none b h = cc
is_byte_iff (some c) b h = ground (arith, h)

symbols_back : ℕ → ℕ → Bool
symbols_back zero b = true
symbols_back (suc n) b =
    symbols_back n (b + 1) && is_byte (byte_for_codepoint (symbol b)) b && ltb (symbol b) 0x800

all_back : symbols_back 256 0 ≡ true
unfolding symbols_back is_byte byte_for_codepoint symbol symbols_from skipped_byte is_kept
all_back = refl

symbols_back-each :
    (n b k : ℕ)
    → symbols_back n b ≡ true
    → b ≤ k
    → k < b + n
    → (byte_for_codepoint (symbol k) ≡ some k) × (symbol k < 0x800)
unfolding symbols_back
symbols_back-each zero b k h low high = let no : ⊥ = omega (arith, low, high) in elim no [ ]
symbols_back-each (suc n) b k h low high =
    let parts : (symbols_back n (b + 1) ≡ true)
        × (is_byte (byte_for_codepoint (symbol b)) b ≡ true)
        × (symbol b < 0x800) =
      ground (arith, h) in
    elim (Bool-cases (k == b)) [
      | inl same ↦
          let e : k ≡ b = ground (arith, same) in
          rw e (is_byte_iff (byte_for_codepoint (symbol b)) b parts.1, parts.2)
      | inr other ↦
          let above : b + 1 ≤ k = ground (arith, other, low) in
          symbols_back-each n (b + 1) k parts.0 above (omega (arith, high))
    ]

-- A byte's symbol, which is that byte's again.
pub symbol_lem : (b : ℕ) → IsByte b → (byte_for_codepoint (symbol b) ≡ some b) × (symbol b < 0x800)
symbol_lem b h = symbols_back-each 256 0 b all_back (omega arith) (omega (arith, h))

put_utf8-length : (cp : ℕ) (x : Bytes) → put_utf8 cp ≡ some x → 1 ≤ length x
unfolding put_utf8
put_utf8-length cp x h = ground (arith, h)

pub symbol_bytes-read :
    (b : ℕ) (rest : Bytes)
    → IsByte b
    → (utf8_cp (symbol_bytes b ++ rest) ≡ (symbol b, length (symbol_bytes b)))
      × (1 ≤ length (symbol_bytes b))
unfolding symbol_bytes
symbol_bytes-read b rest h =
    let (x, written, back) = utf8_cp-put_utf8 (symbol b) rest (omega (arith, (symbol_lem b h).1)) in
    rw written (back, put_utf8-length (symbol b) x written)

-- One round of the loop, at a symbol.
symbols_within-one :
    (n b cp : ℕ) (x rest : Bytes)
    → 1 ≤ length x
    → utf8_cp (x ++ rest) ≡ (cp, length x)
    → byte_for_codepoint cp ≡ some b
    → symbols_within (suc n) (x ++ rest) ≡ (symbols_within n rest >>=? λ bs. some (b ∷ bs))
unfolding symbols_within
symbols_within-one n b cp [] rest pos read back = elim pos [ ]
symbols_within-one n b cp (c ∷ x) rest pos read back =
    rw (read, drop-append (c ∷ x) rest, back) refl

symbols_within-bytelevel :
    (n : ℕ) (bs : Bytes)
    → All IsByte bs
    → length (bytelevel bs) < n
    → symbols_within n (bytelevel bs) ≡ some bs
unfolding bytelevel symbols_within
symbols_within-bytelevel zero bs h fuel = let no : ⊥ = omega (arith, fuel) in elim no [ ]
symbols_within-bytelevel (suc n) [] h fuel = refl
symbols_within-bytelevel (suc n) (b ∷ bs) (p, h) fuel =
    let (read, pos) = symbol_bytes-read b (bytelevel bs) p in
    let enough : length (bytelevel bs) < n =
      omega (arith, fuel, pos, length-append (symbol_bytes b) (bytelevel bs)) in
    rw
      (
        symbols_within-one n b (symbol b) (symbol_bytes b) (bytelevel bs) pos read
            (symbol_lem b p).0,
        symbols_within-bytelevel n bs h enough,
      )
      refl

-- Every byte string, zero bytes included, is read back from its byte-level symbols.
pub decode_symbols-bytelevel :
    (bs : Bytes) → All IsByte bs → decode_symbols (bytelevel bs) ≡ some bs
unfolding decode_symbols
decode_symbols-bytelevel bs h =
    symbols_within-bytelevel (suc (length (bytelevel bs))) bs h (omega arith)
