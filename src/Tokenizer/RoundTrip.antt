-- ===== src/Tokenizer/RoundTrip.antt =====
-- Encoding a text and decoding the codes, in src/q3_tokenizer.c.

use sera_c.Tokenizer.Vocab.{VocabEntry, lookup, token, IsOpen}
use sera_c.Tokenizer.Symbols.{symbol_bytes, decode_symbols}
use sera_c.Tokenizer.Encode.{Tokenizer, decode, token_bytes}
use sera_c.Common.{
  ℕ, Option, Bytes, List, ◌++◌, get_or, ◌≡◌, IsByte, none, ◌∷◌, some, [], ap, ◌∙◌, sym,
  append_assoc, bind-some,
}

-- A tokenizer whose vocabulary is a table with room, and whose codes mean what it says: every entry's
-- code adds the bytes that the
-- entry's symbols stand for, each single byte has an entry that `lookup` finds, and the four codes of
-- `encode_piece` are those of their characters.
pub record IsTokenizer (t : Tokenizer) : Type 0 where
  pub room : IsOpen t.vocab
  pub back :
      (j : ℕ) (e : VocabEntry)
      → get_or t.vocab j none ≡ some e
      → token_bytes t e.id ≡ decode_symbols e.s
  pub singles : (b : ℕ) → IsByte b → (id : ℕ) × (lookup t.vocab (symbol_bytes b) ≡ token id)
  pub comma : token_bytes t 11 ≡ some (44 ∷ [])
  pub exclamation : token_bytes t 0 ≡ some (33 ∷ [])
  pub period : token_bytes t 13 ≡ some (46 ∷ [])
  pub newline : token_bytes t 198 ≡ some (10 ∷ [])

-- The codes are there, and decode to the text.
abbrev pub Encodes : Tokenizer → Option (List ℕ) → Bytes → Type 0
Encodes t codes s = (ids : List ℕ) × (codes ≡ some ids) × (decode t ids ≡ some s)

pub decode-append :
    (t : Tokenizer) (ids more : List ℕ) (x y : Bytes)
    → decode t ids ≡ some x
    → decode t more ≡ some y
    → decode t (ids ++ more) ≡ some (x ++ y)
unfolding decode
decode-append t [] more x y h k = let e : [] ≡ x = cc in rw⁻¹ e k
decode-append t (id ∷ ids) more x y h k =
    let (bs, e0, h0) = bind-some (token_bytes t id) _ h in
    let (rest, e1, h1) = bind-some (decode t ids) (λ (more : Bytes). some (bs ++ more)) h0 in
    let whole : bs ++ rest ≡ x = cc in
    rw (e0, decode-append t ids more rest y e1 k)
      (ap some (sym (append_assoc bs rest y) ∙ ap (λ z. z ++ y) whole))

-- A text as its single bytes.
one_each : Bytes → List Bytes
one_each [] = []
one_each (b ∷ bs) = (b ∷ []) ∷ one_each bs
