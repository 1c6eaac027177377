-- ===== src/Tokenizer/Special/RoundTrip.antt =====
-- Encoding a text with special texts in it and decoding the codes, in src/q3_tokenizer.c.
use sera_c.Tokenizer.RoundTrip.{IsTokenizer}
use sera_c.Tokenizer.Encode.{Tokenizer, token_bytes}
use sera_c.Tokenizer.Special.{Special}
use sera_c.Common.{ℕ, List, Bytes, Option, [], ◌≡◌, ◌≤◌, none, some, length, take, ◌+◌, drop, ◌∷◌}

-- Special texts are not empty, and their codes add them.
pub data AreSpecial (t : Tokenizer) : List ℕ → List Bytes → Type 0 where
  no_more : AreSpecial t [] []
  one_more :
      {id : ℕ} {z : Bytes} {ids : List ℕ} {texts : List Bytes}
      → 1 ≤ length z
      → token_bytes t id ≡ some z
      → AreSpecial t ids texts
      → AreSpecial t (id ∷ ids) (z ∷ texts)

-- The text at `x` is the special text of its code.
record IsThere (t : Tokenizer) (s : Bytes) (x : Special) : Type 0 where
  size_pos : 1 ≤ x.size
  inside : x.place + x.size ≤ length s
  text : token_bytes t x.id ≡ some (take x.size (drop x.place s))

data Found (t : Tokenizer) (s : Bytes) : Option Special → Type 0 where
  nowhere : Found t s none
  somewhere : {x : Special} → IsThere t s x → Found t s (some x)

-- A tokenizer whose special texts too are what their codes add.
pub record IsEncoder (t : Tokenizer) : Type 0 where
  pub plain : IsTokenizer t
  pub special : AreSpecial t t.special_id t.special_text
