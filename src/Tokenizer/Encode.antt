-- ===== src/Tokenizer/Encode.antt =====
-- Encoding and decoding in src/q3_tokenizer.c: a piece (`encode_piece`), a text (`encode_text`), and
-- codes back to bytes (`q3_tokenizer_decode`). Every allocation is taken to succeed. An encoder's
-- `none` is its failure or a search that does not end.
use sera_c.Tokenizer.Symbols.{decode_symbols, bytelevel}
use sera_c.Tokenizer.Vocab.{lookup, VocabEntry, Answer, token, no_token, no_end}
use sera_c.Tokenizer.Merges.{merge_all, Merge}
use sera_c.Tokenizer.Pieces.{is_empty, piece_length}
use sera_c.Common.{
  ℕ, Option, List, Bytes, if◌then◌else◌, ◌∷◌, ltb, length, ◌>>=?◌, [], Bool, some, ◌++◌, true, suc,
  none, ◌==◌, get_or, take, false, drop, zero,
}

-- The parts of a tokenizer that these functions read.
pub record Tokenizer : Type 0 where
  pub vocab : List (Option VocabEntry)
  pub merges : List Merge
  pub special_id : List ℕ
  pub special_text : List Bytes
  pub id_to_token : List (Option Bytes)

-- The length of a symbol by its first byte.
unfoldable pub symbol_length : ℕ → ℕ
symbol_length u = if ltb u 128 then 1 else if ltb u 224 then 2 else 3

-- The symbols of a byte-level text, in at most `n` rounds; each takes one byte at least.
unfoldable pub split_within : ℕ → Bytes → List Bytes
split_within zero x = []
split_within (suc n) [] = []
split_within (suc n) (u ∷ x) =
    take (symbol_length u) (u ∷ x) ∷ split_within n (drop (symbol_length u) (u ∷ x))

unfoldable pub split_symbols : Bytes → List Bytes
split_symbols x = split_within (length x) x

-- The code that must be there.
unfoldable pub code_of : Answer → Option ℕ
code_of (token id) = some id
code_of _ = none

-- The codes of texts that must all be in the vocabulary.
unfoldable pub lookup_each : List (Option VocabEntry) → List Bytes → Option (List ℕ)
lookup_each vocab [] = some []
lookup_each vocab (q ∷ qs) =
    code_of (lookup vocab q) >>=? λ id. (lookup_each vocab qs >>=? λ ids. some (id ∷ ids))

-- The one code that is there, or the others.
unfoldable pub one_code : Option ℕ → Option (List ℕ) → Option (List ℕ)
one_code none others = others
one_code (some id) others = some (id ∷ [])

-- The code that is found, or the others where the text is not there.
unfoldable pub found_or : Answer → Option (List ℕ) → Option (List ℕ)
found_or (token id) others = some (id ∷ [])
found_or no_token others = others
found_or no_end others = none

-- The codes of one symbol: its own, or those of the symbols that it was joined of.
unfoldable pub symbol_codes : List (Option VocabEntry) → Bytes → Option (List ℕ)
symbol_codes vocab a = found_or (lookup vocab a) (lookup_each vocab (split_symbols a))

unfoldable pub codes_of : List (Option VocabEntry) → List Bytes → Option (List ℕ)
codes_of vocab [] = some []
codes_of vocab (a ∷ rest) =
    symbol_codes vocab a >>=? λ ids. (codes_of vocab rest >>=? λ more. some (ids ++ more))

-- The four pieces of one character with a code of their own.
unfoldable pub shortcut : Bytes → Option ℕ
shortcut (c ∷ []) =
    if c == 44
    then some 11
    else if c == 33
    then some 0
    else if c == 46
    then some 13
    else if c == 10
    then some 198
    else none
shortcut _ = none

unfoldable pub encode_piece : Tokenizer → Bytes → Option (List ℕ)
encode_piece t s =
    one_code (shortcut s) (codes_of t.vocab (merge_all t.merges (split_symbols (bytelevel s))))

-- The loop of `encode_text`, in at most `n` rounds; each takes one byte at least.
unfoldable pub text_within : Tokenizer → ℕ → Bytes → Option (List ℕ)
text_within t zero s = if is_empty s then some [] else none
text_within t (suc n) [] = some []
text_within t (suc n) (c ∷ s) =
    let k = piece_length (c ∷ s) in
    let later = text_within t n (drop k (c ∷ s)) in
    encode_piece t (take k (c ∷ s)) >>=? λ ids. (later >>=? λ more. some (ids ++ more))

unfoldable pub encode_text : Tokenizer → Bytes → Option (List ℕ)
encode_text t s = text_within t (length s) s

-- The text of a special code.
unfoldable pub special_in : List ℕ → List Bytes → ℕ → Option Bytes
special_in (i ∷ ids) (text ∷ texts) id = if i == id then some text else special_in ids texts id
special_in _ _ id = none

-- The text of a special code or of a plain one.
unfoldable pub marked : Option Bytes → Option Bytes → Option (Bool × Bytes)
marked (some text) plain = some (true, text)
marked none (some text) = some (false, text)
marked none none = none

-- `token_string`, and whether the text is a special code's, which is given out as it is.
unfoldable pub token_string : Tokenizer → ℕ → Option (Bool × Bytes)
token_string t id =
    marked (special_in t.special_id t.special_text id) (get_or t.id_to_token id none)

-- What one code adds to the text.
unfoldable pub token_bytes : Tokenizer → ℕ → Option Bytes
token_bytes t id =
    token_string t id >>=? λ found. if found.0 then some found.1 else decode_symbols found.1

-- `q3_tokenizer_decode`.
unfoldable pub decode : Tokenizer → List ℕ → Option Bytes
decode t [] = some []
decode t (id ∷ ids) = token_bytes t id >>=? λ bs. (decode t ids >>=? λ more. some (bs ++ more))
