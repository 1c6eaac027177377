-- ===== src/Tokenizer/Tests.antt =====
-- A tokenizer of single bytes, and the theorems about src/q3_tokenizer.c at it.
use sera_c.Tokenizer.Special.Accents.{normalize_nfc-Composed, Composed}
use sera_c.Tokenizer.Merges.{merge_all}
use sera_c.Tokenizer.Pieces.Bounds.{Whole, piece_length-Whole}
use sera_c.Tokenizer.Merges.Done.{Settled, merge_all-Settled}
use sera_c.Tokenizer.Special.{normalize_nfc}
use sera_c.Tokenizer.Pieces.{
  piece_length, piece_behind, space_piece, in_word, cp_letter, cp_mark, cp_number, cp_newline,
  cp_space, run, run_within,
}
use sera_c.Tokenizer.Utf8.{put_utf8, utf8_cp, utf8_cp-put_utf8}
use sera_c.Tokenizer.Symbols.{symbol_bytes, decode_symbols, bytelevel, decode_symbols-bytelevel}
use sera_c.Tokenizer.Encode.{Tokenizer}
use sera_c.Tokenizer.Vocab.{VocabEntry, lookup, Answer, token}
use sera_c.Common.{
  ℕ, Option, List, Bool, map, true, false, if◌then◌else◌, Bytes, ◌∷◌, ◌+◌, codes, ltb, suc, some,
  [], ◌==◌, none, bytes_eq, zero, ◌++◌, ◌&&◌, get_or, ◌≡◌, refl, ◌≤◌, arith, length,
}

-- The slots of a table of 512 in which the 256 bytes were put by their hashes; 999 is an empty one.
abbrev order : List ℕ
order =
    999 ∷ 251 ∷ 999 ∷ 999 ∷ 111 ∷ 231 ∷ 999 ∷ 999 ∷ 91 ∷ 171 ∷ 211 ∷ 999 ∷ 71 ∷ 26 ∷ 183 ∷ 999 ∷ 51
    ∷ 14 ∷ 999 ∷ 999 ∷ 999 ∷ 144 ∷ 999 ∷ 999 ∷ 999 ∷ 132 ∷ 999 ∷ 122 ∷ 244 ∷ 999 ∷ 999 ∷ 102 ∷ 224
    ∷ 999 ∷ 999 ∷ 82 ∷ 162 ∷ 204 ∷ 999 ∷ 62 ∷ 29 ∷ 999 ∷ 999 ∷ 42 ∷ 1 ∷ 999 ∷ 999 ∷ 999 ∷ 147 ∷ 999
    ∷ 999 ∷ 999 ∷ 999 ∷ 999 ∷ 113 ∷ 237 ∷ 999 ∷ 999 ∷ 93 ∷ 217 ∷ 999 ∷ 999 ∷ 73 ∷ 185 ∷ 197 ∷ 999
    ∷ 53 ∷ 20 ∷ 999 ∷ 999 ∷ 33 ∷ 150 ∷ 999 ∷ 999 ∷ 999 ∷ 138 ∷ 999 ∷ 124 ∷ 250 ∷ 999 ∷ 999 ∷ 104
    ∷ 230 ∷ 999 ∷ 999 ∷ 84 ∷ 164 ∷ 210 ∷ 999 ∷ 64 ∷ 27 ∷ 176 ∷ 999 ∷ 44 ∷ 15 ∷ 999 ∷ 999 ∷ 999 ∷ 145
    ∷ 999 ∷ 999 ∷ 999 ∷ 133 ∷ 999 ∷ 123 ∷ 159 ∷ 243 ∷ 999 ∷ 103 ∷ 223 ∷ 999 ∷ 999 ∷ 83 ∷ 163 ∷ 203
    ∷ 999 ∷ 63 ∷ 18 ∷ 999 ∷ 999 ∷ 43 ∷ 6 ∷ 999 ∷ 999 ∷ 999 ∷ 136 ∷ 999 ∷ 999 ∷ 999 ∷ 999 ∷ 999 ∷ 114
    ∷ 236 ∷ 999 ∷ 999 ∷ 94 ∷ 174 ∷ 216 ∷ 999 ∷ 74 ∷ 186 ∷ 196 ∷ 999 ∷ 54 ∷ 21 ∷ 999 ∷ 999 ∷ 34 ∷ 151
    ∷ 999 ∷ 999 ∷ 999 ∷ 139 ∷ 999 ∷ 125 ∷ 249 ∷ 999 ∷ 999 ∷ 105 ∷ 229 ∷ 999 ∷ 999 ∷ 85 ∷ 165 ∷ 209
    ∷ 999 ∷ 65 ∷ 24 ∷ 177 ∷ 999 ∷ 45 ∷ 12 ∷ 999 ∷ 999 ∷ 999 ∷ 142 ∷ 999 ∷ 999 ∷ 999 ∷ 130 ∷ 999
    ∷ 116 ∷ 158 ∷ 242 ∷ 999 ∷ 96 ∷ 222 ∷ 999 ∷ 999 ∷ 76 ∷ 188 ∷ 202 ∷ 999 ∷ 56 ∷ 19 ∷ 999 ∷ 999 ∷ 36
    ∷ 7 ∷ 999 ∷ 999 ∷ 999 ∷ 137 ∷ 999 ∷ 999 ∷ 255 ∷ 999 ∷ 999 ∷ 115 ∷ 235 ∷ 999 ∷ 999 ∷ 95 ∷ 175
    ∷ 215 ∷ 999 ∷ 75 ∷ 187 ∷ 195 ∷ 999 ∷ 55 ∷ 10 ∷ 999 ∷ 999 ∷ 35 ∷ 156 ∷ 999 ∷ 999 ∷ 999 ∷ 128
    ∷ 999 ∷ 126 ∷ 248 ∷ 999 ∷ 999 ∷ 106 ∷ 228 ∷ 999 ∷ 999 ∷ 86 ∷ 166 ∷ 208 ∷ 999 ∷ 66 ∷ 25 ∷ 178
    ∷ 999 ∷ 46 ∷ 13 ∷ 999 ∷ 999 ∷ 999 ∷ 143 ∷ 999 ∷ 999 ∷ 999 ∷ 131 ∷ 999 ∷ 117 ∷ 173 ∷ 241 ∷ 999
    ∷ 97 ∷ 221 ∷ 999 ∷ 999 ∷ 77 ∷ 189 ∷ 201 ∷ 999 ∷ 57 ∷ 16 ∷ 999 ∷ 999 ∷ 37 ∷ 4 ∷ 999 ∷ 999 ∷ 999
    ∷ 134 ∷ 999 ∷ 999 ∷ 254 ∷ 999 ∷ 999 ∷ 108 ∷ 234 ∷ 999 ∷ 999 ∷ 88 ∷ 168 ∷ 214 ∷ 999 ∷ 68 ∷ 180
    ∷ 194 ∷ 999 ∷ 48 ∷ 11 ∷ 999 ∷ 999 ∷ 999 ∷ 157 ∷ 999 ∷ 999 ∷ 999 ∷ 129 ∷ 999 ∷ 999 ∷ 247 ∷ 999
    ∷ 999 ∷ 107 ∷ 227 ∷ 999 ∷ 999 ∷ 87 ∷ 167 ∷ 207 ∷ 999 ∷ 67 ∷ 30 ∷ 179 ∷ 999 ∷ 47 ∷ 2 ∷ 999 ∷ 999
    ∷ 999 ∷ 148 ∷ 999 ∷ 999 ∷ 999 ∷ 999 ∷ 999 ∷ 118 ∷ 160 ∷ 240 ∷ 999 ∷ 98 ∷ 220 ∷ 999 ∷ 999 ∷ 78
    ∷ 190 ∷ 200 ∷ 999 ∷ 58 ∷ 17 ∷ 999 ∷ 999 ∷ 38 ∷ 5 ∷ 999 ∷ 999 ∷ 999 ∷ 135 ∷ 999 ∷ 999 ∷ 253 ∷ 999
    ∷ 999 ∷ 109 ∷ 233 ∷ 999 ∷ 999 ∷ 89 ∷ 169 ∷ 213 ∷ 999 ∷ 69 ∷ 181 ∷ 193 ∷ 999 ∷ 49 ∷ 8 ∷ 999 ∷ 999
    ∷ 999 ∷ 154 ∷ 999 ∷ 999 ∷ 999 ∷ 32 ∷ 999 ∷ 120 ∷ 246 ∷ 999 ∷ 999 ∷ 100 ∷ 226 ∷ 999 ∷ 999 ∷ 80
    ∷ 206 ∷ 999 ∷ 999 ∷ 60 ∷ 31 ∷ 999 ∷ 999 ∷ 40 ∷ 3 ∷ 999 ∷ 999 ∷ 999 ∷ 149 ∷ 999 ∷ 999 ∷ 999 ∷ 999
    ∷ 999 ∷ 119 ∷ 239 ∷ 999 ∷ 999 ∷ 99 ∷ 219 ∷ 999 ∷ 999 ∷ 79 ∷ 191 ∷ 199 ∷ 999 ∷ 59 ∷ 22 ∷ 999
    ∷ 999 ∷ 39 ∷ 152 ∷ 999 ∷ 999 ∷ 999 ∷ 140 ∷ 999 ∷ 999 ∷ 252 ∷ 999 ∷ 999 ∷ 110 ∷ 232 ∷ 999 ∷ 999
    ∷ 90 ∷ 170 ∷ 212 ∷ 999 ∷ 70 ∷ 182 ∷ 192 ∷ 999 ∷ 50 ∷ 9 ∷ 999 ∷ 999 ∷ 999 ∷ 155 ∷ 999 ∷ 999 ∷ 999
    ∷ 127 ∷ 999 ∷ 121 ∷ 245 ∷ 999 ∷ 999 ∷ 101 ∷ 225 ∷ 999 ∷ 999 ∷ 81 ∷ 161 ∷ 205 ∷ 999 ∷ 61 ∷ 28
    ∷ 999 ∷ 999 ∷ 41 ∷ 0 ∷ 999 ∷ 999 ∷ 999 ∷ 146 ∷ 999 ∷ 999 ∷ 999 ∷ 999 ∷ 999 ∷ 112 ∷ 238 ∷ 999
    ∷ 999 ∷ 92 ∷ 172 ∷ 218 ∷ 999 ∷ 72 ∷ 184 ∷ 198 ∷ 999 ∷ 52 ∷ 23 ∷ 999 ∷ 999 ∷ 999 ∷ 153 ∷ 999
    ∷ 999 ∷ 999 ∷ 141 ∷ 999 ∷ []

abbrev entry : ℕ → VocabEntry
entry b = record { s = symbol_bytes b; id = 256 + b }

slot : ℕ → Option VocabEntry
slot b = if ltb b 256 then some (entry b) else none

-- The texts of the codes from `i` on.
texts_from : ℕ → ℕ → List (Option Bytes)
texts_from zero i = []
texts_from (suc n) i = some (symbol_bytes i) ∷ texts_from n (i + 1)

-- The codes below 256, of which four are the ones of `encode_piece`.
low_texts : ℕ → ℕ → List (Option Bytes)
low_texts zero i = []
low_texts (suc n) i =
    (if i == 0
      then some (codes "!")
      else if i == 11
      then some (codes ",")
      else if i == 13
      then some (codes ".")
      else if i == 198
      then some (symbol_bytes 10)
      else none)
    ∷ low_texts n (i + 1)

-- A merge, of "a" and "b", whose result has no code of its own; and a special text.
abbrev small : Tokenizer
small = record {
  vocab = map slot order;
  merges = (record { s = codes "a b"; rank = 0 }) ∷ [];
  special_id = 512 ∷ [];
  special_text = codes "<|im_end|>" ∷ [];
  id_to_token = low_texts 256 0 ++ texts_from 256 0;
}

-- The code of each byte from `b` on is found, and its text is the byte's symbol.
is_id : Answer → ℕ → Bool
is_id (token x) id = x == id
is_id _ id = false

is_text : Option Bytes → Bytes → Bool
is_text none s = false
is_text (some x) s = bytes_eq x s

all_there : ℕ → ℕ → Bool
all_there zero b = true
all_there (suc n) b =
    all_there n (b + 1)
    && is_id (lookup small.vocab (symbol_bytes b)) (256 + b)
    && is_text (get_or small.id_to_token (256 + b) none) (symbol_bytes b)

-- A character of three bytes.
utf8_cp-put_utf8_example :
    (bs : Bytes) × (put_utf8 0x20ac ≡ some bs) × (utf8_cp (bs ++ codes "!") ≡ (0x20ac, length bs))
utf8_cp-put_utf8_example = utf8_cp-put_utf8 0x20ac (codes "!") (omega arith)

decode_symbols-bytelevel_example :
    decode_symbols (bytelevel (0 ∷ 97 ∷ 173 ∷ 255 ∷ [])) ≡ some (0 ∷ 97 ∷ 173 ∷ 255 ∷ [])
decode_symbols-bytelevel_example =
    decode_symbols-bytelevel (0 ∷ 97 ∷ 173 ∷ 255 ∷ [])
      (omega arith, (omega arith, (omega arith, (omega arith, tt))))

-- A word with the space before it.
two_words : piece_length (codes " is it") ≡ 3
unfolding piece_length piece_behind space_piece utf8_cp in_word cp_letter cp_mark cp_number
    cp_newline cp_space run run_within
two_words = refl

piece_length-Whole_example :
    Whole (codes "it's") (piece_length (codes "it's"))
    × (1 ≤ piece_length (codes "it's"))
    × (piece_length (codes "it's") ≤ length (codes "it's"))
piece_length-Whole_example = piece_length-Whole (codes "it's") (omega arith)

merge_all-Settled_example :
    Settled small.merges (merge_all small.merges (codes "a" ∷ codes "b" ∷ codes "c" ∷ []))
merge_all-Settled_example = merge_all-Settled small.merges (codes "a" ∷ codes "b" ∷ codes "c" ∷ [])

-- A byte that begins no character is in the text.
abbrev text : Bytes
text = codes "ab, it's" ++ (255 ∷ [])

abbrev chat : Bytes
chat = codes "ab<|im_end|>, it's"

-- An accent behind a letter that has a composed form.
abbrev accents : Bytes
accents = 97 ∷ 0xcc ∷ 0x81 ∷ 0xcc ∷ 0x81 ∷ []

normalize_nfc-Composed_example :
    Composed accents (normalize_nfc accents)
    × (normalize_nfc (normalize_nfc accents) ≡ normalize_nfc accents)
normalize_nfc-Composed_example = normalize_nfc-Composed accents
