-- ===== src/Tokenizer/Special.antt =====
-- The whole encoder of src/q3_tokenizer.c: composed accents (`normalize_nfc`), special texts
-- (`encode_special`), `q3_tokenizer_encode`. A text has no zero byte, since it comes as a C string.
pub mod Accents
pub mod RoundTrip
use sera_c.Tokenizer.Pieces.{is_empty}
use sera_c.Tokenizer.Encode.{Tokenizer, encode_text}
use sera_c.Common.{
  ℕ, List, Bytes, Option, if◌then◌else◌, ◌∷◌, some, length, Bool, ltb, none, true, ◌>>=?◌, ◌==◌,
  false, drop, [], ◌||◌, ◌&&◌, ◌+◌, suc, take, zero, ◌++◌,
}

-- The table `acute`: a letter and the second byte of the letter with an acute accent.
abbrev pub acute_table : List (ℕ × ℕ)
acute_table =
    (97, 0xa1)
    ∷ (101, 0xa9)
    ∷ (105, 0xad)
    ∷ (111, 0xb3)
    ∷ (117, 0xba)
    ∷ (65, 0x81)
    ∷ (69, 0x89)
    ∷ (73, 0x8d)
    ∷ (79, 0x93)
    ∷ (85, 0x9a)
    ∷ []

-- The loop over the rows of the table.
unfoldable pub acute_in : List (ℕ × ℕ) → ℕ → Option ℕ
acute_in [] base = none
acute_in ((letter, second) ∷ rows) base =
    let later = acute_in rows base in if base == letter then some second else later

unfoldable pub acute : ℕ → Option ℕ
acute base = acute_in acute_table base

-- A letter before a combining acute accent, with the accent's two bytes.
unfoldable pub composed : ℕ → ℕ → ℕ → Option ℕ
composed base a b = if a == 0xcc && b == 0x81 then acute base else none

-- A round of the loop, by what follows a composed letter and what follows a byte of its own.
unfoldable pub with_accent : Option ℕ → ℕ → Bytes → Bytes → Bytes
with_accent none x plain rest = x ∷ plain
with_accent (some a) x plain rest = 0xc3 ∷ a ∷ rest

-- The loop of `normalize_nfc`.
unfoldable pub normalize_nfc : Bytes → Bytes
normalize_nfc (x ∷ y ∷ z ∷ s) =
    with_accent (composed x y z) x (normalize_nfc (y ∷ z ∷ s)) (normalize_nfc s)
normalize_nfc s = s

-- `z` begins the text.
unfoldable pub begins : Bytes → Bytes → Bool
begins [] s = true
begins (c ∷ z) [] = false
begins (c ∷ z) (d ∷ s) = c == d && begins z s

-- `strstr`, as a distance.
unfoldable pub strstr : Bytes → Bytes → Option ℕ
strstr [] z = if begins z [] then some 0 else none
strstr (c ∷ s) z =
    let later = strstr s z in if begins z (c ∷ s) then some 0 else later >>=? λ q. some (suc q)

-- A special text in the text: where, how long, and its code.
pub record Special : Type 0 where
  pub place : ℕ
  pub size : ℕ
  pub id : ℕ

-- The better of the best so far and a text `z` at `q`: the earlier, and of two there the longer.
unfoldable pub nearer : Option Special → Special → Special
nearer none x = x
nearer (some best) x =
    if ltb x.place best.place || x.place == best.place && ltb best.size x.size then x else best

unfoldable pub take_nearer : Option Special → ℕ → ℕ → Option ℕ → Option Special
take_nearer best size id none = best
take_nearer best size id (some q) = some (nearer best (record { place = q; size = size; id = id }))

-- The search over the special texts.
unfoldable pub best_special : List ℕ → List Bytes → Bytes → Option Special → Option Special
best_special (id ∷ ids) (z ∷ texts) s best =
    best_special ids texts s (take_nearer best (length z) id (strstr s z))
best_special _ _ s best = best

-- The text up to a special one; the call is left out where there is none.
unfoldable pub text_before : Tokenizer → ℕ → Bytes → Option (List ℕ)
text_before t q s = if q == 0 then some [] else encode_text t (take q s)

-- A round, once the search is over.
unfoldable pub special_next :
    Tokenizer → (Bytes → Option (List ℕ)) → Bytes → Option Special → Option (List ℕ)
special_next t later s none = encode_text t s
special_next t later s (some x) = text_before t x.place s >>=? λ ids.
    (later (drop (x.place + x.size) s) >>=? λ more. some (ids ++ (x.id ∷ more)))

-- The loop of `encode_special`, in at most `n` rounds: each takes one byte at least, unless a special
-- text is empty, on which the C loop does not end.
unfoldable pub special_within : Tokenizer → ℕ → Bytes → Option (List ℕ)
special_within t zero s = if is_empty s then some [] else none
special_within t (suc n) [] = some []
special_within t (suc n) (c ∷ s) =
    special_next t (special_within t n) (c ∷ s)
      (best_special t.special_id t.special_text (c ∷ s) none)

unfoldable pub encode_special : Tokenizer → Bytes → Option (List ℕ)
encode_special t s = special_within t (length s) s

-- `q3_tokenizer_encode`.
unfoldable pub tokenizer_encode : Tokenizer → Bytes → Option (List ℕ)
tokenizer_encode t s = encode_special t (normalize_nfc s)
