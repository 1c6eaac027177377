-- ===== src/Tokenizer/Vocab/Insert.antt =====
-- Putting an entry in the vocabulary of src/q3_tokenizer.c and searching it (`addv`, `lookup`).
use sera_c.Tokenizer.Vocab.{VocabEntry, set_slot}
use sera_c.Common.{ℕ, List, Option, none, some, Bytes, ◌≡◌, get_or, length, ◌<◌, ◌⊎◌}

-- The slot is empty or holds the text.
abbrev IsFor : Bytes → Option VocabEntry → Type 0
IsFor s o = (o ≡ none) ⊎ ((e : VocabEntry) × (o ≡ some e) × (e.s ≡ s))

module _ (table : List (Option VocabEntry)) (s : Bytes) (id j : ℕ)
    (fits : IsFor s (get_or table j none)) (low : j < length table) where
  abbrev new : VocabEntry
  new = record { s = s; id = id }

  abbrev after : List (Option VocabEntry)
  after = set_slot table j new
