-- ===== src/Tokenizer/Merges.antt =====
-- The merges of src/q3_tokenizer.c: the rank of a pair (`mrank`) and the loop of `encode_piece` that
-- joins the pair of the lowest rank until no pair has one.
pub mod Done
use sera_c.Common.{
  ℕ, List, Option, Bytes, suc, some, ◌++◌, none, length, codes, zero, if◌then◌else◌, ◌∷◌, ◌+◌,
  bytes_eq, ltb, [],
}

-- `q3_merge_entry`: the two symbols with a space between, and their rank.
pub record Merge : Type 0 where
  pub s : Bytes
  pub rank : ℕ

-- The first entry of a pair; as an `int`, a rank of 2 ^ 31 or more counts as none.
unfoldable pub rank_in : List Merge → Bytes → Option ℕ
rank_in [] x = none
rank_in (m ∷ rest) x =
    let later = rank_in rest x in
    if bytes_eq m.s x then (if ltb m.rank 0x8000_0000 then some m.rank else none) else later

unfoldable pub mrank : List Merge → Bytes → Bytes → Option ℕ
mrank merges a b = rank_in merges (a ++ (codes " " ++ b))

-- `INT_MAX`.
abbrev pub int_max : ℕ
int_max = 0x7fff_ffff

-- The better of a pair at `i` and the best so far, `none` where there is none, with its rank.
unfoldable pub better : Option ℕ → ℕ → ℕ × Option ℕ → ℕ × Option ℕ
better none i found = found
better (some r) i found = if ltb r found.0 then (r, some i) else found

-- The search over the pairs from `i` on.
unfoldable pub best_from : List Merge → List Bytes → ℕ → ℕ × Option ℕ → Option ℕ
best_from merges (a ∷ b ∷ rest) i found =
    best_from merges (b ∷ rest) (i + 1) (better (mrank merges a b) i found)
best_from merges _ i found = found.1

unfoldable pub best_pair : List Merge → List Bytes → Option ℕ
best_pair merges a = best_from merges a 0 (int_max, none)

-- The symbol at `i` joined with the one behind it.
unfoldable pub join_at : ℕ → List Bytes → List Bytes
join_at zero (a ∷ b ∷ rest) = (a ++ b) ∷ rest
join_at (suc i) (a ∷ rest) = a ∷ join_at i rest
join_at _ xs = xs

-- The rest of a round, once the search is over.
unfoldable pub merge_next : (List Bytes → List Bytes) → List Bytes → Option ℕ → List Bytes
merge_next later a none = a
merge_next later a (some i) = later (join_at i a)

-- The loop, with at most `n` rounds.
unfoldable pub merge_within : List Merge → ℕ → List Bytes → List Bytes
merge_within merges zero a = a
merge_within merges (suc n) a = merge_next (merge_within merges n) a (best_pair merges a)

-- A round leaves one symbol less.
unfoldable pub merge_all : List Merge → List Bytes → List Bytes
merge_all merges a = merge_within merges (length a) a
