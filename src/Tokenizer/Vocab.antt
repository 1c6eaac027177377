-- ===== src/Tokenizer/Vocab.antt =====
-- The vocabulary of src/q3_tokenizer.c: an open hash table from token texts to codes, and its search
-- (`hs`, `lookup`). A capacity is a power of two, since `addv` doubles it from 524288 on, so that the
-- mask `& (cap - 1)` is the remainder.
pub mod Insert
use sera_c.Common.{
  ℕ, ◌≡◌, List, Bytes, ◌∷◌, Option, if◌then◌else◌, mul64, some, none, suc, get_or, bytes_eq, [],
  length, ◌+◌, Option-cases, ◌==◌, inl, Bool-cases, zero, inr, ltb, arith, bytes_eq_iff, ◌^◌, ◌<◌,
  ◌≢◌, ◌%◌, ◌≤◌, ◌⊎◌, false, ◌>>=?◌,
}
use Prim.Native.Nat.{bit_xor}
use native.Mathlib.Nat.{mod-lt, mod-eq_of_lt, mod_self}

pub record VocabEntry : Type 0 where
  pub s : Bytes
  pub id : ℕ

-- `hs`: the hash of a text, in 64 bits.
unfoldable pub hash_from : ℕ → Bytes → ℕ
hash_from h [] = h
hash_from h (c ∷ s) = hash_from (mul64 (bit_xor h c) 1099511628211) s

unfoldable pub hs : Bytes → ℕ
hs s = hash_from 1469598103934665603 s

-- What a search gives: a code, that the text is not there, or that the search never ends, since no
-- slot that it comes to is empty or holds the text.
pub data Answer : Type 0 where
  token : ℕ → Answer
  no_token no_end : Answer

-- What a probe at a slot gives; `later` is what the probes behind it give.
unfoldable pub at_slot : Bytes → Answer → Option VocabEntry → Answer
at_slot s later none = no_token
at_slot s later (some e) = if bytes_eq e.s s then token e.id else later

-- The probes from slot `i` on, at most `n` of them.
unfoldable pub probe : List (Option VocabEntry) → Bytes → ℕ → ℕ → Answer
probe table s zero i = no_end
probe table s (suc n) i =
    let later = probe table s n ((i + 1) % length table) in at_slot s later (get_or table i none)

-- A code as an `int`: one of 2 ^ 31 or more is negative, and counts as missing.
unfoldable pub as_int : Answer → Answer
as_int (token id) = if ltb id 0x8000_0000 then token id else no_token
as_int a = a

-- `lookup`. The C loop has no bound, but after as many probes as there are slots it is where it began.
unfoldable pub lookup : List (Option VocabEntry) → Bytes → Answer
lookup table s =
    if length table == 0
    then no_token
    else as_int (probe table s (length table) (hs s % length table))

-- The loop of `addv`: the first slot from `i` on, in at most `n` steps, that is empty or holds the text.
unfoldable pub slot_at : Bytes → Option ℕ → ℕ → Option VocabEntry → Option ℕ
slot_at s later i none = some i
slot_at s later i (some e) = if bytes_eq e.s s then some i else later

unfoldable pub slot_for : List (Option VocabEntry) → Bytes → ℕ → ℕ → Option ℕ
slot_for table s zero i = none
slot_for table s (suc n) i =
    let later = slot_for table s n ((i + 1) % length table) in
    slot_at s later i (get_or table i none)

unfoldable pub set_slot : List (Option VocabEntry) → ℕ → VocabEntry → List (Option VocabEntry)
set_slot [] i e = []
set_slot (o ∷ table) zero e = some e ∷ table
set_slot (o ∷ table) (suc i) e = o ∷ set_slot table i e

-- What `addv` does behind the growth of the table: the text in its slot with the code; `none` if the
-- loop does not end.
unfoldable pub put_entry : List (Option VocabEntry) → Bytes → ℕ → Option (List (Option VocabEntry))
put_entry table s id = slot_for table s (length table) (hs s % length table) >>=? λ i.
    some (set_slot table i (record { s = s; id = id }))

-- A table that `addv` makes: a power of two of slots, of which one is empty.
pub record IsOpen (table : List (Option VocabEntry)) : Type 0 where
  pub cap : (k : ℕ) × (length table ≡ 2 ^ k)
  pub empty : (j : ℕ) × (j < length table) × (get_or table j none ≡ none)

-- Whatever is found is the code of an entry of that text.
pub probe-entry :
    (table : List (Option VocabEntry)) (s : Bytes) (n i id : ℕ)
    → probe table s n i ≡ token id
    → (j : ℕ) × (e : VocabEntry) × (get_or table j none ≡ some e) × (e.s ≡ s) × (e.id ≡ id)
unfolding probe at_slot
probe-entry table s zero i id h = cc
probe-entry table s (suc n) i id h = elim (Option-cases (get_or table i none)) [
  | inl free ↦ cc (rw free at h)
  | inr (e, taken) ↦ elim (Bool-cases (bytes_eq e.s s)) [
    | inl same ↦
        let there : token e.id ≡ token id = rw (taken, same) at h in
        (i, e, taken, (bytes_eq_iff e.s s).0 same, cc)
    | inr other ↦ probe-entry table s n ((i + 1) % length table) id (rw (taken, other) at h)
  ]
]

as_int-token : (a : Answer) (id : ℕ) → as_int a ≡ token id → a ≡ token id
unfolding as_int
as_int-token (token x) id h = ground (arith, h)
as_int-token no_token id h = cc
as_int-token no_end id h = cc

pub lookup-entry :
    (table : List (Option VocabEntry)) (s : Bytes) (id : ℕ)
    → lookup table s ≡ token id
    → (j : ℕ) × (e : VocabEntry) × (get_or table j none ≡ some e) × (e.s ≡ s) × (e.id ≡ id)
unfolding lookup
lookup-entry table s id h = elim (Bool-cases (length table == 0)) [
  | inl none_there ↦ cc (rw none_there at h)
  | inr some_there ↦
      let start = hs s % length table in
      probe-entry table s (length table) start id
        (as_int-token (probe table s (length table) start) id (rw some_there at h))
]

-- A probe ends where the ones behind it do.
at_slot-ends :
    (s : Bytes) (later : Answer) (o : Option VocabEntry)
    → later ≢ no_end
    → at_slot s later o ≢ no_end
unfolding at_slot
at_slot-ends s later none h e = cc (e)
at_slot-ends s later (some x) h e = elim (Bool-cases (bytes_eq x.s s)) [
  | inl same ↦ cc (rw same at e)
  | inr other ↦ h (rw other at e)
]

-- The slot behind slot `i`.
next_slot :
    (i n : ℕ) → i < n → (((i + 1) % n ≡ i + 1) × (i + 1 < n)) ⊎ (((i + 1) % n ≡ 0) × (i + 1 ≡ n))
next_slot i n h = elim (Bool-cases (ltb (i + 1) n)) [
  | inl inside ↦ let less : i + 1 < n = ground (arith, inside) in inl (mod-eq_of_lt less, less)
  | inr last ↦ let same : i + 1 ≡ n = ground (arith, last, h) in inr (rw same (mod_self n), same)
]

-- The probes come to every slot: to slot `j` from slot `i` in `j - i` steps, or over the end.
probe-ends :
    (table : List (Option VocabEntry)) (s : Bytes) (j n i : ℕ)
    → j < length table
    → get_or table j none ≡ none
    → i < length table
    → ((i ≤ j) × (j < i + n)) ⊎ ((j < i) × (j + length table < i + n))
    → probe table s n i ≢ no_end
unfolding probe at_slot
probe-ends table s j zero i low free start near =
    let no : ⊥ = omega (arith, low, start, near) in elim no [ ]
probe-ends table s j (suc n) i low free start near = elim (Bool-cases (i == j)) [
  | inl here ↦ λ e.
      let same : i ≡ j = ground (arith, here) in
      let there : get_or table i none ≡ none = rw same free in cc (rw there at e)
  | inr other ↦
      let apart : i ≢ j = ground (arith, other) in
      at_slot-ends s (probe table s n ((i + 1) % length table)) (get_or table i none)
        (elim (next_slot i (length table) start) [
          | inl (next, inside) ↦
              rw next (probe-ends table s j n (i + 1) low free inside (omega (arith, near, apart)))
          | inr (next, last) ↦ rw next (
              probe-ends table s j n 0 low free (omega (arith, start))
                (omega (arith, near, apart, low, last)))
        ])
]

as_int-ends : (a : Answer) → a ≢ no_end → as_int a ≢ no_end
unfolding as_int
as_int-ends (token x) h e = ground (arith, e)
as_int-ends no_token h e = cc
as_int-ends no_end h e = h e

-- On a table with room every search ends.
pub lookup-ends :
    (table : List (Option VocabEntry)) (s : Bytes) → IsOpen table → lookup table s ≢ no_end
unfolding lookup
lookup-ends table s room =
    let (j, low, free) = room.empty in
    let n = length table in
    let some_there : n == 0 ≡ false = ground (arith, low) in
    let start : hs s % n < n = mod-lt (hs s) (omega (arith, low)) in
    rw some_there (
      as_int-ends (probe table s n (hs s % n))
        (probe-ends table s j n (hs s % n) low free start (omega (arith, start, low))))
