-- ===== src/Tokenizer/Special/Accents.antt =====
-- The accents that `normalize_nfc` of src/q3_tokenizer.c composes.
use sera_c.Tokenizer.Utf8.{or_else, put_utf8}
use sera_c.Tokenizer.Special.{normalize_nfc, acute, with_accent, composed, acute_table, acute_in}
use sera_c.Common.{
  ℕ, Bytes, Bool, ◌≡◌, some, ◌∷◌, Option-cases, All, ◌==◌, ◌<◌, true, false, none, arith, [], ◌&&◌,
  IsByte, ◌⊎◌, inl, inr, refl, ◌∙◌, ap, Bool-cases, length, ◌≤◌, ◌++◌, List, some-injective, sym,
}

-- A combining acute accent comes first.
is_accent : Bytes → Bool
is_accent (a ∷ b ∷ s) = a == 0xcc && b == 0x81
is_accent s = false

acute-IsByte : (x a : ℕ) → acute x ≡ some a → a < 256
unfolding acute acute_in
acute-IsByte x a h = ground (arith, h)

-- Neither of the two bytes of a composed letter composes again.
acute-twice : (x a : ℕ) → acute x ≡ some a → acute a ≡ none
unfolding acute acute_in
acute-twice x a h = ground (arith, h)

pub normalize_nfc-IsByte : (s : Bytes) → All IsByte s → All IsByte (normalize_nfc s)
unfolding normalize_nfc with_accent composed
normalize_nfc-IsByte [] h = tt
normalize_nfc-IsByte (x ∷ []) h = h
normalize_nfc-IsByte (x ∷ y ∷ []) h = h
normalize_nfc-IsByte (x ∷ y ∷ z ∷ s) (p, (q, (r, h))) = elim (Option-cases (composed x y z)) [
  | inl plain ↦ rw plain (p, normalize_nfc-IsByte (y ∷ z ∷ s) (q, (r, h)))
  | inr (a, accent) ↦
      rw accent (omega arith, (acute-IsByte x a (ground (arith, accent)), normalize_nfc-IsByte s h))
]

-- A byte that is not composed stays.
normalize_nfc-plain :
    (x : ℕ) (u : Bytes)
    → (is_accent u ≡ false) ⊎ (acute x ≡ none)
    → normalize_nfc (x ∷ u) ≡ x ∷ normalize_nfc u
unfolding normalize_nfc with_accent composed is_accent
normalize_nfc-plain x [] h = refl
normalize_nfc-plain x (y ∷ []) h = refl
normalize_nfc-plain x (y ∷ z ∷ s) h =
    let plain : composed x y z ≡ none = ground (arith, h) in rw plain refl

normalize_nfc-round :
    (x y z : ℕ) (s : Bytes)
    → normalize_nfc (x ∷ y ∷ z ∷ s)
      ≡ with_accent (composed x y z) x (normalize_nfc (y ∷ z ∷ s)) (normalize_nfc s)
unfolding normalize_nfc
normalize_nfc-round x y z s = refl

-- The first byte stays or begins a composed letter.
normalize_nfc-first :
    (y : ℕ) (u : Bytes)
    → (b : ℕ) × (v : Bytes) × (normalize_nfc (y ∷ u) ≡ b ∷ v) × ((b ≡ y) ⊎ (b ≡ 0xc3))
unfolding normalize_nfc with_accent
normalize_nfc-first y [] = (y, [], refl, inl refl)
normalize_nfc-first y (z ∷ []) = (y, z ∷ [], refl, inl refl)
normalize_nfc-first y (z ∷ w ∷ s) = elim (Option-cases (composed y z w)) [
  | inl plain ↦
      (y, normalize_nfc (z ∷ w ∷ s), rw (normalize_nfc-round y z w s, plain) refl, inl refl)
  | inr (a, accent) ↦
      (0xc3, a ∷ normalize_nfc s, rw (normalize_nfc-round y z w s, accent) refl, inr refl)
]

normalize_nfc-short : (s : Bytes) → length s ≤ 2 → normalize_nfc s ≡ s
unfolding normalize_nfc
normalize_nfc-short [] h = refl
normalize_nfc-short (x ∷ []) h = refl
normalize_nfc-short (x ∷ y ∷ []) h = refl
normalize_nfc-short (x ∷ y ∷ z ∷ s) h = let no : ⊥ = omega (arith, h) in elim no [ ]

-- No accent comes first where none did.
normalize_nfc-accent : (u : Bytes) → is_accent (normalize_nfc u) ≡ true → is_accent u ≡ true
unfolding with_accent is_accent
normalize_nfc-accent [] h = rw (normalize_nfc-short [] (omega arith)) at h
normalize_nfc-accent (x ∷ []) h = rw (normalize_nfc-short (x ∷ []) (omega arith)) at h
normalize_nfc-accent (x ∷ y ∷ []) h = rw (normalize_nfc-short (x ∷ y ∷ []) (omega arith)) at h
normalize_nfc-accent (x ∷ y ∷ z ∷ s) h =
    let h0 = rw (normalize_nfc-round x y z s) at h in
    elim (Option-cases (composed x y z)) [
      | inl plain ↦
          let (b, v, run, which) = normalize_nfc-first y (z ∷ s) in
          let h1 = rw (plain, run) at h0 in ground (arith, h1, which)
      | inr (a, accent) ↦ let h1 = rw accent at h0 in ground (arith, h1)
    ]

composed-acute : (x y z a : ℕ) → composed x y z ≡ some a → acute x ≡ some a
unfolding composed
composed-acute x y z a h = ground (arith, h)

composed-mark : (x y z a : ℕ) → composed x y z ≡ some a → (y ≡ 0xcc) × (z ≡ 0x81)
unfolding composed
composed-mark x y z a h = ground (arith, h)

composed-plain :
    (x y z : ℕ) (s : Bytes)
    → composed x y z ≡ none
    → (is_accent (normalize_nfc (y ∷ z ∷ s)) ≡ false) ⊎ (acute x ≡ none)
unfolding composed is_accent
composed-plain x y z s h = elim (Bool-cases (is_accent (normalize_nfc (y ∷ z ∷ s)))) [
  | inl first ↦ let there = normalize_nfc-accent (y ∷ z ∷ s) first in inr (ground (arith, there, h))
  | inr other ↦ inl other
]

normalize_nfc-normalize_nfc : (s : Bytes) → normalize_nfc (normalize_nfc s) ≡ normalize_nfc s
unfolding with_accent acute acute_in
normalize_nfc-normalize_nfc [] = ap normalize_nfc (normalize_nfc-short [] (omega arith))
normalize_nfc-normalize_nfc (x ∷ []) = ap normalize_nfc (normalize_nfc-short (x ∷ []) (omega arith))
normalize_nfc-normalize_nfc (x ∷ y ∷ []) =
    ap normalize_nfc (normalize_nfc-short (x ∷ y ∷ []) (omega arith))
normalize_nfc-normalize_nfc (x ∷ y ∷ z ∷ s) =
    rw (normalize_nfc-round x y z s) (elim (Option-cases (composed x y z)) [
      | inl plain ↦ rw plain (
          normalize_nfc-plain x (normalize_nfc (y ∷ z ∷ s)) (composed-plain x y z s plain)
          ∙ ap (λ u. x ∷ u) (normalize_nfc-normalize_nfc (y ∷ z ∷ s)))
      | inr (a, accent) ↦ rw accent (
          normalize_nfc-plain 0xc3 (a ∷ normalize_nfc s) (inr refl)
          ∙ ap (λ u. 0xc3 ∷ u)
              (normalize_nfc-plain a (normalize_nfc s)
                  (inr (acute-twice x a (composed-acute x y z a accent)))
                ∙ ap (λ u. a ∷ u) (normalize_nfc-normalize_nfc s)))
    ])

-- The letters with an acute accent, as Unicode composes them.
pub data Acute : ℕ → ℕ → Type 0 where
  small_a : Acute 0x61 0xe1
  small_e : Acute 0x65 0xe9
  small_i : Acute 0x69 0xed
  small_o : Acute 0x6f 0xf3
  small_u : Acute 0x75 0xfa
  capital_a : Acute 0x41 0xc1
  capital_e : Acute 0x45 0xc9
  capital_i : Acute 0x49 0xcd
  capital_o : Acute 0x4f 0xd3
  capital_u : Acute 0x55 0xda

-- A text begins with the letter `x` and the combining acute accent, U+0301, and has a letter of code
-- point `cp` for them, with `rest` behind.
pub record Accented (x cp : ℕ) (s rest : Bytes) : Type 0 where
  pub letter : Acute x cp
  pub begins : s ≡ x ∷ (or_else (put_utf8 0x301) [] ++ rest)

-- The second text is the first one with every letter and accent composed, from left to right, and
-- every other byte kept.
pub data Composed : Bytes → Bytes → Type 0 where
  at_end : Composed [] []
  compose :
      {x cp : ℕ} {s rest bs t : Bytes}
      → Accented x cp s rest
      → put_utf8 cp ≡ some bs
      → Composed rest t
      → Composed s (bs ++ t)
  keep :
      {x : ℕ} {s t : Bytes}
      → ((cp : ℕ) (rest : Bytes) → ¬ Accented x cp (x ∷ s) rest)
      → Composed s t
      → Composed (x ∷ s) (x ∷ t)

-- The row of a letter has the second byte of its character; the first is 0xc3.
IsRow : ℕ × ℕ → Type 0
IsRow (x, a) = (cp : ℕ) × Acute x cp × (put_utf8 cp ≡ some (0xc3 ∷ a ∷ []))

table-IsRow : All IsRow acute_table
unfolding IsRow put_utf8
table-IsRow = (
  (0xe1, small_a, refl),
  (
    (0xe9, small_e, refl),
    (
      (0xed, small_i, refl),
      (
        (0xf3, small_o, refl),
        (
          (0xfa, small_u, refl),
          (
            (0xc1, capital_a, refl),
            (
              (0xc9, capital_e, refl),
              ((0xcd, capital_i, refl), ((0xd3, capital_o, refl), ((0xda, capital_u, refl), tt))),
            ),
          ),
        ),
      ),
    ),
  ),
)

acute_in-IsRow :
    (rows : List (ℕ × ℕ)) (x a : ℕ) → All IsRow rows → acute_in rows x ≡ some a → IsRow (x, a)
unfolding acute_in
acute_in-IsRow [] x a rows h = cc
acute_in-IsRow ((y, b) ∷ rest) x a (row, rows) h = elim (Bool-cases (x == y)) [
  | inl here ↦
      let letter : x ≡ y = ground (arith, here) in
      let second : b ≡ a = some-injective b a (rw here at h) in rw (letter, sym second) row
  | inr other ↦ acute_in-IsRow rest x a rows (rw other at h)
]

Acute-acute : (x cp : ℕ) → Acute x cp → (a : ℕ) × (acute x ≡ some a)
unfolding acute acute_in
Acute-acute x cp small_a = (0xa1, refl)
Acute-acute x cp small_e = (0xa9, refl)
Acute-acute x cp small_i = (0xad, refl)
Acute-acute x cp small_o = (0xb3, refl)
Acute-acute x cp small_u = (0xba, refl)
Acute-acute x cp capital_a = (0x81, refl)
Acute-acute x cp capital_e = (0x89, refl)
Acute-acute x cp capital_i = (0x8d, refl)
Acute-acute x cp capital_o = (0x93, refl)
Acute-acute x cp capital_u = (0x9a, refl)

-- Fewer than three bytes hold no letter with an accent.
short-plain : (x cp : ℕ) (s rest : Bytes) → length s ≤ 1 → ¬ Accented x cp (x ∷ s) rest
unfolding put_utf8
short-plain x cp [] rest h a = let e = a.begins in ground (arith, e)
short-plain x cp (y ∷ []) rest h a = let e = a.begins in ground (arith, e)
short-plain x cp (y ∷ z ∷ s) rest h a = omega (arith, h)

plain-byte :
    (x y z cp : ℕ) (s rest : Bytes) → composed x y z ≡ none → ¬ Accented x cp (x ∷ y ∷ z ∷ s) rest
unfolding composed put_utf8
plain-byte x y z cp s rest plain a =
    let (b, there) = Acute-acute x cp a.letter in
    let e = a.begins in
    let mark : (y ≡ 0xcc) × (z ≡ 0x81) = ground (arith, e) in
    ground (arith, plain, there, mark.0, mark.1)

composed-Accented :
    (x y z a : ℕ) (s : Bytes)
    → composed x y z ≡ some a
    → (cp : ℕ) × Accented x cp (x ∷ y ∷ z ∷ s) s × (put_utf8 cp ≡ some (0xc3 ∷ a ∷ []))
unfolding put_utf8 acute IsRow
composed-Accented x y z a s h =
    let (cp, letter, bytes) : IsRow (x, a) =
      acute_in-IsRow acute_table x a table-IsRow (composed-acute x y z a h) in
    let mark = composed-mark x y z a h in
    (cp, record { letter = letter; begins = rw (mark.0, mark.1) refl }, bytes)

normalized : (s : Bytes) → Composed s (normalize_nfc s)
unfolding with_accent
normalized [] = rw (normalize_nfc-short [] (omega arith)) at_end
normalized (x ∷ []) =
    rw (normalize_nfc-short (x ∷ []) (omega arith))
      (keep (λ cp rest. short-plain x cp [] rest (omega arith)) at_end)
normalized (x ∷ y ∷ []) = rw (normalize_nfc-short (x ∷ y ∷ []) (omega arith)) (
    keep (λ cp rest. short-plain x cp (y ∷ []) rest (omega arith))
      (keep (λ cp rest. short-plain y cp [] rest (omega arith)) at_end))
normalized (x ∷ y ∷ z ∷ s) =
    rw (normalize_nfc-round x y z s) (elim (Option-cases (composed x y z)) [
      | inl plain ↦
          rw plain (keep (λ cp rest. plain-byte x y z cp s rest plain) (normalized (y ∷ z ∷ s)))
      | inr (a, accent) ↦
          let (cp, there, bytes) = composed-Accented x y z a s accent in
          rw accent (compose there bytes (normalized s))
    ])

-- On any bytes, `normalize_nfc` composes from left to right each of the ten vowels that the combining
-- acute accent follows to the character that Unicode has for them, in UTF-8, and keeps every other
-- byte; and in a text that it gave it changes nothing.
pub normalize_nfc-Composed :
    (s : Bytes) → Composed s (normalize_nfc s) × (normalize_nfc (normalize_nfc s) ≡ normalize_nfc s)
normalize_nfc-Composed s = (normalized s, normalize_nfc-normalize_nfc s)
