-- ===== src/Tokenizer/Pieces/Bounds.antt =====
-- The pieces that `encode_text` of src/q3_tokenizer.c takes off a text: whole characters of it.
use sera_c.Tokenizer.Utf8.{utf8_cp, utf8_cp-bounds}
use sera_c.Tokenizer.Pieces.{
  run_within, piece_length, symbol_rest, piece_behind, contraction, space_piece, byte_run, run,
  space_run, escaped, spaces, grouped, symbol_piece, behind, in_word, cp_newline, is_punctuation,
  blank, is_empty,
}
use sera_c.Common.{
  ℕ, Bytes, Bool, ◌≤◌, length, arith, drop, ◌==◌, length-drop, ◌∷◌, suc, Bool-cases, [], inl, inr,
  zero, ◌&&◌, not, ◌+◌, ◌<◌, ◌≡◌, if◌then◌else◌, refl, true, subst, ap, false, ◌∙◌, sym, drop-drop,
}

-- The first `n` bytes of a text are characters that `utf8_cp` reads one after another.
pub data Whole : Bytes → ℕ → Type 0 where
  no_character : {s : Bytes} → Whole s 0
  character :
      {c n k : ℕ} {s : Bytes}
      → Whole (drop (utf8_cp (c ∷ s)).1 (c ∷ s)) k
      → n ≡ (utf8_cp (c ∷ s)).1 + k
      → Whole (c ∷ s) n

-- Reading a character takes no more bytes than there are.
read_max : (s : Bytes) → (utf8_cp s).1 ≤ length s
unfolding utf8_cp
read_max [] = omega arith
read_max (c ∷ s) = (utf8_cp-bounds (c ∷ s) (omega arith)).1

Whole-max : (s : Bytes) (n : ℕ) → Whole s n → n ≤ length s
Whole-max s n no_character = omega arith
Whole-max s n (character {c} {k} {s = rest} h e) =
    let z = (utf8_cp (c ∷ rest)).1 in
    omega
      (arith, e, Whole-max (drop z (c ∷ rest)) k h, length-drop z (c ∷ rest), read_max (c ∷ rest))

Whole-append : (s : Bytes) (n m : ℕ) → Whole s n → Whole (drop n s) m → Whole s (n + m)
Whole-append s n m no_character g = subst (Whole s) (omega arith) g
Whole-append s n m (character {c} {k} {s = rest} h e) g =
    let z = (utf8_cp (c ∷ rest)).1 in
    let behind_both : drop n (c ∷ rest) ≡ drop k (drop z (c ∷ rest)) =
      ap (λ (i : ℕ). drop i (c ∷ rest)) e ∙ sym (drop-drop z k (c ∷ rest)) in
    character
      (Whole-append (drop z (c ∷ rest)) k m h (subst (λ (u : Bytes). Whole u m) behind_both g))
      (omega (arith, e))

read-Whole : (s : Bytes) → Whole s (utf8_cp s).1
unfolding utf8_cp
read-Whole [] = no_character
read-Whole (c ∷ s) = character no_character (omega arith)

Whole-if : (s : Bytes) (b : Bool) (n m : ℕ) → Whole s n → Whole s m → Whole s (if b then n else m)
Whole-if s true n m h g = h
Whole-if s false n m h g = g

behind-Whole :
    (s : Bytes) (k : ℕ) (f : Bytes → ℕ)
    → Whole s k
    → ((t : Bytes) → Whole t (f t))
    → Whole s (behind s k f)
behind-Whole s k f h g = Whole-append s k (f (drop k s)) h (g (drop k s))

run_within-Whole : (p : ℕ → Bool) (n : ℕ) (s : Bytes) → Whole s (run_within p n s)
unfolding run_within
run_within-Whole p zero s = no_character
run_within-Whole p (suc n) [] = no_character
run_within-Whole p (suc n) (c ∷ s) =
    let z = (utf8_cp (c ∷ s)).1 in
    let later = run_within p n (drop z (c ∷ s)) in
    Whole-if (c ∷ s) (p (utf8_cp (c ∷ s)).0) (z + later) 0
      (character (run_within-Whole p n (drop z (c ∷ s))) refl) no_character

run-Whole : (p : ℕ → Bool) (s : Bytes) → Whole s (run p s)
unfolding run
run-Whole p s = run_within-Whole p (length s) s

-- A byte below 128 is a character.
ascii-read : (c : ℕ) (s : Bytes) → c < 128 → (utf8_cp (c ∷ s)).1 ≡ 1
unfolding utf8_cp
ascii-read c s h = ground (arith, h)

byte_run-Whole :
    (p : ℕ → Bool) → ((c : ℕ) → p c ≡ true → c < 128) → (s : Bytes) → Whole s (byte_run p s)
unfolding byte_run
byte_run-Whole p ascii [] = no_character
byte_run-Whole p ascii (c ∷ s) = elim (Bool-cases (p c)) [
  | inl holds ↦
      let one = ascii-read c s (ascii c holds) in
      rw holds
        (character {k = byte_run p s} (rw one (byte_run-Whole p ascii s)) (omega (arith, one)))
  | inr fails ↦ rw fails no_character
]

newlines-Whole : (s : Bytes) → Whole s (byte_run cp_newline s)
unfolding cp_newline
newlines-Whole s = byte_run-Whole cp_newline (λ c h. ground (arith, h)) s

contraction-Whole : (t : Bytes) → Whole t (contraction t)
unfolding contraction
contraction-Whole t =
    let d = utf8_cp t in
    let e = utf8_cp (drop d.1 t) in
    let two = Whole-append t d.1 e.1 (read-Whole t) (read-Whole (drop d.1 t)) in
    Whole-if t _ d.1 _ (read-Whole t) (Whole-if t _ (d.1 + e.1) 0 two no_character)

spaces-Whole : (t : Bytes) → Whole t (spaces t).0
unfolding spaces
spaces-Whole t =
    let w = byte_run (λ c. c == 32) t in
    let there = byte_run-Whole (λ c. c == 32) (λ c h. ground (arith, h)) t in
    elim (Bool-cases (w == 0)) [
      | inl none_there ↦ rw none_there no_character
      | inr some_there ↦
          elim (Bool-cases (not (is_empty (drop w t)) && in_word (utf8_cp (drop w t)).0)) [
            | inl word ↦ rw (some_there, word) no_character
            | inr other ↦ rw (some_there, other) there
          ]
    ]

space_run-Whole : (c : ℕ) (t : Bytes) → Whole t (space_run c t)
unfolding space_run
space_run-Whole c t = elim (Bool-cases (c == 32)) [
  | inl space ↦ rw space (
      Whole-if t (spaces t).1 (spaces t).0 (behind t (spaces t).0 (run blank)) (spaces-Whole t)
        (behind-Whole t (spaces t).0 (run blank) (spaces-Whole t) (run-Whole blank)))
  | inr other ↦ rw other (behind-Whole t 0 (run blank) no_character (run-Whole blank))
]

space_piece-Whole : (c : ℕ) (t : Bytes) → Whole t (space_piece c t)
unfolding space_piece
space_piece-Whole c t =
    let d = utf8_cp t in
    let word = behind-Whole t d.1 (run in_word) (read-Whole t) (run-Whole in_word) in
    let rest =
      behind-Whole t d.1 (λ u. behind u (run is_punctuation u) (byte_run cp_newline)) (read-Whole t)
        λ u.
          behind-Whole u (run is_punctuation u) (byte_run cp_newline) (run-Whole is_punctuation u)
            newlines-Whole in
    Whole-if t _ _ _ word (Whole-if t _ _ _ rest (space_run-Whole c t))

escaped-Whole : (c : ℕ) (t : Bytes) → Whole t (escaped c t)
unfolding escaped
escaped-Whole c t = Whole-if t _ _ _ (read-Whole t) no_character

symbol_rest-Whole : (c : ℕ) (t : Bytes) → Whole t (symbol_rest c t)
unfolding symbol_rest grouped
symbol_rest-Whole c t =
    let d = utf8_cp t in
    let word = behind-Whole t d.1 (run in_word) (read-Whole t) (run-Whole in_word) in
    elim (Bool-cases (c == 61 && not (is_empty t) && in_word d.0)) [
      | inl group ↦ rw group word
      | inr other ↦ rw other (run-Whole is_punctuation t)
    ]

symbol_piece-Whole : (c : ℕ) (t : Bytes) → Whole t (symbol_piece c t)
unfolding symbol_piece
symbol_piece-Whole c t =
    behind-Whole t (escaped c t) (λ u. behind u (symbol_rest c u) (byte_run cp_newline))
      (escaped-Whole c t)
      λ u.
        behind-Whole u (symbol_rest c u) (byte_run cp_newline) (symbol_rest-Whole c u)
          newlines-Whole

piece_behind-Whole : (c : ℕ) (t : Bytes) → Whole t (piece_behind c t)
unfolding piece_behind
piece_behind-Whole c t = Whole-if t _ _ _ (contraction-Whole t) (
    Whole-if t _ _ _ (run-Whole in_word t) (
      Whole-if t _ _ _ no_character (
        Whole-if t _ _ _ (run-Whole cp_newline t) (
          Whole-if t _ _ _ (space_piece-Whole c t)
            (Whole-if t _ _ _ (run-Whole blank t) (symbol_piece-Whole c t))))))

-- From any text that is not empty, in valid UTF-8 or not, one round of `encode_text` takes whole
-- characters, as `utf8_cp` reads them one after another; at least one byte; and no more bytes than
-- there are.
pub piece_length-Whole :
    (s : Bytes)
    → 1 ≤ length s
    → Whole s (piece_length s) × (1 ≤ piece_length s) × (piece_length s ≤ length s)
unfolding piece_length
piece_length-Whole s h =
    let z = (utf8_cp s).1 in
    let piece =
      behind-Whole s z (piece_behind (utf8_cp s).0) (read-Whole s)
        (piece_behind-Whole (utf8_cp s).0) in
    (
      piece,
      omega (arith, (utf8_cp-bounds s h).0),
      Whole-max s (behind s z (piece_behind (utf8_cp s).0)) piece,
    )
