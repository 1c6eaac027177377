-- ===== src/Http/Head.antt =====
-- Where the head of a request ends, by `header_end` of src/server/q3_server.c.
use sera_c.Http.{find_mark, header_end, crlf_mark, lf_mark}
use sera_c.Json.Values.{starts_with}
use sera_c.Common.{
  ℕ, Bytes, Option, none, some, ◌+◌, length, [], ◌∷◌, ◌++◌, ◌≡◌, ◌<◌, true, false, arith, refl,
  Bool-cases, inl, inr, suc, zero, ◌⊎◌,
}

-- `mark` stands in the text behind `k` bytes.
pub Stands : Bytes → ℕ → Bytes → Type 0
Stands mark k text =
    (before : Bytes) × (rest : Bytes) × (text ≡ before ++ (mark ++ rest)) × (length before ≡ k)

abbrev pub Absent : Bytes → Bytes → Type 0
Absent mark text = (k : ℕ) → ¬ Stands mark k text

-- The first place of `mark` in the text ends at `e`.
abbrev pub FirstEnds : Bytes → Bytes → ℕ → Type 0
FirstEnds mark text e =
    (k : ℕ) × Stands mark k text × (e ≡ k + length mark) × ((j : ℕ) → j < k → ¬ Stands mark j text)

starts_with_sound :
    (mark text : Bytes) → starts_with mark text ≡ true → (rest : Bytes) × (text ≡ mark ++ rest)
starts_with_sound [] text h = (text, refl)
starts_with_sound (x ∷ xs) [] h = ground (arith, h)
starts_with_sound (x ∷ xs) (b ∷ bs) h =
    let both : (b ≡ x) × (starts_with xs bs ≡ true) = ground (arith, h) in
    let (rest, same) = starts_with_sound xs bs both.1 in (rest, cc (both.0, same))

starts_with-append : (mark rest : Bytes) → starts_with mark (mark ++ rest) ≡ true
starts_with-append [] rest = refl
starts_with-append (x ∷ xs) rest = ground (arith, starts_with-append xs rest)

Stands-first : (mark text : Bytes) → Stands mark 0 text → starts_with mark text ≡ true
unfolding Stands
Stands-first mark text ([], rest, same, h) = rw same (starts_with-append mark rest)
Stands-first mark text (b ∷ bs, rest, same, h) = ground (arith, h)

Stands-tail : (mark text : Bytes) (b k : ℕ) → Stands mark (suc k) (b ∷ text) → Stands mark k text
unfolding Stands
Stands-tail mark text b k ([], rest, same, h) = ground (arith, h)
Stands-tail mark text b k (c ∷ cs, rest, same, h) =
    (cs, rest, ground (arith, same), omega (arith, h))

Stands-cons : (mark text : Bytes) (b k : ℕ) → Stands mark k text → Stands mark (suc k) (b ∷ text)
unfolding Stands
Stands-cons mark text b k (before, rest, same, h) = (b ∷ before, rest, cc same, omega (arith, h))

nothing-Stands : (x : ℕ) (xs : Bytes) (k : ℕ) → ¬ Stands (x ∷ xs) k []
unfolding Stands
nothing-Stands x xs k ([], rest, same, h) = ground (arith, same)
nothing-Stands x xs k (b ∷ bs, rest, same, h) = ground (arith, same)

-- What a search from position `base` on gives.
Searched : Bytes → ℕ → Bytes → Option ℕ → Type 0
Searched mark base text none = Absent mark text
Searched mark base text (some e) = (f : ℕ) × (e ≡ base + f) × FirstEnds mark text f

Absent-cons :
    (mark text : Bytes) (b : ℕ)
    → starts_with mark (b ∷ text) ≡ false
    → Absent mark text
    → Absent mark (b ∷ text)
Absent-cons mark text b test away zero s = ground (arith, test, Stands-first mark (b ∷ text) s)
Absent-cons mark text b test away (suc k) s = away k (Stands-tail mark text b k s)

first_cons :
    (mark text : Bytes) (b f : ℕ)
    → starts_with mark (b ∷ text) ≡ false
    → FirstEnds mark text f
    → FirstEnds mark (b ∷ text) (suc f)
first_cons mark text b f test (k, there, e, least) =
    (suc k, Stands-cons mark text b k there, omega (arith, e), least_cons)
  where
    least_cons : (j : ℕ) → j < suc k → ¬ Stands mark j (b ∷ text)
    least_cons zero h s = ground (arith, test, Stands-first mark (b ∷ text) s)
    least_cons (suc j) h s = least j (omega (arith, h)) (Stands-tail mark text b j s)

Searched-cons :
    (mark text : Bytes) (b base : ℕ) (r : Option ℕ)
    → starts_with mark (b ∷ text) ≡ false
    → Searched mark (base + 1) text r
    → Searched mark base (b ∷ text) r
unfolding Searched
Searched-cons mark text b base none test s = Absent-cons mark text b test s
Searched-cons mark text b base (some e) test (f, same, first) =
    (suc f, omega (arith, same), first_cons mark text b f test first)

find_mark-Searched :
    (x : ℕ) (xs text : Bytes) (base : ℕ)
    → Searched (x ∷ xs) base text (find_mark (x ∷ xs) base text)
unfolding find_mark Searched Stands
find_mark-Searched x xs [] base = nothing-Stands x xs
find_mark-Searched x xs (b ∷ bs) base = elim (Bool-cases (starts_with (x ∷ xs) (b ∷ bs))) [
  | inl found ↦
      let (rest, same) = starts_with_sound (x ∷ xs) (b ∷ bs) found in
      rw found
        (length (x ∷ xs), refl, (0, ([], rest, same, refl), omega arith, λ j h. omega (arith, h)))
  | inr other ↦ rw other (
      Searched-cons (x ∷ xs) bs b base (find_mark (x ∷ xs) (base + 1) bs) other
        (find_mark-Searched x xs bs (base + 1)))
]

-- What `header_end` promises of its answer.
pub IsHeadEnd : Bytes → Option ℕ → Type 0
IsHeadEnd text none = Absent crlf_mark text × Absent lf_mark text
IsHeadEnd text (some e) =
    FirstEnds crlf_mark text e ⊎ (Absent crlf_mark text × FirstEnds lf_mark text e)

choose :
    (text : Bytes) (a b : Option ℕ)
    → Searched crlf_mark 0 text a
    → Searched lf_mark 0 text b
    → IsHeadEnd text (elim a [ some e ↦ some e | none ↦ b ])
unfolding IsHeadEnd Searched
choose text (some e) b (f, same, first) t =
    let there : e ≡ f = omega (arith, same) in inl (rw there first)
choose text none none s t = (s, t)
choose text none (some e) s (f, same, first) =
    let there : e ≡ f = omega (arith, same) in inr (s, rw there first)

-- For any bytes: an answer of `header_end` is the end of the first "\r\n\r\n" in them, or, if there is
-- none, of the first "\n\n"; no answer (-1) means that neither stands anywhere in them.
pub header_end-IsHeadEnd : (text : Bytes) → IsHeadEnd text (header_end text)
unfolding header_end
header_end-IsHeadEnd text =
    choose text (find_mark crlf_mark 0 text) (find_mark lf_mark 0 text)
      (find_mark-Searched 13 (10 ∷ 13 ∷ 10 ∷ []) text 0) (find_mark-Searched 10 (10 ∷ []) text 0)
