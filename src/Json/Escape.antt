-- ===== src/Json/Escape.antt =====
-- A printer of JSON strings, and `parse_string` of src/io/hd_json.c behind it.
use sera_c.Json.Checking.{HasRoom}
use sera_c.Json.{
  hex_digit, append_char, Buffer, make_room, write, string_step, read_escape, JsonError,
  known_escape, escape_char, unicode_escape, outside_buffer, hex_digits, write_lead, last_byte,
  string_loop, string_next, parse_string,
}
use sera_c.Common.{
  ℕ, if◌then◌else◌, Bytes, Bool, ◌∷◌, ◌==◌, ltb, ◌≡◌, ◌+◌, ◌++◌, [], true, ◌/◌, ◌%◌, ◌<◌, ok,
  Returns, arith, length-append, mul64, Bool-cases, leb, length, inl, inr, ◌>>=◌, false, refl,
  subst, Result, Returns-bind, sym, require_pass, ap, ==_iff, ◌∙◌, suc, append_assoc, zero, ◌≤◌,
  append-nil, Returns-eq-ok,
}

pub hex_char : ℕ → ℕ
hex_char d = if ltb d 10 then 48 + d else 87 + d

-- A quote and a backslash behind a backslash, a control character as `\u00XX`, any other byte as it is.
unfoldable pub escape : ℕ → Bytes
escape c =
    if c == 34
    then 92 ∷ 34 ∷ []
    else if c == 92
    then 92 ∷ 92 ∷ []
    else if ltb c 0x20
    then 92 ∷ 117 ∷ 48 ∷ 48 ∷ hex_char (c / 16) ∷ hex_char (c % 16) ∷ []
    else c ∷ []

unfoldable pub escape_all : Bytes → Bytes
escape_all [] = []
escape_all (c ∷ cs) = escape c ++ escape_all cs

length-escape : (c : ℕ) → 1 ≤ length (escape c)
unfolding escape
length-escape c = ground arith

hex_digit-hex_char : (d : ℕ) → d < 16 → hex_digit (hex_char d) ≡ ok d
unfolding hex_digit hex_char
hex_digit-hex_char d h = ground arith

hex_digit_zero : hex_digit 48 ≡ ok 0
unfolding hex_digit
hex_digit_zero = refl

-- The escape of a control character is read as that character.
control_digits :
    (c : ℕ) (tail : Bytes)
    → c < 32
    → hex_digits 4 0 (48 ∷ 48 ∷ hex_char (c / 16) ∷ hex_char (c % 16) ∷ tail) ≡ ok (c, tail)
unfolding hex_digits
control_digits c tail h = rw hex_digit_zero (
    rw (hex_digit-hex_char (c / 16) (omega arith))
      (rw (hex_digit-hex_char (c % 16) (omega arith)) (ap (λ (x : ℕ). ok (x, tail)) (omega arith))))

write_lead-ascii :
    (memory : ℕ → Bool) (c : ℕ) (b : Buffer)
    → c < 32
    → (write_lead memory c b ≡ ok b) × (last_byte c ≡ c)
unfolding write_lead last_byte
write_lead-ascii memory c b h = ground arith

unicode_escape-control :
    (memory : ℕ → Bool) (c : ℕ) (b : Buffer) (tail : Bytes)
    → c < 32
    → unicode_escape memory b (48 ∷ 48 ∷ hex_char (c / 16) ∷ hex_char (c % 16) ∷ tail)
      ≡ ok (c, b, tail)
unfolding unicode_escape
unicode_escape-control memory c b tail h =
    let l = write_lead-ascii memory c b h in
    require_pass (leb 4 (length (48 ∷ 48 ∷ hex_char (c / 16) ∷ hex_char (c % 16) ∷ tail))) _ _
      (ground arith)
    ∙ rw (control_digits c tail h) (rw l.0 (rw l.1 refl))

-- The buffer behind one byte more.
record Appended (c len : ℕ) (b b1 : Buffer) : Type 0 where
  bytes : b1.bytes ≡ b.bytes ++ (c ∷ [])
  ready : HasRoom 0 (len + 1) b1

write-Returns :
    (c len : ℕ) (b b1 : Buffer)
    → b1.bytes ≡ b.bytes
    → HasRoom 1 len b1
    → Returns (write c b1) (Appended c len b)
unfolding write
write-Returns c len b b1 e h =
    subst (λ (m : Result JsonError Buffer). Returns m (Appended c len b))
      (sym (require_pass (ltb (length b1.bytes) b1.cap) outside_buffer _ (ground (arith, h))))
      (record {
        bytes = ap (λ bs. bs ++ (c ∷ [])) e;
        ready = record {
          holds = omega (arith, h.holds, length-append b1.bytes (c ∷ []));
          fits = omega (arith, h.fits);
          small = omega (arith, h.small);
          big = h.big;
        };
      })

-- A round that appended `c` and left `tail`.
record Took (c len : ℕ) (b : Buffer) (tail : Bytes) (r : Bool × Buffer × Bytes) : Type 0 where
  goes_on : r.0 ≡ false
  appended : Appended c len b r.1
  left : r.2 ≡ tail

string_next-Returns :
    (loop : Buffer → Bytes → Result JsonError (Bytes × Bytes)) (Q : Bytes × Bytes → Type 0)
    (c len : ℕ) (b : Buffer) (tail : Bytes) (r : Bool × Buffer × Bytes)
    → Took c len b tail r
    → Returns (loop r.1 tail) Q
    → Returns (string_next loop r) Q
unfolding string_next
string_next-Returns loop Q c len b tail (true, b1, rest1) t h = cc (t.goes_on)
string_next-Returns loop Q c len b tail (false, b1, rest1) t h =
    subst (λ bs. Returns (loop b1 bs) Q) (sym t.left) h

module _ (memory : ℕ → Bool) (room : (n : ℕ) → memory n ≡ true) where
  append_char-Returns :
      (c len : ℕ) (b : Buffer)
      → len < 0x1000_0000_0000_0000
      → HasRoom 0 len b
      → Returns (append_char memory c b) (Appended c len b)
  unfolding append_char make_room
  append_char-Returns c len b k h = elim (Bool-cases (leb b.cap (length b.bytes + 1))) [
    | inl t ↦ rw t (
        rw (room (mul64 b.cap 2)) (
          write-Returns c len b _ refl (record {
            holds = h.holds;
            fits = ground (arith, h, t);
            small = ground (arith, h, t);
            big = ground (arith, h, t);
          })))
    | inr f ↦ rw f (
        write-Returns c len b b refl
          (record { holds = h.holds; fits = ground (arith, h, f); small = h.small; big = h.big }))
  ]

  take_char :
      (c len : ℕ) (b : Buffer) (tail : Bytes)
      → len < 0x1000_0000_0000_0000
      → HasRoom 0 len b
      → Returns {A = Bool × Buffer × Bytes}
          (append_char memory c b >>= λ b1. ok (false, b1, tail))
          (Took c len b tail)
  take_char c len b tail k h =
      Returns-bind (Appended c len b) (Took c len b tail) (append_char memory c b)
        (λ b1. ok (false, b1, tail)) (append_char-Returns c len b k h)
        λ b1 a. record { goes_on = refl; appended = a; left = refl }

  string_step-escape :
      (c len : ℕ) (b : Buffer) (tail : Bytes)
      → len < 0x1000_0000_0000_0000
      → HasRoom 0 len b
      → Returns (string_step memory b (escape c ++ tail)) (Took c len b tail)
  unfolding string_step escape read_escape known_escape escape_char
  string_step-escape c len b tail k h =
      let done = take_char c len b tail k h in
      elim (Bool-cases (c == 34)) [
        | inl t ↦ rw t (
            subst
              (λ x.
                Returns {A = Bool × Buffer × Bytes}
                  (append_char memory x b >>= λ b1. ok (false, b1, tail)) (Took c len b tail))
              ((==_iff c 34).0 t) done)
        | inr f ↦ rw f (elim (Bool-cases (c == 92)) [
          | inl t ↦ rw t (
              subst
                (λ x.
                  Returns {A = Bool × Buffer × Bytes}
                    (append_char memory x b >>= λ b1. ok (false, b1, tail)) (Took c len b tail))
                ((==_iff c 92).0 t) done)
          | inr g ↦ rw g (elim (Bool-cases (ltb c 0x20)) [
            | inl t ↦ rw t (rw (unicode_escape-control memory c b tail (ground (arith, t))) done)
            | inr u ↦ rw u (rw f (rw u (rw g done)))
          ])
        ])
      ]

  string_step-quote :
      (n len : ℕ) (b : Buffer) (rest : Bytes)
      → HasRoom n len b
      → string_step memory b (34 ∷ rest) ≡ ok (true, b, rest)
  unfolding string_step
  string_step-quote n len b rest h =
      require_pass (ltb (length b.bytes) b.cap) _ _ (ground (arith, h))

  string_loop-escape_all :
      (s rest : Bytes) (n len : ℕ) (b : Buffer)
      → length s < n
      → len + length s < 0x1000_0000_0000_0000
      → HasRoom 0 len b
      → Returns
          (string_loop memory n b (escape_all s ++ (34 ∷ rest)))
          λ r. (r.0 ≡ b.bytes ++ s) × (r.1 ≡ rest)
  unfolding string_loop escape_all string_next
  string_loop-escape_all s rest zero len b l k h = ground arith
  string_loop-escape_all [] rest (suc n) len b l k h =
      rw (string_step-quote 0 len b rest h) (sym (append-nil b.bytes), refl)
  string_loop-escape_all (c ∷ s) rest (suc n) len b l k h =
      subst
        (λ bs.
          Returns (string_loop memory (suc n) b bs) λ r. (r.0 ≡ b.bytes ++ (c ∷ s)) × (r.1 ≡ rest))
        (sym (append_assoc (escape c) (escape_all s) (34 ∷ rest)))
        (Returns-bind (Took c len b (escape_all s ++ (34 ∷ rest))) _
          (string_step memory b (escape c ++ (escape_all s ++ (34 ∷ rest)))) _
          (string_step-escape c len b (escape_all s ++ (34 ∷ rest)) (omega arith) h)
          λ r t.
            string_next-Returns (string_loop memory n) _ c len b (escape_all s ++ (34 ∷ rest)) r t (
              subst
                (λ bs.
                  Returns (string_loop memory n r.1 (escape_all s ++ (34 ∷ rest)))
                    λ q. (q.0 ≡ bs) × (q.1 ≡ rest))
                (rw t.appended.bytes (append_assoc b.bytes (c ∷ []) s))
                (string_loop-escape_all s rest n (len + 1) r.1 (omega arith) (omega arith)
                  t.appended.ready)))

  length-escape_all : (s : Bytes) → length s ≤ length (escape_all s)
  unfolding escape_all escape
  length-escape_all [] = omega arith
  length-escape_all (c ∷ s) =
      omega (arith, length-append (escape c) (escape_all s), length-escape_all s, length-escape c)

  -- Where memory is there, `parse_string` gives back any string of less than 2 ^ 60 bytes, of
  -- whatever bytes, from its printed form, and leaves what follows the closing quote.
  pub parse_string-quoted :
      (s rest : Bytes)
      → length s < 0x1000_0000_0000_0000
      → parse_string memory (34 ∷ escape_all s ++ (34 ∷ rest)) ≡ ok (s, rest)
  unfolding parse_string
  parse_string-quoted s rest k =
      let text = escape_all s ++ (34 ∷ rest) in
      let fuel : length s < length text + 1 =
        omega (arith, length-append (escape_all s) (34 ∷ rest), length-escape_all s) in
      let out =
        Returns-eq-ok (λ r. (r.0 ≡ s) × (r.1 ≡ rest)) _
          (string_loop-escape_all s rest (length text + 1) 0 (record { bytes = []; cap = 32 }) fuel
            (omega arith)
            (record {
              holds = refl;
              fits = omega arith;
              small = omega arith;
              big = omega arith;
            })) in
      require_pass (memory 32) _ _ (room 32) ∙ out.1 ∙ λ i. ok (out.2.0 i, out.2.1 i)
