-- ===== src/Json/Unicode.antt =====
-- The `\u` escapes of `parse_string`, src/io/hd_json.c: four digits and the UTF-8 bytes of their code.
use sera_c.Json.Checking.{HasRoom}
use sera_c.Json.{
  hex_digit, last_byte, write, make_room, unicode_escape, write_lead, Buffer, JsonError,
  outside_buffer, hex_digits, bad_unicode,
}
use sera_c.Common.{
  ℕ, Bytes, Bool, Option, leb, if◌then◌else◌, ◌≡◌, ◌∷◌, ◌<◌, ◌++◌, some, ltb, ◌&&◌, none, ok, [],
  ◌-◌, arith, ◌*◌, ◌+◌, ◌/◌, ◌%◌, true, ◌≤◌, Returns, subst, Returns-bind, Bool-cases, length,
  Result, Returns_map, inl, ◌∙◌, sym, ap, mul64, ◌>>=◌, require_pass, inr, append_assoc, refl,
  length-append, append-nil,
}

-- A decoder of one character of at most three UTF-8 bytes, with the shortest form asked for.
abbrev pub continuation : ℕ → Bool
continuation b = leb 0x80 b && ltb b 0xc0

unfoldable pub utf8_code : Bytes → Option ℕ
utf8_code (a ∷ []) = if ltb a 0x80 then some a else none
utf8_code (a ∷ b ∷ []) =
    if leb 0xc2 a && ltb a 0xe0 && continuation b then some ((a - 0xc0) * 64 + (b - 0x80)) else none
utf8_code (a ∷ b ∷ c ∷ []) =
    if leb 0xe0 a
      && ltb a 0xf0
      && continuation b
      && continuation c
      && leb 0x800 ((a - 0xe0) * 4096 + (b - 0x80) * 64 + (c - 0x80))
    then some ((a - 0xe0) * 4096 + (b - 0x80) * 64 + (c - 0x80))
    else none
utf8_code _ = none

-- The four upper-case or lower-case digits `ds` of a code.
unfoldable pub hex_value : ℕ → Option ℕ
hex_value h =
    if leb 48 h && ltb h 58
    then some (h - 48)
    else if leb 65 h && ltb h 71
    then some (h - 55)
    else if leb 97 h && ltb h 103
    then some (h - 87)
    else none

hex_digit-hex_value : (h d : ℕ) → hex_value h ≡ some d → (hex_digit h ≡ ok d) × (d < 16)
unfolding hex_digit hex_value
hex_digit-hex_value h d e = ground arith

-- The lead bytes of a code, and the byte behind them.
lead : ℕ → Bytes
lead code =
    if ltb code 0x80
    then []
    else if ltb code 0x800
    then (0xc0 + code / 64) ∷ []
    else (0xe0 + code / 4096) ∷ (0x80 + code / 64 % 64) ∷ []

utf8_code-lead :
    (code : ℕ) → code < 0x1_0000 → utf8_code (lead code ++ (last_byte code ∷ [])) ≡ some code
unfolding utf8_code lead last_byte
utf8_code-lead code h = ground arith

four_digits :
    (h0 h1 h2 h3 d0 d1 d2 d3 : ℕ) (tail : Bytes)
    → hex_value h0 ≡ some d0
    → hex_value h1 ≡ some d1
    → hex_value h2 ≡ some d2
    → hex_value h3 ≡ some d3
    → (hex_digits 4 0 (h0 ∷ h1 ∷ h2 ∷ h3 ∷ tail) ≡ ok (4096 * d0 + 256 * d1 + 16 * d2 + d3, tail))
      × (4096 * d0 + 256 * d1 + 16 * d2 + d3 < 0x1_0000)
unfolding hex_digits
four_digits h0 h1 h2 h3 d0 d1 d2 d3 tail e0 e1 e2 e3 =
    let (p0, b0) = hex_digit-hex_value h0 d0 e0 in
    let (p1, b1) = hex_digit-hex_value h1 d1 e1 in
    let (p2, b2) = hex_digit-hex_value h2 d2 e2 in
    let (p3, b3) = hex_digit-hex_value h3 d3 e3 in
    (rw p0 (rw p1 (rw p2 (rw p3 (ap (λ (x : ℕ). ok (x, tail)) (omega arith))))), omega arith)

write-Returns :
    (n len c : ℕ) (b : Buffer)
    → HasRoom (n + 1) len b
    → Returns (write c b) λ b1. (b1.bytes ≡ b.bytes ++ (c ∷ [])) × HasRoom n (len + 1) b1
unfolding write
write-Returns n len c b h =
    subst
      (λ (m : Result JsonError Buffer).
        Returns m λ b1. (b1.bytes ≡ b.bytes ++ (c ∷ [])) × HasRoom n (len + 1) b1)
      (sym (require_pass (ltb (length b.bytes) b.cap) outside_buffer _ (ground (arith, h))))
      (
        refl,
        record {
          holds = omega (arith, h.holds, length-append b.bytes (c ∷ []));
          fits = omega (arith, h.fits);
          small = omega (arith, h.small);
          big = h.big;
        },
      )

-- The bytes that an escape appends, its last byte with them, are the UTF-8 form of `code`.
pub record Encoded (code : ℕ) (b : Buffer) (tail : Bytes) (r : ℕ × Buffer × Bytes) : Type 0 where
  pub new : Bytes
  pub appended : r.1.bytes ≡ b.bytes ++ new
  pub utf8 : utf8_code (new ++ (r.0 ∷ [])) ≡ some code
  pub left : r.2 ≡ tail

module _ (memory : ℕ → Bool) (room : (n : ℕ) → memory n ≡ true) where
  make_room-Returns :
      (n len : ℕ) (b : Buffer)
      → 1 ≤ n
      → n ≤ 3
      → len < 0x1000_0000_0000_0000
      → HasRoom 0 len b
      → Returns (make_room memory n b) λ b1. (b1.bytes ≡ b.bytes) × HasRoom n len b1
  unfolding make_room
  make_room-Returns n len b p q k h = elim (Bool-cases (leb b.cap (length b.bytes + n))) [
    | inl t ↦ rw t (
        rw (room (mul64 b.cap 2)) (
          refl,
          record {
            holds = h.holds;
            fits = ground (arith, h, t);
            small = ground (arith, h, t);
            big = ground (arith, h, t);
          },
        ))
    | inr f ↦ rw f (
      refl,
      record { holds = h.holds; fits = ground (arith, h, f); small = h.small; big = h.big },
    )
  ]

  write_lead-Returns :
      (code len : ℕ) (b : Buffer)
      → len < 0x1000_0000_0000_0000
      → HasRoom 0 len b
      → Returns (write_lead memory code b) λ b1. b1.bytes ≡ b.bytes ++ lead code
  unfolding write_lead lead
  write_lead-Returns code len b k h =
      let x = 0xc0 + code / 64 in
      let y = 0xe0 + code / 4096 in
      let z = 0x80 + code / 64 % 64 in
      let two =
        Returns-bind (λ b1. (b1.bytes ≡ b.bytes) × HasRoom 2 len b1)
          (λ b2. b2.bytes ≡ b.bytes ++ (x ∷ [])) (make_room memory 2 b) (λ b1. write x b1)
          (make_room-Returns 2 len b (omega arith) (omega arith) k h)
          λ b1 r.
            Returns_map _ _ (write x b1) (λ b2 q. q.0 ∙ ap (λ bs. bs ++ (x ∷ [])) r.0)
              (write-Returns 1 len x b1 r.1) in
      let three =
        Returns-bind (λ b1. (b1.bytes ≡ b.bytes) × HasRoom 3 len b1)
          (λ b2. b2.bytes ≡ b.bytes ++ (y ∷ z ∷ [])) (make_room memory 3 b)
          (λ b1. write y b1 >>= λ b2. write z b2)
          (make_room-Returns 3 len b (omega arith) (omega arith) k h)
          λ b1 r.
            Returns-bind (λ b2. (b2.bytes ≡ b1.bytes ++ (y ∷ [])) × HasRoom 2 (len + 1) b2)
              (λ b3. b3.bytes ≡ b.bytes ++ (y ∷ z ∷ [])) (write y b1) (λ b2. write z b2)
              (write-Returns 2 len y b1 r.1)
              λ b2 q.
                Returns_map _ _ (write z b2)
                  (λ b3 u.
                    u.0
                    ∙ ap (λ bs. bs ++ (z ∷ [])) (q.0 ∙ ap (λ bs. bs ++ (y ∷ [])) r.0)
                    ∙ append_assoc b.bytes (y ∷ []) (z ∷ []))
                  (write-Returns 1 (len + 1) z b2 q.1) in
      elim (Bool-cases (ltb code 0x80)) [
        | inl t ↦ rw t (sym (append-nil b.bytes))
        | inr f ↦
            rw f (elim (Bool-cases (ltb code 0x800)) [ inl t ↦ rw t two | inr g ↦ rw g three ])
      ]

  -- Where memory is there, on a buffer in use of less than 2 ^ 60 bytes: a `\u` with the four digits
  -- of a code, of either case, appends the UTF-8 form of the code, in its shortest form, and leaves
  -- what follows the digits.
  pub unicode_escape-Encoded :
      (len : ℕ) (b : Buffer) (h0 h1 h2 h3 d0 d1 d2 d3 : ℕ) (tail : Bytes)
      → len < 0x1000_0000_0000_0000
      → HasRoom 0 len b
      → hex_value h0 ≡ some d0
      → hex_value h1 ≡ some d1
      → hex_value h2 ≡ some d2
      → hex_value h3 ≡ some d3
      → Returns
          (unicode_escape memory b (h0 ∷ h1 ∷ h2 ∷ h3 ∷ tail))
          (Encoded (4096 * d0 + 256 * d1 + 16 * d2 + d3) b tail)
  unfolding unicode_escape
  unicode_escape-Encoded len b h0 h1 h2 h3 d0 d1 d2 d3 tail k h e0 e1 e2 e3 =
      let code = 4096 * d0 + 256 * d1 + 16 * d2 + d3 in
      let (digits, small) = four_digits h0 h1 h2 h3 d0 d1 d2 d3 tail e0 e1 e2 e3 in
      subst (λ (m : Result JsonError (ℕ × Buffer × Bytes)). Returns m (Encoded code b tail))
        (sym
          (require_pass (leb 4 (length (h0 ∷ h1 ∷ h2 ∷ h3 ∷ tail))) bad_unicode _ (ground arith)))
        (rw digits (
          Returns-bind (λ b1. b1.bytes ≡ b.bytes ++ lead code) (Encoded code b tail)
            (write_lead memory code b) (λ b1. ok (last_byte code, b1, tail))
            (write_lead-Returns code len b k h)
            λ b1 e. record {
              new = lead code;
              appended = e;
              utf8 = utf8_code-lead code small;
              left = refl;
            }))
