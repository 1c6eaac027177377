-- ===== src/Json/Lengths.antt =====
-- What the small steps of src/io/hd_json.c leave of the text.
use sera_c.Json.Checking.{IsProper, Checked}
use sera_c.Json.{JsonError}
use sera_c.Json.Parser.{colon}
use sera_c.Json.Values.{after_item, exponent, sign, fraction, digits, skip_ws, is_digit}
use sera_c.Common.{
  ℕ, Bool, Bytes, Result, length, ◌==◌, ◌<◌, ◌≤◌, ◌||◌, ◌∷◌, arith, ◌≡◌, [], true, false,
}

abbrev pub limit : ℕ
limit = 0x1000_0000_0000_0000

pub skip_ws-length : (bs : Bytes) → length (skip_ws bs) ≤ length bs
unfolding skip_ws
skip_ws-length [] = omega arith
skip_ws-length (c ∷ rest) = ground (arith, skip_ws-length rest)

pub digits-length : (bs : Bytes) → length (digits bs).1 ≤ length bs
unfolding digits
digits-length [] = omega arith
digits-length (c ∷ rest) = ground (arith, digits-length rest)

pub sign-length : (bs : Bytes) → length (sign bs).1 ≤ length bs
unfolding sign
sign-length [] = omega arith
sign-length (c ∷ rest) = ground arith

pub fraction-length : (bs : Bytes) → length (fraction bs).1 ≤ length bs
unfolding fraction
fraction-length [] = omega arith
fraction-length (c ∷ rest) = ground (arith, digits-length rest)

pub exponent-length : (bs : Bytes) → length (exponent bs).1 ≤ length bs
unfolding exponent
exponent-length [] = omega arith
exponent-length (c ∷ rest) = ground (arith, digits-length (sign rest).1, sign-length rest)

-- The sign and digits of a text that begins with either take a byte.
pub number_front :
    (c : ℕ) (rest : Bytes)
    → (c == 45 || c == 43 || is_digit c) ≡ true
    → length (digits (sign (c ∷ rest)).1).1 ≤ length rest
unfolding sign digits
number_front c rest t = ground (arith, digits-length rest)

pub after_item-Checked :
    (close : ℕ) (u e : JsonError) (rest : Bytes)
    → IsProper u
    → IsProper e
    → Checked (after_item close u e rest) λ r. length r.1 < length rest
unfolding after_item
after_item-Checked close u e [] p q = p
after_item-Checked close u e (c ∷ rest) p q = ground (arith, q)

pub colon-Checked : (rest : Bytes) → Checked (colon rest) λ r. length r < length rest
unfolding colon
colon-Checked [] = tt
colon-Checked (c ∷ rest) = ground arith

pub Checked-elim :
    {A : Type 0} (P : A → Type 0) (b : Bool) (x y : Result JsonError A)
    → Checked x P
    → Checked y P
    → Checked (elim b [ true ↦ x | false ↦ y ]) P
Checked-elim P true x y h k = h
Checked-elim P false x y h k = k
