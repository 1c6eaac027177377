-- ===== src/Json/Checking.antt =====
-- What the model of `parse_string`, src/io/hd_json.c, may end in, and the room in its buffer.
use sera_c.Json.{Buffer, write, JsonError, outside_buffer, no_fuel}
use sera_c.Common.{
  ℕ, Bool, Result, arith, ◌>>=◌, ◌≡◌, ◌+◌, length, ok, ◌<◌, err, true, subst, require, sym, ◌≤◌,
  require_pass, ◌*◌, ◌>>◌, ltb, false, length-append, refl, ◌∷◌, [],
}

-- An error that the program has.
abbrev pub IsProper : JsonError → Type 0
IsProper outside_buffer = ⊥
IsProper no_fuel = ⊥
IsProper _ = Unit

-- A result that satisfies `P`, or an error that the program has.
abbrev pub Checked : {A : Type 0} → Result JsonError A → (A → Type 0) → Type 0
Checked (ok x) P = P x
Checked (err e) P = IsProper e

pub Checked-bind :
    {A B : Type 0} (P : A → Type 0) (Q : B → Type 0) (m : Result JsonError A)
    (f : A → Result JsonError B)
    → Checked m P
    → ((a : A) → P a → Checked (f a) Q)
    → Checked (m >>= f) Q
Checked-bind P Q (ok a) f h k = k a h
Checked-bind P Q (err e) f h k = h

pub Checked_map :
    {A : Type 0} (P Q : A → Type 0) (m : Result JsonError A)
    → ((a : A) → P a → Q a)
    → Checked m P
    → Checked m Q
Checked_map P Q (ok a) k h = k a h
Checked_map P Q (err e) k h = h

pub Checked-require :
    {B : Type 0} (Q : B → Type 0) (b : Bool) (e : JsonError) (m : Result JsonError B)
    → IsProper e
    → (b ≡ true → Checked m Q)
    → Checked (require b e >> m) Q
Checked-require Q true e m p k = k refl
Checked-require Q false e m p k = p

-- The buffer has `len` bytes and room for `n` more and the closing 0, and its size is not out of
-- proportion to them.
pub record HasRoom (n len : ℕ) (b : Buffer) : Type 0 where
  pub holds : length b.bytes ≡ len
  pub fits : len + n < b.cap
  pub small : b.cap ≤ 2 * len + 38
  pub big : 32 ≤ b.cap

pub HasRoom-less : {n len : ℕ} {b : Buffer} → HasRoom n len b → HasRoom 0 len b
HasRoom-less h = record {
  holds = h.holds;
  fits = omega (arith, h.fits);
  small = h.small;
  big = h.big;
}

pub write-Checked :
    (n len c : ℕ) (b : Buffer) → HasRoom (n + 1) len b → Checked (write c b) (HasRoom n (len + 1))
unfolding write
write-Checked n len c b h =
    subst (λ (m : Result JsonError Buffer). Checked m (HasRoom n (len + 1)))
      (sym (require_pass (ltb (length b.bytes) b.cap) outside_buffer _ (ground (arith, h))))
      (record {
        holds = omega (arith, h.holds, length-append b.bytes (c ∷ []));
        fits = omega (arith, h.fits);
        small = omega (arith, h.small);
        big = h.big;
      })
