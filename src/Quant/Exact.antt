-- ===== src/Quant/Exact.antt =====
-- The half floats and the packed scales of src/q3_quant.c have the values that they stand for.
use native.Mathlib.Omega.{pow_step}
use sera_c.Quant.{float_of, subnormal, half_to_float, shift_up}
use sera_c.Common.{
  ℕ, ◌/◌, ◌+◌, if◌then◌else◌, ◌*◌, ◌==◌, ◌%◌, ◌^◌, ◌≡◌, ◌≤◌, ◌-◌, ◌<◌, arith, false, refl, ◌∙◌, suc,
  ap, zero, true, Bool, ◌≢◌, ◌&&◌, Bool-cases, inl, inr, ltb,
}

-- A finite number by its exponent and fraction, in units of the least subnormal: `bits` is the number
-- of bits of the fraction.
abbrev magnitude : ℕ → ℕ → ℕ → ℕ
magnitude one exponent fraction =
    if exponent == 0 then fraction else (one + fraction) * 2 ^ (exponent - 1)

-- The magnitude of a half float in units of 2 ^ -24, and of a float in units of 2 ^ -149.
pub half_magnitude : ℕ → ℕ
half_magnitude bits = magnitude 0x400 (bits / 0x400 % 32) (bits % 0x400)

pub float_magnitude : ℕ → ℕ
float_magnitude bits = magnitude 0x80_0000 (bits / 0x80_0000 % 256) (bits % 0x80_0000)

-- A float by its parts.
float_of-magnitude :
    (sign e f : ℕ)
    → sign % 0x8000_0000 ≡ 0
    → e ≤ 30
    → f < 0x400
    → float_magnitude (float_of sign e f) ≡ (0x80_0000 + f * 0x2000) * 2 ^ (e + 111)
unfolding float_magnitude float_of
float_of-magnitude sign e f s high low =
    let whole = sign + ((e + 112) % 0x1_0000_0000 * 0x80_0000 + f * 0x2000) in
    let exponent : whole / 0x80_0000 % 256 ≡ e + 112 = omega (arith, s, high, low) in
    let fraction : whole % 0x80_0000 ≡ f * 0x2000 = omega (arith, s, high, low) in
    let test : e + 112 == 0 ≡ false = ground arith in
    let power : e + 112 - 1 ≡ e + 111 = omega arith in rw (exponent, fraction, test, power) refl

power_112 : (e : ℕ) → 2 ^ (e + 112) ≡ 2 ^ e * 2 ^ 112
power_112 zero = omega arith
power_112 (suc e) =
    let above : 2 ^ (suc e + 112) ≡ 2 ^ suc (e + 112) = ap (λ (k : ℕ). 2 ^ k) (omega arith) in
    omega (arith, above, pow_step 2 e, pow_step 2 (e + 112), power_112 e)

product : (x f : ℕ) → (0x80_0000 + f * 0x2000) * (x * 2 ^ 112) ≡ (0x400 + f) * x * 2 ^ 125
product x f = grind arith

normal_power : (e f : ℕ) → (0x80_0000 + f * 0x2000) * 2 ^ (e + 112) ≡ (0x400 + f) * 2 ^ e * 2 ^ 125
normal_power e f = rw (power_112 e) (product (2 ^ e) f)

-- A normal half float, of exponent 1 to 30.
normal-magnitude :
    (sign e f : ℕ)
    → sign % 0x8000_0000 ≡ 0
    → 1 ≤ e
    → e ≤ 30
    → f < 0x400
    → float_magnitude (float_of sign e f) ≡ (0x400 + f) * 2 ^ (e - 1) * 2 ^ 125
normal-magnitude sign e f s low high small =
    let power : e + 111 ≡ e - 1 + 112 = omega (arith, low) in
    float_of-magnitude sign e f s high small
    ∙ ap (λ (k : ℕ). (0x80_0000 + f * 0x2000) * 2 ^ k) power
    ∙ normal_power (e - 1) f

-- The sign is not in the magnitude.
magnitude_sign :
    (sign y : ℕ) → sign % 0x8000_0000 ≡ 0 → float_magnitude (sign + y) ≡ float_magnitude y
unfolding float_magnitude
magnitude_sign sign y s =
    let exponent : (sign + y) / 0x80_0000 % 256 ≡ y / 0x80_0000 % 256 = omega (arith, s) in
    let fraction : (sign + y) % 0x80_0000 ≡ y % 0x80_0000 = omega (arith, s) in
    rw (exponent, fraction) refl

-- The subnormal fractions from `f` on, one by one.
subnormals : ℕ → ℕ → Bool
subnormals zero f = true
subnormals (suc n) f =
    subnormals n (f + 1)
    && float_magnitude (subnormal 0 (shift_up 10 f 1)) == f * 2 ^ 125
    && ltb (subnormal 0 (shift_up 10 f 1)) 0x8000_0000

all_subnormals : subnormals 1023 1 ≡ true
unfolding subnormals float_magnitude subnormal shift_up float_of
all_subnormals = refl

subnormals-each :
    (n f k : ℕ)
    → subnormals n f ≡ true
    → f ≤ k
    → k < f + n
    → (float_magnitude (subnormal 0 (shift_up 10 k 1)) ≡ k * 2 ^ 125)
      × (subnormal 0 (shift_up 10 k 1) < 0x8000_0000)
unfolding subnormals
subnormals-each zero f k h low high = let no : ⊥ = omega (arith, low, high) in elim no [ ]
subnormals-each (suc n) f k h low high =
    let parts : (subnormals n (f + 1) ≡ true)
        × (float_magnitude (subnormal 0 (shift_up 10 f 1)) ≡ f * 2 ^ 125)
        × (subnormal 0 (shift_up 10 f 1) < 0x8000_0000) =
      ground (arith, h) in
    elim (Bool-cases (k == f)) [
      | inl same ↦ let e : k ≡ f = ground (arith, same) in rw e (parts.1, parts.2)
      | inr other ↦
          let above : f + 1 ≤ k = ground (arith, other, low) in
          subnormals-each n (f + 1) k parts.0 above (omega (arith, high))
    ]

subnormal_sign : (sign : ℕ) (x : ℕ × ℕ) → subnormal sign x ≡ sign + subnormal 0 x
unfolding subnormal float_of
subnormal_sign sign (fraction, exponent) = omega arith

zero_magnitude : (sign : ℕ) → sign % 0x8000_0000 ≡ 0 → float_magnitude sign ≡ 0
unfolding float_magnitude
zero_magnitude sign s =
    let exponent : sign / 0x80_0000 % 256 ≡ 0 = omega (arith, s) in
    let fraction : sign % 0x80_0000 ≡ 0 = omega (arith, s) in rw (exponent, fraction) refl

float_of-max :
    (sign e f : ℕ)
    → sign % 0x8000_0000 ≡ 0
    → e ≤ 30
    → f < 0x400
    → float_of sign e f / 0x8000_0000 ≡ sign / 0x8000_0000
unfolding float_of
float_of-max sign e f s high small = omega (arith, s, high, small)

-- For every half float that is not infinite or a NaN (its exponent is not 31): the magnitude of
-- `q3_half_to_float`'s result, in units of 2 ^ -149, is the half's, in units of 2 ^ -24, times 2 ^ 125,
-- which is exactly the same number, and the sign is kept.
pub half_to_float-magnitude :
    (bits : ℕ)
    → bits < 0x1_0000
    → bits / 0x400 % 32 ≢ 31
    → (float_magnitude (half_to_float bits) ≡ half_magnitude bits * 2 ^ 125)
      × (half_to_float bits / 0x8000_0000 ≡ bits / 0x8000)
unfolding half_to_float half_magnitude
half_to_float-magnitude bits low finite =
    let sign = bits / 0x8000 % 2 * 0x8000_0000 in
    let e = bits / 0x400 % 32 in
    let f = bits % 0x400 in
    let s : sign % 0x8000_0000 ≡ 0 = omega arith in
    let top : sign / 0x8000_0000 ≡ bits / 0x8000 = omega (arith, low) in
    elim (Bool-cases (e == 0)) [
      | inl sub ↦ elim (Bool-cases (f == 0)) [
        | inl none_there ↦
            let zero_f : f ≡ 0 = ground (arith, none_there) in
            rw (sub, none_there) (zero_magnitude sign s ∙ omega (arith, zero_f), top)
        | inr some_there ↦
            let pos : 1 ≤ f = ground (arith, some_there) in
            let (value, high) = subnormals-each 1023 1 f all_subnormals pos (omega arith) in
            rw (sub, some_there, subnormal_sign sign (shift_up 10 f 1))
              (
                magnitude_sign sign (subnormal 0 (shift_up 10 f 1)) s ∙ value,
                omega (arith, s, high, low),
              )
      ]
      | inr normal ↦
          let e_pos : 1 ≤ e = ground (arith, normal) in
          let e_max : e ≤ 30 = omega (arith, finite) in
          let test : e == 31 ≡ false = ground (arith, e_max) in
          rw (normal, test)
            (
              normal-magnitude sign e f s e_pos e_max (omega arith),
              float_of-max sign e f s e_max (omega arith) ∙ top,
            )
    ]
