-- ===== src/Quant.antt =====
-- The integer parts of src/q3_quant.c: half floats as bit patterns, and the packed scales and minima
-- of a Q4_K block. Masks and shifts are remainders, quotients and products; the bits that `|` joins
-- never overlap, so it is a sum.
pub mod Exact
pub mod Scales
mod Tests
use sera_c.Common.{ℕ, Bytes, ◌%◌, ◌+◌, ◌/◌, suc, ◌*◌, if◌then◌else◌, ◌==◌, ltb, zero, get_or, ◌-◌}

-- The loop that shifts the fraction of a subnormal up, in at most `n` rounds; ten are enough, since
-- the fraction is not 0. The exponent is a `uint32_t` and wraps.
unfoldable pub shift_up : ℕ → ℕ → ℕ → ℕ × ℕ
shift_up zero fraction exponent = (fraction, exponent)
shift_up (suc n) fraction exponent =
    if fraction / 0x400 % 2 == 1
    then (fraction, exponent)
    else shift_up n (fraction * 2) ((exponent + 0xffff_ffff) % 0x1_0000_0000)

-- `sign | ((exponent + 112u) << 23) | (fraction << 13)`.
unfoldable pub float_of : ℕ → ℕ → ℕ → ℕ
float_of sign exponent fraction =
    sign + ((exponent + 112) % 0x1_0000_0000 * 0x80_0000 + fraction * 0x2000)

unfoldable pub subnormal : ℕ → ℕ × ℕ → ℕ
subnormal sign (fraction, exponent) = float_of sign exponent (fraction % 0x400)

-- `q3_half_to_float`, as the bit pattern of the result.
unfoldable pub half_to_float : ℕ → ℕ
half_to_float bits =
    let sign = bits / 0x8000 % 2 * 0x8000_0000 in
    let exponent = bits / 0x400 % 32 in
    let fraction = bits % 0x400 in
    if exponent == 0
    then (if fraction == 0 then sign else subnormal sign (shift_up 10 fraction 1))
    else if exponent == 31
    then sign + (0x7f80_0000 + fraction * 0x2000)
    else float_of sign exponent fraction

-- `scale_min_q4`: a scale and a minimum of six bits each, out of the twelve bytes of a block.
unfoldable pub scale_min_q4 : ℕ → Bytes → ℕ × ℕ
scale_min_q4 index scales =
    if ltb index 4 then (get_or scales index 0 % 64, get_or scales (index + 4) 0 % 64) else (
      get_or scales (index + 4) 0 % 16 + get_or scales (index - 4) 0 / 64 * 16,
      get_or scales (index + 4) 0 / 16 + get_or scales index 0 / 64 * 16,
    )
