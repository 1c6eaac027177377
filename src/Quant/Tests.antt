-- ===== src/Quant/Tests.antt =====
-- The theorems about src/q3_quant.c at numbers.
use sera_c.Quant.Scales.{pack, scale_min_q4-pack}
use sera_c.Quant.Exact.{float_magnitude, half_magnitude, half_to_float-magnitude}
use sera_c.Quant.{half_to_float, scale_min_q4, subnormal, float_of, shift_up}
use sera_c.Common.{◌≡◌, refl, ◌*◌, ◌%◌, ◌^◌, ◌/◌, ◌+◌, arith}

-- One, and the least subnormal.
one_half : half_to_float 0x3c00 ≡ 0x3f80_0000
unfolding half_to_float float_of
one_half = refl

least_half : half_to_float 1 ≡ 0x3380_0000
unfolding half_to_float subnormal shift_up float_of
least_half = refl

half_to_float-magnitude_example :
    (float_magnitude (half_to_float 0x8001) ≡ half_magnitude 0x8001 * 2 ^ 125)
    × (half_to_float 0x8001 / 0x8000_0000 ≡ 0x8001 / 0x8000)
half_to_float-magnitude_example = half_to_float-magnitude 0x8001 (omega arith) (omega arith)

scale_min_q4-pack_example :
    scale_min_q4 5 (pack (λ k. k * 5 % 64) (λ k. (63 + k) % 64)) ≡ (5 * 5 % 64, (63 + 5) % 64)
scale_min_q4-pack_example =
    scale_min_q4-pack (λ k. k * 5 % 64) (λ k. (63 + k) % 64) 5 (λ k. omega arith) (λ k. omega arith)
      (omega arith)
