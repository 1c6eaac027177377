-- ===== src/Quant/Scales.antt =====
-- The scales and minima of a Q4_K block in src/q3_quant.c, packed and read back.
use sera_c.Quant.{scale_min_q4}
use sera_c.Common.{ℕ, Bytes, ◌<◌, ◌+◌, ◌≡◌, ◌/◌, ◌*◌, ◌∷◌, ◌%◌, [], arith, suc, zero}

-- Eight scales and eight minima of six bits each in twelve bytes: the first four of each stand whole
-- in the low bits of bytes 0 to 7, whose two high bits are those of the last four; bytes 8 to 11 have
-- the four low bits of these.
unfoldable pub pack : (ℕ → ℕ) → (ℕ → ℕ) → Bytes
pack s m =
    (s 0 + s 4 / 16 * 64)
    ∷ (s 1 + s 5 / 16 * 64)
    ∷ (s 2 + s 6 / 16 * 64)
    ∷ (s 3 + s 7 / 16 * 64)
    ∷ (m 0 + m 4 / 16 * 64)
    ∷ (m 1 + m 5 / 16 * 64)
    ∷ (m 2 + m 6 / 16 * 64)
    ∷ (m 3 + m 7 / 16 * 64)
    ∷ (s 4 % 16 + m 4 % 16 * 16)
    ∷ (s 5 % 16 + m 5 % 16 * 16)
    ∷ (s 6 % 16 + m 6 % 16 * 16)
    ∷ (s 7 % 16 + m 7 % 16 * 16)
    ∷ []

pair_same : {a b c d : ℕ} → a ≡ c → b ≡ d → ◌≡◌ {A = ℕ × ℕ} (a, b) (c, d)
pair_same p q = cc (p, q)

-- For any scales and minima below 64, and each of the eight indices: `scale_min_q4` reads the scale
-- and the minimum of that index from the packed bytes.
pub scale_min_q4-pack :
    (s m : ℕ → ℕ) (i : ℕ)
    → ((k : ℕ) → s k < 64)
    → ((k : ℕ) → m k < 64)
    → i < 8
    → scale_min_q4 i (pack s m) ≡ (s i, m i)
unfolding scale_min_q4 pack
scale_min_q4-pack s m zero p q h = pair_same (omega (arith, p 0, p 4)) (omega (arith, q 0, q 4))
scale_min_q4-pack s m (suc zero) p q h =
    pair_same (omega (arith, p 1, p 5)) (omega (arith, q 1, q 5))
scale_min_q4-pack s m (suc (suc zero)) p q h =
    pair_same (omega (arith, p 2, p 6)) (omega (arith, q 2, q 6))
scale_min_q4-pack s m (suc (suc (suc zero))) p q h =
    pair_same (omega (arith, p 3, p 7)) (omega (arith, q 3, q 7))
scale_min_q4-pack s m (suc (suc (suc (suc zero)))) p q h =
    pair_same (omega (arith, p 0, p 4)) (omega (arith, q 0, q 4))
scale_min_q4-pack s m (suc (suc (suc (suc (suc zero))))) p q h =
    pair_same (omega (arith, p 1, p 5)) (omega (arith, q 1, q 5))
scale_min_q4-pack s m (suc (suc (suc (suc (suc (suc zero)))))) p q h =
    pair_same (omega (arith, p 2, p 6)) (omega (arith, q 2, q 6))
scale_min_q4-pack s m (suc (suc (suc (suc (suc (suc (suc zero))))))) p q h =
    pair_same (omega (arith, p 3, p 7)) (omega (arith, q 3, q 7))
scale_min_q4-pack s m (suc (suc (suc (suc (suc (suc (suc (suc i)))))))) p q h =
    let no : ⊥ = omega (arith, h) in elim no [ ]
