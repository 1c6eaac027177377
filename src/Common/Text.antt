-- ===== src/Common/Text.antt =====
-- Text constants as the bytes of the C strings; every literal is ASCII.
use Prim.Native.Char.{code}
use Prim.Native.Nat.{ℕ, zero, suc, ◌+◌, ◌/◌, ◌%◌}
use Prim.Native.String.{String}
use mathlib.Core.List.{[], ◌∷◌, ◌++◌}
use sera_c.Common.Tests.{◌==◌, ltb, if◌then◌else◌}
use sera_c.Common.Lists.{Bytes}

abbrev pub codes : String → Bytes
codes String.[] = []
codes (String.◌∷◌ c s) = code c ∷ codes s

-- What a C string of these bytes holds: the bytes before the first zero.
unfoldable pub c_text : Bytes → Bytes
c_text [] = []
c_text (b ∷ bs) = if b == 0 then [] else b ∷ c_text bs

-- The digits of `%u`, at most `n` of them.
unfoldable pub digits_within : ℕ → ℕ → Bytes
digits_within zero v = []
digits_within (suc n) v =
    let front = digits_within n (v / 10) in
    if ltb v 10 then (48 + v) ∷ [] else front ++ ((48 + v % 10) ∷ [])

-- A `uint32_t` as `%u` prints it; it has at most ten digits.
abbrev pub decimal : ℕ → Bytes
decimal v = digits_within 10 v
