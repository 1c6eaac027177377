-- ===== src/Json/Buffers.antt =====
-- `parse_string`, src/io/hd_json.c: the buffer holds every write, and the loop ends.
use sera_c.Json.Checking.{HasRoom}
use sera_c.Json.{Buffer}
use sera_c.Common.{ℕ, Bool, ◌≤◌, length, ◌+◌, Bytes}

module _ (memory : ℕ → Bool) where
  -- The buffer behind at most two bytes more.
  record Extended (len : ℕ) (b : Buffer) : Type 0 where
    len1 : ℕ
    low : len ≤ len1
    high : len1 ≤ len + 2
    ready : HasRoom 0 len1 b

  -- A buffer and what is left of `rest`, of which `least` bytes or more were read; the new bytes,
  -- with `more` to come, are no more than those.
  record Moved (least more len : ℕ) (rest : Bytes) (b : Buffer) (rest1 : Bytes) : Type 0 where
    len1 : ℕ
    ready : HasRoom 0 len1 b
    shorter : length rest1 + least ≤ length rest
    balance : len1 + more + length rest1 ≤ len + length rest
