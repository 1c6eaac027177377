-- ===== src/Residency.antt =====
-- The residency accounting, src/q3_residency.c: arenas that count aligned reservations, one for the
-- core and one for each expert bank. An operation returns its error, if any, with the state it
-- leaves, since some fail after a change. A null argument is not modelled.
pub mod Reserve
pub mod Account
pub mod Valid
pub mod Run
mod Tests
use sera_c.Common.{
  ℕ, List, if◌then◌else◌, Option, Bool, [], suc, ◌∷◌, add64, ◌==◌, some, ltb, none, sub64, ◌||◌,
  not, u64_max, mul64, u32_max, ◌+◌, leb, ◌/◌, get_elem?, zero,
}

pub data ResidencyError : Type 0 where
  size_overflow alignment_overflow count_overflow table_failed ple_overflow bank_range
        resident_overflow :
      ResidencyError

abbrev pub resident_alignment : ℕ
resident_alignment = 256

-- `q3_align_up_u64` of src/q3_residency.h.
unfoldable pub align_up_u64 : ℕ → ℕ → ℕ
align_up_u64 value alignment =
    if alignment == 0 || ltb (sub64 u64_max (sub64 alignment 1)) value
    then u64_max
    else mul64 (sub64 (add64 value alignment) 1 / alignment) alignment

-- The address `base` stays 0 here: nothing in the file allocates it.
pub record Arena : Type 0 where
  pub base : ℕ
  pub capacity : ℕ
  pub used : ℕ
  pub tensor_count : ℕ

abbrev pub arena_init : Arena
arena_init = record { base = 0; capacity = 0; used = 0; tensor_count = 0 }

abbrev pub extended : Arena → ℕ → Arena
extended arena end = record arena {
  used = end;
  capacity = if ltb arena.capacity end then end else arena.capacity;
}

unfoldable pub arena_reserve : Arena → ℕ → Option ResidencyError × Arena
arena_reserve arena bytes =
    let end = align_up_u64 (add64 arena.used bytes) resident_alignment in
    if ltb (sub64 u64_max arena.used) bytes
    then (some size_overflow, arena)
    else if end == u64_max
    then (some alignment_overflow, arena)
    else if arena.tensor_count == u32_max
    then (some count_overflow, extended arena end)
    else (none, record (extended arena end) { tensor_count = arena.tensor_count + 1 })

pub record Residency : Type 0 where
  pub core : Arena
  pub expert_banks : List Arena
  pub expert_bank_count : ℕ
  pub non_ple_bytes : ℕ
  pub ple_bytes : ℕ
  pub aligned_bytes : ℕ

abbrev pub zero_residency : Residency
zero_residency = record {
  core = arena_init;
  expert_banks = [];
  expert_bank_count = 0;
  non_ple_bytes = 0;
  ple_bytes = 0;
  aligned_bytes = 0;
}

abbrev pub banks : ℕ → List Arena
banks zero = []
banks (suc n) = arena_init ∷ banks n

-- `room` is the answer of `calloc`.
unfoldable pub residency_init : Bool → ℕ → Option ResidencyError × Residency
residency_init room expert_bank_count =
    if expert_bank_count == 0
    then (none, zero_residency)
    else if not room
    then (some table_failed, zero_residency)
    else (
      none,
      record zero_residency {
        expert_banks = banks expert_bank_count;
        expert_bank_count = expert_bank_count;
      },
    )

abbrev pub set_elem : List Arena → ℕ → Arena → List Arena
set_elem [] i a = []
set_elem (x ∷ xs) zero a = a ∷ xs
set_elem (x ∷ xs) (suc i) a = x ∷ set_elem xs i a

-- The end of `account_tensor`, behind the reservation in an arena that `r` already shows.
unfoldable pub count_resident :
    Residency → ℕ → Option ResidencyError → Option ResidencyError × Residency
count_resident r bytes (some e) = (some e, r)
count_resident r bytes none =
    if ltb (sub64 u64_max r.non_ple_bytes) bytes then (some resident_overflow, r) else (
      none,
      record r {
        non_ple_bytes = add64 r.non_ple_bytes bytes;
        aligned_bytes = add64 r.aligned_bytes (align_up_u64 bytes resident_alignment);
      },
    )

unfoldable pub account_core : Residency → ℕ → Option ResidencyError × Residency
account_core r bytes =
    let out = arena_reserve r.core bytes in count_resident (record r { core = out.1 }) bytes out.0

-- `bank` is the arena behind the index, if the table has it.
unfoldable pub account_bank : Residency → ℕ → ℕ → Option Arena → Option ResidencyError × Residency
account_bank r bytes i none = (some bank_range, r)
account_bank r bytes i (some bank) =
    let out = arena_reserve bank bytes in
    count_resident (record r { expert_banks = set_elem r.expert_banks i out.1 }) bytes out.0

-- `bytes` are the tensor's.
unfoldable pub account_tensor : Residency → ℕ → Bool → ℕ → Option ResidencyError × Residency
account_tensor r bytes ple expert_bank =
    if ple
    then if ltb (sub64 u64_max r.ple_bytes) bytes
      then (some ple_overflow, r)
      else (none, record r { ple_bytes = add64 r.ple_bytes bytes })
    else if expert_bank == u32_max
    then account_core r bytes
    else if leb r.expert_bank_count expert_bank
    then (some bank_range, r)
    else account_bank r bytes expert_bank (get_elem? r.expert_banks expert_bank)
