-- ===== src/Types/Quorum.antt =====
-- `min_distinct_sealers` of lib.rs: the number of distinct sealers that makes a block safe.
use helios_bsc.Prelude.{Bytes, ℕ, ◌+◌, ◌*◌, ◌/◌, ◌%◌, ◌^◌, ◌≤◌, ◌<◌, arith, ◌==◌, if◌then◌else◌}

-- The hash and the state root are kept as bytes; the program writes them as hex texts.
pub record SafeHead : Type 0 where
  pub number : ℕ
  pub hash : Bytes
  pub state_root : Bytes
  pub distinct_sealers : ℕ
  pub required_sealers : ℕ

-- `2 * n_seal` is a `u32` product.
unfoldable pub min_distinct_sealers : ℕ → ℕ
min_distinct_sealers n_seal = if n_seal == 0 then 0 else 2 * n_seal % 2 ^ 32 / 3 + 1

-- For 0 < n < 2 ^ 31 the number of distinct sealers that makes a block safe is the least number
-- above two thirds of n, and it is at most n.
pub min_distinct_sealers-least :
    (n : ℕ)
    → 0 < n
    → n < 2 ^ 31
    → (2 * n < 3 * min_distinct_sealers n)
      × (3 * (min_distinct_sealers n) ≤ 2 * n + 3)
      × (min_distinct_sealers n ≤ n)
unfolding min_distinct_sealers
min_distinct_sealers-least n pos fits = ground arith
