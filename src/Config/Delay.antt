-- ===== src/Config/Delay.antt =====
-- `miner_history_check_len` of lib.rs: the activation delay of an epoch's validator set.
use helios_bsc.Prelude.{ℕ, ◌+◌, ◌*◌, ◌/◌, ◌^◌, ◌≤◌, ◌<◌, ◌≡◌, arith}
use helios_bsc.Config.{miner_history_check_len}

product-lt :
    (a t : ℕ) → a ≤ 2 ^ 31 → t < 2 ^ 31 → 0 < t → (0 < (a + 1) * t) × ((a + 1) * t < 2 ^ 64)
product-lt a t ha ht pos = grind arith

-- For 0 < n < 2 ^ 32 validators and a turn length 0 < t < 2 ^ 31 the activation delay does not
-- wrap: it is one block short of (n / 2 + 1) * t.
pub miner_history_check_len-exact :
    (n t : ℕ)
    → 0 < n
    → n < 2 ^ 32
    → 0 < t
    → t < 2 ^ 31
    → miner_history_check_len n t + 1 ≡ (n / 2 + 1) * t
unfolding miner_history_check_len
miner_history_check_len-exact n t hn fits ht small =
    ground (arith, product-lt (n / 2) t (omega arith) small ht)
