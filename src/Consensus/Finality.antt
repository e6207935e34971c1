-- ===== src/Consensus/Finality.antt =====
-- crates/helios-bsc-consensus/src/finality.rs: the newest block that enough distinct sealers have
-- built on.
pub mod Safe
pub mod Live
use mathlib.Core.List.{reverse}
use helios_bsc.Prelude.{
  ℕ, ◌-◌, ◌%◌, ◌^◌, Bool, true, false, Option, none, some, List, [], ◌∷◌, Bytes, length, leb, ltb,
  bytes_eq, ◌||◌, if◌then◌else◌,
}
use helios_bsc.Config.{provider_proof_lookback}
use helios_bsc.Types.Header.{RpcBlockHeader}
use helios_bsc.Types.Quorum.{SafeHead, min_distinct_sealers}

pub record VerifiedBlock : Type 0 where
  pub number : ℕ
  pub hash : Bytes
  pub state_root : Bytes
  pub miner : Bytes
  pub milli_timestamp : ℕ
  pub gas_limit : ℕ
  pub header : Option RpcBlockHeader

-- `seen.iter().any(|a| a == miner)`
unfoldable pub any_eq : List Bytes → Bytes → Bool
any_eq [] miner = false
any_eq (a ∷ as') miner = bytes_eq a miner || any_eq as' miner

-- `seen` with a miner that is new; its order is not observed, and the newest entry comes first.
unfoldable pub see : List Bytes → Bytes → List Bytes
see seen miner = if any_eq seen miner then seen else miner ∷ seen

-- The parent of the oldest block of the window, if the chain holds it.
unfoldable pub head_at : ℕ → List Bytes → List VerifiedBlock → Option SafeHead
head_at threshold seen [] = none
head_at threshold seen (s ∷ older) = some (record {
  number = s.number;
  hash = s.hash;
  state_root = s.state_root;
  distinct_sealers = length seen % 2 ^ 32;
  required_sealers = threshold;
})

-- The loop; the blocks that are left come newest first.
unfoldable pub walk_back : ℕ → List Bytes → List VerifiedBlock → Option SafeHead
walk_back threshold seen [] = none
walk_back threshold seen (block ∷ older) =
    let seen' = see seen block.miner in
    let further = walk_back threshold seen' older in
    if leb threshold (length seen' % 2 ^ 32) then head_at threshold seen' older else further

unfoldable pub newest_safe : List VerifiedBlock → ℕ → Option SafeHead
newest_safe chain n_seal =
    if ltb (length chain) 2
    then none
    else walk_back (min_distinct_sealers n_seal) [] (reverse chain)

-- `saturating_sub`
unfoldable pub proof_lag : ℕ → ℕ → ℕ
proof_lag tip safe = tip - safe

unfoldable pub within_proof_window : ℕ → ℕ → Bool
unfolding proof_lag
within_proof_window tip safe = leb (proof_lag tip safe) provider_proof_lookback
