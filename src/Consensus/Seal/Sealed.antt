-- ===== src/Consensus/Seal/Sealed.antt =====
-- What `verify_seal_coinbase` of seal.rs establishes about a header that it accepts.
use mathlib.Core.Path.{subst}
use helios_bsc.Prelude.{
  ℕ, ◌+◌, ◌*◌, ◌/◌, ◌≤◌, ◌<◌, ◌≡◌, ◌⊎◌, inl, inr, refl, sym, ap, ◌∙◌, Option, none, some, Bytes,
  length, replicate, Bool-cases, leb, ltb, ◌==◌, ◌||◌, bytes_eq, bytes_eq→eq, arith, Result, ok,
  err, >>=-eq-ok, ensure-eq-ok, ensure-ok, map_err_step-eq-ok, ok-injective, leb→le, if_false,
  ltb→lt, get_or, ==_iff,
}
use helios_bsc.Prelude.Words.{saturating_add, saturating_mul}
use helios_bsc.Config.{diff_in_turn, diff_no_turn, lorentz_time, london_block}
use helios_bsc.Types.External.{External}
use helios_bsc.Types.Header.{RpcBlockHeader}
use helios_bsc.Types.Hex.{TypesError, decode_u64, decode_hex, decode_hex_fixed}
use helios_bsc.Types.Checkpoint.{bsc_mainnet_chain_id}
use helios_bsc.Consensus.Seal.{types}
use helios_bsc.Consensus.Seal.Hash.{header_hash, header_items, verify_header_hash}
use helios_bsc.Consensus.Seal.Timing.{milli_timestamp, assert_difficulty_range}
use helios_bsc.Consensus.Seal.Fields.{
  gas_limit_max, max_future_skew_secs, verify_mix, verify_timestamp_not_future, verify_base_fee,
  base_fee_at, base_fee_zero, verify_beacon_root, verify_withdrawals, verify_unsealed_fields,
  recover_signer, verify_seal_coinbase, extra_max, empty_uncle_hash,
}
use helios_bsc.Consensus.Seal.Layout.{Layout, verify_extra_layout-Layout}

-- The base fee is missing below London, and there with the value 0 from London on.
abbrev pub BaseFee : ℕ → Option Bytes → Type 0
BaseFee number none = number < london_block
BaseFee number (some raw) = (london_block ≤ number) × (decode_u64 raw ≡ ok 0)

pub record Unsealed (x : External) (now : ℕ) (header : RpcBlockHeader) : Type 0 where
  pub gas_limit : ℕ
  pub gas_used : ℕ
  pub limit : decode_u64 header.gas_limit ≡ ok gas_limit
  pub used : decode_u64 header.gas_used ≡ ok gas_used
  pub within : gas_used ≤ gas_limit
  pub bounded : gas_limit ≤ gas_limit_max
  pub no_uncles : decode_hex_fixed x 32 header.sha3_uncles ≡ ok empty_uncle_hash
  pub nonce : decode_hex_fixed x 8 header.nonce ≡ ok (replicate 8 0)
  pub layout : Layout x header
  pub base_fee : BaseFee layout.number header.base_fee_per_gas
  pub not_future : layout.time ≤ now + max_future_skew_secs
  pub milli : (m : ℕ) × (milli_timestamp x header ≡ ok m) × (m / 1000 ≡ layout.time)

verify_timestamp_not_future-le :
    (header : RpcBlockHeader) (now time : ℕ)
    → decode_u64 header.timestamp ≡ ok time
    → verify_timestamp_not_future header now ≡ ok tt
    → time ≤ now + max_future_skew_secs
unfolding verify_timestamp_not_future
verify_timestamp_not_future-le header now time timed e =
    let (t, timed', e₁) = map_err_step-eq-ok types (decode_u64 header.timestamp) _ e in
    let same : t ≡ time = ok-injective (sym timed' ∙ timed) in
    let fits = leb→le t (saturating_add now max_future_skew_secs) (ensure-ok _ _ e₁) in ground arith

base_fee_zero-ok : (r : Result TypesError ℕ) → base_fee_zero r ≡ ok tt → r ≡ ok 0
base_fee_zero-ok (ok fee) e = ap ok ((==_iff fee 0).0 (ensure-ok (fee == 0) _ e))
base_fee_zero-ok (err d) e = cc

base_fee_at-BaseFee :
    (number : ℕ) (fee : Option Bytes) → base_fee_at number fee ≡ ok tt → BaseFee number fee
unfolding base_fee_at
base_fee_at-BaseFee number none e = ltb→lt number london_block (ensure-ok _ _ e)
base_fee_at-BaseFee number (some raw) e =
    let (late, zero_fee) = ensure-eq-ok (leb london_block number) _ _ e in
    (leb→le london_block number late, base_fee_zero-ok (decode_u64 raw) zero_fee)

verify_base_fee-BaseFee :
    (header : RpcBlockHeader) (number : ℕ)
    → decode_u64 header.number ≡ ok number
    → verify_base_fee header ≡ ok tt
    → BaseFee number header.base_fee_per_gas
unfolding verify_base_fee
verify_base_fee-BaseFee header number numbered e =
    let (n, numbered', e₁) = map_err_step-eq-ok types (decode_u64 header.number) _ e in
    let same : n ≡ number = ok-injective (sym numbered' ∙ numbered) in
    subst (λ n. BaseFee n header.base_fee_per_gas) same
      (base_fee_at-BaseFee n header.base_fee_per_gas e₁)

milli_timestamp-ok :
    (x : External) (header : RpcBlockHeader) (time : ℕ) (mix : Bytes)
    → decode_u64 header.timestamp ≡ ok time
    → decode_hex_fixed x 32 header.mix_hash ≡ ok mix
    → (m : ℕ) × (milli_timestamp x header ≡ ok m) × (time < lorentz_time → m ≡ time * 1000)
unfolding milli_timestamp
milli_timestamp-ok x header time mix timed mixed = elim (Bool-cases (ltb time lorentz_time)) [
  | inl early ↦ (saturating_mul time 1000, rw (timed, mixed, early) refl, λ h. ground arith)
  | inr late ↦ (
    saturating_add (saturating_mul time 1000) (get_or mix 30 0 * 256 + get_or mix 31 0),
    rw (timed, mixed, late) refl,
    λ h. absurd (ground arith),
  )
]

verify_mix-milli :
    (x : External) (header : RpcBlockHeader) (time : ℕ)
    → decode_u64 header.timestamp ≡ ok time
    → verify_mix x header ≡ ok tt
    → (m : ℕ) × (milli_timestamp x header ≡ ok m) × (m / 1000 ≡ time)
unfolding verify_mix
verify_mix-milli x header time timed e =
    let (t, timed', e₁) = map_err_step-eq-ok types (decode_u64 header.timestamp) _ e in
    let same : t ≡ time = ok-injective (sym timed' ∙ timed) in
    let (mix, mixed, e₂) = map_err_step-eq-ok types (decode_hex_fixed x 32 header.mix_hash) _ e₁ in
    elim (Bool-cases (ltb t lorentz_time)) [
      | inl early ↦
          let (m, at, exact) = milli_timestamp-ok x header time mix timed mixed in
          let early' : m ≡ time * 1000 = exact (ground arith) in (m, at, ground arith)
      | inr late ↦
          let (m, at, e₃) = >>=-eq-ok (milli_timestamp x header) _ (sym (if_false _ _ late) ∙ e₂) in
          (m, at, (==_iff (m / 1000) t).0 (ensure-ok _ _ e₃) ∙ same)
    ]

pub verify_unsealed_fields-Unsealed :
    (x : External) (now : ℕ) (header : RpcBlockHeader)
    → verify_unsealed_fields x now header ≡ ok tt
    → Unsealed x now header
unfolding verify_unsealed_fields
verify_unsealed_fields-Unsealed x now header e =
    let (raw, read, e₁) = map_err_step-eq-ok types (decode_hex x header.extra_data) _ e in
    let (short, e₂) = ensure-eq-ok (leb (length raw) extra_max) _ _ e₁ in
    let (uncles, uncled, e₃) =
      map_err_step-eq-ok types (decode_hex_fixed x 32 header.sha3_uncles) _ e₂ in
    let (no_uncles, e₄) = ensure-eq-ok (bytes_eq uncles empty_uncle_hash) _ _ e₃ in
    let (gas_limit, limited, e₅) = map_err_step-eq-ok types (decode_u64 header.gas_limit) _ e₄ in
    let (bounded, e₆) = ensure-eq-ok (leb gas_limit gas_limit_max) _ _ e₅ in
    let (gas_used, used, e₇) = map_err_step-eq-ok types (decode_u64 header.gas_used) _ e₆ in
    let (within, e₈) = ensure-eq-ok (leb gas_used gas_limit) _ _ e₇ in
    let (u₁, fee, e₉) = >>=-eq-ok (verify_base_fee header) _ e₈ in
    let (u₂, mixed, f₁) = >>=-eq-ok (verify_mix x header) _ e₉ in
    let (u₃, rooted, f₂) = >>=-eq-ok (verify_beacon_root x header) _ f₁ in
    let (u₄, withdrawn, f₃) = >>=-eq-ok (verify_withdrawals x header.withdrawals_root) _ f₂ in
    let (nonce, nonced, f₄) = map_err_step-eq-ok types (decode_hex_fixed x 8 header.nonce) _ f₃ in
    let (zeros, f₅) = ensure-eq-ok (bytes_eq nonce (replicate 8 0)) _ _ f₄ in
    let (u₅, present, f₆) = >>=-eq-ok (verify_timestamp_not_future header now) _ f₅ in
    let layout = verify_extra_layout-Layout x header f₆ in
    record {
      gas_limit = gas_limit;
      gas_used = gas_used;
      limit = limited;
      used = used;
      within = leb→le gas_used gas_limit within;
      bounded = leb→le gas_limit gas_limit_max bounded;
      no_uncles = uncled ∙ ap ok (bytes_eq→eq uncles empty_uncle_hash no_uncles);
      nonce = nonced ∙ ap ok (bytes_eq→eq nonce (replicate 8 0) zeros);
      layout = layout;
      base_fee = verify_base_fee-BaseFee header layout.number layout.numbered fee;
      not_future = verify_timestamp_not_future-le header now layout.time layout.timed present;
      milli = verify_mix-milli x header layout.time layout.timed mixed;
    }

-- The header passes the checks on its fields, `signer` is its miner and the recovered sealer, its
-- hash is the hash of its content, and its difficulty is one of the two.
pub record Sealed (x : External) (now : ℕ) (header : RpcBlockHeader) (signer : Bytes) : Type 0 where
  pub unsealed : Unsealed x now header
  pub difficulty : ℕ
  pub decoded : decode_u64 header.difficulty ≡ ok difficulty
  pub in_range : (difficulty ≡ diff_no_turn) ⊎ (difficulty ≡ diff_in_turn)
  pub recovered : recover_signer x header bsc_mainnet_chain_id ≡ ok signer
  pub miner : decode_hex_fixed x 20 header.miner ≡ ok signer
  pub content : Bytes
  pub computed : header_hash x header ≡ ok content
  pub claimed : decode_hex_fixed x 32 header.hash ≡ ok content
  pub state_root : Bytes
  pub rooted : decode_hex_fixed x 32 header.state_root ≡ ok state_root

header_hash-state_root :
    (x : External) (header : RpcBlockHeader) (h : Bytes)
    → header_hash x header ≡ ok h
    → (root : Bytes) × (decode_hex_fixed x 32 header.state_root ≡ ok root)
unfolding header_hash header_items
header_hash-state_root x header h e =
    let (items, listed, _) = >>=-eq-ok (header_items x header) _ e in
    let (parent, _, e₁) =
      map_err_step-eq-ok types (decode_hex_fixed x 32 header.parent_hash) _ listed in
    let (uncle, _, e₂) = map_err_step-eq-ok types (decode_hex_fixed x 32 header.sha3_uncles) _ e₁ in
    let (miner, _, e₃) = map_err_step-eq-ok types (decode_hex_fixed x 20 header.miner) _ e₂ in
    let (root, rooted, e₄) =
      map_err_step-eq-ok types (decode_hex_fixed x 32 header.state_root) _ e₃ in
    (root, rooted)

pub verify_header_hash-ok :
    (x : External) (header : RpcBlockHeader) (h : Bytes)
    → verify_header_hash x header ≡ ok h
    → (header_hash x header ≡ ok h) × (decode_hex_fixed x 32 header.hash ≡ ok h)
unfolding verify_header_hash
verify_header_hash-ok x header h e =
    let (computed, at, e₁) = >>=-eq-ok (header_hash x header) _ e in
    let (claimed, decoded, e₂) =
      map_err_step-eq-ok types (decode_hex_fixed x 32 header.hash) _ e₁ in
    let (same, e₃) = ensure-eq-ok (bytes_eq computed claimed) _ _ e₂ in
    let it : computed ≡ h = ok-injective e₃ in
    (at ∙ ap ok it, decoded ∙ ap ok (sym (bytes_eq→eq computed claimed same) ∙ it))

-- When verify_seal_coinbase accepts a header with the signer it returns: the signer is the
-- recovered sealer and decodes from the miner field; the hash field decodes to header_hash of the
-- header; the difficulty is one of the two; the gas used is at most the gas limit, which is below 2
-- ^ 63; there are no uncles and the nonce is zero; the base fee is missing below the London block
-- and zero from it on; the time is at most 15 seconds ahead of the clock and is the millisecond
-- timestamp divided by 1000; the extraData parses, and on an epoch block it lists at least one
-- validator, no address twice, and in the Bohr layout a turn length between 1 and 64.
pub verify_seal_coinbase-Sealed :
    (x : External) (now : ℕ) (header : RpcBlockHeader) (signer : Bytes)
    → verify_seal_coinbase x now header ≡ ok signer
    → Sealed x now header signer
unfolding verify_seal_coinbase assert_difficulty_range
verify_seal_coinbase-Sealed x now header signer e =
    let (u, fields, e₁) = >>=-eq-ok (verify_unsealed_fields x now header) _ e in
    let (difficulty, decoded, e₂) = map_err_step-eq-ok types (decode_u64 header.difficulty) _ e₁ in
    let (in_range, e₃) =
      ensure-eq-ok (difficulty == diff_no_turn || difficulty == diff_in_turn) _ _ e₂ in
    let (recovered, from_seal, e₄) =
      >>=-eq-ok (recover_signer x header bsc_mainnet_chain_id) _ e₃ in
    let (miner, mined, e₅) = map_err_step-eq-ok types (decode_hex_fixed x 20 header.miner) _ e₄ in
    let (same, e₆) = ensure-eq-ok (bytes_eq recovered miner) _ _ e₅ in
    let (content, hashed, e₇) = >>=-eq-ok (verify_header_hash x header) _ e₆ in
    let it : recovered ≡ signer = ok-injective e₇ in
    let (computed, claimed) = verify_header_hash-ok x header content hashed in
    let (root, rooted) = header_hash-state_root x header content computed in
    record {
      unsealed = verify_unsealed_fields-Unsealed x now header fields;
      difficulty = difficulty;
      decoded = decoded;
      in_range = ground arith;
      recovered = from_seal ∙ ap ok it;
      miner = mined ∙ ap ok (sym (bytes_eq→eq recovered miner same) ∙ it);
      content = content;
      computed = computed;
      claimed = claimed;
      state_root = root;
      rooted = rooted;
    }
