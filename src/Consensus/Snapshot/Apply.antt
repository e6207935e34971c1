-- ===== src/Consensus/Snapshot/Apply.antt =====
-- `apply_verified` of snapshot.rs: the checks of a header, and the changes of the state in the order
-- of the code. The state comes back beside an error too, since one check stands behind a change.
use helios_bsc.Prelude.{
  ℕ, ◌-◌, ◌/◌, ◌%◌, Bool, not, Option, none, some, List, [], ◌∷◌, ◌++◌, map, Bytes, length, drop,
  leb, ◌==◌, bytes_eq, ◌&&◌, ◌||◌, if◌then◌else◌, Result, ok, err, ◌>>=◌, ◌>>◌, ensure, map_err,
}
use helios_bsc.Prelude.Words.{u64_max, saturating_add, wrapping_add}
use helios_bsc.Config.{
  bohr, diff_in_turn, diff_no_turn, miner_history_check_len, maxwell_time,
  k_ancestor_generation_depth,
}
use helios_bsc.Config.Extra.{SealingValidator, ParsedExtra, parse_extra}
use helios_bsc.Types.External.{External}
use helios_bsc.Types.Header.{RpcBlockHeader}
use helios_bsc.Types.Hex.{decode_u64, decode_hex, decode_hex_fixed}
use helios_bsc.Consensus.Seal.Timing.{milli_timestamp, verify_out_of_turn_backoff}
use helios_bsc.Consensus.Vote.{VoteData}
use helios_bsc.Consensus.Snapshot.State.{
  Snapshot, SnapshotError, PendingEpoch, seal, extra, types, number_mismatch, parent_hash_mismatch,
  unauthorized, missing_epoch_extra, bad_difficulty, difficulty_mismatch, recently_signed, remove,
  insert, sort_by_key, contains,
}
use helios_bsc.Consensus.Snapshot.Rules.{
  n_seal, delay, expected_difficulty, sign_recently, backoff_context, advance_epoch_length,
  recent_epoch_sentinel,
}
use helios_bsc.Consensus.Snapshot.Attest.{
  adopt_attestation, prune_recents_to_finalized, check_attestation,
}

-- The fields of a header that `apply_verified` decodes first.
pub record Link : Type 0 where
  pub number : ℕ
  pub time : ℕ
  pub parent : Bytes
  pub hash : Bytes

-- What the checks hand to the changes: the parsed `extraData`, and the attestation to adopt.
pub record Checked : Type 0 where
  pub parsed : ParsedExtra
  pub adopted : Option VoteData

-- `number - limit` where the subtraction does not wrap.
unfoldable pub expire_recent : Snapshot → ℕ → Snapshot
expire_recent s number =
    let limit = saturating_add (delay s) 1 in
    if leb limit number then record s { recents = remove (number - limit) s.recents } else s

abbrev pub turn_or : ℕ → Option ℕ → ℕ
turn_or turn none = turn
turn_or turn (some t) = t

unfoldable pub epoch_pending : Snapshot → ℕ → ParsedExtra → PendingEpoch
epoch_pending s number parsed =
    let vals = sort_by_key (λ (v : SealingValidator). v.address) parsed.validators in
    record {
      epoch_block = number;
      activate_at = wrapping_add number (miner_history_check_len (n_seal s) s.turn_length);
      validators = map (λ (v : SealingValidator). v.address) vals;
      vote_keys = map (λ (v : SealingValidator). v.vote_key) vals;
      turn_length = turn_or s.turn_length parsed.turn_length;
    }

unfoldable pub is_epoch : Snapshot → ℕ → Bool
is_epoch s number = number % s.epoch_length == 0

unfoldable pub announce_epoch : Snapshot → ℕ → ParsedExtra → Snapshot
announce_epoch s number parsed =
    if is_epoch s number then record s { pending = some (epoch_pending s number parsed) } else s

unfoldable pub adopt_if : Option VoteData → Snapshot → Snapshot
adopt_if none s = s
adopt_if (some vote) s = adopt_attestation s vote

-- `validators.iter().zip(&vote_keys)`
unfoldable pub zip_validators : List Bytes → List Bytes → List SealingValidator
zip_validators [] keys = []
zip_validators (a ∷ as') [] = []
zip_validators (a ∷ as') (k ∷ ks) = record { address = a; vote_key = k } ∷ zip_validators as' ks

-- The switch to the set that was pending; `checked_div` fails on an epoch length of 0 only.
unfoldable pub activate : Snapshot → ℕ → PendingEpoch → Snapshot
activate s number pending = record s {
  prev_vote_set = s.vote_set;
  vote_set =
      if length pending.vote_keys == length pending.validators
      then zip_validators pending.validators pending.vote_keys
      else [];
  set_changed_at = number;
  validators = pending.validators;
  turn_length = pending.turn_length;
  pending = none;
  recents =
      if s.epoch_length == 0
      then []
      else insert (u64_max - number / s.epoch_length) recent_epoch_sentinel [];
}

abbrev pub activate_if : Snapshot → ℕ → Option PendingEpoch → Snapshot
activate_if s number none = s
activate_if s number (some p) = if number == p.activate_at then activate s number p else s

unfoldable pub activate_due : Snapshot → ℕ → Snapshot
activate_due s number = activate_if s number s.pending

-- The newest entries, `k_ancestor_generation_depth` of them.
unfoldable pub push_ancestor : List (ℕ × Bytes) → ℕ × Bytes → List (ℕ × Bytes)
push_ancestor ancestors entry =
    let pushed = ancestors ++ entry ∷ [] in
    drop (length pushed - k_ancestor_generation_depth) pushed

unfoldable pub prune_if_maxwell : ℕ → Snapshot → Snapshot
prune_if_maxwell time s = if leb maxwell_time time then prune_recents_to_finalized s else s

unfoldable pub record_sealer : Snapshot → ℕ → Bytes → Snapshot
record_sealer s number signer = record s { recents = insert number signer s.recents }

unfoldable pub advance_tip : Snapshot → ℕ → Bytes → Snapshot
advance_tip s number hash = record s {
  number = number;
  hash = hash;
  ancestors = push_ancestor s.ancestors (number, hash);
}

-- Every change of the state behind the last check, up to `last_milli`.
unfoldable pub commit : Snapshot → Link → Bytes → Checked → Snapshot
commit s link signer c =
    let announced = announce_epoch s link.number c.parsed in
    let voted = adopt_if c.adopted announced in
    let recorded = record_sealer voted link.number signer in
    let pruned = prune_if_maxwell link.time recorded in
    let climbed = advance_epoch_length pruned link.number link.time in
    let switched = activate_due climbed link.number in advance_tip switched link.number link.hash

module _ (x : External) where
  unfoldable pub decode_link : RpcBlockHeader → Result SnapshotError Link
  decode_link header = do
    number ← map_err types (decode_u64 header.number)
    time ← map_err types (decode_u64 header.timestamp)
    parent ← map_err types (decode_hex_fixed x 32 header.parent_hash)
    hash ← map_err types (decode_hex_fixed x 32 header.hash)
    ok (record { number = number; time = time; parent = parent; hash = hash })

  -- The checks in front of the first change.
  unfoldable pub check_link : Snapshot → RpcBlockHeader → Bytes → Result SnapshotError Link
  check_link s header signer = do
    link ← decode_link header
    ensure (link.number == wrapping_add s.number 1)
        (number_mismatch (wrapping_add s.number 1) link.number)
    ensure (bytes_eq link.parent s.hash) parent_hash_mismatch
    ensure (contains s.validators signer) (unauthorized signer)
    difficulty ← map_err types (decode_u64 header.difficulty)
    ensure (difficulty == diff_no_turn || difficulty == diff_in_turn) (bad_difficulty difficulty)
    let want = expected_difficulty s signer
    ensure (not s.enforce_inturn || difficulty == want) (difficulty_mismatch difficulty want)
    ok link

  -- The checks between `recents.remove` and the changes.
  unfoldable pub check_content :
      Snapshot → RpcBlockHeader → Bytes → Link → Result SnapshotError Checked
  check_content s header signer link = do
    ensure (not (sign_recently s signer)) (recently_signed signer)
    map_err seal (verify_out_of_turn_backoff x (backoff_context s) header)
    raw ← map_err types (decode_hex x header.extra_data)
    parsed ← map_err extra (parse_extra raw bohr (is_epoch s link.number))
    adopted ← check_attestation x s parsed.attestation link.number link.time
    ensure (not (is_epoch s link.number && length parsed.validators == 0))
        (missing_epoch_extra link.number)
    ok (record { parsed = parsed; adopted = adopted })

  -- `self.last_milli = Some(milli_timestamp(header)?)`
  unfoldable pub set_last_milli :
      Snapshot → RpcBlockHeader → Result SnapshotError (Unit {0}) × Snapshot
  set_last_milli s header = elim (milli_timestamp x header) [
    | err e ↦ (err (seal e), s)
    | ok m ↦ (ok tt, record s { last_milli = some m })
  ]

  unfoldable pub apply_content :
      Snapshot → RpcBlockHeader → Bytes → Link → Result SnapshotError (Unit {0}) × Snapshot
  apply_content s header signer link = elim (check_content s header signer link) [
    | err e ↦ (err e, s)
    | ok c ↦ set_last_milli (commit s link signer c) header
  ]

  unfoldable pub apply_verified :
      Snapshot → RpcBlockHeader → Bytes → Result SnapshotError (Unit {0}) × Snapshot
  apply_verified s header signer = elim (check_link s header signer) [
    | err e ↦ (err e, s)
    | ok link ↦ apply_content (expire_recent s link.number) header signer link
  ]
