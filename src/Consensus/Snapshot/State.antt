-- ===== src/Consensus/Snapshot/State.antt =====
-- The state of snapshot.rs, its errors, and the maps and orders that it is built on.
use helios_bsc.Prelude.{
  ℕ, Bool, true, false, not, Option, List, [], ◌∷◌, Bytes, ltb, ◌==◌, bytes_eq, ◌&&◌, ◌||◌,
  if◌then◌else◌,
}
use helios_bsc.Config.Extra.{ExtraError, SealingValidator}
use helios_bsc.Types.Hex.{TypesError}
use helios_bsc.Consensus.Seal.{SealError}
use helios_bsc.Consensus.Vote.{VoteError, VoteData}

-- The addresses inside `Unauthorized` and `RecentlySigned` are kept as bytes.
pub data SnapshotError : Type 0 where
  seal : SealError → SnapshotError
  extra : ExtraError → SnapshotError
  types : TypesError → SnapshotError
  number_mismatch : ℕ → ℕ → SnapshotError
  parent_hash_mismatch : SnapshotError
  unauthorized : Bytes → SnapshotError
  missing_epoch_extra : ℕ → SnapshotError
  bad_difficulty : ℕ → SnapshotError
  difficulty_mismatch : ℕ → ℕ → SnapshotError
  recently_signed : Bytes → SnapshotError
  vote : VoteError → SnapshotError
  attestation_target : ℕ → ℕ → SnapshotError
  attestation_target_hash : SnapshotError
  attestation_source : ℕ → ℕ → SnapshotError
  attestation_source_hash : SnapshotError
  not_epoch_boundary : ℕ → ℕ → SnapshotError
  epoch_headers_not_adjacent : ℕ → ℕ → ℕ → SnapshotError
  seed_epoch_mismatch : ℕ → ℕ → SnapshotError
  seed_after_walk : ℕ → SnapshotError

pub record PendingEpoch : Type 0 where
  pub epoch_block : ℕ
  pub activate_at : ℕ
  pub validators : List Bytes
  pub vote_keys : List Bytes
  pub turn_length : ℕ

-- `HashMap<u64, [u8; 20]>`, block number to sealer, as an association list.
abbrev pub Recents : Type 0
Recents = List (ℕ × Bytes)

pub record Snapshot : Type 0 where
  pub number : ℕ
  pub hash : Bytes
  pub epoch_length : ℕ
  pub turn_length : ℕ
  pub validators : List Bytes
  pub pending : Option PendingEpoch
  pub enforce_inturn : Bool
  pub recents : Recents
  pub vote_set : List SealingValidator
  pub prev_vote_set : List SealingValidator
  pub set_changed_at : ℕ
  pub attestation : Option VoteData
  pub last_milli : Option ℕ
  pub walk_start : ℕ
  pub ancestors : List (ℕ × Bytes)

-- `HashMap::retain` by the key, `remove` and `insert`.
unfoldable pub retain : (ℕ → Bool) → Recents → Recents
retain keep [] = []
retain keep ((block, sealer) ∷ rest) =
    if keep block then (block, sealer) ∷ retain keep rest else retain keep rest

unfoldable pub remove : ℕ → Recents → Recents
unfolding retain
remove key = retain (λ block. not (block == key))

unfoldable pub insert : ℕ → Bytes → Recents → Recents
unfolding remove
insert key sealer recents = (key, sealer) ∷ remove key recents

-- The lexicographic order of byte arrays.
unfoldable pub bytes_leb : Bytes → Bytes → Bool
bytes_leb [] ys = true
bytes_leb (x ∷ xs) [] = false
bytes_leb (x ∷ xs) (y ∷ ys) = ltb x y || (x == y && bytes_leb xs ys)

-- `sort_by_key`, a stable sort: an equal key that came first stays first.
module _ {ℓ} {A : Type ℓ} (key : A → Bytes) where
  unfoldable pub insert_by_key : A → List A → List A
  insert_by_key a [] = a ∷ []
  insert_by_key a (b ∷ bs) =
      if bytes_leb (key a) (key b) then a ∷ b ∷ bs else b ∷ insert_by_key a bs

  unfoldable pub sort_by_key : List A → List A
  unfolding insert_by_key
  sort_by_key [] = []
  sort_by_key (a ∷ as') = insert_by_key a (sort_by_key as')

-- `binary_search(..).is_ok()` on a slice that is sorted.
unfoldable pub contains : List Bytes → Bytes → Bool
contains [] addr = false
contains (v ∷ vs) addr = bytes_eq v addr || contains vs addr
