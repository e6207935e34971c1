-- ===== src/Consensus/Snapshot/Outcome.antt =====
-- The outcomes of `apply_verified` of snapshot.rs, taken apart.
use helios_bsc.Prelude.{ℕ, ◌≡◌, refl, ◌⊎◌, inl, inr, Bytes, Result, ok, err, some}
use helios_bsc.Types.External.{External}
use helios_bsc.Types.Header.{RpcBlockHeader}
use helios_bsc.Consensus.Seal.{SealError}
use helios_bsc.Consensus.Seal.Timing.{milli_timestamp}
use helios_bsc.Consensus.Snapshot.State.{Snapshot, SnapshotError, seal}
use helios_bsc.Consensus.Snapshot.Apply.{
  Link, Checked, check_link, check_content, expire_recent, commit, set_last_milli, apply_content,
  apply_verified,
}

-- How far a call of `apply_verified` came: `Outcome x s header signer r s'` for its result `r` and the
-- state `s'` that it leaves.
pub data Outcome (x : External) (s : Snapshot) (header : RpcBlockHeader) (signer : Bytes)
    : Result SnapshotError (Unit {0}) → Snapshot → Type 0 where
  refused_link :
      {e : SnapshotError}
      → check_link x s header signer ≡ err e
      → Outcome x s header signer (err e) s
  refused_content :
      {e : SnapshotError} (link : Link)
      → check_link x s header signer ≡ ok link
      → check_content x (expire_recent s link.number) header signer link ≡ err e
      → Outcome x s header signer (err e) (expire_recent s link.number)
  bad_timestamp :
      {e : SealError} (link : Link) (c : Checked)
      → check_link x s header signer ≡ ok link
      → check_content x (expire_recent s link.number) header signer link ≡ ok c
      → milli_timestamp x header ≡ err e
      → Outcome x s header signer
          (err (seal e))
          (commit (expire_recent s link.number) link signer c)
  applied :
      (link : Link) (c : Checked) (m : ℕ)
      → check_link x s header signer ≡ ok link
      → check_content x (expire_recent s link.number) header signer link ≡ ok c
      → milli_timestamp x header ≡ ok m
      → Outcome x s header signer
          (ok tt)
          (record (commit (expire_recent s link.number) link signer c) { last_milli = some m })

pub Result-cases {ℓ} :
    {E : Type 0} {A : Type ℓ} (r : Result E A) → ((a : A) × (r ≡ ok a)) ⊎ ((e : E) × (r ≡ err e))
Result-cases (ok a) = inl (a, refl)
Result-cases (err e) = inr (e, refl)

module _ (x : External) (s : Snapshot) (header : RpcBlockHeader) (signer : Bytes) where
  module _ (link : Link) (linked : check_link x s header signer ≡ ok link) where
    last_milli-Outcome :
        (c : Checked)
        → check_content x (expire_recent s link.number) header signer link ≡ ok c
        → let s' = commit (expire_recent s link.number) link signer c in
          Outcome x s header signer (set_last_milli x s' header).0 (set_last_milli x s' header).1
    unfolding set_last_milli
    last_milli-Outcome c checked = elim (Result-cases (milli_timestamp x header)) [
      | inr (e, failed) ↦ rw (failed, set_last_milli) (bad_timestamp link c linked checked failed)
      | inl (m, timed) ↦ rw (timed, set_last_milli) (applied link c m linked checked timed)
    ]

    content-Outcome :
        let s' = expire_recent s link.number in
        Outcome x s header signer
          (apply_content x s' header signer link).0
          (apply_content x s' header signer link).1
    unfolding apply_content
    content-Outcome =
        elim (Result-cases (check_content x (expire_recent s link.number) header signer link)) [
          | inr (e, refused) ↦ rw (refused, apply_content) (refused_content link linked refused)
          | inl (c, checked) ↦ rw (checked, apply_content) (last_milli-Outcome c checked)
        ]

  pub apply_verified-Outcome :
      Outcome x s header signer
        (apply_verified x s header signer).0
        (apply_verified x s header signer).1
  unfolding apply_verified
  apply_verified-Outcome = elim (Result-cases (check_link x s header signer)) [
    | inr (e, refused) ↦ rw (refused, apply_verified) (refused_link refused)
    | inl (link, linked) ↦ rw (linked, apply_verified) (content-Outcome link linked)
  ]
