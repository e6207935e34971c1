-- ===== src/Consensus/Snapshot/Refusal.antt =====
-- What a refused header leaves behind in snapshot.rs.
use helios_bsc.Prelude.{
  ℕ, ◌+◌, ◌-◌, ◌≤◌, ◌<◌, ◌≡◌, refl, ap, ◌∙◌, inl, inr, Bytes, Result, ok, err, arith, [], ◌∷◌, true,
  if◌then◌else◌, ◌&&◌, ◌||◌, min, Bool-cases, leb, ◌==◌, not, bytes_eq,
}
use native.Mathlib.Nat.{mod-eq_of_lt}
use helios_bsc.Prelude.Words.{u64_max, saturating_add, wrapping_add}
use helios_bsc.Consensus.Snapshot.Linked.{check_link-Linked}
use helios_bsc.Types.External.{External}
use helios_bsc.Types.Header.{RpcBlockHeader}
use helios_bsc.Consensus.Seal.Timing.{milli_timestamp}
use helios_bsc.Consensus.Snapshot.State.{Snapshot, SnapshotError, Recents, retain, remove}
use helios_bsc.Consensus.Snapshot.Rules.{delay, seen_enough, sign_recently, recent_epoch_sentinel}
use helios_bsc.Consensus.Snapshot.Apply.{apply_verified, expire_recent}
use helios_bsc.Consensus.Snapshot.Outcome.{
  Outcome, apply_verified-Outcome, refused_link, refused_content, bad_timestamp, applied,
}

pub wrapping_add-suc : {n : ℕ} → n < u64_max → wrapping_add n 1 ≡ n + 1
wrapping_add-suc fits = mod-eq_of_lt (omega arith)

-- An entry at the left bound or below is never counted.
seen_enough-remove :
    (key left turn : ℕ) (signer : Bytes) (seen : ℕ) (recents : Recents)
    → key ≤ left
    → seen_enough left turn signer seen (remove key recents)
      ≡ seen_enough left turn signer seen recents
unfolding seen_enough remove retain
seen_enough-remove key left turn signer seen [] below = refl
seen_enough-remove key left turn signer seen ((block, sealer) ∷ rest) below =
    let rest-eq = λ (k : ℕ). seen_enough-remove key left turn signer k rest below in
    elim (Bool-cases (block == key)) [
      | inl same ↦ let low : leb block left ≡ true = ground arith in rw (same, low) (rest-eq seen)
      | inr other ↦ rw other (
          ap
            (λ r.
              if (not (leb block left || bytes_eq sealer recent_epoch_sentinel)
                  && bytes_eq sealer signer)
                && leb turn (
                    if not (leb block left || bytes_eq sealer recent_epoch_sentinel)
                      && bytes_eq sealer signer
                    then min 255 (seen + 1)
                    else seen)
              then true
              else r)
            (rest-eq (
              if not (leb block left || bytes_eq sealer recent_epoch_sentinel)
                && bytes_eq sealer signer
              then min 255 (seen + 1)
              else seen)))
    ]

-- The slot that a header of the next number frees stands outside the window of `sign_recently`.
pub sign_recently-expire_recent :
    (s : Snapshot) (signer : Bytes)
    → s.number < u64_max
    → sign_recently (expire_recent s (s.number + 1)) signer ≡ sign_recently s signer
unfolding sign_recently expire_recent
sign_recently-expire_recent s signer fits =
    elim (Bool-cases (leb (saturating_add (delay s) 1) (s.number + 1))) [
      | inl due ↦ rw due (
          seen_enough-remove (s.number + 1 - saturating_add (delay s) 1) (s.number - delay s)
            s.turn_length signer 0 s.recents (ground arith))
      | inr early ↦ rw early refl
    ]

-- A state that a refused header may leave: only `recents` has moved, and no signer is judged otherwise.
pub record Unharmed (s s' : Snapshot) : Type 0 where
  pub only_recents : s' ≡ record s { recents = s'.recents }
  pub same_rule : (signer : Bytes) → sign_recently s' signer ≡ sign_recently s signer

pub expire_recent-fields :
    (s : Snapshot) (number : ℕ)
    → expire_recent s number ≡ record s { recents = (expire_recent s number).recents }
unfolding expire_recent
expire_recent-fields s number = ground arith

-- Where the snapshot's number is below the greatest u64 and the header has a millisecond timestamp
-- that decodes: when apply_verified returns an error, every field of the state but recents is
-- unchanged, and sign_recently judges every signer as it did before.
pub apply_verified-Unharmed :
    (x : External) (s : Snapshot) (header : RpcBlockHeader) (signer : Bytes) (m : ℕ)
    (e : SnapshotError)
    → s.number < u64_max
    → milli_timestamp x header ≡ ok m
    → (apply_verified x s header signer).0 ≡ err e
    → Unharmed s (apply_verified x s header signer).1
apply_verified-Unharmed x s header signer m e fits timed =
    go (apply_verified-Outcome x s header signer)
  where
    go :
        {r : Result SnapshotError (Unit {0})} {s' : Snapshot}
        → Outcome x s header signer r s'
        → r ≡ err e
        → Unharmed s s'
    go (refused_link e) q = record { only_recents = refl; same_rule = λ a. refl }
    go (refused_content link linked e) q =
        let next : link.number ≡ s.number + 1 =
          (check_link-Linked x s header signer link linked).next ∙ wrapping_add-suc fits in
        rw next (record {
          only_recents = expire_recent-fields s (s.number + 1);
          same_rule = λ a. sign_recently-expire_recent s a fits;
        })
    go (bad_timestamp link c linked checked failed) q = cc
    go (applied link c m' linked checked timed') q = cc
