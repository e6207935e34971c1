-- ===== src/Consensus/Snapshot/Progress.antt =====
-- What an accepted header satisfies, and where it brings the state of snapshot.rs.
use helios_bsc.Prelude.{
  ℕ, ◌+◌, ◌≡◌, refl, sym, ap, ◌∙◌, Bytes, Result, ok, arith, Option, none, some, true, false, not,
  ensure-eq-ok, >>=-eq-ok, map_err, map_err-eq-ok, ◌<◌,
}
use helios_bsc.Prelude.Words.{u64_max}
use helios_bsc.Types.External.{External}
use helios_bsc.Types.Header.{RpcBlockHeader}
use helios_bsc.Types.Hex.{decode_u64, decode_hex_fixed}
use helios_bsc.Consensus.Seal.Timing.{milli_timestamp, verify_out_of_turn_backoff}
use helios_bsc.Consensus.Snapshot.State.{Snapshot, SnapshotError, Recents, seal, contains}
use helios_bsc.Consensus.Snapshot.Rules.{
  sign_recently, backoff_context, expected_difficulty, signed_or_unknown, inturn_validator,
  recents_window_walked, delay, n_seal,
}
use helios_bsc.Consensus.Snapshot.Linked.{check_link-Linked}
use helios_bsc.Consensus.Snapshot.Apply.{
  Link, Checked, apply_verified, expire_recent, check_content, commit, advance_tip,
}
use helios_bsc.Consensus.Snapshot.Refusal.{
  sign_recently-expire_recent, expire_recent-fields, wrapping_add-suc,
}
use helios_bsc.Consensus.Snapshot.Outcome.{
  Outcome, apply_verified-Outcome, refused_link, refused_content, bad_timestamp, applied,
}

-- `header` extends `s` by one block, and `s'` is the state behind it.
pub record Extends (x : External) (s : Snapshot) (header : RpcBlockHeader) (signer : Bytes)
    (s' : Snapshot) : Type 0 where
  pub next : s'.number ≡ s.number + 1
  pub numbered : decode_u64 header.number ≡ ok s'.number
  pub hashed : decode_hex_fixed x 32 header.hash ≡ ok s'.hash
  pub linked : decode_hex_fixed x 32 header.parent_hash ≡ ok s.hash
  pub member : contains s.validators signer ≡ true
  pub not_recent : sign_recently s signer ≡ false
  pub difficulty :
      s.enforce_inturn ≡ true → decode_u64 header.difficulty ≡ ok (expected_difficulty s signer)
  pub backed_off : verify_out_of_turn_backoff x (backoff_context s) header ≡ ok tt
  pub timed : (m : ℕ) × (milli_timestamp x header ≡ ok m) × (s'.last_milli ≡ some m)

-- `recents` matters to the backoff of the next header by `sign_recently` only.
module _ (s : Snapshot) (recents : Recents) where
  signed_or_unknown-recents :
      (v : Option Bytes)
      → ((a : Bytes) → sign_recently (record s { recents = recents }) a ≡ sign_recently s a)
      → signed_or_unknown (record s { recents = recents }) v ≡ signed_or_unknown s v
  signed_or_unknown-recents none same = refl
  signed_or_unknown-recents (some a) same = same a

  backoff_context-recents :
      ((a : Bytes) → sign_recently (record s { recents = recents }) a ≡ sign_recently s a)
      → backoff_context (record s { recents = recents }) ≡ backoff_context s
  unfolding backoff_context inturn_validator recents_window_walked delay n_seal
  backoff_context-recents same =
      ap (λ b. record (backoff_context s) { in_turn_signed_recently = b })
        (signed_or_unknown-recents (inturn_validator s) same)

backoff_context-expire_recent :
    (s : Snapshot)
    → s.number < u64_max
    → backoff_context (expire_recent s (s.number + 1)) ≡ backoff_context s
backoff_context-expire_recent s fits =
    let fields = expire_recent-fields s (s.number + 1) in
    ap backoff_context fields
    ∙ backoff_context-recents s (expire_recent s (s.number + 1)).recents
        (λ a. ap (λ t. sign_recently t a) (sym fields) ∙ sign_recently-expire_recent s a fits)

check_content-ok :
    (x : External) (s : Snapshot) (header : RpcBlockHeader) (signer : Bytes) (link : Link)
    (c : Checked)
    → check_content x s header signer link ≡ ok c
    → (sign_recently s signer ≡ false)
      × (verify_out_of_turn_backoff x (backoff_context s) header ≡ ok tt)
unfolding check_content
check_content-ok x s header signer link c e =
    let (fresh, e₁) = ensure-eq-ok (not (sign_recently s signer)) _ _ e in
    let (u, e₂, _) =
      >>=-eq-ok (map_err seal (verify_out_of_turn_backoff x (backoff_context s) header)) _ e₁ in
    (ground arith, map_err-eq-ok seal _ e₂)

commit-number :
    (s : Snapshot) (link : Link) (signer : Bytes) (c : Checked)
    → ((commit s link signer c).number ≡ link.number) × ((commit s link signer c).hash ≡ link.hash)
unfolding commit advance_tip
commit-number s link signer c = (refl, refl)

-- Where the snapshot's number is below the greatest u64 and apply_verified accepts a header: the
-- header's number and hash decode to the new number, which is the old number plus one, and the new
-- hash; its parent hash decodes to the old hash; the signer is in the validator set and has not
-- signed recently by the old state; its difficulty is the expected one where turns are enforced; it
-- passes the backoff rule in the context of the old state; and last_milli is the header's
-- millisecond timestamp.
pub apply_verified-Extends :
    (x : External) (s : Snapshot) (header : RpcBlockHeader) (signer : Bytes)
    → s.number < u64_max
    → (apply_verified x s header signer).0 ≡ ok tt
    → Extends x s header signer (apply_verified x s header signer).1
apply_verified-Extends x s header signer fits = go (apply_verified-Outcome x s header signer)
  where
    go :
        {r : Result SnapshotError (Unit {0})} {s' : Snapshot}
        → Outcome x s header signer r s'
        → r ≡ ok tt
        → Extends x s header signer s'
    go (refused_link e) q = cc
    go (refused_content link linked e) q = cc
    go (bad_timestamp link c linked checked failed) q = cc
    go (applied link c m linked checked timed) q =
        let l = check_link-Linked x s header signer link linked in
        let next : link.number ≡ s.number + 1 = l.next ∙ wrapping_add-suc fits in
        let (fresh, floored) =
          check_content-ok x (expire_recent s link.number) header signer link c checked in
        let (at, with_hash) = commit-number (expire_recent s link.number) link signer c in
        record {
          next = at ∙ next;
          numbered = l.decoded.number ∙ ap ok (sym at);
          hashed = l.decoded.hash ∙ ap ok (sym with_hash);
          linked = l.decoded.parent ∙ ap ok l.parent_hash;
          member = l.member;
          not_recent =
              sym (sign_recently-expire_recent s signer fits)
              ∙ ap (λ n. sign_recently (expire_recent s n) signer) (sym next)
              ∙ fresh;
          difficulty = λ on. l.difficulty_decoded ∙ ap ok (l.in_turn_rule on);
          backed_off =
              ap (λ b. verify_out_of_turn_backoff x b header)
                (sym (backoff_context-expire_recent s fits)
                  ∙ ap (λ n. backoff_context (expire_recent s n)) (sym next))
              ∙ floored;
          timed = (m, timed, refl);
        }
