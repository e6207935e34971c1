-- ===== src/Consensus/Vote/Quorum.antt =====
-- The quorum behind an attestation that vote.rs accepts.
use helios_bsc.Prelude.{
  ℕ, zero, suc, ◌+◌, ◌*◌, ◌/◌, ◌%◌, ◌^◌, ◌≤◌, ◌<◌, ◌≡◌, ◌∙◌, ◌&&◌, inl, inr, refl, sym, ap, min,
  true, Bool-cases, Option, none, some, List, [], ◌∷◌, length, get_elem?, leb, ◌==◌, not,
  if◌then◌else◌, ok, ok_or, ensure-eq-ok, ensure-ok, >>=-eq-ok, ok-injective, leb→le, arith,
}
use mathlib.Core.Path.{subst}
use helios_bsc.Config.Extra.{SealingValidator}
use helios_bsc.Types.External.{External}
use helios_bsc.Consensus.Vote.{
  VoteAttestation, vote_hash, min_votes_for_finality, invalid_vote_key, invalid_signature,
  aggregate_failed, max_attestation_extra_len,
}
use helios_bsc.Consensus.Vote.Verify.{
  count_ones, set_bits, voted_indices, keys_at, is_empty, validator_at,
  verify_attestation_signature,
}

-- Strictly ascending indices, from `lo` on and below `hi`.
abbrev pub Ascending : ℕ → ℕ → List ℕ → Type 0
Ascending lo hi [] = Unit
Ascending lo hi (i ∷ is) = (lo ≤ i) × (i < hi) × Ascending (i + 1) hi is

Ascending-weaken : (lo hi : ℕ) (is : List ℕ) → Ascending (lo + 1) hi is → Ascending lo hi is
Ascending-weaken lo hi [] a = tt
Ascending-weaken lo hi (i ∷ is) (low, high, rest) = (omega arith, high, rest)

pub set_bits-Ascending :
    (k from set hi : ℕ) → from + k ≤ hi → Ascending from hi (set_bits k from set)
unfolding set_bits
set_bits-Ascending zero from set hi fits = tt
set_bits-Ascending (suc k) from set hi fits =
    let rest = set_bits-Ascending k (from + 1) (set / 2) hi (omega arith) in
    elim (Bool-cases (set % 2 == 1)) [
      | inl on ↦ rw on (omega arith, omega arith, rest)
      | inr off ↦ rw off (Ascending-weaken from hi (set_bits k (from + 1) (set / 2)) rest)
    ]

length-set_bits : (k from set : ℕ) → length (set_bits k from set) ≡ count_ones k set
unfolding set_bits count_ones
length-set_bits zero from set = refl
length-set_bits (suc k) from set =
    let rest = length-set_bits k (from + 1) (set / 2) in
    elim (Bool-cases (set % 2 == 1)) [
      | inl on ↦ rw on (ground arith)
      | inr off ↦ rw off (ground arith)
    ]

-- The number of bits, of the `k` lowest, that are set in `a` and in `b`.
unfoldable pub common_ones : ℕ → ℕ → ℕ → ℕ
common_ones zero a b = 0
common_ones (suc k) a b =
    (if a % 2 == 1 && b % 2 == 1 then 1 else 0) + common_ones k (a / 2) (b / 2)

count_ones-common_ones : (k a b : ℕ) → count_ones k a + count_ones k b ≤ k + common_ones k a b
unfolding count_ones common_ones
count_ones-common_ones zero a b = omega arith
count_ones-common_ones (suc k) a b =
    let rest = count_ones-common_ones k (a / 2) (b / 2) in ground arith

-- The keys are the ones of the validators at the indices, each of them validated.
abbrev pub KeysAt : (x : External) → List SealingValidator → List ℕ → List x.PublicKey → Type 0
KeysAt x validators [] [] = Unit
KeysAt x validators [] (key ∷ keys) = ⊥
KeysAt x validators (i ∷ is) [] = ⊥
KeysAt x validators (i ∷ is) (key ∷ keys) =
    ((v : SealingValidator) × (get_elem? validators i ≡ some v)
      × (x.key_validate v.vote_key ≡ some key))
    × KeysAt x validators is keys

ok_or-eq-ok :
    {E : Type 0} {A : Type 0} (o : Option A) (e : E) {a : A} → ok_or o e ≡ ok a → o ≡ some a
ok_or-eq-ok none e q = cc
ok_or-eq-ok (some a) e q = cc

module _ (x : External) (validators : List SealingValidator) where
  keys_at-KeysAt :
      (is : List ℕ) (keys : List x.PublicKey)
      → keys_at x validators is ≡ ok keys
      → KeysAt x validators is keys × (length keys ≡ length is)
  unfolding keys_at
  keys_at-KeysAt [] [] e = (tt, refl)
  keys_at-KeysAt [] (key ∷ keys) e = cc
  keys_at-KeysAt (i ∷ is) keys e =
      let (v, found, e₁) = >>=-eq-ok (validator_at validators i) _ e in
      let (key, valid, e₂) =
        >>=-eq-ok (ok_or (x.key_validate v.vote_key) (invalid_vote_key i)) _ e₁ in
      let (others, e₃, e₄) = >>=-eq-ok (keys_at x validators is) _ e₂ in
      let (rest, count) = keys_at-KeysAt is others e₃ in
      subst (λ l. KeysAt x validators (i ∷ is) l × (length l ≡ suc (length is))) (ok-injective e₄)
        (
          (
            (
              v,
              ok_or-eq-ok (get_elem? validators i) _ found,
              ok_or-eq-ok (x.key_validate v.vote_key) _ valid,
            ),
            rest,
          ),
          ap suc count,
        )

-- What the checks of an attestation leave: `indices` are distinct validators, at least two
-- thirds of them, and the signature holds for the aggregate of their validated keys.
pub record Quorate (x : External) (att : VoteAttestation) (validators : List SealingValidator)
    : Type 0 where
  pub indices : List ℕ
  pub voted : voted_indices att.vote_address_set (length validators) ≡ ok indices
  pub voters : indices ≡ set_bits (min (length validators) 64) 0 att.vote_address_set
  pub distinct : Ascending 0 (length validators) indices
  pub quorum : 2 * length validators ≤ 3 * length indices
  pub keys : List x.PublicKey
  pub keyed : KeysAt x validators indices keys
  pub aggregated : x.PublicKey
  pub is_aggregate : x.aggregate keys ≡ some aggregated
  pub signature : x.Signature
  pub parsed : x.sig_validate att.agg_signature ≡ some signature
  pub signed : x.verify signature (vote_hash x att.vote) aggregated ≡ true

pub voted_indices-ok :
    (set n : ℕ) (is : List ℕ) → voted_indices set n ≡ ok is → set_bits (min n 64) 0 set ≡ is
unfolding voted_indices
voted_indices-ok set n is e =
    let (_, e₁) = ensure-eq-ok (leb (count_ones 64 set) n) _ _ e in
    let (_, e₂) = ensure-eq-ok ((if leb 64 n then 0 else set / 2 ^ n) == 0) _ _ e₁ in
    ok-injective e₂

min_votes-quorum : (n votes : ℕ) → n < 2 ^ 63 → min_votes_for_finality n ≤ votes → 2 * n ≤ 3 * votes
unfolding min_votes_for_finality
min_votes-quorum n votes fits enough = ground arith

-- The facts of an attestation that is accepted, as the checks leave them.
pub verify_attestation_signature-Quorate :
    (x : External) (att : VoteAttestation) (validators : List SealingValidator)
    → length validators < 2 ^ 63
    → verify_attestation_signature x att validators ≡ ok tt
    → Quorate x att validators
unfolding verify_attestation_signature
verify_attestation_signature-Quorate x att validators fits e =
    let n = length validators in
    let (_, e₁) = ensure-eq-ok (leb (length att.extra) max_attestation_extra_len) _ _ e in
    let (is, e₂, e₃) = >>=-eq-ok (voted_indices att.vote_address_set n) _ e₁ in
    let (_, e₄) = ensure-eq-ok (not (is_empty is)) _ _ e₃ in
    let (keys, e₅, e₆) = >>=-eq-ok (keys_at x validators is) _ e₄ in
    let (enough, e₇) = ensure-eq-ok (leb (min_votes_for_finality n) (length keys)) _ _ e₆ in
    let (pk, e₈, e₉) = >>=-eq-ok (ok_or (x.aggregate keys) aggregate_failed) _ e₇ in
    let (sig, f, f₁) =
      >>=-eq-ok (ok_or (x.sig_validate att.agg_signature) invalid_signature) _ e₉ in
    let (keyed, count) = keys_at-KeysAt x validators is keys e₅ in
    let voters = voted_indices-ok att.vote_address_set n is e₂ in
    record {
      indices = is;
      voted = e₂;
      voters = sym voters;
      distinct =
          subst (Ascending 0 n) voters
            (set_bits-Ascending (min n 64) 0 att.vote_address_set n (ground arith));
      quorum =
          subst (λ v. 2 * n ≤ 3 * v) count
            (min_votes-quorum n (length keys) fits (leb→le _ _ enough));
      keys = keys;
      keyed = keyed;
      aggregated = pk;
      is_aggregate = ok_or-eq-ok (x.aggregate keys) _ e₈;
      signature = sig;
      parsed = ok_or-eq-ok (x.sig_validate att.agg_signature) _ f;
      signed = ensure-ok _ _ f₁;
    }

-- For fewer than 2 ^ 63 validators: two attestations that both pass the signature check against one
-- set of validators have common voters, at least a third of the set.
pub verify_attestation_signature-overlap :
    (x : External) (att att' : VoteAttestation) (validators : List SealingValidator)
    → length validators < 2 ^ 63
    → verify_attestation_signature x att validators ≡ ok tt
    → verify_attestation_signature x att' validators ≡ ok tt
    → length validators
      ≤ 3 * common_ones (min (length validators) 64) att.vote_address_set att'.vote_address_set
verify_attestation_signature-overlap x att att' validators fits e e' =
    let k = min (length validators) 64 in
    let one = verify_attestation_signature-Quorate x att validators fits e in
    let two = verify_attestation_signature-Quorate x att' validators fits e' in
    let many : 2 * length validators ≤ 3 * count_ones k att.vote_address_set =
      subst (λ v. 2 * length validators ≤ 3 * v)
        (ap length one.voters ∙ length-set_bits k 0 att.vote_address_set) one.quorum in
    let many' : 2 * length validators ≤ 3 * count_ones k att'.vote_address_set =
      subst (λ v. 2 * length validators ≤ 3 * v)
        (ap length two.voters ∙ length-set_bits k 0 att'.vote_address_set) two.quorum in
    let both = count_ones-common_ones k att.vote_address_set att'.vote_address_set in
    let small : k ≤ length validators = ground arith in omega arith
