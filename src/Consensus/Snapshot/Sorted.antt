-- ===== src/Consensus/Snapshot/Sorted.antt =====
-- The order of validators in snapshot.rs, and the state that the walk starts with.
use helios_bsc.Prelude.{
  ℕ, ◌<◌, ◌≡◌, ◌∙◌, inl, inr, refl, sym, ap, true, false, Bool-cases, Option, none, some, List, [],
  ◌∷◌, map, Bytes, length, ◌==◌, if_true, if_false, ==_iff, arith, ok, >>=-eq-ok, ok-injective,
  map_err,
}
use mathlib.Core.Path.{subst}
use helios_bsc.Config.{params_at}
use helios_bsc.Config.Extra.{SealingValidator}
use helios_bsc.Types.External.{External}
use helios_bsc.Types.Checkpoint.{Checkpoint}
use helios_bsc.Types.Hex.{decode_hex_fixed}
use helios_bsc.Consensus.Snapshot.State.{Snapshot, types, bytes_leb, insert_by_key, sort_by_key}
use helios_bsc.Consensus.Snapshot.Shape.{IsAligned, address_of, WellFormed}
use helios_bsc.Consensus.Snapshot.Bootstrap.{
  decode_addresses, decode_pairs, bootstrap_vote_set, from_checkpoint,
}

abbrev pub same_bytes : Bytes → Bytes
same_bytes a = a

bytes_leb_total : (a b : Bytes) → bytes_leb a b ≡ false → bytes_leb b a ≡ true
unfolding bytes_leb
bytes_leb_total [] b e = cc
bytes_leb_total (x ∷ xs) [] e = refl
bytes_leb_total (x ∷ xs) (y ∷ ys) e = ground (arith, bytes_leb_total xs ys)

abbrev pub Below : Bytes → List Bytes → Type 0
Below a [] = Unit
Below a (b ∷ bs) = bytes_leb a b ≡ true

abbrev pub Sorted : List Bytes → Type 0
Sorted [] = Unit
Sorted (a ∷ as') = Below a as' × Sorted as'

insert_by_key-Below :
    (a b : Bytes) (l : List Bytes)
    → bytes_leb a b ≡ true
    → Below a l
    → Below a (insert_by_key same_bytes b l)
unfolding insert_by_key
insert_by_key-Below a b [] le h = le
insert_by_key-Below a b (c ∷ cs) le h = elim (Bool-cases (bytes_leb b c)) [
  | inl front ↦ rw front le
  | inr behind ↦ rw behind h
]

insert_by_key-Sorted :
    (a : Bytes) (l : List Bytes) → Sorted l → Sorted (insert_by_key same_bytes a l)
unfolding insert_by_key
insert_by_key-Sorted a [] h = (tt, tt)
insert_by_key-Sorted a (b ∷ bs) (below, h) = elim (Bool-cases (bytes_leb a b)) [
  | inl front ↦ rw front (front, (below, h))
  | inr behind ↦
      rw behind
        (insert_by_key-Below b a bs (bytes_leb_total a b behind) below, insert_by_key-Sorted a bs h)
]

sort_by_key-Sorted : (l : List Bytes) → Sorted (sort_by_key same_bytes l)
unfolding sort_by_key
sort_by_key-Sorted [] = tt
sort_by_key-Sorted (a ∷ as') =
    insert_by_key-Sorted a (sort_by_key same_bytes as') (sort_by_key-Sorted as')

-- To sort the pairs by their addresses is to sort the addresses.
map-insert_by_key :
    (v : SealingValidator) (l : List SealingValidator)
    → map address_of (insert_by_key address_of v l)
      ≡ insert_by_key same_bytes v.address (map address_of l)
unfolding insert_by_key
map-insert_by_key v [] = refl
map-insert_by_key v (w ∷ ws) = elim (Bool-cases (bytes_leb v.address w.address)) [
  | inl front ↦ rw front refl
  | inr behind ↦ rw behind (ap (λ l. w.address ∷ l) (map-insert_by_key v ws))
]

pub map-sort_by_key :
    (l : List SealingValidator)
    → map address_of (sort_by_key address_of l) ≡ sort_by_key same_bytes (map address_of l)
unfolding sort_by_key
map-sort_by_key [] = refl
map-sort_by_key (v ∷ vs) =
    map-insert_by_key v (sort_by_key address_of vs)
    ∙ ap (insert_by_key same_bytes v.address) (map-sort_by_key vs)

module _ (x : External) where
  pub decode_pairs-address_of :
      (validators keys : List Bytes) (pairs : List SealingValidator)
      → length keys ≡ length validators
      → decode_pairs x validators keys ≡ ok pairs
      → map address_of pairs ≡ validators
  unfolding decode_pairs
  decode_pairs-address_of [] keys pairs n e = cc
  decode_pairs-address_of (a ∷ as') [] pairs n e = ground arith
  decode_pairs-address_of (a ∷ as') (k ∷ ks) pairs n e =
      let (key, _, e₁) = >>=-eq-ok (map_err types (decode_hex_fixed x 48 k)) _ e in
      let (others, e₂, e₃) = >>=-eq-ok (decode_pairs x as' ks) _ e₁ in
      subst (λ l. map address_of l ≡ a ∷ as') (ok-injective e₃)
        (ap (λ l. a ∷ l) (decode_pairs-address_of as' ks others (omega arith) e₂))

  bootstrap_vote_set-IsAligned :
      (validators : List Bytes) (keys : Option (List Bytes)) (set : List SealingValidator)
      → bootstrap_vote_set x validators keys ≡ ok set
      → IsAligned set (sort_by_key same_bytes validators)
  unfolding bootstrap_vote_set
  bootstrap_vote_set-IsAligned validators none set e = inl (sym (ok-injective e))
  bootstrap_vote_set-IsAligned validators (some keys) set e =
      elim (Bool-cases (length keys == length validators)) [
        | inr apart ↦ inl (sym (ok-injective (sym (if_false _ _ apart) ∙ e)))
        | inl same ↦
            let (pairs, e₁, e₂) =
              >>=-eq-ok (decode_pairs x validators keys) _ (sym (if_true _ _ same) ∙ e) in
            inr (
              ap (map address_of) (sym (ok-injective e₂))
              ∙ map-sort_by_key pairs
              ∙ ap (sort_by_key same_bytes)
                  (decode_pairs-address_of validators keys pairs ((==_iff _ _).0 same) e₁))
      ]

params_at_epoch_pos : (n t : ℕ) → 0 < (params_at n t).epoch_length
unfolding params_at
params_at_epoch_pos n t = ground arith

-- The first state of the walk is well formed, and its validators ascend in the order of their bytes.
pub from_checkpoint-WellFormed :
    (x : External) (cp : Checkpoint) (s : Snapshot)
    → from_checkpoint x cp ≡ ok s
    → WellFormed s × Sorted s.validators
unfolding from_checkpoint
from_checkpoint-WellFormed x cp s e =
    let (validators, e₁, e₂) = >>=-eq-ok (decode_addresses x cp.sealing_set) _ e in
    let (vote_set, e₃, e₄) = >>=-eq-ok (bootstrap_vote_set x validators cp.vote_keys) _ e₂ in
    let (hash, e₅, e₆) = >>=-eq-ok (map_err types (decode_hex_fixed x 32 cp.hash)) _ e₄ in
    subst (λ t. WellFormed t × Sorted t.validators) (ok-injective e₆)
      (
        record {
          epoch_positive = params_at_epoch_pos cp.number cp.timestamp;
          changed = omega arith;
          aligned = bootstrap_vote_set-IsAligned x validators cp.vote_keys vote_set e₃;
          few = omega arith;
          consecutive = (omega arith, tt);
          older = [];
          tip = refl;
        },
        sort_by_key-Sorted validators,
      )
