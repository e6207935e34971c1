-- ===== src/Consensus/Snapshot/Paired.antt =====
-- The vote keys that from_checkpoint of snapshot.rs pairs with the validators of a checkpoint.
use helios_bsc.Prelude.{
  ℕ, suc, ◌≡◌, ◌≢◌, ◌∙◌, ◌⊎◌, inl, inr, refl, sym, ap, Bool-cases, Option, none, some, List, [],
  ◌∷◌, map, Bytes, length, get_elem?, ◌==◌, if_true, if_false, ==_iff, ok, >>=-eq-ok, ok-injective,
  map_err, map_err-eq-ok,
}
use mathlib.Core.Path.{subst}
use helios_bsc.Config.Extra.{SealingValidator}
use helios_bsc.Types.External.{External}
use helios_bsc.Types.Checkpoint.{Checkpoint}
use helios_bsc.Types.Hex.{decode_hex_fixed}
use helios_bsc.Consensus.Snapshot.State.{Snapshot, types, bytes_leb, insert_by_key, sort_by_key}
use helios_bsc.Consensus.Snapshot.Shape.{address_of, WellFormed}
use helios_bsc.Consensus.Snapshot.Bootstrap.{
  decode_addresses, decode_pairs, bootstrap_vote_set, from_checkpoint,
}
use helios_bsc.Consensus.Snapshot.Sorted.{
  Sorted, same_bytes, map-sort_by_key, decode_pairs-address_of, from_checkpoint-WellFormed,
}

abbrev pub Among : SealingValidator → List SealingValidator → Type 0
Among v [] = ⊥
Among v (w ∷ ws) = (w ≡ v) ⊎ Among v ws

insert_by_key-Among :
    (v w : SealingValidator) (l : List SealingValidator)
    → Among v (insert_by_key address_of w l)
    → (w ≡ v) ⊎ Among v l
unfolding insert_by_key
insert_by_key-Among v w [] among = among
insert_by_key-Among v w (u ∷ us) among = elim (Bool-cases (bytes_leb w.address u.address)) [
  | inl front ↦ subst (Among v) (if_true _ _ front) among
  | inr behind ↦ elim (subst (Among v) (if_false _ _ behind) among) [
    | inl here ↦ inr (inl here)
    | inr later ↦ elim (insert_by_key-Among v w us later) [
      | inl new ↦ inl new
      | inr old ↦ inr (inr old)
    ]
  ]
]

sort_by_key-Among :
    (v : SealingValidator) (l : List SealingValidator)
    → Among v (sort_by_key address_of l)
    → Among v l
unfolding sort_by_key
sort_by_key-Among v [] among = among
sort_by_key-Among v (w ∷ ws) among =
    elim (insert_by_key-Among v w (sort_by_key address_of ws) among) [
      | inl here ↦ inl here
      | inr later ↦ inr (sort_by_key-Among v ws later)
    ]

length-insert_by_key :
    (a : Bytes) (l : List Bytes) → length (insert_by_key same_bytes a l) ≡ suc (length l)
unfolding insert_by_key
length-insert_by_key a [] = refl
length-insert_by_key a (b ∷ bs) = elim (Bool-cases (bytes_leb a b)) [
  | inl front ↦ rw front refl
  | inr behind ↦ rw behind (ap suc (length-insert_by_key a bs))
]

length-sort_by_key : (l : List Bytes) → length (sort_by_key same_bytes l) ≡ length l
unfolding sort_by_key
length-sort_by_key [] = refl
length-sort_by_key (a ∷ as') =
    length-insert_by_key a (sort_by_key same_bytes as') ∙ ap suc (length-sort_by_key as')

-- The address and the key of a pair stand at one position of two lists of hex texts.
abbrev pub PairAt : External → List Bytes → List Bytes → SealingValidator → Type 0
PairAt x texts keys v =
    (i : ℕ) × (a : Bytes) × (k : Bytes) × (get_elem? texts i ≡ some a)
    × (get_elem? keys i ≡ some k)
    × (decode_hex_fixed x 20 a ≡ ok v.address)
    × (decode_hex_fixed x 48 k ≡ ok v.vote_key)

module _ (x : External) where
  PairAt-cons :
      (t k : Bytes) (texts keys : List Bytes) (v : SealingValidator)
      → PairAt x texts keys v
      → PairAt x (t ∷ texts) (k ∷ keys) v
  PairAt-cons t k texts keys v (i, a, key, at, with_key, address, valid) =
      (suc i, a, key, at, with_key, address, valid)

  length-decode_addresses :
      (texts validators : List Bytes)
      → decode_addresses x texts ≡ ok validators
      → length validators ≡ length texts
  unfolding decode_addresses
  length-decode_addresses [] validators e = ap length (sym (ok-injective e))
  length-decode_addresses (t ∷ texts) validators e =
      let (a, _, e₁) = >>=-eq-ok (map_err types (decode_hex_fixed x 20 t)) _ e in
      let (others, e₂, e₃) = >>=-eq-ok (decode_addresses x texts) _ e₁ in
      ap length (sym (ok-injective e₃)) ∙ ap suc (length-decode_addresses texts others e₂)

  decode_pairs-PairAt :
      (texts keys validators : List Bytes) (pairs : List SealingValidator)
      → decode_addresses x texts ≡ ok validators
      → decode_pairs x validators keys ≡ ok pairs
      → (v : SealingValidator) → Among v pairs
      → PairAt x texts keys v
  unfolding decode_addresses decode_pairs
  decode_pairs-PairAt [] keys validators pairs e p v among =
      let none : [] ≡ pairs = ok-injective (ap (λ l. decode_pairs x l keys) (ok-injective e) ∙ p) in
      absurd (subst (Among v) (sym none) among)
  decode_pairs-PairAt (t ∷ texts) [] validators pairs e p v among =
      let (a, _, e₁) = >>=-eq-ok (map_err types (decode_hex_fixed x 20 t)) _ e in
      let (others, _, e₃) = >>=-eq-ok (decode_addresses x texts) _ e₁ in
      let none : [] ≡ pairs = ok-injective (ap (λ l. decode_pairs x l []) (ok-injective e₃) ∙ p) in
      absurd (subst (Among v) (sym none) among)
  decode_pairs-PairAt (t ∷ texts) (k ∷ ks) validators pairs e p v among =
      let (a, here, e₁) = >>=-eq-ok (map_err types (decode_hex_fixed x 20 t)) _ e in
      let (others, e₂, e₃) = >>=-eq-ok (decode_addresses x texts) _ e₁ in
      let (key, with_key, p₁) =
        >>=-eq-ok (map_err types (decode_hex_fixed x 48 k)) _
          (ap (λ l. decode_pairs x l (k ∷ ks)) (ok-injective e₃) ∙ p) in
      let (rest, p₂, p₃) = >>=-eq-ok (decode_pairs x others ks) _ p₁ in
      elim (subst (Among v) (sym (ok-injective p₃)) among) [
        | inl first ↦ subst (PairAt x (t ∷ texts) (k ∷ ks)) first (
          0,
          t,
          k,
          refl,
          refl,
          map_err-eq-ok types (decode_hex_fixed x 20 t) here,
          map_err-eq-ok types (decode_hex_fixed x 48 k) with_key,
        )
        | inr later ↦
            PairAt-cons t k texts ks v (decode_pairs-PairAt texts ks others rest e₂ p₂ v later)
      ]

  bootstrap_vote_set-pairs :
      (validators keys : List Bytes) (set : List SealingValidator)
      → length keys ≡ length validators
      → bootstrap_vote_set x validators (some keys) ≡ ok set
      → (pairs : List SealingValidator) × (decode_pairs x validators keys ≡ ok pairs)
        × (sort_by_key address_of pairs ≡ set)
  unfolding bootstrap_vote_set
  bootstrap_vote_set-pairs validators keys set same e =
      let (pairs, e₁, e₂) =
        >>=-eq-ok (decode_pairs x validators keys) _
          (sym (if_true _ _ ((==_iff _ _).1 same)) ∙ e) in
      (pairs, e₁, ok-injective e₂)

-- The vote set of a snapshot that starts from a checkpoint with these vote keys.
abbrev pub HasVoters : External → Checkpoint → Snapshot → Option (List Bytes) → Type 0
HasVoters x cp s none = s.vote_set ≡ []
HasVoters x cp s (some keys) =
    ((length keys ≡ length cp.sealing_set)
      × (map address_of s.vote_set ≡ s.validators)
      × ((v : SealingValidator) → Among v s.vote_set → PairAt x cp.sealing_set keys v))
    ⊎ ((length keys ≢ length cp.sealing_set) × (s.vote_set ≡ []))

-- The snapshot that from_checkpoint starts with.
pub record Bootstrapped (x : External) (cp : Checkpoint) (s : Snapshot) : Type 0 where
  pub well_formed : WellFormed s
  pub ascending : Sorted s.validators
  pub count : length s.validators ≡ length cp.sealing_set
  pub voters : HasVoters x cp s cp.vote_keys

bootstrap_vote_set-HasVoters :
    (x : External) (cp : Checkpoint) (s : Snapshot) (validators : List Bytes)
    (keys : Option (List Bytes))
    → decode_addresses x cp.sealing_set ≡ ok validators
    → bootstrap_vote_set x validators keys ≡ ok s.vote_set
    → sort_by_key same_bytes validators ≡ s.validators
    → HasVoters x cp s keys
unfolding bootstrap_vote_set
bootstrap_vote_set-HasVoters x cp s validators none e b sorted = sym (ok-injective b)
bootstrap_vote_set-HasVoters x cp s validators (some keys) e b sorted =
    let count = length-decode_addresses x cp.sealing_set validators e in
    elim (Bool-cases (length keys == length validators)) [
      | inl same ↦
          let same' = (==_iff (length keys) (length validators)).0 same in
          let (pairs, paired, set) =
            bootstrap_vote_set-pairs x validators keys s.vote_set same' b in
          inl (
            same' ∙ count,
            ap (map address_of) (sym set)
                ∙ map-sort_by_key pairs
                ∙ ap (sort_by_key same_bytes)
                    (decode_pairs-address_of x validators keys pairs same' paired)
                ∙ sorted,
            λ v among.
                decode_pairs-PairAt x cp.sealing_set keys validators pairs e paired v
                  (sort_by_key-Among v pairs (subst (Among v) (sym set) among)),
          )
      | inr apart ↦ inr (
        (λ same. let both = (==_iff (length keys) (length validators)).1 (same ∙ sym count) in cc),
        sym (ok-injective (sym (if_false _ _ apart) ∙ b)),
      )
    ]

-- A snapshot that from_checkpoint builds is well formed (the invariant that apply_verified
-- preserves), has as many validators as the checkpoint's sealing set, and its validators ascend in
-- the order of their bytes. If the checkpoint has one vote key for each sealer, the vote set has
-- the validators' addresses in their order, and the address and the vote key of each of its entries
-- are decoded from one position of the sealing set and of the vote keys; otherwise the vote set is
-- empty.
pub from_checkpoint-Bootstrapped :
    (x : External) (cp : Checkpoint) (s : Snapshot)
    → from_checkpoint x cp ≡ ok s
    → Bootstrapped x cp s
unfolding from_checkpoint
from_checkpoint-Bootstrapped x cp s e =
    let (well_formed, ascending) = from_checkpoint-WellFormed x cp s e in
    let (validators, e₁, e₂) = >>=-eq-ok (decode_addresses x cp.sealing_set) _ e in
    let (vote_set, e₃, e₄) = >>=-eq-ok (bootstrap_vote_set x validators cp.vote_keys) _ e₂ in
    let (hash, e₅, e₆) = >>=-eq-ok (map_err types (decode_hex_fixed x 32 cp.hash)) _ e₄ in
    let built = ok-injective e₆ in
    let sorted : sort_by_key same_bytes validators ≡ s.validators =
      ap (λ (t : Snapshot). t.validators) built in
    record {
      well_formed = well_formed;
      ascending = ascending;
      count =
          ap length (sym sorted)
          ∙ length-sort_by_key validators
          ∙ length-decode_addresses x cp.sealing_set validators e₁;
      voters =
          bootstrap_vote_set-HasVoters x cp s validators cp.vote_keys e₁
            (e₃ ∙ ap ok (ap (λ (t : Snapshot). t.vote_set) built)) sorted;
    }
