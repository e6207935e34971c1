-- ===== src/Consensus/Snapshot/Accepts.antt =====
-- A checkpoint that `validate_basic` of lib.rs accepts starts the walk of snapshot.rs.
use helios_bsc.Prelude.{
  ℕ, ◌≡◌, ◌∙◌, inl, inr, refl, ap, Bool-cases, not, Option, none, some, List, [], ◌∷◌, Bytes,
  length, All, ◌==◌, if_true, if_false, Result, ok, err, >>=-eq-ok, ensure-eq-ok, map_err, ◌>>=◌,
}
use helios_bsc.Config.Extra.{SealingValidator}
use helios_bsc.Types.External.{External}
use helios_bsc.Types.Hex.{
  TypesError, CheckpointField, hash, parent_hash, state_root, decode_hex_fixed, bad_checkpoint_hash,
  bad_sealing_address, duplicate_sealing_address, bad_vote_key, duplicate_vote_key,
}
use helios_bsc.Types.Checkpoint.{
  Checkpoint, or_else, seen_before, all_new, check_keys, check_hash, validate_basic,
  bsc_mainnet_chain_id,
}
use helios_bsc.Consensus.Snapshot.State.{Snapshot, types, sort_by_key}
use helios_bsc.Consensus.Snapshot.Bootstrap.{
  decode_addresses, decode_pairs, bootstrap_vote_set, from_checkpoint,
}

abbrev Succeeds : {E A : Type 0} → Result E A → Type 0
Succeeds {A = A} r = (a : A) × (r ≡ ok a)

or_else-Succeeds :
    {A : Type 0} (r : Result TypesError A) (e : TypesError) {a : A}
    → or_else r e ≡ ok a
    → Succeeds r
or_else-Succeeds (ok a) e h = (a, refl)
or_else-Succeeds (err d) e h = cc

map_err-Succeeds :
    {E F A : Type 0} (f : E → F) (r : Result E A) → Succeeds r → Succeeds (map_err f r)
map_err-Succeeds f r (a, e) = (a, ap (map_err f) e)

>>=-Succeeds :
    {E A B : Type 0} (r : Result E A) (f : A → Result E B)
    → Succeeds r
    → ((a : A) → r ≡ ok a → Succeeds (f a))
    → Succeeds (r >>= f)
>>=-Succeeds (ok a) f h k = k a refl
>>=-Succeeds (err e) f h k = cc h.1

module _ (x : External) where
  abbrev Decodes : ℕ → Bytes → Type 0
  Decodes width text = Succeeds (decode_hex_fixed x width text)

  all_new-Decodes :
      (width : ℕ) (bad twice : TypesError) (seen texts : List Bytes)
      → all_new x width bad twice seen texts ≡ ok tt
      → All (Decodes width) texts
  unfolding all_new
  all_new-Decodes width bad twice seen [] e = tt
  all_new-Decodes width bad twice seen (t ∷ ts) e =
      let (v, e₁, e₂) = >>=-eq-ok (or_else (decode_hex_fixed x width t) bad) _ e in
      let (_, e₃) = ensure-eq-ok (not (seen_before seen v)) _ _ e₂ in
      (
        or_else-Succeeds (decode_hex_fixed x width t) bad e₁,
        all_new-Decodes width bad twice (v ∷ seen) ts e₃,
      )

  decode_addresses-Succeeds :
      (texts : List Bytes) → All (Decodes 20) texts → Succeeds (decode_addresses x texts)
  unfolding decode_addresses
  decode_addresses-Succeeds [] h = ([], refl)
  decode_addresses-Succeeds (t ∷ ts) (here, h) =
      >>=-Succeeds (map_err types (decode_hex_fixed x 20 t)) _ (map_err-Succeeds types _ here)
        λ a e.
          >>=-Succeeds (decode_addresses x ts) _ (decode_addresses-Succeeds ts h)
            λ others e'. (a ∷ others, refl)

  decode_pairs-Succeeds :
      (validators keys : List Bytes)
      → All (Decodes 48) keys
      → Succeeds (decode_pairs x validators keys)
  unfolding decode_pairs
  decode_pairs-Succeeds [] keys h = ([], refl)
  decode_pairs-Succeeds (a ∷ as') [] h = ([], refl)
  decode_pairs-Succeeds (a ∷ as') (k ∷ ks) (here, h) =
      >>=-Succeeds (map_err types (decode_hex_fixed x 48 k)) _ (map_err-Succeeds types _ here)
        λ key e.
          >>=-Succeeds (decode_pairs x as' ks) _ (decode_pairs-Succeeds as' ks h)
            λ others e'. (record { address = a; vote_key = key } ∷ others, refl)

  bootstrap_vote_set-Succeeds :
      (sealing_set validators : List Bytes) (keys : Option (List Bytes))
      → check_keys x sealing_set keys ≡ ok tt
      → Succeeds (bootstrap_vote_set x validators keys)
  unfolding check_keys bootstrap_vote_set
  bootstrap_vote_set-Succeeds sealing_set validators none e = ([], refl)
  bootstrap_vote_set-Succeeds sealing_set validators (some keys) e =
      let (_, e₁) = ensure-eq-ok (length keys == length sealing_set) _ _ e in
      let decoded = all_new-Decodes 48 bad_vote_key duplicate_vote_key [] keys e₁ in
      elim (Bool-cases (length keys == length validators)) [
        | inr apart ↦ ([], if_false _ _ apart)
        | inl same ↦
            let (set, e₂) =
              >>=-Succeeds (decode_pairs x validators keys) _
                (decode_pairs-Succeeds validators keys decoded)
                (λ pairs e'. (sort_by_key (λ (v : SealingValidator). v.address) pairs, refl)) in
            (set, if_true _ _ same ∙ e₂)
      ]

  check_hash-Decodes :
      (field : CheckpointField) (v : Bytes) {u : Unit {0}}
      → check_hash x field v ≡ ok u
      → Decodes 32 v
  unfolding check_hash
  check_hash-Decodes field v e =
      let (_, e₁, _) =
        >>=-eq-ok (or_else (decode_hex_fixed x 32 v) (bad_checkpoint_hash field)) _ e in
      or_else-Succeeds (decode_hex_fixed x 32 v) _ e₁

-- A checkpoint that validate_basic accepts starts the walk: from_checkpoint does not fail on it.
pub validate_basic-from_checkpoint :
    (x : External) (cp : Checkpoint)
    → validate_basic x cp ≡ ok tt
    → (s : Snapshot) × (from_checkpoint x cp ≡ ok s)
unfolding validate_basic from_checkpoint
validate_basic-from_checkpoint x cp e =
    let (_, e₁) = ensure-eq-ok (cp.chain_id == bsc_mainnet_chain_id) _ _ e in
    let (_, e₂) = ensure-eq-ok (not (length cp.sealing_set == 0)) _ _ e₁ in
    let (_, addresses, e₃) =
      >>=-eq-ok (all_new x 20 bad_sealing_address duplicate_sealing_address [] cp.sealing_set) _
        e₂ in
    let (_, hashed, e₄) = >>=-eq-ok (check_hash x hash cp.hash) _ e₃ in
    let (_, _, e₅) = >>=-eq-ok (check_hash x parent_hash cp.parent_hash) _ e₄ in
    let (_, _, keyed) = >>=-eq-ok (check_hash x state_root cp.state_root) _ e₅ in
    >>=-Succeeds (decode_addresses x cp.sealing_set) _
      (decode_addresses-Succeeds x cp.sealing_set (
        all_new-Decodes x 20 bad_sealing_address duplicate_sealing_address [] cp.sealing_set
          addresses))
      λ validators d.
        >>=-Succeeds (bootstrap_vote_set x validators cp.vote_keys) _
          (bootstrap_vote_set-Succeeds x cp.sealing_set validators cp.vote_keys keyed)
          λ set d'.
            >>=-Succeeds (map_err types (decode_hex_fixed x 32 cp.hash)) _
              (map_err-Succeeds types _ (check_hash-Decodes x hash cp.hash hashed))
              λ h d''. (_, refl)
