-- ===== src/Execution/Proof/Bound.antt =====
-- What a response that proof.rs accepts is bound to: the state root, and the claims that it makes.
use helios_bsc.Prelude.{
  ◌≡◌, sym, ap, ◌∙◌, inl, inr, false, List, ◌≤◌, Bytes, length, bytes_eq, bytes_eq→eq, Bool-cases,
  ◌==◌, ==_iff, leb, leb→le, ◌||◌, if_true, if_false, ok, ok_or, >>=-eq-ok, ensure-eq-ok,
  map_err_step-eq-ok, ok-injective,
}
use helios_bsc.Types.External.{External}
use helios_bsc.Types.Hex.{decode_hex_fixed}
use helios_bsc.Execution.Mpt.Leaves.{
  Account, empty_trie_root, verify_account_proof, verify_storage_proof,
}
use helios_bsc.Execution.Mpt.Unique.{Agree, verify_account_proof-Agree, verify_storage_proof-Agree}
use helios_bsc.Execution.Proof.{
  EthAccountProof, StorageProofEntry, VerifiedAccount, max_proof_nodes, max_proof_storage_entries,
  strip_int, none_too_large, check_entries, decode_nodes, decode_qty, encode_qty, parse_qty_u64,
  check_claims, verify_eth_get_proof, find_entry, check_entry, verify_storage_slot, types, mpt,
  claim_mismatch,
}

-- The account that is returned, from the one in the trie.
abbrev verified_of : Bytes → Account → VerifiedAccount
verified_of addr account = record {
  address = addr;
  nonce = account.nonce;
  balance_wei = strip_int account.balance;
  storage_root = account.storage_root;
  code_hash = account.code_hash;
}

-- The account is proved under the root by nodes of the response, which claims its balance and nonce.
pub record Proved (x : External) (root address : Bytes) (proof : EthAccountProof)
    (verified : VerifiedAccount) : Type 0 where
  pub few : length proof.account_proof ≤ max_proof_nodes
  pub nodes : List Bytes
  pub decoded : decode_nodes x proof.account_proof ≡ ok nodes
  pub account : Account
  pub proved : verify_account_proof x root address nodes ≡ ok account
  pub result : verified ≡ verified_of address account
  pub nonce : parse_qty_u64 x proof.nonce ≡ ok verified.nonce
  pub balance : Bytes
  pub claimed : decode_qty x proof.balance ≡ ok balance
  pub same_balance : encode_qty x balance ≡ encode_qty x account.balance

check_claims-ok :
    (x : External) (proof : EthAccountProof) (account : Account)
    → check_claims x proof account ≡ ok tt
    → (parse_qty_u64 x proof.nonce ≡ ok account.nonce)
      × (balance : Bytes) × (decode_qty x proof.balance ≡ ok balance)
      × (encode_qty x balance ≡ encode_qty x account.balance)
unfolding check_claims
check_claims-ok x proof account e =
    let (balance, claimed, e₁) = map_err_step-eq-ok types (decode_qty x proof.balance) _ e in
    let (same, e₂) =
      ensure-eq-ok (bytes_eq (encode_qty x balance) (encode_qty x account.balance)) _ _ e₁ in
    let (nonce, parsed, e₃) = >>=-eq-ok (parse_qty_u64 x proof.nonce) _ e₂ in
    let (same_nonce, e₄) = ensure-eq-ok (nonce == account.nonce) _ _ e₃ in
    (
      parsed ∙ ap ok ((==_iff nonce account.nonce).0 same_nonce),
      balance,
      claimed,
      bytes_eq→eq (encode_qty x balance) (encode_qty x account.balance) same,
    )

-- An account that verify_eth_get_proof accepts: the response has at most 32 account nodes, they
-- decode, verify_account_proof accepts them under the state root for the expected address, the
-- result has that address and the proved account's nonce, stripped balance, storage root and code
-- hash, the claimed nonce parses to the nonce of the result, and the claimed balance decodes and
-- has the same encode_qty text as the proved balance.
pub verify_eth_get_proof-Proved :
    (x : External) (root address : Bytes) (proof : EthAccountProof) (verified : VerifiedAccount)
    → verify_eth_get_proof x root address proof ≡ ok verified
    → Proved x root address proof verified
unfolding verify_eth_get_proof
verify_eth_get_proof-Proved x root address proof verified e =
    let (addr, read, e₁) = map_err_step-eq-ok types (decode_hex_fixed x 20 proof.address) _ e in
    let (same, e₂) = ensure-eq-ok (bytes_eq addr address) _ _ e₁ in
    let (few, e₃) = ensure-eq-ok (leb (length proof.account_proof) max_proof_nodes) _ _ e₂ in
    let (few', e₄) =
      ensure-eq-ok (leb (length proof.storage_proof) max_proof_storage_entries) _ _ e₃ in
    let (u, checked, e₅) = >>=-eq-ok (check_entries proof.storage_proof) _ e₄ in
    let (nodes, decoded, e₆) = map_err_step-eq-ok types (decode_nodes x proof.account_proof) _ e₅ in
    let (small, e₇) = ensure-eq-ok (none_too_large nodes) _ _ e₆ in
    let (account, proved, e₈) =
      map_err_step-eq-ok mpt (verify_account_proof x root addr nodes) _ e₇ in
    let (u', claims, e₉) = >>=-eq-ok (check_claims x proof account) _ e₈ in
    let (nonce, balance, claimed, same_balance) = check_claims-ok x proof account claims in
    let it : addr ≡ address = bytes_eq→eq addr address same in
    let result : verified ≡ verified_of addr account = sym (ok-injective e₉) in
    record {
      few = leb→le (length proof.account_proof) max_proof_nodes few;
      nodes = nodes;
      decoded = decoded;
      account = account;
      proved = ap (λ a. verify_account_proof x root a nodes) (sym it) ∙ proved;
      result = result ∙ ap (λ a. verified_of a account) it;
      nonce = nonce ∙ ap ok (ap (λ (v : VerifiedAccount). v.nonce) (sym result));
      balance = balance;
      claimed = claimed;
      same_balance = same_balance;
    }

-- For a state root of 32 bytes and one address: two responses that verify_eth_get_proof accepts
-- give the same verified account, or there are two different byte strings with the same Keccak
-- hash.
pub verify_eth_get_proof-Agree :
    (x : External) (root address : Bytes) (proof proof' : EthAccountProof)
    (verified verified' : VerifiedAccount)
    → length root ≡ 32
    → verify_eth_get_proof x root address proof ≡ ok verified
    → verify_eth_get_proof x root address proof' ≡ ok verified'
    → Agree x verified verified'
verify_eth_get_proof-Agree x root address proof proof' verified verified' wide e e' =
    let p = verify_eth_get_proof-Proved x root address proof verified e in
    let p' = verify_eth_get_proof-Proved x root address proof' verified' e' in
    elim (verify_account_proof-Agree x root address p.nodes p'.nodes p.account p'.account wide
      p.proved p'.proved) [
        | inl same ↦ inl (p.result ∙ ap (verified_of address) same ∙ sym p'.result)
        | inr collision ↦ inr collision
      ]

check_entry-ok :
    (x : External) (root slot : Bytes) (entry : StorageProofEntry) (value : Bytes)
    → check_entry x root slot entry ≡ ok value
    → (nodes : List Bytes) × (verify_storage_proof x root slot nodes ≡ ok value)
unfolding check_entry
check_entry-ok x root slot entry value e =
    let (nodes, decoded, e₁) = map_err_step-eq-ok types (decode_nodes x entry.proof) _ e in
    let (small, e₂) = ensure-eq-ok (none_too_large nodes) _ _ e₁ in
    let (v, proved, e₃) = map_err_step-eq-ok mpt (verify_storage_proof x root slot nodes) _ e₂ in
    let (claimed, read, e₄) = map_err_step-eq-ok types (decode_qty x entry.value) _ e₃ in
    let (same, e₅) =
      ensure-eq-ok
        (bytes_eq (strip_int v) (strip_int claimed)
          || bytes_eq (encode_qty x v) (encode_qty x claimed))
        _ _ e₄ in
    (nodes, proved ∙ ap ok (ok-injective e₅))

verify_storage_slot-ok :
    (x : External) (account : VerifiedAccount) (slot : Bytes) (proof : EthAccountProof)
    (value : Bytes)
    → bytes_eq account.storage_root empty_trie_root ≡ false
    → verify_storage_slot x account slot proof ≡ ok value
    → (nodes : List Bytes) × (verify_storage_proof x account.storage_root slot nodes ≡ ok value)
unfolding verify_storage_slot
verify_storage_slot-ok x account slot proof value other e =
    let (entry, found, e₁) =
      >>=-eq-ok (ok_or (find_entry x slot proof.storage_proof) (claim_mismatch "storageProof")) _
        (sym (if_false _ _ other) ∙ e) in
    check_entry-ok x account.storage_root slot entry value e₁

-- For an account with a storage root of 32 bytes and one slot: two responses from which
-- verify_storage_slot gives a value give the same value, or there are two different byte strings
-- with the same Keccak hash.
pub verify_storage_slot-Agree :
    (x : External) (account : VerifiedAccount) (slot : Bytes) (proof proof' : EthAccountProof)
    (value value' : Bytes)
    → length account.storage_root ≡ 32
    → verify_storage_slot x account slot proof ≡ ok value
    → verify_storage_slot x account slot proof' ≡ ok value'
    → Agree x value value'
unfolding verify_storage_slot
verify_storage_slot-Agree x account slot proof proof' value value' wide e e' =
    elim (Bool-cases (bytes_eq account.storage_root empty_trie_root)) [
      | inl empty ↦
          inl (ok-injective (sym (sym (if_true _ _ empty) ∙ e) ∙ sym (if_true _ _ empty) ∙ e'))
      | inr other ↦
          let (nodes, proved) = verify_storage_slot-ok x account slot proof value other e in
          let (nodes', proved') = verify_storage_slot-ok x account slot proof' value' other e' in
          verify_storage_proof-Agree x account.storage_root slot nodes nodes' value value' wide
            proved proved'
    ]
