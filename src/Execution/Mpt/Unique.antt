-- ===== src/Execution/Mpt/Unique.antt =====
-- Two proofs that mpt.rs accepts for one root and one key cannot disagree, unless Keccak collides.
use helios_bsc.Prelude.{
  ℕ, zero, suc, ◌≤◌, ◌≡◌, ◌⊎◌, inl, inr, sym, ap, ◌∙◌, Bool, true, false, Option, none, some, List,
  [], ◌∷◌, Bytes, length, leb, ltb, ◌==◌, bytes_eq, bytes_eq→eq, bytes_eq-false, Bool-cases, arith,
  Result, ok, err, >>=-eq-ok, ensure-eq-ok, map_err_step-eq-ok, not, ok-injective, if_true,
  if_false, leb→le, if◌then◌else◌,
}
use helios_bsc.Types.External.{External, Collision}
use helios_bsc.Rlp.Encode.{Rlp, Items, bytes, list}
use helios_bsc.Rlp.Decode.{decode}
use helios_bsc.Execution.Mpt.{
  MptError, Walk, rlp, as_bytes, as_list, item_count, item_at, hex_prefix_decode, after_path,
  no_nodes, leaf_value, node_ref, walk_raw, consume_hashed, follow_ref, follow_child, branch_node,
  short_node, path_node, walk_items, proof_length, verify_nibble_proof, verify_trie_proof,
  bytes_to_nibbles,
}
use helios_bsc.Execution.Mpt.Leaves.{
  Account, empty_trie_root, account_of, word_of, verify_account_proof, verify_storage_proof,
}

-- The two results agree, or there is a collision.
abbrev pub Agree : {A : Type 0} → External → A → A → Type 0
Agree x v v' = (v ≡ v') ⊎ Collision x

abbrev Agrees : External → Walk → Walk → Type 0
Agrees x walk walk' =
    (items : Items) (rest rest' : List Bytes) (nibbles : Bytes) (v v' : Option Bytes)
    → walk items rest nibbles ≡ ok v
    → walk' items rest' nibbles ≡ ok v'
    → Agree x v v'

node_ref-keccak256 :
    (x : External) (raw expected : Bytes)
    → 32 ≤ length expected
    → bytes_eq (node_ref x raw) expected ≡ true
    → x.keccak256 raw ≡ expected
unfolding node_ref
node_ref-keccak256 x raw expected wide same = elim (Bool-cases (ltb (length raw) 32)) [
  | inl small ↦
      let it : raw ≡ expected =
        sym (if_true _ _ small) ∙ bytes_eq→eq (node_ref x raw) expected same in
      let widths = ap length it in absurd (ground arith)
  | inr large ↦ sym (if_false _ _ large) ∙ bytes_eq→eq (node_ref x raw) expected same
]

if-ok :
    {E : Type 0} {A : Type 0} (c : Bool) (a : A) (e : E) {v : A}
    → (if c then ok a else err e) ≡ ok v
    → a ≡ v
if-ok true a e h = ok-injective h
if-ok false a e h = cc

module _ (x : External) (walk walk' : Walk) (agrees : Agrees x walk walk') where
  module _ (rest rest' : List Bytes) (nibbles : Bytes) (v v' : Option Bytes) where
    walk_raw-Agree :
        (raw : Bytes)
        → walk_raw x walk raw rest nibbles ≡ ok v
        → walk_raw x walk' raw rest' nibbles ≡ ok v'
        → Agree x v v'
    unfolding walk_raw
    walk_raw-Agree raw e e' =
        let (decoded, d, e₁) = map_err_step-eq-ok rlp (decode raw) _ e in
        let (decoded', d', e₁') = map_err_step-eq-ok rlp (decode raw) _ e' in
        let (items, i, e₂) = map_err_step-eq-ok rlp (as_list decoded) _ e₁ in
        let (items', i', e₂') = map_err_step-eq-ok rlp (as_list decoded') _ e₁' in
        let same : decoded' ≡ decoded = ok-injective (sym d' ∙ d) in
        let same_items : items' ≡ items = ok-injective (sym i' ∙ ap as_list same ∙ i) in
        agrees items rest rest' nibbles v v' e₂
          (ap (λ l. walk' l rest' nibbles) (sym same_items) ∙ e₂')

  consume_hashed-Agree :
      (rest rest' : List Bytes) (expected nibbles : Bytes) (v v' : Option Bytes)
      → 32 ≤ length expected
      → consume_hashed x walk rest expected nibbles ≡ ok v
      → consume_hashed x walk' rest' expected nibbles ≡ ok v'
      → Agree x v v'
  unfolding consume_hashed
  consume_hashed-Agree [] rest' expected nibbles v v' wide e e' = cc
  consume_hashed-Agree (raw ∷ rest) [] expected nibbles v v' wide e e' = cc
  consume_hashed-Agree (raw ∷ rest) (raw' ∷ rest') expected nibbles v v' wide e e' =
      let (same, e₁) = ensure-eq-ok (bytes_eq (node_ref x raw) expected) _ _ e in
      let (same', e₁') = ensure-eq-ok (bytes_eq (node_ref x raw') expected) _ _ e' in
      elim (Bool-cases (bytes_eq raw raw')) [
        | inr differ ↦ inr (
          raw,
          raw',
          bytes_eq-false raw raw' differ,
          node_ref-keccak256 x raw expected wide same
              ∙ sym (node_ref-keccak256 x raw' expected wide same'),
        )
        | inl equal ↦
            walk_raw-Agree rest rest' nibbles v v' raw e₁
              (ap (λ r. walk_raw x walk' r rest' nibbles) (bytes_eq→eq raw raw' equal) ∙ e₁')
      ]

  follow_child-Agree :
      (item : Rlp) (rest rest' : List Bytes) (nibbles : Bytes) (branch_value : Bool)
      (v v' : Option Bytes)
      → follow_child x walk item rest nibbles branch_value ≡ ok v
      → follow_child x walk' item rest' nibbles branch_value ≡ ok v'
      → Agree x v v'
  unfolding follow_child follow_ref
  follow_child-Agree (bytes []) rest rest' nibbles branch_value v v' e e' =
      inl (sym (if-ok (no_nodes rest) none _ e) ∙ if-ok (no_nodes rest') none _ e')
  follow_child-Agree (bytes (c ∷ b)) rest rest' nibbles true v v' e e' =
      let (_, e₁) = ensure-eq-ok (no_nodes rest) _ _ e in
      let (_, e₁') = ensure-eq-ok (no_nodes rest') _ _ e' in
      inl (sym (ok-injective e₁) ∙ ok-injective e₁')
  follow_child-Agree (bytes (c ∷ b)) rest rest' nibbles false v v' e e' =
      elim (Bool-cases (leb 32 (length (c ∷ b)))) [
        | inl hashed ↦
            consume_hashed-Agree rest rest' (c ∷ b) nibbles v v' (leb→le 32 (length (c ∷ b)) hashed)
              (sym (if_true _ _ hashed) ∙ e) (sym (if_true _ _ hashed) ∙ e')
        | inr inlined ↦
            walk_raw-Agree rest rest' nibbles v v' (c ∷ b) (sym (if_false _ _ inlined) ∙ e)
              (sym (if_false _ _ inlined) ∙ e')
      ]
  follow_child-Agree (list items) rest rest' nibbles branch_value v v' e e' =
      agrees items rest rest' nibbles v v' e e'

  branch_node-Agree :
      (items : Items) (rest rest' : List Bytes) (nibbles : Bytes) (v v' : Option Bytes)
      → branch_node x walk items rest nibbles ≡ ok v
      → branch_node x walk' items rest' nibbles ≡ ok v'
      → Agree x v v'
  unfolding branch_node
  branch_node-Agree items rest rest' [] v v' e e' =
      follow_child-Agree (item_at items 16) rest rest' [] true v v' e e'
  branch_node-Agree items rest rest' (n ∷ nibbles) v v' e e' =
      follow_child-Agree (item_at items n) rest rest' nibbles false v v' e e'

  leaf_value-Agree :
      (item : Rlp) (rest rest' : List Bytes) (left : Bytes) (v v' : Option Bytes)
      → leaf_value item rest left ≡ ok v
      → leaf_value item rest' left ≡ ok v'
      → v ≡ v'
  unfolding leaf_value
  leaf_value-Agree item rest rest' (n ∷ left) v v' e e' = cc
  leaf_value-Agree item rest rest' [] v v' e e' =
      let (_, e₁) = ensure-eq-ok (no_nodes rest) _ _ e in
      let (_, e₁') = ensure-eq-ok (no_nodes rest') _ _ e' in ok-injective (sym e₁ ∙ e₁')

  short_node-Agree :
      (items : Items) (rest rest' : List Bytes) (nibbles path : Bytes) (is_leaf : Bool)
      (left : Option Bytes) (v v' : Option Bytes)
      → short_node x walk items rest nibbles path is_leaf left ≡ ok v
      → short_node x walk' items rest' nibbles path is_leaf left ≡ ok v'
      → Agree x v v'
  unfolding short_node
  short_node-Agree items rest rest' nibbles path is_leaf none v v' e e' =
      inl (sym (if-ok (no_nodes rest) none _ e) ∙ if-ok (no_nodes rest') none _ e')
  short_node-Agree items rest rest' nibbles path true (some left) v v' e e' =
      inl (leaf_value-Agree (item_at items 1) rest rest' left v v' e e')
  short_node-Agree items rest rest' nibbles path false (some left) v v' e e' =
      follow_child-Agree (item_at items 1) rest rest' left false v v' e e'

  path_node-Agree :
      (items : Items) (rest rest' : List Bytes) (nibbles : Bytes) (v v' : Option Bytes)
      → path_node x walk items rest nibbles ≡ ok v
      → path_node x walk' items rest' nibbles ≡ ok v'
      → Agree x v v'
  unfolding path_node
  path_node-Agree items rest rest' nibbles v v' e e' =
      let (b, d, e₁) = map_err_step-eq-ok rlp (as_bytes (item_at items 0)) _ e in
      let (b', d', e₁') = map_err_step-eq-ok rlp (as_bytes (item_at items 0)) _ e' in
      let ((path, is_leaf), p, e₂) = >>=-eq-ok (hex_prefix_decode b) _ e₁ in
      let ((path', is_leaf'), p', e₂') = >>=-eq-ok (hex_prefix_decode b') _ e₁' in
      let same : b' ≡ b = ok-injective (sym d' ∙ d) in
      let same_path : (path', is_leaf') ≡ (path, is_leaf) =
        ok-injective (sym p' ∙ ap hex_prefix_decode same ∙ p) in
      short_node-Agree items rest rest' nibbles path is_leaf (after_path path nibbles) v v' e₂ (
        ap
          (λ (q : Bytes × Bool).
            short_node x walk' items rest' nibbles q.0 q.1 (after_path q.0 nibbles))
          (sym same_path)
        ∙ e₂')

walk_items-Agree : (x : External) (f f' : ℕ) → Agrees x (walk_items x f) (walk_items x f')
unfolding walk_items
walk_items-Agree x zero f' items rest rest' nibbles v v' e e' = cc
walk_items-Agree x (suc f) zero items rest rest' nibbles v v' e e' = cc
walk_items-Agree x (suc f) (suc f') items rest rest' nibbles v v' e e' =
    let further = walk_items-Agree x f f' in
    elim (Bool-cases (item_count items == 17)) [
      | inl branch ↦
          branch_node-Agree x (walk_items x f) (walk_items x f') further items rest rest' nibbles v
            v' (sym (if_true _ _ branch) ∙ e) (sym (if_true _ _ branch) ∙ e')
      | inr other ↦ elim (Bool-cases (item_count items == 2)) [
        | inl pair ↦
            path_node-Agree x (walk_items x f) (walk_items x f') further items rest rest' nibbles v
              v' (sym (if_true _ _ pair) ∙ sym (if_false _ _ other) ∙ e)
              (sym (if_true _ _ pair) ∙ sym (if_false _ _ other) ∙ e')
        | inr bad ↦ cc (sym (if_false _ _ bad) ∙ sym (if_false _ _ other) ∙ e)
      ]
    ]

-- For a root of 32 bytes and one key: two proofs that verify_trie_proof accepts give the same
-- result, be it a value or the key's absence, or there are two different byte strings with the same
-- Keccak hash.
pub verify_trie_proof-Agree :
    (x : External) (root key : Bytes) (proof proof' : List Bytes) (v v' : Option Bytes)
    → length root ≡ 32
    → verify_trie_proof x root key proof ≡ ok v
    → verify_trie_proof x root key proof' ≡ ok v'
    → Agree x v v'
unfolding verify_trie_proof verify_nibble_proof
verify_trie_proof-Agree x root key proof proof' v v' wide e e' =
    let (_, e₁) = ensure-eq-ok (not (no_nodes proof)) _ _ e in
    let (_, e₁') = ensure-eq-ok (not (no_nodes proof')) _ _ e' in
    consume_hashed-Agree x (walk_items x (proof_length proof)) (walk_items x (proof_length proof'))
      (walk_items-Agree x (proof_length proof) (proof_length proof')) proof proof' root
      (bytes_to_nibbles key) v v' (omega arith) e₁ e₁'

Agree-map :
    {A B : Type 0} (x : External) (f : A → Result MptError B) {v v' : A} {a a' : B}
    → Agree x v v'
    → f v ≡ ok a
    → f v' ≡ ok a'
    → Agree x a a'
Agree-map x f (inr collision) e e' = inr collision
Agree-map x f (inl same) e e' = inl (ok-injective (sym e ∙ ap f same ∙ e'))

-- For a state root of 32 bytes and one address: two proofs that verify_account_proof accepts give
-- the same account, or there are two different byte strings with the same Keccak hash.
pub verify_account_proof-Agree :
    (x : External) (root address : Bytes) (proof proof' : List Bytes) (a a' : Account)
    → length root ≡ 32
    → verify_account_proof x root address proof ≡ ok a
    → verify_account_proof x root address proof' ≡ ok a'
    → Agree x a a'
unfolding verify_account_proof
verify_account_proof-Agree x root address proof proof' a a' wide e e' =
    let (v, found, e₁) = >>=-eq-ok (verify_trie_proof x root (x.keccak256 address) proof) _ e in
    let (v', found', e₁') =
      >>=-eq-ok (verify_trie_proof x root (x.keccak256 address) proof') _ e' in
    Agree-map x account_of
      (verify_trie_proof-Agree x root (x.keccak256 address) proof proof' v v' wide found found') e₁
      e₁'

-- For a storage root of 32 bytes and one slot: two proofs that verify_storage_proof accepts give
-- the same word, or there are two different byte strings with the same Keccak hash.
pub verify_storage_proof-Agree :
    (x : External) (root slot : Bytes) (proof proof' : List Bytes) (w w' : Bytes)
    → length root ≡ 32
    → verify_storage_proof x root slot proof ≡ ok w
    → verify_storage_proof x root slot proof' ≡ ok w'
    → Agree x w w'
unfolding verify_storage_proof
verify_storage_proof-Agree x root slot proof proof' w w' wide e e' =
    elim (Bool-cases (bytes_eq root empty_trie_root)) [
      | inl empty ↦
          inl (ok-injective (sym (sym (if_true _ _ empty) ∙ e) ∙ sym (if_true _ _ empty) ∙ e'))
      | inr other ↦
          let (v, found, e₁) =
            >>=-eq-ok (verify_trie_proof x root (x.keccak256 slot) proof) _
              (sym (if_false _ _ other) ∙ e) in
          let (v', found', e₁') =
            >>=-eq-ok (verify_trie_proof x root (x.keccak256 slot) proof') _
              (sym (if_false _ _ other) ∙ e') in
          Agree-map x word_of
            (verify_trie_proof-Agree x root (x.keccak256 slot) proof proof' v v' wide found found')
            e₁ e₁'
    ]
