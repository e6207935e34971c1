-- ===== src/Execution/Mpt/Ends.antt =====
-- The fuel of the walk in mpt.rs is enough: every step goes into a part of a node, or to a node of the
-- proof that is left.
use helios_bsc.Prelude.{
  ℕ, zero, suc, ◌+◌, ◌/◌, ◌%◌, ◌≤◌, ◌<◌, ◌≢◌, inl, inr, Bool, true, false, not, Option, none, some,
  List, [], ◌∷◌, Bytes, length, All, leb, ◌==◌, bytes_eq, Bool-cases, arith, err, map_err,
  >>=-ne-err, map_err-ne, ensure-ne, map_err-eq-ok, ensure,
}
use helios_bsc.Prelude.Words.{IsByte}
use helios_bsc.Types.External.{External}
use helios_bsc.Rlp.Encode.{Rlp, Items, bytes, list}
use helios_bsc.Rlp.Decode.{decode}
use helios_bsc.Execution.Mpt.Payload.{
  payload, AreBytes, Inside, list-payload, string-payload, item_at-Inside, decode-payload,
}
use helios_bsc.Execution.Mpt.{
  path_mismatch, extra_nodes, exhausted, Walk, rlp, out_of_fuel, hash_mismatch, as_bytes, as_list,
  item_count, item_at, hex_prefix_decode, path_nibbles, bytes_to_nibbles, after_path, no_nodes,
  leaf_value, node_ref, walk_raw, consume_hashed, follow_ref, follow_child, branch_node, short_node,
  path_node, walk_items, proof_length, verify_nibble_proof, verify_trie_proof,
}

path_nibbles-Ends : (odd : Bool) (nibs : Bytes) → path_nibbles odd nibs ≢ err out_of_fuel
unfolding path_nibbles
path_nibbles-Ends odd [] = λ e. cc
path_nibbles-Ends odd (n ∷ []) = λ e. ground arith
path_nibbles-Ends odd (n ∷ m ∷ nibs) = λ e. ground arith

hex_prefix_decode-Ends : (path : Bytes) → hex_prefix_decode path ≢ err out_of_fuel
unfolding hex_prefix_decode
hex_prefix_decode-Ends [] = λ e. cc
hex_prefix_decode-Ends (b ∷ bs) =
    >>=-ne-err (ensure (leb (b / 16) 3) (path_mismatch 0 0 0)) _ out_of_fuel
      (ensure-ne (leb (b / 16) 3) (path_mismatch 0 0 0) out_of_fuel (λ q. cc))
      λ u e.
        >>=-ne-err (path_nibbles (b / 16 % 2 == 1) (bytes_to_nibbles (b ∷ bs))) _ out_of_fuel
          (path_nibbles-Ends (b / 16 % 2 == 1) (bytes_to_nibbles (b ∷ bs))) λ nibs e' q. cc

-- A walk that ends on nodes of fewer than `f` bytes.
abbrev EndsBelow : ℕ → Walk → Type 0
EndsBelow f walk =
    (items : Items) (rest : List Bytes) (nibbles : Bytes)
    → All IsByte (payload items)
    → AreBytes rest
    → length (payload items) + proof_length rest < f
    → walk items rest nibbles ≢ err out_of_fuel

module _ (x : External) (f : ℕ) (walk : Walk) (ends : EndsBelow f walk) where
  walk_raw-Ends :
      (raw : Bytes) (rest : List Bytes) (nibbles : Bytes)
      → All IsByte raw
      → AreBytes rest
      → length raw + proof_length rest ≤ f
      → walk_raw x walk raw rest nibbles ≢ err out_of_fuel
  unfolding walk_raw
  walk_raw-Ends raw rest nibbles h hs fits =
      >>=-ne-err (map_err rlp (decode raw)) _ out_of_fuel
        (map_err-ne rlp (decode raw) out_of_fuel (λ d q. cc))
        λ r e.
          >>=-ne-err (map_err rlp (as_list r)) _ out_of_fuel
            (map_err-ne rlp (as_list r) out_of_fuel (λ d q. cc))
            λ items i.
              let (less, are) =
                decode-payload raw r items h (map_err-eq-ok rlp (decode raw) e)
                  (map_err-eq-ok rlp (as_list r) i) in
              ends items rest nibbles are hs (omega arith)

  consume_hashed-Ends :
      (rest : List Bytes) (expected nibbles : Bytes)
      → AreBytes rest
      → proof_length rest ≤ f
      → consume_hashed x walk rest expected nibbles ≢ err out_of_fuel
  unfolding consume_hashed proof_length
  consume_hashed-Ends [] expected nibbles hs fits = λ e. cc
  consume_hashed-Ends (raw ∷ rest) expected nibbles (h, hs) fits =
      >>=-ne-err (ensure (bytes_eq (node_ref x raw) expected) hash_mismatch) _ out_of_fuel
        (ensure-ne (bytes_eq (node_ref x raw) expected) hash_mismatch out_of_fuel (λ q. cc))
        λ u e. walk_raw-Ends raw rest nibbles h hs fits

  follow_child-Ends :
      (item : Rlp) (rest : List Bytes) (nibbles : Bytes) (branch_value : Bool) (n : ℕ)
      → Inside n item
      → AreBytes rest
      → n + proof_length rest ≤ f
      → follow_child x walk item rest nibbles branch_value ≢ err out_of_fuel
  unfolding follow_child follow_ref
  follow_child-Ends (bytes []) rest nibbles branch_value n inside hs fits = λ e. ground arith
  follow_child-Ends (bytes (c ∷ b)) rest nibbles true n inside hs fits = λ e. ground arith
  follow_child-Ends (bytes (c ∷ b)) rest nibbles false n (inl empty) hs fits = λ e. cc
  follow_child-Ends (bytes (c ∷ b)) rest nibbles false n (inr (small, are)) hs fits =
      let (fits_b, are_b) = string-payload (c ∷ b) are in
      elim (Bool-cases (leb 32 (length (c ∷ b)))) [
        | inl hashed ↦ rw hashed (consume_hashed-Ends rest (c ∷ b) nibbles hs (omega arith))
        | inr inlined ↦ rw inlined (walk_raw-Ends (c ∷ b) rest nibbles are_b hs (omega arith))
      ]
  follow_child-Ends (list v) rest nibbles branch_value n (inl empty) hs fits = λ e. cc
  follow_child-Ends (list v) rest nibbles branch_value n (inr (small, are)) hs fits =
      let (less, are_v) = list-payload v are in ends v rest nibbles are_v hs (omega arith)

  branch_node-Ends :
      (items : Items) (rest : List Bytes) (nibbles : Bytes)
      → All IsByte (payload items)
      → AreBytes rest
      → length (payload items) + proof_length rest ≤ f
      → branch_node x walk items rest nibbles ≢ err out_of_fuel
  unfolding branch_node
  branch_node-Ends items rest [] h hs fits =
      follow_child-Ends (item_at items 16) rest [] true (length (payload items))
        (item_at-Inside items 16 h) hs fits
  branch_node-Ends items rest (n ∷ nibbles) h hs fits =
      follow_child-Ends (item_at items n) rest nibbles false (length (payload items))
        (item_at-Inside items n h) hs fits

  leaf_value-Ends :
      (item : Rlp) (rest : List Bytes) (left : Bytes) → leaf_value item rest left ≢ err out_of_fuel
  unfolding leaf_value
  leaf_value-Ends item rest (n ∷ left) = λ e. cc
  leaf_value-Ends item rest [] =
      >>=-ne-err (ensure (no_nodes rest) extra_nodes) _ out_of_fuel
        (ensure-ne (no_nodes rest) extra_nodes out_of_fuel (λ q. cc))
        λ u e.
          >>=-ne-err (map_err rlp (as_bytes item)) _ out_of_fuel
            (map_err-ne rlp (as_bytes item) out_of_fuel (λ d q. cc)) λ v e' q. cc

  short_node-Ends :
      (items : Items) (rest : List Bytes) (nibbles path : Bytes) (is_leaf : Bool)
      (left : Option Bytes)
      → All IsByte (payload items)
      → AreBytes rest
      → length (payload items) + proof_length rest ≤ f
      → short_node x walk items rest nibbles path is_leaf left ≢ err out_of_fuel
  unfolding short_node
  short_node-Ends items rest nibbles path is_leaf none h hs fits = λ e. ground arith
  short_node-Ends items rest nibbles path true (some left) h hs fits =
      leaf_value-Ends (item_at items 1) rest left
  short_node-Ends items rest nibbles path false (some left) h hs fits =
      follow_child-Ends (item_at items 1) rest left false (length (payload items))
        (item_at-Inside items 1 h) hs fits

  path_node-Ends :
      (items : Items) (rest : List Bytes) (nibbles : Bytes)
      → All IsByte (payload items)
      → AreBytes rest
      → length (payload items) + proof_length rest ≤ f
      → path_node x walk items rest nibbles ≢ err out_of_fuel
  unfolding path_node
  path_node-Ends items rest nibbles h hs fits =
      >>=-ne-err (map_err rlp (as_bytes (item_at items 0))) _ out_of_fuel
        (map_err-ne rlp (as_bytes (item_at items 0)) out_of_fuel (λ d q. cc))
        λ b e.
          >>=-ne-err (hex_prefix_decode b) _ out_of_fuel (hex_prefix_decode-Ends b)
            λ (path, is_leaf) e'.
              short_node-Ends items rest nibbles path is_leaf (after_path path nibbles) h hs fits

walk_items-Ends : (x : External) (f : ℕ) → EndsBelow f (walk_items x f)
unfolding walk_items
walk_items-Ends x zero items rest nibbles h hs fits = absurd (omega arith)
walk_items-Ends x (suc f) items rest nibbles h hs fits =
    let further = walk_items-Ends x f in
    elim (Bool-cases (item_count items == 17)) [
      | inl branch ↦
          rw branch
            (branch_node-Ends x f (walk_items x f) further items rest nibbles h hs (omega arith))
      | inr other ↦ elim (Bool-cases (item_count items == 2)) [
        | inl pair ↦
            rw (other, pair)
              (path_node-Ends x f (walk_items x f) further items rest nibbles h hs (omega arith))
        | inr bad ↦ rw (other, bad) (λ e. cc)
      ]
    ]

-- On a proof whose nodes are lists of bytes, verify_trie_proof of the model never runs out of fuel.
pub verify_trie_proof-Ends :
    (x : External) (root key : Bytes) (proof : List Bytes)
    → AreBytes proof
    → verify_trie_proof x root key proof ≢ err out_of_fuel
unfolding verify_trie_proof verify_nibble_proof
verify_trie_proof-Ends x root key proof hs =
    >>=-ne-err (ensure (not (no_nodes proof)) exhausted) _ out_of_fuel
      (ensure-ne (not (no_nodes proof)) exhausted out_of_fuel (λ q. cc))
      λ u e.
        consume_hashed-Ends x (proof_length proof) (walk_items x (proof_length proof))
          (walk_items-Ends x (proof_length proof)) proof root (bytes_to_nibbles key) hs
          (omega arith)
