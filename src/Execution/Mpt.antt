-- ===== src/Execution/Mpt.antt =====
-- crates/helios-bsc-execution/src/mpt.rs: the walk along a Merkle-Patricia proof.
pub mod Leaves
pub mod Unique
pub mod Payload
pub mod Ends
use helios_bsc.Prelude.{
  ℕ, zero, suc, ◌+◌, ◌-◌, ◌*◌, ◌/◌, ◌%◌, Bool, true, false, not, Option, none, some, List, [], ◌∷◌,
  Bytes, length, drop, leb, ltb, ◌==◌, bytes_eq, ◌&&◌, ◌||◌, if◌then◌else◌, Result, ok, err, ◌>>=◌,
  ◌>>◌, ensure, map_err,
}
use helios_bsc.Types.External.{External}
use helios_bsc.Rlp.Encode.{Rlp, Items, bytes, list, nil, cons}
use helios_bsc.Rlp.Decode.{RlpError, invalid, decode}

-- `out_of_fuel` is the model's own; the walk never gives it.
pub data MptError : Type 0 where
  rlp : RlpError → MptError
  hash_mismatch : MptError
  path_mismatch : ℕ → ℕ → ℕ → MptError
  empty_child exhausted extra_nodes bad_account key_leftover bad_storage_leaf : MptError
  out_of_fuel : MptError

unfoldable pub as_bytes : Rlp → Result RlpError Bytes
as_bytes (bytes b) = ok b
as_bytes (list items) = err invalid

unfoldable pub as_list : Rlp → Result RlpError Items
as_list (bytes b) = err invalid
as_list (list items) = ok items

-- `items.len()`
unfoldable pub item_count : Items → ℕ
item_count nil = 0
item_count (cons r items) = suc (item_count items)

-- `items[i]`, for an index that is in range: a nibble of 17 children, or 0 and 1 of two items.
unfoldable pub item_at : Items → ℕ → Rlp
item_at nil i = bytes []
item_at (cons r items) zero = r
item_at (cons r items) (suc i) = item_at items i

-- `x >> 4` and `x & 0x0f` of each byte.
unfoldable pub bytes_to_nibbles : Bytes → Bytes
bytes_to_nibbles [] = []
bytes_to_nibbles (b ∷ bs) = b / 16 ∷ b % 16 ∷ bytes_to_nibbles bs

-- The path behind the flag: an odd one starts in the first byte, an even one behind a zero nibble.
unfoldable pub path_nibbles : Bool → Bytes → Result MptError Bytes
path_nibbles odd [] = err (path_mismatch 0 0 0)
path_nibbles odd (n ∷ []) = if odd then ok [] else err (path_mismatch 0 0 0)
path_nibbles odd (n ∷ m ∷ nibs) =
    if odd then ok (m ∷ nibs) else if m == 0 then ok nibs else err (path_mismatch 0 0 0)

-- The flag's lowest bit says that the path is odd, the next one that the node is a leaf.
unfoldable pub hex_prefix_decode : Bytes → Result MptError (Bytes × Bool)
hex_prefix_decode [] = err (path_mismatch 0 0 0)
hex_prefix_decode (b ∷ bs) = do
  let flag = b / 16
  ensure (leb flag 3) (path_mismatch 0 0 0)
  nibs ← path_nibbles (flag % 2 == 1) (bytes_to_nibbles (b ∷ bs))
  ok (nibs, leb 2 flag)

-- `nibbles.drain(..path.len())` where the path leads along the key, `none` where it does not.
unfoldable pub after_path : Bytes → Bytes → Option Bytes
after_path [] nibbles = some nibbles
after_path (p ∷ path) [] = none
after_path (p ∷ path) (n ∷ nibbles) =
    let left = after_path path nibbles in if p == n then left else none

abbrev pub no_nodes : List Bytes → Bool
no_nodes [] = true
no_nodes (raw ∷ rest) = false

-- The call of `walk_items` that the other functions make, on items, the nodes and nibbles left.
abbrev pub Walk : Type 0
Walk = Items → List Bytes → Bytes → Result MptError (Option Bytes)

-- The value of a leaf, once the path is used up.
unfoldable pub leaf_value : Rlp → List Bytes → Bytes → Result MptError (Option Bytes)
leaf_value item rest (n ∷ nibbles) = err key_leftover
leaf_value item rest [] = do
  ensure (no_nodes rest) extra_nodes
  value ← map_err rlp (as_bytes item)
  ok (some value)

-- The bytes of the proof, which are fuel enough.
unfoldable pub proof_length : List Bytes → ℕ
proof_length [] = 0
proof_length (raw ∷ rest) = length raw + proof_length rest

module _ (x : External) where
  unfoldable pub node_ref : Bytes → Bytes
  node_ref node = if ltb (length node) 32 then node else x.keccak256 node

  -- `walk_items(decode(raw)?.as_list()?, ..)`
  unfoldable pub walk_raw : Walk → Bytes → List Bytes → Bytes → Result MptError (Option Bytes)
  walk_raw walk raw rest nibbles = do
    decoded ← map_err rlp (decode raw)
    items ← map_err rlp (as_list decoded)
    walk items rest nibbles

  unfoldable pub consume_hashed : Walk → List Bytes → Bytes → Bytes → Result MptError (Option Bytes)
  consume_hashed walk [] expected nibbles = err exhausted
  consume_hashed walk (raw ∷ rest) expected nibbles = do
    ensure (bytes_eq (node_ref raw) expected) hash_mismatch
    walk_raw walk raw rest nibbles

  -- A child that is not empty and not the value of a branch: a hash, or a node that is inlined.
  unfoldable pub follow_ref : Walk → Bytes → List Bytes → Bytes → Result MptError (Option Bytes)
  follow_ref walk b rest nibbles =
      if leb 32 (length b) then consume_hashed walk rest b nibbles else walk_raw walk b rest nibbles

  unfoldable pub follow_child :
      Walk → Rlp → List Bytes → Bytes → Bool → Result MptError (Option Bytes)
  follow_child walk (bytes []) rest nibbles branch_value =
      if no_nodes rest then ok none else err empty_child
  follow_child walk (bytes (c ∷ b)) rest nibbles true = do
    ensure (no_nodes rest) extra_nodes
    ok (some (c ∷ b))
  follow_child walk (bytes (c ∷ b)) rest nibbles false = follow_ref walk (c ∷ b) rest nibbles
  follow_child walk (list v) rest nibbles branch_value = walk v rest nibbles

  unfoldable pub branch_node : Walk → Items → List Bytes → Bytes → Result MptError (Option Bytes)
  branch_node walk items rest [] = follow_child walk (item_at items 16) rest [] true
  branch_node walk items rest (n ∷ nibbles) = follow_child walk (item_at items n) rest nibbles false

  -- A path that leads elsewhere shows, at the end of the proof, that the key is absent.
  unfoldable pub short_node :
      Walk
      → Items
      → List Bytes
      → Bytes
      → Bytes
      → Bool
      → Option Bytes
      → Result MptError (Option Bytes)
  short_node walk items rest nibbles path is_leaf none =
      if no_nodes rest then ok none else err (path_mismatch 0 (length nibbles) (length path))
  short_node walk items rest nibbles path true (some left) = leaf_value (item_at items 1) rest left
  short_node walk items rest nibbles path false (some left) =
      follow_child walk (item_at items 1) rest left false

  unfoldable pub path_node : Walk → Items → List Bytes → Bytes → Result MptError (Option Bytes)
  path_node walk items rest nibbles = do
    path_bytes ← map_err rlp (as_bytes (item_at items 0))
    (path, is_leaf) ← hex_prefix_decode path_bytes
    short_node walk items rest nibbles path is_leaf (after_path path nibbles)

  unfoldable pub walk_items : ℕ → Walk
  walk_items zero items rest nibbles = err out_of_fuel
  walk_items (suc f) items rest nibbles =
      let walk : Walk = λ items rest nibbles. walk_items f items rest nibbles in
      if item_count items == 17
      then branch_node walk items rest nibbles
      else if item_count items == 2
      then path_node walk items rest nibbles
      else err (rlp invalid)

  -- On an empty proof `consume_hashed` gives `exhausted` too, which is what the guard gives.
  unfoldable pub verify_nibble_proof : Bytes → Bytes → List Bytes → Result MptError (Option Bytes)
  verify_nibble_proof root nibbles proof = do
    ensure (not (no_nodes proof)) exhausted
    consume_hashed (walk_items (proof_length proof)) proof root nibbles

  unfoldable pub verify_trie_proof : Bytes → Bytes → List Bytes → Result MptError (Option Bytes)
  verify_trie_proof root hashed_key proof =
      verify_nibble_proof root (bytes_to_nibbles hashed_key) proof
