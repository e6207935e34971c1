-- ===== src/Execution/OrderedTrie.antt =====
-- crates/helios-bsc-execution/src/ordered_trie.rs: the root of the trie of a list.
pub mod Prefix
pub mod Ends
use helios_bsc.Prelude.{
  ℕ, zero, suc, ◌+◌, ◌*◌, ◌%◌, max, min, Bool, true, false, List, [], ◌∷◌, Bytes, length, drop,
  take, get_or, ltb, leb, ◌==◌, if◌then◌else◌, Result, ok, err, ◌>>=◌, ◌>>◌, ensure, ◌++◌,
}
use helios_bsc.Types.External.{External}
use helios_bsc.Rlp.Encode.{encode_bytes, encode_uint, encode_list}
use helios_bsc.Consensus.Snapshot.State.{sort_by_key}
use helios_bsc.Execution.Mpt.{bytes_to_nibbles}
use helios_bsc.Execution.Mpt.Leaves.{empty_trie_root}

-- `u8::from`
abbrev pub bit : Bool → ℕ
bit true = 1
bit false = 0

-- The loop over `chunks(2)`. Its callers give it an even number of nibbles, on which `|` is a sum.
unfoldable pub pack_nibbles : Bytes → Bytes
pack_nibbles [] = []
pack_nibbles (n ∷ []) = []
pack_nibbles (n ∷ m ∷ rest) = (n * 16 + m) ∷ pack_nibbles rest

unfoldable pub hex_prefix_encode : Bytes → Bool → Bytes
hex_prefix_encode nibbles leaf =
    let odd = length nibbles % 2 in
    let first = (bit (odd == 1) + 2 * bit leaf) * 16 in
    (if odd == 1 then first + get_or nibbles 0 0 else first) ∷ pack_nibbles (drop odd nibbles)

-- What the model gives in place of a root: the code panics on an index that is out of range, and
-- `out_of_fuel` is the model's own.
pub data TrieFault : Type 0 where
  panic out_of_fuel : TrieFault

abbrev pub max_ordered_trie_items : ℕ
max_ordered_trie_items = 4096

-- Pairs of nibbles and a value.
abbrev pub Pairs : Type 0
Pairs = List (Bytes × Bytes)

unfoldable pub shared_prefix_len : Bytes → Bytes → ℕ
shared_prefix_len [] b = 0
shared_prefix_len (x ∷ a) [] = 0
shared_prefix_len (x ∷ a) (y ∷ b) =
    let rest = shared_prefix_len a b in if x == y then suc rest else 0

-- The loop that lowers `shared`.
unfoldable pub shared_by : Bytes → ℕ → Pairs → ℕ
shared_by key shared [] = shared
shared_by key shared (p ∷ pairs) = shared_by key (min shared (shared_prefix_len key p.0)) pairs

-- `k[i]`
unfoldable pub nibble_at : ℕ → Bytes → Result TrieFault ℕ
nibble_at i [] = err panic
nibble_at zero (n ∷ k) = ok n
nibble_at (suc i) (n ∷ k) = nibble_at i k

-- `take_while(..).count()`
unfoldable pub count_nibble : ℕ → ℕ → Pairs → Result TrieFault ℕ
count_nibble pre_len nibble [] = ok 0
count_nibble pre_len nibble (p ∷ pairs) = do
  n ← nibble_at pre_len p.0
  let rest = count_nibble pre_len nibble pairs
  if n == nibble then rest >>= (λ len. ok (suc len)) else ok 0

-- `encode_node`, as the other functions call it.
abbrev pub Encoder : Type 0
Encoder = Pairs → ℕ → Result TrieFault Bytes

-- The pairs of the items from the index on.
unfoldable pub pairs_from : ℕ → List Bytes → Pairs
pairs_from i [] = []
pairs_from i (item ∷ items) = (bytes_to_nibbles (encode_uint i), item) ∷ pairs_from (suc i) items

unfoldable pub longest_key : Pairs → ℕ
longest_key [] = 0
longest_key (p ∷ pairs) = max (length p.0) (longest_key pairs)

module _ (x : External) where
  unfoldable pub child_ref : Bytes → Bytes
  child_ref encoded =
      if ltb (length encoded) 32 then encoded else encode_bytes (x.keccak256 encoded)

  unfoldable pub child_at : Encoder → ℕ → Pairs → Result TrieFault Bytes
  child_at encode pre_len [] = ok (encode_bytes [])
  child_at encode pre_len (p ∷ group) = do
    child ← encode (p ∷ group) (suc pre_len)
    ok (child_ref child)

  -- The children of the nibbles from `nibble` on, of which `left` are left.
  unfoldable pub child_list : Encoder → ℕ → ℕ → ℕ → Pairs → Result TrieFault (List Bytes)
  child_list encode pre_len zero nibble pairs = ok []
  child_list encode pre_len (suc left) nibble pairs = do
    len ← count_nibble pre_len nibble pairs
    child ← child_at encode pre_len (take len pairs)
    children ← child_list encode pre_len left (suc nibble) (drop len pairs)
    ok (child ∷ children)

  -- Where the first key ends at the branch, its value goes into the branch.
  unfoldable pub branch_children : Encoder → ℕ → Bytes × Bytes → Pairs → Result TrieFault Bytes
  branch_children encode pre_len p pairs =
      let ends = pre_len == length p.0 in
      do
        children ← child_list encode pre_len 16 0 (if ends then pairs else p ∷ pairs)
        ok (encode_list (children ++ (if ends then encode_bytes p.1 else encode_bytes []) ∷ []))

  unfoldable pub leaf_node : ℕ → Bytes × Bytes → Result TrieFault Bytes
  leaf_node pre_len p = do
    ensure (leb pre_len (length p.0)) panic
    ok (
        encode_list
          (encode_bytes (hex_prefix_encode (drop pre_len p.0) true) ∷ encode_bytes p.1 ∷ []))

  unfoldable pub shared_node : Encoder → ℕ → ℕ → Bytes → Pairs → Result TrieFault Bytes
  shared_node encode pre_len shared key pairs = do
    child ← encode pairs shared
    ok (
        encode_list (
          encode_bytes (hex_prefix_encode (drop pre_len (take shared key)) false)
          ∷ child_ref child
          ∷ []))

  unfoldable pub encode_node : ℕ → Encoder
  encode_node zero pairs pre_len = err out_of_fuel
  encode_node (suc f) [] pre_len = ok (encode_bytes [])
  encode_node (suc f) (p ∷ []) pre_len = leaf_node pre_len p
  encode_node (suc f) (p ∷ q ∷ pairs) pre_len =
      let shared = shared_by p.0 (length p.0) (q ∷ pairs) in
      let encode : Encoder = λ pairs pre_len. encode_node f pairs pre_len in
      if ltb pre_len shared
      then shared_node encode pre_len shared p.0 (p ∷ q ∷ pairs)
      else branch_children encode pre_len p (q ∷ pairs)

  -- One step of fuel for each nibble of the longest key, and one more. The keys differ, so a stable
  -- sort gives what an unstable one does.
  unfoldable pub root_of : Pairs → Result TrieFault Bytes
  root_of pairs = do node ← encode_node (suc (longest_key pairs)) pairs 0; ok (x.keccak256 node)

  unfoldable pub ordered_trie_root : List Bytes → Result TrieFault Bytes
  ordered_trie_root items =
      let listed = take max_ordered_trie_items items in
      if length listed == 0
      then ok empty_trie_root
      else root_of (sort_by_key (λ p. p.0) (pairs_from 0 listed))
