-- ===== src/Rlp/Encode.antt =====
-- The RLP encoder of rlp.rs (`encode_bytes`, `encode_uint`, `encode_list`, `len_be`), and the
-- items that the decoder returns.
use mathlib.Core.Option
use helios_bsc.Prelude.{
  ℕ, zero, suc, ◌+◌, ◌/◌, ◌%◌, Option, none, some, List, [], ◌∷◌, ◌++◌, Bytes, length, drop, leb,
  ltb, ◌==◌, ◌&&◌, if◌then◌else◌, get_or,
}

-- A list item holds a list of items, which is a type of its own in the block.
mutual
  pub data Rlp : Type 0 where
    bytes : Bytes → Rlp
    list : Items → Rlp

  pub data Items : Type 0 where
    nil : Items
    cons : Rlp → Items → Items

-- `u64::to_be_bytes` for a word of `k` bytes.
unfoldable pub to_be_bytes : ℕ → ℕ → Bytes
to_be_bytes zero n = []
to_be_bytes (suc k) n = to_be_bytes k (n / 256) ++ n % 256 ∷ []

-- `be.iter().position(|&b| b != 0)`
unfoldable pub position_nonzero : Bytes → Option ℕ
position_nonzero [] = none
position_nonzero (b ∷ bs) = if b == 0 then Option.map suc (position_nonzero bs) else some 0

-- `unwrap_or(be.len() - 1)`, and the index `be[start..]`.
abbrev pub from_position : Bytes → Option ℕ → Bytes
from_position be none = drop 7 be
from_position be (some start) = drop start be

unfoldable pub len_be : ℕ → Bytes
len_be len = let be = to_be_bytes 8 len in from_position be (position_nonzero be)

unfoldable pub encode_string : Bytes → Bytes
encode_string payload =
    if leb (length payload) 55
    then (0x80 + length payload) ∷ payload
    else let lenb = len_be (length payload) in (0xb7 + length lenb) ∷ (lenb ++ payload)

unfoldable pub encode_bytes : Bytes → Bytes
encode_bytes payload =
    if length payload == 1 && ltb (get_or payload 0 0) 0x80
    then get_or payload 0 0 ∷ []
    else encode_string payload

-- The `unwrap` cannot fail, since a number that is not zero has a byte that is not zero.
abbrev pub unwrap_position : Option ℕ → ℕ
unwrap_position none = 0
unwrap_position (some start) = start

unfoldable pub encode_uint : ℕ → Bytes
encode_uint n =
    if n == 0
    then 0x80 ∷ []
    else let be = to_be_bytes 8 n in encode_bytes (drop (unwrap_position (position_nonzero be)) be)

-- The encoder of rlp_util.rs, which takes a `u128`.
unfoldable pub encode_uint128 : ℕ → Bytes
encode_uint128 n =
    if n == 0
    then 0x80 ∷ []
    else let be = to_be_bytes 16 n in encode_bytes (drop (unwrap_position (position_nonzero be)) be)

unfoldable pub concat : List Bytes → Bytes
concat [] = []
concat (item ∷ items) = item ++ concat items

-- `encode_list` once the items are concatenated.
unfoldable pub list_header : Bytes → Bytes
list_header payload =
    if leb (length payload) 55
    then (0xc0 + length payload) ∷ payload
    else let lenb = len_be (length payload) in (0xf7 + length lenb) ∷ (lenb ++ payload)

unfoldable pub encode_list : List Bytes → Bytes
encode_list items = list_header (concat items)

-- The encoding of an item, by the functions above.
unfoldable mutual
  pub encode : Rlp → Bytes
  encode (bytes b) = encode_bytes b
  encode (list items) = encode_list (encode_each items)

  pub encode_each : Items → List Bytes
  encode_each nil = []
  encode_each (cons r items) = encode r ∷ encode_each items
