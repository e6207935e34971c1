-- ===== src/Consensus/Seal/Binding.antt =====
-- What the hash of a header in seal.rs binds: the fields that it is computed from.
use mathlib.Core.Path.{subst}
use helios_bsc.Prelude.{
  ℕ, ◌≡◌, ◌⊎◌, inl, inr, refl, sym, ap, ◌∙◌, Bool, true, false, Option, none, some, List, [], Bytes,
  length, get_or, All, All-append, ◌||◌, ◌==◌, ==_iff, ◌%◌, bytes_eq, bytes_eq→eq, bytes_eq-false,
  Bool-cases, Result, ok, ◌>>=◌, >>=-eq-ok, ensure-eq-ok, map_err_step-eq-ok, ok_or-eq-ok,
  ok-injective, arith,
}
use helios_bsc.Prelude.Words.{IsU64, IsByte}
use helios_bsc.Types.External.{External, Collision, HexBytes}
use helios_bsc.Types.Header.{RpcBlockHeader}
use helios_bsc.Types.Hex.{decode_u64, decode_hex, decode_hex_fixed, strip_0x, invalid_hex}
use helios_bsc.Rlp.Encode.{encode_bytes, encode_list, concat}
use helios_bsc.Rlp.Injective.{
  IsItem, encode_list-injective, encode_bytes-injective, empty-IsItem, encode_uint128-IsItem,
}
use helios_bsc.Consensus.Seal.{SealError, types}
use helios_bsc.Consensus.Seal.Hash.{
  is_some, push_if, encode_opt_uint, encode_opt_hash, optional_items, header_items, header_hash,
}

module _ (x : External) (hex : HexBytes x) where
  decode_hex-IsByte : (s b : Bytes) → decode_hex x s ≡ ok b → All IsByte b
  unfolding decode_hex
  decode_hex-IsByte s b e =
      let (even, e₁) = ensure-eq-ok (length (strip_0x s) % 2 == 0) _ _ e in
      hex (strip_0x s) b (ok_or-eq-ok (x.hex_decode (strip_0x s)) invalid_hex e₁)

  decode_hex_fixed-IsByte :
      (n : ℕ) (s b : Bytes) → decode_hex_fixed x n s ≡ ok b → All IsByte b × (length b ≡ n)
  unfolding decode_hex_fixed
  decode_hex_fixed-IsByte n s b e =
      let (v, read, e₁) = >>=-eq-ok (decode_hex x s) _ e in
      let (wide, e₂) = ensure-eq-ok (length v == n) _ _ e₁ in
      let same : v ≡ b = ok-injective e₂ in
      (
        subst (All IsByte) same (decode_hex-IsByte s v read),
        ap length (sym same) ∙ (==_iff (length v) n).0 wide,
      )

  fixed-IsItem : (n : ℕ) (s b : Bytes) → decode_hex_fixed x n s ≡ ok b → IsItem (encode_bytes b)
  fixed-IsItem n s b e = (b, (decode_hex_fixed-IsByte n s b e).0, refl)

  encode_opt_uint-IsItem : (o : Option Bytes) (b : Bytes) → encode_opt_uint o ≡ ok b → IsItem b
  unfolding encode_opt_uint
  encode_opt_uint-IsItem none b e = subst IsItem (ok-injective e) empty-IsItem
  encode_opt_uint-IsItem (some s) b e =
      let (n, read, e₁) = map_err_step-eq-ok types (decode_u64 s) _ e in
      subst IsItem (ok-injective e₁) (encode_uint128-IsItem n)

  encode_opt_hash-IsItem : (o : Option Bytes) (b : Bytes) → encode_opt_hash x o ≡ ok b → IsItem b
  unfolding encode_opt_hash
  encode_opt_hash-IsItem none b e = subst IsItem (ok-injective e) empty-IsItem
  encode_opt_hash-IsItem (some s) b e =
      let (v, read, e₁) = map_err_step-eq-ok types (decode_hex_fixed x 32 s) _ e in
      subst IsItem (ok-injective e₁) (fixed-IsItem 32 s v read)

  push_if-AreItems :
      (c : Bool) (item : Result SealError Bytes) (l : List Bytes)
      → ((b : Bytes) → item ≡ ok b → IsItem b)
      → push_if c item ≡ ok l
      → All IsItem l
  push_if-AreItems true item l is e =
      let (b, made, e₁) = >>=-eq-ok item _ e in subst (All IsItem) (ok-injective e₁) (is b made, tt)
  push_if-AreItems false item l is e = subst (All IsItem) (ok-injective e) tt

  opt_uint-AreItems :
      (c : Bool) (o : Option Bytes) (l : List Bytes)
      → push_if c (encode_opt_uint o) ≡ ok l
      → All IsItem l
  opt_uint-AreItems c o l = push_if-AreItems c (encode_opt_uint o) l (encode_opt_uint-IsItem o)

  opt_hash-AreItems :
      (c : Bool) (o : Option Bytes) (l : List Bytes)
      → push_if c (encode_opt_hash x o) ≡ ok l
      → All IsItem l
  opt_hash-AreItems c o l = push_if-AreItems c (encode_opt_hash x o) l (encode_opt_hash-IsItem o)

  optional_items-AreItems :
      (h : RpcBlockHeader) (l : List Bytes) → optional_items x h ≡ ok l → All IsItem l
  unfolding optional_items
  optional_items-AreItems h l e =
      let c₆ = is_some h.requests_hash in
      let c₅ = is_some h.parent_beacon_block_root || is_some h.requests_hash in
      let c₄ =
        is_some h.excess_blob_gas
        || is_some h.parent_beacon_block_root
        || is_some h.requests_hash in
      let c₃ =
        is_some h.blob_gas_used
        || is_some h.excess_blob_gas
        || is_some h.parent_beacon_block_root
        || is_some h.requests_hash in
      let c₂ =
        is_some h.withdrawals_root
        || is_some h.blob_gas_used
        || is_some h.excess_blob_gas
        || is_some h.parent_beacon_block_root
        || is_some h.requests_hash in
      let c₁ =
        is_some h.base_fee_per_gas
        || is_some h.withdrawals_root
        || is_some h.blob_gas_used
        || is_some h.excess_blob_gas
        || is_some h.parent_beacon_block_root
        || is_some h.requests_hash in
      let (base, m₁, e₁) = >>=-eq-ok (push_if c₁ (encode_opt_uint h.base_fee_per_gas)) _ e in
      let (wd, m₂, e₂) = >>=-eq-ok (push_if c₂ (encode_opt_hash x h.withdrawals_root)) _ e₁ in
      let (blob, m₃, e₃) = >>=-eq-ok (push_if c₃ (encode_opt_uint h.blob_gas_used)) _ e₂ in
      let (excess, m₄, e₄) = >>=-eq-ok (push_if c₄ (encode_opt_uint h.excess_blob_gas)) _ e₃ in
      let (beacon, m₅, e₅) =
        >>=-eq-ok (push_if c₅ (encode_opt_hash x h.parent_beacon_block_root)) _ e₄ in
      let (req, m₆, e₆) = >>=-eq-ok (push_if c₆ (encode_opt_hash x h.requests_hash)) _ e₅ in
      subst (All IsItem) (ok-injective e₆) (
        All-append IsItem _ req
          (All-append IsItem _ beacon
            (All-append IsItem _ excess
              (All-append IsItem _ blob
                (All-append IsItem base wd (opt_uint-AreItems c₁ h.base_fee_per_gas base m₁)
                  (opt_hash-AreItems c₂ h.withdrawals_root wd m₂))
                (opt_uint-AreItems c₃ h.blob_gas_used blob m₃))
              (opt_uint-AreItems c₄ h.excess_blob_gas excess m₄))
            (opt_hash-AreItems c₅ h.parent_beacon_block_root beacon m₅))
          (opt_hash-AreItems c₆ h.requests_hash req m₆))

-- The items of a header: each is an encoded string, and these are the hashes among them.
pub record HashedItems (x : External) (h : RpcBlockHeader) (items : List Bytes) : Type 0 where
  pub are : All IsItem items
  pub parent : Bytes
  pub parent_of : decode_hex_fixed x 32 h.parent_hash ≡ ok parent
  pub parent_at : get_or items 0 [] ≡ encode_bytes parent
  pub root : Bytes
  pub root_of : decode_hex_fixed x 32 h.state_root ≡ ok root
  pub root_at : get_or items 3 [] ≡ encode_bytes root
  pub tx_hash : Bytes
  pub tx_hash_of : decode_hex_fixed x 32 h.transactions_root ≡ ok tx_hash
  pub tx_hash_at : get_or items 4 [] ≡ encode_bytes tx_hash
  pub receipt : Bytes
  pub receipt_of : decode_hex_fixed x 32 h.receipts_root ≡ ok receipt
  pub receipt_at : get_or items 5 [] ≡ encode_bytes receipt

header_items-HashedItems :
    (x : External) (hex : HexBytes x) (h : RpcBlockHeader) (items : List Bytes)
    → header_items x h ≡ ok items
    → HashedItems x h items
unfolding header_items
header_items-HashedItems x hex h items e =
    let fixed = λ (n : ℕ) (s b : Bytes). fixed-IsItem x hex n s b in
    let (parent, m₁, e₁) = map_err_step-eq-ok types (decode_hex_fixed x 32 h.parent_hash) _ e in
    let (uncle, m₂, e₂) = map_err_step-eq-ok types (decode_hex_fixed x 32 h.sha3_uncles) _ e₁ in
    let (miner, m₃, e₃) = map_err_step-eq-ok types (decode_hex_fixed x 20 h.miner) _ e₂ in
    let (root, m₄, e₄) = map_err_step-eq-ok types (decode_hex_fixed x 32 h.state_root) _ e₃ in
    let (tx, m₅, e₅) = map_err_step-eq-ok types (decode_hex_fixed x 32 h.transactions_root) _ e₄ in
    let (rcpt, m₆, e₆) = map_err_step-eq-ok types (decode_hex_fixed x 32 h.receipts_root) _ e₅ in
    let (bloom, m₇, e₇) = map_err_step-eq-ok types (decode_hex_fixed x 256 h.logs_bloom) _ e₆ in
    let (difficulty, _, e₈) = map_err_step-eq-ok types (decode_u64 h.difficulty) _ e₇ in
    let (number, _, e₉) = map_err_step-eq-ok types (decode_u64 h.number) _ e₈ in
    let (limit, _, f₁) = map_err_step-eq-ok types (decode_u64 h.gas_limit) _ e₉ in
    let (used, _, f₂) = map_err_step-eq-ok types (decode_u64 h.gas_used) _ f₁ in
    let (time, _, f₃) = map_err_step-eq-ok types (decode_u64 h.timestamp) _ f₂ in
    let (extra, m₈, f₄) = map_err_step-eq-ok types (decode_hex x h.extra_data) _ f₃ in
    let (mix, m₉, f₅) = map_err_step-eq-ok types (decode_hex_fixed x 32 h.mix_hash) _ f₄ in
    let (nonce, n₁, f₆) = map_err_step-eq-ok types (decode_hex_fixed x 8 h.nonce) _ f₅ in
    let (optional, n₂, f₇) = >>=-eq-ok (optional_items x h) _ f₆ in
    subst (HashedItems x h) (ok-injective f₇) (record {
      are = (
        fixed 32 h.parent_hash parent m₁,
        (
          fixed 32 h.sha3_uncles uncle m₂,
          (
            fixed 20 h.miner miner m₃,
            (
              fixed 32 h.state_root root m₄,
              (
                fixed 32 h.transactions_root tx m₅,
                (
                  fixed 32 h.receipts_root rcpt m₆,
                  (
                    fixed 256 h.logs_bloom bloom m₇,
                    (
                      encode_uint128-IsItem difficulty,
                      (
                        encode_uint128-IsItem number,
                        (
                          encode_uint128-IsItem limit,
                          (
                            encode_uint128-IsItem used,
                            (
                              encode_uint128-IsItem time,
                              (
                                (extra, decode_hex-IsByte x hex h.extra_data extra m₈, refl),
                                (
                                  fixed 32 h.mix_hash mix m₉,
                                  (
                                    fixed 8 h.nonce nonce n₁,
                                    optional_items-AreItems x hex h optional n₂,
                                  ),
                                ),
                              ),
                            ),
                          ),
                        ),
                      ),
                    ),
                  ),
                ),
              ),
            ),
          ),
        ),
      );
      parent = parent;
      parent_of = m₁;
      parent_at = refl;
      root = root;
      root_of = m₄;
      root_at = refl;
      tx_hash = tx;
      tx_hash_of = m₅;
      tx_hash_at = refl;
      receipt = rcpt;
      receipt_of = m₆;
      receipt_at = refl;
    })

-- Two headers whose hash binds them together: the same parent, state and lists.
pub record SameContent (x : External) (h h' : RpcBlockHeader) : Type 0 where
  pub items : header_items x h ≡ header_items x h'
  pub parent : decode_hex_fixed x 32 h.parent_hash ≡ decode_hex_fixed x 32 h'.parent_hash
  pub state_root : decode_hex_fixed x 32 h.state_root ≡ decode_hex_fixed x 32 h'.state_root
  pub transactions :
      decode_hex_fixed x 32 h.transactions_root ≡ decode_hex_fixed x 32 h'.transactions_root
  pub receipts : decode_hex_fixed x 32 h.receipts_root ≡ decode_hex_fixed x 32 h'.receipts_root

module _ (x : External) (hex : HexBytes x) where
  same-hash :
      (s s' b b' item item' : Bytes)
      → decode_hex_fixed x 32 s ≡ ok b
      → decode_hex_fixed x 32 s' ≡ ok b'
      → item ≡ encode_bytes b
      → item' ≡ encode_bytes b'
      → item ≡ item'
      → decode_hex_fixed x 32 s ≡ decode_hex_fixed x 32 s'
  same-hash s s' b b' item item' e e' at at' same =
      let (are, wide) = decode_hex_fixed-IsByte x hex 32 s b e in
      let (are', wide') = decode_hex_fixed-IsByte x hex 32 s' b' e' in
      let equal : b ≡ b' =
        encode_bytes-injective b b' are are' (omega arith) (omega arith) (sym at ∙ same ∙ at') in
      e ∙ ap ok equal ∙ sym e'

  HashedItems-SameContent :
      (h h' : RpcBlockHeader) (items items' : List Bytes)
      → header_items x h ≡ ok items
      → header_items x h' ≡ ok items'
      → items ≡ items'
      → SameContent x h h'
  HashedItems-SameContent h h' items items' e e' same =
      let a = header_items-HashedItems x hex h items e in
      let b = header_items-HashedItems x hex h' items' e' in
      let at = λ (n : ℕ). ap (λ l. get_or l n []) same in
      record {
        items = e ∙ ap ok same ∙ sym e';
        parent =
            same-hash _ _ a.parent b.parent _ _ a.parent_of b.parent_of a.parent_at b.parent_at
              (at 0);
        state_root = same-hash _ _ a.root b.root _ _ a.root_of b.root_of a.root_at b.root_at (at 3);
        transactions =
            same-hash _ _ a.tx_hash b.tx_hash _ _ a.tx_hash_of b.tx_hash_of a.tx_hash_at
              b.tx_hash_at (at 4);
        receipts =
            same-hash _ _ a.receipt b.receipt _ _ a.receipt_of b.receipt_of a.receipt_at
              b.receipt_at (at 5);
      }

-- Where hex texts decode to bytes and the items of two headers have a total length that fits a u64:
-- if header_hash gives the same for both, they have the same items, and so the same decoded parent
-- hash, state root, transactions root and receipts root, or there are two different byte strings
-- with the same Keccak hash.
pub header_hash-SameContent :
    (x : External) (h h' : RpcBlockHeader) (items items' : List Bytes)
    → HexBytes x
    → header_items x h ≡ ok items
    → header_items x h' ≡ ok items'
    → IsU64 (length (concat items))
    → IsU64 (length (concat items'))
    → header_hash x h ≡ header_hash x h'
    → SameContent x h h' ⊎ Collision x
unfolding header_hash
header_hash-SameContent x h h' items items' hex e e' fits fits' same =
    let a = header_items-HashedItems x hex h items e in
    let b = header_items-HashedItems x hex h' items' e' in
    let hash : x.keccak256 (encode_list items) ≡ x.keccak256 (encode_list items') = ok-injective (
      ap (λ r. r >>= (λ l. ok (x.keccak256 (encode_list l)))) (sym e)
      ∙ same
      ∙ ap (λ r. r >>= (λ l. ok (x.keccak256 (encode_list l)))) e') in
    elim (Bool-cases (bytes_eq (encode_list items) (encode_list items'))) [
      | inr differ ↦ inr (
        encode_list items,
        encode_list items',
        bytes_eq-false (encode_list items) (encode_list items') differ,
        hash,
      )
      | inl equal ↦ inl (
          HashedItems-SameContent x hex h h' items items' e e' (
            encode_list-injective items items' a.are b.are fits fits'
              (bytes_eq→eq (encode_list items) (encode_list items') equal)))
    ]
