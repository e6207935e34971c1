-- ===== src/Rlp/Decode.antt =====
-- The strict RLP decoder of rlp.rs. What a call leaves of the input is no structural part of it, so
-- each call costs a unit of fuel; `out_of_fuel` has no counterpart in the program.
use helios_bsc.Prelude.{
  ℕ, zero, suc, ◌+◌, ◌-◌, ◌*◌, ◌%◌, ◌^◌, [], ◌∷◌, Bytes, length, take, drop, get_or, leb, ltb, ◌==◌,
  ◌&&◌, if◌then◌else◌, Result, ok, err, ◌>>=◌, ◌>>◌, ensure, not,
}
use helios_bsc.Prelude.Words.{u64_max}
use helios_bsc.Rlp.Encode.{Rlp, Items, bytes, list, nil, cons}

pub data RlpError : Type 0 where
  truncated trailing invalid too_deep non_canonical out_of_fuel : RlpError

abbrev pub max_rlp_depth : ℕ
max_rlp_depth = 32

-- The loop of `be_len`: `checked_shl(8)` drops the bits that pass the top, `checked_add` fails.
unfoldable pub be_loop : ℕ → Bytes → Result RlpError ℕ
be_loop n [] = ok n
be_loop n (x ∷ xs) =
    let shifted = n * 256 % 2 ^ 64 in
    if leb (shifted + x) u64_max then be_loop (shifted + x) xs else err invalid

unfoldable pub be_len : Bytes → Result RlpError ℕ
be_len [] = err invalid
be_len (b ∷ bs) = if b == 0 && ltb 1 (length (b ∷ bs)) then err invalid else be_loop 0 (b ∷ bs)

-- `split_at` behind the length test that stands before it.
unfoldable pub split_checked : ℕ → Bytes → Result RlpError (Bytes × Bytes)
split_checked len rest = do
  ensure (leb len (length rest)) truncated
  ok (take len rest, drop len rest)

-- A string of at most 55 bytes. A lone byte below 0x80 is its own encoding.
unfoldable pub short_string : ℕ → Bytes → Result RlpError (Rlp × Bytes)
short_string len rest = do
  (b, tail) ← split_checked len rest
  ensure (not (len == 1 && ltb (get_or b 0 0) 0x80)) non_canonical
  ok (bytes b, tail)

-- The payload behind a length of `ll` bytes, which has to be at least 56.
unfoldable pub long_payload : ℕ → Bytes → Result RlpError (Bytes × Bytes)
long_payload ll rest = do
  (lb, after) ← split_checked ll rest
  len ← be_len lb
  ensure (ltb 55 len) non_canonical
  split_checked len after

abbrev pub as_bytes_item : Bytes × Bytes → Result RlpError (Rlp × Bytes)
as_bytes_item (b, tail) = ok (bytes b, tail)

-- `Rlp::List(decode_list(payload, depth + 1)?)`, with the call handed in as `items_of`.
abbrev pub as_list_item :
    (Bytes → Result RlpError Items) → Bytes × Bytes → Result RlpError (Rlp × Bytes)
as_list_item items_of (payload, tail) = do items ← items_of payload; ok (list items, tail)

-- The body of `decode_one` behind its first byte.
unfoldable pub decode_tagged :
    (Bytes → Result RlpError Items) → ℕ → Bytes → Result RlpError (Rlp × Bytes)
decode_tagged items_of p rest =
    if leb p 0x7f
    then ok (bytes (p ∷ []), rest)
    else if leb p 0xb7
    then short_string (p - 0x80) rest
    else if leb p 0xbf
    then long_payload (p - 0xb7) rest >>= as_bytes_item
    else if leb p 0xf7
    then split_checked (p - 0xc0) rest >>= as_list_item items_of
    else long_payload (p - 0xf7) rest >>= as_list_item items_of

unfoldable mutual
  pub decode_one : ℕ → Bytes → ℕ → Result RlpError (Rlp × Bytes)
  decode_one zero input depth = err out_of_fuel
  decode_one (suc f) [] depth = err truncated
  decode_one (suc f) (p ∷ rest) depth =
      decode_tagged (λ payload. decode_list f payload (depth + 1)) p rest

  pub decode_list : ℕ → Bytes → ℕ → Result RlpError Items
  decode_list zero payload depth = err out_of_fuel
  decode_list (suc f) payload depth =
      let items = decode_items f payload depth in
      if ltb max_rlp_depth depth then err too_deep else items

  pub decode_items : ℕ → Bytes → ℕ → Result RlpError Items
  decode_items zero payload depth = err out_of_fuel
  decode_items (suc f) [] depth = ok nil
  decode_items (suc f) (b ∷ bs) depth = do
    (item, rest) ← decode_one f (b ∷ bs) depth
    items ← decode_items f rest depth
    ok (cons item items)

-- Each byte is worth three calls at most.
abbrev pub decode_fuel : Bytes → ℕ
decode_fuel input = 3 * length input + 1

unfoldable pub finish : Rlp × Bytes → Result RlpError Rlp
finish (item, []) = ok item
finish (item, b ∷ bs) = err trailing

unfoldable pub decode : Bytes → Result RlpError Rlp
decode input = decode_one (decode_fuel input) input 0 >>= finish
