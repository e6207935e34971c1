-- ===== src/Consensus/Vote/Reader.antt =====
-- The strict RLP reader of vote.rs and the decoding of a vote attestation.
use helios_bsc.Prelude.{
  ℕ, zero, suc, ◌+◌, ◌-◌, ◌*◌, ◌%◌, ◌^◌, Bool, true, false, Option, none, some, [], ◌∷◌, Bytes,
  length, get_or, leb, ltb, ◌==◌, ◌&&◌, not, if◌then◌else◌, Result, ok, err, ◌>>=◌, ◌>>◌, ensure,
}
use helios_bsc.Prelude
use helios_bsc.Prelude.Words.{u64_max}
use helios_bsc.Rlp.Encode.{Rlp, Items, bytes, list, nil, cons}
use helios_bsc.Consensus.Vote.{
  Reason, VoteError, rlp, VoteData, VoteAttestation, bls_signature_len, attestation_not_four_items,
  signature_width, data_not_four_items, source_hash_width, target_hash_width, trailing_bytes,
  end_of_input, wrapped_byte, nested_deeper, leading_zero_length, length_overflow, long_form,
  payload_overruns, expected_string, expected_list, integer_too_long, integer_leading_zero,
  out_of_fuel,
}

-- A vote attestation nests two lists deep.
abbrev pub max_rlp_depth : ℕ
max_rlp_depth = 2

unfoldable pub take : Bytes → ℕ → Result VoteError (Bytes × Bytes)
take buf n = do
  ensure (leb n (length buf)) (rlp payload_overruns)
  ok (Prelude.take n buf, Prelude.drop n buf)

-- The loop of `long_len`: `checked_mul(256)`, then `checked_add`.
unfoldable pub len_loop : ℕ → Bytes → Result VoteError ℕ
len_loop len [] = ok len
len_loop len (b ∷ bs) =
    if leb (len * 256) u64_max && leb (len * 256 + b) u64_max
    then len_loop (len * 256 + b) bs
    else err (rlp length_overflow)

abbrev pub starts_with_zero : Bytes → Bool
starts_with_zero [] = false
starts_with_zero (b ∷ bs) = b == 0

unfoldable pub long_len : Bytes → ℕ → Result VoteError (ℕ × Bytes)
long_len buf len_of_len = do
  (raw, rest) ← take buf len_of_len
  ensure (not (starts_with_zero raw)) (rlp leading_zero_length)
  len ← len_loop 0 raw
  ensure (ltb 55 len) (rlp long_form)
  ok (len, rest)

unfoldable pub short_str : Bytes → ℕ → Result VoteError (Rlp × Bytes)
short_str tail len = do
  (payload, rest) ← take tail len
  ensure (not (len == 1 && ltb (get_or payload 0 0) 0x80)) (rlp wrapped_byte)
  ok (bytes payload, rest)

unfoldable pub long_payload : Bytes → ℕ → Result VoteError (Bytes × Bytes)
long_payload tail len_of_len = do (len, rest) ← long_len tail len_of_len; take rest len

abbrev pub as_str_item : Bytes × Bytes → Result VoteError (Rlp × Bytes)
as_str_item (payload, rest) = ok (bytes payload, rest)

abbrev pub as_list_item :
    (Bytes → Result VoteError Items) → Bytes × Bytes → Result VoteError (Rlp × Bytes)
as_list_item items_of (payload, rest) = do items ← items_of payload; ok (list items, rest)

-- The `match` of `decode_item` on its prefix; the call of `decode_list` is handed in.
unfoldable pub decode_tagged :
    (Bytes → Result VoteError Items) → ℕ → Bytes → Result VoteError (Rlp × Bytes)
decode_tagged items_of prefix tail =
    if leb prefix 0x7f
    then ok (bytes (prefix ∷ []), tail)
    else if leb prefix 0xb7
    then short_str tail (prefix - 0x80)
    else if leb prefix 0xbf
    then long_payload tail (prefix - 0xb7) >>= as_str_item
    else if leb prefix 0xf7
    then take tail (prefix - 0xc0) >>= as_list_item items_of
    else long_payload tail (prefix - 0xf7) >>= as_list_item items_of

unfoldable mutual
  pub decode_item : ℕ → Bytes → ℕ → Result VoteError (Rlp × Bytes)
  decode_item zero buf depth = err (rlp out_of_fuel)
  decode_item (suc f) [] depth = err (rlp end_of_input)
  decode_item (suc f) (prefix ∷ tail) depth =
      decode_tagged (λ payload. decode_list f payload depth) prefix tail

  pub decode_list : ℕ → Bytes → ℕ → Result VoteError Items
  decode_list zero payload depth = err (rlp out_of_fuel)
  decode_list (suc f) payload depth =
      let items = decode_items f payload (depth + 1) in
      if leb max_rlp_depth depth then err (rlp nested_deeper) else items

  pub decode_items : ℕ → Bytes → ℕ → Result VoteError Items
  decode_items zero payload depth = err (rlp out_of_fuel)
  decode_items (suc f) [] depth = ok nil
  decode_items (suc f) (b ∷ bs) depth = do
    (item, rest) ← decode_item f (b ∷ bs) depth
    items ← decode_items f rest depth
    ok (cons item items)

unfoldable pub finish : Rlp × Bytes → Result VoteError Rlp
finish (item, []) = ok item
finish (item, b ∷ bs) = err (rlp trailing_bytes)

-- Three calls for each byte are enough.
unfoldable pub decode_top : Bytes → Result VoteError Rlp
decode_top buf = decode_item (3 * length buf + 1) buf 0 >>= finish

unfoldable pub str_of : Rlp → Result VoteError Bytes
str_of (bytes s) = ok s
str_of (list l) = err (rlp expected_string)

unfoldable pub list_of : Rlp → Result VoteError Items
list_of (list l) = ok l
list_of (bytes s) = err (rlp expected_list)

-- `v = (v << 8) | u64::from(b)`
unfoldable pub uint_loop : ℕ → Bytes → ℕ
uint_loop v [] = v
uint_loop v (b ∷ bs) = uint_loop (v * 256 % 2 ^ 64 + b) bs

unfoldable pub uint_of : Bytes → Result VoteError ℕ
uint_of raw = do
  ensure (leb (length raw) 8) (rlp integer_too_long)
  ensure (not (starts_with_zero raw)) (rlp integer_leading_zero)
  ok (uint_loop 0 raw)

unfoldable pub fixed_str : ℕ → Bytes → Reason → Result VoteError Bytes
fixed_str n raw what = do ensure (length raw == n) (rlp what); ok raw

-- `len() != 4`, then the four fields by index.
unfoldable pub four : Items → Reason → Result VoteError (Rlp × Rlp × Rlp × Rlp)
four (cons a (cons b (cons c (cons d nil)))) what = ok (a, b, c, d)
four _ what = err (rlp what)

unfoldable pub decode_vote_data : Rlp → Result VoteError VoteData
decode_vote_data item = do
  data_fields ← list_of item
  (a, b, c, d) ← four data_fields data_not_four_items
  source_raw ← str_of a
  source_number ← uint_of source_raw
  source_str ← str_of b
  source_hash ← fixed_str 32 source_str source_hash_width
  target_raw ← str_of c
  target_number ← uint_of target_raw
  target_str ← str_of d
  target_hash ← fixed_str 32 target_str target_hash_width
  ok (record {
    source_number = source_number;
    source_hash = source_hash;
    target_number = target_number;
    target_hash = target_hash;
  })

unfoldable pub decode_fields : Bytes → Result VoteError VoteAttestation
decode_fields raw = do
  top ← decode_top raw
  fields ← list_of top
  (a, b, c, d) ← four fields attestation_not_four_items
  set_raw ← str_of a
  vote_address_set ← uint_of set_raw
  sig ← str_of b
  agg_signature ← fixed_str bls_signature_len sig signature_width
  vote ← decode_vote_data c
  extra ← str_of d
  ok (record {
    vote_address_set = vote_address_set;
    agg_signature = agg_signature;
    vote = vote;
    extra = extra;
  })

-- An empty slice is a header with no attestation.
unfoldable pub decode_vote_attestation : Bytes → Result VoteError (Option VoteAttestation)
decode_vote_attestation [] = ok none
decode_vote_attestation (b ∷ bs) = do att ← decode_fields (b ∷ bs); ok (some att)
