-- ===== src/Rlp/Canonical.antt =====
-- The decoder of rlp.rs accepts one spelling of an item only: the one that the encoder writes.
use mathlib.Core.Path.{ap₂}
use helios_bsc.Prelude.{
  ℕ, zero, suc, ◌+◌, ◌-◌, ◌≤◌, ◌<◌, ◌≡◌, refl, sym, ap, ◌∙◌, [], ◌∷◌, ◌++◌, append_assoc,
  append-nil, arith, Bytes, length, get_or, All, Bool-cases, inl, inr, ◌==◌, ltb, leb, ◌&&◌, not,
  Result, ok, err, ◌>>=◌, if◌then◌else◌, take-append-drop, length-take, All-suffix, All-prefix,
  >>=-eq-ok, ensure, ensure-eq-ok, ltb→lt, ok-injective, ◌>>◌, tests,
}
use helios_bsc.Prelude.Words.{IsByte}
use helios_bsc.Rlp.Encode.{
  Rlp, Items, len_be, encode_string, encode_bytes, concat, list_header, encode_list, encode,
  encode_each,
}
use helios_bsc.Rlp.Decode.{
  RlpError, split_checked, short_string, long_payload, decode_tagged, decode_one, decode_list,
  decode_items, decode_fuel, finish, decode, max_rlp_depth, be_len, non_canonical, too_deep,
  as_list_item, as_bytes_item,
}
use helios_bsc.Rlp.Lengths.{len_be-be_len}

split_checked-ok :
    (n : ℕ) (rest b tail : Bytes)
    → split_checked n rest ≡ ok (b, tail)
    → (b ++ tail ≡ rest) × (length b ≡ n)
unfolding split_checked
split_checked-ok n rest b tail e = ground (arith, take-append-drop n rest, length-take n rest)

record CutOff (ll : ℕ) (rest b tail : Bytes) : Type 0 where
  pub spelled : len_be (length b) ++ (b ++ tail) ≡ rest
  pub width : length (len_be (length b)) ≡ ll
  pub long : 55 < length b

long_payload-CutOff :
    (ll len : ℕ) (rest lb after b tail : Bytes)
    → All IsByte rest
    → ll ≤ 8
    → split_checked ll rest ≡ ok (lb, after)
    → be_len lb ≡ ok len
    → (ensure (ltb 55 len) non_canonical >> split_checked len after) ≡ ok (b, tail)
    → CutOff ll rest b tail
long_payload-CutOff ll len rest lb after b tail h fits e₁ e₂ e₃ =
    let (long, e₄) = ensure-eq-ok (ltb 55 len) non_canonical (split_checked len after) e₃ in
    let (front, n₁) = split_checked-ok ll rest lb after e₁ in
    let (back, n₂) = split_checked-ok len after b tail e₄ in
    let above : 55 < len = ltb→lt 55 len long in
    let (written, _) =
      len_be-be_len lb len (All-prefix IsByte lb after (rw front h)) (omega arith) e₂
        (omega arith) in
    let written' : len_be (length b) ≡ lb = ap len_be n₂ ∙ written in
    record {
      spelled = ap₂ (λ xs ys. xs ++ ys) written' back ∙ front;
      width = ap length written' ∙ n₁;
      long = omega arith;
    }

long_payload-ok :
    (ll : ℕ) (rest b tail : Bytes)
    → All IsByte rest
    → ll ≤ 8
    → long_payload ll rest ≡ ok (b, tail)
    → CutOff ll rest b tail
unfolding long_payload
long_payload-ok ll rest b tail h fits e =
    let ((lb, after), e₁, e₂) = >>=-eq-ok (split_checked ll rest) _ e in
    let (len, e₃, e₄) = >>=-eq-ok (be_len lb) _ e₂ in
    long_payload-CutOff ll len rest lb after b tail h fits e₁ e₃ e₄

short_string-parts :
    (n : ℕ) (rest b after : Bytes) (r : Rlp) (tail : Bytes)
    → n ≤ 55
    → (b ++ after ≡ rest) × (length b ≡ n)
    → (ensure (not (n == 1 && ltb (get_or b 0 0) 0x80)) non_canonical >>= λ _.
        as_bytes_item (b, after))
      ≡ ok (r, tail)
    → encode r ++ tail ≡ (0x80 + n) ∷ rest
unfolding encode encode_bytes encode_string
short_string-parts n rest b after r tail fits split e = ground arith

short_string-ok :
    (n : ℕ) (rest : Bytes) (r : Rlp) (tail : Bytes)
    → n ≤ 55
    → short_string n rest ≡ ok (r, tail)
    → encode r ++ tail ≡ (0x80 + n) ∷ rest
unfolding short_string
short_string-ok n rest r tail fits e =
    let ((b, after), e₁, e₂) = >>=-eq-ok (split_checked n rest) _ e in
    short_string-parts n rest b after r tail fits (split_checked-ok n rest b after e₁) e₂

-- The headers that the long forms stand behind.
encode_bytes-long :
    {ll : ℕ} {rest b tail : Bytes}
    → CutOff ll rest b tail
    → encode_bytes b ++ tail ≡ (0xb7 + ll) ∷ rest
unfolding encode_bytes encode_string
encode_bytes-long {ll} {rest} {b} {tail} l =
    ground (arith, append_assoc (len_be (length b)) b tail, l.spelled, l.width, l.long)

list_header-long :
    {ll : ℕ} {rest b tail : Bytes}
    → CutOff ll rest b tail
    → list_header b ++ tail ≡ (0xf7 + ll) ∷ rest
unfolding list_header
list_header-long {ll} {rest} {b} {tail} l =
    ground (arith, append_assoc (len_be (length b)) b tail, l.spelled, l.width, l.long)

list_header-short :
    (n : ℕ) (rest b tail : Bytes)
    → n ≤ 55
    → (b ++ tail ≡ rest) × (length b ≡ n)
    → list_header b ++ tail ≡ (0xc0 + n) ∷ rest
unfolding list_header
list_header-short n rest b tail fits split = ground arith

module _ (items_of : Bytes → Result RlpError Items)
    (read : (payload : Bytes) (items : Items)
      → All IsByte payload
      → items_of payload ≡ ok items
      → concat (encode_each items) ≡ payload) where
  list_item-ok :
      (payload tail : Bytes) (r : Rlp) (out : Bytes)
      → All IsByte payload
      → as_list_item items_of (payload, tail) ≡ ok (r, out)
      → (encode r ≡ list_header payload) × (out ≡ tail)
  unfolding encode encode_list
  list_item-ok payload tail r out h e =
      let (items, e₁, e₂) = >>=-eq-ok (items_of payload) _ e in
      let spelled : concat (encode_each items) ≡ payload = read payload items h e₁ in ground arith

  -- The prefix ranges of the decoder, one after the other.
  long_string-ok :
      (ll : ℕ) (rest : Bytes) (r : Rlp) (tail : Bytes)
      → All IsByte rest
      → ll ≤ 8
      → (long_payload ll rest >>= as_bytes_item) ≡ ok (r, tail)
      → encode r ++ tail ≡ (0xb7 + ll) ∷ rest
  unfolding encode
  long_string-ok ll rest r tail h fits e =
      let ((b, after), e₁, e₂) = >>=-eq-ok (long_payload ll rest) _ e in
      ground (arith, encode_bytes-long (long_payload-ok ll rest b after h fits e₁))

  short_list-ok :
      (n : ℕ) (rest : Bytes) (r : Rlp) (tail : Bytes)
      → All IsByte rest
      → n ≤ 55
      → (split_checked n rest >>= as_list_item items_of) ≡ ok (r, tail)
      → encode r ++ tail ≡ (0xc0 + n) ∷ rest
  short_list-ok n rest r tail h fits e =
      let ((b, after), e₁, e₂) = >>=-eq-ok (split_checked n rest) _ e in
      let split : (b ++ after ≡ rest) × (length b ≡ n) = split_checked-ok n rest b after e₁ in
      let (same, left) =
        list_item-ok b after r tail (All-prefix IsByte b after (rw split.0 h)) e₂ in
      ap₂ (λ xs ys. xs ++ ys) same left ∙ list_header-short n rest b after fits split

  long_list-ok :
      (ll : ℕ) (rest : Bytes) (r : Rlp) (tail : Bytes)
      → All IsByte rest
      → ll ≤ 8
      → (long_payload ll rest >>= as_list_item items_of) ≡ ok (r, tail)
      → encode r ++ tail ≡ (0xf7 + ll) ∷ rest
  long_list-ok ll rest r tail h fits e =
      let ((b, after), e₁, e₂) = >>=-eq-ok (long_payload ll rest) _ e in
      let l = long_payload-ok ll rest b after h fits e₁ in
      let bytes_b : All IsByte b =
        All-prefix IsByte b after
          (All-suffix IsByte (len_be (length b)) (b ++ after) (rw l.spelled h)) in
      let (same, left) = list_item-ok b after r tail bytes_b e₂ in
      ap₂ (λ xs ys. xs ++ ys) same left ∙ list_header-long l

  tagged-ok :
      (p : ℕ) (rest : Bytes) (r : Rlp) (tail : Bytes)
      → IsByte p
      → All IsByte rest
      → decode_tagged items_of p rest ≡ ok (r, tail)
      → encode r ++ tail ≡ p ∷ rest
  unfolding decode_tagged
  tagged-ok p rest r tail hp h e = elim (Bool-cases (leb p 0x7f)) [
    | inl single ↦ unfold encode encode_bytes in ground arith
    | inr not_single ↦ elim (Bool-cases (leb p 0xb7)) [
      | inl b ↦ ground (arith, short_string-ok (p - 0x80) rest r tail (omega tests))
      | inr not_short ↦ elim (Bool-cases (leb p 0xbf)) [
        | inl b ↦ ground (arith, long_string-ok (p - 0xb7) rest r tail h (omega tests))
        | inr not_string ↦ elim (Bool-cases (leb p 0xf7)) [
          | inl b ↦ ground (arith, short_list-ok (p - 0xc0) rest r tail h (omega tests))
          | inr b ↦ ground (arith, long_list-ok (p - 0xf7) rest r tail h (omega tests))
        ]
      ]
    ]
  ]

list_depth-ok :
    (depth : ℕ) (read : Result RlpError Items) (items : Items)
    → (if ltb max_rlp_depth depth then err too_deep else read) ≡ ok items
    → (depth ≤ max_rlp_depth) × (read ≡ ok items)
list_depth-ok depth read items e = ground arith

finish-ok :
    (item : Rlp) (rest : Bytes) (r : Rlp) → finish (item, rest) ≡ ok r → (item ≡ r) × (rest ≡ [])
unfolding finish
finish-ok item [] r e = (ok-injective e, refl)
finish-ok item (b ∷ bs) r e = cc

mutual
  unfolding decode_one concat encode

  one-canonical :
      (f depth : ℕ) (input tail : Bytes) (r : Rlp)
      → All IsByte input
      → decode_one f input depth ≡ ok (r, tail)
      → encode r ++ tail ≡ input
  one-canonical zero depth input tail r h e = cc
  one-canonical (suc f) depth [] tail r h e = cc
  one-canonical (suc f) depth (p ∷ rest) tail r (hp, h) e =
      tagged-ok (λ payload. decode_list f payload (depth + 1))
        (λ payload items hs es. list-canonical f (depth + 1) payload items hs es) p rest r tail hp h
        e

  list-canonical :
      (f depth : ℕ) (payload : Bytes) (items : Items)
      → All IsByte payload
      → decode_list f payload depth ≡ ok items
      → concat (encode_each items) ≡ payload
  list-canonical zero depth payload items h e = cc
  list-canonical (suc f) depth payload items h e =
      items-canonical f depth payload items h
        (list_depth-ok depth (decode_items f payload depth) items e).1

  items-canonical :
      (f depth : ℕ) (payload : Bytes) (items : Items)
      → All IsByte payload
      → decode_items f payload depth ≡ ok items
      → concat (encode_each items) ≡ payload
  items-canonical zero depth payload items h e = cc
  items-canonical (suc f) depth [] items h e = ground arith
  items-canonical (suc f) depth (b ∷ bs) items h e =
      let ((r, rest), e₁, e₂) = >>=-eq-ok (decode_one f (b ∷ bs) depth) _ e in
      let (others, e₃, e₄) = >>=-eq-ok (decode_items f rest depth) _ e₂ in
      let front : encode r ++ rest ≡ b ∷ bs = one-canonical f depth (b ∷ bs) rest r h e₁ in
      let back : concat (encode_each others) ≡ rest =
        items-canonical f depth rest others (All-suffix IsByte (encode r) rest (rw front h)) e₃ in
      cc (e₄, front, back)

-- A string of bytes that the RLP decoder accepts is the encoding of the item that it returns, so an
-- item has one accepted encoding only.
pub encode-decode :
    (input : Bytes) (r : Rlp) → All IsByte input → decode input ≡ ok r → encode r ≡ input
unfolding decode
encode-decode input r h e =
    let ((item, rest), e₁, e₂) = >>=-eq-ok (decode_one (decode_fuel input) input 0) _ e in
    let (same, left) = finish-ok item rest r e₂ in
    sym (append-nil (encode r))
    ∙ ap₂ (λ a b. encode a ++ b) (sym same) (sym left)
    ∙ one-canonical (decode_fuel input) 0 input rest item h e₁
