-- ===== src/Rlp/Total.antt =====
-- The decoder of rlp.rs ends on every input: the fuel that `decode` starts with is enough.
use helios_bsc.Prelude.{
  ℕ, zero, suc, ◌+◌, ◌-◌, ◌*◌, ◌%◌, ◌^◌, ◌≤◌, ◌<◌, ◌≡◌, ◌≢◌, [], ◌∷◌, arith, Bytes, length, ltb,
  leb, Result, ok, err, ◌>>=◌, if◌then◌else◌, Bool, true, false, ap, length-take, length-drop,
  >>=-eq-ok, ensure-eq-ok, >>=-ne-err,
}
use helios_bsc.Rlp.Encode.{Rlp, Items, bytes}
use helios_bsc.Rlp.Decode.{
  RlpError, split_checked, short_string, long_payload, decode_tagged, decode_one, decode_list,
  decode_items, decode_fuel, finish, decode, be_len, be_loop, out_of_fuel, as_list_item,
  as_bytes_item, non_canonical,
}

split_checked-Ends : (n : ℕ) (rest : Bytes) → split_checked n rest ≢ err out_of_fuel
unfolding split_checked
split_checked-Ends n rest = ground arith

split_checked-lengths :
    (n : ℕ) (rest : Bytes) {b tail : Bytes}
    → split_checked n rest ≡ ok (b, tail)
    → length b + length tail ≡ length rest
unfolding split_checked
split_checked-lengths n rest e = ground (arith, length-take n rest, length-drop n rest)

be_loop-Ends : (n : ℕ) (xs : Bytes) → be_loop n xs ≢ err out_of_fuel
unfolding be_loop
be_loop-Ends n [] = λ e. cc
be_loop-Ends n (x ∷ xs) = ground (arith, be_loop-Ends (n * 256 % 2 ^ 64 + x) xs)

be_len-Ends : (xs : Bytes) → be_len xs ≢ err out_of_fuel
unfolding be_len
be_len-Ends [] = λ e. cc
be_len-Ends (x ∷ xs) = ground (arith, be_loop-Ends 0 (x ∷ xs))

short_string-Ends : (n : ℕ) (rest : Bytes) → short_string n rest ≢ err out_of_fuel
unfolding short_string
short_string-Ends n rest =
    >>=-ne-err (split_checked n rest) _ out_of_fuel (split_checked-Ends n rest)
      (λ a e. ground arith)

short_string-shorter :
    (n : ℕ) (rest : Bytes) {r : Rlp} {tail : Bytes}
    → short_string n rest ≡ ok (r, tail)
    → length tail ≤ length rest
unfolding short_string
short_string-shorter n rest e =
    let ((b, after), e₁, e₂) = >>=-eq-ok (split_checked n rest) _ e in
    ground (arith, split_checked-lengths n rest e₁)

long_payload-Ends : (ll : ℕ) (rest : Bytes) → long_payload ll rest ≢ err out_of_fuel
unfolding long_payload
long_payload-Ends ll rest =
    >>=-ne-err (split_checked ll rest) _ out_of_fuel (split_checked-Ends ll rest) λ (lb, after) e.
      >>=-ne-err (be_len lb) _ out_of_fuel (be_len-Ends lb)
        λ len e'. ground (arith, split_checked-Ends len after)

long_payload-lengths :
    (ll : ℕ) (rest : Bytes) {b tail : Bytes}
    → long_payload ll rest ≡ ok (b, tail)
    → length b + length tail ≤ length rest
unfolding long_payload
long_payload-lengths ll rest e =
    let ((lb, after), e₁, e₂) = >>=-eq-ok (split_checked ll rest) _ e in
    let (len, e₃, e₄) = >>=-eq-ok (be_len lb) _ e₂ in
    let (_, e₅) = ensure-eq-ok (ltb 55 len) non_canonical (split_checked len after) e₄ in
    omega (arith, split_checked-lengths ll rest e₁, split_checked-lengths len after e₅)

pub if-branches {ℓ κ} :
    {A : Type ℓ} (P : A → Type κ) (b : Bool) {x y : A} → P x → P y → P (if b then x else y)
if-branches P true px py = px
if-branches P false px py = py

abbrev Shorter : ℕ → Result RlpError (Rlp × Bytes) → Type 0
Shorter n result = (r : Rlp) (tail : Bytes) → result ≡ ok (r, tail) → length tail ≤ n

abbrev Ends : Result RlpError (Rlp × Bytes) → Type 0
Ends result = result ≢ err out_of_fuel

module _ (items_of : Bytes → Result RlpError Items) where
  as_list_item-same :
      (payload tail : Bytes) {r : Rlp} {out : Bytes}
      → as_list_item items_of (payload, tail) ≡ ok (r, out)
      → out ≡ tail
  as_list_item-same payload tail e = ground arith

  -- A property of every branch of `decode_tagged` is a property of `decode_tagged`.
  tagged-branches :
      (P : Result RlpError (Rlp × Bytes) → Type 0) (p : ℕ) (rest : Bytes)
      → P (ok (bytes (p ∷ []), rest))
      → P (short_string (p - 0x80) rest)
      → P (long_payload (p - 0xb7) rest >>= as_bytes_item)
      → P (split_checked (p - 0xc0) rest >>= as_list_item items_of)
      → P (long_payload (p - 0xf7) rest >>= as_list_item items_of)
      → P (decode_tagged items_of p rest)
  unfolding decode_tagged
  tagged-branches P p rest single short long list_short list_long =
      if-branches P (leb p 0x7f) single (
        if-branches P (leb p 0xb7) short
          (if-branches P (leb p 0xbf) long (if-branches P (leb p 0xf7) list_short list_long)))

  as_list_item-le :
      (n : ℕ) (m : Result RlpError (Bytes × Bytes))
      → ((b tail : Bytes) → m ≡ ok (b, tail) → length b + length tail ≤ n)
      → Shorter n (m >>= as_list_item items_of)
  as_list_item-le n m fits r tail e =
      let ((b, after), e₁, e₂) = >>=-eq-ok m _ e in
      omega (arith, fits b after e₁, ap length (as_list_item-same b after e₂))

  decode_tagged-le : (p : ℕ) (rest : Bytes) → Shorter (length rest) (decode_tagged items_of p rest)
  decode_tagged-le p rest =
      tagged-branches (Shorter (length rest)) p rest (λ r tail e. ground arith)
        (λ r tail e. short_string-shorter (p - 0x80) rest e)
        (λ r tail e.
          let ((b, after), e₁, e₂) = >>=-eq-ok (long_payload (p - 0xb7) rest) _ e in
          ground (arith, long_payload-lengths (p - 0xb7) rest e₁))
        (as_list_item-le (length rest) (split_checked (p - 0xc0) rest)
          (λ b tail e. omega (arith, split_checked-lengths (p - 0xc0) rest e)))
        (as_list_item-le (length rest) (long_payload (p - 0xf7) rest)
          (λ b tail e. long_payload-lengths (p - 0xf7) rest e))

  module _ (n : ℕ)
      (ends : (payload : Bytes) → length payload ≤ n → items_of payload ≢ err out_of_fuel) where
    as_list_item-Ends :
        (m : Result RlpError (Bytes × Bytes))
        → m ≢ err out_of_fuel
        → ((b tail : Bytes) → m ≡ ok (b, tail) → length b + length tail ≤ n)
        → Ends (m >>= as_list_item items_of)
    as_list_item-Ends m h fits = >>=-ne-err m _ out_of_fuel h λ (b, tail) e.
        >>=-ne-err (items_of b) _ out_of_fuel (ends b (omega (arith, fits b tail e)))
          λ items e' e''. cc

    tagged-Ends : (p : ℕ) (rest : Bytes) → length rest ≤ n → Ends (decode_tagged items_of p rest)
    tagged-Ends p rest h =
        tagged-branches Ends p rest (λ e. cc) (short_string-Ends (p - 0x80) rest)
          (>>=-ne-err (long_payload (p - 0xb7) rest) _ out_of_fuel
            (long_payload-Ends (p - 0xb7) rest) (λ a e. λ e'. ground arith))
          (as_list_item-Ends (split_checked (p - 0xc0) rest) (split_checked-Ends (p - 0xc0) rest)
            (λ b tail e. omega (arith, split_checked-lengths (p - 0xc0) rest e)))
          (as_list_item-Ends (long_payload (p - 0xf7) rest) (long_payload-Ends (p - 0xf7) rest)
            (λ b tail e. omega (arith, long_payload-lengths (p - 0xf7) rest e)))

-- An item takes a byte at least.
one-shorter :
    (f depth : ℕ) (input : Bytes) {r : Rlp} {tail : Bytes}
    → decode_one f input depth ≡ ok (r, tail)
    → length tail < length input
unfolding decode_one
one-shorter zero depth input e = cc
one-shorter (suc f) depth [] e = cc
one-shorter (suc f) depth (p ∷ rest) {r} {tail} e =
    omega (arith, decode_tagged-le (λ payload. decode_list f payload (depth + 1)) p rest r tail e)

mutual
  unfolding decode_one

  one-Ends :
      (f depth : ℕ) (input : Bytes)
      → 3 * length input ≤ f
      → 0 < f
      → decode_one f input depth ≢ err out_of_fuel
  one-Ends zero depth input h pos = absurd (omega arith)
  one-Ends (suc f) depth [] h pos = λ e. cc
  one-Ends (suc f) depth (p ∷ rest) h pos =
      tagged-Ends (λ payload. decode_list f payload (depth + 1)) (length rest)
        (λ payload fits. list-Ends f (depth + 1) payload (omega arith)) p rest (omega arith)

  list-Ends :
      (f depth : ℕ) (payload : Bytes)
      → 3 * length payload + 2 ≤ f
      → decode_list f payload depth ≢ err out_of_fuel
  list-Ends zero depth payload h = absurd (omega arith)
  list-Ends (suc f) depth payload h = ground (arith, items-Ends f depth payload (omega arith))

  items-Ends :
      (f depth : ℕ) (payload : Bytes)
      → 3 * length payload + 1 ≤ f
      → decode_items f payload depth ≢ err out_of_fuel
  items-Ends zero depth payload h = absurd (omega arith)
  items-Ends (suc f) depth [] h = λ e. cc
  items-Ends (suc f) depth (b ∷ bs) h =
      >>=-ne-err (decode_one f (b ∷ bs) depth) _ out_of_fuel
        (one-Ends f depth (b ∷ bs) (omega arith) (omega arith))
        λ (r, rest) e.
          >>=-ne-err (decode_items f rest depth) _ out_of_fuel
            (items-Ends f depth rest (omega (arith, one-shorter f depth (b ∷ bs) e)))
            (λ items e' e''. cc)

-- The RLP decoder of the model never runs out of fuel, on any input.
pub decode-Ends : (input : Bytes) → decode input ≢ err out_of_fuel
unfolding decode finish
decode-Ends input =
    >>=-ne-err (decode_one (decode_fuel input) input 0) _ out_of_fuel
      (one-Ends (decode_fuel input) 0 input (omega arith) (omega arith)) λ out e. λ e'. ground arith
