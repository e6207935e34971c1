-- ===== src/Consensus/Vote/Ends.antt =====
-- The reader of vote.rs ends on every input: the fuel that `decode_top` starts with is enough.
use helios_bsc.Prelude.{
  ℕ, zero, suc, ◌+◌, ◌-◌, ◌*◌, ◌≤◌, ◌<◌, ◌≡◌, ◌≢◌, [], ◌∷◌, arith, Bytes, length, ltb, leb, ◌==◌,
  ◌&&◌, not, get_or, Result, ok, err, ensure, ◌>>=◌, ◌>>◌, Bool, true, false, ap, length-take,
  length-drop, >>=-eq-ok, ensure-eq-ok, >>=-ne-err,
}
use helios_bsc.Rlp.Encode.{Rlp, Items, bytes}
use helios_bsc.Rlp.Total.{if-branches}
use helios_bsc.Consensus.Vote.{VoteError, rlp, out_of_fuel, long_form}
use helios_bsc.Consensus.Vote.Reader.{
  take, len_loop, starts_with_zero, long_len, short_str, long_payload, as_str_item, as_list_item,
  decode_tagged, decode_item, decode_list, decode_items, finish, decode_top,
}

abbrev Ends : {A : Type 0} → Result VoteError A → Type 0
Ends result = result ≢ err (rlp out_of_fuel)

take-lengths :
    (buf : Bytes) (n : ℕ) {b tail : Bytes}
    → take buf n ≡ ok (b, tail)
    → length b + length tail ≡ length buf
unfolding take
take-lengths buf n e = ground (arith, length-take n buf, length-drop n buf)

take-Ends : (buf : Bytes) (n : ℕ) → Ends (take buf n)
unfolding take
take-Ends buf n = ground arith

len_loop-Ends : (len : ℕ) (raw : Bytes) → Ends (len_loop len raw)
unfolding len_loop
len_loop-Ends len [] = λ e. cc
len_loop-Ends len (b ∷ bs) = ground (arith, len_loop-Ends (len * 256 + b) bs)

ensure-Ends :
    {A : Type 0} (c : Bool) (e : VoteError) (m : Result VoteError A)
    → e ≢ rlp out_of_fuel
    → Ends m
    → Ends (ensure c e >> m)
ensure-Ends true e m other h = h
ensure-Ends false e m other h = λ q. other (cc q)

long_len-Ends : (buf : Bytes) (k : ℕ) → Ends (long_len buf k)
unfolding long_len
long_len-Ends buf k = >>=-ne-err (take buf k) _ (rlp out_of_fuel) (take-Ends buf k) λ (raw, rest) e.
    ensure-Ends (not (starts_with_zero raw)) _ _ (λ q. cc)
      (>>=-ne-err (len_loop 0 raw) _ (rlp out_of_fuel) (len_loop-Ends 0 raw)
        λ len e'. ensure-Ends (ltb 55 len) (rlp long_form) (ok (len, rest)) (λ q. cc) (λ q. cc))

short_str-Ends : (tail : Bytes) (n : ℕ) → Ends (short_str tail n)
unfolding short_str
short_str-Ends tail n =
    >>=-ne-err (take tail n) _ (rlp out_of_fuel) (take-Ends tail n) λ (payload, rest) e.
      ensure-Ends (not (n == 1 && ltb (get_or payload 0 0) 0x80)) _ (ok (bytes payload, rest))
        (λ q. cc) (λ q. cc)

short_str-shorter :
    (tail : Bytes) (n : ℕ) {r : Rlp} {rest : Bytes}
    → short_str tail n ≡ ok (r, rest)
    → length rest ≤ length tail
unfolding short_str
short_str-shorter tail n e =
    let ((b, after), e₁, e₂) = >>=-eq-ok (take tail n) _ e in ground (arith, take-lengths tail n e₁)

long_payload-Ends : (tail : Bytes) (k : ℕ) → Ends (long_payload tail k)
unfolding long_payload
long_payload-Ends tail k =
    >>=-ne-err (long_len tail k) _ (rlp out_of_fuel) (long_len-Ends tail k)
      λ (len, rest) e. take-Ends rest len

long_payload-lengths :
    (tail : Bytes) (k : ℕ) {b out : Bytes}
    → long_payload tail k ≡ ok (b, out)
    → length b + length out ≤ length tail
unfolding long_payload long_len
long_payload-lengths tail k e =
    let ((len, rest), e₁, e₂) = >>=-eq-ok (long_len tail k) _ e in
    let ((raw, after), e₃, e₄) = >>=-eq-ok (take tail k) _ e₁ in
    let (_, e₅) = ensure-eq-ok (not (starts_with_zero raw)) _ _ e₄ in
    let (len', e₆, e₇) = >>=-eq-ok (len_loop 0 raw) _ e₅ in
    let (_, e₈) = ensure-eq-ok (ltb 55 len') (rlp long_form) (ok (len', after)) e₇ in
    ground (arith, take-lengths tail k e₃, take-lengths rest len e₂)

abbrev Shorter : ℕ → Result VoteError (Rlp × Bytes) → Type 0
Shorter n result = (r : Rlp) (tail : Bytes) → result ≡ ok (r, tail) → length tail ≤ n

module _ (items_of : Bytes → Result VoteError Items) where
  decode_tagged-branches :
      (P : Result VoteError (Rlp × Bytes) → Type 0) (p : ℕ) (tail : Bytes)
      → P (ok (bytes (p ∷ []), tail))
      → P (short_str tail (p - 0x80))
      → P (long_payload tail (p - 0xb7) >>= as_str_item)
      → P (take tail (p - 0xc0) >>= as_list_item items_of)
      → P (long_payload tail (p - 0xf7) >>= as_list_item items_of)
      → P (decode_tagged items_of p tail)
  unfolding decode_tagged
  decode_tagged-branches P p tail single short long list_short list_long =
      if-branches P (leb p 0x7f) single (
        if-branches P (leb p 0xb7) short
          (if-branches P (leb p 0xbf) long (if-branches P (leb p 0xf7) list_short list_long)))

  as_list_item-same :
      (payload tail : Bytes) {r : Rlp} {out : Bytes}
      → as_list_item items_of (payload, tail) ≡ ok (r, out)
      → ◌≡◌ {A = Bytes} out tail
  as_list_item-same payload tail e = ground arith

  as_list_item-le :
      (n : ℕ) (m : Result VoteError (Bytes × Bytes))
      → ((b tail : Bytes) → m ≡ ok (b, tail) → length b + length tail ≤ n)
      → Shorter n (m >>= as_list_item items_of)
  as_list_item-le n m fits r tail e =
      let ((b, after), e₁, e₂) = >>=-eq-ok m _ e in
      omega (arith, fits b after e₁, ap length (as_list_item-same b after e₂))

  decode_tagged-le : (p : ℕ) (tail : Bytes) → Shorter (length tail) (decode_tagged items_of p tail)
  decode_tagged-le p tail =
      decode_tagged-branches (Shorter (length tail)) p tail (λ r out e. ground arith)
        (λ r out e. short_str-shorter tail (p - 0x80) e)
        (λ r out e.
          let ((b, after), e₁, e₂) = >>=-eq-ok (long_payload tail (p - 0xb7)) _ e in
          ground (arith, long_payload-lengths tail (p - 0xb7) e₁))
        (as_list_item-le (length tail) (take tail (p - 0xc0))
          (λ b out e. omega (arith, take-lengths tail (p - 0xc0) e)))
        (as_list_item-le (length tail) (long_payload tail (p - 0xf7))
          (λ b out e. long_payload-lengths tail (p - 0xf7) e))

  module _ (n : ℕ) (ends : (payload : Bytes) → length payload ≤ n → Ends (items_of payload)) where
    as_list_item-Ends :
        (m : Result VoteError (Bytes × Bytes))
        → Ends m
        → ((b tail : Bytes) → m ≡ ok (b, tail) → length b + length tail ≤ n)
        → Ends (m >>= as_list_item items_of)
    as_list_item-Ends m h fits = >>=-ne-err m _ (rlp out_of_fuel) h λ (b, tail) e.
        >>=-ne-err (items_of b) _ (rlp out_of_fuel) (ends b (omega (arith, fits b tail e)))
          λ items e' q. cc

    decode_tagged-Ends :
        (p : ℕ) (tail : Bytes) → length tail ≤ n → Ends (decode_tagged items_of p tail)
    decode_tagged-Ends p tail h =
        decode_tagged-branches Ends p tail (λ e. cc) (short_str-Ends tail (p - 0x80))
          (>>=-ne-err (long_payload tail (p - 0xb7)) _ (rlp out_of_fuel)
            (long_payload-Ends tail (p - 0xb7)) (λ a e q. cc))
          (as_list_item-Ends (take tail (p - 0xc0)) (take-Ends tail (p - 0xc0))
            (λ b out e. omega (arith, take-lengths tail (p - 0xc0) e)))
          (as_list_item-Ends (long_payload tail (p - 0xf7)) (long_payload-Ends tail (p - 0xf7))
            (λ b out e. omega (arith, long_payload-lengths tail (p - 0xf7) e)))

decode_item-shorter :
    (f depth : ℕ) (buf : Bytes) {r : Rlp} {tail : Bytes}
    → decode_item f buf depth ≡ ok (r, tail)
    → length tail < length buf
unfolding decode_item
decode_item-shorter zero depth buf e = cc
decode_item-shorter (suc f) depth [] e = cc
decode_item-shorter (suc f) depth (p ∷ rest) {r} {tail} e =
    omega (arith, decode_tagged-le (λ payload. decode_list f payload depth) p rest r tail e)

mutual
  unfolding decode_item

  decode_item-Ends :
      (f depth : ℕ) (buf : Bytes) → 3 * length buf ≤ f → 0 < f → Ends (decode_item f buf depth)
  decode_item-Ends zero depth buf h pos = absurd (omega arith)
  decode_item-Ends (suc f) depth [] h pos = λ e. cc
  decode_item-Ends (suc f) depth (p ∷ rest) h pos =
      decode_tagged-Ends (λ payload. decode_list f payload depth) (length rest)
        (λ payload fits. decode_list-Ends f depth payload (omega arith)) p rest (omega arith)

  decode_list-Ends :
      (f depth : ℕ) (payload : Bytes)
      → 3 * length payload + 2 ≤ f
      → Ends (decode_list f payload depth)
  decode_list-Ends zero depth payload h = absurd (omega arith)
  decode_list-Ends (suc f) depth payload h =
      ground (arith, decode_items-Ends f (depth + 1) payload (omega arith))

  decode_items-Ends :
      (f depth : ℕ) (payload : Bytes)
      → 3 * length payload + 1 ≤ f
      → Ends (decode_items f payload depth)
  decode_items-Ends zero depth payload h = absurd (omega arith)
  decode_items-Ends (suc f) depth [] h = λ e. cc
  decode_items-Ends (suc f) depth (b ∷ bs) h =
      >>=-ne-err (decode_item f (b ∷ bs) depth) _ (rlp out_of_fuel)
        (decode_item-Ends f depth (b ∷ bs) (omega arith) (omega arith))
        λ (r, rest) e.
          >>=-ne-err (decode_items f rest depth) _ (rlp out_of_fuel)
            (decode_items-Ends f depth rest (omega (arith, decode_item-shorter f depth (b ∷ bs) e)))
            (λ items e' q. cc)

-- The RLP reader of vote.rs never runs out of the model's fuel, on any input.
pub decode_top-Ends : (buf : Bytes) → decode_top buf ≢ err (rlp out_of_fuel)
unfolding decode_top finish
decode_top-Ends buf =
    >>=-ne-err (decode_item (3 * length buf + 1) buf 0) _ (rlp out_of_fuel)
      (decode_item-Ends (3 * length buf + 1) 0 buf (omega arith) (omega arith))
      λ out e q. ground arith
