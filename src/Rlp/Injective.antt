-- ===== src/Rlp/Injective.antt =====
-- Encoded lists of strings can be told apart.
use mathlib.Core.Path.{subst, ap₂}
use helios_bsc.Prelude.{
  ℕ, zero, suc, ◌+◌, ◌/◌, ◌%◌, ◌≤◌, ◌≡◌, refl, sym, ap, ◌∙◌, Bool-cases, false, inl, inr, List, [],
  ◌∷◌, ◌++◌, Bytes, length, length-append, drop, All, All-append, leb, ltb, ◌==◌, ok, ok-injective,
  arith,
}
use helios_bsc.Prelude.Words.{IsU64, IsByte}
use helios_bsc.Rlp.Encode.{
  Rlp, Items, bytes, list, nil, cons, to_be_bytes, position_nonzero, unwrap_position, len_be,
  encode_string, encode_bytes, encode_uint128, concat, encode_list, encode, encode_each,
}
use helios_bsc.Rlp.Decode.{decode}
use helios_bsc.Rlp.RoundTrip.{decode-encode, AreEncodable, nesting, nesting_items}

-- The encoding of a string of bytes.
abbrev pub IsItem : Bytes → Type 0
IsItem item = (p : Bytes) × All IsByte p × (encode_bytes p ≡ item)

-- A string stands at the end of its encoding.
encode_string-suffix : (b : Bytes) → (front : Bytes) × (encode_string b ≡ front ++ b)
unfolding encode_string
encode_string-suffix b = elim (Bool-cases (leb (length b) 55)) [
  | inl short ↦ ((0x80 + length b) ∷ [], rw short refl)
  | inr long ↦ ((0xb7 + length (len_be (length b))) ∷ len_be (length b), rw long refl)
]

pub encode_bytes-suffix : (b : Bytes) → (front : Bytes) × (encode_bytes b ≡ front ++ b)
unfolding encode_bytes
encode_bytes-suffix [] = encode_string-suffix []
encode_bytes-suffix (c ∷ []) = elim (Bool-cases (ltb c 0x80)) [
  | inl low ↦ ([], rw low refl)
  | inr high ↦ let (front, split) = encode_string-suffix (c ∷ []) in (front, rw high split)
]
encode_bytes-suffix (c ∷ d ∷ b) =
    let (front, split) = encode_string-suffix (c ∷ d ∷ b) in
    let wide : (length (c ∷ d ∷ b) == 1) ≡ false = ground arith in (front, rw wide split)

encode_bytes-le : (b : Bytes) → length b ≤ length (encode_bytes b)
encode_bytes-le b =
    let (front, split) = encode_bytes-suffix b in
    let longer = ap length split ∙ length-append front b in omega arith

-- The items that the list was made of.
items_of : (l : List Bytes) → All IsItem l → Items
items_of [] h = nil
items_of (item ∷ l) ((p, are, same), h) = cons (bytes p) (items_of l h)

encode_each-items_of : (l : List Bytes) (h : All IsItem l) → encode_each (items_of l h) ≡ l
unfolding items_of encode_each encode
encode_each-items_of [] h = refl
encode_each-items_of (item ∷ l) ((p, are, same), h) =
    ap₂ (λ i r. i ∷ r) same (encode_each-items_of l h)

nesting_items-items_of : (l : List Bytes) (h : All IsItem l) → nesting_items (items_of l h) ≡ 0
unfolding items_of nesting nesting_items
nesting_items-items_of [] h = refl
nesting_items-items_of (item ∷ l) (i, h) = let flat = nesting_items-items_of l h in omega arith

items_of-AreEncodable :
    (l : List Bytes) (h : All IsItem l) → IsU64 (length (concat l)) → AreEncodable (items_of l h)
unfolding items_of concat
items_of-AreEncodable [] h fits = tt
items_of-AreEncodable (item ∷ l) ((p, are, same), h) fits =
    let total = length-append item (concat l) in
    let small = encode_bytes-le p in
    let width = ap length same in ((are, omega arith), items_of-AreEncodable l h (omega arith))

abbrev strings : Rlp → List Bytes
strings (bytes b) = []
strings (list items) = encode_each items

decode-encode_list :
    (l : List Bytes) (h : All IsItem l)
    → IsU64 (length (concat l))
    → decode (encode_list l) ≡ ok (list (items_of l h))
unfolding encode nesting
decode-encode_list l h fits =
    let each = encode_each-items_of l h in
    let flat = nesting_items-items_of l h in
    ap (λ e. decode (encode_list e)) (sym each)
    ∙ decode-encode (list (items_of l h))
        (subst (λ e. IsU64 (length (concat e))) (sym each) fits, items_of-AreEncodable l h fits)
        (omega arith)

-- Two lists of encoded strings that encode_list takes to the same bytes are equal, where their bytes
-- have lengths that fit a u64.
pub encode_list-injective :
    (l l' : List Bytes)
    → All IsItem l
    → All IsItem l'
    → IsU64 (length (concat l))
    → IsU64 (length (concat l'))
    → encode_list l ≡ encode_list l'
    → l ≡ l'
encode_list-injective l l' h h' fits fits' e =
    let same : list (items_of l h) ≡ list (items_of l' h') =
      ok-injective
        (sym (decode-encode_list l h fits) ∙ ap decode e ∙ decode-encode_list l' h' fits') in
    sym (encode_each-items_of l h) ∙ ap strings same ∙ encode_each-items_of l' h'

pub encode_bytes-injective :
    (b b' : Bytes)
    → All IsByte b
    → All IsByte b'
    → IsU64 (length b)
    → IsU64 (length b')
    → encode_bytes b ≡ encode_bytes b'
    → b ≡ b'
unfolding encode nesting
encode_bytes-injective b b' h h' fits fits' e =
    let same : bytes b ≡ bytes b' = ok-injective (
      sym (decode-encode (bytes b) (h, fits) (omega arith))
      ∙ ap decode e
      ∙ decode-encode (bytes b') (h', fits') (omega arith)) in
    ap string_of same
  where
    string_of : Rlp → Bytes
    string_of (bytes s) = s
    string_of (list items) = []

All-drop : (n : ℕ) (b : Bytes) → All IsByte b → All IsByte (drop n b)
All-drop zero b h = h
All-drop (suc n) [] h = tt
All-drop (suc n) (c ∷ b) (_, h) = All-drop n b h

to_be_bytes-IsByte : (k n : ℕ) → All IsByte (to_be_bytes k n)
unfolding to_be_bytes
to_be_bytes-IsByte zero n = tt
to_be_bytes-IsByte (suc k) n =
    All-append IsByte (to_be_bytes k (n / 256)) (n % 256 ∷ []) (to_be_bytes-IsByte k (n / 256))
      (omega arith, tt)

pub empty-IsItem : IsItem (0x80 ∷ [])
unfolding encode_bytes encode_string
empty-IsItem = ([], tt, refl)

pub encode_uint128-IsItem : (n : ℕ) → IsItem (encode_uint128 n)
unfolding encode_uint128
encode_uint128-IsItem n = elim (Bool-cases (n == 0)) [
  | inl none_left ↦ rw none_left empty-IsItem
  | inr some_left ↦
      let be = to_be_bytes 16 n in
      let k = unwrap_position (position_nonzero be) in
      rw some_left (drop k be, All-drop k be (to_be_bytes-IsByte 16 n), refl)
]
