-- ===== src/Execution/Mpt/Payload.antt =====
-- The nodes of mpt.rs as bytes: the parts of a node lie inside of it.
use mathlib.Core.Path.{subst}
use helios_bsc.Prelude.{
  ℕ, zero, suc, ◌+◌, ◌≤◌, ◌<◌, ◌≡◌, ◌⊎◌, inl, inr, refl, sym, ap, ◌∙◌, List, [], ◌∷◌, ◌++◌, Bytes,
  length, length-append, All, All-suffix, All-prefix, leb, Bool-cases, arith, ok, ok-injective,
}
use helios_bsc.Prelude.Words.{IsByte}
use helios_bsc.Rlp.Encode.{
  Rlp, Items, bytes, list, nil, cons, concat, len_be, list_header, encode_list, encode, encode_each,
}
use helios_bsc.Rlp.Decode.{decode}
use helios_bsc.Rlp.Canonical.{encode-decode}
use helios_bsc.Rlp.Injective.{encode_bytes-suffix}
use helios_bsc.Execution.Mpt.{as_list, item_at}

-- The bytes of a node's items.
abbrev pub payload : Items → Bytes
payload items = concat (encode_each items)

abbrev pub AreBytes : List Bytes → Type 0
AreBytes = All (All IsByte)

list_header-suffix :
    (p : Bytes) → (front : Bytes) × (list_header p ≡ front ++ p) × (0 < length front)
unfolding list_header
list_header-suffix p = elim (Bool-cases (leb (length p) 55)) [
  | inl short ↦ ((0xc0 + length p) ∷ [], rw short refl, omega arith)
  | inr long ↦ ((0xf7 + length (len_be (length p))) ∷ len_be (length p), rw long refl, omega arith)
]

pub list-payload :
    (items : Items)
    → All IsByte (encode (list items))
    → (length (payload items) < length (encode (list items))) × All IsByte (payload items)
unfolding encode encode_list
list-payload items h =
    let (front, split, there) = list_header-suffix (payload items) in
    let longer = ap length split ∙ length-append front (payload items) in
    (omega arith, All-suffix IsByte front (payload items) (subst (All IsByte) split h))

pub string-payload :
    (b : Bytes)
    → All IsByte (encode (bytes b))
    → (length b ≤ length (encode (bytes b))) × All IsByte b
unfolding encode
string-payload b h =
    let (front, split) = encode_bytes-suffix b in
    let longer = ap length split ∙ length-append front b in
    (omega arith, All-suffix IsByte front b (subst (All IsByte) split h))

-- An item of a node: it is the empty string, or its encoding lies in the node's payload.
abbrev pub Inside : ℕ → Rlp → Type 0
Inside n r = (r ≡ bytes []) ⊎ ((length (encode r) ≤ n) × All IsByte (encode r))

pub item_at-Inside :
    (items : Items) (i : ℕ)
    → All IsByte (payload items)
    → Inside (length (payload items)) (item_at items i)
unfolding item_at encode_each concat
item_at-Inside nil i h = inl refl
item_at-Inside (cons r items) zero h =
    let total = length-append (encode r) (payload items) in
    inr (omega arith, All-prefix IsByte (encode r) (payload items) h)
item_at-Inside (cons r items) (suc i) h =
    elim (item_at-Inside items i (All-suffix IsByte (encode r) (payload items) h)) [
      | inl empty ↦ inl empty
      | inr (fits, are) ↦
          let total = length-append (encode r) (payload items) in inr (omega arith, are)
    ]

-- The items of a node that decodes lie in its bytes.
pub decode-payload :
    (raw : Bytes) (r : Rlp) (items : Items)
    → All IsByte raw
    → decode raw ≡ ok r
    → as_list r ≡ ok items
    → (length (payload items) < length raw) × All IsByte (payload items)
unfolding as_list
decode-payload raw (bytes b) items h e i = cc
decode-payload raw (list items') items h e i =
    let same : items' ≡ items = ok-injective i in
    let back = encode-decode raw (list items') h e in
    let (less, are) = list-payload items' (subst (All IsByte) (sym back) h) in
    let at = ap length back in
    subst (λ l. (length (payload l) < length raw) × All IsByte (payload l)) same (omega arith, are)
