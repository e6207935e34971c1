-- ===== src/Rlp/RoundTrip.antt =====
-- What the encoder of rlp.rs writes, its decoder reads back.
use helios_bsc.Prelude.{
  ℕ, zero, suc, ◌+◌, ◌*◌, ◌≤◌, ◌<◌, ◌≡◌, refl, false, [], ◌∷◌, ◌++◌, append_assoc, append-nil,
  arith, Bytes, length, get_or, All, length-append, take-append, drop-append, Bool-cases, inl, inr,
  ◌==◌, ltb, lt→ltb, ◌&&◌, Result, ok, max,
}
use helios_bsc.Prelude.Words.{IsU64, IsByte}
use helios_bsc.Rlp.Encode.{
  Rlp, Items, bytes, list, nil, cons, len_be, encode_string, encode_bytes, concat, list_header,
  encode_list, encode, encode_each,
}
use helios_bsc.Rlp.Decode.{
  RlpError, split_checked, short_string, long_payload, decode_tagged, decode_one, decode_list,
  decode_items, decode_fuel, finish, decode, max_rlp_depth,
}
use helios_bsc.Rlp.Lengths.{be_len-len_be, length-len_be, len_be_pos}

-- How deep the lists of an item nest.
unfoldable mutual
  pub nesting : Rlp → ℕ
  nesting (bytes b) = 0
  nesting (list items) = suc (nesting_items items)

  pub nesting_items : Items → ℕ
  nesting_items nil = 0
  nesting_items (cons r items) = max (nesting r) (nesting_items items)

-- Byte strings hold bytes, and every payload has a length that fits a `u64`.
abbrev mutual
  pub IsEncodable : Rlp → Type 0
  IsEncodable (bytes b) = All IsByte b × IsU64 (length b)
  IsEncodable (list items) = IsU64 (length (concat (encode_each items))) × AreEncodable items

  pub AreEncodable : Items → Type 0
  AreEncodable nil = Unit
  AreEncodable (cons r items) = IsEncodable r × AreEncodable items

split_checked-append :
    (n : ℕ) (b rest : Bytes) → n ≡ length b → split_checked n (b ++ rest) ≡ ok (b, rest)
unfolding split_checked
split_checked-append n b rest e =
    ground (arith, length-append b rest, take-append n b rest e, drop-append n b rest e)

long_payload-len_be :
    (b rest : Bytes)
    → 55 < length b
    → IsU64 (length b)
    → long_payload (length (len_be (length b))) (len_be (length b) ++ (b ++ rest)) ≡ ok (b, rest)
unfolding long_payload
long_payload-len_be b rest long fits =
    rw
      (
        split_checked-append _ (len_be (length b)) (b ++ rest) refl,
        be_len-len_be (length b) (omega arith) fits,
        lt→ltb 55 (length b) long,
      )
      (split_checked-append (length b) b rest refl)

short_string-append :
    (n : ℕ) (b rest : Bytes)
    → n ≡ length b
    → (length b == 1 && ltb (get_or b 0 0) 0x80) ≡ false
    → short_string n (b ++ rest) ≡ ok (bytes b, rest)
unfolding short_string
short_string-append n b rest e h = rw (split_checked-append n b rest e) (ground arith)

module _ (items_of : Bytes → Result RlpError Items) where
  tagged-encode_string :
      (b rest input : Bytes) (p : ℕ)
      → IsU64 (length b)
      → (length b == 1 && ltb (get_or b 0 0) 0x80) ≡ false
      → encode_string b ++ rest ≡ p ∷ input
      → decode_tagged items_of p input ≡ ok (bytes b, rest)
  unfolding encode_string decode_tagged
  tagged-encode_string b rest input p fits many e = ground (
    arith,
    short_string-append (length b) b rest refl many,
    long_payload-len_be b rest,
    length-len_be (length b),
    len_be_pos (length b),
    append_assoc (len_be (length b)) b rest,
  )

  tagged-encode_bytes :
      (b rest input : Bytes) (p : ℕ)
      → IsU64 (length b)
      → encode_bytes b ++ rest ≡ p ∷ input
      → decode_tagged items_of p input ≡ ok (bytes b, rest)
  unfolding encode_bytes decode_tagged
  tagged-encode_bytes [] rest input p fits e = tagged-encode_string [] rest input p fits refl e
  tagged-encode_bytes (x ∷ []) rest input p fits e = elim (Bool-cases (ltb x 0x80)) [
    | inl low ↦ ground arith
    | inr high ↦ tagged-encode_string (x ∷ []) rest input p fits high (rw high at e)
  ]
  tagged-encode_bytes (x ∷ y ∷ b) rest input p fits e =
      tagged-encode_string (x ∷ y ∷ b) rest input p fits (ground arith) (ground arith)

  tagged-list_header :
      (payload rest input : Bytes) (items : Items) (p : ℕ)
      → IsU64 (length payload)
      → items_of payload ≡ ok items
      → list_header payload ++ rest ≡ p ∷ input
      → decode_tagged items_of p input ≡ ok (list items, rest)
  unfolding list_header decode_tagged
  tagged-list_header payload rest input items p fits e h = ground (
    arith,
    e,
    split_checked-append (length payload) payload rest,
    long_payload-len_be payload rest,
    length-len_be (length payload),
    len_be_pos (length payload),
    append_assoc (len_be (length payload)) payload rest,
  )

encode_bytes_pos : (b : Bytes) → 0 < length (encode_bytes b)
unfolding encode_bytes encode_string
encode_bytes_pos b = ground arith

list_header-longer : (payload : Bytes) → length payload < length (list_header payload)
unfolding list_header
list_header-longer payload = ground (arith, length-append (len_be (length payload)) payload)

encode_pos : (r : Rlp) → 0 < length (encode r)
unfolding encode encode_list
encode_pos (bytes b) = encode_bytes_pos b
encode_pos (list items) = omega (arith, list_header-longer (concat (encode_each items)))

-- One call of each function of the decoder, with fuel left.
decode_one_step :
    (f depth : ℕ) (xs rest : Bytes) (out : Rlp × Bytes)
    → 0 < length xs
    → 0 < f
    → ((g p : ℕ) (input : Bytes)
        → f ≡ suc g
        → xs ++ rest ≡ p ∷ input
        → decode_tagged (λ payload. decode_list g payload (depth + 1)) p input ≡ ok out)
    → decode_one f (xs ++ rest) depth ≡ ok out
unfolding decode_one
decode_one_step zero depth xs rest out pos fuel k = absurd (omega arith)
decode_one_step (suc f) depth [] rest out pos fuel k = absurd (omega arith)
decode_one_step (suc f) depth (x ∷ xs) rest out pos fuel k = k f x (xs ++ rest) refl refl

decode_list_step :
    (f depth : ℕ) (payload : Bytes) (items : Items)
    → depth ≤ max_rlp_depth
    → 0 < f
    → ((g : ℕ) → f ≡ suc g → decode_items g payload depth ≡ ok items)
    → decode_list f payload depth ≡ ok items
unfolding decode_one
decode_list_step zero depth payload items deep fuel k = absurd (omega arith)
decode_list_step (suc f) depth payload items deep fuel k =
    let e : ltb max_rlp_depth depth ≡ false = ground arith in rw e (k f refl)

decode_items_step :
    (f depth : ℕ) (xs rest : Bytes) (r : Rlp) (items : Items)
    → 0 < length xs
    → 0 < f
    → ((g : ℕ) → f ≡ suc g → decode_one g (xs ++ rest) depth ≡ ok (r, rest))
    → ((g : ℕ) → f ≡ suc g → decode_items g rest depth ≡ ok items)
    → decode_items f (xs ++ rest) depth ≡ ok (cons r items)
unfolding decode_one
decode_items_step zero depth xs rest r items pos fuel one others = absurd (omega arith)
decode_items_step (suc f) depth [] rest r items pos fuel one others = absurd (omega arith)
decode_items_step (suc f) depth (x ∷ xs) rest r items pos fuel one others =
    rw (one f refl) (rw (others f refl) refl)

nil_items : (f depth : ℕ) → 0 < f → decode_items f [] depth ≡ ok nil
unfolding decode_one
nil_items zero depth h = absurd (omega arith)
nil_items (suc f) depth h = refl

mutual
  unfolding encode nesting encode_list concat

  decode_one-encode_lem :
      (r : Rlp) (f depth : ℕ) (rest : Bytes)
      → IsEncodable r
      → depth + nesting r ≤ max_rlp_depth
      → 3 * length (encode r) ≤ f
      → decode_one f (encode r ++ rest) depth ≡ ok (r, rest)
  decode_one-encode_lem (bytes b) f depth rest (hb, fits) deep fuel =
      decode_one_step f depth (encode_bytes b) rest (bytes b, rest) (encode_bytes_pos b)
        (omega (arith, encode_bytes_pos b))
        (λ g p input _ e. tagged-encode_bytes _ b rest input p fits e)
  decode_one-encode_lem (list items) f depth rest (fits, h) deep fuel =
      decode_one_step f depth (list_header (concat (encode_each items))) rest (list items, rest)
        (omega (arith, list_header-longer (concat (encode_each items))))
        (omega (arith, list_header-longer (concat (encode_each items))))
        (λ g p input e. tagged-list_header _ (concat (encode_each items)) rest input items p fits (
          decode_list_step g (depth + 1) (concat (encode_each items)) items (omega arith)
            (omega (arith, list_header-longer (concat (encode_each items))))
            (λ k ek.
              decode_items-encode_lem items k (depth + 1) h (omega arith)
                (omega (arith, list_header-longer (concat (encode_each items)))))))

  decode_items-encode_lem :
      (items : Items) (f depth : ℕ)
      → AreEncodable items
      → depth + nesting_items items ≤ max_rlp_depth
      → 3 * length (concat (encode_each items)) < f
      → decode_items f (concat (encode_each items)) depth ≡ ok items
  decode_items-encode_lem nil f depth h deep fuel = nil_items f depth fuel
  decode_items-encode_lem (cons r items) f depth (hr, hs) deep fuel =
      decode_items_step f depth (encode r) (concat (encode_each items)) r items (encode_pos r)
        (omega arith)
        (λ g e.
          decode_one-encode_lem r g depth (concat (encode_each items)) hr (omega arith)
            (omega (arith, length-append (encode r) (concat (encode_each items)))))
        (λ g e.
          decode_items-encode_lem items g depth hs (omega arith)
            (omega (arith, encode_pos r, length-append (encode r) (concat (encode_each items)))))

-- The RLP decoder reads every item back from its encoding, where the item's strings hold bytes, the
-- lengths of its strings and list payloads fit a u64, and its lists nest at most MAX_RLP_DEPTH
-- deep.
pub decode-encode : (r : Rlp) → IsEncodable r → nesting r ≤ max_rlp_depth → decode (encode r) ≡ ok r
unfolding decode finish
decode-encode r h deep =
    let read =
      decode_one-encode_lem r (decode_fuel (encode r)) 0 [] h (omega arith) (omega arith) in
    rw (rw append-nil at read)
