-- ===== src/Execution/OrderedTrie/Prefix.antt =====
-- `hex_prefix_encode` of crates/helios-bsc-execution/src/ordered_trie.rs and `hex_prefix_decode` of
-- mpt.rs beside it.
use helios_bsc.Prelude.{
  ℕ, ◌+◌, ◌*◌, ◌/◌, ◌%◌, ◌<◌, ◌≡◌, ◌≢◌, ◌↔◌, refl, sym, ap, ◌∙◌, ◌⊎◌, inl, inr, Bool, true, false,
  [], ◌∷◌, Bytes, length, All, leb, ◌==◌, Bool-cases, arith, Result, ok, err, ◌>>=◌, if◌then◌else◌,
  ok-injective, suc, ensure-eq-ok,
}
use helios_bsc.Execution.Mpt.{
  MptError, path_mismatch, bytes_to_nibbles, path_nibbles, hex_prefix_decode,
}
use helios_bsc.Execution.OrderedTrie.{bit, pack_nibbles, hex_prefix_encode}

abbrev pub IsNibble : ℕ → Type 0
IsNibble n = n < 16

bytes_to_nibbles-pack_nibbles :
    (ns : Bytes) → All IsNibble ns → length ns % 2 ≡ 0 → bytes_to_nibbles (pack_nibbles ns) ≡ ns
unfolding bytes_to_nibbles pack_nibbles
bytes_to_nibbles-pack_nibbles [] small even = refl
bytes_to_nibbles-pack_nibbles (n ∷ []) small even = absurd (omega arith)
bytes_to_nibbles-pack_nibbles (n ∷ m ∷ ns) small even =
    let sn : n < 16 = small.0 in
    let sm : m < 16 = small.1.0 in
    let even' : length ns % 2 ≡ 0 = omega arith in
    let high : (n * 16 + m) / 16 ≡ n = omega arith in
    let low : (n * 16 + m) % 16 ≡ m = omega arith in
    rw (high, low, bytes_to_nibbles-pack_nibbles ns small.1.1 even') refl

pack_nibbles-bytes_to_nibbles : (bs : Bytes) → pack_nibbles (bytes_to_nibbles bs) ≡ bs
unfolding bytes_to_nibbles pack_nibbles
pack_nibbles-bytes_to_nibbles [] = refl
pack_nibbles-bytes_to_nibbles (b ∷ bs) =
    let joined : b / 16 * 16 + b % 16 ≡ b = omega arith in
    rw (joined, pack_nibbles-bytes_to_nibbles bs) refl

bytes_to_nibbles-even : (bs : Bytes) → length (bytes_to_nibbles bs) % 2 ≡ 0
unfolding bytes_to_nibbles
bytes_to_nibbles-even [] = refl
bytes_to_nibbles-even (b ∷ bs) = let e = bytes_to_nibbles-even bs in omega arith

hex_prefix_encode-even :
    (ns : Bytes) (leaf : Bool)
    → length ns % 2 ≡ 0
    → hex_prefix_encode ns leaf ≡ (32 * bit leaf) ∷ pack_nibbles ns
unfolding hex_prefix_encode
hex_prefix_encode-even ns true even = rw (even) refl
hex_prefix_encode-even ns false even = rw (even) refl

hex_prefix_encode-odd :
    (n : ℕ) (ns : Bytes) (leaf : Bool)
    → length ns % 2 ≡ 0
    → hex_prefix_encode (n ∷ ns) leaf ≡ (16 + 32 * bit leaf + n) ∷ pack_nibbles ns
unfolding hex_prefix_encode
hex_prefix_encode-odd n ns true even =
    let odd : suc (length ns) % 2 ≡ 1 = omega arith in rw (odd) refl
hex_prefix_encode-odd n ns false even =
    let odd : suc (length ns) % 2 ≡ 1 = omega arith in rw (odd) refl

hex_prefix_decode-even :
    (bs : Bytes) (leaf : Bool)
    → hex_prefix_decode ((32 * bit leaf) ∷ bs) ≡ ok (bytes_to_nibbles bs, leaf)
unfolding hex_prefix_decode path_nibbles bytes_to_nibbles
hex_prefix_decode-even bs true = refl
hex_prefix_decode-even bs false = refl

hex_prefix_decode-odd :
    (n : ℕ) (bs : Bytes) (leaf : Bool)
    → IsNibble n
    → hex_prefix_decode ((16 + 32 * bit leaf + n) ∷ bs) ≡ ok (n ∷ bytes_to_nibbles bs, leaf)
unfolding hex_prefix_decode path_nibbles bytes_to_nibbles
hex_prefix_decode-odd n bs true small =
    let high : (16 + 32 * 1 + n) / 16 ≡ 3 = omega arith in
    let low : (16 + 32 * 1 + n) % 16 ≡ n = omega arith in rw (high, low) refl
hex_prefix_decode-odd n bs false small =
    let high : (16 + 32 * 0 + n) / 16 ≡ 1 = omega arith in
    let low : (16 + 32 * 0 + n) % 16 ≡ n = omega arith in rw (high, low) refl

-- The first byte of an even path, or of an odd one.
abbrev FirstByte : ℕ → Type 0
FirstByte b =
    (leaf : Bool) × ((b ≡ 32 * bit leaf) ⊎ ((n : ℕ) × IsNibble n × (b ≡ 16 + 32 * bit leaf + n)))

path_nibbles-even :
    {A : Type 0} (b : ℕ) (bs : Bytes) (f : Bytes → Result MptError A) (r : A)
    → (path_nibbles false (b / 16 ∷ b % 16 ∷ bs) >>= f) ≡ ok r
    → b % 16 ≡ 0
unfolding path_nibbles
path_nibbles-even b bs f r e = elim (Bool-cases (b % 16 == 0)) [
  | inl zero_pad ↦ ground arith
  | inr padded ↦
      absurd
        (apart (sym (ap (λ c. (if c then ok bs else err (path_mismatch 0 0 0)) >>= f) padded) ∙ e))
]
  where
    apart : err (path_mismatch 0 0 0) ≢ ok r
    apart = λ h. cc

parity : (n : ℕ) → (n % 2 ≡ 0) ⊎ (n % 2 ≡ 1)
parity n = elim (Bool-cases (n % 2 == 0)) [
  | inl even ↦ inl (ground arith)
  | inr odd ↦ inr (ground arith)
]

hex_prefix_decode-FirstByte :
    (b : ℕ) (bs ns : Bytes) (leaf : Bool) → hex_prefix_decode (b ∷ bs) ≡ ok (ns, leaf) → FirstByte b
unfolding hex_prefix_decode bytes_to_nibbles
hex_prefix_decode-FirstByte b bs ns leaf e =
    let (small, e₁) = ensure-eq-ok (leb (b / 16) 3) _ _ e in
    let low : b % 16 < 16 = omega arith in
    elim (Bool-cases (b / 16 % 2 == 1)) [
      | inl odd ↦ elim (Bool-cases (leb 2 (b / 16))) [
        | inl leaf₁ ↦ (true, inr (b % 16, low, ground arith))
        | inr ext ↦ (false, inr (b % 16, low, ground arith))
      ]
      | inr even ↦
          let pad : b % 16 ≡ 0 =
            path_nibbles-even b (bytes_to_nibbles bs) _ (ns, leaf)
              (ap
                  (λ c.
                    path_nibbles c (bytes_to_nibbles (b ∷ bs))
                    >>= (λ nibs. ok (nibs, leb 2 (b / 16))))
                  (sym even)
                ∙ e₁) in
          elim (Bool-cases (leb 2 (b / 16))) [
            | inl leaf₁ ↦ (true, inl (ground arith))
            | inr ext ↦ (false, inl (ground arith))
          ]
    ]

hex_prefix_decode-hex_prefix_encode :
    (ns : Bytes) (leaf : Bool)
    → All IsNibble ns
    → hex_prefix_decode (hex_prefix_encode ns leaf) ≡ ok (ns, leaf)
hex_prefix_decode-hex_prefix_encode ns leaf small = elim (parity (length ns)) [
  | inl even ↦
      ap hex_prefix_decode (hex_prefix_encode-even ns leaf even)
      ∙ hex_prefix_decode-even (pack_nibbles ns) leaf
      ∙ ap (λ l. ok (l, leaf)) (bytes_to_nibbles-pack_nibbles ns small even)
  | inr odd ↦ odd_path ns small odd
]
  where
    odd_path :
        (ns : Bytes)
        → All IsNibble ns
        → length ns % 2 ≡ 1
        → hex_prefix_decode (hex_prefix_encode ns leaf) ≡ ok (ns, leaf)
    odd_path [] small odd = absurd (omega arith)
    odd_path (n ∷ ns) small odd =
        let even : length ns % 2 ≡ 0 = omega arith in
        ap hex_prefix_decode (hex_prefix_encode-odd n ns leaf even)
        ∙ hex_prefix_decode-odd n (pack_nibbles ns) leaf small.0
        ∙ ap (λ l. ok (n ∷ l, leaf)) (bytes_to_nibbles-pack_nibbles ns small.1 even)

-- A path that decodes is the encoding of its nibbles when some path that is one decodes alike.
same_path :
    (path path' ns ns' : Bytes) (leaf leaf' : Bool)
    → hex_prefix_decode path' ≡ ok (ns', leaf')
    → hex_prefix_encode ns' leaf' ≡ path'
    → path ≡ path'
    → hex_prefix_decode path ≡ ok (ns, leaf)
    → hex_prefix_encode ns leaf ≡ path
same_path path path' ns ns' leaf leaf' read print same e =
    let alike : (ns', leaf') ≡ (ns, leaf) =
      ok-injective (sym read ∙ ap hex_prefix_decode (sym same) ∙ e) in
    ap (λ p. hex_prefix_encode p.0 p.1) (sym alike) ∙ print ∙ sym same

hex_prefix_encode-hex_prefix_decode :
    (path ns : Bytes) (leaf : Bool)
    → hex_prefix_decode path ≡ ok (ns, leaf)
    → hex_prefix_encode ns leaf ≡ path
unfolding hex_prefix_decode
hex_prefix_encode-hex_prefix_decode [] ns leaf e = cc
hex_prefix_encode-hex_prefix_decode (b ∷ bs) ns leaf e =
    let (leaf', first) = hex_prefix_decode-FirstByte b bs ns leaf e in
    let nibs = bytes_to_nibbles bs in
    elim first [
      | inl even ↦
          same_path _ _ _ nibs _ leaf' (hex_prefix_decode-even bs leaf')
            (hex_prefix_encode-even nibs leaf' (bytes_to_nibbles-even bs)
              ∙ ap (λ l. (32 * bit leaf') ∷ l) (pack_nibbles-bytes_to_nibbles bs))
            (ap (λ c. c ∷ bs) even) e
      | inr (n, small, odd) ↦
          same_path _ _ _ (n ∷ nibs) _ leaf' (hex_prefix_decode-odd n bs leaf' small)
            (hex_prefix_encode-odd n nibs leaf' (bytes_to_nibbles-even bs)
              ∙ ap (λ l. (16 + 32 * bit leaf' + n) ∷ l) (pack_nibbles-bytes_to_nibbles bs))
            (ap (λ c. c ∷ bs) odd) e
    ]

-- For a list of nibbles: hex_prefix_decode reads them and a flag for a leaf from a path exactly
-- when the path is what hex_prefix_encode gives for them and the flag, so each path that decodes
-- has one spelling and every list of nibbles, odd or even, comes back.
pub hex_prefix_decode-canonical :
    (path ns : Bytes) (leaf : Bool)
    → All IsNibble ns
    → (hex_prefix_decode path ≡ ok (ns, leaf)) ↔ (hex_prefix_encode ns leaf ≡ path)
hex_prefix_decode-canonical path ns leaf small = (
  hex_prefix_encode-hex_prefix_decode path ns leaf,
  λ e. ap hex_prefix_decode (sym e) ∙ hex_prefix_decode-hex_prefix_encode ns leaf small,
)
