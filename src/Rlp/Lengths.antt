-- ===== src/Rlp/Lengths.antt =====
-- The length bytes of the long forms: `be_len` reads what `len_be` writes, and nothing else.

use native.Mathlib.Nat.{pow-succ', add-zero, pow-le-pow_right}
use helios_bsc.Prelude.{
  ℕ, zero, suc, ◌+◌, ◌-◌, ◌*◌, ◌/◌, ◌%◌, ◌^◌, ◌≤◌, ◌<◌, ◌≡◌, ◌≢◌, refl, sym, ap, ◌∙◌, Option, none,
  some, [], ◌∷◌, ◌++◌, append_assoc, append-nil, arith, Bytes, length, drop, All, All-append,
  length-append, length-drop, drop-append, ok, ok-injective,
}
use helios_bsc.Prelude.Words.{IsU64, IsByte}
use helios_bsc.Rlp.Encode.{to_be_bytes, position_nonzero, from_position, len_be}
use helios_bsc.Rlp.Decode.{be_loop, be_len}

-- The number that big-endian bytes spell, behind `acc`.
unfoldable pub be_fold : ℕ → Bytes → ℕ
be_fold acc [] = acc
be_fold acc (x ∷ xs) = be_fold (acc * 256 + x) xs

pub be_fold-snoc :
    (acc : ℕ) (xs : Bytes) (y : ℕ) → be_fold acc (xs ++ y ∷ []) ≡ be_fold acc xs * 256 + y
unfolding be_fold
be_fold-snoc acc [] y = refl
be_fold-snoc acc (x ∷ xs) y = be_fold-snoc (acc * 256 + x) xs y

pub be_fold-ge : (acc : ℕ) (xs : Bytes) → acc ≤ be_fold acc xs
unfolding be_fold
be_fold-ge acc [] = omega arith
be_fold-ge acc (x ∷ xs) = omega (arith, be_fold-ge (acc * 256 + x) xs)

below_next : (a x p v : ℕ) → x < 256 → v < suc (a * 256 + x) * p → v < suc a * (256 * p)
below_next a x p v hx h = grind arith

pub be_fold-lt : (acc : ℕ) (xs : Bytes) → All IsByte xs → be_fold acc xs < suc acc * 256 ^ length xs
unfolding be_fold
be_fold-lt acc [] h = omega arith
be_fold-lt acc (x ∷ xs) (hx, hxs) =
    rw pow-succ' (below_next acc x (256 ^ length xs) _ hx (be_fold-lt (acc * 256 + x) xs hxs))

pub be_fold-to_be_bytes : (k n : ℕ) → n < 256 ^ k → be_fold 0 (to_be_bytes k n) ≡ n
unfolding to_be_bytes
be_fold-to_be_bytes zero n h = unfold be_fold in omega arith
be_fold-to_be_bytes (suc k) n h =
    be_fold-snoc 0 (to_be_bytes k (n / 256)) (n % 256)
    ∙ omega (arith, be_fold-to_be_bytes k (n / 256) (omega arith))

to_be_bytes-suc : (k n : ℕ) → to_be_bytes (suc k) n ≡ to_be_bytes k (n / 256) ++ n % 256 ∷ []
unfolding to_be_bytes
to_be_bytes-suc k n = refl

-- Bytes are the digits of the number that they spell.
pub to_be_bytes-be_fold :
    (xs : Bytes) (j acc : ℕ)
    → All IsByte xs
    → to_be_bytes (j + length xs) (be_fold acc xs) ≡ to_be_bytes j acc ++ xs
unfolding be_fold
to_be_bytes-be_fold [] j acc h = rw append-nil (ap (λ i. to_be_bytes i acc) (add-zero j))
to_be_bytes-be_fold (x ∷ xs) j acc (hx, hxs) =
    ap (λ i. to_be_bytes i (be_fold (acc * 256 + x) xs)) shifted
    ∙ to_be_bytes-be_fold xs (suc j) (acc * 256 + x) hxs
    ∙ last_digit
  where
    shifted : j + suc (length xs) ≡ suc j + length xs
    shifted = omega arith

    quotient : (acc * 256 + x) / 256 ≡ acc
    quotient = omega arith

    digit : (acc * 256 + x) % 256 ≡ x
    digit = omega arith

    last_digit : to_be_bytes (suc j) (acc * 256 + x) ++ xs ≡ to_be_bytes j acc ++ x ∷ xs
    last_digit =
        ap (λ t. t ++ xs) (to_be_bytes-suc j (acc * 256 + x))
        ∙ rw (quotient, digit) (append_assoc (to_be_bytes j acc) (x ∷ []) xs)

abbrev IsZero : ℕ → Type 0
IsZero b = b ≡ 0

to_be_bytes_nil : (k : ℕ) → All IsZero (to_be_bytes k 0)
unfolding to_be_bytes
to_be_bytes_nil zero = tt
to_be_bytes_nil (suc k) =
    All-append IsZero (to_be_bytes k 0) (0 ∷ []) (to_be_bytes_nil k) (refl, tt)

position_nonzero-zeros :
    (zs : Bytes) (y : ℕ) (r : Bytes)
    → All IsZero zs
    → y ≢ 0
    → position_nonzero (zs ++ y ∷ r) ≡ some (length zs)
unfolding position_nonzero
position_nonzero-zeros [] y r h p = ground arith
position_nonzero-zeros (z ∷ zs) y r (hz, hzs) p =
    ground (arith, position_nonzero-zeros zs y r hzs p)

width : (n : ℕ) → n ≤ 8 → 8 ≡ 8 - n + n
width n h = omega arith

-- A byte string with no leading zero is what `len_be` writes for the number that it spells.
pub len_be-be_fold :
    (y : ℕ) (r : Bytes)
    → y ≢ 0
    → All IsByte (y ∷ r)
    → length (y ∷ r) ≤ 8
    → len_be (be_fold 0 (y ∷ r)) ≡ y ∷ r
unfolding len_be
len_be-be_fold y r p h fits =
    rw (padded, position_nonzero-zeros zeros y r (to_be_bytes_nil (8 - length (y ∷ r))) p)
      (drop-append (length zeros) zeros (y ∷ r) refl)
  where
    zeros : Bytes
    zeros = to_be_bytes (8 - length (y ∷ r)) 0

    padded : to_be_bytes 8 (be_fold 0 (y ∷ r)) ≡ zeros ++ y ∷ r
    padded =
        ap (λ i. to_be_bytes i (be_fold 0 (y ∷ r))) (width _ fits)
        ∙ to_be_bytes-be_fold (y ∷ r) (8 - length (y ∷ r)) 0 h

pub be_loop-be_fold :
    (acc : ℕ) (xs : Bytes) → IsU64 (be_fold acc xs) → be_loop acc xs ≡ ok (be_fold acc xs)
unfolding be_loop be_fold
be_loop-be_fold acc [] h = refl
be_loop-be_fold acc (x ∷ xs) h =
    ground (arith, be_fold-ge (acc * 256 + x) xs, be_loop-be_fold (acc * 256 + x) xs)

-- Where the first byte that is not zero stands, and what is left from there on.
record Trimmed (be : Bytes) : Type 0 where
  pub start : ℕ
  pub first : ℕ
  pub others : Bytes
  pub position : position_nonzero be ≡ some start
  pub dropped : drop start be ≡ first ∷ others
  pub nonzero : first ≢ 0
  pub spells : be_fold 0 (first ∷ others) ≡ be_fold 0 be

trim : (be : Bytes) → be_fold 0 be ≢ 0 → Trimmed be
trim [] h = absurd (h (unfold be_fold in refl))
trim (zero ∷ bs) h = shift (trim bs (unfold be_fold in h))
  where
    shift : Trimmed bs → Trimmed (0 ∷ bs)
    shift t = record {
      start = suc t.start;
      first = t.first;
      others = t.others;
      position = unfold position_nonzero in rw t.position;
      dropped = t.dropped;
      nonzero = t.nonzero;
      spells = t.spells ∙ unfold be_fold in refl;
    }
trim (suc b ∷ bs) h = record {
  start = 0;
  first = suc b;
  others = bs;
  position = unfold position_nonzero in ground arith;
  dropped = refl;
  nonzero = omega arith;
  spells = refl;
}

be_len-be_fold :
    (y : ℕ) (r : Bytes)
    → y ≢ 0
    → IsU64 (be_fold 0 (y ∷ r))
    → be_len (y ∷ r) ≡ ok (be_fold 0 (y ∷ r))
unfolding be_len
be_len-be_fold y r p h = ground (arith, be_loop-be_fold 0 (y ∷ r) h)

len_be-Trimmed : (n : ℕ) (t : Trimmed (to_be_bytes 8 n)) → len_be n ≡ t.first ∷ t.others
unfolding len_be
len_be-Trimmed n t = rw t.position t.dropped

-- `be_len` reads back the length that `len_be` writes.
pub be_len-len_be : (n : ℕ) → 0 < n → IsU64 n → be_len (len_be n) ≡ ok n
be_len-len_be n pos fits =
    let spelled : be_fold 0 (to_be_bytes 8 n) ≡ n = be_fold-to_be_bytes 8 n fits in
    let t = trim (to_be_bytes 8 n) (λ e. omega arith) in
    let value : be_fold 0 (t.first ∷ t.others) ≡ n = t.spells ∙ spelled in
    ap be_len (len_be-Trimmed n t)
    ∙ be_len-be_fold t.first t.others t.nonzero (omega arith)
    ∙ ap ok value

-- A length is written with one byte at least.
pub len_be_pos : (n : ℕ) → 0 < n → IsU64 n → 0 < length (len_be n)
len_be_pos n pos fits =
    let spelled : be_fold 0 (to_be_bytes 8 n) ≡ n = be_fold-to_be_bytes 8 n fits in
    let t = trim (to_be_bytes 8 n) (λ e. omega arith) in rw (len_be-Trimmed n t) (omega arith)

length-to_be_bytes : (k n : ℕ) → length (to_be_bytes k n) ≡ k
unfolding to_be_bytes
length-to_be_bytes zero n = refl
length-to_be_bytes (suc k) n =
    omega (
      arith,
      length-append (to_be_bytes k (n / 256)) (n % 256 ∷ []),
      length-to_be_bytes k (n / 256),
    )

length-from_position : (be : Bytes) (o : Option ℕ) → length (from_position be o) ≤ length be
length-from_position be none = omega (arith, length-drop 7 be)
length-from_position be (some s) = omega (arith, length-drop s be)

-- A length takes eight bytes at most.
pub length-len_be : (n : ℕ) → length (len_be n) ≤ 8
unfolding len_be
length-len_be n = omega (
  arith,
  length-from_position (to_be_bytes 8 n) (position_nonzero (to_be_bytes 8 n)),
  length-to_be_bytes 8 n,
)

be_len-zero : (r : Bytes) (n : ℕ) → be_len (0 ∷ r) ≡ ok n → n ≡ 0
unfolding be_len be_loop
be_len-zero [] n e = ground arith
be_len-zero (x ∷ xs) n e = ground arith

eight_bytes_bound : (xs : Bytes) → All IsByte xs → length xs ≤ 8 → IsU64 (be_fold 0 xs)
eight_bytes_bound xs h fits = omega (
  arith,
  be_fold-lt 0 xs h,
  pow-le-pow_right {n = 256} (omega arith) {i = length xs} {j = 8} fits,
)

-- A length that was read is written back by the same bytes.
pub len_be-be_len :
    (lb : Bytes) (n : ℕ)
    → All IsByte lb
    → length lb ≤ 8
    → be_len lb ≡ ok n
    → 1 < n
    → (len_be n ≡ lb) × IsU64 n
len_be-be_len [] n h fits e pos = unfold be_len in cc
len_be-be_len (zero ∷ r) n h fits e pos = absurd (omega (arith, be_len-zero r n e))
len_be-be_len (suc y ∷ r) n h fits e pos =
    let small : IsU64 (be_fold 0 (suc y ∷ r)) = eight_bytes_bound (suc y ∷ r) h fits in
    let value : be_fold 0 (suc y ∷ r) ≡ n =
      ok-injective (sym (be_len-be_fold (suc y) r (omega arith) small) ∙ e) in
    (ap len_be (sym value) ∙ len_be-be_fold (suc y) r (omega arith) h fits, omega arith)
