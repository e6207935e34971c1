-- ===== src/Types/Hex/Value.antt =====
-- The numbers that hex quantities stand for, and what `decode_u64` of hexutil.rs makes of them.
use helios_bsc.Prelude.{
  ℕ, suc, ◌+◌, ◌-◌, ◌*◌, ◌^◌, ◌≤◌, ◌<◌, ◌≡◌, ◌∙◌, inl, inr, refl, sym, ap, Bool, true, false,
  Bool-cases, Option, none, some, List, [], ◌∷◌, Bytes, length, map, All, leb, ltb, ◌==◌,
  if◌then◌else◌, if_true, if_false, leb→le, ok, err, ok_or, arith,
}
use helios_bsc.Prelude.Words.{u64_max}
use native.Mathlib.Nat.{one-le-pow, pow-suc, add-mul, mul_assoc, mul_comm}
use helios_bsc.Types.Hex.{
  invalid_hex, strip_0x, to_digit, digits_from, from_str_radix, decode_raw_u64, decode_u64,
}

-- A hex digit, and whether it is written in upper case.
abbrev pub Digit : Type 0
Digit = ℕ × Bool

abbrev pub IsDigit : Digit → Type 0
IsDigit d = d.0 < 16

unfoldable pub digit_char : Digit → ℕ
digit_char d =
    if ltb d.0 10 then b'0' + d.0 else if d.1 then b'A' + (d.0 - 10) else b'a' + (d.0 - 10)

-- The number of the digits, the first one counting most.
abbrev pub value : List Digit → ℕ
value [] = 0
value (d ∷ ds) = d.0 * 16 ^ length ds + value ds

abbrev pub u64_or_none : ℕ → Option ℕ
u64_or_none n = if leb n u64_max then some n else none

to_digit-digit_char : (d : Digit) → IsDigit d → to_digit (digit_char d) ≡ some d.0
unfolding to_digit digit_char
to_digit-digit_char (d, true) small = ground arith
to_digit-digit_char (d, false) small = ground arith

digits_from-step :
    (n c d : ℕ) (cs : Bytes)
    → to_digit c ≡ some d
    → digits_from n (c ∷ cs)
      ≡ (if leb (n * 16 + d) u64_max then digits_from (n * 16 + d) cs else none)
unfolding digits_from
digits_from-step n c d cs read = rw (read, digits_from) refl

leb-over : (a b : ℕ) → a ≤ b → leb a u64_max ≡ false → leb b u64_max ≡ false
leb-over a b le over = ground arith

shift_value : (n d v k : ℕ) → (n * 16 + d) * 16 ^ k + v ≡ n * 16 ^ suc k + (d * 16 ^ k + v)
shift_value n d v k = along (16 ^ k) (16 ^ suc k) (pow-suc 16 k)
  where
    along : (p q : ℕ) → q ≡ p * 16 → (n * 16 + d) * p + v ≡ n * q + (d * p + v)
    along p q e =
        let apart = add-mul (n * 16) d p in
        let swapped : n * 16 * p ≡ n * q =
          mul_assoc n 16 p ∙ ap (λ k. n * k) (mul_comm 16 p ∙ sym e) in
        omega (arith, apart, swapped)

shift_value-le : (n d v k : ℕ) → n * 16 + d ≤ n * 16 ^ suc k + (d * 16 ^ k + v)
shift_value-le n d v k = along (16 ^ k) (16 ^ suc k) (pow-suc 16 k) (one-le-pow k 16 (omega arith))
  where
    along : (p q : ℕ) → q ≡ p * 16 → 1 ≤ p → n * 16 + d ≤ n * q + (d * p + v)
    along p q e pos = grind arith

digits_from-value :
    (n : ℕ) (ds : List Digit)
    → n ≤ u64_max
    → All IsDigit ds
    → digits_from n (map digit_char ds) ≡ u64_or_none (n * 16 ^ length ds + value ds)
unfolding digits_from
digits_from-value n [] fits small =
    let whole : n * 1 + 0 ≡ n = omega arith in
    let within : leb n u64_max ≡ true = ground arith in
    sym (if_true _ _ within) ∙ ap u64_or_none (sym whole)
digits_from-value n (d ∷ ds) fits small =
    digits_from-step n (digit_char d) d.0 (map digit_char ds) (to_digit-digit_char d small.0)
    ∙ elim (Bool-cases (leb (n * 16 + d.0) u64_max)) [
      | inl within ↦
          if_true _ _ within
          ∙ digits_from-value (n * 16 + d.0) ds (leb→le _ _ within) small.1
          ∙ ap u64_or_none (shift_value n d.0 (value ds) (length ds))
      | inr over ↦
          let grows = shift_value-le n d.0 (value ds) (length ds) in
          let high : leb (n * 16 ^ suc (length ds) + (d.0 * 16 ^ length ds + value ds)) u64_max
              ≡ false =
            leb-over _ _ grows over in
          if_false _ _ over ∙ sym (if_false _ _ high)
    ]

ok_or-if :
    (c : Bool) (n : ℕ)
    → ok_or (if c then some n else none) invalid_hex ≡ (if c then ok n else err invalid_hex)
ok_or-if true n = refl
ok_or-if false n = refl

digit_char-ne : (d : Digit) → IsDigit d → (digit_char d == b'+') ≡ false
unfolding digit_char
digit_char-ne (d, true) small = ground arith
digit_char-ne (d, false) small = ground arith

from_zero : (v k : ℕ) → 0 * k + v ≡ v
from_zero v k = omega arith

from_str_radix-value :
    (d : Digit) (ds : List Digit)
    → All IsDigit (d ∷ ds)
    → from_str_radix (map digit_char (d ∷ ds)) ≡ u64_or_none (value (d ∷ ds))
unfolding from_str_radix
from_str_radix-value d [] small =
    digits_from-value 0 (d ∷ []) (omega arith) small
    ∙ ap u64_or_none (from_zero (value (d ∷ [])) (16 ^ 1))
from_str_radix-value d (e ∷ ds) small =
    if_false _ _ (digit_char-ne d small.0)
    ∙ digits_from-value 0 (d ∷ e ∷ ds) (omega arith) small
    ∙ ap u64_or_none (from_zero (value (d ∷ e ∷ ds)) (16 ^ length (d ∷ e ∷ ds)))

-- On the marker 0x or 0X and one hex digit or more, each in upper or lower case, decode_u64 gives
-- the number whose digits in base 16 these are, the first one counting most, where it is at most
-- the greatest u64, and the error for invalid hex where it is not.
pub decode_u64-value :
    (upper_x : Bool) (d : Digit) (ds : List Digit)
    → All IsDigit (d ∷ ds)
    → decode_u64 (b'0' ∷ (if upper_x then b'X' else b'x') ∷ map digit_char (d ∷ ds))
      ≡ (if leb (value (d ∷ ds)) u64_max then ok (value (d ∷ ds)) else err invalid_hex)
unfolding decode_u64 strip_0x decode_raw_u64
decode_u64-value true d ds small =
    ap (λ o. ok_or o invalid_hex) (from_str_radix-value d ds small)
    ∙ ok_or-if (leb (value (d ∷ ds)) u64_max) (value (d ∷ ds))
decode_u64-value false d ds small =
    ap (λ o. ok_or o invalid_hex) (from_str_radix-value d ds small)
    ∙ ok_or-if (leb (value (d ∷ ds)) u64_max) (value (d ∷ ds))
