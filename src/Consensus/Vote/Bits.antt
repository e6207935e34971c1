-- ===== src/Consensus/Vote/Bits.antt =====
-- The bits of a bit set of voters in vote.rs, and the indices that are read from it.
use helios_bsc.Prelude.{
  ℕ, zero, suc, ◌+◌, ◌*◌, ◌/◌, ◌%◌, ◌^◌, ◌≤◌, ◌<◌, ◌≡◌, ◌∙◌, ◌↔◌, ◌⊎◌, inl, inr, sym, ap, min, true,
  Bool-cases, List, [], ◌∷◌, leb, ◌==◌, if◌then◌else◌, if_true, if_false, ==_iff, ok, ensure-eq-ok,
  ltb, ltb→lt, arith,
}
use native.Mathlib.Nat.{
  div-div-eq-div-mul, div-lt_iff_lt-mul, div-one, div-eq_of_lt, pow-le-pow_right, one-le-pow,
}
use mathlib.Core.Path.{subst}
use helios_bsc.Prelude.Words.{IsU64}
use helios_bsc.Consensus.Vote.Verify.{count_ones, set_bits, voted_indices}

-- The number is in the list.
abbrev pub Listed : ℕ → List ℕ → Type 0
Listed i [] = ⊥
Listed i (j ∷ is) = (j ≡ i) ⊎ Listed i is

-- `(set >> i) & 1 == 1`
abbrev pub HasBit : ℕ → ℕ → Type 0
HasBit set i = set / 2 ^ i % 2 ≡ 1

half-HasBit : (set i : ℕ) → set / 2 / 2 ^ i ≡ set / 2 ^ suc i
half-HasBit set i = div-div-eq-div-mul set 2 (2 ^ i) ∙ ap (λ d. set / d) (grind arith)

HasBit-set_bits :
    (k from set i : ℕ) → i < k → HasBit set i → Listed (from + i) (set_bits k from set)
unfolding set_bits
HasBit-set_bits zero from set i lt bit = absurd (omega arith)
HasBit-set_bits (suc k) from set zero lt bit =
    let on : (set % 2 == 1) ≡ true = (==_iff _ _).1 (subst (λ d. d % 2 ≡ 1) (div-one set) bit) in
    rw on (inl (omega arith))
HasBit-set_bits (suc k) from set (suc i) lt bit =
    let rest : Listed (from + suc i) (set_bits k (from + 1) (set / 2)) =
      subst (λ j. Listed j (set_bits k (from + 1) (set / 2))) (omega arith)
        (HasBit-set_bits k (from + 1) (set / 2) i (omega arith)
          (ap (λ q. q % 2) (half-HasBit set i) ∙ bit)) in
    elim (Bool-cases (set % 2 == 1)) [ inl on ↦ rw on (inr rest) | inr off ↦ rw off rest ]

set_bits-HasBit :
    (k from set i : ℕ) → Listed i (set_bits k from set) → (j : ℕ) × (i ≡ from + j) × HasBit set j
unfolding set_bits
set_bits-HasBit zero from set i listed = absurd listed
set_bits-HasBit (suc k) from set i listed = elim (Bool-cases (set % 2 == 1)) [
  | inl on ↦ elim (subst (λ l. Listed i l) (if_true _ _ on) listed) [
    | inl here ↦ (0, omega arith, subst (λ d. d % 2 ≡ 1) (sym (div-one set)) ((==_iff _ _).0 on))
    | inr later ↦ behind (set_bits-HasBit k (from + 1) (set / 2) i later)
  ]
  | inr off ↦
      behind (
        set_bits-HasBit k (from + 1) (set / 2) i
          (subst (λ l. Listed i l) (if_false _ _ off) listed))
]
  where
    behind :
        ((j : ℕ) × (i ≡ from + 1 + j) × HasBit (set / 2) j)
        → (j : ℕ) × (i ≡ from + j) × HasBit set j
    behind (j, at, bit) = (suc j, omega arith, ap (λ q. q % 2) (sym (half-HasBit set j)) ∙ bit)

zero-quotient : (a n : ℕ) → a / 2 ^ n ≡ 0 → a < 2 ^ n
zero-quotient a n none =
    let pos : 1 ≤ 2 ^ n = one-le-pow n 2 (omega arith) in
    let one : a / 2 ^ n < 1 = omega arith in
    let below : a < 1 * 2 ^ n = (div-lt_iff_lt-mul pos).0 one in omega arith

-- The guard behind the count of votes leaves no bit that names no validator.
voted_indices-below :
    (set n : ℕ) (is : List ℕ) → IsU64 set → voted_indices set n ≡ ok is → set < 2 ^ min n 64
unfolding voted_indices
voted_indices-below set n is word e =
    let (_, e₁) = ensure-eq-ok (leb (count_ones 64 set) n) _ _ e in
    let (none_high, _) = ensure-eq-ok ((if leb 64 n then 0 else set / 2 ^ n) == 0) _ _ e₁ in
    elim (Bool-cases (leb 64 n)) [
      | inl many ↦ let all : min n 64 ≡ 64 = ground arith in subst (λ k. set < 2 ^ k) (sym all) word
      | inr few ↦
          let all : min n 64 ≡ n = ground arith in
          let none_above : set / 2 ^ n ≡ 0 = sym (if_false _ _ few) ∙ (==_iff _ _).0 none_high in
          subst (λ k. set < 2 ^ k) (sym all) (zero-quotient set n none_above)
    ]

HasBit-below : (set k i : ℕ) → set < 2 ^ k → HasBit set i → i < k
HasBit-below set k i small bit = elim (Bool-cases (ltb i k)) [
  | inl lt ↦ ltb→lt i k lt
  | inr ge ↦
      let grown : 2 ^ k ≤ 2 ^ i = pow-le-pow_right {n = 2} (omega arith) (ground arith) in
      let none : set / 2 ^ i ≡ 0 = div-eq_of_lt (omega arith) in
      absurd (omega (arith, sym (ap (λ q. q % 2) none) ∙ bit))
]

-- The indices that are read are the bits that are set, all of them.
pub voted_indices-HasBit :
    (set n : ℕ) (is : List ℕ)
    → IsU64 set
    → voted_indices set n ≡ ok is
    → set_bits (min n 64) 0 set ≡ is
    → (i : ℕ) → Listed i is ↔ HasBit set i
voted_indices-HasBit set n is word e same i = (
  λ listed.
      let (j, at, bit) =
        set_bits-HasBit (min n 64) 0 set i (subst (λ l. Listed i l) (sym same) listed) in
      let here : j ≡ i = omega arith in subst (HasBit set) here bit,
  λ bit.
      let read : Listed (0 + i) (set_bits (min n 64) 0 set) =
        HasBit-set_bits (min n 64) 0 set i
          (HasBit-below set (min n 64) i (voted_indices-below set n is word e) bit) bit in
      subst (λ l. Listed i l) same
        (subst (λ j. Listed j (set_bits (min n 64) 0 set)) (omega arith) read),
)
