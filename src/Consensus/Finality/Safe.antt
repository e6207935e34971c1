-- ===== src/Consensus/Finality/Safe.antt =====
-- The safe head of finality.rs: who has built on it, and that no newer block qualifies.
use mathlib.Core.List.{reverse, reverse-cons, reverse-reverse}
use native.Mathlib.Nat.{mod-eq_of_lt}
use helios_bsc.Prelude.{
  ℕ, ◌+◌, ◌%◌, ◌^◌, ◌≤◌, ◌<◌, ◌≡◌, ◌∙◌, sym, ap, Bool-cases, inl, inr, some, List, [], ◌∷◌, ◌++◌,
  Bytes, length, leb, ltb, arith, append_assoc, append-nil, if_true, if_false,
}
use helios_bsc.Types.Quorum.{SafeHead, min_distinct_sealers}
use helios_bsc.Consensus.Finality.{VerifiedBlock, see, head_at, walk_back, newest_safe}

abbrev miner_of : VerifiedBlock → Bytes
miner_of b = b.miner

-- The miners of a stretch of the chain, each of them once.
unfoldable pub distinct_miners : List VerifiedBlock → List Bytes
unfolding see
distinct_miners [] = []
distinct_miners (b ∷ bs) = see (distinct_miners bs) b.miner

-- `head` is a block of the chain; the blocks behind it, `first ∷ rest`, have enough distinct miners, and
-- the ones behind its child have not.
pub record Confirmed (chain : List VerifiedBlock) (n_seal : ℕ) (head : SafeHead) : Type 0 where
  pub older : List VerifiedBlock
  pub safe : VerifiedBlock
  pub first : VerifiedBlock
  pub rest : List VerifiedBlock
  pub split : chain ≡ older ++ safe ∷ first ∷ rest
  pub number : head.number ≡ safe.number
  pub hash : head.hash ≡ safe.hash
  pub state_root : head.state_root ≡ safe.state_root
  pub enough : min_distinct_sealers n_seal ≤ length (distinct_miners (first ∷ rest))
  pub newest : length (distinct_miners rest) < min_distinct_sealers n_seal

pub length-see : (seen : List Bytes) (miner : Bytes) → length (see seen miner) ≤ length seen + 1
unfolding see
length-see seen miner = ground arith

pub min_distinct_sealers-lt : (n : ℕ) → min_distinct_sealers n < 2 ^ 32
unfolding min_distinct_sealers
min_distinct_sealers-lt n = ground arith

pub min_distinct_sealers_pos : (n : ℕ) → 0 < n → 0 < min_distinct_sealers n
unfolding min_distinct_sealers
min_distinct_sealers_pos n positive = ground arith

module _ (chain : List VerifiedBlock) (n_seal : ℕ) (head : SafeHead) where
  head_at-Confirmed :
      (b : VerifiedBlock) (older window : List VerifiedBlock)
      → chain ≡ reverse (b ∷ older) ++ window
      → length (distinct_miners window) < min_distinct_sealers n_seal
      → min_distinct_sealers n_seal ≤ length (distinct_miners (b ∷ window))
      → head_at (min_distinct_sealers n_seal) (distinct_miners (b ∷ window)) older ≡ some head
      → Confirmed chain n_seal head
  unfolding head_at
  head_at-Confirmed b [] window split few enough e = cc
  head_at-Confirmed b (s ∷ older) window split few enough e = record {
    older = reverse older;
    safe = s;
    first = b;
    rest = window;
    split =
        split
        ∙ ap (λ l. l ++ window)
            (reverse-cons b (s ∷ older) ∙ ap (λ l. l ++ b ∷ []) (reverse-cons s older))
        ∙ append_assoc (reverse older ++ s ∷ []) (b ∷ []) window
        ∙ append_assoc (reverse older) (s ∷ []) (b ∷ window);
    number = cc;
    hash = cc;
    state_root = cc;
    enough = enough;
    newest = few;
  }

  walk_back-Confirmed :
      (left window : List VerifiedBlock)
      → chain ≡ reverse left ++ window
      → length (distinct_miners window) < min_distinct_sealers n_seal
      → walk_back (min_distinct_sealers n_seal) (distinct_miners window) left ≡ some head
      → Confirmed chain n_seal head
  unfolding walk_back distinct_miners
  walk_back-Confirmed [] window split few e = cc
  walk_back-Confirmed (b ∷ older) window split few e =
      let small : length (distinct_miners (b ∷ window)) < 2 ^ 32 =
        omega
          (arith, length-see (distinct_miners window) b.miner, min_distinct_sealers-lt n_seal) in
      let exact : length (distinct_miners (b ∷ window)) % 2 ^ 32
          ≡ length (distinct_miners (b ∷ window)) =
        mod-eq_of_lt small in
      elim (Bool-cases
        (leb (min_distinct_sealers n_seal) (length (distinct_miners (b ∷ window)) % 2 ^ 32))) [
          | inl reached ↦
              head_at-Confirmed b older window split few (ground arith)
                (sym (if_true _ _ reached) ∙ e)
          | inr short ↦
              walk_back-Confirmed older (b ∷ window)
                (split
                  ∙ ap (λ l. l ++ window) (reverse-cons b older)
                  ∙ append_assoc (reverse older) (b ∷ []) window)
                (ground arith) (sym (if_false _ _ short) ∙ e)
        ]

-- For a positive number of validators: when newest_safe gives a head, the chain splits at a block
-- with the head's number, hash and state root that has at least one block behind it; the blocks
-- behind it have at least min_distinct_sealers distinct miners, and the blocks behind its child
-- have fewer, so no newer block of the chain qualifies.
pub newest_safe-Confirmed :
    (chain : List VerifiedBlock) (n_seal : ℕ) (head : SafeHead)
    → 0 < n_seal
    → newest_safe chain n_seal ≡ some head
    → Confirmed chain n_seal head
unfolding newest_safe distinct_miners
newest_safe-Confirmed chain n_seal head positive e = elim (Bool-cases (ltb (length chain) 2)) [
  | inl tiny ↦ cc (sym (if_true _ _ tiny) ∙ e)
  | inr long ↦
      walk_back-Confirmed chain n_seal head (reverse chain) []
        (sym (append-nil (reverse (reverse chain)) ∙ reverse-reverse chain))
        (min_distinct_sealers_pos n_seal positive) (sym (if_false _ _ long) ∙ e)
]
