-- ===== src/Consensus/Finality/Live.antt =====
-- When finality.rs finds a safe head, and that the oldest blocks of a chain do not change it.
use mathlib.Core.List.{reverse, reverse-append, reverse-cons, reverse-reverse}
use mathlib.Core.Path.{subst}
use native.Mathlib.Nat.{mod-eq_of_lt}
use helios_bsc.Prelude.{
  ℕ, ◌%◌, ◌^◌, ◌≤◌, ◌<◌, ◌≡◌, refl, ◌∙◌, sym, ap, Bool-cases, inl, inr, some, List, [], ◌∷◌, ◌++◌,
  Bytes, length, leb, ltb, arith, append_assoc, append-nil, if_true, if_false, length-append, false,
}
use helios_bsc.Types.Quorum.{SafeHead, min_distinct_sealers}
use helios_bsc.Consensus.Finality.{VerifiedBlock, see, head_at, walk_back, newest_safe}
use helios_bsc.Consensus.Finality.Safe.{
  distinct_miners, length-see, min_distinct_sealers-lt, min_distinct_sealers_pos,
}

head_at-append :
    (t : ℕ) (seen : List Bytes) (l r : List VerifiedBlock) (head : SafeHead)
    → head_at t seen l ≡ some head
    → head_at t seen (l ++ r) ≡ some head
unfolding head_at
head_at-append t seen [] r head e = cc
head_at-append t seen (s ∷ l) r head e = e

walk_back-append :
    (t : ℕ) (seen : List Bytes) (l r : List VerifiedBlock) (head : SafeHead)
    → walk_back t seen l ≡ some head
    → walk_back t seen (l ++ r) ≡ some head
unfolding walk_back
walk_back-append t seen [] r head e = cc
walk_back-append t seen (b ∷ l) r head e =
    elim (Bool-cases (leb t (length (see seen b.miner) % 2 ^ 32))) [
      | inl reached ↦
          if_true _ _ reached
          ∙ head_at-append t (see seen b.miner) l r head (sym (if_true _ _ reached) ∙ e)
      | inr short ↦
          if_false _ _ short
          ∙ walk_back-append t (see seen b.miner) l r head (sym (if_false _ _ short) ∙ e)
    ]

-- A safe head of the newest blocks is the safe head of the whole chain.
pub newest_safe-append :
    (older chain : List VerifiedBlock) (n_seal : ℕ) (head : SafeHead)
    → newest_safe chain n_seal ≡ some head
    → newest_safe (older ++ chain) n_seal ≡ some head
unfolding newest_safe
newest_safe-append older chain n_seal head e = elim (Bool-cases (ltb (length chain) 2)) [
  | inl tiny ↦ cc (sym (if_true _ _ tiny) ∙ e)
  | inr long ↦
      let total = length-append older chain in
      let still : ltb (length (older ++ chain)) 2 ≡ false = ground arith in
      if_false _ _ still
      ∙ ap (walk_back (min_distinct_sealers n_seal) []) (reverse-append older chain)
      ∙ walk_back-append (min_distinct_sealers n_seal) [] (reverse chain) (reverse older) head
          (sym (if_false _ _ long) ∙ e)
]

module _ (n_seal : ℕ) (s : VerifiedBlock) (below : List VerifiedBlock) where
  head_at-found :
      (t : ℕ) (seen : List Bytes) (left : List VerifiedBlock)
      → (head : SafeHead) × (head_at t seen (left ++ s ∷ below) ≡ some head)
  unfolding head_at
  head_at-found t seen [] = (_, refl)
  head_at-found t seen (b ∷ left) = (_, refl)

  walk_back-found :
      (left window : List VerifiedBlock)
      → length (distinct_miners window) < min_distinct_sealers n_seal
      → min_distinct_sealers n_seal ≤ length (distinct_miners (reverse left ++ window))
      → (head : SafeHead) × (walk_back
            (min_distinct_sealers n_seal)
            (distinct_miners window)
            (left ++ s ∷ below)
          ≡ some head)
  unfolding walk_back distinct_miners
  walk_back-found [] window few enough = absurd (omega arith)
  walk_back-found (b ∷ left) window few enough =
      let small : length (distinct_miners (b ∷ window)) < 2 ^ 32 =
        omega
          (arith, length-see (distinct_miners window) b.miner, min_distinct_sealers-lt n_seal) in
      let exact : length (distinct_miners (b ∷ window)) % 2 ^ 32
          ≡ length (distinct_miners (b ∷ window)) =
        mod-eq_of_lt small in
      elim (Bool-cases
        (leb (min_distinct_sealers n_seal) (length (distinct_miners (b ∷ window)) % 2 ^ 32))) [
          | inl reached ↦
              let (head, at) =
                head_at-found (min_distinct_sealers n_seal) (distinct_miners (b ∷ window)) left in
              (head, if_true _ _ reached ∙ at)
          | inr short ↦
              let (head, at) = walk_back-found left (b ∷ window) (ground arith) (
                subst (λ l. min_distinct_sealers n_seal ≤ length (distinct_miners l))
                  (ap (λ l. l ++ window) (reverse-cons b left)
                    ∙ append_assoc (reverse left) (b ∷ []) window)
                  enough) in
              (head, if_false _ _ short ∙ at)
        ]

-- For a positive number of validators: when the blocks behind some block of the chain have at least
-- min_distinct_sealers distinct miners, newest_safe finds a head.
pub newest_safe-found :
    (older : List VerifiedBlock) (s : VerifiedBlock) (window : List VerifiedBlock) (n_seal : ℕ)
    → 0 < n_seal
    → min_distinct_sealers n_seal ≤ length (distinct_miners window)
    → (head : SafeHead) × (newest_safe (older ++ s ∷ window) n_seal ≡ some head)
unfolding newest_safe distinct_miners
newest_safe-found older s [] n_seal positive enough =
    absurd (omega (arith, min_distinct_sealers_pos n_seal positive))
newest_safe-found older s (b ∷ window) n_seal positive enough =
    let total = length-append older (s ∷ b ∷ window) in
    let long : ltb (length (older ++ s ∷ b ∷ window)) 2 ≡ false = ground arith in
    let same : reverse (reverse (b ∷ window)) ++ [] ≡ b ∷ window =
      append-nil (reverse (reverse (b ∷ window))) ∙ reverse-reverse (b ∷ window) in
    let (head, at) =
      walk_back-found n_seal s (reverse older) (reverse (b ∷ window)) []
        (min_distinct_sealers_pos n_seal positive)
        (subst (λ l. min_distinct_sealers n_seal ≤ length (distinct_miners l)) (sym same) enough) in
    (
      head,
      if_false _ _ long
          ∙ ap (walk_back (min_distinct_sealers n_seal) []) (
              reverse-append older (s ∷ b ∷ window)
              ∙ ap (λ l. l ++ reverse older) (reverse-cons s (b ∷ window))
              ∙ append_assoc (reverse (b ∷ window)) (s ∷ []) (reverse older))
          ∙ at,
    )
