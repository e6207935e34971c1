-- ===== src/Consensus/Engine/Chain.antt =====
-- The chain of verified blocks that the engine of lib.rs keeps: what joins a block to its parent.
use mathlib.Core.Path.{subst}
use helios_bsc.Prelude.{
  ℕ, zero, suc, ◌+◌, ◌-◌, ◌≤◌, ◌≡◌, refl, sym, ap, ◌∙◌, some, List, [], ◌∷◌, ◌++◌, Bytes, length,
  drop, length-drop, length-append, arith, ok, map_err_step-eq-ok, ok-injective,
}
use helios_bsc.Types.External.{External}
use helios_bsc.Types.Header.{RpcBlockHeader}
use helios_bsc.Types.Hex.{decode_u64, decode_hex_fixed}
use helios_bsc.Consensus.Seal.Hash.{header_hash}
use helios_bsc.Consensus.Seal.Timing.{milli_timestamp}
use helios_bsc.Consensus.Seal.Sealed.{Sealed}
use helios_bsc.Consensus.Snapshot.Shape.{drop-snoc}
use helios_bsc.Consensus.Finality.{VerifiedBlock}
use helios_bsc.Consensus.Engine.{types, seal}
use helios_bsc.Consensus.Engine.State.{keep, trim, last, verified_block}

-- `header` is the header of the block, sealed by its miner.
pub record BlockOf (x : External) (header : RpcBlockHeader) (b : VerifiedBlock) : Type 0 where
  pub kept : b.header ≡ some header
  pub number : decode_u64 header.number ≡ ok b.number
  pub hash : header_hash x header ≡ ok b.hash
  pub claimed : decode_hex_fixed x 32 header.hash ≡ ok b.hash
  pub state_root : decode_hex_fixed x 32 header.state_root ≡ ok b.state_root
  pub milli : milli_timestamp x header ≡ ok b.milli_timestamp
  pub gas_limit : decode_u64 header.gas_limit ≡ ok b.gas_limit
  pub now : ℕ
  pub sealed : Sealed x now header b.miner

-- `b` is the next block behind `a`, and names it as its parent.
pub record Child (x : External) (a b : VerifiedBlock) : Type 0 where
  pub header : RpcBlockHeader
  pub made : BlockOf x header b
  pub next : b.number ≡ a.number + 1
  pub parent : decode_hex_fixed x 32 header.parent_hash ≡ ok a.hash

abbrev pub Chained : External → List VerifiedBlock → Type 0
Chained x [] = Unit
Chained x (a ∷ []) = Unit
Chained x (a ∷ b ∷ rest) = Child x a b × Chained x (b ∷ rest)

pub Chained-snoc :
    (x : External) (older : List VerifiedBlock) (a b : VerifiedBlock)
    → Chained x (older ++ a ∷ [])
    → Child x a b
    → Chained x ((older ++ a ∷ []) ++ b ∷ [])
Chained-snoc x [] a b c child = (child, tt)
Chained-snoc x (o ∷ []) a b (first, c) child = (first, (child, tt))
Chained-snoc x (o ∷ p ∷ older) a b (first, c) child =
    (first, Chained-snoc x (p ∷ older) a b c child)

Chained-drop :
    (x : External) (k : ℕ) (chain : List VerifiedBlock) → Chained x chain → Chained x (drop k chain)
Chained-drop x zero chain c = c
Chained-drop x (suc k) [] c = tt
Chained-drop x (suc k) (a ∷ []) c = Chained-drop x k [] tt
Chained-drop x (suc k) (a ∷ b ∷ rest) (first, c) = Chained-drop x k (b ∷ rest) c

pub last-append : {A : Type 0} (older : List A) (a : A) → last (older ++ a ∷ []) ≡ some a
last-append [] a = refl
last-append (o ∷ []) a = refl
last-append (o ∷ p ∷ older) a = last-append (p ∷ older) a

pub trim-append :
    (chain : List VerifiedBlock) (b : VerifiedBlock)
    → trim (chain ++ b ∷ []) ≡ drop (length (chain ++ b ∷ []) - keep) chain ++ b ∷ []
unfolding trim
trim-append chain b =
    let longer = length-append chain (b ∷ []) in
    drop-snoc (length (chain ++ b ∷ []) - keep) chain b (omega arith)

pub length-trim : (chain : List VerifiedBlock) → length (trim chain) ≤ keep
unfolding trim
length-trim chain = omega (arith, length-drop (length chain - keep) chain)

pub verified_block-BlockOf :
    (x : External) (now number : ℕ) (header : RpcBlockHeader) (signer : Bytes) (b : VerifiedBlock)
    → verified_block x number header signer ≡ ok b
    → decode_u64 header.number ≡ ok number
    → Sealed x now header signer
    → BlockOf x header b × (b.number ≡ number)
unfolding verified_block
verified_block-BlockOf x now number header signer b e numbered sealed =
    let (hash, hashed, e₁) = map_err_step-eq-ok types (decode_hex_fixed x 32 header.hash) _ e in
    let (root, rooted, e₂) =
      map_err_step-eq-ok types (decode_hex_fixed x 32 header.state_root) _ e₁ in
    let (milli, timed, e₃) = map_err_step-eq-ok seal (milli_timestamp x header) _ e₂ in
    let (gas, limited, e₄) = map_err_step-eq-ok types (decode_u64 header.gas_limit) _ e₃ in
    let it = ok-injective e₄ in
    let same : sealed.content ≡ hash = ok-injective (sym sealed.claimed ∙ hashed) in
    subst (λ b. BlockOf x header b × (b.number ≡ number)) it
      ((
        record {
          kept = refl;
          number = numbered;
          hash = sealed.computed ∙ ap ok same;
          claimed = hashed;
          state_root = rooted;
          milli = timed;
          gas_limit = limited;
          now = now;
          sealed = sealed;
        },
        refl,
      ))

pub Chained-trim :
    (x : External) (chain : List VerifiedBlock) → Chained x chain → Chained x (trim chain)
unfolding trim
Chained-trim x chain c = Chained-drop x (length chain - keep) chain c

drop-nil : {A : Type 0} (n : ℕ) → drop {A = A} n [] ≡ []
drop-nil zero = refl
drop-nil (suc n) = refl

drop-drop : {A : Type 0} (n a b : ℕ) (xs : List A) → n ≡ a + b → drop n xs ≡ drop b (drop a xs)
drop-drop n zero b xs e = ap (λ k. drop k xs) (omega arith)
drop-drop n (suc a) b [] e = drop-nil n ∙ sym (drop-nil b)
drop-drop zero (suc a) b (y ∷ xs) e = absurd (omega arith)
drop-drop (suc n) (suc a) b (y ∷ xs) e = drop-drop n a b xs (omega arith)

drop-append_le :
    {A : Type 0} (k : ℕ) (xs ys : List A) → k ≤ length xs → drop k (xs ++ ys) ≡ drop k xs ++ ys
drop-append_le zero xs ys fits = refl
drop-append_le (suc k) [] ys fits = absurd (omega arith)
drop-append_le (suc k) (a ∷ xs) ys fits = drop-append_le k xs ys (omega arith)

-- Trimming in the middle of a run does not change what a trim at its end leaves.
pub trim-trim :
    (chain blocks : List VerifiedBlock) → trim (trim chain ++ blocks) ≡ trim (chain ++ blocks)
unfolding trim
trim-trim chain blocks =
    let k = length chain - keep in
    let kept = length-drop k chain in
    let left = length-append (drop k chain) blocks in
    let all_of = length-append chain blocks in
    let excess : length (drop k chain ++ blocks) - keep ≡ length (chain ++ blocks) - keep - k =
      omega arith in
    ap (λ n. drop n (drop k chain ++ blocks)) excess
    ∙ ap (drop (length (chain ++ blocks) - keep - k))
        (sym (drop-append_le k chain blocks (omega arith)))
    ∙ sym (drop-drop (length (chain ++ blocks) - keep) k _ (chain ++ blocks) (omega arith))

pub trim-short : (chain : List VerifiedBlock) → length chain ≤ keep → trim chain ≡ chain
unfolding trim
trim-short chain fits =
    let none_over : length chain - keep ≡ 0 = omega arith in ap (λ n. drop n chain) none_over
