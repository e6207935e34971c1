-- ===== src/Consensus/Snapshot/Shape.antt =====
-- The well-formed states of snapshot.rs, and the window of ancestors.
use helios_bsc.Prelude.{
  map, ℕ, zero, suc, ◌+◌, ◌-◌, ◌≤◌, ◌<◌, ◌≡◌, ◌++◌, refl, ap, Bytes, Option, List, [], ◌∷◌, length,
  drop, arith, length-append, length-drop, ◌⊎◌,
}
use helios_bsc.Config.{k_ancestor_generation_depth}
use helios_bsc.Config.Extra.{SealingValidator}
use helios_bsc.Consensus.Snapshot.State.{Snapshot, Recents}
use helios_bsc.Consensus.Snapshot.Apply.{zip_validators, push_ancestor}

-- The numbers of `ancestors` follow each other, and the last of them stands right below `next`.
abbrev pub Consecutive : List (ℕ × Bytes) → ℕ → Type 0
Consecutive [] next = Unit
Consecutive ((n, h) ∷ rest) next = (n + length rest + 1 ≡ next) × Consecutive rest next

Consecutive-push :
    (ancestors : List (ℕ × Bytes)) (next : ℕ) (hash : Bytes)
    → Consecutive ancestors next
    → Consecutive (ancestors ++ (next, hash) ∷ []) (next + 1)
Consecutive-push [] next hash c = (omega arith, tt)
Consecutive-push ((n, h) ∷ rest) next hash (here, c) =
    let longer = length-append rest ((next, hash) ∷ []) in
    (omega arith, Consecutive-push rest next hash c)

Consecutive-drop :
    (k : ℕ) (ancestors : List (ℕ × Bytes)) (next : ℕ)
    → Consecutive ancestors next
    → Consecutive (drop k ancestors) next
Consecutive-drop zero ancestors next c = c
Consecutive-drop (suc k) [] next c = tt
Consecutive-drop (suc k) ((n, h) ∷ rest) next (here, c) = Consecutive-drop k rest next c

pub drop-snoc :
    {A : Type 0} (k : ℕ) (xs : List A) (x : A)
    → k ≤ length xs
    → drop k (xs ++ x ∷ []) ≡ drop k xs ++ x ∷ []
drop-snoc zero xs x fits = refl
drop-snoc (suc k) [] x fits = ground arith
drop-snoc (suc k) (y ∷ xs) x fits = drop-snoc k xs x (omega arith)

abbrev pub address_of : SealingValidator → Bytes
address_of v = v.address

-- A vote set that is known lists the validators, in their order, so that bit i names validator i.
abbrev pub IsAligned : List SealingValidator → List Bytes → Type 0
IsAligned set validators = (set ≡ []) ⊎ (map address_of set ≡ validators)

pub zip_validators-address_of :
    (validators keys : List Bytes)
    → length keys ≡ length validators
    → map address_of (zip_validators validators keys) ≡ validators
unfolding zip_validators
zip_validators-address_of [] keys e = refl
zip_validators-address_of (a ∷ as') [] e = ground arith
zip_validators-address_of (a ∷ as') (k ∷ ks) e =
    ap (λ l. a ∷ l) (zip_validators-address_of as' ks (omega arith))

-- The epoch length is a divisor that is not 0, the set did not change behind the tip, and `ancestors`
-- is a short run of the chain that ends in the tip.
pub record WellFormed (s : Snapshot) : Type 0 where
  pub epoch_positive : 0 < s.epoch_length
  pub changed : s.set_changed_at ≤ s.number
  pub aligned : IsAligned s.vote_set s.validators
  pub few : length s.ancestors ≤ k_ancestor_generation_depth
  pub consecutive : Consecutive s.ancestors (s.number + 1)
  pub older : List (ℕ × Bytes)
  pub tip : s.ancestors ≡ older ++ (s.number, s.hash) ∷ []

pub restate-WellFormed :
    (s : Snapshot) (recents : Recents) (milli : Option ℕ)
    → WellFormed s
    → WellFormed (record s { recents = recents; last_milli = milli })
restate-WellFormed s recents milli w = record {
  epoch_positive = w.epoch_positive;
  changed = w.changed;
  aligned = w.aligned;
  few = w.few;
  consecutive = w.consecutive;
  older = w.older;
  tip = w.tip;
}

pub push_ancestor-length :
    (ancestors : List (ℕ × Bytes)) (entry : ℕ × Bytes)
    → length (push_ancestor ancestors entry) ≤ k_ancestor_generation_depth
unfolding push_ancestor
push_ancestor-length ancestors entry =
    let pushed = ancestors ++ entry ∷ [] in
    let count = length-drop (length pushed - k_ancestor_generation_depth) pushed in omega arith

pub push_ancestor-tip :
    (ancestors : List (ℕ × Bytes)) (entry : ℕ × Bytes)
    → (older : List (ℕ × Bytes)) × (push_ancestor ancestors entry ≡ older ++ entry ∷ [])
unfolding push_ancestor
push_ancestor-tip ancestors entry =
    let k = length (ancestors ++ entry ∷ []) - k_ancestor_generation_depth in
    let longer = length-append ancestors (entry ∷ []) in
    (drop k ancestors, drop-snoc k ancestors entry (omega arith))

pub push_ancestor-Consecutive :
    (ancestors : List (ℕ × Bytes)) (next : ℕ) (hash : Bytes)
    → Consecutive ancestors next
    → Consecutive (push_ancestor ancestors (next, hash)) (next + 1)
unfolding push_ancestor
push_ancestor-Consecutive ancestors next hash c =
    Consecutive-drop (length (ancestors ++ (next, hash) ∷ []) - k_ancestor_generation_depth) _ _
      (Consecutive-push ancestors next hash c)
