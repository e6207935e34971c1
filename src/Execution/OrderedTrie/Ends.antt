-- ===== src/Execution/OrderedTrie/Ends.antt =====
-- The fuel of `encode_node` in ordered_trie.rs is enough: every step goes past a nibble of a key.
use helios_bsc.Prelude.{
  ℕ, zero, suc, ◌+◌, ◌≤◌, ◌<◌, ◌≢◌, ◌≡◌, sym, ◌∙◌, min, inl, inr, Bool, true, false, List, [], ◌∷◌,
  Bytes, length, drop, take, All, All-drop, All-take, leb, ltb, ◌==◌, Bool-cases, arith, Result, ok,
  err, ◌>>=◌, ensure, >>=-ne-err, >>=-eq-ok, if◌then◌else◌, if_true, if_false, ok-injective,
}
use helios_bsc.Types.External.{External}
use helios_bsc.Execution.OrderedTrie.{
  TrieFault, panic, out_of_fuel, Pairs, Encoder, shared_prefix_len, shared_by, nibble_at,
  count_nibble, child_at, child_list, branch_children, leaf_node, shared_node, encode_node,
  longest_key, root_of, ordered_trie_root, max_ordered_trie_items,
}

-- A key that ends below a bound, or goes on behind a position.
abbrev EndsBelow : ℕ → Bytes × Bytes → Type 0
EndsBelow n p = length p.0 < n

abbrev LongerThan : ℕ → Bytes × Bytes → Type 0
LongerThan n p = n < length p.0

EndsBelow-≤ : (m n : ℕ) (pairs : Pairs) → m ≤ n → All (EndsBelow m) pairs → All (EndsBelow n) pairs
EndsBelow-≤ m n [] le all = tt
EndsBelow-≤ m n (p ∷ pairs) le all =
    let a : length p.0 < m = all.0 in (omega arith, EndsBelow-≤ m n pairs le all.1)

nibble_at-Ends : (i : ℕ) (k : Bytes) → nibble_at i k ≢ err out_of_fuel
unfolding nibble_at
nibble_at-Ends i [] = λ e. cc
nibble_at-Ends zero (n ∷ k) = λ e. cc
nibble_at-Ends (suc i) (n ∷ k) = nibble_at-Ends i k

nibble_at-longer : (i n : ℕ) (k : Bytes) → nibble_at i k ≡ ok n → i < length k
unfolding nibble_at
nibble_at-longer i n [] e = cc
nibble_at-longer zero n (m ∷ k) e = omega arith
nibble_at-longer (suc i) n (m ∷ k) e = let h = nibble_at-longer i n k e in omega arith

count_nibble-Ends : (i n : ℕ) (pairs : Pairs) → count_nibble i n pairs ≢ err out_of_fuel
unfolding count_nibble
count_nibble-Ends i n [] = λ e. cc
count_nibble-Ends i n (p ∷ pairs) =
    >>=-ne-err (nibble_at i p.0) _ out_of_fuel (nibble_at-Ends i p.0)
      λ m e. counted (m == n) (count_nibble i n pairs) (count_nibble-Ends i n pairs)
  where
    counted :
        (c : Bool) (r : Result TrieFault ℕ)
        → r ≢ err out_of_fuel
        → (if c then r >>= (λ len. ok (suc len)) else ok 0) ≢ err out_of_fuel
    counted true r apart = >>=-ne-err r _ out_of_fuel apart λ len e h. cc
    counted false r apart = λ h. cc

count_nibble-longer :
    (i n len : ℕ) (pairs : Pairs)
    → count_nibble i n pairs ≡ ok len
    → All (LongerThan i) (take len pairs)
unfolding count_nibble
count_nibble-longer i n zero pairs e = tt
count_nibble-longer i n (suc len) [] e = tt
count_nibble-longer i n (suc len) (p ∷ pairs) e =
    let (m, at, e₁) = >>=-eq-ok (nibble_at i p.0) _ e in
    (
      nibble_at-longer i m p.0 at,
      count_nibble-longer i n len pairs (counted (m == n) (count_nibble i n pairs) e₁),
    )
  where
    counted :
        (c : Bool) (r : Result TrieFault ℕ)
        → (if c then r >>= (λ len. ok (suc len)) else ok 0) ≡ ok (suc len)
        → r ≡ ok len
    counted true (ok l) e = cc
    counted true (err d) e = cc
    counted false r e = let h : 0 ≡ suc len = ok-injective e in absurd (omega arith)

shared_by-le : (key : Bytes) (n : ℕ) (pairs : Pairs) → shared_by key n pairs ≤ n
unfolding shared_by
shared_by-le key n [] = omega arith
shared_by-le key n (p ∷ pairs) =
    let h = shared_by-le key (min n (shared_prefix_len key p.0)) pairs in omega arith

-- The calls that the other functions make do not run out of fuel on keys that end below a bound.
abbrev EndsUpTo : ℕ → Encoder → Type 0
EndsUpTo f encode =
    (pairs : Pairs) (pre_len : ℕ)
    → 0 < f
    → All (EndsBelow (pre_len + f)) pairs
    → encode pairs pre_len ≢ err out_of_fuel

module _ (x : External) (f : ℕ) (encode : Encoder) (ends : EndsUpTo f encode) where
  child_at-Ends :
      (pre_len : ℕ) (group : Pairs)
      → All (LongerThan pre_len) group
      → All (EndsBelow (pre_len + suc f)) group
      → child_at x encode pre_len group ≢ err out_of_fuel
  unfolding child_at
  child_at-Ends pre_len [] longer below = λ e. cc
  child_at-Ends pre_len (p ∷ group) longer below =
      let l : pre_len < length p.0 = longer.0 in
      let b : length p.0 < pre_len + suc f = below.0 in
      >>=-ne-err (encode (p ∷ group) (suc pre_len)) _ out_of_fuel
        (ends (p ∷ group) (suc pre_len) (omega arith)
          (EndsBelow-≤ _ _ (p ∷ group) (omega arith) below))
        λ child e h. cc

  child_list-Ends :
      (pre_len left nibble : ℕ) (pairs : Pairs)
      → All (EndsBelow (pre_len + suc f)) pairs
      → child_list x encode pre_len left nibble pairs ≢ err out_of_fuel
  unfolding child_list
  child_list-Ends pre_len zero nibble pairs below = λ e. cc
  child_list-Ends pre_len (suc left) nibble pairs below =
      >>=-ne-err (count_nibble pre_len nibble pairs) _ out_of_fuel
        (count_nibble-Ends pre_len nibble pairs)
        λ len counted.
          >>=-ne-err (child_at x encode pre_len (take len pairs)) _ out_of_fuel
            (child_at-Ends pre_len (take len pairs)
              (count_nibble-longer pre_len nibble len pairs counted) (All-take _ len pairs below))
            λ child e.
              >>=-ne-err (child_list x encode pre_len left (suc nibble) (drop len pairs)) _
                out_of_fuel
                (child_list-Ends pre_len left (suc nibble) (drop len pairs)
                  (All-drop _ len pairs below))
                λ children e' h. cc

  branch_children-Ends :
      (pre_len : ℕ) (p : Bytes × Bytes) (pairs : Pairs)
      → All (EndsBelow (pre_len + suc f)) (p ∷ pairs)
      → branch_children x encode pre_len p pairs ≢ err out_of_fuel
  unfolding branch_children
  branch_children-Ends pre_len p pairs below =
      >>=-ne-err
        (child_list x encode pre_len 16 0 (if pre_len == length p.0 then pairs else p ∷ pairs)) _
        out_of_fuel (child_list-Ends pre_len 16 0 _ (kept (pre_len == length p.0)))
        λ children e h. cc
    where
      kept : (c : Bool) → All (EndsBelow (pre_len + suc f)) (if c then pairs else p ∷ pairs)
      kept true = below.1
      kept false = below

encode_node-Ends : (x : External) (f : ℕ) → EndsUpTo f (encode_node x f)
unfolding encode_node shared_node leaf_node
encode_node-Ends x zero pairs pre_len pos below = absurd (omega arith)
encode_node-Ends x (suc f) [] pre_len pos below = λ e. cc
encode_node-Ends x (suc f) (p ∷ []) pre_len pos below =
    >>=-ne-err (ensure (leb pre_len (length p.0)) panic) _ out_of_fuel
      (refused (leb pre_len (length p.0))) λ u e h. cc
  where
    refused : (c : Bool) → ensure c panic ≢ err out_of_fuel
    refused true h = cc
    refused false h = cc
encode_node-Ends x (suc f) (p ∷ q ∷ pairs) pre_len pos below =
    let shared = shared_by p.0 (length p.0) (q ∷ pairs) in
    let within = shared_by-le p.0 (length p.0) (q ∷ pairs) in
    let first : length p.0 < pre_len + suc f = below.0 in
    let encode : Encoder = λ pairs pre_len. encode_node x f pairs pre_len in
    elim (Bool-cases (ltb pre_len shared)) [
      | inl further ↦ λ h.
          let past : pre_len < shared = ground arith in
          >>=-ne-err (encode (p ∷ q ∷ pairs) shared) _ out_of_fuel
            (encode_node-Ends x f (p ∷ q ∷ pairs) shared (omega arith)
              (EndsBelow-≤ _ _ (p ∷ q ∷ pairs) (omega arith) below))
            (λ child e h'. cc) (sym (if_true _ _ further) ∙ h)
      | inr here ↦ λ h.
          branch_children-Ends x f encode (encode_node-Ends x f) pre_len p (q ∷ pairs) below
            (sym (if_false _ _ here) ∙ h)
    ]

longest_key-EndsBelow : (pairs : Pairs) → All (EndsBelow (suc (longest_key pairs))) pairs
unfolding longest_key
longest_key-EndsBelow [] = tt
longest_key-EndsBelow (p ∷ pairs) =
    (omega arith, EndsBelow-≤ _ _ pairs (omega arith) (longest_key-EndsBelow pairs))

root_of-Ends : (x : External) (pairs : Pairs) → root_of x pairs ≢ err out_of_fuel
unfolding root_of
root_of-Ends x pairs =
    >>=-ne-err (encode_node x (suc (longest_key pairs)) pairs 0) _ out_of_fuel
      (encode_node-Ends x (suc (longest_key pairs)) pairs 0 (omega arith)
        (EndsBelow-≤ _ _ pairs (omega arith) (longest_key-EndsBelow pairs)))
      λ node e h. cc

-- For any list of items, ordered_trie_root of the model never runs out of fuel.
pub ordered_trie_root-Ends :
    (x : External) (items : List Bytes) → ordered_trie_root x items ≢ err out_of_fuel
unfolding ordered_trie_root
ordered_trie_root-Ends x items =
    let listed = take max_ordered_trie_items items in
    elim (Bool-cases (length listed == 0)) [
      | inl empty ↦ λ h. apart (sym (if_true _ _ empty) ∙ h)
      | inr full ↦ λ h. root_of-Ends x _ (sym (if_false _ _ full) ∙ h)
    ]
  where
    apart : {a : Bytes} → ok a ≢ err out_of_fuel
    apart h = cc
