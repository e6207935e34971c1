-- ===== src/Consensus/Snapshot/Linked.antt =====
-- What a header satisfies that passes the first checks of `apply_verified` of snapshot.rs.
use helios_bsc.Prelude.{
  ℕ, ◌≡◌, sym, ap, ◌∙◌, Bytes, ok, ok-injective, ensure-eq-ok, >>=-eq-ok, map_err, map_err-eq-ok,
  ==_iff, bytes_eq, bytes_eq→eq, ◌==◌, ◌||◌, Bool, not, arith, true,
}
use helios_bsc.Prelude.Words.{wrapping_add}
use helios_bsc.Config.{diff_in_turn, diff_no_turn}
use helios_bsc.Types.External.{External}
use helios_bsc.Types.Header.{RpcBlockHeader}
use helios_bsc.Types.Hex.{decode_u64, decode_hex_fixed}
use helios_bsc.Consensus.Snapshot.State.{Snapshot, types, contains}
use helios_bsc.Consensus.Snapshot.Rules.{expected_difficulty}
use helios_bsc.Consensus.Snapshot.Apply.{Link, decode_link, check_link}

pub record Decoded (x : External) (header : RpcBlockHeader) (link : Link) : Type 0 where
  pub number : decode_u64 header.number ≡ ok link.number
  pub time : decode_u64 header.timestamp ≡ ok link.time
  pub parent : decode_hex_fixed x 32 header.parent_hash ≡ ok link.parent
  pub hash : decode_hex_fixed x 32 header.hash ≡ ok link.hash

pub record Linked (x : External) (s : Snapshot) (header : RpcBlockHeader) (signer : Bytes)
    (link : Link) : Type 0 where
  pub decoded : Decoded x header link
  pub next : link.number ≡ wrapping_add s.number 1
  pub parent_hash : link.parent ≡ s.hash
  pub member : contains s.validators signer ≡ true
  pub difficulty : ℕ
  pub difficulty_decoded : decode_u64 header.difficulty ≡ ok difficulty
  pub in_turn_rule : s.enforce_inturn ≡ true → difficulty ≡ expected_difficulty s signer

in_turn :
    (enforce : Bool) (d want : ℕ) → enforce ≡ true → (not enforce || d == want) ≡ true → d ≡ want
in_turn enforce d want on t = ground arith

module _ (x : External) (s : Snapshot) (header : RpcBlockHeader) where
  decode_link-ok : (link : Link) → decode_link x header ≡ ok link → Decoded x header link
  unfolding decode_link
  decode_link-ok link e =
      let (number, e₁, e₂) = >>=-eq-ok (map_err types (decode_u64 header.number)) _ e in
      let (time, e₃, e₄) = >>=-eq-ok (map_err types (decode_u64 header.timestamp)) _ e₂ in
      let (parent, e₅, e₆) =
        >>=-eq-ok (map_err types (decode_hex_fixed x 32 header.parent_hash)) _ e₄ in
      let (hash, e₇, e₈) = >>=-eq-ok (map_err types (decode_hex_fixed x 32 header.hash)) _ e₆ in
      let q = ok-injective e₈ in
      record {
        number = map_err-eq-ok types _ e₁ ∙ ap (λ (l : Link). ok l.number) q;
        time = map_err-eq-ok types _ e₃ ∙ ap (λ (l : Link). ok l.time) q;
        parent = map_err-eq-ok types _ e₅ ∙ ap (λ (l : Link). ok l.parent) q;
        hash = map_err-eq-ok types _ e₇ ∙ ap (λ (l : Link). ok l.hash) q;
      }

  pub check_link-Linked :
      (signer : Bytes) (link : Link)
      → check_link x s header signer ≡ ok link
      → Linked x s header signer link
  unfolding check_link
  check_link-Linked signer link e =
      let (link', e₁, e₂) = >>=-eq-ok (decode_link x header) _ e in
      let (n, e₃) = ensure-eq-ok (link'.number == wrapping_add s.number 1) _ _ e₂ in
      let (p, e₄) = ensure-eq-ok (bytes_eq link'.parent s.hash) _ _ e₃ in
      let (m, e₅) = ensure-eq-ok (contains s.validators signer) _ _ e₄ in
      let (d, e₆, e₇) = >>=-eq-ok (map_err types (decode_u64 header.difficulty)) _ e₅ in
      let (_, e₈) = ensure-eq-ok (d == diff_no_turn || d == diff_in_turn) _ _ e₇ in
      let (t, e₉) =
        ensure-eq-ok (not s.enforce_inturn || d == expected_difficulty s signer) _ _ e₈ in
      let q = ok-injective e₉ in
      record {
        decoded = decode_link-ok link (e₁ ∙ ap ok q);
        next =
            ap (λ (l : Link). l.number) (sym q)
            ∙ (==_iff link'.number (wrapping_add s.number 1)).0 n;
        parent_hash = ap (λ (l : Link). l.parent) (sym q) ∙ bytes_eq→eq link'.parent s.hash p;
        member = m;
        difficulty = d;
        difficulty_decoded = map_err-eq-ok types _ e₆;
        in_turn_rule = λ on. in_turn s.enforce_inturn d (expected_difficulty s signer) on t;
      }
