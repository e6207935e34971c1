-- ===== src/Consensus/Seal/Layout.antt =====
-- What `verify_extra_layout` of seal.rs establishes about the validators of an epoch block.
use helios_bsc.Prelude.{
  ℕ, ◌%◌, ◌≤◌, ◌<◌, ◌≡◌, ◌≢◌, inl, inr, refl, sym, ◌∙◌, Bool, true, false, not, Option, none, some,
  List, [], ◌∷◌, Bytes, length, All, Bool-cases, ◌==◌, ◌||◌, bytes_eq, bytes_eq-false, arith, ok,
  >>=-eq-ok, ensure-eq-ok, ensure-ok, map_err_step-eq-ok, if_true, ==_iff,
}
use helios_bsc.Config.{params_at, max_turn_length}
use helios_bsc.Config.Extra.{SealingValidator, ParsedExtra, parse_extra, is_bohr}
use helios_bsc.Types.External.{External}
use helios_bsc.Types.Header.{RpcBlockHeader}
use helios_bsc.Types.Hex.{decode_u64, decode_hex}
use helios_bsc.Types.Checkpoint.{seen_before}
use helios_bsc.Consensus.Seal.{types, extra}
use helios_bsc.Consensus.Seal.Fields.{distinct_from, valid_turn, epoch_layout, verify_extra_layout}

-- No two addresses of the list are equal.
abbrev pub Distinct : List SealingValidator → Type 0
Distinct [] = Unit
Distinct (v ∷ vs) = All (λ (w : SealingValidator). v.address ≢ w.address) vs × Distinct vs

All-map :
    {A : Type 0} {P Q : A → Type 0} (f : (a : A) → P a → Q a) (as' : List A) → All P as' → All Q as'
All-map f [] h = tt
All-map f (a ∷ as') (p, h) = (f a p, All-map f as' h)

abbrev Fresh : List Bytes → SealingValidator → Type 0
Fresh seen v = seen_before seen v.address ≡ false

Fresh-tail :
    (a : Bytes) (seen : List Bytes) (v : SealingValidator)
    → Fresh (a ∷ seen) v
    → (a ≢ v.address) × Fresh seen v
unfolding seen_before
Fresh-tail a seen v h = elim (Bool-cases (bytes_eq a v.address)) [
  | inl same ↦ absurd (ground arith)
  | inr other ↦ (bytes_eq-false a v.address other, ground arith)
]

distinct_from-Distinct :
    (seen : List Bytes) (vs : List SealingValidator)
    → distinct_from seen vs ≡ ok tt
    → Distinct vs × All (Fresh seen) vs
unfolding distinct_from
distinct_from-Distinct seen [] e = (tt, tt)
distinct_from-Distinct seen (v ∷ vs) e =
    let (fresh, rest) = ensure-eq-ok (not (seen_before seen v.address)) _ _ e in
    let (distinct, others) = distinct_from-Distinct (v.address ∷ seen) vs rest in
    (
      (All-map (λ w h. (Fresh-tail v.address seen w h).0) vs others, distinct),
      (ground arith, All-map (λ w h. (Fresh-tail v.address seen w h).1) vs others),
    )

-- What the validators of an epoch block satisfy.
pub record EpochLayout (bohr_layout : Bool) (parsed : ParsedExtra) : Type 0 where
  pub inhabited : 0 < length parsed.validators
  pub distinct : Distinct parsed.validators
  pub turn :
      bohr_layout ≡ true → (t : ℕ) × (parsed.turn_length ≡ some t) × (0 < t) × (t ≤ max_turn_length)

valid_turn-some :
    (turn : Option ℕ)
    → valid_turn turn ≡ true
    → (t : ℕ) × (turn ≡ some t) × (0 < t) × (t ≤ max_turn_length)
valid_turn-some none h = absurd (ground arith)
valid_turn-some (some t) h = (t, refl, ground arith, ground arith)

epoch_layout-EpochLayout :
    (bohr_layout : Bool) (parsed : ParsedExtra)
    → epoch_layout bohr_layout parsed ≡ ok tt
    → EpochLayout bohr_layout parsed
unfolding epoch_layout
epoch_layout-EpochLayout bohr_layout parsed e =
    let (some_there, e₁) = ensure-eq-ok (not (length parsed.validators == 0)) _ _ e in
    let (u, distinct, e₂) = >>=-eq-ok (distinct_from [] parsed.validators) _ e₁ in
    let turn = ensure-ok (not bohr_layout || valid_turn parsed.turn_length) _ e₂ in
    record {
      inhabited = ground arith;
      distinct = (distinct_from-Distinct [] parsed.validators distinct).0;
      turn = λ on. valid_turn-some parsed.turn_length (ground arith);
    }

-- `verify_extra_layout` accepts: `extraData` parses, with these validators on an epoch block.
pub record Layout (x : External) (header : RpcBlockHeader) : Type 0 where
  pub raw : Bytes
  pub number : ℕ
  pub time : ℕ
  pub read : decode_hex x header.extra_data ≡ ok raw
  pub numbered : decode_u64 header.number ≡ ok number
  pub timed : decode_u64 header.timestamp ≡ ok time
  pub parsed : ParsedExtra
  pub parses :
      parse_extra raw
        (params_at number time).extra_data_version
        (number % (params_at number time).epoch_length == 0)
      ≡ ok parsed
  pub epoch :
      number % (params_at number time).epoch_length ≡ 0
      → EpochLayout (is_bohr (params_at number time).extra_data_version) parsed

pub verify_extra_layout-Layout :
    (x : External) (header : RpcBlockHeader)
    → verify_extra_layout x header ≡ ok tt
    → Layout x header
unfolding verify_extra_layout
verify_extra_layout-Layout x header e =
    let (raw, read, e₁) = map_err_step-eq-ok types (decode_hex x header.extra_data) _ e in
    let (number, numbered, e₂) = map_err_step-eq-ok types (decode_u64 header.number) _ e₁ in
    let (time, timed, e₃) = map_err_step-eq-ok types (decode_u64 header.timestamp) _ e₂ in
    let p = params_at number time in
    let (parsed, parses, e₄) =
      map_err_step-eq-ok extra (parse_extra raw p.extra_data_version (number % p.epoch_length == 0))
        _ e₃ in
    record {
      raw = raw;
      number = number;
      time = time;
      read = read;
      numbered = numbered;
      timed = timed;
      parsed = parsed;
      parses = parses;
      epoch = λ at_epoch.
          epoch_layout-EpochLayout (is_bohr p.extra_data_version) parsed
            (sym (if_true _ _ ((==_iff (number % p.epoch_length) 0).1 at_epoch)) ∙ e₄);
    }
