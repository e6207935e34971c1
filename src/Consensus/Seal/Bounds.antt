-- ===== src/Consensus/Seal/Bounds.antt =====
-- The bounds on time and gas that the rules of seal.rs give.
use helios_bsc.Prelude.{
  ◌↔◌, ap, Bool, Result, ◌>>=◌, ◌>>◌, ensure, map_err, if_false, ℕ, ◌+◌, ◌*◌, ◌/◌, ◌≤◌, ◌<◌, ◌≡◌,
  ◌∙◌, ◌⊎◌, inl, inr, sym, true, false, Bool-cases, ok, ensure-eq-ok, ensure-ok, >>=-eq-ok,
  map_err-eq-ok, leb→le, leb, ltb, ◌==◌, if◌then◌else◌, arith,
}
use helios_bsc.Prelude.Words.{u64_max, saturating_add}
use helios_bsc.Config.{params_at, lorentz_time}
use helios_bsc.Types.External.{External}
use helios_bsc.Types.Header.{RpcBlockHeader}
use helios_bsc.Types.Hex.{decode_u64}
use helios_bsc.Consensus.Seal.{types}
use helios_bsc.Consensus.Seal.Timing.{
  u64_of, abs_diff, min_gas_limit, gas_limit_bound_divisor, gas_limit_bound_divisor_pre_lorentz,
  milli_timestamp, verify_cascading_vs_parent,
}

-- The numbers differ by less than the whole part of a `d`-th of the first.
abbrev pub IsWithin : ℕ → ℕ → ℕ → Type 0
IsWithin d parent gas = (d * (gas + 1) ≤ (d + 1) * parent) × (d * (parent + 1) ≤ d * gas + parent)

-- `header` may follow a parent with these milliseconds and this gas limit. A sum that passes the range
-- of `u64` bounds by the greatest `u64`.
pub record Cascades (x : External) (parent_milli parent_gas_limit : ℕ) (header : RpcBlockHeader)
    : Type 0 where
  pub number : ℕ
  pub number_decoded : decode_u64 header.number ≡ ok number
  pub time : ℕ
  pub time_decoded : decode_u64 header.timestamp ≡ ok time
  pub milli : ℕ
  pub timed : milli_timestamp x header ≡ ok milli
  pub not_early :
      (parent_milli + (params_at number time).block_interval_ms ≤ milli) ⊎ (u64_max ≤ milli)
  pub gas : ℕ
  pub gas_decoded : decode_u64 header.gas_limit ≡ ok gas
  pub gas_floor : min_gas_limit ≤ gas
  pub gas_moves :
      ((lorentz_time ≤ time) × IsWithin 1024 parent_gas_limit gas)
      ⊎ ((time < lorentz_time) × IsWithin 256 parent_gas_limit gas)

saturating_add-le : (a b c : ℕ) → leb (saturating_add a b) c ≡ true → (a + b ≤ c) ⊎ (u64_max ≤ c)
saturating_add-le a b c t = elim (Bool-cases (leb (a + b) u64_max)) [
  | inl fits ↦ inl (ground arith)
  | inr over ↦ inr (ground arith)
]

gas_bounds :
    (parent gas time : ℕ)
    → ltb (abs_diff parent gas) (
        parent
        / (if leb lorentz_time time
            then gas_limit_bound_divisor
            else gas_limit_bound_divisor_pre_lorentz))
      ≡ true
    → ((lorentz_time ≤ time) × IsWithin 1024 parent gas)
      ⊎ ((time < lorentz_time) × IsWithin 256 parent gas)
gas_bounds parent gas time t = elim (Bool-cases (leb lorentz_time time)) [
  | inl late ↦ inl (ground arith, (ground arith, ground arith))
  | inr early ↦ inr (ground arith, (ground arith, ground arith))
]

verify_cascading_vs_parent-ok :
    (x : External) (parent_milli parent_gas_limit : ℕ) (header : RpcBlockHeader)
    → 0 < parent_gas_limit
    → verify_cascading_vs_parent x parent_milli parent_gas_limit header ≡ ok tt
    → Cascades x parent_milli parent_gas_limit header
unfolding verify_cascading_vs_parent
verify_cascading_vs_parent-ok x parent_milli pg header positive e =
    let some_gas : (pg == 0) ≡ false = ground arith in
    let (number, e₁, e₂) = >>=-eq-ok (u64_of header.number) _ (sym (if_false _ _ some_gas) ∙ e) in
    let (time, e₃, e₄) = >>=-eq-ok (u64_of header.timestamp) _ e₂ in
    let (milli, e₅, e₆) = >>=-eq-ok (milli_timestamp x header) _ e₄ in
    let (late, e₇) =
      ensure-eq-ok
        (leb (saturating_add parent_milli (params_at number time).block_interval_ms) milli) _ _
        e₆ in
    let (gas, e₈, e₉) = >>=-eq-ok (u64_of header.gas_limit) _ e₇ in
    let (floor, f) = ensure-eq-ok (leb min_gas_limit gas) _ _ e₉ in
    record {
      number = number;
      number_decoded = map_err-eq-ok types (decode_u64 header.number) e₁;
      time = time;
      time_decoded = map_err-eq-ok types (decode_u64 header.timestamp) e₃;
      milli = milli;
      timed = e₅;
      not_early =
          saturating_add-le parent_milli (params_at number time).block_interval_ms milli late;
      gas = gas;
      gas_decoded = map_err-eq-ok types (decode_u64 header.gas_limit) e₈;
      gas_floor = leb→le _ _ floor;
      gas_moves = gas_bounds pg gas time (ensure-ok _ _ f);
    }

then_ok :
    {E : Type 0} {A B : Type 0} {m : Result E A} {a : A} (f : A → Result E B) {b : B}
    → m ≡ ok a
    → f a ≡ ok b
    → (m >>= f) ≡ ok b
then_ok f e e' = ap (λ r. r >>= f) e ∙ e'

past_guard :
    {E : Type 0} {B : Type 0} {c : Bool} (e : E) {m : Result E B} {b : B}
    → c ≡ true
    → m ≡ ok b
    → (ensure c e >> m) ≡ ok b
past_guard e {m = m} t done = ap (λ d. ensure d e >> m) t ∙ done

last_guard : {E : Type 0} {c : Bool} (e : E) → c ≡ true → ensure c e ≡ ok tt
last_guard e t = ap (λ d. ensure d e) t

le-saturating_add : (a b c : ℕ) → (a + b ≤ c) ⊎ (u64_max ≤ c) → leb (saturating_add a b) c ≡ true
le-saturating_add a b c (inl le) = ground arith
le-saturating_add a b c (inr le) = ground arith

bounds_gas :
    (parent gas time : ℕ)
    → ((lorentz_time ≤ time) × IsWithin 1024 parent gas)
      ⊎ ((time < lorentz_time) × IsWithin 256 parent gas)
    → ltb (abs_diff parent gas) (
        parent
        / (if leb lorentz_time time
            then gas_limit_bound_divisor
            else gas_limit_bound_divisor_pre_lorentz))
      ≡ true
bounds_gas parent gas time (inl late) = ground arith
bounds_gas parent gas time (inr early) = ground arith

floor_holds : (gas : ℕ) → min_gas_limit ≤ gas → leb min_gas_limit gas ≡ true
floor_holds gas le = ground arith

Cascades-ok :
    (x : External) (parent_milli parent_gas_limit : ℕ) (header : RpcBlockHeader)
    → 0 < parent_gas_limit
    → Cascades x parent_milli parent_gas_limit header
    → verify_cascading_vs_parent x parent_milli parent_gas_limit header ≡ ok tt
unfolding verify_cascading_vs_parent
Cascades-ok x parent_milli pg header positive c =
    let some_gas : (pg == 0) ≡ false = ground arith in
    if_false _ _ some_gas
    ∙ then_ok _ (ap (map_err types) c.number_decoded) (
        then_ok _ (ap (map_err types) c.time_decoded) (
          then_ok _ c.timed (
            past_guard _ (le-saturating_add parent_milli _ c.milli c.not_early) (
              then_ok _ (ap (map_err types) c.gas_decoded) (
                past_guard _ (floor_holds c.gas c.gas_floor)
                  (last_guard _ (bounds_gas pg c.gas c.time c.gas_moves)))))))

-- Where the parent's gas limit is positive, verify_cascading_vs_parent accepts a header exactly
-- when its number, timestamp and gas limit decode and it has a millisecond timestamp, which is at
-- least the parent's plus the block interval of its fork or is at least the greatest u64, its gas
-- limit is at least 5000, and it differs from the parent's, on either side, by less than the whole
-- part of a 1024th of the parent's where the timestamp is not before Lorentz, and of a 256th where
-- it is.
pub verify_cascading_vs_parent-Cascades :
    (x : External) (parent_milli parent_gas_limit : ℕ) (header : RpcBlockHeader)
    → 0 < parent_gas_limit
    → (verify_cascading_vs_parent x parent_milli parent_gas_limit header ≡ ok tt)
      ↔ Cascades x parent_milli parent_gas_limit header
verify_cascading_vs_parent-Cascades x parent_milli pg header positive = (
  verify_cascading_vs_parent-ok x parent_milli pg header positive,
  Cascades-ok x parent_milli pg header positive,
)
