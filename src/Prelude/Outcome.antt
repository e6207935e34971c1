-- ===== src/Prelude/Outcome.antt =====
-- Rust's `Result`, with the value first in the order of the `?` operator's cases.
use mathlib.Core.Path.{◌≡◌, refl, ap}
use mathlib.Core.Logic.{◌≢◌}
use mathlib.Core.Bool.{Bool, true, false}
use mathlib.Core.Option.{Option, none, some}

pub data Result {ℓ} (E : Type 0) (A : Type ℓ) : Type ℓ where
  ok : A → Result E A
  err : E → Result E A

-- `x?` in the middle of a function.
infixl 5 ◌>>=◌ ◌>>◌
abbrev pub ◌>>=◌ {ℓ κ} :
    {E : Type 0} {A : Type ℓ} {B : Type κ} → Result E A → (A → Result E B) → Result E B
ok a >>= f = f a
err e >>= f = err e

abbrev pub ◌>>◌ {ℓ} : {E : Type 0} {B : Type ℓ} → Result E (Unit {0}) → Result E B → Result E B
m >> k = m >>= λ _. k

-- An early `return Err(e)` behind a test that must hold.
abbrev pub ensure : {E : Type 0} → Bool → E → Result E (Unit {0})
ensure true e = ok tt
ensure false e = err e

abbrev pub map_err {ℓ} : {E F : Type 0} {A : Type ℓ} → (E → F) → Result E A → Result F A
map_err f (ok a) = ok a
map_err f (err e) = err (f e)

abbrev pub ok_or {ℓ} : {E : Type 0} {A : Type ℓ} → Option A → E → Result E A
ok_or (some a) e = ok a
ok_or none e = err e

-- A chain that succeeds has a first step that does.
pub >>=-eq-ok {ℓ κ} :
    {E : Type 0} {X : Type ℓ} {Y : Type κ} {y : Y} (first : Result E X) (next : X → Result E Y)
    → (first >>= next) ≡ ok y
    → (x : X) × (first ≡ ok x) × (next x ≡ ok y)
>>=-eq-ok (err e) next chain = cc
>>=-eq-ok (ok x) next chain = (x, refl, chain)

pub ok-injective {ℓ} :
    {E : Type 0} {A : Type ℓ} {a b : A} → ◌≡◌ {A = Result E A} (ok a) (ok b) → a ≡ b
ok-injective h = cc

pub ensure-eq-ok {ℓ} :
    {E : Type 0} {B : Type ℓ} (c : Bool) (e : E) (m : Result E B) {b : B}
    → (ensure c e >> m) ≡ ok b
    → (c ≡ true) × (m ≡ ok b)
ensure-eq-ok true e m h = (refl, h)
ensure-eq-ok false e m h = cc

-- A chain does not fail with `e` if none of its steps does.
pub >>=-ne-err {ℓ κ} :
    {E : Type 0} {A : Type ℓ} {B : Type κ} (m : Result E A) (f : A → Result E B) (e : E)
    → m ≢ err e
    → ((a : A) → m ≡ ok a → f a ≢ err e)
    → (m >>= f) ≢ err e
>>=-ne-err (ok a) f e hm hf = hf a refl
>>=-ne-err (err d) f e hm hf = λ h. hm (cc h)

pub ensure-ok : {E : Type 0} (c : Bool) (e : E) {u : Unit {0}} → ensure c e ≡ ok u → c ≡ true
ensure-ok true e h = refl
ensure-ok false e h = cc

pub map_err-eq-ok {ℓ} :
    {E F : Type 0} {A : Type ℓ} (f : E → F) (m : Result E A) {a : A} → map_err f m ≡ ok a → m ≡ ok a
map_err-eq-ok f (ok a) e = ap ok (ok-injective e)
map_err-eq-ok f (err d) e = cc

-- A step whose error is converted, and the rest of the chain.
pub map_err_step-eq-ok {ℓ κ} :
    {E F : Type 0} {A : Type ℓ} {B : Type κ} (f : E → F) (m : Result E A) (next : A → Result F B)
    {b : B}
    → (map_err f m >>= next) ≡ ok b
    → (a : A) × (m ≡ ok a) × (next a ≡ ok b)
map_err_step-eq-ok f (ok a) next chain = (a, refl, chain)
map_err_step-eq-ok f (err e) next chain = cc

pub ok_or-eq-ok {ℓ} :
    {E : Type 0} {A : Type ℓ} (o : Option A) (e : E) {a : A} → ok_or o e ≡ ok a → o ≡ some a
ok_or-eq-ok (some a) e h = ap some (ok-injective h)
ok_or-eq-ok none e h = cc

pub map_err-ne :
    {E F : Type 0} {A : Type 0} (f : E → F) (m : Result E A) (e : F)
    → ((d : E) → f d ≢ e)
    → map_err f m ≢ err e
map_err-ne f (ok a) e apart = λ h. cc
map_err-ne f (err d) e apart = λ h. apart d (cc h)

pub ensure-ne : {E : Type 0} (c : Bool) (d e : E) → d ≢ e → ensure c d ≢ err e
ensure-ne true d e apart = λ h. cc
ensure-ne false d e apart = λ h. apart (cc h)
