-- ===== src/Prelude/Results.antt =====
-- Results of fallible code: Go's pair of a value and an error, of which one is nil.
use mathlib.Core.Path.{◌≡◌, refl}
use mathlib.Core.Logic.{◌⊎◌, inl, inr}
use mathlib.Core.Bool.{Bool, true, false}
use eebus_ha_bridge.Prelude.Tests.{if◌then◌else◌}

pub data Result {ℓ} (E A : Type ℓ) : Type ℓ where
  ok : A → Result E A
  err : E → Result E A

infixl 5 ◌>>=◌ ◌>>◌
abbrev pub ◌>>=◌ {ℓ} : {E A B : Type ℓ} → Result E A → (A → Result E B) → Result E B
ok a >>= f = f a
err e >>= f = err e

abbrev pub ◌>>◌ {ℓ} : {E B : Type ℓ} → Result E (Unit {ℓ}) → Result E B → Result E B
m >> k = m >>= λ _. k

-- `if c { return err }`
abbrev pub guard {ℓ} : {E : Type ℓ} → Bool → E → Result E (Unit {ℓ})
guard true e = err e
guard false e = ok tt

-- `fmt.Errorf("...: %w", err)`
abbrev pub wrap {ℓ} : {E A : Type ℓ} → (E → E) → Result E A → Result E A
wrap f (ok a) = ok a
wrap f (err e) = err (f e)

-- `err == nil`
abbrev pub is_ok {ℓ} : {E A : Type ℓ} → Result E A → Bool
is_ok (ok a) = true
is_ok (err e) = false

-- A result that is there comes out of both steps.
pub >>=-eq-ok {ℓ} :
    {E A B : Type ℓ} (first : Result E A) (next : A → Result E B) {b : B}
    → (first >>= next) ≡ ok b
    → (a : A) × (first ≡ ok a) × (next a ≡ ok b)
>>=-eq-ok (err e) next h = cc
>>=-eq-ok (ok a) next h = (a, refl, h)

pub >>-eq-ok {ℓ} :
    {E B : Type ℓ} (m : Result E (Unit {ℓ})) (k : Result E B) {b : B}
    → (m >> k) ≡ ok b
    → (m ≡ ok tt) × (k ≡ ok b)
>>-eq-ok (ok _) k h = (refl, h)
>>-eq-ok (err e) k h = cc

pub wrap-eq-ok {ℓ} :
    {E A : Type ℓ} (f : E → E) (m : Result E A) {a : A} → wrap f m ≡ ok a → m ≡ ok a
wrap-eq-ok f (ok a) h = h
wrap-eq-ok f (err e) h = cc

pub guard-eq-ok {ℓ} : {E : Type ℓ} (c : Bool) (e : E) → guard c e ≡ ok tt → c ≡ false
guard-eq-ok true e h = cc
guard-eq-ok false e h = refl

pub if_err-eq-ok {ℓ} :
    {E A : Type ℓ} (c : Bool) (e : E) {r : Result E A} {a : A}
    → (if c then err e else r) ≡ ok a
    → (c ≡ false) × (r ≡ ok a)
if_err-eq-ok true e h = (cc, cc)
if_err-eq-ok false e h = (refl, h)

pub Result-cases {ℓ} :
    {E A : Type ℓ} (r : Result E A) → ((a : A) × (r ≡ ok a)) ⊎ ((e : E) × (r ≡ err e))
Result-cases (ok a) = inl (a, refl)
Result-cases (err e) = inr (e, refl)
