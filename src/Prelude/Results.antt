-- ===== src/Prelude/Results.antt =====
-- `?` on a `Result`.
use flashbook.Prelude.Tests.{Result, ok, err, if◌then◌else◌}
use mathlib.Core.Path.{◌≡◌, refl}
use mathlib.Core.Bool.{Bool, true, false}
use mathlib.Core.Option.{Option, none, some}
use native.Mathlib.Omega.{arith}

infixl 5 ◌>>=◌
abbrev pub ◌>>=◌ {ℓ κ μ} :
    {A : Type ℓ} {B : Type κ} {E : Type μ} → Result A E → (A → Result B E) → Result B E
err e >>= step = err e
ok x >>= step = step x

-- `ok_or`
abbrev pub ok_or {ℓ μ} : {A : Type ℓ} {E : Type μ} → Option A → E → Result A E
ok_or none e = err e
ok_or (some a) e = ok a

-- Inversion of a step that succeeded.
pub >>=-eq-ok {ℓ κ μ} :
    {A : Type ℓ} {B : Type κ} {E : Type μ} (first : Result A E) (step : A → Result B E) {y : B}
    → (first >>= step) ≡ ok y
    → (x : A) × (first ≡ ok x) × (step x ≡ ok y)
>>=-eq-ok (err e) step h = absurd (ground arith)
>>=-eq-ok (ok x) step h = (x, refl, h)

pub ok_or-eq-ok {ℓ μ} :
    {A : Type ℓ} {E : Type μ} (o : Option A) (e : E) {a : A} → ok_or o e ≡ ok a → o ≡ some a
ok_or-eq-ok none e h = absurd (ground arith)
ok_or-eq-ok (some a) e h = ground arith

-- A test in front of the rest, that passed.
pub checked-eq-ok {ℓ μ} :
    {A : Type ℓ} {E : Type μ} (b : Bool) (e : E) (r : Result A E) {a : A}
    → (if b then err e else r) ≡ ok a
    → (b ≡ false) × (r ≡ ok a)
checked-eq-ok true e r h = absurd (ground arith)
checked-eq-ok false e r h = (refl, h)

pub required-eq-ok {ℓ μ} :
    {A : Type ℓ} {E : Type μ} (b : Bool) (e : E) (r : Result A E) {a : A}
    → (if b then r else err e) ≡ ok a
    → (b ≡ true) × (r ≡ ok a)
required-eq-ok true e r h = (refl, h)
required-eq-ok false e r h = absurd (ground arith)

-- The branch of a test whose outcome is known.
pub if_false-eq {ℓ} :
    {A : Type ℓ} (b : Bool) (x y : A) {z : A} → (if b then x else y) ≡ z → b ≡ false → y ≡ z
if_false-eq true x y h e = absurd (ground arith)
if_false-eq false x y h e = h

pub if_true-eq {ℓ} :
    {A : Type ℓ} (b : Bool) (x y : A) {z : A} → (if b then x else y) ≡ z → b ≡ true → x ≡ z
if_true-eq true x y h e = h
if_true-eq false x y h e = absurd (ground arith)

pub ok_is {ℓ μ} : {A : Type ℓ} {E : Type μ} {a b : A} → (◌≡◌ {A = Result A E} (ok a) (ok b)) → a ≡ b
ok_is e = ground (arith, e)
