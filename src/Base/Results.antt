-- ===== src/Base/Results.antt =====
-- A fallible step: `Result<A, E>` of the standard library, with the `?` operator as bind.
use mathlib.Core.Path.{◌≡◌, refl}
use mathlib.Core.Logic.{◌⊎◌, inl, inr}
use mathlib.Core.Bool.{Bool, true, false}
use mathlib.Core.Option.{Option, none, some}

pub data Result {ℓ κ} (E : Type κ) (A : Type ℓ) : Type (ℓ ⊔ κ) where
  ok : A → Result E A
  err : E → Result E A

infixl 5 ◌>>=◌ ◌>>◌
abbrev pub ◌>>=◌ {ℓ κ μ} :
    {E : Type μ} {A : Type ℓ} {B : Type κ} → Result E A → (A → Result E B) → Result E B
ok a >>= f = f a
err e >>= f = err e

abbrev pub ◌>>◌ {ℓ μ} : {E : Type μ} {B : Type ℓ} → Result E (Unit {0}) → Result E B → Result E B
m >> k = m >>= λ _. k

-- `if bad { bail!(e) }`
abbrev pub bail_if {μ} : {E : Type μ} → Bool → E → Result E (Unit {0})
bail_if true e = err e
bail_if false e = ok tt

-- `o.ok_or_else(|| e)?`
abbrev pub ok_or {ℓ μ} : {E : Type μ} {A : Type ℓ} → Option A → E → Result E A
ok_or none e = err e
ok_or (some a) e = ok a

pub Result-cases {ℓ κ} :
    {E : Type κ} {A : Type ℓ} (r : Result E A) → ((a : A) × (r ≡ ok a)) ⊎ ((e : E) × (r ≡ err e))
Result-cases (ok a) = inl (a, refl)
Result-cases (err e) = inr (e, refl)

-- The value of a result, if there is one, has the property.
abbrev pub Holds {ℓ κ μ} : {E : Type κ} {A : Type ℓ} → (A → Type μ) → Result E A → Type μ
Holds P (ok a) = P a
Holds P (err e) = Unit

pub bind-Holds {ℓ κ μ ν ξ} :
    {E : Type μ} {A : Type ℓ} {B : Type κ} (P : A → Type ν) (Q : B → Type ξ) (r : Result E A)
    (f : A → Result E B)
    → Holds P r
    → ((a : A) → P a → Holds Q (f a))
    → Holds Q (r >>= f)
bind-Holds P Q (ok a) f h k = k a h
bind-Holds P Q (err e) f h k = tt

-- A value that was looked for may be any.
pub ok_or-Holds {ℓ κ μ ξ} :
    {E : Type μ} {A : Type ℓ} {B : Type κ} (Q : B → Type ξ) (o : Option A) (e : E)
    (f : A → Result E B)
    → ((a : A) → Holds Q (f a))
    → Holds Q (ok_or o e >>= f)
ok_or-Holds Q none e f k = tt
ok_or-Holds Q (some a) e f k = k a

-- A sequence that succeeds has two steps that do.
pub seq-ok {μ κ} :
    {E : Type μ} {B : Type κ} (m : Result E (Unit {0})) (k : Result E B) (b : B)
    → (m >> k) ≡ ok b
    → (m ≡ ok tt) × (k ≡ ok b)
seq-ok (ok u) k b h = (refl, h)
seq-ok (err e) k b h = cc

pub bail_if-ok {μ} : {E : Type μ} (c : Bool) (e : E) → bail_if c e ≡ ok tt → c ≡ false
bail_if-ok false e h = refl
bail_if-ok true e h = cc
