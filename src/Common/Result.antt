-- ===== src/Common/Result.antt =====
-- `Result<T, E>` with its `?`, and what a successful chain says of its parts.
use mathlib.Core.Path.{◌≡◌, refl}
use mathlib.Core.Logic.{◌⊎◌, inl, inr}
use mathlib.Core.Bool.{Bool, true, false}
use bitcoin_chain_graph.Common.Tests.{if◌then◌else◌}

pub data Result {ℓ κ} (E : Type κ) (A : Type ℓ) : Type (ℓ ⊔ κ) where
  ok : A → Result E A
  err : E → Result E A

infixl 5 ◌>>=◌
abbrev pub ◌>>=◌ {ℓ κ ν} :
    {E : Type ν} {A : Type ℓ} {B : Type κ} → Result E A → (A → Result E B) → Result E B
ok a >>= f = f a
err e >>= f = err e

pub Result-cases {ℓ κ} :
    {E : Type κ} {A : Type ℓ} (r : Result E A) → ((a : A) × (r ≡ ok a)) ⊎ ((e : E) × (r ≡ err e))
Result-cases (ok a) = inl (a, refl)
Result-cases (err e) = inr (e, refl)

pub ok-inj {ℓ κ} : {E : Type κ} {A : Type ℓ} (a b : A) → Path (Result E A) (ok a) (ok b) → a ≡ b
ok-inj a b h = cc

pub err-inj {ℓ κ} : {E : Type κ} {A : Type ℓ} (a b : E) → Path (Result E A) (err a) (err b) → a ≡ b
err-inj a b h = cc

pub err-ok {ℓ κ} : {E : Type κ} {A : Type ℓ} (e : E) (a : A) → err e ≡ ok a → ⊥
err-ok e a h = cc

-- What comes first in a chain that succeeds.
pub bind-ok {ℓ κ ν} :
    {E : Type ν} {A : Type ℓ} {B : Type κ} (r : Result E A) (f : A → Result E B) (b : B)
    → (r >>= f) ≡ ok b
    → (a : A) × (r ≡ ok a) × (f a ≡ ok b)
bind-ok (ok a) f b h = (a, refl, h)
bind-ok (err e) f b h = absurd (err-ok e b h)

-- A check that returns an error when it holds, in a run that succeeds.
pub unless-ok {ℓ κ} :
    {E : Type κ} {A : Type ℓ} (b : Bool) (e : E) (r : Result E A) (a : A)
    → (if b then err e else r) ≡ ok a
    → (b ≡ false) × (r ≡ ok a)
unless-ok true e r a h = absurd (err-ok e a h)
unless-ok Bool.false e r a h = (refl, h)
