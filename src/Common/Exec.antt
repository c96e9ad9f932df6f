-- ===== src/Common/Exec.antt =====
-- State-passing computations that may fail: an `async` method that returns `Result<T, E>` and works
-- on a state. A failure keeps what was done to the state before it.
use mathlib.Core.Path.{◌≡◌, refl, ap, ◌∙◌}
use mathlib.Core.Logic.{◌⊎◌, inl, inr}
use bitcoin_chain_graph.Common.Result.{Result, ok, err, err-ok, err-inj, Result-cases}

abbrev pub Exec {ℓ} : Type ℓ → Type ℓ → Type ℓ → Type ℓ
Exec S E A = S → S × Result E A

module _ {ℓ} {S E A B : Type ℓ} where
  -- What follows a result: `?`.
  abbrev pub and_then : (A → Exec S E B) → S × Result E A → S × Result E B
  and_then f (s, ok a) = f a s
  and_then f (s, err e) = (s, err e)

  infixl 5 ◌>>=◌
  abbrev pub ◌>>=◌ : Exec S E A → (A → Exec S E B) → Exec S E B
  (m >>= f) s = and_then f (m s)

  infixl 5 ◌>>◌
  abbrev pub ◌>>◌ : Exec S E A → Exec S E B → Exec S E B
  (m >> n) s = and_then (λ a. n) (m s)

module _ {ℓ} {S E A : Type ℓ} where
  abbrev pub return : A → Exec S E A
  return a s = (s, ok a)

module _ {ℓ} {S E A B : Type ℓ} where
  -- What holds of the state after the first part, and is kept by the second if it runs.
  pub bind-state {κ} :
      (P : S → Type κ) (m : Exec S E A) (f : A → Exec S E B) (s : S)
      → P (m s).0
      → ((a : A) → (m s).1 ≡ ok a → P (f a (m s).0).0)
      → P ((m >>= f) s).0
  bind-state P m f s first rest = elim (Result-cases (m s).1) [
    | inl (a, e) ↦ rw e (rest a e)
    | inr (x, e) ↦ rw e first
  ]

  pub bind_of_ok :
      (m : Exec S E A) (f : A → Exec S E B) (s : S) (a : A)
      → (m s).1 ≡ ok a
      → (m >>= f) s ≡ f a (m s).0
  bind_of_ok m f s a h = rw h refl

  pub bind_of_err :
      (m : Exec S E A) (f : A → Exec S E B) (s : S) (x : E)
      → (m s).1 ≡ err x
      → (m >>= f) s ≡ ((m s).0, err x)
  bind_of_err m f s x h = rw h refl

  -- The parts of a run that succeeds.
  pub bind-result :
      (m : Exec S E A) (f : A → Exec S E B) (s : S) (b : B)
      → ((m >>= f) s).1 ≡ ok b
      → (a : A) × ((m s).1 ≡ ok a) × ((f a (m s).0).1 ≡ ok b) × (((m >>= f) s).0 ≡ (f a (m s).0).0)
  bind-result m f s b h = elim (Result-cases (m s).1) [
    | inl (a, e) ↦ (a, e, rw e at h, rw e refl)
    | inr (x, e) ↦ absurd (err-ok x b (rw e at h))
  ]

  -- The part of a run that fails.
  pub bind-failure :
      (m : Exec S E A) (f : A → Exec S E B) (s : S) (x : E)
      → ((m >>= f) s).1 ≡ err x
      → (((m s).1 ≡ err x) × (((m >>= f) s).0 ≡ (m s).0))
        ⊎ ((a : A) × ((m s).1 ≡ ok a)
            × ((f a (m s).0).1 ≡ err x)
            × (((m >>= f) s).0 ≡ (f a (m s).0).0))
  bind-failure m f s x h = elim (Result-cases (m s).1) [
    | inl (a, e) ↦ inr (a, e, rw e at h, rw e refl)
    | inr (y, e) ↦ inl (e ∙ ap err (err-inj y x (rw e at h)), rw e refl)
  ]
