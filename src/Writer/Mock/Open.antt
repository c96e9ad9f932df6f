-- ===== src/Writer/Mock/Open.antt =====
-- An open transaction of `MockWriter` (src/writer/mock.rs): its snapshot and its tables.
use bitcoin_chain_graph.Common.{
  ℕ, ◌≡◌, refl, sym, ap, ◌∙◌, ◌⊎◌, inl, inr, List, [], ◌++◌, Option, none, some, length, take, ltb,
  append_assoc, append-nil, take-length_append, Option-cases, Bool-cases,
}
use bitcoin_chain_graph.Common.Result.{Result-cases}
use bitcoin_chain_graph.Common.Exec.{Exec, ◌>>◌}
use mathlib.Core.Path.{subst}
use bitcoin_chain_graph.Writer.Error.{WriterError}
use bitcoin_chain_graph.Writer.Mock.{Method, Tables, MockSnapshot, FailureAfter, MockStorage}
use bitcoin_chain_graph.Writer.Mock.Writes.{check_after, check_transient, check_failure, guarded}

abbrev pub Extends {ℓ} : {A : Type ℓ} → List A → List A → Type ℓ
Extends {A = A} xs ys = (zs : List A) × (ys ≡ xs ++ zs)

pub Extends-refl {ℓ} : {A : Type ℓ} (xs : List A) → Extends xs xs
Extends-refl xs = ([], sym (append-nil xs))

pub Extends-append {ℓ} :
    {A : Type ℓ} (xs ys rows : List A) → Extends xs ys → Extends xs (ys ++ rows)
Extends-append xs ys rows (zs, e) = (zs ++ rows, ap (λ l. l ++ rows) e ∙ append_assoc xs zs rows)

pub take-Extends {ℓ} : {A : Type ℓ} (xs ys : List A) → Extends xs ys → take (length xs) ys ≡ xs
take-Extends xs ys (zs, e) = ap (take (length xs)) e ∙ take-length_append xs zs

abbrev pub snapshot_of : Tables → MockSnapshot
snapshot_of t = record {
  blocks_len = length t.blocks;
  transactions_len = length t.transactions;
  outputs_len = length t.outputs;
  inputs_len = length t.inputs;
  performs_len = length t.performs;
  benefits_to_len = length t.benefits_to;
  snap_checkpoint = t.checkpoint;
}

-- A transaction that was begun on the tables `t0`.
pub record Open (t0 : Tables) (snap : Option MockSnapshot) (t : Tables) : Type 0 where
  pub saved : snap ≡ some (snapshot_of t0)
  pub blocks_grow : Extends t0.blocks t.blocks
  pub transactions_grow : Extends t0.transactions t.transactions
  pub outputs_grow : Extends t0.outputs t.outputs
  pub inputs_grow : Extends t0.inputs t.inputs
  pub performs_grow : Extends t0.performs t.performs
  pub benefits_to_grow : Extends t0.benefits_to t.benefits_to

abbrev pub IsOpen : Tables → MockStorage → Type 0
IsOpen t0 s = Open t0 s.snapshot s.tables

-- A look-up of a failure changes neither the rows nor the snapshot.
abbrev Same : MockStorage → MockStorage → Type 0
Same s s' = (s'.tables ≡ s.tables) × (s'.snapshot ≡ s.snapshot)

pub check_failure-Same : (m : Method) (s : MockStorage) → Same s (check_failure m s).0
unfolding check_failure check_transient check_after
check_failure-Same m s = elim (Option-cases (s.failures m)) [
  | inl none_ ↦ rw (none_, check_failure) (transient (Option-cases (s.transient_failures m)))
  | inr (e, at) ↦ rw (at, check_failure) (refl, refl)
]
  where
    after :
        (s.failure_after_n m ≡ none) ⊎ ((f : FailureAfter) × (s.failure_after_n m ≡ some f))
        → Same s (check_after m s).0
    after (inl e) = rw (e, check_after) (refl, refl)
    after (inr (f, e)) = rw (e, check_after) (refl, refl)

    transient :
        (s.transient_failures m ≡ none)
          ⊎ ((e : WriterError × ℕ) × (s.transient_failures m ≡ some e))
        → Same s (check_transient m s).0
    transient (inl e) = rw (e, check_transient) (after (Option-cases (s.failure_after_n m)))
    transient (inr (f, e)) = elim (Bool-cases (ltb 0 f.1)) [
      | inl more ↦ rw (e, check_transient, more) (refl, refl)
      | inr over ↦ rw (e, check_transient, over) (after (Option-cases (s.failure_after_n m)))
    ]

pub Open-Same : (t0 : Tables) (s s' : MockStorage) → Same s s' → IsOpen t0 s → IsOpen t0 s'
Open-Same t0 s s' (tables, snap) h =
    subst (λ t. Open t0 s'.snapshot t) (sym tables) (subst (λ m. Open t0 m s.tables) (sym snap) h)

-- A guarded call keeps a transaction open if its work does.
pub guarded-IsOpen :
    (t0 : Tables) (m : Method) (work : MockStorage → MockStorage) (s : MockStorage)
    → ((s' : MockStorage) → IsOpen t0 s' → IsOpen t0 (work s'))
    → IsOpen t0 s
    → IsOpen t0 (guarded m work s).0
unfolding guarded
guarded-IsOpen t0 m work s keeps h =
    let after = Open-Same t0 s (check_failure m s).0 (check_failure-Same m s) h in
    elim (Option-cases (check_failure m s).1) [
      | inl e ↦ rw (e, guarded) (keeps (check_failure m s).0 after)
      | inr (f, e) ↦ rw (e, guarded) after
    ]

-- A second guarded call after a first, which may have failed.
pub fast-IsOpen :
    (t0 : Tables) (m : Method) (rest : Exec MockStorage WriterError Unit) (s : MockStorage)
    → ((s' : MockStorage) → IsOpen t0 s' → IsOpen t0 (rest s').0)
    → IsOpen t0 s
    → IsOpen t0 ((guarded m (λ x. x) >> rest) s).0
fast-IsOpen t0 m rest s keeps h =
    let first = guarded-IsOpen t0 m (λ x. x) s (λ s' g. g) h in
    elim (Result-cases (guarded m (λ x. x) s).1) [
      | inl (a, e) ↦ rw e (keeps (guarded m (λ x. x) s).0 first)
      | inr (f, e) ↦ rw e first
    ]
