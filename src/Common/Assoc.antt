-- ===== src/Common/Assoc.antt =====
-- Association lists over keys with a decidable equality: the entries of an LRU list and the
-- `HashMap`s of the code, with what can be looked up in them.
use mathlib.Core.List.{List, [], ◌∷◌}
use mathlib.Core.Logic.{◌≢◌, ite, if_pos, if_neg}
use mathlib.Core.Option.{Option, none, some}
use mathlib.Core.Path.{◌≡◌, refl, sym, subst}
use Prim.Native.Nat.{ℕ, zero, suc, ◌+◌, ◌≤◌}
use native.Mathlib.Omega.{arith}
use bitcoin_chain_graph.Common.Lists.{length, take, All}

module _ {ℓ} {K V : Type ℓ} (dec : Discrete K) where
  unfoldable pub lookup : K → List (K × V) → Option V
  lookup k [] = none
  lookup k ((j, v) ∷ l) = ite (dec k j) (some v) (lookup k l)

  -- Drops the first entry with the key.
  unfoldable pub remove : K → List (K × V) → List (K × V)
  remove k [] = []
  remove k ((j, v) ∷ l) = ite (dec k j) l ((j, v) ∷ remove k l)

  -- `HashMap::insert`: a key that is present gets the new value.
  unfoldable pub insert : K → V → List (K × V) → List (K × V)
  insert k v [] = (k, v) ∷ []
  insert k v ((j, w) ∷ l) = ite (dec k j) ((k, v) ∷ l) ((j, w) ∷ insert k v l)

  -- No key stands twice.
  abbrev pub Distinct : List (K × V) → Type ℓ
  Distinct [] = Unit
  Distinct ((k, v) ∷ l) = (lookup k l ≡ none) × Distinct l

  pub lookup-insert :
      (k q : K) (v : V) (l : List (K × V))
      → lookup q (insert k v l) ≡ ite (dec q k) (some v) (lookup q l)
  unfolding lookup insert
  lookup-insert k q v [] = refl
  lookup-insert k q v ((j, w) ∷ l) = ground (arith, lookup-insert k q v l)

  pub lookup-remove_ne : (k q : K) (l : List (K × V)) → q ≢ k → lookup q (remove k l) ≡ lookup q l
  unfolding lookup remove
  lookup-remove_ne k q [] h = refl
  lookup-remove_ne k q ((j, w) ∷ l) h = ground (arith, lookup-remove_ne k q l)

  pub lookup-remove_self : (k : K) (l : List (K × V)) → Distinct l → lookup k (remove k l) ≡ none
  unfolding lookup remove
  lookup-remove_self k [] d = refl
  lookup-remove_self k ((j, w) ∷ l) d = ground (arith, lookup-remove_self k l d.1)

  -- Both cases of a removal at once.
  pub lookup-remove :
      (k q : K) (l : List (K × V))
      → Distinct l
      → lookup q (remove k l) ≡ ite (dec q k) none (lookup q l)
  lookup-remove k q l d = grind (arith, lookup-remove_ne k q l, lookup-remove_self k l d)

  pub remove-Distinct : (k : K) (l : List (K × V)) → Distinct l → Distinct (remove k l)
  unfolding lookup remove
  remove-Distinct k [] d = tt
  remove-Distinct k ((j, w) ∷ l) d = ground (arith, lookup-remove_ne k j l, remove-Distinct k l d.1)

  pub length-remove-le : (k : K) (l : List (K × V)) → length (remove k l) ≤ length l
  unfolding remove
  length-remove-le k [] = omega arith
  length-remove-le k ((j, w) ∷ l) = ground (arith, length-remove-le k l)

  -- Removing a key that is there takes one entry.
  pub length-remove :
      (q : K) (rest : List (K × V)) (out : V)
      → lookup q rest ≡ some out
      → length (remove q rest) + 1 ≡ length rest
  unfolding lookup remove
  length-remove q [] out found = cc
  length-remove q ((j, w) ∷ rest) out found = ground (arith, length-remove q rest out)

  pub remove_absent : (q : K) (rest : List (K × V)) → lookup q rest ≡ none → remove q rest ≡ rest
  unfolding lookup remove
  remove_absent q [] out = refl
  remove_absent q ((j, w) ∷ rest) out = ground (arith, remove_absent q rest)

  lookup-take-none :
      (n : ℕ) (q : K) (l : List (K × V)) → lookup q l ≡ none → lookup q (take n l) ≡ none
  unfolding lookup
  lookup-take-none zero q l h = refl
  lookup-take-none (suc n) q [] h = refl
  lookup-take-none (suc n) q ((j, w) ∷ l) h = ground (arith, lookup-take-none n q l)

  pub take-Distinct : (n : ℕ) (l : List (K × V)) → Distinct l → Distinct (take n l)
  unfolding lookup
  take-Distinct zero l d = tt
  take-Distinct (suc n) [] d = tt
  take-Distinct (suc n) ((j, w) ∷ l) d = (lookup-take-none n j l d.0, take-Distinct n l d.1)

  module _ {κ} (P : K × V → Type κ) where
    pub All-remove : (k : K) (l : List (K × V)) → All P l → All P (remove k l)
    unfolding remove
    All-remove k [] h = h
    All-remove k ((j, w) ∷ l) h = elim (dec k j) [
      | yes e ↦ rw (if_pos _ e) h.1
      | no e ↦ rw (if_neg _ e) (h.0, All-remove k l h.1)
    ]

    pub All-take : (n : ℕ) (l : List (K × V)) → All P l → All P (take n l)
    All-take zero l h = tt
    All-take (suc n) [] h = tt
    All-take (suc n) (e ∷ l) h = (h.0, All-take n l h.1)

    -- What holds of all entries holds of one that is found.
    pub All-lookup : (k : K) (l : List (K × V)) (v : V) → All P l → lookup k l ≡ some v → P (k, v)
    unfolding lookup
    All-lookup k [] v h e = cc
    All-lookup k ((j, w) ∷ l) v h e = elim (dec k j) [
      | yes same ↦ let w-eq-v : w ≡ v = ground arith in subst P (λ i. (sym same i, w-eq-v i)) h.0
      | no other ↦ All-lookup k l v h.1 (ground arith)
    ]
