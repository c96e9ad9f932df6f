-- ===== src/Utxo/File/Placement.antt =====
-- The lists per shard that the load builds from the entries of a saved cache.
use mathlib.Core.Path.{subst}
use bitcoin_chain_graph.Common.{
  ℕ, zero, suc, ◌+◌, ◌<◌, ◌≡◌, refl, sym, ap, ◌∙◌, List, [], ◌∷◌, ◌++◌, map, length, get_or, set,
  replicate, All, arith, append_assoc, append-nil, length-append, length-set, get_or-set_self,
}
use bitcoin_chain_graph.Utxo.Key.{num_shards}
use bitcoin_chain_graph.Utxo.Lru.{LruCrate}
use bitcoin_chain_graph.Utxo.Lru.Entries.{Entry}
use bitcoin_chain_graph.Utxo.Cache.Shards.{IsAt, ShardsOk}
use bitcoin_chain_graph.Utxo.File.{all_entries}
use bitcoin_chain_graph.Utxo.File.Load.{push_entry, count_entries}
use bitcoin_chain_graph.Utxo.File.EntryTrip.{push_entries}

set-set : (xs : List (List Entry)) (i : ℕ) (v w : List Entry) → set (set xs i v) i w ≡ set xs i w
set-set [] i v w = refl
set-set (x ∷ xs) zero v w = refl
set-set (x ∷ xs) (suc i) v w = ap (◌∷◌ x) (set-set xs i v w)

set-get_or : (xs : List (List Entry)) (i : ℕ) → set xs i (get_or xs i []) ≡ xs
set-get_or [] i = refl
set-get_or (x ∷ xs) zero = refl
set-get_or (x ∷ xs) (suc i) = ap (◌∷◌ x) (set-get_or xs i)

set-length_append :
    (done : List (List Entry)) (x v : List Entry) (xs : List (List Entry))
    → set (done ++ x ∷ xs) (length done) v ≡ done ++ v ∷ xs
set-length_append [] x v xs = refl
set-length_append (y ∷ done) x v xs = ap (◌∷◌ y) (set-length_append done x v xs)

get_or-length_append :
    (done : List (List Entry)) (x : List Entry) (xs : List (List Entry))
    → get_or (done ++ x ∷ xs) (length done) [] ≡ x
get_or-length_append [] x xs = refl
get_or-length_append (y ∷ done) x xs = get_or-length_append done x xs

push_entries-append :
    (entries more : List Entry) (per_shard : List (List Entry))
    → push_entries (entries ++ more) per_shard ≡ push_entries more (push_entries entries per_shard)
unfolding push_entries
push_entries-append [] more per_shard = refl
push_entries-append (e ∷ entries) more per_shard =
    push_entries-append entries more (push_entry e per_shard)

-- The entries of one shard all go to the end of its list.
push_entries-IsAt :
    (entries : List Entry) (i : ℕ) (per_shard : List (List Entry))
    → i < length per_shard
    → All (IsAt i) entries
    → push_entries entries per_shard ≡ set per_shard i (get_or per_shard i [] ++ entries)
unfolding push_entries
push_entries-IsAt [] i per_shard lt home =
    sym (ap (set per_shard i) (append-nil (get_or per_shard i [])) ∙ set-get_or per_shard i)
push_entries-IsAt (e ∷ entries) i per_shard lt home =
    let old = get_or per_shard i [] in
    let pushed : push_entry e per_shard ≡ set per_shard i (old ++ e ∷ []) =
      unfold push_entry in rw home.0 in
    ap (push_entries entries) pushed
    ∙ push_entries-IsAt entries i (set per_shard i (old ++ e ∷ []))
        (omega (arith, length-set per_shard i (old ++ e ∷ []))) home.1
    ∙ set-set per_shard i (old ++ e ∷ []) _
    ∙ ap (λ l. set per_shard i (l ++ entries)) (get_or-set_self per_shard i (old ++ e ∷ []) [] lt)
    ∙ ap (set per_shard i) (append_assoc old (e ∷ []) entries)

module _ (L : LruCrate) where
  open L use {LruCache, new, iter}

  place :
      (shards : List LruCache) (done : List (List Entry))
      → ((j : ℕ)
          → j < length shards
          → All (IsAt (length done + j)) (iter (get_or shards j (new 1))))
      → push_entries (all_entries L shards) (done ++ replicate (length shards) [])
        ≡ done ++ map iter shards
  unfolding all_entries push_entries
  place [] done home = refl
  place (s ∷ shards) done home =
      let rest : List (List Entry) = replicate (length shards) [] in
      let here : length done + 0 ≡ length done = omega arith in
      let at = subst (λ i. All (IsAt i) (iter s)) here (home 0 (omega arith)) in
      push_entries-append (iter s) (all_entries L shards) (done ++ [] ∷ rest)
      ∙ ap (push_entries (all_entries L shards)) (
          push_entries-IsAt (iter s) (length done) (done ++ [] ∷ rest)
            (omega (arith, length-append done ([] ∷ rest))) at
          ∙ ap (λ l. set (done ++ [] ∷ rest) (length done) (l ++ iter s))
              (get_or-length_append done [] rest)
          ∙ set-length_append done [] (iter s) rest
          ∙ sym (append_assoc done (iter s ∷ []) rest))
      ∙ place shards (done ++ iter s ∷ []) (λ j lt.
        subst (λ i. All (IsAt i) (iter (get_or shards j (new 1))))
          (omega (arith, length-append done (iter s ∷ []))) (home (suc j) (omega arith)))
      ∙ append_assoc done (iter s ∷ []) (map iter shards)

  pub count-place :
      (shards : List LruCache) → count_entries (map iter shards) ≡ length (all_entries L shards)
  unfolding count_entries all_entries
  count-place [] = refl
  count-place (s ∷ shards) =
      omega (arith, length-append (iter s) (all_entries L shards), count-place shards)

  -- The lists per shard, from the entries of valid shards.
  pub push_entries-all_entries :
      (shards : List LruCache)
      → ShardsOk L shards
      → push_entries (all_entries L shards) (replicate num_shards []) ≡ map iter shards
  push_entries-all_entries shards valid =
      ap (λ n. push_entries (all_entries L shards) (replicate n [])) (sym valid.sixteen)
      ∙ place shards [] (λ j lt.
        subst (λ i. All (IsAt i) (iter (get_or shards j (new 1)))) (omega arith)
          (valid.each j (rw valid.sixteen at lt)).home)
