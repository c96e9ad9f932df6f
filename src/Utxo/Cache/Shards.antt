-- ===== src/Utxo/Cache/Shards.antt =====
-- The invariant of the sharded cache and its abstract view: what each shard holds, and the map from
-- keys to outputs that the whole cache stands for.
use mathlib.Core.Path.{subst}
use mathlib.Core.Logic.{if_pos, if_neg}
use bitcoin_chain_graph.Common.{
  ℕ, ◌≤◌, ◌<◌, ◌≡◌, ◌≢◌, sym, ap, ◌∙◌, List, ◌∷◌, Option, length, get_or, set, All, arith,
  Option-cases, inl, inr, ite, length-take-le, length-set, get_or-set_self, get_or-set_ne,
  ℕ_discrete,
}
use bitcoin_chain_graph.Common.Assoc
use bitcoin_chain_graph.Common.Assoc.{lookup, Distinct}
use bitcoin_chain_graph.Utxo.Key.{UtxoKey, UtxoKey-discrete as dec, num_shards, shard_index}
use bitcoin_chain_graph.Utxo.Key.{shard_index-lt}
use bitcoin_chain_graph.Utxo.Output.{CachedOutput}
use bitcoin_chain_graph.Utxo.Lru.{LruCrate}
use bitcoin_chain_graph.Utxo.Lru.Entries.{Entry, promote, promote-Distinct, length-promote}

-- The entry stands in the shard of its key.
abbrev pub IsAt : ℕ → Entry → Type 0
IsAt i e = shard_index e.0 ≡ i

promote-IsAt : (i : ℕ) (k : UtxoKey) (l : List Entry) → All (IsAt i) l → All (IsAt i) (promote k l)
unfolding promote
promote-IsAt i k l h = elim (Option-cases (lookup dec k l)) [
  | inl miss ↦ rw (miss, promote) h
  | inr (v, hit) ↦
      rw (hit, promote)
        (Assoc.All-lookup dec (IsAt i) k l v h hit, Assoc.All-remove dec (IsAt i) k l h)
]

module _ (L : LruCrate) where
  open L use {
    LruCache, new, put, get, pop, cap, iter, iter-put, cap-put, iter-get, cap-get, iter-pop,
    cap-pop, iter-new, cap-new,
  }

  -- A shard is never over its capacity, has no key twice, and only keys of its own.
  pub record ShardOk (i : ℕ) (s : LruCache) : Type 0 where
    pub room : 0 < cap s
    pub fits : length (iter s) ≤ cap s
    pub distinct : Distinct dec (iter s)
    pub home : All (IsAt i) (iter s)

  pub record ShardsOk (shards : List LruCache) : Type 0 where
    pub sixteen : length shards ≡ num_shards
    pub each : (i : ℕ) → i < num_shards → ShardOk i (get_or shards i (new 1))

  -- What the cache holds under a key, without a promotion.
  unfoldable pub find : List LruCache → UtxoKey → Option CachedOutput
  find shards q = lookup dec q (iter (get_or shards (shard_index q) (new 1)))

  pub new-ShardOk : (n i : ℕ) → 0 < n → ShardOk i (new n)
  new-ShardOk n i h = record {
    room = rw (cap-new n) h;
    fits = rw (iter-new n) (omega arith);
    distinct = rw (iter-new n) tt;
    home = rw (iter-new n) tt;
  }

  pub put-ShardOk :
      (k : UtxoKey) (v : CachedOutput) (i : ℕ) (s : LruCache)
      → shard_index k ≡ i
      → ShardOk i s
      → ShardOk i (put k v s)
  put-ShardOk k v i s at h =
      let l = iter s in
      record {
        room = rw (cap-put k v s) h.room;
        fits = rw (iter-put k v s, cap-put k v s) (length-take-le _ _);
        distinct = rw (iter-put k v s) (
            Assoc.take-Distinct dec (cap s) ((k, v) ∷ Assoc.remove dec k l) (
              Assoc.lookup-remove_self dec k l h.distinct,
              Assoc.remove-Distinct dec k l h.distinct,
            ));
        home = rw (iter-put k v s) (
            Assoc.All-take dec (IsAt i) (cap s) ((k, v) ∷ Assoc.remove dec k l)
              (at, Assoc.All-remove dec (IsAt i) k l h.home));
      }

  pub get-ShardOk : (k : UtxoKey) (i : ℕ) (s : LruCache) → ShardOk i s → ShardOk i (get k s).0
  get-ShardOk k i s h = record {
    room = rw (cap-get k s) h.room;
    fits = rw (iter-get k s, cap-get k s, length-promote k (iter s)) h.fits;
    distinct = rw (iter-get k s) (promote-Distinct k (iter s) h.distinct);
    home = rw (iter-get k s) (promote-IsAt i k (iter s) h.home);
  }

  pub pop-ShardOk : (k : UtxoKey) (i : ℕ) (s : LruCache) → ShardOk i s → ShardOk i (pop k s).0
  pop-ShardOk k i s h = record {
    room = rw (cap-pop k s) h.room;
    fits =
        rw (iter-pop k s, cap-pop k s)
          (omega (arith, Assoc.length-remove-le dec k (iter s), h.fits));
    distinct = rw (iter-pop k s) (Assoc.remove-Distinct dec k (iter s) h.distinct);
    home = rw (iter-pop k s) (Assoc.All-remove dec (IsAt i) k (iter s) h.home);
  }

  -- One shard is replaced by another that is valid at its place.
  pub set-ShardsOk :
      (shards : List LruCache) (i : ℕ) (s : LruCache)
      → ShardsOk shards
      → i < num_shards
      → ShardOk i s
      → ShardsOk (set shards i s)
  set-ShardsOk shards i s h lt hs = record {
    sixteen = rw (length-set shards i s) h.sixteen;
    each = λ j hj. elim (ℕ_discrete i j) [
      | yes e ↦
          subst (λ t. ShardOk t (get_or (set shards i s) t (new 1))) e
            (rw (get_or-set_self shards i s (new 1) (rw h.sixteen lt)) hs)
      | no e ↦ rw (get_or-set_ne shards i j s (new 1) e) (h.each j hj)
    ];
  }

  -- What a cache finds after one shard was replaced.
  pub find-set_self :
      (shards : List LruCache) (s : LruCache) (q : UtxoKey)
      → ShardsOk shards
      → find (set shards (shard_index q) s) q ≡ lookup dec q (iter s)
  unfolding find
  find-set_self shards s q h =
      rw (get_or-set_self shards (shard_index q) s (new 1) (rw h.sixteen (shard_index-lt q)))

  pub find-set_ne :
      (shards : List LruCache) (i : ℕ) (s : LruCache) (q : UtxoKey)
      → i ≢ shard_index q
      → find (set shards i s) q ≡ find shards q
  unfolding find
  find-set_ne shards i s q h = rw (get_or-set_ne shards i (shard_index q) s (new 1) h)

  -- Both cases at once.
  pub find-set :
      (shards : List LruCache) (i : ℕ) (s : LruCache) (q : UtxoKey)
      → ShardsOk shards
      → find (set shards i s) q
        ≡ ite (ℕ_discrete (shard_index q) i) (lookup dec q (iter s)) (find shards q)
  find-set shards i s q h = elim (ℕ_discrete (shard_index q) i) [
    | yes e ↦ rw (if_pos _ e, ← e) (find-set_self shards s q h)
    | no e ↦ rw (if_neg _ e) (find-set_ne shards i s q (λ p. e (sym p)))
  ]

  -- A shard that changes under one key alone changes the view under that key alone.
  pub find-set_update :
      (shards : List LruCache) (k q : UtxoKey) (s : LruCache) (r : Option CachedOutput)
      → ShardsOk shards
      → lookup dec q (iter s)
        ≡ ite (dec q k) r (lookup dec q (iter (get_or shards (shard_index k) (new 1))))
      → find (set shards (shard_index k) s) q ≡ ite (dec q k) r (find shards q)
  find-set_update shards k q s r h e = elim (ℕ_discrete (shard_index q) (shard_index k)) [
    | yes same ↦ find-set_yes same
    | no other ↦
        find-set_ne shards (shard_index k) s q (λ p. other (sym p))
        ∙ sym (if_neg (dec q k) (λ p. other (ap shard_index p)) _ _)
  ]
    where
      find-set_yes :
          shard_index q ≡ shard_index k
          → find (set shards (shard_index k) s) q ≡ ite (dec q k) r (find shards q)
      find-set_yes same =
          find-set shards (shard_index k) s q h
          ∙ if_pos (ℕ_discrete (shard_index q) (shard_index k)) same _ _
          ∙ unfold find in rw same e

  -- A shard with the same entries, in whatever order, leaves the whole view unchanged.
  pub find-set_same :
      (shards : List LruCache) (i : ℕ) (s : LruCache)
      → ShardsOk shards
      → ((q : UtxoKey)
          → shard_index q ≡ i
          → lookup dec q (iter s) ≡ lookup dec q (iter (get_or shards i (new 1))))
      → (q : UtxoKey) → find (set shards i s) q ≡ find shards q
  find-set_same shards i s h same q = elim (ℕ_discrete i (shard_index q)) [
    | yes e ↦ rw e (find-set_self shards s q h ∙ unfold find in rw e at (same q (sym e)))
    | no e ↦ find-set_ne shards i s q e
  ]
