-- ===== src/Utxo/File/Replay.antt =====
-- The second half of `load_from_file`: the entries of each shard, put in reverse into an empty one.
use mathlib.Core.Path.{subst}
use mathlib.Core.List.{reverse-append}
use bitcoin_chain_graph.Common.{
  ℕ, zero, suc, ◌+◌, ◌≤◌, ◌<◌, ◌≡◌, refl, sym, ap, ◌∙◌, List, [], ◌∷◌, ◌++◌, map, reverse, length,
  get_or, set, arith, length-set, length-map, get_or-set_self, get_or-set_ne, take,
  take_of_length-le,
}
use bitcoin_chain_graph.Common.Assoc
use bitcoin_chain_graph.Common.Assoc.{lookup, Distinct}
use bitcoin_chain_graph.Utxo.Key.{UtxoKey-discrete as dec, num_shards}
use bitcoin_chain_graph.Utxo.Lru.{LruCrate}
use bitcoin_chain_graph.Utxo.Lru.Entries.{Entry}
use bitcoin_chain_graph.Utxo.Cache.Shards.{ShardOk, ShardsOk}
use bitcoin_chain_graph.Utxo.File.Load.{put_all, load_shards}

module _ (L : LruCrate) where
  open L use {LruCache, new, put, cap, iter, iter-put, cap-put}

  put_all-append :
      (entries more : List Entry) (s : LruCache)
      → put_all L (entries ++ more) s ≡ put_all L more (put_all L entries s)
  unfolding put_all
  put_all-append [] more s = refl
  put_all-append ((key, value) ∷ entries) more s = put_all-append entries more (put key value s)

  -- Entries that are put in reverse stand in their order, if they fit.
  put_all-reverse :
      (entries : List Entry) (s : LruCache)
      → iter s ≡ []
      → Distinct dec entries
      → length entries ≤ cap s
      → (iter (put_all L (reverse entries) s) ≡ entries)
        × (cap (put_all L (reverse entries) s) ≡ cap s)
  unfolding put_all
  put_all-reverse [] s empty distinct fits = (empty, refl)
  put_all-reverse ((k, v) ∷ entries) s empty distinct fits =
      let rest = put_all L (reverse entries) s in
      let (holds, room) = put_all-reverse entries s empty distinct.1 (omega arith) in
      let split : put_all L (reverse ((k, v) ∷ entries)) s ≡ put k v rest =
        ap (λ l. put_all L l s) (reverse-append ((k, v) ∷ []) entries)
        ∙ put_all-append (reverse entries) ((k, v) ∷ []) s in
      let kept : Assoc.remove dec k (iter rest) ≡ entries =
        ap (Assoc.remove dec k) holds ∙ Assoc.remove_absent dec k entries distinct.0 in
      (
        ap iter split
            ∙ iter-put k v rest
            ∙ ap (λ l. take (cap rest) ((k, v) ∷ l)) kept
            ∙ take_of_length-le (cap rest) ((k, v) ∷ entries) (omega (arith, room)),
        ap cap split ∙ cap-put k v rest ∙ room,
      )

  pub length-load_shards :
      (idx : ℕ) (per_shard : List (List Entry)) (shards : List LruCache)
      → length (load_shards L idx per_shard shards) ≡ length shards
  unfolding load_shards
  length-load_shards idx [] shards = refl
  length-load_shards idx (entries ∷ per_shard) shards =
      length-load_shards (suc idx) per_shard _ ∙ length-set shards idx _

  load_shards-before :
      (idx j : ℕ) (per_shard : List (List Entry)) (shards : List LruCache)
      → j < idx
      → get_or (load_shards L idx per_shard shards) j (new 1) ≡ get_or shards j (new 1)
  unfolding load_shards
  load_shards-before idx j [] shards lt = refl
  load_shards-before idx j (entries ∷ per_shard) shards lt =
      load_shards-before (suc idx) j per_shard _ (omega arith)
      ∙ get_or-set_ne shards idx j _ (new 1) (λ e. omega arith)

  load_shards-at :
      (idx k j : ℕ) (per_shard : List (List Entry)) (shards : List LruCache)
      → idx + k ≡ j
      → k < length per_shard
      → j < length shards
      → get_or (load_shards L idx per_shard shards) j (new 1)
        ≡ put_all L (reverse (get_or per_shard k [])) (get_or shards j (new 1))
  unfolding load_shards
  load_shards-at idx k j [] shards e lt fits = absurd (omega arith)
  load_shards-at idx zero j (entries ∷ per_shard) shards e lt fits =
      let here : idx ≡ j = omega arith in
      subst
        (λ m.
          get_or
            (load_shards L (suc idx) per_shard
              (set shards idx (put_all L (reverse entries) (get_or shards idx (new 1)))))
            m (new 1)
          ≡ put_all L (reverse entries) (get_or shards m (new 1)))
        here
        (load_shards-before (suc idx) idx per_shard _ (omega arith)
          ∙ get_or-set_self shards idx _ (new 1) (omega arith))
  load_shards-at idx (suc k) j (entries ∷ per_shard) shards e lt fits =
      load_shards-at (suc idx) k j per_shard _ (omega arith) (omega arith) (
        omega
          (arith, length-set shards idx (put_all L (reverse entries) (get_or shards idx (new 1)))))
      ∙ ap (put_all L (reverse (get_or per_shard k [])))
          (get_or-set_ne shards idx j _ (new 1) (λ same. omega arith))

  get_or-map_iter :
      (shards : List LruCache) (i : ℕ)
      → i < length shards
      → get_or (map iter shards) i [] ≡ iter (get_or shards i (new 1))
  get_or-map_iter [] i lt = absurd (omega arith)
  get_or-map_iter (s ∷ shards) zero lt = refl
  get_or-map_iter (s ∷ shards) (suc i) lt = get_or-map_iter shards i (omega arith)

  -- One shard of a fresh cache, loaded with the entries of a valid shard.
  module _ (old fresh : List LruCache) (valid : ShardsOk L old) (empty : ShardsOk L fresh) where
    pub load_shards-iter :
        (i : ℕ)
        → i < num_shards
        → iter (get_or fresh i (new 1)) ≡ []
        → length (iter (get_or old i (new 1))) ≤ cap (get_or fresh i (new 1))
        → (iter (get_or (load_shards L 0 (map iter old) fresh) i (new 1))
            ≡ iter (get_or old i (new 1)))
          × ShardOk L i (get_or (load_shards L 0 (map iter old) fresh) i (new 1))
    load_shards-iter i lt clear fits =
        let entries = iter (get_or old i (new 1)) in
        let s = get_or fresh i (new 1) in
        let at : get_or (load_shards L 0 (map iter old) fresh) i (new 1)
            ≡ put_all L (reverse entries) s =
          load_shards-at 0 i i (map iter old) fresh (omega arith)
            (omega (arith, length-map old iter, valid.sixteen)) (omega (arith, empty.sixteen))
          ∙ ap (λ l. put_all L (reverse l) s)
              (get_or-map_iter old i (omega (arith, valid.sixteen))) in
        let ok_old = valid.each i lt in
        let (holds, room) = put_all-reverse entries s clear ok_old.distinct fits in
        (
          ap iter at ∙ holds,
          subst (ShardOk L i) (sym at) (record {
            room = rw room (empty.each i lt).room;
            fits = rw (holds, room) fits;
            distinct = rw holds ok_old.distinct;
            home = rw holds ok_old.home;
          }),
        )
