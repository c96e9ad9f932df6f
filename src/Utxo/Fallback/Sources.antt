-- ===== src/Utxo/Fallback/Sources.antt =====
-- Where the outputs of `get_many_with_fallback` come from.
use bitcoin_chain_graph.Common.{
  ◌≡◌, refl, sym, ap, ◌∙◌, ◌⊎◌, inl, inr, Bool, true, false, not, ◌&&◌, List, [], ◌∷◌, map, Option,
  none, some, Option-cases, List-cases, if◌then◌else◌,
}
use bitcoin_chain_graph.Common.Result.{Result, ok, Result-cases, err-ok, ok-inj}
use bitcoin_chain_graph.Writer.Error.{WriterError}
use bitcoin_chain_graph.Writer.Data.{OutputLookupResult}
use bitcoin_chain_graph.Writer.Graph.{GraphWriter}
use bitcoin_chain_graph.Utxo.Key.{UtxoKey}
use bitcoin_chain_graph.Utxo.Output.{CachedOutput}
use bitcoin_chain_graph.Utxo.OutputId.{TxidText, to_output_id_string}
use bitcoin_chain_graph.Utxo.Lru.{LruCrate}
use bitcoin_chain_graph.Utxo.Stats.{StatsOk, record_neo4j_fallback}
use bitcoin_chain_graph.Utxo.Cache.{UtxoCache, FoundMap, found_get, get_many, is_some}
use bitcoin_chain_graph.Utxo.Cache.Shards.{ShardsOk, find}
use bitcoin_chain_graph.Utxo.Cache.Groups.{member}
use bitcoin_chain_graph.Utxo.Cache.Batch.{get_many-find}
use bitcoin_chain_graph.Utxo.Fallback.{
  result_get, cached_of, Resolving, resolve_all, fallback_result, fallback, get_many_with_fallback,
}
use bitcoin_chain_graph.Utxo.Fallback.Resolve.{
  is_none, over, row, resolve_all-found, resolve_all-missing,
}

module _ (L : LruCrate) (T : TxidText) (W : GraphWriter) (keys : List UtxoKey) (found : FoundMap)
    (misses : List UtxoKey) (db : W.Db) (c : UtxoCache L.LruCache) where
  open L use {LruCache}

  -- The start of the loop over the misses.
  abbrev start : Resolving L T
  start = record {
    cache = record c { stats = record_neo4j_fallback c.stats };
    found = found;
    still_missing = [];
  }

  abbrev answer : Result WriterError (List OutputLookupResult)
  answer = (W.lookup_outputs_batch (map (to_output_id_string T) misses) db).1

  fallback-ok :
      (result : FoundMap) (q : UtxoKey)
      → (fallback L T W keys found misses (db, c)).1 ≡ ok result
      → (rows : List OutputLookupResult) × (answer ≡ ok rows)
        × (found_get q result ≡ (
            if member q misses
            then over (row L T rows q) (found_get q found)
            else found_get q found))
        × ((member q misses && is_none (row L T rows q)) ≡ false)
  unfolding fallback fallback_result member
  fallback-ok result q e = elim (Result-cases answer) [
    | inr (f, failed) ↦ absurd (err-ok f result (rw (failed, fallback) at e))
    | inl (rows, got) ↦
        let r = resolve_all L T rows misses start in
        let e' : fallback_result L T W keys r ≡ ok result = rw (got, fallback) at e in
        elim (List-cases r.still_missing) [
          | inr (m, ms, more) ↦ absurd (err-ok _ result (rw (more, fallback_result) at e'))
          | inl all ↦
              let same : r.found ≡ result = ok-inj _ _ (rw (all, fallback_result) at e') in
              let none_left =
                sym (resolve_all-missing L T rows misses q start) ∙ ap (member q) all in
              (
                rows,
                got,
                sym (ap (found_get q) same) ∙ resolve_all-found L T rows misses q start,
                none_left,
              )
        ]
  ]

false-true : false ≡ true → ⊥
false-true h = cc

abbrev pick : Bool → Option OutputLookupResult → Option CachedOutput → Option CachedOutput
pick b o old = if b then over o old else old

module _ (L : LruCrate) (T : TxidText) (W : GraphWriter) (keys : List UtxoKey)
    (c : UtxoCache L.LruCache) (db : W.Db) (valid : ShardsOk L c.shards)
    (st : StatsOk c.stats) where
  -- On a valid cache whose counters are 64-bit numbers: when `get_many_with_fallback` succeeds,
  -- every key that was asked for has an output in the map, namely the cached one, or, if the
  -- cache had none, the one of the last row that the database sent for the key's output id.
  pub get_many_with_fallback-ok :
      (found : FoundMap) (q : UtxoKey)
      → (get_many_with_fallback L T W keys (db, c)).1 ≡ ok found
      → member q keys ≡ true
      → (v : CachedOutput) × (found_get q found ≡ some v)
        × ((find L c.shards q ≡ some v)
            ⊎ ((find L c.shards q ≡ none)
                × ((rows : List OutputLookupResult) × ((W.lookup_outputs_batch
                        (map (to_output_id_string T) (get_many L keys c).2)
                        db).1
                      ≡ ok rows)
                    × ((r : OutputLookupResult) × (result_get rows (to_output_id_string T q)
                          ≡ some r)
                        × (v ≡ cached_of r)))))
  unfolding get_many_with_fallback member
  get_many_with_fallback-ok found q e asked =
      let (_, _, looked_up, missed) = get_many-find L keys c valid st q in
      let (c', there, misses) = get_many L keys c in
      let known : found_get q there ≡ find L c.shards q =
        looked_up ∙ ap (λ b. if b then find L c.shards q else none) asked in
      let absent : member q misses ≡ not (is_some (find L c.shards q)) =
        missed ∙ ap (λ b. b && not (is_some (find L c.shards q))) asked in
      elim (List-cases misses) [
        | inl all ↦
            let same : there ≡ found = ok-inj _ _ (rw (all, get_many_with_fallback) at e) in
            elim (Option-cases (find L c.shards q)) [
              | inl out ↦
                  absurd
                    (false-true (sym (ap (member q) all) ∙ absent ∙ ap (λ o. not (is_some o)) out))
              | inr (v, here) ↦ (v, sym (ap (found_get q) same) ∙ known ∙ here, inl here)
            ]
        | inr (m, ms, more) ↦
            let (rows, got, filled, left) =
              fallback-ok L T W keys there (m ∷ ms) db c' found q
                (rw (more, get_many_with_fallback) at e) in
            let missing = sym (ap (member q) more) ∙ absent in
            elim (Option-cases (find L c.shards q)) [
              | inr (v, here) ↦
                  let hit = missing ∙ ap (λ o. not (is_some o)) here in
                  (
                    v,
                    filled
                        ∙ ap (λ b. pick b (row L T rows q) (found_get q there)) hit
                        ∙ known
                        ∙ here,
                    inl here,
                  )
              | inl out ↦
                  let miss = missing ∙ ap (λ o. not (is_some o)) out in
                  elim (Option-cases (row L T rows q)) [
                    | inl no_row ↦ absurd (
                        false-true (
                          sym left
                          ∙ ap (λ b. b && is_none (row L T rows q)) miss
                          ∙ ap is_none no_row))
                    | inr (r, at) ↦ (
                      cached_of r,
                      filled
                          ∙ ap (λ b. pick b (row L T rows q) (found_get q there)) miss
                          ∙ ap (λ o. over o (found_get q there)) at,
                      inr (out, (rows, rw more got, (r, at, refl))),
                    )
                  ]
            ]
      ]
