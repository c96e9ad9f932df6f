-- ===== src/Utxo/Fallback.antt =====
-- `get_many_with_fallback` (src/domain/utxo/cache.rs): what the cache misses is asked of the
-- database, and put into the cache.
pub mod Resolve
pub mod Sources
use bitcoin_chain_graph.Common.{
  ℕ, List, [], ◌∷◌, ◌++◌, map, Option, none, some, length, take, if◌then◌else◌,
}
use bitcoin_chain_graph.Common.Result.{Result, ok, err}
use bitcoin_chain_graph.Common.Exec.{Exec}
use bitcoin_chain_graph.Writer.Error.{WriterError, query_failed, missing_after_fallback}
use bitcoin_chain_graph.Writer.Data.{Text, OutputLookupResult}
use bitcoin_chain_graph.Writer.Graph.{GraphWriter}
use bitcoin_chain_graph.Writer.Mock.Queries.{text_eq}
use bitcoin_chain_graph.Utxo.Key.{UtxoKey}
use bitcoin_chain_graph.Utxo.Output.{CachedOutput, from_str}
use bitcoin_chain_graph.Utxo.OutputId.{TxidText, to_output_id_string}
use bitcoin_chain_graph.Utxo.Lru.{LruCrate}
use bitcoin_chain_graph.Utxo.Stats.{record_neo4j_fallback}
use bitcoin_chain_graph.Utxo.Cache.{UtxoCache, FoundMap, found_insert, get_many, insert}

-- `result_map.get`, of the map that is collected from the rows: the last row of an id counts.
unfoldable pub result_get : List OutputLookupResult → Text → Option OutputLookupResult
unfolding text_eq
result_get [] id = none
result_get (r ∷ rows) id = elim (result_get rows id) [
  | some later ↦ some later
  | none ↦ if text_eq r.output_id id then some r else none
]

unfoldable pub cached_of : OutputLookupResult → CachedOutput
unfolding from_str
cached_of lookup = record {
  output_index = lookup.output_index;
  amount = lookup.amount;
  script_type = from_str lookup.script_type;
  address = lookup.address;
}

module _ (L : LruCrate) (T : TxidText) where
  open L use {LruCache}

  -- The cache, the map, and the keys that are still missing.
  pub record Resolving : Type 0 where
    pub cache : UtxoCache LruCache
    pub found : FoundMap
    pub still_missing : List UtxoKey

  -- One miss: into the cache and the map, or to the missing ones.
  unfoldable pub resolve_one : List OutputLookupResult → UtxoKey → Resolving → Resolving
  unfolding result_get cached_of insert
  resolve_one rows key r = elim (result_get rows (to_output_id_string T key)) [
    | none ↦ record r { still_missing = r.still_missing ++ key ∷ [] }
    | some lookup ↦ record r {
      cache = insert L key (cached_of lookup) r.cache;
      found = found_insert key (cached_of lookup) r.found;
    }
  ]

  -- `for miss_key in &misses`.
  unfoldable pub resolve_all : List OutputLookupResult → List UtxoKey → Resolving → Resolving
  unfolding resolve_one
  resolve_all rows [] r = r
  resolve_all rows (key ∷ keys) r = resolve_all rows keys (resolve_one rows key r)

  module _ (W : GraphWriter) where
    open W use {Db, lookup_outputs_batch}

    -- The message of the keys that remain, or the map.
    unfoldable pub fallback_result : List UtxoKey → Resolving → Result WriterError FoundMap
    fallback_result keys r = elim r.still_missing [
      | [] ↦ ok r.found
      | m ∷ ms ↦ err (
          query_failed (
            missing_after_fallback (length (m ∷ ms)) (length keys)
              (map (to_output_id_string T) (take 5 (m ∷ ms)))))
    ]

    -- The misses of the first look-up, asked of the database.
    unfoldable pub fallback :
        List UtxoKey → FoundMap → List UtxoKey → Exec (Db × UtxoCache LruCache) WriterError FoundMap
    unfolding resolve_all fallback_result
    fallback keys found misses (db, c) =
        let c' = record c { stats = record_neo4j_fallback c.stats } in
        let (db', answer) = lookup_outputs_batch (map (to_output_id_string T) misses) db in
        elim answer [
          | err e ↦ ((db', c'), err e)
          | ok rows ↦
              let r =
                resolve_all rows misses
                  (record { cache = c'; found = found; still_missing = [] }) in
              ((db', r.cache), fallback_result keys r)
        ]

    unfoldable pub get_many_with_fallback :
        List UtxoKey → Exec (Db × UtxoCache LruCache) WriterError FoundMap
    unfolding get_many fallback
    get_many_with_fallback keys (db, c) =
        let (c', found, misses) = get_many L keys c in
        elim misses [ [] ↦ ((db, c'), ok found) | m ∷ ms ↦ fallback keys found (m ∷ ms) (db, c') ]
