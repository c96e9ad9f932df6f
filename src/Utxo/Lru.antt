-- ===== src/Utxo/Lru.antt =====
-- The interface of the `lru` crate as the cache uses it, at its key and value types. The crate is
-- not part of the repository: its operations are fields, and the laws say what its documentation
-- promises, in terms of `iter`, which visits the entries from the most to the least recently used.
pub mod Entries
use bitcoin_chain_graph.Common.{ℕ, ◌≡◌, List, [], ◌∷◌, Option, length, take}
use bitcoin_chain_graph.Common.Assoc.{lookup, remove}
use bitcoin_chain_graph.Utxo.Key.{UtxoKey, UtxoKey-discrete}
use bitcoin_chain_graph.Utxo.Output.{CachedOutput}
use Entries.{Entry, promote}

pub record LruCrate : Type 1 where
  pub LruCache : Type 0
  pub new : ℕ → LruCache
  pub put : UtxoKey → CachedOutput → LruCache → LruCache
  pub get : UtxoKey → LruCache → LruCache × Option CachedOutput
  pub peek : UtxoKey → LruCache → Option CachedOutput
  pub pop : UtxoKey → LruCache → LruCache × Option CachedOutput
  pub len : LruCache → ℕ
  pub cap : LruCache → ℕ
  pub iter : LruCache → List Entry
  -- An empty cache with room for `n` entries.
  pub iter-new : (n : ℕ) → iter (new n) ≡ []
  pub cap-new : (n : ℕ) → cap (new n) ≡ n
  -- `put` makes the entry the most recent, in place of the key's old one, and keeps what fits.
  pub iter-put :
      (k : UtxoKey) (v : CachedOutput) (c : LruCache)
      → iter (put k v c) ≡ take (cap c) ((k, v) ∷ remove UtxoKey-discrete k (iter c))
  pub cap-put : (k : UtxoKey) (v : CachedOutput) (c : LruCache) → cap (put k v c) ≡ cap c
  -- `get` returns the value and makes a hit the most recent entry.
  pub get_lem : (k : UtxoKey) (c : LruCache) → (get k c).1 ≡ lookup UtxoKey-discrete k (iter c)
  pub iter-get : (k : UtxoKey) (c : LruCache) → iter (get k c).0 ≡ promote k (iter c)
  pub cap-get : (k : UtxoKey) (c : LruCache) → cap (get k c).0 ≡ cap c
  pub peek_lem : (k : UtxoKey) (c : LruCache) → peek k c ≡ lookup UtxoKey-discrete k (iter c)
  -- `pop` removes the entry and returns its value.
  pub pop_lem : (k : UtxoKey) (c : LruCache) → (pop k c).1 ≡ lookup UtxoKey-discrete k (iter c)
  pub iter-pop :
      (k : UtxoKey) (c : LruCache) → iter (pop k c).0 ≡ remove UtxoKey-discrete k (iter c)
  pub cap-pop : (k : UtxoKey) (c : LruCache) → cap (pop k c).0 ≡ cap c
  pub len_lem : (c : LruCache) → len c ≡ length (iter c)
