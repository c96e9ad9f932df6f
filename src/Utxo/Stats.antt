-- ===== src/Utxo/Stats.antt =====
-- `AtomicUtxoCacheStats` and its snapshot `UtxoCacheStats` (src/domain/utxo/cache.rs). Each counter
-- is a `u64`; an atomic `fetch_add` and `fetch_sub` wrap around.
use bitcoin_chain_graph.Common.{ℕ, ◌+◌, ◌-◌, ◌%◌, ◌^◌, ◌<◌}

abbrev pub u64_mod : ℕ
u64_mod = 2 ^ 64

pub record Stats : Type 0 where
  pub hits : ℕ
  pub misses : ℕ
  pub inserts : ℕ
  pub removals : ℕ
  pub neo4j_fallbacks : ℕ

abbrev pub fetch_add : ℕ → ℕ → ℕ
fetch_add a n = (a + n) % u64_mod

-- `count` is a `u64`, so it is at most the modulus.
abbrev pub fetch_sub : ℕ → ℕ → ℕ
fetch_sub a n = (a + u64_mod - n) % u64_mod

abbrev pub new_stats : Stats
new_stats = record { hits = 0; misses = 0; inserts = 0; removals = 0; neo4j_fallbacks = 0 }

unfoldable pub record_hit : Stats → Stats
record_hit s = record s { hits = fetch_add s.hits 1 }

unfoldable pub record_miss : Stats → Stats
record_miss s = record s { misses = fetch_add s.misses 1 }

unfoldable pub record_insert : Stats → Stats
record_insert s = record s { inserts = fetch_add s.inserts 1 }

unfoldable pub record_removal : Stats → Stats
record_removal s = record s { removals = fetch_add s.removals 1 }

unfoldable pub record_neo4j_fallback : Stats → Stats
record_neo4j_fallback s = record s { neo4j_fallbacks = fetch_add s.neo4j_fallbacks 1 }

unfoldable pub adjust_stats_misses : ℕ → Stats → Stats
adjust_stats_misses count s = record s { misses = fetch_sub s.misses count }

-- Every counter is a `u64`.
pub record StatsOk (s : Stats) : Type 0 where
  pub hits_u64 : s.hits < u64_mod
  pub misses_u64 : s.misses < u64_mod
  pub inserts_u64 : s.inserts < u64_mod
  pub removals_u64 : s.removals < u64_mod
  pub neo4j_fallbacks_u64 : s.neo4j_fallbacks < u64_mod
