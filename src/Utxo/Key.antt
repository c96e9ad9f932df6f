-- ===== src/Utxo/Key.antt =====
-- `UtxoKey` (src/domain/utxo/cache.rs): the 36 byte key of the cache and the shard it selects.
use bitcoin_chain_graph.Common.{
  ℕ, ◌-◌, ◌^◌, ◌<◌, ◌≡◌, List, bit_and, bit_xor, length, get_or, All, arith, ℕ_discrete,
}
use bitcoin_chain_graph.Common.Bits.{bit_and-le}

-- A byte string; `[u8; 32]` is one of length 32.
abbrev pub Bytes : Type 0
Bytes = List ℕ

pub record UtxoKey : Type 0 where
  pub txid : Bytes
  pub vout : ℕ

unfoldable pub UtxoKey-discrete : Discrete UtxoKey
UtxoKey-discrete = hlevel ℕ_discrete

-- The values of the Rust type: 32 bytes and a `u32`.
pub record IsKey (key : UtxoKey) : Type 0 where
  pub txid_length : length key.txid ≡ 32
  pub txid_bytes : All (λ b. b < 256) key.txid
  pub vout_u32 : key.vout < 2 ^ 32

abbrev pub num_shards : ℕ
num_shards = 16

-- Every index is below 32, so that no read is out of bounds.
unfoldable pub shard_index : UtxoKey → ℕ
shard_index key =
    let byte = λ (i : ℕ). get_or key.txid i 0 in
    let h =
      bit_xor
        (bit_xor (bit_xor (bit_xor (bit_xor (byte 0) (byte 7)) (byte 15)) (byte 23)) (byte 31))
        key.vout in
    bit_and h (num_shards - 1)

-- Every key selects one of the sixteen shards, so that `self.shards[idx]` never panics.
pub shard_index-lt : (key : UtxoKey) → shard_index key < num_shards
unfolding shard_index
shard_index-lt key = omega (arith, bit_and-le _ (num_shards - 1))
