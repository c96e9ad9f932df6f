-- ===== src/Parser/Zmq/Message.antt =====
-- Messages of Bitcoin Core, as `parse_hashblock_message` (src/parser/zmq_listener.rs) reads them.
use bitcoin_chain_graph.Common.{ℕ, ◌^◌, ◌<◌, ◌≡◌, List, ◌∷◌, reverse, some, length, ==_iff}
use bitcoin_chain_graph.Common.Result.{ok}
use bitcoin_chain_graph.Utxo.Key.{Bytes}
use bitcoin_chain_graph.Utxo.File.Load.{bytes_eq}
use bitcoin_chain_graph.Utxo.File.LittleEndian.{
  to_le_bytes, length-to_le_bytes, from_le_bytes-to_le_bytes,
}
use bitcoin_chain_graph.Parser.Zmq.{hashblock, parse_sequence, parse_hashblock_message}

-- A message as Bitcoin Core sends it, with a 32-byte hash and a 32-bit sequence number, is read as
-- the hex digits of the reversed hash and that number; further frames do not matter.
pub parse_hashblock_message-message :
    (hex : Bytes → Bytes) (hash : Bytes) (seq : ℕ) (more : List Bytes)
    → length hash ≡ 32
    → seq < 2 ^ 32
    → parse_hashblock_message hex (hashblock ∷ hash ∷ to_le_bytes 4 seq ∷ more)
      ≡ ok (hex (reverse hash), some seq)
unfolding parse_hashblock_message parse_sequence bytes_eq
parse_hashblock_message-message hex hash seq more size small = rw (
  (==_iff (length hash) 32).1 size,
  length-to_le_bytes 4 seq,
  from_le_bytes-to_le_bytes 4 seq small,
)
