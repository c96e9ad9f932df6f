-- ===== src/Parser/BlockIndex/Record.antt =====
-- `parse_block_record` on a record that Bitcoin Core writes.
use native.Mathlib.Nat.{mod-eq_of_lt}
use bitcoin_chain_graph.Common.{
  ℕ, ◌^◌, ◌<◌, ◌≡◌, [], ◌++◌, bit_and, arith, ◌==◌, if◌then◌else◌, drop-length_append,
}
use bitcoin_chain_graph.Common.Result.{ok, err}
use bitcoin_chain_graph.Utxo.Key.{Bytes}
use bitcoin_chain_graph.Parser.BlockIndex.{
  not_on_main_chain, read_varint, parse_position, parse_block_record,
}
use bitcoin_chain_graph.Parser.BlockIndex.Varint.{encode_varint, decode_varint-encode_varint}

read_varint-encode_varint :
    (n : ℕ) (rest : Bytes) → n < 2 ^ 64 → read_varint (encode_varint n ++ rest) ≡ ok (n, rest)
unfolding read_varint
read_varint-encode_varint n rest small =
    rw (decode_varint-encode_varint n rest small, drop-length_append (encode_varint n) rest)

-- A block's record with its numbers, the last two the position in the block files.
unfoldable pub encode_record : ℕ → ℕ → ℕ → ℕ → ℕ → ℕ → Bytes → Bytes
encode_record version height status tx_count file_number file_offset rest =
    encode_varint version
    ++ (encode_varint height
        ++ (encode_varint status
            ++ (encode_varint tx_count
                ++ (encode_varint file_number ++ (encode_varint file_offset ++ rest)))))

-- A record whose numbers are in range for their types is read back: the entry has its height, its
-- status, its number of transactions and its position, when the status has the bit 4 or the bit 8;
-- with neither bit the answer is the error, whatever else the record says.
pub parse_block_record-encode_record :
    (hash : Bytes) (version height status tx_count file_number file_offset : ℕ) (rest : Bytes)
    → version < 2 ^ 64
    → height < 2 ^ 32
    → status < 2 ^ 64
    → tx_count < 2 ^ 32
    → file_number < 2 ^ 32
    → file_offset < 2 ^ 64
    → parse_block_record hash
        (encode_record version height status tx_count file_number file_offset rest)
      ≡ (if bit_and status 12 == 0
          then err not_on_main_chain
          else ok (record {
            height = height;
            hash = hash;
            prev_hash = [];
            file_number = file_number;
            file_offset = file_offset;
            block_size = 0;
            tx_count = tx_count;
            status = status;
          }))
unfolding parse_block_record parse_position encode_record
parse_block_record-encode_record hash version height status tx_count file_number file_offset rest hv
      hh hs ht hn ho =
    let r5 = encode_varint file_offset ++ rest in
    let r4 = encode_varint file_number ++ r5 in
    let r3 = encode_varint tx_count ++ r4 in
    let r2 = encode_varint status ++ r3 in
    let r1 = encode_varint height ++ r2 in
    rw (
      read_varint-encode_varint version r1 hv,
      read_varint-encode_varint height r2 (omega arith),
      read_varint-encode_varint status r3 hs,
      read_varint-encode_varint tx_count r4 (omega arith),
      read_varint-encode_varint file_number r5 (omega arith),
      read_varint-encode_varint file_offset rest ho,
      mod-eq_of_lt hh,
      mod-eq_of_lt ht,
      mod-eq_of_lt hn,
    )
