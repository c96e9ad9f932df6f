-- ===== src/Parser/BlockIndex.antt =====
-- The records of Bitcoin Core's block index (src/parser/block_index.rs): `decode_varint` and
-- `parse_block_record`. A cursor into the data is given by the bytes that are left.
pub mod Varint
pub mod Record
pub mod Scan
use bitcoin_chain_graph.Common.{
  ℕ, zero, suc, ◌+◌, ◌-◌, ◌*◌, ◌%◌, ◌^◌, Bool, List, [], ◌∷◌, length, drop, bit_and, ltb, ◌==◌,
  if◌then◌else◌,
}
use bitcoin_chain_graph.Common.Result.{Result, ok, err, ◌>>=◌}
use bitcoin_chain_graph.Utxo.Key.{Bytes}

-- `IndexError` by its message: those of `ParseError`, of `Database` and of `CorruptIndex`.
pub data IndexError : Type 0 where
  unexpected_end too_large overflow not_on_main_chain invalid_hex : IndexError
  wrong_hash_length : ℕ → IndexError
  iterator_error no_blocks_found : IndexError
  non_sequential : ℕ → ℕ → IndexError

-- The loop, from the value and the number of bytes so far. The seven low bits of `n << 7` are zero,
-- so that `|` adds the new ones; a `u64` that is shifted loses its high bits.
unfoldable pub decode_from : ℕ → ℕ → Bytes → Result IndexError (ℕ × ℕ)
decode_from n bytes_read [] = err unexpected_end
decode_from n bytes_read (ch_data ∷ input) =
    let next = (n * 128) % 2 ^ 64 + ch_data % 128 in
    let rest = decode_from (suc next) (suc bytes_read) input in
    if ltb (2 ^ 57 - 1) n
    then err too_large
    else if ltb 127 ch_data
    then (if next == 2 ^ 64 - 1 then err overflow else rest)
    else ok (next, suc bytes_read)

unfoldable pub decode_varint : Bytes → Result IndexError (ℕ × ℕ)
unfolding decode_from
decode_varint input = decode_from 0 0 input

unfoldable pub read_varint : Bytes → Result IndexError (ℕ × Bytes)
unfolding decode_varint
read_varint input = do (value, bytes_read) ← decode_varint input; ok (value, drop bytes_read input)

pub record BlockIndexEntry : Type 0 where
  pub height : ℕ
  pub hash : Bytes
  pub prev_hash : Bytes
  pub file_number : ℕ
  pub file_offset : ℕ
  pub block_size : ℕ
  pub tx_count : ℕ
  pub status : ℕ

-- The file position, of a block whose status allows it.
unfoldable pub parse_position : Bytes → ℕ → ℕ → ℕ → Bytes → Result IndexError BlockIndexEntry
unfolding read_varint
parse_position hash height status tx_count input = do
  (file_num, r1) ← read_varint input
  (file_off, r2) ← read_varint r1
  ok (record {
    height = height;
    hash = hash;
    prev_hash = [];
    file_number = file_num % 2 ^ 32;
    file_offset = file_off;
    block_size = 0;
    tx_count = tx_count;
    status = status;
  })

unfoldable pub parse_block_record : Bytes → Bytes → Result IndexError BlockIndexEntry
unfolding parse_position
parse_block_record hash input = do
  (version, r1) ← read_varint input
  (height, r2) ← read_varint r1
  (status, r3) ← read_varint r2
  (tx_count, r4) ← read_varint r3
  if bit_and status 12 == 0
      then err not_on_main_chain
      else parse_position hash (height % 2 ^ 32) status (tx_count % 2 ^ 32) r4
