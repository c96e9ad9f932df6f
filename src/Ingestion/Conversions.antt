-- ===== src/Ingestion/Conversions.antt =====
-- From the types of the bitcoin crate to the records that are written (src/domain/conversions.rs).
-- The arithmetic of `f64` is a parameter; a value is its 64 bits.
pub mod Ids
use Prim.Native.String.{String}
use bitcoin_chain_graph.Common.{
  ℕ, zero, suc, ◌+◌, ◌-◌, ◌*◌, ◌/◌, ◌%◌, ◌^◌, Bool, List, [], ◌∷◌, ◌++◌, map, Option, none, some,
  length, leb, if◌then◌else◌,
}
use bitcoin_chain_graph.Common.Int.{ℤ, pos, negsuc}
use bitcoin_chain_graph.Writer.Data.{Text, BlockData, TransactionData, OutputData, InputData}
use bitcoin_chain_graph.Utxo.OutputId.{TxidText, decimal}
use bitcoin_chain_graph.Parser.Bitcoin.{BitcoinCrate}
use bitcoin_chain_graph.Parser.Address.{ScriptType, AddressInfo, extract_address}

pub record F64 : Type 0 where
  pub of_u32 : ℕ → ℕ
  pub div : ℕ → ℕ → ℕ
  pub mul : ℕ → ℕ → ℕ
  pub two : ℕ
  pub powi : ℕ → ℤ → ℕ

-- The eight lower-case hex digits of `{:08x}`.
hex_digit : ℕ → ℕ
hex_digit d = if leb d 9 then 48 + d else 87 + d

hex_digits : ℕ → ℕ → Text
unfolding hex_digit
hex_digits zero n = []
hex_digits (suc k) n = hex_digits k (n / 16) ++ hex_digit (n % 16) ∷ []

-- `max_exp as i32 - curr_exp as i32`, times 8.
abbrev exponent_diff : ℕ → ℕ → ℤ
exponent_diff a b = if leb b a then pos ((a - b) * 8) else negsuc ((b - a) * 8 - 1)

unfoldable pub difficulty_from_bits : F64 → ℕ → ℕ
difficulty_from_bits F bits =
    let max_exp = 0x1d00ffff / 2 ^ 24 in
    let max_mant = 0x1d00ffff % 2 ^ 24 in
    let curr_exp = bits / 2 ^ 24 in
    let curr_mant = bits % 2 ^ 24 in
    let base_diff = F.div (F.of_u32 max_mant) (F.of_u32 curr_mant) in
    F.mul base_diff (F.powi F.two (exponent_diff max_exp curr_exp))

-- The name of a script type.
unfoldable pub type_name : ScriptType → String
type_name ScriptType.p2pkh = "P2PKH"
type_name ScriptType.p2sh = "P2SH"
type_name ScriptType.p2wpkh = "P2WPKH"
type_name ScriptType.p2wsh = "P2WSH"
type_name ScriptType.p2tr = "P2TR"
type_name ScriptType.p2pk = "P2PK"
type_name ScriptType.null_data = "NULL_DATA"
type_name ScriptType.unknown = "UNKNOWN"

-- `format!("{}:{}", txid, index)`.
unfoldable pub indexed_id : Text → ℕ → Text
unfolding decimal
indexed_id txid index = txid ++ b':' ∷ decimal index

module _ (B : BitcoinCrate) where
  unfoldable pub from_block : F64 → B.Block → ℕ → BlockData
  unfolding difficulty_from_bits hex_digits
  from_block F block height = record {
    height = height;
    hash = B.block_hash block;
    previous_hash = B.prev_blockhash block;
    merkle_root = B.merkle_root block;
    timestamp = pos (B.time block);
    bits = hex_digits 8 (B.bits block);
    difficulty = difficulty_from_bits F (B.bits block);
    nonce = B.nonce block;
    version = B.block_version block;
    tx_count = length (B.txdata block) % 2 ^ 32;
    size = B.block_size block;
    weight = B.block_weight block;
  }

  unfoldable pub from_transaction : B.Transaction → ℕ → Text → ℤ → TransactionData
  from_transaction tx block_height block_hash timestamp = record {
    txid = B.txid_text.to_hex (B.txid tx);
    block_height = block_height;
    block_hash = block_hash;
    timestamp = timestamp;
    version = B.version tx;
    locktime = B.lock_time tx;
    size = B.total_size tx;
    vsize = B.vsize tx;
    weight = B.weight tx;
    is_coinbase = B.is_coinbase tx;
    total_input = none;
    total_output = none;
    fee = none;
  }

  unfoldable pub from_output : B.TxOut → Text → ℕ → B.Network → OutputData
  unfolding extract_address type_name indexed_id
  from_output output txid output_index network =
      let info = extract_address B (B.script_pubkey output) network in
      record {
        output_id = indexed_id txid output_index;
        output_index = output_index;
        txid = txid;
        amount = B.value output;
        script_pubkey = B.to_hex_string (B.script_pubkey output);
        script_type = type_name info.script_type;
        address = info.address;
      }

  unfoldable pub from_input : B.TxIn → Text → ℕ → ℕ → InputData
  unfolding indexed_id
  from_input input txid input_index block_height = record {
    input_id = indexed_id txid input_index;
    input_index = input_index;
    txid = txid;
    previous_txid = B.txid_text.to_hex (B.previous_txid input);
    previous_output_index = B.previous_vout input;
    script_sig = B.to_hex_string (B.script_sig input);
    sequence = B.sequence input;
    witness = map B.hex_encode (B.witness input);
    block_height = block_height;
  }
