-- ===== src/Writer/Data.antt =====
-- The records that are written to the database (src/domain/models.rs). A text is its UTF-8 bytes,
-- but for the name of a script type and a status; a floating-point number is its 64 bits.
use Prim.Native.String.{String}
use bitcoin_chain_graph.Common.{ℕ, Bool, List, Option}
use bitcoin_chain_graph.Common.Int.{ℤ}

abbrev pub Text : Type 0
Text = List ℕ

pub record BlockData : Type 0 where
  pub height : ℕ
  pub hash : Text
  pub previous_hash : Text
  pub merkle_root : Text
  pub timestamp : ℤ
  pub bits : Text
  pub difficulty : ℕ
  pub nonce : ℕ
  pub version : ℤ
  pub tx_count : ℕ
  pub size : ℕ
  pub weight : ℕ

pub record TransactionData : Type 0 where
  pub txid : Text
  pub block_height : ℕ
  pub block_hash : Text
  pub timestamp : ℤ
  pub version : ℤ
  pub locktime : ℕ
  pub size : ℕ
  pub vsize : ℕ
  pub weight : ℕ
  pub is_coinbase : Bool
  pub total_input : Option ℕ
  pub total_output : Option ℕ
  pub fee : Option ℕ

pub record OutputData : Type 0 where
  pub output_id : Text
  pub output_index : ℕ
  pub txid : Text
  pub amount : ℕ
  pub script_pubkey : Text
  pub script_type : String
  pub address : Option Text

pub record InputData : Type 0 where
  pub input_id : Text
  pub input_index : ℕ
  pub txid : Text
  pub previous_txid : Text
  pub previous_output_index : ℕ
  pub script_sig : Text
  pub sequence : ℕ
  pub witness : List Text
  pub block_height : ℕ

pub record CheckpointData : Type 0 where
  pub last_processed_height : ℤ
  pub last_processed_hash : Text
  pub last_processed_file : Text
  pub last_processed_file_offset : Option ℕ
  pub timestamp : ℤ
  pub status : String

pub record PerformsData : Type 0 where
  pub from_address : Text
  pub to_txid : Text
  pub input_count : ℕ
  pub amount_spent : ℕ

pub record BenefitsToData : Type 0 where
  pub from_txid : Text
  pub to_address : Text
  pub output_count : ℕ
  pub amount_received : ℕ

pub record OutputLookupResult : Type 0 where
  pub output_id : Text
  pub output_index : ℕ
  pub amount : ℕ
  pub script_type : String
  pub address : Option Text
