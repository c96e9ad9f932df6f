-- ===== src/Parser/Bitcoin.antt =====
-- The bitcoin crate as the code uses it: blocks, transactions, inputs, outputs and scripts, by what
-- is read from them. The crate is not part of the repository. A hash or an address that the code
-- turns into a text stands as that text, and `hex::encode` is a field.
use bitcoin_chain_graph.Common.{ℕ, ◌≡◌, Bool, List, Option, length}
use bitcoin_chain_graph.Common.Int.{ℤ}
use bitcoin_chain_graph.Utxo.Key.{Bytes}
use bitcoin_chain_graph.Utxo.OutputId.{TxidText}
use bitcoin_chain_graph.Writer.Data.{Text}

-- An instruction of a script: pushed bytes, an opcode, or one that cannot be read.
pub data Instruction : Type 0 where
  push_bytes : Bytes → Instruction
  op : ℕ → Instruction
  invalid : Instruction

pub record BitcoinCrate : Type 1 where
  pub Block : Type 0
  pub Transaction : Type 0
  pub TxIn : Type 0
  pub TxOut : Type 0
  pub Script : Type 0
  pub Network : Type 0
  pub PublicKey : Type 0
  pub txid_text : TxidText
  -- Of a block, and of its header.
  pub block_hash : Block → Text
  pub txdata : Block → List Transaction
  pub prev_blockhash : Block → Text
  pub merkle_root : Block → Text
  pub time : Block → ℕ
  pub bits : Block → ℕ
  pub nonce : Block → ℕ
  pub block_version : Block → ℤ
  pub block_size : Block → ℕ
  pub block_weight : Block → ℕ
  -- Of a transaction.
  pub txid : Transaction → Bytes
  pub length-txid : (tx : Transaction) → length (txid tx) ≡ 32
  pub is_coinbase : Transaction → Bool
  pub inputs : Transaction → List TxIn
  pub outputs : Transaction → List TxOut
  pub version : Transaction → ℤ
  pub lock_time : Transaction → ℕ
  pub total_size : Transaction → ℕ
  pub vsize : Transaction → ℕ
  pub weight : Transaction → ℕ
  -- Of an input and of an output.
  pub previous_txid : TxIn → Bytes
  pub previous_vout : TxIn → ℕ
  pub script_sig : TxIn → Script
  pub sequence : TxIn → ℕ
  pub witness : TxIn → List Bytes
  pub value : TxOut → ℕ
  pub script_pubkey : TxOut → Script
  -- Of a script. `from_script` is `none` for its error.
  pub to_hex_string : Script → Text
  pub script_len : Script → ℕ
  pub is_op_return : Script → Bool
  pub is_p2pkh : Script → Bool
  pub is_p2sh : Script → Bool
  pub is_witness_program : Script → Bool
  pub witness_version : Script → Option ℕ
  pub instructions : Script → List Instruction
  pub from_script : Script → Network → Option Text
  pub from_slice : Bytes → Option PublicKey
  pub p2pkh : PublicKey → Network → Text
  pub op_checksig : ℕ
  pub hex_encode : Bytes → Text
