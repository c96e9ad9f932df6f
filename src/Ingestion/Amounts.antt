-- ===== src/Ingestion/Amounts.antt =====
-- What a batch is turned into before it is written (src/domain/ingestion.rs): the keys of its inputs,
-- the rows of its outputs and inputs, and the amounts by transaction and by address. A `HashMap`
-- keeps its entries in the order of first insertion. Sums of `u32` and `u64` wrap around.
pub mod Totals
use bitcoin_chain_graph.Common.{
  ℕ, zero, suc, ◌+◌, ◌-◌, ◌*◌, ◌%◌, ◌^◌, Bool, true, false, List, [], ◌∷◌, ◌++◌, map, Option, none,
  some, length, take, drop, ℕ_discrete, if◌then◌else◌,
}
use bitcoin_chain_graph.Common.Assoc
use bitcoin_chain_graph.Common.Int.{ℤ, pos}
use bitcoin_chain_graph.Writer.Data.{
  Text, BlockData, TransactionData, OutputData, InputData, PerformsData, BenefitsToData,
}
use bitcoin_chain_graph.Utxo.Key.{UtxoKey}
use bitcoin_chain_graph.Utxo.Output.{CachedOutput, from_str}
use bitcoin_chain_graph.Utxo.OutputId.{from_hex_txid}
use bitcoin_chain_graph.Utxo.Cache.{FoundMap, found_get}
use bitcoin_chain_graph.Parser.Bitcoin.{BitcoinCrate}
use bitcoin_chain_graph.Ingestion.Conversions.{
  F64, from_block, from_transaction, from_output, from_input,
}

unfoldable pub Text-discrete : Discrete Text
Text-discrete = hlevel ℕ_discrete

abbrev pub add_u32 : ℕ → ℕ → ℕ
add_u32 a b = (a + b) % 2 ^ 32

abbrev pub add_u64 : ℕ → ℕ → ℕ
add_u64 a b = (a + b) % 2 ^ 64

-- `&xs[a..b]`.
abbrev pub slice {ℓ} : {A : Type ℓ} → ℕ × ℕ → List A → List A
slice (a, b) xs = take (b - a) (drop a xs)

-- By address: how many outputs or inputs, and their amount.
abbrev pub AmountMap : Type 0
AmountMap = List (Text × (ℕ × ℕ))

abbrev pub entry_or : Option (ℕ × ℕ) → ℕ × ℕ
entry_or none = (0, 0)
entry_or (some e) = e

-- `entry(address).or_insert((0, 0))`, then `+= 1` and `+= amount`.
unfoldable pub tally : Text → ℕ → AmountMap → AmountMap
tally address amount m =
    let (count, total) = entry_or (Assoc.lookup Text-discrete address m) in
    Assoc.insert Text-discrete address (add_u32 count 1, add_u64 total amount) m

unfoldable pub tally_address : Option Text → ℕ → AmountMap → AmountMap
unfolding tally
tally_address none amount m = m
tally_address (some address) amount m = tally address amount m

unfoldable pub benefits_of : Text → AmountMap → List BenefitsToData
benefits_of txid [] = []
benefits_of txid ((address, (output_count, amount_received)) ∷ m) =
    record {
      from_txid = txid;
      to_address = address;
      output_count = output_count;
      amount_received = amount_received;
    }
    ∷ benefits_of txid m

unfoldable pub performs_of : Text → AmountMap → List PerformsData
performs_of txid [] = []
performs_of txid ((address, (input_count, amount_spent)) ∷ m) =
    record {
      from_address = address;
      to_txid = txid;
      input_count = input_count;
      amount_spent = amount_spent;
    }
    ∷ performs_of txid m

-- The cache's view of a row.
unfoldable pub cached_row : OutputData → CachedOutput
unfolding from_str
cached_row output = record {
  output_index = output.output_index;
  amount = output.amount;
  script_type = from_str output.script_type;
  address = output.address;
}

-- The loop over the keys of one transaction: the sum, and the map by address.
unfoldable pub spend_loop : FoundMap → List UtxoKey → ℕ × AmountMap → ℕ × AmountMap
unfolding tally_address
spend_loop found [] acc = acc
spend_loop found (key ∷ keys) (sum, m) = elim (found_get key found) [
  | none ↦ spend_loop found keys (sum, m)
  | some output ↦
      spend_loop found keys
        (add_u64 sum output.amount, tally_address output.address output.amount m)
]

module _ (B : BitcoinCrate) where
  open B use {Block, Transaction, TxIn, TxOut, txdata, inputs, outputs, is_coinbase, value}

  -- `(height, block, file_name)`.
  abbrev pub Item : Type 0
  Item = ℕ × Block × Text

  unfoldable pub from_outpoint : TxIn → UtxoKey
  from_outpoint input = record { txid = B.previous_txid input; vout = B.previous_vout input }

  abbrev pub txid_hex : Transaction → Text
  txid_hex tx = B.txid_text.to_hex (B.txid tx)

  unfoldable pub tx_keys : Transaction → List UtxoKey
  unfolding from_outpoint
  tx_keys tx = if is_coinbase tx then [] else map from_outpoint (inputs tx)

  unfoldable pub txs_keys : List Transaction → List UtxoKey
  unfolding tx_keys
  txs_keys [] = []
  txs_keys (tx ∷ txs) = tx_keys tx ++ txs_keys txs

  unfoldable pub collect_input_keys : List Item → List UtxoKey
  unfolding txs_keys
  collect_input_keys [] = []
  collect_input_keys ((height, block, file_name) ∷ items) =
      txs_keys (txdata block) ++ collect_input_keys items

  unfoldable pub count_outputs : List Transaction → ℕ
  count_outputs [] = 0
  count_outputs (tx ∷ txs) = length (outputs tx) + count_outputs txs

  unfoldable pub count_inputs : List Transaction → ℕ
  count_inputs [] = 0
  count_inputs (tx ∷ txs) = length (inputs tx) + count_inputs txs

  unfoldable pub estimate_block_memory : Block → ℕ
  unfolding count_outputs count_inputs
  estimate_block_memory block =
      let txs = txdata block in
      (3500 + length txs * 3000 + count_outputs txs * 3500 + count_inputs txs * 2500) % 2 ^ 64

  unfoldable pub sum_values : List TxOut → ℕ
  sum_values [] = 0
  sum_values (output ∷ outs) = add_u64 (value output) (sum_values outs)

  -- The rows of a transaction's inputs.
  unfoldable pub input_rows : Text → ℕ → ℕ → List TxIn → List InputData
  unfolding from_input
  input_rows txid height index [] = []
  input_rows txid height index (input ∷ rest) =
      from_input B input txid (index % 2 ^ 32) height ∷ input_rows txid height (suc index) rest

  unfoldable pub txs_input_rows : ℕ → List Transaction → List InputData
  unfolding input_rows
  txs_input_rows height [] = []
  txs_input_rows height (tx ∷ txs) =
      input_rows (txid_hex tx) height 0 (inputs tx) ++ txs_input_rows height txs

  unfoldable pub chunk_input_rows : List Item → List InputData
  unfolding txs_input_rows
  chunk_input_rows [] = []
  chunk_input_rows ((height, block, file_name) ∷ items) =
      txs_input_rows height (txdata block) ++ chunk_input_rows items

  module _ (network : B.Network) where
    -- The rows of a transaction's outputs, and the map that is built with them.
    unfoldable pub output_loop :
        Text → ℕ → List TxOut → List OutputData × AmountMap → List OutputData × AmountMap
    unfolding from_output tally_address
    output_loop txid index [] acc = acc
    output_loop txid index (output ∷ rest) (rows, m) =
        let row = from_output B output txid (index % 2 ^ 32) network in
        output_loop txid (suc index) rest
          (rows ++ row ∷ [], tally_address row.address (value output) m)

    -- `for tx in &block.txdata`: all rows, and the BENEFITS_TO rows.
    unfoldable pub txs_outputs :
        List Transaction
        → List OutputData × List BenefitsToData
        → List OutputData × List BenefitsToData
    unfolding output_loop benefits_of
    txs_outputs [] acc = acc
    txs_outputs (tx ∷ txs) (rows, benefits) =
        let (rows', m) = output_loop (txid_hex tx) 0 (outputs tx) (rows, []) in
        txs_outputs txs (rows', benefits ++ benefits_of (txid_hex tx) m)

    unfoldable pub chunk_outputs :
        List Item → List OutputData × List BenefitsToData → List OutputData × List BenefitsToData
    unfolding txs_outputs
    chunk_outputs [] acc = acc
    chunk_outputs ((height, block, file_name) ∷ items) acc =
        chunk_outputs items (txs_outputs (txdata block) acc)

  -- A transaction whose input keys stand at a range of the list of all keys.
  pub record PendingTx : Type 0 where
    pub tx : Transaction
    pub block_height : ℕ
    pub block_hash : Text
    pub timestamp : ℤ
    pub key_range : ℕ × ℕ

  unfoldable pub pend_txs :
      ℕ
      → Text
      → ℤ
      → List Transaction
      → List UtxoKey × List PendingTx
      → List UtxoKey × List PendingTx
  unfolding tx_keys
  pend_txs height hash timestamp [] acc = acc
  pend_txs height hash timestamp (tx ∷ txs) (keys, pending) =
      let keys' = keys ++ tx_keys tx in
      pend_txs height hash timestamp txs (
        keys',
        pending
            ++ record {
              tx = tx;
              block_height = height;
              block_hash = hash;
              timestamp = timestamp;
              key_range = (length keys, length keys');
            }
              ∷ [],
      )

  unfoldable pub pend_chunk :
      List Item → List UtxoKey × List PendingTx → List UtxoKey × List PendingTx
  unfolding pend_txs
  pend_chunk [] acc = acc
  pend_chunk ((height, block, file_name) ∷ items) acc =
      pend_chunk items
        (pend_txs height (B.block_hash block) (pos (B.time block)) (txdata block) acc)

  -- The amounts of a transaction, and its PERFORMS rows.
  unfoldable pub priced : FoundMap → List UtxoKey → PendingTx → TransactionData × List PerformsData
  unfolding from_transaction spend_loop performs_of sum_values
  priced found keys p =
      let (total_input, m) =
        if is_coinbase p.tx then (0, []) else spend_loop found (slice p.key_range keys) (0, []) in
      let total_output = sum_values (outputs p.tx) in
      (
        record (from_transaction B p.tx p.block_height p.block_hash p.timestamp) {
          total_input = some total_input;
          total_output = some total_output;
          fee = some (total_input - total_output);
        },
        performs_of (txid_hex p.tx) m,
      )

  unfoldable pub price_all :
      FoundMap
      → List UtxoKey
      → List PendingTx
      → List TransactionData × List PerformsData
      → List TransactionData × List PerformsData
  unfolding priced
  price_all found keys [] acc = acc
  price_all found keys (p ∷ ps) (rows, performs) =
      let (row, more) = priced found keys p in
      price_all found keys ps (rows ++ row ∷ [], performs ++ more)

  unfoldable pub block_rows : F64 → List Item → List BlockData
  unfolding from_block
  block_rows F [] = []
  block_rows F ((height, block, file_name) ∷ items) =
      from_block B F block height ∷ block_rows F items
