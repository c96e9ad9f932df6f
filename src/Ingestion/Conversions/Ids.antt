-- ===== src/Ingestion/Conversions/Ids.antt =====
-- The row of an output (src/domain/conversions.rs) against the key that an input spends it under
-- (src/domain/utxo/cache.rs).
use bitcoin_chain_graph.Common.{ℕ, ◌≡◌, refl, sym, ap, some}
use bitcoin_chain_graph.Utxo.Key.{UtxoKey}
use bitcoin_chain_graph.Utxo.OutputId.{to_output_id_string, from_hex_txid}
use bitcoin_chain_graph.Parser.Bitcoin.{BitcoinCrate}
use bitcoin_chain_graph.Parser.Address.{ScriptType, extract_address}
use bitcoin_chain_graph.Utxo.Output.{ScriptTypeTag, from_str}
use bitcoin_chain_graph.Ingestion.Conversions.{from_output, type_name, indexed_id}
use bitcoin_chain_graph.Ingestion.Amounts.{from_outpoint, txid_hex, cached_row}

-- The tag of a script type.
unfoldable pub tag_of : ScriptType → ScriptTypeTag
tag_of ScriptType.p2pkh = ScriptTypeTag.p2pkh
tag_of ScriptType.p2sh = ScriptTypeTag.p2sh
tag_of ScriptType.p2wpkh = ScriptTypeTag.p2wpkh
tag_of ScriptType.p2wsh = ScriptTypeTag.p2wsh
tag_of ScriptType.p2tr = ScriptTypeTag.p2tr
tag_of ScriptType.p2pk = ScriptTypeTag.p2pk
tag_of ScriptType.null_data = ScriptTypeTag.null_data
tag_of ScriptType.unknown = ScriptTypeTag.unknown

-- The name of each script type is read back as its tag.
from_str-type_name : (t : ScriptType) → from_str (type_name t) ≡ tag_of t
unfolding from_str type_name tag_of
from_str-type_name ScriptType.p2pkh = refl
from_str-type_name ScriptType.p2sh = refl
from_str-type_name ScriptType.p2wpkh = refl
from_str-type_name ScriptType.p2wsh = refl
from_str-type_name ScriptType.p2tr = refl
from_str-type_name ScriptType.p2pk = refl
from_str-type_name ScriptType.null_data = refl
from_str-type_name ScriptType.unknown = refl

-- The row of output number `index` of a transaction, and an input that spends this output: the row
-- is cached under the key of the input, the row's id in the database is the id that a look-up of
-- that key asks for, and the cache's view of the row has the value of the output and the type and
-- address of its script.
pub from_output-from_outpoint :
    (B : BitcoinCrate) (network : B.Network) (tx : B.Transaction) (output : B.TxOut) (index : ℕ)
    (input : B.TxIn)
    → B.previous_txid input ≡ B.txid tx
    → B.previous_vout input ≡ index
    → let row = from_output B output (txid_hex B tx) index network in
      let info = extract_address B (B.script_pubkey output) network in
      (from_hex_txid B.txid_text row.txid row.output_index ≡ some (from_outpoint B input))
      × (row.output_id ≡ to_output_id_string B.txid_text (from_outpoint B input))
      × (cached_row row ≡ record {
        output_index = index;
        amount = B.value output;
        script_type = tag_of info.script_type;
        address = info.address;
      })
unfolding from_output from_outpoint to_output_id_string from_hex_txid cached_row indexed_id
from_output-from_outpoint B network tx output index input same_txid same_vout =
    let key : UtxoKey = record { txid = B.txid tx; vout = index } in
    let spent : from_outpoint B input ≡ key =
      λ i. record { txid = same_txid i; vout = same_vout i } in
    let info = extract_address B (B.script_pubkey output) network in
    (
      rw (B.txid_text.from_hex-to_hex (B.txid tx) (B.length-txid tx), from_hex_txid)
          (ap some (sym spent)),
      ap (to_output_id_string B.txid_text) (sym spent),
      λ i. record {
        output_index = index;
        amount = B.value output;
        script_type = from_str-type_name info.script_type i;
        address = info.address;
      },
    )
