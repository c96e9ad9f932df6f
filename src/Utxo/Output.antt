-- ===== src/Utxo/Output.antt =====
-- `ScriptTypeTag` and `CachedOutput` (src/domain/utxo/cache.rs).
use Prim.Native.String.{String}
use text.Mathlib.Text.{◌==◌ as str_eq}
use bitcoin_chain_graph.Common.{ℕ, Option, if◌then◌else◌}
use bitcoin_chain_graph.Utxo.Key.{Bytes}

pub data ScriptTypeTag : Type 0 where
  p2pkh p2sh p2wpkh p2wsh p2tr p2pk null_data unknown : ScriptTypeTag

-- `FromStr`: it never fails, and what is not a name is `unknown`.
unfoldable pub from_str : String → ScriptTypeTag
from_str s =
    if str_eq s "P2PKH"
    then p2pkh
    else if str_eq s "P2SH"
    then p2sh
    else if str_eq s "P2WPKH"
    then p2wpkh
    else if str_eq s "P2WSH"
    then p2wsh
    else if str_eq s "P2TR"
    then p2tr
    else if str_eq s "P2PK"
    then p2pk
    else if str_eq s "NULL_DATA"
    then null_data
    else unknown

unfoldable pub as_str : ScriptTypeTag → String
as_str p2pkh = "P2PKH"
as_str p2sh = "P2SH"
as_str p2wpkh = "P2WPKH"
as_str p2wsh = "P2WSH"
as_str p2tr = "P2TR"
as_str p2pk = "P2PK"
as_str null_data = "NULL_DATA"
as_str unknown = "UNKNOWN"

-- An address is a text, by its UTF-8 bytes.
pub record CachedOutput : Type 0 where
  pub output_index : ℕ
  pub amount : ℕ
  pub script_type : ScriptTypeTag
  pub address : Option Bytes
