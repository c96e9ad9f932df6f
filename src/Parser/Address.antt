-- ===== src/Parser/Address.antt =====
-- Script types and addresses (src/parser/address.rs): `extract_address`.
pub mod Cases
use bitcoin_chain_graph.Common.{ℕ, Bool, List, [], ◌∷◌, Option, none, some, ◌==◌, if◌then◌else◌}
use bitcoin_chain_graph.Utxo.Key.{Bytes}
use bitcoin_chain_graph.Writer.Data.{Text}
use bitcoin_chain_graph.Parser.Bitcoin.{BitcoinCrate, Instruction, push_bytes, op, invalid}

pub data ScriptType : Type 0 where
  p2pkh p2sh p2wpkh p2wsh p2tr p2pk null_data unknown : ScriptType

-- The address is the text that `to_string` makes of it.
pub record AddressInfo : Type 0 where
  pub address : Option Text
  pub script_type : ScriptType

abbrev pub no_address : ScriptType → AddressInfo
no_address t = record { address = none; script_type = t }

-- `match Address::from_script(…)`: an error makes the type unknown.
unfoldable pub derived : ScriptType → Option Text → AddressInfo
derived t none = no_address unknown
derived t (some addr) = record { address = some addr; script_type = t }

-- The type of a version 0 program, by the length of the script.
unfoldable pub segwit_v0 : ℕ → ScriptType
segwit_v0 len = if len == 22 then p2wpkh else if len == 34 then p2wsh else unknown

module _ (B : BitcoinCrate) where
  open B use {
    Script, Network, from_slice, p2pkh as p2pkh_address, op_checksig, instructions, from_script,
    is_op_return, is_p2pkh, is_p2sh, is_witness_program, witness_version, script_len,
  }

  -- The pushed bytes and the opcode of a script of two instructions.
  unfoldable pub p2pk_of : Network → List Instruction → Option Text
  p2pk_of network (push_bytes bytes ∷ op code ∷ []) =
      if code == op_checksig
      then elim (from_slice bytes) [
        | none ↦ none
        | some pubkey ↦ some (p2pkh_address pubkey network)
      ]
      else none
  p2pk_of network _ = none

  unfoldable pub extract_p2pk_address : Script → Network → Option Text
  unfolding p2pk_of
  extract_p2pk_address script network = p2pk_of network (instructions script)

  -- What is left when no pattern before matches.
  unfoldable pub p2pk_or_unknown : Script → Network → AddressInfo
  unfolding extract_p2pk_address
  p2pk_or_unknown script network = elim (extract_p2pk_address script network) [
    | some address ↦ record { address = some address; script_type = p2pk }
    | none ↦ no_address unknown
  ]

  -- A witness program by its version.
  unfoldable pub witness_address : Script → Network → ℕ → AddressInfo
  unfolding derived segwit_v0
  witness_address script network version =
      if version == 0
      then derived (segwit_v0 (script_len script)) (from_script script network)
      else if version == 1
      then derived p2tr (from_script script network)
      else no_address unknown

  unfoldable pub extract_witness : Script → Network → AddressInfo
  unfolding witness_address p2pk_or_unknown
  extract_witness script network = elim (witness_version script) [
    | some version ↦ witness_address script network version
    | none ↦ p2pk_or_unknown script network
  ]

  unfoldable pub extract_address : Script → Network → AddressInfo
  unfolding derived extract_witness p2pk_or_unknown
  extract_address script network =
      if is_op_return script
      then no_address null_data
      else if is_p2pkh script
      then derived ScriptType.p2pkh (from_script script network)
      else if is_p2sh script
      then derived p2sh (from_script script network)
      else if is_witness_program script
      then extract_witness script network
      else p2pk_or_unknown script network
