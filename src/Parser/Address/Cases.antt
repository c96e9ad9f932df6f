-- ===== src/Parser/Address/Cases.antt =====
-- About the outcome of `extract_address` (src/parser/address.rs).
use bitcoin_chain_graph.Common.{
  ℕ, ◌≡◌, refl, sym, ◌∙◌, inl, inr, Bool, true, false, Option, none, some, Bool-cases, Option-cases,
  ◌==◌, ==_iff,
}
use bitcoin_chain_graph.Writer.Data.{Text}
use bitcoin_chain_graph.Parser.Bitcoin.{BitcoinCrate}
use bitcoin_chain_graph.Parser.Address.{
  ScriptType, p2pkh, p2sh, p2wpkh, p2wsh, p2tr, p2pk, null_data, unknown, AddressInfo, derived,
  segwit_v0, p2pk_or_unknown, extract_p2pk_address, witness_address, extract_witness,
  extract_address,
}

-- The types that have an address.
unfoldable pub addressed : ScriptType → Bool
addressed p2pkh = true
addressed p2sh = true
addressed p2wpkh = true
addressed p2wsh = true
addressed p2tr = true
addressed p2pk = true
addressed null_data = false
addressed unknown = false

abbrev pub has_address : Option Text → Bool
has_address none = false
has_address (some a) = true

-- An address is given exactly for a type that has one.
abbrev pub InfoOk : AddressInfo → Type 0
InfoOk info = has_address info.address ≡ addressed info.script_type

derived-InfoOk : (t : ScriptType) (a : Option Text) → addressed t ≡ true → InfoOk (derived t a)
unfolding derived addressed
derived-InfoOk t none e = refl
derived-InfoOk t (some addr) e = sym e

segwit_v0-addressed :
    (len : ℕ) (a : Option Text)
    → (segwit_v0 len ≡ unknown → a ≡ none)
    → InfoOk (derived (segwit_v0 len) a)
unfolding segwit_v0 addressed derived
segwit_v0-addressed len a refused = elim (Bool-cases (len == 22)) [
  | inl e ↦ rw e (derived-InfoOk p2wpkh a refl)
  | inr e ↦ elim (Bool-cases (len == 34)) [
    | inl f ↦ rw (e, f) (derived-InfoOk p2wsh a refl)
    | inr f ↦ let gone : a ≡ none = refused (rw (e, f) refl) in rw (e, f, gone) refl
  ]
]

module _ (B : BitcoinCrate) (script : B.Script) (network : B.Network) where
  open B use {
    from_script, is_op_return, is_p2pkh, is_p2sh, is_witness_program, witness_version, script_len,
  }

  p2pk_or_unknown-InfoOk : InfoOk (p2pk_or_unknown B script network)
  unfolding p2pk_or_unknown addressed
  p2pk_or_unknown-InfoOk = elim (Option-cases (extract_p2pk_address B script network)) [
    | inl e ↦ rw (e, p2pk_or_unknown) refl
    | inr (a, e) ↦ rw (e, p2pk_or_unknown) refl
  ]

  witness_address-InfoOk :
      (version : ℕ)
      → (version ≡ 0 → segwit_v0 (script_len script) ≡ unknown → from_script script network ≡ none)
      → InfoOk (witness_address B script network version)
  unfolding witness_address addressed
  witness_address-InfoOk version refused = elim (Bool-cases (version == 0)) [
    | inl e ↦ rw e (
        segwit_v0-addressed (script_len script) (from_script script network)
          (refused ((==_iff version 0).0 e)))
    | inr e ↦ elim (Bool-cases (version == 1)) [
      | inl f ↦ rw (e, f) (derived-InfoOk p2tr (from_script script network) refl)
      | inr f ↦ rw (e, f) refl
    ]
  ]

  extract_witness-InfoOk :
      (witness_version script ≡ some 0
        → segwit_v0 (script_len script) ≡ unknown
        → from_script script network ≡ none)
      → InfoOk (extract_witness B script network)
  unfolding extract_witness
  extract_witness-InfoOk refused = elim (Option-cases (witness_version script)) [
    | inl e ↦ rw (e, extract_witness) p2pk_or_unknown-InfoOk
    | inr (v, e) ↦
        rw (e, extract_witness)
          (witness_address-InfoOk v (λ zero_v. refused (e ∙ (λ i. some (zero_v i)))))
  ]

  -- When the crate derives no address for a version 0 witness program of a length other than 22 or
  -- 34 bytes, an address is returned exactly for the six types that have one: none for an OP_RETURN
  -- script and for an unknown one, on every branch.
  pub extract_address-InfoOk :
      (is_witness_program script ≡ true
        → witness_version script ≡ some 0
        → segwit_v0 (script_len script) ≡ unknown
        → from_script script network ≡ none)
      → InfoOk (extract_address B script network)
  unfolding extract_address addressed
  extract_address-InfoOk refused = elim (Bool-cases (is_op_return script)) [
    | inl e ↦ rw e refl
    | inr e ↦ elim (Bool-cases (is_p2pkh script)) [
      | inl f ↦ rw (e, f) (derived-InfoOk p2pkh (from_script script network) refl)
      | inr f ↦ elim (Bool-cases (is_p2sh script)) [
        | inl g ↦ rw (e, f, g) (derived-InfoOk p2sh (from_script script network) refl)
        | inr g ↦ elim (Bool-cases (is_witness_program script)) [
          | inl h ↦ rw (e, f, g, h) (extract_witness-InfoOk (refused h))
          | inr h ↦ rw (e, f, g, h) p2pk_or_unknown-InfoOk
        ]
      ]
    ]
  ]
