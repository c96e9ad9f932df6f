-- ===== src/Utxo/Lru/Entries.antt =====
-- The entries of an LRU cache as a list, most recently used first: what a hit does to it.
use bitcoin_chain_graph.Common.{◌≡◌, List, ◌∷◌, none, some, length, arith, Option-cases, inl, inr}
use bitcoin_chain_graph.Common.Assoc.{
  lookup, remove, Distinct, lookup-remove_ne, lookup-remove_self, remove-Distinct, length-remove,
}
use bitcoin_chain_graph.Utxo.Key.{UtxoKey, UtxoKey-discrete as dec}
use bitcoin_chain_graph.Utxo.Output.{CachedOutput}

abbrev pub Entry : Type 0
Entry = UtxoKey × CachedOutput

-- Move to front.
unfoldable pub promote : UtxoKey → List Entry → List Entry
promote k l = elim (lookup dec k l) [ none ↦ l | some v ↦ (k, v) ∷ remove dec k l ]

pub lookup-promote : (k q : UtxoKey) (l : List Entry) → lookup dec q (promote k l) ≡ lookup dec q l
unfolding promote lookup
lookup-promote k q l = ground (arith, lookup-remove_ne dec k q l)

pub promote-Distinct : (k : UtxoKey) (l : List Entry) → Distinct dec l → Distinct dec (promote k l)
unfolding promote
promote-Distinct k l d = ground (arith, lookup-remove_self dec k l d, remove-Distinct dec k l d)

pub length-promote : (k : UtxoKey) (l : List Entry) → length (promote k l) ≡ length l
unfolding promote
length-promote k l = elim (Option-cases (lookup dec k l)) [
  | inl e ↦ ground arith
  | inr (v, e) ↦ ground (arith, length-remove dec k l v e)
]
