-- ===== src/Utxo/Fallback/Resolve.antt =====
-- The loop of `get_many_with_fallback` over the misses.
use mathlib.Core.Logic.{if_pos, if_neg}
use bitcoin_chain_graph.Common.{
  ◌≡◌, refl, sym, ap, ◌∙◌, inl, inr, Bool, true, false, ◌||◌, ◌&&◌, List, [], ◌∷◌, Option, none,
  some, arith, ite, Option-cases, if◌then◌else◌,
}
use bitcoin_chain_graph.Common.Assoc
use bitcoin_chain_graph.Writer.Data.{OutputLookupResult}
use bitcoin_chain_graph.Utxo.Key.{UtxoKey, UtxoKey-discrete as dec}
use bitcoin_chain_graph.Utxo.Output.{CachedOutput}
use bitcoin_chain_graph.Utxo.OutputId.{TxidText, to_output_id_string}
use bitcoin_chain_graph.Utxo.Lru.{LruCrate}
use bitcoin_chain_graph.Utxo.Cache.{found_get}
use bitcoin_chain_graph.Utxo.Cache.Groups.{member, member-append}
use bitcoin_chain_graph.Utxo.Fallback.{result_get, cached_of, Resolving, resolve_one, resolve_all}

abbrev pub is_none : Option OutputLookupResult → Bool
is_none none = true
is_none (some r) = false

abbrev pub over : Option OutputLookupResult → Option CachedOutput → Option CachedOutput
over none old = old
over (some r) old = some (cached_of r)

module _ (L : LruCrate) (T : TxidText) (rows : List OutputLookupResult) where
  open L use {LruCache}

  -- What the rows have for a key.
  abbrev pub row : UtxoKey → Option OutputLookupResult
  row q = result_get rows (to_output_id_string T q)

  resolve_one-found :
      (k q : UtxoKey) (r : Resolving L T)
      → found_get q (resolve_one L T rows k r).found
        ≡ ite (dec q k) (over (row k) (found_get q r.found)) (found_get q r.found)
  unfolding resolve_one
  resolve_one-found k q r = elim (Option-cases (row k)) [
    | inl e ↦ rw (e, resolve_one) (ground arith)
    | inr (o, e) ↦
        rw (e, resolve_one) (ground (arith, Assoc.lookup-insert dec k q (cached_of o) r.found))
  ]

  resolve_one-missing :
      (k q : UtxoKey) (r : Resolving L T)
      → member q (resolve_one L T rows k r).still_missing
        ≡ (member q r.still_missing || ite (dec q k) (is_none (row k)) false)
  unfolding resolve_one member
  resolve_one-missing k q r = elim (Option-cases (row k)) [
    | inl e ↦ rw (e, resolve_one) (ground (arith, member-append q r.still_missing (k ∷ [])))
    | inr (o, e) ↦ rw (e, resolve_one) (ground arith)
  ]

  over-over :
      (o : Option OutputLookupResult) (old : Option CachedOutput) → over o (over o old) ≡ over o old
  over-over none old = refl
  over-over (some r) old = refl

  -- A key among the misses has the output of its row, or what it had if there is none.
  pub resolve_all-found :
      (keys : List UtxoKey) (q : UtxoKey) (r : Resolving L T)
      → found_get q (resolve_all L T rows keys r).found
        ≡ (if member q keys then over (row q) (found_get q r.found) else found_get q r.found)
  unfolding resolve_all member
  resolve_all-found [] q r = refl
  resolve_all-found (k ∷ keys) q r =
      let step = resolve_one-found k q r in
      let rest = resolve_all-found keys q (resolve_one L T rows k r) in
      elim (dec q k) [
        | yes e ↦
            let here : found_get q (resolve_one L T rows k r).found
                ≡ over (row q) (found_get q r.found) =
              step
              ∙ if_pos (dec q k) e _ _
              ∙ ap (λ j. over (row j) (found_get q r.found)) (sym e) in
            rest
            ∙ ap (λ o. if member q keys then over (row q) o else o) here
            ∙ either (member q keys) (over-over (row q) (found_get q r.found))
            ∙ sym (
                ap (λ b. if b then over (row q) (found_get q r.found) else found_get q r.found)
                  (if_pos (dec q k) e true (member q keys)))
        | no e ↦
            rest
            ∙ ap (λ o. if member q keys then over (row q) o else o) (step ∙ if_neg (dec q k) e _ _)
            ∙ sym (
                ap (λ b. if b then over (row q) (found_get q r.found) else found_get q r.found)
                  (if_neg (dec q k) e true (member q keys)))
      ]
    where
      either : (b : Bool) {x y : Option CachedOutput} → x ≡ y → (if b then x else y) ≡ y
      either true h = h
      either Bool.false h = refl

  -- A key among the misses with no row is missing still.
  pub resolve_all-missing :
      (keys : List UtxoKey) (q : UtxoKey) (r : Resolving L T)
      → member q (resolve_all L T rows keys r).still_missing
        ≡ (member q r.still_missing || (member q keys && is_none (row q)))
  unfolding resolve_all member
  resolve_all-missing [] q r = ground arith
  resolve_all-missing (k ∷ keys) q r =
      let step = resolve_one-missing k q r in
      let rest = resolve_all-missing keys q (resolve_one L T rows k r) in
      elim (dec q k) [
        | yes e ↦
            let same : is_none (row k) ≡ is_none (row q) = ap (λ j. is_none (row j)) (sym e) in
            ground (
              arith,
              rest,
              step,
              same,
              if_pos (dec q k) e (is_none (row k)) false,
              if_pos (dec q k) e true (member q keys),
            )
        | no e ↦ ground (
          arith,
          rest,
          step,
          if_neg (dec q k) e (is_none (row k)) false,
          if_neg (dec q k) e true (member q keys),
        )
      ]
