-- ===== src/Ingestion/Amounts/Totals.antt =====
-- The amounts of a transaction by address (src/domain/ingestion.rs, the loops over the inputs and over
-- the outputs of a transaction) against sums over all of them.
use bitcoin_chain_graph.Common.{
  ℕ, ◌+◌, ◌%◌, ◌^◌, ◌≡◌, refl, sym, ap, ◌∙◌, inl, inr, List, [], ◌∷◌, Option, none, some, total,
  ite, Option-cases, arith,
}
use bitcoin_chain_graph.Common.Assoc.{lookup, lookup-insert}
use mathlib.Core.Logic.{if_pos, if_neg}
use bitcoin_chain_graph.Writer.Data.{Text}
use bitcoin_chain_graph.Utxo.Key.{UtxoKey}
use bitcoin_chain_graph.Utxo.Cache.{FoundMap, found_get}
use bitcoin_chain_graph.Ingestion.Amounts.{
  Text-discrete as dec, AmountMap, add_u32, add_u64, entry_or, tally, tally_address, spend_loop,
}

-- An amount with the address that it goes to or comes from.
abbrev pub Payment : Type 0
Payment = Option Text × ℕ

abbrev pub amount_of : Payment → ℕ
amount_of p = p.1

-- Whether a payment is one of the address, and its amount if it is.
abbrev pub counts_for : Text → Payment → ℕ
counts_for a (none, amount) = 0
counts_for a (some b, amount) = ite (dec a b) 1 0

abbrev pub amount_for : Text → Payment → ℕ
amount_for a (none, amount) = 0
amount_for a (some b, amount) = ite (dec a b) amount 0

-- The entry of an address is the sum over its payments, in `u32` and `u64`.
abbrev EntryIs : Text → AmountMap → ℕ → ℕ → Type 0
EntryIs a m n total = (entry_or (lookup dec a m) ≡ (n % 2 ^ 32, total % 2 ^ 64))

unfoldable tally_all : List Payment → AmountMap → AmountMap
unfolding tally_address
tally_all [] m = m
tally_all ((address, amount) ∷ payments) m = tally_all payments (tally_address address amount m)

tally-EntryIs :
    (a b : Text) (amount n sum : ℕ) (m : AmountMap)
    → EntryIs a m n sum
    → EntryIs a (tally b amount m) (n + ite (dec a b) 1 0) (sum + ite (dec a b) amount 0)
unfolding tally
tally-EntryIs a b amount n sum m h = elim (dec a b) [
  | yes same ↦
      let here : entry_or (lookup dec b m) ≡ (n % 2 ^ 32, sum % 2 ^ 64) =
        ap (λ x. entry_or (lookup dec x m)) (sym same) ∙ h in
      let n' : add_u32 (n % 2 ^ 32) 1 ≡ (n + 1) % 2 ^ 32 = omega arith in
      let sum' : add_u64 (sum % 2 ^ 64) amount ≡ (sum + amount) % 2 ^ 64 = omega arith in
      ap entry_or (lookup-insert dec b a _ m ∙ if_pos (dec a b) same _ _)
      ∙ ap (λ (e : ℕ × ℕ). (add_u32 e.0 1, add_u64 e.1 amount)) here
      ∙ (λ i. (n' i, sum' i))
      ∙ rw (if_pos {C = ℕ} (dec a b) same 1 0, if_pos {C = ℕ} (dec a b) same amount 0) refl
  | no other ↦
      let n' : n % 2 ^ 32 ≡ (n + 0) % 2 ^ 32 = omega arith in
      let sum' : sum % 2 ^ 64 ≡ (sum + 0) % 2 ^ 64 = omega arith in
      ap entry_or (lookup-insert dec b a _ m ∙ if_neg (dec a b) other _ _)
      ∙ h
      ∙ rw (if_neg {C = ℕ} (dec a b) other 1 0, if_neg {C = ℕ} (dec a b) other amount 0)
          (λ i. (n' i, sum' i))
]

tally_all-EntryIs :
    (a : Text) (payments : List Payment) (n sum : ℕ) (m : AmountMap)
    → EntryIs a m n sum
    → EntryIs a
        (tally_all payments m)
        (n + total (counts_for a) payments)
        (sum + total (amount_for a) payments)
unfolding tally_all
tally_all-EntryIs a [] n sum m h =
    let n' : n ≡ n + 0 = omega arith in
    let sum' : sum ≡ sum + 0 = omega arith in h ∙ λ i. (n' i % 2 ^ 32, sum' i % 2 ^ 64)
tally_all-EntryIs a ((none, amount) ∷ payments) n sum m h =
    let n' : n + total (counts_for a) payments ≡ n + (0 + total (counts_for a) payments) =
      omega arith in
    let sum' : sum + total (amount_for a) payments ≡ sum + (0 + total (amount_for a) payments) =
      omega arith in
    tally_all-EntryIs a payments n sum m h ∙ λ i. (n' i % 2 ^ 32, sum' i % 2 ^ 64)
tally_all-EntryIs a ((some b, amount) ∷ payments) n sum m h =
    let count = ite (dec a b) 1 0 in
    let more = ite (dec a b) amount 0 in
    let n' : (n + count) + total (counts_for a) payments
        ≡ n + (count + total (counts_for a) payments) =
      omega arith in
    let sum' : (sum + more) + total (amount_for a) payments
        ≡ sum + (more + total (amount_for a) payments) =
      omega arith in
    tally_all-EntryIs a payments (n + count) (sum + more) (tally b amount m)
      (tally-EntryIs a b amount n sum m h)
    ∙ λ i. (n' i % 2 ^ 32, sum' i % 2 ^ 64)

-- The payments of the keys whose outputs were found.
unfoldable pub payments_of : FoundMap → List UtxoKey → List Payment
payments_of found [] = []
payments_of found (key ∷ keys) = elim (found_get key found) [
  | none ↦ payments_of found keys
  | some output ↦ (output.address, output.amount) ∷ payments_of found keys
]

spend_loop-tally_all :
    (found : FoundMap) (keys : List UtxoKey) (sum : ℕ) (m : AmountMap)
    → spend_loop found keys (sum % 2 ^ 64, m) ≡ (
      (sum + total amount_of (payments_of found keys)) % 2 ^ 64,
      tally_all (payments_of found keys) m,
    )
unfolding spend_loop payments_of tally_all
spend_loop-tally_all found [] sum m =
    let sum' : sum % 2 ^ 64 ≡ (sum + 0) % 2 ^ 64 = omega arith in λ i. (sum' i, m)
spend_loop-tally_all found (key ∷ keys) sum m = elim (Option-cases (found_get key found)) [
  | inl none_ ↦ rw (none_, spend_loop, payments_of) (spend_loop-tally_all found keys sum m)
  | inr (o, got) ↦
      let sum' : add_u64 (sum % 2 ^ 64) o.amount ≡ (sum + o.amount) % 2 ^ 64 = omega arith in
      let m' = tally_address o.address o.amount m in
      let rest = total amount_of (payments_of found keys) in
      let all : (sum + o.amount) + rest ≡ sum + (o.amount + rest) = omega arith in
      rw (got, spend_loop, payments_of, tally_all)
        (ap (λ n. spend_loop found keys (n, m')) sum'
          ∙ spend_loop-tally_all found keys (sum + o.amount) m'
          ∙ λ i. (all i % 2 ^ 64, tally_all (payments_of found keys) m'))
]

-- The loop over the inputs of a transaction: its sum is the sum of the outputs found for its keys, in
-- `u64`, and for every address the entry has the number of these outputs that are of the address, in
-- `u32`, and their amount, in `u64`.
pub spend_loop-total :
    (found : FoundMap) (keys : List UtxoKey) (address : Text)
    → let (sum, m) = spend_loop found keys (0, []) in
      let payments = payments_of found keys in
      (sum ≡ total amount_of payments % 2 ^ 64)
      × (entry_or (lookup dec address m) ≡ (
        total (counts_for address) payments % 2 ^ 32,
        total (amount_for address) payments % 2 ^ 64,
      ))
unfolding lookup
spend_loop-total found keys address =
    let payments = payments_of found keys in
    let both = spend_loop-tally_all found keys 0 [] in
    let sum' : (0 + total amount_of payments) % 2 ^ 64 ≡ total amount_of payments % 2 ^ 64 =
      omega arith in
    let n' : 0 + total (counts_for address) payments ≡ total (counts_for address) payments =
      omega arith in
    let t' : 0 + total (amount_for address) payments ≡ total (amount_for address) payments =
      omega arith in
    (
      ap (λ (r : ℕ × AmountMap). r.0) both ∙ sum',
      ap (λ (r : ℕ × AmountMap). entry_or (lookup dec address r.1)) both
          ∙ tally_all-EntryIs address payments 0 0 [] refl
          ∙ λ i. (n' i % 2 ^ 32, t' i % 2 ^ 64),
    )
