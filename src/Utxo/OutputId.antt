-- ===== src/Utxo/OutputId.antt =====
-- The text of an output id, "txid_hex:vout", and back (src/domain/utxo/cache.rs).
use bitcoin_chain_graph.Common.{
  ℕ, zero, suc, ◌+◌, ◌-◌, ◌*◌, ◌/◌, ◌%◌, ◌^◌, ◌<◌, ◌≡◌, refl, sym, ap, ◌∙◌, [], ◌∷◌, ◌++◌, Option,
  none, some, length, take, drop, arith, ltb, if◌then◌else◌, take-length_append, drop-length_append,
  Bool-cases, inl, inr, All, if-both, ltb→lt, All-append,
}
use mathlib.Core.Path.{ap₂}
use native.Mathlib.Nat.{pow-suc}
use bitcoin_chain_graph.Utxo.Key.{Bytes, UtxoKey, IsKey}

-- `bitcoin::Txid`: its `Display` and `FromStr`, between 32 bytes and 64 hex digits.
pub record TxidText : Type 0 where
  pub to_hex : Bytes → Bytes
  pub from_hex : Bytes → Option Bytes
  pub from_hex-to_hex : (t : Bytes) → length t ≡ 32 → from_hex (to_hex t) ≡ some t
  pub length-to_hex : (t : Bytes) → length t ≡ 32 → length (to_hex t) ≡ 64

-- The decimal digits of a number, as `{}` prints a `u32`: ten digits are enough.
decimal_fuel : ℕ → ℕ → Bytes
decimal_fuel zero n = []
decimal_fuel (suc f) n =
    let front = decimal_fuel f (n / 10) in
    if ltb n 10 then (48 + n) ∷ [] else front ++ (48 + n % 10) ∷ []

unfoldable pub decimal : ℕ → Bytes
unfolding decimal_fuel
decimal n = decimal_fuel 10 n

value_from : ℕ → Bytes → ℕ
value_from acc [] = acc
value_from acc (d ∷ ds) = value_from (acc * 10 + (d - 48)) ds

value_from-append :
    (acc d : ℕ) (ds : Bytes) → value_from acc (ds ++ d ∷ []) ≡ value_from acc ds * 10 + (d - 48)
unfolding value_from
value_from-append acc d [] = refl
value_from-append acc d (c ∷ ds) = value_from-append (acc * 10 + (c - 48)) d ds

value-decimal_fuel : (f n : ℕ) → n < 10 ^ f → value_from 0 (decimal_fuel f n) ≡ n
unfolding decimal_fuel value_from
value-decimal_fuel zero n h = omega arith
value-decimal_fuel (suc f) n h = elim (Bool-cases (ltb n 10)) [
  | inl small ↦ ground arith
  | inr large ↦ ground (
    arith,
    value_from-append 0 (48 + n % 10) (decimal_fuel f (n / 10)),
    value-decimal_fuel f (n / 10) (omega (arith, pow-suc 10 f)),
  )
]

decimal_fuel-All : (f n : ℕ) → All (λ c. c < 58) (decimal_fuel f n)
unfolding decimal_fuel
decimal_fuel-All zero n = tt
decimal_fuel-All (suc f) n =
    if-both (All (λ c. c < 58)) (ltb n 10) _ _ (λ e. (omega (arith, ltb→lt n 10 e), tt))
      (λ e.
        All-append (λ c. c < 58) (decimal_fuel f (n / 10)) _ (decimal_fuel-All f (n / 10))
          (omega arith, tt))

-- The digits are ASCII digits.
pub decimal-All : (n : ℕ) → All (λ c. c < 58) (decimal n)
unfolding decimal
decimal-All n = decimal_fuel-All 10 n

-- Two numbers below 2^32 that print alike are the same number.
decimal-injective : (m n : ℕ) → m < 2 ^ 32 → n < 2 ^ 32 → decimal m ≡ decimal n → m ≡ n
unfolding decimal
decimal-injective m n hm hn e =
    sym (value-decimal_fuel 10 m (omega arith))
    ∙ ap (value_from 0) e
    ∙ value-decimal_fuel 10 n (omega arith)

module _ (T : TxidText) where
  open T use {to_hex, from_hex, from_hex-to_hex, length-to_hex}

  unfoldable pub to_output_id_string : UtxoKey → Bytes
  unfolding decimal
  to_output_id_string key = to_hex key.txid ++ b':' ∷ decimal key.vout

  unfoldable pub from_hex_txid : Bytes → ℕ → Option UtxoKey
  from_hex_txid txid_hex vout = elim (from_hex txid_hex) [
    | none ↦ none
    | some t ↦ some (record { txid = t; vout = vout })
  ]

  hex-injective :
      (s t u v : Bytes)
      → length s ≡ 32
      → length t ≡ 32
      → to_hex s ++ u ≡ to_hex t ++ v
      → (s ≡ t) × (u ≡ v)
  hex-injective s t u v hs ht e =
      let hex : to_hex s ≡ to_hex t =
        sym (take-length_append (to_hex s) u)
        ∙ ap₂ take (length-to_hex s hs ∙ sym (length-to_hex t ht)) e
        ∙ take-length_append (to_hex t) v in
      let same : from_hex (to_hex s) ≡ from_hex (to_hex t) = ap from_hex hex in
      (
        cc (from_hex-to_hex s hs, from_hex-to_hex t ht),
        sym (drop-length_append (to_hex s) u)
            ∙ ap₂ drop (length-to_hex s hs ∙ sym (length-to_hex t ht)) e
            ∙ drop-length_append (to_hex t) v,
      )

  -- Two valid keys with the same output id are the same key.
  pub to_output_id_string-injective :
      (k q : UtxoKey) → IsKey k → IsKey q → to_output_id_string k ≡ to_output_id_string q → k ≡ q
  unfolding to_output_id_string
  to_output_id_string-injective k q hk hq e =
      let (same_txid, tail) = hex-injective k.txid q.txid _ _ hk.txid_length hq.txid_length e in
      let same_vout : k.vout ≡ q.vout =
        decimal-injective k.vout q.vout hk.vout_u32 hq.vout_u32 (unfold decimal in cc) in
      λ i. record { txid = same_txid i; vout = same_vout i }
