-- ===== src/Parser/BlockIndex/Varint.antt =====
-- `decode_varint` against the encoding that Bitcoin Core writes.
use mathlib.Core.Path.{ap₂}
use native.Mathlib.Nat.{mod-eq_of_lt, pow-suc}
use bitcoin_chain_graph.Common.{
  ℕ, zero, suc, ◌+◌, ◌-◌, ◌*◌, ◌/◌, ◌%◌, ◌^◌, ◌≤◌, ◌<◌, ◌≡◌, refl, ap, ◌∙◌, true, false, Option,
  none, some, sym, [], ◌∷◌, ◌++◌, length, arith, ltb, ◌==◌, Bool-cases, inl, inr, append_assoc,
  length-append, ltb-false→ge, ltb→lt, lt→ltb, ==_iff, if◌then◌else◌,
}
use bitcoin_chain_graph.Common.Result.{Result, ok, err}
use bitcoin_chain_graph.Utxo.Key.{Bytes}
use bitcoin_chain_graph.Parser.BlockIndex.{IndexError, decode_from, decode_varint}

no_wrap : (n : ℕ) → n ≤ 2 ^ 57 - 1 → (n * 128) % 2 ^ 64 ≡ n * 128
no_wrap n h = mod-eq_of_lt (omega arith)

-- A byte with the continuation bit, and a last byte.
decode_from-more :
    (n k low : ℕ) (rest : Bytes)
    → n < 2 ^ 57
    → low < 128
    → suc (n * 128 + low) < 2 ^ 64
    → decode_from n k ((128 + low) ∷ rest) ≡ decode_from (suc (n * 128 + low)) (suc k) rest
unfolding decode_from
decode_from-more n k low rest fits digit small =
    let under : ltb (2 ^ 57 - 1) n ≡ false = ground arith in
    let more : ltb 127 (128 + low) ≡ true = ground arith in
    let same : (128 + low) % 128 ≡ low = omega arith in
    let room : (n * 128 + low == 2 ^ 64 - 1) ≡ false = ground arith in
    rw (under, more, no_wrap n (omega arith), same, room)

decode_from-last :
    (n k low : ℕ) (rest : Bytes)
    → n < 2 ^ 57
    → low < 128
    → decode_from n k (low ∷ rest) ≡ ok (n * 128 + low, suc k)
unfolding decode_from
decode_from-last n k low rest fits digit =
    let under : ltb (2 ^ 57 - 1) n ≡ false = ground arith in
    let last : ltb 127 low ≡ false = ground arith in
    let same : low % 128 ≡ low = mod-eq_of_lt digit in
    rw (under, last, no_wrap n (omega arith), same)

-- The number that the bytes stand for, without a bound on it, and how many bytes it takes.
unfoldable pub wide_varint : ℕ → ℕ → Bytes → Option (ℕ × ℕ)
wide_varint n bytes_read [] = none
wide_varint n bytes_read (ch_data ∷ input) =
    let next = n * 128 + ch_data % 128 in
    let rest = wide_varint (suc next) (suc bytes_read) input in
    if ltb 127 ch_data then rest else some (next, suc bytes_read)

abbrev pub in_u64 : Option (ℕ × ℕ) → Option (ℕ × ℕ)
in_u64 none = none
in_u64 (some (value, bytes_read)) = if ltb value (2 ^ 64) then some (value, bytes_read) else none

abbrev pub decoded : Result IndexError (ℕ × ℕ) → Option (ℕ × ℕ)
decoded (ok result) = some result
decoded (err e) = none

-- From a value that does not fit, nothing that fits follows.
wide_varint-large : (input : Bytes) (n k : ℕ) → 2 ^ 57 ≤ n → in_u64 (wide_varint n k input) ≡ none
unfolding wide_varint
wide_varint-large [] n k large = refl
wide_varint-large (ch ∷ input) n k large = elim (Bool-cases (ltb 127 ch)) [
  | inl more ↦ rw more (wide_varint-large input (suc (n * 128 + ch % 128)) (suc k) (omega arith))
  | inr last ↦
      let beyond : ltb (n * 128 + ch % 128) (2 ^ 64) ≡ false = ground arith in
      rw (last, beyond) refl
]

decode_from-in_u64 :
    (input : Bytes) (n k : ℕ) → decoded (decode_from n k input) ≡ in_u64 (wide_varint n k input)
unfolding decode_from wide_varint
decode_from-in_u64 [] n k = refl
decode_from-in_u64 (ch ∷ input) n k = elim (Bool-cases (ltb (2 ^ 57 - 1) n)) [
  | inl large ↦
      let over : 2 ^ 57 ≤ n = omega (arith, ltb→lt _ _ large) in
      rw large (sym (wide_varint-large (ch ∷ input) n k over))
  | inr fits ↦
      let next = no_wrap n (ltb-false→ge _ _ fits) in
      elim (Bool-cases (ltb 127 ch)) [
        | inr last ↦
            let small : ltb (n * 128 + ch % 128) (2 ^ 64) ≡ true =
              lt→ltb _ _ (omega (arith, ltb-false→ge _ _ fits)) in
            rw (fits, last, next, small) refl
        | inl more ↦ elim (Bool-cases (n * 128 + ch % 128 == 2 ^ 64 - 1)) [
          | inl full ↦
              let top = (==_iff (n * 128 + ch % 128) (2 ^ 64 - 1)).0 full in
              rw (fits, more, next, full)
                (sym
                  (wide_varint-large input (suc (n * 128 + ch % 128)) (suc k) (omega (arith, top))))
          | inr room ↦
              rw (fits, more, next, room)
                (decode_from-in_u64 input (suc (n * 128 + ch % 128)) (suc k))
        ]
      ]
]

-- Decoding gives exactly the number that the bytes stand for, read without a bound, with the number
-- of its bytes; and it fails exactly if the bytes end before the number does, or if the number does
-- not fit 64 bits.
pub decode_varint-in_u64 :
    (input : Bytes) → decoded (decode_varint input) ≡ in_u64 (wide_varint 0 0 input)
unfolding decode_varint
decode_varint-in_u64 input = decode_from-in_u64 input 0 0

-- The bytes before the last one, which have the continuation bit, for the value `q` of the higher
-- digits. The encoding subtracts one at each of them.
front : ℕ → ℕ → Bytes
front zero q = []
front (suc f) zero = []
front (suc f) (suc p) = front f (p / 128) ++ (128 + p % 128) ∷ []

-- `WriteVarInt` of Bitcoin Core: ten bytes are enough for 64 bits.
unfoldable pub encode_varint : ℕ → Bytes
unfolding front
encode_varint n = front 10 (n / 128) ++ (n % 128) ∷ []

zero_of : (q : ℕ) → q < 128 ^ 0 → 0 ≡ q
zero_of q h = omega arith

decode_from-front :
    (f q : ℕ) (rest : Bytes)
    → q < 128 ^ f
    → q < 2 ^ 64
    → decode_from 0 0 (front f q ++ rest) ≡ decode_from q (length (front f q)) rest
unfolding front
decode_from-front zero q rest fuel small = ap (λ m. decode_from m 0 rest) (zero_of q fuel)
decode_from-front (suc f) zero rest fuel small = refl
decode_from-front (suc f) (suc p) rest fuel small =
    let acc = front f (p / 128) in
    let byte = 128 + p % 128 in
    let whole : p / 128 * 128 + p % 128 ≡ p = omega arith in
    ap (decode_from 0 0) (append_assoc acc (byte ∷ []) rest)
    ∙ decode_from-front f (p / 128) (byte ∷ rest) (omega (arith, pow-suc 128 f)) (omega arith)
    ∙ decode_from-more (p / 128) (length acc) (p % 128) rest (omega arith) (omega arith)
        (omega arith)
    ∙ ap₂ (λ m k. decode_from (suc m) k rest) whole (omega (arith, length-append acc (byte ∷ [])))

-- Decoding what Bitcoin Core encodes gives the number back, for every 64-bit number and whatever
-- bytes follow, and the number of bytes read is the length of the encoding.
pub decode_varint-encode_varint :
    (n : ℕ) (rest : Bytes)
    → n < 2 ^ 64
    → decode_varint (encode_varint n ++ rest) ≡ ok (n, length (encode_varint n))
unfolding decode_varint encode_varint
decode_varint-encode_varint n rest small =
    let acc = front 10 (n / 128) in
    let byte = n % 128 in
    let whole : n / 128 * 128 + n % 128 ≡ n = omega arith in
    ap (decode_from 0 0) (append_assoc acc (byte ∷ []) rest)
    ∙ decode_from-front 10 (n / 128) (byte ∷ rest) (omega arith) (omega arith)
    ∙ decode_from-last (n / 128) (length acc) byte rest (omega arith) (omega arith)
    ∙ ap₂ (λ m k. ok (m, k)) whole (omega (arith, length-append acc (byte ∷ [])))
