-- ===== src/Utxo/File/LittleEndian.antt =====
-- Little-endian numbers and UTF-8, as the standard library has them (`to_le_bytes`,
-- `from_le_bytes`, `str::from_utf8`).
use native.Mathlib.Nat.{pow-suc}
use bitcoin_chain_graph.Common.{
  ℕ, zero, suc, ◌+◌, ◌*◌, ◌/◌, ◌%◌, ◌^◌, ◌<◌, ◌-◌, ◌≡◌, refl, ap, Bool, false, ◌&&◌, Option, none,
  some, [], ◌∷◌, length, arith, ltb, leb, ◌==◌, if◌then◌else◌,
}
use bitcoin_chain_graph.Utxo.Key.{Bytes}

-- The low `k` bytes of a number, the lowest first.
unfoldable pub to_le_bytes : ℕ → ℕ → Bytes
to_le_bytes zero n = []
to_le_bytes (suc k) n = (n % 256) ∷ to_le_bytes k (n / 256)

unfoldable pub from_le_bytes : Bytes → ℕ
from_le_bytes [] = 0
from_le_bytes (b ∷ bs) = b + 256 * from_le_bytes bs

pub length-to_le_bytes : (k n : ℕ) → length (to_le_bytes k n) ≡ k
unfolding to_le_bytes
length-to_le_bytes zero n = refl
length-to_le_bytes (suc k) n = ap suc (length-to_le_bytes k (n / 256))

pub from_le_bytes-to_le_bytes : (k n : ℕ) → n < 256 ^ k → from_le_bytes (to_le_bytes k n) ≡ n
unfolding to_le_bytes from_le_bytes
from_le_bytes-to_le_bytes zero n h = omega arith
from_le_bytes-to_le_bytes (suc k) n h =
    omega (arith, from_le_bytes-to_le_bytes k (n / 256) (omega (arith, pow-suc 256 k)))

-- How many continuation bytes are due, and the range of the next one.
pub record Utf8State : Type 0 where
  pub due : ℕ
  pub low : ℕ
  pub high : ℕ

abbrev pub expect : ℕ → ℕ → ℕ → Utf8State
expect due low high = record { due = due; low = low; high = high }

utf8_lead : ℕ → Option Utf8State
utf8_lead b =
    if ltb b 0x80
    then some (expect 0 0 0)
    else if leb 0xC2 b && leb b 0xDF
    then some (expect 1 0x80 0xBF)
    else if b == 0xE0
    then some (expect 2 0xA0 0xBF)
    else if b == 0xED
    then some (expect 2 0x80 0x9F)
    else if leb 0xE1 b && leb b 0xEF
    then some (expect 2 0x80 0xBF)
    else if b == 0xF0
    then some (expect 3 0x90 0xBF)
    else if leb 0xF1 b && leb b 0xF3
    then some (expect 3 0x80 0xBF)
    else if b == 0xF4
    then some (expect 3 0x80 0x8F)
    else none

utf8_next : Utf8State → ℕ → Option Utf8State
utf8_next s b =
    if s.due == 0
    then utf8_lead b
    else if leb s.low b && leb b s.high
    then some (expect (s.due - 1) 0x80 0xBF)
    else none

utf8_from : Utf8State → Bytes → Bool
utf8_from s [] = s.due == 0
utf8_from s (b ∷ bs) = elim (utf8_next s b) [ none ↦ false | some s' ↦ utf8_from s' bs ]

-- Whether `str::from_utf8` accepts the bytes.
unfoldable pub is_utf8 : Bytes → Bool
unfolding utf8_from utf8_next utf8_lead
is_utf8 bs = utf8_from (expect 0 0 0) bs
