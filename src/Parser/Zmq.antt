-- ===== src/Parser/Zmq.antt =====
-- Block notifications (src/parser/zmq_listener.rs): `parse_hashblock_message`, and the sequence
-- numbers that `recv_block_hash` keeps; Listener has the rest of that method. `hex::encode` is a parameter.
pub mod Message
pub mod Listener
use bitcoin_chain_graph.Common.{
  ℕ, suc, ◌+◌, ◌%◌, ◌^◌, Bool, true, false, List, [], ◌∷◌, reverse, Option, none, some, length, ltb,
  ◌==◌, if◌then◌else◌,
}
use bitcoin_chain_graph.Common.Result.{Result, ok, err}
use bitcoin_chain_graph.Utxo.Key.{Bytes}
use bitcoin_chain_graph.Utxo.File.Load.{bytes_eq}
use bitcoin_chain_graph.Utxo.File.LittleEndian.{from_le_bytes}

pub data ZmqError : Type 0 where
  too_few_frames : ℕ → ZmqError
  unexpected_topic : Bytes → ZmqError
  invalid_hash_length : ℕ → ZmqError
  connect_failed subscribe_failed recv_failed : Bytes → ZmqError
  reconnection_failed : ℕ → Bytes → ZmqError
  recv_timed_out : ℕ → ZmqError
  not_connected : ZmqError

-- "hashblock".
abbrev pub hashblock : Bytes
hashblock = b'h' ∷ b'a' ∷ b's' ∷ b'h' ∷ b'b' ∷ b'l' ∷ b'o' ∷ b'c' ∷ b'k' ∷ []

-- The third frame, if it has four bytes.
unfoldable pub parse_sequence : List Bytes → Option ℕ
unfolding from_le_bytes
parse_sequence [] = none
parse_sequence (frame ∷ frames) = if length frame == 4 then some (from_le_bytes frame) else none

-- A topic that is not UTF-8 is not "hashblock" either, so that it is refused as well.
unfoldable pub parse_hashblock_message :
    (Bytes → Bytes) → List Bytes → Result ZmqError (Bytes × Option ℕ)
unfolding parse_sequence bytes_eq
parse_hashblock_message hex [] = err (too_few_frames 0)
parse_hashblock_message hex (topic ∷ []) = err (too_few_frames 1)
parse_hashblock_message hex (topic ∷ hash ∷ frames) =
    if bytes_eq topic hashblock
    then (if length hash == 32
        then ok (hex (reverse hash), parse_sequence frames)
        else err (invalid_hash_length (length hash)))
    else err (unexpected_topic topic)

-- The last sequence number, and the count of gaps.
pub record Sequence : Type 0 where
  pub last_sequence : Option ℕ
  pub sequence_gaps : ℕ

unfoldable pub is_gap : Option ℕ → ℕ → Bool
is_gap none seq = false
is_gap (some last_seq) seq = if seq == (last_seq + 1) % 2 ^ 32 then false else true

unfoldable pub track_sequence : Option ℕ → Sequence → Sequence
unfolding is_gap
track_sequence none s = s
track_sequence (some seq) s = record {
  last_sequence = some seq;
  sequence_gaps =
      if is_gap s.last_sequence seq then (s.sequence_gaps + 1) % 2 ^ 64 else s.sequence_gaps;
}
