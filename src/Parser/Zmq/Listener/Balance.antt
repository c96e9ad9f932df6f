-- ===== src/Parser/Zmq/Listener/Balance.antt =====
-- What the counters and the socket of a listener (src/parser/zmq_listener.rs) have to do with the
-- results of its calls.
use bitcoin_chain_graph.Common.{ℕ, ◌+◌, ◌%◌, ◌^◌, ◌≡◌, Option, none, some, arith}
use bitcoin_chain_graph.Common.Result.{Result, ok, err}
use bitcoin_chain_graph.Utxo.Key.{Bytes}
use bitcoin_chain_graph.Parser.Zmq.{
  ZmqError, too_few_frames, unexpected_topic, invalid_hash_length, recv_failed, recv_timed_out,
}
use bitcoin_chain_graph.Parser.Zmq.Listener.{ZmqBlockListener}

-- What one result stands for.
abbrev pub hashes : Result ZmqError Bytes → ℕ
hashes (ok hash) = 1
hashes (err e) = 0

abbrev pub recv_failures : Result ZmqError Bytes → ℕ
recv_failures (err (recv_failed e)) = 1
recv_failures (err (recv_timed_out m)) = 1
recv_failures _ = 0

abbrev pub parse_failures : Result ZmqError Bytes → ℕ
parse_failures (err (too_few_frames n)) = 1
parse_failures (err (unexpected_topic t)) = 1
parse_failures (err (invalid_hash_length n)) = 1
parse_failures _ = 0

-- 1 if there is no connection.
abbrev pub down {ℓ} : {A : Type ℓ} → Option A → ℕ
down none = 1
down (some socket) = 0

-- A listener that went from `l` to `m` in calls with so many hashes, failures to receive and to parse.
pub record Balanced {Socket : Type 0} (l m : ZmqBlockListener Socket) (hs rs ps : ℕ) : Type 0 where
  pub messages : m.stats.messages_received % 2 ^ 64 ≡ (l.stats.messages_received + hs) % 2 ^ 64
  pub receipts : m.stats.recv_errors % 2 ^ 64 ≡ (l.stats.recv_errors + rs) % 2 ^ 64
  pub parses : m.stats.parse_errors % 2 ^ 64 ≡ (l.stats.parse_errors + ps) % 2 ^ 64
  pub recoveries :
      (m.stats.reconnections + down m.socket) % 2 ^ 64
      ≡ (l.stats.reconnections + down l.socket + rs) % 2 ^ 64

mod_trans :
    (a b c x y : ℕ)
    → b % 2 ^ 64 ≡ (a + x) % 2 ^ 64
    → c % 2 ^ 64 ≡ (b + y) % 2 ^ 64
    → c % 2 ^ 64 ≡ (a + (x + y)) % 2 ^ 64
mod_trans a b c x y h k = omega arith

module _ {Socket : Type 0} where
  pub Balanced-trans :
      {o p q o' p' q' : ℕ} (l m n : ZmqBlockListener Socket)
      → Balanced l m o p q
      → Balanced m n o' p' q'
      → Balanced l n (o + o') (p + p') (q + q')
  Balanced-trans l m n h k = record {
    messages = mod_trans _ _ _ _ _ h.messages k.messages;
    receipts = mod_trans _ _ _ _ _ h.receipts k.receipts;
    parses = mod_trans _ _ _ _ _ h.parses k.parses;
    recoveries = mod_trans _ _ _ _ _ h.recoveries k.recoveries;
  }

  -- After what counts nothing.
  pub Balanced-zero :
      {hs rs ps : ℕ} (l m n : ZmqBlockListener Socket)
      → Balanced l m 0 0 0
      → Balanced m n hs rs ps
      → Balanced l n hs rs ps
  Balanced-zero l m n h k = record {
    messages = omega (arith, h.messages, k.messages);
    receipts = omega (arith, h.receipts, k.receipts);
    parses = omega (arith, h.parses, k.parses);
    recoveries = omega (arith, h.recoveries, k.recoveries);
  }

  pub Balanced-self : (l : ZmqBlockListener Socket) → Balanced l l 0 0 0
  Balanced-self l = record {
    messages = omega arith;
    receipts = omega arith;
    parses = omega arith;
    recoveries = omega arith;
  }
