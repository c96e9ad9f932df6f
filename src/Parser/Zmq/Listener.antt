-- ===== src/Parser/Zmq/Listener.antt =====
-- `ZmqBlockListener` (src/parser/zmq_listener.rs): the connection, its recovery, and
-- `recv_block_hash`. The zeromq crate and the clock are parameters, over a state of the network.
pub mod Attempts
pub mod Balance
pub mod Recovery
pub mod Listen
use bitcoin_chain_graph.Common.{
  ℕ, zero, suc, ◌+◌, ◌-◌, ◌*◌, ◌/◌, ◌%◌, ◌^◌, List, [], ◌∷◌, Option, none, some, ltb, if◌then◌else◌,
}
use bitcoin_chain_graph.Common.Result.{Result, ok, err}
use bitcoin_chain_graph.Common.Exec.{Exec, ◌>>=◌, ◌>>◌}
use bitcoin_chain_graph.Utxo.Key.{Bytes}
use bitcoin_chain_graph.Config.{BitcoinRpcConfig}
use bitcoin_chain_graph.Parser.Zmq.{
  ZmqError, connect_failed, subscribe_failed, recv_failed, reconnection_failed, recv_timed_out,
  not_connected, hashblock, parse_hashblock_message, Sequence, track_sequence,
}

-- What `timeout(recv_timeout, socket.recv())` gives: a message, an error, or nothing in time.
pub data Received : Type 0 where
  message : List Bytes → Received
  failed : Bytes → Received
  timed_out : Received

-- A new socket that connects, a subscription, a receipt with a timeout, and a sleep.
pub record ZmqCrate : Type 1 where
  pub Net : Type 0
  pub Socket : Type 0
  pub connect : Bytes → Net → Net × Result Bytes Socket
  pub subscribe : Bytes → Socket → Net → Net × Result Bytes (Unit {0})
  pub recv : ℕ → Socket → Net → Net × Received
  pub sleep : ℕ → Net → Net

-- The counters are of 64 bits.
pub record ZmqStats : Type 0 where
  pub messages_received : ℕ
  pub reconnections : ℕ
  pub recv_errors : ℕ
  pub parse_errors : ℕ
  pub sequence_gaps : ℕ

abbrev pub zmq_stats : ZmqStats
zmq_stats = record {
  messages_received = 0;
  reconnections = 0;
  recv_errors = 0;
  parse_errors = 0;
  sequence_gaps = 0;
}

abbrev pub record_message : ZmqStats → ZmqStats
record_message s = record s { messages_received = (s.messages_received + 1) % 2 ^ 64 }

abbrev pub record_reconnection : ZmqStats → ZmqStats
record_reconnection s = record s { reconnections = (s.reconnections + 1) % 2 ^ 64 }

abbrev pub record_recv_error : ZmqStats → ZmqStats
record_recv_error s = record s { recv_errors = (s.recv_errors + 1) % 2 ^ 64 }

abbrev pub record_parse_error : ZmqStats → ZmqStats
record_parse_error s = record s { parse_errors = (s.parse_errors + 1) % 2 ^ 64 }

-- The timeout in seconds.
pub record ZmqBlockListener (Socket : Type 0) : Type 0 where
  pub endpoint : Bytes
  pub socket : Option Socket
  pub max_reconnect_attempts : ℕ
  pub reconnect_base_delay_ms : ℕ
  pub recv_timeout : ℕ
  pub last_sequence : Option ℕ
  pub stats : ZmqStats

abbrev pub new_listener : {Socket : Type 0} → Bytes → ZmqBlockListener Socket
new_listener endpoint = record {
  endpoint = endpoint;
  socket = none;
  max_reconnect_attempts = 5;
  reconnect_base_delay_ms = 1000;
  recv_timeout = 3600;
  last_sequence = none;
  stats = zmq_stats;
}

abbrev pub from_config : {Socket : Type 0} → BitcoinRpcConfig → ZmqBlockListener Socket
from_config config = record {
  endpoint = config.zmq_endpoint;
  socket = none;
  max_reconnect_attempts = config.zmq_max_reconnect_attempts;
  reconnect_base_delay_ms = config.zmq_reconnect_base_delay_ms;
  recv_timeout =
      if ltb 0 config.zmq_recv_timeout_mins
      then (config.zmq_recv_timeout_mins * 60) % 2 ^ 64
      else 2 ^ 64 - 1;
  last_sequence = none;
  stats = zmq_stats;
}

-- The gap in the sequence numbers, and the last of them.
unfoldable pub tracked :
    {Socket : Type 0} → Option ℕ → ZmqBlockListener Socket → ZmqBlockListener Socket
unfolding track_sequence
tracked sequence l =
    let s =
      track_sequence sequence
        (record { last_sequence = l.last_sequence; sequence_gaps = l.stats.sequence_gaps }) in
    record l {
      last_sequence = s.last_sequence;
      stats = record l.stats { sequence_gaps = s.sequence_gaps };
    }

pub record Listening (Net Socket : Type 0) : Type 0 where
  pub net : Net
  pub listener : ZmqBlockListener Socket

module _ (Z : ZmqCrate) where
  abbrev pub State : Type 0
  State = Listening Z.Net Z.Socket

  abbrev pub on_stats : (ZmqStats → ZmqStats) → State → State
  on_stats f s = record s { listener = record s.listener { stats = f s.listener.stats } }

  abbrev pub subscribed : Z.Socket → Result Bytes (Unit {0}) → Exec State ZmqError (Unit {0})
  subscribed socket (ok u) s =
      (record s { listener = record s.listener { socket = some socket } }, ok tt)
  subscribed socket (err e) s = (s, err (subscribe_failed e))

  abbrev pub connected : Result Bytes Z.Socket → Exec State ZmqError (Unit {0})
  connected (ok socket) s =
      let answer = Z.subscribe hashblock socket s.net in
      subscribed socket answer.1 (record s { net = answer.0 })
  connected (err e) s = (s, err (connect_failed e))

  unfoldable pub connect : Exec State ZmqError (Unit {0})
  connect s =
      let answer = Z.connect s.listener.endpoint s.net in
      connected answer.1 (record s { net = answer.0 })

  -- The delay doubles from the second attempt on, which has the base delay.
  unfoldable pub backoff : ℕ → State → State
  backoff zero s = s
  backoff (suc attempt) s = record s {
    net = Z.sleep ((s.listener.reconnect_base_delay_ms * (2 ^ attempt % 2 ^ 64)) % 2 ^ 64) s.net;
  }

  -- `for attempt in 0..self.max_reconnect_attempts`, from the attempts that are left.
  unfoldable pub reconnect_loop : ℕ → ℕ → Exec State ZmqError (Unit {0})
  unfolding connect backoff
  reconnect_loop zero attempt s =
      (s, err (reconnection_failed s.listener.max_reconnect_attempts s.listener.endpoint))
  reconnect_loop (suc n) attempt s =
      let after = connect (backoff attempt s) in
      elim after.1 [
        | ok u ↦ (on_stats record_reconnection after.0, ok tt)
        | err e ↦ reconnect_loop n (suc attempt) after.0
      ]

  unfoldable pub reconnect_with_backoff : Exec State ZmqError (Unit {0})
  unfolding reconnect_loop
  reconnect_with_backoff s = reconnect_loop s.listener.max_reconnect_attempts 0 s

  abbrev pub drop_socket : State → State
  drop_socket s = record s {
    listener = record s.listener { socket = none; stats = record_recv_error s.listener.stats };
  }

  unfoldable pub parsed : Result ZmqError (Bytes × Option ℕ) → Exec State ZmqError Bytes
  unfolding tracked
  parsed (err e) s = (on_stats record_parse_error s, err e)
  parsed (ok (hash_hex, sequence)) s =
      let counted = on_stats record_message s in
      (record counted { listener = tracked sequence counted.listener }, ok hash_hex)

  unfoldable pub ensure_connected : Option Z.Socket → Exec State ZmqError (Unit {0})
  unfolding reconnect_with_backoff
  ensure_connected none s = reconnect_with_backoff s
  ensure_connected (some socket) s = (s, ok tt)

module _ (Z : ZmqCrate) (hex : Bytes → Bytes) where
  unfoldable pub received : Received → Exec (State Z) ZmqError Bytes
  unfolding parsed parse_hashblock_message
  received (message frames) s = parsed Z (parse_hashblock_message hex frames) s
  received (failed e) s = (drop_socket Z s, err (recv_failed e))
  received timed_out s = (drop_socket Z s, err (recv_timed_out (s.listener.recv_timeout / 60)))

  unfoldable pub recv_from : Option Z.Socket → Exec (State Z) ZmqError Bytes
  unfolding received
  recv_from none s = (s, err not_connected)
  recv_from (some socket) s =
      let answer = Z.recv s.listener.recv_timeout socket s.net in
      received answer.1 (record s { net = answer.0 })

  unfoldable pub recv_block_hash : Exec (State Z) ZmqError Bytes
  unfolding ensure_connected recv_from
  recv_block_hash s = (ensure_connected Z s.listener.socket >> λ t. recv_from t.listener.socket t) s
