-- ===== src/Tests/Notify.antt =====
-- The theorems on the listener of block notifications at a concrete network.
use bitcoin_chain_graph.Common.{
  ℕ, ◌<◌, ◌≡◌, ◌⊎◌, refl, List, [], ◌∷◌, ◌++◌, length, replicate, total,
}
use bitcoin_chain_graph.Common.Result.{Result, ok, err}
use bitcoin_chain_graph.Utxo.Key.{Bytes}
use bitcoin_chain_graph.Utxo.File.LittleEndian.{to_le_bytes}
use bitcoin_chain_graph.Parser.Zmq.{hashblock, reconnection_failed}
use bitcoin_chain_graph.Parser.Zmq.Listener.{
  ZmqCrate, Received, message, failed, timed_out, Listening, new_listener, on_stats,
  record_reconnection, reconnect_with_backoff,
}
use bitcoin_chain_graph.Parser.Zmq.Listener.Attempts.{
  attempt_at, after_attempts, Fails, reconnect_with_backoff-attempts,
}
use bitcoin_chain_graph.Parser.Zmq.Listener.Balance.{
  Balanced, hashes, recv_failures, parse_failures,
}
use bitcoin_chain_graph.Parser.Zmq.Listener.Listen.{listen, listen-Balanced}
use bitcoin_chain_graph.Tests.Instances.{twice}

-- What happens next, and the delays so far.
data Event : Type 0 where
  refuses accepts : Event
  gives : Received → Event

record Script : Type 0 where
  events : List Event
  delays : List ℕ

abbrev connect_next : List Event → List ℕ → Script × Result Bytes ℕ
connect_next (accepts ∷ events) delays = (record { events = events; delays = delays }, ok 7)
connect_next (_ ∷ events) delays = (record { events = events; delays = delays }, err [])
connect_next [] delays = (record { events = []; delays = delays }, err [])

abbrev recv_next : List Event → List ℕ → Script × Received
recv_next (gives r ∷ events) delays = (record { events = events; delays = delays }, r)
recv_next (_ ∷ events) delays = (record { events = events; delays = delays }, timed_out)
recv_next [] delays = (record { events = []; delays = delays }, timed_out)

abbrev scripted : ZmqCrate
scripted = record {
  Net = Script;
  Socket = ℕ;
  connect = λ endpoint net. connect_next net.events net.delays;
  subscribe = λ topic socket net. (net, ok tt);
  recv = λ timeout socket net. recv_next net.events net.delays;
  sleep = λ delay net. record net { delays = net.delays ++ delay ∷ [] };
}

abbrev block_message : ℕ → Received
block_message seq = message (hashblock ∷ replicate 32 171 ∷ to_le_bytes 4 seq ∷ [])

abbrev start : Listening Script ℕ
start = record {
  net = record {
    events =
        refuses
        ∷ refuses
        ∷ accepts
        ∷ gives (block_message 5)
        ∷ gives (message [])
        ∷ gives (failed [])
        ∷ accepts
        ∷ gives (block_message 9)
        ∷ [];
    delays = [];
  };
  listener = new_listener (b't' ∷ []);
}

-- The delays double.
delays_double : (reconnect_with_backoff scripted start).0.net.delays ≡ 1000 ∷ 2000 ∷ []
unfolding reconnect_with_backoff
delays_double = refl

-- Two hashes, a message without frames and a lost connection.
stats_after : (listen scripted twice 4 start).0.listener.stats ≡ record {
  messages_received = 2;
  reconnections = 2;
  recv_errors = 1;
  parse_errors = 1;
  sequence_gaps = 1;
}
unfolding listen to_le_bytes
stats_after = refl

listen-Balanced_example :
    (length (listen scripted twice 4 start).1 ≡ 4)
    × Balanced start.listener
        (listen scripted twice 4 start).0.listener
        (total hashes (listen scripted twice 4 start).1)
        (total recv_failures (listen scripted twice 4 start).1)
        (total parse_failures (listen scripted twice 4 start).1)
listen-Balanced_example = listen-Balanced scripted twice 4 start

reconnect_with_backoff-attempts_example :
    ((k : ℕ) × (k < 5)
      × ((attempt_at scripted k start).1 ≡ ok tt)
      × ((j : ℕ) → j < k → Fails scripted j start)
      × (reconnect_with_backoff scripted start
          ≡ (on_stats scripted record_reconnection (attempt_at scripted k start).0, ok tt)))
    ⊎ (((j : ℕ) → j < 5 → Fails scripted j start)
        × ((reconnect_with_backoff scripted start).0 ≡ after_attempts scripted 5 start)
        × ((reconnect_with_backoff scripted start).1
            ≡ err (
                reconnection_failed
                  (reconnect_with_backoff scripted start).0.listener.max_reconnect_attempts
                  (reconnect_with_backoff scripted start).0.listener.endpoint)))
reconnect_with_backoff-attempts_example = reconnect_with_backoff-attempts scripted start
