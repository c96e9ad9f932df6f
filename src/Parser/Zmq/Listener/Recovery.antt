-- ===== src/Parser/Zmq/Listener/Recovery.antt =====
-- What `connect` and `reconnect_with_backoff` (src/parser/zmq_listener.rs) change in the listener.
use mathlib.Core.Path.{subst}
use bitcoin_chain_graph.Common.{ℕ, zero, suc, ◌≡◌, ◌⊎◌, inl, inr, refl, sym, ap, ◌∙◌, some}
use bitcoin_chain_graph.Common.Result.{Result, ok, err}
use bitcoin_chain_graph.Utxo.Key.{Bytes}
use bitcoin_chain_graph.Parser.Zmq.{ZmqError, reconnection_failed}
use bitcoin_chain_graph.Parser.Zmq.Listener.{
  ZmqCrate, ZmqBlockListener, connected, subscribed, State, record_reconnection, connect, backoff,
  reconnect_loop,
}
use bitcoin_chain_graph.Parser.Zmq.Listener.Attempts.{reconnect_loop-ok, reconnect_loop-err}

module _ (Z : ZmqCrate) where
  -- What an attempt to connect does to the listener.
  Connected : ZmqBlockListener Z.Socket → State Z × Result ZmqError (Unit {0}) → Type 0
  Connected l r =
      ((k : Z.Socket) × (r.1 ≡ ok tt) × (r.0.listener ≡ record l { socket = some k }))
      ⊎ ((e : ZmqError) × (r.1 ≡ err e) × (r.0.listener ≡ l))

  subscribed-Connected :
      (k : Z.Socket) (answer : Result Bytes (Unit {0})) (s : State Z)
      → Connected s.listener (subscribed Z k answer s)
  unfolding Connected
  subscribed-Connected k (ok u) s = inl (k, refl, refl)
  subscribed-Connected k (err e) s = inr (_, refl, refl)

  connected-Connected :
      (answer : Result Bytes Z.Socket) (s : State Z) → Connected s.listener (connected Z answer s)
  unfolding Connected
  connected-Connected (ok k) s = subscribed-Connected k _ _
  connected-Connected (err e) s = inr (_, refl, refl)

  backoff-listener : (i : ℕ) (s : State Z) → (backoff Z i s).listener ≡ s.listener
  unfolding backoff
  backoff-listener zero s = refl
  backoff-listener (suc i) s = refl

  once-Connected : (s : State Z) → Connected s.listener (connect Z s)
  unfolding connect
  once-Connected s =
      let answer = Z.connect s.listener.endpoint s.net in
      connected-Connected answer.1 (record s { net = answer.0 })

  connect-Connected : (i : ℕ) (s : State Z) → Connected s.listener (connect Z (backoff Z i s))
  connect-Connected i s =
      subst (λ l. Connected l (connect Z (backoff Z i s))) (backoff-listener i s)
        (once-Connected (backoff Z i s))

  abbrev pub again : ZmqBlockListener Z.Socket → ZmqBlockListener Z.Socket
  again l = record l { stats = record_reconnection l.stats }

  abbrev pub recovered : Z.Socket → ZmqBlockListener Z.Socket → ZmqBlockListener Z.Socket
  recovered k l = record l { socket = some k; stats = record_reconnection l.stats }

  unfoldable pub Recovered :
      ZmqBlockListener Z.Socket → State Z × Result ZmqError (Unit {0}) → Type 0
  Recovered l r =
      ((k : Z.Socket) × (r.1 ≡ ok tt) × (r.0.listener ≡ recovered k l))
      ⊎ ((m : ℕ) × (endpoint : Bytes) × (r.1 ≡ err (reconnection_failed m endpoint))
          × (r.0.listener ≡ l))

  pub reconnect_loop-Recovered :
      (n i : ℕ) (s : State Z) → Recovered s.listener (reconnect_loop Z n i s)
  unfolding reconnect_loop Recovered Connected
  reconnect_loop-Recovered zero i s = inr (_, _, refl, refl)
  reconnect_loop-Recovered (suc n) i s = elim (connect-Connected i s) [
    | inl (k, done, same) ↦
        let e = reconnect_loop-ok Z n i s (connect Z (backoff Z i s)) refl done in
        inl (k, ap (λ r. r.1) e, ap (λ r. r.0.listener) e ∙ ap again same)
    | inr (x, fails, same) ↦
        let e = reconnect_loop-err Z n i s (connect Z (backoff Z i s)) x refl fails in
        let rest = reconnect_loop-Recovered n (suc i) (connect Z (backoff Z i s)).0 in
        subst (Recovered s.listener) (sym e) (
          subst (λ l. Recovered l (reconnect_loop Z n (suc i) (connect Z (backoff Z i s)).0)) same
            rest)
  ]
