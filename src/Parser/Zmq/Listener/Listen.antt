-- ===== src/Parser/Zmq/Listener/Listen.antt =====
-- About any number of calls of `recv_block_hash` (src/parser/zmq_listener.rs).
use mathlib.Core.Path.{subst}
use bitcoin_chain_graph.Common.{
  if-both, ℕ, zero, suc, ◌≡◌, inl, inr, refl, sym, ap, List, [], ◌∷◌, Option, none, some, arith,
  total, length, ◌==◌,
}
use bitcoin_chain_graph.Common.Result.{Result, ok, err, err-inj}
use bitcoin_chain_graph.Common.Exec.{and_then}
use bitcoin_chain_graph.Utxo.Key.{Bytes}
use bitcoin_chain_graph.Utxo.File.Load.{bytes_eq}
use bitcoin_chain_graph.Parser.Zmq.{
  ZmqError, reconnection_failed, parse_hashblock_message, hashblock,
}
use bitcoin_chain_graph.Parser.Zmq.Listener.{
  ZmqCrate, ZmqBlockListener, State, reconnect_with_backoff, Received, message, failed, timed_out,
  parsed, received, recv_from, ensure_connected, recv_block_hash, tracked,
}
use bitcoin_chain_graph.Parser.Zmq.Listener.Balance.{
  hashes, recv_failures, parse_failures, down, Balanced, Balanced-trans, Balanced-zero,
  Balanced-self,
}
use bitcoin_chain_graph.Parser.Zmq.Listener.Recovery.{
  recovered, Recovered, reconnect_loop-Recovered,
}

-- An error in the message is one of the three that are counted as such.
abbrev ParseError : Result ZmqError (Bytes × Option ℕ) → Type 0
ParseError (ok answer) = Unit {0}
ParseError (err e) = (parse_failures (err e) ≡ 1) × (recv_failures (err e) ≡ 0)

parse_hashblock_message-ParseError :
    (hex : Bytes → Bytes) (frames : List Bytes) → ParseError (parse_hashblock_message hex frames)
unfolding parse_hashblock_message
parse_hashblock_message-ParseError hex [] = (refl, refl)
parse_hashblock_message-ParseError hex (topic ∷ []) = (refl, refl)
parse_hashblock_message-ParseError hex (topic ∷ hash ∷ frames) =
    if-both ParseError (bytes_eq topic hashblock) _ _
      (λ e. if-both ParseError (length hash == 32) _ _ (λ f. tt) (λ f. (refl, refl)))
      (λ e. (refl, refl))

module _ (Z : ZmqCrate) (hex : Bytes → Bytes) where
  -- What a call makes of a listener.
  BalancedBy : ZmqBlockListener Z.Socket → State Z × Result ZmqError Bytes → Type 0
  BalancedBy l r = Balanced l r.0.listener (hashes r.1) (recv_failures r.1) (parse_failures r.1)

  parsed-BalancedBy :
      (answer : Result ZmqError (Bytes × Option ℕ)) (s : State Z)
      → ParseError answer
      → BalancedBy s.listener (parsed Z answer s)
  unfolding parsed BalancedBy tracked
  parsed-BalancedBy (ok (hash, sequence)) s h = record {
    messages = omega arith;
    receipts = omega arith;
    parses = omega arith;
    recoveries = omega arith;
  }
  parsed-BalancedBy (err e) s h = record {
    messages = omega arith;
    receipts = omega (arith, h.1);
    parses = omega (arith, h.0);
    recoveries = omega (arith, h.1);
  }

  received-BalancedBy :
      (answer : Received) (s : State Z) (k : Z.Socket)
      → s.listener.socket ≡ some k
      → BalancedBy s.listener (received Z hex answer s)
  unfolding received BalancedBy
  received-BalancedBy (message frames) s k e =
      parsed-BalancedBy (parse_hashblock_message hex frames) s
        (parse_hashblock_message-ParseError hex frames)
  received-BalancedBy (failed x) s k e =
      let up : down s.listener.socket ≡ 0 = ap down e in
      record {
        messages = omega arith;
        receipts = omega arith;
        parses = omega arith;
        recoveries = omega arith;
      }
  received-BalancedBy timed_out s k e =
      let up : down s.listener.socket ≡ 0 = ap down e in
      record {
        messages = omega arith;
        receipts = omega arith;
        parses = omega arith;
        recoveries = omega arith;
      }

  recv_from-BalancedBy :
      (socket : Option Z.Socket) (s : State Z) (k : Z.Socket)
      → s.listener.socket ≡ some k
      → socket ≡ some k
      → BalancedBy s.listener (recv_from Z hex socket s)
  unfolding recv_from BalancedBy
  recv_from-BalancedBy none s k e f = absurd (cc)
  recv_from-BalancedBy (some socket) s k e f =
      let answer = Z.recv s.listener.recv_timeout socket s.net in
      received-BalancedBy answer.1 (record s { net = answer.0 }) k e

  recovered-Balanced :
      (k : Z.Socket) (l : ZmqBlockListener Z.Socket)
      → l.socket ≡ none
      → Balanced l (recovered Z k l) 0 0 0
  recovered-Balanced k l e =
      let lost : down l.socket ≡ 1 = ap down e in
      record {
        messages = omega arith;
        receipts = omega arith;
        parses = omega arith;
        recoveries = omega arith;
      }

  then_receive : State Z × Result ZmqError (Unit {0}) → State Z × Result ZmqError Bytes
  unfolding recv_from
  then_receive = and_then (λ u t. recv_from Z hex t.listener.socket t)

  then_receive-BalancedBy :
      (l : ZmqBlockListener Z.Socket) (r : State Z × Result ZmqError (Unit {0}))
      → l.socket ≡ none
      → Recovered Z l r
      → BalancedBy l (then_receive r)
  unfolding Recovered BalancedBy then_receive recv_from
  then_receive-BalancedBy l (t, ok u) lost (inl (k, done, same)) =
      let fresh : Balanced l t.listener 0 0 0 =
        subst (λ m. Balanced l m 0 0 0) (sym same) (recovered-Balanced k l lost) in
      let up : t.listener.socket ≡ some k = ap (λ m. m.socket) same in
      Balanced-zero l t.listener _ fresh (recv_from-BalancedBy t.listener.socket t k up up)
  then_receive-BalancedBy l (t, ok u) lost (inr (m, endpoint, fails, same)) = absurd (cc)
  then_receive-BalancedBy l (t, err e) lost (inl (k, done, same)) = absurd (cc)
  then_receive-BalancedBy l (t, err e) lost (inr (m, endpoint, fails, same)) =
      let named : e ≡ reconnection_failed m endpoint = err-inj _ _ fails in
      subst (λ x. BalancedBy l (t, err x)) (sym named)
        (subst (λ n. Balanced l n 0 0 0) (sym same) (Balanced-self l))

  call-BalancedBy :
      (socket : Option Z.Socket) (s : State Z)
      → s.listener.socket ≡ socket
      → BalancedBy s.listener (then_receive (ensure_connected Z socket s))
  unfolding ensure_connected reconnect_with_backoff then_receive recv_from
  call-BalancedBy none s e =
      then_receive-BalancedBy s.listener (reconnect_with_backoff Z s) e
        (reconnect_loop-Recovered Z s.listener.max_reconnect_attempts 0 s)
  call-BalancedBy (some k) s e = recv_from-BalancedBy s.listener.socket s k e e

  recv_block_hash-BalancedBy : (s : State Z) → BalancedBy s.listener (recv_block_hash Z hex s)
  unfolding recv_block_hash then_receive
  recv_block_hash-BalancedBy s = call-BalancedBy s.listener.socket s refl

  -- So many calls, one after the other, with their results.
  unfoldable pub listen : ℕ → State Z → State Z × List (Result ZmqError Bytes)
  unfolding recv_block_hash
  listen zero s = (s, [])
  listen (suc n) s =
      let first = recv_block_hash Z hex s in
      let rest = listen n first.0 in (rest.0, first.1 ∷ rest.1)

  -- However the network answers, any number of calls of `recv_block_hash` returns a result for each,
  -- and changes the counters, up to their wrap-around at 2^64, by the numbers of hashes, of failures
  -- to receive and of messages that cannot be parsed among these results. The reconnections, with
  -- one more if the socket is down, change by the number of failures to receive: each failure drops
  -- the socket once, and each reconnection repairs one loss.
  pub listen-Balanced :
      (n : ℕ) (s : State Z)
      → (length (listen n s).1 ≡ n)
        × Balanced s.listener
            (listen n s).0.listener
            (total hashes (listen n s).1)
            (total recv_failures (listen n s).1)
            (total parse_failures (listen n s).1)
  unfolding listen BalancedBy
  listen-Balanced zero s = (refl, Balanced-self s.listener)
  listen-Balanced (suc n) s =
      let first = recv_block_hash Z hex s in
      let rest = listen-Balanced n first.0 in
      (
        ap suc rest.0,
        Balanced-trans s.listener first.0.listener _ (recv_block_hash-BalancedBy s) rest.1,
      )
