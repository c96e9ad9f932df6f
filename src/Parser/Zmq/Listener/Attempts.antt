-- ===== src/Parser/Zmq/Listener/Attempts.antt =====
-- About `connect` and `reconnect_with_backoff` (src/parser/zmq_listener.rs): which attempts are made,
-- and what they change in the listener.
use mathlib.Core.Path.{subst}
use bitcoin_chain_graph.Common.{
  ℕ, zero, suc, ◌+◌, ◌<◌, ◌≡◌, ◌⊎◌, inl, inr, refl, sym, ap, ◌∙◌, arith,
}
use bitcoin_chain_graph.Common.Result.{Result, ok, err, Result-cases}
use bitcoin_chain_graph.Parser.Zmq.{ZmqError, reconnection_failed}
use bitcoin_chain_graph.Parser.Zmq.Listener.{
  ZmqCrate, State, on_stats, record_reconnection, connect, backoff, reconnect_loop,
  reconnect_with_backoff,
}

module _ (Z : ZmqCrate) where
  -- The outcome of the attempt with a number, when every attempt before it has been made.
  unfoldable pub attempt_at : ℕ → State Z → State Z × Result ZmqError (Unit {0})
  unfolding connect backoff
  attempt_at zero s = connect Z (backoff Z 0 s)
  attempt_at (suc i) s = connect Z (backoff Z (suc i) (attempt_at i s).0)

  abbrev pub Fails : ℕ → State Z → Type 0
  Fails i s = (e : ZmqError) × ((attempt_at i s).1 ≡ err e)

  -- The state when so many attempts have been made.
  unfoldable pub after_attempts : ℕ → State Z → State Z
  unfolding attempt_at
  after_attempts zero s = s
  after_attempts (suc i) s = (attempt_at i s).0

  connect-after_attempts :
      (i : ℕ) (s : State Z) → connect Z (backoff Z i (after_attempts i s)) ≡ attempt_at i s
  unfolding attempt_at after_attempts
  connect-after_attempts zero s = refl
  connect-after_attempts (suc i) s = refl

  -- The first of `n` attempts from number `i` on that succeeds, or the failure of all of them.
  Outcome : ℕ → ℕ → State Z → State Z × Result ZmqError (Unit {0}) → Type 0
  Outcome n i s r =
      ((k : ℕ) × (k < n)
        × ((attempt_at (i + k) s).1 ≡ ok tt)
        × ((j : ℕ) → j < k → Fails (i + j) s)
        × (r ≡ (on_stats Z record_reconnection (attempt_at (i + k) s).0, ok tt)))
      ⊎ (((j : ℕ) → j < n → Fails (i + j) s)
          × (r.0 ≡ after_attempts (i + n) s)
          × (r.1
              ≡ err
                  (reconnection_failed r.0.listener.max_reconnect_attempts r.0.listener.endpoint)))

  next : (i j : ℕ) → suc i + j ≡ i + suc j
  next i j = omega arith

  Fails-first :
      (i n : ℕ) (s : State Z)
      → Fails i s
      → ((j : ℕ) → j < n → Fails (suc i + j) s)
      → (j : ℕ) → j < suc n
      → Fails (i + j) s
  Fails-first i n s first rest zero low = subst (λ m. Fails m s) (omega arith) first
  Fails-first i n s first rest (suc j) low =
      subst (λ m. Fails m s) (next i j) (rest j (omega arith))

  -- What is known of the attempts after a failed one.
  Outcome-first :
      (n i : ℕ) (s : State Z) (r : State Z × Result ZmqError (Unit {0}))
      → Fails i s
      → Outcome n (suc i) s r
      → Outcome (suc n) i s r
  unfolding Outcome
  Outcome-first n i s r first (inl (k, low, done, fails, same)) = inl (
    suc k,
    omega arith,
    subst (λ m. (attempt_at m s).1 ≡ ok tt) (next i k) done,
    Fails-first i k s first fails,
    subst (λ m. r ≡ (on_stats Z record_reconnection (attempt_at m s).0, ok tt)) (next i k) same,
  )
  Outcome-first n i s r first (inr (fails, same, error)) =
      inr (
        Fails-first i n s first fails,
        subst (λ m. r.0 ≡ after_attempts m s) (next i n) same,
        error,
      )

  abbrev pub counted : State Z × Result ZmqError (Unit {0}) → State Z × Result ZmqError (Unit {0})
  counted r = (on_stats Z record_reconnection r.0, ok tt)

  pub reconnect_loop-ok :
      (n i : ℕ) (t : State Z) (r : State Z × Result ZmqError (Unit {0}))
      → connect Z (backoff Z i t) ≡ r
      → r.1 ≡ ok tt
      → reconnect_loop Z (suc n) i t ≡ (on_stats Z record_reconnection r.0, ok tt)
  unfolding reconnect_loop
  reconnect_loop-ok n i t r same done = rw (reconnect_loop, same, done) (ap counted same)

  pub reconnect_loop-err :
      (n i : ℕ) (t : State Z) (r : State Z × Result ZmqError (Unit {0})) (e : ZmqError)
      → connect Z (backoff Z i t) ≡ r
      → r.1 ≡ err e
      → reconnect_loop Z (suc n) i t ≡ reconnect_loop Z n (suc i) r.0
  unfolding reconnect_loop
  reconnect_loop-err n i t r e same fails =
      rw (reconnect_loop, same, fails) (ap (λ q. reconnect_loop Z n (suc i) q.0) same)

  reconnect_loop-Outcome :
      (n i : ℕ) (s : State Z) → Outcome n i s (reconnect_loop Z n i (after_attempts i s))
  unfolding reconnect_loop Outcome after_attempts
  reconnect_loop-Outcome zero i s = inr (
    λ j low. absurd (omega arith),
    subst (λ m. after_attempts i s ≡ after_attempts m s) (omega arith) refl,
    refl,
  )
  reconnect_loop-Outcome (suc n) i s = elim (Result-cases (attempt_at i s).1) [
    | inl (u, done) ↦
        let here : i ≡ i + 0 = omega arith in
        inl (
          0,
          omega arith,
          subst (λ m. (attempt_at m s).1 ≡ ok tt) here done,
          λ j low. absurd (omega arith),
          reconnect_loop-ok n i (after_attempts i s) (attempt_at i s) (connect-after_attempts i s)
                done
              ∙ subst
                  (λ m.
                    Path (State Z × Result ZmqError (Unit {0}))
                      (on_stats Z record_reconnection (attempt_at i s).0, ok tt)
                      (on_stats Z record_reconnection (attempt_at m s).0, ok tt))
                  here refl,
        )
    | inr (e, fails) ↦
        let step =
          reconnect_loop-err n i (after_attempts i s) (attempt_at i s) e
            (connect-after_attempts i s) fails in
        let rest = reconnect_loop-Outcome n (suc i) s in
        subst (Outcome (suc n) i s) (sym step)
          (Outcome-first n i s (reconnect_loop Z n (suc i) (attempt_at i s).0) (e, fails) rest)
  ]

  from_zero : (i : ℕ) → 0 + i ≡ i
  from_zero i = omega arith

  -- `reconnect_with_backoff` ends after at most the configured number of attempts. It succeeds if one
  -- of them does, at the first that does, with its state and one more reconnection counted; if all
  -- fail it returns the error that names their number, in the state after the last of them.
  pub reconnect_with_backoff-attempts :
      (s : State Z)
      → ((k : ℕ) × (k < s.listener.max_reconnect_attempts)
          × ((attempt_at k s).1 ≡ ok tt)
          × ((j : ℕ) → j < k → Fails j s)
          × (reconnect_with_backoff Z s
              ≡ (on_stats Z record_reconnection (attempt_at k s).0, ok tt)))
        ⊎ (((j : ℕ) → j < s.listener.max_reconnect_attempts → Fails j s)
            × ((reconnect_with_backoff Z s).0 ≡ after_attempts s.listener.max_reconnect_attempts s)
            × ((reconnect_with_backoff Z s).1
                ≡ err (
                    reconnection_failed
                      (reconnect_with_backoff Z s).0.listener.max_reconnect_attempts
                      (reconnect_with_backoff Z s).0.listener.endpoint)))
  unfolding reconnect_with_backoff Outcome after_attempts
  reconnect_with_backoff-attempts s =
      elim (reconnect_loop-Outcome s.listener.max_reconnect_attempts 0 s) [
        | inl (k, low, done, fails, same) ↦ inl (
          k,
          low,
          subst (λ m. (attempt_at m s).1 ≡ ok tt) (from_zero k) done,
          λ j lt. subst (λ m. Fails m s) (from_zero j) (fails j lt),
          same ∙ ap (λ m. counted (attempt_at m s)) (from_zero k),
        )
        | inr (fails, same, error) ↦ inr (
          λ j lt. subst (λ m. Fails m s) (from_zero j) (fails j lt),
          same ∙ ap (λ m. after_attempts m s) (from_zero s.listener.max_reconnect_attempts),
          error,
        )
      ]
