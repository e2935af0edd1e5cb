-- ===== src/AsyncClient/Counting.antt =====
-- The client, its pool and its statistics together.
use realflight_bridge.Base.{
  ℕ, ◌%◌, ◌^◌, ◌≡◌, refl, sym, ap, ◌∙◌, true, some, List, [], ◌∷◌, ◌++◌, length, append-nil,
}
use realflight_bridge.Outcome.{Result, ok}
use realflight_bridge.Text.{Text}
use realflight_bridge.Types.{BridgeError, Duration, F32}
use realflight_bridge.Net.{Reader, Writer}
use realflight_bridge.Soap.{SoapResponse, encode_envelope}
use realflight_bridge.Statistics.{
  new, Event, record_all, requests, errors, snapshot, snapshot_counts, record_all-append,
}
use realflight_bridge.AsyncPool.{
  AsyncConnectionPool, spawned, Connect, task, shut_down, get_connection,
}
use realflight_bridge.AsyncPool.Invariant.{Reachable, begin, takes, counts, in_hand}
use realflight_bridge.AsyncPool.Steps.{Reachable-IsConsistent}
use realflight_bridge.Pool.Invariant.{count_up}
use realflight_bridge.Pool.Order.{count_up_front}
use realflight_bridge.AsyncClient.Kept.{
  failure, taken_by, Kept, Given, receive-Given, answer-Kept, shut_down-AllKept, task_in-AllKept,
}
use realflight_bridge.AsyncClient.{answer, request_over, send_action, send_request}

module _ (addr : Text) (pool_size : ℕ) (streams : ℕ → Reader × Writer) (start : Duration) where
  -- Calls of the client and steps of the pool's task in any order: the pool, the connections that were
  -- used, and what has happened. A call is one step, from the taking of its connection on.
  pub data Runs : AsyncConnectionPool → List ℕ → List Event → Type 0 where
    started : Runs (spawned (new start)) [] []
    works :
        (p q : AsyncConnectionPool) (used : List ℕ) (log : List Event) (c : Connect)
        → Runs p used log
        → task addr pool_size c p ≡ some q
        → Runs q used (log ++ failure p.phase c)
    shuts :
        (p q : AsyncConnectionPool) (used : List ℕ) (log : List Event)
        → Runs p used log
        → shut_down p.phase p ≡ some q
        → Runs q used log
    calls :
        (p p' q : AsyncConnectionPool) (used : List ℕ) (log : List Event) (n fuel : ℕ)
        (action body : Text) (r : Result BridgeError SoapResponse)
        → Runs p used log
        → get_connection p ≡ some (ok n, p')
        → send_action streams fuel action body p ≡ some (r, q)
        → Runs q (used ++ n ∷ []) (log ++ taken_by (streams n).1)

  -- What holds of a client in every run.
  abbrev Held : AsyncConnectionPool → List ℕ → List Event → Type 0
  Held p used log =
      Reachable addr pool_size p
      × (p.receiving ≡ true)
      × (p.taken ≡ used)
      × (p.statistics ≡ record_all log (new start))

  stepped-Held :
      (p q : AsyncConnectionPool) (used : List ℕ) (log events : List Event)
      → Held p used log
      → Reachable addr pool_size q
      → Kept p events q
      → Held q used (log ++ events)
  stepped-Held p q used log events (h, a, t, c) r (a', t', c') = (
    r,
    a' ∙ a,
    t' ∙ t,
    c' ∙ (ap (record_all events) c ∙ sym (record_all-append log events (new start))),
  )

  called-Held :
      (p p' : AsyncConnectionPool) (used : List ℕ) (log : List Event) (n fuel : ℕ)
      (action body : Text)
      → Held p used log
      → get_connection p ≡ some (ok n, p')
      → Held
          (answer fuel
            (streams n).0
            (send_request (streams n).1 action (encode_envelope action body))
            p').1
          (used ++ n ∷ [])
          (log ++ taken_by (streams n).1)
  called-Held p p' used log n fuel action body (h, a, t, c) e =
      let (a', t', c') : Given p (some (ok n, p')) =
        rw e at (receive-Given p.connections p.phase p) in
      let (statistics, same, counted) =
        answer-Kept (streams n).1.fault (streams n).1.written fuel (streams n).0 action
          (encode_envelope action body) p' in
      rw same (
        counts p' statistics (takes p p' n h e),
        a' ∙ a,
        t' ∙ ap (λ ns. ns ++ n ∷ []) t,
        counted
            ∙ (ap (record_all (taken_by (streams n).1)) (c' ∙ c)
                ∙ sym (record_all-append log (taken_by (streams n).1) (new start))),
      )

  Runs-Held :
      (p : AsyncConnectionPool) (used : List ℕ) (log : List Event)
      → Runs p used log
      → Held p used log
  unfolding send_action request_over record_all
  Runs-Held _ _ _ started = (begin (new start), refl, refl, refl)
  Runs-Held q used _ (works p _ _ log c h e) =
      let held = Runs-Held p used log h in
      stepped-Held p q used log (failure p.phase c) held (Reachable.works p q c held.0 e)
        (rw e at (task_in-AllKept addr pool_size p.phase c p))
  Runs-Held q used log (shuts p _ _ _ h e) =
      let held = Runs-Held p used log h in
      rw (append-nil log) at (
        stepped-Held p q used log [] held (Reachable.shuts p q held.0 e)
          (rw e at (shut_down-AllKept p.phase p)))
  Runs-Held q _ _ (calls p p' _ used log n fuel action body r h g e) =
      let answered =
        answer fuel (streams n).0 (send_request (streams n).1 action (encode_envelope action body))
          p' in
      let over : some answered ≡ some (r, q) = rw g at e in
      let same : answered ≡ (r, q) = cc in
      rw (ap (λ x. x.1) same) at
        (called-Held p p' used log n fuel action body (Runs-Held p used log h) g)

  -- In every run of the client and the task of its pool: the connections that were used are the first
  -- ones that were made, each once and in the order of their making; the statistics count the requests
  -- that a connection took, and the connections that could not be made behind the initial ones, and no
  -- other error, modulo 2^32.
  pub async_tally :
      (quotient : ℕ → Duration → F32) (now : Duration) (p : AsyncConnectionPool) (used : List ℕ)
      (log : List Event)
      → Runs p used log
      → let shot = snapshot quotient p.statistics now in
        (used ≡ count_up (length used))
        × (shot.request_count ≡ requests log % 2 ^ 32)
        × (shot.error_count ≡ errors log % 2 ^ 32)
  async_tally quotient now p used log h =
      let (reached, alive, taken, counted) = Runs-Held p used log h in
      let (many, failures, time) = snapshot_counts quotient start now log in
      let v = Reachable-IsConsistent addr pool_size p reached in
      (
        count_up_front used (p.connections ++ in_hand p.phase) p.made
            (rw taken at (v.in_order alive)),
        rw counted many,
        rw counted failures,
      )
