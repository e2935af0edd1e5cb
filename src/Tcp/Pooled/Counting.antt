-- ===== src/Tcp/Pooled/Counting.antt =====
-- The sync client, the creator of its pool and its statistics together.
use realflight_bridge.Base.{
  ℕ, ◌%◌, ◌^◌, ◌≡◌, refl, sym, ap, ◌∙◌, ◌⊎◌, some, List, [], ◌∷◌, ◌++◌, length,
}
use realflight_bridge.Outcome.{ok}
use realflight_bridge.Text.{Text}
use realflight_bridge.Types.{Configuration, Duration, F32}
use realflight_bridge.Net.{Reader, Writer}
use realflight_bridge.Statistics.{
  new, Event, record_all, record_all-append, requests, errors, snapshot, snapshot_counts,
}
use realflight_bridge.Pool.{ConnectionPool, new_pool, Connect, creator, get_connection}
use realflight_bridge.Pool.Invariant.{
  Reachable, begin, creates, takes, counts, count_up, Reachable-IsValid,
}
use realflight_bridge.Pool.Order.{count_up_front}
use realflight_bridge.Tcp.{send_action}
use realflight_bridge.Tcp.Pooled.{
  failure, client_of, pool_of, Kept, Given, receive-Given, send_action-counts, creator_in-AllKept,
}
use realflight_bridge.AsyncClient.Kept.{taken_by}

module _ (parse : Text → Text ⊎ Unit {0}) (recv_error : Text) (config : Configuration)
    (streams : ℕ → Reader × Writer) (start : Duration) where
  -- Calls of the client and steps of the pool's thread in any order: the pool, the connections that
  -- were used, and what has happened. A call is one step, from the taking of its connection on.
  pub data Serving : ConnectionPool → List ℕ → List Event → Type 0 where
    started : Serving (new_pool start) [] []
    working :
        (p q : ConnectionPool) (used : List ℕ) (log : List Event) (c : Connect)
        → Serving p used log
        → creator parse config c p ≡ some q
        → Serving q used (log ++ failure p.phase c)
    calling :
        (p q : ConnectionPool) (used : List ℕ) (log : List Event) (n fuel : ℕ) (action body : Text)
        → Serving p used log
        → get_connection recv_error config.pool_size p ≡ some (ok n, q)
        → Serving
            (pool_of (send_action (λ pool. (ok (streams n), q)) fuel action body (client_of p)).1)
            (used ++ n ∷ [])
            (log ++ taken_by (streams n).1)

  -- What holds of a client in every run.
  abbrev Held : ConnectionPool → List ℕ → List Event → Type 0
  Held p used log =
      Reachable parse recv_error config p
      × (p.taken ≡ used)
      × (p.statistics ≡ record_all log (new start))

  stepped-Held :
      (p q : ConnectionPool) (used : List ℕ) (log events : List Event)
      → Held p used log
      → Reachable parse recv_error config q
      → Kept p events q
      → Held q used (log ++ events)
  stepped-Held p q used log events (h, t, c) r (t', c') =
      (r, t' ∙ t, c' ∙ (ap (record_all events) c ∙ sym (record_all-append log events (new start))))

  called-Held :
      (p q : ConnectionPool) (used : List ℕ) (log : List Event) (n fuel : ℕ) (action body : Text)
      → Held p used log
      → get_connection recv_error config.pool_size p ≡ some (ok n, q)
      → Held
          (pool_of (send_action (λ pool. (ok (streams n), q)) fuel action body (client_of p)).1)
          (used ++ n ∷ [])
          (log ++ taken_by (streams n).1)
  called-Held p q used log n fuel action body (h, t, c) e =
      let (t', c') : Given p (some (ok n, q)) =
        rw e at (receive-Given recv_error config.pool_size p.next_socket p.phase p) in
      rw
        (send_action-counts (streams n).1.fault (streams n).1.written fuel (streams n).0 action body
          p q)
        (
          counts q _ (takes p q n h e),
          t' ∙ ap (λ ns. ns ++ n ∷ []) t,
          ap (record_all (taken_by (streams n).1)) c
              ∙ sym (record_all-append log (taken_by (streams n).1) (new start)),
        )

  Serving-Held :
      (p : ConnectionPool) (used : List ℕ) (log : List Event) → Serving p used log → Held p used log
  unfolding record_all
  Serving-Held _ _ _ started = (begin start, refl, refl)
  Serving-Held q used _ (working p _ _ log c h e) =
      let held = Serving-Held p used log h in
      stepped-Held p q used log (failure p.phase c) held (creates p q c held.0 e)
        (rw e at (creator_in-AllKept parse config p.phase c p))
  Serving-Held _ _ _ (calling p q used log n fuel action body h e) =
      called-Held p q used log n fuel action body (Serving-Held p used log h) e

  -- In every run of the sync client and the creator of its pool: the connections that were used are the
  -- first ones that were made, each once and in the order of their making; the statistics count the
  -- requests that a connection took, and the connections that could not be made behind the initial
  -- ones, and no other error, modulo 2^32.
  pub sync_tally :
      (quotient : ℕ → Duration → F32) (now : Duration) (p : ConnectionPool) (used : List ℕ)
      (log : List Event)
      → Serving p used log
      → let shot = snapshot quotient p.statistics now in
        (used ≡ count_up (length used))
        × (shot.request_count ≡ requests log % 2 ^ 32)
        × (shot.error_count ≡ errors log % 2 ^ 32)
  sync_tally quotient now p used log h =
      let (reached, taken, counted) = Serving-Held p used log h in
      let (many, failures, time) = snapshot_counts quotient start now log in
      let order = (Reachable-IsValid parse config recv_error p reached).1 in
      (
        count_up_front used p.next_socket p.made (rw taken at order),
        rw counted many,
        rw counted failures,
      )
