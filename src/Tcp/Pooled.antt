-- ===== src/Tcp/Pooled.antt =====
-- The sync client over its pool: src/soap_client/tcp.rs and src/soap_client/pool.rs with the statistics
-- that both share.
pub mod Counting
use realflight_bridge.Base.{
  ℕ, zero, suc, ◌+◌, ◌<◌, ◌%◌, ◌^◌, ◌≡◌, refl, sym, ap, ◌∙◌, ◌⊎◌, inl, inr, not, Bool, true, false,
  Option, none, some, List, [], ◌∷◌, ◌++◌, length, append-nil, ltb, if_both,
}
use realflight_bridge.Outcome.{Result, ok, err}
use realflight_bridge.Text.{Text}
use realflight_bridge.Text.Utf8.{Bytes}
use realflight_bridge.Types.{BridgeError, IoError, Configuration, Duration, F32}
use realflight_bridge.Net.{Reader, Writer, write_all}
use realflight_bridge.Soap.{SoapResponse, encode_envelope}
use realflight_bridge.Statistics.{
  StatisticsEngine, new, Event, failed, record_event, record_all, record_all-append, requests,
  errors, snapshot, snapshot_counts,
}
use realflight_bridge.Pool.{
  Phase, starting, creating, sending, looping, connecting, refilling, returned, ConnectionPool,
  new_pool, Connect, connected, refused, send, start, create, refill, loop_head, creator_in,
  creator, receive, get_connection, stop,
}
use realflight_bridge.Pool.Invariant.{Reachable, begin, takes, counts, count_up, Reachable-IsValid}
use realflight_bridge.Pool.Order.{count_up_front}
use realflight_bridge.Tcp.{TcpSoapClient, send_request, respond, request_over, send_action}
use realflight_bridge.AsyncClient.Kept.{taken_by}

-- A connection that cannot be made behind the initial ones is an error.
abbrev pub failure : Phase → Connect → List Event
failure connecting (refused e) = failed ∷ []
failure _ c = []

-- The client of a pool, with the pool's statistics, and the pool of a client.
abbrev pub client_of : ConnectionPool → TcpSoapClient ConnectionPool
client_of p = record { statistics = p.statistics; connection_pool = p }

abbrev pub pool_of : TcpSoapClient ConnectionPool → ConnectionPool
pool_of c = record (c.connection_pool) { statistics = c.statistics }

-- What a step keeps, and what it reports.
abbrev pub Kept : ConnectionPool → List Event → ConnectionPool → Type 0
Kept p events q = (q.taken ≡ p.taken) × (q.statistics ≡ record_all events p.statistics)

abbrev pub AllKept : ConnectionPool → List Event → Option ConnectionPool → Type 0
AllKept p events none = Unit
AllKept p events (some q) = Kept p events q

send-AllKept :
    (capacity : ℕ) (next : Phase) (p : ConnectionPool) → AllKept p [] (send capacity next p)
unfolding send record_all
send-AllKept capacity next p =
    if_both (AllKept p []) (ltb (length p.next_socket) capacity) _ _ (refl, refl) tt

abbrev pub Given : ConnectionPool → Option (Result BridgeError ℕ × ConnectionPool) → Type 0
Given p (some (ok n, q)) = (q.taken ≡ p.taken ++ n ∷ []) × (q.statistics ≡ p.statistics)
Given p _ = Unit

pub receive-Given :
    (recv_error : Text) (capacity : ℕ) (ns : List ℕ) (ph : Phase) (p : ConnectionPool)
    → Given p (receive recv_error capacity ns ph p)
unfolding receive
receive-Given recv_error capacity (n ∷ ns) ph p = (refl, refl)
receive-Given recv_error capacity [] starting p = tt
receive-Given recv_error capacity [] (creating i) p = tt
receive-Given recv_error zero [] (sending i) p = (refl, refl)
receive-Given recv_error (suc _) [] (sending i) p = tt
receive-Given recv_error capacity [] looping p = tt
receive-Given recv_error capacity [] connecting p = tt
receive-Given recv_error zero [] refilling p = (refl, refl)
receive-Given recv_error (suc _) [] refilling p = tt
receive-Given recv_error capacity [] returned p = tt

-- A request over a connection, whatever comes back.
pub send_action-counts :
    (fault : Option IoError) (written : Bytes) (fuel : ℕ) (reader : Reader) (action body : Text)
    (p q : ConnectionPool)
    → let w : Writer = record { written = written; fault = fault } in
      (send_action (λ pool. (ok (reader, w), q)) fuel action body (client_of p)).1
      ≡ record { statistics = record_all (taken_by w) p.statistics; connection_pool = q }
unfolding send_action request_over respond send_request write_all record_all record_event
send_action-counts none written fuel reader action body p q = refl
send_action-counts (some e) written fuel reader action body p q = refl

module _ (parse : Text → Text ⊎ Unit {0}) (config : Configuration) where
  start-Kept :
      (address : Text ⊎ Unit {0}) (p : ConnectionPool) → Kept p [] (start parse config address p)
  unfolding start record_all
  start-Kept (inl e) p = (refl, refl)
  start-Kept (inr _) p = (refl, refl)

  create-Kept : (i : ℕ) (c : Connect) (p : ConnectionPool) → Kept p [] (create parse config i c p)
  unfolding create record_all
  create-Kept i connected p = (refl, refl)
  create-Kept i (refused e) p = (refl, refl)

  refill-Kept :
      (c : Connect) (p : ConnectionPool) → Kept p (failure connecting c) (refill parse config c p)
  unfolding refill record_all record_event
  refill-Kept connected p = (refl, refl)
  refill-Kept (refused e) p = (refl, refl)

  loop_head-Kept : (p : ConnectionPool) → Kept p [] (loop_head parse config p)
  unfolding loop_head record_all
  loop_head-Kept p =
      if_both (Kept p []) (not p.running) _ _ (refl, refl)
        (if_both (Kept p []) (ltb (length p.next_socket) config.pool_size) _ _ (refl, refl)
          (refl, refl))

  pub creator_in-AllKept :
      (ph : Phase) (c : Connect) (p : ConnectionPool)
      → AllKept p (failure ph c) (creator_in parse config ph c p)
  unfolding creator_in record_all
  creator_in-AllKept starting c p = start-Kept (parse config.simulator_host) p
  creator_in-AllKept (creating i) c p =
      if_both (λ q. AllKept p [] (some q)) (ltb i config.pool_size) _ _ (create-Kept i c p)
        (refl, refl)
  creator_in-AllKept (sending i) c p = send-AllKept config.pool_size (creating (i + 1)) p
  creator_in-AllKept looping c p = loop_head-Kept p
  creator_in-AllKept connecting c p = refill-Kept c p
  creator_in-AllKept refilling c p = send-AllKept config.pool_size looping p
  creator_in-AllKept returned c p = tt
