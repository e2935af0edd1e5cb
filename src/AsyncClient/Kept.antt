-- ===== src/AsyncClient/Kept.antt =====
-- What the steps of the pool and of the client keep, and what they report.
use realflight_bridge.Base.{
  ℕ, ◌≡◌, refl, Option, none, some, List, [], ◌∷◌, ◌++◌, length, ltb, if_both,
}
use realflight_bridge.Outcome.{Result, ok}
use realflight_bridge.Text.{Text}
use realflight_bridge.Text.Utf8.{Bytes}
use realflight_bridge.Types.{BridgeError, IoError}
use realflight_bridge.Net.{Reader, Writer, write_all}
use realflight_bridge.Statistics.{
  StatisticsEngine, Event, request_sent, failed, record_event, record_all,
}
use realflight_bridge.AsyncPool.{
  Phase, creating, sending, selecting, handing, returned, AsyncConnectionPool, Connect, connected,
  refused, not_in_time, task_in, create, select, send, shut_down, receive,
}
use realflight_bridge.AsyncClient.{answer, send_request}

-- A connection that cannot be made behind the initial ones is an error.
abbrev pub failure : Phase → Connect → List Event
failure selecting connected = []
failure selecting (refused e) = failed ∷ []
failure selecting not_in_time = failed ∷ []
failure _ c = []

-- A request counts where the connection takes it.
abbrev pub taken_by : Writer → List Event
taken_by w = elim w.fault [ none ↦ request_sent ∷ [] | some _ ↦ [] ]

-- What a step keeps, and what it reports.
abbrev pub Kept : AsyncConnectionPool → List Event → AsyncConnectionPool → Type 0
Kept p events q =
    (q.receiving ≡ p.receiving)
    × (q.taken ≡ p.taken)
    × (q.statistics ≡ record_all events p.statistics)

abbrev pub AllKept : AsyncConnectionPool → List Event → Option AsyncConnectionPool → Type 0
AllKept p events none = Unit
AllKept p events (some q) = Kept p events q

pub shut_down-AllKept : (ph : Phase) (p : AsyncConnectionPool) → AllKept p [] (shut_down ph p)
unfolding shut_down record_all
shut_down-AllKept (creating i) p = tt
shut_down-AllKept (sending i n) p = tt
shut_down-AllKept selecting p = if_both (AllKept p []) p.cancelled _ _ (refl, refl, refl) tt
shut_down-AllKept (handing n) p = tt
shut_down-AllKept returned p = tt

-- A connection that is taken goes to the end of those that were.
abbrev pub Given :
    AsyncConnectionPool → Option (Result BridgeError ℕ × AsyncConnectionPool) → Type 0
Given p (some (ok n, q)) =
    (q.receiving ≡ p.receiving) × (q.taken ≡ p.taken ++ n ∷ []) × (q.statistics ≡ p.statistics)
Given p _ = Unit

pub receive-Given : (ns : List ℕ) (ph : Phase) (p : AsyncConnectionPool) → Given p (receive ns ph p)
unfolding receive
receive-Given (n ∷ ns) ph p = (refl, refl, refl)
receive-Given [] (creating i) p = tt
receive-Given [] (sending i n) p = tt
receive-Given [] selecting p = tt
receive-Given [] (handing n) p = tt
receive-Given [] returned p = tt

pub answer-Kept :
    (fault : Option IoError) (written : Bytes) (fuel : ℕ) (reader : Reader) (action envelope : Text)
    (p : AsyncConnectionPool)
    → let w : Writer = record { written = written; fault = fault } in
      (statistics : StatisticsEngine) × ((answer fuel reader (send_request w action envelope) p).1
        ≡ record p { statistics = statistics })
      × (statistics ≡ record_all (taken_by w) p.statistics)
unfolding answer send_request write_all record_all record_event
answer-Kept none written fuel reader action envelope p = (_, refl, refl)
answer-Kept (some e) written fuel reader action envelope p = (p.statistics, refl, refl)

module _ (addr : Text) (pool_size : ℕ) where
  send-AllKept :
      (connection : ℕ) (next closed p : AsyncConnectionPool)
      → Kept p [] next
      → Kept p [] closed
      → AllKept p [] (send pool_size connection next closed p)
  unfolding send
  send-AllKept connection next closed p h k =
      if_both (AllKept p []) p.receiving _ _
        (if_both (AllKept p []) (ltb (length p.connections) pool_size) _ _ h tt) k

  create-Kept :
      (i : ℕ) (c : Connect) (p : AsyncConnectionPool) → Kept p [] (create addr pool_size i c p)
  unfolding create record_all
  create-Kept i connected p = (refl, refl, refl)
  create-Kept i (refused e) p = (refl, refl, refl)
  create-Kept i not_in_time p = (refl, refl, refl)

  select-Kept :
      (c : Connect) (p : AsyncConnectionPool)
      → Kept p (failure selecting c) (select addr pool_size c p)
  unfolding select record_all record_event
  select-Kept connected p = (refl, refl, refl)
  select-Kept (refused e) p = (refl, refl, refl)
  select-Kept not_in_time p = (refl, refl, refl)

  pub task_in-AllKept :
      (ph : Phase) (c : Connect) (p : AsyncConnectionPool)
      → AllKept p (failure ph c) (task_in addr pool_size ph c p)
  unfolding task_in record_all
  task_in-AllKept (creating i) c p =
      if_both (λ q. AllKept p [] (some q)) (ltb i pool_size) _ _ (create-Kept i c p)
        (refl, refl, refl)
  task_in-AllKept (sending i n) c p = send-AllKept n _ _ p (refl, refl, refl) (refl, refl, refl)
  task_in-AllKept selecting c p = select-Kept c p
  task_in-AllKept (handing n) c p = send-AllKept n _ _ p (refl, refl, refl) (refl, refl, refl)
  task_in-AllKept returned c p = tt
