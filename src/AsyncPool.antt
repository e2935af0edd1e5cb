-- ===== src/AsyncPool.antt =====
-- src/soap_client/pool_async.rs: the task that makes connections, the bounded channel, and the tasks that
-- take from it. Connections are numbered in the order in which they are made. What the network answers
-- comes with each step of the task; sleeping takes no time.
pub mod Invariant
pub mod Steps
pub mod Waiting
use realflight_bridge.Base.{
  ℕ, suc, ◌+◌, ◌⊎◌, inl, inr, Bool, true, false, Option, none, some, List, [], ◌∷◌, ◌++◌, length,
  ltb, leb, ◌==◌, if◌then◌else◌,
}
use realflight_bridge.Outcome.{Result, ok, err, panic, spin}
use realflight_bridge.Text.{Text, codes}
use realflight_bridge.Text.Number.{show_nat}
use realflight_bridge.Types.{BridgeError, Duration}
use realflight_bridge.Statistics.{StatisticsEngine, increment_error_count}

-- Where the task stands: before an initial connection, before its sending, before the `select` of the
-- loop, before the sending there, and returned. A connection that waits to be sent stands with it.
pub data Phase : Type 0 where
  creating : ℕ → Phase
  sending : (i connection : ℕ) → Phase
  selecting : Phase
  handing : (connection : ℕ) → Phase
  returned : Phase

-- `receiving` tells whether the receiver of the channel is there.
pub record AsyncConnectionPool : Type 0 where
  pub connections : List ℕ
  pub receiving : Bool
  pub made : ℕ
  pub taken : List ℕ
  pub phase : Phase
  pub cancelled : Bool
  pub init_result : Option (Text ⊎ Unit {0})
  pub statistics : StatisticsEngine

-- `timeout(connect_timeout, TcpStream::connect(addr))`: a connection, an error, or neither in time.
pub data Connect : Type 0 where
  connected : Connect
  refused : Text → Connect
  not_in_time : Connect

abbrev pub spawned : StatisticsEngine → AsyncConnectionPool
spawned statistics = record {
  connections = [];
  receiving = true;
  made = 0;
  taken = [];
  phase = creating 0;
  cancelled = false;
  init_result = none;
  statistics = statistics;
}

-- `AsyncConnectionPool::new`: tokio's channel panics if it is to hold nothing.
unfoldable pub new : ℕ → StatisticsEngine → Result BridgeError AsyncConnectionPool
new pool_size statistics = if pool_size == 0 then panic else ok (spawned statistics)

abbrev pub give_up : Text → AsyncConnectionPool → AsyncConnectionPool
give_up message p = record p { init_result = some (inl message); phase = returned }

-- `tx.send`: it fails where the receiver is gone, and waits where the channel is full.
unfoldable pub send :
    ℕ → ℕ → (next failed : AsyncConnectionPool) → AsyncConnectionPool → Option AsyncConnectionPool
send capacity connection next failed p =
    if p.receiving
    then (if ltb (length p.connections) capacity
        then some (record next { connections = p.connections ++ connection ∷ [] })
        else none)
    else some failed

-- `addr` is the address as it is printed.
module _ (addr : Text) (pool_size : ℕ) where
  unfoldable pub create : ℕ → Connect → AsyncConnectionPool → AsyncConnectionPool
  create i connected p = record p { phase = sending i p.made; made = suc p.made }
  create i (refused e) p =
      give_up (codes "Failed to connect to simulator at " ++ (addr ++ (codes ": " ++ e))) p
  create i not_in_time p = give_up (codes "Connection timeout to simulator at " ++ addr) p

  unfoldable pub select : Connect → AsyncConnectionPool → AsyncConnectionPool
  select connected p = record p { phase = handing p.made; made = suc p.made }
  select (refused e) p = record p { statistics = increment_error_count p.statistics }
  select not_in_time p = record p { statistics = increment_error_count p.statistics }

  -- One step of the task, by its phase; it has none where it waits or has returned.
  unfoldable pub task_in : Phase → Connect → AsyncConnectionPool → Option AsyncConnectionPool
  task_in (creating i) c p = some (
      if ltb i pool_size
      then create i c p
      else record p { init_result = some (inr tt); phase = selecting })
  task_in (sending i connection) c p =
      send pool_size connection (record p { phase = creating (suc i) })
        (give_up (codes "Failed to queue initial connection " ++ show_nat i) p) p
  task_in selecting c p = some (select c p)
  task_in (handing connection) c p =
      send pool_size connection (record p { phase = selecting }) (record p { phase = returned }) p
  task_in returned c p = none

  abbrev pub task : Connect → AsyncConnectionPool → Option AsyncConnectionPool
  task c p = task_in p.phase c p

-- The other branch of the `select`: it is open once the token is cancelled.
unfoldable pub shut_down : Phase → AsyncConnectionPool → Option AsyncConnectionPool
shut_down selecting p = if p.cancelled then some (record p { phase = returned }) else none
shut_down _ p = none

unfoldable pub receive :
    List ℕ → Phase → AsyncConnectionPool → Option (Result BridgeError ℕ × AsyncConnectionPool)
receive (c ∷ cs) phase p = some (ok c, record p { connections = cs; taken = p.taken ++ c ∷ [] })
receive [] returned p = some (err (BridgeError.initialization (codes "Connection pool closed")), p)
receive [] _ p = none

-- `get_connection`: it waits where the channel is empty and the task has not returned.
abbrev pub get_connection :
    AsyncConnectionPool → Option (Result BridgeError ℕ × AsyncConnectionPool)
get_connection p = receive p.connections p.phase p

-- `drop` cancels the task; then the receiver goes, with what is in the channel.
abbrev pub drop_pool : AsyncConnectionPool → AsyncConnectionPool
drop_pool p = record p { cancelled = true; receiving = false; connections = [] }

-- How the wait for a change ends.
pub data Waited : Type 0 where
  changed closed timed_out : Waited

-- What one round of `ensure_initialized` finds: the value, the time since its start, and the end of
-- its wait.
pub record Look : Type 0 where
  pub result : Option (Text ⊎ Unit {0})
  pub elapsed : Duration
  pub waited : Waited

-- `show_duration` is the `Debug` of a duration.
module _ (show_duration : Duration → Text) (init_timeout : Duration) where
  abbrev pub too_late : BridgeError
  too_late = BridgeError.initialization (
      codes "Connection pool did not initialize. Waited for "
      ++ (show_duration init_timeout ++ codes "."))

  abbrev pub channel_closed : BridgeError
  channel_closed = BridgeError.initialization (codes "Initialization channel closed unexpectedly")

  unfoldable pub wait :
      Waited → Duration → Result BridgeError (Unit {0}) → Result BridgeError (Unit {0})
  wait waited elapsed rest =
      if leb init_timeout elapsed
      then err too_late
      else elim waited [ changed ↦ rest | closed ↦ err channel_closed | timed_out ↦ err too_late ]

  unfoldable pub check :
      Option (Text ⊎ Unit {0})
      → Waited
      → Duration
      → Result BridgeError (Unit {0})
      → Result BridgeError (Unit {0})
  unfolding wait
  check (some (inr _)) waited elapsed rest = ok tt
  check (some (inl message)) waited elapsed rest = err (BridgeError.initialization message)
  check none waited elapsed rest = wait waited elapsed rest

  -- The loop, on the rounds that it takes.
  unfoldable pub ensure_initialized : List Look → Result BridgeError (Unit {0})
  ensure_initialized [] = spin
  ensure_initialized (look ∷ looks) =
      check look.result look.waited look.elapsed (ensure_initialized looks)
