-- ===== src/Pool.antt =====
-- src/soap_client/pool.rs: the thread that makes connections, the bounded channel, and the threads that
-- take from it. Connections are numbered in the order in which they are made. Each step of the creator
-- is one phase of its loop; what the network answers comes with the step.
pub mod Invariant
pub mod Joining
pub mod Order
pub mod Ready
pub mod Sending
pub mod Waiting
use realflight_bridge.Base.{
  ℕ, zero, suc, ◌+◌, ◌⊎◌, inl, inr, Bool, true, false, not, Option, none, some, List, [], ◌∷◌, ◌++◌,
  length, ltb, ◌==◌, if◌then◌else◌,
}
use realflight_bridge.Outcome.{Result, ok, err, spin}
use realflight_bridge.Text.{Text, codes}
use realflight_bridge.Types.{BridgeError, Configuration, Duration}
use realflight_bridge.Statistics.{StatisticsEngine, increment_error_count, new}

-- Where the creator stands: before the address, before and behind the connecting of an initial
-- connection, at the head of its loop, before and behind the connecting there, and returned.
pub data Phase : Type 0 where
  starting : Phase
  creating sending : ℕ → Phase
  looping connecting refilling returned : Phase

pub record ConnectionPool : Type 0 where
  pub next_socket : List ℕ
  pub made : ℕ
  pub taken : List ℕ
  pub phase : Phase
  pub running : Bool
  pub initialized : Bool
  pub init_error : Option Text
  pub statistics : StatisticsEngine

-- `ConnectionPool::new`, at the time `now`.
abbrev pub new_pool : Duration → ConnectionPool
new_pool now = record {
  next_socket = [];
  made = 0;
  taken = [];
  phase = starting;
  running = true;
  initialized = false;
  init_error = none;
  statistics = new now;
}

-- `TcpStream::connect_timeout`: a connection, or the error's message.
pub data Connect : Type 0 where
  connected : Connect
  refused : Text → Connect

abbrev pub fail : Text → ConnectionPool → ConnectionPool
fail message p = record p { init_error = some message; phase = returned }

-- `sender.send`: it waits where the channel is full. A channel of capacity 0 holds nothing: there it
-- waits for a taker, and `receive` is the step of both.
unfoldable pub send : ℕ → Phase → ConnectionPool → Option ConnectionPool
send capacity next p =
    if ltb (length p.next_socket) capacity
    then some
        (record p { next_socket = p.next_socket ++ p.made ∷ []; made = suc p.made; phase = next })
    else none

-- `parse` is the standard library's reading of a socket address, with the message of its error.
module _ (parse : Text → Text ⊎ Unit {0}) (config : Configuration) where
  unfoldable pub start : Text ⊎ Unit {0} → ConnectionPool → ConnectionPool
  start (inl e) p =
      fail (codes "Invalid simulator host '" ++ (config.simulator_host ++ (codes "': " ++ e))) p
  start (inr _) p = record p { phase = creating 0 }

  unfoldable pub create : ℕ → Connect → ConnectionPool → ConnectionPool
  create i connected p = record p { phase = sending i }
  create i (refused e) p =
      fail
        (codes "Failed to connect to simulator at " ++ (config.simulator_host ++ (codes ": " ++ e)))
        p

  unfoldable pub refill : Connect → ConnectionPool → ConnectionPool
  refill connected p = record p { phase = refilling }
  refill (refused e) p = record p {
    phase = looping;
    statistics = increment_error_count p.statistics;
  }

  -- The head of the loop: a full channel is left alone.
  unfoldable pub loop_head : ConnectionPool → ConnectionPool
  loop_head p =
      if not p.running
      then record p { phase = returned }
      else if ltb (length p.next_socket) config.pool_size
      then record p { phase = connecting }
      else p

  -- One step of the creator, by its phase; it has none where it waits or has returned.
  unfoldable pub creator_in : Phase → Connect → ConnectionPool → Option ConnectionPool
  creator_in starting c p = some (start (parse config.simulator_host) p)
  creator_in (creating i) c p = some (
      if ltb i config.pool_size
      then create i c p
      else record p { initialized = true; phase = looping })
  creator_in (sending i) c p = send config.pool_size (creating (i + 1)) p
  creator_in looping c p = some (loop_head p)
  creator_in connecting c p = some (refill c p)
  creator_in refilling c p = send config.pool_size looping p
  creator_in returned c p = none

  abbrev pub creator : Connect → ConnectionPool → Option ConnectionPool
  creator c p = creator_in p.phase c p

-- `recv_error` is the text of the channel's error.
module _ (recv_error : Text) where
  abbrev pub disconnected : BridgeError
  disconnected =
      BridgeError.initialization (codes "Failed to get connection from pool: " ++ recv_error)

  -- A taker at an empty channel, and the creator in its `send`: they meet where the capacity is 0.
  unfoldable pub meet : ℕ → Phase → ConnectionPool → Option (Result BridgeError ℕ × ConnectionPool)
  meet zero next p =
      some (ok p.made, record p { made = suc p.made; taken = p.taken ++ p.made ∷ []; phase = next })
  meet (suc _) next p = none

  unfoldable pub receive :
      ℕ → List ℕ → Phase → ConnectionPool → Option (Result BridgeError ℕ × ConnectionPool)
  unfolding meet
  receive capacity (c ∷ cs) phase p =
      some (ok c, record p { next_socket = cs; taken = p.taken ++ c ∷ [] })
  receive capacity [] returned p = some (err disconnected, p)
  receive capacity [] (sending i) p = meet capacity (creating (i + 1)) p
  receive capacity [] refilling p = meet capacity looping p
  receive capacity [] _ p = none

  -- `get_connection`: it waits where the channel is empty, as long as the creator has not returned.
  abbrev pub get_connection : ℕ → ConnectionPool → Option (Result BridgeError ℕ × ConnectionPool)
  get_connection capacity p = receive capacity p.next_socket p.phase p

-- `drop` tells the creator to stop.
abbrev pub stop : ConnectionPool → ConnectionPool
stop p = record p { running = false }

-- The thread is joined once it has returned. It never is where it waits for ever.
abbrev pub joined_or : Phase → Result BridgeError (Unit {0}) → Result BridgeError (Unit {0})
joined_or returned rest = ok tt
joined_or _ rest = rest

abbrev pub follow :
    (ConnectionPool → Result BridgeError (Unit {0}))
    → Option ConnectionPool
    → Result BridgeError (Unit {0})
follow k none = spin
follow k (some q) = k q

module _ (parse : Text → Text ⊎ Unit {0}) (config : Configuration) where
  -- The joining of the creator, on what the network answers it meanwhile: nobody else has the pool.
  unfoldable pub join : List Connect → ConnectionPool → Result BridgeError (Unit {0})
  join [] p = joined_or p.phase spin
  join (c ∷ cs) p = joined_or p.phase (follow (join cs) (creator parse config c p))

  -- `drop`: the creator is told to stop, and joined.
  abbrev pub drop : List Connect → ConnectionPool → Result BridgeError (Unit {0})
  drop cs p = join cs (stop p)

-- What one look of `ensure_pool_initialized` finds: the flag, the error, and the time since its start.
pub record Poll : Type 0 where
  pub initialized : Bool
  pub init_error : Option Text
  pub elapsed : Duration

abbrev pub initialization_timeout : Duration
initialization_timeout = 5000000

unfoldable pub poll_error : Option Text → Duration → Option BridgeError
poll_error (some e) elapsed =
    some (BridgeError.initialization (codes "Connection pool initialization failed: " ++ e))
poll_error none elapsed =
    if ltb initialization_timeout elapsed
    then some
        (BridgeError.initialization (codes "Connection pool did not initialize. Waited for 5s."))
    else none

abbrev pub or_wait :
    Option BridgeError → Result BridgeError (Unit {0}) → Result BridgeError (Unit {0})
or_wait (some e) rest = err e
or_wait none rest = rest

-- The loop, on the looks that it takes.
unfoldable pub ensure_pool_initialized : List Poll → Result BridgeError (Unit {0})
ensure_pool_initialized [] = spin
ensure_pool_initialized (poll ∷ polls) =
    let rest = ensure_pool_initialized polls in
    if poll.initialized then ok tt else or_wait (poll_error poll.init_error poll.elapsed) rest
