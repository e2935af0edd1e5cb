-- ===== src/Bridge/Local/Build.antt =====
-- How the bridges of src/bridge/local/mod.rs and src/bridge/local/async_impl.rs are made, their builder,
-- and their statistics. A bridge is its pool here: the SOAP client and the bridge add the engine of the
-- statistics, which is the pool's. The pool is looked at while its thread or task works.

pub mod Ready
use realflight_bridge.Base.{
  ℕ, ◌⊎◌, inl, inr, Bool, true, false, Option, none, some, List, [], ◌∷◌, ◌++◌, map, if◌then◌else◌,
}
use realflight_bridge.Outcome.{Result, ok, err, panic, spin, ◌>>=◌}
use realflight_bridge.Text.{Text, codes}
use realflight_bridge.Types.{
  F32, BridgeError, Configuration, default_configuration, default_simulator_host, Duration,
}
use realflight_bridge.Statistics.{Statistics, new, snapshot}
use realflight_bridge.Pool
use realflight_bridge.AsyncPool

-- What starting the thread gives: the text of its error, or nothing.
unfoldable pub new_connection_pool :
    Text ⊎ Unit {0} → Duration → Result BridgeError Pool.ConnectionPool
new_connection_pool (inl e) now =
    err (BridgeError.initialization (codes "Failed to spawn connection pool thread: " ++ e))
new_connection_pool (inr _) now = ok (Pool.new_pool now)

-- The pool at one look of `ensure_pool_initialized`.
pub record Watch : Type 0 where
  pub pool : Pool.ConnectionPool
  pub elapsed : Duration

abbrev pub poll : Watch → Pool.Poll
poll w = record {
  initialized = w.pool.initialized;
  init_error = w.pool.init_error;
  elapsed = w.elapsed;
}

-- The pool where the looks end.
abbrev pub last_seen : Pool.ConnectionPool → List Watch → Pool.ConnectionPool
last_seen pool [] = pool
last_seen pool (w ∷ ws) = if w.pool.initialized then w.pool else last_seen w.pool ws

-- Where the initialisation fails, the SOAP client is dropped on the way out, and its pool with it.
unfoldable pub or_drop :
    Result BridgeError (Unit {0})
    → Result BridgeError (Unit {0})
    → Pool.ConnectionPool
    → Result BridgeError Pool.ConnectionPool
or_drop (ok _) dropped pool = ok pool
or_drop (err e) dropped pool = do _ ← dropped; err e
or_drop panic dropped pool = panic
or_drop spin dropped pool = spin

-- `RealFlightLocalBridge::with_configuration`, at the time `now`: what its looks see, and, for the drop,
-- the pool where the drop begins and what the network answers the creator from there on.
module _ (parse : Text → Text ⊎ Unit {0}) (config : Configuration) where
  unfoldable pub with_configuration :
      Text ⊎ Unit {0}
      → Duration
      → List Watch
      → Pool.ConnectionPool
      → List Pool.Connect
      → Result BridgeError Pool.ConnectionPool
  unfolding or_drop
  with_configuration spawned now watches left answers = do
    pool ← new_connection_pool spawned now
    or_drop (Pool.ensure_pool_initialized (map poll watches)) (Pool.drop parse config answers left)
        (last_seen pool watches)

-- `RealFlightLocalBridge::statistics`.
abbrev pub statistics : (ℕ → Duration → F32) → Pool.ConnectionPool → Duration → Statistics
statistics quotient pool now = snapshot quotient pool.statistics now

-- AsyncLocalBridgeBuilder; an address is its text.
pub record AsyncLocalBridgeBuilder : Type 0 where
  pub connect_timeout : Duration
  pub init_timeout : Duration
  pub addr : Text
  pub pool_size : ℕ

abbrev pub default_builder : AsyncLocalBridgeBuilder
default_builder = record {
  connect_timeout = 5000;
  init_timeout = 5000000;
  addr = default_simulator_host;
  pool_size = 1;
}

abbrev pub connect_timeout : Duration → AsyncLocalBridgeBuilder → AsyncLocalBridgeBuilder
connect_timeout timeout b = record b { connect_timeout = timeout }

abbrev pub init_timeout : Duration → AsyncLocalBridgeBuilder → AsyncLocalBridgeBuilder
init_timeout timeout b = record b { init_timeout = timeout }

abbrev pub addr : Text → AsyncLocalBridgeBuilder → AsyncLocalBridgeBuilder
addr address b = record b { addr = address }

abbrev pub pool_size : ℕ → AsyncLocalBridgeBuilder → AsyncLocalBridgeBuilder
pool_size size b = record b { pool_size = size }

-- The pool in one round of `ensure_initialized`, and how the wait of the round ends.
pub record AsyncWatch : Type 0 where
  pub pool : AsyncPool.AsyncConnectionPool
  pub elapsed : Duration
  pub waited : AsyncPool.Waited

abbrev pub look : AsyncWatch → AsyncPool.Look
look w = record { result = w.pool.init_result; elapsed = w.elapsed; waited = w.waited }

abbrev pub is_told : Option (Text ⊎ Unit {0}) → Bool
is_told none = false
is_told (some _) = true

abbrev pub last_watched :
    AsyncPool.AsyncConnectionPool → List AsyncWatch → AsyncPool.AsyncConnectionPool
last_watched pool [] = pool
last_watched pool (w ∷ ws) = if is_told w.pool.init_result then w.pool else last_watched w.pool ws

-- `AsyncLocalBridgeBuilder::build`, at the time `now`.
unfoldable pub build :
    (Duration → Text)
    → AsyncLocalBridgeBuilder
    → Duration
    → List AsyncWatch
    → Result BridgeError AsyncPool.AsyncConnectionPool
build show_duration b now watches = do
  pool ← AsyncPool.new b.pool_size (new now)
  _ ← AsyncPool.ensure_initialized show_duration b.init_timeout (map look watches)
  ok (last_watched pool watches)
