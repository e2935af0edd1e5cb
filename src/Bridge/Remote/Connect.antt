-- ===== src/Bridge/Remote/Connect.antt =====
-- How the bridges of src/bridge/remote/mod.rs and src/bridge/remote/async_impl.rs connect. The network
-- is a parameter: names, connections and the options of sockets are the standard library's and tokio's.
use realflight_bridge.Base.{◌≡◌, refl, ◌⊎◌, inl, inr, Option, none, some, List, [], ◌∷◌, ◌++◌}
use realflight_bridge.Outcome.{Result, ok, err, ◌>>=◌, ok_or, map_err, of_sum}
use realflight_bridge.Text.{Text, codes}
use realflight_bridge.Types.{BridgeError, IoError, invalid_input, Duration}
use realflight_bridge.Bridge.Remote.{Connection}

-- How an attempt to connect ends within its time.
pub data Attempt : Type 0 where
  stream : Connection → Attempt
  refused : IoError → Attempt
  not_in_time : Attempt

-- `to_socket_addrs`; connecting and `set_nodelay`, the standard library's and tokio's each; `try_clone`;
-- the error that `connect_timeout` gives when the time is up; and the texts of errors and durations.
-- `connect` is tokio's under its `timeout`.
pub record Network : Type 1 where
  pub Address : Type 0
  pub to_socket_addrs : Text → IoError ⊎ List Address
  pub connect_timeout : Address → Duration → Attempt
  pub connect : Address → Duration → Attempt
  pub set_nodelay : Connection → IoError ⊎ Unit {0}
  pub set_nodelay_async : Connection → IoError ⊎ Unit {0}
  pub try_clone : Connection → IoError ⊎ Unit {0}
  pub timeout_error : IoError
  pub show_error : IoError → Text
  pub show_duration : Duration → Text

abbrev pub next : {A : Type 0} → List A → Option A
next [] = none
next (a ∷ _) = some a

-- DEFAULT_TIMEOUT of both.
abbrev pub default_timeout : Duration
default_timeout = 5000000

abbrev pub invalid_address : IoError
invalid_address = record { kind = invalid_input; message = codes "Invalid address" }

module _ (net : Network) where
  -- `TcpStream::connect_timeout`.
  abbrev pub connected : Attempt → Result IoError Connection
  connected (stream c) = ok c
  connected (refused e) = err e
  connected not_in_time = err net.timeout_error

  -- `RealFlightRemoteBridge::with_timeout`.
  unfoldable pub with_timeout : Text → Duration → Result IoError Connection
  with_timeout address timeout = do
    addrs ← of_sum (net.to_socket_addrs address)
    addr ← ok_or (next addrs) invalid_address
    c ← connected (net.connect_timeout addr timeout)
    _ ← of_sum (net.set_nodelay c)
    _ ← of_sum (net.try_clone c)
    ok c

  unfoldable pub new : Text → Result IoError Connection
  unfolding with_timeout
  new address = with_timeout address default_timeout

-- AsyncRemoteBridgeBuilder.
pub record AsyncRemoteBridgeBuilder : Type 0 where
  pub address : Text
  pub connect_timeout : Duration

abbrev pub builder : Text → AsyncRemoteBridgeBuilder
builder address = record { address = address; connect_timeout = default_timeout }

abbrev pub timeout : Duration → AsyncRemoteBridgeBuilder → AsyncRemoteBridgeBuilder
timeout t b = record b { connect_timeout = t }

module _ (net : Network) where
  -- An error with a text before it.
  abbrev pub failed : Text → IoError → BridgeError
  failed what e = BridgeError.initialization (what ++ net.show_error e)

  -- tokio's `timeout` around `connect`, and the errors of both.
  unfoldable pub in_time : Duration → Attempt → Result BridgeError Connection
  in_time limit (stream c) = ok c
  in_time limit (refused e) = err (failed (codes "Connection failed: ") e)
  in_time limit not_in_time =
      err
        (BridgeError.initialization (codes "Connection timeout after " ++ net.show_duration limit))

  unfoldable pub build : AsyncRemoteBridgeBuilder → Result BridgeError Connection
  unfolding in_time
  build b = do
    addrs ← map_err (failed (codes "Invalid address: ")) (of_sum (net.to_socket_addrs b.address))
    addr ← ok_or (next addrs) (BridgeError.initialization (codes "Invalid address"))
    c ← in_time b.connect_timeout (net.connect addr b.connect_timeout)
    _ ← map_err (failed (codes "Failed to set nodelay: ")) (of_sum (net.set_nodelay_async c))
    ok c

-- Both have the same connection; or both have an error, of the initialisation in the async bridge; or
-- the async bridge has a connection that the sync one could not clone.
abbrev pub Agree : Network → Result IoError Connection → Result BridgeError Connection → Type 0
Agree net (ok c) (ok d) = (c ≡ d) × (net.try_clone d ≡ inr tt)
Agree net (err x) (ok d) = net.try_clone d ≡ inl x
Agree net (err _) (err e) = (m : Text) × (e ≡ BridgeError.initialization m)
Agree _ _ _ = ⊥

module _ (net : Network) where
  -- The standard library and tokio have the same answers of the network and of a socket.
  pub record IsAlike : Type 0 where
    pub alike_connect : (a : net.Address) (t : Duration) → net.connect_timeout a t ≡ net.connect a t
    pub alike_set : (c : Connection) → net.set_nodelay c ≡ net.set_nodelay_async c

  clone-Agree :
      (c : Connection) (cloned : IoError ⊎ Unit {0})
      → net.try_clone c ≡ cloned
      → Agree net (do _ ← of_sum cloned; ok c) (ok c)
  clone-Agree c (inl x) e = e
  clone-Agree c (inr _) e = (refl, e)

  set-Agree :
      (c : Connection) (set : IoError ⊎ Unit {0})
      → Agree net
          (do _ ← of_sum set; _ ← of_sum (net.try_clone c); ok c)
          (do _ ← map_err (failed net (codes "Failed to set nodelay: ")) (of_sum set); ok c)
  set-Agree c (inl e) = (_, refl)
  set-Agree c (inr _) = clone-Agree c (net.try_clone c) refl

  module _ (alike : IsAlike) where
    attempt-Agree :
        (limit : Duration) (a : Attempt)
        → Agree net
            (do
              c ← connected net a
              _ ← of_sum (net.set_nodelay c)
              _ ← of_sum (net.try_clone c)
              ok c)
            (do
              c ← in_time net limit a
              _ ←
                  map_err
                    (failed net (codes "Failed to set nodelay: "))
                    (of_sum (net.set_nodelay_async c))
              ok c)
    unfolding in_time
    attempt-Agree limit (stream c) = rw (alike.alike_set c) (set-Agree c (net.set_nodelay_async c))
    attempt-Agree limit (refused e) = (_, refl)
    attempt-Agree limit not_in_time = (_, refl)

    addrs-Agree :
        (limit : Duration) (addrs : IoError ⊎ List net.Address)
        → Agree net
            (do
              found ← of_sum addrs
              addr ← ok_or (next found) invalid_address
              c ← connected net (net.connect_timeout addr limit)
              _ ← of_sum (net.set_nodelay c)
              _ ← of_sum (net.try_clone c)
              ok c)
            (do
              found ← map_err (failed net (codes "Invalid address: ")) (of_sum addrs)
              addr ← ok_or (next found) (BridgeError.initialization (codes "Invalid address"))
              c ← in_time net limit (net.connect addr limit)
              _ ←
                  map_err
                    (failed net (codes "Failed to set nodelay: "))
                    (of_sum (net.set_nodelay_async c))
              ok c)
    addrs-Agree limit (inl e) = (_, refl)
    addrs-Agree limit (inr []) = (_, refl)
    addrs-Agree limit (inr (a ∷ _)) =
        rw (alike.alike_connect a limit) (attempt-Agree limit (net.connect a limit))

    -- The two remote bridges connect alike, where the standard library and tokio have the same answers
    -- of the network and of a socket: both have the same connection, or both have an error, which in the
    -- async bridge is one of the initialisation, or only the async bridge has a connection, and the error
    -- of the sync one is that its socket cannot be cloned.
    pub build-Agree :
        (b : AsyncRemoteBridgeBuilder)
        → Agree net (with_timeout net b.address b.connect_timeout) (build net b)
    unfolding with_timeout build
    build-Agree b = addrs-Agree b.connect_timeout (net.to_socket_addrs b.address)
