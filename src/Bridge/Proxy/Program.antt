-- ===== src/Bridge/Proxy/Program.antt =====
-- Starting the proxy: AsyncProxyServer::new of src/bridge/proxy/mod.rs, and the program
-- src/bin/realflight_bridge_proxy.rs without its command line and its logging. The listener is tokio's,
-- and the Ctrl+C handler is seen by the `cancelled` among the events.
use realflight_bridge.Base.{◌⊎◌, List, []}
use realflight_bridge.Outcome.{Result, ok, err, panic, spin, ◌>>=◌, map_err, of_sum}
use realflight_bridge.Text.{Text}
use realflight_bridge.Text.Utf8.{Bytes}
use realflight_bridge.Types.{BridgeError, IoError}
use realflight_bridge.Bridge.{RealFlightBridge}
use realflight_bridge.Bridge.Wire.{Codec}
use realflight_bridge.Bridge.Proxy.{Event, run}

-- `TcpListener::bind` and `local_addr`.
pub record Sockets (Listener Address : Type 0) : Type 0 where
  pub bind : Text → IoError ⊎ Listener
  pub local_addr : Listener → IoError ⊎ Address

pub record AsyncProxyServer (Listener Address : Type 0) : Type 0 where
  pub listener : Listener
  pub local_addr : Address

module _ {Listener Address : Type 0} (sockets : Sockets Listener Address) where
  unfoldable pub new : Text → Result BridgeError (AsyncProxyServer Listener Address)
  new bind_address = do
    listener ← map_err BridgeError.connection (of_sum (sockets.bind bind_address))
    local_addr ← map_err BridgeError.connection (of_sum (sockets.local_addr listener))
    ok (record { listener = listener; local_addr = local_addr })

module _ {Listener Address S : Type 0} (codec : Codec) (bridge : RealFlightBridge S) where
  unfoldable pub serve_on :
      Result BridgeError (AsyncProxyServer Listener Address)
      → Result BridgeError S
      → List Event
      → Result BridgeError (Unit {0}) × List Bytes
  serve_on (ok server) made events = run codec bridge made events
  serve_on (err e) made events = (err e, [])
  serve_on panic made events = (panic, [])
  serve_on spin made events = (spin, [])

  -- `made` is the bridge to the simulator, or the error of its making.
  unfoldable pub main :
      Sockets Listener Address
      → Text
      → Result BridgeError S
      → List Event
      → Result BridgeError (Unit {0}) × List Bytes
  unfolding serve_on
  main sockets bind_address made events = serve_on (new sockets bind_address) made events
