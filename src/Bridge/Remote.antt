-- ===== src/Bridge/Remote.antt =====
-- src/bridge/remote/mod.rs and the requests of src/bridge/remote/async_impl.rs: the bridge that talks to
-- the proxy over one connection. Its response buffer is cleared before every use, and is left out.
pub mod Connect
pub mod Shared
use realflight_bridge.Base.{Option, none, some, ◌++◌}
use realflight_bridge.Outcome.{Result, ok, err, panic, spin, ◌>>=◌, map_err, of_sum}
use realflight_bridge.Text.{Text, codes}
use realflight_bridge.Text.Utf8.{Bytes}
use realflight_bridge.Types.{BridgeError, IoError, invalid_data, ControlInputs, SimulatorState}
use realflight_bridge.Net.{Reader, Writer}
use realflight_bridge.Bridge.{RealFlightBridge}
use realflight_bridge.Bridge.Wire.{RequestType, Request, Response, Codec, write_frame, read_frame}

pub record Connection : Type 0 where
  pub reader : Reader
  pub writer : Writer

-- The error for a message of postcard's: this is where the two bridges differ.
pub record WireErrors : Type 0 where
  pub serialization : Text → BridgeError
  pub deserialization : Text → BridgeError

abbrev invalid : Text → BridgeError
invalid m = BridgeError.connection (record { kind = invalid_data; message = m })

-- RealFlightRemoteBridge.
abbrev pub sync_errors : WireErrors
sync_errors = record { serialization = invalid; deserialization = invalid }

-- AsyncRemoteBridge.
abbrev pub async_errors : WireErrors
async_errors = record {
  serialization = λ m. BridgeError.soap_fault (codes "Serialization error: " ++ m);
  deserialization = λ m. BridgeError.soap_fault (codes "Deserialization error: " ++ m);
}

abbrev pub no_payload : BridgeError
no_payload = BridgeError.soap_fault (codes "No payload in response")

-- What `exchange_data` makes of the response.
unfoldable pub state_of : Response → Result BridgeError SimulatorState
state_of response = elim response.payload [ none ↦ err no_payload | some state ↦ ok state ]

module _ (errors : WireErrors) (codec : Codec) where
  unfoldable pub write_request : Request → Writer → Result BridgeError Writer
  write_request request writer = do
    bytes ← map_err errors.serialization (of_sum (codec.request_to_stdvec request))
    map_err BridgeError.connection (write_frame bytes writer)

  unfoldable pub parse_response : Result IoError Bytes → Result BridgeError Response
  parse_response received = do
    bytes ← map_err BridgeError.connection received
    map_err errors.deserialization (of_sum (codec.response_from_bytes bytes))

  unfoldable pub receive :
      Result BridgeError Writer → Connection → Result BridgeError Response × Connection
  receive (ok w) c =
      let (received, r) = read_frame c.reader in
      (parse_response received, record { reader = r; writer = w })
  receive (err e) c = (err e, c)
  receive panic c = (panic, c)
  receive spin c = (spin, c)

  unfoldable pub send_request :
      RequestType → Option ControlInputs → Connection → Result BridgeError Response × Connection
  unfolding receive
  send_request request_type payload c =
      receive (write_request (record { request_type = request_type; payload = payload }) c.writer) c

  unfoldable pub exchange_data :
      ControlInputs → Connection → Result BridgeError SimulatorState × Connection
  exchange_data control c =
      let (sent, c') = send_request RequestType.exchange_data (some control) c in
      (do response ← sent; state_of response, c')

  -- A request without a payload; the response is dropped.
  unfoldable pub command : RequestType → Connection → Result BridgeError (Unit {0}) × Connection
  command request_type c =
      let (sent, c') = send_request request_type none c in (do response ← sent; ok tt, c')

  unfoldable pub enable_rc : Connection → Result BridgeError (Unit {0}) × Connection
  unfolding command
  enable_rc c = command RequestType.enable_rc c

  unfoldable pub disable_rc : Connection → Result BridgeError (Unit {0}) × Connection
  unfolding command
  disable_rc c = command RequestType.disable_rc c

  unfoldable pub reset_aircraft : Connection → Result BridgeError (Unit {0}) × Connection
  unfolding command
  reset_aircraft c = command RequestType.reset_aircraft c

-- `impl RealFlightBridge for RealFlightRemoteBridge`, and AsyncBridge for AsyncRemoteBridge.
unfoldable pub remote_bridge : WireErrors → Codec → RealFlightBridge Connection
unfolding exchange_data enable_rc disable_rc reset_aircraft
remote_bridge errors codec = record {
  exchange_data = exchange_data errors codec;
  enable_rc = enable_rc errors codec;
  disable_rc = disable_rc errors codec;
  reset_aircraft = reset_aircraft errors codec;
}
