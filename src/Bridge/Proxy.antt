-- ===== src/Bridge/Proxy.antt =====
-- src/bridge/proxy/mod.rs and src/bridge/proxy/handler.rs: the server that carries out the requests of
-- its clients, one client after the other, on a bridge. `S` is the state of the bridge.
-- `set_nodelay` is taken to succeed.
pub mod Sessions
pub mod EndToEnd
pub mod Server
pub mod Race
pub mod Cut
pub mod WholeWay
pub mod Program
use realflight_bridge.Base.{
  ℕ, ◌⊎◌, inl, inr, Bool, true, false, Option, none, some, List, [], ◌∷◌, ◌++◌,
}
use realflight_bridge.Outcome.{Result, ok, err, panic, spin, ◌>>=◌, map_err, of_sum}
use realflight_bridge.Text.{Text, codes}
use realflight_bridge.Text.Utf8.{Bytes}
use realflight_bridge.Types.{BridgeError, IoError, SimulatorState}
use realflight_bridge.Net.{Reader, Writer, read_exact}
use realflight_bridge.Bridge.{RealFlightBridge}
use realflight_bridge.Bridge.Wire.{
  RequestType, Request, Response, success_response, success_with, error_response, Codec,
  from_be_bytes, write_frame, taken,
}

-- One client of the server, and the bridge.
pub record Session (S : Type 0) : Type 0 where
  pub reader : Reader
  pub writer : Writer
  pub bridge_state : S

-- How the body of the loop ends, where it does not return.
pub data Flow : Type 0 where
  break continue : Flow

-- An error of the bridge is logged, and the client is told that there was one.
unfoldable pub answered :
    {S A : Type 0} → (A → Response) → Result BridgeError A × S → Result BridgeError Response × S
answered f (ok a, s) = (ok (f a), s)
answered f (err e, s) = (ok error_response, s)
answered f (panic, s) = (panic, s)
answered f (spin, s) = (spin, s)

module _ {S : Type 0} (bridge : RealFlightBridge S) where
  unfoldable pub process_request : Request → S → Result BridgeError Response × S
  unfolding answered
  process_request request s = elim request.request_type [
    | RequestType.enable_rc ↦ answered (λ _. success_response) (bridge.enable_rc s)
    | RequestType.disable_rc ↦ answered (λ _. success_response) (bridge.disable_rc s)
    | RequestType.reset_aircraft ↦ answered (λ _. success_response) (bridge.reset_aircraft s)
    | RequestType.exchange_data ↦ elim request.payload [
      | none ↦ (ok error_response, s)
      | some payload ↦ answered success_with (bridge.exchange_data payload s)
    ]
  ]

module _ (codec : Codec) where
  unfoldable pub send_response : Writer → Response → Result BridgeError Writer
  send_response writer response = do
    bytes ←
        map_err (λ e. BridgeError.soap_fault (codes "Failed to serialize response: " ++ e))
          (of_sum (codec.response_to_stdvec response))
    map_err BridgeError.connection (write_frame bytes writer)

module _ {S : Type 0} (codec : Codec) (bridge : RealFlightBridge S) where
  unfoldable pub replied :
      Result BridgeError Writer → Session S → Result BridgeError Flow × Session S
  replied (ok w) c = (ok continue, record c { writer = w })
  replied (err e) c = (err e, c)
  replied panic c = (panic, c)
  replied spin c = (spin, c)

  unfoldable pub at_response :
      Result BridgeError Response × S → Session S → Result BridgeError Flow × Session S
  unfolding replied
  at_response (ok response, s) c =
      replied (send_response codec c.writer response) (record c { bridge_state = s })
  at_response (err e, s) c = (err e, record c { bridge_state = s })
  at_response (panic, s) c = (panic, record c { bridge_state = s })
  at_response (spin, s) c = (spin, record c { bridge_state = s })

  -- A request that cannot be read is skipped, without a response.
  unfoldable pub at_request : Text ⊎ Request → Session S → Result BridgeError Flow × Session S
  unfolding at_response
  at_request (inl e) c = (ok continue, c)
  at_request (inr request) c = at_response (process_request bridge request c.bridge_state) c

  unfoldable pub at_body :
      Result IoError Bytes × Reader → Session S → Result BridgeError Flow × Session S
  unfolding at_request
  at_body (ok buffer, r) c = at_request (codec.request_from_bytes buffer) (record c { reader = r })
  at_body (err e, r) c = (err (BridgeError.connection e), record c { reader = r })
  at_body (panic, r) c = (panic, record c { reader = r })
  at_body (spin, r) c = (spin, record c { reader = r })

  -- The client has disconnected where no length can be read.
  unfoldable pub at_length :
      Result IoError Bytes × Reader → Session S → Result BridgeError Flow × Session S
  unfolding at_body
  at_length (ok length_buffer, r) c =
      at_body (taken r (read_exact (from_be_bytes length_buffer) r)) c
  at_length (err e, r) c = (ok break, record c { reader = r })
  at_length (panic, r) c = (panic, record c { reader = r })
  at_length (spin, r) c = (spin, record c { reader = r })

  unfoldable pub round : Session S → Result BridgeError Flow × Session S
  unfolding at_length
  round c = at_length (taken c.reader (read_exact 4 c.reader)) c

  unfoldable pub after :
      Result BridgeError Flow × Session S
      → (Session S → Result BridgeError (Unit {0}) × Session S)
      → Result BridgeError (Unit {0}) × Session S
  after (ok break, c) again = (ok tt, c)
  after (ok continue, c) again = again c
  after (err e, c) again = (err e, c)
  after (panic, c) again = (panic, c)
  after (spin, c) again = (spin, c)

  -- Each round of the loop is told if the token is cancelled before a length has come.
  unfoldable pub handle_client : List Bool → Session S → Result BridgeError (Unit {0}) × Session S
  unfolding after
  handle_client [] c = (spin, c)
  handle_client (true ∷ rounds) c = (ok tt, c)
  handle_client (false ∷ rounds) c = after (round c) (handle_client rounds)

-- What the server's loop waits for: the token, or a client, with the rounds of its session.
pub data Event : Type 0 where
  cancelled : Event
  accepted : Reader → Writer → List Bool → Event
  failed : IoError → Event

module _ {S : Type 0} (codec : Codec) (bridge : RealFlightBridge S) where
  -- The error of a client is logged, and the server goes on.
  unfoldable pub go_on :
      Result BridgeError (Unit {0}) × Session S
      → (S → Result BridgeError (Unit {0}) × List Bytes × S)
      → Result BridgeError (Unit {0}) × List Bytes × S
  go_on (ok _, c) again =
      let (result, outputs, s) = again c.bridge_state in (result, c.writer.written ∷ outputs, s)
  go_on (err e, c) again =
      let (result, outputs, s) = again c.bridge_state in (result, c.writer.written ∷ outputs, s)
  go_on (panic, c) again = (panic, c.writer.written ∷ [], c.bridge_state)
  go_on (spin, c) again = (spin, c.writer.written ∷ [], c.bridge_state)

  -- The loop of the server. With its result go the bytes that each client has got.
  unfoldable pub run_with_bridge : List Event → S → Result BridgeError (Unit {0}) × List Bytes × S
  unfolding go_on
  run_with_bridge [] s = (spin, [], s)
  run_with_bridge (cancelled ∷ es) s = (ok tt, [], s)
  run_with_bridge (accepted r w rounds ∷ es) s =
      go_on
        (handle_client codec bridge rounds (record { reader = r; writer = w; bridge_state = s }))
        (run_with_bridge es)
  run_with_bridge (failed e ∷ es) s = run_with_bridge es s

  -- What the server does with a bridge, or with the error of its making.
  unfoldable pub run :
      Result BridgeError S → List Event → Result BridgeError (Unit {0}) × List Bytes
  run (ok s) es = let (result, outputs, s') = run_with_bridge es s in (result, outputs)
  run (err e) es = (err e, [])
  run panic es = (panic, [])
  run spin es = (spin, [])
