-- ===== src/Bridge/Local.antt =====
-- src/bridge/local/mod.rs and the operations of src/bridge/local/async_impl.rs: the bridge over a SOAP
-- client, which is a parameter here, as it is in the source.
pub mod Build
pub mod Laws
pub mod Faults
use realflight_bridge.Base.{ℕ, Bool, [], ◌==◌, if◌then◌else◌}
use realflight_bridge.Outcome.{Result, ok, err, ◌>>=◌}
use realflight_bridge.Text.{Text, codes}
use realflight_bridge.Types.{FloatText, BridgeError, ControlInputs, SimulatorState}
use realflight_bridge.Decoder.{decode_simulator_state}
use realflight_bridge.Encoder.{encode_control_inputs}
use realflight_bridge.Soap.{SoapResponse, fault_message, into_result}
use realflight_bridge.Bridge.{RealFlightBridge}

-- `trait SoapClient`.
pub record SoapClient (S : Type 0) : Type 0 where
  pub send_action : (action body : Text) → S → Result BridgeError SoapResponse × S

abbrev empty_body : Text
empty_body = []

module _ (ft : FloatText) where
  -- What `exchange_data` makes of the answer.
  unfoldable pub exchange_result : SoapResponse → Result BridgeError SimulatorState
  exchange_result response =
      if response.status_code == 200
      then decode_simulator_state ft response.body
      else (do message ← fault_message response; err (BridgeError.soap_fault message))

  module _ {S : Type 0} (client : SoapClient S) where
    unfoldable pub exchange_data : ControlInputs → S → Result BridgeError SimulatorState × S
    exchange_data control s =
        let body = encode_control_inputs ft control in
        let (sent, s') = client.send_action (codes "ExchangeData") body s in
        (do response ← sent; exchange_result response, s')

module _ {S : Type 0} (client : SoapClient S) where
  -- An action without a body, and `into` on its answer.
  unfoldable pub command : Text → S → Result BridgeError (Unit {0}) × S
  command action s =
      let (sent, s') = client.send_action action empty_body s in
      (do response ← sent; into_result response, s')

  unfoldable pub enable_rc : S → Result BridgeError (Unit {0}) × S
  unfolding command
  enable_rc s = command (codes "RestoreOriginalControllerDevice") s

  unfoldable pub disable_rc : S → Result BridgeError (Unit {0}) × S
  unfolding command
  disable_rc s = command (codes "InjectUAVControllerInterface") s

  unfoldable pub reset_aircraft : S → Result BridgeError (Unit {0}) × S
  unfolding command
  reset_aircraft s = command (codes "ResetAircraft") s

-- `impl RealFlightBridge for RealFlightLocalBridge`.
unfoldable pub local_bridge : {S : Type 0} → FloatText → SoapClient S → RealFlightBridge S
unfolding exchange_data enable_rc disable_rc reset_aircraft
local_bridge ft client = record {
  exchange_data = exchange_data ft client;
  enable_rc = enable_rc client;
  disable_rc = disable_rc client;
  reset_aircraft = reset_aircraft client;
}
