-- ===== src/Bridge.antt =====
-- src/bridge.rs: the interface of the bridges. `S` is what a bridge changes: its own fields, and the
-- simulator behind it. The trait and its async version have the same operations.
pub mod Local
pub mod Wire
pub mod Remote
pub mod Proxy
use realflight_bridge.Outcome.{Result}
use realflight_bridge.Types.{BridgeError, ControlInputs, SimulatorState}

pub record RealFlightBridge (S : Type 0) : Type 0 where
  pub exchange_data : ControlInputs → S → Result BridgeError SimulatorState × S
  pub enable_rc : S → Result BridgeError (Unit {0}) × S
  pub disable_rc : S → Result BridgeError (Unit {0}) × S
  pub reset_aircraft : S → Result BridgeError (Unit {0}) × S
