-- ===== src/Bridge/Wire.antt =====
-- The messages between RealFlightRemoteBridge and the proxy (src/bridge/remote/mod.rs): their types, and
-- the frames that carry them. The serialisation is postcard's, and is a parameter.
pub mod Frames
use realflight_bridge.Base.{
  ℕ, ◌+◌, ◌*◌, ◌/◌, ◌%◌, ◌^◌, ◌≡◌, ◌⊎◌, inl, inr, Option, none, some, List, [], ◌∷◌, ◌++◌, length,
}
use realflight_bridge.Outcome.{Result, ok, err, panic, spin, ◌>>=◌, map_err, of_sum}
use realflight_bridge.Text.{Text, codes}
use realflight_bridge.Text.Utf8.{Bytes}
use realflight_bridge.Types.{BridgeError, IoError, invalid_data, ControlInputs, SimulatorState}
use realflight_bridge.Net.{Reader, Writer, read_exact, write_all}

pub data RequestType : Type 0 where
  enable_rc disable_rc reset_aircraft exchange_data : RequestType

pub record Request : Type 0 where
  pub request_type : RequestType
  pub payload : Option ControlInputs

pub data ResponseStatus : Type 0 where
  success error : ResponseStatus

pub record Response : Type 0 where
  pub status : ResponseStatus
  pub payload : Option SimulatorState

-- `Response::success`, `Response::success_with` and `Response::error`.
abbrev pub success_response : Response
success_response = record { status = success; payload = none }

abbrev pub success_with : SimulatorState → Response
success_with state = record { status = success; payload = some state }

abbrev pub error_response : Response
error_response = record { status = error; payload = none }

-- postcard's `to_stdvec` and `from_bytes`, with the messages of their errors.
pub record Codec : Type 0 where
  pub request_to_stdvec : Request → Text ⊎ Bytes
  pub request_from_bytes : Bytes → Text ⊎ Request
  pub response_to_stdvec : Response → Text ⊎ Bytes
  pub response_from_bytes : Bytes → Text ⊎ Response

-- `u32::to_be_bytes` and `u32::from_be_bytes`.
unfoldable pub to_be_bytes : ℕ → Bytes
to_be_bytes n = (n / 0x1000000 % 256) ∷ (n / 0x10000 % 256) ∷ (n / 0x100 % 256) ∷ (n % 256) ∷ []

abbrev be_digits : ℕ → Bytes → ℕ
be_digits acc [] = acc
be_digits acc (b ∷ bs) = be_digits (acc * 256 + b) bs

unfoldable pub from_be_bytes : Bytes → ℕ
from_be_bytes bs = be_digits 0 bs

-- `(bytes.len() as u32).to_be_bytes()`, then the bytes.
unfoldable pub write_frame : Bytes → Writer → Result IoError Writer
write_frame bytes w = do w' ← write_all (to_be_bytes (length bytes % 2 ^ 32)) w; write_all bytes w'

-- What reading leaves of a stream that ends too early: nothing.
abbrev pub drained : Reader → Reader
drained r = record r { inbound = [] }

abbrev pub taken : Reader → Result IoError (Bytes × Reader) → Result IoError Bytes × Reader
taken r (ok (bytes, r')) = (ok bytes, r')
taken r (err e) = (err e, drained r)
taken r panic = (panic, r)
taken r spin = (spin, r)

-- Four bytes for the length, then as many bytes as it says.
unfoldable pub read_body : Result IoError Bytes × Reader → Result IoError Bytes × Reader
read_body (ok length_buffer, r) = taken r (read_exact (from_be_bytes length_buffer) r)
read_body (err e, r) = (err e, r)
read_body (panic, r) = (panic, r)
read_body (spin, r) = (spin, r)

unfoldable pub read_frame : Reader → Result IoError Bytes × Reader
unfolding read_body
read_frame r = read_body (taken r (read_exact 4 r))
