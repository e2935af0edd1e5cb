-- ===== src/Bridge/Remote/Shared.antt =====
-- src/bridge/remote/async_impl.rs with several tasks at one bridge: a task holds the lock of the writer
-- while it sends its request, gives it back, and then takes the lock of the reader for the response.
-- Between the two any other task may run. Tasks are numbered.
pub mod Order
use realflight_bridge.Base.{
  ℕ, ◌||◌, Bool, true, false, Option, none, some, List, [], ◌∷◌, ◌++◌, ◌==◌, if◌then◌else◌,
}
use realflight_bridge.Outcome.{Result, ok, err, panic, spin}
use realflight_bridge.Types.{BridgeError}
use realflight_bridge.Net.{Writer}
use realflight_bridge.Bridge.Wire.{Request, Response, Codec, read_frame}
use realflight_bridge.Bridge.Remote.{Connection, WireErrors, write_request, parse_response}

-- The tasks that have sent their requests and have no response yet, and the results of the others, in
-- the order in which they came.
pub record Shared : Type 0 where
  pub connection : Connection
  pub waiting : List ℕ
  pub results : List (ℕ × Result BridgeError Response)

-- What one task does between taking a lock and giving it back.
pub data Turn : Type 0 where
  writes : ℕ → Request → Turn
  reads : ℕ → Turn

abbrev pub contains : List ℕ → ℕ → Bool
contains [] n = false
contains (m ∷ ms) n = m == n || contains ms n

abbrev pub without : List ℕ → ℕ → List ℕ
without [] n = []
without (m ∷ ms) n = if m == n then without ms n else m ∷ without ms n

module _ (errors : WireErrors) (codec : Codec) where
  -- A request that was not sent has its result at once.
  unfoldable pub wrote : ℕ → Result BridgeError Writer → Shared → Shared
  wrote i (ok w) s = record s {
    connection = record (s.connection) { writer = w };
    waiting = i ∷ s.waiting;
  }
  wrote i (err e) s = record s { results = s.results ++ (i, err e) ∷ [] }
  wrote i panic s = record s { results = s.results ++ (i, panic) ∷ [] }
  wrote i spin s = record s { results = s.results ++ (i, spin) ∷ [] }

  unfoldable pub take_response : ℕ → Shared → Shared
  take_response i s =
      let (received, r) = read_frame s.connection.reader in
      record s {
        connection = record (s.connection) { reader = r };
        waiting = without s.waiting i;
        results = s.results ++ (i, parse_response errors codec received) ∷ [];
      }

  -- A task reads after it has written, and once.
  unfoldable pub turn : Turn → Shared → Option Shared
  unfolding wrote take_response
  turn (writes i request) s =
      if contains s.waiting i
      then none
      else some (wrote i (write_request errors codec request s.connection.writer) s)
  turn (reads i) s = if contains s.waiting i then some (take_response i s) else none

  unfoldable pub then_run : Option Shared → (Shared → Option Shared) → Option Shared
  then_run none rest = none
  then_run (some s) rest = rest s

  unfoldable pub run : List Turn → Shared → Option Shared
  unfolding then_run
  run [] s = some s
  run (t ∷ ts) s = then_run (turn t s) (run ts)
