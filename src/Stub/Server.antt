-- ===== src/Stub/Server.antt =====
-- src/tests/soap_stub.rs: the TCP server that the tests of the bridges run against. What it waits for
-- is given to it, connection by connection; the loop over the header lines takes fuel. The files of
-- testdata/responses are a parameter, as in Stub.Blocking.
pub mod Requests
pub mod Answers
pub mod Served
use realflight_bridge.Base.{
  ℕ, zero, suc, Bool, true, false, Option, none, some, List, [], ◌∷◌, ◌++◌, map, length, ◌==◌,
  if◌then◌else◌,
}
use realflight_bridge.Outcome.{Result, ok, err, panic, spin, ◌>>=◌, or_panic}
use realflight_bridge.Text.{Text, codes, text_eq}
use realflight_bridge.Text.Search.{starts_with}
use realflight_bridge.Text.Split.{split_whitespace, to_ascii_lowercase}
use realflight_bridge.Text.Utf8.{utf8, from_utf8_lossy}
use realflight_bridge.Types.{BridgeError, IoError}
use realflight_bridge.Net.{Reader, Writer, read_line, read_exact, write_all}
use realflight_bridge.Soap.{crlf, second, length_value}
use realflight_bridge.Stub.Blocking.{load_response, unwrap}

-- The worker thread's state. The last of the responses is the next.
pub record Worker : Type 0 where
  pub responses : List Text
  pub requests : List Text

-- The second word of a line as a length, if there is one.
abbrev pub parsed : Option Text → Option ℕ → Option ℕ
parsed none old = old
parsed (some s) old = length_value (some s)

-- What a line makes of the length that was announced before it. `to_lowercase` is seen on ASCII
-- letters only, since no other character has one of the name's letters in its lower case.
unfoldable pub announced_length : Text → Option ℕ → Option ℕ
announced_length line old =
    if starts_with (map to_ascii_lowercase line) (codes "content-length:")
    then parsed (second (split_whitespace line)) old
    else old

abbrev pub unwrap_or_zero : Option ℕ → ℕ
unwrap_or_zero none = 0
unwrap_or_zero (some n) = n

-- A line that is read, or what is done where it cannot be.
abbrev pub with_line :
    {A : Type 0}
    → Result IoError (Text × Reader)
    → (Text → Reader → Result BridgeError A)
    → Result BridgeError A
    → Result BridgeError A
with_line (ok (line, r)) then_do otherwise = then_do line r
with_line _ then_do otherwise = otherwise

-- The loop over the header lines; a line that cannot be read ends it with 0.
unfoldable pub content_length : ℕ → Option ℕ → Reader → Result BridgeError (ℕ × Reader)
unfolding announced_length
content_length zero found r = spin
content_length (suc fuel) found r =
    with_line (read_line r)
      (λ line r'.
        if text_eq line crlf
        then ok (unwrap_or_zero found, r')
        else content_length fuel (announced_length line found) r')
      (ok (0, r))

unfoldable pub read_request_body : ℕ → Reader → Result BridgeError (Text × Reader)
unfolding content_length
read_request_body fuel r = do
  (n, r') ← content_length fuel none r
  (if n == 0
      then ok ([], r')
      else (do (block, r'') ← unwrap (read_exact n r'); ok (from_utf8_lossy block, r'')))

abbrev pub record_request : Text → Worker → Worker
record_request request w = record w { requests = w.requests ++ request ∷ [] }

-- `Vec::pop`: the last element, and those before it.
abbrev pub behind_first : Text → Option (Text × List Text) → Option (Text × List Text)
behind_first r none = some (r, [])
behind_first r (some (x, front)) = some (x, r ∷ front)

unfoldable pub pop : List Text → Option (Text × List Text)
pop [] = none
pop (r ∷ rs) = behind_first r (pop rs)

-- What `incoming` gives: a connection, or an error.
pub data Incoming : Type 0 where
  refused : IoError → Incoming
  connected : Reader → Writer → Incoming

-- Does the loop go on to the next connection?
pub data Flow : Type 0 where
  go_on leave : Flow

abbrev pub is_empty : Text → Bool
is_empty [] = true
is_empty (_ ∷ _) = false

abbrev pub nothing_left : List Text → Bool
nothing_left [] = true
nothing_left (_ ∷ _) = false

module _ (read_file : Text → Option Text) where
  -- The text of the response is built as in Stub.Blocking.
  unfoldable pub send_response : Writer → Text → Result BridgeError Writer
  unfolding load_response
  send_response stream key = do
    buffer ← load_response read_file key
    unwrap (write_all (utf8 buffer) stream)

  unfoldable pub respond_with :
      Option (Text × List Text) → Worker → Writer → Result BridgeError (Flow × Worker × Writer)
  unfolding send_response
  respond_with none w stream = ok (go_on, w, stream)
  respond_with (some (key, rest)) w stream = do
    stream' ← send_response stream key
    ok (go_on, record w { responses = rest }, stream')

  -- One connection that has come in.
  unfoldable pub serve : ℕ → Worker → Reader → Writer → Result BridgeError (Flow × Worker × Writer)
  serve fuel w reader stream =
      with_line (read_line reader)
        (λ line r. do
          (body, _) ← read_request_body fuel r
          (if is_empty body
              then ok (leave, w, stream)
              else respond_with (pop w.responses) (record_request body w) stream))
        (ok (leave, w, stream))

  -- What is behind a connection.
  abbrev pub behind :
      Flow
      → Worker
      → Result BridgeError (Worker × List Writer)
      → Result BridgeError (Worker × List Writer)
  behind go_on w rest = rest
  behind leave w rest = ok (w, [])

  -- The worker's loop, for the connections that come in; it ends with the first one that it finds no
  -- response for. The connections' other halves are given back.
  unfoldable pub start_worker :
      ℕ → List Incoming → Worker → Result BridgeError (Worker × List Writer)
  start_worker fuel [] w = ok (w, [])
  start_worker fuel (refused e ∷ more) w = ok (w, [])
  start_worker fuel (connected reader stream ∷ more) w =
      if nothing_left w.responses then ok (w, []) else (do
        (flow, w', stream') ← serve fuel w reader stream
        (w'', streams) ← behind flow w' (start_worker fuel more w')
        ok (w'', stream' ∷ streams))

-- The server: what it shares with its worker, and the flag `running`, which the worker does not read.
pub record Server : Type 0 where
  pub worker : Worker
  pub running : Bool

abbrev pub new : List Text → Server
new responses = record { worker = record { responses = responses; requests = [] }; running = true }

abbrev pub requests : Server → List Text
requests s = s.worker.requests

abbrev pub request_count : Server → ℕ
request_count s = length s.worker.requests

-- The drop, before it waits for the worker to end.
abbrev pub drop_server : Server → Server
drop_server s = record s { running = false }
