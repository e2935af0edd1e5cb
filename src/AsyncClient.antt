-- ===== src/AsyncClient.antt =====
-- src/soap_client/tcp_async.rs: AsyncTcpSoapClient is its pool here. A request that waits for a
-- connection has no result yet. The loop over the header lines takes fuel.
pub mod Counting
pub mod Kept
pub mod Same
use realflight_bridge.Base.{ℕ, zero, suc, Option, none, some, if◌then◌else◌}
use realflight_bridge.Outcome.{Result, ok, err, panic, spin, ◌>>=◌, map_err}
use realflight_bridge.Text.{Text, codes, text_eq}
use realflight_bridge.Text.Utf8.{utf8}
use realflight_bridge.Types.{BridgeError}
use realflight_bridge.Net.{Reader, Writer, read_line, read_exact, write_all}
use realflight_bridge.Soap.{
  SoapResponse, encode_envelope, build_http_request, parse_status_line, parse_content_length,
  create_response, crlf,
}
use realflight_bridge.Statistics.{increment_request_count}
use realflight_bridge.AsyncPool.{AsyncConnectionPool, get_connection}

-- The request, written and flushed.
unfoldable pub send_request : Writer → Text → Text → Result BridgeError Writer
send_request stream action envelope =
    map_err BridgeError.connection (write_all (utf8 (build_http_request action envelope)) stream)

-- The content length behind a header line, where the line has one.
abbrev pub keep_length : Option ℕ → Option ℕ → Option ℕ
keep_length content_length (some length) = some length
keep_length content_length none = content_length

-- The loop over the header lines: it is left at the empty line.
unfoldable pub read_headers : ℕ → Option ℕ → Reader → Result BridgeError (Option ℕ × Reader)
read_headers zero content_length reader = spin
read_headers (suc fuel) content_length reader = do
  (line, reader') ← map_err BridgeError.connection (read_line reader)
  (if text_eq line crlf then ok (content_length, reader') else (do
    length ← parse_content_length line
    read_headers fuel (keep_length content_length length) reader'))

-- The body, of as many bytes as the headers say.
unfoldable pub read_body : ℕ → Option ℕ × Reader → Result BridgeError SoapResponse
read_body status_code (none, reader) =
    err (BridgeError.soap_fault (codes "Missing Content-Length header"))
read_body status_code (some length, reader) = do
  (body, _) ← map_err BridgeError.connection (read_exact length reader)
  ok (create_response status_code body)

unfoldable pub read_response : ℕ → Reader → Result BridgeError SoapResponse
read_response fuel reader = do
  (status_line, reader') ← map_err BridgeError.connection (read_line reader)
  status_code ← parse_status_line status_line
  headers ← read_headers fuel none reader'
  read_body status_code headers

-- A request that was sent is counted; then the response is read.
unfoldable pub answer :
    ℕ
    → Reader
    → Result BridgeError Writer
    → AsyncConnectionPool
    → Result BridgeError SoapResponse × AsyncConnectionPool
answer fuel reader (ok _) p =
    (read_response fuel reader, record p { statistics = increment_request_count p.statistics })
answer fuel reader (err e) p = (err e, p)
answer fuel reader panic p = (panic, p)
answer fuel reader spin p = (spin, p)

-- `streams` are the connections, by their numbers.
module _ (streams : ℕ → Reader × Writer) where
  unfoldable pub request_over :
      ℕ
      → Text
      → Text
      → Option (Result BridgeError ℕ × AsyncConnectionPool)
      → Option (Result BridgeError SoapResponse × AsyncConnectionPool)
  unfolding answer
  request_over fuel action envelope none = none
  request_over fuel action envelope (some (ok n, p)) =
      some (answer fuel (streams n).0 (send_request (streams n).1 action envelope) p)
  request_over fuel action envelope (some (err e, p)) = some (err e, p)
  request_over fuel action envelope (some (panic, p)) = some (panic, p)
  request_over fuel action envelope (some (spin, p)) = some (spin, p)

  -- `AsyncSoapClient::send_action`.
  unfoldable pub send_action :
      ℕ
      → Text
      → Text
      → AsyncConnectionPool
      → Option (Result BridgeError SoapResponse × AsyncConnectionPool)
  unfolding request_over
  send_action fuel action body p =
      request_over fuel action (encode_envelope action body) (get_connection p)
