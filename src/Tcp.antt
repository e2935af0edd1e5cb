-- ===== src/Tcp.antt =====
-- src/soap_client/tcp.rs: one SOAP request over a fresh connection. The loop over the header lines takes fuel.
pub mod Response
pub mod Parts
pub mod Requests
pub mod Truncated
pub mod ReadBack
pub mod Returns
pub mod Pooled
use realflight_bridge.Base.{
  ℕ, zero, suc, ◌+◌, Option, none, some, List, [], ◌∷◌, ◌++◌, if◌then◌else◌,
}
use realflight_bridge.Outcome.{Result, ok, err, panic, spin, ◌>>=◌, map_err, ok_or}
use realflight_bridge.Text.{Text, codes, text_eq}
use realflight_bridge.Text.Utf8.{utf8}
use realflight_bridge.Types.{BridgeError}
use realflight_bridge.Net.{Reader, Writer, read_line, read_exact, write_all}
use realflight_bridge.Soap.{
  SoapResponse, encode_envelope, build_http_request, parse_status_line, parse_content_length,
  create_response, crlf,
}
use realflight_bridge.Statistics.{StatisticsEngine, increment_request_count}

-- The last header with a length counts.
abbrev pub or_else : Option ℕ → Option ℕ → Option ℕ
or_else (some n) old = some n
or_else none old = old

-- The loop over the header lines, up to the empty one.
unfoldable pub read_headers : ℕ → Option ℕ → Reader → Result BridgeError (Option ℕ × Reader)
read_headers zero content_length r = spin
read_headers (suc fuel) content_length r = do
  (line, r') ← map_err BridgeError.connection (read_line r)
  (if text_eq line crlf then ok (content_length, r') else (do
    found ← parse_content_length line
    read_headers fuel (or_else found content_length) r'))

-- From the status line to the body.
unfoldable pub read_response : ℕ → Reader → Result BridgeError SoapResponse
read_response fuel r = do
  (status_line, r₁) ← map_err BridgeError.connection (read_line r)
  status_code ← parse_status_line status_line
  (content_length, r₂) ← read_headers fuel none r₁
  length ← ok_or content_length (BridgeError.soap_fault (codes "Missing Content-Length header"))
  (body, r₃) ← map_err BridgeError.connection (read_exact length r₂)
  ok (create_response status_code body)

unfoldable pub send_request : Writer → Text → Text → Result BridgeError Writer
send_request stream action envelope =
    map_err BridgeError.connection (write_all (utf8 (build_http_request action envelope)) stream)

-- `P` is the state of the pool that hands out the connections.
pub record TcpSoapClient (P : Type 0) : Type 0 where
  pub statistics : StatisticsEngine
  pub connection_pool : P

module _ {P : Type 0} where
  -- Once the connection is there: a failed request is not counted, and nothing is read.
  unfoldable pub respond :
      ℕ
      → Reader
      → Result BridgeError Writer
      → TcpSoapClient P
      → Result BridgeError SoapResponse × TcpSoapClient P
  respond fuel reader (ok _) c =
      (read_response fuel reader, record c { statistics = increment_request_count c.statistics })
  respond fuel reader (err e) c = (err e, c)
  respond fuel reader panic c = (panic, c)
  respond fuel reader spin c = (spin, c)

  unfoldable pub request_over :
      ℕ
      → Text
      → Text
      → TcpSoapClient P
      → Result BridgeError (Reader × Writer) × P
      → Result BridgeError SoapResponse × TcpSoapClient P
  unfolding respond
  request_over fuel action envelope c (ok (reader, writer), pool) =
      respond fuel reader (send_request writer action envelope)
        (record c { connection_pool = pool })
  request_over fuel action envelope c (err e, pool) = (err e, record c { connection_pool = pool })
  request_over fuel action envelope c (panic, pool) = (panic, record c { connection_pool = pool })
  request_over fuel action envelope c (spin, pool) = (spin, record c { connection_pool = pool })

  -- `SoapClient::send_action`; `get_connection` is the pool's.
  unfoldable pub send_action :
      (get_connection : P → Result BridgeError (Reader × Writer) × P)
      → ℕ
      → Text
      → Text
      → TcpSoapClient P
      → Result BridgeError SoapResponse × TcpSoapClient P
  unfolding request_over
  send_action get_connection fuel action body c =
      request_over fuel action (encode_envelope action body) c (get_connection c.connection_pool)
