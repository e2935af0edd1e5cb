-- ===== src/Tests/Requests.antt =====
-- Requests of the SOAP client at concrete actions.
use realflight_bridge.Base.{◌≡◌, refl, none, [], ◌∷◌, ◌++◌, arith}
use realflight_bridge.Outcome.{ok, panic}
use realflight_bridge.Text.{codes, str_len, char_len}
use realflight_bridge.Text.Utf8.{utf8}
use realflight_bridge.Types.{IoError, IoKind}
use realflight_bridge.Net.{Writer}
use realflight_bridge.Soap.{crlf, parse_content_length}
use realflight_bridge.Soap.Headers.{parse_content_length-panics}
use realflight_bridge.Tcp.{send_request}
use realflight_bridge.Tcp.ReadBack.{received, send_request-received}

-- The envelope has a character of three bytes.
send_request-received_example :
    (sent : Writer) × (send_request
        (record { written = []; fault = none })
        (codes "ResetAircraft")
        (codes "<a>€</a>")
      ≡ ok sent)
    × (received 4 sent.written ≡ ok (codes "POST / HTTP/1.1" ++ crlf, utf8 (codes "<a>€</a>"), []))
unfolding str_len char_len
send_request-received_example =
    send_request-received (codes "ResetAircraft") (codes "<a>€</a>") 4 refl refl (omega arith)
      (omega arith)

-- The connection is reset within a status line.
abbrev reset : IoError
reset = record { kind = IoKind.other; message = codes "connection reset" }

-- A name with a euro sign across its fifteenth byte.
parse_content_length-panics_example :
    parse_content_length (codes "X-Name: abcdef" ++ 0x20ac ∷ crlf) ≡ panic
unfolding str_len char_len
parse_content_length-panics_example =
    parse_content_length-panics (codes "X-Name: abcdef") 0x20ac crlf (omega arith) (omega arith)
