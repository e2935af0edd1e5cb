-- ===== src/Tests/Http.antt =====
-- Requests and responses at concrete texts.
use realflight_bridge.Base.{ℕ, suc, ◌≡◌, refl, none, some, List, [], ◌∷◌, ◌++◌, arith, length}
use realflight_bridge.Outcome.{Result, ok, spin, ◌>>=◌}
use realflight_bridge.Text.{Text, codes, str_len, char_len, split_at}
use realflight_bridge.Text.Search.{slice}
use realflight_bridge.Text.Number.{show_nat, parse_uint}
use realflight_bridge.Text.Split.{
  is_whitespace, eq_ignore_ascii_case, split_whitespace, trim, trim_start,
}
use realflight_bridge.Text.Utf8.{Bytes, utf8, is_scalar, encode_char}
use realflight_bridge.Types.{BridgeError, default_state}
use realflight_bridge.Decoder.Document.{render, well_formed, data_elements, decode_elements}
use realflight_bridge.Decoder.Document.Decode.{document}
use realflight_bridge.Net.{Reader, Writer}
use realflight_bridge.Soap.{crlf, parse_status_line, parse_content_length}
use realflight_bridge.Statistics.{
  new, increment_request_count, request_sent, failed, record_all, snapshot, snapshot_counts,
}
use realflight_bridge.Tcp.{TcpSoapClient, read_response, send_action}
use realflight_bridge.Tcp.Response.{send_lines, announced, response}
use realflight_bridge.Tcp.Parts.{by_parts, read_response-by_parts}
use realflight_bridge.Tcp.Requests.{IsAnswer, answer, send_action-answer}
use realflight_bridge.Tcp.Truncated.{read_response_truncated}
use realflight_bridge.Bridge.Local.{exchange_data}
use realflight_bridge.Bridge.Local.Laws.{tcp_client, exchange_data-answer}
use realflight_bridge.Tests.Samples.{pattern_text, sticks, small_root}

abbrev pub headers : List Text
headers = codes "Server: gSOAP" ∷ []

abbrev pub page : Text
page = document (codes "xml?>") small_root []

page-length : length (utf8 page) ≡ 71
unfolding utf8 render
page-length = refl

pub page-IsAnswer :
    IsAnswer (codes "HTTP/1.1") (codes "OK") (codes "Content-length:") 200 headers page
unfolding is_scalar is_whitespace show_nat announced parse_content_length eq_ignore_ascii_case
    str_len char_len slice split_at split_whitespace utf8 encode_char render
page-IsAnswer = record {
  version_word = refl;
  code_fits = omega arith;
  status_text = refl;
  status_line_feed = refl;
  headers_lines = refl;
  other_length = none;
  headers_read = refl;
  name_word = refl;
  name_is = refl;
  name_len = refl;
  length_fits = omega (arith, page-length);
  body_text = refl;
}

abbrev page_bytes : Bytes
page_bytes = answer (codes "HTTP/1.1") (codes "OK") (codes "Content-length:") 200 headers page

-- A pool that counts its connections, each of which gets that answer.
abbrev pub get_connection : ℕ → Result BridgeError (Reader × Writer) × ℕ
get_connection pool = (
  ok (record { inbound = page_bytes; failure = none }, record { written = []; fault = none }),
  suc pool,
)

abbrev pub client : TcpSoapClient ℕ
client = record { statistics = new 0; connection_pool = 0 }

abbrev pub client_after : TcpSoapClient ℕ
client_after = record { statistics = increment_request_count (new 0); connection_pool = 1 }

send_action-answer_example :
    send_action get_connection 3 (codes "ResetAircraft") [] client
    ≡ (ok (record { status_code = 200; body = page }), client_after)
send_action-answer_example =
    send_action-answer (codes "HTTP/1.1") (codes "OK") (codes "Content-length:") 200 headers page
      page-IsAnswer get_connection 3 (codes "ResetAircraft") [] client 1 [] refl (omega arith)

exchange_data-answer_example :
    exchange_data pattern_text (tcp_client get_connection 3) sticks client ≡ (
      (do r ← decode_elements pattern_text (data_elements small_root) (0, default_state); ok r.1),
      client_after,
    )
unfolding well_formed
exchange_data-answer_example =
    exchange_data-answer pattern_text (codes "HTTP/1.1") (codes "OK") (codes "Content-length:")
      headers (codes "xml?>") small_root [] page-IsAnswer refl refl refl get_connection 3 sticks
      client 1 [] refl (omega arith)

-- A body that is longer than its header says.
abbrev short_headers : List Text
short_headers = codes "Content-Length: 2" ∷ []

read_response-by_parts_example :
    read_response 2 (record {
      inbound = response (codes "HTTP/1.1 500 Error") short_headers (codes "body");
      failure = none;
    })
    ≡ by_parts (codes "HTTP/1.1 500 Error") short_headers (codes "body")
unfolding is_scalar
read_response-by_parts_example =
    read_response-by_parts (codes "HTTP/1.1 500 Error") short_headers (codes "body") 2 refl refl
      refl (omega arith)

read_response_truncated_example :
    read_response 1000 (record {
      inbound = utf8 (codes "HTTP/1.1 200 OK" ++ crlf) ++ send_lines short_headers;
      failure = none;
    })
    ≡ spin
unfolding is_scalar is_whitespace announced parse_status_line parse_content_length
    eq_ignore_ascii_case str_len char_len slice split_at split_whitespace parse_uint trim trim_start
read_response_truncated_example =
    read_response_truncated (codes "HTTP/1.1 200 OK") short_headers 200 (some 2) 1000 refl refl refl
      refl refl

snapshot_counts_example :
    let shot =
      snapshot (λ n t. n) (record_all (request_sent ∷ failed ∷ request_sent ∷ []) (new 5)) 9 in
    (shot.request_count ≡ 2) × (shot.error_count ≡ 1) × (shot.runtime ≡ 4)
snapshot_counts_example = snapshot_counts (λ n t. n) 5 9 (request_sent ∷ failed ∷ request_sent ∷ [])
