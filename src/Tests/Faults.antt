-- ===== src/Tests/Faults.antt =====
-- A simulator that answers every request with a fault.
use realflight_bridge.Base.{ℕ, suc, ◌≡◌, refl, none, [], arith}
use realflight_bridge.Outcome.{Result, ok, err}
use realflight_bridge.Text.{Text, codes, str_len, char_len}
use realflight_bridge.Text.Number.{show_nat}
use realflight_bridge.Text.Search.{absent, starts_with}
use realflight_bridge.Text.Split.{is_whitespace, eq_ignore_ascii_case}
use realflight_bridge.Text.Utf8.{is_scalar, utf8, encode_char}
use realflight_bridge.Types.{BridgeError}
use realflight_bridge.Net.{Reader, Writer}
use realflight_bridge.Statistics.{new, increment_request_count}
use realflight_bridge.Tcp.{TcpSoapClient}
use realflight_bridge.Tcp.Response.{announced}
use realflight_bridge.Tcp.Requests.{IsAnswer, answer}
use realflight_bridge.Bridge.Local.{exchange_data, enable_rc, disable_rc, reset_aircraft}
use realflight_bridge.Bridge.Local.Laws.{tcp_client}
use realflight_bridge.Bridge.Local.Faults.{fault_body, operations_fault}
use realflight_bridge.Tests.Samples.{pattern_text, sticks}

abbrev refusal : Text
refusal = fault_body (codes "<f>") (codes "no") (codes "</f>")

refusal-IsAnswer :
    IsAnswer (codes "HTTP/1.1") (codes "Error") (codes "Content-Length:") 500 [] refusal
unfolding is_scalar is_whitespace show_nat announced eq_ignore_ascii_case str_len char_len utf8
    encode_char
refusal-IsAnswer = record {
  version_word = refl;
  code_fits = omega arith;
  status_text = refl;
  status_line_feed = refl;
  headers_lines = refl;
  other_length = none;
  headers_read = refl;
  name_word = refl;
  name_is = refl;
  name_len = refl;
  length_fits = omega arith;
  body_text = refl;
}

abbrev get_refused : ℕ → Result BridgeError (Reader × Writer) × ℕ
get_refused pool = (
  ok (
    record {
      inbound = answer (codes "HTTP/1.1") (codes "Error") (codes "Content-Length:") 500 [] refusal;
      failure = none;
    },
    record { written = []; fault = none },
  ),
  suc pool,
)

abbrev before : TcpSoapClient ℕ
before = record { statistics = new 0; connection_pool = 0 }

abbrev after : TcpSoapClient ℕ
after = record { statistics = increment_request_count (new 0); connection_pool = 1 }

operations_fault_example :
    let simulator = tcp_client get_refused 3 in
    (exchange_data pattern_text simulator sticks before
      ≡ (err (BridgeError.soap_fault (codes "no")), after))
    × (enable_rc simulator before ≡ (err (BridgeError.soap_fault (codes "no")), after))
    × (disable_rc simulator before ≡ (err (BridgeError.soap_fault (codes "no")), after))
    × (reset_aircraft simulator before ≡ (err (BridgeError.soap_fault (codes "no")), after))
unfolding starts_with str_len char_len absent
operations_fault_example =
    operations_fault 500 (codes "<f>") (codes "no") (codes "</f>") (omega arith) (ground arith) refl
      refl pattern_text (codes "HTTP/1.1") (codes "Error") (codes "Content-Length:") []
      refusal-IsAnswer get_refused 3 sticks before 1 [] refl (omega arith)
