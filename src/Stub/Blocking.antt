-- ===== src/Stub/Blocking.antt =====
-- src/soap_client/stub.rs, and the `stub` and `requests` of src/bridge/local/mod.rs: the SOAP client
-- that answers every call from one file and records the envelopes. The files of testdata/responses are
-- a parameter: the text under a file's name, if there is one.
pub mod Calls
use realflight_bridge.Base.{ℕ, Option, none, some, List, [], ◌∷◌, ◌++◌, ◌==◌, if◌then◌else◌}
use realflight_bridge.Outcome.{Result, ok, panic, ◌>>=◌, or_panic}
use realflight_bridge.Text.{Text, codes, str_len}
use realflight_bridge.Text.Parts.{split, last}
use realflight_bridge.Text.Number.{show_nat, parse_uint}
use realflight_bridge.Types.{BridgeError, Duration}
use realflight_bridge.Soap.{SoapResponse, encode_envelope, crlf, u32_max}
use realflight_bridge.Statistics.{StatisticsEngine, increment_request_count}
use realflight_bridge.Bridge.Local.{SoapClient}
use realflight_bridge.Statistics

pub record StubSoapClient : Type 0 where
  pub responses : List Text
  pub statistics : Option StatisticsEngine
  pub recorded : List Text

abbrev pub new : List Text → StubSoapClient
new responses = record { responses = responses; statistics = none; recorded = [] }

-- `RealFlightLocalBridge::stub`, at the time `now`: the client counts for the bridge's engine.
abbrev pub stub : StubSoapClient → Duration → StubSoapClient
stub c now = record c { statistics = some (Statistics.new now) }

abbrev pub requests : StubSoapClient → List Text
requests c = c.recorded

abbrev pub add_request : Text → StubSoapClient → StubSoapClient
add_request request c = record c { recorded = c.recorded ++ request ∷ [] }

-- `Vec::first`.
abbrev pub first : List Text → Option Text
first [] = none
first (r ∷ _) = some r

abbrev pub next_response : StubSoapClient → Result BridgeError Text
next_response c = or_panic (first c.responses)

-- `response_key.split('-').last().unwrap()`.
unfoldable pub response_code : Text → Result BridgeError Text
unfolding split last
response_code key = or_panic (last (split b'-' key))

-- The status line and the headers that are put before a file of `size` bytes.
unfoldable pub response_head : Text → ℕ → Text
response_head code size =
    (codes "HTTP/1.1 " ++ (code ++ codes " OK\r\n"))
    ++ (codes "Server: gSOAP/2.7\r\n"
        ++ (codes "Content-Type: text/xml; charset=utf-8\r\n"
            ++ ((codes "Content-Length: " ++ (show_nat size ++ crlf))
                ++ (codes "Connection: close\r\n" ++ crlf))))

-- `Result::unwrap`.
abbrev pub unwrap : {E F A : Type 0} → Result E A → Result F A
unwrap (ok a) = ok a
unwrap _ = panic

-- `code.parse().unwrap()`.
abbrev pub parse_code : Text → Result BridgeError ℕ
parse_code code = unwrap (parse_uint u32_max code)

-- The client's statistics, if it has them.
abbrev pub count_request : Option StatisticsEngine → Option StatisticsEngine
count_request none = none
count_request (some s) = some (increment_request_count s)

module _ (read_file : Text → Option Text) where
  unfoldable pub load_response : Text → Result BridgeError Text
  unfolding response_code response_head
  load_response key = do
    body ← or_panic (read_file (key ++ codes ".xml"))
    code ← response_code key
    ok (response_head code (str_len body) ++ body)

  -- What a call answers, after it has been counted and recorded.
  unfoldable pub stub_response : StubSoapClient → Result BridgeError SoapResponse
  unfolding response_code load_response
  stub_response c = do
    key ← next_response c
    code ← response_code key
    n ← parse_code code
    body ← load_response key
    ok (record { status_code = n; body = body })

  unfoldable pub send_action :
      Text → Text → StubSoapClient → Result BridgeError SoapResponse × StubSoapClient
  unfolding stub_response
  send_action action body c =
      let envelope = encode_envelope action body in
      let c' = add_request envelope (record c { statistics = count_request c.statistics }) in
      (stub_response c', c')

  -- `impl SoapClient for StubSoapClient`.
  abbrev pub client : SoapClient StubSoapClient
  client = record { send_action = send_action }
