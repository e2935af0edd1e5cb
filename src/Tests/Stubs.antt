-- ===== src/Tests/Stubs.antt =====
-- The client that answers from a file, at a directory with one file.
use realflight_bridge.Base.{
  map, ◌≡◌, refl, Option, none, some, [], ◌∷◌, replicate, arith, if◌then◌else◌,
}
use realflight_bridge.Outcome.{ok, ◌>>=◌}
use realflight_bridge.Text.{Text, codes, text_eq}
use realflight_bridge.Text.Number.{show_nat}
use realflight_bridge.Types.{default_state}
use realflight_bridge.Decoder.Document.{well_formed, data_elements, decode_elements}
use realflight_bridge.Decoder.Document.Decode.{document}
use realflight_bridge.Encoder.{encode_control_inputs}
use realflight_bridge.Statistics.{increment_request_count, record_all, request_sent}
use realflight_bridge.Bridge.Local.{exchange_data}
use realflight_bridge.Stub.Blocking.{new, stub, client, response_code}
use realflight_bridge.Stub.Blocking.Calls.{key, envelope, exchange_data-stub}
use realflight_bridge.Text.{str_len, char_len}
use realflight_bridge.Text.Utf8.{is_scalar}
use realflight_bridge.Soap.{encode_envelope}
use realflight_bridge.Stub.Server.Served.{
  Exchange, IsExchange, envelope_of, fresh, sent, response_of, meeting, served_in_turn,
}
use realflight_bridge.Tcp
use realflight_bridge.Tests.Samples.{pattern_text, sticks, small_root}
use realflight_bridge.Statistics

abbrev sample : Text
sample = document (codes "xml?>") small_root []

abbrev directory : Text → Option Text
directory name = if text_eq name (codes "return-data-200.xml") then some sample else none

code_of_key : response_code (codes "inject-uav-controller-interface-500") ≡ ok (codes "500")
unfolding response_code
code_of_key = refl

exchange_data-stub_example :
    exchange_data pattern_text
      (client directory)
      sticks
      (stub (new (key (codes "return-data") 200 ∷ [])) 7)
    ≡ (
      (do r ← decode_elements pattern_text (data_elements small_root) (0, default_state); ok r.1),
      record {
        responses = key (codes "return-data") 200 ∷ [];
        statistics = some (increment_request_count (Statistics.new 7));
        recorded = envelope (codes "ExchangeData", encode_control_inputs pattern_text sticks) ∷ [];
      },
    )
unfolding well_formed show_nat
exchange_data-stub_example =
    exchange_data-stub pattern_text directory (codes "return-data") [] (codes "xml?>") small_root []
      refl refl refl refl sticks 7

abbrev reset : Exchange
reset = record {
  action = codes "ResetAircraft";
  body = [];
  name = codes "reset-aircraft";
  code = 200;
  file = codes "<a/>";
}

abbrev refused : Exchange
refused = record {
  action = codes "ExchangeData";
  body = codes "<b/>";
  name = codes "return-data";
  code = 500;
  file = codes "<c/>";
}

abbrev shelf : Text → Option Text
shelf name =
    if text_eq name (codes "reset-aircraft-200.xml")
    then some (codes "<a/>")
    else if text_eq name (codes "return-data-500.xml")
    then some (codes "<c/>")
    else none

reset-IsExchange : IsExchange shelf reset
unfolding is_scalar encode_envelope str_len char_len text_eq show_nat
reset-IsExchange = record {
  action_ascii = refl;
  action_line = refl;
  envelope_text = refl;
  envelope_fits = omega arith;
  code_fits = omega arith;
  found = refl;
  file_text = refl;
  file_fits = omega arith;
}

refused-IsExchange : IsExchange shelf refused
unfolding is_scalar encode_envelope str_len char_len text_eq show_nat
refused-IsExchange = record {
  action_ascii = refl;
  action_line = refl;
  envelope_text = refl;
  envelope_fits = omega arith;
  code_fits = omega arith;
  found = refl;
  file_text = refl;
  file_fits = omega arith;
}

served_in_turn_example :
    (map (λ x. Tcp.send_request fresh x.action (envelope_of x)) (reset ∷ refused ∷ [])
      ≡ map (λ x. ok (record { written = sent x; fault = none })) (reset ∷ refused ∷ []))
    × (meeting shelf 9 (omega arith) (reset ∷ refused ∷ []) (Statistics.new 7)
        ≡ ok (
          record { responses = []; requests = map envelope_of (reset ∷ refused ∷ []) },
          map (λ x. ok (response_of x)) (reset ∷ refused ∷ []),
          record {
            statistics = record_all (replicate 2 request_sent) (Statistics.new 7);
            connection_pool = [];
          },
        ))
served_in_turn_example =
    served_in_turn shelf 9 (omega arith) (reset ∷ refused ∷ []) (Statistics.new 7)
      (reset-IsExchange, (refused-IsExchange, tt))
