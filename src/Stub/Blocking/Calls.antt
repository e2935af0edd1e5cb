-- ===== src/Stub/Blocking/Calls.antt =====
-- Calls of the client of src/soap_client/stub.rs, and an exchange of a bridge over it.
use realflight_bridge.Base.{
  ℕ, ◌≤◌, ◌≡◌, refl, true, false, Option, some, List, [], ◌∷◌, ◌++◌, map, arith, all, length,
  replicate, append_assoc, append-nil,
}
use realflight_bridge.Outcome.{Result, ok, ◌>>=◌}
use realflight_bridge.Text.{Text, codes, lacks, lacks-append, str_len}
use realflight_bridge.Text.Parts.{last-split}
use realflight_bridge.Text.Number.{show_nat, show_nat-IsNumeral, parse_uint-show_nat, is_digit}
use realflight_bridge.Types.{FloatText, BridgeError, ControlInputs, default_state, Duration}
use realflight_bridge.Decoder.Document.{Node, well_formed, data_elements, decode_elements}
use realflight_bridge.Decoder.Document.Decode.{document, decode-document}
use realflight_bridge.Decoder.{decode_simulator_state}
use realflight_bridge.Decoder.Document.Machine.{run-find_tag}
use realflight_bridge.Encoder.{encode_control_inputs}
use realflight_bridge.Soap.{SoapResponse, encode_envelope, u32_max, crlf}
use realflight_bridge.Statistics.{
  StatisticsEngine, increment_request_count, record_all, record_event, request_sent,
}
use realflight_bridge.Bridge.Local.{SoapClient, exchange_data, exchange_result}
use realflight_bridge.Stub.Blocking.{
  response_code, response_head, load_response, stub_response, send_action, client, new, stub,
}
use realflight_bridge.Statistics

lacks-digits : (c : ℕ) (s : Text) → is_digit c ≡ false → all is_digit s ≡ true → lacks c s ≡ true
lacks-digits c [] d h = refl
lacks-digits c (x ∷ s) d h = ground (arith, lacks-digits c s)

lacks-number : (n : ℕ) → lacks b'<' (show_nat n) ≡ true
lacks-number n = lacks-digits b'<' (show_nat n) refl (show_nat-IsNumeral n).0

-- A response's key: a name, and the status code behind a `-`.
abbrev pub key : Text → ℕ → Text
key name code = name ++ (b'-' ∷ show_nat code)

pub response_code-key :
    (name : Text) (code : ℕ) → response_code (key name code) ≡ ok (show_nat code)
unfolding response_code
response_code-key name code =
    rw
      (last-split b'-' name (show_nat code)
        (lacks-digits b'-' (show_nat code) refl (show_nat-IsNumeral code).0))
      refl

lacks-response_head : (code size : ℕ) → lacks b'<' (response_head (show_nat code) size) ≡ true
unfolding response_head
lacks-response_head code size =
    lacks-append b'<' (codes "HTTP/1.1 " ++ (show_nat code ++ codes " OK\r\n")) _
      (lacks-append b'<' (show_nat code) (codes " OK\r\n") (lacks-number code) refl)
      (lacks-append b'<' (codes "Content-Length: " ++ (show_nat size ++ crlf)) _
        (lacks-append b'<' (show_nat size) crlf (lacks-number size) refl) refl)

-- Calls one after the other, each an action with its body.
abbrev pub send_all :
    {S : Type 0}
    → SoapClient S
    → List (Text × Text)
    → S
    → List (Result BridgeError SoapResponse) × S
send_all c [] s = ([], s)
send_all c ((action, body) ∷ calls) s =
    let (result, s') = c.send_action action body s in
    let (results, s'') = send_all c calls s' in (result ∷ results, s'')

abbrev pub envelope : Text × Text → Text
envelope (action, body) = encode_envelope action body

-- What the client answers where its file holds `file`.
abbrev pub answer : ℕ → Text → SoapResponse
answer code file = record {
  status_code = code;
  body = response_head (show_nat code) (str_len file) ++ file;
}

-- What stands before a document, without a `<`, is skipped.
decode-after :
    (ft : FloatText) (front xml : Text)
    → lacks b'<' front ≡ true
    → decode_simulator_state ft (front ++ xml) ≡ decode_simulator_state ft xml
unfolding decode_simulator_state
decode-after ft front xml h = run-find_tag ft [] [] [] (0, default_state) front xml h

module _ (read_file : Text → Option Text) (name : Text) (code : ℕ) (more : List Text) (file : Text)
    (small : code ≤ u32_max) (found : read_file (key name code ++ codes ".xml") ≡ some file) where
  stub_response-key :
      (statistics : Option StatisticsEngine) (recorded : List Text)
      → stub_response read_file (record {
        responses = key name code ∷ more;
        statistics = statistics;
        recorded = recorded;
      })
        ≡ ok (answer code file)
  unfolding stub_response load_response
  stub_response-key statistics recorded =
      rw (response_code-key name code, parse_uint-show_nat u32_max code small, found) refl

  -- Every call is answered alike, from the file of the first response's key, whose last part is the
  -- status code: the answer's body is that file behind a status line and headers. The calls are
  -- counted, and their envelopes are recorded in the order of the calls.
  pub send_all-recorded :
      (calls : List (Text × Text)) (s : StatisticsEngine) (texts : List Text)
      → send_all
          (client read_file)
          calls
          (record { responses = key name code ∷ more; statistics = some s; recorded = texts })
        ≡ (
          replicate (length calls) (ok (answer code file)),
          record {
            responses = key name code ∷ more;
            statistics = some (record_all (replicate (length calls) request_sent) s);
            recorded = texts ++ map envelope calls;
          },
        )
  unfolding send_action record_all record_event
  send_all-recorded [] s texts = rw (append-nil texts) refl
  send_all-recorded ((action, body) ∷ calls) s texts =
      let e = encode_envelope action body in
      rw
        (
          stub_response-key (some (increment_request_count s)) (texts ++ e ∷ []),
          send_all-recorded calls (increment_request_count s) (texts ++ e ∷ []),
          append_assoc texts (e ∷ []) (map envelope calls),
        )
        refl

module _ (ft : FloatText) (read_file : Text → Option Text) (name : Text) (more : List Text)
    (prolog : Text) (root : Node) (tail : Text)
    (found : read_file (key name 200 ++ codes ".xml") ≡ some (document prolog root tail))
    (p : lacks b'<' prolog ≡ true) (w : well_formed root ≡ true) (t : lacks b'<' tail ≡ true) where
  -- An exchange of a bridge over a stub whose file for the first response's key is a well-formed
  -- document, the key's last part being 200: the result is what the document's data elements say, the
  -- headers before them change nothing, and the request is counted and recorded with the encoded
  -- controls.
  pub exchange_data-stub :
      (control : ControlInputs) (now : Duration)
      → exchange_data ft (client read_file) control (stub (new (key name 200 ∷ more)) now) ≡ (
        (do r ← decode_elements ft (data_elements root) (0, default_state); ok r.1),
        record {
          responses = key name 200 ∷ more;
          statistics = some (increment_request_count (Statistics.new now));
          recorded = envelope (codes "ExchangeData", encode_control_inputs ft control) ∷ [];
        },
      )
  unfolding exchange_data exchange_result send_action
  exchange_data-stub control now =
      rw
        (stub_response-key read_file name 200 more (document prolog root tail) (omega arith) found
          (some (increment_request_count (Statistics.new now)))
          (envelope (codes "ExchangeData", encode_control_inputs ft control) ∷ []))
        (rw
          (
            decode-after ft (response_head (show_nat 200) (str_len (document prolog root tail)))
                (document prolog root tail)
                (lacks-response_head 200 (str_len (document prolog root tail))),
            decode-document ft prolog root tail p w t,
          )
          refl)
