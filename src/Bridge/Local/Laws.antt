-- ===== src/Bridge/Local/Laws.antt =====
-- The local bridge: what each operation sends, and what it makes of the answer.
use realflight_bridge.Base.{ℕ, ◌+◌, ◌<◌, ◌≡◌, ◌≢◌, refl, ◌⊎◌, true, none, List, [], length}
use realflight_bridge.Outcome.{Result, ok, err, panic, spin, ◌>>=◌}
use realflight_bridge.Text.{Text, codes, lacks}
use realflight_bridge.Text.Utf8.{Bytes}
use realflight_bridge.Types.{FloatText, BridgeError, ControlInputs, default_state}
use realflight_bridge.Decoder.Document.{Node, well_formed, data_elements, decode_elements}
use realflight_bridge.Decoder.Document.Decode.{document, decode-document}
use realflight_bridge.Encoder.{encode_control_inputs}
use realflight_bridge.Net.{Reader, Writer}
use realflight_bridge.Soap.{SoapResponse, into_result}
use realflight_bridge.Soap.Response.{into_result_total}
use realflight_bridge.Statistics.{increment_request_count}
use realflight_bridge.Tcp.{TcpSoapClient, send_action}
use realflight_bridge.Tcp.Requests.{IsAnswer, answer, send_action-answer}
use realflight_bridge.Bridge.Local.{
  SoapClient, exchange_result, exchange_data, command, enable_rc, disable_rc, reset_aircraft,
}

-- What a command may make of the client's answer: status 200 is success, any other status a SOAP
-- fault, and an error of the client is passed on.
abbrev pub Answers : Result BridgeError SoapResponse → Result BridgeError (Unit {0}) → Type 0
Answers (ok r) res =
    ((r.status_code ≡ 200) × (res ≡ ok tt))
    ⊎ ((r.status_code ≢ 200) × ((message : Text) × (res ≡ err (BridgeError.soap_fault message))))
Answers (err e) res = res ≡ err e
Answers panic res = res ≡ panic
Answers spin res = res ≡ spin

Answers-into : (sent : Result BridgeError SoapResponse) → Answers sent (sent >>= into_result)
Answers-into (ok r) = into_result_total r
Answers-into (err e) = refl
Answers-into panic = refl
Answers-into spin = refl

-- One call of the client with `action` and no body; its answer decides the result.
abbrev pub Sends :
    {S : Type 0} → SoapClient S → Text → S → Result BridgeError (Unit {0}) × S → Type 0
Sends client action s (res, s') =
    Answers (client.send_action action [] s).0 res × (s' ≡ (client.send_action action [] s).1)

Sends-command :
    {S : Type 0} (client : SoapClient S) (action : Text) (s : S)
    → Sends client action s (command client action s)
unfolding command
Sends-command client action s = (Answers-into (client.send_action action [] s).0, refl)

-- Each command sends its own action once, without a body. It succeeds exactly when the answer has
-- status 200; any other status is a SOAP fault; an error of the client is passed on.
pub commands_send :
    {S : Type 0} (client : SoapClient S) (s : S)
    → Sends client (codes "RestoreOriginalControllerDevice") s (enable_rc client s)
      × Sends client (codes "InjectUAVControllerInterface") s (disable_rc client s)
      × Sends client (codes "ResetAircraft") s (reset_aircraft client s)
unfolding enable_rc disable_rc reset_aircraft
commands_send client s = (
  Sends-command client (codes "RestoreOriginalControllerDevice") s,
  Sends-command client (codes "InjectUAVControllerInterface") s,
  Sends-command client (codes "ResetAircraft") s,
)

-- The SOAP client over TCP, as the bridge is built with it.
abbrev pub tcp_client :
    {P : Type 0} → (P → Result BridgeError (Reader × Writer) × P) → ℕ → SoapClient (TcpSoapClient P)
tcp_client get_connection fuel = record { send_action = send_action get_connection fuel }

module _ {P : Type 0} (ft : FloatText) (version reason name : Text) (hs : List Text) (prolog : Text)
    (root : Node) (tail : Text)
    (a : IsAnswer version reason name 200 hs (document prolog root tail))
    (p : lacks b'<' prolog ≡ true) (w : well_formed root ≡ true) (t : lacks b'<' tail ≡ true) where
  -- The whole way of an exchange: where the pool gives a connection to a server that answers with
  -- status 200 and a well-formed document, and the request can be written, the result is what the
  -- document's data elements say, one request is counted, and the pool is as it was after it gave the
  -- connection. One round of fuel for each header line and the empty line is enough.
  pub exchange_data-answer :
      (get_connection : P → Result BridgeError (Reader × Writer) × P) (fuel : ℕ)
      (control : ControlInputs) (c : TcpSoapClient P) (pool : P) (written : Bytes)
      → get_connection c.connection_pool ≡ (
        ok (
          record {
            inbound = answer version reason name 200 hs (document prolog root tail);
            failure = none;
          },
          record { written = written; fault = none },
        ),
        pool,
      )
      → length hs + 1 < fuel
      → exchange_data ft (tcp_client get_connection fuel) control c ≡ (
        (do r ← decode_elements ft (data_elements root) (0, default_state); ok r.1),
        record { statistics = increment_request_count c.statistics; connection_pool = pool },
      )
  unfolding exchange_data exchange_result
  exchange_data-answer get_connection fuel control c pool written e n =
      rw
        (send_action-answer version reason name 200 hs (document prolog root tail) a get_connection
          fuel (codes "ExchangeData") (encode_control_inputs ft control) c pool written e n)
        (rw (decode-document ft prolog root tail p w t))
