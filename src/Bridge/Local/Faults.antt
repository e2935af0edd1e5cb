-- ===== src/Bridge/Local/Faults.antt =====
-- A simulator that answers with a SOAP fault: what each operation of the local bridge makes of it.
use realflight_bridge.Base.{
  ℕ, ◌+◌, ◌≤◌, ◌<◌, ◌≡◌, ◌≢◌, refl, true, false, none, List, [], ◌++◌, ◌==◌, length, arith,
}
use realflight_bridge.Outcome.{Result, ok, err}
use realflight_bridge.Text.{Text, codes, str_len}
use realflight_bridge.Text.Search.{absent}
use realflight_bridge.Text.Utf8.{Bytes}
use realflight_bridge.Types.{FloatText, BridgeError, ControlInputs}
use realflight_bridge.Decoder.Extract.{extract_element_first, start_tag, end_tag}
use realflight_bridge.Encoder.{encode_control_inputs}
use realflight_bridge.Net.{Reader, Writer}
use realflight_bridge.Soap.{fault_message}
use realflight_bridge.Soap.Response.{into_result_detail}
use realflight_bridge.Statistics.{increment_request_count}
use realflight_bridge.Tcp.{TcpSoapClient}
use realflight_bridge.Tcp.Requests.{IsAnswer, answer, send_action-answer}
use realflight_bridge.Bridge.Local.{
  exchange_data, exchange_result, command, enable_rc, disable_rc, reset_aircraft,
}
use realflight_bridge.Bridge.Local.Laws.{tcp_client}

-- A body with a first `detail` element around `d`.
abbrev pub fault_body : Text → Text → Text → Text
fault_body p d q = p ++ (start_tag (codes "detail") ++ (d ++ (end_tag (codes "detail") ++ q)))

module _ (status : ℕ) (p d q : Text) (n : status ≢ 200) (some_text : 1 ≤ str_len d)
    (first : absent
        (start_tag (codes "detail"))
        p
        (start_tag (codes "detail") ++ (d ++ (end_tag (codes "detail") ++ q)))
      ≡ true)
    (closed : absent
        (end_tag (codes "detail"))
        ((p ++ start_tag (codes "detail")) ++ d)
        (end_tag (codes "detail") ++ q)
      ≡ true) where
  exchange_result-detail :
      (ft : FloatText)
      → exchange_result ft (record { status_code = status; body = fault_body p d q })
        ≡ err (BridgeError.soap_fault d)
  unfolding exchange_result fault_message
  exchange_result-detail ft =
      let bad : (status == 200) ≡ false = ground arith in
      rw (bad, extract_element_first (codes "detail") p d q some_text first closed) refl

  module _ {P : Type 0} (ft : FloatText) (version reason name : Text) (hs : List Text)
      (a : IsAnswer version reason name status hs (fault_body p d q)) where
    command-fault :
        (get_connection : P → Result BridgeError (Reader × Writer) × P) (fuel : ℕ) (action : Text)
        (c : TcpSoapClient P) (pool : P) (written : Bytes)
        → get_connection c.connection_pool ≡ (
          ok (
            record {
              inbound = answer version reason name status hs (fault_body p d q);
              failure = none;
            },
            record { written = written; fault = none },
          ),
          pool,
        )
        → length hs + 1 < fuel
        → command (tcp_client get_connection fuel) action c ≡ (
          err (BridgeError.soap_fault d),
          record { statistics = increment_request_count c.statistics; connection_pool = pool },
        )
    unfolding command
    command-fault get_connection fuel action c pool written e l =
        rw
          (
            send_action-answer version reason name status hs (fault_body p d q) a get_connection
                fuel action [] c pool written e l,
            into_result_detail status p d q n some_text first closed,
          )
          refl

    -- Where the simulator answers with another status than 200 and a body whose first `detail` element is
    -- not empty, no closing tag of the name before it, an exchange and each command give the SOAP fault
    -- with the text of that element; the request is counted, but not as an error, and the pool is as it was after it gave the
    -- connection. One round of fuel for each header line and the empty line is enough.
    pub operations_fault :
        (get_connection : P → Result BridgeError (Reader × Writer) × P) (fuel : ℕ)
        (control : ControlInputs) (c : TcpSoapClient P) (pool : P) (written : Bytes)
        → get_connection c.connection_pool ≡ (
          ok (
            record {
              inbound = answer version reason name status hs (fault_body p d q);
              failure = none;
            },
            record { written = written; fault = none },
          ),
          pool,
        )
        → length hs + 1 < fuel
        → let client = tcp_client get_connection fuel in
          let after : TcpSoapClient P = record {
            statistics = increment_request_count c.statistics;
            connection_pool = pool;
          } in
          (exchange_data ft client control c ≡ (err (BridgeError.soap_fault d), after))
          × (enable_rc client c ≡ (err (BridgeError.soap_fault d), after))
          × (disable_rc client c ≡ (err (BridgeError.soap_fault d), after))
          × (reset_aircraft client c ≡ (err (BridgeError.soap_fault d), after))
    unfolding exchange_data enable_rc disable_rc reset_aircraft
    operations_fault get_connection fuel control c pool written e l = (
      rw
          (
            send_action-answer version reason name status hs (fault_body p d q) a get_connection
                fuel (codes "ExchangeData") (encode_control_inputs ft control) c pool written e l,
            exchange_result-detail ft,
          )
          refl,
      command-fault get_connection fuel (codes "RestoreOriginalControllerDevice") c pool written e
          l,
      command-fault get_connection fuel (codes "InjectUAVControllerInterface") c pool written e l,
      command-fault get_connection fuel (codes "ResetAircraft") c pool written e l,
    )
