-- ===== src/Bridge/Proxy/WholeWay.antt =====
-- The whole way of an exchange: a remote bridge, the proxy, the local bridge behind it, its SOAP client,
-- and the simulator.
use realflight_bridge.Base.{ℕ, ◌+◌, ◌<◌, ◌≡◌, ◌⊎◌, true, false, none, some, List, [], ◌∷◌, length}
use realflight_bridge.Outcome.{Result, ok, ◌>>=◌, of_sum}
use realflight_bridge.Text.{Text, lacks}
use realflight_bridge.Text.Utf8.{Bytes}
use realflight_bridge.Types.{FloatText, BridgeError, ControlInputs, SimulatorState, default_state}
use realflight_bridge.Decoder.Document.{Node, well_formed, data_elements, decode_elements}
use realflight_bridge.Decoder.Document.Decode.{document}
use realflight_bridge.Net.{Reader, Writer}
use realflight_bridge.Statistics.{increment_request_count}
use realflight_bridge.Tcp.{TcpSoapClient}
use realflight_bridge.Tcp.Requests.{IsAnswer, answer}
use realflight_bridge.Bridge.Wire.{RequestType, success_with, Codec}
use realflight_bridge.Bridge.Wire.Frames.{frame}
use realflight_bridge.Bridge.Local.{local_bridge}
use realflight_bridge.Bridge.Local.Laws.{tcp_client, exchange_data-answer}
use realflight_bridge.Bridge.Remote.{WireErrors, remote_bridge}
use realflight_bridge.Bridge.Proxy.{handle_client}
use realflight_bridge.Bridge.Proxy.Sessions.{session, seen}
use realflight_bridge.Bridge.Proxy.EndToEnd.{
  RoundTrips, Encodes, connected, told, response_to, exchange_data-proxied,
}

module _ {P : Type 0} (ft : FloatText) (version reason name : Text) (hs : List Text) (prolog : Text)
    (root : Node) (tail : Text)
    (a : IsAnswer version reason name 200 hs (document prolog root tail))
    (p : lacks b'<' prolog ≡ true) (w : well_formed root ≡ true) (t : lacks b'<' tail ≡ true) where
  -- The state that a remote bridge gets is the one that the simulator's document says: where the
  -- simulator answers with status 200 and a well-formed document that decodes to a state or to an
  -- error, postcard reads back what it wrote, and both messages are below 2^32 bytes. The proxy sends
  -- one SOAP request; an error reaches the client as that there is no payload.
  pub exchange_data_whole_way :
      (codec : Codec) (laws : RoundTrips codec) (errors : WireErrors)
      (get_connection : P → Result BridgeError (Reader × Writer) × P) (fuel : ℕ)
      (control : ControlInputs) (c : TcpSoapClient P) (pool : P) (written : Bytes)
      (result : BridgeError ⊎ SimulatorState) (sent got : Bytes)
      → get_connection c.connection_pool ≡ (
        ok (
          record {
            inbound = answer version reason name 200 hs (document prolog root tail);
            failure = none;
          },
          record { written = written; fault = none },
        ),
        pool,
      )
      → length hs + 1 < fuel
      → (do r ← decode_elements ft (data_elements root) (0, default_state); ok r.1) ≡ of_sum result
      → Encodes codec
          (record { request_type = RequestType.exchange_data; payload = some control })
          sent
          (response_to success_with result)
          got
      → ((remote_bridge errors codec).exchange_data control (connected (frame got) [])
          ≡ (told result, connected [] (frame sent)))
        × (seen codec (local_bridge ft (tcp_client get_connection fuel)) (
              handle_client codec
                (local_bridge ft (tcp_client get_connection fuel))
                (false ∷ false ∷ [])
                (session codec
                  (local_bridge ft (tcp_client get_connection fuel))
                  (frame sent)
                  none
                  []
                  c))
            ≡ (
              ok tt,
              frame got,
              record { statistics = increment_request_count c.statistics; connection_pool = pool },
            ))
  exchange_data_whole_way codec laws errors get_connection fuel control c pool written result sent
        got e n d enc =
      exchange_data-proxied codec laws errors (local_bridge ft (tcp_client get_connection fuel))
        control c _ result sent got
        (unfold local_bridge in
          rw
            (exchange_data-answer ft version reason name hs prolog root tail a p w t get_connection
              fuel control c pool written e n)
            (rw d))
        enc
