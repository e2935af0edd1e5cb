-- ===== src/Tests/Sessions.antt =====
-- Sessions that are cut off, and the whole way of an exchange, at concrete messages.
use realflight_bridge.Base.{◌≡◌, refl, inr, true, false, none, [], ◌∷◌, ◌++◌, replicate, arith}
use realflight_bridge.Outcome.{ok, err}
use realflight_bridge.Text.{codes}
use realflight_bridge.Text.Utf8.{Bytes}
use realflight_bridge.Types.{BridgeError, SimulatorState, default_state}
use realflight_bridge.Text.Number.{parse_uint}
use realflight_bridge.Decoder.{decode_element, decode_item, set_channel}
use realflight_bridge.Decoder.Fields.{decode_state_field, decode_found, find_field, decode_arm}
use realflight_bridge.Decoder.Document.{well_formed, decode_elements, data_elements}
use realflight_bridge.Net.{end_of_file}
use realflight_bridge.Bridge.Wire.{to_be_bytes}
use realflight_bridge.Bridge.Wire.Frames.{frame}
use realflight_bridge.Bridge.Local.{local_bridge}
use realflight_bridge.Bridge.Local.Laws.{tcp_client}
use realflight_bridge.Bridge.Remote.{async_errors, remote_bridge}
use realflight_bridge.Bridge.Proxy.{handle_client, process_request}
use realflight_bridge.Bridge.Proxy.Sessions.{session, seen, frames}
use realflight_bridge.Bridge.Proxy.Cut.{handle_client_cancelled, handle_client_truncated}
use realflight_bridge.Bridge.Proxy.EndToEnd.{connected}
use realflight_bridge.Bridge.Proxy.WholeWay.{exchange_data_whole_way}
use realflight_bridge.Tests.Bridges.{counting, messages, messages_fit, exchange_bytes}
use realflight_bridge.Tests.Http.{page-IsAnswer, headers, get_connection, client, client_after}
use realflight_bridge.Tests.Samples.{pattern_text, sticks, small_root}
use realflight_bridge.Tests.Wire.{list_codec, list_codec-RoundTrips, write_state}

-- Cancelled behind three messages, with a fourth in the stream.
handle_client_cancelled_example :
    seen list_codec counting (
      handle_client list_codec counting
        (false ∷ false ∷ false ∷ true ∷ [])
        (session list_codec counting (frames messages ++ frame (0 ∷ [])) none [] 0))
    ≡ (ok tt, frame (0 ∷ []) ++ frame (1 ∷ []), 2)
unfolding process_request to_be_bytes
handle_client_cancelled_example =
    handle_client_cancelled list_codec counting messages (frame (0 ∷ [])) none [] [] 0 messages_fit

-- Two of five bytes have come.
handle_client_truncated_example :
    seen list_codec counting (
      handle_client list_codec counting (false ∷ false ∷ false ∷ false ∷ []) (
        session list_codec counting (frames messages ++ (to_be_bytes 5 ++ (8 ∷ 9 ∷ []))) none [] 0))
    ≡ (err (BridgeError.connection end_of_file), frame (0 ∷ []) ++ frame (1 ∷ []), 2)
unfolding process_request to_be_bytes
handle_client_truncated_example =
    handle_client_truncated list_codec counting messages 5 (8 ∷ 9 ∷ []) none [] [] 0 messages_fit
      (omega arith) (omega arith)

-- What `small_root` says.
abbrev flying : SimulatorState
flying = record default_state {
  previous_inputs = record { channels = 5 ∷ replicate 11 0 };
  airspeed = 7;
}

abbrev flying_bytes : Bytes
flying_bytes = 0 ∷ write_state flying

exchange_data_whole_way_example :
    ((remote_bridge async_errors list_codec).exchange_data sticks
        (connected (frame flying_bytes) [])
      ≡ (ok flying, connected [] (frame exchange_bytes)))
    × (seen list_codec (local_bridge pattern_text (tcp_client get_connection 3)) (
          handle_client list_codec
            (local_bridge pattern_text (tcp_client get_connection 3))
            (false ∷ false ∷ [])
            (session list_codec
              (local_bridge pattern_text (tcp_client get_connection 3))
              (frame exchange_bytes)
              none
              []
              client))
        ≡ (ok tt, frame flying_bytes, client_after))
unfolding well_formed decode_elements data_elements decode_element decode_item parse_uint
    set_channel decode_state_field decode_found find_field decode_arm
exchange_data_whole_way_example =
    exchange_data_whole_way pattern_text (codes "HTTP/1.1") (codes "OK") (codes "Content-length:")
      headers (codes "xml?>") small_root [] page-IsAnswer refl refl refl list_codec
      list_codec-RoundTrips async_errors get_connection 3 sticks client 1 [] (inr flying)
      exchange_bytes flying_bytes refl (omega arith) refl (refl, omega arith, refl, omega arith)
