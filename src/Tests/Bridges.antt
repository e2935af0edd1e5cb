-- ===== src/Tests/Bridges.antt =====
-- The bridges and the proxy at concrete requests, with a bridge that counts its calls.
use realflight_bridge.Base.{ℕ, suc, ◌≡◌, refl, inl, inr, false, none, List, [], ◌∷◌, ◌++◌, arith}
use realflight_bridge.Outcome.{ok, err}
use realflight_bridge.Text.{codes}
use realflight_bridge.Text.Utf8.{Bytes}
use realflight_bridge.Types.{BridgeError, default_state}
use realflight_bridge.Bridge.{RealFlightBridge}
use realflight_bridge.Bridge.Local.{SoapClient, enable_rc, disable_rc, reset_aircraft}
use realflight_bridge.Bridge.Local.Laws.{Sends, commands_send}
use realflight_bridge.Bridge.Wire.{to_be_bytes}
use realflight_bridge.Bridge.Wire.Frames.{frame}
use realflight_bridge.Bridge.Remote.{sync_errors, async_errors, remote_bridge}
use realflight_bridge.Bridge.Proxy.{process_request, handle_client, run_with_bridge}
use realflight_bridge.Bridge.Proxy.Sessions.{Sendable, session, seen, frames, handle_client-frames}
use realflight_bridge.Bridge.Proxy.EndToEnd.{
  connected, exchange_data-proxied, run_command, resetting, command-proxied,
}
use realflight_bridge.Bridge.Proxy.Server.{visits, serve_all, run_with_bridge-visits}
use realflight_bridge.Tests.Samples.{sticks}
use realflight_bridge.Tests.Wire.{list_codec, list_codec-RoundTrips, write_state}

-- Its `reset_aircraft` fails.
abbrev pub counting : RealFlightBridge ℕ
counting = record {
  exchange_data = λ c n. (ok (record default_state { previous_inputs = c }), suc n);
  enable_rc = λ n. (ok tt, suc n);
  disable_rc = λ n. (ok tt, suc n);
  reset_aircraft = λ n. (err (BridgeError.soap_fault (codes "no")), suc n);
}

-- A SOAP client that answers every action with status 500.
abbrev refusing : SoapClient ℕ
refusing = record {
  send_action = λ action body n. (ok (record { status_code = 500; body = [] }), suc n);
}

commands_send_example :
    Sends refusing (codes "RestoreOriginalControllerDevice") 0 (enable_rc refusing 0)
    × Sends refusing (codes "InjectUAVControllerInterface") 0 (disable_rc refusing 0)
    × Sends refusing (codes "ResetAircraft") 0 (reset_aircraft refusing 0)
commands_send_example = commands_send refusing 0

-- Two requests, one message that is no request between them, and two bytes of a length.
abbrev pub messages : List Bytes
messages = (0 ∷ []) ∷ [] ∷ (2 ∷ []) ∷ []

pub messages_fit : Sendable messages
messages_fit = (omega arith, (omega arith, (omega arith, tt)))

handle_client-frames_example :
    seen list_codec counting (
      handle_client list_codec counting
        (false ∷ false ∷ false ∷ false ∷ [])
        (session list_codec counting (frames messages ++ (0 ∷ 0 ∷ [])) none [] 0))
    ≡ (ok tt, frame (0 ∷ []) ++ frame (1 ∷ []), 2)
unfolding process_request to_be_bytes
handle_client-frames_example =
    handle_client-frames list_codec counting messages (0 ∷ 0 ∷ []) none [] 0 messages_fit
      (omega arith)

run_with_bridge-visits_example :
    run_with_bridge list_codec counting (visits (messages ∷ [] ∷ messages ∷ [])) 0
    ≡ serve_all list_codec counting (messages ∷ [] ∷ messages ∷ []) 0
run_with_bridge-visits_example =
    run_with_bridge-visits list_codec counting (messages ∷ [] ∷ messages ∷ []) 0
      (messages_fit, (tt, (messages_fit, tt)))

abbrev pub exchange_bytes : Bytes
exchange_bytes = 3 ∷ 1 ∷ sticks.channels

abbrev state_bytes : Bytes
state_bytes = 0 ∷ write_state (record default_state { previous_inputs = sticks })

exchange_data-proxied_example :
    ((remote_bridge sync_errors list_codec).exchange_data sticks (connected (frame state_bytes) [])
      ≡ (
        ok (record default_state { previous_inputs = sticks }),
        connected [] (frame exchange_bytes),
      ))
    × (seen list_codec counting (
          handle_client list_codec counting
            (false ∷ false ∷ [])
            (session list_codec counting (frame exchange_bytes) none [] 5))
        ≡ (ok tt, frame state_bytes, 6))
exchange_data-proxied_example =
    exchange_data-proxied list_codec list_codec-RoundTrips sync_errors counting sticks 5 6
      (inr (record default_state { previous_inputs = sticks })) exchange_bytes state_bytes refl
      (refl, omega arith, refl, omega arith)

command-proxied_example :
    (run_command resetting (remote_bridge async_errors list_codec) (connected (frame (1 ∷ [])) [])
      ≡ (ok tt, connected [] (frame (2 ∷ []))))
    × (seen list_codec counting (
          handle_client list_codec counting
            (false ∷ false ∷ [])
            (session list_codec counting (frame (2 ∷ [])) none [] 5))
        ≡ (ok tt, frame (1 ∷ []), 6))
command-proxied_example =
    command-proxied list_codec list_codec-RoundTrips async_errors counting resetting 5 6
      (inl (BridgeError.soap_fault (codes "no"))) (2 ∷ []) (1 ∷ []) refl
      (refl, omega arith, refl, omega arith)
