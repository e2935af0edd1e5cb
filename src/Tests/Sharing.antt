-- ===== src/Tests/Sharing.antt =====
-- Two tasks, 7 and 9, at one AsyncRemoteBridge: one enables the channels, the other resets the aircraft.
use realflight_bridge.Base.{◌≡◌, refl, false, none, some, [], ◌∷◌, ◌++◌, arith}
use realflight_bridge.Outcome.{ok}
use realflight_bridge.Bridge.Wire.{
  RequestType, Request, success_response, error_response, to_be_bytes,
}
use realflight_bridge.Bridge.Wire.Frames.{frame}
use realflight_bridge.Bridge.Remote.{async_errors}
use realflight_bridge.Bridge.Remote.Shared.{Shared, writes, reads, run, then_run}
use realflight_bridge.Bridge.Remote.Shared.Order.{
  shared, frames_of, results_follow_reads, turn-writes, turn-reads,
}
use realflight_bridge.Bridge.Proxy.{handle_client, process_request}
use realflight_bridge.Bridge.Proxy.Sessions.{session, seen}
use realflight_bridge.Bridge.Proxy.Race.{responses_race}
use realflight_bridge.Tests.Bridges.{counting}
use realflight_bridge.Tests.Wire.{list_codec, list_codec-RoundTrips}

abbrev enabling : Request
enabling = record { request_type = RequestType.enable_rc; payload = none }

abbrev resetting : Request
resetting = record { request_type = RequestType.reset_aircraft; payload = none }

abbrev after : Shared
after = shared [] (frame (0 ∷ []) ++ frame (2 ∷ [])) (7 ∷ []) ((9, ok success_response) ∷ [])

one_read :
    run async_errors list_codec
      (writes 7 enabling ∷ writes 9 resetting ∷ reads 9 ∷ [])
      (shared (frames_of ((0 ∷ [], success_response) ∷ [])) [] [] [])
    ≡ some after
unfolding run then_run
one_read =
    rw
      (turn-writes async_errors list_codec 7 enabling (0 ∷ []) (frame (0 ∷ []) ++ []) [] [] [] refl
        refl)
      (rw
        (turn-writes async_errors list_codec 9 resetting (2 ∷ []) (frame (0 ∷ []) ++ [])
          (frame (0 ∷ [])) (7 ∷ []) [] refl refl)
        (rw
          (turn-reads async_errors list_codec 9 (0 ∷ []) [] (frame (0 ∷ []) ++ frame (2 ∷ []))
            success_response (9 ∷ 7 ∷ []) [] refl (omega arith) refl)
          refl))

results_follow_reads_example : after.results ≡ (9, ok success_response) ∷ []
results_follow_reads_example =
    results_follow_reads async_errors list_codec
      (writes 7 enabling ∷ writes 9 resetting ∷ reads 9 ∷ []) ((0 ∷ [], success_response) ∷ []) []
      [] [] after (λ q. (_, refl)) (refl, omega arith, tt) (omega arith) one_read

responses_race_example :
    (run async_errors list_codec
        (writes 7 enabling ∷ writes 9 resetting ∷ reads 7 ∷ reads 9 ∷ [])
        (shared (frame (0 ∷ []) ++ frame (1 ∷ [])) [] [] [])
      ≡ some (
          shared []
            (frame (0 ∷ []) ++ frame (2 ∷ []))
            []
            ((7, ok success_response) ∷ (9, ok error_response) ∷ [])))
    × (run async_errors list_codec
          (writes 7 enabling ∷ writes 9 resetting ∷ reads 9 ∷ reads 7 ∷ [])
          (shared (frame (0 ∷ []) ++ frame (1 ∷ [])) [] [] [])
        ≡ some (
            shared []
              (frame (0 ∷ []) ++ frame (2 ∷ []))
              []
              ((9, ok success_response) ∷ (7, ok error_response) ∷ [])))
    × (seen list_codec counting (
          handle_client list_codec counting
            (false ∷ false ∷ false ∷ [])
            (session list_codec counting (frame (0 ∷ []) ++ frame (2 ∷ [])) none [] 5))
        ≡ (ok tt, frame (0 ∷ []) ++ frame (1 ∷ []), 7))
unfolding process_request to_be_bytes
responses_race_example =
    responses_race list_codec list_codec-RoundTrips counting enabling resetting success_response
      error_response (0 ∷ []) (2 ∷ []) (0 ∷ []) (1 ∷ []) 5 6 7
      (refl, omega arith, refl, omega arith) (refl, omega arith, refl, omega arith) refl refl
      async_errors 7 9 (omega arith)
