-- ===== src/Tests/Serving.antt =====
-- The sync client at a concrete run: one connection is made, and takes one request.
use realflight_bridge.Base.{◌≡◌, refl, ◌⊎◌, inr, [], ◌∷◌, ◌%◌, ◌^◌}
use realflight_bridge.Outcome.{ok}
use realflight_bridge.Text.{Text, codes}
use realflight_bridge.Types.{default_configuration}
use realflight_bridge.Statistics.{request_sent, snapshot}
use realflight_bridge.Pool.{
  Phase, ConnectionPool, new_pool, connected, creator_in, start, create, send, receive,
}
use realflight_bridge.Pool.Invariant.{count_up}
use realflight_bridge.Tcp.{send_action}
use realflight_bridge.Tcp.Pooled.{client_of, pool_of}
use realflight_bridge.Tcp.Pooled.Counting.{Serving, started, working, calling, sync_tally}
use realflight_bridge.Tests.Clients.{closing}

abbrev any_address : Text → Text ⊎ Unit {0}
any_address s = inr tt

abbrev closed : Text
closed = codes "closed"

abbrev p₀ : ConnectionPool
p₀ = new_pool 0

abbrev p₁ : ConnectionPool
p₁ = record p₀ { phase = Phase.creating 0 }

abbrev p₂ : ConnectionPool
p₂ = record p₀ { phase = Phase.sending 0 }

abbrev p₃ : ConnectionPool
p₃ = record p₀ { phase = Phase.creating 1; next_socket = 0 ∷ []; made = 1 }

abbrev p₄ : ConnectionPool
p₄ = record p₃ { next_socket = []; taken = 0 ∷ [] }

abbrev served : ConnectionPool
served =
    pool_of
      (send_action (λ pool. (ok (closing 0), p₄)) 9 (codes "ResetAircraft") [] (client_of p₃)).1

served-Serving :
    Serving any_address closed default_configuration closing 0 served (0 ∷ []) (request_sent ∷ [])
unfolding creator_in start create send receive
served-Serving =
    calling p₃ p₄ [] [] 0 9 (codes "ResetAircraft") []
      (working p₂ p₃ [] [] connected
        (working p₁ p₂ [] [] connected (working p₀ p₁ [] [] connected started refl) refl) refl)
      refl

sync_tally_example :
    let shot = snapshot (λ n t. 0) served.statistics 7 in
    (0 ∷ [] ≡ count_up 1) × (shot.request_count ≡ 1 % 2 ^ 32) × (shot.error_count ≡ 0 % 2 ^ 32)
sync_tally_example =
    sync_tally any_address closed default_configuration closing 0 (λ n t. 0) 7 served (0 ∷ [])
      (request_sent ∷ []) served-Serving
