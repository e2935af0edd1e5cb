-- ===== src/Tests/Clients.antt =====
-- The async client at a concrete run: one connection is made, and takes one request.
use realflight_bridge.Base.{ℕ, ◌≡◌, refl, some, none, [], ◌∷◌, ◌%◌, ◌^◌}
use realflight_bridge.Outcome.{ok, err}
use realflight_bridge.Text.{codes}
use realflight_bridge.Text.Utf8.{from_utf8}
use realflight_bridge.Types.{BridgeError}
use realflight_bridge.Net.{Reader, Writer, read_line, write_all}
use realflight_bridge.Soap.{parse_status_line}
use realflight_bridge.Statistics.{new, request_sent, increment_request_count, snapshot}
use realflight_bridge.AsyncClient.{read_response, send_request}
use realflight_bridge.Pool.Invariant.{count_up}
use realflight_bridge.AsyncPool.{AsyncConnectionPool, connected, task_in, create, send, receive}
use realflight_bridge.AsyncClient.{send_action, request_over, answer}
use realflight_bridge.Tcp
use realflight_bridge.AsyncClient.Same.{as_pool, send_action-Tcp}
use realflight_bridge.AsyncClient.Counting.{Runs, started, works, calls, async_tally}
use realflight_bridge.Tests.AsyncPools.{engine, q₀, q₁, q₂, q₃, address}

-- The simulator closes every connection without an answer.
abbrev pub closing : ℕ → Reader × Writer
closing n = (record { inbound = []; failure = none }, record { written = []; fault = none })

abbrev served : AsyncConnectionPool
served = record q₃ { statistics = increment_request_count engine }

served-Runs : Runs address 1 closing 0 served (0 ∷ []) (request_sent ∷ [])
unfolding task_in create send receive send_action request_over answer send_request write_all
    read_response read_line from_utf8 parse_status_line new
served-Runs =
    calls q₂ q₃ served [] [] 0 9 (codes "ResetAircraft") []
      (err (BridgeError.soap_fault (codes "Empty response from simulator")))
      (works q₁ q₂ [] [] connected (works q₀ q₁ [] [] connected started refl) refl) refl refl

async_tally_example :
    let shot = snapshot (λ n t. 0) served.statistics 7 in
    (0 ∷ [] ≡ count_up 1) × (shot.request_count ≡ 1 % 2 ^ 32) × (shot.error_count ≡ 0 % 2 ^ 32)
async_tally_example =
    async_tally address 1 closing 0 (λ n t. 0) 7 served (0 ∷ []) (request_sent ∷ []) served-Runs

send_action-Tcp_example :
    send_action closing 9 (codes "ResetAircraft") [] q₂
    ≡ some (
        as_pool (
          Tcp.send_action
            (λ pool. (ok (closing 0), q₃))
            9
            (codes "ResetAircraft")
            []
            (record { statistics = engine; connection_pool = q₂ })))
unfolding receive
send_action-Tcp_example = send_action-Tcp closing 9 (codes "ResetAircraft") [] q₂ q₃ 0 refl
