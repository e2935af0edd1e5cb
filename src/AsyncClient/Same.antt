-- ===== src/AsyncClient/Same.antt =====
-- The async client, with its own writing and reading, takes the same steps as the client of Tcp.
use realflight_bridge.Base.{
  ℕ, zero, suc, ◌≡◌, refl, ap, ◌∙◌, Option, none, some, List, [], ◌∷◌, if◌then◌else◌,
}
use realflight_bridge.Outcome.{Result, ok, err, panic, spin, ◌>>=◌, map_err, ok_or, >>=_congr}
use realflight_bridge.Text.{Text, codes, text_eq}
use realflight_bridge.Types.{BridgeError}
use realflight_bridge.Net.{Reader, Writer, read_line, read_exact}
use realflight_bridge.Soap.{
  SoapResponse, encode_envelope, parse_status_line, parse_content_length, create_response, crlf,
}
use realflight_bridge.Statistics.{StatisticsEngine, increment_request_count}
use realflight_bridge.Tcp
use realflight_bridge.AsyncPool.{
  Phase, creating, sending, selecting, handing, returned, AsyncConnectionPool, receive,
  get_connection,
}
use realflight_bridge.AsyncClient
use realflight_bridge.AsyncClient.{answer, request_over, send_action}

-- Taking a connection leaves the statistics.
abbrev Quiet : AsyncConnectionPool → Option (Result BridgeError ℕ × AsyncConnectionPool) → Type 0
Quiet p none = Unit
Quiet p (some (_, q)) = q.statistics ≡ p.statistics

receive-Quiet : (ns : List ℕ) (ph : Phase) (p : AsyncConnectionPool) → Quiet p (receive ns ph p)
unfolding receive
receive-Quiet (n ∷ ns) ph p = refl
receive-Quiet [] (creating i) p = tt
receive-Quiet [] (sending i n) p = tt
receive-Quiet [] selecting p = tt
receive-Quiet [] (handing n) p = tt
receive-Quiet [] returned p = refl

-- A client of Tcp as a pool with its statistics.
abbrev pub as_pool :
    Result BridgeError SoapResponse × Tcp.TcpSoapClient AsyncConnectionPool
    → Result BridgeError SoapResponse × AsyncConnectionPool
as_pool (r, c) = (r, record (c.connection_pool) { statistics = c.statistics })

-- The two loops over the header lines, and the two readings of a response.
keep_length-or_else :
    (old found : Option ℕ) → AsyncClient.keep_length old found ≡ Tcp.or_else found old
keep_length-or_else old none = refl
keep_length-or_else old (some n) = refl

read_headers-Tcp :
    (fuel : ℕ) (found : Option ℕ) (r : Reader)
    → AsyncClient.read_headers fuel found r ≡ Tcp.read_headers fuel found r
unfolding AsyncClient.read_headers Tcp.read_headers
read_headers-Tcp zero found r = refl
read_headers-Tcp (suc fuel) found r =
    >>=_congr (map_err BridgeError.connection (read_line r)) _ _ (λ got.
      ap (λ rest. if text_eq got.0 crlf then ok (found, got.1) else rest)
        (>>=_congr (parse_content_length got.0) _ _ (λ more.
          rw (keep_length-or_else found more)
            (read_headers-Tcp fuel (Tcp.or_else more found) got.1))))

read_body-Tcp :
    (code : ℕ) (found : Option ℕ) (r : Reader)
    → AsyncClient.read_body code (found, r) ≡ (do
      size ← ok_or found (BridgeError.soap_fault (codes "Missing Content-Length header"))
      (body, _) ← map_err BridgeError.connection (read_exact size r)
      ok (create_response code body))
unfolding AsyncClient.read_body
read_body-Tcp code none r = refl
read_body-Tcp code (some n) r = refl

read_response-Tcp :
    (fuel : ℕ) (r : Reader) → AsyncClient.read_response fuel r ≡ Tcp.read_response fuel r
unfolding AsyncClient.read_response Tcp.read_response
read_response-Tcp fuel r = >>=_congr (map_err BridgeError.connection (read_line r)) _ _ (λ got.
    >>=_congr (parse_status_line got.0) _ _ (λ code. rw (read_headers-Tcp fuel none got.1) (
      >>=_congr (Tcp.read_headers fuel none got.1) _ _
        (λ found. read_body-Tcp code found.0 found.1))))

send_request-Tcp :
    (w : Writer) (action envelope : Text)
    → AsyncClient.send_request w action envelope ≡ Tcp.send_request w action envelope
unfolding AsyncClient.send_request Tcp.send_request
send_request-Tcp w action envelope = refl

answer-respond :
    (fuel : ℕ) (reader : Reader) (sent : Result BridgeError Writer) (q : AsyncConnectionPool)
    → answer fuel reader sent q
      ≡ as_pool
          (Tcp.respond fuel reader sent (record { statistics = q.statistics; connection_pool = q }))
unfolding answer Tcp.respond
answer-respond fuel reader (ok _) q =
    ap
      (λ (r : Result BridgeError SoapResponse).
        (r, record q { statistics = increment_request_count q.statistics }))
      (read_response-Tcp fuel reader)
answer-respond fuel reader (err e) q = refl
answer-respond fuel reader panic q = refl
answer-respond fuel reader spin q = refl

-- With a connection at hand, the async client does what the client of Tcp does over that connection:
-- the same result, the same pool, and the same statistics.
pub send_action-Tcp :
    (streams : ℕ → Reader × Writer) (fuel : ℕ) (action body : Text) (p q : AsyncConnectionPool)
    (n : ℕ)
    → get_connection p ≡ some (ok n, q)
    → send_action streams fuel action body p
      ≡ some (
          as_pool (
            Tcp.send_action
              (λ pool. (ok (streams n), q))
              fuel
              action
              body
              (record { statistics = p.statistics; connection_pool = p })))
unfolding send_action request_over Tcp.send_action Tcp.request_over
send_action-Tcp streams fuel action body p q n e =
    let quiet : Quiet p (some (ok n, q)) = rw e at (receive-Quiet p.connections p.phase p) in
    rw e (
      rw (send_request-Tcp (streams n).1 action (encode_envelope action body)) (
        ap some (
          answer-respond fuel (streams n).0
            (Tcp.send_request (streams n).1 action (encode_envelope action body)) q
          ∙ ap
              (λ (s : StatisticsEngine). as_pool (
                Tcp.respond fuel (streams n).0
                  (Tcp.send_request (streams n).1 action (encode_envelope action body))
                  (record { statistics = s; connection_pool = q })))
              quiet)))
