-- ===== src/Stub/Server/Served.antt =====
-- Requests of the SOAP client over TCP to the stub server, one after the other, and both ends of each.
use realflight_bridge.Base.{
  ℕ, ◌≤◌, ◌<◌, ◌≡◌, refl, ap, true, false, Option, none, some, List, [], ◌∷◌, ◌++◌, map, length,
  replicate, arith, append_assoc, append-nil,
}
use realflight_bridge.Outcome.{Result, ok, err, ◌>>=◌}
use realflight_bridge.Text.{Text, codes, lacks, str_len}
use realflight_bridge.Text.Number.{show_nat}
use realflight_bridge.Text.Utf8.{Bytes, utf8, IsText, is_scalar}
use realflight_bridge.Types.{BridgeError}
use realflight_bridge.Net.{Reader, Writer, write_all}
use realflight_bridge.Soap.{SoapResponse, usize_max, u32_max, encode_envelope, build_http_request}
use realflight_bridge.Statistics.{
  StatisticsEngine, increment_request_count, record_all, record_event, request_sent,
}
use realflight_bridge.Tcp
use realflight_bridge.Tcp.{TcpSoapClient}
use realflight_bridge.Tcp.Response.{read_line-crlf}
use realflight_bridge.Tcp.ReadBack.{IsAscii, written_lines}
use realflight_bridge.Bridge.Local.Laws.{tcp_client}
use realflight_bridge.Stub.Blocking.{response_head, load_response}
use realflight_bridge.Stub.Blocking.Calls.{key, response_code-key, send_all}
use realflight_bridge.Stub.Server.{
  Worker, Incoming, connected, go_on, send_response, respond_with, serve, start_worker,
  nothing_left, is_empty, new,
}
use realflight_bridge.Stub.Server.Requests.{pop-last, read_request_body-request}
use realflight_bridge.Stub.Server.Answers.{read_response-answer_bytes}

-- One request, and the response that the server has for it.
pub record Exchange : Type 0 where
  pub action : Text
  pub body : Text
  pub name : Text
  pub code : ℕ
  pub file : Text

abbrev pub envelope_of : Exchange → Text
envelope_of x = encode_envelope x.action x.body

abbrev pub response_key : Exchange → Text
response_key x = key x.name x.code

-- The action is ASCII without a line feed, the file is there, and the lengths fit.
pub record IsExchange (read_file : Text → Option Text) (x : Exchange) : Type 0 where
  pub action_ascii : IsAscii x.action
  pub action_line : lacks b'\n' x.action ≡ true
  pub envelope_text : IsText (envelope_of x)
  pub envelope_fits : str_len (envelope_of x) ≤ usize_max
  pub code_fits : x.code ≤ u32_max
  pub found : read_file (response_key x ++ codes ".xml") ≡ some x.file
  pub file_text : IsText x.file
  pub file_fits : str_len x.file ≤ usize_max

abbrev pub AreExchanges : (Text → Option Text) → List Exchange → Type 0
AreExchanges read_file [] = Unit
AreExchanges read_file (x ∷ xs) = IsExchange read_file x × AreExchanges read_file xs

-- What the client writes, and what the server writes.
abbrev pub sent : Exchange → Bytes
sent x = utf8 (build_http_request x.action (envelope_of x))

abbrev pub reply : Exchange → Bytes
reply x = utf8 (response_head (show_nat x.code) (str_len x.file) ++ x.file)

abbrev pub fresh : Writer
fresh = record { written = []; fault = none }

abbrev pub incoming : Exchange → Incoming
incoming x = connected (record { inbound = sent x; failure = none }) fresh

abbrev pub replied : Exchange → Writer
replied x = record { written = reply x; fault = none }

-- The keys as the server wants them: the first request's comes last.
abbrev pub keys : List Exchange → List Text
keys [] = []
keys (x ∷ xs) = keys xs ++ response_key x ∷ []

nothing_left-concat : (front : List Text) (k : Text) → nothing_left (front ++ k ∷ []) ≡ false
nothing_left-concat [] k = refl
nothing_left-concat (r ∷ front) k = refl

some_envelope : (x : Exchange) → is_empty (envelope_of x) ≡ false
unfolding encode_envelope
some_envelope x = refl

module _ (read_file : Text → Option Text) (fuel : ℕ) (enough : 4 < fuel) where
  load_response-key :
      (x : Exchange)
      → IsExchange read_file x
      → load_response read_file (response_key x)
        ≡ ok (response_head (show_nat x.code) (str_len x.file) ++ x.file)
  unfolding load_response
  load_response-key x h = rw (h.found, response_code-key x.name x.code) refl

  serve-exchange :
      (x : Exchange) (front texts : List Text)
      → IsExchange read_file x
      → serve read_file fuel
          (record { responses = front ++ response_key x ∷ []; requests = texts })
          (record { inbound = sent x; failure = none })
          fresh
        ≡ ok
            (go_on, record { responses = front; requests = texts ++ envelope_of x ∷ [] }, replied x)
  unfolding serve respond_with send_response write_all
  serve-exchange x front texts h = rw (written_lines x.action (envelope_of x)) (
      rw (read_line-crlf (codes "POST / HTTP/1.1") _ none (unfold is_scalar in refl) refl) (
        rw
          (read_request_body-request x.action (envelope_of x) fuel h.action_ascii h.action_line
            (some_envelope x) h.envelope_text h.envelope_fits (omega arith))
          (rw (pop-last front (response_key x))
            (rw (load_response-key x h, some_envelope x) refl))))

  start_worker-exchanges :
      (xs : List Exchange) (front texts : List Text)
      → AreExchanges read_file xs
      → start_worker read_file fuel
          (map incoming xs)
          (record { responses = front ++ keys xs; requests = texts })
        ≡ ok (record { responses = front; requests = texts ++ map envelope_of xs }, map replied xs)
  unfolding start_worker
  start_worker-exchanges [] front texts h = rw (append-nil front, append-nil texts) refl
  start_worker-exchanges (x ∷ xs) front texts h =
      rw (← append_assoc front (keys xs) (response_key x ∷ [])) (
        rw
          (
            nothing_left-concat (front ++ keys xs) (response_key x),
            serve-exchange x (front ++ keys xs) texts h.0,
            start_worker-exchanges xs front (texts ++ envelope_of x ∷ []) h.1,
            append_assoc texts (envelope_of x ∷ []) (map envelope_of xs),
          )
          refl)

-- The connections of a pool, each with what the server has written into it.
abbrev pub next_connection : List Writer → Result BridgeError (Reader × Writer) × List Writer
next_connection [] = (err (BridgeError.soap_fault (codes "no connection")), [])
next_connection (w ∷ ws) = (ok (record { inbound = w.written; failure = none }, fresh), ws)

abbrev pub call : Exchange → Text × Text
call x = (x.action, x.body)

abbrev pub response_of : Exchange → SoapResponse
response_of x = record { status_code = x.code; body = x.file }

module _ (read_file : Text → Option Text) (fuel : ℕ) (enough : 4 < fuel) where
  send_action-reply :
      (x : Exchange) (s : StatisticsEngine) (more : List Writer)
      → IsExchange read_file x
      → Tcp.send_action next_connection fuel x.action x.body
          (record { statistics = s; connection_pool = replied x ∷ more })
        ≡ (
          ok (response_of x),
          record { statistics = increment_request_count s; connection_pool = more },
        )
  unfolding Tcp.send_action Tcp.request_over Tcp.respond Tcp.send_request write_all
  send_action-reply x s more h =
      rw (read_response-answer_bytes x.code x.file fuel h.code_fits h.file_text h.file_fits enough)
        refl

  send_all-replies :
      (xs : List Exchange) (s : StatisticsEngine)
      → AreExchanges read_file xs
      → send_all
          (tcp_client next_connection fuel)
          (map call xs)
          (record { statistics = s; connection_pool = map replied xs })
        ≡ (
          map (λ x. ok (response_of x)) xs,
          record {
            statistics = record_all (replicate (length xs) request_sent) s;
            connection_pool = [];
          },
        )
  unfolding record_all record_event
  send_all-replies [] s h = refl
  send_all-replies (x ∷ xs) s h =
      rw
        (
          send_action-reply x s (map replied xs) h.0,
          send_all-replies xs (increment_request_count s) h.1,
        )
        refl

  sent_requests :
      (xs : List Exchange)
      → map (λ x. Tcp.send_request fresh x.action (envelope_of x)) xs
        ≡ map (λ x. ok (record { written = sent x; fault = none })) xs
  unfolding Tcp.send_request write_all
  sent_requests [] = refl
  sent_requests (x ∷ xs) =
      ap (◌∷◌ (ok (record { written = sent x; fault = none }))) (sent_requests xs)

  -- The server takes what the client writes, and the client what the server has written.
  abbrev pub meeting :
      List Exchange
      → StatisticsEngine
      → Result BridgeError
          (Worker × List (Result BridgeError SoapResponse) × TcpSoapClient (List Writer))
  meeting xs s = do
    (w, streams) ← start_worker read_file fuel (map incoming xs) (new (keys xs)).worker
    let (responses, c) =
        send_all (tcp_client next_connection fuel) (map call xs)
          (record { statistics = s; connection_pool = streams })
    ok (w, responses, c)

  -- Requests that the client makes one after the other, each over its own connection, to a server with
  -- as many responses: what the client writes is what comes in at the server; the server records the
  -- envelopes in order and answers from the last of its responses to the first; the client reads of
  -- each answer the code that the response's key ends in and the file, and counts the requests. The
  -- actions are ASCII without a line feed, the files are there, and all lengths fit.
  pub served_in_turn :
      (xs : List Exchange) (s : StatisticsEngine)
      → AreExchanges read_file xs
      → (map (λ x. Tcp.send_request fresh x.action (envelope_of x)) xs
          ≡ map (λ x. ok (record { written = sent x; fault = none })) xs)
        × (meeting xs s
            ≡ ok (
              record { responses = []; requests = map envelope_of xs },
              map (λ x. ok (response_of x)) xs,
              record {
                statistics = record_all (replicate (length xs) request_sent) s;
                connection_pool = [];
              },
            ))
  served_in_turn xs s h = (
    sent_requests xs,
    rw (start_worker-exchanges read_file fuel enough xs [] [] h, send_all-replies xs s h) refl,
  )
