-- ===== src/Bridge/Proxy/EndToEnd.antt =====
-- RealFlightRemoteBridge (or AsyncRemoteBridge) and the proxy together: each is given the bytes that the
-- other one sends, and the bridge behind the proxy does the work.
use realflight_bridge.Base.{
  ◌<◌, ◌^◌, ◌≡◌, refl, sym, ap, ◌∙◌, ◌⊎◌, inl, inr, false, Option, none, some, [], ◌∷◌, length,
  append-nil, arith,
}
use realflight_bridge.Outcome.{Result, ok, err, of_sum}
use realflight_bridge.Text.Utf8.{Bytes}
use realflight_bridge.Types.{BridgeError, ControlInputs, SimulatorState}
use realflight_bridge.Bridge.{RealFlightBridge}
use realflight_bridge.Bridge.Wire.{
  RequestType, Request, Response, success_response, success_with, error_response, Codec, read_frame,
}
use realflight_bridge.Bridge.Wire.Frames.{frame, read_frame-frame, write_frame-frame}
use realflight_bridge.Bridge.Remote.{
  Connection, WireErrors, no_payload, state_of, write_request, parse_response, receive,
  send_request, exchange_data, command, enable_rc, disable_rc, reset_aircraft, remote_bridge,
}
use realflight_bridge.Bridge.Proxy.{answered, process_request, handle_client}
use realflight_bridge.Bridge.Proxy.Sessions.{
  session, seen, behind, frames, serve, handle_client-frames,
}

-- postcard reads back what it wrote.
abbrev pub RoundTrips : Codec → Type 0
RoundTrips codec =
    ((q : Request) (bs : Bytes)
      → codec.request_to_stdvec q ≡ inr bs
      → codec.request_from_bytes bs ≡ inr q)
    × ((r : Response) (bs : Bytes)
        → codec.response_to_stdvec r ≡ inr bs
        → codec.response_from_bytes bs ≡ inr r)

-- A connection of the client that gets `inbound` from the proxy, and has sent `written`.
abbrev pub connected : Bytes → Bytes → Connection
connected inbound written = record {
  reader = record { inbound = inbound; failure = none };
  writer = record { written = written; fault = none };
}

-- The bytes of a request and of its response, as postcard writes them.
abbrev pub Encodes : Codec → Request → Bytes → Response → Bytes → Type 0
Encodes codec q sent r got =
    (codec.request_to_stdvec q ≡ inr sent)
    × (length sent < 2 ^ 32)
    × (codec.response_to_stdvec r ≡ inr got)
    × (length got < 2 ^ 32)

read_frame-whole :
    (bytes : Bytes)
    → length bytes < 2 ^ 32
    → read_frame (record { inbound = frame bytes; failure = none })
      ≡ (ok bytes, record { inbound = []; failure = none })
read_frame-whole bytes n = rw (append-nil (frame bytes)) at (read_frame-frame bytes [] none n)

-- What the client makes of the bridge's result.
abbrev pub told : BridgeError ⊎ SimulatorState → Result BridgeError SimulatorState
told (inl e) = err no_payload
told (inr state) = ok state

-- The proxy's response for a result of the bridge.
abbrev pub response_to : {A : Type 0} → (A → Response) → BridgeError ⊎ A → Response
response_to f (inl e) = error_response
response_to f (inr a) = f a

state_of-response_to :
    (r : BridgeError ⊎ SimulatorState) → state_of (response_to success_with r) ≡ told r
unfolding state_of
state_of-response_to (inl e) = refl
state_of-response_to (inr state) = refl

answered-of_sum :
    {S A : Type 0} (f : A → Response) (r : BridgeError ⊎ A) (s : S)
    → answered f (of_sum r, s) ≡ (ok (response_to f r), s)
unfolding answered
answered-of_sum f (inl e) s = refl
answered-of_sum f (inr a) s = refl

module _ (codec : Codec) (laws : RoundTrips codec) where
  send_request-connected :
      (errors : WireErrors) (t : RequestType) (p : Option ControlInputs) (r : Response)
      (sent got : Bytes)
      → Encodes codec (record { request_type = t; payload = p }) sent r got
      → send_request errors codec t p (connected (frame got) []) ≡ (ok r, connected [] (frame sent))
  unfolding send_request write_request parse_response receive
  send_request-connected errors t p r sent got (e, n, e', n') =
      rw e (rw (write_frame-frame sent []) (rw (read_frame-whole got n') (rw (laws.1 r got e'))))

  serve-one :
      {S : Type 0} (bridge : RealFlightBridge S) (q : Request) (r : Response) (sent got : Bytes)
      (s s' : S)
      → Encodes codec q sent r got
      → process_request bridge q s ≡ (ok r, s')
      → serve codec bridge (sent ∷ []) s ≡ (ok tt, frame got, s')
  serve-one bridge q r sent got s s' (e, n, e', n') h =
      rw (laws.0 q sent e) (rw h (rw e' (ap (λ w. (ok tt, w, s')) (append-nil (frame got)))))

  -- The proxy's session for one request.
  one_request :
      {S : Type 0} (bridge : RealFlightBridge S) (q : Request) (r : Response) (sent got : Bytes)
      (s s' : S)
      → Encodes codec q sent r got
      → process_request bridge q s ≡ (ok r, s')
      → seen codec bridge (
          handle_client codec bridge
            (false ∷ false ∷ [])
            (session codec bridge (frame sent) none [] s))
        ≡ (ok tt, frame got, s')
  one_request bridge q r sent got s s' (e, n, e', n') h =
      ap
        (λ bs.
          seen codec bridge
            (handle_client codec bridge (false ∷ false ∷ []) (session codec bridge bs none [] s)))
        (sym (append-nil (frames (sent ∷ [])) ∙ append-nil (frame sent)))
      ∙ handle_client-frames codec bridge (sent ∷ []) [] none [] s (n, tt) (omega arith)
      ∙ ap (behind codec bridge []) (serve-one bridge q r sent got s s' (e, n, e', n') h)

  -- The client's exchange over the proxy is the bridge's exchange, where that ends in a state or an
  -- error and both messages are below 2^32 bytes: the proxy runs it once, and the client gets its
  -- state, or the error that there is no payload in the response.
  pub exchange_data-proxied :
      (errors : WireErrors) {S : Type 0} (bridge : RealFlightBridge S) (control : ControlInputs)
      (s s' : S) (result : BridgeError ⊎ SimulatorState) (sent got : Bytes)
      → bridge.exchange_data control s ≡ (of_sum result, s')
      → Encodes codec
          (record { request_type = RequestType.exchange_data; payload = some control })
          sent
          (response_to success_with result)
          got
      → ((remote_bridge errors codec).exchange_data control (connected (frame got) [])
          ≡ (told result, connected [] (frame sent)))
        × (seen codec bridge (
              handle_client codec bridge
                (false ∷ false ∷ [])
                (session codec bridge (frame sent) none [] s))
            ≡ (ok tt, frame got, s'))
  unfolding remote_bridge exchange_data process_request
  exchange_data-proxied errors bridge control s s' result sent got h enc = (
    rw
        (send_request-connected errors RequestType.exchange_data (some control)
          (response_to success_with result) sent got enc)
        (rw (state_of-response_to result)),
    one_request bridge (record { request_type = RequestType.exchange_data; payload = some control })
        (response_to success_with result) sent got s s' enc
        (rw h (answered-of_sum success_with result s')),
  )

-- The operations without a payload, and their requests.
pub data Command : Type 0 where
  enabling disabling resetting : Command

abbrev pub run_command :
    {S : Type 0} → Command → RealFlightBridge S → S → Result BridgeError (Unit {0}) × S
run_command enabling bridge = bridge.enable_rc
run_command disabling bridge = bridge.disable_rc
run_command resetting bridge = bridge.reset_aircraft

abbrev pub request_of : Command → Request
request_of enabling = record { request_type = RequestType.enable_rc; payload = none }
request_of disabling = record { request_type = RequestType.disable_rc; payload = none }
request_of resetting = record { request_type = RequestType.reset_aircraft; payload = none }

module _ (codec : Codec) (laws : RoundTrips codec) where
  remote_command :
      (errors : WireErrors) (cmd : Command) (r : Response) (sent got : Bytes)
      → Encodes codec (request_of cmd) sent r got
      → run_command cmd (remote_bridge errors codec) (connected (frame got) [])
        ≡ (ok tt, connected [] (frame sent))
  unfolding remote_bridge enable_rc disable_rc reset_aircraft command
  remote_command errors enabling r sent got enc =
      rw (send_request-connected codec laws errors RequestType.enable_rc none r sent got enc) refl
  remote_command errors disabling r sent got enc =
      rw (send_request-connected codec laws errors RequestType.disable_rc none r sent got enc) refl
  remote_command errors resetting r sent got enc =
      rw (send_request-connected codec laws errors RequestType.reset_aircraft none r sent got enc)
        refl

  process_command :
      {S : Type 0} (bridge : RealFlightBridge S) (cmd : Command) (result : BridgeError ⊎ Unit {0})
      (s s' : S)
      → run_command cmd bridge s ≡ (of_sum result, s')
      → process_request bridge (request_of cmd) s
        ≡ (ok (response_to (λ _. success_response) result), s')
  unfolding process_request
  process_command bridge enabling result s s' h =
      rw h (answered-of_sum (λ _. success_response) result s')
  process_command bridge disabling result s s' h =
      rw h (answered-of_sum (λ _. success_response) result s')
  process_command bridge resetting result s s' h =
      rw h (answered-of_sum (λ _. success_response) result s')

  -- A command over the proxy is run once by the bridge behind it, where that ends in success or an
  -- error and both messages are below 2^32 bytes. The client's call succeeds, also where the command
  -- has failed and the response says so.
  pub command-proxied :
      (errors : WireErrors) {S : Type 0} (bridge : RealFlightBridge S) (cmd : Command) (s s' : S)
      (result : BridgeError ⊎ Unit {0}) (sent got : Bytes)
      → run_command cmd bridge s ≡ (of_sum result, s')
      → Encodes codec (request_of cmd) sent (response_to (λ _. success_response) result) got
      → (run_command cmd (remote_bridge errors codec) (connected (frame got) [])
          ≡ (ok tt, connected [] (frame sent)))
        × (seen codec bridge (
              handle_client codec bridge
                (false ∷ false ∷ [])
                (session codec bridge (frame sent) none [] s))
            ≡ (ok tt, frame got, s'))
  command-proxied errors bridge cmd s s' result sent got h enc = (
    remote_command errors cmd (response_to (λ _. success_response) result) sent got enc,
    one_request codec laws bridge (request_of cmd) (response_to (λ _. success_response) result) sent
        got s s' enc (process_command bridge cmd result s s' h),
  )
