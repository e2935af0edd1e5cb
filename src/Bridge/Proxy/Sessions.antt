-- ===== src/Bridge/Proxy/Sessions.antt =====
-- A whole session of a client with the proxy: what the loop of handle_client comes to, as a function of
-- the requests alone.
use realflight_bridge.Base.{
  suc, ◌<◌, ◌^◌, ◌≡◌, refl, sym, ap, ◌∙◌, ◌⊎◌, inl, inr, false, Option, none, some, List, [], ◌∷◌,
  ◌++◌, length, replicate, append_assoc, append-nil, arith,
}
use realflight_bridge.Outcome.{Result, ok, err, panic, spin}
use realflight_bridge.Text.{Text, codes}
use realflight_bridge.Text.Utf8.{Bytes}
use realflight_bridge.Types.{BridgeError, IoError}
use realflight_bridge.Net.{read_exact}
use realflight_bridge.Bridge.{RealFlightBridge}
use realflight_bridge.Net.Lines.{read_exact-append}
use realflight_bridge.Bridge.Wire.{Request, Response, Codec}
use realflight_bridge.Bridge.Wire.Frames.{frame, size, read_length-frame, write_frame-frame}
use realflight_bridge.Bridge.Proxy.{
  Session, break, process_request, send_response, replied, at_response, at_request, at_body,
  at_length, round, after, handle_client,
}

-- The bytes of the frames of a list of messages.
abbrev pub frames : List Bytes → Bytes
frames [] = []
frames (m ∷ ms) = frame m ++ frames ms

abbrev pub Sendable : List Bytes → Type 0
Sendable [] = Unit
Sendable (m ∷ ms) = (length m < 2 ^ 32) × Sendable ms

module _ {S : Type 0} (codec : Codec) (bridge : RealFlightBridge S) where
  -- What is to happen with one message: no response to one that is no request; otherwise the frame
  -- of the response to it.
  abbrev pub framed : Text ⊎ Bytes → S → Result BridgeError Bytes × S
  framed (inl e) s = (err (BridgeError.soap_fault (codes "Failed to serialize response: " ++ e)), s)
  framed (inr bytes) s = (ok (frame bytes), s)

  abbrev pub encoded : Result BridgeError Response × S → Result BridgeError Bytes × S
  encoded (ok response, s) = framed (codec.response_to_stdvec response) s
  encoded (err e, s) = (err e, s)
  encoded (panic, s) = (panic, s)
  encoded (spin, s) = (spin, s)

  abbrev pub reply : Text ⊎ Request → S → Result BridgeError Bytes × S
  reply (inl e) s = (ok [], s)
  reply (inr request) s = encoded (process_request bridge request s)

  -- The messages of a session one by one: the result, all that is sent back, and the bridge.
  abbrev pub joined :
      Result BridgeError Bytes × S
      → (S → Result BridgeError (Unit {0}) × Bytes × S)
      → Result BridgeError (Unit {0}) × Bytes × S
  joined (ok bytes, s) again = let (result, more, s') = again s in (result, bytes ++ more, s')
  joined (err e, s) again = (err e, [], s)
  joined (panic, s) again = (panic, [], s)
  joined (spin, s) again = (spin, [], s)

  abbrev pub serve : List Bytes → S → Result BridgeError (Unit {0}) × Bytes × S
  serve [] s = (ok tt, [], s)
  serve (m ∷ ms) s = joined (reply (codec.request_from_bytes m) s) (serve ms)

  -- A session whose client sends `inbound`.
  abbrev pub session : Bytes → Option IoError → Bytes → S → Session S
  session inbound failure written s = record {
    reader = record { inbound = inbound; failure = failure };
    writer = record { written = written; fault = none };
    bridge_state = s;
  }

  pub round-frame :
      (m rest : Bytes) (failure : Option IoError) (written : Bytes) (s : S)
      → length m < 2 ^ 32
      → round codec bridge (session (frame m ++ rest) failure written s)
        ≡ at_request codec bridge (codec.request_from_bytes m) (session rest failure written s)
  unfolding round at_length at_body
  round-frame m rest failure written s h =
      rw (read_length-frame m rest failure) (rw (size m h) (rw (read_exact-append m rest failure)))

  -- The end of the stream, and up to three bytes before it.
  round-end :
      (tail : Bytes) (failure : Option IoError) (written : Bytes) (s : S)
      → length tail < 4
      → round codec bridge (session tail failure written s)
        ≡ (ok break, session [] failure written s)
  unfolding round at_length read_exact
  round-end tail none written s h = ground arith
  round-end tail (some e) written s h = ground arith

  -- The part of a session that the client and the bridge see.
  abbrev pub seen :
      Result BridgeError (Unit {0}) × Session S → Result BridgeError (Unit {0}) × Bytes × S
  seen (result, c) = (result, c.writer.written, c.bridge_state)

  abbrev pub behind :
      Bytes → Result BridgeError (Unit {0}) × Bytes × S → Result BridgeError (Unit {0}) × Bytes × S
  behind written (result, more, s) = (result, written ++ more, s)

  module _ (rest : Bytes) (failure : Option IoError) (written : Bytes)
      (again : Session S → Result BridgeError (Unit {0}) × Session S)
      (spec : S → Result BridgeError (Unit {0}) × Bytes × S)
      (h : (w : Bytes) (s : S) → seen (again (session rest failure w s)) ≡ behind w (spec s)) where
    after-framed :
        (response : Response) (s : S) (d : Text ⊎ Bytes)
        → codec.response_to_stdvec response ≡ d
        → seen (
            after codec bridge
              (replied codec bridge
                (send_response codec (session rest failure written s).writer response)
                (session rest failure written s))
              again)
          ≡ behind written (joined (framed d s) spec)
    unfolding replied send_response after
    after-framed response s (inl m) e = rw e (
        ap (λ w. (err (BridgeError.soap_fault (codes "Failed to serialize response: " ++ m)), w, s))
          (sym (append-nil written)))
    after-framed response s (inr bytes) e = rw e (
        rw (write_frame-frame bytes written) (
          h (written ++ frame bytes) s
          ∙ ap (λ w. ((spec s).0, w, (spec s).2)) (append_assoc written (frame bytes) (spec s).1)))

    after-at_response :
        (r : Result BridgeError Response × S) (s : S)
        → seen
            (after codec bridge (at_response codec bridge r (session rest failure written s)) again)
          ≡ behind written (joined (encoded r) spec)
    unfolding at_response after
    after-at_response (ok response, s') s =
        after-framed response s' (codec.response_to_stdvec response) refl
    after-at_response (err e, s') s = ap (λ w. (err e, w, s')) (sym (append-nil written))
    after-at_response (panic, s') s = ap (λ w. (panic, w, s')) (sym (append-nil written))
    after-at_response (spin, s') s = ap (λ w. (spin, w, s')) (sym (append-nil written))

    pub after-at_request :
        (request : Text ⊎ Request) (s : S)
        → seen (
            after codec bridge
              (at_request codec bridge request (session rest failure written s))
              again)
          ≡ behind written (joined (reply request s) spec)
    unfolding at_request after
    after-at_request (inl e) s = h written s
    after-at_request (inr request) s = after-at_response (process_request bridge request s) s

  -- A client that sends the frames of `messages`, each below 2^32 bytes, and then closes or breaks the
  -- connection, at most three bytes into a further frame, is served message by message. All responses
  -- go out in the order of the requests, on a connection that takes them. The session ends without an
  -- error, unless a response cannot be serialised or the bridge panics or does not return.
  pub handle_client-frames :
      (messages : List Bytes) (tail : Bytes) (failure : Option IoError) (written : Bytes) (s : S)
      → Sendable messages
      → length tail < 4
      → seen (
          handle_client codec bridge
            (replicate (suc (length messages)) false)
            (session (frames messages ++ tail) failure written s))
        ≡ behind written (serve messages s)
  unfolding handle_client
  handle_client-frames [] tail failure written s h n =
      rw (round-end tail failure written s n) (ap (λ w. (ok tt, w, s)) (sym (append-nil written)))
  handle_client-frames (m ∷ ms) tail failure written s (h, hs) n =
      rw (append_assoc (frame m) (frames ms) tail) (
        rw (round-frame m (frames ms ++ tail) failure written s h) (
          after-at_request (frames ms ++ tail) failure written
            (handle_client codec bridge (replicate (suc (length ms)) false)) (serve ms)
            (λ w s'. handle_client-frames ms tail failure w s' hs n) (codec.request_from_bytes m)
            s))
