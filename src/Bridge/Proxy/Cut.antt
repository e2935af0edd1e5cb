-- ===== src/Bridge/Proxy/Cut.antt =====
-- Sessions that are cut off: by the token between two messages, or by the client within one.
use realflight_bridge.Base.{
  ℕ, ◌<◌, ◌^◌, ◌≡◌, refl, sym, ap, ◌∙◌, Bool, true, false, Option, none, some, List, [], ◌∷◌, ◌++◌,
  length, replicate, append_assoc, append-nil, arith,
}
use realflight_bridge.Outcome.{Result, ok, err, panic, spin}
use realflight_bridge.Text.Utf8.{Bytes}
use realflight_bridge.Types.{BridgeError, IoError}
use realflight_bridge.Net.{read_exact, end_of_file, failed}
use realflight_bridge.Net.Lines.{read_exact-append}
use realflight_bridge.Bridge.{RealFlightBridge}
use realflight_bridge.Bridge.Wire.{Codec, to_be_bytes}
use realflight_bridge.Bridge.Wire.Frames.{frame, four, from_be_bytes-to_be_bytes}
use realflight_bridge.Bridge.Proxy.{round, at_length, at_body, after, handle_client}
use realflight_bridge.Bridge.Proxy.Sessions.{
  frames, Sendable, reply, joined, serve, session, round-frame, seen, behind, after-at_request,
}

-- How a stream that ends too early fails.
abbrev pub cut_error : Option IoError → IoError
cut_error none = end_of_file
cut_error (some e) = e

module _ {S : Type 0} (codec : Codec) (bridge : RealFlightBridge S) where
  -- The messages one by one, and then the end of the session.
  abbrev pub serve_then :
      List Bytes
      → (S → Result BridgeError (Unit {0}) × Bytes × S)
      → S
      → Result BridgeError (Unit {0}) × Bytes × S
  serve_then [] last s = last s
  serve_then (m ∷ ms) last s =
      joined codec bridge (reply codec bridge (codec.request_from_bytes m) s) (serve_then ms last)

  joined_congr :
      (r : Result BridgeError Bytes × S) (f g : S → Result BridgeError (Unit {0}) × Bytes × S)
      → ((s : S) → f s ≡ g s)
      → joined codec bridge r f ≡ joined codec bridge r g
  joined_congr (ok bytes, s) f g h = ap (λ x. (x.0, bytes ++ x.1, x.2)) (h s)
  joined_congr (err e, s) f g h = refl
  joined_congr (panic, s) f g h = refl
  joined_congr (spin, s) f g h = refl

  serve_then-serve :
      (ms : List Bytes) (s : S) → serve_then ms (λ s'. (ok tt, [], s')) s ≡ serve codec bridge ms s
  serve_then-serve [] s = refl
  serve_then-serve (m ∷ ms) s =
      joined_congr (reply codec bridge (codec.request_from_bytes m) s) _ _ (serve_then-serve ms)

  module _ (rest : Bytes) (failure : Option IoError) (rounds : List Bool)
      (last : S → Result BridgeError (Unit {0}) × Bytes × S)
      (h : (w : Bytes) (s : S)
        → seen codec bridge
            (handle_client codec bridge rounds (session codec bridge rest failure w s))
          ≡ behind codec bridge w (last s)) where
    handle_client-then :
        (ms : List Bytes) (written : Bytes) (s : S)
        → Sendable ms
        → seen codec bridge (
            handle_client codec bridge
              (replicate (length ms) false ++ rounds)
              (session codec bridge (frames ms ++ rest) failure written s))
          ≡ behind codec bridge written (serve_then ms last s)
    unfolding handle_client
    handle_client-then [] written s v = h written s
    handle_client-then (m ∷ ms) written s (l, v) = rw (append_assoc (frame m) (frames ms) rest) (
        rw (round-frame codec bridge m (frames ms ++ rest) failure written s l) (
          after-at_request codec bridge (frames ms ++ rest) failure written
            (handle_client codec bridge (replicate (length ms) false ++ rounds))
            (serve_then ms last) (λ w s'. handle_client-then ms w s' v) (codec.request_from_bytes m)
            s))

  -- A session that is cancelled behind any number of messages serves these and no other, and ends
  -- without an error, whatever else the client has sent, unless a response cannot be serialised or the
  -- bridge panics or does not return.
  pub handle_client_cancelled :
      (ms : List Bytes) (rest : Bytes) (failure : Option IoError) (rounds : List Bool)
      (written : Bytes) (s : S)
      → Sendable ms
      → seen codec bridge (
          handle_client codec bridge
            (replicate (length ms) false ++ true ∷ rounds)
            (session codec bridge (frames ms ++ rest) failure written s))
        ≡ behind codec bridge written (serve codec bridge ms s)
  handle_client_cancelled ms rest failure rounds written s v =
      handle_client-then rest failure (true ∷ rounds) (λ s'. (ok tt, [], s'))
        (λ w s'. unfold handle_client in ap (λ bs. (ok tt, bs, s')) (sym (append-nil w))) ms written
        s v
      ∙ ap (behind codec bridge written) (serve_then-serve ms s)

  read_short :
      (n : ℕ) (part : Bytes) (failure : Option IoError)
      → length part < n
      → read_exact n (record { inbound = part; failure = failure }) ≡ failed failure end_of_file
  unfolding read_exact
  read_short n part failure h = ground arith

  -- A message of which less has come than its length says.
  round-cut :
      (n : ℕ) (part : Bytes) (failure : Option IoError) (written : Bytes) (s : S)
      → n < 2 ^ 32
      → length part < n
      → round codec bridge (session codec bridge (to_be_bytes n ++ part) failure written s) ≡ (
        err (BridgeError.connection (cut_error failure)),
        session codec bridge [] failure written s,
      )
  unfolding round at_length at_body
  round-cut n part none written s b l =
      rw (rw (four n) at (read_exact-append (to_be_bytes n) part none))
        (rw (from_be_bytes-to_be_bytes n b) (rw (read_short n part none l)))
  round-cut n part (some e) written s b l =
      rw (rw (four n) at (read_exact-append (to_be_bytes n) part (some e)))
        (rw (from_be_bytes-to_be_bytes n b) (rw (read_short n part (some e) l)))

  -- A client that breaks off within a message has its earlier messages served, and the session ends in
  -- the error of the connection, which the end of the stream is, too, unless a response could not be
  -- serialised or the bridge has panicked or not returned before.
  pub handle_client_truncated :
      (ms : List Bytes) (n : ℕ) (part : Bytes) (failure : Option IoError) (rounds : List Bool)
      (written : Bytes) (s : S)
      → Sendable ms
      → n < 2 ^ 32
      → length part < n
      → seen codec bridge (
          handle_client codec bridge
            (replicate (length ms) false ++ false ∷ rounds)
            (session codec bridge (frames ms ++ (to_be_bytes n ++ part)) failure written s))
        ≡ behind codec bridge written
            (serve_then ms (λ s'. (err (BridgeError.connection (cut_error failure)), [], s')) s)
  handle_client_truncated ms n part failure rounds written s v b l =
      handle_client-then (to_be_bytes n ++ part) failure (false ∷ rounds)
        (λ s'. (err (BridgeError.connection (cut_error failure)), [], s'))
        (λ w s'.
          unfold handle_client after in
          rw (round-cut n part failure w s' b l) (
            ap (λ bs. (err (BridgeError.connection (cut_error failure)), bs, s'))
              (sym (append-nil w))))
        ms written s v
