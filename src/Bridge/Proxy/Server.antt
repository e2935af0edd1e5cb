-- ===== src/Bridge/Proxy/Server.antt =====
-- The server's loop over its clients (AsyncProxyServer::run_with_bridge).
use realflight_bridge.Base.{
  suc, ◌≡◌, refl, sym, ap, ◌∙◌, false, none, List, [], ◌∷◌, length, replicate, append-nil, arith,
}
use realflight_bridge.Outcome.{Result, ok, err, panic, spin}
use realflight_bridge.Text.Utf8.{Bytes}
use realflight_bridge.Types.{BridgeError}
use realflight_bridge.Bridge.{RealFlightBridge}
use realflight_bridge.Bridge.Wire.{Codec}
use realflight_bridge.Bridge.Proxy.{
  Session, Event, cancelled, accepted, go_on, handle_client, run_with_bridge,
}
use realflight_bridge.Bridge.Proxy.Sessions.{
  session, seen, frames, Sendable, serve, handle_client-frames,
}

abbrev pub AllSendable : List (List Bytes) → Type 0
AllSendable [] = Unit
AllSendable (ms ∷ clients) = Sendable ms × AllSendable clients

-- Clients that connect one after the other, each of which sends the frames of its messages and closes
-- the connection; then the server is cancelled.
abbrev pub visits : List (List Bytes) → List Event
visits [] = cancelled ∷ []
visits (ms ∷ clients) =
    accepted (record { inbound = frames ms; failure = none })
      (record { written = []; fault = none }) (replicate (suc (length ms)) false)
    ∷ visits clients

module _ {S : Type 0} (codec : Codec) (bridge : RealFlightBridge S) where
  -- The clients one by one: only a panic ends the server early.
  abbrev pub next :
      Result BridgeError (Unit {0}) × Bytes × S
      → (S → Result BridgeError (Unit {0}) × List Bytes × S)
      → Result BridgeError (Unit {0}) × List Bytes × S
  next (ok _, out, s) again = let (result, outputs, s') = again s in (result, out ∷ outputs, s')
  next (err e, out, s) again = let (result, outputs, s') = again s in (result, out ∷ outputs, s')
  next (panic, out, s) again = (panic, out ∷ [], s)
  next (spin, out, s) again = (spin, out ∷ [], s)

  abbrev pub serve_all : List (List Bytes) → S → Result BridgeError (Unit {0}) × List Bytes × S
  serve_all [] s = (ok tt, [], s)
  serve_all (ms ∷ clients) s = next (serve codec bridge ms s) (serve_all clients)

  go_on-seen :
      (r : Result BridgeError (Unit {0}) × Session S)
      (again spec : S → Result BridgeError (Unit {0}) × List Bytes × S)
      → ((s : S) → again s ≡ spec s)
      → go_on codec bridge r again ≡ next (seen codec bridge r) spec
  unfolding go_on
  go_on-seen (ok _, c) again spec h =
      ap (λ r. (r.0, c.writer.written ∷ r.1, r.2)) (h c.bridge_state)
  go_on-seen (err e, c) again spec h =
      ap (λ r. (r.0, c.writer.written ∷ r.1, r.2)) (h c.bridge_state)
  go_on-seen (panic, c) again spec h = refl
  go_on-seen (spin, c) again spec h = refl

  -- Clients that come one after the other, with messages below 2^32 bytes, are served in that order,
  -- each message by message, on the one bridge; an error in a session does not stop the server.
  -- Cancelled behind the last, the server returns without an error, unless the bridge panics or does
  -- not return.
  pub run_with_bridge-visits :
      (clients : List (List Bytes)) (s : S)
      → AllSendable clients
      → run_with_bridge codec bridge (visits clients) s ≡ serve_all clients s
  unfolding run_with_bridge
  run_with_bridge-visits [] s h = refl
  run_with_bridge-visits (ms ∷ clients) s (h, hs) =
      go_on-seen
        (handle_client codec bridge (replicate (suc (length ms)) false)
          (session codec bridge (frames ms) none [] s))
        (run_with_bridge codec bridge (visits clients)) (serve_all clients)
        (λ s'. run_with_bridge-visits clients s' hs)
      ∙ ap (λ r. next r (serve_all clients))
          (ap
              (λ bs. seen codec bridge (
                handle_client codec bridge (replicate (suc (length ms)) false)
                  (session codec bridge bs none [] s)))
              (sym (append-nil (frames ms)))
            ∙ handle_client-frames codec bridge ms [] none [] s h (omega arith))
