-- ===== src/Bridge/Proxy/Race.antt =====
-- Two tasks at one AsyncRemoteBridge, and the proxy that answers them.
use realflight_bridge.Base.{
  ℕ, ◌≡◌, ◌≢◌, refl, sym, ap, ◌∙◌, true, false, none, some, List, [], ◌∷◌, ◌++◌, append-nil, arith,
}
use realflight_bridge.Outcome.{ok}
use realflight_bridge.Text.Utf8.{Bytes}
use realflight_bridge.Bridge.{RealFlightBridge}
use realflight_bridge.Bridge.Wire.{Request, Response, Codec}
use realflight_bridge.Bridge.Wire.Frames.{frame}
use realflight_bridge.Bridge.Remote.{WireErrors}
use realflight_bridge.Bridge.Remote.Shared.{Turn, writes, reads, contains, without, run, then_run}
use realflight_bridge.Bridge.Remote.Shared.Order.{shared, turn-writes, turn-reads}
use realflight_bridge.Bridge.Proxy.{process_request, handle_client}
use realflight_bridge.Bridge.Proxy.Sessions.{
  session, seen, behind, frames, serve, handle_client-frames,
}
use realflight_bridge.Bridge.Proxy.EndToEnd.{RoundTrips, Encodes}

module _ (i j : ℕ) (apart : i ≢ j) where
  contains_other : contains (i ∷ []) j ≡ false
  contains_other = ground arith

  contains_first : contains (i ∷ []) i ≡ true
  contains_first = ground arith

  contains_both : (contains (j ∷ i ∷ []) i ≡ true) × (contains (j ∷ i ∷ []) j ≡ true)
  contains_both = (ground arith, ground arith)

  without_second : without (j ∷ i ∷ []) j ≡ i ∷ []
  without_second = ground arith

  without_first : without (j ∷ i ∷ []) i ≡ j ∷ []
  without_first = ground arith

contains_own : (i : ℕ) → contains (i ∷ []) i ≡ true
contains_own i = ground arith

without_own : (i : ℕ) → without (i ∷ []) i ≡ []
without_own i = ground arith

-- Two requests, as they are served one after the other.
module _ (codec : Codec) (laws : RoundTrips codec) {S : Type 0} (bridge : RealFlightBridge S)
    (q₁ q₂ : Request) (r₁ r₂ : Response) (s₁ s₂ g₁ g₂ : Bytes) (s s' s'' : S)
    (e₁ : Encodes codec q₁ s₁ r₁ g₁) (e₂ : Encodes codec q₂ s₂ r₂ g₂)
    (h₁ : process_request bridge q₁ s ≡ (ok r₁, s'))
    (h₂ : process_request bridge q₂ s' ≡ (ok r₂, s'')) where
  serve_two : serve codec bridge (s₁ ∷ s₂ ∷ []) s ≡ (ok tt, frame g₁ ++ (frame g₂ ++ []), s'')
  serve_two =
      rw (laws.0 q₁ s₁ e₁.0) (rw h₁ (rw (e₁.2) (rw (laws.0 q₂ s₂ e₂.0) (rw h₂ (rw (e₂.2))))))

  abbrev written : Bytes
  written = frame s₁ ++ frame s₂

  -- What the proxy sends for the two requests.
  abbrev answers : Bytes
  answers = frame g₁ ++ (frame g₂ ++ [])

  serve_written :
      seen codec bridge (
        handle_client codec bridge
          (false ∷ false ∷ false ∷ [])
          (session codec bridge written none [] s))
      ≡ (ok tt, answers, s'')
  serve_written =
      ap
        (λ bs. seen codec bridge (
          handle_client codec bridge (false ∷ false ∷ false ∷ [])
            (session codec bridge bs none [] s)))
        (sym
          (append-nil (frames (s₁ ∷ s₂ ∷ [])) ∙ ap (λ bs. frame s₁ ++ bs) (append-nil (frame s₂))))
      ∙ handle_client-frames codec bridge (s₁ ∷ s₂ ∷ []) [] none [] s (e₁.1, (e₂.1, tt))
          (omega arith)
      ∙ ap (behind codec bridge []) serve_two

  module _ (errors : WireErrors) (i j : ℕ) (apart : i ≢ j) where
    both_written :
        (ts : List Turn)
        → run errors codec (writes i q₁ ∷ writes j q₂ ∷ ts) (shared answers [] [] [])
          ≡ run errors codec ts (shared answers written (j ∷ i ∷ []) [])
    unfolding run then_run
    both_written ts = rw (turn-writes errors codec i q₁ s₁ answers [] [] [] e₁.0 refl) (
        rw (
          turn-writes errors codec j q₂ s₂ answers (frame s₁) (i ∷ []) [] e₂.0
            (contains_other i j apart)))

    -- Two tasks that share an AsyncRemoteBridge, and whose requests go out one after the other: the
    -- proxy answers both in that order, and each task gets its own response where they read in that
    -- order, too. Where the second reads first, each gets the response to the other's request.
    pub responses_race :
        (run errors codec
            (writes i q₁ ∷ writes j q₂ ∷ reads i ∷ reads j ∷ [])
            (shared answers [] [] [])
          ≡ some (shared [] written [] ((i, ok r₁) ∷ (j, ok r₂) ∷ [])))
        × (run errors codec
              (writes i q₁ ∷ writes j q₂ ∷ reads j ∷ reads i ∷ [])
              (shared answers [] [] [])
            ≡ some (shared [] written [] ((j, ok r₁) ∷ (i, ok r₂) ∷ [])))
        × (seen codec bridge (
              handle_client codec bridge
                (false ∷ false ∷ false ∷ [])
                (session codec bridge written none [] s))
            ≡ (ok tt, answers, s''))
    responses_race = (
      both_written (reads i ∷ reads j ∷ [])
          ∙ read_both i j (contains_both i j apart).0 (without_first i j apart),
      both_written (reads j ∷ reads i ∷ [])
          ∙ read_both j i (contains_both i j apart).1 (without_second i j apart),
      serve_written,
    )
      where
        read_both :
            (a b : ℕ)
            → contains (j ∷ i ∷ []) a ≡ true
            → without (j ∷ i ∷ []) a ≡ b ∷ []
            → run errors codec (reads a ∷ reads b ∷ []) (shared answers written (j ∷ i ∷ []) [])
              ≡ some (shared [] written [] ((a, ok r₁) ∷ (b, ok r₂) ∷ []))
        read_both a b c w =
            unfold run then_run in
            rw
              (turn-reads errors codec a g₁ (frame g₂ ++ []) written r₁ (j ∷ i ∷ []) []
                (laws.1 r₁ g₁ e₁.2) e₁.3 c)
              (rw w (
                rw
                  (turn-reads errors codec b g₂ [] written r₂ (b ∷ []) ((a, ok r₁) ∷ [])
                    (laws.1 r₂ g₂ e₂.2) e₂.3 (contains_own b))
                  (rw (without_own b))))
