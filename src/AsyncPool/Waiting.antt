-- ===== src/AsyncPool/Waiting.antt =====
-- The waiting of `ensure_initialized`.
use realflight_bridge.Base.{
  ℕ, ◌≤◌, ◌≡◌, ◌≢◌, refl, ◌⊎◌, inl, inr, Option, none, some, List, ◌∷◌, arith,
}
use realflight_bridge.Outcome.{Result, spin}
use realflight_bridge.Text.{Text}
use realflight_bridge.Types.{BridgeError, Duration}
use realflight_bridge.AsyncPool.{
  Phase, AsyncConnectionPool, Waited, changed, closed, timed_out, Look, check, ensure_initialized,
}
use realflight_bridge.AsyncPool.Invariant.{Told}

module _ (addr : Text) (pool_size : ℕ) where
  pub Told-made :
      (ph : Phase) (p : AsyncConnectionPool)
      → Told pool_size ph p.init_result p.made
      → p.init_result ≡ some (inr tt)
      → pool_size ≤ p.made
  Told-made (Phase.creating i) p t e = cc
  Told-made (Phase.sending i n) p t e = cc
  Told-made Phase.selecting p t e = t.1
  Told-made (Phase.handing n) p t e = t.1
  Told-made Phase.returned p t e = t.1 e

module _ (show_duration : Duration → Text) (init_timeout : Duration) where
  check_some :
      (result : Option (Text ⊎ Unit {0})) (w : Waited) (t : Duration)
      (rest : Result BridgeError (Unit {0}))
      → result ≢ none
      → check show_duration init_timeout result w t rest ≢ spin
  unfolding check
  check_some none w t rest n = absurd (n refl)
  check_some (some (inl m)) w t rest n = λ e. cc
  check_some (some (inr _)) w t rest n = λ e. cc

  check_ends :
      (result : Option (Text ⊎ Unit {0})) (w : Waited) (t : Duration)
      (rest : Result BridgeError (Unit {0}))
      → (w ≡ changed → rest ≢ spin)
      → check show_duration init_timeout result w t rest ≢ spin
  unfolding check
  check_ends (some (inl m)) w t rest n = λ e. cc
  check_ends (some (inr _)) w t rest n = λ e. cc
  check_ends none changed t rest n = ground (arith, n refl)
  check_ends none closed t rest n = ground arith
  check_ends none timed_out t rest n = ground arith

  -- The second round is the last: a change of the value is an answer.
  pub ensure_initialized_ends :
      (first second : Look) (more : List Look)
      → (first.waited ≡ changed → second.result ≢ none)
      → ensure_initialized show_duration init_timeout (first ∷ second ∷ more) ≢ spin
  unfolding ensure_initialized
  ensure_initialized_ends first second more h =
      check_ends first.result first.waited first.elapsed _
        (λ e. check_some second.result second.waited second.elapsed _ (h e))
