-- ===== src/Pool/Waiting.antt =====
-- The waiting of `ensure_pool_initialized`.
use realflight_bridge.Base.{
  ◌<◌, ◌≡◌, refl, inl, inr, Option, none, some, List, [], ◌∷◌, ◌++◌, ltb, lt→ltb, Bool-cases,
}
use realflight_bridge.Outcome.{Result, ok, err, panic, spin}
use realflight_bridge.Text.{Text}
use realflight_bridge.Types.{BridgeError, Duration}
use realflight_bridge.Pool.{
  Poll, initialization_timeout, poll_error, or_wait, ensure_pool_initialized,
}

-- Success, or an error of the initialisation.
abbrev pub Ended : Result BridgeError (Unit {0}) → Type 0
Ended (ok _) = Unit
Ended (err e) = (message : Text) × (e ≡ BridgeError.initialization message)
Ended panic = ⊥
Ended spin = ⊥

abbrev Settles : Result BridgeError (Unit {0}) → Option BridgeError → Type 0
Settles rest (some e) = Ended (err e)
Settles rest none = Ended rest

poll_error-Settles :
    (rest : Result BridgeError (Unit {0})) (e : Option Text) (elapsed : Duration)
    → Ended rest
    → Settles rest (poll_error e elapsed)
unfolding poll_error
poll_error-Settles rest (some m) elapsed h = (_, refl)
poll_error-Settles rest none elapsed h = elim (Bool-cases (ltb initialization_timeout elapsed)) [
  | inl late ↦ rw late (_, refl)
  | inr soon ↦ rw soon h
]

poll_error_late :
    (rest : Result BridgeError (Unit {0})) (e : Option Text) (elapsed : Duration)
    → initialization_timeout < elapsed
    → Settles rest (poll_error e elapsed)
unfolding poll_error
poll_error_late rest (some m) elapsed h = (_, refl)
poll_error_late rest none elapsed h = rw (lt→ltb initialization_timeout elapsed h) (_, refl)

settled :
    (rest : Result BridgeError (Unit {0})) (o : Option BridgeError)
    → Settles rest o
    → Ended (or_wait o rest)
settled rest (some e) h = h
settled rest none h = h

-- One look, in front of others.
look :
    (poll : Poll) (polls : List Poll)
    → Settles (ensure_pool_initialized polls) (poll_error poll.init_error poll.elapsed)
    → Ended (ensure_pool_initialized (poll ∷ polls))
unfolding ensure_pool_initialized
look poll polls h = elim (Bool-cases poll.initialized) [
  | inl ready ↦ rw ready tt
  | inr waiting ↦
      rw waiting
        (settled (ensure_pool_initialized polls) (poll_error poll.init_error poll.elapsed) h)
]

-- The waiting ends, in success or in an error of the initialisation, at the latest with the first look
-- that is taken more than five seconds after its start.
pub ensure_pool_initialized-Ended :
    (early : List Poll) (late : Poll) (more : List Poll)
    → initialization_timeout < late.elapsed
    → Ended (ensure_pool_initialized (early ++ late ∷ more))
ensure_pool_initialized-Ended [] late more h =
    look late more (poll_error_late (ensure_pool_initialized more) late.init_error late.elapsed h)
ensure_pool_initialized-Ended (poll ∷ early) late more h = look poll (early ++ late ∷ more) (
    poll_error-Settles (ensure_pool_initialized (early ++ late ∷ more)) poll.init_error poll.elapsed
      (ensure_pool_initialized-Ended early late more h))
