-- ===== src/Tests/Pools.antt =====
-- The pool at a concrete run: two connections are made, one is taken.
use realflight_bridge.Base.{ℕ, ◌≡◌, refl, ◌⊎◌, inr, false, none, some}
use realflight_bridge.Text.{Text, codes}
use realflight_bridge.Types.{default_configuration}
use realflight_bridge.Pool.{
  creating, sending, ConnectionPool, new_pool, connected, creator, Poll, start, create, creator_in,
}
use realflight_bridge.Pool.Invariant.{Reachable, begin, creates, IsValid, Reachable-IsValid}
use realflight_bridge.Pool.Sending.{Reachable-send}

abbrev any_address : Text → Text ⊎ Unit {0}
any_address s = inr tt

abbrev p₀ : ConnectionPool
p₀ = new_pool 0

abbrev p₁ : ConnectionPool
p₁ = record p₀ { phase = creating 0 }

abbrev p₂ : ConnectionPool
p₂ = record p₀ { phase = sending 0 }

abbrev closed : Text
closed = codes "closed"

p₂-Reachable : Reachable any_address closed default_configuration p₂
unfolding creator_in start create
p₂-Reachable = creates p₁ p₂ connected (creates p₀ p₁ connected (begin 0) refl) refl

Reachable-IsValid_example : IsValid 1 p₂
Reachable-IsValid_example =
    Reachable-IsValid any_address default_configuration closed p₂ p₂-Reachable

Reachable-send_example :
    (q : ConnectionPool) × (creator any_address default_configuration connected p₂ ≡ some q)
Reachable-send_example =
    Reachable-send any_address default_configuration closed p₂ connected p₂-Reachable tt

abbrev waiting : ℕ → Poll
waiting n = record { initialized = false; init_error = none; elapsed = n }
