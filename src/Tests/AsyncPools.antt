-- ===== src/Tests/AsyncPools.antt =====
-- The async pool at a concrete run: two connections are made and queued, and one of them is taken.
use realflight_bridge.Base.{refl, inr, some, [], ◌∷◌}
use realflight_bridge.Text.{Text, codes}
use realflight_bridge.Statistics.{StatisticsEngine}
use realflight_bridge.AsyncPool.{
  Phase, AsyncConnectionPool, spawned, connected, task_in, create, send, receive,
}
use realflight_bridge.AsyncPool.Invariant.{Reachable, begin, works, takes, IsConsistent}
use realflight_bridge.AsyncPool.Steps.{Reachable-IsConsistent}

abbrev pub address : Text
address = codes "127.0.0.1:18083"

abbrev pub engine : StatisticsEngine
engine = record { error_count = 0; request_count = 0; start_time = 0 }

abbrev pub q₀ : AsyncConnectionPool
q₀ = spawned engine

abbrev pub q₁ : AsyncConnectionPool
q₁ = record q₀ { phase = Phase.sending 0 0; made = 1 }

abbrev pub q₂ : AsyncConnectionPool
q₂ = record q₁ { phase = Phase.creating 1; connections = 0 ∷ [] }

abbrev pub q₃ : AsyncConnectionPool
q₃ = record q₂ { connections = []; taken = 0 ∷ [] }

abbrev pub q₄ : AsyncConnectionPool
q₄ = record q₃ { phase = Phase.selecting; init_result = some (inr tt) }

pub q₄-Reachable : Reachable address 1 q₄
unfolding task_in create send receive
q₄-Reachable =
    works q₃ q₄ connected
      (takes q₂ q₃ 0 (works q₁ q₂ connected (works q₀ q₁ connected (begin engine) refl) refl) refl)
      refl

Reachable-IsConsistent_example : IsConsistent 1 q₄
Reachable-IsConsistent_example = Reachable-IsConsistent address 1 q₄ q₄-Reachable
