-- ===== src/AsyncPool/Invariant.antt =====
-- What holds of the async pool in every state, by the phase of its task.
use realflight_bridge.Base.{
  ℕ, suc, ◌≤◌, ◌<◌, ◌≡◌, ◌≢◌, ◌⊎◌, inr, true, Option, none, some, List, [], ◌∷◌, ◌++◌, length,
}
use realflight_bridge.Outcome.{ok}
use realflight_bridge.Text.{Text}
use realflight_bridge.Statistics.{StatisticsEngine}
use realflight_bridge.Pool.Invariant.{count_up}
use realflight_bridge.AsyncPool.{
  Phase, creating, sending, handing, returned, AsyncConnectionPool, spawned, Connect, task,
  shut_down, get_connection, drop_pool,
}

-- The steps of the task, of those that take connections, and of the drop, in any order. Those that
-- share the engine of the statistics may count at any time.
module _ (addr : Text) (pool_size : ℕ) where
  pub data Reachable : AsyncConnectionPool → Type 0 where
    begin : (statistics : StatisticsEngine) → Reachable (spawned statistics)
    works :
        (p q : AsyncConnectionPool) (c : Connect)
        → Reachable p
        → task addr pool_size c p ≡ some q
        → Reachable q
    shuts : (p q : AsyncConnectionPool) → Reachable p → shut_down p.phase p ≡ some q → Reachable q
    takes :
        (p q : AsyncConnectionPool) (n : ℕ)
        → Reachable p
        → get_connection p ≡ some (ok n, q)
        → Reachable q
    counts :
        (p : AsyncConnectionPool) (statistics : StatisticsEngine)
        → Reachable p
        → Reachable (record p { statistics = statistics })
    drops : (p : AsyncConnectionPool) → Reachable p → Reachable (drop_pool p)

-- The connection that the task holds.
abbrev pub in_hand : Phase → List ℕ
in_hand (sending i connection) = connection ∷ []
in_hand (handing connection) = connection ∷ []
in_hand _ = []

-- How many connections may be queued.
abbrev pub Room : ℕ → Phase → ℕ → Type 0
Room capacity (creating i) n = (n ≤ i) × (i ≤ capacity)
Room capacity (sending i connection) n = (n ≤ i) × (i < capacity)
Room capacity _ n = n ≤ capacity

-- What the waiting ones have been told, and how many connections have been made.
abbrev pub Told : ℕ → Phase → Option (Text ⊎ Unit {0}) → ℕ → Type 0
Told capacity (creating i) result made = (result ≡ none) × (made ≡ i)
Told capacity (sending i connection) result made = (result ≡ none) × (made ≡ suc i)
Told capacity returned result made = (result ≢ none) × (result ≡ some (inr tt) → capacity ≤ made)
Told capacity _ result made = (result ≡ some (inr tt)) × (capacity ≤ made)

-- As long as there is a receiver: those that were taken, those that are queued and those in hand
-- are all that were made, in the order of the making.
abbrev pub InOrder : AsyncConnectionPool → List ℕ → Type 0
InOrder p hand = p.receiving ≡ true → p.taken ++ (p.connections ++ hand) ≡ count_up p.made

pub record IsConsistent (capacity : ℕ) (p : AsyncConnectionPool) : Type 0 where
  pub room : Room capacity p.phase (length p.connections)
  pub told : Told capacity p.phase p.init_result p.made
  pub in_order : InOrder p (in_hand p.phase)
