-- ===== src/Tests/Building.antt =====
-- Bridges that are made at concrete networks and pools.
use realflight_bridge.Base.{ℕ, List, ◌≡◌, ◌≢◌, refl, ◌⊎◌, inr, true, some, [], ◌∷◌, arith}
use realflight_bridge.Outcome.{ok}
use realflight_bridge.Text.{Text, codes}
use realflight_bridge.Text.Number.{show_nat}
use realflight_bridge.Types.{Configuration, default_configuration, IoError, IoKind}
use realflight_bridge.Pool.{
  Phase, ConnectionPool, new_pool, creator_in, start, create, get_connection, Connect, connected,
  drop,
}
use realflight_bridge.Pool.Invariant.{Reachable, begin, creates}
use realflight_bridge.Pool.Joining.{drop-ok}
use realflight_bridge.Pool.Ready.{empty_pool_gives_none}
use realflight_bridge.AsyncPool
use realflight_bridge.Bridge.Local.Build.{
  Watch, with_configuration, AsyncLocalBridgeBuilder, default_builder, addr, pool_size,
  init_timeout, connect_timeout, AsyncWatch, build,
}
use realflight_bridge.Bridge.Local.Build.Ready.{Built, with_configuration-Built}
use realflight_bridge.Bridge.Remote.Connect.{
  Network, refused, Agree, AsyncRemoteBridgeBuilder, builder, timeout, with_timeout,
}
use realflight_bridge.Bridge.Remote.Connect
use realflight_bridge.Tests.AsyncPools.{q₀, q₄, address}

abbrev unreachable : IoError
unreachable = record { kind = IoKind.other; message = codes "unreachable" }

-- Every name has the addresses 1 and 2, and nobody answers there.
abbrev silent : Network
silent = record {
  Address = ℕ;
  to_socket_addrs = λ name. inr (1 ∷ 2 ∷ []);
  connect_timeout = λ address limit. refused unreachable;
  connect = λ address limit. refused unreachable;
  set_nodelay = λ c. inr tt;
  set_nodelay_async = λ c. inr tt;
  try_clone = λ c. inr tt;
  timeout_error = record { kind = IoKind.timed_out; message = codes "connection timed out" };
  show_error = λ e. e.message;
  show_duration = show_nat;
}

abbrev impatient : AsyncRemoteBridgeBuilder
impatient = timeout 10 (builder (codes "simulator:18083"))

silent-IsAlike : Connect.IsAlike silent
silent-IsAlike = record { alike_connect = λ a t. refl; alike_set = λ c. refl }

build-Agree_example :
    Agree silent
      (with_timeout silent impatient.address impatient.connect_timeout)
      (Connect.build silent impatient)
build-Agree_example = Connect.build-Agree silent silent-IsAlike impatient

abbrev any_address : Text → Text ⊎ Unit {0}
any_address s = inr tt

abbrev closed : Text
closed = codes "closed"

abbrev unseen : Watch
unseen = record { pool = new_pool 0; elapsed = 0 }

-- The simulator takes a connection each time.
abbrev six_answers : List Connect
six_answers = connected ∷ connected ∷ connected ∷ connected ∷ connected ∷ connected ∷ []

with_configuration-Built_example : Built any_address closed default_configuration (
    with_configuration any_address default_configuration
      (inr tt)
      0
      (unseen ∷ record unseen { elapsed = 5000001 } ∷ [])
      (new_pool 0)
      six_answers)
with_configuration-Built_example =
    with_configuration-Built any_address closed default_configuration (inr tt) 0 (unseen ∷ [])
      (record unseen { elapsed = 5000001 }) [] (new_pool 0) six_answers (begin 0, (begin 0, tt))
      (omega arith) (begin 0) (omega arith)

drop-ok_example : drop any_address default_configuration six_answers (new_pool 0) ≡ ok tt
drop-ok_example =
    drop-ok any_address default_configuration closed (new_pool 0) six_answers (begin 0)
      (omega arith)

abbrev no_room : Configuration
no_room = record default_configuration { pool_size = 0 }

abbrev waiting : ConnectionPool
waiting = record (new_pool 0) { phase = Phase.creating 0 }

abbrev looping : ConnectionPool
looping = record waiting { phase = Phase.looping; initialized = true }

looping-Reachable : Reachable any_address closed no_room looping
unfolding creator_in start create
looping-Reachable =
    creates waiting looping connected (creates (new_pool 0) waiting connected (begin 0) refl) refl

empty_pool_gives_none_example : get_connection closed 0 looping ≢ some (ok 0, looping)
empty_pool_gives_none_example =
    empty_pool_gives_none any_address no_room closed looping looping 0 refl looping-Reachable

abbrev small : AsyncLocalBridgeBuilder
small = init_timeout 5000 (connect_timeout 100 (pool_size 1 (addr address default_builder)))

abbrev begun : AsyncWatch
begun = record { pool = q₀; elapsed = 0; waited = AsyncPool.changed }

abbrev told : AsyncWatch
told = record { pool = q₄; elapsed = 40; waited = AsyncPool.changed }
