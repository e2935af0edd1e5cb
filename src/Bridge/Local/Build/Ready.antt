-- ===== src/Bridge/Local/Build/Ready.antt =====
-- A local bridge that was made has its initial connections.
use realflight_bridge.Base.{
  ◌+◌, ◌*◌, length, ◌≤◌, ◌<◌, ◌≡◌, refl, ◌⊎◌, inl, inr, Bool, true, false, Option, none, some, List,
  [], ◌∷◌, ◌++◌, map, map-append, if◌then◌else◌,
}
use realflight_bridge.Outcome.{Result, ok, err, panic, spin, ◌>>=◌}
use realflight_bridge.Text.{Text}
use realflight_bridge.Types.{BridgeError, Configuration, Duration}
use realflight_bridge.Statistics
use realflight_bridge.Pool
use realflight_bridge.Pool.Ready.{Reachable-made}
use realflight_bridge.Pool.Joining.{drop-ok}
use realflight_bridge.Pool.Waiting.{Ended, ensure_pool_initialized-Ended}
use realflight_bridge.AsyncPool
use realflight_bridge.Bridge.Local.Build.{
  new_connection_pool, Watch, poll, last_seen, or_drop, with_configuration, AsyncLocalBridgeBuilder,
  AsyncWatch,
}

module _ (parse : Text → Text ⊎ Unit {0}) (recv_error : Text) (config : Configuration) where
  abbrev pub Reached : Pool.ConnectionPool → Type 0
  Reached p = Pool.Invariant.Reachable parse recv_error config p

  abbrev pub AllReached : List Watch → Type 0
  AllReached [] = Unit
  AllReached (w ∷ ws) = Reached w.pool × AllReached ws

  -- A bridge with its initial connections, or an error of the initialisation.
  abbrev pub Built : Result BridgeError Pool.ConnectionPool → Type 0
  Built (ok p) = Reached p × (p.initialized ≡ true) × (config.pool_size ≤ p.made)
  Built (err e) = (message : Text) × (e ≡ BridgeError.initialization message)
  Built panic = ⊥
  Built spin = ⊥

  module _ (dropped : Result BridgeError (Unit {0})) (joined : dropped ≡ ok tt) where
    err-Built :
        (e : BridgeError) (p : Pool.ConnectionPool)
        → Ended (err e)
        → Built (or_drop (err e) dropped p)
    unfolding or_drop
    err-Built e p h = rw joined h

    waits-Built :
        (o : Option BridgeError) (rest : Result BridgeError (Unit {0})) (p : Pool.ConnectionPool)
        → (Ended rest → Built (or_drop rest dropped p))
        → Ended (Pool.or_wait o rest)
        → Built (or_drop (Pool.or_wait o rest) dropped p)
    waits-Built (some e) rest p k h = err-Built e p h
    waits-Built none rest p k h = k h

    look-Built :
        (ready : Bool) (w : Watch) (rest : Result BridgeError (Unit {0}))
        (later : Pool.ConnectionPool)
        → Reached w.pool
        → w.pool.initialized ≡ ready
        → (Ended rest → Built (or_drop rest dropped later))
        → let found =
            if ready
            then ok tt
            else Pool.or_wait (Pool.poll_error w.pool.init_error w.elapsed) rest in
          Ended found → Built (or_drop found dropped (if ready then w.pool else later))
    unfolding or_drop
    look-Built true w rest later h e k d = (h, e, Reachable-made parse config recv_error w.pool h e)
    look-Built false w rest later h e k d =
        waits-Built (Pool.poll_error w.pool.init_error w.elapsed) rest later k d

    seen-Built :
        (p : Pool.ConnectionPool) (watches : List Watch)
        → AllReached watches
        → Ended (Pool.ensure_pool_initialized (map poll watches))
        → Built (
            or_drop (Pool.ensure_pool_initialized (map poll watches)) dropped (last_seen p watches))
    unfolding Pool.ensure_pool_initialized
    seen-Built p [] a e = elim e [ ]
    seen-Built p (w ∷ ws) (h, a) e =
        look-Built w.pool.initialized w (Pool.ensure_pool_initialized (map poll ws))
          (last_seen w.pool ws) h refl (seen-Built w.pool ws a) e

  -- with_configuration ends, in a bridge whose pool has made its initial connections, or in an error of
  -- the initialisation, whatever the thread, the takers and the drop have done before each look: it
  -- looks no more behind the first look that is taken more than five seconds after the start, and the
  -- drop of the pool behind an error ends, where the network answers the creator two times for each
  -- place of the pool and four times more.
  pub with_configuration-Built :
      (spawned : Text ⊎ Unit {0}) (now : Duration) (early : List Watch) (late : Watch)
      (more : List Watch) (left : Pool.ConnectionPool) (answers : List Pool.Connect)
      → AllReached (early ++ late ∷ more)
      → Pool.initialization_timeout < late.elapsed
      → Reached left
      → 2 * config.pool_size + 4 ≤ length answers
      → Built (with_configuration parse config spawned now (early ++ late ∷ more) left answers)
  unfolding with_configuration new_connection_pool
  with_configuration-Built (inl e) now early late more left answers a l r enough = (_, refl)
  with_configuration-Built (inr _) now early late more left answers a l r enough =
      seen-Built (Pool.drop parse config answers left)
        (drop-ok parse config recv_error left answers r enough) (Pool.new_pool now)
        (early ++ late ∷ more) a
        (rw (map-append poll early (late ∷ more))
          (ensure_pool_initialized-Ended (map poll early) (poll late) (map poll more) l))

module _ (show_duration : Duration → Text) (b : AsyncLocalBridgeBuilder) where
  abbrev pub Arrived : AsyncPool.AsyncConnectionPool → Type 0
  Arrived p = AsyncPool.Invariant.Reachable b.addr b.pool_size p

  -- The wait of a round finds the channel closed where the task has returned and has told nothing since.
  abbrev pub AllArrived : List AsyncWatch → Type 0
  AllArrived [] = Unit
  AllArrived (w ∷ ws) =
      (Arrived w.pool
        × (w.waited ≡ AsyncPool.closed
            → (q : AsyncPool.AsyncConnectionPool) × Arrived q
              × (q.phase ≡ AsyncPool.returned)
              × (q.init_result ≡ w.pool.init_result)))
      × AllArrived ws

  -- A bridge with its initial connections, or an error of the initialisation. It panics for a pool
  -- that is to hold nothing.
  abbrev pub AsyncBuilt : Result BridgeError AsyncPool.AsyncConnectionPool → Type 0
  AsyncBuilt (ok p) = Arrived p × (p.init_result ≡ some (inr tt)) × (b.pool_size ≤ p.made)
  AsyncBuilt (err e) = (message : Text) × (e ≡ BridgeError.initialization message)
  AsyncBuilt panic = b.pool_size ≡ 0
  AsyncBuilt spin = Unit
