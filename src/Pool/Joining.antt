-- ===== src/Pool/Joining.antt =====
-- The end of the creator, which the drop of the pool waits for.
use realflight_bridge.Base.{
  ℕ, ◌+◌, ◌*◌, ◌-◌, ◌≤◌, ◌<◌, ◌≡◌, refl, ◌⊎◌, inl, inr, false, Option, none, some, List, [], ◌∷◌,
  length, ltb, lt→ltb, Bool-cases, arith,
}
use realflight_bridge.Outcome.{Result, ok, spin}
use realflight_bridge.Text.{Text}
use realflight_bridge.Types.{BridgeError, Configuration}
use realflight_bridge.Pool.{
  Phase, starting, creating, sending, looping, connecting, refilling, returned, ConnectionPool,
  Connect, connected, refused, send, start, create, refill, loop_head, creator_in, creator, stop,
  joined_or, follow, join, drop,
}
use realflight_bridge.Pool.Invariant.{Reachable, creates, stops, Room, Reachable-IsValid}

-- How many steps a creator that was told to stop has left at most.
abbrev left : ℕ → Phase → ℕ
left capacity starting = 2 * capacity + 4
left capacity (creating i) = 2 * (capacity - i) + 3
left capacity (sending i) = 2 * (capacity - i) + 2
left capacity looping = 1
left capacity connecting = 3
left capacity refilling = 2
left capacity returned = 0

left-le : (capacity : ℕ) (ph : Phase) → left capacity ph ≤ 2 * capacity + 4
left-le capacity starting = omega arith
left-le capacity (creating i) = omega arith
left-le capacity (sending i) = omega arith
left-le capacity looping = omega arith
left-le capacity connecting = omega arith
left-le capacity refilling = omega arith
left-le capacity returned = omega arith

-- A step brings it nearer to the end, and nothing but the end has no step.
abbrev Nearer : ℕ → ℕ → Option ConnectionPool → Type 0
Nearer capacity n none = n ≡ 0
Nearer capacity n (some q) = (q.running ≡ false) × (left capacity q.phase < n)

module _ (parse : Text → Text ⊎ Unit {0}) (config : Configuration) where
  start-Nearer :
      (address : Text ⊎ Unit {0}) (p : ConnectionPool)
      → p.running ≡ false
      → Nearer config.pool_size
          (left config.pool_size starting)
          (some (start parse config address p))
  unfolding start
  start-Nearer (inl e) p s = (s, omega arith)
  start-Nearer (inr _) p s = (s, omega arith)

  create-Nearer :
      (i : ℕ) (c : Connect) (p : ConnectionPool)
      → p.running ≡ false
      → Nearer config.pool_size
          (left config.pool_size (creating i))
          (some (create parse config i c p))
  unfolding create
  create-Nearer i connected p s = (s, omega arith)
  create-Nearer i (refused e) p s = (s, omega arith)

  refill-Nearer :
      (c : Connect) (p : ConnectionPool)
      → p.running ≡ false
      → Nearer config.pool_size (left config.pool_size connecting) (some (refill parse config c p))
  unfolding refill
  refill-Nearer connected p s = (s, omega arith)
  refill-Nearer (refused e) p s = (s, omega arith)

  send-Nearer :
      (n : ℕ) (next : Phase) (p : ConnectionPool)
      → p.running ≡ false
      → length p.next_socket < config.pool_size
      → left config.pool_size next < n
      → Nearer config.pool_size n (send config.pool_size next p)
  unfolding send
  send-Nearer n next p s l d = rw (lt→ltb (length p.next_socket) config.pool_size l) (s, d)

  creator_in-Nearer :
      (ph : Phase) (c : Connect) (p : ConnectionPool)
      → p.running ≡ false
      → Room config.pool_size ph (length p.next_socket)
      → Nearer config.pool_size (left config.pool_size ph) (creator_in parse config ph c p)
  unfolding creator_in loop_head
  creator_in-Nearer starting c p s r = start-Nearer (parse config.simulator_host) p s
  creator_in-Nearer (creating i) c p s r = elim (Bool-cases (ltb i config.pool_size)) [
    | inl more ↦ rw more (create-Nearer i c p s)
    | inr done ↦ rw done (s, omega arith)
  ]
  creator_in-Nearer (sending i) c p s r =
      send-Nearer (left config.pool_size (sending i)) (creating (i + 1)) p s (omega arith)
        (omega arith)
  creator_in-Nearer looping c p s r = rw s (refl, omega arith)
  creator_in-Nearer connecting c p s r = refill-Nearer c p s
  creator_in-Nearer refilling c p s r =
      send-Nearer (left config.pool_size refilling) looping p s r (omega arith)
  creator_in-Nearer returned c p s r = refl

  joined-ok :
      (ph : Phase) (rest : Result BridgeError (Unit {0}))
      → (0 < left config.pool_size ph → rest ≡ ok tt)
      → joined_or ph rest ≡ ok tt
  joined-ok starting rest h = h (omega arith)
  joined-ok (creating i) rest h = h (omega arith)
  joined-ok (sending i) rest h = h (omega arith)
  joined-ok looping rest h = h (omega arith)
  joined-ok connecting rest h = h (omega arith)
  joined-ok refilling rest h = h (omega arith)
  joined-ok returned rest h = refl

  follow-ok :
      (n : ℕ) (k : ConnectionPool → Result BridgeError (Unit {0})) (o : Option ConnectionPool)
      → 0 < n
      → Nearer config.pool_size n o
      → ((q : ConnectionPool)
          → o ≡ some q
          → q.running ≡ false
          → left config.pool_size q.phase < n
          → k q ≡ ok tt)
      → follow k o ≡ ok tt
  follow-ok n k none l h j = absurd (omega arith)
  follow-ok n k (some q) l h j = j q refl h.0 h.1

  module _ (recv_error : Text) where
    join-ok :
        (cs : List Connect) (p : ConnectionPool)
        → Reachable parse recv_error config p
        → p.running ≡ false
        → left config.pool_size p.phase ≤ length cs
        → join parse config cs p ≡ ok tt
    unfolding join
    join-ok [] p h s l = joined-ok p.phase spin (λ more. absurd (omega arith))
    join-ok (c ∷ cs) p h s l = joined-ok p.phase _ (λ more.
        follow-ok (left config.pool_size p.phase) (join parse config cs) (creator parse config c p)
          more (creator_in-Nearer p.phase c p s (Reachable-IsValid parse config recv_error p h).0)
          (λ q e s' less. join-ok cs q (creates p q c h e) s' (omega arith)))

    -- Dropping the pool ends: in every state that the creator, the takers and the drop can reach, the
    -- creator that is told to stop returns, whatever the network answers it, after at most two steps for
    -- each place of the pool and four more.
    pub drop-ok :
        (p : ConnectionPool) (cs : List Connect)
        → Reachable parse recv_error config p
        → 2 * config.pool_size + 4 ≤ length cs
        → drop parse config cs p ≡ ok tt
    drop-ok p cs h l =
        join-ok cs (stop p) (stops p h) refl (omega (arith, left-le config.pool_size p.phase))
