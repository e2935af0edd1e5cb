-- ===== src/Pool/Ready.antt =====
-- What the flag of the initialisation says of the connections that were made.
use realflight_bridge.Base.{
  ℕ, zero, suc, ◌+◌, ◌≤◌, ◌≡◌, ◌≢◌, refl, ◌⊎◌, inl, inr, not, Bool, true, false, Option, none, some,
  List, [], ◌∷◌, length, ltb, Bool-cases, arith,
}
use realflight_bridge.Outcome.{Result, ok}
use realflight_bridge.Text.{Text}
use realflight_bridge.Types.{BridgeError, Configuration}
use realflight_bridge.Pool.{
  Phase, starting, creating, sending, looping, connecting, refilling, returned, ConnectionPool,
  Connect, connected, refused, send, start, create, refill, loop_head, creator_in, receive,
  get_connection,
}
use realflight_bridge.Pool.Invariant.{
  Reachable, begin, creates, takes, counts, stops, Room, Room-le, Reachable-IsValid,
}

-- How far the making of the initial connections has come, by the creator's phase.
abbrev pub Progress : ℕ → Phase → Bool → ℕ → Type 0
Progress capacity starting initialized made = (initialized ≡ false) × (made ≡ 0)
Progress capacity (creating i) initialized made = (initialized ≡ false) × (made ≡ i)
Progress capacity (sending i) initialized made = (initialized ≡ false) × (made ≡ i)
Progress capacity returned initialized made = initialized ≡ true → capacity ≤ made
Progress capacity _ initialized made = capacity ≤ made

Progress-made :
    (capacity : ℕ) (ph : Phase) (initialized : Bool) (made : ℕ)
    → Progress capacity ph initialized made
    → initialized ≡ true
    → capacity ≤ made
Progress-made capacity starting initialized made p e = cc
Progress-made capacity (creating i) initialized made p e = cc
Progress-made capacity (sending i) initialized made p e = cc
Progress-made capacity looping initialized made p e = p
Progress-made capacity connecting initialized made p e = p
Progress-made capacity refilling initialized made p e = p
Progress-made capacity returned initialized made p e = p e

abbrev AllProgress : ℕ → Option ConnectionPool → Type 0
AllProgress capacity none = Unit
AllProgress capacity (some q) = Progress capacity q.phase q.initialized q.made

send-AllProgress :
    (capacity : ℕ) (next : Phase) (p : ConnectionPool)
    → Progress capacity next p.initialized (suc p.made)
    → AllProgress capacity (send capacity next p)
unfolding send
send-AllProgress capacity next p h = elim (Bool-cases (ltb (length p.next_socket) capacity)) [
  | inl room ↦ rw room h
  | inr full ↦ rw full tt
]

abbrev TakenProgress : ℕ → Option (Result BridgeError ℕ × ConnectionPool) → Type 0
TakenProgress capacity none = Unit
TakenProgress capacity (some (_, q)) = Progress capacity q.phase q.initialized q.made

receive-TakenProgress :
    (recv_error : Text) (capacity : ℕ) (ns : List ℕ) (ph : Phase) (p : ConnectionPool)
    → p.phase ≡ ph
    → Progress capacity p.phase p.initialized p.made
    → TakenProgress capacity (receive recv_error capacity ns ph p)
unfolding receive
receive-TakenProgress recv_error capacity (m ∷ ms) ph p f h = h
receive-TakenProgress recv_error capacity [] starting p f h = tt
receive-TakenProgress recv_error capacity [] (creating i) p f h = tt
receive-TakenProgress recv_error zero [] (sending i) p f h =
    let (n, m) : Progress zero (sending i) p.initialized p.made = rw f at h in (n, omega arith)
receive-TakenProgress recv_error (suc _) [] (sending i) p f h = tt
receive-TakenProgress recv_error capacity [] looping p f h = tt
receive-TakenProgress recv_error capacity [] connecting p f h = tt
receive-TakenProgress recv_error zero [] refilling p f h = omega arith
receive-TakenProgress recv_error (suc _) [] refilling p f h = tt
receive-TakenProgress recv_error capacity [] returned p f h = h

module _ (parse : Text → Text ⊎ Unit {0}) (config : Configuration) where
  start-Progress :
      (address : Text ⊎ Unit {0}) (p : ConnectionPool)
      → p.initialized ≡ false
      → p.made ≡ 0
      → AllProgress config.pool_size (some (start parse config address p))
  unfolding start
  start-Progress (inl e) p i z = λ t. cc
  start-Progress (inr _) p i z = (i, z)

  create-Progress :
      (i : ℕ) (c : Connect) (p : ConnectionPool)
      → p.initialized ≡ false
      → p.made ≡ i
      → AllProgress config.pool_size (some (create parse config i c p))
  unfolding create
  create-Progress i connected p n e = (n, e)
  create-Progress i (refused m) p n e = λ t. cc

  refill-Progress :
      (c : Connect) (p : ConnectionPool)
      → config.pool_size ≤ p.made
      → AllProgress config.pool_size (some (refill parse config c p))
  unfolding refill
  refill-Progress connected p h = h
  refill-Progress (refused m) p h = h

  loop_head-Progress :
      (p : ConnectionPool)
      → p.phase ≡ looping
      → config.pool_size ≤ p.made
      → AllProgress config.pool_size (some (loop_head parse config p))
  unfolding loop_head
  loop_head-Progress p e h = elim (Bool-cases (not p.running)) [
    | inl stopped ↦ rw stopped (λ t. h)
    | inr alive ↦ rw alive (elim (Bool-cases (ltb (length p.next_socket) config.pool_size)) [
      | inl room ↦ rw room h
      | inr full ↦ rw full (rw e h)
    ])
  ]

  creator_in-AllProgress :
      (ph : Phase) (c : Connect) (p : ConnectionPool)
      → p.phase ≡ ph
      → Progress config.pool_size ph p.initialized p.made
      → AllProgress config.pool_size (creator_in parse config ph c p)
  unfolding creator_in
  creator_in-AllProgress starting c p e (i, z) = start-Progress (parse config.simulator_host) p i z
  creator_in-AllProgress (creating i) c p e (n, m) = elim (Bool-cases (ltb i config.pool_size)) [
    | inl more ↦ rw more (create-Progress i c p n m)
    | inr done ↦ rw done (ground arith)
  ]
  creator_in-AllProgress (sending i) c p e (n, m) =
      send-AllProgress config.pool_size (creating (i + 1)) p (n, omega arith)
  creator_in-AllProgress looping c p e h = loop_head-Progress p e h
  creator_in-AllProgress connecting c p e h = refill-Progress c p h
  creator_in-AllProgress refilling c p e h =
      send-AllProgress config.pool_size looping p (omega arith)
  creator_in-AllProgress returned c p e h = tt

  module _ (recv_error : Text) where
    Reachable-Progress :
        (p : ConnectionPool)
        → Reachable parse recv_error config p
        → Progress config.pool_size p.phase p.initialized p.made
    Reachable-Progress _ (begin now) = (refl, refl)
    Reachable-Progress q (creates p _ c h e) =
        rw e at (creator_in-AllProgress p.phase c p refl (Reachable-Progress p h))
    Reachable-Progress q (takes p _ n h e) = rw e at (
        receive-TakenProgress recv_error config.pool_size p.next_socket p.phase p refl
          (Reachable-Progress p h))
    Reachable-Progress _ (counts p statistics h) = Reachable-Progress p h
    Reachable-Progress _ (stops p h) = Reachable-Progress p h

    -- A pool that says that it is initialised has made as many connections as its size.
    pub Reachable-made :
        (p : ConnectionPool)
        → Reachable parse recv_error config p
        → p.initialized ≡ true
        → config.pool_size ≤ p.made
    Reachable-made p h e =
        Progress-made config.pool_size p.phase p.initialized p.made (Reachable-Progress p h) e

    receive_none :
        (ns : List ℕ) (ph : Phase) (p q : ConnectionPool) (n : ℕ)
        → config.pool_size ≡ 0
        → Room config.pool_size ph (length ns)
        → receive recv_error config.pool_size ns ph p ≢ some (ok n, q)
    unfolding receive
    receive_none (m ∷ ms) ph p q n z r =
        let full : suc (length ms) ≤ config.pool_size =
          Room-le config.pool_size ph (suc (length ms)) r in
        absurd (omega arith)
    receive_none [] starting p q n z r = λ e. cc
    receive_none [] (creating i) p q n z r = λ e. cc
    receive_none [] (sending i) p q n z r = absurd (omega arith)
    receive_none [] looping p q n z r = λ e. cc
    receive_none [] connecting p q n z r = λ e. cc
    receive_none [] refilling p q n z r = absurd (omega arith)
    receive_none [] returned p q n z r = λ e. cc

    -- A pool of size 0 never gives a connection, whatever its creator, the takers and the drop do.
    pub empty_pool_gives_none :
        (p q : ConnectionPool) (n : ℕ)
        → config.pool_size ≡ 0
        → Reachable parse recv_error config p
        → get_connection recv_error config.pool_size p ≢ some (ok n, q)
    empty_pool_gives_none p q n z h =
        receive_none p.next_socket p.phase p q n z (Reachable-IsValid parse config recv_error p h).0
