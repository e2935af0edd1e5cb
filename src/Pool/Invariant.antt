-- ===== src/Pool/Invariant.antt =====
-- What holds of the pool whatever the creator and the takers do, in any order.
use realflight_bridge.Base.{
  ℕ, zero, suc, ◌+◌, ◌≤◌, ◌<◌, ◌≡◌, refl, sym, ap, ◌∙◌, ◌⊎◌, inl, inr, not, Option, none, some,
  List, [], ◌∷◌, ◌++◌, length, ltb, ltb→lt, Bool-cases, arith, append_assoc, length-append,
}
use realflight_bridge.Outcome.{Result, ok}
use realflight_bridge.Text.{Text}
use realflight_bridge.Types.{BridgeError, Configuration, Duration}
use realflight_bridge.Statistics.{StatisticsEngine}
use realflight_bridge.Pool.{
  Phase, starting, creating, sending, looping, connecting, refilling, returned, ConnectionPool,
  new_pool, Connect, connected, refused, send, start, create, refill, loop_head, creator_in,
  creator, receive, get_connection, stop,
}

-- The numbers below `n`, upwards.
abbrev pub count_up : ℕ → List ℕ
count_up zero = []
count_up (suc n) = count_up n ++ n ∷ []

-- The steps of the creator and of the others, in any order. Those that share the engine of the
-- statistics may count at any time.
module _ (parse : Text → Text ⊎ Unit {0}) (recv_error : Text) (config : Configuration) where
  pub data Reachable : ConnectionPool → Type 0 where
    begin : (now : Duration) → Reachable (new_pool now)
    creates :
        (p q : ConnectionPool) (c : Connect)
        → Reachable p
        → creator parse config c p ≡ some q
        → Reachable q
    takes :
        (p q : ConnectionPool) (n : ℕ)
        → Reachable p
        → get_connection recv_error config.pool_size p ≡ some (ok n, q)
        → Reachable q
    counts :
        (p : ConnectionPool) (statistics : StatisticsEngine)
        → Reachable p
        → Reachable (record p { statistics = statistics })
    stops : (p : ConnectionPool) → Reachable p → Reachable (stop p)

-- How many connections may be queued, by the creator's phase.
abbrev pub Room : ℕ → Phase → ℕ → Type 0
Room capacity starting n = n ≡ 0
Room capacity (creating i) n = (n ≤ i) × (i ≤ capacity)
Room capacity (sending i) n = (n ≤ i) × (i < capacity)
Room capacity looping n = n ≤ capacity
Room capacity connecting n = n < capacity
Room capacity refilling n = n < capacity
Room capacity returned n = n ≤ capacity

pub Room-le : (capacity : ℕ) (ph : Phase) (n : ℕ) → Room capacity ph n → n ≤ capacity
Room-le capacity starting n r = omega arith
Room-le capacity (creating i) n r = omega arith
Room-le capacity (sending i) n r = omega arith
Room-le capacity looping n r = r
Room-le capacity connecting n r = omega arith
Room-le capacity refilling n r = omega arith
Room-le capacity returned n r = r

Room-fewer : (capacity : ℕ) (ph : Phase) (n : ℕ) → Room capacity ph (suc n) → Room capacity ph n
Room-fewer capacity starting n r = absurd (omega arith)
Room-fewer capacity (creating i) n r = (omega arith, r.1)
Room-fewer capacity (sending i) n r = (omega arith, r.1)
Room-fewer capacity looping n r = omega arith
Room-fewer capacity connecting n r = omega arith
Room-fewer capacity refilling n r = omega arith
Room-fewer capacity returned n r = omega arith

abbrev pub InOrder : ConnectionPool → Type 0
InOrder p = p.taken ++ p.next_socket ≡ count_up p.made

abbrev pub IsValid : ℕ → ConnectionPool → Type 0
IsValid capacity p = Room capacity p.phase (length p.next_socket) × InOrder p

-- The same of a step, where there is one.
abbrev AllValid : ℕ → Option ConnectionPool → Type 0
AllValid capacity none = Unit
AllValid capacity (some q) = IsValid capacity q

send-InOrder :
    (p : ConnectionPool)
    → InOrder p
    → p.taken ++ (p.next_socket ++ p.made ∷ []) ≡ count_up (suc p.made)
send-InOrder p o =
    sym (append_assoc p.taken p.next_socket (p.made ∷ [])) ∙ ap (λ ns. ns ++ p.made ∷ []) o

send-AllValid :
    (capacity : ℕ) (next : Phase) (p : ConnectionPool)
    → Room capacity next (length p.next_socket + 1)
    → InOrder p
    → AllValid capacity (send capacity next p)
unfolding send
send-AllValid capacity next p r o = elim (Bool-cases (ltb (length p.next_socket) capacity)) [
  | inl room ↦ rw room (rw (length-append p.next_socket (p.made ∷ [])) r, send-InOrder p o)
  | inr full ↦ rw full tt
]

abbrev AllTaken : ℕ → Option (Result BridgeError ℕ × ConnectionPool) → Type 0
AllTaken capacity none = Unit
AllTaken capacity (some (_, q)) = IsValid capacity q

receive-AllTaken :
    (recv_error : Text) (capacity : ℕ) (ns : List ℕ) (ph : Phase) (p : ConnectionPool)
    → p.next_socket ≡ ns
    → p.phase ≡ ph
    → IsValid capacity p
    → AllTaken capacity (receive recv_error capacity ns ph p)
unfolding receive
receive-AllTaken recv_error capacity (m ∷ ms) ph p e f (r, o) = (
  Room-fewer capacity p.phase (length ms) (rw e at r),
  append_assoc p.taken (m ∷ []) ms ∙ (rw e at o),
)
receive-AllTaken recv_error capacity [] starting p e f v = tt
receive-AllTaken recv_error capacity [] (creating i) p e f v = tt
receive-AllTaken recv_error zero [] (sending i) p e f v =
    let r : Room zero (sending i) (length p.next_socket) = rw f at v.0 in absurd (omega arith)
receive-AllTaken recv_error (suc _) [] (sending i) p e f v = tt
receive-AllTaken recv_error capacity [] looping p e f v = tt
receive-AllTaken recv_error capacity [] connecting p e f v = tt
receive-AllTaken recv_error zero [] refilling p e f v =
    let r : Room zero refilling (length p.next_socket) = rw f at v.0 in absurd (omega arith)
receive-AllTaken recv_error (suc _) [] refilling p e f v = tt
receive-AllTaken recv_error capacity [] returned p e f v = v

module _ (parse : Text → Text ⊎ Unit {0}) (config : Configuration) where
  start-IsValid :
      (address : Text ⊎ Unit {0}) (p : ConnectionPool)
      → length p.next_socket ≡ 0
      → InOrder p
      → IsValid config.pool_size (start parse config address p)
  unfolding start
  start-IsValid (inl e) p z o = (omega arith, o)
  start-IsValid (inr _) p z o = ((omega arith, omega arith), o)

  create-IsValid :
      (i : ℕ) (c : Connect) (p : ConnectionPool)
      → length p.next_socket ≤ i
      → i < config.pool_size
      → InOrder p
      → IsValid config.pool_size (create parse config i c p)
  unfolding create
  create-IsValid i connected p n l o = ((n, l), o)
  create-IsValid i (refused e) p n l o = (omega arith, o)

  refill-IsValid :
      (c : Connect) (p : ConnectionPool)
      → length p.next_socket < config.pool_size
      → InOrder p
      → IsValid config.pool_size (refill parse config c p)
  unfolding refill
  refill-IsValid connected p l o = (l, o)
  refill-IsValid (refused e) p l o = (omega arith, o)

  loop_head-IsValid :
      (p : ConnectionPool)
      → p.phase ≡ looping
      → IsValid config.pool_size p
      → IsValid config.pool_size (loop_head parse config p)
  unfolding loop_head
  loop_head-IsValid p e (r, o) =
      let le = Room-le config.pool_size p.phase (length p.next_socket) r in
      elim (Bool-cases (not p.running)) [
        | inl stopped ↦ rw stopped (le, o)
        | inr alive ↦ rw alive (elim (Bool-cases (ltb (length p.next_socket) config.pool_size)) [
          | inl room ↦ rw room (ltb→lt (length p.next_socket) config.pool_size room, o)
          | inr full ↦ rw full (r, o)
        ])
      ]

  creator_in-AllValid :
      (ph : Phase) (c : Connect) (p : ConnectionPool)
      → p.phase ≡ ph
      → Room config.pool_size ph (length p.next_socket)
      → InOrder p
      → AllValid config.pool_size (creator_in parse config ph c p)
  unfolding creator_in
  creator_in-AllValid starting c p e r o = start-IsValid (parse config.simulator_host) p r o
  creator_in-AllValid (creating i) c p e r o = elim (Bool-cases (ltb i config.pool_size)) [
    | inl more ↦ rw more (create-IsValid i c p r.0 (ltb→lt i config.pool_size more) o)
    | inr done ↦ rw done (omega arith, o)
  ]
  creator_in-AllValid (sending i) c p e r o =
      send-AllValid config.pool_size (creating (i + 1)) p (omega arith, omega arith) o
  creator_in-AllValid looping c p e r o = loop_head-IsValid p e (rw e (r, o))
  creator_in-AllValid connecting c p e r o = refill-IsValid c p r o
  creator_in-AllValid refilling c p e r o = send-AllValid config.pool_size looping p (omega arith) o
  creator_in-AllValid returned c p e r o = tt

  -- The pool is valid whatever the creator, the takers and the drop have done, in any order: no more
  -- connections are queued than the pool's size, and fewer where the creator is about to send one;
  -- those that were taken and those that are queued are all that were made, in the order of the making.
  pub Reachable-IsValid :
      (recv_error : Text) (p : ConnectionPool)
      → Reachable parse recv_error config p
      → IsValid config.pool_size p
  Reachable-IsValid recv_error _ (begin now) = (refl, refl)
  Reachable-IsValid recv_error q (creates p _ c h e) =
      let (r, o) = Reachable-IsValid recv_error p h in
      rw e at (creator_in-AllValid p.phase c p refl r o)
  Reachable-IsValid recv_error q (takes p _ n h e) = rw e at (
      receive-AllTaken recv_error config.pool_size p.next_socket p.phase p refl refl
        (Reachable-IsValid recv_error p h))
  Reachable-IsValid recv_error _ (counts p statistics h) = Reachable-IsValid recv_error p h
  Reachable-IsValid recv_error _ (stops p h) = Reachable-IsValid recv_error p h
