-- ===== src/Pool/Sending.antt =====
-- The creator's `send` into the bounded channel.
use realflight_bridge.Base.{
  suc, ◌+◌, ◌<◌, ◌≡◌, refl, ◌⊎◌, some, [], ◌∷◌, ◌++◌, length, lt→ltb, arith,
}
use realflight_bridge.Text.{Text}
use realflight_bridge.Types.{Configuration}
use realflight_bridge.Pool.{
  Phase, starting, creating, sending, looping, connecting, refilling, returned, ConnectionPool,
  Connect, send, creator_in, creator,
}
use realflight_bridge.Pool.Invariant.{Reachable, Room, Reachable-IsValid}

-- Whether the next step of the creator hands a connection to the channel.
abbrev pub IsSending : Phase → Type 0
IsSending (sending i) = Unit
IsSending refilling = Unit
IsSending _ = ⊥

module _ (parse : Text → Text ⊎ Unit {0}) (config : Configuration) where
  -- The creator never waits in `send`: the channel has room for every connection that it has made,
  -- whatever the others have done since it looked.
  pub Reachable-send :
      (recv_error : Text) (p : ConnectionPool) (c : Connect)
      → Reachable parse recv_error config p
      → IsSending p.phase
      → (q : ConnectionPool) × (creator parse config c p ≡ some q)
  Reachable-send recv_error p c h s =
      sends p.phase refl s (Reachable-IsValid parse config recv_error p h).0
    where
      room :
          (next : Phase)
          → length p.next_socket < config.pool_size
          → (q : ConnectionPool) × (send config.pool_size next p ≡ some q)
      room next l = (
        record p { next_socket = p.next_socket ++ p.made ∷ []; made = suc p.made; phase = next },
        unfold send in rw (lt→ltb (length p.next_socket) config.pool_size l) refl,
      )

      sends :
          (ph : Phase)
          → p.phase ≡ ph
          → IsSending ph
          → Room config.pool_size p.phase (length p.next_socket)
          → (q : ConnectionPool) × (creator_in parse config ph c p ≡ some q)
      sends (sending i) e s r =
          let r' : Room config.pool_size (sending i) (length p.next_socket) = rw e at r in
          unfold creator_in in room (creating (i + 1)) (omega arith)
      sends refilling e s r =
          let r' : Room config.pool_size refilling (length p.next_socket) = rw e at r in
          unfold creator_in in room looping (omega arith)
      sends starting e s r = elim s [ ]
      sends (creating _) e s r = elim s [ ]
      sends looping e s r = elim s [ ]
      sends connecting e s r = elim s [ ]
      sends returned e s r = elim s [ ]
