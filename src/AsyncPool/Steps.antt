-- ===== src/AsyncPool/Steps.antt =====
-- Every step keeps the pool valid.
use realflight_bridge.Base.{
  ℕ, suc, ◌≤◌, ◌<◌, ◌≡◌, refl, sym, ap, ◌∙◌, inl, inr, true, false, Option, none, some, List, [],
  ◌∷◌, ◌++◌, length, ltb, ltb→lt, Bool-cases, arith, append_assoc, append-nil, length-append,
}
use realflight_bridge.Outcome.{Result}
use realflight_bridge.Text.{Text}
use realflight_bridge.Types.{BridgeError}
use realflight_bridge.Pool.Invariant.{count_up}
use realflight_bridge.AsyncPool.{
  Phase, creating, sending, selecting, handing, returned, AsyncConnectionPool, Connect, connected,
  refused, not_in_time, give_up, send, create, select, task_in, shut_down, receive,
}
use realflight_bridge.AsyncPool.Invariant.{
  Reachable, begin, works, shuts, takes, counts, drops, in_hand, Room, Told, InOrder, IsConsistent,
}

Room-le : (capacity : ℕ) (ph : Phase) (n : ℕ) → Room capacity ph n → n ≤ capacity
Room-le capacity (creating i) n r = omega arith
Room-le capacity (sending i c) n r = omega arith
Room-le capacity _ n r = r

Room-fewer : (capacity : ℕ) (ph : Phase) (m n : ℕ) → m ≤ n → Room capacity ph n → Room capacity ph m
Room-fewer capacity (creating i) m n h r = (omega arith, r.1)
Room-fewer capacity (sending i c) m n h r = (omega arith, r.1)
Room-fewer capacity selecting m n h r = omega arith
Room-fewer capacity (handing c) m n h r = omega arith
Room-fewer capacity returned m n h r = omega arith

-- A connection more.
InOrder-suc :
    (p : AsyncConnectionPool)
    → InOrder p []
    → p.receiving ≡ true
    → p.taken ++ (p.connections ++ p.made ∷ []) ≡ count_up (suc p.made)
InOrder-suc p o alive =
    sym (append_assoc p.taken p.connections (p.made ∷ []))
    ∙ ap (λ ns. ns ++ p.made ∷ [])
        (ap (λ ns. p.taken ++ ns) (sym (append-nil p.connections)) ∙ o alive)

-- The one in hand, in the channel.
InOrder-sent :
    (p : AsyncConnectionPool) (n : ℕ)
    → InOrder p (n ∷ [])
    → InOrder (record p { connections = p.connections ++ n ∷ [] }) []
InOrder-sent p n o alive = ap (λ ns. p.taken ++ ns) (append-nil (p.connections ++ n ∷ [])) ∙ o alive

-- The same of a step, where there is one.
abbrev AllValid : ℕ → Option AsyncConnectionPool → Type 0
AllValid capacity none = Unit
AllValid capacity (some q) = IsConsistent capacity q

module _ (addr : Text) (capacity : ℕ) where
  give_up-IsConsistent :
      (message : Text) (p : AsyncConnectionPool)
      → length p.connections ≤ capacity
      → InOrder p []
      → IsConsistent capacity (give_up message p)
  give_up-IsConsistent message p l o = record {
    room = l;
    told = ((λ e. cc), (λ e. cc));
    in_order = o;
  }

  create-IsConsistent :
      (i : ℕ) (c : Connect) (p : AsyncConnectionPool)
      → i < capacity
      → Room capacity (creating i) (length p.connections)
      → Told capacity (creating i) p.init_result p.made
      → InOrder p []
      → IsConsistent capacity (create addr capacity i c p)
  unfolding create
  create-IsConsistent i connected p l r t o = record {
    room = (r.0, l);
    told = (t.0, ap (λ n. suc n) t.1);
    in_order = InOrder-suc p o;
  }
  create-IsConsistent i (refused m) p l r t o = give_up-IsConsistent _ p (omega arith) o
  create-IsConsistent i not_in_time p l r t o = give_up-IsConsistent _ p (omega arith) o

  select-IsConsistent :
      (c : Connect) (p : AsyncConnectionPool)
      → p.phase ≡ selecting
      → length p.connections ≤ capacity
      → Told capacity selecting p.init_result p.made
      → InOrder p []
      → IsConsistent capacity (select addr capacity c p)
  unfolding select
  select-IsConsistent connected p e r t o = record {
    room = r;
    told = (t.0, omega arith);
    in_order = InOrder-suc p o;
  }
  select-IsConsistent (refused m) p e r t o = record {
    room = rw e r;
    told = rw e t;
    in_order = rw e o;
  }
  select-IsConsistent not_in_time p e r t o = record {
    room = rw e r;
    told = rw e t;
    in_order = rw e o;
  }

  -- A connection that goes into the channel; or a receiver that is gone.
  send-AllValid :
      (connection : ℕ) (next failed p : AsyncConnectionPool)
      → (length p.connections < capacity
          → IsConsistent capacity (record next { connections = p.connections ++ connection ∷ [] }))
      → (p.receiving ≡ false → IsConsistent capacity failed)
      → AllValid capacity (send capacity connection next failed p)
  unfolding send
  send-AllValid connection next failed p f g = elim (Bool-cases p.receiving) [
    | inl alive ↦ elim (Bool-cases (ltb (length p.connections) capacity)) [
      | inl room ↦ rw (alive, room) (f (ltb→lt (length p.connections) capacity room))
      | inr full ↦ rw (alive, full) tt
    ]
    | inr gone ↦ rw gone (g gone)
  ]

  task_in-AllValid :
      (ph : Phase) (c : Connect) (p : AsyncConnectionPool)
      → p.phase ≡ ph
      → Room capacity ph (length p.connections)
      → Told capacity ph p.init_result p.made
      → InOrder p (in_hand ph)
      → AllValid capacity (task_in addr capacity ph c p)
  unfolding task_in
  task_in-AllValid (creating i) c p e r t o = elim (Bool-cases (ltb i capacity)) [
    | inl more ↦ rw more (create-IsConsistent i c p (ltb→lt i capacity more) r t o)
    | inr done ↦ rw done (record { room = omega arith; told = (refl, ground arith); in_order = o })
  ]
  task_in-AllValid (sending i n) c p e r t o =
      send-AllValid n _ _ p
        (λ l. record {
          room = (omega (arith, length-append p.connections (n ∷ [])), r.1);
          told = t;
          in_order = InOrder-sent p n o;
        })
        (λ gone. give_up-IsConsistent _ p (omega arith) (λ alive. cc))
  task_in-AllValid selecting c p e r t o = select-IsConsistent c p e r t o
  task_in-AllValid (handing n) c p e r t o =
      send-AllValid n _ _ p
        (λ l. record {
          room = omega (arith, length-append p.connections (n ∷ []));
          told = t;
          in_order = InOrder-sent p n o;
        })
        (λ gone. record { room = r; told = ((λ x. cc), (λ x. t.1)); in_order = λ alive. cc })
  task_in-AllValid returned c p e r t o = tt

shut_down-AllValid :
    (capacity : ℕ) (ph : Phase) (p : AsyncConnectionPool)
    → p.phase ≡ ph
    → IsConsistent capacity p
    → AllValid capacity (shut_down ph p)
unfolding shut_down
shut_down-AllValid capacity selecting p e v =
    let told : Told capacity selecting p.init_result p.made = rw e at v.told in
    elim (Bool-cases p.cancelled) [
      | inl late ↦ rw late (record {
        room = Room-le capacity p.phase (length p.connections) v.room;
        told = ((λ x. cc), (λ x. told.1));
        in_order = rw e at v.in_order;
      })
      | inr early ↦ rw early tt
    ]
shut_down-AllValid capacity (creating i) p e v = tt
shut_down-AllValid capacity (sending i n) p e v = tt
shut_down-AllValid capacity (handing n) p e v = tt
shut_down-AllValid capacity returned p e v = tt

abbrev AllTaken : ℕ → Option (Result BridgeError ℕ × AsyncConnectionPool) → Type 0
AllTaken capacity none = Unit
AllTaken capacity (some (_, q)) = IsConsistent capacity q

receive-AllTaken :
    (capacity : ℕ) (ns : List ℕ) (ph : Phase) (p : AsyncConnectionPool)
    → p.connections ≡ ns
    → IsConsistent capacity p
    → AllTaken capacity (receive ns ph p)
unfolding receive
receive-AllTaken capacity (m ∷ ms) ph p e v = record {
  room =
      Room-fewer capacity p.phase (length ms) (length p.connections) (omega (arith, ap length e))
        v.room;
  told = v.told;
  in_order =
      λ alive. append_assoc p.taken (m ∷ []) (ms ++ in_hand p.phase) ∙ (rw e at (v.in_order alive));
}
receive-AllTaken capacity [] (creating i) p e v = tt
receive-AllTaken capacity [] (sending i n) p e v = tt
receive-AllTaken capacity [] selecting p e v = tt
receive-AllTaken capacity [] (handing n) p e v = tt
receive-AllTaken capacity [] returned p e v = v

module _ (addr : Text) (pool_size : ℕ) where
  -- The pool is valid whatever its task, those that take from it and the drop have done, in any order:
  -- no more connections are queued than the pool's size; as long as the pool is not dropped, those
  -- that were taken, those queued and at most one in hand are all that were made, in the order of the
  -- making; success is told once all initial connections are made, and nobody is left without an
  -- answer by a task that has returned.
  pub Reachable-IsConsistent :
      (p : AsyncConnectionPool) → Reachable addr pool_size p → IsConsistent pool_size p
  Reachable-IsConsistent _ (begin statistics) = record {
    room = (omega arith, omega arith);
    told = (refl, refl);
    in_order = λ alive. refl;
  }
  Reachable-IsConsistent q (works p _ c h e) =
      let v = Reachable-IsConsistent p h in
      rw e at (task_in-AllValid addr pool_size p.phase c p refl v.room v.told v.in_order)
  Reachable-IsConsistent q (shuts p _ h e) =
      rw e at (shut_down-AllValid pool_size p.phase p refl (Reachable-IsConsistent p h))
  Reachable-IsConsistent q (takes p _ n h e) =
      rw e at (receive-AllTaken pool_size p.connections p.phase p refl (Reachable-IsConsistent p h))
  Reachable-IsConsistent _ (counts p statistics h) =
      let v = Reachable-IsConsistent p h in
      record { room = v.room; told = v.told; in_order = v.in_order }
  Reachable-IsConsistent _ (drops p h) =
      let v = Reachable-IsConsistent p h in
      record {
        room = Room-fewer pool_size p.phase 0 (length p.connections) (omega arith) v.room;
        told = v.told;
        in_order = λ alive. cc;
      }
