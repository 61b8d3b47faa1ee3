-- ===== src/Gcs/Reach.antt =====
-- Everything that can happen to a GCS, and what holds in all the states that it reaches.
use mini_ray.Base.{
  Bool-cases, ℕ, arith, true, inr, Bool, recovered, List, refl, ◌≡◌, ◌≢◌, GoString, M, ◌==◌, inl,
  nat_eq, bytes_eq,
}
use mini_ray.Gcs.{Gcs, new_gcs, returned, on_packet, on_manager}
use mini_ray.Gcs.Links.{notice}
use mini_ray.Gcs.Locations.{on_packet-get_object_location}
use mini_ray.Gcs.Node.{connect, on_tick, forget, receive, accept}
use mini_ray.Gcs.Safety.{on_packet-Safe, peer-Safe, Holds}
use mini_ray.Base.Maps.{lookup}
use mini_ray.Base.Safety.{Lands, returns}
use mini_ray.Client.{Net}
use mini_ray.Codec.{Header, ray_get_object_location}
use mini_ray.Codec.Dispatch.{uri_of}
use mini_ray.External.{Proto}
use mini_ray.Messages.{Message, kind_of}
use mini_ray.Peers.{Manager, on_open, with_peer, take_seq, empty_manager}
use mini_ray.Peers.Alive.{IsAlive}
use mini_ray.Peers.Deliver.{peer_on_packet}
use mini_ray.Peers.Grows.{take_seq-Proceeds, on_open-Proceeds, Proceeds, add_outgoing-Proceeds}
use mini_ray.Peers.Hands.{
  with_peer-Passes, delivered-Lands, peer_on_packet-returns, recovered-Lands,
}
use mini_ray.Peers.Tabled.{
  tick_all-IsFiled, take_seq-Same, loop_round-IsFiled, on_close-IsFiled, add_outgoing-IsFiled,
  IsFiled, on_open-IsFiled, Tabled,
}
use mini_ray.Peers.Ticks.{tick_all, add_outgoing}

module _ (net : Net) (p : Proto) where
  -- A call, with whether it came back and the state that it leaves.
  pub data Step : Gcs → Bool × Gcs → Type 0 where
    accepts :
        (s : Gcs) (remote : GoString) → Step s (returns (accept remote s).0, (accept remote s).1)
    forgets : (s : Gcs) (id : ℕ) → Step s (true, forget id s)
    connects : (s : Gcs) (addr : GoString) → Step s (returns (connect addr s).0, (connect addr s).1)
    -- A packet as the codec gives it, over an incoming connection; it is no request for a location.
    receives :
        (s : Gcs) (conn : ℕ) (h : Header) (m : Message)
        → h.uri ≡ uri_of (kind_of m)
        → h.uri ≢ ray_get_object_location
        → IsAlive conn s.manager.heap
        → Step s (returns (on_packet net p conn h m s).0, (on_packet net p conn h m s).1)
    -- A packet over an outgoing connection, of any kind.
    is_delivered :
        (s : Gcs) (now conn : ℕ) (h : Header) (m : Message)
        → h.uri ≡ uri_of (kind_of m)
        → IsAlive conn s.manager.heap
        → Step s (returns (receive net p now conn h m s).0, (receive net p now conn h m s).1)
    -- A round of the Loop of a connection.
    notices : (s : Gcs) (id : ℕ) → Step s (true, notice id s)
    ticks :
        (s : Gcs) (order : List ℕ)
        → Tabled s.manager order
        → Step s (returns (on_tick net p order s).0, (on_tick net p order s).1)

  pub data Reach : Gcs → Type 0 where
    fresh : Reach new_gcs
    next : {s : Gcs} {r : Bool × Gcs} → Reach s → Step s r → Reach r.1

  packet-Lands :
      (conn : ℕ) (h : Header) (m : Message)
      → h.uri ≡ uri_of (kind_of m)
      → (s : Gcs) → Holds conn s
      → Lands (Holds conn) (recovered (on_packet net p conn h m s))
  packet-Lands conn h m u s v = elim (Bool-cases (h.uri == ray_get_object_location)) [
    | inl location ↦
        rw (on_packet-get_object_location net p conn h m s (ground (arith, location)) u) (v, refl)
    | inr other ↦
        recovered-Lands (Holds conn) (on_packet net p conn h m s)
          (on_packet-Safe net p conn h m u (λ e. absurd (ground (arith, other))) s v)
  ]

  receive-Lands :
      (now conn : ℕ) (h : Header) (m : Message) (s : Gcs)
      → h.uri ≡ uri_of (kind_of m)
      → Holds conn s
      → Lands (Holds conn) (receive net p now conn h m s)
  unfolding receive on_manager returned
  receive-Lands now conn h m s u v =
      delivered-Lands (Holds conn) h m (on_packet net p conn)
        (on_manager (with_peer conn (peer_on_packet now h m)) s)
        (with_peer-Passes now conn h m s.manager v.0)
        (peer-Safe net p conn (peer_on_packet now h m) (peer_on_packet-returns now h m) s v)
        (packet-Lands conn h m u)

  managed-Lands :
      {A : Type 0} (f : M Manager A) (s : Gcs)
      → Proceeds s.manager (f s.manager)
      → IsFiled (f s.manager).1
      → IsFiled (on_manager f s).1.manager × (returns (on_manager f s).0 ≡ true)
  unfolding on_manager returned
  managed-Lands f s (grow, back) filed = (filed, back)

  tick-IsFiled :
      (s : Gcs) (order : List ℕ)
      → Tabled s.manager order
      → IsFiled s.manager
      → IsFiled (on_tick net p order s).1.manager × (returns (on_tick net p order s).0 ≡ true)
  unfolding on_tick
  tick-IsFiled s order tabled v =
      let (went, filed) =
        tick_all-IsFiled net p take_seq take_seq-Proceeds take_seq-Same order s.manager v tabled in
      managed-Lands (tick_all net p take_seq order) s went filed

  Step-IsFiled :
      {s : Gcs} {r : Bool × Gcs} → Step s r → IsFiled s.manager → IsFiled r.1.manager × (r.0 ≡ true)
  unfolding accept connect forget notice
  Step-IsFiled (accepts s remote) v =
      managed-Lands (on_open remote) s (on_open-Proceeds remote s.manager)
        (on_open-IsFiled remote s.manager v)
  Step-IsFiled (forgets s id) v = (on_close-IsFiled id s.manager v, refl)
  Step-IsFiled (connects s addr) v =
      managed-Lands (add_outgoing addr) s (add_outgoing-Proceeds addr s.manager)
        (add_outgoing-IsFiled addr s.manager v)
  Step-IsFiled (receives s conn h m u ne alive) v =
      let (kept, back) = on_packet-Safe net p conn h m u ne s (alive, v) in (kept.1, back)
  Step-IsFiled (is_delivered s now conn h m u alive) v =
      let (kept, back) = receive-Lands now conn h m s u (alive, v) in (kept.1, back)
  Step-IsFiled (notices s id) v = (loop_round-IsFiled id s.manager v, refl)
  Step-IsFiled (ticks s order tabled) v = tick-IsFiled s order tabled v

  Reach-IsFiled : (s : Gcs) → Reach s → IsFiled s.manager
  unfolding new_gcs empty_manager lookup
  Reach-IsFiled s fresh = λ k id e. cc
  Reach-IsFiled s (next {s = before} r step) = (Step-IsFiled step (Reach-IsFiled before r)).0

  -- In every state that a GCS reaches from its start by accepting, closing and dialing connections,
  -- packets as the codec gives them, over incoming connections all but requests for the location of
  -- an object and over outgoing ones any, rounds of the Loops of connections, and ticks over the
  -- manager's table, the next such call comes back with a value or an error, neither panicking nor
  -- waiting, and every connection in the manager's table is a connection object.
  pub Reach-Step-IsFiled :
      (s : Gcs) (r : Bool × Gcs) → Reach s → Step s r → IsFiled r.1.manager × (r.0 ≡ true)
  Reach-Step-IsFiled s r reached step = Step-IsFiled step (Reach-IsFiled s reached)
