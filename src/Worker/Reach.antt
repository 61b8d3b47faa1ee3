-- ===== src/Worker/Reach.antt =====
-- Everything that can happen to a worker, and what holds in all the states that it reaches.
use mini_ray.Base.Maps.{lookup}
use mini_ray.Worker.Links.{notice}
use mini_ray.Peers.Deliver.{peer_on_packet}
use mini_ray.Peers.Hands.{peer_on_packet-returns}
use mini_ray.Peers.Tabled.{
  on_close-IsFiled, add_outgoing-IsFiled, tick_all-IsFiled, IsFiled, Tabled, loop_round-Grows,
  loop_round-IsFiled, take_id-Same, on_open-IsFiled,
}
use mini_ray.Base.{
  nat_eq, bytes_eq, pure, ◌∷◌, GoString, arith, Result, some, ℕ, Bool, ◌≡◌, List, M, refl, true,
}
use mini_ray.Worker.{get_object, Worker}
use mini_ray.Worker.Node.{receive, new_worker, connect, accept, forget, on_tick}
use mini_ray.Worker.Packets.{on_packet, on_manager, report_object}
use mini_ray.Worker.Packets.Report.{report_object-Lands}
use mini_ray.Worker.Packets.Safety.{Takes, on_packet-Lands}
use mini_ray.Worker.Packets.Sound.{on_peer-Safe, Holds, on_manager-Holds, IsSound}
use mini_ray.Base.Safety.{>>=-Safe, returns, Lands}
use mini_ray.Client.{Net}
use mini_ray.Codec.{Header}
use mini_ray.Codec.Dispatch.{uri_of}
use mini_ray.External.{Proto}
use mini_ray.Messages.{Message, kind_of}
use mini_ray.Peers.{with_peer, on_close, on_open, Manager, take_id}
use mini_ray.Peers.Alive.{IsAlive}
use mini_ray.Peers.Grows.{on_open-Proceeds, take_id-Proceeds, add_outgoing-Proceeds, Proceeds}
use mini_ray.Peers.Ticks.{add_outgoing, tick_all}

module _ (net : Net) (p : Proto) where
  -- A call, with whether it came back and the state that it leaves.
  pub data Step : Worker → Bool × Worker → Type 0 where
    accepts :
        (w : Worker) (remote : GoString) → Step w (returns (accept remote w).0, (accept remote w).1)
    forgets : (w : Worker) (id : ℕ) → Step w (true, forget id w)
    connects :
        (w : Worker) (addr : GoString) → Step w (returns (connect addr w).0, (connect addr w).1)
    -- A packet as the codec gives it, over an incoming connection, that the worker can take.
    receives :
        (w : Worker) (now conn : ℕ) (h : Header) (m : Message)
        → h.uri ≡ uri_of (kind_of m)
        → Takes w m
        → IsAlive conn w.manager.heap
        → Step w (returns (on_packet net p now conn h m w).0, (on_packet net p now conn h m w).1)
    -- A packet over an outgoing connection, which is dropped.
    is_delivered :
        (w : Worker) (now conn : ℕ) (h : Header) (m : Message)
        → IsAlive conn w.manager.heap
        → Step w (returns (receive net p now conn h m w).0, (receive net p now conn h m w).1)
    -- A round of the Loop of a connection.
    notices : (w : Worker) (id : ℕ) → Step w (true, notice id w)
    ticks :
        (w : Worker) (order : List ℕ)
        → Tabled w.manager order
        → Step w (returns (on_tick net p order w).0, (on_tick net p order w).1)
    -- A round of Loop with a result to report and a GCS to report it to.
    reports :
        (w : Worker) (conn : ℕ) (id : GoString) (rest : List GoString)
        → w.register_chan ≡ id ∷ rest
        → w.gcs_conn ≡ some conn
        → Step w (returns (report_object net p w).0, (report_object net p w).1)

  pub data Reach (size : ℕ) : Worker → Type 0 where
    fresh : Reach size (new_worker size)
    next : {w : Worker} {r : Bool × Worker} → Reach size w → Step w r → Reach size r.1

  called-IsSound :
      {A : Type 0} (f : M Manager A) (w : Worker)
      → IsSound w
      → Proceeds w.manager (f w.manager)
      → IsFiled (f w.manager).1
      → IsSound (on_manager f w).1 × (returns (on_manager f w).0 ≡ true)
  called-IsSound f w v h filed =
      let (kept, back, grow) = on_manager-Holds f w v h filed in (kept, back)

  landed :
      {A : Type 0} (conn : ℕ) (r : Result A × Worker)
      → Lands (Holds conn) r
      → IsSound r.1 × (returns r.0 ≡ true)
  landed conn r ((kept, alive), back) = (kept, back)

  on_tick-IsSound :
      (order : List ℕ) (w : Worker)
      → Tabled w.manager order
      → IsSound w
      → IsSound (on_tick net p order w).1 × (returns (on_tick net p order w).0 ≡ true)
  unfolding on_tick
  on_tick-IsSound order w tabled v =
      let (went, filed) =
        tick_all-IsFiled net p take_id take_id-Proceeds take_id-Same order w.manager v.filed
          tabled in
      called-IsSound (tick_all net p take_id order) w v went filed

  notice-IsSound : (id : ℕ) (w : Worker) → IsSound w → IsSound (notice id w) × (true ≡ true)
  unfolding notice get_object
  notice-IsSound id w v = (
    record {
      gcs = λ i e. loop_round-Grows id w.manager i (v.gcs i e);
      bounded = v.bounded;
      stored = v.stored;
      filed = loop_round-IsFiled id w.manager v.filed;
    },
    refl,
  )

  -- Whatever the connection makes of the packet, the worker drops it.
  receive-IsSound :
      (now conn : ℕ) (h : Header) (m : Message) (w : Worker)
      → IsAlive conn w.manager.heap
      → IsSound w
      → IsSound (receive net p now conn h m w).1 × (returns (receive net p now conn h m w).0 ≡ true)
  unfolding receive
  receive-IsSound now conn h m w a v = landed conn _ (
      >>=-Safe (Holds conn) (on_manager (with_peer conn (peer_on_packet now h m))) (λ _. pure tt)
        (on_peer-Safe conn (peer_on_packet now h m) (peer_on_packet-returns now h m))
        (λ _ s k. (k, refl)) w (v, a))

  Step-IsSound :
      {w : Worker} {r : Bool × Worker} → Step w r → IsSound w → IsSound r.1 × (r.0 ≡ true)
  unfolding accept connect forget on_close get_object
  Step-IsSound (accepts w remote) v =
      called-IsSound (on_open remote) w v (on_open-Proceeds remote w.manager)
        (on_open-IsFiled remote w.manager v.filed)
  Step-IsSound (forgets w id) v = (
    record {
      gcs = v.gcs;
      bounded = v.bounded;
      stored = v.stored;
      filed = on_close-IsFiled id w.manager v.filed;
    },
    refl,
  )
  Step-IsSound (connects w addr) v =
      called-IsSound (add_outgoing addr) w v (add_outgoing-Proceeds addr w.manager)
        (add_outgoing-IsFiled addr w.manager v.filed)
  Step-IsSound (receives w now conn h m u t a) v =
      landed conn (on_packet net p now conn h m w) (on_packet-Lands net p now conn h m w u t (v, a))
  Step-IsSound (is_delivered w now conn h m a) v = receive-IsSound now conn h m w a v
  Step-IsSound (notices w id) v = notice-IsSound id w v
  Step-IsSound (ticks w order tabled) v = on_tick-IsSound order w tabled v
  Step-IsSound (reports w conn id rest e g) v =
      landed conn (report_object net p w)
        (report_object-Lands net p conn id rest w e g (v, v.gcs conn g))

  Reach-IsSound : (size : ℕ) (w : Worker) → Reach size w → IsSound w
  unfolding new_worker get_object lookup
  Reach-IsSound size w fresh = record {
    gcs = λ id e. cc;
    bounded = omega arith;
    stored = tt;
    filed = λ k id e. cc;
  }
  Reach-IsSound size w (next {w = before} r step) =
      (Step-IsSound step (Reach-IsSound size before r)).0

  -- In every state that a worker reaches from NewWorker by accepting, closing and dialing
  -- connections, packets as the codec gives them over incoming connection objects and any packets
  -- over outgoing ones, rounds of the Loops of connections, ticks over the manager's table, and
  -- rounds of its Loop with a result and a GCS at hand, the next such call comes back with a value
  -- or an error, neither panicking nor waiting; and the channel of results is within its capacity,
  -- all in it are stored, and the connection to the GCS and those in the manager's table are
  -- connection objects. A packet over an incoming connection is taken to be none that answers a
  -- request for a location or for data, and a request to run a function to have arguments that can
  -- be resolved and room for its result.
  pub Reach-Step-IsSound :
      (size : ℕ) (w : Worker) (r : Bool × Worker)
      → Reach size w
      → Step w r
      → IsSound r.1 × (r.0 ≡ true)
  Reach-Step-IsSound size w r reached step = Step-IsSound step (Reach-IsSound size w reached)
