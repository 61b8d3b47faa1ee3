-- ===== src/Scheduler/Reach.antt =====
-- Everything that can happen to a scheduler, and what holds in all the states that it reaches.
use mini_ray.Scheduler.Links.{notice}
use mini_ray.Peers.Deliver.{peer_on_packet}
use mini_ray.Peers.Hands.{
  with_peer-Passes, delivered-Lands, recovered-Lands, peer_on_packet-returns,
}
use mini_ray.Peers.Tabled.{
  tick_all-IsFiled, IsFiled, take_id-Same, on_open-IsFiled, loop_round-Grows, loop_round-IsFiled,
  on_close-IsFiled, add_outgoing-IsFiled, Tabled,
}
use mini_ray.Base.{
  inl, length, List, refl, ℕ, inr, blocks, Bool, arith, GoString, true, ◌∷◌, some, ltb, Bool-cases,
  All, Result, ok, err, M, panics, [], ◌≡◌, nat_eq, bytes_eq,
}
use mini_ray.Scheduler.Sound.{Holds, on_peer-Safe, IsSound}
use mini_ray.Scheduler.{
  returned, on_manager, assign_task_of, on_packet, push_task, Scheduler, Task, new_scheduler,
}
use mini_ray.Scheduler.Node.{receive, connect, on_tick, poll, accept, forget}
use mini_ray.Scheduler.Safety.{on_packet-Safe, assign_task_of-IsSound, push_task-Safe}
use mini_ray.Base.Maps.{lookup}
use mini_ray.Base.Safety.{Lands, returns}
use mini_ray.Client.{Net}
use mini_ray.Codec.{Header}
use mini_ray.Codec.Dispatch.{uri_of}
use mini_ray.External.{Proto}
use mini_ray.Messages.{Message, kind_of}
use mini_ray.Peers.{with_peer, on_close, on_open, take_id, ignore_result, Manager}
use mini_ray.Peers.Alive.{IsAlive}
use mini_ray.Peers.Grows.{
  Grows, Proceeds, on_open-Proceeds, add_outgoing-Proceeds, take_id-Proceeds,
}
use mini_ray.Peers.Ticks.{loop_round, tick_all, add_outgoing}

-- The connections to visit are values of the table of workers.
abbrev pub Workers : Scheduler → List ℕ → Type 0
Workers s order = All (λ id. (k : GoString) × (lookup k s.worker_conns ≡ some id)) order

module _ (net : Net) (p : Proto) where
  -- A call, with whether it came back and the state that it leaves.
  pub data Step : Scheduler → Bool × Scheduler → Type 0 where
    accepts :
        (s : Scheduler) (remote : GoString)
        → Step s (returns (accept remote s).0, (accept remote s).1)
    forgets : (s : Scheduler) (id : ℕ) → Step s (true, forget id s)
    connects :
        (s : Scheduler) (addr : GoString) → Step s (returns (connect addr s).0, (connect addr s).1)
    -- A packet as the codec gives it, over an incoming connection.
    receives :
        (s : Scheduler) (conn : ℕ) (h : Header) (m : Message)
        → h.uri ≡ uri_of (kind_of m)
        → IsAlive conn s.manager.heap
        → Step s (returns (on_packet net p conn h m s).0, (on_packet net p conn h m s).1)
    -- A packet over an outgoing connection.
    is_delivered :
        (s : Scheduler) (now conn : ℕ) (h : Header) (m : Message)
        → h.uri ≡ uri_of (kind_of m)
        → IsAlive conn s.manager.heap
        → Step s (returns (receive net p now conn h m s).0, (receive net p now conn h m s).1)
    -- A round of the Loop of a connection.
    notices : (s : Scheduler) (id : ℕ) → Step s (true, notice id s)
    ticks :
        (s : Scheduler) (order : List ℕ)
        → Tabled s.manager order
        → Step s (returns (on_tick net p order s).0, (on_tick net p order s).1)
    pushes :
        (s : Scheduler) (task : Task) → Step s (returns (push_task task s).0, (push_task task s).1)
    polls :
        (s : Scheduler) (order : List ℕ)
        → Workers s order
        → Step s (returns (poll net p order s).0, (poll net p order s).1)

  pub data Reach (size : ℕ) : Scheduler → Type 0 where
    fresh : Reach size (new_scheduler size)
    next : {s : Scheduler} {r : Bool × Scheduler} → Reach size s → Step s r → Reach size r.1

  on_manager-IsSound :
      {A : Type 0} (f : M Manager A) (s : Scheduler)
      → IsSound s
      → Proceeds s.manager (f s.manager)
      → IsFiled (f s.manager).1
      → IsSound (on_manager f s).1 × (returns (on_manager f s).0 ≡ true)
  unfolding on_manager returned
  on_manager-IsSound f s v (grow, back) filed = (
    record {
      bounded = v.bounded;
      workers = λ k id e. grow id (v.workers k id e);
      gcs = λ k id e. grow id (v.gcs k id e);
      filed = filed;
    },
    back,
  )

  Workers-IsAlive :
      (s : Scheduler) (order : List ℕ)
      → IsSound s
      → Workers s order
      → All (λ id. IsAlive id s.manager.heap) order
  Workers-IsAlive s [] v h = tt
  Workers-IsAlive s (id ∷ order) v ((k, e), h) = (v.workers k id e, Workers-IsAlive s order v h)

  poll-IsSound :
      (s : Scheduler) (order : List ℕ)
      → IsSound s
      → Workers s order
      → IsSound (poll net p order s).1 × (returns (poll net p order s).0 ≡ true)
  unfolding poll
  poll-IsSound s order v h = elim (Bool-cases (ltb 0 (length s.task_chan))) [
    | inl some_task ↦ rw some_task (
        go (assign_task_of net p order s)
          (assign_task_of-IsSound net p order s v (Workers-IsAlive s order v h)))
    | inr no_task ↦ rw no_task (v, refl)
  ]
    where
      go :
          (r : Result (Unit {0}) × Scheduler)
          → IsSound r.1 × (returns r.0 ≡ true)
          → IsSound (ignore_result r).1 × (returns (ignore_result r).0 ≡ true)
      go (ok u, t) l = l
      go (err e, t) l = (l.0, refl)
      go (panics x, t) l = absurd (ground arith)
      go (blocks, t) l = absurd (ground arith)

  on_tick-IsSound :
      (order : List ℕ) (s : Scheduler)
      → Tabled s.manager order
      → IsSound s
      → IsSound (on_tick net p order s).1 × (returns (on_tick net p order s).0 ≡ true)
  unfolding on_tick
  on_tick-IsSound order s tabled v =
      let (went, filed) =
        tick_all-IsFiled net p take_id take_id-Proceeds take_id-Same order s.manager v.filed
          tabled in
      on_manager-IsSound (tick_all net p take_id order) s v went filed

  notice-IsSound : (id : ℕ) (s : Scheduler) → IsSound s → IsSound (notice id s) × (true ≡ true)
  unfolding notice
  notice-IsSound id s v =
      let grow : Grows s.manager (loop_round id s.manager) = loop_round-Grows id s.manager in
      (
        record {
          bounded = v.bounded;
          workers = λ k i e. grow i (v.workers k i e);
          gcs = λ k i e. grow i (v.gcs k i e);
          filed = loop_round-IsFiled id s.manager v.filed;
        },
        refl,
      )

  receive-Lands :
      (now conn : ℕ) (h : Header) (m : Message) (s : Scheduler)
      → h.uri ≡ uri_of (kind_of m)
      → Holds (conn ∷ []) s
      → Lands (Holds (conn ∷ [])) (receive net p now conn h m s)
  unfolding receive on_manager returned
  receive-Lands now conn h m s u v =
      delivered-Lands (Holds (conn ∷ [])) h m (on_packet net p conn)
        (on_manager (with_peer conn (peer_on_packet now h m)) s)
        (with_peer-Passes now conn h m s.manager v.1.0)
        (on_peer-Safe (conn ∷ []) conn (peer_on_packet now h m) (peer_on_packet-returns now h m)
          (λ s v. v.1.0) s v)
        (λ s v.
          recovered-Lands (Holds (conn ∷ [])) (on_packet net p conn h m s)
            (on_packet-Safe net p conn h m u s v))

  Step-IsSound :
      {s : Scheduler} {r : Bool × Scheduler} → Step s r → IsSound s → IsSound r.1 × (r.0 ≡ true)
  unfolding accept connect forget on_close
  Step-IsSound (accepts s remote) v =
      on_manager-IsSound (on_open remote) s v (on_open-Proceeds remote s.manager)
        (on_open-IsFiled remote s.manager v.filed)
  Step-IsSound (forgets s id) v = (
    record {
      bounded = v.bounded;
      workers = v.workers;
      gcs = v.gcs;
      filed = on_close-IsFiled id s.manager v.filed;
    },
    refl,
  )
  Step-IsSound (connects s addr) v =
      on_manager-IsSound (add_outgoing addr) s v (add_outgoing-Proceeds addr s.manager)
        (add_outgoing-IsFiled addr s.manager v.filed)
  Step-IsSound (receives s conn h m u a) v =
      let (kept, back) = on_packet-Safe net p conn h m u s (v, (a, tt)) in (kept.0, back)
  Step-IsSound (is_delivered s now conn h m u a) v =
      let (kept, back) = receive-Lands now conn h m s u (v, (a, tt)) in (kept.0, back)
  Step-IsSound (notices s id) v = notice-IsSound id s v
  Step-IsSound (ticks s order tabled) v = on_tick-IsSound order s tabled v
  Step-IsSound (pushes s task) v =
      let (kept, back) = push_task-Safe net p [] task s (v, tt) in (kept.0, back)
  Step-IsSound (polls s order h) v = poll-IsSound s order v h

  Reach-IsSound : (size : ℕ) (s : Scheduler) → Reach size s → IsSound s
  Reach-IsSound size s fresh =
      unfold new_scheduler lookup in
      (record {
        bounded = omega arith;
        workers = λ k id e. cc;
        gcs = λ k id e. cc;
        filed = λ k id e. cc;
      })
  Reach-IsSound size s (next {s = before} r step) =
      (Step-IsSound step (Reach-IsSound size before r)).0

  -- In every state that a scheduler reaches from NewScheduler by accepting, closing and dialing
  -- connections, packets as the codec gives them over incoming and outgoing connection objects,
  -- rounds of the Loops of connections, ticks over the manager's table, pushed tasks and rounds of
  -- Loop over connections in the table of workers, the next such call comes back with a value or an
  -- error, neither panicking nor waiting, and leaves the task channel within its capacity and the
  -- tables on connection objects.
  pub Reach-Step :
      (size : ℕ) (s : Scheduler) (r : Bool × Scheduler)
      → Reach size s
      → Step s r
      → IsSound r.1 × (r.0 ≡ true)
  Reach-Step size s r reached step = Step-IsSound step (Reach-IsSound size s reached)
