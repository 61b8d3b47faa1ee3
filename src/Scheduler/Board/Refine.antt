-- ===== src/Scheduler/Board/Refine.antt =====
-- Every call of a scheduler is a move of its board.
use mini_ray.Scheduler.Board.{
  Move, board_of, Moves, put, Cause, Board, connection, packet, push, round, rests, passes_by,
  turned_away, waits, joins, takes_off, is_lost, settles, comes_back, finds_full, bare, moved,
}
use mini_ray.Scheduler.Links.{notice}
use mini_ray.Codec.{Header}
use mini_ray.Peers.Deliver.{peer_on_packet}
use mini_ray.Peers.Hands.{delivered-kept}
use mini_ray.Scheduler.Node.{receive, accept, connect, on_tick, forget, poll}
use mini_ray.Scheduler.Reach.{
  notices, is_delivered, fresh, polls, pushes, ticks, receives, connects, forgets, next, accepts,
  Step, Reach,
}
use mini_ray.Messages.{Message, AssignTaskResponse}
use mini_ray.Peers.Ticks.{tick_all, add_outgoing}
use mini_ray.Base.{
  false, blocks, inr, panics, fun_ext, subst, err, M, refl, Result, Bool-cases, ok, ltb, Bool, inl,
  List, ℕ, length, ◌∷◌, ap, some, sym, GoString, arith, ◌≡◌, ◌∙◌, none, Option, ◌++◌, [], nat_eq,
  bytes_eq,
}
use mini_ray.Scheduler.{
  on_packet, assign_next, requeue, push_task, on_assign_task_resp, returned, assign_task_of,
  new_scheduler, on_manager, request_of, assign_to, handle_server_req, Task, Scheduler,
}
use mini_ray.Scheduler.Kept.{on_packet-kept, handle_server_req-Keeps, ignore-Keeps}
use mini_ray.Base.Maps.{lookup, insert, lookup-insert, lookup-delete, delete}
use mini_ray.Base.Safety.{Keeps, >>=-Keeps}
use mini_ray.Client.{Net}
use mini_ray.External.{Proto}
use mini_ray.Peers.{with_peer, Manager, on_open, ignore_result, take_id, ignore}

put_twice :
    (id : GoString) (v w : Option Task) (flying : GoString → Option Task)
    → put id v (put id w flying) ≡ put id v flying
put_twice id v w flying = fun_ext (λ k. ground arith)

board_of-insert :
    (t : Task) (s : Scheduler)
    → board_of (record s { pending = insert t.id t s.pending })
      ≡ record (board_of s) { flying = put t.id (some t) (board_of s).flying }
board_of-insert t s =
    ap (λ (f : GoString → Option Task). record (board_of s) { flying = f })
      (fun_ext (λ k. lookup-insert t.id k t s.pending))

board_of-delete :
    (id : GoString) (s : Scheduler)
    → board_of (record s { pending = delete id s.pending })
      ≡ record (board_of s) { flying = put id none (board_of s).flying }
board_of-delete id s =
    ap (λ (f : GoString → Option Task). record (board_of s) { flying = f })
      (fun_ext (λ k. lookup-delete id k s.pending))

managed-Board :
    {A : Type 0} (f : M Manager A) (s : Scheduler) → board_of (on_manager f s).1 ≡ board_of s
unfolding on_manager returned
managed-Board f s = refl

managed :
    {A : Type 0} (f : M Manager A) (s : Scheduler)
    → Move connection (board_of s) (board_of (on_manager f s).1)
unfolding on_manager returned
managed f s = rests (board_of s)

module _ (net : Net) (p : Proto) where
  -- A request that is sent leaves the board as it is.
  sends-Shows :
      (b : Board) (conn : ℕ) (t : Task)
      → Keeps (λ s. board_of s ≡ b) (ignore (handle_server_req net p conn (request_of t)))
  sends-Shows b conn t =
      ignore-Keeps (λ s. board_of s ≡ b) (λ m s v. v) _
        (handle_server_req-Keeps (λ s. board_of s ≡ b) (λ m s v. v) net p conn (request_of t))

  -- Once the task is in flight, the other connections change nothing.
  assign_to-Shows :
      (t : Task) (order : List ℕ) (b : Board)
      → b.flying ≡ put t.id (some t) b.flying
      → Keeps (λ s. board_of s ≡ b) (assign_to net p t order)
  unfolding assign_to
  assign_to-Shows t [] b e s v = v
  assign_to-Shows t (conn ∷ order) b e s v =
      >>=-Keeps (λ s. board_of s ≡ b) (ignore (handle_server_req net p conn (request_of t))) _
        (sends-Shows b conn t) (λ _. assign_to-Shows t order b e) _
        (board_of-insert t s
          ∙ ap (λ (b : Board). record b { flying = put t.id (some t) b.flying }) v
          ∙ ap (λ (f : GoString → Option Task). record b { flying = f }) (sym e))

  assign_to-Board :
      (conn : ℕ) (order : List ℕ) (t : Task) (s : Scheduler)
      → board_of (assign_to net p t (conn ∷ order) s).1
        ≡ record (board_of s) { flying = put t.id (some t) (board_of s).flying }
  unfolding assign_to
  assign_to-Board conn order t s =
      let b : Board = record (board_of s) { flying = put t.id (some t) (board_of s).flying } in
      >>=-Keeps (λ s. board_of s ≡ b) (ignore (handle_server_req net p conn (request_of t))) _
        (sends-Shows b conn t)
        (λ _.
          assign_to-Shows t order b (sym (put_twice t.id (some t) (some t) (board_of s).flying)))
        _ (board_of-insert t s)

  poll-Move :
      (order : List ℕ) (s : Scheduler) → Move round (board_of s) (board_of (poll net p order s).1)
  unfolding poll assign_task_of assign_next assign_to
  poll-Move order s = elim (Bool-cases (ltb 0 (length s.task_chan))) [
    | inl some_task ↦ rw some_task (go order s.task_chan refl)
    | inr no_task ↦ rw no_task (waits (board_of s) (empty s.task_chan no_task))
  ]
    where
      empty : (queue : List Task) → ltb 0 (length queue) ≡ false → queue ≡ []
      empty [] e = refl
      empty (t ∷ rest) e = absurd (ground arith)

      ignored : (r : Result (Unit {0}) × Scheduler) → (ignore_result r).1 ≡ r.1
      ignored (ok u, s) = refl
      ignored (err e, s) = refl
      ignored (panics x, s) = refl
      ignored (blocks, s) = refl

      takes :
          (order : List ℕ) (t : Task) (rest : List Task)
          → s.task_chan ≡ t ∷ rest
          → Move round (board_of s) (board_of (assign_next net p order (t ∷ rest) s).1)
      takes [] t rest e = is_lost (board_of s) t rest e
      takes (conn ∷ order) t rest e =
          subst (Move round (board_of s))
            (sym (assign_to-Board conn order t (record s { task_chan = rest })))
            (takes_off (board_of s) t rest e)

      go :
          (order : List ℕ) (queue : List Task)
          → s.task_chan ≡ queue
          → Move round (board_of s) (board_of (ignore_result (assign_next net p order queue s)).1)
      go order [] e = waits (board_of s) e
      go order (t ∷ rest) e =
          subst (λ (s' : Scheduler). Move round (board_of s) (board_of s'))
            (sym (ignored (assign_next net p order (t ∷ rest) s))) (takes order t rest e)

  answer-Move :
      (r : AssignTaskResponse) (s : Scheduler)
      → Move packet (board_of s) (board_of (on_assign_task_resp net p r s).1)
  unfolding on_assign_task_resp requeue push_task
  answer-Move r s = elim (Bool-cases r.accepted) [
    | inl taken ↦ rw taken (
        subst (Move packet (board_of s)) (sym (board_of-delete r.task_id s))
          (settles (board_of s) r.task_id))
    | inr refused ↦ rw refused (go (lookup r.task_id s.pending) refl)
  ]
    where
      go :
          (o : Option Task)
          → lookup r.task_id s.pending ≡ o
          → Move packet (board_of s) (board_of (requeue net p r.task_id o s).1)
      go none e = passes_by (board_of s)
      go (some t) e = elim (Bool-cases (ltb (length s.task_chan) s.task_chan_size)) [
        | inl room ↦ rw room (
            subst
              (λ (b : Board). Move packet (board_of s) (record b { queue = b.queue ++ (t ∷ []) }))
              (sym (board_of-delete r.task_id s))
              (comes_back (board_of s) r.task_id t e (ground (arith, room))))
        | inr full ↦ rw full (
            subst (Move packet (board_of s)) (sym (board_of-delete r.task_id s))
              (finds_full (board_of s) r.task_id t e (ground (arith, full))))
      ]

  push-Move : (task : Task) (s : Scheduler) → Move push (board_of s) (board_of (push_task task s).1)
  unfolding push_task
  push-Move task s = elim (Bool-cases (ltb (length s.task_chan) s.task_chan_size)) [
    | inl room ↦ rw room (joins (board_of s) task (ground (arith, room)))
    | inr full ↦ rw full (turned_away (board_of s) (ground (arith, full)))
  ]

  packet-Move :
      (conn : ℕ) (h : Header) (m : Message) (s : Scheduler)
      → Move packet (board_of s) (board_of (on_packet net p conn h m s).1)
  packet-Move conn h m s =
      on_packet-kept (λ t. Move packet (board_of s) (board_of t)) (λ m t v. v) (λ w g t v. v) net p
        conn h m s (passes_by (board_of s)) (λ r. answer-Move r s)

  receive-Move :
      (now conn : ℕ) (h : Header) (m : Message) (s : Scheduler)
      → Move packet (board_of s) (board_of (receive net p now conn h m s).1)
  unfolding receive
  receive-Move now conn h m s =
      delivered-kept (λ t. board_of t ≡ board_of s) (λ t. Move packet (board_of s) (board_of t))
        (on_manager (with_peer conn (peer_on_packet now h m)) s) (on_packet net p conn)
        (managed-Board (with_peer conn (peer_on_packet now h m)) s)
        (λ t e. subst (λ (b : Board). Move packet b (board_of t)) e (passes_by (board_of t)))
        (λ k n t e.
          subst (λ (b : Board). Move packet b (board_of (on_packet net p conn k n t).1)) e
            (packet-Move conn k n t))

  abbrev pub cause_of : {s : Scheduler} {r : Bool × Scheduler} → Step net p s r → Cause
  cause_of (receives s conn h m u a) = packet
  cause_of (is_delivered s now conn h m u a) = packet
  cause_of (pushes s task) = push
  cause_of (polls s order w) = round
  cause_of _ = connection

  -- Every call of a scheduler is on its board, the queue and the tasks in flight, a move for what
  -- the call is about. One that accepts, closes or dials a connection, a tick and a round of the
  -- Loop of a connection leave the board as it is; a pushed task joins the queue, or is turned away
  -- if the queue is full; a round of Loop leaves an empty queue, puts the oldest task in flight, or
  -- loses it; a packet leaves the board, takes a task out of flight, or has it rejoin the queue if
  -- there is room.
  pub Step-Move :
      {s : Scheduler} {r : Bool × Scheduler} (step : Step net p s r)
      → Move (cause_of step) (board_of s) (board_of r.1)
  unfolding accept connect on_tick forget notice
  Step-Move (accepts s remote) = managed (on_open remote) s
  Step-Move (forgets s id) = rests (board_of s)
  Step-Move (connects s addr) = managed (add_outgoing addr) s
  Step-Move (receives s conn h m u a) = packet-Move conn h m s
  Step-Move (is_delivered s now conn h m u a) = receive-Move now conn h m s
  Step-Move (notices s id) = rests (board_of s)
  Step-Move (ticks s order a) = managed (tick_all net p take_id order) s
  Step-Move (pushes s task) = push-Move task s
  Step-Move (polls s order w) = poll-Move order s

  Reach-Moves : (size : ℕ) (s : Scheduler) → Reach net p size s → Moves size (board_of s)
  unfolding new_scheduler lookup
  Reach-Moves size s fresh = bare
  Reach-Moves size s (next {s = before} r step) = moved (Reach-Moves size before r) (Step-Move step)
