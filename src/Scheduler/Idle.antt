-- ===== src/Scheduler/Idle.antt =====
-- A scheduler that no other part of the program gives a task: PushTask of core/scheduler/scheduler.go
-- is called nowhere but for a rejected task.
use mini_ray.Codec.{Header}
use mini_ray.Scheduler.Links.{notice}
use mini_ray.Peers.Deliver.{peer_on_packet}
use mini_ray.Peers.Hands.{delivered-kept}
use mini_ray.Scheduler.Kept.{on_packet-kept}
use mini_ray.Scheduler.Node.{receive, forget, accept, poll, on_tick, connect}
use mini_ray.Scheduler.Reach.{
  notices, is_delivered, polls, ticks, receives, connects, forgets, accepts, pushes, Step,
}
use mini_ray.Peers.Ticks.{add_outgoing, tick_all}
use mini_ray.Base.Maps.{lookup, delete}
use mini_ray.Base.{
  Bool, true, length, ltb, false, arith, inl, refl, Bool-cases, inr, ap, nat_eq, bytes_eq, List,
  ◌≡◌, [], ℕ, M,
}
use mini_ray.Scheduler.{
  on_packet, new_scheduler, requeue, on_assign_task_resp, on_manager, Scheduler, returned,
}
use mini_ray.Client.{Net}
use mini_ray.External.{Proto}
use mini_ray.Messages.{Message, AssignTaskResponse}
use mini_ray.Peers.{with_peer, on_open, take_id, Manager}

-- No task in the channel, and none pending.
abbrev pub Idle : Scheduler → Type 0
Idle s = (s.task_chan ≡ []) × (s.pending ≡ [])

managed : {A : Type 0} (f : M Manager A) (s : Scheduler) → Idle s → Idle (on_manager f s).1
unfolding on_manager returned
managed f s v = v

module _ (net : Net) (p : Proto) where
  on_assign_task_resp-Idle :
      (r : AssignTaskResponse) (s : Scheduler) → Idle s → Idle (on_assign_task_resp net p r s).1
  unfolding on_assign_task_resp requeue delete lookup
  on_assign_task_resp-Idle r s (none_queued, none_pending) = elim (Bool-cases r.accepted) [
    | inl taken ↦ rw taken (none_queued, ap (delete r.task_id) none_pending)
    | inr refused ↦ rw (refused, none_pending) (none_queued, refl)
  ]

  on_packet-Idle :
      (conn : ℕ) (h : Header) (m : Message) (s : Scheduler)
      → Idle s
      → Idle (on_packet net p conn h m s).1
  on_packet-Idle conn h m s v =
      on_packet-kept Idle (λ m t w. w) (λ ws gs t w. w) net p conn h m s v
        (λ r. on_assign_task_resp-Idle r s v)

  -- A call of PushTask from outside the scheduler's own handlers.
  abbrev pub is_push : {s : Scheduler} {r : Bool × Scheduler} → Step net p s r → Bool
  is_push (pushes s task) = true
  is_push _ = false

  -- What a scheduler reaches where there is none.
  pub data Quiet (size : ℕ) : Scheduler → Type 0 where
    new : Quiet size (new_scheduler size)
    then_step :
        {s : Scheduler} {r : Bool × Scheduler}
        → Quiet size s
        → (step : Step net p s r) → is_push step ≡ false
        → Quiet size r.1

  poll-Idle : (s : Scheduler) (order : List ℕ) → Idle s → Idle (poll net p order s).1
  unfolding poll
  poll-Idle s order (none_queued, none_pending) =
      let nothing : ltb 0 (length s.task_chan) ≡ false = ground (arith, ap length none_queued) in
      rw nothing (none_queued, none_pending)

  Step-Idle :
      {s : Scheduler} {r : Bool × Scheduler} (step : Step net p s r)
      → is_push step ≡ false
      → Idle s
      → Idle r.1
  unfolding accept connect on_tick forget receive notice
  Step-Idle (accepts s remote) q v = managed (on_open remote) s v
  Step-Idle (forgets s id) q v = v
  Step-Idle (connects s addr) q v = managed (add_outgoing addr) s v
  Step-Idle (receives s conn h m u a) q v = on_packet-Idle conn h m s v
  Step-Idle (is_delivered s now conn h m u a) q v =
      delivered-kept Idle Idle (on_manager (with_peer conn (peer_on_packet now h m)) s)
        (on_packet net p conn) (managed (with_peer conn (peer_on_packet now h m)) s v) (λ t w. w)
        (on_packet-Idle conn)
  Step-Idle (notices s id) q v = v
  Step-Idle (ticks s order a) q v = managed (tick_all net p take_id order) s v
  Step-Idle (pushes s task) q v = absurd (ground arith)
  Step-Idle (polls s order w) q v = poll-Idle s order v

  -- In every state that a scheduler reaches from NewScheduler by accepting, closing and dialing
  -- connections, packets as the codec gives them over incoming and outgoing connection objects,
  -- rounds of the Loops of connections, ticks over the manager's table, and rounds of Loop over
  -- connections in the table of workers, but without a call of PushTask from elsewhere, there is no
  -- task in its channel and none pending.
  pub Quiet-Idle : (size : ℕ) (s : Scheduler) → Quiet size s → Idle s
  unfolding new_scheduler
  Quiet-Idle size s new = (refl, refl)
  Quiet-Idle size s (then_step {s = before} r step q) = Step-Idle step q (Quiet-Idle size before r)
