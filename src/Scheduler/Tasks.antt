-- ===== src/Scheduler/Tasks.antt =====
-- What becomes of a task: pushed, assigned, accepted or rejected.
use mini_ray.Scheduler.Kept.{handle_server_req-Keeps, ignore-Keeps}
use mini_ray.Base.{
  subst, sym, Option, length, ◌∷◌, List, some, refl, ℕ, none, ◌++◌, ◌≡◌, [], arith, false,
  if◌then◌else◌, ok, ltb, nat_eq, bytes_eq,
}
use mini_ray.Base.Maps.{lookup-insert_self, lookup-delete_self, lookup}
use mini_ray.Base.Safety.{Keeps, >>=-Keeps}
use mini_ray.Client.{Net}
use mini_ray.External.{Proto}
use mini_ray.Messages.{AssignTaskResponse}
use mini_ray.Scheduler.{
  Task, push_task, handle_server_req, request_of, on_assign_task_resp, Scheduler, assign_to,
  assign_task_of, requeue, assign_next,
}
use mini_ray.Peers.{ignore}

-- What is pending under the task's id once the task has been taken from the queue.
abbrev pub pending_after : Task → List ℕ → Scheduler → Option Task
pending_after t [] s = lookup t.id s.pending
pending_after t (conn ∷ order) s = some t

module _ (net : Net) (p : Proto) where
  -- The assignment so far: the task is pending, and the queue is what was behind it.
  abbrev Assigned : Task → List Task → Scheduler → Type 0
  Assigned t rest s = (lookup t.id s.pending ≡ some t) × (s.task_chan ≡ rest)

  request-Assigned :
      (t : Task) (rest : List Task) (conn : ℕ)
      → Keeps (Assigned t rest) (ignore (handle_server_req net p conn (request_of t)))
  request-Assigned t rest conn =
      ignore-Keeps (Assigned t rest) (λ m s v. v) _
        (handle_server_req-Keeps (Assigned t rest) (λ m s v. v) net p conn (request_of t))

  assign_to-Assigned :
      (t : Task) (rest : List Task) (order : List ℕ)
      → Keeps (Assigned t rest) (assign_to net p t order)
  unfolding assign_to
  assign_to-Assigned t rest [] s v = v
  assign_to-Assigned t rest (conn ∷ order) s (h, q) =
      >>=-Keeps (Assigned t rest) (ignore (handle_server_req net p conn (request_of t))) _
        (request-Assigned t rest conn) (λ _. assign_to-Assigned t rest order) _
        (lookup-insert_self t.id t s.pending, q)

  -- The first worker connection already makes the task pending.
  assign_to_first :
      (conn : ℕ) (order : List ℕ) (t : Task) (s : Scheduler)
      → Assigned t s.task_chan (assign_to net p t (conn ∷ order) s).1
  unfolding assign_to
  assign_to_first conn order t s =
      >>=-Keeps (Assigned t s.task_chan) (ignore (handle_server_req net p conn (request_of t))) _
        (request-Assigned t s.task_chan conn) (λ _. assign_to-Assigned t s.task_chan order) _
        (lookup-insert_self t.id t s.pending, refl)

  assign_next-accounts :
      (order : List ℕ) (t : Task) (rest : List Task) (s : Scheduler)
      → (lookup t.id (assign_next net p order (t ∷ rest) s).1.pending ≡ pending_after t order s)
        × ((assign_next net p order (t ∷ rest) s).1.task_chan ≡ rest)
  unfolding assign_next assign_to
  assign_next-accounts [] t rest s = (refl, refl)
  assign_next-accounts (conn ∷ order) t rest s =
      assign_to_first conn order t (record s { task_chan = rest })

  -- AssignTask on a queue that is not empty takes the oldest task off it, whatever comes of its
  -- sends. With a worker connection to visit, the task is pending afterwards; with none, it is in
  -- neither place, unless it was pending before.
  pub assign_task_of-accounts :
      (order : List ℕ) (t : Task) (rest : List Task) (s : Scheduler)
      → s.task_chan ≡ t ∷ rest
      → (lookup t.id (assign_task_of net p order s).1.pending ≡ pending_after t order s)
        × ((assign_task_of net p order s).1.task_chan ≡ rest)
  unfolding assign_task_of
  assign_task_of-accounts order t rest s e =
      subst
        (λ q.
          (lookup t.id (assign_next net p order q s).1.pending ≡ pending_after t order s)
          × ((assign_next net p order q s).1.task_chan ≡ rest))
        (sym e) (assign_next-accounts order t rest s)

  -- A rejected task that is pending is pending no more, and goes to the end of the queue if there
  -- is room; if there is none it is dropped. The handler reports no error either way.
  pub on_assign_task_resp-rejected :
      (r : AssignTaskResponse) (t : Task) (s : Scheduler)
      → r.accepted ≡ false
      → lookup r.task_id s.pending ≡ some t
      → ((on_assign_task_resp net p r s).0 ≡ ok tt)
        × (lookup r.task_id (on_assign_task_resp net p r s).1.pending ≡ none)
        × ((on_assign_task_resp net p r s).1.task_chan ≡ (
            if ltb (length s.task_chan) s.task_chan_size
            then s.task_chan ++ (t ∷ [])
            else s.task_chan))
  unfolding on_assign_task_resp requeue push_task
  on_assign_task_resp-rejected r t s denied found =
      ground (arith, lookup-delete_self r.task_id s.pending)
