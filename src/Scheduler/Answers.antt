-- ===== src/Scheduler/Answers.antt =====
-- Two workers that answer for one task: AssignTask of core/scheduler/scheduler.go sends a task to every
-- worker connection, and keeps one entry for it in pendingTasks.
use mini_ray.Base.{
  ok, ap, err, ◌<◌, false, [], true, task_not_found, some, length, ◌++◌, ◌≡◌, refl, ◌∙◌, ◌∷◌, arith,
  ltb, nat_eq, bytes_eq,
}
use mini_ray.Scheduler.{requeue, Scheduler, Task, on_assign_task_resp, push_task}
use mini_ray.Base.Maps.{lookup-delete_self, lookup}
use mini_ray.Client.{Net}
use mini_ray.External.{Proto}
use mini_ray.Messages.{AssignTaskResponse}

module _ (net : Net) (p : Proto) where
  accepted :
      (r : AssignTaskResponse) (s : Scheduler)
      → r.accepted ≡ true
      → ((on_assign_task_resp net p r s).0 ≡ ok tt)
        × ((on_assign_task_resp net p r s).1.task_chan ≡ s.task_chan)
  unfolding on_assign_task_resp
  accepted r s y = rw y (refl, refl)

  -- Once the task has been accepted, a refusal finds nothing.
  accepted_first :
      (yes_resp no_resp : AssignTaskResponse) (s : Scheduler)
      → yes_resp.accepted ≡ true
      → no_resp.accepted ≡ false
      → no_resp.task_id ≡ yes_resp.task_id
      → let first = on_assign_task_resp net p yes_resp s in
        on_assign_task_resp net p no_resp first.1 ≡ (err task_not_found, first.1)
  unfolding on_assign_task_resp requeue
  accepted_first yes_resp no_resp s y n e =
      rw (y, n, e, lookup-delete_self yes_resp.task_id s.pending) refl

  -- Once it has been refused, it is queued again, and an acceptance does not change that.
  refused_first :
      (yes_resp no_resp : AssignTaskResponse) (t : Task) (s : Scheduler)
      → yes_resp.accepted ≡ true
      → no_resp.accepted ≡ false
      → lookup no_resp.task_id s.pending ≡ some t
      → length s.task_chan < s.task_chan_size
      → let first = on_assign_task_resp net p no_resp s in
        let second = on_assign_task_resp net p yes_resp first.1 in
        (first.0 ≡ ok tt) × (second.0 ≡ ok tt) × (second.1.task_chan ≡ s.task_chan ++ (t ∷ []))
  unfolding on_assign_task_resp requeue push_task
  refused_first yes_resp no_resp t s y n e room =
      let open_chan : ltb (length s.task_chan) s.task_chan_size ≡ true = ground arith in
      rw (n, e, open_chan, y) (refl, refl, refl)

  -- A pending task has been sent to two workers, of which one accepts and one refuses it, and the
  -- task channel has room. If the acceptance comes first, it is taken without an error, and the
  -- refusal gives the error that the task is not found and leaves the channel as it is. If the
  -- refusal comes first, both are taken without an error, and the task, which a worker has
  -- accepted, is at the end of the channel again.
  pub on_assign_task_resp-order :
      (yes_resp no_resp : AssignTaskResponse) (t : Task) (s : Scheduler)
      → yes_resp.accepted ≡ true
      → no_resp.accepted ≡ false
      → no_resp.task_id ≡ yes_resp.task_id
      → lookup no_resp.task_id s.pending ≡ some t
      → length s.task_chan < s.task_chan_size
      → let answer = on_assign_task_resp net p in
        ((answer yes_resp s).0 ≡ ok tt)
        × ((answer no_resp (answer yes_resp s).1).0 ≡ err task_not_found)
        × ((answer no_resp (answer yes_resp s).1).1.task_chan ≡ s.task_chan)
        × ((answer no_resp s).0 ≡ ok tt)
        × ((answer yes_resp (answer no_resp s).1).0 ≡ ok tt)
        × ((answer yes_resp (answer no_resp s).1).1.task_chan ≡ s.task_chan ++ (t ∷ []))
  on_assign_task_resp-order yes_resp no_resp t s y n e found room =
      let (kept, quiet) = accepted yes_resp s y in
      let late = accepted_first yes_resp no_resp s y n e in
      let (a, b, c) = refused_first yes_resp no_resp t s y n found room in
      (kept, ap (λ r. r.0) late, ap (λ r. r.1.task_chan) late ∙ quiet, a, b, c)
