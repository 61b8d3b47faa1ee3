-- ===== src/Scheduler/Drain.antt =====
-- The rounds of Loop of core/scheduler/scheduler.go, one after the other, without the sleeps between them.
use mini_ray.Base.{
  panics, ◌≡◌, err, sym, subst, Bool-cases, suc, GoString, blocks, some, inr, refl, ◌∷◌, length,
  List, ok, ap, ℕ, ◌∙◌, zero, inl, drop, ltb, [], pure, ◌>>◌, All, and_then, arith, true, Result, M,
  nat_eq, bytes_eq,
}
use mini_ray.Scheduler.{
  assign_next, request_of, handle_server_req, Scheduler, assign_task_of, assign_to, Task,
}
use mini_ray.Scheduler.Board.{Board, round, waits, Move, is_lost, takes_off}
use mini_ray.Scheduler.Board.Refine.{Step-Move}
use mini_ray.Scheduler.Kept.{handle_server_req-Keeps, ignore-Keeps}
use mini_ray.Scheduler.Node.{poll}
use mini_ray.Scheduler.Reach.{next, polls, Workers, Reach-Step, Reach}
use mini_ray.Base.Maps.{insert, lookup, Map}
use mini_ray.Base.Safety.{returns, Keeps, >>=-Keeps}
use mini_ray.Client.{Net}
use mini_ray.External.{Proto}
use mini_ray.Peers.{ignore, ignore_result}

module _ (net : Net) (p : Proto) where
  -- As many rounds as there are orders in which the connections are visited.
  unfoldable pub loop_rounds : List (List ℕ) → M Scheduler (Unit {0})
  loop_rounds [] = pure tt
  loop_rounds (order ∷ orders) = poll net p order >> loop_rounds orders

  -- On the board a round takes the oldest task off the queue, if there is one.
  round-queue : {a b : Board} → Move round a b → b.queue ≡ drop 1 a.queue
  round-queue (waits b e) = e ∙ sym (ap (drop 1) e)
  round-queue (takes_off b t rest e) = sym (ap (drop 1) e)
  round-queue (is_lost b t rest e) = sym (ap (drop 1) e)

  assign_to-table :
      (table : Map GoString ℕ) (t : Task) (order : List ℕ)
      → Keeps (λ (s : Scheduler). s.worker_conns ≡ table) (assign_to net p t order)
  unfolding assign_to
  assign_to-table table t [] = λ s v. v
  assign_to-table table t (conn ∷ order) = λ s v.
      >>=-Keeps (λ (s : Scheduler). s.worker_conns ≡ table)
        (ignore (handle_server_req net p conn (request_of t))) _
        (ignore-Keeps (λ (s : Scheduler). s.worker_conns ≡ table) (λ m s v. v) _
          (handle_server_req-Keeps (λ (s : Scheduler). s.worker_conns ≡ table) (λ m s v. v) net p
            conn (request_of t)))
        (λ _. assign_to-table table t order) (record s { pending = insert t.id t s.pending }) v

  poll-table :
      (order : List ℕ) (s : Scheduler) → (poll net p order s).1.worker_conns ≡ s.worker_conns
  unfolding poll assign_task_of assign_next
  poll-table order s = elim (Bool-cases (ltb 0 (length s.task_chan))) [
    | inl some_task ↦ rw some_task (ignored order s.task_chan)
    | inr no_task ↦ rw no_task refl
  ]
    where
      ignored :
          (order : List ℕ) (queue : List Task)
          → (ignore (λ s. assign_next net p order queue s) s).1.worker_conns ≡ s.worker_conns
      ignored order [] = refl
      ignored order (t ∷ rest) =
          ignore-Keeps (λ (u : Scheduler). u.worker_conns ≡ s.worker_conns) (λ m u v. v)
            (λ u. assign_to net p t order (record u { task_chan = rest }))
            (λ u v. assign_to-table s.worker_conns t order (record u { task_chan = rest }) v) s refl

  -- A round that comes back gives no error.
  poll-ok :
      (order : List ℕ) (s : Scheduler)
      → returns (poll net p order s).0 ≡ true
      → (poll net p order s).0 ≡ ok tt
  unfolding poll
  poll-ok order s back = elim (Bool-cases (ltb 0 (length s.task_chan))) [
    | inl some_task ↦ rw some_task (go (assign_task_of net p order s) (rw some_task at back))
    | inr no_task ↦ rw no_task refl
  ]
    where
      go :
          (r : Result (Unit {0}) × Scheduler)
          → returns (ignore_result r).0 ≡ true
          → (ignore_result r).0 ≡ ok tt
      go (ok u, s) h = refl
      go (err e, s) h = refl
      go (panics x, s) h = absurd (ground arith)
      go (blocks, s) h = absurd (ground arith)

  drop-drop : (n : ℕ) (queue : List Task) → drop n (drop 1 queue) ≡ drop (suc n) queue
  drop-drop zero [] = refl
  drop-drop (suc n) [] = refl
  drop-drop n (t ∷ queue) = refl

  carried :
      (orders : List (List ℕ)) (s u : Scheduler)
      → u.worker_conns ≡ s.worker_conns
      → All (Workers s) orders
      → All (Workers u) orders
  carried orders s u e h =
      subst
        (λ (t : Map GoString ℕ).
          All (λ order. All (λ id. (k : GoString) × (lookup k t ≡ some id)) order) orders)
        (sym e) h

  -- From every state that a scheduler reaches, with orders of visits over connections in its table
  -- of workers, as many rounds of Loop as there are orders come back without an error and take the
  -- oldest tasks off the queue, one a round as long as there are any.
  pub loop_rounds-drains :
      (size : ℕ) (orders : List (List ℕ)) (s : Scheduler)
      → Reach net p size s
      → All (Workers s) orders
      → ((loop_rounds orders s).0 ≡ ok tt)
        × ((loop_rounds orders s).1.task_chan ≡ drop (length orders) s.task_chan)
  unfolding loop_rounds
  loop_rounds-drains size [] s r h = (refl, refl)
  loop_rounds-drains size (order ∷ orders) s r (here, h) =
      let step = polls s order here in
      let back = poll-ok order s (Reach-Step net p size s _ r step).1 in
      let (done_ok, left) =
        loop_rounds-drains size orders (poll net p order s).1 (next r step)
          (carried orders s (poll net p order s).1 (poll-table order s) h) in
      (
        ap (λ r. r.0) (on (poll net p order s) back) ∙ done_ok,
        ap (λ r. r.1.task_chan) (on (poll net p order s) back)
            ∙ left
            ∙ ap (drop (length orders)) (round-queue (Step-Move net p step))
            ∙ drop-drop (length orders) s.task_chan,
      )
    where
      on :
          (r : Result (Unit {0}) × Scheduler)
          → r.0 ≡ ok tt
          → and_then r (λ _. loop_rounds orders) ≡ loop_rounds orders r.1
      on (ok u, n) h = refl
      on (err x, n) h = cc
      on (panics x, n) h = cc
      on (blocks, n) h = cc
