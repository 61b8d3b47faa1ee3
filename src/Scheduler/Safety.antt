-- ===== src/Scheduler/Safety.antt =====
-- No packet that the codec lets through makes the scheduler panic or block, and the task channel
-- never holds more than its capacity.
use mini_ray.Codec.Dispatch.{uri_of}
use mini_ray.Client.{Net}
use mini_ray.Codec.{Header}
use mini_ray.External.{Proto}
use mini_ray.Messages.{
  AssignTaskRequest, assign_task_resp, establish_req, establish_response, AssignTaskResponse,
  kind_of, as_assign_task_resp, as_establish_req, as_establish_response, EstablishResponse, Message,
}
use mini_ray.Base.{
  ap, ◌==◌, none, Option, Bool-cases, refl, length-append, inl, ltb, arith, gets, inr, modify, ◌∷◌,
  List, ℕ, length, true, [], All, ◌≡◌, GoString, some, nat_eq, bytes_eq,
}
use mini_ray.Base.Maps.{delete, lookup, insert}
use mini_ray.Base.Safety.{>>=-Safe, modify-Safe, Safe, returns}
use mini_ray.Peers.Alive.{IsAlive}
use mini_ray.Peers.{
  peer_notify_establish, ignore, peer_remote, peer_set_established, take_id, with_peer,
}
use mini_ray.Scheduler.{
  on_packet, request_of, handle_server_req, mode_worker, assign_to, assign_task_of,
  on_assign_task_resp, mode_gcs, on_establish, on_establish_ack, push_task, Scheduler, Task,
  on_manager, register, requeue, assign_next,
}
use mini_ray.Scheduler.Sound.{
  IsSound, Holds, on_peer-Safe, take_id-Safe, encode_then-Safe, inserted, ignore-Safe,
}

module _ (net : Net) (p : Proto) where
  abbrev Here : ℕ → Scheduler → Type 0
  Here conn = Holds (conn ∷ [])

  on_establish-Safe : (conn : ℕ) (h : Header) → Safe (Here conn) (on_establish net p conn h)
  unfolding on_establish
  on_establish-Safe conn h =
      >>=-Safe (Here conn) (on_manager (with_peer conn (modify peer_set_established))) _
        (on_peer-Safe (conn ∷ []) conn _ (λ c. refl) (λ s v. v.1.0))
        (λ _. encode_then-Safe (conn ∷ []) net p _ _ conn (λ s v. v.1.0))

  register-Holds :
      (conn mode : ℕ) (remote : GoString) (s : Scheduler)
      → Here conn s
      → Here conn (register net p conn mode remote s)
  unfolding register
  register-Holds conn mode remote s (v, h) = elim (Bool-cases (mode == mode_worker)) [
    | inl worker ↦ rw worker (
      record {
        bounded = v.bounded;
        workers = inserted remote conn s.worker_conns s.manager.heap v.workers h.0;
        gcs = v.gcs;
        filed = v.filed;
      },
      h,
    )
    | inr other ↦ elim (Bool-cases (mode == mode_gcs)) [
      | inl is_gcs ↦
          rw (other, is_gcs)
            (
              record {
                bounded = v.bounded;
                workers = v.workers;
                gcs = inserted remote conn s.gcs_conns s.manager.heap v.gcs h.0;
                filed = v.filed;
              },
              h,
            )
      | inr none_of_them ↦ rw (other, none_of_them) (v, h)
    ]
  ]

  on_establish_ack-Safe :
      (conn : ℕ) (r : EstablishResponse) → Safe (Here conn) (on_establish_ack net p conn r)
  unfolding on_establish_ack
  on_establish_ack-Safe conn r =
      >>=-Safe (Here conn) (on_manager (with_peer conn (gets peer_remote))) _
        (on_peer-Safe (conn ∷ []) conn _ (λ c. refl) (λ s v. v.1.0))
        (λ remote.
          >>=-Safe (Here conn) (modify (register net p conn r.mode remote)) _
            (modify-Safe (Here conn) _ (register-Holds conn r.mode remote))
            (λ _.
              on_peer-Safe (conn ∷ []) conn (modify peer_notify_establish) (λ c. refl)
                (λ s v. v.1.0)))

  pub push_task-Safe : (ids : List ℕ) (t : Task) → Safe (Holds ids) (push_task t)
  unfolding push_task
  push_task-Safe ids t s (v, h) = elim (Bool-cases (ltb (length s.task_chan) s.task_chan_size)) [
    | inl room ↦ rw room (
      (
        record {
          bounded = ground (arith, length-append s.task_chan (t ∷ []));
          workers = v.workers;
          gcs = v.gcs;
          filed = v.filed;
        },
        h,
      ),
      refl,
    )
    | inr full ↦ rw full ((v, h), refl)
  ]

  requeue-Safe :
      (ids : List ℕ) (id : GoString) (o : Option Task) → Safe (Holds ids) (requeue net p id o)
  unfolding requeue
  requeue-Safe ids id none s v = (v, refl)
  requeue-Safe ids id (some t) s v =
      ignore-Safe ids (push_task t) (push_task-Safe ids t)
        (record s { pending = delete id s.pending })
        (
          record { bounded = v.0.bounded; workers = v.0.workers; gcs = v.0.gcs; filed = v.0.filed },
          v.1,
        )

  on_assign_task_resp-Safe :
      (ids : List ℕ) (r : AssignTaskResponse) → Safe (Holds ids) (on_assign_task_resp net p r)
  unfolding on_assign_task_resp
  on_assign_task_resp-Safe ids r s v = elim (Bool-cases r.accepted) [
    | inl taken ↦ rw taken (
      (
        record { bounded = v.0.bounded; workers = v.0.workers; gcs = v.0.gcs; filed = v.0.filed },
        v.1,
      ),
      refl,
    )
    | inr rejected ↦ rw rejected (requeue-Safe ids r.task_id (lookup r.task_id s.pending) s v)
  ]

  handle_server_req-Safe :
      (ids : List ℕ) (conn : ℕ) (r : AssignTaskRequest)
      → ((s : Scheduler) → Holds ids s → IsAlive conn s.manager.heap)
      → Safe (Holds ids) (handle_server_req net p conn r)
  unfolding handle_server_req
  handle_server_req-Safe ids conn r alive =
      >>=-Safe (Holds ids) (on_manager take_id) _ (take_id-Safe ids)
        (λ id. encode_then-Safe ids net p _ _ conn alive)

  assign_to-Safe :
      (t : Task) (ids order : List ℕ)
      → ((s : Scheduler) → Holds ids s → All (λ id. IsAlive id s.manager.heap) order)
      → Safe (Holds ids) (assign_to net p t order)
  unfolding assign_to
  assign_to-Safe t ids [] alive s v = (v, refl)
  assign_to-Safe t ids (conn ∷ order) alive s v =
      >>=-Safe (Holds ids) (ignore (handle_server_req net p conn (request_of t))) _
        (ignore-Safe ids _ (handle_server_req-Safe ids conn (request_of t) (λ s v. (alive s v).0)))
        (λ _. assign_to-Safe t ids order (λ s v. (alive s v).1))
        (record s { pending = insert t.id t s.pending })
        (
          record { bounded = v.0.bounded; workers = v.0.workers; gcs = v.0.gcs; filed = v.0.filed },
          v.1,
        )

  -- AssignTask on a sound scheduler, over living worker connections, returns a value or an error,
  -- and leaves the scheduler sound.
  pub assign_task_of-IsSound :
      (order : List ℕ) (s : Scheduler)
      → IsSound s
      → All (λ id. IsAlive id s.manager.heap) order
      → IsSound (assign_task_of net p order s).1 × (returns (assign_task_of net p order s).0 ≡ true)
  unfolding assign_task_of
  assign_task_of-IsSound order s v h = go s.task_chan refl
    where
      go :
          (q : List Task)
          → s.task_chan ≡ q
          → IsSound (assign_next net p order q s).1
            × (returns (assign_next net p order q s).0 ≡ true)
      go [] e = (v, refl)
      go (task ∷ rest) e =
          let sound : IsSound (record s { task_chan = rest }) = record {
            bounded = omega (arith, ap length e, v.bounded);
            workers = v.workers;
            gcs = v.gcs;
            filed = v.filed;
          } in
          let (kept, back) =
            assign_to-Safe task order order (λ s v. v.1) (record s { task_chan = rest })
              (sound, h) in
          (kept.0, back)

  -- A scheduler with a connection object at hand takes every packet that the codec gives, neither
  -- panicking nor waiting, and stays sound.
  pub on_packet-Safe :
      (conn : ℕ) (h : Header) (m : Message)
      → h.uri ≡ uri_of (kind_of m)
      → Safe (Here conn) (on_packet net p conn h m)
  unfolding on_packet uri_of kind_of as_establish_req as_establish_response as_assign_task_resp
  on_packet-Safe conn h (establish_req r) u s v = rw u (on_establish-Safe conn h s v)
  on_packet-Safe conn h (establish_response r) u s v = rw u (on_establish_ack-Safe conn r s v)
  on_packet-Safe conn h (assign_task_resp r) u s v =
      rw u (on_assign_task_resp-Safe (conn ∷ []) r s v)
  on_packet-Safe conn h _ u s v = rw u (v, refl)
