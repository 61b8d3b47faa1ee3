-- ===== src/Scheduler/Kept.antt =====
-- What a packet leaves alone: a property of a scheduler that looks neither at its manager nor at its
-- tables of connections is kept by every handler but the one of an answer to a request.
use mini_ray.Base.{
  panics, gets, some, Option, Result, inl, ok, ℕ, List, GoString, ◌>>=◌, ◌==◌, M, Bool-cases,
  blocks, err, inr, none, modify, nat_eq, bytes_eq,
}
use mini_ray.Scheduler.{
  register, on_establish, lift, on_packet, on_establish_ack, mode_gcs, on_manager,
  handle_server_req, send_to, on_assign_task_resp, Scheduler, mode_worker, returned,
}
use mini_ray.Base.Maps.{insert, Map}
use mini_ray.Base.Safety.{>>=-Keeps, result-Keeps, Keeps}
use mini_ray.Client.{Net}
use mini_ray.Codec.{
  ray_assign_task_resp, meta_establish_ack, meta_shake_hand, meta_establish, Header,
}
use mini_ray.External.{Proto}
use mini_ray.Messages.{
  AssignTaskRequest, AssignTaskResponse, as_establish_req, as_establish_response, Message,
  as_assign_task_resp, EstablishResponse,
}
use mini_ray.Peers.{
  peer_remote, peer_notify_establish, with_peer, ignore, ignore_result, peer_send, deref, take_id,
  peer_set_established, Manager,
}

module _ {ℓ} (P : Scheduler → Type ℓ)
    (kept : (m : Manager) (s : Scheduler) → P s → P (record s { manager = m })) where
  pub on_manager-Keeps : {A : Type 0} (f : M Manager A) → Keeps P (on_manager f)
  unfolding on_manager returned
  on_manager-Keeps f s v = kept (f s.manager).1 s v

  send_to-Keeps :
      (net : Net) (p : Proto) (conn : ℕ) (payload : List ℕ) → Keeps P (send_to net p conn payload)
  unfolding send_to
  send_to-Keeps net p conn payload = on_manager-Keeps (with_peer conn (peer_send net payload))

  encoded-Keeps :
      (net : Net) (p : Proto) (conn : ℕ) (r : Result (List ℕ))
      → Keeps P (lift r >>= send_to net p conn)
  unfolding lift
  encoded-Keeps net p conn r =
      >>=-Keeps P (λ s. (r, s)) (send_to net p conn) (result-Keeps P r) (send_to-Keeps net p conn)

  pub ignore-Keeps : (m : M Scheduler (Unit {0})) → Keeps P m → Keeps P (ignore m)
  ignore-Keeps m h s v = go (m s) (h s v)
    where
      go : (r : Result (Unit {0}) × Scheduler) → P r.1 → P (ignore_result r).1
      go (ok u, s) l = l
      go (err e, s) l = l
      go (panics x, s) l = l
      go (blocks, s) l = l

  pub handle_server_req-Keeps :
      (net : Net) (p : Proto) (conn : ℕ) (r : AssignTaskRequest)
      → Keeps P (handle_server_req net p conn r)
  unfolding handle_server_req
  handle_server_req-Keeps net p conn r =
      >>=-Keeps P (on_manager take_id) _ (on_manager-Keeps take_id)
        (λ id. encoded-Keeps net p conn _)

  on_establish-Keeps :
      (net : Net) (p : Proto) (conn : ℕ) (h : Header) → Keeps P (on_establish net p conn h)
  unfolding on_establish
  on_establish-Keeps net p conn h =
      >>=-Keeps P (on_manager (with_peer conn (modify peer_set_established))) _
        (on_manager-Keeps (with_peer conn (modify peer_set_established)))
        (λ _. encoded-Keeps net p conn _)

  module _
      (filed : (workers gcs : Map GoString ℕ) (s : Scheduler)
        → P s
        → P (record s { worker_conns = workers; gcs_conns = gcs })) where
    register-Keeps :
        (net : Net) (p : Proto) (conn mode : ℕ) (remote : GoString) (s : Scheduler)
        → P s
        → P (register net p conn mode remote s)
    unfolding register
    register-Keeps net p conn mode remote s v = elim (Bool-cases (mode == mode_worker)) [
      | inl w ↦ rw w (filed (insert remote conn s.worker_conns) s.gcs_conns s v)
      | inr w ↦ elim (Bool-cases (mode == mode_gcs)) [
        | inl g ↦ rw (w, g) (filed s.worker_conns (insert remote conn s.gcs_conns) s v)
        | inr g ↦ rw (w, g) v
      ]
    ]

    on_establish_ack-Keeps :
        (net : Net) (p : Proto) (conn : ℕ) (r : EstablishResponse)
        → Keeps P (on_establish_ack net p conn r)
    unfolding on_establish_ack
    on_establish_ack-Keeps net p conn r =
        >>=-Keeps P (on_manager (with_peer conn (gets peer_remote))) _
          (on_manager-Keeps (with_peer conn (gets peer_remote)))
          (λ remote s v.
            on_manager-Keeps (with_peer conn (modify peer_notify_establish)) _
              (register-Keeps net p conn r.mode remote s v))

    -- `deref` leaves the state as it is.
    deref-kept :
        {A B : Type 0} (o : Option A) (f : A → M Scheduler B) (s : Scheduler)
        → P s
        → ((a : A) → P (f a s).1)
        → P ((deref o >>= f) s).1
    deref-kept none f s v h = v
    deref-kept (some a) f s v h = h a

    pub on_packet-kept :
        (net : Net) (p : Proto) (conn : ℕ) (h : Header) (m : Message) (s : Scheduler)
        → P s
        → ((r : AssignTaskResponse) → P (on_assign_task_resp net p r s).1)
        → P (on_packet net p conn h m s).1
    unfolding on_packet
    on_packet-kept net p conn h m s v answer = elim (Bool-cases (h.uri == meta_establish)) [
      | inl a ↦
          rw a (deref-kept (as_establish_req m) _ s v (λ _. on_establish-Keeps net p conn h s v))
      | inr a ↦ elim (Bool-cases (h.uri == meta_establish_ack)) [
        | inl b ↦
            rw (a, b)
              (deref-kept (as_establish_response m) _ s v
                (λ r. on_establish_ack-Keeps net p conn r s v))
        | inr b ↦ elim (Bool-cases (h.uri == meta_shake_hand)) [
          | inl c ↦ rw (a, b, c) v
          | inr c ↦ elim (Bool-cases (h.uri == ray_assign_task_resp)) [
            | inl d ↦ rw (a, b, c, d) (deref-kept (as_assign_task_resp m) _ s v answer)
            | inr d ↦ rw (a, b, c, d) v
          ]
        ]
      ]
    ]
