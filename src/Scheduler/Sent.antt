-- ===== src/Scheduler/Sent.antt =====
-- What a scheduler sends and receives over an outgoing connection, exactly.
use mini_ray.Client.Packets.Sent.{on_packet_ack, send-open, on_packet_assigned, with_frame}
use mini_ray.Base.{
  arith, recovered, GoString, [], ◌+◌, if◌then◌else◌, List, refl, ℕ, false, ◌^◌, write_failed, ◌∷◌,
  pure, ◌≡◌, err, ok, ap, and_then, codes, true, Bool, ◌∙◌, some, ◌%◌, nat_eq, bytes_eq,
}
use mini_ray.Scheduler.{
  requeue, push_task, register, returned, assign_next, Task, handle_server_req, on_manager,
  on_establish_ack, Scheduler, mode_worker, assign_task_of, assign_to, lift, send_to, on_packet,
  on_assign_task_resp, request_of,
}
use mini_ray.Scheduler.Node.{receive}
use mini_ray.Base.Maps.{lookup-insert_self, insert, lookup}
use mini_ray.Client.{set_established, hour, Net, Client}
use mini_ray.Codec.{ray_assign_task, meta_establish_ack, ray_assign_task_resp, encode_payload}
use mini_ray.External.{Proto}
use mini_ray.Frame.{make_frame}
use mini_ray.Messages.{
  as_assign_task_resp, as_establish_response, establish_response, assign_task_resp,
  AssignTaskResponse, assign_task,
}
use mini_ray.Peers.{
  peer_remote, peer_notify_establish, with_peer, outbound, peer_send, take_id, ignore_result,
}
use mini_ray.Peers.Deliver.{peer_on_packet}

abbrev pub with_client_at : ℕ → Client → Scheduler → Scheduler
with_client_at k d s = record s {
  manager = record s.manager { heap = insert k (outbound d) s.manager.heap };
}

module _ (net : Net) (p : Proto) (k : ℕ) where
  ignored :
      (b : Bool) (s : Scheduler)
      → ignore_result ((if b then ok tt else err write_failed), s) ≡ (ok tt, s)
  ignored true s = refl
  ignored false s = refl

  send_to-open :
      (payload : List ℕ) (h : ℕ) (d : Client) (s : Scheduler)
      → lookup k s.manager.heap ≡ some (outbound d)
      → d.raw_conn ≡ some h
      → d.established ≡ true
      → send_to net p k payload s ≡ (
        if net d.id (make_frame payload ∷ d.outbox) then ok tt else err write_failed,
        with_client_at k (with_frame d (make_frame payload)) s,
      )
  unfolding send_to on_manager returned with_peer peer_send
  send_to-open payload h d s e raw est = rw (e, send-open net payload h d raw est) refl

  -- The oldest task goes to the one worker as a request, whether or not the transport takes it, and
  -- is pending.
  pub assign_task_of-sends :
      (t : Task) (rest : List Task) (inner : List ℕ) (h : ℕ) (d : Client) (s : Scheduler)
      → s.task_chan ≡ t ∷ rest
      → encode_payload p
          (record { uri = ray_assign_task; seq_id = (s.manager.next_id + 1) % 2 ^ 64 })
          (assign_task (request_of t))
        ≡ ok inner
      → lookup k s.manager.heap ≡ some (outbound d)
      → d.raw_conn ≡ some h
      → d.established ≡ true
      → assign_task_of net p (k ∷ []) s ≡ (
        ok tt,
        with_client_at k (with_frame d (make_frame inner)) (record s {
          task_chan = rest;
          pending = insert t.id t s.pending;
          manager = record s.manager { next_id = (s.manager.next_id + 1) % 2 ^ 64 };
        }),
      )
  unfolding assign_task_of assign_next assign_to handle_server_req on_manager returned take_id lift
  assign_task_of-sends t rest inner h d s q enc e raw est =
      let taken : Scheduler = record s {
        task_chan = rest;
        pending = insert t.id t s.pending;
        manager = record s.manager { next_id = (s.manager.next_id + 1) % 2 ^ 64 };
      } in
      ap (λ c. assign_next net p (k ∷ []) c s) q
      ∙ ap
          (λ r.
            and_then (ignore_result (and_then (r, taken) (λ payload. send_to net p k payload)))
              (λ _. pure tt))
          enc
      ∙ ap (λ r. and_then (ignore_result r) (λ _. pure tt)) (send_to-open inner h d taken e raw est)
      ∙ ap (λ r. and_then r (λ _. pure tt)) (ignored _ _)

  on_establish_ack-files :
      (error : GoString) (d : Client) (s : Scheduler)
      → lookup k s.manager.heap ≡ some (outbound d)
      → on_establish_ack net p k (record { mode = mode_worker; error = error }) s ≡ (
        ok tt,
        with_client_at k
            (record d { established = true })
            (with_client_at k d (record s { worker_conns = insert d.endpoint k s.worker_conns })),
      )
  unfolding on_establish_ack on_manager returned with_peer register peer_remote
      peer_notify_establish set_established
  on_establish_ack-files error d s e = rw (e, lookup-insert_self k (outbound d) s.manager.heap) refl

  -- The answer of a worker to Establish: the connection is filed as one of a worker.
  pub receive-establish_ack :
      (now seq : ℕ) (d : Client) (s : Scheduler)
      → lookup k s.manager.heap ≡ some (outbound d)
      → let (r, s') =
          receive net p now k
            (record { uri = meta_establish_ack; seq_id = seq })
            (establish_response (record { mode = mode_worker; error = codes "OK" }))
            s in
        (r ≡ ok tt)
        × (lookup d.endpoint s'.worker_conns ≡ some k)
        × (lookup k s'.manager.heap
            ≡ some (
                outbound (record d {
                  last_recv = now;
                  next_dial = now + hour;
                  established = true;
                  failure = 0;
                })))
  unfolding receive on_manager returned with_peer peer_on_packet on_packet as_establish_response
  receive-establish_ack now seq d s e =
      let d' : Client = record d {
        last_recv = now;
        next_dial = now + hour;
        established = true;
        failure = 0;
      } in
      rw
        (
          e,
          on_packet_ack now seq mode_worker d,
          on_establish_ack-files (codes "OK") d' (with_client_at k d' s)
              (lookup-insert_self k (outbound d') s.manager.heap),
        )
        (refl, lookup-insert_self d.endpoint k s.worker_conns, lookup-insert_self k (outbound d') _)

  on_assign_task_resp-recovered :
      (r : AssignTaskResponse) (s : Scheduler)
      → recovered (on_assign_task_resp net p r s) ≡ on_assign_task_resp net p r s
  unfolding on_assign_task_resp requeue push_task
  on_assign_task_resp-recovered r s = ground arith

  -- The answer of a worker to a request reaches the handler of answers.
  pub receive-assign_task_resp :
      (now seq : ℕ) (r : AssignTaskResponse) (d : Client) (s : Scheduler)
      → lookup k s.manager.heap ≡ some (outbound d)
      → d.established ≡ true
      → receive net p now k
          (record { uri = ray_assign_task_resp; seq_id = seq })
          (assign_task_resp r)
          s
        ≡ on_assign_task_resp net p r
            (with_client_at k (record d { last_recv = now; next_dial = now + hour }) s)
  unfolding receive on_manager returned with_peer peer_on_packet on_packet as_assign_task_resp
  receive-assign_task_resp now seq r d s e est =
      rw (e, on_packet_assigned now seq (assign_task_resp r) d est)
        (on_assign_task_resp-recovered r
          (with_client_at k (record d { last_recv = now; next_dial = now + hour }) s))
