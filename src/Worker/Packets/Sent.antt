-- ===== src/Worker/Packets/Sent.antt =====
-- What a worker sends over an incoming connection, exactly.
use mini_ray.Worker.Packets.Safety.{on_add_tow_int-stored}
use mini_ray.Worker.Tasks.{stored}
use mini_ray.Base.{
  Error, err, wrong_arg_num, ◌<◌, length, ◌≡◌, ◌∷◌, some, ok, List, codes, refl, false, [], ◌==◌, ℕ,
  arith, true, nat_eq, bytes_eq,
}
use mini_ray.Worker.{
  add_two, decode_args, add_decoded, add_tow_int_func, task_func_add_tow_int, resolve_args, Worker,
}
use mini_ray.Worker.Packets.{
  task_of, encode_error, payload_of, run_function, attempt, succeeds, lift, send_to, on_manager,
  on_assign_task, returned, on_establish,
}
use mini_ray.Base.Maps.{lookup-insert_self, lookup, insert}
use mini_ray.Client.{Net}
use mini_ray.Codec.{encode_payload, Header, ray_assign_task_resp, meta_establish_ack}
use mini_ray.External.{Proto}
use mini_ray.Frame.{make_frame}
use mini_ray.Messages.{assign_task_resp, EstablishReq, establish_response, AssignTaskRequest}
use mini_ray.Peers.{
  with_peer, inbound, peer_send, Connection, connection_send, peer_set_established, ignore,
}
use mini_ray.Scheduler.{mode_gcs, mode_worker}

-- A connection after a frame was handed to its transport.
abbrev pub with_frame : Connection → List ℕ → Connection
with_frame c frame = record c { outbox = frame ∷ c.outbox }

abbrev pub with_peer_at : ℕ → Connection → Worker → Worker
with_peer_at conn c w = record w {
  manager = record w.manager { heap = insert conn (inbound c) w.manager.heap };
}

module _ (net : Net) (p : Proto) (conn : ℕ) where
  -- Whether or not the transport takes it.
  pub send_to-inbound :
      (payload : List ℕ) (c : Connection) (w : Worker)
      → lookup conn w.manager.heap ≡ some (inbound c)
      → c.gnet_c ≡ true
      → ignore (send_to net p conn payload) w
        ≡ (ok tt, with_peer_at conn (with_frame c (make_frame payload)) w)
  unfolding send_to on_manager returned with_peer peer_send connection_send
  send_to-inbound payload c w e open_transport = rw e (ground arith)

  -- The transport takes it.
  send_to-taken :
      (payload : List ℕ) (c : Connection) (w : Worker)
      → lookup conn w.manager.heap ≡ some (inbound c)
      → c.gnet_c ≡ true
      → net c.id (make_frame payload ∷ c.outbox) ≡ true
      → send_to net p conn payload w
        ≡ (ok tt, with_peer_at conn (with_frame c (make_frame payload)) w)
  unfolding send_to on_manager returned with_peer peer_send connection_send
  send_to-taken payload c w e open_transport taken = rw e (ground arith)

  -- Establish from a node that is not the GCS is answered, and the connection is established.
  pub on_establish-answers :
      (h : Header) (req : EstablishReq) (inner : List ℕ) (c : Connection) (w : Worker)
      → (req.mode == mode_gcs) ≡ false
      → encode_payload p
          (record { uri = meta_establish_ack; seq_id = h.seq_id })
          (establish_response (record { mode = mode_worker; error = codes "OK" }))
        ≡ ok inner
      → lookup conn w.manager.heap ≡ some (inbound c)
      → c.gnet_c ≡ true
      → net c.id (make_frame inner ∷ c.outbox) ≡ true
      → on_establish net p conn h req w ≡ (
        ok tt,
        with_peer_at conn
            (with_frame (record c { established = true }) (make_frame inner))
            (with_peer_at conn (record c { established = true }) w),
      )
  unfolding on_establish on_manager returned with_peer peer_set_established lift
  on_establish-answers h req inner c w other enc e t taken =
      rw (e, other, enc)
        (send_to-taken inner (record c { established = true })
          (with_peer_at conn (record c { established = true }) w)
          (lookup-insert_self conn _ w.manager.heap) t taken)

  -- A request without arguments is answered: it is taken where its function is unknown.
  pub on_assign_task-answers :
      (now : ℕ) (h : Header) (req : AssignTaskRequest) (inner : List ℕ) (c : Connection)
      (w : Worker)
      → req.args ≡ []
      → (req.func_name == task_func_add_tow_int) ≡ false
      → encode_payload p
          (record { uri = ray_assign_task_resp; seq_id = h.seq_id })
          (assign_task_resp (record { accepted = true; worker_id = []; task_id = req.task_id }))
        ≡ ok inner
      → lookup conn w.manager.heap ≡ some (inbound c)
      → c.gnet_c ≡ true
      → on_assign_task net p now conn h req w
        ≡ (ok tt, with_peer_at conn (with_frame c (make_frame inner)) w)
  unfolding on_assign_task succeeds attempt run_function lift payload_of encode_error resolve_args
  on_assign_task-answers now h req inner c w none_given unknown enc e t =
      rw (none_given, unknown, enc, send_to-inbound inner c w e t) refl

  -- If the addition that a request asks for gives an error, its arguments resolved, room on the
  -- channel of results, the answer encodable and the sender an incoming connection with a gnet
  -- connection, the handler comes back without that error: it hands the sender an answer that
  -- rejects the task, and all the same stores 0 as the result and puts its id on the channel.
  pub on_assign_task-fails :
      (now : ℕ) (h : Header) (req : AssignTaskRequest) (args : List (List ℕ)) (x : Error)
      (inner : List ℕ) (c : Connection) (w : Worker)
      → resolve_args w req.args req.args_type ≡ ok args
      → (req.func_name == task_func_add_tow_int) ≡ true
      → add_tow_int_func (task_of req args) ≡ err x
      → length w.register_chan < w.register_chan_size
      → encode_payload p
          (record { uri = ray_assign_task_resp; seq_id = h.seq_id })
          (assign_task_resp (record { accepted = false; worker_id = []; task_id = req.task_id }))
        ≡ ok inner
      → lookup conn w.manager.heap ≡ some (inbound c)
      → c.gnet_c ≡ true
      → on_assign_task net p now conn h req w ≡ (
        ok tt,
        with_peer_at conn (with_frame c (make_frame inner)) (stored now (task_of req args) 0 w),
      )
  unfolding on_assign_task succeeds attempt run_function lift payload_of encode_error
  on_assign_task-fails now h req args x inner c w resolved known fails room enc e t =
      rw
        (
          resolved,
          known,
          on_add_tow_int-stored now (task_of req args) w room,
          fails,
          enc,
          send_to-inbound inner c (stored now (task_of req args) 0 w) e t,
        )
        refl

  -- The sum of no numbers is an error.
  pub on_assign_task-rejects :
      (now : ℕ) (h : Header) (req : AssignTaskRequest) (inner : List ℕ) (c : Connection)
      (w : Worker)
      → req.args ≡ []
      → (req.func_name == task_func_add_tow_int) ≡ true
      → length w.register_chan < w.register_chan_size
      → encode_payload p
          (record { uri = ray_assign_task_resp; seq_id = h.seq_id })
          (assign_task_resp (record { accepted = false; worker_id = []; task_id = req.task_id }))
        ≡ ok inner
      → lookup conn w.manager.heap ≡ some (inbound c)
      → c.gnet_c ≡ true
      → on_assign_task net p now conn h req w ≡ (
        ok tt,
        with_peer_at conn (with_frame c (make_frame inner)) (stored now (task_of req []) 0 w),
      )
  unfolding resolve_args add_tow_int_func add_decoded decode_args add_two
  on_assign_task-rejects now h req inner c w none_given known room enc e t =
      on_assign_task-fails now h req [] wrong_arg_num inner c w (rw none_given refl) known refl room
        enc e t
