-- ===== src/Cluster/Trip.antt =====
-- A task without arguments, from the scheduler's queue to a worker and back: AssignTask of
-- core/scheduler, onAssignTask of core/worker, onAssignTaskResp of core/scheduler.
use mini_ray.Cluster.{packet_of-IsSent, returned_ok, packet_of}
use mini_ray.Codec.Dispatch.{uri_of}
use mini_ray.Traffic.Stream.{serve-one}
use mini_ray.Scheduler.Node.{receive}
use mini_ray.Scheduler.Sent.{with_client_at, assign_task_of-sends, receive-assign_task_resp}
use mini_ray.Traffic.{done, serve, stay}
use mini_ray.Traffic.Bytes.{seen}
use mini_ray.Scheduler.Tasks.{on_assign_task_resp-rejected}
use mini_ray.Base.{
  arith, ◌∙◌, ltb, false, refl, if◌then◌else◌, true, ok, ◌%◌, [], length, List, none, ◌++◌, ◌<◌, ℕ,
  ◌∷◌, ◌+◌, not, ◌^◌, some, ◌≡◌, Bool, ◌==◌, nat_eq, bytes_eq,
}
use mini_ray.Base.Maps.{lookup-insert_self, insert, lookup-delete_self, lookup}
use mini_ray.Client.{hour, Client, Net}
use mini_ray.Worker.Packets.Sent.{with_frame, on_assign_task-answers, on_assign_task-rejects}
use mini_ray.Codec.{ray_assign_task, encode_payload, ray_assign_task_resp, Header}
use mini_ray.External.{Reader, Proto}
use mini_ray.Frame.{make_frame}
use mini_ray.Messages.{
  kind_of, as_assign_task, Message, assign_task, assign_task_resp, AssignTaskResponse,
}
use mini_ray.Peers.{outbound, Connection, inbound}
use mini_ray.Scheduler.{assign_task_of, request_of, Scheduler, Task, on_assign_task_resp}
use mini_ray.Worker.{Worker, task_func_add_tow_int}
use mini_ray.Worker.Packets.{task_of, on_assign_task, on_packet}
use mini_ray.Worker.Packets.Sent.{with_peer_at}
use mini_ray.Worker.Tasks.{stored}

-- The worker's answer: it takes the functions that it does not know.
abbrev pub takes : Task → Bool
takes t = not (t.func_name == task_func_add_tow_int)

-- The header of the next request and of its answer.
abbrev pub next_header : ℕ → Scheduler → Header
next_header uri s = record { uri = uri; seq_id = (s.manager.next_id + 1) % 2 ^ 64 }

abbrev pub answer_to : Task → Message
answer_to t = assign_task_resp (record { accepted = takes t; worker_id = []; task_id = t.id })

-- The scheduler once a task was sent over connection k.
abbrev pub assigned : ℕ → List ℕ → Task → List Task → Client → Scheduler → Scheduler
assigned k body t rest d s =
    with_client_at k (record d { outbox = make_frame body ∷ d.outbox })
      (record s {
        task_chan = rest;
        pending = insert t.id t s.pending;
        manager = record s.manager { next_id = (s.manager.next_id + 1) % 2 ^ 64 };
      })

objects-if :
    (b : Bool) (w w' : Worker)
    → (if b then w else w').objects ≡ (if b then w.objects else w'.objects)
objects-if true w w' = refl
objects-if false w w' = refl

module _ (net : Net) (p : Proto) where
  worker_answers :
      (b : Bool) (now conn : ℕ) (h : Header) (t : Task) (answer : List ℕ) (c : Connection)
      (w : Worker)
      → takes t ≡ b
      → t.args ≡ []
      → length w.register_chan < w.register_chan_size
      → encode_payload p
          (record { uri = ray_assign_task_resp; seq_id = h.seq_id })
          (assign_task_resp (record { accepted = b; worker_id = []; task_id = t.id }))
        ≡ ok answer
      → lookup conn w.manager.heap ≡ some (inbound c)
      → c.gnet_c ≡ true
      → on_assign_task net p now conn h (request_of t) w ≡ (
        ok tt,
        with_peer_at conn
            (with_frame c (make_frame answer))
            (if b then w else stored now (task_of (request_of t) []) 0 w),
      )
  unfolding request_of
  worker_answers true now conn h t answer c w e none_given room enc here open_transport =
      on_assign_task-answers net p conn now h (request_of t) answer c w none_given (ground arith)
        enc here open_transport
  worker_answers false now conn h t answer c w e none_given room enc here open_transport =
      on_assign_task-rejects net p conn now h (request_of t) answer c w none_given (ground arith)
        room enc here open_transport

  settles :
      (b : Bool) (t : Task) (rest : List Task) (s : Scheduler)
      → s.task_chan ≡ rest
      → lookup t.id s.pending ≡ some t
      → length rest < s.task_chan_size
      → let (r, s') =
          on_assign_task_resp net p (record { accepted = b; worker_id = []; task_id = t.id }) s in
        (r ≡ ok tt)
        × (lookup t.id s'.pending ≡ none)
        × (s'.task_chan ≡ (if b then rest else rest ++ (t ∷ [])))
  unfolding on_assign_task_resp
  settles true t rest s q found room = (refl, lookup-delete_self t.id s.pending, q)
  settles false t rest s q found room =
      let (r, gone, queue) =
        on_assign_task_resp-rejected net p
          (record { accepted = false; worker_id = []; task_id = t.id }) t s refl found in
      let roomy : ltb (length s.task_chan) s.task_chan_size ≡ true = ground arith in
      (r, gone, queue ∙ rw (roomy, q) refl)

  serve-request :
      {C : Type 0} (g : Reader C) (input : C) (now conn seq : ℕ) (body answer : List ℕ) (t : Task)
      (c : Connection) (w : Worker)
      → t.args ≡ []
      → seq < 2 ^ 64
      → encode_payload p
          (record { uri = ray_assign_task; seq_id = seq })
          (assign_task (request_of t))
        ≡ ok body
      → length body < 2 ^ 32
      → encode_payload p (record { uri = ray_assign_task_resp; seq_id = seq }) (answer_to t)
        ≡ ok answer
      → g.inbound input ≡ make_frame body
      → lookup conn w.manager.heap ≡ some (inbound c)
      → c.gnet_c ≡ true
      → length w.register_chan < w.register_chan_size
      → seen g.inbound (serve g p (on_packet net p now conn) input w)
        ≡ done stay [] (
            with_peer_at conn
              (with_frame c (make_frame answer))
              (if takes t then w else stored now (task_of (request_of t) []) 0 w))
  unfolding on_packet as_assign_task
  serve-request g input now conn seq body answer t c w none_given small enc fits enc' e there
        open_transport room =
      let hd : Header = record { uri = ray_assign_task; seq_id = seq } in
      serve-one g p (on_packet net p now conn) input
        (packet_of hd (assign_task (request_of t)) body) w _
        (packet_of-IsSent p hd (assign_task (request_of t)) body (unfold kind_of uri_of in refl)
          small enc fits)
        e
        (worker_answers (takes t) now conn hd t answer c w refl none_given room enc' there
          open_transport)

  serve-answer :
      {D : Type 0} (g : Reader D) (reply : D) (now k seq : ℕ) (answer : List ℕ) (t : Task)
      (rest : List Task) (d : Client) (s : Scheduler)
      → s.task_chan ≡ rest
      → lookup t.id s.pending ≡ some t
      → length rest < s.task_chan_size
      → seq < 2 ^ 64
      → encode_payload p (record { uri = ray_assign_task_resp; seq_id = seq }) (answer_to t)
        ≡ ok answer
      → length answer < 2 ^ 32
      → lookup k s.manager.heap ≡ some (outbound d)
      → d.established ≡ true
      → g.inbound reply ≡ make_frame answer
      → (s' : Scheduler) × (seen g.inbound (serve g p (receive net p now k) reply s)
          ≡ done stay [] s')
        × (lookup t.id s'.pending ≡ none)
        × (s'.task_chan ≡ (if takes t then rest else rest ++ (t ∷ [])))
  serve-answer g reply now k seq answer t rest d s q found room small enc fits here est e =
      let hd : Header = record { uri = ray_assign_task_resp; seq_id = seq } in
      let resp : AssignTaskResponse = record {
        accepted = takes t;
        worker_id = [];
        task_id = t.id;
      } in
      let s1 : Scheduler =
        with_client_at k (record d { last_recv = now; next_dial = now + hour }) s in
      let (r, gone, queue) = settles (takes t) t rest s1 q found room in
      (
        (on_assign_task_resp net p resp s1).1,
        serve-one g p (receive net p now k) reply (packet_of hd (answer_to t) answer) s _
            (packet_of-IsSent p hd (answer_to t) answer (unfold kind_of uri_of in refl) small enc
              fits)
            e (receive-assign_task_resp net p k now seq resp d s here est ∙ returned_ok r),
        gone,
        queue,
      )

  -- The oldest task of a scheduler has no arguments, and there is one connection to a worker, ready
  -- at both ends, with room in the queues of both; the request and the answer can be encoded, in
  -- less than 2^32 bytes each; the worker has the frame of the request in its buffer and nothing
  -- else, and then the scheduler the frame of the answer. Then AssignTask hands exactly one frame,
  -- the request, to the connection, and makes the task pending; OnTraffic of the worker ends with
  -- gnet.None and nothing left over, and has handed exactly one frame, the answer, to its
  -- connection; and OnTraffic over the connection of the scheduler ends the same way, and the task
  -- is pending no more. If its function is addTowInt, the worker has stored the sum 0, and the task
  -- is the last of the queue again; if it is any other, the worker has stored nothing, and the task
  -- is gone from the queue.
  pub trip :
      {C D : Type 0} (g : Reader C) (g' : Reader D) (input : C) (reply : D) (now now' h conn k : ℕ)
      (body answer : List ℕ) (t : Task) (rest : List Task) (d : Client) (c : Connection)
      (w : Worker) (s : Scheduler)
      → s.task_chan ≡ t ∷ rest
      → t.args ≡ []
      → encode_payload p (next_header ray_assign_task s) (assign_task (request_of t)) ≡ ok body
      → length body < 2 ^ 32
      → encode_payload p (next_header ray_assign_task_resp s) (answer_to t) ≡ ok answer
      → length answer < 2 ^ 32
      → lookup k s.manager.heap ≡ some (outbound d)
      → d.raw_conn ≡ some h
      → d.established ≡ true
      → length rest < s.task_chan_size
      → g.inbound input ≡ make_frame body
      → lookup conn w.manager.heap ≡ some (inbound c)
      → c.gnet_c ≡ true
      → length w.register_chan < w.register_chan_size
      → g'.inbound reply ≡ make_frame answer
      → (assign_task_of net p (k ∷ []) s ≡ (ok tt, assigned k body t rest d s))
        × ((w' : Worker) × (seen g.inbound (serve g p (on_packet net p now conn) input w)
              ≡ done stay [] w')
            × (lookup conn w'.manager.heap
                ≡ some (inbound (record c { outbox = make_frame answer ∷ c.outbox })))
            × (w'.objects ≡ (
                if takes t
                then w.objects
                else (stored now (task_of (request_of t) []) 0 w).objects)))
        × ((s' : Scheduler) × (seen g'.inbound
                (serve g' p (receive net p now' k) reply (assigned k body t rest d s))
              ≡ done stay [] s')
            × (lookup t.id s'.pending ≡ none)
            × (s'.task_chan ≡ (if takes t then rest else rest ++ (t ∷ []))))
  trip g g' input reply now now' h conn k body answer t rest d c w s q none_given enc fits enc'
        fits' here raw est room e there open_transport room' e' =
      (
        assign_task_of-sends net p k t rest body h d s q enc here raw est,
        (
          _,
          serve-request g input now conn ((s.manager.next_id + 1) % 2 ^ 64) body answer t c w
              none_given (omega arith) enc fits enc' e there open_transport room',
          lookup-insert_self conn _ _,
          objects-if (takes t) w _,
        ),
        serve-answer g' reply now' k ((s.manager.next_id + 1) % 2 ^ 64) answer t rest
            (record d { outbox = make_frame body ∷ d.outbox }) (assigned k body t rest d s) refl
            (lookup-insert_self t.id t s.pending) room (omega arith) enc' fits'
            (lookup-insert_self k _ s.manager.heap) est e',
      )
