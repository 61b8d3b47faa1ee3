-- ===== src/Scheduler.antt =====
-- core/scheduler/scheduler.go and core/scheduler/connection_manger.go. `task_chan` is the buffered
-- channel of tasks, the oldest first; `pending` is the sync.Map pendingTasks. Connections are the
-- numbers of `Peers`. The order in which Go visits a map is an argument.
pub mod Buffers
pub mod Sound
pub mod Safety
pub mod Tasks
pub mod Node
pub mod Links
pub mod Reach
pub mod Sent
pub mod Idle
pub mod Kept
pub mod Board
pub mod Drain
pub mod Answers
use mini_ray.Base.{
  ◌==◌, Result, ℕ, Option, GoString, M, ◌>>=◌, err, modify, channel_full, ◌∷◌, length,
  if◌then◌else◌, ◌++◌, gets, ok, fail, some, List, codes, [], ltb, pure, task_not_found, none,
  channel_empty, nat_eq, bytes_eq, ◌>>◌,
}
use mini_ray.Base.Maps.{lookup, Map, insert, delete}
use mini_ray.Client.{Net}
use mini_ray.Codec.{
  meta_establish, encode_payload, meta_establish_ack, ray_assign_task, meta_shake_hand, Header,
  ray_assign_task_resp,
}
use mini_ray.External.{Proto}
use mini_ray.Messages.{
  Message, establish_response, EstablishResponse, AssignTaskRequest, as_establish_req,
  AssignTaskResponse, assign_task, as_establish_response, as_assign_task_resp,
}
use mini_ray.Peers.{
  peer_send, peer_set_established, with_peer, take_id, peer_notify_establish, ignore, deref,
  peer_remote, empty_manager, Manager,
}

-- common/task.go
pub record Task : Type 0 where
  pub id : GoString
  pub func_name : GoString
  pub args : List (List ℕ)
  pub args_type : List GoString
  pub dependencies : List GoString

pub record Scheduler : Type 0 where
  pub manager : Manager
  pub worker_conns : Map GoString ℕ
  pub gcs_conns : Map GoString ℕ
  pub task_chan : List Task
  pub task_chan_size : ℕ
  pub pending : Map GoString Task

abbrev pub mode_worker : ℕ
mode_worker = 1

abbrev pub mode_scheduler : ℕ
mode_scheduler = 2

abbrev pub mode_gcs : ℕ
mode_gcs = 4

unfoldable pub new_scheduler : ℕ → Scheduler
unfolding empty_manager
new_scheduler task_chan_size = record {
  manager = empty_manager;
  worker_conns = [];
  gcs_conns = [];
  task_chan = [];
  task_chan_size = task_chan_size;
  pending = [];
}

unfoldable pub push_task : Task → M Scheduler (Unit {0})
push_task task s =
    if ltb (length s.task_chan) s.task_chan_size
    then (ok tt, record s { task_chan = s.task_chan ++ (task ∷ []) })
    else (err channel_full, s)

pub returned : {A : Type 0} → Scheduler → Result A × Manager → Result A × Scheduler
returned s (r, m) = (r, record s { manager = m })

pub on_manager : {A : Type 0} → M Manager A → M Scheduler A
unfolding returned
on_manager f s = returned s (f s.manager)

pub lift : {A : Type 0} → Result A → M Scheduler A
lift r s = (r, s)

-- The request carries the id, the name and the arguments, and neither types nor dependencies.
unfoldable pub request_of : Task → AssignTaskRequest
request_of task = record {
  task_id = task.id;
  func_name = task.func_name;
  args = task.args;
  dependencies = [];
  args_type = [];
}

module _ (net : Net) (p : Proto) where
  pub send_to : ℕ → List ℕ → M Scheduler (Unit {0})
  unfolding on_manager
  send_to conn payload = on_manager (with_peer conn (peer_send net payload))

  -- Only an AssignTaskRequest is sent; each call takes a number.
  unfoldable pub handle_server_req : ℕ → AssignTaskRequest → M Scheduler (Unit {0})
  unfolding lift on_manager send_to
  handle_server_req conn req = do
    seq_id ← on_manager take_id
    payload ←
        lift
          (encode_payload p (record { uri = ray_assign_task; seq_id = seq_id }) (assign_task req))
    send_to conn payload

  -- The loop over the worker connections, in the order in which they are visited.
  unfoldable pub assign_to : Task → List ℕ → M Scheduler (Unit {0})
  unfolding request_of
  assign_to task [] = pure tt
  assign_to task (conn ∷ rest) = do
    modify (λ s. record s { pending = insert task.id task s.pending })
    ignore (handle_server_req conn (request_of task))
    assign_to task rest

  assign_next : List ℕ → List Task → M Scheduler (Unit {0})
  unfolding assign_to
  assign_next order [] s = (err channel_empty, s)
  assign_next order (task ∷ rest) s = assign_to task order (record s { task_chan = rest })

  unfoldable pub assign_task_of : List ℕ → M Scheduler (Unit {0})
  unfolding assign_next
  assign_task_of order s = assign_next order s.task_chan s

  unfoldable pub on_establish : ℕ → Header → M Scheduler (Unit {0})
  unfolding lift on_manager send_to
  on_establish conn header = do
    on_manager (with_peer conn (modify peer_set_established))
    payload ← lift (
        encode_payload p (record { uri = meta_establish_ack; seq_id = header.seq_id })
          (establish_response (record { mode = mode_scheduler; error = codes "OK" })))
    send_to conn payload

  register : ℕ → ℕ → GoString → Scheduler → Scheduler
  register conn mode remote s =
      if mode == mode_worker
      then record s { worker_conns = insert remote conn s.worker_conns }
      else if mode == mode_gcs
      then record s { gcs_conns = insert remote conn s.gcs_conns }
      else s

  unfoldable pub on_establish_ack : ℕ → EstablishResponse → M Scheduler (Unit {0})
  unfolding on_manager register
  on_establish_ack conn resp = do
    remote ← on_manager (with_peer conn (gets peer_remote))
    modify (register conn resp.mode remote)
    on_manager (with_peer conn (modify peer_notify_establish))

  requeue : GoString → Option Task → M Scheduler (Unit {0})
  requeue id none = fail task_not_found
  requeue id (some task) = do
    modify (λ s. record s { pending = delete id s.pending })
    ignore (push_task task)

  unfoldable pub on_assign_task_resp : AssignTaskResponse → M Scheduler (Unit {0})
  unfolding requeue
  on_assign_task_resp resp s =
      if resp.accepted
      then (ok tt, record s { pending = delete resp.task_id s.pending })
      else requeue resp.task_id (lookup resp.task_id s.pending) s

  -- OnPacket, for incoming connections, and through HandlePacket for outgoing ones.
  unfoldable pub on_packet : ℕ → Header → Message → M Scheduler (Unit {0})
  unfolding on_establish on_establish_ack on_assign_task_resp
  on_packet conn header payload =
      if header.uri == meta_establish
      then deref (as_establish_req payload) >>= (λ req. on_establish conn header)
      else if header.uri == meta_establish_ack
      then deref (as_establish_response payload) >>= on_establish_ack conn
      else if header.uri == meta_shake_hand
      then pure tt
      else if header.uri == ray_assign_task_resp
      then deref (as_assign_task_resp payload) >>= on_assign_task_resp
      else pure tt
