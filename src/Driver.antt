-- ===== src/Driver.antt =====
-- core/driver/driver.go and core/driver/connection_manager.go. `task_notify_chan` holds the tasks for
-- which a channel is made. The constructor NewDriver calls itself and never returns, so
-- `empty_driver` is the driver that its later lines would build.
pub mod Submit
pub mod Create
pub mod Established
pub mod Dial
pub mod Node
pub mod Links
use mini_ray.Base.{
  block, [], pure, Result, List, some, arith, Eq, panic, err, ◌>>=◌, blocks, true, ok, ℕ, modify,
  false, none, codes, bytes_eq, Bool, Option, GoString, ◌≡◌, nat_eq, if◌then◌else◌, M, ◌↔◌, ◌==◌,
  panics, ◌∷◌, ◌>>◌,
}
use mini_ray.Base.Maps.{lookup, delete, Map, insert}
use mini_ray.Client.{Net}
use mini_ray.Codec.{
  Header, encode_payload, driver_submit_task_uri, meta_establish, scheduler_submit_task_resp_uri,
  meta_establish_ack, meta_shake_hand,
}
use mini_ray.External.{Proto}
use mini_ray.Messages.{
  as_scheduler_submit_task_resp, establish_response, as_establish_req, driver_submit_task,
  SchedulerSubmitTaskResponse, Message, DriverSubmitTaskRequest, EstablishReq,
}
use mini_ray.Peers.{
  with_peer, inbound, Connection, take_seq, take_id, peer_send, peer_set_established, ignore,
  peer_notify_establish, incoming, empty_manager, deref, Manager,
}

-- The keys of `typeConns`, a sync.Map from any type: connections are filed under the int32 mode of
-- their peer, and looked for under a string.
pub data TypeKey : Type 0 where
  by_mode : ℕ → TypeKey
  by_name : GoString → TypeKey

abbrev key_beq : TypeKey → TypeKey → Bool
key_beq (by_mode a) (by_mode b) = a == b
key_beq (by_name a) (by_name b) = a == b
key_beq _ _ = false

pub key_beq_iff : (a b : TypeKey) → (key_beq a b ≡ true) ↔ (a ≡ b)
key_beq_iff (by_mode a) (by_mode b) = ground (arith, nat_eq.beq_iff a b)
key_beq_iff (by_name a) (by_name b) = ground (arith, bytes_eq.beq_iff a b)
key_beq_iff (by_mode a) (by_name b) = (λ h. cc, λ h. cc)
key_beq_iff (by_name a) (by_mode b) = (λ h. cc, λ h. cc)

instance abbrev pub key_eq : Eq TypeKey
key_eq = record { beq = key_beq; beq_iff = key_beq_iff }

pub record Driver : Type 0 where
  pub manager : Manager
  pub type_conns : Map TypeKey (Map ℕ ℕ)
  pub task_notify_chan : Map GoString (Unit {0})

abbrev pub mode_driver : ℕ
mode_driver = 3

abbrev pub node_type_scheduler : GoString
node_type_scheduler = codes "scheduler"

abbrev pub submit_task_success : GoString
submit_task_success = codes "success"

-- `result == common.SubmitTaskSuccess`, for a result that came in time.
abbrev succeeded : Option GoString → Bool
succeeded none = false
succeeded (some result) = result == submit_task_success

unfoldable pub empty_driver : Driver
unfolding empty_manager
empty_driver = record { manager = empty_manager; type_conns = []; task_notify_chan = [] }

returned : {A : Type 0} → Driver → Result A × Manager → Result A × Driver
returned d (r, m) = (r, record d { manager = m })

pub on_manager : {A : Type 0} → M Manager A → M Driver A
unfolding returned
on_manager f d = returned d (f d.manager)

lift : {A : Type 0} → Result A → M Driver A
lift r d = (r, d)

-- `newConnection` with a nil gnet.Conn: it has no transport until its Loop dials.
unfoldable pub outgoing : ℕ → GoString → Connection
unfolding incoming
outgoing id addr = record (incoming id addr) { gnet_c = false }

enroll : GoString → M Manager ℕ
unfolding outgoing
enroll addr = do
  id ← take_id
  modify (λ m. record m { heap = insert id (inbound (outgoing id addr)) m.heap })
  pure id

-- AddConnection: the object is not filed in `conns` yet.
unfoldable pub add_connection : GoString → M Driver ℕ
unfolding on_manager enroll
add_connection addr = on_manager (enroll addr)

abbrev filed : Option (Map ℕ ℕ) → Map ℕ ℕ
filed none = []
filed (some table) = table

-- `typeConns.LoadOrStore(mode, &sync.Map{})`, then `Store(id, conn)` in the map that it gives.
unfoldable pub file_connection : ℕ → ℕ → Driver → Driver
file_connection mode conn d =
    let table = filed (lookup (by_mode mode) d.type_conns) in
    record d { type_conns = insert (by_mode mode) (insert conn conn table) d.type_conns }

module _ (net : Net) (p : Proto) where
  send_to : ℕ → List ℕ → M Driver (Unit {0})
  unfolding on_manager
  send_to conn payload = on_manager (with_peer conn (peer_send net payload))

  unfoldable pub on_establish : ℕ → Header → EstablishReq → M Driver (Unit {0})
  unfolding lift on_manager send_to file_connection
  on_establish conn header req = do
    on_manager (with_peer conn (modify peer_set_established))
    modify (file_connection req.mode conn)
    payload ← lift (
        encode_payload p (record { uri = meta_establish_ack; seq_id = header.seq_id })
          (establish_response (record { mode = mode_driver; error = codes "OK" })))
    send_to conn payload

  unfoldable pub on_establish_ack : ℕ → M Driver (Unit {0})
  unfolding on_manager
  on_establish_ack conn = on_manager (with_peer conn (modify peer_notify_establish))

  -- Sending the answer on the task's channel changes no field; a receiver sees `notification`.
  unfoldable pub on_packet : ℕ → Header → Message → M Driver (Unit {0})
  unfolding on_establish on_establish_ack
  on_packet conn header payload =
      if header.uri == meta_establish
      then deref (as_establish_req payload) >>= on_establish conn header
      else if header.uri == meta_establish_ack
      then on_establish_ack conn
      else if header.uri == meta_shake_hand
      then pure tt
      else if header.uri == scheduler_submit_task_resp_uri
      then deref (as_scheduler_submit_task_resp payload) >>= (λ resp. pure tt)
      else pure tt

  -- One turn of the loop over the connections. `answer` is what comes on the task's channel, none
  -- where the five seconds pass first.
  submit_over :
      Option GoString
      → DriverSubmitTaskRequest
      → ℕ
      → M Driver (Unit {0})
      → Result (List ℕ)
      → M Driver (Unit {0})
  unfolding send_to
  submit_over answer task conn later (ok payload) = do
    modify (λ d. record d { task_notify_chan = insert task.task_id tt d.task_notify_chan })
    ignore (send_to conn payload)
    modify (λ d. record d { task_notify_chan = delete task.task_id d.task_notify_chan })
    if succeeded answer then pure tt else later
  submit_over answer task conn later (err e) = later
  submit_over answer task conn later (panics x) = panic x
  submit_over answer task conn later blocks = block

  unfoldable submit_to :
      (ℕ → Option GoString) → DriverSubmitTaskRequest → List ℕ → M Driver (Unit {0})
  unfolding on_manager submit_over
  submit_to answer task [] = pure tt
  submit_to answer task (conn ∷ rest) =
      let later = submit_to answer task rest in
      on_manager take_seq >>= (λ seq. submit_over (answer conn) task conn later (
        encode_payload p (record { uri = driver_submit_task_uri; seq_id = seq })
          (driver_submit_task task)))

  submit_found :
      List ℕ
      → (ℕ → Option GoString)
      → DriverSubmitTaskRequest
      → Option (Map ℕ ℕ)
      → M Driver (Unit {0})
  unfolding submit_to
  submit_found order answer task none = pure tt
  submit_found order answer task (some []) = pure tt
  submit_found order answer task (some (x ∷ xs)) = submit_to answer task order

  -- `order` is the order in which Go visits the connections that were found.
  unfoldable pub submit_task :
      List ℕ → (ℕ → Option GoString) → DriverSubmitTaskRequest → M Driver (Unit {0})
  unfolding submit_found
  submit_task order answer task d =
      submit_found order answer task (lookup (by_name node_type_scheduler) d.type_conns) d

-- onSchedulerSubmitTaskResp of driver.go: what is sent on the channel of the response's task, where
-- a receiver waits there. It is the word for success, whatever the response says.
unfoldable notification : Bool → SchedulerSubmitTaskResponse → Driver → Option (GoString × GoString)
notification waits resp d = elim (lookup resp.task_id d.task_notify_chan) [
  | none ↦ none
  | some chan ↦ if waits then some (resp.task_id, submit_task_success) else none
]
