-- ===== src/Worker/Packets.antt =====
-- The packet handlers of core/worker/connection_manger.go, and its loop that reports objects.
pub mod Fetch
pub mod Sum
pub mod Remote
pub mod Sound
pub mod Safety
pub mod Report
pub mod Channel
pub mod Sent
use mini_ray.Base.{
  gcs_conn_not_found, context_done, fail, not, Bool, modify, [], panic, M, pure, ◌>>=◌, err, none,
  ℕ, false, block, panics, gets, ◌∷◌, Result, some, if◌then◌else◌, ◌==◌, blocks, true, nil_deref,
  codes, Option, ok, GoString, List, nat_eq, bytes_eq, ◌>>◌,
}
use mini_ray.Client.{Net}
use mini_ray.Codec.{
  ray_get_object_location, Header, ray_assign_task, ray_get_object_location_resp,
  ray_get_object_data, meta_shake_hand, ray_assign_task_resp, meta_establish, meta_establish_ack,
  encode_payload, ray_get_object_data_resp, ray_report_task_result,
}
use mini_ray.External.{Proto}
use mini_ray.Messages.{
  get_object_location, as_get_object_data_resp, establish_response, get_object_data_resp,
  GetObjectDataResponse, as_get_object_data, as_establish_req, report_task_result, as_assign_task,
  GetObjectLocationResponse, assign_task_resp, Message, as_get_object_location_resp,
  AssignTaskRequest, GetObjectDataRequest, EstablishReq,
}
use mini_ray.Base.Maps.{lookup, insert}
use mini_ray.Worker.Channels.{chan_send, Chan}
use mini_ray.Worker.{
  on_add_tow_int, task_func_add_tow_int, Worker, Object, get_object, resolve_args,
}
use mini_ray.Peers.{
  ignore, peer_send, take_id, with_peer, deref, peer_notify_establish, peer_set_established,
  Manager,
}
use mini_ray.Scheduler.{Task, mode_worker, mode_gcs}

unfoldable pub returned : {A : Type 0} → Worker → Result A × Manager → Result A × Worker
returned w (r, m) = (r, record w { manager = m })

unfoldable pub on_manager : {A : Type 0} → M Manager A → M Worker A
unfolding returned
on_manager f w = returned w (f w.manager)

pub lift : {A : Type 0} → Result A → M Worker A
lift r w = (r, w)

-- A failed call as the value `err` that the handler goes on with.
attempt : Result (Unit {0}) × Worker → Result Bool × Worker
attempt (ok _, w) = (ok true, w)
attempt (err _, w) = (ok false, w)
attempt (panics x, w) = (panics x, w)
attempt (blocks, w) = (blocks, w)

succeeds : M Worker (Unit {0}) → M Worker Bool
unfolding attempt
succeeds m w = attempt (m w)

abbrev pub task_of : AssignTaskRequest → List (List ℕ) → Task
task_of req args = record {
  id = req.task_id;
  func_name = req.func_name;
  args = args;
  args_type = req.args_type;
  dependencies = req.dependencies;
}

module _ (net : Net) (p : Proto) where
  pub send_to : ℕ → List ℕ → M Worker (Unit {0})
  unfolding on_manager
  send_to conn payload = on_manager (with_peer conn (peer_send net payload))

  unfoldable pub on_establish : ℕ → Header → EstablishReq → M Worker (Unit {0})
  unfolding lift on_manager send_to
  on_establish conn header req = do
    on_manager (with_peer conn (modify peer_set_established))
    modify (λ w. if req.mode == mode_gcs then record w { gcs_conn = some conn } else w)
    payload ← lift (
        encode_payload p (record { uri = meta_establish_ack; seq_id = header.seq_id })
          (establish_response (record { mode = mode_worker; error = codes "OK" })))
    send_to conn payload

  unfoldable pub on_establish_ack : ℕ → M Worker (Unit {0})
  unfolding on_manager
  on_establish_ack conn = on_manager (with_peer conn (modify peer_notify_establish))

  -- A function that the worker does not know is not called, and gives no error.
  run_function : ℕ → Task → M Worker (Unit {0})
  run_function now task =
      if task.func_name == task_func_add_tow_int then on_add_tow_int now task else pure tt

  -- The payload is nil where it cannot be encoded, and is sent all the same.
  payload_of : Result (List ℕ) → List ℕ
  payload_of (ok payload) = payload
  payload_of _ = []

  encode_error : Result (List ℕ) → Result (Unit {0})
  encode_error (ok _) = ok tt
  encode_error (err e) = err e
  encode_error (panics x) = panics x
  encode_error blocks = blocks

  -- `now` is the time at which the result is stored. The error returned is that of the encoding.
  unfoldable pub on_assign_task : ℕ → ℕ → Header → AssignTaskRequest → M Worker (Unit {0})
  unfolding lift succeeds run_function send_to payload_of encode_error
  on_assign_task now conn header req = do
    w ← gets (λ w. w)
    args ← lift (resolve_args w req.args req.args_type)
    accepted ← succeeds (run_function now (task_of req args))
    let encoded =
        encode_payload p (record { uri = ray_assign_task_resp; seq_id = header.seq_id })
          (assign_task_resp (record { accepted = accepted; worker_id = []; task_id = req.task_id }))
    ignore (send_to conn (payload_of encoded))
    lift (encode_error encoded)

  abbrev pub data_response : Option Object → GetObjectDataResponse
  data_response none = record {
    found = false;
    bytes = [];
    error = codes "object not found";
    uuid = [];
  }
  data_response (some object) = record { found = true; bytes = object.bytes; error = []; uuid = [] }

  -- The answer names no uuid; the error of the send is not looked at.
  unfoldable pub on_get_object_data : ℕ → GetObjectDataRequest → M Worker (Unit {0})
  unfolding lift on_manager send_to get_object
  on_get_object_data conn req = do
    object ← gets (get_object req.object_id)
    seq_id ← on_manager take_id
    payload ← lift (
        encode_payload p (record { uri = ray_get_object_data_resp; seq_id = seq_id })
          (get_object_data_resp (data_response object)))
    ignore (send_to conn payload)

  -- The channel is the one that the map has under the uuid of the answer.
  location_sent : GoString → Option (Chan GoString) → M Worker (Unit {0})
  location_sent uuid none w = (blocks, w)
  location_sent uuid (some ch) w =
      (ok tt, record w { get_object_location_chan = insert uuid ch w.get_object_location_chan })

  unfoldable pub on_get_object_location_resp : GetObjectLocationResponse → M Worker (Unit {0})
  unfolding location_sent
  on_get_object_location_resp resp w =
      location_sent resp.uuid
        (chan_send resp.node_addr (lookup resp.uuid w.get_object_location_chan)) w

  object_sent : GoString → Option (Chan (List ℕ)) → M Worker (Unit {0})
  object_sent uuid none w = (blocks, w)
  object_sent uuid (some ch) w =
      (ok tt, record w { get_object_chan = insert uuid ch w.get_object_chan })

  unfoldable pub on_get_object_data_resp : GetObjectDataResponse → M Worker (Unit {0})
  unfolding object_sent
  on_get_object_data_resp resp w =
      object_sent resp.uuid (chan_send resp.bytes (lookup resp.uuid w.get_object_chan)) w

  unfoldable pub on_packet : ℕ → ℕ → Header → Message → M Worker (Unit {0})
  unfolding on_establish on_establish_ack on_get_object_location_resp on_get_object_data_resp
  on_packet now conn header payload =
      if header.uri == meta_establish
      then deref (as_establish_req payload) >>= on_establish conn header
      else if header.uri == meta_establish_ack
      then on_establish_ack conn
      else if header.uri == meta_shake_hand
      then pure tt
      else if header.uri == ray_assign_task
      then deref (as_assign_task payload) >>= on_assign_task now conn header
      else if header.uri == ray_get_object_data
      then deref (as_get_object_data payload) >>= on_get_object_data conn
      else if header.uri == ray_get_object_location_resp
      then deref (as_get_object_location_resp payload) >>= on_get_object_location_resp
      else if header.uri == ray_get_object_data_resp
      then deref (as_get_object_data_resp payload) >>= on_get_object_data_resp
      else pure tt

  pub report_to : Option ℕ → List ℕ → M Worker (Unit {0})
  unfolding send_to
  report_to none payload = panic nil_deref
  report_to (some conn) payload = ignore (send_to conn payload)

  -- One round of the manager's Loop: an object id from the channel is reported to the GCS.
  pub report_round : List GoString → M Worker (Unit {0})
  unfolding lift on_manager report_to
  report_round [] = block
  report_round (id ∷ rest) = do
    modify (λ w. record w { register_chan = rest })
    seq_id ← on_manager take_id
    payload ← lift (
        encode_payload p (record { uri = ray_report_task_result; seq_id = seq_id })
          (report_task_result
            (record { task_id = []; status = []; object_id = id; result_data = [] })))
    w ← gets (λ w. w)
    report_to w.gcs_conn payload

  unfoldable pub report_object : M Worker (Unit {0})
  unfolding report_round
  report_object w = report_round w.register_chan w
