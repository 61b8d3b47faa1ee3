-- ===== src/Tests/Links.antt =====
-- The driver, its read loop and the search for remote objects on concrete inputs.
use mini_ray.Peers.{incoming, inbound}
use mini_ray.Worker.{Worker}
use mini_ray.Codec.Endian.{put_uint, uint}
use mini_ray.Codec.{decode_inner_payload, unmarshal_by_uri, meta_kind}
use mini_ray.Base.{false, nat_eq, bytes_eq, ◌∷◌, ◌≢◌, refl, some, ◌≡◌, arith, ok, none, ◌++◌, []}
use mini_ray.Tests.Inputs.{heartbeat, small_proto, count_packets, heartbeat-IsSent, all_accepted}
use mini_ray.Codec.{Header}
use mini_ray.Driver.{on_packet, add_connection, submit_task, Driver, empty_driver}
use mini_ray.Driver.Submit.{receives, adds, fresh, next, Reach-submit_task}
use mini_ray.Frame.{make_frame}
use mini_ray.Link.{read_frame, read_loop, out_of_fuel, unreadable}
use mini_ray.Link.Stream.{read_loop-ne-out_of_fuel, read_loop-stream}
use mini_ray.Messages.{establish_req, Message, DriverSubmitTaskRequest}
use mini_ray.Traffic.Stream.{stream}
use mini_ray.Worker.Node.{new_worker}
use mini_ray.Worker.Packets.Fetch.{get_remote_object}
use mini_ray.Worker.Packets.Remote.{get_remote_object-ne-ok}

abbrev greeting : Header
greeting = record { uri = 1; seq_id = 9 }

abbrev scheduler_greets : Message
scheduler_greets = establish_req (record { addr = []; mode = 2 })

-- A driver that dialed a scheduler and was greeted by it.
abbrev greeted : Driver
greeted =
    (on_packet all_accepted small_proto 1 greeting scheduler_greets
      (add_connection (120 ∷ []) empty_driver).1).1

abbrev a_task : DriverSubmitTaskRequest
a_task = record { task_id = 1 ∷ []; func_name = []; args = []; dependencies = [] }

Reach-submit_task_example :
    submit_task all_accepted small_proto (1 ∷ []) (λ conn. none) a_task greeted ≡ (ok tt, greeted)
Reach-submit_task_example =
    Reach-submit_task all_accepted small_proto greeted (1 ∷ []) (λ conn. none) a_task
      (next (next fresh (adds empty_driver (120 ∷ [])))
        (receives (add_connection (120 ∷ []) empty_driver).1 1 greeting scheduler_greets))

read_loop-stream_example :
    read_loop small_proto count_packets (stream (heartbeat ∷ heartbeat ∷ []) ++ (0 ∷ [])) 0
    ≡ unreadable [] 2
read_loop-stream_example =
    read_loop-stream small_proto count_packets (heartbeat ∷ heartbeat ∷ []) (0 ∷ []) 0 2
      (heartbeat-IsSent, (heartbeat-IsSent, tt)) (omega arith, (omega arith, tt)) (omega arith) refl

-- A frame that is too short to be decoded is passed over.
passed_over :
    read_loop small_proto count_packets (0 ∷ 0 ∷ 0 ∷ 1 ∷ 7 ∷ (make_frame heartbeat.inner ++ [])) 0
    ≡ unreadable [] 1
unfolding read_loop read_frame make_frame put_uint uint decode_inner_payload unmarshal_by_uri
    meta_kind
passed_over = refl

read_loop-ne-out_of_fuel_example :
    read_loop small_proto count_packets (make_frame heartbeat.inner ++ (9 ∷ [])) 0 ≢ out_of_fuel
read_loop-ne-out_of_fuel_example =
    read_loop-ne-out_of_fuel small_proto count_packets (make_frame heartbeat.inner ++ (9 ∷ [])) 0

-- A worker with a channel for the location, and the location in it.
abbrev answered_worker : Worker
answered_worker = record (new_worker 4) {
  gcs_conn = some 1;
  manager = record {
    next_id = 1;
    next_seq = 0;
    heap = (1, inbound (incoming 1 (71 ∷ []))) ∷ [];
    conns = (1, 1) ∷ [];
  };
  get_object_location_chan = (1 ∷ [], record { capacity = 1; queued = (71 ∷ []) ∷ [] }) ∷ [];
}

get_remote_object-ne-ok_example :
    (get_remote_object all_accepted small_proto false false
      (1 ∷ [])
      (2 ∷ [])
      (7 ∷ [])
      answered_worker).0
    ≢ ok (5 ∷ [])
get_remote_object-ne-ok_example =
    get_remote_object-ne-ok all_accepted small_proto false false (1 ∷ []) (2 ∷ []) (7 ∷ [])
      answered_worker (5 ∷ [])
