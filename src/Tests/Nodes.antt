-- ===== src/Tests/Nodes.antt =====
-- Client, scheduler, GCS and worker on concrete states.
use mini_ray.Gcs
use mini_ray.Worker
use mini_ray.Tests.Inputs.{small_proto, list_reader, locate, locate-IsSent, all_accepted}
use mini_ray.Base.Maps.{lookup}
use mini_ray.Client.Packets.{on_packet as client_packet}
use mini_ray.Client.Loop.{
  receives, Acknowledged, dial_fails, here, next, at, IsSound, waiting, Reach-IsSound,
}
use mini_ray.Codec.{meta_establish_ack, Header, encode_payload}
use mini_ray.Codec.Endian.{put_uint}
use mini_ray.Frame.{make_frame}
use mini_ray.Gcs.{Gcs, on_report_task_result}
use mini_ray.Gcs.Locations.{on_report_task_result-lookup, serve-get_object_location}
use mini_ray.Peers.{inbound, Peer, peer_remote, Manager}
use mini_ray.Scheduler.Tasks.{assign_task_of-accounts}
use mini_ray.Traffic.{crashed, serve}
use mini_ray.Traffic.Bytes.{seen}
use mini_ray.Worker.Codec.{decode_int-encode_int}
use mini_ray.Worker.Packets.{task_of, on_assign_task}
use mini_ray.Worker.Packets.Sum.{on_assign_task-sum}
use mini_ray.Worker.Tasks.{serve-assign_task}
use mini_ray.Base.{
  ◌⊎◌, ◌^◌, none, true, false, codes, nil_deref, ◌∷◌, List, ◌++◌, index_out_of_range, ℕ, nat_eq,
  bytes_eq, ◌+◌, ◌%◌, refl, some, [], arith, ◌≡◌, ◌<◌, ok, ◌≤◌,
}
use mini_ray.Client.{Client, start, dial_once, new_connection}
use mini_ray.Client.Backoff.{get_back_off_bounds, get_back_off}
use mini_ray.Messages.{shake_hand_req, AssignTaskRequest, ReportTaskResultRequest}
use mini_ray.Worker.{
  format_int, decode_int, object_type_int, value_of, error_of, on_add_tow_int, encode_int,
  object_id_of, get_object, add_tow_int_func, Worker,
}
use mini_ray.Scheduler.{request_of, assign_task_of, Scheduler, Task}

get_back_off_bounds_example :
    (get_back_off 45 < 2 ^ 63)
    × (get_back_off 45 % 1000000000 ≡ 0)
    × (get_back_off 45 ≤ 2250000000)
    × (2250000000 < get_back_off 45 + 1000000000)
get_back_off_bounds_example = get_back_off_bounds 45 (omega arith) (omega arith)

-- A connection that is started, dials without success, and waits, when an EstablishAck comes.
abbrev waits : Client
waits = (dial_once 0 none (start (new_connection 1 [] [])).0).1

abbrev late_ack : Header
late_ack = record { uri = meta_establish_ack; seq_id = 1 }

Reach-IsSound_example :
    IsSound (at waiting (client_packet 5 late_ack shake_hand_req waits).1)
    × (((client_packet 5 late_ack shake_hand_req waits).1.established ≡ false)
        ⊎ ((waits.established ≡ true) × (false ≡ false))
        ⊎ Acknowledged all_accepted small_proto 2
            (at waiting waits)
            (at waiting (client_packet 5 late_ack shake_hand_req waits).1))
unfolding new_connection start
Reach-IsSound_example =
    Reach-IsSound all_accepted small_proto 2 (start (new_connection 1 [] [])).0 (at waiting waits) _
      refl (next here (dial_fails (start (new_connection 1 [] [])).0 0 refl refl))
      (receives waits 5 late_ack shake_hand_req)

-- A scheduler with one incoming worker connection, and one task in its queue of two places.
abbrev worker_peer : Peer
worker_peer = inbound (record {
  id = 1;
  remote = 65 ∷ [];
  gnet_c = true;
  net_c = false;
  established = true;
  establish_chan = false;
  outbox = [];
})

abbrev one_connection : Manager
one_connection = record {
  next_id = 1;
  next_seq = 0;
  heap = (1, worker_peer) ∷ [];
  conns = (1, 1) ∷ [];
}

abbrev a_task : Task
a_task = record {
  id = 9 ∷ [];
  func_name = [];
  args = (1 ∷ []) ∷ [];
  args_type = [];
  dependencies = [];
}

abbrev busy : Scheduler
busy = record {
  manager = one_connection;
  worker_conns = [];
  gcs_conns = [];
  task_chan = a_task ∷ [];
  task_chan_size = 2;
  pending = [];
}

assign_task_of-accounts_example :
    (lookup (9 ∷ []) (assign_task_of all_accepted small_proto (1 ∷ []) busy).1.pending
      ≡ some a_task)
    × ((assign_task_of all_accepted small_proto (1 ∷ []) busy).1.task_chan ≡ [])
assign_task_of-accounts_example =
    assign_task_of-accounts all_accepted small_proto (1 ∷ []) a_task [] busy refl

abbrev a_gcs : Gcs
a_gcs = record { manager = one_connection; object_location_map = [] }

serve-get_object_location_example :
    seen
      (λ c. c)
      (serve list_reader small_proto
        (Gcs.on_packet all_accepted small_proto 1)
        (make_frame locate.inner ++ (3 ∷ []))
        a_gcs)
    ≡ crashed nil_deref (3 ∷ []) a_gcs
serve-get_object_location_example =
    serve-get_object_location all_accepted small_proto list_reader
      (make_frame locate.inner ++ (3 ∷ [])) 1 locate (3 ∷ []) a_gcs locate-IsSent refl refl

abbrev a_report : ReportTaskResultRequest
a_report = record { task_id = []; status = []; object_id = 7 ∷ []; result_data = [] }

on_report_task_result-lookup_example :
    lookup
      (7 ∷ [])
      (on_report_task_result all_accepted small_proto 1 a_report a_gcs).1.object_location_map
    ≡ some (65 ∷ [])
unfolding peer_remote lookup
on_report_task_result-lookup_example =
    on_report_task_result-lookup all_accepted small_proto 1 worker_peer a_report (7 ∷ []) a_gcs refl

abbrev a_worker : Worker
a_worker = record {
  manager = one_connection;
  gcs_conn = none;
  register_chan = [];
  register_chan_size = 1;
  objects = [];
  get_object_location_chan = [];
  get_object_chan = [];
}

decode_int-encode_int_example : decode_int (encode_int 300 ++ (7 ∷ [])) ≡ ok 300
decode_int-encode_int_example = decode_int-encode_int 300 (7 ∷ []) (omega arith)

abbrev add_request : AssignTaskRequest
add_request = record {
  task_id = 9 ∷ [];
  func_name = codes "addTowInt";
  args = encode_int 2 ∷ encode_int 3 ∷ [];
  dependencies = [];
  args_type = codes "int" ∷ codes "int" ∷ [];
}

on_assign_task-sum_example :
    get_object
      ((9 ∷ []) ++ (codes "addTowInt" ++ codes "17"))
      (on_assign_task all_accepted small_proto 17 1
        (record { uri = 112; seq_id = 1 })
        add_request
        a_worker).1
    ≡ some (record { object_type = codes "int"; bytes = encode_int 5 })
unfolding format_int
on_assign_task-sum_example =
    on_assign_task-sum all_accepted small_proto 17 1 2 3 (codes "int") (codes "int")
      (record { uri = 112; seq_id = 1 }) add_request a_worker (omega arith) (omega arith) refl refl
      refl refl refl (omega arith)

abbrev bare_task : Task
bare_task = record {
  id = [];
  func_name = [];
  args = (1 ∷ []) ∷ [];
  args_type = [];
  dependencies = [];
}

abbrev bare_inner : List ℕ
bare_inner = 0 ∷ 112 ∷ 0 ∷ 0 ∷ 0 ∷ 0 ∷ 0 ∷ 0 ∷ 0 ∷ 4 ∷ 1 ∷ []

serve-assign_task_example :
    seen
      (λ c. c)
      (serve list_reader small_proto
        (Worker.Packets.on_packet all_accepted small_proto 17 1)
        (make_frame bare_inner ++ [])
        a_worker)
    ≡ crashed index_out_of_range [] a_worker
unfolding encode_payload put_uint request_of
serve-assign_task_example =
    serve-assign_task all_accepted small_proto list_reader (make_frame bare_inner ++ []) 17 1 4
      bare_task bare_inner [] a_worker (omega arith) (λ e. cc) refl (omega arith) refl
