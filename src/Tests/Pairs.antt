-- ===== src/Tests/Pairs.antt =====
-- Two nodes on concrete states, and a wire format for what they say to each other.
use mini_ray.Worker.Packets.{on_assign_task, task_of}
use mini_ray.Worker.Packets.Sent.{with_frame, on_assign_task-fails, with_peer_at}
use mini_ray.Worker.Tasks.{stored}
use mini_ray.Cluster.Trip.{trip, assigned}
use mini_ray.Scheduler.Node.{receive}
use mini_ray.Traffic.{stay, serve, done}
use mini_ray.Traffic.Bytes.{seen}
use mini_ray.Tests.Inputs.{all_accepted, list_reader}
use mini_ray.Base.Maps.{lookup}
use mini_ray.Client.{Client, new_connection}
use mini_ray.Client.Loop.{inner, at, enter}
use mini_ray.Client.Dials.{dialed}
use mini_ray.Cluster.Handshake.{handshake}
use mini_ray.Codec.{encode_payload}
use mini_ray.Codec.Endian.{put_uint}
use mini_ray.Frame.{make_frame}
use mini_ray.Peers.{outbound, inbound, incoming}
use mini_ray.Scheduler.{Task, request_of, Scheduler}
use mini_ray.Worker.{resolve_args, add_tow_int_func, decode_int, Worker}
use mini_ray.External.{Proto}
use mini_ray.Base.{
  ok, data_too_short, codes, arith, ◌==◌, nat_eq, bytes_eq, subst, ap, refl, sym, none, Bool, some,
  List, false, GoString, ◌≡◌, Option, true, ℕ, [], ◌∷◌,
}
use mini_ray.Messages.{
  kind_of, establish_response, k_assign_task_resp, Kind, k_establish_req, assign_task_resp,
  establish_req, assign_task, k_assign_task, AssignTaskRequest, Message, k_establish_response,
}

-- The format knows Establish and its answer, requests without arguments for a task with an id of
-- one byte, and answers to them.
abbrev request_body :
    GoString → GoString → List (List ℕ) → List GoString → List GoString → Option (List ℕ)
request_body (x ∷ []) f [] [] [] = some (x ∷ f)
request_body _ _ _ _ _ = none

abbrev answer_body : Bool → GoString → GoString → Option (List ℕ)
answer_body true [] id = some (1 ∷ id)
answer_body false [] id = some (0 ∷ id)
answer_body _ (x ∷ xs) id = none

abbrev pair_marshal : Message → Option (List ℕ)
pair_marshal (establish_req r) = some (r.mode ∷ r.addr)
pair_marshal (establish_response r) = some (r.mode ∷ r.error)
pair_marshal (assign_task r) = request_body r.task_id r.func_name r.args r.dependencies r.args_type
pair_marshal (assign_task_resp r) = answer_body r.accepted r.worker_id r.task_id
pair_marshal _ = none

abbrev plain_request : ℕ → GoString → AssignTaskRequest
plain_request x f = record {
  task_id = x ∷ [];
  func_name = f;
  args = [];
  dependencies = [];
  args_type = [];
}

abbrev pair_unmarshal : Kind → List ℕ → Option Message
pair_unmarshal k_establish_req (x ∷ b) = some (establish_req (record { addr = b; mode = x }))
pair_unmarshal k_establish_response (x ∷ b) =
    some (establish_response (record { mode = x; error = b }))
pair_unmarshal k_assign_task (x ∷ b) = some (assign_task (plain_request x b))
pair_unmarshal k_assign_task_resp (x ∷ b) =
    some (assign_task_resp (record { accepted = x == 1; worker_id = []; task_id = b }))
pair_unmarshal _ b = none

request_law :
    (t f : GoString) (as' : List (List ℕ)) (ds ts : List GoString) (b : List ℕ)
    → request_body t f as' ds ts ≡ some b
    → pair_unmarshal k_assign_task b
      ≡ some (
          assign_task
            (record { task_id = t; func_name = f; args = as'; dependencies = ds; args_type = ts }))
request_law (x ∷ []) f [] [] [] b e =
    let q : x ∷ f ≡ b = cc in
    subst (λ c. pair_unmarshal k_assign_task c ≡ some (assign_task (plain_request x f))) q refl
request_law _ _ _ _ _ b e = cc

answer_law :
    (a : Bool) (w id : GoString) (b : List ℕ)
    → answer_body a w id ≡ some b
    → pair_unmarshal k_assign_task_resp b
      ≡ some (assign_task_resp (record { accepted = a; worker_id = w; task_id = id }))
answer_law true [] id b e =
    let q : 1 ∷ id ≡ b = cc in
    subst
      (λ c.
        pair_unmarshal k_assign_task_resp c
        ≡ some (assign_task_resp (record { accepted = true; worker_id = []; task_id = id })))
      q refl
answer_law false [] id b e =
    let q : 0 ∷ id ≡ b = cc in
    subst
      (λ c.
        pair_unmarshal k_assign_task_resp c
        ≡ some (assign_task_resp (record { accepted = false; worker_id = []; task_id = id })))
      q refl
answer_law true (x ∷ xs) id b e = cc
answer_law false (x ∷ xs) id b e = cc

pub pair_round_trip :
    (m : Message) (b : List ℕ) → pair_marshal m ≡ some b → pair_unmarshal (kind_of m) b ≡ some m
unfolding kind_of
pair_round_trip (establish_req r) b e =
    let q : r.mode ∷ r.addr ≡ b = cc in
    subst (λ c. pair_unmarshal k_establish_req c ≡ some (establish_req r)) q refl
pair_round_trip (establish_response r) b e =
    let q : r.mode ∷ r.error ≡ b = cc in
    subst (λ c. pair_unmarshal k_establish_response c ≡ some (establish_response r)) q refl
pair_round_trip (assign_task r) b e =
    request_law r.task_id r.func_name r.args r.dependencies r.args_type b e
pair_round_trip (assign_task_resp r) b e = answer_law r.accepted r.worker_id r.task_id b e
pair_round_trip _ b e = cc

pub pair_kinds : (k : Kind) (b : List ℕ) (m : Message) → pair_unmarshal k b ≡ some m → kind_of m ≡ k
unfolding kind_of
pair_kinds k_establish_req (x ∷ b) m e =
    let q : establish_req (record { addr = b; mode = x }) ≡ m = cc in ap kind_of (sym q)
pair_kinds k_establish_response (x ∷ b) m e =
    let q : establish_response (record { mode = x; error = b }) ≡ m = cc in ap kind_of (sym q)
pair_kinds k_assign_task (x ∷ b) m e =
    let q : assign_task (plain_request x b) ≡ m = cc in ap kind_of (sym q)
pair_kinds k_assign_task_resp (x ∷ b) m e =
    let q : assign_task_resp (record { accepted = x == 1; worker_id = []; task_id = b }) ≡ m = cc in
    ap kind_of (sym q)
pair_kinds _ b m e = cc

abbrev pub pair_proto : Proto
pair_proto = record {
  marshal = pair_marshal;
  unmarshal = pair_unmarshal;
  unmarshal-marshal = pair_round_trip;
  unmarshal-kind = pair_kinds;
}

-- A scheduler's connection to the worker at "A", and the worker's to the scheduler.
abbrev dialer : Client
unfolding new_connection
dialer = new_connection 1 (65 ∷ []) []

abbrev hello_body : List ℕ
hello_body = 0 ∷ 1 ∷ 0 ∷ 0 ∷ 0 ∷ 0 ∷ 0 ∷ 0 ∷ 0 ∷ 1 ∷ 2 ∷ []

abbrev hello_answer : List ℕ
hello_answer = 0 ∷ 2 ∷ 0 ∷ 0 ∷ 0 ∷ 0 ∷ 0 ∷ 0 ∷ 0 ∷ 1 ∷ 1 ∷ 79 ∷ 75 ∷ []

abbrev dialing_scheduler : Scheduler
dialing_scheduler = record {
  manager = record {
    next_id = 1;
    next_seq = 0;
    heap = (1, outbound (dialed 0 4 hello_body dialer)) ∷ [];
    conns = [];
  };
  worker_conns = [];
  gcs_conns = [];
  task_chan = [];
  task_chan_size = 2;
  pending = [];
}

abbrev accepting_worker : Worker
unfolding incoming
accepting_worker = record {
  manager = record {
    next_id = 3;
    next_seq = 0;
    heap = (3, inbound (incoming 3 (66 ∷ []))) ∷ [];
    conns = (3, 3) ∷ [];
  };
  gcs_conn = none;
  register_chan = [];
  register_chan_size = 1;
  objects = [];
  get_object_location_chan = [];
  get_object_chan = [];
}

handshake_example :
    enter all_accepted pair_proto 2 0 4 dialer ≡ at inner (dialed 0 4 hello_body dialer)
unfolding new_connection incoming lookup encode_payload put_uint
handshake_example =
    (handshake all_accepted pair_proto list_reader list_reader (make_frame hello_body)
      (make_frame hello_answer) 0 1 2 4 3 1 hello_body hello_answer dialer (incoming 3 (66 ∷ []))
      accepting_worker dialing_scheduler refl (omega arith) refl (omega arith) refl refl refl refl
      refl refl refl).0

-- A task for addTowInt without arguments, and the two nodes once they are connected.
abbrev sum_task : Task
sum_task = record {
  id = 9 ∷ [];
  func_name = codes "addTowInt";
  args = [];
  args_type = [];
  dependencies = [];
}

abbrev sum_body : List ℕ
sum_body = 0 ∷ 112 ∷ 0 ∷ 0 ∷ 0 ∷ 0 ∷ 0 ∷ 0 ∷ 0 ∷ 2 ∷ 9 ∷ codes "addTowInt"

abbrev sum_answer : List ℕ
sum_answer = 0 ∷ 113 ∷ 0 ∷ 0 ∷ 0 ∷ 0 ∷ 0 ∷ 0 ∷ 0 ∷ 2 ∷ 0 ∷ 9 ∷ []

abbrev joined_client : Client
joined_client = record (dialed 0 4 hello_body dialer) { established = true }

abbrev joined_scheduler : Scheduler
joined_scheduler = record dialing_scheduler {
  manager = record dialing_scheduler.manager { heap = (1, outbound joined_client) ∷ [] };
  task_chan = sum_task ∷ [];
}

trip_example :
    (s' : Scheduler) × (seen
        (λ c. c)
        (serve list_reader pair_proto
          (receive all_accepted pair_proto 7 1)
          (make_frame sum_answer)
          (assigned 1 sum_body sum_task [] joined_client joined_scheduler))
      ≡ done stay [] s')
    × (lookup (9 ∷ []) s'.pending ≡ none)
    × (s'.task_chan ≡ sum_task ∷ [])
unfolding new_connection incoming lookup encode_payload put_uint request_of
trip_example =
    (trip all_accepted pair_proto list_reader list_reader (make_frame sum_body)
      (make_frame sum_answer) 5 7 4 3 1 sum_body sum_answer sum_task [] joined_client
      (incoming 3 (66 ∷ [])) accepting_worker joined_scheduler refl refl refl (omega arith) refl
      (omega arith) refl refl refl (omega arith) refl refl refl (omega arith) refl).2

-- A request to add the one number that a single byte is taken for.
abbrev short_request : AssignTaskRequest
short_request = record {
  task_id = 9 ∷ [];
  func_name = codes "addTowInt";
  args = (1 ∷ []) ∷ [];
  dependencies = [];
  args_type = codes "int" ∷ [];
}

on_assign_task-fails_example :
    on_assign_task all_accepted pair_proto 17 3
      (record { uri = 112; seq_id = 2 })
      short_request
      accepting_worker
    ≡ (
      ok tt,
      with_peer_at 3
          (with_frame (incoming 3 (66 ∷ [])) (make_frame sum_answer))
          (stored 17 (task_of short_request ((1 ∷ []) ∷ [])) 0 accepting_worker),
    )
unfolding incoming lookup encode_payload put_uint resolve_args add_tow_int_func decode_int
on_assign_task-fails_example =
    on_assign_task-fails all_accepted pair_proto 3 17 (record { uri = 112; seq_id = 2 })
      short_request ((1 ∷ []) ∷ []) data_too_short sum_answer (incoming 3 (66 ∷ []))
      accepting_worker refl refl refl (omega arith) refl refl refl
