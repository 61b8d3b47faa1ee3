-- ===== src/Tests/Reports.antt =====
-- A worker that reports its results, and a GCS that is told.
use mini_ray.Cluster.Results.{report_packets, report_rounds-serve}
use mini_ray.Traffic.Stream.{stream}
use mini_ray.Base.{
  subst, some, true, refl, ◌≡◌, List, [], GoString, ap, none, arith, Option, sym, ok, ℕ, ◌∷◌,
  nat_eq, bytes_eq,
}
use mini_ray.Tests.Inputs.{list_reader, all_accepted, small_proto}
use mini_ray.Base.Maps.{insert, lookup}
use mini_ray.Base.Safety.{returns}
use mini_ray.Worker.Packets.Sound.{IsSound}
use mini_ray.Worker.Packets.{on_packet}
use mini_ray.Codec.Dispatch.{uri_of}
use mini_ray.Codec.Endian.{put_uint}
use mini_ray.Worker.Node.{accept}
use mini_ray.External.{Proto}
use mini_ray.Frame.{make_frame}
use mini_ray.Gcs.{Gcs, new_gcs}
use mini_ray.Gcs.Reach.{Reach-Step-IsFiled}
use mini_ray.Peers.Tabled.{IsFiled}
use mini_ray.Messages.{
  Message, k_report_task_result, report_task_result, Kind, shake_hand_req, kind_of,
}
use mini_ray.Peers.{take_id, on_open, empty_manager, Connection, inbound, incoming}
use mini_ray.Worker.{Worker}
use mini_ray.Gcs
use mini_ray.Worker.Node.{new_worker}
use mini_ray.Worker.Packets.Report.{report_of, report_rounds-drains, report_rounds}
use mini_ray.Worker.Reach.{accepts, fresh, next, receives, Reach-Step-IsSound}

-- A format that knows the reports of results.
abbrev pub report_body : GoString → GoString → GoString → List ℕ → Option (List ℕ)
report_body [] [] id [] = some id
report_body _ _ _ _ = none

abbrev pub report_marshal : Message → Option (List ℕ)
report_marshal (report_task_result r) = report_body r.task_id r.status r.object_id r.result_data
report_marshal _ = none

abbrev pub report_unmarshal : Kind → List ℕ → Option Message
report_unmarshal k_report_task_result b = some (report_of b)
report_unmarshal _ b = none

report_law :
    (t st id : GoString) (d b : List ℕ)
    → report_body t st id d ≡ some b
    → report_unmarshal k_report_task_result b
      ≡ some (
          report_task_result (record { task_id = t; status = st; object_id = id; result_data = d }))
report_law [] [] id [] b e =
    let q : id ≡ b = cc in
    subst (λ c. report_unmarshal k_report_task_result c ≡ some (report_of id)) q refl
report_law _ _ _ _ b e = cc

pub report_round_trip :
    (m : Message) (b : List ℕ) → report_marshal m ≡ some b → report_unmarshal (kind_of m) b ≡ some m
unfolding kind_of
report_round_trip (report_task_result r) b e =
    report_law r.task_id r.status r.object_id r.result_data b e
report_round_trip _ b e = cc

pub report_kinds :
    (k : Kind) (b : List ℕ) (m : Message) → report_unmarshal k b ≡ some m → kind_of m ≡ k
unfolding kind_of
report_kinds k_report_task_result b m e = let q : report_of b ≡ m = cc in ap kind_of (sym q)
report_kinds _ b m e = cc

abbrev pub report_proto : Proto
report_proto = record {
  marshal = report_marshal;
  unmarshal = report_unmarshal;
  unmarshal-marshal = report_round_trip;
  unmarshal-kind = report_kinds;
}

-- A worker with a connection from the GCS and two results to report.
abbrev gcs_link : Connection
unfolding incoming
gcs_link = incoming 1 (71 ∷ [])

abbrev full_worker : Worker
unfolding incoming
full_worker = record {
  manager = record { next_id = 1; next_seq = 0; heap = (1, inbound gcs_link) ∷ []; conns = [] };
  gcs_conn = some 1;
  register_chan = (7 ∷ []) ∷ (8 ∷ []) ∷ [];
  register_chan_size = 2;
  objects = [];
  get_object_location_chan = [];
  get_object_chan = [];
}

report_rounds-drains_example :
    ((report_rounds all_accepted report_proto 2 full_worker).0 ≡ ok tt)
    × ((report_rounds all_accepted report_proto 2 full_worker).1.register_chan ≡ [])
    × (lookup 1 (report_rounds all_accepted report_proto 2 full_worker).1.manager.heap
        ≡ some (
            inbound (record gcs_link {
              outbox =
                  make_frame (0 ∷ 108 ∷ 0 ∷ 0 ∷ 0 ∷ 0 ∷ 0 ∷ 0 ∷ 0 ∷ 3 ∷ 8 ∷ [])
                  ∷ make_frame (0 ∷ 108 ∷ 0 ∷ 0 ∷ 0 ∷ 0 ∷ 0 ∷ 0 ∷ 0 ∷ 2 ∷ 7 ∷ [])
                  ∷ [];
            })))
unfolding lookup incoming put_uint
report_rounds-drains_example =
    report_rounds-drains all_accepted report_proto (λ id. id) 1 ((7 ∷ []) ∷ (8 ∷ []) ∷ []) gcs_link
      full_worker (refl, (refl, tt)) refl refl refl refl

-- A worker that has accepted a connection takes a heartbeat.
abbrev open_worker : Worker
open_worker = (accept (120 ∷ []) (new_worker 1)).1

Reach-Step-IsSound_example :
    IsSound
      (on_packet all_accepted small_proto 9 1
        (record { uri = 3; seq_id = 5 })
        shake_hand_req
        open_worker).1
    × (returns
          (on_packet all_accepted small_proto 9 1
            (record { uri = 3; seq_id = 5 })
            shake_hand_req
            open_worker).0
        ≡ true)
unfolding uri_of kind_of accept on_open take_id new_worker empty_manager insert lookup incoming
Reach-Step-IsSound_example =
    Reach-Step-IsSound all_accepted small_proto 1 open_worker
      (
        returns
            (on_packet all_accepted small_proto 9 1 (record { uri = 3; seq_id = 5 }) shake_hand_req
              open_worker).0,
        (on_packet all_accepted small_proto 9 1 (record { uri = 3; seq_id = 5 }) shake_hand_req
            open_worker).1,
      )
      (next fresh (accepts (new_worker 1) (120 ∷ [])))
      (receives open_worker 9 1 (record { uri = 3; seq_id = 5 }) shake_hand_req refl tt
        (inbound (incoming 1 (120 ∷ [])), refl))

abbrev told_gcs : Gcs
unfolding incoming
told_gcs = record {
  manager = record { next_id = 1; next_seq = 0; heap = (1, inbound gcs_link) ∷ []; conns = [] };
  object_location_map = [];
}

-- A GCS that has accepted a connection from a worker takes a report.
abbrev open_gcs : Gcs
open_gcs = (Gcs.Node.accept (120 ∷ []) new_gcs).1

gcs_Reach-Step-IsFiled_example :
    IsFiled
      (Gcs.on_packet all_accepted report_proto 1
        (record { uri = 108; seq_id = 5 })
        (report_of (7 ∷ []))
        open_gcs).1.manager
    × (returns
          (Gcs.on_packet all_accepted report_proto 1
            (record { uri = 108; seq_id = 5 })
            (report_of (7 ∷ []))
            open_gcs).0
        ≡ true)
unfolding uri_of kind_of Gcs.Node.accept on_open take_id new_gcs empty_manager insert lookup
    incoming
gcs_Reach-Step-IsFiled_example =
    Reach-Step-IsFiled all_accepted report_proto open_gcs
      (
        returns
            (Gcs.on_packet all_accepted report_proto 1 (record { uri = 108; seq_id = 5 })
              (report_of (7 ∷ [])) open_gcs).0,
        (Gcs.on_packet all_accepted report_proto 1 (record { uri = 108; seq_id = 5 })
            (report_of (7 ∷ [])) open_gcs).1,
      )
      (Gcs.Reach.next Gcs.Reach.fresh (Gcs.Reach.accepts new_gcs (120 ∷ [])))
      (Gcs.Reach.receives open_gcs 1 (record { uri = 108; seq_id = 5 }) (report_of (7 ∷ [])) refl
        (λ e. absurd (omega arith)) (inbound (incoming 1 (120 ∷ [])), refl))

report_rounds-serve_example :
    (report_rounds all_accepted report_proto 2 full_worker).1.register_chan ≡ []
unfolding lookup incoming
report_rounds-serve_example =
    (report_rounds-serve all_accepted report_proto 1 (λ id. id) list_reader
      (stream (report_packets (λ id. id) 1 ((7 ∷ []) ∷ (8 ∷ []) ∷ []))) ((7 ∷ []) ∷ (8 ∷ []) ∷ []) 1
      gcs_link full_worker (inbound gcs_link) told_gcs (refl, (refl, tt))
      (omega arith, (omega arith, tt)) refl refl refl refl refl refl).0
