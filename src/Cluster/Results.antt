-- ===== src/Cluster/Results.antt =====
-- The results of a worker, from its loop to the table of the GCS: Loop of
-- core/worker/connection_manger.go, OnTraffic and onReportTaskResult of core/gcs.
use mini_ray.Codec.Decode.{split_frame}
use mini_ray.Frame.{make_frame}
use mini_ray.Traffic.{serve, done, stay}
use mini_ray.Traffic.Bytes.{seen}
use mini_ray.Worker.{Worker}
use mini_ray.Base.{
  append-nil, sym, ◌∷◌, All, ◌==◌, Bool, ◌||◌, ℕ, true, ok, ◌∙◌, length, arith, Option, some,
  GoString, false, ◌%◌, ◌≡◌, and_then, ap, [], ◌++◌, if◌then◌else◌, refl, ◌<◌, List, ◌+◌, ◌^◌,
  nat_eq, bytes_eq,
}
use mini_ray.Cluster.{packet_of-IsSent}
use mini_ray.Base.Maps.{lookup-insert_self, lookup-insert, insert, lookup}
use mini_ray.Client.{Net}
use mini_ray.Gcs.Locations.{on_packet-report}
use mini_ray.Codec.{ray_report_task_result, encode_payload, Header}
use mini_ray.Codec.Dispatch.{uri_of}
use mini_ray.Codec.Endian.{put_uint}
use mini_ray.External.{Reader, Proto}
use mini_ray.Gcs.{Gcs, on_packet}
use mini_ray.Messages.{kind_of}
use mini_ray.Peers.{inbound, Connection, peer_remote, Peer}
use mini_ray.Traffic.Stream.{serve-stream, stream, handle_all, Packet, IsSent}
use mini_ray.Worker.Packets.Report.{
  Marshals, reported, report_rounds-drains, report_rounds, report_of,
}

-- The packets of the reports of these objects, numbered from the number after n.
abbrev pub report_packets : (GoString → List ℕ) → ℕ → List GoString → List Packet
report_packets body n [] = []
report_packets body n (id ∷ ids) =
    let seq = (n + 1) % 2 ^ 64 in
    record {
      header = record { uri = ray_report_task_result; seq_id = seq };
      message = report_of id;
      inner = put_uint 2 ray_report_task_result ++ (put_uint 8 seq ++ body id);
    }
    ∷ report_packets body seq ids

-- Their frames, each on top of those before.
abbrev pub frames_onto : List Packet → List (List ℕ) → List (List ℕ)
frames_onto [] sent = sent
frames_onto (q ∷ qs) sent = frames_onto qs (make_frame q.inner ∷ sent)

reported_lem :
    (body : GoString → List ℕ) (ids : List GoString) (n : ℕ) (sent : List (List ℕ))
    → reported body n ids sent ≡ frames_onto (report_packets body n ids) sent
reported_lem body [] n sent = refl
reported_lem body (id ∷ ids) n sent = reported_lem body ids ((n + 1) % 2 ^ 64) _

abbrev pub reported_in : GoString → List GoString → Bool
reported_in id [] = false
reported_in id (x ∷ xs) = (x == id) || reported_in id xs

located :
    (b a : Bool) (x y z : Option GoString)
    → z ≡ (if a then x else y)
    → (if b then x else z) ≡ (if a || b then x else y)
located true true x y z e = refl
located true false x y z e = refl
located false true x y z e = e
located false false x y z e = e

report_size :
    (u q : ℕ) (body : List ℕ) → length (put_uint 2 u ++ (put_uint 8 q ++ body)) ≡ 10 + length body
unfolding put_uint
report_size u q body = omega arith

module _ (net : Net) (p : Proto) (k : ℕ) where
  module _ (body : GoString → List ℕ) where
    handle-reports :
        (ids : List GoString) (n : ℕ) (c : Peer) (s : Gcs)
        → lookup k s.manager.heap ≡ some c
        → (s' : Gcs) × (handle_all (on_packet net p k) (report_packets body n ids) s ≡ (ok tt, s'))
          × ((id : GoString)
              → lookup id s'.object_location_map ≡ (
                  if reported_in id ids
                  then some (peer_remote c)
                  else lookup id s.object_location_map))
    handle-reports [] n c s e = (s, refl, λ id. refl)
    handle-reports (x ∷ ids) n c s e =
        let s1 : Gcs = record s {
          manager = record s.manager { heap = insert k c s.manager.heap };
          object_location_map = insert x (peer_remote c) s.object_location_map;
        } in
        let (s', all, here) =
          handle-reports ids ((n + 1) % 2 ^ 64) c s1 (lookup-insert_self k c s.manager.heap) in
        (
          s',
          ap
                (λ r. and_then r (λ _.
                  handle_all (on_packet net p k) (report_packets body ((n + 1) % 2 ^ 64) ids)))
                (on_packet-report net p k ((n + 1) % 2 ^ 64) x c s e)
              ∙ all,
          λ id.
              here id
              ∙ located (reported_in id ids) (x == id) (some (peer_remote c))
                  (lookup id s.object_location_map) _
                  (lookup-insert x id (peer_remote c) s.object_location_map),
        )

    reports-IsSent :
        (ids : List GoString) (n : ℕ)
        → All (Marshals p body) ids
        → All (λ id. length (body id) < 2 ^ 31) ids
        → All (IsSent p) (report_packets body n ids)
    unfolding encode_payload
    reports-IsSent [] n ms ss = tt
    reports-IsSent (id ∷ ids) n (marshals, ms) (small, ss) =
        let seq : ℕ = (n + 1) % 2 ^ 64 in
        let hd : Header = record { uri = ray_report_task_result; seq_id = seq } in
        let inner_bytes : List ℕ =
          put_uint 2 ray_report_task_result ++ (put_uint 8 seq ++ body id) in
        let encoded : encode_payload p hd (report_of id) ≡ ok inner_bytes =
          rw (encode_payload, marshals) refl in
        let size = report_size ray_report_task_result seq (body id) in
        (
          packet_of-IsSent p hd (report_of id) inner_bytes (unfold kind_of uri_of in refl)
              (omega arith) encoded (omega (arith, size, small)),
          reports-IsSent ids seq ms ss,
        )

    -- A worker has results on its channel, each report of which can be marshalled in less than 2^31
    -- bytes, and the connection of its GCS is an incoming one with a transport; the GCS has a
    -- connection object for the worker, and in its buffer the frames of these reports and nothing
    -- else. Then as many rounds of Loop of the worker as there are results leave its channel empty
    -- and have handed exactly these frames to the connection; and OnTraffic of the GCS ends with
    -- gnet.None and nothing left over, in a state in which it knows each of the reported objects
    -- under the address of the worker, and of every other object what it knew before.
    pub report_rounds-serve :
        {C : Type 0} (g : Reader C) (input : C) (ids : List GoString) (conn : ℕ) (c : Connection)
        (w : Worker) (d : Peer) (s : Gcs)
        → All (Marshals p body) ids
        → All (λ id. length (body id) < 2 ^ 31) ids
        → w.register_chan ≡ ids
        → w.gcs_conn ≡ some conn
        → lookup conn w.manager.heap ≡ some (inbound c)
        → c.gnet_c ≡ true
        → lookup k s.manager.heap ≡ some d
        → g.inbound input ≡ stream (report_packets body w.manager.next_id ids)
        → ((report_rounds net p (length ids) w).1.register_chan ≡ [])
          × (lookup conn (report_rounds net p (length ids) w).1.manager.heap
              ≡ some (
                  inbound (record c {
                    outbox = frames_onto (report_packets body w.manager.next_id ids) c.outbox;
                  })))
          × ((s' : Gcs) × (seen g.inbound (serve g p (on_packet net p k) input s) ≡ done stay [] s')
              × ((id : GoString)
                  → lookup id s'.object_location_map ≡ (
                      if reported_in id ids
                      then some (peer_remote d)
                      else lookup id s.object_location_map)))
    report_rounds-serve g input ids conn c w d s marshals small q to here open_transport there e =
        let (fine, drained, sent) =
          report_rounds-drains net p body conn ids c w marshals q to here open_transport in
        let (s', all, known) = handle-reports ids w.manager.next_id d s there in
        (
          drained,
          sent
              ∙ ap (λ o. some (inbound (record c { outbox = o })))
                  (reported_lem body ids w.manager.next_id c.outbox),
          (
            s',
            serve-stream g p (on_packet net p k) input (report_packets body w.manager.next_id ids)
                [] s s' (reports-IsSent ids w.manager.next_id marshals small)
                (e ∙ sym (append-nil _)) (unfold split_frame in refl) all,
            known,
          ),
        )
