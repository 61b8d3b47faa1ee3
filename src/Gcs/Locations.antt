-- ===== src/Gcs/Locations.antt =====
-- The table of object locations, and the request that asks for one.
use mini_ray.Worker.Packets.Report.{report_of}
use mini_ray.Base.{
  ok, ◌≡◌, if◌then◌else◌, ◌∙◌, panics, sym, ℕ, List, GoString, nil_deref, none, ◌==◌, some, ◌++◌,
  arith, refl, nat_eq, bytes_eq,
}
use mini_ray.Base.Maps.{insert, lookup-insert, lookup}
use mini_ray.Client.{Net}
use mini_ray.Codec.{ray_report_task_result, ray_get_object_location, Header}
use mini_ray.Codec.Dispatch.{uri_of}
use mini_ray.External.{Reader, Proto}
use mini_ray.Frame.{make_frame}
use mini_ray.Messages.{
  as_report_task_result, Message, as_get_object_data, ReportTaskResultRequest, kind_of,
  get_object_data,
}
use mini_ray.Traffic.{serve, crashed}
use mini_ray.Traffic.Bytes.{seen}
use mini_ray.Traffic.Stream.{serve-first, Packet, IsSent}
use mini_ray.Gcs.{on_packet, on_report_task_result, Gcs, on_manager, returned}
use mini_ray.Peers.{with_peer, Peer, peer_remote}

module _ (net : Net) (p : Proto) where
  not_object_data :
      (m : Message) → ray_get_object_location ≡ uri_of (kind_of m) → as_get_object_data m ≡ none
  unfolding uri_of kind_of as_get_object_data
  not_object_data (get_object_data r) e = absurd (omega arith)
  not_object_data _ e = refl

  pub on_packet-get_object_location :
      (conn : ℕ) (h : Header) (m : Message) (s : Gcs)
      → h.uri ≡ ray_get_object_location
      → h.uri ≡ uri_of (kind_of m)
      → on_packet net p conn h m s ≡ (panics nil_deref, s)
  unfolding on_packet
  on_packet-get_object_location conn h m s u v = rw (u, not_object_data m (sym u ∙ v)) refl

  -- If the buffer begins with the frame of a packet under the number of RayGetObjectLocation, a
  -- call of the GCS's OnTraffic panics with a nil dereference, in the state it began in.
  pub serve-get_object_location :
      {C : Type 0} (g : Reader C) (c : C) (conn : ℕ) (q : Packet) (rest : List ℕ) (s : Gcs)
      → IsSent p q
      → q.header.uri ≡ ray_get_object_location
      → g.inbound c ≡ make_frame q.inner ++ rest
      → seen g.inbound (serve g p (on_packet net p conn) c s) ≡ crashed nil_deref rest s
  serve-get_object_location g c conn q rest s v u whole =
      serve-first g p (on_packet net p conn) c q rest s v whole
      ∙ rw (on_packet-get_object_location conn q.header q.message s u v.matches) refl

  -- A report over a connection of the GCS records the address of that connection for the reported
  -- object, and changes the address of no other object.
  pub on_report_task_result-lookup :
      (conn : ℕ) (c : Peer) (r : ReportTaskResultRequest) (id : GoString) (s : Gcs)
      → lookup conn s.manager.heap ≡ some c
      → lookup id (on_report_task_result net p conn r s).1.object_location_map
        ≡ (if r.object_id == id then some (peer_remote c) else lookup id s.object_location_map)
  unfolding on_report_task_result on_manager returned with_peer
  on_report_task_result-lookup conn c r id s e =
      rw (e, on_report_task_result)
        (lookup-insert r.object_id id (peer_remote c) s.object_location_map)

module _ (net : Net) (p : Proto) (k : ℕ) where
  -- A report, as OnPacket takes it.
  pub on_packet-report :
      (seq : ℕ) (id : GoString) (c : Peer) (s : Gcs)
      → lookup k s.manager.heap ≡ some c
      → on_packet net p k (record { uri = ray_report_task_result; seq_id = seq }) (report_of id) s
        ≡ (
          ok tt,
          record s {
            manager = record s.manager { heap = insert k c s.manager.heap };
            object_location_map = insert id (peer_remote c) s.object_location_map;
          },
        )
  unfolding on_packet as_report_task_result on_report_task_result on_manager returned with_peer
  on_packet-report seq id c s e = rw e refl
