-- ===== src/Gcs.antt =====
-- core/gcs/connection_manager.go and the state of core/gcs/gcs.go: where objects are.
pub mod Locations
pub mod Safety
pub mod Node
pub mod Links
pub mod Reach
use mini_ray.Base.{
  if◌then◌else◌, pure, gets, [], Option, ℕ, List, GoString, none, M, ◌==◌, ◌>>=◌, some, modify,
  Result, codes, nat_eq, bytes_eq, ◌>>◌,
}
use mini_ray.Base.Maps.{insert, Map, lookup}
use mini_ray.Client.{Net}
use mini_ray.Codec.{
  ray_get_object_location, ray_report_task_result, ray_get_object_location_resp, Header,
  encode_payload, meta_shake_hand, meta_establish_ack, meta_establish,
}
use mini_ray.External.{Proto}
use mini_ray.Messages.{
  Message, get_object_location_resp, as_get_object_data, ReportTaskResultRequest, as_establish_req,
  as_report_task_result, GetObjectDataRequest, establish_response,
}
use mini_ray.Peers.{
  empty_manager, with_peer, take_id, peer_set_established, deref, peer_send, peer_notify_establish,
  peer_remote, Manager,
}

pub record Gcs : Type 0 where
  pub manager : Manager
  pub object_location_map : Map GoString GoString

unfoldable pub new_gcs : Gcs
unfolding empty_manager
new_gcs = record { manager = empty_manager; object_location_map = [] }

pub returned : {A : Type 0} → Gcs → Result A × Manager → Result A × Gcs
returned s (r, m) = (r, record s { manager = m })

pub on_manager : {A : Type 0} → M Manager A → M Gcs A
unfolding returned
on_manager f s = returned s (f s.manager)

pub lift : {A : Type 0} → Result A → M Gcs A
lift r s = (r, s)

module _ (net : Net) (p : Proto) where
  pub send_to : ℕ → List ℕ → M Gcs (Unit {0})
  unfolding on_manager
  send_to conn payload = on_manager (with_peer conn (peer_send net payload))

  -- The answer names no mode.
  unfoldable pub on_establish : ℕ → Header → M Gcs (Unit {0})
  unfolding lift on_manager send_to
  on_establish conn header = do
    on_manager (with_peer conn (modify peer_set_established))
    payload ← lift (
        encode_payload p (record { uri = meta_establish_ack; seq_id = header.seq_id })
          (establish_response (record { mode = 0; error = codes "OK" })))
    send_to conn payload

  unfoldable pub on_establish_ack : ℕ → M Gcs (Unit {0})
  unfolding on_manager
  on_establish_ack conn = on_manager (with_peer conn (modify peer_notify_establish))

  -- The object is where the connection that reports it comes from.
  unfoldable pub on_report_task_result : ℕ → ReportTaskResultRequest → M Gcs (Unit {0})
  unfolding on_manager
  on_report_task_result conn req = do
    remote ← on_manager (with_peer conn (gets peer_remote))
    modify
        (λ s. record s { object_location_map = insert req.object_id remote s.object_location_map })

  abbrev pub node_addr_of : Option GoString → GoString
  node_addr_of none = []
  node_addr_of (some location) = location

  -- An unknown object is answered with an empty address; the answer names no uuid.
  unfoldable on_get_object_location : ℕ → GetObjectDataRequest → M Gcs (Unit {0})
  unfolding lift on_manager send_to
  on_get_object_location conn req = do
    location ← gets (λ s. lookup req.object_id s.object_location_map)
    seq_id ← on_manager take_id
    payload ← lift (
        encode_payload p (record { uri = ray_get_object_location_resp; seq_id = seq_id })
          (get_object_location_resp (record { node_addr = node_addr_of location; uuid = [] })))
    send_to conn payload

  -- OnPacket: the request for a location is asserted to be a GetObjectDataRequest.
  unfoldable pub on_packet : ℕ → Header → Message → M Gcs (Unit {0})
  unfolding on_establish on_establish_ack on_report_task_result on_get_object_location
  on_packet conn header payload =
      if header.uri == meta_establish
      then deref (as_establish_req payload) >>= (λ req. on_establish conn header)
      else if header.uri == meta_establish_ack
      then on_establish_ack conn
      else if header.uri == meta_shake_hand
      then pure tt
      else if header.uri == ray_report_task_result
      then deref (as_report_task_result payload) >>= on_report_task_result conn
      else if header.uri == ray_get_object_location
      then deref (as_get_object_data payload) >>= on_get_object_location conn
      else pure tt
