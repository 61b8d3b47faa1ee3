-- ===== src/Worker/Packets/Fetch.antt =====
-- getRemoteObject of core/worker/connection_manger.go: the location of an object from the GCS, then
-- the object from the worker there.
use mini_ray.Base.{
  gets, gcs_conn_not_found, [], Option, List, modify, pure, ℕ, some, none, Bool, M, fail, GoString,
  nat_eq, bytes_eq, ◌>>=◌, ◌>>◌,
}
use mini_ray.Base.Maps.{lookup, insert}
use mini_ray.Client.{Net}
use mini_ray.Codec.{encode_payload, ray_get_object_location, ray_get_object_data}
use mini_ray.External.{Proto}
use mini_ray.Messages.{get_object_location, get_object_data}
use mini_ray.Peers.{take_id, ignore}
use mini_ray.Worker.{Worker}
use mini_ray.Worker.Channels.{select, chan_receive, get_connection}
use mini_ray.Worker.Packets.{send_to, report_to, on_manager, lift}

-- The first wait, for the address of the worker.
pub await_location : Bool → GoString → M Worker GoString
unfolding lift
await_location ended uuid = do
  w ← gets (λ w. w)
  r ← lift (select ended (chan_receive (lookup uuid w.get_object_location_chan)))
  modify (λ w. record w { get_object_location_chan = insert uuid r.1 w.get_object_location_chan })
  pure r.0

-- The second wait, for the bytes of the object.
pub await_object : Bool → GoString → M Worker (List ℕ)
unfolding lift
await_object ended uuid = do
  w ← gets (λ w. w)
  r ← lift (select ended (chan_receive (lookup uuid w.get_object_chan)))
  modify (λ w. record w { get_object_chan = insert uuid r.1 w.get_object_chan })
  pure r.0

module _ (net : Net) (p : Proto) where
  -- The request for the object; a call of Send of the nil connection panics.
  unfoldable pub fetch_object : Bool → GoString → GoString → GoString → M Worker (List ℕ)
  unfolding lift on_manager report_to await_object
  fetch_object ended uuid id location = do
    seq_id ← on_manager take_id
    payload ← lift (
        encode_payload p (record { uri = ray_get_object_data; seq_id = seq_id })
          (get_object_data (record { object_id = id; requester_id = []; uuid = uuid })))
    w ← gets (λ w. w)
    report_to net p (get_connection location w.manager.conns) payload
    await_object ended uuid

  unfoldable pub ask_location :
      Bool → Bool → GoString → GoString → GoString → Option ℕ → M Worker (List ℕ)
  unfolding lift on_manager send_to await_location fetch_object
  ask_location ended ended' uuid uuid' id none = fail gcs_conn_not_found
  ask_location ended ended' uuid uuid' id (some conn) = do
    seq_id ← on_manager take_id
    payload ← lift (
        encode_payload p (record { uri = ray_get_object_location; seq_id = seq_id })
          (get_object_location (record { object_id = id; uuid = uuid })))
    ignore (send_to net p conn payload)
    location ← await_location ended uuid
    fetch_object ended' uuid' id location

  -- With both uuids, and for each wait whether its select takes the end of the context.
  unfoldable pub get_remote_object :
      Bool → Bool → GoString → GoString → GoString → M Worker (List ℕ)
  unfolding ask_location
  get_remote_object ended ended' uuid uuid' id w =
      ask_location ended ended' uuid uuid' id w.gcs_conn w
