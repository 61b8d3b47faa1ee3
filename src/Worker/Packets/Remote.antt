-- ===== src/Worker/Packets/Remote.antt =====
-- getRemoteObject of core/worker/connection_manger.go gives no object.
use mini_ray.Base.{
  [], ◌>>◌, panics, err, blocks, ok, Result, M, and_then, ◌>>=◌, ◌≢◌, List, ℕ, GoString, Bool,
  Option, none, some,
}
use mini_ray.Client.{Net}
use mini_ray.External.{Proto}
use mini_ray.Codec.{encode_payload, ray_get_object_location, ray_get_object_data}
use mini_ray.Messages.{get_object_location, get_object_data}
use mini_ray.Peers.{take_id, ignore}
use mini_ray.Worker.{Worker}
use mini_ray.Worker.Channels.{get_connection-none, get_connection}
use mini_ray.Worker.Packets.{report_to, lift, on_manager, send_to}
use mini_ray.Worker.Packets.Fetch.{
  await_object, await_location, fetch_object, ask_location, get_remote_object,
}

-- An action that gives no value in any state.
abbrev Fails : {A : Type 0} → M Worker A → Type 0
Fails {A} m = (w : Worker) (a : A) → (m w).0 ≢ ok a

and_then-Fails :
    {A B : Type 0} (r : Result A × Worker) (f : A → M Worker B)
    → ((a : A) → Fails (f a))
    → (b : B) → (and_then r f).0 ≢ ok b
and_then-Fails (ok a, w) f h b = h a w b
and_then-Fails (err e, w) f h b = λ x. cc
and_then-Fails (panics y, w) f h b = λ x. cc
and_then-Fails (blocks, w) f h b = λ x. cc

>>=-Fails :
    {A B : Type 0} (m : M Worker A) (f : A → M Worker B) → ((a : A) → Fails (f a)) → Fails (m >>= f)
>>=-Fails m f h w b = and_then-Fails (m w) f h b

module _ (net : Net) (p : Proto) where
  send_location-Fails :
      (ended : Bool) (uuid location : GoString) (payload : List ℕ) (w : Worker) (bytes : List ℕ)
      → ((report_to net p (get_connection location w.manager.conns) payload
            >> await_object ended uuid)
          w).0
        ≢ ok bytes
  unfolding report_to
  send_location-Fails ended uuid location payload w bytes =
      rw (get_connection-none location w.manager.conns) (λ x. cc)

  fetch_object-Fails :
      (ended : Bool) (uuid id location : GoString)
      → Fails (fetch_object net p ended uuid id location)
  unfolding fetch_object
  fetch_object-Fails ended uuid id location = >>=-Fails (on_manager take_id) _ (λ seq_id.
      >>=-Fails
        (lift (
          encode_payload p (record { uri = ray_get_object_data; seq_id = seq_id })
            (get_object_data (record { object_id = id; requester_id = []; uuid = uuid }))))
        _ (send_location-Fails ended uuid location))

  ask_location-Fails :
      (ended ended' : Bool) (uuid uuid' id : GoString) (o : Option ℕ)
      → Fails (ask_location net p ended ended' uuid uuid' id o)
  unfolding ask_location
  ask_location-Fails ended ended' uuid uuid' id none = λ w b x. cc
  ask_location-Fails ended ended' uuid uuid' id (some conn) =
      >>=-Fails (on_manager take_id) _ (λ seq_id.
        >>=-Fails
          (lift (
            encode_payload p (record { uri = ray_get_object_location; seq_id = seq_id })
              (get_object_location (record { object_id = id; uuid = uuid }))))
          _
          (λ payload. >>=-Fails (ignore (send_to net p conn payload)) _ (λ sent.
            >>=-Fails (await_location ended uuid) (fetch_object net p ended' uuid' id)
              (fetch_object-Fails ended' uuid' id))))

  -- getRemoteObject never returns the bytes of an object, whatever channels its maps have, what
  -- those hold, and what connections there are.
  pub get_remote_object-ne-ok :
      (ended ended' : Bool) (uuid uuid' id : GoString) (w : Worker) (bytes : List ℕ)
      → (get_remote_object net p ended ended' uuid uuid' id w).0 ≢ ok bytes
  unfolding get_remote_object
  get_remote_object-ne-ok ended ended' uuid uuid' id w bytes =
      ask_location-Fails ended ended' uuid uuid' id w.gcs_conn w bytes
