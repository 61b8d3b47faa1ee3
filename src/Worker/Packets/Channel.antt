-- ===== src/Worker/Packets/Channel.antt =====
-- What leaves the channel of results as it is: calls of the manager, and every packet but a request
-- to run a function. A round of Loop takes one result off it.
use mini_ray.Base.{
  ◌>>=◌, refl, sym, err, List, Result, ◌≢◌, ◌∷◌, true, none, subst, ok, Option, GoString, blocks,
  false, panics, Bool, some, if◌then◌else◌, ◌≡◌, modify, ◌==◌, M, ℕ, nat_eq, bytes_eq,
}
use mini_ray.Worker.{Worker}
use mini_ray.Base.Maps.{lookup}
use mini_ray.Worker.Channels.{Chan, chan_send}
use mini_ray.Worker.Packets.{
  location_sent, object_sent, report_round, on_packet, on_get_object_data, send_to,
  on_establish_ack, on_get_object_data_resp, lift, report_object, on_get_object_location_resp,
  returned, report_to, on_manager, on_establish,
}
use mini_ray.Base.Safety.{result-Keeps, >>=-Keeps, Keeps}
use mini_ray.Client.{Net}
use mini_ray.Codec.{Header, ray_assign_task}
use mini_ray.Codec.Dispatch.{uri_of}
use mini_ray.External.{Proto}
use mini_ray.Messages.{
  EstablishReq, establish_response, GetObjectDataRequest, as_get_object_data_resp, as_establish_req,
  assign_task, establish_req, get_object_location_resp, as_get_object_location_resp, kind_of,
  get_object_data, Message, get_object_data_resp, as_get_object_data,
}
use mini_ray.Peers.{
  take_id, ignore, with_peer, ignore_result, peer_notify_establish, peer_set_established, Manager,
  peer_send,
}
use mini_ray.Scheduler.{mode_gcs}

-- The channel holds these results, and has this capacity.
abbrev pub Has : List GoString → ℕ → Worker → Type 0
Has queue size w = (w.register_chan ≡ queue) × (w.register_chan_size ≡ size)

module _ (net : Net) (p : Proto) (queue : List GoString) (size : ℕ) where
  on_manager-Has : {A : Type 0} (f : M Manager A) → Keeps (Has queue size) (on_manager f)
  unfolding on_manager returned
  on_manager-Has f w v = v

  pub send_to-Has :
      (conn : ℕ) (payload : List ℕ) → Keeps (Has queue size) (send_to net p conn payload)
  unfolding send_to
  send_to-Has conn payload = on_manager-Has (with_peer conn (peer_send net payload))

  ignore-Has :
      (m : M Worker (Unit {0})) → Keeps (Has queue size) m → Keeps (Has queue size) (ignore m)
  ignore-Has m h w v = go (m w) (h w v)
    where
      go :
          (r : Result (Unit {0}) × Worker) → Has queue size r.1 → Has queue size (ignore_result r).1
      go (ok u, w) l = l
      go (err e, w) l = l
      go (panics x, w) l = l
      go (blocks, w) l = l

  encoded-Has :
      (r : Result (List ℕ)) (f : List ℕ → M Worker (Unit {0}))
      → ((payload : List ℕ) → Keeps (Has queue size) (f payload))
      → Keeps (Has queue size) (lift r >>= f)
  unfolding lift
  encoded-Has r f h = >>=-Keeps (Has queue size) (λ w. (r, w)) f (result-Keeps (Has queue size) r) h

  on_establish-Has :
      (conn : ℕ) (h : Header) (r : EstablishReq)
      → Keeps (Has queue size) (on_establish net p conn h r)
  unfolding on_establish
  on_establish-Has conn h r =
      >>=-Keeps (Has queue size) (on_manager (with_peer conn (modify peer_set_established))) _
        (on_manager-Has (with_peer conn (modify peer_set_established)))
        (λ _ w v.
          encoded-Has _ (send_to net p conn) (send_to-Has conn)
            (if r.mode == mode_gcs then record w { gcs_conn = some conn } else w)
            (joined conn (r.mode == mode_gcs) w v))
    where
      joined :
          (conn : ℕ) (b : Bool) (w : Worker)
          → Has queue size w
          → Has queue size (if b then record w { gcs_conn = some conn } else w)
      joined conn true w v = v
      joined conn false w v = v

  on_get_object_data-Has :
      (conn : ℕ) (r : GetObjectDataRequest)
      → Keeps (Has queue size) (on_get_object_data net p conn r)
  unfolding on_get_object_data
  on_get_object_data-Has conn r w =
      >>=-Keeps (Has queue size) (on_manager take_id) _ (on_manager-Has take_id)
        (λ seq.
          encoded-Has _ _
            (λ payload. ignore-Has (send_to net p conn payload) (send_to-Has conn payload)))
        w

  location_sent-Has :
      (uuid : GoString) (o : Option (Chan GoString))
      → Keeps (Has queue size) (location_sent net p uuid o)
  unfolding location_sent
  location_sent-Has uuid none w v = v
  location_sent-Has uuid (some ch) w v = v

  object_sent-Has :
      (uuid : GoString) (o : Option (Chan (List ℕ)))
      → Keeps (Has queue size) (object_sent net p uuid o)
  unfolding object_sent
  object_sent-Has uuid none w v = v
  object_sent-Has uuid (some ch) w v = v

  pub on_packet-Has :
      (now conn : ℕ) (h : Header) (m : Message)
      → h.uri ≡ uri_of (kind_of m)
      → h.uri ≢ ray_assign_task
      → Keeps (Has queue size) (on_packet net p now conn h m)
  unfolding on_packet uri_of kind_of as_establish_req as_get_object_data as_get_object_data_resp
      as_get_object_location_resp on_establish_ack on_get_object_location_resp
      on_get_object_data_resp
  on_packet-Has now conn h (establish_req r) u ne w v = rw u (on_establish-Has conn h r w v)
  on_packet-Has now conn h (establish_response r) u ne w v =
      rw u (on_manager-Has (with_peer conn (modify peer_notify_establish)) w v)
  on_packet-Has now conn h (assign_task r) u ne w v = absurd (ne u)
  on_packet-Has now conn h (get_object_data r) u ne w v = rw u (on_get_object_data-Has conn r w v)
  on_packet-Has now conn h (get_object_location_resp r) u ne w v = rw u (
      location_sent-Has r.uuid (chan_send r.node_addr (lookup r.uuid w.get_object_location_chan)) w
        v)
  on_packet-Has now conn h (get_object_data_resp r) u ne w v =
      rw u (object_sent-Has r.uuid (chan_send r.bytes (lookup r.uuid w.get_object_chan)) w v)
  on_packet-Has now conn h _ u ne w v = rw u v

  report_to-Has :
      (o : Option ℕ) (payload : List ℕ) → Keeps (Has queue size) (report_to net p o payload)
  unfolding report_to
  report_to-Has none payload = λ w v. v
  report_to-Has (some conn) payload =
      ignore-Has (send_to net p conn payload) (send_to-Has conn payload)

  -- A round of Loop on a channel with a result.
  pub report_object-Has :
      (id : GoString) (w : Worker)
      → Has (id ∷ queue) size w
      → Has queue size (report_object net p w).1
  unfolding report_object report_round
  report_object-Has id w (e, n) =
      subst (λ (q : List GoString). Has queue size (report_round net p q w).1) (sym e)
        (>>=-Keeps (Has queue size) (on_manager take_id) _ (on_manager-Has take_id)
          (λ seq. encoded-Has _ _ (λ payload w. report_to-Has w.gcs_conn payload w))
          (record w { register_chan = queue }) (refl, n))
