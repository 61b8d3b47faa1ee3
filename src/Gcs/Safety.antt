-- ===== src/Gcs/Safety.antt =====
-- Which packets the GCS takes without a panic and without waiting.
use mini_ray.Peers.Tabled.{renewed-IsFiled, IsFiled}
use mini_ray.Base.{sym, subst, arith, gets, modify, true, ◌≡◌, ◌>>=◌, ℕ, M, refl, ◌≢◌}
use mini_ray.Gcs.{
  returned, on_manager, lift, send_to, on_establish, Gcs, on_establish_ack, on_report_task_result,
  on_packet,
}
use mini_ray.Base.Safety.{>>=-Safe, result-Safe, Safe, returns}
use mini_ray.Client.{Net}
use mini_ray.Codec.{ray_get_object_location, encode_payload, Header}
use mini_ray.Codec.Dispatch.{uri_of}
use mini_ray.External.{Proto}
use mini_ray.Messages.{
  kind_of, establish_req, ReportTaskResultRequest, Message, report_task_result, establish_response,
  get_object_location, as_establish_req, as_report_task_result,
}
use mini_ray.Peers.{
  peer_set_established, peer_send, with_peer, Peer, peer_remote, Manager, peer_notify_establish,
}
use mini_ray.Peers.Alive.{IsAlive-insert, with_peer-alive, peer_send-returns, IsAlive}

-- A connection object is at hand, and the table of connections names objects.
abbrev pub Holds : ℕ → Gcs → Type 0
Holds conn s = IsAlive conn s.manager.heap × IsFiled s.manager

module _ (net : Net) (p : Proto) (conn : ℕ) where
  pub peer-Safe :
      {A : Type 0} (f : M Peer A)
      → ((c : Peer) → returns (f c).0 ≡ true)
      → Safe (Holds conn) (on_manager (with_peer conn f))
  unfolding on_manager returned
  peer-Safe f h s (alive, filed) =
      let (c, e, back) = with_peer-alive conn f s.manager h alive in
      (
        subst (λ (m : Manager). IsAlive conn m.heap × IsFiled m) (sym e)
            (
              IsAlive-insert conn conn c s.manager.heap alive,
              renewed-IsFiled s.manager conn c filed,
            ),
        back,
      )

  answer-Safe :
      (h : Header) (m : Message)
      → Safe (Holds conn) (lift (encode_payload p h m) >>= send_to net p conn)
  unfolding lift send_to encode_payload
  answer-Safe h m =
      >>=-Safe (Holds conn) (λ s. (encode_payload p h m, s)) (send_to net p conn)
        (result-Safe (Holds conn) (encode_payload p h m) (ground arith))
        (λ payload. peer-Safe (peer_send net payload) (peer_send-returns net payload))

  on_establish-Safe : (h : Header) → Safe (Holds conn) (on_establish net p conn h)
  unfolding on_establish
  on_establish-Safe h =
      >>=-Safe (Holds conn) (on_manager (with_peer conn (modify peer_set_established))) _
        (peer-Safe (modify peer_set_established) (λ c. refl)) (λ _. answer-Safe _ _)

  on_report_task_result-Safe :
      (r : ReportTaskResultRequest) → Safe (Holds conn) (on_report_task_result net p conn r)
  unfolding on_report_task_result
  on_report_task_result-Safe r =
      >>=-Safe (Holds conn) (on_manager (with_peer conn (gets peer_remote))) _
        (peer-Safe (gets peer_remote) (λ c. refl)) (λ remote s v. (v, refl))

  -- OnPacket of the GCS comes back with a value or an error, neither panicking nor waiting, for
  -- every packet that the codec gives over a connection object, other than a request for the
  -- location of an object; the connection object stays, and so do those in the manager's table.
  pub on_packet-Safe :
      (h : Header) (m : Message)
      → h.uri ≡ uri_of (kind_of m)
      → h.uri ≢ ray_get_object_location
      → Safe (Holds conn) (on_packet net p conn h m)
  unfolding on_packet uri_of kind_of as_establish_req as_report_task_result on_establish_ack
  on_packet-Safe h (establish_req r) u ne s v = rw u (on_establish-Safe h s v)
  on_packet-Safe h (establish_response r) u ne s v =
      rw u (peer-Safe (modify peer_notify_establish) (λ c. refl) s v)
  on_packet-Safe h (report_task_result r) u ne s v = rw u (on_report_task_result-Safe r s v)
  on_packet-Safe h (get_object_location r) u ne s v = absurd (ne u)
  on_packet-Safe h _ u ne s v = rw u (v, refl)
