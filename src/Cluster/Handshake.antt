-- ===== src/Cluster/Handshake.antt =====
-- A scheduler that dials a worker: Establish over its outgoing connection (common/client_conn.go),
-- the worker's OnTraffic and answer, and the answer in the scheduler's OnPacket.
use mini_ray.Scheduler.Node.{receive}
use mini_ray.Scheduler.Sent.{receive-establish_ack}
use mini_ray.Base.{
  [], some, length, ◌^◌, ok, ◌%◌, List, ◌≡◌, ℕ, true, refl, ◌+◌, ◌∷◌, ◌<◌, arith, codes, nat_eq,
  bytes_eq,
}
use mini_ray.Cluster.{returned_ok, packet_of-IsSent, packet_of}
use mini_ray.Base.Maps.{lookup-insert_self, lookup}
use mini_ray.Client.{Client, Net, hour}
use mini_ray.Client.Dials.{dialed, enter-open}
use mini_ray.Client.Loop.{enter, at, inner}
use mini_ray.Worker.Packets.{on_packet}
use mini_ray.Codec.{meta_establish, meta_establish_ack, encode_payload, Header}
use mini_ray.Codec.Dispatch.{uri_of}
use mini_ray.External.{Reader, Proto}
use mini_ray.Frame.{make_frame}
use mini_ray.Messages.{establish_response, Message, establish_req, kind_of, as_establish_req}
use mini_ray.Peers.{outbound, inbound, Connection}
use mini_ray.Scheduler.{Scheduler, mode_worker, mode_scheduler}
use mini_ray.Traffic.{done, stay, serve}
use mini_ray.Traffic.Bytes.{seen}
use mini_ray.Traffic.Stream.{serve-one}
use mini_ray.Worker.{Worker}
use mini_ray.Worker.Packets.Sent.{with_frame, with_peer_at, on_establish-answers}

-- The header of Establish and of its answer.
abbrev pub numbered : ℕ → Client → Header
numbered uri d = record { uri = uri; seq_id = (d.seq_id + 1) % 2 ^ 64 }

abbrev pub greeting : Client → Message
greeting d = establish_req (record { addr = d.local_addr; mode = mode_scheduler })

abbrev pub welcome : Message
welcome = establish_response (record { mode = mode_worker; error = codes "OK" })

module _ (net : Net) (p : Proto) where
  -- The worker reads Establish and answers.
  serve-establish :
      {C : Type 0} (g : Reader C) (input : C) (now conn : ℕ) (body answer : List ℕ) (d : Client)
      (c : Connection) (w : Worker)
      → encode_payload p (numbered meta_establish d) (greeting d) ≡ ok body
      → length body < 2 ^ 32
      → encode_payload p (numbered meta_establish_ack d) welcome ≡ ok answer
      → g.inbound input ≡ make_frame body
      → lookup conn w.manager.heap ≡ some (inbound c)
      → c.gnet_c ≡ true
      → net c.id (make_frame answer ∷ c.outbox) ≡ true
      → seen g.inbound (serve g p (on_packet net p now conn) input w)
        ≡ done stay [] (
            with_peer_at conn
              (with_frame (record c { established = true }) (make_frame answer))
              (with_peer_at conn (record c { established = true }) w))
  unfolding on_packet as_establish_req
  serve-establish g input now conn body answer d c w enc fits enc' e here open_transport taken =
      serve-one g p (on_packet net p now conn) input
        (packet_of (numbered meta_establish d) (greeting d) body) w _
        (packet_of-IsSent p (numbered meta_establish d) (greeting d) body
          (unfold kind_of uri_of in refl) (omega arith) enc fits)
        e
        (on_establish-answers net p conn (numbered meta_establish d)
          (record { addr = d.local_addr; mode = mode_scheduler }) answer c w refl enc' here
          open_transport taken)

  -- A scheduler dials a worker. Where Establish and its answer can be encoded, in less than 2^32
  -- bytes each, both transports take what is written, and each side has the frame of the other in
  -- its buffer and nothing else: the loop of the connection of the scheduler enters its inner loop
  -- with exactly Establish written; OnTraffic of the worker ends with gnet.None and nothing left
  -- over, its connection is established, and exactly one frame was written, the answer; and
  -- OnTraffic over the connection of the scheduler ends with gnet.None and nothing left over, the
  -- connection is filed under the address of the worker, is established, and has no failures.
  pub handshake :
      {C D : Type 0} (g : Reader C) (g' : Reader D) (input : C) (reply : D)
      (t now now' h conn k : ℕ) (body answer : List ℕ) (d : Client) (c : Connection) (w : Worker)
      (s : Scheduler)
      → encode_payload p (numbered meta_establish d) (greeting d) ≡ ok body
      → length body < 2 ^ 32
      → encode_payload p (numbered meta_establish_ack d) welcome ≡ ok answer
      → length answer < 2 ^ 32
      → net d.id (make_frame body ∷ d.outbox) ≡ true
      → g.inbound input ≡ make_frame body
      → lookup conn w.manager.heap ≡ some (inbound c)
      → c.gnet_c ≡ true
      → net c.id (make_frame answer ∷ c.outbox) ≡ true
      → g'.inbound reply ≡ make_frame answer
      → lookup k s.manager.heap ≡ some (outbound (dialed t h body d))
      → (enter net p mode_scheduler t h d ≡ at inner (dialed t h body d))
        × ((w' : Worker) × (seen g.inbound (serve g p (on_packet net p now conn) input w)
              ≡ done stay [] w')
            × (lookup conn w'.manager.heap
                ≡ some (
                    inbound
                      (record c { established = true; outbox = make_frame answer ∷ c.outbox }))))
        × ((s' : Scheduler) × (seen g'.inbound (serve g' p (receive net p now' k) reply s)
              ≡ done stay [] s')
            × (lookup d.endpoint s'.worker_conns ≡ some k)
            × (lookup k s'.manager.heap
                ≡ some (
                    outbound (record (dialed t h body d) {
                      last_recv = now';
                      next_dial = now' + hour;
                      established = true;
                      failure = 0;
                    }))))
  handshake g g' input reply t now now' h conn k body answer d c w s enc fits enc' fits' sent e here
        open_transport taken e' there =
      let (r, filed, ready) =
        receive-establish_ack net p k now' ((d.seq_id + 1) % 2 ^ 64) (dialed t h body d) s there in
      (
        enter-open net p mode_scheduler t h body d enc sent,
        (
          _,
          serve-establish g input now conn body answer d c w enc fits enc' e here open_transport
              taken,
          lookup-insert_self conn _ _,
        ),
        (
          _,
          serve-one g' p (receive net p now' k) reply
              (packet_of (numbered meta_establish_ack d) welcome answer) s _
              (packet_of-IsSent p (numbered meta_establish_ack d) welcome answer
                (unfold kind_of uri_of in refl) (omega arith) enc' fits')
              e' (returned_ok r),
          filed,
          ready,
        ),
      )
