-- ===== src/Scheduler/Links.antt =====
-- core/scheduler/connection.go: the incoming connections of the scheduler, over the tables of its manager.
-- Its packets are numbered by `take_id`.
use mini_ray.Codec.{Header}
use mini_ray.Link.Write.{write_full}
use mini_ray.Messages.{Message}
use mini_ray.Peers.Transports.{closed_transport, Transport, read_frame_of}
use mini_ray.Base.{Result, List, Option, modify, GoString, M, ℕ}
use mini_ray.Scheduler.{on_packet, on_manager, Scheduler}
use mini_ray.Client.{Net}
use mini_ray.External.{Writer, Proto}
use mini_ray.Peers.{
  peer_set_established, connection_send, Connection, peer_notify_establish, incoming, with_peer,
  take_id,
}
use mini_ray.Peers.Ticks.{establish, loop_round, shake_hand, tick}

-- The fields of a connection are those of a worker's.
abbrev pub Link : Type 0
Link = Connection

unfoldable pub new_link : ℕ → GoString → Connection
unfolding incoming
new_link id remote = incoming id remote

unfoldable pub notify_establish : ℕ → M Scheduler (Unit {0})
unfolding on_manager
notify_establish conn = on_manager (with_peer conn (modify peer_notify_establish))

-- A round of Loop that takes the notice of an EstablishAck, if there is one.
unfoldable pub notice : ℕ → Scheduler → Scheduler
notice id s = record s { manager = loop_round id s.manager }

unfoldable pub marks_established : ℕ → M Scheduler (Unit {0})
unfolding on_manager
marks_established conn = on_manager (with_peer conn (modify peer_set_established))

-- Send: over the net.Conn where there is one, else over gnet.
unfoldable pub sends : Net → List ℕ → M Connection (Unit {0})
unfolding connection_send
sends net payload = connection_send net payload

-- readFrame, on the bytes that the net.Conn delivers, where there is one.
unfoldable pub frame_over : Option (List ℕ) → Result (List ℕ) × Option (List ℕ)
unfolding read_frame_of
frame_over delivered = read_frame_of delivered

-- The transport that Close closes.
unfoldable pub closes : Connection → Option Transport
unfolding closed_transport
closes c = closed_transport c

-- writeFull.
unfoldable pub writes : {W : Type 0} → Writer W → List ℕ → W → Option (Result (Unit {0}) × W)
unfolding write_full
writes o bytes w = write_full o bytes w

module _ (net : Net) (p : Proto) where
  -- Establish with the address that the node advertises, and no mode.
  unfoldable pub greet : GoString → ℕ → M Scheduler (Unit {0})
  unfolding on_manager
  greet advertise conn = on_manager (establish net p take_id advertise 0 conn)

  unfoldable pub beat : ℕ → M Scheduler (Unit {0})
  unfolding on_manager
  beat conn = on_manager (shake_hand net p take_id conn)

  unfoldable pub tick_one : ℕ → M Scheduler (Unit {0})
  unfolding on_manager
  tick_one conn = on_manager (tick net p take_id conn)

  -- OnPacket of an incoming connection.
  unfoldable pub takes_packet : ℕ → Header → Message → M Scheduler (Unit {0})
  takes_packet conn h m = on_packet net p conn h m
