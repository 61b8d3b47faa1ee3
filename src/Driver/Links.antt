-- ===== src/Driver/Links.antt =====
-- core/driver/connection.go: the connections of the driver, over the tables of its manager. Its packets
-- are numbered by `take_seq`.
use mini_ray.Base.{List, modify, ℕ, Option, M}
use mini_ray.Driver.{Driver, on_packet, on_manager}
use mini_ray.Client.{Net}
use mini_ray.Codec.{Header}
use mini_ray.External.{Proto}
use mini_ray.Messages.{Message}
use mini_ray.Peers.{
  Manager, with_peer, take_seq, Connection, connection_send, peer_notify_establish,
}
use mini_ray.Peers.Ticks.{tick, shake_hand}
use mini_ray.Peers.Transports.{closed_transport, Transport}

-- The fields of a connection are those of a worker's.
abbrev pub Link : Type 0
Link = Connection

-- The tables and counters of the manager, as the scheduler's; typeConns, which only the driver's
-- ConnectionManager has, is a field of `Driver`.
abbrev pub ConnectionManager : Type 0
ConnectionManager = Manager

unfoldable pub notify_establish : ℕ → M Driver (Unit {0})
unfolding on_manager
notify_establish conn = on_manager (with_peer conn (modify peer_notify_establish))

-- Send: over the net.Conn where there is one, else over gnet.
unfoldable pub sends : Net → List ℕ → M Connection (Unit {0})
unfolding connection_send
sends net payload = connection_send net payload

-- The transport that Close closes.
unfoldable pub closes : Connection → Option Transport
unfolding closed_transport
closes c = closed_transport c

module _ (net : Net) (p : Proto) where
  unfoldable pub beat : ℕ → M Driver (Unit {0})
  unfolding on_manager
  beat conn = on_manager (shake_hand net p take_seq conn)

  unfoldable pub tick_one : ℕ → M Driver (Unit {0})
  unfolding on_manager
  tick_one conn = on_manager (tick net p take_seq conn)

  -- OnPacket of a connection.
  unfoldable pub takes_packet : ℕ → Header → Message → M Driver (Unit {0})
  takes_packet conn h m = on_packet net p conn h m
